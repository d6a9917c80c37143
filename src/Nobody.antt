-- ===== src/Nobody.antt =====
-- miniftpd/priv_command.c and miniftpd/ftp_nobody.c: the process that opens the data connections of a
-- client.
pub mod Replies
pub mod Sound
pub mod Loop
mod Ending
mod Tests
use mini_ftp.Base.{
  ℕ, zero, suc, ◌%◌, ◌^◌, Option, none, some, [], ◌∷◌, ltb, ◌==◌, if◌then◌else◌, Bytes, length,
}
use mini_ftp.Base.Int.{ℤ, pos, minus_one, is_minus_one}
use mini_ftp.Base.Text.{codes}
use mini_ftp.Base.Run.{Run}
use mini_ftp.Clients.{Tables, handle_sigchld}
use mini_ftp.Commands.Reply.{Passwd, Env, sys}
use mini_ftp.PrivSock.{
  priv_sock_recv_cmd, priv_sock_send_result, priv_sock_send_int, priv_sock_recv_int,
  priv_sock_recv_str, priv_sock_send_fd,
}
use mini_ftp.Session.{
  SockAddr, Session, Call, setegid, seteuid, capset, close, Proc, Out, killed, hung, M, pure, ◌>>=◌,
  ◌>>◌, ask, modify, exit, fault,
}
use mini_ftp.Sockets.{need, get_local_ip, tcp_client, tcp_server, accept_timeout, connect_timeout}

-- miniftpd/priv_sock.h.
abbrev pub get_data_sock : ℕ
get_data_sock = 1

abbrev pub pasv_active : ℕ
pasv_active = 2

abbrev pub pasv_listen : ℕ
pasv_listen = 3

abbrev pub pasv_accept : ℕ
pasv_accept = 4

abbrev pub result_ok : ℕ
result_ok = 1

abbrev pub result_bad : ℕ
result_bad = 2

-- Where an assertion of the handler fails, the process is aborted. What the handler does to the
-- tables is not read in this process.
unfoldable pub behind_handler : Run Tables → M (Unit {0})
behind_handler (Run.ok t) = pure tt
behind_handler (Run.exited status) = exit status
behind_handler Run.abort = killed

module _ (env : Env) where
  -- The result and the descriptor go to the other process, and the descriptor is closed here.
  unfoldable pub hand_over : ℤ → M (Unit {0})
  hand_over fd = do
    priv_sock_send_result result_ok
    priv_sock_send_fd env fd
    _ ← sys env (close fd)
    pure tt

  -- The text in the array of 16 bytes, which is read past its end where no NUL is left.
  unfoldable pub text_of : Bytes → M Bytes
  text_of ip = if ltb (length ip) 16 then pure ip else fault

  unfoldable pub privop_pasv_get_data_sock : M (Unit {0})
  unfolding hand_over text_of
  privop_pasv_get_data_sock = do
    ip ← priv_sock_recv_str 16
    port ← priv_sock_recv_int
    data_fd ← tcp_client env 20
    text ← text_of ip
    ok ←
        connect_timeout env data_fd
          (record { port = port % 2 ^ 16; addr = env.kernel.inet_addr text })
          env.config.data_connection_timeout
    if ok then hand_over data_fd else exit 1

  unfoldable pub privop_pasv_active : M (Unit {0})
  privop_pasv_active = do
    listen_fd ← ask (λ p. p.sess.listen_fd)
    priv_sock_send_int (if is_minus_one listen_fd then 0 else 1)

  -- Without a name for the socket no reply is sent.
  unfoldable pub privop_pasv_listen : M (Unit {0})
  privop_pasv_listen = do
    ip ← get_local_ip env
    listen_fd ← tcp_server env (some ip) 20
    modify (λ s. record s { listen_fd = listen_fd })
    bound ← ask (λ p. env.kernel.bound_port p.trace)
    elim bound [
      | none ↦ pure tt
      | some port ↦ do priv_sock_send_result result_ok; priv_sock_send_int (port % 2 ^ 16)
    ]

  unfoldable pub pass_client : Option ℕ → M (Unit {0})
  unfolding hand_over
  pass_client none = do priv_sock_send_result result_bad; exit 1
  pass_client (some peerfd) = do
    listen_fd ← ask (λ p. p.sess.listen_fd)
    _ ← sys env (close listen_fd)
    modify (λ s. record s { listen_fd = minus_one })
    hand_over (pos peerfd)

  unfoldable pub privop_pasv_accept : M (Unit {0})
  unfolding pass_client
  privop_pasv_accept = do
    listen_fd ← ask (λ p. p.sess.listen_fd)
    peerfd ← accept_timeout env listen_fd env.config.accept_timeout
    pass_client peerfd

  -- The `switch` of `handle_nobody`.
  unfoldable pub handle_cmd : ℕ → M (Unit {0})
  unfolding privop_pasv_get_data_sock privop_pasv_active privop_pasv_listen privop_pasv_accept
  handle_cmd cmd =
      if cmd == get_data_sock
      then privop_pasv_get_data_sock
      else if cmd == pasv_active
      then privop_pasv_active
      else if cmd == pasv_listen
      then privop_pasv_listen
      else if cmd == pasv_accept
      then privop_pasv_accept
      else exit 1

  -- The handler of SIGCHLD, which this process has from the server, on its own child.
  unfoldable pub inherited_sigchld : M (Unit {0})
  unfolding behind_handler
  inherited_sigchld p =
      behind_handler
        (handle_sigchld env.kernel.inherited (env.kernel.reaped p.trace (length p.wire.inbox))) p

  unfoldable pub nobody_round : M (Unit {0})
  unfolding handle_cmd inherited_sigchld
  nobody_round = do inherited_sigchld; cmd ← priv_sock_recv_cmd; handle_cmd cmd

  -- Each round reads at least one byte, so that one round more than bytes arrive is enough fuel.
  unfoldable pub nobody_loop : ℕ → M (Unit {0})
  unfolding nobody_round
  nobody_loop zero = λ p. hung p
  nobody_loop (suc fuel) = do nobody_round; nobody_loop fuel

  unfoldable pub set_nobody : M (Unit {0})
  set_nobody = do
    found ← ask (λ p. env.getpwnam p.trace (codes "nobody"))
    elim found [
      | none ↦ exit 1
      | some pw ↦ do need env (setegid pw.pw_gid); need env (seteuid pw.pw_uid)
    ]

  unfoldable pub set_bind_capabilities : M (Unit {0})
  set_bind_capabilities = need env capset

  unfoldable pub handle_nobody : M (Unit {0})
  unfolding nobody_loop set_nobody set_bind_capabilities
  handle_nobody = do
    set_nobody
    set_bind_capabilities
    arriving ← ask (λ p. length p.wire.inbox)
    nobody_loop (suc arriving)
