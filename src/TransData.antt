-- ===== src/TransData.antt =====
-- miniftpd/trans_data.c: the data connection of a transfer, on the side of the process that talks to
-- the client, and PASV of miniftpd/command_map.c.
pub mod Listing
pub mod Transfer
pub mod Exchange
pub mod Sound
pub mod Modes
pub mod Sides
pub mod Agreement
mod Tests
use mini_ftp.Base.{
  ℕ, ◌/◌, ◌%◌, ◌^◌, Bool, true, false, not, ◌&&◌, Option, none, some, [], ◌∷◌, ◌++◌, ltb, ◌==◌,
  if◌then◌else◌, Bytes,
}
use mini_ftp.Base.Decimal.{decimal}
use mini_ftp.Base.Int.{ℤ, minus_one}
use mini_ftp.Base.Text.{codes}
use mini_ftp.Commands.Codes
use mini_ftp.Commands.Reply.{Env, snprintf, ftp_reply, sys}
use mini_ftp.Nobody.{get_data_sock, pasv_active, pasv_listen, pasv_accept, result_bad}
use mini_ftp.PrivSock.{
  priv_sock_send_cmd, priv_sock_recv_result, priv_sock_send_int, priv_sock_recv_int,
  priv_sock_send_str, priv_sock_recv_fd,
}
use mini_ftp.Session.{SockAddr, Session, close, M, pure, ◌>>=◌, ◌>>◌, ask, modify, exit, fault}
use mini_ftp.Sockets.{get_local_ip}
use mini_ftp.TransCtrl.{setup_signal_alarm_data_fd, start_signal_alarm_data_fd}

abbrev pub is_some : {A : Type 0} → Option A → Bool
is_some none = false
is_some (some a) = true

module _ (env : Env) where
  unfoldable pub is_port_active : M Bool
  is_port_active = ask (λ p. is_some p.sess.p_addr)

  unfoldable pub is_pasv_active : M Bool
  is_pasv_active = do priv_sock_send_cmd pasv_active; n ← priv_sock_recv_int; pure (not (n == 0))

  -- The bytes of the port and of the address lie in network order in `p_addr`.
  unfoldable pub ask_for_port : SockAddr → M (Unit {0})
  ask_for_port a = do
    priv_sock_send_str (env.kernel.inet_ntoa a.addr)
    priv_sock_send_int a.port
    result ← priv_sock_recv_result
    if result == result_bad
        then exit 1
        else (do fd ← priv_sock_recv_fd; modify (λ s. record s { data_fd = fd; p_addr = none }))

  unfoldable pub ask_for : Option SockAddr → M (Unit {0})
  unfolding ask_for_port
  ask_for none = fault
  ask_for (some a) = ask_for_port a

  -- `sess->p_addr` is read behind the first message.
  unfoldable pub get_port_data_fd : M (Unit {0})
  unfolding ask_for
  get_port_data_fd = do
    priv_sock_send_cmd get_data_sock
    p_addr ← ask (λ p. p.sess.p_addr)
    ask_for p_addr

  unfoldable pub get_pasv_data_fd : M (Unit {0})
  get_pasv_data_fd = do
    priv_sock_send_cmd pasv_accept
    res ← priv_sock_recv_result
    if res == result_bad
        then (do ftp_reply env Codes.bad_cmd (codes "get pasv data_fd error"); exit 1)
        else (do
          fd ← priv_sock_recv_fd
          modify (λ s. record s { data_fd = fd })
          listen_fd ← ask (λ p. p.sess.listen_fd)
          _ ← sys env (close listen_fd)
          modify (λ s. record s { listen_fd = minus_one }))

  -- Behind the two questions which mode is active.
  unfoldable pub connect_data : Bool → Bool → M (Unit {0})
  unfolding get_port_data_fd get_pasv_data_fd
  connect_data is_port is_pasv = do
    if not is_port && not is_pasv
        then (do ftp_reply env Codes.bad_send_conn (codes "Use PORT or PASV first."); exit 1)
        else pure tt
    if is_port && is_pasv then exit 1 else pure tt
    if is_port then get_port_data_fd else pure tt
    if is_pasv then get_pasv_data_fd else pure tt
    setup_signal_alarm_data_fd env
    start_signal_alarm_data_fd env

  -- It returns 1 wherever it returns.
  unfoldable pub get_trans_data_fd : M (Unit {0})
  unfolding is_port_active is_pasv_active connect_data
  get_trans_data_fd = do
    is_port ← is_port_active
    is_pasv ← is_pasv_active
    connect_data is_port is_pasv

  abbrev pub comma : ℕ → Bytes → Bytes
  comma n text = decimal n ++ (b',' ∷ text)

  -- The numbers of the address and of the port, in the text of the reply.
  unfoldable pub pasv_text : Bytes → ℕ → Bytes
  pasv_text ip port =
      let v : ℕ → ℕ = env.kernel.scan_ip ip in
      codes "Entering Passive Mode ("
      ++ comma (v 0) (
          comma (v 1) (
            comma (v 2)
              (comma (v 3) (comma (port / 2 ^ 8) (decimal (port % 2 ^ 8) ++ codes ").")))))

  unfoldable pub do_pasv : M (Unit {0})
  unfolding pasv_text
  do_pasv = do
    ip ← get_local_ip env
    priv_sock_send_cmd pasv_listen
    res ← priv_sock_recv_result
    if res == result_bad then ftp_reply env Codes.bad_cmd (codes "get listenfd") else (do
      port ← priv_sock_recv_int
      ftp_reply env Codes.pasv_ok (snprintf 1024 (pasv_text ip (port % 2 ^ 16))))
