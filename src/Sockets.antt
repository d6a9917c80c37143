-- ===== src/Sockets.antt =====
-- The calls on sockets and locks of miniftpd/sysutil.c.
pub mod Calls
pub mod Sound
pub mod Connect
use mini_ftp.Base.{
  ℕ, Bool, true, false, Option, none, some, List, [], ◌∷◌, ltb, ◌==◌, if◌then◌else◌, Bytes,
}
use mini_ftp.Base.Int.{ℤ, pos, minus_one}
use mini_ftp.Commands.Reply.{Env, sys}
use mini_ftp.Session.Kernel
use mini_ftp.Session.Kernel.{
  Selected, ready, timed_out, failed, Wait, returns, Connecting, connected, in_progress, refused,
  Lock, locked,
}
use mini_ftp.Session.{
  SockAddr, Call, socket, setsockopt, fcntl_getfl, set_nonblock, clear_nonblock, ioctl, listen,
  accept, close, bind, connect, lock_read, lock_write, unlock, Event, called, Proc, Out, done, hung,
  M, pure, ◌>>=◌, ◌>>◌, ask, log, exit,
}

module _ (env : Env) where
  -- A call that returns a descriptor.
  unfoldable pub open_fd : Call → M (Option ℕ)
  open_fd c p = done (env.kernel.descriptor p.trace c) (record p { trace = called c ∷ p.trace })

  -- ERR_EXIT where a call returns -1.
  unfoldable pub need : Call → M (Unit {0})
  need c = do ok ← sys env c; if ok then pure tt else exit 1

  unfoldable pub need_fd : Call → M ℤ
  unfolding open_fd
  need_fd c = do fd ← open_fd c; elim fd [ none ↦ exit 1 | some n ↦ pure (pos n) ]

  -- The address of eth0 as a text.
  unfoldable pub get_local_ip : M Bytes
  unfolding need need_fd
  get_local_ip = do
    sockfd ← need_fd socket
    need (ioctl sockfd)
    addr ← ask (λ p. env.kernel.interface_addr p.trace)
    _ ← sys env (close sockfd)
    pure (env.kernel.inet_ntoa addr)

  unfoldable pub bind_client : ℤ → ℕ → M (Unit {0})
  unfolding need get_local_ip
  bind_client sockfd port = do
    need (setsockopt sockfd)
    ip ← get_local_ip
    need (bind sockfd (record { port = port; addr = env.kernel.inet_addr ip }))

  unfoldable pub tcp_client : ℕ → M ℤ
  unfolding need_fd bind_client
  tcp_client port = do
    sockfd ← need_fd socket
    if ltb 0 port then bind_client sockfd port else pure tt
    pure sockfd

  -- The address of `tcp_server`: an address or a name, and 0.0.0.0 for none.
  unfoldable pub server_addr : Option Bytes → M Bytes
  server_addr none = pure (0 ∷ 0 ∷ 0 ∷ 0 ∷ [])
  server_addr (some host) = elim (env.kernel.inet_aton host) [
    | some addr ↦ pure addr
    | none ↦ do
      hp ← ask (λ p. env.kernel.gethostbyname p.trace host)
      elim hp [ none ↦ exit 1 | some addr ↦ pure addr ]
  ]

  unfoldable pub tcp_server : Option Bytes → ℕ → M ℤ
  unfolding need need_fd server_addr
  tcp_server host port = do
    listenfd ← need_fd socket
    addr ← server_addr host
    need (setsockopt listenfd)
    need (bind listenfd (record { port = port; addr = addr }))
    need (listen listenfd)
    pure listenfd

  unfoldable pub activate_nonblock : ℤ → M (Unit {0})
  unfolding need
  activate_nonblock fd = do need (fcntl_getfl fd); need (set_nonblock fd)

  unfoldable pub deactivate_nonblock : ℤ → M (Unit {0})
  unfolding need
  deactivate_nonblock fd = do need (fcntl_getfl fd); need (clear_nonblock fd)

  -- The `do` around `select`, while it is interrupted.
  unfoldable pub select_loop : List Wait → M Selected
  select_loop [] p = hung p
  select_loop (Wait.interrupted ∷ ws) p = select_loop ws p
  select_loop (returns r ∷ ws) p = done r p

  unfoldable pub wait_for : M Selected
  unfolding select_loop
  wait_for p = select_loop (env.kernel.waits p.trace) p

  -- What `read_timeout` and `write_timeout` come to: 0, -1 with ETIMEDOUT, or -1.
  unfoldable pub read_timeout : ℕ → M Selected
  unfolding wait_for
  read_timeout wait_seconds = if ltb 0 wait_seconds then wait_for else pure ready

  unfoldable pub write_timeout : ℕ → M Selected
  unfolding wait_for
  write_timeout wait_seconds = if ltb 0 wait_seconds then wait_for else pure ready

  -- A descriptor, or -1.
  unfoldable pub accept_timeout : ℤ → ℕ → M (Option ℕ)
  unfolding wait_for open_fd
  accept_timeout fd wait_seconds = do
    r ← read_timeout wait_seconds
    elim r [ ready ↦ open_fd (accept fd) | timed_out ↦ pure none | failed ↦ pure none ]

  -- Behind a `select` that returned 1: -1 at once if `getsockopt` fails.
  unfoldable pub socket_result : (Bool → M Bool) → M Bool
  socket_result finish = do
    err ← ask (λ p. env.kernel.socket_error p.trace)
    elim err [ none ↦ pure false | some e ↦ finish (e == 0) ]

  -- Behind a `connect` that is in progress: `finish` is the end of the function.
  unfoldable pub connect_wait : (Bool → M Bool) → M Bool
  unfolding wait_for socket_result
  connect_wait finish = do
    r ← wait_for
    elim r [ timed_out ↦ finish false | failed ↦ pure false | ready ↦ socket_result finish ]

  unfoldable pub connect_end : ℤ → ℕ → Bool → M Bool
  unfolding deactivate_nonblock
  connect_end fd wait_seconds ret = do
    if ltb 0 wait_seconds then deactivate_nonblock fd else pure tt
    pure ret

  -- Whether it returned 0.
  unfoldable pub connect_timeout : ℤ → SockAddr → ℕ → M Bool
  unfolding activate_nonblock connect_wait connect_end
  connect_timeout fd addr wait_seconds = do
    if ltb 0 wait_seconds then activate_nonblock fd else pure tt
    r ← ask (λ p. env.kernel.connects p.trace)
    log (called (connect fd addr))
    elim r [
      | connected ↦ connect_end fd wait_seconds true
      | refused ↦ connect_end fd wait_seconds false
      | in_progress ↦ connect_wait (connect_end fd wait_seconds)
    ]

  unfoldable pub lock_loop : ℤ → List Lock → M Bool
  lock_loop fd [] p = hung p
  lock_loop fd (Lock.interrupted ∷ ls) p =
      lock_loop fd ls (record p { trace = called (lock_read fd) ∷ p.trace })
  lock_loop fd (locked ∷ ls) p = done true (record p { trace = called (lock_read fd) ∷ p.trace })
  lock_loop fd (Lock.refused ∷ ls) p =
      done false (record p { trace = called (lock_read fd) ∷ p.trace })

  unfoldable pub lock_file_read : ℤ → M Bool
  unfolding lock_loop
  lock_file_read fd p = lock_loop fd (env.kernel.locks p.trace) p

  unfoldable pub lock_file_write : ℤ → M Bool
  lock_file_write fd = sys env (lock_write fd)

  unfoldable pub unlock_file : ℤ → M Bool
  unlock_file fd = sys env (unlock fd)

  unfoldable pub get_curr_time : M (ℕ × ℕ)
  get_curr_time = do
    t ← ask (λ p. env.kernel.gettimeofday p.trace)
    elim t [ none ↦ exit 1 | some now ↦ pure now ]
