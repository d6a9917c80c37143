-- ===== src/Sockets/Sound/Opening.antt =====
-- The calls of miniftpd/sysutil.c that open sockets and wait for them keep the session sound.
use mini_ftp.Base.{ℕ, Bool, true, false, Option, none, some, List, [], ◌∷◌, ltb, ◌==◌, Bytes}
use mini_ftp.Base.Int.{ℤ}
use mini_ftp.Commands.Reply.{Env}
use mini_ftp.Commands.Sound.{IsSound}
use mini_ftp.Session.Invariant.{
  Keeps, Leaves, bind-Leaves, if-Leaves, option-Leaves, done-Leaves, exited-Leaves, hung-Leaves,
}
use mini_ftp.Session.Kernel.{
  Selected, ready, timed_out, failed, Wait, returns, Connecting, connected, in_progress, refused,
}
use mini_ftp.Session.{SockAddr, Session, Proc, done, M, accept}
use mini_ftp.Sockets.Sound.{open_fd-IsSound, need-IsSound, need_fd-IsSound, get_local_ip-IsSound}
use mini_ftp.Sockets.{
  open_fd, bind_client, tcp_client, server_addr, tcp_server, activate_nonblock, deactivate_nonblock,
  select_loop, wait_for, read_timeout, accept_timeout, socket_result, connect_wait, connect_end,
  connect_timeout,
}

module _ (env : Env) (s₀ : Session) where
  bind_client-IsSound : (fd : ℤ) (port : ℕ) → Keeps (IsSound s₀) (bind_client env fd port)
  unfolding bind_client
  bind_client-IsSound fd port p h =
      bind-Leaves _ _ (need-IsSound env s₀ _ p h) λ _ q h.
        bind-Leaves _ _ (get_local_ip-IsSound env s₀ q h) λ ip q h. need-IsSound env s₀ _ q h

  pub tcp_client-IsSound : (port : ℕ) → Keeps (IsSound s₀) (tcp_client env port)
  unfolding tcp_client
  tcp_client-IsSound port p h = bind-Leaves _ _ (need_fd-IsSound env s₀ _ p h) λ fd q h.
      bind-Leaves _ _
        (if-Leaves (ltb 0 port) _ _ q (bind_client-IsSound fd port q h) (done-Leaves _ _ h))
        λ _ q h. done-Leaves _ _ h

  server_addr-IsSound : (host : Option Bytes) → Keeps (IsSound s₀) (server_addr env host)
  unfolding server_addr
  server_addr-IsSound none p h = done-Leaves _ _ h
  server_addr-IsSound (some host) p h =
      option-Leaves (env.kernel.inet_aton host) _ _ p
        (option-Leaves (env.kernel.gethostbyname p.trace host) _ _ p (exited-Leaves _ _ h)
          λ a. done-Leaves _ _ h)
        λ a. done-Leaves _ _ h

  pub tcp_server-IsSound :
      (host : Option Bytes) (port : ℕ) → Keeps (IsSound s₀) (tcp_server env host port)
  unfolding tcp_server
  tcp_server-IsSound host port p h = bind-Leaves _ _ (need_fd-IsSound env s₀ _ p h) λ fd q h.
      bind-Leaves _ _ (server_addr-IsSound host q h) λ addr q h.
        bind-Leaves _ _ (need-IsSound env s₀ _ q h) λ _ q h.
          bind-Leaves _ _ (need-IsSound env s₀ _ q h)
            λ _ q h. bind-Leaves _ _ (need-IsSound env s₀ _ q h) λ _ q h. done-Leaves _ _ h

  activate_nonblock-IsSound : (fd : ℤ) → Keeps (IsSound s₀) (activate_nonblock env fd)
  unfolding activate_nonblock
  activate_nonblock-IsSound fd p h =
      bind-Leaves _ _ (need-IsSound env s₀ _ p h) λ _ q h. need-IsSound env s₀ _ q h

  deactivate_nonblock-IsSound : (fd : ℤ) → Keeps (IsSound s₀) (deactivate_nonblock env fd)
  unfolding deactivate_nonblock
  deactivate_nonblock-IsSound fd p h =
      bind-Leaves _ _ (need-IsSound env s₀ _ p h) λ _ q h. need-IsSound env s₀ _ q h

  select_loop-IsSound : (ws : List Wait) → Keeps (IsSound s₀) (select_loop env ws)
  unfolding select_loop
  select_loop-IsSound [] p h = hung-Leaves _ h
  select_loop-IsSound (Wait.interrupted ∷ ws) p h = select_loop-IsSound ws p h
  select_loop-IsSound (returns r ∷ ws) p h = done-Leaves _ _ h

  wait_for-IsSound : Keeps (IsSound s₀) (wait_for env)
  unfolding wait_for
  wait_for-IsSound p h = select_loop-IsSound (env.kernel.waits p.trace) p h

  read_timeout-IsSound : (seconds : ℕ) → Keeps (IsSound s₀) (read_timeout env seconds)
  unfolding read_timeout
  read_timeout-IsSound seconds p h =
      if-Leaves (ltb 0 seconds) _ _ p (wait_for-IsSound p h) (done-Leaves _ _ h)

  accepted-IsSound :
      (fd : ℤ) (r : Selected) (q : Proc)
      → IsSound s₀ q.sess
      → Leaves (IsSound s₀) (
          let next : M (Option ℕ) = elim r [
            | ready ↦ open_fd env (accept fd)
            | timed_out ↦ (λ p. done none p)
            | failed ↦ (λ p. done none p)
          ] in
          next q)
  accepted-IsSound fd ready q h = open_fd-IsSound env s₀ _ q h
  accepted-IsSound fd timed_out q h = done-Leaves _ _ h
  accepted-IsSound fd failed q h = done-Leaves _ _ h

  pub accept_timeout-IsSound :
      (fd : ℤ) (seconds : ℕ) → Keeps (IsSound s₀) (accept_timeout env fd seconds)
  unfolding accept_timeout
  accept_timeout-IsSound fd seconds p h =
      bind-Leaves _ _ (read_timeout-IsSound seconds p h) λ r q h. accepted-IsSound fd r q h

  module _ (finish : Bool → M Bool) (keep : (b : Bool) → Keeps (IsSound s₀) (finish b)) where
    socket_result-IsSound : Keeps (IsSound s₀) (socket_result env finish)
    unfolding socket_result
    socket_result-IsSound p h =
        option-Leaves (env.kernel.socket_error p.trace) _ _ p (done-Leaves _ _ h)
          λ e. keep (e == 0) p h

    waited-IsSound :
        (r : Selected) (q : Proc)
        → IsSound s₀ q.sess
        → Leaves (IsSound s₀) (
            let next : M Bool = elim r [
              | timed_out ↦ finish false
              | failed ↦ (λ p. done false p)
              | ready ↦ socket_result env finish
            ] in
            next q)
    waited-IsSound timed_out q h = keep false q h
    waited-IsSound failed q h = done-Leaves _ _ h
    waited-IsSound ready q h = socket_result-IsSound q h

    connect_wait-IsSound : Keeps (IsSound s₀) (connect_wait env finish)
    unfolding connect_wait
    connect_wait-IsSound p h = bind-Leaves _ _ (wait_for-IsSound p h) λ r q h. waited-IsSound r q h

  connect_end-IsSound :
      (fd : ℤ) (seconds : ℕ) (ret : Bool) → Keeps (IsSound s₀) (connect_end env fd seconds ret)
  unfolding connect_end
  connect_end-IsSound fd seconds ret p h =
      bind-Leaves _ _
        (if-Leaves (ltb 0 seconds) _ _ p (deactivate_nonblock-IsSound fd p h) (done-Leaves _ _ h))
        λ _ q h. done-Leaves _ _ h

  connecting-IsSound :
      (fd : ℤ) (seconds : ℕ) (r : Connecting) (q : Proc)
      → IsSound s₀ q.sess
      → Leaves (IsSound s₀) (
          let next : M Bool = elim r [
            | connected ↦ connect_end env fd seconds true
            | refused ↦ connect_end env fd seconds false
            | in_progress ↦ connect_wait env (connect_end env fd seconds)
          ] in
          next q)
  connecting-IsSound fd seconds connected q h = connect_end-IsSound fd seconds true q h
  connecting-IsSound fd seconds refused q h = connect_end-IsSound fd seconds false q h
  connecting-IsSound fd seconds in_progress q h =
      connect_wait-IsSound (connect_end env fd seconds) (connect_end-IsSound fd seconds) q h

  pub connect_timeout-IsSound :
      (fd : ℤ) (addr : SockAddr) (seconds : ℕ)
      → Keeps (IsSound s₀) (connect_timeout env fd addr seconds)
  unfolding connect_timeout
  connect_timeout-IsSound fd addr seconds p h =
      bind-Leaves _ _
        (if-Leaves (ltb 0 seconds) _ _ p (activate_nonblock-IsSound fd p h) (done-Leaves _ _ h))
        λ _ q h. connecting-IsSound fd seconds (env.kernel.connects q.trace) _ h
