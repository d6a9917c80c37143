-- ===== src/Sockets/Connect.antt =====
-- The calls of miniftpd/sysutil.c on sockets where the kernel grants them.
use mini_ftp.Base.{
  ℕ, suc, ◌≡◌, refl, ◌∙◌, true, some, List, [], ◌∷◌, ◌++◌, ltb, if◌then◌else◌, Bool-cases, inl, inr,
  ◌⊎◌, Bool, false, Bytes,
}
use mini_ftp.Base.Int.{ℤ, pos}
use mini_ftp.Commands.Login.{Succeeds}
use mini_ftp.Commands.Reply.{Env, sys}
use mini_ftp.Session.Kernel.{ready, returns, Connecting, connected, in_progress, refused}
use mini_ftp.Session.{
  SockAddr, Call, socket, setsockopt, fcntl_getfl, set_nonblock, clear_nonblock, ioctl, listen,
  accept, close, bind, connect, Event, called, Proc, done, M, ◌>>=◌, bind-done, seq-done,
}
use mini_ftp.Sockets.Calls.{sys-Succeeds, need-Succeeds}
use mini_ftp.Sockets.{
  open_fd, need, need_fd, get_local_ip, bind_client, tcp_client, server_addr, tcp_server,
  activate_nonblock, deactivate_nonblock, select_loop, wait_for, read_timeout, accept_timeout,
  socket_result, connect_wait, connect_end, connect_timeout,
}

-- The calls succeed, and each that opens a descriptor gets one, `opens` of what has happened before;
-- a `connect` succeeds at once or, as on a non-blocking socket, when it is waited for; clients are
-- there.
pub record Grants (env : Env) : Type 0 where
  pub calls_succeed : Succeeds env
  pub opens : List Event → Call → ℕ
  pub opened :
      (trace : List Event) (c : Call) → env.kernel.descriptor trace c ≡ some (opens trace c)
  pub connects :
      (trace : List Event)
      → (env.kernel.connects trace ≡ connected) ⊎ (env.kernel.connects trace ≡ in_progress)
  pub no_error : (trace : List Event) → env.kernel.socket_error trace ≡ some 0
  pub waits : (trace : List Event) → env.kernel.waits trace ≡ returns ready ∷ []
  -- The other process lives as long as one of its commands is to be read.
  pub lives : (trace : List Event) (n : ℕ) → env.kernel.reaped trace (suc n) ≡ []
  pub resolves : (host : Bytes) → (addr : Bytes) × (env.kernel.inet_aton host ≡ some addr)

abbrev pub at : Proc → List Event → Proc
at p t = record p { trace = t }

-- The events of a `connect` that succeeds.
abbrev pub connecting : ℤ → SockAddr → ℕ → List Event → List Event
connecting fd a w t =
    if ltb 0 w
    then called (clear_nonblock fd)
      ∷ called (fcntl_getfl fd)
      ∷ called (connect fd a)
      ∷ called (set_nonblock fd)
      ∷ called (fcntl_getfl fd)
      ∷ t
    else called (connect fd a) ∷ t

module _ (env : Env) (g : Grants env) where
  pub sys_lem : (c : Call) (p : Proc) → sys env c p ≡ done true (at p (called c ∷ p.trace))
  sys_lem c p = sys-Succeeds env c p g.calls_succeed

  pub need_lem : (c : Call) (p : Proc) → need env c p ≡ done tt (at p (called c ∷ p.trace))
  need_lem c p = need-Succeeds env c p g.calls_succeed

  pub open_fd_lem :
      (c : Call) (p : Proc)
      → open_fd env c p ≡ done (some (g.opens p.trace c)) (at p (called c ∷ p.trace))
  unfolding open_fd
  open_fd_lem c p = rw (g.opened p.trace c) refl

  need_fd_lem :
      (c : Call) (p : Proc)
      → need_fd env c p ≡ done (pos (g.opens p.trace c)) (at p (called c ∷ p.trace))
  unfolding need_fd
  need_fd_lem c p = rw (g.opened p.trace c, need_fd) refl

  -- The address of eth0 is asked for on a socket of its own, which is closed.
  abbrev pub addressed : List Event → List Event
  addressed t =
      let fd = g.opens t socket in
      called (close (pos fd)) ∷ called (ioctl (pos fd)) ∷ called socket ∷ t

  abbrev pub local_ip : List Event → Bytes
  local_ip t =
      let fd = g.opens t socket in
      env.kernel.inet_ntoa (env.kernel.interface_addr (called (ioctl (pos fd)) ∷ called socket ∷ t))

  pub get_local_ip_lem :
      (p : Proc) → get_local_ip env p ≡ done (local_ip p.trace) (at p (addressed p.trace))
  unfolding get_local_ip
  get_local_ip_lem p =
      let fd = g.opens p.trace socket in
      bind-done (need_fd env socket) _ p (need_fd_lem socket p)
      ∙ (seq-done (need env (ioctl (pos fd))) _ _ (need_lem (ioctl (pos fd)) _)
          ∙ bind-done (sys env (close (pos fd))) _ _ (sys_lem (close (pos fd)) _))

  -- The events of a socket that is bound to port 20.
  abbrev pub client_socket : List Event → List Event
  client_socket t =
      let fd = g.opens t socket in
      let before = called (setsockopt (pos fd)) ∷ called socket ∷ t in
      called (bind (pos fd) (record { port = 20; addr = env.kernel.inet_addr (local_ip before) }))
      ∷ addressed before

  bind_client_lem :
      (fd port : ℕ) (p : Proc)
      → (let before = called (setsockopt (pos fd)) ∷ p.trace in
          let a : SockAddr = record {
            port = port;
            addr = env.kernel.inet_addr (local_ip before);
          } in
          bind_client env (pos fd) port p
          ≡ done tt (at p (called (bind (pos fd) a) ∷ addressed before)))
  unfolding bind_client
  bind_client_lem fd port p =
      let q = at p (called (setsockopt (pos fd)) ∷ p.trace) in
      let a : SockAddr = record { port = port; addr = env.kernel.inet_addr (local_ip q.trace) } in
      seq-done (need env (setsockopt (pos fd))) _ p (need_lem (setsockopt (pos fd)) p)
      ∙ (bind-done (get_local_ip env) _ q (get_local_ip_lem q) ∙ need_lem (bind (pos fd) a) _)

  pub tcp_client_lem :
      (p : Proc)
      → tcp_client env 20 p ≡ done (pos (g.opens p.trace socket)) (at p (client_socket p.trace))
  unfolding tcp_client
  tcp_client_lem p =
      let fd = g.opens p.trace socket in
      let q = at p (called socket ∷ p.trace) in
      bind-done (need_fd env socket) _ p (need_fd_lem socket p)
      ∙ seq-done (bind_client env (pos fd) 20) _ q (bind_client_lem fd 20 q)

  pub tcp_server_lem :
      (host : Bytes) (port : ℕ) (p : Proc)
      → (t : List Event) × (tcp_server env (some host) port p
          ≡ done (pos (g.opens p.trace socket)) (at p (t ++ p.trace)))
  unfolding tcp_server server_addr
  tcp_server_lem host port p =
      let fd = g.opens p.trace socket in
      let (addr, e) = g.resolves host in
      let a : SockAddr = record { port = port; addr = addr } in
      (
        called (listen (pos fd))
            ∷ called (bind (pos fd) a)
            ∷ called (setsockopt (pos fd))
            ∷ called socket
            ∷ [],
        bind-done (need_fd env socket) _ p (need_fd_lem socket p)
            ∙ rw (e, server_addr, ◌>>=◌)
                (seq-done (need env (setsockopt (pos fd))) _ _ (need_lem (setsockopt (pos fd)) _)
                  ∙ (seq-done (need env (bind (pos fd) a)) _ _ (need_lem (bind (pos fd) a) _)
                      ∙ seq-done (need env (listen (pos fd))) _ _ (need_lem (listen (pos fd)) _))),
      )

  wait_for_lem : (p : Proc) → wait_for env p ≡ done ready p
  unfolding wait_for select_loop
  wait_for_lem p = rw (g.waits p.trace) refl

  pub accept_timeout_lem :
      (lfd : ℤ) (wait_seconds : ℕ) (p : Proc)
      → accept_timeout env lfd wait_seconds p
        ≡ done (some (g.opens p.trace (accept lfd))) (at p (called (accept lfd) ∷ p.trace))
  unfolding accept_timeout read_timeout
  accept_timeout_lem lfd w p = elim (Bool-cases (ltb 0 w)) [
    | inl e ↦
        rw (e, ◌>>=◌) (bind-done (wait_for env) _ p (wait_for_lem p) ∙ open_fd_lem (accept lfd) p)
    | inr e ↦ rw (e, ◌>>=◌) (open_fd_lem (accept lfd) p)
  ]

  activate_lem :
      (fd : ℕ) (p : Proc)
      → activate_nonblock env (pos fd) p
        ≡ done tt (at p (called (set_nonblock (pos fd)) ∷ called (fcntl_getfl (pos fd)) ∷ p.trace))
  unfolding activate_nonblock
  activate_lem fd p =
      seq-done (need env (fcntl_getfl (pos fd))) _ p (need_lem (fcntl_getfl (pos fd)) p)
      ∙ need_lem (set_nonblock (pos fd)) _

  deactivate_lem :
      (fd : ℕ) (p : Proc)
      → deactivate_nonblock env (pos fd) p
        ≡ done tt
            (at p (called (clear_nonblock (pos fd)) ∷ called (fcntl_getfl (pos fd)) ∷ p.trace))
  unfolding deactivate_nonblock
  deactivate_lem fd p =
      seq-done (need env (fcntl_getfl (pos fd))) _ p (need_lem (fcntl_getfl (pos fd)) p)
      ∙ need_lem (clear_nonblock (pos fd)) _

  -- A connection that is in progress is there when `select` returns.
  connect_wait_lem : (finish : Bool → M Bool) (p : Proc) → connect_wait env finish p ≡ finish true p
  unfolding connect_wait socket_result
  connect_wait_lem finish p =
      bind-done (wait_for env) _ p (wait_for_lem p) ∙ rw (g.no_error p.trace) refl

  -- Behind `connect`, whichever of the two it came to.
  connected_lem :
      (fd : ℤ) (w : ℕ) (r : Connecting) (p : Proc)
      → (r ≡ connected) ⊎ (r ≡ in_progress)
      → (let next : M Bool = elim r [
        | connected ↦ connect_end env fd w true
        | refused ↦ connect_end env fd w false
        | in_progress ↦ connect_wait env (connect_end env fd w)
      ] in
          next p)
        ≡ connect_end env fd w true p
  connected_lem fd w r p (inl e) = rw e refl
  connected_lem fd w r p (inr e) = rw e (connect_wait_lem (connect_end env fd w) p)

  pub connect_timeout_lem :
      (fd : ℕ) (a : SockAddr) (w : ℕ) (p : Proc)
      → connect_timeout env (pos fd) a w p ≡ done true (at p (connecting (pos fd) a w p.trace))
  unfolding connect_timeout connect_end
  connect_timeout_lem fd a w p = elim (Bool-cases (ltb 0 w)) [
    | inl e ↦
        let q = at p (called (set_nonblock (pos fd)) ∷ called (fcntl_getfl (pos fd)) ∷ p.trace) in
        let r = at q (called (connect (pos fd) a) ∷ q.trace) in
        rw e (
          seq-done (activate_nonblock env (pos fd)) _ p (activate_lem fd p)
          ∙ connected_lem (pos fd) w (env.kernel.connects q.trace) r (g.connects q.trace)
          ∙ rw e (seq-done (deactivate_nonblock env (pos fd)) _ r (deactivate_lem fd r)))
    | inr e ↦
        let r = at p (called (connect (pos fd) a) ∷ p.trace) in
        rw e (
          connected_lem (pos fd) w (env.kernel.connects p.trace) r (g.connects p.trace) ∙ rw e refl)
  ]
