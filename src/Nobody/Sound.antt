-- ===== src/Nobody/Sound.antt =====
-- What the process of miniftpd/ftp_nobody.c keeps, for any commands that it is sent.
use mini_ftp.Base.{ℕ, zero, suc, Option, none, some, ltb, ◌==◌, Bytes, length}
use mini_ftp.Base.Int.{ℤ, pos}
use mini_ftp.Base.Run.{Run}
use mini_ftp.Base.Text.{codes}
use mini_ftp.Clients.{Tables, handle_sigchld}
use mini_ftp.Commands.Reply.{Env}
use mini_ftp.Commands.Sound.{IsSound, sys-IsSound}
use mini_ftp.Nobody.{
  get_data_sock, pasv_active, pasv_listen, pasv_accept, hand_over, text_of,
  privop_pasv_get_data_sock, privop_pasv_active, privop_pasv_listen, pass_client,
  privop_pasv_accept, handle_cmd, nobody_round, nobody_loop, set_nobody, set_bind_capabilities,
  handle_nobody, behind_handler, inherited_sigchld,
}
use mini_ftp.PrivSock.Sound.{
  priv_sock_recv_cmd-IsSound, priv_sock_send_result-IsSound, priv_sock_send_int-IsSound,
  priv_sock_recv_int-IsSound, priv_sock_recv_str-IsSound, priv_sock_send_fd-IsSound,
}
use mini_ftp.Session.Invariant.{
  Keeps, bind-Leaves, if-Leaves, option-Leaves, done-Leaves, exited-Leaves, killed-Leaves,
  hung-Leaves, faulted-Leaves,
}
use mini_ftp.Session.{Session}
use mini_ftp.Sockets.Sound.Opening.{
  tcp_client-IsSound, tcp_server-IsSound, accept_timeout-IsSound, connect_timeout-IsSound,
}
use mini_ftp.Sockets.Sound.{need-IsSound, get_local_ip-IsSound}

module _ (env : Env) (s₀ : Session) where
  hand_over-IsSound : (fd : ℤ) → Keeps (IsSound s₀) (hand_over env fd)
  unfolding hand_over
  hand_over-IsSound fd p h = bind-Leaves _ _ (priv_sock_send_result-IsSound s₀ _ p h) λ _ q h.
      bind-Leaves _ _ (priv_sock_send_fd-IsSound s₀ env fd q h)
        λ _ q h. bind-Leaves _ _ (sys-IsSound env s₀ _ q h) λ _ q h. done-Leaves _ _ h

  text_of-IsSound : (ip : Bytes) → Keeps (IsSound s₀) (text_of env ip)
  unfolding text_of
  text_of-IsSound ip p h =
      if-Leaves (ltb (length ip) 16) _ _ p (done-Leaves _ _ h) (faulted-Leaves _ h)

  privop_pasv_get_data_sock-IsSound : Keeps (IsSound s₀) (privop_pasv_get_data_sock env)
  unfolding privop_pasv_get_data_sock
  privop_pasv_get_data_sock-IsSound p h =
      bind-Leaves _ _ (priv_sock_recv_str-IsSound s₀ 16 p h) λ ip q h.
        bind-Leaves _ _ (priv_sock_recv_int-IsSound s₀ q h) λ port q h.
          bind-Leaves _ _ (tcp_client-IsSound env s₀ 20 q h) λ data_fd q h.
            bind-Leaves _ _ (text_of-IsSound ip q h) λ text q h.
              bind-Leaves _ _ (connect_timeout-IsSound env s₀ _ _ _ q h)
                λ ok q h. if-Leaves ok _ _ q (hand_over-IsSound data_fd q h) (exited-Leaves _ _ h)

  privop_pasv_active-IsSound : Keeps (IsSound s₀) (privop_pasv_active env)
  unfolding privop_pasv_active
  privop_pasv_active-IsSound p h = priv_sock_send_int-IsSound s₀ _ p h

  privop_pasv_listen-IsSound : Keeps (IsSound s₀) (privop_pasv_listen env)
  unfolding privop_pasv_listen
  privop_pasv_listen-IsSound p h = bind-Leaves _ _ (get_local_ip-IsSound env s₀ p h) λ ip q h.
      bind-Leaves _ _ (tcp_server-IsSound env s₀ _ _ q h) λ fd q h.
        option-Leaves (env.kernel.bound_port q.trace) _ _ _ (done-Leaves _ _ h) λ port.
          bind-Leaves _ _ (priv_sock_send_result-IsSound s₀ _ _ h)
            λ _ q h. priv_sock_send_int-IsSound s₀ _ q h

  pass_client-IsSound : (o : Option ℕ) → Keeps (IsSound s₀) (pass_client env o)
  unfolding pass_client
  pass_client-IsSound none p h =
      bind-Leaves _ _ (priv_sock_send_result-IsSound s₀ _ p h) λ _ q h. exited-Leaves _ _ h
  pass_client-IsSound (some peerfd) p h =
      bind-Leaves _ _ (sys-IsSound env s₀ _ p h) λ _ q h. hand_over-IsSound (pos peerfd) _ h

  privop_pasv_accept-IsSound : Keeps (IsSound s₀) (privop_pasv_accept env)
  unfolding privop_pasv_accept
  privop_pasv_accept-IsSound p h =
      bind-Leaves _ _ (accept_timeout-IsSound env s₀ _ _ p h) λ o q h. pass_client-IsSound o q h

  handle_cmd-IsSound : (cmd : ℕ) → Keeps (IsSound s₀) (handle_cmd env cmd)
  unfolding handle_cmd
  handle_cmd-IsSound cmd p h =
      if-Leaves (cmd == get_data_sock) _ _ p (privop_pasv_get_data_sock-IsSound p h) (
        if-Leaves (cmd == pasv_active) _ _ p (privop_pasv_active-IsSound p h) (
          if-Leaves (cmd == pasv_listen) _ _ p (privop_pasv_listen-IsSound p h) (
            if-Leaves (cmd == pasv_accept) _ _ p (privop_pasv_accept-IsSound p h)
              (exited-Leaves _ _ h))))

  behind_handler-IsSound : (r : Run Tables) → Keeps (IsSound s₀) (behind_handler r)
  unfolding behind_handler
  behind_handler-IsSound (Run.ok t) p h = done-Leaves _ _ h
  behind_handler-IsSound (Run.exited n) p h = exited-Leaves _ _ h
  behind_handler-IsSound Run.abort p h = killed-Leaves _ h

  inherited_sigchld-IsSound : Keeps (IsSound s₀) (inherited_sigchld env)
  unfolding inherited_sigchld
  inherited_sigchld-IsSound p h =
      behind_handler-IsSound
        (handle_sigchld env.kernel.inherited (env.kernel.reaped p.trace (length p.wire.inbox))) p h

  nobody_round-IsSound : Keeps (IsSound s₀) (nobody_round env)
  unfolding nobody_round
  nobody_round-IsSound p h = bind-Leaves _ _ (inherited_sigchld-IsSound p h) λ _ q h.
      bind-Leaves _ _ (priv_sock_recv_cmd-IsSound s₀ q h) λ cmd q h. handle_cmd-IsSound cmd q h

  nobody_loop-IsSound : (fuel : ℕ) → Keeps (IsSound s₀) (nobody_loop env fuel)
  unfolding nobody_loop
  nobody_loop-IsSound zero p h = hung-Leaves _ h
  nobody_loop-IsSound (suc fuel) p h =
      bind-Leaves _ _ (nobody_round-IsSound p h) λ _ q h. nobody_loop-IsSound fuel q h

  set_nobody-IsSound : Keeps (IsSound s₀) (set_nobody env)
  unfolding set_nobody
  set_nobody-IsSound p h =
      option-Leaves (env.getpwnam p.trace (codes "nobody")) _ _ p (exited-Leaves _ _ h)
        λ pw. bind-Leaves _ _ (need-IsSound env s₀ _ p h) λ _ q h. need-IsSound env s₀ _ q h

  -- Whatever arrives from the other process.
  pub handle_nobody-IsSound : Keeps (IsSound s₀) (handle_nobody env)
  unfolding handle_nobody set_bind_capabilities
  handle_nobody-IsSound p h = bind-Leaves _ _ (set_nobody-IsSound p h) λ _ q h.
      bind-Leaves _ _ (need-IsSound env s₀ _ q h)
        λ _ q h. nobody_loop-IsSound (suc (length q.wire.inbox)) q h
