-- ===== src/Nobody/Replies.antt =====
-- What the process of miniftpd/ftp_nobody.c answers to a command, where the kernel grants its calls.
use mini_ftp.Base.{
  ℕ, ◌+◌, ◌%◌, ◌^◌, ◌<◌, ◌≡◌, refl, ap, ◌∙◌, true, some, ltb, List, [], ◌∷◌, ◌++◌, append_assoc,
  append-nil, arith, if◌then◌else◌, Bytes, length,
}
use mini_ftp.Base.Int.{ℤ, pos, minus_one, is_minus_one}
use mini_ftp.Commands.Reply.{Env, sys}
use mini_ftp.Clients.{handle_sigchld}
use mini_ftp.Nobody.{
  get_data_sock, pasv_active, pasv_listen, pasv_accept, result_ok, hand_over, text_of,
  privop_pasv_get_data_sock, privop_pasv_active, privop_pasv_listen, pass_client,
  privop_pasv_accept, handle_cmd, nobody_round, behind_handler, inherited_sigchld,
}
use mini_ftp.PrivSock.Messages.{
  send_int_lem, recv_int_lem, send_byte_lem, recv_cmd_lem, str_message, recv_str_lem,
}
use mini_ftp.PrivSock.Transport.{Sends, Hears, told, heard}
use mini_ftp.PrivSock.{
  int_bytes, priv_sock_recv_cmd, priv_sock_send_result, priv_sock_recv_int, priv_sock_recv_str,
  priv_sock_send_fd,
}
use mini_ftp.Session.{
  SockAddr, Session, socket, sendmsg, close, accept, Event, called, Proc, done, ◌>>=◌, bind-done,
  seq-done,
}
use mini_ftp.Sockets.Connect.{
  Grants, at, sys_lem, get_local_ip_lem, tcp_client_lem, tcp_server_lem, accept_timeout_lem,
  connecting, connect_timeout_lem, addressed, local_ip, client_socket,
}
use mini_ftp.Sockets.{get_local_ip, tcp_client, tcp_server, accept_timeout, connect_timeout}
use mini_ftp.Sysutil.{Arrival, Departure}

-- The state behind an answer of `reply`: what was read is gone, and a descriptor went out or none.
abbrev pub answered :
    Proc → Bytes → List Arrival → Bytes → List Departure → List ℤ → Session → List Event → Proc
answered q rest a reply d fds s t = record q {
  sess = s;
  trace = t;
  wire = record q.wire {
    inbox = rest;
    arrivals = a;
    outbox = q.wire.outbox ++ reply;
    departures = d;
    handed = q.wire.handed ++ fds;
  };
}

-- The bytes of a request for a connection to the address of a PORT command.
abbrev pub port_request : Bytes → ℕ → Bytes
port_request ip port = get_data_sock ∷ (str_message ip ++ int_bytes port)

module _ (env : Env) (g : Grants env) where
  hand_over_lem :
      (fd k : ℕ) (q : Proc)
      → Sends (1 + k) q.wire.departures
      → (d : List Departure) × (hand_over env (pos fd) q
          ≡ done tt (
              answered q q.wire.inbox q.wire.arrivals
                (result_ok ∷ 0 ∷ [])
                d
                (pos fd ∷ [])
                q.sess
                (called (close (pos fd)) ∷ called (sendmsg (pos fd)) ∷ q.trace)))
        × Sends k d
  unfolding hand_over priv_sock_send_fd
  hand_over_lem fd k q r =
      let (d, _, e, left) = send_byte_lem k result_ok q r in
      (
        d,
        seq-done (priv_sock_send_result result_ok) _ q e
            ∙ rw
                (
                  sys_lem env g (sendmsg (pos fd)) (told q (result_ok ∷ []) d),
                  ◌>>=◌,
                  sys_lem env g,
                  append_assoc,
                )
                refl,
        left,
      )

  text_of_lem : (ip : Bytes) (q : Proc) → length ip < 16 → text_of env ip q ≡ done ip q
  unfolding text_of
  text_of_lem ip q fits = let whole : ltb (length ip) 16 ≡ true = ground arith in rw whole refl

  get_data_sock_lem :
      (k : ℕ) (ip rest : Bytes) (port : ℕ) (q : Proc)
      → length ip < 16
      → port < 2 ^ 16
      → q.wire.inbox ≡ str_message ip ++ (int_bytes port ++ rest)
      → Hears (4 + (length ip + (4 + k))) q.wire.arrivals
      → Sends (1 + k) q.wire.departures
      → (a : List Arrival) × (d : List Departure) × (let fd = g.opens q.trace socket in
          privop_pasv_get_data_sock env q
          ≡ done tt (
              answered q rest a (result_ok ∷ 0 ∷ []) d (pos fd ∷ []) q.sess (
                called (close (pos fd))
                ∷ called (sendmsg (pos fd))
                ∷ connecting
                    (pos fd)
                    (record { port = port; addr = env.kernel.inet_addr ip })
                    env.config.data_connection_timeout
                    (client_socket env g q.trace))))
        × Hears k a
        × Sends k d
  unfolding privop_pasv_get_data_sock
  get_data_sock_lem k ip rest port q fits small h hears sends =
      let to : SockAddr = record { port = port; addr = env.kernel.inet_addr ip } in
      let w : ℕ = env.config.data_connection_timeout in
      let (a, e, hears') =
        recv_str_lem (4 + k) 16 ip (int_bytes port ++ rest) q (omega (arith, fits)) (omega arith) h
          hears in
      let (a', e', hears'') =
        recv_int_lem k port rest (heard q (int_bytes port ++ rest) a) (omega arith) refl hears' in
      let read = heard q rest a' in
      let fd = g.opens q.trace socket in
      let opened = at read (client_socket env g q.trace) in
      let whole : port % 2 ^ 16 ≡ port = omega arith in
      let (d, o, sends') =
        hand_over_lem fd k (at read (connecting (pos fd) to w (client_socket env g q.trace)))
          sends in
      (
        a',
        d,
        bind-done (priv_sock_recv_str 16) _ q e
            ∙ (bind-done priv_sock_recv_int _ _ e'
                ∙ (bind-done (tcp_client env 20) _ read (tcp_client_lem env g read)
                    ∙ rw whole (
                        bind-done (text_of env ip) _ opened (text_of_lem ip opened fits)
                        ∙ (bind-done (connect_timeout env (pos fd) to w) _ opened
                              (connect_timeout_lem env g fd to w opened)
                            ∙ o)))),
        hears'',
        sends',
      )

  -- As long as a command is to be read no signal comes.
  undisturbed :
      (c : ℕ) (rest : Bytes) (q : Proc)
      → q.wire.inbox ≡ c ∷ rest
      → inherited_sigchld env q ≡ done tt q
  unfolding inherited_sigchld behind_handler handle_sigchld
  undisturbed c rest q h = rw (h, g.lives q.trace (length rest)) refl

  -- A command is read, and answered behind that.
  round_lem :
      (k c : ℕ) (rest : Bytes) (q : Proc)
      → q.wire.inbox ≡ c ∷ rest
      → Hears (1 + k) q.wire.arrivals
      → (a : List Arrival) × Hears k a × (nobody_round env q ≡ handle_cmd env c (heard q rest a))
  unfolding nobody_round
  round_lem k c rest q h hears =
      let (a, e, left) = recv_cmd_lem k c rest q h hears in
      (
        a,
        left,
        seq-done (inherited_sigchld env) _ q (undisturbed c rest q h)
            ∙ bind-done priv_sock_recv_cmd _ q e,
      )

  pub round-get_data_sock :
      (k : ℕ) (ip rest : Bytes) (port : ℕ) (q : Proc)
      → length ip < 16
      → port < 2 ^ 16
      → q.wire.inbox ≡ port_request ip port ++ rest
      → Hears (9 + length ip + k) q.wire.arrivals
      → Sends (1 + k) q.wire.departures
      → (a : List Arrival) × (d : List Departure) × (let fd = g.opens q.trace socket in
          nobody_round env q
          ≡ done tt (
              answered q rest a (result_ok ∷ 0 ∷ []) d (pos fd ∷ []) q.sess (
                called (close (pos fd))
                ∷ called (sendmsg (pos fd))
                ∷ connecting
                    (pos fd)
                    (record { port = port; addr = env.kernel.inet_addr ip })
                    env.config.data_connection_timeout
                    (client_socket env g q.trace))))
        × Hears k a
        × Sends k d
  unfolding handle_cmd
  round-get_data_sock k ip rest port q fits small h hears sends =
      let body = str_message ip ++ (int_bytes port ++ rest) in
      let whole : q.wire.inbox ≡ get_data_sock ∷ body =
        h ∙ ap (◌∷◌ get_data_sock) (append_assoc (str_message ip) (int_bytes port) rest) in
      let (a, left, e) =
        round_lem (4 + (length ip + (4 + k))) get_data_sock body q whole
          (record { calm = hears.calm; enough = omega (arith, hears.enough) }) in
      let (a', d, e', hears', sends') =
        get_data_sock_lem k ip rest port (heard q body a) fits small refl left sends in
      (a', d, e ∙ e', hears', sends')

  pub round-pasv_active :
      (k : ℕ) (rest : Bytes) (q : Proc)
      → q.wire.inbox ≡ pasv_active ∷ rest
      → Hears (1 + k) q.wire.arrivals
      → Sends (4 + k) q.wire.departures
      → (a : List Arrival) × (d : List Departure) × (nobody_round env q
          ≡ done tt (
              answered q rest a
                (int_bytes (if is_minus_one q.sess.listen_fd then 0 else 1))
                d
                []
                q.sess
                q.trace))
        × Hears k a
        × Sends k d
  unfolding handle_cmd privop_pasv_active
  round-pasv_active k rest q h hears sends =
      let (a, left, e) = round_lem k pasv_active rest q h hears in
      let (d, e', left') =
        send_int_lem k (if is_minus_one q.sess.listen_fd then 0 else 1) (heard q rest a) sends in
      (a, d, e ∙ (e' ∙ rw append-nil refl), left, left')

  pub round-pasv_accept :
      (k : ℕ) (rest : Bytes) (q : Proc)
      → q.wire.inbox ≡ pasv_accept ∷ rest
      → Hears (1 + k) q.wire.arrivals
      → Sends (1 + k) q.wire.departures
      → (a : List Arrival) × (d : List Departure) × (let fd =
            g.opens q.trace (accept q.sess.listen_fd) in
          nobody_round env q
          ≡ done tt (
              answered q rest a
                (result_ok ∷ 0 ∷ [])
                d
                (pos fd ∷ [])
                (record q.sess { listen_fd = minus_one })
                (called (close (pos fd))
                  ∷ called (sendmsg (pos fd))
                  ∷ called (close q.sess.listen_fd)
                  ∷ called (accept q.sess.listen_fd)
                  ∷ q.trace)))
        × Hears k a
        × Sends k d
  unfolding handle_cmd privop_pasv_accept pass_client
  round-pasv_accept k rest q h hears sends =
      let l : ℤ = q.sess.listen_fd in
      let fd = g.opens q.trace (accept l) in
      let (a, left, e) = round_lem k pasv_accept rest q h hears in
      let read = heard q rest a in
      let taken = at read (called (accept l) ∷ q.trace) in
      let closed : Proc = record (at read (called (close l) ∷ called (accept l) ∷ q.trace)) {
        sess = record q.sess { listen_fd = minus_one };
      } in
      let (d, o, sends') = hand_over_lem fd k closed sends in
      (
        a,
        d,
        e
            ∙ (bind-done (accept_timeout env l env.config.accept_timeout) _ read
                  (accept_timeout_lem env g l env.config.accept_timeout read)
                ∙ (bind-done (sys env (close l)) _ taken (sys_lem env g (close l) taken) ∙ o)),
        left,
        sends',
      )

  -- The port of the socket is told, and the socket is kept.
  pub round-pasv_listen :
      (k port : ℕ) (rest : Bytes) (q : Proc)
      → q.wire.inbox ≡ pasv_listen ∷ rest
      → ((trace : List Event) → env.kernel.bound_port trace ≡ some port)
      → port < 2 ^ 16
      → Hears (1 + k) q.wire.arrivals
      → Sends (1 + (4 + k)) q.wire.departures
      → (a : List Arrival) × (d : List Departure) × (t : List Event) × (nobody_round env q
          ≡ done tt (
              answered q rest a
                (result_ok ∷ int_bytes port)
                d
                []
                (record q.sess { listen_fd = pos (g.opens (addressed env g q.trace) socket) })
                (t ++ addressed env g q.trace)))
        × Hears k a
        × Sends k d
  unfolding handle_cmd privop_pasv_listen
  round-pasv_listen k port rest q h bound small hears sends =
      let (a, left, e) = round_lem k pasv_listen rest q h hears in
      let read = heard q rest a in
      let t = addressed env g q.trace in
      let fd = g.opens t socket in
      let ip = local_ip env g q.trace in
      let (u, e₂) = tcp_server_lem env g ip 20 (at read t) in
      let opened : Proc = record (at read (u ++ t)) {
        sess = record q.sess { listen_fd = pos fd };
      } in
      let (d, _, e₃, sends') = send_byte_lem (4 + k) result_ok opened sends in
      let (d', e₄, sends'') = send_int_lem k port (told opened (result_ok ∷ []) d) sends' in
      let whole : port % 2 ^ 16 ≡ port = omega arith in
      (
        a,
        d',
        u,
        e
            ∙ (bind-done (get_local_ip env) _ read (get_local_ip_lem env g read)
                ∙ (bind-done (tcp_server env (some ip) 20) _ _ e₂
                    ∙ rw (bound (u ++ t), whole)
                        (seq-done (priv_sock_send_result result_ok) _ opened e₃
                          ∙ (e₄ ∙ rw (append-nil, append_assoc) refl)))),
        left,
        sends'',
      )
