-- ===== src/TransData/Sides.antt =====
-- Each of the two processes of a client over one data connection: `get_trans_data_fd` of
-- miniftpd/trans_data.c, and two rounds of miniftpd/ftp_nobody.c, on what the other one sends.
use mini_ftp.Base.{
  ℕ, ◌+◌, ◌^◌, ◌<◌, ◌≡◌, refl, sym, ap, ◌∙◌, true, false, none, some, List, [], ◌∷◌, ◌++◌,
  append_assoc, append-nil, arith, if◌then◌else◌, Bytes, length,
}
use mini_ftp.Base.Int.{ℤ, pos, minus_one, is_minus_one}
use mini_ftp.Commands.Reply.{Env, sys}
use mini_ftp.Nobody.{pasv_active, pasv_accept, result_ok, nobody_round}
use mini_ftp.Nobody.Replies.{
  answered, port_request, round-get_data_sock, round-pasv_active, round-pasv_accept,
}
use mini_ftp.PrivSock.Transport.{Sends, Hears, told, heard}
use mini_ftp.PrivSock.{int_bytes}
use mini_ftp.Session.{
  SockAddr, socket, close, alarm, signal_data_fd, sendmsg, accept, Event, called, Proc, done, ◌>>◌,
  seq-done,
}
use mini_ftp.Sockets.Connect.{Grants, at, connecting, client_socket}
use mini_ftp.Commands.Login.{Succeeds}
use mini_ftp.TransCtrl.Alarms.{setup_data_lem}
use mini_ftp.TransCtrl.{setup_signal_alarm_data_fd, start_signal_alarm_data_fd}
use mini_ftp.TransData.Exchange.{served, Passes, get_port_lem, get_pasv_lem}
use mini_ftp.TransData.Modes.{ask_modes}
use mini_ftp.TransData.{
  is_some, get_port_data_fd, get_pasv_data_fd, connect_data, get_trans_data_fd,
}

-- The state of a process that starts on given bytes.
abbrev pub given : Proc → Bytes → Proc
given p bytes = record p { wire = record p.wire { inbox = bytes } }

-- Enough room on the socket for either exchange, in both directions.
abbrev pub Room : Proc → ℕ → Type 0
Room p n = Sends n p.wire.departures × Hears n p.wire.arrivals

-- The process that talks to the client, where PORT is the mode.
pub port_side :
    (env : Env) (n : ℕ) (to : SockAddr) (p : Proc)
    → Succeeds env
    → p.sess.p_addr ≡ some to
    → Passes p n
    → Room p (14 + length (env.kernel.inet_ntoa to.addr))
    → (p' : Proc) × (get_trans_data_fd env (given p (int_bytes 0 ++ (result_ok ∷ 0 ∷ [])))
        ≡ done tt p')
      × (p'.wire.outbox
          ≡ p.wire.outbox ++ (pasv_active ∷ port_request (env.kernel.inet_ntoa to.addr) to.port))
      × (p'.sess ≡ record p.sess { data_fd = pos n; p_addr = none })
      × (p'.trace ≡ called (alarm env.config.connect_timeout) ∷ called signal_data_fd ∷ p.trace)
unfolding connect_data start_signal_alarm_data_fd sys
port_side env n to p succeed mode c (sends, hears) =
    let ip = env.kernel.inet_ntoa to.addr in
    let start = given p (int_bytes 0 ++ (result_ok ∷ 0 ∷ [])) in
    let (d, a, e, s, r) =
      ask_modes env (1 + (4 + (length ip + (4 + 0)))) 0 (result_ok ∷ 0 ∷ []) start (omega arith)
        refl (record { calm = sends.calm; enough = omega (arith, sends.enough) })
        (record { calm = hears.calm; enough = omega (arith, hears.enough) }) in
    let p₁ = heard (told start (pasv_active ∷ []) d) (result_ok ∷ 0 ∷ []) a in
    let c₁ : Passes p₁ n = record {
      limit = c.limit;
      later = c.later;
      others = c.others;
      receipt = c.receipt;
      first = c.first;
    } in
    let (d', a', e', _, _) =
      get_port_lem env 0 n to [] p₁ mode c₁ refl s
        (record { calm = r.calm; enough = omega (arith, r.enough) }) in
    let p₂ =
      served p₁ (port_request ip to.port) d' [] a' c.later c.others
        (record p.sess { data_fd = pos n; p_addr = none }) p.trace in
    (
      at p₂ (called (alarm env.config.connect_timeout) ∷ called signal_data_fd ∷ p.trace),
      e
          ∙ (ap (λ b. connect_data env b false p₁) (ap is_some mode)
              ∙ (seq-done (get_port_data_fd env) _ p₁ e'
                  ∙ seq-done (setup_signal_alarm_data_fd env) _ p₂
                      (setup_data_lem env p₂ succeed))),
      append_assoc p.wire.outbox (pasv_active ∷ []) (port_request ip to.port),
      refl,
      refl,
    )

-- And where PASV is.
pub pasv_side :
    (env : Env) (n : ℕ) (p : Proc)
    → Succeeds env
    → p.sess.p_addr ≡ none
    → Passes p n
    → Room p 14
    → (p' : Proc) × (get_trans_data_fd env (given p (int_bytes 1 ++ (result_ok ∷ 0 ∷ [])))
        ≡ done tt p')
      × (p'.wire.outbox ≡ p.wire.outbox ++ (pasv_active ∷ pasv_accept ∷ []))
      × (p'.sess ≡ record p.sess { data_fd = pos n; listen_fd = minus_one })
      × (p'.trace
          ≡ called (alarm env.config.connect_timeout)
            ∷ called signal_data_fd
            ∷ called (close p.sess.listen_fd)
            ∷ p.trace)
unfolding connect_data start_signal_alarm_data_fd sys
pasv_side env n p succeed mode c (sends, hears) =
    let start = given p (int_bytes 1 ++ (result_ok ∷ 0 ∷ [])) in
    let (d, a, e, s, r) =
      ask_modes env (1 + 0) 1 (result_ok ∷ 0 ∷ []) start (omega arith) refl
        (record { calm = sends.calm; enough = omega (arith, sends.enough) })
        (record { calm = hears.calm; enough = omega (arith, hears.enough) }) in
    let p₁ = heard (told start (pasv_active ∷ []) d) (result_ok ∷ 0 ∷ []) a in
    let c₁ : Passes p₁ n = record {
      limit = c.limit;
      later = c.later;
      others = c.others;
      receipt = c.receipt;
      first = c.first;
    } in
    let (d', a', e', _, _) = get_pasv_lem env 0 n [] p₁ c₁ refl s r in
    let t : List Event = called (close p.sess.listen_fd) ∷ p.trace in
    let p₂ =
      served p₁ (pasv_accept ∷ []) d' [] a' c.later c.others
        (record p.sess { data_fd = pos n; listen_fd = minus_one }) t in
    (
      at p₂ (called (alarm env.config.connect_timeout) ∷ called signal_data_fd ∷ t),
      e
          ∙ (ap (λ b. connect_data env b true p₁) (ap is_some mode)
              ∙ (seq-done (get_pasv_data_fd env) _ p₁ e'
                  ∙ seq-done (setup_signal_alarm_data_fd env) _ p₂
                      (setup_data_lem env p₂ succeed))),
      append_assoc p.wire.outbox (pasv_active ∷ []) (pasv_accept ∷ []),
      refl,
      refl,
    )

-- The events of the other process behind PORT, the last first: a socket is opened, bound, connected,
-- sent and closed.
abbrev pub reached : (env : Env) → Grants env → SockAddr → List Event → List Event
reached env g to t =
    let fd = g.opens t socket in
    called (close (pos fd))
    ∷ called (sendmsg (pos fd))
    ∷ connecting (pos fd) to env.config.data_connection_timeout (client_socket env g t)

-- And behind PASV: a client is accepted, the listening socket is closed, and the client is sent.
abbrev pub admitted : (env : Env) → Grants env → ℤ → List Event → List Event
admitted env g l t =
    let fd = g.opens t (accept l) in
    called (close (pos fd)) ∷ called (sendmsg (pos fd)) ∷ called (close l) ∷ called (accept l) ∷ t

-- The other process, on the two commands of each exchange.
pub port_answer :
    (env : Env) (g : Grants env) (to : SockAddr) (ip : Bytes) (q : Proc)
    → is_minus_one q.sess.listen_fd ≡ true
    → to.port < 2 ^ 16
    → length ip < 16
    → env.kernel.inet_addr ip ≡ to.addr
    → Room q 30
    → (q' : Proc) × ((nobody_round env >> nobody_round env)
          (given q (pasv_active ∷ port_request ip to.port))
        ≡ done tt q')
      × (q'.wire.outbox ≡ q.wire.outbox ++ (int_bytes 0 ++ (result_ok ∷ 0 ∷ [])))
      × (q'.sess ≡ q.sess)
      × (q'.trace ≡ reached env g to q.trace)
      × (q'.wire.handed ≡ q.wire.handed ++ pos (g.opens q.trace socket) ∷ [])
port_answer env g to ip q off small fits same (sends, hears) =
    let request = port_request ip to.port in
    let fd = g.opens q.trace socket in
    let start = given q (pasv_active ∷ request) in
    let (a, d, e₁, h₁, s₁) =
      round-pasv_active env g (10 + length ip) request start refl
        (record { calm = hears.calm; enough = omega (arith, hears.enough) })
        (record { calm = sends.calm; enough = omega (arith, sends.enough) }) in
    let flag : Bytes = int_bytes (if is_minus_one q.sess.listen_fd then 0 else 1) in
    let q₁ = answered start request a flag d [] q.sess q.trace in
    let (a', d', e₂, h₂, s₂) =
      round-get_data_sock env g 0 ip [] to.port q₁ fits small (sym (append-nil request))
        (record { calm = h₁.calm; enough = omega (arith, h₁.enough) })
        (record { calm = s₁.calm; enough = omega (arith, s₁.enough) }) in
    let to' : SockAddr = record { port = to.port; addr = env.kernel.inet_addr ip } in
    let q₂ =
      answered q₁ [] a' (result_ok ∷ 0 ∷ []) d' (pos fd ∷ []) q.sess (reached env g to' q.trace) in
    (
      q₂,
      seq-done (nobody_round env) _ start e₁ ∙ e₂,
      append_assoc q.wire.outbox flag (result_ok ∷ 0 ∷ [])
          ∙ ap (λ b. q.wire.outbox ++ (int_bytes (if b then 0 else 1) ++ (result_ok ∷ 0 ∷ []))) off,
      refl,
      ap (λ (x : Bytes). reached env g (record { port = to.port; addr = x }) q.trace) same,
      append_assoc q.wire.handed [] (pos fd ∷ []),
    )

pub pasv_answer :
    (env : Env) (g : Grants env) (q : Proc)
    → is_minus_one q.sess.listen_fd ≡ false
    → Room q 30
    → (q' : Proc) × ((nobody_round env >> nobody_round env)
          (given q (pasv_active ∷ pasv_accept ∷ []))
        ≡ done tt q')
      × (q'.wire.outbox ≡ q.wire.outbox ++ (int_bytes 1 ++ (result_ok ∷ 0 ∷ [])))
      × (q'.sess ≡ record q.sess { listen_fd = minus_one })
      × (q'.trace ≡ admitted env g q.sess.listen_fd q.trace)
      × (q'.wire.handed ≡ q.wire.handed ++ pos (g.opens q.trace (accept q.sess.listen_fd)) ∷ [])
pasv_answer env g q on (sends, hears) =
    let l = q.sess.listen_fd in
    let fd = g.opens q.trace (accept l) in
    let start = given q (pasv_active ∷ pasv_accept ∷ []) in
    let (a, d, e₁, h₁, s₁) =
      round-pasv_active env g 10 (pasv_accept ∷ []) start refl
        (record { calm = hears.calm; enough = omega (arith, hears.enough) })
        (record { calm = sends.calm; enough = omega (arith, sends.enough) }) in
    let flag : Bytes = int_bytes (if is_minus_one q.sess.listen_fd then 0 else 1) in
    let q₁ = answered start (pasv_accept ∷ []) a flag d [] q.sess q.trace in
    let (a', d', e₂, h₂, s₂) = round-pasv_accept env g 9 [] q₁ refl h₁ s₁ in
    let q₂ =
      answered q₁ [] a' (result_ok ∷ 0 ∷ []) d' (pos fd ∷ [])
        (record q.sess { listen_fd = minus_one }) (admitted env g l q.trace) in
    (
      q₂,
      seq-done (nobody_round env) _ start e₁ ∙ e₂,
      append_assoc q.wire.outbox flag (result_ok ∷ 0 ∷ [])
          ∙ ap (λ b. q.wire.outbox ++ (int_bytes (if b then 0 else 1) ++ (result_ok ∷ 0 ∷ []))) on,
      refl,
      refl,
      append_assoc q.wire.handed [] (pos fd ∷ []),
    )
