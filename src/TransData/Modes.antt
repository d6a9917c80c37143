-- ===== src/TransData/Modes.antt =====
-- The modes of a data connection, PORT and PASV, through `get_trans_data_fd` of
-- miniftpd/trans_data.c and the process that opens the connections.
use mini_ftp.Base.{
  ℕ, ◌+◌, ◌^◌, ◌<◌, ◌≡◌, ◌≢◌, refl, ap, ◌∙◌, true, false, not, none, some, List, [], ◌∷◌, ◌++◌,
  arith, ◌==◌, Bytes,
}
use mini_ftp.Base.Text.{codes}
use mini_ftp.Commands.Codes
use mini_ftp.Commands.Framing.{Delivers, replied, ftp_reply_lem}
use mini_ftp.Commands.Reply.{Env}
use mini_ftp.Nobody.{pasv_active}
use mini_ftp.PrivSock.Transport.{Sends, Hears, told, heard}
use mini_ftp.PrivSock.{int_bytes}
use mini_ftp.Session.{SockAddr, Proc, exited, ◌>>=◌, bind-done}
use mini_ftp.Sysutil.{Arrival, Departure}
use mini_ftp.TransData.Exchange.{is_pasv_active_lem}
use mini_ftp.TransData.{is_some, is_port_active, is_pasv_active, connect_data, get_trans_data_fd}

module _ (env : Env) where
  -- The question to the other process, and what follows it.
  pub ask_modes :
      (k m : ℕ) (rest : Bytes) (p : Proc)
      → m < 2 ^ 32
      → p.wire.inbox ≡ int_bytes m ++ rest
      → Sends (1 + k) p.wire.departures
      → Hears (4 + k) p.wire.arrivals
      → (d : List Departure) × (a : List Arrival) × (get_trans_data_fd env p
          ≡ connect_data env
              (is_some p.sess.p_addr)
              (not (m == 0))
              (heard (told p (pasv_active ∷ []) d) rest a))
        × Sends k d
        × Hears k a
  unfolding get_trans_data_fd is_port_active
  ask_modes k m rest p small h sends hears =
      let (d, a, e, s, r) = is_pasv_active_lem env k m rest p small h sends hears in
      (d, a, bind-done (is_pasv_active env) _ p e, s, r)

  -- Where both modes are active, the process ends, and the client gets no reply.
  pub get_trans_data_fd_both :
      (to : SockAddr) (m : ℕ) (rest : Bytes) (p : Proc)
      → p.sess.p_addr ≡ some to
      → m < 2 ^ 32
      → m ≢ 0
      → p.wire.inbox ≡ int_bytes m ++ rest
      → Sends 1 p.wire.departures
      → Hears 4 p.wire.arrivals
      → (q : Proc) × (get_trans_data_fd env p ≡ exited 1 q) × (q.trace ≡ p.trace)
  unfolding connect_data
  get_trans_data_fd_both to m rest p mode small active h sends hears =
      let (d, a, e, s, r) =
        ask_modes 0 m rest p small h
          (record { calm = sends.calm; enough = omega (arith, sends.enough) })
          (record { calm = hears.calm; enough = omega (arith, hears.enough) }) in
      let p₁ = heard (told p (pasv_active ∷ []) d) rest a in
      let on : not (m == 0) ≡ true = ground arith in
      (
        p₁,
        e
            ∙ ap (λ b. connect_data env b (not (m == 0)) p₁) (ap is_some mode)
            ∙ ap (λ b. connect_data env true b p₁) on,
        refl,
      )

  -- Where neither is, the client is told to choose one, and the process ends.
  pub get_trans_data_fd_neither :
      (rest : Bytes) (p : Proc)
      → Delivers env
      → p.sess.p_addr ≡ none
      → p.wire.inbox ≡ int_bytes 0 ++ rest
      → Sends 1 p.wire.departures
      → Hears 4 p.wire.arrivals
      → (q : Proc) × (get_trans_data_fd env p ≡ exited 1 q)
        × (q.trace ≡ (replied Codes.bad_send_conn (codes "Use PORT or PASV first.") p).trace)
  unfolding connect_data
  get_trans_data_fd_neither rest p deliver mode h sends hears =
      let (d, a, e, s, r) =
        ask_modes 0 0 rest p (omega arith) h
          (record { calm = sends.calm; enough = omega (arith, sends.enough) })
          (record { calm = hears.calm; enough = omega (arith, hears.enough) }) in
      let p₁ = heard (told p (pasv_active ∷ []) d) rest a in
      (
        replied Codes.bad_send_conn (codes "Use PORT or PASV first.") p₁,
        e
            ∙ (ap (λ b. connect_data env b false p₁) (ap is_some mode)
                ∙ rw
                    (
                      ftp_reply_lem env Codes.bad_send_conn (codes "Use PORT or PASV first.") p₁
                          deliver,
                      ◌>>=◌,
                    )
                    refl),
        refl,
      )
