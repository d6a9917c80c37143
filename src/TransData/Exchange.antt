-- ===== src/TransData/Exchange.antt =====
-- The two processes of a client agree on a data connection: what one of them sends in
-- miniftpd/trans_data.c is what miniftpd/priv_command.c reads, and the reverse.
use mini_ftp.Base.{
  ℕ, ◌+◌, ◌^◌, ◌<◌, ◌≡◌, refl, ap, ◌∙◌, not, none, some, List, [], ◌∷◌, ◌++◌, append_assoc, ◌==◌,
  Bytes, length,
}
use mini_ftp.Base.Int.{pos, minus_one}
use mini_ftp.Commands.Reply.{Env, sys}
use mini_ftp.Nobody.{get_data_sock, pasv_active, pasv_accept, result_ok}
use mini_ftp.Nobody.Replies.{port_request}
use mini_ftp.PrivSock.Messages.{
  send_int_lem, recv_int_lem, send_byte_lem, recv_result_lem, str_message, send_str_lem,
}
use mini_ftp.PrivSock.Transport.{Sends, Hears, told, heard}
use mini_ftp.PrivSock.{
  int_bytes, priv_sock_send_cmd, priv_sock_recv_result, priv_sock_send_int, priv_sock_recv_int,
  priv_sock_send_str, priv_sock_recv_fd,
}
use mini_ftp.Session.{SockAddr, Session, close, Event, called, Proc, done, bind-done, seq-done}
use mini_ftp.Sysutil.{Arrival, up_to, Departure}
use mini_ftp.TransData.{is_pasv_active, ask_for, ask_for_port, get_port_data_fd, get_pasv_data_fd}

-- The state behind a request, its answer and the descriptor `n` that came with it.
abbrev pub served :
    Proc
    → Bytes
    → List Departure
    → Bytes
    → List Arrival
    → List Arrival
    → List ℕ
    → Session
    → List Event
    → Proc
served p request d rest a rs fds s t = record p {
  sess = s;
  trace = t;
  wire = record p.wire {
    inbox = rest;
    passed = fds;
    arrivals = a;
    receipts = rs;
    outbox = p.wire.outbox ++ request;
    departures = d;
  };
}

-- Bytes that are on the way, and a descriptor with the last of them.
pub record Passes (p : Proc) (n : ℕ) : Type 0 where
  pub limit : ℕ
  pub later : List Arrival
  pub others : List ℕ
  pub receipt : p.wire.receipts ≡ up_to limit ∷ later
  pub first : p.wire.passed ≡ n ∷ others

recv_fd_lem :
    (n : ℕ) (rest : Bytes) (p : Proc)
    → (c : Passes p n) → p.wire.inbox ≡ 0 ∷ rest
    → priv_sock_recv_fd p
      ≡ done (pos n) (record p {
        wire = record p.wire { inbox = rest; receipts = c.later; passed = c.others };
      })
unfolding priv_sock_recv_fd
recv_fd_lem n rest p c h = rw (c.receipt, c.first, h) refl

module _ (env : Env) where
  pub is_pasv_active_lem :
      (k m : ℕ) (rest : Bytes) (p : Proc)
      → m < 2 ^ 32
      → p.wire.inbox ≡ int_bytes m ++ rest
      → Sends (1 + k) p.wire.departures
      → Hears (4 + k) p.wire.arrivals
      → (d : List Departure) × (a : List Arrival) × (is_pasv_active env p
          ≡ done (not (m == 0)) (heard (told p (pasv_active ∷ []) d) rest a))
        × Sends k d
        × Hears k a
  unfolding is_pasv_active
  is_pasv_active_lem k m rest p small h sends hears =
      let (d, e, _, left) = send_byte_lem k pasv_active p sends in
      let (a, e', left') = recv_int_lem k m rest (told p (pasv_active ∷ []) d) small h hears in
      (
        d,
        a,
        seq-done (priv_sock_send_cmd pasv_active) _ p e ∙ bind-done priv_sock_recv_int _ _ e',
        left,
        left',
      )

  pub get_port_lem :
      (k n : ℕ) (to : SockAddr) (rest : Bytes) (p : Proc)
      → p.sess.p_addr ≡ some to
      → (c : Passes p n) → p.wire.inbox ≡ result_ok ∷ 0 ∷ rest
      → Sends (1 + (4 + (length (env.kernel.inet_ntoa to.addr) + (4 + k)))) p.wire.departures
      → Hears (1 + k) p.wire.arrivals
      → (d : List Departure) × (a : List Arrival) × (get_port_data_fd env p
          ≡ done tt (
              served p
                (port_request (env.kernel.inet_ntoa to.addr) to.port)
                d
                rest
                a
                c.later
                c.others
                (record p.sess { data_fd = pos n; p_addr = none })
                p.trace))
        × Sends k d
        × Hears k a
  unfolding get_port_data_fd ask_for ask_for_port
  get_port_lem k n to rest p mode c h sends hears =
      let ip = env.kernel.inet_ntoa to.addr in
      let (d₁, e₁, _, s₁) = send_byte_lem _ get_data_sock p sends in
      let p₁ = told p (get_data_sock ∷ []) d₁ in
      let (d₂, e₂, s₂) = send_str_lem (4 + k) ip p₁ s₁ in
      let p₂ = told p₁ (str_message ip) d₂ in
      let (d₃, e₃, s₃) = send_int_lem k to.port p₂ s₂ in
      let p₃ = told p₂ (int_bytes to.port) d₃ in
      let (a, e₄, h₄) = recv_result_lem k result_ok (0 ∷ rest) p₃ h hears in
      let p₄ = heard p₃ (0 ∷ rest) a in
      let e₅ =
        recv_fd_lem n rest p₄
          (record {
            limit = c.limit;
            later = c.later;
            others = c.others;
            receipt = c.receipt;
            first = c.first;
          })
          refl in
      (
        d₃,
        a,
        seq-done (priv_sock_send_cmd get_data_sock) _ p e₁
            ∙ (ap (λ o. ask_for env o p₁) mode
                ∙ (seq-done (priv_sock_send_str ip) _ p₁ e₂
                    ∙ (seq-done (priv_sock_send_int to.port) _ p₂ e₃
                        ∙ (bind-done priv_sock_recv_result _ p₃ e₄
                            ∙ (bind-done priv_sock_recv_fd _ p₄ e₅
                                ∙ rw (append_assoc, append_assoc) refl))))),
        s₃,
        h₄,
      )

  pub get_pasv_lem :
      (k n : ℕ) (rest : Bytes) (p : Proc)
      → (c : Passes p n) → p.wire.inbox ≡ result_ok ∷ 0 ∷ rest
      → Sends (1 + k) p.wire.departures
      → Hears (1 + k) p.wire.arrivals
      → (d : List Departure) × (a : List Arrival) × (get_pasv_data_fd env p
          ≡ done tt (
              served p
                (pasv_accept ∷ [])
                d
                rest
                a
                c.later
                c.others
                (record p.sess { data_fd = pos n; listen_fd = minus_one })
                (called (close p.sess.listen_fd) ∷ p.trace)))
        × Sends k d
        × Hears k a
  unfolding get_pasv_data_fd sys
  get_pasv_lem k n rest p c h sends hears =
      let (d, e, _, s) = send_byte_lem k pasv_accept p sends in
      let p₁ = told p (pasv_accept ∷ []) d in
      let (a, e', h') = recv_result_lem k result_ok (0 ∷ rest) p₁ h hears in
      let p₂ = heard p₁ (0 ∷ rest) a in
      let e₃ =
        recv_fd_lem n rest p₂
          (record {
            limit = c.limit;
            later = c.later;
            others = c.others;
            receipt = c.receipt;
            first = c.first;
          })
          refl in
      (
        d,
        a,
        seq-done (priv_sock_send_cmd pasv_accept) _ p e
            ∙ (bind-done priv_sock_recv_result _ p₁ e' ∙ bind-done priv_sock_recv_fd _ p₂ e₃),
        s,
        h',
      )
