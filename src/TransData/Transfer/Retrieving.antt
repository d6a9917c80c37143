-- ===== src/TransData/Transfer/Retrieving.antt =====
-- RETR of miniftpd/trans_data.c behind the checks on the file: the replies, the transfer and what it
-- gives up.
use mini_ftp.Base.{
  ℕ, ◌<◌, ◌%◌, ◌^◌, ◌==◌, ◌≡◌, refl, ap, ◌∙◌, true, all, List, ◌∷◌, ◌++◌, arith, Bytes, length,
  take, drop, length-drop, if◌then◌else◌,
}
use mini_ftp.Base.Int.{ℤ, pos}
use mini_ftp.Base.Text.{codes}
use mini_ftp.Commands.Codes
use mini_ftp.Commands.Framing.{Delivers, framed, replied, ftp_reply_lem}
use mini_ftp.Commands.Login.{calls, Succeeds}
use mini_ftp.Commands.Reply.{Env, ftp_reply, sys}
use mini_ftp.Session.Kernel.{Stat}
use mini_ftp.Session.{
  signal_ctrl_fd, seek_set, unlock, close, Event, called, Proc, done, hung, ◌>>=◌, bind-done,
  seq-done,
}
use mini_ftp.Sockets.Calls.{sys-Succeeds, need-Succeeds}
use mini_ftp.Sockets.{need, unlock_file}
use mini_ftp.Sysutil.Reading.{read_ok, looks}
use mini_ftp.TransCtrl.Alarms.{setup_ctrl_lem}
use mini_ftp.TransCtrl.Rate.{Steady, restarted, set_start_time_lem}
use mini_ftp.TransCtrl.{setup_signal_alarm_ctrl_fd, Double, set_start_time}
use mini_ftp.TransData.Transfer.Download.{download_loop_whole, download_loop_restarted}
use mini_ftp.TransData.Transfer.Events.{on_data, sent_replies}
use mini_ftp.TransData.Transfer.{signed32, download_text, download_reply, download_loop, send_from}

-- No `sendfile` fails, and they go on for longer than the bytes of a file.
abbrev pub Sendable : Env → ℕ → Type 0
Sendable env n =
    (trace : List Event)
    → (all read_ok (env.kernel.sendfile trace) ≡ true) × (n < looks (env.kernel.sendfile trace))

-- The text of the first reply.
abbrev pub get_opening : Stat → Proc → Bytes
get_opening s p =
    download_text (if p.sess.ascii_mode == 1 then codes "ASCII" else codes "binary") p.sess.args
      s.st_size

module _ {W : Type 0} (d : Double W) (env : Env) (steady : Steady env) (deliver : Delivers env)
    (succeed : Succeeds env) where
  -- The state in which the loop starts.
  abbrev begun : ℤ → Stat → Proc → Proc
  begun fd s p =
      let p₁ = replied Codes.data_conn (get_opening s p) p in
      let p₂ = record p₁ {
        trace = called (seek_set fd (signed32 p.sess.restart_pos)) ∷ p₁.trace;
      } in
      restarted p₂ (steady.clock p₂.trace).0

  -- The state behind the loop, up to the last reply.
  abbrev left_open : ℤ → Proc → Proc
  left_open fd q = record q {
    trace = called (close fd) ∷ called (close q.sess.data_fd) ∷ called (unlock fd) ∷ q.trace;
  }

  -- RETR without a restart: of a file of less than 2^31 bytes the whole content goes out on the data
  -- connection, in order. The replies are 150 and then 226, and the calls are the seek to the start of
  -- the file, the unlocking, the closing of the connection and of the file, and the handler of the
  -- alarm. The kernel may take the
  -- bytes in any portions; no call fails, and the clock and the sleeps of the rate limit do not either.
  pub send_from_whole :
      (fd : ℤ) (s : Stat) (file : Bytes) (p : Proc)
      → p.sess.restart_pos ≡ 0
      → s.st_size ≡ length file
      → length file < 2 ^ 31
      → ((trace : List Event) → env.kernel.content trace fd ≡ file)
      → Sendable env (length file)
      → (q : Proc) × (send_from d env fd s p ≡ done tt q)
        × (on_data q.trace ≡ on_data p.trace ++ file)
        × (sent_replies q.trace
            ≡ take 1023 (framed Codes.transfer_ok (codes "Transfer complete."))
              ∷ take 1023 (framed Codes.data_conn (get_opening s p))
              ∷ sent_replies p.trace)
        × (calls q.trace
            ≡ signal_ctrl_fd
              ∷ close fd
              ∷ close p.sess.data_fd
              ∷ unlock fd
              ∷ seek_set fd (pos 0)
              ∷ calls p.trace)
        × (q.sess.is_translating_data ≡ 0)
  unfolding send_from download_reply unlock_file
  send_from_whole fd s file p origin size small same sendable =
      let p₁ = replied Codes.data_conn (get_opening s p) p in
      let c = seek_set fd (signed32 p.sess.restart_pos) in
      let p₂ = record p₁ { trace = called c ∷ p₁.trace } in
      let p₃ = begun fd s p in
      let (q, e, out, kept) =
        download_loop_whole d env (env.kernel.sendfile p₃.trace) file p₃ steady small
          (sendable p₃.trace).0 (sendable p₃.trace).1 in
      let nleft : s.st_size % 2 ^ 32 ≡ length file = omega (arith, size) in
      let behind : drop (p.sess.restart_pos % 2 ^ 32) (env.kernel.content p₃.trace fd) ≡ file =
        ap (λ n. drop (n % 2 ^ 32) (env.kernel.content p₃.trace fd)) origin ∙ same p₃.trace in
      let q₁ = record q { trace = called (unlock fd) ∷ q.trace } in
      let q₂ = record q { trace = called (close q.sess.data_fd) ∷ q₁.trace } in
      let q₃ = left_open fd q in
      (
        _,
        seq-done (ftp_reply env Codes.data_conn (get_opening s p)) _ p
              (ftp_reply_lem env Codes.data_conn (get_opening s p) p deliver)
            ∙ (seq-done (need env c) _ p₁ (need-Succeeds env c p₁ succeed)
                ∙ (seq-done (set_start_time env) _ p₂ (set_start_time_lem env steady p₂)
                    ∙ (bind-done
                          (download_loop d env (env.kernel.sendfile p₃.trace) (s.st_size % 2 ^ 32)
                            (drop (p.sess.restart_pos % 2 ^ 32) (env.kernel.content p₃.trace fd)))
                          _ p₃
                          (ap
                              (λ n.
                                download_loop d env (env.kernel.sendfile p₃.trace) n
                                  (drop (p.sess.restart_pos % 2 ^ 32)
                                    (env.kernel.content p₃.trace fd))
                                  p₃)
                              nleft
                            ∙ (ap
                                  (λ b.
                                    download_loop d env (env.kernel.sendfile p₃.trace) (length file)
                                      b p₃)
                                  behind
                                ∙ e))
                        ∙ (bind-done (sys env (unlock fd)) _ q
                              (sys-Succeeds env (unlock fd) q succeed)
                            ∙ (bind-done (sys env (close q.sess.data_fd)) _ q₁
                                  (sys-Succeeds env (close q.sess.data_fd) q₁ succeed)
                                ∙ (bind-done (sys env (close fd)) _ q₂
                                      (sys-Succeeds env (close fd) q₂ succeed)
                                    ∙ seq-done
                                        (ftp_reply env Codes.transfer_ok
                                          (codes "Transfer complete."))
                                        _ q₃
                                        (ftp_reply_lem env Codes.transfer_ok
                                          (codes "Transfer complete.") q₃ deliver)
                                    ∙ seq-done (setup_signal_alarm_ctrl_fd env) _
                                        (replied Codes.transfer_ok (codes "Transfer complete.") q₃)
                                        (setup_ctrl_lem env
                                          (replied Codes.transfer_ok (codes "Transfer complete.")
                                            q₃)
                                          succeed))))))),
        out,
        ap (λ r. take 1023 (framed Codes.transfer_ok (codes "Transfer complete.")) ∷ r)
            kept.same_replies,
        ap (λ r. signal_ctrl_fd ∷ close fd ∷ close r ∷ unlock fd ∷ calls q.trace) kept.same_data_fd
            ∙ (ap (λ r. signal_ctrl_fd ∷ close fd ∷ close p.sess.data_fd ∷ unlock fd ∷ r)
                  kept.same_calls
                ∙ ap
                    (λ n.
                      signal_ctrl_fd
                      ∷ close fd
                      ∷ close p.sess.data_fd
                      ∷ unlock fd
                      ∷ seek_set fd (signed32 n)
                      ∷ calls p.trace)
                    origin),
        refl,
      )

  -- RETR with a restart inside the file: `nleft` is the size of the whole file, so that the loop goes on
  -- at the end of the file. The command does not return, though no call fails.
  pub send_from_restarted :
      (fd : ℤ) (s : Stat) (file : Bytes) (p : Proc)
      → 0 < p.sess.restart_pos
      → p.sess.restart_pos < 2 ^ 31
      → s.st_size ≡ length file
      → 0 < length file
      → length file < 2 ^ 31
      → ((trace : List Event) → env.kernel.content trace fd ≡ file)
      → ((trace : List Event) → all read_ok (env.kernel.sendfile trace) ≡ true)
      → (q : Proc) × (send_from d env fd s p ≡ hung q)
  unfolding send_from
  send_from_restarted fd s file p after start size some_bytes small same calm =
      let p₁ = replied Codes.data_conn (get_opening s p) p in
      let c = seek_set fd (signed32 p.sess.restart_pos) in
      let p₂ = record p₁ { trace = called c ∷ p₁.trace } in
      let p₃ = begun fd s p in
      let behind = drop (p.sess.restart_pos % 2 ^ 32) (env.kernel.content p₃.trace fd) in
      let shorter : length behind < s.st_size % 2 ^ 32 = omega (
        arith,
        size,
        length-drop (p.sess.restart_pos % 2 ^ 32) (env.kernel.content p₃.trace fd),
        ap length (same p₃.trace),
      ) in
      let (q, e) =
        download_loop_restarted d env (env.kernel.sendfile p₃.trace) (s.st_size % 2 ^ 32) behind p₃
          steady (omega (arith, size)) shorter (calm p₃.trace) in
      (
        q,
        seq-done (ftp_reply env Codes.data_conn (get_opening s p)) _ p
              (ftp_reply_lem env Codes.data_conn (get_opening s p) p deliver)
            ∙ (seq-done (need env c) _ p₁ (need-Succeeds env c p₁ succeed)
                ∙ (seq-done (set_start_time env) _ p₂ (set_start_time_lem env steady p₂)
                    ∙ rw (◌>>=◌, e) refl)),
      )
