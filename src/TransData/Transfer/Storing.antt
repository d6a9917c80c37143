-- ===== src/TransData/Transfer/Storing.antt =====
-- STOR of miniftpd/trans_data.c behind the checks on the file: the replies, the transfer and what it
-- gives up.
use mini_ftp.Base.{
  ◌<◌, ◌==◌, ◌≡◌, refl, ap, ◌∙◌, true, false, all, List, ◌∷◌, ◌++◌, Bytes, length, take,
  if◌then◌else◌,
}
use mini_ftp.Base.Int.{ℤ, pos, minus_one}
use mini_ftp.Base.Text.{codes}
use mini_ftp.Commands.Codes
use mini_ftp.Commands.Framing.{Delivers, framed, replied, ftp_reply_lem}
use mini_ftp.Commands.Login.{calls, Succeeds}
use mini_ftp.Commands.Reply.{Env, ftp_reply, sys}
use mini_ftp.Session.{
  signal_ctrl_fd, ftruncate, unlock, close, Event, called, Proc, done, bind-done, seq-done,
}
use mini_ftp.Sockets.Calls.{sys-Succeeds}
use mini_ftp.Sockets.{unlock_file}
use mini_ftp.Sysutil.Reading.{read_ok, looks}
use mini_ftp.TransCtrl.Alarms.{setup_ctrl_lem}
use mini_ftp.TransCtrl.Rate.{Steady, restarted, set_start_time_lem}
use mini_ftp.TransCtrl.{setup_signal_alarm_ctrl_fd, Double, set_start_time}
use mini_ftp.TransData.Transfer.Upload.{FileTakes, upload_loop_lem}
use mini_ftp.TransData.Transfer.Events.{into_file, sent_replies}
use mini_ftp.TransData.Transfer.{upload_text, upload_reply, start_store, upload_loop, receive_into}

-- What the client sends, which arrives without a failure.
abbrev pub Arrives : Env → Bytes → Type 0
Arrives env stream =
    (trace : List Event)
    → (env.kernel.data_in trace ≡ stream)
      × (all read_ok (env.kernel.data_arrivals trace) ≡ true)
      × (length stream < looks (env.kernel.data_arrivals trace))

-- The text of the first reply.
abbrev pub store_opening : Proc → Bytes
store_opening p =
    upload_text (if p.sess.ascii_mode == 1 then codes "ASCII" else codes "Binary") p.sess.args 0

module _ {W : Type 0} (d : Double W) (env : Env) (steady : Steady env) (deliver : Delivers env)
    (succeed : Succeeds env) where
  start_store_lem :
      (fd : ℤ) (p : Proc)
      → start_store env fd false 0 p
        ≡ done 0 (record p { trace = called (ftruncate fd (pos 0)) ∷ p.trace })
  unfolding start_store
  start_store_lem fd p =
      bind-done (sys env (ftruncate fd (pos 0))) _ p
        (sys-Succeeds env (ftruncate fd (pos 0)) p succeed)

  -- STOR without a restart: what the client sends goes into the file, whole and in order. The replies
  -- are 150 and then 226, and the calls are the cut of the file to the length 0, the unlocking and the
  -- closing of the file and of the connection, which the session has no more, and the handler of the
  -- alarm. The kernel may deliver
  -- and take the bytes in any portions; no call fails, and the clock and the sleeps of the rate limit do
  -- not either.
  pub receive_into_whole :
      (fd : ℤ) (stream : Bytes) (p : Proc)
      → p.sess.restart_pos ≡ 0
      → Arrives env stream
      → FileTakes env
      → (q : Proc) × (receive_into d env fd false p ≡ done tt q)
        × (into_file q.trace ≡ into_file p.trace ++ stream)
        × (sent_replies q.trace
            ≡ take 1023 (framed Codes.transfer_ok (codes "Transfer complete."))
              ∷ take 1023 (framed Codes.data_conn (store_opening p))
              ∷ sent_replies p.trace)
        × (calls q.trace
            ≡ signal_ctrl_fd
              ∷ close p.sess.data_fd
              ∷ close fd
              ∷ unlock fd
              ∷ ftruncate fd (pos 0)
              ∷ calls p.trace)
        × (q.sess.is_translating_data ≡ 0)
        × (q.sess.data_fd ≡ minus_one)
  unfolding receive_into upload_reply unlock_file
  receive_into_whole fd stream p origin arrives takes =
      let p₁ = record p { trace = called (ftruncate fd (pos 0)) ∷ p.trace } in
      let p₂ = replied Codes.data_conn (store_opening p) p₁ in
      let p₃ = restarted p₂ (steady.clock p₂.trace).0 in
      let t = p₃.trace in
      let (same, calm, enough) = arrives t in
      let (q, e, stored, kept) =
        upload_loop_lem d env (env.kernel.data_arrivals t) stream p₃ steady takes calm enough in
      let q₁ = record q { trace = called (unlock fd) ∷ q.trace } in
      let q₂ = record q { trace = called (close fd) ∷ q₁.trace } in
      let q₃ = record q {
        trace = called (close q.sess.data_fd) ∷ q₂.trace;
        sess = record q.sess { data_fd = minus_one };
      } in
      (
        _,
        bind-done (start_store env fd false p.sess.restart_pos) _ p
              (ap (λ o. start_store env fd false o p) origin ∙ start_store_lem fd p)
            ∙ (seq-done (ftp_reply env Codes.data_conn (store_opening p)) _ p₁
                  (ftp_reply_lem env Codes.data_conn (store_opening p) p₁ deliver)
                ∙ (seq-done (set_start_time env) _ p₂ (set_start_time_lem env steady p₂)
                    ∙ (bind-done
                          (upload_loop d env (env.kernel.data_arrivals t) (env.kernel.data_in t)) _
                          p₃
                          (ap (λ b. upload_loop d env (env.kernel.data_arrivals t) b p₃) same ∙ e)
                        ∙ (bind-done (sys env (unlock fd)) _ q
                              (sys-Succeeds env (unlock fd) q succeed)
                            ∙ (bind-done (sys env (close fd)) _ q₁
                                  (sys-Succeeds env (close fd) q₁ succeed)
                                ∙ (bind-done (sys env (close q.sess.data_fd)) _ q₂
                                      (sys-Succeeds env (close q.sess.data_fd) q₂ succeed)
                                    ∙ seq-done
                                        (ftp_reply env Codes.transfer_ok
                                          (codes "Transfer complete."))
                                        _ q₃
                                        (ftp_reply_lem env Codes.transfer_ok
                                          (codes "Transfer complete.") q₃ deliver)
                                    ∙ seq-done (setup_signal_alarm_ctrl_fd env) _
                                        (replied Codes.transfer_ok (codes "Transfer complete.") q₃)
                                        (setup_ctrl_lem env
                                          (replied Codes.transfer_ok (codes "Transfer complete.")
                                            q₃)
                                          succeed))))))),
        stored,
        ap (λ r. take 1023 (framed Codes.transfer_ok (codes "Transfer complete.")) ∷ r)
            kept.same_replies,
        ap (λ r. signal_ctrl_fd ∷ close r ∷ close fd ∷ unlock fd ∷ calls q.trace) kept.same_data_fd
            ∙ ap (λ r. signal_ctrl_fd ∷ close p.sess.data_fd ∷ close fd ∷ unlock fd ∷ r)
                kept.same_calls,
        refl,
        refl,
      )
