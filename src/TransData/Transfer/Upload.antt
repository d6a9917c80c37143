-- ===== src/TransData/Transfer/Upload.antt =====
-- What STOR and APPE of miniftpd/trans_data.c put into the file.
use mini_ftp.Base.{
  ℕ, suc, ◌≤◌, ◌<◌, ◌≡◌, refl, sym, ap, ◌∙◌, true, all, List, [], ◌∷◌, ◌++◌, append_assoc,
  append-nil, arith, min, Bytes, length, take, drop, take-append-drop, length-take, length-drop,
}
use mini_ftp.Commands.Reply.{Env}
use mini_ftp.Session.{Event, file_data, Proc, done, M, bind-done, seq-done}
use mini_ftp.Sysutil.Reading.{read_ok, looks}
use mini_ftp.Sysutil.Writing.{write_ok, takes, writen-wrote}
use mini_ftp.Sysutil.{Arrival, up_to}
use mini_ftp.TransCtrl.Rate.{Steady, limit_curr_rate_lem, over_limit}
use mini_ftp.TransCtrl.{Double, limit_curr_rate}
use mini_ftp.TransData.Transfer.Events.{into_file, Keeps, Keeps-refl, Keeps-trans, Quiet-slept}
use mini_ftp.TransData.Transfer.{Flag, complete, block, file_write, store_block, upload_loop}

-- No write into the file fails, and each block is taken in the end.
abbrev pub FileTakes : Env → Type 0
FileTakes env =
    (trace : List Event)
    → (all write_ok (env.kernel.file_departures trace) ≡ true)
      × (block ≤ takes (env.kernel.file_departures trace))

file_write_lem :
    (env : Env) (buf : Bytes) (p : Proc)
    → FileTakes env
    → length buf ≤ block
    → file_write env buf p ≡ done true (record p { trace = file_data buf ∷ p.trace })
unfolding file_write
file_write_lem env buf p h l =
    let (s, e) =
      writen-wrote (env.kernel.file_departures p.trace) buf (h p.trace).0
        (omega (arith, (h p.trace).1)) in
    rw (e, file_write)

module _ {W : Type 0} (d : Double W) (env : Env) where
  store_block_lem :
      (buf : Bytes) (next : M Flag) (p : Proc)
      → Steady env
      → FileTakes env
      → length buf ≤ block
      → (q : Proc) × (store_block d env buf next p ≡ next q)
        × (into_file q.trace ≡ into_file p.trace ++ buf)
        × Keeps p q
  unfolding store_block
  store_block_lem buf next p steady ok l =
      let stored = record p { trace = file_data buf ∷ p.trace } in
      let (sec, nsec, e) = limit_curr_rate_lem env steady d (length buf) true stored in
      let quiet =
        Quiet-slept (over_limit env steady d (length buf) true stored) sec nsec stored.trace in
      (
        _,
        bind-done (file_write env buf) _ p (file_write_lem env buf p ok l)
            ∙ seq-done (limit_curr_rate d env (length buf) true) next stored e,
        quiet.into,
        record { same_replies = quiet.replies; same_calls = quiet.made; same_data_fd = refl },
      )

  -- What arrives on the data connection goes into the file, whole and in order, and the transfer is
  -- said to be complete: however the stream is cut up and the reads are interrupted, as long as no
  -- read fails and they go on, the file takes every block, and the clock and the sleeps of the rate
  -- limit do not fail. Meanwhile there is no reply and no other call.
  pub upload_loop_lem :
      (schedule : List Arrival) (stream : Bytes) (p : Proc)
      → Steady env
      → FileTakes env
      → all read_ok schedule ≡ true
      → length stream < looks schedule
      → (q : Proc) × (upload_loop d env schedule stream p ≡ done complete q)
        × (into_file q.trace ≡ into_file p.trace ++ stream)
        × Keeps p q
  unfolding upload_loop
  upload_loop_lem [] stream p steady ok h l = absurd (omega arith)
  upload_loop_lem (Arrival.broken ∷ s) stream p steady ok h l = cc
  upload_loop_lem (Arrival.interrupted ∷ s) stream p steady ok h l =
      upload_loop_lem s stream p steady ok h l
  upload_loop_lem (up_to k ∷ s) [] p steady ok h l =
      (p, refl, sym (append-nil (into_file p.trace)), Keeps-refl)
  upload_loop_lem (up_to k ∷ s) (c ∷ stream) p steady ok h l =
      let n : ℕ = min (suc k) block in
      let buf = take n (c ∷ stream) in
      let rest = drop n (c ∷ stream) in
      let (q, e, kept, same) =
        store_block_lem buf (upload_loop d env s rest) p steady ok
          (omega (arith, length-take n (c ∷ stream))) in
      let (q', e', kept', same') =
        upload_loop_lem s rest q steady ok h (omega (arith, length-drop n (c ∷ stream))) in
      (
        q',
        e ∙ e',
        kept'
            ∙ (ap (λ x. x ++ rest) kept
                ∙ (append_assoc (into_file p.trace) buf rest
                    ∙ ap (◌++◌ (into_file p.trace)) (take-append-drop n (c ∷ stream)))),
        Keeps-trans same same',
      )
