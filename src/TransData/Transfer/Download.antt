-- ===== src/TransData/Transfer/Download.antt =====
-- What RETR of miniftpd/trans_data.c sends on the data connection.
use mini_ftp.Base.{
  ℕ, suc, ◌≤◌, ◌<◌, ◌+◌, ◌^◌, ◌==◌, ◌≡◌, refl, sym, ap, ◌∙◌, Bool, true, false, all, List, [], ◌∷◌,
  ◌++◌, append_assoc, append-nil, arith, min, Bytes, length, take, drop, take-append-drop,
  length-take, length-drop, if◌then◌else◌,
}
use mini_ftp.Commands.Reply.{Env}
use mini_ftp.Session.{sent_data, slept, Proc, done, hung, M, seq-done}
use mini_ftp.Sysutil.Reading.{read_ok, looks}
use mini_ftp.Sysutil.{Arrival, up_to}
use mini_ftp.TransCtrl.Rate.{Steady, restarted, limit_curr_rate_lem, over_limit}
use mini_ftp.TransCtrl.{Double, limit_curr_rate}
use mini_ftp.TransData.Transfer.Events.{on_data, Keeps, Keeps-trans, Quiet-slept}
use mini_ftp.TransData.Transfer.{block_size, less32, after_send, download_loop}

less32-minus : (a n : ℕ) → n ≤ a → a < 2 ^ 31 → less32 a n + n ≡ a
less32-minus a n h k = omega arith

block_size-positive : (a : ℕ) → a < 2 ^ 31 → 0 < a → 0 < block_size a
block_size-positive a h some_left = ground arith

module _ {W : Type 0} (d : Double W) (env : Env) where
  after_send_last :
      (buf : Bytes) (next : M Bool) (p : Proc)
      → after_send d env buf 0 next p ≡ done true (record p { trace = sent_data buf ∷ p.trace })
  unfolding after_send
  after_send_last buf next p = refl

  after_send_more :
      (buf : Bytes) (left : ℕ) (next : M Bool) (p : Proc)
      → Steady env
      → 0 < left
      → (q : Proc) × (after_send d env buf left next p ≡ next q)
        × (on_data q.trace ≡ on_data p.trace ++ buf)
        × Keeps p q
  unfolding after_send
  after_send_more buf left next p steady h =
      let gone = record p { trace = sent_data buf ∷ p.trace } in
      let more : (left == 0) ≡ false = ground arith in
      let (sec, nsec, e) = limit_curr_rate_lem env steady d (length buf) false gone in
      let t =
        if over_limit env steady d (length buf) false gone
        then slept sec nsec ∷ gone.trace
        else gone.trace in
      let quiet =
        Quiet-slept (over_limit env steady d (length buf) false gone) sec nsec gone.trace in
      (
        restarted (record gone { trace = t }) (steady.clock t).0,
        rw (more) (seq-done (limit_curr_rate d env (length buf) false) next gone e),
        quiet.on,
        record { same_replies = quiet.replies; same_calls = quiet.made; same_data_fd = refl },
      )

  -- The rest of a file is sent behind its first block.
  sends_rest :
      (s : List Arrival) (buf rest : Bytes) (p : Proc)
      → Steady env
      → ((q : Proc)
          → 0 < length rest
          → (q' : Proc) × (download_loop d env s (length rest) rest q ≡ done true q')
            × (on_data q'.trace ≡ on_data q.trace ++ rest)
            × Keeps q q')
      → (q : Proc) × (after_send d env buf
            (length rest)
            (download_loop d env s (length rest) rest)
            p
          ≡ done true q)
        × (on_data q.trace ≡ (on_data p.trace ++ buf) ++ rest)
        × Keeps p q
  sends_rest s buf [] p steady ih = (
    _,
    after_send_last buf (download_loop d env s 0 []) p,
    sym (append-nil (on_data p.trace ++ buf)),
    record { same_replies = refl; same_calls = refl; same_data_fd = refl },
  )
  sends_rest s buf (c ∷ rest) p steady ih =
      let (q, e, out, same) =
        after_send_more buf (length (c ∷ rest))
          (download_loop d env s (length (c ∷ rest)) (c ∷ rest)) p steady (omega arith) in
      let (q', e', out', same') = ih q (omega arith) in
      (q', e ∙ e', out' ∙ ap (λ x. x ++ (c ∷ rest)) out, Keeps-trans same same')

  -- RETR without a restart: of a file of less than 2^31 bytes, the whole content goes out on the data
  -- connection, in order, and the transfer ends as a complete one, however many bytes each `sendfile`
  -- takes, as long as none fails and they go on, and the clock and the sleeps of the rate limit do not
  -- fail. Meanwhile there is no reply and no call.
  pub download_loop_whole :
      (schedule : List Arrival) (file : Bytes) (p : Proc)
      → Steady env
      → length file < 2 ^ 31
      → all read_ok schedule ≡ true
      → length file < looks schedule
      → (q : Proc) × (download_loop d env schedule (length file) file p ≡ done true q)
        × (on_data q.trace ≡ on_data p.trace ++ file)
        × Keeps p q
  unfolding download_loop
  download_loop_whole [] file p steady size h l = absurd (omega arith)
  download_loop_whole (Arrival.broken ∷ s) file p steady size h l = cc
  download_loop_whole (Arrival.interrupted ∷ s) file p steady size h l =
      download_loop_whole s file p steady size h l
  download_loop_whole (up_to k ∷ s) file p steady size h l =
      let n : ℕ = min (suc k) (block_size (length file)) in
      let buf = take n file in
      let rest = drop n file in
      let left : ℕ = less32 (length file) (length buf) in
      let remains : left ≡ length rest =
        omega (
          arith,
          less32-minus (length file) (length buf),
          length-take n file,
          length-drop n file,
        ) in
      let joined : on_data p.trace ++ file ≡ (on_data p.trace ++ buf) ++ rest =
        ap (◌++◌ (on_data p.trace)) (sym (take-append-drop n file))
        ∙ sym (append_assoc (on_data p.trace) buf rest) in
      let longer : 0 < length rest → length rest < looks s = λ some_left.
        let more : 0 < length file = omega (arith, length-drop n file) in
        omega (arith, length-drop n file, block_size-positive (length file) size more) in
      let (q, e, out, same) = sends_rest s buf rest p steady (λ q some_left.
        download_loop_whole s rest q steady (omega (arith, length-drop n file)) h
          (longer some_left)) in
      (
        q,
        ap (λ x. after_send d env buf x (download_loop d env s x rest) p) remains ∙ e,
        out ∙ sym joined,
        same,
      )

  -- A restart of RETR: `nleft` is the size of the whole file and not of what is behind the position, and
  -- `sendfile` sends nothing at the end of the file. Where no `sendfile` fails, the loop goes on for as
  -- long as there are calls, and no reply follows.
  pub download_loop_restarted :
      (schedule : List Arrival) (nleft : ℕ) (behind : Bytes) (p : Proc)
      → Steady env
      → nleft < 2 ^ 31
      → length behind < nleft
      → all read_ok schedule ≡ true
      → (q : Proc) × (download_loop d env schedule nleft behind p ≡ hung q)
  unfolding download_loop
  download_loop_restarted [] nleft behind p steady size more h = (p, refl)
  download_loop_restarted (Arrival.broken ∷ s) nleft behind p steady size more h = cc
  download_loop_restarted (Arrival.interrupted ∷ s) nleft behind p steady size more h =
      download_loop_restarted s nleft behind p steady size more h
  download_loop_restarted (up_to k ∷ s) nleft behind p steady size more h =
      let n : ℕ = min (suc k) (block_size nleft) in
      let buf = take n behind in
      let left : ℕ = less32 nleft (length buf) in
      let remains : length (drop n behind) < left =
        omega
          (arith, less32-minus nleft (length buf), length-take n behind, length-drop n behind) in
      let smaller : left < 2 ^ 31 =
        omega (arith, less32-minus nleft (length buf), length-take n behind) in
      let (q, e, out, same) =
        after_send_more buf left (download_loop d env s left (drop n behind)) p steady
          (omega arith) in
      let (q', e') = download_loop_restarted s left (drop n behind) q steady smaller remains h in
      (q', e ∙ e')
