-- ===== src/Sysutil/Reading.antt =====
-- `readn` and `recv_peek` of miniftpd/sysutil.c.
use mini_ftp.Base.{
  ℕ, zero, suc, ◌+◌, ◌-◌, ◌≤◌, ◌≡◌, sym, ap, ◌∙◌, Bool, true, false, List, [], ◌∷◌, ◌++◌, arith,
  min, Bytes, length, take, drop, append_assoc, append-nil, length-take, all, take-length-take,
  take-resume, drop-resume,
}
use mathlib.Core.Path.{ap₂}
use mini_ftp.Sysutil.{Arrival, up_to, got, readn_loop, readn, recv_peek}

-- No call fails, and the number of calls that look at the stream.
abbrev pub read_ok : Arrival → Bool
read_ok Arrival.broken = false
read_ok Arrival.interrupted = true
read_ok (up_to k) = true

abbrev pub looks : List Arrival → ℕ
looks [] = 0
looks (Arrival.broken ∷ s) = looks s
looks (Arrival.interrupted ∷ s) = looks s
looks (up_to k ∷ s) = suc (looks s)

-- What `spent` calls at most leave of a schedule.
pub record Left (spent : ℕ) (before after : List Arrival) : Type 0 where
  pub calm : all read_ok after ≡ true
  pub enough : looks before ≤ looks after + spent

readn_loop-got :
    (schedule : List Arrival) (stream : Bytes) (n : ℕ) (buf : Bytes)
    → all read_ok schedule ≡ true
    → n ≤ looks schedule
    → (s : List Arrival) × (readn_loop schedule stream n buf
        ≡ got (buf ++ take n stream) (drop n stream) s)
      × Left n schedule s
unfolding readn_loop
readn_loop-got schedule stream zero buf h l =
    (schedule, rw append-nil, record { calm = h; enough = omega arith })
readn_loop-got [] stream (suc n) buf h l = absurd (omega arith)
readn_loop-got (Arrival.broken ∷ s) stream (suc n) buf h l = cc
readn_loop-got (Arrival.interrupted ∷ s) stream (suc n) buf h l =
    let (s', e, left) = readn_loop-got s stream (suc n) buf h l in
    (s', e, record { calm = left.calm; enough = left.enough })
readn_loop-got (up_to k ∷ s) [] (suc n) buf h l =
    (s, rw append-nil, record { calm = h; enough = omega arith })
readn_loop-got (up_to k ∷ s) (c ∷ stream) (suc n) buf h l =
    let nread = take (min (suc k) (suc n)) (c ∷ stream) in
    let m = length nread in
    let size : m ≡ min (min (suc k) (suc n)) (length (c ∷ stream)) =
      length-take (min (suc k) (suc n)) (c ∷ stream) in
    let (s', e, left) =
      readn_loop-got s (drop m (c ∷ stream)) (suc n - m) (buf ++ nread) h (omega arith) in
    let front : nread ++ take (suc n - m) (drop m (c ∷ stream)) ≡ take (suc n) (c ∷ stream) =
      ap (λ part. part ++ take (suc n - m) (drop m (c ∷ stream)))
        (sym (take-length-take (min (suc k) (suc n)) (c ∷ stream)))
      ∙ take-resume m (suc n) (c ∷ stream) (omega arith) in
    let back : drop (suc n - m) (drop m (c ∷ stream)) ≡ drop (suc n) (c ∷ stream) =
      drop-resume m (suc n) (c ∷ stream) (omega arith) in
    (
      s',
      e ∙ ap₂ (λ b r. got b r s') (append_assoc buf nread _ ∙ ap (◌++◌ buf) front) back,
      record { calm = left.calm; enough = omega (arith, left.enough) },
    )

-- If no call of `read` fails and the kernel goes on delivering, `readn` puts the next `count` bytes
-- of the stream in the buffer, or all that come before its end, however they are cut up. It takes
-- no byte more, and looks at the stream `count` times at most.
pub readn-got :
    (schedule : List Arrival) (stream : Bytes) (count : ℕ)
    → all read_ok schedule ≡ true
    → count ≤ looks schedule
    → (s : List Arrival) × (readn schedule stream count
        ≡ got (take count stream) (drop count stream) s)
      × Left count schedule s
unfolding readn
readn-got schedule stream count h l = readn_loop-got schedule stream count [] h l

-- A peek shows at least one byte of a stream that has one, and takes nothing.
pub recv_peek-got :
    (schedule : List Arrival) (stream : Bytes) (n : ℕ)
    → all read_ok schedule ≡ true
    → 1 ≤ looks schedule
    → (m : ℕ) × (s : List Arrival) × (recv_peek schedule stream (suc n)
        ≡ got (take (suc m) stream) stream s)
      × (m ≤ n)
      × Left 1 schedule s
unfolding recv_peek
recv_peek-got [] stream n h l = absurd (omega arith)
recv_peek-got (Arrival.broken ∷ s) stream n h l = cc
recv_peek-got (Arrival.interrupted ∷ s) stream n h l =
    let (m, s', e, le, left) = recv_peek-got s stream n h l in
    (m, s', e, le, record { calm = left.calm; enough = left.enough })
recv_peek-got (up_to k ∷ s) stream n h l =
    let size : min (suc k) (suc n) ≡ suc (min k n) = omega arith in
    (
      min k n,
      s,
      ap (λ m. got (take m stream) stream s) size,
      omega arith,
      record { calm = h; enough = omega arith },
    )
