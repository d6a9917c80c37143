-- ===== src/Proto/Serve.antt =====
-- The loop of miniftpd/ftp_proto.c against the lines of what the client sends.
use mini_ftp.Base.{
  ℕ, zero, suc, ◌+◌, ◌*◌, ◌≤◌, ◌<◌, ◌≡◌, min, refl, true, Option, none, some, List, [], ◌∷◌, arith,
  ◌==◌, Bytes, length, all, Bool-cases, inl, inr,
}
use mathlib.Core.Option
use mini_ftp.Commands.Reply.{Env}
use mini_ftp.Commands.Table.{Transfers}
use mini_ftp.Proto.{greet_client, handle_line, proto_round, proto_loop, handle_proto}
use mini_ftp.Session.{M, Proc, Out, done, exited, killed, hung, faulted, ◌>>◌, exit}
use mini_ftp.Sysutil.Reading.{read_ok, looks}
use mini_ftp.Sysutil.Readline.{next_line, readline-Spent, Spent}
use mini_ftp.Sysutil.{Arrival, line, ended}
use mini_ftp.TransCtrl.{start_signal_alarm_ctrl_fd}

-- The lines of a stream, each up to its newline or of 1023 bytes, without an unfinished last one.
unfoldable pub lines_of : ℕ → Bytes → List Bytes
lines_of zero stream = []
lines_of (suc fuel) stream = elim (next_line 1023 stream) [
  | none ↦ []
  | some (l, rest) ↦ l ∷ lines_of fuel rest
]

-- Each line under a fresh alarm, and a normal exit behind the last.
unfoldable pub serve : Env → Transfers → List Bytes → M (Unit {0})
serve env transfers [] = do start_signal_alarm_ctrl_fd env; exit 0
serve env transfers (l ∷ ls) = do
  start_signal_alarm_ctrl_fd env
  handle_line env transfers l
  serve env transfers ls

-- A line and what is left behind it, against the stream.
abbrev Sized : ℕ → Bytes → Option (Bytes × Bytes) → Type 0
Sized k stream none = Unit {0}
Sized k stream (some (l, rest)) = (length l + length rest ≡ length stream) × (k ≤ length l)

Sized-cons :
    (k c : ℕ) (stream : Bytes) (o : Option (Bytes × Bytes))
    → Sized k stream o
    → Sized 1 (c ∷ stream) (Option.map (λ r. (c ∷ r.0, r.1)) o)
Sized-cons k c stream none h = tt
Sized-cons k c stream (some (l, rest)) h = (omega (arith, h.0), omega arith)

-- A line has a byte at least, unless it may have none.
next_line-Sized : (n : ℕ) (stream : Bytes) → Sized (min 1 n) stream (next_line n stream)
unfolding next_line
next_line-Sized zero stream = (omega arith, omega arith)
next_line-Sized (suc n) [] = tt
next_line-Sized (suc n) (c ∷ stream) =
    let one : min 1 (suc n) ≡ 1 = omega arith in
    elim (Bool-cases (c == 10)) [
      | inl e ↦ rw (e, one) (omega arith, omega arith)
      | inr e ↦ rw (e, one) (Sized-cons _ c stream (next_line n stream) (next_line-Sized n stream))
    ]

module _ {A : Type 0} where
  -- What follows a step may be exchanged for what does the same.
  then-same :
      (m : M (Unit {0})) (k k' : M A)
      → ((p : Proc) → k p ≡ k' p)
      → (p : Proc) → (m >> k) p ≡ (m >> k') p
  then-same m k k' same p = at (m p)
    where
      at :
          (o : Out (Unit {0}))
          → elim o [
            | done a q ↦ k q
            | exited n q ↦ exited n q
            | killed q ↦ killed q
            | hung q ↦ hung q
            | faulted q ↦ faulted q
          ]
            ≡ elim o [
              | done a q ↦ k' q
              | exited n q ↦ exited n q
              | killed q ↦ killed q
              | hung q ↦ hung q
              | faulted q ↦ faulted q
            ]
      at (done a q) = same q
      at (exited n q) = refl
      at (killed q) = refl
      at (hung q) = refl
      at (faulted q) = refl

-- The rest of the stream is served as its lines, by a loop with the fuel and the schedule it needs.
abbrev Serves : Env → Transfers → ℕ → Type 0
Serves env t fuel =
    (schedule : List Arrival) (stream : Bytes)
    → length stream < fuel
    → all read_ok schedule ≡ true
    → 2 * length stream + 2048 ≤ looks schedule
    → (p : Proc) → proto_loop env t fuel schedule stream p ≡ serve env t (lines_of fuel stream) p

proto_round-serve :
    (env : Env) (t : Transfers) (fuel : ℕ) (schedule : List Arrival) (stream : Bytes)
    (s : List Arrival) (o : Option (Bytes × Bytes))
    → length stream < suc fuel
    → 2 * length stream + 2048 ≤ looks schedule
    → Spent 0 schedule s o
    → Sized 1 stream o
    → Serves env t fuel
    → (p : Proc)
    → (start_signal_alarm_ctrl_fd env
          >> proto_round env t
              (elim o [ none ↦ ended | some (l, rest) ↦ line l rest s ])
              (proto_loop env t fuel))
        p
      ≡ serve env t (elim o [ none ↦ [] | some (l, rest) ↦ l ∷ lines_of fuel rest ]) p
unfolding proto_round serve
proto_round-serve env t fuel schedule stream s none f k spent sized next p = refl
proto_round-serve env t fuel schedule stream s (some (l, rest)) f k (calm, enough) (size, one) next
      p =
    then-same (start_signal_alarm_ctrl_fd env) _ _
      (then-same (handle_line env t l) (proto_loop env t fuel s rest)
        (serve env t (lines_of fuel rest)) (next s rest (omega arith) calm (omega arith)))
      p

proto_loop-serve : (env : Env) (t : Transfers) (fuel : ℕ) → Serves env t fuel
unfolding proto_loop lines_of
proto_loop-serve env t zero schedule stream f h l p = absurd (omega arith)
proto_loop-serve env t (suc fuel) schedule stream f h l p =
    let (s, e, spent) = readline-Spent schedule stream 1024 h (omega arith) in
    rw e (
      proto_round-serve env t fuel schedule stream s (next_line 1023 stream) f l spent
        (next_line-Sized 1023 stream) (proto_loop-serve env t fuel) p)

-- However the kernel cuts the bytes of the client into pieces and interrupts the calls, as long as
-- none fails and it goes on delivering, the process does what it would on the lines of those bytes
-- one by one: the greeting, each line with its command under a fresh alarm, and a normal exit behind
-- the last. A line ends behind its newline or at 1023 bytes, and an unfinished last one is dropped.
pub handle_proto-serve :
    (env : Env) (t : Transfers) (schedule : List Arrival) (stream : Bytes)
    → all read_ok schedule ≡ true
    → 2 * length stream + 2048 ≤ looks schedule
    → (p : Proc)
    → handle_proto env t schedule stream p
      ≡ (greet_client env >> serve env t (lines_of (suc (length stream)) stream)) p
unfolding handle_proto
handle_proto-serve env t schedule stream h l p =
    then-same (greet_client env) _ _
      (proto_loop-serve env t (suc (length stream)) schedule stream (omega arith) h l) p
