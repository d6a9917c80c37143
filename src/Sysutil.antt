-- ===== src/Sysutil.antt =====
-- miniftpd/sysutil.c: the loops around `read`, `recv`, `write`, `select`, `accept` and `connect`.
-- What the kernel does at each call is given by a schedule, one item for each call; where the
-- schedule ends the next call does not return.
pub mod Reading
pub mod Readline
pub mod Writing
mod Tests
use mini_ftp.Base.{
  ℕ, zero, suc, ◌+◌, ◌-◌, Bool, Option, none, some, List, [], ◌∷◌, ◌++◌, ltb, ◌==◌, if◌then◌else◌,
  min, Bytes, length, take, drop,
}
use mathlib.Core.Option

-- A call of `read` or `recv` on a stream: it fails, it is interrupted (EINTR), or it takes at most
-- `k + 1` bytes of what is there, and none at the end of the stream.
pub data Arrival : Type 0 where
  broken interrupted : Arrival
  up_to : ℕ → Arrival

-- What a reading function comes to: it returns the number of the bytes that it put in the buffer,
-- it returns -1, or it never returns. The stream and the schedule are what is left.
pub data Got : Type 0 where
  got : Bytes → Bytes → List Arrival → Got
  failed : Bytes → List Arrival → Got
  never : Got

-- The `while` of `readn`, with `nleft` and the bytes read before.
pub readn_loop : List Arrival → Bytes → ℕ → Bytes → Got
readn_loop schedule stream zero buf = got buf stream schedule
readn_loop [] stream (suc n) buf = never
readn_loop (broken ∷ s) stream (suc n) buf = failed stream s
readn_loop (interrupted ∷ s) stream (suc n) buf = readn_loop s stream (suc n) buf
readn_loop (up_to k ∷ s) [] (suc n) buf = got buf [] s
readn_loop (up_to k ∷ s) (c ∷ stream) (suc n) buf =
    let nread = take (min (suc k) (suc n)) (c ∷ stream) in
    readn_loop s (drop (length nread) (c ∷ stream)) (suc n - length nread) (buf ++ nread)

unfoldable pub readn : List Arrival → Bytes → ℕ → Got
unfolding readn_loop
readn schedule stream count = readn_loop schedule stream count []

-- `recv` with MSG_PEEK leaves the stream as it is.
unfoldable pub recv_peek : List Arrival → Bytes → ℕ → Got
recv_peek [] stream len = never
recv_peek (broken ∷ s) stream len = failed stream s
recv_peek (interrupted ∷ s) stream len = recv_peek s stream len
recv_peek (up_to k ∷ s) stream len = got (take (min (suc k) len) stream) stream s

-- What `readline` comes to: a line and its length, 0 at the end of the stream, -1, or no return.
pub data Line : Type 0 where
  line : Bytes → Bytes → List Arrival → Line
  ended broke hung : Line

-- The index of the first newline, by the `for` over the peeked bytes.
pub newline_at : Bytes → Option ℕ
newline_at [] = none
newline_at (c ∷ cs) = if c == 10 then some 0 else Option.map suc (newline_at cs)

-- `readn` of bytes that were peeked; fewer than asked for are an error.
pub take_exactly : List Arrival → Bytes → ℕ → (Bytes → Bytes → List Arrival → Line) → Line
take_exactly schedule stream n next = elim (readn schedule stream n) [
  | got bytes rest s ↦ if length bytes == n then next bytes rest s else broke
  | failed rest s ↦ broke
  | never ↦ hung
]

-- One round of the `while` of `readline`, on the bytes that `recv_peek` returned. `again` is the
-- rest of the loop, with `nleft` and the bytes read so far.
pub readline_round :
    (Bytes → List Arrival → ℕ → Bytes → Line) → ℕ → Bytes → Bytes → Bytes → List Arrival → Line
readline_round again nleft buf [] stream s = ended
readline_round again nleft buf (c ∷ peeked) stream s = elim (newline_at (c ∷ peeked)) [
  | some i ↦ take_exactly s stream (i + 1) (λ bytes rest s'. line (buf ++ bytes) rest s')
  | none ↦
      let nread = length (c ∷ peeked) in
      take_exactly s stream nread (λ bytes rest s'. again rest s' (nleft - nread) (buf ++ bytes))
]

-- The rounds are bounded by fuel: each takes at least one byte of `nleft`.
pub readline_loop : ℕ → Bytes → List Arrival → ℕ → Bytes → Line
readline_loop fuel stream s zero buf = line buf stream s
readline_loop zero stream s (suc n) buf = hung
readline_loop (suc fuel) stream s (suc n) buf = elim (recv_peek s stream (suc n)) [
  | got peeked _ s' ↦ readline_round (readline_loop fuel) (suc n) buf peeked stream s'
  | failed _ s' ↦ broke
  | never ↦ hung
]

unfoldable pub readline : List Arrival → Bytes → ℕ → Line
unfolding newline_at take_exactly readline_round readline_loop
readline schedule stream maxline = readline_loop maxline stream schedule (maxline - 1) []

-- A call of `write`: it fails, it raises SIGPIPE since the other side of the connection is gone, it
-- is interrupted, or it takes at most `k` bytes, perhaps none.
pub data Departure : Type 0 where
  broken reset interrupted : Departure
  accepts : ℕ → Departure

-- What `writen` comes to, with the bytes that went out: it returns the count, it returns -1, the
-- signal ends the process, since SIGPIPE has its default action, or it never returns.
pub data Put : Type 0 where
  wrote : Bytes → List Departure → Put
  write_failed : Bytes → List Departure → Put
  stopped stalled : Bytes → Put

pub writen_loop : List Departure → Bytes → Bytes → Put
writen_loop schedule [] sent = wrote sent schedule
writen_loop [] (c ∷ buf) sent = stalled sent
writen_loop (broken ∷ s) (c ∷ buf) sent = write_failed sent s
writen_loop (reset ∷ s) (c ∷ buf) sent = stopped sent
writen_loop (interrupted ∷ s) (c ∷ buf) sent = writen_loop s (c ∷ buf) sent
writen_loop (accepts k ∷ s) (c ∷ buf) sent =
    writen_loop s (drop k (c ∷ buf)) (sent ++ take k (c ∷ buf))

unfoldable pub writen : List Departure → Bytes → Put
unfolding writen_loop
writen schedule buf = writen_loop schedule buf []
