-- ===== src/Sysutil/Readline.antt =====
-- `readline` of miniftpd/sysutil.c against the stream alone.
use mathlib.Core.Option
use mini_ftp.Base.{
  ℕ, zero, suc, ◌+◌, ◌-◌, ◌*◌, ◌≤◌, ◌≡◌, refl, sym, ap, ◌∙◌, true, Option, none, some, List, [],
  ◌∷◌, ◌++◌, arith, ◌==◌, if◌then◌else◌, ==_self, Bytes, length, take, drop, append_assoc,
  append-nil, all, length-append, take-length-take, length-take, Option-cases, inl, inr,
}
use mini_ftp.Sysutil.{
  Arrival, Line, line, ended, newline_at, take_exactly, readline_round, readline_loop, readline,
}
use mini_ftp.Sysutil.Reading.{read_ok, looks, Left, readn-got, recv_peek-got}

-- The next line of a stream: up to its newline, or `cap` bytes; nothing if the stream ends first.
unfoldable pub next_line : ℕ → Bytes → Option (Bytes × Bytes)
next_line zero stream = some ([], stream)
next_line (suc cap) [] = none
next_line (suc cap) (c ∷ stream) =
    if c == 10
    then some (c ∷ [], stream)
    else Option.map (λ r. (c ∷ r.0, r.1)) (next_line cap stream)

abbrev prepend : Bytes → Option (Bytes × Bytes) → Option (Bytes × Bytes)
prepend p none = none
prepend p (some (l, rest)) = some (p ++ l, rest)

prepend_nil : (o : Option (Bytes × Bytes)) → prepend [] o ≡ o
prepend_nil none = refl
prepend_nil (some (l, rest)) = refl

prepend-prepend :
    (p q : Bytes) (o : Option (Bytes × Bytes)) → prepend p (prepend q o) ≡ prepend (p ++ q) o
prepend-prepend p q none = refl
prepend-prepend p q (some (l, rest)) = rw append_assoc

next_line-found :
    (m n i : ℕ) (stream : Bytes)
    → m ≤ n
    → newline_at (take m stream) ≡ some i
    → (next_line n stream ≡ some (take (suc i) stream, drop (suc i) stream))
      × (suc i ≤ length (take m stream))
unfolding newline_at next_line
next_line-found zero n i stream l h = cc
next_line-found (suc m) n i [] l h = cc
next_line-found (suc m) zero i (c ∷ stream) l h = absurd (omega arith)
next_line-found (suc m) (suc n) zero (c ∷ stream) l h = ground arith
next_line-found (suc m) (suc n) (suc i) (c ∷ stream) l h =
    ground (arith, next_line-found m n i stream)

next_line-skip :
    (m n : ℕ) (stream : Bytes)
    → m ≤ n
    → m ≤ length stream
    → newline_at (take m stream) ≡ none
    → next_line n stream ≡ prepend (take m stream) (next_line (n - m) (drop m stream))
unfolding newline_at next_line
next_line-skip zero n stream l k h =
    let all_left : n - 0 ≡ n = omega arith in rw (all_left, prepend_nil)
next_line-skip (suc m) n [] l k h = absurd (omega arith)
next_line-skip (suc m) zero (c ∷ stream) l k h = absurd (omega arith)
next_line-skip (suc m) (suc n) (c ∷ stream) l k h =
    let less : suc n - suc m ≡ n - m = omega arith in
    rw less (ground (arith, next_line-skip m n stream))

-- What the loop comes to: the bytes read so far stand in front of the line, and `s` is the schedule
-- that is left.
abbrev line_of : Bytes → List Arrival → Option (Bytes × Bytes) → Line
line_of buf s none = ended
line_of buf s (some (l, rest)) = line (buf ++ l) rest s

take_exactly-ok :
    (schedule : List Arrival) (stream : Bytes) (n : ℕ) (next : Bytes → Bytes → List Arrival → Line)
    → all read_ok schedule ≡ true
    → n ≤ looks schedule
    → n ≤ length stream
    → (s : List Arrival) × (take_exactly schedule stream n next
        ≡ next (take n stream) (drop n stream) s)
      × Left n schedule s
unfolding take_exactly
take_exactly-ok schedule stream n next h l k =
    let (s, e, left) = readn-got schedule stream n h l in
    let size : length (take n stream) ≡ n = omega (arith, length-take n stream) in
    (s, rw (e, take_exactly, size, ==_self n), left)

round_found :
    (again : Bytes → List Arrival → ℕ → Bytes → Line) (nleft : ℕ) (buf : Bytes) (c : ℕ)
    (peeked stream : Bytes) (s : List Arrival) {i : ℕ}
    → newline_at (c ∷ peeked) ≡ some i
    → readline_round again nleft buf (c ∷ peeked) stream s
      ≡ take_exactly s stream (i + 1) (λ bytes rest s'. line (buf ++ bytes) rest s')
unfolding readline_round
round_found again nleft buf c peeked stream s h = rw (h, readline_round)

round_none :
    (again : Bytes → List Arrival → ℕ → Bytes → Line) (nleft : ℕ) (buf : Bytes) (c : ℕ)
    (peeked stream : Bytes) (s : List Arrival)
    → newline_at (c ∷ peeked) ≡ none
    → readline_round again nleft buf (c ∷ peeked) stream s
      ≡ take_exactly s stream
          (length (c ∷ peeked))
          (λ bytes rest s'. again rest s' (nleft - length (c ∷ peeked)) (buf ++ bytes))
unfolding readline_round
round_none again nleft buf c peeked stream s h = rw (h, readline_round)

line_of-prepend :
    (buf p : Bytes) (s : List Arrival) (o : Option (Bytes × Bytes))
    → line_of (buf ++ p) s o ≡ line_of buf s (prepend p o)
line_of-prepend buf p s none = refl
line_of-prepend buf p s (some (l, rest)) = rw append_assoc

-- The calls that a line took: two looks for each of its bytes at most, of which `c` are not counted.
abbrev pub Spent : ℕ → List Arrival → List Arrival → Option (Bytes × Bytes) → Type 0
Spent c before after none = Unit {0}
Spent c before after (some (l, rest)) =
    (all read_ok after ≡ true) × (looks before + c ≤ looks after + 2 * length l)

Spent-prepend :
    (before mid after : List Arrival) (p : Bytes) (o : Option (Bytes × Bytes))
    → 1 ≤ length p
    → Left (length p) before mid
    → Spent 0 mid after o
    → Spent 1 before after (prepend p o)
Spent-prepend before mid after p none one left spent = tt
Spent-prepend before mid after p (some (l, rest)) one left (calm, enough) =
    (calm, omega (arith, left.enough, length-append p l))

Spent-look :
    (before mid after : List Arrival) (o : Option (Bytes × Bytes))
    → Left 1 before mid
    → Spent 1 mid after o
    → Spent 0 before after o
Spent-look before mid after none left spent = tt
Spent-look before mid after (some (l, rest)) left (calm, enough) =
    (calm, omega (arith, left.enough))

-- The loop behind a peek of the first `m + 1` bytes, `again` being the loop on what is left.
round-line :
    (again : Bytes → List Arrival → ℕ → Bytes → Line) (m n : ℕ) (c : ℕ) (tail buf : Bytes)
    (s : List Arrival)
    → m ≤ n
    → all read_ok s ≡ true
    → 2 * suc n ≤ looks s + 1
    → ((k : ℕ) (s' : List Arrival) (buf' : Bytes)
        → 1 ≤ k
        → all read_ok s' ≡ true
        → 2 * (suc n - k) ≤ looks s'
        → (s'' : List Arrival) × (again (drop k (c ∷ tail)) s' (suc n - k) buf'
            ≡ line_of buf' s'' (next_line (suc n - k) (drop k (c ∷ tail))))
          × Spent 0 s' s'' (next_line (suc n - k) (drop k (c ∷ tail))))
    → (s' : List Arrival) × (readline_round again (suc n) buf (take (suc m) (c ∷ tail)) (c ∷ tail) s
        ≡ line_of buf s' (next_line (suc n) (c ∷ tail)))
      × Spent 1 s s' (next_line (suc n) (c ∷ tail))
round-line again m n c tail buf s le h l rest =
    let stream = c ∷ tail in
    let p = take (suc m) stream in
    let fits : length p ≤ length stream = omega (arith, length-take (suc m) stream) in
    let short : length p ≤ suc n = omega (arith, length-take (suc m) stream) in
    elim (Option-cases (newline_at p)) [
      | inr (i, found) ↦
          let (e, inside) = next_line-found (suc m) (suc n) i stream (omega arith) found in
          let plus : i + 1 ≡ suc i = omega arith in
          let (s', run, left) =
            take_exactly-ok s stream (suc i) (λ bytes r s'. line (buf ++ bytes) r s') h
              (omega arith) (omega arith) in
          let taken : length (take (suc i) stream) ≡ suc i =
            omega (arith, length-take (suc i) stream) in
          (
            s',
            round_found again (suc n) buf c (take m tail) stream s found ∙ rw (plus, run, e),
            rw e (left.calm, omega (arith, left.enough)),
          )
      | inl absent ↦
          let k = length p in
          let (s', run, left) =
            take_exactly-ok s stream k (λ bytes r s'. again r s' (suc n - k) (buf ++ bytes)) h
              (omega arith) fits in
          let (s'', later, spent) =
            rest k s' (buf ++ take k stream) (omega arith) left.calm (omega (arith, left.enough)) in
          let taken : length (take k stream) ≡ k = omega (arith, length-take k stream) in
          let part : take k stream ≡ p = take-length-take (suc m) stream in
          let skip : next_line (suc n) stream
              ≡ prepend (take k stream) (next_line (suc n - k) (drop k stream)) =
            next_line-skip k (suc n) stream short fits (rw part absent) in
          (
            s'',
            round_none again (suc n) buf c (take m tail) stream s absent
                ∙ run
                ∙ later
                ∙ line_of-prepend buf (take k stream) s'' _
                ∙ ap (line_of buf s'') (sym skip),
            rw skip (
                Spent-prepend s s' s'' (take k stream) (next_line (suc n - k) (drop k stream))
                  (omega (arith, length-take k stream)) (rw taken left) spent),
          )
    ]

readline_loop-line :
    (fuel : ℕ) (stream : Bytes) (schedule : List Arrival) (nleft : ℕ) (buf : Bytes)
    → nleft ≤ fuel
    → all read_ok schedule ≡ true
    → 2 * nleft ≤ looks schedule
    → (s : List Arrival) × (readline_loop fuel stream schedule nleft buf
        ≡ line_of buf s (next_line nleft stream))
      × Spent 0 schedule s (next_line nleft stream)
unfolding readline_loop next_line
readline_loop-line fuel stream schedule zero buf f h l = (schedule, rw append-nil, (h, omega arith))
readline_loop-line zero stream schedule (suc n) buf f h l = absurd (omega arith)
readline_loop-line (suc fuel) [] schedule (suc n) buf f h l =
    let (m, s, e, le, left) = recv_peek-got schedule [] n h (omega arith) in
    (s, rw (e, readline_loop) (unfold readline_round in refl), tt)
readline_loop-line (suc fuel) (c ∷ tail) schedule (suc n) buf f h l =
    let (m, s, e, le, left) = recv_peek-got schedule (c ∷ tail) n h (omega arith) in
    let (s', run, spent) =
      round-line (readline_loop fuel) m n c tail buf s le left.calm (omega (arith, left.enough))
        (λ k s' buf' one calm enough.
          readline_loop-line fuel (drop k (c ∷ tail)) s' (suc n - k) buf' (omega arith) calm
            enough) in
    (
      s',
      rw (e, readline_loop) run,
      Spent-look schedule s s' (next_line (suc n) (c ∷ tail)) left spent,
    )

-- The same with what the calls leave of the schedule.
pub readline-Spent :
    (schedule : List Arrival) (stream : Bytes) (maxline : ℕ)
    → all read_ok schedule ≡ true
    → 2 * maxline ≤ looks schedule
    → (s : List Arrival) × (readline schedule stream maxline
        ≡ elim (next_line (maxline - 1) stream) [ none ↦ ended | some (l, rest) ↦ line l rest s ])
      × Spent 0 schedule s (next_line (maxline - 1) stream)
unfolding readline
readline-Spent schedule stream maxline h l =
    let (s, e, spent) =
      readline_loop-line maxline stream schedule (maxline - 1) [] (omega arith) h (omega arith) in
    (s, e ∙ plain s (next_line (maxline - 1) stream), spent)
  where
    plain :
        (s : List Arrival) (o : Option (Bytes × Bytes))
        → line_of [] s o ≡ elim o [ none ↦ ended | some (l, rest) ↦ line l rest s ]
    plain s none = refl
    plain s (some (l, rest)) = refl

-- However the kernel cuts the stream into pieces and interrupts the calls, as long as none fails
-- and it goes on delivering, `readline` returns the next line of the stream: up to its newline, or
-- `maxline - 1` bytes of a longer line, leaving the rest of the stream. If the stream ends inside
-- a shorter line it returns 0, and the bytes of that line are lost.
pub readline-next_line :
    (schedule : List Arrival) (stream : Bytes) (maxline : ℕ)
    → all read_ok schedule ≡ true
    → 2 * maxline ≤ looks schedule
    → (s : List Arrival) × (readline schedule stream maxline
        ≡ elim (next_line (maxline - 1) stream) [ none ↦ ended | some (l, rest) ↦ line l rest s ])
readline-next_line schedule stream maxline h l =
    let (s, e, _) = readline-Spent schedule stream maxline h l in (s, e)
