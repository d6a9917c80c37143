-- ===== src/Strutil/Trim.antt =====
-- `str_trim_crlf`, `str_upper` and `str_all_space` of miniftpd/strutil.c.
use mathlib.Core.List.{reverse-append, reverse-reverse}
use mini_ftp.Base.{
  ℕ, zero, suc, true, false, [], ◌∷◌, ◌++◌, reverse, ◌≡◌, refl, ap, ◌∙◌, arith, append_assoc,
  append-nil, Bytes, length, replicate, all, length-reverse, all-reverse, length-append,
  length-replicate, take-append, drop-append,
}
use mini_ftp.Base.Text.{c_str, no_nul, c_str-whole, c_str-terminated}
use mini_ftp.Strutil.{is_crlf, trim_back, str_trim_crlf}

trim_back-append :
    (t m : Bytes)
    → all is_crlf t ≡ true
    → trim_back (t ++ m) ≡ replicate (length t) 0 ++ trim_back m
unfolding trim_back
trim_back-append [] m h = refl
trim_back-append (c ∷ t) m h = ground (arith, trim_back-append t m)

reverse-replicate : (n : ℕ) → reverse {A = ℕ} (replicate n 0) ≡ replicate n 0
reverse-replicate zero = refl
reverse-replicate (suc n) =
    reverse-append (0 ∷ []) (replicate n 0) ∙ rw (reverse-replicate n) (shift n)
  where
    shift : (n : ℕ) → ◌≡◌ {A = Bytes} (replicate n 0 ++ 0 ∷ []) (0 ∷ replicate n 0)
    shift zero = refl
    shift (suc n) = ap (◌∷◌ 0) (shift n)

c_str-padded : (s : Bytes) (n : ℕ) → no_nul s ≡ true → c_str (s ++ replicate n 0) ≡ s
c_str-padded s zero h = rw (append-nil s) (c_str-whole s h)
c_str-padded s (suc n) h = c_str-terminated s (replicate n 0) h

-- What the loop leaves when the walk stops at `m`, which holds the kept bytes and what lies before.
str_trim_crlf_stop :
    (before body tail : Bytes)
    → no_nul body ≡ true
    → all is_crlf tail ≡ true
    → trim_back (reverse body ++ before) ≡ reverse body ++ before
    → str_trim_crlf before (body ++ tail) ≡ (before, body)
unfolding str_trim_crlf
str_trim_crlf_stop before body tail clean ends stop =
    let n = length (reverse tail) in
    let walked : trim_back (reverse (body ++ tail) ++ before)
        ≡ (replicate n 0 ++ reverse body) ++ before =
      rw (
        reverse-append body tail,
        append_assoc,
        trim_back-append (reverse tail) (reverse body ++ before)
            (rw (all-reverse is_crlf tail) ends),
        stop,
        append_assoc,
      ) in
    let size : length (body ++ tail) ≡ length (replicate n 0 ++ reverse body) = omega (
      arith,
      length-append body tail,
      length-append (replicate n 0) (reverse body),
      length-replicate {0} {A = ℕ} n 0,
      length-reverse body,
      length-reverse tail,
    ) in
    rw (
      walked,
      size,
      take-append,
      drop-append,
      reverse-append,
      reverse-reverse,
      reverse-replicate,
      c_str-padded body n clean,
    )

-- The longest tail of CR and LF goes, and nothing else changes: neither the kept text nor the
-- memory in front of the string.
pub str_trim_crlf-line :
    (before init tail : Bytes) (c : ℕ)
    → no_nul (init ++ c ∷ []) ≡ true
    → is_crlf c ≡ false
    → all is_crlf tail ≡ true
    → str_trim_crlf before ((init ++ c ∷ []) ++ tail) ≡ (before, init ++ c ∷ [])
unfolding trim_back
str_trim_crlf-line before init tail c clean last ends =
    str_trim_crlf_stop before (init ++ c ∷ []) tail clean ends
      (rw (reverse-append init (c ∷ [])) (ground arith))

-- A line of CR and LF alone runs over the start of the string: each CR or LF that lies directly in
-- front of it is overwritten by NUL, up to the first other byte.
pub str_trim_crlf_underflow :
    (under : Bytes) (h : ℕ) (before tail : Bytes)
    → all is_crlf tail ≡ true
    → all is_crlf under ≡ true
    → is_crlf h ≡ false
    → str_trim_crlf (under ++ (h ∷ before)) tail ≡ (replicate (length under) 0 ++ (h ∷ before), [])
unfolding str_trim_crlf
str_trim_crlf_underflow under h before tail ends over stop =
    let n = length (reverse tail) in
    let walked : trim_back (reverse tail ++ (under ++ (h ∷ before)))
        ≡ replicate n 0 ++ (replicate (length under) 0 ++ (h ∷ before)) =
      rw
        (
          trim_back-append (reverse tail) _ (rw (all-reverse is_crlf tail) ends),
          trim_back-append under (h ∷ before) over,
        )
        (unfold trim_back in rw stop) in
    let size : length tail ≡ length {A = ℕ} (replicate n 0) =
      omega (arith, length-replicate {0} {A = ℕ} n 0, length-reverse tail) in
    rw (walked, size, take-append, drop-append, reverse-replicate) (zeros n)
  where
    zeros :
        (n : ℕ)
        → ◌≡◌ {A = Bytes × Bytes}
            (replicate (length under) 0 ++ (h ∷ before), c_str (replicate n 0))
            (replicate (length under) 0 ++ (h ∷ before), [])
    zeros n = rw (c_str-padded [] n refl)
