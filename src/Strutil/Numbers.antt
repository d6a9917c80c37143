-- ===== src/Strutil/Numbers.antt =====
-- `str_to_longlong` and `str_octal_to_uint` of miniftpd/strutil.c against positional notation.
use mathlib.Core.List.{reverse-append, reverse-reverse}
use mini_ftp.Base.{
  ℕ, ◌+◌, ◌-◌, ◌*◌, ◌%◌, ◌^◌, ◌≤◌, ◌<◌, Bool, true, false, not, ◌&&◌, ◌||◌, [], ◌∷◌, ◌++◌, reverse,
  ◌≡◌, refl, ◌⊎◌, inl, inr, arith, if◌then◌else◌, leb, ◌==◌, Bytes, length, all, all-reverse,
  Bool-cases,
}
use native.Mathlib.Nat.{pow-suc, pow-le-pow_right}
use mini_ftp.Strutil.{
  isdigit, longlong_loop, str_to_longlong, uint_mod, octal_loop, str_octal_to_uint,
}

-- The value of digits in base `b`, most significant first, onto what was read before.
abbrev pub value_onto : ℕ → ℕ → Bytes → ℕ
value_onto b acc [] = acc
value_onto b acc (c ∷ cs) = value_onto b (acc * b + (c - b'0')) cs

-- The same, least significant first.
abbrev low_value : Bytes → ℕ
low_value [] = 0
low_value (c ∷ cs) = (c - b'0') + 10 * low_value cs

low_value-append :
    (xs : Bytes) (acc : ℕ) (c : ℕ)
    → value_onto 10 acc (xs ++ c ∷ []) ≡ value_onto 10 acc xs * 10 + (c - b'0')
low_value-append [] acc c = refl
low_value-append (x ∷ xs) acc c = low_value-append xs (acc * 10 + (x - b'0')) c

low_value-reverse : (xs : Bytes) → value_onto 10 0 (reverse xs) ≡ low_value xs
low_value-reverse [] = refl
low_value-reverse (x ∷ xs) =
    rw (reverse-append (x ∷ []) xs)
      (omega (arith, low_value-append (reverse xs) 0 x, low_value-reverse xs))

longlong_loop-low_value :
    (xs : Bytes) (result mult : ℕ)
    → longlong_loop xs result mult ≡ (if all isdigit xs then result + mult * low_value xs else 0)
unfolding longlong_loop
longlong_loop-low_value [] result mult = omega arith
longlong_loop-low_value (x ∷ xs) result mult = elim (Bool-cases (isdigit x)) [
  | inl d ↦ rw (d, longlong_loop-low_value xs) (split (all isdigit xs))
  | inr n ↦ rw n
]
  where
    split :
        (b : Bool)
        → (if b then result + (x - b'0') * mult + mult * 10 * low_value xs else 0)
          ≡ (if b then result + mult * (x - b'0' + 10 * low_value xs) else 0)
    split true = omega arith
    split false = refl

-- For every string: the decimal value if it is at most 15 digits and nothing else, and 0 otherwise.
pub str_to_longlong-value :
    (s : Bytes)
    → str_to_longlong s ≡ (if leb (length s) 15 && all isdigit s then value_onto 10 0 s else 0)
unfolding str_to_longlong
str_to_longlong-value s =
    rw (longlong_loop-low_value (reverse s) 0 1, all-reverse isdigit s)
      (ground (arith, low_value-reverse (reverse s), reverse-reverse s))

value_onto-lt :
    (s : Bytes) (acc : ℕ) → all isdigit s ≡ true → value_onto 10 acc s < (acc + 1) * 10 ^ length s
value_onto-lt [] acc h = omega arith
value_onto-lt (c ∷ s) acc h =
    let ih = value_onto-lt s (acc * 10 + (c - b'0')) (ground arith) in
    let d : c - b'0' < 10 = ground arith in rw pow-suc (grind arith)

is_octal : ℕ → Bool
is_octal c = isdigit c && leb c b'7'

-- The digits `0` to `7` that a string begins with.
pub octal_prefix : Bytes → Bytes
octal_prefix [] = []
octal_prefix (c ∷ cs) = if is_octal c then c ∷ octal_prefix cs else []

value_onto-mod :
    (s : Bytes) (a b : ℕ)
    → a % uint_mod ≡ b % uint_mod
    → value_onto 8 a s % uint_mod ≡ value_onto 8 b s % uint_mod
value_onto-mod [] a b h = h
value_onto-mod (c ∷ s) a b h =
    value_onto-mod s (a * 8 + (c - b'0')) (b * 8 + (c - b'0')) (omega arith)

octal_loop-value :
    (s : Bytes) (result : ℕ) (seen : Bool)
    → (seen ≡ true) ⊎ (result ≡ 0)
    → result < uint_mod
    → octal_loop s result seen ≡ value_onto 8 result (octal_prefix s) % uint_mod
unfolding octal_loop octal_prefix is_octal
octal_loop-value [] result seen h l = omega arith
octal_loop-value (c ∷ s) result seen h l =
    let seen' : Bool = seen || not (c == b'0') in
    let next : ℕ = if seen' then ((result * 8) % uint_mod + (c - b'0')) % uint_mod else result in
    ground (
      arith,
      octal_loop-value s next seen',
      value_onto-mod (octal_prefix s) next (result * 8 + (c - b'0')),
    )

-- For every string: the octal value of the digits `0` to `7` that it begins with, as an
-- `unsigned int` holds it.
str_octal_to_uint-value :
    (s : Bytes) → str_octal_to_uint s ≡ value_onto 8 0 (octal_prefix s) % uint_mod
unfolding str_octal_to_uint
str_octal_to_uint-value s = octal_loop-value s 0 false (inr refl) (omega arith)

-- No intermediate value leaves the range of `long long`: a result has at most 15 digits.
pub str_to_longlong-lt : (s : Bytes) → str_to_longlong s < 10 ^ 15
str_to_longlong-lt s =
    rw str_to_longlong-value (elim (Bool-cases (leb (length s) 15 && all isdigit s)) [
      | inl h ↦
          let top : 10 ^ length s ≤ 10 ^ 15 =
            pow-le-pow_right {n = 10} (omega arith) {i = length s} {j = 15} (ground arith) in
          rw h (ground (arith, value_onto-lt s 0))
      | inr h ↦ rw h (omega arith)
    ])
