-- ===== src/Strutil/Split.antt =====
-- `str_split` of miniftpd/strutil.c.
use mini_ftp.Base.{
  ℕ, zero, suc, ◌+◌, ◌≤◌, ◌<◌, Bool, true, false, none, some, [], ◌∷◌, ◌++◌, ◌↔◌, ◌≡◌, refl, ap,
  ◌∙◌, ◌⊎◌, inl, inr, arith, if◌then◌else◌, ◌==◌, Bytes, length, drop, length-append, take-append,
  length-drop, Bool-cases, lt→ltb, lt→leb,
}
use mini_ftp.Base.Text.{c_str, no_nul, c_str-terminated, zeros, length-zeros}
use mathlib.Core.Path.{subst}
use mini_ftp.Strutil.{◌>>=◌, strchr, strcpy, strncpy, str_split}

-- The text in front of the first `c`, and the text behind it.
unfoldable pub before_char : ℕ → Bytes → Bytes
before_char c [] = []
before_char c (x ∷ xs) = if x == c then [] else x ∷ before_char c xs

unfoldable pub after_char : ℕ → Bytes → Bytes
after_char c [] = []
after_char c (x ∷ xs) = if x == c then xs else after_char c xs

unfoldable pub has_char : ℕ → Bytes → Bool
has_char c [] = false
has_char c (x ∷ xs) = if x == c then true else has_char c xs

strchr-before_char :
    (c : ℕ) (s : Bytes)
    → strchr c s ≡ (if has_char c s then some (length (before_char c s)) else none)
unfolding strchr before_char has_char
strchr-before_char c [] = refl
strchr-before_char c (x ∷ s) = ground (arith, strchr-before_char c s)

-- A text with the separator in it is its two parts and the separator.
pub has_char-split :
    (c : ℕ) (s : Bytes) → has_char c s ≡ true → before_char c s ++ (c ∷ after_char c s) ≡ s
unfolding before_char after_char has_char
has_char-split c [] h = cc
has_char-split c (x ∷ s) h = ground (arith, has_char-split c s)

pub has_char-none :
    (c : ℕ) (s : Bytes) → has_char c s ≡ false → (before_char c s ≡ s) × (after_char c s ≡ [])
unfolding before_char after_char has_char
has_char-none c [] h = (refl, refl)
has_char-none c (x ∷ s) h = ground (arith, has_char-none c s)

no_nul-parts :
    (c : ℕ) (s : Bytes)
    → no_nul s ≡ true
    → (no_nul (before_char c s) ≡ true) × (no_nul (after_char c s) ≡ true)
unfolding before_char after_char
no_nul-parts c [] h = (refl, refl)
no_nul-parts c (x ∷ s) h = ground (arith, no_nul-parts c s)

-- The separator stands right behind the first part.
drop-separator : (xs ys : Bytes) (c : ℕ) → drop (length xs + 1) (xs ++ (c ∷ ys)) ≡ ys
drop-separator [] ys c = refl
drop-separator (x ∷ xs) ys c = rw (suc_add (length xs)) (drop-separator xs ys c)
  where
    suc_add : (n : ℕ) → suc n + 1 ≡ suc (n + 1)
    suc_add n = omega arith

-- An array of zeros past a text that is shorter begins with a NUL.
zeros-drop : (m n : ℕ) → m < n → (rest : Bytes) × (drop m (zeros n) ≡ 0 ∷ rest)
zeros-drop m zero l = elim l [ ]
zeros-drop zero (suc n) l = (zeros n, refl)
zeros-drop (suc m) (suc n) l = zeros-drop m n (omega arith)

-- The array `d` of `n` bytes holds the text `s`.
abbrev pub Holds : Bytes → ℕ → Bytes → Type 0
Holds d n s = (c_str d ≡ s) × (length d ≡ n)

strcpy-zeros :
    (s : Bytes) (n : ℕ)
    → no_nul s ≡ true
    → length s < n
    → (d : Bytes) × (strcpy (zeros n) s ≡ some d) × Holds d n s
unfolding strcpy
strcpy-zeros s n h l = (
  s ++ (0 ∷ drop (length s + 1) (zeros n)),
  rw (length-zeros n, lt→ltb (length s) n l),
  (
    c_str-terminated s _ h,
    omega (
      arith,
      length-append s (0 ∷ drop (length s + 1) (zeros n)),
      length-drop (length s + 1) (zeros n),
      length-zeros n,
    ),
  ),
)

strncpy-zeros :
    (s rest : Bytes) (n : ℕ)
    → no_nul s ≡ true
    → length s < n
    → (d : Bytes) × (strncpy (zeros n) (s ++ rest) (length s) ≡ some d) × Holds d n s
unfolding strncpy
strncpy-zeros s rest n h l =
    let (tail, e) = zeros-drop (length s) n l in
    (
      s ++ (0 ∷ tail),
      rw (length-zeros n, lt→leb (length s) n l, take-append s rest, e),
      (
        c_str-terminated s tail h,
        omega (
          arith,
          length-append s (0 ∷ tail),
          ap length e,
          length-drop (length s) (zeros n),
          length-zeros n,
        ),
      ),
    )

-- The call by its two branches, with the index of the separator written out.
str_split_found :
    (s left right : Bytes) (c : ℕ)
    → has_char c s ≡ true
    → str_split s left right c ≡ (
        strncpy left s (length (before_char c s)) >>= λ l.
        strcpy right (after_char c s) >>= λ r. some (l, r))
unfolding str_split
str_split_found s left right c found =
    let behind : drop (length (before_char c s) + 1) s ≡ after_char c s =
      subst (λ t. drop (length (before_char c s) + 1) t ≡ after_char c s) (has_char-split c s found)
        (drop-separator (before_char c s) (after_char c s) c) in
    let at : strchr c s ≡ some (length (before_char c s)) = strchr-before_char c s ∙ rw found in
    rw (at, str_split, behind)

str_split_absent :
    (s left right : Bytes) (c : ℕ)
    → has_char c s ≡ false
    → str_split s left right c ≡ (strcpy left s >>= λ l. some (l, right))
unfolding str_split
str_split_absent s left right c absent =
    let at : strchr c s ≡ none = strchr-before_char c s ∙ rw absent in rw (at, str_split)

empty : (n : ℕ) → c_str (zeros n) ≡ []
unfolding c_str
empty zero = refl
empty (suc n) = refl

-- Into two cleared arrays that hold their parts, the call writes the text in front of the first
-- separator and the text behind it, each with its NUL. A text with no separator goes to the left
-- array whole, and the right one stays empty.
pub str_split-parts :
    (s : Bytes) (c m n : ℕ)
    → no_nul s ≡ true
    → length (before_char c s) < m
    → length (after_char c s) < n
    → (l r : Bytes) × (str_split s (zeros m) (zeros n) c ≡ some (l, r))
      × Holds l m (before_char c s)
      × Holds r n (after_char c s)
str_split-parts s c m n h lm ln = elim (Bool-cases (has_char c s)) [
  | inl found ↦
      let parts = has_char-split c s found in
      let (l, wl, hl) =
        strncpy-zeros (before_char c s) (c ∷ after_char c s) m (no_nul-parts c s h).0 lm in
      let (r, wr, hr) = strcpy-zeros (after_char c s) n (no_nul-parts c s h).1 ln in
      (
        l,
        r,
        rw (
          str_split_found s (zeros m) (zeros n) c found,
          subst (λ t. strncpy (zeros m) t (length (before_char c s)) ≡ some l) parts wl,
          wr,
        ),
        hl,
        hr,
      )
  | inr absent ↦
      let (l, wl, hl) = strcpy-zeros (before_char c s) m (no_nul-parts c s h).0 lm in
      (
        l,
        zeros n,
        rw (
          str_split_absent s (zeros m) (zeros n) c absent,
          subst (λ t. strcpy (zeros m) t ≡ some l) (has_char-none c s absent).0 wl,
        ),
        hl,
        rw ((has_char-none c s absent).1) (empty n, length-zeros n),
      )
]

-- A write past the end of an array, exactly when a part does not fit: a word with no separator
-- needs room for its NUL, and so does the text behind the separator.
pub str_split_overflow :
    (s left right : Bytes) (c : ℕ)
    → (str_split s left right c ≡ none) ↔ (
        if has_char c s
        then (length left < length (before_char c s)) ⊎ (length right ≤ length (after_char c s))
        else length left ≤ length s)
unfolding strcpy strncpy
str_split_overflow s left right c = elim (Bool-cases (has_char c s)) [
  | inl found ↦ rw (str_split_found s left right c found, found) (ground arith)
  | inr absent ↦ rw (str_split_absent s left right c absent, absent) (ground arith)
]
