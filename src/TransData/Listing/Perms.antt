-- ===== src/TransData/Listing/Perms.antt =====
-- The letters that `statbuf_get_perms` of miniftpd/trans_data.c shows, and its static array.
use mini_ftp.Base.{
  ℕ, zero, suc, ◌/◌, ◌%◌, ◌^◌, Option, none, some, ◌≡◌, refl, sym, ap, ◌∙◌, Bool, true, false, ◌||◌,
  List, [], ◌∷◌, ◌==◌, if◌then◌else◌, Bytes, set, get_or,
}
use mini_ftp.Base.Text.{codes}
use mini_ftp.TransData.Listing.{bit, type_letter, set_type, set_if, statbuf_get_perms}

set-get_or : (xs : Bytes) (i : ℕ) → set xs i (get_or xs i 0) ≡ xs
set-get_or [] i = refl
set-get_or (x ∷ xs) zero = refl
set-get_or (x ∷ xs) (suc i) = ap (◌∷◌ x) (set-get_or xs i)

-- With the index known, both sides are the same list whether or not the bit is set.
set_if_lem :
    (b : Bool) (xs : Bytes) (i c : ℕ) → set_if b xs i c ≡ set xs i (if b then c else get_or xs i 0)
unfolding set_if
set_if_lem true xs i c = refl
set_if_lem false xs i c = sym (set-get_or xs i)

-- A mode adds a letter to those that the array holds.
adds : ℕ → ℕ → ℕ → ℕ → ℕ
adds mode k c old = if bit mode k then c else old

-- The array of ten letters.
abbrev letters : (t u₁ u₂ u₃ g₁ g₂ g₃ o₁ o₂ o₃ : ℕ) → Bytes
letters t u₁ u₂ u₃ g₁ g₂ g₃ o₁ o₂ o₃ = t ∷ u₁ ∷ u₂ ∷ u₃ ∷ g₁ ∷ g₂ ∷ g₃ ∷ o₁ ∷ o₂ ∷ o₃ ∷ []

-- The letter of an execute bit `k`, which the bit `j` turns into one of two others.
execute : ℕ → ℕ → ℕ → ℕ → ℕ → ℕ → ℕ
execute mode k j small large old =
    let c = if bit mode k then b'x' else old in
    if bit mode j then (if c == b'x' then small else large) else c

type_shown : Option ℕ → ℕ → ℕ
type_shown none old = old
type_shown (some c) old = c

set_type_lem : (o : Option ℕ) (t : ℕ) (xs : Bytes) → set_type o (t ∷ xs) ≡ type_shown o t ∷ xs
unfolding type_shown
set_type_lem none t xs = refl
set_type_lem (some c) t xs = refl

statbuf_get_perms-letters :
    (mode t u₁ u₂ u₃ g₁ g₂ g₃ o₁ o₂ o₃ : ℕ)
    → statbuf_get_perms mode (letters t u₁ u₂ u₃ g₁ g₂ g₃ o₁ o₂ o₃)
      ≡ letters
          (type_shown (type_letter (mode / 2 ^ 12 % 16)) t)
          (adds mode 8 b'r' u₁)
          (adds mode 7 b'w' u₂)
          (execute mode 6 11 b's' b'S' u₃)
          (adds mode 5 b'r' g₁)
          (adds mode 4 b'w' g₂)
          (execute mode 3 10 b's' b'S' g₃)
          (adds mode 2 b'r' o₁)
          (adds mode 1 b'w' o₂)
          (execute mode 0 9 b't' b'T' o₃)
unfolding statbuf_get_perms adds execute
statbuf_get_perms-letters mode t u₁ u₂ u₃ g₁ g₂ g₃ o₁ o₂ o₃ = simp (set_type_lem, set_if_lem)

-- The array behind the entries with these modes, the latest one first.
abbrev pub listed : List ℕ → Bytes
listed [] = codes "----------"
listed (mode ∷ modes) = statbuf_get_perms mode (listed modes)

-- One of the modes has a bit.
abbrev pub any_has : ℕ → List ℕ → Bool
any_has k [] = false
any_has k (mode ∷ modes) = bit mode k || any_has k modes

-- The letter at a position of the array is there just if one of the modes so far has its bit.
abbrev pub Shows : List ℕ → ℕ → ℕ → ℕ → Type 0
Shows modes i k c = get_or (listed modes) i 0 ≡ (if any_has k modes then c else b'-')

if-or : (b a : Bool) (c d : ℕ) → (if b then c else if a then c else d) ≡ (if b || a then c else d)
if-or true a c d = refl
if-or false a c d = refl

adds-any :
    (k c : ℕ) (mode : ℕ) (modes : List ℕ)
    → adds mode k c (if any_has k modes then c else b'-')
      ≡ (if any_has k (mode ∷ modes) then c else b'-')
unfolding adds
adds-any k c mode modes = if-or (bit mode k) (any_has k modes) c b'-'

-- The letter of the bit `k` behind these modes.
abbrev kept : ℕ → ℕ → List ℕ → ℕ
kept k c modes = if any_has k modes then c else b'-'

listed-letters :
    (modes : List ℕ)
    → (t u₃ g₃ o₃ : ℕ) × (listed modes
        ≡ letters t
            (kept 8 b'r' modes)
            (kept 7 b'w' modes)
            u₃
            (kept 5 b'r' modes)
            (kept 4 b'w' modes)
            g₃
            (kept 2 b'r' modes)
            (kept 1 b'w' modes)
            o₃)
listed-letters [] = (b'-', b'-', b'-', b'-', refl)
listed-letters (mode ∷ modes) =
    let (t, u₃, g₃, o₃, e) = listed-letters modes in
    (
      type_shown (type_letter (mode / 2 ^ 12 % 16)) t,
      execute mode 6 11 b's' b'S' u₃,
      execute mode 3 10 b's' b'S' g₃,
      execute mode 0 9 b't' b'T' o₃,
      ap (statbuf_get_perms mode) e
          ∙ (statbuf_get_perms-letters mode t (kept 8 b'r' modes) (kept 7 b'w' modes) u₃
                (kept 5 b'r' modes) (kept 4 b'w' modes) g₃ (kept 2 b'r' modes) (kept 1 b'w' modes)
                o₃
              ∙ simp (adds-any)),
    )

-- The letters of LIST are never taken back: behind any list of modes, each of the six letters for
-- reading and writing is shown exactly if at least one of the modes so far has its bit, so that an
-- entry shows what the entries before it allowed.
pub statbuf_get_perms_history :
    (modes : List ℕ)
    → Shows modes 1 8 b'r'
      × Shows modes 2 7 b'w'
      × Shows modes 4 5 b'r'
      × Shows modes 5 4 b'w'
      × Shows modes 7 2 b'r'
      × Shows modes 8 1 b'w'
statbuf_get_perms_history modes =
    let (t, u₃, g₃, o₃, e) = listed-letters modes in
    let letter = λ (i : ℕ). ap (λ xs. get_or xs i 0) e in
    (letter 1, letter 2, letter 4, letter 5, letter 7, letter 8)
