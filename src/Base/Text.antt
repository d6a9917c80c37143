-- ===== src/Base/Text.antt =====
-- Texts of the program as lists of bytes, and C strings inside byte arrays.
use Prim.Native.Char.{code}
use Prim.Native.String.{String}
use Prim.Native.Nat.{ℕ}
use mathlib.Core.Bool.{Bool, true, not}
use mathlib.Core.List.{[], ◌∷◌, ◌++◌}
use mathlib.Core.Path.{◌≡◌, refl}
use native.Mathlib.Omega.{arith}
use mini_ftp.Base.Tests.{ltb, ◌==◌, if◌then◌else◌}
use mini_ftp.Base.Lists.{Bytes, all, replicate, length, length-replicate}

-- The code points of a literal, which are its bytes: every literal here is ASCII.
abbrev pub codes : String → Bytes
codes String.[] = []
codes (String.◌∷◌ c s) = code c ∷ codes s

-- The string that a `char` array holds: its bytes up to the first NUL.
unfoldable pub c_str : Bytes → Bytes
c_str [] = []
c_str (c ∷ cs) = if c == 0 then [] else c ∷ c_str cs

-- No byte is NUL, so that the bytes are a C string.
abbrev pub no_nul : Bytes → Bool
no_nul = all (λ c. not (c == 0))

pub c_str-terminated : (s rest : Bytes) → no_nul s ≡ true → c_str (s ++ (0 ∷ rest)) ≡ s
unfolding c_str
c_str-terminated [] rest h = refl
c_str-terminated (c ∷ s) rest h = ground (arith, c_str-terminated s rest)

pub c_str-no_nul : (s : Bytes) → no_nul (c_str s) ≡ true
unfolding c_str
c_str-no_nul [] = refl
c_str-no_nul (c ∷ s) = ground (arith, c_str-no_nul s)

pub c_str-whole : (s : Bytes) → no_nul s ≡ true → c_str s ≡ s
unfolding c_str
c_str-whole [] h = refl
c_str-whole (c ∷ s) h = ground (arith, c_str-whole s)

-- A `char` array that `memset` cleared.
abbrev pub zeros : ℕ → Bytes
zeros n = replicate n 0

pub length-zeros : (n : ℕ) → length (zeros n) ≡ n
length-zeros n = length-replicate n 0

-- `strlen` and `strcmp` stay inside an array with a NUL.
abbrev pub terminated : Bytes → Bool
terminated array = ltb (length (c_str array)) (length array)
