-- ===== src/Strutil.antt =====
-- miniftpd/strutil.c: the string helpers, over byte lists that hold no NUL. The C library's
-- character classes are those of the C locale.
pub mod Trim
pub mod Ending
pub mod Split
pub mod Numbers
mod Tests
use mathlib.Core.Option
use mini_ftp.Base.{
  ℕ, suc, ◌+◌, ◌-◌, ◌*◌, ◌%◌, ◌^◌, Bool, true, false, not, ◌&&◌, ◌||◌, Option, none, some, List, [],
  ◌∷◌, ◌++◌, map, reverse, ltb, leb, ◌==◌, if◌then◌else◌, Bytes, length, take, drop, all,
}
use mini_ftp.Base.Text.{c_str}

abbrev pub is_crlf : ℕ → Bool
is_crlf c = c == 13 || c == 10

-- The `while` of `str_trim_crlf`, on the memory in front of the NUL, read backwards. The loop has
-- no lower bound but a byte that is neither CR nor LF.
pub trim_back : Bytes → Bytes
trim_back [] = []
trim_back (c ∷ m) = if is_crlf c then 0 ∷ trim_back m else c ∷ m

-- `before` is the memory in front of `str`, nearest byte first: it comes back as the call leaves it,
-- with the string that is left.
unfoldable pub str_trim_crlf : Bytes → Bytes → Bytes × Bytes
unfolding trim_back c_str
str_trim_crlf before str =
    let m = trim_back (reverse str ++ before) in
    (drop (length str) m, c_str (reverse (take (length str) m)))

pub strchr : ℕ → Bytes → Option ℕ
strchr c [] = none
strchr c (x ∷ xs) = if x == c then some 0 else Option.map suc (strchr c xs)

-- `strcpy` and `strncpy` into an array; `none` is a write past its end. Here `n` is at most the
-- length of the text, so that `strncpy` pads nothing and ends with no NUL.
pub strcpy : Bytes → Bytes → Option Bytes
strcpy dst s =
    if ltb (length s) (length dst) then some (s ++ (0 ∷ drop (length s + 1) dst)) else none

pub strncpy : Bytes → Bytes → ℕ → Option Bytes
strncpy dst s n = if leb n (length dst) then some (take n s ++ drop n dst) else none

infixl 5 ◌>>=◌
abbrev ◌>>=◌ {ℓ κ} : {A : Type ℓ} {B : Type κ} → Option A → (A → Option B) → Option B
none >>= f = none
some a >>= f = f a

-- The arrays `left` and `right` as the call finds them and leaves them.
unfoldable pub str_split : Bytes → Bytes → Bytes → ℕ → Option (Bytes × Bytes)
unfolding strchr strcpy strncpy
str_split str left right c = elim (strchr c str) [
  | none ↦ do l ← strcpy left str; some (l, right)
  | some i ↦ do l ← strncpy left str i; r ← strcpy right (drop (i + 1) str); some (l, r)
]

-- `isspace`: the blank, and TAB LF VT FF CR.
abbrev pub isspace : ℕ → Bool
isspace c = c == b' ' || (leb 9 c && leb c 13)

unfoldable pub str_all_space : Bytes → Bool
str_all_space [] = true
str_all_space (c ∷ cs) = if isspace c then str_all_space cs else false

abbrev pub toupper : ℕ → ℕ
toupper c = if leb b'a' c && leb c b'z' then c - 32 else c

unfoldable pub str_upper : Bytes → Bytes
str_upper [] = []
str_upper (c ∷ cs) = toupper c ∷ str_upper cs

abbrev pub isdigit : ℕ → Bool
isdigit c = leb b'0' c && leb c b'9'

-- The loop of `str_to_longlong` over the digits from the last to the first.
pub longlong_loop : Bytes → ℕ → ℕ → ℕ
longlong_loop [] result mult = result
longlong_loop (ch ∷ cs) result mult =
    let rest = longlong_loop cs (result + (ch - b'0') * mult) (mult * 10) in
    if isdigit ch then rest else 0

unfoldable pub str_to_longlong : Bytes → ℕ
unfolding longlong_loop
str_to_longlong str = if ltb 15 (length str) then 0 else longlong_loop (reverse str) 0 1

abbrev pub uint_mod : ℕ
uint_mod = 2 ^ 32

-- `result <<= 3` and `result += digit - '0'`, each on an `unsigned int`.
pub octal_loop : Bytes → ℕ → Bool → ℕ
octal_loop [] result seen = result
octal_loop (c ∷ cs) result seen =
    let seen' : Bool = seen || not (c == b'0') in
    let next : ℕ = if seen' then ((result * 8) % uint_mod + (c - b'0')) % uint_mod else result in
    let rest = octal_loop cs next seen' in if not (isdigit c) || ltb b'7' c then result else rest

unfoldable pub str_octal_to_uint : Bytes → ℕ
unfolding octal_loop
str_octal_to_uint str = octal_loop str 0 false
