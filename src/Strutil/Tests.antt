-- ===== src/Strutil/Tests.antt =====
-- The string helpers of miniftpd/strutil.c run on concrete texts, and the theorems at them.
use mini_ftp.Base.{
  true, ◌&&◌, leb, all, ◌≤◌, ◌<◌, ◌≡◌, refl, ◌↔◌, ◌⊎◌, none, some, [], ◌∷◌, ◌++◌, arith,
  if◌then◌else◌, Bytes, length,
}
use mini_ftp.Base.Text.{codes, zeros}
use mini_ftp.Strutil.{
  isdigit, str_trim_crlf, str_split, str_all_space, str_upper, str_to_longlong, str_octal_to_uint,
}
use mini_ftp.Strutil.Trim.{str_trim_crlf_underflow}
use mini_ftp.Strutil.Split.{
  before_char, after_char, has_char, Holds, str_split-parts, str_split_overflow,
}
use mini_ftp.Strutil.Numbers.{value_onto, str_to_longlong-value}

trim_line : str_trim_crlf (7 ∷ []) (codes "NOOP\r\n") ≡ (7 ∷ [], codes "NOOP")
unfolding str_trim_crlf
trim_line = refl

upper_verb : str_upper (codes "retr File1") ≡ codes "RETR FILE1"
unfolding str_upper
upper_verb = refl

blank_line : str_all_space (codes " \t\r\n") ≡ true
unfolding str_all_space
blank_line = refl

split_command :
    str_split (codes "CWD a b") (zeros 5) (zeros 5) b' '
    ≡ some (codes "CWD" ++ 0 ∷ 0 ∷ [], codes "a b" ++ 0 ∷ 0 ∷ [])
unfolding str_split
split_command = refl

split_too_long : str_split (codes "a bcdef") (zeros 5) (zeros 5) b' ' ≡ none
unfolding str_split
split_too_long = refl

numbers :
    (str_to_longlong (codes "00420") ≡ 420)
    × (str_to_longlong (codes "4x0") ≡ 0)
    × (str_octal_to_uint (codes "0778") ≡ 63)
    × (str_octal_to_uint (codes "077777777777") ≡ 0xffff_ffff)
unfolding str_to_longlong str_octal_to_uint
numbers = (refl, refl, refl, refl)

str_trim_crlf_underflow_example :
    str_trim_crlf (10 ∷ 13 ∷ 9 ∷ 3 ∷ []) (codes "\n") ≡ (0 ∷ 0 ∷ 9 ∷ 3 ∷ [], [])
str_trim_crlf_underflow_example =
    str_trim_crlf_underflow (10 ∷ 13 ∷ []) 9 (3 ∷ []) (codes "\n") refl refl refl

str_split-parts_example :
    (l r : Bytes) × (str_split (codes "CWD a b") (zeros 8) (zeros 8) b' ' ≡ some (l, r))
    × Holds l 8 (before_char b' ' (codes "CWD a b"))
    × Holds r 8 (after_char b' ' (codes "CWD a b"))
unfolding before_char after_char
str_split-parts_example =
    str_split-parts (codes "CWD a b") b' ' 8 8 refl (omega arith) (omega arith)

str_split_overflow_example : (str_split (codes "a bcdef") (zeros 5) (zeros 5) b' ' ≡ none) ↔ (
    if has_char b' ' (codes "a bcdef")
    then (length (zeros 5) < length (before_char b' ' (codes "a bcdef")))
      ⊎ (length (zeros 5) ≤ length (after_char b' ' (codes "a bcdef")))
    else length (zeros 5) ≤ length (codes "a bcdef"))
str_split_overflow_example = str_split_overflow (codes "a bcdef") (zeros 5) (zeros 5) b' '

str_to_longlong-value_example : str_to_longlong (codes "4x0") ≡ (
    if leb (length (codes "4x0")) 15 && all isdigit (codes "4x0")
    then value_onto 10 0 (codes "4x0")
    else 0)
str_to_longlong-value_example = str_to_longlong-value (codes "4x0")
