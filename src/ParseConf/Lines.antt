-- ===== src/ParseConf/Lines.antt =====
-- The whole configuration file of miniftpd/parse_conf.c, line by line.
use mini_ftp.Base.{
  ℕ, zero, suc, ◌≤◌, ◌<◌, ◌≡◌, refl, ap, ◌∙◌, Bool, true, false, not, ◌&&◌, ◌||◌, Bool-cases, inl,
  inr, some, List, [], ◌∷◌, ◌++◌, arith, leb, ◌==◌, if◌then◌else◌, Bytes, length, all,
  length-append, all-append,
}
use mini_ftp.Base.Run.{Run, ok, abort, exited, ◌>>=◌}
use mini_ftp.Base.Text.{c_str, c_str-whole, no_nul}
use mini_ftp.Config.{Config}
use mini_ftp.ParseConf.{
  fgets, skipped, parseconf_load_setting, load_line, load_lines, parse_conf_load_file,
}
use mini_ftp.Strutil.Ending.{without_crlf, str_trim_crlf-inside}
use mini_ftp.Strutil.{is_crlf, str_trim_crlf, str_all_space}

not_blank : (text : Bytes) → str_all_space text ≡ false → all is_crlf text ≡ false
unfolding str_all_space
not_blank [] h = cc
not_blank (c ∷ cs) h = ground (arith, not_blank cs)

-- A line of the file, without its newline: short enough for the array, with no NUL.
abbrev pub plain : Bytes → Bool
plain l = leb (length l) 1022 && all (λ c. not (c == 0 || c == 10)) l

abbrev pub unlines : List Bytes → Bytes
unlines [] = []
unlines (l ∷ ls) = l ++ (10 ∷ unlines ls)

fgets-plain :
    (n : ℕ) (l file : Bytes)
    → length l < n
    → all (λ c. not (c == 0 || c == 10)) l ≡ true
    → fgets n (l ++ (10 ∷ file)) ≡ (l ++ 10 ∷ [], file)
unfolding fgets
fgets-plain zero l file h k = absurd (omega arith)
fgets-plain (suc n) [] file h k = refl
fgets-plain (suc n) (c ∷ l) file h k = ground (arith, fgets-plain n l file)

all_space-newline : (l : Bytes) → str_all_space (l ++ 10 ∷ []) ≡ str_all_space l
unfolding str_all_space
all_space-newline [] = refl
all_space-newline (c ∷ l) = ground (arith, all_space-newline l)

skipped-newline : (l : Bytes) → skipped (l ++ 10 ∷ []) ≡ skipped l
unfolding skipped str_all_space
skipped-newline [] = refl
skipped-newline (c ∷ l) = ground (arith, all_space-newline l, length-append l (10 ∷ []))

without_crlf-newline : (l : Bytes) → without_crlf (l ++ 10 ∷ []) ≡ without_crlf l
unfolding without_crlf
without_crlf-newline [] = refl
without_crlf-newline (c ∷ l) =
    ground (arith, without_crlf-newline l, all-append is_crlf l (10 ∷ []))

plain-no_nul :
    (l : Bytes) → all (λ c. not (c == 0 || c == 10)) l ≡ true → no_nul (l ++ 10 ∷ []) ≡ true
plain-no_nul [] h = refl
plain-no_nul (c ∷ l) h = ground (arith, plain-no_nul l)

-- What a line does: nothing if it is empty, blank or a comment, and its setting otherwise.
abbrev pub read_line : (Bytes → ℕ) → Bytes → Config → Run Config
read_line atoi l c = if skipped l then ok c else parseconf_load_setting atoi (without_crlf l) c

abbrev pub read_lines : (Bytes → ℕ) → List Bytes → Config → Run Config
read_lines atoi [] c = ok c
read_lines atoi (l ∷ ls) c = do c' ← read_line atoi l c; read_lines atoi ls c'

-- A run on the settings, with the memory in front of the array.
abbrev pub beside : Bytes → Run Config → Run (Bytes × Config)
beside before r = do c ← r; ok (before, c)

not_skipped : (l : Bytes) → skipped l ≡ false → str_all_space l ≡ false
unfolding skipped
not_skipped l h = ground arith

trimmed_line :
    (before l : Bytes)
    → all (λ c. not (c == 0 || c == 10)) l ≡ true
    → skipped l ≡ false
    → str_trim_crlf before (l ++ 10 ∷ []) ≡ (before, without_crlf l)
trimmed_line before l h e =
    str_trim_crlf-inside before (l ++ 10 ∷ []) (plain-no_nul l h)
      (not_blank (l ++ 10 ∷ []) (all_space-newline l ∙ not_skipped l e))
    ∙ ap (λ kept. (before, kept)) (without_crlf-newline l)

load_line-plain :
    (atoi : Bytes → ℕ) (before l : Bytes) (c : Config)
    → all (λ c. not (c == 0 || c == 10)) l ≡ true
    → load_line atoi before (l ++ 10 ∷ []) c ≡ beside before (read_line atoi l c)
unfolding load_line
load_line-plain atoi before l c h =
    let text : c_str (l ++ 10 ∷ []) ≡ l ++ 10 ∷ [] = c_str-whole _ (plain-no_nul l h) in
    elim (Bool-cases (skipped l)) [
      | inl e ↦ rw (text, skipped-newline l, e) refl
      | inr e ↦ rw (text, skipped-newline l, e, trimmed_line before l h e) refl
    ]

pub beside-bind :
    {A : Type 0} (before : Bytes) (m : Run Config) (next : Bytes → Config → Run A)
    → (beside before m >>= λ r. next r.0 r.1) ≡ (m >>= next before)
beside-bind before abort next = refl
beside-bind before (exited n) next = refl
beside-bind before (ok c) next = refl

load_lines-open :
    (atoi : Bytes → ℕ) (fuel : ℕ) (before l file : Bytes) (c : Config)
    → load_lines atoi (suc fuel) before (l ++ (10 ∷ file)) c ≡ (
        load_line atoi before (fgets 1023 (l ++ (10 ∷ file))).0 c >>= λ r.
        load_lines atoi fuel r.0 (fgets 1023 (l ++ (10 ∷ file))).1 r.1)
unfolding load_lines
load_lines-open atoi fuel before [] file c = refl
load_lines-open atoi fuel before (x ∷ l) file c = refl

-- One round of the `while`, on a file with a plain line in front.
load_lines-round :
    (atoi : Bytes → ℕ) (fuel : ℕ) (before l file : Bytes) (c : Config)
    → plain l ≡ true
    → load_lines atoi (suc fuel) before (l ++ (10 ∷ file)) c
      ≡ (read_line atoi l c >>= λ c'. load_lines atoi fuel before file c')
load_lines-round atoi fuel before l file c h =
    let clean : all (λ c. not (c == 0 || c == 10)) l ≡ true = ground arith in
    let read = fgets-plain 1023 l file (ground arith) clean in
    load_lines-open atoi fuel before l file c
    ∙ rw (read, load_line-plain atoi before l c clean)
        (beside-bind before (read_line atoi l c) (λ b c'. load_lines atoi fuel b file c'))

then_beside :
    (before : Bytes) (m : Run Config) (k : Config → Run (Bytes × Config)) (k' : Config → Run Config)
    → ((c : Config) → k c ≡ beside before (k' c))
    → (m >>= k) ≡ beside before (m >>= k')
then_beside before abort k k' h = refl
then_beside before (exited n) k k' h = refl
then_beside before (ok c) k k' h = h c

load_lines-plain :
    (atoi : Bytes → ℕ) (fuel : ℕ) (before : Bytes) (ls : List Bytes) (c : Config)
    → all plain ls ≡ true
    → length (unlines ls) ≤ fuel
    → load_lines atoi fuel before (unlines ls) c ≡ beside before (read_lines atoi ls c)
unfolding load_lines
load_lines-plain atoi zero before [] c h f = refl
load_lines-plain atoi (suc fuel) before [] c h f = refl
load_lines-plain atoi zero before (l ∷ ls) c h f =
    absurd (omega (arith, f, length-append l (10 ∷ unlines ls)))
load_lines-plain atoi (suc fuel) before (l ∷ ls) c h f =
    load_lines-round atoi fuel before l (unlines ls) c (ground arith)
    ∙ then_beside before (read_line atoi l c) (load_lines atoi fuel before (unlines ls))
        (read_lines atoi ls)
        (λ c'.
          load_lines-plain atoi fuel before ls c' (ground arith)
            (omega (arith, f, length-append l (10 ∷ unlines ls))))

-- A file of lines of at most 1022 bytes without NUL, ended by newlines, sets what its lines set one
-- after another, up to the first that ends the process, and writes nothing in front of the array.
pub parse_conf_load_file_lines :
    (atoi : Bytes → ℕ) (before : Bytes) (ls : List Bytes) (c : Config)
    → all plain ls ≡ true
    → parse_conf_load_file atoi (some (unlines ls)) before c ≡ beside before (read_lines atoi ls c)
unfolding parse_conf_load_file
parse_conf_load_file_lines atoi before ls c h =
    load_lines-plain atoi (length (unlines ls)) before ls c h (omega arith)
