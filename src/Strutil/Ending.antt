-- ===== src/Strutil/Ending.antt =====
-- What `str_trim_crlf` of miniftpd/strutil.c keeps of a text.
use mini_ftp.Base.{
  ℕ, ◌≡◌, refl, sym, ap, ◌∙◌, true, false, inl, inr, [], ◌∷◌, ◌++◌, arith, if◌then◌else◌,
  Bool-cases, Bytes, all,
}
use mini_ftp.Base.Text.{no_nul}
use mini_ftp.Strutil.Trim.{str_trim_crlf-line}
use mini_ftp.Strutil.{is_crlf, str_trim_crlf}

-- The text up to its last byte that is neither CR nor LF.
unfoldable pub without_crlf : Bytes → Bytes
without_crlf [] = []
without_crlf (c ∷ cs) = let rest = without_crlf cs in if all is_crlf (c ∷ cs) then [] else c ∷ rest

-- A text that is not CR and LF alone ends in a byte that is neither, and in CR and LF behind it.
record Ending (text : Bytes) : Type 0 where
  init : Bytes
  last : ℕ
  tail : Bytes
  whole : text ≡ (init ++ last ∷ []) ++ tail
  kept : without_crlf text ≡ init ++ last ∷ []
  stops : is_crlf last ≡ false
  ends : all is_crlf tail ≡ true

pub without_crlf_none : (text : Bytes) → all is_crlf text ≡ true → without_crlf text ≡ []
unfolding without_crlf
without_crlf_none [] h = refl
without_crlf_none (c ∷ cs) h = rw h refl

ending : (text : Bytes) → all is_crlf text ≡ false → Ending text
unfolding without_crlf
ending [] h = cc
ending (c ∷ cs) h = elim (Bool-cases (all is_crlf cs)) [
  | inl e ↦ record {
    init = [];
    last = c;
    tail = cs;
    whole = refl;
    kept = ground (arith, without_crlf_none cs e);
    stops = ground arith;
    ends = e;
  }
  | inr e ↦
      let r = ending cs e in
      record {
        init = c ∷ r.init;
        last = r.last;
        tail = r.tail;
        whole = ap (◌∷◌ c) r.whole;
        kept = rw h (ap (◌∷◌ c) r.kept);
        stops = r.stops;
        ends = r.ends;
      }
]

no_nul-front : (xs ys : Bytes) → no_nul (xs ++ ys) ≡ true → no_nul xs ≡ true
no_nul-front [] ys h = refl
no_nul-front (x ∷ xs) ys h = ground (arith, no_nul-front xs ys)

-- On a text that is not CR and LF alone, `str_trim_crlf` stays inside the array.
pub str_trim_crlf-inside :
    (before text : Bytes)
    → no_nul text ≡ true
    → all is_crlf text ≡ false
    → str_trim_crlf before text ≡ (before, without_crlf text)
str_trim_crlf-inside before text clean h =
    let r = ending text h in
    ap (str_trim_crlf before) r.whole
    ∙ str_trim_crlf-line before r.init r.tail r.last
        (no_nul-front (r.init ++ r.last ∷ []) r.tail (ap no_nul (sym r.whole) ∙ clean)) r.stops
        r.ends
    ∙ ap (λ kept. (before, kept)) (sym r.kept)

pub no_nul-without_crlf : (text : Bytes) → no_nul text ≡ true → no_nul (without_crlf text) ≡ true
unfolding without_crlf
no_nul-without_crlf [] h = refl
no_nul-without_crlf (c ∷ cs) h = ground (arith, no_nul-without_crlf cs)
