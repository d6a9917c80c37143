-- ===== src/Commands/Framing.antt =====
-- The bytes of a reply of miniftpd/command_map.c, through its array of 1024 bytes.
use mini_ftp.Base.{
  ℕ, zero, suc, ◌+◌, ◌/◌, ◌%◌, ◌≤◌, ◌<◌, ◌≡◌, refl, ap, ◌∙◌, true, false, List, [], ◌∷◌, ◌++◌,
  arith, Bytes, length, take, all, take-of_le, length-take, length-append, append_assoc,
}
use mini_ftp.Base.Decimal.{decimal, decimal_onto}
use mini_ftp.Commands.Reply.{Env, crlf, control_write, ftp_reply}
use mini_ftp.Session.{Event, sent, Proc, done}
use mini_ftp.Strutil.Split.{has_char}
use mini_ftp.Sysutil.Writing.{write_ok, takes, writen-wrote}

-- No write on the control connection fails, and each reply is taken in the end.
abbrev pub Delivers : Env → Type 0
Delivers env =
    (trace : List Event)
    → (all write_ok (env.departures trace) ≡ true) × (1023 ≤ takes (env.departures trace))

pub control_write_lem :
    (env : Env) (buf : Bytes) (p : Proc)
    → Delivers env
    → length buf ≤ 1023
    → control_write env buf p ≡ done tt (record p { trace = sent buf ∷ p.trace })
unfolding control_write
control_write_lem env buf p d l =
    let (s, e) =
      writen-wrote (env.departures p.trace) buf (d p.trace).0 (omega (arith, (d p.trace).1)) in
    rw (e, control_write)

-- The reply before it meets the array.
abbrev pub framed : ℕ → Bytes → Bytes
framed status text = decimal status ++ (b' ' ∷ (text ++ crlf))

abbrev pub replied : ℕ → Bytes → Proc → Proc
replied status text p = record p { trace = sent (take 1023 (framed status text)) ∷ p.trace }

pub ftp_reply_lem :
    (env : Env) (status : ℕ) (text : Bytes) (p : Proc)
    → Delivers env
    → ftp_reply env status text p ≡ done tt (replied status text p)
unfolding ftp_reply
ftp_reply_lem env status text p d =
    control_write_lem env (take 1023 (framed status text)) p d
      (omega (arith, length-take 1023 (framed status text)))

three_digits :
    (f n : ℕ)
    → 100 ≤ n
    → n < 1000
    → decimal_onto (suc (suc (suc f))) n []
      ≡ (b'0' + n / 10 / 10 % 10) ∷ (b'0' + n / 10 % 10) ∷ (b'0' + n % 10) ∷ []
unfolding decimal_onto
three_digits f n h l = ground arith

decimal-three :
    (n : ℕ)
    → 100 ≤ n
    → n < 1000
    → decimal n ≡ (b'0' + n / 10 / 10 % 10) ∷ (b'0' + n / 10 % 10) ∷ (b'0' + n % 10) ∷ []
unfolding decimal
decimal-three zero h l = absurd (omega arith)
decimal-three (suc zero) h l = absurd (omega arith)
decimal-three (suc (suc zero)) h l = absurd (omega arith)
decimal-three (suc (suc (suc f))) h l = three_digits f (suc (suc (suc f))) h l

-- On a connection that takes all bytes without failure, a reply with a code of three digits and a
-- text of at most 1017 bytes goes out whole: the code, a blank, the text, and CR LF.
pub ftp_reply_whole :
    (env : Env) (status : ℕ) (text : Bytes) (p : Proc)
    → Delivers env
    → 100 ≤ status
    → status < 1000
    → length text ≤ 1017
    → ftp_reply env status text p
      ≡ done tt (record p { trace = sent (framed status text) ∷ p.trace })
ftp_reply_whole env status text p d h l t =
    let short : length (framed status text) ≤ 1023 = omega (
      arith,
      length-append (decimal status) (b' ' ∷ (text ++ crlf)),
      ap length (decimal-three status h l),
      length-append text crlf,
    ) in
    ftp_reply_lem env status text p d
    ∙ ap (λ b. done tt (record p { trace = sent b ∷ p.trace }))
        (take-of_le 1023 (framed status text) short)

no_newline_take :
    (n : ℕ) (xs ys : Bytes)
    → has_char 10 xs ≡ false
    → n ≤ length xs
    → has_char 10 (take n (xs ++ ys)) ≡ false
unfolding has_char
no_newline_take zero xs ys h l = refl
no_newline_take (suc n) [] ys h l = absurd (omega arith)
no_newline_take (suc n) (x ∷ xs) ys h l = ground (arith, no_newline_take n xs ys)

no_newline_append :
    (xs ys : Bytes)
    → has_char 10 xs ≡ false
    → has_char 10 ys ≡ false
    → has_char 10 (xs ++ ys) ≡ false
unfolding has_char
no_newline_append [] ys h k = k
no_newline_append (x ∷ xs) ys h k = ground (arith, no_newline_append xs ys)

no_newline_digits : (n : ℕ) → 100 ≤ n → n < 1000 → has_char 10 (decimal n) ≡ false
unfolding has_char
no_newline_digits n h l = rw (decimal-three n h l) (ground arith)

-- On a connection that takes all bytes without failure, a reply with a code of three digits and a
-- text of 1018 bytes or more, without a newline, goes out with no newline at all.
pub ftp_reply_cut :
    (env : Env) (status : ℕ) (text : Bytes) (p : Proc)
    → Delivers env
    → 100 ≤ status
    → status < 1000
    → has_char 10 text ≡ false
    → 1018 ≤ length text
    → (cut : Bytes) × (ftp_reply env status text p
        ≡ done tt (record p { trace = sent cut ∷ p.trace }))
      × (has_char 10 cut ≡ false)
ftp_reply_cut env status text p d h l clean t =
    let front = decimal status ++ (b' ' ∷ (text ++ 13 ∷ [])) in
    let size : 1023 ≤ length front = omega (
      arith,
      length-append (decimal status) (b' ' ∷ (text ++ 13 ∷ [])),
      ap length (decimal-three status h l),
      length-append text (13 ∷ []),
    ) in
    let whole : framed status text ≡ front ++ 10 ∷ [] = rw (
      append_assoc (decimal status) (b' ' ∷ (text ++ 13 ∷ [])) (10 ∷ []),
      append_assoc text (13 ∷ []) (10 ∷ []),
    ) in
    let end : has_char 10 (b' ' ∷ (text ++ 13 ∷ [])) ≡ false =
      unfold has_char in no_newline_append text (13 ∷ []) clean refl in
    (
      take 1023 (framed status text),
      ftp_reply_lem env status text p d,
      rw whole (
          no_newline_take 1023 front (10 ∷ [])
            (no_newline_append (decimal status) _ (no_newline_digits status h l) end) size),
    )
