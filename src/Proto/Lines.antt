-- ===== src/Proto/Lines.antt =====
-- Which command `handle_proto` of miniftpd/ftp_proto.c takes from a line.
use mini_ftp.Base.{
  ℕ, ◌/◌, ◌%◌, ◌^◌, ◌≤◌, ◌<◌, ◌≡◌, refl, sym, ap, ◌∙◌, ◌⊎◌, inl, inr, true, Bool-cases, none, [],
  ◌∷◌, arith, lt→ltb, same_bytes_iff, Bytes, length, all,
}
use mini_ftp.Base.Int.{pos}
use mini_ftp.Base.Text.{c_str-whole, no_nul, terminated, zeros}
use mini_ftp.Commands.Reply.{Env}
use mini_ftp.Commands.Table.{Transfers, do_command_map}
use mini_ftp.Proto.{descriptor_bytes, split_command, take_command, clean_command, handle_line}
use mini_ftp.Session.{Proc, done, faulted, ◌>>=◌, ◌>>◌, seq-done}
use mini_ftp.Strutil.Ending.{
  without_crlf, without_crlf_none, str_trim_crlf-inside, no_nul-without_crlf,
}
use mini_ftp.Strutil.Split.{
  before_char, after_char, has_char, has_char-none, str_split-parts, str_split_overflow,
}
use mini_ftp.Strutil.Trim.{str_trim_crlf_underflow}
use mini_ftp.Strutil.{is_crlf, str_trim_crlf, str_split}

-- In front of `command` lies a byte that stops the trimming, for any descriptor below 2 ^ 24.
trim_command :
    (fd : ℕ) (buf : Bytes)
    → fd < 2 ^ 24
    → no_nul buf ≡ true
    → str_trim_crlf (descriptor_bytes (pos fd)) buf ≡ (descriptor_bytes (pos fd), without_crlf buf)
unfolding descriptor_bytes
trim_command fd buf small clean =
    let high : fd / 2 ^ 24 % 256 ≡ 0 = omega arith in
    elim (Bool-cases (all is_crlf buf)) [
      | inl e ↦
          str_trim_crlf_underflow [] (fd / 2 ^ 24 % 256)
            ((fd / 2 ^ 16 % 256) ∷ (fd / 2 ^ 8 % 256) ∷ (fd % 256) ∷ []) buf e refl (rw high refl)
          ∙ ap (λ t. (descriptor_bytes (pos fd), t)) (sym (without_crlf_none buf e))
      | inr e ↦ str_trim_crlf-inside _ buf clean e
    ]

take_command-split :
    (fd : ℕ) (buf : Bytes) (p : Proc)
    → p.sess.proto_fd ≡ pos fd
    → fd < 2 ^ 24
    → no_nul buf ≡ true
    → take_command buf p ≡ split_command (without_crlf buf) p
unfolding take_command
take_command-split fd buf p f small clean =
    rw
      (
        f,
        c_str-whole buf clean,
        trim_command fd buf small clean,
        (same_bytes_iff (descriptor_bytes (pos fd)) (descriptor_bytes (pos fd))).1 refl,
      )
      refl

-- The state in which the command of a text runs.
abbrev pub with_parts : Bytes → Proc → Proc
with_parts text p = record p {
  sess = record p.sess {
    command = text;
    comm = before_char b' ' text;
    args = after_char b' ' text;
  };
}

split_command_lem :
    (text : Bytes) (p : Proc)
    → no_nul text ≡ true
    → length (before_char b' ' text) < 512
    → length (after_char b' ' text) < 512
    → split_command text p ≡ done tt (with_parts text p)
unfolding split_command
split_command_lem text p clean v a =
    let (l, r, e, hl, hr) = str_split-parts text b' ' 512 512 clean v a in
    let inside : terminated l ≡ true = rw (hl.0, hl.1) (lt→ltb _ 512 v) in
    rw (e, split_command, inside, hl.0, hr.0) refl

-- A line without NUL, read while `proto_fd` is a descriptor below 2 ^ 24, gives the command with the
-- text in front of its first blank as verb and the text behind it as argument, its line ending
-- dropped, where both are shorter than 512 bytes. The command runs in that state, and the three
-- arrays are then cleared.
pub handle_line_lem :
    (env : Env) (transfers : Transfers) (fd : ℕ) (buf : Bytes) (p : Proc)
    → p.sess.proto_fd ≡ pos fd
    → fd < 2 ^ 24
    → no_nul buf ≡ true
    → length (before_char b' ' (without_crlf buf)) < 512
    → length (after_char b' ' (without_crlf buf)) < 512
    → handle_line env transfers buf p
      ≡ (do_command_map env transfers >> clean_command) (with_parts (without_crlf buf) p)
unfolding handle_line
handle_line_lem env transfers fd buf p f small clean v a = seq-done (take_command buf) _ p (
    take_command-split fd buf p f small clean
    ∙ split_command_lem (without_crlf buf) p (no_nul-without_crlf buf clean) v a)

split_too_long :
    (text : Bytes)
    → (512 < length (before_char b' ' text)) ⊎ (512 ≤ length (after_char b' ' text))
    → str_split text (zeros 512) (zeros 512) b' ' ≡ none
split_too_long text h = elim (Bool-cases (has_char b' ' text)) [
  | inl found ↦ (str_split_overflow text (zeros 512) (zeros 512) b' ').1 (rw found h)
  | inr absent ↦
      (str_split_overflow text (zeros 512) (zeros 512) b' ').1
        (rw absent (ground (arith, has_char-none b' ' text absent)))
]

-- A line without NUL, read while `proto_fd` is a descriptor below 2 ^ 24, whose verb has more than
-- 512 bytes, or whose argument has 512 or more, writes past the end of an array before any command
-- is looked for.
pub handle_line_overflow :
    (env : Env) (transfers : Transfers) (fd : ℕ) (buf : Bytes) (p : Proc)
    → p.sess.proto_fd ≡ pos fd
    → fd < 2 ^ 24
    → no_nul buf ≡ true
    → (512 < length (before_char b' ' (without_crlf buf)))
      ⊎ (512 ≤ length (after_char b' ' (without_crlf buf)))
    → handle_line env transfers buf p ≡ faulted p
unfolding handle_line split_command
handle_line_overflow env transfers fd buf p f small clean long =
    rw
      (
        ◌>>=◌,
        take_command-split fd buf p f small clean,
        split_command,
        split_too_long (without_crlf buf) long,
      )
      refl
