-- ===== src/Proto/Script.antt =====
-- A client that sends whole lines to the loop of miniftpd/ftp_proto.c, one behind the other.
use mini_ftp.Base.{
  ℕ, zero, suc, ◌+◌, ◌*◌, ◌^◌, ◌≤◌, ◌<◌, ◌≡◌, refl, ap, ◌∙◌, Bool, true, not, ◌&&◌, some, List, [],
  ◌∷◌, ◌++◌, arith, ◌==◌, ltb, Bytes, length, all, map, length-append,
}
use mini_ftp.Base.Int.{pos}
use mini_ftp.Base.Text.{no_nul}
use mini_ftp.Commands.Reply.{Env, crlf}
use mini_ftp.Commands.Sound.{IsSound}
use mini_ftp.Commands.Sound.Table.{KeepSound, do_command_map-IsSound}
use mini_ftp.Commands.Table.{Transfers, do_command_map}
use mini_ftp.Proto.Lines.{with_parts, handle_line_lem}
use mini_ftp.Proto.Sound.{greet_client-IsSound}
use mini_ftp.Proto.Serve.{lines_of, serve, handle_proto-serve}
use mini_ftp.Proto.{greet_client, clean_command, handle_line, handle_proto}
use mini_ftp.Session.Invariant.{Leaves, Keeps, bind-Leaves, done-Leaves}
use mini_ftp.Session.{Session, M, Proc, Out, done, exited, killed, hung, faulted, ◌>>=◌, ◌>>◌, exit}
use mini_ftp.Strutil.Ending.{without_crlf}
use mini_ftp.Strutil.Split.{before_char, after_char}
use mini_ftp.Strutil.{is_crlf}
use mini_ftp.Sysutil.Reading.{read_ok, looks}
use mini_ftp.Sysutil.Readline.{next_line}
use mini_ftp.Sysutil.{Arrival}
use mini_ftp.TransCtrl.Sound.{start_signal_alarm_ctrl_fd-IsSound}
use mini_ftp.TransCtrl.{Double, start_signal_alarm_ctrl_fd}
use mini_ftp.TransData.Sound.Transfer.{transfers-KeepSound}
use mini_ftp.TransData.Transfer.{transfers}

abbrev pub plain : ℕ → Bool
plain c = not (c == 0) && not (is_crlf c)

-- A text without NUL, CR and LF that fits the array of a line with its ending, and whose verb and
-- argument fit theirs.
unfoldable pub is_request : Bytes → Bool
is_request text =
    all plain text
    && (ltb (length text) 1022
        && (ltb (length (before_char b' ' text)) 512 && ltb (length (after_char b' ' text)) 512))

-- What the client sends.
unfoldable pub script : List Bytes → Bytes
script [] = []
script (text ∷ texts) = text ++ (13 ∷ 10 ∷ script texts)

-- The command of a text, with the arrays cleared behind it.
unfoldable pub run_command : Env → Transfers → Bytes → M (Unit {0})
run_command env t text p = (do_command_map env t >> clean_command) (with_parts text p)

unfoldable pub converse : Env → Transfers → List Bytes → M (Unit {0})
unfolding run_command
converse env t [] = do start_signal_alarm_ctrl_fd env; exit 0
converse env t (text ∷ texts) = do
  start_signal_alarm_ctrl_fd env
  run_command env t text
  converse env t texts

next_line-plain :
    (n : ℕ) (text rest : Bytes)
    → all plain text ≡ true
    → length text + 2 ≤ n
    → next_line n (text ++ (13 ∷ 10 ∷ rest)) ≡ some (text ++ crlf, rest)
unfolding next_line
next_line-plain zero text rest h l = absurd (omega arith)
next_line-plain (suc zero) [] rest h l = absurd (omega arith)
next_line-plain (suc (suc n)) [] rest h l = refl
next_line-plain (suc n) (c ∷ text) rest h l = ground (arith, next_line-plain n text rest)

without_crlf-plain : (text : Bytes) → all plain text ≡ true → without_crlf (text ++ crlf) ≡ text
unfolding without_crlf
without_crlf-plain [] h = refl
without_crlf-plain (c ∷ text) h = ground (arith, without_crlf-plain text)

no_nul-plain : (text : Bytes) → all plain text ≡ true → no_nul (text ++ crlf) ≡ true
no_nul-plain [] h = refl
no_nul-plain (c ∷ text) h = ground (arith, no_nul-plain text)

lines_of-script :
    (fuel : ℕ) (texts : List Bytes)
    → length (script texts) < fuel
    → all is_request texts ≡ true
    → lines_of fuel (script texts) ≡ map (λ text. text ++ crlf) texts
unfolding script lines_of is_request next_line
lines_of-script zero texts f h = absurd (omega arith)
lines_of-script (suc fuel) [] f h = refl
lines_of-script (suc fuel) (text ∷ texts) f h =
    let clean : all plain text ≡ true = ground arith in
    rw (next_line-plain 1023 text (script texts) clean (ground arith), lines_of)
      (ap (◌∷◌ (text ++ crlf)) (
        lines_of-script fuel texts (omega (arith, length-append text (13 ∷ 10 ∷ script texts)))
          (ground arith)))

module _ {P : Session → Type 0} where
  -- What follows may be exchanged for what does the same where the predicate holds.
  then-kept :
      (o : Out (Unit {0})) (k k' : M (Unit {0}))
      → Leaves P o
      → ((q : Proc) → P q.sess → k q ≡ k' q)
      → elim o [
        | done a q ↦ k q
        | exited n q ↦ exited n q
        | killed q ↦ killed q
        | hung q ↦ hung q
        | faulted q ↦ faulted q
      ]
        ≡ elim o [
          | done a q ↦ k' q
          | exited n q ↦ exited n q
          | killed q ↦ killed q
          | hung q ↦ hung q
          | faulted q ↦ faulted q
        ]
  then-kept (done a q) k k' h same = same q h.holds
  then-kept (exited n q) k k' h same = refl
  then-kept (killed q) k k' h same = refl
  then-kept (hung q) k k' h same = refl
  then-kept (faulted q) k k' h same = refl

-- The socket to the other process is a descriptor below 2 ^ 24.
abbrev Small : Session → Type 0
Small s₀ = (fd : ℕ) × (s₀.proto_fd ≡ pos fd) × (fd < 2 ^ 24)

module _ (env : Env) (t : Transfers) (s₀ : Session) (keep : KeepSound s₀ t) (small : Small s₀) where
  run_command-IsSound : (text : Bytes) → Keeps (IsSound s₀) (run_command env t text)
  unfolding run_command clean_command
  run_command-IsSound text p h =
      bind-Leaves _ _ (do_command_map-IsSound env s₀ t keep (with_parts text p) h)
        λ _ q k. done-Leaves _ _ k

  handle_line-run_command :
      (text : Bytes) (p : Proc)
      → is_request text ≡ true
      → IsSound s₀ p.sess
      → handle_line env t (text ++ crlf) p ≡ run_command env t text p
  unfolding is_request run_command
  handle_line-run_command text p h (a, b, c, d, e) =
      let (fd, is_fd, below) = small in
      let clean : all plain text ≡ true = ground arith in
      let whole = without_crlf-plain text clean in
      handle_line_lem env t fd (text ++ crlf) p (c ∙ is_fd) below (no_nul-plain text clean)
        (rw whole (ground arith)) (rw whole (ground arith))
      ∙ rw whole refl

  serve-converse :
      (texts : List Bytes) (p : Proc)
      → all is_request texts ≡ true
      → IsSound s₀ p.sess
      → serve env t (map (λ text. text ++ crlf) texts) p ≡ converse env t texts p
  unfolding serve converse
  serve-converse [] p h k = refl
  serve-converse (text ∷ texts) p h k =
      then-kept (start_signal_alarm_ctrl_fd env p) _ _
        (start_signal_alarm_ctrl_fd-IsSound env s₀ p k)
        λ q l.
          rw (◌>>◌, ◌>>=◌, handle_line-run_command text q (ground arith) l)
            (then-kept (run_command env t text q) _ _ (run_command-IsSound text q l)
              λ r m. serve-converse texts r (ground arith) m)

-- A client sends texts without NUL, CR or LF, each with CR and LF behind it, short enough for the
-- arrays. However the kernel cuts these bytes into pieces and interrupts the calls, as long as none
-- fails and it goes on delivering, the process sends the greeting, runs the command of each text in
-- turn, each with the text in front of its first blank as verb and the text behind it as argument,
-- and then exits normally: no command is lost, joined to another or run twice. The socket to the
-- other process is a descriptor below 2 ^ 24, and the transfer mode and the mark of a running
-- transfer are 0 or 1 at the start.
pub handle_proto-converse :
    {W : Type 0} (d : Double W) (env : Env) (fd : ℕ) (schedule : List Arrival) (texts : List Bytes)
    (p : Proc)
    → p.sess.proto_fd ≡ pos fd
    → fd < 2 ^ 24
    → p.sess.ascii_mode ≤ 1
    → p.sess.is_translating_data ≤ 1
    → all is_request texts ≡ true
    → all read_ok schedule ≡ true
    → 2 * length (script texts) + 2048 ≤ looks schedule
    → handle_proto env (transfers d env) schedule (script texts) p
      ≡ (greet_client env >> converse env (transfers d env) texts) p
handle_proto-converse d env fd schedule texts p f small a b ok calm enough =
    let t = transfers d env in
    let s₀ = p.sess in
    let greet = greet_client env in
    let sound : IsSound s₀ s₀ = (refl, refl, refl, a, b) in
    handle_proto-serve env t schedule (script texts) calm enough p
    ∙ then-kept (greet p) _ _ (greet_client-IsSound env s₀ p sound) λ q k.
      rw (lines_of-script (suc (length (script texts))) texts (omega arith) ok)
        (serve-converse env t s₀ (transfers-KeepSound env s₀ d) (fd, f, small) texts q ok k)
