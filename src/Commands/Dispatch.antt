-- ===== src/Commands/Dispatch.antt =====
-- How `do_command_map` of miniftpd/command_map.c finds the command of a verb.
use mini_ftp.Base.{
  Each, ℕ, ◌≡◌, refl, sym, ap, ◌∙◌, Bool, true, false, Option, none, some, List, [], ◌∷◌,
  if◌then◌else◌, Bool-cases, same_bytes, same_bytes_iff, Bytes, arith, ltb, length, inl, inr,
}
use mini_ftp.Base.Text.{codes}
use mathlib.Core.Path.{subst}
use mini_ftp.Commands.Codes
use mini_ftp.Commands.Reply.{Env, ftp_reply}
use mini_ftp.Commands.Table.{
  Transfers, Command, ctrl_cmds, run_handler, command_loop, do_command_map,
}
use mini_ftp.Session.{Proc, M, done, pure}
use mini_ftp.Strutil.{toupper, str_upper}

-- The handler that a table names first for a verb: none where the table has no such verb.
abbrev pub handler_of : List Command → Bytes → Option (Option (M (Unit {0})))
handler_of [] verb = none
handler_of (c ∷ cs) verb =
    let rest = handler_of cs verb in if same_bytes c.name verb then some c.cmd_handler else rest

-- What the client gets for a verb.
abbrev pub answer : Env → Option (Option (M (Unit {0}))) → M (Unit {0})
answer env none = ftp_reply env Codes.bad_cmd (codes "Unknow command.")
answer env (some none) = ftp_reply env Codes.command_not_impl (codes "Unimplement command.")
answer env (some (some handler)) = handler

abbrev pub upper_comm : Proc → Proc
upper_comm p = record p { sess = record p.sess { comm = str_upper p.sess.comm } }

toupper_twice : (c : ℕ) → toupper (toupper c) ≡ toupper c
toupper_twice c = ground arith

str_upper_twice : (s : Bytes) → str_upper (str_upper s) ≡ str_upper s
unfolding str_upper
str_upper_twice [] = refl
str_upper_twice (c ∷ cs) = cc (toupper_twice c, str_upper_twice cs)

-- One round of the loop.
loop_round :
    (env : Env) (c : Command) (cs : List Command) (p : Proc)
    → command_loop env (c ∷ cs) p
      ≡ (if same_bytes c.name (str_upper p.sess.comm)
            then run_handler env c.cmd_handler
            else command_loop env cs)
          (upper_comm p)
unfolding command_loop
loop_round env c cs p = refl

run_answer : (env : Env) (h : Option (M (Unit {0}))) → run_handler env h ≡ answer env (some h)
unfolding run_handler
run_answer env none = refl
run_answer env (some handler) = refl

-- One round, where the verb is upper case, is one step of the search.
round_upper :
    (env : Env) (c : Command) (cs : List Command) (p : Proc)
    → (command_loop env cs p ≡ answer env (handler_of cs p.sess.comm) p)
    → (if same_bytes c.name p.sess.comm then run_handler env c.cmd_handler else command_loop env cs)
        p
      ≡ answer env (handler_of (c ∷ cs) p.sess.comm) p
round_upper env c cs p rest = elim (Bool-cases (same_bytes c.name p.sess.comm)) [
  | inl e ↦ rw e (ap (λ m. m p) (run_answer env c.cmd_handler))
  | inr e ↦ rw e rest
]

-- The loop at a state whose verb is upper case already.
loop_upper :
    (env : Env) (cs : List Command) (p : Proc)
    → str_upper p.sess.comm ≡ p.sess.comm
    → command_loop env cs p ≡ answer env (handler_of cs p.sess.comm) p
unfolding command_loop
loop_upper env [] p h = refl
loop_upper env (c ∷ cs) p h =
    loop_round env c cs p ∙ rw h (round_upper env c cs p (loop_upper env cs p h))

-- The search for any verb looks for its upper case.
loop_lem :
    (env : Env) (c : Command) (cs : List Command) (p : Proc)
    → command_loop env (c ∷ cs) p
      ≡ answer env (handler_of (c ∷ cs) (str_upper p.sess.comm)) (upper_comm p)
loop_lem env c cs p =
    loop_round env c cs p
    ∙ round_upper env c cs (upper_comm p)
        (loop_upper env cs (upper_comm p) (str_upper_twice p.sess.comm))

loop_nonempty :
    (env : Env) (cs : List Command) (p : Proc)
    → ltb 0 (length cs) ≡ true
    → command_loop env cs p ≡ answer env (handler_of cs (str_upper p.sess.comm)) (upper_comm p)
loop_nonempty env [] p h = ground arith
loop_nonempty env (c ∷ cs) p h = loop_lem env c cs p

-- For any verb, the command is the first one of the table with the verb's upper case as its name.
-- It runs in a state that differs only in the verb, now upper case. A verb with no name gets 500,
-- and a name with no handler 502.
pub do_command_map_lem :
    (env : Env) (transfers : Transfers) (p : Proc)
    → do_command_map env transfers p
      ≡ answer env (handler_of (ctrl_cmds env transfers) (str_upper p.sess.comm)) (upper_comm p)
unfolding do_command_map ctrl_cmds
do_command_map_lem env transfers p = loop_nonempty env (ctrl_cmds env transfers) p refl

-- Two verbs that differ only in case do the same.
do_command_map_case :
    (env : Env) (transfers : Transfers) (p : Proc) (verb : Bytes)
    → str_upper verb ≡ str_upper p.sess.comm
    → do_command_map env transfers (record p { sess = record p.sess { comm = verb } })
      ≡ do_command_map env transfers p
do_command_map_case env transfers p verb h =
    do_command_map_lem env transfers (record p { sess = record p.sess { comm = verb } })
    ∙ (rw h refl ∙ sym (do_command_map_lem env transfers p))

-- The verbs whose command has an empty body.
abbrev silent_verbs : List Bytes
silent_verbs =
    codes "STRU"
    ∷ codes "MODE"
    ∷ codes "ABOR"
    ∷ (0o377 ∷ 0o364 ∷ 0o377 ∷ 0o362 ∷ codes "ABOR")
    ∷ codes "SITE"
    ∷ codes "SIZE"
    ∷ codes "STAT"
    ∷ codes "HELP"
    ∷ []

abbrev pub one_of : List Bytes → Bytes → Bool
one_of [] verb = false
one_of (name ∷ names) verb =
    let rest = one_of names verb in if same_bytes name verb then true else rest

-- What holds of each name holds of a verb that is one of them.
each_of :
    (P : Bytes → Type 0) (names : List Bytes)
    → Each P names
    → (verb : Bytes) → one_of names verb ≡ true
    → P verb
each_of P [] a verb h = ground arith
each_of P (name ∷ names) a verb h = elim (Bool-cases (same_bytes name verb)) [
  | inl e ↦ subst P ((same_bytes_iff name verb).0 e) a.0
  | inr e ↦ each_of P names a.1 verb (ground arith)
]

-- The verbs with an empty body only become upper case: no reply is sent, and nothing else is done.
do_command_map_silent :
    (env : Env) (transfers : Transfers) (p : Proc)
    → one_of silent_verbs (str_upper p.sess.comm) ≡ true
    → do_command_map env transfers p ≡ done tt (upper_comm p)
unfolding ctrl_cmds same_bytes
do_command_map_silent env transfers p h =
    do_command_map_lem env transfers p
    ∙ ap (λ o. answer env o (upper_comm p))
        (each_of (λ verb. handler_of (ctrl_cmds env transfers) verb ≡ some (some (pure tt)))
          silent_verbs (refl, (refl, (refl, (refl, (refl, (refl, (refl, (refl, tt))))))))
          (str_upper p.sess.comm) h)
