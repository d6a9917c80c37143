-- ===== src/Commands/Renaming.antt =====
-- RNFR and RNTO of miniftpd/command_map.c.
use mini_ftp.Base.{◌≡◌, sym, ◌∙◌, inl, inr, none, some, ◌∷◌, if◌then◌else◌, Bool-cases, Bytes, take}
use mini_ftp.Base.Text.{codes}
use mathlib.Core.Path.{subst}
use mini_ftp.Commands.Codes
use mini_ftp.Commands.Framing.{Delivers, framed, replied, ftp_reply_lem}
use mini_ftp.Commands.Handlers.{do_rnfr, renamed, rename_to, do_rnto}
use mini_ftp.Commands.Login.{calls, proc_of, ftp_reply-calls}
use mini_ftp.Commands.Reply.{Env, sys}
use mini_ftp.Session.{rename, called, sent, Proc, done, M, ◌>>=◌, seq-done, ◌>>◌, modify}

-- RNTO with no RNFR before it renames nothing.
do_rnto_first :
    (env : Env) (p : Proc)
    → p.sess.rnfr_name ≡ none
    → (calls (proc_of (do_rnto env p)).trace ≡ calls p.trace)
      × ((proc_of (do_rnto env p)).sess ≡ p.sess)
unfolding do_rnto rename_to
do_rnto_first env p e =
    subst
      (λ o.
        (calls (proc_of (rename_to env o p.sess.args p)).trace ≡ calls p.trace)
        × ((proc_of (rename_to env o p.sess.args p)).sess ≡ p.sess))
      (sym e) (ftp_reply-calls env Codes.need_rnfr (codes "RNFR required first.") p)

-- RNFR with one path, and RNTO with another behind it.
abbrev pub rename_pair : Env → Bytes → Bytes → M (Unit {0})
rename_pair env from to = do
  modify (λ s. record s { args = from })
  do_rnfr env
  modify (λ s. record s { args = to })
  do_rnto env

-- The state behind the RNFR, where the `rename` is made.
abbrev pub ready : Bytes → Bytes → Proc → Proc
ready from to p = record p {
  sess = record p.sess { args = to; rnfr_name = some from };
  trace = sent (take 1023 (framed Codes.rnfr_ok (codes "Ready for RNTO."))) ∷ p.trace;
}

rnfr_step :
    (env : Env) (from to : Bytes) (p : Proc)
    → Delivers env
    → rename_pair env from to p ≡ rename_to env (some from) to (ready from to p)
unfolding do_rnfr do_rnto
rnfr_step env from to p d =
    seq-done (do_rnfr env) _ (record p { sess = record p.sess { args = from } })
      (ftp_reply_lem env Codes.rnfr_ok (codes "Ready for RNTO.")
        (record p { sess = record p.sess { args = from; rnfr_name = some from } }) d)

-- The state behind the RNTO: the reply depends on the call, and the name is forgotten with it.
abbrev pub renamed_by : Env → Bytes → Bytes → Proc → Proc
renamed_by env from to p =
    let q = record p { trace = called (rename from to) ∷ p.trace } in
    if env.succeeds p.trace (rename from to)
    then replied Codes.rename_ok (codes "Rename successful.")
        (record q { sess = record p.sess { rnfr_name = none } })
    else replied Codes.file_fail (codes "Rename failed.") q

rnto_step :
    (env : Env) (from to : Bytes) (p : Proc)
    → Delivers env
    → rename_to env (some from) to p ≡ done tt (renamed_by env from to p)
unfolding rename_to renamed sys
rnto_step env from to p d = elim (Bool-cases (env.succeeds p.trace (rename from to))) [
  | inl e ↦ rw (e, ◌>>=◌) (ftp_reply_lem env Codes.rename_ok (codes "Rename successful.") _ d)
  | inr e ↦ rw (e, ◌>>=◌) (ftp_reply_lem env Codes.file_fail (codes "Rename failed.") _ d)
]

-- On a connection that takes all bytes without failure, the pair renames the path of the RNFR to
-- that of the RNTO, whatever was named before, with a reply to each. The name is forgotten if the
-- call succeeds, and kept after a failure.
pub rename_pair_lem :
    (env : Env) (from to : Bytes) (p : Proc)
    → Delivers env
    → rename_pair env from to p ≡ done tt (renamed_by env from to (ready from to p))
rename_pair_lem env from to p d =
    rnfr_step env from to p d ∙ rnto_step env from to (ready from to p) d
