-- ===== src/Commands/Answers.antt =====
-- The commands of miniftpd/command_map.c that answer every request with one reply.
use mini_ftp.Base.{
  Each, ℕ, suc, ◌≡◌, refl, Bool, true, false, Option, none, some, List, [], ◌∷◌, if◌then◌else◌,
  Bytes, same_bytes, Option-cases, inl, inr,
}
use mini_ftp.Base.Text.{codes}
use mini_ftp.Commands.Codes
use mini_ftp.Commands.Framing.{Delivers, replied, ftp_reply_lem}
use mini_ftp.Commands.Handlers.{
  do_user, do_cwd, do_cdup, do_port, set_mode, do_type, do_rest, do_pwd, do_rmd, do_dele, do_rnfr,
  renamed, rename_to, do_rnto, do_syst, do_noop, call_or_fail,
}
use mini_ftp.Commands.Reply.{Env, ftp_reply, sys}
use mini_ftp.Session.{
  Call, chdir, rmdir, unlink, rename, Event, called, sent, sent_data, file_data, slept, Proc, done,
  M, ◌>>=◌,
}

-- The replies among the events.
abbrev pub replies : List Event → ℕ
replies [] = 0
replies (called c ∷ es) = replies es
replies (sent b ∷ es) = suc (replies es)
replies (sent_data b ∷ es) = replies es
replies (file_data b ∷ es) = replies es
replies (slept s n ∷ es) = replies es

-- From any state the command returns, and has then sent one reply.
abbrev pub Answers : M (Unit {0}) → Type 0
Answers m = (p : Proc) → (q : Proc) × (m p ≡ done tt q) × (replies q.trace ≡ suc (replies p.trace))

if-Answers : (b : Bool) {m n : M (Unit {0})} → Answers m → Answers n → Answers (if b then m else n)
if-Answers true h k = h
if-Answers false h k = k

module _ (env : Env) where
  abbrev pub answering : List (M (Unit {0}))
  answering =
      do_user env
      ∷ do_cwd env
      ∷ do_cdup env
      ∷ do_port env
      ∷ do_type env
      ∷ do_rest env
      ∷ do_pwd env
      ∷ do_rmd env
      ∷ do_dele env
      ∷ do_rnfr env
      ∷ do_rnto env
      ∷ do_syst env
      ∷ do_noop env
      ∷ []

  module _ (d : Delivers env) where
    reply-Answers : (status : ℕ) (text : Bytes) → Answers (ftp_reply env status text)
    reply-Answers status text p = (replied status text p, ftp_reply_lem env status text p d, refl)

    -- A system call before the answer, and what it returns.
    sys-Answers :
        (c : Call) {k : Bool → M (Unit {0})}
        → ((b : Bool) → Answers (k b))
        → Answers (sys env c >>= k)
    unfolding sys
    sys-Answers c h p = h (env.succeeds p.trace c) (record p { trace = called c ∷ p.trace })

    call_or_fail-Answers :
        (c : Call) (failure : Bytes) (status : ℕ) (success : Bytes)
        → Answers (call_or_fail env c failure status success)
    unfolding call_or_fail
    call_or_fail-Answers c failure status success =
        sys-Answers c
          (λ b. if-Answers b (reply-Answers status success) (reply-Answers Codes.file_fail failure))

    user-Answers : Answers (do_user env)
    unfolding do_user
    user-Answers p = elim (Option-cases (env.getpwnam p.trace p.sess.args)) [
      | inl e ↦ rw (e, do_user) (reply-Answers _ _ p)
      | inr (pw, e) ↦
          rw (e, do_user)
            (reply-Answers _ _ (record p { sess = record p.sess { user_uid = pw.pw_uid } }))
    ]

    cwd-Answers : Answers (do_cwd env)
    unfolding do_cwd
    cwd-Answers p = call_or_fail-Answers (chdir p.sess.args) _ _ _ p

    cdup-Answers : Answers (do_cdup env)
    unfolding do_cdup
    cdup-Answers p = call_or_fail-Answers (chdir (codes "..")) _ _ _ p

    rmd-Answers : Answers (do_rmd env)
    unfolding do_rmd
    rmd-Answers p = call_or_fail-Answers (rmdir p.sess.args) _ _ _ p

    dele-Answers : Answers (do_dele env)
    unfolding do_dele
    dele-Answers p = call_or_fail-Answers (unlink p.sess.args) _ _ _ p

    port-Answers : Answers (do_port env)
    unfolding do_port
    port-Answers p = reply-Answers _ _ (record p { sess = _ })

    set_mode-Answers : (mode : ℕ) (text : Bytes) → Answers (set_mode env mode text)
    unfolding set_mode
    set_mode-Answers mode text p =
        reply-Answers Codes.type_ok text (record p { sess = record p.sess { ascii_mode = mode } })

    type-Answers : Answers (do_type env)
    unfolding do_type
    type-Answers p =
        if-Answers (same_bytes p.sess.args (codes "A")) (set_mode-Answers 1 _)
          (if-Answers (same_bytes p.sess.args (codes "I")) (set_mode-Answers 0 _)
            (reply-Answers _ _))
          p

    rest-Answers : Answers (do_rest env)
    unfolding do_rest
    rest-Answers p =
        reply-Answers _ _
          (record p { sess = record p.sess { restart_pos = env.atoll p.sess.args } })

    pwd-Answers : Answers (do_pwd env)
    unfolding do_pwd
    pwd-Answers p = elim (Option-cases (env.getcwd p.trace)) [
      | inl e ↦ rw (e, do_pwd) (reply-Answers _ _ p)
      | inr (path, e) ↦ rw (e, do_pwd) (reply-Answers _ _ p)
    ]

    rnfr-Answers : Answers (do_rnfr env)
    unfolding do_rnfr
    rnfr-Answers p =
        reply-Answers _ _ (record p { sess = record p.sess { rnfr_name = some p.sess.args } })

    renamed-Answers : Answers (renamed env)
    unfolding renamed
    renamed-Answers p = reply-Answers _ _ (record p { sess = record p.sess { rnfr_name = none } })

    rename_to-Answers : (from : Option Bytes) (to : Bytes) → Answers (rename_to env from to)
    unfolding rename_to
    rename_to-Answers none to = reply-Answers _ _
    rename_to-Answers (some name) to =
        sys-Answers (rename name to) (λ b. if-Answers b renamed-Answers (reply-Answers _ _))

    rnto-Answers : Answers (do_rnto env)
    unfolding do_rnto
    rnto-Answers p = rename_to-Answers p.sess.rnfr_name p.sess.args p

  -- On a connection that takes all bytes without failure, USER, CWD, CDUP, PORT, TYPE, REST, PWD,
  -- RMD, DELE, RNFR, RNTO, SYST and NOOP return from every state with one more reply sent, whatever
  -- their argument and whatever the system answers.
  pub answering-Answers : Delivers env → Each Answers answering
  unfolding do_syst do_noop
  answering-Answers d = (
    user-Answers d,
    (
      cwd-Answers d,
      (
        cdup-Answers d,
        (
          port-Answers d,
          (
            type-Answers d,
            (
              rest-Answers d,
              (
                pwd-Answers d,
                (
                  rmd-Answers d,
                  (
                    dele-Answers d,
                    (
                      rnfr-Answers d,
                      (
                        rnto-Answers d,
                        (reply-Answers d Codes.syst_ok _, (reply-Answers d Codes.greet _, tt)),
                      ),
                    ),
                  ),
                ),
              ),
            ),
          ),
        ),
      ),
    ),
  )
