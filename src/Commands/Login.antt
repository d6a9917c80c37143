-- ===== src/Commands/Login.antt =====
-- PASS of miniftpd/command_map.c: who is logged in, and by which calls.
use mini_ftp.Base.{
  ℕ, ◌≡◌, ◌≢◌, refl, ap, ◌∙◌, inl, inr, true, some, List, [], ◌∷◌, arith, Bool-cases, Option-cases,
  same_bytes, same_bytes_iff, Bytes, take,
}
use mini_ftp.Base.Text.{codes}
use mini_ftp.Commands.Codes
use mini_ftp.Commands.Framing.{Delivers, framed, ftp_reply_lem}
use mini_ftp.Commands.Handlers.{must, log_in, check_password, do_pass}
use mini_ftp.Commands.Reply.{Passwd, Env, control_write, ftp_reply, sys}
use mini_ftp.Session.{
  Call, setegid, seteuid, umask, chdir, Event, called, sent, sent_data, file_data, slept, Proc, Out,
  done, exited, killed, hung, faulted, seq-done,
}

-- The system calls among the events, and the state that an outcome leaves.
abbrev pub calls : List Event → List Call
calls [] = []
calls (called c ∷ es) = c ∷ calls es
calls (sent b ∷ es) = calls es
calls (sent_data b ∷ es) = calls es
calls (file_data b ∷ es) = calls es
calls (slept s n ∷ es) = calls es

abbrev pub proc_of : {A : Type 0} → Out A → Proc
proc_of (done a p) = p
proc_of (exited n p) = p
proc_of (killed p) = p
proc_of (hung p) = p
proc_of (faulted p) = p

-- A reply makes no call but `write`, and changes nothing in the session.
pub ftp_reply-calls :
    (env : Env) (status : ℕ) (text : Bytes) (p : Proc)
    → (calls (proc_of (ftp_reply env status text p)).trace ≡ calls p.trace)
      × ((proc_of (ftp_reply env status text p)).sess ≡ p.sess)
unfolding ftp_reply control_write
ftp_reply-calls env status text p = ground arith

-- The password in `args` encrypts to the stored one of the user that USER found.
abbrev pub Authentic : Env → Proc → Passwd → Bytes → Type 0
Authentic env p pw stored =
    (env.getpwuid p.trace p.sess.user_uid ≡ some pw)
    × (env.getspnam p.trace pw.pw_name ≡ some stored)
    × (env.crypt p.sess.args stored ≡ some stored)

check_password-calls :
    (env : Env) (pw : Passwd) (stored : Bytes) (p : Proc)
    → env.crypt p.sess.args stored ≢ some stored
    → (calls (proc_of (check_password env pw stored p)).trace ≡ calls p.trace)
      × ((proc_of (check_password env pw stored p)).sess ≡ p.sess)
unfolding check_password
check_password-calls env pw stored p wrong = elim (Option-cases (env.crypt p.sess.args stored)) [
  | inl e ↦ rw (e, check_password) (refl, refl)
  | inr (text, e) ↦ elim (Bool-cases (same_bytes text stored)) [
    | inl same ↦ absurd (wrong (e ∙ ap some ((same_bytes_iff text stored).0 same)))
    | inr differs ↦ rw (e, check_password, differs) (ftp_reply-calls env _ _ p)
  ]
]

-- Whatever the client sends, unless it is the password of the user no call is made: neither the
-- identity nor the directory of the process changes, and the session stays as it is.
pub do_pass_refused :
    (env : Env) (p : Proc)
    → ((pw : Passwd) (stored : Bytes) → ¬ Authentic env p pw stored)
    → (calls (proc_of (do_pass env p)).trace ≡ calls p.trace)
      × ((proc_of (do_pass env p)).sess ≡ p.sess)
unfolding do_pass
do_pass_refused env p refused = elim (Option-cases (env.getpwuid p.trace p.sess.user_uid)) [
  | inl e ↦ rw (e, do_pass) (ftp_reply-calls env _ _ p)
  | inr (pw, e) ↦ elim (Option-cases (env.getspnam p.trace pw.pw_name)) [
    | inl f ↦ rw (e, do_pass, f) (ftp_reply-calls env _ _ p)
    | inr (stored, f) ↦
        rw (e, do_pass, f) (check_password-calls env pw stored p (λ g. refused pw stored (e, f, g)))
  ]
]

-- Every call succeeds.
abbrev pub Succeeds : Env → Type 0
Succeeds env = (trace : List Event) (c : Call) → env.succeeds trace c ≡ true

-- The events of a login, the last first. The group is given up before the user, and both before the
-- change to the home directory; the last call is on a path named `sess->args`.
abbrev pub logged_in : Env → Passwd → List Event → List Event
logged_in env pw trace =
    called (chdir (codes "sess->args"))
    ∷ sent (take 1023 (framed Codes.login_ok (codes "Login successful.")))
    ∷ called (umask env.config.local_umask)
    ∷ called (chdir pw.pw_dir)
    ∷ called (seteuid pw.pw_uid)
    ∷ called (setegid pw.pw_gid)
    ∷ trace

must_lem :
    (env : Env) (c : Call) (p : Proc)
    → Succeeds env
    → must env c p ≡ done tt (record p { trace = called c ∷ p.trace })
unfolding must sys
must_lem env c p s = rw (s p.trace c) refl

log_in_lem :
    (env : Env) (pw : Passwd) (p : Proc)
    → Delivers env
    → Succeeds env
    → log_in env pw p ≡ done tt (record p { trace = logged_in env pw p.trace })
unfolding log_in sys
log_in_lem env pw p d s =
    seq-done (must env (setegid pw.pw_gid)) _ p (must_lem env (setegid pw.pw_gid) p s)
    ∙ (seq-done (must env (seteuid pw.pw_uid)) _ _ (must_lem env (seteuid pw.pw_uid) _ s)
        ∙ (seq-done (must env (chdir pw.pw_dir)) _ _ (must_lem env (chdir pw.pw_dir) _ s)
            ∙ seq-done (ftp_reply env Codes.login_ok (codes "Login successful.")) _ _
                (ftp_reply_lem env Codes.login_ok (codes "Login successful.") _ d)))

check_password_lem :
    (env : Env) (pw : Passwd) (stored : Bytes) (p : Proc)
    → env.crypt p.sess.args stored ≡ some stored
    → check_password env pw stored p ≡ log_in env pw p
unfolding check_password
check_password_lem env pw stored p g =
    rw (g, check_password, (same_bytes_iff stored stored).1 refl) refl

-- With the password of the user, where the calls succeed and the connection takes all bytes without
-- failure, the login makes these calls in this order, and replies once.
pub do_pass_granted :
    (env : Env) (p : Proc) (pw : Passwd) (stored : Bytes)
    → Delivers env
    → Succeeds env
    → Authentic env p pw stored
    → do_pass env p ≡ done tt (record p { trace = logged_in env pw p.trace })
unfolding do_pass
do_pass_granted env p pw stored d s (e, f, g) =
    rw (e, do_pass, f) (check_password_lem env pw stored p g ∙ log_in_lem env pw p d s)
