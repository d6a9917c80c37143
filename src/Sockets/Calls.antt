-- ===== src/Sockets/Calls.antt =====
-- The system calls of a process of which none fails.
use mini_ftp.Base.{◌≡◌, refl, true, ◌∷◌}
use mini_ftp.Commands.Login.{Succeeds}
use mini_ftp.Commands.Reply.{Env, sys}
use mini_ftp.Session.{Call, called, Proc, done, bind-done}
use mini_ftp.Sockets.{need}

pub sys-Succeeds :
    (env : Env) (c : Call) (p : Proc)
    → Succeeds env
    → sys env c p ≡ done true (record p { trace = called c ∷ p.trace })
unfolding sys
sys-Succeeds env c p h = rw (h p.trace c) refl

pub need-Succeeds :
    (env : Env) (c : Call) (p : Proc)
    → Succeeds env
    → need env c p ≡ done tt (record p { trace = called c ∷ p.trace })
unfolding need
need-Succeeds env c p h = bind-done (sys env c) _ p (sys-Succeeds env c p h)
