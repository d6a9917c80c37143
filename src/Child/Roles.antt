-- ===== src/Child/Roles.antt =====
-- Which end of the socket each of the two processes of miniftpd/session.c holds.
use mini_ftp.Base.{ℕ, ◌≤◌, ◌≡◌, ◌∙◌, refl, some, List, ◌∷◌, Bytes}
use mini_ftp.Base.Int.{pos, minus_one}
use mini_ftp.Child.{Forked, child, parent, fork_failed, session_roles, session_begin}
use mini_ftp.Commands.Reply.{Env, sys}
use mini_ftp.Commands.Table.{Transfers}
use mini_ftp.Nobody.Sound.{handle_nobody-IsSound}
use mini_ftp.Nobody.{handle_nobody}
use mini_ftp.PrivSock.{
  priv_sock_init, close_unless_minus_one, priv_sock_set_nobody_context, priv_sock_set_proto_context,
}
use mini_ftp.Proto.Sound.{handle_proto-IsSound}
use mini_ftp.Proto.{handle_proto}
use mini_ftp.Session.Invariant.{Leaves}
use mini_ftp.Session.{called, close, socketpair, Session, Proc, done, M, pure, seq-done}
use mini_ftp.Sysutil.{Arrival}
use mini_ftp.TransCtrl.{Double}
use mini_ftp.TransData.Transfer.{transfers}

-- The descriptors of a process for the ends of the socket.
abbrev pub paired : ℕ → ℕ → Session → Session
paired near far s = record s { nobody_fd = pos near; proto_fd = pos far }

-- The descriptors that are left once the process has its role.
abbrev pub Role : Forked → ℕ → ℕ → Session → Session → Type 0
Role child near far s₀ s =
    (s.peerfd ≡ s₀.peerfd) × (s.nobody_fd ≡ minus_one) × (s.proto_fd ≡ pos far)
Role parent near far s₀ s =
    (s.peerfd ≡ s₀.peerfd) × (s.nobody_fd ≡ pos near) × (s.proto_fd ≡ minus_one)
Role fork_failed near far s₀ s =
    (s.peerfd ≡ s₀.peerfd) × (s.nobody_fd ≡ pos near) × (s.proto_fd ≡ pos far)

-- The state behind `priv_sock_init`.
abbrev pub with_pair : ℕ → ℕ → Proc → Proc
with_pair near far p = record p {
  sess = paired near far p.sess;
  trace = called socketpair ∷ p.trace;
}

pub priv_sock_init_lem :
    (env : Env) (near far : ℕ) (p : Proc)
    → env.kernel.socketpair p.trace ≡ some (near, far)
    → priv_sock_init env p ≡ done tt (with_pair near far p)
unfolding priv_sock_init
priv_sock_init_lem env near far p e = rw (e, priv_sock_init) refl

-- The states behind the two functions that close the other end.
abbrev pub as_proto : Proc → Proc
as_proto p = record p {
  sess = record p.sess { nobody_fd = minus_one };
  trace = called (close p.sess.nobody_fd) ∷ p.trace;
}

abbrev pub as_nobody : Proc → Proc
as_nobody p = record p {
  sess = record p.sess { proto_fd = minus_one };
  trace = called (close p.sess.proto_fd) ∷ p.trace;
}

pub proto_context_lem :
    (env : Env) (near far : ℕ) (p : Proc)
    → priv_sock_set_proto_context env (with_pair near far p)
      ≡ done tt (as_proto (with_pair near far p))
unfolding priv_sock_set_proto_context close_unless_minus_one sys
proto_context_lem env near far p = refl

pub nobody_context_lem :
    (env : Env) (near far : ℕ) (p : Proc)
    → priv_sock_set_nobody_context env (with_pair near far p)
      ≡ done tt (as_nobody (with_pair near far p))
unfolding priv_sock_set_nobody_context close_unless_minus_one sys
nobody_context_lem env near far p = refl

-- What each process does behind `session_begin`.
module _ (env : Env) (t : Transfers) (near far : ℕ) (schedule : List Arrival) (stream : Bytes)
    (p : Proc) (pair : env.kernel.socketpair p.trace ≡ some (near, far)) where
  begin_lem :
      (forked : Forked)
      → session_begin env t forked schedule stream p
        ≡ session_roles env t forked schedule stream (with_pair near far p)
  unfolding session_begin
  begin_lem forked =
      seq-done (priv_sock_init env) (session_roles env t forked schedule stream) p
        (priv_sock_init_lem env near far p pair)

  pub begin-child :
      session_begin env t child schedule stream p
      ≡ handle_proto env t schedule stream (as_proto (with_pair near far p))
  unfolding session_roles
  begin-child =
      begin_lem child
      ∙ seq-done (priv_sock_set_proto_context env) (handle_proto env t schedule stream) _
          (proto_context_lem env near far p)

  pub begin-parent :
      session_begin env t parent schedule stream p
      ≡ handle_nobody env (as_nobody (with_pair near far p))
  unfolding session_roles
  begin-parent =
      begin_lem parent
      ∙ seq-done (priv_sock_set_nobody_context env) (handle_nobody env) _
          (nobody_context_lem env near far p)

  pub begin-fork_failed :
      session_begin env t fork_failed schedule stream p ≡ done tt (with_pair near far p)
  unfolding session_roles
  begin-fork_failed = begin_lem fork_failed

-- What each process runs behind its start, and the state in which it starts that: the session with
-- one end, and the calls so far, the last first.
abbrev pub role_run : Env → Transfers → Forked → List Arrival → Bytes → M (Unit {0})
role_run env t child schedule stream = handle_proto env t schedule stream
role_run env t parent schedule stream = handle_nobody env
role_run env t fork_failed schedule stream = pure tt

abbrev pub role_start : Forked → ℕ → ℕ → Proc → Proc
role_start child near far p = record p {
  sess = record p.sess { nobody_fd = minus_one; proto_fd = pos far };
  trace = called (close (pos near)) ∷ called socketpair ∷ p.trace;
}
role_start parent near far p = record p {
  sess = record p.sess { nobody_fd = pos near; proto_fd = minus_one };
  trace = called (close (pos far)) ∷ called socketpair ∷ p.trace;
}
role_start fork_failed near far p = record p {
  sess = record p.sess { nobody_fd = pos near; proto_fd = pos far };
  trace = called socketpair ∷ p.trace;
}

-- Once `socketpair` has returned its two ends, each process calls `close` on the one of the other and
-- then runs its loop: the process of the commands closes the first and the other process the second;
-- where `fork` fails, neither is closed and the function returns. In whatever state the loop stops,
-- the session has the own end as its descriptor and -1 for the other, for all bytes that the client
-- sends, and all that arrives between the processes; and the connection with the client is the same.
-- The transfer mode and the mark of a running transfer are 0 or 1 at the start.
pub session_begin-Role :
    {W : Type 0} (d : Double W) (env : Env) (near far : ℕ) (forked : Forked)
    (schedule : List Arrival) (stream : Bytes) (p : Proc)
    → env.kernel.socketpair p.trace ≡ some (near, far)
    → p.sess.ascii_mode ≤ 1
    → p.sess.is_translating_data ≤ 1
    → (session_begin env (transfers d env) forked schedule stream p
        ≡ role_run env (transfers d env) forked schedule stream (role_start forked near far p))
      × Leaves
          (Role forked near far p.sess)
          (session_begin env (transfers d env) forked schedule stream p)
session_begin-Role d env near far child schedule stream p pair a b =
    let q = as_proto (with_pair near far p) in
    let kept = handle_proto-IsSound d env q.sess schedule stream q (refl, refl, refl, a, b) in
    let (peer, nobody, proto, _, _) = kept.holds in
    let e = begin-child env (transfers d env) near far schedule stream p pair in
    (e, rw e (record { holds = (peer, nobody, proto) }))
session_begin-Role d env near far parent schedule stream p pair a b =
    let q = as_nobody (with_pair near far p) in
    let kept = handle_nobody-IsSound env q.sess q (refl, refl, refl, a, b) in
    let (peer, nobody, proto, _, _) = kept.holds in
    let e = begin-parent env (transfers d env) near far schedule stream p pair in
    (e, rw e (record { holds = (peer, nobody, proto) }))
session_begin-Role d env near far fork_failed schedule stream p pair a b =
    let e = begin-fork_failed env (transfers d env) near far schedule stream p pair in
    (e, rw e (record { holds = (refl, refl, refl) }))
