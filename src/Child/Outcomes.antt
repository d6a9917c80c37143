-- ===== src/Child/Outcomes.antt =====
-- When the child of miniftpd/main.c comes back to the accept loop of its parent.
use mini_ftp.Base.{ℕ, zero, suc, ◌≡◌, refl, ◌∙◌, Bool, true, false, some, List, ◌∷◌, Bytes, length}
use mini_ftp.Base.Int.{pos}
use mini_ftp.Child.Roles.{begin-child, begin-parent, begin-fork_failed}
use mini_ftp.Child.{
  Forked, child, parent, fork_failed, turn_away, limit_clients, session_begin, child_begin,
}
use mini_ftp.Clients.{Counts, admitted, limit_num_clients}
use mini_ftp.Commands.Reply.{Env, sys}
use mini_ftp.Commands.Table.{Transfers}
use mini_ftp.Nobody.{nobody_round, nobody_loop, set_nobody, set_bind_capabilities, handle_nobody}
use mini_ftp.Proto.{greet_client, handle_line, proto_round, proto_loop, handle_proto}
use mini_ftp.Session.{called, close, Proc, Out, done, exited, killed, hung, faulted, M, ◌>>◌}
use mini_ftp.Sysutil.{Arrival, Line, line, ended, broke, readline}
use mini_ftp.TransCtrl.{start_signal_alarm_ctrl_fd}

-- Whether a computation came back.
abbrev pub returns : {A : Type 0} → Out A → Bool
returns (done a q) = true
returns (exited n q) = false
returns (killed q) = false
returns (hung q) = false
returns (faulted q) = false

module _ {A B : Type 0} where
  returns_bind :
      (o : Out A) (k : A → M B)
      → ((a : A) (q : Proc) → returns (k a q) ≡ false)
      → returns (
          let whole : Out B = elim o [
            | done a q ↦ k a q
            | exited n q ↦ exited n q
            | killed q ↦ killed q
            | hung q ↦ hung q
            | faulted q ↦ faulted q
          ] in
          whole)
        ≡ false
  returns_bind (done a q) k h = h a q
  returns_bind (exited n q) k h = refl
  returns_bind (killed q) k h = refl
  returns_bind (hung q) k h = refl
  returns_bind (faulted q) k h = refl

module _ (env : Env) (t : Transfers) where
  proto_round-returns :
      (l : Line) (next : List Arrival → Bytes → M (Unit {0}))
      → ((s : List Arrival) (rest : Bytes) (q : Proc) → returns (next s rest q) ≡ false)
      → (p : Proc) → returns (proto_round env t l next p) ≡ false
  unfolding proto_round
  proto_round-returns (line buf rest s) next h p =
      returns_bind (handle_line env t buf p) _ λ _ q. h s rest q
  proto_round-returns ended next h p = refl
  proto_round-returns broke next h p = refl
  proto_round-returns Line.hung next h p = refl

  proto_loop-returns :
      (fuel : ℕ) (schedule : List Arrival) (stream : Bytes) (p : Proc)
      → returns (proto_loop env t fuel schedule stream p) ≡ false
  unfolding proto_loop
  proto_loop-returns zero schedule stream p = refl
  proto_loop-returns (suc fuel) schedule stream p =
      returns_bind (start_signal_alarm_ctrl_fd env p) _
        λ _ q. proto_round-returns (readline schedule stream 1024) _ (proto_loop-returns fuel) q

  handle_proto-returns :
      (schedule : List Arrival) (stream : Bytes) (p : Proc)
      → returns (handle_proto env t schedule stream p) ≡ false
  unfolding handle_proto
  handle_proto-returns schedule stream p =
      returns_bind (greet_client env p) _
        λ _ q. proto_loop-returns (suc (length stream)) schedule stream q

nobody_loop-returns : (env : Env) (fuel : ℕ) (p : Proc) → returns (nobody_loop env fuel p) ≡ false
unfolding nobody_loop
nobody_loop-returns env zero p = refl
nobody_loop-returns env (suc fuel) p =
    returns_bind (nobody_round env p) _ λ _ q. nobody_loop-returns env fuel q

handle_nobody-returns : (env : Env) (p : Proc) → returns (handle_nobody env p) ≡ false
unfolding handle_nobody
handle_nobody-returns env p = returns_bind (set_nobody env p) _ λ _ q.
    returns_bind (set_bind_capabilities env q) _
      λ _ r. nobody_loop-returns env (suc (length r.wire.inbox)) r

abbrev pub is_fork_failed : Forked → Bool
is_fork_failed child = false
is_fork_failed parent = false
is_fork_failed fork_failed = true

-- The counts that the process copied from its parent, and the state behind the limits.
abbrev pub counts_of : Proc → Counts
counts_of p = record {
  curr_clients = p.sess.curr_clients;
  curr_ip_clients = p.sess.curr_ip_clients;
}

abbrev pub taken : ℕ → ℕ → Proc → Proc
taken listenfd peerfd p = record p {
  sess = record p.sess { peerfd = pos peerfd };
  trace = called (close (pos listenfd)) ∷ p.trace;
}

module _ (env : Env) (t : Transfers) (listenfd peerfd : ℕ) (schedule : List Arrival)
    (stream : Bytes) (p : Proc) where
  pub begin-limits :
      (forked : Forked)
      → child_begin env t listenfd peerfd forked schedule stream p
        ≡ (turn_away env (limit_num_clients env.config (counts_of p))
              >> session_begin env t forked schedule stream)
            (taken listenfd peerfd p)
  unfolding child_begin limit_clients sys
  begin-limits forked = refl

  pub begin-admitted :
      (forked : Forked)
      → limit_num_clients env.config (counts_of p) ≡ admitted
      → child_begin env t listenfd peerfd forked schedule stream p
        ≡ session_begin env t forked schedule stream (taken listenfd peerfd p)
  unfolding turn_away
  begin-admitted forked ok = begin-limits forked ∙ rw ok refl

  -- For a client within the limits, once `socketpair` has returned, the child comes back to the
  -- accept loop of its parent just where the second fork fails. Otherwise neither process ever does,
  -- for all that the client and the other process send.
  pub child_begin-returns :
      (near far : ℕ) (forked : Forked)
      → limit_num_clients env.config (counts_of p) ≡ admitted
      → env.kernel.socketpair (called (close (pos listenfd)) ∷ p.trace) ≡ some (near, far)
      → returns (child_begin env t listenfd peerfd forked schedule stream p) ≡ is_fork_failed forked
  child_begin-returns near far child ok pair =
      rw
        (
          begin-admitted child ok,
          begin-child env t near far schedule stream (taken listenfd peerfd p) pair,
        )
        (handle_proto-returns env t schedule stream _)
  child_begin-returns near far parent ok pair =
      rw
        (
          begin-admitted parent ok,
          begin-parent env t near far schedule stream (taken listenfd peerfd p) pair,
        )
        (handle_nobody-returns env _)
  child_begin-returns near far fork_failed ok pair =
      rw
        (
          begin-admitted fork_failed ok,
          begin-fork_failed env t near far schedule stream (taken listenfd peerfd p) pair,
        )
        refl
