-- ===== src/Session/Invariant.antt =====
-- What a computation on a session keeps, however it ends.
use mini_ftp.Base.{ℕ, Bool, true, false, Option, none, some, if◌then◌else◌}
use mini_ftp.Session.{Session, Proc, Out, done, exited, killed, hung, faulted, M}

abbrev out_sess : {A : Type 0} → Out A → Session
out_sess (done a q) = q.sess
out_sess (exited n q) = q.sess
out_sess (killed q) = q.sess
out_sess (hung q) = q.sess
out_sess (faulted q) = q.sess

-- A predicate on sessions holds of the state that an outcome leaves.
pub record Leaves {A : Type 0} (P : Session → Type 0) (o : Out A) : Type 0 where
  pub holds : P (out_sess o)

-- From a session with the predicate, a computation leaves one with it: where it returns, exits,
-- hangs or faults.
abbrev pub Keeps : {A : Type 0} → (Session → Type 0) → M A → Type 0
Keeps P m = (p : Proc) → P p.sess → Leaves P (m p)

module _ {P : Session → Type 0} {A : Type 0} where
  pub done-Leaves : (a : A) (q : Proc) → P q.sess → Leaves P (done a q)
  done-Leaves a q h = record { holds = h }

  pub exited-Leaves : (n : ℕ) (q : Proc) → P q.sess → Leaves {A = A} P (exited n q)
  exited-Leaves n q h = record { holds = h }

  pub killed-Leaves : (q : Proc) → P q.sess → Leaves {A = A} P (killed q)
  killed-Leaves q h = record { holds = h }

  pub hung-Leaves : (q : Proc) → P q.sess → Leaves {A = A} P (hung q)
  hung-Leaves q h = record { holds = h }

  pub faulted-Leaves : (q : Proc) → P q.sess → Leaves {A = A} P (faulted q)
  faulted-Leaves q h = record { holds = h }

  pub if-Leaves :
      (b : Bool) (m n : M A) (p : Proc)
      → Leaves P (m p)
      → Leaves P (n p)
      → Leaves P ((if b then m else n) p)
  if-Leaves true m n p h k = h
  if-Leaves false m n p h k = k

module _ {P : Session → Type 0} {A B : Type 0} where
  -- A step, and what follows where it returns.
  pub bind-Leaves :
      (o : Out A) (k : A → M B)
      → Leaves P o
      → ((a : A) (q : Proc) → P q.sess → Leaves P (k a q))
      → Leaves P (elim o [
        | done a q ↦ k a q
        | exited n q ↦ exited n q
        | killed q ↦ killed q
        | hung q ↦ hung q
        | faulted q ↦ faulted q
      ])
  bind-Leaves (done a q) k h keep = keep a q h.holds
  bind-Leaves (exited n q) k h keep = record { holds = h.holds }
  bind-Leaves (killed q) k h keep = record { holds = h.holds }
  bind-Leaves (hung q) k h keep = record { holds = h.holds }
  bind-Leaves (faulted q) k h keep = record { holds = h.holds }

  pub option-Leaves :
      (o : Option A) (m : M B) (k : A → M B) (p : Proc)
      → Leaves P (m p)
      → ((a : A) → Leaves P (k a p))
      → Leaves P (let chosen : M B = elim o [ none ↦ m | some a ↦ k a ] in chosen p)
  option-Leaves none m k p h keep = h
  option-Leaves (some a) m k p h keep = keep a
