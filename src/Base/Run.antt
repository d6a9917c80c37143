-- ===== src/Base/Run.antt =====
-- A computation that returns, or ends the process.
use mathlib.Core.Path.{◌≡◌, refl, sym, subst, ◌∙◌}
use Prim.Native.Nat.{ℕ}

-- `abort` is a failed `assert`; `exited` is a call of `exit` with its status.
pub data Run {ℓ} (V : Type ℓ) : Type ℓ where
  abort : Run V
  exited : ℕ → Run V
  ok : V → Run V

module _ {ℓ κ} {V : Type ℓ} where
  -- The run returns, with a value that satisfies `Q`.
  abbrev pub Returns : Run V → (V → Type κ) → Type (ℓ ⊔ κ)
  Returns run Q = (v : V) × (run ≡ ok v) × Q v

  infixl 5 ◌>>=◌
  abbrev pub ◌>>=◌ : {W : Type κ} → Run V → (V → Run W) → Run W
  abort >>= next = abort
  exited status >>= next = exited status
  ok v >>= next = next v

  -- A run that returns has passed through a value.
  pub bind-eq-ok :
      {W : Type κ} {w : W} (first : Run V) (next : V → Run W)
      → first >>= next ≡ ok w
      → (v : V) × (first ≡ ok v) × (next v ≡ ok w)
  bind-eq-ok abort next h = cc
  bind-eq-ok (exited status) next h = cc
  bind-eq-ok (ok v) next h = (v, refl, h)

pub ok_inj {ℓ} : {V : Type ℓ} {v w : V} → ok v ≡ ok w → v ≡ w
ok_inj h = cc

-- A run has one value: what holds of the value that it is shown to have holds of any other.
pub same_value {ℓ κ} :
    {V : Type ℓ} (Q : V → Type κ) {run : Run V} {v w : V} → run ≡ ok v → run ≡ ok w → Q v → Q w
same_value Q h k q = subst Q (ok_inj (sym h ∙ k)) q
