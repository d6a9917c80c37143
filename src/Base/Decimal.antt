-- ===== src/Base/Decimal.antt =====
-- `%u` and `%d` on numbers that are not negative.
use mini_ftp.Base.Lists.{Bytes}
use Prim.Native.Nat.{ℕ, zero, suc, ◌+◌, ◌-◌, ◌*◌, ◌/◌, ◌%◌, ◌≤◌}
use mathlib.Core.List.{[], ◌∷◌}
use mathlib.Core.Path.{◌≡◌, ap}
use native.Mathlib.Omega.{arith}
use mini_ftp.Base.Tests.{ltb, if◌then◌else◌}

-- The digits of `n` in front of `rest`, with fuel for at least as many digits.
unfoldable pub decimal_onto : ℕ → ℕ → Bytes → Bytes
decimal_onto zero n rest = (b'0' + n % 10) ∷ rest
decimal_onto (suc fuel) n rest =
    let longer = decimal_onto fuel (n / 10) ((b'0' + n % 10) ∷ rest) in
    if ltb n 10 then (b'0' + n % 10) ∷ rest else longer

unfoldable pub decimal : ℕ → Bytes
unfolding decimal_onto
decimal n = decimal_onto n n []

abbrev pub decimal_value : ℕ → Bytes → ℕ
decimal_value acc [] = acc
decimal_value acc (c ∷ cs) = decimal_value (acc * 10 + (c - b'0')) cs

decimal_onto-value :
    (fuel n : ℕ) (rest : Bytes)
    → n ≤ fuel
    → decimal_value 0 (decimal_onto fuel n rest) ≡ decimal_value n rest
unfolding decimal_onto
decimal_onto-value zero n rest h = ap (λ k. decimal_value k rest) (omega arith)
decimal_onto-value (suc fuel) n rest h = ground (
  arith,
  decimal_onto-value fuel (n / 10) ((b'0' + n % 10) ∷ rest),
  ap (λ k. decimal_value k rest) (last n),
  ap (λ k. decimal_value k rest) (step n),
)
  where
    last : (n : ℕ) → 0 * 10 + (b'0' + n % 10 - b'0') ≡ n % 10
    last n = omega arith

    step : (n : ℕ) → n / 10 * 10 + (b'0' + n % 10 - b'0') ≡ n
    step n = omega arith

-- The text of a number reads back as the number.
pub decimal-value : (n : ℕ) → decimal_value 0 (decimal n) ≡ n
unfolding decimal
decimal-value n = decimal_onto-value n n [] (omega arith)
