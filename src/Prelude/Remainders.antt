-- ===== src/Prelude/Remainders.antt =====
-- Remainders by a divisor that is not a literal.
use Prim.Native.Nat.{ℕ, ◌+◌, ◌-◌, ◌%◌, ◌<◌, ◌≤◌}
use mathlib.Core.Path.{◌≡◌, ◌∙◌}
use mathlib.Core.Logic.{◌≢◌, ◌⊎◌, inl, inr}
use native.Mathlib.Omega.{arith}
use native.Mathlib.Nat.{mod-add-mod, mod-eq_of_lt, mod-eq-sub-mod, mod-lt}

sum-mod-ne : (r k d : ℕ) → r < d → 0 < k → k < d → (r + k < d) ⊎ (d ≤ r + k) → (r + k) % d ≢ r
sum-mod-ne r k d hr pos hk (inl below) = omega (arith, mod-eq_of_lt below)
sum-mod-ne r k d hr pos hk (inr above) =
    let small : r + k - d < d = omega arith in
    omega (arith, mod-eq-sub-mod above, mod-eq_of_lt small)

-- Numbers that differ by less than the divisor have different remainders.
pub mod-ne : (a b d : ℕ) → a < b → b < a + d → b % d ≢ a % d
mod-ne a b d below near eq =
    let pos : 0 < d = omega arith in
    let k = b - a in
    let whole : (a % d + k) % d ≡ (a + k) % d = mod-add-mod a d k in
    let sum : a + k ≡ b = omega arith in
    sum-mod-ne (a % d) k d (mod-lt a pos) (omega arith) (omega arith) (omega arith)
      (whole ∙ rw sum eq)
