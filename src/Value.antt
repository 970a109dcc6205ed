-- ===== src/Value.antt =====
-- `value_t` of src/brubeck.h is the C type `double`. The development is over any type with the
-- operations that the code applies to a `double`; what the theorems need of them are named laws.
pub mod Whole
use mathlib.Core.Logic.{◌⊎◌}
use brubeck.Prelude.{ℕ, ◌≡◌, Bool, true, not}

pub record Double (V : Type 0) : Type 0 where
  -- The conversion of an integer to `double`, and back to `uint32_t`.
  pub of_nat : ℕ → V
  pub to_u32 : V → ℕ
  pub add : V → V → V
  pub sub : V → V → V
  pub mul : V → V → V
  pub div : V → V → V
  pub neg : V → V
  -- `a == b`, `a < b` and `a <= b`; C's `a > b` is `b < a`, also for a NaN.
  pub eq : V → V → Bool
  pub lt : V → V → Bool
  pub le : V → V → Bool

-- A NaN is the value that is not `<=` itself. Away from it the order is total.
module _ {V : Type 0} ⦃d : Double V⦄ where
  abbrev pub IsNumber : V → Type 0
  IsNumber v = d.le v v ≡ true

  infix 4 ◌≼◌
  abbrev pub ◌≼◌ : V → V → Type 0
  a ≼ b = d.le a b ≡ true

pub record IsOrdered (V : Type 0) ⦃d : Double V⦄ : Type 0 where
  pub le_trans : (a b c : V) → a ≼ b → b ≼ c → a ≼ c
  pub le_total : (a b : V) → IsNumber a → IsNumber b → (a ≼ b) ⊎ (b ≼ a)
  pub lt-eq-not-le : (a b : V) → IsNumber a → IsNumber b → d.lt a b ≡ not (d.le b a)
