-- ===== src/Value/Whole.antt =====
-- Whole numbers in place of `double`, at which the laws of `Value` hold: the values of the tests and
-- witnesses. What would fall below zero stays at zero.
use brubeck.Prelude.{ℕ, ◌+◌, ◌-◌, ◌*◌, ◌/◌, u32, arith, ltb, leb, ◌==◌}
use brubeck.Value.{Double, IsOrdered}

instance abbrev pub whole : Double ℕ
whole = record {
  of_nat = λ n. n;
  to_u32 = λ n. u32 n;
  add = λ a b. a + b;
  sub = λ a b. a - b;
  mul = λ a b. a * b;
  div = λ a b. a / b;
  neg = λ a. 0 - a;
  eq = ◌==◌;
  lt = ltb;
  le = leb;
}

pub whole-IsOrdered : IsOrdered ℕ
whole-IsOrdered = record {
  le_trans = λ a b c p q. ground arith;
  le_total = λ a b p q. ground arith;
  lt-eq-not-le = λ a b p q. ground arith;
}
