-- ===== src/Tests/Numbers.antt =====
-- Numbers in thousandths for the tests: no negative ones, and `exp` and `pow` constant.
use adaptive_context_residen.Common.{true, ℕ, ◌+◌, ◌-◌, ◌*◌, ◌/◌, ◌^◌, ltb, leb, ◌==◌, arith, max}
use adaptive_context_residen.Floats.{FloatOps}
use adaptive_context_residen.Floats.Order.{IsOrdered}

instance abbrev pub milli : FloatOps
milli = record {
  F = ℕ;
  of_ℕ = λ n. 1000 * n;
  decimal = λ n k. (1000 * n) / (10 ^ k);
  infinity = 10 ^ 30;
  add = λ a b. a + b;
  sub = λ a b. a - b;
  mul = λ a b. (a * b) / 1000;
  div = λ a b. (1000 * a) / max 1 b;
  neg = λ a. 10 ^ 30 - a;
  pow = λ a b. a;
  exp = λ a. 1000;
  isfinite = λ x. true;
  trunc = λ a. a / 1000;
  round = λ a. (a + 500) / 1000;
  lt = ltb;
  le = leb;
  eq = ◌==◌;
}

pub milli-IsOrdered : IsOrdered milli
milli-IsOrdered = record {
  le_trans = λ x y z h k. ground arith;
  le_total = λ x y. ground arith;
  lt_not_le = λ x y. ground arith;
  eq_both_le = λ x y. ground arith;
}
