-- ===== src/Floats.antt =====
-- Python's `float`, as an interface: the operations that the program uses, and the order laws that
-- hold for all floats but NaN. The theorems that need a law take it as a hypothesis.
pub mod Order
use adaptive_context_residen.Common.{ℕ, Bool, if◌then◌else◌}

pub record FloatOps : Type 1 where
  pub F : Type 0
  -- `float(n)`
  pub of_ℕ : ℕ → F
  -- The literal `n / 10 ** k`, as `0.05` is `decimal 5 2`.
  pub decimal : ℕ → ℕ → F
  pub infinity : F
  pub add : F → F → F
  pub sub : F → F → F
  pub mul : F → F → F
  pub div : F → F → F
  pub neg : F → F
  -- `x ** y`
  pub pow : F → F → F
  -- `math.exp(x)`
  pub exp : F → F
  -- Neither infinite nor NaN.
  pub isfinite : F → Bool
  -- `int(x)` of a finite number that is not negative
  pub trunc : F → ℕ
  -- `int(round(x))` of a number that is not negative
  pub round : F → ℕ
  -- `x < y`, `x <= y`, `x == y`
  pub lt : F → F → Bool
  pub le : F → F → Bool
  pub eq : F → F → Bool

module _ ⦃fl : FloatOps⦄ where
  open fl use {F, lt}

  -- `max(a, b)`: the first argument, unless the second is larger.
  abbrev pub fmax : F → F → F
  fmax a b = if lt a b then b else a

  -- `min(a, b)`: the first argument, unless the second is smaller.
  abbrev pub fmin : F → F → F
  fmin a b = if lt b a then b else a
