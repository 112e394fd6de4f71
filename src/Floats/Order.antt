-- ===== src/Floats/Order.antt =====
-- The laws of the float order, and what they give for `max`, `min` and the keys of `sorted`.
use adaptive_context_residen.Common.{◌≡◌, true, ◌&&◌, ◌||◌, not, arith}
use adaptive_context_residen.Common.Sort.{IsWeakOrder}
use adaptive_context_residen.Common.Keys.{IsKeyOrder}
use adaptive_context_residen.Floats.{FloatOps, fmax, fmin}

-- IEEE comparison without NaN: a total order, with `<` and `==` read off `<=`.
pub record IsOrdered (fl : FloatOps) : Type 0 where
  pub le_trans : (x y z : fl.F) → fl.le x y ≡ true → fl.le y z ≡ true → fl.le x z ≡ true
  pub le_total : (x y : fl.F) → (fl.le x y || fl.le y x) ≡ true
  pub lt_not_le : (x y : fl.F) → fl.lt x y ≡ not (fl.le y x)
  pub eq_both_le : (x y : fl.F) → fl.eq x y ≡ (fl.le x y && fl.le y x)

module _ (fl : FloatOps) (o : IsOrdered fl) where
  open fl use {F, lt, le, eq}

  pub le_refl : (x : F) → le x x ≡ true
  le_refl x = ground (arith, o.le_total x x)

  pub lt-IsWeakOrder : IsWeakOrder lt
  lt-IsWeakOrder = record {
    not_lt_trans = λ x y z h k.
        ground (arith, o.lt_not_le y x, o.lt_not_le z y, o.lt_not_le z x, o.le_trans x y z);
    lt_asymm = λ x y h. ground (arith, o.lt_not_le x y, o.lt_not_le y x, o.le_total x y);
  }

  pub lt-IsKeyOrder : IsKeyOrder lt eq
  lt-IsKeyOrder = record {
    weak = lt-IsWeakOrder;
    eq_tie = λ x y. ground (arith, o.eq_both_le x y, o.lt_not_le x y, o.lt_not_le y x);
  }

  pub le-fmax_left : (x y : F) → le x (fmax ⦃fl = fl⦄ x y) ≡ true
  le-fmax_left x y = ground (arith, o.lt_not_le x y, o.le_total x y, le_refl x)

  pub le-fmax_right : (x y : F) → le y (fmax ⦃fl = fl⦄ x y) ≡ true
  le-fmax_right x y = ground (arith, o.lt_not_le x y, o.le_total x y, le_refl y)

  pub fmin_of_le : (x y : F) → le x y ≡ true → fmin ⦃fl = fl⦄ x y ≡ x
  fmin_of_le x y h = ground (arith, o.lt_not_le y x)
