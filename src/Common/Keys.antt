-- ===== src/Common/Keys.antt =====
-- Sort keys: a number, or a tuple compared by its first component that differs.
use adaptive_context_residen.Common.{◌≡◌, Bool, not, ◌&&◌, arith, if◌then◌else◌, ltb, ◌==◌}
use adaptive_context_residen.Common.Sort.{IsWeakOrder}

-- A comparison whose ties are exactly the equal keys.
pub record IsKeyOrder {ℓ} {A : Type ℓ} (lt eq : A → A → Bool) : Type ℓ where
  pub weak : IsWeakOrder lt
  pub eq_tie : (x y : A) → eq x y ≡ (not (lt x y) && not (lt y x))

-- `(a, b) < (c, d)`
abbrev pub lex {ℓ κ} :
    {A : Type ℓ} {B : Type κ} (lt eq : A → A → Bool) (lt' : B → B → Bool) (x y : A × B) → Bool
lex lt eq lt' x y = if eq x.0 y.0 then lt' x.1 y.1 else lt x.0 y.0

pub lex-IsWeakOrder {ℓ} :
    {A B : Type ℓ} (lt eq : A → A → Bool) (lt' : B → B → Bool)
    → IsKeyOrder lt eq
    → IsWeakOrder lt'
    → IsWeakOrder (lex lt eq lt')
lex-IsWeakOrder lt eq lt' o w = record {
  not_lt_trans = λ x y z h k. ground (
    arith,
    o.eq_tie y.0 x.0,
    o.eq_tie z.0 y.0,
    o.eq_tie z.0 x.0,
    o.weak.not_lt_trans x.0 y.0 z.0,
    o.weak.not_lt_trans z.0 y.0 x.0,
    o.weak.not_lt_trans y.0 x.0 z.0,
    o.weak.not_lt_trans y.0 z.0 x.0,
    o.weak.not_lt_trans x.0 z.0 y.0,
    o.weak.not_lt_trans z.0 x.0 y.0,
    w.not_lt_trans x.1 y.1 z.1,
  );
  lt_asymm = λ x y h.
      ground
        (arith, o.eq_tie x.0 y.0, o.eq_tie y.0 x.0, o.weak.lt_asymm x.0 y.0, w.lt_asymm x.1 y.1);
}

-- Sorting by a key is as good as the order of the keys.
pub IsWeakOrder-key {ℓ} :
    {A B : Type ℓ} (key : A → B) (lt : B → B → Bool)
    → IsWeakOrder lt
    → IsWeakOrder (λ x y. lt (key x) (key y))
IsWeakOrder-key key lt w = record {
  not_lt_trans = λ x y z. w.not_lt_trans (key x) (key y) (key z);
  lt_asymm = λ x y. w.lt_asymm (key x) (key y);
}

pub ltb-IsKeyOrder : IsKeyOrder ltb ◌==◌
ltb-IsKeyOrder = record {
  weak = record { not_lt_trans = λ x y z h k. ground arith; lt_asymm = λ x y h. ground arith };
  eq_tie = λ x y. ground arith;
}
