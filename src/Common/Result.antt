-- ===== src/Common/Result.antt =====
-- Code that may raise: `KeyError` by `d[k]`, `ZeroDivisionError` by a division, `OverflowError` by
-- `int(x)`. One constructor stands for them all.
use mathlib.Core.Bool.{Bool, true, false}
use mathlib.Core.List.{List, [], ◌∷◌}
use mathlib.Core.Option.{none, some}
use adaptive_context_residen.Common.Equality.{Eq}
use adaptive_context_residen.Common.Dict.{Dict, lookup}

pub data Result {ℓ} (A : Type ℓ) : Type ℓ where
  ok : A → Result A
  exception : Result A

infixl 5 ◌>>=◌
abbrev pub ◌>>=◌ {ℓ κ} : {A : Type ℓ} {B : Type κ} → Result A → (A → Result B) → Result B
ok a >>= f = f a
exception >>= f = exception

-- `true` is a call on the way that raises.
abbrev pub raise_if {ℓ} : {A : Type ℓ} → Bool → Result A → Result A
raise_if true r = exception
raise_if false r = r

abbrev pub is_exception {ℓ} : {A : Type ℓ} → Result A → Bool
is_exception (ok a) = false
is_exception exception = true

module _ {ℓ} {K V : Type ℓ} ⦃e : Eq K⦄ where
  -- `d[k]`
  abbrev pub item : K → Dict K V → Result V
  item k d = elim (lookup k d) [ none ↦ exception | some v ↦ ok v ]

  -- `[(k, d[k]) for k in ks]`
  unfoldable pub items_at : List K → Dict K V → Result (List (K × V))
  items_at [] d = ok []
  items_at (k ∷ ks) d = do v ← item k d; rest ← items_at ks d; ok ((k, v) ∷ rest)
