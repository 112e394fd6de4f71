-- ===== src/Common/Dict/Elem.antt =====
-- `in` on lists and sets, and lists without repetitions.
use mathlib.Core.Bool.{Bool, true, false, not, ◌&&◌, ◌||◌}
use mathlib.Core.List.{List, [], ◌∷◌, ◌++◌}
use mathlib.Core.Path.{◌≡◌, refl}
use native.Mathlib.Omega.{arith}
use adaptive_context_residen.Common.Tests.{if◌then◌else◌}
use adaptive_context_residen.Common.Lists.{All, filter}
use adaptive_context_residen.Common.Equality.{Eq, ◌=?◌, =?_iff, =?_refl}

module _ {ℓ} {K : Type ℓ} ⦃e : Eq K⦄ where
  -- `k in l`
  abbrev pub elem : K → List K → Bool
  elem k [] = false
  elem k (x ∷ xs) = (x =? k) || elem k xs

  abbrev pub Distinct : List K → Type 0
  Distinct [] = Unit
  Distinct (x ∷ xs) = (elem x xs ≡ false) × Distinct xs

  -- `s.add(k)`
  abbrev pub add : K → List K → List K
  add k s = if elem k s then s else s ++ k ∷ []

  -- `s.discard(k)`
  abbrev pub discard : K → List K → List K
  discard k = filter (λ x. not (x =? k))

  pub elem-append : (k : K) (xs ys : List K) → elem k (xs ++ ys) ≡ (elem k xs || elem k ys)
  elem-append k [] ys = refl
  elem-append k (x ∷ xs) ys = ground (arith, elem-append k xs ys)

  pub elem-filter : (k : K) (p : K → Bool) (xs : List K) → elem k (filter p xs) ≡ (p k && elem k xs)
  elem-filter k p [] = ground arith
  elem-filter k p (x ∷ xs) = ground (arith, elem-filter k p xs, =?_iff x k)

  pub elem-add : (k j : K) (s : List K) → elem k (add j s) ≡ ((j =? k) || elem k s)
  elem-add k j s = ground (arith, elem-append k s (j ∷ []), =?_iff j k)

  pub elem-discard : (k j : K) (s : List K) → elem k (discard j s) ≡ (not (k =? j) && elem k s)
  elem-discard k j s = elem-filter k (λ x. not (x =? j)) s

  pub Distinct-filter : (p : K → Bool) (xs : List K) → Distinct xs → Distinct (filter p xs)
  Distinct-filter p [] h = tt
  Distinct-filter p (x ∷ xs) h = ground (arith, elem-filter x p xs, Distinct-filter p xs h.1)

  pub Distinct-snoc :
      (k : K) (xs : List K) → Distinct xs → elem k xs ≡ false → Distinct (xs ++ k ∷ [])
  Distinct-snoc k [] h n = (refl, tt)
  Distinct-snoc k (x ∷ xs) h n =
      ground (arith, elem-append x xs (k ∷ []), Distinct-snoc k xs h.1, =?_iff x k, =?_iff k x)

  pub Distinct-append :
      (xs ys : List K)
      → Distinct xs
      → Distinct ys
      → ((k : K) → elem k xs ≡ true → elem k ys ≡ false)
      → Distinct (xs ++ ys)
  Distinct-append [] ys hx hy apart = hy
  Distinct-append (x ∷ xs) ys hx hy apart = (
    ground (arith, elem-append x xs ys, =?_refl x, apart x),
    Distinct-append xs ys hx.1 hy (λ k m. apart k (ground (arith, m))),
  )

  pub Distinct-add : (k : K) (s : List K) → Distinct s → Distinct (add k s)
  Distinct-add k s h = ground (arith, Distinct-snoc k s h)

  -- A predicate of all members, read at one.
  pub All-elem {κ} : (P : K → Type κ) (k : K) (xs : List K) → All P xs → elem k xs ≡ true → P k
  All-elem P k [] h m = absurd (ground arith)
  All-elem P k (x ∷ xs) h m = ground (arith, =?_iff x k, All-elem P k xs h.1)
