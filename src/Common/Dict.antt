-- ===== src/Common/Dict.antt =====
-- Python's `dict` and `set` as lists: a dictionary in insertion order, a set without repetitions.
mod Elem
unfoldable pub use Elem.*
use Prim.Native.Nat.{ℕ, ◌+◌}
use mathlib.Core.Bool.{Bool, true, false, not, ◌&&◌, ◌||◌}
use mathlib.Core.List.{List, [], ◌∷◌, ◌++◌, map}
use mathlib.Core.Option.{Option, none, some}
use mathlib.Core.Path.{◌≡◌, refl, ap}
use native.Mathlib.Omega.{arith}
use adaptive_context_residen.Common.Tests.{if◌then◌else◌, is_some}
use adaptive_context_residen.Common.Lists.{All, filter, sum_by}
use adaptive_context_residen.Common.Equality.{Eq, ◌=?◌, =?_iff, =?_refl}

abbrev pub Dict {ℓ κ} : Type ℓ → Type κ → Type (ℓ ⊔ κ)
Dict K V = List (K × V)

module _ {ℓ κ} {K : Type ℓ} {V : Type κ} where
  -- `list(d)`, the keys in insertion order
  abbrev pub keys : Dict K V → List K
  keys [] = []
  keys ((k, _) ∷ d) = k ∷ keys d

  -- `list(d.values())`
  abbrev pub values : Dict K V → List V
  values [] = []
  values ((_, v) ∷ d) = v ∷ values d

module _ {ℓ κ} {K : Type ℓ} {V : Type κ} ⦃e : Eq K⦄ where
  -- `d.get(k)`
  unfoldable pub lookup : K → Dict K V → Option V
  lookup k [] = none
  lookup k ((j, v) ∷ d) = if j =? k then some v else lookup k d

  -- `d[k] = v`: in place, or at the end
  unfoldable pub insert : K → V → Dict K V → Dict K V
  insert k v [] = (k, v) ∷ []
  insert k v ((j, w) ∷ d) = if j =? k then (j, v) ∷ d else (j, w) ∷ insert k v d

  -- `d.pop(k, None)`
  unfoldable pub erase : K → Dict K V → Dict K V
  erase k [] = []
  erase k ((j, w) ∷ d) = if j =? k then erase k d else (j, w) ∷ erase k d

  pub lookup-insert :
      (k j : K) (v : V) (d : Dict K V)
      → lookup j (insert k v d) ≡ (if k =? j then some v else lookup j d)
  unfolding lookup insert
  lookup-insert k j v [] = refl
  lookup-insert k j v ((i, w) ∷ d) =
      ground (arith, =?_iff k j, =?_iff i k, =?_iff i j, lookup-insert k j v d)

  pub lookup-erase :
      (k j : K) (d : Dict K V) → lookup j (erase k d) ≡ (if k =? j then none else lookup j d)
  unfolding lookup erase
  lookup-erase k j [] = ground arith
  lookup-erase k j ((i, w) ∷ d) =
      ground (arith, =?_iff k j, =?_iff i k, =?_iff i j, lookup-erase k j d)

  pub elem-keys : (k : K) (d : Dict K V) → elem k (keys d) ≡ is_some (lookup k d)
  unfolding lookup
  elem-keys k [] = refl
  elem-keys k ((i, w) ∷ d) = ground (arith, elem-keys k d)

  pub elem-keys-insert :
      (k j : K) (v : V) (d : Dict K V)
      → elem j (keys (insert k v d)) ≡ ((k =? j) || elem j (keys d))
  elem-keys-insert k j v d =
      ground (arith, elem-keys j (insert k v d), elem-keys j d, lookup-insert k j v d)

  pub elem-keys-erase :
      (k j : K) (d : Dict K V) → elem j (keys (erase k d)) ≡ (not (k =? j) && elem j (keys d))
  elem-keys-erase k j d = ground (arith, elem-keys j (erase k d), elem-keys j d, lookup-erase k j d)

  pub keys-erase : (k : K) (d : Dict K V) → keys (erase k d) ≡ discard k (keys d)
  unfolding erase
  keys-erase k [] = refl
  keys-erase k ((i, w) ∷ d) = ground (arith, keys-erase k d)

  pub Distinct-insert :
      (k : K) (v : V) (d : Dict K V) → Distinct (keys d) → Distinct (keys (insert k v d))
  unfolding insert
  Distinct-insert k v [] h = (refl, tt)
  Distinct-insert k v ((i, w) ∷ d) h =
      ground (arith, elem-keys-insert k i v d, =?_iff k i, =?_iff i k, Distinct-insert k v d h.1)

  pub Distinct-erase : (k : K) (d : Dict K V) → Distinct (keys d) → Distinct (keys (erase k d))
  unfolding erase
  Distinct-erase k [] h = tt
  Distinct-erase k ((i, w) ∷ d) h = ground (arith, elem-keys-erase k i d, Distinct-erase k d h.1)

  pub erase_absent : (k : K) (d : Dict K V) → lookup k d ≡ none → erase k d ≡ d
  unfolding lookup erase
  erase_absent k [] h = refl
  erase_absent k ((i, w) ∷ d) h = ground (arith, erase_absent k d)

  pub elem-keys_of_lookup :
      (k : K) (d : Dict K V) {v : V} → lookup k d ≡ some v → elem k (keys d) ≡ true
  elem-keys_of_lookup k d h = ground (arith, elem-keys k d)

  pub lookup_of_elem-keys :
      (k : K) (d : Dict K V) → elem k (keys d) ≡ true → (v : V) × (lookup k d ≡ some v)
  lookup_of_elem-keys k d h = ground (arith, elem-keys k d)

  -- What a removal takes from a sum over the values.
  pub sum_by-erase :
      (f : V → ℕ) (k : K) (d : Dict K V) {v : V}
      → Distinct (keys d)
      → lookup k d ≡ some v
      → sum_by f (values (erase k d)) + f v ≡ sum_by f (values d)
  unfolding lookup erase
  sum_by-erase f k [] h m = absurd (ground arith)
  sum_by-erase f k ((i, w) ∷ d) {v} h m =
      ground (arith, =?_iff i k, elem-keys k d, erase_absent k d, sum_by-erase f k d {v = v} h.1)

  pub sum_by-insert_absent :
      (f : V → ℕ) (k : K) (v : V) (d : Dict K V)
      → lookup k d ≡ none
      → sum_by f (values (insert k v d)) ≡ sum_by f (values d) + f v
  unfolding lookup insert
  sum_by-insert_absent f k v [] h = omega arith
  sum_by-insert_absent f k v ((i, w) ∷ d) h = ground (arith, sum_by-insert_absent f k v d)

  -- Writing a value of the same weight leaves the sum as it was.
  pub sum_by-insert_same :
      (f : V → ℕ) (k : K) (v : V) (d : Dict K V) {w : V}
      → lookup k d ≡ some w
      → f v ≡ f w
      → sum_by f (values (insert k v d)) ≡ sum_by f (values d)
  unfolding lookup insert
  sum_by-insert_same f k v [] h m = absurd (ground arith)
  sum_by-insert_same f k v ((i, u) ∷ d) {w} h m = ground (arith, sum_by-insert_same f k v d {w = w})

  -- Writing another value changes the sum by the difference.
  pub sum_by-insert_change :
      (f : V → ℕ) (k : K) (v : V) (d : Dict K V) {w : V}
      → lookup k d ≡ some w
      → sum_by f (values (insert k v d)) + f w ≡ sum_by f (values d) + f v
  unfolding lookup insert
  sum_by-insert_change f k v [] h = absurd (ground arith)
  sum_by-insert_change f k v ((i, u) ∷ d) {w} h =
      ground (arith, sum_by-insert_change f k v d {w = w})

  pub All-values-insert {μ} :
      (P : V → Type μ) (k : K) (v : V) (d : Dict K V)
      → P v
      → All P (values d)
      → All P (values (insert k v d))
  unfolding insert
  All-values-insert P k v [] p h = (p, tt)
  All-values-insert P k v ((i, u) ∷ d) p h = ground (arith, All-values-insert P k v d p h.1)

  pub All-values-lookup {μ} :
      (P : V → Type μ) (k : K) (d : Dict K V) {v : V} → All P (values d) → lookup k d ≡ some v → P v
  unfolding lookup
  All-values-lookup P k [] h e = absurd (ground arith)
  All-values-lookup P k ((i, u) ∷ d) {v} h e = ground (arith, All-values-lookup P k d {v = v} h.1)
