-- ===== src/Common/Sort.antt =====
-- `sorted(l, key=...)`: a stable sort by a strict comparison of keys.
use mathlib.Core.Bool.{Bool, true, false}
use adaptive_context_residen.Common.{
  ℕ, ◌+◌, ◌≡◌, refl, List, [], ◌∷◌, map, arith, if◌then◌else◌, length, sum_by, All,
}
use adaptive_context_residen.Common.Dict.{elem, Distinct}
use adaptive_context_residen.Common.{Eq, =?_iff}

module _ {ℓ} {A : Type ℓ} (lt : A → A → Bool) where
  -- `x` stood before the list: it goes behind an element only if that one is smaller.
  unfoldable pub insert_sorted : A → List A → List A
  insert_sorted x [] = x ∷ []
  insert_sorted x (y ∷ ys) = if lt y x then y ∷ insert_sorted x ys else x ∷ y ∷ ys

  unfoldable pub sort : List A → List A
  unfolding insert_sorted
  sort [] = []
  sort (x ∷ xs) = insert_sorted x (sort xs)

  length-insert_sorted : (x : A) (xs : List A) → length (insert_sorted x xs) ≡ length (x ∷ xs)
  unfolding insert_sorted
  length-insert_sorted x [] = refl
  length-insert_sorted x (y ∷ ys) = ground (arith, length-insert_sorted x ys)

  pub length-sort : (xs : List A) → length (sort xs) ≡ length xs
  unfolding sort
  length-sort [] = refl
  length-sort (x ∷ xs) = ground (arith, length-insert_sorted x (sort xs), length-sort xs)

  sum_by-insert_sorted :
      (f : A → ℕ) (x : A) (xs : List A) → sum_by f (insert_sorted x xs) ≡ f x + sum_by f xs
  unfolding insert_sorted
  sum_by-insert_sorted f x [] = refl
  sum_by-insert_sorted f x (y ∷ ys) = ground (arith, sum_by-insert_sorted f x ys)

  pub sum_by-sort : (f : A → ℕ) (xs : List A) → sum_by f (sort xs) ≡ sum_by f xs
  unfolding sort
  sum_by-sort f [] = refl
  sum_by-sort f (x ∷ xs) = ground (arith, sum_by-insert_sorted f x (sort xs), sum_by-sort f xs)

  All-insert_sorted {κ} :
      (P : A → Type κ) (x : A) (xs : List A) → P x → All P xs → All P (insert_sorted x xs)
  unfolding insert_sorted
  All-insert_sorted P x [] p h = (p, tt)
  All-insert_sorted P x (y ∷ ys) p h = ground (arith, All-insert_sorted P x ys p h.1)

  pub All-sort {κ} : (P : A → Type κ) (xs : List A) → All P xs → All P (sort xs)
  unfolding sort
  All-sort P [] h = tt
  All-sort P (x ∷ xs) h = All-insert_sorted P x (sort xs) h.0 (All-sort P xs h.1)

  -- No element is smaller than one before it.
  abbrev pub IsSorted : List A → Type 0
  IsSorted [] = Unit
  IsSorted (x ∷ xs) = All (λ y. lt y x ≡ false) xs × IsSorted xs

  -- What a comparison must satisfy for `sorted` to make sense: "not smaller" is transitive, and of
  -- two elements at most one is smaller.
  pub record IsWeakOrder : Type ℓ where
    pub not_lt_trans : (x y z : A) → lt y x ≡ false → lt z y ≡ false → lt z x ≡ false
    pub lt_asymm : (x y : A) → lt x y ≡ true → lt y x ≡ false

  All-weaken :
      (w : IsWeakOrder) (x y : A) (zs : List A)
      → lt y x ≡ false
      → All (λ z. lt z y ≡ false) zs
      → All (λ z. lt z x ≡ false) zs
  All-weaken w x y [] h a = tt
  All-weaken w x y (z ∷ zs) h a = (w.not_lt_trans x y z h a.0, All-weaken w x y zs h a.1)

  insert_sorted-IsSorted :
      (w : IsWeakOrder) (x : A) (xs : List A) → IsSorted xs → IsSorted (insert_sorted x xs)
  unfolding insert_sorted
  insert_sorted-IsSorted w x [] s = (tt, tt)
  insert_sorted-IsSorted w x (y ∷ ys) s = ground (
    arith,
    w.lt_asymm y x,
    All-weaken w x y ys,
    All-insert_sorted (λ z. lt z y ≡ false) x ys,
    insert_sorted-IsSorted w x ys s.1,
  )

  pub sort-IsSorted : IsWeakOrder → (xs : List A) → IsSorted (sort xs)
  unfolding sort
  sort-IsSorted w [] = tt
  sort-IsSorted w (x ∷ xs) = insert_sorted-IsSorted w x (sort xs) (sort-IsSorted w xs)

module _ {ℓ} {K : Type ℓ} ⦃e : Eq K⦄ (lt : K → K → Bool) where
  elem-insert_sorted : (k x : K) (xs : List K) → elem k (insert_sorted lt x xs) ≡ elem k (x ∷ xs)
  unfolding insert_sorted
  elem-insert_sorted k x [] = refl
  elem-insert_sorted k x (y ∷ ys) = ground (arith, elem-insert_sorted k x ys)

  pub elem-sort : (k : K) (xs : List K) → elem k (sort lt xs) ≡ elem k xs
  unfolding sort
  elem-sort k [] = refl
  elem-sort k (x ∷ xs) = ground (arith, elem-insert_sorted k x (sort lt xs), elem-sort k xs)

  Distinct-insert_sorted :
      (x : K) (xs : List K) → elem x xs ≡ false → Distinct xs → Distinct (insert_sorted lt x xs)
  unfolding insert_sorted
  Distinct-insert_sorted x [] n d = (refl, tt)
  Distinct-insert_sorted x (y ∷ ys) n d =
      ground (arith, =?_iff x y, =?_iff y x, elem-insert_sorted y x ys, Distinct-insert_sorted x ys)

  pub Distinct-sort : (xs : List K) → Distinct xs → Distinct (sort lt xs)
  unfolding sort
  Distinct-sort [] d = tt
  Distinct-sort (x ∷ xs) d =
      ground (arith, elem-sort x xs, Distinct-insert_sorted x (sort lt xs), Distinct-sort xs d.1)

module _ {ℓ κ} {A : Type ℓ} {K : Type κ} ⦃e : Eq K⦄ (lt : A → A → Bool) (f : A → K) where
  elem-map-insert_sorted :
      (r : K) (x : A) (xs : List A)
      → elem r (map f (insert_sorted lt x xs)) ≡ elem r (map f (x ∷ xs))
  unfolding insert_sorted
  elem-map-insert_sorted r x [] = refl
  elem-map-insert_sorted r x (y ∷ ys) = ground (arith, elem-map-insert_sorted r x ys)

  pub elem-map-sort : (r : K) (xs : List A) → elem r (map f (sort lt xs)) ≡ elem r (map f xs)
  unfolding sort
  elem-map-sort r [] = refl
  elem-map-sort r (x ∷ xs) =
      ground (arith, elem-map-insert_sorted r x (sort lt xs), elem-map-sort r xs)
