-- ===== src/Common/Select.antt =====
-- Choosing a prefix of a list: what it holds, and what it leaves.
use adaptive_context_residen.Common.{
  ℕ, zero, suc, ◌+◌, ◌≤◌, ◌≡◌, refl, ap, inl, inr, Bool, true, false, not, some, is_some, List, [],
  ◌∷◌, ◌++◌, arith, length, take, filter, All, Eq, =?_iff, =?_refl, Bool-cases, sum_by,
}
use adaptive_context_residen.Common.Dict.{Dict, keys, lookup, elem, Distinct, elem-filter, All-elem}
use adaptive_context_residen.Common.Result.{ok, items_at}
use adaptive_context_residen.Common.Sort.{IsSorted}

module _ {ℓ} {A : Type ℓ} where
  pub length-filter-add-filter-not :
      (p : A → Bool) (xs : List A)
      → length (filter p xs) + length (filter (λ x. not (p x)) xs) ≡ length xs
  length-filter-add-filter-not p [] = omega arith
  length-filter-add-filter-not p (x ∷ xs) = ground (arith, length-filter-add-filter-not p xs)

  pub sum_by-take-le : (f : A → ℕ) (n : ℕ) (xs : List A) → sum_by f (take n xs) ≤ sum_by f xs
  sum_by-take-le f zero xs = omega arith
  sum_by-take-le f (suc n) [] = omega arith
  sum_by-take-le f (suc n) (x ∷ xs) = omega (arith, sum_by-take-le f n xs)

module _ {ℓ} {K : Type ℓ} ⦃e : Eq K⦄ where
  pub elem_of_elem-take :
      (k : K) (n : ℕ) (xs : List K) → elem k (take n xs) ≡ true → elem k xs ≡ true
  elem_of_elem-take k zero xs h = absurd (ground arith)
  elem_of_elem-take k (suc n) [] h = h
  elem_of_elem-take k (suc n) (x ∷ xs) h = ground (arith, elem_of_elem-take k n xs)

  pub Distinct-take : (n : ℕ) (xs : List K) → Distinct xs → Distinct (take n xs)
  Distinct-take zero xs d = tt
  Distinct-take (suc n) [] d = tt
  Distinct-take (suc n) (x ∷ xs) d = (
    elim (Bool-cases (elem x (take n xs))) [
      | inl again ↦ absurd (ground (arith, elem_of_elem-take x n xs again))
      | inr fresh ↦ fresh
    ],
    Distinct-take n xs d.1,
  )

  -- To leave out the chosen is to choose by the negated test.
  pub filter-not-elem :
      (p : K → Bool) (xs ys : List K)
      → ((k : K) → elem k ys ≡ true → elem k xs ≡ true)
      → filter (λ k. not (elem k (filter p xs))) ys ≡ filter (λ k. not (p k)) ys
  filter-not-elem p xs [] sub = refl
  filter-not-elem p xs (y ∷ ys) sub = ground (
    arith,
    =?_refl y,
    elem-filter y p xs,
    sub y,
    filter-not-elem p xs ys (λ k m. sub k (ground (arith, m))),
  )

  -- In a sorted list, what a prefix leaves is not smaller than what it takes.
  take-IsSorted :
      (lt : K → K → Bool) (n : ℕ) (v s : K) (xs : List K)
      → IsSorted lt xs
      → elem v (take n xs) ≡ true
      → elem s xs ≡ true
      → elem s (take n xs) ≡ false
      → lt s v ≡ false
  take-IsSorted lt zero v s xs o tv ts ns = absurd (ground arith)
  take-IsSorted lt (suc n) v s [] o tv ts ns = absurd (ground arith)
  take-IsSorted lt (suc n) v s (x ∷ xs) o tv ts ns = ground (
    arith,
    =?_iff x v,
    =?_iff x s,
    All-elem (λ y. lt y x ≡ false) s xs o.0,
    take-IsSorted lt n v s xs o.1,
  )

  -- A prefix of `first ++ rest`, with `rest` sorted: a choice from `rest` means that `first` is
  -- used up and that nothing smaller is left.
  pub take-append-IsSorted :
      (lt : K → K → Bool) (n : ℕ) (v s : K) (first rest : List K)
      → IsSorted lt rest
      → elem v (take n (first ++ rest)) ≡ true
      → elem v first ≡ false
      → elem s (first ++ rest) ≡ true
      → elem s (take n (first ++ rest)) ≡ false
      → (elem s first ≡ false) × (lt s v ≡ false)
  take-append-IsSorted lt n v s [] rest o tv nv ts ns =
      (refl, take-IsSorted lt n v s rest o tv ts ns)
  take-append-IsSorted lt zero v s (x ∷ first) rest o tv nv ts ns = absurd (ground arith)
  take-append-IsSorted lt (suc n) v s (x ∷ first) rest o tv nv ts ns =
      ground (arith, =?_iff x s, take-append-IsSorted lt n v s first rest o)

module _ {ℓ} {K V : Type ℓ} ⦃e : Eq K⦄ where
  -- The items that `items_at` reads: the keys, each with its value.
  abbrev pub Reads : List K → Dict K V → Type ℓ
  Reads ks d =
      (out : Dict K V) × (items_at ks d ≡ ok out)
      × (keys out ≡ ks)
      × All (λ x. lookup x.0 d ≡ some x.1) out

  Reads-cons :
      (k : K) (ks : List K) (d : Dict K V) (v : V)
      → lookup k d ≡ some v
      → Reads ks d
      → Reads (k ∷ ks) d
  unfolding items_at
  Reads-cons k ks d v found (out, read, same, held) =
      ((k, v) ∷ out, ground arith, ap (◌∷◌ k) same, (found, held))

  -- Reading keys that are there does not raise.
  pub items_at_total :
      (ks : List K) (d : Dict K V)
      → ((k : K) → elem k ks ≡ true → is_some (lookup k d) ≡ true)
      → Reads ks d
  unfolding items_at
  items_at_total [] d h = ([], refl, refl, tt)
  items_at_total (k ∷ ks) d h =
      let (v, found) : (v : V) × (lookup k d ≡ some v) = ground (arith, h k, =?_refl k) in
      Reads-cons k ks d v found (items_at_total ks d (λ j m. h j (ground (arith, m))))
