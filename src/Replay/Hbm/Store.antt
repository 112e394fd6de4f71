-- ===== src/Replay/Hbm/Store.antt =====
-- What `store` drops, and what it keeps.
use adaptive_context_residen.Common.{
  ℕ, ◌≤◌, ◌<◌, ◌≡◌, ◌≢◌, refl, sym, ◌∙◌, ap, ◌⊎◌, inl, inr, Bool, true, false, not, none, List, [],
  ◌∷◌, ◌++◌, arith, append-nil, append_assoc, if◌then◌else◌, leb, filter, ◌=?◌, =?_iff, Bool-cases,
  Option-cases,
}
use adaptive_context_residen.Common.Dict.{
  keys, lookup, erase, elem, Distinct, discard, keys-erase, lookup-erase, erase_absent,
}
use adaptive_context_residen.Index.Defs.{Key, key_eq}
use adaptive_context_residen.Replay.Hbm.{
  HbmTier, move_to_end, fill_one, fill, pop, drop_until, victims_of, store,
}
use adaptive_context_residen.Replay.Hbm.Invariant.{IsValid, fill-IsValid, pop-IsValid, keys-snoc}

-- The pool after the blocks of some keys are popped.
abbrev pub pops : List Key → HbmTier → HbmTier
pops [] h = h
pops (k ∷ ks) h = pops ks (pop k h)

-- What dropping `out` of the ordered `victims` has done.
pub record Dropped (victims : List Key) (h : HbmTier) (out : List Key) (h' : HbmTier) : Type 0 where
  pub valid : IsValid h'
  pub same_capacity : h'.capacity_bytes ≡ h.capacity_bytes
  pub rest : List Key
  -- The victims are the first ones of the order,
  pub order : victims ≡ out ++ rest
  -- as many as are needed: the pool fits, or none is left,
  pub enough : (h'.used ≤ h'.capacity_bytes) ⊎ (rest ≡ [])
  -- and no more: whatever stands before a victim was dropped, and the pool did not fit.
  pub needed :
      (before after : List Key) (k : Key)
      → out ≡ before ++ k ∷ after
      → h.capacity_bytes < (pops before h).used
  -- They are gone, and every other block is as it was.
  pub kept : (k : Key) → lookup k h'.blocks ≡ (if elem k out then none else lookup k h.blocks)

lookup-pop :
    (victim k : Key) (h : HbmTier)
    → lookup k (pop victim h).blocks ≡ (if victim =? k then none else lookup k h.blocks)
unfolding pop
lookup-pop victim k h = elim (Option-cases (lookup victim h.blocks)) [
  | inl missing ↦ rw (missing, pop) (ground (arith, =?_iff victim k))
  | inr (nbytes, found) ↦ rw (found, pop) (lookup-erase victim k h.blocks)
]

capacity-pop : (victim : Key) (h : HbmTier) → (pop victim h).capacity_bytes ≡ h.capacity_bytes
unfolding pop
capacity-pop victim h = elim (Option-cases (lookup victim h.blocks)) [
  | inl missing ↦ rw (missing, pop) refl
  | inr (nbytes, found) ↦ rw (found, pop) refl
]

snoc_not_empty : (before : List Key) (k : Key) (after : List Key) → [] ≢ before ++ k ∷ after
snoc_not_empty [] k after e = absurd (ground (arith, e))
snoc_not_empty (x ∷ before) k after e = absurd (ground (arith, e))

before_cons :
    (h : HbmTier) (x : Key) (out before after : List Key) (k : Key)
    → h.capacity_bytes < h.used
    → (pop x h).capacity_bytes ≡ h.capacity_bytes
    → ((before after : List Key) (k : Key)
        → out ≡ before ++ k ∷ after
        → (pop x h).capacity_bytes < (pops before (pop x h)).used)
    → x ∷ out ≡ before ++ k ∷ after
    → h.capacity_bytes < (pops before h).used
before_cons h x out [] after k over same below e = over
before_cons h x out (y ∷ before) after k over same below e =
    let (first, rest) : (x ≡ y) × (out ≡ before ++ k ∷ after) = ground (arith, e) in
    rw (← first) (omega (arith, same, below before after k rest))

before_single :
    (h : HbmTier) (x : Key) (before after : List Key) (k : Key)
    → h.capacity_bytes < h.used
    → x ∷ [] ≡ before ++ k ∷ after
    → h.capacity_bytes < (pops before h).used
before_single h x before after k over e =
    before_cons h x [] before after k over (capacity-pop x h)
      (λ b a j e'. absurd (snoc_not_empty b j a e')) e

drop_until-Dropped :
    (victims : List Key) (h : HbmTier)
    → IsValid h
    → h.capacity_bytes < h.used
    → Dropped victims h (drop_until victims h).0 (drop_until victims h).1
unfolding drop_until
drop_until-Dropped [] h v over = record {
  valid = v;
  same_capacity = refl;
  rest = [];
  order = refl;
  enough = inr refl;
  needed = λ before after k e. absurd (ground (arith, snoc_not_empty before k after e));
  kept = λ k. refl;
}
drop_until-Dropped (x ∷ victims) h v over =
    let h' = pop x h in
    elim (Bool-cases (leb h'.used h'.capacity_bytes)) [
      | inl done ↦ rw (done) (record {
        valid = pop-IsValid x h v;
        same_capacity = capacity-pop x h;
        rest = victims;
        order = refl;
        enough = inl (ground arith);
        needed = λ before after k e. before_single h x before after k over e;
        kept = λ k. ground (arith, lookup-pop x k h);
      })
      | inr more ↦
          let same = capacity-pop x h in
          let below = drop_until-Dropped victims h' (pop-IsValid x h v) (ground arith) in
          rw (more) (record {
            valid = below.valid;
            same_capacity = below.same_capacity ∙ capacity-pop x h;
            rest = below.rest;
            order = ap (◌∷◌ x) below.order;
            enough = below.enough;
            needed = λ before after k e. before_cons h x _ before after k over same below.needed e;
            kept = λ k. ground (arith, lookup-pop x k h, below.kept k);
          })
    ]

-- On a pool whose counter is the sum of its blocks, `store` keeps this so and keeps the capacity.
-- It drops the oldest unprotected keys of the filled pool in order and removes exactly these. The
-- pool then fits or no unprotected key is left, and whenever a key was dropped, the pool without
-- the keys dropped before it did not fit.
pub store-Dropped :
    (h : HbmTier) (items : List (Key × ℕ)) (protected : List Key)
    → IsValid h
    → Dropped
        (victims_of protected (fill h items))
        (fill h items)
        (store h items protected).0
        (store h items protected).1
unfolding store
store-Dropped h items protected v =
    let h' = fill h items in
    elim (Bool-cases (leb h'.used h'.capacity_bytes)) [
      | inl fits ↦
          rw (fits, store)
            (record {
              valid = fill-IsValid h items v;
              same_capacity = refl;
              rest = victims_of protected h';
              order = refl;
              enough = inl (ground arith);
              needed = λ before after k e. absurd (ground (arith, snoc_not_empty before k after e));
              kept = λ k. refl;
            })
      | inr over ↦
          rw (over, store)
            (drop_until-Dropped (victims_of protected h') h' (fill-IsValid h items v)
              (ground arith))
    ]

capacity-fill_one : (h : HbmTier) (x : Key × ℕ) → (fill_one h x).capacity_bytes ≡ h.capacity_bytes
unfolding fill_one move_to_end
capacity-fill_one h (k, n) = elim (Option-cases (lookup k h.blocks)) [
  | inl missing ↦ rw (missing, fill_one) refl
  | inr (old, found) ↦ rw (found, fill_one) refl
]

pub capacity-fill :
    (h : HbmTier) (items : List (Key × ℕ)) → (fill h items).capacity_bytes ≡ h.capacity_bytes
unfolding fill
capacity-fill h [] = refl
capacity-fill h (x ∷ items) = capacity-fill (fill_one h x) items ∙ capacity-fill_one h x

filter-append :
    (p : Key → Bool) (xs ys : List Key) → filter p (xs ++ ys) ≡ filter p xs ++ filter p ys
filter-append p [] ys = refl
filter-append p (x ∷ xs) ys = ground (arith, filter-append p xs ys)

keys-fill_one :
    (h : HbmTier) (x : Key × ℕ)
    → keys (fill_one h x).blocks ≡ discard x.0 (keys h.blocks) ++ x.0 ∷ []
unfolding fill_one move_to_end
keys-fill_one h (k, n) = elim (Option-cases (lookup k h.blocks)) [
  | inl missing ↦
      rw (missing, fill_one)
        (keys-snoc h.blocks k n
          ∙ ap (λ l. l ++ k ∷ [])
              (sym (ap keys (erase_absent k h.blocks missing)) ∙ keys-erase k h.blocks))
  | inr (old, found) ↦
      rw (found, fill_one, move_to_end)
        (keys-snoc (erase k h.blocks) k old ∙ ap (λ l. l ++ k ∷ []) (keys-erase k h.blocks))
]

filter-discard :
    (k : Key) (ks xs : List Key)
    → filter (λ j. not (elem j ks)) (discard k xs) ≡ filter (λ j. not (elem j (k ∷ ks))) xs
filter-discard k ks [] = refl
filter-discard k ks (x ∷ xs) = ground (arith, filter-discard k ks xs, =?_iff x k, =?_iff k x)

filter-all : (xs : List Key) → filter (λ k. true) xs ≡ xs
filter-all [] = refl
filter-all (x ∷ xs) = ap (◌∷◌ x) (filter-all xs)

abbrev others : List (Key × ℕ) → List Key → List Key
others items xs = filter (λ k. not (elem k (keys items))) xs

others-single :
    (x : Key × ℕ) (items : List (Key × ℕ))
    → elem x.0 (keys items) ≡ false
    → others items (x.0 ∷ []) ≡ x.0 ∷ []
others-single x items h = ground arith

-- If the keys of the items are distinct, filling the pool moves them to the end of the LRU order
-- in their order, and the other keys keep theirs.
pub keys-fill :
    (h : HbmTier) (items : List (Key × ℕ))
    → Distinct (keys items)
    → keys (fill h items).blocks
      ≡ filter (λ k. not (elem k (keys items))) (keys h.blocks) ++ keys items
unfolding fill
keys-fill h [] d =
    ap (λ l. l) (sym (append-nil (keys h.blocks)))
    ∙ ap (λ l. l ++ []) (sym (filter-all (keys h.blocks)))
keys-fill h (x ∷ items) d =
    keys-fill (fill_one h x) items d.1
    ∙ ap (λ l. others items l ++ keys items) (keys-fill_one h x)
    ∙ ap (λ l. l ++ keys items)
        (filter-append (λ k. not (elem k (keys items))) (discard x.0 (keys h.blocks)) (x.0 ∷ []))
    ∙ ap (λ l. (others items (discard x.0 (keys h.blocks)) ++ l) ++ keys items)
        (others-single x items d.0)
    ∙ ap (λ l. (l ++ x.0 ∷ []) ++ keys items) (filter-discard x.0 (keys items) (keys h.blocks))
    ∙ append_assoc (others (x ∷ items) (keys h.blocks)) (x.0 ∷ []) (keys items)
