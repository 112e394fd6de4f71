-- ===== src/Vllm/Value/Laws.antt =====
-- What `AcrValuePolicy.evict` takes and leaves, and in what order.
use adaptive_context_residen.Common.{
  ℕ, zero, suc, ◌≤◌, ◌<◌, ◌≡◌, refl, sym, ◌∙◌, ◌≢◌, Bool-cases, inl, inr, true, false, not, ◌&&◌,
  none, some, List, [], ◌∷◌, arith, if◌then◌else◌, ltb, ◌==◌, length, take, All, Eq,
}
use native.Mathlib.Decide.{dec_le}
use adaptive_context_residen.Common.Dict.{Dict, keys, lookup, elem, Distinct, elem-filter}
use adaptive_context_residen.Common.Keys.{lex-IsWeakOrder, IsWeakOrder-key, ltb-IsKeyOrder}
use adaptive_context_residen.Common.Result.{ok, exception}
use adaptive_context_residen.Common.Select.{
  elem_of_elem-take, Reads, items_at_total, take-append-IsSorted,
}
use adaptive_context_residen.Common.Sort.{elem-sort, sort-IsSorted, IsSorted}
use adaptive_context_residen.Floats.{FloatOps}
use adaptive_context_residen.Floats.Order.{IsOrdered, lt-IsKeyOrder}
use adaptive_context_residen.Vllm.Value.{Value}
use adaptive_context_residen.Vllm.Value.Evict.{
  rank, rank_lt, candidates, ranked, remove_all, evict, ranking_raises,
}
use adaptive_context_residen.Vllm.Value.Invariant.{IsValid}

ok_not_exception : {A : Type 0} {a : A} → ok a ≢ exception
ok_not_exception e = absurd (ground (arith, e))

-- Iterating over a set gives each member once.
pub record IsIteration {K : Type 0} ⦃e : Eq K⦄ (order : List K → List K) : Type 0 where
  pub once : (xs : List K) → Distinct xs → Distinct (order xs)
  pub members : (k : K) (xs : List K) → elem k (order xs) ≡ elem k xs

module _ {K B : Type 0} ⦃e : Eq K⦄ ⦃fl : FloatOps⦄ where
  open fl use {F}

  -- What a successful eviction of `n` blocks has done.
  pub record Evicted (p : Value K B) (n : ℕ) (protected : List K) (out : Dict K B) (p' : Value K B)
      : Type 0 where
    -- `n` different blocks, each with the status that it had,
    pub count : length (keys out) ≡ n
    pub distinct : Distinct (keys out)
    pub held : All (λ x. lookup x.0 p.blocks ≡ some x.1) out
    -- all of them evictable and none protected,
    pub spared :
        (k : K)
        → elem k (keys out) ≡ true
        → (elem k p.evictable ≡ true) × (elem k protected ≡ false)
    -- are gone, and every other block is as it was.
    pub kept :
        (k : K) → lookup k p'.blocks ≡ (if elem k (keys out) then none else lookup k p.blocks)

  module _ (order : List K → List K) (iter : IsIteration order) (p : Value K B) (protected : List K)
      (now : F) where
    abbrev order_of : List K
    order_of = ranked order p protected now

    elem-ranked : (k : K) → elem k order_of ≡ (not (elem k protected) && elem k p.evictable)
    unfolding ranked candidates
    elem-ranked k = rw (elem-sort, elem-filter, iter.members) refl

    Reads-ranked : IsValid p → (n : ℕ) → Reads (take n order_of) p.blocks
    Reads-ranked v n =
        items_at_total (take n order_of) p.blocks
          (λ k h. ground (arith, elem_of_elem-take k n order_of h, elem-ranked k, v.stored k))

    ranked-IsSorted :
        IsOrdered fl → IsSorted (λ a b. rank_lt (rank p now a) (rank p now b)) order_of
    unfolding ranked
    ranked-IsSorted o =
        sort-IsSorted _
          (IsWeakOrder-key (rank p now) rank_lt (
            lex-IsWeakOrder fl.lt fl.eq _ (lt-IsKeyOrder fl o)
              (lex-IsWeakOrder fl.lt fl.eq ltb (lt-IsKeyOrder fl o) ltb-IsKeyOrder.weak)))
          (candidates order p protected)

  evict-eq :
      (order : List K → List K) (p : Value K B) (n : ℕ) (protected : List K) (now : F)
      → n ≤ length (candidates order p protected)
      → ranking_raises p (candidates order p protected) ≡ false
      → (r : Reads (take n (ranked order p protected now)) p.blocks)
      → evict order p n protected now
        ≡ ok (some r.0, remove_all p (take n (ranked order p protected now)))
  unfolding evict
  evict-eq order p zero protected now h quiet ([], read, same, held) = unfold remove_all in refl
  evict-eq order p zero protected now h quiet (x ∷ out, read, same, held) = absurd (ground arith)
  evict-eq order p (suc n) protected now h quiet (out, read, same, held) =
      let enough : ltb (length (candidates order p protected)) (suc n) ≡ false = ground arith in
      let asked : (suc n == 0) ≡ false = ground arith in rw (asked, enough, quiet, read)

  -- If the ranking raises, so does `evict`, if it asks for a block.
  evict_raised :
      (order : List K → List K) (p : Value K B) (n : ℕ) (protected : List K) (now : F)
      → suc n ≤ length (candidates order p protected)
      → ranking_raises p (candidates order p protected) ≡ true
      → evict order p (suc n) protected now ≡ exception
  unfolding evict
  evict_raised order p n protected now h bad =
      let enough : ltb (length (candidates order p protected)) (suc n) ≡ false = ground arith in
      let asked : (suc n == 0) ≡ false = ground arith in rw (asked, enough, bad) refl

  -- With fewer candidates than asked for, `evict` answers `None` and changes nothing.
  pub value_evict_refused :
      (order : List K → List K) (p : Value K B) (n : ℕ) (protected : List K) (now : F)
      → length (candidates order p protected) < n
      → evict order p n protected now ≡ ok (none, p)
  unfolding evict
  value_evict_refused order p n protected now h = ground arith

  evict_nothing :
      (order : List K → List K) (p : Value K B) (protected : List K) (now : F)
      → evict order p zero protected now ≡ ok (some [], p)
  unfolding evict
  evict_nothing order p protected now = refl

  keys-evict :
      (order : List K → List K) (p : Value K B) (n : ℕ) (protected : List K) (now : F)
      {out : Dict K B} {p' : Value K B}
      → IsIteration order
      → IsValid p
      → evict order p n protected now ≡ ok (some out, p')
      → keys out ≡ take n (ranked order p protected now)
  keys-evict order p zero protected now {out} iter v h =
      let done = evict_nothing order p protected now in let same : keys out ≡ [] = cc in same
  keys-evict order p (suc n) protected now {out} iter v h =
      elim (dec_le (suc n) (length (candidates order p protected))) [
        | yes enough ↦ elim (Bool-cases (ranking_raises p (candidates order p protected))) [
          | inl bad ↦
              absurd (ok_not_exception (sym h ∙ evict_raised order p n protected now enough bad))
          | inr quiet ↦
              let r = Reads-ranked order iter p protected now v (suc n) in
              let done = evict-eq order p (suc n) protected now enough quiet r in
              let same : keys out ≡ keys r.0 = cc in same ∙ r.2
        ]
        | no few ↦ absurd (cc (value_evict_refused order p (suc n) protected now (omega arith)))
      ]

  -- With an ordered float, on a valid policy, no evictable unprotected block that a successful
  -- `AcrValuePolicy.evict` leaves ranks below one that it takes, by score, then last use, then
  -- number of uses.
  pub value_evict_order :
      (order : List K → List K) (p : Value K B) (n : ℕ) (protected : List K) (now : F)
      (out : Dict K B) (p' : Value K B) (v s : K)
      → IsOrdered fl
      → IsIteration order
      → IsValid p
      → evict order p n protected now ≡ ok (some out, p')
      → elem v (keys out) ≡ true
      → elem s p.evictable ≡ true
      → elem s protected ≡ false
      → elem s (keys out) ≡ false
      → rank_lt (rank p now s) (rank p now v) ≡ false
  value_evict_order order p n protected now out p' v s o iter valid h tv ts ps ns =
      let same = keys-evict order p n protected now iter valid h in
      (take-append-IsSorted (λ a b. rank_lt (rank p now a) (rank p now b)) n v s []
        (ranked order p protected now) (ranked-IsSorted order iter p protected now o)
        (rw same at tv) refl (ground (arith, elem-ranked order iter p protected now s))
        (rw same at ns)).1
