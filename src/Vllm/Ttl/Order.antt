-- ===== src/Vllm/Ttl/Order.antt =====
-- The order of `SessionTtlPolicy.evict`.
use adaptive_context_residen.Common.{ℕ, ◌≡◌, true, false, some, List, arith, filter, Eq}
use adaptive_context_residen.Common.Dict.{Dict, keys, elem, elem-filter}
use adaptive_context_residen.Common.Result.{ok}
use adaptive_context_residen.Common.Keys.{IsWeakOrder-key}
use adaptive_context_residen.Common.Select.{take-append-IsSorted}
use adaptive_context_residen.Common.Sort.{sort-IsSorted, IsSorted}
use adaptive_context_residen.Floats.{FloatOps}
use adaptive_context_residen.Floats.Order.{IsOrdered, lt-IsWeakOrder}
use adaptive_context_residen.Vllm.Ttl.{Ttl, live, deadline, by_deadline, evict}
use adaptive_context_residen.Vllm.Ttl.Invariant.{IsValid}
use adaptive_context_residen.Vllm.Ttl.Evict.{is_expired, elem-ranking, victims_of, keys-evict}

module _ {K : Type 0} ⦃e : Eq K⦄ ⦃fl : FloatOps⦄ where
  open fl use {F, le, lt}

  by_deadline-IsSorted :
      (o : IsOrdered fl) (expires : Dict K F) (expired ks : List K)
      → IsSorted
          (λ a b. lt (deadline expires a) (deadline expires b))
          (by_deadline expires expired ks)
  unfolding by_deadline
  by_deadline-IsSorted o expires expired ks =
      sort-IsSorted _ (IsWeakOrder-key (deadline expires) lt (lt-IsWeakOrder fl o)) _

module _ {K B : Type 0} ⦃e : Eq K⦄ ⦃fl : FloatOps⦄ where
  open fl use {F, le, lt}

  -- Among the victims, one that has not expired means that no survivor has expired, and that none
  -- expires before it.
  victims_order :
      (o : IsOrdered fl) (p : Ttl K B) (n : ℕ) (protected : List K) (now : F) (v s : K)
      → elem v (victims_of p n protected now) ≡ true
      → elem s (live p protected) ≡ true
      → elem s (victims_of p n protected now) ≡ false
      → le (deadline p.expires v) now ≡ false
      → (le (deadline p.expires s) now ≡ false)
        × (lt (deadline p.expires s) (deadline p.expires v) ≡ false)
  victims_order o p n protected now v s tv ls ns nv =
      let expired : List K = filter (is_expired p.expires now) (live p protected) in
      let (fresh, later) =
        take-append-IsSorted (λ a b. lt (deadline p.expires a) (deadline p.expires b)) n v s expired
          (by_deadline p.expires expired (live p protected))
          (by_deadline-IsSorted o p.expires expired (live p protected)) tv
          (ground (arith, elem-filter v (is_expired p.expires now) (live p protected)))
          (ground (arith, elem-ranking p.expires now (live p protected) s)) ns in
      (ground (arith, elem-filter s (is_expired p.expires now) (live p protected)), later)

  -- With an ordered float, on a valid policy, if a successful `SessionTtlPolicy.evict` takes a
  -- block that has not expired, then an evictable block that it leaves has not expired and does
  -- not expire before it.
  pub evict_order :
      (o : IsOrdered fl) (p : Ttl K B) (n : ℕ) (protected : List K) (now : F) (out : Dict K B)
      (p' : Ttl K B) (v s : K)
      → IsValid p
      → evict p n protected now ≡ ok (some out, p')
      → elem v (keys out) ≡ true
      → elem s (live p protected) ≡ true
      → elem s (keys out) ≡ false
      → le (deadline p.expires v) now ≡ false
      → (le (deadline p.expires s) now ≡ false)
        × (lt (deadline p.expires s) (deadline p.expires v) ≡ false)
  evict_order o p n protected now out p' v s valid h tv ls ns nv =
      let same = keys-evict p n protected now valid h in
      victims_order o p n protected now v s (rw same at tv) ls (rw same at ns) nv
