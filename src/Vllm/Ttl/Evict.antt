-- ===== src/Vllm/Ttl/Evict.antt =====
-- What `SessionTtlPolicy.evict` takes and leaves.
use adaptive_context_residen.Common.{
  ℕ, zero, suc, ◌≤◌, ◌<◌, ◌≡◌, refl, ◌∙◌, ap, Bool, true, false, not, ◌&&◌, ◌||◌, none, some,
  is_some, List, [], ◌∷◌, ◌++◌, arith, if◌then◌else◌, ltb, ◌==◌, length, length-append, length-take,
  take, filter, All, Eq, =?_refl,
}
use native.Mathlib.Decide.{dec_le}
use adaptive_context_residen.Common.Dict.{
  Dict, keys, lookup, elem, Distinct, elem-append, elem-filter, elem-keys, lookup-erase,
  Distinct-filter, Distinct-append,
}
use adaptive_context_residen.Common.Result.{ok}
use adaptive_context_residen.Common.Select.{
  length-filter-add-filter-not, elem_of_elem-take, Distinct-take, filter-not-elem, Reads,
  items_at_total,
}
use adaptive_context_residen.Common.Sort.{sort, length-sort, elem-sort, Distinct-sort}
use adaptive_context_residen.Floats.{FloatOps}
use adaptive_context_residen.Vllm.Ttl.{
  Ttl, remove, live, expired_of, deadline, by_deadline, remove_all, evict,
}
use adaptive_context_residen.Vllm.Ttl.Invariant.{IsValid, remove_all-IsValid}

module _ {K : Type 0} ⦃e : Eq K⦄ ⦃fl : FloatOps⦄ where
  open fl use {F, le, lt}

  -- The test that `expired_of` makes.
  abbrev pub is_expired : Dict K F → F → K → Bool
  is_expired expires now k = le (deadline expires k) now

  pub expired_of_total :
      (expires : Dict K F) (now : F) (ks : List K)
      → ((k : K) → elem k ks ≡ true → is_some (lookup k expires) ≡ true)
      → expired_of expires now ks ≡ ok (filter (is_expired expires now) ks)
  unfolding expired_of deadline
  expired_of_total expires now [] h = refl
  expired_of_total expires now (k ∷ ks) h =
      ground
        (arith, h k, =?_refl k, expired_of_total expires now ks (λ j m. h j (ground (arith, m))))

  -- The order in which `evict` takes the candidates.
  abbrev pub ranking : Dict K F → F → List K → List K
  ranking expires now ks =
      let expired = filter (is_expired expires now) ks in expired ++ by_deadline expires expired ks

  by_deadline-sort :
      (expires : Dict K F) (now : F) (ks : List K)
      → by_deadline expires (filter (is_expired expires now) ks) ks
        ≡ sort
            (λ a b. lt (deadline expires a) (deadline expires b))
            (filter (λ k. not (is_expired expires now k)) ks)
  unfolding by_deadline
  by_deadline-sort expires now ks =
      ap (sort (λ a b. lt (deadline expires a) (deadline expires b)))
        (filter-not-elem (is_expired expires now) ks ks (λ k h. h))

  pub length-ranking :
      (expires : Dict K F) (now : F) (ks : List K) → length (ranking expires now ks) ≡ length ks
  length-ranking expires now ks =
      rw (length-append, by_deadline-sort, length-sort)
        (length-filter-add-filter-not (is_expired expires now) ks)

  pub elem-ranking :
      (expires : Dict K F) (now : F) (ks : List K) (k : K)
      → elem k (ranking expires now ks) ≡ elem k ks
  elem-ranking expires now ks k =
      rw (elem-append, by_deadline-sort, elem-sort, elem-filter, elem-filter) (ground arith)

  pub Distinct-ranking :
      (expires : Dict K F) (now : F) (ks : List K) → Distinct ks → Distinct (ranking expires now ks)
  Distinct-ranking expires now ks d = rw by_deadline-sort (
      Distinct-append (filter (is_expired expires now) ks) _ (Distinct-filter _ ks d)
        (Distinct-sort _ _ (Distinct-filter _ ks d))
        (λ k h.
          rw (elem-sort, elem-filter) (ground (arith, elem-filter k (is_expired expires now) ks))))

module _ {K B : Type 0} ⦃e : Eq K⦄ ⦃fl : FloatOps⦄ where
  open fl use {F}

  -- What a successful eviction of `n` blocks has done.
  pub record Evicted (p : Ttl K B) (n : ℕ) (protected : List K) (out : Dict K B) (p' : Ttl K B)
      : Type 0 where
    -- `n` different blocks, each with the status that it had,
    pub count : length (keys out) ≡ n
    pub distinct : Distinct (keys out)
    pub held : All (λ x. lookup x.0 p.blocks ≡ some x.1) out
    -- none of them protected or pinned,
    pub spared : (k : K) → elem k (keys out) ≡ true → (elem k protected || elem k p.pinned) ≡ false
    -- are gone, and every other block is as it was.
    pub kept :
        (k : K) → lookup k p'.blocks ≡ (if elem k (keys out) then none else lookup k p.blocks)

  lookup-remove_all :
      (ks : List K) (p : Ttl K B) (k : K)
      → lookup k (remove_all p ks).blocks ≡ (if elem k ks then none else lookup k p.blocks)
  unfolding remove_all
  lookup-remove_all [] p k = refl
  lookup-remove_all (j ∷ ks) p k =
      ground (arith, lookup-remove_all ks (remove p j) k, lookup-erase j k p.blocks)

  elem-live :
      (p : Ttl K B) (protected : List K) (k : K)
      → elem k (live p protected)
        ≡ (not (elem k protected) && not (elem k p.pinned) && is_some (lookup k p.blocks))
  unfolding live
  elem-live p protected k = rw (elem-filter, elem-keys) (ground arith)

  Distinct-live : (p : Ttl K B) (protected : List K) → IsValid p → Distinct (live p protected)
  unfolding live
  Distinct-live p protected v = Distinct-filter _ (keys p.blocks) v.distinct

  abbrev pub victims_of : Ttl K B → ℕ → List K → F → List K
  victims_of p n protected now = take n (ranking p.expires now (live p protected))

  module _ (p : Ttl K B) (valid : IsValid p) (n : ℕ) (protected : List K) (now : F) where
    abbrev victims : List K
    victims = victims_of p n protected now

    live_of_victim : (k : K) → elem k victims ≡ true → elem k (live p protected) ≡ true
    live_of_victim k h =
        let taken : elem k (ranking p.expires now (live p protected)) ≡ true =
          elem_of_elem-take k n (ranking p.expires now (live p protected)) h in
        rw (elem-ranking p.expires now (live p protected) k) at taken

    Reads-victims : Reads victims p.blocks
    Reads-victims =
        items_at_total victims p.blocks
          (λ k h. ground (arith, elem-live p protected k, live_of_victim k h))

    expired_of-live :
        expired_of p.expires now (live p protected)
        ≡ ok (filter (is_expired p.expires now) (live p protected))
    expired_of-live =
        expired_of_total p.expires now (live p protected)
          (λ k h. ground (arith, elem-live p protected k, valid.covered k))

    -- With fewer candidates than asked for, `evict` answers `None` and changes nothing.
    pub evict_refused : length (live p protected) < n → evict p n protected now ≡ ok (none, p)
    unfolding evict
    evict_refused h = ground arith

    Evicted-Reads :
        n ≤ length (live p protected)
        → (r : Reads victims p.blocks) → Evicted p n protected r.0 (remove_all p victims)
    Evicted-Reads h (out, read, same, held) = record {
      count = rw (same, length-take, length-ranking p.expires now (live p protected)) (omega arith);
      distinct =
          rw same (
            Distinct-take n _ (Distinct-ranking p.expires now _ (Distinct-live p protected valid)));
      held = held;
      spared = λ k m. ground (arith, elem-live p protected k, live_of_victim k (rw same at m));
      kept = λ k. rw same (lookup-remove_all victims p k);
    }

  evict-eq :
      (p : Ttl K B) (n : ℕ) (protected : List K) (now : F)
      → expired_of p.expires now (live p protected)
        ≡ ok (filter (is_expired p.expires now) (live p protected))
      → n ≤ length (live p protected)
      → (r : Reads (victims_of p n protected now) p.blocks)
      → evict p n protected now ≡ ok (some r.0, remove_all p (victims_of p n protected now))
  unfolding evict
  evict-eq p zero protected now total h ([], read, same, held) = unfold remove_all in refl
  evict-eq p zero protected now total h (x ∷ out, read, same, held) = absurd (ground arith)
  evict-eq p (suc n) protected now total h (out, read, same, held) =
      let enough : ltb (length (live p protected)) (suc n) ≡ false = ground arith in
      let asked : (suc n == 0) ≡ false = ground arith in rw (asked, enough, total, read)

  -- If the blocks' keys are distinct and each has a deadline, and at least `n` blocks are neither
  -- protected nor pinned, `SessionTtlPolicy.evict` returns `n` different such blocks with their
  -- statuses, removes exactly these, and keeps the invariant.
  pub evict-Evicted :
      (p : Ttl K B) (n : ℕ) (protected : List K) (now : F)
      → IsValid p
      → n ≤ length (live p protected)
      → (out : Dict K B) × (p' : Ttl K B) × (evict p n protected now ≡ ok (some out, p'))
        × Evicted p n protected out p'
        × IsValid p'
  evict-Evicted p n protected now v h =
      let victims = victims_of p n protected now in
      let r = Reads-victims p v n protected now in
      (
        r.0,
        remove_all p victims,
        evict-eq p n protected now (expired_of-live p v n protected now) h r,
        Evicted-Reads p v n protected now h r,
        remove_all-IsValid victims p v,
      )

  -- The victims of a successful eviction are the head of the ranking.
  pub keys-evict :
      (p : Ttl K B) (n : ℕ) (protected : List K) (now : F) {out : Dict K B} {p' : Ttl K B}
      → IsValid p
      → evict p n protected now ≡ ok (some out, p')
      → keys out ≡ victims_of p n protected now
  keys-evict p n protected now {out} v h = elim (dec_le n (length (live p protected))) [
    | yes enough ↦
        let r = Reads-victims p v n protected now in
        let done = evict-eq p n protected now (expired_of-live p v n protected now) enough r in
        let same : keys out ≡ keys r.0 = cc in same ∙ r.2
    | no few ↦ absurd (cc (evict_refused p v n protected now (omega arith)))
  ]
