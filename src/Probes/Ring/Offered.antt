-- ===== src/Probes/Ring/Offered.antt =====
-- experiments/connector_ring_classify_probe.py: the keys that `simulate_store` offers of a group.
use adaptive_context_residen.Common.{
  ℕ, zero, suc, ◌+◌, ◌-◌, ◌*◌, ◌≤◌, ◌<◌, ◌≡◌, refl, Bool, Option, some, List, [], ◌∷◌, arith, ltb,
  ◌==◌, length, ◌++◌, length-append, Bool-cases, inl, inr,
}
use adaptive_context_residen.Probes.Lookup.{get_elem?}
use adaptive_context_residen.Probes.Ring.{
  RingGroup, GroupState, Store, n_tokens, block_of, offer, join, offers, offered,
}
use adaptive_context_residen.Probes.Streams.{range}

-- A list comes out, of `n` at most.
abbrev Returns : {A : Type 0} → Option (List A) → ℕ → Type 0
Returns {A} o n = (xs : List A) × (o ≡ some xs) × (length xs ≤ n)

get_elem?-found :
    {A : Type 0} (xs : List A) (i : ℕ) → i < length xs → (x : A) × (get_elem? xs i ≡ some x)
get_elem?-found [] i h = absurd (omega arith)
get_elem?-found (x ∷ xs) zero h = (x, refl)
get_elem?-found (x ∷ xs) (suc i) h = get_elem?-found xs i (omega arith)

module _ {K : Type 0} where
  join-Returns :
      (a b : Option (List K)) (m n : ℕ) → Returns a m → Returns b n → Returns (join a b) (m + n)
  unfolding join
  join-Returns a b m n (xs, is_a, h) (ys, is_b, k) =
      (xs ++ ys, rw (is_a, is_b) refl, omega (arith, length-append xs ys))

  offer-Returns :
      (keys : List K) (idx : ℕ) (reachable : Bool) (bid : ℕ)
      → idx < length keys
      → Returns (offer keys idx reachable (some bid)) 1
  unfolding offer
  offer-Returns keys idx reachable bid h = elim (Bool-cases (bid == 0)) [
    | inl is_zero ↦ ([], rw is_zero refl, omega arith)
    | inr given ↦ elim (Bool-cases reachable) [
      | inl is_reachable ↦
          let found = get_elem?-found keys idx h in
          (found.0 ∷ [], rw (given, is_reachable, found.1) refl, omega arith)
      | inr cut ↦ ([], rw (given, cut) refl, omega arith)
    ]
  ]

  -- Behind the table's end nothing is offered.
  chunk-Returns :
      (block_ids : List ℕ) (keys : List K) (idx : ℕ) (reachable : Bool)
      → idx < length keys
      → Returns
          (offer keys idx reachable (block_of 1 block_ids idx))
          ((length block_ids - idx) - (length block_ids - suc idx))
  unfolding offer block_of
  chunk-Returns block_ids keys idx reachable h = elim (Bool-cases (ltb idx (length block_ids))) [
    | inl inside ↦
        let found = get_elem?-found block_ids (idx * 1 + 1 - 1) (ground arith) in
        let (ks, is_ks, few) = offer-Returns keys idx reachable found.0 h in
        (ks, rw (inside, found.1) is_ks, ground arith)
    | inr behind ↦ ([], rw behind refl, omega arith)
  ]

  offers-Returns :
      (block_ids : List ℕ) (keys : List K) (reachable : ℕ → Bool) (i n : ℕ)
      → i + n ≤ length keys
      → Returns (offers 1 block_ids keys reachable (range i n)) (length block_ids - i)
  unfolding offers
  offers-Returns block_ids keys reachable i zero h = ([], refl, omega arith)
  offers-Returns block_ids keys reachable i (suc n) h =
      let (ks, is_ks, few) =
        join-Returns _ _ _ _ (chunk-Returns block_ids keys i (reachable i) (omega arith))
          (offers-Returns block_ids keys reachable (suc i) n (omega arith)) in
      (ks, is_ks, omega arith)

  module _ (store : Store K) (storable_chunks : RingGroup → GroupState K → ℕ → ℕ)
      (is_store_reachable_swa_chunk : ℕ → ℕ → RingGroup → Bool) where
    -- With one block to a chunk and a key for every storable chunk, the inner loop of
    -- `simulate_store` does not raise, whatever the engine's helpers answer, and it offers the
    -- manager at most as many keys of a group as its table has blocks from the first chunk that is
    -- not yet stored on; so the ring, with its one pinned block, offers at most one.
    pub offered_total :
        (gc : RingGroup) (gs : GroupState K) (block_ids : List ℕ)
        → gs.next_stored_chunk_idx ≤ length gs.offload_keys
        → storable_chunks gc gs n_tokens ≤ length gs.offload_keys
        → (ks : List K) × (offered store storable_chunks is_store_reachable_swa_chunk 1 gc gs
              block_ids
            ≡ some ks)
          × (length ks ≤ length block_ids - gs.next_stored_chunk_idx)
    unfolding offered
    offered_total gc gs block_ids started h =
        offers-Returns block_ids gs.offload_keys _ gs.next_stored_chunk_idx _ (omega arith)
