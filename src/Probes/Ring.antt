-- ===== src/Probes/Ring.antt =====
-- experiments/connector_ring_classify_probe.py: `simulate_store`, which offers the chunks of a prompt
-- to the manager group by group. The engine's helpers and its manager are parameters.
pub mod Offered
use adaptive_context_residen.Common.{
  ℕ, zero, suc, ◌+◌, ◌-◌, ◌*◌, ◌/◌, ◌≤◌, min, ◌≡◌, String, Bool, true, false, not, ◌&&◌, Option,
  none, some, List, [], ◌∷◌, map, arith, if◌then◌else◌, ltb, ◌==◌, length, ◌++◌, length-append,
  string_eq, Bool-cases, Option-cases, inl, inr,
}
use adaptive_context_residen.Common.Dict.{Dict, lookup, insert}
use adaptive_context_residen.Probes.Lookup.{get_elem?}
use adaptive_context_residen.Probes.Streams.{range}

-- The three variants of `build_scheduler`.
pub data Mode : Type 0 where
  old05 : Mode
  classify_only : Mode
  fixed : Mode

-- What `simulate_store` reads of a group's configuration.
pub record RingGroup : Type 0 where
  pub group_idx : ℕ
  pub is_circular_buffer_group : Bool
  pub alignment_chunk_count : Option ℕ
  pub sliding_window_size_in_chunks : Option ℕ
  pub is_eagle_group : Bool

-- The keys of a group, and the first chunk that is not yet stored.
pub record GroupState (K : Type 0) : Type 0 where
  pub offload_keys : List K
  pub next_stored_chunk_idx : ℕ

-- `CPUOffloadingManager`, as far as it is called; `prepare_store` may refuse.
pub record Store (K : Type 0) : Type 1 where
  pub M : Type 0
  pub prepare_store : List K → M → Option (List K) × M
  pub complete_store : List K → M → M

abbrev pub n_tokens : ℕ
n_tokens = 4080

abbrev pub order : List String
order = "fa" ∷ "qsa" ∷ "mamba" ∷ []

unfoldable pub tables : Dict String (List ℕ)
tables =
    ("fa", range 1 (n_tokens / 816)) ∷ ("qsa", 7 ∷ []) ∷ ("mamba", range 100 (n_tokens / 16)) ∷ []

-- The block of a chunk, 0 behind the table's end; `none` stands for an `IndexError`.
unfoldable pub block_of : ℕ → List ℕ → ℕ → Option ℕ
block_of blocks_per_chunk block_ids idx =
    if ltb idx (length block_ids)
    then get_elem? block_ids (idx * blocks_per_chunk + blocks_per_chunk - 1)
    else some 0

module _ {K : Type 0} where
  -- What the loop appends for a chunk: a key, or nothing.
  unfoldable pub offer : List K → ℕ → Bool → Option ℕ → Option (List K)
  offer keys idx reachable none = none
  offer keys idx reachable (some bid) =
      if bid == 0
      then some []
      else if not reachable
      then some []
      else elim (get_elem? keys idx) [ none ↦ none | some k ↦ some (k ∷ []) ]

  unfoldable pub join : Option (List K) → Option (List K) → Option (List K)
  join (some xs) (some ys) = some (xs ++ ys)
  join _ _ = none

  -- The inner loop.
  unfoldable pub offers : ℕ → List ℕ → List K → (ℕ → Bool) → List ℕ → Option (List K)
  unfolding block_of offer join
  offers blocks_per_chunk block_ids keys reachable [] = some []
  offers blocks_per_chunk block_ids keys reachable (idx ∷ idxs) =
      join (offer keys idx (reachable idx) (block_of blocks_per_chunk block_ids idx))
        (offers blocks_per_chunk block_ids keys reachable idxs)

  module _ (store : Store K) (storable_chunks : RingGroup → GroupState K → ℕ → ℕ)
      (is_store_reachable_swa_chunk : ℕ → ℕ → RingGroup → Bool) where
    -- `keys` of a group with its table.
    unfoldable pub offered : ℕ → RingGroup → GroupState K → List ℕ → Option (List K)
    unfolding offers
    offered blocks_per_chunk gc gs block_ids =
        let num_chunks = storable_chunks gc gs n_tokens in
        offers blocks_per_chunk block_ids gs.offload_keys
          (λ idx. is_store_reachable_swa_chunk idx num_chunks gc)
          (range gs.next_stored_chunk_idx (num_chunks - gs.next_stored_chunk_idx))

    unfoldable pub is_fixed : Mode → Bool
    is_fixed fixed = true
    is_fixed _ = false

    -- `list(out.keys_to_store) if out else []`
    abbrev pub accepted : Option (List K) → List K
    accepted none = []
    accepted (some ks) = ks

    -- The body of the loop over the groups: the count of the group, and the manager.
    unfoldable pub store_one :
        Mode → ℕ → RingGroup → GroupState K → List ℕ → store.M → Option (ℕ × store.M)
    unfolding offered is_fixed
    store_one mode blocks_per_chunk gc gs block_ids m =
        if is_fixed mode && gc.is_circular_buffer_group
        then some (0, m)
        else elim (offered blocks_per_chunk gc gs block_ids) [
          | none ↦ none
          | some ks ↦
              let out = store.prepare_store ks m in
              some (length (accepted out.0), store.complete_store (accepted out.0) out.1)
        ]

    -- `none` stands for an exception.
    unfoldable pub simulate_store :
        Mode
        → ℕ
        → List RingGroup
        → List (GroupState K)
        → Dict String ℕ
        → store.M
        → Option (Dict String ℕ × store.M)
    unfolding store_one tables
    simulate_store mode blocks_per_chunk [] states counts m = some (counts, m)
    simulate_store mode blocks_per_chunk (gc ∷ gcs) states counts m =
        elim (get_elem? order gc.group_idx) [
          | none ↦ none
          | some name ↦ elim (get_elem? states gc.group_idx) [
            | none ↦ none
            | some gs ↦ elim (lookup name tables) [
              | none ↦ none
              | some block_ids ↦ elim (store_one mode blocks_per_chunk gc gs block_ids m) [
                | none ↦ none
                | some (n, m') ↦
                    simulate_store mode blocks_per_chunk gcs states (insert name n counts) m'
              ]
            ]
          ]
        ]
