-- ===== src/Probes/Groups.antt =====
-- The cache groups of connector_lookup_veto_probe.py and connector_ring_classify_probe.py under
-- experiments: their specifications, how a group is classified, and which groups are looked up.
-- Of the engine's specifications only the sizes that the scripts read are kept.
use native.Mathlib.Nat.{div-eq_of_lt-le}
use adaptive_context_residen.Common.{
  ℕ, suc, ◌+◌, ◌-◌, ◌/◌, ◌<◌, ◌≡◌, refl, String, Bool, Option, none, some, is_some, List, [], ◌∷◌,
  ◌++◌, arith, if◌then◌else◌, ltb, leb, take, drop, length, map, Eq,
}
use adaptive_context_residen.Common.Dict.{add}
use adaptive_context_residen.Common.Sort.{sort}
use adaptive_context_residen.Probes.Lookup.{GroupConfig}

pub data KvSpec : Type 0 where
  full_attention : (block_size : ℕ) → KvSpec
  mamba : (block_size : ℕ) → KvSpec
  circular_buffer : (block_size : ℕ) → KvSpec
  sliding_window : (block_size window : ℕ) → KvSpec

pub record GroupSpec : Type 0 where
  pub layer_names : List String
  pub kv_cache_spec : KvSpec
  pub is_eagle_group : Bool

abbrev spec_of : String → KvSpec → Bool → GroupSpec
spec_of name spec eagle = record {
  layer_names = name ∷ [];
  kv_cache_spec = spec;
  is_eagle_group = eagle;
}

unfoldable pub set2_specs : Bool → List GroupSpec
set2_specs eagle =
    spec_of "l0.attn" (full_attention 816) eagle ∷ spec_of "l1.gdn" (mamba 16) eagle ∷ []

unfoldable pub set2_uniform_specs : Bool → List GroupSpec
set2_uniform_specs eagle =
    spec_of "l0.attn" (full_attention 816) eagle ∷ spec_of "l1.gdn" (mamba 816) eagle ∷ []

unfoldable pub set3_specs : Bool → List GroupSpec
set3_specs eagle =
    spec_of "l0.attn" (full_attention 816) eagle
    ∷ spec_of "l1.qsa" (circular_buffer 8) eagle
    ∷ spec_of "l2.gdn" (mamba 16) eagle
    ∷ []

-- The engine's own `get_sliding_window_size_in_chunks` is a parameter.
module _ (real_classify : KvSpec → ℕ → Option ℕ) where
  unfoldable pub ring_as_fullattn_classify : KvSpec → ℕ → Option ℕ
  ring_as_fullattn_classify (circular_buffer block_size) tokens_per_chunk =
      if leb tokens_per_chunk block_size then none else some 1
  ring_as_fullattn_classify kv_spec tokens_per_chunk = real_classify kv_spec tokens_per_chunk

  unfoldable pub old05_classify : KvSpec → ℕ → Option ℕ
  old05_classify (circular_buffer block_size) tokens_per_chunk =
      if leb tokens_per_chunk block_size
      then none
      else some ((block_size + tokens_per_chunk - 1) / tokens_per_chunk)
  old05_classify kv_spec tokens_per_chunk = real_classify kv_spec tokens_per_chunk

  -- A ring has at least one token.
  abbrev pub HasTokens : KvSpec → Type 0
  HasTokens (circular_buffer block_size) = 0 < block_size
  HasTokens _ = Unit

  one_window : (b t : ℕ) → 0 < b → b < t → (b + t - 1) / t ≡ 1
  one_window b t pos h = div-eq_of_lt-le {k = 1} t (omega arith) (omega arith)

  -- x
  pub old05_classify-ring_as_fullattn_classify :
      (spec : KvSpec) (tokens_per_chunk : ℕ)
      → HasTokens spec
      → old05_classify spec tokens_per_chunk ≡ ring_as_fullattn_classify spec tokens_per_chunk
  unfolding old05_classify ring_as_fullattn_classify
  old05_classify-ring_as_fullattn_classify (full_attention b) t h = refl
  old05_classify-ring_as_fullattn_classify (mamba b) t h = refl
  old05_classify-ring_as_fullattn_classify (sliding_window b w) t h = refl
  old05_classify-ring_as_fullattn_classify (circular_buffer b) t h =
      ground (arith, one_window b t h)

-- Which of a group's keys are stored: the argument `keep`.
pub data Keep : Type 0 where
  every : Keep
  none_of_them : Keep
  tail_1 : Keep
  leading : ℕ → Keep

module _ {K : Type 0} ⦃e : Eq K⦄ where
  -- `set(keys)`
  unfoldable pub set_of : List K → List K
  set_of [] = []
  set_of (k ∷ ks) = add k (set_of ks)

  unfoldable pub store_group : List K → Keep → List K
  unfolding set_of
  store_group keys every = set_of keys
  store_group keys none_of_them = []
  store_group keys tail_1 = set_of (drop (length keys - 1) keys)
  store_group keys (leading n) = set_of (take n keys)

-- The indices of the groups from `i` on that attend to the whole prefix.
unfoldable pub full_groups : ℕ → List GroupConfig → List ℕ
full_groups i [] = []
full_groups i (gc ∷ gcs) =
    if is_some gc.sliding_window_size_in_chunks
    then full_groups (suc i) gcs
    else i ∷ full_groups (suc i) gcs

-- The others, each with its window.
unfoldable pub windowed_groups : ℕ → List GroupConfig → List (ℕ × ℕ)
windowed_groups i [] = []
windowed_groups i (gc ∷ gcs) =
    let rest = windowed_groups (suc i) gcs in
    elim gc.sliding_window_size_in_chunks [ none ↦ rest | some window ↦ (i, window) ∷ rest ]

-- `_sliding_window_groups` of `build_scheduler`: the widest window first.
unfoldable pub sliding_groups : List GroupConfig → List ℕ
unfolding windowed_groups
sliding_groups gcs = map (λ x. x.0) (sort (λ a b. ltb b.1 a.1) (windowed_groups 0 gcs))

-- `_lookup_groups` of `build_scheduler`
unfoldable pub lookup_groups_of : List GroupConfig → List ℕ
unfolding full_groups sliding_groups
lookup_groups_of gcs = full_groups 0 gcs ++ sliding_groups gcs
