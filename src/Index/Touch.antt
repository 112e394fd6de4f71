-- ===== src/Index/Touch.antt =====
-- `PrefixIndex.touch_path` and `release_session`: the operations that change leases.
pub mod Refs
pub mod Invariant
pub mod Refines
pub mod Known
use adaptive_context_residen.Common.{
  ℕ, suc, String, ◌<>◌, Bool, true, false, not, ◌&&◌, Option, none, some, List, [], ◌∷◌, ◌++◌,
  if◌then◌else◌, ltb, filter, length, drop, map, string_eq,
}
use adaptive_context_residen.Common.Dict.{Dict, lookup, insert, erase, elem, add, discard}
use adaptive_context_residen.Floats.{FloatOps}
use adaptive_context_residen.Config.{CostModel}
use adaptive_context_residen.Index.Defs.{Key, key_eq, BlockInfo, observe_use, PrefixIndex}
use adaptive_context_residen.Index.Chain.{Part, chain}

module _ ⦃fl : FloatOps⦄ where
  open fl use {F, of_ℕ, mul, trunc}

  -- `int(tokens * self.cost.kv_bytes_per_token)`
  unfoldable pub block_bytes : CostModel → ℕ → ℕ
  block_bytes cost tokens = trunc (mul (of_ℕ tokens) cost.kv_bytes_per_token)

  -- The block's record before it is leased and used: a new one, the old one, or the old one grown.
  unfoldable pub grown : CostModel → F → ℕ → Part → Option BlockInfo → BlockInfo
  unfolding block_bytes
  grown cost now depth p none = record {
    key = p.key;
    tokens = p.tokens;
    nbytes = block_bytes cost p.tokens;
    depth = depth;
    shared = p.shared;
    created_at = now;
    last_use = of_ℕ 0;
    uses = 0;
    iat_ema = none;
    refs = [];
    roles = [];
    tier = none;
  }
  grown cost now depth p (some info) =
      if ltb info.tokens p.tokens
      then record info { tokens = p.tokens; nbytes = block_bytes cost p.tokens }
      else info

  -- `refs.add`, `roles.add` and `observe_use`
  unfoldable pub leased : String → String → F → BlockInfo → BlockInfo
  unfolding observe_use
  leased session_id role now info =
      observe_use now (record info { refs = add session_id info.refs; roles = add role info.roles })

  -- The loop of `touch_path` over `enumerate(parts)`.
  unfoldable pub touch_parts :
      CostModel → String → String → F → ℕ → List Part → Dict Key BlockInfo → Dict Key BlockInfo
  unfolding leased grown
  touch_parts cost session_id role now depth [] blocks = blocks
  touch_parts cost session_id role now depth (p ∷ parts) blocks =
      touch_parts cost session_id role now (suc depth) parts (
        insert p.key (leased session_id role now (grown cost now depth p (lookup p.key blocks)))
          blocks)

  -- `info.refs.discard(session_id)` where the block is known.
  unfoldable pub drop_ref : String → Key → Dict Key BlockInfo → Dict Key BlockInfo
  drop_ref session_id k blocks = elim (lookup k blocks) [
    | none ↦ blocks
    | some info ↦ insert k (record info { refs = discard session_id info.refs }) blocks
  ]

  -- The loop of `touch_path` over `stale`.
  unfoldable pub drop_refs : String → List Key → Dict Key BlockInfo → Dict Key BlockInfo
  unfolding drop_ref
  drop_refs session_id [] blocks = blocks
  drop_refs session_id (k ∷ ks) blocks = drop_refs session_id ks (drop_ref session_id k blocks)

  -- `self.session_path.get(session_id, [])`
  unfoldable pub path_of : PrefixIndex → String → List Key
  path_of ix session_id = elim (lookup session_id ix.session_path) [ none ↦ [] | some ks ↦ ks ]

  unfoldable pub path_parts : PrefixIndex → String → String → ℕ → ℕ → List Part
  unfolding chain
  path_parts ix session_id role prompt_tokens shared_prefix_tokens =
      chain ix session_id prompt_tokens shared_prefix_tokens ("root:" <> role)

  -- The new state, and the keys in prefix order.
  unfoldable pub touch_path :
      PrefixIndex → String → String → ℕ → ℕ → F → Bool → PrefixIndex × List Key
  touch_path ix session_id role prompt_tokens shared_prefix_tokens now aborted =
      let parts = path_parts ix session_id role prompt_tokens shared_prefix_tokens in
      let keys = map (λ p. p.key) parts in
      let old = path_of ix session_id in
      let stale = filter (λ k. not (elem k keys)) old in
      (
        record ix {
          blocks =
              drop_refs session_id stale
                (touch_parts ix.cost session_id role now 0 parts ix.blocks);
          session_path = insert session_id keys ix.session_path;
          session_role = insert session_id role ix.session_role;
          session_last_seen = insert session_id now ix.session_last_seen;
          invalidations =
              if aborted && ltb (length keys) (length old)
              then ix.invalidations ++ drop (length keys) old
              else ix.invalidations;
        },
        keys,
      )

  -- The loop of `release_session`: `none` stands for the `KeyError` of `self.blocks[key]`.
  unfoldable pub release_refs : String → List Key → Dict Key BlockInfo → Option (Dict Key BlockInfo)
  release_refs session_id [] blocks = some blocks
  release_refs session_id (k ∷ ks) blocks = elim (lookup k blocks) [
    | none ↦ none
    | some info ↦
        release_refs session_id ks
          (insert k (record info { refs = discard session_id info.refs }) blocks)
  ]

  unfoldable pub release_session : PrefixIndex → String → Option PrefixIndex
  release_session ix session_id = elim (release_refs session_id (path_of ix session_id) ix.blocks) [
    | none ↦ none
    | some blocks ↦ some (record ix {
      blocks = blocks;
      session_path = erase session_id ix.session_path;
      session_last_seen = erase session_id ix.session_last_seen;
    })
  ]
