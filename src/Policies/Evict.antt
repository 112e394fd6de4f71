-- ===== src/Policies/Evict.antt =====
-- `evict` and `admit_chain` of every policy.
pub mod Freed
pub mod Sorted
pub mod Chains
pub mod Laws
pub mod Order
use adaptive_context_residen.Common.{
  ℕ, String, Bool, true, false, not, Option, none, some, List, [], ◌∷◌, map, if◌then◌else◌, ltb,
  ◌==◌, filter,
}
use adaptive_context_residen.Common.Dict.{Dict, values, elem}
use adaptive_context_residen.Common.Keys.{lex}
use adaptive_context_residen.Common.Sort.{sort}
use adaptive_context_residen.Floats.{FloatOps}
use adaptive_context_residen.Index.Defs.{Key, key_eq}
use adaptive_context_residen.Policies.Probe.{Probe}
use adaptive_context_residen.Policies.Tier.{
  Entry, Kind, recency, frequency, oracle, fixed_ttl, continuum_ttl, adaptive_value, TierPolicy,
}
use adaptive_context_residen.Policies.Take.{expire, erase_all, entry_keys, take_greedy}
use adaptive_context_residen.Policies.Adaptive.{
  admit_chain as admit_adaptive, group, rank_chains, drop_chains,
}

module _ ⦃fl : FloatOps⦄ where
  open fl use {F, neg, lt, eq}

  -- `(e for e in self.entries.values() if e.key not in protected)`
  unfoldable pub unprotected : List Key → Dict Key Entry → List Entry
  unprotected protected entries = filter (λ e. not (elem e.key protected)) (values entries)

  -- The sort keys of the policies that evict entry by entry.
  abbrev pub before : Kind → Entry → Entry → Bool
  before frequency a b = lex ltb ◌==◌ lt (a.uses, a.last_touch) (b.uses, b.last_touch)
  before (fixed_ttl _ _) a b =
      lex lt eq lt (a.expires_at, a.last_touch) (b.expires_at, b.last_touch)
  before (continuum_ttl _ _ _) a b =
      lex lt eq lt (a.expires_at, a.last_touch) (b.expires_at, b.last_touch)
  before oracle a b = lex lt eq lt (neg a.next_use, a.last_touch) (neg b.next_use, b.last_touch)
  before _ a b = lt a.last_touch b.last_touch

  unfoldable pub evict_sorted :
      Kind → ℕ → List Key → Dict Key Entry → Option (List Key) × Dict Key Entry
  evict_sorted kind needed protected entries =
      take_greedy (sort (before kind) (unprotected protected entries)) needed entries

  -- `AdaptiveValuePolicy.evict` after `_expire`. Without candidates it drops nothing, so the early
  -- return is the last one.
  unfoldable pub evict_chains :
      F
      → Dict String F
      → ℕ
      → List Key
      → F
      → Probe
      → Dict Key Entry
      → Option (List Key) × Dict Key Entry
  evict_chains horizon_s priors needed protected now pr entries =
      let chains = group now pr (unprotected protected entries) [] in
      let out = drop_chains needed 0 pr (rank_chains horizon_s priors pr (values chains)) in
      elim out [
        | [] ↦ (none, entries)
        | e ∷ es ↦ (some (entry_keys (e ∷ es)), erase_all (entry_keys (e ∷ es)) entries)
      ]

  -- The evicted keys, if any, and the entries that are left.
  unfoldable pub evict_entries :
      Kind → ℕ → List Key → F → Probe → Dict Key Entry → Option (List Key) × Dict Key Entry
  evict_entries (fixed_ttl b g) needed protected now pr entries =
      evict_sorted (fixed_ttl b g) needed protected (expire entries now)
  evict_entries (continuum_ttl k l h) needed protected now pr entries =
      evict_sorted (continuum_ttl k l h) needed protected (expire entries now)
  evict_entries (adaptive_value l horizon_s priors) needed protected now pr entries =
      evict_chains horizon_s priors needed protected now pr (expire entries now)
  evict_entries kind needed protected now pr entries = evict_sorted kind needed protected entries

  unfoldable pub evict : TierPolicy → ℕ → List Key → F → Probe → Option (List Key) × TierPolicy
  evict t needed protected now pr =
      let (out, entries) = evict_entries t.kind needed protected now pr t.entries in
      (out, record t { entries = entries })

  -- The base class admits the whole chain.
  abbrev pub admit_by : Kind → TierPolicy → List (Key × ℕ) → Probe → List (Key × ℕ)
  admit_by (adaptive_value l horizon_s priors) t items pr =
      admit_adaptive horizon_s priors t items pr
  admit_by _ t items pr = items

  unfoldable pub admit_chain : TierPolicy → List (Key × ℕ) → Probe → List (Key × ℕ)
  admit_chain t items pr = admit_by t.kind t items pr

  -- The hook that no caller uses.
  unfoldable pub admit : TierPolicy → Key → ℕ → Probe → Bool
  admit t key nbytes pr = true
