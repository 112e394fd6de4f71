-- ===== src/Index/Leases.antt =====
-- The lease queries of `PrefixIndex`. A set is a list here; no query depends on its order.
use adaptive_context_residen.Common.{
  ℕ, min, max, String, none, some, List, [], if◌then◌else◌, leb, filter, length, string_eq,
}
use adaptive_context_residen.Common.Dict.{lookup}
use adaptive_context_residen.Floats.{FloatOps, fmax}
use adaptive_context_residen.Index.Defs.{Key, key_eq, BlockInfo, PrefixIndex}

module _ ⦃fl : FloatOps⦄ where
  open fl use {F, of_ℕ, decimal, infinity, sub, mul, div, neg, pow, exp, le}

  -- The default of `stale_after`.
  abbrev pub stale_after_s : F
  stale_after_s = of_ℕ 900

  -- `self.session_last_seen.get(s, math.inf)`
  unfoldable pub last_seen : PrefixIndex → String → F
  last_seen ix s = elim (lookup s ix.session_last_seen) [ none ↦ infinity | some t ↦ t ]

  unfoldable pub live_leases : PrefixIndex → Key → F → F → List String
  unfolding last_seen
  live_leases ix key now stale_after = elim (lookup key ix.blocks) [
    | none ↦ []
    | some info ↦ filter (λ s. le (sub now (last_seen ix s)) stale_after) info.refs
  ]

  -- The hazard of one block, before the leases count.
  unfoldable pub hazard : BlockInfo → F → F → F
  hazard info now horizon = elim info.iat_ema [
    | none ↦ decimal 5 2
    | some ema ↦
        if le ema (of_ℕ 0)
        then decimal 5 2
        else mul (exp (div (neg (fmax (of_ℕ 0) (sub now info.last_use))) ema))
            (sub (of_ℕ 1) (exp (div (neg horizon) ema)))
  ]

  -- `p if leases <= 1 else 1.0 - (1.0 - p) ** min(leases, 8)`
  unfoldable pub aggregate : F → ℕ → F
  aggregate p leases =
      if leb leases 1 then p else sub (of_ℕ 1) (pow (sub (of_ℕ 1) p) (of_ℕ (min leases 8)))

  unfoldable pub live_reuse_prob : PrefixIndex → Key → F → F → F
  unfolding live_leases hazard aggregate
  live_reuse_prob ix key now horizon = elim (lookup key ix.blocks) [
    | none ↦ of_ℕ 0
    | some info ↦
        aggregate (hazard info now horizon) (max 1 (length (live_leases ix key now stale_after_s)))
  ]
