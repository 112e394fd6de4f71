-- ===== src/Policies/Probe.antt =====
-- `Probe`: what a policy may ask about the application. The functions of floats give the value of a
-- call that returns; a test ending in `_raises` tells whether a division on the way is by zero.
use text.Mathlib.Text.{is_lt}
use Prim.Native.String.{compare}
use adaptive_context_residen.Common.{
  ℕ, max, String, Bool, false, not, ◌||◌, none, some, is_some, List, [], ◌∷◌, map, if◌then◌else◌,
  leb, sum_by, length, string_eq,
}
use adaptive_context_residen.Common.Dict.{Dict, lookup}
use adaptive_context_residen.Common.Result.{Result, ok, ◌>>=◌, items_at}
use adaptive_context_residen.Floats.{FloatOps, fmax, fmin}
use adaptive_context_residen.Config.{
  CostModel, TierConfig, recompute_seconds as cost_seconds, restore_seconds as tier_seconds,
  recompute_raises as cost_raises,
}
use adaptive_context_residen.Index.Defs.{Key, key_eq, BlockInfo, PrefixIndex}
use adaptive_context_residen.Index.Touch.{path_of}
use adaptive_context_residen.Index.Leases.{live_leases, live_reuse_prob, stale_after_s}

-- `min(names)` of a set that is not empty.
unfoldable pub min_name : String → List String → String
min_name a [] = a
min_name a (b ∷ names) = min_name (if is_lt (compare b a) then b else a) names

module _ ⦃fl : FloatOps⦄ where
  open fl use {F, of_ℕ, decimal, add, sub, mul, div, neg, exp, lt, le, eq}

  -- `max(x, *xs)` and `min(x, *xs)`
  unfoldable pub max_from : F → List F → F
  max_from x [] = x
  max_from x (y ∷ ys) = max_from (fmax x y) ys

  unfoldable pub min_from : F → List F → F
  min_from x [] = x
  min_from x (y ∷ ys) = min_from (fmin x y) ys

  -- `sum(...)` of floats, which starts at 0.
  unfoldable pub sum_from : F → List F → F
  sum_from x [] = x
  sum_from x (y ∷ ys) = sum_from (add x y) ys

  pub record Probe : Type 0 where
    pub index : PrefixIndex
    pub cost : CostModel
    pub tier : TierConfig
    pub horizon_s : F
    pub now : F
    pub tool_eta : Dict String F

  unfoldable pub eta_of : Probe → String → F
  eta_of pr s = elim (lookup s pr.tool_eta) [ none ↦ of_ℕ 0 | some eta ↦ eta ]

  unfoldable pub session_eta : Probe → Key → F
  unfolding max_from eta_of
  session_eta pr key = elim (live_leases pr.index key pr.now stale_after_s) [
    | [] ↦ of_ℕ 0
    | s ∷ ss ↦ max_from (eta_of pr s) (map (eta_of pr) ss)
  ]

  -- The branch `if eta > 0 and info is not None`.
  unfoldable pub with_hint : Probe → BlockInfo → F → F → F
  with_hint pr info eta p =
      if lt (of_ℕ 0) eta
      then (let idle = fmax (of_ℕ 0) (sub pr.now info.last_use) in
          fmax p (
            if le idle eta
            then decimal 9 1
            else mul (exp (div (neg (sub idle eta)) eta)) (decimal 9 1)))
      else p

  -- `priors.get(role, priors.get("default", p))` for `min(info.roles or {"?"})`
  unfoldable pub prior_of : Dict String F → BlockInfo → F → F
  unfolding min_name
  prior_of priors info p =
      let role : String = elim info.roles [ [] ↦ "?" | r ∷ rs ↦ min_name r rs ] in
      elim (lookup role priors) [
        | some q ↦ q
        | none ↦ elim (lookup "default" priors) [ some q ↦ q | none ↦ p ]
      ]

  -- The last step of `reuse_prob`; an empty dictionary of priors is no prior.
  unfoldable pub with_prior : Dict String F → BlockInfo → F → F
  unfolding prior_of
  with_prior [] info p = p
  with_prior (q ∷ priors) info p =
      if is_some info.iat_ema then p else fmax (prior_of (q ∷ priors) info p) p

  -- With `use_hints` at its default. `priors=None` is the empty dictionary.
  unfoldable pub reuse_prob : Probe → Key → Dict String F → F
  unfolding with_hint with_prior session_eta
  reuse_prob pr key priors =
      let p = live_reuse_prob pr.index key pr.now pr.horizon_s in
      elim (lookup key pr.index.blocks) [
        | none ↦ p
        | some info ↦ with_prior priors info (with_hint pr info (session_eta pr key) p)
      ]

  -- `sum(self.index.blocks[k].nbytes for k in path)`
  unfoldable pub path_bytes : PrefixIndex → List Key → Result ℕ
  path_bytes ix ks = do infos ← items_at ks ix.blocks; ok (sum_by (λ x. x.1.nbytes) infos)

  -- The loop of `chain_bytes`.
  unfoldable pub biggest_path : PrefixIndex → ℕ → List String → Result ℕ
  unfolding path_bytes
  biggest_path ix biggest [] = ok biggest
  biggest_path ix biggest (s ∷ ss) = do
    total ← path_bytes ix (path_of ix s)
    biggest_path ix (max biggest total) ss

  unfoldable pub chain_bytes : Probe → Key → Result ℕ
  unfolding biggest_path
  chain_bytes pr key = elim (lookup key pr.index.blocks) [
    | none ↦ ok 0
    | some info ↦ biggest_path pr.index 0 info.refs
  ]

  -- `info.nbytes if info else 0`
  unfoldable pub nbytes_of : PrefixIndex → Key → ℕ
  nbytes_of ix k = elim (lookup k ix.blocks) [ none ↦ 0 | some info ↦ info.nbytes ]

  unfoldable pub chain_reuse_prob : Probe → List Key → Dict String F → F
  unfolding sum_from nbytes_of reuse_prob
  chain_reuse_prob pr ks priors =
      div
        (sum_from (of_ℕ 0)
          (map (λ k. mul (reuse_prob pr k priors) (of_ℕ (nbytes_of pr.index k))) ks))
        (of_ℕ (max 1 (sum_by (nbytes_of pr.index) ks)))

  unfoldable pub has_history : Probe → Key → Bool
  has_history pr key = elim (lookup key pr.index.blocks) [
    | none ↦ false
    | some info ↦ is_some info.iat_ema
  ]

  unfoldable pub recompute_seconds : Probe → ℕ → F
  recompute_seconds pr nbytes = cost_seconds pr.cost (div (of_ℕ nbytes) pr.cost.kv_bytes_per_token)

  -- Whether one of the divisions by the cost model's rates raises.
  unfoldable pub recompute_raises : Probe → Bool
  recompute_raises pr = eq pr.cost.kv_bytes_per_token (of_ℕ 0) || cost_raises pr.cost

  unfoldable pub restore_seconds : Probe → ℕ → F
  restore_seconds pr nbytes = tier_seconds pr.tier nbytes

  unfoldable pub has_live_lease : Probe → Key → Bool
  has_live_lease pr key = not (leb (length (live_leases pr.index key pr.now stale_after_s)) 0)

  unfoldable pub recompute_seconds_per_byte : Probe → F
  recompute_seconds_per_byte pr =
      div (of_ℕ 1) (mul pr.cost.prefill_tokens_per_s pr.cost.kv_bytes_per_token)

  unfoldable pub roles : Probe → Key → List String
  roles pr key = elim (lookup key pr.index.blocks) [ none ↦ [] | some info ↦ info.roles ]
