-- ===== src/Policies/Raises.antt =====
-- Where `AdaptiveValuePolicy` raises: the divisions of its densities.
pub mod Never
use adaptive_context_residen.Common.{
  any, ℕ, ◌≡◌, refl, Bool, true, false, not, ◌&&◌, ◌||◌, List, [], ◌∷◌, ◌++◌, arith, if◌then◌else◌,
  ltb, sum_by, All,
}
use adaptive_context_residen.Common.Dict.{Dict, values, elem}
use adaptive_context_residen.Floats.{FloatOps}
use adaptive_context_residen.Config.{restore_raises}
use adaptive_context_residen.Index.Defs.{Key, key_eq}
use adaptive_context_residen.Policies.Probe.{Probe, recompute_raises}
use adaptive_context_residen.Policies.Tier.{Entry, Kind, adaptive_value, TierPolicy, pressure}
use adaptive_context_residen.Policies.Take.{expire}
use adaptive_context_residen.Policies.Adaptive.{group}
use adaptive_context_residen.Policies.Evict.{unprotected}

module _ ⦃fl : FloatOps⦄ where
  open fl use {F, decimal, lt}

  unfoldable pub density_raises : Probe → ℕ → Bool
  density_raises pr nbytes = recompute_raises pr || restore_raises pr.tier nbytes

  unfoldable pub admit_raises : Kind → TierPolicy → List (Key × ℕ) → Probe → Bool
  unfolding density_raises
  admit_raises (adaptive_value l horizon_s priors) t [] pr = false
  admit_raises (adaptive_value l horizon_s priors) t (x ∷ xs) pr =
      not (lt (pressure t) (decimal 9 1))
      && (any (λ y. density_raises pr y.1) (x ∷ xs)
          || any (λ e. density_raises pr e.nbytes) (values t.entries))
  admit_raises _ t items pr = false

  -- `_chain_density`
  unfoldable pub chain_raises : Probe → List Entry → Bool
  unfolding density_raises
  chain_raises pr chain =
      ltb 0 (sum_by (λ e. e.nbytes) chain) && any (λ e. density_raises pr e.nbytes) chain

  unfoldable pub evict_raises : Kind → List Key → F → Probe → Dict Key Entry → Bool
  unfolding chain_raises
  evict_raises (adaptive_value l horizon_s priors) protected now pr entries =
      any (chain_raises pr) (values (group now pr (unprotected protected (expire entries now)) []))
  evict_raises _ protected now pr entries = false
