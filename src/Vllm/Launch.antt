-- ===== src/Vllm/Launch.antt =====
-- src/acr/vllm/launch.py: `plan` and `kv_transfer_config`. The texts of the warnings are not modelled,
-- and `render` only prints.
use adaptive_context_residen.Common.{
  ℕ, ◌^◌, min, ◌≡◌, refl, String, Bool, true, false, not, ◌&&◌, Option, none, some, List, [], ◌∷◌,
  ◌++◌, arith, if◌then◌else◌, ltb, ◌==◌,
}
use adaptive_context_residen.Floats.{FloatOps}
use adaptive_context_residen.Config.{CostModel, breakeven_bw_gbs, default_config}

pub data Warning : Type 0 where
  budget_over_cap slow_storage : Warning

pub data SecondaryTier : Type 0 where
  fs : (root_dir : String) (n_read_threads n_write_threads : ℕ) → SecondaryTier

module _ ⦃fl : FloatOps⦄ where
  open fl use {F, of_ℕ, mul, trunc, le, eq}

  pub record LaunchPlan : Type 0 where
    pub cpu_bytes_to_use : ℕ
    pub block_size : Option ℕ
    pub eviction_policy : String
    pub cache_policy_module_path : String
    pub secondary_tiers : List SecondaryTier
    pub token_budget : ℕ
    pub warnings : List Warning

  -- The truth of an optional float: `None` and 0.0 are false.
  unfoldable pub is_given : Option F → Bool
  is_given none = false
  is_given (some x) = not (eq x (of_ℕ 0))

  -- What `storage_bw_gbs` asks for, and whether it is at most the break-even bandwidth.
  unfoldable pub storage_of : CostModel → Option F → Option F → Option Bool
  storage_of cost storage_gib none = none
  storage_of cost storage_gib (some bw) =
      if is_given storage_gib && is_given (some bw)
      then some (le bw (breakeven_bw_gbs cost))
      else none

  unfoldable pub storage_tiers : Option Bool → List SecondaryTier
  storage_tiers (some false) = fs "/data/acr/kv" 8 8 ∷ []
  storage_tiers _ = []

  unfoldable pub storage_warnings : Option Bool → List Warning
  storage_warnings (some true) = slow_storage ∷ []
  storage_warnings _ = []

  unfoldable pub wanted_bytes : ℕ → CostModel → ℕ
  wanted_bytes token_budget cost = trunc (mul (of_ℕ token_budget) cost.kv_bytes_per_token)

  unfoldable pub cap_bytes : F → ℕ
  cap_bytes ram_cap_gib = trunc (mul ram_cap_gib (of_ℕ (1024 ^ 3)))

  unfoldable pub plan : ℕ → F → Option F → Option F → Option CostModel → Option ℕ → LaunchPlan
  plan token_budget ram_cap_gib storage_gib storage_bw_gbs cost block_size =
      let cost : CostModel = elim cost [ none ↦ default_config.cost | some c ↦ c ] in
      let wanted = wanted_bytes token_budget cost in
      let cap = cap_bytes ram_cap_gib in
      let storage = storage_of cost storage_gib storage_bw_gbs in
      record {
        cpu_bytes_to_use = if ltb cap wanted then cap else wanted;
        block_size = block_size;
        eviction_policy = "AcrValuePolicy";
        cache_policy_module_path = "acr.vllm.policy";
        secondary_tiers = storage_tiers storage;
        token_budget = token_budget;
        warnings =
            (if ltb cap wanted then budget_over_cap ∷ [] else []) ++ storage_warnings storage;
      }

  -- Whether a plan warns that the budget does not fit.
  unfoldable pub is_lossy : List Warning → Bool
  is_lossy [] = false
  is_lossy (budget_over_cap ∷ warnings) = true
  is_lossy (slow_storage ∷ warnings) = is_lossy warnings

  is_lossy-storage_warnings : (s : Option Bool) → is_lossy (storage_warnings s) ≡ false
  unfolding is_lossy storage_warnings
  is_lossy-storage_warnings none = refl
  is_lossy-storage_warnings (some true) = refl
  is_lossy-storage_warnings (some false) = refl

  -- A plan with a given cost model takes the smaller of the budget's bytes and the cap, and it
  -- warns of a lossy budget exactly when it takes fewer bytes than the budget needs.
  pub plan-bytes :
      (token_budget : ℕ) (ram_cap_gib : F) (gib bw : Option F) (cost : CostModel)
      (block_size : Option ℕ)
      → ((plan token_budget ram_cap_gib gib bw (some cost) block_size).cpu_bytes_to_use
          ≡ min (wanted_bytes token_budget cost) (cap_bytes ram_cap_gib))
        × (is_lossy (plan token_budget ram_cap_gib gib bw (some cost) block_size).warnings
            ≡ ltb
                (plan token_budget ram_cap_gib gib bw (some cost) block_size).cpu_bytes_to_use
                (wanted_bytes token_budget cost))
  unfolding plan is_lossy
  plan-bytes token_budget ram_cap_gib gib bw cost block_size =
      ground (arith, is_lossy-storage_warnings (storage_of cost gib bw))

  -- `kv_transfer_config` beside its two constant entries: an absent block size is left out, and 0 too.
  pub record ExtraConfig : Type 0 where
    pub cpu_bytes_to_use : ℕ
    pub eviction_policy : String
    pub cache_policy_module_path : String
    pub offload_prompt_only : Bool
    pub block_size : Option ℕ
    pub secondary_tiers : List SecondaryTier

  unfoldable pub kv_transfer_config : LaunchPlan → ExtraConfig
  kv_transfer_config p = record {
    cpu_bytes_to_use = p.cpu_bytes_to_use;
    eviction_policy = p.eviction_policy;
    cache_policy_module_path = p.cache_policy_module_path;
    offload_prompt_only = false;
    block_size = elim p.block_size [ none ↦ none | some n ↦ if n == 0 then none else some n ];
    secondary_tiers = p.secondary_tiers;
  }
