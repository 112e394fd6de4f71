-- ===== src/Config/Load.antt =====
-- `load_config` on the dictionary that PyYAML reads: an absent entry is `none`, and an absent list is
-- empty.
use adaptive_context_residen.Common.{
  ℕ, ◌*◌, ◌^◌, String, Bool, true, false, Option, none, some, List, [], ◌∷◌, map,
}
use adaptive_context_residen.Floats.{FloatOps}
use adaptive_context_residen.Config.{TierConfig, CostModel, default_cost, SimConfig, default_config}

-- `d.get(k, default)`
abbrev pub or_default {ℓ} : {A : Type ℓ} → Option A → A → A
or_default none d = d
or_default (some a) d = a

module _ ⦃fl : FloatOps⦄ where
  open fl use {F, of_ℕ, decimal}

  pub record RawCost : Type 0 where
    pub kv_bytes_per_token : Option F
    pub prefill_tokens_per_s : Option F
    pub prefill_tokens_per_s_alt : Option F
    pub decode_tokens_per_s : Option F
    pub request_overhead_s : Option F

  pub record RawTier : Type 0 where
    pub name : String
    pub bytes_gib : ℕ
    pub bandwidth_gbs : F
    pub enabled : Option Bool
    pub efficiency : Option F

  pub record Raw : Type 0 where
    pub cost : RawCost
    pub tiers : List RawTier
    pub hbm_pool_tokens : Option ℕ
    pub block_tokens : Option ℕ
    pub hbm_steerable : Option Bool
    pub patient_slo_ttft_s : Option F
    pub thrash_window_s : Option F

  -- `replace(CostModel(), **raw)`
  unfoldable pub load_cost : RawCost → CostModel
  load_cost raw = record {
    kv_bytes_per_token = or_default raw.kv_bytes_per_token default_cost.kv_bytes_per_token;
    prefill_tokens_per_s = or_default raw.prefill_tokens_per_s default_cost.prefill_tokens_per_s;
    prefill_tokens_per_s_alt =
        or_default raw.prefill_tokens_per_s_alt default_cost.prefill_tokens_per_s_alt;
    decode_tokens_per_s = or_default raw.decode_tokens_per_s default_cost.decode_tokens_per_s;
    request_overhead_s = or_default raw.request_overhead_s default_cost.request_overhead_s;
  }

  unfoldable pub load_tier : RawTier → TierConfig
  load_tier t = record {
    name = t.name;
    bytes_capacity = t.bytes_gib * 1024 ^ 3;
    bandwidth_gbs = t.bandwidth_gbs;
    enabled = or_default t.enabled true;
    efficiency = or_default t.efficiency (of_ℕ 1);
  }

  -- `tuple(...) or base.tiers`
  unfoldable pub load_tiers : List RawTier → List TierConfig
  load_tiers [] = default_config.tiers
  load_tiers (t ∷ ts) = map load_tier (t ∷ ts)

  unfoldable pub load_config : Raw → SimConfig
  load_config raw = record {
    hbm_pool_tokens = or_default raw.hbm_pool_tokens default_config.hbm_pool_tokens;
    block_tokens = or_default raw.block_tokens default_config.block_tokens;
    cost = load_cost raw.cost;
    tiers = load_tiers raw.tiers;
    hbm_steerable = or_default raw.hbm_steerable false;
    patient_slo_ttft_s = or_default raw.patient_slo_ttft_s (decimal 15 1);
    thrash_window_s = or_default raw.thrash_window_s (of_ℕ 60);
  }
