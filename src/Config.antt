-- ===== src/Config.antt =====
-- src/acr/config.py: the cost model and the tiers.
pub mod Load
use adaptive_context_residen.Common.{
  ℕ, ◌+◌, ◌*◌, ◌^◌, String, Bool, true, false, ◌&&◌, Option, none, some, List, [], ◌∷◌,
  if◌then◌else◌, leb, ltb, filter, ◌=?◌, string_eq,
}
use adaptive_context_residen.Floats.{FloatOps}

module _ ⦃fl : FloatOps⦄ where
  open fl use {F, of_ℕ, decimal, mul, div, trunc, lt, eq}

  pub record TierConfig : Type 0 where
    pub name : String
    pub bytes_capacity : ℕ
    pub bandwidth_gbs : F
    pub enabled : Bool
    pub efficiency : F

  unfoldable pub effective_gbs : TierConfig → F
  effective_gbs t = mul t.bandwidth_gbs t.efficiency

  -- The value of a call that returns, as `restore_raises` tells below.
  unfoldable pub restore_seconds : TierConfig → ℕ → F
  unfolding effective_gbs
  restore_seconds t nbytes =
      if leb nbytes 0 then of_ℕ 0 else div (of_ℕ nbytes) (mul (effective_gbs t) (of_ℕ (10 ^ 9)))

  -- Whether the division of `restore_seconds` raises.
  unfoldable pub restore_raises : TierConfig → ℕ → Bool
  restore_raises t nbytes = ltb 0 nbytes && eq (mul (effective_gbs t) (of_ℕ (10 ^ 9))) (of_ℕ 0)

  pub record CostModel : Type 0 where
    pub kv_bytes_per_token : F
    pub prefill_tokens_per_s : F
    pub prefill_tokens_per_s_alt : F
    pub decode_tokens_per_s : F
    pub request_overhead_s : F

  unfoldable pub default_cost : CostModel
  default_cost = record {
    kv_bytes_per_token = of_ℕ 57591;
    prefill_tokens_per_s = of_ℕ 11000;
    prefill_tokens_per_s_alt = of_ℕ 7900;
    decode_tokens_per_s = of_ℕ 118;
    request_overhead_s = decimal 36 2;
  }

  -- The value of a call that returns, as `recompute_raises` tells below.
  unfoldable pub recompute_seconds : CostModel → F → F
  recompute_seconds c tokens = div tokens c.prefill_tokens_per_s

  -- Whether the division of `recompute_seconds` raises.
  unfoldable pub recompute_raises : CostModel → Bool
  recompute_raises c = eq c.prefill_tokens_per_s (of_ℕ 0)

  unfoldable pub recompute_bytes : CostModel → F → F
  recompute_bytes c tokens = mul tokens c.kv_bytes_per_token

  unfoldable pub breakeven_bw_gbs : CostModel → F
  breakeven_bw_gbs c = div (mul c.kv_bytes_per_token c.prefill_tokens_per_s) (of_ℕ (10 ^ 9))

  unfoldable pub is_worth_tier : CostModel → TierConfig → Bool
  unfolding effective_gbs breakeven_bw_gbs
  is_worth_tier c t = lt (breakeven_bw_gbs c) (effective_gbs t)

  pub record SimConfig : Type 0 where
    pub hbm_pool_tokens : ℕ
    pub block_tokens : ℕ
    pub cost : CostModel
    pub tiers : List TierConfig
    pub hbm_steerable : Bool
    pub patient_slo_ttft_s : F
    pub thrash_window_s : F

  -- `int(...)` of a finite product.
  unfoldable pub hbm_bytes : SimConfig → ℕ
  hbm_bytes cfg = trunc (mul (of_ℕ cfg.hbm_pool_tokens) cfg.cost.kv_bytes_per_token)

  -- The loop of `next(...)` in `tier`.
  unfoldable pub find_tier : String → List TierConfig → Option TierConfig
  find_tier name [] = none
  find_tier name (t ∷ ts) = if (t.name =? name) && t.enabled then some t else find_tier name ts

  unfoldable pub tier : SimConfig → String → Option TierConfig
  unfolding find_tier
  tier cfg name = find_tier name cfg.tiers

  unfoldable pub ordered_tiers : SimConfig → List TierConfig
  ordered_tiers cfg = filter (λ t. t.enabled) cfg.tiers

  unfoldable pub default_config : SimConfig
  unfolding default_cost
  default_config = record {
    hbm_pool_tokens = 1003197;
    block_tokens = 816;
    cost = default_cost;
    tiers =
        record {
          name = "ram";
          bytes_capacity = 160 * 1024 ^ 3;
          bandwidth_gbs = of_ℕ 96;
          enabled = true;
          efficiency = decimal 55 2;
        }
        ∷ record {
          name = "disk";
          bytes_capacity = 1024 * 1024 ^ 3;
          bandwidth_gbs = decimal 413 3;
          enabled = false;
          efficiency = of_ℕ 1;
        }
        ∷ [];
    hbm_steerable = false;
    patient_slo_ttft_s = decimal 15 1;
    thrash_window_s = of_ℕ 60;
  }
