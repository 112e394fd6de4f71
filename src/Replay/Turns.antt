-- ===== src/Replay/Turns.antt =====
-- `Simulator` and `_one`: one turn of a trace.
pub mod Prefixes
pub mod Total
use adaptive_context_residen.Common.{
  any, any-none, any-All, ℕ, zero, suc, ◌+◌, ◌^◌, max, String, ◌<>◌, Bool, true, false, not, ◌==◌,
  ◌&&◌, ◌||◌, is_some, Option, none, some, List, [], ◌∷◌, ◌++◌, map, if◌then◌else◌, ltb, drop,
  sum_by, length, string_eq,
}
use adaptive_context_residen.Common.Dict.{Dict, lookup, insert}
use adaptive_context_residen.Common.Result.{Result, ok, ◌>>=◌, items_at, raise_if}
use adaptive_context_residen.Floats.{FloatOps, fmax}
use adaptive_context_residen.Config.{
  TierConfig, restore_seconds, recompute_seconds, restore_raises, recompute_raises, SimConfig,
  hbm_bytes,
}
use adaptive_context_residen.Index.Defs.{Key, key_eq, BlockInfo, PrefixIndex, new_index}
use adaptive_context_residen.Index.Chain.{chain}
use adaptive_context_residen.Index.Touch.{touch_path}
use adaptive_context_residen.Trace.{Turn}
use adaptive_context_residen.Policies.Probe.{Probe}
use adaptive_context_residen.Policies.Tier.{Entry, TierPolicy, get, occupancy, touch, expiry_raises}
use adaptive_context_residen.Replay.Hbm.{HbmTier, contains, store}
use adaptive_context_residen.Replay.Host.{Host, refresh_oracle, sizes, store_batch_to_host}

module _ ⦃fl : FloatOps⦄ where
  open fl use {F, of_ℕ, add, sub, mul, div, neg, lt, le, eq, isfinite}

  pub record TurnMetric : Type 0 where
    pub t : F
    pub role : String
    pub prompt_tokens : ℕ
    pub ttft_s : F
    pub e2e_s : F
    pub recompute_tokens : ℕ
    pub restore_bytes : ℕ
    pub source_tiers : List String

  -- `self.index` is the index of the probe, which both share.
  pub record Simulator : Type 0 where
    pub cfg : SimConfig
    pub ram_tier : TierConfig
    pub hbm : HbmTier
    pub probe : Probe
    pub pcie_busy : F
    pub prefill_busy : F
    pub metrics : List TurnMetric
    pub left_hbm_at : Dict Key F
    pub host : Host
    pub thrash : ℕ
    pub demotions : ℕ
    pub peak_ram : ℕ

  unfoldable pub new_simulator : SimConfig → TierPolicy → TierConfig → Simulator
  new_simulator cfg policy ram_tier = record {
    cfg = cfg;
    ram_tier = ram_tier;
    hbm = record { capacity_bytes = hbm_bytes cfg; blocks = []; used = 0 };
    probe = record {
      index = new_index cfg.block_tokens cfg.cost;
      cost = cfg.cost;
      tier = ram_tier;
      horizon_s = of_ℕ 120;
      now = of_ℕ 0;
      tool_eta = [];
    };
    pcie_busy = of_ℕ 0;
    prefill_busy = of_ℕ 0;
    metrics = [];
    left_hbm_at = [];
    host = record { policy = policy; left_host_at = []; reacquires = 0 };
    thrash = 0;
    demotions = 0;
    peak_ram = 0;
  }

  -- Where a path's longest serviceable prefix ends, and what it costs.
  pub record Prefix : Type 0 where
    pub cut : ℕ
    pub restore_bytes : ℕ
    pub thrash : ℕ

  -- `0.0 <= idle <= self.cfg.thrash_window_s`
  unfoldable pub left_recently : F → F → Dict Key F → Key → Bool
  left_recently window now left key =
      let since : F = elim (lookup key left) [ none ↦ neg (of_ℕ (10 ^ 18)) | some t ↦ t ] in
      let idle = sub now since in le (of_ℕ 0) idle && le idle window

  -- The first loop of `_one`.
  unfoldable pub serviceable : HbmTier → TierPolicy → F → F → Dict Key F → List Key → Prefix
  serviceable hbm t window now left [] = record { cut = 0; restore_bytes = 0; thrash = 0 }
  serviceable hbm t window now left (key ∷ ks) =
      let rest = serviceable hbm t window now left ks in
      if contains hbm key then record rest { cut = suc rest.cut } else (elim (get t key) [
        | none ↦ record { cut = 0; restore_bytes = 0; thrash = 0 }
        | some e ↦ record {
          cut = suc rest.cut;
          restore_bytes = e.nbytes + rest.restore_bytes;
          thrash = (if left_recently window now left key then 1 else 0) + rest.thrash;
        }
      ])

  -- `_left_hbm` of each victim.
  unfoldable pub left_hbm : F → List Key → Dict Key F → Dict Key F
  left_hbm now [] left = left
  left_hbm now (victim ∷ victims) left = left_hbm now victims (insert victim now left)

  -- `self.policy.touch([key], now, self.probe)` for each key.
  unfoldable pub touch_each : F → Probe → TierPolicy → List Key → TierPolicy
  touch_each now pr t [] = t
  touch_each now pr t (key ∷ ks) = touch_each now pr (touch t (key ∷ []) now pr) ks

  -- The two servers: when the transfer and the prefill end.
  unfoldable pub schedule : F → F → F → F → F → F × F
  schedule now pcie_busy prefill_busy transfer_s prefill_s =
      let pcie_end = add (fmax now pcie_busy) transfer_s in
      let start =
        fmax (fmax now prefill_busy) (if fl.eq transfer_s (of_ℕ 0) then of_ℕ 0 else pcie_end) in
      (pcie_end, add start prefill_s)

  unfoldable pub probe_at : Probe → PrefixIndex → Turn → Probe
  probe_at pr index turn = record pr {
    index = index;
    now = turn.t;
    tool_eta = elim turn.tool_eta_s [
      | none ↦ pr.tool_eta
      | some eta ↦ insert turn.session_id eta pr.tool_eta
    ];
  }

  -- Whether a touch raises: the entries' keys stay the same in the loop.
  unfoldable pub touch_raises : TierPolicy → Probe → List Key → Bool
  touch_raises t pr = any (λ k. is_some (get t k) && expiry_raises t.kind k pr)

  -- Whether a division by a rate raises.
  unfoldable pub rates_raise : Simulator → ℕ → Bool
  rates_raise sim restore_bytes =
      restore_raises sim.ram_tier restore_bytes
      || recompute_raises sim.cfg.cost
      || eq sim.cfg.cost.decode_tokens_per_s (of_ℕ 0)

  -- From the second step on, with the touched index and the keys of the path.
  unfoldable pub serve : Dict Key (List F) → Turn → List Key → Simulator → Result Simulator
  serve sched turn ks sim = do
    let now = turn.t
    let found = serviceable sim.hbm sim.host.policy sim.cfg.thrash_window_s now sim.left_hbm_at ks
    cold ← items_at (drop found.cut ks) sim.probe.index.blocks
    let recompute_tokens = sum_by (λ x. x.1.tokens) cold
    let ends =
        schedule now sim.pcie_busy sim.prefill_busy
          (restore_seconds sim.ram_tier found.restore_bytes)
          (recompute_seconds sim.cfg.cost (of_ℕ recompute_tokens))
    let ttft = add sim.cfg.cost.request_overhead_s (fmax (of_ℕ 0) (sub ends.1 now))
    path_bytes ← sizes ks sim.probe.index.blocks
    let stored = store sim.hbm path_bytes ks
    host ← store_batch_to_host sim.ram_tier.bytes_capacity sched now sim.probe ks sim.host
    let policy = refresh_oracle sched now (touch_each now sim.probe host.policy ks) ks
    raise_if (rates_raise sim found.restore_bytes || touch_raises host.policy sim.probe ks) (
        ok (record sim {
          hbm = stored.1;
          pcie_busy = ends.0;
          prefill_busy = ends.1;
          metrics =
              sim.metrics
              ++ record {
                t = now;
                role = turn.role;
                prompt_tokens = turn.prompt_tokens;
                ttft_s = ttft;
                e2e_s =
                    add ttft (div (of_ℕ turn.completion_tokens) sim.cfg.cost.decode_tokens_per_s);
                recompute_tokens = recompute_tokens;
                restore_bytes = found.restore_bytes;
                source_tiers = if ltb 0 found.restore_bytes then sim.ram_tier.name ∷ [] else [];
              }
                ∷ [];
          left_hbm_at = left_hbm now stored.0 sim.left_hbm_at;
          host = record host { policy = policy };
          thrash = sim.thrash + found.thrash;
          demotions = sim.demotions + length stored.0;
          peak_ram = max sim.peak_ram (occupancy policy);
        }))

  -- Whether `chain` divides by a block size of zero, or a block's bytes are no finite number. The bytes
  -- of a block that does not grow were computed before.
  unfoldable pub path_raises : PrefixIndex → Turn → Bool
  path_raises ix turn =
      (ix.block_tokens == 0)
      || any (λ x. not (isfinite (mul (of_ℕ x.tokens) ix.cost.kv_bytes_per_token)))
          (chain ix turn.session_id turn.prompt_tokens turn.shared_prefix_tokens
            ("root:" <> turn.role))

  unfoldable pub one : Dict Key (List F) → Turn → Simulator → Result Simulator
  one sched turn sim =
      let (index, ks) =
        touch_path sim.probe.index turn.session_id turn.role turn.prompt_tokens
          turn.shared_prefix_tokens turn.t turn.aborted in
      raise_if (path_raises sim.probe.index turn)
        (serve sched turn ks (record sim { probe = probe_at sim.probe index turn }))
