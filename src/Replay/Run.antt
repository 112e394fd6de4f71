-- ===== src/Replay/Run.antt =====
-- `future_accesses`, `run`, `_finalize` and `run_policy`: the replay of a whole trace, and its report.
pub mod Total
use adaptive_context_residen.Common.{
  ℕ, ◌+◌, String, ◌<>◌, Bool, not, ◌||◌, Option, none, some, List, [], ◌∷◌, ◌++◌, map,
  if◌then◌else◌, sum_by, length, string_eq,
}
use adaptive_context_residen.Common.Dict.{Dict, keys, lookup, insert}
use adaptive_context_residen.Common.Result.{Result, ok, exception, ◌>>=◌, raise_if}
use adaptive_context_residen.Common.Sort.{sort}
use adaptive_context_residen.Floats.{FloatOps}
use adaptive_context_residen.Config.{
  TierConfig, restore_seconds, recompute_seconds, restore_raises, recompute_raises, SimConfig,
  tier as config_tier,
}
use adaptive_context_residen.Index.Defs.{Key, key_eq, PrefixIndex, new_index}
use adaptive_context_residen.Index.Chain.{chain}
use adaptive_context_residen.Index.Touch.{release_session}
use adaptive_context_residen.Trace.{Turn, by_time}
use adaptive_context_residen.Policies.Tier.{TierPolicy, build}
use adaptive_context_residen.Replay.Hbm.{occupancy}
use adaptive_context_residen.Replay.Host.{is_oracle}
use adaptive_context_residen.Replay.Stats.{RoleStats, stats_by_role}
use adaptive_context_residen.Replay.Turns.{TurnMetric, Simulator, new_simulator, one}

module _ ⦃fl : FloatOps⦄ where
  open fl use {F, of_ℕ, add, mul, lt, isfinite}

  pub record Report : Type 0 where
    pub policy : String
    pub turns : ℕ
    pub window_s : F
    pub prompt_tokens : ℕ
    pub recompute_tokens : ℕ
    pub restore_bytes : ℕ
    pub prefill_seconds : F
    pub transfer_seconds : F
    pub thrash : ℕ
    pub reacquires : ℕ
    pub demotions : ℕ
    pub invalidations : ℕ
    pub peak_ram_bytes : ℕ
    pub hbm_bytes : ℕ
    pub per_role : Dict String RoleStats

  unfoldable pub objective : Report → F
  objective r = add r.prefill_seconds r.transfer_seconds

  -- `sched.setdefault(key, []).append(t)`
  unfoldable pub schedule_at : F → Key → Dict Key (List F) → Dict Key (List F)
  schedule_at t key sched = elim (lookup key sched) [
    | none ↦ insert key (t ∷ []) sched
    | some ts ↦ insert key (ts ++ t ∷ []) sched
  ]

  unfoldable pub schedule_all : F → List Key → Dict Key (List F) → Dict Key (List F)
  schedule_all t [] sched = sched
  schedule_all t (key ∷ ks) sched = schedule_all t ks (schedule_at t key sched)

  -- The loop of `future_accesses` over the sorted turns. `chain` does not change the index.
  unfoldable pub accesses : PrefixIndex → List Turn → Dict Key (List F) → Dict Key (List F)
  accesses index [] sched = sched
  accesses index (turn ∷ turns) sched =
      let parts =
        chain index turn.session_id turn.prompt_tokens turn.shared_prefix_tokens
          ("root:" <> turn.role) in
      accesses index turns (schedule_all turn.t (map (λ p. p.key) parts) sched)

  unfoldable pub future_accesses : SimConfig → List Turn → Dict Key (List F)
  future_accesses cfg turns =
      map (λ x. (x.0, sort lt x.1))
        (accesses (new_index cfg.block_tokens cfg.cost) (by_time turns) [])

  -- The first loop of `run`.
  unfoldable pub replay : Dict Key (List F) → List Turn → Simulator → Result Simulator
  replay sched [] sim = ok sim
  replay sched (turn ∷ turns) sim = do next ← one sched turn sim; replay sched turns next

  -- The second loop of `run`.
  unfoldable pub release_all : List String → PrefixIndex → Result PrefixIndex
  release_all [] index = ok index
  release_all (sid ∷ sids) index = elim (release_session index sid) [
    | none ↦ exception
    | some index' ↦ release_all sids index'
  ]

  -- `self.metrics[-1].t if self.metrics else 0.0`
  unfoldable pub last_t : F → List TurnMetric → F
  last_t t [] = t
  last_t t (m ∷ metrics) = last_t m.t metrics

  unfoldable pub finalize : String → Simulator → Report
  finalize name sim =
      let recompute = sum_by (λ m. m.recompute_tokens) sim.metrics in
      let restore = sum_by (λ m. m.restore_bytes) sim.metrics in
      record {
        policy = name;
        turns = length sim.metrics;
        window_s = last_t (of_ℕ 0) sim.metrics;
        prompt_tokens = sum_by (λ m. m.prompt_tokens) sim.metrics;
        recompute_tokens = recompute;
        restore_bytes = restore;
        prefill_seconds = recompute_seconds sim.cfg.cost (of_ℕ recompute);
        transfer_seconds = restore_seconds sim.ram_tier restore;
        thrash = sim.thrash;
        reacquires = sim.host.reacquires;
        demotions = sim.demotions;
        invalidations = length sim.probe.index.invalidations;
        peak_ram_bytes = sim.peak_ram;
        hbm_bytes = occupancy sim.hbm;
        per_role = stats_by_role sim.cfg.patient_slo_ttft_s sim.metrics;
      }

  -- Whether a division of `_finalize` raises.
  unfoldable pub finalize_raises : Simulator → Bool
  finalize_raises sim =
      recompute_raises sim.cfg.cost
      || restore_raises sim.ram_tier (sum_by (λ m. m.restore_bytes) sim.metrics)

  -- Whether the pool's bytes are no finite number.
  unfoldable pub pool_raises : SimConfig → Bool
  pool_raises cfg = not (isfinite (mul (of_ℕ cfg.hbm_pool_tokens) cfg.cost.kv_bytes_per_token))

  -- The final state of `run`.
  unfoldable pub run : List Turn → Simulator → Result Simulator
  run turns sim = do
    let sched = if is_oracle sim.host.policy.kind then future_accesses sim.cfg turns else []
    end ← replay sched (by_time turns) sim
    index ← release_all (keys end.probe.index.session_path) end.probe.index
    ok (record end { probe = record end.probe { index = index } })

  -- `none` stands for the `ValueError` of a configuration without a tier "ram", and for the
  -- `KeyError` of an unknown policy.
  unfoldable pub run_policy : SimConfig → List Turn → String → Option (Result Report)
  run_policy cfg turns name = elim (config_tier cfg "ram") [
    | none ↦ none
    | some ram ↦ elim (build name ram.bytes_capacity) [
      | none ↦ none
      | some policy ↦ some (
          raise_if (pool_raises cfg) (do
            end ← run turns (new_simulator cfg policy ram)
            raise_if (finalize_raises end) (ok (finalize name end))))
    ]
  ]

  -- `[run_policy(cfg, turns, name) for name in names]`, each with its own outcome.
  unfoldable pub compare : SimConfig → List Turn → List String → List (Option (Result Report))
  compare cfg turns names = map (run_policy cfg turns) names
