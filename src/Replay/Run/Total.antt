-- ===== src/Replay/Run/Total.antt =====
-- `run` and `run_policy`: the replay of a whole trace.
use adaptive_context_residen.Common.{
  ℕ, ◌+◌, ◌≤◌, ◌≡◌, refl, sym, ◌∙◌, inl, inr, String, true, false, some, List, [], ◌∷◌, arith,
  if◌then◌else◌, length, is_some, Option-cases, sum_by, string_eq,
}
use adaptive_context_residen.Common.Dict.{Dict, keys, lookup}
use adaptive_context_residen.Common.Result.{ok}
use adaptive_context_residen.Common.Sort.{sum_by-sort}
use adaptive_context_residen.Floats.{FloatOps}
use adaptive_context_residen.Config.{TierConfig, SimConfig, tier as config_tier}
use adaptive_context_residen.Index.Defs.{Key, key_eq, PrefixIndex}
use adaptive_context_residen.Index.Touch.Invariant.{IsLeased, release_session-IsLeased}
use adaptive_context_residen.Trace.{Turn, by_time}
use adaptive_context_residen.Policies.Tier.{TierPolicy, build, policies}
use adaptive_context_residen.Policies.Raises.Never.{HasRates, cost-NeverRaises, restore-NeverRaises}
use adaptive_context_residen.Replay.Host.{is_oracle}
use adaptive_context_residen.Replay.Turns.{Simulator, new_simulator}
use adaptive_context_residen.Replay.Turns.Total.{
  IsConsistent, CanRun, new_simulator-IsConsistent, one-Turned,
}
use adaptive_context_residen.Replay.Run.{
  Report, replay, release_all, future_accesses, finalize, run, run_policy, finalize_raises,
  pool_raises,
}

module _ ⦃fl : FloatOps⦄ where
  open fl use {F}

  -- The end of a replay of `n` turns.
  pub record Replayed (n : ℕ) (sim sim' : Simulator) : Type 0 where
    pub consistent : IsConsistent sim'
    pub measured : length sim'.metrics ≡ n + length sim.metrics
    pub risen : sim.peak_ram ≤ sim'.peak_ram

  pub replay-Replayed :
      (sched : Dict Key (List F)) (turns : List Turn) (sim : Simulator)
      → IsConsistent sim
      → (sim' : Simulator) × (replay sched turns sim ≡ ok sim') × Replayed (length turns) sim sim'
  unfolding replay
  replay-Replayed sched [] sim c =
      (sim, refl, record { consistent = c; measured = omega arith; risen = omega arith })
  replay-Replayed sched (turn ∷ turns) sim c =
      let (next, e, turned) = one-Turned sched turn sim c in
      let (end, e', after) = replay-Replayed sched turns next turned.consistent in
      rw (e, e', replay)
        (
          end,
          refl,
          record {
            consistent = after.consistent;
            measured = omega (arith, after.measured, turned.measured);
            risen = omega (arith, after.risen, turned.risen);
          },
        )

  release_all_total :
      (sids : List String) (index : PrefixIndex)
      → IsLeased index
      → (index' : PrefixIndex) × (release_all sids index ≡ ok index') × IsLeased index'
  unfolding release_all
  release_all_total [] index v = (index, refl, v)
  release_all_total (sid ∷ sids) index v =
      let (next, e, v', gone) = release_session-IsLeased index sid v in
      let (end, e', v'') = release_all_total sids next v' in
      rw (e, e', release_all) (end, refl, v'')

  length-sum : {A : Type 0} (xs : List A) → length xs ≡ sum_by (λ x. 1) xs
  length-sum [] = refl
  length-sum (x ∷ xs) = omega (arith, length-sum xs)

  length-by_time : (turns : List Turn) → length (by_time turns) ≡ length turns
  unfolding by_time
  length-by_time turns =
      length-sum (by_time turns) ∙ sum_by-sort _ (λ x. 1) turns ∙ sym (length-sum turns)

  run_total :
      (turns : List Turn) (sim : Simulator)
      → IsConsistent sim
      → (sim' : Simulator) × (run turns sim ≡ ok sim')
        × HasRates sim'.cfg.cost sim'.ram_tier
        × (length sim'.metrics ≡ length turns + length sim.metrics)
  unfolding run
  run_total turns sim c =
      let sched = (if is_oracle sim.host.policy.kind then future_accesses sim.cfg turns else []) in
      let (end, e, after) = replay-Replayed sched (by_time turns) sim c in
      let (index, e', v) =
        release_all_total (keys end.probe.index.session_path) end.probe.index
          after.consistent.leased in
      rw (e, e', run)
        (_, refl, after.consistent.rates, omega (arith, after.measured, length-by_time turns))

  turns-finalize :
      (name : String) (end : Simulator) {n : ℕ}
      → length end.metrics ≡ n + 0
      → (finalize name end).turns ≡ n
  unfolding finalize
  turns-finalize name end measured = omega arith

  -- A known policy starts with an empty tier.
  build_total :
      (name : String) (capacity : ℕ)
      → is_some (lookup name policies) ≡ true
      → (policy : TierPolicy) × (build name capacity ≡ some policy) × (policy.entries ≡ [])
  unfolding build
  build_total name capacity known = elim (Option-cases (lookup name policies)) [
    | inl unknown ↦ absurd (ground arith)
    | inr (kind, found) ↦ rw (found, build) (_, refl, refl)
  ]

  finalize-NeverRaises :
      (end : Simulator) → HasRates end.cfg.cost end.ram_tier → finalize_raises end ≡ false
  unfolding finalize_raises
  finalize-NeverRaises end c = ground (
    arith,
    cost-NeverRaises end.cfg.cost end.ram_tier c,
    restore-NeverRaises end.cfg.cost end.ram_tier (sum_by (λ m. m.restore_bytes) end.metrics) c,
  )

  -- If the configuration has an enabled tier "ram", no rate that the program divides by is zero,
  -- the bytes of the pool and of a block are finite numbers, and the policy's name is known, the
  -- replay of any trace ends in a report under the policy's name and does not raise, and the
  -- report counts every turn of the trace.
  pub run_policy_total :
      (cfg : SimConfig) (ram : TierConfig) (turns : List Turn) (name : String)
      → config_tier cfg "ram" ≡ some ram
      → CanRun cfg ram
      → pool_raises cfg ≡ false
      → is_some (lookup name policies) ≡ true
      → (report : Report) × (run_policy cfg turns name ≡ some (ok report))
        × (report.turns ≡ length turns)
        × (report.policy ≡ name)
  unfolding run_policy new_simulator
  run_policy_total cfg ram turns name found can pool known =
      let (policy, built, empty) = build_total name ram.bytes_capacity known in
      let sim = new_simulator cfg policy ram in
      let (end, e, c, measured) =
        run_total turns sim (new_simulator-IsConsistent cfg policy ram can empty) in
      rw (found, built, pool, e, finalize-NeverRaises end c, run_policy)
        (finalize name end, refl, turns-finalize name end measured, unfold finalize in refl)
