-- ===== src/Replay/Turns/Total.antt =====
-- `_one` on a consistent simulator.
use adaptive_context_residen.Common.{
  any-none, any-All, ℕ, zero, suc, ◌≤◌, ◌≡◌, refl, ◌∙◌, true, is_some, List, [], ◌∷◌, ◌++◌, arith,
  length, length-append, drop, ◌==◌, false, max, ◌<>◌, All_impl,
}
use adaptive_context_residen.Common.Dict.{Dict, lookup, elem}
use adaptive_context_residen.Common.Result.{ok}
use adaptive_context_residen.Common.Select.{items_at_total}
use adaptive_context_residen.Floats.{FloatOps}
use adaptive_context_residen.Config.{CostModel, TierConfig, SimConfig}
use adaptive_context_residen.Index.Defs.{Key, key_eq, BlockInfo, PrefixIndex, new_index}
use adaptive_context_residen.Index.Touch.{touch_path}
use adaptive_context_residen.Index.Touch.Invariant.{
  IsLeased, new_index-IsLeased, touch_path-IsLeased,
}
use adaptive_context_residen.Index.Touch.Known.{known-touch_path, touched-known}
use adaptive_context_residen.Index.Chain.{chain}
use adaptive_context_residen.Index.Chain.Laws.{chain-Fits}
use adaptive_context_residen.Policies.Raises.Never.{
  HasRates, IsSound, cost-NeverRaises, restore-NeverRaises, expiry-NeverRaises,
}
use adaptive_context_residen.Trace.{Turn}
use adaptive_context_residen.Policies.Probe.{Probe}
use adaptive_context_residen.Policies.Tier.{TierPolicy, occupancy, touch}
use adaptive_context_residen.Replay.Hbm.Invariant.{IsValid}
use adaptive_context_residen.Replay.Hbm.Store.{store-Dropped, capacity-fill}
use adaptive_context_residen.Replay.Host.Ready.{IsReady, touch-IsReady, refresh_oracle-IsReady}
use adaptive_context_residen.Replay.Host.Store.{Sizes, Sizes-total}
use adaptive_context_residen.Replay.Host.Batch.{store_batch_to_host-Stored}
use adaptive_context_residen.Replay.Turns.{
  Simulator, new_simulator, serviceable, touch_each, probe_at, serve, one, rates_raise,
  touch_raises, path_raises,
}

elem_of_elem-drop : (k : Key) (n : ℕ) (ks : List Key) → elem k (drop n ks) ≡ true → elem k ks ≡ true
elem_of_elem-drop k zero ks h = h
elem_of_elem-drop k (suc n) [] h = h
elem_of_elem-drop k (suc n) (j ∷ ks) h = ground (arith, elem_of_elem-drop k n ks h)

length-snoc : {A : Type 0} (xs : List A) (x : A) → length (xs ++ x ∷ []) ≡ suc (length xs)
length-snoc xs x = omega (arith, length-append xs (x ∷ []))

module _ ⦃fl : FloatOps⦄ where
  open fl use {F, of_ℕ, mul, isfinite}

  -- The blocks of an index have a size, and their bytes are finite.
  pub record HasSizes (block_tokens : ℕ) (cost : CostModel) : Type 0 where
    pub positive : 1 ≤ block_tokens
    pub finite : (n : ℕ) → n ≤ block_tokens → isfinite (mul (of_ℕ n) cost.kv_bytes_per_token) ≡ true

  -- The numbers of a configuration with which no turn raises.
  pub record CanRun (cfg : SimConfig) (ram_tier : TierConfig) : Type 0 where
    pub rates : HasRates cfg.cost ram_tier
    pub finite :
        (n : ℕ)
        → n ≤ max 1 cfg.block_tokens
        → isfinite (mul (of_ℕ n) cfg.cost.kv_bytes_per_token) ≡ true

  -- The index, the pool and the tier are consistent, and the tier holds blocks of the index.
  pub record IsConsistent (sim : Simulator) : Type 0 where
    pub leased : IsLeased sim.probe.index
    pub pool : IsValid sim.hbm
    pub tier : IsReady sim.probe.index.blocks sim.host.policy
    -- The rates are not zero, and the blocks have sizes.
    pub rates : HasRates sim.cfg.cost sim.ram_tier
    pub probe_rates : HasRates sim.probe.cost sim.probe.tier
    pub sizes : HasSizes sim.probe.index.block_tokens sim.probe.index.cost

  pub new_simulator-IsConsistent :
      (cfg : SimConfig) (policy : TierPolicy) (ram_tier : TierConfig)
      → CanRun cfg ram_tier
      → policy.entries ≡ []
      → IsConsistent (new_simulator cfg policy ram_tier)
  unfolding new_simulator new_index lookup
  new_simulator-IsConsistent cfg policy ram_tier can empty = record {
    leased = new_index-IsLeased cfg.block_tokens cfg.cost;
    pool = record { distinct = tt; counted = refl };
    tier = record {
      keyed = rw empty (record { distinct = tt; own = tt });
      known = λ k h. absurd (ground (arith, h, empty));
    };
    rates = can.rates;
    probe_rates = can.rates;
    sizes = record { positive = omega arith; finite = can.finite };
  }

  touch_each-IsReady :
      (blocks : Dict Key BlockInfo) (now : F) (pr : Probe) (t : TierPolicy) (ks : List Key)
      → IsReady blocks t
      → IsReady blocks (touch_each now pr t ks)
  unfolding touch_each
  touch_each-IsReady blocks now pr t [] r = r
  touch_each-IsReady blocks now pr t (k ∷ ks) r =
      touch_each-IsReady blocks now pr (touch t (k ∷ []) now pr) ks
        (touch-IsReady blocks t (k ∷ []) now pr r)

  -- What a turn leaves.
  pub record Turned (sim sim' : Simulator) : Type 0 where
    pub consistent : IsConsistent sim'
    -- It adds one measurement.
    pub measured : length sim'.metrics ≡ suc (length sim.metrics)
    -- The peak is at least the tier's occupancy, and never falls.
    pub peak : occupancy sim'.host.policy ≤ sim'.peak_ram
    pub risen : sim.peak_ram ≤ sim'.peak_ram
    -- The sizes and the configuration stay.
    pub same_pool : sim'.hbm.capacity_bytes ≡ sim.hbm.capacity_bytes

  rates-NeverRaise :
      (sim : Simulator) (restore_bytes : ℕ)
      → IsConsistent sim
      → rates_raise sim restore_bytes ≡ false
  unfolding rates_raise
  rates-NeverRaise sim restore_bytes c = ground (
    arith,
    restore-NeverRaises sim.cfg.cost sim.ram_tier restore_bytes c.rates,
    cost-NeverRaises sim.cfg.cost sim.ram_tier c.rates,
    c.rates.decode,
  )

  touch-NeverRaises :
      (t : TierPolicy) (pr : Probe) (ks : List Key) → IsSound pr → touch_raises t pr ks ≡ false
  unfolding touch_raises
  touch-NeverRaises t pr ks s =
      any-none _ ks (λ k. ground (arith, expiry-NeverRaises t.kind k pr s))

  path-NeverRaises :
      (ix : PrefixIndex) (turn : Turn)
      → HasSizes ix.block_tokens ix.cost
      → path_raises ix turn ≡ false
  unfolding path_raises
  path-NeverRaises ix turn v =
      let positive = v.positive in
      let some_size : (ix.block_tokens == 0) ≡ false = ground arith in
      rw some_size (
        any-All _
          (chain ix turn.session_id turn.prompt_tokens turn.shared_prefix_tokens
            ("root:" <> turn.role))
          (All_impl _ _ (λ part fits. ground (arith, v.finite part.tokens, fits))
            (chain ix turn.session_id turn.prompt_tokens turn.shared_prefix_tokens
              ("root:" <> turn.role))
            (chain-Fits ix turn.session_id ("root:" <> turn.role) turn.prompt_tokens
              turn.shared_prefix_tokens positive)))

  serve-Turned :
      (sched : Dict Key (List F)) (turn : Turn) (ks : List Key) (sim : Simulator)
      → IsConsistent sim
      → ((k : Key) → elem k ks ≡ true → is_some (lookup k sim.probe.index.blocks) ≡ true)
      → (sim' : Simulator) × (serve sched turn ks sim ≡ ok sim') × Turned sim sim'
  unfolding serve
  serve-Turned sched turn ks sim c there =
      let blocks = sim.probe.index.blocks in
      let sound : IsSound sim.probe = record { leased = c.leased; rates = c.probe_rates } in
      let found =
        serviceable sim.hbm sim.host.policy sim.cfg.thrash_window_s turn.t sim.left_hbm_at ks in
      let (cold, read, same, held) =
        items_at_total (drop found.cut ks) blocks
          (λ k m. there k (elem_of_elem-drop k found.cut ks m)) in
      let path : Sizes ks blocks = Sizes-total ks blocks there in
      let (host, stored, batch) =
        store_batch_to_host-Stored sim.ram_tier.bytes_capacity sched turn.t sim.probe sim.host sound
          c.tier ks there in
      let calm = rates-NeverRaise sim found.restore_bytes c in
      let quiet = touch-NeverRaises host.policy sim.probe ks sound in
      let pool = store-Dropped sim.hbm path.out ks c.pool in
      rw (read, path.read, stored, calm, quiet, serve)
        (
          _,
          refl,
          record {
            consistent = record {
              leased = c.leased;
              pool = pool.valid;
              tier =
                  refresh_oracle-IsReady blocks sched turn.t _ ks
                    (touch_each-IsReady blocks turn.t sim.probe host.policy ks batch.ready);
              rates = c.rates;
              probe_rates = c.probe_rates;
              sizes = c.sizes;
            };
            measured = length-snoc sim.metrics _;
            peak = omega arith;
            risen = omega arith;
            same_pool = pool.same_capacity ∙ capacity-fill sim.hbm path.out;
          },
        )

  -- On a consistent simulator (leases agree with paths, the pool's counter with its blocks, the
  -- tier's entries with their keys and the index; no rate that the program divides by is zero, and
  -- blocks have at least one token and finite bytes) a turn does not raise. It leaves a consistent
  -- simulator, adds one measurement, and the peak is at least the tier's occupancy and never
  -- falls.
  pub one-Turned :
      (sched : Dict Key (List F)) (turn : Turn) (sim : Simulator)
      → IsConsistent sim
      → (sim' : Simulator) × (one sched turn sim ≡ ok sim') × Turned sim sim'
  unfolding one probe_at
  one-Turned sched turn sim c =
      let s = turn.session_id in
      let touched =
        touch_path sim.probe.index s turn.role turn.prompt_tokens turn.shared_prefix_tokens turn.t
          turn.aborted in
      let calm = path-NeverRaises sim.probe.index turn c.sizes in
      let sized : HasSizes touched.0.block_tokens touched.0.cost = unfold touch_path in c.sizes in
      let before : Simulator = record sim { probe = probe_at sim.probe touched.0 turn } in
      let (sim', e, after) =
        serve-Turned sched turn touched.1 before
          (record {
            leased =
                touch_path-IsLeased sim.probe.index s turn.role turn.prompt_tokens
                  turn.shared_prefix_tokens turn.t turn.aborted c.leased;
            pool = c.pool;
            tier = record {
              keyed = c.tier.keyed;
              known = λ k h.
                  known-touch_path sim.probe.index s turn.role turn.prompt_tokens
                    turn.shared_prefix_tokens turn.t turn.aborted k (c.tier.known k h);
            };
            rates = c.rates;
            probe_rates = c.probe_rates;
            sizes = sized;
          })
          (λ k m.
            touched-known sim.probe.index s turn.role turn.prompt_tokens turn.shared_prefix_tokens
              turn.t turn.aborted k c.leased m) in
      (
        sim',
        rw calm e,
        record {
          consistent = after.consistent;
          measured = after.measured;
          peak = after.peak;
          risen = after.risen;
          same_pool = after.same_pool;
        },
      )
