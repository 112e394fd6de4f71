-- ===== src/Replay/Table/Roles.antt =====
-- The roles that a replay measures.
use adaptive_context_residen.Common.{
  ◌≡◌, refl, sym, ap, ◌∙◌, String, Bool, Option, some, List, [], ◌∷◌, ◌++◌, map, arith,
  if◌then◌else◌, ◌=?◌, string_eq, Option-cases, Bool-cases, ◌||◌, ◌⊎◌, drop, inl, inr, append-nil,
  append_assoc,
}
use adaptive_context_residen.Common.Dict.{Dict, keys, lookup, insert, elem}
use adaptive_context_residen.Common.Result.{Result, ok, exception, items_at}
use adaptive_context_residen.Floats.{FloatOps}
use adaptive_context_residen.Index.Defs.{Key, key_eq}
use adaptive_context_residen.Config.{SimConfig, tier as config_tier}
use adaptive_context_residen.Policies.Tier.{build}
use adaptive_context_residen.Trace.{Turn, by_time}
use adaptive_context_residen.Replay.Stats.{
  RoleStats, add_metric, add_metrics, stats_of, stats_by_role,
}
use adaptive_context_residen.Replay.Turns.{
  TurnMetric, Simulator, new_simulator, serviceable, serve, one, rates_raise, touch_raises,
  path_raises,
}
use adaptive_context_residen.Replay.Host.{sizes, store_batch_to_host}
use adaptive_context_residen.Replay.Host.{is_oracle}
use adaptive_context_residen.Replay.Run.{
  future_accesses, Report, replay, release_all, finalize, run, run_policy, finalize_raises,
  pool_raises,
}
use adaptive_context_residen.Replay.Table.Columns.{signature}

Result-cases : {A : Type 0} (r : Result A) → (r ≡ exception) ⊎ ((a : A) × (r ≡ ok a))
Result-cases (ok a) = inr (a, refl)
Result-cases exception = inl refl

module _ ⦃fl : FloatOps⦄ where
  open fl use {F}

  -- The roles of measurements.
  abbrev pub roles : List TurnMetric → List String
  roles = map (λ m. m.role)

  roles-snoc :
      (ms : List TurnMetric) (m : TurnMetric) → roles (ms ++ m ∷ []) ≡ roles ms ++ m.role ∷ []
  roles-snoc [] m = refl
  roles-snoc (x ∷ ms) m = ap (◌∷◌ x.role) (roles-snoc ms m)

  abbrev metrics_of : Result Simulator → List TurnMetric
  metrics_of (ok sim) = sim.metrics
  metrics_of exception = []

  abbrev per_role_of : Option (Result Report) → Dict String RoleStats
  per_role_of (some (ok report)) = report.per_role
  per_role_of _ = []

  roles-serve :
      (sched : Dict Key (List F)) (turn : Turn) (ks : List Key) (sim sim' : Simulator)
      → serve sched turn ks sim ≡ ok sim'
      → roles sim'.metrics ≡ roles sim.metrics ++ turn.role ∷ []
  unfolding serve
  roles-serve sched turn ks sim sim' h =
      let blocks = sim.probe.index.blocks in
      let found =
        serviceable sim.hbm sim.host.policy sim.cfg.thrash_window_s turn.t sim.left_hbm_at ks in
      let stores =
        store_batch_to_host sim.ram_tier.bytes_capacity sched turn.t sim.probe ks sim.host in
      elim (Result-cases (items_at (drop found.cut ks) blocks)) [
        | inl e ↦ absurd (ground (arith, rw (e, serve) at h))
        | inr (cold, e1) ↦ elim (Result-cases (sizes ks blocks)) [
          | inl e ↦ absurd (ground (arith, rw (e1, e, serve) at h))
          | inr (path_bytes, e2) ↦ elim (Result-cases stores) [
            | inl e ↦ absurd (ground (arith, rw (e1, e2, e, serve) at h))
            | inr (host, e3) ↦
                elim (Bool-cases
                  (rates_raise sim found.restore_bytes || touch_raises host.policy sim.probe ks)) [
                    | inl e ↦ absurd (ground (arith, rw (e1, e2, e3, e, serve) at h))
                    | inr e4 ↦
                        sym (ap (λ r. roles (metrics_of r)) (rw (e1, e2, e3, e4, serve) at h))
                        ∙ roles-snoc sim.metrics _
                  ]
          ]
        ]
      ]

  -- The roles in the order of their first measurement.
  abbrev pub add_role : String → List String → List String
  add_role r rs = if elem r rs then rs else rs ++ r ∷ []

  abbrev pub add_roles : List String → List String → List String
  add_roles [] rs = rs
  add_roles (x ∷ xs) rs = add_roles xs (add_role x rs)

  keys-insert_add :
      {V : Type 0} (k : String) (v : V) (d : Dict String V)
      → keys (insert k v d) ≡ add_role k (keys d)
  unfolding insert
  keys-insert_add k v [] = refl
  keys-insert_add k v ((i, w) ∷ d) = ground (arith, keys-insert_add k v d)

  keys-add_metric :
      (m : TurnMetric) (d : Dict String (List TurnMetric))
      → keys (add_metric m d) ≡ add_role m.role (keys d)
  unfolding add_metric
  keys-add_metric m d = elim (Option-cases (lookup m.role d)) [
    | inl new ↦ rw (new, add_metric) (keys-insert_add m.role _ d)
    | inr (items, old) ↦ rw (old, add_metric) (keys-insert_add m.role _ d)
  ]

  keys-add_metrics :
      (ms : List TurnMetric) (d : Dict String (List TurnMetric))
      → keys (add_metrics ms d) ≡ add_roles (roles ms) (keys d)
  unfolding add_metrics
  keys-add_metrics [] d = refl
  keys-add_metrics (m ∷ ms) d =
      keys-add_metrics ms (add_metric m d) ∙ ap (add_roles (roles ms)) (keys-add_metric m d)

  signature-stats :
      (slo : F) (d : Dict String (List TurnMetric))
      → signature (map (λ x. (x.0, stats_of slo x.0 x.1)) d)
        ≡ map (λ r. (r, r =? "patient")) (keys d)
  unfolding stats_of
  signature-stats slo [] = refl
  signature-stats slo ((r, ms) ∷ d) = ground (arith, signature-stats slo d)

  abbrev pub signature_of : List String → List (String × Bool)
  signature_of rs = map (λ r. (r, r =? "patient")) (add_roles rs [])

  signature-stats_by_role :
      (slo : F) (ms : List TurnMetric) → signature (stats_by_role slo ms) ≡ signature_of (roles ms)
  unfolding stats_by_role
  signature-stats_by_role slo ms =
      signature-stats slo (add_metrics ms [])
      ∙ ap (map (λ r. (r, r =? "patient"))) (keys-add_metrics ms [])

  roles-one :
      (sched : Dict Key (List F)) (turn : Turn) (sim sim' : Simulator)
      → one sched turn sim ≡ ok sim'
      → roles sim'.metrics ≡ roles sim.metrics ++ turn.role ∷ []
  unfolding one
  roles-one sched turn sim sim' h = elim (Bool-cases (path_raises sim.probe.index turn)) [
    | inl e ↦ absurd (ground (arith, rw (e, one) at h))
    | inr e ↦ roles-serve sched turn _ (record sim { probe = _ }) sim' (rw (e, one) at h)
  ]

  roles-replay :
      (sched : Dict Key (List F)) (turns : List Turn) (sim sim' : Simulator)
      → replay sched turns sim ≡ ok sim'
      → roles sim'.metrics ≡ roles sim.metrics ++ map (λ t. t.role) turns
  unfolding replay
  roles-replay sched [] sim sim' h =
      sym (ap (λ r. roles (metrics_of r)) h) ∙ sym (append-nil (roles sim.metrics))
  roles-replay sched (turn ∷ turns) sim sim' h = elim (Result-cases (one sched turn sim)) [
    | inl e ↦ absurd (ground (arith, rw (e, replay) at h))
    | inr (mid, e) ↦
        roles-replay sched turns mid sim' (rw (e, replay) at h)
        ∙ ap (λ rs. rs ++ map (λ t. t.role) turns) (roles-one sched turn sim mid e)
        ∙ append_assoc (roles sim.metrics) (turn.role ∷ []) (map (λ t. t.role) turns)
  ]

  roles-run :
      (turns : List Turn) (sim sim' : Simulator)
      → run turns sim ≡ ok sim'
      → roles sim'.metrics ≡ roles sim.metrics ++ map (λ t. t.role) (by_time turns)
  unfolding run
  roles-run turns sim sim' h =
      let sched = (if is_oracle sim.host.policy.kind then future_accesses sim.cfg turns else []) in
      elim (Result-cases (replay sched (by_time turns) sim)) [
        | inl e ↦ absurd (ground (arith, rw (e, run) at h))
        | inr (end, e) ↦
            elim (Result-cases (release_all (keys end.probe.index.session_path) end.probe.index)) [
              | inl e' ↦ absurd (ground (arith, rw (e, e', run) at h))
              | inr (index, e') ↦
                  sym (ap (λ r. roles (metrics_of r)) (rw (e, e', run) at h))
                  ∙ roles-replay sched (by_time turns) sim end e
            ]
      ]

  -- Every report of a trace has the roles of the trace.
  pub signature-run_policy :
      (cfg : SimConfig) (turns : List Turn) (name : String) (report : Report)
      → run_policy cfg turns name ≡ some (ok report)
      → signature report.per_role ≡ signature_of (map (λ t. t.role) (by_time turns))
  unfolding run_policy finalize new_simulator
  signature-run_policy cfg turns name report h = elim (Option-cases (config_tier cfg "ram")) [
    | inl e ↦ absurd (ground (arith, rw (e, run_policy) at h))
    | inr (ram, e1) ↦ elim (Option-cases (build name ram.bytes_capacity)) [
      | inl e ↦ absurd (ground (arith, rw (e1, e, run_policy) at h))
      | inr (policy, e2) ↦ elim (Bool-cases (pool_raises cfg)) [
        | inl e ↦ absurd (ground (arith, rw (e1, e2, e, run_policy) at h))
        | inr e0 ↦ elim (Result-cases (run turns (new_simulator cfg policy ram))) [
          | inl e ↦ absurd (ground (arith, rw (e1, e2, e0, e, run_policy) at h))
          | inr (end, e3) ↦ elim (Bool-cases (finalize_raises end)) [
            | inl e ↦ absurd (ground (arith, rw (e1, e2, e0, e3, e, run_policy) at h))
            | inr e4 ↦
                sym (ap (λ r. signature (per_role_of r)) (rw (e1, e2, e0, e3, e4, run_policy) at h))
                ∙ signature-stats_by_role _ end.metrics
                ∙ ap signature_of (roles-run turns (new_simulator cfg policy ram) end e3)
          ]
        ]
      ]
    ]
  ]
