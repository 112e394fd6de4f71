-- ===== src/Probes/Lookup/Served.antt =====
-- The boundary that `predict` returns, group by group.
use adaptive_context_residen.Common.{
  ℕ, suc, ◌+◌, ◌-◌, ◌≤◌, ◌<◌, ◌≡◌, refl, some, List, [], ◌∷◌, arith, Eq, Option-cases, inl, inr,
  All,
}
use adaptive_context_residen.Probes.Lookup.{
  get_elem?, GroupConfig, Scheduler, RequestState, Reason, Outcome, returned, Progress, halted,
  next, step, pass, converge, first_max_hit, predict,
}
use adaptive_context_residen.Probes.Lookup.Chunks.{
  hit_of, first_max_hit-le, Step-cases, Serves, Serves-mono, look_up_next, look_up_halted,
}

module _ {K : Type 0} ⦃e : Eq K⦄ (stored : List K) where
  module _ (sched : Scheduler) (state : RequestState K) where
    -- A group of the scheduler that can serve the boundary.
    pub record CanServe (boundary gidx : ℕ) : Type 0 where
      pub gc : GroupConfig
      pub keys : List K
      pub is_config : get_elem? sched.kv_group_configs gidx ≡ some gc
      pub is_state : get_elem? state.group_states gidx ≡ some keys
      pub wide : 0 < gc.tokens_per_chunk
      pub serves : Serves stored gc keys state.num_locally_computed_tokens boundary

    CanServe-mono : (gidx a b : ℕ) → a ≤ b → CanServe b gidx → CanServe a gidx
    CanServe-mono gidx a b h c = record {
      gc = c.gc;
      keys = c.keys;
      is_config = c.is_config;
      is_state = c.is_state;
      wide = c.wide;
      serves =
          Serves-mono stored c.gc c.keys state.num_locally_computed_tokens a b c.wide h c.serves;
    }

    -- The bookkeeping of a round.
    abbrev Rounded : Progress → Progress → Type 0
    Rounded st st' =
        (st'.max_hit ≤ st.max_hit)
        × (st'.num_hit_tokens ≡ st'.max_hit - state.num_locally_computed_tokens)

    step_next :
        (gidx : ℕ) (st st' : Progress)
        → step stored sched state gidx st ≡ next st'
        → CanServe st'.max_hit gidx × Rounded st st'
    unfolding step
    step_next gidx st st' h = elim (Option-cases (get_elem? sched.kv_group_configs gidx)) [
      | inl missing ↦ absurd (ground (arith, rw (missing, step) at h))
      | inr (gc, is_config) ↦ elim (Option-cases (get_elem? state.group_states gidx)) [
        | inl missing ↦ absurd (ground (arith, rw (is_config, missing, step) at h))
        | inr (keys, is_state) ↦
            let (wide, serves, lower, hit) =
              look_up_next stored gidx gc keys state.num_tokens state.num_locally_computed_tokens st
                st' (rw (is_config, is_state, step) at h) in
            (
              record {
                gc = gc;
                keys = keys;
                is_config = is_config;
                is_state = is_state;
                wide = wide;
                serves = serves;
              },
              (lower, hit),
            )
      ]
    ]

    All_mono : (a b : ℕ) (gs : List ℕ) → a ≤ b → All (CanServe b) gs → All (CanServe a) gs
    All_mono a b [] h c = tt
    All_mono a b (gidx ∷ gs) h (c, cs) = (CanServe-mono gidx a b h c, All_mono a b gs h cs)

    -- The groups of a pass that does not halt, after a round.
    pass_rest :
        (gs : List ℕ) (gidx : ℕ) (st mid st' : Progress)
        → CanServe mid.max_hit gidx × Rounded st mid
        → pass stored sched state gs mid ≡ next st'
        → All (CanServe st'.max_hit) (gidx ∷ gs) × Rounded st st'
    unfolding pass
    pass_rest [] gidx st mid st' (c, rounded) h =
        let e : mid ≡ st' = ground arith in rw (← e) ((c, tt), rounded)
    pass_rest (g ∷ gs) gidx st mid st' (c, (lower, hit)) h =
        elim (Step-cases (step stored sched state g mid)) [
          | inl (o, halt) ↦ absurd (ground (arith, rw (halt, pass) at h))
          | inr (next_st, moved) ↦
              let (cs, (lower', hit')) =
                pass_rest gs g mid next_st st' (step_next g mid next_st moved)
                  (rw (moved, pass) at h) in
              ((CanServe-mono gidx st'.max_hit mid.max_hit lower' c, cs), (omega arith, hit'))
        ]

    step_halted :
        (gidx : ℕ) (st : Progress) (o : Outcome)
        → step stored sched state gidx st ≡ halted o
        → hit_of o ≡ 0
    unfolding step
    step_halted gidx st o h = elim (Option-cases (get_elem? sched.kv_group_configs gidx)) [
      | inl missing ↦ ground (arith, rw (missing, step) at h)
      | inr (gc, is_config) ↦ elim (Option-cases (get_elem? state.group_states gidx)) [
        | inl missing ↦ ground (arith, rw (is_config, missing, step) at h)
        | inr (keys, is_state) ↦
            look_up_halted stored gidx gc keys state.num_tokens state.num_locally_computed_tokens st
              o (rw (is_config, is_state, step) at h)
      ]
    ]

    pass_halted :
        (gs : List ℕ) (st : Progress) (o : Outcome)
        → pass stored sched state gs st ≡ halted o
        → hit_of o ≡ 0
    unfolding pass
    pass_halted [] st o h = absurd (ground arith)
    pass_halted (gidx ∷ gs) st o h = elim (Step-cases (step stored sched state gidx st)) [
      | inl (o', halt) ↦ ground (arith, step_halted gidx st o' halt, rw (halt, pass) at h)
      | inr (mid, moved) ↦ pass_halted gs mid o (rw (moved, pass) at h)
    ]

    pass_next :
        (gidx : ℕ) (gs : List ℕ) (st st' : Progress)
        → pass stored sched state (gidx ∷ gs) st ≡ next st'
        → All (CanServe st'.max_hit) (gidx ∷ gs) × Rounded st st'
    unfolding pass
    pass_next gidx gs st st' h = elim (Step-cases (step stored sched state gidx st)) [
      | inl (o, halt) ↦ absurd (ground (arith, rw (halt, pass) at h))
      | inr (mid, moved) ↦
          pass_rest gs gidx st mid st' (step_next gidx st mid moved) (rw (moved, pass) at h)
    ]

    converge-Served :
        (n : ℕ) (gs : List ℕ) (st : Progress) (h : ℕ) (r : Reason)
        → st.num_hit_tokens ≡ 0
        → converge stored sched state (suc (suc n)) gs st ≡ returned (some h) r
        → 0 < h
        → All (CanServe (state.num_locally_computed_tokens + h)) gs
          × (state.num_locally_computed_tokens + h ≤ st.max_hit)
    unfolding converge
    converge-Served n [] st h r z e pos = absurd (ground arith)
    converge-Served n (gidx ∷ gs) st h r z e pos =
        elim (Step-cases (pass stored sched state (gidx ∷ gs) st)) [
          | inl (o, halt) ↦
              absurd (ground (arith, pass_halted (gidx ∷ gs) st o halt, rw (halt, converge) at e))
          | inr (end, moved) ↦
              let (cs, (lower, hit)) = pass_next gidx gs st end moved in
              let served : state.num_locally_computed_tokens + h ≡ end.max_hit =
                ground (arith, rw (moved, converge) at e) in
              (All_mono _ end.max_hit (gidx ∷ gs) (omega arith) cs, omega arith)
        ]

    -- If `predict` returns a number of hit tokens that is not zero, the boundary that they reach
    -- from the computed tokens is within the request and within the keys of every lookup group,
    -- and every lookup group without a sliding window has all its chunks resident from the
    -- computed tokens up to the boundary.
    pub predict-Served :
        (h : ℕ) (r : Reason)
        → predict stored sched state ≡ returned (some h) r
        → 0 < h
        → All (CanServe (state.num_locally_computed_tokens + h)) sched.lookup_groups
          × (state.num_locally_computed_tokens + h ≤ state.num_tokens)
    unfolding predict
    predict-Served h r e pos =
        elim (Option-cases
          (first_max_hit sched.sliding_window_groups sched.mamba_align_size state.num_tokens)) [
            | inl none_first ↦ absurd (ground (arith, rw (none_first, predict) at e))
            | inr (m, first) ↦
                let (cs, within) =
                  converge-Served 18 sched.lookup_groups _ h r refl (rw (first, predict) at e)
                    pos in
                (
                  cs,
                  omega (
                    arith,
                    first_max_hit-le sched.sliding_window_groups sched.mamba_align_size
                        state.num_tokens m first,
                  ),
                )
          ]
