-- ===== src/Probes/Lookup/Total.antt =====
-- `predict` on groups that meet its assertion.
use adaptive_context_residen.Common.{
  ℕ, suc, ◌/◌, ◌*◌, ◌-◌, min, ◌≤◌, ◌<◌, ◌≡◌, refl, Bool, true, false, not, Bool-cases, Option, none,
  some, List, [], ◌∷◌, arith, ◌==◌, ltb, length, Eq, inl, inr, All,
}
use adaptive_context_residen.Probes.Lookup.{
  get_elem?, GroupConfig, Scheduler, RequestState, Reason, settled, returned, Progress, Step,
  halted, next, first_max_hit, is_eagle_unver, hits_of, sliced_of, settle, look_up, step, pass,
  converge, predict,
}
use adaptive_context_residen.Probes.Lookup.Chunks.{Step-cases}

-- A round or a pass that returns or goes on.
abbrev Answers : Step → Type 0
Answers (halted o) = (h : ℕ) × (r : Reason) × (o ≡ returned (some h) r)
Answers (next st) = Unit

module _ {K : Type 0} ⦃e : Eq K⦄ (stored : List K) where
  settle-Answers :
      (gidx : ℕ) (gc : GroupConfig) (computed : ℕ) (unver : Bool) (max_hit nhit : ℕ) (st : Progress)
      → Answers (settle gidx gc computed unver max_hit nhit st)
  unfolding settle
  settle-Answers gidx gc computed unver max_hit nhit st = ground arith

  look_up-Answers :
      (gidx : ℕ) (gc : GroupConfig) (keys : List K) (num_tokens computed : ℕ) (st : Progress)
      → 0 < gc.tokens_per_chunk
      → num_tokens / gc.tokens_per_chunk ≤ length keys
      → Answers (look_up stored gidx gc keys num_tokens computed st)
  unfolding look_up
  look_up-Answers gidx gc keys num_tokens computed st wide enough =
      let unver = is_eagle_unver gidx gc st in
      let max_hit = min st.max_hit (length keys * gc.tokens_per_chunk) in
      let nhit = hits_of stored unver gc (sliced_of unver gc computed max_hit keys) in
      let is_wide : (gc.tokens_per_chunk == 0) ≡ false = ground arith in
      let is_enough : ltb (length keys) (num_tokens / gc.tokens_per_chunk) ≡ false = ground arith in
      rw (is_wide, is_enough, look_up)
        (elim (Bool-cases (ltb (max_hit - computed) gc.tokens_per_chunk)) [
          | inl narrowed ↦ rw narrowed (0, _, refl)
          | inr fits ↦ elim (Bool-cases (nhit == 0)) [
            | inl none_hit ↦ rw (fits, none_hit) (0, _, refl)
            | inr hit ↦ rw (fits, hit) (settle-Answers gidx gc computed unver max_hit nhit st)
          ]
        ])

  module _ (sched : Scheduler) (state : RequestState K) where
    -- A group with as many keys as the assertion asks for.
    pub record HasKeys (gidx : ℕ) : Type 0 where
      pub gc : GroupConfig
      pub keys : List K
      pub is_config : get_elem? sched.kv_group_configs gidx ≡ some gc
      pub is_state : get_elem? state.group_states gidx ≡ some keys
      pub wide : 0 < gc.tokens_per_chunk
      pub enough : state.num_tokens / gc.tokens_per_chunk ≤ length keys

    step-Answers :
        (gidx : ℕ) (st : Progress) → HasKeys gidx → Answers (step stored sched state gidx st)
    unfolding step
    step-Answers gidx st g =
        rw (g.is_config, g.is_state, step)
          (look_up-Answers gidx g.gc g.keys state.num_tokens state.num_locally_computed_tokens st
            g.wide g.enough)

    pass-Answers :
        (gs : List ℕ) (st : Progress) → All HasKeys gs → Answers (pass stored sched state gs st)
    unfolding pass
    pass-Answers [] st a = tt
    pass-Answers (gidx ∷ gs) st (g, a) = elim (Step-cases (step stored sched state gidx st)) [
      | inl (o, halt) ↦ let answers = step-Answers gidx st g in rw (halt, pass) (rw halt at answers)
      | inr (mid, moved) ↦ rw (moved, pass) (pass-Answers gs mid a)
    ]

    converge-Answers :
        (n : ℕ) (gs : List ℕ) (st : Progress)
        → All HasKeys gs
        → (h : ℕ) × (r : Reason) × (converge stored sched state (suc (suc n)) gs st
            ≡ returned (some h) r)
    unfolding converge
    converge-Answers n [] st a = (st.num_hit_tokens, settled, refl)
    converge-Answers n (gidx ∷ gs) st a =
        elim (Step-cases (pass stored sched state (gidx ∷ gs) st)) [
          | inl (o, halt) ↦
              let answers = pass-Answers (gidx ∷ gs) st a in
              rw (halt, converge) (rw halt at answers)
          | inr (end, moved) ↦ rw (moved, converge) (end.num_hit_tokens, settled, refl)
        ]

    -- The alignment of the first boundary, if there is one, is not zero.
    abbrev pub is_aligned : Option ℕ → Bool
    is_aligned none = true
    is_aligned (some align) = not (align == 0)

    first_total :
        (sliding : List ℕ) (align : Option ℕ) (n : ℕ)
        → is_aligned align ≡ true
        → (m : ℕ) × (first_max_hit sliding align n ≡ some m)
    unfolding first_max_hit
    first_total [] align n h = (n, refl)
    first_total (g ∷ gs) none n h = (_, refl)
    first_total (g ∷ gs) (some align) n h =
        let positive : (align == 0) ≡ false = ground arith in rw (positive, first_max_hit) (_, refl)

    -- If the alignment is not zero and every lookup group has a positive chunk and as many keys as
    -- the assertion asks for, `predict` returns a number of tokens: it neither raises nor ends at
    -- its guard.
    pub predict_total :
        is_aligned sched.mamba_align_size ≡ true
        → All HasKeys sched.lookup_groups
        → (h : ℕ) × (r : Reason) × (predict stored sched state ≡ returned (some h) r)
    unfolding predict
    predict_total aligned a =
        let (m, first) =
          first_total sched.sliding_window_groups sched.mamba_align_size state.num_tokens aligned in
        rw (first, predict) (converge-Answers 18 sched.lookup_groups _ a)
