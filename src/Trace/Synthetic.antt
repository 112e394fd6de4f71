-- ===== src/Trace/Synthetic.antt =====
-- `synthetic_mix` of src/acr/trace.py. Python's `random.Random` and `round` are parameters.
use adaptive_context_residen.Common.{
  ℕ, zero, suc, String, ◌<>◌, Bool, true, false, Option, none, some, List, [], ◌∷◌, ◌++◌,
  if◌then◌else◌,
}
use adaptive_context_residen.Common.Sort.{sort}
use adaptive_context_residen.Floats.{FloatOps}
use adaptive_context_residen.Trace.{Turn}

module _ ⦃fl : FloatOps⦄ where
  open fl use {F, of_ℕ, decimal, add, sub, mul, exp, trunc, lt}

  -- A generator of pseudo-random numbers, and its state after a draw.
  pub record Rng : Type 1 where
    pub State : Type 0
    pub seeded : ℕ → State
    pub random : State → F × State
    pub uniform : F → F → State → F × State
    pub gauss : F → F → State → F × State

  module _ (rng : Rng) (round_to : F → ℕ → F) (str : ℕ → String) where
    unfoldable pub lognormal : F → F → rng.State → F × rng.State
    lognormal median sigma s = let (x, s') = rng.gauss (of_ℕ 0) sigma s in (mul median (exp x), s')

    abbrev pub between : ℕ → ℕ → rng.State → F × rng.State
    between a b = rng.uniform (of_ℕ a) (of_ℕ b)

    -- A turn of the first loop, and the context after it.
    unfoldable pub coding_turn :
        ℕ → String → Bool → F → F → F → F → F × rng.State → Turn × F × rng.State
    coding_turn root sid is_first ctx t gap completion (grown, s) =
        let ctx' = add ctx (mul (of_ℕ 2200) grown) in
        let turn : Turn = record {
          t = round_to t 3;
          session_id = sid;
          role = "supervisor";
          prompt_tokens = trunc ctx;
          completion_tokens = trunc completion;
          shared_prefix_tokens = root;
          tool_eta_s = if is_first then none else some (round_to gap 3);
          aborted = false;
          slo_class = "interactive";
        } in
        let (aborts, s1) = rng.random s in
        let (lost, s2) = between 2000 9000 s1 in
        if lt aborts (decimal 6 2)
        then (record turn { aborted = true }, sub ctx' lost, s2)
        else (turn, ctx', s1)

    -- The loop over the `n` turns that are left of a coding session.
    unfoldable pub coding_turns :
        ℕ → F → String → ℕ → Bool → F → F → rng.State → List Turn × rng.State
    unfolding lognormal coding_turn
    coding_turns root horizon sid zero is_first ctx t s = ([], s)
    coding_turns root horizon sid (suc n) is_first ctx t s =
        let (long, s1) = rng.random s in
        let (gap, s2) =
          lognormal (if lt long (decimal 18 2) then of_ℕ 150 else of_ℕ 9) (decimal 5 1) s1 in
        let (completion, s3) = between 120 1400 s2 in
        let (turn, ctx', s4) =
          coding_turn root sid is_first ctx t gap completion
            (rng.uniform (decimal 4 1) (decimal 18 1) s3) in
        let (pause, s5) = between 1 6 s4 in
        let t' = add t (add gap pause) in
        let (turns, s6) = coding_turns root horizon sid n false ctx' t' s5 in
        if lt horizon t' then (turn ∷ [], s5) else (turn ∷ turns, s6)

    unfoldable pub coding_session : ℕ → F → ℕ → rng.State → List Turn × rng.State
    unfolding coding_turns
    coding_session root horizon i s =
        let (start, s1) = rng.uniform (of_ℕ 0) (mul horizon (decimal 6 1)) s in
        let (private, s2) = between 20000 120000 s1 in
        let (n, s3) = between 18 55 s2 in
        coding_turns root horizon ("code-" <> str i) (trunc n) true (add (of_ℕ root) private) start
          s3

    -- `None if k == 0 else round(_lognormal(...), 3)`: the first turn draws nothing.
    unfoldable pub eta_draw : Bool → F → F → rng.State → Option F × rng.State
    unfolding lognormal
    eta_draw true median sigma s = (none, s)
    eta_draw false median sigma s =
        let (x, s') = lognormal median sigma s in (some (round_to x 3), s')

    -- A patient's or a reviewer's turn.
    pub record Short : Type 0 where
      pub role : String
      pub prompt_low : ℕ
      pub prompt_high : ℕ
      pub completion_low : ℕ
      pub completion_high : ℕ
      pub shared : ℕ
      pub eta_median : F
      pub eta_sigma : F
      pub slo_class : String
      pub gap_median : F
      pub gap_sigma : F

    unfoldable pub short_turn : Short → String → Bool → F → rng.State → Turn × rng.State
    unfolding eta_draw
    short_turn kind sid is_first t s =
        let (prompt, s1) = between kind.prompt_low kind.prompt_high s in
        let (completion, s2) = between kind.completion_low kind.completion_high s1 in
        let (eta, s3) = eta_draw is_first kind.eta_median kind.eta_sigma s2 in
        (
          record {
            t = round_to t 3;
            session_id = sid;
            role = kind.role;
            prompt_tokens = trunc prompt;
            completion_tokens = trunc completion;
            shared_prefix_tokens = kind.shared;
            tool_eta_s = eta;
            aborted = false;
            slo_class = kind.slo_class;
          },
          s3,
        )

    -- The loop over the `n` turns that are left; only the patients' one stops at the horizon.
    unfoldable pub short_turns :
        Short → Option F → String → ℕ → Bool → F → rng.State → List Turn × rng.State
    unfolding short_turn lognormal
    short_turns kind horizon sid zero is_first t s = ([], s)
    short_turns kind horizon sid (suc n) is_first t s =
        let (turn, s1) = short_turn kind sid is_first t s in
        let (gap, s2) = lognormal kind.gap_median kind.gap_sigma s1 in
        let t' = add t gap in
        let (turns, s3) = short_turns kind horizon sid n false t' s2 in
        let is_over : Bool = elim horizon [ none ↦ false | some h ↦ lt h t' ] in
        if is_over then (turn ∷ [], s2) else (turn ∷ turns, s3)

    unfoldable pub patient : Short
    patient = record {
      role = "patient";
      prompt_low = 3500;
      prompt_high = 5000;
      completion_low = 80;
      completion_high = 512;
      shared = 4000;
      eta_median = of_ℕ 25;
      eta_sigma = decimal 6 1;
      slo_class = "interactive";
      gap_median = of_ℕ 55;
      gap_sigma = decimal 5 1;
    }

    unfoldable pub reviewer : Short
    reviewer = record {
      role = "reviewer";
      prompt_low = 28000;
      prompt_high = 46000;
      completion_low = 800;
      completion_high = 2048;
      shared = 12000;
      eta_median = of_ℕ 400;
      eta_sigma = decimal 4 1;
      slo_class = "batch";
      gap_median = of_ℕ 600;
      gap_sigma = decimal 4 1;
    }

    unfoldable pub patient_session : F → ℕ → rng.State → List Turn × rng.State
    unfolding short_turns patient
    patient_session horizon i s =
        let (t, s1) = rng.uniform (of_ℕ 0) (mul horizon (decimal 85 2)) s in
        let (n, s2) = between 6 14 s1 in
        short_turns patient (some horizon) ("patient-" <> str i) (trunc n) true t s2

    unfoldable pub reviewer_session : F → ℕ → rng.State → List Turn × rng.State
    unfolding short_turns reviewer
    reviewer_session horizon i s =
        let (t, s1) = rng.uniform (of_ℕ 0) (mul horizon (decimal 7 1)) s in
        short_turns reviewer none ("reviewer-" <> str i) 6 true t s1

    -- The sessions from `i` on, `n` of them.
    unfoldable pub sessions :
        (ℕ → rng.State → List Turn × rng.State) → ℕ → ℕ → rng.State → List Turn × rng.State
    sessions session i zero s = ([], s)
    sessions session i (suc n) s =
        let (turns, s1) = session i s in
        let (rest, s2) = sessions session (suc i) n s1 in (turns ++ rest, s2)

    -- `coding_grow_tokens` is never read.
    unfoldable pub synthetic_mix : (seed : ℕ) → F → ℕ → ℕ → List Turn
    unfolding coding_session patient_session reviewer_session sessions
    synthetic_mix seed horizon coding_sessions patient_sessions =
        let (coding, s1) =
          sessions (coding_session 320000 horizon) 0 coding_sessions (rng.seeded seed) in
        let (patients, s2) = sessions (patient_session horizon) 0 patient_sessions s1 in
        let (reviewers, s3) = sessions (reviewer_session horizon) 0 4 s2 in
        sort (λ a b. lt a.t b.t) (coding ++ (patients ++ reviewers))
