-- ===== src/Cli/Synth.antt =====
-- `acr synth`, and `acr replay` on the trace that it writes.
use mathlib.Core.Path.{subst}
use adaptive_context_residen.Common.{
  ℕ, zero, suc, ◌+◌, ◌*◌, ◌≤◌, ◌≡◌, refl, sym, ap, ◌∙◌, String, true, false, some, is_some, Bool,
  List, [], ◌∷◌, arith, ◌++◌, length, length-append, All, All_impl, length-map, string_eq,
}
use adaptive_context_residen.Common.Dict.{lookup}
use adaptive_context_residen.Common.Sort.{sort, length-sort}
use adaptive_context_residen.Floats.{FloatOps}
use adaptive_context_residen.Config.{TierConfig, tier as config_tier}
use adaptive_context_residen.Trace.{Turn}
use adaptive_context_residen.Trace.Files.{
  JsonCodec, asdict, to_jsonl, IsFaithful, from_jsonl-to_jsonl,
}
use adaptive_context_residen.Trace.Synthetic.{
  Rng, short_turns, coding_session, patient_session, reviewer_session, sessions, synthetic_mix,
}
use adaptive_context_residen.Policies.Tier.{policies}
use adaptive_context_residen.Replay.Run.{Report, pool_raises}
use adaptive_context_residen.Replay.Turns.Total.{CanRun}
use adaptive_context_residen.Cli.{
  jsonl, ReplayArgs, config_of, config_raises, turns_of, Outcome, exited, raised, SynthArgs,
  Parsers, cmd_synth, commands, main,
}
use adaptive_context_residen.Cli.Runs.{Replays, main_total}

not_empty : {A : Type 0} (xs : List A) → 1 ≤ length xs → (x : A) × (rest : List A) × (xs ≡ x ∷ rest)
not_empty [] h = absurd (omega arith)
not_empty (x ∷ xs) h = (x, xs, refl)

-- A sorted list is no shorter than its last part.
length-last :
    {A : Type 0} (lt : A → A → Bool) (xs ys zs : List A) {n : ℕ}
    → length zs ≡ n
    → n ≤ length (sort lt (xs ++ (ys ++ zs)))
length-last lt xs ys zs h =
    omega (
      arith,
      length-sort lt (xs ++ (ys ++ zs)),
      length-append xs (ys ++ zs),
      length-append ys zs,
      h,
    )

module _ ⦃fl : FloatOps⦄ where
  open fl use {F}

  length-to_jsonl :
      (json : JsonCodec) (turns : List Turn) → length (to_jsonl json turns) ≡ length turns + 1
  unfolding to_jsonl
  length-to_jsonl json turns = omega (arith, length-map (λ turn. json.dumps (asdict turn)) turns)

  reads :
      {json : JsonCodec} (args : ReplayArgs json) (turns : List Turn)
      → args.trace ≡ jsonl (to_jsonl json turns)
      → IsFaithful json
      → turns_of json args.trace args.shared_prefix_tokens ≡ some turns
  unfolding turns_of
  reads {json} args turns e faithful = rw (e, turns_of) (from_jsonl-to_jsonl json turns faithful)

  -- The lines that a command wrote.
  abbrev pub written : {json : JsonCodec} → Outcome json → List json.Text
  written (exited code reports lines) = lines
  written raised = []

  module _ (rng : Rng) (round_to : F → ℕ → F) (str : ℕ → String) where
    -- The reviewers' loop has no horizon, and runs six times.
    length-reviewers :
        (horizon : F) (i n : ℕ) (s : rng.State)
        → length (sessions rng round_to str (reviewer_session rng round_to str horizon) i n s).0
          ≡ 6 * n
    unfolding sessions reviewer_session short_turns
    length-reviewers horizon i zero s = refl
    length-reviewers horizon i (suc n) s =
        let one = reviewer_session rng round_to str horizon i s in
        let rest =
          sessions rng round_to str (reviewer_session rng round_to str horizon) (suc i) n one.1 in
        omega (arith, length-append one.0 rest.0, length-reviewers horizon (suc i) n one.1)

    -- The four reviewers alone have 24 turns.
    length-synthetic_mix :
        (seed : ℕ) (horizon : F) (coding patients : ℕ)
        → 24 ≤ length (synthetic_mix rng round_to str seed horizon coding patients)
    unfolding synthetic_mix
    length-synthetic_mix seed horizon coding patients =
        let first =
          sessions rng round_to str (coding_session rng round_to str 320000 horizon) 0 coding
            (rng.seeded seed) in
        let second =
          sessions rng round_to str (patient_session rng round_to str horizon) 0 patients first.1 in
        length-last _ first.0 second.0 _ (length-reviewers horizon 0 4 second.1)

    module _ (json : JsonCodec) (parsers : Parsers json round_to rng str) where
      main_synth :
          (rest : List String) (synth : SynthArgs json round_to)
          → parsers.synth rest ≡ some synth
          → main json round_to rng str parsers ("synth" ∷ rest)
            ≡ exited 0 [] (
                to_jsonl json (
                  synthetic_mix rng round_to str synth.seed synth.horizon synth.coding_sessions
                    synth.patient_sessions))
      unfolding main commands lookup cmd_synth
      main_synth rest synth e = rw e refl

      -- If `json` reads back what it writes, the arguments of `synth` and of `replay` parse, the
      -- replayed trace is the file that `main` writes on `synth`, `--ram-gib` gives finite bytes,
      -- the configuration after the overrides has an enabled tier "ram", no rate of it that the
      -- program divides by is zero, the bytes of its pool and of a block are finite, and every
      -- policy's name is known, then `main` on `replay` exits with code 0 and prints the reports
      -- of the replays of the synthetic trace, one for each policy in the given order. The file
      -- has at least 25 lines, whatever the arguments of `synth` and the random numbers are, and
      -- every report counts a turn for each line but the header.
      pub main_synth-replay :
          (rest rest' : List String) (synth : SynthArgs json round_to) (args : ReplayArgs json)
          (ram : TierConfig)
          → parsers.synth rest ≡ some synth
          → parsers.replay rest' ≡ some args
          → IsFaithful json
          → args.trace ≡ jsonl (written (main json round_to rng str parsers ("synth" ∷ rest)))
          → config_raises json args ≡ false
          → config_tier (config_of json args) "ram" ≡ some ram
          → CanRun (config_of json args) ram
          → pool_raises (config_of json args) ≡ false
          → All (λ name. is_some (lookup name policies) ≡ true) args.policies
          → (reports : List Report) × (main json round_to rng str parsers ("replay" ∷ rest')
              ≡ exited 0 reports [])
            × Replays
                (config_of json args)
                (synthetic_mix rng round_to str synth.seed synth.horizon synth.coding_sessions
                  synth.patient_sessions)
                args.policies
                reports
            × (25 ≤ length (written (main json round_to rng str parsers ("synth" ∷ rest))))
            × All
                (λ r.
                  r.turns + 1
                  ≡ length (written (main json round_to rng str parsers ("synth" ∷ rest))))
                reports
      main_synth-replay rest rest' synth args ram parses parses' faithful same fine found can pool
            known =
          let trace =
            synthetic_mix rng round_to str synth.seed synth.horizon synth.coding_sessions
              synth.patient_sessions in
          let many =
            length-synthetic_mix synth.seed synth.horizon synth.coding_sessions
              synth.patient_sessions in
          let (turn, turns, e) = not_empty trace (omega (arith, many)) in
          let wrote = ap written (main_synth rest synth parses) in
          let lines = ap length wrote ∙ length-to_jsonl json trace in
          let (reports, ends, replays, all, table) =
            main_total json round_to rng str parsers rest' args ram turn turns parses'
              (reads args trace (same ∙ ap jsonl wrote) faithful ∙ ap some e) fine found can pool
              known in
          (
            reports,
            ends,
            subst (λ ts. Replays (config_of json args) ts args.policies reports) (sym e) replays,
            omega (arith, lines, many),
            All_impl _ _ (λ r h. omega (arith, h, lines, ap length e)) reports all,
          )
