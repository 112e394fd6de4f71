-- ===== src/Cli.antt =====
-- src/acr/__main__.py: the commands, after `argparse` and the readers of files. What is printed is
-- kept as the reports and the table; `argparse` is a parameter.
pub mod Runs
pub mod Synth
use adaptive_context_residen.Common.{
  any, any-none, any-All, ℕ, ◌*◌, ◌^◌, String, Bool, true, false, not, ◌&&◌, Option, none, some,
  List, [], ◌∷◌, map, filter, if◌then◌else◌, ltb, length, ◌=?◌, string_eq,
}
use adaptive_context_residen.Common.Dict.{Dict, lookup}
use adaptive_context_residen.Common.Result.{Result, ok, exception}
use adaptive_context_residen.Floats.{FloatOps}
use adaptive_context_residen.Config.{
  TierConfig, CostModel, SimConfig, default_config, tier as config_tier,
}
use adaptive_context_residen.Config.Load.{Raw, load_config}
use adaptive_context_residen.Trace.{Turn}
use adaptive_context_residen.Trace.Transcript.{Line, load_cc_transcript}
use adaptive_context_residen.Trace.Files.{
  JsonCodec, HarnessRow, turn_of_record, to_jsonl, from_jsonl, load_harness_csv,
}
use adaptive_context_residen.Trace.Synthetic.{Rng, synthetic_mix}
use adaptive_context_residen.Replay.Run.{Report, compare}
use adaptive_context_residen.Replay.Table.{Cell, markdown_table}

module _ ⦃fl : FloatOps⦄ where
  open fl use {F, of_ℕ, mul, trunc, eq, isfinite}

  -- `if args.prefill_tok_s:` and `if args.hbm_tokens:` pass over zero.
  unfoldable pub with_prefill : Option F → SimConfig → SimConfig
  with_prefill none cfg = cfg
  with_prefill (some x) cfg =
      if eq x (of_ℕ 0)
      then cfg
      else record cfg { cost = record cfg.cost { prefill_tokens_per_s = x } }

  unfoldable pub with_hbm : Option ℕ → SimConfig → SimConfig
  with_hbm none cfg = cfg
  with_hbm (some n) cfg = if ltb 0 n then record cfg { hbm_pool_tokens = n } else cfg

  unfoldable pub resized : F → TierConfig → TierConfig
  resized gib t =
      if t.name =? "ram" then record t { bytes_capacity = trunc (mul gib (of_ℕ (1024 ^ 3))) } else t

  unfoldable pub with_ram : Option F → SimConfig → SimConfig
  unfolding resized
  with_ram none cfg = cfg
  with_ram (some gib) cfg = record cfg { tiers = map (resized gib) cfg.tiers }

  -- Whether `int(args.ram_gib * 1024**3)` is computed of a number that is not finite.
  unfoldable pub ram_raises : Option F → SimConfig → Bool
  ram_raises none cfg = false
  ram_raises (some gib) cfg =
      any (λ t. t.name =? "ram") cfg.tiers && not (isfinite (mul gib (of_ℕ (1024 ^ 3))))

  unfoldable pub base_config : Option Raw → SimConfig
  base_config none = default_config
  base_config (some raw) = load_config raw

  -- The list of reports, if no policy raised.
  unfoldable pub collect : List (Option (Result Report)) → Option (List Report)
  collect [] = some []
  collect (some (ok report) ∷ rest) = elim (collect rest) [
    | none ↦ none
    | some reports ↦ some (report ∷ reports)
  ]
  collect (_ ∷ rest) = none

  module _ (json : JsonCodec) where
    -- `--trace` and `--trace-format`, with what the file or the standard input holds. A line of the
    -- standard input is kept with the test `line.strip()`.
    pub data Source : Type 0 where
      stdin : List (Bool × json.Text) → Source
      cc_transcript : String → List Line → Source
      harness_csv : String → List HarnessRow → Source
      jsonl : List json.Text → Source

    -- The list comprehension over the standard input.
    unfoldable pub stdin_turns : List (Bool × json.Text) → Option (List Turn)
    stdin_turns [] = some []
    stdin_turns ((is_full, line) ∷ lines) =
        let rest = stdin_turns lines in
        if not is_full then rest else elim (json.loads line) [
          | none ↦ none
          | some rec ↦ elim (turn_of_record rec) [
            | none ↦ none
            | some turn ↦ elim rest [ none ↦ none | some turns ↦ some (turn ∷ turns) ]
          ]
        ]

    -- The arguments of `acr replay`. The policies are split at the commas and stripped.
    pub record ReplayArgs : Type 0 where
      pub trace : Source
      pub config : Option Raw
      pub policies : List String
      pub json_out : Bool
      pub ram_gib : Option F
      pub hbm_tokens : Option ℕ
      pub prefill_tok_s : Option F
      pub shared_prefix_tokens : ℕ

    -- `none` stands for the exception of a reader.
    unfoldable pub turns_of : Source → ℕ → Option (List Turn)
    unfolding stdin_turns
    turns_of (stdin lines) shared = stdin_turns lines
    turns_of (cc_transcript session_id lines) shared =
        some (load_cc_transcript session_id "supervisor" shared lines)
    turns_of (harness_csv session_id rows) shared =
        some (load_harness_csv session_id "supervisor" rows)
    turns_of (jsonl lines) shared = from_jsonl json lines

    unfoldable pub config_of : ReplayArgs → SimConfig
    unfolding with_prefill with_hbm with_ram base_config
    config_of args =
        with_ram args.ram_gib
          (with_hbm args.hbm_tokens (with_prefill args.prefill_tok_s (base_config args.config)))

    -- The overrides before keep the tiers.
    unfoldable pub config_raises : ReplayArgs → Bool
    unfolding ram_raises base_config
    config_raises args = ram_raises args.ram_gib (base_config args.config)

    -- How a command ends: an exit code with the reports that were printed and the lines of the
    -- written trace, or an exception.
    pub data Outcome : Type 0 where
      exited : ℕ → List Report → List json.Text → Outcome
      raised : Outcome

    module _ (round_to : F → ℕ → F) where
      -- From `reports = compare(...)` on. The second line of the header reads the tier "ram".
      unfoldable pub print_reports : SimConfig → Option (List Report) → Outcome
      print_reports cfg none = raised
      print_reports cfg (some reports) = elim (config_tier cfg "ram") [
        | none ↦ raised
        | some ram ↦ elim (markdown_table round_to reports) [
          | exception ↦ raised
          | ok table ↦ exited 0 reports []
        ]
      ]

      unfoldable pub replay_turns : SimConfig → List String → List Turn → Outcome
      unfolding collect print_reports
      replay_turns cfg policies [] = exited 2 [] []
      replay_turns cfg policies (turn ∷ turns) =
          print_reports cfg (collect (compare cfg (turn ∷ turns) policies))

      unfoldable pub cmd_replay : ReplayArgs → Outcome
      unfolding turns_of config_of config_raises replay_turns
      cmd_replay args =
          if config_raises args
          then raised
          else elim (turns_of args.trace args.shared_prefix_tokens) [
            | none ↦ raised
            | some turns ↦ replay_turns (config_of args) args.policies turns
          ]

      -- The arguments of `acr synth`.
      pub record SynthArgs : Type 0 where
        pub seed : ℕ
        pub horizon : F
        pub coding_sessions : ℕ
        pub patient_sessions : ℕ

      pub record TraceCcArgs : Type 0 where
        pub session_id : String
        pub lines : List Line
        pub role : String
        pub shared_prefix_tokens : ℕ

      module _ (rng : Rng) (str : ℕ → String) where
        unfoldable pub cmd_synth : SynthArgs → Outcome
        cmd_synth args = exited 0 [] (
            to_jsonl json (
              synthetic_mix rng round_to str args.seed args.horizon args.coding_sessions
                args.patient_sessions))

        unfoldable pub cmd_trace_cc : TraceCcArgs → Outcome
        cmd_trace_cc args = exited 0 [] (
            to_jsonl json
              (load_cc_transcript args.session_id args.role args.shared_prefix_tokens args.lines))

        -- The parsers of the commands; on `none` they have printed an error and exit with code 2.
        pub record Parsers : Type 0 where
          pub replay : List String → Option ReplayArgs
          pub synth : List String → Option SynthArgs
          pub trace_cc : List String → Option TraceCcArgs

        abbrev pub parsed : {A : Type 0} → (A → Outcome) → Option A → Outcome
        parsed run none = exited 2 [] []
        parsed run (some args) = run args

        unfoldable pub commands : Parsers → Dict String (List String → Outcome)
        unfolding cmd_replay cmd_synth cmd_trace_cc
        commands ap =
            ("replay", λ rest. parsed cmd_replay (ap.replay rest))
            ∷ ("synth", λ rest. parsed cmd_synth (ap.synth rest))
            ∷ ("trace-cc", λ rest. parsed cmd_trace_cc (ap.trace_cc rest))
            ∷ []

        unfoldable pub main : Parsers → List String → Outcome
        unfolding commands
        main ap [] = exited 0 [] []
        main ap (cmd ∷ rest) =
            if cmd =? "-h"
            then exited 0 [] []
            else if cmd =? "--help"
            then exited 0 [] []
            else elim (lookup cmd (commands ap)) [ none ↦ exited 2 [] [] | some run ↦ run rest ]
