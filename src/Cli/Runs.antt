-- ===== src/Cli/Runs.antt =====
-- `acr replay`: its overrides, its reports, and the reading of the standard input.
use adaptive_context_residen.Common.{
  ℕ, ◌≡◌, refl, ap, String, Bool, true, Option, none, some, is_some, List, [], ◌∷◌, map, length,
  All, All_impl, string_eq, Bool-cases, false, inl, inr,
}
use adaptive_context_residen.Common.Dict.{lookup}
use adaptive_context_residen.Floats.{FloatOps}
use adaptive_context_residen.Config.{TierConfig, SimConfig, tier as config_tier}
use adaptive_context_residen.Trace.{Turn, by_time}
use adaptive_context_residen.Trace.Files.{
  JsonCodec, int, asdict, turn_of_record, to_jsonl, IsFaithful, schema_version,
}
use adaptive_context_residen.Trace.Synthetic.{Rng}
use adaptive_context_residen.Policies.Tier.{policies}
use adaptive_context_residen.Replay.Run.{Report, run_policy, pool_raises, compare}
use adaptive_context_residen.Replay.Run.Total.{run_policy_total}
use adaptive_context_residen.Replay.Turns.Total.{CanRun}
use adaptive_context_residen.Common.Result.{ok}
use adaptive_context_residen.Replay.Table.{Cell, markdown_table}
use adaptive_context_residen.Replay.Table.Columns.{signature, IsTable, markdown_table_total}
use adaptive_context_residen.Replay.Table.Roles.{signature_of, signature-run_policy}
use adaptive_context_residen.Cli.{
  stdin, stdin_turns, ReplayArgs, turns_of, config_of, config_raises, exited, raised, collect,
  print_reports, replay_turns, cmd_replay, commands, main, Parsers,
}

module _ ⦃fl : FloatOps⦄ where
  open fl use {F}

  module _ (cfg : SimConfig) (turns : List Turn) where
    -- The reports of a list of policies: one for each, of all the turns and their roles.
    abbrev AllReports : List Report → Type 0
    AllReports = All (λ r.
        (r.turns ≡ length turns)
        × (signature r.per_role ≡ signature_of (map (λ t. t.role) (by_time turns))))

    -- The reports of a list of policies are those of its members' replays, in order.
    abbrev pub Replays : List String → List Report → Type 0
    Replays names reports =
        (map (λ r. some (ok r)) reports ≡ map (run_policy cfg turns) names)
        × (map (λ r. r.policy) reports ≡ names)

    collect-compare :
        (ram : TierConfig) (names : List String)
        → config_tier cfg "ram" ≡ some ram
        → CanRun cfg ram
        → pool_raises cfg ≡ false
        → All (λ name. is_some (lookup name policies) ≡ true) names
        → (reports : List Report) × (collect (compare cfg turns names) ≡ some reports)
          × Replays names reports
          × AllReports reports
    unfolding collect compare
    collect-compare ram [] found can pool known = ([], refl, (refl, refl), tt)
    collect-compare ram (name ∷ names) found can pool (k, known) =
        let (report, e, counted, named) = run_policy_total cfg ram turns name found can pool k in
        let (reports, es, (same, names_same), all) =
          collect-compare ram names found can pool known in
        let roles = signature-run_policy cfg turns name report e in
        rw (e, es, collect)
          (
            report ∷ reports,
            refl,
            (ap (◌∷◌ (some (ok report))) same, rw (named, names_same) refl),
            ((counted, roles), all),
          )

  module _ (json : JsonCodec) where
    module _ (round_to : F → ℕ → F) where
      -- The table of the reports: its columns are those of the first report, and it has a line for
      -- each report.
      abbrev pub Printed : List Report → Type 0
      Printed reports =
          (table : Option (List String × List (List Cell))) × (markdown_table round_to reports
            ≡ ok table)
          × IsTable round_to reports table

      print_reports_total :
          (cfg : SimConfig) (ram : TierConfig) (turns : List Turn) (reports : List Report)
          → config_tier cfg "ram" ≡ some ram
          → AllReports cfg turns reports
          → (print_reports json round_to cfg (some reports) ≡ exited 0 reports []) × Printed reports
      unfolding print_reports
      print_reports_total cfg ram turns reports found all =
          let (table, e, is_table) =
            markdown_table_total round_to reports (signature_of (map (λ t. t.role) (by_time turns)))
              (All_impl _ _ (λ r h. h.1) reports all) in
          (rw (found, e, print_reports) refl, (table, e, is_table))

      -- If the overridden configuration has an enabled tier "ram" and numbers with which no turn
      -- raises, and every policy's name is known, then `acr replay` on a trace that is read and not
      -- empty exits with code 0 and prints the reports of the policies' replays.
      pub cmd_replay_total :
          (args : ReplayArgs json) (ram : TierConfig) (turn : Turn) (turns : List Turn)
          → turns_of json args.trace args.shared_prefix_tokens ≡ some (turn ∷ turns)
          → config_raises json args ≡ false
          → config_tier (config_of json args) "ram" ≡ some ram
          → CanRun (config_of json args) ram
          → pool_raises (config_of json args) ≡ false
          → All (λ name. is_some (lookup name policies) ≡ true) args.policies
          → (reports : List Report) × (cmd_replay json round_to args ≡ exited 0 reports [])
            × Replays (config_of json args) (turn ∷ turns) args.policies reports
            × All (λ r. r.turns ≡ length (turn ∷ turns)) reports
            × Printed reports
      unfolding cmd_replay replay_turns
      cmd_replay_total args ram turn turns read fine found can pool known =
          let cfg = config_of json args in
          let (reports, e, same, all) =
            collect-compare cfg (turn ∷ turns) ram args.policies found can pool known in
          let (prints, table) = print_reports_total cfg ram (turn ∷ turns) reports found all in
          rw (fine, read, e, cmd_replay)
            (reports, prints, same, All_impl _ _ (λ r h. h.0) reports all, table)

      module _ (rng : Rng) (str : ℕ → String) where
        main_replay :
            (ap : Parsers json round_to rng str) (rest : List String) (args : ReplayArgs json)
            → ap.replay rest ≡ some args
            → main json round_to rng str ap ("replay" ∷ rest) ≡ cmd_replay json round_to args
        unfolding main commands lookup
        main_replay ap rest args e = rw e refl

        pub main_total :
            (ap : Parsers json round_to rng str) (rest : List String) (args : ReplayArgs json)
            (ram : TierConfig) (turn : Turn) (turns : List Turn)
            → ap.replay rest ≡ some args
            → turns_of json args.trace args.shared_prefix_tokens ≡ some (turn ∷ turns)
            → config_raises json args ≡ false
            → config_tier (config_of json args) "ram" ≡ some ram
            → CanRun (config_of json args) ram
            → pool_raises (config_of json args) ≡ false
            → All (λ name. is_some (lookup name policies) ≡ true) args.policies
            → (reports : List Report) × (main json round_to rng str ap ("replay" ∷ rest)
                ≡ exited 0 reports [])
              × Replays (config_of json args) (turn ∷ turns) args.policies reports
              × All (λ r. r.turns ≡ length (turn ∷ turns)) reports
              × Printed reports
        main_total ap rest args ram turn turns parses read fine found can pool known =
            rw (main_replay ap rest args parses)
              (cmd_replay_total args ram turn turns read fine found can pool known)

      stdin_turns-header :
          (lines : List (Bool × json.Text))
          → IsFaithful json
          → stdin_turns json
              ((true, json.dumps (("schema_version", int schema_version) ∷ [])) ∷ lines)
            ≡ none
      unfolding stdin_turns turn_of_record lookup
      stdin_turns-header lines faithful =
          rw (faithful (("schema_version", int schema_version) ∷ []) (refl, tt), stdin_turns) refl

      -- If `json` reads back what it writes, `acr replay --trace -` on the lines that `to_jsonl`
      -- writes raises, for any turns: the header line is no turn, and unlike `from_jsonl` the
      -- reader of the standard input does not skip it.
      pub cmd_replay-stdin-to_jsonl :
          (args : ReplayArgs json) (turns : List Turn)
          → IsFaithful json
          → args.trace ≡ stdin (map (λ line. (true, line)) (to_jsonl json turns))
          → cmd_replay json round_to args ≡ raised
      unfolding cmd_replay turns_of to_jsonl
      cmd_replay-stdin-to_jsonl args turns faithful piped =
          elim (Bool-cases (config_raises json args)) [
            | inl bad ↦ rw (bad, cmd_replay) refl
            | inr fine ↦
                rw
                  (
                    fine,
                    piped,
                    cmd_replay,
                    turns_of,
                    stdin_turns-header
                        (map (λ line. (true, line)) (map (λ turn. json.dumps (asdict turn)) turns))
                        faithful,
                  )
                  refl
          ]
