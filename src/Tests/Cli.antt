-- ===== src/Tests/Cli.antt =====
-- Trace files and the command line at concrete inputs.
use adaptive_context_residen.Common.{
  ℕ, ◌*◌, ◌^◌, ◌+◌, ◌≤◌, ◌≡◌, refl, String, true, none, some, List, [], ◌∷◌, map, length, All,
}
use adaptive_context_residen.Common.Dict.{Dict, lookup}
use adaptive_context_residen.Config.{
  TierConfig, effective_gbs, find_tier, default_config, default_cost, tier as config_tier,
}
use adaptive_context_residen.Trace.Files.{
  Json, JsonCodec, to_jsonl, from_jsonl, from_jsonl-to_jsonl,
}
use adaptive_context_residen.Trace.Synthetic.{Rng, synthetic_mix}
use adaptive_context_residen.Policies.Tier.{policies}
use adaptive_context_residen.Replay.Run.{Report, pool_raises}
use adaptive_context_residen.Replay.Turns.Total.{CanRun}
use adaptive_context_residen.Cli.{
  Source, stdin, jsonl, base_config, config_of, with_ram, with_hbm, with_prefill, resized,
  config_raises, ram_raises, ReplayArgs, exited, raised, main, Parsers, SynthArgs, commands,
  cmd_synth, cmd_replay,
}
use adaptive_context_residen.Cli.Synth.{written, main_synth-replay}
use adaptive_context_residen.Cli.Runs.{Replays, cmd_replay-stdin-to_jsonl}
use adaptive_context_residen.Tests.Numbers.{milli}
use adaptive_context_residen.Tests.Replay.{default_ram, turns}

-- A text that is the dictionary itself.
abbrev plain : JsonCodec
plain = record { Text = Dict String Json; dumps = λ d. d; loads = λ d. some d }

from_jsonl-to_jsonl_example : from_jsonl plain (to_jsonl plain turns) ≡ some turns
from_jsonl-to_jsonl_example = from_jsonl-to_jsonl plain turns (λ d distinct. refl)

abbrev args_on : Source plain → ReplayArgs plain
args_on source = record {
  trace = source;
  config = none;
  policies = "lru" ∷ "adaptive_value" ∷ [];
  json_out = true;
  ram_gib = some 4000;
  hbm_tokens = some 2000;
  prefill_tok_s = some 0;
  shared_prefix_tokens = 0;
}

abbrev source : Source plain
source = jsonl (to_jsonl plain turns)

-- A generator that always draws the lower bound.
abbrev low : Rng
low = record {
  State = Unit;
  seeded = λ seed. tt;
  random = λ s. (500, s);
  uniform = λ a b s. (a, s);
  gauss = λ mu sigma s. (mu, s);
}

abbrev round_to : ℕ → ℕ → ℕ
round_to x digits = x

abbrev parsers : Parsers plain round_to low (λ n. "1")
parsers = record {
  replay = λ rest. some (args_on source);
  synth = λ rest. none;
  trace_cc = λ rest. none;
}

abbrev args : ReplayArgs plain
args = args_on source

-- The tier "ram", as `--ram-gib` overrides it.
abbrev resized_ram : TierConfig
resized_ram = record default_ram { bytes_capacity = 4 * 1024 ^ 3 }

args-CanRun : (s : Source plain) → CanRun (config_of plain (args_on s)) resized_ram
unfolding config_of with_ram with_hbm with_prefill base_config default_config default_cost
    effective_gbs
args-CanRun _ = record {
  rates = record { prefill = refl; decode = refl; bytes = refl; bandwidth = refl };
  finite = λ n h. refl;
}

cmd_replay-stdin-to_jsonl_example :
    cmd_replay plain
      (λ x digits. x)
      (args_on (stdin (map (λ line. (true, line)) (to_jsonl plain turns))))
    ≡ raised
cmd_replay-stdin-to_jsonl_example =
    cmd_replay-stdin-to_jsonl plain (λ x digits. x)
      (args_on (stdin (map (λ line. (true, line)) (to_jsonl plain turns)))) turns
      (λ d distinct. refl) refl

-- Nobody codes and nobody is a patient: the trace has the reviewers' turns.
abbrev synth_args : SynthArgs plain round_to
synth_args = record { seed = 7; horizon = 100; coding_sessions = 0; patient_sessions = 0 }

abbrev synth_lines : List plain.Text
synth_lines = to_jsonl plain (synthetic_mix low round_to (λ n. "1") 7 100 0 0)

abbrev synth_parsers : Parsers plain round_to low (λ n. "1")
synth_parsers = record {
  replay = λ rest. some (args_on (jsonl synth_lines));
  synth = λ rest. some synth_args;
  trace_cc = λ rest. none;
}

main_synth-replay_example :
    (reports : List Report) × (main plain round_to low (λ n. "1") synth_parsers ("replay" ∷ [])
      ≡ exited 0 reports [])
    × Replays
        (config_of plain (args_on (jsonl synth_lines)))
        (synthetic_mix low round_to (λ n. "1") 7 100 0 0)
        args.policies
        reports
    × (25 ≤ length (written (main plain round_to low (λ n. "1") synth_parsers ("synth" ∷ []))))
    × All
        (λ r.
          r.turns + 1
          ≡ length (written (main plain round_to low (λ n. "1") synth_parsers ("synth" ∷ []))))
        reports
unfolding config_of with_ram with_hbm with_prefill resized main commands cmd_synth base_config
    config_tier find_tier default_config policies lookup config_raises ram_raises pool_raises
main_synth-replay_example =
    main_synth-replay low round_to (λ n. "1") plain synth_parsers [] [] synth_args
      (args_on (jsonl synth_lines)) resized_ram refl refl (λ d distinct. refl) refl refl refl
      (args-CanRun (jsonl synth_lines)) refl (refl, (refl, tt))
