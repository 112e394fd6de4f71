-- ===== src/Tests/Stats.antt =====
-- The statistics by role at a concrete input.
use adaptive_context_residen.Common.{ℕ, ◌≡◌, String, List, [], ◌∷◌, length, sum_by}
use adaptive_context_residen.Common.Dict.{values}
use adaptive_context_residen.Replay.Turns.{TurnMetric}
use adaptive_context_residen.Replay.Stats.{stats_by_role, turns-stats_by_role}
use adaptive_context_residen.Tests.Numbers.{milli}

abbrev metric : String → ℕ → TurnMetric
metric role ttft = record {
  t = 1000;
  role = role;
  prompt_tokens = 2500;
  ttft_s = ttft;
  e2e_s = ttft;
  recompute_tokens = 816;
  restore_bytes = 0;
  source_tiers = [];
}

abbrev metrics : List TurnMetric
metrics = metric "patient" 2000 ∷ metric "coder" 700 ∷ metric "patient" 900 ∷ []

turns-stats_by_role_example :
    sum_by (λ s. s.n) (values (stats_by_role 1500 metrics)) ≡ length metrics
turns-stats_by_role_example = turns-stats_by_role 1500 metrics
