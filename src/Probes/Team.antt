-- ===== src/Probes/Team.antt =====
-- experiments/team_real_trace.py: the copies of a recorded session, and their replay through the
-- policies. The recorded session is a parameter, and `str` prints a number.
pub mod Complete
use adaptive_context_residen.Common.{
  ℕ, ◌*◌, ◌^◌, String, ◌<>◌, Bool, Option, none, some, List, [], ◌∷◌, map, if◌then◌else◌, ◌=?◌,
  string_eq,
}
use adaptive_context_residen.Common.Dict.{lookup}
use adaptive_context_residen.Common.Result.{ok, exception}
use adaptive_context_residen.Floats.{FloatOps}
use adaptive_context_residen.Config.{TierConfig, SimConfig, default_config}
use adaptive_context_residen.Trace.{Turn, by_time}
use adaptive_context_residen.Replay.Stats.{RoleStats}
use adaptive_context_residen.Replay.Run.{Report, run_policy}
use adaptive_context_residen.Probes.Streams.{range, concat_map}

abbrev pub names : List String
names = "lru" ∷ "lfu" ∷ "fixed_ttl" ∷ "continuum_ttl" ∷ "adaptive_value" ∷ "oracle" ∷ []

module _ ⦃fl : FloatOps⦄ where
  open fl use {F, of_ℕ, decimal, add, mul}

  -- What a printed line is made of.
  pub record Line : Type 0 where
    pub k : ℕ
    pub gib : ℕ
    pub report : Report
    pub sup : RoleStats

  unfoldable pub scaled : F → Option F → Option F
  scaled hint_scale none = none
  scaled hint_scale (some eta) = some (mul eta hint_scale)

  unfoldable pub resized : ℕ → TierConfig → TierConfig
  resized gib t = if t.name =? "ram" then record t { bytes_capacity = gib * 1024 ^ 3 } else t

  unfoldable pub config_of : ℕ → SimConfig
  unfolding resized
  config_of gib = record default_config { tiers = map (resized gib) default_config.tiers }

  -- The body of the inner loop; `none` stands for an exception.
  unfoldable pub line : ℕ → ℕ → List Turn → String → Option Line
  line k gib turns name = elim (run_policy (config_of gib) turns name) [
    | none ↦ none
    | some r ↦ elim r [
      | exception ↦ none
      | ok report ↦ elim (lookup "supervisor" report.per_role) [
        | none ↦ none
        | some sup ↦ some (record { k = k; gib = gib; report = report; sup = sup })
      ]
    ]
  ]

  -- The lines of a loop, and of the loops after it.
  unfoldable pub lines :
      (String → Option Line) → List String → Option (List Line) → Option (List Line)
  lines each [] rest = rest
  lines each (name ∷ more) rest = elim (each name) [
    | none ↦ none
    | some l ↦ elim (lines each more rest) [ none ↦ none | some ls ↦ some (l ∷ ls) ]
  ]

  -- `for k in (1, 3, 5)`, `for gib in (40, 100)`
  abbrev pub arms : List (ℕ × ℕ)
  arms = (1, 40) ∷ (1, 100) ∷ (3, 40) ∷ (3, 100) ∷ (5, 40) ∷ (5, 100) ∷ []

  module _ (str : ℕ → String) (real : List Turn) where
    unfoldable pub copy : F → ℕ → Turn → Turn
    unfolding scaled
    copy hint_scale i t = record t {
      session_id = t.session_id <> "-" <> str i;
      t = add (mul t.t (decimal 25 2)) (mul (of_ℕ i) (of_ℕ 240));
      tool_eta_s = scaled hint_scale t.tool_eta_s;
    }

    unfoldable pub team : ℕ → F → List Turn
    unfolding copy
    team k hint_scale = by_time (concat_map (λ i. map (copy hint_scale i) real) (range 0 k))

    unfoldable pub experiment : List (ℕ × ℕ) → Option (List Line)
    unfolding line lines team config_of
    experiment [] = some []
    experiment ((k, gib) ∷ rest) =
        let turns = team k (of_ℕ 1) in lines (line k gib turns) names (experiment rest)
