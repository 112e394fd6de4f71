-- ===== src/Probes/Streams.antt =====
-- experiments/offload_replay_real.py: the streams of events, and the rows of `run`. The key of a
-- text f"{name}:{i}", `str` of a number, the clock's stamps and `round` are parameters.
pub mod Volume
use adaptive_context_residen.Common.{
  ℕ, zero, suc, ◌+◌, ◌-◌, ◌*◌, ◌/◌, ◌%◌, max, String, ◌<>◌, Bool, true, false, Option, none, some,
  is_some, List, [], ◌∷◌, ◌++◌, map, if◌then◌else◌, ◌==◌, length, take, sum_by, Eq,
}
use adaptive_context_residen.Common.Sort.{sort}
use adaptive_context_residen.Floats.{FloatOps, fmax}
use adaptive_context_residen.Probes.Runner.{
  block, Blob, Manager, Stats, Event, Runner, new_runner, drive,
}

-- `range(i, i + n)`
abbrev pub range : ℕ → ℕ → List ℕ
range i zero = []
range i (suc n) = i ∷ range (suc i) n

abbrev pub concat_map : {A B : Type 0} → (A → List B) → List A → List B
concat_map f [] = []
concat_map f (x ∷ xs) = f x ++ concat_map f xs

module _ ⦃fl : FloatOps⦄ where
  open fl use {F, of_ℕ, decimal, add, sub, mul, div, lt, eq}

  module _ {K : Type 0} (k : String → ℕ → K) where
    -- A line of the recorded session.
    pub record Recorded : Type 0 where
      pub session_id : String
      pub prompt_tokens : Option ℕ
      pub t : Option F
      pub role : Option String
      pub tool_eta_s : Option F
      pub aborted : Option Bool
      pub slo_class : Option String
      pub shared_prefix_tokens : Option ℕ

    abbrev pub or_else : {A : Type 0} → Option A → A → A
    or_else none d = d
    or_else (some a) d = a

    -- `r.get("tool_eta_s") or 5.0`
    unfoldable pub eta_of : Option F → F
    eta_of none = of_ℕ 5
    eta_of (some x) = if eq x (of_ℕ 0) then of_ℕ 5 else x

    -- `max(1, math.ceil(tokens / block))`, for numbers of tokens that a float holds exactly
    unfoldable pub blocks_of : ℕ → ℕ
    blocks_of tokens = max 1 ((tokens + 815) / block)

    unfoldable pub recorded_event : Recorded → ℕ → F → Event K
    unfolding eta_of blocks_of
    recorded_event r tokens gap = record {
      session = r.session_id;
      keys = map (k r.session_id) (range 0 (blocks_of tokens));
      params = some (record {
        role = some (or_else r.role "supervisor");
        session = r.session_id;
        tool_eta_s = eta_of r.tool_eta_s;
        leases = none;
        aborted = some (or_else r.aborted false);
        slo_class = some (or_else r.slo_class "interactive");
        shared_prefix_tokens = some (or_else r.shared_prefix_tokens 0);
      });
      gap = gap;
    }

    -- `float(r.get("t", prev_t))`: `none` stands for the `TypeError` of a first line without a time.
    unfoldable pub time_of : Option F → Option F → Option F
    time_of (some t) prev_t = some t
    time_of none prev_t = prev_t

    unfoldable pub gap_from : Option F → F → F
    gap_from none t = of_ℕ 0
    gap_from (some prev_t) t = fmax (of_ℕ 0) (sub t prev_t)

    abbrev pub cons_event : Event K → Option (List (Event K)) → Option (List (Event K))
    cons_event ev none = none
    cons_event ev (some events) = some (ev ∷ events)

    -- The loop of `stream_real` after the time `prev_t`.
    unfoldable pub stream_from : Option F → List Recorded → Option (List (Event K))
    unfolding recorded_event time_of gap_from
    stream_from prev_t [] = some []
    stream_from prev_t (r ∷ rs) =
        let skipped = stream_from prev_t rs in
        elim r.prompt_tokens [
          | none ↦ skipped
          | some tokens ↦ elim (time_of r.t prev_t) [
            | none ↦ none
            | some t ↦
                cons_event (recorded_event r tokens (gap_from prev_t t)) (stream_from (some t) rs)
          ]
        ]

    unfoldable pub stream_real : List Recorded → Option (List (Event K))
    unfolding stream_from
    stream_real = stream_from none

    -- An entry of `timed`.
    pub record Timed : Type 0 where
      pub ts : F
      pub session : String
      pub keys : List K
      pub params : Blob

    module _ (str : ℕ → String) where
      -- A kind of session: its name's prefix, its role, its number of starting times and the seconds
      -- between them, its gap, its announced ETA, and the keys that its sessions share.
      pub record Cohort : Type 0 where
        pub prefix : String
        pub role : String
        pub starts : ℕ
        pub start_gap : F
        pub gap : F
        pub eta : F
        pub shared : List K

      -- `k` of the session's own texts
      unfoldable pub own_keys : String → ℕ → List K
      own_keys session turns = map (k session) (range 0 turns)

      -- The body of the inner loops, at the turn `t`.
      unfoldable pub timed_turn : Cohort → ℕ → ℕ → ℕ → Timed
      unfolding own_keys
      timed_turn cohort turns c t =
          let session = cohort.prefix <> str c in
          record {
            ts =
                add (mul (of_ℕ (c % cohort.starts)) cohort.start_gap)
                  (mul (of_ℕ (t - 1)) cohort.gap);
            session = session;
            keys = cohort.shared ++ take t (own_keys session turns);
            params = record {
              role = some cohort.role;
              session = session;
              tool_eta_s = cohort.eta;
              leases = some 1;
              aborted = none;
              slo_class = none;
              shared_prefix_tokens = none;
            };
          }

      -- One of the two outer loops.
      unfoldable pub timed_sessions : Cohort → ℕ → ℕ → List Timed
      unfolding timed_turn
      timed_sessions cohort turns sessions =
          concat_map (λ c. map (timed_turn cohort turns c) (range 1 turns)) (range 0 sessions)

      unfoldable pub coding : ℕ → F → Cohort
      coding shared_repo coder_gap = record {
        prefix = "coder-";
        role = "coding";
        starts = 4;
        start_gap = of_ℕ 2;
        gap = coder_gap;
        eta = of_ℕ 90;
        shared = map (k "repo") (range 0 shared_repo);
      }

      unfoldable pub patient : F → Cohort
      patient patient_gap = record {
        prefix = "patient-";
        role = "patient";
        starts = 5;
        start_gap = of_ℕ 9;
        gap = patient_gap;
        eta = of_ℕ 3;
        shared = map (k "case") (range 0 2);
      }

      -- The last loop: the gap of an event to the one before.
      unfoldable pub with_gaps : F → List Timed → List (Event K)
      with_gaps prev [] = []
      with_gaps prev (x ∷ xs) =
          record { session = x.session; keys = x.keys; params = some x.params; gap = sub x.ts prev }
          ∷ with_gaps x.ts xs

      unfoldable pub stream_mixed : ℕ → ℕ → ℕ → ℕ → F → F → List (Event K)
      unfolding coding patient timed_sessions with_gaps
      stream_mixed coders patients shared_repo turns coder_gap patient_gap = with_gaps (of_ℕ 0) (
          sort (λ a b. lt a.ts b.ts)
            (timed_sessions (coding shared_repo coder_gap) turns coders
              ++ timed_sessions (patient patient_gap) turns patients))

  -- The numbers that `run` adds to a runner's statistics.
  pub record Arm : Type 0 where
    pub stats : Stats
    pub hit_ratio : F
    pub recompute_s : F
    pub restore_s : F

  module _ {K : Type 0} ⦃e : Eq K⦄ (mgr : Manager K) (stamp : ℕ → String)
      (round_to : ℕ → F → F) where
    unfoldable pub arm_of : Stats → Arm
    arm_of stats = record {
      stats = stats;
      hit_ratio = round_to 4 (div (of_ℕ stats.hits) (of_ℕ (max stats.lookups 1)));
      recompute_s = round_to 1 (div (of_ℕ stats.recomputed_tokens) (of_ℕ 11100));
      restore_s = round_to 1 (mul (of_ℕ stats.restored_tokens) (decimal 6 7));
    }

    -- The body of the loop of `run`, for a manager that starts in the state `m`.
    unfoldable pub run_arm : List (Event K) → mgr.M → Arm
    unfolding arm_of
    run_arm events m = arm_of (drive mgr stamp 0 events (new_runner mgr m)).stats

  -- The exit code of `main`: 1 if any call raised.
  unfoldable pub exit_code : List Arm → ℕ
  exit_code arms = if sum_by (λ a. a.stats.errors) arms == 0 then 0 else 1
