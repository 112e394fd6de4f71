-- ===== src/Tests/Probes.antt =====
-- The lookup probe and the stream replay at concrete inputs.
use adaptive_context_residen.Common.{
  ℕ, map, ◌+◌, ◌-◌, ◌*◌, ◌≤◌, ◌≡◌, refl, length, String, true, false, none, some, List, [], ◌∷◌,
  ◌++◌, arith, if◌then◌else◌, All, nat_eq,
}
use adaptive_context_residen.Common.Dict.{elem}
use adaptive_context_residen.Probes.Lookup.{
  GroupConfig, Scheduler, RequestState, Reason, settled, returned, predict, trailing_run, converge,
  pass, step, look_up, leading_hits,
}
use adaptive_context_residen.Probes.Lookup.Hits.{Run, trailing_run-Run}
use adaptive_context_residen.Probes.Lookup.Served.{CanServe, predict-Served}
use adaptive_context_residen.Probes.Lookup.Total.{predict_total}
use adaptive_context_residen.Probes.Ring.{RingGroup, GroupState, Store, offered}
use adaptive_context_residen.Probes.Ring.Offered.{offered_total}
use adaptive_context_residen.Probes.Runner.{hit, miss, Manager, Event, new_runner, drive}
use adaptive_context_residen.Probes.Runner.Counted.{IsCounted, drive-new_runner-IsCounted}
use adaptive_context_residen.Probes.Streams.{concat_map, stream_mixed, run_arm}
use adaptive_context_residen.Probes.Streams.Volume.{run_arm-stream_mixed}
use adaptive_context_residen.Tests.Numbers.{milli}
use adaptive_context_residen.Probes.Team.{
  Line, names, arms, config_of, resized as config_resized, experiment,
}
use adaptive_context_residen.Probes.Team.Complete.{IsUsable, IsReplay, place, experiment_total}
use mathlib.Core.Path.{subst}
use mathlib.Core.Option.{some-injective}
use adaptive_context_residen.Config.{
  effective_gbs, find_tier, default_config, default_cost, tier as config_tier,
}
use adaptive_context_residen.Replay.Run.{pool_raises}
use adaptive_context_residen.Replay.Turns.Total.{CanRun}
use adaptive_context_residen.Trace.{Turn}
use adaptive_context_residen.Tests.Replay.{turn_at}

abbrev hits : List ℕ
hits = 10 ∷ 11 ∷ 12 ∷ 14 ∷ []

abbrev chunks : List ℕ
chunks = 10 ∷ 11 ∷ 12 ∷ 13 ∷ 14 ∷ []

trailing_run-Run_example :
    (1 + 2 ≤ trailing_run hits chunks 2) × Run hits chunks (trailing_run hits chunks 2 - 2) 2
trailing_run-Run_example = trailing_run-Run hits 2 chunks 1 (omega arith) (refl, (refl, tt))

-- A wide group over the whole prefix, and a narrow one with a window.
abbrev groups : List GroupConfig
groups =
    record { tokens_per_chunk = 8; sliding_window_size_in_chunks = none; is_eagle_group = false }
    ∷ record { tokens_per_chunk = 2; sliding_window_size_in_chunks = some 1; is_eagle_group = true }
    ∷ []

abbrev sched : Scheduler
sched = record {
  kv_group_configs = groups;
  lookup_groups = 0 ∷ 1 ∷ [];
  sliding_window_groups = 1 ∷ [];
  mamba_align_size = some 2;
}

abbrev wide_keys : List ℕ
wide_keys = 100 ∷ 101 ∷ []

abbrev narrow_keys : List ℕ
narrow_keys = 1 ∷ 2 ∷ 3 ∷ 4 ∷ 5 ∷ 6 ∷ 7 ∷ 8 ∷ 9 ∷ []

abbrev request : RequestState ℕ
request = record {
  group_states = wide_keys ∷ narrow_keys ∷ [];
  num_tokens = 19;
  num_locally_computed_tokens = 0;
}

-- Everything is stored.
abbrev complete : List ℕ
complete = wide_keys ++ narrow_keys

predict-complete : predict complete sched request ≡ returned (some 16) settled
unfolding predict converge pass step look_up leading_hits trailing_run
predict-complete = refl

predict-Served_example : All (CanServe complete sched request (0 + 16)) (0 ∷ 1 ∷ []) × (0 + 16 ≤ 19)
predict-Served_example =
    predict-Served complete sched request 16 settled predict-complete (omega arith)

-- Only the first chunk of the wide group is stored: its bound does not reach the alignment.
predict_total_example :
    (h : ℕ) × (r : Reason) × (predict (100 ∷ narrow_keys) sched request ≡ returned (some h) r)
predict_total_example = predict_total (100 ∷ narrow_keys) sched request refl (
  record {
    gc = _;
    keys = wide_keys;
    is_config = refl;
    is_state = refl;
    wide = omega arith;
    enough = omega arith;
  },
  (
    record {
      gc = _;
      keys = narrow_keys;
      is_config = refl;
      is_state = refl;
      wide = omega arith;
      enough = omega arith;
    },
    tt,
  ),
)

-- A tier that keeps all blocks, evicts one in name, and fails to complete a load.
abbrev tier : Manager ℕ
tier = record {
  M = List ℕ;
  on_new_request = λ c m. (some tt, m);
  look_up = λ key c m. (some (if elem key m then hit else miss), m);
  prepare_load = λ ks c m. (some tt, m);
  complete_load = λ ks c m. (none, m);
  touch = λ ks c m. (some tt, m);
  prepare_store =
      λ ks c m. (some (some (record { keys_to_store = ks; evicted_keys = 7 ∷ [] })), ks ++ m);
  complete_store = λ ks c m. (some tt, m);
  on_request_finished = λ c m. (some tt, m);
  set_clock = λ seconds m. m;
}

abbrev event : String → List ℕ → Event ℕ
event session ks = record { session = session; keys = ks; params = none; gap = 2000 }

abbrev stream : List (Event ℕ)
stream = event "s" (7 ∷ 8 ∷ []) ∷ event "t" (7 ∷ 9 ∷ []) ∷ event "s" (7 ∷ 8 ∷ 10 ∷ []) ∷ []

drive-new_runner-IsCounted_example :
    IsCounted tier (drive tier (λ i. "") 0 stream (new_runner tier []))
    × ((drive tier (λ i. "") 0 stream (new_runner tier [])).stats.lookups ≡ 7)
drive-new_runner-IsCounted_example = drive-new_runner-IsCounted tier (λ i. "") stream []

-- Two coders and one patient, with four turns each.
run_arm-stream_mixed_example :
    2
      * (run_arm tier
          (λ i. "")
          (λ digits x. x)
          (stream_mixed (λ name i. i) (λ n. "1") 2 1 3 4 8000 45000)
          []).stats.lookups
    ≡ 4 * (2 * (2 * 3 + 4 + 1) + 1 * (4 + 5))
run_arm-stream_mixed_example =
    run_arm-stream_mixed (λ name i. i) (λ n. "1") tier (λ i. "") (λ digits x. x) 2 1 3 4 8000 45000
      []

-- The ring, with its one pinned block and a window of one chunk.
abbrev ring : RingGroup
ring = record {
  group_idx = 1;
  is_circular_buffer_group = true;
  alignment_chunk_count = none;
  sliding_window_size_in_chunks = some 1;
  is_eagle_group = false;
}

abbrev ring_state : GroupState ℕ
ring_state = record { offload_keys = 70 ∷ 71 ∷ 72 ∷ []; next_stored_chunk_idx = 0 }

abbrev ram : Store ℕ
ram = record { M = List ℕ; prepare_store = λ ks m. (some ks, m); complete_store = λ ks m. ks ++ m }

offered_total_example :
    (ks : List ℕ) × (offered ram (λ gc gs n. 3) (λ idx n gc. true) 1 ring ring_state (7 ∷ [])
      ≡ some ks)
    × (length ks ≤ 1)
offered_total_example =
    offered_total ram (λ gc gs n. 3) (λ idx n gc. true) ring ring_state (7 ∷ []) (omega arith)
      (omega arith)

abbrev real : List Turn
real = record (turn_at 1000 "s" 2500) { role = "supervisor" } ∷ turn_at 2000 "t" 1700 ∷ []

usable : (gib : ℕ) → IsUsable gib
unfolding config_of config_resized config_tier find_tier default_config default_cost effective_gbs
    pool_raises
usable gib = (
  λ tier found. subst (CanRun (config_of gib)) (some-injective _ _ found) (record {
    rates = record { prefill = refl; decode = refl; bytes = refl; bandwidth = refl };
    finite = λ n h. refl;
  }),
  refl,
)

experiment_total_example :
    (ls : List Line) × (experiment (λ n. "1") real arms ≡ some ls)
    × (map place ls ≡ concat_map (λ x. map (λ name. (x.0, (x.1, name))) names) arms)
    × All (IsReplay (λ n. "1") real) ls
experiment_total_example =
    experiment_total (λ n. "1") real arms
      (
        (omega arith, usable 40),
        (
          (omega arith, usable 100),
          (
            (omega arith, usable 40),
            (
              (omega arith, usable 100),
              ((omega arith, usable 40), ((omega arith, usable 100), tt)),
            ),
          ),
        ),
      )
      refl
