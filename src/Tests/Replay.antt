-- ===== src/Tests/Replay.antt =====
-- The replay at concrete inputs.
use adaptive_context_residen.Common.{
  ℕ, ◌≤◌, max, ◌≡◌, refl, map, ◌*◌, ◌^◌, String, true, false, not, none, some, is_some, List, [],
  ◌∷◌, ◌++◌, arith, length, filter, =?_iff, string_eq, All,
}
use adaptive_context_residen.Common.Dict.{keys, lookup, insert, elem, Distinct}
use adaptive_context_residen.Common.Result.{ok}
use adaptive_context_residen.Config.{
  TierConfig, effective_gbs, default_config, default_cost, tier as config_tier,
}
use adaptive_context_residen.Index.Defs.{
  Key, key_eq, key_beq, private, PrefixIndex, new_index, observe_use, smooth,
}
use adaptive_context_residen.Index.Touch.{
  touch_path, path_parts, path_of, touch_parts, drop_refs, drop_ref, grown, leased, block_bytes,
}
use adaptive_context_residen.Index.Chain.{chain}
use adaptive_context_residen.Index.Touch.Invariant.{touch_path-IsLeased}
use adaptive_context_residen.Policies.Raises.Never.{IsSound}
use adaptive_context_residen.Index.Touch.Known.{touched-known}
use adaptive_context_residen.Trace.{Turn, group_by_session}
use adaptive_context_residen.Trace.Sessions.{IsGroup, group_by_session-turns}
use adaptive_context_residen.Trace.Transcript.{
  Line, malformed, rec, load_cc_transcript, IsCall, load_cc_transcript-IsCall,
}
use adaptive_context_residen.Policies.Probe.{Probe}
use adaptive_context_residen.Policies.Tier.{recency, TierPolicy, occupancy, policies}
use adaptive_context_residen.Policies.Evict.Freed.{nbytes_at}
use adaptive_context_residen.Policies.Evict.Laws.{unexpired}
use adaptive_context_residen.Replay.Hbm.{HbmTier, fill, victims_of, store}
use adaptive_context_residen.Replay.Hbm.Invariant.{IsValid}
use adaptive_context_residen.Replay.Hbm.Store.{Dropped, store-Dropped, keys-fill}
use adaptive_context_residen.Replay.Host.{Host, store_batch_to_host}
use adaptive_context_residen.Replay.Host.Ready.{IsReady}
use adaptive_context_residen.Replay.Host.Store.{size_at}
use adaptive_context_residen.Replay.Host.Batch.{
  Batch, store_batch_to_host-Stored, occupancy-store_batch_to_host,
}
use adaptive_context_residen.Replay.Turns.{Simulator, new_simulator, serviceable, one}
use adaptive_context_residen.Replay.Turns.Prefixes.{Longest, serviceable-Longest}
use adaptive_context_residen.Replay.Turns.Total.{
  CanRun, Turned, new_simulator-IsConsistent, one-Turned,
}
use adaptive_context_residen.Replay.Run.{Report, run_policy, pool_raises}
use adaptive_context_residen.Replay.Run.Total.{run_policy_total}
use adaptive_context_residen.Tests.Numbers.{milli, milli-IsOrdered}
use adaptive_context_residen.Tests.Index.{two_turns, two_turns-IsLeased}
use adaptive_context_residen.Tests.Policies.{probe}

abbrev pub turn_at : ℕ → String → ℕ → Turn
turn_at t session_id prompt_tokens = record {
  t = t;
  session_id = session_id;
  role = "coder";
  prompt_tokens = prompt_tokens;
  completion_tokens = 120;
  shared_prefix_tokens = 816;
  tool_eta_s = some 9000;
  aborted = false;
  slo_class = "interactive";
}

abbrev pub turns : List Turn
turns = turn_at 3000 "s" 4000 ∷ turn_at 1000 "s" 2500 ∷ turn_at 2000 "t" 1700 ∷ []

group_by_session-turns_example :
    Distinct (map (λ s. s.session_id) (group_by_session turns))
    × ((sid : String)
        → elem sid (map (λ s. s.session_id) (group_by_session turns))
          ≡ elem sid (map (λ t. t.session_id) turns))
    × All (IsGroup turns) (group_by_session turns)
group_by_session-turns_example = group_by_session-turns turns milli-IsOrdered

-- The tier "ram" of the default configuration.
abbrev pub default_ram : TierConfig
default_ram = record {
  name = "ram";
  bytes_capacity = 160 * 1024 ^ 3;
  bandwidth_gbs = 96000;
  enabled = true;
  efficiency = 550;
}

pub default-CanRun : CanRun default_config default_ram
unfolding default_config default_cost effective_gbs
default-CanRun = record {
  rates = record { prefill = refl; decode = refl; bytes = refl; bandwidth = refl };
  finite = λ n h. refl;
}

run_policy_total_example :
    (report : Report) × (run_policy default_config turns "adaptive_value" ≡ some (ok report))
    × (report.turns ≡ length turns)
    × (report.policy ≡ "adaptive_value")
unfolding config_tier default_config policies lookup pool_raises
run_policy_total_example =
    run_policy_total default_config default_ram turns "adaptive_value" refl default-CanRun refl refl

abbrev empty_tier : TierPolicy
empty_tier = record { kind = recency; capacity = 500000; entries = [] }

abbrev start : Simulator
start = new_simulator default_config empty_tier default_ram

one-Turned_example :
    (sim' : Simulator) × (one [] (turn_at 1000 "s" 2500) start ≡ ok sim') × Turned start sim'
one-Turned_example =
    one-Turned [] (turn_at 1000 "s" 2500) start
      (new_simulator-IsConsistent default_config empty_tier default_ram default-CanRun refl)

abbrev pool : HbmTier
pool = record {
  capacity_bytes = 10;
  blocks = (private "s" 0, 4) ∷ (private "t" 0, 5) ∷ [];
  used = 9;
}

pool-IsValid : IsValid pool
unfolding key_beq
pool-IsValid = record { distinct = (refl, (refl, tt)); counted = refl }

abbrev filled : List (Key × ℕ)
filled = (private "s" 0, 4) ∷ (private "s" 1, 3) ∷ []

store-Dropped_example :
    Dropped
      (victims_of (keys filled) (fill pool filled))
      (fill pool filled)
      (store pool filled (keys filled)).0
      (store pool filled (keys filled)).1
store-Dropped_example = store-Dropped pool filled (keys filled) pool-IsValid

keys-fill_example :
    keys (fill pool filled).blocks
    ≡ filter (λ k. not (elem k (keys filled))) (keys pool.blocks) ++ keys filled
unfolding key_beq
keys-fill_example = keys-fill pool filled (refl, (refl, tt))

serviceable-Longest_example :
    Longest pool empty_tier
      (private "s" 0 ∷ private "s" 1 ∷ [])
      (serviceable pool empty_tier 60000 5000 [] (private "s" 0 ∷ private "s" 1 ∷ []))
serviceable-Longest_example =
    serviceable-Longest pool empty_tier 60000 5000 [] (private "s" 0 ∷ private "s" 1 ∷ [])

-- A tier with room for two blocks that holds one of the session "s", when "t" goes on.
abbrev block : Key
block = private "s" 2

abbrev held : Host
held = record {
  policy = record {
    kind = recency;
    capacity = 500000;
    entries =
        (
          block,
          record {
            key = block;
            nbytes = 230364;
            inserted_at = 5000;
            last_touch = 5000;
            uses = 1;
            expires_at = milli.infinity;
            next_use = milli.infinity;
          },
        )
        ∷ [];
  };
  left_host_at = [];
  reacquires = 0;
}

abbrev going_on : PrefixIndex × List Key
going_on = touch_path two_turns "t" "coder" 14 6 7000 false

abbrev going_probe : Probe
going_probe = record probe { index = going_on.0 }

-- The index knows the block, at the size that the tier has.
block-size : size_at going_on.0.blocks block ≡ 230364
unfolding size_at touch_path path_parts chain path_of new_index key_beq touch_parts drop_refs lookup
    insert grown leased block_bytes default_cost observe_use drop_ref smooth
block-size = refl

block-known : is_some (lookup block going_on.0.blocks) ≡ true
unfolding touch_path path_parts chain path_of new_index key_beq touch_parts drop_refs lookup insert
    grown leased block_bytes default_cost observe_use drop_ref smooth
block-known = refl

held-IsReady : IsReady going_on.0.blocks held.policy
unfolding lookup
held-IsReady = record {
  keyed = record { distinct = (refl, tt); own = (refl, tt) };
  known = λ k h. ground (arith, h, block-known, =?_iff block k);
}

going-known : (k : Key) → elem k going_on.1 ≡ true → is_some (lookup k going_on.0.blocks) ≡ true
going-known k m = touched-known two_turns "t" "coder" 14 6 7000 false k two_turns-IsLeased m

going-IsSound : IsSound going_probe
unfolding default_cost effective_gbs
going-IsSound = record {
  leased = touch_path-IsLeased two_turns "t" "coder" 14 6 7000 false two_turns-IsLeased;
  rates = record { prefill = refl; decode = refl; bytes = refl; bandwidth = refl };
}

store_batch_to_host-Stored_example :
    (h' : Host) × (store_batch_to_host 500000 [] 7000 going_probe going_on.1 held ≡ ok h')
    × Batch 500000 going_probe.now 7000 going_on.0.blocks held h'
store_batch_to_host-Stored_example =
    store_batch_to_host-Stored 500000 [] 7000 going_probe held going-IsSound held-IsReady going_on.1
      going-known

occupancy-store_batch_to_host_example :
    (h' : Host) × (store_batch_to_host 500000 [] 7000 going_probe going_on.1 held ≡ ok h')
    × (occupancy h'.policy ≤ max 500000 (occupancy held.policy))
unfolding lookup unexpired nbytes_at
occupancy-store_batch_to_host_example =
    occupancy-store_batch_to_host 500000 [] 7000 going_probe held going-IsSound held-IsReady
      going_on.1 going-known (λ k h. ground (arith, h, block-size, =?_iff block k))

abbrev lines : List Line
lines =
    malformed
    ∷ rec false none (some 1000)
    ∷ rec true (some (0, 5)) (some 2000)
    ∷ rec true (some (900, 50)) (some 3000)
    ∷ rec true (some (900, 50)) (some 3500)
    ∷ rec true (some (1200, 80)) (some 9000)
    ∷ []

load_cc_transcript-IsCall_example :
    All (IsCall "s" "supervisor" 1000) (load_cc_transcript "s" "supervisor" 1000 lines)
load_cc_transcript-IsCall_example = load_cc_transcript-IsCall "s" "supervisor" 1000 lines
