-- ===== src/Lib.antt =====
-- adaptive-context-residency keeps the KV blocks of agent sessions in memory tiers. This library
-- models its decision logic and its simulator, file by file:
--
-- src/acr/config.py   Config, Config/Load: TierConfig, CostModel, SimConfig, default_config, and
--                     load_config on the dictionary that PyYAML reads.
-- src/acr/index.py    Index: Defs has the state of PrefixIndex, Chain its method chain, Touch
--                     touch_path and release_session, Leases live_leases and live_reuse_prob.
-- src/acr/policies.py Policies: Probe, Tier (Entry, TierPolicy and its bookkeeping), Take (_expire
--                     and _take), Adaptive (the values and chains of AdaptiveValuePolicy), Evict
--                     (evict and admit_chain of every policy), Raises (where they raise).
-- src/acr/replay.py   Replay: Hbm (HBMTier), Host (_store_batch_to_host and the oracle), Turns
--                     (Simulator and _one), Run (future_accesses, run, _finalize, run_policy),
--                     Stats (the statistics by role), Table (as_row and markdown_table).
-- src/acr/trace.py    Trace (Turn, Session, group_by_session), Trace/Transcript
--                     (load_cc_transcript on parsed lines), Trace/Files (to_jsonl, from_jsonl,
--                     load_harness_csv), Trace/Synthetic (synthetic_mix).
-- src/acr/__main__.py Cli: the commands replay, synth and trace-cc, and main.
-- src/acr/vllm        Vllm: Hints (the request's parameters), Value (AcrValuePolicy of policy.py),
--                     Ttl (SessionTtlPolicy of ttl.py), Launch (plan of launch.py).
-- experiments         Probes: Lookup (predict of connector_lookup_veto_probe.py), Groups (the cache
--                     groups of that script and of connector_ring_classify_probe.py), Ring
--                     (simulate_store of the latter), Runner and Streams (offload_replay_real.py),
--                     Team (team_real_trace.py).
--
-- How the parts interact: a turn of the replay touches its path in the index, looks for the prefix
-- that the pool and the tier can serve, fills the pool, and stores the rest into the tier, whose
-- policy asks the index about leases and reuse through the probe. In the program the simulator and
-- the probe share one index; here the simulator's state holds it inside the probe. The vLLM policies
-- stand on their own behind the engine's callbacks. The command line reads a trace from its lines,
-- overrides the configuration, runs one replay for each policy and puts the reports into a table. Of
-- the experiments, predict mirrors the connector's lookup over the cache groups of a request, and
-- Runner drives the engine's manager over a stream of events.
--
-- State is passed on: a method is a function from the old state to the new one. A dictionary is a
-- list of pairs in insertion order (Common/Dict), a set a list without repetitions. `d[k]` on a
-- missing key is the result exception (Common/Result), and the program's None is the option none.
-- Sizes and counts are natural numbers; Python's integers do not overflow. Loops are structural
-- recursion; only predict has fuel, the 20 passes of its own guard. Sorting is a stable insertion
-- sort (Common/Sort).
--
-- Parameters: the floats (Floats), with their order laws as a hypothesis where one is needed
-- (Floats/Order: a total order, as floats other than NaN have); the engine's block keys and statuses
-- and its test ref_cnt == 0; the engine's manager, its classification of a group, and its tests of
-- which chunks are stored; the order in which Python iterates over a set; the clock; json, argparse,
-- round to digits and the generator of random numbers. A text file is the list of its lines.
--
-- A division by zero, int(x) of an infinite number and a missing key raise. A function of floats gives
-- the value of a call that returns; a test whose name ends in _raises tells when a call on the way
-- raises (Config, Policies/Probe, Policies/Tier, Policies/Raises, Replay, Cli, Vllm/Value/Evict), and
-- the step that makes the call is then an exception. Integers are taken to be in the range of a float
-- where one is converted.
--
-- A block key is a name with a position, as the program's text f"{name}:b{i}" is. Names of sessions
-- are taken not to look like the labels of chains ("?" and "shared:..."), nor like block keys.
--
-- Not modelled: the text of tables and warnings, the JSON reports, and the parts of the scripts under
-- experiments and bench that build a live engine's objects, call it, or print measurements.
pub mod Common
pub mod Floats
pub mod Config
pub mod Index
pub mod Trace
pub mod Vllm
pub mod Policies
pub mod Replay
pub mod Cli
pub mod Probes
mod Tests
