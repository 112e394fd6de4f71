-- ===== src/Probes/Runner.antt =====
-- experiments/offload_replay_real.py: `Runner`, which drives the engine's manager over a stream of
-- events and counts what the tier did. The manager is a parameter.
pub mod Counted
use adaptive_context_residen.Common.{
  ℕ, ◌+◌, ◌*◌, String, ◌<>◌, Bool, true, false, ◌||◌, Option, none, some, List, [], ◌∷◌, ◌++◌, map,
  if◌then◌else◌, length, filter, Eq, string_eq,
}
use adaptive_context_residen.Common.Dict.{Dict, lookup, insert, values, elem, add}
use adaptive_context_residen.Floats.{FloatOps}

-- The result of a call that is made for its effect.
abbrev pub Done : Type 0
Done = Unit

abbrev pub block : ℕ
block = 816

module _ ⦃fl : FloatOps⦄ where
  open fl use {F}

  -- The dictionary under "acr" that a stream sends.
  pub record Blob : Type 0 where
    pub role : Option String
    pub session : String
    pub tool_eta_s : F
    pub leases : Option ℕ
    pub aborted : Option Bool
    pub slo_class : Option String
    pub shared_prefix_tokens : Option ℕ

  pub record ReqContext : Type 0 where
    pub req_id : String
    pub kv_transfer_params : Option Blob

  -- The name of a lookup's result.
  pub data Status : Type 0 where
    hit : Status
    hit_pending : Status
    miss : Status

  pub record StoreOutput (K : Type 0) : Type 0 where
    pub keys_to_store : List K
    pub evicted_keys : List K

  -- The engine's manager with the process's clock, which its policy reads. A call that raises
  -- returns `none`.
  pub record Manager (K : Type 0) : Type 1 where
    pub M : Type 0
    pub on_new_request : ReqContext → M → Option Done × M
    pub look_up : K → ReqContext → M → Option Status × M
    pub prepare_load : List K → ReqContext → M → Option Done × M
    pub complete_load : List K → ReqContext → M → Option Done × M
    pub touch : List K → ReqContext → M → Option Done × M
    pub prepare_store : List K → ReqContext → M → Option (Option (StoreOutput K)) × M
    pub complete_store : List K → ReqContext → M → Option Done × M
    pub on_request_finished : ReqContext → M → Option Done × M
    -- `time.monotonic` is replaced by a counter in steps of the given seconds.
    pub set_clock : F → M → M

  pub record Stats : Type 0 where
    pub lookups : ℕ
    pub hits : ℕ
    pub misses : ℕ
    pub stored : ℕ
    pub restored_tokens : ℕ
    pub recomputed_tokens : ℕ
    pub wasted_stores : ℕ
    pub errors : ℕ

  pub record RoleCounts : Type 0 where
    pub lookups : ℕ
    pub hits : ℕ
    pub recomputed : ℕ

  -- `_safe`: the result of a call, and an error counted if it raised.
  unfoldable pub safe : {A : Type 0} → Option A → Stats → Stats
  safe none stats = record stats { errors = stats.errors + 1 }
  safe (some a) stats = stats

  unfoldable pub is_hit : Option Status → Bool
  is_hit (some hit) = true
  is_hit (some hit_pending) = true
  is_hit _ = false

  -- `(params.get("acr") or {}).get("role", "?")`
  unfoldable pub role_of : Option Blob → String
  role_of none = "?"
  role_of (some blob) = elim blob.role [ none ↦ "?" | some role ↦ role ]

  -- An event of a stream: its session, keys and parameters, and the seconds since the last one.
  pub record Event (K : Type 0) : Type 0 where
    pub session : String
    pub keys : List K
    pub params : Option Blob
    pub gap : F

  -- `d.setdefault(k, default)`
  abbrev pub setdefault : {V : Type 0} → String → V → Dict String V → V
  setdefault k default d = elim (lookup k d) [ none ↦ default | some v ↦ v ]

  unfoldable pub no_counts : RoleCounts
  no_counts = record { lookups = 0; hits = 0; recomputed = 0 }

  module _ {K : Type 0} ⦃e : Eq K⦄ where
    -- `any(key in s for s in self.served.values())`
    unfoldable pub is_served : List (List K) → K → Bool
    is_served [] key = false
    is_served (s ∷ sets) key = elem key s || is_served sets key

    -- `s.update(ks)`
    unfoldable pub update : List K → List K → List K
    update s [] = s
    update s (k ∷ ks) = update (add k s) ks

  module _ {K : Type 0} ⦃e : Eq K⦄ (mgr : Manager K) where
    pub record Runner : Type 0 where
      pub m : mgr.M
      pub served : Dict String (List K)
      pub stats : Stats
      pub by_role : Dict String RoleCounts

    unfoldable pub new_runner : mgr.M → Runner
    new_runner m = record {
      m = m;
      served = [];
      stats = record {
        lookups = 0;
        hits = 0;
        misses = 0;
        stored = 0;
        restored_tokens = 0;
        recomputed_tokens = 0;
        wasted_stores = 0;
        errors = 0;
      };
      by_role = [];
    }

    -- The variables of the loop over the keys; `br` is the entry of `by_role`.
    pub record Visit : Type 0 where
      pub m : mgr.M
      pub stats : Stats
      pub br : RoleCounts
      pub cold : List K

    -- A hit is loaded back.
    unfoldable pub serve_hit : ReqContext → K → Visit → Visit
    unfolding safe
    serve_hit c key v =
        let stats = record v.stats {
          hits = v.stats.hits + 1;
          restored_tokens = v.stats.restored_tokens + block;
        } in
        let prepared = mgr.prepare_load (key ∷ []) c v.m in
        let completed = mgr.complete_load (key ∷ []) c prepared.1 in
        record v {
          m = completed.1;
          stats = safe completed.0 (safe prepared.0 stats);
          br = record v.br { hits = v.br.hits + 1 };
        }

    unfoldable pub count_miss : K → Visit → Visit
    count_miss key v = record v {
      stats = record v.stats { misses = v.stats.misses + 1 };
      cold = v.cold ++ key ∷ [];
    }

    -- The body of the loop over the keys.
    unfoldable pub visit_key : ReqContext → K → Visit → Visit
    unfolding safe is_hit serve_hit count_miss
    visit_key c key v =
        let found = mgr.look_up key c v.m in
        let v' : Visit = record {
          m = found.1;
          stats = safe found.0 (record v.stats { lookups = v.stats.lookups + 1 });
          br = record v.br { lookups = v.br.lookups + 1 };
          cold = v.cold;
        } in
        if is_hit found.0 then serve_hit c key v' else count_miss key v'

    unfoldable pub visit_keys : ReqContext → List K → Visit → Visit
    unfolding visit_key
    visit_keys c [] v = v
    visit_keys c (key ∷ ks) v = visit_keys c ks (visit_key c key v)

    -- What a store that the manager answered adds.
    unfoldable pub finish_store :
        ReqContext → Dict String (List K) → Option (Option (StoreOutput K)) → Visit → Visit
    unfolding safe is_served
    finish_store c served none v = v
    finish_store c served (some none) v = v
    finish_store c served (some (some out)) v =
        let completed = mgr.complete_store out.keys_to_store c v.m in
        let stats =
          safe completed.0
            (record v.stats { stored = v.stats.stored + length out.keys_to_store }) in
        record v {
          m = completed.1;
          stats = record stats {
            wasted_stores =
                stats.wasted_stores + length (filter (is_served (values served)) out.evicted_keys);
          };
        }

    -- `if cold:`
    unfoldable pub store_cold : ReqContext → Dict String (List K) → List K → Visit → Visit
    unfolding safe finish_store
    store_cold c served [] v = v
    store_cold c served (k ∷ ks) v =
        let tokens = length (k ∷ ks) * block in
        let stats = record v.stats { recomputed_tokens = v.stats.recomputed_tokens + tokens } in
        let prepared = mgr.prepare_store (k ∷ ks) c v.m in
        finish_store c served prepared.0 (record v {
          m = prepared.1;
          stats = safe prepared.0 stats;
          br = record v.br { recomputed = v.br.recomputed + tokens };
        })

    -- `stamp` is the time in the request's name.
    unfoldable pub touch_stream : String → String → List K → Option Blob → Runner → Runner
    unfolding safe role_of visit_keys store_cold update no_counts
    touch_stream stamp session keys params r =
        let c : ReqContext = record {
          req_id = session <> "-" <> stamp;
          kv_transfer_params = params;
        } in
        let started = mgr.on_new_request c r.m in
        let present = setdefault session [] r.served in
        let served = insert session present r.served in
        let role = role_of params in
        let seen = visit_keys c keys (record {
          m = started.1;
          stats = safe started.0 r.stats;
          br = setdefault role no_counts r.by_role;
          cold = [];
        }) in
        let touched = mgr.touch keys c seen.m in
        let stored =
          store_cold c served seen.cold
            (record seen { m = touched.1; stats = safe touched.0 seen.stats }) in
        let finished = mgr.on_request_finished c stored.m in
        record {
          m = finished.1;
          served = insert session (update present seen.cold) served;
          stats = safe finished.0 stored.stats;
          by_role = insert role stored.br r.by_role;
        }

    unfoldable pub advance : F → Runner → Runner
    advance seconds r = record r { m = mgr.set_clock seconds r.m }

    -- The loop of `run` over the events, with the stamps of their requests.
    unfoldable pub drive : (ℕ → String) → ℕ → List (Event K) → Runner → Runner
    unfolding advance touch_stream
    drive stamp i [] r = r
    drive stamp i (ev ∷ events) r =
        drive stamp (i + 1) events
          (touch_stream (stamp i) ev.session ev.keys ev.params (advance ev.gap r))
