-- ===== src/Probes/Runner/Counted.antt =====
-- The counters of `Runner`: how they agree with each other and with the stream.
use adaptive_context_residen.Common.{
  ℕ, ◌+◌, ◌*◌, ◌≡◌, refl, String, ◌<>◌, Option, none, some, List, [], ◌∷◌, arith, length,
  length-append, Eq, string_eq, sum_by, Bool-cases, Option-cases, inl, inr,
}
use adaptive_context_residen.Common.Dict.{
  Dict, lookup, insert, values, sum_by-insert_absent, sum_by-insert_change,
}
use adaptive_context_residen.Floats.{FloatOps}
use adaptive_context_residen.Probes.Runner.{
  block, Blob, ReqContext, StoreOutput, Manager, Stats, RoleCounts, safe, is_hit, role_of, Event,
  Runner, new_runner, Visit, serve_hit, count_miss, visit_key, visit_keys, finish_store, store_cold,
  setdefault, no_counts, touch_stream, advance, drive,
}

module _ ⦃fl : FloatOps⦄ where
  open fl use {F}

  -- The counters agree, but for the recomputation of some blocks that is not yet counted.
  abbrev pub Agrees : Stats → ℕ → Type 0
  Agrees s pending =
      (s.lookups ≡ s.hits + s.misses)
      × (s.restored_tokens ≡ s.hits * block)
      × (s.recomputed_tokens + pending * block ≡ s.misses * block)

  -- An error changes no other counter.
  safe_same :
      {A : Type 0} (o : Option A) (s : Stats)
      → ((safe o s).lookups ≡ s.lookups)
        × ((safe o s).hits ≡ s.hits)
        × ((safe o s).misses ≡ s.misses)
        × ((safe o s).restored_tokens ≡ s.restored_tokens)
        × ((safe o s).recomputed_tokens ≡ s.recomputed_tokens)
  unfolding safe
  safe_same none s = (refl, refl, refl, refl, refl)
  safe_same (some a) s = (refl, refl, refl, refl, refl)

  module _ {K : Type 0} ⦃e : Eq K⦄ (mgr : Manager K) where
    -- What a step of a visit keeps: the differences between the counters of all roles and those of
    -- this role.
    abbrev Kept : Visit mgr → Visit mgr → ℕ → Type 0
    Kept v v' n =
        (v'.stats.lookups ≡ v.stats.lookups + n)
        × (v'.br.lookups ≡ v.br.lookups + n)
        × (v'.stats.hits + v.br.hits ≡ v.stats.hits + v'.br.hits)
        × (v'.stats.recomputed_tokens + v.br.recomputed
            ≡ v.stats.recomputed_tokens + v'.br.recomputed)

    count_miss-Agrees :
        (key : K) (v : Visit mgr)
        → let v' = count_miss mgr key v in
          (v'.stats.hits ≡ v.stats.hits)
          × (v'.stats.misses ≡ v.stats.misses + 1)
          × (v'.stats.lookups ≡ v.stats.lookups)
          × (v'.stats.restored_tokens ≡ v.stats.restored_tokens)
          × (v'.stats.recomputed_tokens ≡ v.stats.recomputed_tokens)
          × (length v'.cold ≡ length v.cold + 1)
          × (v'.br.lookups ≡ v.br.lookups)
          × (v'.br.hits ≡ v.br.hits)
          × (v'.br.recomputed ≡ v.br.recomputed)
    unfolding count_miss
    count_miss-Agrees key v = ground (arith, length-append v.cold (key ∷ []))

    serve_hit-Agrees :
        (c : ReqContext) (key : K) (v : Visit mgr)
        → let v' = serve_hit mgr c key v in
          (v'.stats.hits ≡ v.stats.hits + 1)
          × (v'.stats.misses ≡ v.stats.misses)
          × (v'.stats.lookups ≡ v.stats.lookups)
          × (v'.stats.restored_tokens ≡ v.stats.restored_tokens + block)
          × (v'.stats.recomputed_tokens ≡ v.stats.recomputed_tokens)
          × (v'.cold ≡ v.cold)
          × (v'.br.lookups ≡ v.br.lookups)
          × (v'.br.hits ≡ v.br.hits + 1)
          × (v'.br.recomputed ≡ v.br.recomputed)
    unfolding serve_hit
    serve_hit-Agrees c key v =
        let prepared = mgr.prepare_load (key ∷ []) c v.m in
        let completed = mgr.complete_load (key ∷ []) c prepared.1 in
        let stats : Stats = record v.stats {
          hits = v.stats.hits + 1;
          restored_tokens = v.stats.restored_tokens + block;
        } in
        ground (arith, safe_same prepared.0 stats, safe_same completed.0 (safe prepared.0 stats))

    visit_key-Agrees :
        (c : ReqContext) (key : K) (v : Visit mgr)
        → Agrees v.stats (length v.cold)
        → Agrees (visit_key mgr c key v).stats (length (visit_key mgr c key v).cold)
          × Kept v (visit_key mgr c key v) 1
    unfolding visit_key
    visit_key-Agrees c key v a =
        let found = mgr.look_up key c v.m in
        let looked : Stats = record v.stats { lookups = v.stats.lookups + 1 } in
        let v' : Visit mgr = record {
          m = found.1;
          stats = safe found.0 looked;
          br = record v.br { lookups = v.br.lookups + 1 };
          cold = v.cold;
        } in
        elim (Bool-cases (is_hit found.0)) [
          | inl served ↦
              rw (served, visit_key)
                (ground (arith, safe_same found.0 looked, serve_hit-Agrees c key v', a))
          | inr missed ↦
              rw (missed, visit_key)
                (ground (arith, safe_same found.0 looked, count_miss-Agrees key v', a))
        ]

    visit_keys-Agrees :
        (c : ReqContext) (ks : List K) (v : Visit mgr)
        → Agrees v.stats (length v.cold)
        → Agrees (visit_keys mgr c ks v).stats (length (visit_keys mgr c ks v).cold)
          × Kept v (visit_keys mgr c ks v) (length ks)
    unfolding visit_keys
    visit_keys-Agrees c [] v a = (a, omega arith)
    visit_keys-Agrees c (key ∷ ks) v a =
        let (b, kept) = visit_key-Agrees c key v a in
        let (b', kept') = visit_keys-Agrees c ks (visit_key mgr c key v) b in
        (b', omega (arith, kept, kept'))

    finish_store_same :
        (c : ReqContext) (served : Dict String (List K)) (out : Option (Option (StoreOutput K)))
        (v : Visit mgr)
        → let v' = finish_store mgr c served out v in
          (v'.stats.lookups ≡ v.stats.lookups)
          × (v'.stats.hits ≡ v.stats.hits)
          × (v'.stats.misses ≡ v.stats.misses)
          × (v'.stats.restored_tokens ≡ v.stats.restored_tokens)
          × (v'.stats.recomputed_tokens ≡ v.stats.recomputed_tokens)
          × (v'.br ≡ v.br)
    unfolding finish_store
    finish_store_same c served none v = (refl, refl, refl, refl, refl, refl)
    finish_store_same c served (some none) v = (refl, refl, refl, refl, refl, refl)
    finish_store_same c served (some (some out)) v = ground (
      arith,
      safe_same (mgr.complete_store out.keys_to_store c v.m).0
          (record v.stats { stored = v.stats.stored + length out.keys_to_store }),
    )

    store_cold-Agrees :
        (c : ReqContext) (served : Dict String (List K)) (cold : List K) (v : Visit mgr)
        → Agrees v.stats (length cold)
        → Agrees (store_cold mgr c served cold v).stats 0
          × Kept v (store_cold mgr c served cold v) 0
    unfolding store_cold
    store_cold-Agrees c served [] v a = ground arith
    store_cold-Agrees c served (k ∷ ks) v a =
        let tokens = length (k ∷ ks) * block in
        let stats : Stats = record v.stats {
          recomputed_tokens = v.stats.recomputed_tokens + tokens;
        } in
        let prepared = mgr.prepare_store (k ∷ ks) c v.m in
        let v' : Visit mgr = record v {
          m = prepared.1;
          stats = safe prepared.0 stats;
          br = record v.br { recomputed = v.br.recomputed + tokens };
        } in
        ground (arith, safe_same prepared.0 stats, finish_store_same c served prepared.0 v')

    -- The counters of a runner agree, and those by role add up to them.
    pub record IsCounted (r : Runner mgr) : Type 0 where
      pub agrees : Agrees r.stats 0
      pub lookups_by_role : sum_by (λ d. d.lookups) (values r.by_role) ≡ r.stats.lookups
      pub hits_by_role : sum_by (λ d. d.hits) (values r.by_role) ≡ r.stats.hits
      pub recomputed_by_role :
          sum_by (λ d. d.recomputed) (values r.by_role) ≡ r.stats.recomputed_tokens

    sum_by-setdefault :
        (f : RoleCounts → ℕ) (role : String) (d : Dict String RoleCounts) (br : RoleCounts)
        → f no_counts ≡ 0
        → sum_by f (values (insert role br d)) + f (setdefault role no_counts d)
          ≡ sum_by f (values d) + f br
    sum_by-setdefault f role d br z = elim (Option-cases (lookup role d)) [
      | inl new ↦ rw (new, setdefault) (omega (arith, sum_by-insert_absent f role br d new, z))
      | inr (old, known) ↦ rw (known, setdefault) (sum_by-insert_change f role br d known)
    ]

    touch_stream-IsCounted :
        (stamp session : String) (keys : List K) (params : Option Blob) (r : Runner mgr)
        → IsCounted r
        → IsCounted (touch_stream mgr stamp session keys params r)
          × ((touch_stream mgr stamp session keys params r).stats.lookups
              ≡ r.stats.lookups + length keys)
    unfolding touch_stream
    touch_stream-IsCounted stamp session keys params r counted =
        let c : ReqContext = record {
          req_id = session <> "-" <> stamp;
          kv_transfer_params = params;
        } in
        let started = mgr.on_new_request c r.m in
        let served = insert session (setdefault session [] r.served) r.served in
        let br = setdefault (role_of params) no_counts r.by_role in
        let first : Visit mgr = record {
          m = started.1;
          stats = safe started.0 r.stats;
          br = br;
          cold = [];
        } in
        let seen = visit_keys mgr c keys first in
        let touched = mgr.touch keys c seen.m in
        let touched_visit : Visit mgr = record seen {
          m = touched.1;
          stats = safe touched.0 seen.stats;
        } in
        let stored = store_cold mgr c served seen.cold touched_visit in
        let finished = mgr.on_request_finished c stored.m in
        let (a, kept) =
          visit_keys-Agrees c keys first
            (ground (arith, safe_same started.0 r.stats, counted.agrees)) in
        let (a', kept') =
          store_cold-Agrees c served seen.cold touched_visit
            (ground (arith, safe_same touched.0 seen.stats, a)) in
        let opened = safe_same started.0 r.stats in
        let passed = safe_same touched.0 seen.stats in
        let closed = safe_same finished.0 stored.stats in
        (
          record {
            agrees = omega (arith, opened, passed, closed, kept, kept', a');
            lookups_by_role = omega (
              arith,
              opened,
              passed,
              closed,
              kept,
              kept',
              a',
              counted.lookups_by_role,
              sum_by-setdefault (λ d. d.lookups) (role_of params) r.by_role stored.br refl,
            );
            hits_by_role = omega (
              arith,
              opened,
              passed,
              closed,
              kept,
              kept',
              a',
              counted.hits_by_role,
              sum_by-setdefault (λ d. d.hits) (role_of params) r.by_role stored.br refl,
            );
            recomputed_by_role = omega (
              arith,
              opened,
              passed,
              closed,
              kept,
              kept',
              a',
              counted.recomputed_by_role,
              sum_by-setdefault (λ d. d.recomputed) (role_of params) r.by_role stored.br refl,
            );
          },
          omega (arith, opened, passed, closed, kept, kept', a'),
        )

    drive-IsCounted :
        (stamp : ℕ → String) (i : ℕ) (events : List (Event K)) (r : Runner mgr)
        → IsCounted r
        → IsCounted (drive mgr stamp i events r)
          × ((drive mgr stamp i events r).stats.lookups
              ≡ r.stats.lookups + sum_by (λ ev. length ev.keys) events)
    unfolding drive advance
    drive-IsCounted stamp i [] r counted = (counted, omega arith)
    drive-IsCounted stamp i (ev ∷ events) r counted =
        let r' = advance mgr ev.gap r in
        let counted' : IsCounted r' = record {
          agrees = counted.agrees;
          lookups_by_role = counted.lookups_by_role;
          hits_by_role = counted.hits_by_role;
          recomputed_by_role = counted.recomputed_by_role;
        } in
        let (touched, more) =
          touch_stream-IsCounted (stamp i) ev.session ev.keys ev.params r' counted' in
        let (end, all) = drive-IsCounted stamp (i + 1) events _ touched in
        (end, omega (arith, more, all))

    -- For any manager, also one that raises, after any stream of events a runner's lookups are its
    -- hits and misses, its restored and recomputed tokens are 816 for each hit and miss, the
    -- lookups, hits and recomputed tokens by role add up to these, and the lookups are the keys of
    -- the stream.
    pub drive-new_runner-IsCounted :
        (stamp : ℕ → String) (events : List (Event K)) (m : mgr.M)
        → IsCounted (drive mgr stamp 0 events (new_runner mgr m))
          × ((drive mgr stamp 0 events (new_runner mgr m)).stats.lookups
              ≡ sum_by (λ ev. length ev.keys) events)
    unfolding new_runner
    drive-new_runner-IsCounted stamp events m =
        let start : IsCounted (new_runner mgr m) = record {
          agrees = omega arith;
          lookups_by_role = refl;
          hits_by_role = refl;
          recomputed_by_role = refl;
        } in
        let (counted, all) = drive-IsCounted stamp 0 events (new_runner mgr m) start in
        (counted, omega (arith, all))
