-- ===== src/Probes/Lookup.antt =====
-- experiments/connector_lookup_veto_probe.py: the arithmetic mirror `predict` of the connector's
-- lookup. Keys are opaque; the lines of the trace that it prints are left out.
pub mod Hits
pub mod Chunks
pub mod Served
pub mod Total
use adaptive_context_residen.Common.{
  ℕ, zero, suc, ◌+◌, ◌-◌, ◌*◌, ◌/◌, min, Bool, true, false, not, ◌&&◌, Option, none, some, is_some,
  List, [], ◌∷◌, if◌then◌else◌, ltb, ◌==◌, length, take, drop, Eq, ◌=?◌, nat_eq,
}
use adaptive_context_residen.Common.Dict.{elem, add}

abbrev pub get_elem? : {A : Type 0} → List A → ℕ → Option A
get_elem? [] i = none
get_elem? (x ∷ xs) zero = some x
get_elem? (x ∷ xs) (suc i) = get_elem? xs i

-- The chunk geometry of a group.
pub record GroupConfig : Type 0 where
  pub tokens_per_chunk : ℕ
  pub sliding_window_size_in_chunks : Option ℕ
  pub is_eagle_group : Bool

-- What `predict` reads of the scheduler.
pub record Scheduler : Type 0 where
  pub kv_group_configs : List GroupConfig
  pub lookup_groups : List ℕ
  pub sliding_window_groups : List ℕ
  pub mamba_align_size : Option ℕ

-- Of a request: `offload_keys` of each group, and its counts of tokens.
pub record RequestState (K : Type 0) : Type 0 where
  pub group_states : List (List K)
  pub num_tokens : ℕ
  pub num_locally_computed_tokens : ℕ

-- The halt reasons. A cap stands for the text that shows it.
pub data Reason : Type 0 where
  loop_guard : Reason
  narrow : (gidx cap : ℕ) → Reason
  zero_hit : (gidx : ℕ) → Reason
  short_hit : (gidx : ℕ) → Reason
  settled : Reason

-- What `predict` ends in: a failed assertion or another exception, or what it returns.
pub data Outcome : Type 0 where
  raised : Outcome
  returned : Option ℕ → Reason → Outcome

-- The variables of the loop. `looked_up_sw` is never read.
pub record Progress : Type 0 where
  pub max_hit : ℕ
  pub eagle_verified : List ℕ
  pub num_hit_tokens : ℕ

pub data Step : Type 0 where
  halted : Outcome → Step
  next : Progress → Step

unfoldable pub cdiv : ℕ → ℕ → ℕ
cdiv a b = (a + (b - 1)) / b

unfoldable pub round_down : ℕ → ℕ → ℕ
round_down a b = a / b * b

-- The scan of `trailing_run` from the end of a list: its run so far, or the index it returned, both
-- counted from the front of the list.
pub data Scan : Type 0 where
  running : ℕ → Scan
  found : ℕ → Scan

-- `gc.is_eagle_group and gidx not in eagle_verified`
unfoldable pub is_eagle_unver : ℕ → GroupConfig → Progress → Bool
is_eagle_unver gidx gc st = gc.is_eagle_group && not (elem gidx st.eagle_verified)

-- `keys[start:nchunks]`
unfoldable pub sliced_of : {K : Type 0} → Bool → GroupConfig → ℕ → ℕ → List K → List K
unfolding cdiv
sliced_of unver gc computed max_hit keys =
    let tpc = gc.tokens_per_chunk in
    let qmax =
      if unver && is_some gc.sliding_window_size_in_chunks
      then min (max_hit + tpc) (length keys * tpc)
      else max_hit in
    drop (computed / tpc) (take (min (cdiv qmax tpc) (length keys)) keys)

-- From `max_hit = min(max_hit, tpc * (start + nhit))` on.
unfoldable pub settle : ℕ → GroupConfig → ℕ → Bool → ℕ → ℕ → Progress → Step
settle gidx gc computed unver max_hit nhit st =
    let tpc = gc.tokens_per_chunk in
    let counted = if unver then nhit - 1 else nhit in
    let verified = if unver then add gidx st.eagle_verified else st.eagle_verified in
    let max_hit' = min max_hit (tpc * (computed / tpc + counted)) in
    let new = max_hit' - computed in
    if ltb new tpc
    then halted (returned (some 0) (short_hit gidx))
    else next (record {
      max_hit = max_hit';
      eagle_verified = if ltb new st.num_hit_tokens && not gc.is_eagle_group then [] else verified;
      num_hit_tokens = new;
    })

-- The first `max_hit`; `none` stands for the `ZeroDivisionError` of `round_down`.
unfoldable pub first_max_hit : (sliding : List ℕ) (mamba_align_size : Option ℕ) → ℕ → Option ℕ
unfolding round_down
first_max_hit [] align n = some n
first_max_hit (_ ∷ _) none n = some (n - 1)
first_max_hit (_ ∷ _) (some align) n = if align == 0 then none else some (round_down (n - 1) align)

module _ {K : Type 0} ⦃e : Eq K⦄ (stored : List K) where
  unfoldable pub leading_hits : List K → ℕ
  leading_hits [] = 0
  leading_hits (k ∷ ks) = let rest = leading_hits ks in if elem k stored then suc rest else 0

  -- One round on the key at index 0, after those behind it.
  unfoldable pub scan_key : ℕ → K → Scan → Scan
  scan_key window k (found end) = found (suc end)
  scan_key window k (running run) =
      let run' : ℕ = (if elem k stored then suc run else 0) in
      if run' == window then found window else running run'

  unfoldable pub scan : ℕ → List K → Scan
  unfolding scan_key
  scan window [] = running 0
  scan window (k ∷ ks) = scan_key window k (scan window ks)

  unfoldable pub trailing_run : List K → ℕ → ℕ
  unfolding scan
  trailing_run keys window = elim (scan window keys) [ running run ↦ run | found end ↦ end ]

  -- `nhit` of the chunks that are looked up.
  unfoldable pub hits_of : Bool → GroupConfig → List K → ℕ
  hits_of unver gc sliced = elim gc.sliding_window_size_in_chunks [
    | none ↦ leading_hits sliced
    | some window ↦ trailing_run sliced (window + (if unver then 1 else 0))
  ]

  -- The body of the loop over the groups, for a group and its keys. Where Python's difference is
  -- negative, the one on ℕ is 0, and both are below the chunk.
  unfoldable pub look_up : ℕ → GroupConfig → List K → ℕ → ℕ → Progress → Step
  unfolding hits_of sliced_of settle is_eagle_unver
  look_up gidx gc keys num_tokens computed st =
      let tpc = gc.tokens_per_chunk in
      let unver = is_eagle_unver gidx gc st in
      let max_hit = min st.max_hit (length keys * tpc) in
      let nhit = hits_of unver gc (sliced_of unver gc computed max_hit keys) in
      if tpc == 0
      then halted raised
      else if ltb (length keys) (num_tokens / tpc)
      then halted raised
      else if ltb (max_hit - computed) tpc
      then halted (returned (some 0) (narrow gidx (tpc * length keys)))
      else if nhit == 0
      then halted (returned (some 0) (zero_hit gidx))
      else settle gidx gc computed unver max_hit nhit st

  module _ (sched : Scheduler) (state : RequestState K) where
    unfoldable pub step : ℕ → Progress → Step
    step gidx st = elim (get_elem? sched.kv_group_configs gidx) [
      | none ↦ halted raised
      | some gc ↦ elim (get_elem? state.group_states gidx) [
        | none ↦ halted raised
        | some keys ↦ look_up gidx gc keys state.num_tokens state.num_locally_computed_tokens st
      ]
    ]

    -- `for gidx in giter`
    unfoldable pub pass : List ℕ → Progress → Step
    pass [] st = next st
    pass (gidx ∷ gs) st = elim (step gidx st) [ halted o ↦ halted o | next st' ↦ pass gs st' ]

    -- `while groups`, with the passes that the guard allows. The body leaves `groups` empty, and
    -- `defer` is never set.
    unfoldable pub converge : ℕ → List ℕ → Progress → Outcome
    converge n [] st = returned (some st.num_hit_tokens) settled
    converge zero (gidx ∷ gs) st = returned none loop_guard
    converge (suc n) (gidx ∷ gs) st = elim (pass (gidx ∷ gs) st) [
      | halted o ↦ o
      | next st' ↦ converge n [] st'
    ]

    unfoldable pub predict : Outcome
    unfolding first_max_hit
    predict =
        elim (first_max_hit sched.sliding_window_groups sched.mamba_align_size state.num_tokens) [
          | none ↦ raised
          | some max_hit ↦
              converge 20 sched.lookup_groups
                (record { max_hit = max_hit; eagle_verified = []; num_hit_tokens = 0 })
        ]
