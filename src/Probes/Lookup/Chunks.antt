-- ===== src/Probes/Lookup/Chunks.antt =====
-- The boundaries that a group can serve, and what a round of `predict` finds for its group.
use native.Mathlib.Nat.{lt_of_mul-lt-mul_left, mul-le-mul_left, div-add-mod, div-lt_iff_lt-mul}
use adaptive_context_residen.Common.{
  ℕ, ◌+◌, ◌-◌, ◌*◌, ◌/◌, ◌≤◌, ◌<◌, min, ◌≡◌, refl, Bool, true, Option, none, some, List, [], ◌∷◌,
  arith, if◌then◌else◌, length, Eq, Option-cases, ◌⊎◌, inl, inr,
}
use adaptive_context_residen.Probes.Lookup.{
  GroupConfig, Outcome, returned, Progress, Step, halted, next, cdiv, round_down, leading_hits,
  hits_of, sliced_of, is_eagle_unver, settle, look_up, first_max_hit,
}
use adaptive_context_residen.Probes.Lookup.Hits.{
  resident, resident_of_leading_hits, resident-drop, resident-take, Run, resident_of_Run,
  Run-of_resident,
}

settle_next :
    (gidx : ℕ) (gc : GroupConfig) (computed : ℕ) (unver : Bool) (max_hit nhit : ℕ)
    (st st' : Progress)
    → settle gidx gc computed unver max_hit nhit st ≡ next st'
    → (st'.max_hit ≤ max_hit)
      × (st'.max_hit ≤ gc.tokens_per_chunk * (computed / gc.tokens_per_chunk + nhit))
      × (st'.num_hit_tokens ≡ st'.max_hit - computed)
      × (gc.tokens_per_chunk ≤ st'.num_hit_tokens)
unfolding settle
settle_next gidx gc computed unver max_hit nhit st st' h =
    let counted : ℕ = (if unver then nhit - 1 else nhit) in
    let fewer : counted ≤ nhit = ground arith in
    let more : gc.tokens_per_chunk * (computed / gc.tokens_per_chunk + counted)
        ≤ gc.tokens_per_chunk * (computed / gc.tokens_per_chunk + nhit) =
      mul-le-mul_left gc.tokens_per_chunk (omega arith) in
    ground arith

-- A chunk is below `cdiv a t` if it begins before `a`.
cdiv_above : (a t i : ℕ) → 0 < t → i < cdiv a t → i * t < a
unfolding cdiv
cdiv_above a t i pos h =
    let e : (i + 1) * t ≡ i * t + t = omega arith in
    ground (arith, (div-lt_iff_lt-mul {k = t} {x = a + (t - 1)} {y = i + 1} pos).1)

cdiv_below : (a t i : ℕ) → 0 < t → i * t < a → i < cdiv a t
unfolding cdiv
cdiv_below a t i pos h =
    let e : (i + 1) * t ≡ i * t + t = omega arith in
    ground (arith, (div-lt_iff_lt-mul {k = t} {x = a + (t - 1)} {y = i + 1} pos).0)

-- The tokens of an outcome.
abbrev pub hit_of : Outcome → ℕ
hit_of (returned (some h) r) = h
hit_of _ = 0

pub Step-cases : (s : Step) → ((o : Outcome) × (s ≡ halted o)) ⊎ ((st : Progress) × (s ≡ next st))
Step-cases (halted o) = inl (o, refl)
Step-cases (next st) = inr (st, refl)

pub first_max_hit-le :
    (sliding : List ℕ) (align : Option ℕ) (n m : ℕ) → first_max_hit sliding align n ≡ some m → m ≤ n
unfolding first_max_hit round_down
first_max_hit-le [] align n m h = ground arith
first_max_hit-le (g ∷ gs) none n m h = ground arith
first_max_hit-le (g ∷ gs) (some align) n m h = ground (arith, div-add-mod (n - 1) align)

module _ {K : Type 0} ⦃e : Eq K⦄ (stored : List K) where
  -- Of a group without a sliding window.
  abbrev pub IfWhole : Option ℕ → Type 0 → Type 0
  IfWhole none P = P
  IfWhole (some window) P = Unit

  -- A boundary of tokens that a group can serve: it is within the group's keys, and if the group
  -- attends to the whole prefix, all chunks from the computed tokens up to the boundary are resident.
  abbrev pub Serves : GroupConfig → List K → ℕ → ℕ → Type 0
  Serves gc keys computed boundary =
      (boundary ≤ length keys * gc.tokens_per_chunk)
      × IfWhole gc.sliding_window_size_in_chunks (
          Run stored keys (computed / gc.tokens_per_chunk)
            (cdiv boundary gc.tokens_per_chunk - computed / gc.tokens_per_chunk))

  resident_sliced :
      (unver : Bool) (gc : GroupConfig) (computed max_hit : ℕ) (keys : List K) (i : ℕ)
      → i < leading_hits stored (sliced_of unver gc computed max_hit keys)
      → resident stored keys (computed / gc.tokens_per_chunk + i) ≡ true
  unfolding sliced_of
  resident_sliced unver gc computed max_hit keys i h =
      let found : resident stored (sliced_of unver gc computed max_hit keys) i ≡ true =
        resident_of_leading_hits stored _ i h in
      resident-take stored _ keys _
        (rw (resident-drop stored (computed / gc.tokens_per_chunk) _ i) at found)

  IfWhole_map : (window : Option ℕ) {P Q : Type 0} → (P → Q) → IfWhole window P → IfWhole window Q
  IfWhole_map none f p = f p
  IfWhole_map (some window) f p = tt

  Run-mono :
      (keys : List K) (start t a b : ℕ)
      → 0 < t
      → a ≤ b
      → Run stored keys start (cdiv b t - start)
      → Run stored keys start (cdiv a t - start)
  Run-mono keys start t a b pos h run = Run-of_resident stored keys start _ (λ m p q.
      let begins : m * t < a = cdiv_above a t m pos (omega arith) in
      let below : m < cdiv b t = cdiv_below b t m pos (omega arith) in
      resident_of_Run stored keys start _ m run p (omega arith))

  pub Serves-mono :
      (gc : GroupConfig) (keys : List K) (computed a b : ℕ)
      → 0 < gc.tokens_per_chunk
      → a ≤ b
      → Serves gc keys computed b
      → Serves gc keys computed a
  Serves-mono gc keys computed a b pos h (fits, run) = (
    omega arith,
    IfWhole_map gc.sliding_window_size_in_chunks
        (Run-mono keys (computed / gc.tokens_per_chunk) gc.tokens_per_chunk a b pos h) run,
  )

  -- The chunks that a whole-prefix group was found to hold.
  Run-of_hits :
      (unver : Bool) (gc : GroupConfig) (computed max_hit boundary : ℕ) (keys : List K)
      → 0 < gc.tokens_per_chunk
      → boundary
        ≤ gc.tokens_per_chunk
          * (computed / gc.tokens_per_chunk
              + leading_hits stored (sliced_of unver gc computed max_hit keys))
      → Run stored keys
          (computed / gc.tokens_per_chunk)
          (cdiv boundary gc.tokens_per_chunk - computed / gc.tokens_per_chunk)
  Run-of_hits unver gc computed max_hit boundary keys pos h =
      let t = gc.tokens_per_chunk in
      let start = computed / t in
      let hits = leading_hits stored (sliced_of unver gc computed max_hit keys) in
      Run-of_resident stored keys start _ (λ m p q.
        let begins : m * t < boundary = cdiv_above boundary t m pos (omega arith) in
        let inside : m < start + hits = lt_of_mul-lt-mul_left t (omega arith) in
        let e : start + (m - start) ≡ m = omega arith in
        rw (← e) (resident_sliced unver gc computed max_hit keys (m - start) (omega arith)))

  IfWhole_of_hits :
      (unver : Bool) (gc : GroupConfig) (computed max_hit boundary : ℕ) (keys : List K)
      → 0 < gc.tokens_per_chunk
      → boundary
        ≤ gc.tokens_per_chunk
          * (computed / gc.tokens_per_chunk
              + hits_of stored unver gc (sliced_of unver gc computed max_hit keys))
      → IfWhole gc.sliding_window_size_in_chunks (
          Run stored keys
            (computed / gc.tokens_per_chunk)
            (cdiv boundary gc.tokens_per_chunk - computed / gc.tokens_per_chunk))
  unfolding hits_of
  IfWhole_of_hits unver gc computed max_hit boundary keys pos h =
      elim (Option-cases gc.sliding_window_size_in_chunks) [
        | inl whole ↦
            rw whole
              (Run-of_hits unver gc computed max_hit boundary keys pos (rw (whole, hits_of) at h))
        | inr (window, sliding) ↦ rw sliding tt
      ]

  pub look_up_next :
      (gidx : ℕ) (gc : GroupConfig) (keys : List K) (num_tokens computed : ℕ) (st st' : Progress)
      → look_up stored gidx gc keys num_tokens computed st ≡ next st'
      → (0 < gc.tokens_per_chunk)
        × Serves gc keys computed st'.max_hit
        × (st'.max_hit ≤ st.max_hit)
        × (st'.num_hit_tokens ≡ st'.max_hit - computed)
  unfolding look_up
  look_up_next gidx gc keys num_tokens computed st st' h =
      let unver = is_eagle_unver gidx gc st in
      let max_hit = min st.max_hit (length keys * gc.tokens_per_chunk) in
      let nhit = hits_of stored unver gc (sliced_of unver gc computed max_hit keys) in
      let (moved, pos) : (settle gidx gc computed unver max_hit nhit st ≡ next st')
          × (0 < gc.tokens_per_chunk) =
        ground arith in
      let (lower, within, hit, long) =
        settle_next gidx gc computed unver max_hit nhit st st' moved in
      (
        pos,
        (omega arith, IfWhole_of_hits unver gc computed max_hit st'.max_hit keys pos within),
        omega arith,
        hit,
      )

  pub look_up_halted :
      (gidx : ℕ) (gc : GroupConfig) (keys : List K) (num_tokens computed : ℕ) (st : Progress)
      (o : Outcome)
      → look_up stored gidx gc keys num_tokens computed st ≡ halted o
      → hit_of o ≡ 0
  unfolding look_up settle
  look_up_halted gidx gc keys num_tokens computed st o h = ground arith
