-- ===== src/Probes/Streams/Volume.antt =====
-- How many keys the mixed stream visits.
use adaptive_context_residen.Common.{
  ℕ, zero, suc, ◌+◌, ◌*◌, ◌≤◌, ◌≡◌, refl, String, ◌<>◌, List, [], ◌∷◌, ◌++◌, map, arith, length,
  length-append, length-take, take, sum_by, sum_by-append, Eq,
}
use adaptive_context_residen.Common.Sort.{sort, sum_by-sort}
use adaptive_context_residen.Floats.{FloatOps}
use adaptive_context_residen.Probes.Runner.{Manager}
use adaptive_context_residen.Probes.Runner.Counted.{drive-new_runner-IsCounted}
use adaptive_context_residen.Probes.Streams.{
  range, concat_map, Timed, Cohort, own_keys, timed_turn, timed_sessions, coding, patient,
  with_gaps, stream_mixed, run_arm, arm_of,
}

module _ {A : Type 0} (f : ℕ → A) where
  length-map-range : (i n : ℕ) → length (map f (range i n)) ≡ n
  length-map-range i zero = refl
  length-map-range i (suc n) = omega (arith, length-map-range (suc i) n)

module _ ⦃fl : FloatOps⦄ where
  open fl use {F, of_ℕ, lt}

  module _ {K : Type 0} (k : String → ℕ → K) (str : ℕ → String) where
    abbrev volume : List (Timed k) → ℕ
    volume = sum_by (λ x. length x.keys)

    length-timed_turn :
        (cohort : Cohort k str) (turns c t : ℕ)
        → t ≤ turns
        → length (timed_turn k str cohort turns c t).keys ≡ length cohort.shared + t
    unfolding timed_turn own_keys
    length-timed_turn cohort turns c t h =
        let own = own_keys k str (cohort.prefix <> str c) turns in
        omega (
          arith,
          length-append cohort.shared (take t own),
          length-take t own,
          length-map-range (k (cohort.prefix <> str c)) 0 turns,
        )

    volume-turns :
        (cohort : Cohort k str) (turns c i n : ℕ)
        → i + n ≤ turns + 1
        → 2 * volume (map (timed_turn k str cohort turns c) (range i n)) + n
          ≡ n * (2 * length cohort.shared + 2 * i + n)
    volume-turns cohort turns c i zero h = omega arith
    volume-turns cohort turns c i (suc n) h = omega (
      arith,
      length-timed_turn cohort turns c i (omega arith),
      volume-turns cohort turns c (suc i) n (omega arith),
    )

    volume-sessions :
        (cohort : Cohort k str) (turns i n : ℕ)
        → 2
            * volume (
                concat_map (λ c. map (timed_turn k str cohort turns c) (range 1 turns)) (range i n))
          ≡ n * (turns * (2 * length cohort.shared + turns + 1))
    volume-sessions cohort turns i zero = omega arith
    volume-sessions cohort turns i (suc n) = omega (
      arith,
      sum_by-append (λ x. length x.keys) (map (timed_turn k str cohort turns i) (range 1 turns))
          (concat_map (λ c. map (timed_turn k str cohort turns c) (range 1 turns))
            (range (suc i) n)),
      volume-turns cohort turns i 1 turns (omega arith),
      volume-sessions cohort turns (suc i) n,
    )

    volume-sized :
        (cohort : Cohort k str) (turns n s : ℕ)
        → length cohort.shared ≡ s
        → 2 * volume (timed_sessions k str cohort turns n) ≡ n * (turns * (2 * s + turns + 1))
    unfolding timed_sessions
    volume-sized cohort turns n s h = let v = volume-sessions cohort turns 0 n in rw h at v

    volume-with_gaps :
        (prev : F) (xs : List (Timed k))
        → sum_by (λ ev. length ev.keys) (with_gaps k str prev xs) ≡ volume xs
    unfolding with_gaps
    volume-with_gaps prev [] = refl
    volume-with_gaps prev (x ∷ xs) = omega (arith, volume-with_gaps x.ts xs)

    volume-stream_mixed :
        (coders patients shared_repo turns : ℕ) (coder_gap patient_gap : F)
        → 2
            * sum_by
                (λ ev. length ev.keys)
                (stream_mixed k str coders patients shared_repo turns coder_gap patient_gap)
          ≡ turns * (coders * (2 * shared_repo + turns + 1) + patients * (turns + 5))
    unfolding stream_mixed coding patient
    volume-stream_mixed coders patients shared_repo turns coder_gap patient_gap =
        let coding_turns = timed_sessions k str (coding k str shared_repo coder_gap) turns coders in
        let patient_turns = timed_sessions k str (patient k str patient_gap) turns patients in
        omega (
          arith,
          volume-with_gaps (of_ℕ 0) (sort (λ a b. lt a.ts b.ts) (coding_turns ++ patient_turns)),
          sum_by-sort (λ a b. lt a.ts b.ts) (λ x. length x.keys) (coding_turns ++ patient_turns),
          sum_by-append (λ x. length x.keys) coding_turns patient_turns,
          volume-sized (coding k str shared_repo coder_gap) turns coders shared_repo
              (length-map-range (k "repo") 0 shared_repo),
          volume-sized (patient k str patient_gap) turns patients 2
              (length-map-range (k "case") 0 2),
        )

  module _ {K : Type 0} ⦃e : Eq K⦄ (k : String → ℕ → K) (str : ℕ → String) (mgr : Manager K)
      (stamp : ℕ → String) (round_to : ℕ → F → F) where
    -- For any manager, the run of the mixed stream makes as many lookups as the closed form says:
    -- twice their number is the turns times the sum of coders * (2 * shared_repo + turns + 1) and
    -- patients * (turns + 5).
    pub run_arm-stream_mixed :
        (coders patients shared_repo turns : ℕ) (coder_gap patient_gap : F) (m : mgr.M)
        → 2
            * (run_arm mgr stamp round_to
                (stream_mixed k str coders patients shared_repo turns coder_gap patient_gap)
                m).stats.lookups
          ≡ turns * (coders * (2 * shared_repo + turns + 1) + patients * (turns + 5))
    unfolding run_arm arm_of
    run_arm-stream_mixed coders patients shared_repo turns coder_gap patient_gap m =
        let events = stream_mixed k str coders patients shared_repo turns coder_gap patient_gap in
        omega (
          arith,
          (drive-new_runner-IsCounted mgr stamp events m).1,
          volume-stream_mixed k str coders patients shared_repo turns coder_gap patient_gap,
        )
