-- ===== src/Replay/Stats.antt =====
-- The statistics by role of `_finalize`, and `_pct`.
use adaptive_context_residen.Common.{
  ℕ, zero, suc, ◌+◌, ◌-◌, ◌/◌, ◌%◌, min, ◌≡◌, refl, String, Option, none, some, List, [], ◌∷◌, ◌++◌,
  map, arith, if◌then◌else◌, ◌==◌, ◌=?◌, filter, length, sum_by, Option-cases, inl, inr, string_eq,
  length-append, All, ◌<◌,
}
use adaptive_context_residen.Common.Dict.{
  Dict, lookup, insert, values, sum_by-insert_absent, sum_by-insert_change,
}
use adaptive_context_residen.Common.Sort.{sort, All-sort, length-sort}
use adaptive_context_residen.Floats.{FloatOps}
use adaptive_context_residen.Policies.Probe.{max_from}
use adaptive_context_residen.Replay.Turns.{TurnMetric}

module _ ⦃fl : FloatOps⦄ where
  open fl use {F, of_ℕ, decimal, add, mul, div, round, lt}

  -- `l[i]` of an index in range
  unfoldable pub item_at : ℕ → List F → F
  item_at i [] = of_ℕ 0
  item_at zero (x ∷ xs) = x
  item_at (suc i) (x ∷ xs) = item_at i xs

  -- Python never rounds a float that is not negative to a negative index.
  unfoldable pub pct : List F → F → F
  pct [] q = of_ℕ 0
  pct (x ∷ xs) q =
      let ordered = sort lt (x ∷ xs) in
      let last = length ordered - 1 in item_at (min last (round (mul q (of_ℕ last)))) ordered

  -- `statistics.median` of a list that is not empty
  unfoldable pub median : List F → F
  median xs =
      let ordered = sort lt xs in
      let half = length ordered / 2 in
      if length ordered % 2 == 1
      then item_at half ordered
      else div (add (item_at (half - 1) ordered) (item_at half ordered)) (of_ℕ 2)

  -- `max(l)` of a list that is not empty
  unfoldable pub max_of : List F → F
  max_of [] = of_ℕ 0
  max_of (x ∷ xs) = max_from x xs

  pub record RoleStats : Type 0 where
    pub n : ℕ
    pub ttft_p50 : F
    pub ttft_p95 : F
    pub ttft_max : F
    pub recompute_ktok : F
    pub slo_viol : Option ℕ

  -- `by_role.setdefault(m.role, []).append(m)`
  unfoldable pub add_metric :
      TurnMetric → Dict String (List TurnMetric) → Dict String (List TurnMetric)
  add_metric m by_role = elim (lookup m.role by_role) [
    | none ↦ insert m.role (m ∷ []) by_role
    | some items ↦ insert m.role (items ++ m ∷ []) by_role
  ]

  unfoldable pub add_metrics :
      List TurnMetric → Dict String (List TurnMetric) → Dict String (List TurnMetric)
  add_metrics [] by_role = by_role
  add_metrics (m ∷ metrics) by_role = add_metrics metrics (add_metric m by_role)

  unfoldable pub stats_of : F → String → List TurnMetric → RoleStats
  stats_of slo role items =
      let ttfts = map (λ m. m.ttft_s) items in
      record {
        n = length items;
        ttft_p50 = median ttfts;
        ttft_p95 = pct ttfts (decimal 95 2);
        ttft_max = max_of ttfts;
        recompute_ktok = div (of_ℕ (sum_by (λ m. m.recompute_tokens) items)) (of_ℕ 1000);
        slo_viol = if role =? "patient" then some (length (filter (λ t. lt slo t) ttfts)) else none;
      }

  unfoldable pub stats_by_role : F → List TurnMetric → Dict String RoleStats
  stats_by_role slo metrics = map (λ x. (x.0, stats_of slo x.0 x.1)) (add_metrics metrics [])

  turns-add_metric :
      (m : TurnMetric) (by_role : Dict String (List TurnMetric))
      → sum_by length (values (add_metric m by_role)) ≡ 1 + sum_by length (values by_role)
  unfolding add_metric
  turns-add_metric m by_role = elim (Option-cases (lookup m.role by_role)) [
    | inl new ↦
        rw (new, add_metric)
          (omega (arith, sum_by-insert_absent length m.role (m ∷ []) by_role new))
    | inr (items, old) ↦
        rw (old, add_metric)
          (omega (
            arith,
            sum_by-insert_change length m.role (items ++ m ∷ []) by_role old,
            length-append items (m ∷ []),
          ))
  ]

  turns-add_metrics :
      (metrics : List TurnMetric) (by_role : Dict String (List TurnMetric))
      → sum_by length (values (add_metrics metrics by_role))
        ≡ length metrics + sum_by length (values by_role)
  unfolding add_metrics
  turns-add_metrics [] by_role = omega arith
  turns-add_metrics (m ∷ metrics) by_role =
      omega (arith, turns-add_metrics metrics (add_metric m by_role), turns-add_metric m by_role)

  turns-stats :
      (slo : F) (by_role : Dict String (List TurnMetric))
      → sum_by (λ s. s.n) (values (map (λ x. (x.0, stats_of slo x.0 x.1)) by_role))
        ≡ sum_by length (values by_role)
  unfolding stats_of
  turns-stats slo [] = refl
  turns-stats slo (x ∷ by_role) = omega (arith, turns-stats slo by_role)

  -- The numbers of turns under the roles add up to the number of measured turns.
  pub turns-stats_by_role :
      (slo : F) (metrics : List TurnMetric)
      → sum_by (λ s. s.n) (values (stats_by_role slo metrics)) ≡ length metrics
  unfolding stats_by_role
  turns-stats_by_role slo metrics =
      omega (arith, turns-stats slo (add_metrics metrics []), turns-add_metrics metrics [])

  item_at-All : (P : F → Type 0) (i : ℕ) (xs : List F) → All P xs → i < length xs → P (item_at i xs)
  unfolding item_at
  item_at-All P i [] h inside = absurd (omega arith)
  item_at-All P zero (x ∷ xs) h inside = h.0
  item_at-All P (suc i) (x ∷ xs) h inside = item_at-All P i xs h.1 (omega arith)

  -- Whatever holds of all the values of a list that is not empty holds of its percentile, for any
  -- fraction.
  pub pct-All : (P : F → Type 0) (x : F) (xs : List F) (q : F) → All P (x ∷ xs) → P (pct (x ∷ xs) q)
  unfolding pct
  pct-All P x xs q h =
      item_at-All P _ (sort lt (x ∷ xs)) (All-sort lt P (x ∷ xs) h)
        (omega (arith, length-sort lt (x ∷ xs)))
