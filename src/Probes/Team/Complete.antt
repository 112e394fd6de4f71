-- ===== src/Probes/Team/Complete.antt =====
-- experiments/team_real_trace.py: every line of the experiment is printed.
use adaptive_context_residen.Common.{
  ℕ, zero, suc, ◌*◌, ◌≤◌, ◌≡◌, refl, sym, ap, ◌∙◌, String, Bool, true, false, ◌||◌, Option, some,
  is_some, List, [], ◌∷◌, ◌++◌, map, if◌then◌else◌, ◌=?◌, string_eq, arith, length, length-map, All,
  Option-cases, inl, inr, length-append,
}
use adaptive_context_residen.Common.Dict.{Dict, keys, lookup, elem, elem-keys, elem-add}
use adaptive_context_residen.Common.Result.{ok}
use adaptive_context_residen.Common.Sort.{length-sort, elem-map-sort}
use adaptive_context_residen.Floats.{FloatOps}
use adaptive_context_residen.Config.{
  TierConfig, SimConfig, default_config, find_tier, tier as config_tier,
}
use adaptive_context_residen.Trace.{Turn, by_time}
use adaptive_context_residen.Policies.Tier.{policies}
use adaptive_context_residen.Replay.Stats.{RoleStats}
use adaptive_context_residen.Replay.Run.{Report, run_policy, pool_raises}
use adaptive_context_residen.Replay.Run.Total.{run_policy_total}
use adaptive_context_residen.Replay.Turns.Total.{CanRun}
use adaptive_context_residen.Replay.Table.Columns.{signature}
use adaptive_context_residen.Replay.Table.Roles.{add_roles, signature-run_policy}
use adaptive_context_residen.Probes.Streams.{range, concat_map}
use adaptive_context_residen.Probes.Team.{
  names, Line, resized, config_of, line, lines, copy, team, experiment,
}

map-first :
    {B : Type 0} (f : String → B) (rs : List String)
    → map (λ (x : String × B). x.0) (map (λ r. (r, f r)) rs) ≡ rs
map-first f [] = refl
map-first f (r ∷ rs) = ap (◌∷◌ r) (map-first f rs)

module _ ⦃fl : FloatOps⦄ where
  open fl use {F, of_ℕ}

  elem-add_roles :
      (r : String) (xs rs : List String) → elem r (add_roles xs rs) ≡ (elem r xs || elem r rs)
  elem-add_roles r [] rs = refl
  elem-add_roles r (x ∷ xs) rs =
      ground (arith, elem-add_roles r xs (if elem x rs then rs else rs ++ x ∷ []), elem-add r x rs)

  keys-signature :
      (d : Dict String RoleStats) → keys d ≡ map (λ (x : String × Bool). x.0) (signature d)
  keys-signature [] = refl
  keys-signature ((r, s) ∷ d) = ap (◌∷◌ r) (keys-signature d)

  -- A role of the trace has statistics.
  has_role :
      (cfg : SimConfig) (turns : List Turn) (name : String) (report : Report) (r : String)
      → run_policy cfg turns name ≡ some (ok report)
      → elem r (map (λ t. t.role) (by_time turns)) ≡ true
      → is_some (lookup r report.per_role) ≡ true
  has_role cfg turns name report r h occurs =
      let roles = map (λ t. t.role) (by_time turns) in
      sym (elem-keys r report.per_role)
      ∙ ap (elem r) (keys-signature report.per_role)
      ∙ ap (λ s. elem r (map (λ (x : String × Bool). x.0) s))
          (signature-run_policy cfg turns name report h)
      ∙ ap (elem r) (map-first (λ x. x =? "patient") (add_roles roles []))
      ∙ ground (arith, elem-add_roles r roles [])

  has_ram : (gib : ℕ) → (ram : TierConfig) × (config_tier (config_of gib) "ram" ≡ some ram)
  unfolding config_of resized config_tier default_config find_tier
  has_ram gib = (_, refl)

  -- With the sizes of `gib`, no turn raises.
  abbrev pub IsUsable : ℕ → Type 0
  IsUsable gib =
      ((ram : TierConfig)
        → config_tier (config_of gib) "ram" ≡ some ram
        → CanRun (config_of gib) ram)
      × (pool_raises (config_of gib) ≡ false)

  -- What a line is printed for.
  abbrev pub place : Line → ℕ × (ℕ × String)
  place l = (l.k, (l.gib, l.report.policy))

  module _ (each : String → Option Line) (f : String → ℕ × (ℕ × String)) (P : Line → Type 0) where
    -- A loop whose lines are all printed.
    lines_total :
        (ns : List String) (rest : Option (List Line)) (places : List (ℕ × (ℕ × String)))
        → All (λ name. (l : Line) × (each name ≡ some l) × (place l ≡ f name) × P l) ns
        → (ls : List Line) × (rest ≡ some ls) × (map place ls ≡ places) × All P ls
        → (ls : List Line) × (lines each ns rest ≡ some ls)
          × (map place ls ≡ map f ns ++ places)
          × All P ls
    unfolding lines
    lines_total [] rest places h after = after
    lines_total (name ∷ ns) rest places ((l, e, at_name, p), h) after =
        let (ls, es, same, all) = lines_total ns rest places h after in
        rw (e, es, lines) (l ∷ ls, refl, rw (at_name, same) refl, (p, all))

  module _ (str : ℕ → String) (real : List Turn) where
    length-copies :
        (hint_scale : F) (i n : ℕ)
        → length (concat_map (λ j. map (copy str real hint_scale j) real) (range i n))
          ≡ n * length real
    length-copies hint_scale i zero = omega arith
    length-copies hint_scale i (suc n) = omega (
      arith,
      length-append (map (copy str real hint_scale i) real)
          (concat_map (λ j. map (copy str real hint_scale j) real) (range (suc i) n)),
      length-map (copy str real hint_scale i) real,
      length-copies hint_scale (suc i) n,
    )

    length-team : (k : ℕ) (hint_scale : F) → length (team str real k hint_scale) ≡ k * length real
    unfolding team by_time
    length-team k hint_scale = length-sort _ _ ∙ length-copies hint_scale 0 k

    elem-copies :
        (r : String) (hint_scale : F) (i : ℕ) (ts rest : List Turn)
        → elem r (map (λ t. t.role) ts) ≡ true
        → elem r (map (λ t. t.role) (map (copy str real hint_scale i) ts ++ rest)) ≡ true
    unfolding copy
    elem-copies r hint_scale i [] rest h = absurd (ground arith)
    elem-copies r hint_scale i (t ∷ ts) rest h = ground (arith, elem-copies r hint_scale i ts rest)

    elem-team :
        (r : String) (k : ℕ) (hint_scale : F)
        → elem r (map (λ t. t.role) real) ≡ true
        → elem r (map (λ t. t.role) (by_time (team str real (suc k) hint_scale))) ≡ true
    unfolding team by_time
    elem-team r k hint_scale h =
        elem-map-sort _ (λ (t : Turn). t.role) r _
        ∙ elem-map-sort _ (λ (t : Turn). t.role) r _
        ∙ elem-copies r hint_scale 0 real _ h

    -- A line shows the replay of the `k` copies under its policy and its size.
    abbrev pub IsReplay : Line → Type 0
    IsReplay l =
        (run_policy (config_of l.gib) (team str real l.k (of_ℕ 1)) l.report.policy
          ≡ some (ok l.report))
        × (lookup "supervisor" l.report.per_role ≡ some l.sup)
        × (l.report.turns ≡ l.k * length real)

    -- The line of a known policy.
    line_total :
        (k gib : ℕ) (name : String)
        → IsUsable gib
        → elem "supervisor" (map (λ t. t.role) real) ≡ true
        → is_some (lookup name policies) ≡ true
        → (l : Line) × (line (suc k) gib (team str real (suc k) (of_ℕ 1)) name ≡ some l)
          × (place l ≡ (suc k, (gib, name)))
          × IsReplay l
    unfolding line
    line_total k gib name (can, pool) h known =
        let turns = team str real (suc k) (of_ℕ 1) in
        let cfg = config_of gib in
        let (ram, found) = has_ram gib in
        let (report, e, counted, named) =
          run_policy_total cfg ram turns name found (can ram found) pool known in
        let has_sup =
          has_role cfg turns name report "supervisor" e (elem-team "supervisor" k (of_ℕ 1) h) in
        elim (Option-cases (lookup "supervisor" report.per_role)) [
          | inl absent ↦ absurd (ground arith)
          | inr (sup, seen) ↦
              rw (e, seen, line)
                (
                  record { k = suc k; gib = gib; report = report; sup = sup },
                  refl,
                  ap (λ x. (suc k, (gib, x))) named,
                  (
                    ap (run_policy cfg turns) named ∙ e,
                    seen,
                    counted ∙ length-team (suc k) (of_ℕ 1),
                  ),
                )
        ]

    arm_total :
        (k gib : ℕ)
        → IsUsable gib
        → elem "supervisor" (map (λ t. t.role) real) ≡ true
        → All
            (λ name.
              (l : Line) × (line (suc k) gib (team str real (suc k) (of_ℕ 1)) name ≡ some l)
              × (place l ≡ (suc k, (gib, name)))
              × IsReplay l)
            names
    unfolding policies lookup
    arm_total k gib usable h =
        let one : (name : String)
            → is_some (lookup name policies) ≡ true
            → (l : Line) × (line (suc k) gib (team str real (suc k) (of_ℕ 1)) name ≡ some l)
              × (place l ≡ (suc k, (gib, name)))
              × IsReplay l =
          λ name known. line_total k gib name usable h known in
        (one _ refl, (one _ refl, (one _ refl, (one _ refl, (one _ refl, (one _ refl, tt))))))

    -- If the recorded session has a turn of the role "supervisor", every number of copies is
    -- positive, and with every size no rate that the program divides by is zero and the bytes of
    -- the pool and of a block are finite, the experiment raises nothing. It prints a line for each
    -- pair of a number of copies and a size and each of the six policies, in this order; a line
    -- shows the report of the replay of its copies under its policy and its size, with the
    -- supervisor's statistics, and the report counts as many turns as the copies have.
    pub experiment_total :
        (pairs : List (ℕ × ℕ))
        → All (λ x. (1 ≤ x.0) × IsUsable x.1) pairs
        → elem "supervisor" (map (λ t. t.role) real) ≡ true
        → (ls : List Line) × (experiment str real pairs ≡ some ls)
          × (map place ls ≡ concat_map (λ x. map (λ name. (x.0, (x.1, name))) names) pairs)
          × All IsReplay ls
    unfolding experiment
    experiment_total [] usable h = ([], refl, refl, tt)
    experiment_total ((zero, gib) ∷ pairs) ((p, u), usable) h = absurd (omega arith)
    experiment_total ((suc k, gib) ∷ pairs) ((p, u), usable) h =
        lines_total (line (suc k) gib (team str real (suc k) (of_ℕ 1)))
          (λ name. (suc k, (gib, name))) IsReplay names (experiment str real pairs) _
          (arm_total k gib u h) (experiment_total pairs usable h)
