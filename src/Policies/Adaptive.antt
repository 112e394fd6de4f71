-- ===== src/Policies/Adaptive.antt =====
-- `AdaptiveValuePolicy`: the value of a block, and eviction by chains. `density` writes its horizon
-- into the shared probe before it reads it, so the model passes it on; nothing else reads it.
use adaptive_context_residen.Common.{
  ℕ, ◌+◌, max, String, Bool, true, false, ◌&&◌, none, some, List, [], ◌∷◌, ◌++◌, map, if◌then◌else◌,
  ltb, leb, ◌==◌, ◌=?◌, Eq, ◌≡◌, ◌↔◌, =?_iff, arith, sum_by, string_eq,
}
use adaptive_context_residen.Common.Dict.{Dict, lookup, insert, values}
use adaptive_context_residen.Common.Keys.{lex}
use adaptive_context_residen.Common.Sort.{sort}
use adaptive_context_residen.Floats.{FloatOps, fmax, fmin}
use adaptive_context_residen.Index.Defs.{Key, key_eq, key_beq}
use adaptive_context_residen.Index.Leases.{live_leases, stale_after_s}
use adaptive_context_residen.Policies.Probe.{
  Probe, min_from, sum_from, reuse_prob, recompute_seconds, restore_seconds,
}
use adaptive_context_residen.Policies.Tier.{Entry, TierPolicy, pressure}

-- The label of a chain: "?", f"shared:{key}", a session or a block key. Sessions are taken not to be
-- named like the other labels.
pub data Label : Type 0 where
  unknown : Label
  shared : Key → Label
  session : String → Label
  alone : Key → Label

unfoldable pub label_beq : Label → Label → Bool
unfolding key_beq
label_beq unknown unknown = true
label_beq (shared a) (shared b) = a =? b
label_beq (session a) (session b) = a =? b
label_beq (alone a) (alone b) = a =? b
label_beq _ _ = false

pub label_beq_iff : (a b : Label) → (label_beq a b ≡ true) ↔ (a ≡ b)
unfolding label_beq
label_beq_iff unknown unknown = ground arith
label_beq_iff (shared a) (shared b) = ground (arith, =?_iff a b)
label_beq_iff (session a) (session b) = ground (arith, =?_iff a b)
label_beq_iff (alone a) (alone b) = ground (arith, =?_iff a b)
label_beq_iff _ _ = ground arith

instance abbrev pub label_eq : Eq Label
label_eq = record { beq = label_beq; beq_iff = label_beq_iff }

module _ ⦃fl : FloatOps⦄ where
  open fl use {F, of_ℕ, decimal, add, sub, mul, div, lt, le, eq}

  unfoldable pub density : F → Dict String F → Key → ℕ → Probe → F
  density horizon_s priors key nbytes pr =
      let p = reuse_prob (record pr { horizon_s = horizon_s }) key priors in
      let saved =
        mul p (fmax (of_ℕ 0) (sub (recompute_seconds pr nbytes) (restore_seconds pr nbytes))) in
      div saved (of_ℕ (max 1 nbytes))

  module _ (horizon_s : F) (priors : Dict String F) where
    abbrev density_of : Entry → Probe → F
    density_of e pr = density horizon_s priors e.key e.nbytes pr

    unfoldable pub value : F → TierPolicy → Entry → Probe → F
    value lambda_mem t e pr =
        mul (mul (density_of e pr) (of_ℕ e.nbytes))
          (sub (of_ℕ 1) (mul lambda_mem (fmin (of_ℕ 1) (pressure t))))

    -- `min(..., default=0.0)` of the densities in the tier
    unfoldable pub worst : List Entry → Probe → F
    worst [] pr = of_ℕ 0
    worst (e ∷ es) pr = min_from (density_of e pr) (map (λ x. density_of x pr) es)

    unfoldable pub admit_chain : TierPolicy → List (Key × ℕ) → Probe → List (Key × ℕ)
    admit_chain t [] pr = []
    admit_chain t (x ∷ xs) pr =
        if lt (pressure t) (decimal 9 1)
        then x ∷ xs
        else (let incoming =
              div
                (sum_from (of_ℕ 0)
                  (map (λ y. mul (density horizon_s priors y.0 y.1 pr) (of_ℕ y.1)) (x ∷ xs)))
                (of_ℕ (max 1 (sum_by (λ y. y.1) (x ∷ xs)))) in
            if le (worst (values t.entries) pr) incoming then x ∷ xs else [])

    unfoldable pub chain_density : List Entry → Probe → F
    chain_density chain pr =
        if leb (sum_by (λ e. e.nbytes) chain) 0
        then of_ℕ 0
        else div (sum_from (of_ℕ 0) (map (λ e. mul (density_of e pr) (of_ℕ e.nbytes)) chain))
            (of_ℕ (sum_by (λ e. e.nbytes) chain))

  unfoldable pub chain_of : Key → F → Probe → Label
  chain_of key now pr = elim (lookup key pr.index.blocks) [
    | none ↦ unknown
    | some info ↦ elim (live_leases pr.index key now stale_after_s) [
      | [] ↦ alone key
      | s ∷ [] ↦ session s
      | s ∷ s' ∷ ss ↦ shared key
    ]
  ]

  unfoldable pub all_shared : Probe → List Entry → Bool
  all_shared pr [] = true
  all_shared pr (e ∷ es) =
      elim (lookup e.key pr.index.blocks) [ none ↦ false | some info ↦ info.shared ]
      && all_shared pr es

  unfoldable pub shared_rank : List Entry → Probe → ℕ
  unfolding all_shared
  shared_rank chain pr = if all_shared pr chain then 1 else 0

  unfoldable pub depth_of : Key → Probe → ℕ
  depth_of key pr = elim (lookup key pr.index.blocks) [ none ↦ 0 | some info ↦ info.depth ]

  -- `chains.setdefault(label, []).append(e)`
  unfoldable pub append_to : Label → Entry → Dict Label (List Entry) → Dict Label (List Entry)
  append_to label e chains = elim (lookup label chains) [
    | none ↦ insert label (e ∷ []) chains
    | some es ↦ insert label (es ++ e ∷ []) chains
  ]

  unfoldable pub group : F → Probe → List Entry → Dict Label (List Entry) → Dict Label (List Entry)
  unfolding append_to chain_of
  group now pr [] chains = chains
  group now pr (e ∷ es) chains = group now pr es (append_to (chain_of e.key now pr) e chains)

  -- `sorted(chain, key=lambda e: -depth)`
  unfoldable pub leaf_first : Probe → List Entry → List Entry
  unfolding depth_of
  leaf_first pr = sort (λ a b. ltb (depth_of b.key pr) (depth_of a.key pr))

  -- The inner loop: the entries that it drops, and the bytes freed at its end.
  unfoldable pub drop_chain : ℕ → ℕ → List Entry → List Entry × ℕ
  drop_chain needed freed [] = ([], freed)
  drop_chain needed freed (e ∷ es) =
      let rest = drop_chain needed (freed + e.nbytes) es in
      if leb needed freed then ([], freed) else (e ∷ rest.0, rest.1)

  -- The outer loop.
  unfoldable pub drop_chains : ℕ → ℕ → Probe → List (List Entry) → List Entry
  drop_chains needed freed pr [] = []
  drop_chains needed freed pr (c ∷ cs) =
      let (out, freed') = drop_chain needed freed (leaf_first pr c) in
      let rest = drop_chains needed freed' pr cs in out ++ (if leb needed freed' then [] else rest)

  unfoldable pub rank_chains : F → Dict String F → Probe → List (List Entry) → List (List Entry)
  rank_chains horizon_s priors pr = sort (λ c d.
      lex ltb ◌==◌ lt (shared_rank c pr, chain_density horizon_s priors c pr)
        (shared_rank d pr, chain_density horizon_s priors d pr))
