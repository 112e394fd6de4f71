-- ===== src/Policies/Evict/Chains.antt =====
-- Eviction by chains: the order in which `AdaptiveValuePolicy.evict` drops entries.
use adaptive_context_residen.Common.{
  ℕ, ◌+◌, ◌≤◌, ◌≡◌, refl, ◌∙◌, ap, ◌⊎◌, inl, inr, List, [], String, ◌∷◌, ◌++◌, arith, if◌then◌else◌,
  leb, sum_by, sum_by-append, All, All-append, append_assoc, append-nil, ◌=?◌, Bool-cases,
  Option-cases,
}
use adaptive_context_residen.Common.Dict.{
  Dict, values, lookup, sum_by-insert_absent, sum_by-insert_change, All-values-insert,
  All-values-lookup,
}
use adaptive_context_residen.Common.Sort.{sum_by-sort, All-sort}
use adaptive_context_residen.Floats.{FloatOps}
use adaptive_context_residen.Index.Defs.{Key, key_eq}
use adaptive_context_residen.Policies.Probe.{Probe}
use adaptive_context_residen.Policies.Tier.{Entry}
use adaptive_context_residen.Policies.Take.{erase_all, entry_keys}
use adaptive_context_residen.Policies.Take.Laws.{IsKeyed, Held}
use adaptive_context_residen.Policies.Adaptive.{
  Label, label_eq, chain_of, append_to, group, leaf_first, drop_chain, drop_chains, rank_chains,
}
use adaptive_context_residen.Policies.Laws.{erase_all-IsKeyed}
use adaptive_context_residen.Policies.Evict.{unprotected, evict_chains}
use adaptive_context_residen.Policies.Evict.Freed.{Freed, Freed-Splits}
use adaptive_context_residen.Policies.Evict.Sorted.{evicted, Held-unprotected}

module _ ⦃fl : FloatOps⦄ where
  open fl use {F}

  -- The chains laid end to end, each from its leaf.
  unfoldable pub laid_out : Probe → List (List Entry) → List Entry
  laid_out pr [] = []
  laid_out pr (c ∷ cs) = leaf_first pr c ++ laid_out pr cs

  abbrev bytes : List Entry → ℕ
  bytes = sum_by (λ e. e.nbytes)

  drop_chain_splits :
      (needed freed : ℕ) (es : List Entry)
      → (rest : List Entry) × (es ≡ (drop_chain needed freed es).0 ++ rest)
        × ((drop_chain needed freed es).1 ≡ freed + bytes (drop_chain needed freed es).0)
        × ((needed ≤ (drop_chain needed freed es).1) ⊎ (rest ≡ []))
  unfolding drop_chain
  drop_chain_splits needed freed [] = ([], refl, omega arith, inr refl)
  drop_chain_splits needed freed (e ∷ es) = elim (Bool-cases (leb needed freed)) [
    | inl done ↦ (e ∷ es, rw done refl, rw done (omega arith), rw done (inl (ground arith)))
    | inr more ↦
        let (rest, split, freed', enough) = drop_chain_splits needed (freed + e.nbytes) es in
        (rest, rw more (ap (◌∷◌ e) split), rw more (omega arith), rw more enough)
  ]

  drop_chains_splits :
      (needed freed : ℕ) (pr : Probe) (cs : List (List Entry))
      → (rest : List Entry) × (laid_out pr cs ≡ drop_chains needed freed pr cs ++ rest)
        × ((needed ≤ freed + bytes (drop_chains needed freed pr cs)) ⊎ (rest ≡ []))
  unfolding drop_chains laid_out
  drop_chains_splits needed freed pr [] = ([], refl, inr refl)
  drop_chains_splits needed freed pr (c ∷ cs) =
      let first = drop_chain needed freed (leaf_first pr c) in
      let (rest, split, freed', enough) = drop_chain_splits needed freed (leaf_first pr c) in
      elim (Bool-cases (leb needed first.1)) [
        | inl done ↦ (
          rest ++ laid_out pr cs,
          rw (done, append-nil)
              (ap (λ l. l ++ laid_out pr cs) split ∙ append_assoc first.0 rest (laid_out pr cs)),
          rw (done, append-nil) (inl (ground arith)),
        )
        | inr more ↦
            let (rest', split', enough') = drop_chains_splits needed first.1 pr cs in
            let none_left : rest ≡ [] = elim enough [ inl q ↦ absurd (ground arith) | inr q ↦ q ] in
            let whole : leaf_first pr c ≡ first.0 =
              split ∙ ap (λ r. first.0 ++ r) none_left ∙ append-nil first.0 in
            (
              rest',
              rw (more, append_assoc)
                  (ap (λ l. l ++ laid_out pr cs) whole ∙ ap (λ l. first.0 ++ l) split'),
              rw (more, sum_by-append) (elim enough' [ inl q ↦ inl (omega arith) | inr q ↦ inr q ]),
            )
      ]

  leaf_first-sum :
      (f : Entry → ℕ) (pr : Probe) (c : List Entry) → sum_by f (leaf_first pr c) ≡ sum_by f c
  unfolding leaf_first
  leaf_first-sum f pr c = sum_by-sort _ f c

  sum_by-laid_out :
      (f : Entry → ℕ) (pr : Probe) (cs : List (List Entry))
      → sum_by f (laid_out pr cs) ≡ sum_by (sum_by f) cs
  unfolding laid_out
  sum_by-laid_out f pr [] = refl
  sum_by-laid_out f pr (c ∷ cs) = omega (
    arith,
    sum_by-append f (leaf_first pr c) (laid_out pr cs),
    leaf_first-sum f pr c,
    sum_by-laid_out f pr cs,
  )

  sum_by-append_to :
      (f : Entry → ℕ) (l : Label) (e : Entry) (chains : Dict Label (List Entry))
      → sum_by (sum_by f) (values (append_to l e chains)) ≡ f e + sum_by (sum_by f) (values chains)
  unfolding append_to
  sum_by-append_to f l e chains = elim (Option-cases (lookup l chains)) [
    | inl new ↦
        rw (new, append_to) (omega (arith, sum_by-insert_absent (sum_by f) l (e ∷ []) chains new))
    | inr (es, old) ↦
        rw (old, append_to)
          (omega (
            arith,
            sum_by-insert_change (sum_by f) l (es ++ e ∷ []) chains old,
            sum_by-append f es (e ∷ []),
          ))
  ]

  sum_by-group :
      (f : Entry → ℕ) (now : F) (pr : Probe) (es : List Entry) (chains : Dict Label (List Entry))
      → sum_by (sum_by f) (values (group now pr es chains))
        ≡ sum_by f es + sum_by (sum_by f) (values chains)
  unfolding group
  sum_by-group f now pr [] chains = omega arith
  sum_by-group f now pr (e ∷ es) chains = omega (
    arith,
    sum_by-group f now pr es (append_to (chain_of e.key now pr) e chains),
    sum_by-append_to f (chain_of e.key now pr) e chains,
  )

  All-leaf_first :
      (P : Entry → Type 0) (pr : Probe) (c : List Entry) → All P c → All P (leaf_first pr c)
  unfolding leaf_first
  All-leaf_first P pr c h = All-sort _ P c h

  All-laid_out :
      (P : Entry → Type 0) (pr : Probe) (cs : List (List Entry))
      → All (All P) cs
      → All P (laid_out pr cs)
  unfolding laid_out
  All-laid_out P pr [] h = tt
  All-laid_out P pr (c ∷ cs) h =
      All-append P (leaf_first pr c) (laid_out pr cs) (All-leaf_first P pr c h.0)
        (All-laid_out P pr cs h.1)

  All-append_to :
      (P : Entry → Type 0) (l : Label) (e : Entry) (chains : Dict Label (List Entry))
      → P e
      → All (All P) (values chains)
      → All (All P) (values (append_to l e chains))
  unfolding append_to
  All-append_to P l e chains p h = elim (Option-cases (lookup l chains)) [
    | inl new ↦ rw (new, append_to) (All-values-insert (All P) l (e ∷ []) chains (p, tt) h)
    | inr (es, old) ↦
        rw (old, append_to)
          (All-values-insert (All P) l (es ++ e ∷ []) chains
            (All-append P es (e ∷ []) (All-values-lookup (All P) l chains h old) (p, tt)) h)
  ]

  All-group :
      (P : Entry → Type 0) (now : F) (pr : Probe) (es : List Entry)
      (chains : Dict Label (List Entry))
      → All P es
      → All (All P) (values chains)
      → All (All P) (values (group now pr es chains))
  unfolding group
  All-group P now pr [] chains h hc = hc
  All-group P now pr (e ∷ es) chains h hc =
      All-group P now pr es (append_to (chain_of e.key now pr) e chains) h.1
        (All-append_to P (chain_of e.key now pr) e chains h.0 hc)

  module _ (horizon_s : F) (priors : Dict String F) (needed : ℕ) (protected : List Key) (now : F)
      (pr : Probe) (entries : Dict Key Entry) where
    abbrev chains : List (List Entry)
    chains = values (group now pr (unprotected protected entries) [])

    abbrev ranking : List (List Entry)
    ranking = rank_chains horizon_s priors pr chains

    sum_by-ranking :
        (f : Entry → ℕ) → sum_by f (laid_out pr ranking) ≡ sum_by f (unprotected protected entries)
    unfolding rank_chains
    sum_by-ranking f =
        sum_by-laid_out f pr ranking
        ∙ sum_by-sort _ (sum_by f) chains
        ∙ omega (arith, sum_by-group f now pr (unprotected protected entries) [])

    Held-ranking : IsKeyed entries → All (Held entries) (laid_out pr ranking)
    unfolding rank_chains
    Held-ranking v = All-laid_out (Held entries) pr ranking (
        All-sort _ (All (Held entries)) chains (
          All-group (Held entries) now pr (unprotected protected entries) []
            (Held-unprotected protected entries v) tt))

    evict_chains-parts :
        (taken : List Entry)
        → drop_chains needed 0 pr ranking ≡ taken
        → (evicted (evict_chains horizon_s priors needed protected now pr entries).0
            ≡ entry_keys taken)
          × ((evict_chains horizon_s priors needed protected now pr entries).1
              ≡ erase_all (entry_keys taken) entries)
    unfolding evict_chains erase_all
    evict_chains-parts [] h = rw (h, evict_chains, evicted) (refl, refl)
    evict_chains-parts (e ∷ es) h = rw (h, evict_chains, evicted) (refl, refl)

    pub evict_chains-Freed :
        IsKeyed entries
        → Freed entries needed protected
            (evicted (evict_chains horizon_s priors needed protected now pr entries).0)
            (evict_chains horizon_s priors needed protected now pr entries).1
    evict_chains-Freed v =
        let (out, left) = evict_chains-parts (drop_chains needed 0 pr ranking) refl in
        let (rest, split, enough) = drop_chains_splits needed 0 pr ranking in
        rw (out, left)
          (Freed-Splits entries v protected needed (laid_out pr ranking)
            (drop_chains needed 0 pr ranking) (Held-ranking v)
            (λ k. sum_by-ranking (λ e. if e.key =? k then 1 else 0))
            (record { rest = rest; split = split; enough = ground (arith, enough) }))

    pub evict_chains-IsKeyed :
        IsKeyed entries → IsKeyed (evict_chains horizon_s priors needed protected now pr entries).1
    evict_chains-IsKeyed v =
        rw ((evict_chains-parts (drop_chains needed 0 pr ranking) refl).1)
          (erase_all-IsKeyed (entry_keys (drop_chains needed 0 pr ranking)) entries v)
