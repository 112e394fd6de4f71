-- ===== src/Policies/Evict/Freed.antt =====
-- What the evictions have in common: entries taken from the unprotected ones.
use adaptive_context_residen.Common.{
  ℕ, ◌+◌, ◌≤◌, ◌≡◌, refl, ◌∙◌, ap, ◌⊎◌, inl, inr, true, false, none, some, is_some, List, [], ◌∷◌,
  ◌++◌, arith, if◌then◌else◌, sum_by, sum_by-append, All, ◌=?◌, =?_iff, =?_refl, append-nil,
}
use adaptive_context_residen.Common.Dict.{Dict, keys, values, lookup, elem, Distinct, elem-keys}
use adaptive_context_residen.Floats.{FloatOps}
use adaptive_context_residen.Index.Defs.{Key, key_eq}
use adaptive_context_residen.Policies.Tier.{Entry}
use adaptive_context_residen.Policies.Take.{erase_all, entry_keys}
use adaptive_context_residen.Policies.Take.Laws.{
  IsKeyed, Held, count, elem-count, Distinct-count, lookup-erase_all, sum_by-erase_all, Splits,
}
use adaptive_context_residen.Policies.Evict.{unprotected}

module _ ⦃fl : FloatOps⦄ where
  open fl use {F}

  -- The bytes that a tier holds, and those under one key.
  abbrev pub total : Dict Key Entry → ℕ
  total entries = sum_by (λ e. e.nbytes) (values entries)

  unfoldable pub nbytes_at : Dict Key Entry → Key → ℕ
  nbytes_at entries k = elim (lookup k entries) [ none ↦ 0 | some e ↦ e.nbytes ]

  -- What an eviction of `out` has done to `entries`.
  pub record Freed (entries : Dict Key Entry) (needed : ℕ) (protected out : List Key)
      (entries' : Dict Key Entry) : Type 0 where
    -- The keys are different keys of the tier, and none is protected.
    pub distinct : Distinct out
    pub spared :
        (k : Key)
        → elem k out ≡ true
        → (elem k protected ≡ false) × (is_some (lookup k entries) ≡ true)
    -- They are gone, and every other entry is as it was.
    pub kept : (k : Key) → lookup k entries' ≡ (if elem k out then none else lookup k entries)
    -- The bytes are accounted for.
    pub accounted : total entries' + sum_by (nbytes_at entries) out ≡ total entries
    -- Enough bytes are free, or no unprotected entry is left.
    pub enough :
        (needed ≤ sum_by (nbytes_at entries) out)
        ⊎ ((k : Key) → elem k protected ≡ false → lookup k entries' ≡ none)

  pub count-values :
      (k : Key) (entries : Dict Key Entry)
      → IsKeyed entries
      → count k (values entries) ≡ (if elem k (keys entries) then 1 else 0)
  count-values k [] v = refl
  count-values k ((j, e) ∷ entries) v = ground (
    arith,
    v.own,
    v.distinct,
    =?_iff j k,
    count-values k entries (record { distinct = v.distinct.1; own = v.own.1 }),
  )

  pub count-unprotected :
      (k : Key) (protected : List Key) (entries : Dict Key Entry)
      → count k (unprotected protected entries)
        ≡ (if elem k protected then 0 else count k (values entries))
  unfolding unprotected
  count-unprotected k protected [] = ground arith
  count-unprotected k protected ((j, e) ∷ entries) =
      ground (arith, =?_iff e.key k, count-unprotected k protected entries)

  Held-cons :
      (j : Key) (e : Entry) (entries : Dict Key Entry) (es : List Entry)
      → count j es ≡ 0
      → All (Held entries) es
      → All (Held ((j, e) ∷ entries)) es
  unfolding lookup
  Held-cons j e entries [] n h = tt
  Held-cons j e entries (x ∷ es) n h = (
    ground (arith, =?_iff x.key j, =?_iff j x.key, h.0),
    Held-cons j e entries es (ground arith) h.1,
  )

  pub Held-values :
      (entries : Dict Key Entry) → IsKeyed entries → All (Held entries) (values entries)
  unfolding lookup
  Held-values [] v = tt
  Held-values ((j, e) ∷ entries) v =
      let below : IsKeyed entries = record { distinct = v.distinct.1; own = v.own.1 } in
      (
        ground (arith, v.own, =?_refl j),
        Held-cons j e entries (values entries)
            (ground (arith, count-values j entries below, v.distinct)) (Held-values entries below),
      )

  All-append_left {ℓ κ} :
      {A : Type ℓ} (P : A → Type κ) (xs ys : List A) → All P (xs ++ ys) → All P xs
  All-append_left P [] ys h = tt
  All-append_left P (x ∷ xs) ys h = (h.0, All-append_left P xs ys h.1)

  sum-nbytes_at :
      (entries : Dict Key Entry) (es : List Entry)
      → All (Held entries) es
      → sum_by (nbytes_at entries) (entry_keys es) ≡ sum_by (λ e. e.nbytes) es
  unfolding nbytes_at
  sum-nbytes_at entries [] h = refl
  sum-nbytes_at entries (e ∷ es) h = ground (arith, h.0, sum-nbytes_at entries es h.1)

  module _ (entries : Dict Key Entry) (valid : IsKeyed entries) (protected : List Key) (needed : ℕ)
      (order taken : List Entry) (held : All (Held entries) order)
      (same : (k : Key) → count k order ≡ count k (unprotected protected entries))
      (s : Splits needed order taken) where
    count-taken :
        (k : Key)
        → count k taken ≤ (if elem k protected then 0 else if elem k (keys entries) then 1 else 0)
    count-taken k =
        let e : count k order ≡ count k taken + count k s.rest =
          ap (count k) s.split ∙ sum_by-append (λ x. if x.key =? k then 1 else 0) taken s.rest in
        ground
          (arith, e, same k, count-unprotected k protected entries, count-values k entries valid)

    Held-taken : All (Held entries) taken
    Held-taken = All-append_left (Held entries) taken s.rest (rw s.split at held)

    all_gone :
        (k : Key)
        → s.rest ≡ []
        → elem k protected ≡ false
        → elem k (entry_keys taken) ≡ is_some (lookup k entries)
    all_gone k empty free =
        let e : count k order ≡ count k taken =
          ap (count k) (s.split ∙ ap (λ r. taken ++ r) empty ∙ append-nil taken) in
        ground (
          arith,
          e,
          same k,
          elem-count k taken,
          elem-keys k entries,
          count-unprotected k protected entries,
          count-values k entries valid,
        )

    pub Freed-Splits :
        Freed entries needed protected (entry_keys taken) (erase_all (entry_keys taken) entries)
    Freed-Splits = record {
      distinct = Distinct-count taken (λ k. ground (arith, count-taken k));
      spared = λ k h. ground (arith, elem-count k taken, count-taken k, elem-keys k entries);
      kept = λ k. lookup-erase_all (entry_keys taken) entries k;
      accounted = rw (sum-nbytes_at entries taken Held-taken) (
          sum_by-erase_all (λ e. e.nbytes) taken entries valid.distinct
            (Distinct-count taken (λ k. ground (arith, count-taken k))) Held-taken);
      enough = elim s.enough [
        | inl q ↦ inl (rw (sum-nbytes_at entries taken Held-taken) q)
        | inr q ↦ inr (λ k free.
            ground (arith, all_gone k q free, lookup-erase_all (entry_keys taken) entries k))
      ];
    }
