-- ===== src/Policies/Take/Laws.antt =====
-- Removing chosen entries from a tier: what stays, and how many bytes go.
use adaptive_context_residen.Common.{
  ℕ, ◌+◌, ◌≤◌, ◌≡◌, refl, ap, ◌⊎◌, inl, inr, false, none, some, List, [], ◌∷◌, ◌++◌, arith,
  if◌then◌else◌, ltb, leb, sum_by, All, ◌=?◌, =?_iff, =?_refl, Bool-cases,
}
use adaptive_context_residen.Common.Dict.{
  Dict, keys, values, lookup, erase, elem, Distinct, lookup-erase, Distinct-erase, sum_by-erase,
}
use adaptive_context_residen.Floats.{FloatOps}
use adaptive_context_residen.Index.Defs.{Key, key_eq}
use adaptive_context_residen.Policies.Tier.{Entry}
use adaptive_context_residen.Policies.Take.{erase_all, take_until, entry_keys}

module _ ⦃fl : FloatOps⦄ where
  open fl use {F}

  -- The entries of a tier stand under their own keys, each key once.
  pub record IsKeyed (entries : Dict Key Entry) : Type 0 where
    pub distinct : Distinct (keys entries)
    pub own : All (λ x. x.1.key ≡ x.0) entries

  -- An entry is the one that the tier holds under its key.
  abbrev pub Held : Dict Key Entry → Entry → Type 0
  Held entries e = lookup e.key entries ≡ some e

  -- How often a key occurs.
  abbrev pub count : Key → List Entry → ℕ
  count k = sum_by (λ e. if e.key =? k then 1 else 0)

  pub elem-count : (k : Key) (es : List Entry) → elem k (entry_keys es) ≡ ltb 0 (count k es)
  elem-count k [] = refl
  elem-count k (e ∷ es) = ground (arith, elem-count k es)

  pub Distinct-count : (es : List Entry) → ((k : Key) → count k es ≤ 1) → Distinct (entry_keys es)
  Distinct-count [] h = tt
  Distinct-count (e ∷ es) h = (
    ground (arith, elem-count e.key es, h e.key, =?_refl e.key),
    Distinct-count es (λ k. omega (arith, h k)),
  )

  pub lookup-erase_all :
      (ks : List Key) (d : Dict Key Entry) (k : Key)
      → lookup k (erase_all ks d) ≡ (if elem k ks then none else lookup k d)
  unfolding erase_all
  lookup-erase_all [] d k = refl
  lookup-erase_all (j ∷ ks) d k =
      ground (arith, lookup-erase_all ks (erase j d) k, lookup-erase j k d)

  Held-erase :
      (k : Key) (d : Dict Key Entry) (es : List Entry)
      → elem k (entry_keys es) ≡ false
      → All (Held d) es
      → All (Held (erase k d)) es
  Held-erase k d [] n h = tt
  Held-erase k d (e ∷ es) n h = (
    ground (arith, lookup-erase k e.key d, =?_iff k e.key, =?_refl e.key),
    Held-erase k d es (ground arith) h.1,
  )

  -- The bytes that go are those of the removed entries.
  pub sum_by-erase_all :
      (f : Entry → ℕ) (es : List Entry) (d : Dict Key Entry)
      → Distinct (keys d)
      → Distinct (entry_keys es)
      → All (Held d) es
      → sum_by f (values (erase_all (entry_keys es) d)) + sum_by f es ≡ sum_by f (values d)
  unfolding erase_all
  sum_by-erase_all f [] d dd de h = omega arith
  sum_by-erase_all f (e ∷ es) d dd de h = omega (
    arith,
    sum_by-erase f e.key d dd h.0,
    sum_by-erase_all f es (erase e.key d) (Distinct-erase e.key d dd) de.1
        (Held-erase e.key d es de.0 h.1),
  )

  -- The list of candidates splits into what is taken and what is left, and something is left only
  -- if enough is taken.
  pub record Splits (needed : ℕ) (order taken : List Entry) : Type 0 where
    pub rest : List Entry
    pub split : order ≡ taken ++ rest
    pub enough : (needed ≤ sum_by (λ e. e.nbytes) taken) ⊎ (rest ≡ [])

  pub Splits-take_until :
      (needed freed : ℕ) (order : List Entry)
      → (rest : List Entry) × (order ≡ take_until needed freed order ++ rest)
        × ((needed ≤ freed + sum_by (λ e. e.nbytes) (take_until needed freed order)) ⊎ (rest ≡ []))
  unfolding take_until
  Splits-take_until needed freed [] = ([], refl, inr refl)
  Splits-take_until needed freed (e ∷ es) = elim (Bool-cases (leb needed (freed + e.nbytes))) [
    | inl done ↦ (es, rw done, inl (rw done (ground arith)))
    | inr more ↦
        let (rest, split, enough) = Splits-take_until needed (freed + e.nbytes) es in
        (
          rest,
          rw more (ap (◌∷◌ e) split),
          rw more (elim enough [ inl q ↦ inl (omega arith) | inr q ↦ inr q ]),
        )
  ]
