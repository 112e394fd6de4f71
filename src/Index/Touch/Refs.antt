-- ===== src/Index/Touch/Refs.antt =====
-- How the loops of `touch_path` and `release_session` change the sets `refs`.
use adaptive_context_residen.Common.{
  ℕ, suc, ◌≡◌, refl, ◌∙◌, ap, String, true, not, ◌&&◌, ◌||◌, none, some, is_some, Option-cases,
  List, [], ◌∷◌, map, arith, if◌then◌else◌, ◌=?◌, =?_iff, =?_refl, string_eq, inl, inr,
}
use adaptive_context_residen.Common.Dict.{
  Dict, lookup, insert, elem, add, discard, lookup-insert, elem-add, elem-discard,
}
use adaptive_context_residen.Floats.{FloatOps}
use adaptive_context_residen.Config.{CostModel}
use adaptive_context_residen.Index.Defs.{Key, key_eq, BlockInfo}
use adaptive_context_residen.Index.Chain.{Part}
use adaptive_context_residen.Index.Touch.{
  grown, leased, touch_parts, drop_ref, drop_refs, release_refs,
}

module _ ⦃fl : FloatOps⦄ where
  open fl use {F}

  -- The sessions that lease a block.
  unfoldable pub refs_of : Dict Key BlockInfo → Key → List String
  refs_of blocks k = elim (lookup k blocks) [ none ↦ [] | some info ↦ info.refs ]

  refs-grown :
      (cost : CostModel) (now : F) (d : ℕ) (p : Part) (blocks : Dict Key BlockInfo)
      → (grown cost now d p (lookup p.key blocks)).refs ≡ refs_of blocks p.key
  unfolding grown refs_of
  refs-grown cost now d p blocks = ground arith

  refs-leased :
      (s role : String) (now : F) (info : BlockInfo)
      → (leased s role now info).refs ≡ add s info.refs
  unfolding leased
  refs-leased s role now info = refl

  refs_of-insert :
      (j k : Key) (info : BlockInfo) (blocks : Dict Key BlockInfo)
      → refs_of (insert j info blocks) k ≡ (if j =? k then info.refs else refs_of blocks k)
  unfolding refs_of
  refs_of-insert j k info blocks = ground (arith, lookup-insert j k info blocks)

  -- After the loop over the parts the session leases their blocks, and else nothing changes.
  pub refs_of-touch_parts :
      (cost : CostModel) (s role : String) (now : F) (d : ℕ) (parts : List Part)
      (blocks : Dict Key BlockInfo) (k : Key) (t : String)
      → elem t (refs_of (touch_parts cost s role now d parts blocks) k)
        ≡ (((s =? t) && elem k (map (λ p. p.key) parts)) || elem t (refs_of blocks k))
  unfolding touch_parts
  refs_of-touch_parts cost s role now d [] blocks k t = ground arith
  refs_of-touch_parts cost s role now d (p ∷ parts) blocks k t =
      let info : BlockInfo = leased s role now (grown cost now d p (lookup p.key blocks)) in
      let step : info.refs ≡ add s (refs_of blocks p.key) =
        refs-leased s role now (grown cost now d p (lookup p.key blocks))
        ∙ ap (add s) (refs-grown cost now d p blocks) in
      ground (
        arith,
        step,
        refs_of-touch_parts cost s role now (suc d) parts (insert p.key info blocks) k t,
        refs_of-insert p.key k info blocks,
        elem-add t s (refs_of blocks p.key),
        =?_iff p.key k,
      )

  -- The body that `touch_path` and `release_session` share.
  abbrev pub dropped : String → Key → BlockInfo → Dict Key BlockInfo → Dict Key BlockInfo
  dropped s j info blocks = insert j (record info { refs = discard s info.refs }) blocks

  refs_of-dropped :
      (s : String) (j : Key) (info : BlockInfo) (blocks : Dict Key BlockInfo) (k : Key) (t : String)
      → lookup j blocks ≡ some info
      → elem t (refs_of (dropped s j info blocks) k)
        ≡ (not ((t =? s) && (j =? k)) && elem t (refs_of blocks k))
  unfolding refs_of
  refs_of-dropped s j info blocks k t h = ground (
    arith,
    lookup-insert j k (record info { refs = discard s info.refs }) blocks,
    elem-discard t s info.refs,
    =?_iff j k,
  )

  refs_of_absent :
      (s : String) (j : Key) (blocks : Dict Key BlockInfo) (k : Key) (t : String)
      → lookup j blocks ≡ none
      → elem t (refs_of blocks k) ≡ (not ((t =? s) && (j =? k)) && elem t (refs_of blocks k))
  unfolding refs_of
  refs_of_absent s j blocks k t h = ground (arith, =?_iff j k)

  refs_of-drop_ref :
      (s : String) (j : Key) (blocks : Dict Key BlockInfo) (k : Key) (t : String)
      → elem t (refs_of (drop_ref s j blocks) k)
        ≡ (not ((t =? s) && (j =? k)) && elem t (refs_of blocks k))
  unfolding drop_ref
  refs_of-drop_ref s j blocks k t = elim (Option-cases (lookup j blocks)) [
    | inl missing ↦ rw (missing, drop_ref) (refs_of_absent s j blocks k t missing)
    | inr (info, found) ↦ rw (found, drop_ref) (refs_of-dropped s j info blocks k t found)
  ]

  pub refs_of-drop_refs :
      (s : String) (ks : List Key) (blocks : Dict Key BlockInfo) (k : Key) (t : String)
      → elem t (refs_of (drop_refs s ks blocks) k)
        ≡ (not ((t =? s) && elem k ks) && elem t (refs_of blocks k))
  unfolding drop_refs
  refs_of-drop_refs s [] blocks k t = ground arith
  refs_of-drop_refs s (j ∷ ks) blocks k t =
      ground
        (arith, refs_of-drop_refs s ks (drop_ref s j blocks) k t, refs_of-drop_ref s j blocks k t)

  -- Where every key has a block, the loop of `release_session` does not raise.
  pub release_refs-drop_refs :
      (s : String) (ks : List Key) (blocks : Dict Key BlockInfo)
      → ((k : Key) → elem k ks ≡ true → is_some (lookup k blocks) ≡ true)
      → release_refs s ks blocks ≡ some (drop_refs s ks blocks)
  unfolding release_refs drop_refs
  release_refs-drop_refs s [] blocks known = refl
  release_refs-drop_refs s (j ∷ ks) blocks known = elim (Option-cases (lookup j blocks)) [
    | inl missing ↦ absurd (ground (arith, known j, =?_refl j))
    | inr (info, found) ↦
        rw (found, release_refs, drop_ref)
          (release_refs-drop_refs s ks (dropped s j info blocks) (λ k m. ground (
            arith,
            known k,
            lookup-insert j k (record info { refs = discard s info.refs }) blocks,
          )))
  ]
