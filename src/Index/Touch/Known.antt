-- ===== src/Index/Touch/Known.antt =====
-- Which blocks the index knows after a path is touched.
use adaptive_context_residen.Common.{
  ℕ, suc, ◌≡◌, String, Bool, true, inl, inr, is_some, List, [], ◌∷◌, arith, =?_refl, Option-cases,
  string_eq,
}
use adaptive_context_residen.Common.Dict.{Dict, lookup, insert, elem, lookup-insert}
use adaptive_context_residen.Floats.{FloatOps}
use adaptive_context_residen.Config.{CostModel}
use adaptive_context_residen.Index.Defs.{Key, key_eq, BlockInfo, PrefixIndex}
use adaptive_context_residen.Index.Chain.{Part}
use adaptive_context_residen.Index.Touch.{
  leased, grown, touch_parts, drop_ref, drop_refs, touch_path,
}
use adaptive_context_residen.Index.Touch.Invariant.{
  IsLeased, touch_path-IsLeased, path_of-touch_path, known_of_agree,
}

module _ ⦃fl : FloatOps⦄ where
  open fl use {F}

  known-insert :
      (k j : Key) (info : BlockInfo) (blocks : Dict Key BlockInfo)
      → is_some (lookup k blocks) ≡ true
      → is_some (lookup k (insert j info blocks)) ≡ true
  known-insert k j info blocks h = ground (arith, lookup-insert j k info blocks)

  known-touch_parts :
      (cost : CostModel) (s role : String) (now : F) (d : ℕ) (parts : List Part)
      (blocks : Dict Key BlockInfo) (k : Key)
      → is_some (lookup k blocks) ≡ true
      → is_some (lookup k (touch_parts cost s role now d parts blocks)) ≡ true
  unfolding touch_parts
  known-touch_parts cost s role now d [] blocks k h = h
  known-touch_parts cost s role now d (p ∷ parts) blocks k h =
      known-touch_parts cost s role now (suc d) parts _ k (
        known-insert k p.key (leased s role now (grown cost now d p (lookup p.key blocks))) blocks
          h)

  known-drop_ref :
      (s : String) (j k : Key) (blocks : Dict Key BlockInfo)
      → is_some (lookup k blocks) ≡ true
      → is_some (lookup k (drop_ref s j blocks)) ≡ true
  unfolding drop_ref
  known-drop_ref s j k blocks h = elim (Option-cases (lookup j blocks)) [
    | inl missing ↦ rw (missing, drop_ref) h
    | inr (info, found) ↦ rw (found, drop_ref) (known-insert k j _ blocks h)
  ]

  known-drop_refs :
      (s : String) (js : List Key) (k : Key) (blocks : Dict Key BlockInfo)
      → is_some (lookup k blocks) ≡ true
      → is_some (lookup k (drop_refs s js blocks)) ≡ true
  unfolding drop_refs
  known-drop_refs s [] k blocks h = h
  known-drop_refs s (j ∷ js) k blocks h =
      known-drop_refs s js k (drop_ref s j blocks) (known-drop_ref s j k blocks h)

  pub known-touch_path :
      (ix : PrefixIndex) (s role : String) (p sp : ℕ) (now : F) (aborted : Bool) (k : Key)
      → is_some (lookup k ix.blocks) ≡ true
      → is_some (lookup k (touch_path ix s role p sp now aborted).0.blocks) ≡ true
  unfolding touch_path
  known-touch_path ix s role p sp now aborted k h =
      known-drop_refs s _ k _ (known-touch_parts ix.cost s role now 0 _ ix.blocks k h)

  pub touched-known :
      (ix : PrefixIndex) (s role : String) (p sp : ℕ) (now : F) (aborted : Bool) (k : Key)
      → IsLeased ix
      → elem k (touch_path ix s role p sp now aborted).1 ≡ true
      → is_some (lookup k (touch_path ix s role p sp now aborted).0.blocks) ≡ true
  touched-known ix s role p sp now aborted k v m =
      known_of_agree (touch_path ix s role p sp now aborted).0 s k
        (touch_path-IsLeased ix s role p sp now aborted v)
        (ground (arith, m, path_of-touch_path ix s role p sp now aborted s, =?_refl s))
