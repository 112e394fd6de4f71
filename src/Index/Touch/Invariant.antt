-- ===== src/Index/Touch/Invariant.antt =====
-- Leases and paths: the agreement of `refs` and `session_path` under the index's operations.
use adaptive_context_residen.Common.{
  ℕ, ◌≡◌, refl, String, Bool, true, not, ◌&&◌, ◌||◌, Option, none, some, is_some, List, [], ◌∷◌,
  arith, if◌then◌else◌, ◌=?◌, =?_iff, string_eq,
}
use adaptive_context_residen.Common.Dict.{
  lookup, insert, erase, elem, lookup-insert, lookup-erase, elem-filter,
}
use adaptive_context_residen.Floats.{FloatOps}
use adaptive_context_residen.Config.{CostModel}
use adaptive_context_residen.Index.Defs.{Key, key_eq, PrefixIndex, new_index}
use adaptive_context_residen.Index.Touch.{drop_refs, path_of, touch_path, release_session}
use adaptive_context_residen.Index.Touch.Refs.{
  refs_of, refs_of-touch_parts, refs_of-drop_refs, release_refs-drop_refs,
}

module _ ⦃fl : FloatOps⦄ where
  open fl use {F}

  -- Leases and paths agree.
  pub record IsLeased (ix : PrefixIndex) : Type 0 where
    pub agree : (k : Key) (s : String) → elem s (refs_of ix.blocks k) ≡ elem k (path_of ix s)

  pub new_index-IsLeased : (bt : ℕ) (cost : CostModel) → IsLeased (new_index bt cost)
  unfolding new_index refs_of path_of lookup
  new_index-IsLeased bt cost = record { agree = λ k s. refl }

  path_of-insert :
      (s t : String) (ks : List Key) (ix ix' : PrefixIndex)
      → ix'.session_path ≡ insert s ks ix.session_path
      → path_of ix' t ≡ (if s =? t then ks else path_of ix t)
  unfolding path_of
  path_of-insert s t ks ix ix' h = rw h (ground (arith, lookup-insert s t ks ix.session_path))

  pub path_of-erase :
      (s t : String) (ix ix' : PrefixIndex)
      → ix'.session_path ≡ erase s ix.session_path
      → path_of ix' t ≡ (if s =? t then [] else path_of ix t)
  unfolding path_of
  path_of-erase s t ix ix' h = rw h (ground (arith, lookup-erase s t ix.session_path))

  pub path_of-touch_path :
      (ix : PrefixIndex) (s role : String) (p sp : ℕ) (now : F) (aborted : Bool) (t : String)
      → path_of (touch_path ix s role p sp now aborted).0 t
        ≡ (if s =? t then (touch_path ix s role p sp now aborted).1 else path_of ix t)
  unfolding touch_path
  path_of-touch_path ix s role p sp now aborted t =
      path_of-insert s t _ ix (touch_path ix s role p sp now aborted).0 refl

  refs_of-touch_path :
      (ix : PrefixIndex) (s role : String) (p sp : ℕ) (now : F) (aborted : Bool) (k : Key)
      (t : String)
      → elem t (refs_of (touch_path ix s role p sp now aborted).0.blocks k) ≡ (
          not (
            (t =? s)
            && (not (elem k (touch_path ix s role p sp now aborted).1) && elem k (path_of ix s)))
          && (((s =? t) && elem k (touch_path ix s role p sp now aborted).1)
              || elem t (refs_of ix.blocks k)))
  unfolding touch_path
  refs_of-touch_path ix s role p sp now aborted k t =
      rw (refs_of-drop_refs, refs_of-touch_parts, elem-filter) refl

  -- Touching a path keeps the agreement of leases and paths.
  pub touch_path-IsLeased :
      (ix : PrefixIndex) (s role : String) (p sp : ℕ) (now : F) (aborted : Bool)
      → IsLeased ix
      → IsLeased (touch_path ix s role p sp now aborted).0
  touch_path-IsLeased ix s role p sp now aborted v = record {
    agree = λ k t. ground (
      arith,
      refs_of-touch_path ix s role p sp now aborted k t,
      path_of-touch_path ix s role p sp now aborted t,
      v.agree k t,
      =?_iff s t,
      =?_iff t s,
    );
  }

  -- The index after a session is released.
  abbrev pub released : PrefixIndex → String → PrefixIndex
  released ix s = record ix {
    blocks = drop_refs s (path_of ix s) ix.blocks;
    session_path = erase s ix.session_path;
    session_last_seen = erase s ix.session_last_seen;
  }

  pub known_of_agree :
      (ix : PrefixIndex) (s : String) (k : Key)
      → IsLeased ix
      → elem k (path_of ix s) ≡ true
      → is_some (lookup k ix.blocks) ≡ true
  unfolding refs_of
  known_of_agree ix s k v h = ground (arith, v.agree k s)

  pub release_session-eq :
      (ix : PrefixIndex) (s : String) → IsLeased ix → release_session ix s ≡ some (released ix s)
  unfolding release_session
  release_session-eq ix s v = rw (
    release_refs-drop_refs s (path_of ix s) ix.blocks (λ k h. known_of_agree ix s k v h),
    release_session,
  )

  pub released-agree :
      (ix : PrefixIndex) (s : String) (k : Key) (t : String)
      → IsLeased ix
      → elem t (refs_of (drop_refs s (path_of ix s) ix.blocks) k)
        ≡ elem k (path_of (released ix s) t)
  released-agree ix s k t v = ground (
    arith,
    refs_of-drop_refs s (path_of ix s) ix.blocks k t,
    path_of-erase s t ix (released ix s) refl,
    v.agree k t,
    =?_iff s t,
    =?_iff t s,
  )

  -- If leases and paths agree, releasing a session does not raise, keeps the agreement, and takes
  -- away the leases of that session and no other.
  pub release_session-IsLeased :
      (ix : PrefixIndex) (s : String)
      → IsLeased ix
      → (ix' : PrefixIndex) × (release_session ix s ≡ some ix')
        × IsLeased ix'
        × ((k : Key) (t : String)
            → elem t (refs_of ix'.blocks k) ≡ (not (s =? t) && elem t (refs_of ix.blocks k)))
  release_session-IsLeased ix s v = (
    released ix s,
    release_session-eq ix s v,
    record { agree = λ k t. released-agree ix s k t v },
    λ k t. ground (
      arith,
      refs_of-drop_refs s (path_of ix s) ix.blocks k t,
      v.agree k t,
      =?_iff s t,
      =?_iff t s,
    ),
  )

  -- What a client asks of the index.
  pub data Call : Type 0 where
    touched : (s role : String) (p sp : ℕ) (now : F) (aborted : Bool) → Call
    closed : String → Call

  -- A sequence of calls; `none` if one raises.
  unfoldable pub run : List Call → PrefixIndex → Option PrefixIndex
  run [] ix = some ix
  run (touched s role p sp now aborted ∷ calls) ix =
      run calls (touch_path ix s role p sp now aborted).0
  run (closed s ∷ calls) ix = elim (release_session ix s) [ none ↦ none | some ix' ↦ run calls ix' ]
