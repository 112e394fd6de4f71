-- ===== src/Trace/Sessions.antt =====
-- `group_by_session`: the turns of each session.
use mathlib.Core.Option.{some-injective}
use adaptive_context_residen.Common.{
  ℕ, ◌≡◌, refl, sym, ◌∙◌, ap, inl, inr, String, Bool, ◌||◌, Option, none, some, List, [], ◌∷◌, ◌++◌,
  map, append_assoc, append-nil, arith, if◌then◌else◌, filter, sum_by, All, All_impl, All-filter,
  ◌=?◌, =?_iff, =?_refl, Bool-cases, Option-cases, string_eq,
}
use adaptive_context_residen.Common.Dict.{
  Dict, keys, values, lookup, insert, lookup-insert, elem, Distinct, Distinct-insert, elem-keys,
  elem-keys-insert,
}
use adaptive_context_residen.Common.Keys.{IsWeakOrder-key}
use adaptive_context_residen.Common.Sort.{IsSorted, sort-IsSorted, sum_by-sort, elem-map-sort}
use adaptive_context_residen.Floats.{FloatOps}
use adaptive_context_residen.Floats.Order.{IsOrdered, lt-IsKeyOrder}
use adaptive_context_residen.Trace.{Turn, Session, by_time, add_turn, add_turns, group_by_session}

module _ ⦃fl : FloatOps⦄ where
  open fl use {lt}

  -- The turns of a session so far.
  unfoldable pub turns_of : Dict String Session → String → List Turn
  turns_of sessions sid = elim (lookup sid sessions) [ none ↦ [] | some s ↦ s.turns ]

  turns_of-add_turn :
      (sessions : Dict String Session) (turn : Turn) (sid : String)
      → turns_of (add_turn sessions turn) sid ≡ (
          if turn.session_id =? sid
          then turns_of sessions sid ++ turn ∷ []
          else turns_of sessions sid)
  unfolding turns_of add_turn
  turns_of-add_turn sessions turn sid = elim (Option-cases (lookup turn.session_id sessions)) [
    | inl new ↦
        rw (new, add_turn, turns_of, lookup-insert) (ground (arith, =?_iff turn.session_id sid))
    | inr (s, old) ↦
        rw (old, add_turn, turns_of, lookup-insert) (ground (arith, =?_iff turn.session_id sid))
  ]

  turns_of-add_turns :
      (turns : List Turn) (sessions : Dict String Session) (sid : String)
      → turns_of (add_turns sessions turns) sid
        ≡ turns_of sessions sid ++ filter (λ t. t.session_id =? sid) turns
  unfolding add_turns
  turns_of-add_turns [] sessions sid = sym (append-nil (turns_of sessions sid))
  turns_of-add_turns (turn ∷ turns) sessions sid =
      turns_of-add_turns turns (add_turn sessions turn) sid
      ∙ ap (λ l. l ++ filter (λ t. t.session_id =? sid) turns) (turns_of-add_turn sessions turn sid)
      ∙ elim (Bool-cases (turn.session_id =? sid)) [
        | inl mine ↦ rw (mine) (
            append_assoc (turns_of sessions sid) (turn ∷ [])
              (filter (λ t. t.session_id =? sid) turns))
        | inr other ↦ rw (other) refl
      ]

  -- Each session stands under its own name, and none stands twice.
  pub record IsNamed (sessions : Dict String Session) : Type 0 where
    pub distinct : Distinct (keys sessions)
    pub own : All (λ x. x.1.session_id ≡ x.0) sessions

  own-insert :
      (k : String) (s : Session) (d : Dict String Session)
      → s.session_id ≡ k
      → All (λ x. x.1.session_id ≡ x.0) d
      → All (λ x. x.1.session_id ≡ x.0) (insert k s d)
  unfolding insert
  own-insert k s [] q h = (q, tt)
  own-insert k s ((j, x) ∷ d) q h = elim (Bool-cases (j =? k)) [
    | inl same ↦ rw same (ground (arith, =?_iff j k), h.1)
    | inr other ↦ rw other (h.0, own-insert k s d q h.1)
  ]

  insert-IsNamed :
      (k : String) (s : Session) (d : Dict String Session)
      → s.session_id ≡ k
      → IsNamed d
      → IsNamed (insert k s d)
  insert-IsNamed k s d q v = record {
    distinct = Distinct-insert k s d v.distinct;
    own = own-insert k s d q v.own;
  }

  own-lookup :
      (k : String) (s : Session) (d : Dict String Session)
      → All (λ x. x.1.session_id ≡ x.0) d
      → lookup k d ≡ some s
      → s.session_id ≡ k
  unfolding lookup
  own-lookup k s [] h e = absurd (ground arith)
  own-lookup k s ((j, x) ∷ d) h e = elim (Bool-cases (j =? k)) [
    | inl same ↦
        let found : x ≡ s = some-injective _ _ (rw same at e) in
        ap (λ y. y.session_id) (sym found) ∙ h.0 ∙ (=?_iff j k).0 same
    | inr other ↦ own-lookup k s d h.1 (rw other at e)
  ]

  add_turn-IsNamed :
      (sessions : Dict String Session) (turn : Turn)
      → IsNamed sessions
      → IsNamed (add_turn sessions turn)
  unfolding add_turn
  add_turn-IsNamed sessions turn v = elim (Option-cases (lookup turn.session_id sessions)) [
    | inl new ↦ rw (new, add_turn) (insert-IsNamed turn.session_id _ sessions refl v)
    | inr (s, old) ↦
        rw (old, add_turn)
          (insert-IsNamed turn.session_id _ sessions
            (own-lookup turn.session_id s sessions v.own old) v)
  ]

  add_turns-IsNamed :
      (turns : List Turn) (sessions : Dict String Session)
      → IsNamed sessions
      → IsNamed (add_turns sessions turns)
  unfolding add_turns
  add_turns-IsNamed [] sessions v = v
  add_turns-IsNamed (turn ∷ turns) sessions v =
      add_turns-IsNamed turns (add_turn sessions turn) (add_turn-IsNamed sessions turn v)

  names_of : (d : Dict String Session) → IsNamed d → map (λ s. s.session_id) (values d) ≡ keys d
  names_of [] v = refl
  names_of ((k, s) ∷ d) v =
      rw (v.own.0) (ap (◌∷◌ k) (names_of d (record { distinct = v.distinct.1; own = v.own.1 })))

  -- Every value is what is found under its own name.
  found_all :
      (d : Dict String Session) → IsNamed d → All (λ s. lookup s.session_id d ≡ some s) (values d)
  unfolding lookup
  found_all [] v = tt
  found_all ((k, s) ∷ d) v = (
    rw (v.own.0, =?_refl k) refl,
    All_impl _ _
        (λ x found. ground (arith, found, v.distinct.0, elem-keys k d, =?_iff k x.session_id))
        (values d) (found_all d (record { distinct = v.distinct.1; own = v.own.1 })),
  )

  elem-keys-add_turn :
      (sessions : Dict String Session) (turn : Turn) (sid : String)
      → elem sid (keys (add_turn sessions turn))
        ≡ ((turn.session_id =? sid) || elem sid (keys sessions))
  unfolding add_turn
  elem-keys-add_turn sessions turn sid = elim (Option-cases (lookup turn.session_id sessions)) [
    | inl new ↦ rw (new, add_turn) (elem-keys-insert turn.session_id sid _ sessions)
    | inr (s, old) ↦ rw (old, add_turn) (elem-keys-insert turn.session_id sid _ sessions)
  ]

  elem-keys-add_turns :
      (turns : List Turn) (sessions : Dict String Session) (sid : String)
      → elem sid (keys (add_turns sessions turns))
        ≡ (elem sid (map (λ t. t.session_id) turns) || elem sid (keys sessions))
  unfolding add_turns
  elem-keys-add_turns [] sessions sid = refl
  elem-keys-add_turns (turn ∷ turns) sessions sid = ground (
    arith,
    elem-keys-add_turns turns (add_turn sessions turn) sid,
    elem-keys-add_turn sessions turn sid,
  )

  sum_by-filter :
      (f : Turn → ℕ) (p : Turn → Bool) (ts : List Turn)
      → sum_by f (filter p ts) ≡ sum_by (λ t. if p t then f t else 0) ts
  sum_by-filter f p [] = refl
  sum_by-filter f p (t ∷ ts) = ground (arith, sum_by-filter f p ts)

  abbrev earlier : Turn → Turn → Bool
  earlier a b = lt a.t b.t

  filter-IsSorted :
      (p : Turn → Bool) (ts : List Turn) → IsSorted earlier ts → IsSorted earlier (filter p ts)
  filter-IsSorted p [] h = tt
  filter-IsSorted p (t ∷ ts) h = elim (Bool-cases (p t)) [
    | inl kept ↦ rw kept (All-filter _ p ts h.0, filter-IsSorted p ts h.1)
    | inr cut ↦ rw cut (filter-IsSorted p ts h.1)
  ]

  -- What a session of a grouped trace holds.
  pub record IsGroup (turns : List Turn) (s : Session) : Type 0 where
    -- Its turns are those of its name, each as often as in the trace,
    pub owned : All (λ t. t.session_id ≡ s.session_id) s.turns
    pub complete :
        (f : Turn → ℕ)
        → sum_by f s.turns ≡ sum_by (λ t. if t.session_id =? s.session_id then f t else 0) turns
    -- by time, and in the order of the sorted trace.
    pub sorted : IsSorted earlier s.turns
    pub stable : s.turns ≡ filter (λ t. t.session_id =? s.session_id) (by_time turns)

  owned-filter :
      (sid : String) (ts : List Turn)
      → All (λ t. t.session_id ≡ sid) (filter (λ t. t.session_id =? sid) ts)
  owned-filter sid [] = tt
  owned-filter sid (t ∷ ts) = elim (Bool-cases (t.session_id =? sid)) [
    | inl mine ↦ rw mine ((=?_iff t.session_id sid).0 mine, owned-filter sid ts)
    | inr other ↦ rw other (owned-filter sid ts)
  ]

  filter-IsGroup :
      (turns : List Turn) (s : Session)
      → IsOrdered fl
      → s.turns ≡ filter (λ t. t.session_id =? s.session_id) (by_time turns)
      → IsGroup turns s
  unfolding by_time
  filter-IsGroup turns s o e = record {
    owned = rw e (owned-filter s.session_id (by_time turns));
    complete = λ f.
        ap (sum_by f) e
        ∙ sum_by-filter f _ (by_time turns)
        ∙ sum_by-sort earlier (λ t. if t.session_id =? s.session_id then f t else 0) turns;
    sorted = rw e (
        filter-IsSorted _ (by_time turns) (
          sort-IsSorted earlier (IsWeakOrder-key (λ (t : Turn). t.t) lt (lt-IsKeyOrder fl o).weak)
            turns));
    stable = e;
  }

  -- With an ordered float, grouping a trace by session gives sessions with different names, one
  -- for each name in the trace. The turns of a session are the trace's turns of its name, each as
  -- often as there; they are sorted by time, and turns at the same time stand as in the trace's
  -- sort.
  pub group_by_session-turns :
      (turns : List Turn)
      → IsOrdered fl
      → Distinct (map (λ s. s.session_id) (group_by_session turns))
        × ((sid : String)
            → elem sid (map (λ s. s.session_id) (group_by_session turns))
              ≡ elem sid (map (λ t. t.session_id) turns))
        × All (IsGroup turns) (group_by_session turns)
  unfolding group_by_session turns_of by_time lookup
  group_by_session-turns turns o =
      let d = add_turns [] (by_time turns) in
      let v = add_turns-IsNamed (by_time turns) [] (record { distinct = tt; own = tt }) in
      (
        rw (names_of d v) v.distinct,
        λ sid.
            ap (elem sid) (names_of d v)
            ∙ elem-keys-add_turns (by_time turns) [] sid
            ∙ ground (arith, elem-map-sort earlier (λ (t : Turn). t.session_id) sid turns),
        All_impl _ _
            (λ s found. filter-IsGroup turns s o (
              ap (λ (o : Option Session). elim o [ none ↦ [] | some x ↦ x.turns ]) (sym found)
              ∙ turns_of-add_turns (by_time turns) [] s.session_id))
            (values d) (found_all d v),
      )
