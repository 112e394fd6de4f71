-- ===== src/Policies/Laws.antt =====
-- The bookkeeping of `TierPolicy`: keys and bytes under `insert`, `touch` and `_expire`.
use adaptive_context_residen.Common.{
  ℕ, ◌+◌, ◌≤◌, ◌≡◌, refl, ◌∙◌, inl, inr, Bool, true, false, not, none, some, is_some, ◌||◌, List,
  [], ◌∷◌, arith, filter, sum_by, All, All-filter, ◌=?◌, =?_iff, Option-cases, Bool-cases,
}
use adaptive_context_residen.Common.Dict.{
  Dict, keys, values, lookup, insert, erase, elem, Distinct, elem-keys, Distinct-insert,
  Distinct-erase, sum_by-insert_absent, sum_by-insert_same, lookup-insert,
}
use adaptive_context_residen.Floats.{FloatOps}
use adaptive_context_residen.Index.Defs.{Key, key_eq}
use adaptive_context_residen.Policies.Probe.{Probe}
use adaptive_context_residen.Policies.Tier.{
  Entry, TierPolicy, insert_entry, touch_one, touch, occupancy,
}
use adaptive_context_residen.Policies.Take.{expire, erase_all}
use adaptive_context_residen.Policies.Take.Laws.{IsKeyed}

elem-keys-filter :
    {V : Type 0} (p : Key × V → Bool) (k : Key) (d : Dict Key V)
    → elem k (keys d) ≡ false
    → elem k (keys (filter p d)) ≡ false
elem-keys-filter p k [] h = refl
elem-keys-filter p k (x ∷ d) h = ground (arith, elem-keys-filter p k d)

Distinct-filter :
    {V : Type 0} (p : Key × V → Bool) (d : Dict Key V)
    → Distinct (keys d)
    → Distinct (keys (filter p d))
Distinct-filter p [] h = tt
Distinct-filter p (x ∷ d) h = ground (arith, h, Distinct-filter p d, elem-keys-filter p x.0 d)

module _ ⦃fl : FloatOps⦄ where
  open fl use {F}

  pub expire-IsKeyed :
      (entries : Dict Key Entry) (now : F) → IsKeyed entries → IsKeyed (expire entries now)
  unfolding expire
  expire-IsKeyed entries now v = record {
    distinct = Distinct-filter _ entries v.distinct;
    own = All-filter _ _ entries v.own;
  }

  pub own-lookup :
      (k : Key) (d : Dict Key Entry) {e : Entry}
      → All (λ x. x.1.key ≡ x.0) d
      → lookup k d ≡ some e
      → e.key ≡ k
  unfolding lookup
  own-lookup k [] h found = absurd (ground arith)
  own-lookup k ((j, x) ∷ d) {e = e} h found =
      ground (arith, =?_iff j k, =?_iff k j, own-lookup k d {e = e} h.1)

  own-insert :
      (k : Key) (e : Entry) (d : Dict Key Entry)
      → e.key ≡ k
      → All (λ x. x.1.key ≡ x.0) d
      → All (λ x. x.1.key ≡ x.0) (insert k e d)
  unfolding insert
  own-insert k e [] q h = (q, tt)
  own-insert k e ((j, x) ∷ d) q h = elim (Bool-cases (j =? k)) [
    | inl same ↦ rw (same) (ground (arith, =?_iff j k), h.1)
    | inr other ↦ rw (other) (h.0, own-insert k e d q h.1)
  ]

  own-erase :
      (k : Key) (d : Dict Key Entry)
      → All (λ x. x.1.key ≡ x.0) d
      → All (λ x. x.1.key ≡ x.0) (erase k d)
  unfolding erase
  own-erase k [] h = tt
  own-erase k ((j, x) ∷ d) h = ground (arith, h.0, own-erase k d h.1)

  pub insert-IsKeyed :
      (k : Key) (e : Entry) (d : Dict Key Entry) → e.key ≡ k → IsKeyed d → IsKeyed (insert k e d)
  insert-IsKeyed k e d q v = record {
    distinct = Distinct-insert k e d v.distinct;
    own = own-insert k e d q v.own;
  }

  pub erase-IsKeyed : (k : Key) (d : Dict Key Entry) → IsKeyed d → IsKeyed (erase k d)
  erase-IsKeyed k d v = record {
    distinct = Distinct-erase k d v.distinct;
    own = own-erase k d v.own;
  }

  pub insert_entry-IsKeyed :
      (t : TierPolicy) (key : Key) (nbytes : ℕ) (now : F) (pr : Probe)
      → IsKeyed t.entries
      → IsKeyed (insert_entry t key nbytes now pr).entries
  unfolding insert_entry
  insert_entry-IsKeyed t key nbytes now pr v = elim (Option-cases (lookup key t.entries)) [
    | inl new ↦ rw (new) (insert-IsKeyed key _ t.entries refl v)
    | inr (e, old) ↦
        rw (old) (insert-IsKeyed key _ t.entries (own-lookup key t.entries {e = e} v.own old) v)
  ]

  pub touch_one-IsKeyed :
      (now : F) (pr : Probe) (t : TierPolicy) (key : Key)
      → IsKeyed t.entries
      → IsKeyed (touch_one now pr t key).entries
  unfolding touch_one
  touch_one-IsKeyed now pr t key v = elim (Option-cases (lookup key t.entries)) [
    | inl new ↦ rw (new, touch_one) v
    | inr (e, old) ↦
        rw (old, touch_one)
          (insert-IsKeyed key _ t.entries (own-lookup key t.entries {e = e} v.own old) v)
  ]

  pub touch-IsKeyed :
      (t : TierPolicy) (ks : List Key) (now : F) (pr : Probe)
      → IsKeyed t.entries
      → IsKeyed (touch t ks now pr).entries
  unfolding touch
  touch-IsKeyed t [] now pr v = v
  touch-IsKeyed t (k ∷ ks) now pr v =
      touch-IsKeyed (touch_one now pr t k) ks now pr (touch_one-IsKeyed now pr t k v)

  -- On a tier whose entries stand under their own keys, an insertion takes the given bytes for a
  -- new key and none for a key that is there.
  pub occupancy-insert_entry :
      (t : TierPolicy) (key : Key) (nbytes : ℕ) (now : F) (pr : Probe)
      → IsKeyed t.entries
      → occupancy (insert_entry t key nbytes now pr)
        ≡ occupancy t + elim (lookup key t.entries) [ none ↦ nbytes | some e ↦ 0 ]
  unfolding insert_entry occupancy
  occupancy-insert_entry t key nbytes now pr v = elim (Option-cases (lookup key t.entries)) [
    | inl new ↦ rw (new) (omega (arith, sum_by-insert_absent (λ e. e.nbytes) key _ t.entries new))
    | inr (e, old) ↦
        rw (old) (omega (arith, sum_by-insert_same (λ e. e.nbytes) key _ t.entries old refl))
  ]

  occupancy-touch_one :
      (now : F) (pr : Probe) (t : TierPolicy) (key : Key)
      → occupancy (touch_one now pr t key) ≡ occupancy t
  unfolding touch_one occupancy
  occupancy-touch_one now pr t key = elim (Option-cases (lookup key t.entries)) [
    | inl new ↦ rw (new, touch_one) refl
    | inr (e, old) ↦
        rw (old, touch_one) (sum_by-insert_same (λ e. e.nbytes) key _ t.entries old refl)
  ]

  -- Touching keys leaves the tier's bytes as they were.
  pub occupancy-touch :
      (t : TierPolicy) (ks : List Key) (now : F) (pr : Probe)
      → occupancy (touch t ks now pr) ≡ occupancy t
  unfolding touch
  occupancy-touch t [] now pr = refl
  occupancy-touch t (k ∷ ks) now pr =
      occupancy-touch (touch_one now pr t k) ks now pr ∙ occupancy-touch_one now pr t k

  pub total-expire :
      (entries : Dict Key Entry) (now : F)
      → sum_by (λ e. e.nbytes) (values (expire entries now))
        ≤ sum_by (λ e. e.nbytes) (values entries)
  unfolding expire
  total-expire [] now = omega arith
  total-expire (x ∷ entries) now = ground (arith, total-expire entries now)

  pub erase_all-IsKeyed :
      (ks : List Key) (d : Dict Key Entry) → IsKeyed d → IsKeyed (erase_all ks d)
  unfolding erase_all
  erase_all-IsKeyed [] d v = v
  erase_all-IsKeyed (k ∷ ks) d v = erase_all-IsKeyed ks (erase k d) (erase-IsKeyed k d v)

  pub lookup-expire :
      (k : Key) (entries : Dict Key Entry) (now : F)
      → is_some (lookup k (expire entries now)) ≡ true
      → is_some (lookup k entries) ≡ true
  unfolding expire
  lookup-expire k entries now h = ground (
    arith,
    elem-keys k entries,
    elem-keys k (expire entries now),
    elem-keys-filter (λ x. not (fl.le x.1.expires_at now)) k entries,
  )

  pub is_some-insert_entry :
      (t : TierPolicy) (key : Key) (nbytes : ℕ) (now : F) (pr : Probe) (k : Key)
      → is_some (lookup k (insert_entry t key nbytes now pr).entries)
        ≡ ((key =? k) || is_some (lookup k t.entries))
  unfolding insert_entry
  is_some-insert_entry t key nbytes now pr k = elim (Option-cases (lookup key t.entries)) [
    | inl new ↦ rw (new, lookup-insert) (ground arith)
    | inr (e, old) ↦ rw (old, lookup-insert) (ground arith)
  ]

  pub is_some-touch_one :
      (now : F) (pr : Probe) (t : TierPolicy) (key k : Key)
      → is_some (lookup k (touch_one now pr t key).entries) ≡ is_some (lookup k t.entries)
  unfolding touch_one
  is_some-touch_one now pr t key k = elim (Option-cases (lookup key t.entries)) [
    | inl new ↦ rw (new, touch_one) refl
    | inr (e, old) ↦ rw (old, touch_one, lookup-insert) (ground (arith, =?_iff key k))
  ]
