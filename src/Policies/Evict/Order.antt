-- ===== src/Policies/Evict/Order.antt =====
-- The order of the policies that evict entry by entry.
use adaptive_context_residen.Common.{
  ℕ, ◌≡◌, refl, sym, ◌∙◌, ap, true, false, ◌||◌, some, List, [], ◌∷◌, ◌++◌, arith, if◌then◌else◌,
  ltb, ◌==◌, All, inl, inr, Bool-cases, ◌=?◌, =?_iff,
}
use adaptive_context_residen.Common.Dict.{Dict, lookup, elem, elem-keys}
use adaptive_context_residen.Common.Keys.{lex, lex-IsWeakOrder, IsWeakOrder-key, ltb-IsKeyOrder}
use adaptive_context_residen.Common.Sort.{
  sort, sum_by-sort, All-sort, IsSorted, sort-IsSorted, IsWeakOrder,
}
use adaptive_context_residen.Floats.{FloatOps}
use adaptive_context_residen.Floats.Order.{IsOrdered, lt-IsWeakOrder, lt-IsKeyOrder}
use adaptive_context_residen.Index.Defs.{Key, key_eq}
use adaptive_context_residen.Policies.Tier.{
  Entry, Kind, recency, frequency, oracle, fixed_ttl, continuum_ttl, adaptive_value,
}
use adaptive_context_residen.Policies.Take.{take_until, entry_keys}
use adaptive_context_residen.Policies.Take.Laws.{IsKeyed, Held, elem-count, Splits-take_until}
use adaptive_context_residen.Policies.Evict.{unprotected, before, evict_sorted}
use adaptive_context_residen.Policies.Evict.Freed.{count-unprotected, count-values}
use adaptive_context_residen.Policies.Evict.Sorted.{evicted, Held-unprotected, take_greedy-fst}

module _ ⦃fl : FloatOps⦄ where
  open fl use {F, neg, lt, eq}

  before-IsWeakOrder : IsOrdered fl → (kind : Kind) → IsWeakOrder (before kind)
  before-IsWeakOrder o recency = IsWeakOrder-key (λ e. e.last_touch) lt (lt-IsWeakOrder fl o)
  before-IsWeakOrder o (adaptive_value _ _ _) =
      IsWeakOrder-key (λ e. e.last_touch) lt (lt-IsWeakOrder fl o)
  before-IsWeakOrder o frequency =
      IsWeakOrder-key (λ e. (e.uses, e.last_touch)) (lex ltb ◌==◌ lt)
        (lex-IsWeakOrder ltb ◌==◌ lt ltb-IsKeyOrder (lt-IsWeakOrder fl o))
  before-IsWeakOrder o (fixed_ttl _ _) =
      IsWeakOrder-key (λ e. (e.expires_at, e.last_touch)) (lex lt eq lt)
        (lex-IsWeakOrder lt eq lt (lt-IsKeyOrder fl o) (lt-IsWeakOrder fl o))
  before-IsWeakOrder o (continuum_ttl _ _ _) =
      IsWeakOrder-key (λ e. (e.expires_at, e.last_touch)) (lex lt eq lt)
        (lex-IsWeakOrder lt eq lt (lt-IsKeyOrder fl o) (lt-IsWeakOrder fl o))
  before-IsWeakOrder o oracle =
      IsWeakOrder-key (λ e. (neg e.next_use, e.last_touch)) (lex lt eq lt)
        (lex-IsWeakOrder lt eq lt (lt-IsKeyOrder fl o) (lt-IsWeakOrder fl o))

  -- The entry of a list under a key.
  pick {κ} :
      (P : Entry → Type κ) (k : Key) (es : List Entry)
      → All P es
      → elem k (entry_keys es) ≡ true
      → (e : Entry) × (e.key ≡ k) × P e
  pick P k [] h m = absurd (ground arith)
  pick P k (e ∷ es) h m = elim (Bool-cases (e.key =? k)) [
    | inl here ↦ (e, (=?_iff e.key k).0 here, h.0)
    | inr there ↦ pick P k es h.1 (ground (arith, m, there))
  ]

  All-append_parts {κ} :
      (P : Entry → Type κ) (xs ys : List Entry) → All P (xs ++ ys) → All P xs × All P ys
  All-append_parts P [] ys h = (tt, h)
  All-append_parts P (x ∷ xs) ys h = let (hx, hy) = All-append_parts P xs ys h.1 in ((h.0, hx), hy)

  All-both {κ μ} :
      (P : Entry → Type κ) (Q : Entry → Type μ) (xs : List Entry)
      → All P xs
      → All Q xs
      → All (λ e. P e × Q e) xs
  All-both P Q [] h g = tt
  All-both P Q (x ∷ xs) h g = ((h.0, g.0), All-both P Q xs h.1 g.1)

  -- In a sorted list, nothing of the rest comes before anything of the first part.
  apart :
      (kind : Kind) (xs ys : List Entry)
      → IsSorted (before kind) (xs ++ ys)
      → All (λ x. All (λ y. before kind y x ≡ false) ys) xs
  apart kind [] ys h = tt
  apart kind (x ∷ xs) ys h =
      ((All-append_parts (λ y. before kind y x ≡ false) xs ys h.0).1, apart kind xs ys h.1)

  same_entry :
      (entries : Dict Key Entry) (a b : Entry)
      → Held entries a
      → Held entries b
      → a.key ≡ b.key
      → a ≡ b
  same_entry entries a b ha hb q =
      let e : some a ≡ some b = sym ha ∙ ap (λ k. lookup k entries) q ∙ hb in cc

  elem-entry_keys-append :
      (k : Key) (xs ys : List Entry)
      → elem k (entry_keys (xs ++ ys)) ≡ (elem k (entry_keys xs) || elem k (entry_keys ys))
  elem-entry_keys-append k [] ys = refl
  elem-entry_keys-append k (x ∷ xs) ys = ground (arith, elem-entry_keys-append k xs ys)

  module _ (o : IsOrdered fl) (kind : Kind) (needed : ℕ) (protected : List Key)
      (entries : Dict Key Entry) (valid : IsKeyed entries) where
    abbrev order : List Entry
    order = sort (before kind) (unprotected protected entries)

    abbrev taken : List Entry
    taken = take_until needed 0 order

    -- An unprotected entry of the tier is a candidate.
    elem-order :
        (s : Entry)
        → Held entries s
        → elem s.key protected ≡ false
        → elem s.key (entry_keys order) ≡ true
    elem-order s hs free = ground (
      arith,
      hs,
      elem-count s.key order,
      sum_by-sort (before kind) (λ e. if e.key =? s.key then 1 else 0)
          (unprotected protected entries),
      count-unprotected s.key protected entries,
      count-values s.key entries valid,
      elem-keys s.key entries,
    )

    -- With an ordered float, on a tier whose entries stand under their own keys, no unprotected
    -- entry that an entry-by-entry policy leaves comes before one that it takes, in the order of
    -- the policy's sort key.
    pub evict_sorted_order :
        (v s : Entry)
        → Held entries v
        → Held entries s
        → elem v.key (evicted (evict_sorted kind needed protected entries).0) ≡ true
        → elem s.key protected ≡ false
        → elem s.key (evicted (evict_sorted kind needed protected entries).0) ≡ false
        → before kind s v ≡ false
    unfolding evict_sorted
    evict_sorted_order v s hv hs tv free ns =
        let out = (take_greedy-fst kind needed protected entries taken refl).0 in
        let (rest, split, enough) = Splits-take_until needed 0 order in
        let held : All (Held entries) (taken ++ rest) = rw split at (
          All-sort (before kind) (Held entries) (unprotected protected entries)
            (Held-unprotected protected entries valid)) in
        let sorted : IsSorted (before kind) (taken ++ rest) = rw split at (
          sort-IsSorted (before kind) (before-IsWeakOrder o kind)
            (unprotected protected entries)) in
        let (taken_held, rest_held) = All-append_parts (Held entries) taken rest held in
        let (x, xv, (hx, below)) =
          pick (λ e. Held entries e × All (λ y. before kind y e ≡ false) rest) v.key taken
            (All-both (Held entries) (λ e. All (λ y. before kind y e ≡ false) rest) taken taken_held
              (apart kind taken rest sorted))
            (rw out at tv) in
        let left : elem s.key (entry_keys rest) ≡ true = ground (
          arith,
          rw out at ns,
          rw split at (elem-order s hs free),
          elem-entry_keys-append s.key taken rest,
        ) in
        let (y, ys, (hy, yx)) =
          pick (λ e. Held entries e × (before kind e x ≡ false)) s.key rest
            (All-both (Held entries) (λ e. before kind e x ≡ false) rest rest_held below) left in
        let same_v : x ≡ v = same_entry entries x v hx hv xv in
        let same_s : y ≡ s = same_entry entries y s hy hs ys in
        sym (λ i. before kind (same_s i) (same_v i)) ∙ yx
