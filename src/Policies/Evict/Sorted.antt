-- ===== src/Policies/Evict/Sorted.antt =====
-- The policies that evict entry by entry in a sorted order.
use adaptive_context_residen.Common.{
  ℕ, ◌≡◌, refl, Option, none, some, List, [], ◌∷◌, arith, if◌then◌else◌, All, All-filter, ◌=?◌,
}
use adaptive_context_residen.Common.Dict.{Dict, values}
use adaptive_context_residen.Common.Sort.{sort, sum_by-sort, All-sort}
use adaptive_context_residen.Floats.{FloatOps}
use adaptive_context_residen.Index.Defs.{Key, key_eq}
use adaptive_context_residen.Policies.Tier.{Entry, Kind}
use adaptive_context_residen.Policies.Take.{erase_all, take_until, entry_keys, take_greedy}
use adaptive_context_residen.Policies.Take.Laws.{IsKeyed, Held, Splits, Splits-take_until}
use adaptive_context_residen.Policies.Laws.{erase_all-IsKeyed}
use adaptive_context_residen.Policies.Evict.{unprotected, before, evict_sorted}
use adaptive_context_residen.Policies.Evict.Freed.{Freed, Freed-Splits, Held-values}

module _ ⦃fl : FloatOps⦄ where
  open fl use {F}

  -- The evicted keys; `None` evicts nothing.
  abbrev pub evicted : Option (List Key) → List Key
  evicted none = []
  evicted (some ks) = ks

  pub Held-unprotected :
      (protected : List Key) (entries : Dict Key Entry)
      → IsKeyed entries
      → All (Held entries) (unprotected protected entries)
  unfolding unprotected
  Held-unprotected protected entries v =
      All-filter (Held entries) _ (values entries) (Held-values entries v)

  module _ (kind : Kind) (needed : ℕ) (protected : List Key) (entries : Dict Key Entry) where
    abbrev order : List Entry
    order = sort (before kind) (unprotected protected entries)

    pub take_greedy-fst :
        (taken : List Entry)
        → take_until needed 0 order ≡ taken
        → (evicted (take_greedy order needed entries).0 ≡ entry_keys taken)
          × ((take_greedy order needed entries).1 ≡ erase_all (entry_keys taken) entries)
    unfolding take_greedy
    take_greedy-fst [] h = ground arith
    take_greedy-fst (e ∷ es) h = ground arith

    Splits-order : Splits needed order (take_until needed 0 order)
    Splits-order =
        let (rest, split, enough) = Splits-take_until needed 0 order in
        record { rest = rest; split = split; enough = ground (arith, enough) }

    pub evict_sorted-Freed :
        IsKeyed entries
        → Freed entries needed protected
            (evicted (evict_sorted kind needed protected entries).0)
            (evict_sorted kind needed protected entries).1
    unfolding evict_sorted
    evict_sorted-Freed v =
        let (out, left) = take_greedy-fst (take_until needed 0 order) refl in
        rw (out, left)
          (Freed-Splits entries v protected needed order (take_until needed 0 order)
            (All-sort (before kind) (Held entries) (unprotected protected entries)
              (Held-unprotected protected entries v))
            (λ k.
              sum_by-sort (before kind) (λ e. if e.key =? k then 1 else 0)
                (unprotected protected entries))
            Splits-order)

    pub evict_sorted-IsKeyed :
        IsKeyed entries → IsKeyed (evict_sorted kind needed protected entries).1
    unfolding evict_sorted
    evict_sorted-IsKeyed v =
        rw ((take_greedy-fst (take_until needed 0 order) refl).1)
          (erase_all-IsKeyed (entry_keys (take_until needed 0 order)) entries v)
