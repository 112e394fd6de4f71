-- ===== src/Policies/Evict/Laws.antt =====
-- `evict` under every policy.
use adaptive_context_residen.Common.{ℕ, ◌+◌, ◌≤◌, ◌≡◌, true, is_some, List, arith, sum_by}
use adaptive_context_residen.Common.Dict.{Dict, lookup}
use adaptive_context_residen.Floats.{FloatOps}
use adaptive_context_residen.Index.Defs.{Key, key_eq}
use adaptive_context_residen.Policies.Probe.{Probe}
use adaptive_context_residen.Policies.Tier.{
  Entry, Kind, recency, frequency, oracle, fixed_ttl, continuum_ttl, adaptive_value, TierPolicy,
  occupancy,
}
use adaptive_context_residen.Policies.Take.{expire}
use adaptive_context_residen.Policies.Take.Laws.{IsKeyed}
use adaptive_context_residen.Policies.Laws.{expire-IsKeyed, total-expire, lookup-expire}
use adaptive_context_residen.Policies.Evict.{evict_entries, evict}
use adaptive_context_residen.Policies.Evict.Freed.{Freed, total, nbytes_at}
use adaptive_context_residen.Policies.Evict.Sorted.{
  evicted, evict_sorted-Freed, evict_sorted-IsKeyed,
}
use adaptive_context_residen.Policies.Evict.Chains.{evict_chains-Freed, evict_chains-IsKeyed}

module _ ⦃fl : FloatOps⦄ where
  open fl use {F}

  -- The entries that a policy keeps before it evicts: those with a time to live drop the expired ones.
  unfoldable pub unexpired : Kind → F → Dict Key Entry → Dict Key Entry
  unexpired recency now entries = entries
  unexpired frequency now entries = entries
  unexpired oracle now entries = entries
  unexpired (fixed_ttl _ _) now entries = expire entries now
  unexpired (continuum_ttl _ _ _) now entries = expire entries now
  unexpired (adaptive_value _ _ _) now entries = expire entries now

  pub unexpired-IsKeyed :
      (kind : Kind) (now : F) (entries : Dict Key Entry)
      → IsKeyed entries
      → IsKeyed (unexpired kind now entries)
  unfolding unexpired
  unexpired-IsKeyed recency now entries v = v
  unexpired-IsKeyed frequency now entries v = v
  unexpired-IsKeyed oracle now entries v = v
  unexpired-IsKeyed (fixed_ttl _ _) now entries v = expire-IsKeyed entries now v
  unexpired-IsKeyed (continuum_ttl _ _ _) now entries v = expire-IsKeyed entries now v
  unexpired-IsKeyed (adaptive_value _ _ _) now entries v = expire-IsKeyed entries now v

  total-unexpired :
      (kind : Kind) (now : F) (entries : Dict Key Entry)
      → total (unexpired kind now entries) ≤ total entries
  unfolding unexpired
  total-unexpired recency now entries = omega arith
  total-unexpired frequency now entries = omega arith
  total-unexpired oracle now entries = omega arith
  total-unexpired (fixed_ttl _ _) now entries = total-expire entries now
  total-unexpired (continuum_ttl _ _ _) now entries = total-expire entries now
  total-unexpired (adaptive_value _ _ _) now entries = total-expire entries now

  evict_entries-Freed :
      (kind : Kind) (needed : ℕ) (protected : List Key) (now : F) (pr : Probe)
      (entries : Dict Key Entry)
      → IsKeyed (unexpired kind now entries)
      → Freed
          (unexpired kind now entries)
          needed
          protected
          (evicted (evict_entries kind needed protected now pr entries).0)
          (evict_entries kind needed protected now pr entries).1
  unfolding unexpired evict_entries
  evict_entries-Freed recency needed protected now pr entries v =
      evict_sorted-Freed recency needed protected entries v
  evict_entries-Freed frequency needed protected now pr entries v =
      evict_sorted-Freed frequency needed protected entries v
  evict_entries-Freed oracle needed protected now pr entries v =
      evict_sorted-Freed oracle needed protected entries v
  evict_entries-Freed (fixed_ttl b g) needed protected now pr entries v =
      evict_sorted-Freed (fixed_ttl b g) needed protected (expire entries now) v
  evict_entries-Freed (continuum_ttl k l h) needed protected now pr entries v =
      evict_sorted-Freed (continuum_ttl k l h) needed protected (expire entries now) v
  evict_entries-Freed (adaptive_value l h p) needed protected now pr entries v =
      evict_chains-Freed h p needed protected now pr (expire entries now) v

  -- Under every policy, on a tier whose entries stand under their own keys, eviction takes
  -- different unprotected keys of the entries that have not expired (under a policy with times to
  -- live; else of all entries), leaves exactly the others of these entries as they were, accounts
  -- for the bytes, and takes the bytes asked for or leaves no unprotected entry.
  pub evict-Freed :
      (t : TierPolicy) (needed : ℕ) (protected : List Key) (now : F) (pr : Probe)
      → IsKeyed t.entries
      → Freed
          (unexpired t.kind now t.entries)
          needed
          protected
          (evicted (evict t needed protected now pr).0)
          (evict t needed protected now pr).1.entries
  unfolding evict
  evict-Freed t needed protected now pr v =
      evict_entries-Freed t.kind needed protected now pr t.entries
        (unexpired-IsKeyed t.kind now t.entries v)

  evict_entries-IsKeyed :
      (kind : Kind) (needed : ℕ) (protected : List Key) (now : F) (pr : Probe)
      (entries : Dict Key Entry)
      → IsKeyed (unexpired kind now entries)
      → IsKeyed (evict_entries kind needed protected now pr entries).1
  unfolding unexpired evict_entries
  evict_entries-IsKeyed recency needed protected now pr entries v =
      evict_sorted-IsKeyed recency needed protected entries v
  evict_entries-IsKeyed frequency needed protected now pr entries v =
      evict_sorted-IsKeyed frequency needed protected entries v
  evict_entries-IsKeyed oracle needed protected now pr entries v =
      evict_sorted-IsKeyed oracle needed protected entries v
  evict_entries-IsKeyed (fixed_ttl b g) needed protected now pr entries v =
      evict_sorted-IsKeyed (fixed_ttl b g) needed protected (expire entries now) v
  evict_entries-IsKeyed (continuum_ttl k l h) needed protected now pr entries v =
      evict_sorted-IsKeyed (continuum_ttl k l h) needed protected (expire entries now) v
  evict_entries-IsKeyed (adaptive_value l h p) needed protected now pr entries v =
      evict_chains-IsKeyed h p needed protected now pr (expire entries now) v

  pub evict-IsKeyed :
      (t : TierPolicy) (needed : ℕ) (protected : List Key) (now : F) (pr : Probe)
      → IsKeyed t.entries
      → IsKeyed (evict t needed protected now pr).1.entries
  unfolding evict
  evict-IsKeyed t needed protected now pr v =
      evict_entries-IsKeyed t.kind needed protected now pr t.entries
        (unexpired-IsKeyed t.kind now t.entries v)

  -- Under every policy, on a tier whose entries stand under their own keys, the bytes of the
  -- evicted entries and of those that stay are at most the bytes before.
  pub occupancy-evict :
      (t : TierPolicy) (needed : ℕ) (protected : List Key) (now : F) (pr : Probe)
      → IsKeyed t.entries
      → occupancy (evict t needed protected now pr).1
          + sum_by
              (nbytes_at (unexpired t.kind now t.entries))
              (evicted (evict t needed protected now pr).0)
        ≤ occupancy t
  unfolding occupancy
  occupancy-evict t needed protected now pr v = omega (
    arith,
    (evict-Freed t needed protected now pr v).accounted,
    total-unexpired t.kind now t.entries,
  )

  pub lookup-unexpired :
      (kind : Kind) (now : F) (k : Key) (entries : Dict Key Entry)
      → is_some (lookup k (unexpired kind now entries)) ≡ true
      → is_some (lookup k entries) ≡ true
  unfolding unexpired
  lookup-unexpired recency now k entries h = h
  lookup-unexpired frequency now k entries h = h
  lookup-unexpired oracle now k entries h = h
  lookup-unexpired (fixed_ttl _ _) now k entries h = lookup-expire k entries now h
  lookup-unexpired (continuum_ttl _ _ _) now k entries h = lookup-expire k entries now h
  lookup-unexpired (adaptive_value _ _ _) now k entries h = lookup-expire k entries now h
