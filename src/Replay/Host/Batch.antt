-- ===== src/Replay/Host/Batch.antt =====
-- `_store_batch_to_host` as a whole.
use adaptive_context_residen.Common.{
  ℕ, ◌+◌, ◌-◌, ◌≤◌, max, ◌≡◌, refl, sym, ◌∙◌, ap, inl, inr, true, false, not, none, some, is_some,
  List, [], ◌∷◌, arith, ltb, sum_by, =?_refl, Bool-cases, Option-cases,
}
use adaptive_context_residen.Common.Dict.{Dict, keys, lookup, elem, elem-filter, Distinct}
use adaptive_context_residen.Common.Result.{Result, ok}
use adaptive_context_residen.Floats.{FloatOps}
use adaptive_context_residen.Index.Defs.{Key, key_eq, BlockInfo}
use adaptive_context_residen.Policies.Probe.{Probe}
use adaptive_context_residen.Policies.Tier.{Entry, get, occupancy}
use adaptive_context_residen.Policies.Evict.{evict}
use adaptive_context_residen.Policies.Evict.Freed.{nbytes_at}
use adaptive_context_residen.Policies.Evict.Sorted.{evicted}
use adaptive_context_residen.Policies.Evict.Laws.{
  unexpired, occupancy-evict, evict-Freed, lookup-unexpired,
}
use adaptive_context_residen.Policies.Raises.Never.{IsSound, admit-NeverRaises, evict-NeverRaises}
use adaptive_context_residen.Replay.Host.{
  Host, store_prefix, missing, room_of, store_admitted, store_batch_to_host, left_host,
}
use adaptive_context_residen.Replay.Host.Ready.{
  IsReady, store_prefix-IsReady, evict-IsReady, evicted-known,
}
use adaptive_context_residen.Replay.Host.Store.{
  size_at, Sizes, Sizes-total, admit_chain-cases, occupancy-store_prefix, left_host_at-store_prefix,
  there-store_prefix, store-NeverRaises,
}

module _ ⦃fl : FloatOps⦄ where
  open fl use {F}

  -- What a batch leaves: the tier's entries are ready, and the tier is no fuller than its capacity or
  -- than before, but for what the evicted blocks have grown since they were stored.
  pub record Batch (capacity : ℕ) (clock now : F) (blocks : Dict Key BlockInfo) (h h' : Host)
      : Type 0 where
    pub ready : IsReady blocks h'.policy
    -- The evicted blocks: different keys, each recorded as having left now. They were in the tier and
    -- had not expired, and every other unexpired entry is still there.
    pub freed : List Key
    pub distinct : Distinct freed
    pub recorded : h'.left_host_at ≡ left_host clock freed h.left_host_at
    pub held :
        (k : Key)
        → elem k freed ≡ true
        → is_some (lookup k (unexpired h.policy.kind now h.policy.entries)) ≡ true
    pub kept :
        (k : Key)
        → elem k freed ≡ false
        → is_some (lookup k (unexpired h.policy.kind now h.policy.entries)) ≡ true
        → is_some (lookup k h'.policy.entries) ≡ true
    pub bound :
        occupancy h'.policy
          + sum_by (nbytes_at (unexpired h.policy.kind now h.policy.entries)) freed
        ≤ max capacity (occupancy h.policy) + sum_by (size_at blocks) freed

  module _ (capacity : ℕ) (sched : Dict Key (List F)) (now : F) (pr : Probe) (h : Host)
      (sound : IsSound pr) (r : IsReady pr.index.blocks h.policy) where
    abbrev blocks : Dict Key BlockInfo
    blocks = pr.index.blocks

    -- An unexpired entry that eviction does not take is still there.
    still-evict :
        (fresh : List (Key × ℕ)) (needed : ℕ) (k : Key)
        → elem k (evicted (evict h.policy needed (keys fresh) now pr).0) ≡ false
        → is_some (lookup k (unexpired h.policy.kind now h.policy.entries)) ≡ true
        → is_some (lookup k (evict h.policy needed (keys fresh) now pr).1.entries) ≡ true
    still-evict fresh needed k m x =
        ground (arith, (evict-Freed h.policy needed (keys fresh) now pr r.keyed).kept k)

    -- The batch `fresh` is stored after an eviction.
    store_evicted :
        (fresh : List (Key × ℕ)) (freed : List Key) (needed : ℕ)
        → (evict h.policy needed (keys fresh) now pr).0 ≡ some freed
        → ((k : Key) → elem k (keys fresh) ≡ true → is_some (lookup k blocks) ≡ true)
        → (s : Sizes freed blocks) × Batch capacity pr.now now blocks h (
            store_prefix sched now pr
              (room_of capacity h.policy + sum_by (λ y. y.1) s.out)
              fresh
              (record h {
                policy = (evict h.policy needed (keys fresh) now pr).1;
                left_host_at = left_host pr.now freed h.left_host_at;
              }))
    unfolding room_of
    store_evicted fresh freed needed e there =
        let s : Sizes freed blocks = Sizes-total freed blocks (λ k m.
          evicted-known blocks h.policy needed (keys fresh) now pr k r
            (ap (λ o. elem k (evicted o)) e ∙ m)) in
        let h' : Host = record h {
          policy = (evict h.policy needed (keys fresh) now pr).1;
          left_host_at = left_host pr.now freed h.left_host_at;
        } in
        let r' = evict-IsReady blocks h.policy needed (keys fresh) now pr r in
        (
          s,
          record {
            ready = store_prefix-IsReady blocks sched now pr _ fresh h' there r';
            freed = freed;
            distinct = rw e at (evict-Freed h.policy needed (keys fresh) now pr r.keyed).distinct;
            recorded = left_host_at-store_prefix sched now pr _ fresh h';
            kept = λ k m x.
                there-store_prefix sched now pr _ fresh h' k
                  (still-evict fresh needed k (ap (λ o. elem k (evicted o)) e ∙ m) x);
            held = λ k m.
                ((evict-Freed h.policy needed (keys fresh) now pr r.keyed).spared k
                  (ap (λ o. elem k (evicted o)) e ∙ m)).1;
            bound = omega (
              arith,
              occupancy-store_prefix blocks sched now pr
                  (room_of capacity h.policy + sum_by (λ y. y.1) s.out) fresh h' there r',
              rw e at (occupancy-evict h.policy needed (keys fresh) now pr r.keyed),
              s.weigh,
            );
          },
        )

    -- Without an eviction that frees anything, the tier keeps to what is free.
    unevicted :
        (fresh : List (Key × ℕ))
        → ((k : Key) → elem k (keys fresh) ≡ true → is_some (lookup k blocks) ≡ true)
        → Batch capacity pr.now now blocks h
            (store_prefix sched now pr (room_of capacity h.policy) fresh h)
    unfolding room_of left_host
    unevicted fresh there = record {
      ready = store_prefix-IsReady blocks sched now pr _ fresh h there r;
      freed = [];
      distinct = tt;
      recorded = left_host_at-store_prefix sched now pr _ fresh h;
      held = λ k m. absurd (ground arith);
      kept = λ k m x.
          there-store_prefix sched now pr _ fresh h k
            (lookup-unexpired h.policy.kind now k h.policy.entries x);
      bound = omega (
        arith,
        occupancy-store_prefix blocks sched now pr (room_of capacity h.policy) fresh h there r,
      );
    }

    only_expired :
        (fresh : List (Key × ℕ)) (needed : ℕ)
        → (evict h.policy needed (keys fresh) now pr).0 ≡ none
        → Batch capacity pr.now now blocks h
            (record h { policy = (evict h.policy needed (keys fresh) now pr).1 })
    unfolding left_host
    only_expired fresh needed nothing = record {
      ready = evict-IsReady blocks h.policy needed (keys fresh) now pr r;
      freed = [];
      distinct = tt;
      recorded = refl;
      kept = λ k m x. still-evict fresh needed k (ap (λ o. elem k (evicted o)) nothing) x;
      held = λ k m. absurd (ground arith);
      bound = omega (arith, occupancy-evict h.policy needed (keys fresh) now pr r.keyed);
    }

    -- The state after a call that does not raise.
    abbrev pub Stored : Result Host → Type 0
    Stored result = (h' : Host) × (result ≡ ok h') × Batch capacity pr.now now blocks h h'

    store_admitted-Stored :
        (fresh : List (Key × ℕ))
        → ((k : Key) → elem k (keys fresh) ≡ true → is_some (lookup k blocks) ≡ true)
        → Stored (store_admitted capacity sched now pr fresh h)
    unfolding store_admitted left_host
    store_admitted-Stored [] there = (
      h,
      refl,
      record {
        ready = r;
        freed = [];
        distinct = tt;
        recorded = refl;
        held = λ k m. absurd (ground arith);
        kept = λ k m x. lookup-unexpired h.policy.kind now k h.policy.entries x;
        bound = omega arith;
      },
    )
    store_admitted-Stored (x ∷ xs) there =
        let fresh = x ∷ xs in
        let needed = sum_by (λ y. y.1) fresh - room_of capacity h.policy in
        let quiet = evict-NeverRaises h.policy.kind (keys fresh) now pr h.policy.entries sound in
        elim (Bool-cases (ltb (room_of capacity h.policy) (sum_by (λ y. y.1) fresh))) [
          | inr enough ↦
              rw
                (
                  enough,
                  store-NeverRaises h.policy.kind pr (room_of capacity h.policy) fresh sound,
                  store_admitted,
                )
                (_, refl, unevicted fresh there)
          | inl lacking ↦ elim (Option-cases (evict h.policy needed (keys fresh) now pr).0) [
            | inl nothing ↦
                rw (lacking, quiet, nothing, store_admitted)
                  (_, refl, only_expired fresh needed nothing)
            | inr (freed, e) ↦
                let (s, batch) = store_evicted fresh freed needed e there in
                rw
                  (
                    lacking,
                    quiet,
                    e,
                    s.read,
                    store-NeverRaises h.policy.kind pr
                        (room_of capacity h.policy + sum_by (λ y. y.1) s.out) fresh sound,
                    store_admitted,
                  )
                  (_, refl, batch)
          ]
        ]

    missing-known :
        (ks : List Key)
        → ((k : Key) → elem k ks ≡ true → is_some (lookup k blocks) ≡ true)
        → (k : Key) → elem k (missing h.policy ks) ≡ true
        → is_some (lookup k blocks) ≡ true
    unfolding missing
    missing-known ks there k m =
        there k (ground (arith, m, elem-filter k (λ j. not (is_some (get h.policy j))) ks))

    -- If the tier holds blocks of the index under their own keys, the index knows the path's keys,
    -- leases agree with paths, and no rate that the policy divides by is zero, storing the path
    -- does not raise and leaves such a tier. The evicted keys are different, were in the tier
    -- unexpired, and are recorded as having left now; every other unexpired entry is still in the
    -- tier. The tier's bytes afterwards and those of the evicted entries are at most the larger of
    -- the capacity and the bytes before, and the sizes that the index has of the evicted blocks.
    pub store_batch_to_host-Stored :
        (ks : List Key)
        → ((k : Key) → elem k ks ≡ true → is_some (lookup k blocks) ≡ true)
        → Stored (store_batch_to_host capacity sched now pr ks h)
    unfolding store_batch_to_host
    store_batch_to_host-Stored ks there =
        let s : Sizes (missing h.policy ks) blocks =
          Sizes-total (missing h.policy ks) blocks (missing-known ks there) in
        let quiet = admit-NeverRaises h.policy.kind h.policy s.out pr sound in
        elim (admit_chain-cases h.policy s.out pr) [
          | inl whole ↦
              rw (s.read, quiet, whole, store_batch_to_host)
                (store_admitted-Stored s.out
                  (λ k m. missing-known ks there k (ap (elem k) (sym s.same) ∙ m)))
          | inr refused ↦
              rw (s.read, quiet, refused, store_batch_to_host)
                (store_admitted-Stored [] (λ k m. absurd (ground arith)))
        ]

    sum_by-le :
        (f g : Key → ℕ) (ks : List Key)
        → ((k : Key) → elem k ks ≡ true → f k ≤ g k)
        → sum_by f ks ≤ sum_by g ks
    sum_by-le f g [] below = omega arith
    sum_by-le f g (k ∷ ks) below = omega (
      arith,
      below k (ground (arith, =?_refl k)),
      sum_by-le f g ks (λ j m. below j (ground (arith, m))),
    )

    -- The entries that the policy may still evict.
    abbrev pub live_entries : Dict Key Entry
    live_entries = unexpired h.policy.kind now h.policy.entries

    -- If the tier holds blocks of the index under their own keys, the index knows the path's keys,
    -- leases agree with paths, no rate that the policy divides by is zero, and no unexpired entry
    -- of the tier is smaller than its block in the index, storing the path does not raise and
    -- leaves the tier no fuller than its capacity or than it was before.
    pub occupancy-store_batch_to_host :
        (ks : List Key)
        → ((k : Key) → elem k ks ≡ true → is_some (lookup k blocks) ≡ true)
        → ((k : Key)
            → is_some (lookup k live_entries) ≡ true
            → size_at blocks k ≤ nbytes_at live_entries k)
        → (h' : Host) × (store_batch_to_host capacity sched now pr ks h ≡ ok h')
          × (occupancy h'.policy ≤ max capacity (occupancy h.policy))
    occupancy-store_batch_to_host ks there ungrown =
        let (h', e, batch) = store_batch_to_host-Stored ks there in
        let small =
          sum_by-le (size_at blocks) (nbytes_at live_entries) batch.freed
            (λ k m. ungrown k (batch.held k m)) in
        (h', e, omega (arith, batch.bound, small))
