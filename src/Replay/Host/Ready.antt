-- ===== src/Replay/Host/Ready.antt =====
-- The consistency of the tier with the index under the operations of a turn.
use adaptive_context_residen.Common.{
  ℕ, ◌-◌, ◌≡◌, sym, ◌∙◌, inl, inr, true, is_some, List, [], ◌∷◌, arith, ltb, =?_iff, =?_refl,
  Bool-cases, Option-cases,
}
use adaptive_context_residen.Common.Dict.{Dict, keys, lookup, elem, lookup-insert}
use adaptive_context_residen.Floats.{FloatOps}
use adaptive_context_residen.Index.Defs.{Key, key_eq, BlockInfo}
use adaptive_context_residen.Policies.Probe.{Probe}
use adaptive_context_residen.Policies.Tier.{TierPolicy, insert_entry, touch_one, touch}
use adaptive_context_residen.Policies.Take.Laws.{IsKeyed}
use adaptive_context_residen.Policies.Laws.{
  own-lookup, insert-IsKeyed, insert_entry-IsKeyed, touch_one-IsKeyed, is_some-insert_entry,
  is_some-touch_one,
}
use adaptive_context_residen.Policies.Evict.{evict}
use adaptive_context_residen.Policies.Evict.Sorted.{evicted}
use adaptive_context_residen.Policies.Evict.Laws.{evict-Freed, evict-IsKeyed, lookup-unexpired}
use adaptive_context_residen.Replay.Host.{
  is_oracle, set_next_use, next_access, refresh_oracle, Host, store_one, store_prefix,
}

module _ ⦃fl : FloatOps⦄ where
  open fl use {F}

  -- The entries stand under their own keys, and the index knows their blocks.
  pub record IsReady (blocks : Dict Key BlockInfo) (t : TierPolicy) : Type 0 where
    pub keyed : IsKeyed t.entries
    pub known : (k : Key) → is_some (lookup k t.entries) ≡ true → is_some (lookup k blocks) ≡ true

  insert_entry-IsReady :
      (blocks : Dict Key BlockInfo) (t : TierPolicy) (key : Key) (nbytes : ℕ) (now : F) (pr : Probe)
      → is_some (lookup key blocks) ≡ true
      → IsReady blocks t
      → IsReady blocks (insert_entry t key nbytes now pr)
  insert_entry-IsReady blocks t key nbytes now pr there r = record {
    keyed = insert_entry-IsKeyed t key nbytes now pr r.keyed;
    known =
        λ k h. ground (arith, r.known k, =?_iff key k, is_some-insert_entry t key nbytes now pr k);
  }

  touch_one-IsReady :
      (blocks : Dict Key BlockInfo) (now : F) (pr : Probe) (t : TierPolicy) (key : Key)
      → IsReady blocks t
      → IsReady blocks (touch_one now pr t key)
  touch_one-IsReady blocks now pr t key r = record {
    keyed = touch_one-IsKeyed now pr t key r.keyed;
    known = λ k h. r.known k (sym (is_some-touch_one now pr t key k) ∙ h);
  }

  pub touch-IsReady :
      (blocks : Dict Key BlockInfo) (t : TierPolicy) (ks : List Key) (now : F) (pr : Probe)
      → IsReady blocks t
      → IsReady blocks (touch t ks now pr)
  unfolding touch
  touch-IsReady blocks t [] now pr r = r
  touch-IsReady blocks t (k ∷ ks) now pr r =
      touch-IsReady blocks (touch_one now pr t k) ks now pr (touch_one-IsReady blocks now pr t k r)

  pub set_next_use-IsReady :
      (blocks : Dict Key BlockInfo) (sched : Dict Key (List F)) (now : F) (t : TierPolicy)
      (key : Key)
      → IsReady blocks t
      → IsReady blocks (set_next_use sched now t key)
  unfolding set_next_use
  set_next_use-IsReady blocks sched now t key r = elim (Option-cases (lookup key t.entries)) [
    | inl new ↦ rw (new, set_next_use) r
    | inr (e, old) ↦
        rw (old, set_next_use)
          (record {
            keyed =
                insert-IsKeyed key _ t.entries (own-lookup key t.entries {e = e} r.keyed.own old)
                  r.keyed;
            known = λ k h. ground (
              arith,
              r.known k,
              =?_iff key k,
              lookup-insert key k (record e { next_use = next_access sched now key }) t.entries,
            );
          })
  ]

  pub refresh_oracle-IsReady :
      (blocks : Dict Key BlockInfo) (sched : Dict Key (List F)) (now : F) (t : TierPolicy)
      (ks : List Key)
      → IsReady blocks t
      → IsReady blocks (refresh_oracle sched now t ks)
  unfolding refresh_oracle
  refresh_oracle-IsReady blocks sched now t [] r = r
  refresh_oracle-IsReady blocks sched now t (k ∷ ks) r =
      refresh_oracle-IsReady blocks sched now (set_next_use sched now t k) ks
        (set_next_use-IsReady blocks sched now t k r)

  pub evict-IsReady :
      (blocks : Dict Key BlockInfo) (t : TierPolicy) (needed : ℕ) (protected : List Key) (now : F)
      (pr : Probe)
      → IsReady blocks t
      → IsReady blocks (evict t needed protected now pr).1
  evict-IsReady blocks t needed protected now pr r = record {
    keyed = evict-IsKeyed t needed protected now pr r.keyed;
    known = λ k h. ground (
      arith,
      h,
      r.known k,
      (evict-Freed t needed protected now pr r.keyed).kept k,
      lookup-unexpired t.kind now k t.entries,
    );
  }

  pub evicted-known :
      (blocks : Dict Key BlockInfo) (t : TierPolicy) (needed : ℕ) (protected : List Key) (now : F)
      (pr : Probe) (k : Key)
      → IsReady blocks t
      → elem k (evicted (evict t needed protected now pr).0) ≡ true
      → is_some (lookup k blocks) ≡ true
  evicted-known blocks t needed protected now pr k r h = r.known k (
      lookup-unexpired t.kind now k t.entries
        ((evict-Freed t needed protected now pr r.keyed).spared k h).1)

  pub store_one-IsReady :
      (blocks : Dict Key BlockInfo) (sched : Dict Key (List F)) (now : F) (pr : Probe) (h : Host)
      (key : Key) (nbytes : ℕ)
      → is_some (lookup key blocks) ≡ true
      → IsReady blocks h.policy
      → IsReady blocks (store_one sched now pr h key nbytes).policy
  unfolding store_one
  store_one-IsReady blocks sched now pr h key nbytes there r =
      let t = insert_entry h.policy key nbytes now pr in
      let next = insert_entry-IsReady blocks h.policy key nbytes now pr there r in
      elim (Bool-cases (is_oracle t.kind)) [
        | inl by_oracle ↦ rw by_oracle (set_next_use-IsReady blocks sched now t key next)
        | inr other ↦ rw other next
      ]

  pub store_prefix-IsReady :
      (blocks : Dict Key BlockInfo) (sched : Dict Key (List F)) (now : F) (pr : Probe) (room : ℕ)
      (fresh : List (Key × ℕ)) (h : Host)
      → ((k : Key) → elem k (keys fresh) ≡ true → is_some (lookup k blocks) ≡ true)
      → IsReady blocks h.policy
      → IsReady blocks (store_prefix sched now pr room fresh h).policy
  unfolding store_prefix
  store_prefix-IsReady blocks sched now pr room [] h there r = r
  store_prefix-IsReady blocks sched now pr room ((key, nbytes) ∷ fresh) h there r =
      let rest =
        store_prefix-IsReady blocks sched now pr (room - nbytes) fresh
          (store_one sched now pr h key nbytes) (λ k m. there k (ground (arith, m)))
          (store_one-IsReady blocks sched now pr h key nbytes
            (there key (ground (arith, =?_refl key))) r) in
      elim (Bool-cases (ltb room nbytes)) [ inl full ↦ rw full r | inr fits ↦ rw fits rest ]
