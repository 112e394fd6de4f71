-- ===== src/Replay/Host/Store.antt =====
-- The parts of `_store_batch_to_host`: the sizes that it reads, admission, and the stored prefix.
use adaptive_context_residen.Common.{
  ℕ, String, ◌+◌, ◌-◌, ◌≤◌, ◌≡◌, refl, ◌∙◌, ap, ◌⊎◌, inl, inr, true, false, none, some, is_some,
  List, [], ◌∷◌, arith, map, ltb, sum_by, All, =?_refl, Bool-cases, Option-cases,
}
use adaptive_context_residen.Common.Dict.{
  Dict, keys, lookup, elem, sum_by-insert_same, lookup-insert,
}
use adaptive_context_residen.Common.Result.{ok}
use adaptive_context_residen.Common.Select.{items_at_total}
use adaptive_context_residen.Floats.{FloatOps}
use adaptive_context_residen.Index.Defs.{Key, key_eq, BlockInfo}
use adaptive_context_residen.Policies.Probe.{Probe}
use adaptive_context_residen.Policies.Tier.{
  Kind, recency, frequency, oracle, fixed_ttl, continuum_ttl, adaptive_value, TierPolicy, occupancy,
  insert_entry,
}
use adaptive_context_residen.Policies.Laws.{occupancy-insert_entry, is_some-insert_entry}
use adaptive_context_residen.Policies.Adaptive.{admit_chain as admit_adaptive}
use adaptive_context_residen.Policies.Evict.{admit_chain, admit_by}
use adaptive_context_residen.Policies.Raises.Never.{IsSound, expiry-NeverRaises}
use adaptive_context_residen.Replay.Host.{
  set_next_use, next_access, is_oracle, Host, store_one, store_prefix, store_raises, sizes,
}
use adaptive_context_residen.Replay.Host.Ready.{IsReady, store_one-IsReady}

module _ ⦃fl : FloatOps⦄ where
  open fl use {F}

  -- The size that the index knows of a block.
  unfoldable pub size_at : Dict Key BlockInfo → Key → ℕ
  size_at blocks k = elim (lookup k blocks) [ none ↦ 0 | some info ↦ info.nbytes ]

  -- What `sizes` reads.
  pub record Sizes (ks : List Key) (blocks : Dict Key BlockInfo) : Type 0 where
    pub out : List (Key × ℕ)
    pub read : sizes ks blocks ≡ ok out
    pub same : keys out ≡ ks
    pub weigh : sum_by (λ y. y.1) out ≡ sum_by (size_at blocks) ks

  abbrev weigh_all : Dict Key BlockInfo → List (Key × ℕ)
  weigh_all = map (λ x. (x.0, x.1.nbytes))

  keys-weigh_all : (infos : Dict Key BlockInfo) → keys (weigh_all infos) ≡ keys infos
  keys-weigh_all [] = refl
  keys-weigh_all (x ∷ infos) = ap (◌∷◌ x.0) (keys-weigh_all infos)

  sum-weigh_all :
      (blocks infos : Dict Key BlockInfo)
      → All (λ x. lookup x.0 blocks ≡ some x.1) infos
      → sum_by (λ y. y.1) (weigh_all infos) ≡ sum_by (size_at blocks) (keys infos)
  unfolding size_at
  sum-weigh_all blocks [] h = refl
  sum-weigh_all blocks (x ∷ infos) h = ground (arith, h.0, sum-weigh_all blocks infos h.1)

  pub Sizes-total :
      (ks : List Key) (blocks : Dict Key BlockInfo)
      → ((k : Key) → elem k ks ≡ true → is_some (lookup k blocks) ≡ true)
      → Sizes ks blocks
  unfolding sizes
  Sizes-total ks blocks there =
      let (infos, read, same, held) = items_at_total ks blocks there in
      record {
        out = weigh_all infos;
        read = rw read refl;
        same = keys-weigh_all infos ∙ same;
        weigh = sum-weigh_all blocks infos held ∙ ap (sum_by (size_at blocks)) same;
      }

  admit_adaptive-cases :
      (horizon_s : F) (priors : Dict String F) (t : TierPolicy) (items : List (Key × ℕ))
      (pr : Probe)
      → (admit_adaptive horizon_s priors t items pr ≡ items)
        ⊎ (admit_adaptive horizon_s priors t items pr ≡ [])
  unfolding admit_adaptive
  admit_adaptive-cases horizon_s priors t [] pr = inl refl
  admit_adaptive-cases horizon_s priors t (x ∷ xs) pr = ground arith

  admit_by-cases :
      (kind : Kind) (t : TierPolicy) (items : List (Key × ℕ)) (pr : Probe)
      → (admit_by kind t items pr ≡ items) ⊎ (admit_by kind t items pr ≡ [])
  admit_by-cases recency t items pr = inl refl
  admit_by-cases frequency t items pr = inl refl
  admit_by-cases oracle t items pr = inl refl
  admit_by-cases (fixed_ttl _ _) t items pr = inl refl
  admit_by-cases (continuum_ttl _ _ _) t items pr = inl refl
  admit_by-cases (adaptive_value l horizon_s priors) t items pr =
      admit_adaptive-cases horizon_s priors t items pr

  pub admit_chain-cases :
      (t : TierPolicy) (items : List (Key × ℕ)) (pr : Probe)
      → (admit_chain t items pr ≡ items) ⊎ (admit_chain t items pr ≡ [])
  unfolding admit_chain
  admit_chain-cases t items pr = admit_by-cases t.kind t items pr

  occupancy-set_next_use :
      (sched : Dict Key (List F)) (now : F) (t : TierPolicy) (key : Key)
      → occupancy (set_next_use sched now t key) ≡ occupancy t
  unfolding set_next_use occupancy
  occupancy-set_next_use sched now t key = elim (Option-cases (lookup key t.entries)) [
    | inl new ↦ rw (new, set_next_use) refl
    | inr (e, old) ↦
        rw (old, set_next_use) (sum_by-insert_same (λ e. e.nbytes) key _ t.entries old refl)
  ]

  occupancy-store_one :
      (blocks : Dict Key BlockInfo) (sched : Dict Key (List F)) (now : F) (pr : Probe) (h : Host)
      (key : Key) (nbytes : ℕ)
      → IsReady blocks h.policy
      → occupancy (store_one sched now pr h key nbytes).policy ≤ occupancy h.policy + nbytes
  unfolding store_one
  occupancy-store_one blocks sched now pr h key nbytes r = ground (
    arith,
    occupancy-set_next_use sched now (insert_entry h.policy key nbytes now pr) key,
    occupancy-insert_entry h.policy key nbytes now pr r.keyed,
  )

  -- The stored blocks fit into the room.
  pub occupancy-store_prefix :
      (blocks : Dict Key BlockInfo) (sched : Dict Key (List F)) (now : F) (pr : Probe) (room : ℕ)
      (fresh : List (Key × ℕ)) (h : Host)
      → ((k : Key) → elem k (keys fresh) ≡ true → is_some (lookup k blocks) ≡ true)
      → IsReady blocks h.policy
      → occupancy (store_prefix sched now pr room fresh h).policy ≤ occupancy h.policy + room
  unfolding store_prefix
  occupancy-store_prefix blocks sched now pr room [] h there r = omega arith
  occupancy-store_prefix blocks sched now pr room ((key, nbytes) ∷ fresh) h there r =
      let rest =
        occupancy-store_prefix blocks sched now pr (room - nbytes) fresh
          (store_one sched now pr h key nbytes) (λ k m. there k (ground (arith, m)))
          (store_one-IsReady blocks sched now pr h key nbytes
            (there key (ground (arith, =?_refl key))) r) in
      elim (Bool-cases (ltb room nbytes)) [
        | inl full ↦ rw full (omega arith)
        | inr fits ↦
            rw fits (ground (arith, occupancy-store_one blocks sched now pr h key nbytes r, rest))
      ]

  left_host_at-store_one :
      (sched : Dict Key (List F)) (now : F) (pr : Probe) (h : Host) (key : Key) (nbytes : ℕ)
      → (store_one sched now pr h key nbytes).left_host_at ≡ h.left_host_at
  unfolding store_one
  left_host_at-store_one sched now pr h key nbytes = refl

  pub left_host_at-store_prefix :
      (sched : Dict Key (List F)) (now : F) (pr : Probe) (room : ℕ) (fresh : List (Key × ℕ))
      (h : Host)
      → (store_prefix sched now pr room fresh h).left_host_at ≡ h.left_host_at
  unfolding store_prefix
  left_host_at-store_prefix sched now pr room [] h = refl
  left_host_at-store_prefix sched now pr room ((key, nbytes) ∷ fresh) h =
      let rest =
        left_host_at-store_prefix sched now pr (room - nbytes) fresh
          (store_one sched now pr h key nbytes)
        ∙ left_host_at-store_one sched now pr h key nbytes in
      elim (Bool-cases (ltb room nbytes)) [ inl full ↦ rw full refl | inr fits ↦ rw fits rest ]

  there-set_next_use :
      (sched : Dict Key (List F)) (now : F) (t : TierPolicy) (key k : Key)
      → is_some (lookup k t.entries) ≡ true
      → is_some (lookup k (set_next_use sched now t key).entries) ≡ true
  unfolding set_next_use
  there-set_next_use sched now t key k h = elim (Option-cases (lookup key t.entries)) [
    | inl new ↦ rw (new, set_next_use) h
    | inr (e, old) ↦
        rw (old, set_next_use)
          (ground (
            arith,
            h,
            lookup-insert key k (record e { next_use = next_access sched now key }) t.entries,
          ))
  ]

  there-store_one :
      (sched : Dict Key (List F)) (now : F) (pr : Probe) (h : Host) (key : Key) (nbytes : ℕ)
      (k : Key)
      → is_some (lookup k h.policy.entries) ≡ true
      → is_some (lookup k (store_one sched now pr h key nbytes).policy.entries) ≡ true
  unfolding store_one
  there-store_one sched now pr h key nbytes k m =
      let t = insert_entry h.policy key nbytes now pr in
      let next : is_some (lookup k t.entries) ≡ true =
        ground (arith, m, is_some-insert_entry h.policy key nbytes now pr k) in
      elim (Bool-cases (is_oracle t.kind)) [
        | inl by_oracle ↦ rw by_oracle (there-set_next_use sched now t key k next)
        | inr other ↦ rw other next
      ]

  -- Storing takes no entry away.
  pub there-store_prefix :
      (sched : Dict Key (List F)) (now : F) (pr : Probe) (room : ℕ) (fresh : List (Key × ℕ))
      (h : Host) (k : Key)
      → is_some (lookup k h.policy.entries) ≡ true
      → is_some (lookup k (store_prefix sched now pr room fresh h).policy.entries) ≡ true
  unfolding store_prefix
  there-store_prefix sched now pr room [] h k m = m
  there-store_prefix sched now pr room ((key, nbytes) ∷ fresh) h k m =
      let rest =
        there-store_prefix sched now pr (room - nbytes) fresh (store_one sched now pr h key nbytes)
          k (there-store_one sched now pr h key nbytes k m) in
      elim (Bool-cases (ltb room nbytes)) [ inl full ↦ rw full m | inr fits ↦ rw fits rest ]

  pub store-NeverRaises :
      (kind : Kind) (pr : Probe) (room : ℕ) (fresh : List (Key × ℕ))
      → IsSound pr
      → store_raises kind pr room fresh ≡ false
  unfolding store_raises
  store-NeverRaises kind pr room [] s = refl
  store-NeverRaises kind pr room ((key, nbytes) ∷ fresh) s =
      ground
        (arith, expiry-NeverRaises kind key pr s, store-NeverRaises kind pr (room - nbytes) fresh s)
