-- ===== src/Replay/Host.antt =====
-- `_store_batch_to_host` and the oracle's support: what a turn does to the tier below HBM.
pub mod Ready
pub mod Store
pub mod Batch
use adaptive_context_residen.Common.{
  ℕ, ◌+◌, ◌-◌, Bool, true, false, not, ◌&&◌, ◌||◌, Option, none, some, is_some, List, [], ◌∷◌, map,
  if◌then◌else◌, ltb, filter, sum_by,
}
use adaptive_context_residen.Common.Dict.{Dict, keys, lookup, insert}
use adaptive_context_residen.Common.Result.{Result, ok, ◌>>=◌, items_at, raise_if}
use adaptive_context_residen.Floats.{FloatOps}
use adaptive_context_residen.Index.Defs.{Key, key_eq, BlockInfo}
use adaptive_context_residen.Policies.Probe.{Probe}
use adaptive_context_residen.Policies.Tier.{
  Entry, Kind, oracle, TierPolicy, get, occupancy, insert_entry, expiry_raises,
}
use adaptive_context_residen.Policies.Evict.{evict, admit_chain}
use adaptive_context_residen.Policies.Raises.{admit_raises, evict_raises}

module _ ⦃fl : FloatOps⦄ where
  open fl use {F, infinity, lt}

  abbrev pub is_oracle : Kind → Bool
  is_oracle oracle = true
  is_oracle _ = false

  -- The first time after `now`.
  unfoldable pub first_after : F → List F → F
  first_after now [] = infinity
  first_after now (t ∷ ts) = if lt now t then t else first_after now ts

  -- `next((t for t in sched.get(key, ()) if t > now), inf)`
  unfoldable pub next_access : Dict Key (List F) → F → Key → F
  next_access sched now key = elim (lookup key sched) [
    | none ↦ infinity
    | some ts ↦ first_after now ts
  ]

  -- `entry.next_use = ...` of the entry under a key, if there is one.
  unfoldable pub set_next_use : Dict Key (List F) → F → TierPolicy → Key → TierPolicy
  set_next_use sched now t key = elim (lookup key t.entries) [
    | none ↦ t
    | some e ↦ record t {
      entries = insert key (record e { next_use = next_access sched now key }) t.entries;
    }
  ]

  unfoldable pub refresh_oracle : Dict Key (List F) → F → TierPolicy → List Key → TierPolicy
  refresh_oracle sched now t [] = t
  refresh_oracle sched now t (key ∷ ks) = refresh_oracle sched now (set_next_use sched now t key) ks

  -- What `_store_batch_to_host` changes.
  pub record Host : Type 0 where
    pub policy : TierPolicy
    pub left_host_at : Dict Key F
    pub reacquires : ℕ

  -- `_left_host` of each victim.
  unfoldable pub left_host : F → List Key → Dict Key F → Dict Key F
  left_host now [] left = left
  left_host now (victim ∷ victims) left = left_host now victims (insert victim now left)

  -- The body of the last loop.
  unfoldable pub store_one : Dict Key (List F) → F → Probe → Host → Key → ℕ → Host
  store_one sched now pr h key nbytes =
      let t = insert_entry h.policy key nbytes now pr in
      record h {
        policy = if is_oracle t.kind then set_next_use sched now t key else t;
        reacquires = h.reacquires + (if is_some (lookup key h.left_host_at) then 1 else 0);
      }

  -- The last loop: the prefix of the admitted blocks that fits into `room`.
  unfoldable pub store_prefix : Dict Key (List F) → F → Probe → ℕ → List (Key × ℕ) → Host → Host
  store_prefix sched now pr room [] h = h
  store_prefix sched now pr room ((key, nbytes) ∷ fresh) h =
      let rest =
        store_prefix sched now pr (room - nbytes) fresh (store_one sched now pr h key nbytes) in
      if ltb room nbytes then h else rest

  -- Whether `insert` raises for one of the blocks that the last loop stores.
  unfoldable pub store_raises : Kind → Probe → ℕ → List (Key × ℕ) → Bool
  store_raises kind pr room [] = false
  store_raises kind pr room ((key, nbytes) ∷ fresh) =
      let rest = store_raises kind pr (room - nbytes) fresh in
      not (ltb room nbytes) && (expiry_raises kind key pr || rest)

  -- The keys of a path that the tier does not hold.
  unfoldable pub missing : TierPolicy → List Key → List Key
  missing t = filter (λ k. not (is_some (get t k)))

  -- `[(key, self.index.blocks[key].nbytes) for key in ks]`
  unfoldable pub sizes : List Key → Dict Key BlockInfo → Result (List (Key × ℕ))
  sizes ks blocks = do infos ← items_at ks blocks; ok (map (λ x. (x.0, x.1.nbytes)) infos)

  -- `max(0, self.ram_tier.bytes_capacity - self.policy.occupancy)`
  unfoldable pub room_of : ℕ → TierPolicy → ℕ
  room_of capacity t = capacity - occupancy t

  -- From the eviction on. `needed` is what `fresh` lacks beside the free room.
  unfoldable pub store_admitted :
      ℕ → Dict Key (List F) → F → Probe → List (Key × ℕ) → Host → Result Host
  store_admitted capacity sched now pr [] h = ok h
  store_admitted capacity sched now pr (x ∷ fresh) h =
      let total = sum_by (λ y. y.1) (x ∷ fresh) in
      let room = room_of capacity h.policy in
      let out = evict h.policy (total - room) (keys (x ∷ fresh)) now pr in
      if ltb room total
      then raise_if (evict_raises h.policy.kind (keys (x ∷ fresh)) now pr h.policy.entries)
          (elim out.0 [
            | none ↦ ok (record h { policy = out.1 })
            | some freed ↦ do
              dropped ← sizes freed pr.index.blocks
              raise_if
                  (store_raises h.policy.kind pr (room + sum_by (λ y. y.1) dropped) (x ∷ fresh))
                  (ok (
                    store_prefix sched now pr (room + sum_by (λ y. y.1) dropped) (x ∷ fresh)
                      (record h {
                        policy = out.1;
                        left_host_at = left_host pr.now freed h.left_host_at;
                      })))
          ])
      else raise_if (store_raises h.policy.kind pr room (x ∷ fresh))
          (ok (store_prefix sched now pr room (x ∷ fresh) h))

  unfoldable pub store_batch_to_host :
      ℕ → Dict Key (List F) → F → Probe → List Key → Host → Result Host
  store_batch_to_host capacity sched now pr ks h = do
    candidates ← sizes (missing h.policy ks) pr.index.blocks
    raise_if (admit_raises h.policy.kind h.policy candidates pr)
        (store_admitted capacity sched now pr (admit_chain h.policy candidates pr) h)
