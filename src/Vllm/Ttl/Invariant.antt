-- ===== src/Vllm/Ttl/Invariant.antt =====
-- The invariant of `SessionTtlPolicy`: its keys and their deadlines.
use adaptive_context_residen.Common.{
  ℕ, String, true, ◌≡◌, Option, is_some, List, [], ◌∷◌, arith, Eq, =?_iff, string_eq,
}
use adaptive_context_residen.Common.Dict.{
  Dict, keys, lookup, Distinct, lookup-insert, lookup-erase, Distinct-insert, Distinct-erase,
}
use adaptive_context_residen.Floats.{FloatOps}
use adaptive_context_residen.Vllm.Hints.{Params}
use adaptive_context_residen.Vllm.Ttl.{
  Ttl, init, insert_block, remove, touch_one, touch_all, touch, mark_evictable, mark_non_evictable,
  clear, remove_all,
}

module _ {K B : Type 0} ⦃e : Eq K⦄ ⦃fl : FloatOps⦄ where
  open fl use {F, add as fadd}

  -- The block keys are distinct, and each has a deadline.
  pub record IsValid (p : Ttl K B) : Type 0 where
    pub distinct : Distinct (keys p.blocks)
    pub covered : (k : K) → is_some (lookup k p.blocks) ≡ true → is_some (lookup k p.expires) ≡ true

  pub init-IsValid :
      (capacity : ℕ) (ttls : Option (Dict String F)) (default : Option F)
      → IsValid (init capacity ttls default)
  unfolding init lookup
  init-IsValid capacity ttls default = record { distinct = tt; covered = λ k h. ground arith }

  pub insert_block-IsValid :
      (p : Ttl K B) (key : K) (block : B) (now : F)
      → IsValid p
      → IsValid (insert_block p key block now)
  unfolding insert_block
  insert_block-IsValid p key block now v = record {
    distinct = Distinct-insert key block p.blocks v.distinct;
    covered = λ k h. ground (
      arith,
      =?_iff key k,
      lookup-insert key k block p.blocks,
      lookup-insert key k (fadd now p.default_ttl) p.expires,
      v.covered k,
    );
  }

  pub remove-IsValid : (p : Ttl K B) (key : K) → IsValid p → IsValid (remove p key)
  unfolding remove
  remove-IsValid p key v = record {
    distinct = Distinct-erase key p.blocks v.distinct;
    covered = λ k h.
        ground (arith, lookup-erase key k p.blocks, lookup-erase key k p.expires, v.covered k);
  }

  pub remove_all-IsValid : (ks : List K) (p : Ttl K B) → IsValid p → IsValid (remove_all p ks)
  unfolding remove_all
  remove_all-IsValid [] p v = v
  remove_all-IsValid (k ∷ ks) p v = remove_all-IsValid ks (remove p k) (remove-IsValid p k v)

  touch_one-IsValid :
      (now ttl : F) (role : String) (p : Ttl K B) (key : K)
      → IsValid p
      → IsValid (touch_one now ttl role p key)
  unfolding touch_one
  touch_one-IsValid now ttl role p key v = record {
    distinct = ground (arith, v.distinct);
    covered = λ k h. ground (arith, lookup-insert key k (fadd now ttl) p.expires, v.covered k);
  }

  touch_all-IsValid :
      (now ttl : F) (role : String) (ks : List K) (p : Ttl K B)
      → IsValid p
      → IsValid (touch_all now ttl role p ks)
  unfolding touch_all
  touch_all-IsValid now ttl role [] p v = v
  touch_all-IsValid now ttl role (k ∷ ks) p v =
      touch_all-IsValid now ttl role ks _ (touch_one-IsValid now ttl role p k v)

  pub touch-IsValid :
      (p : Ttl K B) (ks : List K) (params : Params) (now : F)
      → IsValid p
      → IsValid (touch p ks params now)
  unfolding touch
  touch-IsValid p ks params now v = touch_all-IsValid now _ _ ks p v

  pub mark_evictable-IsValid : (p : Ttl K B) (k : K) → IsValid p → IsValid (mark_evictable p k)
  unfolding mark_evictable
  mark_evictable-IsValid p k v = record { distinct = v.distinct; covered = v.covered }

  pub mark_non_evictable-IsValid :
      (p : Ttl K B) (k : K) → IsValid p → IsValid (mark_non_evictable p k)
  unfolding mark_non_evictable
  mark_non_evictable-IsValid p k v = record { distinct = v.distinct; covered = v.covered }

  pub clear-IsValid : (p : Ttl K B) → IsValid (clear p)
  unfolding clear lookup
  clear-IsValid p = record { distinct = tt; covered = λ k h. ground arith }
