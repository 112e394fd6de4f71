-- ===== src/Vllm/Value/Invariant.antt =====
-- The invariant of `AcrValuePolicy`: its evictable keys and its blocks.
use adaptive_context_residen.Common.{ℕ, Bool, true, ◌≡◌, is_some, List, [], ◌∷◌, arith, Eq, =?_iff}
use adaptive_context_residen.Common.Dict.{
  lookup, elem, Distinct, lookup-insert, lookup-erase, elem-add, elem-discard, Distinct-add,
  Distinct-filter,
}
use adaptive_context_residen.Floats.{FloatOps}
use adaptive_context_residen.Vllm.Hints.{Hints, Params}
use adaptive_context_residen.Vllm.Value.{
  Knobs, Value, init, insert_block, remove, touch_one, touch_all, touch, mark_evictable,
  mark_non_evictable, clear,
}
use adaptive_context_residen.Vllm.Value.Evict.{remove_all}

module _ {K B : Type 0} ⦃e : Eq K⦄ ⦃fl : FloatOps⦄ where
  open fl use {F}

  -- The set has no repetitions, and each of its keys has a block.
  pub record IsValid (p : Value K B) : Type 0 where
    pub distinct : Distinct p.evictable
    pub stored : (k : K) → elem k p.evictable ≡ true → is_some (lookup k p.blocks) ≡ true

  pub init-IsValid : (capacity : ℕ) (knobs : Knobs) → IsValid (init capacity knobs)
  unfolding init
  init-IsValid capacity knobs = record { distinct = tt; stored = λ k h. absurd (ground arith) }

  pub insert_block-IsValid :
      (idle : B → Bool) (p : Value K B) (key : K) (block : B) (now : F)
      → IsValid p
      → IsValid (insert_block idle p key block now)
  unfolding insert_block
  insert_block-IsValid idle p key block now v = record {
    distinct = ground (arith, v.distinct, Distinct-add key p.evictable v.distinct);
    stored = λ k h.
        ground (arith, elem-add k key p.evictable, lookup-insert key k block p.blocks, v.stored k);
  }

  pub remove-IsValid : (p : Value K B) (key : K) → IsValid p → IsValid (remove p key)
  unfolding remove
  remove-IsValid p key v = record {
    distinct = Distinct-filter _ p.evictable v.distinct;
    stored = λ k h. ground (
      arith,
      elem-discard k key p.evictable,
      lookup-erase key k p.blocks,
      =?_iff k key,
      =?_iff key k,
      v.stored k,
    );
  }

  pub remove_all-IsValid : (ks : List K) (p : Value K B) → IsValid p → IsValid (remove_all p ks)
  unfolding remove_all
  remove_all-IsValid [] p v = v
  remove_all-IsValid (k ∷ ks) p v = remove_all-IsValid ks (remove p k) (remove-IsValid p k v)

  touch_one-IsValid :
      (h : Hints) (now : F) (p : Value K B) (key : K) → IsValid p → IsValid (touch_one h now p key)
  unfolding touch_one
  touch_one-IsValid h now p key v = record {
    distinct = ground (arith, v.distinct);
    stored = λ k m. ground (arith, v.stored k);
  }

  touch_all-IsValid :
      (h : Hints) (now : F) (ks : List K) (p : Value K B)
      → IsValid p
      → IsValid (touch_all h now p ks)
  unfolding touch_all
  touch_all-IsValid h now [] p v = v
  touch_all-IsValid h now (k ∷ ks) p v =
      touch_all-IsValid h now ks (touch_one h now p k) (touch_one-IsValid h now p k v)

  pub touch-IsValid :
      (p : Value K B) (ks : List K) (params : Params) (now : F)
      → IsValid p
      → IsValid (touch p ks params now)
  unfolding touch
  touch-IsValid p ks params now v = touch_all-IsValid _ now ks p v

  -- The engine marks blocks that are in the tier.
  pub mark_evictable-IsValid :
      (p : Value K B) (key : K)
      → is_some (lookup key p.blocks) ≡ true
      → IsValid p
      → IsValid (mark_evictable p key)
  unfolding mark_evictable
  mark_evictable-IsValid p key known v = record {
    distinct = Distinct-add key p.evictable v.distinct;
    stored = λ k h. ground (arith, elem-add k key p.evictable, =?_iff key k, v.stored k);
  }

  pub mark_non_evictable-IsValid :
      (p : Value K B) (key : K) → IsValid p → IsValid (mark_non_evictable p key)
  unfolding mark_non_evictable
  mark_non_evictable-IsValid p key v = record {
    distinct = Distinct-filter _ p.evictable v.distinct;
    stored = λ k h. ground (arith, elem-discard k key p.evictable, v.stored k);
  }

  pub clear-IsValid : (p : Value K B) → IsValid (clear p)
  unfolding clear
  clear-IsValid p = record { distinct = tt; stored = λ k h. absurd (ground arith) }
