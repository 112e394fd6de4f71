-- ===== src/Replay/Hbm.antt =====
-- `HBMTier`: the engine's pool, an LRU order of keys with their bytes. The order of the dictionary
-- is the LRU order, oldest first.
pub mod Invariant
pub mod Store
use adaptive_context_residen.Common.{
  ℕ, ◌+◌, ◌-◌, Bool, true, false, not, Option, none, some, is_some, List, [], ◌∷◌, ◌++◌,
  if◌then◌else◌, leb, filter,
}
use adaptive_context_residen.Common.Dict.{Dict, keys, lookup, erase, elem}
use adaptive_context_residen.Index.Defs.{Key, key_eq}

pub record HbmTier : Type 0 where
  pub capacity_bytes : ℕ
  pub blocks : Dict Key ℕ
  pub used : ℕ

unfoldable pub contains : HbmTier → Key → Bool
contains h key = is_some (lookup key h.blocks)

-- `move_to_end` of a key that is there
unfoldable pub move_to_end : Key → ℕ → HbmTier → HbmTier
move_to_end key nbytes h = record h { blocks = erase key h.blocks ++ (key, nbytes) ∷ [] }

unfoldable pub touch : HbmTier → List Key → HbmTier
touch h [] = h
touch h (key ∷ ks) = elim (lookup key h.blocks) [
  | none ↦ touch h ks
  | some nbytes ↦ touch (move_to_end key nbytes h) ks
]

-- The body of the first loop of `store`. A new key goes to the end of the order.
unfoldable pub fill_one : HbmTier → Key × ℕ → HbmTier
fill_one h (key, nbytes) = elim (lookup key h.blocks) [
  | none ↦ record h { blocks = h.blocks ++ (key, nbytes) ∷ []; used = h.used + nbytes }
  | some old ↦ move_to_end key old h
]

unfoldable pub fill : HbmTier → List (Key × ℕ) → HbmTier
fill h [] = h
fill h (x ∷ items) = fill (fill_one h x) items

-- `self._used -= self._blocks.pop(victim)`. `used` is at least what is taken from it, since it is the
-- sum of the blocks' bytes.
unfoldable pub pop : Key → HbmTier → HbmTier
pop victim h = elim (lookup victim h.blocks) [
  | none ↦ h
  | some nbytes ↦ record h { blocks = erase victim h.blocks; used = h.used - nbytes }
]

-- The second loop of `store`.
unfoldable pub drop_until : List Key → HbmTier → List Key × HbmTier
drop_until [] h = ([], h)
drop_until (victim ∷ victims) h =
    let h' = pop victim h in
    let rest = drop_until victims h' in
    if leb h'.used h'.capacity_bytes then (victim ∷ [], h') else (victim ∷ rest.0, rest.1)

-- The unprotected keys, oldest first.
unfoldable pub victims_of : List Key → HbmTier → List Key
victims_of protected h = filter (λ k. not (elem k protected)) (keys h.blocks)

-- The keys that it drops, and the new state.
unfoldable pub store : HbmTier → List (Key × ℕ) → List Key → List Key × HbmTier
store h items protected =
    let h' = fill h items in
    if leb h'.used h'.capacity_bytes then ([], h') else drop_until (victims_of protected h') h'

unfoldable pub occupancy : HbmTier → ℕ
occupancy h = h.used
