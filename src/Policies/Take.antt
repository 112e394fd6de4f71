-- ===== src/Policies/Take.antt =====
-- `_expire` and `_take`: dropping expired entries, and greedy eviction in a given order.
pub mod Laws
use adaptive_context_residen.Common.{
  ℕ, ◌+◌, Bool, true, false, not, Option, none, some, List, [], ◌∷◌, map, if◌then◌else◌, leb,
  filter,
}
use adaptive_context_residen.Common.Dict.{Dict, lookup, insert, erase, values}
use adaptive_context_residen.Floats.{FloatOps}
use adaptive_context_residen.Index.Defs.{Key, key_eq}
use adaptive_context_residen.Policies.Tier.{Entry}

module _ ⦃fl : FloatOps⦄ where
  open fl use {F, le}

  -- The entries that have not expired.
  unfoldable pub expire : Dict Key Entry → F → Dict Key Entry
  expire entries now = filter (λ x. not (le x.1.expires_at now)) entries

  -- `del entries[key]` for each key.
  unfoldable pub erase_all : List Key → Dict Key Entry → Dict Key Entry
  erase_all [] entries = entries
  erase_all (k ∷ ks) entries = erase_all ks (erase k entries)

  -- The loop of `_take`: the entries that it takes, with `freed` bytes so far.
  unfoldable pub take_until : ℕ → ℕ → List Entry → List Entry
  take_until needed freed [] = []
  take_until needed freed (e ∷ es) =
      let rest = take_until needed (freed + e.nbytes) es in
      e ∷ (if leb needed (freed + e.nbytes) then [] else rest)

  abbrev pub entry_keys : List Entry → List Key
  entry_keys = map (λ e. e.key)

  unfoldable pub take_greedy : List Entry → ℕ → Dict Key Entry → Option (List Key) × Dict Key Entry
  unfolding take_until erase_all
  take_greedy order needed entries = elim (take_until needed 0 order) [
    | [] ↦ (none, entries)
    | e ∷ es ↦ (some (entry_keys (e ∷ es)), erase_all (entry_keys (e ∷ es)) entries)
  ]
