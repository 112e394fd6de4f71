-- ===== src/Replay/Turns/Prefixes.antt =====
-- The first loop of `_one`: the serviceable prefix of a path.
use adaptive_context_residen.Common.{
  ℕ, ◌≡◌, refl, ◌⊎◌, inl, inr, Bool, true, false, ◌||◌, none, some, is_some, List, [], ◌∷◌, arith,
  if◌then◌else◌, take, drop, sum_by, All, Bool-cases, Option-cases,
}
use adaptive_context_residen.Common.Dict.{Dict}
use adaptive_context_residen.Floats.{FloatOps}
use adaptive_context_residen.Index.Defs.{Key, key_eq}
use adaptive_context_residen.Policies.Tier.{TierPolicy, get}
use adaptive_context_residen.Replay.Hbm.{HbmTier, contains}
use adaptive_context_residen.Replay.Turns.{Prefix, serviceable}

module _ ⦃fl : FloatOps⦄ where
  open fl use {F}

  -- The bytes that a key costs to restore.
  unfoldable pub restore_cost : HbmTier → TierPolicy → Key → ℕ
  restore_cost hbm t k =
      if contains hbm k then 0 else elim (get t k) [ none ↦ 0 | some e ↦ e.nbytes ]

  -- A key is in the pool or in the tier below it.
  abbrev pub is_held : HbmTier → TierPolicy → Key → Bool
  is_held hbm t k = contains hbm k || is_some (get t k)

  pub record Longest (hbm : HbmTier) (t : TierPolicy) (ks : List Key) (found : Prefix)
      : Type 0 where
    -- Each key before the cut is held, and the one at the cut is not.
    pub held : All (λ k. is_held hbm t k ≡ true) (take found.cut ks)
    pub blocked :
        (drop found.cut ks ≡ [])
        ⊎ ((k : Key) × (rest : List Key) × (drop found.cut ks ≡ k ∷ rest)
            × (is_held hbm t k ≡ false))
    -- The restored bytes are those of the keys before the cut that the pool lacks.
    pub restored : found.restore_bytes ≡ sum_by (restore_cost hbm t) (take found.cut ks)

  -- The cut that a turn finds is the end of the longest prefix of its path whose keys are all in
  -- the pool or in the tier, and the restored bytes are those of the prefix's entries that the
  -- pool lacks.
  pub serviceable-Longest :
      (hbm : HbmTier) (t : TierPolicy) (window now : F) (left : Dict Key F) (ks : List Key)
      → Longest hbm t ks (serviceable hbm t window now left ks)
  unfolding serviceable restore_cost
  serviceable-Longest hbm t window now left [] = record {
    held = tt;
    blocked = inl refl;
    restored = refl;
  }
  serviceable-Longest hbm t window now left (key ∷ ks) =
      let below = serviceable-Longest hbm t window now left ks in
      elim (Bool-cases (contains hbm key)) [
        | inl there ↦
            rw (there, serviceable)
              (record {
                held = (ground arith, below.held);
                blocked = below.blocked;
                restored = ground (arith, below.restored);
              })
        | inr absent ↦ elim (Option-cases (get t key)) [
          | inl nowhere ↦
              rw (absent, nowhere, serviceable)
                (record { held = tt; blocked = inr (key, ks, refl, ground arith); restored = refl })
          | inr (e, found) ↦
              rw (absent, found, serviceable)
                (record {
                  held = (ground arith, below.held);
                  blocked = below.blocked;
                  restored = ground (arith, below.restored);
                })
        ]
      ]
