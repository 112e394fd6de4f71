-- ===== src/Replay/Hbm/Invariant.antt =====
-- The pool's invariant: its counter of bytes and its blocks.
use adaptive_context_residen.Common.{
  ℕ, ◌+◌, ◌≡◌, refl, ap, inl, inr, none, some, List, [], ◌∷◌, ◌++◌, arith, if◌then◌else◌, sum_by,
  ◌=?◌, =?_refl, Option-cases,
}
use adaptive_context_residen.Common.Dict.{
  Dict, keys, values, lookup, erase, Distinct, elem-keys, Distinct-erase, Distinct-snoc,
  sum_by-erase, lookup-erase,
}
use adaptive_context_residen.Index.Defs.{Key, key_eq}
use adaptive_context_residen.Replay.Hbm.{HbmTier, move_to_end, touch, fill_one, fill, pop}

-- The sum of the blocks' bytes.
abbrev pub bytes : Dict Key ℕ → ℕ
bytes d = sum_by (λ n. n) (values d)

pub record IsValid (h : HbmTier) : Type 0 where
  pub distinct : Distinct (keys h.blocks)
  pub counted : h.used ≡ bytes h.blocks

pub keys-snoc : (d : Dict Key ℕ) (k : Key) (n : ℕ) → keys (d ++ (k, n) ∷ []) ≡ keys d ++ k ∷ []
keys-snoc [] k n = refl
keys-snoc (x ∷ d) k n = ap (◌∷◌ x.0) (keys-snoc d k n)

bytes-snoc : (d : Dict Key ℕ) (k : Key) (n : ℕ) → bytes (d ++ (k, n) ∷ []) ≡ bytes d + n
bytes-snoc [] k n = omega arith
bytes-snoc (x ∷ d) k n = omega (arith, bytes-snoc d k n)

pub lookup-snoc :
    (j : Key) (d : Dict Key ℕ) (k : Key) (n : ℕ)
    → lookup j (d ++ (k, n) ∷ [])
      ≡ elim (lookup j d) [ none ↦ (if k =? j then some n else none) | some m ↦ some m ]
unfolding lookup
lookup-snoc j [] k n = refl
lookup-snoc j (x ∷ d) k n = ground (arith, lookup-snoc j d k n)

Distinct-keys-snoc :
    (d : Dict Key ℕ) (k : Key) (n : ℕ)
    → Distinct (keys d)
    → lookup k d ≡ none
    → Distinct (keys (d ++ (k, n) ∷ []))
Distinct-keys-snoc d k n v absent =
    rw (keys-snoc d k n) (Distinct-snoc k (keys d) v (ground (arith, elem-keys k d)))

pub move_to_end-IsValid :
    (key : Key) (nbytes : ℕ) (h : HbmTier)
    → lookup key h.blocks ≡ some nbytes
    → IsValid h
    → IsValid (move_to_end key nbytes h)
unfolding move_to_end
move_to_end-IsValid key nbytes h found v = record {
  distinct =
      Distinct-keys-snoc (erase key h.blocks) key nbytes (Distinct-erase key h.blocks v.distinct)
        (ground (arith, lookup-erase key key h.blocks, =?_refl key));
  counted = omega (
    arith,
    v.counted,
    bytes-snoc (erase key h.blocks) key nbytes,
    sum_by-erase (λ n. n) key h.blocks v.distinct found,
  );
}

pub touch-IsValid : (h : HbmTier) (ks : List Key) → IsValid h → IsValid (touch h ks)
unfolding touch
touch-IsValid h [] v = v
touch-IsValid h (key ∷ ks) v = elim (Option-cases (lookup key h.blocks)) [
  | inl missing ↦ rw (missing, touch) (touch-IsValid h ks v)
  | inr (nbytes, found) ↦
      rw (found, touch)
        (touch-IsValid (move_to_end key nbytes h) ks (move_to_end-IsValid key nbytes h found v))
]

pub fill_one-IsValid : (h : HbmTier) (x : Key × ℕ) → IsValid h → IsValid (fill_one h x)
unfolding fill_one
fill_one-IsValid h (key, nbytes) v = elim (Option-cases (lookup key h.blocks)) [
  | inl missing ↦
      rw (missing, fill_one)
        (record {
          distinct = Distinct-keys-snoc h.blocks key nbytes v.distinct missing;
          counted = omega (arith, v.counted, bytes-snoc h.blocks key nbytes);
        })
  | inr (old, found) ↦ rw (found, fill_one) (move_to_end-IsValid key old h found v)
]

pub fill-IsValid : (h : HbmTier) (items : List (Key × ℕ)) → IsValid h → IsValid (fill h items)
unfolding fill
fill-IsValid h [] v = v
fill-IsValid h (x ∷ items) v = fill-IsValid (fill_one h x) items (fill_one-IsValid h x v)

pub pop-IsValid : (victim : Key) (h : HbmTier) → IsValid h → IsValid (pop victim h)
unfolding pop
pop-IsValid victim h v = elim (Option-cases (lookup victim h.blocks)) [
  | inl missing ↦ rw (missing, pop) v
  | inr (nbytes, found) ↦
      rw (found, pop)
        (record {
          distinct = Distinct-erase victim h.blocks v.distinct;
          counted =
              omega (arith, v.counted, sum_by-erase (λ n. n) victim h.blocks v.distinct found);
        })
]
