-- ===== src/Index/Chain/Names.antt =====
-- The keys of a segment are consecutive positions of one name.
use adaptive_context_residen.Common.{
  ℕ, zero, suc, ◌+◌, ◌-◌, ◌*◌, ◌/◌, ◌%◌, ◌≤◌, ◌<◌, ◌≡◌, refl, ap, ◌∙◌, sym, Bool, true, List, [],
  ◌∷◌, ◌++◌, map, arith, if◌then◌else◌, ◌==◌, length, length-append, append-nil, sum_by,
  sum_by-append, Bool-cases, inl, inr,
}
use mathlib.Core.List.{map-append}
use native.Mathlib.Nat.{
  zero-add, add-zero, suc-add, add-suc, div-add-mod', le-div_iff_mul-le, div-lt_iff_lt-mul,
}
use adaptive_context_residen.Common.{nat_beq_iff, ◌≢◌, ◌=?◌, =?_iff}
use adaptive_context_residen.Common.Dict.{elem, Distinct}
use adaptive_context_residen.Index.Defs.{Key, key_eq}
use adaptive_context_residen.Index.Chain.{full_blocks, segment}

-- The positions `i`, …, `i + n - 1`.
unfoldable pub names : (ℕ → Key) → ℕ → ℕ → List Key
names name i zero = []
names name i (suc n) = name i ∷ names name (suc i) n

-- How many blocks hold `n` tokens.
abbrev pub blocks_of : ℕ → ℕ → ℕ
blocks_of bt n = n / bt + (if n % bt == 0 then 0 else 1)

pub names-append :
    (name : ℕ → Key) (i a b : ℕ) → names name i (a + b) ≡ names name i a ++ names name (i + a) b
unfolding names
names-append name i zero b = rw (zero-add, add-zero)
names-append name i (suc a) b = rw (suc-add, names, names-append name (suc i) a b, suc-add, add-suc)

keys-full_blocks :
    (name : ℕ → Key) (shared : Bool) (bt i n : ℕ)
    → map (λ p. p.key) (full_blocks name shared bt i n) ≡ names name i n
unfolding full_blocks names
keys-full_blocks name shared bt i zero = refl
keys-full_blocks name shared bt i (suc n) =
    ap (◌∷◌ (name i)) (keys-full_blocks name shared bt (suc i) n)

length-full_blocks :
    (name : ℕ → Key) (shared : Bool) (bt i n : ℕ) → length (full_blocks name shared bt i n) ≡ n
unfolding full_blocks
length-full_blocks name shared bt i zero = refl
length-full_blocks name shared bt i (suc n) = ap suc (length-full_blocks name shared bt (suc i) n)

sum-full_blocks :
    (name : ℕ → Key) (shared : Bool) (bt i n : ℕ)
    → sum_by (λ p. p.tokens) (full_blocks name shared bt i n) ≡ n * bt
unfolding full_blocks
sum-full_blocks name shared bt i zero = omega arith
sum-full_blocks name shared bt i (suc n) = omega (arith, sum-full_blocks name shared bt (suc i) n)

pub length-segment :
    (name : ℕ → Key) (shared : Bool) (bt base n : ℕ)
    → length (segment name shared bt base n) ≡ blocks_of bt n
unfolding segment
length-segment name shared bt base n = elim (Bool-cases (n % bt == 0)) [
  | inl whole ↦ rw (whole, append-nil, length-full_blocks) (omega arith)
  | inr part ↦ rw (part, length-append, length-full_blocks) refl
]

pub sum-segment :
    (name : ℕ → Key) (shared : Bool) (bt base n : ℕ)
    → sum_by (λ p. p.tokens) (segment name shared bt base n) ≡ n
unfolding segment
sum-segment name shared bt base n = elim (Bool-cases (n % bt == 0)) [
  | inl whole ↦
      rw (whole, append-nil, sum-full_blocks)
        (omega (arith, div-add-mod' n bt, (nat_beq_iff (n % bt) 0).0 whole))
  | inr part ↦ rw (part, sum_by-append, sum-full_blocks) (omega (arith, div-add-mod' n bt))
]

pub keys-segment :
    (name : ℕ → Key) (shared : Bool) (bt base n : ℕ)
    → map (λ p. p.key) (segment name shared bt base n) ≡ names name base (blocks_of bt n)
unfolding segment names
keys-segment name shared bt base n = elim (Bool-cases (n % bt == 0)) [
  | inl whole ↦ rw (whole, append-nil, keys-full_blocks, add-zero)
  | inr part ↦ rw (part, map-append, keys-full_blocks, names-append)
]

div_mono : (bt a b : ℕ) → 0 < bt → a ≤ b → a / bt ≤ b / bt
div_mono bt a b pos h = (le-div_iff_mul-le pos).1 (omega (arith, div-add-mod' a bt))

-- A prompt with a partial block has a full block less than a longer prompt of full blocks.
div_strict : (bt a b : ℕ) → 0 < bt → a ≤ b → a % bt ≢ 0 → b % bt ≡ 0 → a / bt < b / bt
div_strict bt a b pos h part whole =
    let ne : a ≢ b = λ e. part (ap (λ n. n % bt) e ∙ whole) in
    (div-lt_iff_lt-mul pos).1 (omega (arith, div-add-mod' b bt))

pub blocks_of_mono : (bt a b : ℕ) → 0 < bt → a ≤ b → blocks_of bt a ≤ blocks_of bt b
blocks_of_mono bt a b pos h = elim (Bool-cases (a % bt == 0)) [
  | inl whole ↦ rw whole (omega (arith, div_mono bt a b pos h))
  | inr part ↦ elim (Bool-cases (b % bt == 0)) [
    | inl whole ↦
        rw (part, whole) (omega (arith, div_strict bt a b pos h (λ e. ground arith) (ground arith)))
    | inr part' ↦ rw (part, part') (omega (arith, div_mono bt a b pos h))
  ]
]

-- More positions extend the list of names.
pub names_extend :
    (name : ℕ → Key) (i m n : ℕ)
    → m ≤ n
    → names name i n ≡ names name i m ++ names name (i + m) (n - m)
names_extend name i m n h =
    let e : n ≡ m + (n - m) = omega arith in ap (names name i) e ∙ names-append name i m (n - m)

-- Members are the positions in range, for a name that tells positions apart.
pub elem-names :
    (name : ℕ → Key) (k : Key) (i n : ℕ)
    → elem k (names name i n) ≡ true
    → (j : ℕ) × (k ≡ name j) × (i ≤ j) × (j < i + n)
unfolding names
elem-names name k i zero h = absurd (ground arith)
elem-names name k i (suc n) h = elim (Bool-cases (name i =? k)) [
  | inl here ↦ (i, sym ((=?_iff (name i) k).0 here), omega arith, omega arith)
  | inr later ↦
      let (j, e, lo, hi) = elem-names name k (suc i) n (rw later at h) in
      (j, e, omega arith, omega arith)
]

pub Distinct-names :
    (name : ℕ → Key) (i n : ℕ) → ((a b : ℕ) → name a ≡ name b → a ≡ b) → Distinct (names name i n)
unfolding names
Distinct-names name i zero inj = tt
Distinct-names name i (suc n) inj = (
  elim (Bool-cases (elem (name i) (names name (suc i) n))) [
    | inl again ↦
        let (j, e, lo, hi) = elem-names name (name i) (suc i) n again in
        absurd (omega (arith, inj i j e))
    | inr fresh ↦ fresh
  ],
  Distinct-names name (suc i) n inj,
)
