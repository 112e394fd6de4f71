-- ===== src/Index/Chain/Laws.antt =====
-- `PrefixIndex.chain`: sizes and keys of its blocks, and how they change as a prompt grows.
use mathlib.Core.List.{map-append}
use native.Mathlib.Nat.{mod-lt, mod-eq_of_lt, div-add-mod'}
use native.Mathlib.Decide.{dec_le}
use adaptive_context_residen.Common.{
  ℕ, zero, suc, ◌+◌, ◌-◌, ◌/◌, ◌%◌, ◌≤◌, ◌<◌, min, ◌≡◌, ap, ◌∙◌, String, Bool, true, false, List,
  ◌++◌, map, arith, ◌==◌, length, append-nil, append_assoc, sum_by, sum_by-append, All, All-append,
  Bool-cases, inl, inr,
}
use adaptive_context_residen.Common.Dict.{elem, Distinct, Distinct-append}
use adaptive_context_residen.Floats.{FloatOps}
use adaptive_context_residen.Index.Defs.{Key, root, private, key_eq, PrefixIndex}
use adaptive_context_residen.Index.Chain.{Part, full_blocks, segment, chain_of, chain}
use adaptive_context_residen.Index.Chain.Names.{
  names, blocks_of, keys-segment, length-segment, sum-segment, blocks_of_mono, names_extend,
  elem-names, Distinct-names,
}

abbrev pub part_keys : List Part → List Key
part_keys = map (λ p. p.key)

-- No block is empty, and none holds more than a block's tokens.
abbrev pub Fits : ℕ → Part → Type 0
Fits bt p = (0 < p.tokens) × (p.tokens ≤ bt)

full_blocks-Fits :
    (name : ℕ → Key) (shared : Bool) (bt i n : ℕ)
    → 0 < bt
    → All (Fits bt) (full_blocks name shared bt i n)
unfolding full_blocks
full_blocks-Fits name shared bt i zero pos = tt
full_blocks-Fits name shared bt i (suc n) pos =
    ((pos, omega arith), full_blocks-Fits name shared bt (suc i) n pos)

segment-Fits :
    (name : ℕ → Key) (shared : Bool) (bt base n : ℕ)
    → 0 < bt
    → All (Fits bt) (segment name shared bt base n)
unfolding segment
segment-Fits name shared bt base n pos =
    All-append (Fits bt) (full_blocks name shared bt base (n / bt)) _
      (full_blocks-Fits name shared bt base (n / bt) pos)
      (elim (Bool-cases (n % bt == 0)) [
        | inl whole ↦ rw whole tt
        | inr part ↦ rw part ((ground arith, omega (arith, mod-lt n pos)), tt)
      ])

chain_of-keys :
    (bt : ℕ) (s : String) (p sp : ℕ) (r : String)
    → part_keys (chain_of bt s p sp r)
      ≡ names (root r) 0 (blocks_of bt (min sp p))
        ++ names (private s) (blocks_of bt (min sp p)) (blocks_of bt (p - min sp p))
unfolding chain_of
chain_of-keys bt s p sp r = rw (map-append, keys-segment, keys-segment, length-segment)

-- The keys of a prompt of `m` shared and `q` other tokens.
abbrev layout : ℕ → String → String → ℕ → ℕ → List Key
layout bt s r m q =
    names (root r) 0 (blocks_of bt m) ++ names (private s) (blocks_of bt m) (blocks_of bt q)

layout_grow_private :
    (bt : ℕ) (s r : String) (m q q' : ℕ)
    → 0 < bt
    → q ≤ q'
    → (rest : List Key) × (layout bt s r m q' ≡ layout bt s r m q ++ rest)
layout_grow_private bt s r m q q' pos h =
    let b : ℕ = blocks_of bt m in
    (
      names (private s) (b + blocks_of bt q) (blocks_of bt q' - blocks_of bt q),
      rw (
        append_assoc,
        names_extend (private s) b (blocks_of bt q) (blocks_of bt q')
            (blocks_of_mono bt q q' pos h),
      ),
    )

blocks_of_zero : (bt : ℕ) → 0 < bt → blocks_of bt 0 ≡ 0
blocks_of_zero bt pos = rw (mod-eq_of_lt pos) (omega (arith, div-add-mod' 0 bt))

layout_zero :
    (bt : ℕ) (s r : String) (m : ℕ) → 0 < bt → layout bt s r m 0 ≡ names (root r) 0 (blocks_of bt m)
unfolding names
layout_zero bt s r m pos =
    ap (λ n. names (root r) 0 (blocks_of bt m) ++ names (private s) (blocks_of bt m) n)
      (blocks_of_zero bt pos)
    ∙ append-nil (names (root r) 0 (blocks_of bt m))

layout_grow_shared :
    (bt : ℕ) (s r : String) (m m' q' : ℕ)
    → 0 < bt
    → m ≤ m'
    → (rest : List Key) × (layout bt s r m' q' ≡ layout bt s r m 0 ++ rest)
layout_grow_shared bt s r m m' q' pos h =
    let b : ℕ = blocks_of bt m in
    let b' : ℕ = blocks_of bt m' in
    (
      names (root r) (0 + b) (b' - b) ++ names (private s) b' (blocks_of bt q'),
      rw (
        layout_zero bt s r m pos,
        names_extend (root r) 0 b b' (blocks_of_mono bt m m' pos h),
        append_assoc,
      ),
    )

root-injective : (r : String) (a b : ℕ) → root r a ≡ root r b → a ≡ b
root-injective r a b e = cc

private-injective : (s : String) (a b : ℕ) → private s a ≡ private s b → a ≡ b
private-injective s a b e = cc

module _ ⦃fl : FloatOps⦄ (ix : PrefixIndex) (s : String) (r : String) where
  -- The tokens of a chain's blocks add up to the tokens of the prompt.
  pub chain-tokens : (p sp : ℕ) → sum_by (λ part. part.tokens) (chain ix s p sp r) ≡ p
  unfolding chain
  chain-tokens p sp =
      sum_by-append (λ part. part.tokens) (segment (root r) true ix.block_tokens 0 (min sp p)) _
      ∙ omega (
        arith,
        sum-segment (root r) true ix.block_tokens 0 (min sp p),
        sum-segment (private s) false ix.block_tokens
            (length (segment (root r) true ix.block_tokens 0 (min sp p))) (p - min sp p),
      )

  -- With blocks of at least one token, every block of a chain holds at least one token and at most
  -- the block size.
  pub chain-Fits : (p sp : ℕ) → 0 < ix.block_tokens → All (Fits ix.block_tokens) (chain ix s p sp r)
  unfolding chain
  chain-Fits p sp pos =
      All-append (Fits ix.block_tokens) (segment (root r) true ix.block_tokens 0 (min sp p)) _
        (segment-Fits (root r) true ix.block_tokens 0 (min sp p) pos)
        (segment-Fits (private s) false ix.block_tokens _ (p - min sp p) pos)

  root-private-apart :
      (i m n : ℕ) (k : Key)
      → elem k (names (root r) 0 m) ≡ true
      → elem k (names (private s) i n) ≡ false
  root-private-apart i m n k h = elim (Bool-cases (elem k (names (private s) i n))) [
    | inl also ↦
        let (a, e, _, _) = elem-names (root r) k 0 m h in
        let (b, e', _, _) = elem-names (private s) k i n also in cc
    | inr apart ↦ apart
  ]

  -- No key stands twice in a chain.
  pub chain-Distinct : (p sp : ℕ) → Distinct (part_keys (chain ix s p sp r))
  unfolding chain
  chain-Distinct p sp =
      let m : ℕ = blocks_of ix.block_tokens (min sp p) in
      let n : ℕ = blocks_of ix.block_tokens (p - min sp p) in
      rw (chain_of-keys ix.block_tokens s p sp r) (
        Distinct-append (names (root r) 0 m) (names (private s) m n)
          (Distinct-names (root r) 0 m (root-injective r))
          (Distinct-names (private s) m n (private-injective s)) (root-private-apart m m n))

  -- With blocks of at least one token, the chain of a longer prompt of a session has the keys of
  -- the shorter prompt's chain, in place, and further keys behind them.
  pub chain-extends :
      (p p' sp : ℕ)
      → 0 < ix.block_tokens
      → p ≤ p'
      → (rest : List Key) × (part_keys (chain ix s p' sp r) ≡ part_keys (chain ix s p sp r) ++ rest)
  unfolding chain
  chain-extends p p' sp pos h =
      let bt : ℕ = ix.block_tokens in
      rw (chain_of-keys bt s p sp r, chain_of-keys bt s p' sp r)
        (elim (dec_le sp p) [
          | yes inside ↦
              let e : min sp p ≡ sp = omega arith in
              let e' : min sp p' ≡ sp = omega arith in
              rw (e, e') (layout_grow_private bt s r sp (p - sp) (p' - sp) pos (omega arith))
          | no beyond ↦
              let e : min sp p ≡ p = omega arith in
              let z : p - p ≡ 0 = omega arith in
              rw (e, z) (layout_grow_shared bt s r p (min sp p') (p' - min sp p') pos (omega arith))
        ])
