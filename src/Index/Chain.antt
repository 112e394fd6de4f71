-- ===== src/Index/Chain.antt =====
-- `PrefixIndex.chain`: the blocks that a prompt occupies, in prefix order.
pub mod Names
pub mod Laws
use adaptive_context_residen.Common.{
  ℕ, zero, suc, ◌+◌, ◌-◌, ◌/◌, ◌%◌, min, String, Bool, true, false, List, [], ◌∷◌, ◌++◌,
  if◌then◌else◌, ◌==◌, length,
}
use adaptive_context_residen.Floats.{FloatOps}
use adaptive_context_residen.Index.Defs.{Key, root, private, PrefixIndex}

-- An entry (key, tokens, is_shared) of a chain.
pub record Part : Type 0 where
  pub key : Key
  pub tokens : ℕ
  pub shared : Bool

-- `for i in range(n)`: full blocks from position `i` on.
unfoldable pub full_blocks : (ℕ → Key) → Bool → ℕ → ℕ → ℕ → List Part
full_blocks name shared bt i zero = []
full_blocks name shared bt i (suc n) =
    record { key = name i; tokens = bt; shared = shared } ∷ full_blocks name shared bt (suc i) n

-- The full blocks of `divmod(tokens, bt)`, and a partial one if tokens remain.
unfoldable pub segment : (ℕ → Key) → Bool → ℕ → ℕ → ℕ → List Part
unfolding full_blocks
segment name shared bt base tokens =
    full_blocks name shared bt base (tokens / bt)
    ++ (if tokens % bt == 0
        then []
        else record { key = name (base + tokens / bt); tokens = tokens % bt; shared = shared } ∷ [])

unfoldable pub chain_of : ℕ → String → ℕ → ℕ → String → List Part
unfolding segment
chain_of bt session_id prompt_tokens shared_prefix_tokens root_id =
    let shared = min shared_prefix_tokens prompt_tokens in
    let parts = segment (root root_id) true bt 0 shared in
    parts ++ segment (private session_id) false bt (length parts) (prompt_tokens - shared)

module _ ⦃fl : FloatOps⦄ where
  unfoldable pub chain : PrefixIndex → String → ℕ → ℕ → String → List Part
  unfolding chain_of
  chain ix session_id prompt_tokens shared_prefix_tokens root_id =
      chain_of ix.block_tokens session_id prompt_tokens shared_prefix_tokens root_id
