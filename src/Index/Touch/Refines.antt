-- ===== src/Index/Touch/Refines.antt =====
-- The index as its clients see it: a table of the open sessions with their last prompts.
use adaptive_context_residen.Common.{
  ℕ, ◌≡◌, String, ◌<>◌, none, some, List, [], ◌∷◌, map, string_eq,
}
use adaptive_context_residen.Common.Dict.{Dict, lookup, insert, erase}
use adaptive_context_residen.Floats.{FloatOps}
use adaptive_context_residen.Index.Defs.{Key, key_eq, PrefixIndex}
use adaptive_context_residen.Index.Chain.{chain_of}
use adaptive_context_residen.Index.Touch.{path_of}
use adaptive_context_residen.Index.Touch.Invariant.{IsLeased, Call, touched, closed}

-- The last prompt of an open session.
pub record Open : Type 0 where
  pub role : String
  pub prompt_tokens : ℕ
  pub shared_prefix_tokens : ℕ

abbrev pub Table : Type 0
Table = Dict String Open

-- The blocks of a session, in blocks of `bt` tokens.
unfoldable pub blocks_of : ℕ → Table → String → List Key
blocks_of bt table s = elim (lookup s table) [
  | none ↦ []
  | some o ↦
      map (λ p. p.key) (chain_of bt s o.prompt_tokens o.shared_prefix_tokens ("root:" <> o.role))
]

module _ ⦃fl : FloatOps⦄ where
  open fl use {F}

  -- The calls on the table: a touched session is open with its new prompt, a released one is gone.
  unfoldable pub run_table : List Call → Table → Table
  run_table [] table = table
  run_table (touched s role p sp now aborted ∷ calls) table =
      run_table calls
        (insert s (record { role = role; prompt_tokens = p; shared_prefix_tokens = sp }) table)
  run_table (closed s ∷ calls) table = run_table calls (erase s table)

  -- The index implements the table.
  pub record Implements (bt : ℕ) (ix : PrefixIndex) (table : Table) : Type 0 where
    pub leased : IsLeased ix
    pub same_blocks : ix.block_tokens ≡ bt
    pub paths : (s : String) → path_of ix s ≡ blocks_of bt table s
