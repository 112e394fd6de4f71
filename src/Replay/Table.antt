-- ===== src/Replay/Table.antt =====
-- `as_row` and `markdown_table` of src/acr/replay.py, up to the text of a cell. Python's `round` to a
-- number of digits is a parameter.
pub mod Columns
pub mod Roles
use text.Mathlib.Text.{is_lt}
use Prim.Native.String.{compare}
use adaptive_context_residen.Common.{
  ℕ, ◌+◌, ◌*◌, max, String, ◌<>◌, Bool, Option, none, some, List, [], ◌∷◌, string_eq,
}
use adaptive_context_residen.Common.Dict.{Dict, keys, lookup, insert}
use adaptive_context_residen.Common.Result.{Result, ok, exception, item, ◌>>=◌}
use adaptive_context_residen.Common.Sort.{sort}
use adaptive_context_residen.Floats.{FloatOps}
use adaptive_context_residen.Replay.Stats.{RoleStats}
use adaptive_context_residen.Replay.Run.{Report, objective}

abbrev pub str_lt : String → String → Bool
str_lt a b = is_lt (compare a b)

module _ ⦃fl : FloatOps⦄ where
  open fl use {F, of_ℕ, mul, div}

  -- What `_fmt` shows.
  pub data Cell : Type 0 where
    name : String → Cell
    int : ℕ → Cell
    float : F → Cell

  abbrev pub Row : Type 0
  Row = Dict String Cell

  -- `sorted(self.per_role.items())`: the roles differ, so they decide.
  unfoldable pub sorted_items : Dict String RoleStats → Dict String RoleStats
  sorted_items = sort (λ a b. str_lt a.0 b.0)

  -- `[row[c] for c in cols]`
  unfoldable pub cells : List String → Row → Result (List Cell)
  cells [] row = ok []
  cells (c ∷ cols) row = do x ← item c row; xs ← cells cols row; ok (x ∷ xs)

  module _ (round_to : F → ℕ → F) where
    -- The body of the loop of `as_row`.
    unfoldable pub role_cells : String → RoleStats → Row → Row
    role_cells role m row =
        let row' =
          insert (role <> "_ttft_p95") (float (round_to m.ttft_p95 2))
            (insert (role <> "_ttft_p50") (float (round_to m.ttft_p50 2)) row) in
        elim m.slo_viol [ none ↦ row' | some n ↦ insert (role <> "_slo_viol") (int n) row' ]

    unfoldable pub roles_cells : Dict String RoleStats → Row → Row
    roles_cells [] row = row
    roles_cells ((role, m) ∷ items) row = roles_cells items (role_cells role m row)

    unfoldable pub as_row : Report → Row
    unfolding sorted_items
    as_row r =
        let ram_hit =
          div (mul (of_ℕ 100) (of_ℕ r.restore_bytes))
            (of_ℕ (max 1 (r.restore_bytes + r.recompute_tokens * 57591))) in
        roles_cells (sorted_items r.per_role) (
          ("policy", name r.policy)
          ∷ ("turns", int r.turns)
          ∷ ("recompute_ktok", float (round_to (div (of_ℕ r.recompute_tokens) (of_ℕ 1000)) 1))
          ∷ ("wasted_s", float (round_to (objective r) 1))
          ∷ ("prefill_s", float (round_to r.prefill_seconds 1))
          ∷ ("xfer_s", float (round_to r.transfer_seconds 2))
          ∷ ("ram_hit_%", float (round_to ram_hit 1))
          ∷ ("demotions", int r.demotions)
          ∷ ("thrash", int r.thrash)
          ∷ ("reacquire", int r.reacquires)
          ∷ [])

    unfoldable pub body : List String → List Report → Result (List (List Cell))
    body cols [] = ok []
    body cols (r ∷ rs) = do line ← cells cols (as_row r); lines ← body cols rs; ok (line ∷ lines)

    -- The header and the body of the table; nothing if there is no report.
    unfoldable pub markdown_table : List Report → Result (Option (List String × List (List Cell)))
    markdown_table [] = ok none
    markdown_table (r ∷ rs) =
        let cols = keys (as_row r) in do lines ← body cols (r ∷ rs); ok (some (cols, lines))
