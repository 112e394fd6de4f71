-- ===== src/Tests/Index.antt =====
-- The index at concrete inputs.
use adaptive_context_residen.Common.{
  ◌≡◌, String, true, false, not, ◌&&◌, some, List, [], ◌∷◌, ◌++◌, All, sum_by, arith, ◌=?◌,
  string_eq,
}
use adaptive_context_residen.Common.Dict.{Distinct, elem}
use adaptive_context_residen.Config.{default_cost}
use adaptive_context_residen.Index.Defs.{Key, key_eq, PrefixIndex, new_index}
use adaptive_context_residen.Index.Chain.{chain}
use adaptive_context_residen.Index.Chain.Laws.{
  part_keys, Fits, chain-tokens, chain-Fits, chain-Distinct, chain-extends,
}
use adaptive_context_residen.Index.Touch.{touch_path, release_session}
use adaptive_context_residen.Index.Touch.Refs.{refs_of}
use adaptive_context_residen.Index.Touch.Invariant.{
  IsLeased, new_index-IsLeased, touch_path-IsLeased, release_session-IsLeased, Call, touched,
  closed,
}
use adaptive_context_residen.Tests.Numbers.{milli}

-- Blocks of four tokens.
abbrev pub small : PrefixIndex
small = new_index 4 default_cost

chain-tokens_example : sum_by (λ part. part.tokens) (chain small "s" 10 6 "root:coder") ≡ 10
chain-tokens_example = chain-tokens small "s" "root:coder" 10 6

chain-Fits_example : All (Fits small.block_tokens) (chain small "s" 10 6 "root:coder")
unfolding new_index
chain-Fits_example = chain-Fits small "s" "root:coder" 10 6 (omega arith)

chain-Distinct_example : Distinct (part_keys (chain small "s" 10 6 "root:coder"))
chain-Distinct_example = chain-Distinct small "s" "root:coder" 10 6

chain-extends_example :
    (rest : List Key) × (part_keys (chain small "s" 13 6 "root:coder")
      ≡ part_keys (chain small "s" 9 6 "root:coder") ++ rest)
unfolding new_index
chain-extends_example = chain-extends small "s" "root:coder" 9 13 6 (omega arith) (omega arith)

touch_path-IsLeased_example : IsLeased (touch_path small "s" "coder" 10 6 5000 false).0
touch_path-IsLeased_example =
    touch_path-IsLeased small "s" "coder" 10 6 5000 false (new_index-IsLeased 4 default_cost)

abbrev pub two_turns : PrefixIndex
two_turns =
    (touch_path (touch_path small "s" "coder" 10 6 5000 false).0 "t" "coder" 7 6 6000 false).0

pub two_turns-IsLeased : IsLeased two_turns
two_turns-IsLeased =
    touch_path-IsLeased _ "t" "coder" 7 6 6000 false
      (touch_path-IsLeased small "s" "coder" 10 6 5000 false (new_index-IsLeased 4 default_cost))

release_session-IsLeased_example :
    (ix' : PrefixIndex) × (release_session two_turns "s" ≡ some ix')
    × IsLeased ix'
    × ((k : Key) (t : String)
        → elem t (refs_of ix'.blocks k) ≡ (not ("s" =? t) && elem t (refs_of two_turns.blocks k)))
release_session-IsLeased_example = release_session-IsLeased two_turns "s" two_turns-IsLeased

abbrev calls : List Call
calls =
    touched "s" "coder" 10 6 5000 false
    ∷ touched "t" "coder" 7 6 6000 false
    ∷ closed "s"
    ∷ touched "t" "coder" 3 3 7000 true
    ∷ []
