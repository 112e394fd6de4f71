-- ===== src/Trace.antt =====
-- src/acr/trace.py: a turn, and the sessions of a trace; the children read, write and make traces.
pub mod Sessions
pub mod Transcript
pub mod Files
pub mod Synthetic
use adaptive_context_residen.Common.{
  ℕ, String, Bool, Option, none, some, List, [], ◌∷◌, ◌++◌, string_eq,
}
use adaptive_context_residen.Common.Dict.{Dict, lookup, insert, values}
use adaptive_context_residen.Common.Sort.{sort}
use adaptive_context_residen.Floats.{FloatOps}

module _ ⦃fl : FloatOps⦄ where
  open fl use {F, of_ℕ, div, lt}

  pub record Turn : Type 0 where
    pub t : F
    pub session_id : String
    pub role : String
    pub prompt_tokens : ℕ
    pub completion_tokens : ℕ
    pub shared_prefix_tokens : ℕ
    pub tool_eta_s : Option F
    pub aborted : Bool
    pub slo_class : String

  unfoldable pub decode_seconds : Turn → F
  decode_seconds turn = div (of_ℕ turn.completion_tokens) (of_ℕ 118)

  pub record Session : Type 0 where
    pub session_id : String
    pub role : String
    pub shared_prefix_tokens : ℕ
    pub turns : List Turn

  -- `sorted(turns, key=lambda t: t.t)`
  unfoldable pub by_time : List Turn → List Turn
  by_time = sort (λ a b. lt a.t b.t)

  -- The body of the loop of `group_by_session`.
  unfoldable pub add_turn : Dict String Session → Turn → Dict String Session
  add_turn sessions turn = elim (lookup turn.session_id sessions) [
    | none ↦
        insert turn.session_id
          (record {
            session_id = turn.session_id;
            role = turn.role;
            shared_prefix_tokens = turn.shared_prefix_tokens;
            turns = turn ∷ [];
          })
          sessions
    | some s ↦ insert turn.session_id (record s { turns = s.turns ++ turn ∷ [] }) sessions
  ]

  unfoldable pub add_turns : Dict String Session → List Turn → Dict String Session
  add_turns sessions [] = sessions
  add_turns sessions (turn ∷ turns) = add_turns (add_turn sessions turn) turns

  unfoldable pub group_by_session : List Turn → List Session
  group_by_session turns = values (add_turns [] (by_time turns))
