-- ===== src/Trace/Transcript.antt =====
-- `load_cc_transcript` on parsed lines: JSON and timestamps are read by Python's libraries, and the
-- session's name comes from the path.
use adaptive_context_residen.Common.{
  ℕ, ◌≤◌, ◌<◌, min, String, Bool, true, false, ◌&&◌, Option, none, some, List, [], ◌∷◌, arith,
  if◌then◌else◌, ◌==◌, All, Option-cases, inl, inr,
}
use adaptive_context_residen.Floats.{FloatOps, fmax}
use adaptive_context_residen.Trace.{Turn}

module _ ⦃fl : FloatOps⦄ where
  open fl use {F, of_ℕ, decimal, sub, lt}

  -- A line of the file: no JSON, or a record. An absent or malformed timestamp is `none`, and a
  -- missing or empty usage too.
  pub data Line : Type 0 where
    malformed : Line
    rec : (is_assistant : Bool) (usage : Option (ℕ × ℕ)) (timestamp : Option F) → Line

  -- `t0`, and `prev` with `prev_t`, which are assigned together.
  pub record Progress : Type 0 where
    pub t0 : Option F
    pub prev : Option ((ℕ × ℕ) × F)

  -- The usage and the time of a line that passes the first tests.
  unfoldable pub call_of : Line → Option ((ℕ × ℕ) × F)
  call_of (rec true (some usage) (some dt)) = some (usage, dt)
  call_of _ = none

  -- The same call, logged twice.
  unfoldable pub is_repeated : Option ((ℕ × ℕ) × F) → ℕ → ℕ → F → Bool
  is_repeated none prompt completion t = false
  is_repeated (some ((p, c), prev_t)) prompt completion t =
      (p == prompt) && ((c == completion) && lt (sub t prev_t) (decimal 15 1))

  unfoldable pub gap_of : Option ((ℕ × ℕ) × F) → F → Option F
  gap_of none t = none
  gap_of (some (_, prev_t)) t = some (fmax (of_ℕ 0) (sub t prev_t))

  module _ (session_id role : String) (shared_prefix_tokens : ℕ) where
    unfoldable pub turn_of : F → ℕ → ℕ → Option F → Turn
    turn_of t prompt completion gap = record {
      t = t;
      session_id = session_id;
      role = role;
      prompt_tokens = prompt;
      completion_tokens = completion;
      shared_prefix_tokens = min shared_prefix_tokens prompt;
      tool_eta_s = gap;
      aborted = false;
      slo_class = "interactive";
    }

    -- From `t0 = dt` on.
    unfoldable pub read_call : Progress → ℕ → ℕ → F → Option Turn × Progress
    unfolding turn_of
    read_call st prompt completion dt =
        let t0 : F = elim st.t0 [ none ↦ dt | some t ↦ t ] in
        let t = sub dt t0 in
        if prompt == 0
        then (none, record st { t0 = some t0 })
        else if is_repeated st.prev prompt completion t
        then (none, record st { t0 = some t0 })
        else (
          some (turn_of t prompt completion (gap_of st.prev t)),
          record { t0 = some t0; prev = some ((prompt, completion), t) },
        )

    -- The body of the loop.
    unfoldable pub read_line : Progress → Line → Option Turn × Progress
    read_line st line = elim (call_of line) [
      | none ↦ (none, st)
      | some ((prompt, completion), dt) ↦ read_call st prompt completion dt
    ]

    unfoldable pub read_lines : Progress → List Line → List Turn
    read_lines st [] = []
    read_lines st (line ∷ lines) =
        let (out, next) = read_line st line in
        let rest = read_lines next lines in elim out [ none ↦ rest | some turn ↦ turn ∷ rest ]

    unfoldable pub load_cc_transcript : List Line → List Turn
    load_cc_transcript = read_lines (record { t0 = none; prev = none })

    -- A call of the model that shares no more than it sends.
    abbrev pub IsCall : Turn → Type 0
    IsCall turn =
        (0 < turn.prompt_tokens)
        × (turn.shared_prefix_tokens ≤ turn.prompt_tokens)
        × (turn.shared_prefix_tokens ≤ shared_prefix_tokens)

    abbrev AllCalls : Option Turn → Type 0
    AllCalls none = Unit
    AllCalls (some turn) = IsCall turn

    read_call-IsCall :
        (st : Progress) (prompt completion : ℕ) (dt : F)
        → AllCalls (read_call st prompt completion dt).0
    unfolding read_call
    read_call-IsCall st prompt completion dt = ground arith

    read_line-IsCall : (st : Progress) (line : Line) → AllCalls (read_line st line).0
    unfolding read_line
    read_line-IsCall st line = elim (Option-cases (call_of line)) [
      | inl skipped ↦ rw (skipped, read_line) tt
      | inr (((prompt, completion), dt), found) ↦
          rw (found, read_line) (read_call-IsCall st prompt completion dt)
    ]

    with_turn :
        (out : Option Turn) (rest : List Turn)
        → AllCalls out
        → All IsCall rest
        → All IsCall (elim out [ none ↦ rest | some turn ↦ turn ∷ rest ])
    with_turn none rest h hs = hs
    with_turn (some turn) rest h hs = (h, hs)

    read_lines-IsCall : (st : Progress) (lines : List Line) → All IsCall (read_lines st lines)
    unfolding read_lines
    read_lines-IsCall st [] = tt
    read_lines-IsCall st (line ∷ lines) =
        with_turn (read_line st line).0 _ (read_line-IsCall st line)
          (read_lines-IsCall (read_line st line).1 lines)

    -- Every turn read from a transcript sends at least one token, and shares at most what it sends
    -- and at most the estimate.
    pub load_cc_transcript-IsCall : (lines : List Line) → All IsCall (load_cc_transcript lines)
    unfolding load_cc_transcript
    load_cc_transcript-IsCall lines = read_lines-IsCall (record { t0 = none; prev = none }) lines
