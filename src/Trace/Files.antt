-- ===== src/Trace/Files.antt =====
-- `to_jsonl`, `from_jsonl` and `load_harness_csv`: trace files, on the lines of a file.
use adaptive_context_residen.Common.{
  ℕ, ◌≡◌, refl, String, Bool, true, false, ◌&&◌, Option, none, some, is_some, List, [], ◌∷◌, map,
  if◌then◌else◌, string_eq,
}
use adaptive_context_residen.Common.Dict.{Dict, keys, lookup, elem, Distinct}
use adaptive_context_residen.Floats.{FloatOps}
use adaptive_context_residen.Trace.{Turn}

module _ ⦃fl : FloatOps⦄ where
  open fl use {F, of_ℕ, add, trunc}

  -- The values that a turn's fields take in JSON.
  pub data Json : Type 0 where
    null : Json
    bool : Bool → Json
    int : ℕ → Json
    float : F → Json
    str : String → Json

  -- Python's `json` on objects of such values. A line that is no such object is `none`.
  pub record JsonCodec : Type 1 where
    pub Text : Type 0
    pub dumps : Dict String Json → Text
    pub loads : Text → Option (Dict String Json)

  abbrev pub schema_version : ℕ
  schema_version = 1

  unfoldable pub eta_json : Option F → Json
  eta_json none = null
  eta_json (some x) = float x

  -- `asdict(turn)`
  unfoldable pub asdict : Turn → Dict String Json
  unfolding eta_json
  asdict turn =
      ("t", float turn.t)
      ∷ ("session_id", str turn.session_id)
      ∷ ("role", str turn.role)
      ∷ ("prompt_tokens", int turn.prompt_tokens)
      ∷ ("completion_tokens", int turn.completion_tokens)
      ∷ ("shared_prefix_tokens", int turn.shared_prefix_tokens)
      ∷ ("tool_eta_s", eta_json turn.tool_eta_s)
      ∷ ("aborted", bool turn.aborted)
      ∷ ("slo_class", str turn.slo_class)
      ∷ []

  -- An argument of the constructor: absent, or of the field's type.
  unfoldable pub as_float : Option Json → Option F
  as_float (some (float x)) = some x
  as_float (some (int n)) = some (of_ℕ n)
  as_float _ = none

  unfoldable pub as_int : Option Json → Option ℕ
  as_int (some (int n)) = some n
  as_int _ = none

  unfoldable pub as_str : Option Json → Option String
  as_str (some (str s)) = some s
  as_str _ = none

  unfoldable pub as_bool : Option Json → Option Bool
  as_bool (some (bool b)) = some b
  as_bool _ = none

  unfoldable pub as_eta : Option Json → Option (Option F)
  as_eta none = some none
  as_eta (some null) = some none
  as_eta (some (float x)) = some (some x)
  as_eta (some (int n)) = some (some (of_ℕ n))
  as_eta _ = none

  -- A field with a default.
  abbrev pub or_absent : {A : Type 0} → (Option Json → Option A) → A → Option Json → Option A
  or_absent read d none = some d
  or_absent read d (some j) = read (some j)

  abbrev pub field_names : List String
  field_names =
      "t" ∷ "session_id" ∷ "role" ∷ "prompt_tokens" ∷ "completion_tokens" ∷ "shared_prefix_tokens"
      ∷ "tool_eta_s" ∷ "aborted" ∷ "slo_class" ∷ []

  abbrev pub all_known : List String → Bool
  all_known [] = true
  all_known (k ∷ ks) = elem k field_names && all_known ks

  infixl 5 ◌>>=◌
  abbrev ◌>>=◌ : {A B : Type 0} → Option A → (A → Option B) → Option B
  none >>= f = none
  some a >>= f = f a

  -- `Turn(**rec)`: `none` stands for the `TypeError` of an unknown name or a missing argument. A
  -- value of another type than the field's is outside the model, and `none` too.
  unfoldable pub turn_of_record : Dict String Json → Option Turn
  unfolding as_float as_int as_str as_bool as_eta
  turn_of_record rec = do
    t ← as_float (lookup "t" rec)
    session_id ← as_str (lookup "session_id" rec)
    role ← as_str (lookup "role" rec)
    prompt ← as_int (lookup "prompt_tokens" rec)
    completion ← as_int (lookup "completion_tokens" rec)
    shared ← or_absent as_int 0 (lookup "shared_prefix_tokens" rec)
    eta ← as_eta (lookup "tool_eta_s" rec)
    aborted ← or_absent as_bool false (lookup "aborted" rec)
    slo ← or_absent as_str "interactive" (lookup "slo_class" rec)
    let turn : Turn = record {
      t = t;
      session_id = session_id;
      role = role;
      prompt_tokens = prompt;
      completion_tokens = completion;
      shared_prefix_tokens = shared;
      tool_eta_s = eta;
      aborted = aborted;
      slo_class = slo;
    }
    if all_known (keys rec) then some turn else none

  module _ (json : JsonCodec) where
    -- The lines of the file that `to_jsonl` writes.
    unfoldable pub to_jsonl : List Turn → List json.Text
    to_jsonl turns =
        json.dumps (("schema_version", int schema_version) ∷ [])
        ∷ map (λ turn. json.dumps (asdict turn)) turns

    -- The body of the loop of `from_jsonl`, before the turns of the other lines.
    unfoldable pub read_record : Dict String Json → Option (List Turn) → Option (List Turn)
    read_record rec rest =
        if is_some (lookup "schema_version" rec)
        then rest
        else do turn ← turn_of_record rec; turns ← rest; some (turn ∷ turns)

    -- `none` stands for the exception of a line that is no record of a turn.
    unfoldable pub from_jsonl : List json.Text → Option (List Turn)
    from_jsonl [] = some []
    from_jsonl (line ∷ lines) =
        let rest = from_jsonl lines in do rec ← json.loads line; read_record rec rest

  -- A row of the harness: `approx_ctx_tokens` and `ttft_s` as numbers, `none` if absent or empty.
  pub record HarnessRow : Type 0 where
    pub approx_ctx_tokens : Option F
    pub ttft_s : Option F

  abbrev pub or_zero : Option F → F
  or_zero none = of_ℕ 0
  or_zero (some x) = x

  -- The loop of `load_harness_csv` from the time `t` on; the session is the directory's name.
  unfoldable pub harness_rows : String → String → F → List HarnessRow → List Turn
  harness_rows session_id role t [] = []
  harness_rows session_id role t (row ∷ rows) =
      record {
        t = t;
        session_id = session_id;
        role = role;
        prompt_tokens = trunc (or_zero row.approx_ctx_tokens);
        completion_tokens = 1;
        shared_prefix_tokens = 0;
        tool_eta_s = none;
        aborted = false;
        slo_class = "interactive";
      }
      ∷ harness_rows session_id role (add t (add (or_zero row.ttft_s) (of_ℕ 1))) rows

  unfoldable pub load_harness_csv : String → String → List HarnessRow → List Turn
  load_harness_csv session_id role rows = harness_rows session_id role (of_ℕ 0) rows

  as_eta-eta_json : (eta : Option F) → as_eta (some (eta_json eta)) ≡ some eta
  unfolding as_eta eta_json
  as_eta-eta_json none = refl
  as_eta-eta_json (some x) = refl

  turn_of_record-asdict : (turn : Turn) → turn_of_record (asdict turn) ≡ some turn
  unfolding turn_of_record asdict lookup
  turn_of_record-asdict turn = rw (as_eta-eta_json turn.tool_eta_s) refl

  Distinct-keys-asdict : (turn : Turn) → Distinct (keys (asdict turn))
  unfolding asdict
  Distinct-keys-asdict turn =
      (refl, (refl, (refl, (refl, (refl, (refl, (refl, (refl, (refl, tt)))))))))

  module _ (json : JsonCodec) where
    -- What `json` promises: a dictionary that was written is read back.
    abbrev pub IsFaithful : Type 0
    IsFaithful = (d : Dict String Json) → Distinct (keys d) → json.loads (json.dumps d) ≡ some d

    read_record-asdict :
        (turn : Turn) (turns : List Turn)
        → read_record json (asdict turn) (some turns) ≡ some (turn ∷ turns)
    unfolding read_record asdict lookup
    read_record-asdict turn turns = rw (turn_of_record-asdict turn) refl

    from_jsonl-records :
        (turns : List Turn)
        → IsFaithful
        → from_jsonl json (map (λ turn. json.dumps (asdict turn)) turns) ≡ some turns
    unfolding from_jsonl
    from_jsonl-records [] faithful = refl
    from_jsonl-records (turn ∷ turns) faithful =
        rw (faithful (asdict turn) (Distinct-keys-asdict turn), from_jsonl-records turns faithful)
          (read_record-asdict turn turns)

    -- If `json` reads back what it writes, `from_jsonl` reads the turns that `to_jsonl` wrote.
    pub from_jsonl-to_jsonl :
        (turns : List Turn) → IsFaithful → from_jsonl json (to_jsonl json turns) ≡ some turns
    unfolding from_jsonl to_jsonl read_record lookup
    from_jsonl-to_jsonl turns faithful =
        rw (faithful (("schema_version", int schema_version) ∷ []) (refl, tt))
          (from_jsonl-records turns faithful)
