-- ===== src/Vllm/Hints.antt =====
-- What a request tells a policy: `kv_transfer_params["acr"]`, stamped by the gateway.
use adaptive_context_residen.Common.{String, Bool, false, ◌||◌, Option, none, some, is_some}
use adaptive_context_residen.Floats.{FloatOps}

module _ ⦃fl : FloatOps⦄ where
  open fl use {F}

  -- The entries of the blob that the policies read, and whether it has any other.
  pub record Hints : Type 0 where
    pub role : Option String
    pub tool_eta_s : Option F
    pub session_lease_count : Option F
    pub leases : Option F
    pub other : Bool

  -- The empty dictionary.
  abbrev pub no_hints : Hints
  no_hints = record {
    role = none;
    tool_eta_s = none;
    session_lease_count = none;
    leases = none;
    other = false;
  }

  -- `if hints:` of a dictionary: it has an entry.
  unfoldable pub has_hints : Hints → Bool
  has_hints h =
      is_some h.role
      || (is_some h.tool_eta_s || (is_some h.session_lease_count || (is_some h.leases || h.other)))

  -- The parameters of a request: absent, without a dictionary under "acr", or with one.
  pub data Params : Type 0 where
    absent : Params
    without_blob : Params
    blob : Hints → Params

  unfoldable pub hints_of : Params → Hints
  hints_of absent = no_hints
  hints_of without_blob = no_hints
  hints_of (blob h) = h

  -- `blob.get("role", "")`
  unfoldable pub role_of : Hints → String
  role_of h = elim h.role [ none ↦ "" | some r ↦ r ]
