-- ===== src/Gateway/Minting.antt =====
-- The grants of capabilities and their minting (gateway/capabilities.py, `CapabilityGrant`,
-- `CapabilityIssuer`), and what the gateway does with a minted token.
use aizim.Prelude.{
  ℕ, Bool, true, false, not, ◌||◌, Option, none, some, List, [], ◌∷◌, String, same_text, same_text?,
  if◌then◌else◌,
}
use aizim.Outcome.{Outcome, ok, raised, value_error, raise_if, ◌>>◌}
use aizim.Events.{EventRecord, Stamp}
use aizim.Projections.{contains}
use aizim.Database.{CapabilityRecord, Database}
use aizim.Store.{Reducer}
use aizim.Service.{persist}
use aizim.Tx.{Tx}
use aizim.Control.{AgentRole, role_value}
use aizim.Gateway.Tools.{GatewayTool, tool_value, role_capabilities, has_tool}

pub record CapabilityGrant : Type 0 where
  pub run_id : String
  pub worker_id : String
  pub role : AgentRole
  pub lease_id : Option String
  pub operations : List GatewayTool
  pub expires_at : ℕ

-- `len(operations) != len(set(operations))`
unfoldable pub has_duplicates : List GatewayTool → Bool
unfolding has_tool
has_duplicates [] = false
has_duplicates (t ∷ ts) = has_tool t ts || has_duplicates ts

-- `any(operation not in ROLE_CAPABILITIES[role] for operation in operations)`
unfoldable pub exceeds : List GatewayTool → List GatewayTool → Bool
unfolding has_tool
exceeds allowed [] = false
exceeds allowed (t ∷ ts) = not (has_tool t allowed) || exceeds allowed ts

abbrev pub no_operations : List GatewayTool → Bool
no_operations [] = true
no_operations (t ∷ ts) = false

-- `CapabilityGrant.__post_init__`
unfoldable pub check_grant : CapabilityGrant → Outcome (Unit {0})
unfolding has_duplicates exceeds role_capabilities
check_grant grant =
    raise_if (same_text grant.run_id "") (value_error "run_id must be a non-empty string")
    >> raise_if (same_text grant.worker_id "") (value_error "worker_id must be a non-empty string")
    >> raise_if (same_text? grant.lease_id (some ""))
        (value_error "lease_id must be a non-empty string when present")
    >> raise_if (no_operations grant.operations)
        (value_error "operations must be a non-empty tuple")
    >> raise_if (has_duplicates grant.operations) (value_error "operations must be unique")
    >> raise_if (exceeds (role_capabilities grant.role) grant.operations)
        (value_error "operations exceed the role capability matrix")

unfoldable pub tool_values : List GatewayTool → List String
unfolding tool_value
tool_values [] = []
tool_values (t ∷ ts) = tool_value t ∷ tool_values ts

-- The record that `mint` makes of a token
unfoldable pub granted_record : String → CapabilityGrant → CapabilityRecord
unfolding tool_values
granted_record token_hash grant = record {
  token_hash = token_hash;
  run_id = grant.run_id;
  worker_id = grant.worker_id;
  role = role_value grant.role;
  lease_id = grant.lease_id;
  operations = tool_values grant.operations;
  expires_at = grant.expires_at;
  revoked_at = none;
}

unfoldable pub repeats : List String → Bool
unfolding contains
repeats [] = false
repeats (x ∷ xs) = contains x xs || repeats xs

abbrev not_operations : List String → Bool
not_operations [] = true
not_operations (x ∷ xs) = contains "" (x ∷ xs) || repeats (x ∷ xs)

-- `CapabilityRecord.__post_init__`, over `re`'s full match; the error is its text
unfoldable pub check_record : (String → String → Bool) → CapabilityRecord → Outcome (Unit {0})
unfolding repeats
check_record fullmatch r =
    raise_if (not (fullmatch "[0-9a-f]{64}" r.token_hash))
      (value_error "token_hash: must be a lowercase SHA-256 hash")
    >> raise_if (same_text r.run_id "") (value_error "run_id: must be a non-empty string")
    >> raise_if (same_text r.worker_id "") (value_error "worker_id: must be a non-empty string")
    >> raise_if (same_text r.role "") (value_error "role: must be a non-empty string")
    >> raise_if (same_text? r.lease_id (some ""))
        (value_error "lease_id: must be a non-empty string when present")
    >> raise_if (not_operations r.operations)
        (value_error "operations: must be unique non-empty strings")

abbrev pub with_token : String → Outcome EventRecord × Database → Outcome String × Database
with_token token (ok event, d) = (ok token, d)
with_token token (raised e, d) = (raised e, d)

module _ (fullmatch : String → String → Bool) (sha256 : String → String)
    (canonical_timestamp : ℕ → String) (reducer : Reducer) where
  unfoldable pub persist_checked :
      Stamp → String → CapabilityRecord → Outcome (Unit {0}) → Tx Database String
  persist_checked stamp token r (ok u) d =
      with_token token (persist reducer canonical_timestamp stamp r d)
  persist_checked stamp token r (raised e) d = (raised e, d)

  -- `CapabilityIssuer.mint` of a text that the factory of tokens has returned
  unfoldable pub mint : Stamp → String → CapabilityGrant → Tx Database String
  unfolding granted_record persist_checked check_record
  mint stamp token grant d =
      let r = granted_record (sha256 token) grant in
      if same_text token ""
      then (raised (value_error "token factory must return a non-empty string"), d)
      else persist_checked stamp token r (check_record fullmatch r) d
