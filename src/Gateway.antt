-- ===== src/Gateway.antt =====
-- The gateway through which workers call tools (gateway/service.py, `CapabilityGateway`). The hash of a
-- token, the two clocks, the request's identifier and the redaction of identifiers are arguments; the
-- monotonic clock counts in the unit of the window, and is missing where it is not finite.
pub mod Tools
pub mod Authority
pub mod Budgets
pub mod Runs
pub mod Minting
pub mod Names
pub mod Grants
mod Tests
use aizim.Prelude.{
  ℕ, ◌+◌, ◌-◌, Bool, true, false, not, ◌||◌, Option, none, some, List, [], ◌∷◌, String, same_text,
  same_text?, is_some, ltb, leb, if◌then◌else◌,
}
use aizim.Outcome.{Outcome}
use aizim.Tx.{Tx, pure, gets, ◌>>=◌, ◌>>◌}
use aizim.Json.{JsonObject, JsonValue, string, end, field}
use aizim.Events.{AppendEventCommand, EventRecord, Stamp, capability_denied}
use aizim.Projections.{contains}
use aizim.Database.{CapabilityRecord, Database}
use aizim.Tokens.{capability_record}
use aizim.Store.{Reducer}
use aizim.Service.{append_event}
use aizim.Control.{AgentRole, role_value}
use Tools.{GatewayTool, tool_value, role_capabilities, tool_of, role_of, has_tool}

pub record GatewayLimits : Type 0 where
  pub request_limit : ℕ
  pub window : ℕ
  pub run_budget : ℕ

pub record CapabilitySession : Type 0 where
  pub token : Option String
  pub run_id : String
  pub worker_id : String
  pub role : String
  pub lease_id : Option String

pub record AuthorizedCall : Type 0 where
  pub request_id : String
  pub run_id : String
  pub worker_id : String
  pub role : AgentRole
  pub lease_id : Option String
  pub operation : GatewayTool
  pub payload : JsonObject

pub record RunCount : Type 0 where
  pub run_id : String
  pub count : ℕ

-- The attributes of `CapabilityGateway` that change.
pub record GatewayState : Type 0 where
  pub window_started : ℕ
  pub window_count : ℕ
  pub run_counts : List RunCount

-- What `call` has decided: a reason for a denial, with the run of the stored token if it was found, or
-- the call for the tool.
pub data Decision : Type 0 where
  denied : String → Option String → Decision
  authorized : AuthorizedCall → Decision

-- Past the start of a new window
unfoldable pub open_window : GatewayLimits → ℕ → GatewayState → GatewayState
open_window limits now g =
    if ltb now g.window_started || leb limits.window (now - g.window_started)
    then record g { window_started = now; window_count = 0 }
    else g

unfoldable pub take_in_window : GatewayLimits → GatewayState → Bool × GatewayState
take_in_window limits g =
    if leb limits.request_limit g.window_count
    then (false, g)
    else (true, record g { window_count = g.window_count + 1 })

-- `_take_global_request`
unfoldable pub take_global_request : GatewayLimits → Option ℕ → GatewayState → Bool × GatewayState
unfolding open_window take_in_window
take_global_request limits none g = (false, g)
take_global_request limits (some now) g = take_in_window limits (open_window limits now g)

-- `self._run_counts.get(run_id, 0)`
unfoldable pub run_count : String → List RunCount → ℕ
run_count run [] = 0
run_count run (c ∷ cs) = if same_text c.run_id run then c.count else run_count run cs

-- `self._run_counts[run_id] = count`
unfoldable pub set_run_count : String → ℕ → List RunCount → List RunCount
set_run_count run n [] = record { run_id = run; count = n } ∷ []
set_run_count run n (c ∷ cs) =
    if same_text c.run_id run
    then record { run_id = run; count = n } ∷ cs
    else c ∷ set_run_count run n cs

-- `_take_run_request`
unfoldable pub take_run_request : GatewayLimits → String → GatewayState → Bool × GatewayState
unfolding run_count set_run_count
take_run_request limits run g =
    let count = run_count run g.run_counts in
    if leb limits.run_budget count
    then (false, g)
    else (true, record g { run_counts = set_run_count run (count + 1) g.run_counts })

-- `_binding_denial`
unfoldable pub binding_denial : CapabilityRecord → CapabilitySession → Option String
binding_denial record' session =
    if not (same_text session.run_id record'.run_id)
    then some "RUN_MISMATCH"
    else if not (same_text session.worker_id record'.worker_id)
    then some "WORKER_MISMATCH"
    else if not (same_text session.role record'.role)
    then some "ROLE_MISMATCH"
    else if not (same_text? session.lease_id record'.lease_id)
    then some "LEASE_MISMATCH"
    else none

module _ (registered : GatewayTool → Bool) (request_id : String) (payload : JsonObject) where
  -- The last four tests of `call`, on a role and an operation that have been parsed.
  unfoldable pub authorize_operation :
      CapabilityRecord → Option AgentRole → Option GatewayTool → Decision
  unfolding has_tool role_capabilities contains
  authorize_operation record' (some role) (some tool) =
      if not (has_tool tool (role_capabilities role))
      then denied "UNADVERTISED_OPERATION" (some record'.run_id)
      else if not (contains (tool_value tool) record'.operations)
      then denied "OPERATION_NOT_MINTED" (some record'.run_id)
      else if not (registered tool)
      then denied "TARGET_UNREGISTERED" (some record'.run_id)
      else authorized (record {
        request_id = request_id;
        run_id = record'.run_id;
        worker_id = record'.worker_id;
        role = role;
        lease_id = record'.lease_id;
        operation = tool;
        payload = payload;
      })
  authorize_operation record' _ _ = denied "UNADVERTISED_OPERATION" (some record'.run_id)

  -- The tests of `call` on a stored token.
  unfoldable pub authorize_record :
      ℕ → CapabilityRecord → CapabilitySession → String → Option String → Decision
  unfolding authorize_operation
  authorize_record now record' session operation (some reason) = denied reason (some record'.run_id)
  authorize_record now record' session operation none =
      authorize_operation record' (role_of record'.role) (tool_of operation)

  unfoldable pub authorize_token : ℕ → CapabilityRecord → CapabilitySession → String → Decision
  unfolding authorize_record binding_denial
  authorize_token now record' session operation =
      if leb record'.expires_at now
      then denied "TOKEN_EXPIRED" (some record'.run_id)
      else if is_some record'.revoked_at
      then denied "TOKEN_REVOKED" (some record'.run_id)
      else authorize_record now record' session operation (binding_denial record' session)

  -- `call` on the record of the presented token, if there is one
  unfoldable pub decide_found :
      GatewayLimits
      → ℕ
      → CapabilitySession
      → String
      → String
      → Option CapabilityRecord
      → GatewayState
      → Decision × GatewayState
  unfolding authorize_token take_run_request
  decide_found limits now session operation presented none g = (denied "UNKNOWN_TOKEN" none, g)
  decide_found limits now session operation presented (some record') g =
      let (taken, g') = take_run_request limits record'.run_id g in
      if not (same_text record'.token_hash presented)
      then (denied "UNKNOWN_TOKEN" none, g)
      else if taken
      then (authorize_token now record' session operation, g')
      else (denied "RUN_BUDGET_EXHAUSTED" (some record'.run_id), g')

  module _ (sha256 : String → String) where
    unfoldable pub decide_token :
        GatewayLimits
        → ℕ
        → CapabilitySession
        → String
        → Option String
        → Database
        → GatewayState
        → Decision × GatewayState
    unfolding decide_found
    decide_token limits now session operation none d g = (denied "MISSING_TOKEN" none, g)
    decide_token limits now session operation (some token) d g =
        if same_text token ""
        then (denied "MISSING_TOKEN" none, g)
        else decide_found limits now session operation (sha256 token)
            (capability_record (sha256 token) d.capability_tokens) g

    -- `call`, up to the denial or the tool
    unfoldable pub decide :
        GatewayLimits
        → Option ℕ
        → ℕ
        → CapabilitySession
        → String
        → Database
        → GatewayState
        → Decision × GatewayState
    unfolding decide_token take_global_request
    decide limits monotonic now session operation d g =
        let (taken, g') = take_global_request limits monotonic g in
        if taken
        then decide_token limits now session operation session.token d g'
        else (denied "REQUEST_RATE_EXCEEDED" none, g')

abbrev redacted : String
redacted = "<redacted>"

-- `_safe_identifier`, over `re`'s full match and search
unfoldable pub safe_identifier :
    (String → String → Bool) → (String → String → Bool) → String → String
safe_identifier fullmatch search' value =
    if not (fullmatch "[A-Za-z0-9][A-Za-z0-9_.:-]{0,127}" value)
      || search' "[A-Za-z0-9_-]{32,}" value
    then redacted
    else value

-- `_safe_role`
unfoldable pub safe_role : String → String
safe_role value = elim (role_of value) [ none ↦ redacted | some role ↦ role_value role ]

-- `_safe_operation`
unfoldable pub safe_operation : String → String
safe_operation value = elim (tool_of value) [ none ↦ redacted | some tool ↦ tool_value tool ]

abbrev run_or_claim : Option String → CapabilitySession → String
run_or_claim none session = session.run_id
run_or_claim (some run) session = run

-- The command that `_deny` appends
unfoldable pub denial :
    (String → String)
    → String
    → String
    → CapabilitySession
    → String
    → Option String
    → AppendEventCommand
denial safe reason request_id session operation persisted_run = record {
  event_type = capability_denied;
  actor = "capability_gateway";
  run_id = some (safe (run_or_claim persisted_run session));
  causation_id = none;
  payload = field "reason_code" (string reason) (
      field "role" (string (safe_role session.role)) (
        field "worker_id" (string (safe session.worker_id)) (
          field "operation" (string (safe_operation operation))
            (field "request_id" (string (safe request_id)) end))));
}

-- What `call` returns: the call that the tool is given, or the event of the denial.
pub data GatewayResult : Type 0 where
  success : AuthorizedCall → GatewayResult
  failure : String → GatewayResult

-- `_deny`, and the call of the tool, which is outside
unfoldable pub answer :
    Reducer
    → Stamp
    → (String → String)
    → String
    → CapabilitySession
    → String
    → Decision
    → Tx Database GatewayResult
unfolding denial
answer reducer stamp safe request_id session operation (authorized c) = pure (success c)
answer reducer stamp safe request_id session operation (denied reason run) = do
  event ← append_event reducer stamp (denial safe reason request_id session operation run)
  pure (failure event.envelope.event_id)
