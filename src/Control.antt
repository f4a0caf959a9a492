-- ===== src/Control.antt =====
-- The operator's requests to the service (state/control_operations.py): the controller's provider,
-- the roster of workers and their tasks. Regular expressions, hashes, the length of a text in bytes
-- and the test for a blank text are parameters.
pub mod Roster
mod Tests
use aizim.Prelude.{
  ℕ, ◌+◌, ◌*◌, Bool, true, false, not, ◌||◌, Option, none, some, String, is_some, ltb,
}
use aizim.Outcome.{
  Failure, Outcome, ok, raised, control_operation_error, projection_authority_error,
}
use aizim.Tx.{Tx, pure, gets, lift, refuse_if, ◌>>=◌, ◌>>◌}
use aizim.Json.{JsonObject, string, integer, pos, end, field, put}
use aizim.Events.{
  EventType, AppendEventCommand, EventRecord, Stamp, controller_configured, worker_configured,
  worker_task_assigned,
}
use aizim.Projections.{ProjectionRecord, find_record, is_registered}
use aizim.Database.{Database}
use aizim.Store.{Reducer}
use aizim.Service.{append_event}

-- `AgentRole` (domain/model.py)
pub data AgentRole : Type 0 where
  research_conductor literature_scout boundary_mapper conjecture_generator novelty_auditor
        formalizer formal_planner proof_explorer lemma_inventor counterexample_agent
        learning_agent :
      AgentRole

abbrev pub role_value : AgentRole → String
role_value research_conductor = "research_conductor"
role_value literature_scout = "literature_scout"
role_value boundary_mapper = "boundary_mapper"
role_value conjecture_generator = "conjecture_generator"
role_value novelty_auditor = "novelty_auditor"
role_value formalizer = "formalizer"
role_value formal_planner = "formal_planner"
role_value proof_explorer = "proof_explorer"
role_value lemma_inventor = "lemma_inventor"
role_value counterexample_agent = "counterexample_agent"
role_value learning_agent = "learning_agent"

abbrev pub controller_id : String
controller_id = "primary"

abbrev pub max_task_bytes : ℕ
max_task_bytes = 64 * 1024

-- `query_projection` of the store
unfoldable pub query_projection : String → String → Tx Database (Option ProjectionRecord)
query_projection name entity = do
  refuse_if (not (is_registered name)) (projection_authority_error name "name is not registered")
  gets (λ d. find_record name entity d.projections)

abbrev pub version_or_raise : Option ProjectionRecord → Outcome ℕ
version_or_raise none = raised (control_operation_error "CONTROL_STATE_INVALID")
version_or_raise (some r) = ok r.version

-- `_projection_version`
unfoldable pub projection_version : String → String → Tx Database ℕ
projection_version name entity = do
  found ← query_projection name entity
  lift (version_or_raise found)

abbrev operator_command : EventType → String → JsonObject → AppendEventCommand
operator_command t actor payload = record {
  event_type = t;
  actor = actor;
  run_id = none;
  causation_id = none;
  payload = payload;
}

with_model : Option String → JsonObject → JsonObject
with_model none payload = payload
with_model (some model) payload = put "model" (string model) payload

abbrev next_task_version : Option ProjectionRecord → ℕ
next_task_version none = 1
next_task_version (some previous) = previous.version + 1

-- `re.compile(pattern).fullmatch(text) is not None`, and `not text.strip()`
module _ (reducer : Reducer) (fullmatch : String → String → Bool) (is_blank : String → Bool) where
  is_blank_model : Option String → Bool
  is_blank_model none = false
  is_blank_model (some model) = is_blank model

  -- `configure_controller`
  unfoldable pub configure_controller : Stamp → String → Option String → Tx Database ℕ
  unfolding is_blank_model with_model
  configure_controller stamp provider model = do
    refuse_if (not (fullmatch "[a-z][a-z0-9_-]{0,63}" provider))
        (control_operation_error "CONTROLLER_PROVIDER_INVALID")
    refuse_if (is_blank_model model) (control_operation_error "CONTROLLER_MODEL_INVALID")
    append_event reducer stamp (
        operator_command controller_configured "operator" (
          with_model model (
            field "controller_id" (string controller_id) (field "provider" (string provider) end))))
    projection_version "controller" controller_id

  -- `_validate_worker_id`
  unfoldable pub validate_worker_id : String → Tx Database (Unit {0})
  validate_worker_id worker_id =
      refuse_if (not (fullmatch "[A-Za-z0-9][A-Za-z0-9_-]{0,63}" worker_id))
        (control_operation_error "WORKER_ID_INVALID")

  -- `register_worker`
  unfoldable pub register_worker : Stamp → String → AgentRole → Tx Database ℕ
  register_worker stamp worker_id role = do
    validate_worker_id worker_id
    known ← query_projection "worker_roster" worker_id
    refuse_if (is_some known) (control_operation_error "WORKER_ALREADY_REGISTERED")
    append_event reducer stamp (
        operator_command worker_configured "operator" (
          field "worker_id" (string worker_id)
            (field "role" (string (role_value role)) (field "status" (string "idle") end))))
    projection_version "worker_roster" worker_id

  module _ (byte_length : String → ℕ) (sha256_bytes : String → String)
      (sha256_json : JsonObject → String) where
    -- `_validate_task`
    unfoldable pub validate_task : String → Tx Database (Unit {0})
    validate_task task =
        refuse_if (is_blank task || ltb max_task_bytes (byte_length task))
          (control_operation_error "WORKER_TASK_INVALID")

    -- The payload of an assignment, with the identifier that hashes its other fields.
    unfoldable pub assignment : String → String → ℕ → JsonObject
    assignment worker_id task task_version =
        field "assignment_id"
          (string (
            sha256_json (
              field "controller_id" (string controller_id) (
                field "worker_id" (string worker_id) (
                  field "task_hash" (string (sha256_bytes task))
                    (field "task_version" (integer (pos task_version)) end))))))
          (field "controller_id" (string controller_id) (
            field "worker_id" (string worker_id) (
              field "task" (string task) (
                field "task_hash" (string (sha256_bytes task))
                  (field "task_version" (integer (pos task_version)) end)))))

    -- `assign_task`
    unfoldable pub assign_task : Stamp → String → String → Tx Database ℕ
    assign_task stamp worker_id task = do
      validate_worker_id worker_id
      validate_task task
      controller ← query_projection "controller" controller_id
      refuse_if (not (is_some controller)) (control_operation_error "CONTROLLER_NOT_CONFIGURED")
      worker ← query_projection "worker_roster" worker_id
      refuse_if (not (is_some worker)) (control_operation_error "WORKER_NOT_REGISTERED")
      previous ← query_projection "worker_assignments" worker_id
      append_event reducer stamp (
          operator_command worker_task_assigned controller_id
            (assignment worker_id task (next_task_version previous)))
      projection_version "worker_assignments" worker_id
