-- ===== src/Orchestration.antt =====
-- The reducer of controller and execution events (state/projections_orchestration.py). The text of
-- a refused transition, which prints both statuses, is shortened.
pub mod Statuses
use aizim.Prelude.{
  Bool, true, false, ◌||◌, not, Option, none, some, List, String, same_text, if◌then◌else◌,
}
use aizim.Outcome.{
  Outcome, ok, raised, key_error, projection_authority_error, raise_if, ◌>>=◌, ◌>>◌,
}
use aizim.Json.{
  JsonValue, JsonObject, null, string, get, put, merge, value_eq, as_text, as_object, get_object,
}
use aizim.Events.{
  EventType, EventEnvelope, controller_started, controller_stopped, controller_crashed,
  worker_task_claimed, worker_task_dispatch_planned, worker_task_completed, worker_task_failed,
  worker_task_interrupted,
}
use aizim.Projections.{ProjectionRecord, find_record}

unfoldable pub orchestration_projection : EventType → Option String
orchestration_projection controller_started = some "controller_runtime"
orchestration_projection controller_stopped = some "controller_runtime"
orchestration_projection controller_crashed = some "controller_runtime"
orchestration_projection worker_task_claimed = some "worker_executions"
orchestration_projection worker_task_dispatch_planned = some "worker_executions"
orchestration_projection worker_task_completed = some "worker_executions"
orchestration_projection worker_task_failed = some "worker_executions"
orchestration_projection worker_task_interrupted = some "worker_executions"
orchestration_projection _ = none

orchestration_entity_field : EventType → String
orchestration_entity_field controller_started = "controller_id"
orchestration_entity_field controller_stopped = "controller_id"
orchestration_entity_field controller_crashed = "controller_id"
orchestration_entity_field worker_task_claimed = "assignment_id"
orchestration_entity_field worker_task_dispatch_planned = "assignment_id"
orchestration_entity_field worker_task_completed = "assignment_id"
orchestration_entity_field worker_task_failed = "assignment_id"
orchestration_entity_field worker_task_interrupted = "assignment_id"
orchestration_entity_field _ = ""

unfoldable pub target_status : EventType → String
target_status controller_started = "running"
target_status controller_stopped = "stopped"
target_status controller_crashed = "crashed"
target_status worker_task_claimed = "claimed"
target_status worker_task_dispatch_planned = "planned"
target_status worker_task_completed = "completed"
target_status worker_task_failed = "failed"
target_status worker_task_interrupted = "interrupted"
target_status _ = ""

-- A status that is missing, or that is `null`, is `None`.
unfoldable pub is_text : Option JsonValue → String → Bool
is_text (some (string s)) t = same_text s t
is_text _ t = false

unfoldable pub is_none : Option JsonValue → Bool
is_none none = true
is_none (some null) = true
is_none (some _) = false

-- `previous_status in _ALLOWED_PREVIOUS[event_type]`
unfoldable pub allowed_previous : EventType → Option JsonValue → Bool
unfolding is_text is_none
allowed_previous controller_started s = is_none s || is_text s "stopped" || is_text s "crashed"
allowed_previous controller_stopped s = is_text s "running"
allowed_previous controller_crashed s = is_text s "running"
allowed_previous worker_task_claimed s = is_none s
allowed_previous worker_task_dispatch_planned s = is_text s "claimed"
allowed_previous worker_task_completed s = is_text s "planned"
allowed_previous worker_task_failed s = is_text s "claimed" || is_text s "planned"
allowed_previous worker_task_interrupted s = is_text s "claimed" || is_text s "planned"
allowed_previous _ s = false

-- `_previous_payload`
unfoldable pub previous_payload : String → Option ProjectionRecord → Outcome (Option JsonObject)
previous_payload name none = ok none
previous_payload name (some record') = elim (as_object record'.state_json) [
  | none ↦ raised (projection_authority_error name "stored state is invalid")
  | some state ↦ elim (get_object "payload" state) [
    | none ↦ raised (projection_authority_error name "stored payload is invalid")
    | some payload ↦ ok (some payload)
  ]
]

-- The field that names one execution, or one session of the controller.
execution_field : EventType → String
execution_field controller_stopped = "controller_session_id"
execution_field controller_crashed = "controller_session_id"
execution_field _ = "execution_id"

-- Equality of two results of `dict.get`; `null` is `None`.
unfoldable pub same_value? : Option JsonValue → Option JsonValue → Bool
same_value? none none = true
same_value? none (some w) = value_eq null w
same_value? (some v) none = value_eq v null
same_value? (some v) (some w) = value_eq v w

-- `_require_same_execution`
unfoldable pub require_same_execution :
    String → EventType → JsonObject → JsonObject → Outcome (Unit {0})
unfolding execution_field same_value?
require_same_execution name event_type previous current =
    raise_if
      (not (
        same_value? (get (execution_field event_type) previous)
          (get (execution_field event_type) current)))
      (projection_authority_error name "execution does not match")

-- `{**previous, **payload}`, when there is a previous payload of the same execution
unfoldable pub merged_payload :
    String → EventType → Option JsonObject → JsonObject → Outcome JsonObject
unfolding require_same_execution
merged_payload name event_type none payload = ok payload
merged_payload name event_type (some previous) payload = do
  require_same_execution name event_type previous payload
  ok (merge previous payload)

-- `previous_payload.get("status")`
abbrev pub status_of : Option JsonObject → Option JsonValue
status_of none = none
status_of (some payload) = get "status" payload

-- `event.payload[entity_field]`, which must be a text
unfoldable pub entity_of : String → EventType → JsonObject → Outcome String
unfolding orchestration_entity_field
entity_of name event_type payload = elim (get (orchestration_entity_field event_type) payload) [
  | none ↦ raised (key_error (orchestration_entity_field event_type))
  | some v ↦ elim (as_text v) [
    | none ↦ raised (projection_authority_error name "entity identifier is invalid")
    | some entity ↦ ok entity
  ]
]

-- `reduce_orchestration_payload`, at the projection that the event's type has
unfoldable pub reduce_orchestration_payload :
    String → List ProjectionRecord → EventEnvelope → Outcome JsonObject
unfolding entity_of merged_payload
reduce_orchestration_payload name snapshots event = do
  entity ← entity_of name event.event_type event.payload
  previous ← previous_payload name (find_record name entity snapshots)
  raise_if (not (allowed_previous event.event_type (status_of previous)))
      (projection_authority_error name "transition is not allowed")
  payload ← merged_payload name event.event_type previous event.payload
  ok (put "status" (string (target_status event.event_type)) payload)
