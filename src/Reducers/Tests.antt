-- ===== src/Reducers/Tests.antt =====
-- Reductions of concrete events, and the theorems at them.
use mathlib.Core.List.{Memᴰ}
use aizim.Prelude.{◌≡◌, refl, List, [], ◌∷◌, Option, none, String}
use aizim.Outcome.{ok, raised, projection_authority_error}
use aizim.Json.{
  JsonObject, string, object, end, field, get, put, get_text, get_object, merge, value_eq,
  integer_eq,
}
use aizim.Events.{EventType, EventEnvelope, event_schema_version, type_name, worker_task_completed}
use aizim.Projections.{ProjectionRecord, find_record, is_registered, contains}
use aizim.Orchestration.{
  orchestration_projection, target_status, is_text, is_none, allowed_previous, previous_payload,
  same_value?, require_same_execution, merged_payload, entity_of, status_of,
  reduce_orchestration_payload,
}
use aizim.Orchestration.Statuses.{Precedes, reduce-allowed, reduce-ended}
use aizim.Reducers.{
  event_projection, entity_id, next_version, next_record, event_state, projection_payload,
  apply_event,
}
use aizim.Reducers.Versions.{Follows, apply_event-version, apply_event-writes}
use aizim.Store.{write_changes}

abbrev execution : JsonObject
execution = field "assignment_id" (string "task") (field "execution_id" (string "x") end)

abbrev put_status : String → JsonObject
put_status status =
    field "assignment_id" (string "task")
      (field "execution_id" (string "x") (field "status" (string status) end))

abbrev execution_event : EventType → EventEnvelope
execution_event t = record {
  event_id = "01";
  schema_version = event_schema_version;
  event_type = t;
  occurred_at = 0;
  actor = "controller";
  run_id = none;
  causation_id = none;
  payload = execution;
}

abbrev stored_with : String → ProjectionRecord
stored_with status = record {
  projection_name = "worker_executions";
  entity_id = "task";
  version = 4;
  state_json = object (field "payload" (object (put_status status)) end);
}

abbrev planned : List ProjectionRecord
planned = stored_with "planned" ∷ []

abbrev completed : ProjectionRecord
completed = record {
  projection_name = "worker_executions";
  entity_id = "task";
  version = 5;
  state_json = event_state (execution_event worker_task_completed) (put_status "completed");
}

reduce-allowed_example :
    (entity : String) × (previous : Option JsonObject) × (entity_of "worker_executions"
        worker_task_completed execution
      ≡ ok entity)
    × (previous_payload "worker_executions" (find_record "worker_executions" entity planned)
        ≡ ok previous)
    × Precedes
        (status_of previous)
        worker_task_completed
        (get_text "status" (put_status "completed"))
unfolding apply_event projection_payload reduce_orchestration_payload entity_of merged_payload
    previous_payload allowed_previous require_same_execution same_value? is_text is_none
    target_status orchestration_projection find_record get get_text get_object put merge value_eq
    integer_eq event_projection entity_id next_version next_record event_state type_name contains
    is_registered
reduce-allowed_example =
    reduce-allowed "worker_executions" planned (execution_event worker_task_completed)
      (put_status "completed") refl

reduce-ended_example :
    reduce_orchestration_payload "worker_executions"
      (stored_with "failed" ∷ [])
      (execution_event worker_task_completed)
    ≡ raised (projection_authority_error "worker_executions" "transition is not allowed")
unfolding apply_event projection_payload reduce_orchestration_payload entity_of merged_payload
    previous_payload allowed_previous require_same_execution same_value? is_text is_none
    target_status orchestration_projection find_record get get_text get_object put merge value_eq
    integer_eq event_projection entity_id next_version next_record event_state type_name contains
    is_registered
reduce-ended_example =
    reduce-ended "worker_executions" "task" "failed" (stored_with "failed" ∷ [])
      (execution_event worker_task_completed) (put_status "failed") refl refl refl refl

apply_event-version_example :
    Follows (find_record "worker_executions" "task" planned) completed.version
unfolding apply_event projection_payload reduce_orchestration_payload entity_of merged_payload
    previous_payload allowed_previous require_same_execution same_value? is_text is_none
    target_status orchestration_projection find_record get get_text get_object put merge value_eq
    integer_eq event_projection entity_id next_version next_record event_state type_name contains
    is_registered
apply_event-version_example =
    apply_event-version planned (completed ∷ []) (execution_event worker_task_completed) completed
      refl (Memᴰ.head refl)

apply_event-writes_example :
    (rs : List ProjectionRecord) × (write_changes (completed ∷ []) planned ≡ ok rs)
unfolding apply_event projection_payload reduce_orchestration_payload entity_of merged_payload
    previous_payload allowed_previous require_same_execution same_value? is_text is_none
    target_status orchestration_projection find_record get get_text get_object put merge value_eq
    integer_eq event_projection entity_id next_version next_record event_state type_name contains
    is_registered
apply_event-writes_example =
    apply_event-writes planned (completed ∷ []) planned (execution_event worker_task_completed) refl
