-- ===== src/Reducers.antt =====
-- The reducer of the event store (state/reducers.py): what an event writes to the projections.
pub mod Names
mod Tests
pub mod Versions
use aizim.Prelude.{
  ℕ, ◌+◌, Bool, true, false, ◌&&◌, Option, none, some, List, [], ◌∷◌, ◌++◌, String, same_text,
  is_some, if◌then◌else◌,
}
use Prim.Native.String.{◌++◌ as append}
use aizim.Outcome.{Outcome, ok, raised, key_error, ◌>>=◌}
use aizim.Json.{
  JsonValue, JsonObject, string, object, end, field, get, get_text, get_object, merge, as_object,
  text_or_null,
}
use aizim.Events.{
  EventType, EventEnvelope, type_name, research_record_updated, project_initialized, run_created,
  run_completed, run_aborted, artifact_registered, formal_trace_sealed,
  evaluation_transition_rejected, schedule_proposed, controller_configured, worker_registered,
  worker_configured, worker_task_assigned, worker_started, worker_stopped, worker_crashed,
  worker_timed_out, agent_run_completed, worker_cursor_saved, capability_minted, capability_denied,
  sandbox_probe_started, sandbox_probe_denied, sandbox_probe_passed, sandbox_probe_failed,
  lease_granted, lease_released, lease_recovered, document_edit_prepared, document_edited,
  document_edit_recovered, formal_action_recorded, contribution_submitted, contribution_rebased,
  contribution_enqueued, promotion_state_changed, promotion_prepared,
  promotion_verification_recorded, promotion_failed, declaration_published,
  knowledge_delta_published, knowledge_delta_acknowledged, lean_runtime_started,
  lean_runtime_crashed, lean_runtime_restarted, lean_runtime_stopped,
  environment_transition_proposed, environment_transition_approved, environment_transition_rejected,
  alignment_reviewed, intervention_recorded, controller_started, controller_stopped,
  controller_crashed, worker_task_claimed, worker_task_dispatch_planned, worker_task_completed,
  worker_task_failed, worker_task_interrupted,
}
use aizim.Projections.{ProjectionRecord, find_record}
use aizim.Orchestration.{orchestration_projection, reduce_orchestration_payload}

-- `_EVENT_PROJECTION`
unfoldable pub event_projection : EventType → String
event_projection research_record_updated = "research"
event_projection project_initialized = "project"
event_projection run_created = "runs"
event_projection run_completed = "runs"
event_projection run_aborted = "runs"
event_projection artifact_registered = "artifacts"
event_projection formal_trace_sealed = "evaluations"
event_projection evaluation_transition_rejected = "evaluations"
event_projection schedule_proposed = "schedules"
event_projection controller_configured = "controller"
event_projection worker_registered = "workers"
event_projection worker_configured = "worker_roster"
event_projection worker_task_assigned = "worker_assignments"
event_projection worker_started = "workers"
event_projection worker_stopped = "workers"
event_projection worker_crashed = "workers"
event_projection worker_timed_out = "workers"
event_projection agent_run_completed = "workers"
event_projection worker_cursor_saved = "worker_cursors"
event_projection capability_minted = "resources"
event_projection capability_denied = "denials"
event_projection sandbox_probe_started = "resources"
event_projection sandbox_probe_denied = "denials"
event_projection sandbox_probe_passed = "resources"
event_projection sandbox_probe_failed = "denials"
event_projection lease_granted = "leases"
event_projection lease_released = "leases"
event_projection lease_recovered = "leases"
event_projection document_edit_prepared = "documents"
event_projection document_edited = "documents"
event_projection document_edit_recovered = "documents"
event_projection formal_action_recorded = "formal_actions"
event_projection contribution_submitted = "contributions"
event_projection contribution_rebased = "contributions"
event_projection contribution_enqueued = "contributions"
event_projection promotion_state_changed = "contributions"
event_projection promotion_prepared = "contributions"
event_projection promotion_verification_recorded = "evaluations"
event_projection promotion_failed = "contributions"
event_projection declaration_published = "verified_declarations"
event_projection knowledge_delta_published = "knowledge_deltas"
event_projection knowledge_delta_acknowledged = "knowledge_acknowledgements"
event_projection lean_runtime_started = "resources"
event_projection lean_runtime_crashed = "resources"
event_projection lean_runtime_restarted = "resources"
event_projection lean_runtime_stopped = "resources"
event_projection environment_transition_proposed = "project"
event_projection environment_transition_approved = "project"
event_projection environment_transition_rejected = "project"
event_projection alignment_reviewed = "alignment_reviews"
event_projection intervention_recorded = "interventions"
event_projection controller_started = "controller_runtime"
event_projection controller_stopped = "controller_runtime"
event_projection controller_crashed = "controller_runtime"
event_projection worker_task_claimed = "worker_executions"
event_projection worker_task_dispatch_planned = "worker_executions"
event_projection worker_task_completed = "worker_executions"
event_projection worker_task_failed = "worker_executions"
event_projection worker_task_interrupted = "worker_executions"

-- `_ENTITY_FIELD`
entity_field : EventType → Option String
entity_field research_record_updated = some "record_id"
entity_field project_initialized = some "project_id"
entity_field artifact_registered = some "content_hash"
entity_field evaluation_transition_rejected = some "requested_hash"
entity_field schedule_proposed = some "directive_id"
entity_field controller_configured = some "controller_id"
entity_field worker_registered = some "worker_id"
entity_field worker_configured = some "worker_id"
entity_field worker_task_assigned = some "worker_id"
entity_field worker_started = some "worker_id"
entity_field worker_stopped = some "worker_id"
entity_field worker_crashed = some "worker_id"
entity_field worker_timed_out = some "worker_id"
entity_field agent_run_completed = some "worker_id"
entity_field worker_cursor_saved = some "worker_id"
entity_field capability_denied = some "request_id"
entity_field sandbox_probe_started = some "probe_id"
entity_field sandbox_probe_denied = some "probe_id"
entity_field sandbox_probe_passed = some "probe_id"
entity_field sandbox_probe_failed = some "probe_id"
entity_field lease_granted = some "lease_id"
entity_field lease_released = some "lease_id"
entity_field lease_recovered = some "lease_id"
entity_field document_edit_prepared = some "document_id"
entity_field document_edited = some "document_id"
entity_field document_edit_recovered = some "document_id"
entity_field formal_action_recorded = some "action_id"
entity_field contribution_submitted = some "contribution_id"
entity_field contribution_rebased = some "contribution_id"
entity_field contribution_enqueued = some "contribution_id"
entity_field promotion_state_changed = some "contribution_id"
entity_field promotion_prepared = some "contribution_id"
entity_field promotion_verification_recorded = some "contribution_id"
entity_field promotion_failed = some "contribution_id"
entity_field declaration_published = some "declaration_id"
entity_field knowledge_delta_published = some "delta_id"
entity_field knowledge_delta_acknowledged = some "acknowledgement_id"
entity_field lean_runtime_started = some "runtime_id"
entity_field lean_runtime_crashed = some "runtime_id"
entity_field lean_runtime_restarted = some "runtime_id"
entity_field lean_runtime_stopped = some "runtime_id"
entity_field environment_transition_proposed = some "transition_id"
entity_field environment_transition_approved = some "transition_id"
entity_field environment_transition_rejected = some "transition_id"
entity_field alignment_reviewed = some "review_id"
entity_field intervention_recorded = some "intervention_id"
entity_field controller_started = some "controller_id"
entity_field controller_stopped = some "controller_id"
entity_field controller_crashed = some "controller_id"
entity_field worker_task_claimed = some "assignment_id"
entity_field worker_task_dispatch_planned = some "assignment_id"
entity_field worker_task_completed = some "assignment_id"
entity_field worker_task_failed = some "assignment_id"
entity_field worker_task_interrupted = some "assignment_id"
entity_field _ = none

-- The last two lines of `_entity_id`: an empty or missing text gives way to the event's identifier.
text_or_event_id : Option String → String → String
text_or_event_id none event_id = event_id
text_or_event_id (some value) event_id = if same_text value "" then event_id else value

-- `value` in `_entity_id`
entity_value : EventEnvelope → Option String
unfolding entity_field
entity_value event = elim (entity_field event.event_type) [
  | none ↦ event.run_id
  | some name ↦ get_text name event.payload
]

-- The identifier of an artifact, where it has a run and a path.
artifact_entity : EventType → Option String → Option String → Option String
artifact_entity artifact_registered (some run) (some relative) =
    some (append run (append ":" relative))
artifact_entity _ _ _ = none

unfoldable pub entity_id : EventEnvelope → String
unfolding text_or_event_id entity_value artifact_entity
entity_id event =
    elim (artifact_entity event.event_type event.run_id (get_text "relative_path" event.payload)) [
      | some entity ↦ entity
      | none ↦ text_or_event_id (entity_value event) event.event_id
    ]

-- `_next_version`
unfoldable pub next_version : List ProjectionRecord → String → String → ℕ
next_version snapshots name entity = elim (find_record name entity snapshots) [
  | none ↦ 1
  | some current ↦ current.version + 1
]

-- `_record`
unfoldable pub next_record : List ProjectionRecord → String → String → JsonValue → ProjectionRecord
unfolding next_version
next_record snapshots name entity state = record {
  projection_name = name;
  entity_id = entity;
  version = next_version snapshots name entity;
  state_json = state;
}

-- The state that an event gives to its entity.
unfoldable pub event_state : EventEnvelope → JsonObject → JsonValue
event_state event payload = object (
    field "event_id" (string event.event_id) (
      field "event_type" (string (type_name event.event_type))
        (field "payload" (object payload) (field "run_id" (text_or_null event.run_id) end))))

abbrev is_lease_end : EventType → Bool
is_lease_end lease_released = true
is_lease_end lease_recovered = true
is_lease_end _ = false

-- The payload of a projection's state, where it has one.
unfoldable pub stored_payload : ProjectionRecord → Option JsonObject
stored_payload r = elim (as_object r.state_json) [
  | none ↦ none
  | some state ↦ get_object "payload" state
]

-- The branch of `_projection_payload` for the end of a lease: what the lease held is kept.
pub lease_end_payload : List ProjectionRecord → JsonObject → JsonObject
lease_end_payload snapshots payload = elim (get_text "lease_id" payload) [
  | none ↦ payload
  | some lease ↦ elim (find_record "leases" lease snapshots) [
    | none ↦ payload
    | some previous ↦ elim (stored_payload previous) [
      | none ↦ payload
      | some held ↦ merge held payload
    ]
  ]
]

-- `_projection_payload`
unfoldable pub projection_payload : List ProjectionRecord → EventEnvelope → Outcome JsonObject
unfolding lease_end_payload
projection_payload snapshots event = elim (orchestration_projection event.event_type) [
  | some name ↦ reduce_orchestration_payload name snapshots event
  | none ↦ ok (
      if is_lease_end event.event_type
      then lease_end_payload snapshots event.payload
      else event.payload)
]

has_keys : List String → JsonObject → Bool
has_keys [] o = true
has_keys (k ∷ ks) o = is_some (get k o) && has_keys ks o

-- `_complete_document_payload`
unfoldable pub complete_document_payload : JsonObject → Option String
unfolding has_keys
complete_document_payload payload =
    if has_keys
      ("lease_id" ∷ "worker_id" ∷ "document_id" ∷ "relative_path" ∷ "virtual_document_namespace"
        ∷ "base_epoch" ∷ "knowledge_epoch" ∷ "version" ∷ "content_hash" ∷ "expires_at" ∷ [])
      payload
    then get_text "document_id" payload
    else none

-- The second record that the grant of a lease writes.
unfoldable pub document_changes :
    List ProjectionRecord → EventEnvelope → JsonObject → List ProjectionRecord
unfolding complete_document_payload next_record
document_changes snapshots event payload = elim (complete_document_payload payload) [
  | none ↦ []
  | some document ↦ next_record snapshots "documents" document (event_state event payload) ∷ []
]

abbrev pub is_lease_granted : EventType → Bool
is_lease_granted lease_granted = true
is_lease_granted _ = false

abbrev pub sets_epoch : EventType → Bool
sets_epoch project_initialized = true
sets_epoch knowledge_delta_published = true
sets_epoch _ = false

abbrev pub required : String → JsonObject → Outcome JsonValue
required k payload = elim (get k payload) [ none ↦ raised (key_error k) | some v ↦ ok v ]

-- The record of the current epoch.
unfoldable pub epoch_change : List ProjectionRecord → JsonObject → Outcome (List ProjectionRecord)
unfolding next_record
epoch_change snapshots payload = do
  base ← required "base_epoch" payload
  knowledge ← required "knowledge_epoch" payload
  ok (
      next_record snapshots "epochs" "global"
        (object (field "base_epoch" base (field "knowledge_epoch" knowledge end)))
      ∷ [])

-- `apply_event`: the changed records, the event's own entity first
unfoldable pub apply_event : List ProjectionRecord → EventEnvelope → Outcome (List ProjectionRecord)
unfolding document_changes epoch_change
apply_event snapshots event = do
  payload ← projection_payload snapshots event
  epochs ← (if sets_epoch event.event_type then epoch_change snapshots payload else ok [])
  ok (
      next_record snapshots (event_projection event.event_type) (entity_id event)
        (event_state event payload)
      ∷ ((if is_lease_granted event.event_type
            then document_changes snapshots event payload
            else [])
          ++ epochs))
