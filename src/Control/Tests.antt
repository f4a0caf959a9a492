-- ===== src/Control/Tests.antt =====
-- An operator's requests, and the theorems at them.
use aizim.Prelude.{ℕ, ◌≡◌, refl, Bool, true, false, none, some, String, is_some}
use aizim.Outcome.{raised, control_operation_error}
use aizim.Json.{JsonObject}
use aizim.Events.{Stamp}
use aizim.Projections.{ProjectionRecord}
use aizim.Database.{Database, initial}
use aizim.Control.{formalizer, proof_explorer, controller_id}
use aizim.Control.Roster.{register_worker-once, assign_task-requires}
use aizim.Reducers.{
  event_projection, entity_id, next_version, next_record, event_state, projection_payload,
  complete_document_payload, document_changes, epoch_change, apply_event,
}
use aizim.Tokens.{
  capability_record, insert_capability, revoke_token, can_revoke, revoke_capability, revoke_lease,
  revoke_lease_capabilities,
}
use aizim.Json.{get, put, integer_eq, object_eq, get_text, get_object, value_eq, object_within}
use aizim.Projections.{contains, is_registered, find_record}
use aizim.Tx.{pure, lift, gets, transaction, rename_failure, ◌>>=◌, refuse_if}
use aizim.Orchestration.{
  orchestration_projection, target_status, is_text, is_none, allowed_previous, previous_payload,
  same_value?, require_same_execution, merged_payload, entity_of, reduce_orchestration_payload,
}
use aizim.Artifacts.{register_artifact}
use aizim.Events.{type_name, is_type, stamped}
use aizim.Control.{
  query_projection, projection_version, configure_controller, validate_worker_id, register_worker,
  validate_task, assignment, assign_task,
}
use aizim.Store.{
  has_event, insert_event, upsert, write_changes, save_projections, apply_event_mutation, append,
  append_within, persist_capability, replay, replayed_projections,
}
use aizim.Service.{append_event}

abbrev every_match : String → String → Bool
every_match pattern text = true

abbrev none_blank : String → Bool
none_blank text = false

abbrev short : String → ℕ
short text = 10

abbrev hash_text : String → String
hash_text text = "hash"

abbrev hash_object : JsonObject → String
hash_object o = "hash"

abbrev stamp : String → Stamp
stamp id = record { event_id = id; now = 0 }

abbrev configured : Database
configured =
    (configure_controller apply_event every_match none_blank (stamp "01") "codex" none initial).1

abbrev registered : Database
registered =
    (register_worker apply_event every_match none_blank (stamp "02") "w" formalizer configured).1

abbrev assigned : Database
assigned =
    (assign_task apply_event every_match none_blank short hash_text hash_object (stamp "03") "w"
      "prove it" registered).1

register_worker-once_example :
    register_worker apply_event every_match none_blank (stamp "03") "w" proof_explorer registered
    ≡ (raised (control_operation_error "WORKER_ALREADY_REGISTERED"), registered)
unfolding event_projection entity_id next_version next_record event_state projection_payload
    complete_document_payload document_changes epoch_change apply_event capability_record
    insert_capability revoke_token can_revoke revoke_capability revoke_lease
    revoke_lease_capabilities get put integer_eq object_eq get_text get_object value_eq
    object_within contains is_registered find_record pure lift gets transaction rename_failure ◌>>=◌
    refuse_if orchestration_projection target_status is_text is_none allowed_previous
    previous_payload same_value? require_same_execution merged_payload entity_of
    reduce_orchestration_payload register_artifact type_name is_type stamped query_projection
    projection_version configure_controller validate_worker_id register_worker validate_task
    assignment assign_task has_event insert_event upsert write_changes save_projections
    apply_event_mutation append append_within persist_capability replay replayed_projections
    append_event
register_worker-once_example =
    register_worker-once apply_event every_match none_blank (stamp "02") (stamp "03") "w" formalizer
      proof_explorer configured registered 1 refl

assign_task-requires_example :
    (is_some (find_record "controller" controller_id registered.projections) ≡ true)
    × (is_some (find_record "worker_roster" "w" registered.projections) ≡ true)
    × ((r : ProjectionRecord) × (find_record "worker_assignments" "w" assigned.projections ≡ some r)
        × (1 ≡ r.version))
unfolding event_projection entity_id next_version next_record event_state projection_payload
    complete_document_payload document_changes epoch_change apply_event capability_record
    insert_capability revoke_token can_revoke revoke_capability revoke_lease
    revoke_lease_capabilities get put integer_eq object_eq get_text get_object value_eq
    object_within contains is_registered find_record pure lift gets transaction rename_failure ◌>>=◌
    refuse_if orchestration_projection target_status is_text is_none allowed_previous
    previous_payload same_value? require_same_execution merged_payload entity_of
    reduce_orchestration_payload register_artifact type_name is_type stamped query_projection
    projection_version configure_controller validate_worker_id register_worker validate_task
    assignment assign_task has_event insert_event upsert write_changes save_projections
    apply_event_mutation append append_within persist_capability replay replayed_projections
    append_event
assign_task-requires_example =
    assign_task-requires apply_event every_match none_blank short hash_text hash_object (stamp "03")
      "w" "prove it" registered assigned 1 refl
