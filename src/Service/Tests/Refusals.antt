-- ===== src/Service/Tests/Refusals.antt =====
-- Repeated and refused requests, and the theorems at them.
use aizim.Service.Tests.{
  ada_approves, test_formats, stamp, submission, declaration_of, delta_of, publishing,
  submitted_database, materialized_database, rebasing,
}
use mathlib.Core.List.{Memᴰ}
use aizim.Events.{EventEnvelope, EventRecord, contribution_submitted}
use aizim.Prelude.{◌≡◌, refl, true}
use aizim.Outcome.{value_error}
use aizim.Queue.{queued_entry}
use aizim.Queue.Laws.{active_count}
use aizim.Publication.Requirements.{enqueue-again}
use aizim.Service.Atomic.{publish_promotion-refused, rebase_promotion-refused}
use aizim.Service.{
  promotion_event, queued_event, append_event, enqueue_contribution, claim_next_promotion,
  advance_promotion, heartbeat_promotion, prepare_promotion, publish_promotion, fail_promotion,
  recover_expired_promotion, rebase_promotion, approve_environment_transition, persist,
}
use aizim.Publication.{
  contribution_id, same_submission, run_of, current_entry, insert_entry, update, log_state,
  insert_submission, enqueue, claim_entry, claim_first, claim_next, advance, heartbeat,
}
use aizim.Reducers.{
  event_projection, entity_id, next_version, next_record, event_state, projection_payload,
  complete_document_payload, document_changes, epoch_change, apply_event,
}
use aizim.Tokens.{
  capability_record, insert_capability, revoke_token, can_revoke, revoke_capability, revoke_lease,
  revoke_lease_capabilities,
}
use aizim.Json.{get, put, integer_eq, object_eq, get_text, get_object, value_eq, object_within}
use aizim.Projections.{contains, is_registered, find_record}
use aizim.Tx.{pure, lift, gets, transaction, rename_failure, ◌>>=◌, refuse_if}
use aizim.Orchestration.{
  orchestration_projection, target_status, is_text, is_none, allowed_previous, previous_payload,
  same_value?, require_same_execution, merged_payload, entity_of, reduce_orchestration_payload,
}
use aizim.Artifacts.{register_artifact}
use aizim.Events.{type_name, is_type, stamped}
use aizim.Queue.{can_transition, find_entry, update_rows, row_count, any_active, first_where}
use aizim.Store.{
  has_event, insert_event, upsert, write_changes, save_projections, apply_event_mutation, append,
  append_within, persist_capability, replay, replayed_projections,
}
use aizim.Queue.Laws.{active_count}
use aizim.Service.Requests.{serve, serve_all}
use aizim.Publication.Endings.{
  preparation, expected_preparation, has_preparation, require_prepared, prepare_once, prepare,
  publish, fail, recover_entry, recover, rebase,
}

abbrev again : EventEnvelope
again = stamped (stamp "05") (submission "a")

abbrev again_queued : EventEnvelope
again_queued = queued_event (stamp "06") "contribution_service" again "a"

enqueue-again_example :
    (submitted_database ≡ submitted_database)
    × (queued_entry "a" 1 ≡ queued_entry "a" 1)
    × (r : EventRecord) × Memᴰ r submitted_database.events
    × (r.envelope.event_type ≡ contribution_submitted)
    × (r.envelope.run_id ≡ again.run_id)
    × (object_eq r.envelope.payload again.payload ≡ true)
unfolding promotion_event queued_event append_event enqueue_contribution claim_next_promotion
    advance_promotion heartbeat_promotion prepare_promotion publish_promotion fail_promotion
    recover_expired_promotion rebase_promotion approve_environment_transition persist
    contribution_id same_submission run_of current_entry insert_entry update log_state
    insert_submission enqueue claim_entry claim_first claim_next advance heartbeat event_projection
    entity_id next_version next_record event_state projection_payload complete_document_payload
    document_changes epoch_change apply_event capability_record insert_capability revoke_token
    can_revoke revoke_capability revoke_lease revoke_lease_capabilities get put integer_eq object_eq
    get_text get_object value_eq object_within contains is_registered find_record pure lift gets
    transaction rename_failure ◌>>=◌ refuse_if orchestration_projection target_status is_text
    is_none allowed_previous previous_payload same_value? require_same_execution merged_payload
    entity_of reduce_orchestration_payload register_artifact type_name is_type stamped
    can_transition find_entry update_rows row_count any_active first_where has_event insert_event
    upsert write_changes save_projections apply_event_mutation append append_within
    persist_capability replay replayed_projections active_count serve serve_all preparation
    expected_preparation has_preparation require_prepared prepare_once prepare publish fail
    recover_entry recover rebase
enqueue-again_example =
    enqueue-again apply_event again again_queued "a" submitted_database submitted_database
      (queued_entry "a" 1) (queued_entry "a" 1) refl refl refl

publish_promotion-refused_example :
    (serve apply_event ada_approves test_formats publishing materialized_database)
    ≡ materialized_database
unfolding promotion_event queued_event append_event enqueue_contribution claim_next_promotion
    advance_promotion heartbeat_promotion prepare_promotion publish_promotion fail_promotion
    recover_expired_promotion rebase_promotion approve_environment_transition persist
    contribution_id same_submission run_of current_entry insert_entry update log_state
    insert_submission enqueue claim_entry claim_first claim_next advance heartbeat event_projection
    entity_id next_version next_record event_state projection_payload complete_document_payload
    document_changes epoch_change apply_event capability_record insert_capability revoke_token
    can_revoke revoke_capability revoke_lease revoke_lease_capabilities get put integer_eq object_eq
    get_text get_object value_eq object_within contains is_registered find_record pure lift gets
    transaction rename_failure ◌>>=◌ refuse_if orchestration_projection target_status is_text
    is_none allowed_previous previous_payload same_value? require_same_execution merged_payload
    entity_of reduce_orchestration_payload register_artifact type_name is_type stamped
    can_transition find_entry update_rows row_count any_active first_where has_event insert_event
    upsert write_changes save_projections apply_event_mutation append append_within
    persist_capability replay replayed_projections active_count serve serve_all preparation
    expected_preparation has_preparation require_prepared prepare_once prepare publish fail
    recover_entry recover rebase
publish_promotion-refused_example =
    publish_promotion-refused apply_event (stamp "09") (stamp "10") (stamp "11") "a" "owner" 5000000
      (declaration_of "a") (delta_of "a") materialized_database
      (serve apply_event ada_approves test_formats publishing materialized_database)
      (value_error "PROMOTION_NOT_PREPARED") refl

rebase_promotion-refused_example :
    serve apply_event ada_approves test_formats rebasing submitted_database ≡ submitted_database
unfolding promotion_event queued_event append_event enqueue_contribution claim_next_promotion
    advance_promotion heartbeat_promotion prepare_promotion publish_promotion fail_promotion
    recover_expired_promotion rebase_promotion approve_environment_transition persist
    contribution_id same_submission run_of current_entry insert_entry update log_state
    insert_submission enqueue claim_entry claim_first claim_next advance heartbeat event_projection
    entity_id next_version next_record event_state projection_payload complete_document_payload
    document_changes epoch_change apply_event capability_record insert_capability revoke_token
    can_revoke revoke_capability revoke_lease revoke_lease_capabilities get put integer_eq object_eq
    get_text get_object value_eq object_within contains is_registered find_record pure lift gets
    transaction rename_failure ◌>>=◌ refuse_if orchestration_projection target_status is_text
    is_none allowed_previous previous_payload same_value? require_same_execution merged_payload
    entity_of reduce_orchestration_payload register_artifact type_name is_type stamped
    can_transition find_entry update_rows row_count any_active first_where has_event insert_event
    upsert write_changes save_projections apply_event_mutation append append_within
    persist_capability replay replayed_projections active_count serve serve_all preparation
    expected_preparation has_preparation require_prepared prepare_once prepare publish fail
    recover_entry recover rebase
rebase_promotion-refused_example =
    rebase_promotion-refused apply_event (stamp "05") (stamp "06") (stamp "07") (stamp "08") "a"
      "owner" 5000000 (submission "c") (submission "c") submitted_database
      (serve apply_event ada_approves test_formats rebasing submitted_database)
      (value_error "INVALID_PROMOTION_REBASE") refl
