-- ===== src/Service/Tests/Requests.antt =====
-- Runs of the service, and the theorems on all requests at them.
use aizim.Service.Tests.{
  ada_approves, test_formats, to_materialized, publishing, prepared_database, approval,
  approval_record,
}
use mathlib.Core.List.{Memᴰ}
use aizim.Prelude.{arith, ◌≡◌, refl, true, some, String}
use aizim.Outcome.{ok}
use aizim.Database.{initial}
use aizim.Queue.Laws.{active_count}
use aizim.Queue.Steps.{table}
use aizim.Queue.Steps.WellFormed.{IsWellFormed}
use aizim.Service.Requests.Log.{serve_all-replayed, serve_all-approved}
use aizim.Service.Requests.Queue.{serve_all-IsWellFormed}
use aizim.Service.{
  promotion_event, queued_event, append_event, enqueue_contribution, claim_next_promotion,
  advance_promotion, heartbeat_promotion, prepare_promotion, publish_promotion, fail_promotion,
  recover_expired_promotion, rebase_promotion, approve_environment_transition, persist,
}
use aizim.Publication.{
  contribution_id, same_submission, run_of, current_entry, insert_entry, update, log_state,
  insert_submission, enqueue, claim_entry, claim_first, claim_next, advance, heartbeat,
}
use aizim.Reducers.{
  event_projection, entity_id, next_version, next_record, event_state, projection_payload,
  complete_document_payload, document_changes, epoch_change, apply_event,
}
use aizim.Tokens.{
  capability_record, insert_capability, revoke_token, can_revoke, revoke_capability, revoke_lease,
  revoke_lease_capabilities,
}
use aizim.Json.{get, put, integer_eq, object_eq, get_text, get_object, value_eq, object_within}
use aizim.Projections.{contains, is_registered, find_record}
use aizim.Tx.{pure, lift, gets, transaction, rename_failure, ◌>>=◌, refuse_if}
use aizim.Orchestration.{
  orchestration_projection, target_status, is_text, is_none, allowed_previous, previous_payload,
  same_value?, require_same_execution, merged_payload, entity_of, reduce_orchestration_payload,
}
use aizim.Artifacts.{register_artifact}
use aizim.Events.{type_name, is_type, stamped}
use aizim.Queue.{can_transition, find_entry, update_rows, row_count, any_active, first_where}
use aizim.Store.{
  has_event, insert_event, upsert, write_changes, save_projections, apply_event_mutation, append,
  append_within, persist_capability, replay, replayed_projections,
}
use aizim.Queue.Laws.{active_count}
use aizim.Service.Requests.{serve, serve_all}
use aizim.Publication.Endings.{
  preparation, expected_preparation, has_preparation, require_prepared, prepare_once, prepare,
  publish, fail, recover_entry, recover, rebase,
}

published_events :
    (serve apply_event ada_approves test_formats publishing prepared_database).event_sequence ≡ 11
unfolding promotion_event queued_event append_event enqueue_contribution claim_next_promotion
    advance_promotion heartbeat_promotion prepare_promotion publish_promotion fail_promotion
    recover_expired_promotion rebase_promotion approve_environment_transition persist
    contribution_id same_submission run_of current_entry insert_entry update log_state
    insert_submission enqueue claim_entry claim_first claim_next advance heartbeat event_projection
    entity_id next_version next_record event_state projection_payload complete_document_payload
    document_changes epoch_change apply_event capability_record insert_capability revoke_token
    can_revoke revoke_capability revoke_lease revoke_lease_capabilities get put integer_eq object_eq
    get_text get_object value_eq object_within contains is_registered find_record pure lift gets
    transaction rename_failure ◌>>=◌ refuse_if orchestration_projection target_status is_text
    is_none allowed_previous previous_payload same_value? require_same_execution merged_payload
    entity_of reduce_orchestration_payload register_artifact type_name is_type stamped
    can_transition find_entry update_rows row_count any_active first_where has_event insert_event
    upsert write_changes save_projections apply_event_mutation append append_within
    persist_capability replay replayed_projections active_count serve serve_all preparation
    expected_preparation has_preparation require_prepared prepare_once prepare publish fail
    recover_entry recover rebase
published_events = refl

initial-IsWellFormed : IsWellFormed (table initial)
unfolding active_count
initial-IsWellFormed = record {
  unique = tt;
  rising = omega arith;
  shaped = tt;
  single = omega arith;
}

serve_all-replayed_example :
    replayed_projections apply_event
      (serve_all apply_event ada_approves test_formats to_materialized initial)
    ≡ ok (serve_all apply_event ada_approves test_formats to_materialized initial).projections
serve_all-replayed_example =
    serve_all-replayed apply_event ada_approves test_formats to_materialized

serve_all-approved_example :
    (run : String) × (some "run" ≡ some run) × (ada_approves run "ada" ≡ true)
unfolding promotion_event queued_event append_event enqueue_contribution claim_next_promotion
    advance_promotion heartbeat_promotion prepare_promotion publish_promotion fail_promotion
    recover_expired_promotion rebase_promotion approve_environment_transition persist
    contribution_id same_submission run_of current_entry insert_entry update log_state
    insert_submission enqueue claim_entry claim_first claim_next advance heartbeat event_projection
    entity_id next_version next_record event_state projection_payload complete_document_payload
    document_changes epoch_change apply_event capability_record insert_capability revoke_token
    can_revoke revoke_capability revoke_lease revoke_lease_capabilities get put integer_eq object_eq
    get_text get_object value_eq object_within contains is_registered find_record pure lift gets
    transaction rename_failure ◌>>=◌ refuse_if orchestration_projection target_status is_text
    is_none allowed_previous previous_payload same_value? require_same_execution merged_payload
    entity_of reduce_orchestration_payload register_artifact type_name is_type stamped
    can_transition find_entry update_rows row_count any_active first_where has_event insert_event
    upsert write_changes save_projections apply_event_mutation append append_within
    persist_capability replay replayed_projections active_count serve serve_all preparation
    expected_preparation has_preparation require_prepared prepare_once prepare publish fail
    recover_entry recover rebase
serve_all-approved_example =
    serve_all-approved apply_event ada_approves test_formats approval approval_record
      (Memᴰ.head refl) refl

serve_all-IsWellFormed_example :
    IsWellFormed (table (serve_all apply_event ada_approves test_formats to_materialized initial))
serve_all-IsWellFormed_example =
    serve_all-IsWellFormed apply_event ada_approves test_formats to_materialized initial
      initial-IsWellFormed
