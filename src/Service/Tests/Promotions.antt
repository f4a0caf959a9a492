-- ===== src/Service/Tests/Promotions.antt =====
-- A promotion, and the theorems at its steps.
use aizim.Service.Tests.{
  ada_approves, test_formats, stamp, declaration_of, delta_of, publishing, prepared_database,
  row_of,
}
use mathlib.Core.List.{Memᴰ}
use aizim.Prelude.{arith, inl, inr, ◌+◌, ◌≡◌, refl, [], ◌∷◌, some}
use aizim.Events.{EventRecord, promotion_prepared}
use aizim.Publication.Queries.{Prepares}
use aizim.Database.{materialized, published, PublicationQueueEntry}
use aizim.Queue.{claimed}
use aizim.Queue.Laws.{active_count}
use aizim.Queue.Steps.Rows.{IsLater}
use aizim.Publication.Requirements.{publish-prepared}
use aizim.Service.Requests.Queue.{serve_all-IsLater}
use aizim.Service.{
  promotion_event, queued_event, append_event, enqueue_contribution, claim_next_promotion,
  advance_promotion, heartbeat_promotion, prepare_promotion, publish_promotion, fail_promotion,
  recover_expired_promotion, rebase_promotion, approve_environment_transition, persist,
}
use aizim.Publication.{
  contribution_id, same_submission, run_of, current_entry, insert_entry, update, log_state,
  insert_submission, enqueue, claim_entry, claim_first, claim_next, advance, heartbeat,
}
use aizim.Reducers.{
  event_projection, entity_id, next_version, next_record, event_state, projection_payload,
  complete_document_payload, document_changes, epoch_change, apply_event,
}
use aizim.Tokens.{
  capability_record, insert_capability, revoke_token, can_revoke, revoke_capability, revoke_lease,
  revoke_lease_capabilities,
}
use aizim.Json.{get, put, integer_eq, object_eq, get_text, get_object, value_eq, object_within}
use aizim.Projections.{contains, is_registered, find_record}
use aizim.Tx.{pure, lift, gets, transaction, rename_failure, ◌>>=◌, refuse_if}
use aizim.Orchestration.{
  orchestration_projection, target_status, is_text, is_none, allowed_previous, previous_payload,
  same_value?, require_same_execution, merged_payload, entity_of, reduce_orchestration_payload,
}
use aizim.Artifacts.{register_artifact}
use aizim.Events.{type_name, is_type, stamped}
use aizim.Queue.{can_transition, find_entry, update_rows, row_count, any_active, first_where}
use aizim.Store.{
  has_event, insert_event, upsert, write_changes, save_projections, apply_event_mutation, append,
  append_within, persist_capability, replay, replayed_projections,
}
use aizim.Queue.Laws.{active_count}
use aizim.Service.Requests.{serve, serve_all}
use aizim.Publication.Endings.{
  preparation, expected_preparation, has_preparation, require_prepared, prepare_once, prepare,
  publish, fail, recover_entry, recover, rebase,
}

serve_all-IsLater_example :
    (f : PublicationQueueEntry) × (find_entry "a"
        (serve_all apply_event ada_approves test_formats
          (publishing ∷ [])
          prepared_database).publication_queue
      ≡ some f)
    × IsLater (row_of 3) f
unfolding promotion_event queued_event append_event enqueue_contribution claim_next_promotion
    advance_promotion heartbeat_promotion prepare_promotion publish_promotion fail_promotion
    recover_expired_promotion rebase_promotion approve_environment_transition persist
    contribution_id same_submission run_of current_entry insert_entry update log_state
    insert_submission enqueue claim_entry claim_first claim_next advance heartbeat event_projection
    entity_id next_version next_record event_state projection_payload complete_document_payload
    document_changes epoch_change apply_event capability_record insert_capability revoke_token
    can_revoke revoke_capability revoke_lease revoke_lease_capabilities get put integer_eq object_eq
    get_text get_object value_eq object_within contains is_registered find_record pure lift gets
    transaction rename_failure ◌>>=◌ refuse_if orchestration_projection target_status is_text
    is_none allowed_previous previous_payload same_value? require_same_execution merged_payload
    entity_of reduce_orchestration_payload register_artifact type_name is_type stamped
    can_transition find_entry update_rows row_count any_active first_where has_event insert_event
    upsert write_changes save_projections apply_event_mutation append append_within
    persist_capability replay replayed_projections active_count serve serve_all preparation
    expected_preparation has_preparation require_prepared prepare_once prepare publish fail
    recover_entry recover rebase
serve_all-IsLater_example =
    serve_all-IsLater apply_event ada_approves test_formats (publishing ∷ []) prepared_database "a"
      (row_of 3)
      (record {
        unique = (refl, (refl, tt));
        rising = omega arith;
        shaped = (inr (refl, refl, omega arith), (inl (refl, refl, refl), tt));
        single = omega arith;
      })
      refl

publish-prepared_example :
    (c : PublicationQueueEntry) × (find_entry "a" prepared_database.publication_queue ≡ some c)
    × (c.claimed_by ≡ some "owner")
    × (c.state ≡ materialized)
    × (r : EventRecord) × Memᴰ r prepared_database.events
    × (r.envelope.event_type ≡ promotion_prepared)
    × Prepares "a" (declaration_of "a").payload (delta_of "a").payload r.envelope.payload
    × (claimed 4 "owner" 5000000 published (row_of 3)
        ≡ claimed (c.state_version + 1) "owner" 5000000 published c)
unfolding promotion_event queued_event append_event enqueue_contribution claim_next_promotion
    advance_promotion heartbeat_promotion prepare_promotion publish_promotion fail_promotion
    recover_expired_promotion rebase_promotion approve_environment_transition persist
    contribution_id same_submission run_of current_entry insert_entry update log_state
    insert_submission enqueue claim_entry claim_first claim_next advance heartbeat event_projection
    entity_id next_version next_record event_state projection_payload complete_document_payload
    document_changes epoch_change apply_event capability_record insert_capability revoke_token
    can_revoke revoke_capability revoke_lease revoke_lease_capabilities get put integer_eq object_eq
    get_text get_object value_eq object_within contains is_registered find_record pure lift gets
    transaction rename_failure ◌>>=◌ refuse_if orchestration_projection target_status is_text
    is_none allowed_previous previous_payload same_value? require_same_execution merged_payload
    entity_of reduce_orchestration_payload register_artifact type_name is_type stamped
    can_transition find_entry update_rows row_count any_active first_where has_event insert_event
    upsert write_changes save_projections apply_event_mutation append append_within
    persist_capability replay replayed_projections active_count serve serve_all preparation
    expected_preparation has_preparation require_prepared prepare_once prepare publish fail
    recover_entry recover rebase
publish-prepared_example =
    publish-prepared apply_event (promotion_event (stamp "11")) "a" "owner" 5000000
      (stamped (stamp "09") (declaration_of "a")) (stamped (stamp "10") (delta_of "a"))
      prepared_database (serve apply_event ada_approves test_formats publishing prepared_database)
      (claimed 4 "owner" 5000000 published (row_of 3)) refl
