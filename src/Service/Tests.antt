-- ===== src/Service/Tests.antt =====
-- Requests and databases for the tests of the service.
mod Requests
mod Promotions
mod Refusals
use mathlib.Core.List.{Memᴰ}
use aizim.Prelude.{
  arith, inl, inr, ◌+◌, ℕ, ◌≡◌, ◌≤◌, refl, Bool, true, false, List, [], ◌∷◌, Option, none, some,
  String, same_text,
}
use aizim.Outcome.{ok, value_error}
use aizim.Json.{string, integer, pos, end, field}
use aizim.Events.{
  EventRecord, AppendEventCommand, Stamp, event_schema_version, contribution_submitted,
  promotion_prepared, declaration_published, knowledge_delta_published,
  environment_transition_approved,
}
use aizim.Database.{
  staged, verified, materialized, published, PublicationQueueEntry, Database, initial,
}
use aizim.Queue.{claimed, queued_entry, is_owner, is_materialized}
use aizim.Documents.{Formats}
use aizim.Queue.Laws.{active_count}
use aizim.Queue.Steps.{table}
use aizim.Queue.Steps.WellFormed.{IsWellFormed}
use aizim.Queue.Steps.Rows.{IsLater}
use aizim.Publication.Requirements.{publish-prepared, enqueue-again}
use aizim.Service.Atomic.{publish_promotion-refused, rebase_promotion-refused}
use aizim.Service.Requests.{
  Request, enqueue_request, claim_request, advance_request, prepare_request, publish_request,
  approve_request, rebase_request,
}
use aizim.Service.Requests.Log.{serve_all-replayed, serve_all-approved}
use aizim.Service.Requests.Queue.{serve_all-IsWellFormed, serve_all-IsLater}
use aizim.Service.{
  promotion_event, queued_event, append_event, enqueue_contribution, claim_next_promotion,
  advance_promotion, heartbeat_promotion, prepare_promotion, publish_promotion, fail_promotion,
  recover_expired_promotion, rebase_promotion, approve_environment_transition, persist,
}
use aizim.Publication.{
  contribution_id, same_submission, run_of, current_entry, insert_entry, update, log_state,
  insert_submission, enqueue, claim_entry, claim_first, claim_next, advance, heartbeat,
}
use aizim.Reducers.{
  event_projection, entity_id, next_version, next_record, event_state, projection_payload,
  complete_document_payload, document_changes, epoch_change, apply_event,
}
use aizim.Tokens.{
  capability_record, insert_capability, revoke_token, can_revoke, revoke_capability, revoke_lease,
  revoke_lease_capabilities,
}
use aizim.Json.{get, put, integer_eq, object_eq, get_text, get_object, value_eq, object_within}
use aizim.Projections.{contains, is_registered, find_record}
use aizim.Tx.{pure, lift, gets, transaction, rename_failure, ◌>>=◌, refuse_if}
use aizim.Orchestration.{
  orchestration_projection, target_status, is_text, is_none, allowed_previous, previous_payload,
  same_value?, require_same_execution, merged_payload, entity_of, reduce_orchestration_payload,
}
use aizim.Artifacts.{register_artifact}
use aizim.Events.{type_name, is_type, stamped}
use aizim.Queue.{can_transition, find_entry, update_rows, row_count, any_active, first_where}
use aizim.Store.{
  has_event, insert_event, upsert, write_changes, save_projections, apply_event_mutation, append,
  append_within, persist_capability, replay, replayed_projections,
}
use aizim.Queue.Laws.{active_count}
use aizim.Service.Requests.{serve, serve_all}
use aizim.Publication.Endings.{
  preparation, expected_preparation, has_preparation, require_prepared, prepare_once, prepare,
  publish, fail, recover_entry, recover, rebase,
}

abbrev pub ada_approves : String → String → Bool
ada_approves run reviewer = same_text reviewer "ada"

-- Every time has one text there.
abbrev pub test_formats : Formats
test_formats = record {
  canonical_timestamp = λ t. "2026-01-01T00:00:00Z";
  fromisoformat = λ t. some 9000000;
  as_posix = λ t. t;
}

abbrev pub stamp : String → Stamp
stamp id = record { event_id = id; now = 1000000 }

abbrev pub submission : String → AppendEventCommand
submission id = record {
  event_type = contribution_submitted;
  actor = "worker";
  run_id = some "run";
  causation_id = none;
  payload = field "contribution_id" (string id) end;
}

abbrev pub preparation_of : String → AppendEventCommand
preparation_of id = record {
  event_type = promotion_prepared;
  actor = "promotion_service";
  run_id = some "run";
  causation_id = none;
  payload = field "contribution_id" (string id) (
      field "module" (string "M") (
        field "content_hash" (string "c") (
          field "base_epoch" (string "b") (
            field "knowledge_epoch" (integer (pos 1))
              (field "declaration_id" (string "decl") (field "delta_id" (string "delta") end))))));
}

abbrev pub declaration_of : String → AppendEventCommand
declaration_of id = record {
  event_type = declaration_published;
  actor = "promotion_service";
  run_id = some "run";
  causation_id = none;
  payload = field "declaration_id" (string "decl") (
      field "contribution_id" (string id)
        (field "module" (string "M") (field "content_hash" (string "c") end)));
}

abbrev pub delta_of : String → AppendEventCommand
delta_of id = record {
  event_type = knowledge_delta_published;
  actor = "promotion_service";
  run_id = some "run";
  causation_id = none;
  payload = field "delta_id" (string "delta") (
      field "contribution_id" (string id)
        (field "base_epoch" (string "b") (field "knowledge_epoch" (integer (pos 1)) end)));
}

-- Two contributions are submitted.
abbrev pub two_submissions : List Request
two_submissions =
    enqueue_request (stamp "01") (stamp "02") (submission "a")
    ∷ enqueue_request (stamp "03") (stamp "04") (submission "b")
    ∷ []

-- The first one is claimed, verified and materialized.
abbrev pub to_materialized : List Request
to_materialized =
    enqueue_request (stamp "01") (stamp "02") (submission "a")
    ∷ enqueue_request (stamp "03") (stamp "04") (submission "b")
    ∷ claim_request (stamp "05") "owner" 2000000
    ∷ advance_request (stamp "06") "a" "owner" verified 3000000
    ∷ advance_request (stamp "07") "a" "owner" materialized 4000000
    ∷ []

-- Then its preparation is recorded.
abbrev pub preparing : List Request
preparing = prepare_request (stamp "08") "a" "owner" (preparation_of "a") ∷ []

abbrev pub publishing : Request
publishing =
    publish_request (stamp "09") (stamp "10") (stamp "11") "a" "owner" 5000000 (declaration_of "a")
      (delta_of "a")

abbrev pub submitted_database : Database
submitted_database = serve_all apply_event ada_approves test_formats two_submissions initial

abbrev pub materialized_database : Database
materialized_database = serve_all apply_event ada_approves test_formats to_materialized initial

abbrev pub prepared_database : Database
prepared_database = serve_all apply_event ada_approves test_formats preparing materialized_database

abbrev pub row_of : ℕ → PublicationQueueEntry
row_of version = record (queued_entry "a" 1) {
  state = materialized;
  state_version = version;
  claimed_by = some "owner";
  claimed_at = some 4000000;
}

abbrev pub approval : List Request
approval = approve_request (stamp "01") "run" "ada" "proposal" "t" "old" "new" "why" ∷ []

abbrev pub approval_record : EventRecord
approval_record = record {
  sequence = 1;
  envelope = record {
    event_id = "01";
    schema_version = event_schema_version;
    event_type = environment_transition_approved;
    occurred_at = 1000000;
    actor = "ada";
    run_id = some "run";
    causation_id = some "proposal";
    payload = field "transition_id" (string "t") (
        field "old_fingerprint" (string "old") (
          field "new_fingerprint" (string "new")
            (field "reason" (string "why") (field "reviewer" (string "ada") end))));
  };
}

abbrev pub rebasing : Request
rebasing =
    rebase_request (stamp "05") (stamp "06") (stamp "07") (stamp "08") "a" "owner" 5000000
      (submission "c") (submission "c")
