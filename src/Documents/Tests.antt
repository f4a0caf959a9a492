-- ===== src/Documents/Tests.antt =====
-- A run of the calls on documents.
mod Runs
use aizim.Prelude.{
  ◌≡◌, refl, ap, ◌∙◌, inl, inr, not, Bool-cases, Bool, true, false, Option, none, some, List, [],
  ◌∷◌, String, same_text, codes_before, if◌then◌else◌, arith, eq_iff,
}
use aizim.Outcome.{ok, raised, document_state_error}
use aizim.Json.{object, field, end, string, integer, pos}
use aizim.Database.{Database, initial}
use aizim.Documents.{Formats, FileLease, LeaseState, DocumentState, DocumentPreparation, leased}
use aizim.Documents.Records.{document_of}
use aizim.Documents.Readings.{PosixLaws}
use aizim.Documents.Snapshots.{AccessDocument}
use aizim.Documents.Written.{grant_event, edit_event, committing, recovering}
use aizim.Documents.Cycle.{replaced}
use aizim.Documents.Methods.{broker_event, termination}
use aizim.Documents.{lease_of_document}
use aizim.Events.{Stamp, EventRecord, lease_released}
use aizim.Documents.{has_characters, hex_digits}
use aizim.Reducers.{
  event_projection, entity_id, next_version, next_record, event_state, projection_payload,
  complete_document_payload, document_changes, epoch_change, apply_event,
}
use aizim.Tokens.{
  capability_record, insert_capability, revoke_token, can_revoke, revoke_capability, revoke_lease,
  revoke_lease_capabilities,
}
use aizim.Documents.{
  is_hash, valid_lease, ends_in_z, without_last, parsed_timestamp, timestamp, text_field,
  integer_field, hash_field, validate_access, validate_expected, lease_state_payload,
  document_payload, lease_payload,
}
use aizim.Json.{
  get, put, merge, integer_eq, object_eq, get_text, get_natural, get_integer, get_object, value_eq,
  array_eq, object_within,
}
use aizim.Projections.{contains, is_registered, find_record, row_before}
use aizim.Tx.{pure, lift, gets, transaction, rename_failure, ◌>>=◌, refuse_if}
use aizim.Orchestration.{
  orchestration_projection, target_status, is_text, is_none, allowed_previous, previous_payload,
  same_value?, require_same_execution, merged_payload, entity_of, reduce_orchestration_payload,
}
use aizim.Events.{type_name, is_type, stamped}
use aizim.Store.{
  has_event, insert_event, upsert, write_changes, save_projections, apply_event_mutation, append,
  append_within, persist_capability, replay, replayed_projections,
}
use aizim.Documents.Methods.{
  preparation_payload, replacement_payload, grant_document_lease, document_for,
  prepare_document_edit, commit_document_edit, recover_document_edit, release_document_lease,
  recover_document_lease, active_document_leases, all_prepared_documents, after_call, after_calls,
}
use aizim.Documents.Written.{}
use aizim.Documents.Operations.{
  mutation, reading, expected_payload, event_matches, validate_grant, validate_termination,
  apply_grant, apply_prepare, apply_commit, apply_recover, apply_terminate,
  execute_document_operation,
}
use aizim.Documents.Snapshots.{
  current_epoch, find_lease, find_document, access, leases_of, documents_of, find_prepared,
  validate_document_lease,
}
use aizim.Documents.Records.{
  stored_event, is_document_event, is_document_state_projection,
  is_active_document_lease_projection, lease_of, lease_from_projection, document_from_projection,
  epoch_from_projection,
}

abbrev pub hash : String
hash = "aaaaaaaaaaaaaaaaaaaaaaaaaaaaaaaaaaaaaaaaaaaaaaaaaaaaaaaaaaaaaaaa"

abbrev pub other_hash : String
other_hash = "00000000000000000000000000000000000000000000000000000000000000ff"

-- Every time has one text there.
abbrev pub formats : Formats
formats = record {
  canonical_timestamp = λ t. "2026-01-01T00:00:00Z";
  fromisoformat = λ t. some 9000000;
  as_posix = λ t. if same_text t "" then "." else t;
}

pub laws : PosixLaws formats
laws = record {
  same = λ t. ground (arith, eq_iff t "");
  nonempty = λ t. elim (Bool-cases (same_text t "")) [
    | inl p ↦ ap (λ b. has_characters (if b then "." else t)) p
    | inr p ↦ ap (λ b. has_characters (if b then "." else t)) p ∙ ap not p
  ];
}

abbrev pub stamp : String → Stamp
stamp id = record { event_id = id; now = 1000000 }

abbrev pub new_database : Database
new_database = record initial {
  projections =
      record {
        projection_name = "epochs";
        entity_id = "global";
        version = 1;
        state_json =
            object
              (field "base_epoch" (string hash) (field "knowledge_epoch" (integer (pos 0)) end));
      }
      ∷ [];
}

abbrev pub lease : FileLease
lease = record {
  lease_id = "lease";
  worker_id = "worker";
  run_id = "run";
  document_id = "document";
  virtual_document_namespace = "space";
  epoch_pair = record { base_epoch = hash; knowledge_epoch = 0 };
  file_version = 0;
  content_hash = hash;
  expires_at = 9000000;
  physical_file = none;
}

abbrev pub granted_database : Database
granted_database =
    (grant_document_lease formats apply_event (stamp "01") lease "A.lean" new_database).1

abbrev pub granted_record : EventRecord
granted_record = record { sequence = 1; envelope = grant_event formats (stamp "01") lease "A.lean" }

pub granted :
    grant_document_lease formats apply_event (stamp "01") lease "A.lean" new_database
    ≡ (ok granted_record, granted_database)
unfolding hex_digits event_projection entity_id next_version next_record event_state
    projection_payload complete_document_payload document_changes epoch_change apply_event
    capability_record insert_capability revoke_token can_revoke revoke_capability revoke_lease
    revoke_lease_capabilities is_hash valid_lease ends_in_z without_last parsed_timestamp timestamp
    text_field integer_field hash_field validate_access validate_expected lease_state_payload
    document_payload lease_payload get put merge integer_eq object_eq get_text get_natural
    get_integer get_object value_eq array_eq object_within contains is_registered find_record
    row_before pure lift gets transaction rename_failure ◌>>=◌ refuse_if orchestration_projection
    target_status is_text is_none allowed_previous previous_payload same_value?
    require_same_execution merged_payload entity_of reduce_orchestration_payload type_name is_type
    stamped has_event insert_event upsert write_changes save_projections apply_event_mutation append
    append_within persist_capability replay replayed_projections preparation_payload
    replacement_payload grant_document_lease document_for prepare_document_edit commit_document_edit
    recover_document_edit release_document_lease recover_document_lease active_document_leases
    all_prepared_documents after_call after_calls mutation reading expected_payload event_matches
    validate_grant validate_termination apply_grant apply_prepare apply_commit apply_recover
    apply_terminate execute_document_operation current_epoch find_lease find_document access
    leases_of documents_of find_prepared validate_document_lease stored_event is_document_event
    is_document_state_projection is_active_document_lease_projection lease_of lease_from_projection
    document_from_projection epoch_from_projection codes_before
granted = refl

abbrev pub holder : AccessDocument
holder = record {
  run_id = "run";
  worker_id = "worker";
  lease_id = "lease";
  document_id = "document";
  now = 2000000;
}

abbrev pub document : DocumentState
document = document_of "LeaseGranted" "01" (leased formats lease "A.lean")

abbrev pub preparation : DocumentPreparation
preparation = record { preparation_id = "02"; document = document }

abbrev pub prepared_database : Database
prepared_database =
    (prepare_document_edit formats apply_event (stamp "02") holder 0 hash granted_database).1

pub prepared :
    prepare_document_edit formats apply_event (stamp "02") holder 0 hash granted_database
    ≡ (ok preparation, prepared_database)
unfolding hex_digits event_projection entity_id next_version next_record event_state
    projection_payload complete_document_payload document_changes epoch_change apply_event
    capability_record insert_capability revoke_token can_revoke revoke_capability revoke_lease
    revoke_lease_capabilities is_hash valid_lease ends_in_z without_last parsed_timestamp timestamp
    text_field integer_field hash_field validate_access validate_expected lease_state_payload
    document_payload lease_payload get put merge integer_eq object_eq get_text get_natural
    get_integer get_object value_eq array_eq object_within contains is_registered find_record
    row_before pure lift gets transaction rename_failure ◌>>=◌ refuse_if orchestration_projection
    target_status is_text is_none allowed_previous previous_payload same_value?
    require_same_execution merged_payload entity_of reduce_orchestration_payload type_name is_type
    stamped has_event insert_event upsert write_changes save_projections apply_event_mutation append
    append_within persist_capability replay replayed_projections preparation_payload
    replacement_payload grant_document_lease document_for prepare_document_edit commit_document_edit
    recover_document_edit release_document_lease recover_document_lease active_document_leases
    all_prepared_documents after_call after_calls mutation reading expected_payload event_matches
    validate_grant validate_termination apply_grant apply_prepare apply_commit apply_recover
    apply_terminate execute_document_operation current_epoch find_lease find_document access
    leases_of documents_of find_prepared validate_document_lease stored_event is_document_event
    is_document_state_projection is_active_document_lease_projection lease_of lease_from_projection
    document_from_projection epoch_from_projection codes_before
prepared = refl

-- A second edit is refused while the first is in progress.
prepared_again :
    (prepare_document_edit formats apply_event (stamp "03") holder 0 hash prepared_database).0
    ≡ raised (document_state_error "DOCUMENT_EDIT_IN_PROGRESS")
unfolding hex_digits event_projection entity_id next_version next_record event_state
    projection_payload complete_document_payload document_changes epoch_change apply_event
    capability_record insert_capability revoke_token can_revoke revoke_capability revoke_lease
    revoke_lease_capabilities is_hash valid_lease ends_in_z without_last parsed_timestamp timestamp
    text_field integer_field hash_field validate_access validate_expected lease_state_payload
    document_payload lease_payload get put merge integer_eq object_eq get_text get_natural
    get_integer get_object value_eq array_eq object_within contains is_registered find_record
    row_before pure lift gets transaction rename_failure ◌>>=◌ refuse_if orchestration_projection
    target_status is_text is_none allowed_previous previous_payload same_value?
    require_same_execution merged_payload entity_of reduce_orchestration_payload type_name is_type
    stamped has_event insert_event upsert write_changes save_projections apply_event_mutation append
    append_within persist_capability replay replayed_projections preparation_payload
    replacement_payload grant_document_lease document_for prepare_document_edit commit_document_edit
    recover_document_edit release_document_lease recover_document_lease active_document_leases
    all_prepared_documents after_call after_calls mutation reading expected_payload event_matches
    validate_grant validate_termination apply_grant apply_prepare apply_commit apply_recover
    apply_terminate execute_document_operation current_epoch find_lease find_document access
    leases_of documents_of find_prepared validate_document_lease stored_event is_document_event
    is_document_state_projection is_active_document_lease_projection lease_of lease_from_projection
    document_from_projection epoch_from_projection codes_before
prepared_again = refl

abbrev pub committed_database : Database
committed_database =
    (commit_document_edit formats apply_event (stamp "03") 2000000 preparation other_hash
      prepared_database).1

abbrev pub committed_record : EventRecord
committed_record = record {
  sequence = 3;
  envelope =
      edit_event formats (stamp "03") "run" (some "02") (replaced document other_hash) end
        committing;
}

pub committed :
    commit_document_edit formats apply_event
      (stamp "03")
      2000000
      preparation
      other_hash
      prepared_database
    ≡ (ok committed_record, committed_database)
unfolding hex_digits event_projection entity_id next_version next_record event_state
    projection_payload complete_document_payload document_changes epoch_change apply_event
    capability_record insert_capability revoke_token can_revoke revoke_capability revoke_lease
    revoke_lease_capabilities is_hash valid_lease ends_in_z without_last parsed_timestamp timestamp
    text_field integer_field hash_field validate_access validate_expected lease_state_payload
    document_payload lease_payload get put merge integer_eq object_eq get_text get_natural
    get_integer get_object value_eq array_eq object_within contains is_registered find_record
    row_before pure lift gets transaction rename_failure ◌>>=◌ refuse_if orchestration_projection
    target_status is_text is_none allowed_previous previous_payload same_value?
    require_same_execution merged_payload entity_of reduce_orchestration_payload type_name is_type
    stamped has_event insert_event upsert write_changes save_projections apply_event_mutation append
    append_within persist_capability replay replayed_projections preparation_payload
    replacement_payload grant_document_lease document_for prepare_document_edit commit_document_edit
    recover_document_edit release_document_lease recover_document_lease active_document_leases
    all_prepared_documents after_call after_calls mutation reading expected_payload event_matches
    validate_grant validate_termination apply_grant apply_prepare apply_commit apply_recover
    apply_terminate execute_document_operation current_epoch find_lease find_document access
    leases_of documents_of find_prepared validate_document_lease stored_event is_document_event
    is_document_state_projection is_active_document_lease_projection lease_of lease_from_projection
    document_from_projection epoch_from_projection codes_before
committed = refl

abbrev pub recovered_database : Database
recovered_database =
    (recover_document_edit formats apply_event (stamp "03") preparation prepared_database).1

abbrev pub recovered_record : EventRecord
recovered_record = record {
  sequence = 3;
  envelope =
      edit_event formats (stamp "03") "run" (some "02") (lease_of_document document) end recovering;
}

pub recovered :
    recover_document_edit formats apply_event (stamp "03") preparation prepared_database
    ≡ (ok recovered_record, recovered_database)
unfolding hex_digits event_projection entity_id next_version next_record event_state
    projection_payload complete_document_payload document_changes epoch_change apply_event
    capability_record insert_capability revoke_token can_revoke revoke_capability revoke_lease
    revoke_lease_capabilities is_hash valid_lease ends_in_z without_last parsed_timestamp timestamp
    text_field integer_field hash_field validate_access validate_expected lease_state_payload
    document_payload lease_payload get put merge integer_eq object_eq get_text get_natural
    get_integer get_object value_eq array_eq object_within contains is_registered find_record
    row_before pure lift gets transaction rename_failure ◌>>=◌ refuse_if orchestration_projection
    target_status is_text is_none allowed_previous previous_payload same_value?
    require_same_execution merged_payload entity_of reduce_orchestration_payload type_name is_type
    stamped has_event insert_event upsert write_changes save_projections apply_event_mutation append
    append_within persist_capability replay replayed_projections preparation_payload
    replacement_payload grant_document_lease document_for prepare_document_edit commit_document_edit
    recover_document_edit release_document_lease recover_document_lease active_document_leases
    all_prepared_documents after_call after_calls mutation reading expected_payload event_matches
    validate_grant validate_termination apply_grant apply_prepare apply_commit apply_recover
    apply_terminate execute_document_operation current_epoch find_lease find_document access
    leases_of documents_of find_prepared validate_document_lease stored_event is_document_event
    is_document_state_projection is_active_document_lease_projection lease_of lease_from_projection
    document_from_projection epoch_from_projection codes_before
recovered = refl

abbrev pub released_database : Database
released_database =
    (release_document_lease formats apply_event (stamp "04") "run" "worker" "lease"
      committed_database).1

abbrev pub released_record : EventRecord
released_record = record {
  sequence = 4;
  envelope =
      stamped (stamp "04")
        (broker_event lease_released (some "run") none (termination "lease" "RELEASED"));
}

pub released :
    release_document_lease formats apply_event
      (stamp "04")
      "run"
      "worker"
      "lease"
      committed_database
    ≡ (ok released_record, released_database)
unfolding hex_digits event_projection entity_id next_version next_record event_state
    projection_payload complete_document_payload document_changes epoch_change apply_event
    capability_record insert_capability revoke_token can_revoke revoke_capability revoke_lease
    revoke_lease_capabilities is_hash valid_lease ends_in_z without_last parsed_timestamp timestamp
    text_field integer_field hash_field validate_access validate_expected lease_state_payload
    document_payload lease_payload get put merge integer_eq object_eq get_text get_natural
    get_integer get_object value_eq array_eq object_within contains is_registered find_record
    row_before pure lift gets transaction rename_failure ◌>>=◌ refuse_if orchestration_projection
    target_status is_text is_none allowed_previous previous_payload same_value?
    require_same_execution merged_payload entity_of reduce_orchestration_payload type_name is_type
    stamped has_event insert_event upsert write_changes save_projections apply_event_mutation append
    append_within persist_capability replay replayed_projections preparation_payload
    replacement_payload grant_document_lease document_for prepare_document_edit commit_document_edit
    recover_document_edit release_document_lease recover_document_lease active_document_leases
    all_prepared_documents after_call after_calls mutation reading expected_payload event_matches
    validate_grant validate_termination apply_grant apply_prepare apply_commit apply_recover
    apply_terminate execute_document_operation current_epoch find_lease find_document access
    leases_of documents_of find_prepared validate_document_lease stored_event is_document_event
    is_document_state_projection is_active_document_lease_projection lease_of lease_from_projection
    document_from_projection epoch_from_projection codes_before
released = refl

pub valid : valid_lease lease ≡ true
unfolding hex_digits is_hash valid_lease
valid = refl

pub other_valid : is_hash other_hash ≡ true
unfolding hex_digits is_hash
other_valid = refl

pub time_read :
    parsed_timestamp formats (formats.canonical_timestamp lease.expires_at) ≡ some lease.expires_at
unfolding parsed_timestamp ends_in_z without_last
time_read = refl
