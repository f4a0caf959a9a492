-- ===== src/Documents/Methods.antt =====
-- The calls of the service on documents (state/document_service.py). The stamp of each event and the
-- time that `_document_now` gives are arguments.
use aizim.Prelude.{ℕ, ◌+◌, Option, none, some, List, [], ◌∷◌, String}
use aizim.Tx.{Tx, ◌>>=◌}
use aizim.Json.{JsonObject, string, integer, pos, end, field, put}
use aizim.Events.{
  AppendEventCommand, EventRecord, EventType, Stamp, stamped, lease_granted, lease_released,
  lease_recovered, document_edit_prepared, document_edited, document_edit_recovered,
}
use aizim.Database.{Database}
use aizim.Store.{Reducer}
use aizim.Documents.{
  Formats, FileLease, LeaseState, DocumentState, DocumentPreparation, document_payload,
  lease_payload,
}
use aizim.Documents.Snapshots.{AccessDocument}
use aizim.Documents.Operations.{
  grant_lease, access_document, prepare_edit, commit_edit, recover_edit, terminate_lease,
  active_leases, prepared_documents, execute_document_operation,
}

-- An event of the broker.
abbrev pub broker_event :
    EventType → Option String → Option String → JsonObject → AppendEventCommand
broker_event event_type run_id causation_id payload = record {
  event_type = event_type;
  actor = "document_broker";
  run_id = run_id;
  causation_id = causation_id;
  payload = payload;
}

abbrev pub termination : String → String → JsonObject
termination lease_id reason =
    field "lease_id" (string lease_id) (field "reason_code" (string reason) end)

module _ (formats : Formats) where
  -- The payload of the event that prepares an edit.
  unfoldable pub preparation_payload : DocumentState → ℕ → String → JsonObject
  preparation_payload document expected_version expected_hash =
      put "expected_hash" (string expected_hash) (
        put "expected_version" (integer (pos expected_version)) (document_payload formats document))

  -- The payload of the event that commits an edit.
  unfoldable pub replacement_payload : DocumentState → String → JsonObject
  replacement_payload document replacement_hash = put "content_hash" (string replacement_hash) (
      put "version" (integer (pos (document.file_version + 1))) (document_payload formats document))

module _ (formats : Formats) (reducer : Reducer) where
  unfoldable pub grant_document_lease : Stamp → FileLease → String → Tx Database EventRecord
  grant_document_lease stamp lease relative_path =
      let path = formats.as_posix relative_path in
      let event =
        stamped stamp (
          broker_event lease_granted (some lease.run_id) none (lease_payload formats lease path)) in
      execute_document_operation formats reducer (grant_lease lease path event.occurred_at event)

  unfoldable pub document_for : AccessDocument → Tx Database DocumentState
  document_for a = execute_document_operation formats reducer (access_document a)

  -- The document is read in a call of its own, before the transaction.
  unfoldable pub prepare_document_edit :
      Stamp → AccessDocument → ℕ → String → Tx Database DocumentPreparation
  unfolding preparation_payload
  prepare_document_edit stamp a expected_version expected_hash = do
    document ← execute_document_operation formats reducer (access_document a)
    execute_document_operation formats reducer (
        prepare_edit a expected_version expected_hash (
          stamped stamp (
            broker_event document_edit_prepared (some a.run_id) none
              (preparation_payload formats document expected_version expected_hash))))

  unfoldable pub commit_document_edit :
      Stamp → ℕ → DocumentPreparation → String → Tx Database EventRecord
  unfolding replacement_payload
  commit_document_edit stamp now preparation replacement_hash =
      execute_document_operation formats reducer (
        commit_edit preparation.preparation_id now (
          stamped stamp (
            broker_event document_edited (some preparation.document.run_id)
              (some preparation.preparation_id)
              (replacement_payload formats preparation.document replacement_hash))))

  unfoldable pub recover_document_edit : Stamp → DocumentPreparation → Tx Database EventRecord
  recover_document_edit stamp preparation = execute_document_operation formats reducer (
      recover_edit preparation.preparation_id (
        stamped stamp (
          broker_event document_edit_recovered (some preparation.document.run_id)
            (some preparation.preparation_id) (document_payload formats preparation.document))))

  unfoldable pub release_document_lease : Stamp → String → String → String → Tx Database EventRecord
  release_document_lease stamp run_id worker_id lease_id =
      execute_document_operation formats reducer (
        terminate_lease run_id (some worker_id) lease_id (
          stamped stamp
            (broker_event lease_released (some run_id) none (termination lease_id "RELEASED"))))

  unfoldable pub recover_document_lease : Stamp → LeaseState → Tx Database EventRecord
  recover_document_lease stamp lease = execute_document_operation formats reducer (
      terminate_lease lease.run_id none lease.lease_id (
        stamped stamp (
          broker_event lease_recovered (some lease.run_id) none
            (termination lease.lease_id "BROKER_RECOVERY"))))

  unfoldable pub active_document_leases : Tx Database (List LeaseState)
  active_document_leases = execute_document_operation formats reducer active_leases

  unfoldable pub all_prepared_documents : Tx Database (List DocumentState)
  all_prepared_documents = execute_document_operation formats reducer prepared_documents

-- The calls that write, with their arguments.
pub data DocumentCall : Type 0 where
  grant_call : Stamp → FileLease → String → DocumentCall
  prepare_call : Stamp → AccessDocument → ℕ → String → DocumentCall
  commit_call : Stamp → ℕ → DocumentPreparation → String → DocumentCall
  recover_edit_call : Stamp → DocumentPreparation → DocumentCall
  release_call : Stamp → String → String → String → DocumentCall
  recover_lease_call : Stamp → LeaseState → DocumentCall

-- The database after a call, whether it was answered or refused.
unfoldable pub after_call : Formats → Reducer → DocumentCall → Database → Database
unfolding grant_document_lease prepare_document_edit commit_document_edit recover_document_edit
    release_document_lease recover_document_lease
after_call formats reducer (grant_call s lease path) d =
    (grant_document_lease formats reducer s lease path d).1
after_call formats reducer (prepare_call s a version hash) d =
    (prepare_document_edit formats reducer s a version hash d).1
after_call formats reducer (commit_call s now preparation hash) d =
    (commit_document_edit formats reducer s now preparation hash d).1
after_call formats reducer (recover_edit_call s preparation) d =
    (recover_document_edit formats reducer s preparation d).1
after_call formats reducer (release_call s run worker lease) d =
    (release_document_lease formats reducer s run worker lease d).1
after_call formats reducer (recover_lease_call s lease) d =
    (recover_document_lease formats reducer s lease d).1

unfoldable pub after_calls : Formats → Reducer → List DocumentCall → Database → Database
after_calls formats reducer [] d = d
after_calls formats reducer (c ∷ cs) d =
    after_calls formats reducer cs (after_call formats reducer c d)
