-- ===== src/Documents/Operations.antt =====
-- The operations on documents (state/document_operations.py, state/store_documents.py). Those that
-- write run in a transaction, on the projections that it reads first.
use aizim.Prelude.{
  ℕ, ◌+◌, Bool, true, false, ◌||◌, not, Option, none, some, List, [], ◌∷◌, String, same_text,
  same_text?, is_some, leb, if◌then◌else◌,
}
use aizim.Outcome.{Outcome, ok, raised, document_state_error}
use aizim.Tx.{Tx, pure, lift, gets, refuse_if, transaction, ◌>>=◌, ◌>>◌}
use aizim.Json.{JsonObject, string, integer, pos, get_text, put, object_eq}
use aizim.Events.{EventEnvelope, EventRecord, is_type, document_edit_prepared}
use aizim.Projections.{ProjectionRecord, find_record}
use aizim.Database.{Database}
use aizim.Store.{Reducer, apply_event_mutation}
use aizim.Tokens.{revoke_lease_capabilities}
use aizim.Documents.{
  Formats, FileLease, LeaseState, DocumentState, DocumentPreparation, same_epochs, require_some,
  validate_expected, document_payload, lease_payload, has_characters,
}
use aizim.Documents.Snapshots.{
  AccessDocument, current_epoch, find_lease, access, leases_of, documents_of, find_prepared,
  validate_document_lease,
}

pub data DocumentOperation : Type 0 where
  grant_lease : FileLease → String → ℕ → EventEnvelope → DocumentOperation
  access_document : AccessDocument → DocumentOperation
  prepare_edit : AccessDocument → ℕ → String → EventEnvelope → DocumentOperation
  commit_edit : String → ℕ → EventEnvelope → DocumentOperation
  recover_edit : String → EventEnvelope → DocumentOperation
  terminate_lease : String → Option String → String → EventEnvelope → DocumentOperation
  active_leases prepared_documents : DocumentOperation

-- The parameter of `DocumentOperation[T]`
abbrev pub ResultOf : DocumentOperation → Type 0
ResultOf (grant_lease _ _ _ _) = EventRecord
ResultOf (access_document _) = DocumentState
ResultOf (prepare_edit _ _ _ _) = DocumentPreparation
ResultOf (commit_edit _ _ _) = EventRecord
ResultOf (recover_edit _ _) = EventRecord
ResultOf (terminate_lease _ _ _ _) = EventRecord
ResultOf active_leases = List LeaseState
ResultOf prepared_documents = List DocumentState

abbrev pub any {ℓ} : {A : Type ℓ} → (A → Bool) → List A → Bool
any p [] = false
any p (x ∷ xs) = p x || any p xs

-- The entries whose `prepared_event_id` is neither missing nor empty
abbrev pub prepared_only : List DocumentState → List DocumentState
prepared_only [] = []
prepared_only (x ∷ xs) =
    let rest = prepared_only xs in
    elim x.prepared_event_id [
      | none ↦ rest
      | some id ↦ if has_characters id then x ∷ rest else rest
    ]

-- `expected` in `_event_matches`
abbrev with_expectation : Bool → ℕ → String → JsonObject → JsonObject
with_expectation true version candidate payload =
    put "expected_hash" (string candidate) (put "expected_version" (integer (pos version)) payload)
with_expectation false version candidate payload = payload

-- `_mutate` with what stands around it: the transaction, the projections that it reads, and the
-- revocation after the branch.
unfoldable pub mutation :
    {A : Type 0} → EventEnvelope → (List ProjectionRecord → Tx Database A) → Tx Database A
mutation event branch = transaction (do
  snapshots ← gets (λ d. d.projections)
  result ← branch snapshots
  revoke_lease_capabilities event
  pure result)

-- The operations that only read.
unfoldable pub reading : {A : Type 0} → (List ProjectionRecord → Outcome A) → Tx Database A
reading query = do snapshots ← gets (λ d. d.projections); lift (query snapshots)

abbrev read_prepared : Outcome (List DocumentState) → Outcome (List DocumentState)
read_prepared (ok documents) = ok (prepared_only documents)
read_prepared (raised e) = raised e

module _ (formats : Formats) where
  unfoldable pub expected_payload : DocumentState → EventEnvelope → ℕ → String → JsonObject
  expected_payload document event version candidate =
      with_expectation (is_type event.event_type document_edit_prepared) version candidate (
        put "content_hash" (string candidate)
          (put "version" (integer (pos version)) (document_payload formats document)))

  -- `_event_matches`; without a hash, the one of the event is taken.
  unfoldable pub event_matches :
      DocumentState → EventEnvelope → ℕ → Option String → Tx Database (Unit {0})
  unfolding expected_payload
  event_matches document event version content_hash = do
    candidate ← lift (
        require_some "INVALID_DOCUMENT_STATE" (elim content_hash [
          | none ↦ get_text "content_hash" event.payload
          | some given ↦ some given
        ]))
    refuse_if
        (not (same_text? event.run_id (some document.run_id))
          || not (object_eq event.payload (expected_payload document event version candidate)))
        (document_state_error "INVALID_DOCUMENT_STATE")

  -- `_validate_grant`
  unfoldable pub validate_grant :
      FileLease → String → ℕ → EventEnvelope → List ProjectionRecord → Tx Database (Unit {0})
  validate_grant lease relative_path now event snapshots = do
    refuse_if (is_some lease.physical_file) (document_state_error "INVALID_DOCUMENT_STATE")
    epoch ← lift (current_epoch snapshots)
    refuse_if (not (same_epochs lease.epoch_pair epoch)) (document_state_error "EPOCH_MISMATCH")
    refuse_if (leb lease.expires_at now) (document_state_error "LEASE_EXPIRED")
    refuse_if (not (same_text? event.run_id (some lease.run_id)))
        (document_state_error "LEASE_RUN_MISMATCH")
    active ← lift (leases_of formats snapshots)
    refuse_if (any (λ item. same_text item.lease_id lease.lease_id) active)
        (document_state_error "LEASE_ID_COLLISION")
    refuse_if (any (λ item. same_text item.document_id lease.document_id) active)
        (document_state_error "DOCUMENT_ALREADY_LEASED")
    refuse_if (any (λ item. same_text item.relative_path relative_path) active)
        (document_state_error "DOCUMENT_ALREADY_LEASED")
    refuse_if (is_some (find_record "documents" lease.document_id snapshots))
        (document_state_error "DOCUMENT_ID_COLLISION")
    refuse_if (not (object_eq event.payload (lease_payload formats lease relative_path)))
        (document_state_error "INVALID_DOCUMENT_STATE")

  -- The checks of `_mutate` on a lease that ends
  unfoldable pub validate_termination : String → Option String → LeaseState → Tx Database (Unit {0})
  validate_termination run_id worker_id lease = do
    refuse_if (not lease.active) (document_state_error "LEASE_INACTIVE")
    refuse_if (not (same_text lease.run_id run_id)) (document_state_error "LEASE_RUN_MISMATCH")
    refuse_if
        (elim worker_id [ none ↦ false | some worker ↦ not (same_text lease.worker_id worker) ])
        (document_state_error "LEASE_OWNER_MISMATCH")

  module _ (reducer : Reducer) where
    -- The branches of `_mutate`
    unfoldable pub apply_grant :
        FileLease → String → ℕ → EventEnvelope → List ProjectionRecord → Tx Database EventRecord
    unfolding validate_grant
    apply_grant lease relative_path now event snapshots = do
      validate_grant lease relative_path now event snapshots
      apply_event_mutation reducer event snapshots

    unfoldable pub apply_prepare :
        AccessDocument
        → ℕ
        → String
        → EventEnvelope
        → List ProjectionRecord
        → Tx Database DocumentPreparation
    unfolding event_matches
    apply_prepare a expected_version expected_hash event snapshots = do
      document ← lift (access formats a snapshots)
      lift (validate_expected document expected_version expected_hash)
      event_matches document event document.file_version (some document.content_hash)
      apply_event_mutation reducer event snapshots
      pure (record { preparation_id = event.event_id; document = document })

    unfoldable pub apply_commit :
        String → ℕ → EventEnvelope → List ProjectionRecord → Tx Database EventRecord
    unfolding event_matches
    apply_commit preparation_id now event snapshots = do
      document ← lift (find_prepared formats preparation_id snapshots)
      refuse_if (not (same_text? event.causation_id (some preparation_id)))
          (document_state_error "DOCUMENT_PREPARATION_MISMATCH")
      lift (validate_document_lease formats document now snapshots)
      event_matches document event (document.file_version + 1) none
      apply_event_mutation reducer event snapshots

    unfoldable pub apply_recover :
        String → EventEnvelope → List ProjectionRecord → Tx Database EventRecord
    unfolding event_matches
    apply_recover preparation_id event snapshots = do
      document ← lift (find_prepared formats preparation_id snapshots)
      refuse_if (not (same_text? event.causation_id (some preparation_id)))
          (document_state_error "DOCUMENT_PREPARATION_MISMATCH")
      event_matches document event document.file_version (some document.content_hash)
      apply_event_mutation reducer event snapshots

    unfoldable pub apply_terminate :
        String
        → Option String
        → String
        → EventEnvelope
        → List ProjectionRecord
        → Tx Database EventRecord
    unfolding validate_termination
    apply_terminate run_id worker_id lease_id event snapshots = do
      lease ← lift (find_lease formats lease_id snapshots)
      validate_termination run_id worker_id lease
      apply_event_mutation reducer event snapshots

    -- `execute_document_operation`
    unfoldable pub execute_document_operation : (o : DocumentOperation) → Tx Database (ResultOf o)
    unfolding apply_grant apply_prepare apply_commit apply_recover apply_terminate mutation reading
    execute_document_operation (grant_lease lease path now event) =
        mutation event (apply_grant lease path now event)
    execute_document_operation (access_document a) = reading (access formats a)
    execute_document_operation (prepare_edit a version hash event) =
        mutation event (apply_prepare a version hash event)
    execute_document_operation (commit_edit id now event) =
        mutation event (apply_commit id now event)
    execute_document_operation (recover_edit id event) = mutation event (apply_recover id event)
    execute_document_operation (terminate_lease run worker id event) =
        mutation event (apply_terminate run worker id event)
    execute_document_operation active_leases = reading (leases_of formats)
    execute_document_operation prepared_documents =
        reading (λ snapshots. read_prepared (documents_of formats snapshots))
