-- ===== src/Documents/Snapshots.antt =====
-- What the operations on documents read from the projections (state/store_documents.py).
use aizim.Prelude.{
  ℕ, Bool, true, false, not, some, List, [], ◌∷◌, String, same_text, same_text?, is_some,
  if◌then◌else◌,
}
use aizim.Outcome.{Outcome, ok, raise_if, document_state_error, ◌>>=◌, ◌>>◌}
use aizim.Projections.{ProjectionRecord, find_record}
use aizim.Documents.{
  Formats, EpochPair, LeaseState, DocumentState, refused, require_some, validate_access,
}
use aizim.Documents.Records.{
  is_document_state_projection, is_active_document_lease_projection, lease_from_projection,
  document_from_projection, epoch_from_projection,
}

pub record AccessDocument : Type 0 where
  pub run_id : String
  pub worker_id : String
  pub lease_id : String
  pub document_id : String
  pub now : ℕ

-- `_epoch`
unfoldable pub current_epoch : List ProjectionRecord → Outcome EpochPair
current_epoch snapshots = do
  r ← require_some "EPOCH_MISMATCH" (find_record "epochs" "global" snapshots)
  epoch_from_projection r

abbrev pub cons_where : {A : Type 0} → Bool → Outcome A → Outcome (List A) → Outcome (List A)
cons_where true first rest = do x ← first; xs ← rest; ok (x ∷ xs)
cons_where false first rest = rest

module _ (formats : Formats) where
  -- `_lease`
  unfoldable pub find_lease : String → List ProjectionRecord → Outcome LeaseState
  find_lease lease_id snapshots = do
    r ← require_some "LEASE_NOT_FOUND" (find_record "leases" lease_id snapshots)
    lease_from_projection formats r

  -- `_document`
  unfoldable pub find_document : String → List ProjectionRecord → Outcome DocumentState
  find_document document_id snapshots = do
    r ← require_some "DOCUMENT_NOT_FOUND" (find_record "documents" document_id snapshots)
    document_from_projection formats r

  -- `_access`
  unfoldable pub access : AccessDocument → List ProjectionRecord → Outcome DocumentState
  unfolding find_lease find_document current_epoch
  access a snapshots = do
    lease ← find_lease a.lease_id snapshots
    epoch ← current_epoch snapshots
    validate_access lease a.run_id a.worker_id a.document_id a.now epoch
    document ← find_document a.document_id snapshots
    raise_if (is_some document.prepared_event_id) (document_state_error "DOCUMENT_EDIT_IN_PROGRESS")
    raise_if (not (same_text document.lease_id lease.lease_id))
        (document_state_error "LEASE_DOCUMENT_MISMATCH")
    ok document

  -- `_active_leases`
  unfoldable pub leases_of : List ProjectionRecord → Outcome (List LeaseState)
  leases_of [] = ok []
  leases_of (r ∷ rs) =
      let rest = leases_of rs in
      if same_text r.projection_name "leases"
      then (is_active_document_lease_projection r >>= λ active.
          cons_where active (lease_from_projection formats r) rest)
      else rest

  -- The states of documents among the projections.
  unfoldable pub documents_of : List ProjectionRecord → Outcome (List DocumentState)
  documents_of [] = ok []
  documents_of (r ∷ rs) =
      let rest = documents_of rs in
      if same_text r.projection_name "documents"
      then (is_document_state_projection r >>= λ is_state.
          cons_where is_state (document_from_projection formats r) rest)
      else rest

  abbrev prepared_or :
      String → Bool → Outcome DocumentState → Outcome DocumentState → Outcome DocumentState
  prepared_or id false first rest = rest
  prepared_or id true first rest = do
    document ← first
    (if same_text? document.prepared_event_id (some id) then ok document else rest)

  -- `_prepared`: the rows after the one that is found are not read.
  unfoldable pub find_prepared : String → List ProjectionRecord → Outcome DocumentState
  find_prepared id [] = refused "DOCUMENT_PREPARATION_MISMATCH"
  find_prepared id (r ∷ rs) =
      let rest = find_prepared id rs in
      if same_text r.projection_name "documents"
      then (is_document_state_projection r >>= λ is_state.
          prepared_or id is_state (document_from_projection formats r) rest)
      else rest

  -- `_validate_document_lease`
  unfoldable pub validate_document_lease :
      DocumentState → ℕ → List ProjectionRecord → Outcome (Unit {0})
  unfolding find_lease current_epoch
  validate_document_lease document now snapshots = do
    lease ← find_lease document.lease_id snapshots
    epoch ← current_epoch snapshots
    validate_access lease document.run_id document.worker_id document.document_id now epoch
