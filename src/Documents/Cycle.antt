-- ===== src/Documents/Cycle.antt =====
-- What the calls of an edit leave of the document.
use aizim.Prelude.{ℕ, ◌+◌, ◌≡◌, sym, ap, ◌∙◌, true, none, some, String}
use aizim.Outcome.{ok}
use aizim.Json.{put, field, end, string, integer, pos}
use aizim.Events.{EventRecord, Stamp, type_name}
use aizim.Database.{Database}
use aizim.Store.{append_within}
use aizim.Reducers.{apply_event}
use aizim.Documents.{
  Formats, LeaseState, DocumentState, DocumentPreparation, lease_of_document, lease_state_payload,
  document_payload, is_hash,
}
use aizim.Documents.Readings.{IsReadable, PosixLaws}
use aizim.Documents.Snapshots.{AccessDocument, find_document}
use aizim.Documents.Operations.{execute_document_operation}
use aizim.Documents.Appends.{apply_commit-Writes, apply_recover-Writes, mutation-append_within}
use aizim.Documents.Methods.{
  replacement_payload, prepare_document_edit, commit_document_edit, recover_document_edit,
}
use aizim.Documents.Accesses.{HasAccess, access-inv, find_document-IsReadable}
use aizim.Documents.Written.{preparing, committing, recovering, edit_event, edit-document}
use aizim.Documents.Edits.{IsPrepared, prepare_document_edit-inv}

-- The lease of a document whose content has been replaced.
abbrev pub replaced : DocumentState → String → LeaseState
replaced document hash = record (lease_of_document document) {
  file_version = document.file_version + 1;
  content_hash = hash;
}

pub commit-appended :
    (formats : Formats) (s : Stamp) (now : ℕ) (p : DocumentPreparation) (hash : String)
    (d d' : Database) (x : EventRecord)
    → commit_document_edit formats apply_event s now p hash d ≡ (ok x, d')
    → (y : EventRecord) × (append_within apply_event
          (edit_event formats s p.document.run_id
            (some p.preparation_id)
            (replaced p.document hash)
            end
            committing)
          d
        ≡ (ok y, d'))
unfolding commit_document_edit execute_document_operation replacement_payload document_payload
    lease_state_payload put
commit-appended formats s now p hash d d' x h =
    mutation-append_within apply_event _ _ d d' x
      (λ rs. apply_commit-Writes formats apply_event rs p.preparation_id now _) h

pub recover-appended :
    (formats : Formats) (s : Stamp) (p : DocumentPreparation) (d d' : Database) (x : EventRecord)
    → recover_document_edit formats apply_event s p d ≡ (ok x, d')
    → (y : EventRecord) × (append_within apply_event
          (edit_event formats s p.document.run_id
            (some p.preparation_id)
            (lease_of_document p.document)
            end
            recovering)
          d
        ≡ (ok y, d'))
unfolding recover_document_edit execute_document_operation document_payload lease_state_payload
recover-appended formats s p d d' x h =
    mutation-append_within apply_event _ _ d d' x
      (λ rs. apply_recover-Writes formats apply_event rs p.preparation_id _) h

IsReadable-replaced :
    (formats : Formats) (document : DocumentState) (hash : String)
    → IsReadable formats (lease_of_document document)
    → is_hash hash ≡ true
    → IsReadable formats (replaced document hash)
IsReadable-replaced formats document hash r h = record {
  lease_id = r.lease_id;
  worker_id = r.worker_id;
  document_id = r.document_id;
  relative_path = r.relative_path;
  path = r.path;
  namespace = r.namespace;
  base_epoch = r.base_epoch;
  content_hash = h;
  expires_at = r.expires_at;
}

module _ (formats : Formats) (laws : PosixLaws formats) (s : Stamp) (a : AccessDocument)
    (version : ℕ) (hash : String) (d d' : Database) (p : DocumentPreparation)
    (prepared : prepare_document_edit formats apply_event s a version hash d ≡ (ok p, d')) where
  checks : IsPrepared formats s a version hash d d' p
  checks = prepare_document_edit-inv formats s a version hash d d' p prepared

  pub had_access : HasAccess formats a d.projections p.document
  had_access = access-inv formats a d.projections p.document checks.accessed

  readable : IsReadable formats (lease_of_document p.document)
  readable =
      find_document-IsReadable formats laws a.document_id d.projections p.document
        had_access.document_found

  -- The document is found as prepared by the event of the edit, and is otherwise the same.
  pub prepared-document :
      find_document formats p.document.document_id d'.projections
      ≡ ok (record p.document { prepared_event_id = some s.event_id })
  unfolding type_name
  prepared-document =
      edit-document formats s a.run_id none (lease_of_document p.document)
        (field "expected_version" (integer (pos version)) (field "expected_hash" (string hash) end))
        preparing d d' checks.logged readable checks.appended
      ∙ ap (λ r. ok (record p.document { run_id = r; prepared_event_id = some s.event_id }))
          (sym checks.same_run)

  -- A commit, whenever it succeeds, leaves the document with the next version and the new hash.
  pub committed-document :
      (t : Stamp) (now : ℕ) (replacement : String) (e e' : Database) (x : EventRecord)
      → is_hash replacement ≡ true
      → commit_document_edit formats apply_event t now p replacement e ≡ (ok x, e')
      → find_document formats p.document.document_id e'.projections
        ≡ ok (record p.document {
          file_version = p.document.file_version + 1;
          content_hash = replacement;
        })
  unfolding type_name
  committed-document t now replacement e e' x valid h =
      let (y, appended) = commit-appended formats t now p replacement e e' x h in
      edit-document formats t p.document.run_id (some p.preparation_id)
        (replaced p.document replacement) end committing e e' y
        (IsReadable-replaced formats p.document replacement readable valid) appended
      ∙ ap
          (λ o. ok (record p.document {
            file_version = p.document.file_version + 1;
            content_hash = replacement;
            prepared_event_id = o;
          }))
          (sym had_access.unprepared)

  -- A recovery, whenever it succeeds, restores the document as it was before the edit was prepared.
  pub recovered-document :
      (t : Stamp) (e e' : Database) (x : EventRecord)
      → recover_document_edit formats apply_event t p e ≡ (ok x, e')
      → find_document formats p.document.document_id e'.projections ≡ ok p.document
  unfolding type_name
  recovered-document t e e' x h =
      let (y, appended) = recover-appended formats t p e e' x h in
      edit-document formats t p.document.run_id (some p.preparation_id)
        (lease_of_document p.document) end recovering e e' y readable appended
      ∙ ap (λ o. ok (record p.document { prepared_event_id = o })) (sym had_access.unprepared)
