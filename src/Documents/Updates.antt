-- ===== src/Documents/Updates.antt =====
-- No update of a document is lost: edits of one document exclude each other.
use aizim.Prelude.{ℕ, ◌+◌, ◌≡◌, ◌≢◌, sym, ap, ◌∙◌, true, none, some, String, arith}
use aizim.Outcome.{ok}
use aizim.Events.{EventRecord, Stamp}
use aizim.Database.{Database}
use aizim.Reducers.{apply_event}
use aizim.Documents.{Formats, DocumentState, DocumentPreparation, is_hash}
use aizim.Documents.Readings.{PosixLaws}
use aizim.Documents.Snapshots.{AccessDocument, access, find_document}
use aizim.Documents.Methods.{prepare_document_edit, commit_document_edit, recover_document_edit}
use aizim.Documents.Accesses.{HasAccess, access-inv}
use aizim.Documents.Edits.{prepare_document_edit-inv}
use aizim.Documents.Cycle.{had_access, prepared-document, committed-document, recovered-document}

ok-injective : {A : Type 0} {a b : A} → ok a ≡ ok b → a ≡ b
ok-injective h = ground arith

-- An edit is prepared only for the holder of an active and unexpired lease of the current epoch, on a
-- document of that lease that no other edit holds, and with its version and its hash.
pub prepare_document_edit-requires :
    (formats : Formats) (s : Stamp) (a : AccessDocument) (version : ℕ) (hash : String)
    (d d' : Database) (p : DocumentPreparation)
    → prepare_document_edit formats apply_event s a version hash d ≡ (ok p, d')
    → HasAccess formats a d.projections p.document
      × (p.document.file_version ≡ version)
      × (p.document.content_hash ≡ hash)
prepare_document_edit-requires formats s a version hash d d' p h =
    let prepared = prepare_document_edit-inv formats s a version hash d d' p h in
    (
      access-inv formats a d.projections p.document prepared.accessed,
      prepared.version_matches,
      prepared.hash_matches,
    )

-- Once an edit of a document has been prepared, no access to the document succeeds on the database
-- that is left, whoever asks.
pub prepare_document_edit-blocks :
    (formats : Formats) (laws : PosixLaws formats) (s : Stamp) (a b : AccessDocument) (version : ℕ)
    (hash : String) (d d' : Database) (p : DocumentPreparation) (document : DocumentState)
    → prepare_document_edit formats apply_event s a version hash d ≡ (ok p, d')
    → b.document_id ≡ p.document.document_id
    → access formats b d'.projections ≢ ok document
prepare_document_edit-blocks formats laws s a b version hash d d' p document h same granted =
    let found = prepared-document formats laws s a version hash d d' p h in
    let has = access-inv formats b d'.projections document granted in
    let is_document =
      ok-injective
        (sym has.document_found ∙ ap (λ k. find_document formats k d'.projections) same ∙ found) in
    some-none (sym (ap (λ (x : DocumentState). x.prepared_event_id) is_document) ∙ has.unprepared)
  where
    some-none : {t : String} → some t ≢ none
    some-none e = ground arith

-- A preparation that is committed, at whatever time later, leaves its document with the next version
-- and the replacement's hash and no edit in progress, where the hash is one; all else of the document
-- is as it was when the edit was prepared.
pub commit_document_edit-advances :
    (formats : Formats) (laws : PosixLaws formats) (s t : Stamp) (a : AccessDocument)
    (version now : ℕ) (hash replacement : String) (d d' e e' : Database) (p : DocumentPreparation)
    (x : EventRecord)
    → prepare_document_edit formats apply_event s a version hash d ≡ (ok p, d')
    → is_hash replacement ≡ true
    → commit_document_edit formats apply_event t now p replacement e ≡ (ok x, e')
    → find_document formats p.document.document_id e'.projections
      ≡ ok (record p.document { file_version = version + 1; content_hash = replacement })
commit_document_edit-advances formats laws s t a version now hash replacement d d' e e' p x h v k =
    committed-document formats laws s a version hash d d' p h t now replacement e e' x v k
    ∙ ap (λ n. ok (record p.document { file_version = n + 1; content_hash = replacement }))
        (prepare_document_edit-inv formats s a version hash d d' p h).version_matches

-- Two edits of a document that expect the same version are not both made: once one of them has been
-- committed, the other is not prepared.
pub commit_document_edit-excludes :
    (formats : Formats) (laws : PosixLaws formats) (s t u : Stamp) (a b : AccessDocument)
    (version now : ℕ) (hash other replacement : String) (d d' e e' f : Database)
    (p q : DocumentPreparation) (x : EventRecord)
    → prepare_document_edit formats apply_event s a version hash d ≡ (ok p, d')
    → is_hash replacement ≡ true
    → commit_document_edit formats apply_event t now p replacement e ≡ (ok x, e')
    → b.document_id ≡ p.document.document_id
    → prepare_document_edit formats apply_event u b version other e' ≢ (ok q, f)
commit_document_edit-excludes formats laws s t u a b version now hash other replacement d d' e e' f
      p q x h v k same again =
    let found =
      commit_document_edit-advances formats laws s t a version now hash replacement d d' e e' p x h
        v k in
    let prepared = prepare_document_edit-inv formats u b version other e' f q again in
    let has = access-inv formats b e'.projections q.document prepared.accessed in
    let is_document =
      ok-injective
        (sym has.document_found ∙ ap (λ y. find_document formats y e'.projections) same ∙ found) in
    not_next version
      (sym prepared.version_matches ∙ ap (λ (y : DocumentState). y.file_version) is_document)
  where
    not_next : (n : ℕ) → n ≢ n + 1
    not_next n e = omega arith

-- A preparation that is recovered, at whatever time later, leaves its document exactly as it was when
-- the edit was prepared.
pub recover_document_edit-restores :
    (formats : Formats) (laws : PosixLaws formats) (s t : Stamp) (a : AccessDocument) (version : ℕ)
    (hash : String) (d d' e e' : Database) (p : DocumentPreparation) (x : EventRecord)
    → prepare_document_edit formats apply_event s a version hash d ≡ (ok p, d')
    → recover_document_edit formats apply_event t p e ≡ (ok x, e')
    → (find_document formats a.document_id d.projections ≡ ok p.document)
      × (find_document formats p.document.document_id e'.projections ≡ ok p.document)
recover_document_edit-restores formats laws s t a version hash d d' e e' p x h k = (
  (had_access formats laws s a version hash d d' p h).document_found,
  recovered-document formats laws s a version hash d d' p h t e e' x k,
)
