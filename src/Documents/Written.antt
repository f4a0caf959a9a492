-- ===== src/Documents/Written.antt =====
-- What the events of the broker leave among the projections, read back.
use aizim.Prelude.{
  ◌≡◌, refl, sym, ap, ◌∙◌, Option, none, some, List, [], ◌∷◌, String, arith, eq_iff,
}
use aizim.Outcome.{ok, ◌>>=◌}
use aizim.Json.{JsonObject, end, get, get_text, get_object}
use aizim.Events.{
  EventType, EventEnvelope, EventRecord, Stamp, stamped, type_name, document_edit_prepared,
  document_edited, document_edit_recovered, lease_granted,
}
use aizim.Projections.{ProjectionRecord, find_record, is_registered}
use aizim.Database.{Database}
use aizim.Store.{append_within, upsert, write_changes}
use aizim.Store.Lookups.{append_within-projections, find_record-upsert}
use aizim.Orchestration.{orchestration_projection}
use aizim.Reducers.{
  apply_event, entity_id, event_projection, event_state, next_record, projection_payload,
  document_changes, complete_document_payload,
}
use aizim.Documents.{
  require_some, Formats, FileLease, LeaseState, lease_fields, lease_payload, leased,
}
use aizim.Documents.Records.{
  stored_event, lease_from_projection, document_from_projection, document_of,
}
use aizim.Documents.Readings.{IsReadable, lease_of-fields}
use aizim.Documents.Snapshots.{find_document, find_lease}
use aizim.Documents.Methods.{broker_event}

ok-injective : {A : Type 0} {a b : A} → ok a ≡ ok b → a ≡ b
ok-injective h = ground arith

-- A row that has been written is found under its key.
pub find_record-written :
    (name entity : String) (c : ProjectionRecord) (rs : List ProjectionRecord)
    → c.projection_name ≡ name
    → c.entity_id ≡ entity
    → find_record name entity (upsert c rs) ≡ some c
find_record-written name entity c rs p q = ground (
  arith,
  eq_iff c.projection_name name,
  eq_iff c.entity_id entity,
  find_record-upsert name entity c rs,
)

-- The events of an edit.
pub data Edit : Type 0 where
  preparing committing recovering : Edit

abbrev pub edit_type : Edit → EventType
edit_type preparing = document_edit_prepared
edit_type committing = document_edited
edit_type recovering = document_edit_recovered

module _ (formats : Formats) (s : Stamp) (run : String) (cause : Option String) (lease : LeaseState)
    (others : JsonObject) where
  abbrev pub edit_event : Edit → EventEnvelope
  edit_event t =
      stamped s (broker_event (edit_type t) (some run) cause (lease_fields formats lease others))

  edit-entity : (t : Edit) → IsReadable formats lease → entity_id (edit_event t) ≡ lease.document_id
  unfolding entity_id stamped get_text get
  edit-entity preparing r = ground (arith, r.document_id)
  edit-entity committing r = ground (arith, r.document_id)
  edit-entity recovering r = ground (arith, r.document_id)

  unfoldable pub edit_record : Edit → List ProjectionRecord → ProjectionRecord
  edit_record t rs =
      next_record rs "documents" (entity_id (edit_event t))
        (event_state (edit_event t) (lease_fields formats lease others))

  edit-changes :
      (t : Edit) (rs : List ProjectionRecord)
      → apply_event rs (edit_event t) ≡ ok (edit_record t rs ∷ [])
  unfolding edit_record apply_event projection_payload event_projection orchestration_projection
      stamped
  edit-changes preparing rs = refl
  edit-changes committing rs = refl
  edit-changes recovering rs = refl

  edit-read :
      (t : Edit) (rs : List ProjectionRecord)
      → IsReadable formats lease
      → document_from_projection formats (edit_record t rs)
        ≡ ok (document_of (type_name (edit_type t)) s.event_id (record lease { run_id = run }))
  unfolding edit_record document_from_projection stored_event event_state next_record stamped
      get_text get_object get
  edit-read t rs r =
      ap (λ l. l >>= λ x. ok (document_of (type_name (edit_type t)) s.event_id x))
        (lease_of-fields formats (type_name (edit_type t)) run lease others r)

  -- The table after the event of an edit.
  pub edit-table :
      (t : Edit) (d d' : Database) (x : EventRecord)
      → append_within apply_event (edit_event t) d ≡ (ok x, d')
      → d'.projections ≡ upsert (edit_record t d.projections) d.projections
  unfolding edit_record next_record is_registered write_changes
  edit-table t d d' x h =
      let (cs, reduced, written) = append_within-projections apply_event (edit_event t) d d' x h in
      let is_cs = ok-injective (sym reduced ∙ edit-changes t d.projections) in
      ok-injective (sym written ∙ ap (λ l. write_changes l d.projections) is_cs)

  -- The document that is found after the event of an edit has been appended.
  pub edit-document :
      (t : Edit) (d d' : Database) (x : EventRecord)
      → IsReadable formats lease
      → append_within apply_event (edit_event t) d ≡ (ok x, d')
      → find_document formats lease.document_id d'.projections
        ≡ ok (document_of (type_name (edit_type t)) s.event_id (record lease { run_id = run }))
  unfolding find_document edit_record next_record
  edit-document t d d' x r h =
      let c = edit_record t d.projections in
      let table = edit-table t d d' x h in
      let found =
        ap (find_record "documents" lease.document_id) table
        ∙ find_record-written "documents" lease.document_id c d.projections refl
            (edit-entity t r) in
      ap (λ o. require_some "DOCUMENT_NOT_FOUND" o >>= document_from_projection formats) found
      ∙ edit-read t d.projections r

module _ (formats : Formats) (s : Stamp) (lease : FileLease) (path : String) where
  abbrev pub grant_event : EventEnvelope
  grant_event =
      stamped s
        (broker_event lease_granted (some lease.run_id) none (lease_payload formats lease path))

  grant-entity :
      IsReadable formats (leased formats lease path) → entity_id grant_event ≡ lease.lease_id
  unfolding entity_id stamped lease_payload get_text get
  grant-entity r = ground (arith, r.lease_id)

  unfoldable pub grant_record : String → String → List ProjectionRecord → ProjectionRecord
  grant_record name entity rs =
      next_record rs name entity (event_state grant_event (lease_payload formats lease path))

  grant-changes :
      (rs : List ProjectionRecord)
      → apply_event rs grant_event
        ≡ ok (
            grant_record "leases" (entity_id grant_event) rs
            ∷ grant_record "documents" lease.document_id rs
            ∷ [])
  unfolding grant_record apply_event projection_payload event_projection orchestration_projection
      stamped document_changes complete_document_payload lease_payload get_text get
  grant-changes rs = refl

  grant-lease_read :
      (name entity : String) (rs : List ProjectionRecord)
      → IsReadable formats (leased formats lease path)
      → lease_from_projection formats (grant_record name entity rs) ≡ ok (leased formats lease path)
  unfolding grant_record lease_from_projection stored_event event_state next_record stamped
      lease_payload get_text get_object get type_name
  grant-lease_read name entity rs r =
      lease_of-fields formats "LeaseGranted" lease.run_id (leased formats lease path) end r

  grant-document_read :
      (name entity : String) (rs : List ProjectionRecord)
      → IsReadable formats (leased formats lease path)
      → document_from_projection formats (grant_record name entity rs)
        ≡ ok (document_of "LeaseGranted" s.event_id (leased formats lease path))
  unfolding grant_record document_from_projection stored_event event_state next_record stamped
      lease_payload get_text get_object get type_name
  grant-document_read name entity rs r =
      ap (λ l. l >>= λ x. ok (document_of "LeaseGranted" s.event_id x))
        (lease_of-fields formats "LeaseGranted" lease.run_id (leased formats lease path) end r)

  -- The table after the grant of a lease.
  pub grant-table :
      (d d' : Database) (x : EventRecord)
      → append_within apply_event grant_event d ≡ (ok x, d')
      → d'.projections
        ≡ upsert
            (grant_record "documents" lease.document_id d.projections)
            (upsert (grant_record "leases" (entity_id grant_event) d.projections) d.projections)
  unfolding grant_record next_record is_registered write_changes
  grant-table d d' x h =
      let (cs, reduced, written) = append_within-projections apply_event grant_event d d' x h in
      let is_cs = ok-injective (sym reduced ∙ grant-changes d.projections) in
      ok-injective (sym written ∙ ap (λ l. write_changes l d.projections) is_cs)

  -- The lease and the document that are found after the grant has been appended.
  pub grant-found :
      (d d' : Database) (x : EventRecord)
      → IsReadable formats (leased formats lease path)
      → append_within apply_event grant_event d ≡ (ok x, d')
      → (find_lease formats lease.lease_id d'.projections ≡ ok (leased formats lease path))
        × (find_document formats lease.document_id d'.projections
            ≡ ok (document_of "LeaseGranted" s.event_id (leased formats lease path)))
  unfolding find_lease find_document grant_record next_record
  grant-found d d' x r h =
      let rs = d.projections in
      let table = grant-table d d' x h in
      let document = grant_record "documents" lease.document_id rs in
      let written = grant_record "leases" (entity_id grant_event) rs in
      let lease_found =
        ap (find_record "leases" lease.lease_id) table
        ∙ find_record-upsert "leases" lease.lease_id document (upsert written rs)
        ∙ find_record-written "leases" lease.lease_id written rs refl (grant-entity r) in
      let document_found =
        ap (find_record "documents" lease.document_id) table
        ∙ find_record-written "documents" lease.document_id document (upsert written rs) refl
            refl in
      (
        ap (λ o. require_some "LEASE_NOT_FOUND" o >>= lease_from_projection formats) lease_found
            ∙ grant-lease_read "leases" _ rs r,
        ap (λ o. require_some "DOCUMENT_NOT_FOUND" o >>= document_from_projection formats)
              document_found
            ∙ grant-document_read "documents" _ rs r,
      )
