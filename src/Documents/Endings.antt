-- ===== src/Documents/Endings.antt =====
-- The end of a lease, by its release or its recovery.
use aizim.Prelude.{◌≡◌, ◌≢◌, refl, sym, ap, ◌∙◌, true, none, some, List, [], ◌∷◌, String, arith}
use aizim.Outcome.{ok, ◌>>=◌}
use aizim.Json.{JsonObject, get, get_text, get_object}
use aizim.Events.{
  EventType, EventEnvelope, EventRecord, Stamp, stamped, type_name, lease_released, lease_recovered,
}
use aizim.Projections.{ProjectionRecord, find_record, is_registered}
use aizim.Database.{Database}
use aizim.Store.{append_within, upsert, write_changes}
use aizim.Store.Lookups.{append_within-projections}
use aizim.Orchestration.{orchestration_projection}
use aizim.Reducers.{
  apply_event, entity_id, event_projection, event_state, next_record, projection_payload,
  lease_end_payload,
}
use aizim.Documents.{Formats, LeaseState, DocumentState, has_characters, require_some}
use aizim.Documents.Records.{lease_from_projection, stored_event}
use aizim.Documents.Accesses.{access-inv}
use aizim.Documents.Readings.{PosixLaws}
use aizim.Documents.Snapshots.{AccessDocument, access, find_lease}
use aizim.Documents.Operations.{execute_document_operation}
use aizim.Documents.Appends.{apply_terminate-Writes, mutation-append_within}
use aizim.Documents.Methods.{
  broker_event, termination, release_document_lease, recover_document_lease,
}
use aizim.Documents.Written.{find_record-written}
use aizim.Documents.Exclusive.{IsPassive, IsPassive-event}

ok-injective : {A : Type 0} {a b : A} → ok a ≡ ok b → a ≡ b
ok-injective h = ground arith

-- The ways in which a lease ends.
pub data Ending : Type 0 where
  released recovered : Ending

abbrev pub ending_type : Ending → EventType
ending_type released = lease_released
ending_type recovered = lease_recovered

abbrev pub ending_event : Ending → Stamp → String → JsonObject → EventEnvelope
ending_event t s run payload = stamped s (broker_event (ending_type t) (some run) none payload)

abbrev pub ending_record :
    Ending → Stamp → String → JsonObject → List ProjectionRecord → ProjectionRecord
ending_record t s run payload rs =
    next_record rs "leases" (entity_id (ending_event t s run payload))
      (event_state (ending_event t s run payload) (lease_end_payload rs payload))

ending-changes :
    (t : Ending) (s : Stamp) (run : String) (payload : JsonObject) (rs : List ProjectionRecord)
    → apply_event rs (ending_event t s run payload) ≡ ok (ending_record t s run payload rs ∷ [])
unfolding apply_event projection_payload event_projection orchestration_projection stamped
ending-changes released s run payload rs = refl
ending-changes recovered s run payload rs = refl

pub ending-table :
    (t : Ending) (s : Stamp) (run : String) (payload : JsonObject) (d d' : Database)
    (x : EventRecord)
    → append_within apply_event (ending_event t s run payload) d ≡ (ok x, d')
    → d'.projections ≡ upsert (ending_record t s run payload d.projections) d.projections
unfolding next_record is_registered write_changes
ending-table t s run payload d d' x h =
    let e = ending_event t s run payload in
    let (cs, reduced, written) = append_within-projections apply_event e d d' x h in
    let is_cs = ok-injective (sym reduced ∙ ending-changes t s run payload d.projections) in
    ok-injective (sym written ∙ ap (λ l. write_changes l d.projections) is_cs)

ending-entity :
    (t : Ending) (s : Stamp) (run lease reason : String)
    → has_characters lease ≡ true
    → entity_id (ending_event t s run (termination lease reason)) ≡ lease
unfolding entity_id stamped get_text get
ending-entity released s run lease reason h = ground arith
ending-entity recovered s run lease reason h = ground arith

module _ (formats : Formats) where
  pub release-appended :
      (s : Stamp) (run worker lease : String) (d d' : Database) (x : EventRecord)
      → release_document_lease formats apply_event s run worker lease d ≡ (ok x, d')
      → (y : EventRecord) × (append_within apply_event
            (ending_event released s run (termination lease "RELEASED"))
            d
          ≡ (ok y, d'))
  unfolding release_document_lease execute_document_operation
  release-appended s run worker lease d d' x h =
      mutation-append_within apply_event _ _ d d' x
        (λ rs. apply_terminate-Writes formats apply_event rs run (some worker) lease _) h

  pub recover_lease-appended :
      (s : Stamp) (lease : LeaseState) (d d' : Database) (x : EventRecord)
      → recover_document_lease formats apply_event s lease d ≡ (ok x, d')
      → (y : EventRecord) × (append_within apply_event
            (ending_event recovered s lease.run_id (termination lease.lease_id "BROKER_RECOVERY"))
            d
          ≡ (ok y, d'))
  unfolding recover_document_lease execute_document_operation
  recover_lease-appended s lease d d' x h =
      mutation-append_within apply_event _ _ d d' x
        (λ rs. apply_terminate-Writes formats apply_event rs lease.run_id none lease.lease_id _) h

module _ (formats : Formats) (laws : PosixLaws formats) where
  pub ending-IsPassive :
      (t : Ending) (s : Stamp) (run : String) (payload : JsonObject) (rs : List ProjectionRecord)
      → IsPassive formats (ending_record t s run payload rs)
  unfolding stored_event event_state next_record stamped get_text get_object get type_name
  ending-IsPassive released s run payload rs = IsPassive-event formats laws _ _ refl refl
  ending-IsPassive recovered s run payload rs = IsPassive-event formats laws _ _ refl refl

  -- No access by way of a lease that has ended.
  ended-access :
      (t : Ending) (s : Stamp) (run reason : String) (a : AccessDocument) (d d' : Database)
      (x : EventRecord) (document : DocumentState)
      → append_within apply_event (ending_event t s run (termination a.lease_id reason)) d
        ≡ (ok x, d')
      → has_characters a.lease_id ≡ true
      → access formats a d'.projections ≢ ok document
  unfolding find_lease next_record
  ended-access t s run reason a d d' x document h named granted =
      let payload = termination a.lease_id reason in
      let c = ending_record t s run payload d.projections in
      let has = access-inv formats a d'.projections document granted in
      let found =
        ap (find_record "leases" a.lease_id) (ending-table t s run payload d d' x h)
        ∙ find_record-written "leases" a.lease_id c d.projections refl
            (ending-entity t s run a.lease_id reason named) in
      let read =
        ap (λ o. require_some "LEASE_NOT_FOUND" o >>= lease_from_projection formats) (sym found)
        ∙ has.lease_found in
      (ending-IsPassive t s run payload d.projections).at has.lease refl read has.allowed.active

-- Once a lease has been released, no access by way of it succeeds on the database that is left.
pub release_document_lease-ends :
    (formats : Formats) (laws : PosixLaws formats) (s : Stamp) (run worker : String)
    (a : AccessDocument) (d d' : Database) (x : EventRecord) (document : DocumentState)
    → release_document_lease formats apply_event s run worker a.lease_id d ≡ (ok x, d')
    → has_characters a.lease_id ≡ true
    → access formats a d'.projections ≢ ok document
release_document_lease-ends formats laws s run worker a d d' x document h named granted =
    let (y, appended) = release-appended formats s run worker a.lease_id d d' x h in
    ended-access formats laws released s run "RELEASED" a d d' y document appended named granted
