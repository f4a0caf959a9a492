-- ===== src/Store.antt =====
-- The event store (state/store.py, state/store_mutations.py) over any reducer.
pub mod Leases
pub mod Lookups
pub mod Replay
pub mod Minted
mod Tests
use aizim.Prelude.{
  ℕ, ◌+◌, Bool, true, false, ◌&&◌, ◌||◌, not, Option, none, some, List, [], ◌∷◌, ◌++◌, String,
  same_text, same_text?, is_some, if◌then◌else◌,
}
use aizim.Outcome.{
  Failure, Outcome, ok, raised, integrity_error, duplicate_event_error, projection_authority_error,
}
use aizim.Tx.{Tx, pure, raise, lift, gets, transaction, rename_failure, refuse_if, ◌>>=◌, ◌>>◌}
use aizim.Events.{EventEnvelope, EventRecord}
use aizim.Projections.{ProjectionRecord, is_registered, at_key, row_before}
use aizim.Database.{Database, CapabilityRecord, initial}
use aizim.Tokens.{insert_capability, revoke_lease_capabilities}
use aizim.Artifacts.{register_artifact}

abbrev pub Reducer : Type 0
Reducer = List ProjectionRecord → EventEnvelope → Outcome (List ProjectionRecord)

-- `UNIQUE` on `events.event_id`
unfoldable pub has_event : String → List EventRecord → Bool
has_event k [] = false
has_event k (r ∷ rs) = same_text r.envelope.event_id k || has_event k rs

-- `INSERT INTO events`, and the sequence that it allocates
unfoldable pub insert_event : EventEnvelope → Tx Database ℕ
insert_event e d =
    if has_event e.event_id d.events then (raised (integrity_error "events.event_id"), d) else (
      ok (d.event_sequence + 1),
      record d {
        events = d.events ++ record { sequence = d.event_sequence + 1; envelope = e } ∷ [];
        event_sequence = d.event_sequence + 1;
      },
    )

-- `INSERT INTO projections ... ON CONFLICT DO UPDATE`: a row of a new key takes its place in the order
-- of the keys, in which every query reads the table.
unfoldable pub upsert : ProjectionRecord → List ProjectionRecord → List ProjectionRecord
unfolding row_before
upsert c [] = c ∷ []
upsert c (r ∷ rs) =
    let rest = upsert c rs in
    if at_key c.projection_name c.entity_id r
    then c ∷ rs
    else if row_before c r
    then c ∷ r ∷ rs
    else r ∷ rest

-- The loop over the changes of the reducer, on the table of projections.
unfoldable pub write_changes :
    List ProjectionRecord → List ProjectionRecord → Outcome (List ProjectionRecord)
unfolding upsert
write_changes [] rs = ok rs
write_changes (c ∷ cs) rs =
    if is_registered c.projection_name
    then write_changes cs (upsert c rs)
    else raised (projection_authority_error c.projection_name "name is not registered")

unfoldable pub save_projections : Outcome (List ProjectionRecord) → Tx Database (Unit {0})
save_projections (ok rs) d = (ok tt, record d { projections = rs })
save_projections (raised e) d = (raised e, d)

-- `apply_event_mutation`. The writes to the table come back in one piece: where one of them is
-- refused the transaction around it undoes the others.
unfoldable pub apply_event_mutation :
    Reducer → EventEnvelope → List ProjectionRecord → Tx Database EventRecord
unfolding insert_event save_projections
apply_event_mutation reducer event snapshots = do
  sequence ← insert_event event
  changes ← lift (reducer snapshots event)
  current ← gets (λ d. d.projections)
  save_projections (write_changes changes current)
  pure (record { sequence = sequence; envelope = event })

-- `except sqlite3.IntegrityError` around the transactions of the store
abbrev as_store_failure : String → String → Failure → Failure
as_store_failure event_id table (integrity_error constraint) =
    if same_text constraint "events.event_id"
    then duplicate_event_error event_id
    else projection_authority_error table "database constraint rejected mutation"
as_store_failure event_id table e = e

-- `_append` of state/store.py
unfoldable pub append : Reducer → EventEnvelope → Tx Database EventRecord
append reducer event = rename_failure (as_store_failure event.event_id "unknown") (
    transaction (do
      snapshots ← gets (λ d. d.projections)
      appended ← apply_event_mutation reducer event snapshots
      register_artifact event
      revoke_lease_capabilities event
      pure appended))

-- `_append` of state/store_publication.py: in a transaction that is open, with no registration of
-- artifacts
unfoldable pub append_within : Reducer → EventEnvelope → Tx Database EventRecord
append_within reducer event = do
  snapshots ← gets (λ d. d.projections)
  appended ← apply_event_mutation reducer event snapshots
  revoke_lease_capabilities event
  pure appended

-- `persist_capability` of the store
unfoldable pub persist_capability :
    Reducer → CapabilityRecord → EventEnvelope → Tx Database EventRecord
persist_capability reducer capability event =
    rename_failure (as_store_failure event.event_id "capability_tokens") (
      transaction (do
        insert_capability capability
        snapshots ← gets (λ d. d.projections)
        apply_event_mutation reducer event snapshots))

-- The loop of `replay_verify`: every envelope is appended to a database of its own.
unfoldable pub replay : Reducer → List EventRecord → Tx Database (Unit {0})
replay reducer [] d = (ok tt, d)
replay reducer (r ∷ rs) d = (append reducer r.envelope >> replay reducer rs) d

-- The projections that `replay_verify` compares with those of the store: those of a new database to
-- which every envelope of the log has been appended.
unfoldable pub replayed_projections : Reducer → Database → Outcome (List ProjectionRecord)
unfolding replay
replayed_projections reducer d = ((replay reducer d.events >> gets (λ r. r.projections)) initial).0
