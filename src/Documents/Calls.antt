-- ===== src/Documents/Calls.antt =====
-- How a call on documents moves the database: as the append of one event does, or not at all.
use aizim.Prelude.{refl, ℕ, none, some, List, String}
use aizim.Outcome.{Outcome}
use aizim.Tx.{Tx}
use aizim.Tx.Rules.{Moves, Moves-bind, Moves-gets, Moves-lift}
use aizim.Tx.Atomic.{IsAtomic, IsReading, atomic_rules, reading_rules, atomic_moves}
use aizim.Events.{EventEnvelope, Stamp, stamped, is_type, type_name}
use aizim.Projections.{ProjectionRecord}
use aizim.Database.{Database}
use aizim.Store.{Reducer, append_within}
use aizim.Publication.Logs.{IsRoutine}
use aizim.Documents.{Formats, FileLease, LeaseState, DocumentPreparation}
use aizim.Documents.Snapshots.{AccessDocument}
use aizim.Documents.Operations.{mutation, reading, execute_document_operation}
use aizim.Documents.Appends.{
  Writes, mutation-append_within, apply_grant-Writes, apply_prepare-Writes, apply_commit-Writes,
  apply_recover-Writes, apply_terminate-Writes,
}
use aizim.Documents.Methods.{
  grant_document_lease, prepare_document_edit, commit_document_edit, recover_document_edit,
  release_document_lease, recover_document_lease, DocumentCall, grant_call, prepare_call,
  commit_call, recover_edit_call, release_call, recover_lease_call, after_call,
}

pub IsReading-reading :
    {A : Type 0} (query : List ProjectionRecord → Outcome A) → IsReading (reading query)
unfolding reading
IsReading-reading query = search reading_rules

module _ (formats : Formats) (reducer : Reducer) where
  pub grant-IsAtomic :
      (s : Stamp) (lease : FileLease) (path : String)
      → IsAtomic (grant_document_lease formats reducer s lease path)
  unfolding grant_document_lease execute_document_operation mutation
  grant-IsAtomic s lease path = search atomic_rules

  pub prepare-IsAtomic :
      (s : Stamp) (a : AccessDocument) (version : ℕ) (hash : String)
      → IsAtomic (prepare_document_edit formats reducer s a version hash)
  unfolding prepare_document_edit execute_document_operation mutation
  prepare-IsAtomic s a version hash = search (atomic_rules, IsReading-reading)

  pub commit-IsAtomic :
      (s : Stamp) (now : ℕ) (preparation : DocumentPreparation) (hash : String)
      → IsAtomic (commit_document_edit formats reducer s now preparation hash)
  unfolding commit_document_edit execute_document_operation mutation
  commit-IsAtomic s now preparation hash = search atomic_rules

  pub recover_edit-IsAtomic :
      (s : Stamp) (preparation : DocumentPreparation)
      → IsAtomic (recover_document_edit formats reducer s preparation)
  unfolding recover_document_edit execute_document_operation mutation
  recover_edit-IsAtomic s preparation = search atomic_rules

  pub release-IsAtomic :
      (s : Stamp) (run worker lease : String)
      → IsAtomic (release_document_lease formats reducer s run worker lease)
  unfolding release_document_lease execute_document_operation mutation
  release-IsAtomic s run worker lease = search atomic_rules

  pub recover_lease-IsAtomic :
      (s : Stamp) (lease : LeaseState) → IsAtomic (recover_document_lease formats reducer s lease)
  unfolding recover_document_lease execute_document_operation mutation
  recover_lease-IsAtomic s lease = search atomic_rules

  module _ (R : Database → Database → Type 0) (same : (d : Database) → R d d)
      (chain : (s t u : Database) → R s t → R t u → R s u)
      (appends : (e : EventEnvelope)
        → IsRoutine e.event_type
        → Moves R (append_within reducer e)) where
    mutation-Moves :
        {A : Type 0} (e : EventEnvelope) (branch : List ProjectionRecord → Tx Database A)
        → IsRoutine e.event_type
        → ((snapshots : List ProjectionRecord) → Writes reducer e snapshots (branch snapshots))
        → Moves R (mutation e branch)
    mutation-Moves e branch r w = record {
      at = λ d d' a h.
          let (x, done) = mutation-append_within reducer e branch d d' a w h in
          (appends e r).at d d' x done;
    }

    reading-Moves :
        {A : Type 0} (query : List ProjectionRecord → Outcome A) → Moves R (reading query)
    unfolding reading
    reading-Moves query =
        Moves-bind chain _ _ (Moves-gets same _) (λ snapshots. Moves-lift same (query snapshots))

    -- A relation that the append of a routine event keeps is kept by every call.
    pub after_call-moves : (c : DocumentCall) (d : Database) → R d (after_call formats reducer c d)
    unfolding after_call grant_document_lease prepare_document_edit commit_document_edit
        recover_document_edit release_document_lease recover_document_lease
        execute_document_operation stamped is_type type_name
    after_call-moves (grant_call s lease path) =
        atomic_moves R same _ (grant-IsAtomic s lease path) (
          mutation-Moves _ _ (record { plain = refl; unapproving = refl })
            (λ snapshots. apply_grant-Writes formats reducer snapshots lease _ _ _))
    after_call-moves (prepare_call s a version hash) =
        atomic_moves R same _ (prepare-IsAtomic s a version hash) (
          Moves-bind chain _ _ (reading-Moves _) (λ document.
            mutation-Moves _ _ (record { plain = refl; unapproving = refl })
              (λ snapshots. apply_prepare-Writes formats reducer snapshots a version hash _)))
    after_call-moves (commit_call s now preparation hash) =
        atomic_moves R same _ (commit-IsAtomic s now preparation hash) (
          mutation-Moves _ _ (record { plain = refl; unapproving = refl })
            (λ snapshots. apply_commit-Writes formats reducer snapshots _ now _))
    after_call-moves (recover_edit_call s preparation) =
        atomic_moves R same _ (recover_edit-IsAtomic s preparation) (
          mutation-Moves _ _ (record { plain = refl; unapproving = refl })
            (λ snapshots. apply_recover-Writes formats reducer snapshots _ _))
    after_call-moves (release_call s run worker lease) =
        atomic_moves R same _ (release-IsAtomic s run worker lease) (
          mutation-Moves _ _ (record { plain = refl; unapproving = refl })
            (λ snapshots.
              apply_terminate-Writes formats reducer snapshots run (some worker) lease _))
    after_call-moves (recover_lease_call s lease) =
        atomic_moves R same _ (recover_lease-IsAtomic s lease) (
          mutation-Moves _ _ (record { plain = refl; unapproving = refl })
            (λ snapshots.
              apply_terminate-Writes formats reducer snapshots lease.run_id none lease.lease_id _))
