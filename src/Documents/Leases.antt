-- ===== src/Documents/Leases.antt =====
-- The exclusion of active leases, through any calls on documents.
use mathlib.Core.Path.{subst}
use aizim.Prelude.{◌≡◌, refl, sym, Option, none, List, [], ◌∷◌, String, arith}
use aizim.Outcome.{ok}
use aizim.Tx.Atomic.{atomic_moves}
use aizim.Json.{JsonObject}
use aizim.Events.{EventRecord, Stamp}
use aizim.Database.{Database}
use aizim.Store.{append_within}
use aizim.Reducers.{apply_event, next_record}
use aizim.Documents.{Formats, FileLease, LeaseState, lease_of_document}
use aizim.Documents.Readings.{PosixLaws}
use aizim.Documents.Methods.{
  termination, grant_document_lease, release_document_lease, recover_document_lease, DocumentCall,
  grant_call, prepare_call, commit_call, recover_edit_call, release_call, recover_lease_call,
  after_call, after_calls,
}
use aizim.Documents.Calls.{
  grant-IsAtomic, prepare-IsAtomic, commit-IsAtomic, recover_edit-IsAtomic, release-IsAtomic,
  recover_lease-IsAtomic,
}
use aizim.Documents.Written.{
  Edit, preparing, committing, recovering, edit_event, edit_record, edit-table, grant_record,
  grant-table,
}
use aizim.Documents.Edits.{prepare_document_edit-inv}
use aizim.Documents.Cycle.{replaced, commit-appended, recover-appended}
use aizim.Documents.Grants.{grant-appended, grant_document_lease-requires}
use aizim.Documents.Endings.{
  Ending, released, recovered, ending_event, ending-table, ending-IsPassive, release-appended,
  recover_lease-appended,
}
use aizim.Documents.Exclusive.{
  IsExclusive, IsExclusive-passive, IsPassive-documents, granted-IsExclusive,
}

ok-injective : {A : Type 0} {a b : A} → ok a ≡ ok b → a ≡ b
ok-injective h = ground arith

module _ (formats : Formats) (laws : PosixLaws formats) where
  abbrev Keeps : Database → Database → Type 0
  Keeps d d' = IsExclusive formats d.projections → IsExclusive formats d'.projections

  ending-Keeps :
      (t : Ending) (s : Stamp) (run : String) (payload : JsonObject) (d d' : Database)
      (x : EventRecord)
      → append_within apply_event (ending_event t s run payload) d ≡ (ok x, d')
      → Keeps d d'
  ending-Keeps t s run payload d d' x h e =
      subst (IsExclusive formats) (sym (ending-table t s run payload d d' x h)) (
        IsExclusive-passive formats _ d.projections
          (ending-IsPassive formats laws t s run payload d.projections) e)

  edit-Keeps :
      (t : Edit) (s : Stamp) (run : String) (cause : Option String) (lease : LeaseState)
      (others : JsonObject) (d d' : Database) (x : EventRecord)
      → append_within apply_event (edit_event formats s run cause lease others t) d ≡ (ok x, d')
      → Keeps d d'
  unfolding edit_record next_record
  edit-Keeps t s run cause lease others d d' x h e =
      subst (IsExclusive formats) (sym (edit-table formats s run cause lease others t d d' x h))
        (IsExclusive-passive formats _ d.projections (IsPassive-documents formats _ refl) e)

  grant-Keeps :
      (s : Stamp) (lease : FileLease) (path : String) (d d' : Database) (x : EventRecord)
      → grant_document_lease formats apply_event s lease path d ≡ (ok x, d')
      → Keeps d d'
  unfolding grant_record next_record
  grant-Keeps s lease path d d' x h e =
      let rs = d.projections in
      let (y, appended) = grant-appended formats apply_event s lease path d d' x h in
      let may = grant_document_lease-requires formats apply_event s lease path d d' x h in
      let granted = granted-IsExclusive formats laws s lease path _ rs may e in
      subst (IsExclusive formats)
        (sym (grant-table formats s lease (formats.as_posix path) d d' y appended))
        (IsExclusive-passive formats _ _ (IsPassive-documents formats _ refl) granted)

  release-Keeps :
      (s : Stamp) (run worker lease : String) (d d' : Database) (x : EventRecord)
      → release_document_lease formats apply_event s run worker lease d ≡ (ok x, d')
      → Keeps d d'
  release-Keeps s run worker lease d d' x h =
      let (y, appended) = release-appended formats s run worker lease d d' x h in
      ending-Keeps released s run (termination lease "RELEASED") d d' y appended

  recover-Keeps :
      (s : Stamp) (lease : LeaseState) (d d' : Database) (x : EventRecord)
      → recover_document_lease formats apply_event s lease d ≡ (ok x, d')
      → Keeps d d'
  recover-Keeps s lease d d' x h =
      let (y, appended) = recover_lease-appended formats s lease d d' x h in
      ending-Keeps recovered s lease.run_id (termination lease.lease_id "BROKER_RECOVERY") d d' y
        appended

  after_call-Keeps :
      (c : DocumentCall) (d : Database) → Keeps d (after_call formats apply_event c d)
  unfolding after_call
  after_call-Keeps (grant_call s lease path) =
      atomic_moves Keeps (λ d e. e) _ (grant-IsAtomic formats apply_event s lease path)
        (record { at = grant-Keeps s lease path })
  after_call-Keeps (prepare_call s a version hash) =
      atomic_moves Keeps (λ d e. e) _ (prepare-IsAtomic formats apply_event s a version hash)
        (record {
          at = λ d d' p h.
              let prepared = prepare_document_edit-inv formats s a version hash d d' p h in
              edit-Keeps preparing s a.run_id none (lease_of_document p.document) _ d d'
                prepared.logged prepared.appended;
        })
  after_call-Keeps (commit_call s now p hash) =
      atomic_moves Keeps (λ d e. e) _ (commit-IsAtomic formats apply_event s now p hash)
        (record {
          at = λ d d' x h.
              let (y, appended) = commit-appended formats s now p hash d d' x h in
              edit-Keeps committing s p.document.run_id _ (replaced p.document hash) _ d d' y
                appended;
        })
  after_call-Keeps (recover_edit_call s p) =
      atomic_moves Keeps (λ d e. e) _ (recover_edit-IsAtomic formats apply_event s p)
        (record {
          at = λ d d' x h.
              let (y, appended) = recover-appended formats s p d d' x h in
              edit-Keeps recovering s p.document.run_id _ (lease_of_document p.document) _ d d' y
                appended;
        })
  after_call-Keeps (release_call s run worker lease) =
      atomic_moves Keeps (λ d e. e) _ (release-IsAtomic formats apply_event s run worker lease)
        (record { at = release-Keeps s run worker lease })
  after_call-Keeps (recover_lease_call s lease) =
      atomic_moves Keeps (λ d e. e) _ (recover_lease-IsAtomic formats apply_event s lease)
        (record { at = recover-Keeps s lease })

-- Any calls on documents, answered or refused, keep the leases exclusive: where no two active leases
-- had one document or one path before, none have after.
pub after_calls-IsExclusive :
    (formats : Formats) (laws : PosixLaws formats) (cs : List DocumentCall) (d : Database)
    → IsExclusive formats d.projections
    → IsExclusive formats (after_calls formats apply_event cs d).projections
unfolding after_calls
after_calls-IsExclusive formats laws [] d e = e
after_calls-IsExclusive formats laws (c ∷ cs) d e =
    after_calls-IsExclusive formats laws cs (after_call formats apply_event c d)
      (after_call-Keeps formats laws c d e)
