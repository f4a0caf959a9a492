-- ===== src/Documents/Tests/Runs.antt =====
-- The theorems on documents and leases at a run of their calls.
use mathlib.Core.Bool.{false≢true}
use mathlib.Core.List.{Memᴰ}
use aizim.Prelude.{◌≡◌, ◌≢◌, refl, sym, ap, ◌∙◌, List, [], ◌∷◌, eq_iff}
use aizim.Outcome.{ok}
use aizim.Projections.{ProjectionRecord}
use aizim.Reducers.{apply_event}
use aizim.Documents.{leased}
use aizim.Documents.Snapshots.{access, find_document, find_lease}
use aizim.Documents.Methods.{
  DocumentCall, grant_call, release_call, after_calls, prepare_document_edit,
}
use aizim.Documents.Accesses.{HasAccess}
use aizim.Documents.Grants.{MayGrant, grant_document_lease-found, grant_document_lease-requires}
use aizim.Documents.Endings.{release_document_lease-ends}
use aizim.Documents.Exclusive.{IsExclusive}
use aizim.Documents.Leases.{after_calls-IsExclusive}
use aizim.Documents.Updates.{
  prepare_document_edit-requires, prepare_document_edit-blocks, commit_document_edit-advances,
  commit_document_edit-excludes, recover_document_edit-restores,
}
use aizim.Documents.Tests.{
  formats, laws, stamp, hash, other_hash, lease, holder, document, preparation, new_database,
  granted_database, granted_record, granted, prepared_database, prepared, committed_database,
  committed_record, committed, recovered_database, recovered_record, recovered, released_database,
  released_record, released, valid, other_valid, time_read,
}

new-IsExclusive : IsExclusive formats new_database.projections
new-IsExclusive = record { at = λ j k x y a b clash. absurd (no_lease a.row a.stored a.named) }
  where
    no_lease :
        (r : ProjectionRecord) → Memᴰ r new_database.projections → r.projection_name ≡ "leases" → ⊥
    no_lease r (Memᴰ.head e) n = false≢true (
        (eq_iff "epochs" "leases").1 (sym (ap (λ (x : ProjectionRecord). x.projection_name) e) ∙ n))
    no_lease r (Memᴰ.tail m) n = elim m [ ]

abbrev calls : List DocumentCall
calls =
    grant_call (stamp "01") lease "A.lean"
    ∷ grant_call (stamp "02") (record lease { lease_id = "second" }) "A.lean"
    ∷ release_call (stamp "03") "run" "worker" "lease"
    ∷ []

after_calls-IsExclusive_example :
    IsExclusive formats (after_calls formats apply_event calls new_database).projections
after_calls-IsExclusive_example =
    after_calls-IsExclusive formats laws calls new_database new-IsExclusive

grant_document_lease-found_example :
    (find_lease formats "lease" granted_database.projections ≡ ok (leased formats lease "A.lean"))
    × (find_document formats "document" granted_database.projections ≡ ok document)
grant_document_lease-found_example =
    grant_document_lease-found formats laws (stamp "01") lease "A.lean" new_database
      granted_database granted_record valid time_read granted

grant_document_lease-requires_example :
    MayGrant formats lease "A.lean" 1000000 new_database.projections
grant_document_lease-requires_example =
    grant_document_lease-requires formats apply_event (stamp "01") lease "A.lean" new_database
      granted_database granted_record granted

prepare_document_edit-requires_example :
    HasAccess formats holder granted_database.projections document
    × (document.file_version ≡ 0)
    × (document.content_hash ≡ hash)
prepare_document_edit-requires_example =
    prepare_document_edit-requires formats (stamp "02") holder 0 hash granted_database
      prepared_database preparation prepared

prepare_document_edit-blocks_example :
    access formats holder prepared_database.projections ≢ ok document
prepare_document_edit-blocks_example =
    prepare_document_edit-blocks formats laws (stamp "02") holder holder 0 hash granted_database
      prepared_database preparation document prepared refl

commit_document_edit-advances_example :
    find_document formats "document" committed_database.projections
    ≡ ok (record document { file_version = 1; content_hash = other_hash })
commit_document_edit-advances_example =
    commit_document_edit-advances formats laws (stamp "02") (stamp "03") holder 0 2000000 hash
      other_hash granted_database prepared_database prepared_database committed_database preparation
      committed_record prepared other_valid committed

commit_document_edit-excludes_example :
    prepare_document_edit formats apply_event (stamp "05") holder 0 hash committed_database
    ≢ (ok preparation, committed_database)
commit_document_edit-excludes_example =
    commit_document_edit-excludes formats laws (stamp "02") (stamp "03") (stamp "05") holder holder
      0 2000000 hash hash other_hash granted_database prepared_database prepared_database
      committed_database committed_database preparation preparation committed_record prepared
      other_valid committed refl

recover_document_edit-restores_example :
    (find_document formats "document" granted_database.projections ≡ ok document)
    × (find_document formats "document" recovered_database.projections ≡ ok document)
recover_document_edit-restores_example =
    recover_document_edit-restores formats laws (stamp "02") (stamp "03") holder 0 hash
      granted_database prepared_database prepared_database recovered_database preparation
      recovered_record prepared recovered

release_document_lease-ends_example :
    access formats holder released_database.projections ≢ ok document
release_document_lease-ends_example =
    release_document_lease-ends formats laws (stamp "04") "run" "worker" holder committed_database
      released_database released_record document released refl
