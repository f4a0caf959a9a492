-- ===== src/Documents/Grants.antt =====
-- The grant of a lease: what it requires, and what is found afterwards.
use aizim.Prelude.{
  ℕ, ◌≡◌, refl, Bool, true, false, not, none, some, List, String, same_text, is_some, leb, arith,
  Option,
}
use aizim.Outcome.{ok}
use aizim.Tx.Rules.{bind-inv, lift-inv}
use aizim.Events.{EventEnvelope, EventRecord, Stamp, stamped}
use aizim.Projections.{ProjectionRecord, find_record}
use aizim.Database.{Database}
use aizim.Store.{Reducer, append_within}
use aizim.Publication.Steps.{guard-inv}
use aizim.Reducers.{apply_event}
use aizim.Documents.{
  Formats, EpochPair, FileLease, LeaseState, parsed_timestamp, valid_lease, leased, same_epochs,
}
use aizim.Documents.Records.{document_of}
use aizim.Documents.Readings.{IsReadable, PosixLaws}
use aizim.Documents.Snapshots.{current_epoch, find_lease, find_document, leases_of}
use aizim.Documents.Operations.{any, validate_grant, apply_grant, execute_document_operation}
use aizim.Documents.Appends.{apply_grant-Writes, mutation-append_within, mutation-inv}
use aizim.Documents.Methods.{grant_document_lease}
use aizim.Documents.Written.{grant_event, grant-found}

leased-IsReadable :
    (formats : Formats) (laws : PosixLaws formats) (lease : FileLease) (path : String)
    → valid_lease lease ≡ true
    → parsed_timestamp formats (formats.canonical_timestamp lease.expires_at)
      ≡ some lease.expires_at
    → IsReadable formats (leased formats lease (formats.as_posix path))
unfolding valid_lease
leased-IsReadable formats laws lease path v t = record {
  lease_id = ground arith;
  worker_id = ground arith;
  document_id = ground arith;
  relative_path = laws.nonempty (formats.as_posix path);
  path = laws.same (formats.as_posix path);
  namespace = ground arith;
  base_epoch = ground arith;
  content_hash = ground arith;
  expires_at = t;
}

pub grant-appended :
    (formats : Formats) (reducer : Reducer) (s : Stamp) (lease : FileLease) (path : String)
    (d d' : Database) (x : EventRecord)
    → grant_document_lease formats reducer s lease path d ≡ (ok x, d')
    → (y : EventRecord) × (append_within reducer
          (grant_event formats s lease (formats.as_posix path))
          d
        ≡ (ok y, d'))
unfolding grant_document_lease execute_document_operation
grant-appended formats reducer s lease path d d' x h =
    mutation-append_within reducer _ _ d d' x
      (λ rs. apply_grant-Writes formats reducer rs lease (formats.as_posix path) _ _) h

-- A lease that has been granted is found with every field that was asked for, as an active lease, and
-- its document is found with the same fields and no edit in progress.
pub grant_document_lease-found :
    (formats : Formats) (laws : PosixLaws formats) (s : Stamp) (lease : FileLease) (path : String)
    (d d' : Database) (x : EventRecord)
    → valid_lease lease ≡ true
    → parsed_timestamp formats (formats.canonical_timestamp lease.expires_at)
      ≡ some lease.expires_at
    → grant_document_lease formats apply_event s lease path d ≡ (ok x, d')
    → (find_lease formats lease.lease_id d'.projections
        ≡ ok (leased formats lease (formats.as_posix path)))
      × (find_document formats lease.document_id d'.projections
          ≡ ok (
              document_of "LeaseGranted" s.event_id (leased formats lease (formats.as_posix path))))
grant_document_lease-found formats laws s lease path d d' x v t h =
    let (y, appended) = grant-appended formats apply_event s lease path d d' x h in
    grant-found formats s lease (formats.as_posix path) d d' y
      (leased-IsReadable formats laws lease path v t) appended

-- What the grant of a lease requires of the projections before it.
pub record MayGrant (formats : Formats) (lease : FileLease) (path : String) (now : ℕ)
    (rs : List ProjectionRecord) : Type 0 where
  pub epoch : EpochPair
  pub current : current_epoch rs ≡ ok epoch
  pub same_epoch : same_epochs lease.epoch_pair epoch ≡ true
  pub unexpired : leb lease.expires_at now ≡ false
  pub active : List LeaseState
  pub leases : leases_of formats rs ≡ ok active
  pub new_lease : any (λ item. same_text item.lease_id lease.lease_id) active ≡ false
  pub free_document : any (λ item. same_text item.document_id lease.document_id) active ≡ false
  pub free_path : any (λ item. same_text item.relative_path path) active ≡ false
  pub new_document : find_record "documents" lease.document_id rs ≡ none

not-not : (b : Bool) → not b ≡ false → b ≡ true
not-not true h = refl
not-not false h = ground arith

missing-none : {A : Type 0} (o : Option A) → is_some o ≡ false → o ≡ none
missing-none none h = refl
missing-none (some x) h = ground arith

validate_grant-inv :
    (formats : Formats) (lease : FileLease) (path : String) (now : ℕ) (e : EventEnvelope)
    (rs : List ProjectionRecord) (d d' : Database) (u : Unit {0})
    → validate_grant formats lease path now e rs d ≡ (ok u, d')
    → MayGrant formats lease path now rs
unfolding validate_grant
validate_grant-inv formats lease path now e rs d d' u h =
    let (p1, h1) = guard-inv _ _ _ h in
    let (epoch, t1, q, h2) = bind-inv _ _ h1 in
    let (p2, h3) = guard-inv _ _ _ h2 in
    let (p3, h4) = guard-inv _ _ _ h3 in
    let (p4, h5) = guard-inv _ _ _ h4 in
    let (active, t2, q', h6) = bind-inv _ _ h5 in
    let (p5, h7) = guard-inv _ _ _ h6 in
    let (p6, h8) = guard-inv _ _ _ h7 in
    let (p7, h9) = guard-inv _ _ _ h8 in
    let (p8, h10) = guard-inv _ _ _ h9 in
    record {
      epoch = epoch;
      current = (lift-inv (current_epoch rs) d q).1;
      same_epoch = not-not _ p2;
      unexpired = p3;
      active = active;
      leases = (lift-inv (leases_of formats rs) _ q').1;
      new_lease = p5;
      free_document = p6;
      free_path = p7;
      new_document = missing-none _ p8;
    }

-- A lease is granted only where it is unexpired and of the current epoch, and where no active lease
-- has its identifier, its document or its path and the document is new.
pub grant_document_lease-requires :
    (formats : Formats) (reducer : Reducer) (s : Stamp) (lease : FileLease) (path : String)
    (d d' : Database) (x : EventRecord)
    → grant_document_lease formats reducer s lease path d ≡ (ok x, d')
    → MayGrant formats lease (formats.as_posix path) s.now d.projections
unfolding grant_document_lease execute_document_operation apply_grant stamped
grant_document_lease-requires formats reducer s lease path d d' x h =
    let (t, ran) = mutation-inv _ _ d d' x h in
    let (u, s', checked, rest) = bind-inv _ _ ran in
    validate_grant-inv formats lease (formats.as_posix path) _
      (grant_event formats s lease (formats.as_posix path)) d.projections d s' u checked
