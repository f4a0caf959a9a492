-- ===== src/Documents/Accesses.antt =====
-- What an access to a document has found and required.
use mathlib.Core.Path.{subst}
use aizim.Prelude.{
  ◌≡◌, refl, sym, ap, ◌∙◌, Bool, true, false, not, Option, none, some, List, String, is_some, leb,
  arith, eq_iff,
}
use aizim.Outcome.{Failure, Outcome, ok, raise_if, bind-ok_inv}
use aizim.Tx.Rules.{bind-inv, gets-inv, lift-inv}
use aizim.Json.{as_object, get_text}
use aizim.Projections.{ProjectionRecord, find_record}
use aizim.Database.{Database}
use aizim.Documents.{
  Formats, EpochPair, LeaseState, DocumentState, same_epochs, require_some, validate_access,
  lease_of_document,
}
use aizim.Documents.Records.{stored_event, document_from_projection, document_of, lease_of}
use aizim.Documents.Readings.{IsReadable, PosixLaws, lease_of-inv}
use aizim.Documents.Snapshots.{AccessDocument, access, current_epoch, find_lease, find_document}
use aizim.Documents.Operations.{reading}

raise_if-inv : {u : Unit {0}} (b : Bool) (e : Failure) → raise_if b e ≡ ok u → b ≡ false
raise_if-inv true e h = ground arith
raise_if-inv false e h = refl

not-not : (b : Bool) → not b ≡ false → b ≡ true
not-not true h = refl
not-not false h = ground arith

-- What `validate_access` requires.
pub record MayAccess (a : AccessDocument) (epoch : EpochPair) (lease : LeaseState) : Type 0 where
  pub active : lease.active ≡ true
  pub run : lease.run_id ≡ a.run_id
  pub owner : lease.worker_id ≡ a.worker_id
  pub document : lease.document_id ≡ a.document_id
  pub unexpired : leb lease.expires_at a.now ≡ false
  pub epochs : same_epochs lease.epoch_pair epoch ≡ true

pub validate_access-inv :
    (a : AccessDocument) (epoch : EpochPair) (lease : LeaseState) (u : Unit {0})
    → validate_access lease a.run_id a.worker_id a.document_id a.now epoch ≡ ok u
    → MayAccess a epoch lease
unfolding validate_access
validate_access-inv a epoch lease u h =
    let (u1, p1, h1) = bind-ok_inv (raise_if _ _) _ u h in
    let (u2, p2, h2) = bind-ok_inv (raise_if _ _) _ u h1 in
    let (u3, p3, h3) = bind-ok_inv (raise_if _ _) _ u h2 in
    let (u4, p4, h4) = bind-ok_inv (raise_if _ _) _ u h3 in
    let (u5, p5, h5) = bind-ok_inv (raise_if _ _) _ u h4 in
    record {
      active = not-not _ (raise_if-inv _ _ p1);
      run = (eq_iff _ _).0 (not-not _ (raise_if-inv _ _ p2));
      owner = (eq_iff _ _).0 (not-not _ (raise_if-inv _ _ p3));
      document = (eq_iff _ _).0 (not-not _ (raise_if-inv _ _ p4));
      unexpired = raise_if-inv _ _ p5;
      epochs = not-not _ (raise_if-inv _ _ h5);
    }

require_some-inv :
    {A : Type 0} (reason : String) (o : Option A) (v : A)
    → require_some reason o ≡ ok v
    → o ≡ some v
require_some-inv reason none v h = ground arith
require_some-inv reason (some a) v h = ground arith

ok-injective : {A : Type 0} {a b : A} → ok a ≡ ok b → a ≡ b
ok-injective h = ground arith

-- The lease that a document's fields are those of.
pub IsReadable-document :
    (formats : Formats) (event_type event_id : String) (lease : LeaseState)
    → IsReadable formats lease
    → IsReadable formats (lease_of_document (document_of event_type event_id lease))
IsReadable-document formats event_type event_id lease r = record {
  lease_id = r.lease_id;
  worker_id = r.worker_id;
  document_id = r.document_id;
  relative_path = r.relative_path;
  path = r.path;
  namespace = r.namespace;
  base_epoch = r.base_epoch;
  content_hash = r.content_hash;
  expires_at = r.expires_at;
}

module _ (formats : Formats) (laws : PosixLaws formats) where
  -- A document that was read is readable.
  pub document_from_projection-IsReadable :
      (r : ProjectionRecord) (document : DocumentState)
      → document_from_projection formats r ≡ ok document
      → IsReadable formats (lease_of_document document)
  unfolding document_from_projection
  document_from_projection-IsReadable r document h =
      let (stored, p1, h1) = bind-ok_inv (stored_event r) _ document h in
      let (run, p2, h2) = bind-ok_inv (require_some _ stored.run_id) _ document h1 in
      let (raw, p3, h3) = bind-ok_inv (require_some _ (as_object r.state_json)) _ document h2 in
      let (event_id, p4, h4) =
        bind-ok_inv (require_some _ (get_text "event_id" raw)) _ document h3 in
      let (lease, p5, h5) =
        bind-ok_inv (lease_of formats stored.event_type run stored.payload) _ document h4 in
      let readable = (lease_of-inv formats laws stored.event_type run stored.payload lease p5).0 in
      subst (λ (x : DocumentState). IsReadable formats (lease_of_document x)) (ok-injective h5)
        (IsReadable-document formats stored.event_type event_id lease readable)

  pub find_document-IsReadable :
      (id : String) (rs : List ProjectionRecord) (document : DocumentState)
      → find_document formats id rs ≡ ok document
      → IsReadable formats (lease_of_document document)
  unfolding find_document
  find_document-IsReadable id rs document h =
      let (r, p, q) =
        bind-ok_inv (require_some "DOCUMENT_NOT_FOUND" (find_record "documents" id rs)) _ document
          h in
      document_from_projection-IsReadable r document q

module _ (formats : Formats) where
  -- What `_access` has found.
  pub record HasAccess (a : AccessDocument) (rs : List ProjectionRecord) (document : DocumentState)
      : Type 0 where
    pub lease : LeaseState
    pub epoch : EpochPair
    pub lease_found : find_lease formats a.lease_id rs ≡ ok lease
    pub epoch_found : current_epoch rs ≡ ok epoch
    pub allowed : MayAccess a epoch lease
    pub document_found : find_document formats a.document_id rs ≡ ok document
    pub unprepared : document.prepared_event_id ≡ none
    pub same_lease : document.lease_id ≡ lease.lease_id

  unprepared-none : (o : Option String) → is_some o ≡ false → o ≡ none
  unprepared-none none h = refl
  unprepared-none (some x) h = ground arith

  pub access-inv :
      (a : AccessDocument) (rs : List ProjectionRecord) (document : DocumentState)
      → access formats a rs ≡ ok document
      → HasAccess a rs document
  unfolding access
  access-inv a rs document h =
      let (lease, p1, h1) = bind-ok_inv (find_lease formats a.lease_id rs) _ document h in
      let (epoch, p2, h2) = bind-ok_inv (current_epoch rs) _ document h1 in
      let (u, p3, h3) =
        bind-ok_inv (validate_access lease a.run_id a.worker_id a.document_id a.now epoch) _
          document h2 in
      let (found, p4, h4) = bind-ok_inv (find_document formats a.document_id rs) _ document h3 in
      let (u', p5, h5) = bind-ok_inv (raise_if _ _) _ document h4 in
      let (u'', p6, h6) = bind-ok_inv (raise_if _ _) _ document h5 in
      let same = ok-injective h6 in
      record {
        lease = lease;
        epoch = epoch;
        lease_found = p1;
        epoch_found = p2;
        allowed = validate_access-inv a epoch lease u p3;
        document_found = p4 ∙ ap ok same;
        unprepared =
            ap (λ (x : DocumentState). x.prepared_event_id) (sym same)
            ∙ unprepared-none found.prepared_event_id (raise_if-inv _ _ p5);
        same_lease =
            ap (λ (x : DocumentState). x.lease_id) (sym same)
            ∙ (eq_iff found.lease_id lease.lease_id).0 (not-not _ (raise_if-inv _ _ p6));
      }

  pub reading-inv :
      {A : Type 0} (query : List ProjectionRecord → Outcome A) (d d' : Database) (a : A)
      → reading query d ≡ (ok a, d')
      → (d' ≡ d) × (query d.projections ≡ ok a)
  unfolding reading
  reading-inv query d d' a h =
      let (snapshots, t, p, q) = bind-inv _ _ h in
      let (same, is_read) = gets-inv (λ (s : Database). s.projections) d p in
      let (same', result) = lift-inv (query snapshots) t q in
      (same' ∙ same, ap query (sym is_read) ∙ result)
