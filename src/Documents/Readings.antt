-- ===== src/Documents/Readings.antt =====
-- What was read as a lease or a document is written so that it reads back.
use mathlib.Core.Bool.{false≢true}
use mathlib.Core.Path.{subst}
use Prim.Native.String.{◌++◌ as append}
use aizim.Prelude.{
  ℕ, ◌≡◌, refl, sym, ap, ◌∙◌, Bool, true, false, not, Option, none, some, String, same_text,
  if◌then◌else◌, arith, eq_iff, Bool-cases, inl, inr,
}
use aizim.Outcome.{ok, bind-ok_inv}
use aizim.Json.{JsonObject, get, get_text, get_natural}
use aizim.Documents.{
  Formats, LeaseState, is_hash, has_characters, require_some, require_that, refused, ends_in_z,
  without_last, text_field, integer_field, hash_field, timestamp, parsed_timestamp, lease_fields,
}
use aizim.Documents.Records.{lease_of}

-- What Python documents of `as_posix`: a path is never empty, and its text is a path of that text.
pub record PosixLaws (formats : Formats) : Type 0 where
  pub same : (t : String) → formats.as_posix (formats.as_posix t) ≡ formats.as_posix t
  pub nonempty : (t : String) → has_characters (formats.as_posix t) ≡ true

-- A lease whose fields `lease_from_projection` accepts.
pub record IsReadable (formats : Formats) (lease : LeaseState) : Type 0 where
  pub lease_id : has_characters lease.lease_id ≡ true
  pub worker_id : has_characters lease.worker_id ≡ true
  pub document_id : has_characters lease.document_id ≡ true
  pub relative_path : has_characters lease.relative_path ≡ true
  pub path : formats.as_posix lease.relative_path ≡ lease.relative_path
  pub namespace : has_characters lease.virtual_document_namespace ≡ true
  pub base_epoch : is_hash lease.epoch_pair.base_epoch ≡ true
  pub content_hash : is_hash lease.content_hash ≡ true
  pub expires_at :
      parsed_timestamp formats (formats.canonical_timestamp lease.expires_at)
      ≡ some lease.expires_at

require_that-inv :
    (p : String → Bool) (reason : String) (o : Option String) (v : String)
    → require_that p reason o ≡ ok v
    → (o ≡ some v) × (p v ≡ true)
require_that-inv p reason none v h = ground arith
require_that-inv p reason (some a) v h = (ground arith, ground arith)

require_some-inv :
    {A : Type 0} (reason : String) (o : Option A) (v : A)
    → require_some reason o ≡ ok v
    → o ≡ some v
require_some-inv reason none v h = ground arith
require_some-inv reason (some a) v h = ground arith

ok-injective : {A : Type 0} {a b : A} → ok a ≡ ok b → a ≡ b
ok-injective h = ground arith

pub text_field-inv :
    (k : String) (payload : JsonObject) (v : String)
    → text_field k payload ≡ ok v
    → (get_text k payload ≡ some v) × (has_characters v ≡ true)
unfolding text_field
text_field-inv k payload v h = require_that-inv has_characters _ (get_text k payload) v h

hash-inv :
    (w v : String)
    → (if is_hash w then ok w else refused "INVALID_DOCUMENT_STATE") ≡ ok v
    → is_hash v ≡ true
hash-inv w v h = ground arith

hash_field-inv :
    (k : String) (payload : JsonObject) (v : String)
    → hash_field k payload ≡ ok v
    → is_hash v ≡ true
unfolding hash_field
hash_field-inv k payload v h =
    let (w, p, q) = bind-ok_inv (text_field k payload) _ v h in hash-inv w v q

is_hash-characters : (v : String) → is_hash v ≡ true → has_characters v ≡ true
unfolding is_hash
is_hash-characters v h = elim (Bool-cases (same_text v "")) [
  | inl p ↦ absurd (false≢true (ap is_hash (sym ((eq_iff v "").0 p)) ∙ h))
  | inr p ↦ ap not p
]

module _ (formats : Formats) where
  parsed_timestamp-text :
      (v : String) (t : ℕ) → parsed_timestamp formats v ≡ some t → formats.canonical_timestamp t ≡ v
  unfolding parsed_timestamp
  parsed_timestamp-text v t h =
      go (ends_in_z v) (formats.fromisoformat (append (without_last v) "+00:00")) h
    where
      go :
          (z : Bool) (o : Option ℕ)
          → (if z
              then elim o [
                | none ↦ none
                | some parsed ↦
                    if same_text (formats.canonical_timestamp parsed) v then some parsed else none
              ]
              else none)
            ≡ some t
          → formats.canonical_timestamp t ≡ v
      go false o h = ground arith
      go true none h = ground arith
      go true (some u) h = ground (arith, eq_iff (formats.canonical_timestamp u) v)

  parsed_timestamp-canonical :
      (v : String) (t : ℕ)
      → parsed_timestamp formats v ≡ some t
      → parsed_timestamp formats (formats.canonical_timestamp t) ≡ some t
  parsed_timestamp-canonical v t h = ap (parsed_timestamp formats) (parsed_timestamp-text v t h) ∙ h

  pub lease_of-fields :
      (event_type run : String) (lease : LeaseState) (others : JsonObject)
      → IsReadable formats lease
      → lease_of formats event_type run (lease_fields formats lease others)
        ≡ ok (record lease { run_id = run; active = same_text event_type "LeaseGranted" })
  unfolding lease_of text_field hash_field integer_field timestamp get_text get_natural get
  lease_of-fields event_type run lease others r = simp (
    r.lease_id,
    r.worker_id,
    r.document_id,
    r.relative_path,
    r.path,
    r.namespace,
    r.base_epoch,
    r.content_hash,
    r.expires_at,
    is_hash-characters lease.epoch_pair.base_epoch r.base_epoch,
    is_hash-characters lease.content_hash r.content_hash,
  )

  timestamp-inv :
      (k : String) (payload : JsonObject) (t : ℕ)
      → timestamp formats k payload ≡ ok t
      → parsed_timestamp formats (formats.canonical_timestamp t) ≡ some t
  unfolding timestamp
  timestamp-inv k payload t h = go (get_text k payload) h
    where
      go :
          (o : Option String)
          → elim o [
            | none ↦ refused "INVALID_DOCUMENT_STATE"
            | some value ↦ require_some "INVALID_DOCUMENT_STATE" (parsed_timestamp formats value)
          ]
            ≡ ok t
          → parsed_timestamp formats (formats.canonical_timestamp t) ≡ some t
      go none h = ground arith
      go (some v) h =
          parsed_timestamp-canonical v t (require_some-inv _ (parsed_timestamp formats v) t h)

  -- Every lease that is read is readable, and belongs to the run of its event.
  pub lease_of-inv :
      PosixLaws formats
      → (event_type run : String) (payload : JsonObject) (lease : LeaseState)
      → lease_of formats event_type run payload ≡ ok lease
      → IsReadable formats lease
        × (lease.run_id ≡ run)
        × (lease.active ≡ same_text event_type "LeaseGranted")
        × (get_text "lease_id" payload ≡ some lease.lease_id)
        × (get_text "document_id" payload ≡ some lease.document_id)
        × ((path : String) × (get_text "relative_path" payload ≡ some path)
            × (lease.relative_path ≡ formats.as_posix path))
  unfolding lease_of
  lease_of-inv laws event_type run payload lease h =
      let (lease_id, p1, h1) = bind-ok_inv (text_field "lease_id" payload) _ lease h in
      let (worker_id, p2, h2) = bind-ok_inv (text_field "worker_id" payload) _ lease h1 in
      let (document_id, p3, h3) = bind-ok_inv (text_field "document_id" payload) _ lease h2 in
      let (path, p4, h4) = bind-ok_inv (text_field "relative_path" payload) _ lease h3 in
      let (namespace, p5, h5) =
        bind-ok_inv (text_field "virtual_document_namespace" payload) _ lease h4 in
      let (base, p6, h6) = bind-ok_inv (hash_field "base_epoch" payload) _ lease h5 in
      let (knowledge, p7, h7) = bind-ok_inv (integer_field "knowledge_epoch" payload) _ lease h6 in
      let (version, p8, h8) = bind-ok_inv (integer_field "version" payload) _ lease h7 in
      let (hash, p9, h9) = bind-ok_inv (hash_field "content_hash" payload) _ lease h8 in
      let (expires, p10, h10) = bind-ok_inv (timestamp formats "expires_at" payload) _ lease h9 in
      subst
        (λ (l : LeaseState).
          IsReadable formats l
          × (l.run_id ≡ run)
          × (l.active ≡ same_text event_type "LeaseGranted")
          × (get_text "lease_id" payload ≡ some l.lease_id)
          × (get_text "document_id" payload ≡ some l.document_id)
          × ((text : String) × (get_text "relative_path" payload ≡ some text)
              × (l.relative_path ≡ formats.as_posix text)))
        (ok-injective h10)
        (
          record {
            lease_id = (text_field-inv _ payload lease_id p1).1;
            worker_id = (text_field-inv _ payload worker_id p2).1;
            document_id = (text_field-inv _ payload document_id p3).1;
            relative_path = laws.nonempty path;
            path = laws.same path;
            namespace = (text_field-inv _ payload namespace p5).1;
            base_epoch = hash_field-inv _ payload base p6;
            content_hash = hash_field-inv _ payload hash p9;
            expires_at = timestamp-inv _ payload expires p10;
          },
          refl,
          refl,
          (text_field-inv _ payload lease_id p1).0,
          (text_field-inv _ payload document_id p3).0,
          (path, (text_field-inv _ payload path p4).0, refl),
        )
