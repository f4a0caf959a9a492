-- ===== src/Documents/Edits.antt =====
-- The cycle of an edit: it is prepared, then committed or recovered.
use mathlib.Core.Path.{subst}
use aizim.Prelude.{
  ℕ, ◌≡◌, refl, sym, ◌∙◌, Bool, true, false, ◌||◌, not, Option, none, some, List, String,
  same_text?-eq, arith, eq_iff,
}
use aizim.Outcome.{ok}
use aizim.Tx.Rules.{bind-inv, lift-inv, pure-inv, refuse_if-inv}
use aizim.Json.{put, field, end, string, integer, pos}
use aizim.Events.{EventEnvelope, EventRecord, Stamp, stamped}
use aizim.Projections.{ProjectionRecord}
use aizim.Database.{Database}
use aizim.Store.{Reducer, append_within}
use aizim.Reducers.{apply_event}
use aizim.Documents.{
  Formats, DocumentState, DocumentPreparation, validate_expected, lease_of_document,
  lease_state_payload, document_payload,
}
use aizim.Documents.Snapshots.{AccessDocument, access}
use aizim.Documents.Operations.{event_matches, apply_prepare, mutation, execute_document_operation}
use aizim.Documents.Appends.{apply_prepare-Writes, mutation-append_within, mutation-inv}
use aizim.Documents.Methods.{preparation_payload, prepare_document_edit}
use aizim.Documents.Accesses.{reading-inv}
use aizim.Documents.Written.{preparing, edit_event}

validate_expected-inv :
    (document : DocumentState) (version : ℕ) (hash : String) (u : Unit {0})
    → validate_expected document version hash ≡ ok u
    → (document.file_version ≡ version) × (document.content_hash ≡ hash)
unfolding validate_expected
validate_expected-inv document version hash u h = (
  ground (arith, eq_iff document.content_hash hash),
  ground (arith, eq_iff document.content_hash hash),
)

not_or : (a b : Bool) → (not a || b) ≡ false → a ≡ true
not_or true b h = refl
not_or false b h = ground arith

module _ (formats : Formats) where
  event_matches-run :
      (document : DocumentState) (e : EventEnvelope) (version : ℕ) (hash : Option String)
      (d d' : Database) (u : Unit {0})
      → event_matches formats document e version hash d ≡ (ok u, d')
      → e.run_id ≡ some document.run_id
  unfolding event_matches
  event_matches-run document e version hash d d' u h =
      let (candidate, t, p, q) = bind-inv _ _ h in
      let (same, passed) = refuse_if-inv _ _ t q in same_text?-eq _ _ (not_or _ _ passed)

  -- What a branch that prepares an edit has checked.
  apply_prepare-inv :
      (reducer : Reducer) (a : AccessDocument) (version : ℕ) (hash : String) (e : EventEnvelope)
      (rs : List ProjectionRecord) (d d' : Database) (p : DocumentPreparation)
      → apply_prepare formats reducer a version hash e rs d ≡ (ok p, d')
      → (access formats a rs ≡ ok p.document)
        × (p.preparation_id ≡ e.event_id)
        × (p.document.file_version ≡ version)
        × (p.document.content_hash ≡ hash)
        × (e.run_id ≡ some p.document.run_id)
  unfolding apply_prepare
  apply_prepare-inv reducer a version hash e rs d d' p h =
      let (document, t1, q1, h1) = bind-inv _ _ h in
      let (u2, t2, q2, h2) = bind-inv _ _ h1 in
      let (u3, t3, q3, h3) = bind-inv _ _ h2 in
      let (x, t4, q4, h4) = bind-inv _ _ h3 in
      let (same, made) = pure-inv _ t4 h4 in
      let expected = validate_expected-inv document version hash u2 (lift-inv _ t1 q2).1 in
      subst
        (λ (r : DocumentPreparation).
          (access formats a rs ≡ ok r.document)
          × (r.preparation_id ≡ e.event_id)
          × (r.document.file_version ≡ version)
          × (r.document.content_hash ≡ hash)
          × (e.run_id ≡ some r.document.run_id))
        (sym made)
        (
          (lift-inv _ d q1).1,
          refl,
          expected.0,
          expected.1,
          event_matches-run document e document.file_version (some document.content_hash) t2 t3 u3
              q3,
        )

ok-injective : {A : Type 0} {a b : A} → ok a ≡ ok b → a ≡ b
ok-injective h = ground arith

some-injective : {A : Type 0} {a b : A} → some a ≡ some b → a ≡ b
some-injective h = ground arith

-- What `prepare_document_edit` has found, checked and logged.
pub record IsPrepared (formats : Formats) (s : Stamp) (a : AccessDocument) (version : ℕ)
    (hash : String) (d d' : Database) (p : DocumentPreparation) : Type 0 where
  pub accessed : access formats a d.projections ≡ ok p.document
  pub named : p.preparation_id ≡ s.event_id
  pub version_matches : p.document.file_version ≡ version
  pub hash_matches : p.document.content_hash ≡ hash
  pub same_run : p.document.run_id ≡ a.run_id
  pub logged : EventRecord
  pub appended :
      append_within apply_event
        (edit_event formats s a.run_id none
          (lease_of_document p.document)
          (field "expected_version"
            (integer (pos version))
            (field "expected_hash" (string hash) end))
          preparing)
        d
      ≡ (ok logged, d')

-- The event that prepares an edit of a document.
abbrev preparing_event :
    Formats → Stamp → AccessDocument → ℕ → String → DocumentState → EventEnvelope
preparing_event formats s a version hash document =
    edit_event formats s a.run_id none (lease_of_document document)
      (field "expected_version" (integer (pos version)) (field "expected_hash" (string hash) end))
      preparing

preparing_event-inv :
    (formats : Formats) (s : Stamp) (a : AccessDocument) (version : ℕ) (hash : String)
    (document : DocumentState) (d d' : Database) (p : DocumentPreparation)
    → access formats a d.projections ≡ ok document
    → mutation
        (preparing_event formats s a version hash document)
        (apply_prepare formats apply_event a version hash
          (preparing_event formats s a version hash document))
        d
      ≡ (ok p, d')
    → IsPrepared formats s a version hash d d' p
unfolding stamped
preparing_event-inv formats s a version hash document d d' p found h =
    let e = preparing_event formats s a version hash document in
    let (u, ran) = mutation-inv _ _ d d' p h in
    let (again, named, version_ok, hash_ok, run_ok) =
      apply_prepare-inv formats apply_event a version hash e d.projections d u p ran in
    let (x, logged) =
      mutation-append_within apply_event e _ d d' p
        (λ rs. apply_prepare-Writes formats apply_event rs a version hash e) h in
    record {
      accessed = again;
      named = named;
      version_matches = version_ok;
      hash_matches = hash_ok;
      same_run = some-injective (sym run_ok);
      logged = x;
      appended =
          subst
            (λ (y : DocumentState).
              append_within apply_event (preparing_event formats s a version hash y) d ≡ (ok x, d'))
            (ok-injective (sym found ∙ again)) logged;
    }

pub prepare_document_edit-inv :
    (formats : Formats) (s : Stamp) (a : AccessDocument) (version : ℕ) (hash : String)
    (d d' : Database) (p : DocumentPreparation)
    → prepare_document_edit formats apply_event s a version hash d ≡ (ok p, d')
    → IsPrepared formats s a version hash d d' p
unfolding prepare_document_edit execute_document_operation preparation_payload document_payload
    lease_state_payload put
prepare_document_edit-inv formats s a version hash d d' p h =
    let (document, t, q, h1) = bind-inv _ _ h in
    let (same, found) = reading-inv formats (access formats a) d t document q in
    preparing_event-inv formats s a version hash document d d' p found (
      subst
        (λ z.
          mutation (preparing_event formats s a version hash document)
            (apply_prepare formats apply_event a version hash
              (preparing_event formats s a version hash document))
            z
          ≡ (ok p, d'))
        same h1)
