-- ===== src/Artifacts.antt =====
-- The registration of artifacts (state/store_mutations.py, `register_artifact`). `INSERT OR IGNORE`
-- leaves a row out that breaks a uniqueness rule or the check on its length.
use aizim.Prelude.{
  Bool, true, false, ◌&&◌, ◌||◌, Option, none, some, List, [], ◌∷◌, ◌++◌, String, same_text,
  if◌then◌else◌,
}
use aizim.Outcome.{Failure, Outcome, ok, raised, projection_authority_error, ◌>>=◌}
use aizim.Tx.{Tx}
use aizim.Json.{ℤ, pos, negsuc, get_text, get_integer, integer_eq}
use aizim.Events.{EventType, EventEnvelope, artifact_registered}
use aizim.Database.{Database, Artifact, ArtifactAssociation}

-- `CHECK (byte_length >= 0)`
abbrev is_negative : ℤ → Bool
is_negative (pos n) = false
is_negative (negsuc n) = true

-- `SELECT ... FROM artifacts WHERE content_hash=?`
find_artifact : String → List Artifact → Option Artifact
find_artifact k [] = none
find_artifact k (a ∷ l) = if same_text a.content_hash k then some a else find_artifact k l

artifact_clash : Artifact → List Artifact → Bool
artifact_clash x [] = false
artifact_clash x (a ∷ l) =
    same_text a.content_hash x.content_hash
    || same_text a.relative_path x.relative_path
    || artifact_clash x l

insert_artifact : Artifact → List Artifact → List Artifact
unfolding artifact_clash
insert_artifact x l = if is_negative x.byte_length || artifact_clash x l then l else l ++ x ∷ []

-- `row != (media_type, byte_length)`, negated; no row differs from every pair
same_content : Artifact → Option Artifact → Bool
same_content x none = false
same_content x (some a) =
    same_text a.media_type x.media_type && integer_eq a.byte_length x.byte_length

find_association : String → String → List ArtifactAssociation → Option ArtifactAssociation
find_association run path [] = none
find_association run path (a ∷ l) =
    if same_text a.run_id run && same_text a.relative_path path
    then some a
    else find_association run path l

association_clash : ArtifactAssociation → List ArtifactAssociation → Bool
association_clash x [] = false
association_clash x (a ∷ l) =
    same_text a.run_id x.run_id
      && (same_text a.relative_path x.relative_path || same_text a.artifact_name x.artifact_name)
    || association_clash x l

insert_association : ArtifactAssociation → List ArtifactAssociation → List ArtifactAssociation
unfolding association_clash
insert_association x l =
    if is_negative x.byte_length || association_clash x l then l else l ++ x ∷ []

-- `stored != association`, negated
same_association : ArtifactAssociation → Option ArtifactAssociation → Bool
same_association x none = false
same_association x (some a) =
    same_text a.run_id x.run_id
    && same_text a.artifact_name x.artifact_name
    && same_text a.relative_path x.relative_path
    && same_text a.content_hash x.content_hash
    && same_text a.media_type x.media_type
    && integer_eq a.byte_length x.byte_length

-- `_artifact_text` and `_artifact_integer`
abbrev complete {ℓ} : {A : Type ℓ} → Option A → Outcome A
complete none =
    raised (projection_authority_error "artifacts" "artifact registration is incomplete")
complete (some a) = ok a

-- The row of an event, where its payload is complete.
association_of : EventEnvelope → Outcome ArtifactAssociation
association_of event = do
  run ← complete event.run_id
  name ← complete (get_text "artifact_name" event.payload)
  hash ← complete (get_text "content_hash" event.payload)
  path ← complete (get_text "relative_path" event.payload)
  media ← complete (get_text "media_type" event.payload)
  bytes ← complete (get_integer "byte_length" event.payload)
  ok (record {
    run_id = run;
    artifact_name = name;
    relative_path = path;
    content_hash = hash;
    media_type = media;
    byte_length = bytes;
  })

artifact_of : ArtifactAssociation → Artifact
artifact_of x = record {
  content_hash = x.content_hash;
  run_id = x.run_id;
  relative_path = x.relative_path;
  media_type = x.media_type;
  byte_length = x.byte_length;
}

abbrev conflict : String → Failure
conflict reason = projection_authority_error "artifacts" reason

-- The two inserts, each followed by the comparison with the stored row.
store_association : ArtifactAssociation → Tx Database (Unit {0})
unfolding insert_artifact find_artifact same_content insert_association find_association
    same_association artifact_of
store_association x d =
    let artifacts = insert_artifact (artifact_of x) d.artifacts in
    let associations = insert_association x d.artifact_associations in
    if same_content (artifact_of x) (find_artifact x.content_hash artifacts)
    then (if same_association x (find_association x.run_id x.relative_path associations)
        then (ok tt, record d { artifacts = artifacts; artifact_associations = associations })
        else (raised (conflict "run artifact registration conflicts"), d))
    else (raised (conflict "artifact registration conflicts with stored hash"), d)

abbrev store_if_complete : Outcome ArtifactAssociation → Tx Database (Unit {0})
store_if_complete (ok x) d = store_association x d
store_if_complete (raised e) d = (raised e, d)

abbrev pub is_artifact_registered : EventType → Bool
is_artifact_registered artifact_registered = true
is_artifact_registered _ = false

unfoldable pub register_artifact : EventEnvelope → Tx Database (Unit {0})
unfolding association_of store_association
register_artifact event d =
    if is_artifact_registered event.event_type
    then store_if_complete (association_of event) d
    else (ok tt, d)
