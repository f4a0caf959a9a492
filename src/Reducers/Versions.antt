-- ===== src/Reducers/Versions.antt =====
-- The records that the reducer writes: their versions and their names.
use mathlib.Core.Path.{subst}
use mathlib.Core.List.{Memᴰ}
use aizim.Prelude.{
  ℕ, ◌+◌, ◌≡◌, refl, sym, ap, ◌∙◌, Bool, true, false, Option, none, some, List, [], ◌∷◌, ◌++◌,
  String, arith, if◌then◌else◌,
}
use aizim.Outcome.{ok, raised, projection_authority_error, bind-ok_inv}
use aizim.Json.{JsonObject}
use aizim.Events.{EventEnvelope}
use aizim.Projections.{ProjectionRecord, find_record, is_registered}
use aizim.Reducers.{
  next_version, next_record, event_state, projection_payload, document_changes,
  complete_document_payload, epoch_change, apply_event, sets_epoch, is_lease_granted, required,
}
use aizim.Reducers.Names.{event_projection-registered}
use aizim.Store.{write_changes, upsert}

ok-injective : {A : Type 0} {a b : A} → ok a ≡ ok b → a ≡ b
ok-injective h = ground arith

-- A record with the version that follows the stored one, under a name that the store accepts.
pub record IsNext (snapshots : List ProjectionRecord) (c : ProjectionRecord) : Type 0 where
  pub version : c.version ≡ next_version snapshots c.projection_name c.entity_id
  pub registered : is_registered c.projection_name ≡ true

abbrev pub AreNext : List ProjectionRecord → List ProjectionRecord → Type 0
AreNext snapshots [] = Unit {0}
AreNext snapshots (c ∷ cs) = IsNext snapshots c × AreNext snapshots cs

AreNext-append :
    (snapshots cs ds : List ProjectionRecord)
    → AreNext snapshots cs
    → AreNext snapshots ds
    → AreNext snapshots (cs ++ ds)
AreNext-append snapshots [] ds p q = q
AreNext-append snapshots (c ∷ cs) ds p q = (p.0, AreNext-append snapshots cs ds p.1 q)

document_changes-AreNext :
    (snapshots : List ProjectionRecord) (event : EventEnvelope) (payload : JsonObject)
    → AreNext snapshots (document_changes snapshots event payload)
unfolding document_changes next_record is_registered
document_changes-AreNext snapshots event payload = go (complete_document_payload payload)
  where
    go :
        (o : Option String)
        → AreNext snapshots (elim o [
          | none ↦ []
          | some document ↦
              next_record snapshots "documents" document (event_state event payload) ∷ []
        ])
    go none = tt
    go (some document) = (record { version = refl; registered = refl }, tt)

epoch_change-AreNext :
    (snapshots cs : List ProjectionRecord) (payload : JsonObject)
    → epoch_change snapshots payload ≡ ok cs
    → AreNext snapshots cs
unfolding epoch_change next_record is_registered
epoch_change-AreNext snapshots cs payload h =
    let (base, b, h1) = bind-ok_inv (required "base_epoch" payload) _ cs h in
    let (knowledge, k, h2) = bind-ok_inv (required "knowledge_epoch" payload) _ cs h1 in
    subst (AreNext snapshots) (ok-injective h2) (record { version = refl; registered = refl }, tt)

epochs-AreNext :
    (snapshots cs : List ProjectionRecord) (payload : JsonObject) (b : Bool)
    → (if b then epoch_change snapshots payload else ok []) ≡ ok cs
    → AreNext snapshots cs
epochs-AreNext snapshots cs payload true h = epoch_change-AreNext snapshots cs payload h
epochs-AreNext snapshots cs payload false h = subst (AreNext snapshots) (ok-injective h) tt

documents-AreNext :
    (snapshots : List ProjectionRecord) (event : EventEnvelope) (payload : JsonObject) (b : Bool)
    → AreNext snapshots (if b then document_changes snapshots event payload else [])
documents-AreNext snapshots event payload true = document_changes-AreNext snapshots event payload
documents-AreNext snapshots event payload false = tt

apply_event-AreNext :
    (snapshots cs : List ProjectionRecord) (event : EventEnvelope)
    → apply_event snapshots event ≡ ok cs
    → AreNext snapshots cs
unfolding apply_event next_record
apply_event-AreNext snapshots cs event h =
    let (payload, p, h1) = bind-ok_inv (projection_payload snapshots event) _ cs h in
    let (epochs, e, h2) =
      bind-ok_inv (if sets_epoch event.event_type then epoch_change snapshots payload else ok []) _
        cs h1 in
    subst (AreNext snapshots) (ok-injective h2) (
      record { version = refl; registered = event_projection-registered event.event_type },
      AreNext-append snapshots
          (if is_lease_granted event.event_type
            then document_changes snapshots event payload
            else [])
          epochs (documents-AreNext snapshots event payload (is_lease_granted event.event_type))
          (epochs-AreNext snapshots epochs payload (sets_epoch event.event_type) e),
    )

AreNext-version :
    (snapshots cs : List ProjectionRecord) (c : ProjectionRecord)
    → AreNext snapshots cs
    → Memᴰ c cs
    → c.version ≡ next_version snapshots c.projection_name c.entity_id
AreNext-version snapshots [] c a m = elim m [ ]
AreNext-version snapshots (x ∷ cs) c a (Memᴰ.head e) =
    subst
      (λ (y : ProjectionRecord). y.version ≡ next_version snapshots y.projection_name y.entity_id)
      (sym e) a.0.version
AreNext-version snapshots (x ∷ cs) c a (Memᴰ.tail m) = AreNext-version snapshots cs c a.1 m

AreNext-writes :
    (snapshots cs rs : List ProjectionRecord)
    → AreNext snapshots cs
    → (rs' : List ProjectionRecord) × (write_changes cs rs ≡ ok rs')
unfolding write_changes
AreNext-writes snapshots [] rs a = (rs, refl)
AreNext-writes snapshots (c ∷ cs) rs a =
    let (rs', w) = AreNext-writes snapshots cs (upsert c rs) a.1 in
    (
      rs',
      ap
            (λ b.
              if b
              then write_changes cs (upsert c rs)
              else raised (projection_authority_error c.projection_name "name is not registered"))
            a.0.registered
          ∙ w,
    )

-- A version against the record that is stored: one more than its version, or 1 where there is none.
abbrev pub Follows : Option ProjectionRecord → ℕ → Type 0
Follows none n = n ≡ 1
Follows (some stored) n = n ≡ stored.version + 1

next_version-Follows :
    (snapshots : List ProjectionRecord) (name entity : String)
    → Follows (find_record name entity snapshots) (next_version snapshots name entity)
unfolding next_version
next_version-Follows snapshots name entity = go (find_record name entity snapshots)
  where
    go :
        (o : Option ProjectionRecord)
        → Follows o (elim o [ none ↦ 1 | some current ↦ current.version + 1 ])
    go none = refl
    go (some current) = refl

-- Every record that the reducer writes has a version that is one more than that of the record which
-- is stored under its name and entity, or 1 where none is stored.
pub apply_event-version :
    (snapshots cs : List ProjectionRecord) (event : EventEnvelope) (c : ProjectionRecord)
    → apply_event snapshots event ≡ ok cs
    → Memᴰ c cs
    → Follows (find_record c.projection_name c.entity_id snapshots) c.version
apply_event-version snapshots cs event c h m =
    subst (Follows (find_record c.projection_name c.entity_id snapshots))
      (sym (AreNext-version snapshots cs c (apply_event-AreNext snapshots cs event h) m))
      (next_version-Follows snapshots c.projection_name c.entity_id)

-- The store accepts the name of every record that the reducer writes: no write to the projections
-- fails after a successful reduction.
pub apply_event-writes :
    (snapshots cs rs : List ProjectionRecord) (event : EventEnvelope)
    → apply_event snapshots event ≡ ok cs
    → (rs' : List ProjectionRecord) × (write_changes cs rs ≡ ok rs')
apply_event-writes snapshots cs rs event h =
    AreNext-writes snapshots cs rs (apply_event-AreNext snapshots cs event h)
