-- ===== src/Publication/Queries.antt =====
-- What the queries on the log for a preparation and for a submission have found.
use mathlib.Core.List.{Memᴰ}
use aizim.Prelude.{
  ◌≡◌, refl, ◌∙◌, true, ◌&&◌, Option, none, some, List, [], ◌∷◌, String, same_text?-eq, arith,
  Bool-cases, inl, inr,
}
use aizim.Json.{
  JsonObject, JsonValue, string, get, get_text, get_natural, as_text, as_natural, object_eq,
}
use aizim.Json.Laws.{object_eq-scalars}
use aizim.Events.{
  EventType, EventEnvelope, EventRecord, is_type, type_name, contribution_submitted,
  promotion_prepared,
}
use aizim.Publication.{same_submission}
use aizim.Publication.Endings.{has_preparation, expected_preparation, value_or_null}

-- The payload of a preparation of a contribution, against those of the declaration and of the epoch's
-- event that are published.
pub record Prepares (id : String) (declaration delta prepared : JsonObject) : Type 0 where
  pub contribution : get_text "contribution_id" prepared ≡ some id
  pub module_name : get_text "module" prepared ≡ get_text "module" declaration
  pub content_hash : get_text "content_hash" prepared ≡ get_text "content_hash" declaration
  pub declaration_id : get_text "declaration_id" prepared ≡ get_text "declaration_id" declaration
  pub base_epoch : get_text "base_epoch" prepared ≡ get_text "base_epoch" delta
  pub knowledge_epoch : get_natural "knowledge_epoch" prepared ≡ get_natural "knowledge_epoch" delta
  pub delta_id : get_text "delta_id" prepared ≡ get_text "delta_id" delta

value_or_null-scalars :
    (k : String) (o : JsonObject)
    → (as_text (value_or_null (get k o)) ≡ get_text k o)
      × (as_natural (value_or_null (get k o)) ≡ get_natural k o)
unfolding get_text get_natural
value_or_null-scalars k o = go (get k o)
  where
    go :
        (v : Option JsonValue)
        → (as_text (value_or_null v) ≡ elim v [ none ↦ none | some x ↦ as_text x ])
          × (as_natural (value_or_null v) ≡ elim v [ none ↦ none | some x ↦ as_natural x ])
    go none = (refl, refl)
    go (some v) = (refl, refl)

pub equal-Prepares :
    (id : String) (declaration delta prepared : JsonObject)
    → object_eq (expected_preparation id declaration delta) prepared ≡ true
    → Prepares id declaration delta prepared
unfolding expected_preparation get
equal-Prepares id declaration delta prepared h =
    let expected = expected_preparation id declaration delta in
    record {
      contribution = (object_eq-scalars "contribution_id" (string id) expected prepared h refl).0;
      module_name =
          (object_eq-scalars "module" _ expected prepared h refl).0
          ∙ (value_or_null-scalars "module" declaration).0;
      content_hash =
          (object_eq-scalars "content_hash" _ expected prepared h refl).0
          ∙ (value_or_null-scalars "content_hash" declaration).0;
      declaration_id =
          (object_eq-scalars "declaration_id" _ expected prepared h refl).0
          ∙ (value_or_null-scalars "declaration_id" declaration).0;
      base_epoch =
          (object_eq-scalars "base_epoch" _ expected prepared h refl).0
          ∙ (value_or_null-scalars "base_epoch" delta).0;
      knowledge_epoch =
          (object_eq-scalars "knowledge_epoch" _ expected prepared h refl).1
          ∙ (value_or_null-scalars "knowledge_epoch" delta).1;
      delta_id =
          (object_eq-scalars "delta_id" _ expected prepared h refl).0
          ∙ (value_or_null-scalars "delta_id" delta).0;
    }

typed_prepared : (t : EventType) → is_type t promotion_prepared ≡ true → t ≡ promotion_prepared
unfolding is_type type_name
typed_prepared promotion_prepared h = refl
typed_prepared _ h = ground arith

typed_submitted :
    (t : EventType) → is_type t contribution_submitted ≡ true → t ≡ contribution_submitted
unfolding is_type type_name
typed_submitted contribution_submitted h = refl
typed_submitted _ h = ground arith

pub has_preparation-inv :
    (expected : JsonObject) (rs : List EventRecord)
    → has_preparation expected rs ≡ true
    → (r : EventRecord) × Memᴰ r rs
      × (r.envelope.event_type ≡ promotion_prepared)
      × (object_eq expected r.envelope.payload ≡ true)
unfolding has_preparation
has_preparation-inv expected [] h = ground arith
has_preparation-inv expected (x ∷ rs) h =
    elim (Bool-cases
      (is_type x.envelope.event_type promotion_prepared && object_eq expected x.envelope.payload)) [
        | inl e ↦
            (x, Memᴰ.head refl, typed_prepared x.envelope.event_type (ground arith), ground arith)
        | inr e ↦
            let (r, m, t, p) = has_preparation-inv expected rs (ground arith) in
            (r, Memᴰ.tail m, t, p)
      ]

pub same_submission-inv :
    (e : EventEnvelope) (rs : List EventRecord)
    → same_submission e rs ≡ true
    → (r : EventRecord) × Memᴰ r rs
      × (r.envelope.event_type ≡ contribution_submitted)
      × (r.envelope.run_id ≡ e.run_id)
      × (object_eq r.envelope.payload e.payload ≡ true)
unfolding same_submission
same_submission-inv e [] h = ground arith
same_submission-inv e (x ∷ rs) h =
    elim (Bool-cases (
      is_type x.envelope.event_type contribution_submitted
      && object_eq x.envelope.payload e.payload)) [
        | inl t ↦ (
          x,
          Memᴰ.head refl,
          typed_submitted x.envelope.event_type (ground arith),
          same_text?-eq x.envelope.run_id e.run_id (ground arith),
          ground arith,
        )
        | inr t ↦
            let (r, m, y, run, p) = same_submission-inv e rs (ground arith) in
            (r, Memᴰ.tail m, y, run, p)
      ]
