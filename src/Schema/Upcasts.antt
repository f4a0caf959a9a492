-- ===== src/Schema/Upcasts.antt =====
-- An envelope that is stored as a dictionary is read back.
use mathlib.Core.Path.{subst}
use aizim.Prelude.{
  ℕ, ◌≡◌, refl, sym, ap, ◌∙◌, Bool, true, false, not, Option, none, some, List, [], ◌∷◌, String,
  same_text, ◌==◌, Bool-cases, inl, inr, if◌then◌else◌, arith, eq_iff,
}
use aizim.Outcome.{
  Failure, Outcome, ok, raised, raise_if, bind-ok_inv, event_validation_error, ◌>>◌,
}
use aizim.Json.{JsonObject, pos, integer_eq, text_or_null, get, get_text, get_integer, get_object}
use aizim.Events.{EventType, EventEnvelope, type_name, event_schema_version}
use aizim.Documents.{Formats, has_characters, parsed_timestamp, ends_in_z}
use aizim.Schema.{missing_fields, unknown_fields}
use aizim.Schema.Codecs.{validate_payload}
use aizim.Projections.{contains}
use aizim.Schema.Envelopes.{
  upcast_from, text_or_refuse, null_or_text, find_type, all_types, type_named, require_text?,
  checked_envelope, new_envelope, event_as_dict, required_text_value, optional_text_value,
  upcast_v1, upcast,
}

raise_if-inv : (b : Bool) (e : Failure) (u : Unit {0}) → raise_if b e ≡ ok u → b ≡ false
raise_if-inv true e u h = ground arith
raise_if-inv false e u h = refl

not-not : (b : Bool) → not b ≡ false → b ≡ true
not-not true h = refl
not-not false h = ground arith

some-injective : {A : Type 0} {a b : A} → some a ≡ some b → a ≡ b
some-injective h = ground arith

ok-injective : {A : Type 0} {a b : A} → ok a ≡ ok b → a ≡ b
ok-injective h = ground arith

none-some : {A : Type 0} (a : A) → none ≡ some a → ⊥
none-some a h = ground arith

-- The two parts of a sequence that succeeded.
seq-inv :
    {A : Type 0} {m : Outcome (Unit {0})} {k : Outcome A} {a : A}
    → (m >> k) ≡ ok a
    → (m ≡ ok tt) × (k ≡ ok a)
seq-inv {A} {m} {k} {a} h = let (u, p, q) = bind-ok_inv m (λ _. k) a h in (p, q)

find_type-name :
    (name : String) (ts : List EventType) (t : EventType)
    → find_type name ts ≡ some t
    → type_name t ≡ name
unfolding find_type
find_type-name name [] t h = ground arith
find_type-name name (x ∷ ts) t h = elim (Bool-cases (same_text (type_name x) name)) [
  | inl p ↦
      ap type_name
        (sym (some-injective (ap (λ b. if b then some x else find_type name ts) (sym p) ∙ h)))
      ∙ (eq_iff (type_name x) name).0 p
  | inr p ↦ find_type-name name ts t (ap (λ b. if b then some x else find_type name ts) (sym p) ∙ h)
]

type_named-name : (name : String) (t : EventType) → type_named name ≡ some t → type_name t ≡ name
unfolding type_named
type_named-name name t h = find_type-name name all_types t h

parsed_timestamp-characters :
    (formats : Formats) (v : String) (t : ℕ)
    → parsed_timestamp formats v ≡ some t
    → has_characters v ≡ true
unfolding parsed_timestamp ends_in_z
parsed_timestamp-characters formats v t h = elim (Bool-cases (same_text v "")) [
  | inl p ↦ absurd (none-some t (ap (parsed_timestamp formats) (sym ((eq_iff v "").0 p)) ∙ h))
  | inr p ↦ ap not p
]

abbrev has_characters? : Option String → Bool
has_characters? none = true
has_characters? (some v) = has_characters v

require_text?-inv :
    (o : Option String) (l : String) (u : Unit {0})
    → require_text? o l ≡ ok u
    → has_characters? o ≡ true
require_text?-inv none l u h = refl
require_text?-inv (some v) l u h = not-not _ (raise_if-inv _ _ u h)

module _ (formats : Formats) (valid_record : JsonObject → Bool) where
  -- What the making of an envelope has checked.
  record IsMade (e : EventEnvelope) : Type 0 where
    event_id : has_characters e.event_id ≡ true
    event_type : has_characters (type_name e.event_type) ≡ true
    version : e.schema_version ≡ event_schema_version
    actor : has_characters e.actor ≡ true
    run : has_characters? e.run_id ≡ true
    cause : has_characters? e.causation_id ≡ true
    again :
        new_envelope formats valid_record e.event_id event_schema_version
          (type_name e.event_type)
          e.occurred_at
          e.actor
          e.run_id
          e.causation_id
          e.payload
        ≡ ok e

  new_envelope-inv :
      (id : String) (version : ℕ) (type_text : String) (at : ℕ) (actor : String)
      (run cause : Option String) (payload : JsonObject) (e : EventEnvelope)
      → new_envelope formats valid_record id version type_text at actor run cause payload ≡ ok e
      → IsMade e
  unfolding new_envelope
  new_envelope-inv id version type_text at actor run cause payload e h =
      let (p1, h1) = seq-inv h in
      let (p2, h2) = seq-inv h1 in
      let (p3, h3) = seq-inv h2 in
      let (p4, h4) = seq-inv h3 in
      let (p5, h5) = seq-inv h4 in
      let (p6, h6) = seq-inv h5 in
      let (p7, h7) = seq-inv h6 in
      last (type_named type_text) refl h7 (
        not-not _ (raise_if-inv _ _ tt p1),
        same_number _ _ (not-not _ (raise_if-inv _ _ tt p3)),
        not-not _ (raise_if-inv _ _ tt p4),
        not-not _ (raise_if-inv _ _ tt p5),
        require_text?-inv run _ tt p6,
        require_text?-inv cause _ tt p7,
      )
    where
      same_number : (a b : ℕ) → (a == b) ≡ true → a ≡ b
      same_number a b e = ground arith

      last :
          (o : Option EventType)
          → type_named type_text ≡ o
          → checked_envelope formats valid_record id version type_text at actor run cause payload o
            ≡ ok e
          → (has_characters id ≡ true)
            × (version ≡ event_schema_version)
            × (has_characters type_text ≡ true)
            × (has_characters actor ≡ true)
            × (has_characters? run ≡ true)
            × (has_characters? cause ≡ true)
          → IsMade e
      last none n k c = ground arith
      last (some t) n k (c1, c2, c3, c4, c5, c6) =
          let (u, valid, made) =
            bind-ok_inv (validate_payload formats valid_record t payload) _ e k in
          let same = ok-injective made in
          let name = type_named-name type_text t n in
          subst IsMade same (record {
            event_id = c1;
            event_type = ap has_characters name ∙ c3;
            version = c2;
            actor = c4;
            run = c5;
            cause = c6;
            again =
                ap
                  (λ v.
                    new_envelope formats valid_record id v (type_name t) at actor run cause payload)
                  (sym c2)
                ∙ ap
                    (λ x. new_envelope formats valid_record id version x at actor run cause payload)
                    name
                ∙ h
                ∙ ap ok (sym same);
          })

  text_or_refuse-ok :
      (key v : String) → has_characters v ≡ true → text_or_refuse key (some v) ≡ ok v
  text_or_refuse-ok key v h =
      ap (λ b. if b then ok v else raised (event_validation_error key "must be a non-empty string"))
        h

  null_or_text-ok :
      (key : String) (o : Option String)
      → has_characters? o ≡ true
      → null_or_text key (some (text_or_null o)) ≡ ok o
  null_or_text-ok key none h = refl
  null_or_text-ok key (some v) h =
      ap
        (λ b.
          if b
          then ok (some v)
          else raised (event_validation_error key "must be a non-empty string or null"))
        h

  upcast_v1-stored :
      (e : EventEnvelope)
      → IsMade e
      → parsed_timestamp formats (formats.canonical_timestamp e.occurred_at) ≡ some e.occurred_at
      → upcast_v1 formats valid_record (event_as_dict formats e) ≡ ok e
  unfolding upcast_v1 required_text_value optional_text_value event_as_dict missing_fields
      unknown_fields contains get get_text get_object
  upcast_v1-stored e m t =
      let time = parsed_timestamp-characters formats _ e.occurred_at t in
      simp (
        text_or_refuse-ok "event_id" e.event_id m.event_id,
        text_or_refuse-ok "event_type" (type_name e.event_type) m.event_type,
        text_or_refuse-ok "occurred_at" (formats.canonical_timestamp e.occurred_at) time,
        text_or_refuse-ok "actor" e.actor m.actor,
        null_or_text-ok "run_id" e.run_id m.run,
        null_or_text-ok "causation_id" e.causation_id m.cause,
        t,
        m.again,
      )

-- An envelope that was made, and whose time its text names, is read back from the dictionary that it
-- is stored as.
pub upcast-event_as_dict :
    (formats : Formats) (valid_record : JsonObject → Bool) (id : String) (version : ℕ)
    (type_text : String) (at : ℕ) (actor : String) (run cause : Option String)
    (payload : JsonObject) (e : EventEnvelope)
    → new_envelope formats valid_record id version type_text at actor run cause payload ≡ ok e
    → parsed_timestamp formats (formats.canonical_timestamp e.occurred_at) ≡ some e.occurred_at
    → upcast formats valid_record (event_as_dict formats e) ≡ ok e
unfolding upcast get_integer event_as_dict get integer_eq
upcast-event_as_dict formats valid_record id version type_text at actor run cause payload e h t =
    let m =
      new_envelope-inv formats valid_record id version type_text at actor run cause payload e h in
    ap (λ n. upcast_from formats valid_record (event_as_dict formats e) (some (pos n))) m.version
    ∙ upcast_v1-stored formats valid_record e m t
