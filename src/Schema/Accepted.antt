-- ===== src/Schema/Accepted.antt =====
-- What a payload has that the validation accepts.
use aizim.Prelude.{
  ◌≢◌, ◌⊎◌, none, ◌≡◌, refl, sym, ap, ◌∙◌, Bool, true, false, some, List, [], ◌∷◌, ◌++◌, String,
  same_text, is_some, if◌then◌else◌, Bool-cases, inl, inr, arith, eq_iff,
}
use mathlib.Core.Path.{subst}
use aizim.Outcome.{Failure, Outcome, ok, raised, bind-ok_inv}
use aizim.Json.{JsonValue, string, JsonObject, end, field, get}
use aizim.Projections.{contains}
use aizim.Schema.{
  PayloadCodec, PayloadValidator, or_validator, find_validator, field_validators, text_payload,
  refuse_fields, missing_fields, unknown_fields, validator_of, validate_fields, validate,
}

-- A test stands in a table under the name, before any other of that name.
pub data IsFirst (k : String) (p : PayloadValidator)
    : List (String × PayloadValidator) → Type 0 where
  here : {ps : List (String × PayloadValidator)} → IsFirst k p ((k, p) ∷ ps)
  later :
      {j : String} {q : PayloadValidator} {ps : List (String × PayloadValidator)}
      → same_text j k ≡ false
      → IsFirst k p ps
      → IsFirst k p ((j, q) ∷ ps)

-- No test stands in a table under the name.
pub data IsUnlisted (k : String) : List (String × PayloadValidator) → Type 0 where
  nothing : IsUnlisted k []
  other :
      {j : String} {q : PayloadValidator} {ps : List (String × PayloadValidator)}
      → same_text j k ≡ false
      → IsUnlisted k ps
      → IsUnlisted k ((j, q) ∷ ps)

-- A value of the kind that its field has in the codec, or in the table of common fields, or else a
-- text that is not empty.
pub data Fits (codec : PayloadCodec) (k : String) (v : JsonValue) : Type 0 where
  by_own : (p : PayloadValidator) → IsFirst k p codec.validators → p v ≡ true → Fits codec k v
  by_common :
      (p : PayloadValidator)
      → IsUnlisted k codec.validators
      → IsFirst k p field_validators
      → p v ≡ true
      → Fits codec k v
  by_text :
      (s : String)
      → IsUnlisted k codec.validators
      → IsUnlisted k field_validators
      → v ≡ string s
      → s ≢ ""
      → Fits codec k v

find_validator-cases :
    (k : String) (ps : List (String × PayloadValidator))
    → ((p : PayloadValidator) × (find_validator k ps ≡ some p) × IsFirst k p ps)
      ⊎ ((find_validator k ps ≡ none) × IsUnlisted k ps)
unfolding find_validator
find_validator-cases k [] = inr (refl, IsUnlisted.nothing)
find_validator-cases k ((j, q) ∷ ps) = elim (Bool-cases (same_text j k)) [
  | inl e ↦ inl (
    q,
    ap (λ b. if b then some q else find_validator k ps) e,
    subst (λ i. IsFirst k q ((i, q) ∷ ps)) (sym ((eq_iff j k).0 e)) IsFirst.here,
  )
  | inr n ↦
      let skip = ap (λ b. if b then some q else find_validator k ps) n in
      elim (find_validator-cases k ps) [
        | inl (p, found, first) ↦ inl (p, skip ∙ found, IsFirst.later n first)
        | inr (none_found, unlisted) ↦ inr (skip ∙ none_found, IsUnlisted.other n unlisted)
      ]
]

text_payload-text :
    (v : JsonValue) → text_payload v ≡ true → (s : String) × (v ≡ string s) × (s ≢ "")
text_payload-text (string s) h = (s, refl, λ e. ground (arith, eq_iff s ""))
text_payload-text _ h = ground arith

validator_of-Fits :
    (codec : PayloadCodec) (k : String) (v : JsonValue)
    → validator_of codec k v ≡ true
    → Fits codec k v
unfolding validator_of
validator_of-Fits codec k v h = elim (find_validator-cases k codec.validators) [
  | inl (p, found, first) ↦ Fits.by_own p first (
      sym (
        ap (λ o. or_validator o (or_validator (find_validator k field_validators) text_payload) v)
          found)
      ∙ h)
  | inr (none_found, unlisted) ↦
      let common =
        sym (
          ap (λ o. or_validator o (or_validator (find_validator k field_validators) text_payload) v)
            none_found)
        ∙ h in
      elim (find_validator-cases k field_validators) [
        | inl (p, found, first) ↦
            Fits.by_common p unlisted first
              (sym (ap (λ o. or_validator o text_payload v) found) ∙ common)
        | inr (nothing_found, uncommon) ↦
            let (s, text, full) =
              text_payload-text v
                (sym (ap (λ o. or_validator o text_payload v) nothing_found) ∙ common) in
            Fits.by_text s unlisted uncommon text full
      ]
]

-- A payload with every required field, no unknown field, and each field accepted by its test.
pub record IsAccepted (codec : PayloadCodec) (payload : JsonObject) : Type 0 where
  pub complete : (k : String) → contains k codec.required ≡ true → is_some (get k payload) ≡ true
  pub known :
      (k : String) (v : JsonValue)
      → get k payload ≡ some v
      → contains k (codec.required ++ codec.optional) ≡ true
  pub tested : (k : String) (v : JsonValue) → get k payload ≡ some v → Fits codec k v

refuse_fields-inv :
    (t kind : String) (ks : List String) (u : Unit {0}) → refuse_fields t kind ks ≡ ok u → ks ≡ []
refuse_fields-inv t kind [] u h = refl
refuse_fields-inv t kind (k ∷ ks) u h = ground arith

missing_fields-none :
    (ks : List String) (payload : JsonObject) (k : String)
    → missing_fields ks payload ≡ []
    → contains k ks ≡ true
    → is_some (get k payload) ≡ true
unfolding missing_fields contains
missing_fields-none [] payload k h m = ground arith
missing_fields-none (j ∷ ks) payload k h m =
    ground (arith, eq_iff j k, missing_fields-none ks payload k)

unknown_fields-none :
    (ks : List String) (payload : JsonObject) (k : String) (v : JsonValue)
    → unknown_fields ks payload ≡ []
    → get k payload ≡ some v
    → contains k ks ≡ true
unfolding unknown_fields get
unknown_fields-none ks end k v h g = ground arith
unknown_fields-none ks (field j w payload) k v h g =
    ground (arith, eq_iff j k, unknown_fields-none ks payload k v)

if-ok :
    (b : Bool) (m : Outcome (Unit {0})) (e : Failure) (u : Unit {0})
    → (if b then m else raised e) ≡ ok u
    → (b ≡ true) × (m ≡ ok u)
if-ok true m e u h = (refl, h)
if-ok false m e u h = ground arith

some-injective : {A : Type 0} {a b : A} → some a ≡ some b → a ≡ b
some-injective h = ground arith

validate_fields-tested :
    (t : String) (codec : PayloadCodec) (payload : JsonObject) (k : String) (v : JsonValue)
    (u : Unit {0})
    → validate_fields t codec payload ≡ ok u
    → get k payload ≡ some v
    → validator_of codec k v ≡ true
unfolding validate_fields get
validate_fields-tested t codec end k v u h g = ground arith
validate_fields-tested t codec (field j w payload) k v u h g =
    let (tested, rest) = if-ok (validator_of codec j w) _ _ u h in
    elim (Bool-cases (same_text j k)) [
      | inl e ↦
          let value = some-injective (ap (λ b. if b then some w else get k payload) (sym e) ∙ g) in
          subst (λ x. validator_of codec k x ≡ true) value
            (subst (λ x. validator_of codec x w ≡ true) ((eq_iff j k).0 e) tested)
      | inr n ↦
          validate_fields-tested t codec payload k v u rest
            (ap (λ b. if b then some w else get k payload) (sym n) ∙ g)
    ]

-- A payload that the validation of a codec lets through has every field that the codec requires and
-- only fields that it knows. The value of each field passes the first test that the codec's own table
-- has under its name, or, where that has none, the first that the table of common fields has, and is a
-- text that is not empty where neither has one.
pub validate-IsAccepted :
    (t : String) (codec : PayloadCodec) (payload : JsonObject) (u : Unit {0})
    → validate t codec payload ≡ ok u
    → IsAccepted codec payload
unfolding validate
validate-IsAccepted t codec payload u h =
    let (u1, p, h1) = bind-ok_inv (refuse_fields _ _ _) _ u h in
    let (u2, q, h2) = bind-ok_inv (refuse_fields _ _ _) _ u h1 in
    record {
      complete =
          λ k m. missing_fields-none codec.required payload k (refuse_fields-inv _ _ _ u1 p) m;
      known = λ k v g. unknown_fields-none _ payload k v (refuse_fields-inv _ _ _ u2 q) g;
      tested =
          λ k v g. validator_of-Fits codec k v (validate_fields-tested t codec payload k v u h2 g);
    }
