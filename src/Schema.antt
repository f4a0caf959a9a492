-- ===== src/Schema.antt =====
-- The checks on the payload of an event (state/schema_v1.py, state/schema_v1_validation.py,
-- state/payload_validation.py): the tests on single fields, and the codec of a type of event.
pub mod Accepted
pub mod Broker
pub mod Codecs
pub mod Envelopes
pub mod Orchestration
mod Tests
pub mod Upcasts
use Prim.Native.Char.{code}
use Prim.Native.String.{◌++◌ as append}
use aizim.Prelude.{
  ℕ, zero, suc, ◌%◌, Bool, true, false, ◌&&◌, ◌||◌, not, Option, none, some, List, [], ◌∷◌, ◌++◌,
  String, same_text, codes_before, is_some, ◌==◌, leb, ltb, if◌then◌else◌,
}
use aizim.Outcome.{Outcome, ok, raised, event_validation_error, ◌>>=◌, ◌>>◌}
use aizim.Json.{
  JsonValue, JsonArray, JsonObject, null, boolean, integer, string, array, object, nil, cons, end,
  field, pos, get, size, get_text, get_natural,
}
use aizim.Projections.{contains}
use aizim.Documents.{Formats, has_characters, is_hash, is_hex, parsed_timestamp}

abbrev pub PayloadValidator : Type 0
PayloadValidator = JsonValue → Bool

-- `text_payload`
abbrev pub text_payload : PayloadValidator
text_payload (string s) = has_characters s
text_payload _ = false

-- `integer_payload`
abbrev pub integer_payload : PayloadValidator
integer_payload (integer (pos n)) = true
integer_payload _ = false

-- `_positive_integer`
abbrev pub positive_integer : PayloadValidator
positive_integer (integer (pos n)) = ltb 0 n
positive_integer _ = false

-- `sha256_payload`
abbrev pub sha256_payload : PayloadValidator
sha256_payload (string s) = is_hash s
sha256_payload _ = false

-- `type(value) is bool`
abbrev pub truth_payload : PayloadValidator
truth_payload (boolean b) = true
truth_payload _ = false

-- `type(value) is dict`
abbrev pub dict_payload : PayloadValidator
dict_payload (object o) = true
dict_payload _ = false

-- `type(value) is list`
abbrev pub list_payload : PayloadValidator
list_payload (array xs) = true
list_payload _ = false

abbrev pub all_items : PayloadValidator → JsonArray → Bool
all_items p nil = true
all_items p (cons v xs) = p v && all_items p xs

-- `strings_payload`
abbrev pub strings_payload : PayloadValidator
strings_payload (array xs) = all_items text_payload xs
strings_payload _ = false

-- `_enum`
abbrev pub enum : List String → PayloadValidator
enum allowed (string s) = contains s allowed
enum allowed _ = false

-- `timestamp_payload`
abbrev pub timestamp_payload : Formats → PayloadValidator
timestamp_payload formats (string s) = is_some (parsed_timestamp formats s)
timestamp_payload formats _ = false

unfoldable pub every_character : (ℕ → Bool) → String → Bool
every_character p String.[] = true
every_character p (String.◌∷◌ c s) = p (code c) && every_character p s

abbrev pub text_length : String → ℕ
text_length String.[] = 0
text_length (String.◌∷◌ c s) = suc (text_length s)

-- One item of `patch_edits_payload`: the two ends of the replaced bytes, and the replacement.
abbrev ordered : Option ℕ → Option ℕ → Bool
ordered (some start) (some stop) = leb start stop
ordered _ _ = false

abbrev hexadecimal : Option String → Bool
hexadecimal none = false
hexadecimal (some s) = text_length s % 2 == 0 && every_character is_hex s

abbrev pub patch_edit : PayloadValidator
patch_edit (object o) =
    size o == 3
    && ordered (get_natural "start_byte" o) (get_natural "end_byte" o)
    && hexadecimal (get_text "replacement_hex" o)
patch_edit _ = false

-- `patch_edits_payload`
abbrev pub patch_edits_payload : PayloadValidator
patch_edits_payload (array xs) = all_items patch_edit xs
patch_edits_payload _ = false

abbrev is_lower : ℕ → Bool
is_lower c = leb 97 c && leb c 122

-- `[a-z0-9_-]`
abbrev is_provider_character : ℕ → Bool
is_provider_character c = is_lower c || leb 48 c && leb c 57 || c == 95 || c == 45

-- `is_controller_provider_id`
abbrev provider_text : String → Bool
provider_text String.[] = false
provider_text (String.◌∷◌ c s) =
    is_lower (code c) && every_character is_provider_character s && leb (text_length s) 63

abbrev pub is_controller_provider_id : PayloadValidator
is_controller_provider_id (string s) = provider_text s
is_controller_provider_id _ = false

-- A codec: its fields, and the tests of its own on some of them.
pub record PayloadCodec : Type 0 where
  pub required : List String
  pub optional : List String
  pub validators : List (String × PayloadValidator)

abbrev pub codec_of : List String → List String → List (String × PayloadValidator) → PayloadCodec
codec_of required optional validators = record {
  required = required;
  optional = optional;
  validators = validators;
}

unfoldable pub find_validator : String → List (String × PayloadValidator) → Option PayloadValidator
find_validator k [] = none
find_validator k ((j, p) ∷ ps) = if same_text j k then some p else find_validator k ps

-- `_FIELD_VALIDATORS`
unfoldable pub field_validators : List (String × PayloadValidator)
field_validators =
    ("base_epoch", sha256_payload)
    ∷ ("content_hash", sha256_payload)
    ∷ ("expected_hash", sha256_payload)
    ∷ ("expected_version", integer_payload)
    ∷ ("knowledge_epoch", integer_payload)
    ∷ ("manifest", dict_payload)
    ∷ ("operations", list_payload)
    ∷ ("imports", strings_payload)
    ∷ ("dependencies", strings_payload)
    ∷ ("assumptions", strings_payload)
    ∷ ("axioms", strings_payload)
    ∷ ("evidence_links", strings_payload)
    ∷ ("state_version", integer_payload)
    ∷ ("version", integer_payload)
    ∷ []

abbrev pub or_validator : Option PayloadValidator → PayloadValidator → PayloadValidator
or_validator none q = q
or_validator (some p) q = p

-- `self.validators.get(field, _FIELD_VALIDATORS.get(field, _text_payload))`
unfoldable pub validator_of : PayloadCodec → String → PayloadValidator
unfolding find_validator field_validators
validator_of codec name =
    or_validator (find_validator name codec.validators)
      (or_validator (find_validator name field_validators) text_payload)

-- `self.required - payload.keys()`
unfoldable pub missing_fields : List String → JsonObject → List String
missing_fields [] payload = []
missing_fields (k ∷ ks) payload =
    let rest = missing_fields ks payload in if is_some (get k payload) then rest else k ∷ rest

-- `payload.keys() - self.required - self.optional`
unfoldable pub unknown_fields : List String → JsonObject → List String
unknown_fields known end = []
unknown_fields known (field k v payload) =
    let rest = unknown_fields known payload in if contains k known then rest else k ∷ rest

abbrev pub insert_sorted : String → List String → List String
insert_sorted k [] = k ∷ []
insert_sorted k (x ∷ xs) =
    let rest = insert_sorted k xs in if codes_before x k then x ∷ rest else k ∷ x ∷ xs

abbrev pub sorted : List String → List String
sorted [] = []
sorted (k ∷ ks) = insert_sorted k (sorted ks)

-- `", ".join(names)`
abbrev pub join : List String → String
join [] = ""
join (k ∷ []) = k
join (k ∷ (j ∷ ks)) = append k (append ", " (join (j ∷ ks)))

abbrev refuse_fields : String → String → List String → Outcome (Unit {0})
refuse_fields event_type kind [] = ok tt
refuse_fields event_type kind (k ∷ ks) =
    raised (event_validation_error event_type (append kind (join (sorted (k ∷ ks)))))

-- The loop over the fields of the payload.
unfoldable pub validate_fields : String → PayloadCodec → JsonObject → Outcome (Unit {0})
unfolding validator_of
validate_fields event_type codec end = ok tt
validate_fields event_type codec (field k v payload) =
    let rest = validate_fields event_type codec payload in
    if validator_of codec k v
    then rest
    else raised
        (event_validation_error event_type (append "field " (append k " has an invalid type")))

-- `_PayloadCodec.validate`. Its last call, `canonical_json(payload)`, refuses what is not a JSON value or
-- not a finite number; a payload here is a JSON value, and a number one that has a canonical text.
unfoldable pub validate : String → PayloadCodec → JsonObject → Outcome (Unit {0})
unfolding missing_fields unknown_fields validate_fields
validate event_type codec payload = do
  refuse_fields event_type "missing fields: " (missing_fields codec.required payload)
  refuse_fields event_type "unknown fields: "
      (unknown_fields (codec.required ++ codec.optional) payload)
  validate_fields event_type codec payload
