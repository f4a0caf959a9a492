-- ===== src/Json.antt =====
-- JSON values (domain/serialization.py, `JsonValue`) and the dictionary operations on payloads.
-- A column that holds JSON text is modelled by the value that it encodes: `canonical_json` is one
-- text for equal values, and `json.loads` gives the value back. A floating-point number, which the code
-- never computes with, is kept as the text that `canonical_json` writes for it.
pub mod Laws
use aizim.Prelude.{
  ℕ, Bool, true, false, ◌&&◌, Option, none, some, String, ◌==◌, suc, same_text, if◌then◌else◌,
}

-- A Python integer; `negsuc n` is -(n + 1).
pub data ℤ : Type 0 where
  pos : ℕ → ℤ
  negsuc : ℕ → ℤ

mutual
  pub data JsonValue : Type 0 where
    null : JsonValue
    boolean : Bool → JsonValue
    integer : ℤ → JsonValue
    float : String → JsonValue
    string : String → JsonValue
    array : JsonArray → JsonValue
    object : JsonObject → JsonValue

  pub data JsonArray : Type 0 where
    nil : JsonArray
    cons : JsonValue → JsonArray → JsonArray

  pub data JsonObject : Type 0 where
    end : JsonObject
    field : String → JsonValue → JsonObject → JsonObject

-- `payload.get(key)`
unfoldable pub get : String → JsonObject → Option JsonValue
get k end = none
get k (field j v o) = if same_text j k then some v else get k o

-- `payload[key] = value`
unfoldable pub put : String → JsonValue → JsonObject → JsonObject
put k v end = field k v end
put k v (field j w o) = if same_text j k then field k v o else field j w (put k v o)

-- `{**old, **new}`
unfoldable pub merge : JsonObject → JsonObject → JsonObject
unfolding put
merge old end = old
merge old (field k v o) = put k v (merge old o)

unfoldable pub size : JsonObject → ℕ
size end = 0
size (field k v o) = suc (size o)

unfoldable pub integer_eq : ℤ → ℤ → Bool
integer_eq (pos a) (pos b) = a == b
integer_eq (negsuc a) (negsuc b) = a == b
integer_eq _ _ = false

abbrev pub boolean_eq : Bool → Bool → Bool
boolean_eq true b = b
boolean_eq false true = false
boolean_eq false false = true

-- Equality of the canonical texts of two values: a dictionary does not depend on the order of its keys.
-- Python's `==` also takes `True` for 1 and 1.0 for 1. The fields that the code compares with it are
-- those of events that have passed a test for one type each, so that the two agree there.
unfoldable mutual
  unfolding integer_eq get size

  pub value_eq : JsonValue → JsonValue → Bool
  value_eq null null = true
  value_eq (boolean a) (boolean b) = boolean_eq a b
  value_eq (integer a) (integer b) = integer_eq a b
  value_eq (float a) (float b) = same_text a b
  value_eq (string a) (string b) = same_text a b
  value_eq (array a) (array b) = array_eq a b
  value_eq (object a) (object b) = size a == size b && object_within a b
  value_eq _ _ = false

  pub array_eq : JsonArray → JsonArray → Bool
  array_eq nil nil = true
  array_eq (cons a x) (cons b y) = value_eq a b && array_eq x y
  array_eq _ _ = false

  -- Every key of the first dictionary is in the second, with an equal value.
  pub object_within : JsonObject → JsonObject → Bool
  object_within end b = true
  object_within (field k v o) b =
      elim (get k b) [ none ↦ false | some w ↦ value_eq v w ] && object_within o b

unfoldable pub object_eq : JsonObject → JsonObject → Bool
unfolding value_eq
object_eq a b = size a == size b && object_within a b

-- `value if type(value) is str`
abbrev pub as_text : JsonValue → Option String
as_text (string s) = some s
as_text _ = none

-- `value if type(value) is int and value >= 0` (a Boolean is not an integer there)
abbrev pub as_natural : JsonValue → Option ℕ
as_natural (integer (pos n)) = some n
as_natural _ = none

abbrev pub as_object : JsonValue → Option JsonObject
as_object (object o) = some o
as_object _ = none

unfoldable pub get_text : String → JsonObject → Option String
get_text k o = elim (get k o) [ none ↦ none | some v ↦ as_text v ]

unfoldable pub get_natural : String → JsonObject → Option ℕ
get_natural k o = elim (get k o) [ none ↦ none | some v ↦ as_natural v ]

abbrev pub as_integer : JsonValue → Option ℤ
as_integer (integer n) = some n
as_integer _ = none

unfoldable pub get_integer : String → JsonObject → Option ℤ
get_integer k o = elim (get k o) [ none ↦ none | some v ↦ as_integer v ]

unfoldable pub get_object : String → JsonObject → Option JsonObject
get_object k o = elim (get k o) [ none ↦ none | some v ↦ as_object v ]

-- `None` or a text.
abbrev pub text_or_null : Option String → JsonValue
text_or_null none = null
text_or_null (some s) = string s
