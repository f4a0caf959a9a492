-- ===== src/Json/Laws.antt =====
-- Laws of the dictionary operations.
use aizim.Prelude.{
  ◌≡◌, refl, sym, ap, ◌∙◌, Bool-cases, inl, inr, Bool, true, false, ◌&&◌, Option, none, some,
  String, same_text, if◌then◌else◌, arith, eq_iff,
}
use mathlib.Core.Bool.{false≢true}
use mathlib.Core.Path.{subst}
use aizim.Json.{
  pos, negsuc, integer_eq, float, as_natural, get_natural, JsonValue, JsonObject, null, boolean,
  integer, string, array, object, end, field, as_text, get, put, merge, value_eq, object_within,
  object_eq, get_text,
}

pub get-put :
    (k j : String) (v : JsonValue) (o : JsonObject)
    → get j (put k v o) ≡ (if same_text k j then some v else get j o)
unfolding get put
get-put k j v end = refl
get-put k j v (field i w o) = ground (arith, eq_iff k j, eq_iff i k, eq_iff i j, get-put k j v o)

abbrev pub or_else {ℓ} : {A : Type ℓ} → Option A → Option A → Option A
or_else none o = o
or_else (some a) o = some a

pub get-merge :
    (j : String) (old new : JsonObject) → get j (merge old new) ≡ or_else (get j new) (get j old)
unfolding get merge
get-merge j old end = refl
get-merge j old (field k v o) = ground (arith, get-put k j v (merge old o), get-merge j old o)

and-eq_true : (a b : Bool) → (a && b) ≡ true → (a ≡ true) × (b ≡ true)
and-eq_true a b h = ground arith

-- Equal values are the same text, or no text, and the same natural number, or none.
value_eq-scalars :
    (v w : JsonValue)
    → value_eq v w ≡ true
    → (as_text v ≡ as_text w) × (as_natural v ≡ as_natural w)
unfolding value_eq integer_eq
value_eq-scalars (string t) (string u) h = (ap some ((eq_iff t u).0 h), refl)
value_eq-scalars (integer (pos a)) (integer (pos b)) h = (refl, ground arith)
value_eq-scalars (integer (pos a)) (integer (negsuc b)) h = ground arith
value_eq-scalars (integer (negsuc a)) (integer (pos b)) h = ground arith
value_eq-scalars (integer (negsuc a)) (integer (negsuc b)) h = (refl, refl)
value_eq-scalars null null h = (refl, refl)
value_eq-scalars (boolean a) (boolean b) h = (refl, refl)
value_eq-scalars (float a) (float b) h = (refl, refl)
value_eq-scalars (array a) (array b) h = (refl, refl)
value_eq-scalars (object a) (object b) h = (refl, refl)
value_eq-scalars _ _ h = ground arith

value_eq-as_text :
    (s : String) (v w : JsonValue) → value_eq v w ≡ true → as_text v ≡ some s → as_text w ≡ some s
value_eq-as_text s v w h e = sym (value_eq-scalars v w h).0 ∙ e

pub get_text-field :
    (k j : String) (v : JsonValue) (o : JsonObject)
    → get_text k (field j v o) ≡ (if same_text j k then as_text v else get_text k o)
unfolding get_text get
get_text-field k j v o = ground arith

get_text-of_get :
    (k : String) {w : JsonValue} (o : JsonObject) → get k o ≡ some w → get_text k o ≡ as_text w
unfolding get_text
get_text-of_get k o e = ground arith

-- The first entry of a dictionary that lies within another, and the rest.
object_within-field :
    (j : String) (v : JsonValue) (o b : JsonObject)
    → object_within (field j v o) b ≡ true
    → ((w : JsonValue) × (get j b ≡ some w) × (value_eq v w ≡ true)) × (object_within o b ≡ true)
unfolding object_within
object_within-field j v o b h = go (get j b) refl h
  where
    go :
        (found : Option JsonValue)
        → get j b ≡ found
        → elim found [ none ↦ false | some w ↦ value_eq v w ] && object_within o b ≡ true
        → ((w : JsonValue) × (get j b ≡ some w) × (value_eq v w ≡ true))
          × (object_within o b ≡ true)
    go none e p = absurd (false≢true p)
    go (some w) e p = ((w, e, (and-eq_true _ _ p).0), (and-eq_true _ _ p).1)

-- What a dictionary that lies within another holds under a key, the other holds an equal of.
object_within-get :
    (k : String) (v : JsonValue) (a b : JsonObject)
    → object_within a b ≡ true
    → get k a ≡ some v
    → (w : JsonValue) × (get k b ≡ some w) × (value_eq v w ≡ true)
unfolding get
object_within-get k v end b h e = ground arith
object_within-get k v (field j u a) b h e =
    let ((w, found, same), rest) = object_within-field j u a b h in
    elim (Bool-cases (same_text j k)) [
      | inl t ↦
          let value : u ≡ v = ground (arith, t, e) in
          (
            w,
            ap (λ i. get i b) (sym ((eq_iff j k).0 t)) ∙ found,
            subst (λ x. value_eq x w ≡ true) value same,
          )
      | inr n ↦ object_within-get k v a b rest (ground (arith, n, e))
    ]

-- A dictionary that is equal to another holds the same text and the same natural number under each of
-- the other's keys.
pub object_eq-scalars :
    (k : String) (v : JsonValue) (a b : JsonObject)
    → object_eq a b ≡ true
    → get k a ≡ some v
    → (get_text k b ≡ as_text v) × (get_natural k b ≡ as_natural v)
unfolding object_eq get_text get_natural
object_eq-scalars k v a b h e =
    let (w, found, same) = object_within-get k v a b (ground arith) e in
    let (texts, naturals) = value_eq-scalars v w same in
    (
      ap (λ o. elim o [ none ↦ none | some x ↦ as_text x ]) found ∙ sym texts,
      ap (λ o. elim o [ none ↦ none | some x ↦ as_natural x ]) found ∙ sym naturals,
    )

-- A text that one dictionary holds under a key is held by every dictionary that has its entries.
pub object_within-get_text :
    (k s : String) (a b : JsonObject)
    → object_within a b ≡ true
    → get_text k a ≡ some s
    → get_text k b ≡ some s
object_within-get_text k s end b h e = unfold get_text get in ground arith
object_within-get_text k s (field j v a) b h e =
    let ((w, found, same), rest) = object_within-field j v a b h in
    ground (
      arith,
      eq_iff j k,
      get_text-field k j v a,
      value_eq-as_text s v w same,
      get_text-of_get j b found,
      object_within-get_text k s a b rest,
    )

-- Equal dictionaries hold the same text under a key.
pub object_eq-get_text :
    (k s : String) (a b : JsonObject)
    → object_eq a b ≡ true
    → get_text k a ≡ some s
    → get_text k b ≡ some s
unfolding object_eq
object_eq-get_text k s a b h e = object_within-get_text k s a b (ground arith) e
