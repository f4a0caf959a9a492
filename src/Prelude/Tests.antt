-- ===== src/Prelude/Tests.antt =====
-- Boolean tests on numbers and texts, the conditional, and case splits that keep the equation.
use Prim.Native.Nat.{ℕ, compare, Ordering}
use Prim.Native.Char.{code}
use Prim.Native.String.{String}
use mathlib.Core.Path.{◌≡◌, refl}
use mathlib.Core.Logic.{◌⊎◌, inl, inr}
use mathlib.Core.Bool.{Bool, true, false}
use mathlib.Core.Option.{Option, none, some}
use native.Mathlib.Omega.{arith}
use text.Mathlib.Text
use text.Mathlib.TextEquality.{eq_iff}

abbrev pub ltb : ℕ → ℕ → Bool
ltb a b = elim (compare a b) [ Ordering.lt ↦ true | _ ↦ false ]

abbrev pub leb : ℕ → ℕ → Bool
leb a b = elim (compare a b) [ Ordering.gt ↦ false | _ ↦ true ]

infix 50 ◌==◌
-- Equality of numbers.
abbrev pub ◌==◌ : ℕ → ℕ → Bool
a == b = elim (compare a b) [ Ordering.eq ↦ true | _ ↦ false ]

-- Equality of texts.
abbrev pub same_text : String → String → Bool
same_text a b = Text.◌==◌ a b

-- The order of texts by their code points, which is the order of a column of text.
unfoldable pub codes_before : String → String → Bool
codes_before String.[] String.[] = false
codes_before String.[] (String.◌∷◌ d t) = true
codes_before (String.◌∷◌ c s) String.[] = false
codes_before (String.◌∷◌ c s) (String.◌∷◌ d t) =
    let rest = codes_before s t in
    elim (compare (code c) (code d)) [
      | Ordering.lt ↦ true
      | Ordering.eq ↦ rest
      | Ordering.gt ↦ false
    ]

infix 1 if◌then◌else◌
abbrev pub if◌then◌else◌ {ℓ} : {A : Type ℓ} → Bool → A → A → A
if true then x else y = x
if false then x else y = y

-- Equality of texts that may be missing (`None`).
abbrev pub same_text? : Option String → Option String → Bool
same_text? none none = true
same_text? (some a) (some b) = same_text a b
same_text? _ _ = false

pub same_text?-eq : (a b : Option String) → same_text? a b ≡ true → a ≡ b
same_text?-eq none none h = refl
same_text?-eq none (some b) h = ground arith
same_text?-eq (some a) none h = ground arith
same_text?-eq (some a) (some b) h = ground (arith, eq_iff a b)

abbrev pub is_some {ℓ} : {A : Type ℓ} → Option A → Bool
is_some none = false
is_some (some _) = true

pub Bool-cases : (b : Bool) → (b ≡ true) ⊎ (b ≡ false)
Bool-cases true = inl refl
Bool-cases false = inr refl

pub Option-cases {ℓ} : {A : Type ℓ} (o : Option A) → (o ≡ none) ⊎ ((a : A) × (o ≡ some a))
Option-cases none = inl refl
Option-cases (some a) = inr (a, refl)
