-- ===== src/Ulid.antt =====
-- The factory of event identifiers (state/events.py, `MonotoneUlidFactory`). The clock's milliseconds
-- and the random bits are arguments; a character of the alphabet is its index.
mod Tests
use aizim.Prelude.{
  ℕ, zero, suc, ◌+◌, ◌*◌, ◌/◌, ◌%◌, ◌^◌, ◌≡◌, ◌<◌, ◌≤◌, refl, sym, ap, ◌∙◌, Bool, true, false,
  Option, none, some, List, [], ◌∷◌, ◌++◌, ltb, leb, if◌then◌else◌, arith,
}

-- The last milliseconds are missing where Python starts with -1.
pub record UlidState : Type 0 where
  pub last_milliseconds : Option ℕ
  pub randomness : ℕ

-- `1 << 80`
abbrev pub randomness_limit : ℕ
randomness_limit = 1208925819614629174706176

abbrev pub start : UlidState
start = record { last_milliseconds = none; randomness = 0 }

-- The test and the three updates of `__call__`
unfoldable pub tick : ℕ → ℕ → UlidState → UlidState
tick milliseconds bits s = elim s.last_milliseconds [
  | none ↦ record { last_milliseconds = some milliseconds; randomness = bits }
  | some last ↦
      if ltb last milliseconds
      then record { last_milliseconds = some milliseconds; randomness = bits }
      else if leb randomness_limit (s.randomness + 1)
      then record { last_milliseconds = some (last + 1); randomness = 0 }
      else record { last_milliseconds = some last; randomness = s.randomness + 1 }
]

-- `(last << 80) | randomness`, where the randomness has no more than 80 bits
unfoldable pub value_of : UlidState → ℕ
value_of s = elim s.last_milliseconds [
  | none ↦ s.randomness
  | some last ↦ last * randomness_limit + s.randomness
]

-- The loop over the characters, from the last one to the first
unfoldable pub digits : ℕ → ℕ → List ℕ
digits zero value = []
digits (suc n) value = digits n (value / 32) ++ value % 32 ∷ []

-- `__call__`
unfoldable pub next_ulid : ℕ → ℕ → UlidState → List ℕ × UlidState
unfolding tick value_of digits
next_ulid milliseconds bits s = let s' = tick milliseconds bits s in (digits 26 (value_of s'), s')

-- The number that some characters stand for, after those of another number.
unfoldable pub number : ℕ → List ℕ → ℕ
number a [] = a
number a (d ∷ ds) = number (a * 32 + d) ds

-- Whatever the clock says, even where it stands still or goes back, an identifier's number is greater
-- than the one before it, and the randomness stays below 2^80, as the random bits and the randomness
-- before it were.
pub tick-rises :
    (milliseconds bits last : ℕ) (s : UlidState)
    → s.last_milliseconds ≡ some last
    → s.randomness < randomness_limit
    → bits < randomness_limit
    → (value_of s < value_of (tick milliseconds bits s))
      × ((tick milliseconds bits s).randomness < randomness_limit)
unfolding tick value_of
tick-rises milliseconds bits last s h r b = (ground arith, ground arith)

number-append : (a d : ℕ) (l : List ℕ) → number a (l ++ d ∷ []) ≡ number a l * 32 + d
unfolding number
number-append a d [] = refl
number-append a d (x ∷ l) = number-append (a * 32 + x) d l

-- The characters of a number that fits into them stand for that number.
pub number-digits : (n value : ℕ) → value < 32 ^ n → number 0 (digits n value) ≡ value
unfolding digits number
number-digits zero value h = omega arith
number-digits (suc n) value h =
    number-append 0 (value % 32) (digits n (value / 32))
    ∙ ap (λ x. x * 32 + value % 32) (number-digits n (value / 32) (omega (arith, h)))
    ∙ omega arith
