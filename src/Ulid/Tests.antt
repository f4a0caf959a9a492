-- ===== src/Ulid/Tests.antt =====
-- Identifiers of a clock that goes back, and the theorems at them.
use aizim.Prelude.{◌<◌, ◌≡◌, refl, some, arith}
use aizim.Ulid.{
  UlidState, tick, value_of, digits, number, randomness_limit, tick-rises, number-digits,
}

abbrev full : UlidState
full = record { last_milliseconds = some 7; randomness = 1208925819614629174706175 }

tick-rises_example :
    (value_of full < value_of (tick 3 9 full)) × ((tick 3 9 full).randomness < randomness_limit)
tick-rises_example = tick-rises 3 9 7 full refl (omega arith) (omega arith)

number-digits_example : number 0 (digits 26 1234567) ≡ 1234567
number-digits_example = number-digits 26 1234567 (omega arith)
