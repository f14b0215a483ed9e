-- ===== src/Pilot/Tests.antt =====
-- A collection under the pilot of Santa Catarina.
use universal_race_calendar.Common.{ℕ, ◌≡◌, refl, String, Option, none, some, [], ◌∷◌, ok, err, ◌↔◌}
use universal_race_calendar.Queue.Json.{
  Json, num, minus, str, arr, obj, nil, cons, end, field, get_field,
}
use universal_race_calendar.Pilot.{
  CatalogPilot, Conversions, Number, natural, negative, IsQuantity, IsScope, assert_pilot_task,
  assert_pilot_task-calendar_iff,
}

plain_number : Json → Option Number
plain_number (num n) = some (natural n)
plain_number (minus n) = some (negative n)
plain_number _ = none

plain_text : Json → String
plain_text (str s) = s
plain_text _ = ""

plain : Conversions
unfolding plain_number plain_text
plain = record {
  number = plain_number;
  text = plain_text;
  number_num = λ n. refl;
  number_minus = λ n. refl;
  text_str = λ s. refl;
}

abbrev santa_catarina : CatalogPilot
santa_catarina = record {
  states = "SC" ∷ [];
  batch_size = 5;
  prefix_limit = 25;
  collection_quantity = 5;
}

abbrev asked : ℕ → String → Json
asked n state = obj (field "quantity" (num n) (field "states" (arr (cons (str state) nil)) end))

too_many :
    assert_pilot_task plain (some santa_catarina) "calendar" (asked 6 "SC")
    ≡ err "pilot_scope_exceeded"
unfolding assert_pilot_task plain
too_many = refl

elsewhere :
    assert_pilot_task plain (some santa_catarina) "calendar" (asked 5 "SP")
    ≡ err "pilot_scope_exceeded"
unfolding assert_pilot_task plain
elsewhere = refl

assert_pilot_task-calendar_iff_example :
    (assert_pilot_task plain (some santa_catarina) "calendar" (asked 5 "SC") ≡ ok tt) ↔ (
      IsQuantity plain 5 (some (num 5))
      × IsScope plain ("SC" ∷ []) (get_field "states" (asked 5 "SC")))
assert_pilot_task-calendar_iff_example =
    assert_pilot_task-calendar_iff plain santa_catarina (asked 5 "SC")

-- A quantity below zero passes.
below : Json
below = obj (field "quantity" (minus 4) (field "states" (arr (cons (str "SC") nil)) end))

below_passes : assert_pilot_task plain (some santa_catarina) "calendar" below ≡ ok tt
unfolding assert_pilot_task plain below
below_passes = refl
