-- ===== src/Countries/Tests.antt =====
-- Countries of labelled fields and of places.
use universal_race_calendar.Common.{◌≡◌, refl, true, false, some, codes}
use universal_race_calendar.Common.Units.{lower_all, upper_all, clean_text}
use universal_race_calendar.Countries.{
  Letters, collect, split_commas, country_from_explicit_value, country_from_location_text,
}
use universal_race_calendar.Countries.Fixed.{IsAsciiLetters, country_from_explicit_value_fixed}

plain : Letters
plain = record { strip_accents = λ s. s; to_lower = lower_all; to_upper = upper_all }

plain-IsAsciiLetters : IsAsciiLetters plain
unfolding plain
plain-IsAsciiLetters = record { strips = λ s h. refl; lowers = λ s h. refl; uppers = λ s h. refl }

place : country_from_location_text plain (some (codes "Lisboa, Portugal.")) ≡ record {
  country = some (codes "PT");
  source_text = some (codes "Portugal");
  conflicting = false;
}
unfolding plain country_from_location_text collect split_commas clean_text
place = refl

two_countries : (country_from_location_text plain (some (codes "Chile;Brasil"))).conflicting ≡ true
unfolding plain country_from_location_text collect split_commas clean_text
two_countries = refl

country_from_explicit_value_fixed_example :
    country_from_explicit_value plain (some (codes "BR"))
    ≡ record { country = some (codes "BR"); source_text = some (codes "BR") }
unfolding plain country_from_explicit_value clean_text
country_from_explicit_value_fixed_example =
    country_from_explicit_value_fixed plain plain-IsAsciiLetters (some (codes " Brasil. "))
      (codes "BR") refl
