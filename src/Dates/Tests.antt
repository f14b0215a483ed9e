-- ===== src/Dates/Tests.antt =====
-- Dates as the sources write them.
use universal_race_calendar.Common.{◌≡◌, refl, ◌↔◌, true, none, some, codes}
use universal_race_calendar.Common.Units.{Units, clean_text}
use universal_race_calendar.Dates.{normalize_date, is_valid_iso_date}
use universal_race_calendar.Dates.Normal.{normalize_date_fixed_iff}

abbrev this_year : Units
this_year = codes "2026"

with_time :
    normalize_date this_year (some (codes " em 2026-11-08T07:00 ")) ≡ some (codes "2026-11-08")
unfolding normalize_date clean_text
with_time = refl

short_year : normalize_date this_year (some (codes "8/3/27")) ≡ some (codes "2027-03-08")
unfolding normalize_date clean_text
short_year = refl

no_year : normalize_date this_year (some (codes "08.03")) ≡ some (codes "2026-03-08")
unfolding normalize_date clean_text
no_year = refl

no_such_day : normalize_date this_year (some (codes "2026-02-29")) ≡ none
unfolding normalize_date clean_text
no_such_day = refl

normalize_date_fixed_iff_example :
    (normalize_date this_year (some (codes "2028-02-29")) ≡ some (codes "2028-02-29"))
    ↔ (is_valid_iso_date (codes "2028-02-29") ≡ true)
normalize_date_fixed_iff_example = normalize_date_fixed_iff this_year (codes "2028-02-29")
