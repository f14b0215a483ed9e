-- ===== src/Clock/Tests.antt =====
-- The weekly clock in a zone three hours behind UTC, in November 2026, and the theorems there.
use universal_race_calendar.Common.{
  ℕ, ◌+◌, ◌-◌, ◌*◌, ◌/◌, ◌%◌, ◌≤◌, ◌<◌, ◌≡◌, refl, inl, inr, ◌⊎◌, none, some, ok, arith,
}
use universal_race_calendar.Clock.{
  WallTime, WeeklyOccurrence, on_day, wall_number, minute_ms, day_ms, probe_offsets, probe_from,
  offset_at, candidates, shift_from, resolve_occurrence, iso_weekday, default_weekly_slot,
  Coalesced, parse_day, validate_now, validate_slot, weekly_occurrence_at_or_before,
  weekly_occurrence_after, coalesce_weekly_occurrences,
}
use universal_race_calendar.Clock.Resolve.{
  IsResolved, resolve_occurrence-IsResolved, resolve_occurrence_complete,
}
use universal_race_calendar.Clock.Weekly.{
  IsZone, IsLatest, IsCoalesced, weekly_occurrence_at_or_before-IsLatest,
  coalesce_weekly_occurrences-IsCoalesced,
}

three_behind : ℕ → WallTime
three_behind t =
    let w = t - 10800000 in
    record { day = w / day_ms; hour = w % day_ms / 3600000; minute = w % 3600000 / 60000 }

three_behind-IsZone : IsZone three_behind
unfolding three_behind
three_behind-IsZone = record {
  hours = λ t. omega arith;
  minutes = λ t. omega arith;
  forward = λ t u h. omega arith;
  behind = λ t. omega arith;
}

-- Monday 23 November 2026 at 08:00 local time, and the Mondays about it.
abbrev monday : ℕ → WeeklyOccurrence
monday week = record {
  local_date = on_day (740294 + 7 * week);
  scheduled_at = (740294 + 7 * week) * day_ms + 11 * 3600000;
  shifted_minutes = 0;
}

-- Thursday 26 November 2026 at 16:00 UTC.
abbrev now : ℕ
now = 740311 * day_ms + 16 * 3600000

program : Unit {0}
unfolding resolve_occurrence shift_from candidates probe_offsets probe_from offset_at wall_number
    three_behind weekly_occurrence_at_or_before weekly_occurrence_after coalesce_weekly_occurrences
    parse_day validate_now validate_slot iso_weekday
program = tt

resolved : resolve_occurrence three_behind 740308 default_weekly_slot ≡ ok (monday 2)
unfolding program
resolved = refl

at_or_before : weekly_occurrence_at_or_before three_behind now default_weekly_slot ≡ ok (monday 2)
unfolding program
at_or_before = refl

later : weekly_occurrence_after three_behind now default_weekly_slot ≡ ok (monday 3)
unfolding program
later = refl

abbrev two_weeks : Coalesced
two_weeks = record {
  latest = monday 2;
  first_due = on_day 740294;
  coalesced_weeks = 2;
  next_due = monday 3;
}

coalesced :
    coalesce_weekly_occurrences three_behind (on_day 740294) now default_weekly_slot
    ≡ ok (some two_weeks)
unfolding program
coalesced = refl

resolve_occurrence-IsResolved_example :
    IsResolved three_behind
      (probe_offsets three_behind (740308 * day_ms + 480 * minute_ms))
      740308
      (740308 * day_ms + 480 * minute_ms)
      (monday 2)
    × (0 ≤ 180)
resolve_occurrence-IsResolved_example =
    resolve_occurrence-IsResolved three_behind 740308 default_weekly_slot {occ = monday 2} resolved

resolve_occurrence_complete_example :
    (occ : WeeklyOccurrence) × (resolve_occurrence three_behind 740308 default_weekly_slot ≡ ok occ)
    × (occ.shifted_minutes ≤ 0)
unfolding program
resolve_occurrence_complete_example =
    resolve_occurrence_complete three_behind 740308 default_weekly_slot 0
      (740308 * day_ms + 11 * 3600000) (740308 * day_ms + 480 * minute_ms) (omega arith) refl refl
      (inr (inr (inr (inl refl)))) refl

weekly_occurrence_at_or_before-IsLatest_example :
    (day : ℕ) × IsLatest three_behind three_behind-IsZone now default_weekly_slot (monday 2) day
weekly_occurrence_at_or_before-IsLatest_example =
    weekly_occurrence_at_or_before-IsLatest three_behind three_behind-IsZone now default_weekly_slot
      (monday 2) at_or_before

coalesce_weekly_occurrences-IsCoalesced_example :
    (first : ℕ) × (on_day 740294 ≡ on_day first)
    × (iso_weekday first ≡ 1)
    × (due : WeeklyOccurrence) × (resolve_occurrence three_behind first default_weekly_slot
        ≡ ok due)
    × (((now < due.scheduled_at) × (some two_weeks ≡ none))
        ⊎ ((due.scheduled_at ≤ now)
            × ((c : Coalesced) × (some two_weeks ≡ some c)
                × IsCoalesced three_behind three_behind-IsZone first now default_weekly_slot c)))
coalesce_weekly_occurrences-IsCoalesced_example =
    coalesce_weekly_occurrences-IsCoalesced three_behind three_behind-IsZone (on_day 740294) now
      default_weekly_slot (some two_weeks) coalesced
