-- ===== src/Clock.antt =====
-- packages/database/src/catalog-weekly-clock.ts: the weekly recurrence in the zone of the catalogue.
pub mod Resolve
pub mod Weekly
mod Tests
use universal_race_calendar.Common.{
  ℕ, zero, suc, ◌+◌, ◌-◌, ◌*◌, ◌/◌, ◌%◌, ◌≤◌, Bool, true, false, ◌&&◌, ◌||◌, not, Option, none,
  some, List, [], ◌∷◌, map, ltb, leb, ◌==◌, if◌then◌else◌, any, keep, Result, ok, err, ◌>>=◌, ◌>>◌,
  throw_if, min,
}

-- Instants are milliseconds from 0000-01-01T00:00Z, and days are counted from that day; the year
-- range that `validateNow` and `parseDay` admit lies well above.
abbrev pub minute_ms : ℕ
minute_ms = 60000

abbrev pub day_ms : ℕ
day_ms = 86400000

-- 1900-01-01 and 9999-01-01.
abbrev pub first_day : ℕ
first_day = 693961

abbrev end_day : ℕ
end_day = 3652060

pub record WeeklySlot : Type 0 where
  pub weekday : ℕ
  pub hour : ℕ
  pub minute : ℕ

abbrev pub default_weekly_slot : WeeklySlot
default_weekly_slot = record { weekday = 1; hour = 8; minute = 0 }

pub data ClockError : Type 0 where
  time_invalid date_invalid time_unresolvable : ClockError

-- The fields of the formatter, year, month and day together as a day number.
pub record WallTime : Type 0 where
  pub day : ℕ
  pub hour : ℕ
  pub minute : ℕ

unfoldable pub wall_number : WallTime → ℕ
wall_number time = time.day * day_ms + (time.hour * 60 + time.minute) * minute_ms

unfoldable pub validate_slot : WeeklySlot → Result ClockError (Unit {0})
validate_slot slot =
    throw_if (ltb slot.weekday 1 || ltb 7 slot.weekday || ltb 23 slot.hour || ltb 59 slot.minute)
      time_invalid

unfoldable pub validate_now : ℕ → Result ClockError (Unit {0})
validate_now now =
    throw_if (ltb (now / day_ms) first_day || leb end_day (now / day_ms)) time_invalid

-- A `localDate` text: the day that a well-formed `YYYY-MM-DD` names, or any other text.
pub data LocalDate : Type 0 where
  on_day : ℕ → LocalDate
  malformed : LocalDate

-- The day number of the text; a day before 1900 is refused too.
unfoldable pub parse_day : LocalDate → Result ClockError ℕ
parse_day malformed = err date_invalid
parse_day (on_day day) = if ltb day first_day then err date_invalid else ok day

pub record WeeklyOccurrence : Type 0 where
  pub local_date : LocalDate
  pub scheduled_at : ℕ
  pub shifted_minutes : ℕ

-- `wallNumber(wallTime(instant)) - instant`, as the two numbers.
pub record Offset : Type 0 where
  pub wall : ℕ
  pub instant : ℕ

abbrev pub same_offset : Offset → Offset → Bool
same_offset a b = a.wall + b.instant == b.wall + a.instant

-- `offsets.add(…)` of a `Set`
abbrev pub add_offset : List Offset → Offset → List Offset
add_offset offsets o = if any (same_offset o) offsets then offsets else o ∷ offsets

-- `candidates.sort((a, b) => a - b)[0]`
abbrev pub earliest : List ℕ → Option ℕ
earliest [] = none
earliest (x ∷ xs) = elim (earliest xs) [ none ↦ some x | some y ↦ some (min x y) ]

-- `new Date(day).getUTCDay() || 7`
unfoldable pub iso_weekday : ℕ → ℕ
iso_weekday day = let w = (day + 6) % 7 in if w == 0 then 7 else w

-- The instants of the loop over `delta`: the hours -36, -24, …, 36 about the target.
abbrev pub probes : ℕ → List ℕ
probes target =
    let h : ℕ = 3600000 in
    (target - 36 * h)
    ∷ (target - 24 * h)
    ∷ (target - 12 * h)
    ∷ target
    ∷ (target + 12 * h)
    ∷ (target + 24 * h)
    ∷ (target + 36 * h)
    ∷ []

-- The formatter of the zone is the runtime's: a parameter.
module _ (wall_time : ℕ → WallTime) where
  pub offset_at : ℕ → Offset
  offset_at instant = record { wall = wall_number (wall_time instant); instant = instant }

  -- The loop over `delta`.
  pub probe_from : List Offset → List ℕ → List Offset
  probe_from offsets [] = offsets
  probe_from offsets (instant ∷ rest) = probe_from (add_offset offsets (offset_at instant)) rest

  pub probe_offsets : ℕ → List Offset
  probe_offsets target = probe_from [] (probes target)

  pub candidates : List Offset → ℕ → List ℕ
  candidates offsets wall =
      keep (λ instant. wall_number (wall_time instant) == wall)
        (map (λ o. wall + o.instant - o.wall) offsets)

  -- The loop over `shiftedMinutes`, with the rounds that are left.
  pub shift_from : ℕ → List Offset → ℕ → ℕ → ℕ → Result ClockError WeeklyOccurrence
  shift_from zero offsets day target shifted = err time_unresolvable
  shift_from (suc rounds) offsets day target shifted =
      let wall = target + shifted * minute_ms in
      let rest = shift_from rounds offsets day target (shifted + 1) in
      if not (wall / day_ms == day)
      then err time_unresolvable
      else elim (earliest (candidates offsets wall)) [
        | none ↦ rest
        | some instant ↦
            ok (record {
              local_date = on_day day;
              scheduled_at = instant;
              shifted_minutes = shifted;
            })
      ]

  unfoldable pub resolve_occurrence : ℕ → WeeklySlot → Result ClockError WeeklyOccurrence
  resolve_occurrence day slot =
      let target = day * day_ms + (slot.hour * 60 + slot.minute) * minute_ms in
      shift_from 181 (probe_offsets target) day target 0

  -- The nominal day at or before today.
  unfoldable pub latest_day : ℕ → WeeklySlot → ℕ
  latest_day now slot =
      let today = (wall_time now).day in today - (iso_weekday today + 7 - slot.weekday) % 7

  unfoldable pub weekly_occurrence_at_or_before :
      ℕ → WeeklySlot → Result ClockError WeeklyOccurrence
  unfolding latest_day
  weekly_occurrence_at_or_before now slot = do
    validate_now now
    validate_slot slot
    let day = latest_day now slot
    occurrence ← resolve_occurrence day slot
    if ltb now occurrence.scheduled_at then resolve_occurrence (day - 7) slot else ok occurrence

  unfoldable pub weekly_occurrence_after : ℕ → WeeklySlot → Result ClockError WeeklyOccurrence
  weekly_occurrence_after now slot = do
    previous ← weekly_occurrence_at_or_before now slot
    day ← parse_day previous.local_date
    resolve_occurrence (day + 7) slot

pub record Coalesced : Type 0 where
  pub latest : WeeklyOccurrence
  pub first_due : LocalDate
  pub coalesced_weeks : ℕ
  pub next_due : WeeklyOccurrence

module _ (wall_time : ℕ → WallTime) where
  -- The part of `coalesceWeeklyOccurrences` behind its early return.
  pub coalesce_due : LocalDate → ℕ → ℕ → WeeklySlot → Result ClockError (Option Coalesced)
  coalesce_due next_date first now slot = do
    latest ← weekly_occurrence_at_or_before wall_time now slot
    last ← parse_day latest.local_date
    throw_if (ltb last first || not ((last - first) % 7 == 0)) date_invalid
    again ← parse_day latest.local_date
    next ← resolve_occurrence wall_time (again + 7) slot
    ok (
        some (record {
          latest = latest;
          first_due = next_date;
          coalesced_weeks = (last - first) / 7;
          next_due = next;
        }))

  unfoldable pub coalesce_weekly_occurrences :
      LocalDate → ℕ → WeeklySlot → Result ClockError (Option Coalesced)
  unfolding coalesce_due
  coalesce_weekly_occurrences next_date now slot = do
    validate_now now
    validate_slot slot
    first ← parse_day next_date
    throw_if (not (iso_weekday first == slot.weekday)) date_invalid
    due ← resolve_occurrence wall_time first slot
    if ltb now due.scheduled_at then ok none else coalesce_due next_date first now slot
