-- ===== src/Clock/Weekly.antt =====
-- `weeklyOccurrenceAtOrBefore`, `weeklyOccurrenceAfter` and `coalesceWeeklyOccurrences`.
use universal_race_calendar.Common.{
  ℕ, ◌+◌, ◌-◌, ◌*◌, ◌/◌, ◌%◌, ◌≤◌, ◌<◌, ◌≡◌, refl, inl, inr, ◌⊎◌, not, Option, none, some,
  Bool-cases, ==_iff, ok, ◌==◌, arith, sym, ap, subst, ◌∙◌, ltb, leb, ok-injective,
  ok_some-injective, >>=-eq-ok, >>-eq-ok, throw_if-eq-ok, throw_if, ◌||◌,
}
use universal_race_calendar.Clock.{
  WeeklySlot, WallTime, WeeklyOccurrence, LocalDate, on_day, malformed, wall_number, day_ms,
  first_day, resolve_occurrence, iso_weekday, latest_day, validate_slot, validate_now, parse_day,
  weekly_occurrence_at_or_before, weekly_occurrence_after, Coalesced, coalesce_due,
  coalesce_weekly_occurrences,
}
use universal_race_calendar.Clock.Resolve.{wall_at, resolve_occurrence-IsResolved}

-- What the weekly recurrence relies on of the zone: the formatter's hours and minutes are those
-- of a day, the local date never goes back, and it lags behind UTC by a day at most.
pub record IsZone (wall_time : ℕ → WallTime) : Type 0 where
  pub hours : (t : ℕ) → (wall_time t).hour < 24
  pub minutes : (t : ℕ) → (wall_time t).minute < 60
  pub forward : (t u : ℕ) → t ≤ u → (wall_time t).day ≤ (wall_time u).day
  pub behind : (t : ℕ) → t / day_ms ≤ (wall_time t).day + 1

-- The slot that passes `validateSlot`.
validate_slot-range :
    (slot : WeeklySlot)
    → validate_slot slot ≡ ok tt
    → (1 ≤ slot.weekday) × (slot.weekday ≤ 7) × (slot.hour ≤ 23) × (slot.minute ≤ 59)
unfolding validate_slot
validate_slot-range slot h = ground arith

iso_weekday-shift_back :
    (today w : ℕ)
    → 7 ≤ today
    → 1 ≤ w
    → w ≤ 7
    → iso_weekday (today - (iso_weekday today + 7 - w) % 7) ≡ w
unfolding iso_weekday
iso_weekday-shift_back today w h p q = ground arith

iso_weekday-sub_week : (d : ℕ) → 7 ≤ d → iso_weekday (d - 7) ≡ iso_weekday d
unfolding iso_weekday
iso_weekday-sub_week d h = rw (let e : (d - 7 + 6) % 7 ≡ (d + 6) % 7 = omega arith in e)

module _ (wall_time : ℕ → WallTime) (zone : IsZone wall_time) where
  -- The local date at the scheduled instant is the nominal day.
  resolved-day :
      (day : ℕ) (slot : WeeklySlot) {occ : WeeklyOccurrence}
      → resolve_occurrence wall_time day slot ≡ ok occ
      → (occ.local_date ≡ on_day day) × ((wall_time occ.scheduled_at).day ≡ day)
  unfolding wall_number
  resolved-day day slot {occ} e =
      let r = (resolve_occurrence-IsResolved wall_time day slot e).0 in
      let t = occ.scheduled_at in
      let same : wall_at wall_time t / day_ms ≡ day =
        subst (λ n. n / day_ms ≡ day) (sym r.reads) r.same_day in
      (r.dated, omega (arith, zone.hours t, zone.minutes t))

  -- What an occurrence at or before `now` is.
  pub record IsLatest (now : ℕ) (slot : WeeklySlot) (occ : WeeklyOccurrence) (day : ℕ)
      : Type 0 where
    pub dated : occ.local_date ≡ on_day day
    pub on_weekday : iso_weekday day ≡ slot.weekday
    pub due : occ.scheduled_at ≤ now
    pub next_later :
        (after : WeeklyOccurrence)
        → resolve_occurrence wall_time (day + 7) slot ≡ ok after
        → now < after.scheduled_at

  module _ (now : ℕ) (slot : WeeklySlot) (late : first_day ≤ now / day_ms) (low : 1 ≤ slot.weekday)
      (high : slot.weekday ≤ 7) where
    latest_day-range :
        (7 ≤ latest_day wall_time now slot)
        × (latest_day wall_time now slot ≤ (wall_time now).day)
        × ((wall_time now).day < latest_day wall_time now slot + 7)
        × (iso_weekday (latest_day wall_time now slot) ≡ slot.weekday)
    unfolding latest_day
    latest_day-range =
        let b = zone.behind now in
        (
          omega arith,
          omega arith,
          omega arith,
          iso_weekday-shift_back (wall_time now).day slot.weekday (omega arith) low high,
        )

    this_week :
        (occ : WeeklyOccurrence)
        → resolve_occurrence wall_time (latest_day wall_time now slot) slot ≡ ok occ
        → occ.scheduled_at ≤ now
        → IsLatest now slot occ (latest_day wall_time now slot)
    this_week occ e due =
        let (a, b, c, d) = latest_day-range in
        record {
          dated = (resolved-day (latest_day wall_time now slot) slot e).0;
          on_weekday = d;
          due = due;
          next_later = λ after q.
              let (_, s) = resolved-day (latest_day wall_time now slot + 7) slot q in
              elim (Bool-cases (ltb now after.scheduled_at)) [
                | inl y ↦ ground arith
                | inr n ↦ absurd (omega (arith, zone.forward after.scheduled_at now (ground arith)))
              ];
        }

    last_week :
        (first occ : WeeklyOccurrence)
        → resolve_occurrence wall_time (latest_day wall_time now slot) slot ≡ ok first
        → now < first.scheduled_at
        → resolve_occurrence wall_time (latest_day wall_time now slot - 7) slot ≡ ok occ
        → IsLatest now slot occ (latest_day wall_time now slot - 7)
    last_week first occ p later e =
        let (a, b, c, d) = latest_day-range in
        let day = latest_day wall_time now slot in
        let (dated, s) = resolved-day (day - 7) slot e in
        record {
          dated = dated;
          on_weekday = iso_weekday-sub_week day a ∙ d;
          due = elim (Bool-cases (leb occ.scheduled_at now)) [
            | inl y ↦ ground arith
            | inr n ↦ absurd (omega (arith, zone.forward now occ.scheduled_at (ground arith)))
          ];
          next_later = λ after q.
              let back : day - 7 + 7 ≡ day = omega arith in
              let same : first ≡ after =
                ok-injective
                  (sym p ∙ subst (λ n. resolve_occurrence wall_time n slot ≡ ok after) back q) in
              subst (λ o. now < o.scheduled_at) same later;
        }

  -- `weeklyOccurrenceAtOrBefore` returns an occurrence of the slot's weekday that is due, and the
  -- one of the week after it is not due yet.
  pub weekly_occurrence_at_or_before-IsLatest :
      (now : ℕ) (slot : WeeklySlot) (occ : WeeklyOccurrence)
      → weekly_occurrence_at_or_before wall_time now slot ≡ ok occ
      → (day : ℕ) × IsLatest now slot occ day
  unfolding weekly_occurrence_at_or_before
  weekly_occurrence_at_or_before-IsLatest now slot occ e =
      let (valid_now, e1) = >>-eq-ok (validate_now now) _ e in
      let (valid, e2) = >>-eq-ok (validate_slot slot) _ e1 in
      let (first, p, e3) =
        >>=-eq-ok (resolve_occurrence wall_time (latest_day wall_time now slot) slot) _ e2 in
      let (low, high, _, _) = validate_slot-range slot valid in
      let late : first_day ≤ now / day_ms = unfold validate_now in ground arith in
      elim (Bool-cases (ltb now first.scheduled_at)) [
        | inl y ↦ (
          latest_day wall_time now slot - 7,
          last_week now slot late low high first occ p (ground arith) (rw y at e3),
        )
        | inr n ↦
            let same : first ≡ occ = ok-injective (rw n at e3) in
            (
              latest_day wall_time now slot,
              this_week now slot late low high occ (rw (← same) p) (rw (← same) (ground arith)),
            )
      ]

  parse_day-on_day :
      (date : LocalDate) (day d : ℕ) → date ≡ on_day day → parse_day date ≡ ok d → d ≡ day
  unfolding parse_day
  parse_day-on_day malformed day d e h = cc
  parse_day-on_day (on_day x) day d e h = ground arith

  -- `weeklyOccurrenceAfter` returns an occurrence of the slot's weekday that is later than `now`,
  -- and exactly a week behind one that is due.
  weekly_occurrence_after-later :
      (now : ℕ) (slot : WeeklySlot) (occ : WeeklyOccurrence)
      → weekly_occurrence_after wall_time now slot ≡ ok occ
      → (day : ℕ) × (previous : WeeklyOccurrence) × IsLatest now slot previous day
        × (occ.local_date ≡ on_day (day + 7))
        × (now < occ.scheduled_at)
  unfolding weekly_occurrence_after
  weekly_occurrence_after-later now slot occ e =
      let (previous, p, e1) = >>=-eq-ok (weekly_occurrence_at_or_before wall_time now slot) _ e in
      let (d, q, e2) = >>=-eq-ok (parse_day previous.local_date) _ e1 in
      let (day, latest) = weekly_occurrence_at_or_before-IsLatest now slot previous p in
      let same = parse_day-on_day previous.local_date day d latest.dated q in
      let e3 = subst (λ n. resolve_occurrence wall_time (n + 7) slot ≡ ok occ) same e2 in
      (day, previous, latest, (resolved-day (day + 7) slot e3).0, latest.next_later occ e3)

  -- What a coalesced result is for the persisted first due day.
  pub record IsCoalesced (first now : ℕ) (slot : WeeklySlot) (c : Coalesced) : Type 0 where
    pub latest_due : IsLatest now slot c.latest (first + 7 * c.coalesced_weeks)
    pub next_dated : c.next_due.local_date ≡ on_day (first + 7 * c.coalesced_weeks + 7)
    pub next_pending : now < c.next_due.scheduled_at

  coalesce_due-IsCoalesced :
      (next_date : LocalDate) (first now : ℕ) (slot : WeeklySlot) (c : Coalesced)
      → coalesce_due wall_time next_date first now slot ≡ ok (some c)
      → IsCoalesced first now slot c
  unfolding coalesce_due
  coalesce_due-IsCoalesced next_date first now slot c e =
      let (latest, p, e1) = >>=-eq-ok (weekly_occurrence_at_or_before wall_time now slot) _ e in
      let (last, q, e2) = >>=-eq-ok (parse_day latest.local_date) _ e1 in
      let (checked, e3) =
        >>-eq-ok (throw_if (ltb last first || not ((last - first) % 7 == 0)) _) _ e2 in
      let (again, r, e4) = >>=-eq-ok (parse_day latest.local_date) _ e3 in
      let (next, s, e5) = >>=-eq-ok (resolve_occurrence wall_time (again + 7) slot) _ e4 in
      let (day, is_latest) = weekly_occurrence_at_or_before-IsLatest now slot latest p in
      let d1 = parse_day-on_day latest.local_date day last is_latest.dated q in
      let d2 = parse_day-on_day latest.local_date day again is_latest.dated r in
      let check = throw_if-eq-ok (ltb last first || not ((last - first) % 7 == 0)) _ checked in
      let span : first + 7 * ((last - first) / 7) ≡ day = ground arith in
      let s' = subst (λ n. resolve_occurrence wall_time (n + 7) slot ≡ ok next) d2 s in
      subst (IsCoalesced first now slot) (ok_some-injective e5) (record {
        latest_due = rw span is_latest;
        next_dated = rw span (resolved-day (day + 7) slot s').0;
        next_pending = is_latest.next_later next s';
      })

  coalesce_due-ne-none :
      (next_date : LocalDate) (first now : ℕ) (slot : WeeklySlot)
      → coalesce_due wall_time next_date first now slot ≡ ok none
      → ⊥
  unfolding coalesce_due
  coalesce_due-ne-none next_date first now slot e =
      let (latest, p, e1) = >>=-eq-ok (weekly_occurrence_at_or_before wall_time now slot) _ e in
      let (last, q, e2) = >>=-eq-ok (parse_day latest.local_date) _ e1 in
      let (_, e3) = >>-eq-ok (throw_if (ltb last first || not ((last - first) % 7 == 0)) _) _ e2 in
      let (again, r, e4) = >>=-eq-ok (parse_day latest.local_date) _ e3 in
      let (next, s, e5) = >>=-eq-ok (resolve_occurrence wall_time (again + 7) slot) _ e4 in cc

  coalesce_due-result :
      (next_date : LocalDate) (first now : ℕ) (slot : WeeklySlot) (result : Option Coalesced)
      → coalesce_due wall_time next_date first now slot ≡ ok result
      → (c : Coalesced) × (result ≡ some c) × IsCoalesced first now slot c
  coalesce_due-result next_date first now slot (some c) e =
      (c, refl, coalesce_due-IsCoalesced next_date first now slot c e)
  coalesce_due-result next_date first now slot none e =
      absurd (coalesce_due-ne-none next_date first now slot e)

  -- `coalesceWeeklyOccurrences` returns one due occurrence for all the weeks that have passed
  -- since the persisted day, or null only where the occurrence of that day is not due.
  pub coalesce_weekly_occurrences-IsCoalesced :
      (next_date : LocalDate) (now : ℕ) (slot : WeeklySlot) (result : Option Coalesced)
      → coalesce_weekly_occurrences wall_time next_date now slot ≡ ok result
      → (first : ℕ) × (next_date ≡ on_day first)
        × (iso_weekday first ≡ slot.weekday)
        × (due : WeeklyOccurrence) × (resolve_occurrence wall_time first slot ≡ ok due)
        × (((now < due.scheduled_at) × (result ≡ none))
            ⊎ ((due.scheduled_at ≤ now)
                × ((c : Coalesced) × (result ≡ some c) × IsCoalesced first now slot c)))
  unfolding coalesce_weekly_occurrences parse_day
  coalesce_weekly_occurrences-IsCoalesced malformed now slot result e =
      let (_, e1) = >>-eq-ok (validate_now now) _ e in
      let (_, e2) = >>-eq-ok (validate_slot slot) _ e1 in cc
  coalesce_weekly_occurrences-IsCoalesced (on_day first) now slot result e =
      let (_, e1) = >>-eq-ok (validate_now now) _ e in
      let (_, e2) = >>-eq-ok (validate_slot slot) _ e1 in
      let (f, q, e3) = >>=-eq-ok (parse_day (on_day first)) _ e2 in
      let same = parse_day-on_day (on_day first) first f refl q in
      let (checked, e4) = >>-eq-ok (throw_if (not (iso_weekday f == slot.weekday)) _) _ e3 in
      let (due, p, e5) = >>=-eq-ok (resolve_occurrence wall_time f slot) _ e4 in
      let check = throw_if-eq-ok (not (iso_weekday f == slot.weekday)) _ checked in
      (
        f,
        ap on_day (sym same),
        (==_iff _ _).0 (ground arith),
        due,
        p,
        elim (Bool-cases (ltb now due.scheduled_at)) [
          | inl y ↦ inl (ground arith, sym (ok-injective (rw y at e5)))
          | inr n ↦
              inr (ground arith, coalesce_due-result (on_day first) f now slot result (rw n at e5))
        ],
      )
