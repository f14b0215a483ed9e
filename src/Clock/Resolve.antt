-- ===== src/Clock/Resolve.antt =====
-- `resolveOccurrence`: gaps and folds of the wall clock.
use universal_race_calendar.Common.{
  ℕ, zero, suc, ◌+◌, ◌-◌, ◌*◌, ◌/◌, ◌≤◌, ◌<◌, ◌≡◌, refl, inl, inr, true, none, some, List, [], ◌∷◌,
  map, In, In-keep, keep-In, any_sound, Bool-cases, Option-cases, ==_iff, Result, ok, ◌==◌, min,
  arith, any, subst, ok-injective,
}
use universal_race_calendar.Clock.{
  ClockError, WeeklySlot, WallTime, WeeklyOccurrence, on_day, Offset, wall_number, minute_ms,
  day_ms, earliest, add_offset, same_offset, offset_at, probe_offsets, probe_from, probes,
  candidates, shift_from, resolve_occurrence,
}

earliest-In : (xs : List ℕ) {x : ℕ} → earliest xs ≡ some x → In x xs
earliest-In [] e = cc
earliest-In (y ∷ ys) {x} e = elim (Option-cases (earliest ys)) [
  | inl p ↦ inl (ground arith)
  | inr (z, p) ↦ pick z p (earliest-In ys p) (rw p at e)
]
  where
    pick : (z : ℕ) → earliest ys ≡ some z → In z ys → some (min y z) ≡ some x → In x (y ∷ ys)
    pick z p i q = elim (Bool-cases (x == y)) [
      | inl same ↦ inl ((==_iff x y).0 same)
      | inr other ↦ inr (let same : z ≡ x = ground arith in subst (λ w. In w ys) same i)
    ]

earliest-ne-none : (xs : List ℕ) (y : ℕ) → earliest xs ≡ none → In y xs → ⊥
earliest-ne-none [] y e i = i
earliest-ne-none (x ∷ xs) y e i = ground arith

earliest-le : (xs : List ℕ) {x : ℕ} (y : ℕ) → earliest xs ≡ some x → In y xs → x ≤ y
earliest-le [] y e i = absurd i
earliest-le (z ∷ zs) y e (inl q) = ground arith
earliest-le (z ∷ zs) y e (inr i) = elim (Option-cases (earliest zs)) [
  | inl p ↦ absurd (earliest-ne-none zs y p i)
  | inr (w, p) ↦ let h : w ≤ y = earliest-le zs y p i in ground arith
]

module _ (wall_time : ℕ → WallTime) where
  abbrev pub wall_at : ℕ → ℕ
  wall_at instant = wall_number (wall_time instant)

  -- What `resolveOccurrence` promises of a result: the zone's clock reads the slot's time of the
  -- nominal day, moved by the reported minutes, which stay within three hours and within that
  -- day; no smaller shift has an instant among the probed offsets, and of those at this shift
  -- the earliest is taken.
  pub record IsResolved (offsets : List Offset) (day target : ℕ) (occ : WeeklyOccurrence)
      : Type 0 where
    pub dated : occ.local_date ≡ on_day day
    pub reads : wall_at occ.scheduled_at ≡ target + occ.shifted_minutes * minute_ms
    pub same_day : (target + occ.shifted_minutes * minute_ms) / day_ms ≡ day
    pub least_shift :
        (k instant : ℕ)
        → k < occ.shifted_minutes
        → ¬ In instant (candidates wall_time offsets (target + k * minute_ms))
    pub first_instant :
        (instant : ℕ)
        → In instant (candidates wall_time offsets (target + occ.shifted_minutes * minute_ms))
        → occ.scheduled_at ≤ instant

  -- A candidate is read by the clock as the wall time that it was computed for.
  candidates_sound :
      (offsets : List Offset) (wall instant : ℕ)
      → In instant (candidates wall_time offsets wall)
      → wall_at instant ≡ wall
  unfolding candidates
  candidates_sound offsets wall instant i =
      (==_iff (wall_at instant) wall).0
        (In-keep (λ t. wall_at t == wall) (map (λ o. wall + o.instant - o.wall) offsets)
          {x = instant} i).1

  shift_from_sound :
      (rounds : ℕ) (offsets : List Offset) (day target shifted : ℕ) {occ : WeeklyOccurrence}
      → ((k instant : ℕ)
          → k < shifted
          → ¬ In instant (candidates wall_time offsets (target + k * minute_ms)))
      → shift_from wall_time rounds offsets day target shifted ≡ ok occ
      → IsResolved offsets day target occ × (occ.shifted_minutes < shifted + rounds)
  unfolding shift_from
  shift_from_sound zero offsets day target shifted before e = cc
  shift_from_sound (suc rounds) offsets day target shifted {occ} before e =
      elim (Bool-cases ((target + shifted * minute_ms) / day_ms == day)) [
        | inr other ↦ ground arith
        | inl same ↦ elim (Option-cases (earliest found)) [
          | inl p ↦
              let (r, bound) =
                shift_from_sound rounds offsets day target (shifted + 1) {occ = occ} (later p)
                  (rw (same, p) at e) in
              (r, omega arith)
          | inr (instant, p) ↦ here instant p ((==_iff _ _).0 same) (rw (same, p) at e)
        ]
      ]
    where
      found : List ℕ
      found = candidates wall_time offsets (target + shifted * minute_ms)

      later :
          earliest found ≡ none
          → (k instant : ℕ) → k < shifted + 1
          → ¬ In instant (candidates wall_time offsets (target + k * minute_ms))
      later p k instant h i = elim (Bool-cases (k == shifted)) [
        | inl eq ↦ earliest-ne-none found instant p (
            subst (λ j. In instant (candidates wall_time offsets (target + j * minute_ms)))
              ((==_iff k shifted).0 eq) i)
        | inr ne ↦ before k instant (ground arith) i
      ]

      here :
          (instant : ℕ)
          → earliest found ≡ some instant
          → (target + shifted * minute_ms) / day_ms ≡ day
          → ◌≡◌ {A = Result ClockError WeeklyOccurrence}
              (ok (record {
                local_date = on_day day;
                scheduled_at = instant;
                shifted_minutes = shifted;
              }))
              (ok occ)
          → IsResolved offsets day target occ × (occ.shifted_minutes < shifted + suc rounds)
      here instant p same q =
          subst (λ o. IsResolved offsets day target o × (o.shifted_minutes < shifted + suc rounds))
            (ok-injective q)
            (
              record {
                dated = refl;
                reads = candidates_sound offsets _ instant (earliest-In found p);
                same_day = same;
                least_shift = before;
                first_instant = λ t. earliest-le found t p;
              },
              omega arith,
            )

  -- At every occurrence that `resolveOccurrence` returns the zone's clock reads the slot's time of
  -- the nominal day, moved by the reported minutes, at most 180 and within that day; no smaller
  -- shift has an instant at a probed offset, and of those at this shift the earliest is taken.
  pub resolve_occurrence-IsResolved :
      (day : ℕ) (slot : WeeklySlot) {occ : WeeklyOccurrence}
      → resolve_occurrence wall_time day slot ≡ ok occ
      → let target = day * day_ms + (slot.hour * 60 + slot.minute) * minute_ms in
        IsResolved (probe_offsets wall_time target) day target occ × (occ.shifted_minutes ≤ 180)
  unfolding resolve_occurrence
  resolve_occurrence-IsResolved day slot {occ} e =
      let target = day * day_ms + (slot.hour * 60 + slot.minute) * minute_ms in
      let (r, bound) =
        shift_from_sound 181 (probe_offsets wall_time target) day target 0 {occ = occ}
          (λ k instant h. absurd (omega arith)) e in
      (r, omega arith)

  -- A shift that some probed offset fits, and the wall clock's reading there, are found.
  shift_from_complete :
      (rounds : ℕ) (offsets : List Offset) (day target shifted k instant : ℕ)
      → shifted ≤ k
      → k < shifted + rounds
      → In instant (candidates wall_time offsets (target + k * minute_ms))
      → ((j : ℕ) → j ≤ k → (target + j * minute_ms) / day_ms ≡ day)
      → (occ : WeeklyOccurrence) × (shift_from wall_time rounds offsets day target shifted ≡ ok occ)
        × (occ.shifted_minutes ≤ k)
  unfolding shift_from
  shift_from_complete zero offsets day target shifted k instant h b i d = absurd (omega arith)
  shift_from_complete (suc rounds) offsets day target shifted k instant h b i d =
      let same = (==_iff _ _).1 (d shifted h) in
      elim (Option-cases (earliest (candidates wall_time offsets (target + shifted * minute_ms)))) [
        | inr (t, p) ↦ (
          record { local_date = on_day day; scheduled_at = t; shifted_minutes = shifted },
          rw (same, p),
          h,
        )
        | inl p ↦ elim (Bool-cases (k == shifted)) [
          | inl eq ↦ absurd (
              earliest-ne-none _ instant p (
                subst (λ j. In instant (candidates wall_time offsets (target + j * minute_ms)))
                  ((==_iff k shifted).0 eq) i))
          | inr ne ↦
              let (occ, q, r) =
                shift_from_complete rounds offsets day target (shifted + 1) k instant (ground arith)
                  (omega arith) i d in
              (occ, rw (same, p) q, r)
        ]
      ]

  -- The set holds, for each probe, an offset of the same value.
  add_offset-has :
      (offsets : List Offset) (o : Offset)
      → (p : Offset) × In p (add_offset offsets o) × (same_offset o p ≡ true)
  add_offset-has offsets o = elim (Bool-cases (any (same_offset o) offsets)) [
    | inl e ↦ rw e (any_sound (same_offset o) offsets e)
    | inr e ↦ rw e (o, inl refl, (==_iff _ _).1 refl)
  ]

  add_offset-keeps :
      (offsets : List Offset) (o p : Offset) → In p offsets → In p (add_offset offsets o)
  add_offset-keeps offsets o p i = elim (Bool-cases (any (same_offset o) offsets)) [
    | inl e ↦ rw e i
    | inr e ↦ rw e (inr i)
  ]

  probe_from-keeps :
      (offsets : List Offset) (ts : List ℕ) (p : Offset)
      → In p offsets
      → In p (probe_from wall_time offsets ts)
  unfolding probe_from
  probe_from-keeps offsets [] p i = i
  probe_from-keeps offsets (t ∷ ts) p i =
      probe_from-keeps (add_offset offsets (offset_at wall_time t)) ts p
        (add_offset-keeps offsets (offset_at wall_time t) p i)

  probe_from-has :
      (offsets : List Offset) (ts : List ℕ) (t : ℕ)
      → In t ts
      → (p : Offset) × In p (probe_from wall_time offsets ts)
        × (same_offset (offset_at wall_time t) p ≡ true)
  unfolding probe_from
  probe_from-has offsets [] t i = absurd i
  probe_from-has offsets (u ∷ ts) t (inl q) =
      let (p, i, s) = add_offset-has offsets (offset_at wall_time u) in
      (p, probe_from-keeps (add_offset offsets (offset_at wall_time u)) ts p i, rw q s)
  probe_from-has offsets (u ∷ ts) t (inr i) =
      probe_from-has (add_offset offsets (offset_at wall_time u)) ts t i

  In-map :
      (wall : ℕ) (os : List Offset) (o : Offset)
      → In o os
      → In (wall + o.instant - o.wall) (map (λ o. wall + o.instant - o.wall) os)
  In-map wall [] o i = absurd i
  In-map wall (p ∷ os) o (inl q) = inl (rw q)
  In-map wall (p ∷ os) o (inr i) = inr (In-map wall os o i)

  -- `resolveOccurrence` returns an occurrence, and none later than the shift `k`, whenever the
  -- zone's clock reads the slot moved by `k ≤ 180` minutes on the nominal day at some instant
  -- whose offset from UTC is that of one of the seven probes.
  pub resolve_occurrence_complete :
      (day : ℕ) (slot : WeeklySlot) (k instant probe : ℕ)
      → let target = day * day_ms + (slot.hour * 60 + slot.minute) * minute_ms in
        k ≤ 180
        → wall_at instant ≡ target + k * minute_ms
        → (target + k * minute_ms) / day_ms ≡ day
        → In probe (probes target)
        → wall_at probe + instant ≡ wall_at instant + probe
        → (occ : WeeklyOccurrence) × (resolve_occurrence wall_time day slot ≡ ok occ)
          × (occ.shifted_minutes ≤ k)
  unfolding resolve_occurrence probe_offsets candidates offset_at
  resolve_occurrence_complete day slot k instant probe h reads same i e =
      let target = day * day_ms + (slot.hour * 60 + slot.minute) * minute_ms in
      let (o, j, s) = probe_from-has [] (probes target) probe i in
      let eq : target + k * minute_ms + o.instant - o.wall ≡ instant =
        omega (arith, (==_iff _ _).0 s) in
      let mapped = In-map (target + k * minute_ms) (probe_offsets wall_time target) o j in
      shift_from_complete 181 (probe_offsets wall_time target) day target 0 k instant (omega arith)
        (omega arith)
        (keep-In (λ t. wall_at t == target + k * minute_ms) _
          (subst
            (λ t. In t (
              map (λ o. target + k * minute_ms + o.instant - o.wall)
                (probe_offsets wall_time target)))
            eq mapped)
          ((==_iff _ _).1 reads))
        (λ j b. omega arith)
