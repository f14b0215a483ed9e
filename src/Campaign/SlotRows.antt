-- ===== src/Campaign/SlotRows.antt =====
-- The slot that campaigns take: its specification, and how the rows of campaigns show it.
use universal_race_calendar.Common.{
  ℕ, ◌≡◌, refl, sym, ◌∙◌, ap, subst, ◌⊎◌, inl, inr, true, false, ◌&&◌, not, if◌then◌else◌, String,
  str_eq, eq_iff, Option, none, some, List, [], ◌∷◌, any, any_complete, any_sound, find, In, ok,
  throw_if, >>-eq-ok, throw_if-eq-ok, Bool-cases, Option-cases, arith,
}
use universal_race_calendar.Continuation.Pause.{find_sound, str_eq_refl}
use universal_race_calendar.Campaign.{Campaign, is_terminal, is_running}
use universal_race_calendar.Campaign.Control.{
  ControlAction, pauses, resumes, cancels, updated_campaign, set_campaign,
}
use universal_race_calendar.Campaign.Transaction.{is_retry, check_run}
use universal_race_calendar.Campaign.Single.{IsSingle, find-In, others-none, set_campaign-IsSingle}

abbrev id_of : Option Campaign → Option String
id_of none = none
id_of (some run) = some run.id

-- The id of the campaign that runs.
unfoldable pub slot : List Campaign → Option String
slot runs = id_of (find is_running runs)

-- What is asked of the slot: nothing, where a request repeats an earlier one; a start of a new
-- campaign; or a control of the campaign of an id.
pub data SlotCall : Type 0 where
  repeat : SlotCall
  start : String → SlotCall
  control : ControlAction → String → SlotCall

-- The specification: a start takes a free slot, a pause, a resumption and a cancellation are for
-- the campaign that has the slot, but that a resumption may also take a free one, and a
-- cancellation frees it. `none` is a refusal.
abbrev pub slot_step : SlotCall → Option String → Option (Option String)
slot_step repeat o = some o
slot_step (start id) none = some (some id)
slot_step (start id) (some holder) = none
slot_step (control pauses id) none = none
slot_step (control pauses id) (some holder) = if str_eq holder id then some (some id) else none
slot_step (control resumes id) none = some (some id)
slot_step (control resumes id) (some holder) = if str_eq holder id then some (some id) else none
slot_step (control cancels id) none = none
slot_step (control cancels id) (some holder) = if str_eq holder id then some none else none

-- The calls of a list, the last one first.
abbrev pub slot_run : List SlotCall → Option String → Option (Option String)
slot_run [] o = some o
slot_run (call ∷ earlier) o = elim (slot_run earlier o) [ none ↦ none | some p ↦ slot_step call p ]

pub slot-none : (runs : List Campaign) → any is_running runs ≡ false → slot runs ≡ none
unfolding slot
slot-none [] h = refl
slot-none (run ∷ runs) h = elim (Bool-cases (is_running run)) [
  | inl y ↦ absurd (let q = rw y at h in cc)
  | inr n ↦ rw n (slot-none runs (rw n at h))
]

pub slot-head :
    (run : Campaign) (runs : List Campaign)
    → is_running run ≡ true
    → slot (run ∷ runs) ≡ some run.id
unfolding slot
slot-head run runs alive = rw alive refl

none-any :
    (runs : List Campaign)
    → ((a : Campaign) → In a runs → is_running a ≡ false)
    → any is_running runs ≡ false
none-any [] h = refl
none-any (run ∷ runs) h =
    let first = h run (inl refl) in
    let rest = none-any runs (λ a i. h a (inr i)) in ground (arith, first, rest)

find-any : (runs : List Campaign) → find is_running runs ≡ none → any is_running runs ≡ false
find-any [] h = refl
find-any (run ∷ runs) h = elim (Bool-cases (is_running run)) [
  | inl y ↦ absurd (let q = rw y at h in cc)
  | inr n ↦ rw n (find-any runs (rw n at h))
]

slot-some :
    (runs : List Campaign) (run : Campaign)
    → IsSingle runs
    → In run runs
    → is_running run ≡ true
    → slot runs ≡ some run.id
unfolding slot
slot-some runs run single here alive = elim (Option-cases (find is_running runs)) [
  | inl n ↦ absurd (
      let q = any_complete is_running runs here alive in
      let p = find-any runs n in ground (arith, p, q))
  | inr (a, e) ↦ rw e (
      ap (λ i. some i)
        (single a run (find-In is_running runs a e) here (find_sound is_running runs a e) alive))
]

set_campaign-here :
    (id : String) (u : Campaign) (runs : List Campaign) (run : Campaign)
    → str_eq run.id id ≡ true
    → In run runs
    → In u (set_campaign id (λ r. u) runs)
set_campaign-here id u [] run e i = absurd i
set_campaign-here id u (r ∷ runs) run e (inr i) = inr (set_campaign-here id u runs run e i)
set_campaign-here id u (r ∷ runs) run e (inl q) =
    let own : str_eq r.id id ≡ true = subst (λ (x : Campaign). str_eq x.id id ≡ true) q e in
    inl (rw own refl)

set_campaign-only :
    (id : String) (u : Campaign) (runs : List Campaign) (a : Campaign)
    → In a (set_campaign id (λ r. u) runs)
    → (a ≡ u) ⊎ (In a runs × (str_eq a.id id ≡ false))
set_campaign-only id u [] a i = absurd i
set_campaign-only id u (r ∷ runs) a (inr i) = elim (set_campaign-only id u runs a i) [
  | inl own ↦ inl own
  | inr (there, other) ↦ inr (inr there, other)
]
set_campaign-only id u (r ∷ runs) a (inl h) = elim (Bool-cases (str_eq r.id id)) [
  | inl y ↦ inl (rw y at h)
  | inr n ↦
      let q : a ≡ r = rw n at h in
      inr (inl q, subst (λ (x : Campaign). str_eq x.id id ≡ false) (sym q) n)
]

-- The slot before and behind the update of a campaign that the tests let pass.
module _ (action : ControlAction) (run u : Campaign) (runs : List Campaign) (named : u.id ≡ run.id)
    (here : In run runs) (single : IsSingle runs)
    (checked : check_run action run runs ≡ ok tt) where
  slot-updated : is_running u ≡ true → slot (set_campaign run.id (λ r. u) runs) ≡ some run.id
  slot-updated alive =
      slot-some (set_campaign run.id (λ r. u) runs) u
        (set_campaign-IsSingle action run u runs named here single checked)
        (set_campaign-here run.id u runs run ((eq_iff run.id run.id).1 refl) here) alive
      ∙ ap (λ i. some i) named

  slot-ended : is_running u ≡ false → slot (set_campaign run.id (λ r. u) runs) ≡ none
  slot-ended over = slot-none (set_campaign run.id (λ r. u) runs) (
      none-any (set_campaign run.id (λ r. u) runs) (λ a i.
        elim (set_campaign-only run.id u runs a i) [
          | inl own ↦ subst (λ (x : Campaign). is_running x ≡ false) (sym own) over
          | inr (there, other) ↦ others-none action run runs here single checked a there other
        ]))

  -- A row that runs is of the campaign's own id.
  same_id : (a : Campaign) → In a runs → is_running a ≡ true → a.id ≡ run.id
  same_id a i lives = elim (Bool-cases (str_eq a.id run.id)) [
    | inl own ↦ (eq_iff a.id run.id).0 own
    | inr other ↦ absurd (
        let q = others-none action run runs here single checked a i other in
        ground (arith, q, lives))
  ]

  slot-before : (slot runs ≡ some run.id) ⊎ ((slot runs ≡ none) × (is_retry action run ≡ true))
  unfolding check_run
  slot-before = elim (Bool-cases (is_running run)) [
    | inl alive ↦ inl (slot-some runs run single here alive)
    | inr over ↦
        let (first, second) =
          >>-eq-ok
            (throw_if (is_terminal run.status && not (is_retry action run)) "campaign_finished") _
            checked in
        let alive =
          throw_if-eq-ok (is_terminal run.status && not (is_retry action run)) "campaign_finished"
            first in
        elim (Bool-cases (any is_running runs)) [
          | inr none_runs ↦ inr (slot-none runs none_runs, ground (arith, alive, over))
          | inl one ↦
              let (a, i, lives) = any_sound is_running runs one in
              inl (slot-some runs a single i lives ∙ ap (λ x. some x) (same_id a i lives))
        ]
  ]

  slot-resumed :
      is_running u ≡ true
      → slot_step (control resumes run.id) (slot runs)
        ≡ some (slot (set_campaign run.id (λ r. u) runs))
  slot-resumed alive = elim slot-before [
    | inl taken ↦ rw (taken, slot-updated alive, str_eq_refl run.id) refl
    | inr (free, retry) ↦ rw (free, slot-updated alive) refl
  ]

  slot-paused :
      is_retry action run ≡ false
      → is_running u ≡ true
      → slot_step (control pauses run.id) (slot runs)
        ≡ some (slot (set_campaign run.id (λ r. u) runs))
  slot-paused plain alive = elim slot-before [
    | inl taken ↦ rw (taken, slot-updated alive, str_eq_refl run.id) refl
    | inr (free, retry) ↦ absurd (ground (arith, plain, retry))
  ]

  slot-cancelled :
      is_retry action run ≡ false
      → is_running u ≡ false
      → slot_step (control cancels run.id) (slot runs)
        ≡ some (slot (set_campaign run.id (λ r. u) runs))
  slot-cancelled plain over = elim slot-before [
    | inl taken ↦ rw (taken, slot-ended over, str_eq_refl run.id) refl
    | inr (free, retry) ↦ absurd (ground (arith, plain, retry))
  ]

pub updated-slot_step :
    (action : ControlAction) (epoch : String) (now : ℕ) (run : Campaign) (runs : List Campaign)
    → In run runs
    → IsSingle runs
    → check_run action run runs ≡ ok tt
    → slot_step (control action run.id) (slot runs)
      ≡ some (
          slot (
            set_campaign run.id
              (λ r. updated_campaign action (is_retry action run) epoch now run)
              runs))
unfolding updated_campaign
updated-slot_step pauses epoch now run runs here single checked =
    slot-paused pauses run _ runs refl here single checked (ground arith) refl
updated-slot_step resumes epoch now run runs here single checked =
    slot-resumed resumes run _ runs refl here single checked refl
updated-slot_step cancels epoch now run runs here single checked =
    slot-cancelled cancels run _ runs refl here single checked (ground arith) refl
