-- ===== src/SourceRequests/Budget.antt =====
-- What the gate grants: the spacing and the hourly budget over any sequence of requests, and the end
-- of the waiting loop.
use universal_race_calendar.Common.{
  ℕ, ◌+◌, ◌-◌, ◌*◌, ◌/◌, ◌%◌, ◌≤◌, ◌<◌, ◌≡◌, refl, ◌≢◌, ◌↔◌, inl, inr, Bool, true, false, ltb,
  if◌then◌else◌, none, List, [], ◌∷◌, length, All, Bool-cases, arith,
}
use universal_race_calendar.SourceRequests.Gate.{
  Gate, Decision, allowed, blocked, budget, spacing, hour_ms, hour_start, open_window,
  reserve_in_window, reserve_source_request, waits, sleep_ms, wait_for_source_request,
  public_source_control,
}

abbrev is_allowed : Decision → Bool
is_allowed allowed = true
is_allowed _ = false

-- The moments of a sequence of requests at which one was allowed.
unfoldable pub granted_at : Gate → List ℕ → List ℕ
granted_at gate [] = []
granted_at gate (moment ∷ moments) =
    let (next, decision) = reserve_source_request moment gate in
    let later = granted_at next moments in if is_allowed decision then moment ∷ later else later

-- Each stands at least `delay` behind the one before it, and the first at `from` or later.
abbrev pub IsSpaced : ℕ → ℕ → List ℕ → Type 0
IsSpaced delay from [] = Unit
IsSpaced delay from (m ∷ ms) = (from ≤ m) × IsSpaced delay (m + delay) ms

reserve-granted :
    (moment : ℕ) (gate : Gate)
    → is_allowed (reserve_source_request moment gate).1 ≡ true
    → (gate.next_allowed_at ≤ moment)
      × ((reserve_source_request moment gate).0.next_allowed_at ≡ moment + gate.min_delay_ms)
unfolding reserve_source_request reserve_in_window open_window
reserve-granted moment gate h = ground arith

reserve-refused :
    (moment : ℕ) (gate : Gate)
    → is_allowed (reserve_source_request moment gate).1 ≡ false
    → (reserve_source_request moment gate).0.next_allowed_at ≡ gate.next_allowed_at
unfolding reserve_source_request reserve_in_window open_window
reserve-refused moment gate h = ground arith

reserve-keeps :
    (moment : ℕ) (gate : Gate)
    → ((reserve_source_request moment gate).0.min_delay_ms ≡ gate.min_delay_ms)
      × ((reserve_source_request moment gate).0.limit_per_hour ≡ gate.limit_per_hour)
unfolding reserve_source_request reserve_in_window open_window
reserve-keeps moment gate = ground arith

granted_at-IsSpaced_from :
    (delay from : ℕ) (gate : Gate) (moments : List ℕ)
    → gate.min_delay_ms ≡ delay
    → gate.next_allowed_at ≡ from
    → IsSpaced delay from (granted_at gate moments)
unfolding granted_at
granted_at-IsSpaced_from delay from gate [] d f = tt
granted_at-IsSpaced_from delay from gate (m ∷ ms) d f =
    let next = (reserve_source_request m gate).0 in
    let kept = (reserve-keeps m gate).0 in
    elim (Bool-cases (is_allowed (reserve_source_request m gate).1)) [
      | inl y ↦
          let (late, next_at) = reserve-granted m gate y in
          rw y (
            omega arith,
            granted_at-IsSpaced_from delay (m + delay) next ms (omega arith) (omega arith),
          )
      | inr n ↦
          let same = reserve-refused m gate n in
          rw n (granted_at-IsSpaced_from delay from next ms (omega arith) (omega arith))
    ]

-- Whatever the moments of the requests are, two that are allowed lie at least the configured delay
-- apart, and none comes before the moment that the gate stands at.
pub granted_at-IsSpaced :
    (gate : Gate) (moments : List ℕ)
    → IsSpaced gate.min_delay_ms gate.next_allowed_at (granted_at gate moments)
granted_at-IsSpaced gate moments =
    granted_at-IsSpaced_from gate.min_delay_ms gate.next_allowed_at gate moments refl refl

-- The requests that the window of the given hour has used.
unfoldable pub used_in : ℕ → Gate → ℕ
used_in hour gate = if ltb gate.window_start (hour * hour_ms) then 0 else gate.request_count

reserve-used :
    (hour moment : ℕ) (gate : Gate)
    → moment / hour_ms ≡ hour
    → let (next, decision) = reserve_source_request moment gate in
      (is_allowed decision ≡ true
        → (used_in hour next ≡ used_in hour gate + 1) × (used_in hour gate < gate.limit_per_hour))
      × (is_allowed decision ≡ false → used_in hour next ≡ used_in hour gate)
unfolding reserve_source_request reserve_in_window open_window used_in hour_start
reserve-used hour moment gate h = (λ e. ground arith, λ e. ground arith)

-- The requests allowed within one hour, together with those that its window has counted before, stay
-- within the limit.
pub granted_at-le-limit :
    (hour : ℕ) (gate : Gate) (moments : List ℕ)
    → All (λ m. m / hour_ms ≡ hour) moments
    → length (granted_at gate moments) ≤ gate.limit_per_hour - used_in hour gate
unfolding granted_at
granted_at-le-limit hour gate [] h = omega arith
granted_at-le-limit hour gate (m ∷ ms) (e, h) =
    let next = (reserve_source_request m gate).0 in
    let ih = granted_at-le-limit hour next ms h in
    let (_, limit) = reserve-keeps m gate in
    let (yes_used, no_used) = reserve-used hour m gate e in
    elim (Bool-cases (is_allowed (reserve_source_request m gate).1)) [
      | inl y ↦ let (u, l) = yes_used y in rw y (omega arith)
      | inr n ↦ let u = no_used n in rw n (omega arith)
    ]

abbrev is_spacing : Decision → Bool
is_spacing (spacing r) = true
is_spacing _ = false

not_spacing :
    (moment : ℕ) (gate : Gate)
    → gate.next_allowed_at ≤ moment
    → is_spacing (reserve_source_request moment gate).1 ≡ false
unfolding reserve_source_request reserve_in_window open_window
not_spacing moment gate h = ground arith

spacing_until :
    (moment r : ℕ) (gate : Gate)
    → (reserve_source_request moment gate).1 ≡ spacing r
    → (r ≡ gate.next_allowed_at)
      × (moment < r)
      × ((reserve_source_request moment gate).0.next_allowed_at ≡ r)
unfolding reserve_source_request reserve_in_window open_window
spacing_until moment r gate h = ground arith

module _ (others : ℕ → Gate → Gate) where
  last_round :
      (now : ℕ) (gate : Gate)
      → is_spacing (reserve_source_request now gate).1 ≡ false
      → (wait_for_source_request others 1 now gate).1 ≢ waits
  unfolding wait_for_source_request
  last_round now gate h = ground arith

  first_round :
      (now : ℕ) (gate : Gate)
      → ((r : ℕ)
          → (reserve_source_request now gate).1 ≡ spacing r
          → (wait_for_source_request others 1
              (now + sleep_ms r now)
              (others 1 (reserve_source_request now gate).0)).1
            ≢ waits)
      → (wait_for_source_request others 2 now gate).1 ≢ waits
  unfolding wait_for_source_request
  first_round now gate h = go (reserve_source_request now gate).1 refl
    where
      go :
          (d : Decision)
          → (reserve_source_request now gate).1 ≡ d
          → (wait_for_source_request others 2 now gate).1 ≢ waits
      go allowed e q = ground arith
      go (blocked until) e q = ground arith
      go (budget r) e q = ground arith
      go (spacing r) e q = h r e (rw (e, wait_for_source_request) at q)

  -- The loop of `waitForSourceRequest` ends in its second round at the latest, where the gate is
  -- ahead by no more than the minute that one sleep may last and, in the sleep, the other executors
  -- do not push it ahead of the moment at which the sleep was to end.
  pub wait_for_source_request_ends :
      (now : ℕ) (gate : Gate)
      → gate.next_allowed_at ≤ now + 59999
      → ((g : Gate) → (others 1 g).next_allowed_at ≤ g.next_allowed_at + 1)
      → (wait_for_source_request others 2 now gate).1 ≢ waits
  wait_for_source_request_ends now gate h quiet = first_round now gate λ r e.
      let (same, early, kept) = spacing_until now r gate e in
      let next = (reserve_source_request now gate).0 in
      let moved = quiet next in
      last_round (now + sleep_ms r now) (others 1 next)
        (not_spacing (now + sleep_ms r now) (others 1 next) (unfold sleep_ms in omega arith))

-- What administrators are shown agrees with what the gate does: a request is allowed exactly when
-- the gate is shown open, with requests left, and the spacing has passed.
pub public_source_control-reserve :
    (now : ℕ) (gate : Gate)
    → gate.window_start % hour_ms ≡ 0
    → let view = public_source_control gate now in
      let decision = (reserve_source_request now gate).1 in
      (decision ≡ allowed) ↔ (
        (view.blocked_at ≡ none)
        × (view.requests_used < view.limit_per_hour)
        × (gate.next_allowed_at ≤ now))
unfolding public_source_control reserve_source_request reserve_in_window open_window hour_start
public_source_control-reserve now gate h = (λ e. ground arith, λ e. ground arith)
