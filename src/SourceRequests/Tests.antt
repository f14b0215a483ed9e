-- ===== src/SourceRequests/Tests.antt =====
-- A gate with little budget, and the theorems there.
use universal_race_calendar.Common.{
  ℕ, ◌-◌, ◌≤◌, ◌<◌, ◌≡◌, refl, ◌≢◌, ◌↔◌, ltb, String, none, some, [], ◌∷◌, length, ok, arith,
  text_length,
}
use universal_race_calendar.Queue.Json.{Runtime}
use universal_race_calendar.Queue.Task.{ticketsports}
use universal_race_calendar.SourceRequests.Gate.{
  Gate, allowed, hour_start, new_gate, reserve_source_request, reserve_in_window, open_window,
  waits, wait_for_source_request, set_gate, public_source_control,
}
use universal_race_calendar.SourceRequests.Budget.{
  granted_at, IsSpaced, granted_at-IsSpaced, used_in, granted_at-le-limit,
  wait_for_source_request_ends, public_source_control-reserve,
}
use universal_race_calendar.SourceRequests.Control.{
  State, Payload, Action, resume, configure, resume_source_requests, configure_source_requests,
  mutate_source_control, answer, is_entry, updated_gate, released,
}
use universal_race_calendar.SourceRequests.Resume.{IsResumed, resume_source_requests-IsResumed}

abbrev gate : Gate
gate = record (new_gate ticketsports 7200000) { limit_per_hour = 2 }

granted_at_test :
    granted_at gate (7200000 ∷ 7200500 ∷ 7201000 ∷ 7209000 ∷ []) ≡ 7200000 ∷ 7201000 ∷ []
unfolding granted_at reserve_source_request reserve_in_window open_window hour_start
granted_at_test = refl

granted_at-IsSpaced_example : IsSpaced 1000 7200000 (granted_at gate (7200000 ∷ 7200500 ∷ []))
unfolding hour_start
granted_at-IsSpaced_example = granted_at-IsSpaced gate (7200000 ∷ 7200500 ∷ [])

granted_at-le-limit_example :
    length (granted_at gate (7200000 ∷ 7201000 ∷ 7209000 ∷ [])) ≤ 2 - used_in 2 gate
granted_at-le-limit_example =
    granted_at-le-limit 2 gate (7200000 ∷ 7201000 ∷ 7209000 ∷ []) (refl, (refl, (refl, tt)))

wait_for_source_request_ends_example : (wait_for_source_request (λ _ g. g) 2 7199000 gate).1 ≢ waits
wait_for_source_request_ends_example =
    wait_for_source_request_ends (λ _ g. g) 7199000 gate (omega arith) (λ g. omega arith)

public_source_control-reserve_example : ((reserve_source_request 7200000 gate).1 ≡ allowed) ↔ (
    ((public_source_control gate 7200000).blocked_at ≡ none)
    × ((public_source_control gate 7200000).requests_used
        < (public_source_control gate 7200000).limit_per_hour)
    × (7200000 ≤ 7200000))
unfolding hour_start
public_source_control-reserve_example = public_source_control-reserve 7200000 gate refl

abbrev by_length : Runtime
by_length = record {
  before = λ a b. ltb (text_length a) (text_length b);
  leaf = λ j. "v";
  quote = λ s. s;
}

abbrev start : State
start = record {
  gates = λ s. some (record gate { blocked_at = some 7100000; blocked_until = some 7150000 });
  tasks = [];
  audits = [];
}

-- The state behind a first control: the gate, and the entry that answers for it.
abbrev after : Action → Payload → String → Gate → ℕ → State
after action payload key new now = record {
  gates = set_gate ticketsports new start.gates;
  tasks = [];
  audits =
      record {
        actor_id = "admin";
        key = key;
        action = action;
        source = ticketsports;
        payload = payload;
        result = public_source_control new now;
      }
      ∷ [];
}

abbrev because : Payload
because = record { reason = "checked"; limit_per_hour = none; min_delay_ms = none }

abbrev slower : Payload
slower = record { reason = "checked"; limit_per_hour = some 50; min_delay_ms = some 2000 }

abbrev closed : Gate
closed = record gate { blocked_at = some 7100000; blocked_until = some 7150000 }

resumed :
    resume_source_requests by_length ticketsports "admin" "checked" "k" 7200000 start
    ≡ ok (after resume because "k" gate 7200000, public_source_control gate 7200000)
unfolding resume_source_requests mutate_source_control answer is_entry updated_gate released
resumed = refl

resumed_again :
    mutate_source_control by_length ticketsports "admin" "k" resume because 7200000 start
    ≡ ok (after resume because "k" gate 7200000, public_source_control gate 7200000)
unfolding mutate_source_control answer is_entry updated_gate released
resumed_again = refl

configured :
    configure_source_requests by_length ticketsports "admin" "checked" 50 2000 "k" 7200000 start
    ≡ ok (
      after configure slower "k"
          (record closed { limit_per_hour = 50; min_delay_ms = 2000 })
          7200000,
      public_source_control (record closed { limit_per_hour = 50; min_delay_ms = 2000 }) 7200000,
    )
unfolding configure_source_requests mutate_source_control answer is_entry updated_gate released
configured = refl

resume_source_requests-IsResumed_example : IsResumed ticketsports 7200000 closed gate [] []
resume_source_requests-IsResumed_example =
    resume_source_requests-IsResumed by_length ticketsports "admin" "checked" "k" 7200000 start
      (after resume because "k" gate 7200000) (public_source_control gate 7200000) refl resumed
