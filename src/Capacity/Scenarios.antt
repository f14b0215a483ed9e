-- ===== src/Capacity/Scenarios.antt =====
-- A resumption of the storage, and the theorems on controls at it.
use universal_race_calendar.Common.{
  ◌≡◌, refl, true, String, none, some, [], ◌∷◌, Result, ok, err, text_length,
}
use universal_race_calendar.Queue.Json.{Json, obj, end, field, str, stable_json}
use universal_race_calendar.Queue.Task.{Task, ticketsports}
use universal_race_calendar.Queue.Enqueue.{new_row}
use universal_race_calendar.Queue.Sample.{by_length, leaf_text}
use universal_race_calendar.Capacity.{
  Measured, check_catalog_capacity, wanted, reserved, assert_capacity,
}
use universal_race_calendar.Capacity.Control.{
  resumes, ControlResult, State, check_payload, check_room, assured, check_allowed, waits_for,
  release_waiting, resume, refresh, perform, read_capacity, conclude, answer, control_capacity,
}
use universal_race_calendar.Capacity.Allocation.{validate_allocation}
use universal_race_calendar.Capacity.Release.{Releases, control_capacity-Releases}

abbrev waiting : Task
waiting = record (new_row "t1" "admin" "k1" ticketsports "calendar" (obj end) "h1" 1000) {
  execution_hold = true;
  hold_reason = some "capacity_wait";
  progress = obj (field "capacityResource" (str "storage") end);
}

abbrev state : State
state = record {
  store = record {
    capacity = record {
      database_budget_bytes = some 500000000;
      storage_budget_bytes = some 10000000;
      database_headroom_bytes = 16777216;
      storage_headroom_bytes = 1048576;
      confirmed_at = some 900;
      database_bytes = none;
      storage_bytes = none;
    };
    reservations = [];
    tasks = waiting ∷ [];
  };
  audits = [];
}

abbrev sizes : Measured
sizes = record { database_size = some 90000000; storage_size = some 5000000 }

abbrev full : Measured
full = record { database_size = some 490000000; storage_size = some 5000000 }

abbrev payload : Json
payload = obj (field "reason" (str "room") (field "resource" (str "storage") end))

program : Unit {0}
unfolding check_payload check_room assured check_allowed waits_for release_waiting resume refresh
    perform read_capacity conclude answer control_capacity check_catalog_capacity assert_capacity
    text_length stable_json leaf_text validate_allocation reserved wanted
program = tt

abbrev attempt : Measured → Result String (State × ControlResult)
attempt measured = control_capacity by_length "admin" "key" resumes payload 2000 measured state

abbrev next_of : Result String (State × ControlResult) → State
next_of (ok (s, r)) = s
next_of (err code) = state

abbrev result_of : Result String (State × ControlResult) → ControlResult
result_of (ok (s, r)) = r
result_of (err code) = record { view = read_capacity 0 state.store; released = 0; decisions = [] }

released_one : (result_of (attempt sizes)).released ≡ 1
unfolding program
released_one = refl

no_room : attempt full ≡ err "capacity_database_limit"
unfolding program
no_room = refl

control_capacity-Releases_example :
    Releases resumes payload 2000 sizes state.store
      (next_of (attempt sizes)).store.tasks
      (result_of (attempt sizes)).released
unfolding program
control_capacity-Releases_example =
    control_capacity-Releases by_length "admin" "key" resumes payload 2000 sizes state
      (next_of (attempt sizes)) (result_of (attempt sizes)) refl refl
