-- ===== src/Capacity/Control.antt =====
-- `controlCapacity` and `readCapacity`: what an administrator configures, measures again and lets go.
-- And `assertTaskLease` of packages/database/src/lease.ts.
use universal_race_calendar.Common.{
  ℕ, Bool, true, false, ◌&&◌, not, if◌then◌else◌, String, str_eq, Option, none, some, List, [], ◌∷◌,
  find, keep, length, codes, is_some, Result, ok, err, ◌>>=◌, ◌>>◌, throw_if,
}
use universal_race_calendar.Common.Units.{Units, utf16}
use universal_race_calendar.Queue.Json.{Json, bool, Runtime, get_field, text_at, stable_json}
use universal_race_calendar.Queue.Task.{Task, is_queued, update_where}
use universal_race_calendar.Capacity.{
  Resource, database, storage, CatalogCapacity, Measured, Store, Holder, Decision, unconfigured,
  measurement_unavailable, database_limit, storage_limit, allowed, is_active, total, holds_lease,
  check_catalog_capacity, assert_capacity,
}
use universal_race_calendar.Capacity.Allocation.{
  AllocationRequest, is_reason, validate_allocation, configure,
}

pub data ControlAction : Type 0 where
  configures resumes refreshes : ControlAction

abbrev pub same_action : ControlAction → ControlAction → Bool
same_action configures configures = true
same_action resumes resumes = true
same_action refreshes refreshes = true
same_action _ _ = false

abbrev is_resume : ControlAction → Bool
is_resume resumes = true
is_resume _ = false

-- What `readCapacity` shows, but for the times of the measurements.
pub record CapacityView : Type 0 where
  pub row : CatalogCapacity
  pub reserved_storage_bytes : ℕ

pub record ControlResult : Type 0 where
  pub view : CapacityView
  pub released : ℕ
  pub decisions : List (Resource × Decision)

-- An entry of `AdminAudit` of one of the three actions.
pub record ControlEntry : Type 0 where
  pub actor_id : String
  pub key : String
  pub action : ControlAction
  pub payload : Json
  pub result : ControlResult

pub record State : Type 0 where
  pub store : Store
  pub audits : List ControlEntry

abbrev decision_text : Decision → String
decision_text unconfigured = "capacity_unconfigured"
decision_text measurement_unavailable = "capacity_measurement_unavailable"
decision_text database_limit = "capacity_database_limit"
decision_text storage_limit = "capacity_storage_limit"
decision_text allowed = "allowed"

abbrev units_of : Option String → Option Units
units_of none = none
units_of (some s) = some (utf16 (codes s))

abbrev is_true : Option Json → Bool
is_true (some (bool true)) = true
is_true _ = false

abbrev allocation_of : Json → AllocationRequest
allocation_of payload = record {
  database_budget_text = units_of (text_at "databaseBudgetBytes" payload);
  storage_budget_text = units_of (text_at "storageBudgetBytes" payload);
  database_headroom_text = units_of (text_at "databaseHeadroomBytes" payload);
  storage_headroom_text = units_of (text_at "storageHeadroomBytes" payload);
  allocation_confirmed = is_true (get_field "allocationConfirmed" payload);
  reason = units_of (text_at "reason" payload);
}

abbrev pub resource_of : Option String → Option Resource
resource_of none = none
resource_of (some s) =
    if str_eq s "database" then some database else if str_eq s "storage" then some storage else none

abbrev check_allocation : ControlAction → Json → Result String (Unit {0})
check_allocation configures payload = validate_allocation (allocation_of payload)
check_allocation _ payload = ok tt

-- What stands in front of the transaction.
unfoldable pub check_payload : ControlAction → Json → Result String (Unit {0})
check_payload action payload = do
  check_allocation action payload
  throw_if (not (is_reason (units_of (text_at "reason" payload)))) "capacity_allocation_invalid"
  throw_if (is_resume action && not (is_some (resource_of (text_at "resource" payload))))
      "capacity_allocation_invalid"

unfoldable pub read_capacity : ℕ → Store → CapacityView
read_capacity now store = record {
  row = store.capacity;
  reserved_storage_bytes = total (keep (is_active now) store.reservations);
}

-- A refusal is thrown.
unfoldable pub assured : Result String (Store × Option Decision) → Result String Store
assured (err code) = err code
assured (ok (next, none)) = ok next
assured (ok (next, some refusal)) = err (decision_text refusal)

unfoldable pub check_allowed : Result String (Store × Decision) → Result String Store
check_allowed (err code) = err code
check_allowed (ok (next, allowed)) = ok next
check_allowed (ok (next, refusal)) = err (decision_text refusal)

-- The default growth of a check of the database.
abbrev pub default_growth : ℕ
default_growth = 65536

-- A resumption measures the database again, and the storage if that is what it releases.
unfoldable pub check_room : Resource → ℕ → Measured → Store → Result String Store
unfolding assured check_allowed
check_room database now measured store = assured (assert_capacity default_growth now measured store)
check_room storage now measured store = do
  next ← assured (assert_capacity default_growth now measured store)
  check_allowed (check_catalog_capacity storage none 0 now measured next)

abbrev resource_text : Resource → String
resource_text database = "database"
resource_text storage = "storage"

abbrev is_text : String → Option String → Bool
is_text s none = false
is_text s (some t) = str_eq t s

unfoldable pub waits_for : Resource → Task → Bool
waits_for resource t =
    is_queued t.status
    && (t.execution_hold
        && (is_text "capacity_wait" t.hold_reason
            && is_text (resource_text resource) (text_at "capacityResource" t.progress)))

abbrev let_go : ℕ → Task → Task
let_go now t = record t {
  execution_hold = false;
  hold_reason = none;
  error_code = none;
  updated_at = now;
}

unfoldable pub release_waiting : Resource → ℕ → List Task → List Task
release_waiting resource now ts = (update_where (waits_for resource) (let_go now) ts).0

abbrev pub Done : Type 0
Done = Store × ℕ × List (Resource × Decision)

unfoldable pub resume : Option Resource → ℕ → Measured → Store → Result String Done
unfolding check_room release_waiting
resume none now measured store = err "capacity_allocation_invalid"
resume (some resource) now measured store = do
  next ← check_room resource now measured store
  ok (
    record next { tasks = release_waiting resource now next.tasks },
    length (keep (waits_for resource) next.tasks),
    [],
  )

unfoldable pub refresh : ℕ → Measured → Store → Result String Done
refresh now measured store = do
  (first, database_decision) ← check_catalog_capacity database none 0 now measured store
  (second, storage_decision) ← check_catalog_capacity storage none 0 now measured first
  ok (second, 0, (database, database_decision) ∷ (storage, storage_decision) ∷ [])

unfoldable pub perform : ControlAction → Json → ℕ → Measured → Store → Result String Done
unfolding resume refresh
perform configures payload now measured store =
    ok (record store { capacity = configure (allocation_of payload) now store.capacity }, 0, [])
perform resumes payload now measured store =
    resume (resource_of (text_at "resource" payload)) now measured store
perform refreshes payload now measured store = refresh now measured store

abbrev pub is_entry : String → String → ControlEntry → Bool
is_entry actor_id key e = str_eq e.actor_id actor_id && str_eq e.key key

-- The result, and the audit that keeps it.
unfoldable pub conclude :
    String → String → ControlAction → Json → ℕ → List ControlEntry → Done → State × ControlResult
unfolding read_capacity
conclude actor_id key action payload now audits (store, released, decisions) =
    let result : ControlResult = record {
      view = read_capacity now store;
      released = released;
      decisions = decisions;
    } in
    (
      record {
        store = store;
        audits =
            record {
              actor_id = actor_id;
              key = key;
              action = action;
              payload = payload;
              result = result;
            }
            ∷ audits;
      },
      result,
    )

module _ (runtime : Runtime) where
  -- What stands behind the search for an earlier entry of the key.
  unfoldable pub answer :
      String
      → String
      → ControlAction
      → Json
      → ℕ
      → Measured
      → State
      → Option ControlEntry
      → Result String (State × ControlResult)
  unfolding perform conclude
  answer actor_id key action payload now measured s (some previous) =
      if same_action previous.action action
        && str_eq (stable_json runtime previous.payload) (stable_json runtime payload)
      then ok (s, previous.result)
      else err "idempotency_conflict"
  answer actor_id key action payload now measured s none = do
    done ← perform action payload now measured s.store
    ok (conclude actor_id key action payload now s.audits done)

  unfoldable pub control_capacity :
      String
      → String
      → ControlAction
      → Json
      → ℕ
      → Measured
      → State
      → Result String (State × ControlResult)
  unfolding check_payload answer
  control_capacity actor_id key action payload now measured s = do
    check_payload action payload
    answer actor_id key action payload now measured s (find (is_entry actor_id key) s.audits)

-- `assertTaskLease`: outside a task only the capacity counts.
unfoldable pub assert_task_lease :
    Holder → ℕ → ℕ → Measured → Store → Result String (Store × Option Decision)
assert_task_lease none growth now measured store = assert_capacity growth now measured store
assert_task_lease (some lease) growth now measured store = do
  throw_if (not (holds_lease (some lease) now store.tasks)) "lease_lost"
  assert_capacity growth now measured store
