-- ===== src/Capacity.antt =====
-- packages/database/src/capacity.ts, with check_catalog_capacity of
-- packages/database/prisma/migrations/20261001000300_catalog_capacity: whether there is room for what
-- a task is about to write. Sizes are in bytes.
use universal_race_calendar.Common.{
  ℕ, zero, suc, ◌+◌, ◌*◌, ◌-◌, Bool, true, false, ◌&&◌, ◌||◌, not, if◌then◌else◌, leb, ltb, ◌==◌,
  String, str_eq, Option, none, some, List, [], ◌∷◌, any, keep, find, length, codes, same_codes,
  is_some, Result, ok, err, ◌>>◌, throw_if,
}
use universal_race_calendar.Common.Units.{Units, is_digit, is_number}
use universal_race_calendar.Queue.Task.{Task, leased}
pub mod Room
pub mod Allocation
pub mod Control
pub mod Fresh
pub mod Release
mod Tests
mod Scenarios

pub data Resource : Type 0 where
  database storage : Resource

-- The row of `CatalogCapacity`.
pub record CatalogCapacity : Type 0 where
  pub database_budget_bytes : Option ℕ
  pub storage_budget_bytes : Option ℕ
  pub database_headroom_bytes : ℕ
  pub storage_headroom_bytes : ℕ
  pub confirmed_at : Option ℕ
  pub database_bytes : Option ℕ
  pub storage_bytes : Option ℕ

-- A row of `CapacityReservation`.
pub record Reservation : Type 0 where
  pub task_id : String
  pub lease_token : String
  pub bytes : ℕ
  pub expires_at : ℕ

-- The sizes that the database measures in the call; none where it cannot.
pub record Measured : Type 0 where
  pub database_size : Option ℕ
  pub storage_size : Option ℕ

pub record Store : Type 0 where
  pub capacity : CatalogCapacity
  pub reservations : List Reservation
  pub tasks : List Task

pub data Decision : Type 0 where
  unconfigured measurement_unavailable database_limit storage_limit allowed : Decision

-- The task and the token of a call, both or neither.
abbrev pub Holder : Type 0
Holder = Option (String × String)

abbrev pub is_own : Holder → Reservation → Bool
is_own none r = false
is_own (some (id, token)) r = str_eq r.task_id id && str_eq r.lease_token token

abbrev pub is_active : ℕ → Reservation → Bool
is_active now r = ltb now r.expires_at

unfoldable pub total : List Reservation → ℕ
total [] = 0
total (r ∷ rs) = r.bytes + total rs

abbrev max : ℕ → ℕ → ℕ
max a b = if leb a b then b else a

-- What the holder already has reserved.
unfoldable pub own_bytes : Holder → ℕ → List Reservation → ℕ
own_bytes holder now rs = elim (find (λ r. is_own holder r && is_active now r) rs) [
  | none ↦ 0
  | some r ↦ r.bytes
]

-- What the others have reserved.
unfoldable pub reserved : Holder → ℕ → List Reservation → ℕ
unfolding total
reserved holder now rs = total (keep (λ r. is_active now r && not (is_own holder r)) rs)

abbrev pub reservation_ms : ℕ
reservation_ms = 1800000

-- The insertion, or the update of the row with the same key.
unfoldable pub reserve : Holder → ℕ → ℕ → List Reservation → List Reservation
reserve none bytes now rs = rs
reserve (some (id, token)) bytes now rs =
    record { task_id = id; lease_token = token; bytes = bytes; expires_at = now + reservation_ms }
    ∷ keep (λ r. not (is_own (some (id, token)) r)) rs

abbrev pub holds_lease : Holder → ℕ → List Task → Bool
holds_lease none now ts = false
holds_lease (some (id, token)) now ts = any (leased id token now) ts

-- What the growth comes to, with what the holder has already reserved.
unfoldable pub wanted : Holder → ℕ → ℕ → List Reservation → ℕ
unfolding own_bytes
wanted holder growth now rs = max growth (own_bytes holder now rs)

-- The end of the check of the storage, with its measured size.
unfoldable pub check_storage : Holder → ℕ → ℕ → ℕ → Option ℕ → Store → Store × Decision
check_storage holder growth now budget none store = (store, measurement_unavailable)
check_storage holder growth now budget (some size) store =
    let bytes = wanted holder growth now store.reservations in
    if leb budget (
      size
      + (reserved holder now store.reservations + (bytes + store.capacity.storage_headroom_bytes)))
    then (store, storage_limit)
    else if ltb 0 bytes
    then (record store { reservations = reserve holder bytes now store.reservations }, allowed)
    else (store, allowed)

abbrev pub measure_database : Option ℕ → Store → Store
measure_database size store = record store {
  capacity = record store.capacity { database_bytes = size };
}

abbrev pub measure_storage : Option ℕ → Store → Store
measure_storage size store = record store {
  capacity = record store.capacity { storage_bytes = size };
}

-- The middle of the check, with the measured size of the database.
unfoldable pub check_database :
    Resource → Holder → ℕ → ℕ → ℕ → Option ℕ → Measured → Option ℕ → Store → Store × Decision
unfolding check_storage
check_database resource holder growth now budget storage_budget measured none store =
    (store, measurement_unavailable)
check_database database holder growth now budget storage_budget measured (some size) store =
    if leb budget (size + (store.capacity.database_headroom_bytes + growth))
    then (store, database_limit)
    else (store, allowed)
check_database storage holder growth now budget storage_budget measured (some size) store =
    if leb budget (size + store.capacity.database_headroom_bytes)
    then (store, database_limit)
    else elim storage_budget [
      | none ↦ (store, unconfigured)
      | some limit ↦
          check_storage holder growth now limit measured.storage_size
            (measure_storage measured.storage_size store)
    ]

abbrev is_storage : Resource → Bool
is_storage storage = true
is_storage database = false

-- The check on the row, which an administrator has to confirm first.
unfoldable pub check_row : Resource → Holder → ℕ → ℕ → Measured → Store → Store × Decision
unfolding check_database
check_row resource holder growth now measured store = elim store.capacity.database_budget_bytes [
  | none ↦ (store, unconfigured)
  | some budget ↦
      if not (is_some store.capacity.confirmed_at)
        || (is_storage resource && not (is_some store.capacity.storage_budget_bytes))
      then (store, unconfigured)
      else check_database resource holder growth now budget store.capacity.storage_budget_bytes
          measured measured.database_size (measure_database measured.database_size store)
]

-- `check_catalog_capacity`; room in the storage is only for a task under its lease.
unfoldable pub check_catalog_capacity :
    Resource → Holder → ℕ → ℕ → Measured → Store → Result String (Store × Decision)
unfolding check_row
check_catalog_capacity resource holder growth now measured store =
    if is_storage resource && (ltb 0 growth && not (holds_lease holder now store.tasks))
    then err "lease_lost"
    else ok (check_row resource holder growth now measured store)

-- The deferral of `assertCapacity` carries the decision.
unfoldable pub deferral : Result String (Store × Decision) → Result String (Store × Option Decision)
deferral (err code) = err code
deferral (ok (next, allowed)) = ok (next, none)
deferral (ok (next, refusal)) = ok (next, some refusal)

-- `assertCapacity`
unfoldable pub assert_capacity : ℕ → ℕ → Measured → Store → Result String (Store × Option Decision)
unfolding deferral
assert_capacity growth now measured store =
    deferral (check_catalog_capacity database none growth now measured store)
