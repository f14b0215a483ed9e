-- ===== src/Capacity/Tests.antt =====
-- A megabyte for a running task, and an allocation.
use universal_race_calendar.Common.{◌≡◌, refl, true, none, some, [], ◌∷◌, codes, ok, err, arith}
use universal_race_calendar.Queue.Json.{obj, end}
use universal_race_calendar.Queue.Task.{Task, ticketsports, running, leased}
use universal_race_calendar.Queue.Enqueue.{new_row}
use universal_race_calendar.Capacity.{
  storage, Reservation, Measured, Store, allowed, Holder, check_catalog_capacity, holds_lease,
  wanted, reserved, reserve,
}
use universal_race_calendar.Capacity.Room.{HasRoom, check_catalog_capacity-HasRoom}
use universal_race_calendar.Capacity.Allocation.{
  AllocationRequest, validate_allocation, configure, IsAccepted, configure-IsAccepted,
}

abbrev collecting : Task
collecting = record (new_row "t1" "admin" "k1" ticketsports "calendar" (obj end) "h1" 1000) {
  status = running;
  lease_token = some "token";
  lease_until = some 90000;
}

abbrev other : Reservation
other = record { task_id = "t2"; lease_token = "older"; bytes = 2000000; expires_at = 500000 }

abbrev store : Store
store = record {
  capacity = record {
    database_budget_bytes = some 500000000;
    storage_budget_bytes = some 10000000;
    database_headroom_bytes = 16777216;
    storage_headroom_bytes = 1048576;
    confirmed_at = some 900;
    database_bytes = none;
    storage_bytes = none;
  };
  reservations = other ∷ [];
  tasks = collecting ∷ [];
}

abbrev sizes : Measured
sizes = record { database_size = some 90000000; storage_size = some 5000000 }

abbrev holder : Holder
holder = some ("t1", "token")

abbrev after : Store
after = record store {
  capacity = record store.capacity { database_bytes = some 90000000; storage_bytes = some 5000000 };
  reservations =
      record { task_id = "t1"; lease_token = "token"; bytes = 1000000; expires_at = 1802000 }
      ∷ other
      ∷ [];
}

one_megabyte : check_catalog_capacity storage holder 1000000 2000 sizes store ≡ ok (after, allowed)
unfolding check_catalog_capacity leased wanted reserved reserve
one_megabyte = refl

lost_lease : check_catalog_capacity storage holder 1000000 90000 sizes store ≡ err "lease_lost"
unfolding check_catalog_capacity leased
lost_lease = refl

check_catalog_capacity-HasRoom_example :
    (holds_lease holder 2000 store.tasks ≡ true)
    × HasRoom "t1" "token" 1000000 2000 sizes store after
check_catalog_capacity-HasRoom_example =
    check_catalog_capacity-HasRoom "t1" "token" 1000000 2000 (omega arith) sizes store after
      one_megabyte

abbrev request : AllocationRequest
request = record {
  database_budget_text = some (codes "500000000");
  storage_budget_text = some (codes "10000000");
  database_headroom_text = some (codes "16777216");
  storage_headroom_text = some (codes "1048576");
  allocation_confirmed = true;
  reason = some (codes "plano novo");
}

valid_request : validate_allocation request ≡ ok tt
unfolding validate_allocation
valid_request = refl

no_headroom :
    validate_allocation (record request { storage_headroom_text = some (codes "10000000") })
    ≡ err "capacity_allocation_invalid"
unfolding validate_allocation
no_headroom = refl

configure-IsAccepted_example : IsAccepted (configure request 900 store.capacity)
configure-IsAccepted_example = configure-IsAccepted request 900 store.capacity valid_request
