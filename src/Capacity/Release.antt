-- ===== src/Capacity/Release.antt =====
-- What a control of the capacity lets go, and that it answers its repetition alike.
use universal_race_calendar.Common.{
  ℕ, ◌≡◌, ◌≢◌, refl, sym, ◌∙◌, ap, subst, true, String, eq_iff, Option, none, some, List, find,
  keep, length, Result, ok, err, ok-injective, >>=-eq-ok, >>-eq-ok, arith,
}
use universal_race_calendar.Queue.Json.{Json, Runtime, text_at, stable_json}
use universal_race_calendar.Queue.Task.{Task}
use universal_race_calendar.Capacity.{
  Resource, database, storage, Measured, Store, Decision, unconfigured, measurement_unavailable,
  database_limit, storage_limit, allowed, check_catalog_capacity, check_row, check_database,
  check_storage, measure_storage, measure_database, deferral, assert_capacity,
}
use universal_race_calendar.Capacity.Fresh.{
  DatabaseRoom, StorageRoom, Unmoved, check_row-database, check_row-storage,
}
use universal_race_calendar.Capacity.Control.{
  ControlAction, configures, resumes, refreshes, same_action, ControlResult, ControlEntry, State,
  default_growth, assured, check_allowed, check_payload, check_room, resource_of, waits_for,
  release_waiting, Done, resume, refresh, perform, is_entry, conclude, answer, control_capacity,
}

abbrev RoomFor : Resource → ℕ → Measured → Store → Type 0
RoomFor database now measured store = DatabaseRoom measured default_growth store
RoomFor storage now measured store =
    DatabaseRoom measured default_growth store × StorageRoom measured now store

check_allowed-eq-ok :
    (o : Result String (Store × Decision)) (next : Store)
    → check_allowed o ≡ ok next
    → o ≡ ok (next, allowed)
unfolding check_allowed
check_allowed-eq-ok (err code) next h = absurd cc
check_allowed-eq-ok (ok (s, allowed)) next h = rw (ok-injective h)
check_allowed-eq-ok (ok (s, unconfigured)) next h = absurd cc
check_allowed-eq-ok (ok (s, measurement_unavailable)) next h = absurd cc
check_allowed-eq-ok (ok (s, database_limit)) next h = absurd cc
check_allowed-eq-ok (ok (s, storage_limit)) next h = absurd cc

-- A measurement of the database whose deferral is thrown has allowed the growth.
assured-allowed :
    (o : Result String (Store × Decision)) (next : Store)
    → assured (deferral o) ≡ ok next
    → o ≡ ok (next, allowed)
unfolding assured deferral
assured-allowed (err code) next h = absurd cc
assured-allowed (ok (s, allowed)) next h = rw (ok-injective h)
assured-allowed (ok (s, unconfigured)) next h = absurd cc
assured-allowed (ok (s, measurement_unavailable)) next h = absurd cc
assured-allowed (ok (s, database_limit)) next h = absurd cc
assured-allowed (ok (s, storage_limit)) next h = absurd cc

pub assured-room :
    (growth now : ℕ) (measured : Measured) (store next : Store)
    → assured (assert_capacity growth now measured store) ≡ ok next
    → DatabaseRoom measured growth store × Unmoved next store
unfolding assert_capacity check_catalog_capacity
assured-room growth now measured store next h =
    check_row-database growth now measured store next (
      ok-injective
        (assured-allowed (ok (check_row database none growth now measured store)) next h))

storage-room :
    (now : ℕ) (measured : Measured) (store next : Store)
    → check_catalog_capacity storage none 0 now measured store ≡ ok (next, allowed)
    → StorageRoom measured now store × Unmoved next store
unfolding check_catalog_capacity
storage-room now measured store next h = check_row-storage now measured store next (ok-injective h)

-- The room of the storage does not depend on a measurement of the database.
storage-before :
    (now : ℕ) (measured : Measured) (store mid : Store)
    → Unmoved mid store
    → StorageRoom measured now mid
    → StorageRoom measured now store
storage-before now measured store mid (tasks, rows, budget, headroom) room = record {
  size = room.size;
  budget = room.budget;
  is_measured = room.is_measured;
  is_budgeted = sym budget ∙ room.is_budgeted;
  fits = rw (sym rows, sym headroom) room.fits;
}

check_room-RoomFor :
    (resource : Resource) (now : ℕ) (measured : Measured) (store next : Store)
    → check_room resource now measured store ≡ ok next
    → RoomFor resource now measured store × (next.tasks ≡ store.tasks)
unfolding check_room
check_room-RoomFor database now measured store next h =
    let (room, rows) = assured-room default_growth now measured store next h in (room, rows.0)
check_room-RoomFor storage now measured store next h =
    let (mid, e, h1) =
      >>=-eq-ok (assured (assert_capacity default_growth now measured store)) _ h in
    let (room, rows) = assured-room default_growth now measured store mid e in
    let (inner, rows') =
      storage-room now measured mid next
        (check_allowed-eq-ok (check_catalog_capacity storage none 0 now measured mid) next h1) in
    ((room, storage-before now measured store mid rows inner), rows'.0 ∙ rows.0)

-- A check without a task leaves the tasks.
check_storage-tasks :
    (now budget : ℕ) (o : Option ℕ) (store : Store)
    → (check_storage none 0 now budget o store).0.tasks ≡ store.tasks
unfolding check_storage
check_storage-tasks now budget none store = refl
check_storage-tasks now budget (some size) store = ground arith

check_database-tasks :
    (resource : Resource) (now limit : ℕ) (budget : Option ℕ) (measured : Measured) (o : Option ℕ)
    (store : Store)
    → (check_database resource none 0 now limit budget measured o store).0.tasks ≡ store.tasks
unfolding check_database
check_database-tasks database now limit budget measured none store = refl
check_database-tasks storage now limit budget measured none store = refl
check_database-tasks database now limit budget measured (some size) store = ground arith
check_database-tasks storage now limit none measured (some size) store = ground arith
check_database-tasks storage now limit (some budget) measured (some size) store = ground (
  arith,
  check_storage-tasks now budget measured.storage_size
      (measure_storage measured.storage_size store),
)

check_row-tasks :
    (resource : Resource) (now : ℕ) (measured : Measured) (store : Store)
    → (check_row resource none 0 now measured store).0.tasks ≡ store.tasks
unfolding check_row
check_row-tasks resource now measured store =
    let kept : (limit : ℕ)
        → (check_database resource none 0 now limit store.capacity.storage_budget_bytes measured
            measured.database_size (measure_database measured.database_size store)).0.tasks
          ≡ store.tasks =
      λ limit.
        check_database-tasks resource now limit store.capacity.storage_budget_bytes measured
          measured.database_size (measure_database measured.database_size store) in
    ground (arith, kept)

check_catalog_capacity-tasks :
    (resource : Resource) (now : ℕ) (measured : Measured) (store next : Store) (d : Decision)
    → check_catalog_capacity resource none 0 now measured store ≡ ok (next, d)
    → next.tasks ≡ store.tasks
unfolding check_catalog_capacity
check_catalog_capacity-tasks database now measured store next d h =
    sym (ap (λ x. x.0.tasks) (ok-injective h)) ∙ check_row-tasks database now measured store
check_catalog_capacity-tasks storage now measured store next d h =
    sym (ap (λ x. x.0.tasks) (ok-injective h)) ∙ check_row-tasks storage now measured store

-- What a control may do to the tasks: none but a resumption lets go, and that only what waits for its
-- resource.
pub data Releases (action : ControlAction) (payload : Json) (now : ℕ) (measured : Measured)
    (before : Store) (after : List Task) (released : ℕ) : Type 0 where
  none_released :
      action ≢ resumes
      → after ≡ before.tasks
      → released ≡ 0
      → Releases action payload now measured before after released
  released_waiting :
      (resource : Resource)
      → action ≡ resumes
      → resource_of (text_at "resource" payload) ≡ some resource
      → RoomFor resource now measured before
      → after ≡ release_waiting resource now before.tasks
      → released ≡ length (keep (waits_for resource) before.tasks)
      → Releases action payload now measured before after released

refresh-Releases :
    (payload : Json) (now : ℕ) (measured : Measured) (store next : Store) (n : ℕ)
    (decisions : List (Resource × Decision))
    → refresh now measured store ≡ ok (next, n, decisions)
    → Releases refreshes payload now measured store next.tasks n
unfolding refresh
refresh-Releases payload now measured store next n decisions h =
    let ((first, d), e, h1) =
      >>=-eq-ok (check_catalog_capacity database none 0 now measured store) _ h in
    let ((second, d'), e', h2) =
      >>=-eq-ok (check_catalog_capacity storage none 0 now measured first) _ h1 in
    let q = ok-injective h2 in
    none_released (λ e. cc)
      (sym (ap (λ x. x.0.tasks) q)
        ∙ check_catalog_capacity-tasks storage now measured first second d' e'
        ∙ check_catalog_capacity-tasks database now measured store first d e)
      (sym (ap (λ x. x.1) q))

resume-Releases :
    (payload : Json) (now : ℕ) (measured : Measured) (store next : Store) (n : ℕ)
    (decisions : List (Resource × Decision)) (o : Option Resource)
    → resource_of (text_at "resource" payload) ≡ o
    → resume o now measured store ≡ ok (next, n, decisions)
    → Releases resumes payload now measured store next.tasks n
unfolding resume
resume-Releases payload now measured store next n decisions none e h = absurd cc
resume-Releases payload now measured store next n decisions (some resource) e h =
    let (mid, checked, h1) = >>=-eq-ok (check_room resource now measured store) _ h in
    let (room, rows) = check_room-RoomFor resource now measured store mid checked in
    let q = ok-injective h1 in
    released_waiting resource refl e room
      (sym (ap (λ x. x.0.tasks) q) ∙ ap (release_waiting resource now) rows)
      (sym (ap (λ x. x.1) q) ∙ ap (λ ts. length (keep (waits_for resource) ts)) rows)

perform-Releases :
    (action : ControlAction) (payload : Json) (now : ℕ) (measured : Measured) (store next : Store)
    (n : ℕ) (decisions : List (Resource × Decision))
    → perform action payload now measured store ≡ ok (next, n, decisions)
    → Releases action payload now measured store next.tasks n
unfolding perform
perform-Releases configures payload now measured store next n decisions h =
    let q = ok-injective h in
    none_released (λ e. cc) (sym (ap (λ x. x.0.tasks) q)) (sym (ap (λ x. x.1) q))
perform-Releases refreshes payload now measured store next n decisions h =
    refresh-Releases payload now measured store next n decisions h
perform-Releases resumes payload now measured store next n decisions h =
    resume-Releases payload now measured store next n decisions
      (resource_of (text_at "resource" payload)) refl h

same_action_refl : (a : ControlAction) → same_action a a ≡ true
same_action_refl configures = refl
same_action_refl resumes = refl
same_action_refl refreshes = refl

module _ (runtime : Runtime) where
  -- A control of the capacity that succeeds under a new key releases nothing, or it is a resumption of
  -- the resource that it names: then the database is measured and has room for its headroom and a
  -- growth of 64 KiB, the storage too for its headroom and all reservations if it is what is resumed,
  -- and exactly the tasks that wait for that resource are let go and counted.
  pub control_capacity-Releases :
      (actor_id key : String) (action : ControlAction) (payload : Json) (now : ℕ)
      (measured : Measured) (s next : State) (result : ControlResult)
      → find (is_entry actor_id key) s.audits ≡ none
      → control_capacity runtime actor_id key action payload now measured s ≡ ok (next, result)
      → Releases action payload now measured s.store next.store.tasks result.released
  unfolding control_capacity answer conclude
  control_capacity-Releases actor_id key action payload now measured s next result fresh h =
      let (valid, h1) = >>-eq-ok (check_payload action payload) _ (rw fresh at h) in
      let ((store, n, decisions), e, h2) =
        >>=-eq-ok (perform action payload now measured s.store) _ h1 in
      let q = ok-injective h2 in
      let done = perform-Releases action payload now measured s.store store n decisions e in
      subst
        (λ (x : State × ControlResult).
          Releases action payload now measured s.store x.0.store.tasks x.1.released)
        q done

  conclude-repeated :
      (actor_id key : String) (action : ControlAction) (payload : Json) (now later : ℕ)
      (measured : Measured) (audits : List ControlEntry) (done : Done)
      → check_payload action payload ≡ ok tt
      → control_capacity runtime actor_id key action payload later measured
          (conclude actor_id key action payload now audits done).0
        ≡ ok (conclude actor_id key action payload now audits done)
  unfolding control_capacity answer conclude
  conclude-repeated actor_id key action payload now later measured audits (store, n, decisions)
        valid =
      let actor = (eq_iff actor_id actor_id).1 refl in
      let own = (eq_iff key key).1 refl in
      let same = same_action_refl action in
      let text = (eq_iff (stable_json runtime payload) (stable_json runtime payload)).1 refl in
      rw (valid, actor, own, same, text) refl

  -- A control of the capacity that succeeds under a new key answers its repetition by the same actor
  -- under that key, at any later time and with any measurements, with the same result, and changes
  -- nothing then.
  control_capacity_idempotent :
      (actor_id key : String) (action : ControlAction) (payload : Json) (now later : ℕ)
      (measured measured' : Measured) (s next : State) (result : ControlResult)
      → find (is_entry actor_id key) s.audits ≡ none
      → control_capacity runtime actor_id key action payload now measured s ≡ ok (next, result)
      → control_capacity runtime actor_id key action payload later measured' next
        ≡ ok (next, result)
  unfolding control_capacity answer conclude
  control_capacity_idempotent actor_id key action payload now later measured measured' s next result
        fresh h =
      let (valid, h1) = >>-eq-ok (check_payload action payload) _ (rw fresh at h) in
      let ((store, n, decisions), e, h2) =
        >>=-eq-ok (perform action payload now measured s.store) _ h1 in
      subst
        (λ (x : State × ControlResult).
          control_capacity runtime actor_id key action payload later measured' x.0 ≡ ok x)
        (ok-injective h2)
        (conclude-repeated actor_id key action payload now later measured' s.audits
          (store, n, decisions) valid)
