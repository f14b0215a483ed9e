-- ===== src/Capacity/Room.antt =====
-- What an allowed check promises: the reservations fit the budget.
use universal_race_calendar.Common.{
  ℕ, ◌+◌, ◌≤◌, ◌<◌, ◌≡◌, refl, sym, ap, inl, inr, true, not, leb, ltb, String, Option, none, some,
  List, [], ◌∷◌, keep, In, is_some, ok, ok-injective, Bool-cases, Option-cases, arith,
}
use universal_race_calendar.Capacity.{
  storage, Reservation, Measured, Store, allowed, Holder, is_own, is_active, total, reserved,
  reserve, reservation_ms, wanted, check_storage, check_database, check_row, check_catalog_capacity,
  holds_lease, measure_storage,
}

abbrev pub active : ℕ → List Reservation → List Reservation
active now rs = keep (is_active now) rs

total-others :
    (holder : Holder) (now : ℕ) (rs : List Reservation)
    → total (active now (keep (λ r. not (is_own holder r)) rs)) ≡ reserved holder now rs
unfolding reserved total
total-others holder now [] = refl
total-others holder now (r ∷ rs) =
    let later = total-others holder now rs in
    elim (Bool-cases (is_own holder r)) [
      | inl o ↦ elim (Bool-cases (is_active now r)) [
        | inl a ↦ rw (o, a) later
        | inr a ↦ rw (o, a) later
      ]
      | inr o ↦ elim (Bool-cases (is_active now r)) [
        | inl a ↦ rw (o, a) (ap (λ n. r.bytes + n) later)
        | inr a ↦ rw (o, a) later
      ]
    ]

total-reserve :
    (id token : String) (bytes now : ℕ) (rs : List Reservation)
    → total (active now (reserve (some (id, token)) bytes now rs))
      ≡ bytes + reserved (some (id, token)) now rs
unfolding reserve total
total-reserve id token bytes now rs =
    let here : ltb now (now + reservation_ms) ≡ true = ground arith in
    rw here (ap (λ n. bytes + n) (total-others (some (id, token)) now rs))

-- The room that is left, and the lease and the reservation behind it.
pub record HasRoom (id token : String) (growth now : ℕ) (measured : Measured) (store next : Store)
    : Type 0 where
  pub size : ℕ
  pub budget : ℕ
  pub sized : measured.storage_size ≡ some size
  pub budgeted : store.capacity.storage_budget_bytes ≡ some budget
  pub fits :
      size + (total (active now next.reservations) + store.capacity.storage_headroom_bytes) < budget
  pub own : Reservation
  pub listed : In own next.reservations
  pub own_key : (own.task_id ≡ id) × (own.lease_token ≡ token)
  pub enough : growth ≤ own.bytes
  pub lasts : own.expires_at ≡ now + reservation_ms

module _ (id token : String) (growth now : ℕ) (some_growth : 0 < growth) where
  wanted-enough : (rs : List Reservation) → growth ≤ wanted (some (id, token)) growth now rs
  unfolding wanted
  wanted-enough rs = ground arith

  check_storage-fits :
      (size budget : ℕ) (store next : Store)
      → check_storage (some (id, token)) growth now budget (some size) store ≡ (next, allowed)
      → (next.reservations
          ≡ reserve
              (some (id, token))
              (wanted (some (id, token)) growth now store.reservations)
              now
              store.reservations)
        × (size
              + (reserved (some (id, token)) now store.reservations
                  + (wanted (some (id, token)) growth now store.reservations
                      + store.capacity.storage_headroom_bytes))
            < budget)
  unfolding check_storage
  check_storage-fits size budget store next h =
      let enough = wanted-enough store.reservations in
      let positive : ltb 0 (wanted (some (id, token)) growth now store.reservations) ≡ true =
        ground (arith, enough, some_growth) in
      elim (Bool-cases (
        leb budget (
          size
          + (reserved (some (id, token)) now store.reservations
              + (wanted (some (id, token)) growth now store.reservations
                  + store.capacity.storage_headroom_bytes))))) [
                    | inl y ↦ absurd (let q = ap (λ x. x.1) (rw y at h) in cc)
                    | inr n ↦
                        let q = rw (n, positive) at h in
                        (sym (ap (λ x. x.0.reservations) q), ground (arith, n))
                  ]

  module _ (measured : Measured) where
    check_storage-HasRoom :
        (start store next : Store) (budget : ℕ) (size : Option ℕ)
        → measured.storage_size ≡ size
        → start.capacity.storage_budget_bytes ≡ some budget
        → start.capacity.storage_headroom_bytes ≡ store.capacity.storage_headroom_bytes
        → check_storage (some (id, token)) growth now budget size store ≡ (next, allowed)
        → HasRoom id token growth now measured start next
    unfolding check_storage reserve
    check_storage-HasRoom start store next budget none m b head h =
        absurd (let q = ap (λ x. x.1) h in cc)
    check_storage-HasRoom start store next budget (some size) m b head h =
        let (rows, room) = check_storage-fits size budget store next h in
        let bytes = wanted (some (id, token)) growth now store.reservations in
        let sum = total-reserve id token bytes now store.reservations in
        record {
          size = size;
          budget = budget;
          sized = m;
          budgeted = b;
          fits = rw (rows, sum, head) (ground (arith, room));
          own = record {
            task_id = id;
            lease_token = token;
            bytes = bytes;
            expires_at = now + reservation_ms;
          };
          listed = rw rows (inl refl);
          own_key = (refl, refl);
          enough = wanted-enough store.reservations;
          lasts = refl;
        }

    check_database-HasRoom :
        (start : Store) (limit budget : ℕ) (size : Option ℕ) (store next : Store)
        → start.capacity.storage_budget_bytes ≡ some budget
        → start.capacity.storage_headroom_bytes ≡ store.capacity.storage_headroom_bytes
        → check_database storage
            (some (id, token))
            growth
            now
            limit
            (some budget)
            measured
            size
            store
          ≡ (next, allowed)
        → HasRoom id token growth now measured start next
    unfolding check_database
    check_database-HasRoom start limit budget none store next b head h =
        absurd (let q = ap (λ x. x.1) h in cc)
    check_database-HasRoom start limit budget (some size) store next b head h =
        elim (Bool-cases (leb limit (size + store.capacity.database_headroom_bytes))) [
          | inl y ↦ absurd (let q = ap (λ x. x.1) (rw y at h) in cc)
          | inr n ↦
              check_storage-HasRoom start (measure_storage measured.storage_size store) next budget
                measured.storage_size refl b head (rw n at h)
        ]

    check_row-HasRoom :
        (store next : Store)
        → check_row storage (some (id, token)) growth now measured store ≡ (next, allowed)
        → HasRoom id token growth now measured store next
    unfolding check_row
    check_row-HasRoom store next h = elim (Option-cases store.capacity.database_budget_bytes) [
      | inl d ↦ absurd (let q = ap (λ x. x.1) (rw (d) at h) in cc)
      | inr (limit, d) ↦ elim (Option-cases store.capacity.storage_budget_bytes) [
        | inl s ↦ elim (Bool-cases (is_some store.capacity.confirmed_at)) [
          | inl c ↦ absurd (let q = ap (λ x. x.1) (rw (d, s, c) at h) in cc)
          | inr c ↦ absurd (let q = ap (λ x. x.1) (rw (d, c) at h) in cc)
        ]
        | inr (budget, s) ↦ elim (Bool-cases (is_some store.capacity.confirmed_at)) [
          | inl c ↦
              let checked = rw (d, s, c) at h in
              check_database-HasRoom store limit budget measured.database_size _ next s refl checked
          | inr c ↦ absurd (let q = ap (λ x. x.1) (rw (d, c) at h) in cc)
        ]
      ]
    ]

    -- A task that is allowed to write to the storage holds its lease, has at least what it asked for
    -- reserved for half an hour, and the measured size, all reservations in force and the headroom
    -- together stay below the budget.
    pub check_catalog_capacity-HasRoom :
        (store next : Store)
        → check_catalog_capacity storage (some (id, token)) growth now measured store
          ≡ ok (next, allowed)
        → (holds_lease (some (id, token)) now store.tasks ≡ true)
          × HasRoom id token growth now measured store next
    unfolding check_catalog_capacity
    check_catalog_capacity-HasRoom store next h =
        let positive : ltb 0 growth ≡ true = ground (arith, some_growth) in
        elim (Bool-cases (holds_lease (some (id, token)) now store.tasks)) [
          | inl l ↦ (l, check_row-HasRoom store next (ok-injective (rw (positive, l) at h)))
          | inr l ↦ absurd (let q = rw (positive, l) at h in cc)
        ]
