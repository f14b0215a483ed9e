-- ===== src/Capacity/Fresh.antt =====
-- What a check without a task has found when it allows: room in the database, or in the storage.
use universal_race_calendar.Common.{
  ℕ, ◌+◌, ◌<◌, ◌≡◌, refl, sym, ◌∙◌, ap, inl, inr, true, leb, Option, none, some, List, [], ◌∷◌,
  is_some, Bool-cases, Option-cases, arith,
}
use universal_race_calendar.Capacity.{
  Reservation, own_bytes, database, storage, Measured, Store, allowed, is_active, total, reserved,
  wanted, check_row, check_database, check_storage, measure_storage,
}
use universal_race_calendar.Capacity.Room.{active}

-- The database is confirmed and measured, and holds its headroom and the growth.
pub record DatabaseRoom (measured : Measured) (growth : ℕ) (store : Store) : Type 0 where
  pub size : ℕ
  pub budget : ℕ
  pub is_confirmed : is_some store.capacity.confirmed_at ≡ true
  pub is_measured : measured.database_size ≡ some size
  pub is_budgeted : store.capacity.database_budget_bytes ≡ some budget
  pub fits : size + (store.capacity.database_headroom_bytes + growth) < budget

-- The storage is measured, and holds its headroom and all reservations.
pub record StorageRoom (measured : Measured) (now : ℕ) (store : Store) : Type 0 where
  pub size : ℕ
  pub budget : ℕ
  pub is_measured : measured.storage_size ≡ some size
  pub is_budgeted : store.capacity.storage_budget_bytes ≡ some budget
  pub fits :
      size + (total (active now store.reservations) + store.capacity.storage_headroom_bytes)
      < budget

check_database-room :
    (growth now budget : ℕ) (storage_budget : Option ℕ) (measured : Measured) (o : Option ℕ)
    (store next : Store)
    → check_database database none growth now budget storage_budget measured o store
      ≡ (next, allowed)
    → (size : ℕ) × (o ≡ some size)
      × (size + (store.capacity.database_headroom_bytes + growth) < budget)
      × (next ≡ store)
unfolding check_database
check_database-room growth now budget storage_budget measured none store next h =
    absurd (let q = ap (λ x. x.1) h in cc)
check_database-room growth now budget storage_budget measured (some size) store next h =
    elim (Bool-cases (leb budget (size + (store.capacity.database_headroom_bytes + growth)))) [
      | inl y ↦ absurd (let q = ap (λ x. x.1) (rw y at h) in cc)
      | inr n ↦ (size, refl, ground (arith, n), sym (ap (λ x. x.0) (rw n at h)))
    ]

-- What a measurement leaves.
abbrev pub Unmoved : Store → Store → Type 0
Unmoved next store =
    (next.tasks ≡ store.tasks)
    × (next.reservations ≡ store.reservations)
    × (next.capacity.storage_budget_bytes ≡ store.capacity.storage_budget_bytes)
    × (next.capacity.storage_headroom_bytes ≡ store.capacity.storage_headroom_bytes)

unmoved : {next mid : Store} → next ≡ mid → Unmoved next mid
unmoved e = (
  ap (λ s. s.tasks) e,
  ap (λ s. s.reservations) e,
  ap (λ s. s.capacity.storage_budget_bytes) e,
  ap (λ s. s.capacity.storage_headroom_bytes) e,
)

pub check_row-database :
    (growth now : ℕ) (measured : Measured) (store next : Store)
    → check_row database none growth now measured store ≡ (next, allowed)
    → DatabaseRoom measured growth store × Unmoved next store
unfolding check_row
check_row-database growth now measured store next h =
    elim (Option-cases store.capacity.database_budget_bytes) [
      | inl n ↦ absurd (let q = ap (λ x. x.1) (rw n at h) in cc)
      | inr (budget, b) ↦ elim (Bool-cases (is_some store.capacity.confirmed_at)) [
        | inr n ↦ absurd (let q = ap (λ x. x.1) (rw (b, n) at h) in cc)
        | inl c ↦
            let (size, m, fits, same) =
              check_database-room growth now budget store.capacity.storage_budget_bytes measured
                measured.database_size _ next (rw (b, c) at h) in
            (
              record {
                size = size;
                budget = budget;
                is_confirmed = c;
                is_measured = m;
                is_budgeted = b;
                fits = fits;
              },
              unmoved same,
            )
      ]
    ]

own_bytes-none : (now : ℕ) (rs : List Reservation) → own_bytes none now rs ≡ 0
unfolding own_bytes
own_bytes-none now [] = refl
own_bytes-none now (r ∷ rs) = own_bytes-none now rs

reserved-none : (now : ℕ) (rs : List Reservation) → reserved none now rs ≡ total (active now rs)
unfolding reserved total
reserved-none now [] = refl
reserved-none now (r ∷ rs) = elim (Bool-cases (is_active now r)) [
  | inl a ↦ rw a (ap (λ n. r.bytes + n) (reserved-none now rs))
  | inr a ↦ rw a (reserved-none now rs)
]

check_storage-room :
    (now budget : ℕ) (o : Option ℕ) (store next : Store)
    → check_storage none 0 now budget o store ≡ (next, allowed)
    → (size : ℕ) × (o ≡ some size)
      × (size + (total (active now store.reservations) + store.capacity.storage_headroom_bytes)
          < budget)
      × (next ≡ store)
unfolding check_storage wanted
check_storage-room now budget none store next h = absurd (let q = ap (λ x. x.1) h in cc)
check_storage-room now budget (some size) store next h =
    let others = reserved-none now store.reservations in
    let own = own_bytes-none now store.reservations in
    elim (Bool-cases (
      leb budget (
        size
        + (reserved none now store.reservations + (0 + store.capacity.storage_headroom_bytes))))) [
          | inl y ↦ absurd (let q = ap (λ x. x.1) (rw (own, y) at h) in cc)
          | inr n ↦ (size, refl, ground (arith, n, others), sym (ap (λ x. x.0) (rw (own, n) at h)))
        ]

check_database-storage :
    (now limit budget : ℕ) (measured : Measured) (o : Option ℕ) (store next : Store)
    → check_database storage none 0 now limit (some budget) measured o store ≡ (next, allowed)
    → (size : ℕ) × (measured.storage_size ≡ some size)
      × (size + (total (active now store.reservations) + store.capacity.storage_headroom_bytes)
          < budget)
      × Unmoved next store
unfolding check_database
check_database-storage now limit budget measured none store next h =
    absurd (let q = ap (λ x. x.1) h in cc)
check_database-storage now limit budget measured (some size) store next h =
    elim (Bool-cases (leb limit (size + store.capacity.database_headroom_bytes))) [
      | inl y ↦ absurd (let q = ap (λ x. x.1) (rw y at h) in cc)
      | inr n ↦
          let (size, m, fits, same) =
            check_storage-room now budget measured.storage_size
              (measure_storage measured.storage_size store) next (rw n at h) in
          (size, m, fits, unmoved same)
    ]

pub check_row-storage :
    (now : ℕ) (measured : Measured) (store next : Store)
    → check_row storage none 0 now measured store ≡ (next, allowed)
    → StorageRoom measured now store × Unmoved next store
unfolding check_row
check_row-storage now measured store next h =
    elim (Option-cases store.capacity.database_budget_bytes) [
      | inl n ↦ absurd (let q = ap (λ x. x.1) (rw n at h) in cc)
      | inr (limit, d) ↦ elim (Bool-cases (is_some store.capacity.confirmed_at)) [
        | inr n ↦ absurd (let q = ap (λ x. x.1) (rw (d, n) at h) in cc)
        | inl c ↦ elim (Option-cases store.capacity.storage_budget_bytes) [
          | inl n ↦ absurd (let q = ap (λ x. x.1) (rw (d, c, n) at h) in cc)
          | inr (budget, b) ↦
              let (size, m, fits, rows) =
                check_database-storage now limit budget measured measured.database_size _ next
                  (rw (d, c, b) at h) in
              (
                record {
                  size = size;
                  budget = budget;
                  is_measured = m;
                  is_budgeted = b;
                  fits = fits;
                },
                (rows.0, rows.1, rows.2 ∙ sym b, rows.3),
              )
        ]
      ]
    ]
