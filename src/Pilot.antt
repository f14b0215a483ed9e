-- ===== src/Pilot.antt =====
-- packages/utils/src/staging-profile.ts: the limits of the staging profile on a task's intention.
mod Tests
use universal_race_calendar.Common.{
  ℕ, ◌≤◌, ◌≡◌, refl, Bool, true, false, ◌&&◌, ◌||◌, not, ltb, leb, ◌↔◌, if◌then◌else◌, String,
  str_eq, eq_iff, Option, none, some, List, [], ◌∷◌, includes, Result, ok, err, ◌>>=◌, ◌>>◌,
  throw_if, All, In, inl, inr, arith, >>-eq-ok, throw_if-eq-ok, Bool-cases,
}
use universal_race_calendar.Queue.Json.{
  Json, null, num, minus, arr, str, Items, nil, cons, get_field, Fields, obj, Runtime,
}

-- `catalogPilot` of the runtime profile; no profile is `none`.
pub record CatalogPilot : Type 0 where
  pub states : List String
  pub batch_size : ℕ
  pub prefix_limit : ℕ
  pub collection_quantity : ℕ

-- A number that is not NaN, by the numbers of JSON: a non-negative integer, -(n + 1), one of a sign
-- with a whole part and more than 0 behind the point, or an infinite one.
pub data Number : Type 0 where
  natural : ℕ → Number
  negative : ℕ → Number
  broken : Bool → ℕ → Number
  unbounded : Bool → Number

-- What the runtime makes of a JSON value: `Number(value)`, with no value for NaN, and `String(value)`.
pub record Conversions : Type 0 where
  pub number : Json → Option Number
  pub text : Json → String
  pub number_num : (n : ℕ) → number (num n) ≡ some (natural n)
  pub number_minus : (n : ℕ) → number (minus n) ≡ some (negative n)
  pub text_str : (s : String) → text (str s) ≡ s

-- `Number.isInteger(value)`
abbrev is_integer : Option Json → Bool
is_integer (some (num n)) = true
is_integer (some (minus n)) = true
is_integer _ = false

-- `number > cap`
abbrev is_above : ℕ → Number → Bool
is_above cap (natural n) = ltb cap n
is_above cap (negative n) = false
is_above cap (broken below whole) = not below && leb cap whole
is_above cap (unbounded below) = not below

-- `value ?? fallback` of a payload's field
abbrev or_else : Option Json → Json → Json
or_else none d = d
or_else (some null) d = d
or_else (some j) d = j

module _ (c : Conversions) where
  open c use {number, text}

  -- `Number(value) > cap`, which is false of NaN
  abbrev exceeds : Json → ℕ → Bool
  exceeds j cap = elim (number j) [ none ↦ false | some n ↦ is_above cap n ]

  -- `Number(undefined)` is NaN.
  abbrev field_exceeds : Option Json → ℕ → Bool
  field_exceeds none cap = false
  field_exceeds (some j) cap = exceeds j cap

  any_outside : List String → Items → Bool
  any_outside states nil = false
  any_outside states (cons j js) = not (includes states (text j)) || any_outside states js

  -- `checkStates(true)`
  bad_states : List String → Option Json → Bool
  bad_states states (some (arr nil)) = true
  bad_states states (some (arr (cons j js))) = any_outside states (cons j js)
  bad_states states _ = true

  abbrev scope_exceeded : String
  scope_exceeded = "pilot_scope_exceeded"

  check_calendar : CatalogPilot → Json → Result String (Unit {0})
  check_calendar cap payload = do
    throw_if
        (not (is_integer (get_field "quantity" payload))
          || field_exceeds (get_field "quantity" payload) cap.collection_quantity)
        scope_exceeded
    throw_if (bad_states cap.states (get_field "states" payload)) scope_exceeded

  check_discover : CatalogPilot → Json → Result String (Unit {0})
  check_discover cap payload =
      throw_if
        (field_exceeds (get_field "limit" payload) cap.collection_quantity
          || field_exceeds (get_field "maxPages" payload) 1)
        scope_exceeded

  check_catalog_sync : CatalogPilot → Json → Result String (Unit {0})
  check_catalog_sync cap payload = do
    throw_if (bad_states cap.states (get_field "states" payload)) scope_exceeded
    throw_if
        (field_exceeds (get_field "batchSize" payload) cap.batch_size
          || (exceeds (or_else (get_field "prefixLimit" payload) (num 10000)) cap.prefix_limit
              || exceeds (or_else (get_field "snapshotLimit" payload) (num 250)) 250))
        scope_exceeded

  check_batch : CatalogPilot → Json → Result String (Unit {0})
  check_batch cap payload =
      throw_if
        (exceeds
          (or_else (get_field "candidateLimit" payload)
            (or_else (get_field "limit" payload) (num 10000)))
          cap.collection_quantity)
        scope_exceeded

  -- The tests on the kind exclude one another.
  unfoldable pub assert_pilot_task : Option CatalogPilot → String → Json → Result String (Unit {0})
  unfolding check_calendar check_discover check_catalog_sync check_batch bad_states any_outside
  assert_pilot_task none kind payload = ok tt
  assert_pilot_task (some cap) kind payload =
      if str_eq kind "calendar"
      then check_calendar cap payload
      else if str_eq kind "discover"
      then check_discover cap payload
      else if str_eq kind "catalog-sync"
      then check_catalog_sync cap payload
      else if includes ("catalog" ∷ "catalog-process" ∷ "curate-batch" ∷ []) kind
      then check_batch cap payload
      else ok tt

  -- The texts of a list of states all stand in the pilot's.
  abbrev pub Inside : List String → Items → Type 0
  Inside states nil = Unit
  Inside states (cons j js) = (includes states (text j) ≡ true) × Inside states js

  any_outside-Inside :
      (states : List String) (js : Items) → any_outside states js ≡ false → Inside states js
  unfolding any_outside
  any_outside-Inside states nil h = tt
  any_outside-Inside states (cons j js) h =
      (ground arith, any_outside-Inside states js (ground arith))

  -- The quantity that a collection may ask for.
  pub data IsQuantity (cap : ℕ) : Option Json → Type 0 where
    within : (n : ℕ) → n ≤ cap → IsQuantity cap (some (num n))
    below_zero : (n : ℕ) → IsQuantity cap (some (minus n))

  integer-IsQuantity :
      (cap : ℕ) (o : Option Json)
      → (not (is_integer o) || field_exceeds o cap) ≡ false
      → IsQuantity cap o
  integer-IsQuantity cap (some (num n)) h = within n (ground (arith, c.number_num n))
  integer-IsQuantity cap (some (minus n)) h = below_zero n
  integer-IsQuantity cap _ h = cc

  IsQuantity-integer :
      (cap : ℕ) (o : Option Json)
      → IsQuantity cap o
      → (not (is_integer o) || field_exceeds o cap) ≡ false
  IsQuantity-integer cap _ (within n h) = ground (arith, c.number_num n)
  IsQuantity-integer cap _ (below_zero n) = ground (arith, c.number_minus n)

  -- The states that a collection may ask for: a list of at least one, all of them the pilot's.
  pub data IsScope (states : List String) : Option Json → Type 0 where
    listed :
        (j : Json) (js : Items)
        → Inside states (cons j js)
        → IsScope states (some (arr (cons j js)))

  Inside-any_outside :
      (states : List String) (js : Items) → Inside states js → any_outside states js ≡ false
  unfolding any_outside
  Inside-any_outside states nil h = refl
  Inside-any_outside states (cons j js) (h, hs) = ground (arith, Inside-any_outside states js hs)

  bad_states-IsScope :
      (states : List String) (o : Option Json) → bad_states states o ≡ false → IsScope states o
  unfolding bad_states
  bad_states-IsScope states (some (arr (cons j js))) h =
      listed j js (any_outside-Inside states (cons j js) h)
  bad_states-IsScope states _ h = cc

  IsScope-bad_states :
      (states : List String) (o : Option Json) → IsScope states o → bad_states states o ≡ false
  unfolding bad_states
  IsScope-bad_states states _ (listed j js h) = Inside-any_outside states (cons j js) h

  -- A collection passes under a pilot if and only if its quantity is an integer of at most the
  -- quota, which a negative one is too, and its states are a list of at least one, whose texts all
  -- stand in the pilot's.
  pub assert_pilot_task-calendar_iff :
      (cap : CatalogPilot) (payload : Json)
      → (assert_pilot_task (some cap) "calendar" payload ≡ ok tt) ↔ (
          IsQuantity cap.collection_quantity (get_field "quantity" payload)
          × IsScope cap.states (get_field "states" payload))
  unfolding assert_pilot_task
  assert_pilot_task-calendar_iff cap payload = (
    λ h.
        let (a, b) =
          >>-eq-ok
            (throw_if
              (not (is_integer (get_field "quantity" payload))
                || field_exceeds (get_field "quantity" payload) cap.collection_quantity)
              _)
            _ h in
        let bad = throw_if-eq-ok (bad_states cap.states (get_field "states" payload)) _ b in
        (
          integer-IsQuantity cap.collection_quantity (get_field "quantity" payload)
              (throw_if-eq-ok _ _ a),
          bad_states-IsScope cap.states (get_field "states" payload) bad,
        ),
    λ (quantity, scope).
        let q =
          IsQuantity-integer cap.collection_quantity (get_field "quantity" payload) quantity in
        let p = IsScope-bad_states cap.states (get_field "states" payload) scope in rw (q, p) refl,
  )
