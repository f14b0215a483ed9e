-- ===== src/Capacity/Allocation.antt =====
-- `validateAllocation` and the update of `controlCapacity`: what an administrator allocates is what
-- the table accepts.
use universal_race_calendar.Common.{
  ℕ, ◌≤◌, ◌<◌, ◌≡◌, refl, Bool, true, false, ◌&&◌, ◌||◌, not, leb, ltb, String, Option, none, some,
  [], ◌∷◌, any, all, length, Result, ok, throw_if, ◌>>◌, arith,
}
use universal_race_calendar.Common.Units.{Units, is_digit, decimal_from}
use universal_race_calendar.Capacity.{CatalogCapacity}

-- The body of a request to configure; a field is none where it is no text.
pub record AllocationRequest : Type 0 where
  pub database_budget_text : Option Units
  pub storage_budget_text : Option Units
  pub database_headroom_text : Option Units
  pub storage_headroom_text : Option Units
  pub allocation_confirmed : Bool
  pub reason : Option Units

-- `/^[1-9][0-9]{0,12}$/`
abbrev is_amount : Option Units → Bool
is_amount none = false
is_amount (some []) = false
is_amount (some (c ∷ cs)) = leb b'1' c && (leb c b'9' && (all is_digit cs && leb (length cs) 12))

-- `BigInt(text)` of decimal digits
abbrev amount : Option Units → ℕ
amount none = 0
amount (some s) = decimal_from 0 s

abbrev pub is_reason : Option Units → Bool
is_reason none = false
is_reason (some s) = leb 3 (length s) && leb (length s) 500

unfoldable pub validate_allocation : AllocationRequest → Result String (Unit {0})
unfolding decimal_from
validate_allocation payload = do
  throw_if
      (not payload.allocation_confirmed
        || (not (is_reason payload.reason)
            || any (λ field. not (is_amount field))
                (payload.database_budget_text ∷ payload.storage_budget_text
                  ∷ payload.database_headroom_text ∷ payload.storage_headroom_text ∷ [])))
      "capacity_allocation_invalid"
  throw_if
      (ltb (amount payload.database_headroom_text) 16777216
        || (ltb (amount payload.storage_headroom_text) 1048576
            || (leb (amount payload.database_budget_text) (amount payload.database_headroom_text)
                || leb (amount payload.storage_budget_text)
                    (amount payload.storage_headroom_text))))
      "capacity_allocation_invalid"

-- The update of `controlCapacity`.
unfoldable pub configure : AllocationRequest → ℕ → CatalogCapacity → CatalogCapacity
configure payload now row = record row {
  database_budget_bytes = some (amount payload.database_budget_text);
  storage_budget_bytes = some (amount payload.storage_budget_text);
  database_headroom_bytes = amount payload.database_headroom_text;
  storage_headroom_bytes = amount payload.storage_headroom_text;
  confirmed_at = some now;
}

abbrev Above : Option ℕ → ℕ → Type 0
Above none least = 0 ≤ least
Above (some budget) least = least < budget

-- The conditions of the table on its row.
pub record IsAccepted (row : CatalogCapacity) : Type 0 where
  pub database_budget_positive : Above row.database_budget_bytes 0
  pub storage_budget_positive : Above row.storage_budget_bytes 0
  pub database_headroom : 16777216 ≤ row.database_headroom_bytes
  pub storage_headroom : 1048576 ≤ row.storage_headroom_bytes
  pub database_above : Above row.database_budget_bytes row.database_headroom_bytes
  pub storage_above : Above row.storage_budget_bytes row.storage_headroom_bytes

amounts-Fit :
    (first second : Bool) (refusal : String)
    → (throw_if first refusal >> throw_if second refusal) ≡ ok tt
    → second ≡ false
amounts-Fit true second refusal h = absurd cc
amounts-Fit false true refusal h = absurd cc
amounts-Fit false false refusal h = refl

-- A row that is configured with an allocation that the validation lets pass meets every condition of
-- the table: the update is never refused.
pub configure-IsAccepted :
    (payload : AllocationRequest) (now : ℕ) (row : CatalogCapacity)
    → validate_allocation payload ≡ ok tt
    → IsAccepted (configure payload now row)
unfolding validate_allocation configure
configure-IsAccepted payload now row h =
    let fit = amounts-Fit _ _ _ h in
    record {
      database_budget_positive = ground (arith, fit);
      storage_budget_positive = ground (arith, fit);
      database_headroom = ground (arith, fit);
      storage_headroom = ground (arith, fit);
      database_above = ground (arith, fit);
      storage_above = ground (arith, fit);
    }
