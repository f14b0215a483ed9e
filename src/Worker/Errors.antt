-- ===== src/Worker/Errors.antt =====
-- apps/worker/src/task-error.ts with `editionFailureCode` of packages/database/src/edition-evidence.ts:
-- the code that a failed task is stored with.
use universal_race_calendar.Common.{
  ℕ, ◌≡◌, refl, subst, ◌⊎◌, inl, inr, Bool, true, false, if◌then◌else◌, ◌==◌, String, Option, none,
  some, List, [], ◌∷◌, ◌++◌, any, includes, Bool-cases, arith,
}

-- What is thrown: an error with a message, one of the scraper with a status, or no error.
pub data Thrown : Type 0 where
  no_error : Thrown
  error : String → Thrown
  scraper_error : String → Option ℕ → Thrown

abbrev edition_failure_codes : List String
edition_failure_codes =
    "edition_date_unconfirmed" ∷ "edition_date_mismatch" ∷ "edition_location_unconfirmed"
    ∷ "edition_location_conflict" ∷ "edition_source_identity_conflict"
    ∷ "edition_administratively_restricted" ∷ "edition_link_unconfirmed"
    ∷ "edition_observation_unconfirmed" ∷ "source_identifier_reused_for_different_edition" ∷ []

abbrev terminal_catalog_errors : List String
terminal_catalog_errors =
    "source_access_blocked" ∷ "catalog_region_ignored" ∷ "catalog_checkpoint_incompatible"
    ∷ "catalog_end_unconfirmed" ∷ "catalog_structure_changed" ∷ "catalog_invalid_candidates"
    ∷ "catalog_quantity_ignored" ∷ "catalog_page_url_invalid"
    ∷ "catalog_reconciliation_checkpoint_incompatible" ∷ "catalog_reconciliation_checkpoint_stale"
    ∷ "catalog_reconciliation_request_invalid" ∷ []

abbrev message : Thrown → Option String
message no_error = none
message (error m) = some m
message (scraper_error m status) = some m

-- The message, if it is one of `known`.
unfoldable pub known_message : List String → Thrown → Option String
known_message known thrown = elim (message thrown) [
  | none ↦ none
  | some m ↦ if includes known m then some m else none
]

unfoldable pub edition_failure_code : Thrown → Option String
unfolding known_message
edition_failure_code thrown = known_message edition_failure_codes thrown

abbrev is_refusal : Thrown → Bool
is_refusal (scraper_error m (some status)) = any (λ s. s == status) (401 ∷ 403 ∷ 429 ∷ [])
is_refusal _ = false

pub record Failure : Type 0 where
  pub code : String
  pub retryable : Bool

abbrev terminal : String → Failure
terminal code = record { code = code; retryable = false }

abbrev lost : List String
lost = "lease_lost" ∷ []

-- The order of the tests: an edition's code, a refusal of the source, a terminal code, a lost lease.
unfoldable pub classify : Option String → Bool → Option String → Option String → Failure
classify (some code) refused catalog lease = terminal code
classify none true catalog lease = terminal "source_access_blocked"
classify none false (some code) lease = terminal code
classify none false none (some code) = terminal code
classify none false none none = record { code = "collection_failed"; retryable = true }

unfoldable pub task_error : Thrown → Failure
unfolding classify edition_failure_code known_message
task_error thrown =
    classify (edition_failure_code thrown) (is_refusal thrown)
      (known_message terminal_catalog_errors thrown) (known_message lost thrown)

given : {a b : String} → ◌≡◌ {A = Option String} (some a) (some b) → a ≡ b
given h = cc

known_message-includes :
    (known : List String) (thrown : Thrown) (code : String)
    → known_message known thrown ≡ some code
    → includes known code ≡ true
unfolding known_message
known_message-includes known no_error code h = absurd cc
known_message-includes known (error m) code h = elim (Bool-cases (includes known m)) [
  | inl y ↦ subst (λ c. includes known c ≡ true) (given (rw y at h)) y
  | inr n ↦ absurd (let q = rw n at h in cc)
]
known_message-includes known (scraper_error m status) code h =
    elim (Bool-cases (includes known m)) [
      | inl y ↦ subst (λ c. includes known c ≡ true) (given (rw y at h)) y
      | inr n ↦ absurd (let q = rw n at h in cc)
    ]

abbrev terminal_codes : List String
terminal_codes = edition_failure_codes ++ (terminal_catalog_errors ++ lost)

includes-left :
    (xs ys : List String) (s : String) → includes xs s ≡ true → includes (xs ++ ys) s ≡ true
includes-left [] ys s h = absurd cc
includes-left (x ∷ xs) ys s h = ground (arith, includes-left xs ys s)

includes-right :
    (xs ys : List String) (s : String) → includes ys s ≡ true → includes (xs ++ ys) s ≡ true
includes-right [] ys s h = h
includes-right (x ∷ xs) ys s h = ground (arith, includes-right xs ys s h)

-- What a failure is stored as: a terminal code of the program, or a retry without any detail.
abbrev pub IsStorable : Failure → Type 0
IsStorable f =
    ((f.retryable ≡ false) × (includes terminal_codes f.code ≡ true))
    ⊎ ((f.retryable ≡ true) × (f.code ≡ "collection_failed"))

-- What `known_message` may give.
abbrev FromList : List String → Option String → Type 0
FromList known found = (code : String) → found ≡ some code → includes known code ≡ true

classify-IsStorable :
    (edition : Option String) (refused : Bool) (catalog lease : Option String)
    → FromList edition_failure_codes edition
    → FromList terminal_catalog_errors catalog
    → FromList lost lease
    → IsStorable (classify edition refused catalog lease)
unfolding classify
classify-IsStorable (some code) refused catalog lease e c l =
    inl (
      refl,
      includes-left edition_failure_codes (terminal_catalog_errors ++ lost) code (e code refl),
    )
classify-IsStorable none true catalog lease e c l = inl (refl, refl)
classify-IsStorable none false (some code) lease e c l = inl (
  refl,
  includes-right edition_failure_codes (terminal_catalog_errors ++ lost) code
      (includes-left terminal_catalog_errors lost code (c code refl)),
)
classify-IsStorable none false none (some code) e c l = inl (
  refl,
  includes-right edition_failure_codes (terminal_catalog_errors ++ lost) code
      (includes-right terminal_catalog_errors lost code (l code refl)),
)
classify-IsStorable none false none none e c l = inr (refl, refl)

-- Whatever is thrown, the task is stored with one of the program's own codes and never with a
-- message of the upstream: a terminal code, or the general one, and only the general one is
-- retried.
pub task_error-IsStorable : (thrown : Thrown) → IsStorable (task_error thrown)
unfolding task_error edition_failure_code
task_error-IsStorable thrown =
    classify-IsStorable (edition_failure_code thrown) (is_refusal thrown)
      (known_message terminal_catalog_errors thrown) (known_message lost thrown)
      (known_message-includes edition_failure_codes thrown)
      (known_message-includes terminal_catalog_errors thrown) (known_message-includes lost thrown)
