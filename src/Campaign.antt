-- ===== src/Campaign.antt =====
-- packages/database/src/catalog-campaign.ts: the rows of campaigns and the requests to start one. The
-- start is the module Launch, the control the modules Control and Transaction.
use Prim.Native.Nat.{Ordering}
use Prim.Native.String.{◌++◌ as concat, compare}
use universal_race_calendar.Common.{
  ℕ, zero, suc, ◌+◌, ◌*◌, Bool, true, false, ◌&&◌, ◌||◌, not, if◌then◌else◌, ltb, leb, ◌==◌, String,
  str_eq, Option, none, some, List, [], ◌∷◌, ◌++◌, any, find, keep, length, codes, same_codes,
  text_length, includes, get_or, Result, ok, err, ◌>>=◌, ◌>>◌, throw_if,
}
use universal_race_calendar.Queue.Json.{
  Json, bool, num, str, arr, obj, Items, nil, cons, Fields, end, field, stable_json,
}
use universal_race_calendar.Queue.Task.{Source, ticketsports, corridasbr, openresults, Task}
use universal_race_calendar.Queue.Enqueue.{CampaignMark, enqueue_task}
use universal_race_calendar.Queue.Steps.{Setting}
use universal_race_calendar.Pilot.{CatalogPilot, assert_pilot_task}
use universal_race_calendar.Capacity.{Store as Room, Measured, assert_capacity}
use universal_race_calendar.Capacity.Control.{assured}
use universal_race_calendar.Continuation.{CatalogSync, sync_ready, put_in}
use universal_race_calendar.Continuation.Coordinate.{catalog_checkpoint}
pub mod Launch
pub mod Start
pub mod FirstSteps
pub mod Begin
pub mod Control
pub mod Transaction
pub mod Single
pub mod SlotRows
pub mod Slot
mod Tests

-- The states in which a campaign or a weekly occurrence has ended.
abbrev terminal : List String
terminal = "completed" ∷ "completed_with_review" ∷ "partial" ∷ "cancelled" ∷ []

abbrev pub is_terminal : String → Bool
is_terminal status = includes terminal status

-- A row of `CatalogCampaign`; its summary begins empty.
pub record Campaign : Type 0 where
  pub id : String
  pub owner_id : String
  pub request_hash : String
  pub status : String
  pub pause_requested : Bool
  pub options : Json
  pub source_syncs : List (Source × String)
  pub reconciliation_id : Option String
  pub created_at : ℕ
  pub finished_at : Option ℕ

-- The body of a request; a field of another type than it should have is refused before.
pub record CampaignInput : Type 0 where
  pub reason : String
  pub states : Option (List String)
  pub batch_size : Option ℕ
  pub prefix_limit : Option ℕ

-- The request with its defaults.
pub record CampaignRequest : Type 0 where
  pub reason : String
  pub states : List String
  pub batch_size : ℕ
  pub prefix_limit : ℕ

-- An entry of `AdminAudit` of a start.
pub record StartEntry : Type 0 where
  pub actor_id : String
  pub campaign_id : String
  pub reason : String

-- The tasks stand with the capacity; of the weekly occurrences only the states are read.
pub record Store : Type 0 where
  pub campaigns : List Campaign
  pub occurrences : List String
  pub syncs : List CatalogSync
  pub room : Room
  pub audits : List StartEntry

abbrev goes_before : String → String → Bool
goes_before a b = elim (compare a b) [ Ordering.gt ↦ false | _ ↦ true ]

-- `[...states].sort()`
unfoldable pub insert_state : String → List String → List String
insert_state s [] = s ∷ []
insert_state s (t ∷ ts) =
    let rest = insert_state s ts in if goes_before s t then s ∷ t ∷ ts else t ∷ rest

unfoldable pub sort_states : List String → List String
unfolding insert_state
sort_states [] = []
sort_states (s ∷ ss) = insert_state s (sort_states ss)

-- `new Set(states).size !== states.length`
abbrev has_duplicates : List String → Bool
has_duplicates [] = false
has_duplicates (s ∷ ss) = includes ss s || has_duplicates ss

-- `brazilianStateCodes`
abbrev all_states : List String
all_states =
    "AC" ∷ "AL" ∷ "AM" ∷ "AP" ∷ "BA" ∷ "CE" ∷ "DF" ∷ "ES" ∷ "GO" ∷ "MA" ∷ "MG" ∷ "MS" ∷ "MT" ∷ "PA"
    ∷ "PB" ∷ "PE" ∷ "PI" ∷ "PR" ∷ "RJ" ∷ "RN" ∷ "RO" ∷ "RR" ∷ "RS" ∷ "SC" ∷ "SE" ∷ "SP" ∷ "TO" ∷ []

abbrev is_state : String → Bool
is_state s = includes all_states s

abbrev texts : List String → Items
texts [] = nil
texts (s ∷ ss) = cons (str s) (texts ss)

abbrev pub sources : List Source
sources = ticketsports ∷ corridasbr ∷ openresults ∷ []

abbrev pub source_text : Source → String
source_text ticketsports = "ticketsports"
source_text corridasbr = "corridasbr"
source_text openresults = "openresults"
source_text _ = "maintenance"

-- `.slice(0, n)` of a text without surrogates, as a digest is.
unfoldable pub take_text : ℕ → String → String
take_text zero s = ""
take_text (suc n) String.[] = ""
take_text (suc n) (String.◌∷◌ c s) = String.◌∷◌ c (take_text n s)

abbrev pub request_fields : CampaignRequest → Fields → Fields
request_fields request rest = field "reason" (str request.reason) (
    field "states" (arr (texts request.states)) (
      field "batchSize" (num request.batch_size)
        (field "prefixLimit" (num request.prefix_limit) rest)))

-- `{ ...request, discoveryMode, autoContinue, snapshotLimit }`
abbrev pub options_fields : CampaignRequest → Fields
options_fields request = request_fields request (
    field "discoveryMode" (str "national")
      (field "autoContinue" (bool true) (field "snapshotLimit" (num 250) end)))

abbrev pub is_campaign : String → Campaign → Bool
is_campaign id run = str_eq run.id id

abbrev pub is_running : Campaign → Bool
is_running run = not (is_terminal run.status)

abbrev pub of_pilot : Option CatalogPilot → CampaignRequest
of_pilot none = record {
  reason = "";
  states = sort_states all_states;
  batch_size = 25;
  prefix_limit = 10000;
}
of_pilot (some pilot) = record {
  reason = "";
  states = pilot.states;
  batch_size = pilot.batch_size;
  prefix_limit = pilot.prefix_limit;
}

-- The scope that a request may have.
unfoldable pub in_bounds : CampaignRequest → Bool
in_bounds request = not (
    length request.states == 0
    || (ltb 27 (length request.states)
        || (has_duplicates request.states
            || (any (λ s. not (is_state s)) request.states
                || (ltb request.batch_size 1
                    || (ltb 25 request.batch_size
                        || (ltb request.prefix_limit 25 || ltb 10000 request.prefix_limit)))))))

-- A refusal of the pilot is told as one of the campaign.
abbrev pub in_scope : Result String (Unit {0}) → Result String (Unit {0})
in_scope (ok done) = ok tt
in_scope (err code) = err "pilot_scope_exceeded"
