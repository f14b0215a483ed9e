-- ===== src/Continuation.antt =====
-- packages/database/src/catalog-continuation.ts: the rows of catalog syncs and of their controls. The
-- coordinator and the controls are the modules Coordinate and Control.
use universal_race_calendar.Common.{
  ℕ, zero, suc, ◌+◌, Bool, true, false, ◌&&◌, ◌||◌, not, if◌then◌else◌, ltb, leb, ◌==◌, String,
  str_eq, Option, none, some, List, [], ◌∷◌, any, keep, find, take, map, Result, ok, err, ◌>>=◌,
  ◌>>◌, throw_if,
}
use Prim.Native.String.{◌++◌ as concat}
use universal_race_calendar.Queue.Json.{
  Json, null, bool, num, str, arr, obj, Items, Fields, end, field, get_field, text_at, stable_json,
  is_truthy,
}
use universal_race_calendar.Queue.Task.{
  Source, Task, Status, queued, running, completed, partial, failed, cancelled, is_queued,
  is_running, update_where,
}
use universal_race_calendar.Queue.Enqueue.{CampaignMark, enqueue_task}
use universal_race_calendar.Queue.Steps.{Setting}
pub mod Coordinate
pub mod Control
pub mod Rows
pub mod Fresh
pub mod Linear
pub mod Counted
pub mod NextStep
pub mod Advance
pub mod Pause
pub mod Repeat
mod Tests

pub data SyncStatus : Type 0 where
  sync_ready sync_paused sync_blocked sync_limited sync_completed sync_cancelled : SyncStatus

abbrev pub is_ready : SyncStatus → Bool
is_ready sync_ready = true
is_ready _ = false

-- A row of `CatalogSync`, without its counters.
pub record CatalogSync : Type 0 where
  pub id : String
  pub source : Source
  pub owner_id : String
  pub options : Json
  pub snapshot : Json
  pub cursor : ℕ
  pub page : ℕ
  pub status : SyncStatus
  pub coverage : String
  pub updated_at : ℕ

pub data ControlAction : Type 0 where
  pause resume : ControlAction

abbrev pub same_control : ControlAction → ControlAction → Bool
same_control pause pause = true
same_control resume resume = true
same_control _ _ = false

abbrev pub is_pause : ControlAction → Bool
is_pause pause = true
is_pause resume = false

-- An entry of `AdminAudit` of one of the two controls.
pub record ControlEntry : Type 0 where
  pub actor_id : String
  pub key : String
  pub action : ControlAction
  pub sync_id : String

pub record Store : Type 0 where
  pub tasks : List Task
  pub syncs : List CatalogSync
  pub audits : List ControlEntry

-- `options[key] === true`
abbrev is_true : Option Json → Bool
is_true (some (bool true)) = true
is_true _ = false

abbrev pub flag : String → Json → Bool
flag key options = is_true (get_field key options)

-- `{ ...options, [key]: value }` of an object
unfoldable pub put_field : String → Json → Fields → Fields
put_field key v end = field key v end
put_field key v (field k w fs) =
    if str_eq k key then field k v fs else field k w (put_field key v fs)

abbrev pub fields_of : Json → Fields
fields_of (obj fs) = fs
fields_of _ = end

unfoldable pub put_in : String → Json → Json → Json
unfolding put_field
put_in key v options = obj (put_field key v (fields_of options))

abbrev pub is_text : String → Option String → Bool
is_text s none = false
is_text s (some t) = str_eq t s

-- `{ kind: "catalog-sync", payload: { path: ["syncId"], equals: id } }`
unfoldable pub is_step : String → Task → Bool
is_step id t = str_eq t.kind "catalog-sync" && is_text id (text_at "syncId" t.payload)

abbrev pub is_live : Status → Bool
is_live queued = true
is_live running = true
is_live _ = false

abbrev pub is_completed : Status → Bool
is_completed completed = true
is_completed _ = false

abbrev pub is_cancelled : Status → Bool
is_cancelled cancelled = true
is_cancelled _ = false

abbrev pub live_step : String → Task → Bool
live_step id t = is_step id t && is_live t.status

abbrev pub running_step : String → Task → Bool
running_step id t = is_step id t && is_running t.status

abbrev pub is_sync : String → CatalogSync → Bool
is_sync id sync = str_eq sync.id id

abbrev pub set_sync : String → (CatalogSync → CatalogSync) → List CatalogSync → List CatalogSync
set_sync id f syncs = map (λ sync. if str_eq sync.id id then f sync else sync) syncs
