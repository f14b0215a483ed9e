-- ===== src/Continuation/Control.antt =====
-- The control that pauses and resumes a sync.
use universal_race_calendar.Common.{
  ℕ, Bool, true, false, ◌&&◌, ◌||◌, not, if◌then◌else◌, String, str_eq, Option, none, some, List,
  ◌∷◌, any, find, Result, ok, err, ◌>>=◌, ◌>>◌, throw_if,
}
use universal_race_calendar.Queue.Json.{Json, bool, get_field, is_truthy}
use universal_race_calendar.Queue.Task.{Source, Task, is_queued, update_where}
use universal_race_calendar.Queue.Enqueue.{CampaignMark}
use universal_race_calendar.Queue.Steps.{Setting}
use universal_race_calendar.Continuation.{
  SyncStatus, CatalogSync, ControlAction, same_control, is_pause, ControlEntry, Store, flag, put_in,
  is_text, is_step, live_step, running_step, is_sync, set_sync, sync_ready, sync_paused,
  sync_limited, sync_completed, sync_cancelled, pause, resume,
}
use universal_race_calendar.Continuation.Coordinate.{enqueue_step, step_payload}

abbrev pub is_waiting : String → Task → Bool
is_waiting id t = is_step id t && (is_queued t.status && not t.execution_hold)

abbrev pub hold : ℕ → Task → Task
hold now t = record t {
  execution_hold = true;
  hold_reason = some "catalog_sync_paused";
  updated_at = now;
}

abbrev pub is_held : String → Task → Bool
is_held id t =
    is_step id t
    && (is_queued t.status && (t.execution_hold && is_text "catalog_sync_paused" t.hold_reason))

abbrev pub let_go : ℕ → Task → Task
let_go now t = record t { execution_hold = false; hold_reason = none; updated_at = now }

-- The steps that a pause holds back, and the ones that a resumption lets go.
unfoldable pub hold_steps : String → ℕ → List Task → List Task
hold_steps id now ts = (update_where (is_waiting id) (hold now) ts).0

unfoldable pub release_steps : String → ℕ → List Task → List Task
release_steps id now ts = (update_where (is_held id) (let_go now) ts).0

-- The end of a control: the sync's row and the audit.
unfoldable pub conclude :
    CatalogSync → String → String → ControlAction → ℕ → Store → Store × CatalogSync
conclude sync actor_id key action now store =
    let updated : CatalogSync = record sync {
      options = put_in "pauseRequested" (bool (is_pause action)) sync.options;
      status =
          if is_pause action && not (any (running_step sync.id) store.tasks)
          then sync_paused
          else sync_ready;
      updated_at = now;
    } in
    (
      record store {
        syncs = set_sync sync.id (λ s. updated) store.syncs;
        audits =
            record { actor_id = actor_id; key = key; action = action; sync_id = sync.id }
            ∷ store.audits;
      },
      updated,
    )

abbrev pub is_control : String → String → ControlEntry → Bool
is_control actor_id key e = str_eq e.actor_id actor_id && str_eq e.key key

abbrev is_closed : SyncStatus → Bool
is_closed sync_completed = true
is_closed sync_limited = true
is_closed _ = false

abbrev is_sync_cancelled : SyncStatus → Bool
is_sync_cancelled sync_cancelled = true
is_sync_cancelled _ = false

unfoldable pub check_open : CatalogSync → Result String (Unit {0})
check_open sync = do
  throw_if (is_sync_cancelled sync.status || is_truthy (get_field "weeklyCancelled" sync.options))
      "weekly_occurrence_cancelled"
  throw_if (is_closed sync.status) "scope_completed_or_limited"

module _ (setting : Setting) (marks : Json → Option CampaignMark) (blocked : Source → Bool) where
  unfoldable pub perform :
      String
      → CatalogSync
      → String
      → ControlAction
      → String
      → ℕ
      → Store
      → Result String (Store × CatalogSync)
  unfolding hold_steps release_steps conclude enqueue_step step_payload
  perform new_id sync actor_id pause key now store =
      if flag "pauseRequested" sync.options
      then ok (store, sync)
      else ok (
          conclude sync actor_id key pause now
            (record store { tasks = hold_steps sync.id now store.tasks }))
  perform new_id sync actor_id resume key now store =
      let free : Store = record store { tasks = release_steps sync.id now store.tasks } in
      let next : Result String Store =
        if any (live_step sync.id) free.tasks
        then ok free
        else enqueue_step setting marks blocked new_id actor_id key sync
            (step_payload setting marks blocked sync
              (put_in "pauseRequested" (bool false) sync.options))
            now free in
      next >>= λ done. ok (conclude sync actor_id key resume now done)

  -- What stands behind the search for an earlier entry of the key.
  unfoldable pub answer :
      String
      → CatalogSync
      → String
      → ControlAction
      → String
      → ℕ
      → Store
      → Option ControlEntry
      → Result String (Store × CatalogSync)
  unfolding perform check_open
  answer new_id sync actor_id action key now store (some previous) =
      if same_control previous.action action && str_eq previous.sync_id sync.id
      then ok (store, sync)
      else err "idempotency_conflict"
  answer new_id sync actor_id action key now store none = do
    check_open sync
    perform new_id sync actor_id action key now store

  unfoldable pub control_found :
      String
      → String
      → ControlAction
      → String
      → ℕ
      → Store
      → Option CatalogSync
      → Result String (Store × CatalogSync)
  unfolding answer
  control_found new_id actor_id action key now store none = err "sync_not_found"
  control_found new_id actor_id action key now store (some sync) =
      answer new_id sync actor_id action key now store (find (is_control actor_id key) store.audits)

  unfoldable pub control_catalog_sync :
      String
      → String
      → String
      → ControlAction
      → String
      → ℕ
      → Store
      → Result String (Store × CatalogSync)
  unfolding control_found
  control_catalog_sync new_id id actor_id action key now store =
      control_found new_id actor_id action key now store (find (is_sync id) store.syncs)
