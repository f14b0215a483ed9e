-- ===== src/Continuation/Tests.antt =====
-- A sync with one completed step, and the theorems at it.
use universal_race_calendar.Common.{
  ℕ, ◌≤◌, ◌≡◌, refl, ◌⊎◌, Bool, true, false, String, Option, none, some, In, [], ◌∷◌, map, Result,
  ok, err, arith, text_length,
}
use universal_race_calendar.Queue.Json.{Json, bool, str, obj, end, field, stable_json}
use universal_race_calendar.Queue.Task.{Source, Task, ticketsports, completed, running}
use universal_race_calendar.Queue.Claim.{
  eligible, lapsed, take_back, lease, recover, lease_row, first_of_rows, claim_selected_task,
  conflicts, goes_before, task_queue_priority,
}
use universal_race_calendar.Queue.Enqueue.{
  CampaignMark, new_row, enqueue_task, upsert, settle, is_keyed, guard_campaign_task, request_hash,
}
use universal_race_calendar.Queue.Sample.{
  setting, leaf_text, open_gates, id_order, plain, plain_text, plain_number,
}
use universal_race_calendar.Pilot.{assert_pilot_task}
use universal_race_calendar.Continuation.{
  CatalogSync, Store, sync_ready, pause, resume, running_step, put_in, put_field, is_step,
}
use universal_race_calendar.Continuation.Coordinate.{
  newest, catalog_checkpoint, enqueue_step, step_payload, auto_key, decide, coordinate_found,
  coordinate_sync, coordinate_each, coordinate_catalog_syncs, candidates, oldest_first, insert_sync,
  after_sync,
}
use universal_race_calendar.Continuation.Control.{
  hold_steps, release_steps, conclude, check_open, perform, answer, control_found,
  control_catalog_sync,
}
use universal_race_calendar.Continuation.Rows.{live_count}
use universal_race_calendar.Continuation.Linear.{
  ContinuationReach-IsLinear, start, then_step, coordinates,
}
use universal_race_calendar.Continuation.Advance.{Advances, coordinate_sync-Advances}
use universal_race_calendar.Continuation.Pause.{unstamped, pause-claim_selected_task, resume-pause}

program : Unit {0}
unfolding put_in put_field is_step newest hold_steps release_steps conclude check_open
    catalog_checkpoint enqueue_step step_payload auto_key decide coordinate_found coordinate_sync
    coordinate_each coordinate_catalog_syncs candidates oldest_first insert_sync after_sync perform
    answer control_found control_catalog_sync enqueue_task assert_pilot_task upsert settle is_keyed
    guard_campaign_task request_hash stable_json leaf_text plain plain_text plain_number text_length
    eligible lapsed take_back lease recover lease_row first_of_rows claim_selected_task conflicts
    goes_before task_queue_priority
program = tt

abbrev unmarked : Json → Option CampaignMark
unmarked payload = none

abbrev unblocked : Source → Bool
unblocked source = false

abbrev sync : CatalogSync
sync = record {
  id = "s1";
  source = ticketsports;
  owner_id = "admin";
  options = obj (field "autoContinue" (bool true) end);
  snapshot = obj end;
  cursor = 1;
  page = 2;
  status = sync_ready;
  coverage = "partial";
  updated_at = 10;
}

abbrev first_step : Task
first_step =
    record (new_row "t1" "admin" "k1" ticketsports "catalog-sync"
      (obj (field "syncId" (str "s1") (field "checkpointHash" (str "before") end))) "h1" 5) {
        status = completed;
      }

abbrev store : Store
store = record { tasks = first_step ∷ []; syncs = sync ∷ []; audits = [] }

abbrev value_of : {A : Type 0} → Result String (Store × A) → Store
value_of (ok (s, _)) = s
value_of (err code) = store

abbrev shown_of : Result String (Store × CatalogSync) → CatalogSync
shown_of (ok (_, s)) = s
shown_of (err code) = sync

-- The store with the second step, then the one in which the sync is paused.
abbrev advanced : Store
advanced = value_of (coordinate_sync setting unmarked unblocked "t2" "s1" 20 store)

abbrev do_pause : Result String (Store × CatalogSync)
do_pause =
    control_catalog_sync setting unmarked unblocked "t3" "s1" "admin" pause "stop" 30 advanced

abbrev do_resume : Result String (Store × CatalogSync)
do_resume =
    control_catalog_sync setting unmarked unblocked "t3" "s1" "admin" resume "go" 40
      (value_of do_pause)

coordinate_sync-Advances_example :
    ((◌≡◌ {A = ℕ} 1 0) × (advanced.tasks ≡ store.tasks))
    ⊎ ((◌≡◌ {A = ℕ} 1 1) × Advances setting unmarked unblocked store advanced sync)
unfolding program
coordinate_sync-Advances_example =
    coordinate_sync-Advances setting unmarked unblocked "t2" "s1" 20 1 store advanced sync refl refl
      refl

store-IsLinear : (id : String) → live_count id store.tasks ≤ 1
unfolding program live_count
store-IsLinear id = ground arith

ContinuationReach-IsLinear_example : live_count "s1" advanced.tasks ≤ 1
unfolding program
ContinuationReach-IsLinear_example =
    ContinuationReach-IsLinear setting unmarked unblocked
      (then_step start (coordinates (λ id. "t2") 5 20 store)) store-IsLinear "s1"

-- A step whose executor has vanished: its lease runs out after the pause.
abbrev abandoned : Task
abandoned =
    record (new_row "t2" "admin" "k2" ticketsports "catalog-sync"
      (obj (field "syncId" (str "s1") end)) "h2" 5) {
        status = running;
        attempt = 1;
        lease_token = some "old";
        lease_until = some 45;
      }

abbrev running_store : Store
running_store = record store { tasks = abandoned ∷ first_step ∷ [] }

abbrev pause_running : Result String (Store × CatalogSync)
pause_running =
    control_catalog_sync setting unmarked unblocked "t3" "s1" "admin" pause "stop" 30 running_store

abbrev taken : Option Task
taken =
    (claim_selected_task open_gates id_order (ticketsports ∷ []) "new" none 50
      (value_of pause_running).tasks).1

-- A step that waits at the pause is not taken.
none_taken :
    (claim_selected_task open_gates id_order
      (ticketsports ∷ [])
      "new"
      none
      50
      (value_of do_pause).tasks).1
    ≡ none
unfolding program
none_taken = refl

pause-claim_selected_task_example :
    (u : Task) × In u running_store.tasks
    × (u.id ≡ "t2")
    × (running_step "s1" u ≡ true)
    × (lapsed (ticketsports ∷ []) none 50 u ≡ true)
unfolding program
pause-claim_selected_task_example =
    pause-claim_selected_task setting unmarked unblocked "t3" "s1" "admin" "stop" 30 running_store
      (value_of pause_running) sync (shown_of pause_running) refl refl refl refl open_gates id_order
      (ticketsports ∷ []) "new" none 50 (lease 50 "new" (take_back 50 abandoned)) refl refl

resume-pause_example : map unstamped (value_of do_resume).tasks ≡ map unstamped advanced.tasks
unfolding program
resume-pause_example =
    resume-pause setting unmarked unblocked "t3" "s1" "admin" "stop" 30 advanced (value_of do_pause)
      sync (shown_of do_pause) refl refl refl refl "t3" "admin" "go" 40 (value_of do_resume)
      (shown_of do_resume) refl ((refl, λ h. (refl, refl)), ((refl, λ h. (refl, refl)), tt)) refl
      refl
