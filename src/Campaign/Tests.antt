-- ===== src/Campaign/Tests.antt =====
-- A start over two states, and the theorems at it.
use universal_race_calendar.Common.{
  inl, ◌≡◌, refl, false, String, Option, none, some, [], ◌∷◌, Result, ok, err, text_length,
}
use universal_race_calendar.Queue.Json.{Json, stable_json}
use universal_race_calendar.Queue.Task.{Source, ticketsports, corridasbr, openresults}
use universal_race_calendar.Queue.Enqueue.{
  CampaignMark, enqueue_task, upsert, settle, is_keyed, guard_campaign_task, request_hash,
}
use universal_race_calendar.Queue.Sample.{setting, leaf_text, plain, plain_text, plain_number}
use universal_race_calendar.Pilot.{assert_pilot_task}
use universal_race_calendar.Capacity.{Measured, check_catalog_capacity, assert_capacity}
use universal_race_calendar.Capacity.Control.{assured}
use universal_race_calendar.Continuation.{put_in, put_field, is_step}
use universal_race_calendar.Continuation.Coordinate.{catalog_checkpoint}
use universal_race_calendar.Campaign.{
  Campaign, CampaignInput, Store, sort_states, insert_state, take_text, in_bounds,
}
use universal_race_calendar.Campaign.Launch.{
  check_request, with_defaults, normalized, campaign_id, new_sync, first_payload, add_source,
  add_sources, new_campaign, start_found, start_catalog_campaign,
}
use universal_race_calendar.Campaign.Control.{
  ControlAction, pauses, resumes, cancels, State, stop_tasks, release_tasks, updated_sync, latest,
  updated_reconciliation, updated_campaign,
}
use universal_race_calendar.Campaign.Transaction.{
  check_control, check_run, check_resumed, enqueue, retry_looks, maybe_retry, control_sync,
  control_syncs, control_found, control_reconciliation, control_work,
  request_hash as control_request_hash, conclude, control_run, answer, control_catalog_campaign,
}
use universal_race_calendar.Campaign.Single.{
  CampaignReach, begins, then_step, starts, controls, CampaignReach-IsSingle,
}
use universal_race_calendar.Campaign.SlotRows.{slot, slot_run, start, control as control_slot}
use universal_race_calendar.Campaign.Slot.{CampaignReach-slot_run}

abbrev unmarked : Json → Option CampaignMark
unmarked payload = none

abbrev untrimmed : String → String
untrimmed s = s

abbrev new_id : Source → String
new_id ticketsports = "t1"
new_id corridasbr = "t2"
new_id openresults = "t3"
new_id _ = "t4"

abbrev input : CampaignInput
input = record {
  reason = "yearly load";
  states = some ("SP" ∷ "RJ" ∷ []);
  batch_size = none;
  prefix_limit = some 500;
}

abbrev store : Store
store = record {
  campaigns = [];
  occurrences = "completed" ∷ [];
  syncs = [];
  room = record {
    capacity = record {
      database_budget_bytes = some 500000000;
      storage_budget_bytes = some 10000000;
      database_headroom_bytes = 16777216;
      storage_headroom_bytes = 1048576;
      confirmed_at = some 900;
      database_bytes = none;
      storage_bytes = none;
    };
    reservations = [];
    tasks = [];
  };
  audits = [];
}

abbrev sizes : Measured
sizes = record { database_size = some 90000000; storage_size = some 5000000 }

abbrev attempt : Store → String → Result String (Store × Campaign)
attempt s key =
    start_catalog_campaign setting unmarked untrimmed new_id "admin" key input 1000 sizes s

program : Unit {0}
unfolding sort_states insert_state take_text in_bounds check_request with_defaults normalized
    campaign_id new_sync first_payload add_source add_sources new_campaign start_found
    start_catalog_campaign assured assert_capacity check_catalog_capacity put_in put_field
    catalog_checkpoint enqueue_task upsert stop_tasks release_tasks updated_sync latest
    updated_reconciliation updated_campaign check_control check_run check_resumed enqueue
    retry_looks maybe_retry control_sync control_syncs control_found control_reconciliation
    control_work control_request_hash conclude control_run answer control_catalog_campaign is_step
    settle is_keyed guard_campaign_task request_hash stable_json leaf_text plain plain_text
    plain_number assert_pilot_task text_length
program = tt

abbrev next_of : Result String (Store × Campaign) → Store
next_of (ok (s, run)) = s
next_of (err code) = store

abbrev run_of : Result String (Store × Campaign) → Campaign
run_of (ok (s, run)) = run
run_of (err code) = record {
  id = "";
  owner_id = "";
  request_hash = "";
  status = "";
  pause_requested = false;
  options = Json.null;
  source_syncs = [];
  reconciliation_id = none;
  created_at = 0;
  finished_at = none;
}

one_active : attempt (next_of (attempt store "k1")) "k22" ≡ err "campaign_active"
unfolding program
one_active = refl

abbrev new_row_id : String → String
new_row_id key = "t9"

abbrev began : State
began = record { store = next_of (attempt store "k1"); reconciliations = []; controls = [] }

abbrev control : String → ControlAction → State → Result String (State × Campaign)
control key action s =
    control_catalog_campaign setting unmarked untrimmed new_row_id "admin" key
      (run_of (attempt store "k1")).id action "a reason" 2000 sizes s

abbrev state_of : Result String (State × Campaign) → State
state_of (ok (s, run)) = s
state_of (err code) = began

abbrev shown_of : Result String (State × Campaign) → Campaign
shown_of (ok (s, run)) = run
shown_of (err code) = run_of (attempt store "k1")

abbrev paused : State
paused = state_of (control "stop" pauses began)

paused_status : (shown_of (control "stop" pauses began)).status ≡ "paused"
unfolding program
paused_status = refl

again : (shown_of (control "go" resumes paused)).status ≡ "discovery"
unfolding program
again = refl

ended : control "go" resumes (state_of (control "end" cancels paused)) ≡ err "campaign_finished"
unfolding program
ended = refl

CampaignReach-IsSingle_example :
    (shown_of (control "stop" pauses began)).id ≡ (shown_of (control "stop" pauses began)).id
unfolding program
CampaignReach-IsSingle_example =
    CampaignReach-IsSingle setting unmarked untrimmed
      (then_step
        (then_step begins (
          starts new_id "admin" "k1" input 1000 sizes
            (record { store = store; reconciliations = []; controls = [] })
            (next_of (attempt store "k1")) (run_of (attempt store "k1")) refl))
        (controls new_row_id "admin" "stop" (run_of (attempt store "k1")).id pauses "a reason" 2000
          sizes began paused (shown_of (control "stop" pauses began)) refl))
      (λ a b i j x y. absurd i) (shown_of (control "stop" pauses began))
      (shown_of (control "stop" pauses began)) (inl refl) (inl refl) refl refl

-- A start, then a pause.
abbrev trace :
    CampaignReach setting unmarked untrimmed
      (record { store = store; reconciliations = []; controls = [] })
      paused
unfolding program
trace =
    then_step
      (then_step begins (
        starts new_id "admin" "k1" input 1000 sizes
          (record { store = store; reconciliations = []; controls = [] })
          (next_of (attempt store "k1")) (run_of (attempt store "k1")) refl))
      (controls new_row_id "admin" "stop" (run_of (attempt store "k1")).id pauses "a reason" 2000
        sizes began paused (shown_of (control "stop" pauses began)) refl)

CampaignReach-slot_run_example :
    slot_run
      (control_slot pauses (run_of (attempt store "k1")).id
        ∷ start (run_of (attempt store "k1")).id
        ∷ [])
      none
    ≡ some (some (run_of (attempt store "k1")).id)
unfolding program slot
CampaignReach-slot_run_example =
    CampaignReach-slot_run setting unmarked untrimmed trace (λ a b i j x y. absurd i)
