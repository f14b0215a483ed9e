-- ===== src/Campaign/Transaction.antt =====
-- The transaction of `controlCatalogCampaign`.
use universal_race_calendar.Common.{
  ℕ, Bool, true, false, ◌&&◌, ◌||◌, not, if◌then◌else◌, ltb, ◌==◌, String, str_eq, Option, none,
  some, List, [], ◌∷◌, any, find, keep, map, includes, text_length, Result, ok, err, ◌>>=◌, ◌>>◌,
  throw_if,
}
use universal_race_calendar.Queue.Json.{
  Json, bool, num, str, arr, obj, Items, nil, cons, end, field, text_at,
}
use universal_race_calendar.Queue.Task.{Source, maintenance, Task, is_running as runs}
use universal_race_calendar.Queue.Enqueue.{CampaignMark, enqueue_task}
use universal_race_calendar.Queue.Steps.{Setting}
use universal_race_calendar.Capacity.{Store as Room, Measured, assert_capacity}
use universal_race_calendar.Capacity.Control.{assured, default_growth}
use universal_race_calendar.Continuation.{CatalogSync, put_in, is_step, live_step, is_live}
use universal_race_calendar.Continuation.Coordinate.{catalog_checkpoint}
use universal_race_calendar.Campaign.{Campaign, is_terminal, is_running, is_campaign}
use universal_race_calendar.Campaign.Launch.{digest}
use universal_race_calendar.Campaign.Control.{
  ControlAction, resumes, is_resume, is_cancel, action_text, Reconciliation, ControlEntry, State,
  Work, is_compatible, is_scoped, stop_tasks, release_tasks, is_failed_look, is_closed, is_limited,
  updated_sync, latest, with_retry, is_rec, updated_reconciliation, updated_campaign, set_campaign,
  is_partial,
}

abbrev pub is_control : String → String → ControlEntry → Bool
is_control actor_id key e = str_eq e.actor_id actor_id && str_eq e.key key

abbrev ids_of : List (Source × String) → List String
ids_of syncs = map (λ (s : Source × String). s.1) syncs

-- A partial campaign that is resumed is tried again.
abbrev pub is_retry : ControlAction → Campaign → Bool
is_retry action run = is_partial run.status && is_resume action

-- The tests of a request, in front of the transaction.
unfoldable pub check_control :
    (String → String) → String → String → String → Result String (Unit {0})
check_control trim actor_id key reason =
    throw_if
      (str_eq actor_id ""
        || (str_eq key ""
            || (ltb 100 (text_length key)
                || (ltb (text_length (trim reason)) 3 || ltb 500 (text_length reason)))))
      "campaign_request_invalid"

-- The tests of the campaign and of those beside it.
unfoldable pub check_run : ControlAction → Campaign → List Campaign → Result String (Unit {0})
check_run action run campaigns = do
  throw_if (is_terminal run.status && not (is_retry action run)) "campaign_finished"
  throw_if (is_retry action run && any (λ r. not (str_eq r.id run.id) && is_running r) campaigns)
      "campaign_active"

-- Only a resumption needs room.
unfoldable pub check_resumed : ControlAction → ℕ → Measured → Room → Result String Room
check_resumed resumes now measured room = assured (assert_capacity default_growth now measured room)
check_resumed _ now measured room = ok room

abbrev texts : List String → Json
texts ss = arr (items ss)
  where
    items : List String → Items
    items [] = nil
    items (s ∷ others) = cons (str s) (items others)

module _ (setting : Setting) (marks : Json → Option CampaignMark) (trim : String → String)
    (new_id : String → String) where
  abbrev text_digest : List String → String
  text_digest ss = digest setting marks trim (texts ss)

  -- `enqueueTask` in the transaction; the id of the new row belongs to its key.
  unfoldable pub enqueue : String → String → Source → String → Json → ℕ → Work → Result String Work
  enqueue owner_id key source kind payload now work = do
    (tasks, task) ←
        enqueue_task setting.runtime setting.conversions setting.sha256 setting.pilot
          (marks payload) (new_id key) owner_id key source kind payload now work.tasks
    ok (record work { tasks = tasks })

  unfoldable pub retry_looks :
      String → String → Campaign → ℕ → List Task → Work → Result String Work
  unfolding enqueue
  retry_looks id key run now [] work = ok work
  retry_looks id key run now (t ∷ ts) work = do
    next ←
        enqueue run.owner_id (text_digest ("campaign-metadata-retry" ∷ id ∷ key ∷ t.id ∷ []))
          t.source t.kind
          (put_in "retryMode" (str "restart") (put_in "retryOf" (str t.id) t.payload)) now work
    retry_looks id key run now ts next

  unfoldable pub maybe_retry :
      Bool → List String → String → String → Campaign → ℕ → Work → Result String Work
  unfolding retry_looks
  maybe_retry false ids id key run now work = ok work
  maybe_retry true ids id key run now work =
      retry_looks id key run now (keep (is_failed_look ids work.tasks) work.tasks) work

  abbrev step_payload : String → Option Task → CatalogSync → CatalogSync → Json
  step_payload id old before after = with_retry old (
      put_in "checkpointHash" (str (catalog_checkpoint setting marks (λ s. false) after)) (
        put_in "campaignId" (str id)
          (put_in "syncId" (str before.id) (put_in "pauseRequested" (bool false) before.options))))

  -- A sync of the campaign, and its next step if it is resumed without a live one.
  unfoldable pub control_sync :
      ControlAction → String → String → Campaign → ℕ → CatalogSync → Work → Result String Work
  unfolding enqueue updated_sync latest
  control_sync action id key run now sync work =
      let updated = updated_sync action now work.tasks sync in
      let written : Work = record work {
        syncs = map (λ s. if str_eq s.id sync.id then updated else s) work.syncs;
      } in
      if is_closed sync.status && not (is_cancel action)
      then ok work
      else if is_resume action && not (any (live_step sync.id) work.tasks)
      then enqueue run.owner_id (text_digest ("campaign-resume" ∷ id ∷ key ∷ sync.id ∷ []))
          sync.source "catalog-sync"
          (step_payload id (latest (keep (is_step sync.id) work.tasks)) sync updated) now written
      else ok written

  unfoldable pub control_syncs :
      ControlAction → String → String → Campaign → ℕ → List CatalogSync → Work → Result String Work
  unfolding control_sync
  control_syncs action id key run now [] work = ok work
  control_syncs action id key run now (sync ∷ syncs) work = do
    next ← control_sync action id key run now sync work
    control_syncs action id key run now syncs next

  abbrev is_pending : String → Task → Bool
  is_pending id t =
      str_eq t.kind "catalog-reconcile" && (is_live t.status && is_id (text_at "runId" t.payload))
    where
      is_id : Option String → Bool
      is_id none = false
      is_id (some s) = str_eq s id

  unfoldable pub control_found :
      ControlAction
      → String
      → String
      → Campaign
      → ℕ
      → Work
      → Option Reconciliation
      → Result String Work
  unfolding enqueue updated_reconciliation
  control_found action id key run now work none = ok work
  control_found action id key run now work (some rec) =
      let written : Work = record work {
        reconciliations =
            map (λ r. if str_eq r.id rec.id then updated_reconciliation action now r else r)
              work.reconciliations;
      } in
      if includes ("completed" ∷ "completed_with_review" ∷ "cancelled" ∷ []) rec.status
      then ok work
      else if is_resume action && not (rec.parser_version == 1)
      then err "catalog_reconciliation_checkpoint_incompatible"
      else if is_resume action && not (any (is_pending rec.id) work.tasks)
      then enqueue run.owner_id (text_digest ("campaign-reconcile-resume" ∷ id ∷ key ∷ []))
          maintenance "catalog-reconcile"
          (obj (
            field "runId" (str rec.id) (
              field "parserVersion" (num rec.parser_version)
                (field "checkpointSequence" (num rec.sequence) end))))
          now written
      else ok written

  unfoldable pub control_reconciliation :
      ControlAction → String → String → Campaign → ℕ → Option String → Work → Result String Work
  unfolding control_found
  control_reconciliation action id key run now none work = ok work
  control_reconciliation action id key run now (some rec_id) work =
      control_found action id key run now work (find (is_rec rec_id) work.reconciliations)

  -- Everything between the tests and the campaign's own row.
  unfoldable pub control_work :
      ControlAction → String → String → Campaign → ℕ → Work → Result String Work
  unfolding maybe_retry control_syncs control_reconciliation stop_tasks release_tasks
  control_work action id key run now work =
      let ids = ids_of run.source_syncs in
      let scoped = keep (is_scoped ids run.reconciliation_id) work.tasks in
      let task_ids = map (λ (t : Task). t.id) scoped in
      let syncs = keep (λ (s : CatalogSync). includes ids s.id) work.syncs in
      let retry = is_retry action run in
      let stopped : Work = record work { tasks = stop_tasks action task_ids now work.tasks } in
      do
        throw_if (is_cancel action && any (λ t. runs t.status) scoped) "campaign_in_use"
        throw_if (retry && any is_limited syncs) "campaign_limited_new_scope_required"
        tried ← maybe_retry retry ids id key run now stopped
        throw_if (is_resume action && any (λ s. not (is_compatible s)) syncs)
            "catalog_checkpoint_incompatible"
        synced ←
            control_syncs action id key run now syncs
              (record tried { tasks = release_tasks action task_ids now tried.tasks })
        control_reconciliation action id key run now (if retry then none else run.reconciliation_id)
            synced

  unfoldable pub request_hash : String → ControlAction → String → String
  request_hash id action reason = digest setting marks trim (
      obj (
        field "id" (str id)
          (field "action" (str (action_text action)) (field "reason" (str (trim reason)) end))))

  -- The rows after the work, with the campaign and the audit.
  unfoldable pub conclude :
      String
      → String
      → ControlAction
      → String
      → Campaign
      → ℕ
      → State
      → Room
      → Work
      → State × Campaign
  unfolding updated_campaign request_hash
  conclude actor_id key action reason run now s room work =
      let updated =
        updated_campaign action (is_retry action run) (text_digest (run.id ∷ key ∷ [])) now run in
      (
        record {
          store = record s.store {
            campaigns = set_campaign run.id (λ r. updated) s.store.campaigns;
            syncs = work.syncs;
            room = record room { tasks = work.tasks };
          };
          reconciliations = work.reconciliations;
          controls =
              record {
                actor_id = actor_id;
                key = key;
                request_hash = request_hash run.id action reason;
                reason = trim reason;
                response = updated;
              }
              ∷ s.controls;
        },
        updated,
      )

  unfoldable pub control_run :
      String
      → String
      → ControlAction
      → String
      → ℕ
      → Measured
      → State
      → Option Campaign
      → Result String (State × Campaign)
  unfolding check_run check_resumed control_work conclude
  control_run actor_id key action reason now measured s none = err "campaign_not_found"
  control_run actor_id key action reason now measured s (some run) = do
    check_run action run s.store.campaigns
    room ← check_resumed action now measured s.store.room
    work ←
        control_work action run.id key run now (record {
          tasks = room.tasks;
          syncs = s.store.syncs;
          reconciliations = s.reconciliations;
        })
    ok (conclude actor_id key action reason run now s room work)

  -- What stands behind the search for an earlier entry of the key.
  unfoldable pub answer :
      String
      → String
      → String
      → ControlAction
      → String
      → ℕ
      → Measured
      → State
      → Option ControlEntry
      → Result String (State × Campaign)
  unfolding control_run
  answer actor_id key id action reason now measured s (some prior) =
      if not (str_eq prior.request_hash (request_hash id action reason))
      then err "idempotency_conflict"
      else ok (s, prior.response)
  answer actor_id key id action reason now measured s none =
      control_run actor_id key action reason now measured s
        (find (is_campaign id) s.store.campaigns)

  unfoldable pub control_catalog_campaign :
      String
      → String
      → String
      → ControlAction
      → String
      → ℕ
      → Measured
      → State
      → Result String (State × Campaign)
  unfolding check_control answer
  control_catalog_campaign actor_id key id action reason now measured s = do
    check_control trim actor_id key reason
    answer actor_id key id action reason now measured s (find (is_control actor_id key) s.controls)
