-- ===== src/Campaign/Control.antt =====
-- `controlCatalogCampaign`: the pause, the resumption and the end of a campaign, with its syncs, their
-- steps and its reconciliation.
use universal_race_calendar.Common.{
  ℕ, Bool, true, false, ◌&&◌, ◌||◌, not, if◌then◌else◌, ltb, ◌==◌, String, str_eq, Option, none,
  some, List, [], ◌∷◌, any, map, includes,
}
use universal_race_calendar.Queue.Json.{Json, bool, num, str, arr, obj, nil, get_field, text_at}
use universal_race_calendar.Queue.Task.{
  Source, ticketsports, corridasbr, Task, Status, failed, partial, cancelled, is_queued,
  update_where,
}
use universal_race_calendar.Continuation.{
  CatalogSync, SyncStatus, sync_ready, sync_paused, sync_limited, sync_completed, sync_cancelled,
  put_in, running_step,
}
use universal_race_calendar.Campaign.{Campaign, Store}

pub data ControlAction : Type 0 where
  pauses resumes cancels : ControlAction

abbrev is_pause : ControlAction → Bool
is_pause pauses = true
is_pause _ = false

abbrev pub is_resume : ControlAction → Bool
is_resume resumes = true
is_resume _ = false

abbrev pub is_cancel : ControlAction → Bool
is_cancel cancels = true
is_cancel _ = false

abbrev pub action_text : ControlAction → String
action_text pauses = "pause"
action_text resumes = "resume"
action_text cancels = "cancel"

-- A row of `CatalogReconciliation`, as far as a campaign changes it.
pub record Reconciliation : Type 0 where
  pub id : String
  pub status : String
  pub pause_requested : Bool
  pub parser_version : ℕ
  pub sequence : ℕ
  pub next_attempt_at : ℕ
  pub finished_at : Option ℕ

-- An entry of `AdminAudit` of a control.
pub record ControlEntry : Type 0 where
  pub actor_id : String
  pub key : String
  pub request_hash : String
  pub reason : String
  pub response : Campaign

pub record State : Type 0 where
  pub store : Store
  pub reconciliations : List Reconciliation
  pub controls : List ControlEntry

-- What the middle of a control works on: it changes no campaign.
pub record Work : Type 0 where
  pub tasks : List Task
  pub syncs : List CatalogSync
  pub reconciliations : List Reconciliation

-- `compatible`
abbrev pub is_compatible : CatalogSync → Bool
is_compatible sync = elim sync.snapshot [
  | arr nil ↦ true
  | obj fields ↦ is_two (get_field (version sync.source) (obj fields))
  | _ ↦ false
]
  where
    version : Source → String
    version ticketsports = "nationalVersion"
    version corridasbr = "corridasVersion"
    version _ = "openresultsVersion"

    is_two : Option Json → Bool
    is_two (some (num n)) = n == 2
    is_two _ = false

abbrev among : List String → Option String → Bool
among ids none = false
among ids (some id) = includes ids id

abbrev is_text : String → Option String → Bool
is_text s none = false
is_text s (some t) = str_eq t s

abbrev names_run : Option String → Task → Bool
names_run none t = false
names_run (some id) t = is_text id (text_at "runId" t.payload)

-- The tasks of a campaign: of its syncs or of its reconciliation.
abbrev pub is_scoped : List String → Option String → Task → Bool
is_scoped ids run_id t = among ids (text_at "syncId" t.payload) || names_run run_id t

abbrev hold : ℕ → Task → Task
hold now t = record t {
  execution_hold = true;
  hold_reason = some "catalog_campaign_paused";
  updated_at = now;
}

abbrev end_task : ℕ → Task → Task
end_task now t = record t { status = cancelled; finished_at = some now; updated_at = now }

abbrev let_go : ℕ → Task → Task
let_go now t = record t { execution_hold = false; hold_reason = none; updated_at = now }

-- What a pause or an end does to the queued tasks of these ids.
unfoldable pub stop_tasks : ControlAction → List String → ℕ → List Task → List Task
stop_tasks pauses ids now ts =
    (update_where (λ t. includes ids t.id && (is_queued t.status && not t.execution_hold))
      (hold now) ts).0
stop_tasks cancels ids now ts =
    (update_where (λ t. includes ids t.id && is_queued t.status) (end_task now) ts).0
stop_tasks resumes ids now ts = ts

unfoldable pub release_tasks : ControlAction → List String → ℕ → List Task → List Task
release_tasks resumes ids now ts =
    (update_where
      (λ t.
        includes ids t.id
        && (is_queued t.status
            && (t.execution_hold && is_text "catalog_campaign_paused" t.hold_reason)))
      (let_go now) ts).0
release_tasks _ ids now ts = ts

abbrev is_over : Status → Bool
is_over failed = true
is_over partial = true
is_over _ = false

-- A failed look at a source that was not tried again.
abbrev pub is_failed_look : List String → List Task → Task → Bool
is_failed_look ids ts t =
    among ids (text_at "syncId" t.payload)
    && (includes ("inspect" ∷ "check-source" ∷ []) t.kind
        && (is_over t.status && not (any (λ n. is_text t.id (text_at "retryOf" n.payload)) ts)))

abbrev pub is_closed : SyncStatus → Bool
is_closed sync_completed = true
is_closed sync_limited = true
is_closed _ = false

abbrev pub is_limited : CatalogSync → Bool
is_limited sync = elim sync.status [ sync_limited ↦ true | _ ↦ false ]

abbrev next_status : ControlAction → Bool → SyncStatus → SyncStatus
next_status cancels busy status = sync_cancelled
next_status pauses busy status = if busy then status else sync_paused
next_status resumes busy status = sync_ready

abbrev sync_options : ControlAction → Json → Json
sync_options cancels options =
    put_in "weeklyCancelled" (bool true) (put_in "pauseRequested" (bool false) options)
sync_options action options = put_in "pauseRequested" (bool (is_pause action)) options

unfoldable pub updated_sync : ControlAction → ℕ → List Task → CatalogSync → CatalogSync
updated_sync action now ts sync = record sync {
  options = sync_options action sync.options;
  status = next_status action (any (running_step sync.id) ts) sync.status;
  updated_at = now;
}

-- `orderBy: { createdAt: "desc" }`, and the first
unfoldable pub latest : List Task → Option Task
latest [] = none
latest (t ∷ ts) = elim (latest ts) [
  | none ↦ some t
  | some u ↦ some (if ltb t.created_at u.created_at then u else t)
]

abbrev pub with_retry : Option Task → Json → Json
with_retry none payload = payload
with_retry (some old) payload =
    put_in "retryMode" (str "resume") (put_in "retryOf" (str old.id) payload)

abbrev pub is_rec : String → Reconciliation → Bool
is_rec id rec = str_eq rec.id id

abbrev rec_status : ControlAction → String
rec_status cancels = "cancelled"
rec_status pauses = "paused"
rec_status resumes = "ready"

abbrev ended : ControlAction → ℕ → Option ℕ → Option ℕ
ended cancels now old = some now
ended _ now old = old

unfoldable pub updated_reconciliation : ControlAction → ℕ → Reconciliation → Reconciliation
updated_reconciliation action now rec = record rec {
  pause_requested = is_pause action;
  status = rec_status action;
  next_attempt_at = now;
  finished_at = ended action now rec.finished_at;
}

abbrev campaign_status : ControlAction → String
campaign_status cancels = "cancelled"
campaign_status pauses = "paused"
campaign_status resumes = "discovery"

-- The end of a control; a campaign that is tried again forgets its reconciliation.
unfoldable pub updated_campaign : ControlAction → Bool → String → ℕ → Campaign → Campaign
updated_campaign action retry epoch now run = record run {
  pause_requested = is_pause action;
  status = campaign_status action;
  reconciliation_id = if retry then none else run.reconciliation_id;
  finished_at = ended action now (if retry then none else run.finished_at);
  options = if retry then put_in "reconciliationEpoch" (str epoch) run.options else run.options;
}

abbrev pub set_campaign : String → (Campaign → Campaign) → List Campaign → List Campaign
set_campaign id f rows = map (λ run. if str_eq run.id id then f run else run) rows

abbrev pub is_partial : String → Bool
is_partial status = str_eq status "partial"
