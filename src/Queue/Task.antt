-- ===== src/Queue/Task.antt =====
-- The rows of `CollectionTask`, and the operations of tasks.ts on one claimed row: heartbeat, finish,
-- the deferrals and the stop of retries. Instants are milliseconds.
use universal_race_calendar.Common.{
  ℕ, ◌+◌, ◌-◌, ◌*◌, ◌^◌, min, Bool, true, false, ◌&&◌, ltb, if◌then◌else◌, String, str_eq, Option,
  none, some, List, map, any, get_or,
}
use universal_race_calendar.Queue.Json.{Json}

pub data Source : Type 0 where
  ticketsports corridasbr openresults exports maintenance : Source

abbrev pub same_source : Source → Source → Bool
same_source ticketsports ticketsports = true
same_source corridasbr corridasbr = true
same_source openresults openresults = true
same_source exports exports = true
same_source maintenance maintenance = true
same_source _ _ = false

-- The sources of the TypeScript executor, which runs one task at a time.
abbrev pub is_shared : Source → Bool
is_shared ticketsports = true
is_shared corridasbr = true
is_shared maintenance = true
is_shared _ = false

pub data Status : Type 0 where
  queued running completed partial failed cancelled : Status

abbrev pub is_queued : Status → Bool
is_queued queued = true
is_queued _ = false

abbrev pub is_running : Status → Bool
is_running running = true
is_running _ = false

pub record Task : Type 0 where
  pub id : String
  pub owner_id : String
  pub idempotency_key : String
  pub source : Source
  pub kind : String
  pub payload : Json
  pub request_hash : String
  pub status : Status
  pub attempt : ℕ
  pub max_attempts : ℕ
  pub available_at : ℕ
  pub execution_hold : Bool
  pub hold_reason : Option String
  pub lease_token : Option String
  pub lease_until : Option ℕ
  pub error_code : Option String
  pub finished_at : Option ℕ
  pub created_at : ℕ
  pub updated_at : ℕ
  pub progress : Json

abbrev holds_token : Option String → String → Bool
holds_token none token = false
holds_token (some s) token = str_eq s token

abbrev is_after : Option ℕ → ℕ → Bool
is_after none now = false
is_after (some until) now = ltb now until

-- `WHERE id=task_id AND status='running' AND "leaseToken"=token AND "leaseUntil">now()`
unfoldable pub leased : String → String → ℕ → Task → Bool
leased id token now t =
    str_eq t.id id
    && (is_running t.status && (holds_token t.lease_token token && is_after t.lease_until now))

-- `UPDATE … WHERE p; RETURN FOUND`
abbrev pub update_where : (Task → Bool) → (Task → Task) → List Task → List Task × Bool
update_where p f ts = (map (λ t. if p t then f t else t) ts, any p ts)

abbrev pub lease_ms : ℕ
lease_ms = 90000

unfoldable pub beat : ℕ → Json → Task → Task
beat now counters t = record t {
  lease_until = some (now + lease_ms);
  updated_at = now;
  progress = counters;
}

unfoldable pub heartbeat_task : String → String → ℕ → Json → List Task → List Task × Bool
heartbeat_task id token now counters = update_where (leased id token now) (beat now counters)

pub data Outcome : Type 0 where
  completes ends_partial fails : Outcome

abbrev outcome_status : Outcome → Status
outcome_status completes = completed
outcome_status ends_partial = partial
outcome_status fails = failed

abbrev is_failure : Outcome → Bool
is_failure fails = true
is_failure _ = false

-- `LEAST(1800, 30 * power(2, attempt))` seconds
unfoldable pub backoff_ms : ℕ → ℕ
backoff_ms attempt = min 1800 (30 * 2 ^ attempt) * 1000

unfoldable pub finish : ℕ → Outcome → Json → Option String → Task → Task
finish now outcome counters failure t =
    let again = is_failure outcome && ltb t.attempt t.max_attempts in
    record t {
      status = if again then queued else outcome_status outcome;
      available_at = now + backoff_ms t.attempt;
      finished_at = if again then none else some now;
      lease_token = none;
      lease_until = none;
      updated_at = now;
      progress = counters;
      error_code = failure;
    }

unfoldable pub finish_task :
    String → String → ℕ → Outcome → Json → Option String → List Task → List Task × Bool
finish_task id token now outcome counters failure =
    update_where (leased id token now) (finish now outcome counters failure)

-- What the deferrals share: the attempt is given back and the lease dropped.
abbrev requeue : ℕ → Json → Task → Task
requeue now counters t = record t {
  status = queued;
  attempt = t.attempt - 1;
  lease_token = none;
  lease_until = none;
  finished_at = none;
  updated_at = now;
  progress = counters;
}

unfoldable pub defer_source : ℕ → Json → Option ℕ → Bool → Task → Task
defer_source now counters retry_at blocked t = record (requeue now counters t) {
  available_at = get_or retry_at now;
  execution_hold = blocked;
  hold_reason = if blocked then some "source_access_blocked" else none;
  error_code = some (if blocked then "source_access_blocked" else "source_budget_wait");
}

unfoldable pub defer_source_task :
    String → String → ℕ → Json → Option ℕ → Bool → List Task → List Task × Bool
defer_source_task id token now counters retry_at blocked =
    update_where (leased id token now) (defer_source now counters retry_at blocked)

-- `progress||counters||…`: the merge of two JSON objects is the database's.
module _ (merge : Json → Json → Json) where
  unfoldable pub defer_capacity : ℕ → Json → String → Task → Task
  defer_capacity now counters reason t = record (requeue now (merge t.progress counters) t) {
    execution_hold = true;
    hold_reason = some "capacity_wait";
    error_code = some reason;
  }

  unfoldable pub defer_capacity_task :
      String → String → ℕ → Json → String → List Task → List Task × Bool
  defer_capacity_task id token now counters reason =
      update_where (leased id token now) (defer_capacity now counters reason)

  unfoldable pub defer_local_resource : ℕ → Json → String → Task → Task
  defer_local_resource now counters reason t = record (requeue now (merge t.progress counters) t) {
    available_at = now;
    execution_hold = true;
    hold_reason = some "local_resource_wait";
    error_code = some reason;
  }

  unfoldable pub defer_local_resource_task :
      String → String → ℕ → Json → String → List Task → List Task × Bool
  defer_local_resource_task id token now counters reason =
      update_where (leased id token now) (defer_local_resource now counters reason)

-- The update of the executor on a failure that is not retryable: `data: { maxAttempts: task.attempt }`.
unfoldable pub stop_retries : String → Option String → ℕ → ℕ → List Task → List Task
stop_retries id token attempt now ts = elim token [
  | none ↦ ts
  | some s ↦ (update_where (leased id s now) (λ t. record t { max_attempts = attempt }) ts).0
]
