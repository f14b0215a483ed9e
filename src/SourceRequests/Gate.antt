-- ===== src/SourceRequests/Gate.antt =====
-- `reserve_source_request`, `block_source_requests`, and the functions of source-requests.ts that
-- call them. Instants are milliseconds.
use universal_race_calendar.Common.{
  Bool, ℕ, zero, suc, ◌+◌, ◌-◌, ◌*◌, ◌/◌, min, max, true, ◌&&◌, ◌||◌, not, ltb, leb, ◌==◌,
  if◌then◌else◌, String, str_eq, Option, none, some, List, [], ◌∷◌, any, ends_with, Result, ok, err,
  get_or, is_some,
}
use universal_race_calendar.Queue.Task.{
  Source, ticketsports, corridasbr, openresults, same_source, Task, is_queued, update_where,
}

abbrev pub hour_ms : ℕ
hour_ms = 3600000

-- `date_trunc('hour', moment)`
unfoldable pub hour_start : ℕ → ℕ
hour_start moment = moment / hour_ms * hour_ms

pub record Gate : Type 0 where
  pub source : Source
  pub window_start : ℕ
  pub request_count : ℕ
  pub limit_per_hour : ℕ
  pub min_delay_ms : ℕ
  pub next_allowed_at : ℕ
  pub blocked_at : Option ℕ
  pub blocked_until : Option ℕ
  pub block_reason : Option String

-- The row of a first request, with the defaults of the table.
abbrev pub new_gate : Source → ℕ → Gate
new_gate source now = record {
  source = source;
  window_start = hour_start now;
  request_count = 0;
  limit_per_hour = 100;
  min_delay_ms = 1000;
  next_allowed_at = now;
  blocked_at = none;
  blocked_until = none;
  block_reason = none;
}

pub data Decision : Type 0 where
  allowed : Decision
  blocked : Option ℕ → Decision
  budget : ℕ → Decision
  spacing : ℕ → Decision

unfoldable pub open_window : ℕ → Gate → Gate
open_window moment gate =
    if ltb gate.window_start (hour_start moment)
    then record gate { window_start = hour_start moment; request_count = 0 }
    else gate

unfoldable pub reserve_in_window : ℕ → Gate → Gate × Decision
reserve_in_window moment gate =
    if leb gate.limit_per_hour gate.request_count
    then (gate, budget (gate.window_start + hour_ms))
    else if ltb moment gate.next_allowed_at
    then (gate, spacing gate.next_allowed_at)
    else (
      record gate {
        request_count = gate.request_count + 1;
        next_allowed_at = moment + gate.min_delay_ms;
      },
      allowed,
    )

unfoldable pub reserve_source_request : ℕ → Gate → Gate × Decision
reserve_source_request moment gate =
    if is_some gate.blocked_at
    then (gate, blocked gate.blocked_until)
    else reserve_in_window moment (open_window moment gate)

-- How `waitForSourceRequest` ends; `waits` means that the rounds given are used up.
pub data Wait : Type 0 where
  granted : Wait
  circuit_open : Option ℕ → Wait
  budget_deferred : ℕ → Wait
  waits : Wait

unfoldable pub sleep_ms : ℕ → ℕ → ℕ
sleep_ms retry_at now = min 60000 (max 1 (retry_at + 1 - now))

-- The loop of `waitForSourceRequest` and its moment; `others` is what other executors do to the gate
-- in the sleep of a round.
unfoldable pub wait_for_source_request : (ℕ → Gate → Gate) → ℕ → ℕ → Gate → Gate × Wait
wait_for_source_request others zero now gate = (gate, waits)
wait_for_source_request others (suc rounds) now gate =
    let (next, decision) = reserve_source_request now gate in
    elim decision [
      | allowed ↦ (next, granted)
      | blocked until ↦ (next, circuit_open until)
      | budget retry_at ↦ (next, budget_deferred retry_at)
      | spacing retry_at ↦
          wait_for_source_request others rounds (now + sleep_ms retry_at now) (others rounds next)
    ]

-- `greatest`, which ignores NULL
abbrev greatest : Option ℕ → Option ℕ → Option ℕ
greatest none b = b
greatest (some a) none = some a
greatest (some a) (some b) = some (max a b)

unfoldable pub block_gate : ℕ → Option ℕ → Gate → Gate
block_gate now retry_at gate = record gate {
  blocked_at = some (get_or gate.blocked_at now);
  blocked_until =
      if not (is_some gate.blocked_until) && is_some gate.blocked_at
      then none
      else greatest gate.blocked_until retry_at;
  block_reason = some "source_access_blocked";
}

unfoldable pub hold_blocked : Source → ℕ → List Task → List Task
hold_blocked source now ts =
    (update_where (λ t. same_source t.source source && (is_queued t.status && not t.execution_hold))
      (λ t. record t {
        execution_hold = true;
        hold_reason = some "source_access_blocked";
        error_code = some "source_access_blocked";
        updated_at = now;
      })
      ts).0

-- The rows of `SourceRequestControl`
abbrev pub Gates : Type 0
Gates = Source → Option Gate

abbrev pub set_gate : Source → Gate → Gates → Gates
set_gate source gate gates = λ s. if same_source s source then some gate else gates s

unfoldable pub block_source_requests : Source → ℕ → Option ℕ → Gates → List Task → Gates × List Task
block_source_requests source now retry_at gates ts = (
  set_gate source
      (elim (gates source) [
        | none ↦ record (new_gate source now) {
          blocked_at = some now;
          blocked_until = retry_at;
          block_reason = some "source_access_blocked";
        }
        | some gate ↦ block_gate now retry_at gate
      ])
      gates,
  hold_blocked source now ts,
)

-- `requestSource`: the scope if it is a request source, else the host of the URL, which the
-- runtime parses.
abbrev scope_source : Option String → Option Source
scope_source none = none
scope_source (some s) =
    if str_eq s "ticketsports"
    then some ticketsports
    else if str_eq s "corridasbr"
    then some corridasbr
    else if str_eq s "openresults"
    then some openresults
    else none

unfoldable pub host_source : String → Result String Source
host_source hostname =
    if str_eq hostname "ticketsports.com.br" || ends_with hostname ".ticketsports.com.br"
    then ok ticketsports
    else if str_eq hostname "corridasbr.com.br" || ends_with hostname ".corridasbr.com.br"
    then ok corridasbr
    else if str_eq hostname "openresults.run" || ends_with hostname ".openresults.run"
    then ok openresults
    else err "source_request_scope_required"

-- `Number(text)`: a finite number, by whether it is below zero, its whole part and its thousandths
-- behind the point, where `new Date` cuts off what is smaller; or NaN or an infinite one.
pub data Seconds : Type 0 where
  finite : Bool → ℕ → ℕ → Seconds
  not_finite : Seconds

-- What the runtime reads of texts: the host of a URL, `Number` and `Date.parse`; `none` is an
-- exception or NaN. The moments are those in the range of a Date.
pub record Readers : Type 0 where
  pub hostname : String → Option String
  pub number : String → Seconds
  pub date : String → Option ℕ

unfoldable pub request_source : Readers → String → Option String → Result String Source
request_source readers url scope = elim (scope_source scope) [
  | some s ↦ ok s
  | none ↦ elim (readers.hostname url) [ none ↦ err "Invalid URL" | some host ↦ host_source host ]
]

-- The moment that `observeSourceResponse` derives from `retry-after`: `Math.max(0, seconds)` from
-- now on.
unfoldable pub retry_moment : Readers → ℕ → Option String → Option ℕ
retry_moment readers now none = none
retry_moment readers now (some text) = if str_eq text "" then none else elim (readers.number text) [
  | finite below whole thousandths ↦ some (now + (if below then 0 else whole * 1000 + thousandths))
  | not_finite ↦ readers.date text
]

unfoldable pub observe_source_response :
    Readers
    → String
    → Option String
    → ℕ
    → Option String
    → ℕ
    → Gates
    → List Task
    → Result String (Gates × List Task)
observe_source_response readers url scope status retry_after now gates ts =
    if not (any (λ code. code == status) (401 ∷ 403 ∷ 429 ∷ []))
    then ok (gates, ts)
    else elim (request_source readers url scope) [
      | err e ↦ err e
      | ok source ↦
          ok (block_source_requests source now (retry_moment readers now retry_after) gates ts)
    ]

pub record PublicControl : Type 0 where
  pub source : Source
  pub requests_used : ℕ
  pub limit_per_hour : ℕ
  pub min_delay_ms : ℕ
  pub reset_at : ℕ
  pub blocked_at : Option ℕ
  pub blocked_until : Option ℕ
  pub block_reason : Option String

unfoldable pub public_source_control : Gate → ℕ → PublicControl
public_source_control gate now =
    let expired = leb (gate.window_start + hour_ms) now in
    record {
      source = gate.source;
      requests_used = if expired then 0 else gate.request_count;
      limit_per_hour = gate.limit_per_hour;
      min_delay_ms = gate.min_delay_ms;
      reset_at = (if expired then hour_start now else gate.window_start) + hour_ms;
      blocked_at = gate.blocked_at;
      blocked_until = gate.blocked_until;
      block_reason = gate.block_reason;
    }
