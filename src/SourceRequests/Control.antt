-- ===== src/SourceRequests/Control.antt =====
-- `mutateSourceControl`, `resumeSourceRequests` and `configureSourceRequests`: one transaction on the
-- gates, the held tasks and the audit log.
use universal_race_calendar.Common.{
  ℕ, Bool, true, false, ◌&&◌, ◌||◌, ltb, if◌then◌else◌, String, str_eq, Option, none, some, List,
  ◌∷◌, find, Result, ok, err, ◌>>◌, throw_if, get_or,
}
use universal_race_calendar.Queue.Json.{
  Json, num, str, obj, end, field, Fields, Runtime, stable_json,
}
use universal_race_calendar.Queue.Task.{Source, same_source, Task, is_queued, update_where}
use universal_race_calendar.SourceRequests.Gate.{
  Gate, Gates, new_gate, set_gate, PublicControl, public_source_control,
}

pub data Action : Type 0 where
  resume configure : Action

abbrev pub same_action : Action → Action → Bool
same_action resume resume = true
same_action configure configure = true
same_action _ _ = false

pub record Payload : Type 0 where
  pub reason : String
  pub limit_per_hour : Option ℕ
  pub min_delay_ms : Option ℕ

-- An entry of `AdminAudit` of one of the two actions, the key in its details.
pub record Entry : Type 0 where
  pub actor_id : String
  pub key : String
  pub action : Action
  pub source : Source
  pub payload : Payload
  pub result : PublicControl

pub record State : Type 0 where
  pub gates : Gates
  pub tasks : List Task
  pub audits : List Entry

abbrev number_field : String → Option ℕ → Fields → Fields
number_field key none fs = fs
number_field key (some n) fs = field key (num n) fs

abbrev pub payload_json : Payload → Json
payload_json p = obj (
    field "reason" (str p.reason)
      (number_field "limitPerHour" p.limit_per_hour (number_field "minDelayMs" p.min_delay_ms end)))

unfoldable pub is_entry : String → String → Entry → Bool
is_entry actor_id key e = str_eq e.actor_id actor_id && str_eq e.key key

unfoldable pub updated_gate : Action → Payload → Gate → Gate
updated_gate resume payload gate = record gate {
  blocked_at = none;
  blocked_until = none;
  block_reason = none;
}
updated_gate configure payload gate = record gate {
  limit_per_hour = get_or payload.limit_per_hour gate.limit_per_hour;
  min_delay_ms = get_or payload.min_delay_ms gate.min_delay_ms;
}

abbrev is_reason : String → Option String → Bool
is_reason s none = false
is_reason s (some r) = str_eq r s

unfoldable pub held_by_block : Source → Task → Bool
held_by_block source t =
    same_source t.source source
    && (is_queued t.status && (t.execution_hold && is_reason "source_access_blocked" t.hold_reason))

abbrev pub release : ℕ → Task → Task
release now t = record t {
  execution_hold = false;
  hold_reason = none;
  error_code = none;
  updated_at = now;
}

-- "Clearing a block never … releases other hold reasons."
unfoldable pub released : Action → Source → ℕ → List Task → List Task
released resume source now ts = (update_where (held_by_block source) (release now) ts).0
released configure source now ts = ts

-- `blockedUntil && blockedUntil > now`
abbrev pub cooling : Action → Gate → ℕ → Bool
cooling configure gate now = false
cooling resume gate now = elim gate.blocked_until [ none ↦ false | some until ↦ ltb now until ]

module _ (runtime : Runtime) where
  unfoldable pub same_request : Action → Source → Payload → Entry → Bool
  same_request action source payload e =
      same_action e.action action
      && (same_source e.source source
          && str_eq (stable_json runtime (payload_json e.payload))
              (stable_json runtime (payload_json payload)))

  -- What stands behind the search for an earlier entry.
  unfoldable pub answer :
      Source
      → String
      → String
      → Action
      → Payload
      → ℕ
      → State
      → Option Entry
      → Result String (State × PublicControl)
  answer source actor_id key action payload now s (some previous) =
      if same_request action source payload previous
      then ok (s, previous.result)
      else err "idempotency_conflict"
  answer source actor_id key action payload now s none =
      let gate = get_or (s.gates source) (new_gate source now) in
      let updated = updated_gate action payload gate in
      let result = public_source_control updated now in
      do
        throw_if (cooling action gate now) "source_cooldown_active"
        ok (
          record {
            gates = set_gate source updated s.gates;
            tasks = released action source now s.tasks;
            audits =
                record {
                  actor_id = actor_id;
                  key = key;
                  action = action;
                  source = source;
                  payload = payload;
                  result = result;
                }
                ∷ s.audits;
          },
          result,
        )

  unfoldable pub mutate_source_control :
      Source
      → String
      → String
      → Action
      → Payload
      → ℕ
      → State
      → Result String (State × PublicControl)
  mutate_source_control source actor_id key action payload now s =
      answer source actor_id key action payload now s (find (is_entry actor_id key) s.audits)

  unfoldable pub resume_source_requests :
      Source → String → String → String → ℕ → State → Result String (State × PublicControl)
  resume_source_requests source actor_id reason key now s =
      mutate_source_control source actor_id key resume
        (record { reason = reason; limit_per_hour = none; min_delay_ms = none }) now s

  unfoldable pub configure_source_requests :
      Source → String → String → ℕ → ℕ → String → ℕ → State → Result String (State × PublicControl)
  configure_source_requests source actor_id reason limit delay key now s =
      if ltb limit 1 || (ltb 100 limit || (ltb delay 1000 || ltb 60000 delay))
      then err "source_request_limits_invalid"
      else mutate_source_control source actor_id key configure
          (record { reason = reason; limit_per_hour = some limit; min_delay_ms = some delay }) now s
