-- ===== src/Worker.antt =====
-- packages/utils/src/local-resources.ts, packages/utils/src/worker-polling.ts, the limits of
-- apps/worker/src/batch.ts and `presentWorker` of packages/database/src/presence.ts: when the worker
-- may take work. Times are in milliseconds unless a name says otherwise.
use universal_race_calendar.Common.{
  ℕ, zero, suc, ◌+◌, ◌*◌, ◌-◌, ◌^◌, Bool, true, false, ◌&&◌, ◌||◌, not, if◌then◌else◌, leb, ltb,
  Option, none, some, List, [], ◌∷◌, codes, any, same_codes, is_some, Result, ok, err,
}
use universal_race_calendar.Common.Units.{decimal_from, Units, is_number}
pub mod Loop
pub mod Bounds
pub mod Resources
pub mod Errors
mod Tests

-- The environment's text, or the fallback; refused unless it is a number from `least` to `most`.
unfoldable pub limit : {E : Type 0} → E → Option Units → ℕ → ℕ → ℕ → Result E ℕ
unfolding decimal_from
limit refusal none fallback least most =
    if leb least fallback && leb fallback most then ok fallback else err refusal
limit refusal (some text) fallback least most =
    let n = decimal_from 0 text in
    if is_number text && (leb least n && leb n most) then ok n else err refusal

pub data WorkerError : Type 0 where
  invalid_local_resource_limits invalid_worker_mode invalid_worker_limits : WorkerError

-- A measurement is missing, no natural number, or a number of bytes.
pub data Measure : Type 0 where
  missing odd : Measure
  bytes : ℕ → Measure

abbrev pub max_safe : ℕ
max_safe = 9007199254740991

abbrev pub valid : Measure → Option ℕ
valid (bytes n) = if leb n max_safe then some n else none
valid _ = none

pub record Limits : Type 0 where
  pub min_memory_bytes : ℕ
  pub min_temp_bytes : ℕ
  pub max_rss_bytes : ℕ

pub data LocalResourceReason : Type 0 where
  local_memory_limit local_disk_limit local_resource_measurement_unavailable : LocalResourceReason

abbrev mib : ℕ
mib = 1048576

-- The three texts are the environment's settings of the limits, in MiB.
unfoldable pub local_resource_limits :
    Option Units → Option Units → Option Units → Result WorkerError Limits
unfolding limit
local_resource_limits memory temp rss =
    elim (limit invalid_local_resource_limits memory 512 128 1048576) [
      | err e ↦ err e
      | ok m ↦ elim (limit invalid_local_resource_limits temp 1024 128 1048576) [
        | err e ↦ err e
        | ok t ↦ elim (limit invalid_local_resource_limits rss 1024 128 1048576) [
          | err e ↦ err e
          | ok r ↦ ok (record {
            min_memory_bytes = m * mib;
            min_temp_bytes = t * mib;
            max_rss_bytes = r * mib;
          })
        ]
      ]
    ]

unfoldable pub reason_of : Option ℕ → Option ℕ → Option ℕ → Limits → Option LocalResourceReason
reason_of (some memory) (some temp) (some rss) limits =
    if ltb memory limits.min_memory_bytes || leb limits.max_rss_bytes rss
    then some local_memory_limit
    else if ltb temp limits.min_temp_bytes
    then some local_disk_limit
    else none
reason_of _ _ _ limits = some local_resource_measurement_unavailable

-- The reason of `assessLocalResources`.
unfoldable pub assess_local_resources :
    Measure → Measure → Measure → Limits → Option LocalResourceReason
unfolding reason_of
assess_local_resources memory temp rss limits =
    reason_of (valid memory) (valid temp) (valid rss) limits

abbrev min : ℕ → ℕ → ℕ
min a b = if leb a b then a else b

-- `emptyPolls` counts from 0.
unfoldable pub worker_idle_delay : ℕ → ℕ
worker_idle_delay empty_polls = min 15000 (1000 * 2 ^ min 4 empty_polls)

-- The state that the panel shows of a worker seen `age_seconds` ago.
unfoldable pub present_worker : Units → ℕ → Units
present_worker state age_seconds =
    if same_codes state (codes "stopped") || ltb 75 age_seconds then codes "disconnected" else state

pub record Options : Type 0 where
  pub batch : Bool
  pub max_tasks : ℕ
  pub max_seconds : ℕ

abbrev mode_text : Option Units → Units
mode_text none = codes "continuous"
mode_text (some m) = m

-- The three texts are the environment's mode and limits.
unfoldable pub worker_options :
    Option Units → Option Units → Option Units → Result WorkerError Options
unfolding limit
worker_options mode tasks seconds =
    let chosen = mode_text mode in
    if not (same_codes chosen (codes "continuous") || same_codes chosen (codes "batch"))
    then err invalid_worker_mode
    else elim (limit invalid_worker_limits tasks 3 1 100) [
      | err e ↦ err e
      | ok t ↦ elim (limit invalid_worker_limits seconds 600 1 3600) [
        | err e ↦ err e
        | ok s ↦
            ok
              (record { batch = same_codes chosen (codes "batch"); max_tasks = t; max_seconds = s })
      ]
    ]
