-- ===== src/Queue/Steps.antt =====
-- The operations of the queue as steps, by any executors at any instants.
use universal_race_calendar.Common.{
  ℕ, ◌≡◌, Bool, true, String, Option, some, List, In, All, str_eq, false, ok,
}
use universal_race_calendar.Queue.Json.{Json, Runtime}
use universal_race_calendar.Queue.Task.{
  Source, Task, Outcome, leased, heartbeat_task, finish_task, defer_source_task,
  defer_capacity_task, defer_local_resource_task, stop_retries,
}
use universal_race_calendar.Queue.Claim.{Gates, claim_selected_task}
use universal_race_calendar.Queue.Enqueue.{CampaignMark, enqueue_task}
use universal_race_calendar.Pilot.{CatalogPilot, Conversions}

-- What the runtime and the database provide: the merge of progress objects, the gates of other
-- tables, the order of ids, the conversions, the digest and the pilot's profile.
pub record Setting : Type 0 where
  pub merge : Json → Json → Json
  pub gates : Gates
  pub id_before : String → String → Bool
  pub runtime : Runtime
  pub conversions : Conversions
  pub sha256 : String → String
  pub pilot : Option CatalogPilot

-- One operation of an executor, of another executor or of acquisition, at any instant.
pub data Step (s : Setting) : List Task → List Task → Type 0 where
  -- A request, whose new row takes an id that no row has.
  enqueues :
      (mark : Option CampaignMark) (id owner_id key : String) (source : Source) (kind : String)
      (payload : Json) (now : ℕ) (ts us : List Task) (t : Task)
      → All (λ u. str_eq id u.id ≡ false) ts
      → enqueue_task s.runtime s.conversions s.sha256 s.pilot mark id owner_id key source kind
          payload now ts
        ≡ ok (us, t)
      → Step s ts us
  claims :
      (slots : List Source) (token : String) (allowed : Option (List String)) (now : ℕ)
      (ts : List Task)
      → Step s ts (claim_selected_task s.gates s.id_before slots token allowed now ts).0
  beats :
      (id token : String) (now : ℕ) (c : Json) (ts : List Task)
      → Step s ts (heartbeat_task id token now c ts).0
  finishes :
      (id token : String) (now : ℕ) (o : Outcome) (c : Json) (e : Option String) (ts : List Task)
      → Step s ts (finish_task id token now o c e ts).0
  defers_source :
      (id token : String) (now : ℕ) (c : Json) (r : Option ℕ) (b : Bool) (ts : List Task)
      → Step s ts (defer_source_task id token now c r b ts).0
  defers_capacity :
      (id token : String) (now : ℕ) (c : Json) (reason : String) (ts : List Task)
      → Step s ts (defer_capacity_task s.merge id token now c reason ts).0
  defers_local :
      (id token : String) (now : ℕ) (c : Json) (reason : String) (ts : List Task)
      → Step s ts (defer_local_resource_task s.merge id token now c reason ts).0
  -- The executor stops the retries of the row that it claimed, whose attempt it remembers.
  stops :
      (id token : String) (attempt now : ℕ) (ts : List Task)
      → ((t : Task) → In t ts → leased id token now t ≡ true → t.attempt ≡ attempt)
      → Step s ts (stop_retries id (some token) attempt now ts)

pub data Reach (s : Setting) (ts : List Task) : List Task → Type 0 where
  here : Reach s ts ts
  next : {us vs : List Task} → Reach s ts us → Step s us vs → Reach s ts vs
