-- ===== src/Worker/Loop.antt =====
-- The loop of `runQueue` in apps/worker/src/queue.ts with `BatchRun.canClaim`. What the world shows in
-- a round of the loop is an argument, and what the loop does is a list of actions, the latest first.
use universal_race_calendar.Common.{
  ℕ, ◌+◌, ◌*◌, Bool, true, false, ◌&&◌, not, if◌then◌else◌, leb, ltb, Option, none, some, List, [],
  ◌∷◌, length, String,
}
use universal_race_calendar.Worker.{Options, LocalResourceReason, worker_idle_delay}

pub data Reason : Type 0 where
  stopped task_limit duration_limit local_resource_wait queue_empty : Reason

pub data Action : Type 0 where
  announced : Action
  -- campaigns and the weekly catalog
  coordinated_plans : Action
  -- catalog syncs and reconciliations
  coordinated_syncs : Action
  slept : ℕ → Action
  ran : ℕ → Action

-- What a round sees: a request to stop, the time since the start, one reading of the clock, the
-- resources, the
-- task that the queue gives, and the status in which the task ends.
pub record Round : Type 0 where
  pub should_stop : Bool
  pub elapsed : ℕ
  pub now : ℕ
  pub resources : Option LocalResourceReason
  pub task : Option ℕ
  pub ends_as : String

pub record Run : Type 0 where
  pub claimed : ℕ
  pub tasks : List (ℕ × String)
  pub reason : Reason
  pub resources_waiting : Bool
  pub coordinated_at : ℕ
  pub empty_polls : ℕ
  pub actions : List Action

abbrev pub start : Run
start = record {
  claimed = 0;
  tasks = [];
  reason = stopped;
  resources_waiting = false;
  coordinated_at = 0;
  empty_polls = 0;
  actions = [];
}

-- `canClaim`: why not, if not
unfoldable pub claim_refusal : Options → Round → Run → Option Reason
claim_refusal options round run =
    if not options.batch
    then none
    else if leb options.max_tasks run.claimed
    then some task_limit
    else if leb (options.max_seconds * 1000) round.elapsed
    then some duration_limit
    else none

abbrev does : Action → Run → Run
does action run = record run { actions = action ∷ run.actions }

abbrev pub without_last {ℓ} : {A : Type ℓ} → List A → List A
without_last [] = []
without_last (a ∷ []) = []
without_last (a ∷ b ∷ as') = a ∷ without_last (b ∷ as')

-- The last hundred tasks, the latest first: `push` and `shift`.
unfoldable pub remember : ℕ × String → List (ℕ × String) → List (ℕ × String)
remember task tasks =
    let all = task ∷ tasks in if ltb 100 (length all) then without_last all else all

-- The announcement that resources are back.
abbrev pub resume_resources : Run → Run
resume_resources run =
    if run.resources_waiting then does announced (record run { resources_waiting = false }) else run

-- `selective` is a run over an approved list of tasks.
abbrev pub coordinate : Options → Bool → Round → Run → Run
coordinate options selective round run =
    if not selective && leb (run.coordinated_at + 5000) round.now
    then does coordinated_syncs
        (record (if options.batch then run else does coordinated_plans run) {
          coordinated_at = round.now;
        })
    else run

-- `announce` before the task, and after it.
abbrev run_task : Round → ℕ → Run → Run
run_task round id run = record run {
  empty_polls = 0;
  claimed = run.claimed + 1;
  tasks = remember (id, round.ends_as) run.tasks;
  actions = announced ∷ ran id ∷ announced ∷ run.actions;
}

-- A round ends the loop or goes on.
pub data Next : Type 0 where
  ends : Run → Next
  goes_on : Run → Next

unfoldable pub wait_resources : Options → Run → Next
wait_resources options run =
    let waiting = does announced (record run { resources_waiting = true }) in
    if options.batch
    then ends (record waiting { reason = local_resource_wait })
    else goes_on (does (slept 5000) waiting)

unfoldable pub poll : Options → Round → Option ℕ → Run → Next
poll options round (some id) run = goes_on (run_task round id run)
poll options round none run =
    if options.batch
    then ends (record run { reason = queue_empty })
    else goes_on (
        does (slept (worker_idle_delay run.empty_polls))
          (record run { empty_polls = run.empty_polls + 1 }))

-- The body of the loop, once the tests of its head have passed.
unfoldable pub round_body : Options → Bool → Round → Option LocalResourceReason → Run → Next
unfolding wait_resources poll
round_body options selective round (some reason) run = wait_resources options run
round_body options selective round none run =
    poll options round round.task (coordinate options selective round (resume_resources run))

unfoldable pub guarded : Options → Bool → Round → Option Reason → Run → Next
unfolding round_body
guarded options selective round (some reason) run = ends (record run { reason = reason })
guarded options selective round none run = round_body options selective round round.resources run

unfoldable pub run_round : Options → Bool → Round → Run → Next
unfolding guarded claim_refusal
run_round options selective round run =
    if round.should_stop
    then ends run
    else guarded options selective round (claim_refusal options round run) run

-- The loop over the rounds of a world, and whether it has ended by itself.
unfoldable pub run_queue : Options → Bool → List Round → Run → Run × Bool
unfolding run_round
run_queue options selective [] run = (run, false)
run_queue options selective (round ∷ rounds) run = elim (run_round options selective round run) [
  | ends last ↦ (last, true)
  | goes_on next ↦ run_queue options selective rounds next
]
