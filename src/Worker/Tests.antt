-- ===== src/Worker/Tests.antt =====
-- A batch of two tasks.
use universal_race_calendar.Common.{
  ℕ, ◌≡◌, refl, ◌↔◌, ◌≤◌, Bool, true, false, Option, none, some, List, [], ◌∷◌, codes, ok, err,
  arith,
}
use universal_race_calendar.Worker.{
  Options, Limits, bytes, missing, assess_local_resources, worker_idle_delay, worker_options,
  local_memory_limit, local_resource_measurement_unavailable, invalid_worker_limits,
}
use universal_race_calendar.Worker.Errors.{
  error, scraper_error, task_error, IsStorable, task_error-IsStorable,
}
use universal_race_calendar.Worker.Loop.{
  Round, start, run_queue, announced, coordinated_syncs, ran, task_limit, queue_empty,
}
use universal_race_calendar.Worker.Bounds.{
  IsTidy, run_queue-IsTidy, run_queue-Within, run_queue_ends,
}
use universal_race_calendar.Worker.Resources.{Suffices, assess_local_resources-none_iff}

two_tasks :
    worker_options (some (codes "batch")) (some (codes "2")) none
    ≡ ok (record { batch = true; max_tasks = 2; max_seconds = 600 })
unfolding worker_options
two_tasks = refl

too_long : worker_options none none (some (codes "3601")) ≡ err invalid_worker_limits
unfolding worker_options
too_long = refl

fifth_wait : worker_idle_delay 5 ≡ 15000
unfolding worker_idle_delay
fifth_wait = refl

abbrev options : Options
options = record { batch = true; max_tasks = 2; max_seconds = 600 }

abbrev round : Bool → Option ℕ → Round
round stop task = record {
  should_stop = stop;
  elapsed = 20;
  now = 6000;
  resources = none;
  task = task;
  ends_as = "completed";
}

abbrev world : List Round
world = round false (some 7) ∷ round false (some 8) ∷ round false (some 9) ∷ []

limited :
    (run_queue options false world start).0.actions
    ≡ announced ∷ ran 8 ∷ announced ∷ announced ∷ ran 7 ∷ announced ∷ coordinated_syncs ∷ []
unfolding run_queue
limited = refl

limit_reason : (run_queue options false world start).0.reason ≡ task_limit
unfolding run_queue
limit_reason = refl

empty_reason : (run_queue options false (round false none ∷ []) start).0.reason ≡ queue_empty
unfolding run_queue
empty_reason = refl

start-IsTidy : IsTidy start
start-IsTidy = record { counted = refl; remembered = omega arith }

run_queue-IsTidy_example : IsTidy (run_queue options false world start).0
run_queue-IsTidy_example = run_queue-IsTidy options false world start start-IsTidy

run_queue-Within_example : (run_queue options false world start).0.claimed ≤ 2
run_queue-Within_example = run_queue-Within options refl false world start (omega arith)

run_queue_ends_example : (run_queue options false world start).1 ≡ true
run_queue_ends_example = run_queue_ends options refl false world start (omega arith) (omega arith)

abbrev limits : Limits
limits = record {
  min_memory_bytes = 536870912;
  min_temp_bytes = 1073741824;
  max_rss_bytes = 1073741824;
}

unmeasured :
    assess_local_resources missing (bytes 2000000000) (bytes 300000000) limits
    ≡ some local_resource_measurement_unavailable
unfolding assess_local_resources
unmeasured = refl

grown :
    assess_local_resources (bytes 900000000) (bytes 2000000000) (bytes 1073741824) limits
    ≡ some local_memory_limit
unfolding assess_local_resources
grown = refl

assess_local_resources-none_iff_example :
    (assess_local_resources (bytes 900000000) (bytes 2000000000) (bytes 300000000) limits ≡ none)
    ↔ Suffices (bytes 900000000) (bytes 2000000000) (bytes 300000000) limits
assess_local_resources-none_iff_example =
    assess_local_resources-none_iff (bytes 900000000) (bytes 2000000000) (bytes 300000000) limits

refused_source :
    task_error (scraper_error "HTTP 429 https://example.org/?token=1" (some 429))
    ≡ record { code = "source_access_blocked"; retryable = false }
unfolding task_error
refused_source = refl

unknown_error :
    task_error (error "connect ECONNREFUSED")
    ≡ record { code = "collection_failed"; retryable = true }
unfolding task_error
unknown_error = refl

task_error-IsStorable_example : IsStorable (task_error (error "edition_date_mismatch"))
task_error-IsStorable_example = task_error-IsStorable (error "edition_date_mismatch")
