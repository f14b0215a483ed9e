-- ===== src/Queue/Tests.antt =====
-- A small queue, the operations on it, and the theorems there.
use universal_race_calendar.Common.{
  ◌≡◌, refl, inl, true, false, String, eq_iff, none, some, List, [], ◌∷◌, ok, arith, text_length,
}
use universal_race_calendar.Queue.Json.{
  Json, null, str, obj, end, field, IsCollation, arr, cons, nil, in_object, in_array, fields, swaps,
  ends, conses, nils, same, stable_json, stable_json-Reordered,
}
use universal_race_calendar.Pilot.{assert_pilot_task}
use universal_race_calendar.Queue.Task.{
  Task, ticketsports, corridasbr, maintenance, running, Source, leased, finish_task, heartbeat_task,
  defer_source_task, defer_capacity_task, defer_local_resource_task, completes, fails, finish,
  backoff_ms,
}
use universal_race_calendar.Queue.Claim.{
  claim_selected_task, lapsed, take_back, recover, eligible, lease, lease_row, first_of_rows,
  goes_before, task_queue_priority, conflicts,
}
use universal_race_calendar.Queue.Choice.{IsClaim, claim_selected_task-IsClaim}
use universal_race_calendar.Queue.Steps.{here, next, claims}
use universal_race_calendar.Queue.Sample.{
  by_length, plain, open_gates, id_order, setting, leaf_text,
}
use universal_race_calendar.Queue.Invariant.{IsSound, Reach-IsSound}
use universal_race_calendar.Queue.Fencing.{
  stale_executor, claimed_executor, finish_lem, IsFinished, Follows,
}
use universal_race_calendar.Queue.Enqueue.{
  new_row, enqueue_task, upsert, settle, is_keyed, guard_campaign_task, request_hash,
  enqueue_task_idempotent,
}

by_length-IsCollation : IsCollation by_length
by_length-IsCollation = record { asym = λ a b h. ground arith; trans = λ a b c g h. ground arith }

-- One object in a list within another, its keys in either order.
abbrev nested : Json → Json
nested j = obj (field "states" (arr (cons j nil)) (field "id" (str "z") end))

stable_json-Reordered_example :
    stable_json by_length (nested (obj (field "a" (str "x") (field "bc" (str "y") end))))
    ≡ stable_json by_length (nested (obj (field "bc" (str "y") (field "a" (str "x") end))))
unfolding text_length
stable_json-Reordered_example =
    stable_json-Reordered by_length by_length-IsCollation (
      in_object (fields (in_array (conses (in_object (swaps (inl refl))) nils)) (fields same ends)))

-- A fresh inspection of one source, and a row of another whose executor has vanished.
abbrev inspection : Task
inspection = new_row "t1" "admin" "k1" ticketsports "inspect" (obj end) "h1" 1000

abbrev abandoned : Task
abandoned = record (new_row "t2" "admin" "k2" corridasbr "calendar" (obj end) "h2" 500) {
  status = running;
  attempt = 1;
  lease_token = some "old";
  lease_until = some 5000;
}

abbrev rows : List Task
rows = inspection ∷ abandoned ∷ []

abbrev slots : List Source
slots = ticketsports ∷ corridasbr ∷ maintenance ∷ []

program : Unit {0}
unfolding claim_selected_task recover lapsed take_back eligible conflicts lease lease_row
    first_of_rows goes_before task_queue_priority text_length leased finish_task finish backoff_ms
    heartbeat_task enqueue_task assert_pilot_task upsert settle is_keyed guard_campaign_task
    request_hash stable_json leaf_text
program = tt

-- Both are equally urgent; the older one is leased again, under the new token.
abbrev second_lease : Task
second_lease = record abandoned {
  attempt = 2;
  lease_token = some "new";
  lease_until = some 96000;
  error_code = some "lease_expired";
  updated_at = 6000;
}

claimed : (claim_selected_task open_gates id_order slots "new" none 6000 rows).1 ≡ some second_lease
unfolding program
claimed = refl

claim_selected_task-IsClaim_example : IsClaim open_gates slots "new" none 6000 rows second_lease
claim_selected_task-IsClaim_example =
    claim_selected_task-IsClaim open_gates id_order slots "new" none 6000 rows second_lease claimed

rows-IsSound : IsSound rows
unfolding conflicts
rows-IsSound = record {
  clear = ((record { other_id = refl; other_slot = λ h. refl_conflict h }, tt), (tt, tt));
  fair = (ground arith, (ground arith, tt));
}
  where
    refl_conflict : false ≡ true → conflicts inspection abandoned ≡ false
    refl_conflict h = cc

Reach-IsSound_example :
    IsSound (claim_selected_task open_gates id_order slots "new" none 6000 rows).0
Reach-IsSound_example =
    Reach-IsSound setting (next here (claims slots "new" none 6000 rows)) rows-IsSound

abbrev after_claim : List Task
after_claim = (claim_selected_task open_gates id_order slots "new" none 6000 rows).0

stale_executor_example :
    (finish_task "t2" "old" 7000 completes null none after_claim ≡ (after_claim, false))
    × (heartbeat_task "t2" "old" 7000 null after_claim ≡ (after_claim, false))
    × (defer_source_task "t2" "old" 7000 null none true after_claim ≡ (after_claim, false))
    × (defer_capacity_task (λ a b. b) "t2" "old" 7000 null "capacity_database_limit" after_claim
        ≡ (after_claim, false))
    × (defer_local_resource_task
          (λ a b. b)
          "t2"
          "old"
          7000
          null
          "capacity_database_limit"
          after_claim
        ≡ (after_claim, false))
unfolding program
stale_executor_example =
    stale_executor open_gates id_order slots "t2" "old" "new" none 6000 rows
      (λ e. ground (arith, eq_iff "old" "new")) ((λ h. cc), ((λ h. refl), tt)) (λ a b. b) 7000
      completes null none none true "capacity_database_limit"

claimed_executor_example :
    ((finish_task "t2" "new" 7000 completes null none after_claim).1 ≡ true)
    × ((heartbeat_task "t2" "new" 7000 null after_claim).1 ≡ true)
claimed_executor_example =
    claimed_executor open_gates id_order slots "new" none 6000 rows second_lease claimed 7000
      completes null none (omega arith)

finish_lem_example :
    IsFinished null none second_lease (finish 7000 fails null none second_lease)
    × Follows 7000 fails second_lease (finish 7000 fails null none second_lease)
finish_lem_example = finish_lem 7000 fails null none second_lease

hash_of : Json → String
unfolding request_hash stable_json
hash_of j = request_hash by_length plain (λ s. s) none maintenance "export" j

abbrev request : Task
request = new_row "t3" "admin" "k3" maintenance "export" (obj end) (hash_of (obj end)) 6000

queued_once :
    enqueue_task by_length plain
      (λ s. s)
      none
      none
      "t3"
      "admin"
      "k3"
      maintenance
      "export"
      (obj end)
      6000
      rows
    ≡ ok (request ∷ rows, request)
unfolding program hash_of
queued_once = refl

enqueue_task_idempotent_example :
    enqueue_task by_length plain
      (λ s. s)
      none
      none
      "t9"
      "admin"
      "k3"
      maintenance
      "export"
      (obj end)
      9000
      (request ∷ rows)
    ≡ ok (request ∷ rows, request)
enqueue_task_idempotent_example =
    enqueue_task_idempotent by_length plain (λ s. s) none none none "t3" "t9" "admin" "k3"
      maintenance "export" (obj end) 6000 9000 rows (request ∷ rows) request queued_once
