-- ===== src/Queue/Claim.antt =====
-- `claimTask`, and `claim_selected_task` of the migrations: expired leases are taken back, then the
-- first eligible task in the order of priority, age and id is leased.
use universal_race_calendar.Common.{
  ℕ, zero, suc, ◌+◌, Result, ok, err, ◌>>=◌, text_length, Bool, true, false, ◌&&◌, ◌||◌, not, ltb,
  leb, ◌==◌, if◌then◌else◌, String, str_eq, Option, none, some, List, [], ◌∷◌, any, keep, includes,
}
use universal_race_calendar.Queue.Json.{Json, str, arr, Items, nil, cons}
use universal_race_calendar.Queue.Task.{
  Source, same_source, is_shared, queued, running, failed, is_queued, is_running, Task, lease_ms,
  update_where,
}

-- The file of `WORKER_TASK_SELECTION_FILE`: not set, not readable as JSON, or its value.
pub data Selection : Type 0 where
  not_set : Selection
  unreadable : Selection
  selection : Json → Selection

-- The ids of a list of at most `room` non-empty texts of at most 100 units.
selected_items : ℕ → Items → Result String (List String)
selected_items room nil = ok []
selected_items zero (cons x xs) = err "task_selection_invalid"
selected_items (suc room) (cons (str id) xs) =
    let rest = selected_items room xs in
    if str_eq id "" || ltb 100 (text_length id)
    then err "task_selection_invalid"
    else (rest >>= λ ids. ok (id ∷ ids))
selected_items (suc room) (cons _ xs) = err "task_selection_invalid"

unfoldable pub selected_task_ids : Selection → Result String (Option (List String))
unfolding selected_items
selected_task_ids not_set = ok none
selected_task_ids unreadable = err "task_selection_invalid"
selected_task_ids (selection (arr xs)) = selected_items 100 xs >>= λ ids. ok (some ids)
selected_task_ids (selection _) = err "task_selection_invalid"

abbrev is_before : Option ℕ → ℕ → Bool
is_before none now = false
is_before (some until) now = ltb until now

-- `allowed_ids IS NULL OR id=ANY(allowed_ids)`
abbrev is_allowed : Option (List String) → String → Bool
is_allowed none id = true
is_allowed (some ids) id = includes ids id

abbrev has_source : List Source → Source → Bool
has_source sources s = any (same_source s) sources

-- The expired leases of the locked slots.
unfoldable pub lapsed : List Source → Option (List String) → ℕ → Task → Bool
lapsed slots allowed now t =
    has_source slots t.source
    && (is_running t.status
        && (is_before t.lease_until now && (not t.execution_hold && is_allowed allowed t.id)))

unfoldable pub take_back : ℕ → Task → Task
take_back now t =
    let exhausted = leb t.max_attempts t.attempt in
    record t {
      status = if exhausted then failed else queued;
      error_code = some "lease_expired";
      lease_token = none;
      lease_until = none;
      updated_at = now;
      finished_at = if exhausted then some now else none;
    }

-- `task_queue_priority`: smaller goes first, and a quarter of an hour makes any task urgent.
unfoldable pub task_queue_priority : String → ℕ → ℕ → ℕ
task_queue_priority kind created_at now =
    if leb (created_at + 900000) now
    then 0
    else if includes ("export" ∷ "export-selection" ∷ []) kind
    then 0
    else if includes
        ("catalog-sync" ∷ "catalog-reconcile" ∷ "catalog" ∷ "catalog-process" ∷ "curate-batch" ∷ [])
        kind
    then 2
    else 1

-- One live task for each source, and one in all for the sources of the TypeScript executor.
unfoldable pub conflicts : Task → Task → Bool
conflicts t active =
    is_running active.status
    && (same_source active.source t.source || (is_shared t.source && is_shared active.source))

-- What acquisition reads of other tables: the sources whose request gate is blocked, and the tasks
-- of a paused or cancelled campaign.
pub record Gates : Type 0 where
  pub source_blocked : Source → Bool
  pub campaign_blocked : Task → Bool

unfoldable pub lease : ℕ → String → Task → Task
lease now token t = record t {
  status = running;
  attempt = t.attempt + 1;
  lease_token = some token;
  lease_until = some (now + lease_ms);
  updated_at = now;
}

-- The `ORDER BY`, on the instant of the call; ids are compared by the database's text order.
module _ (id_before : String → String → Bool) where
  unfoldable pub goes_before : ℕ → Task → Task → Bool
  goes_before now a b =
      let p = task_queue_priority a.kind a.created_at now in
      let q = task_queue_priority b.kind b.created_at now in
      ltb p q
      || (p == q
          && (ltb a.created_at b.created_at
              || (a.created_at == b.created_at && id_before a.id b.id)))

  -- `LIMIT 1` of the sorted rows
  unfoldable pub first_of_rows : ℕ → List Task → Option Task
  first_of_rows now [] = none
  first_of_rows now (t ∷ ts) = elim (first_of_rows now ts) [
    | none ↦ some t
    | some u ↦ some (if goes_before now u t then u else t)
  ]

module _ (gates : Gates) where
  unfoldable pub eligible : List Source → Option (List String) → ℕ → List Task → Task → Bool
  eligible slots allowed now ts t =
      has_source slots t.source
      && (is_queued t.status
          && (leb t.available_at now
              && (not t.execution_hold
                  && (is_allowed allowed t.id
                      && (not (gates.campaign_blocked t)
                          && (not (gates.source_blocked t.source)
                              && not (any (conflicts t) ts)))))))

unfoldable pub recover : List Source → Option (List String) → ℕ → List Task → List Task
recover slots allowed now ts = (update_where (lapsed slots allowed now) (take_back now) ts).0

module _ (gates : Gates) (id_before : String → String → Bool) where
  -- What stands behind the choice of a row: none, or its lease.
  unfoldable pub lease_row : String → ℕ → List Task → Option Task → List Task × Option Task
  lease_row token now ts none = (ts, none)
  lease_row token now ts (some t) =
      ((update_where (λ u. str_eq u.id t.id) (lease now token) ts).0, some (lease now token t))

  -- The locked slots are those of `wanted` that no other transaction holds.
  unfoldable pub claim_selected_task :
      List Source → String → Option (List String) → ℕ → List Task → List Task × Option Task
  claim_selected_task slots token allowed now ts =
      let recovered = recover slots allowed now ts in
      lease_row token now recovered
        (first_of_rows id_before now (keep (eligible gates slots allowed now recovered) recovered))

  -- The task of a round of the executor, at most one.
  unfoldable pub claim_task :
      List Source → String → Selection → ℕ → List Task → Result String (List Task × Option Task)
  claim_task slots token chosen now ts = do
    allowed ← selected_task_ids chosen
    ok (claim_selected_task slots token allowed now ts)
