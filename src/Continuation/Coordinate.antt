-- ===== src/Continuation/Coordinate.antt =====
-- The coordinator that asks for the next step of each sync.
use universal_race_calendar.Common.{
  ℕ, ◌+◌, Bool, ◌&&◌, ◌||◌, not, if◌then◌else◌, ltb, leb, ◌==◌, String, Option, none, some, List,
  [], ◌∷◌, any, keep, find, take, map, Result, ok, err, ◌>>=◌,
}
use Prim.Native.String.{◌++◌ as concat}
use universal_race_calendar.Queue.Json.{Json, num, str, obj, end, field, text_at, stable_json}
use universal_race_calendar.Queue.Task.{Source, Task}
use universal_race_calendar.Queue.Enqueue.{CampaignMark, enqueue_task}
use universal_race_calendar.Queue.Steps.{Setting}
use universal_race_calendar.Continuation.{
  SyncStatus, is_ready, CatalogSync, Store, flag, put_in, is_text, is_step, is_completed,
  is_cancelled, live_step, running_step, is_sync, set_sync, sync_paused, sync_blocked, sync_limited,
}

-- `orderBy: [{ updatedAt: "desc" }, { id: "desc" }]`, and the first
module _ (id_before : String → String → Bool) where
  abbrev newer : Task → Task → Bool
  newer u t = ltb t.updated_at u.updated_at || (t.updated_at == u.updated_at && id_before t.id u.id)

  unfoldable pub newest : List Task → Option Task
  newest [] = none
  newest (t ∷ ts) = elim (newest ts) [ none ↦ some t | some u ↦ some (if newer u t then u else t) ]

abbrev keep_last : Option String → String → String
keep_last none fallback = fallback
keep_last (some code) fallback = code

abbrev close_sync : SyncStatus → String → ℕ → CatalogSync → CatalogSync
close_sync status coverage now sync = record sync {
  status = status;
  coverage = coverage;
  updated_at = now;
}

-- The ready syncs that continue by themselves or are to be paused, the oldest change first.
abbrev is_candidate : CatalogSync → Bool
is_candidate sync =
    is_ready sync.status && (flag "autoContinue" sync.options || flag "pauseRequested" sync.options)

unfoldable pub insert_sync : CatalogSync → List CatalogSync → List CatalogSync
insert_sync sync [] = sync ∷ []
insert_sync sync (s ∷ ss) =
    if leb sync.updated_at s.updated_at then sync ∷ s ∷ ss else s ∷ insert_sync sync ss

unfoldable pub oldest_first : List CatalogSync → List CatalogSync
unfolding insert_sync
oldest_first [] = []
oldest_first (s ∷ ss) = insert_sync s (oldest_first ss)

unfoldable pub candidates : ℕ → Store → List String
unfolding oldest_first
candidates limit store = map (λ s. s.id) (take limit (oldest_first (keep is_candidate store.syncs)))

-- What follows the transaction of a sync in the loop.
unfoldable pub after_sync :
    Store
    → Result String (Store × ℕ)
    → (Store → ℕ → Store × Result String ℕ)
    → Store × Result String ℕ
after_sync store (err code) others = (store, err code)
after_sync store (ok (next, more)) others = others next more

-- `marks` is what the database's guard reads of the campaign of a payload, `blocked` the gates of the
-- sources, and `new_id` the id that the database gives to the next row.
module _ (setting : Setting) (marks : Json → Option CampaignMark) (blocked : Source → Bool) where
  unfoldable pub catalog_checkpoint : CatalogSync → String
  catalog_checkpoint sync = setting.sha256 (
      stable_json setting.runtime (
        obj (
          field "page" (num sync.page)
            (field "cursor" (num sync.cursor) (field "snapshot" sync.snapshot end)))))

  -- A step of the sync is enqueued, with the given payload.
  unfoldable pub enqueue_step :
      String → String → String → CatalogSync → Json → ℕ → Store → Result String Store
  enqueue_step new_id owner_id key sync payload now store = do
    (tasks, task) ←
        enqueue_task setting.runtime setting.conversions setting.sha256 setting.pilot
          (marks payload) new_id owner_id key sync.source "catalog-sync" payload now store.tasks
    ok (record store { tasks = tasks })

  unfoldable pub step_payload : CatalogSync → Json → Json
  unfolding catalog_checkpoint put_in
  step_payload sync options =
      put_in "checkpointHash" (str (catalog_checkpoint sync))
        (put_in "syncId" (str sync.id) options)

  -- `checkpointHash` of the payload of the last step
  abbrev pub same_checkpoint : CatalogSync → Task → Bool
  same_checkpoint sync last =
      is_text (catalog_checkpoint sync) (text_at "checkpointHash" last.payload)

  unfoldable pub auto_key : CatalogSync → String
  auto_key sync =
      setting.sha256
        (concat "catalog-auto:" (concat sync.id (concat ":" (catalog_checkpoint sync))))

  -- What the coordinator does behind the tests of the sync, with its last step.
  unfoldable pub decide : String → CatalogSync → ℕ → Store → Option Task → Result String (Store × ℕ)
  unfolding enqueue_step step_payload
  decide new_id sync now store none = ok (store, 0)
  decide new_id sync now store (some last) =
      if last.execution_hold
      then ok (store, 0)
      else if not (is_completed last.status)
      then ok (
        record store {
          syncs =
              set_sync sync.id
                (close_sync (if is_cancelled last.status then sync_paused else sync_blocked)
                  (keep_last last.error_code "catalog_step_not_completed") now)
                store.syncs;
        },
        0,
      )
      else if same_checkpoint sync last
      then ok (
        record store {
          syncs =
              set_sync sync.id (close_sync sync_limited "catalog_checkpoint_not_advancing" now)
                store.syncs;
        },
        0,
      )
      else do
        next ←
            enqueue_step new_id sync.owner_id (auto_key sync) sync (step_payload sync sync.options)
              now store
        ok (next, 1)

  unfoldable pub coordinate_found :
      String → ℕ → Store → Option CatalogSync → Result String (Store × ℕ)
  unfolding decide
  coordinate_found new_id now store none = err "not_found"
  coordinate_found new_id now store (some sync) =
      if not (is_ready sync.status)
      then ok (store, 0)
      else if flag "pauseRequested" sync.options
      then ok (
        if any (running_step sync.id) store.tasks then store else record store {
          syncs =
              set_sync sync.id (λ s. record s { status = sync_paused; updated_at = now })
                store.syncs;
        },
        0,
      )
      else if not (flag "autoContinue" sync.options)
      then ok (store, 0)
      else if blocked sync.source
      then ok (store, 0)
      else if any (live_step sync.id) store.tasks
      then ok (store, 0)
      else decide new_id sync now store
          (newest setting.id_before (keep (is_step sync.id) store.tasks))

  -- The transaction of one sync.
  unfoldable pub coordinate_sync : String → String → ℕ → Store → Result String (Store × ℕ)
  unfolding coordinate_found
  coordinate_sync new_id id now store =
      coordinate_found new_id now store (find (is_sync id) store.syncs)

  -- The loop over the candidates: a failure ends it, and leaves what is committed.
  unfoldable pub coordinate_each :
      (String → String) → List String → ℕ → ℕ → Store → Store × Result String ℕ
  unfolding coordinate_sync after_sync
  coordinate_each new_id [] now enqueued store = (store, ok enqueued)
  coordinate_each new_id (id ∷ ids) now enqueued store =
      after_sync store (coordinate_sync (new_id id) id now store)
        (λ next more. coordinate_each new_id ids now (enqueued + more) next)

  unfoldable pub coordinate_catalog_syncs :
      (String → String) → ℕ → ℕ → Store → Store × Result String ℕ
  unfolding coordinate_each candidates
  coordinate_catalog_syncs new_id limit now store =
      coordinate_each new_id (candidates limit store) now 0 store
