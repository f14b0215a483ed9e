-- ===== src/Continuation/NextStep.antt =====
-- The next step of a sync: the row that its request adds.
use Prim.Native.String.{◌++◌ as concat}
use universal_race_calendar.Common.{
  ℕ, ◌≡◌, refl, sym, ◌∙◌, ap, Bool, true, String, Option, none, some, ◌∷◌, find, ok, ok-injective,
  >>=-eq-ok,
}
use universal_race_calendar.Queue.Json.{Json, num, str, obj, field, end, stable_json, text_at}
use universal_race_calendar.Queue.Task.{Source, Task}
use universal_race_calendar.Queue.Enqueue.{CampaignMark, is_keyed, enqueue_task}
use universal_race_calendar.Queue.Steps.{Setting}
use universal_race_calendar.Continuation.Pause.{str_eq_refl}
use universal_race_calendar.Continuation.Rows.{text_at-put}
use universal_race_calendar.Continuation.Fresh.{IsRequest, enqueue_task_fresh}
use universal_race_calendar.Continuation.Linear.{step_payload-names}
use universal_race_calendar.Continuation.{CatalogSync, Store, is_step, live_step, put_in}
use universal_race_calendar.Continuation.Coordinate.{
  catalog_checkpoint, enqueue_step, step_payload, auto_key,
}

module _ (setting : Setting) (marks : Json → Option CampaignMark) (blocked : Source → Bool) where
  -- The step that a sync waits for next: it is the sync's, for its owner and its source, and tells
  -- the sync's page, cursor and snapshot by their digest, in its payload and in its key.
  pub record IsNextStep (sync : CatalogSync) (u : Task) : Type 0 where
    pub live : live_step sync.id u ≡ true
    pub of_sync : (u.owner_id ≡ sync.owner_id) × (u.source ≡ sync.source)
    pub place : String
    pub place_digest :
        place
        ≡ setting.sha256 (
            stable_json setting.runtime (
              obj (
                field "page"
                  (num sync.page)
                  (field "cursor" (num sync.cursor) (field "snapshot" sync.snapshot end)))))
    pub of_place : text_at "checkpointHash" u.payload ≡ some place
    pub of_key :
        u.idempotency_key
        ≡ setting.sha256 (concat "catalog-auto:" (concat sync.id (concat ":" place)))

  abbrev pub Asks : String → ℕ → Store → Store → CatalogSync → Type 0
  Asks new_id now store next sync =
      enqueue_step setting marks blocked new_id sync.owner_id (auto_key setting marks blocked sync)
        sync (step_payload setting marks blocked sync sync.options) now store
      ≡ ok next

  pub enqueue_step_fresh :
      (new_id : String) (now : ℕ) (store next : Store) (sync : CatalogSync)
      → find (is_keyed sync.owner_id (auto_key setting marks blocked sync)) store.tasks ≡ none
      → Asks new_id now store next sync
      → (u : Task) × (next ≡ record store { tasks = u ∷ store.tasks })
        × IsRequest sync.owner_id
            (auto_key setting marks blocked sync)
            sync.source
            "catalog-sync"
            (step_payload setting marks blocked sync sync.options)
            u
  unfolding enqueue_step
  enqueue_step_fresh new_id now store next sync fresh h =
      let payload = step_payload setting marks blocked sync sync.options in
      let key = auto_key setting marks blocked sync in
      let ((tasks, task), e, q) =
        >>=-eq-ok
          (enqueue_task setting.runtime setting.conversions setting.sha256 setting.pilot
            (marks payload) new_id sync.owner_id key sync.source "catalog-sync" payload now
            store.tasks)
          _ h in
      let (rows, request) =
        enqueue_task_fresh setting (marks payload) new_id sync.owner_id key sync.source
          "catalog-sync" payload now store.tasks tasks task fresh e in
      (task, sym (ok-injective q) ∙ ap (λ ts. record store { tasks = ts }) rows, request)

  pub step_payload-place :
      (sync : CatalogSync)
      → text_at "checkpointHash" (step_payload setting marks blocked sync sync.options)
        ≡ some (catalog_checkpoint setting marks blocked sync)
  unfolding step_payload
  step_payload-place sync =
      text_at-put "checkpointHash" "checkpointHash" (catalog_checkpoint setting marks blocked sync)
        (put_in "syncId" (str sync.id) sync.options)

  pub request-IsNextStep :
      (sync : CatalogSync) (u : Task)
      → IsRequest sync.owner_id
          (auto_key setting marks blocked sync)
          sync.source
          "catalog-sync"
          (step_payload setting marks blocked sync sync.options)
          u
      → IsNextStep sync u
  unfolding auto_key is_step catalog_checkpoint
  request-IsNextStep sync u request =
      let named = step_payload-names setting marks blocked sync sync.options in
      let place = step_payload-place sync in
      record {
        live =
            rw (request.of_kind, request.waits, request.of_payload, named, str_eq_refl sync.id)
              refl;
        of_sync = (request.of_owner, request.of_source);
        place = catalog_checkpoint setting marks blocked sync;
        place_digest = refl;
        of_place = rw request.of_payload place;
        of_key = request.of_key;
      }
