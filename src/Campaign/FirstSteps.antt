-- ===== src/Campaign/FirstSteps.antt =====
-- The syncs of a new campaign and the first step of each.
use universal_race_calendar.Common.{
  ℕ, ◌≡◌, refl, sym, ◌∙◌, ap, subst, true, false, String, Option, none, some, ◌∷◌, find, ok,
  throw_if, ok-injective, >>=-eq-ok, >>-eq-ok,
}
use universal_race_calendar.Queue.Json.{Json, num, arr, nil, obj, field, end, stable_json, text_at}
use universal_race_calendar.Queue.Task.{Source, Task, ticketsports, corridasbr, openresults}
use universal_race_calendar.Queue.Enqueue.{CampaignMark, is_keyed, enqueue_task}
use universal_race_calendar.Queue.Steps.{Setting}
use universal_race_calendar.Continuation.{
  CatalogSync, is_ready, is_step, live_step, flag, put_in, put_field,
}
use universal_race_calendar.Continuation.Coordinate.{catalog_checkpoint}
use universal_race_calendar.Continuation.Pause.{str_eq_refl}
use universal_race_calendar.Continuation.Fresh.{
  IsRequest, enqueue_task_fresh, IsRequest-is_keyed_other,
}
use universal_race_calendar.Campaign.{CampaignRequest, Store, sources, source_text}
use universal_race_calendar.Campaign.Launch.{
  new_sync, first_payload, step_key, add_source, add_sources,
}

-- A sync at the beginning of the catalog of a source, which continues by itself.
pub record IsNewSync (owner_id : String) (source : Source) (sync : CatalogSync) : Type 0 where
  pub of_owner : sync.owner_id ≡ owner_id
  pub of_source :
      (sync.source ≡ source) × (text_at "source" sync.options ≡ some (source_text source))
  pub waits : is_ready sync.status ≡ true
  pub at_start : (sync.page ≡ 1) × (sync.cursor ≡ 0) × (sync.snapshot ≡ arr nil)
  pub continues : flag "autoContinue" sync.options ≡ true
  pub unpaused : flag "pauseRequested" sync.options ≡ false

module _ (setting : Setting) (marks : Json → Option CampaignMark) (trim : String → String) where
  -- The first step of a sync of a campaign.
  pub record IsFirstStep (id : String) (sync : CatalogSync) (u : Task) : Type 0 where
    pub live : live_step sync.id u ≡ true
    pub of_sync : (u.owner_id ≡ sync.owner_id) × (u.source ≡ sync.source)
    pub of_campaign : text_at "campaignId" u.payload ≡ some id
    pub of_place :
        text_at "checkpointHash" u.payload
        ≡ some (
            setting.sha256 (
              stable_json setting.runtime (
                obj (
                  field "page" (num 1) (field "cursor" (num 0) (field "snapshot" (arr nil) end))))))

  pub new_sync-IsNewSync :
      (id owner_id : String) (request : CampaignRequest) (now : ℕ) (source : Source)
      → IsNewSync owner_id source (new_sync setting marks trim id owner_id request now source)
  unfolding new_sync put_in put_field
  new_sync-IsNewSync id owner_id request now source = record {
    of_owner = refl;
    of_source = (refl, refl);
    waits = refl;
    at_start = (refl, refl, refl);
    continues = refl;
    unpaused = refl;
  }

  pub request-IsFirstStep :
      (id owner_id : String) (request : CampaignRequest) (now : ℕ) (source : Source) (u : Task)
      → IsRequest owner_id
          (step_key setting marks trim id source)
          source
          "catalog-sync"
          (first_payload setting marks trim id request
            (new_sync setting marks trim id owner_id request now source))
          u
      → IsFirstStep id (new_sync setting marks trim id owner_id request now source) u
  unfolding first_payload new_sync catalog_checkpoint is_step put_in put_field
  request-IsFirstStep id owner_id request now source u r =
      let sync = new_sync setting marks trim id owner_id request now source in
      record {
        live = rw (r.of_kind, r.waits, r.of_payload, str_eq_refl sync.id) refl;
        of_sync = (r.of_owner, r.of_source);
        of_campaign = rw r.of_payload refl;
        of_place = rw r.of_payload refl;
      }

  module _ (new_id : Source → String) (id owner_id : String) (request : CampaignRequest)
      (now : ℕ) where
    abbrev pub sync_of : Source → CatalogSync
    sync_of source = new_sync setting marks trim id owner_id request now source

    abbrev pub key_of : Source → String
    key_of source = step_key setting marks trim id source

    -- A round of the loop adds the sync and its first step, which has the key of the source.
    abbrev pub Adds : Source → Store → Store → Task → Type 0
    Adds source store next u =
        (next ≡ record store {
          syncs = sync_of source ∷ store.syncs;
          room = record store.room { tasks = u ∷ store.room.tasks };
        })
        × IsRequest owner_id (key_of source) source "catalog-sync"
            (first_payload setting marks trim id request (sync_of source)) u

    add_source-Adds :
        (source : Source) (store next : Store)
        → find (is_keyed owner_id (key_of source)) store.room.tasks ≡ none
        → add_source setting marks trim new_id id owner_id request now source store ≡ ok next
        → (u : Task) × Adds source store next u
    unfolding add_source
    add_source-Adds source store next fresh h =
        let payload = first_payload setting marks trim id request (sync_of source) in
        let (unused, h1) = >>-eq-ok (throw_if _ "unique_constraint") _ h in
        let ((tasks, task), e, q) =
          >>=-eq-ok
            (enqueue_task setting.runtime setting.conversions setting.sha256 setting.pilot
              (marks payload) (new_id source) owner_id (key_of source) source "catalog-sync" payload
              now store.room.tasks)
            _ h1 in
        let (rows, request) =
          enqueue_task_fresh setting (marks payload) (new_id source) owner_id (key_of source) source
            "catalog-sync" payload now store.room.tasks tasks task fresh e in
        (
          task,
          (
            sym (ok-injective q)
                ∙ ap
                    (λ ts. record store {
                      syncs = sync_of source ∷ store.syncs;
                      room = record store.room { tasks = ts };
                    })
                    rows,
            request,
          ),
        )

    -- The key of another source stays free.
    Adds-fresh :
        (source other : Source) (store next : Store) (u : Task)
        → Adds source store next u
        → (key_of source ≡ key_of other → ⊥)
        → find (is_keyed owner_id (key_of other)) store.room.tasks ≡ none
        → find (is_keyed owner_id (key_of other)) next.room.tasks ≡ none
    Adds-fresh source other store next u (same, request) apart fresh =
        let no =
          IsRequest-is_keyed_other owner_id (key_of source) (key_of other) source "catalog-sync" _ u
            request apart in
        subst (λ (s : Store). find (is_keyed owner_id (key_of other)) s.room.tasks ≡ none)
          (sym same) (rw (no, fresh) refl)

    pub add_sources-Adds :
        (store next : Store)
        → ((source : Source) → find (is_keyed owner_id (key_of source)) store.room.tasks ≡ none)
        → (key_of ticketsports ≡ key_of corridasbr → ⊥)
        → (key_of ticketsports ≡ key_of openresults → ⊥)
        → (key_of corridasbr ≡ key_of openresults → ⊥)
        → add_sources setting marks trim new_id id owner_id request now sources store ≡ ok next
        → (a : Store) × (b : Store) × (t : Task) × (u : Task) × (v : Task) × Adds ticketsports store
            a t
          × Adds corridasbr a b u
          × Adds openresults b next v
    unfolding add_sources
    add_sources-Adds store next fresh tc to co h =
        let (a, e, h1) =
          >>=-eq-ok
            (add_source setting marks trim new_id id owner_id request now ticketsports store) _ h in
        let (b, f, h2) =
          >>=-eq-ok (add_source setting marks trim new_id id owner_id request now corridasbr a) _
            h1 in
        let (c, g, h3) =
          >>=-eq-ok (add_source setting marks trim new_id id owner_id request now openresults b) _
            h2 in
        let (t, first) = add_source-Adds ticketsports store a (fresh ticketsports) e in
        let (u, second) =
          add_source-Adds corridasbr a b
            (Adds-fresh ticketsports corridasbr store a t first tc (fresh corridasbr)) f in
        let (v, third) =
          add_source-Adds openresults b c
            (Adds-fresh corridasbr openresults a b u second co
              (Adds-fresh ticketsports openresults store a t first to (fresh openresults)))
            g in
        let last = ok-injective h3 in
        (a, b, t, u, v, first, second, subst (λ n. Adds openresults b n v) last third)
