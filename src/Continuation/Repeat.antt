-- ===== src/Continuation/Repeat.antt =====
-- A control of a sync that is sent again under its key changes nothing and answers the same.
use universal_race_calendar.Common.{
  ℕ, ◌≡◌, refl, sym, ap, subst, inl, inr, Bool, true, false, String, Option, none, some, any, find,
  ok, ok-injective, >>=-eq-ok, Bool-cases,
}
use universal_race_calendar.Queue.Json.{Json, bool}
use universal_race_calendar.Queue.Task.{Source}
use universal_race_calendar.Queue.Enqueue.{CampaignMark, enqueue_task}
use universal_race_calendar.Queue.Steps.{Setting}
use universal_race_calendar.Continuation.{
  CatalogSync, Store, ControlAction, pause, resume, same_control, live_step, is_sync, flag, put_in,
}
use universal_race_calendar.Continuation.Coordinate.{enqueue_step, step_payload}
use universal_race_calendar.Continuation.Control.{
  release_steps, conclude, perform, check_open, is_control, answer, control_found,
  control_catalog_sync,
}
use universal_race_calendar.Continuation.Pause.{str_eq_refl, find-set_sync, control-performs}

-- A control has done nothing, or ended with the update of the sync and the audit.
pub data Concludes (sync : CatalogSync) (actor_id : String) (action : ControlAction) (key : String)
    (now : ℕ) (store next : Store) (shown : CatalogSync) : Type 0 where
  idle :
      action ≡ pause
      → flag "pauseRequested" sync.options ≡ true
      → next ≡ store
      → shown ≡ sync
      → Concludes sync actor_id action key now store next shown
  updates :
      (mid : Store)
      → mid.syncs ≡ store.syncs
      → conclude sync actor_id key action now mid ≡ (next, shown)
      → Concludes sync actor_id action key now store next shown

module _ (setting : Setting) (marks : Json → Option CampaignMark) (blocked : Source → Bool) where
  enqueue_step-syncs :
      (new_id owner_id key : String) (sync : CatalogSync) (payload : Json) (now : ℕ)
      (store next : Store)
      → enqueue_step setting marks blocked new_id owner_id key sync payload now store ≡ ok next
      → next.syncs ≡ store.syncs
  unfolding enqueue_step
  enqueue_step-syncs new_id owner_id key sync payload now store next h =
      let ((tasks, task), e, q) =
        >>=-eq-ok
          (enqueue_task setting.runtime setting.conversions setting.sha256 setting.pilot
            (marks payload) new_id owner_id key sync.source "catalog-sync" payload now store.tasks)
          _ h in
      sym (ap (λ (s : Store). s.syncs) (ok-injective q))

  perform-Concludes :
      (new_id : String) (sync : CatalogSync) (actor_id : String) (action : ControlAction)
      (key : String) (now : ℕ) (store next : Store) (shown : CatalogSync)
      → perform setting marks blocked new_id sync actor_id action key now store ≡ ok (next, shown)
      → Concludes sync actor_id action key now store next shown
  unfolding perform
  perform-Concludes new_id sync actor_id pause key now store next shown h =
      elim (Bool-cases (flag "pauseRequested" sync.options)) [
        | inl y ↦
            let q = ok-injective (rw y at h) in
            idle refl y (sym (ap (λ x. x.0) q)) (sym (ap (λ x. x.1) q))
        | inr f ↦ updates _ refl (ok-injective (rw f at h))
      ]
  perform-Concludes new_id sync actor_id resume key now store next shown h =
      let free : Store = record store { tasks = release_steps sync.id now store.tasks } in
      elim (Bool-cases (any (live_step sync.id) free.tasks)) [
        | inl y ↦ updates free refl (ok-injective (rw y at h))
        | inr f ↦
            let payload =
              step_payload setting marks blocked sync
                (put_in "pauseRequested" (bool false) sync.options) in
            let (mid, a, q) =
              >>=-eq-ok
                (enqueue_step setting marks blocked new_id actor_id key sync payload now free) _
                (rw f at h) in
            updates mid (enqueue_step-syncs new_id actor_id key sync payload now free mid a)
              (ok-injective q)
      ]

  same_control_refl : (a : ControlAction) → same_control a a ≡ true
  same_control_refl pause = refl
  same_control_refl resume = refl

  -- The end of a control leaves the row it shows, and its audit first.
  conclude-found :
      (sync : CatalogSync) (actor_id key : String) (action : ControlAction) (now : ℕ) (mid : Store)
      → find (is_sync sync.id) mid.syncs ≡ some sync
      → let done = conclude sync actor_id key action now mid in
        (find (is_sync sync.id) done.0.syncs ≡ some done.1)
        × (find (is_control actor_id key) done.0.audits
            ≡ some (record { actor_id = actor_id; key = key; action = action; sync_id = sync.id }))
        × (done.1.id ≡ sync.id)
  unfolding conclude
  conclude-found sync actor_id key action now mid found =
      let actor = str_eq_refl actor_id in
      let own = str_eq_refl key in
      (find-set_sync sync.id _ mid.syncs sync refl found, rw (actor, own) refl, refl)

  repeated :
      (new_id actor_id key : String) (action : ControlAction) (now later : ℕ) (store next : Store)
      (sync shown : CatalogSync)
      → find (is_sync sync.id) store.syncs ≡ some sync
      → check_open sync ≡ ok tt
      → find (is_control actor_id key) store.audits ≡ none
      → Concludes sync actor_id action key now store next shown
      → control_catalog_sync setting marks blocked new_id sync.id actor_id action key later next
        ≡ ok (next, shown)
  unfolding control_catalog_sync control_found answer perform
  repeated new_id actor_id key action now later store next sync shown found unclosed fresh
        (idle a flagged e s) =
      rw (a, e, s, found, fresh, unclosed, flagged) refl
  repeated new_id actor_id key action now later store next sync shown found unclosed fresh
        (updates mid rows e) =
      let (row, entry, same) = conclude-found sync actor_id key action now mid (rw rows found) in
      let row' : find (is_sync sync.id) next.syncs ≡ some shown =
        subst (λ (x : Store × CatalogSync). find (is_sync sync.id) x.0.syncs ≡ some x.1) e row in
      let entry' : find (is_control actor_id key) next.audits
          ≡ some (record { actor_id = actor_id; key = key; action = action; sync_id = sync.id }) =
        subst
          (λ (x : Store × CatalogSync).
            find (is_control actor_id key) x.0.audits
            ≡ some (record { actor_id = actor_id; key = key; action = action; sync_id = sync.id }))
          e entry in
      let named = same_control_refl action in
      let own = str_eq_refl sync.id in
      let shown_id : shown.id ≡ sync.id =
        subst (λ (x : Store × CatalogSync). x.1.id ≡ sync.id) e same in
      rw (row', entry', named, shown_id, own) refl

  -- A control that succeeds under a new key answers its repetition by the same actor, action, sync and
  -- key, at any later time and with any new id, with the sync that it showed, and changes nothing then.
  control_catalog_sync_idempotent :
      (new_id new_id' id actor_id key : String) (action : ControlAction) (now later : ℕ)
      (store next : Store) (shown : CatalogSync)
      → find (is_control actor_id key) store.audits ≡ none
      → control_catalog_sync setting marks blocked new_id id actor_id action key now store
        ≡ ok (next, shown)
      → control_catalog_sync setting marks blocked new_id' id actor_id action key later next
        ≡ ok (next, shown)
  control_catalog_sync_idempotent new_id new_id' id actor_id key action now later store next shown
        fresh h =
      let (sync, found, named, unclosed, p) =
        control-performs setting marks blocked new_id id actor_id action key now store next shown
          fresh h in
      let found' : find (is_sync sync.id) store.syncs ≡ some sync = rw named found in
      subst
        (λ i.
          control_catalog_sync setting marks blocked new_id' i actor_id action key later next
          ≡ ok (next, shown))
        named
        (repeated new_id' actor_id key action now later store next sync shown found' unclosed fresh
          (perform-Concludes new_id sync actor_id action key now store next shown p))
