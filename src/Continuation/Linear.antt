-- ===== src/Continuation/Linear.antt =====
-- A sync never has two live steps: neither coordinators nor controls fork it.
use universal_race_calendar.Common.{
  ℕ, ◌+◌, ◌≡◌, refl, sym, ◌∙◌, ap, subst, inl, inr, Bool, false, ◌&&◌, String, str_eq, Option, none,
  some, List, [], ◌∷◌, any, keep, find, Result, ok, err, ok-injective, >>=-eq-ok, >>-eq-ok,
  Bool-cases,
}
use universal_race_calendar.Queue.Json.{Json, bool, str, text_at}
use universal_race_calendar.Queue.Task.{Source, Task}
use universal_race_calendar.Queue.Enqueue.{
  CampaignMark, guard_campaign_task, new_row, is_keyed, request_hash, settle, upsert, enqueue_task,
}
use universal_race_calendar.Queue.Steps.{Setting}
use universal_race_calendar.Pilot.{assert_pilot_task}
use universal_race_calendar.Continuation.{
  same_control, is_ready, is_completed, running_step, CatalogSync, Store, ControlAction, pause,
  resume, ControlEntry, put_in, is_step, live_step, is_sync, flag,
}
use universal_race_calendar.Continuation.Coordinate.{
  after_sync, candidates, coordinate_catalog_syncs, same_checkpoint, newest, catalog_checkpoint,
  enqueue_step, step_payload, auto_key, decide, coordinate_found, coordinate_sync, coordinate_each,
}
use universal_race_calendar.Continuation.Control.{
  check_open, is_control, release_steps, conclude, perform, answer, control_found,
  control_catalog_sync,
}
use universal_race_calendar.Continuation.Rows.{
  text_at-put, any-live_count, live_count-hold, live_count-release, Adds, nothing, one, guard-kept,
  IsLinear, Adds-IsLinear,
}

done :
    {A : Type 0} {a b : Store} {x y : A}
    → ◌≡◌ {A = Result String (Store × A)} (ok (a, x)) (ok (b, y))
    → IsLinear a.tasks
    → IsLinear b.tasks
done h linear = subst (λ p. IsLinear p.0.tasks) (ok-injective h) linear

module _ (setting : Setting) (marks : Json → Option CampaignMark) (blocked : Source → Bool) where
  settle-Adds :
      (mark : Option CampaignMark) (row : Task) (ts us : List Task) (t : Task) (o : Option Task)
      → settle setting.runtime setting.conversions setting.sha256 setting.pilot mark row ts o
        ≡ ok (us, t)
      → Adds row.kind row.payload ts us
  unfolding settle
  settle-Adds mark row ts us t (some old) h =
      elim (Bool-cases (str_eq old.request_hash row.request_hash)) [
        | inl y ↦ nothing (sym (ap (λ x. x.0) (ok-injective (rw y at h))))
        | inr n ↦ absurd (let q = rw n at h in cc)
      ]
  settle-Adds mark row ts us t none h =
      let (g, e, q) = >>=-eq-ok (guard_campaign_task mark row) _ h in
      let (kind, payload) = guard-kept mark row g e in
      one g (sym (ap (λ x. x.0) (ok-injective q))) kind payload

  upsert-Adds :
      (mark : Option CampaignMark) (row : Task) (ts us : List Task) (t : Task)
      → upsert setting.runtime setting.conversions setting.sha256 setting.pilot mark row ts
        ≡ ok (us, t)
      → Adds row.kind row.payload ts us
  unfolding upsert
  upsert-Adds mark row ts us t h =
      settle-Adds mark row ts us t (find (is_keyed row.owner_id row.idempotency_key) ts) h

  enqueue_step-Adds :
      (new_id owner_id key : String) (sync : CatalogSync) (payload : Json) (now : ℕ)
      (store next : Store)
      → enqueue_step setting marks blocked new_id owner_id key sync payload now store ≡ ok next
      → Adds "catalog-sync" payload store.tasks next.tasks
  unfolding enqueue_step enqueue_task
  enqueue_step-Adds new_id owner_id key sync payload now store next h =
      let hash =
        request_hash setting.runtime setting.conversions setting.sha256 setting.pilot sync.source
          "catalog-sync" payload in
      let row = new_row new_id owner_id key sync.source "catalog-sync" payload hash now in
      let ((tasks, task), e, q) =
        >>=-eq-ok
          (enqueue_task setting.runtime setting.conversions setting.sha256 setting.pilot
            (marks payload) new_id owner_id key sync.source "catalog-sync" payload now store.tasks)
          _ h in
      let (_, r) =
        >>-eq-ok (assert_pilot_task setting.conversions setting.pilot "catalog-sync" payload) _ e in
      subst (λ (n : Store). Adds "catalog-sync" payload store.tasks n.tasks) (ok-injective q)
        (upsert-Adds (marks payload) row store.tasks tasks task r)

  pub step_payload-names :
      (sync : CatalogSync) (options : Json)
      → text_at "syncId" (step_payload setting marks blocked sync options) ≡ some sync.id
  unfolding step_payload
  step_payload-names sync options =
      let hash = catalog_checkpoint setting marks blocked sync in
      text_at-put "syncId" "checkpointHash" hash (put_in "syncId" (str sync.id) options)
      ∙ text_at-put "syncId" "syncId" sync.id options

  -- A step is enqueued only where the sync has no live one.
  enqueue_step-IsLinear :
      (new_id owner_id key : String) (sync : CatalogSync) (options : Json) (now : ℕ)
      (store next : Store)
      → any (live_step sync.id) store.tasks ≡ false
      → enqueue_step setting marks blocked new_id owner_id key sync
          (step_payload setting marks blocked sync options)
          now
          store
        ≡ ok next
      → IsLinear store.tasks
      → IsLinear next.tasks
  enqueue_step-IsLinear new_id owner_id key sync options now store next free h linear =
      let payload = step_payload setting marks blocked sync options in
      Adds-IsLinear sync.id payload store.tasks next.tasks
        (enqueue_step-Adds new_id owner_id key sync payload now store next h)
        (step_payload-names sync options) (any-live_count sync.id store.tasks free) linear

  decide-IsLinear :
      (new_id : String) (sync : CatalogSync) (now : ℕ) (store next : Store) (n : ℕ)
      (last : Option Task)
      → any (live_step sync.id) store.tasks ≡ false
      → decide setting marks blocked new_id sync now store last ≡ ok (next, n)
      → IsLinear store.tasks
      → IsLinear next.tasks
  unfolding decide
  decide-IsLinear new_id sync now store next n none free h linear = done h linear
  decide-IsLinear new_id sync now store next n (some last) free h linear =
      elim (Bool-cases last.execution_hold) [
        | inl y ↦ done (rw y at h) linear
        | inr e ↦ elim (Bool-cases (is_completed last.status)) [
          | inr c ↦ done (rw (e, c) at h) linear
          | inl c ↦ elim (Bool-cases (same_checkpoint setting marks blocked sync last)) [
            | inl m ↦ done (rw (e, c, m) at h) linear
            | inr m ↦
                let payload = step_payload setting marks blocked sync sync.options in
                let key = auto_key setting marks blocked sync in
                let (after, a, q) =
                  >>=-eq-ok
                    (enqueue_step setting marks blocked new_id sync.owner_id key sync payload now
                      store)
                    _ (rw (e, c, m) at h) in
                done q (
                  enqueue_step-IsLinear new_id sync.owner_id key sync sync.options now store after
                    free a linear)
          ]
        ]
      ]

  coordinate_found-IsLinear :
      (new_id : String) (now : ℕ) (store next : Store) (n : ℕ) (found : Option CatalogSync)
      → coordinate_found setting marks blocked new_id now store found ≡ ok (next, n)
      → IsLinear store.tasks
      → IsLinear next.tasks
  unfolding coordinate_found
  coordinate_found-IsLinear new_id now store next n none h linear = absurd cc
  coordinate_found-IsLinear new_id now store next n (some sync) h linear =
      elim (Bool-cases (is_ready sync.status)) [
        | inr r ↦ done (rw r at h) linear
        | inl r ↦ elim (Bool-cases (flag "pauseRequested" sync.options)) [
          | inl p ↦ elim (Bool-cases (any (running_step sync.id) store.tasks)) [
            | inl b ↦ done (rw (r, p, b) at h) linear
            | inr b ↦ done (rw (r, p, b) at h) linear
          ]
          | inr p ↦ elim (Bool-cases (flag "autoContinue" sync.options)) [
            | inr c ↦ done (rw (r, p, c) at h) linear
            | inl c ↦ elim (Bool-cases (blocked sync.source)) [
              | inl b ↦ done (rw (r, p, c, b) at h) linear
              | inr b ↦ elim (Bool-cases (any (live_step sync.id) store.tasks)) [
                | inl l ↦ done (rw (r, p, c, b, l) at h) linear
                | inr l ↦
                    decide-IsLinear new_id sync now store next n
                      (newest setting.id_before (keep (is_step sync.id) store.tasks)) l
                      (rw (r, p, c, b, l) at h) linear
              ]
            ]
          ]
        ]
      ]

  -- Coordinating a sync keeps at most one live step of each sync.
  coordinate_sync-IsLinear :
      (new_id id : String) (now : ℕ) (store next : Store) (n : ℕ)
      → coordinate_sync setting marks blocked new_id id now store ≡ ok (next, n)
      → IsLinear store.tasks
      → IsLinear next.tasks
  unfolding coordinate_sync
  coordinate_sync-IsLinear new_id id now store next n h linear =
      coordinate_found-IsLinear new_id now store next n (find (is_sync id) store.syncs) h linear

  after_sync-IsLinear :
      (store : Store) (result : Result String (Store × ℕ))
      (others : Store → ℕ → Store × Result String ℕ)
      → IsLinear store.tasks
      → ((next : Store) (more : ℕ) → result ≡ ok (next, more) → IsLinear (others next more).0.tasks)
      → IsLinear (after_sync store result others).0.tasks
  unfolding after_sync
  after_sync-IsLinear store (err code) others linear later = linear
  after_sync-IsLinear store (ok (next, more)) others linear later = later next more refl

  coordinate_each-IsLinear :
      (new_id : String → String) (ids : List String) (now n : ℕ) (store : Store)
      → IsLinear store.tasks
      → IsLinear (coordinate_each setting marks blocked new_id ids now n store).0.tasks
  unfolding coordinate_each
  coordinate_each-IsLinear new_id [] now n store linear = linear
  coordinate_each-IsLinear new_id (id ∷ ids) now n store linear =
      after_sync-IsLinear store (coordinate_sync setting marks blocked (new_id id) id now store) _
        linear
        (λ next more e.
          coordinate_each-IsLinear new_id ids now (n + more) next
            (coordinate_sync-IsLinear (new_id id) id now store next more e linear))

  perform-IsLinear :
      (new_id : String) (sync : CatalogSync) (actor_id : String) (action : ControlAction)
      (key : String) (now : ℕ) (store next : Store) (shown : CatalogSync)
      → perform setting marks blocked new_id sync actor_id action key now store ≡ ok (next, shown)
      → IsLinear store.tasks
      → IsLinear next.tasks
  unfolding perform
  perform-IsLinear new_id sync actor_id pause key now store next shown h linear =
      elim (Bool-cases (flag "pauseRequested" sync.options)) [
        | inl y ↦ done (rw y at h) linear
        | inr f ↦
            done (unfold conclude in (rw f at h))
              (λ id. rw (live_count-hold id sync.id now store.tasks) (linear id))
      ]
  perform-IsLinear new_id sync actor_id resume key now store next shown h linear =
      let free : Store = record store { tasks = release_steps sync.id now store.tasks } in
      let released : IsLinear free.tasks =
        λ id. rw (live_count-release id sync.id now store.tasks) (linear id) in
      elim (Bool-cases (any (live_step sync.id) free.tasks)) [
        | inl y ↦ done (unfold conclude in (rw y at h)) released
        | inr f ↦
            let options = put_in "pauseRequested" (bool false) sync.options in
            let payload = step_payload setting marks blocked sync options in
            let (after, a, q) =
              >>=-eq-ok
                (enqueue_step setting marks blocked new_id actor_id key sync payload now free) _
                (rw f at h) in
            done (unfold conclude in q)
              (enqueue_step-IsLinear new_id actor_id key sync options now free after f a released)
      ]

  answer-IsLinear :
      (new_id : String) (sync : CatalogSync) (actor_id : String) (action : ControlAction)
      (key : String) (now : ℕ) (store next : Store) (shown : CatalogSync)
      (previous : Option ControlEntry)
      → answer setting marks blocked new_id sync actor_id action key now store previous
        ≡ ok (next, shown)
      → IsLinear store.tasks
      → IsLinear next.tasks
  unfolding answer
  answer-IsLinear new_id sync actor_id action key now store next shown (some e) h linear =
      elim (Bool-cases (same_control e.action action && str_eq e.sync_id sync.id)) [
        | inl y ↦ done (rw y at h) linear
        | inr f ↦ absurd (let q = rw f at h in cc)
      ]
  answer-IsLinear new_id sync actor_id action key now store next shown none h linear =
      let (_, f) = >>-eq-ok (check_open sync) _ h in
      perform-IsLinear new_id sync actor_id action key now store next shown f linear

  control_found-IsLinear :
      (new_id actor_id : String) (action : ControlAction) (key : String) (now : ℕ)
      (store next : Store) (shown : CatalogSync) (found : Option CatalogSync)
      → control_found setting marks blocked new_id actor_id action key now store found
        ≡ ok (next, shown)
      → IsLinear store.tasks
      → IsLinear next.tasks
  unfolding control_found
  control_found-IsLinear new_id actor_id action key now store next shown none h linear = absurd cc
  control_found-IsLinear new_id actor_id action key now store next shown (some sync) h linear =
      answer-IsLinear new_id sync actor_id action key now store next shown
        (find (is_control actor_id key) store.audits) h linear

  -- Pausing and resuming a sync keeps at most one live step of each sync.
  control_catalog_sync-IsLinear :
      (new_id id actor_id : String) (action : ControlAction) (key : String) (now : ℕ)
      (store next : Store) (shown : CatalogSync)
      → control_catalog_sync setting marks blocked new_id id actor_id action key now store
        ≡ ok (next, shown)
      → IsLinear store.tasks
      → IsLinear next.tasks
  unfolding control_catalog_sync
  control_catalog_sync-IsLinear new_id id actor_id action key now store next shown h linear =
      control_found-IsLinear new_id actor_id action key now store next shown
        (find (is_sync id) store.syncs) h linear

  -- Rounds of the coordinator and controls, by anyone at any instants.
  pub data ContinuationStep : Store → Store → Type 0 where
    coordinates :
        (new_id : String → String) (limit now : ℕ) (store : Store)
        → ContinuationStep store
            (coordinate_catalog_syncs setting marks blocked new_id limit now store).0
    controls :
        (new_id id actor_id : String) (action : ControlAction) (key : String) (now : ℕ)
        (store next : Store) (shown : CatalogSync)
        → control_catalog_sync setting marks blocked new_id id actor_id action key now store
          ≡ ok (next, shown)
        → ContinuationStep store next

  pub data ContinuationReach (store : Store) : Store → Type 0 where
    start : ContinuationReach store store
    then_step :
        {a b : Store} → ContinuationReach store a → ContinuationStep a b → ContinuationReach store b

  ContinuationStep-IsLinear :
      {a b : Store} → ContinuationStep a b → IsLinear a.tasks → IsLinear b.tasks
  unfolding coordinate_catalog_syncs
  ContinuationStep-IsLinear (coordinates new_id limit now store) linear =
      coordinate_each-IsLinear new_id (candidates limit store) now 0 store linear
  ContinuationStep-IsLinear (controls new_id id actor_id action key now store next shown h) linear =
      control_catalog_sync-IsLinear new_id id actor_id action key now store next shown h linear

  -- However often the coordinator runs and administrators pause and resume, no sync ever has two
  -- steps that are queued or running, if none has at first.
  pub ContinuationReach-IsLinear :
      {a b : Store} → ContinuationReach a b → IsLinear a.tasks → IsLinear b.tasks
  ContinuationReach-IsLinear start linear = linear
  ContinuationReach-IsLinear (then_step r st) linear =
      ContinuationStep-IsLinear st (ContinuationReach-IsLinear r linear)
