-- ===== src/Continuation/Advance.antt =====
-- When the coordinator asks for another step of a sync, and which row it writes.
use universal_race_calendar.Common.{
  eq_iff, subst, ℕ, ◌≡◌, refl, sym, ◌∙◌, ap, inl, inr, ◌⊎◌, Bool, true, false, String, Option, none,
  some, ◌∷◌, any, keep, find, ok, ok-injective, >>=-eq-ok, Bool-cases, arith,
}
use universal_race_calendar.Queue.Json.{Json, text_at}
use universal_race_calendar.Queue.Task.{Source, Task, completed}
use universal_race_calendar.Queue.Enqueue.{CampaignMark, is_keyed}
use universal_race_calendar.Queue.Steps.{Setting}
use universal_race_calendar.Continuation.Pause.{find_sound, str_eq_refl}
use universal_race_calendar.Continuation.{
  CatalogSync, Store, is_ready, is_sync, is_step, is_completed, live_step, set_sync, flag,
  sync_limited,
}
use universal_race_calendar.Continuation.Coordinate.{
  newest, catalog_checkpoint, same_checkpoint, enqueue_step, step_payload, auto_key, decide,
  coordinate_found, coordinate_sync,
}
use universal_race_calendar.Continuation.Counted.{coordinate_found-IsCounted}
use universal_race_calendar.Continuation.NextStep.{
  IsNextStep, Asks, enqueue_step_fresh, step_payload-place, request-IsNextStep,
}

module _ (setting : Setting) (marks : Json → Option CampaignMark) (blocked : Source → Bool) where
  -- The guards that a sync has passed for which a step is asked for.
  pub record Passes (store : Store) (sync : CatalogSync) : Type 0 where
    pub last : Task
    pub waits : is_ready sync.status ≡ true
    pub unpaused : flag "pauseRequested" sync.options ≡ false
    pub continues : flag "autoContinue" sync.options ≡ true
    pub unblocked : blocked sync.source ≡ false
    pub none_live : any (live_step sync.id) store.tasks ≡ false
    pub is_last : newest setting.id_before (keep (is_step sync.id) store.tasks) ≡ some last
    pub unheld : last.execution_hold ≡ false
    pub is_done : is_completed last.status ≡ true
    pub moved : same_checkpoint setting marks blocked sync last ≡ false

  -- What holds of a store and of a sync of it when a step has been asked for: the step is the one
  -- row that is new, another look at the sync asks for nothing, and once the step is completed while
  -- the sync stands where it stood, the look at it closes the sync as limited.
  pub record Advances (store next : Store) (sync : CatalogSync) : Type 0 where
    pub passes : Passes store sync
    pub step : Task
    pub is_next : IsNextStep setting marks blocked sync step
    pub added : next.tasks ≡ step ∷ store.tasks
    pub kept : (next.syncs ≡ store.syncs) × (next.audits ≡ store.audits)
    pub settles :
        (new_id : String) (now : ℕ)
        → coordinate_sync setting marks blocked new_id sync.id now next ≡ ok (next, 0)
    pub ends :
        (new_id : String) (now : ℕ) (later : Store)
        → decide setting marks blocked new_id sync now later
            (some (record step { status = completed; execution_hold = false }))
          ≡ ok (
            record later {
              syncs =
                  set_sync sync.id
                    (λ row. record row {
                      status = sync_limited;
                      coverage = "catalog_checkpoint_not_advancing";
                      updated_at = now;
                    })
                    later.syncs;
            },
            0,
          )

  decide-Asks :
      (new_id : String) (sync : CatalogSync) (now : ℕ) (store next : Store) (o : Option Task)
      → decide setting marks blocked new_id sync now store o ≡ ok (next, 1)
      → (last : Task) × (o ≡ some last)
        × (last.execution_hold ≡ false)
        × (is_completed last.status ≡ true)
        × (same_checkpoint setting marks blocked sync last ≡ false)
        × (enqueue_step setting marks blocked new_id sync.owner_id
              (auto_key setting marks blocked sync)
              sync
              (step_payload setting marks blocked sync sync.options)
              now
              store
            ≡ ok next)
  unfolding decide
  decide-Asks new_id sync now store next none h = absurd (let q = ok-injective h in cc)
  decide-Asks new_id sync now store next (some last) h = elim (Bool-cases last.execution_hold) [
    | inl y ↦ absurd (let q = ok-injective (rw y at h) in cc)
    | inr unheld ↦ elim (Bool-cases (is_completed last.status)) [
      | inr n ↦ absurd (let q = ok-injective (rw (unheld, n) at h) in cc)
      | inl is_done ↦ elim (Bool-cases (same_checkpoint setting marks blocked sync last)) [
        | inl y ↦ absurd (let q = ok-injective (rw (unheld, is_done, y) at h) in cc)
        | inr moved ↦
            let (mid, a, q) =
              >>=-eq-ok
                (enqueue_step setting marks blocked new_id sync.owner_id
                  (auto_key setting marks blocked sync) sync
                  (step_payload setting marks blocked sync sync.options) now store)
                _ (rw (unheld, is_done, moved) at h) in
            (
              last,
              refl,
              unheld,
              is_done,
              moved,
              a ∙ ap (λ s. ok s) (ap (λ x. x.0) (ok-injective q)),
            )
      ]
    ]
  ]

  coordinate_found-Asks :
      (new_id : String) (now : ℕ) (store next : Store) (sync : CatalogSync)
      → find (is_sync sync.id) store.syncs ≡ some sync
      → coordinate_found setting marks blocked new_id now store (some sync) ≡ ok (next, 1)
      → Passes store sync × Asks setting marks blocked new_id now store next sync
  unfolding coordinate_found
  coordinate_found-Asks new_id now store next sync found h =
      elim (Bool-cases (is_ready sync.status)) [
        | inr n ↦ absurd (let q = ok-injective (rw n at h) in cc)
        | inl waits ↦ elim (Bool-cases (flag "pauseRequested" sync.options)) [
          | inl y ↦ absurd (let q = ok-injective (rw (waits, y) at h) in cc)
          | inr unpaused ↦ elim (Bool-cases (flag "autoContinue" sync.options)) [
            | inr n ↦ absurd (let q = ok-injective (rw (waits, unpaused, n) at h) in cc)
            | inl continues ↦ elim (Bool-cases (blocked sync.source)) [
              | inl y ↦
                  absurd (let q = ok-injective (rw (waits, unpaused, continues, y) at h) in cc)
              | inr unblocked ↦ elim (Bool-cases (any (live_step sync.id) store.tasks)) [
                | inl y ↦ absurd (
                    let q = ok-injective (rw (waits, unpaused, continues, unblocked, y) at h) in cc)
                | inr none_live ↦
                    let (last, is_last, unheld, is_done, moved, asks) =
                      decide-Asks new_id sync now store next _
                        (rw (waits, unpaused, continues, unblocked, none_live) at h) in
                    (
                      record {
                        last = last;
                        waits = waits;
                        unpaused = unpaused;
                        continues = continues;
                        unblocked = unblocked;
                        none_live = none_live;
                        is_last = is_last;
                        unheld = unheld;
                        is_done = is_done;
                        moved = moved;
                      },
                      asks,
                    )
              ]
            ]
          ]
        ]
      ]

  live-settles :
      (new_id : String) (now : ℕ) (next : Store) (sync : CatalogSync)
      → find (is_sync sync.id) next.syncs ≡ some sync
      → any (live_step sync.id) next.tasks ≡ true
      → is_ready sync.status ≡ true
      → flag "pauseRequested" sync.options ≡ false
      → coordinate_sync setting marks blocked new_id sync.id now next ≡ ok (next, 0)
  unfolding coordinate_sync coordinate_found
  live-settles new_id now next sync found lives waits unpaused =
      rw (found, waits, unpaused, lives) (ground arith)

  decide-ends :
      (new_id : String) (now : ℕ) (later : Store) (sync : CatalogSync) (u : Task)
      → same_checkpoint setting marks blocked sync u ≡ true
      → decide setting marks blocked new_id sync now later
          (some (record u { status = completed; execution_hold = false }))
        ≡ ok (
          record later {
            syncs =
                set_sync sync.id
                  (λ row. record row {
                    status = sync_limited;
                    coverage = "catalog_checkpoint_not_advancing";
                    updated_at = now;
                  })
                  later.syncs;
          },
          0,
        )
  unfolding decide
  decide-ends new_id now later sync u same = rw same refl

  advances :
      (new_id : String) (now : ℕ) (store next : Store) (sync : CatalogSync)
      → find (is_sync sync.id) store.syncs ≡ some sync
      → find (is_keyed sync.owner_id (auto_key setting marks blocked sync)) store.tasks ≡ none
      → coordinate_found setting marks blocked new_id now store (some sync) ≡ ok (next, 1)
      → Advances store next sync
  advances new_id now store next sync found fresh h =
      let (passes, asks) = coordinate_found-Asks new_id now store next sync found h in
      let (u, same, request) =
        enqueue_step_fresh setting marks blocked new_id now store next sync fresh asks in
      let is_next = request-IsNextStep setting marks blocked sync u request in
      let of_place : text_at "checkpointHash" u.payload
          ≡ some (catalog_checkpoint setting marks blocked sync) =
        rw request.of_payload (step_payload-place setting marks blocked sync) in
      record {
        passes = passes;
        step = u;
        is_next = is_next;
        added = ap (λ (s : Store). s.tasks) same;
        kept = (ap (λ (s : Store). s.syncs) same, ap (λ (s : Store). s.audits) same);
        settles = λ new_id' now'.
            live-settles new_id' now' next sync
              (subst (λ (s : Store). find (is_sync sync.id) s.syncs ≡ some sync) (sym same) found)
              (subst (λ (s : Store). any (live_step sync.id) s.tasks ≡ true) (sym same)
                (rw is_next.live refl))
              passes.waits passes.unpaused;
        ends = λ new_id' now' later.
            decide-ends new_id' now' later sync u
              (rw (of_place, str_eq_refl (catalog_checkpoint setting marks blocked sync)) refl);
      }

  -- Where the owner of a sync has no task under the key of the sync's checkpoint yet, the transaction
  -- of the sync, if it succeeds, counts no step and adds no row, or it counts one. It then found the
  -- sync ready, continuing by itself, with no pause requested and the gate of its source open, with no
  -- step queued or running and a newest one that is completed, not held and of another checkpoint than
  -- the sync's. It adds one row, a live step of the sync that tells the checkpoint, and changes no
  -- sync; another transaction of the sync behind it counts none and changes nothing; and once the step
  -- is completed and not held, with the sync where it stood, the decision on it closes the sync as
  -- limited.
  pub coordinate_sync-Advances :
      (new_id id : String) (now n : ℕ) (store next : Store) (sync : CatalogSync)
      → find (is_sync id) store.syncs ≡ some sync
      → find (is_keyed sync.owner_id (auto_key setting marks blocked sync)) store.tasks ≡ none
      → coordinate_sync setting marks blocked new_id id now store ≡ ok (next, n)
      → ((n ≡ 0) × (next.tasks ≡ store.tasks)) ⊎ ((n ≡ 1) × Advances store next sync)
  unfolding coordinate_sync
  coordinate_sync-Advances new_id id now n store next sync found fresh h =
      let h' = rw found at h in
      let named = (eq_iff sync.id id).0 (find_sound (is_sync id) store.syncs sync found) in
      elim (coordinate_found-IsCounted setting marks blocked new_id now store next n sync h') [
        | inr none_added ↦ inl none_added
        | inl counted ↦ inr (
          counted,
          advances new_id now store next sync
              (subst (λ i. find (is_sync i) store.syncs ≡ some sync) (sym named) found) fresh
              (subst
                (λ k.
                  coordinate_found setting marks blocked new_id now store (some sync)
                  ≡ ok (next, k))
                counted h'),
        )
      ]
