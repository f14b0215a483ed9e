-- ===== src/Continuation/Counted.antt =====
-- What the transaction of a sync counts.
use universal_race_calendar.Common.{
  ℕ, ◌≡◌, refl, sym, ◌∙◌, ap, inl, inr, ◌⊎◌, Bool, String, Option, none, some, any, keep, Result,
  ok, ok-injective, >>=-eq-ok, Bool-cases,
}
use universal_race_calendar.Queue.Json.{Json}
use universal_race_calendar.Queue.Task.{Source, Task}
use universal_race_calendar.Queue.Enqueue.{CampaignMark}
use universal_race_calendar.Queue.Steps.{Setting}
use universal_race_calendar.Continuation.{
  CatalogSync, Store, is_ready, is_step, is_completed, live_step, running_step, flag,
}
use universal_race_calendar.Continuation.Coordinate.{
  newest, same_checkpoint, enqueue_step, step_payload, auto_key, decide, coordinate_found,
}

module _ (setting : Setting) (marks : Json → Option CampaignMark) (blocked : Source → Bool) where
  -- What is counted: one step, or none, and then no row is added.
  abbrev pub IsCounted : Store → Store → ℕ → Type 0
  IsCounted store next n = (n ≡ 1) ⊎ ((n ≡ 0) × (next.tasks ≡ store.tasks))

  quiet :
      (store a next : Store) (n : ℕ)
      → a.tasks ≡ store.tasks
      → ◌≡◌ {A = Result String (Store × ℕ)} (ok (a, 0)) (ok (next, n))
      → IsCounted store next n
  quiet store a next n same h =
      let q = ok-injective h in inr (sym (ap (λ x. x.1) q), sym (ap (λ x. x.0.tasks) q) ∙ same)

  decide-IsCounted :
      (new_id : String) (sync : CatalogSync) (now : ℕ) (store next : Store) (n : ℕ)
      (o : Option Task)
      → decide setting marks blocked new_id sync now store o ≡ ok (next, n)
      → IsCounted store next n
  unfolding decide
  decide-IsCounted new_id sync now store next n none h = quiet store _ next n refl h
  decide-IsCounted new_id sync now store next n (some last) h =
      elim (Bool-cases last.execution_hold) [
        | inl y ↦ quiet store store next n refl (rw y at h)
        | inr unheld ↦ elim (Bool-cases (is_completed last.status)) [
          | inr undone ↦ quiet store _ next n refl (rw (unheld, undone) at h)
          | inl is_done ↦ elim (Bool-cases (same_checkpoint setting marks blocked sync last)) [
            | inl y ↦ quiet store _ next n refl (rw (unheld, is_done, y) at h)
            | inr moved ↦
                let (mid, a, q) =
                  >>=-eq-ok
                    (enqueue_step setting marks blocked new_id sync.owner_id
                      (auto_key setting marks blocked sync) sync
                      (step_payload setting marks blocked sync sync.options) now store)
                    _ (rw (unheld, is_done, moved) at h) in
                inl (sym (ap (λ x. x.1) (ok-injective q)))
          ]
        ]
      ]

  pub coordinate_found-IsCounted :
      (new_id : String) (now : ℕ) (store next : Store) (n : ℕ) (sync : CatalogSync)
      → coordinate_found setting marks blocked new_id now store (some sync) ≡ ok (next, n)
      → IsCounted store next n
  unfolding coordinate_found
  coordinate_found-IsCounted new_id now store next n sync h =
      elim (Bool-cases (is_ready sync.status)) [
        | inr y ↦ quiet store store next n refl (rw y at h)
        | inl waits ↦ elim (Bool-cases (flag "pauseRequested" sync.options)) [
          | inl y ↦ elim (Bool-cases (any (running_step sync.id) store.tasks)) [
            | inl runs ↦ quiet store store next n refl (rw (waits, y, runs) at h)
            | inr still ↦ quiet store _ next n refl (rw (waits, y, still) at h)
          ]
          | inr unpaused ↦ elim (Bool-cases (flag "autoContinue" sync.options)) [
            | inr y ↦ quiet store store next n refl (rw (waits, unpaused, y) at h)
            | inl continues ↦ elim (Bool-cases (blocked sync.source)) [
              | inl y ↦ quiet store store next n refl (rw (waits, unpaused, continues, y) at h)
              | inr free ↦ elim (Bool-cases (any (live_step sync.id) store.tasks)) [
                | inl y ↦
                    quiet store store next n refl (rw (waits, unpaused, continues, free, y) at h)
                | inr none_live ↦
                    decide-IsCounted new_id sync now store next n
                      (newest setting.id_before (keep (is_step sync.id) store.tasks))
                      (rw (waits, unpaused, continues, free, none_live) at h)
              ]
            ]
          ]
        ]
      ]
