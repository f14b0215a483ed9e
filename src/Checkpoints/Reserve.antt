-- ===== src/Checkpoints/Reserve.antt =====
-- When a task gets its checkpoint: exactly when it is shown as available.
use universal_race_calendar.Common.{
  ◌≡◌, ◌↔◌, refl, sym, ◌∙◌, ap, subst, inl, inr, true, String, str_eq, eq_iff, Option, none, some,
  find, ok, ok-injective, Bool-cases, Option-cases, ℕ,
}
use universal_race_calendar.Common.Units.{Units}
use universal_race_calendar.Queue.Json.{
  Json, null, bool, num, minus, fraction, infinite, str, arr, obj, get_field,
}
use universal_race_calendar.Queue.Task.{Task, openresults, same_source}
use universal_race_calendar.Pilot.{Conversions}
use universal_race_calendar.Countries.{Letters}
use universal_race_calendar.Edition.Identity.{UrlRuntime}
use universal_race_calendar.Checkpoints.{
  ResultCheckpoint, Store, is_reference, is_checkpoint, is_text, payload_text,
  result_checkpoint_root, CheckpointView, Answer, not_applicable, unavailable, view, view_of,
  read_result_checkpoint, check_reference, reserve_answered, reserve_result_checkpoint,
}
use universal_race_calendar.Checkpoints.Usable.{IsUsable, checkpoint_reason-IsUsable}

module _ (letters : Letters) (conversions : Conversions) (urls : UrlRuntime) (year : Units) where
  payload_text-is_text :
      (s : String) (o : Option Json)
      → is_text s o ≡ true
      → (t : String) × (o ≡ some (str t)) × (t ≡ s)
  payload_text-is_text s none h = absurd cc
  payload_text-is_text s (some null) h = absurd cc
  payload_text-is_text s (some (bool b)) h = absurd cc
  payload_text-is_text s (some (num n)) h = absurd cc
  payload_text-is_text s (some (minus n)) h = absurd cc
  payload_text-is_text s (some (fraction b n d)) h = absurd cc
  payload_text-is_text s (some (infinite b)) h = absurd cc
  payload_text-is_text s (some (str t)) h = (t, refl, (eq_iff t s).0 h)
  payload_text-is_text s (some (arr xs)) h = absurd cc
  payload_text-is_text s (some (obj fs)) h = absurd cc

  payload_text_lem :
      (key s : String) (task : Task)
      → is_text s (get_field key task.payload) ≡ true
      → payload_text letters conversions urls year key task ≡ s
  payload_text_lem key s task h =
      let (t, e, q) = payload_text-is_text s (get_field key task.payload) h in
      rw (payload_text, e) (conversions.text_str t ∙ q)

  -- The second look finds what the first one has found.
  check_reference-IsUsable :
      (task : Task) (now : ℕ) (store : Store) (root : ResultCheckpoint)
      → IsUsable letters conversions urls year task now root store
      → check_reference letters conversions urls year task store (
          find
            (is_reference (payload_text letters conversions urls year "externalId" task))
            store.references)
        ≡ ok (result_checkpoint_root task)
  unfolding check_reference
  check_reference-IsUsable task now store root usable =
      let same = usable.same_edition in
      let ref = usable.reference in
      let named = payload_text_lem "externalId" root.external_id task usable.task_edition in
      let event : str_eq ref.event_id
            (store.resolve_event_id (payload_text letters conversions urls year "eventId" task))
          ≡ true =
        (eq_iff ref.event_id _).1 (same.same_event ∙ usable.task_event) in
      let page : is_text ref.url (get_field "url" task.payload) ≡ true =
        subst (λ u. is_text u (get_field "url" task.payload) ≡ true) (sym same.same_source_url)
          usable.task_url in
      rw (named, same.is_found, event, page) refl

  -- What is shown as available is a usable checkpoint of the task.
  read-IsUsable :
      (task : Task) (now : ℕ) (store : Store) (v : CheckpointView)
      → read_result_checkpoint letters conversions urls year task now store ≡ view v
      → v.reason ≡ none
      → (same_source task.source openresults ≡ true)
        × (str_eq task.kind "extract" ≡ true)
        × (v.root_id ≡ result_checkpoint_root task)
        × (root : ResultCheckpoint) × (find
              (is_checkpoint (result_checkpoint_root task))
              store.checkpoints
            ≡ some root)
        × IsUsable letters conversions urls year task now root store
  unfolding read_result_checkpoint view_of
  read-IsUsable task now store v h free = elim (Bool-cases (same_source task.source openresults)) [
    | inr n ↦ absurd (let q = rw n at h in cc)
    | inl s ↦ elim (Bool-cases (str_eq task.kind "extract")) [
      | inr n ↦ absurd (let q = rw (s, n) at h in cc)
      | inl k ↦
          elim (Option-cases
            (find (is_checkpoint (result_checkpoint_root task)) store.checkpoints)) [
              | inl n ↦ absurd (let q = rw (s, k, n) at h in cc)
              | inr (root, found) ↦
                  let q = rw (s, k, found) at h in
                  let shown = view-injective q in
                  (
                    s,
                    k,
                    sym (ap (λ (x : CheckpointView). x.root_id) shown),
                    root,
                    found,
                    checkpoint_reason-IsUsable letters conversions urls year task now store root
                        (ap (λ (x : CheckpointView). x.reason) shown ∙ free),
                  )
            ]
    ]
  ]
    where
      view-injective : {a b : CheckpointView} → view a ≡ view b → a ≡ b
      view-injective h = cc

  reserve_answered-view :
      (task : Task) (store : Store) (a : Answer) (id : String)
      → reserve_answered letters conversions urls year task store a ≡ ok id
      → (v : CheckpointView) × (a ≡ view v)
        × (v.reason ≡ none)
        × (check_reference letters conversions urls year task store (
              find
                (is_reference (payload_text letters conversions urls year "externalId" task))
                store.references)
            ≡ ok id)
  unfolding reserve_answered
  reserve_answered-view task store not_applicable id h = absurd cc
  reserve_answered-view task store unavailable id h = absurd cc
  reserve_answered-view task store (view v) id h = elim (Option-cases v.reason) [
    | inl n ↦ (v, refl, n, rw n at h)
    | inr (reason, e) ↦ absurd (let q = rw e at h in cc)
  ]

  -- A task gets a checkpoint exactly when the checkpoint is shown as available to it: the second look at
  -- the reference, under the locks, refuses none that the first one lets pass.
  pub reserve_result_checkpoint-available_iff :
      (task : Task) (now : ℕ) (store : Store) (id : String)
      → (reserve_result_checkpoint letters conversions urls year task now store ≡ ok id) ↔ (
          (v : CheckpointView) × (read_result_checkpoint letters conversions urls year task now
              store
            ≡ view v)
          × (v.reason ≡ none)
          × (v.root_id ≡ id))
  unfolding reserve_result_checkpoint reserve_answered
  reserve_result_checkpoint-available_iff task now store id = (to, from)
    where
      from :
          (v : CheckpointView) × (read_result_checkpoint letters conversions urls year task now
                store
              ≡ view v)
            × (v.reason ≡ none)
            × (v.root_id ≡ id)
          → reserve_result_checkpoint letters conversions urls year task now store ≡ ok id
      from (v, shown, free, named) =
          let (s, k, own, root, found, usable) = read-IsUsable task now store v shown free in
          rw (shown, free)
            (check_reference-IsUsable task now store root usable ∙ ap (λ x. ok x) (sym own ∙ named))

      to :
          reserve_result_checkpoint letters conversions urls year task now store ≡ ok id
          → (v : CheckpointView) × (read_result_checkpoint letters conversions urls year task now
                store
              ≡ view v)
            × (v.reason ≡ none)
            × (v.root_id ≡ id)
      to h =
          let (v, shown, free, q) =
            reserve_answered-view task store
              (read_result_checkpoint letters conversions urls year task now store) id h in
          let (s, k, own, root, found, usable) = read-IsUsable task now store v shown free in
          let got = check_reference-IsUsable task now store root usable in
          (v, shown, free, own ∙ ok-injective (sym got ∙ q))

  -- A task that gets a checkpoint is an extraction of OpenResults, and its checkpoint is of its edition,
  -- of the current format, in force, not finished and not in use; the reference of the edition still
  -- names its event, its page and its day, and no place that is not reviewed differs.
  pub reserve_result_checkpoint-IsUsable :
      (task : Task) (now : ℕ) (store : Store) (id : String)
      → reserve_result_checkpoint letters conversions urls year task now store ≡ ok id
      → (same_source task.source openresults ≡ true)
        × (str_eq task.kind "extract" ≡ true)
        × (id ≡ result_checkpoint_root task)
        × (root : ResultCheckpoint) × (find (is_checkpoint id) store.checkpoints ≡ some root)
        × IsUsable letters conversions urls year task now root store
  reserve_result_checkpoint-IsUsable task now store id h =
      let (v, shown, free, named) =
        (reserve_result_checkpoint-available_iff task now store id).0 h in
      let (s, k, own, root, found, usable) = read-IsUsable task now store v shown free in
      let same = sym named ∙ own in
      (
        s,
        k,
        same,
        root,
        subst (λ i. find (is_checkpoint i) store.checkpoints ≡ some root) (sym same) found,
        usable,
      )
