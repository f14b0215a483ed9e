-- ===== src/Continuation/Pause.antt =====
-- What pausing and resuming a sync does to its steps.
use universal_race_calendar.Common.{
  ℕ, ◌≡◌, refl, sym, ◌∙◌, ap, subst, inl, inr, ◌⊎◌, Bool, true, false, String, str_eq, eq_iff,
  Option, none, some, List, [], ◌∷◌, any, find, map, In, All, ok, ok-injective, >>-eq-ok,
  Bool-cases, Option-cases, arith,
}
use universal_race_calendar.Queue.Json.{Json}
use universal_race_calendar.Queue.Task.{Source, Task, is_queued, is_running, update_where}
use universal_race_calendar.Queue.Claim.{
  Gates, lapsed, take_back, lease, recover, eligible, claim_selected_task,
}
use universal_race_calendar.Queue.Choice.{claim_selected_task-IsClaim}
use universal_race_calendar.Queue.Enqueue.{CampaignMark}
use universal_race_calendar.Queue.Steps.{Setting}
use universal_race_calendar.Continuation.{
  CatalogSync, Store, ControlAction, pause, resume, is_step, live_step, running_step, is_sync,
  set_sync, flag,
}
use universal_race_calendar.Continuation.Control.{
  is_waiting, hold, is_held, hold_steps, release_steps, conclude, perform, check_open, is_control,
  answer, control_found, control_catalog_sync,
}

pub str_eq_refl : (s : String) → str_eq s s ≡ true
str_eq_refl s = (eq_iff s s).1 refl

pub find_sound : {A : Type 0} (p : A → Bool) (xs : List A) (x : A) → find p xs ≡ some x → p x ≡ true
find_sound p [] x h = absurd cc
find_sound p (y ∷ ys) x h = elim (Bool-cases (p y)) [
  | inl e ↦ ground (arith, rw e at h, e)
  | inr e ↦ find_sound p ys x (rw e at h)
]

-- A replaced row is the one that is found.
pub find-set_sync :
    (id : String) (u : CatalogSync) (syncs : List CatalogSync) (s : CatalogSync)
    → u.id ≡ id
    → find (is_sync id) syncs ≡ some s
    → find (is_sync id) (set_sync id (λ _. u) syncs) ≡ some u
find-set_sync id u [] s e h = absurd cc
find-set_sync id u (x ∷ xs) s e h = elim (Bool-cases (str_eq x.id id)) [
  | inl y ↦ let own : str_eq u.id id ≡ true = (eq_iff u.id id).1 e in rw (y, own)
  | inr n ↦ let rest = find-set_sync id u xs s e (rw n at h) in rw (n, n, rest)
]

-- What passes or fails a filter of an update, row by row.
hold-blocks :
    (id : String) (now : ℕ) (ts : List Task) (t : Task)
    → In t (hold_steps id now ts)
    → is_step id t ≡ true
    → is_queued t.status ≡ true
    → t.execution_hold ≡ true
unfolding hold_steps
hold-blocks id now [] t i step waits = absurd i
hold-blocks id now (x ∷ xs) t (inr i) step waits = hold-blocks id now xs t i step waits
hold-blocks id now (x ∷ xs) t (inl e) step waits = elim (Bool-cases (is_waiting id x)) [
  | inl y ↦ let e' = rw y at e in rw e'
  | inr n ↦
      let e' : t ≡ x = rw n at e in
      let m : is_waiting id t ≡ false = rw e' n in ground (arith, step, waits, m)
]

lapsed_running :
    (slots : List Source) (allowed : Option (List String)) (now : ℕ) (t : Task)
    → lapsed slots allowed now t ≡ true
    → is_running t.status ≡ true
unfolding lapsed
lapsed_running slots allowed now t h = ground arith

eligible_waits :
    (gates : Gates) (slots : List Source) (allowed : Option (List String)) (now : ℕ)
    (ts : List Task) (t : Task)
    → eligible gates slots allowed now ts t ≡ true
    → (is_queued t.status ≡ true) × (t.execution_hold ≡ false)
unfolding eligible
eligible_waits gates slots allowed now ts t h = (ground arith, ground arith)

-- A row behind an update is one in front of it, updated or not.
In-update_where :
    (p : Task → Bool) (f : Task → Task) (ts : List Task) (t : Task)
    → In t (update_where p f ts).0
    → (u : Task) × In u ts × (((p u ≡ true) × (t ≡ f u)) ⊎ ((p u ≡ false) × (t ≡ u)))
In-update_where p f [] t i = absurd i
In-update_where p f (x ∷ xs) t (inr i) = let (u, j, e) = In-update_where p f xs t i in (u, inr j, e)
In-update_where p f (x ∷ xs) t (inl e) = elim (Bool-cases (p x)) [
  | inl y ↦ (x, inl refl, inl (y, rw y at e))
  | inr n ↦ (x, inl refl, inr (n, rw n at e))
]

-- A row that runs behind the holding of steps ran in front of it, and is the same.
hold_steps-running :
    (id : String) (now : ℕ) (ts : List Task) (t : Task)
    → In t (hold_steps id now ts)
    → is_running t.status ≡ true
    → In t ts
unfolding hold_steps
hold_steps-running id now ts t i runs =
    let (u, j, e) = In-update_where (is_waiting id) (hold now) ts t i in
    elim e [
      | inl (waits, same) ↦ let h = rw same at runs in absurd (ground (arith, waits, h))
      | inr (_, same) ↦ subst (λ x. In x ts) (sym same) j
    ]

-- A step that an acquisition takes behind the holding of steps has been taken back by it.
hold_steps-taken :
    (id : String) (now later : ℕ) (ts : List Task) (gates : Gates) (slots : List Source)
    (allowed : Option (List String)) (row : Task)
    → In row (recover slots allowed later (hold_steps id now ts))
    → eligible gates slots allowed later (recover slots allowed later (hold_steps id now ts)) row
      ≡ true
    → is_step id row ≡ true
    → (u : Task) × In u ts × (row ≡ take_back later u) × (lapsed slots allowed later u ≡ true)
unfolding recover
hold_steps-taken id now later ts gates slots allowed row i able step =
    let rows = recover slots allowed later (hold_steps id now ts) in
    let (u, j, e) =
      In-update_where (lapsed slots allowed later) (take_back later) (hold_steps id now ts) row i in
    elim e [
      | inl (over, same) ↦
          let runs : is_running u.status ≡ true = lapsed_running slots allowed later u over in
          (u, hold_steps-running id now ts u j runs, same, over)
      | inr (_, same) ↦
          let mine : is_step id u ≡ true = subst (λ x. is_step id x ≡ true) same step in
          let (queues, free) =
            eligible_waits gates slots allowed later rows u
              (subst (λ x. eligible gates slots allowed later rows x ≡ true) same able) in
          let held = hold-blocks id now ts u j mine queues in absurd (ground (arith, held, free))
    ]

live-hold :
    (id : String) (now : ℕ) (ts : List Task)
    → any (live_step id) (hold_steps id now ts) ≡ any (live_step id) ts
unfolding hold_steps is_step
live-hold id now [] = refl
live-hold id now (t ∷ ts) = elim (Bool-cases (is_waiting id t)) [
  | inl y ↦ rw (y, live-hold id now ts)
  | inr n ↦ rw (n, live-hold id now ts)
]

live-release :
    (id : String) (now : ℕ) (ts : List Task)
    → any (live_step id) (release_steps id now ts) ≡ any (live_step id) ts
unfolding release_steps is_step
live-release id now [] = refl
live-release id now (t ∷ ts) = elim (Bool-cases (is_held id t)) [
  | inl y ↦ rw (y, live-release id now ts)
  | inr n ↦ rw (n, live-release id now ts)
]

-- A row without the time of its last change.
abbrev pub unstamped : Task → Task
unstamped t = record t { updated_at = 0 }

-- A step that waits has no reason to be held, and none is held by an earlier pause.
abbrev IsUnheld : String → Task → Type 0
IsUnheld id t =
    (is_held id t ≡ false)
    × (is_waiting id t ≡ true → (t.execution_hold ≡ false) × (t.hold_reason ≡ none))

-- The rows come back as they were.
release-hold :
    (id : String) (now later : ℕ) (ts : List Task)
    → All (IsUnheld id) ts
    → map unstamped (release_steps id later (hold_steps id now ts)) ≡ map unstamped ts
unfolding hold_steps release_steps is_step
release-hold id now later [] h = refl
release-hold id now later (t ∷ ts) ((free, plain), h) =
    let rest = release-hold id now later ts h in
    elim (Bool-cases (is_waiting id t)) [
      | inl y ↦
          let (e, r) = plain y in
          let held : is_held id (hold now t) ≡ true = ground (arith, y) in
          rw (y, held)
            (λ j.
              record t { execution_hold = sym e j; hold_reason = sym r j; updated_at = 0 } ∷ rest j)
      | inr n ↦ rw (n, free, rest)
    ]

module _ (setting : Setting) (marks : Json → Option CampaignMark) (blocked : Source → Bool) where
  -- A control that is accepted under a new key is performed on the sync of its id.
  pub control-performs :
      (new_id id actor_id : String) (action : ControlAction) (key : String) (now : ℕ)
      (store next : Store) (shown : CatalogSync)
      → find (is_control actor_id key) store.audits ≡ none
      → control_catalog_sync setting marks blocked new_id id actor_id action key now store
        ≡ ok (next, shown)
      → (sync : CatalogSync) × (find (is_sync id) store.syncs ≡ some sync)
        × (sync.id ≡ id)
        × (check_open sync ≡ ok tt)
        × (perform setting marks blocked new_id sync actor_id action key now store
            ≡ ok (next, shown))
  unfolding control_catalog_sync control_found answer
  control-performs new_id id actor_id action key now store next shown fresh h =
      elim (Option-cases (find (is_sync id) store.syncs)) [
        | inl none_found ↦ absurd (let q = rw none_found at h in cc)
        | inr (sync, found) ↦
            let (o, p) = >>-eq-ok (check_open sync) _ (rw (found, fresh) at h) in
            (
              sync,
              found,
              (eq_iff sync.id id).0 (find_sound (is_sync id) store.syncs sync found),
              o,
              p,
            )
      ]

  pause-rows :
      (new_id : String) (sync : CatalogSync) (actor_id key : String) (now : ℕ) (store next : Store)
      (shown : CatalogSync)
      → flag "pauseRequested" sync.options ≡ false
      → perform setting marks blocked new_id sync actor_id pause key now store ≡ ok (next, shown)
      → next.tasks ≡ hold_steps sync.id now store.tasks
  unfolding perform conclude
  pause-rows new_id sync actor_id key now store next shown f h =
      sym (ap (λ x. x.0.tasks) (ok-injective (rw f at h)))

  resume-rows :
      (new_id : String) (sync : CatalogSync) (actor_id key : String) (now : ℕ) (store next : Store)
      (shown : CatalogSync)
      → any (live_step sync.id) store.tasks ≡ true
      → perform setting marks blocked new_id sync actor_id resume key now store ≡ ok (next, shown)
      → next.tasks ≡ release_steps sync.id now store.tasks
  unfolding perform conclude
  resume-rows new_id sync actor_id key now store next shown live h =
      let still = live-release sync.id now store.tasks ∙ live in
      sym (ap (λ x. x.0.tasks) (ok-injective (rw still at h)))

  module _ (new_id id actor_id key : String) (now : ℕ) (store next : Store)
      (sync shown : CatalogSync) (fresh : find (is_control actor_id key) store.audits ≡ none)
      (found : find (is_sync id) store.syncs ≡ some sync)
      (unpaused : flag "pauseRequested" sync.options ≡ false)
      (paused : control_catalog_sync setting marks blocked new_id id actor_id pause key now store
        ≡ ok (next, shown)) where
    paused-rows : next.tasks ≡ hold_steps id now store.tasks
    paused-rows =
        let (s, f, e, o, p) =
          control-performs new_id id actor_id pause key now store next shown fresh paused in
        let same : s ≡ sync = ground (arith, f, found) in
        let quiet : flag "pauseRequested" s.options ≡ false = rw same unpaused in
        subst (λ i. next.tasks ≡ hold_steps i now store.tasks) e
          (pause-rows new_id s actor_id key now store next shown quiet p)

    -- Once a pause of a sync, under a new key and with none requested yet, is accepted, the next
    -- acquisition, whatever it is allowed to take, takes a step of the sync only where that step was
    -- running at the pause and its lease has run out by the time of the acquisition: a step that
    -- waited in the queue at the pause is not taken.
    pub pause-claim_selected_task :
        (gates : Gates) (id_before : String → String → Bool) (slots : List Source) (token : String)
        (allowed : Option (List String)) (later : ℕ) (t : Task)
        → (claim_selected_task gates id_before slots token allowed later next.tasks).1 ≡ some t
        → is_step id t ≡ true
        → (u : Task) × In u store.tasks
          × (u.id ≡ t.id)
          × (running_step id u ≡ true)
          × (lapsed slots allowed later u ≡ true)
    unfolding lease take_back is_step
    pause-claim_selected_task gates id_before slots token allowed later t claimed step =
        let rows = paused-rows in
        let claim =
          claim_selected_task-IsClaim gates id_before slots token allowed later
            (hold_steps id now store.tasks) t
            (subst
              (λ ts. (claim_selected_task gates id_before slots token allowed later ts).1 ≡ some t)
              rows claimed) in
        let of_row : is_step id claim.row ≡ true =
          subst (λ x. is_step id x ≡ true) claim.leased_copy step in
        let (u, i, same, over) =
          hold_steps-taken id now later store.tasks gates slots allowed claim.row claim.listed
            claim.was_eligible of_row in
        let mine : is_step id u ≡ true = subst (λ x. is_step id x ≡ true) same of_row in
        let runs = lapsed_running slots allowed later u over in
        (
          u,
          i,
          sym (ap (λ x. x.id) claim.leased_copy ∙ ap (λ x. x.id) same),
          ground (arith, mine, runs),
          over,
        )

    -- A resumption, under another key, of a sync that has a live step gives every row back as it was
    -- before the pause, but for the time of its last change.
    pub resume-pause :
        (new_id' actor_id' key' : String) (later : ℕ) (last : Store) (shown' : CatalogSync)
        → any (live_step id) store.tasks ≡ true
        → All (IsUnheld id) store.tasks
        → find (is_control actor_id' key') next.audits ≡ none
        → control_catalog_sync setting marks blocked new_id' id actor_id' resume key' later next
          ≡ ok (last, shown')
        → map unstamped last.tasks ≡ map unstamped store.tasks
    resume-pause new_id' actor_id' key' later last shown' live tidy fresh' resumed =
        let (s, f, e, o, p) =
          control-performs new_id' id actor_id' resume key' later next last shown' fresh' resumed in
        let rows = paused-rows in
        let still : any (live_step s.id) next.tasks ≡ true =
          rw (e, rows) (live-hold id now store.tasks ∙ live) in
        let after = resume-rows new_id' s actor_id' key' later next last shown' still p in
        rw (after, rows, e) (release-hold id now later store.tasks tidy)
