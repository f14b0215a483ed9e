-- ===== src/Campaign/Single.antt =====
-- However campaigns are started, paused, resumed and ended, a single one runs.
use universal_race_calendar.Common.{
  ℕ, ◌≡◌, refl, sym, ◌∙◌, ap, subst, ◌⊎◌, inl, inr, Bool, true, false, ◌&&◌, not, String, str_eq,
  eq_iff, Option, none, some, List, [], ◌∷◌, any, any_complete, find, In, ok, throw_if,
  ok-injective, >>=-eq-ok, >>-eq-ok, throw_if-eq-ok, Bool-cases, Option-cases, arith,
}
use universal_race_calendar.Queue.Json.{Json}
use universal_race_calendar.Queue.Task.{Source}
use universal_race_calendar.Queue.Enqueue.{CampaignMark}
use universal_race_calendar.Queue.Steps.{Setting}
use universal_race_calendar.Capacity.{Measured}
use universal_race_calendar.Campaign.{
  Campaign, CampaignInput, Store, is_terminal, is_running, is_campaign,
}
use universal_race_calendar.Campaign.Launch.{
  normalized, with_defaults, campaign_id, start_catalog_campaign,
}
use universal_race_calendar.Campaign.Start.{
  start_catalog_campaign-IsStarted, start_catalog_campaign-found, start_found-prior,
}
use universal_race_calendar.Campaign.Control.{
  ControlAction, ControlEntry, State, updated_campaign, set_campaign,
}
use universal_race_calendar.Campaign.Transaction.{
  is_control, is_retry, check_control, check_run, check_resumed, control_work, request_hash,
  conclude, control_run, answer, control_catalog_campaign,
}

-- Ids are the key of the table, so that this is one campaign.
abbrev pub IsSingle : List Campaign → Type 0
IsSingle runs =
    (a b : Campaign)
    → In a runs
    → In b runs
    → is_running a ≡ true
    → is_running b ≡ true
    → a.id ≡ b.id

pub find-In : {A : Type 0} (p : A → Bool) (xs : List A) (x : A) → find p xs ≡ some x → In x xs
find-In p [] x h = absurd cc
find-In p (y ∷ ys) x h = elim (Bool-cases (p y)) [
  | inl e ↦ inl (let q : some y ≡ some x = rw e at h in cc)
  | inr n ↦ inr (find-In p ys x (rw n at h))
]

-- A row of the table behind an update was there before, or is the one that was updated.
set_campaign-In :
    (id : String) (u : Campaign) (runs : List Campaign) (a : Campaign)
    → u.id ≡ id
    → In a (set_campaign id (λ r. u) runs)
    → (a.id ≡ id) ⊎ (In a runs × (str_eq a.id id ≡ false))
set_campaign-In id u [] a e i = absurd i
set_campaign-In id u (r ∷ runs) a e (inr i) = elim (set_campaign-In id u runs a e i) [
  | inl own ↦ inl own
  | inr (there, other) ↦ inr (inr there, other)
]
set_campaign-In id u (r ∷ runs) a e (inl h) = elim (Bool-cases (str_eq r.id id)) [
  | inl y ↦ let q : a ≡ u = rw y at h in inl (ap (λ (x : Campaign). x.id) q ∙ e)
  | inr n ↦
      let q : a ≡ r = rw n at h in
      inr (inl q, subst (λ (x : Campaign). str_eq x.id id ≡ false) (sym q) n)
]

-- The rows that run beside the one that is controlled.
pub others-none :
    (action : ControlAction) (run : Campaign) (runs : List Campaign)
    → In run runs
    → IsSingle runs
    → check_run action run runs ≡ ok tt
    → (a : Campaign) → In a runs
    → str_eq a.id run.id ≡ false
    → is_running a ≡ false
unfolding check_run
others-none action run runs here single h a i other =
    let (first, second) =
      >>-eq-ok (throw_if (is_terminal run.status && not (is_retry action run)) "campaign_finished")
        _ h in
    let alive =
      throw_if-eq-ok (is_terminal run.status && not (is_retry action run)) "campaign_finished"
        first in
    let alone =
      throw_if-eq-ok
        (is_retry action run && any (λ r. not (str_eq r.id run.id) && is_running r) runs)
        "campaign_active" second in
    elim (Bool-cases (is_running a)) [
      | inr n ↦ n
      | inl y ↦ elim (Bool-cases (is_terminal run.status)) [
        | inr n ↦
            let same : a.id ≡ run.id = single a run i here y (ground (arith, n)) in
            absurd (let q = (eq_iff a.id run.id).1 same in ground (arith, q, other))
        | inl over ↦
            let found =
              any_complete (λ r. not (str_eq r.id run.id) && is_running r) runs i
                (ground (arith, other, y)) in
            absurd (ground (arith, alive, over, alone, found))
      ]
    ]

pub set_campaign-IsSingle :
    (action : ControlAction) (run u : Campaign) (runs : List Campaign)
    → u.id ≡ run.id
    → In run runs
    → IsSingle runs
    → check_run action run runs ≡ ok tt
    → IsSingle (set_campaign run.id (λ r. u) runs)
set_campaign-IsSingle action run u runs e here single h a b i j x y =
    elim (set_campaign-In run.id u runs a e i) [
      | inr (there, other) ↦
          absurd (
            let q = others-none action run runs here single h a there other in ground (arith, q, x))
      | inl own ↦ elim (set_campaign-In run.id u runs b e j) [
        | inr (there, other) ↦ absurd (
            let q = others-none action run runs here single h b there other in ground (arith, q, y))
        | inl own' ↦ own ∙ sym own'
      ]
    ]

alone-IsSingle :
    (run : Campaign) (runs : List Campaign) → any is_running runs ≡ false → IsSingle (run ∷ runs)
alone-IsSingle run runs none_runs a b (inl p) (inl q) x y = ap (λ (r : Campaign). r.id) (p ∙ sym q)
alone-IsSingle run runs none_runs a b (inr i) j x y =
    absurd (let q = any_complete is_running runs i x in ground (arith, q, none_runs))
alone-IsSingle run runs none_runs a b (inl p) (inr j) x y =
    absurd (let q = any_complete is_running runs j y in ground (arith, q, none_runs))

module _ (setting : Setting) (marks : Json → Option CampaignMark) (trim : String → String) where
  pub start-IsSingle :
      (new_id : Source → String) (owner_id key : String) (input : CampaignInput) (now : ℕ)
      (measured : Measured) (store next : Store) (run : Campaign)
      → start_catalog_campaign setting marks trim new_id owner_id key input now measured store
        ≡ ok (next, run)
      → IsSingle store.campaigns
      → IsSingle next.campaigns
  start-IsSingle new_id owner_id key input now measured store next run h single =
      elim (Option-cases
        (find (is_campaign (campaign_id setting marks trim owner_id key)) store.campaigns)) [
          | inl fresh ↦
              let started =
                start_catalog_campaign-IsStarted setting marks trim new_id owner_id key input now
                  measured store next run fresh h in
              subst IsSingle (sym started.is_listed)
                (alone-IsSingle run store.campaigns started.none_runs)
          | inr (prior, found) ↦
              let (valid, piloted, same) =
                start_catalog_campaign-found setting marks trim new_id owner_id key input now
                  measured store next run h in
              let (q, r) =
                start_found-prior setting marks trim new_id
                  (campaign_id setting marks trim owner_id key) owner_id
                  (normalized setting marks trim (with_defaults setting marks trim input)) now
                  measured store next prior run (rw found at same) in
              subst (λ (s : Store). IsSingle s.campaigns) (sym q) single
        ]

  control_run-IsSingle :
      (new_id : String → String) (actor_id key id : String) (action : ControlAction)
      (reason : String) (now : ℕ) (measured : Measured) (s next : State) (shown : Campaign)
      (o : Option Campaign)
      → find (is_campaign id) s.store.campaigns ≡ o
      → control_run setting marks trim new_id actor_id key action reason now measured s o
        ≡ ok (next, shown)
      → IsSingle s.store.campaigns
      → IsSingle next.store.campaigns
  unfolding control_run conclude updated_campaign
  control_run-IsSingle new_id actor_id key id action reason now measured s next shown none f h
        single =
      absurd cc
  control_run-IsSingle new_id actor_id key id action reason now measured s next shown (some run) f h
        single =
      let (checked, h1) = >>-eq-ok (check_run action run s.store.campaigns) _ h in
      let (room, e, h2) = >>=-eq-ok (check_resumed action now measured s.store.room) _ h1 in
      let (work, g, h3) =
        >>=-eq-ok
          (control_work setting marks trim new_id action run.id key run now (record {
            tasks = room.tasks;
            syncs = s.store.syncs;
            reconciliations = s.reconciliations;
          }))
          _ h2 in
      subst (λ (x : State × Campaign). IsSingle x.0.store.campaigns) (ok-injective h3)
        (set_campaign-IsSingle action run _ s.store.campaigns refl
          (find-In (is_campaign id) s.store.campaigns run f) single checked)

  answer-IsSingle :
      (new_id : String → String) (actor_id key id : String) (action : ControlAction)
      (reason : String) (now : ℕ) (measured : Measured) (s next : State) (shown : Campaign)
      (o : Option ControlEntry)
      → answer setting marks trim new_id actor_id key id action reason now measured s o
        ≡ ok (next, shown)
      → IsSingle s.store.campaigns
      → IsSingle next.store.campaigns
  unfolding answer
  answer-IsSingle new_id actor_id key id action reason now measured s next shown none h single =
      control_run-IsSingle new_id actor_id key id action reason now measured s next shown
        (find (is_campaign id) s.store.campaigns) refl h single
  answer-IsSingle new_id actor_id key id action reason now measured s next shown (some prior) h
        single =
      elim (Bool-cases
        (str_eq prior.request_hash (request_hash setting marks trim new_id id action reason))) [
          | inr n ↦ absurd (let q = rw n at h in cc)
          | inl y ↦
              subst (λ (x : State × Campaign). IsSingle x.0.store.campaigns)
                (ok-injective (rw y at h)) single
        ]

  -- A start or a control that succeeds; what fails changes nothing.
  pub data CampaignStep : State → State → Type 0 where
    starts :
        (new_id : Source → String) (owner_id key : String) (input : CampaignInput) (now : ℕ)
        (measured : Measured) (s : State) (store : Store) (run : Campaign)
        → start_catalog_campaign setting marks trim new_id owner_id key input now measured s.store
          ≡ ok (store, run)
        → CampaignStep s (record s { store = store })
    controls :
        (new_id : String → String) (actor_id key id : String) (action : ControlAction)
        (reason : String) (now : ℕ) (measured : Measured) (s next : State) (shown : Campaign)
        → control_catalog_campaign setting marks trim new_id actor_id key id action reason now
            measured s
          ≡ ok (next, shown)
        → CampaignStep s next

  pub data CampaignReach (s : State) : State → Type 0 where
    begins : CampaignReach s s
    then_step : {a b : State} → CampaignReach s a → CampaignStep a b → CampaignReach s b

  CampaignStep-IsSingle :
      {a b : State} → CampaignStep a b → IsSingle a.store.campaigns → IsSingle b.store.campaigns
  unfolding control_catalog_campaign
  CampaignStep-IsSingle (starts new_id owner_id key input now measured s store run h) single =
      start-IsSingle new_id owner_id key input now measured s.store store run h single
  CampaignStep-IsSingle (controls new_id actor_id key id action reason now measured s next shown h)
        single =
      let (valid, h1) = >>-eq-ok (check_control trim actor_id key reason) _ h in
      answer-IsSingle new_id actor_id key id action reason now measured s next shown
        (find (is_control actor_id key) s.controls) h1 single

  -- However often administrators start, pause, resume and end campaigns, partial ones that are tried
  -- again included, any two rows of campaigns that are not ended are of the same id, if they were at
  -- first.
  pub CampaignReach-IsSingle :
      {a b : State} → CampaignReach a b → IsSingle a.store.campaigns → IsSingle b.store.campaigns
  CampaignReach-IsSingle begins single = single
  CampaignReach-IsSingle (then_step r step) single =
      CampaignStep-IsSingle step (CampaignReach-IsSingle r single)
