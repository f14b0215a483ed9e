-- ===== src/Campaign/Slot.antt =====
-- The starts and controls of campaigns as calls of the slot.
use universal_race_calendar.Common.{
  ℕ, ◌≡◌, refl, ◌∙◌, ap, subst, inl, inr, true, String, str_eq, eq_iff, Option, none, some, List,
  [], ◌∷◌, find, ok, ok-injective, >>=-eq-ok, >>-eq-ok, Bool-cases, Option-cases,
}
use universal_race_calendar.Queue.Json.{Json}
use universal_race_calendar.Queue.Task.{Source}
use universal_race_calendar.Queue.Enqueue.{CampaignMark}
use universal_race_calendar.Queue.Steps.{Setting}
use universal_race_calendar.Capacity.{Measured}
use universal_race_calendar.Continuation.Pause.{find_sound}
use universal_race_calendar.Campaign.{Campaign, CampaignInput, Store, is_running, is_campaign}
use universal_race_calendar.Campaign.Launch.{
  normalized, with_defaults, campaign_id, new_campaign, start_catalog_campaign,
}
use universal_race_calendar.Campaign.Start.{
  start_catalog_campaign-IsStarted, start_catalog_campaign-found, start_found-prior,
}
use universal_race_calendar.Campaign.Control.{ControlAction, ControlEntry, State, updated_campaign}
use universal_race_calendar.Campaign.Transaction.{
  is_control, check_control, check_run, check_resumed, control_work, request_hash, conclude,
  control_run, answer, control_catalog_campaign,
}
use universal_race_calendar.Campaign.Single.{
  IsSingle, find-In, CampaignStep, starts, controls, CampaignReach, begins, then_step,
  CampaignReach-IsSingle,
}
use universal_race_calendar.Campaign.SlotRows.{
  slot, SlotCall, repeat, start, control, slot_step, slot_run, slot-none, slot-head,
  updated-slot_step,
}

module _ (setting : Setting) (marks : Json → Option CampaignMark) (trim : String → String) where
  -- Whether a request is a repeated one: its campaign, or the entry of its key, is there already.
  abbrev start_call : (id : String) → Option Campaign → SlotCall
  start_call id none = start id
  start_call id (some prior) = repeat

  abbrev control_call : ControlAction → String → Option ControlEntry → SlotCall
  control_call action id none = control action id
  control_call action id (some prior) = repeat

  abbrev pub call_of : {a b : State} → CampaignStep setting marks trim a b → SlotCall
  call_of (starts new_id owner_id key input now measured s store run h) =
      let id = campaign_id setting marks trim owner_id key in
      start_call id (find (is_campaign id) s.store.campaigns)
  call_of (controls new_id actor_id key id action reason now measured s next shown h) =
      control_call action id (find (is_control actor_id key) s.controls)

  abbrev pub calls_of : {a b : State} → CampaignReach setting marks trim a b → List SlotCall
  calls_of begins = []
  calls_of (then_step r step) = call_of step ∷ calls_of r

  control_run-slot_step :
      (new_id : String → String) (actor_id key id : String) (action : ControlAction)
      (reason : String) (now : ℕ) (measured : Measured) (s next : State) (shown : Campaign)
      (o : Option Campaign)
      → find (is_campaign id) s.store.campaigns ≡ o
      → control_run setting marks trim new_id actor_id key action reason now measured s o
        ≡ ok (next, shown)
      → IsSingle s.store.campaigns
      → slot_step (control action id) (slot s.store.campaigns) ≡ some (slot next.store.campaigns)
  unfolding control_run conclude updated_campaign
  control_run-slot_step new_id actor_id key id action reason now measured s next shown none f h
        single =
      absurd cc
  control_run-slot_step new_id actor_id key id action reason now measured s next shown (some run) f
        h single =
      let (checked, h1) = >>-eq-ok (check_run action run s.store.campaigns) _ h in
      let (room, e, h2) = >>=-eq-ok (check_resumed action now measured s.store.room) _ h1 in
      let (work, g, h3) =
        >>=-eq-ok
          (control_work setting marks trim new_id action run.id key run now (record {
            tasks = room.tasks;
            syncs = s.store.syncs;
            reconciliations = s.reconciliations;
          }))
          _ h2 in
      let named = (eq_iff run.id id).0 (find_sound (is_campaign id) s.store.campaigns run f) in
      subst
        (λ i.
          slot_step (control action i) (slot s.store.campaigns) ≡ some (slot next.store.campaigns))
        named
        (updated-slot_step action _ now run s.store.campaigns
            (find-In (is_campaign id) s.store.campaigns run f) single checked
          ∙ ap (λ (x : State × Campaign). some (slot x.0.store.campaigns)) (ok-injective h3))

  answer-slot_step :
      (new_id : String → String) (actor_id key id : String) (action : ControlAction)
      (reason : String) (now : ℕ) (measured : Measured) (s next : State) (shown : Campaign)
      (o : Option ControlEntry)
      → answer setting marks trim new_id actor_id key id action reason now measured s o
        ≡ ok (next, shown)
      → IsSingle s.store.campaigns
      → slot_step (control_call action id o) (slot s.store.campaigns)
        ≡ some (slot next.store.campaigns)
  unfolding answer
  answer-slot_step new_id actor_id key id action reason now measured s next shown none h single =
      control_run-slot_step new_id actor_id key id action reason now measured s next shown
        (find (is_campaign id) s.store.campaigns) refl h single
  answer-slot_step new_id actor_id key id action reason now measured s next shown (some prior) h
        single =
      elim (Bool-cases
        (str_eq prior.request_hash (request_hash setting marks trim new_id id action reason))) [
          | inr n ↦ absurd (let q = rw n at h in cc)
          | inl y ↦
              ap (λ (x : State × Campaign). some (slot x.0.store.campaigns))
                (ok-injective (rw y at h))
        ]

  start-slot_step :
      (new_id : Source → String) (owner_id key : String) (input : CampaignInput) (now : ℕ)
      (measured : Measured) (store next : Store) (run : Campaign)
      → start_catalog_campaign setting marks trim new_id owner_id key input now measured store
        ≡ ok (next, run)
      → slot_step
          (start_call
            (campaign_id setting marks trim owner_id key)
            (find (is_campaign (campaign_id setting marks trim owner_id key)) store.campaigns))
          (slot store.campaigns)
        ≡ some (slot next.campaigns)
  unfolding new_campaign
  start-slot_step new_id owner_id key input now measured store next run h =
      elim (Option-cases
        (find (is_campaign (campaign_id setting marks trim owner_id key)) store.campaigns)) [
          | inl fresh ↦
              let started =
                start_catalog_campaign-IsStarted setting marks trim new_id owner_id key input now
                  measured store next run fresh h in
              let free = slot-none store.campaigns started.none_runs in
              let alive : is_running run ≡ true = rw started.is_new refl in
              let named : run.id ≡ campaign_id setting marks trim owner_id key =
                rw started.is_new refl in
              let taken : slot next.campaigns ≡ some run.id =
                ap slot started.is_listed ∙ slot-head run store.campaigns alive in
              rw (fresh, free, taken, named) refl
          | inr (prior, found) ↦
              let (valid, piloted, same) =
                start_catalog_campaign-found setting marks trim new_id owner_id key input now
                  measured store next run h in
              let (q, r) =
                start_found-prior setting marks trim new_id
                  (campaign_id setting marks trim owner_id key) owner_id
                  (normalized setting marks trim (with_defaults setting marks trim input)) now
                  measured store next prior run (rw found at same) in
              rw (found, q) refl
        ]

  CampaignStep-slot_step :
      {a b : State} (step : CampaignStep setting marks trim a b)
      → IsSingle a.store.campaigns
      → slot_step (call_of step) (slot a.store.campaigns) ≡ some (slot b.store.campaigns)
  unfolding control_catalog_campaign
  CampaignStep-slot_step (starts new_id owner_id key input now measured s store run h) single =
      start-slot_step new_id owner_id key input now measured s.store store run h
  CampaignStep-slot_step (controls new_id actor_id key id action reason now measured s next shown h)
        single =
      let (valid, h1) = >>-eq-ok (check_control trim actor_id key reason) _ h in
      answer-slot_step new_id actor_id key id action reason now measured s next shown
        (find (is_control actor_id key) s.controls) h1 single

  -- The starts and controls of campaigns implement the slot of the specification, if a single campaign
  -- runs at first. Any sequence of them that succeed, read as calls of the slot, is accepted by the
  -- specification from the id of the campaign that runs at first, and leads it to the id of the one
  -- that runs in the end: a repeated request changes nothing, a start takes a free slot for its own
  -- campaign, a pause, a resumption or a cancellation is of the campaign that has the slot, or is the
  -- resumption of one that takes a free slot, and a cancellation leaves the slot free.
  pub CampaignReach-slot_run :
      {a b : State} (r : CampaignReach setting marks trim a b)
      → IsSingle a.store.campaigns
      → slot_run (calls_of r) (slot a.store.campaigns) ≡ some (slot b.store.campaigns)
  CampaignReach-slot_run begins single = refl
  CampaignReach-slot_run (then_step r step) single =
      let so_far = CampaignReach-slot_run r single in
      rw so_far (CampaignStep-slot_step step (CampaignReach-IsSingle setting marks trim r single))
