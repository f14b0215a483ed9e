-- ===== src/Campaign/Start.antt =====
-- What a start of a campaign does.
use universal_race_calendar.Common.{
  ℕ, ◌*◌, ◌≡◌, sym, ◌∙◌, ap, inl, inr, true, false, not, String, str_eq, Option, none, some, ◌∷◌,
  any, find, ok, throw_if, ok-injective, >>=-eq-ok, >>-eq-ok, throw_if-eq-ok, Bool-cases, arith,
}
use universal_race_calendar.Queue.Json.{Json, obj, end}
use universal_race_calendar.Queue.Task.{Source, ticketsports, corridasbr, openresults}
use universal_race_calendar.Queue.Enqueue.{CampaignMark, enqueue_task}
use universal_race_calendar.Queue.Steps.{Setting}
use universal_race_calendar.Pilot.{assert_pilot_task}
use universal_race_calendar.Capacity.{Measured, assert_capacity}
use universal_race_calendar.Capacity.Control.{assured}
use universal_race_calendar.Capacity.Fresh.{DatabaseRoom}
use universal_race_calendar.Capacity.Release.{assured-room}
use universal_race_calendar.Campaign.{
  Campaign, CampaignInput, CampaignRequest, Store, is_terminal, is_running, is_campaign, in_bounds,
  in_scope, sources, request_fields,
}
use universal_race_calendar.Campaign.Launch.{
  check_request, digest, with_defaults, normalized, campaign_id, new_sync, add_source, add_sources,
  new_campaign, start_found, start_catalog_campaign,
}

module _ (setting : Setting) (marks : Json → Option CampaignMark) (trim : String → String)
    (new_id : Source → String) where
  add_source-syncs :
      (id owner_id : String) (request : CampaignRequest) (now : ℕ) (source : Source)
      (store next : Store)
      → add_source setting marks trim new_id id owner_id request now source store ≡ ok next
      → (next.syncs ≡ new_sync setting marks trim id owner_id request now source ∷ store.syncs)
        × (next.campaigns ≡ store.campaigns)
  unfolding add_source
  add_source-syncs id owner_id request now source store next h =
      let (unused, h1) = >>-eq-ok (throw_if _ "unique_constraint") _ h in
      let ((tasks, task), e, h2) = >>=-eq-ok (enqueue_task _ _ _ _ _ _ _ _ _ _ _ _ _) _ h1 in
      let q = ok-injective h2 in
      (sym (ap (λ (s : Store). s.syncs) q), sym (ap (λ (s : Store). s.campaigns) q))

  -- What holds when a new campaign has been started.
  pub record IsStarted (owner_id key : String) (input : CampaignInput) (now : ℕ)
      (measured : Measured) (store next : Store) (run : Campaign) : Type 0 where
    pub scope : in_bounds (with_defaults setting marks trim input) ≡ true
    pub none_runs : any is_running store.campaigns ≡ false
    pub none_scheduled : any (λ status. not (is_terminal status)) store.occurrences ≡ false
    pub room : DatabaseRoom measured (4 * 65536) store.room
    pub is_new :
        run
        ≡ new_campaign setting marks trim
            (campaign_id setting marks trim owner_id key)
            owner_id
            (normalized setting marks trim (with_defaults setting marks trim input))
            now
    pub is_listed : next.campaigns ≡ run ∷ store.campaigns
    pub has_syncs :
        next.syncs
        ≡ new_sync setting marks trim
            (campaign_id setting marks trim owner_id key)
            owner_id
            (normalized setting marks trim (with_defaults setting marks trim input))
            now
            openresults
          ∷ new_sync setting marks trim
              (campaign_id setting marks trim owner_id key)
              owner_id
              (normalized setting marks trim (with_defaults setting marks trim input))
              now
              corridasbr
          ∷ new_sync setting marks trim
              (campaign_id setting marks trim owner_id key)
              owner_id
              (normalized setting marks trim (with_defaults setting marks trim input))
              now
              ticketsports
          ∷ store.syncs

  add_sources-syncs :
      (id owner_id : String) (request : CampaignRequest) (now : ℕ) (store next : Store)
      → add_sources setting marks trim new_id id owner_id request now sources store ≡ ok next
      → (next.syncs
          ≡ new_sync setting marks trim id owner_id request now openresults
            ∷ new_sync setting marks trim id owner_id request now corridasbr
            ∷ new_sync setting marks trim id owner_id request now ticketsports
            ∷ store.syncs)
        × (next.campaigns ≡ store.campaigns)
  unfolding add_sources
  add_sources-syncs id owner_id request now store next h =
      let (a, e, h1) =
        >>=-eq-ok (add_source setting marks trim new_id id owner_id request now ticketsports store)
          _ h in
      let (b, f, h2) =
        >>=-eq-ok (add_source setting marks trim new_id id owner_id request now corridasbr a) _
          h1 in
      let (c, g, h3) =
        >>=-eq-ok (add_source setting marks trim new_id id owner_id request now openresults b) _
          h2 in
      let (first, runs) = add_source-syncs id owner_id request now ticketsports store a e in
      let (second, runs') = add_source-syncs id owner_id request now corridasbr a b f in
      let (third, runs'') = add_source-syncs id owner_id request now openresults b c g in
      let last = ok-injective h3 in
      (
        sym (ap (λ (s : Store). s.syncs) last)
            ∙ third
            ∙ ap (λ ss. new_sync setting marks trim id owner_id request now openresults ∷ ss)
                (second
                  ∙ ap (λ ss. new_sync setting marks trim id owner_id request now corridasbr ∷ ss)
                      first),
        sym (ap (λ (s : Store). s.campaigns) last) ∙ runs'' ∙ runs' ∙ runs,
      )

  start_found-IsStarted :
      (owner_id key : String) (input : CampaignInput) (now : ℕ) (measured : Measured)
      (store next : Store) (run : Campaign)
      → in_bounds (with_defaults setting marks trim input) ≡ true
      → start_found setting marks trim new_id
          (campaign_id setting marks trim owner_id key)
          owner_id
          (normalized setting marks trim (with_defaults setting marks trim input))
          now
          measured
          store
          none
        ≡ ok (next, run)
      → IsStarted owner_id key input now measured store next run
  unfolding start_found new_campaign
  start_found-IsStarted owner_id key input now measured store next run scope h =
      let id = campaign_id setting marks trim owner_id key in
      let request = normalized setting marks trim (with_defaults setting marks trim input) in
      let (idle, h1) = >>-eq-ok (throw_if (any is_running store.campaigns) "campaign_active") _ h in
      let (free, h2) =
        >>-eq-ok
          (throw_if (any (λ status. not (is_terminal status)) store.occurrences)
            "campaign_scope_in_use")
          _ h1 in
      let (room, fits, h3) =
        >>=-eq-ok (assured (assert_capacity (4 * 65536) now measured store.room)) _ h2 in
      let (added, e, h4) =
        >>=-eq-ok
          (add_sources setting marks trim new_id id owner_id request now sources
            (record store { room = room }))
          _ h3 in
      let (syncs, runs) =
        add_sources-syncs id owner_id request now (record store { room = room }) added e in
      let q = ok-injective h4 in
      let is_new : run ≡ new_campaign setting marks trim id owner_id request now =
        sym (ap (λ x. x.1) q) in
      record {
        scope = scope;
        none_runs = throw_if-eq-ok (any is_running store.campaigns) "campaign_active" idle;
        none_scheduled =
            throw_if-eq-ok (any (λ status. not (is_terminal status)) store.occurrences)
              "campaign_scope_in_use" free;
        room = (assured-room (4 * 65536) now measured store.room room fits).0;
        is_new = is_new;
        is_listed =
            sym (ap (λ x. x.0.campaigns) q)
            ∙ ap (λ rs. new_campaign setting marks trim id owner_id request now ∷ rs) runs
            ∙ ap (λ r. r ∷ store.campaigns) (sym is_new);
        has_syncs = sym (ap (λ x. x.0.syncs) q) ∙ syncs;
      }

  -- What a start that succeeds went through, with the campaign of its id that is there already, if any.
  pub start_catalog_campaign-found :
      (owner_id key : String) (input : CampaignInput) (now : ℕ) (measured : Measured)
      (store next : Store) (run : Campaign)
      → start_catalog_campaign setting marks trim new_id owner_id key input now measured store
        ≡ ok (next, run)
      → (check_request setting marks trim owner_id key (with_defaults setting marks trim input)
          ≡ ok tt)
        × (in_scope (
              assert_pilot_task setting.conversions setting.pilot "catalog-sync" (
                obj (
                  request_fields
                    (normalized setting marks trim (with_defaults setting marks trim input))
                    end)))
            ≡ ok tt)
        × (start_found setting marks trim new_id
              (campaign_id setting marks trim owner_id key)
              owner_id
              (normalized setting marks trim (with_defaults setting marks trim input))
              now
              measured
              store
              (find (is_campaign (campaign_id setting marks trim owner_id key)) store.campaigns)
            ≡ ok (next, run))
  unfolding start_catalog_campaign
  start_catalog_campaign-found owner_id key input now measured store next run h =
      let (valid, h1) =
        >>-eq-ok
          (check_request setting marks trim owner_id key (with_defaults setting marks trim input)) _
          h in
      let (piloted, h2) =
        >>-eq-ok
          (in_scope (
            assert_pilot_task setting.conversions setting.pilot "catalog-sync" (
              obj (
                request_fields
                  (normalized setting marks trim (with_defaults setting marks trim input)) end))))
          _ h1 in
      (valid, piloted, h2)

  check_request-in_bounds :
      (owner_id key : String) (request : CampaignRequest)
      → check_request setting marks trim owner_id key request ≡ ok tt
      → in_bounds request ≡ true
  unfolding check_request
  check_request-in_bounds owner_id key request h =
      let refused = throw_if-eq-ok _ "campaign_request_invalid" h in ground (arith, refused)

  -- A start under a key that no campaign has, if it succeeds, begins one campaign: its scope is in
  -- bounds, no other campaign runs and no weekly occurrence is due, the database has room for its
  -- headroom and 256 KiB, and the campaign comes with one new sync of each of the three sources.
  pub start_catalog_campaign-IsStarted :
      (owner_id key : String) (input : CampaignInput) (now : ℕ) (measured : Measured)
      (store next : Store) (run : Campaign)
      → find (is_campaign (campaign_id setting marks trim owner_id key)) store.campaigns ≡ none
      → start_catalog_campaign setting marks trim new_id owner_id key input now measured store
        ≡ ok (next, run)
      → IsStarted owner_id key input now measured store next run
  start_catalog_campaign-IsStarted owner_id key input now measured store next run fresh h =
      let (valid, piloted, started) =
        start_catalog_campaign-found owner_id key input now measured store next run h in
      start_found-IsStarted owner_id key input now measured store next run
        (check_request-in_bounds owner_id key (with_defaults setting marks trim input) valid)
        (rw fresh at started)

  pub start_found-prior :
      (id owner_id : String) (request : CampaignRequest) (now : ℕ) (measured : Measured)
      (store next : Store) (prior run : Campaign)
      → start_found setting marks trim new_id id owner_id request now measured store (some prior)
        ≡ ok (next, run)
      → (next ≡ store) × (run ≡ prior)
  unfolding start_found
  start_found-prior id owner_id request now measured store next prior run h =
      elim (Bool-cases (
        str_eq prior.request_hash (digest setting marks trim (obj (request_fields request end))))) [
          | inr n ↦ absurd (let q = rw n at h in cc)
          | inl y ↦
              let q = ok-injective (rw y at h) in (sym (ap (λ x. x.0) q), sym (ap (λ x. x.1) q))
        ]
