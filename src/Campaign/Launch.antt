-- ===== src/Campaign/Launch.antt =====
-- `startCatalogCampaign`: a campaign asks for a sync of the whole catalog of each source.
use Prim.Native.String.{◌++◌ as concat}
use universal_race_calendar.Common.{
  ℕ, ◌*◌, false, ◌||◌, not, if◌then◌else◌, ltb, String, str_eq, Option, none, some, List, [], ◌∷◌,
  any, find, text_length, get_or, Result, ok, err, ◌>>=◌, ◌>>◌, throw_if,
}
use universal_race_calendar.Queue.Json.{Json, str, arr, obj, nil, cons, end, stable_json}
use universal_race_calendar.Queue.Task.{Source}
use universal_race_calendar.Queue.Enqueue.{CampaignMark, enqueue_task}
use universal_race_calendar.Queue.Steps.{Setting}
use universal_race_calendar.Pilot.{assert_pilot_task}
use universal_race_calendar.Capacity.{Measured, assert_capacity}
use universal_race_calendar.Capacity.Control.{assured}
use universal_race_calendar.Continuation.{CatalogSync, sync_ready, put_in}
use universal_race_calendar.Continuation.Coordinate.{catalog_checkpoint}
use universal_race_calendar.Campaign.{
  is_terminal, Campaign, CampaignInput, CampaignRequest, Store, sort_states, sources, source_text,
  take_text, request_fields, options_fields, is_campaign, is_running, of_pilot, in_bounds, in_scope,
}

-- `trim` is the runtime's, and `marks` what the database's guard reads of the campaign of a payload.
module _ (setting : Setting) (marks : Json → Option CampaignMark) (trim : String → String) where
  abbrev pub digest : Json → String
  digest v = setting.sha256 (stable_json setting.runtime v)

  unfoldable pub with_defaults : CampaignInput → CampaignRequest
  with_defaults input =
      let defaults = of_pilot setting.pilot in
      record {
        reason = input.reason;
        states = get_or input.states defaults.states;
        batch_size = get_or input.batch_size defaults.batch_size;
        prefix_limit = get_or input.prefix_limit defaults.prefix_limit;
      }

  unfoldable pub normalized : CampaignRequest → CampaignRequest
  unfolding sort_states
  normalized request = record request {
    reason = trim request.reason;
    states = sort_states request.states;
  }

  -- The tests of a request, in front of the transaction.
  unfoldable pub check_request : String → String → CampaignRequest → Result String (Unit {0})
  unfolding in_bounds
  check_request actor_id key request =
      throw_if
        (str_eq actor_id ""
          || (str_eq key ""
              || (ltb 100 (text_length key)
                  || (ltb (text_length (trim request.reason)) 3
                      || (ltb 500 (text_length request.reason) || not (in_bounds request))))))
        "campaign_request_invalid"

  unfoldable pub campaign_id : String → String → String
  unfolding take_text
  campaign_id actor_id key =
      concat "campaign_" (take_text 32 (digest (arr (cons (str actor_id) (cons (str key) nil)))))

  abbrev sync_id : String → Source → String
  sync_id id source = digest (arr (cons (str id) (cons (str (source_text source)) nil)))

  abbrev source_options : CampaignRequest → Source → Json
  source_options request source =
      put_in "source" (str (source_text source)) (obj (options_fields request))

  unfoldable pub new_sync : String → String → CampaignRequest → ℕ → Source → CatalogSync
  new_sync id owner_id request now source = record {
    id = sync_id id source;
    source = source;
    owner_id = owner_id;
    options = source_options request source;
    snapshot = arr nil;
    cursor = 0;
    page = 1;
    status = sync_ready;
    coverage = "not_started";
    updated_at = now;
  }

  unfoldable pub first_payload : String → CampaignRequest → CatalogSync → Json
  unfolding catalog_checkpoint
  first_payload id request sync =
      put_in "checkpointHash" (str (catalog_checkpoint setting marks (λ s. false) sync)) (
        put_in "campaignId" (str id)
          (put_in "syncId" (str sync.id) (source_options request sync.source)))

  abbrev pub step_key : String → Source → String
  step_key id source =
      digest (arr (cons (str "campaign") (cons (str id) (cons (str (source_text source)) nil))))

  -- One round of the loop over the sources: the sync, whose id has to be new, and its first step.
  unfoldable pub add_source :
      (Source → String)
      → String
      → String
      → CampaignRequest
      → ℕ
      → Source
      → Store
      → Result String Store
  unfolding new_sync first_payload
  add_source new_id id owner_id request now source store =
      let sync = new_sync id owner_id request now source in
      let payload = first_payload id request sync in
      do
        throw_if (any (λ s. str_eq s.id sync.id) store.syncs) "unique_constraint"
        (tasks, task) ←
            enqueue_task setting.runtime setting.conversions setting.sha256 setting.pilot
              (marks payload) (new_id source) owner_id (step_key id source) source "catalog-sync"
              payload now store.room.tasks
        ok (record store { syncs = sync ∷ store.syncs; room = record store.room { tasks = tasks } })

  unfoldable pub add_sources :
      (Source → String)
      → String
      → String
      → CampaignRequest
      → ℕ
      → List Source
      → Store
      → Result String Store
  unfolding add_source
  add_sources new_id id owner_id request now [] store = ok store
  add_sources new_id id owner_id request now (source ∷ others) store = do
    next ← add_source new_id id owner_id request now source store
    add_sources new_id id owner_id request now others next

  unfoldable pub new_campaign : String → String → CampaignRequest → ℕ → Campaign
  new_campaign id owner_id request now = record {
    id = id;
    owner_id = owner_id;
    request_hash = digest (obj (request_fields request end));
    status = "discovery";
    pause_requested = false;
    options = obj (options_fields request);
    source_syncs = syncs_of sources;
    reconciliation_id = none;
    created_at = now;
    finished_at = none;
  }
    where
      syncs_of : List Source → List (Source × String)
      syncs_of [] = []
      syncs_of (source ∷ others) = (source, sync_id id source) ∷ syncs_of others

  -- The transaction, with the campaign that has the id already, if any.
  unfoldable pub start_found :
      (Source → String)
      → String
      → String
      → CampaignRequest
      → ℕ
      → Measured
      → Store
      → Option Campaign
      → Result String (Store × Campaign)
  unfolding add_sources new_campaign
  start_found new_id id owner_id request now measured store (some prior) =
      if not (str_eq prior.request_hash (digest (obj (request_fields request end))))
      then err "idempotency_conflict"
      else ok (store, prior)
  start_found new_id id owner_id request now measured store none = do
    throw_if (any is_running store.campaigns) "campaign_active"
    throw_if (any (λ status. not (is_terminal status)) store.occurrences) "campaign_scope_in_use"
    room ← assured (assert_capacity (4 * 65536) now measured store.room)
    next ← add_sources new_id id owner_id request now sources (record store { room = room })
    ok (
      record next {
        campaigns = new_campaign id owner_id request now ∷ next.campaigns;
        audits =
            record { actor_id = owner_id; campaign_id = id; reason = request.reason } ∷ next.audits;
      },
      new_campaign id owner_id request now,
    )

  unfoldable pub start_catalog_campaign :
      (Source → String)
      → String
      → String
      → CampaignInput
      → ℕ
      → Measured
      → Store
      → Result String (Store × Campaign)
  unfolding with_defaults normalized campaign_id check_request start_found
  start_catalog_campaign new_id actor_id key input now measured store =
      let request = normalized (with_defaults input) in
      let id = campaign_id actor_id key in
      do
        check_request actor_id key (with_defaults input)
        in_scope (
            assert_pilot_task setting.conversions setting.pilot "catalog-sync"
              (obj (request_fields request end)))
        start_found new_id id actor_id request now measured store
            (find (is_campaign id) store.campaigns)
