-- ===== src/Campaign/Begin.antt =====
-- What a start of a campaign leaves: the campaign, its three syncs and the first step of each.
use universal_race_calendar.Common.{
  ℕ, ◌*◌, ◌≤◌, ◌≡◌, length, false, not, String, Option, none, [], ◌∷◌, any,
}
use universal_race_calendar.Queue.Json.{Json}
use universal_race_calendar.Queue.Task.{Source, Task, ticketsports, corridasbr, openresults}
use universal_race_calendar.Queue.Enqueue.{CampaignMark}
use universal_race_calendar.Queue.Steps.{Setting}
use universal_race_calendar.Capacity.{Store as Room, Measured}
use universal_race_calendar.Capacity.Fresh.{DatabaseRoom}
use universal_race_calendar.Continuation.{CatalogSync}
use universal_race_calendar.Campaign.{
  Campaign, CampaignInput, CampaignRequest, Store, is_terminal, is_running,
}
use universal_race_calendar.Campaign.Launch.{with_defaults, normalized, campaign_id, step_key}
use universal_race_calendar.Campaign.FirstSteps.{IsNewSync, IsFirstStep}

module _ (setting : Setting) (marks : Json → Option CampaignMark) (trim : String → String) where
  -- What holds when a campaign has been started: it is in its first phase, nothing else was running or
  -- due, there was room for it, and it has a new sync of each source with the first step of it.
  pub record Begins (owner_id id : String) (request : CampaignRequest) (measured : Measured)
      (store next : Store) (run : Campaign) : Type 0 where
    pub born : (run.id ≡ id) × (run.owner_id ≡ owner_id) × (run.status ≡ "discovery")
    pub undisturbed : (run.pause_requested ≡ false) × (run.finished_at ≡ none)
    pub listed : next.campaigns ≡ run ∷ store.campaigns
    pub none_runs : any is_running store.campaigns ≡ false
    pub none_scheduled : any (λ status. not (is_terminal status)) store.occurrences ≡ false
    pub room : DatabaseRoom measured (4 * 65536) store.room
    pub first : CatalogSync
    pub second : CatalogSync
    pub third : CatalogSync
    pub syncs : next.syncs ≡ third ∷ second ∷ first ∷ store.syncs
    pub states_asked : 1 ≤ length request.states
    pub bounds :
        (1 ≤ request.batch_size)
        × (request.batch_size ≤ 25)
        × (25 ≤ request.prefix_limit)
        × (request.prefix_limit ≤ 10000)
    pub named :
        run.source_syncs
        ≡ (ticketsports, first.id) ∷ (corridasbr, second.id) ∷ (openresults, third.id) ∷ []
    pub are_new :
        IsNewSync owner_id ticketsports first
        × IsNewSync owner_id corridasbr second
        × IsNewSync owner_id openresults third
    pub t : Task
    pub u : Task
    pub v : Task
    pub tasks : next.room.tasks ≡ v ∷ u ∷ t ∷ store.room.tasks
    pub are_first :
        IsFirstStep setting marks trim id first t
        × IsFirstStep setting marks trim id second u
        × IsFirstStep setting marks trim id third v

  module _ (new_id : Source → String) (owner_id key : String) (input : CampaignInput) (now : ℕ)
      (measured : Measured) (store next : Store) (run : Campaign) where
    abbrev id_of : String
    id_of = campaign_id setting marks trim owner_id key

    abbrev request_of : CampaignRequest
    request_of = normalized setting marks trim (with_defaults setting marks trim input)

    abbrev step_of : Source → String
    step_of source = step_key setting marks trim id_of source
