-- ===== src/Checkpoints.antt =====
-- packages/database/src/result-checkpoints.ts: when a checkpoint of the results of an edition can be
-- taken up again by a task.
use universal_race_calendar.Common.{
  ℕ, ◌+◌, Bool, true, false, ◌&&◌, ◌||◌, not, if◌then◌else◌, leb, ◌==◌, String, str_eq, Option,
  none, some, List, [], ◌∷◌, ◌++◌, any, find, keep, length, codes, same_codes, Result, ok, err,
  get_or,
}
use universal_race_calendar.Common.Units.{Units, clean_text, text_or_empty, strip_slash, utf16}
use universal_race_calendar.Queue.Json.{
  Json, null, str, obj, Fields, end, field, get_field, find_field, text_of, is_truthy,
}
use universal_race_calendar.Queue.Task.{
  Task, Source, openresults, same_source, Status, queued, running,
}
use universal_race_calendar.Pilot.{Conversions}
use universal_race_calendar.Countries.{Letters, country_from_explicit_value, is_empty}
use universal_race_calendar.Publication.{written, valid_publication_date}
use universal_race_calendar.Edition.Identity.{UrlRuntime}
pub mod Usable
pub mod Reserve
mod Tests

abbrev pub result_parser_version : ℕ
result_parser_version = 2

pub record Group : Type 0 where
  pub status : String
  pub page_count : ℕ
  pub record_count : ℕ

-- A row of `ResultCheckpoint`, with its groups and the status of its active task.
pub record ResultCheckpoint : Type 0 where
  pub root_task_id : String
  pub event_id : String
  pub external_id : String
  pub source_url : String
  pub parser_version : ℕ
  pub page_size : ℕ
  pub manifest : Json
  pub status : String
  pub expires_at : ℕ
  pub active_task : Option Status
  pub groups : List Group

-- What is read of an event; the date is its ISO day.
pub record Event : Type 0 where
  pub date : Option Units
  pub city : Option Units
  pub state : Option Units
  pub country : Option Units

-- A row of `EventSourceReference` of OpenResults, with its event.
pub record SourceReference : Type 0 where
  pub external_id : String
  pub event_id : String
  pub url : String
  pub event : Event

-- An entry of `AdminAudit` of a reviewed event.
pub record Review : Type 0 where
  pub event_id : String
  pub details : Json

pub record Store : Type 0 where
  pub checkpoints : List ResultCheckpoint
  pub references : List SourceReference
  pub reviews : List Review
  pub resolve_event_id : String → String

-- `record(value)`
abbrev as_record : Option Json → Fields
as_record (some (obj fields)) = fields
as_record _ = end

abbrev pub has_keys : Fields → Bool
has_keys end = false
has_keys (field key value fields) = true

abbrev keys : Fields → List String
keys end = []
keys (field key value fields) = key ∷ keys fields

abbrev pub units : Option String → Option Units
units none = none
units (some s) = some (utf16 (codes s))

-- `value === text` for a value of JSON
abbrev pub is_text : String → Option Json → Bool
is_text s (some (str t)) = str_eq t s
is_text s _ = false

-- `new Set(audits.flatMap(…))`
unfoldable pub protected_fields : String → List Review → List String
protected_fields event_id [] = []
protected_fields event_id (review ∷ reviews) =
    let rest = protected_fields event_id reviews in
    if str_eq review.event_id event_id
    then keys (as_record (get_field "changes" review.details)) ++ rest
    else rest

abbrev pub is_reference : String → SourceReference → Bool
is_reference external_id r = str_eq r.external_id external_id

abbrev pub is_checkpoint : String → ResultCheckpoint → Bool
is_checkpoint id root = str_eq root.root_task_id id

abbrev pub is_live : Option Status → Bool
is_live (some queued) = true
is_live (some running) = true
is_live _ = false

abbrev pub same_day : Option Units → Option Units → Bool
same_day (some a) (some b) = same_codes a b
same_day _ _ = false

abbrev pub is_absent : Option Units → Bool
is_absent none = true
is_absent (some s) = false

unfoldable pub result_checkpoint_root : Task → String
result_checkpoint_root task = get_or (text_of (get_field "checkpointOf" task.payload)) task.id

-- What `readResultCheckpoint` answers of a checkpoint that exists.
pub record CheckpointView : Type 0 where
  pub reason : Option String
  pub root_id : String
  pub status : String
  pub parser_version : ℕ
  pub page_size : ℕ
  pub expires_at : ℕ
  pub groups : ℕ
  pub completed_groups : ℕ
  pub pages : ℕ
  pub records : ℕ

pub data Answer : Type 0 where
  not_applicable : Answer
  unavailable : Answer
  view : CheckpointView → Answer

abbrev total_pages : List Group → ℕ
total_pages [] = 0
total_pages (g ∷ gs) = g.page_count + total_pages gs

abbrev total_records : List Group → ℕ
total_records [] = 0
total_records (g ∷ gs) = g.record_count + total_records gs

module _ (letters : Letters) (conversions : Conversions) (urls : UrlRuntime) (year : Units) where
  unfoldable pub location_text : Option Units → Units
  location_text value = clean_text (letters.to_lower (letters.strip_accents (text_or_empty value)))

  -- `String(value ?? "")`
  abbrev pub written_text : Option Json → String
  written_text none = ""
  written_text (some null) = ""
  written_text (some value) = conversions.text value

  -- A field of the event against what was observed.
  unfoldable pub field_conflicts : List String → String → Option Units → Option Units → Bool
  unfolding location_text
  field_conflicts protected name known incoming =
      not (any (λ p. str_eq p name) protected)
      && (not (is_empty (location_text known))
          && (not (is_empty (location_text incoming))
              && not (same_codes (location_text known) (location_text incoming))))

  unfoldable pub location_conflicts : List String → Event → Fields → Option Units → Bool
  unfolding field_conflicts
  location_conflicts protected event metadata country =
      field_conflicts protected "city" event.city (units (text_of (find_field "city" metadata)))
      || (field_conflicts protected "state" event.state
            (units (text_of (find_field "state" metadata)))
          || field_conflicts protected "country" event.country country)

  abbrev pub metadata_of : ResultCheckpoint → Fields
  metadata_of root = as_record (find_field "metadata" (as_record (some root.manifest)))

  unfoldable pub manifest_country : Fields → Option Units
  unfolding country_from_explicit_value
  manifest_country metadata =
      (country_from_explicit_value letters
        (units (text_of (find_field "country" metadata)))).country

  -- `["conflicting", "unrecognized"].includes(String(countryEvidence.status))`
  abbrev pub is_doubtful : Fields → Bool
  is_doubtful metadata =
      let status : Option Json = find_field "status" (
        as_record
          (find_field "country_evidence" (as_record (find_field "raw_metadata" metadata)))) in
      str_eq (written_text status) "conflicting" || str_eq (written_text status) "unrecognized"

  abbrev pub is_valid_day : Option Units → Bool
  is_valid_day none = false
  is_valid_day (some day) = valid_publication_date urls year (some (written day))

  -- From the search of the reference on.
  unfoldable pub reference_reason :
      ResultCheckpoint → Store → Fields → Option SourceReference → Option String
  unfolding location_conflicts protected_fields manifest_country
  reference_reason root store metadata none = some "association_changed"
  reference_reason root store metadata (some ref) =
      let date = units (text_of (find_field "event_date" metadata)) in
      let country = manifest_country metadata in
      if not (str_eq ref.event_id root.event_id) || not (str_eq ref.url root.source_url)
      then some "association_changed"
      else if is_absent ref.event.date || not (is_valid_day date)
      then some "edition_date_unconfirmed"
      else if not (same_day ref.event.date date)
      then some "edition_date_mismatch"
      else if is_doubtful metadata
          || (is_truthy (find_field "country" metadata) && is_absent country)
      then some "edition_location_unconfirmed"
      else if location_conflicts (protected_fields root.event_id store.reviews) ref.event metadata
          country
      then some "edition_location_conflict"
      else none

  unfoldable pub same_url : Option String → String → Bool
  same_url none url = false
  same_url (some own) url =
      same_codes (strip_slash (utf16 (codes own))) (strip_slash (utf16 (codes url)))

  -- `checkpointEditionReason`
  unfoldable pub checkpoint_edition_reason : ResultCheckpoint → Store → Option String
  unfolding reference_reason same_url
  checkpoint_edition_reason root store =
      let metadata = metadata_of root in
      if not (has_keys metadata)
      then some "result_checkpoint_incompatible"
      else if not (str_eq (written_text (find_field "event_id" metadata)) root.external_id)
      then some "source_identity_mismatch"
      else if not (same_url (text_of (find_field "source_url" metadata)) root.source_url)
      then some "association_changed"
      else reference_reason root store metadata
          (find (is_reference root.external_id) store.references)

  -- `String(payload[key])`, where `undefined` is written so
  abbrev pub payload_text : String → Task → String
  payload_text key task = elim (get_field key task.payload) [
    | none ↦ "undefined"
    | some value ↦ conversions.text value
  ]

  abbrev pub is_compatible : Task → ResultCheckpoint → Store → Bool
  is_compatible task root store =
      root.parser_version == result_parser_version
      && (str_eq root.event_id (store.resolve_event_id (payload_text "eventId" task))
          && (is_text root.external_id (get_field "externalId" task.payload)
              && is_text root.source_url (get_field "url" task.payload)))

  unfoldable pub checkpoint_reason : Task → ℕ → Store → ResultCheckpoint → Option String
  unfolding checkpoint_edition_reason
  checkpoint_reason task now store root =
      if not (is_compatible task root store)
      then some "result_checkpoint_incompatible"
      else if leb root.expires_at now || str_eq root.status "expired"
      then some "result_checkpoint_expired"
      else if not (str_eq root.status "collecting" || str_eq root.status "ready")
      then some "result_checkpoint_unavailable"
      else if is_live root.active_task
      then some "result_checkpoint_in_use"
      else checkpoint_edition_reason root store

  unfoldable pub view_of : Task → ℕ → Store → Option ResultCheckpoint → Answer
  unfolding checkpoint_reason
  view_of task now store none = unavailable
  view_of task now store (some root) = view (record {
    reason = checkpoint_reason task now store root;
    root_id = result_checkpoint_root task;
    status = root.status;
    parser_version = root.parser_version;
    page_size = root.page_size;
    expires_at = root.expires_at;
    groups = length root.groups;
    completed_groups = length (keep (λ g. str_eq g.status "completed") root.groups);
    pages = total_pages root.groups;
    records = total_records root.groups;
  })

  unfoldable pub read_result_checkpoint : Task → ℕ → Store → Answer
  unfolding view_of result_checkpoint_root
  read_result_checkpoint task now store =
      if not (same_source task.source openresults) || not (str_eq task.kind "extract")
      then not_applicable
      else view_of task now store
          (find (is_checkpoint (result_checkpoint_root task)) store.checkpoints)

  -- The second look at the reference, under the locks.
  unfoldable pub check_reference : Task → Store → Option SourceReference → Result String String
  unfolding result_checkpoint_root
  check_reference task store none = err "association_changed"
  check_reference task store (some ref) =
      if not (str_eq ref.event_id (store.resolve_event_id (payload_text "eventId" task)))
        || not (is_text ref.url (get_field "url" task.payload))
      then err "association_changed"
      else ok (result_checkpoint_root task)

  unfoldable pub reserve_answered : Task → Store → Answer → Result String String
  unfolding check_reference
  reserve_answered task store not_applicable = err "result_checkpoint_unavailable"
  reserve_answered task store unavailable = err "result_checkpoint_unavailable"
  reserve_answered task store (view v) = elim v.reason [
    | some reason ↦ err reason
    | none ↦
        check_reference task store
          (find (is_reference (payload_text "externalId" task)) store.references)
  ]

  unfoldable pub reserve_result_checkpoint : Task → ℕ → Store → Result String String
  unfolding reserve_answered read_result_checkpoint
  reserve_result_checkpoint task now store =
      reserve_answered task store (read_result_checkpoint task now store)
