-- ===== src/Checkpoints/Tests.antt =====
-- A checkpoint in force, and the theorems at it.
use universal_race_calendar.Common.{
  ◌≡◌, ◌↔◌, refl, true, String, none, some, [], ◌∷◌, codes, find, ok, err, str_eq,
}
use universal_race_calendar.Common.Units.{Units, lower_all, upper_all, clean_text}
use universal_race_calendar.Queue.Json.{Json, str, obj, end, field}
use universal_race_calendar.Queue.Task.{Task, openresults, same_source}
use universal_race_calendar.Queue.Enqueue.{new_row}
use universal_race_calendar.Queue.Sample.{plain, plain_text}
use universal_race_calendar.Countries.{Letters, country_from_explicit_value}
use universal_race_calendar.Dates.{normalize_date, is_valid_iso_date, iso_at}
use universal_race_calendar.Publication.{is_iso_form, valid_publication_date}
use universal_race_calendar.Edition.Identity.{UrlRuntime}
use universal_race_calendar.Checkpoints.{
  ResultCheckpoint, SourceReference, Store, result_checkpoint_root, is_checkpoint, CheckpointView,
  view, protected_fields, location_text, field_conflicts, location_conflicts, manifest_country,
  reference_reason, same_url, checkpoint_edition_reason, checkpoint_reason, view_of,
  read_result_checkpoint, check_reference, reserve_answered, reserve_result_checkpoint,
}
use universal_race_calendar.Checkpoints.Usable.{IsUsable}
use universal_race_calendar.Checkpoints.Reserve.{
  reserve_result_checkpoint-available_iff, reserve_result_checkpoint-IsUsable,
}

abbrev letters : Letters
letters = record { strip_accents = λ s. s; to_lower = lower_all; to_upper = upper_all }

abbrev urls : UrlRuntime
urls = record { parse = λ s. none; href = λ u. []; sorted = λ ps. ps }

abbrev year : Units
year = codes "2026"

abbrev page : String
page = "https://openresults.com.br/77"

abbrev manifest : Json
manifest = obj (
    field "metadata"
      (obj (
        field "event_id" (str "77") (
          field "source_url" (str "https://openresults.com.br/77/") (
            field "event_date" (str "2026-03-01")
              (field "city" (str " ILHA") (field "country" (str "Brasil") end))))))
      end)

abbrev root : ResultCheckpoint
root = record {
  root_task_id = "t0";
  event_id = "e1";
  external_id = "77";
  source_url = page;
  parser_version = 2;
  page_size = 50;
  manifest = manifest;
  status = "ready";
  expires_at = 9000;
  active_task = none;
  groups = record { status = "completed"; page_count = 2; record_count = 80 } ∷ [];
}

abbrev reference : SourceReference
reference = record {
  external_id = "77";
  event_id = "e1";
  url = page;
  event = record {
    date = some (codes "2026-03-01");
    city = some (codes "Ilha");
    state = none;
    country = some (codes "BR");
  };
}

abbrev store : Store
store = record {
  checkpoints = root ∷ [];
  references = reference ∷ [];
  reviews = [];
  resolve_event_id = λ id. id;
}

abbrev task : Task
task =
    new_row "t1" "admin" "k1" openresults "extract"
      (obj (
        field "checkpointOf" (str "t0") (
          field "eventId" (str "e1") (field "externalId" (str "77") (field "url" (str page) end)))))
      "h1" 100

program : Unit {0}
unfolding plain plain_text clean_text country_from_explicit_value normalize_date is_valid_iso_date
    iso_at is_iso_form valid_publication_date result_checkpoint_root protected_fields location_text
    field_conflicts location_conflicts manifest_country reference_reason same_url
    checkpoint_edition_reason checkpoint_reason view_of read_result_checkpoint check_reference
    reserve_answered reserve_result_checkpoint
program = tt

too_late :
    reserve_result_checkpoint letters plain urls year task 9000 store
    ≡ err "result_checkpoint_expired"
unfolding program
too_late = refl

reserve_result_checkpoint-available_iff_example :
    (reserve_result_checkpoint letters plain urls year task 500 store ≡ ok "t0") ↔ (
      (v : CheckpointView) × (read_result_checkpoint letters plain urls year task 500 store
        ≡ view v)
      × (v.reason ≡ none)
      × (v.root_id ≡ "t0"))
reserve_result_checkpoint-available_iff_example =
    reserve_result_checkpoint-available_iff letters plain urls year task 500 store "t0"

reserve_result_checkpoint-IsUsable_example :
    (same_source openresults openresults ≡ true)
    × (str_eq "extract" "extract" ≡ true)
    × ("t0" ≡ result_checkpoint_root task)
    × (r : ResultCheckpoint) × (find (is_checkpoint "t0") store.checkpoints ≡ some r)
    × IsUsable letters plain urls year task 500 r store
unfolding program
reserve_result_checkpoint-IsUsable_example =
    reserve_result_checkpoint-IsUsable letters plain urls year task 500 store "t0" refl
