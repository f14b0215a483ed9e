-- ===== src/Checkpoints/Usable.antt =====
-- What holds of a checkpoint that can be taken up.
use universal_race_calendar.Common.{
  ℕ, ◌≡◌, ◌<◌, refl, ◌⊎◌, inl, inr, Bool, true, false, ◌&&◌, ◌||◌, not, if◌then◌else◌, leb, String,
  str_eq, eq_iff, Option, none, some, find, Bool-cases, arith,
}
use universal_race_calendar.Common.Units.{Units}
use universal_race_calendar.Queue.Json.{Fields, get_field, find_field, text_of, is_truthy}
use universal_race_calendar.Queue.Task.{Task}
use universal_race_calendar.Pilot.{Conversions}
use universal_race_calendar.Countries.{Letters}
use universal_race_calendar.Edition.Identity.{UrlRuntime}
use universal_race_calendar.Checkpoints.{
  ResultCheckpoint, SourceReference, Store, result_parser_version, has_keys, is_reference, is_live,
  same_day, is_absent, units, is_text, protected_fields, location_conflicts, metadata_of,
  manifest_country, is_doubtful, is_valid_day, reference_reason, same_url,
  checkpoint_edition_reason, written_text, payload_text, is_compatible, checkpoint_reason,
}

-- A test that gives no reason fails, and so do the tests behind it.
passes :
    (b : Bool) (code : String) (rest : Option String)
    → (if b then some code else rest) ≡ none
    → (b ≡ false) × (rest ≡ none)
passes true code rest h = absurd cc
passes false code rest h = (refl, h)

module _ (letters : Letters) (conversions : Conversions) (urls : UrlRuntime) (year : Units) where
  -- The edition that a checkpoint was made of is the one that its reference names now: the same day, a
  -- country without doubt, and no place that differs from the event's but where it was reviewed.
  pub record IsSameEdition (root : ResultCheckpoint) (store : Store) (ref : SourceReference)
      : Type 0 where
    pub described : has_keys (metadata_of letters conversions urls year root) ≡ true
    pub identity :
        written_text letters conversions urls year
          (find_field "event_id" (metadata_of letters conversions urls year root))
        ≡ root.external_id
    pub is_found : find (is_reference root.external_id) store.references ≡ some ref
    pub same_event : ref.event_id ≡ root.event_id
    pub same_source_url : ref.url ≡ root.source_url
    pub dated :
        same_day ref.event.date (
          units
            (text_of (find_field "event_date" (metadata_of letters conversions urls year root))))
        ≡ true
    pub is_day :
        is_valid_day letters conversions urls year (
          units
            (text_of (find_field "event_date" (metadata_of letters conversions urls year root))))
        ≡ true
    pub certain :
        is_doubtful letters conversions urls year (metadata_of letters conversions urls year root)
        ≡ false
    pub placed :
        location_conflicts letters conversions urls year
          (protected_fields root.event_id store.reviews)
          ref.event
          (metadata_of letters conversions urls year root)
          (manifest_country letters conversions urls year
            (metadata_of letters conversions urls year root))
        ≡ false

  reference_reason-passes :
      (root : ResultCheckpoint) (store : Store) (metadata : Fields) (o : Option SourceReference)
      → reference_reason letters conversions urls year root store metadata o ≡ none
      → (ref : SourceReference) × (o ≡ some ref)
        × (str_eq ref.event_id root.event_id ≡ true)
        × (str_eq ref.url root.source_url ≡ true)
        × (same_day ref.event.date (units (text_of (find_field "event_date" metadata))) ≡ true)
        × (is_valid_day letters conversions urls year
              (units (text_of (find_field "event_date" metadata)))
            ≡ true)
        × (is_doubtful letters conversions urls year metadata ≡ false)
        × (location_conflicts letters conversions urls year
              (protected_fields root.event_id store.reviews)
              ref.event
              metadata
              (manifest_country letters conversions urls year metadata)
            ≡ false)
  unfolding reference_reason
  reference_reason-passes root store metadata none h = absurd cc
  reference_reason-passes root store metadata (some ref) h =
      let date = units (text_of (find_field "event_date" metadata)) in
      let country = manifest_country letters conversions urls year metadata in
      let (linked, h1) =
        passes (not (str_eq ref.event_id root.event_id) || not (str_eq ref.url root.source_url))
          "association_changed" _ h in
      let (dated, h2) =
        passes (is_absent ref.event.date || not (is_valid_day letters conversions urls year date))
          "edition_date_unconfirmed" _ h1 in
      let (same, h3) = passes (not (same_day ref.event.date date)) "edition_date_mismatch" _ h2 in
      let (certain, h4) =
        passes
          (is_doubtful letters conversions urls year metadata
            || (is_truthy (find_field "country" metadata) && is_absent country))
          "edition_location_unconfirmed" _ h3 in
      let (placed, h5) = passes _ "edition_location_conflict" _ h4 in
      (
        ref,
        refl,
        ground (arith, linked),
        ground (arith, linked),
        ground (arith, same),
        ground (arith, dated),
        ground (arith, certain),
        placed,
      )

  checkpoint_edition_reason-IsSameEdition :
      (root : ResultCheckpoint) (store : Store)
      → checkpoint_edition_reason letters conversions urls year root store ≡ none
      → (ref : SourceReference) × IsSameEdition root store ref
  unfolding checkpoint_edition_reason
  checkpoint_edition_reason-IsSameEdition root store h =
      let metadata = metadata_of letters conversions urls year root in
      let (described, h1) = passes (not (has_keys metadata)) "result_checkpoint_incompatible" _ h in
      let (named, h2) =
        passes
          (not (
            str_eq (written_text letters conversions urls year (find_field "event_id" metadata))
              root.external_id))
          "source_identity_mismatch" _ h1 in
      let (linked, h3) =
        passes
          (not (
            same_url letters conversions urls year (text_of (find_field "source_url" metadata))
              root.source_url))
          "association_changed" _ h2 in
      let (ref, found, event, url, day, valid, certain, placed) =
        reference_reason-passes root store metadata
          (find (is_reference root.external_id) store.references) h3 in
      (
        ref,
        record {
          described = ground (arith, described);
          identity = (eq_iff _ root.external_id).0 (ground (arith, named));
          is_found = found;
          same_event = (eq_iff ref.event_id root.event_id).0 event;
          same_source_url = (eq_iff ref.url root.source_url).0 url;
          dated = day;
          is_day = valid;
          certain = certain;
          placed = placed;
        },
      )

  -- A checkpoint that a task may take up: it is of the task's edition, page and format, in force, not
  -- finished, and no other task works on it.
  pub record IsUsable (task : Task) (now : ℕ) (root : ResultCheckpoint) (store : Store)
      : Type 0 where
    pub version : root.parser_version ≡ result_parser_version
    pub task_event :
        root.event_id
        ≡ store.resolve_event_id (payload_text letters conversions urls year "eventId" task)
    pub task_edition : is_text root.external_id (get_field "externalId" task.payload) ≡ true
    pub task_url : is_text root.source_url (get_field "url" task.payload) ≡ true
    pub in_force : now < root.expires_at
    pub unfinished : (root.status ≡ "collecting") ⊎ (root.status ≡ "ready")
    pub idle : is_live root.active_task ≡ false
    pub reference : SourceReference
    pub same_edition : IsSameEdition root store reference

  pub checkpoint_reason-IsUsable :
      (task : Task) (now : ℕ) (store : Store) (root : ResultCheckpoint)
      → checkpoint_reason letters conversions urls year task now store root ≡ none
      → IsUsable task now root store
  unfolding checkpoint_reason
  checkpoint_reason-IsUsable task now store root h =
      let event =
        store.resolve_event_id (payload_text letters conversions urls year "eventId" task) in
      let (fits, h1) =
        passes (not (is_compatible letters conversions urls year task root store))
          "result_checkpoint_incompatible" _ h in
      let (timely, h2) =
        passes (leb root.expires_at now || str_eq root.status "expired") "result_checkpoint_expired"
          _ h1 in
      let (unfinished, h3) =
        passes (not (str_eq root.status "collecting" || str_eq root.status "ready"))
          "result_checkpoint_unavailable" _ h2 in
      let (idle, h4) = passes (is_live root.active_task) "result_checkpoint_in_use" _ h3 in
      let (ref, same) = checkpoint_edition_reason-IsSameEdition root store h4 in
      record {
        version = ground (arith, fits);
        task_event = (eq_iff root.event_id event).0 (ground (arith, fits));
        task_edition = ground (arith, fits);
        task_url = ground (arith, fits);
        in_force = ground (arith, timely);
        unfinished = elim (Bool-cases (str_eq root.status "collecting")) [
          | inl c ↦ inl ((eq_iff root.status "collecting").0 c)
          | inr c ↦ inr ((eq_iff root.status "ready").0 (ground (arith, unfinished, c)))
        ];
        idle = idle;
        reference = ref;
        same_edition = same;
      }
