-- ===== src/Edition/Evidence.antt =====
-- `editionLocationEvidence` and `crossSourceEditionReason`.
use universal_race_calendar.Common.{
  take, Bool, true, false, ◌&&◌, ◌||◌, not, if◌then◌else◌, Option, none, some, List, [], ◌∷◌, ◌++◌,
  any, keep, map, same_codes, is_some,
}
use universal_race_calendar.Common.Units.{Units}
use universal_race_calendar.Edition.Identity.{
  Provider, ticketsports, same_provider, EditionIdentity, UrlRuntime, edition_links, link,
  provider_text,
}

pub data Reason : Type 0 where
  date_unconfirmed date_mismatch location_unconfirmed location_conflict source_identity_conflict
        administratively_restricted link_unconfirmed observation_unconfirmed :
      Reason

-- A date is the ISO text of a `Date`, or the text itself.
pub record EditionLocation : Type 0 where
  pub date : Option Units
  pub city : Option Units
  pub state : Option Units
  pub country : Option Units

-- `!value` of a text or null
abbrev pub is_empty : Option Units → Bool
is_empty none = true
is_empty (some []) = true
is_empty (some (c ∷ cs)) = false

-- `value || null`
abbrev non_empty : Option Units → Option Units
non_empty (some (c ∷ cs)) = some (c ∷ cs)
non_empty _ = none

-- `date(value)`: the first ten units
abbrev pub day_of : Option Units → Option Units
day_of none = none
day_of (some s) = non_empty (some (take 10 s))

-- `a === b` of texts or null
abbrev pub same_text : Option Units → Option Units → Bool
same_text none none = true
same_text (some a) (some b) = same_codes a b
same_text _ _ = false

-- A reference of a candidate; the observation is that of an object with text fields.
pub record Reference : Type 0 where
  pub source_type : Units
  pub source_external_id : Units
  pub url : Units
  pub observation : EditionLocation
  pub last_validated : Bool

pub record Incoming : Type 0 where
  pub place : EditionLocation
  pub source_type : Option Units
  pub source_external_id : Option Units
  pub source_url : Option Units
  pub registration_url : Option Units
  pub official_url : Option Units

pub data Publication : Type 0 where
  published pending_review hidden rejected draft : Publication

abbrev pub is_restricted : Publication → Bool
is_restricted hidden = true
is_restricted rejected = true
is_restricted _ = false

pub record Candidate : Type 0 where
  pub event : Incoming
  pub publication_status : Publication
  pub source_references : List Reference

-- One field of a comparison: unknown on a side, equal, or in conflict.
pub data Match : Type 0 where
  unknown agrees conflicts : Match

abbrev pub compare_field : Option Units → Option Units → Match
compare_field none b = unknown
compare_field (some a) none = unknown
compare_field (some a) (some b) = if same_codes a b then agrees else conflicts

-- The loop over the fields, with what it has found incomplete.
unfoldable pub check_fields : Bool → List Match → Option Reason
check_fields incomplete [] = if incomplete then some location_unconfirmed else none
check_fields incomplete (unknown ∷ ms) = check_fields true ms
check_fields incomplete (agrees ∷ ms) = check_fields incomplete ms
check_fields incomplete (conflicts ∷ ms) = some location_conflict

-- The folding of accents, case and spaces of `normalized` is the runtime's.
module _ (fold : Units → Units) where
  abbrev pub normalized : Option Units → Option Units
  normalized none = none
  normalized (some s) = non_empty (some (fold s))

  abbrev field_match : (EditionLocation → Option Units) → EditionLocation → EditionLocation → Match
  field_match field left right = compare_field (normalized (field left)) (normalized (field right))

  abbrev pub place_matches : EditionLocation → EditionLocation → List Match
  place_matches left right =
      field_match (λ l. l.city) left right
      ∷ field_match (λ l. l.state) left right
      ∷ field_match (λ l. l.country) left right
      ∷ []

  unfoldable pub edition_location_evidence : EditionLocation → EditionLocation → Option Reason
  unfolding check_fields
  edition_location_evidence left right =
      if is_empty left.date || is_empty right.date
      then some date_unconfirmed
      else if not (same_text (day_of left.date) (day_of right.date))
      then some date_mismatch
      else check_fields false (place_matches left right)

  -- The last loop: an observed date or place that differs from the candidate's.
  abbrev field_differs : (EditionLocation → Option Units) → EditionLocation → EditionLocation → Bool
  field_differs field observed place =
      is_some (normalized (field observed))
      && not (same_text (normalized (field observed)) (normalized (field place)))

  unfoldable pub check_observed : EditionLocation → List EditionLocation → Option Reason
  check_observed place [] = none
  check_observed place (value ∷ values) =
      if not (is_empty value.date)
        && not (
            same_text (some (take 10 (elim value.date [ none ↦ [] | some d ↦ d ])))
              (day_of place.date))
      then some date_mismatch
      else if field_differs (λ l. l.city) value place
          || (field_differs (λ l. l.state) value place
              || field_differs (λ l. l.country) value place)
      then some location_conflict
      else check_observed place values

  module _ (runtime : UrlRuntime) where
    abbrev pub links_of : Incoming → List EditionIdentity
    links_of e = edition_links runtime e.registration_url e.official_url e.source_url

    abbrev pub reference_links : List Reference → List EditionIdentity
    reference_links [] = []
    reference_links (ref ∷ refs) =
        edition_links runtime none none (some ref.url) ++ reference_links refs

    -- Another identifier of the incoming source on the candidate or on a reference of it.
    unfoldable pub identity_conflict : Incoming → Candidate → Bool
    identity_conflict incoming candidate =
        (same_text candidate.event.source_type incoming.source_type
          && not (same_text candidate.event.source_external_id incoming.source_external_id))
        || any
            (λ ref.
              same_text (some ref.source_type) incoming.source_type
              && not (same_text (some ref.source_external_id) incoming.source_external_id))
            candidate.source_references

    abbrev is_ticketsports : Provider → Bool
    is_ticketsports ticketsports = true
    is_ticketsports _ = false

    abbrev pub identifies : Candidate → EditionIdentity → Bool
    identifies candidate link =
        is_ticketsports link.source
        && ((same_text candidate.event.source_type (some (provider_text link.source))
              && same_text candidate.event.source_external_id (some link.external_id))
            || any
                (λ ref.
                  same_codes ref.source_type (provider_text link.source)
                  && same_codes ref.source_external_id link.external_id)
                candidate.source_references)

    abbrev pub same_link : EditionIdentity → EditionIdentity → Bool
    same_link link target =
        same_provider target.source link.source
        && (if is_ticketsports link.source
            then same_codes target.external_id link.external_id
            else same_codes target.url link.url)

    unfoldable pub strong_link : Incoming → Candidate → Bool
    strong_link incoming candidate =
        let targets = links_of candidate.event ++ reference_links candidate.source_references in
        any (λ link. identifies candidate link || any (same_link link) targets) (links_of incoming)

    abbrev pub observations : List Reference → List EditionLocation
    observations refs = map (λ ref. ref.observation) (keep (λ ref. ref.last_validated) refs)

    unfoldable pub cross_source_edition_reason : Incoming → Candidate → Option Reason
    cross_source_edition_reason incoming candidate =
        let observed = observations candidate.source_references in
        if identity_conflict incoming candidate
        then some source_identity_conflict
        else if is_restricted candidate.publication_status
        then some administratively_restricted
        else elim (edition_location_evidence incoming.place candidate.event.place) [
          | some reason ↦ some reason
          | none ↦
              if not (strong_link incoming candidate)
              then some link_unconfirmed
              else if not (
                  any (λ v. not (is_some (edition_location_evidence candidate.event.place v)))
                    observed)
              then some observation_unconfirmed
              else check_observed candidate.event.place observed
        ]
