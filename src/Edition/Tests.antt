-- ===== src/Edition/Tests.antt =====
-- A ticket page that two sources link to.
use universal_race_calendar.Common.{
  ◌≡◌, refl, ◌↔◌, Bool, true, false, if◌then◌else◌, ◌==◌, Option, none, some, [], ◌∷◌, ◌++◌, codes,
}
use universal_race_calendar.Common.Units.{Units, lower_all, after_prefix}
use universal_race_calendar.Edition.Identity.{
  Url, UrlRuntime, edition_links, ticketsports, edition_identity,
}
use universal_race_calendar.Edition.Evidence.{
  EditionLocation, Reference, Incoming, Candidate, published, rejected, edition_location_evidence,
  location_conflict, administratively_restricted, observation_unconfirmed, identity_conflict,
  strong_link, check_observed, cross_source_edition_reason,
}
use universal_race_calendar.Edition.Symmetry.{SamePlace, edition_location_evidence-none_iff}
use universal_race_calendar.Edition.Soundness.{IsSupported, cross_source_edition_reason-IsSupported}

host_part : Units → Units
host_part [] = []
host_part (c ∷ cs) = let rest = host_part cs in if c == b'/' then [] else c ∷ rest

path_part : Units → Units
path_part [] = []
path_part (c ∷ cs) = let rest = path_part cs in if c == b'/' then c ∷ cs else rest

-- Plain URLs: a protocol, a host and a path.
plain_parse : Units → Option Url
unfolding host_part path_part
plain_parse s = elim (after_prefix (codes "https://") s) [
  | none ↦ none
  | some rest ↦ some (record {
    protocol = codes "https:";
    username = [];
    password = [];
    hostname = host_part rest;
    port = [];
    pathname = path_part rest;
    params = [];
    hash = [];
  })
]

plain_href : Url → Units
plain_href u = u.protocol ++ (codes "//" ++ (u.hostname ++ u.pathname))

plain : UrlRuntime
unfolding plain_parse plain_href
plain = record { parse = plain_parse; href = plain_href; sorted = λ ps. ps }

abbrev page : Units
page = codes "https://www.ticketsports.com.br/e/corrida-da-ilha-4412/"

page_identity :
    edition_identity plain (some page)
    ≡ some (record {
      source = ticketsports;
      external_id = codes "4412";
      url = codes "https://ticketsports.com.br/e/corrida-da-ilha-4412";
    })
unfolding edition_identity plain
page_identity = refl

no_number : edition_identity plain (some (codes "https://ticketsports.com.br/e/corrida")) ≡ none
unfolding edition_identity plain
no_number = refl

abbrev place : Units → Units → EditionLocation
place day city = record {
  date = some day;
  city = some city;
  state = some (codes "SC");
  country = some (codes "BR");
}

abbrev here : EditionLocation
here = place (codes "2026-11-08T00:00:00.000Z") (codes "Floripa")

abbrev there : EditionLocation
there = place (codes "2026-11-08") (codes "FLORIPA")

abbrev elsewhere : EditionLocation
elsewhere = place (codes "2026-11-08") (codes "Itajai")

abbrev found : Incoming
found = record {
  place = here;
  source_type = some (codes "corridasbr");
  source_external_id = some (codes "77");
  source_url = none;
  registration_url = some page;
  official_url = none;
}

abbrev reference : Bool → EditionLocation → Reference
reference validated observation = record {
  source_type = codes "ticketsports";
  source_external_id = codes "4412";
  url = page;
  observation = observation;
  last_validated = validated;
}

abbrev listed : Incoming
listed = record {
  place = there;
  source_type = some (codes "ticketsports");
  source_external_id = some (codes "4412");
  source_url = some page;
  registration_url = none;
  official_url = none;
}

abbrev known : Candidate
known = record {
  event = listed;
  publication_status = published;
  source_references = reference false elsewhere ∷ reference true there ∷ [];
}

never_validated :
    cross_source_edition_reason lower_all plain found
      (record known { source_references = reference false there ∷ [] })
    ≡ some observation_unconfirmed
unfolding cross_source_edition_reason identity_conflict edition_location_evidence strong_link
    edition_links check_observed plain
never_validated = refl

observed_elsewhere :
    cross_source_edition_reason lower_all plain found
      (record known { source_references = reference true there ∷ reference true elsewhere ∷ [] })
    ≡ some location_conflict
unfolding cross_source_edition_reason identity_conflict edition_location_evidence strong_link
    edition_links check_observed plain
observed_elsewhere = refl

refused :
    cross_source_edition_reason lower_all plain found
      (record known { publication_status = rejected })
    ≡ some administratively_restricted
unfolding cross_source_edition_reason identity_conflict edition_location_evidence strong_link
    edition_links check_observed plain
refused = refl

edition_location_evidence-none_iff_example :
    (edition_location_evidence lower_all here there ≡ none) ↔ SamePlace lower_all here there
edition_location_evidence-none_iff_example = edition_location_evidence-none_iff lower_all here there

cross_source_edition_reason-IsSupported_example : IsSupported lower_all plain found known
unfolding cross_source_edition_reason identity_conflict edition_location_evidence strong_link
    edition_links check_observed plain
cross_source_edition_reason-IsSupported_example =
    cross_source_edition_reason-IsSupported lower_all plain found known refl
