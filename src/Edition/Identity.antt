-- ===== src/Edition/Identity.antt =====
-- `editionIdentity` and `editionLinks`. Parsing and printing URLs is the runtime's.
use universal_race_calendar.Common.{
  Bool, true, false, ◌&&◌, ◌||◌, not, if◌then◌else◌, ◌==◌, Option, none, some, List, [], ◌∷◌, ◌++◌,
  any, keep, same_codes, codes,
}
use universal_race_calendar.Common.Units.{
  Units, upper, is_letter, is_number, lower_all, after_prefix, begins, strip_slash,
}

-- The parts of a parsed URL. Protocol and port are as the runtime gives them, `https:` and empty.
pub record Url : Type 0 where
  pub protocol : Units
  pub username : Units
  pub password : Units
  pub hostname : Units
  pub port : Units
  pub pathname : Units
  pub params : List (Units × Units)
  pub hash : Units

pub record UrlRuntime : Type 0 where
  pub parse : Units → Option Url
  pub href : Url → Units
  -- `searchParams.sort()`
  pub sorted : List (Units × Units) → List (Units × Units)

pub data Provider : Type 0 where
  ticketsports openresults corridasbr : Provider

abbrev pub same_provider : Provider → Provider → Bool
same_provider ticketsports ticketsports = true
same_provider openresults openresults = true
same_provider corridasbr corridasbr = true
same_provider _ _ = false

abbrev pub provider_text : Provider → Units
provider_text ticketsports = codes "ticketsports"
provider_text openresults = codes "openresults"
provider_text corridasbr = codes "corridasbr"

pub record EditionIdentity : Type 0 where
  pub source : Provider
  pub external_id : Units
  pub url : Units

-- What stands behind the last dash.
after_dash : Units → Option Units
after_dash [] = none
after_dash (c ∷ cs) = elim (after_dash cs) [
  | some rest ↦ some rest
  | none ↦ if c == b'-' then some cs else none
]

abbrev has_slash : Units → Bool
has_slash s = any (λ c. c == b'/') s

abbrev number_only : Option Units → Option Units
number_only none = none
number_only (some s) = if is_number s then some s else none

-- `/^\/e\/[^/]*-(\d+)\/?$/i`
unfoldable pub ticketsports_id : Units → Option Units
unfolding after_dash
ticketsports_id path = elim (after_prefix (codes "/e/") (lower_all (strip_slash path))) [
  | none ↦ none
  | some slug ↦ if has_slash slug then none else number_only (after_dash slug)
]

-- `/^\/evento\/([^/]+)\/?$/`
unfoldable pub openresults_slug : Units → Option Units
openresults_slug path = elim (after_prefix (codes "/evento/") path) [
  | none ↦ none
  | some rest ↦
      let slug = strip_slash rest in
      if has_slash slug || same_codes slug [] then none else some slug
]

abbrev pub state_codes : List Units
state_codes =
    codes "AC"
    ∷ codes "AL"
    ∷ codes "AM"
    ∷ codes "AP"
    ∷ codes "BA"
    ∷ codes "CE"
    ∷ codes "DF"
    ∷ codes "ES"
    ∷ codes "GO"
    ∷ codes "MA"
    ∷ codes "MG"
    ∷ codes "MS"
    ∷ codes "MT"
    ∷ codes "PA"
    ∷ codes "PB"
    ∷ codes "PE"
    ∷ codes "PI"
    ∷ codes "PR"
    ∷ codes "RJ"
    ∷ codes "RN"
    ∷ codes "RO"
    ∷ codes "RR"
    ∷ codes "RS"
    ∷ codes "SC"
    ∷ codes "SE"
    ∷ codes "SP"
    ∷ codes "TO"
    ∷ []

-- `/^\/([A-Za-z]{2})\/mostracorrida\.asp$/i`, the state in capitals, and a state of Brazil
unfoldable pub corridasbr_state : Units → Option Units
corridasbr_state (s ∷ a ∷ b ∷ rest) =
    let state = upper a ∷ upper b ∷ [] in
    if s == b'/'
      && (is_letter a
          && (is_letter b
              && (same_codes (lower_all rest) (codes "/mostracorrida.asp")
                  && any (same_codes state) state_codes)))
    then some state
    else none
corridasbr_state _ = none

-- `searchParams.getAll(name)`
abbrev values_of : Units → List (Units × Units) → List Units
values_of name [] = []
values_of name ((k, v) ∷ ps) =
    if same_codes k name then v ∷ values_of name ps else values_of name ps

abbrev single_number : List Units → Option Units
single_number (v ∷ []) = if is_number v then some v else none
single_number _ = none

-- The choice of the source and the external id.
unfoldable pub source_and_id : Units → Url → Option (Provider × Units)
unfolding ticketsports_id openresults_slug corridasbr_state
source_and_id host u =
    if same_codes host (codes "ticketsports.com.br")
    then elim (ticketsports_id u.pathname) [ none ↦ none | some id ↦ some (ticketsports, id) ]
    else if same_codes host (codes "openresults.run")
    then elim (openresults_slug u.pathname) [
      | none ↦ none
      | some slug ↦ some (openresults, codes "url:" ++ slug)
    ]
    else if same_codes host (codes "corridasbr.com.br")
    then elim (corridasbr_state u.pathname) [
      | none ↦ none
      | some state ↦ elim (single_number (values_of (codes "escolha") u.params)) [
        | none ↦ none
        | some choice ↦ some (corridasbr, state ++ (codes ":" ++ choice))
      ]
    ]
    else none

abbrev strip_www : Units → Units
strip_www host = elim (after_prefix (codes "www.") host) [ none ↦ host | some rest ↦ rest ]

abbrev is_web : Units → Bool
is_web protocol = same_codes protocol (codes "http:") || same_codes protocol (codes "https:")

module _ (runtime : UrlRuntime) where
  -- Tracking parameters and the fragment go; the others are kept, sorted.
  unfoldable pub canonical_url : Units → Url → Url
  canonical_url host u = record u {
    hash = [];
    params = runtime.sorted (keep (λ p. not (begins (codes "utm_") p.0)) u.params);
    hostname = host;
    protocol = codes "https:";
    pathname = strip_slash u.pathname;
  }

  unfoldable pub identity_of_url : Url → Option EditionIdentity
  unfolding source_and_id canonical_url
  identity_of_url u =
      let host = strip_www u.hostname in
      if not (is_web u.protocol)
        || (not (same_codes u.username [])
            || (not (same_codes u.password []) || not (same_codes u.port [])))
      then none
      else elim (source_and_id host u) [
        | none ↦ none
        | some (source, id) ↦ some (record {
          source = source;
          external_id = id;
          url = runtime.href (canonical_url host u);
        })
      ]

  -- An empty or missing text, and one that is no URL, have no identity.
  unfoldable pub edition_identity : Option Units → Option EditionIdentity
  unfolding identity_of_url
  edition_identity none = none
  edition_identity (some []) = none
  edition_identity (some (c ∷ cs)) = elim (runtime.parse (c ∷ cs)) [
    | none ↦ none
    | some u ↦ identity_of_url u
  ]

  abbrev pub link : Option Units → List EditionIdentity → List EditionIdentity
  link url links = elim (edition_identity url) [ none ↦ links | some i ↦ i ∷ links ]

  -- `editionLinks`, without the original text of each URL
  unfoldable pub edition_links : Option Units → Option Units → Option Units → List EditionIdentity
  unfolding edition_identity
  edition_links registration official source = link registration (link official (link source []))
