-- ===== src/Publication.antt =====
-- packages/database/src/publication-policy.ts: what an event needs before it is published. A text is
-- the list of its UTF-16 code units.
use universal_race_calendar.Common.{
  ℕ, Bool, true, false, ◌&&◌, ◌||◌, not, if◌then◌else◌, ◌==◌, Option, none, some, List, [], ◌∷◌,
  codes, any, same_codes,
}
use universal_race_calendar.Common.Units.{
  Units, is_number, is_space, lower, after_prefix, begins, contains, clean_text, text_or_empty,
}
use universal_race_calendar.Dates.{normalize_date}
use universal_race_calendar.Edition.Identity.{
  Provider, ticketsports, openresults, corridasbr, provider_text, EditionIdentity, UrlRuntime,
  edition_identity, state_codes,
}
use universal_race_calendar.Edition.Evidence.{is_empty, same_text}
pub mod Soundness
mod Tests

-- What a test with the flag `i` compares, in a text of Portuguese.
abbrev fold_case : Units → Units
fold_case [] = []
fold_case (c ∷ cs) = (if c == 195 then 227 else lower c) ∷ fold_case cs

abbrev skip_space : Units → Units
skip_space [] = []
skip_space (c ∷ cs) = let rest = skip_space cs in if is_space c then rest else c ∷ cs

-- `\s+`
abbrev some_space : Units → Option Units
some_space [] = none
some_space (c ∷ cs) = if is_space c then some (skip_space cs) else none

-- `(?:nesta cidade|nesta regi[aã]o)` behind a space
abbrev here_follows : Units → Bool
here_follows rest = elim (some_space rest) [
  | none ↦ false
  | some s ↦
      begins (codes "nesta cidade") s
      || (begins (codes "nesta regiao") s || begins (codes "nesta região") s)
]

-- `corridas?\s+(?:nesta cidade|nesta regi[aã]o)` here
abbrev placeholder_here : Units → Bool
placeholder_here s = elim (after_prefix (codes "corrida") s) [
  | none ↦ false
  | some rest ↦
      here_follows rest
      || elim (after_prefix (codes "s") rest) [ none ↦ false | some more ↦ here_follows more ]
]

abbrev has_placeholder : Units → Bool
has_placeholder [] = false
has_placeholder (c ∷ cs) = placeholder_here (c ∷ cs) || has_placeholder cs

abbrev has_address : Units → Bool
has_address s = contains (codes "http://") s || contains (codes "https://") s

-- `[\uFFFD<>]`
abbrev is_broken : ℕ → Bool
is_broken c = c == 65533 || (c == b'<' || c == b'>')

unfoldable pub valid_publication_city : Option Units → Bool
valid_publication_city value =
    let city = clean_text (text_or_empty value) in
    not (same_codes city [])
    && (not (any is_broken city)
        && not (has_placeholder (fold_case city) || has_address (fold_case city)))

unfoldable pub valid_brazilian_publication_location : Option Units → Option Units → Bool
unfolding valid_publication_city
valid_brazilian_publication_location city state =
    valid_publication_city city && any (λ code. same_text (some code) state) state_codes

pub record Source : Type 0 where
  pub source_type : Option Units
  pub source_external_id : Option Units
  pub url : Option Units

-- What stands before the first colon, and behind it.
abbrev before_colon : Units → Units
before_colon [] = []
before_colon (c ∷ cs) = let rest = before_colon cs in if c == b':' then [] else c ∷ rest

abbrev behind_colon : Units → Option Units
behind_colon [] = none
behind_colon (c ∷ cs) = let rest = behind_colon cs in if c == b':' then some cs else rest

-- `split(":")[0]` and `split(":")[1]`
abbrev first_piece : Units → Units
first_piece s = before_colon s

abbrev second_piece : Units → Option Units
second_piece s = elim (behind_colon s) [ none ↦ none | some rest ↦ some (before_colon rest) ]

abbrev is_corridasbr : Provider → Bool
is_corridasbr corridasbr = true
is_corridasbr _ = false

-- The test of the source's own identifier against the one in the URL.
unfoldable pub same_identifier : Provider → Units → Option Units → Bool
same_identifier ticketsports id own = same_text (some id) own
same_identifier corridasbr id own =
    same_text (some id) own
    || elim (second_piece id) [ none ↦ false | some piece ↦ same_text (some piece) own ]
same_identifier openresults id own = same_text (some id) own || is_number (text_or_empty own)

unfoldable pub matches_identity : Source → Option EditionIdentity → Bool
matches_identity ref none = false
matches_identity ref (some identity) =
    same_text (some (provider_text identity.source)) ref.source_type
    && (not (is_empty ref.source_external_id)
        && same_identifier identity.source identity.external_id ref.source_external_id)

-- An edition of CorridasBR counts only in the state that its URL names.
unfoldable pub fits_state : Option Units → Option EditionIdentity → Bool
fits_state state none = false
fits_state state (some identity) =
    not (is_corridasbr identity.source) || same_text (some (first_piece identity.external_id)) state

-- A date is a valid or invalid `Date`, or a text.
pub data DateValue : Type 0 where
  moment : Bool → DateValue
  written : Units → DateValue

unfoldable pub is_iso_form : Units → Bool
is_iso_form (a ∷ b ∷ c ∷ d ∷ h ∷ m ∷ n ∷ k ∷ p ∷ q ∷ []) =
    is_number (a ∷ b ∷ c ∷ d ∷ [])
    && (h == b'-' && (is_number (m ∷ n ∷ []) && (k == b'-' && is_number (p ∷ q ∷ []))))
is_iso_form _ = false

pub record PublicationEvent : Type 0 where
  pub name : Option Units
  pub date : Option DateValue
  pub city : Option Units
  pub state : Option Units
  pub country : Option Units
  pub modality : Units
  pub own_source : Source
  pub source_references : List Source

pub data PublicationError : Type 0 where
  requires_name requires_date_city_state requires_brazil_country requires_confirmed_modality
        requires_valid_source_reference :
      PublicationError

abbrev pub confirmed_modalities : List Units
confirmed_modalities =
    codes "road" ∷ codes "trail" ∷ codes "mixed" ∷ codes "kids" ∷ codes "walk" ∷ []

-- `year` is the text of the current year.
module _ (runtime : UrlRuntime) (year : Units) where
  unfoldable pub valid_publication_reference : Source → Bool
  unfolding matches_identity edition_identity
  valid_publication_reference ref = matches_identity ref (edition_identity runtime ref.url)

  abbrev pub compatible : Option Units → Source → Bool
  compatible state ref =
      valid_publication_reference ref && fits_state state (edition_identity runtime ref.url)

  unfoldable pub has_publication_reference : PublicationEvent → Bool
  unfolding valid_publication_reference fits_state same_identifier matches_identity edition_identity
  has_publication_reference event =
      compatible event.state event.own_source
      || any (compatible event.state) event.source_references

  unfoldable pub valid_publication_date : Option DateValue → Bool
  unfolding is_iso_form
  valid_publication_date none = false
  valid_publication_date (some (moment is_finite)) = is_finite
  valid_publication_date (some (written text)) =
      is_iso_form text && same_text (normalize_date year (some text)) (some text)

  unfoldable pub event_publication_error : PublicationEvent → Option PublicationError
  unfolding valid_publication_date valid_brazilian_publication_location has_publication_reference
  event_publication_error event =
      if same_codes (clean_text (text_or_empty event.name)) []
      then some requires_name
      else if not (valid_publication_date event.date)
          || not (valid_brazilian_publication_location event.city event.state)
      then some requires_date_city_state
      else if not (same_text event.country (some (codes "BR")))
      then some requires_brazil_country
      else if not (any (λ m. same_codes m event.modality) confirmed_modalities)
      then some requires_confirmed_modality
      else if not (has_publication_reference event)
      then some requires_valid_source_reference
      else none
