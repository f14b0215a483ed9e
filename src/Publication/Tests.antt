-- ===== src/Publication/Tests.antt =====
-- An event of a CorridasBR page in Santa Catarina.
use universal_race_calendar.Common.{
  ◌≡◌, refl, ◌↔◌, if◌then◌else◌, none, some, [], ◌∷◌, codes, same_codes,
}
use universal_race_calendar.Common.Units.{Units, clean_text}
use universal_race_calendar.Dates.{normalize_date}
use universal_race_calendar.Edition.Identity.{Url, UrlRuntime}
use universal_race_calendar.Publication.{
  Source, PublicationEvent, written, event_publication_error, requires_date_city_state,
  requires_valid_source_reference,
}
use universal_race_calendar.Publication.Soundness.{IsPublishable, event_publication_error-none_iff}

abbrev page : Units
page = codes "http://corridasbr.com.br/SC/mostracorrida.asp?escolha=77"

abbrev page_url : Url
page_url = record {
  protocol = codes "http:";
  username = [];
  password = [];
  hostname = codes "corridasbr.com.br";
  port = [];
  pathname = codes "/SC/mostracorrida.asp";
  params = (codes "escolha", codes "77") ∷ [];
  hash = [];
}

-- A runtime that knows this page only.
one_page : UrlRuntime
one_page = record {
  parse = λ s. if same_codes s page then some page_url else none;
  href = λ u. page;
  sorted = λ ps. ps;
}

abbrev year : Units
year = codes "2026"

abbrev own : Source
own = record {
  source_type = some (codes "corridasbr");
  source_external_id = some (codes "77");
  url = some page;
}

abbrev race : PublicationEvent
race = record {
  name = some (codes "  Corrida da Ilha ");
  date = some (written (codes "2026-11-08"));
  city = some (codes "Florianópolis");
  state = some (codes "SC");
  country = some (codes "BR");
  modality = codes "road";
  own_source = own;
  source_references = [];
}

abbrev other_state : PublicationEvent
other_state = record race { state = some (codes "PR") }

abbrev no_city : PublicationEvent
no_city = record race { city = some (codes "Veja as Corridas  nesta Região") }

publishable : event_publication_error one_page year race ≡ none
unfolding event_publication_error clean_text one_page normalize_date
publishable = refl

page_of_another_state :
    event_publication_error one_page year other_state ≡ some requires_valid_source_reference
unfolding event_publication_error clean_text one_page normalize_date
page_of_another_state = refl

placeholder_city : event_publication_error one_page year no_city ≡ some requires_date_city_state
unfolding event_publication_error clean_text one_page normalize_date
placeholder_city = refl

event_publication_error-none_iff_example :
    (event_publication_error one_page year race ≡ none) ↔ IsPublishable one_page year race
event_publication_error-none_iff_example = event_publication_error-none_iff one_page year race
