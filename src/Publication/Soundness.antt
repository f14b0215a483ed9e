-- ===== src/Publication/Soundness.antt =====
-- When an event may be published: the policy says so exactly for the events with a known name, day,
-- place, modality and source.
use universal_race_calendar.Common.{
  ◌≡◌, refl, sym, subst, ◌↔◌, Bool, true, false, not, ◌||◌, ◌&&◌, if◌then◌else◌, Option, none, some,
  [], ◌∷◌, any, In, any_sound, any_complete, codes, same_codes,
}
use universal_race_calendar.Common.Units.{
  text_or_empty, Units, clean_text, same_codes_iff, same_codes_refl,
}
use universal_race_calendar.Dates.{normalize_date, is_valid_iso_date}
use universal_race_calendar.Dates.Normal.{is_valid_iso_date-Iso, normalize_date_fixed_iff}
use universal_race_calendar.Edition.Identity.{
  EditionIdentity, UrlRuntime, edition_identity, provider_text, state_codes,
}
use universal_race_calendar.Edition.Evidence.{same_text, is_empty}
use universal_race_calendar.Edition.Symmetry.{same_text_iff}
use universal_race_calendar.Publication.{
  Source, DateValue, moment, written, PublicationEvent, requires_name, requires_date_city_state,
  requires_brazil_country, requires_confirmed_modality, requires_valid_source_reference,
  confirmed_modalities, is_iso_form, valid_publication_city, valid_brazilian_publication_location,
  valid_publication_date, compatible, same_identifier, fits_state, matches_identity,
  valid_publication_reference, has_publication_reference, event_publication_error,
}

-- A moment in time, or a day of the calendar in the form year-month-day.
abbrev IsDated : Option DateValue → Type 0
IsDated none = false ≡ true
IsDated (some (moment finite)) = finite ≡ true
IsDated (some (written s)) = is_valid_iso_date s ≡ true

is_iso_form-valid : (s : Units) → is_valid_iso_date s ≡ true → is_iso_form s ≡ true
unfolding is_iso_form
is_iso_form-valid s v =
    let w = is_valid_iso_date-Iso s v in
    rw (
      w.text, w.h_dash, w.k_dash, w.a_digit, w.b_digit, w.c_digit, w.d_digit, w.m_digit, w.n_digit,
      w.p_digit, w.q_digit,
    )

not-true : (x : Bool) → not x ≡ true → x ≡ false
not-true false h = refl
not-true true h = absurd cc

both_true : (x y : Bool) → x && y ≡ true → (x ≡ true) × (y ≡ true)
both_true true y h = (refl, h)
both_true false y h = absurd cc

guards-passed :
    (a b c d e f : Bool)
    → (if a
        then some requires_name
        else if not b || not c
        then some requires_date_city_state
        else if not d
        then some requires_brazil_country
        else if not e
        then some requires_confirmed_modality
        else if not f
        then some requires_valid_source_reference
        else none)
      ≡ none
    → (a ≡ false) × (b ≡ true) × (c ≡ true) × (d ≡ true) × (e ≡ true) × (f ≡ true)
guards-passed true b c d e f h = absurd cc
guards-passed false false c d e f h = absurd cc
guards-passed false true false d e f h = absurd cc
guards-passed false true true false e f h = absurd cc
guards-passed false true true true false f h = absurd cc
guards-passed false true true true true false h = absurd cc
guards-passed false true true true true true h = (refl, refl, refl, refl, refl, refl)

module _ (runtime : UrlRuntime) (year : Units) where
  valid_publication_date_iff :
      (date : Option DateValue) → (valid_publication_date runtime year date ≡ true) ↔ IsDated date
  unfolding valid_publication_date
  valid_publication_date_iff none = (λ h. h, λ d. d)
  valid_publication_date_iff (some (moment finite)) = (λ h. h, λ d. d)
  valid_publication_date_iff (some (written s)) = (
    λ h.
        let (form, same) = both_true _ _ h in
        (normalize_date_fixed_iff year s).0
          ((same_text_iff (normalize_date year (some s)) (some s)).0 same),
    λ v.
        let same = (same_text_iff _ _).1 ((normalize_date_fixed_iff year s).1 v) in
        rw (is_iso_form-valid s v, same),
  )

  -- A source of the event whose URL is that of an edition of the same source, with the same
  -- identifier, and in the event's state where the URL names one.
  pub record IsSource (state : Option Units) (ref : Source) : Type 0 where
    pub identity : EditionIdentity
    pub identified : edition_identity runtime ref.url ≡ some identity
    pub same_source : ref.source_type ≡ some (provider_text identity.source)
    pub has_identifier : is_empty ref.source_external_id ≡ false
    pub same_id : same_identifier identity.source identity.external_id ref.source_external_id ≡ true
    pub in_state : fits_state state (some identity) ≡ true

  compatible_of :
      (state : Option Units) (ref : Source) (found : Option EditionIdentity)
      → edition_identity runtime ref.url ≡ found
      → matches_identity ref found && fits_state state found ≡ true
      → IsSource state ref
  unfolding matches_identity
  compatible_of state ref none e h = absurd cc
  compatible_of state ref (some identity) e h =
      let (matched, fits) = both_true _ _ h in
      let (typed, rest) = both_true _ _ matched in
      let (known, same) = both_true _ _ rest in
      record {
        identity = identity;
        identified = e;
        same_source =
            sym ((same_text_iff (some (provider_text identity.source)) ref.source_type).0 typed);
        has_identifier = not-true _ known;
        same_id = same;
        in_state = fits;
      }

  compatible_iff :
      (state : Option Units) (ref : Source)
      → (compatible runtime year state ref ≡ true) ↔ IsSource state ref
  unfolding valid_publication_reference
  compatible_iff state ref = (
    λ h. compatible_of state ref (edition_identity runtime ref.url) refl h,
    λ w.
        let same = (same_text_iff _ _).1 (sym w.same_source) in
        let e = w.identified in
        rw (e, matches_identity, same, w.has_identifier, w.same_id, w.in_state),
  )

  -- What the policy asks of an event.
  pub record IsPublishable (event : PublicationEvent) : Type 0 where
    pub named : same_codes (clean_text (text_or_empty event.name)) [] ≡ false
    pub dated : IsDated event.date
    pub city_known : valid_publication_city event.city ≡ true
    pub in_a_state : (code : Units) × In code state_codes × (event.state ≡ some code)
    pub in_brazil : event.country ≡ some (codes "BR")
    pub modality_confirmed : In event.modality confirmed_modalities
    pub sourced :
        (ref : Source) × In ref (event.own_source ∷ event.source_references)
        × IsSource event.state ref

  passes :
      (event : PublicationEvent)
      → event_publication_error runtime year event ≡ none
      → (same_codes (clean_text (text_or_empty event.name)) [] ≡ false)
        × (valid_publication_date runtime year event.date ≡ true)
        × (valid_brazilian_publication_location event.city event.state ≡ true)
        × (same_text event.country (some (codes "BR")) ≡ true)
        × (any (λ m. same_codes m event.modality) confirmed_modalities ≡ true)
        × (has_publication_reference runtime year event ≡ true)
  unfolding event_publication_error
  passes event h =
      guards-passed (same_codes (clean_text (text_or_empty event.name)) [])
        (valid_publication_date runtime year event.date)
        (valid_brazilian_publication_location event.city event.state)
        (same_text event.country (some (codes "BR")))
        (any (λ m. same_codes m event.modality) confirmed_modalities)
        (has_publication_reference runtime year event) h

  located_iff :
      (city state : Option Units)
      → (valid_brazilian_publication_location city state ≡ true) ↔ (
          (valid_publication_city city ≡ true)
          × ((code : Units) × In code state_codes × (state ≡ some code)))
  unfolding valid_brazilian_publication_location
  located_iff city state = (
    λ h.
        let (c, s) = both_true _ _ h in
        let (code, i, t) = any_sound (λ code. same_text (some code) state) state_codes s in
        (c, (code, i, sym ((same_text_iff (some code) state).0 t))),
    λ (c, (code, i, e)).
        let found =
          any_complete (λ x. same_text (some x) state) state_codes i
            ((same_text_iff (some code) state).1 (sym e)) in
        rw (c, found),
  )

  modality_iff :
      (m : Units)
      → (any (λ x. same_codes x m) confirmed_modalities ≡ true) ↔ In m confirmed_modalities
  modality_iff m = (
    λ h.
        let (x, i, t) = any_sound (λ x. same_codes x m) confirmed_modalities h in
        subst (λ y. In y confirmed_modalities) ((same_codes_iff x m).0 t) i,
    λ i. any_complete (λ x. same_codes x m) confirmed_modalities {x = m} i (same_codes_refl m),
  )

  sourced_iff :
      (event : PublicationEvent)
      → (has_publication_reference runtime year event ≡ true) ↔ (
          (ref : Source) × In ref (event.own_source ∷ event.source_references)
          × IsSource event.state ref)
  unfolding has_publication_reference
  sourced_iff event =
      let sources = event.own_source ∷ event.source_references in
      (
        λ h.
            let (ref, i, t) = any_sound (compatible runtime year event.state) sources h in
            (ref, i, (compatible_iff event.state ref).0 t),
        λ (ref, i, w).
            any_complete (compatible runtime year event.state) sources i
              ((compatible_iff event.state ref).1 w),
      )

  -- An event is published without objection exactly when it is publishable: it has a name, a day of
  -- the calendar, a city, a state of Brazil, the country, a confirmed modality and a source of its own
  -- edition.
  pub event_publication_error-none_iff :
      (event : PublicationEvent)
      → (event_publication_error runtime year event ≡ none) ↔ IsPublishable event
  unfolding event_publication_error
  event_publication_error-none_iff event = (
    λ h.
        let (name, date, place, country, modality, reference) = passes event h in
        let (city, state) = (located_iff event.city event.state).0 place in
        record {
          named = name;
          dated = (valid_publication_date_iff event.date).0 date;
          city_known = city;
          in_a_state = state;
          in_brazil = (same_text_iff _ _).0 country;
          modality_confirmed = (modality_iff event.modality).0 modality;
          sourced = (sourced_iff event).0 reference;
        },
    λ p.
        let date = (valid_publication_date_iff event.date).1 p.dated in
        let place = (located_iff event.city event.state).1 (p.city_known, p.in_a_state) in
        let country = (same_text_iff _ _).1 p.in_brazil in
        let modality = (modality_iff event.modality).1 p.modality_confirmed in
        let reference = (sourced_iff event).1 p.sourced in
        rw (p.named, date, place, country, modality, reference),
  )
