-- ===== src/Edition/Soundness.antt =====
-- What it takes for an incoming event to join a candidate of another source.
use universal_race_calendar.Common.{
  ◌≡◌, refl, sym, ◌∙◌, subst, inl, inr, true, false, not, ◌||◌, Option, none, List, [], ◌∷◌, ◌++◌,
  map, keep, any, In, In-keep, any_sound, is_some, arith,
}
use universal_race_calendar.Common.Units.{Units}
use universal_race_calendar.Edition.Identity.{UrlRuntime, EditionIdentity}
use universal_race_calendar.Edition.Evidence.{
  EditionLocation, Reference, Incoming, Candidate, is_restricted, edition_location_evidence,
  check_observed, identity_conflict, strong_link, observations, cross_source_edition_reason,
  links_of, reference_links, identifies, same_link,
}
use universal_race_calendar.Edition.Symmetry.{
  SameField, SamePlace, edition_location_evidence-none_iff,
}

module _ (fold : Units → Units) where
  SameField-trans :
      (a b c : Option Units) → SameField fold a b → SameField fold b c → SameField fold a c
  SameField-trans a b c (t, p, q) (u, r, s) = (t, p, s ∙ sym r ∙ q)

  SamePlace-trans :
      {a b c : EditionLocation} → SamePlace fold a b → SamePlace fold b c → SamePlace fold a c
  SamePlace-trans {a} {b} {c} p q = record {
    left_dated = p.left_dated;
    right_dated = q.right_dated;
    same_day = p.same_day ∙ q.same_day;
    same_city = SameField-trans a.city b.city c.city p.same_city q.same_city;
    same_state = SameField-trans a.state b.state c.state p.same_state q.same_state;
    same_country = SameField-trans a.country b.country c.country p.same_country q.same_country;
  }

  In-observations :
      (refs : List Reference) (v : EditionLocation)
      → In v (map (λ ref. ref.observation) refs)
      → (ref : Reference) × In ref refs × (v ≡ ref.observation)
  In-observations [] v i = absurd i
  In-observations (r ∷ refs) v (inl e) = (r, inl refl, e)
  In-observations (r ∷ refs) v (inr i) =
      let (ref, j, e) = In-observations refs v i in (ref, inr j, e)

  -- What an association without objection rests on.
  pub record IsSupported (runtime : UrlRuntime) (incoming : Incoming) (candidate : Candidate)
      : Type 0 where
    pub no_conflict : identity_conflict fold runtime incoming candidate ≡ false
    pub unrestricted : is_restricted candidate.publication_status ≡ false
    pub linked :
        (link : EditionIdentity) × In link (links_of fold runtime incoming)
        × ((identifies fold runtime candidate link
              || any (same_link fold runtime link) (
                  links_of fold runtime candidate.event
                  ++ reference_links fold runtime candidate.source_references))
            ≡ true)
    pub witness : Reference
    pub listed : In witness candidate.source_references
    pub validated : witness.last_validated ≡ true
    pub same_place : SamePlace fold incoming.place witness.observation
    pub consistent :
        check_observed fold candidate.event.place
          (observations fold runtime candidate.source_references)
        ≡ none

  module _ (runtime : UrlRuntime) (incoming : Incoming) (candidate : Candidate)
      (accepted : cross_source_edition_reason fold runtime incoming candidate ≡ none) where
    parts :
        (identity_conflict fold runtime incoming candidate ≡ false)
        × (is_restricted candidate.publication_status ≡ false)
        × (edition_location_evidence fold incoming.place candidate.event.place ≡ none)
        × (strong_link fold runtime incoming candidate ≡ true)
        × (any
              (λ v. not (is_some (edition_location_evidence fold candidate.event.place v)))
              (observations fold runtime candidate.source_references)
            ≡ true)
        × (check_observed fold candidate.event.place
              (observations fold runtime candidate.source_references)
            ≡ none)
    unfolding cross_source_edition_reason
    parts = ground arith

  -- An event is associated with a candidate only if no identifier of its source conflicts, the
  -- candidate is not restricted, a link of the event identifies it, and a reference of the candidate
  -- that its source has validated was observed on the event's day, in its city, state and country.
  pub cross_source_edition_reason-IsSupported :
      (runtime : UrlRuntime) (incoming : Incoming) (candidate : Candidate)
      → cross_source_edition_reason fold runtime incoming candidate ≡ none
      → IsSupported runtime incoming candidate
  unfolding strong_link
  cross_source_edition_reason-IsSupported runtime incoming candidate accepted =
      let (a, b, c, d, e, f) = parts runtime incoming candidate accepted in
      let (link, i, t) = any_sound _ (links_of fold runtime incoming) d in
      let (v, j, u) = any_sound _ (observations fold runtime candidate.source_references) e in
      let (ref, k, same) =
        In-observations (keep (λ ref. ref.last_validated) candidate.source_references) v j in
      let (listed, validated) = In-keep (λ ref. ref.last_validated) candidate.source_references k in
      let agrees : edition_location_evidence fold candidate.event.place v ≡ none =
        ground (arith, u) in
      let here =
        (edition_location_evidence-none_iff fold incoming.place candidate.event.place).0 c in
      let there = (edition_location_evidence-none_iff fold candidate.event.place v).0 agrees in
      record {
        no_conflict = a;
        unrestricted = b;
        linked = (link, i, t);
        witness = ref;
        listed = listed;
        validated = validated;
        same_place = subst (SamePlace fold incoming.place) same (SamePlace-trans here there);
        consistent = f;
      }
