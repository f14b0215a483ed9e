-- ===== src/Edition/Symmetry.antt =====
-- The evidence of place and date: exactly when there is nothing to object, and on both sides alike.
use universal_race_calendar.Common.{
  ◌≡◌, refl, sym, ◌∙◌, ap, ◌↔◌, inl, inr, true, false, ◌||◌, Option, none, some, [], ◌∷◌,
  same_codes, Bool-cases, arith,
}
use universal_race_calendar.Common.Units.{Units, same_codes_iff}
use universal_race_calendar.Edition.Evidence.{
  EditionLocation, Match, agrees, is_empty, day_of, same_text, normalized, compare_field,
  check_fields, place_matches, edition_location_evidence,
}

same_codes_comm : (a b : Units) → same_codes a b ≡ same_codes b a
same_codes_comm a b = elim (Bool-cases (same_codes a b)) [
  | inl y ↦ y ∙ sym ((same_codes_iff b a).1 (sym ((same_codes_iff a b).0 y)))
  | inr n ↦ elim (Bool-cases (same_codes b a)) [
    | inr m ↦ n ∙ sym m
    | inl y ↦ absurd (let h = (same_codes_iff a b).1 (sym ((same_codes_iff b a).0 y)) in cc (h, n))
  ]
]

same_text_comm : (a b : Option Units) → same_text a b ≡ same_text b a
same_text_comm none none = refl
same_text_comm none (some b) = refl
same_text_comm (some a) none = refl
same_text_comm (some a) (some b) = same_codes_comm a b

pub same_text_iff : (a b : Option Units) → (same_text a b ≡ true) ↔ (a ≡ b)
same_text_iff none none = (λ _. refl, λ _. refl)
same_text_iff none (some b) = (λ h. cc, λ h. cc)
same_text_iff (some a) none = (λ h. cc, λ h. cc)
same_text_iff (some a) (some b) =
    (λ h. ap some ((same_codes_iff a b).0 h), λ h. (same_codes_iff a b).1 (ground (arith, h)))

compare_field_comm : (a b : Option Units) → compare_field a b ≡ compare_field b a
compare_field_comm none none = refl
compare_field_comm none (some b) = refl
compare_field_comm (some a) none = refl
compare_field_comm (some a) (some b) = rw (same_codes_comm a b)

module _ (fold : Units → Units) where
  -- Comparing the days and places of two records gives the same reason from either side.
  edition_location_evidence_comm :
      (left right : EditionLocation)
      → edition_location_evidence fold left right ≡ edition_location_evidence fold right left
  unfolding edition_location_evidence
  edition_location_evidence_comm left right =
      let city = compare_field_comm (normalized fold left.city) (normalized fold right.city) in
      let state = compare_field_comm (normalized fold left.state) (normalized fold right.state) in
      let country =
        compare_field_comm (normalized fold left.country) (normalized fold right.country) in
      let date = same_text_comm (day_of left.date) (day_of right.date) in
      let places : place_matches fold left right ≡ place_matches fold right left =
        cc (city, state, country) in
      let checked = ap (check_fields false) places in
      elim (Bool-cases (is_empty left.date)) [
        | inl l ↦ elim (Bool-cases (is_empty right.date)) [ inl r ↦ rw (l, r) | inr r ↦ rw (l, r) ]
        | inr l ↦ elim (Bool-cases (is_empty right.date)) [
          | inl r ↦ rw (l, r)
          | inr r ↦ rw (l, r, date, checked)
        ]
      ]

  -- Both texts are known and fold to the same.
  abbrev pub SameField : Option Units → Option Units → Type 0
  SameField a b = (t : Units) × (normalized fold a ≡ some t) × (normalized fold b ≡ some t)

  -- The two records name the same known day, city, state and country.
  pub record SamePlace (left right : EditionLocation) : Type 0 where
    pub left_dated : is_empty left.date ≡ false
    pub right_dated : is_empty right.date ≡ false
    pub same_day : day_of left.date ≡ day_of right.date
    pub same_city : SameField left.city right.city
    pub same_state : SameField left.state right.state
    pub same_country : SameField left.country right.country

  agrees_iff :
      (a b : Option Units)
      → (compare_field a b ≡ agrees) ↔ ((t : Units) × (a ≡ some t) × (b ≡ some t))
  agrees_iff none b = (λ h. cc, λ (t, p, q). cc)
  agrees_iff (some a) none = (λ h. cc, λ (t, p, q). cc)
  agrees_iff (some a) (some b) = (
    λ h. (a, refl, ap some (sym ((same_codes_iff a b).0 (ground arith)))),
    λ (t, p, q).
        let e : same_codes a b ≡ true = (same_codes_iff a b).1 (ground (arith, p, q)) in rw e,
  )

  check_fields-none :
      (a b c : Match)
      → check_fields false (a ∷ b ∷ c ∷ []) ≡ none
      → (a ≡ agrees) × (b ≡ agrees) × (c ≡ agrees)
  unfolding check_fields
  check_fields-none a b c h = ground arith

  -- Two records of an edition are compared without objection exactly when both name the same known
  -- day, city, state and country.
  pub edition_location_evidence-none_iff :
      (left right : EditionLocation)
      → (edition_location_evidence fold left right ≡ none) ↔ SamePlace left right
  unfolding edition_location_evidence
  edition_location_evidence-none_iff left right = (
    λ h. elim (Bool-cases (is_empty left.date || is_empty right.date)) [
      | inl y ↦ absurd (let q = rw y at h in cc)
      | inr n ↦ elim (Bool-cases (same_text (day_of left.date) (day_of right.date))) [
        | inr d ↦ absurd (let q = rw (n, d) at h in cc)
        | inl d ↦
            let (a, b, c) = check_fields-none _ _ _ (rw (n, d) at h) in
            record {
              left_dated = ground arith;
              right_dated = ground arith;
              same_day = (same_text_iff _ _).0 d;
              same_city = (agrees_iff _ _).0 a;
              same_state = (agrees_iff _ _).0 b;
              same_country = (agrees_iff _ _).0 c;
            }
      ]
    ],
    λ p.
        let l = p.left_dated in
        let r = p.right_dated in
        let d = (same_text_iff _ _).1 p.same_day in
        let city = (agrees_iff _ _).1 p.same_city in
        let state = (agrees_iff _ _).1 p.same_state in
        let country = (agrees_iff _ _).1 p.same_country in
        rw (l, r, d) (unfold check_fields in rw (city, state, country)),
  )
