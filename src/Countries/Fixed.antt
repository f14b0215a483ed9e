-- ===== src/Countries/Fixed.antt =====
-- A country that is recognised is recognised again.
use universal_race_calendar.Common.{
  ◌≡◌, refl, subst, ◌⊎◌, inl, inr, true, Option, none, some, List, [], ◌∷◌, any, all, All, All-In,
  any_sound, same_codes, Bool-cases, codes,
}
use universal_race_calendar.Common.Units.{
  Units, is_ascii, lower_all, upper_all, same_codes_iff, clean_text, text_or_empty,
}
use universal_race_calendar.Countries.{
  Letters, country_labels, label_of, component_text, component_label, or_code, non_empty,
  country_from_explicit_value,
}

-- What the runtime's functions do to a text of ASCII characters.
pub record IsAsciiLetters (letters : Letters) : Type 0 where
  pub strips : (s : Units) → all is_ascii s ≡ true → letters.strip_accents s ≡ s
  pub lowers : (s : Units) → all is_ascii s ≡ true → letters.to_lower s ≡ lower_all s
  pub uppers : (s : Units) → all is_ascii s ≡ true → letters.to_upper s ≡ upper_all s

abbrev IsListed : (Units → Type 0) → List (Units × Units) → Type 0
IsListed P labels = All (λ (l : Units × Units). P l.1) labels

label_of-IsListed :
    (P : Units → Type 0) (key : Units) (labels : List (Units × Units)) (country : Units)
    → IsListed P labels
    → label_of key labels ≡ some country
    → P country
label_of-IsListed P key [] country h e = absurd cc
label_of-IsListed P key ((name, c) ∷ labels) country (p, h) e =
    elim (Bool-cases (same_codes name key)) [
      | inl y ↦ let q : some c ≡ some country = rw y at e in subst P (some-injective q) p
      | inr n ↦ label_of-IsListed P key labels country h (rw n at e)
    ]
  where
    some-injective : {a b : Units} → some a ≡ some b → a ≡ b
    some-injective h = cc

module _ (letters : Letters) where
  or_code-IsListed :
      (P : Units → Type 0) (text country : Units) (o : Option Units)
      → IsListed P country_labels
      → ((c : Units) → o ≡ some c → P c)
      → or_code letters text o ≡ some country
      → P country
  or_code-IsListed P text country (some c) h found e = found country e
  or_code-IsListed P text country none h found e =
      elim (Bool-cases
        (any (λ (l : Units × Units). same_codes l.1 (letters.to_upper text)) country_labels)) [
          | inr n ↦ absurd (let q = rw n at e in cc)
          | inl y ↦
              let (l, i, s) =
                any_sound (λ (l : Units × Units). same_codes l.1 (letters.to_upper text))
                  country_labels y in
              let q : some (letters.to_upper text) ≡ some country = rw y at e in
              let same = (same_codes_iff l.1 (letters.to_upper text)).0 s in
              let p = All-In (λ (l : Units × Units). P l.1) country_labels h i in
              let to_country : letters.to_upper text ≡ country = cc in
              subst P to_country (subst P same p)
        ]

  abbrev IsFixed : Units → Type 0
  IsFixed c =
      country_from_explicit_value letters (some c)
      ≡ record { country = some c; source_text = some c }

  -- What makes a code fixed, to be computed.
  abbrev IsCode : Units → Type 0
  IsCode c =
      (component_text letters c ≡ c)
      × (non_empty c ≡ some c)
      × (all is_ascii c ≡ true)
      × (all is_ascii (lower_all c) ≡ true)
      × ((label_of (lower_all c) country_labels ≡ some c)
          ⊎ ((label_of (lower_all c) country_labels ≡ none)
              × (upper_all c ≡ c)
              × (any (λ (l : Units × Units). same_codes l.1 c) country_labels ≡ true)))

  module _ (ascii : IsAsciiLetters letters) where
    code-IsFixed : (c : Units) → IsCode c → IsFixed c
    unfolding country_from_explicit_value
    code-IsFixed c (text, full, a, b, inl found) =
        let low = ascii.lowers c a in
        let bare = ascii.strips (lower_all c) b in rw (text, full, low, bare, found) refl
    code-IsFixed c (text, full, a, b, inr (missing, up, known)) =
        let low = ascii.lowers c a in
        let bare = ascii.strips (lower_all c) b in
        let high = ascii.uppers c a in rw (text, full, low, bare, missing, high, up, known) refl

    codes-IsFixed : IsListed IsFixed country_labels
    unfolding clean_text
    codes-IsFixed =
        let br = code-IsFixed (codes "BR") (refl, refl, refl, refl, inl refl) in
        let pt = code-IsFixed (codes "PT") (refl, refl, refl, refl, inl refl) in
        let ar = code-IsFixed (codes "AR") (refl, refl, refl, refl, inr (refl, refl, refl)) in
        let cl = code-IsFixed (codes "CL") (refl, refl, refl, refl, inr (refl, refl, refl)) in
        let uy = code-IsFixed (codes "UY") (refl, refl, refl, refl, inr (refl, refl, refl)) in
        let py = code-IsFixed (codes "PY") (refl, refl, refl, refl, inr (refl, refl, refl)) in
        let bo = code-IsFixed (codes "BO") (refl, refl, refl, refl, inr (refl, refl, refl)) in
        let pe = code-IsFixed (codes "PE") (refl, refl, refl, refl, inr (refl, refl, refl)) in
        let co = code-IsFixed (codes "CO") (refl, refl, refl, refl, inr (refl, refl, refl)) in
        let mx = code-IsFixed (codes "MX") (refl, refl, refl, refl, inr (refl, refl, refl)) in
        let us = code-IsFixed (codes "US") (refl, refl, refl, refl, inr (refl, refl, refl)) in
        let es = code-IsFixed (codes "ES") (refl, refl, refl, refl, inr (refl, refl, refl)) in
        (
          br,
          (
            br,
            (
              br,
              (
                pt,
                (
                  pt,
                  (
                    ar,
                    (
                      cl,
                      (
                        uy,
                        (
                          uy,
                          (
                            py,
                            (py, (bo, (pe, (co, (mx, (us, (us, (us, (us, (es, (es, tt))))))))))),
                          ),
                        ),
                      ),
                    ),
                  ),
                ),
              ),
            ),
          ),
        )

  -- A country that is read off an explicit value, whatever the value, is one of the codes that are
  -- recognised again: its own code gives the same country, and itself as the source's text, if the
  -- runtime's functions change the case of ASCII texts only and leave them without accents.
  pub country_from_explicit_value_fixed :
      (ascii : IsAsciiLetters letters) (value : Option Units) (c : Units)
      → (country_from_explicit_value letters value).country ≡ some c
      → country_from_explicit_value letters (some c)
        ≡ record { country = some c; source_text = some c }
  unfolding country_from_explicit_value
  country_from_explicit_value_fixed ascii value c h =
      let text = component_text letters (text_or_empty value) in
      or_code-IsListed IsFixed text c (component_label letters text) (codes-IsFixed ascii)
        (λ d e.
          label_of-IsListed IsFixed (letters.strip_accents (letters.to_lower text)) country_labels d
            (codes-IsFixed ascii) e)
        h
