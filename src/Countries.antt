-- ===== src/Countries.antt =====
-- packages/utils/src/index.ts: `countryFromExplicitValue` and `countryFromLocationText`.
use universal_race_calendar.Common.{
  ℕ, Bool, true, false, ◌&&◌, ◌||◌, not, if◌then◌else◌, ◌==◌, String, Option, none, some, List, [],
  ◌∷◌, any, all, codes, same_codes,
}
use universal_race_calendar.Common.Units.{Units, clean_text, text_or_empty}
pub mod Fixed
mod Tests

-- What the runtime does to texts: `stripAccents`, `toLowerCase` and `toUpperCase`.
pub record Letters : Type 0 where
  pub strip_accents : Units → Units
  pub to_lower : Units → Units
  pub to_upper : Units → Units

abbrev label : String → String → Units × Units
label name country = (codes name, codes country)

abbrev pub country_labels : List (Units × Units)
country_labels =
    label "brasil" "BR"
    ∷ label "brazil" "BR"
    ∷ label "br" "BR"
    ∷ label "portugal" "PT"
    ∷ label "pt" "PT"
    ∷ label "argentina" "AR"
    ∷ label "chile" "CL"
    ∷ label "uruguai" "UY"
    ∷ label "uruguay" "UY"
    ∷ label "paraguai" "PY"
    ∷ label "paraguay" "PY"
    ∷ label "bolivia" "BO"
    ∷ label "peru" "PE"
    ∷ label "colombia" "CO"
    ∷ label "mexico" "MX"
    ∷ label "estados unidos" "US"
    ∷ label "eua" "US"
    ∷ label "usa" "US"
    ∷ label "united states" "US"
    ∷ label "espanha" "ES"
    ∷ label "spain" "ES"
    ∷ []

abbrev pub label_of : Units → List (Units × Units) → Option Units
label_of key [] = none
label_of key ((name, country) ∷ labels) =
    if same_codes name key then some country else label_of key labels

-- `.replace(/[.]+$/, "")`
abbrev drop_dots : Units → Units
drop_dots [] = []
drop_dots (c ∷ cs) = if all (λ d. d == b'.') (c ∷ cs) then [] else c ∷ drop_dots cs

abbrev pub is_empty : Units → Bool
is_empty [] = true
is_empty (c ∷ cs) = false

-- `value || null`
abbrev pub non_empty : Units → Option Units
non_empty [] = none
non_empty (c ∷ cs) = some (c ∷ cs)

pub record Explicit : Type 0 where
  pub country : Option Units
  pub source_text : Option Units

pub record Located : Type 0 where
  pub country : Option Units
  pub source_text : Option Units
  pub conflicting : Bool

-- `value.split(/[,;\n]/)`, the last part first.
abbrev is_comma : ℕ → Bool
is_comma c = c == b',' || (c == b';' || c == 10)

abbrev add_unit : ℕ → List Units → List Units
add_unit c [] = (c ∷ []) ∷ []
add_unit c (part ∷ parts) = (c ∷ part) ∷ parts

pub split_commas : Units → List Units
split_commas [] = [] ∷ []
split_commas (c ∷ cs) =
    let rest = split_commas cs in if is_comma c then [] ∷ rest else add_unit c rest

abbrev reverse_onto : {A : Type 0} → List A → List A → List A
reverse_onto [] ys = ys
reverse_onto (x ∷ xs) ys = reverse_onto xs (x ∷ ys)

module _ (letters : Letters) where
  -- The text of a component, and the key that it is looked up by.
  abbrev pub component_text : Units → Units
  component_text s = drop_dots (clean_text s)

  abbrev pub component_label : Units → Option Units
  component_label text = label_of (letters.strip_accents (letters.to_lower text)) country_labels

  abbrev pub or_code : Units → Option Units → Option Units
  or_code text (some country) = some country
  or_code text none =
      if any (λ (l : Units × Units). same_codes l.1 (letters.to_upper text)) country_labels
      then some (letters.to_upper text)
      else none

  unfoldable pub country_from_explicit_value : Option Units → Explicit
  country_from_explicit_value value =
      let text = component_text (text_or_empty value) in
      record { country = or_code text (component_label text); source_text = non_empty text }

  -- The loop: components are put in front, and the first one that is no country ends it.
  unfoldable pub collect : List (Units × Units) → List Units → List (Units × Units)
  collect components [] = components
  collect components (part ∷ parts) = elim (component_text part) [
    | [] ↦ collect components parts
    | c ∷ cs ↦ elim (component_label (c ∷ cs)) [
      | none ↦ components
      | some country ↦ collect ((country, c ∷ cs) ∷ components) parts
    ]
  ]

  -- `new Set(countries)` of one or of more.
  abbrev single : List (Units × Units) → Located
  single [] = record { country = none; source_text = none; conflicting = false }
  single ((country, text) ∷ components) =
      if all (λ (c : Units × Units). same_codes c.0 country) components
      then record { country = some country; source_text = some text; conflicting = false }
      else record { country = none; source_text = none; conflicting = true }

  unfoldable pub country_from_location_text : Option Units → Located
  unfolding collect split_commas
  country_from_location_text value =
      single (collect [] (reverse_onto (split_commas (text_or_empty value)) []))
