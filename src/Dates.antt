-- ===== src/Dates.antt =====
-- packages/utils/src/index.ts: `normalizeDate` and `isValidIsoDate`. A text is the list of its UTF-16
-- code units.
use universal_race_calendar.Common.{
  ℕ, zero, suc, ◌+◌, ◌*◌, ◌-◌, ◌%◌, Bool, true, false, ◌&&◌, ◌||◌, not, if◌then◌else◌, ◌==◌, leb,
  Option, none, some, List, [], ◌∷◌, ◌++◌, codes, length, any, same_codes,
}
use universal_race_calendar.Common.Units.{
  Units, is_digit, is_letter, after_prefix, clean_text, text_or_empty,
}
pub mod Normal
mod Tests

abbrev digit : ℕ → ℕ
digit c = c - b'0'

abbrev is_leap : ℕ → Bool
is_leap year = year % 4 == 0 && (not (year % 100 == 0) || year % 400 == 0)

abbrev days_in_month : ℕ → ℕ → ℕ
days_in_month year month =
    if month == 2
    then (if is_leap year then 29 else 28)
    else if any (λ m. m == month) (4 ∷ 6 ∷ 9 ∷ 11 ∷ [])
    then 30
    else 31

abbrev is_day : ℕ → ℕ → ℕ → Bool
is_day year month day =
    leb 1 month && (leb month 12 && (leb 1 day && leb day (days_in_month year month)))

-- `isValidIsoDate`: the runtime reads the text as a day and prints the same day.
unfoldable pub is_valid_iso_date : Units → Bool
is_valid_iso_date (a ∷ b ∷ c ∷ d ∷ h ∷ m ∷ n ∷ k ∷ p ∷ q ∷ []) =
    is_digit a
    && (is_digit b
        && (is_digit c
            && (is_digit d
                && (h == b'-'
                    && (is_digit m
                        && (is_digit n
                            && (k == b'-'
                                && (is_digit p
                                    && (is_digit q
                                        && is_day
                                            (digit a * 1000
                                              + digit b * 100
                                              + digit c * 10
                                              + digit d)
                                            (digit m * 10 + digit n)
                                            (digit p * 10 + digit q))))))))))
is_valid_iso_date _ = false

-- `\w`
abbrev is_word : ℕ → Bool
is_word c = is_letter c || (is_digit c || c == b'_')

-- `\b` behind a word character
abbrev word_ends : Units → Bool
word_ends [] = true
word_ends (c ∷ cs) = not (is_word c)

-- `T\d{2}:\d{2}`
abbrev begins_time : Units → Bool
begins_time (t ∷ h ∷ i ∷ colon ∷ m ∷ n ∷ rest) =
    t == b'T' && (is_digit h && (is_digit i && (colon == b':' && (is_digit m && is_digit n))))
begins_time _ = false

-- `(\d{4})-(\d{2})-(\d{2})(?=\b|T\d{2}:\d{2})` here
unfoldable pub iso_at : Units → Option Units
iso_at (a ∷ b ∷ c ∷ d ∷ h ∷ m ∷ n ∷ k ∷ p ∷ q ∷ rest) =
    if is_digit a
      && (is_digit b
          && (is_digit c
              && (is_digit d
                  && (h == b'-'
                      && (is_digit m
                          && (is_digit n
                              && (k == b'-'
                                  && (is_digit p
                                      && (is_digit q
                                          && (word_ends rest || begins_time rest))))))))))
    then some (a ∷ b ∷ c ∷ d ∷ h ∷ m ∷ n ∷ k ∷ p ∷ q ∷ [])
    else none
iso_at _ = none

module _ {ℓ} {A : Type ℓ} (here : Units → Option A) where
  -- The first match of a pattern that begins with a word character behind `\b`. `inside` tells
  -- whether a word character stands before.
  unfoldable pub first_match : Bool → Units → Option A
  first_match inside [] = none
  first_match inside (c ∷ cs) =
      let later = first_match (is_word c) cs in
      let now = if inside then none else here (c ∷ cs) in
      elim now [ none ↦ later | some a ↦ some a ]

-- The parts of a date the way Brazil writes it, the year as far as it is given.
pub record Parts : Type 0 where
  pub day : Units
  pub month : Units
  pub year : Option Units

-- `\d{1,2}`, as many as there are, and what is behind them
abbrev two_digits : Units → Option (Units × Units)
two_digits [] = none
two_digits (a ∷ []) = if is_digit a then some (a ∷ [], []) else none
two_digits (a ∷ b ∷ rest) =
    if not (is_digit a)
    then none
    else if is_digit b
    then some (a ∷ b ∷ [], rest)
    else some (a ∷ [], b ∷ rest)

-- `[/.]`
abbrev after_separator : Units → Option Units
after_separator [] = none
after_separator (c ∷ cs) = if c == b'/' || c == b'.' then some cs else none

abbrev digits_of : Units → Units
digits_of [] = []
digits_of (c ∷ cs) = let rest = digits_of cs in if is_digit c then c ∷ rest else []

abbrev behind_digits : Units → Units
behind_digits [] = []
behind_digits (c ∷ cs) = let rest = behind_digits cs in if is_digit c then rest else c ∷ cs

-- `(?:[/.](\d{2,4}))?\b` behind the month
abbrev year_at : Units → Option Units
year_at rest = elim (after_separator rest) [
  | none ↦ none
  | some s ↦
      let digits = digits_of s in
      if leb 2 (length digits) && (leb (length digits) 4 && word_ends (behind_digits s))
      then some digits
      else none
]

-- `(\d{1,2})[/.](\d{1,2})(?:[/.](\d{2,4}))?\b` here
unfoldable pub br_at : Units → Option Parts
br_at s = elim (two_digits s) [
  | none ↦ none
  | some (day, s1) ↦ elim (after_separator s1) [
    | none ↦ none
    | some s2 ↦ elim (two_digits s2) [
      | none ↦ none
      | some (month, s3) ↦ elim (year_at s3) [
        | some year ↦ some (record { day = day; month = month; year = some year })
        | none ↦
            if word_ends s3 then some (record { day = day; month = month; year = none }) else none
      ]
    ]
  ]
]

-- `padStart(2, "0")`
abbrev pad : Units → Units
pad (a ∷ []) = b'0' ∷ a ∷ []
pad s = s

unfoldable pub full_year : Units → Option Units → Units
full_year fallback none = if length fallback == 2 then codes "20" ++ fallback else fallback
full_year fallback (some year) = if length year == 2 then codes "20" ++ year else year

unfoldable pub iso_text : Units → Parts → Units
iso_text fallback parts =
    full_year fallback parts.year
    ++ (codes "-" ++ (pad parts.month ++ (codes "-" ++ pad parts.day)))

unfoldable pub checked : Units → Option Units
checked day = if is_valid_iso_date day then some day else none

unfoldable pub of_parts : Units → Option Parts → Option Units
unfolding iso_text full_year checked
of_parts fallback none = none
of_parts fallback (some parts) = checked (iso_text fallback parts)

unfoldable pub brazilian_date : Units → Units → Option Units
unfolding br_at first_match of_parts
brazilian_date fallback text = of_parts fallback (first_match br_at false text)

-- An ISO day that the calendar does not have is looked for in the other form.
unfoldable pub of_iso : Units → Units → Option Units → Option Units
unfolding brazilian_date
of_iso fallback text none = brazilian_date fallback text
of_iso fallback text (some day) =
    if is_valid_iso_date day then some day else brazilian_date fallback text

-- `fallback` is the text of the year to assume.
unfoldable pub normalize_date : Units → Option Units → Option Units
unfolding of_iso iso_at is_valid_iso_date first_match
normalize_date fallback value =
    let text = clean_text (text_or_empty value) in
    of_iso fallback text (first_match iso_at false text)
