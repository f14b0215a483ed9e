-- ===== src/Dates/Normal.antt =====
-- What comes out of `normalizeDate` is a day of the calendar, and comes out of it unchanged.
use universal_race_calendar.Common.{
  ℕ, ◌≡◌, ◌↔◌, refl, inl, inr, Bool, true, false, ◌&&◌, ◌==◌, Option, none, some, [], ◌∷◌,
  Bool-cases, arith,
}
use universal_race_calendar.Common.Units.{Units, is_digit, is_space, clean_text, text_or_empty}
use universal_race_calendar.Dates.{
  is_valid_iso_date, normalize_date, brazilian_date, first_match, iso_at, br_at, Parts, checked,
  of_parts, of_iso,
}

checked-IsValid : (s d : Units) → checked s ≡ some d → is_valid_iso_date d ≡ true
unfolding checked
checked-IsValid s d h = elim (Bool-cases (is_valid_iso_date s)) [
  | inl v ↦ let q = rw v at h in ground arith
  | inr v ↦ absurd (let q = rw v at h in cc)
]

of_parts-IsValid :
    (fallback : Units) (parts : Option Parts) (d : Units)
    → of_parts fallback parts ≡ some d
    → is_valid_iso_date d ≡ true
unfolding of_parts
of_parts-IsValid fallback none d h = absurd cc
of_parts-IsValid fallback (some parts) d h = checked-IsValid _ d h

brazilian_date-IsValid :
    (fallback text d : Units) → brazilian_date fallback text ≡ some d → is_valid_iso_date d ≡ true
unfolding brazilian_date
brazilian_date-IsValid fallback text d h =
    of_parts-IsValid fallback (first_match br_at false text) d h

of_iso-IsValid :
    (fallback text : Units) (found : Option Units) (d : Units)
    → of_iso fallback text found ≡ some d
    → is_valid_iso_date d ≡ true
unfolding of_iso
of_iso-IsValid fallback text none d h = brazilian_date-IsValid fallback text d h
of_iso-IsValid fallback text (some day) d h = elim (Bool-cases (is_valid_iso_date day)) [
  | inl v ↦ let q = rw v at h in ground arith
  | inr v ↦ brazilian_date-IsValid fallback text d (rw v at h)
]

-- A date that the normalisation gives is a day of the calendar in the form year-month-day.
normalize_date-IsValid :
    (fallback : Units) (value : Option Units) (d : Units)
    → normalize_date fallback value ≡ some d
    → is_valid_iso_date d ≡ true
unfolding normalize_date
normalize_date-IsValid fallback value d h =
    let text = clean_text (text_or_empty value) in
    of_iso-IsValid fallback text (first_match iso_at false text) d h

-- The ten characters of a day.
pub record Iso (s : Units) : Type 0 where
  pub a : ℕ
  pub b : ℕ
  pub c : ℕ
  pub d : ℕ
  pub h : ℕ
  pub m : ℕ
  pub n : ℕ
  pub k : ℕ
  pub p : ℕ
  pub q : ℕ
  pub text : s ≡ a ∷ b ∷ c ∷ d ∷ h ∷ m ∷ n ∷ k ∷ p ∷ q ∷ []
  pub h_dash : h ≡ b'-'
  pub k_dash : k ≡ b'-'
  pub a_digit : is_digit a ≡ true
  pub b_digit : is_digit b ≡ true
  pub c_digit : is_digit c ≡ true
  pub d_digit : is_digit d ≡ true
  pub m_digit : is_digit m ≡ true
  pub n_digit : is_digit n ≡ true
  pub p_digit : is_digit p ≡ true
  pub q_digit : is_digit q ≡ true

both : (x y : Bool) → x && y ≡ true → (x ≡ true) × (y ≡ true)
both true y h = (refl, h)
both false y h = absurd cc

equal : (x y : ℕ) → (x == y) ≡ true → x ≡ y
equal x y h = ground arith

pub is_valid_iso_date-Iso : (s : Units) → is_valid_iso_date s ≡ true → Iso s
unfolding is_valid_iso_date
is_valid_iso_date-Iso (a ∷ b ∷ c ∷ d ∷ h ∷ m ∷ n ∷ k ∷ p ∷ q ∷ []) v =
    let (a_ok, v0) = both _ _ v in
    let (b_ok, v1) = both _ _ v0 in
    let (c_ok, v2) = both _ _ v1 in
    let (d_ok, v3) = both _ _ v2 in
    let (h_ok, v4) = both _ _ v3 in
    let (m_ok, v5) = both _ _ v4 in
    let (n_ok, v6) = both _ _ v5 in
    let (k_ok, v7) = both _ _ v6 in
    let (p_ok, v8) = both _ _ v7 in
    let (q_ok, v9) = both _ _ v8 in
    record {
      a = a;
      b = b;
      c = c;
      d = d;
      h = h;
      m = m;
      n = n;
      k = k;
      p = p;
      q = q;
      text = refl;
      h_dash = equal h b'-' h_ok;
      k_dash = equal k b'-' k_ok;
      a_digit = a_ok;
      b_digit = b_ok;
      c_digit = c_ok;
      d_digit = d_ok;
      m_digit = m_ok;
      n_digit = n_ok;
      p_digit = p_ok;
      q_digit = q_ok;
    }
is_valid_iso_date-Iso [] v = absurd cc
is_valid_iso_date-Iso (a ∷ []) v = absurd cc
is_valid_iso_date-Iso (a ∷ b ∷ []) v = absurd cc
is_valid_iso_date-Iso (a ∷ b ∷ c ∷ []) v = absurd cc
is_valid_iso_date-Iso (a ∷ b ∷ c ∷ d ∷ []) v = absurd cc
is_valid_iso_date-Iso (a ∷ b ∷ c ∷ d ∷ h ∷ []) v = absurd cc
is_valid_iso_date-Iso (a ∷ b ∷ c ∷ d ∷ h ∷ m ∷ []) v = absurd cc
is_valid_iso_date-Iso (a ∷ b ∷ c ∷ d ∷ h ∷ m ∷ n ∷ []) v = absurd cc
is_valid_iso_date-Iso (a ∷ b ∷ c ∷ d ∷ h ∷ m ∷ n ∷ k ∷ []) v = absurd cc
is_valid_iso_date-Iso (a ∷ b ∷ c ∷ d ∷ h ∷ m ∷ n ∷ k ∷ p ∷ []) v = absurd cc
is_valid_iso_date-Iso (a ∷ b ∷ c ∷ d ∷ h ∷ m ∷ n ∷ k ∷ p ∷ q ∷ r ∷ rest) v = absurd cc

is_space-digit : (c : ℕ) → is_digit c ≡ true → is_space c ≡ false
is_space-digit c h = ground arith

first_match-here :
    {A : Type 0} (here : Units → Option A) (c : ℕ) (cs : Units) (a : A)
    → here (c ∷ cs) ≡ some a
    → first_match here false (c ∷ cs) ≡ some a
unfolding first_match
first_match-here here c cs a h = rw (first_match, h)

iso_at-here : (s : Units) → is_valid_iso_date s ≡ true → first_match iso_at false s ≡ some s
unfolding iso_at
iso_at-here s v =
    let w = is_valid_iso_date-Iso s v in
    let whole : iso_at s ≡ some s = rw (
      w.text, iso_at, w.h_dash, w.k_dash, w.a_digit, w.b_digit, w.c_digit, w.d_digit, w.m_digit,
      w.n_digit, w.p_digit, w.q_digit,
    ) in
    rw (w.text) (first_match-here iso_at w.a _ _ (rw (w.text) at whole))

clean : (s : Units) → is_valid_iso_date s ≡ true → clean_text s ≡ s
unfolding clean_text
clean s v =
    let w = is_valid_iso_date-Iso s v in
    rw (
      w.text,
      w.h_dash,
      w.k_dash,
      is_space-digit w.a w.a_digit,
      is_space-digit w.a w.a_digit,
      is_space-digit w.b w.b_digit,
      is_space-digit w.c w.c_digit,
      is_space-digit w.d w.d_digit,
      is_space-digit w.m w.m_digit,
      is_space-digit w.n w.n_digit,
      is_space-digit w.p w.p_digit,
      is_space-digit w.q w.q_digit,
    )

normalize_date-IsFixed :
    (fallback d : Units) → is_valid_iso_date d ≡ true → normalize_date fallback (some d) ≡ some d
unfolding normalize_date
normalize_date-IsFixed fallback d v = rw (clean d v, iso_at-here d v, v)

-- A date that the normalisation gives is given back when it is normalised again, whatever year is
-- then assumed.
normalize_date_idempotent :
    (fallback other : Units) (value : Option Units) (d : Units)
    → normalize_date fallback value ≡ some d
    → normalize_date other (some d) ≡ some d
normalize_date_idempotent fallback other value d h =
    normalize_date-IsFixed other d (normalize_date-IsValid fallback value d h)

-- A text is its own normal form exactly when it is a day of the calendar in the form year-month-day.
pub normalize_date_fixed_iff :
    (fallback d : Units)
    → (normalize_date fallback (some d) ≡ some d) ↔ (is_valid_iso_date d ≡ true)
normalize_date_fixed_iff fallback d =
    (λ h. normalize_date-IsValid fallback (some d) d h, λ v. normalize_date-IsFixed fallback d v)
