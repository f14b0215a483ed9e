-- ===== src/Common/Units.antt =====
-- Texts as lists of UTF-16 code units, and what the source's short regular expressions test of them.
use Prim.Native.Nat.{ℕ, ◌+◌, ◌*◌, ◌-◌, ◌/◌, ◌%◌}
use mathlib.Core.Path.{◌≡◌, refl}
use mathlib.Core.Logic.{◌↔◌}
use mathlib.Core.Bool.{Bool, true, false, ◌&&◌, ◌||◌}
use mathlib.Core.Option.{Option, none, some}
use mathlib.Core.List.{List, [], ◌∷◌}
use native.Mathlib.Omega.{arith}
use universal_race_calendar.Common.Tests.{leb, ◌==◌, if◌then◌else◌}
use universal_race_calendar.Common.Lists.{any, all}
use universal_race_calendar.Common.Texts.{same_codes}

abbrev pub Units : Type 0
Units = List ℕ

pub same_codes_iff : (a b : Units) → (same_codes a b ≡ true) ↔ (a ≡ b)
same_codes_iff [] [] = (λ _. refl, λ _. refl)
same_codes_iff [] (b ∷ bs) = (λ h. cc, λ h. cc)
same_codes_iff (a ∷ as') [] = (λ h. cc, λ h. cc)
same_codes_iff (a ∷ as') (b ∷ bs) =
    let (to, from) = same_codes_iff as' bs in (λ h. ground arith, λ h. ground arith)

pub same_codes_refl : (a : Units) → same_codes a a ≡ true
same_codes_refl a = (same_codes_iff a a).1 refl

abbrev pub is_digit : ℕ → Bool
is_digit c = leb b'0' c && leb c b'9'

abbrev pub is_letter : ℕ → Bool
is_letter c = (leb b'A' c && leb c b'Z') || (leb b'a' c && leb c b'z')

-- `toLowerCase` and `toUpperCase` of an ASCII letter
abbrev pub lower : ℕ → ℕ
lower c = if leb b'A' c && leb c b'Z' then c + 32 else c

-- What a test with the flag `i` of a plain ASCII text compares.
abbrev pub lower_all : Units → Units
lower_all [] = []
lower_all (c ∷ cs) = lower c ∷ lower_all cs

-- `\d+` of the whole text
abbrev pub is_number : Units → Bool
is_number [] = false
is_number (c ∷ cs) = is_digit c && all is_digit cs

-- `\s`
abbrev pub is_space : ℕ → Bool
is_space c =
    (leb 9 c && leb c 13)
    || ((leb 8192 c && leb c 8202)
        || any (λ s. s == c) (32 ∷ 160 ∷ 5760 ∷ 8232 ∷ 8233 ∷ 8239 ∷ 8287 ∷ 12288 ∷ 65279 ∷ []))

-- The text without `prefix`, if it begins with it.
abbrev pub after_prefix : Units → Units → Option Units
after_prefix [] s = some s
after_prefix (p ∷ ps) [] = none
after_prefix (p ∷ ps) (c ∷ cs) = if p == c then after_prefix ps cs else none

abbrev pub begins : Units → Units → Bool
begins [] s = true
begins (p ∷ ps) [] = false
begins (p ∷ ps) (c ∷ cs) = p == c && begins ps cs

-- `s.includes(part)`
abbrev pub contains : Units → Units → Bool
contains part [] = begins part []
contains part (c ∷ cs) = begins part (c ∷ cs) || contains part cs

-- `.replace(/\/$/, "")`
abbrev pub strip_slash : Units → Units
strip_slash [] = []
strip_slash (c ∷ []) = if c == b'/' then [] else c ∷ []
strip_slash (c ∷ d ∷ cs) = c ∷ strip_slash (d ∷ cs)

-- `cleanText` behind its leading spaces: a run of spaces gives one, and none at the end.
pub clean_from : Bool → Units → Units
clean_from pending [] = []
clean_from pending (c ∷ cs) =
    let gap = clean_from true cs in
    let letter = clean_from false cs in
    if is_space c then gap else if pending then b' ' ∷ c ∷ letter else c ∷ letter

pub skip_spaces : Units → Units
skip_spaces [] = []
skip_spaces (c ∷ cs) = if is_space c then skip_spaces cs else c ∷ cs

-- `cleanText`
unfoldable pub clean_text : Units → Units
unfolding clean_from skip_spaces
clean_text s = clean_from false (skip_spaces s)

-- The number of the decimal digits of a text, behind those of `n`.
unfoldable pub decimal_from : ℕ → Units → ℕ
decimal_from n [] = n
decimal_from n (c ∷ cs) = decimal_from (n * 10 + (c - b'0')) cs

-- `value ?? ""`
abbrev pub text_or_empty : Option Units → Units
text_or_empty none = []
text_or_empty (some s) = s

abbrev pub is_ascii : ℕ → Bool
is_ascii c = leb c 127

abbrev pub upper : ℕ → ℕ
upper c = if leb b'a' c && leb c b'z' then c - 32 else c

abbrev pub upper_all : Units → Units
upper_all [] = []
upper_all (c ∷ cs) = upper c ∷ upper_all cs

-- The code units of code points, which `codes` gives of a text.
abbrev pub utf16 : List ℕ → Units
utf16 [] = []
utf16 (c ∷ cs) =
    let rest = utf16 cs in
    if leb 65536 c
    then (55296 + (c - 65536) / 1024) ∷ (56320 + (c - 65536) % 1024) ∷ rest
    else c ∷ rest
