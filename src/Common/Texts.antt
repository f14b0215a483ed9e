-- ===== src/Common/Texts.antt =====
-- Texts: the length that JavaScript counts, and equality tests.
use Prim.Native.Nat.{ℕ, ◌+◌}
use Prim.Native.Char.{code}
use Prim.Native.String.{String}
use mathlib.Core.Bool.{Bool, true, false, ◌&&◌, ◌||◌}
use mathlib.Core.List.{List, [], ◌∷◌}
use universal_race_calendar.Common.Lists.{any}
use universal_race_calendar.Common.Tests.{leb, ◌==◌, if◌then◌else◌}
pub use text.Mathlib.Text.{◌==◌ as str_eq}
pub use text.Mathlib.TextEquality.{eq_iff}

-- The code points of a text.
abbrev pub codes : String → List ℕ
codes String.[] = []
codes (String.◌∷◌ c s) = code c ∷ codes s

-- UTF-16 units: a code point of the Basic Multilingual Plane takes one, any other takes two.
abbrev pub units : List ℕ → ℕ
units [] = 0
units (c ∷ cs) = (if leb 65536 c then 2 else 1) + units cs

-- `s.length`
unfoldable pub text_length : String → ℕ
text_length s = units (codes s)

-- `list.includes(s)`
abbrev pub includes : List String → String → Bool
includes xs s = any (λ x. str_eq x s) xs

abbrev pub same_codes : List ℕ → List ℕ → Bool
same_codes [] [] = true
same_codes (a ∷ as') (b ∷ bs) = a == b && same_codes as' bs
same_codes _ _ = false

-- `s.endsWith(end)`, over code points
abbrev pub ends_in : List ℕ → List ℕ → Bool
ends_in end [] = same_codes end []
ends_in end (c ∷ cs) = same_codes end (c ∷ cs) || ends_in end cs

unfoldable pub ends_with : String → String → Bool
ends_with s end = ends_in (codes end) (codes s)
