-- ===== src/Queue/Sample.antt =====
-- A runtime, a database and a profile to run the queue with.
use universal_race_calendar.Common.{
  refl, Bool, true, false, ltb, String, Option, none, some, text_length,
}
use universal_race_calendar.Queue.Json.{Json, num, minus, str, bool, Runtime}
use universal_race_calendar.Pilot.{Conversions, Number, natural, negative}
use universal_race_calendar.Queue.Claim.{Gates}
use universal_race_calendar.Queue.Steps.{Setting}

-- A collation by length, and the texts of leaves.
unfoldable pub leaf_text : Json → String
leaf_text (str s) = s
leaf_text (bool true) = "true"
leaf_text (bool false) = "false"
leaf_text _ = "null"

abbrev pub by_length : Runtime
by_length = record {
  before = λ a b. ltb (text_length a) (text_length b);
  leaf = leaf_text;
  quote = λ s. s;
}

unfoldable pub plain_number : Json → Option Number
plain_number (num n) = some (natural n)
plain_number (minus n) = some (negative n)
plain_number _ = none

unfoldable pub plain_text : Json → String
plain_text (str s) = s
plain_text _ = ""

unfoldable pub plain : Conversions
unfolding plain_number plain_text
plain = record {
  number = plain_number;
  text = plain_text;
  number_num = λ n. refl;
  number_minus = λ n. refl;
  text_str = λ s. refl;
}

abbrev pub open_gates : Gates
open_gates = record { source_blocked = λ s. false; campaign_blocked = λ t. false }

abbrev pub id_order : String → String → Bool
id_order a b = ltb (text_length a) (text_length b)

abbrev pub setting : Setting
setting = record {
  merge = λ a b. b;
  gates = open_gates;
  id_before = id_order;
  runtime = by_length;
  conversions = plain;
  sha256 = λ s. s;
  pilot = none;
}
