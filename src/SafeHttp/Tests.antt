-- ===== src/SafeHttp/Tests.antt =====
-- A request that is redirected once, and the theorem at it.
use universal_race_calendar.Common.{
  ◌≤◌, ◌≡◌, refl, if◌then◌else◌, ◌==◌, Option, none, some, [], ◌∷◌, length, codes, same_codes, All,
  ok, err,
}
use universal_race_calendar.Common.Units.{Units, is_digit}
use universal_race_calendar.SafeHttp.{
  Net, Url, World, one_value, many_values, Family, ipv4, Outcome, public_address, check_url,
  validate_source_url, collect, receive, prepare, contact, next_url, moved, redirected,
  after_contact, follow, begin, safe_response,
}
use universal_race_calendar.SafeHttp.Contacts.{
  IsSafeContact, NeverDowngrades, IsFinal, safe_response-IsSafe,
}

abbrev by_digit : Units → Option Family
by_digit [] = none
by_digit (c ∷ cs) = if is_digit c then some ipv4 else none

abbrev page : Units → Url
page href = record {
  protocol = codes "https:";
  username = [];
  password = [];
  port = [];
  hostname = codes "a.br";
  href = href;
}

abbrev net : Net
net = record {
  is_ip = by_digit;
  check = λ subnets ip family. same_codes ip (codes "10.0.0.1");
  parse = λ s. some (page s);
  relative = λ s base. some (page s);
}

-- The first answer moves, the second one is final.
abbrev world : World
world = record {
  now = λ left. 10;
  lookup = λ left host. ok (record { address = codes "9.9.9.9"; family = 4 } ∷ []);
  guard = λ left href. ok tt;
  guard_ms = λ left. 5;
  send = λ left url a.
      if left == 3
      then ok (record {
        status_code = some 302;
        all_headers =
            (codes "set-cookie", many_values []) ∷ (codes "location", one_value (codes "/b")) ∷ [];
        chunks = [];
      })
      else ok (record {
        status_code = some 200;
        all_headers = [];
        chunks = (1 ∷ 2 ∷ []) ∷ (3 ∷ []) ∷ [];
      });
  observe = λ left href status retry. ok tt;
}

program : Unit {0}
unfolding public_address check_url validate_source_url collect receive prepare contact next_url
    moved redirected after_contact follow begin safe_response
program = tt

abbrev outcome : Outcome
outcome = safe_response net world 3 (codes "/a") 0 100

two_contacts : length outcome.0 ≡ 2
unfolding program
two_contacts = refl

too_large : (safe_response net world 2 (codes "/a") 0 100).1 ≡ err "source_too_large"
unfolding program
too_large = refl

too_late : (safe_response net world 3 (codes "/a") 0 10).1 ≡ err "source_timeout"
unfolding program
too_late = refl

safe_response-IsSafe_example :
    All (IsSafeContact net) outcome.0
    × (length outcome.0 ≤ 4)
    × NeverDowngrades outcome.0
    × IsFinal 3 outcome.1
safe_response-IsSafe_example = safe_response-IsSafe net world 3 (codes "/a") 0 100
