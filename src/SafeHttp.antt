-- ===== src/SafeHttp.antt =====
-- packages/scraper/src/safe-http.ts: which addresses and URLs a request may reach, and the loop over the
-- redirects of one request.
use universal_race_calendar.Common.{
  ℕ, zero, suc, ◌+◌, Bool, true, false, ◌&&◌, ◌||◌, not, if◌then◌else◌, ltb, leb, ◌==◌, String,
  str_eq, Option, none, some, List, [], ◌∷◌, ◌++◌, any, length, codes, same_codes, ends_in, Result,
  ok, err, ◌>>=◌, ◌>>◌, throw_if,
}
use universal_race_calendar.Common.Units.{Units, lower, is_digit}
pub mod Contacts
mod Tests

pub data Family : Type 0 where
  ipv4 ipv6 : Family

pub record Subnet : Type 0 where
  pub network : Units
  pub prefix : ℕ
  pub family : Family

abbrev v4 : String → ℕ → Subnet
v4 network prefix = record { network = codes network; prefix = prefix; family = ipv4 }

abbrev v6 : String → ℕ → Subnet
v6 network prefix = record { network = codes network; prefix = prefix; family = ipv6 }

abbrev blocked : List Subnet
blocked =
    v4 "0.0.0.0" 8
    ∷ v4 "10.0.0.0" 8
    ∷ v4 "100.64.0.0" 10
    ∷ v4 "127.0.0.0" 8
    ∷ v4 "169.254.0.0" 16
    ∷ v4 "172.16.0.0" 12
    ∷ v4 "192.0.0.0" 24
    ∷ v4 "192.0.2.0" 24
    ∷ v4 "192.168.0.0" 16
    ∷ v4 "198.18.0.0" 15
    ∷ v4 "198.51.100.0" 24
    ∷ v4 "203.0.113.0" 24
    ∷ v4 "224.0.0.0" 4
    ∷ v4 "240.0.0.0" 4
    ∷ v6 "2001::" 23
    ∷ v6 "2001:db8::" 32
    ∷ v6 "2002::" 16
    ∷ []

-- What `URL` reads of a text.
pub record Url : Type 0 where
  pub protocol : Units
  pub username : Units
  pub password : Units
  pub port : Units
  pub hostname : Units
  pub href : Units

-- What the runtime's modules provide: `isIP`, the `check` of a `BlockList`, and the parsing of URLs.
pub record Net : Type 0 where
  pub is_ip : Units → Option Family
  pub check : List Subnet → Units → Family → Bool
  pub parse : Units → Option Url
  pub relative : Units → Url → Option Url

abbrev is_hex : ℕ → Bool
is_hex c = is_digit c || (leb b'a' (lower c) && leb (lower c) b'f')

-- `/^[23][0-9a-f]{3}:/i`
abbrev is_global : Units → Bool
is_global (a ∷ b ∷ c ∷ d ∷ e ∷ rest) =
    (a == b'2' || a == b'3') && (is_hex b && (is_hex c && (is_hex d && e == b':')))
is_global _ = false

abbrev is_public : Net → Units → Option Family → Bool
is_public net ip none = false
is_public net ip (some ipv4) = not (net.check blocked ip ipv4)
is_public net ip (some ipv6) = is_global ip && not (net.check blocked ip ipv6)

unfoldable pub public_address : Net → Units → Bool
public_address net ip = is_public net ip (net.is_ip ip)

abbrev drop_last_bracket : Units → Units
drop_last_bracket [] = []
drop_last_bracket (c ∷ []) = if c == b']' then [] else c ∷ []
drop_last_bracket (c ∷ d ∷ cs) = c ∷ drop_last_bracket (d ∷ cs)

-- `.replace(/^\[|\]$/g, "")`
abbrev pub drop_brackets : Units → Units
drop_brackets [] = []
drop_brackets (c ∷ cs) = if c == b'[' then drop_last_bracket cs else drop_last_bracket (c ∷ cs)

abbrev pub is_empty : {A : Type 0} → List A → Bool
is_empty [] = true
is_empty (x ∷ xs) = false

abbrev pub is_address : Option Family → Bool
is_address none = false
is_address (some family) = true

abbrev pub is_https : Url → Bool
is_https url = same_codes url.protocol (codes "https:")

abbrev pub is_http : Url → Bool
is_http url = same_codes url.protocol (codes "http:")

abbrev pub is_unsafe_url : Net → Url → Bool
is_unsafe_url net url =
    not (is_http url || is_https url)
    || (not (is_empty url.username)
        || (not (is_empty url.password)
            || (not (is_empty url.port) || is_address (net.is_ip (drop_brackets url.hostname)))))

abbrev pub is_unsafe_host : Units → Bool
is_unsafe_host hostname =
    same_codes hostname (codes "localhost")
    || (ends_in (codes ".localhost") hostname || not (any (λ c. c == b'.') hostname))

unfoldable pub check_url : Net → Url → Result String Url
check_url net url = do
  throw_if (is_unsafe_url net url) "unsafe_source_url"
  throw_if (is_unsafe_host url.hostname) "unsafe_source_host"
  ok url

-- `new URL(text)`, which throws
abbrev pub read_url : Option Url → Result String Url
read_url none = err "Invalid URL"
read_url (some url) = ok url

unfoldable pub validate_source_url : Net → Units → Result String Url
unfolding check_url
validate_source_url net raw = read_url (net.parse raw) >>= check_url net

-- An address of the answer of a name server.
pub record Address : Type 0 where
  pub address : Units
  pub family : ℕ

-- A header's value, or the values of a repeated header.
pub data HeaderValue : Type 0 where
  one_value : Units → HeaderValue
  many_values : List Units → HeaderValue

-- What arrives on the socket: the status, if any, the headers and the parts of the body.
pub record Incoming : Type 0 where
  pub status_code : Option ℕ
  pub all_headers : List (Units × HeaderValue)
  pub chunks : List (List ℕ)

pub record Reply : Type 0 where
  pub status : ℕ
  pub headers : List (Units × Units)
  pub body : List ℕ

-- What one request meets, by the redirects that are left: the clock, the name server (or
-- `dns_timeout`), the guard of requests with the time that it takes, the socket (or the error that
-- ends it, `source_timeout` among them) and the observer of responses.
pub record World : Type 0 where
  pub now : ℕ → ℕ
  pub lookup : ℕ → Units → Result String (List Address)
  pub guard : ℕ → Units → Result String (Unit {0})
  pub guard_ms : ℕ → ℕ
  pub send : ℕ → Url → Address → Result String Incoming
  pub observe : ℕ → Units → ℕ → Option Units → Result String (Unit {0})

abbrev string_headers : List (Units × HeaderValue) → List (Units × Units)
string_headers [] = []
string_headers ((name, one_value v) ∷ hs) = (name, v) ∷ string_headers hs
string_headers ((name, many_values vs) ∷ hs) = string_headers hs

abbrev pub get_header : Units → List (Units × Units) → Option Units
get_header name [] = none
get_header name ((n, v) ∷ hs) = if same_codes n name then some v else get_header name hs

abbrev status_or : Option ℕ → ℕ
status_or none = 502
status_or (some status) = status

-- The parts that arrive are kept until their sizes exceed the limit.
pub collect : ℕ → ℕ → List (List ℕ) → Result String (List ℕ)
collect max_bytes size [] = ok []
collect max_bytes size (chunk ∷ chunks) =
    let rest = collect max_bytes (size + length chunk) chunks in
    if ltb max_bytes (size + length chunk)
    then err "source_too_large"
    else rest >>= λ others. ok (chunk ++ others)

unfoldable pub receive : World → ℕ → ℕ → Url → Incoming → Result String Reply
unfolding collect
receive world max_bytes left url incoming = do
  body ← collect max_bytes 0 incoming.chunks
  world.observe left url.href (status_or incoming.status_code)
      (get_header (codes "retry-after") (string_headers incoming.all_headers))
  ok (record {
    status = status_or incoming.status_code;
    headers = string_headers incoming.all_headers;
    body = body;
  })

abbrev pub is_redirect : ℕ → Bool
is_redirect status = any (λ s. s == status) (301 ∷ 302 ∷ 303 ∷ 307 ∷ 308 ∷ [])

-- The first address of an answer that has any, all of them public.
abbrev pub first_address : List Address → Result String Address
first_address [] = err "unsafe_source_address"
first_address (a ∷ addresses) = ok a

-- A request that is sent: its URL and the address that it is pinned to.
pub record Contact : Type 0 where
  pub url : Url
  pub address : Units

abbrev pub Outcome : Type 0
Outcome = List Contact × Result String Reply

module _ (net : Net) (world : World) (max_bytes : ℕ) where
  -- Up to the socket.
  unfoldable pub prepare : ℕ → Url → ℕ → Result String Address
  unfolding public_address
  prepare left url deadline = do
    throw_if (leb deadline (world.now left)) "source_timeout"
    addresses ← world.lookup left url.hostname
    throw_if (any (λ a. not (public_address net a.address)) addresses) "unsafe_source_address"
    first ← first_address addresses
    world.guard left url.href
    ok first

  unfoldable pub contact : ℕ → Url → Result String Address → Outcome
  unfolding receive
  contact left url (err code) = ([], err code)
  contact left url (ok a) = (
    record { url = url; address = a.address } ∷ [],
    world.send left url a >>= receive world max_bytes left url,
  )

  unfoldable pub next_url : Url → Units → Result String Url
  unfolding validate_source_url
  next_url url location = do
    target ← read_url (net.relative location url)
    next ← validate_source_url net target.href
    throw_if (is_https url && not (is_https next)) "source_redirect_downgrade"
    ok next

  -- On to the next URL.
  unfoldable pub moved : List Contact → (Url → Outcome) → Result String Url → Outcome
  moved contacts go (err code) = (contacts, err code)
  moved contacts go (ok url) = let (others, result) = go url in (contacts ++ others, result)

  -- A redirect is followed to a location that is not empty, if any redirect is left.
  unfoldable pub redirected : Url → List Contact → Option (Url → Outcome) → Option Units → Outcome
  unfolding moved next_url
  redirected url contacts none location = (contacts, err "source_redirect_limit")
  redirected url contacts (some go) none = (contacts, err "source_redirect_limit")
  redirected url contacts (some go) (some location) =
      if is_empty location
      then (contacts, err "source_redirect_limit")
      else moved contacts go (next_url url location)

  unfoldable pub after_contact : Url → Option (Url → Outcome) → Outcome → Outcome
  unfolding redirected
  after_contact url go (contacts, err code) = (contacts, err code)
  after_contact url go (contacts, ok reply) =
      if is_redirect reply.status
      then redirected url contacts go (get_header (codes "location") reply.headers)
      else (contacts, ok reply)

  -- The loop, with the redirects that are left. The time of the guard does not count.
  unfoldable pub follow : ℕ → ℕ → Url → Outcome
  unfolding after_contact contact prepare
  follow zero deadline url = after_contact url none (contact 0 url (prepare 0 url deadline))
  follow (suc left) deadline url =
      after_contact url (some (follow left (deadline + world.guard_ms (suc left))))
        (contact (suc left) url (prepare (suc left) url deadline))

  unfoldable pub begin : ℕ → Result String Url → Outcome
  unfolding follow
  begin deadline (err code) = ([], err code)
  begin deadline (ok url) = follow 3 deadline url

  -- `started` is the moment of the call.
  unfoldable pub safe_response : Units → ℕ → ℕ → Outcome
  unfolding begin
  safe_response raw started timeout_ms = begin (started + timeout_ms) (validate_source_url net raw)
