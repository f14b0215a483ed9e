-- ===== src/SafeHttp/Contacts.antt =====
-- What every request that is sent has in common, however often it is redirected.
use universal_race_calendar.Common.{
  ℕ, zero, suc, ◌+◌, ◌≤◌, ◌≡◌, refl, ◌∙◌, subst, ap, inl, inr, ◌⊎◌, true, false, ◌&&◌, ◌||◌, ◌==◌,
  not, String, Option, none, some, List, [], ◌∷◌, ◌++◌, any, length, codes, same_codes, ends_in,
  ltb, All, Result, ok, err, ◌>>=◌, throw_if, ok-injective, >>=-eq-ok, >>-eq-ok, throw_if-eq-ok,
  Bool-cases, arith,
}
use universal_race_calendar.Common.Units.{Units}
use universal_race_calendar.SafeHttp.{
  Net, Url, World, Address, Contact, Reply, Incoming, Outcome, public_address, drop_brackets,
  is_empty, is_address, is_https, is_http, is_unsafe_url, is_unsafe_host, check_url,
  validate_source_url, read_url, collect, receive, is_redirect, first_address, get_header, prepare,
  contact, next_url, moved, redirected, after_contact, follow, begin, safe_response,
}

-- A URL that a source may have.
pub record IsSourceUrl (net : Net) (url : Url) : Type 0 where
  pub web : (is_http url ≡ true) ⊎ (is_https url ≡ true)
  pub anonymous : (is_empty url.username && is_empty url.password) ≡ true
  pub standard_port : is_empty url.port ≡ true
  pub named : is_address (net.is_ip (drop_brackets url.hostname)) ≡ false
  pub not_local :
      (same_codes url.hostname (codes "localhost") || ends_in (codes ".localhost") url.hostname)
      ≡ false
  pub dotted : any (λ c. c == 46) url.hostname ≡ true

check_url-IsSourceUrl :
    (net : Net) (url checked : Url) → check_url net url ≡ ok checked → IsSourceUrl net checked
unfolding check_url
check_url-IsSourceUrl net url checked h =
    let (first, rest) = >>-eq-ok (throw_if (is_unsafe_url net url) "unsafe_source_url") _ h in
    let (second, same) =
      >>-eq-ok (throw_if (is_unsafe_host url.hostname) "unsafe_source_host") _ rest in
    let unsafe = throw_if-eq-ok (is_unsafe_url net url) "unsafe_source_url" first in
    let local = throw_if-eq-ok (is_unsafe_host url.hostname) "unsafe_source_host" second in
    subst (IsSourceUrl net) {x = url} (ok-injective same) (record {
      web = ground (arith, unsafe);
      anonymous = ground (arith, unsafe);
      standard_port = ground (arith, unsafe);
      named = ground (arith, unsafe);
      not_local = ground (arith, local);
      dotted = ground (arith, local);
    })

validate_source_url-IsSourceUrl :
    (net : Net) (raw : Units) (url : Url)
    → validate_source_url net raw ≡ ok url
    → IsSourceUrl net url
unfolding validate_source_url
validate_source_url-IsSourceUrl net raw url h =
    let (read, e, checked) = >>=-eq-ok (read_url (net.parse raw)) (check_url net) h in
    check_url-IsSourceUrl net read url checked

length-++ : {A : Type 0} (xs ys : List A) → length (xs ++ ys) ≡ length xs + length ys
length-++ [] ys = ground arith
length-++ (x ∷ xs) ys = ground (arith, length-++ xs ys)

-- The parts of a body that is accepted stay within the limit.
collect-length :
    (max_bytes size : ℕ) (chunks : List (List ℕ)) (body : List ℕ)
    → size ≤ max_bytes
    → collect max_bytes size chunks ≡ ok body
    → size + length body ≤ max_bytes
unfolding collect
collect-length max_bytes size [] body small h =
    subst (λ b. size + length b ≤ max_bytes) (ok-injective h) (ground arith)
collect-length max_bytes size (chunk ∷ chunks) body small h =
    elim (Bool-cases (ltb max_bytes (size + length chunk))) [
      | inl y ↦ absurd (let q = rw y at h in cc)
      | inr n ↦
          let (others, e, q) =
            >>=-eq-ok (collect max_bytes (size + length chunk) chunks)
              (λ others. ok (chunk ++ others)) (rw n at h) in
          let ih = collect-length max_bytes (size + length chunk) chunks others (ground arith) e in
          subst (λ b. size + length b ≤ max_bytes) (ok-injective q)
            (ground (arith, ih, length-++ chunk others))
    ]

-- A request goes to a public address, for a URL that a source may have.
pub record IsSafeContact (net : Net) (c : Contact) : Type 0 where
  pub source_url : IsSourceUrl net c.url
  pub public_peer : public_address net c.address ≡ true

abbrev IsSecure : Contact → Type 0
IsSecure c = is_https c.url ≡ true

-- After a request by HTTPS all are by HTTPS.
abbrev pub NeverDowngrades : List Contact → Type 0
NeverDowngrades [] = Unit {0}
NeverDowngrades (c ∷ cs) = (IsSecure c → All IsSecure cs) × NeverDowngrades cs

-- A final answer is no redirect, and no larger than allowed.
abbrev pub IsFinal : ℕ → Result String Reply → Type 0
IsFinal max_bytes (err code) = Unit {0}
IsFinal max_bytes (ok reply) = (is_redirect reply.status ≡ false) × (length reply.body ≤ max_bytes)

-- The requests for a URL: all of them are safe, and at most so many.
pub record IsSafe (net : Net) (max_bytes rounds : ℕ) (url : Url) (o : Outcome) : Type 0 where
  pub safe : All (IsSafeContact net) o.0
  pub few : length o.0 ≤ rounds
  pub secure : NeverDowngrades o.0
  pub upheld : is_https url ≡ true → All IsSecure o.0
  pub final : IsFinal max_bytes o.1

module _ (net : Net) (world : World) (max_bytes : ℕ) where
  first-public :
      (addresses : List Address) (a : Address)
      → any (λ a. not (public_address net a.address)) addresses ≡ false
      → first_address addresses ≡ ok a
      → public_address net a.address ≡ true
  first-public [] a h e = cc
  first-public (x ∷ xs) a h e =
      subst (λ (y : Address). public_address net y.address ≡ true) (ok-injective e)
        (ground (arith, h))

  prepare-public :
      (left : ℕ) (url : Url) (deadline : ℕ) (a : Address)
      → prepare net world max_bytes left url deadline ≡ ok a
      → public_address net a.address ≡ true
  unfolding prepare
  prepare-public left url deadline a h =
      let (timely, h1) = >>-eq-ok (throw_if _ "source_timeout") _ h in
      let (addresses, found, h2) = >>=-eq-ok (world.lookup left url.hostname) _ h1 in
      let (all_public, h3) = >>-eq-ok (throw_if _ "unsafe_source_address") _ h2 in
      let (first, e, h4) = >>=-eq-ok (first_address addresses) _ h3 in
      let (granted, h5) = >>-eq-ok (world.guard left url.href) _ h4 in
      first-public addresses a (throw_if-eq-ok _ "unsafe_source_address" all_public)
        (e ∙ ap (λ x. ok x) (ok-injective h5))

  receive-small :
      (left : ℕ) (url : Url) (incoming : Incoming) (reply : Reply)
      → receive world max_bytes left url incoming ≡ ok reply
      → length reply.body ≤ max_bytes
  unfolding receive
  receive-small left url incoming reply h =
      let (body, e, h1) = >>=-eq-ok (collect max_bytes 0 incoming.chunks) _ h in
      let (seen, h2) = >>-eq-ok (world.observe left url.href _ _) _ h1 in
      let small = collect-length max_bytes 0 incoming.chunks body (ground arith) e in
      subst (λ (r : Reply). length r.body ≤ max_bytes) (ok-injective h2) (ground (arith, small))

  next_url-lem :
      (url next : Url) (location : Units)
      → next_url net world max_bytes url location ≡ ok next
      → IsSourceUrl net next × (is_https url ≡ true → is_https next ≡ true)
  unfolding next_url
  next_url-lem url next location h =
      let (target, e, h1) = >>=-eq-ok (read_url (net.relative location url)) _ h in
      let (checked, valid, h2) = >>=-eq-ok (validate_source_url net target.href) _ h1 in
      let (kept, h3) = >>-eq-ok (throw_if _ "source_redirect_downgrade") _ h2 in
      let upgrade =
        throw_if-eq-ok (is_https url && not (is_https checked)) "source_redirect_downgrade" kept in
      subst (λ n. IsSourceUrl net n × (is_https url ≡ true → is_https n ≡ true)) (ok-injective h3)
        (
          validate_source_url-IsSourceUrl net target.href checked valid,
          λ s. ground (arith, upgrade, s),
        )

  -- What may follow a redirect.
  abbrev Continues : ℕ → Option (Url → Outcome) → Type 0
  Continues rounds none = Unit {0}
  Continues rounds (some go) =
      (next : Url) → IsSourceUrl net next → IsSafe net max_bytes rounds next (go next)

  module _ (rounds : ℕ) (url : Url) (a : Units) (valid : IsSourceUrl net url)
      (peer : public_address net a ≡ true) where
    abbrev only : List Contact
    only = record { url = url; address = a } ∷ []

    stops :
        (r : Result String Reply)
        → IsFinal max_bytes r
        → IsSafe net max_bytes (suc rounds) url (only, r)
    stops r final = record {
      safe = (record { source_url = valid; public_peer = peer }, tt);
      few = ground arith;
      secure = ((λ s. tt), tt);
      upheld = λ s. (s, tt);
      final = final;
    }

    moved-IsSafe :
        (go : Url → Outcome) (o : Result String Url)
        → Continues rounds (some go)
        → ((n : Url) → o ≡ ok n → IsSourceUrl net n × (is_https url ≡ true → is_https n ≡ true))
        → IsSafe net max_bytes (suc rounds) url (moved net world max_bytes only go o)
    unfolding moved
    moved-IsSafe go (err code) later fits = stops (err code) tt
    moved-IsSafe go (ok next) later fits =
        let (source, upgrade) = fits next refl in
        let rest = later next source in
        record {
          safe = (record { source_url = valid; public_peer = peer }, rest.safe);
          few = ground (arith, rest.few);
          secure = ((λ s. rest.upheld (upgrade s)), rest.secure);
          upheld = λ s. (s, rest.upheld (upgrade s));
          final = rest.final;
        }

    redirected-IsSafe :
        (go : Option (Url → Outcome)) (location : Option Units)
        → Continues rounds go
        → IsSafe net max_bytes
            (suc rounds)
            url
            (redirected net world max_bytes url only go location)
    unfolding redirected
    redirected-IsSafe none location later = stops (err "source_redirect_limit") tt
    redirected-IsSafe (some go) none later = stops (err "source_redirect_limit") tt
    redirected-IsSafe (some go) (some location) later = elim (Bool-cases (is_empty location)) [
      | inl y ↦ rw y (stops (err "source_redirect_limit") tt)
      | inr n ↦ rw n (
          moved-IsSafe go (next_url net world max_bytes url location) later
            (λ next e. next_url-lem url next location e))
    ]

    answered-IsSafe :
        (go : Option (Url → Outcome)) (r : Result String Reply)
        → Continues rounds go
        → ((reply : Reply) → r ≡ ok reply → length reply.body ≤ max_bytes)
        → IsSafe net max_bytes (suc rounds) url (after_contact net world max_bytes url go (only, r))
    unfolding after_contact
    answered-IsSafe go (err code) later small = stops (err code) tt
    answered-IsSafe go (ok reply) later small = elim (Bool-cases (is_redirect reply.status)) [
      | inl y ↦ rw y (redirected-IsSafe go (get_header (codes "location") reply.headers) later)
      | inr n ↦ rw n (stops (ok reply) (n, small reply refl))
    ]

  turn-IsSafe :
      (rounds left : ℕ) (url : Url) (go : Option (Url → Outcome)) (o : Result String Address)
      → IsSourceUrl net url
      → ((a : Address) → o ≡ ok a → public_address net a.address ≡ true)
      → Continues rounds go
      → IsSafe net max_bytes
          (suc rounds)
          url
          (after_contact net world max_bytes url go (contact net world max_bytes left url o))
  unfolding contact after_contact
  turn-IsSafe rounds left url go (err code) valid peers later = record {
    safe = tt;
    few = ground arith;
    secure = tt;
    upheld = λ s. tt;
    final = tt;
  }
  turn-IsSafe rounds left url go (ok a) valid peers later =
      answered-IsSafe rounds url a.address valid (peers a refl) go
        (world.send left url a >>= receive world max_bytes left url) later
        (λ reply e.
          let (incoming, sent, h) =
            >>=-eq-ok (world.send left url a) (receive world max_bytes left url) e in
          receive-small left url incoming reply h)

  follow-IsSafe :
      (left deadline : ℕ) (url : Url)
      → IsSourceUrl net url
      → IsSafe net max_bytes (suc left) url (follow net world max_bytes left deadline url)
  unfolding follow
  follow-IsSafe zero deadline url valid =
      turn-IsSafe 0 0 url none (prepare net world max_bytes 0 url deadline) valid
        (λ a e. prepare-public 0 url deadline a e) tt
  follow-IsSafe (suc left) deadline url valid =
      turn-IsSafe (suc left) (suc left) url
        (some (follow net world max_bytes left (deadline + world.guard_ms (suc left))))
        (prepare net world max_bytes (suc left) url deadline) valid
        (λ a e. prepare-public (suc left) url deadline a e)
        (λ next source. follow-IsSafe left (deadline + world.guard_ms (suc left)) next source)

  -- However the sources redirect and whatever the name servers answer, a request of a text contacts at
  -- most four peers, each at a public address and for a URL that a source may have, never goes back from
  -- HTTPS to HTTP, and answers, if it succeeds, with no redirect and no more bytes than allowed.
  pub safe_response-IsSafe :
      (raw : Units) (started timeout_ms : ℕ)
      → let o = safe_response net world max_bytes raw started timeout_ms in
        All (IsSafeContact net) o.0 × (length o.0 ≤ 4) × NeverDowngrades o.0 × IsFinal max_bytes o.1
  unfolding safe_response begin
  safe_response-IsSafe raw started timeout_ms =
      begin-lem (validate_source_url net raw)
        (λ url e. validate_source_url-IsSourceUrl net raw url e)
    where
      begin-lem :
          (r : Result String Url)
          → ((url : Url) → r ≡ ok url → IsSourceUrl net url)
          → let o = begin net world max_bytes (started + timeout_ms) r in
            All (IsSafeContact net) o.0
            × (length o.0 ≤ 4)
            × NeverDowngrades o.0
            × IsFinal max_bytes o.1
      begin-lem (err code) valid = (tt, ground arith, tt, tt)
      begin-lem (ok url) valid =
          let done = follow-IsSafe 3 (started + timeout_ms) url (valid url refl) in
          (done.safe, done.few, done.secure, done.final)
