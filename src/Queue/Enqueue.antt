-- ===== src/Queue/Enqueue.antt =====
-- `enqueueTask`: one row for each owner and idempotency key.
use universal_race_calendar.Common.{
  ℕ, ◌≡◌, refl, ◌≢◌, inl, inr, Bool, true, false, ◌&&◌, not, if◌then◌else◌, String, str_eq, eq_iff,
  Option, none, some, List, ◌∷◌, find, Result, ok, err, ◌>>=◌, ◌>>◌, arith, Bool-cases, >>-eq-ok,
  >>=-eq-ok, ok-injective, subst,
}
use universal_race_calendar.Queue.Json.{Json, str, obj, end, field, Runtime, stable_json}
use universal_race_calendar.Queue.Task.{
  Source, Task, ticketsports, corridasbr, openresults, exports, maintenance, queued, is_queued,
}
use universal_race_calendar.Pilot.{CatalogPilot, Conversions, assert_pilot_task}

abbrev source_text : Source → String
source_text ticketsports = "ticketsports"
source_text corridasbr = "corridasbr"
source_text openresults = "openresults"
source_text exports = "exports"
source_text maintenance = "maintenance"

-- What `guard_campaign_task` reads of the campaign that a task belongs to.
pub record CampaignMark : Type 0 where
  pub cancelled : Bool
  pub pause_requested : Bool

unfoldable pub guard_campaign_task : Option CampaignMark → Task → Result String Task
guard_campaign_task none t = ok t
guard_campaign_task (some c) t =
    if c.cancelled
    then err "campaign_cancelled"
    else ok (
        if c.pause_requested && (is_queued t.status && not t.execution_hold)
        then record t { execution_hold = true; hold_reason = some "catalog_campaign_paused" }
        else t)

-- A new row, with the defaults of the schema.
abbrev pub new_row : String → String → String → Source → String → Json → String → ℕ → Task
new_row id owner_id key source kind payload hash now = record {
  id = id;
  owner_id = owner_id;
  idempotency_key = key;
  source = source;
  kind = kind;
  payload = payload;
  request_hash = hash;
  status = queued;
  attempt = 0;
  max_attempts = 3;
  available_at = now;
  execution_hold = false;
  hold_reason = none;
  lease_token = none;
  lease_until = none;
  error_code = none;
  finished_at = none;
  created_at = now;
  updated_at = now;
  progress = obj end;
}

unfoldable pub is_keyed : String → String → Task → Bool
is_keyed owner_id key t = str_eq t.owner_id owner_id && str_eq t.idempotency_key key

-- The digest is `node:crypto`'s, the id the database's, the campaign that of the row's payload.
module _ (runtime : Runtime) (conversions : Conversions) (sha256 : String → String)
    (pilot : Option CatalogPilot) where
  unfoldable pub request_hash : Source → String → Json → String
  request_hash source kind payload = sha256 (
      stable_json runtime (
        obj (
          field "source" (str (source_text source))
            (field "kind" (str kind) (field "payload" payload end)))))

  -- The upsert, whose update is empty, and the comparison of the digests.
  unfoldable pub settle :
      Option CampaignMark → Task → List Task → Option Task → Result String (List Task × Task)
  settle mark row ts (some old) =
      if str_eq old.request_hash row.request_hash then ok (ts, old) else err "idempotency_conflict"
  settle mark row ts none = do guarded ← guard_campaign_task mark row; ok (guarded ∷ ts, guarded)

  unfoldable pub upsert : Option CampaignMark → Task → List Task → Result String (List Task × Task)
  unfolding settle
  upsert mark row ts = settle mark row ts (find (is_keyed row.owner_id row.idempotency_key) ts)

  unfoldable pub enqueue_task :
      Option CampaignMark
      → String
      → String
      → String
      → Source
      → String
      → Json
      → ℕ
      → List Task
      → Result String (List Task × Task)
  enqueue_task mark new_id owner_id key source kind payload now ts = do
    assert_pilot_task conversions pilot kind payload
    upsert mark
        (new_row new_id owner_id key source kind payload (request_hash source kind payload) now) ts

  guard-parts :
      (mark : Option CampaignMark) (t u : Task)
      → guard_campaign_task mark t ≡ ok u
      → (u.owner_id ≡ t.owner_id)
        × (u.idempotency_key ≡ t.idempotency_key)
        × (u.request_hash ≡ t.request_hash)
  unfolding guard_campaign_task
  guard-parts none t u h = ground arith
  guard-parts (some c) t u h = ground arith

  keyed_self : (t : Task) → is_keyed t.owner_id t.idempotency_key t ≡ true
  unfolding is_keyed
  keyed_self t =
      ground (arith, eq_iff t.owner_id t.owner_id, eq_iff t.idempotency_key t.idempotency_key)

  abbrev Answers : Task → List Task → Task → Type 0
  Answers row us t =
      (find (is_keyed row.owner_id row.idempotency_key) us ≡ some t)
      × (t.request_hash ≡ row.request_hash)

  settle-Answers :
      (mark : Option CampaignMark) (row : Task) (ts us : List Task) (t : Task) (o : Option Task)
      → find (is_keyed row.owner_id row.idempotency_key) ts ≡ o
      → settle mark row ts o ≡ ok (us, t)
      → Answers row us t
  unfolding settle
  settle-Answers mark row ts us t (some old) p h =
      elim (Bool-cases (str_eq old.request_hash row.request_hash)) [
        | inr n ↦ absurd (let q = rw n at h in cc)
        | inl y ↦
            subst (λ x. Answers row x.0 x.1) (ok-injective (rw y at h))
              (p, (eq_iff old.request_hash row.request_hash).0 y)
      ]
  settle-Answers mark row ts us t none p h =
      let (g, e, q) = >>=-eq-ok (guard_campaign_task mark row) (λ g. ok (g ∷ ts, g)) h in
      let (owner, key, hash) = guard-parts mark row g e in
      let keyed : is_keyed row.owner_id row.idempotency_key g ≡ true =
        subst (λ o. is_keyed o row.idempotency_key g ≡ true) owner
          (subst (λ k. is_keyed g.owner_id k g ≡ true) key (keyed_self g)) in
      subst (λ x. Answers row x.0 x.1) (ok-injective q) (rw keyed, hash)

  -- After an upsert the key is found, with the digest that was asked for.
  upsert-Answers :
      (mark : Option CampaignMark) (row : Task) (ts us : List Task) (t : Task)
      → upsert mark row ts ≡ ok (us, t)
      → Answers row us t
  unfolding upsert
  upsert-Answers mark row ts us t h = settle-Answers mark row ts us t _ refl h

  module _ (mark again : Option CampaignMark) (id id' owner_id key : String) (source : Source)
      (kind : String) (payload : Json) (now later : ℕ) (ts us : List Task) (t : Task)
      (queued_once : enqueue_task mark id owner_id key source kind payload now ts
        ≡ ok (us, t)) where
    answered :
        Answers
          (new_row id owner_id key source kind payload (request_hash source kind payload) now)
          us
          t
    unfolding enqueue_task
    answered =
        let (_, h) = >>-eq-ok (assert_pilot_task conversions pilot kind payload) _ queued_once in
        upsert-Answers mark _ ts us t h

    -- A request that is sent again answers with the task of the first time and changes nothing.
    pub enqueue_task_idempotent :
        enqueue_task again id' owner_id key source kind payload later us ≡ ok (us, t)
    unfolding enqueue_task upsert settle
    enqueue_task_idempotent =
        let (pass, _) = >>-eq-ok (assert_pilot_task conversions pilot kind payload) _ queued_once in
        let (found, hash) = answered in
        rw (pass, found, (eq_iff t.request_hash (request_hash source kind payload)).1 hash)

    -- The same key with another digest is refused, whatever the campaign is.
    enqueue_task-conflict :
        (source' : Source) (kind' : String) (payload' : Json)
        → request_hash source' kind' payload' ≢ request_hash source kind payload
        → assert_pilot_task conversions pilot kind' payload' ≡ ok tt
        → enqueue_task again id' owner_id key source' kind' payload' later us
          ≡ err "idempotency_conflict"
    unfolding enqueue_task upsert settle
    enqueue_task-conflict source' kind' payload' other pass =
        let (found, hash) = answered in
        let differs : str_eq t.request_hash (request_hash source' kind' payload') ≡ false =
          ground (arith, eq_iff t.request_hash (request_hash source' kind' payload')) in
        rw (pass, found, differs)
