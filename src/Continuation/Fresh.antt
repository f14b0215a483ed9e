-- ===== src/Continuation/Fresh.antt =====
-- What the request of a step under a new key adds to the rows.
use universal_race_calendar.Common.{
  ℕ, ◌≡◌, refl, sym, ◌∙◌, ap, subst, false, String, Option, none, some, ◌∷◌, List, find, ok,
  ok-injective, >>=-eq-ok, >>-eq-ok, eq_iff, arith,
}
use universal_race_calendar.Queue.Json.{Json}
use universal_race_calendar.Queue.Task.{Source, Task, queued}
use universal_race_calendar.Queue.Enqueue.{
  CampaignMark, guard_campaign_task, new_row, is_keyed, request_hash, settle, upsert, enqueue_task,
}
use universal_race_calendar.Queue.Steps.{Setting}
use universal_race_calendar.Pilot.{assert_pilot_task}

-- The row of a request: of this owner, key, source, kind and payload, and queued.
pub record IsRequest (owner_id key : String) (source : Source) (kind : String) (payload : Json)
    (u : Task) : Type 0 where
  pub of_owner : u.owner_id ≡ owner_id
  pub of_key : u.idempotency_key ≡ key
  pub of_source : u.source ≡ source
  pub of_kind : u.kind ≡ kind
  pub of_payload : u.payload ≡ payload
  pub waits : u.status ≡ queued

pub guard-IsRequest :
    (mark : Option CampaignMark) (t u : Task)
    → guard_campaign_task mark t ≡ ok u
    → t.status ≡ queued
    → IsRequest t.owner_id t.idempotency_key t.source t.kind t.payload u
unfolding guard_campaign_task
guard-IsRequest none t u h w = record {
  of_owner = ground arith;
  of_key = ground arith;
  of_source = ground arith;
  of_kind = ground arith;
  of_payload = ground arith;
  waits = ground arith;
}
guard-IsRequest (some c) t u h w = record {
  of_owner = ground arith;
  of_key = ground arith;
  of_source = ground arith;
  of_kind = ground arith;
  of_payload = ground arith;
  waits = ground arith;
}

module _ (setting : Setting) where
  pub enqueue_task_fresh :
      (mark : Option CampaignMark) (new_id owner_id key : String) (source : Source) (kind : String)
      (payload : Json) (now : ℕ) (ts us : List Task) (t : Task)
      → find (is_keyed owner_id key) ts ≡ none
      → enqueue_task setting.runtime setting.conversions setting.sha256 setting.pilot mark new_id
          owner_id key source kind payload now ts
        ≡ ok (us, t)
      → (us ≡ t ∷ ts) × IsRequest owner_id key source kind payload t
  unfolding enqueue_task upsert settle
  enqueue_task_fresh mark new_id owner_id key source kind payload now ts us t fresh h =
      let hash =
        request_hash setting.runtime setting.conversions setting.sha256 setting.pilot source kind
          payload in
      let row = new_row new_id owner_id key source kind payload hash now in
      let (_, h1) =
        >>-eq-ok (assert_pilot_task setting.conversions setting.pilot kind payload) _ h in
      let (g, e, q) =
        >>=-eq-ok (guard_campaign_task mark row) (λ g. ok (g ∷ ts, g)) (rw fresh at h1) in
      let pair = ok-injective q in
      let same : g ≡ t = ap (λ x. x.1) pair in
      (
        sym (ap (λ x. x.0) pair) ∙ ap (λ x. x ∷ ts) same,
        subst (IsRequest owner_id key source kind payload) same (guard-IsRequest mark row g e refl),
      )

pub IsRequest-is_keyed_other :
    (owner_id key other : String) (source : Source) (kind : String) (payload : Json) (u : Task)
    → IsRequest owner_id key source kind payload u
    → (key ≡ other → ⊥)
    → is_keyed owner_id other u ≡ false
unfolding is_keyed
IsRequest-is_keyed_other owner_id key other source kind payload u r apart =
    let k = r.of_key in ground (arith, eq_iff u.idempotency_key other, k, apart)
