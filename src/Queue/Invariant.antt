-- ===== src/Queue/Invariant.antt =====
-- The invariant of the whole queue, kept by every operation.
use universal_race_calendar.Common.{
  ℕ, ◌≡◌, refl, inl, inr, Bool, true, false, String, str_eq, Option, none, some, List, [], ◌∷◌, All,
  any, Bool-cases, Option-cases, arith, if◌then◌else◌, keep, In-keep, find, ap, subst, ok,
  ok-injective, >>=-eq-ok, >>-eq-ok,
}
use universal_race_calendar.Queue.Json.{Json}
use universal_race_calendar.Queue.Task.{
  Source, Task, update_where, is_running, is_queued, leased, beat, heartbeat_task, finish,
  finish_task, defer_source, defer_source_task, defer_capacity, defer_capacity_task,
  defer_local_resource, defer_local_resource_task, stop_retries,
}
use universal_race_calendar.Queue.Claim.{
  Gates, lapsed, take_back, eligible, recover, first_of_rows, lease_row, claim_selected_task,
  conflicts,
}
use universal_race_calendar.Queue.Choice.{first_of_rows-In}
use universal_race_calendar.Queue.Attempts.{
  IsFair, take_back-IsFair, update_where-All, beat-IsFair, finish-IsFair, defer_source-IsFair,
  defer_capacity-IsFair, defer_local_resource-IsFair, stop-IsFair, lease_row-IsFair, leased-running,
}
use universal_race_calendar.Queue.Steps.{
  Setting, Step, enqueues, claims, beats, finishes, defers_source, defers_capacity, defers_local,
  stops, Reach, here, next,
}
use universal_race_calendar.Queue.Enqueue.{
  CampaignMark, guard_campaign_task, new_row, is_keyed, settle, upsert, request_hash, enqueue_task,
}
use universal_race_calendar.Pilot.{assert_pilot_task}
use universal_race_calendar.Queue.Exclusive.{
  Pairs, IsClear, IsCalm, calm-Pairs, leased-Pairs, In-same_id, free-conflicts,
}

-- The rows have different ids, no two live rows share a slot, and every row has fair attempts.
pub record IsSound (ts : List Task) : Type 0 where
  pub clear : Pairs IsClear ts
  pub fair : All IsFair ts

-- An update that keeps ids and slots, and starts no row.
updated : (Task → Bool) → (Task → Task) → Task → Task
updated p f t = if p t then f t else t

module _ (p : Task → Bool) (f : Task → Task)
    (calm : (t : Task)
      → p t ≡ true
      → ((f t).id ≡ t.id)
        × ((f t).source ≡ t.source)
        × (is_running (f t).status ≡ true → is_running t.status ≡ true)) where
  updated-IsCalm : IsCalm (updated p f)
  unfolding updated
  updated-IsCalm = record {
    same_id = λ t. elim (Bool-cases (p t)) [ inl e ↦ rw e (calm t e).0 | inr e ↦ rw e refl ];
    same_slot = λ t. elim (Bool-cases (p t)) [ inl e ↦ rw e (calm t e).1 | inr e ↦ rw e refl ];
    starts_none =
        λ t. elim (Bool-cases (p t)) [ inl e ↦ rw e (calm t e).2 | inr e ↦ rw e (λ h. h) ];
  }

  update_where-IsSound :
      (ts : List Task)
      → ((t : Task) → p t ≡ true → IsFair t → IsFair (f t))
      → IsSound ts
      → IsSound (update_where p f ts).0
  unfolding updated
  update_where-IsSound ts fair s = record {
    clear = calm-Pairs (updated p f) updated-IsCalm ts s.clear;
    fair = update_where-All IsFair p f ts fair s.fair;
  }

module _ (gates : Gates) (id_before : String → String → Bool) where
  take_back-calm :
      (now : ℕ) (t : Task)
      → ((take_back now t).id ≡ t.id)
        × ((take_back now t).source ≡ t.source)
        × (is_running (take_back now t).status ≡ true → is_running t.status ≡ true)
  unfolding take_back
  take_back-calm now t = (refl, refl, λ h. ground arith)

  recover-IsSound :
      (slots : List Source) (allowed : Option (List String)) (now : ℕ) (ts : List Task)
      → IsSound ts
      → IsSound (recover slots allowed now ts)
  unfolding recover
  recover-IsSound slots allowed now ts s =
      update_where-IsSound (lapsed slots allowed now) (take_back now) (λ t e. take_back-calm now t)
        ts (λ t e. take_back-IsFair now t) s

  eligible-parts :
      (slots : List Source) (allowed : Option (List String)) (now : ℕ) (ts : List Task) (t : Task)
      → eligible gates slots allowed now ts t ≡ true
      → (is_queued t.status ≡ true) × (any (conflicts t) ts ≡ false)
  unfolding eligible
  eligible-parts slots allowed now ts t h = ground arith

  claim-IsSound :
      (slots : List Source) (token : String) (allowed : Option (List String)) (now : ℕ)
      (ts : List Task)
      → IsSound ts
      → IsSound (claim_selected_task gates id_before slots token allowed now ts).0
  unfolding claim_selected_task lease_row
  claim-IsSound slots token allowed now ts s =
      let recovered = recover slots allowed now ts in
      let rs = recover-IsSound slots allowed now ts s in
      let rows = keep (eligible gates slots allowed now recovered) recovered in
      elim (Option-cases (first_of_rows id_before now rows)) [
        | inl p ↦ rw p rs
        | inr (t, p) ↦
            let (i, el) =
              In-keep (eligible gates slots allowed now recovered) recovered
                (first_of_rows-In id_before now rows p) in
            let (q, free) = eligible-parts slots allowed now recovered t el in
            rw p (record {
              clear =
                  leased-Pairs now token t recovered (free-conflicts t recovered free)
                    (λ u j e. ap (λ x. x.source) (In-same_id recovered t u rs.clear i j e))
                    rs.clear;
              fair =
                  lease_row-IsFair token now recovered t rs.fair
                    (λ u j e. rw (In-same_id recovered t u rs.clear i j e) q);
            })
      ]

-- A new row has an id of its own, is idle, and has all of its attempts.
guard-idle :
    (mark : Option CampaignMark) (row g : Task)
    → is_queued row.status ≡ true
    → guard_campaign_task mark row ≡ ok g
    → (g.id ≡ row.id)
      × (is_queued g.status ≡ true)
      × (g.attempt ≡ row.attempt)
      × (g.max_attempts ≡ row.max_attempts)
unfolding guard_campaign_task
guard-idle none row g q h = ground arith
guard-idle (some c) row g q h = ground arith

idle-All :
    (g : Task) (ts : List Task)
    → is_queued g.status ≡ true
    → All (λ u. str_eq g.id u.id ≡ false) ts
    → All (IsClear g) ts
idle-All g [] q f = tt
idle-All g (u ∷ us) q (e, f) =
    (record { other_id = e; other_slot = λ r. absurd (ground arith) }, idle-All g us q f)

new_row-IsFair :
    (id owner_id key : String) (source : Source) (kind : String) (payload : Json) (hash : String)
    (now : ℕ)
    → IsFair (new_row id owner_id key source kind payload hash now)
new_row-IsFair id owner_id key source kind payload hash now = ground arith

settle-IsSound :
    (mark : Option CampaignMark) (row : Task) (ts us : List Task) (t : Task) (o : Option Task)
    (setting : Setting)
    → is_queued row.status ≡ true
    → IsFair row
    → All (λ u. str_eq row.id u.id ≡ false) ts
    → settle setting.runtime setting.conversions setting.sha256 setting.pilot mark row ts o
      ≡ ok (us, t)
    → IsSound ts
    → IsSound us
unfolding settle
settle-IsSound mark row ts us t (some old) setting q f fresh h s =
    elim (Bool-cases (str_eq old.request_hash row.request_hash)) [
      | inr n ↦ absurd (let e = rw n at h in cc)
      | inl y ↦ subst (λ x. IsSound x.0) (ok-injective (rw y at h)) s
    ]
settle-IsSound mark row ts us t none setting q f fresh h s =
    let (g, e, p) = >>=-eq-ok (guard_campaign_task mark row) (λ g. ok (g ∷ ts, g)) h in
    let (same_id, idle, used, most) = guard-idle mark row g q e in
    subst (λ x. IsSound x.0) (ok-injective p)
      (record {
        clear = (idle-All g ts idle (rw same_id fresh), s.clear);
        fair = (ground (arith, f.queued_left q), s.fair);
      })

upsert-IsSound :
    (mark : Option CampaignMark) (row : Task) (ts us : List Task) (t : Task) (setting : Setting)
    → is_queued row.status ≡ true
    → IsFair row
    → All (λ u. str_eq row.id u.id ≡ false) ts
    → upsert setting.runtime setting.conversions setting.sha256 setting.pilot mark row ts
      ≡ ok (us, t)
    → IsSound ts
    → IsSound us
unfolding upsert
upsert-IsSound mark row ts us t setting q f fresh h s =
    settle-IsSound mark row ts us t (find (is_keyed row.owner_id row.idempotency_key) ts) setting q
      f fresh h s

module _ (setting : Setting) where
  -- Every operation of the queue keeps the invariant.
  Step-IsSound : {ts us : List Task} → Step setting ts us → IsSound ts → IsSound us
  unfolding enqueue_task heartbeat_task finish_task defer_source_task defer_capacity_task
      defer_local_resource_task stop_retries updated
  Step-IsSound (enqueues mark id owner_id key source kind payload now ts us t fresh h) s =
      let (_, e) =
        >>-eq-ok (assert_pilot_task setting.conversions setting.pilot kind payload) _ h in
      let hash =
        request_hash setting.runtime setting.conversions setting.sha256 setting.pilot source kind
          payload in
      upsert-IsSound mark (new_row id owner_id key source kind payload hash now) ts us t setting
        refl (new_row-IsFair id owner_id key source kind payload hash now) fresh e s
  Step-IsSound (claims slots token allowed now ts) s =
      claim-IsSound setting.gates setting.id_before slots token allowed now ts s
  Step-IsSound (beats id token now c ts) s =
      update_where-IsSound (leased id token now) (beat now c)
        (λ t e. unfold beat in (refl, refl, λ h. h)) ts (λ t e. beat-IsFair now c t) s
  Step-IsSound (finishes id token now o c e ts) s =
      update_where-IsSound (leased id token now) (finish now o c e)
        (λ t h. unfold finish in (refl, refl, λ r. leased-running id token now t h)) ts
        (λ t h. finish-IsFair now o c e t) s
  Step-IsSound (defers_source id token now c r b ts) s =
      update_where-IsSound (leased id token now) (defer_source now c r b)
        (λ t h. unfold defer_source in (refl, refl, λ q. leased-running id token now t h)) ts
        (λ t h f. defer_source-IsFair now c r b t f (leased-running id token now t h)) s
  Step-IsSound (defers_capacity id token now c m ts) s =
      update_where-IsSound (leased id token now) (defer_capacity setting.merge now c m)
        (λ t h. unfold defer_capacity in (refl, refl, λ q. leased-running id token now t h)) ts
        (λ t h f. defer_capacity-IsFair setting.merge now c m t f (leased-running id token now t h))
        s
  Step-IsSound (defers_local id token now c m ts) s =
      update_where-IsSound (leased id token now) (defer_local_resource setting.merge now c m)
        (λ t h. unfold defer_local_resource in (refl, refl, λ q. leased-running id token now t h))
        ts
        (λ t h f.
          defer_local_resource-IsFair setting.merge now c m t f (leased-running id token now t h))
        s
  Step-IsSound (stops id token attempt now ts h) s = record {
    clear =
        calm-Pairs (updated (leased id token now) (λ t. record t { max_attempts = attempt }))
          (updated-IsCalm (leased id token now) (λ t. record t { max_attempts = attempt })
            (λ t e. (refl, refl, λ r. r)))
          ts s.clear;
    fair = stop-IsFair id token attempt now ts h s.fair;
  }

  -- From a sound queue every sequence of operations, by any executors, leads to a sound queue: one
  -- in which no two tasks share an id, no two running tasks conflict over a slot, and no task has
  -- begun more attempts than it may.
  pub Reach-IsSound : {ts us : List Task} → Reach setting ts us → IsSound ts → IsSound us
  Reach-IsSound here s = s
  Reach-IsSound (next r st) s = Step-IsSound st (Reach-IsSound r s)
