-- ===== src/Queue/Fencing.antt =====
-- Leases fence the executors: a token is good from the claim on, for ninety seconds after it or the
-- last heartbeat, and is worthless once acquisition has taken the row back.
use native.Mathlib.Nat.{pow-suc}
use universal_race_calendar.Common.{
  ℕ, zero, suc, ◌^◌, ◌+◌, ◌≤◌, ◌<◌, ◌≡◌, refl, ◌≢◌, inl, inr, ◌⊎◌, Bool, true, false, String,
  str_eq, eq_iff, Option, none, some, List, [], ◌∷◌, In, All, any_complete, Bool-cases, arith, ltb,
  if◌then◌else◌, keep, In-keep, sym, ap,
}
use universal_race_calendar.Queue.Json.{Json}
use universal_race_calendar.Queue.Task.{
  Source, Task, queued, Outcome, completes, ends_partial, fails, leased, update_where,
  heartbeat_task, finish_task, defer_source_task, defer_capacity_task, defer_local_resource_task,
  finish, lease_ms, backoff_ms, Status, completed, partial, failed,
}
use universal_race_calendar.Queue.Claim.{
  Gates, lapsed, take_back, lease, eligible, recover, first_of_rows, lease_row, claim_selected_task,
}
use universal_race_calendar.Queue.Choice.{first_of_rows-In}

update_where-none :
    (p : Task → Bool) (f : Task → Task) (ts : List Task)
    → All (λ t. p t ≡ false) ts
    → update_where p f ts ≡ (ts, false)
update_where-none p f [] h = refl
update_where-none p f (t ∷ ts) (e, h) =
    let ih = update_where-none p f ts h in rw e (λ i. (t ∷ (ih i).0, (ih i).1))

-- No row of this id carries the token in a live lease.
abbrev IsFenced : String → String → List Task → Type 0
IsFenced id token ts = (now : ℕ) → All (λ t. leased id token now t ≡ false) ts

-- What a lapsed row was, and what taking it back makes of it.
fenced_row :
    (id old : String) (now later : ℕ) (slots : List Source) (allowed : Option (List String))
    (t : Task)
    → (str_eq t.id id ≡ true → lapsed slots allowed now t ≡ true)
    → leased id old later (if lapsed slots allowed now t then take_back now t else t) ≡ false
unfolding leased take_back
fenced_row id old now later slots allowed t h = elim (Bool-cases (lapsed slots allowed now t)) [
  | inl e ↦ rw e (ground arith)
  | inr n ↦
      rw n
        (elim (Bool-cases (str_eq t.id id)) [ inl y ↦ absurd (let q = h y in cc) | inr z ↦ rw z ])
]

recover-IsFenced :
    (id old : String) (now : ℕ) (slots : List Source) (allowed : Option (List String))
    (ts : List Task)
    → All (λ t. str_eq t.id id ≡ true → lapsed slots allowed now t ≡ true) ts
    → IsFenced id old (recover slots allowed now ts)
unfolding recover
recover-IsFenced id old now slots allowed [] h later = tt
recover-IsFenced id old now slots allowed (t ∷ ts) (e, h) later = (
  fenced_row id old now later slots allowed t e,
  recover-IsFenced id old now slots allowed ts h later,
)

-- A lease under another token opens no row to the old one.
lease-IsFenced :
    (id old token row_id : String) (now : ℕ) (ts : List Task)
    → old ≢ token
    → IsFenced id old ts
    → IsFenced id old (update_where (λ u. str_eq u.id row_id) (lease now token) ts).0
unfolding leased lease
lease-IsFenced id old token row_id now [] d h later = tt
lease-IsFenced id old token row_id now (t ∷ ts) d h later = (
  elim (Bool-cases (str_eq t.id row_id)) [
    | inl e ↦
        let other : str_eq token old ≡ false = ground (arith, eq_iff token old) in
        rw (e, other) (ground arith)
    | inr n ↦ rw n (h later).0
  ],
  lease-IsFenced id old token row_id now ts d (λ l. (h l).1) later,
)

module _ (gates : Gates) (id_before : String → String → Bool) (slots : List Source)
    (id old token : String) (allowed : Option (List String)) (now : ℕ) (ts : List Task)
    (fresh : old ≢ token)
    (expired : All (λ t. str_eq t.id id ≡ true → lapsed slots allowed now t ≡ true) ts) where
  abbrev after : List Task
  after = (claim_selected_task gates id_before slots token allowed now ts).0

  lease_row-IsFenced :
      (rows : List Task) (o : Option Task)
      → IsFenced id old rows
      → IsFenced id old (lease_row gates id_before token now rows o).0
  unfolding lease_row
  lease_row-IsFenced rows none h = h
  lease_row-IsFenced rows (some t) h = lease-IsFenced id old token t.id now rows fresh h

  claim-IsFenced : IsFenced id old after
  unfolding claim_selected_task
  claim-IsFenced =
      lease_row-IsFenced (recover slots allowed now ts) _
        (recover-IsFenced id old now slots allowed ts expired)

  -- Once an acquisition has found the lease of a task expired, the executor that held it can
  -- neither finish, prolong nor defer the task at any later instant: each call answers false and
  -- changes nothing, also where the acquisition has leased the task to another token.
  pub stale_executor :
      (merge : Json → Json → Json) (later : ℕ) (o : Outcome) (c : Json) (e : Option String)
      (r : Option ℕ) (b : Bool) (reason : String)
      → (finish_task id old later o c e after ≡ (after, false))
        × (heartbeat_task id old later c after ≡ (after, false))
        × (defer_source_task id old later c r b after ≡ (after, false))
        × (defer_capacity_task merge id old later c reason after ≡ (after, false))
        × (defer_local_resource_task merge id old later c reason after ≡ (after, false))
  unfolding finish_task heartbeat_task defer_source_task defer_capacity_task
      defer_local_resource_task
  stale_executor merge later o c e r b reason =
      let h = claim-IsFenced later in
      (
        update_where-none (leased id old later) _ after h,
        update_where-none (leased id old later) _ after h,
        update_where-none (leased id old later) _ after h,
        update_where-none (leased id old later) _ after h,
        update_where-none (leased id old later) _ after h,
      )

-- The claimed task can be finished until its lease ends.
module _ (gates : Gates) (id_before : String → String → Bool) (slots : List Source) (token : String)
    (allowed : Option (List String)) (now : ℕ) (ts : List Task) (claimed : Task)
    (got : (claim_selected_task gates id_before slots token allowed now ts).1 ≡ some claimed) where
  leased_copy-In :
      (rows : List Task) (t : Task)
      → In t rows
      → In (lease now token t) (update_where (λ u. str_eq u.id t.id) (lease now token) rows).0
  leased_copy-In [] t i = absurd i
  leased_copy-In (u ∷ us) t (inl e) =
      let same : str_eq u.id t.id ≡ true = (eq_iff u.id t.id).1 (ap (λ x. x.id) (sym e)) in
      rw same (inl (ap (lease now token) e))
  leased_copy-In (u ∷ us) t (inr i) = inr (leased_copy-In us t i)

  lease-leased :
      (t : Task) (later : ℕ)
      → later < now + lease_ms
      → leased t.id token later (lease now token t) ≡ true
  unfolding leased lease
  lease-leased t later h = ground (arith, eq_iff t.id t.id, eq_iff token token)

  row-In :
      (rows : List Task) (o : Option Task)
      → ((t : Task) → o ≡ some t → In t rows)
      → (lease_row gates id_before token now rows o).1 ≡ some claimed
      → (t : Task) × (claimed ≡ lease now token t)
        × In (lease now token t) (lease_row gates id_before token now rows o).0
  unfolding lease_row
  row-In rows none h e = cc
  row-In rows (some t) h e = (t, ground arith, leased_copy-In rows t (h t refl))

  -- The executor that was given a task holds its lease for ninety seconds: a call under its token
  -- within them is answered by true, be it the finish or a heartbeat.
  pub claimed_executor :
      (later : ℕ) (o : Outcome) (c : Json) (e : Option String)
      → later < now + lease_ms
      → let after = (claim_selected_task gates id_before slots token allowed now ts).0 in
        ((finish_task claimed.id token later o c e after).1 ≡ true)
        × ((heartbeat_task claimed.id token later c after).1 ≡ true)
  unfolding claim_selected_task finish_task heartbeat_task
  claimed_executor later o c e h =
      let recovered = recover slots allowed now ts in
      let rows = keep (eligible gates slots allowed now recovered) recovered in
      let (t, same, i) =
        row-In recovered (first_of_rows id_before now rows)
          (λ t p.
            (In-keep (eligible gates slots allowed now recovered) recovered
              (first_of_rows-In id_before now rows p)).0)
          got in
      let found = any_complete (leased t.id token later) _ i (lease-leased t later h) in
      let name : claimed.id ≡ t.id = unfold lease in ap (λ x. x.id) same in
      (rw name found, rw name found)

one-le-pow : (n : ℕ) → 1 ≤ 2 ^ n
one-le-pow zero = omega arith
one-le-pow (suc n) = rw pow-suc (omega (arith, one-le-pow n))

-- What a finish leaves of a row, whatever the outcome.
pub record IsFinished (c : Json) (e : Option String) (t u : Task) : Type 0 where
  pub same_task : (u.id ≡ t.id) × (u.source ≡ t.source) × (u.payload ≡ t.payload)
  pub same_attempt : (u.attempt ≡ t.attempt) × (u.max_attempts ≡ t.max_attempts)
  pub reported : (u.progress ≡ c) × (u.error_code ≡ e)
  pub dropped : (u.lease_token ≡ none) × (u.lease_until ≡ none)
  pub unleased : (id token : String) (later : ℕ) → leased id token later u ≡ false

-- The row waits for another attempt.
pub record IsWaiting (now : ℕ) (t u : Task) : Type 0 where
  pub has_attempts : t.attempt < t.max_attempts
  pub waits : (u.status ≡ queued) × (u.finished_at ≡ none)
  pub rests : now + 30000 ≤ u.available_at
  pub returns : u.available_at ≤ now + 1800000
  pub untaken :
      (gates : Gates) (slots : List Source) (allowed : Option (List String)) (later : ℕ)
      (ts : List Task)
      → later < now + 30000
      → eligible gates slots allowed later ts u ≡ false

-- The row has come to its end.
pub record IsOver (now : ℕ) (t u : Task) (s : Status) : Type 0 where
  pub ended : (u.status ≡ s) × (u.finished_at ≡ some now)
  pub untaken :
      (gates : Gates) (slots : List Source) (allowed : Option (List String)) (later : ℕ)
      (ts : List Task)
      → eligible gates slots allowed later ts u ≡ false

-- What follows of each outcome.
abbrev pub Follows : ℕ → Outcome → Task → Task → Type 0
Follows now completes t u = IsOver now t u completed
Follows now ends_partial t u = IsOver now t u partial
Follows now fails t u = IsWaiting now t u ⊎ ((t.max_attempts ≤ t.attempt) × IsOver now t u failed)

-- What a finish does to the row that it finds. Whatever the outcome, the task, its attempts and its
-- limit stay, the progress and the error are those reported, and the lease is dropped, so that the
-- row is leased under no token at any time. A failure with attempts left is queued again, becomes
-- available after at least half a minute and at most half an hour, and no acquisition may take it
-- within half a minute. A failure without attempts left ends the task as failed, the other outcomes
-- end it as completed and as partial; then it is finished now and no acquisition may take it again.
pub finish_lem :
    (now : ℕ) (o : Outcome) (c : Json) (e : Option String) (t : Task)
    → IsFinished c e t (finish now o c e t) × Follows now o t (finish now o c e t)
unfolding finish backoff_ms eligible leased
finish_lem now o c e t = (
  record {
    same_task = (refl, refl, refl);
    same_attempt = (refl, refl);
    reported = (refl, refl);
    dropped = (refl, refl);
    unleased = λ id token later. unleased id token later;
  },
  follows o,
)
  where
    unleased : (id token : String) (later : ℕ) → leased id token later (finish now o c e t) ≡ false
    unleased id token later = ground arith

    follows : (o : Outcome) → Follows now o t (finish now o c e t)
    follows completes = record {
      ended = (refl, refl);
      untaken = λ gates slots allowed later ts. ground arith;
    }
    follows ends_partial = record {
      ended = (refl, refl);
      untaken = λ gates slots allowed later ts. ground arith;
    }
    follows fails =
        let bound = one-le-pow t.attempt in
        elim (Bool-cases (ltb t.attempt t.max_attempts)) [
          | inl y ↦ inl (record {
            has_attempts = ground arith;
            waits = (rw y refl, rw y refl);
            rests = omega (arith, bound);
            returns = omega arith;
            untaken = λ gates slots allowed later ts h. ground (arith, bound, y);
          })
          | inr n ↦ inr (
            ground arith,
            record {
              ended = (rw n refl, rw n refl);
              untaken = λ gates slots allowed later ts. ground (arith, n);
            },
          )
        ]
