-- ===== src/SourceRequests/Resume.antt =====
-- What the administrative controls of the gates do and leave alone.
use universal_race_calendar.Common.{
  ℕ, ◌≤◌, ◌≡◌, refl, ◌⊎◌, inl, inr, Bool, true, false, ◌||◌, ltb, if◌then◌else◌, String, eq_iff,
  Option, none, some, List, [], ◌∷◌, find, ok, get_or, In, Bool-cases, arith, ok-injective, subst,
  >>-eq-ok, throw_if, throw_if-eq-ok, sym, ap,
}
use universal_race_calendar.Queue.Json.{Runtime, stable_json}
use universal_race_calendar.Queue.Task.{Source, same_source, Task, update_where}
use universal_race_calendar.SourceRequests.Gate.{
  Gate, new_gate, PublicControl, public_source_control,
}
use universal_race_calendar.SourceRequests.Control.{
  Action, resume, configure, same_action, Payload, Entry, State, payload_json, is_entry,
  updated_gate, held_by_block, release, released, cooling, same_request, answer,
  mutate_source_control, resume_source_requests, configure_source_requests,
}

same_source_refl : (s : Source) → same_source s s ≡ true
same_source_refl s = ground arith

same_action_refl : (a : Action) → same_action a a ≡ true
same_action_refl resume = refl
same_action_refl configure = refl

-- What a first request of a control does.
pub record IsControl (source : Source) (action : Action) (payload : Payload) (now : ℕ) (s t : State)
    (result : PublicControl) : Type 0 where
  pub gate_now :
      t.gates source
      ≡ some (updated_gate action payload (get_or (s.gates source) (new_gate source now)))
  pub others_kept : (r : Source) → same_source r source ≡ false → t.gates r ≡ s.gates r
  pub tasks_now : t.tasks ≡ released action source now s.tasks
  pub cooled : cooling action (get_or (s.gates source) (new_gate source now)) now ≡ false
  pub shown :
      result
      ≡ public_source_control
          (updated_gate action payload (get_or (s.gates source) (new_gate source now)))
          now

module _ (runtime : Runtime) (source : Source) (actor_id key : String) (action : Action)
    (payload : Payload) where
  answer-cases :
      (now : ℕ) (s t : State) (result : PublicControl) (o : Option Entry)
      → find (is_entry actor_id key) s.audits ≡ o
      → answer runtime source actor_id key action payload now s o ≡ ok (t, result)
      → ((t ≡ s) × ((e : Entry) × (o ≡ some e) × (result ≡ e.result)))
        ⊎ IsControl source action payload now s t result
  unfolding answer
  answer-cases now s t result (some e) p h =
      elim (Bool-cases (same_request runtime action source payload e)) [
        | inl y ↦
            let q = ok-injective (rw y at h) in
            inl (sym (ap (λ x. x.0) q), (e, refl, sym (ap (λ x. x.1) q)))
        | inr n ↦ absurd (let q = rw n at h in cc)
      ]
  answer-cases now s t result none p h =
      let gate = get_or (s.gates source) (new_gate source now) in
      let (c, q) = >>-eq-ok (throw_if (cooling action gate now) _) _ h in
      inr (
        subst (λ x. IsControl source action payload now s x.0 x.1) (ok-injective q)
          (record {
            gate_now = rw (same_source_refl source);
            others_kept = λ r e. rw e;
            tasks_now = refl;
            cooled = throw_if-eq-ok (cooling action gate now) _ c;
            shown = refl;
          }))

  -- After a control the audit log answers its key.
  answered :
      (now : ℕ) (s t : State) (result : PublicControl) (o : Option Entry)
      → find (is_entry actor_id key) s.audits ≡ o
      → answer runtime source actor_id key action payload now s o ≡ ok (t, result)
      → (e : Entry) × (find (is_entry actor_id key) t.audits ≡ some e)
        × (e.result ≡ result)
        × (same_request runtime action source payload e ≡ true)
  unfolding answer
  answered now s t result (some e) p h =
      elim (Bool-cases (same_request runtime action source payload e)) [
        | inl y ↦
            subst
              (λ x.
                (e : Entry) × (find (is_entry actor_id key) x.0.audits ≡ some e)
                × (e.result ≡ x.1)
                × (same_request runtime action source payload e ≡ true))
              (ok-injective (rw y at h)) (e, p, refl, y)
        | inr n ↦ absurd (let q = rw n at h in cc)
      ]
  answered now s t result none p h =
      let gate = get_or (s.gates source) (new_gate source now) in
      let (c, q) = >>-eq-ok (throw_if (cooling action gate now) _) _ h in
      let shown = public_source_control (updated_gate action payload gate) now in
      let entry : Entry = record {
        actor_id = actor_id;
        key = key;
        action = action;
        source = source;
        payload = payload;
        result = shown;
      } in
      let keyed : is_entry actor_id key entry ≡ true =
        unfold is_entry in ground (arith, eq_iff actor_id actor_id, eq_iff key key) in
      let same : same_request runtime action source payload entry ≡ true =
        unfold same_request in
        ground (
          arith,
          same_action_refl action,
          same_source_refl source,
          eq_iff (stable_json runtime (payload_json payload))
              (stable_json runtime (payload_json payload)),
        ) in
      subst
        (λ x.
          (e : Entry) × (find (is_entry actor_id key) x.0.audits ≡ some e)
          × (e.result ≡ x.1)
          × (same_request runtime action source payload e ≡ true))
        (ok-injective q) (entry, rw keyed, refl, same)

  -- A control that is sent again under its key answers with the first result, and changes nothing.
  pub mutate_source_control_idempotent :
      (now later : ℕ) (s t : State) (result : PublicControl)
      → mutate_source_control runtime source actor_id key action payload now s ≡ ok (t, result)
      → mutate_source_control runtime source actor_id key action payload later t ≡ ok (t, result)
  unfolding mutate_source_control answer
  mutate_source_control_idempotent now later s t result h =
      let (e, found, shown, same) =
        answered now s t result (find (is_entry actor_id key) s.audits) refl h in
      rw (found, same, shown)

  mutate-cases :
      (now : ℕ) (s t : State) (result : PublicControl)
      → find (is_entry actor_id key) s.audits ≡ none
      → mutate_source_control runtime source actor_id key action payload now s ≡ ok (t, result)
      → IsControl source action payload now s t result
  unfolding mutate_source_control answer
  mutate-cases now s t result fresh h =
      fresh_control (answer-cases now s t result (find (is_entry actor_id key) s.audits) refl h)
    where
      fresh_control :
          (((t ≡ s)
              × ((e : Entry) × (find (is_entry actor_id key) s.audits ≡ some e)
                  × (result ≡ e.result)))
            ⊎ IsControl source action payload now s t result)
          → IsControl source action payload now s t result
      fresh_control (inl (_, (e, p, _))) = cc
      fresh_control (inr c) = c

  -- The gate of the source after a control is the updated row.
  control-gate :
      (now : ℕ) (s t : State) (result : PublicControl)
      → IsControl source action payload now s t result
      → get_or (t.gates source) (new_gate source now)
        ≡ updated_gate action payload (get_or (s.gates source) (new_gate source now))
  control-gate now s t result c = rw c.gate_now

update-In :
    (p : Task → Bool) (f : Task → Task) (ts : List Task) (t : Task)
    → In t ts
    → In (if p t then f t else t) (update_where p f ts).0
update-In p f [] t i = absurd i
update-In p f (u ∷ us) t (inl e) = inl (ap (λ x. if p x then f x else x) e)
update-In p f (u ∷ us) t (inr i) = inr (update-In p f us t i)

-- What an administrator's resumption is, for a key that has not been used.
pub record IsResumed (source : Source) (now : ℕ) (old new : Gate) (before after : List Task)
    : Type 0 where
  pub opened : (new.blocked_at ≡ none) × (new.blocked_until ≡ none)
  pub same_count : (new.request_count ≡ old.request_count) × (new.window_start ≡ old.window_start)
  pub same_limits :
      (new.limit_per_hour ≡ old.limit_per_hour)
      × (new.min_delay_ms ≡ old.min_delay_ms)
      × (new.next_allowed_at ≡ old.next_allowed_at)
  pub cooled_down : (until : ℕ) → old.blocked_until ≡ some until → until ≤ now
  pub lets_go : (t : Task) → In t before → held_by_block source t ≡ true → In (release now t) after
  pub holds_on : (t : Task) → In t before → held_by_block source t ≡ false → In t after

cooling-until :
    (gate : Gate) (now until : ℕ)
    → cooling resume gate now ≡ false
    → gate.blocked_until ≡ some until
    → until ≤ now
cooling-until gate now until c e = ground arith

-- Resuming opens the gate only after its cool-down, grants no requests beyond those of the running
-- window and no other limits, and releases exactly the tasks that the block itself has held.
pub resume_source_requests-IsResumed :
    (runtime : Runtime) (source : Source) (actor_id reason key : String) (now : ℕ) (s t : State)
    (result : PublicControl)
    → find (is_entry actor_id key) s.audits ≡ none
    → resume_source_requests runtime source actor_id reason key now s ≡ ok (t, result)
    → IsResumed source now
        (get_or (s.gates source) (new_gate source now))
        (get_or (t.gates source) (new_gate source now))
        s.tasks
        t.tasks
unfolding resume_source_requests updated_gate released
resume_source_requests-IsResumed runtime source actor_id reason key now s t result fresh h =
    let payload : Payload = record {
      reason = reason;
      limit_per_hour = none;
      min_delay_ms = none;
    } in
    let c = mutate-cases runtime source actor_id key resume payload now s t result fresh h in
    let old = get_or (s.gates source) (new_gate source now) in
    let gate = control-gate runtime source actor_id key resume payload now s t result c in
    rw (gate, c.tasks_now)
      (record {
        opened = (refl, refl);
        same_count = (refl, refl);
        same_limits = (refl, refl, refl);
        cooled_down = λ until e. cooling-until old now until c.cooled e;
        lets_go = λ u i e. rw e at (update-In (held_by_block source) (release now) s.tasks u i);
        holds_on = λ u i e. rw e at (update-In (held_by_block source) (release now) s.tasks u i);
      })

-- Configuring under a new key accepts only limits in range, sets exactly these two, and changes
-- neither the block, nor the count of the window, nor any task.
configure_source_requests_lem :
    (runtime : Runtime) (source : Source) (actor_id reason key : String) (limit delay now : ℕ)
    (s t : State) (result : PublicControl)
    → find (is_entry actor_id key) s.audits ≡ none
    → configure_source_requests runtime source actor_id reason limit delay key now s
      ≡ ok (t, result)
    → (1 ≤ limit)
      × (limit ≤ 100)
      × (1000 ≤ delay)
      × (delay ≤ 60000)
      × (get_or (t.gates source) (new_gate source now)
          ≡ record (get_or (s.gates source) (new_gate source now)) {
            limit_per_hour = limit;
            min_delay_ms = delay;
          })
      × (t.tasks ≡ s.tasks)
unfolding configure_source_requests updated_gate released
configure_source_requests_lem runtime source actor_id reason key limit delay now s t result fresh
      h =
    elim (Bool-cases (ltb limit 1 || (ltb 100 limit || (ltb delay 1000 || ltb 60000 delay)))) [
      | inl y ↦ absurd (let q = rw y at h in cc)
      | inr n ↦
          let payload : Payload = record {
            reason = reason;
            limit_per_hour = some limit;
            min_delay_ms = some delay;
          } in
          let c =
            mutate-cases runtime source actor_id key configure payload now s t result fresh
              (rw n at h) in
          (
            ground arith,
            ground arith,
            ground arith,
            ground arith,
            control-gate runtime source actor_id key configure payload now s t result c,
            c.tasks_now,
          )
    ]
