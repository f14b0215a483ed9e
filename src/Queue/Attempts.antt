-- ===== src/Queue/Attempts.antt =====
-- The attempts of a task stay within its limit, whatever the executors do.
use universal_race_calendar.Common.{
  ℕ, ◌≤◌, ◌<◌, ◌≡◌, refl, inl, inr, Bool, true, String, str_eq, Option, List, [], ◌∷◌, In, All,
  Bool-cases, arith,
}
use universal_race_calendar.Queue.Json.{Json}
use universal_race_calendar.Queue.Task.{
  Task, Outcome, update_where, is_queued, is_running, leased, beat, finish, defer_source,
  defer_capacity, defer_local_resource, completes, ends_partial, fails,
}
use universal_race_calendar.Queue.Claim.{take_back, lease}

-- A queued row has an attempt left, and a running one has used one.
pub record IsFair (t : Task) : Type 0 where
  pub limited : t.attempt ≤ t.max_attempts
  pub positive : 1 ≤ t.max_attempts
  pub queued_left : is_queued t.status ≡ true → t.attempt < t.max_attempts
  pub running_used : is_running t.status ≡ true → 1 ≤ t.attempt

pub update_where-All :
    (P : Task → Type 0) (p : Task → Bool) (f : Task → Task) (ts : List Task)
    → ((t : Task) → p t ≡ true → P t → P (f t))
    → All P ts
    → All P (update_where p f ts).0
update_where-All P p f [] h a = tt
update_where-All P p f (t ∷ ts) h (a, rest) = (
  elim (Bool-cases (p t)) [ inl e ↦ rw e (h t e a) | inr e ↦ rw e a ],
  update_where-All P p f ts h rest,
)

pub leased-running :
    (id token : String) (now : ℕ) (t : Task)
    → leased id token now t ≡ true
    → is_running t.status ≡ true
unfolding leased
leased-running id token now t h = ground arith

pub beat-IsFair : (now : ℕ) (c : Json) (t : Task) → IsFair t → IsFair (beat now c t)
unfolding beat
beat-IsFair now c t f = record {
  limited = f.limited;
  positive = f.positive;
  queued_left = f.queued_left;
  running_used = f.running_used;
}

pub finish-IsFair :
    (now : ℕ) (o : Outcome) (c : Json) (e : Option String) (t : Task)
    → IsFair t
    → IsFair (finish now o c e t)
unfolding finish
finish-IsFair now completes c e t f = ground arith
finish-IsFair now ends_partial c e t f = ground arith
finish-IsFair now fails c e t f = ground arith

pub take_back-IsFair : (now : ℕ) (t : Task) → IsFair t → IsFair (take_back now t)
unfolding take_back
take_back-IsFair now t f = ground arith

lease-IsFair :
    (now : ℕ) (token : String) (t : Task)
    → is_queued t.status ≡ true
    → IsFair t
    → IsFair (lease now token t)
unfolding lease
lease-IsFair now token t q f = ground arith

pub defer_source-IsFair :
    (now : ℕ) (c : Json) (r : Option ℕ) (b : Bool) (t : Task)
    → IsFair t
    → is_running t.status ≡ true
    → IsFair (defer_source now c r b t)
unfolding defer_source
defer_source-IsFair now c r b t f h = ground arith

module _ (merge : Json → Json → Json) where
  pub defer_capacity-IsFair :
      (now : ℕ) (c : Json) (s : String) (t : Task)
      → IsFair t
      → is_running t.status ≡ true
      → IsFair (defer_capacity merge now c s t)
  unfolding defer_capacity
  defer_capacity-IsFair now c s t f h = ground arith

  pub defer_local_resource-IsFair :
      (now : ℕ) (c : Json) (s : String) (t : Task)
      → IsFair t
      → is_running t.status ≡ true
      → IsFair (defer_local_resource merge now c s t)
  unfolding defer_local_resource
  defer_local_resource-IsFair now c s t f h = ground arith

-- A claim changes the chosen row only, and that was queued.
pub lease_row-IsFair :
    (token : String) (now : ℕ) (ts : List Task) (t : Task)
    → All IsFair ts
    → ((u : Task) → In u ts → str_eq u.id t.id ≡ true → is_queued u.status ≡ true)
    → All IsFair (update_where (λ u. str_eq u.id t.id) (lease now token) ts).0
lease_row-IsFair token now [] t h q = tt
lease_row-IsFair token now (u ∷ us) t (f, h) q = (
  elim (Bool-cases (str_eq u.id t.id)) [
    | inl e ↦ rw e (lease-IsFair now token u (q u (inl refl) e) f)
    | inr e ↦ rw e f
  ],
  lease_row-IsFair token now us t h (λ v i. q v (inr i)),
)

pub stop-IsFair :
    (id token : String) (attempt now : ℕ) (ts : List Task)
    → ((t : Task) → In t ts → leased id token now t ≡ true → t.attempt ≡ attempt)
    → All IsFair ts
    → All IsFair
        (update_where (leased id token now) (λ t. record t { max_attempts = attempt }) ts).0
stop-IsFair id token attempt now [] h a = tt
stop-IsFair id token attempt now (t ∷ ts) h (f, rest) = (
  elim (Bool-cases (leased id token now t)) [
    | inl e ↦
        let running = leased-running id token now t e in
        let same = h t (inl refl) e in rw e (ground arith)
    | inr e ↦ rw e f
  ],
  stop-IsFair id token attempt now ts (λ u i. h u (inr i)) rest,
)
