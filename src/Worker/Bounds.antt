-- ===== src/Worker/Bounds.antt =====
-- The limits of a batch run, and what any run of the loop remembers.
use universal_race_calendar.Common.{
  ℕ, suc, ◌+◌, ◌≤◌, ◌<◌, ◌≡◌, refl, ap, inl, inr, Bool, true, not, ◌&&◌, leb, ltb, Option, none,
  some, List, [], ◌∷◌, length, String, Bool-cases, arith,
}
use universal_race_calendar.Worker.{Options, LocalResourceReason}
use universal_race_calendar.Worker.Loop.{
  Action, announced, coordinated_plans, coordinated_syncs, slept, ran, Reason, Round, Run, Next,
  ends, goes_on, claim_refusal, without_last, remember, resume_resources, coordinate,
  wait_resources, poll, round_body, guarded, run_round, run_queue,
}

-- The tasks that a list of actions ran.
abbrev runs_in : List Action → ℕ
runs_in [] = 0
runs_in (ran id ∷ rest) = runs_in rest + 1
runs_in (announced ∷ rest) = runs_in rest
runs_in (coordinated_plans ∷ rest) = runs_in rest
runs_in (coordinated_syncs ∷ rest) = runs_in rest
runs_in (slept ms ∷ rest) = runs_in rest

-- The count is that of the tasks run, and at most a hundred are remembered.
pub record IsTidy (run : Run) : Type 0 where
  pub counted : runs_in run.actions ≡ run.claimed
  pub remembered : length run.tasks ≤ 100

length-without_last :
    {A : Type 0} (x : A) (xs : List A) → length (without_last (x ∷ xs)) ≡ length xs
length-without_last x [] = refl
length-without_last x (y ∷ ys) = ap suc (length-without_last y ys)

length-remember :
    (t : ℕ × String) (tasks : List (ℕ × String))
    → length tasks ≤ 100
    → length (remember t tasks) ≤ 100
unfolding remember
length-remember t tasks h = elim (Bool-cases (ltb 100 (length (t ∷ tasks)))) [
  | inl y ↦ let e = length-without_last t tasks in rw (y, e) h
  | inr n ↦ rw n (ground (arith, n))
]

resume_resources-IsTidy : (run : Run) → IsTidy run → IsTidy (resume_resources run)
resume_resources-IsTidy run t = elim (Bool-cases run.resources_waiting) [
  | inl y ↦ rw y (record { counted = t.counted; remembered = t.remembered })
  | inr n ↦ rw n (record { counted = t.counted; remembered = t.remembered })
]

coordinate-IsTidy :
    (options : Options) (selective : Bool) (round : Round) (run : Run)
    → IsTidy run
    → IsTidy (coordinate options selective round run)
coordinate-IsTidy options selective round run t =
    elim (Bool-cases (not selective && leb (run.coordinated_at + 5000) round.now)) [
      | inr n ↦ rw n t
      | inl y ↦ elim (Bool-cases options.batch) [
        | inl b ↦ rw (y, b) (record { counted = t.counted; remembered = t.remembered })
        | inr b ↦ rw (y, b) (record { counted = t.counted; remembered = t.remembered })
      ]
    ]

-- Where a round leaves the loop, what holds of the run.
abbrev Leaves : (Run → Type 0) → Next → Type 0
Leaves P (ends run) = P run
Leaves P (goes_on run) = P run

poll-IsTidy :
    (options : Options) (round : Round) (task : Option ℕ) (run : Run)
    → IsTidy run
    → Leaves IsTidy (poll options round task run)
unfolding poll
poll-IsTidy options round (some id) run t = record {
  counted = ap (λ n. n + 1) t.counted;
  remembered = length-remember (id, round.ends_as) run.tasks t.remembered;
}
poll-IsTidy options round none run t = elim (Bool-cases options.batch) [
  | inl b ↦ rw b (record { counted = t.counted; remembered = t.remembered })
  | inr b ↦ rw b (record { counted = t.counted; remembered = t.remembered })
]

round_body-IsTidy :
    (options : Options) (selective : Bool) (round : Round) (found : Option LocalResourceReason)
    (run : Run)
    → IsTidy run
    → Leaves IsTidy (round_body options selective round found run)
unfolding round_body wait_resources
round_body-IsTidy options selective round none run t =
    poll-IsTidy options round round.task _
      (coordinate-IsTidy options selective round _ (resume_resources-IsTidy run t))
round_body-IsTidy options selective round (some reason) run t = elim (Bool-cases options.batch) [
  | inl b ↦ rw b (record { counted = t.counted; remembered = t.remembered })
  | inr b ↦ rw b (record { counted = t.counted; remembered = t.remembered })
]

guarded-IsTidy :
    (options : Options) (selective : Bool) (round : Round) (refusal : Option Reason) (run : Run)
    → IsTidy run
    → Leaves IsTidy (guarded options selective round refusal run)
unfolding guarded
guarded-IsTidy options selective round (some reason) run t = record {
  counted = t.counted;
  remembered = t.remembered;
}
guarded-IsTidy options selective round none run t =
    round_body-IsTidy options selective round round.resources run t

run_round-IsTidy :
    (options : Options) (selective : Bool) (round : Round) (run : Run)
    → IsTidy run
    → Leaves IsTidy (run_round options selective round run)
unfolding run_round
run_round-IsTidy options selective round run t = elim (Bool-cases round.should_stop) [
  | inl y ↦ rw y t
  | inr n ↦ rw n (guarded-IsTidy options selective round (claim_refusal options round run) run t)
]

-- The rest of the loop, after what a round leaves.
abbrev rest_of : Options → Bool → List Round → Next → Run × Bool
rest_of options selective rounds (ends run) = (run, true)
rest_of options selective rounds (goes_on run) = run_queue options selective rounds run

run_queue-round :
    (options : Options) (selective : Bool) (round : Round) (rounds : List Round) (run : Run)
    → run_queue options selective (round ∷ rounds) run
      ≡ rest_of options selective rounds (run_round options selective round run)
unfolding run_queue
run_queue-round options selective round rounds run = go (run_round options selective round run)
  where
    go :
        (next : Next)
        → (elim next as (λ _. Run × Bool) [
          | ends last ↦ (last, true)
          | goes_on later ↦ run_queue options selective rounds later
        ])
          ≡ rest_of options selective rounds next
    go (ends last) = refl
    go (goes_on later) = refl

rest_of-Leaves :
    (P : Run → Type 0) (options : Options) (selective : Bool) (rounds : List Round) (next : Next)
    → ((run : Run) → P run → P (run_queue options selective rounds run).0)
    → Leaves P next
    → P (rest_of options selective rounds next).0
rest_of-Leaves P options selective rounds (ends last) keeps h = h
rest_of-Leaves P options selective rounds (goes_on later) keeps h = keeps later h

-- However long the worker runs, it counts exactly the tasks that it has run, and remembers at most
-- a hundred of them.
pub run_queue-IsTidy :
    (options : Options) (selective : Bool) (rounds : List Round) (run : Run)
    → IsTidy run
    → IsTidy (run_queue options selective rounds run).0
unfolding run_queue
run_queue-IsTidy options selective [] run t = t
run_queue-IsTidy options selective (round ∷ rounds) run t =
    rw (run_queue-round options selective round rounds run) (
      rest_of-Leaves IsTidy options selective rounds (run_round options selective round run)
        (λ later h. run_queue-IsTidy options selective rounds later h)
        (run_round-IsTidy options selective round run t))

-- In a batch, a round that goes on has claimed one more task, within the limit.
abbrev Counts : Options → ℕ → Next → Type 0
Counts options c (ends run) = run.claimed ≡ c
Counts options c (goes_on run) = (run.claimed ≡ c + 1) × (c < options.max_tasks)

claimed-coordinate :
    (options : Options) (selective : Bool) (round : Round) (run : Run)
    → (coordinate options selective round (resume_resources run)).claimed ≡ run.claimed
claimed-coordinate options selective round run = ground arith

module _ (options : Options) (batch : options.batch ≡ true) (selective : Bool) where
  poll-Counts :
      (round : Round) (task : Option ℕ) (run : Run) (c : ℕ)
      → run.claimed ≡ c
      → c < options.max_tasks
      → Counts options c (poll options round task run)
  unfolding poll
  poll-Counts round (some id) run c e h = (ap (λ n. n + 1) e, h)
  poll-Counts round none run c e h = rw batch e

  round_body-Counts :
      (round : Round) (found : Option LocalResourceReason) (run : Run)
      → run.claimed < options.max_tasks
      → Counts options run.claimed (round_body options selective round found run)
  unfolding round_body wait_resources
  round_body-Counts round none run h =
      poll-Counts round round.task _ run.claimed (claimed-coordinate options selective round run) h
  round_body-Counts round (some reason) run h = rw batch refl

  claim_refusal-none :
      (round : Round) (run : Run)
      → claim_refusal options round run ≡ none
      → run.claimed < options.max_tasks
  unfolding claim_refusal
  claim_refusal-none round run h = ground arith

  guarded-Counts :
      (round : Round) (refusal : Option Reason) (run : Run)
      → claim_refusal options round run ≡ refusal
      → Counts options run.claimed (guarded options selective round refusal run)
  unfolding guarded
  guarded-Counts round (some reason) run e = refl
  guarded-Counts round none run e =
      round_body-Counts round round.resources run (claim_refusal-none round run e)

  run_round-Counts :
      (round : Round) (run : Run)
      → Counts options run.claimed (run_round options selective round run)
  unfolding run_round
  run_round-Counts round run = elim (Bool-cases round.should_stop) [
    | inl y ↦ rw y refl
    | inr n ↦ rw n (guarded-Counts round (claim_refusal options round run) run refl)
  ]

  abbrev Within : Run → Type 0
  Within run = run.claimed ≤ options.max_tasks

  Counts-Within :
      (c : ℕ) (next : Next) → c ≤ options.max_tasks → Counts options c next → Leaves Within next
  Counts-Within c (ends run) h e = ground (arith, e)
  Counts-Within c (goes_on run) h (e, l) = ground (arith, e)

  -- A batch that has not claimed more tasks than its limit never will.
  pub run_queue-Within :
      (rounds : List Round) (run : Run)
      → run.claimed ≤ options.max_tasks
      → (run_queue options selective rounds run).0.claimed ≤ options.max_tasks
  unfolding run_queue
  run_queue-Within [] run h = h
  run_queue-Within (round ∷ rounds) run h =
      rw (run_queue-round options selective round rounds run) (
        rest_of-Leaves Within options selective rounds (run_round options selective round run)
          (λ later l. run_queue-Within rounds later l)
          (Counts-Within run.claimed _ h (run_round-Counts round run)))

  rest_of-ends :
      (rounds : List Round) (c : ℕ) (next : Next)
      → Counts options c next
      → ((run : Run)
          → run.claimed ≡ c + 1
          → c < options.max_tasks
          → (run_queue options selective rounds run).1 ≡ true)
      → (rest_of options selective rounds next).1 ≡ true
  rest_of-ends rounds c (ends run) h later = refl
  rest_of-ends rounds c (goes_on run) (e, l) later = later run e l

  -- A batch ends by itself, at the latest in the round after its last task: it never waits for
  -- work or for resources.
  pub run_queue_ends :
      (rounds : List Round) (run : Run)
      → options.max_tasks < run.claimed + length rounds
      → run.claimed ≤ options.max_tasks
      → (run_queue options selective rounds run).1 ≡ true
  unfolding run_queue
  run_queue_ends [] run h l = absurd (ground (arith, h, l))
  run_queue_ends (round ∷ rounds) run h l =
      rw (run_queue-round options selective round rounds run) (
        rest_of-ends rounds run.claimed (run_round options selective round run)
          (run_round-Counts round run)
          (λ later e m. run_queue_ends rounds later (ground (arith, e, h)) (ground (arith, e, m))))
