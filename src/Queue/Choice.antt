-- ===== src/Queue/Choice.antt =====
-- The acquisition's choice: which task `claim_selected_task` leases.
use universal_race_calendar.Common.{
  ℕ, ◌≤◌, ◌≡◌, inl, inr, Bool, true, false, String, Option, none, some, List, [], ◌∷◌, keep, In,
  In-keep, keep-In, Bool-cases, Option-cases, arith, subst, sym,
}
use universal_race_calendar.Queue.Task.{Source, Task}
use universal_race_calendar.Queue.Claim.{
  Gates, lease, goes_before, first_of_rows, eligible, recover, lease_row, claim_selected_task,
  task_queue_priority,
}

module _ (id_before : String → String → Bool) (now : ℕ) where
  pub first_of_rows-In :
      (ts : List Task) {t : Task} → first_of_rows id_before now ts ≡ some t → In t ts
  unfolding first_of_rows
  first_of_rows-In [] e = cc
  first_of_rows-In (u ∷ us) {t} e = elim (Option-cases (first_of_rows id_before now us)) [
    | inl p ↦ inl (ground arith)
    | inr (v, p) ↦ elim (Bool-cases (goes_before id_before now v u)) [
      | inl w ↦
          inr (let same : v ≡ t = ground arith in subst (λ x. In x us) same (first_of_rows-In us p))
      | inr w ↦ inl (ground arith)
    ]
  ]

  abbrev priority : Task → ℕ
  priority t = task_queue_priority t.kind t.created_at now

  first_of_rows-ne-none :
      (ts : List Task) (u : Task) → first_of_rows id_before now ts ≡ none → In u ts → ⊥
  unfolding first_of_rows
  first_of_rows-ne-none [] u e i = i
  first_of_rows-ne-none (t ∷ ts) u e i = ground arith

  first_of_rows-le :
      (ts : List Task) {t : Task} (u : Task)
      → first_of_rows id_before now ts ≡ some t
      → In u ts
      → priority t ≤ priority u
  unfolding first_of_rows goes_before
  first_of_rows-le [] u e i = absurd i
  first_of_rows-le (x ∷ xs) u e (inl q) = ground arith
  first_of_rows-le (x ∷ xs) u e (inr i) = elim (Option-cases (first_of_rows id_before now xs)) [
    | inl p ↦ absurd (first_of_rows-ne-none xs u p i)
    | inr (v, p) ↦ let h = first_of_rows-le xs u p i in ground arith
  ]

-- What a claim returns: the leased copy of a row that was eligible once the expired leases had been
-- taken back, and than which no eligible row has a more urgent priority.
pub record IsClaim (gates : Gates) (slots : List Source) (token : String)
    (allowed : Option (List String)) (now : ℕ) (ts : List Task) (claimed : Task) : Type 0 where
  pub row : Task
  pub listed : In row (recover slots allowed now ts)
  pub was_eligible : eligible gates slots allowed now (recover slots allowed now ts) row ≡ true
  pub leased_copy : claimed ≡ lease now token row
  pub most_urgent :
      (u : Task)
      → In u (recover slots allowed now ts)
      → eligible gates slots allowed now (recover slots allowed now ts) u ≡ true
      → task_queue_priority row.kind row.created_at now
        ≤ task_queue_priority u.kind u.created_at now

module _ (gates : Gates) (id_before : String → String → Bool) where
  -- Every task that `claim_selected_task` returns is the leased copy of a row that was eligible
  -- once the expired leases had been taken back, and than which no eligible row is more urgent.
  pub claim_selected_task-IsClaim :
      (slots : List Source) (token : String) (allowed : Option (List String)) (now : ℕ)
      (ts : List Task) (claimed : Task)
      → (claim_selected_task gates id_before slots token allowed now ts).1 ≡ some claimed
      → IsClaim gates slots token allowed now ts claimed
  unfolding claim_selected_task lease_row
  claim_selected_task-IsClaim slots token allowed now ts claimed e =
      elim (Option-cases (first_of_rows id_before now rows)) [
        | inl p ↦ absurd (let q = rw p at e in cc)
        | inr (t, p) ↦
            let q : lease now token t ≡ claimed = (let h = rw p at e in ground arith) in
            let (i, el) =
              In-keep (eligible gates slots allowed now recovered) recovered
                (first_of_rows-In id_before now rows p) in
            record {
              row = t;
              listed = i;
              was_eligible = el;
              leased_copy = sym q;
              most_urgent = λ u j eu.
                  first_of_rows-le id_before now rows u p
                    (keep-In (eligible gates slots allowed now recovered) recovered j eu);
            }
      ]
    where
      recovered : List Task
      recovered = recover slots allowed now ts

      rows : List Task
      rows = keep (eligible gates slots allowed now recovered) recovered

  -- `claim_selected_task` returns none only where no row is eligible, once the expired leases have
  -- been taken back.
  claim_selected_task-none :
      (slots : List Source) (token : String) (allowed : Option (List String)) (now : ℕ)
      (ts : List Task) (u : Task)
      → (claim_selected_task gates id_before slots token allowed now ts).1 ≡ none
      → In u (recover slots allowed now ts)
      → eligible gates slots allowed now (recover slots allowed now ts) u ≡ false
  unfolding claim_selected_task lease_row
  claim_selected_task-none slots token allowed now ts u e i =
      elim (Bool-cases (eligible gates slots allowed now recovered u)) [
        | inr n ↦ n
        | inl y ↦ elim (Option-cases (first_of_rows id_before now rows)) [
          | inl p ↦ absurd (
              first_of_rows-ne-none id_before now rows u p
                (keep-In (eligible gates slots allowed now recovered) recovered i y))
          | inr (t, p) ↦ absurd (let q = rw p at e in cc)
        ]
      ]
    where
      recovered : List Task
      recovered = recover slots allowed now ts

      rows : List Task
      rows = keep (eligible gates slots allowed now recovered) recovered
