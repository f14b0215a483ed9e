-- ===== src/Continuation/Rows.antt =====
-- The rows of a sync's steps: what a payload names, how many are live, and what enqueueing adds.
use universal_race_calendar.Common.{
  ℕ, ◌+◌, ◌≤◌, ◌≡◌, refl, subst, inl, inr, Bool, false, if◌then◌else◌, String, str_eq, eq_iff,
  Option, none, some, List, [], ◌∷◌, any, ok, Bool-cases, arith,
}
use universal_race_calendar.Queue.Json.{Json, str, obj, Fields, end, field, find_field, text_at}
use universal_race_calendar.Queue.Task.{Task, update_where}
use universal_race_calendar.Queue.Enqueue.{CampaignMark, guard_campaign_task}
use universal_race_calendar.Continuation.{put_field, fields_of, put_in, is_step, live_step}
use universal_race_calendar.Continuation.Control.{
  is_waiting, hold, is_held, let_go, hold_steps, release_steps,
}

find_field-put :
    (j k : String) (v : Json) (fs : Fields)
    → find_field j (put_field k v fs) ≡ (if str_eq k j then some v else find_field j fs)
unfolding put_field
find_field-put j k v end = refl
find_field-put j k v (field i w fs) = elim (Bool-cases (str_eq i k)) [
  | inl same ↦
      let e = (eq_iff i k).0 same in
      rw same (elim (Bool-cases (str_eq i j)) [
        | inl y ↦ let y' = rw e at y in rw (y, y')
        | inr n ↦ let n' = rw e at n in rw (n, n')
      ])
  | inr other ↦ rw other (elim (Bool-cases (str_eq i j)) [
    | inl y ↦
        let e = (eq_iff i j).0 y in
        let no : str_eq k j ≡ false = ground (arith, eq_iff k j, eq_iff i k, e, other) in rw (y, no)
    | inr n ↦ rw n (find_field-put j k v fs)
  ])
]

pub text_at-put :
    (j k s : String) (options : Json)
    → text_at j (put_in k (str s) options)
      ≡ (if str_eq k j then some s else text_at j (obj (fields_of options)))
unfolding put_in
text_at-put j k s options = elim (Bool-cases (str_eq k j)) [
  | inl y ↦ let e = find_field-put j k (str s) (fields_of options) in rw (e, y)
  | inr n ↦ let e = find_field-put j k (str s) (fields_of options) in rw (e, n)
]

unfoldable pub live_count : String → List Task → ℕ
live_count id [] = 0
live_count id (t ∷ ts) = (if live_step id t then 1 else 0) + live_count id ts

pub any-live_count :
    (id : String) (ts : List Task) → any (live_step id) ts ≡ false → live_count id ts ≡ 0
unfolding live_count
any-live_count id [] h = refl
any-live_count id (t ∷ ts) h = ground (arith, any-live_count id ts)

live_count-update :
    (id : String) (p : Task → Bool) (f : Task → Task)
    → ((t : Task) → live_step id (f t) ≡ live_step id t)
    → (ts : List Task) → live_count id (update_where p f ts).0 ≡ live_count id ts
unfolding live_count
live_count-update id p f same [] = refl
live_count-update id p f same (t ∷ ts) =
    let rest = live_count-update id p f same ts in
    elim (Bool-cases (p t)) [ inl y ↦ let e = same t in rw (y, e, rest) | inr n ↦ rw (n, rest) ]

pub live_count-hold :
    (id sync : String) (now : ℕ) (ts : List Task)
    → live_count id (hold_steps sync now ts) ≡ live_count id ts
unfolding hold_steps is_step
live_count-hold id sync now ts = live_count-update id (is_waiting sync) (hold now) (λ t. refl) ts

pub live_count-release :
    (id sync : String) (now : ℕ) (ts : List Task)
    → live_count id (release_steps sync now ts) ≡ live_count id ts
unfolding release_steps is_step
live_count-release id sync now ts = live_count-update id (is_held sync) (let_go now) (λ t. refl) ts

-- What the enqueueing adds to the rows: nothing, or one of the kind and payload that are asked for.
pub data Adds (kind : String) (payload : Json) (ts us : List Task) : Type 0 where
  nothing : us ≡ ts → Adds kind payload ts us
  one : (u : Task) → us ≡ u ∷ ts → u.kind ≡ kind → u.payload ≡ payload → Adds kind payload ts us

pub guard-kept :
    (mark : Option CampaignMark) (t u : Task)
    → guard_campaign_task mark t ≡ ok u
    → (u.kind ≡ t.kind) × (u.payload ≡ t.payload)
unfolding guard_campaign_task
guard-kept none t u h = ground arith
guard-kept (some c) t u h = ground arith

abbrev pub IsLinear : List Task → Type 0
IsLinear ts = (id : String) → live_count id ts ≤ 1

pub Adds-IsLinear :
    (sync : String) (payload : Json) (ts us : List Task)
    → Adds "catalog-sync" payload ts us
    → text_at "syncId" payload ≡ some sync
    → live_count sync ts ≡ 0
    → IsLinear ts
    → IsLinear us
unfolding live_count is_step
Adds-IsLinear sync payload ts us (nothing e) named none_live linear id = rw e (linear id)
Adds-IsLinear sync payload ts us (one u e kind same) named none_live linear id =
    let own : text_at "syncId" u.payload ≡ some sync = rw same named in
    elim (Bool-cases (str_eq sync id)) [
      | inl y ↦
          let i = (eq_iff sync id).0 y in
          let none_here : live_count id ts ≡ 0 = subst (λ x. live_count x ts ≡ 0) i none_live in
          rw (e, own, y) (ground (arith, none_here))
      | inr n ↦ rw (e, own, n) (ground (arith, linear id))
    ]
