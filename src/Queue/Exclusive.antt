-- ===== src/Queue/Exclusive.antt =====
-- One live task for each source, and one in all for the sources of the TypeScript executor.
use universal_race_calendar.Common.{
  ℕ, ◌≡◌, refl, sym, ◌∙◌, subst, inl, inr, Bool, true, false, ◌&&◌, ◌||◌, String, str_eq, eq_iff,
  List, [], ◌∷◌, map, In, All, All-In, any, any_complete, Bool-cases, arith, if◌then◌else◌,
}
use universal_race_calendar.Queue.Task.{
  Task, Source, is_running, is_shared, same_source, update_where,
}
use universal_race_calendar.Queue.Claim.{conflicts, lease}

abbrev pub Pairs : (Task → Task → Type 0) → List Task → Type 0
Pairs R [] = Unit
Pairs R (t ∷ ts) = All (R t) ts × Pairs R ts

-- Two rows have different ids, and are not both live on one slot.
pub record IsClear (t u : Task) : Type 0 where
  pub other_id : str_eq t.id u.id ≡ false
  pub other_slot : is_running t.status ≡ true → conflicts t u ≡ false

-- A change of rows that starts none.
pub record IsCalm (g : Task → Task) : Type 0 where
  pub same_id : (t : Task) → (g t).id ≡ t.id
  pub same_slot : (t : Task) → (g t).source ≡ t.source
  pub starts_none : (t : Task) → is_running (g t).status ≡ true → is_running t.status ≡ true

same_source_comm : (a b : Source) → same_source a b ≡ same_source b a
same_source_comm a b = ground arith

abbrev clash : Source → Source → Bool
clash a b = same_source b a || (is_shared a && is_shared b)

clash_comm : (a b : Source) → clash a b ≡ clash b a
clash_comm a b = ground arith

conflicts-clash :
    (t u : Task)
    → conflicts t u ≡ false
    → is_running u.status ≡ true
    → clash t.source u.source ≡ false
unfolding conflicts
conflicts-clash t u h r = ground arith

clash-conflicts : (t u : Task) → clash t.source u.source ≡ false → conflicts t u ≡ false
unfolding conflicts
clash-conflicts t u h = ground arith

idle-conflicts : (t u : Task) → is_running u.status ≡ false → conflicts t u ≡ false
unfolding conflicts
idle-conflicts t u h = ground arith

calm-IsClear : (g : Task → Task) → IsCalm g → (t u : Task) → IsClear t u → IsClear (g t) (g u)
calm-IsClear g calm t u c = record {
  other_id = rw (calm.same_id t, calm.same_id u) c.other_id;
  other_slot = λ r. elim (Bool-cases (is_running (g u).status)) [
    | inr n ↦ idle-conflicts (g t) (g u) n
    | inl y ↦ clash-conflicts (g t) (g u) (
        rw (calm.same_slot t, calm.same_slot u)
          (conflicts-clash t u (c.other_slot (calm.starts_none t r)) (calm.starts_none u y)))
  ];
}

calm-All :
    (g : Task → Task)
    → IsCalm g
    → (t : Task) (us : List Task) → All (IsClear t) us
    → All (IsClear (g t)) (map g us)
calm-All g calm t [] a = tt
calm-All g calm t (u ∷ us) (c, a) = (calm-IsClear g calm t u c, calm-All g calm t us a)

pub calm-Pairs :
    (g : Task → Task) → IsCalm g → (ts : List Task) → Pairs IsClear ts → Pairs IsClear (map g ts)
calm-Pairs g calm [] p = tt
calm-Pairs g calm (t ∷ ts) (a, p) = (calm-All g calm t ts a, calm-Pairs g calm ts p)

-- The lease of one row that no live row stands in the way of.
module _ (now : ℕ) (token : String) (t : Task) where
  abbrev leased_row : Task → Task
  leased_row u = if str_eq u.id t.id then lease now token u else u

  lease-source : (u : Task) → (lease now token u).source ≡ u.source
  unfolding lease
  lease-source u = refl

  leased_row-id : (u : Task) → (leased_row u).id ≡ u.id
  unfolding lease
  leased_row-id u = ground arith

  leased_row-source : (u : Task) → (leased_row u).source ≡ u.source
  unfolding lease
  leased_row-source u = ground arith

  module _ (h u : Task) (free_h : conflicts t h ≡ false) (free_u : conflicts t u ≡ false)
      (slot_h : str_eq h.id t.id ≡ true → h.source ≡ t.source)
      (slot_u : str_eq u.id t.id ≡ true → u.source ≡ t.source) where
    lease_pair : IsClear h u → IsClear (leased_row h) (leased_row u)
    lease_pair c = record {
      other_id = rw (leased_row-id h, leased_row-id u) c.other_id;
      other_slot = λ r. elim (Bool-cases (str_eq h.id t.id)) [
        | inl eh ↦ elim (Bool-cases (str_eq u.id t.id)) [
          | inl eu ↦
              absurd
                (ground (arith, c.other_id, eq_iff h.id t.id, eq_iff u.id t.id, eq_iff h.id u.id))
          | inr nu ↦ elim (Bool-cases (is_running u.status)) [
            | inr n ↦ idle-conflicts (leased_row h) (leased_row u) (rw nu n)
            | inl y ↦ clash-conflicts (leased_row h) (leased_row u) (
                rw (leased_row-source h, leased_row-source u, slot_h eh)
                  (conflicts-clash t u free_u y))
          ]
        ]
        | inr nh ↦ elim (Bool-cases (str_eq u.id t.id)) [
          | inr nu ↦ rw (nh, nu) (c.other_slot (rw nh at r))
          | inl eu ↦ clash-conflicts (leased_row h) (leased_row u) (
              rw (leased_row-source h, leased_row-source u, slot_u eu)
                (clash_comm h.source t.source ∙ conflicts-clash t h free_h (rw nh at r)))
        ]
      ];
    }

  leased-All :
      (h : Task) (us : List Task)
      → conflicts t h ≡ false
      → (str_eq h.id t.id ≡ true → h.source ≡ t.source)
      → ((u : Task) → In u us → conflicts t u ≡ false)
      → ((u : Task) → In u us → str_eq u.id t.id ≡ true → u.source ≡ t.source)
      → All (IsClear h) us
      → All (IsClear (leased_row h)) (map leased_row us)
  leased-All h [] fh sh f s a = tt
  leased-All h (u ∷ us) fh sh f s (c, a) = (
    lease_pair h u fh (f u (inl refl)) sh (s u (inl refl)) c,
    leased-All h us fh sh (λ v i. f v (inr i)) (λ v i. s v (inr i)) a,
  )

  pub leased-Pairs :
      (ts : List Task)
      → ((u : Task) → In u ts → conflicts t u ≡ false)
      → ((u : Task) → In u ts → str_eq u.id t.id ≡ true → u.source ≡ t.source)
      → Pairs IsClear ts
      → Pairs IsClear (update_where (λ u. str_eq u.id t.id) (lease now token) ts).0
  leased-Pairs [] f s p = tt
  leased-Pairs (h ∷ ts) f s (a, p) = (
    leased-All h ts (f h (inl refl)) (s h (inl refl)) (λ v i. f v (inr i)) (λ v i. s v (inr i)) a,
    leased-Pairs ts (λ v i. f v (inr i)) (λ v i. s v (inr i)) p,
  )

clear_ids : (x u : Task) → str_eq x.id u.id ≡ true → IsClear x u → ⊥
clear_ids x u e c = cc (c.other_id)

str_eq_symm : (a b : String) → str_eq a b ≡ true → str_eq b a ≡ true
str_eq_symm a b e = (eq_iff b a).1 (sym ((eq_iff a b).0 e))

-- Rows of one id are one row.
pub In-same_id :
    (ts : List Task) (t u : Task)
    → Pairs IsClear ts
    → In t ts
    → In u ts
    → str_eq u.id t.id ≡ true
    → u ≡ t
In-same_id [] t u p i j e = absurd i
In-same_id (x ∷ xs) t u (a, p) (inl q) (inl r) e = r ∙ sym q
In-same_id (x ∷ xs) t u (a, p) (inl q) (inr j) e = absurd (
    clear_ids x u (str_eq_symm u.id x.id (subst (λ y. str_eq u.id y.id ≡ true) q e))
      (All-In (IsClear x) xs a j))
In-same_id (x ∷ xs) t u (a, p) (inr i) (inl r) e =
    absurd (clear_ids x t (subst (λ y. str_eq y.id t.id ≡ true) r e) (All-In (IsClear x) xs a i))
In-same_id (x ∷ xs) t u (a, p) (inr i) (inr j) e = In-same_id xs t u p i j e

-- No listed row conflicts with one that acquisition found free.
pub free-conflicts :
    (t : Task) (ts : List Task)
    → any (conflicts t) ts ≡ false
    → (u : Task) → In u ts
    → conflicts t u ≡ false
free-conflicts t ts h u i = elim (Bool-cases (conflicts t u)) [
  | inr n ↦ n
  | inl y ↦ let c = any_complete (conflicts t) ts i y in cc (h, c)
]
