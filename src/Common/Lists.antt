-- ===== src/Common/Lists.antt =====
-- List helpers over the native numbers and Boolean tests, and predicates on lists by recursion.
use Prim.Native.Nat.{ℕ, zero, suc}
use mathlib.Core.Path.{◌≡◌, refl, sym, subst}
use mathlib.Core.Logic.{◌⊎◌, inl, inr}
use mathlib.Core.Bool.{Bool, true, false, ◌&&◌, ◌||◌}
use mathlib.Core.Option.{Option, none, some}
use mathlib.Core.List.{List, [], ◌∷◌}
use native.Mathlib.Omega.{arith}
use universal_race_calendar.Common.Tests.{if◌then◌else◌, Bool-cases}

module _ {ℓ} {A : Type ℓ} where
  abbrev pub length : List A → ℕ
  length [] = 0
  length (x ∷ xs) = suc (length xs)

  -- `xs.some(p)`
  abbrev pub any : (A → Bool) → List A → Bool
  any p [] = false
  any p (x ∷ xs) = p x || any p xs

  -- `xs.every(p)`
  abbrev pub all : (A → Bool) → List A → Bool
  all p [] = true
  all p (x ∷ xs) = p x && all p xs

  -- `xs.filter(p)`
  abbrev pub keep : (A → Bool) → List A → List A
  keep p [] = []
  keep p (x ∷ xs) = if p x then x ∷ keep p xs else keep p xs

  -- `xs.find(p)`
  abbrev pub find : (A → Bool) → List A → Option A
  find p [] = none
  find p (x ∷ xs) = if p x then some x else find p xs

  -- `xs.slice(0, n)`
  abbrev pub take : ℕ → List A → List A
  take zero xs = []
  take (suc n) [] = []
  take (suc n) (x ∷ xs) = x ∷ take n xs

module _ {A : Type 0} where
  -- `x` stands in the list.
  abbrev pub In : A → List A → Type 0
  In x [] = ⊥
  In x (y ∷ ys) = (x ≡ y) ⊎ In x ys

  abbrev pub All : (A → Type 0) → List A → Type 0
  All P [] = Unit
  All P (x ∷ xs) = P x × All P xs

  pub All-In : (P : A → Type 0) {x : A} (xs : List A) → All P xs → In x xs → P x
  All-In P [] h i = absurd i
  All-In P (y ∷ ys) (p, h) (inl e) = subst P (sym e) p
  All-In P (y ∷ ys) (p, h) (inr i) = All-In P ys h i

  -- What passes the filter is in the list and passes the test.
  pub In-keep : (p : A → Bool) (xs : List A) {x : A} → In x (keep p xs) → In x xs × (p x ≡ true)
  In-keep p [] i = absurd i
  In-keep p (y ∷ ys) {x} i = elim (Bool-cases (p y)) [
    | inl e ↦ In-keep_cons p y ys e (In-keep p ys) (rw e at i)
    | inr e ↦ let (j, t) = In-keep p ys (rw e at i) in (inr j, t)
  ]
    where
      In-keep_cons :
          (p : A → Bool) (y : A) (ys : List A) {x : A}
          → p y ≡ true
          → (In x (keep p ys) → In x ys × (p x ≡ true))
          → In x (y ∷ keep p ys)
          → In x (y ∷ ys) × (p x ≡ true)
      In-keep_cons p y ys e ih (inl q) = (inl q, rw q e)
      In-keep_cons p y ys e ih (inr j) = let (k, t) = ih j in (inr k, t)

  -- Conversely.
  pub keep-In : (p : A → Bool) (xs : List A) {x : A} → In x xs → p x ≡ true → In x (keep p xs)
  keep-In p [] i t = absurd i
  keep-In p (y ∷ ys) (inl q) t = let e : p y ≡ true = rw (← q) t in rw e (inl q)
  keep-In p (y ∷ ys) (inr j) t = elim (Bool-cases (p y)) [
    | inl e ↦ rw e (inr (keep-In p ys j t))
    | inr e ↦ rw e (keep-In p ys j t)
  ]

  -- `some` finds an element that passes.
  pub any_sound : (p : A → Bool) (xs : List A) → any p xs ≡ true → (x : A) × In x xs × (p x ≡ true)
  any_sound p [] h = cc
  any_sound p (y ∷ ys) h = elim (Bool-cases (p y)) [
    | inl e ↦ (y, inl refl, e)
    | inr e ↦ let (x, i, t) = any_sound p ys (rw e at h) in (x, inr i, t)
  ]

  pub any_complete : (p : A → Bool) (xs : List A) {x : A} → In x xs → p x ≡ true → any p xs ≡ true
  any_complete p [] i t = absurd i
  any_complete p (y ∷ ys) (inl q) t = let e : p y ≡ true = rw (← q) t in rw e
  any_complete p (y ∷ ys) (inr j) t = ground (arith, any_complete p ys j t)
