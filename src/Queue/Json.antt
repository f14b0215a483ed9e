-- ===== src/Queue/Json.antt =====
-- `stableJson`: the text of a payload that requests and checkpoints are compared by.
use universal_race_calendar.Common.{
  ℕ, ◌≡◌, refl, Bool, true, false, not, ◌==◌, if◌then◌else◌, String, str_eq, Option, none, some,
  arith, ◌∙◌, ◌⊎◌, List, [], ◌∷◌, inl, inr, sym,
}
use Prim.Native.String.{◌++◌ as concat}

mutual
  -- A value of `JSON.parse`. A number of it is a non-negative integer, with 0 for -0; a negative
  -- integer, `minus n` for -(n + 1); one that is no integer, `fraction negative whole digits` for
  -- the number of that sign, with these decimal digits, not all of them 0, behind the point; or one
  -- that JSON.parse makes infinite.
  pub data Json : Type 0 where
    null : Json
    bool : Bool → Json
    num : ℕ → Json
    minus : ℕ → Json
    fraction : Bool → ℕ → String → Json
    infinite : Bool → Json
    str : String → Json
    arr : Items → Json
    obj : Fields → Json

  pub data Items : Type 0 where
    nil : Items
    cons : Json → Items → Items

  pub data Fields : Type 0 where
    end : Fields
    field : String → Json → Fields → Fields

-- `value[key]`, which is `undefined` on what is no object
abbrev pub find_field : String → Fields → Option Json
find_field key end = none
find_field key (field k v fs) = if str_eq k key then some v else find_field key fs

abbrev pub get_field : String → Json → Option Json
get_field key (obj fs) = find_field key fs
get_field key _ = none

-- `payload->>'key'` of a text
abbrev pub text_of : Option Json → Option String
text_of (some (str s)) = some s
text_of _ = none

abbrev pub text_at : String → Json → Option String
text_at key j = text_of (get_field key j)

-- What `if (value)` takes for true.
abbrev pub is_truthy : Option Json → Bool
is_truthy none = false
is_truthy (some null) = false
is_truthy (some (bool b)) = b
is_truthy (some (num n)) = not (n == 0)
is_truthy (some (str s)) = not (str_eq s "")
is_truthy (some _) = true

-- What the runtime provides: the order of `localeCompare`, and `JSON.stringify` of a value that is
-- no array and no object, and of a key.
pub record Runtime : Type 0 where
  pub before : String → String → Bool
  pub leaf : Json → String
  pub quote : String → String

module _ (r : Runtime) where
  -- A stable sort on the keys, of the entries with their printed values.
  insert : String → String → List (String × String) → List (String × String)
  insert k v [] = (k, v) ∷ []
  insert k v ((j, w) ∷ es) = if r.before j k then (j, w) ∷ insert k v es else (k, v) ∷ (j, w) ∷ es

  -- `.map(([k, v]) => …).join(",")`
  abbrev join_entries : List (String × String) → String
  join_entries [] = ""
  join_entries ((k, v) ∷ []) = concat (r.quote k) (concat ":" v)
  join_entries ((k, v) ∷ e ∷ es) =
      concat (r.quote k) (concat ":" (concat v (concat "," (join_entries (e ∷ es)))))

  unfoldable mutual
    unfolding insert

    pub stable_json : Json → String
    stable_json (arr xs) = concat "[" (concat (stable_items xs) "]")
    stable_json (obj fs) = concat "{" (concat (join_entries (sorted_entries fs)) "}")
    stable_json leaf = r.leaf leaf

    stable_items : Items → String
    stable_items nil = ""
    stable_items (cons x nil) = stable_json x
    stable_items (cons x (cons y ys)) =
        concat (stable_json x) (concat "," (stable_items (cons y ys)))

    sorted_entries : Fields → List (String × String)
    sorted_entries end = []
    sorted_entries (field k v fs) = insert k (stable_json v) (sorted_entries fs)

-- What is documented of `localeCompare`: an order.
pub record IsCollation (r : Runtime) : Type 0 where
  pub asym : (a b : String) → r.before a b ≡ true → r.before b a ≡ false
  pub trans : (a b c : String) → r.before a b ≡ true → r.before b c ≡ true → r.before a c ≡ true

module _ (r : Runtime) (collation : IsCollation r) where
  insert-comm_lt :
      (k j v w : String) (es : List (String × String))
      → r.before k j ≡ true
      → insert r k v (insert r j w es) ≡ insert r j w (insert r k v es)
  unfolding insert
  insert-comm_lt k j v w [] h = ground (arith, collation.asym k j)
  insert-comm_lt k j v w ((i, x) ∷ es) h =
      ground (arith, collation.asym k j, collation.trans i k j, insert-comm_lt k j v w es h)

  mutual
    -- The two values differ at most in the order of the entries of their objects, at any depth, the
    -- keys that trade places being apart under the collation.
    pub data Reordered : Json → Json → Type 0 where
      same : {j : Json} → Reordered j j
      in_array : {xs ys : Items} → ReorderedItems xs ys → Reordered (arr xs) (arr ys)
      in_object : {fs gs : Fields} → ReorderedFields fs gs → Reordered (obj fs) (obj gs)

    pub data ReorderedItems : Items → Items → Type 0 where
      nils : ReorderedItems nil nil
      conses :
          {x y : Json} {xs ys : Items}
          → Reordered x y
          → ReorderedItems xs ys
          → ReorderedItems (cons x xs) (cons y ys)

    pub data ReorderedFields : Fields → Fields → Type 0 where
      ends : ReorderedFields end end
      fields :
          {k : String} {v w : Json} {fs gs : Fields}
          → Reordered v w
          → ReorderedFields fs gs
          → ReorderedFields (field k v fs) (field k w gs)
      swaps :
          {k j : String} {v w : Json} {fs : Fields}
          → (r.before k j ≡ true) ⊎ (r.before j k ≡ true)
          → ReorderedFields (field k v (field j w fs)) (field j w (field k v fs))
      chain :
          {fs gs hs : Fields}
          → ReorderedFields fs gs
          → ReorderedFields gs hs
          → ReorderedFields fs hs

  mutual
    unfolding stable_json stable_items sorted_entries

    json-Reordered : {a b : Json} → Reordered a b → stable_json r a ≡ stable_json r b
    json-Reordered same = refl
    json-Reordered (in_array h) = let e = items-Reordered h in rw e refl
    json-Reordered (in_object h) = let e = entries-Reordered h in rw e refl

    items-Reordered : {xs ys : Items} → ReorderedItems xs ys → stable_items r xs ≡ stable_items r ys
    items-Reordered nils = refl
    items-Reordered (conses h nils) = json-Reordered h
    items-Reordered (conses h (conses g hs)) =
        let first = json-Reordered h in
        let rest = items-Reordered (conses g hs) in rw (first, rest) refl

    entries-Reordered :
        {fs gs : Fields} → ReorderedFields fs gs → sorted_entries r fs ≡ sorted_entries r gs
    entries-Reordered ends = refl
    entries-Reordered (fields {k} {v} {w} h hs) =
        let first = json-Reordered h in let rest = entries-Reordered hs in rw (first, rest) refl
    entries-Reordered (swaps {k} {j} {v} {w} {fs} (inl h)) =
        insert-comm_lt k j _ _ (sorted_entries r fs) h
    entries-Reordered (swaps {k} {j} {v} {w} {fs} (inr h)) =
        sym (insert-comm_lt j k _ _ (sorted_entries r fs) h)
    entries-Reordered (chain g h) = entries-Reordered g ∙ entries-Reordered h

  -- `stableJson` gives one text to two values that differ at most in the order of the entries of
  -- their objects, at any depth, if of every two keys that trade places one stands before the other
  -- under `localeCompare`.
  pub stable_json-Reordered : {a b : Json} → Reordered a b → stable_json r a ≡ stable_json r b
  stable_json-Reordered h = json-Reordered h
