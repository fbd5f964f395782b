-- ===== src/Prelude/Maps.antt =====
-- A Go map from strings as an association list. The order of the list stands for the order in
-- which a `range` visits the map, which Go leaves open.
use mathlib.Core.Path.{◌≡◌, refl}
use mathlib.Core.Bool.{Bool, false, ◌||◌}
use mathlib.Core.Option.{Option, none, some}
use mathlib.Core.List.{List, [], ◌∷◌}
use native.Mathlib.Omega.{arith}
use Prim.Native.String.{String}
use go_tangra_notification.Prelude.Tests.{if◌then◌else◌, ◌==◌, ==_iff}

abbrev pub Table {ℓ} : Type ℓ → Type ℓ
Table V = List (String × V)

module _ {ℓ} {Row : Type ℓ} where
  unfoldable pub lookup : String → Table Row → Option Row
  lookup key [] = none
  lookup key ((i, x) ∷ t) = if i == key then some x else lookup key t

  -- `delete(m, k)`.
  unfoldable pub erase : String → Table Row → Table Row
  erase key [] = []
  erase key ((i, x) ∷ t) = let rest = erase key t in if i == key then rest else (i, x) ∷ rest

  -- `m[k] = v`: in place where the key is there.
  unfoldable pub insert : String → Row → Table Row → Table Row
  insert key row [] = (key, row) ∷ []
  insert key row ((i, x) ∷ t) = if i == key then (i, row) ∷ t else (i, x) ∷ insert key row t

  -- A `range` that deletes what passes the test.
  unfoldable pub erase_if : (Row → Bool) → Table Row → Table Row
  erase_if p [] = []
  erase_if p ((i, x) ∷ t) = let rest = erase_if p t in if p x then rest else (i, x) ∷ rest

  -- A `range` that rewrites rows in place.
  unfoldable pub update_all : (Row → Row) → Table Row → Table Row
  update_all f [] = []
  update_all f ((i, x) ∷ t) = (i, f x) ∷ update_all f t

  -- The same two with the key at hand.
  unfoldable pub update_entries : (String → Row → Row) → Table Row → Table Row
  update_entries f [] = []
  update_entries f ((i, x) ∷ t) = (i, f i x) ∷ update_entries f t

  unfoldable pub any_entry : (String → Row → Bool) → Table Row → Bool
  any_entry p [] = false
  any_entry p ((i, x) ∷ t) = p i x || any_entry p t

  -- The first row, in the order of the visit, that passes the test.
  unfoldable pub find : (Row → Bool) → Table Row → Option Row
  find p [] = none
  find p ((i, x) ∷ t) = let rest = find p t in if p x then some x else rest

  unfoldable pub values : Table Row → List Row
  values [] = []
  values ((i, x) ∷ t) = x ∷ values t

  pub lookup-erase :
      (key other : String) (t : Table Row)
      → lookup other (erase key t) ≡ (if key == other then none else lookup other t)
  unfolding lookup erase
  lookup-erase key other [] = ground arith
  lookup-erase key other ((i, x) ∷ t) =
      ground (arith, lookup-erase key other t, ==_iff i key, ==_iff i other, ==_iff key other)

  pub lookup-insert :
      (key other : String) (row : Row) (t : Table Row)
      → lookup other (insert key row t) ≡ (if key == other then some row else lookup other t)
  unfolding lookup insert
  lookup-insert key other row [] = refl
  lookup-insert key other row ((i, x) ∷ t) =
      ground (arith, lookup-insert key other row t, ==_iff i key, ==_iff i other, ==_iff key other)

abbrev pub map_option {ℓ κ} : {A : Type ℓ} {B : Type κ} → (A → B) → Option A → Option B
map_option f none = none
map_option f (some a) = some (f a)

abbrev pub and_then {ℓ κ} : {A : Type ℓ} {B : Type κ} → Option A → (A → Option B) → Option B
and_then none f = none
and_then (some a) f = f a

pub lookup-update_all {ℓ} :
    {V : Type ℓ} (f : V → V) (k : String) (m : Table V)
    → lookup k (update_all f m) ≡ map_option f (lookup k m)
unfolding lookup update_all
lookup-update_all f k [] = refl
lookup-update_all f k ((j, w) ∷ m) = ground (arith, lookup-update_all f k m)
