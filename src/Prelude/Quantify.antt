-- ===== src/Prelude/Quantify.antt =====
-- Laws of the Boolean quantifiers over selections, sorted lists and tables.
use Prim.Native.String.{String}
use Prim.Native.Nat.{ℕ, zero, suc}
use mathlib.Core.Path.{◌≡◌, refl, ◌∙◌, ap}
use mathlib.Core.Bool.{Bool, true, ◌&&◌, ◌||◌}
use mathlib.Core.Option.{some}
use mathlib.Core.List.{List, [], ◌∷◌, map}
use native.Mathlib.Omega.{arith}
use go_tangra_notification.Prelude.Tests.{◌==◌}
use go_tangra_notification.Prelude.Lists.{any, all, select, take, insert_by, sort_by, contains}
use go_tangra_notification.Prelude.Maps.{Table, lookup, values}

module _ {ℓ} {A : Type ℓ} (p : A → Bool) where
  any-insert_by :
      (less : A → A → Bool) (a : A) (xs : List A) → any p (insert_by less a xs) ≡ (p a || any p xs)
  any-insert_by less a [] = refl
  any-insert_by less a (x ∷ xs) = ground (arith, any-insert_by less a xs)

  -- Sorting changes no answer.
  pub any-sort_by : (less : A → A → Bool) (xs : List A) → any p (sort_by less xs) ≡ any p xs
  any-sort_by less [] = refl
  any-sort_by less (x ∷ xs) =
      any-insert_by less x (sort_by less xs) ∙ ap (λ b. p x || b) (any-sort_by less xs)

  pub any-select : (q : A → Bool) (xs : List A) → any p (select q xs) ≡ any (λ x. q x && p x) xs
  any-select q [] = refl
  any-select q (x ∷ xs) = ground (arith, any-select q xs)

  pub any-cong : (q : A → Bool) (xs : List A) → ((x : A) → p x ≡ q x) → any p xs ≡ any q xs
  any-cong q [] h = refl
  any-cong q (x ∷ xs) h = rw (h x, any-cong q xs h)

  -- Two tests that agree where a third holds, on a list all of which it holds.
  pub any-cong_of_all :
      (q v : A → Bool) (xs : List A)
      → all v xs ≡ true
      → ((x : A) → v x ≡ true → p x ≡ q x)
      → any p xs ≡ any q xs
  any-cong_of_all q v [] a h = refl
  any-cong_of_all q v (x ∷ xs) a h =
      rw (h x (ground arith), any-cong_of_all q v xs (ground arith) h)

  pub any-lookup :
      (k : String) (t : Table A) {v : A}
      → lookup k t ≡ some v
      → p v ≡ true
      → any p (values t) ≡ true
  unfolding lookup values
  any-lookup k [] h q = cc
  any-lookup k ((j, w) ∷ t) {v} h q = ground (arith, any-lookup k t {v = v})

module _ {ℓ} {A : Type ℓ} (p : A → Bool) where
  -- What the test of a selection implies holds of each element selected.
  pub all-select :
      (q : A → Bool) (xs : List A)
      → ((x : A) → q x ≡ true → p x ≡ true)
      → all p (select q xs) ≡ true
  all-select q [] h = refl
  all-select q (x ∷ xs) h = ground (arith, h x, all-select q xs h)

  all-insert_by :
      (less : A → A → Bool) (a : A) (xs : List A) → all p (insert_by less a xs) ≡ (p a && all p xs)
  all-insert_by less a [] = refl
  all-insert_by less a (x ∷ xs) = ground (arith, all-insert_by less a xs)

  pub all-sort_by : (less : A → A → Bool) (xs : List A) → all p (sort_by less xs) ≡ all p xs
  all-sort_by less [] = refl
  all-sort_by less (x ∷ xs) =
      ground (arith, all-insert_by less x (sort_by less xs), all-sort_by less xs)

  pub all-take : (n : ℕ) (xs : List A) → all p xs ≡ true → all p (take n xs) ≡ true
  all-take zero xs h = refl
  all-take (suc n) [] h = refl
  all-take (suc n) (x ∷ xs) h = ground (arith, h, all-take n xs)

pub all-map {ℓ κ} :
    {A : Type ℓ} {B : Type κ} (p : B → Bool) (f : A → B) (xs : List A)
    → all p (map f xs) ≡ all (λ x. p (f x)) xs
all-map p f [] = refl
all-map p f (x ∷ xs) = rw (all-map p f xs)

pub contains-map {ℓ} :
    {A : Type ℓ} (f : A → String) (xs : List A) (a : String)
    → contains (map f xs) a ≡ any (λ x. f x == a) xs
contains-map f [] a = refl
contains-map f (x ∷ xs) a = rw (contains-map f xs a)
