-- ===== src/Prelude/Appends.antt =====
-- Laws of lists put together.
use Prim.Native.Nat.{suc}
use mathlib.Core.Path.{◌≡◌, refl, ap}
use mathlib.Core.Bool.{Bool, true, ◌&&◌}
use mathlib.Core.List.{List, [], ◌∷◌, ◌++◌}
use native.Mathlib.Omega.{arith}
use go_tangra_notification.Prelude.Lists.{length, all}

pub all-snoc {ℓ} :
    {A : Type ℓ} (p : A → Bool) (xs : List A) (e : A) → all p (xs ++ e ∷ []) ≡ (all p xs && p e)
all-snoc p [] e = ground arith
all-snoc p (x ∷ xs) e = ground (arith, all-snoc p xs e)

pub all_implies {ℓ} :
    {A : Type ℓ} (p q : A → Bool) (xs : List A)
    → ((x : A) → p x ≡ true → q x ≡ true)
    → all p xs ≡ true
    → all q xs ≡ true
all_implies p q [] f h = refl
all_implies p q (x ∷ xs) f h = ground (arith, f x, h, all_implies p q xs f)

pub append_assoc {ℓ} : {A : Type ℓ} (xs ys zs : List A) → (xs ++ ys) ++ zs ≡ xs ++ (ys ++ zs)
append_assoc [] ys zs = refl
append_assoc (x ∷ xs) ys zs = ap (λ l. x ∷ l) (append_assoc xs ys zs)

pub length-snoc {ℓ} : {A : Type ℓ} (xs : List A) (e : A) → length (xs ++ e ∷ []) ≡ suc (length xs)
length-snoc [] e = refl
length-snoc (x ∷ xs) e = ground (arith, length-snoc xs e)

pub append-nil {ℓ} : {A : Type ℓ} (xs : List A) → xs ++ [] ≡ xs
append-nil [] = refl
append-nil (x ∷ xs) = ap (λ l. x ∷ l) (append-nil xs)
