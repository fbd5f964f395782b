-- ===== src/Prelude/Tests.antt =====
-- Boolean tests on numbers and texts, and case splits that keep the equation.
use Prim.Native.Nat.{ℕ, compare, Ordering}
use Prim.Native.Char.{code}
use Prim.Native.String.{String}
use mathlib.Core.Path.{◌≡◌, refl}
use mathlib.Core.Logic.{◌⊎◌, inl, inr, ◌↔◌}
use mathlib.Core.Bool.{Bool, true, false, ◌&&◌, ◌||◌}
use mathlib.Core.Option.{Option, none, some}
use text.Mathlib.Text.{◌==◌ as text_eq}
use text.Mathlib.TextEquality.{eq_iff}

infix 1 if◌then◌else◌
abbrev pub if◌then◌else◌ {ℓ} : {A : Type ℓ} → Bool → A → A → A
if true then x else y = x
if false then x else y = y

abbrev pub ltb : ℕ → ℕ → Bool
ltb a b = elim (compare a b) [ Ordering.lt ↦ true | _ ↦ false ]

abbrev pub leb : ℕ → ℕ → Bool
leb a b = elim (compare a b) [ Ordering.gt ↦ false | _ ↦ true ]

abbrev pub nat_eq : ℕ → ℕ → Bool
nat_eq a b = elim (compare a b) [ Ordering.eq ↦ true | _ ↦ false ]

-- Equality of texts.
infix 50 ◌==◌
abbrev pub ◌==◌ : String → String → Bool
a == b = text_eq a b

pub ==_iff : (a b : String) → (a == b ≡ true) ↔ (a ≡ b)
==_iff a b = eq_iff a b

pub ==_self : (a : String) → a == a ≡ true
==_self a = (eq_iff a a).1 refl

-- Go's order of strings: by bytes, which in UTF-8 is by code points.
pub str_lt : String → String → Bool
str_lt String.[] String.[] = false
str_lt String.[] (String.◌∷◌ d t) = true
str_lt (String.◌∷◌ c s) String.[] = false
str_lt (String.◌∷◌ c s) (String.◌∷◌ d t) = elim (compare (code c) (code d)) [
  | Ordering.lt ↦ true
  | Ordering.eq ↦ str_lt s t
  | Ordering.gt ↦ false
]

pub Bool-cases : (b : Bool) → (b ≡ true) ⊎ (b ≡ false)
Bool-cases true = inl refl
Bool-cases false = inr refl

pub Option-cases {ℓ} : {A : Type ℓ} (o : Option A) → (o ≡ none) ⊎ ((a : A) × (o ≡ some a))
Option-cases none = inl refl
Option-cases (some a) = inr (a, refl)

-- A signed number: `negsuc n` is -(n + 1).
pub data ℤ : Type 0 where
  pos : ℕ → ℤ
  negsuc : ℕ → ℤ

-- A string pointer read with "" for nil.
abbrev pub strp : Option String → String
strp none = ""
strp (some s) = s

-- `strings.Contains`.
is_prefix : String → String → Bool
is_prefix String.[] t = true
is_prefix (String.◌∷◌ c s) String.[] = false
is_prefix (String.◌∷◌ c s) (String.◌∷◌ d t) = nat_eq (code c) (code d) && is_prefix s t

pub contains_text : String → String → Bool
unfolding is_prefix
contains_text String.[] sub = is_prefix String.[] sub && is_prefix sub String.[]
contains_text (String.◌∷◌ c s) sub = is_prefix sub (String.◌∷◌ c s) || contains_text s sub

-- `a.After(b)` for a time and a time behind a pointer.
abbrev pub after : Option ℕ → ℕ → Bool
after none b = false
after (some a) b = ltb b a

abbrev pub ℤ_lt : ℤ → ℤ → Bool
ℤ_lt (pos a) (pos b) = ltb a b
ℤ_lt (pos a) (negsuc b) = false
ℤ_lt (negsuc a) (pos b) = true
ℤ_lt (negsuc a) (negsuc b) = ltb b a

abbrev pub ℤ_eq : ℤ → ℤ → Bool
ℤ_eq (pos a) (pos b) = nat_eq a b
ℤ_eq (negsuc a) (negsuc b) = nat_eq a b
ℤ_eq (pos a) (negsuc b) = false
ℤ_eq (negsuc a) (pos b) = false
