-- ===== src/Prelude/Texts.antt =====
-- Texts: characters, cutting, splitting and joining, as package strings has them.
use Prim.Native.Nat.{ℕ}
use Prim.Native.Char.{Char, code}
use Prim.Native.String.{String, ◌++◌ as append}
use text.Mathlib.TextLemmas.{nil-append, cons-append}
use mathlib.Core.Path.{◌≡◌, refl}
use mathlib.Core.Bool.{Bool, true, false, not, ◌&&◌}
use mathlib.Core.Option.{Option, none, some}
use mathlib.Core.Logic.{inl, inr}
use mathlib.Core.List.{List, [], ◌∷◌}
use native.Mathlib.Omega.{arith}
use go_tangra_notification.Prelude.Tests.{if◌then◌else◌, leb, nat_eq, ◌==◌, ==_iff, Bool-cases}
use go_tangra_notification.Prelude.Lists.{all}

abbrev pub is_digit : ℕ → Bool
is_digit c = leb 48 c && leb c 57

abbrev pub prepend_first : Char → Option (String × String) → Option (String × String)
prepend_first c none = none
prepend_first c (some (a, b)) = some (String.◌∷◌ c a, b)

-- `strings.Cut` at a separator of one character.
unfoldable pub cut_at : ℕ → String → Option (String × String)
cut_at sep String.[] = none
cut_at sep (String.◌∷◌ c s) =
    let rest = prepend_first c (cut_at sep s) in if nat_eq (code c) sep then some ("", s) else rest

-- `strings.Split` at a separator of one character.
abbrev prepend_part : Char → List String → List String
prepend_part c [] = String.◌∷◌ c "" ∷ []
prepend_part c (p ∷ ps) = String.◌∷◌ c p ∷ ps

unfoldable pub split : ℕ → String → List String
split sep String.[] = "" ∷ []
split sep (String.◌∷◌ c s) =
    let rest = split sep s in if nat_eq (code c) sep then "" ∷ rest else prepend_part c rest

-- `strings.Join` with a comma.
unfoldable pub join : List String → String
join [] = ""
join (x ∷ []) = x
join (x ∷ y ∷ xs) = append x (append "," (join (y ∷ xs)))

-- No character of the text passes the test (`!strings.ContainsAny`).
unfoldable pub lacks : (ℕ → Bool) → String → Bool
lacks p String.[] = true
lacks p (String.◌∷◌ c s) = not (p (code c)) && lacks p s

pub cons_ne : (c : Char) (s : String) → String.◌∷◌ c s == "" ≡ false
cons_ne c s = elim (Bool-cases (String.◌∷◌ c s == "")) [
  | inl e ↦ let p = (==_iff (String.◌∷◌ c s) "").0 e in cc
  | inr e ↦ e
]

split-append :
    (t : String) (rest : String)
    → lacks (nat_eq b',') t ≡ true
    → split b',' (append t (append "," rest)) ≡ t ∷ split b',' rest
unfolding split lacks
split-append String.[] rest h =
    rw (nil-append (append "," rest), cons-append "," "" rest, nil-append rest, split) refl
split-append (String.◌∷◌ c t) rest h =
    rw (cons-append c t (append "," rest), split) (ground (arith, h, split-append t rest))

split-whole : (t : String) → lacks (nat_eq b',') t ≡ true → split b',' t ≡ t ∷ []
unfolding split lacks
split-whole String.[] h = refl
split-whole (String.◌∷◌ c t) h = ground (arith, h, split-whole t)

-- What was joined is split again, where no part holds the separator.
pub split-join :
    (x : String) (xs : List String)
    → all (lacks (nat_eq b',')) (x ∷ xs) ≡ true
    → split b',' (join (x ∷ xs)) ≡ x ∷ xs
unfolding join
split-join x [] h = split-whole x (ground arith)
split-join x (y ∷ xs) h =
    rw (split-append x (join (y ∷ xs)) (ground arith), split-join y xs (ground arith))
