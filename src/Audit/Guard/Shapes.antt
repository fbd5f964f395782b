-- ===== src/Audit/Guard/Shapes.antt =====
-- internal/audit/audit.go: the shapes of a secret, and the patterns that find them.
use Prim.Native.Char.{code}
use Prim.Native.String.{String}
use go_tangra_notification.Prelude.{
  ℕ, zero, suc, ◌≡◌, ◌⊎◌, refl, ap, sym, subst, ◌∙◌, ◌-◌, ◌≤◌, Bool, true, List, [], ◌∷◌, ◌++◌, map,
  ◌&&◌, ◌||◌, if◌then◌else◌, all, length, leb, nat_eq, arith, inl, inr, append_assoc,
}
use go_tangra_notification.Audit.Guard.{
  Rest, folded, plain, many, at_least, secret_marker, key_marker, token_marker, bytes_of, anything,
  is_base64url, is_upper_or_space, fold_eq,
}

-- An ASCII letter as a capital, any other byte as it is.
abbrev pub capital : ℕ → ℕ
capital c = if leb 97 c && leb c 122 then c - 32 else c

-- NOTIF-MARKER-PW- or NOTIF-MARKER-BODY-, in any case.
abbrev pub IsMarker : List ℕ → Type 0
IsMarker m =
    (a b : List ℕ) × (m ≡ a ++ b)
    × (map capital a ≡ bytes_of "NOTIF-MARKER-")
    × ((map capital b ≡ bytes_of "PW-") ⊎ (map capital b ≡ bytes_of "BODY-"))

-- A capital or a space.
abbrev pub title_byte : ℕ → Bool
title_byte c = (leb 65 c && leb c 90) || nat_eq c 32

-- The first line of a private key, whatever its kind.
abbrev pub IsKey : List ℕ → Type 0
IsKey m =
    (kind : List ℕ) × (m ≡ bytes_of "-----BEGIN " ++ (kind ++ bytes_of "PRIVATE KEY-----"))
    × (all title_byte kind ≡ true)

-- A letter, a digit, an underscore or a dash.
abbrev pub token_byte : ℕ → Bool
token_byte c =
    (leb 65 c && leb c 90)
    || (leb 97 c && leb c 122)
    || (leb 48 c && leb c 57)
    || nat_eq c 95
    || nat_eq c 45

-- A signed token: eyJ, and three parts with a dot between them, of 4, 4 and 3 bytes at least.
abbrev pub IsToken : List ℕ → Type 0
IsToken m =
    (a b c : List ℕ) × (m ≡ bytes_of "eyJ" ++ (a ++ (46 ∷ (b ++ (46 ∷ c)))))
    × (all token_byte a ≡ true)
    × (all token_byte b ≡ true)
    × (all token_byte c ≡ true)
    × (4 ≤ length a)
    × (4 ≤ length b)
    × (3 ≤ length c)

plain-bytes_of :
    (q : String) (p : Rest) (s : List ℕ) → p s ≡ true → plain q p (bytes_of q ++ s) ≡ true
unfolding plain bytes_of
plain-bytes_of String.[] p s h = h
plain-bytes_of (String.◌∷◌ a q) p s h = ground (arith, plain-bytes_of q p s h)

many-append :
    (f : ℕ → Bool) (p : Rest) (xs s : List ℕ)
    → all f xs ≡ true
    → p s ≡ true
    → many f p (xs ++ s) ≡ true
unfolding many
many-append f p [] [] a h = h
many-append f p [] (c ∷ s) a h = ground (arith, h)
many-append f p (x ∷ xs) s a h =
    let r = many-append f p xs s (ground (arith, a)) h in ground (arith, a, r)

at_least-append :
    (n : ℕ) (f : ℕ → Bool) (p : Rest) (xs s : List ℕ)
    → n ≤ length xs
    → all f xs ≡ true
    → p s ≡ true
    → at_least n f p (xs ++ s) ≡ true
unfolding at_least
at_least-append zero f p xs s l a h = many-append f p xs s a h
at_least-append (suc n) f p [] s l a h = absurd (omega (arith, l))
at_least-append (suc n) f p (x ∷ xs) s l a h =
    let r = at_least-append n f p xs s (ground (arith, l)) (ground (arith, a)) h in
    ground (arith, a, r)

-- No byte of the text is the capital of another by chance: it is ASCII, and has no small letter.
abbrev Capitals : String → Type 0
Capitals q = all (λ a. leb a 90) (bytes_of q) ≡ true

fold_eq-capital : (a c : ℕ) → leb a 90 ≡ true → capital c ≡ a → fold_eq a c ≡ true
fold_eq-capital a c l e = ground (arith, l, e)

folded-capital :
    (q : String) (p : Rest) (m s : List ℕ)
    → Capitals q
    → map capital m ≡ bytes_of q
    → p s ≡ true
    → folded q p (m ++ s) ≡ true
unfolding folded bytes_of
folded-capital String.[] p [] s l e h = h
folded-capital String.[] p (c ∷ m) s l e h = cc
folded-capital (String.◌∷◌ a q) p [] s l e h = cc
folded-capital (String.◌∷◌ a q) p (c ∷ m) s l e h =
    let f = fold_eq-capital (code a) c (ground (arith, l)) (ground (arith, e)) in
    let r = folded-capital q p m s (ground (arith, l)) (ground (arith, e)) h in ground (arith, f, r)

marker_ends :
    (b rest : List ℕ)
    → (map capital b ≡ bytes_of "PW-") ⊎ (map capital b ≡ bytes_of "BODY-")
    → (folded "PW-" anything (b ++ rest) || folded "BODY-" anything (b ++ rest)) ≡ true
unfolding bytes_of
marker_ends b rest (inl e) =
    let f = folded-capital "PW-" anything b rest refl e refl in ground (arith, f)
marker_ends b rest (inr e) =
    let f = folded-capital "BODY-" anything b rest refl e refl in ground (arith, f)

pub secret_marker-IsMarker : (m rest : List ℕ) → IsMarker m → secret_marker (m ++ rest) ≡ true
unfolding secret_marker bytes_of
secret_marker-IsMarker m rest (a, b, e, f, g) =
    subst (λ t. secret_marker t ≡ true) (sym (ap (λ l. l ++ rest) e ∙ append_assoc a b rest))
      (folded-capital "NOTIF-MARKER-" _ a (b ++ rest) refl f (marker_ends b rest g))

pub key_marker-IsKey : (m rest : List ℕ) → IsKey m → key_marker (m ++ rest) ≡ true
unfolding key_marker
key_marker-IsKey m rest (kind, e, k) =
    let tail = bytes_of "PRIVATE KEY-----" in
    let head = bytes_of "-----BEGIN " in
    let e' : m ++ rest ≡ head ++ (kind ++ (tail ++ rest)) =
      ap (λ l. l ++ rest) e
      ∙ append_assoc head (kind ++ tail) rest
      ∙ ap (λ l. head ++ l) (append_assoc kind tail rest) in
    subst (λ t. key_marker t ≡ true) (sym e')
      (plain-bytes_of "-----BEGIN " _ (kind ++ (tail ++ rest)) (
        many-append is_upper_or_space _ kind (tail ++ rest) k
          (plain-bytes_of "PRIVATE KEY-----" anything rest refl)))

pub token_marker-IsToken : (m rest : List ℕ) → IsToken m → token_marker (m ++ rest) ≡ true
unfolding token_marker bytes_of
token_marker-IsToken m rest (a, b, c, e, x, y, z, l, n, o) =
    let head = bytes_of "eyJ" in
    let e' : m ++ rest ≡ head ++ (a ++ (46 ∷ (b ++ (46 ∷ (c ++ rest))))) =
      ap (λ l. l ++ rest) e
      ∙ append_assoc head (a ++ (46 ∷ (b ++ (46 ∷ c)))) rest
      ∙ ap (λ l. head ++ l)
          (append_assoc a (46 ∷ (b ++ (46 ∷ c))) rest
            ∙ ap (λ l. a ++ (46 ∷ l)) (append_assoc b (46 ∷ c) rest)) in
    subst (λ t. token_marker t ≡ true) (sym e')
      (plain-bytes_of "eyJ" _ (a ++ (46 ∷ (b ++ (46 ∷ (c ++ rest))))) (
        at_least-append 4 is_base64url _ a (46 ∷ (b ++ (46 ∷ (c ++ rest)))) l x (
          plain-bytes_of "." _ (b ++ (46 ∷ (c ++ rest))) (
            at_least-append 4 is_base64url _ b (46 ∷ (c ++ rest)) n y (
              plain-bytes_of "." _ (c ++ rest)
                (at_least-append 3 is_base64url anything c rest o z refl))))))
