-- ===== src/Audit/Guard/Clean.antt =====
-- internal/audit/audit.go: what the guard lets through.
use go_tangra_notification.Prelude.{
  ℕ, zero, suc, ◌≡◌, ◌⊎◌, refl, ap, sym, subst, ◌∙◌, ◌≤◌, Bool, true, false, List, [], ◌∷◌, ◌++◌,
  String, length, take, drop, ltb, contains_text, arith, Bool-cases, inl, inr, append_assoc,
}
use go_tangra_notification.Audit.Guard.{
  Detail, DetailFields, Details, text, object, array, other, no_field, field, no_detail, detail,
  any_suffix, secret_marker, key_marker, token_marker, safe_string, bytes_of, redacted_text,
  guard_text, is_forbidden, guard, guard_fields, guard_all,
}
use go_tangra_notification.Audit.Guard.Shapes.{
  IsMarker, IsKey, IsToken, secret_marker-IsMarker, key_marker-IsKey, token_marker-IsToken,
}

-- Somewhere in the text.
abbrev pub Occurs : (List ℕ → Type 0) → List ℕ → Type 0
Occurs P s = (pre m rest : List ℕ) × (s ≡ pre ++ (m ++ rest)) × P m

any_suffix-append :
    (p : List ℕ → Bool) (pre s : List ℕ) → p s ≡ true → any_suffix p (pre ++ s) ≡ true
unfolding any_suffix
any_suffix-append p [] [] h = h
any_suffix-append p [] (c ∷ s) h = ground (arith, h)
any_suffix-append p (a ∷ pre) s h = ground (arith, any_suffix-append p pre s h)

take-drop : (n : ℕ) (s : List ℕ) → take n s ++ drop n s ≡ s
take-drop zero s = refl
take-drop (suc n) [] = refl
take-drop (suc n) (c ∷ s) = ap (λ l. c ∷ l) (take-drop n s)

length-take : (n : ℕ) (s : List ℕ) → length (take n s) ≤ n
length-take zero s = omega arith
length-take (suc n) [] = omega arith
length-take (suc n) (c ∷ s) = ground (arith, length-take n s)

-- What occurs in the beginning of a text occurs in it.
Occurs-take : (P : List ℕ → Type 0) (n : ℕ) (s : List ℕ) → Occurs P (take n s) → Occurs P s
Occurs-take P n s (pre, m, rest, e, h) = (
  pre,
  m,
  rest ++ drop n s,
  sym (take-drop n s)
      ∙ ap (λ l. l ++ drop n s) e
      ∙ append_assoc pre (m ++ rest) (drop n s)
      ∙ ap (λ l. pre ++ l) (append_assoc m rest (drop n s)),
  h,
)

-- No marker, private key or token in the text.
abbrev pub Harmless : List ℕ → Type 0
Harmless s = (¬ Occurs IsMarker s) × (¬ Occurs IsKey s) × (¬ Occurs IsToken s)

found :
    (P : List ℕ → Type 0) (p : List ℕ → Bool)
    → ((m rest : List ℕ) → P m → p (m ++ rest) ≡ true)
    → (s : List ℕ) → Occurs P s
    → any_suffix p s ≡ true
found P p k s (pre, m, rest, e, h) =
    subst (λ t. any_suffix p t ≡ true) (sym e) (any_suffix-append p pre (m ++ rest) (k m rest h))

safe_string-Harmless : (s : List ℕ) → safe_string s ≡ true → Harmless s
unfolding safe_string
safe_string-Harmless s h = (
  λ o.
      let f = found IsMarker secret_marker secret_marker-IsMarker s o in
      absurd (ground (arith, h, f)),
  λ o. let f = found IsKey key_marker key_marker-IsKey s o in absurd (ground (arith, h, f)),
  λ o. let f = found IsToken token_marker token_marker-IsToken s o in absurd (ground (arith, h, f)),
)

-- A text that may stand in the details: the mark of a redaction, or 256 bytes at most and harmless.
abbrev pub CleanText : List ℕ → Type 0
CleanText s = (s ≡ bytes_of "[REDACTED]") ⊎ ((length s ≤ 256) × Harmless s)

marked : CleanText (bytes_of "[REDACTED]")
marked = inl refl

kept_whole : (s : List ℕ) → length s ≤ 256 → Harmless s → CleanText s
kept_whole s l h = inr (l, h)

cut_short : (s : List ℕ) → Harmless s → CleanText (take 256 s)
cut_short s (a, b, c) = inr (
  length-take 256 s,
  (
    λ o. a (Occurs-take IsMarker 256 s o),
    λ o. b (Occurs-take IsKey 256 s o),
    λ o. c (Occurs-take IsToken 256 s o),
  ),
)

guard_text-CleanText : (s : List ℕ) → CleanText (guard_text s)
unfolding guard_text redacted_text
guard_text-CleanText s = elim (Bool-cases (safe_string s)) [
  | inr u ↦ subst CleanText (ground (arith, u)) marked
  | inl u ↦
      let (a, b, c) = safe_string-Harmless s u in
      elim (Bool-cases (ltb 256 (length s))) [
        | inl l ↦ subst CleanText (ground (arith, u, l)) (cut_short s (a, b, c))
        | inr l ↦
            subst CleanText (ground (arith, u, l)) (kept_whole s (ground (arith, l)) (a, b, c))
      ]
]

-- None of the words by which a key is taken to name a secret.
abbrev pub Innocent : String → Type 0
Innocent k =
    (contains_text k "password" ≡ false)
    × (contains_text k "secret" ≡ false)
    × (contains_text k "token" ≡ false)
    × (contains_text k "api_key" ≡ false)
    × (contains_text k "body" ≡ false)
    × (contains_text k "content" ≡ false)
    × (contains_text k "settings" ≡ false)

is_forbidden-Innocent :
    (lower : String → String) (k : String) → is_forbidden lower k ≡ false → Innocent (lower k)
unfolding is_forbidden
is_forbidden-Innocent lower k h = (
  ground (arith, h),
  ground (arith, h),
  ground (arith, h),
  ground (arith, h),
  ground (arith, h),
  ground (arith, h),
  ground (arith, h),
)

-- Every text of a detail is clean, at any depth, and what stands under a key that is not innocent is
-- the mark.
mutual
  pub IsClean : (String → String) → Detail → Type 0
  IsClean lower (text s) = CleanText s
  IsClean lower (object fs) = CleanFields lower fs
  IsClean lower (array vs) = CleanAll lower vs
  IsClean lower (other js) = Unit {0}

  pub CleanFields : (String → String) → DetailFields → Type 0
  CleanFields lower no_field = Unit {0}
  CleanFields lower (field k v fs) =
      ((v ≡ text (bytes_of "[REDACTED]")) ⊎ (Innocent (lower k) × IsClean lower v))
      × CleanFields lower fs

  pub CleanAll : (String → String) → Details → Type 0
  CleanAll lower no_detail = Unit {0}
  CleanAll lower (detail v vs) = IsClean lower v × CleanAll lower vs

module _ (lower : String → String) where
  mutual
    unfolding guard IsClean redacted_text

    guard-IsClean : (v : Detail) → IsClean lower (guard lower v)
    guard-IsClean (text s) = guard_text-CleanText s
    guard-IsClean (object fs) = guard_fields-CleanFields fs
    guard-IsClean (array vs) = guard_all-CleanAll vs
    guard-IsClean (other js) = tt

    pub guard_fields-CleanFields : (fs : DetailFields) → CleanFields lower (guard_fields lower fs)
    guard_fields-CleanFields no_field = tt
    guard_fields-CleanFields (field k v fs) = elim (Bool-cases (is_forbidden lower k)) [
      | inl f ↦ (inl (ground (arith, f)), guard_fields-CleanFields fs)
      | inr f ↦ (
        inr (
          is_forbidden-Innocent lower k f,
          subst (IsClean lower) (ground (arith, f)) (guard-IsClean v),
        ),
        guard_fields-CleanFields fs,
      )
    ]

    guard_all-CleanAll : (vs : Details) → CleanAll lower (guard_all lower vs)
    guard_all-CleanAll no_detail = tt
    guard_all-CleanAll (detail v vs) = (guard-IsClean v, guard_all-CleanAll vs)
