-- ===== src/Notify/Blind.antt =====
-- internal/render/redact.go: what the log keeps of a render does not depend on the secrets.
use go_tangra_notification.Prelude.{
  ◌≡◌, refl, true, false, some, List, [], ◌∷◌, String, ◌&&◌, not, if◌then◌else◌, ◌==◌, ==_iff,
  ==_self, contains, Table, lookup, insert, lookup-insert, ok, arith, Bool-cases, inl, inr, leb,
  len,
}
use go_tangra_notification.Notify.Render.{
  Compiled, Engine, Output, render, render_redacted, masked, any_secret, first_missing, value_of,
  scrub_list, scrub_text, redacted_mark,
}

lookup-masked :
    (values : Table String) (ns : List String) (t : Table String) (k : String)
    → lookup k (masked values ns t)
      ≡ (if contains ns k && not (value_of values k == "") then some redacted_mark else lookup k t)
unfolding masked
lookup-masked values [] t k = refl
lookup-masked values (n ∷ ns) t k = elim (Bool-cases (value_of values n == "")) [
  | inl e ↦ ground (arith, e, lookup-masked values ns t k, ==_iff n k)
  | inr e ↦ ground (
    arith,
    e,
    lookup-masked values ns (insert n redacted_mark t) k,
    lookup-insert n k redacted_mark t,
    ==_iff n k,
  )
]

first_missing_alike :
    (t u : Table String) (ns : List String)
    → ((k : String) → lookup k t ≡ lookup k u)
    → first_missing t ns ≡ first_missing u ns
unfolding first_missing
first_missing_alike t u [] h = refl
first_missing_alike t u (n ∷ ns) h = ground (arith, first_missing_alike t u ns h, h n)

-- The execution sees the variables only by name.
abbrev pub ByName : Compiled → Type 0
ByName c =
    (t u : Table String) → ((k : String) → lookup k t ≡ lookup k u) → c.execute t ≡ c.execute u

render_alike :
    (c : Compiled) (t u : Table String)
    → ByName c
    → ((k : String) → lookup k t ≡ lookup k u)
    → render c t ≡ render c u
unfolding render
render_alike c t u by_name h = ground (arith, first_missing_alike t u c.refs h, by_name t u h)

-- The values of the secret variables are not among those that the text is searched for: each is
-- shorter than 8 bytes.
abbrev pub Short : Table String → List String → Type 0
Short t ns = (k : String) → contains ns k ≡ true → leb 8 (len (value_of t k)) ≡ false

scrub_list-Short :
    (e : Engine) (t : Table String) (ns : List String) → Short t ns → scrub_list e t ns ≡ []
unfolding scrub_list
scrub_list-Short e t [] h = refl
scrub_list-Short e t (n ∷ ns) h =
    ground (arith, h n, ==_self n, scrub_list-Short e t ns (λ k c. h k (ground (arith, c))))

-- The two tables differ in the secret variables only, and each of these has a value in both or in
-- neither.
abbrev pub SameButSecrets : Table String → Table String → List String → Type 0
SameButSecrets t u ns =
    (k : String)
    → (contains ns k ≡ false → lookup k t ≡ lookup k u)
      × (contains ns k ≡ true
          → ((value_of t k == "") ≡ (value_of u k == ""))
            × ((value_of t k == "") ≡ true → lookup k t ≡ lookup k u))

masked_alike :
    (t u : Table String) (ns : List String)
    → SameButSecrets t u ns
    → (k : String) → lookup k (masked t ns t) ≡ lookup k (masked u ns u)
masked_alike t u ns h k = elim (Bool-cases (contains ns k)) [
  | inr c ↦ ground (arith, c, lookup-masked t ns t k, lookup-masked u ns u k, (h k).0 c)
  | inl c ↦ elim (Bool-cases (value_of t k == "")) [
    | inl e ↦ ground (
      arith,
      c,
      e,
      lookup-masked t ns t k,
      lookup-masked u ns u k,
      ((h k).1 c).0,
      ((h k).1 c).1 e,
    )
    | inr e ↦ ground (arith, c, e, lookup-masked t ns t k, lookup-masked u ns u k, ((h k).1 c).0)
  ]
]

-- What the log keeps of a render does not depend on the values of the secret variables: given an
-- execution that sees the variables by name only, two tables that differ in the secret variables
-- only, each with a value in both or in neither and shorter than 8 bytes, and some of them with a
-- value, a render that returns for one table and a render that returns for the other are stored
-- alike, whatever they send.
pub render_redacted_blind :
    (e : Engine) (c : Compiled) (t u : Table String) (ns : List String)
    → ByName c
    → SameButSecrets t u ns
    → Short t ns
    → Short u ns
    → any_secret t ns ≡ true
    → any_secret u ns ≡ true
    → (a b : Output × Output) → render_redacted e c t ns ≡ ok a
    → render_redacted e c u ns ≡ ok b
    → a.1 ≡ b.1
unfolding render_redacted scrub_text
render_redacted_blind e c t u ns by_name same st su at au a b h k =
    let r = render_alike c (masked t ns t) (masked u ns u) by_name (masked_alike t u ns same) in
    ground (arith, h, k, at, au, r, scrub_list-Short e t ns st, scrub_list-Short e u ns su)
