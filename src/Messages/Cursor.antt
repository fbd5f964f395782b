-- ===== src/Messages/Cursor.antt =====
-- internal/messages/messages.go: the page cursor `<time>|<id>`. `format` and `parse` are time.Time's
-- RFC3339Nano formatting and its parser.
use go_tangra_notification.Prelude.{
  cons_ne, ℕ, Bool, true, false, Option, none, some, String, ◌&&◌, not, if◌then◌else◌, ◌==◌, nat_eq,
  Result, ok, err, invalid, ◌≡◌, refl, arith,
}
use Prim.Native.Char.{Char, code}
use Prim.Native.String.{◌++◌ as append}
use text.Mathlib.TextLemmas.{nil-append, cons-append}

abbrev prepend : Char → Option (String × String) → Option (String × String)
prepend c none = none
prepend c (some (a, b)) = some (String.◌∷◌ c a, b)

-- Around the first `|` that is not the first byte (`i > 0`).
unfoldable pub split_bar : Bool → String → Option (String × String)
split_bar first String.[] = none
split_bar first (String.◌∷◌ c s) =
    let rest = prepend c (split_bar false s) in
    if nat_eq (code c) b'|' && not first then some (String.[], s) else rest

module _ (format : ℕ → String) (parse : String → Option ℕ) where
  unfoldable pub encode_cursor : ℕ → String → String
  encode_cursor ts id = append (format ts) (append "|" id)

  unfoldable pub decode_cursor : String → Result (ℕ × String)
  decode_cursor c = if c == "" then ok (0, "") else elim (split_bar true c) [
    | none ↦ err (invalid "bad cursor" "cursor")
    | some (t, id) ↦ elim (parse t) [
      | none ↦ err (invalid "bad cursor" "cursor")
      | some ts ↦ ok (ts, id)
    ]
  ]

-- A text without a bar.
unfoldable pub no_bar : String → Bool
no_bar String.[] = true
no_bar (String.◌∷◌ c s) = not (nat_eq (code c) b'|') && no_bar s

split_bar-append :
    (t id : String) → no_bar t ≡ true → split_bar false (append t (append "|" id)) ≡ some (t, id)
unfolding split_bar no_bar
split_bar-append String.[] id h =
    rw (nil-append (append "|" id), cons-append "|" "" id, nil-append id, split_bar) refl
split_bar-append (String.◌∷◌ c t) id h =
    rw (cons-append c t (append "|" id), split_bar) (ground (arith, h, split_bar-append t id))

-- A cursor is read back as what it was written from: given a format that is not empty, has no bar,
-- and is read back by the parser, decoding the encoding of a time and an id gives the two.
pub decode_cursor-encode_cursor :
    (format : ℕ → String) (parse : String → Option ℕ) (ts : ℕ) (c : Char) (t id : String)
    → format ts ≡ String.◌∷◌ c t
    → no_bar (format ts) ≡ true
    → parse (format ts) ≡ some ts
    → decode_cursor format parse (encode_cursor format parse ts id) ≡ ok (ts, id)
unfolding decode_cursor encode_cursor split_bar no_bar
decode_cursor-encode_cursor format parse ts c t id f n p =
    rw (f, cons-append c t (append "|" id), cons_ne c (append t (append "|" id)), split_bar)
      (ground (arith, f, n, p, split_bar-append t id))
