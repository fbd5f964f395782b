-- ===== src/Notify/Render.antt =====
-- internal/render: templates with declared variables, rendered with secrets replaced for the log.
use Prim.Native.Char.{code}
use go_tangra_notification.Prelude.{
  is_digit, ℕ, Bool, true, false, Option, none, some, List, [], ◌∷◌, String, len, ◌&&◌, ◌||◌, not,
  if◌then◌else◌, ◌==◌, ltb, leb, nat_eq, contains, Table, lookup, insert, Result, ok, err, invalid,
  template_size, failed_render, undeclared, bind_result, map_result,
}

abbrev pub is_alpha : ℕ → Bool
is_alpha c = (leb 65 c && leb c 90) || (leb 97 c && leb c 122)

abbrev name_rest : String → Bool
name_rest String.[] = true
name_rest (String.◌∷◌ c s) =
    (is_alpha (code c) || is_digit (code c) || nat_eq (code c) 95) && name_rest s

-- `^[A-Za-z][A-Za-z0-9_]{0,63}$`.
unfoldable pub valid_name : String → Bool
valid_name String.[] = false
valid_name (String.◌∷◌ c s) = is_alpha (code c) && name_rest s && leb (len s) 63

pub record Output : Type 0 where
  pub subject : String
  pub body : String

-- What the template packages make of a subject and a body: the variables that they refer to,
-- sorted, and the execution, with its bounds on time and size.
pub record Compiled : Type 0 where
  pub refs : List String
  pub execute : Table String → Result Output

-- text/template and html/template, and the text functions of the library.
pub record Engine : Type 0 where
  pub compile : String → String → Bool → Result Compiled
  pub escape_html : String → String
  pub escape_query : String → String
  pub replace_all : String → String → String → String

-- The body is HTML for e-mail and text for the other types.
unfoldable pub kind_for : String → Bool
kind_for channel_type = channel_type == "email"

abbrev pub redacted_mark : String
redacted_mark = "[redacted]"

unfoldable pub value_of : Table String → String → String
value_of t n = elim (lookup n t) [ none ↦ "" | some v ↦ v ]

abbrev pub has_value : Table String → String → Bool
has_value t n = elim (lookup n t) [ none ↦ false | some v ↦ true ]

-- The first name that has no value.
unfoldable pub first_missing : Table String → List String → Option String
first_missing t [] = none
first_missing t (n ∷ ns) = if has_value t n then first_missing t ns else some n

unfoldable pub render : Compiled → Table String → Result Output
render c values = elim (first_missing values c.refs) [
  | some n ↦ err (failed_render n)
  | none ↦ c.execute values
]

-- The secret variables that have a value, replaced.
unfoldable pub masked : Table String → List String → Table String → Table String
masked values [] t = t
masked values (n ∷ ns) t =
    masked values ns (if value_of values n == "" then t else insert n redacted_mark t)

unfoldable pub any_secret : Table String → List String → Bool
any_secret values [] = false
any_secret values (n ∷ ns) = not (value_of values n == "") || any_secret values ns

module _ (e : Engine) where
  unfoldable pub parse : String → String → Bool → Result Compiled
  parse subject body html =
      if ltb 998 (len subject) || ltb 262144 (len body)
      then err template_size
      else e.compile subject body html

  -- The secret values long enough to be looked for in the rendered text, as they are and escaped.
  unfoldable pub scrub_list : Table String → List String → List String
  scrub_list values [] = []
  scrub_list values (n ∷ ns) =
      let rest = scrub_list values ns in
      let v = value_of values n in if leb 8 (len v) then v ∷ e.escape_html v ∷ rest else rest

  unfoldable pub scrub_text : String → List String → String
  scrub_text t [] = t
  scrub_text t (v ∷ vs) = scrub_text (e.replace_all t v redacted_mark) vs

  -- What is delivered, and what the log keeps.
  unfoldable pub render_redacted : Compiled → Table String → List String → Result (Output × Output)
  render_redacted c values secret = bind_result (render c values) (λ sent.
      if not (any_secret values secret)
      then ok (sent, sent)
      else map_result
          (λ (o : Output).
            let found = scrub_list values secret in
            (sent, record { subject = scrub_text o.subject found; body = scrub_text o.body found }))
          (render c (masked values secret values)))

-- Every declared name is well formed, and every name referred to is declared.
unfoldable pub check_declared : List String → Result (Unit {0})
check_declared [] = ok tt
check_declared (d ∷ ds) =
    if valid_name d then check_declared ds else err (invalid "render: variable name" d)

unfoldable pub check_refs : List String → List String → Result (Unit {0})
check_refs declared [] = ok tt
check_refs declared (r ∷ rs) =
    if contains declared r then check_refs declared rs else err (undeclared r)

unfoldable pub validate_refs : Compiled → List String → Result (Unit {0})
validate_refs c declared = bind_result (check_declared declared) (λ _. check_refs declared c.refs)
