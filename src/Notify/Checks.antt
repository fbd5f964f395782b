-- ===== src/Notify/Checks.antt =====
-- internal/notify/send.go: what the checks of a send's variables and of its recipient let through.
use go_tangra_notification.Prelude.{
  ℕ, ◌≡◌, refl, ◌+◌, ◌≤◌, Bool, true, false, none, List, [], ◌∷◌, String, ◌==◌, ◌||◌, not, len,
  length, Table, all, ltb, Bool-cases, Option-cases, inl, inr, arith, Result, ok, err, Err, map_err,
}
use go_tangra_notification.Notify.Render.{Compiled, has_value, valid_name, first_missing}
use go_tangra_notification.Notify.Send.{
  check_entries, check_variables, has_break, validate_recipient, check_given,
}

pub negated : (b : Bool) → not b ≡ true → b ≡ false
negated true h = cc
negated false h = refl

-- The bytes of the variables and their names.
abbrev pub bytes : Table String → ℕ
bytes [] = 0
bytes ((k, v) ∷ vs) = (len k + len v) + bytes vs

check_entries-ok :
    (n : ℕ) (vs : Table String)
    → check_entries n vs ≡ ok tt
    → (all (λ (v : String × String). valid_name v.0) vs ≡ true) × (n + bytes vs ≤ 65536)
unfolding check_entries
check_entries-ok n [] h = (refl, ground (arith, h))
check_entries-ok n ((k, v) ∷ vs) h = elim (Bool-cases (valid_name k)) [
  | inr e ↦ absurd (ground (arith, h, e))
  | inl e ↦
      let r = check_entries-ok (n + (len k + len v)) vs (ground (arith, h, e)) in
      (ground (arith, e, r.0), ground (arith, r.1))
]

pub check_variables-ok :
    (vs : Table String)
    → check_variables vs ≡ ok tt
    → (length vs ≤ 50)
      × (all (λ (v : String × String). valid_name v.0) vs ≡ true)
      × (bytes vs ≤ 65536)
unfolding check_variables
check_variables-ok vs h = elim (Bool-cases (ltb 50 (length vs))) [
  | inl e ↦ absurd (ground (arith, h, e))
  | inr e ↦
      let r = check_entries-ok 0 vs (ground (arith, h, e)) in
      (ground (arith, e), r.0, ground (arith, r.1))
]

pub validate_recipient-ok :
    (address : String → Bool) (kind to : String)
    → validate_recipient address kind to ≡ ok tt
    → (to == "" ≡ false)
      × (len to ≤ 512)
      × (has_break to ≡ false)
      × ((not (kind == "email") || address to) ≡ true)
unfolding validate_recipient
validate_recipient-ok address kind to h =
    (ground (arith, h), ground (arith, h), ground (arith, h), ground (arith, h))

pub map_err-ok : {A : Type 0} (f : Err → Err) (r : Result A) {a : A} → map_err f r ≡ ok a → r ≡ ok a
map_err-ok f (ok b) h = h
map_err-ok f (err e) h = cc

first_missing-none :
    (vs : Table String) (ns : List String)
    → first_missing vs ns ≡ none
    → all (has_value vs) ns ≡ true
unfolding first_missing
first_missing-none vs [] h = refl
first_missing-none vs (n ∷ ns) h = elim (Bool-cases (has_value vs n)) [
  | inl e ↦ ground (arith, e, first_missing-none vs ns (ground (arith, h, e)))
  | inr e ↦ absurd (ground (arith, h, e))
]

pub check_given-ok :
    (vs : Table String) (c : Compiled) → check_given vs c ≡ ok tt → all (has_value vs) c.refs ≡ true
unfolding check_given
check_given-ok vs c h = elim (Option-cases (first_missing vs c.refs)) [
  | inl e ↦ first_missing-none vs c.refs e
  | inr (n, e) ↦ absurd (ground (arith, h, e))
]
