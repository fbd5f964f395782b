-- ===== src/Notify/Namespace.antt =====
-- internal/notify/send.go, internal/notify/systemkey.go: a service sends its own system templates
-- only.
use Prim.Native.Char.{code}
use Prim.Native.String.{◌++◌ as append}
use text.Mathlib.TextLemmas.{nil-append, cons-append}
use go_tangra_notification.Prelude.{
  cut_at, ℕ, ◌≡◌, ◌⊎◌, refl, Bool, true, false, none, some, String, ◌&&◌, not, ◌==◌, Bool-cases,
  Result-cases, Option-cases, inl, inr, arith, ok, nat_eq,
}
use go_tangra_notification.Store.{Template}
use go_tangra_notification.Memstore.{Store}
use go_tangra_notification.Memstore.Templates.{template_by_key}
use go_tangra_notification.World.{World}
use go_tangra_notification.Authz.Decide.{Subjects}
use go_tangra_notification.Notify.Render.{first_missing}
use go_tangra_notification.Notify.SystemKey.{
  valid_key, key_service, is_service, cut_prefix, service_from_spiffe,
}
use go_tangra_notification.Notify.Deliver.{Setup}
use go_tangra_notification.Notify.SystemSend.{
  KeyInput, send_key, send_known, in_namespace, check_required,
}
use go_tangra_notification.Notify.Send.{check_variables}
use go_tangra_notification.Notify.Passing.{Untouched}

-- What a send by key has passed: the key is well formed and in the namespace of the service, the
-- platform's tenant has a template under it, and the call gives each of its required variables.
abbrev pub KeyPassed : Setup → String → KeyInput → Store → Type 0
KeyPassed x service i m =
    (valid_key i.key ≡ true)
    × (not (service == "") && key_service i.key == service ≡ true)
    × (t : Template) × (template_by_key x.platform_tenant i.key m ≡ ok t)
    × (first_missing i.variables t.required_variables ≡ none)

module _ (x : Setup) (s : Subjects) (service : String) (i : KeyInput) (now at : ℕ) (w : World) where
  known_passes :
      valid_key i.key ≡ true
      → in_namespace x service i.key ≡ true
      → Untouched w (send_known x s service i now at w).1 ⊎ KeyPassed x service i w.store
  unfolding send_known check_required
  known_passes v n = elim (Result-cases (check_variables i.variables)) [
    | inr (e, a) ↦ inl (ground (arith, a), ground (arith, a))
    | inl (u, a) ↦ elim (Result-cases (template_by_key x.platform_tenant i.key w.store)) [
      | inr (e, b) ↦ inl (ground (arith, a, b), ground (arith, a, b))
      | inl (t, b) ↦ elim (Option-cases (first_missing i.variables t.required_variables)) [
        | inr (name, c) ↦ inl (ground (arith, a, b, c), ground (arith, a, b, c))
        | inl c ↦ inr (v, n, t, b, c)
      ]
    ]
  ]

  -- A send by key touches the log and the mails only inside the caller's namespace: either it leaves
  -- the store and the mails as they were, or the key is well formed, its service is the one that
  -- calls, the platform's tenant has a template under it, and each of its required variables is
  -- given.
  pub send_key_passes :
      Untouched w (send_key x s service i now at w).1 ⊎ KeyPassed x service i w.store
  unfolding send_key
  send_key_passes = elim (Bool-cases (valid_key i.key)) [
    | inr v ↦ inl (ground (arith, v), ground (arith, v))
    | inl v ↦ elim (Bool-cases (in_namespace x service i.key)) [
      | inr n ↦ inl (ground (arith, v, n), ground (arith, v, n))
      | inl n ↦ elim (known_passes v n) [
        | inl (a, b) ↦ inl (ground (arith, v, n, a), ground (arith, v, n, b))
        | inr p ↦ inr p
      ]
    ]
  ]

-- A text without a slash.
unfoldable pub no_slash : String → Bool
no_slash String.[] = true
no_slash (String.◌∷◌ c s) = not (nat_eq (code c) b'/') && no_slash s

cut_at-append :
    (t rest : String)
    → no_slash t ≡ true
    → cut_at b'/' (append t (append "/" rest)) ≡ some (t, rest)
unfolding cut_at no_slash
cut_at-append String.[] rest h =
    rw (nil-append (append "/" rest), cons-append "/" "" rest, nil-append rest, cut_at) refl
cut_at-append (String.◌∷◌ c t) rest h =
    rw (cons-append c t (append "/" rest), cut_at) (ground (arith, h, cut_at-append t rest))

nat_eq_self : (n : ℕ) → nat_eq n n ≡ true
nat_eq_self n = ground arith

cut_prefix-append : (p s : String) → cut_prefix p (append p s) ≡ some s
unfolding cut_prefix
cut_prefix-append String.[] s = rw (nil-append s, cut_prefix) refl
cut_prefix-append (String.◌∷◌ c p) s =
    rw (cons-append c p s, cut_prefix) (ground (arith, cut_prefix-append p s))

-- The identity that the mesh gives a service names the service: for a trust domain that is not empty
-- and has no slash, and a name of a lower-case letter followed by lower-case letters and digits.
pub service_from_spiffe_lem :
    (domain name : String)
    → domain == "" ≡ false
    → no_slash domain ≡ true
    → is_service name ≡ true
    → service_from_spiffe (append "spiffe://" (append domain (append "/" (append "svc/" name))))
      ≡ some name
unfolding service_from_spiffe
service_from_spiffe_lem domain name d n h = ground (
  arith,
  d,
  h,
  cut_prefix-append "spiffe://" (append domain (append "/" (append "svc/" name))),
  cut_at-append domain (append "svc/" name) n,
  cut_prefix-append "svc/" name,
)
