-- ===== src/Scenarios/Sealing.antt =====
-- internal/sealed, internal/notify: settings with three fields, sealed and opened.
use Prim.Native.String.{String}
use go_tangra_notification.Prelude.{
  ℕ, zero, suc, ◌≡◌, refl, insert, true, false, List, [], ◌∷◌, ◌==◌, ==_iff, ◌++◌, length, contains,
  lookup, ok, arith, if◌then◌else◌,
}
use go_tangra_notification.Store.{Channel}
use go_tangra_notification.Memstore.{empty}
use go_tangra_notification.Notify.Settings.{Settings, text, number, redact, encode}
use go_tangra_notification.Notify.Credentials.{shown as shown_value}
use go_tangra_notification.Notify.Channels.{seal_settings, open_settings, redacted}
use go_tangra_notification.Notify.Sealing.{Survives, open_settings-seal_settings}
use go_tangra_notification.Notify.Sealing.Layout.{IsGcm, Reads}
use go_tangra_notification.Notify.Envelope.{seal, sealed_bytes}
use go_tangra_notification.Scenarios.Messaging.{world}
use go_tangra_notification.Scenarios.Settings.{zeros, tagged, codec, providers, mailer}

tagged-IsGcm : IsGcm tagged
tagged-IsGcm = record {
  nonce = refl;
  tag = refl;
  sized = λ n t ad h. ground arith;
  inverse = λ n t ad h. ground arith;
}

length-zeros : (n : ℕ) → length (zeros n) ≡ n
length-zeros zero = refl
length-zeros (suc n) = ground (arith, length-zeros n)

codec-Reads : Reads codec
codec-Reads seed i n b h = ground (arith, h, length-zeros n)

abbrev full : Settings
full = ("host", text "mx") ∷ ("password", text "pw") ∷ ("port", number 25) ∷ []

abbrev full_blobs : List ℕ × List ℕ
full_blobs = (
  zeros 12 ++ (zeros 48 ++ (zeros 12 ++ (zeros 16 ++ (1 ∷ 0 ∷ 2 ∷ 0 ∷ 0 ∷ 25 ∷ [])))),
  1 ∷ 0 ∷ 2 ∷ 1 ∷ 0 ∷ 25 ∷ [],
)

abbrev full_mailer : Channel
full_mailer = record mailer { settings_sealed = full_blobs.0; settings_public = full_blobs.1 }

sealed_full : (seal_settings codec providers "c" "email" full (world (empty 5))).0 ≡ ok full_blobs
unfolding seal_settings encode redact lookup insert seal sealed_bytes
sealed_full = refl

-- A name is not at once two that differ.
apart : (a b k : String) → b == a ≡ false → a == k ≡ true → b == k ≡ false
apart a b k h e = ground (arith, h, e, ==_iff a k)

full-Survives : Survives codec full
unfolding lookup
full-Survives b h = (
  ("port", number 25) ∷ ("password", text "pw") ∷ ("host", text "mx") ∷ [],
  ground (arith, h),
  λ k. ground (
    arith,
    apart "port" "password" k refl,
    apart "port" "host" k refl,
    apart "password" "host" k refl,
  ),
)

shown_full-Survives : Survives codec (redact full ("password" ∷ []))
unfolding redact lookup insert
shown_full-Survives b h = (
  ("port", number 25) ∷ ("password", text "__set__") ∷ ("host", text "mx") ∷ [],
  ground (arith, h),
  λ k. ground (
    arith,
    apart "port" "password" k refl,
    apart "port" "host" k refl,
    apart "password" "host" k refl,
  ),
)

open_settings-seal_settings_example :
    ((t : Settings) × (open_settings codec providers full_mailer ≡ ok t)
      × ((k : String) → lookup k t ≡ lookup k full))
    × ((k : String)
        → lookup k (redacted codec providers full_mailer)
          ≡ (if contains ("password" ∷ []) k then shown_value (lookup k full) else lookup k full))
open_settings-seal_settings_example =
    open_settings-seal_settings codec providers "c" "email" full (world (empty 5)) full_blobs
      full_mailer tagged-IsGcm (λ dek. tagged-IsGcm) codec-Reads full-Survives shown_full-Survives
      sealed_full refl refl refl
