-- ===== src/Notify/Sealing.antt =====
-- internal/notify/channels.go, internal/sealed/sealed.go: what is sealed is what is opened.
pub mod Layout
use go_tangra_notification.Prelude.{
  ℕ, ◌≡◌, refl, Option, some, List, String, ok, arith, Result-cases, inl, inr, lookup, contains,
  if◌then◌else◌, ◌∙◌,
}
use go_tangra_notification.Store.{Channel}
use go_tangra_notification.World.{World}
use go_tangra_notification.Notify.Settings.{Settings, Codec, encode, decode, redact, associated}
use go_tangra_notification.Notify.Envelope.{seal}
use go_tangra_notification.Notify.Credentials.{shown, lookup-redact}
use go_tangra_notification.Notify.Channels.{Providers, seal_settings, open_settings, redacted}
use go_tangra_notification.Notify.Sealing.Layout.{IsGcm, Reads, unseal-seal}

sealed_parts :
    (c : Codec) (p : Providers) (id kind : String) (s : Settings) (w : World)
    (blobs : List ℕ × List ℕ)
    → (seal_settings c p id kind s w).0 ≡ ok blobs
    → (clear : List ℕ) × (encode c s ≡ ok clear)
      × (seal c w.drawn clear (associated id) ≡ ok blobs.0)
      × (encode c (redact s (p.secrets kind)) ≡ ok blobs.1)
unfolding seal_settings
sealed_parts c p id kind s w blobs h = elim (Result-cases (encode c s)) [
  | inr (e, x) ↦ ground (arith, x, h)
  | inl (clear, x) ↦ elim (Result-cases (seal c w.drawn clear (associated id))) [
    | inr (e, y) ↦ ground (arith, x, y, h)
    | inl (blob, y) ↦ elim (Result-cases (encode c (redact s (p.secrets kind)))) [
      | inr (e, z) ↦ ground (arith, x, y, z, h)
      | inl (shown, z) ↦ (clear, x, ground (arith, x, y, z, h), ground (arith, x, y, z, h))
    ]
  ]
]

-- The settings survive encoding/json as a map: reading what they are written as gives a map with the
-- same entries.
abbrev pub Survives : Codec → Settings → Type 0
Survives c s =
    (b : List ℕ)
    → c.marshal s ≡ some b
    → (t : Settings) × (c.unmarshal b ≡ some t) × ((k : String) → lookup k t ≡ lookup k s)

decode-encode :
    (c : Codec) (s : Settings) (b : List ℕ)
    → Survives c s
    → encode c s ≡ ok b
    → (t : Settings) × (decode c b ≡ ok t) × ((k : String) → lookup k t ≡ lookup k s)
unfolding encode decode
decode-encode c s b j h = let (t, u, k) = j b (ground (arith, h)) in (t, ground (arith, h, u), k)

-- Sealing and showing a channel's settings, and reading both back. Given that the AEADs of the
-- master key and of the data key are GCMs as crypto/cipher documents them, that a read of the random
-- source fills the bytes it is asked for, and that the settings and their redaction survive
-- encoding/json as maps: when sealing the settings under an id returns, the row of that id that
-- holds the result opens, to settings with the same entries; and what it shows has the entries of
-- the settings, except that of a credential there is the marker if it is a text that is not empty,
-- and nothing otherwise.
pub open_settings-seal_settings :
    (c : Codec) (p : Providers) (id kind : String) (s : Settings) (w : World)
    (blobs : List ℕ × List ℕ) (row : Channel)
    → IsGcm c.kek
    → ((dek : List ℕ) → IsGcm (c.gcm dek))
    → Reads c
    → Survives c s
    → Survives c (redact s (p.secrets kind))
    → (seal_settings c p id kind s w).0 ≡ ok blobs
    → row.id ≡ id
    → row.settings_sealed ≡ blobs.0
    → row.settings_public ≡ blobs.1
    → ((t : Settings) × (open_settings c p row ≡ ok t) × ((k : String) → lookup k t ≡ lookup k s))
      × ((k : String)
          → lookup k (redacted c p row)
            ≡ (if contains (p.secrets kind) k then shown (lookup k s) else lookup k s))
unfolding open_settings redacted
open_settings-seal_settings c p id kind s w blobs row g gs r j j' h i a b =
    let (clear, x, sealed, z) = sealed_parts c p id kind s w blobs h in
    let (t, d, e) = decode-encode c s clear j x in
    let (t', d', e') = decode-encode c (redact s (p.secrets kind)) blobs.1 j' z in
    (
      (
        t,
        ground (arith, i, a, d, unseal-seal c g gs r w.drawn clear (associated id) blobs.0 sealed),
        e,
      ),
      λ k. ground (arith, b, d', e' k, lookup-redact k s (p.secrets kind)),
    )
