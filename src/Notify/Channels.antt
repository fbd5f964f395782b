-- ===== src/Notify/Channels.antt =====
-- internal/notify/channels.go: the operations on channels. `now` is the reading of the evaluator's
-- clock.
use go_tangra_notification.Prelude.{
  ℕ, Bool, true, false, Option, none, some, List, [], ◌∷◌, String, len, ◌&&◌, ◌||◌, not,
  if◌then◌else◌, ◌==◌, nat_eq, ltb, strp, Result, ok, err, Err, invalid, channel_type, pure,
  renaming, bind_result, map_result, ◌>>=◌, ◌>>◌,
}
use go_tangra_notification.Store.{Channel}
use go_tangra_notification.Memstore.{Store}
use go_tangra_notification.Memstore.Grants.{get_channel}
use go_tangra_notification.Memstore.Channels.{list_channels, clear_default_channel}
use go_tangra_notification.World.{Act, Event, Mail, st, ask, draw_seed}
use go_tangra_notification.Authz.Decide.{Subjects, Permissions, actor_kind, actor_id}
use go_tangra_notification.Authz.Check.{require, set_tenant_use}
use go_tangra_notification.Notify.Envelope.{seal, unseal}
use go_tangra_notification.Notify.Settings.{Settings, Codec, encode, decode, redact, associated}

-- Why a delivery failed: its text, and how channel.Retryable classifies it.
pub record Failure : Type 0 where
  pub reason : String
  pub no_provider : Bool
  pub retryable : Bool

-- The registry of providers (internal/channel) and the platform's own relay, if it is set. The flag
-- tells the platform's provider from the registry's. `send` is given the number of mails before it.
pub record Providers : Type 0 where
  pub known : String → Bool
  pub platform : Bool
  pub validate : Bool → String → Settings → Option String
  pub secrets : String → List String
  pub send : ℕ → Settings → Mail → Option Failure

abbrev pub valid_type : String → Bool
valid_type t = t == "email" || t == "sms" || t == "slack" || t == "sse"

-- `settings` is none where the request has no settings object.
pub record ChannelInput : Type 0 where
  pub name : String
  pub kind : String
  pub settings : Option Settings
  pub enabled : Bool
  pub is_default : Bool

pub record ChannelView : Type 0 where
  pub id : String
  pub name : String
  pub kind : String
  pub settings : Settings
  pub enabled : Bool
  pub is_default : Bool
  pub managed : Bool
  pub template_count : ℕ
  pub created_by : String
  pub updated_by : String
  pub created_at : ℕ
  pub updated_at : ℕ
  pub permissions : Permissions

-- Configuration owns a managed channel: only read and use remain.
unfoldable pub shown_permissions : Bool → Permissions → Permissions
shown_permissions managed p =
    if managed then record p { write = false; delete = false; share = false } else p

unfoldable pub channel_view : Channel → Settings → Permissions → ChannelView
unfolding shown_permissions
channel_view row shown p = record {
  id = row.id;
  name = row.name;
  kind = row.kind;
  settings = shown;
  enabled = row.enabled;
  is_default = row.is_default;
  managed = row.managed;
  template_count = row.template_count;
  created_by = strp row.created_by;
  updated_by = strp row.updated_by;
  created_at = row.created_at;
  updated_at = row.updated_at;
  permissions = shown_permissions row.managed p;
}

unfoldable pub channel_event : String → Subjects → String → Event
channel_event kind s id = record {
  kind = kind;
  tenant_id = s.tenant_id;
  actor_kind = actor_kind s;
  actor_id = actor_id s;
  subject_kind = "channel";
  subject_id = id;
  outcome = "ok";
  reason = "";
}

abbrev pub or_empty : Result Settings → Settings
or_empty (ok s) = s
or_empty (err e) = []

module _ (p : Providers) where
  unfoldable pub validate_channel : ChannelInput → Result Settings
  validate_channel i =
      if nat_eq (len i.name) 0 || ltb 100 (len i.name)
      then err (invalid "name must be 1-100 characters" "name")
      else if not (valid_type i.kind)
      then err (invalid "unknown channel type" "type")
      else elim i.settings [
        | none ↦ err (invalid "settings are required" "settings")
        | some s ↦
            if not (p.known i.kind)
            then err (invalid "unknown channel type" "type")
            else elim (p.validate false i.kind s) [
              | some e ↦ err (invalid e "settings")
              | none ↦ ok s
            ]
      ]

  -- Which provider a row's messages go through: the platform's own, or the registry's.
  unfoldable pub provider : Channel → Result Bool
  provider row =
      if row.managed && row.kind == "email" && p.platform
      then ok true
      else if p.known row.kind
      then ok false
      else err channel_type

abbrev pub too_big : Err → Err
too_big e = invalid "settings exceed 8 KiB" "settings"

module _ (c : Codec) (p : Providers) where
  -- The sealed settings and the settings that may be shown.
  unfoldable pub seal_settings : String → String → Settings → Act (List ℕ × List ℕ)
  seal_settings id kind s = do
    clear ← renaming too_big (ask (λ _. encode c s))
    seed ← draw_seed
    blob ← ask (λ _. seal c seed clear (associated id))
    shown ← ask (λ _. encode c (redact s (p.secrets kind)))
    pure (blob, shown)

  unfoldable pub open_settings : Channel → Result Settings
  open_settings row =
      bind_result (unseal c row.settings_sealed (associated row.id)) (λ clear. decode c clear)

  unfoldable pub redacted : Channel → Settings
  redacted row = or_empty (decode c row.settings_public)

  unfoldable pub get : Subjects → String → ℕ → Act ChannelView
  get s id now = do
    d ← require s "channel" id "read" now
    row ← ask (get_channel s.tenant_id id)
    pure (channel_view row (redacted row) d.permissions)

  -- The row, its clear settings, and whether the platform's provider sends for it.
  unfoldable pub resolve : String → String → Store → Result (Channel × Settings × Bool)
  resolve tid id m =
      bind_result (get_channel tid id m) (λ row.
        bind_result (open_settings row) (λ s. map_result (λ b. (row, s, b)) (provider p row)))

module _ (new_id : ℕ → String) (lower : String → String) where
  -- The tenant-wide use grants of the previous defaults go.
  unfoldable pub drop_uses : String → String → List Channel → Act (Unit {0})
  drop_uses tid id [] = pure tt
  drop_uses tid id (x ∷ xs) = do
    if x.is_default && not (x.id == id) then set_tenant_use new_id tid x.id false else pure tt
    drop_uses tid id xs

  unfoldable pub move_default : String → String → String → Act (Unit {0})
  move_default tid kind id = do
    previous ← ask (list_channels lower tid kind "" 1000)
    drop_uses tid id previous
    st (clear_default_channel tid kind id)
