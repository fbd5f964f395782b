-- ===== src/Notify/Platform.antt =====
-- internal/notify/platform.go: the channel that configuration manages.
use go_tangra_notification.Prelude.{
  ℕ, Bool, true, false, Option, none, some, List, [], ◌∷◌, String, ◌&&◌, not, if◌then◌else◌, ◌==◌,
  nat_eq, Result, ok, err, is_not_found, injected, insert, pure, ◌>>=◌, ◌>>◌,
}
use go_tangra_notification.Store.{Channel}
use go_tangra_notification.Memstore.Channels.{managed_channel, insert_channel, update_channel}
use go_tangra_notification.World.{Act, Event, st, ask, emit, draw_id, transaction}
use go_tangra_notification.Authz.Check.{set_tenant_use}
use go_tangra_notification.Notify.Settings.{Settings, Codec, text, number, encode}
use go_tangra_notification.Notify.Channels.{
  Providers, provider, seal_settings, open_settings, move_default,
}

pub record PlatformEmail : Type 0 where
  pub host : String
  pub port : ℕ
  pub tls : String
  pub username : String
  pub password : String
  pub sender : String
  pub reply_to : String

-- The keys of a Go map, in the order in which json.Marshal writes them.
unfoldable pub platform_settings : PlatformEmail → Settings
platform_settings e =
    let base : Settings =
      ("host", text e.host)
      ∷ ("port", number e.port)
      ∷ ("tls", text (if e.tls == "" then "starttls" else e.tls))
      ∷ ("from", text e.sender)
      ∷ [] in
    let named =
      if e.username == ""
      then base
      else insert "password" (text e.password) (insert "username" (text e.username) base) in
    if e.reply_to == "" then named else insert "reply_to" (text e.reply_to) named

pub data PlatformResult : Type 0 where
  created updated unchanged disabled absent : PlatformResult

abbrev pub platform_name : String
platform_name = "Platform email"

unfoldable pub platform_event : String → String → String → Event
platform_event kind tid id = record {
  kind = kind;
  tenant_id = tid;
  actor_kind = "system";
  actor_id = "platform_email";
  subject_kind = "channel";
  subject_id = id;
  outcome = "ok";
  reason = "";
}

abbrev bytes_eq : List ℕ → List ℕ → Bool
bytes_eq [] [] = true
bytes_eq (a ∷ xs) (b ∷ ys) = nat_eq a b && bytes_eq xs ys
bytes_eq _ _ = false

abbrev same_bytes : Result (List ℕ) → Result (List ℕ) → Bool
same_bytes (ok a) (ok b) = bytes_eq a b
same_bytes _ _ = false

-- `found := err == nil`: none where there is no managed channel.
abbrev pub found_or_none : Result Channel → Result (Option Channel)
found_or_none (ok c) = ok (some c)
found_or_none (err e) = if is_not_found e then ok none else err e

unfoldable pub new_platform : String → String → List ℕ → List ℕ → Channel
new_platform tid id blob shown = record {
  id = id;
  tenant_id = tid;
  name = platform_name;
  kind = "email";
  settings_sealed = blob;
  settings_public = shown;
  enabled = true;
  is_default = true;
  managed = true;
  created_by = none;
  updated_by = none;
  created_at = 0;
  updated_at = 0;
  template_count = 0;
}

unfoldable pub platform_row : Channel → List ℕ → List ℕ → Channel
platform_row row blob shown = record row {
  name = platform_name;
  settings_sealed = blob;
  settings_public = shown;
  enabled = true;
  is_default = true;
  updated_by = none;
}

module _ (c : Codec) (p : Providers) (new_id : ℕ → String) (lower : String → String) where
  unfoldable pub same_settings : Channel → Settings → Bool
  same_settings row want = elim (open_settings c p row) [
    | err e ↦ false
    | ok stored ↦ same_bytes (encode c stored) (encode c want)
  ]

  abbrev pub accepted : Option String → Result (Unit {0})
  accepted none = ok tt
  accepted (some e) = err (injected e)

  -- The provider of a managed e-mail channel accepts the settings.
  abbrev pub checked : Settings → Result (Unit {0})
  checked want = elim (provider p (new_platform "" "" [] [])) [
    | err e ↦ err e
    | ok own ↦ accepted (p.validate own "email" want)
  ]

  unfoldable pub insert_platform : String → Channel → Act (Unit {0})
  insert_platform tid row = do
    move_default new_id lower tid "email" row.id
    st (insert_channel lower row)
    set_tenant_use new_id tid row.id true

  unfoldable pub rewrite_platform : String → Bool → Channel → Act (Unit {0})
  rewrite_platform tid was_default row = do
    if was_default then pure tt else move_default new_id lower tid "email" row.id
    st (update_channel lower row)
    if was_default then pure tt else set_tenant_use new_id tid row.id true

  -- Without configuration.
  unfoldable pub retire_platform : String → Option Channel → Act PlatformResult
  retire_platform tid none = pure absent
  retire_platform tid (some row) = if not row.enabled then pure absent else do
    st (update_channel lower (record row { enabled = false }))
    emit (platform_event "channel_updated" tid row.id)
    pure disabled

  unfoldable pub create_platform : String → Settings → Act PlatformResult
  create_platform tid want = do
    id ← draw_id new_id
    blobs ← seal_settings c p id "email" want
    transaction (insert_platform tid (new_platform tid id blobs.0 blobs.1))
    emit (platform_event "channel_created" tid id)
    pure created

  unfoldable pub update_platform : String → Settings → Channel → Act PlatformResult
  update_platform tid want row =
      if same_settings row want && row.enabled && row.is_default && row.name == platform_name
      then pure unchanged
      else do
        blobs ← seal_settings c p row.id "email" want
        transaction (rewrite_platform tid row.is_default (platform_row row blobs.0 blobs.1))
        emit (platform_event "channel_updated" tid row.id)
        pure updated

  abbrev pub settle : String → Settings → Option Channel → Act PlatformResult
  settle tid want none = create_platform tid want
  settle tid want (some row) = update_platform tid want row

  abbrev pub configure : String → Option PlatformEmail → Option Channel → Act PlatformResult
  configure tid none row = retire_platform tid row
  configure tid (some e) row = do
    ask (λ _. checked (platform_settings e))
    settle tid (platform_settings e) row

  unfoldable pub ensure_platform_channel : String → Option PlatformEmail → Act PlatformResult
  ensure_platform_channel tid e = do
    row ← ask (λ m. found_or_none (managed_channel tid m))
    configure tid e row
