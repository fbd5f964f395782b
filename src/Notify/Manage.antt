-- ===== src/Notify/Manage.antt =====
-- internal/notify/channels.go: creating, rewriting, deleting and listing channels.
use go_tangra_notification.Prelude.{
  ℕ, Bool, true, false, Option, none, some, List, [], ◌∷◌, ◌++◌, String, ◌&&◌, ◌||◌, not,
  if◌then◌else◌, ◌==◌, ltb, leb, length, contains, Result, ok, Err, invalid, managed_channel,
  in_use, is_conflict, pure, ensure, renaming, bind_result, ◌>>=◌, ◌>>◌,
}
use go_tangra_notification.Store.{Channel}
use go_tangra_notification.Memstore.{Store}
use go_tangra_notification.Memstore.Grants.{get_channel}
use go_tangra_notification.Memstore.Channels.{insert_channel, update_channel, delete_channel}
use go_tangra_notification.World.{Act, st, ask, emit, draw_id, transaction}
use go_tangra_notification.Authz.Decide.{Subjects}
use go_tangra_notification.Authz.Check.{
  require, permissions_on, grant_owner, set_tenant_use, drop_resource,
}
use go_tangra_notification.Messages.Input.{user_ptr}
use go_tangra_notification.Notify.Settings.{Settings, Codec, merge}
use go_tangra_notification.Notify.Channels.{
  Providers, ChannelInput, ChannelView, channel_view, channel_event, validate_channel,
  seal_settings, open_settings, redacted, get, move_default,
}

-- The row that Create inserts.
unfoldable pub new_channel : Subjects → ChannelInput → String → List ℕ → List ℕ → Channel
new_channel s i id blob shown = record {
  id = id;
  tenant_id = s.tenant_id;
  name = i.name;
  kind = i.kind;
  settings_sealed = blob;
  settings_public = shown;
  enabled = i.enabled;
  is_default = i.is_default;
  managed = false;
  created_by = user_ptr s;
  updated_by = user_ptr s;
  created_at = 0;
  updated_at = 0;
  template_count = 0;
}

-- The row that Update writes.
unfoldable pub rewritten_channel : Subjects → ChannelInput → List ℕ → List ℕ → Channel → Channel
rewritten_channel s i blob shown row = record row {
  name = i.name;
  settings_sealed = blob;
  settings_public = shown;
  enabled = i.enabled;
  is_default = i.is_default;
  updated_by = user_ptr s;
}

abbrev pub or_nothing : Option Settings → Settings
or_nothing none = []
or_nothing (some s) = s

abbrev pub in_use_of : Err → Err
in_use_of e = if is_conflict e then in_use else e

abbrev pub differs : Bool → Bool → Bool
differs true b = not b
differs false b = b

-- `for _, row := range rows` of List: the entries so far, and the name of the last row looked at.
module _ (c : Codec) (p : Providers) (s : Subjects) (limit now : ℕ) (m : Store)
    (seen : Option (List String)) where
  abbrev hidden : String → Bool
  hidden id = elim seen [ none ↦ false | some ids ↦ not (contains ids id) ]

  unfoldable pub show_rows : List Channel → List ChannelView → Result (List ChannelView)
  show_rows [] out = ok out
  show_rows (row ∷ rows) out = elim (leb limit (length out) || hidden row.id) [
    | true ↦ show_rows rows out
    | false ↦
        bind_result (permissions_on s "channel" row.id now m)
          (λ own. show_rows rows (out ++ channel_view row (redacted c p row) own ∷ []))
  ]

module _ (c : Codec) (p : Providers) (new_id : ℕ → String) (lower : String → String) where
  -- What Create runs inside one transaction.
  unfoldable pub insert_owned : Subjects → Channel → Act (Unit {0})
  insert_owned s row = do
    if row.is_default then move_default new_id lower s.tenant_id row.kind row.id else pure tt
    st (insert_channel lower row)
    grant_owner new_id s.tenant_id "channel" row.id s.user_id
    if row.is_default then set_tenant_use new_id s.tenant_id row.id true else pure tt

  unfoldable pub create : Subjects → ChannelInput → ℕ → Act ChannelView
  create s i now = do
    settings ← ask (λ _. validate_channel p i)
    id ← draw_id new_id
    blobs ← seal_settings c p id i.kind settings
    transaction (insert_owned s (new_channel s i id blobs.0 blobs.1))
    emit (channel_event "channel_created" s id)
    get c p s id now

  -- What Update runs inside one transaction.
  unfoldable pub rewrite_owned : Subjects → String → Bool → Channel → Act (Unit {0})
  rewrite_owned s id was_default row = do
    if row.is_default && not was_default
        then move_default new_id lower s.tenant_id row.kind id
        else pure tt
    st (update_channel lower row)
    if differs row.is_default was_default
        then set_tenant_use new_id s.tenant_id id row.is_default
        else pure tt

  unfoldable pub update : Subjects → String → ChannelInput → ℕ → Act ChannelView
  update s id i now = do
    d ← require s "channel" id "write" now
    row ← ask (get_channel s.tenant_id id)
    ensure (not row.managed) managed_channel
    ensure (i.kind == "" || i.kind == row.kind) (invalid "the channel type cannot change" "type")
    stored ← ask (λ _. open_settings c p row)
    let input = record i {
      kind = row.kind;
      settings = some (merge stored (or_nothing i.settings) (p.secrets row.kind));
    }
    settings ← ask (λ _. validate_channel p input)
    blobs ← seal_settings c p id row.kind settings
    transaction (rewrite_owned s id row.is_default (rewritten_channel s input blobs.0 blobs.1 row))
    emit (channel_event "channel_updated" s id)
    get c p s id now

  -- What Delete runs inside one transaction.
  unfoldable pub erase_owned : String → String → Act (Unit {0})
  erase_owned tid id = do
    renaming in_use_of (st (delete_channel tid id))
    st (drop_resource tid "channel" id)

  unfoldable pub remove : Subjects → String → ℕ → Act (Unit {0})
  remove s id now = do
    d ← require s "channel" id "delete" now
    row ← ask (get_channel s.tenant_id id)
    ensure (not row.managed) managed_channel
    ensure (not (ltb 0 row.template_count)) in_use
    transaction (erase_owned s.tenant_id id)
    emit (channel_event "channel_deleted" s id)
