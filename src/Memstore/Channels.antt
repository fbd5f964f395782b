-- ===== src/Memstore/Channels.antt =====
-- internal/memstore/memstore.go: the writes and listings of channels.
use go_tangra_notification.Prelude.{
  ℕ, Bool, false, Option, none, some, List, [], ◌∷◌, String, ◌&&◌, ◌||◌, not, if◌then◌else◌, ◌==◌,
  ltb, str_lt, select, sort_by, take, insert, erase, values, any, any_entry, update_entries, find,
  Exec, Result, ok, err, not_found, conflict, modify, map,
}
use go_tangra_notification.Store.{Channel}
use go_tangra_notification.Memstore.Owned.{Store, failing, failing_read, owned, found}
use go_tangra_notification.Memstore.Grants.{template_count, with_count}

-- `if len(out) > limit { out = out[:limit] }`
abbrev pub at_most {ℓ} : {A : Type ℓ} → ℕ → List A → List A
at_most n xs = take n xs

unfoldable pub clear_row : String → String → String → String → Channel → Channel
clear_row tid typ except id c =
    if c.tenant_id == tid && c.kind == typ && c.is_default && not (id == except)
    then record c { is_default = false }
    else c

unfoldable pub clear_default_channel : String → String → String → Exec Store (Unit {0})
unfolding clear_row
clear_default_channel tid typ except =
    failing "ClearDefaultChannel"
      (modify λ m. record m { channels = update_entries (clear_row tid typ except) m.channels })

abbrev pub is_managed : String → Channel → Bool
is_managed tid c = c.tenant_id == tid && c.managed

unfoldable pub managed_channel : String → Store → Result Channel
unfolding with_count
managed_channel tid =
    failing_read "ManagedChannel" (λ m. found (with_count m (find (is_managed tid) m.channels)))

abbrev pub is_default_email : String → Channel → Bool
is_default_email tid c = c.tenant_id == tid && c.kind == "email" && c.is_default

unfoldable pub default_email_channel : String → Store → Result Channel
unfolding with_count
default_email_channel tid =
    failing_read "DefaultEmailChannel"
      (λ m. found (with_count m (find (is_default_email tid) m.channels)))

-- The rest of DeleteChannel, from the look-up on.
abbrev pub delete_found : String → Store → Option Channel → Result (Unit {0}) × Store
delete_found id m none = (err not_found, m)
delete_found id m (some c) =
    if ltb 0 (template_count id m.templates)
    then (err conflict, m)
    else (ok tt, record m { channels = erase id m.channels })

unfoldable pub delete_channel : String → String → Exec Store (Unit {0})
unfolding template_count
delete_channel tid id =
    failing "DeleteChannel"
      λ m. delete_found id m (owned (λ (c : Channel). c.tenant_id) tid id m.channels)

-- `{}` where no public settings are given.
abbrev pub or_object : List ℕ → List ℕ
or_object [] = 123 ∷ 125 ∷ []
or_object b = b

module _ (lower : String → String) where
  -- What the unique indexes of the table refuse: a name, a default of the type, a managed channel.
  unfoldable pub clashes : Channel → Channel → Bool
  clashes c x =
      x.tenant_id == c.tenant_id
      && (lower x.name == lower c.name
          || (c.is_default && x.is_default && x.kind == c.kind)
          || (c.managed && x.managed))

  unfoldable pub insert_channel : Channel → Exec Store (Unit {0})
  unfolding clashes
  insert_channel c = failing "InsertChannel" λ m.
      if any (clashes c) (values m.channels) then (err conflict, m) else (
        ok tt,
        record m {
          channels =
              insert c.id
                (record c {
                  settings_public = or_object c.settings_public;
                  created_at = m.now;
                  updated_at = m.now;
                })
                m.channels;
        },
      )

  -- The same for another row, of the type that the stored row has.
  unfoldable pub clashes_with : Channel → String → String → Channel → Bool
  clashes_with c kind id x =
      not (id == c.id)
      && x.tenant_id == c.tenant_id
      && (lower x.name == lower c.name || (c.is_default && x.is_default && x.kind == kind))

  -- The row that an update leaves.
  unfoldable pub updated_channel : ℕ → Channel → Channel → Channel
  updated_channel now c old = record old {
    name = c.name;
    settings_sealed = c.settings_sealed;
    settings_public = c.settings_public;
    enabled = c.enabled;
    is_default = c.is_default;
    updated_by = c.updated_by;
    updated_at = now;
  }

  -- The rest of UpdateChannel, from the look-up on.
  abbrev pub update_found : Channel → Store → Option Channel → Result (Unit {0}) × Store
  update_found c m none = (err not_found, m)
  update_found c m (some old) =
      if any_entry (clashes_with c old.kind) m.channels
      then (err conflict, m)
      else (ok tt, record m { channels = insert c.id (updated_channel m.now c old) m.channels })

  unfoldable pub update_channel : Channel → Exec Store (Unit {0})
  unfolding clashes_with
  update_channel c =
      failing "UpdateChannel"
        λ m. update_found c m (owned (λ (x : Channel). x.tenant_id) c.tenant_id c.id m.channels)

  abbrev channel_less : Channel → Channel → Bool
  channel_less a b =
      if lower a.name == lower b.name
      then str_lt a.id b.id
      else str_lt (lower a.name) (lower b.name)

  abbrev counted_channel : Store → Channel → Channel
  counted_channel m c = record c { template_count = template_count c.id m.templates }

  unfoldable pub list_channels : String → String → String → ℕ → Store → Result (List Channel)
  list_channels tid typ after limit = failing_read "ListChannels" (λ m. ok (
      at_most limit (
        sort_by channel_less (
          map (counted_channel m) (
            select
              (λ (c : Channel).
                c.tenant_id == tid
                && (typ == "" || c.kind == typ)
                && str_lt (lower after) (lower c.name))
              (values m.channels))))))
