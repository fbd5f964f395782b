-- ===== src/Notify/Defaults/Calls.antt =====
-- internal/notify/channels.go, internal/notify/platform.go: calls of the channel operations, by any
-- callers, in any order.
use go_tangra_notification.Prelude.{
  ℕ, refl, Bool, true, false, Option, none, some, List, [], ◌∷◌, String, ◌&&◌, ◌||◌, not, ◌==◌,
  managed_channel, in_use, ltb, pure, renaming, ◌>>◌,
}
use go_tangra_notification.Store.{Channel}
use go_tangra_notification.Memstore.Grants.{get_channel}
use go_tangra_notification.Memstore.Channels.{insert_channel, update_channel, delete_channel}
use go_tangra_notification.Memstore.Channels as Rows
use go_tangra_notification.Memstore.Defaults.{
  OneDefault, insert_channel-OneDefault, update_channel-OneDefault, delete_channel-OneDefault,
}
use go_tangra_notification.World.{World, st, ask, emit, draw_id, transaction}
use go_tangra_notification.Authz.Decide.{Subjects}
use go_tangra_notification.Authz.Check.{require, set_tenant_use}
use go_tangra_notification.Notify.Settings.{Settings, Codec, merge}
use go_tangra_notification.Notify.Channels.{
  Providers, ChannelInput, validate_channel, channel_event, seal_settings, open_settings,
  move_default,
}
use go_tangra_notification.Notify.Manage.{
  or_nothing, in_use_of, new_channel, rewritten_channel, insert_owned, create, rewrite_owned,
  update, erase_owned, remove,
}
use go_tangra_notification.Notify.Platform.{
  PlatformEmail, platform_settings, platform_event, platform_row, new_platform, same_settings,
  insert_platform, rewrite_platform, retire_platform, create_platform, update_platform, settle,
  configure, checked, found_or_none, ensure_platform_channel, platform_name, created, updated,
  unchanged, disabled, absent,
}
use go_tangra_notification.World.Holds.{
  Keeps, silent, bound, asked, followed, ensured, branch, stored, required, transacted, dropped,
  use_set,
}
use go_tangra_notification.Notify.Defaults.{
  Good, stable, default_moved, settings_sealed, got, inserted, rewritten,
}

module _ (c : Codec) (p : Providers) (new_id : ℕ → String) (lower : String → String) where
  create_keeps :
      (s : Subjects) (i : ChannelInput) (now : ℕ) → Keeps Good (create c p new_id lower s i now)
  unfolding create
  create_keeps s i now =
      asked (λ _. validate_channel p i) _
        (λ settings. bound (draw_id new_id) _ (silent _ (λ w. refl)) (λ id.
          bound (seal_settings c p id i.kind settings) _ (settings_sealed c p id i.kind settings)
            (λ blobs.
              followed
                (transaction (insert_owned c p new_id lower s (new_channel s i id blobs.0 blobs.1)))
                _
                (transacted stable _
                  (inserted c p new_id lower s (new_channel s i id blobs.0 blobs.1)))
                (followed (emit (channel_event "channel_created" s id)) _ (silent _ (λ w. refl))
                  (got c p s id now)))))

  update_keeps :
      (s : Subjects) (id : String) (i : ChannelInput) (now : ℕ)
      → Keeps Good (update c p new_id lower s id i now)
  unfolding update
  update_keeps s id i now =
      bound (require s "channel" id "write" now) _ (required s "channel" id "write" now) (λ d.
        asked (get_channel s.tenant_id id) _ (λ row. ensured (not row.managed) managed_channel _ (
          ensured (i.kind == "" || i.kind == row.kind) _ _ (
            asked (λ _. open_settings c p row) _
              (λ old.
                asked (λ _. validate_channel p (given i row old)) _
                  (λ settings.
                    bound (seal_settings c p id row.kind settings) _
                      (settings_sealed c p id row.kind settings)
                      (λ blobs.
                        followed
                          (transaction (
                            rewrite_owned c p new_id lower s id row.is_default
                              (rewritten_channel s (given i row old) blobs.0 blobs.1 row)))
                          _
                          (transacted stable _ (
                            rewritten c p new_id lower s id row.is_default
                              (rewritten_channel s (given i row old) blobs.0 blobs.1 row)))
                          (followed (emit (channel_event "channel_updated" s id)) _
                            (silent _ (λ w. refl)) (got c p s id now)))))))))
    where
      given : ChannelInput → Channel → Settings → ChannelInput
      given i row old = record i {
        kind = row.kind;
        settings = some (merge old (or_nothing i.settings) (p.secrets row.kind));
      }

  erased : (tid id : String) → Keeps Good (erase_owned c p new_id lower tid id)
  unfolding erase_owned
  erased tid id =
      followed (renaming in_use_of (st (delete_channel tid id))) _
        (record { keeps = λ w. delete_channel-OneDefault tid id w.store })
        (dropped stable tid "channel" id)

  remove_keeps :
      (s : Subjects) (id : String) (now : ℕ) → Keeps Good (remove c p new_id lower s id now)
  unfolding remove
  remove_keeps s id now =
      bound (require s "channel" id "delete" now) _ (required s "channel" id "delete" now) (λ d.
        asked (get_channel s.tenant_id id) _ (λ row. ensured (not row.managed) managed_channel _ (
          ensured (not (ltb 0 row.template_count)) in_use _ (
            followed (transaction (erase_owned c p new_id lower s.tenant_id id)) _
              (transacted stable _ (erased s.tenant_id id)) (silent _ (λ w. refl))))))

  platform_inserted :
      (tid : String) (row : Channel) → Keeps Good (insert_platform c p new_id lower tid row)
  unfolding insert_platform
  platform_inserted tid row = followed _ _ (default_moved new_id lower tid "email" row.id) (
      followed (st (insert_channel lower row)) _ (stored _ (insert_channel-OneDefault lower row))
        (use_set stable new_id tid row.id true))

  platform_rewritten :
      (tid : String) (was : Bool) (row : Channel)
      → Keeps Good (rewrite_platform c p new_id lower tid was row)
  unfolding rewrite_platform
  platform_rewritten tid was row =
      followed _ _
        (branch was (pure tt) (move_default new_id lower tid "email" row.id) (silent _ (λ w. refl))
          (default_moved new_id lower tid "email" row.id))
        (followed (st (update_channel lower row)) _ (stored _ (update_channel-OneDefault lower row))
          (branch was (pure tt) (set_tenant_use new_id tid row.id true) (silent _ (λ w. refl))
            (use_set stable new_id tid row.id true)))

  retired :
      (tid : String) (row : Option Channel) → Keeps Good (retire_platform c p new_id lower tid row)
  unfolding retire_platform
  retired tid none = silent _ (λ w. refl)
  retired tid (some row) = branch (not row.enabled) (pure absent) _ (silent _ (λ w. refl)) (
      followed (st (update_channel lower (record row { enabled = false })))
        (emit (platform_event "channel_updated" tid row.id) >> pure disabled)
        (stored _ (update_channel-OneDefault lower (record row { enabled = false })))
        (silent _ (λ w. refl)))

  settled :
      (tid : String) (want : Settings) (row : Option Channel)
      → Keeps Good (settle c p new_id lower tid want row)
  unfolding create_platform update_platform
  settled tid want none = bound (draw_id new_id) _ (silent _ (λ w. refl)) (λ id.
      bound (seal_settings c p id "email" want) _ (settings_sealed c p id "email" want) (λ blobs.
        followed
          (transaction (insert_platform c p new_id lower tid (new_platform tid id blobs.0 blobs.1)))
          (emit (platform_event "channel_created" tid id) >> pure created)
          (transacted stable _ (platform_inserted tid (new_platform tid id blobs.0 blobs.1)))
          (silent _ (λ w. refl))))
  settled tid want (some row) =
      branch
        (same_settings c p new_id lower row want
          && row.enabled
          && row.is_default
          && row.name == platform_name)
        (pure unchanged) _ (silent _ (λ w. refl))
        (bound (seal_settings c p row.id "email" want) _ (settings_sealed c p row.id "email" want)
          (λ blobs.
            followed
              (transaction (
                rewrite_platform c p new_id lower tid row.is_default
                  (platform_row row blobs.0 blobs.1)))
              (emit (platform_event "channel_updated" tid row.id) >> pure updated)
              (transacted stable _
                (platform_rewritten tid row.is_default (platform_row row blobs.0 blobs.1)))
              (silent _ (λ w. refl))))

  configured :
      (tid : String) (e : Option PlatformEmail) (row : Option Channel)
      → Keeps Good (configure c p new_id lower tid e row)
  configured tid none row = retired tid row
  configured tid (some e) row =
      followed (ask (λ _. checked c p new_id lower (platform_settings e))) _ (silent _ (λ w. refl))
        (settled tid (platform_settings e) row)

  ensured_platform :
      (tid : String) (e : Option PlatformEmail)
      → Keeps Good (ensure_platform_channel c p new_id lower tid e)
  unfolding ensure_platform_channel
  ensured_platform tid e =
      asked (λ m. found_or_none (Rows.managed_channel tid m)) _ (configured tid e)

-- One call of the channel operations.
pub data ChannelCall : Type 0 where
  create_call : Subjects → ChannelInput → ℕ → ChannelCall
  update_call : Subjects → String → ChannelInput → ℕ → ChannelCall
  remove_call : Subjects → String → ℕ → ChannelCall
  ensure_call : String → Option PlatformEmail → ChannelCall

module _ (c : Codec) (p : Providers) (new_id : ℕ → String) (lower : String → String) where
  unfoldable pub run_call : ChannelCall → World → World
  run_call (create_call s i now) w = (create c p new_id lower s i now w).1
  run_call (update_call s id i now) w = (update c p new_id lower s id i now w).1
  run_call (remove_call s id now) w = (remove c p new_id lower s id now w).1
  run_call (ensure_call tid e) w = (ensure_platform_channel c p new_id lower tid e w).1

  unfoldable pub run_calls : List ChannelCall → World → World
  run_calls [] w = w
  run_calls (x ∷ xs) w = run_calls xs (run_call x w)

  run_call-OneDefault :
      (x : ChannelCall) (w : World)
      → OneDefault w.store.channels
      → OneDefault (run_call x w).store.channels
  unfolding run_call
  run_call-OneDefault (create_call s i now) w = (create_keeps c p new_id lower s i now).keeps w
  run_call-OneDefault (update_call s id i now) w =
      (update_keeps c p new_id lower s id i now).keeps w
  run_call-OneDefault (remove_call s id now) w = (remove_keeps c p new_id lower s id now).keeps w
  run_call-OneDefault (ensure_call tid e) w = (ensured_platform c p new_id lower tid e).keeps w

  -- No sequence of calls that create, update, delete or configure channels, by any callers, whether
  -- each returns or fails, leads from a store in which no tenant has two default channels of a type
  -- to one in which a tenant has.
  pub run_calls-OneDefault :
      (xs : List ChannelCall) (w : World)
      → OneDefault w.store.channels
      → OneDefault (run_calls xs w).store.channels
  unfolding run_calls
  run_calls-OneDefault [] w one = one
  run_calls-OneDefault (x ∷ xs) w one =
      run_calls-OneDefault xs (run_call x w) (run_call-OneDefault x w one)
