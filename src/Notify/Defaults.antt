-- ===== src/Notify/Defaults.antt =====
-- internal/notify/channels.go, internal/notify/platform.go: no operation on channels leaves a tenant
-- with two default channels of a type.
pub mod Calls
use go_tangra_notification.Prelude.{
  ℕ, ◌≡◌, refl, sym, subst, Bool, true, false, Option, none, some, List, [], ◌∷◌, String, ◌&&◌,
  ◌||◌, not, if◌then◌else◌, ◌==◌, lookup, Option-cases, inl, inr, arith, Exec, Result, ok, err, Err,
  forbidden, ensure, ltb, pure, renaming, ◌>>=◌, ◌>>◌,
}
use go_tangra_notification.Store.{Channel, Grant}
use go_tangra_notification.Memstore.{Store, failing, roll_back}
use go_tangra_notification.Authz.Granting.{check_store}
use go_tangra_notification.Memstore.Grants.{
  upsert_grant, delete_grants_of_subject, delete_grants_of_resource, find_tuple, get_channel,
}
use go_tangra_notification.Memstore.Channels.{
  list_channels, clear_default_channel, insert_channel, update_channel, delete_channel,
}
use go_tangra_notification.Memstore.Defaults.{
  OneDefault, failing_keeps, insert_channel-OneDefault, update_channel-OneDefault,
  clear_default_channel-OneDefault, delete_channel-OneDefault,
}
use go_tangra_notification.World.{World, Act, st, ask, emit, draw_id, draw_seed, transaction}
use go_tangra_notification.World.Holds.{
  Keeps, Stable, silent, bound, asked, quiet, followed, ensured, branch, stored, required,
  transacted, owner_granted, use_set,
}
use go_tangra_notification.Authz.Decide.{Subjects}
use go_tangra_notification.Authz.Check.{
  check, require, owner_grant, tenant_grant, put_grant, grant_owner, set_tenant_use, drop_resource,
}
use go_tangra_notification.Notify.Envelope.{seal}
use go_tangra_notification.Notify.Settings.{Settings, Codec, encode, redact, associated}
use go_tangra_notification.Notify.Channels.{
  Providers, ChannelInput, too_big, validate_channel, channel_event, seal_settings, move_default,
  drop_uses, get,
}
use go_tangra_notification.Notify.Manage.{
  differs, new_channel, rewritten_channel, insert_owned, create, rewrite_owned, update, erase_owned,
  remove,
}

abbrev Good : Store → Type 0
Good m = OneDefault m.channels

stable : Stable Good
stable m n c t one = subst OneDefault (sym c) one

module _ (new_id : ℕ → String) (lower : String → String) where
  uses_dropped :
      (tid id : String) (cs : List Channel) → Keeps Good (drop_uses new_id lower tid id cs)
  unfolding drop_uses
  uses_dropped tid id [] = silent _ (λ w. refl)
  uses_dropped tid id (c ∷ cs) =
      followed
        (if c.is_default && not (c.id == id) then set_tenant_use new_id tid c.id false else pure tt)
        (drop_uses new_id lower tid id cs)
        (branch (c.is_default && not (c.id == id)) (set_tenant_use new_id tid c.id false) (pure tt)
          (use_set stable new_id tid c.id false) (silent _ (λ w. refl)))
        (uses_dropped tid id cs)

  default_moved : (tid kind id : String) → Keeps Good (move_default new_id lower tid kind id)
  unfolding move_default
  default_moved tid kind id = asked (list_channels lower tid kind "" 1000) _ (λ cs.
      followed (drop_uses new_id lower tid id cs) (st (clear_default_channel tid kind id))
        (uses_dropped tid id cs) (stored _ (clear_default_channel-OneDefault tid kind id)))

  moved_if :
      (b : Bool) (tid kind id : String)
      → Keeps Good (if b then move_default new_id lower tid kind id else pure tt)
  moved_if b tid kind id = branch b _ (pure tt) (default_moved tid kind id) (silent _ (λ w. refl))

  set_if :
      (b on : Bool) (tid id : String)
      → Keeps Good (if b then set_tenant_use new_id tid id on else pure tt)
  set_if b on tid id = branch b _ (pure tt) (use_set stable new_id tid id on) (silent _ (λ w. refl))

module _ (c : Codec) (p : Providers) where
  settings_sealed : (id kind : String) (s : Settings) → Keeps Good (seal_settings c p id kind s)
  unfolding seal_settings
  settings_sealed id kind s =
      bound (renaming too_big (ask (λ _. encode c s))) _ (silent _ (λ w. refl)) (λ clear.
        bound draw_seed _ (silent _ (λ w. refl)) (λ seed.
          asked (λ _. seal c seed clear (associated id)) _
            (λ blob.
              asked (λ _. encode c (redact s (p.secrets kind))) _ (λ shown. silent _ (λ w. refl)))))

  got : (s : Subjects) (id : String) (now : ℕ) → Keeps Good (get c p s id now)
  unfolding get
  got s id now =
      bound (require s "channel" id "read" now) _ (required s "channel" id "read" now)
        (λ d. asked (get_channel s.tenant_id id) _ (λ row. silent _ (λ w. refl)))

module _ (c : Codec) (p : Providers) (new_id : ℕ → String) (lower : String → String) where
  inserted : (s : Subjects) (row : Channel) → Keeps Good (insert_owned c p new_id lower s row)
  unfolding insert_owned
  inserted s row = followed _ _ (moved_if new_id lower row.is_default s.tenant_id row.kind row.id) (
      followed (st (insert_channel lower row)) _ (stored _ (insert_channel-OneDefault lower row)) (
        followed (grant_owner new_id s.tenant_id "channel" row.id s.user_id) _
          (owner_granted stable new_id s.tenant_id "channel" row.id s.user_id)
          (set_if new_id lower row.is_default true s.tenant_id row.id)))

  rewritten :
      (s : Subjects) (id : String) (was : Bool) (row : Channel)
      → Keeps Good (rewrite_owned c p new_id lower s id was row)
  unfolding rewrite_owned
  rewritten s id was row =
      followed _ _ (moved_if new_id lower (row.is_default && not was) s.tenant_id row.kind id) (
        followed (st (update_channel lower row)) _ (stored _ (update_channel-OneDefault lower row))
          (set_if new_id lower (differs row.is_default was) row.is_default s.tenant_id id))
