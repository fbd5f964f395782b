-- ===== src/Notify/Gates.antt =====
-- internal/notify/send.go: what a send has passed before anything is logged or handed to a provider.
use go_tangra_notification.Prelude.{
  ℕ, ◌≡◌, refl, Bool, true, false, String, ◌≤◌, len, length, all, ◌||◌, not, ◌==◌, ok, map_err,
  type_mismatch, channel_disabled,
}
use go_tangra_notification.Store.{Channel, Template}
use go_tangra_notification.Memstore.{Store}
use go_tangra_notification.Memstore.Grants.{get_template}
use go_tangra_notification.World.{World}
use go_tangra_notification.Authz.Decide.{Subjects}
use go_tangra_notification.Authz.Check.{require}
use go_tangra_notification.Notify.Settings.{Settings}
use go_tangra_notification.Notify.Channels.{resolve}
use go_tangra_notification.Notify.Render.{Compiled, has_value, valid_name, parse, kind_for}
use go_tangra_notification.Notify.Templates.{validation_error}
use go_tangra_notification.Notify.Checks.{bytes}
use go_tangra_notification.Notify.Deliver.{Setup}
use go_tangra_notification.Notify.Send.{
  SendInput, check_variables, has_break, validate_recipient, recipient_error, check_given, prepare,
}
use go_tangra_notification.Notify.Passing.{
  May, channel_of, Quiet, bound-Quiet, asked-Quiet, ensured-Quiet, required-Quiet,
}

module _ (x : Setup) (s : Subjects) (i : SendInput) (now : ℕ) where
  pub prepare-Quiet : Quiet (prepare x s i now)
  unfolding prepare
  prepare-Quiet = ensured-Quiet (not (i.template_id == "")) _ _ (
      asked-Quiet (λ _. check_variables i.variables) _
        (λ _.
          bound-Quiet (require s "template" i.template_id "use" now) _
            (required-Quiet s "template" i.template_id "use" now)
            (λ d. asked-Quiet (get_template s.tenant_id i.template_id) _ (λ t.
              ensured-Quiet (not (channel_of i t == "")) _ _ (
                bound-Quiet (require s "channel" (channel_of i t) "use" now) _
                  (required-Quiet s "channel" (channel_of i t) "use" now)
                  (λ d.
                    asked-Quiet (resolve x.codec x.providers s.tenant_id (channel_of i t)) _ (λ r.
                      ensured-Quiet (r.0.kind == t.channel_type) type_mismatch _ (
                        ensured-Quiet r.0.enabled channel_disabled _ (
                          asked-Quiet
                            (λ _.
                              map_err recipient_error
                                (validate_recipient x.address r.0.kind i.recipient))
                            _
                            (λ _.
                              asked-Quiet
                                (λ _.
                                  map_err validation_error
                                    (parse x.engine t.subject t.body (kind_for r.0.kind)))
                                _
                                (λ c.
                                  asked-Quiet (λ _. check_given i.variables c) _
                                    (λ _. record { leaves = λ w. (refl, refl) }))))))))))))

  -- The variables are 50 at most, with valid names, and 64 KiB at most with their names.
  abbrev pub InBounds : Type 0
  InBounds =
      (length i.variables ≤ 50)
      × (all (λ (v : String × String). valid_name v.0) i.variables ≡ true)
      × (bytes i.variables ≤ 65536)

  -- The recipient is 512 bytes at most and not empty, without line breaks and zero bytes, and an
  -- address if the mail goes by email.
  abbrev pub WellFormed : String → Type 0
  WellFormed kind =
      (i.recipient == "" ≡ false)
      × (len i.recipient ≤ 512)
      × (has_break i.recipient ≡ false)
      × ((not (kind == "email") || x.address i.recipient) ≡ true)

  -- The template's text parses, and every variable that it refers to is given.
  abbrev pub Complete : Template → String → Type 0
  Complete t kind =
      (c : Compiled) × (parse x.engine t.subject t.body (kind_for kind) ≡ ok c)
      × (all (has_value i.variables) c.refs ≡ true)

  -- What a send has passed before it is counted.
  abbrev pub Passed : Store → Type 0
  Passed m =
      (i.template_id == "" ≡ false)
      × InBounds
      × May s "use" "template" i.template_id now m
      × (t : Template) × (get_template s.tenant_id i.template_id m ≡ ok t)
      × (channel_of i t == "" ≡ false)
      × May s "use" "channel" (channel_of i t) now m
      × (r : Channel × Settings × Bool) × (resolve x.codec x.providers s.tenant_id (channel_of i t)
            m
          ≡ ok r)
      × (r.0.kind == t.channel_type ≡ true)
      × (r.0.enabled ≡ true)
      × WellFormed r.0.kind
      × Complete t r.0.kind
