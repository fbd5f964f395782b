-- ===== src/Notify/SystemSend.antt =====
-- internal/notify/send.go: the send of a system template for a service, on the tenant's default
-- e-mail channel or on the platform's.
use go_tangra_notification.Prelude.{
  ℕ, Bool, false, Option, none, some, List, [], ◌∷◌, String, ◌&&◌, not, if◌then◌else◌, ◌==◌, Table,
  insert, Result, ok, err, Err, invalid, is_not_found, key_namespace, unknown_key,
  email_not_configured, throw, map_err, bind_result, ◌>>=◌, ◌>>◌,
}
use go_tangra_notification.Store.{Channel}
use go_tangra_notification.Memstore.{Store}
use go_tangra_notification.Memstore.Channels.{default_email_channel, managed_channel}
use go_tangra_notification.Memstore.Templates.{template_by_key}
use go_tangra_notification.World.{Act, Event, ask, emit}
use go_tangra_notification.Authz.Decide.{Subjects, actor_kind, actor_id}
use go_tangra_notification.Notify.Settings.{Settings}
use go_tangra_notification.Notify.Channels.{resolve}
use go_tangra_notification.Notify.Render.{kind_for, first_missing, parse, render_redacted}
use go_tangra_notification.Notify.Templates.{validation_error}
use go_tangra_notification.Notify.SystemKey.{valid_key, key_service}
use go_tangra_notification.Notify.Deliver.{Setup, LogView, secret_values, deliver, count_send}
use go_tangra_notification.Notify.Send.{check_variables, validate_recipient, recipient_error}

pub record KeyInput : Type 0 where
  pub key : String
  pub recipient : String
  pub variables : Table String

unfoldable pub namespace_refused : Subjects → String → Event
namespace_refused s key = record {
  kind = "access_refused";
  tenant_id = s.tenant_id;
  actor_kind = actor_kind s;
  actor_id = actor_id s;
  subject_kind = "template";
  subject_id = key;
  outcome = "refused";
  reason = "key_namespace";
}

-- `values := …`: the declared variables, empty, under the given ones.
unfoldable pub with_declared : List String → Table String → Table String
with_declared [] t = t
with_declared (v ∷ vs) t = with_declared vs (insert v "" t)

unfoldable pub with_given : Table String → Table String → Table String
with_given [] t = t
with_given ((k, v) ∷ rest) t = with_given rest (insert k v t)

abbrev pub unknown : Err → Err
unknown e = if is_not_found e then unknown_key else e

-- The first required variable that is not given.
unfoldable pub check_required : Table String → List String → Result (Unit {0})
check_required vars required = elim (first_missing vars required) [
  | none ↦ ok tt
  | some n ↦ err (invalid "missing_variable" n)
]

-- `err == nil && ch.Enabled`, and another error than the missing row's.
abbrev pub enabled_row : Result Channel → Result (Option Channel)
enabled_row (ok c) = ok (if c.enabled then some c else none)
enabled_row (err e) = if is_not_found e then ok none else err e

module _ (x : Setup) where
  unfoldable pub platform_fallback : Option Channel → Store → Result (Channel × Settings × Bool)
  platform_fallback none m = err email_not_configured
  platform_fallback (some c) m = resolve x.codec x.providers x.platform_tenant c.id m

  unfoldable pub own_or_platform :
      String → Option Channel → Store → Result (Channel × Settings × Bool)
  own_or_platform tid (some c) m = resolve x.codec x.providers tid c.id m
  own_or_platform tid none m =
      bind_result (enabled_row (managed_channel x.platform_tenant m)) (λ c. platform_fallback c m)

  unfoldable pub system_channel : String → Store → Result (Channel × Settings × Bool)
  system_channel tid m =
      bind_result (enabled_row (default_email_channel tid m)) (λ c. own_or_platform tid c m)

  abbrev pub in_namespace : String → String → Bool
  in_namespace service key = not (service == "") && key_service key == service

  -- The send, once the key lies in the service's namespace.
  unfoldable pub send_known : Subjects → String → KeyInput → ℕ → ℕ → Act LogView
  send_known s service i now at = do
    ask (λ _. check_variables i.variables)
    tpl ← ask (λ m. map_err unknown (template_by_key x.platform_tenant i.key m))
    ask (λ _. check_required i.variables tpl.required_variables)
    ask (λ _. map_err recipient_error (validate_recipient x.address "email" i.recipient))
    compiled ← ask (λ _.
        map_err validation_error (parse x.engine tpl.subject tpl.body (kind_for tpl.channel_type)))
    r ← ask (system_channel s.tenant_id)
    let given = with_given i.variables (with_declared tpl.variables [])
    count_send x "system" service x.system now
    deliver x s
        (record {
          channel = r.0;
          settings = r.1;
          own = r.2;
          template_id = some tpl.id;
          template_key = some i.key;
          recipient = i.recipient;
          test = false;
          secrets = secret_values tpl.secret_variables given;
          rendered = render_redacted x.engine compiled given tpl.secret_variables;
        })
        now at

  unfoldable pub send_key : Subjects → String → KeyInput → ℕ → ℕ → Act LogView
  send_key s service i now at =
      if not (valid_key i.key)
      then throw (invalid "template_key" "template_key")
      else if not (in_namespace service i.key)
      then (emit (namespace_refused s i.key) >>= λ _. throw key_namespace)
      else send_known s service i now at
