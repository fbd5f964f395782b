-- ===== src/Notify/Send.antt =====
-- internal/notify/send.go: the sends of a tenant's own callers, by template, as a test, and without
-- a template.
use Prim.Native.Char.{code}
use Prim.Native.String.{◌++◌ as append}
use go_tangra_notification.Prelude.{
  is_digit, ℕ, zero, suc, ◌+◌, Bool, true, false, Option, none, some, [], ◌∷◌, String, len, ◌&&◌,
  ◌||◌, not, if◌then◌else◌, ◌==◌, nat_eq, ltb, leb, length, strp, Table, Result, ok, err, Err,
  invalid, not_found, is_not_found, channel_disabled, type_mismatch, bad_recipient,
  email_not_configured, pure, ensure, map_err, bind_result, ◌>>=◌, ◌>>◌,
}
use go_tangra_notification.Store.{Channel}
use go_tangra_notification.Memstore.{Store}
use go_tangra_notification.Memstore.Grants.{get_template}
use go_tangra_notification.Memstore.Channels.{default_email_channel}
use go_tangra_notification.World.{Act, ask}
use go_tangra_notification.Authz.Decide.{Subjects}
use go_tangra_notification.Authz.Check.{require}
use go_tangra_notification.Notify.Settings.{Settings}
use go_tangra_notification.Notify.Channels.{resolve}
use go_tangra_notification.Notify.Render.{
  Output, Compiled, valid_name, kind_for, first_missing, parse, render_redacted,
}
use go_tangra_notification.Notify.Templates.{validation_error}
use go_tangra_notification.Notify.Deliver.{Setup, Dispatch, LogView, secret_values, deliver, limit}

-- `channel_id` is empty where the template's own channel is meant.
pub record SendInput : Type 0 where
  pub template_id : String
  pub channel_id : String
  pub recipient : String
  pub variables : Table String

abbrev pub too_many_bytes : ℕ
too_many_bytes = 65536

-- The loop of checkVariables, from a total on.
unfoldable pub check_entries : ℕ → Table String → Result (Unit {0})
check_entries total [] =
    if ltb too_many_bytes total then err (invalid "variables exceed 64 KiB" "variables") else ok tt
check_entries total ((k, v) ∷ rest) =
    if valid_name k
    then check_entries (total + (len k + len v)) rest
    else err (invalid "variable name" k)

unfoldable pub check_variables : Table String → Result (Unit {0})
check_variables vars =
    if ltb 50 (length vars)
    then err (invalid "at most 50 variables" "variables")
    else check_entries 0 vars

-- A line break or a zero byte.
unfoldable pub has_break : String → Bool
has_break String.[] = false
has_break (String.◌∷◌ c s) =
    nat_eq (code c) 13 || nat_eq (code c) 10 || nat_eq (code c) 0 || has_break s

unfoldable pub validate_recipient : (String → Bool) → String → String → Result (Unit {0})
unfolding has_break
validate_recipient address kind to =
    if to == "" || ltb 512 (len to) || has_break to
    then err bad_recipient
    else if kind == "email" && not (address to)
    then err bad_recipient
    else ok tt

abbrev pub recipient_error : Err → Err
recipient_error e = invalid "recipient is not valid for the channel type" "recipient"

-- Every variable that the template refers to is given.
unfoldable pub check_given : Table String → Compiled → Result (Unit {0})
check_given vars c = elim (first_missing vars c.refs) [
  | none ↦ ok tt
  | some n ↦ err (invalid "missing variable" n)
]

-- `n` hexadecimal digits at the front, and the rest.
unfoldable pub hex_digits : ℕ → String → Option String
hex_digits zero s = some s
hex_digits (suc n) String.[] = none
hex_digits (suc n) (String.◌∷◌ c s) =
    let rest = hex_digits n s in
    if is_digit (code c)
      || (leb 97 (code c) && leb (code c) 102)
      || (leb 65 (code c) && leb (code c) 70)
    then rest
    else none

abbrev after_dash : Option String → Option String
after_dash (some (String.◌∷◌ c s)) = if nat_eq (code c) b'-' then some s else none
after_dash _ = none

abbrev hex_group : ℕ → Option String → Option String
hex_group n none = none
hex_group n (some s) = hex_digits n s

abbrev ended : Option String → Bool
ended none = false
ended (some s) = s == ""

unfoldable pub is_uuid : String → Bool
unfolding hex_digits
is_uuid s = ended (
    hex_group 12 (
      after_dash (
        hex_group 4
          (after_dash (hex_group 4 (after_dash (hex_group 4 (after_dash (hex_digits 8 s)))))))))

abbrev pub default_custom_subject : String
default_custom_subject = "[GoTangra] Scheduled test email"

abbrev pub test_output : Output
test_output = record {
  subject = "Tangra notification test";
  body =
      "<p>This is a test message from the Tangra notification service. If you can read it, the channel works.</p>";
}

pub record CustomInput : Type 0 where
  pub channel_id : String
  pub recipient : String
  pub subject : String
  pub body : String
  pub correlation_id : String

-- A line break.
unfoldable pub has_line_break : String → Bool
has_line_break String.[] = false
has_line_break (String.◌∷◌ c s) = nat_eq (code c) 13 || nat_eq (code c) 10 || has_line_break s

abbrev or_default : String → String → String
or_default t d = if t == "" then d else t

module _ (x : Setup) where
  -- What Send decides before it counts: the send in flight.
  unfoldable pub prepare : Subjects → SendInput → ℕ → Act Dispatch
  prepare s i now = do
    ensure (not (i.template_id == "")) (invalid "template_id is required" "template_id")
    ask (λ _. check_variables i.variables)
    d ← require s "template" i.template_id "use" now
    tpl ← ask (get_template s.tenant_id i.template_id)
    let channel_id = if i.channel_id == "" then strp tpl.channel_id else i.channel_id
    ensure (not (channel_id == "")) (invalid "the template has no channel" "channel_id")
    d' ← require s "channel" channel_id "use" now
    r ← ask (resolve x.codec x.providers s.tenant_id channel_id)
    ensure (r.0.kind == tpl.channel_type) type_mismatch
    ensure r.0.enabled channel_disabled
    ask (λ _. map_err recipient_error (validate_recipient x.address r.0.kind i.recipient))
    compiled ←
        ask
          (λ _. map_err validation_error (parse x.engine tpl.subject tpl.body (kind_for r.0.kind)))
    ask (λ _. check_given i.variables compiled)
    pure (record {
      channel = r.0;
      settings = r.1;
      own = r.2;
      template_id = some tpl.id;
      template_key = none;
      recipient = i.recipient;
      test = false;
      secrets = secret_values tpl.secret_variables i.variables;
      rendered = render_redacted x.engine compiled i.variables tpl.secret_variables;
    })

  unfoldable pub send : Subjects → SendInput → ℕ → ℕ → Act LogView
  send s i now at = do d ← prepare s i now; limit x s now; deliver x s d now at

  unfoldable pub send_test : Subjects → String → String → ℕ → ℕ → Act LogView
  send_test s channel_id to now at = do
    d ← require s "channel" channel_id "write" now
    r ← ask (resolve x.codec x.providers s.tenant_id channel_id)
    ask (λ _. map_err recipient_error (validate_recipient x.address r.0.kind to))
    limit x s now
    deliver x s
        (record {
          channel = r.0;
          settings = r.1;
          own = r.2;
          template_id = none;
          template_key = none;
          recipient = to;
          test = true;
          secrets = [];
          rendered = ok (test_output, test_output);
        })
        now at

  abbrev not_configured : Err → Err
  not_configured e = if is_not_found e then email_not_configured else e

  abbrev chosen : String → String → Store → Result String
  chosen tid id m =
      if id == ""
      then bind_result (map_err not_configured (default_email_channel tid m))
          (λ (c : Channel). ok c.id)
      else ok id

  unfoldable pub custom_channel : String → String → Store → Result (Channel × Settings × Bool)
  unfolding is_uuid
  custom_channel tid id m =
      bind_result (chosen tid id m)
        (λ cid. if is_uuid cid then resolve x.codec x.providers tid cid m else err not_found)

  abbrev custom_text : CustomInput → ℕ → String
  custom_text i now = or_default i.body (
      append
        "This is a scheduled test email from the GoTangra notification service.\n\nExecution ID: "
        (append i.correlation_id (
          append "\nSent at:      " (
            append (x.stamp now)
              "\n\nIf you received this message, your email channel is configured correctly."))))

  unfoldable pub custom_output : CustomInput → ℕ → Output
  custom_output i now = record {
    subject = or_default i.subject default_custom_subject;
    body =
        append "<div style=\"white-space: pre-wrap\">"
          (append (x.engine.escape_html (custom_text i now)) "</div>");
  }

  unfoldable pub send_custom : Subjects → CustomInput → ℕ → ℕ → Act LogView
  unfolding custom_output is_uuid has_line_break
  send_custom s i now at = do
    let o = custom_output i now
    ensure (is_uuid s.tenant_id) (invalid "tenant_id must be a uuid" "tenant_id")
    ensure (not (ltb 200 (x.runes o.subject)) && not (has_line_break o.subject))
        (invalid "subject must be one line of at most 200 characters" "subject")
    ensure (not (ltb 10000 (x.runes i.body))) (invalid "body exceeds 10000 characters" "body")
    ask (λ _. map_err recipient_error (validate_recipient x.address "email" i.recipient))
    r ← ask (custom_channel s.tenant_id i.channel_id)
    ensure (r.0.kind == "email") type_mismatch
    ensure r.0.enabled channel_disabled
    limit x s now
    deliver x s
        (record {
          channel = r.0;
          settings = r.1;
          own = r.2;
          template_id = none;
          template_key = none;
          recipient = i.recipient;
          test = false;
          secrets = [];
          rendered = ok (o, o);
        })
        now at
