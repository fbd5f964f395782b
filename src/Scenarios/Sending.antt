-- ===== src/Scenarios/Sending.antt =====
-- internal/notify: a template sent, a system template, and the channels of a tenant.
use Prim.Native.String.{String}
use go_tangra_notification.Prelude.{
  ℕ, ◌≡◌, ◌⊎◌, refl, true, false, none, some, List, [], ◌∷◌, ◌==◌, ==_iff, lookup, ok, arith, leb,
}
use go_tangra_notification.Store.{Template, LogRow}
use go_tangra_notification.Memstore.{Store, empty}
use go_tangra_notification.Memstore.Defaults.{OneDefault}
use go_tangra_notification.Memstore.Finality.{
  LogCall, outcome_call, expire_call, run_log_calls, run_log_calls-lookup,
}
use go_tangra_notification.Authz.Decide.{Subjects}
use go_tangra_notification.Notify.Settings.{number}
use go_tangra_notification.Notify.Channels.{ChannelInput}
use go_tangra_notification.Notify.Templates.{TemplateInput}
use go_tangra_notification.Notify.Deliver.{Setup, Dispatch, deliver}
use go_tangra_notification.Notify.Outcome.{
  Working, stamped, verdict, mails_after, outcome_view, deliver_logs,
}
use go_tangra_notification.Notify.Send.{SendInput}
use go_tangra_notification.Notify.Passing.{Untouched}
use go_tangra_notification.Notify.SystemSend.{KeyInput, send_key}
use go_tangra_notification.Notify.Namespace.{KeyPassed, send_key_passes}
use go_tangra_notification.Notify.Defaults.Calls.{
  ChannelCall, create_call, remove_call, ensure_call, run_calls, run_calls-OneDefault,
}
use go_tangra_notification.Notify.Survival as Survival
use go_tangra_notification.Notify.Survival.Calls as TemplateCalls
use go_tangra_notification.Scenarios.Messaging.{ann, ids, world}
use go_tangra_notification.Scenarios.Settings.{codec, providers, engine, mailer}

abbrev pub setup : Setup
setup = record {
  codec = codec;
  providers = providers;
  engine = engine;
  limiter = none;
  per_tenant = 100;
  per_sender = 10;
  system = 50;
  platform_tenant = "platform";
  new_id = ids;
  lower = λ t. t;
  base64 = λ t. "";
  trim = λ t. t;
  runes = λ t. 0;
  stamp = λ t. "";
  address = λ t. true;
  describe = λ e. "failed";
  transient = λ e. false;
}

abbrev pub greeting : Template
greeting = record {
  id = "t";
  tenant_id = "acme";
  name = "Greeting";
  channel_id = some "c";
  channel_type = "email";
  subject = "Hello";
  body = "{{.link}}";
  variables = "link" ∷ [];
  is_default = false;
  created_by = some "ann";
  updated_by = some "ann";
  created_at = 1;
  updated_at = 1;
  channel_name = "";
  system_key = none;
  builtin_subject = "";
  builtin_body = "";
  required_variables = [];
  secret_variables = "link" ∷ [];
}

abbrev pub invite : Template
invite = record greeting {
  id = "s";
  tenant_id = "platform";
  channel_id = none;
  system_key = some "auth.invite";
  required_variables = "link" ∷ [];
}

abbrev pub office : Store
office = record (empty 5) {
  channels = ("c", mailer) ∷ [];
  templates = ("t", greeting) ∷ ("s", invite) ∷ [];
}

abbrev parcel : Dispatch
parcel = record {
  channel = mailer;
  settings = ("port", number 25) ∷ [];
  own = false;
  template_id = some "t";
  template_key = none;
  recipient = "bob@example.org";
  test = false;
  secrets = "abc" ∷ [];
  rendered = ok (
    record { subject = "Hello"; body = "abc" },
    record { subject = "Hello"; body = "[redacted]" },
  );
}

pub office_works : Working office
unfolding empty lookup
office_works = (refl, refl)

deliver_logs_example :
    ((deliver setup ann parcel 6 7 (world office)).0
      ≡ ok (outcome_view setup ann parcel "" 6 7 (verdict setup parcel (world office))))
    × (lookup "" (deliver setup ann parcel 6 7 (world office)).1.store.logs
        ≡ some (
            stamped 5
              (outcome_view setup ann parcel "" 6 7 (verdict setup parcel (world office))).row))
    × ((k : String)
        → "" == k ≡ false
        → lookup k (deliver setup ann parcel 6 7 (world office)).1.store.logs
          ≡ lookup k office.logs)
    × ((deliver setup ann parcel 6 7 (world office)).1.mails
        ≡ mails_after setup parcel (world office))
unfolding empty
deliver_logs_example = deliver_logs setup ann parcel 6 7 (world office) office_works

abbrev pub order : SendInput
order = record {
  template_id = "t";
  channel_id = "";
  recipient = "bob@example.org";
  variables = ("link", "abc") ∷ [];
}

-- A limiter that lets ten sends through.
abbrev counting : Setup
counting = record setup { limiter = some (λ n kind subject most now. ok (leb 10 n)) }

abbrev invitation : KeyInput
invitation = record {
  key = "auth.invite";
  recipient = "bob@example.org";
  variables = ("link", "abc") ∷ [];
}

send_key_passes_example :
    Untouched (world office) (send_key setup ann "auth" invitation 6 7 (world office)).1
    ⊎ KeyPassed setup "auth" invitation office
send_key_passes_example = send_key_passes setup ann "auth" invitation 6 7 (world office)

abbrev pub delivered : LogRow
delivered = record {
  id = "l";
  tenant_id = "acme";
  created_at = 6;
  channel_id = "c";
  channel_type = "email";
  template_id = some "t";
  template_key = none;
  recipient = "bob@example.org";
  rendered_subject = "Hello";
  rendered_body = "[redacted]";
  status = "sent";
  error = "";
  sender_kind = "user";
  sender_id = "ann";
  test = false;
  sent_at = some 7;
}

abbrev pub stocked : Store
stocked = record office { logs = ("l", delivered) ∷ [] }

abbrev meddling : List LogCall
meddling = outcome_call "acme" "l" "failed" "late" "" "" none ∷ expire_call 100 ∷ []

there : lookup "l" stocked.logs ≡ some delivered
unfolding lookup
there = refl

run_log_calls-lookup_example : lookup "l" (run_log_calls meddling stocked).logs ≡ some delivered
run_log_calls-lookup_example = run_log_calls-lookup meddling stocked "l" delivered there refl

abbrev second_mailer : ChannelInput
second_mailer = record {
  name = "Other";
  kind = "email";
  settings = some (("port", number 25) ∷ []);
  enabled = true;
  is_default = true;
}

abbrev moves : List ChannelCall
moves = create_call ann second_mailer 6 ∷ remove_call ann "c" 7 ∷ ensure_call "acme" none ∷ []

office_OneDefault : OneDefault office.channels
unfolding lookup
office_OneDefault i j a b x y r = ground (arith, x, y, ==_iff "c" i, ==_iff "c" j)

run_calls-OneDefault_example :
    OneDefault (run_calls codec providers ids (λ t. t) moves (world office)).store.channels
run_calls-OneDefault_example =
    run_calls-OneDefault codec providers ids (λ t. t) moves (world office) office_OneDefault

abbrev pub rewording : TemplateInput
rewording = record {
  name = "";
  channel_id = "";
  subject = "Welcome";
  body = "{{.link}}";
  variables = none;
  is_default = false;
}

abbrev pub admin : Subjects
admin = record { tenant_id = "platform"; user_id = "root"; roles = "owner" ∷ []; service = "" }

abbrev edits : List TemplateCalls.TemplateCall
edits =
    TemplateCalls.update_call admin "s" rewording 6
    ∷ TemplateCalls.remove_call admin "s" 7
    ∷ TemplateCalls.restore_call admin "s" 8
    ∷ []

pub invite_there : lookup "s" office.templates ≡ some invite
unfolding lookup
invite_there = refl

abbrev pub same_id : ℕ → String
same_id n = "i"

run_template_calls_kept_example :
    (b : Template) × (lookup "s"
        (TemplateCalls.run_template_calls engine same_id
          (λ t. t)
          edits
          (world office)).store.templates
      ≡ some b)
    × Survival.SameSystem invite b
run_template_calls_kept_example =
    TemplateCalls.run_template_calls_kept engine same_id (λ t. t) "s" invite "auth.invite" edits
      (world office) invite_there refl (λ n. refl)
