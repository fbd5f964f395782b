-- ===== src/Scenarios/Complete.antt =====
-- internal/notify/send.go: a send from its checks to the log.
use go_tangra_notification.Prelude.{
  ◌≡◌, refl, false, none, some, [], ◌∷◌, lookup, insert, values, ok,
}
use go_tangra_notification.Memstore.{empty, failing, failing_read, owned}
use go_tangra_notification.Memstore.Grants.{
  get_channel, get_template, with_count, template_count, decorate, joined_name, grants_on_resource,
}
use go_tangra_notification.Authz.Decide.{
  Subjects, decide, start, fold_grants, is_admin, has, of_relation, valid_permission,
  valid_resource_type,
}
use go_tangra_notification.Authz.Check.{check, require, evaluate, locate}
use go_tangra_notification.Notify.Settings.{number, decode, associated}
use go_tangra_notification.Notify.Envelope.{unseal, unseal_rest}
use go_tangra_notification.Notify.Channels.{open_settings, provider, resolve}
use go_tangra_notification.Notify.Render.{
  valid_name, parse, render, render_redacted, masked, any_secret, scrub_list, scrub_text,
  first_missing, value_of, kind_for,
}
use go_tangra_notification.Notify.Deliver.{Dispatch, secret_values}
use go_tangra_notification.Notify.Outcome.{stamped, verdict, mails_after, outcome_view}
use go_tangra_notification.Notify.Send.{
  check_variables, check_entries, validate_recipient, has_break, check_given, prepare, send,
}
use go_tangra_notification.Notify.Complete.{send_completes}
use go_tangra_notification.Scenarios.Messaging.{world}
use go_tangra_notification.Scenarios.Settings.{mailer}
use go_tangra_notification.Scenarios.Sending.{setup, office, order, office_works}

abbrev boss : Subjects
boss = record { tenant_id = "acme"; user_id = "boss"; roles = "owner" ∷ []; service = "" }

abbrev prepared : Dispatch
prepared = record {
  channel = record mailer { template_count = 1 };
  settings = ("port", number 25) ∷ [];
  own = false;
  template_id = some "t";
  template_key = none;
  recipient = "bob@example.org";
  test = false;
  secrets = "abc" ∷ [];
  rendered = ok (
    record { subject = "Hello"; body = "abc" },
    record { subject = "Hello"; body = "[redacted]" },
  );
}

passes : prepare setup boss order 6 (world office) ≡ (ok prepared, world office)
unfolding prepare lookup insert values empty failing failing_read owned get_channel get_template
    with_count template_count decorate joined_name grants_on_resource decide start fold_grants
    is_admin has of_relation valid_permission valid_resource_type check require evaluate locate
    decode associated unseal unseal_rest open_settings provider resolve valid_name parse render
    render_redacted masked any_secret scrub_list scrub_text first_missing value_of kind_for
    secret_values check_variables check_entries validate_recipient has_break check_given
passes = refl

send_completes_example :
    ((send setup boss order 6 7 (world office)).0
      ≡ ok (outcome_view setup boss prepared "" 6 7 (verdict setup prepared (world office))))
    × (lookup "" (send setup boss order 6 7 (world office)).1.store.logs
        ≡ some (
            stamped 5
              (outcome_view setup boss prepared "" 6 7
                (verdict setup prepared (world office))).row))
    × ((send setup boss order 6 7 (world office)).1.mails
        ≡ mails_after setup prepared (world office))
    × ((world office).mails ≡ [])
unfolding empty
send_completes_example =
    send_completes setup boss order 6 7 (world office) (world office) prepared passes refl
      office_works
