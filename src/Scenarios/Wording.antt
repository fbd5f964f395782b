-- ===== src/Scenarios/Wording.antt =====
-- internal/notify: the log read by its sender, and the wording of a system template.
use go_tangra_notification.Prelude.{
  ◌≡◌, refl, true, false, none, some, [], ◌∷◌, lookup, insert, values, any_entry, all, ok,
}
use go_tangra_notification.Store.{LogRow, LogFilter, Template}
use go_tangra_notification.Memstore.{empty, failing, failing_read, owned}
use go_tangra_notification.Memstore.Logs.{log_page, log_selected}
use go_tangra_notification.Memstore.Grants.{get_template, decorate, joined_name, grants_on_resource}
use go_tangra_notification.Memstore.Templates.{
  update_template, updated_template, template_clashes_with,
}
use go_tangra_notification.Authz.Decide.{
  actor_id, decide, start, fold_grants, is_admin, has, of_relation, valid_permission,
  valid_resource_type,
}
use go_tangra_notification.Authz.Check.{check, require, evaluate, locate}
use go_tangra_notification.Messages.Input.{user_ptr}
use go_tangra_notification.Notify.Render.{
  parse, validate_refs, check_declared, check_refs, valid_name, kind_for,
}
use go_tangra_notification.Notify.Templates.{
  TemplateView, update_system, touches_fixed, check_wording, first_unreferenced, get_view,
  template_view,
}
use go_tangra_notification.Notify.Deliver.{LogView, log_view}
use go_tangra_notification.Notify.Log.{list_log, log_filter, window}
use go_tangra_notification.Notify.Scope.{is_own, list_log_own}
use go_tangra_notification.Notify.Seed.{SystemTemplate, ensure_system_templates}
use go_tangra_notification.Notify.Wording.{SameWording, ensure_system_templates_kept}
use go_tangra_notification.Scenarios.Messaging.{ann, world}
use go_tangra_notification.Scenarios.Settings.{engine}
use go_tangra_notification.Scenarios.Sending.{
  invite, office, delivered, stocked, same_id, admin, rewording, invite_there,
}

abbrev wide : LogFilter
wide = record {
  channel_id = "";
  template_id = "";
  recipient = "";
  status = "";
  sender_id = "";
  start = 1;
  end = 8;
  cursor_ts = 0;
  cursor_id = "";
  limit = 10;
}

abbrev listed_row : LogRow
listed_row = record delivered { rendered_body = "" }

one_entry :
    list_log (λ t. t) (λ n. "") (λ t. none) ann wide false 9 stocked
    ≡ ok (log_view listed_row ∷ [], "")
unfolding list_log log_filter window log_page log_selected log_view values lookup failing_read
    actor_id empty
one_entry = refl

list_log_own_example : all (λ (v : LogView). is_own ann v.row) (log_view listed_row ∷ []) ≡ true
list_log_own_example =
    list_log_own (λ t. t) (λ n. "") (λ t. none) ann wide 9 stocked (log_view listed_row ∷ []) ""
      one_entry

week : window 0 0 700000000000000 ≡ ok (95260000000000, 700060000000000)
unfolding window
week = refl

abbrev built_in : SystemTemplate
built_in = record {
  key = "auth.invite";
  subject = "You are invited";
  body = "{{.link}}";
  variables = "link" ∷ [];
  required = "link" ∷ [];
  secret = "link" ∷ [];
}

ensure_system_templates_kept_example :
    (b : Template) × (lookup "s"
        (ensure_system_templates same_id
          (λ t. t)
          "platform"
          (built_in ∷ [])
          (world office)).1.store.templates
      ≡ some b)
    × SameWording invite b
ensure_system_templates_kept_example =
    ensure_system_templates_kept same_id (λ t. t) "platform" (built_in ∷ []) (world office) "s"
      invite invite_there (λ n. refl)

abbrev reworded : TemplateView
reworded = record {
  row = record invite { subject = "Welcome"; updated_by = some "root"; updated_at = 5 };
  permissions = record { read = true; write = true; delete = false; share = true; use_ = true };
  edited = true;
}

accepted :
    (update_system engine same_id (λ t. t) admin invite rewording 6 (world office)).0 ≡ ok reworded
unfolding update_system lookup empty update_template touches_fixed check_wording parse validate_refs
    check_declared check_refs valid_name first_unreferenced kind_for owned failing failing_read
    updated_template template_clashes_with get_view template_view require check evaluate locate
    get_template decorate joined_name decide start fold_grants is_admin has of_relation
    grants_on_resource valid_permission valid_resource_type user_ptr any_entry insert values
accepted = refl
