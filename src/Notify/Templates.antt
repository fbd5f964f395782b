-- ===== src/Notify/Templates.antt =====
-- internal/notify/templates.go: the operations on templates. `now` is the reading of the
-- evaluator's clock.
use go_tangra_notification.Prelude.{
  ℕ, Bool, true, false, Option, none, some, List, [], ◌∷◌, String, len, ◌&&◌, ◌||◌, not,
  if◌then◌else◌, ◌==◌, nat_eq, ltb, strp, length, contains, sort_by, str_lt, Result, ok, err, Err,
  invalid, system_template, not_system_template, system_template_field, missing_required, map_err,
  syntax, undeclared, failed_render, template_size, pure, ensure, bind_result, ◌>>=◌, ◌>>◌,
}
use go_tangra_notification.Store.{Template}
use go_tangra_notification.Memstore.Grants.{get_channel, get_template}
use go_tangra_notification.Memstore.Messages.{is_some}
use go_tangra_notification.Memstore.Templates.{
  clear_default_template, insert_template, update_template, delete_template,
}
use go_tangra_notification.World.{Act, Event, st, ask, emit, draw_id, transaction}
use go_tangra_notification.Authz.Decide.{Subjects, Permissions, actor_kind, actor_id}
use go_tangra_notification.Authz.Check.{require, grant_owner, drop_resource}
use go_tangra_notification.Messages.Input.{user_ptr}
use go_tangra_notification.Notify.Render.{Engine, parse, validate_refs, kind_for}

-- `variables` is none where the request leaves them out.
pub record TemplateInput : Type 0 where
  pub name : String
  pub channel_id : String
  pub subject : String
  pub body : String
  pub variables : Option (List String)
  pub is_default : Bool

abbrev pub listed : Option (List String) → List String
listed none = []
listed (some l) = l

pub record TemplateView : Type 0 where
  pub row : Template
  pub permissions : Permissions
  pub edited : Bool

-- A system template is never deleted.
unfoldable pub template_view : Template → Permissions → TemplateView
template_view t p = elim t.system_key [
  | none ↦ record { row = t; permissions = p; edited = false }
  | some k ↦ record {
    row = t;
    permissions = record p { delete = false };
    edited = not (t.subject == t.builtin_subject) || not (t.body == t.builtin_body);
  }
]

unfoldable pub template_event : String → Subjects → String → Event
template_event kind s id = record {
  kind = kind;
  tenant_id = s.tenant_id;
  actor_kind = actor_kind s;
  actor_id = actor_id s;
  subject_kind = "template";
  subject_id = id;
  outcome = "ok";
  reason = "";
}

abbrev same_list : List String → List String → Bool
same_list [] [] = true
same_list (a ∷ xs) (b ∷ ys) = a == b && same_list xs ys
same_list _ _ = false

unfoldable pub same_set : List String → List String → Bool
same_set a b = same_list (sort_by str_lt a) (sort_by str_lt b)

-- The first required variable that the text does not refer to.
unfoldable pub first_unreferenced : List String → List String → Option String
first_unreferenced refs [] = none
first_unreferenced refs (r ∷ rs) = if contains refs r then first_unreferenced refs rs else some r

-- A field of a system template that the request would change.
unfoldable pub touches_fixed : Template → TemplateInput → Bool
touches_fixed row i =
    (not (i.name == "") && not (i.name == row.name))
    || not (i.channel_id == "")
    || i.is_default
    || elim i.variables [ none ↦ false | some l ↦ not (same_set l row.variables) ]

-- The row that Create inserts.
unfoldable pub new_template : Subjects → TemplateInput → String → String → Template
new_template s i kind id = record {
  id = id;
  tenant_id = s.tenant_id;
  name = i.name;
  channel_id = some i.channel_id;
  channel_type = kind;
  subject = i.subject;
  body = i.body;
  variables = listed i.variables;
  is_default = i.is_default;
  created_by = user_ptr s;
  updated_by = user_ptr s;
  created_at = 0;
  updated_at = 0;
  channel_name = "";
  system_key = none;
  builtin_subject = "";
  builtin_body = "";
  required_variables = [];
  secret_variables = [];
}

-- The row that Update writes.
unfoldable pub rewritten_template : Subjects → TemplateInput → String → Template → Template
rewritten_template s i kind row = record row {
  name = i.name;
  channel_id = some i.channel_id;
  channel_type = kind;
  subject = i.subject;
  body = i.body;
  variables = listed i.variables;
  is_default = i.is_default;
  updated_by = user_ptr s;
}

unfoldable pub get_view : Subjects → String → ℕ → Act TemplateView
get_view s id now = do
  d ← require s "template" id "read" now
  row ← ask (get_template s.tenant_id id)
  pure (template_view row d.permissions)

-- `validationError`: what the client may see of a failure to render.
unfoldable pub validation_error : Err → Err
validation_error (syntax m) = invalid "template syntax error" m
validation_error (undeclared v) = invalid "template references an undeclared variable" v
validation_error (failed_render m) = invalid "template failed to render" m
validation_error template_size = invalid "render: template too large" ""
validation_error e = e

module _ (e : Engine) where
  unfoldable pub validate_template : TemplateInput → String → Result (Unit {0})
  validate_template i kind =
      if nat_eq (len i.name) 0 || ltb 100 (len i.name)
      then err (invalid "name must be 1-100 characters" "name")
      else if ltb 50 (length (listed i.variables))
      then err (invalid "at most 50 variables" "variables")
      else map_err validation_error (
          bind_result (parse e i.subject i.body (kind_for kind))
            (λ c. validate_refs c (listed i.variables)))

  -- New wording of a system template: valid, and with every required variable.
  unfoldable pub check_wording : Template → TemplateInput → Result (Unit {0})
  check_wording row i =
      bind_result (map_err validation_error (parse e i.subject i.body (kind_for row.channel_type)))
        (λ c. bind_result (map_err validation_error (validate_refs c row.variables)) (λ _.
          elim (first_unreferenced c.refs row.required_variables) [
            | none ↦ ok tt
            | some r ↦ err (missing_required r)
          ]))

module _ (e : Engine) (new_id : ℕ → String) (lower : String → String) where
  unfoldable pub insert_owned_template : Subjects → Template → Act (Unit {0})
  insert_owned_template s t = do
    if t.is_default
        then st (clear_default_template s.tenant_id (strp t.channel_id) t.id)
        else pure tt
    st (insert_template lower t)
    grant_owner new_id s.tenant_id "template" t.id s.user_id

  unfoldable pub create_template : Subjects → TemplateInput → ℕ → Act TemplateView
  create_template s i now = do
    ensure (not (i.channel_id == "")) (invalid "channel_id is required" "channel_id")
    d ← require s "channel" i.channel_id "read" now
    ch ← ask (get_channel s.tenant_id i.channel_id)
    ask (λ _. validate_template e i ch.kind)
    id ← draw_id new_id
    transaction (insert_owned_template s (new_template s i ch.kind id))
    emit (template_event "template_created" s id)
    get_view s id now

  unfoldable pub rewrite_template : Subjects → String → Template → Act (Unit {0})
  rewrite_template s id t = do
    if t.is_default then st (clear_default_template s.tenant_id (strp t.channel_id) id) else pure tt
    st (update_template lower t)

  unfoldable pub update_system : Subjects → Template → TemplateInput → ℕ → Act TemplateView
  update_system s row i now = do
    ensure (not (touches_fixed row i)) system_template_field
    ask (λ _. check_wording e row i)
    st (
        update_template lower
          (record row { subject = i.subject; body = i.body; updated_by = user_ptr s }))
    emit (template_event "template_updated" s row.id)
    get_view s row.id now

  abbrev pub readable_channel : Subjects → Template → String → ℕ → Act (Unit {0})
  readable_channel s row ch now =
      if ch == strp row.channel_id
      then pure tt
      else (require s "channel" ch "read" now >>= λ d. pure tt)

  unfoldable pub update_plain : Subjects → String → Template → TemplateInput → ℕ → Act TemplateView
  update_plain s id row i now = do
    ensure (not (i.channel_id == "")) (invalid "channel_id is required" "channel_id")
    readable_channel s row i.channel_id now
    ch ← ask (get_channel s.tenant_id i.channel_id)
    ask (λ _. validate_template e i ch.kind)
    transaction (rewrite_template s id (rewritten_template s i ch.kind row))
    emit (template_event "template_updated" s id)
    get_view s id now

  unfoldable pub update_any : Subjects → String → TemplateInput → ℕ → Act TemplateView
  update_any s id i now = do
    d ← require s "template" id "write" now
    row ← ask (get_template s.tenant_id id)
    if is_some row.system_key then update_system s row i now else update_plain s id row i now

  unfoldable pub restore : Subjects → String → ℕ → Act TemplateView
  restore s id now = do
    d ← require s "template" id "write" now
    row ← ask (get_template s.tenant_id id)
    ensure (is_some row.system_key) not_system_template
    st (
        update_template lower (record row {
          subject = row.builtin_subject;
          body = row.builtin_body;
          updated_by = user_ptr s;
        }))
    emit (template_event "template_updated" s id)
    get_view s id now

abbrev pub erase_owned_template : String → String → Act (Unit {0})
erase_owned_template tid id = do st (delete_template tid id); st (drop_resource tid "template" id)

unfoldable pub remove_template : Subjects → String → ℕ → Act (Unit {0})
remove_template s id now = do
  d ← require s "template" id "delete" now
  row ← ask (get_template s.tenant_id id)
  ensure (not (is_some row.system_key)) system_template
  transaction (erase_owned_template s.tenant_id id)
  emit (template_event "template_deleted" s id)
