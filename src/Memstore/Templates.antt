-- ===== src/Memstore/Templates.antt =====
-- internal/memstore/memstore.go: the writes and listings of templates.
use go_tangra_notification.Prelude.{
  ℕ, Bool, true, false, Option, none, some, List, [], ◌∷◌, String, ◌&&◌, ◌||◌, not, if◌then◌else◌,
  ◌==◌, str_lt, select, sort_by, strp, contains_text, insert, erase, values, any, any_entry,
  update_entries, find, Exec, Result, ok, err, not_found, conflict, modify, map,
}
use go_tangra_notification.Store.{Channel, Template}
use go_tangra_notification.Memstore.Owned.{Store, failing, failing_read, owned}
use go_tangra_notification.Memstore.Grants.{decorate}
use go_tangra_notification.Memstore.Messages.{is_some}
use go_tangra_notification.Memstore.Channels.{at_most}

-- `if t.ChannelID != nil { if c, ok := …; !ok || c.TenantID != t.TenantID { … } }`
unfoldable pub channel_missing : Store → Template → Bool
channel_missing m t = elim t.channel_id [
  | none ↦ false
  | some c ↦ not (is_some (owned (λ (x : Channel). x.tenant_id) t.tenant_id c m.channels))
]

-- Two pointers to the same text.
abbrev pub same_key : Option String → Option String → Bool
same_key (some a) (some b) = a == b
same_key _ _ = false

-- Another default of the same channel.
abbrev pub same_default : Template → Template → Bool
same_default t x =
    t.is_default && x.is_default && is_some t.channel_id && strp x.channel_id == strp t.channel_id

unfoldable pub clear_template : String → String → String → String → Template → Template
clear_template tid ch except id t =
    if t.tenant_id == tid && strp t.channel_id == ch && t.is_default && not (id == except)
    then record t { is_default = false }
    else t

unfoldable pub clear_default_template : String → String → String → Exec Store (Unit {0})
unfolding clear_template
clear_default_template tid ch except =
    failing "ClearDefaultTemplate" (
      modify
        λ m. record m { templates = update_entries (clear_template tid ch except) m.templates })

abbrev pub has_key : String → String → Template → Bool
has_key tid key t = t.tenant_id == tid && elim t.system_key [ none ↦ false | some k ↦ k == key ]

unfoldable pub template_by_key : String → String → Store → Result Template
unfolding decorate
template_by_key tid key = failing_read "TemplateByKey" (λ m.
    elim (find (has_key tid key) m.templates) [ none ↦ err not_found | some t ↦ ok (decorate m t) ])

-- The row that SetTemplateBuiltin leaves.
unfoldable pub rebuilt : ℕ → Template → Template → Template
rebuilt now t old = record old {
  builtin_subject = t.builtin_subject;
  builtin_body = t.builtin_body;
  variables = t.variables;
  required_variables = t.required_variables;
  secret_variables = t.secret_variables;
  updated_at = now;
}

-- The rest of SetTemplateBuiltin, from the look-up on.
abbrev pub set_builtin_found : Template → Store → Option Template → Result (Unit {0}) × Store
set_builtin_found t m none = (err not_found, m)
set_builtin_found t m (some old) =
    if is_some old.system_key
    then (ok tt, record m { templates = insert t.id (rebuilt m.now t old) m.templates })
    else (err not_found, m)

unfoldable pub set_template_builtin : Template → Exec Store (Unit {0})
unfolding rebuilt
set_template_builtin t =
    failing "SetTemplateBuiltin" λ m.
      set_builtin_found t m (owned (λ (x : Template). x.tenant_id) t.tenant_id t.id m.templates)

-- The rest of DeleteTemplate, from the look-up on.
abbrev pub delete_template_found : String → Store → Option Template → Result (Unit {0}) × Store
delete_template_found id m none = (err not_found, m)
delete_template_found id m (some t) = (ok tt, record m { templates = erase id m.templates })

unfoldable pub delete_template : String → String → Exec Store (Unit {0})
delete_template tid id =
    failing "DeleteTemplate"
      λ m. delete_template_found id m (owned (λ (t : Template). t.tenant_id) tid id m.templates)

-- The row that UpdateTemplate leaves.
unfoldable pub updated_template : ℕ → Template → Template → Template
updated_template now t old = record old {
  name = t.name;
  channel_id = t.channel_id;
  channel_type = t.channel_type;
  subject = t.subject;
  body = t.body;
  variables = t.variables;
  is_default = t.is_default;
  updated_by = t.updated_by;
  updated_at = now;
}

module _ (lower : String → String) where
  unfoldable pub template_clashes : Template → Template → Bool
  template_clashes t x =
      x.tenant_id == t.tenant_id
      && (lower x.name == lower t.name || same_default t x || same_key t.system_key x.system_key)

  unfoldable pub insert_template : Template → Exec Store (Unit {0})
  unfolding channel_missing template_clashes
  insert_template t = failing "InsertTemplate" λ m.
      if channel_missing m t || any (template_clashes t) (values m.templates)
      then (err conflict, m)
      else (
        ok tt,
        record m {
          templates = insert t.id (record t { created_at = m.now; updated_at = m.now }) m.templates;
        },
      )

  unfoldable pub template_clashes_with : Template → String → Template → Bool
  template_clashes_with t id x =
      not (id == t.id)
      && x.tenant_id == t.tenant_id
      && (lower x.name == lower t.name || same_default t x)

  -- The rest of UpdateTemplate, from the look-up on.
  abbrev pub update_template_found : Template → Store → Option Template → Result (Unit {0}) × Store
  update_template_found t m none = (err not_found, m)
  update_template_found t m (some old) =
      if any_entry (template_clashes_with t) m.templates
      then (err conflict, m)
      else (ok tt, record m { templates = insert t.id (updated_template m.now t old) m.templates })

  unfoldable pub update_template : Template → Exec Store (Unit {0})
  unfolding template_clashes_with updated_template
  update_template t = failing "UpdateTemplate" λ m.
      update_template_found t m (owned (λ (x : Template). x.tenant_id) t.tenant_id t.id m.templates)

  abbrev template_less : Template → Template → Bool
  template_less a b =
      if lower a.name == lower b.name
      then str_lt a.id b.id
      else str_lt (lower a.name) (lower b.name)

  abbrev bound_to : Option String → Template → Bool
  bound_to none t = true
  bound_to (some c) t = strp t.channel_id == c

  unfoldable pub list_templates :
      String → Option String → String → String → ℕ → Store → Result (List Template)
  unfolding decorate
  list_templates tid ch q after limit = failing_read "ListTemplates" (λ m. ok (
      at_most limit (
        sort_by template_less (
          map (decorate m) (
            select
              (λ (t : Template).
                t.tenant_id == tid
                && bound_to ch t
                && (q == "" || contains_text (lower t.name) (lower q))
                && str_lt (lower after) (lower t.name))
              (values m.templates))))))

  abbrev by_ids : Store → String → List String → List Template
  by_ids m tid [] = []
  by_ids m tid (id ∷ ids) =
      let rest = by_ids m tid ids in
      elim (owned (λ (t : Template). t.tenant_id) tid id m.templates) [
        | none ↦ rest
        | some t ↦ decorate m t ∷ rest
      ]

  unfoldable pub templates_by_ids : String → List String → Store → Result (List Template)
  templates_by_ids tid ids =
      failing_read "TemplatesByIDs" (λ m. ok (sort_by template_less (by_ids m tid ids)))

  unfoldable pub all_templates : String → ℕ → Store → Result (List Template)
  unfolding decorate
  all_templates tid limit = failing_read "AllTemplates" (λ m. ok (
      at_most limit (
        sort_by template_less
          (map (decorate m) (select (λ (t : Template). t.tenant_id == tid) (values m.templates))))))
