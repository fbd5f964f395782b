-- ===== src/Notify/Survival.antt =====
-- internal/notify/templates.go: what every sequence of calls leaves of a system template.
pub mod Calls
use go_tangra_notification.Prelude.{
  ℕ, ◌≡◌, refl, sym, subst, ◌∙◌, Bool, true, false, Option, none, some, List, [], ◌∷◌, String, ◌&&◌,
  ◌||◌, not, if◌then◌else◌, ◌==◌, ==_iff, lookup, insert, erase, lookup-insert, lookup-erase,
  map_option, update_entries, Option-cases, Bool-cases, inl, inr, arith, Exec, Result, ok, err, Err,
  any, values, any_entry, strp, ensure, pure, invalid, ◌>>=◌, ◌>>◌, system_template,
  system_template_field, not_system_template,
}
use go_tangra_notification.Store.{Template}
use go_tangra_notification.Memstore.{Store, failing, failing_read, owned, owned_inv}
use go_tangra_notification.Memstore.Grants.{get_template, get_channel, decorate}
use go_tangra_notification.Memstore.Messages.{is_some}
use go_tangra_notification.Memstore.Templates.{
  channel_missing, clear_template, clear_default_template, template_clashes, insert_template,
  template_clashes_with, updated_template, update_template_found, update_template,
  delete_template_found, delete_template,
}
use go_tangra_notification.Memstore.Defaults.{failing_keeps, guarded_keeps, lookup-update_entries}
use go_tangra_notification.World.{World, Act, st, ask, emit, draw_id, transaction}
use go_tangra_notification.World.Holds.{
  Keeps, Stable, silent, bound, asked, asked_of, drawn, followed, ensured, branch, stored, required,
  transacted, dropped, owner_granted,
}
use go_tangra_notification.Authz.Decide.{Subjects}
use go_tangra_notification.Authz.Check.{require, grant_owner, drop_resource}
use go_tangra_notification.Messages.Input.{user_ptr}
use go_tangra_notification.Notify.Render.{Engine}
use go_tangra_notification.Notify.Templates.{
  TemplateInput, get_view, template_event, validate_template, check_wording, touches_fixed,
  new_template, rewritten_template, insert_owned_template, create_template, rewrite_template,
  readable_channel, update_system, update_plain, update_any, restore, erase_owned_template,
  remove_template,
}

-- The parts of a system template that its owning service relies on.
pub record SameSystem (a b : Template) : Type 0 where
  pub key : b.system_key ≡ a.system_key
  pub required_same : b.required_variables ≡ a.required_variables
  pub secret_same : b.secret_variables ≡ a.secret_variables
  pub subject_same : b.builtin_subject ≡ a.builtin_subject
  pub body_same : b.builtin_body ≡ a.builtin_body

module _ (k : String) (a : Template) where
  -- The row is there, with these parts.
  abbrev pub Survives : Store → Type 0
  Survives m = (b : Template) × (lookup k m.templates ≡ some b) × SameSystem a b

  surviving : Stable Survives
  surviving m n c t (b, l, same) = (b, subst (λ ts. lookup k ts ≡ some b) (sym t) l, same)

  clear_kept :
      (tid ch except : String) (m : Store)
      → Survives m
      → Survives (clear_default_template tid ch except m).1
  unfolding clear_default_template clear_template
  clear_kept tid ch except m (b, l, same) =
      failing_keeps Survives "ClearDefaultTemplate" _ m (b, l, same)
        (
          clear_template tid ch except k b,
          ground (arith, l, lookup-update_entries (clear_template tid ch except) m.templates k),
          record {
            key = ground (arith, same.key);
            required_same = ground (arith, same.required_same);
            secret_same = ground (arith, same.secret_same);
            subject_same = ground (arith, same.subject_same);
            body_same = ground (arith, same.body_same);
          },
        )

  insert_kept :
      (lower : String → String) (t : Template) (m : Store)
      → t.id == k ≡ false
      → Survives m
      → Survives (insert_template lower t m).1
  unfolding insert_template
  insert_kept lower t m d (b, l, same) =
      failing_keeps Survives "InsertTemplate" _ m (b, l, same)
        (guarded_keeps Survives
          (channel_missing m t || any (template_clashes lower t) (values m.templates)) _ _
          (λ x. (b, l, same))
          (λ x. (
            b,
            ground (
              arith,
              l,
              d,
              lookup-insert t.id k (record t { created_at = m.now; updated_at = m.now })
                  m.templates,
            ),
            same,
          )))

  rewritten_row :
      (lower : String → String) (t old b : Template) (m : Store)
      → lookup t.id m.templates ≡ some old
      → lookup k m.templates ≡ some b
      → SameSystem a b
      → Survives (record m { templates = insert t.id (updated_template m.now t old) m.templates })
  unfolding updated_template
  rewritten_row lower t old b m o l same = elim (Bool-cases (t.id == k)) [
    | inr e ↦ (
      b,
      ground (arith, l, e, lookup-insert t.id k (updated_template m.now t old) m.templates),
      same,
    )
    | inl e ↦
        let same' : b ≡ old = ground (arith, o, l, ==_iff t.id k) in
        (
          updated_template m.now t old,
          ground (arith, e, lookup-insert t.id k (updated_template m.now t old) m.templates),
          subst (λ z. SameSystem a (updated_template m.now t z)) {x = b} {y = old} same'
              (record {
                key = same.key;
                required_same = same.required_same;
                secret_same = same.secret_same;
                subject_same = same.subject_same;
                body_same = same.body_same;
              }),
        )
  ]

  update_found_kept :
      (lower : String → String) (t : Template) (m : Store) (o : Option Template)
      → owned (λ (x : Template). x.tenant_id) t.tenant_id t.id m.templates ≡ o
      → Survives m
      → Survives (update_template_found lower t m o).1
  update_found_kept lower t m none h alive = alive
  update_found_kept lower t m (some old) h (b, l, same) =
      guarded_keeps Survives (any_entry (template_clashes_with lower t) m.templates) _ _
        (λ x. (b, l, same))
        (λ x.
          rewritten_row lower t old b m
            (owned_inv (λ (x : Template). x.tenant_id) t.tenant_id t.id m.templates h).0 l same)

  update_kept :
      (lower : String → String) (t : Template) (m : Store)
      → Survives m
      → Survives (update_template lower t m).1
  unfolding update_template
  update_kept lower t m alive =
      failing_keeps Survives "UpdateTemplate" _ m alive (update_found_kept lower t m _ refl alive)

  delete_found_kept :
      (id : String) (m : Store) (o : Option Template)
      → id == k ≡ false
      → Survives m
      → Survives (delete_template_found id m o).1
  delete_found_kept id m none d alive = alive
  delete_found_kept id m (some t) d (b, l, same) =
      (b, ground (arith, l, d, lookup-erase id k m.templates), same)

  delete_kept :
      (tid id : String) (m : Store)
      → id == k ≡ false
      → Survives m
      → Survives (delete_template tid id m).1
  unfolding delete_template
  delete_kept tid id m d alive =
      failing_keeps Survives "DeleteTemplate" _ m alive (delete_found_kept id m _ d alive)

  still_keyed :
      (tid : String) (m : Store) (row : Template) (key : String)
      → a.system_key ≡ some key
      → get_template tid k m ≡ ok row
      → Survives m
      → is_some row.system_key ≡ true
  unfolding get_template failing_read owned decorate
  still_keyed tid m row key e h (b, l, same) = ground (arith, e, l, same.key)
