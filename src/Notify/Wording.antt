-- ===== src/Notify/Wording.antt =====
-- internal/notify/systemtemplates.go, internal/notify/templates.go: the wording of system templates.
use go_tangra_notification.Prelude.{
  ℕ, ◌≡◌, refl, sym, subst, Bool, true, false, Option, none, some, List, [], ◌∷◌, String, ◌||◌,
  if◌then◌else◌, ◌==◌, ==_iff, lookup, insert, lookup-insert, Option-cases, Bool-cases,
  Result-cases, inl, inr, arith, Result, ok, err, any, values, is_not_found, all, contains,
}
use go_tangra_notification.Store.{Template}
use go_tangra_notification.Memstore.{Store, owned, owned_inv}
use go_tangra_notification.Memstore.Messages.{is_some}
use go_tangra_notification.Memstore.Templates.{
  channel_missing, template_clashes, insert_template, rebuilt, set_builtin_found,
  set_template_builtin, template_by_key,
}
use go_tangra_notification.Memstore.Defaults.{failing_keeps, guarded_keeps}
use go_tangra_notification.World.{World}
use go_tangra_notification.Authz.Decide.{Subjects}
use go_tangra_notification.Notify.Render.{Engine, Compiled, parse, validate_refs, kind_for}
use go_tangra_notification.Notify.Templates.{
  TemplateInput, TemplateView, update_system, touches_fixed, check_wording, first_unreferenced,
}
use go_tangra_notification.Notify.Seed.{
  SystemTemplate, SeedResult, is_current, system_row, refreshed_row, count_created, count_refreshed,
  seed_one, seed_all, ensure_system_templates,
}

pub record SameWording (a b : Template) : Type 0 where
  pub same_subject : b.subject ≡ a.subject
  pub same_body : b.body ≡ a.body

module _ (k : String) (a : Template) where
  -- The row is there, with the same subject and body.
  abbrev pub Worded : Store → Type 0
  Worded m = (b : Template) × (lookup k m.templates ≡ some b) × SameWording a b

  insert_worded :
      (lower : String → String) (t : Template) (m : Store)
      → t.id == k ≡ false
      → Worded m
      → Worded (insert_template lower t m).1
  unfolding insert_template
  insert_worded lower t m d (b, l, same) =
      failing_keeps Worded "InsertTemplate" _ m (b, l, same)
        (guarded_keeps Worded
          (channel_missing m t || any (template_clashes lower t) (values m.templates)) _ _
          (λ x. (b, l, same))
          (λ x. (
            b,
            ground (
              arith,
              l,
              d,
              lookup-insert t.id k (record t { created_at = m.now; updated_at = m.now })
                  m.templates,
            ),
            same,
          )))

  rebuilt_worded :
      (t old b : Template) (m : Store)
      → lookup t.id m.templates ≡ some old
      → lookup k m.templates ≡ some b
      → SameWording a b
      → Worded (record m { templates = insert t.id (rebuilt m.now t old) m.templates })
  unfolding rebuilt
  rebuilt_worded t old b m o l same = elim (Bool-cases (t.id == k)) [
    | inr e ↦
        (b, ground (arith, l, e, lookup-insert t.id k (rebuilt m.now t old) m.templates), same)
    | inl e ↦
        let p : b ≡ old = ground (arith, o, l, ==_iff t.id k) in
        (
          rebuilt m.now t old,
          ground (arith, e, lookup-insert t.id k (rebuilt m.now t old) m.templates),
          subst (λ z. SameWording a (rebuilt m.now t z)) p
              (record { same_subject = same.same_subject; same_body = same.same_body }),
        )
  ]

  found_worded :
      (t : Template) (m : Store) (o : Option Template)
      → owned (λ (x : Template). x.tenant_id) t.tenant_id t.id m.templates ≡ o
      → Worded m
      → Worded (set_builtin_found t m o).1
  found_worded t m none h alive = alive
  found_worded t m (some old) h (b, l, same) =
      guarded_keeps Worded (is_some old.system_key) _ _
        (λ x.
          rebuilt_worded t old b m
            (owned_inv (λ (x : Template). x.tenant_id) t.tenant_id t.id m.templates h).0 l same)
        (λ x. (b, l, same))

  set_builtin_worded : (t : Template) (m : Store) → Worded m → Worded (set_template_builtin t m).1
  unfolding set_template_builtin
  set_builtin_worded t m alive =
      failing_keeps Worded "SetTemplateBuiltin" _ m alive (found_worded t m _ refl alive)

  created_store :
      (tid id : String) (r : SeedResult) (o : Result (Unit {0}) × World)
      → (count_created tid id r o).1.store ≡ o.1.store
  created_store tid id r (ok u, w) = refl
  created_store tid id r (err e, w) = refl

  refreshed_store :
      (r : SeedResult) (o : Result (Unit {0}) × World) → (count_refreshed r o).1.store ≡ o.1.store
  refreshed_store r (ok u, w) = refl
  refreshed_store r (err e, w) = refl

  chosen :
      (b : Bool) (x y : SeedResult × World)
      → Worded x.1.store
      → Worded y.1.store
      → Worded (if b then x else y).1.store
  chosen true x y h h' = h
  chosen false x y h h' = h'

  module _ (new_id : ℕ → String) (lower : String → String)
      (fresh : (n : ℕ) → new_id n == k ≡ false) where
    seed_one_worded :
        (tid : String) (t : SystemTemplate) (r : SeedResult) (o : Result Template) (w : World)
        → Worded w.store
        → Worded (seed_one new_id lower tid t r o w).1.store
    unfolding seed_one system_row
    seed_one_worded tid t r (err e) w alive =
        chosen (is_not_found e) _ _
          (subst Worded (sym (created_store tid (new_id w.drawn) r _))
            (insert_worded lower (system_row tid t (new_id w.drawn)) w.store (fresh w.drawn) alive))
          alive
    seed_one_worded tid t r (ok row) w alive = chosen (is_current t row) _ _ alive (
        subst Worded (sym (refreshed_store r _))
          (set_builtin_worded (refreshed_row t row) w.store alive))

    seed_all_worded :
        (tid : String) (ts : List SystemTemplate) (r : SeedResult) (w : World)
        → Worded w.store
        → Worded (seed_all new_id lower tid ts r w).1.store
    unfolding seed_all
    seed_all_worded tid [] r w alive = alive
    seed_all_worded tid (t ∷ ts) r w alive =
        seed_all_worded tid ts _ _
          (seed_one_worded tid t r (template_by_key tid t.key w.store) w alive)

-- Seeding the system templates never overwrites wording: whatever the list and however many of its
-- entries fail, a template that is there before, under an id that the seeding does not draw, is there
-- afterwards with the same subject and body.
pub ensure_system_templates_kept :
    (new_id : ℕ → String) (lower : String → String) (tid : String) (ts : List SystemTemplate)
    (w : World)
    → (k : String) (a : Template) → lookup k w.store.templates ≡ some a
    → ((n : ℕ) → new_id n == k ≡ false)
    → (b : Template) × (lookup k (ensure_system_templates new_id lower tid ts w).1.store.templates
        ≡ some b)
      × SameWording a b
unfolding ensure_system_templates
ensure_system_templates_kept new_id lower tid ts w k a l fresh =
    seed_all_worded k a new_id lower fresh tid ts _ w
      (a, l, record { same_subject = refl; same_body = refl })

all_referenced :
    (refs required : List String)
    → first_unreferenced refs required ≡ none
    → all (contains refs) required ≡ true
unfolding first_unreferenced
all_referenced refs [] h = refl
all_referenced refs (r ∷ rs) h = ground (arith, h, all_referenced refs rs)

wording-ok :
    (e : Engine) (row : Template) (i : TemplateInput)
    → check_wording e row i ≡ ok tt
    → (c : Compiled) × (parse e i.subject i.body (kind_for row.channel_type) ≡ ok c)
      × (validate_refs c row.variables ≡ ok tt)
      × (all (contains c.refs) row.required_variables ≡ true)
unfolding check_wording
wording-ok e row i h = elim (Result-cases (parse e i.subject i.body (kind_for row.channel_type))) [
  | inr (x, n) ↦ ground (arith, n, h)
  | inl (c, n) ↦ elim (Result-cases (validate_refs c row.variables)) [
    | inr (x, k) ↦ ground (arith, n, k, h)
    | inl (u, k) ↦ elim (Option-cases (first_unreferenced c.refs row.required_variables)) [
      | inr (r, z) ↦ ground (arith, n, k, z, h)
      | inl z ↦ (c, n, k, all_referenced c.refs row.required_variables z)
    ]
  ]
]

-- Where an update of a system template returns, its text compiles, refers to declared variables only
-- and still refers to every required one, and the request changes no other field.
pub update_system-ok :
    (e : Engine) (new_id : ℕ → String) (lower : String → String) (s : Subjects) (row : Template)
    → (i : TemplateInput) (now : ℕ) (w : World) (v : TemplateView)
    → (update_system e new_id lower s row i now w).0 ≡ ok v
    → (touches_fixed row i ≡ false)
      × (c : Compiled) × (parse e i.subject i.body (kind_for row.channel_type) ≡ ok c)
      × (validate_refs c row.variables ≡ ok tt)
      × (all (contains c.refs) row.required_variables ≡ true)
unfolding update_system
update_system-ok e new_id lower s row i now w v h = elim (Bool-cases (touches_fixed row i)) [
  | inl f ↦ ground (arith, f, h)
  | inr f ↦ elim (Result-cases (check_wording e row i)) [
    | inr (x, n) ↦ ground (arith, f, n, h)
    | inl (u, n) ↦ let (c, p, q, r) = wording-ok e row i n in (f, c, p, q, r)
  ]
]
