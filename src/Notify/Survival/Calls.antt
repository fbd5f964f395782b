-- ===== src/Notify/Survival/Calls.antt =====
-- internal/notify/templates.go: calls of the template operations, by any callers, in any order.
use go_tangra_notification.Prelude.{
  ℕ, ◌≡◌, refl, subst, Bool, true, false, some, List, [], ◌∷◌, String, not, if◌then◌else◌, ◌==◌,
  ==_iff, lookup, Bool-cases, inl, inr, arith, ok, strp, pure, ◌>>◌, system_template,
  system_template_field, not_system_template,
}
use go_tangra_notification.Store.{Template}
use go_tangra_notification.Memstore.{Store}
use go_tangra_notification.Memstore.Grants.{get_template, get_channel}
use go_tangra_notification.Memstore.Messages.{is_some}
use go_tangra_notification.Memstore.Templates.{
  clear_default_template, insert_template, update_template, delete_template,
}
use go_tangra_notification.World.{World, st, ask, emit, transaction}
use go_tangra_notification.World.Holds.{
  Keeps, silent, bound, asked, asked_of, drawn, followed, ensured, stopped, branch, stored,
  required, transacted, dropped, owner_granted,
}
use go_tangra_notification.Authz.Decide.{Subjects}
use go_tangra_notification.Authz.Check.{require}
use go_tangra_notification.Notify.Render.{Engine}
use go_tangra_notification.Notify.Templates.{
  TemplateInput, get_view, template_event, validate_template, check_wording, touches_fixed,
  new_template, rewritten_template, insert_owned_template, create_template, rewrite_template,
  readable_channel, update_system, update_plain, update_any, restore, erase_owned_template,
  remove_template,
}
use go_tangra_notification.Notify.Survival.{
  SameSystem, Survives, surviving, clear_kept, insert_kept, update_kept, delete_kept, still_keyed,
}

module _ (k : String) (a : Template) where
  abbrev Alive : Store → Type 0
  Alive = Survives k a

  viewed : (s : Subjects) (id : String) (now : ℕ) → Keeps Alive (get_view s id now)
  unfolding get_view
  viewed s id now =
      bound (require s "template" id "read" now) _ (required s "template" id "read" now)
        (λ d. asked (get_template s.tenant_id id) _ (λ row. silent _ (λ w. refl)))

  cleared_if :
      (b : Bool) (tid ch id : String)
      → Keeps Alive (if b then st (clear_default_template tid ch id) else pure tt)
  cleared_if b tid ch id =
      branch b _ (pure tt) (stored _ (clear_kept k a tid ch id)) (silent _ (λ w. refl))

  erased : (tid id : String) → id == k ≡ false → Keeps Alive (erase_owned_template tid id)
  erased tid id d =
      followed (st (delete_template tid id)) _ (stored _ (λ m. delete_kept k a tid id m d))
        (dropped (surviving k a) tid "template" id)

  -- Past the look-up of the row, the deletion goes on for a template that is not a system template.
  remove_keeps :
      (key : String)
      → a.system_key ≡ some key
      → (s : Subjects) (id : String) (now : ℕ) → Keeps Alive (remove_template s id now)
  unfolding remove_template
  remove_keeps key e s id now =
      bound (require s "template" id "delete" now) _ (required s "template" id "delete" now) (λ d.
        asked_of (get_template s.tenant_id id) _ (λ w x row h. elim (Bool-cases (id == k)) [
          | inr other ↦
              (ensured (not (is_some row.system_key)) system_template
                  (transaction (erase_owned_template s.tenant_id id)
                    >> emit (template_event "template_deleted" s id))
                  (followed (transaction (erase_owned_template s.tenant_id id)) _
                    (transacted (surviving k a) _ (erased s.tenant_id id other))
                    (silent _ (λ w. refl)))).keeps
                w x
          | inl same ↦
              stopped Alive (not (is_some row.system_key)) system_template
                (transaction (erase_owned_template s.tenant_id id)
                  >> emit (template_event "template_deleted" s id))
                w (keyed same w x row h) x
        ]))
    where
      keyed :
          id == k ≡ true
          → (w : World) → Alive w.store
          → (row : Template) → get_template s.tenant_id id w.store ≡ ok row
          → not (is_some row.system_key) ≡ false
      keyed same w x row h = ground (
        arith,
        still_keyed k a s.tenant_id w.store row key e
            (subst (λ z. get_template s.tenant_id z w.store ≡ ok row) ((==_iff id k).0 same) h) x,
      )

  module _ (e : Engine) (new_id : ℕ → String) (lower : String → String) where
    inserted :
        (s : Subjects) (t : Template)
        → t.id == k ≡ false
        → Keeps Alive (insert_owned_template e new_id lower s t)
    unfolding insert_owned_template
    inserted s t d = followed _ _ (cleared_if t.is_default s.tenant_id (strp t.channel_id) t.id) (
        followed (st (insert_template lower t)) _ (stored _ (λ m. insert_kept k a lower t m d))
          (owner_granted (surviving k a) new_id s.tenant_id "template" t.id s.user_id))

    create_keeps :
        ((n : ℕ) → new_id n == k ≡ false)
        → (s : Subjects) (i : TemplateInput) (now : ℕ)
        → Keeps Alive (create_template e new_id lower s i now)
    unfolding create_template new_template
    create_keeps fresh s i now = ensured (not (i.channel_id == "")) _ _ (
        bound (require s "channel" i.channel_id "read" now) _
          (required s "channel" i.channel_id "read" now)
          (λ d. asked (get_channel s.tenant_id i.channel_id) _ (λ ch.
            followed (ask (λ _. validate_template e i ch.kind)) _ (silent _ (λ w. refl)) (
              drawn new_id
                (λ id.
                  transaction (insert_owned_template e new_id lower s (new_template s i ch.kind id))
                  >> (emit (template_event "template_created" s id) >> get_view s id now))
                (λ n.
                  followed
                    (transaction (
                      insert_owned_template e new_id lower s (new_template s i ch.kind (new_id n))))
                    _
                    (transacted (surviving k a) _
                      (inserted s (new_template s i ch.kind (new_id n)) (fresh n)))
                    (followed (emit (template_event "template_created" s (new_id n))) _
                      (silent _ (λ w. refl)) (viewed s (new_id n) now)))))))

    written :
        (t : Template) (s : Subjects) (id : String) (now : ℕ)
        → Keeps Alive (
            st (update_template lower t)
            >> (emit (template_event "template_updated" s id) >> get_view s id now))
    written t s id now =
        followed (st (update_template lower t)) _ (stored _ (update_kept k a lower t)) (
          followed (emit (template_event "template_updated" s id)) _ (silent _ (λ w. refl))
            (viewed s id now))

    rewritten :
        (s : Subjects) (id : String) (t : Template)
        → Keeps Alive (rewrite_template e new_id lower s id t)
    unfolding rewrite_template
    rewritten s id t =
        followed _ _ (cleared_if t.is_default s.tenant_id (strp t.channel_id) id)
          (stored (update_template lower t) (update_kept k a lower t))

    update_keeps :
        (s : Subjects) (id : String) (i : TemplateInput) (now : ℕ)
        → Keeps Alive (update_any e new_id lower s id i now)
    unfolding update_any update_system update_plain
    update_keeps s id i now =
        bound (require s "template" id "write" now) _ (required s "template" id "write" now) (λ d.
          asked (get_template s.tenant_id id) _ (λ row.
            branch (is_some row.system_key) _ _
              (ensured (not (touches_fixed row i)) system_template_field _ (
                followed (ask (λ _. check_wording e row i)) _ (silent _ (λ w. refl))
                  (written _ s row.id now)))
              (ensured (not (i.channel_id == "")) _ _ (
                followed (readable_channel e new_id lower s row i.channel_id now) _
                  (branch (i.channel_id == strp row.channel_id) (pure tt) _ (silent _ (λ w. refl)) (
                    bound (require s "channel" i.channel_id "read" now) _
                      (required s "channel" i.channel_id "read" now) (λ d. silent _ (λ w. refl))))
                  (asked (get_channel s.tenant_id i.channel_id) _ (λ ch.
                    followed (ask (λ _. validate_template e i ch.kind)) _ (silent _ (λ w. refl)) (
                      followed
                        (transaction (
                          rewrite_template e new_id lower s id
                            (rewritten_template s i ch.kind row)))
                        _
                        (transacted (surviving k a) _
                          (rewritten s id (rewritten_template s i ch.kind row)))
                        (followed (emit (template_event "template_updated" s id)) _
                          (silent _ (λ w. refl)) (viewed s id now)))))))))

    restore_keeps :
        (s : Subjects) (id : String) (now : ℕ) → Keeps Alive (restore e new_id lower s id now)
    unfolding restore
    restore_keeps s id now =
        bound (require s "template" id "write" now) _ (required s "template" id "write" now) (λ d.
          asked (get_template s.tenant_id id) _
            (λ row. ensured (is_some row.system_key) not_system_template _ (written _ s id now)))

-- One call of the template operations.
pub data TemplateCall : Type 0 where
  create_call : Subjects → TemplateInput → ℕ → TemplateCall
  update_call : Subjects → String → TemplateInput → ℕ → TemplateCall
  restore_call : Subjects → String → ℕ → TemplateCall
  remove_call : Subjects → String → ℕ → TemplateCall

module _ (e : Engine) (new_id : ℕ → String) (lower : String → String) where
  unfoldable pub run_template_call : TemplateCall → World → World
  run_template_call (create_call s i now) w = (create_template e new_id lower s i now w).1
  run_template_call (update_call s id i now) w = (update_any e new_id lower s id i now w).1
  run_template_call (restore_call s id now) w = (restore e new_id lower s id now w).1
  run_template_call (remove_call s id now) w = (remove_template s id now w).1

  unfoldable pub run_template_calls : List TemplateCall → World → World
  run_template_calls [] w = w
  run_template_calls (x ∷ xs) w = run_template_calls xs (run_template_call x w)

  call_keeps :
      (k : String) (a : Template) (key : String)
      → a.system_key ≡ some key
      → ((n : ℕ) → new_id n == k ≡ false)
      → (x : TemplateCall) (w : World) → Survives k a w.store
      → Survives k a (run_template_call x w).store
  unfolding run_template_call
  call_keeps k a key h fresh (create_call s i now) w =
      (create_keeps k a e new_id lower fresh s i now).keeps w
  call_keeps k a key h fresh (update_call s id i now) w =
      (update_keeps k a e new_id lower s id i now).keeps w
  call_keeps k a key h fresh (restore_call s id now) w =
      (restore_keeps k a e new_id lower s id now).keeps w
  call_keeps k a key h fresh (remove_call s id now) w = (remove_keeps k a key h s id now).keeps w

  calls_keep :
      (k : String) (a : Template) (key : String)
      → a.system_key ≡ some key
      → ((n : ℕ) → new_id n == k ≡ false)
      → (xs : List TemplateCall) (w : World) → Survives k a w.store
      → Survives k a (run_template_calls xs w).store
  unfolding run_template_calls
  calls_keep k a key h fresh [] w alive = alive
  calls_keep k a key h fresh (x ∷ xs) w alive =
      calls_keep k a key h fresh xs (run_template_call x w) (call_keeps k a key h fresh x w alive)

  -- A system template outlives every sequence of calls that create, update, restore or delete
  -- templates, by any callers, whether each returns or fails: if its id is none that the calls draw,
  -- its row is there afterwards with the same key, required and secret variables, and built-in
  -- wording.
  pub run_template_calls_kept :
      (k : String) (a : Template) (key : String) (xs : List TemplateCall) (w : World)
      → lookup k w.store.templates ≡ some a
      → a.system_key ≡ some key
      → ((n : ℕ) → new_id n == k ≡ false)
      → (b : Template) × (lookup k (run_template_calls xs w).store.templates ≡ some b)
        × SameSystem a b
  run_template_calls_kept k a key xs w l h fresh = calls_keep k a key h fresh xs w (
    a,
    l,
    record {
      key = refl;
      required_same = refl;
      secret_same = refl;
      subject_same = refl;
      body_same = refl;
    },
  )
