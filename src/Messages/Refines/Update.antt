-- ===== src/Messages/Refines/Update.antt =====
-- internal/messages/messages.go: Update and Revoke as steps of `Messages.Steps`.
use go_tangra_notification.Prelude.{
  ℕ, ◌≡◌, refl, ◌∙◌, insert, ◌⊎◌, inl, inr, Bool, true, none, some, List, [], ◌∷◌, String, arith,
  update_all, Option-cases, ◌||◌, ok, renaming,
}
use go_tangra_notification.Store.{Message, Status, draft, scheduled, published}
use go_tangra_notification.World.{World, st}
use go_tangra_notification.World.Relates.{ensure-Keeps}
use go_tangra_notification.Memstore.{Store, owned_inv, failing, atomic, atomic-cases}
use go_tangra_notification.Memstore.Messages.{
  decorate_message, with_status, set_message_status, update_message,
}
use go_tangra_notification.Memstore.Inbox.{revoke_unread, revoke_row}
use go_tangra_notification.Authz.Decide.{Subjects}
use go_tangra_notification.Messages.Input.{MessageInput, validate}
use go_tangra_notification.Messages.Publish.{in_batches}
use go_tangra_notification.Messages.Service.{
  managed, rewritten, unknown_category, update, withdraw, revoke, push_revoked, is_draft,
  is_scheduled, is_published,
}
use go_tangra_notification.Messages.Steps
use go_tangra_notification.Messages.Steps.{◌⟶◌, Steps, done, next, one, Steps-refl, Steps-trans}
use go_tangra_notification.Messages.Refines.{
  held, Keyed, following, asked, managed_inv, managed_status, update_message-Steps,
}

rewritten_facts :
    (s : Subjects) (i : MessageInput) (now : ℕ) (m : Store) (y : Message)
    → let x = rewritten s i now (decorate_message m y) in
      (x.id ≡ y.id) × (x.tenant_id ≡ y.tenant_id) × ((x.status ≡ y.status) ⊎ (x.status ≡ draft))
unfolding rewritten decorate_message
rewritten_facts s i now m y = ground arith

editable : (x : Status) → (is_draft x || is_scheduled x) ≡ true → (x ≡ draft) ⊎ (x ≡ scheduled)
editable draft h = inl refl
editable scheduled h = inr refl
editable _ h = cc

edit-Steps :
    (s : Subjects) (i : MessageInput) (id : String) (manage : Bool) (now : ℕ) (m : Store)
    {x : Message}
    → managed s id manage m ≡ ok x
    → (is_draft x.status || is_scheduled x.status) ≡ true
    → Keyed m
    → Steps s.tenant_id m (update_message (rewritten s i now x) m).1
edit-Steps s i id manage now m {x} h g keyed =
    let (y, o, e, _) = managed_inv s id manage m h in
    let (row, tenant) = owned_inv (λ (z : Message). z.tenant_id) s.tenant_id id m.messages o in
    let (same_id, same_tenant, status) = rewritten_facts s i now m y in
    rw e (
      update_message-Steps s.tenant_id (rewritten s i now (decorate_message m y)) y m
        (same_tenant ∙ tenant) (rw (same_id ∙ keyed id y row) o)
        (editable y.status (rw (managed_status s id manage m h y o) g)) status)

pub update-Steps :
    (s : Subjects) (id : String) (raw : MessageInput) (manage : Bool) (now : ℕ) (w : World)
    → Keyed w.store
    → Steps s.tenant_id w.store (update s id raw manage now w).1.store
unfolding update
update-Steps s id raw manage now w keyed =
    asked s.tenant_id (λ _. validate raw) _ w
      λ i _. asked s.tenant_id (managed s id manage) _ w λ x e.
        ensure-Keeps (Steps s.tenant_id) (Steps-refl s.tenant_id) (Steps-trans s.tenant_id) _ _ _ w
          λ g.
            following s.tenant_id
              (renaming unknown_category (st (update_message (rewritten s i now x)))) _ w
              (edit-Steps s i id manage now w.store e g keyed) (λ _ _. done)

pub push_revoked_store :
    (tid id : String) (bs : List (List String)) (w : World)
    → (push_revoked tid id bs w).1.store ≡ w.store
unfolding push_revoked
push_revoked_store tid id [] w = refl
push_revoked_store tid id (b ∷ bs) w = push_revoked_store tid id bs _

-- What the transaction leaves: the deliveries withdrawn, and the message revoked.
pub withdraw_lem :
    (tid id : String) (m : Store) {l : List String}
    → (withdraw tid id m).0 ≡ ok l
    → (x : Message) × (held tid id m ≡ some x)
      × ((withdraw tid id m).1 ≡ record m {
        inbox = update_all (revoke_row tid id) m.inbox;
        messages = insert id (with_status Status.revoked none m.now x) m.messages;
      })
unfolding withdraw revoke_unread set_message_status failing
withdraw_lem tid id m h = elim (Option-cases (held tid id m)) [
  | inl o ↦ absurd (ground (arith, o))
  | inr (x, o) ↦ (x, o, ground (arith, o))
]

pub withdraw_frame :
    (tid id : String) (m : Store)
    → ((withdraw tid id m).1.fail ≡ m.fail) × ((withdraw tid id m).1.now ≡ m.now)
unfolding withdraw revoke_unread set_message_status failing
withdraw_frame tid id m = ground arith

withdraw-Steps :
    (tid id : String) (m : Store)
    → ((x : Message) → held tid id m ≡ some x → x.status ≡ published)
    → Steps tid m (atomic (withdraw tid id) m).1
withdraw-Steps tid id m h =
    let (fail, now) = withdraw_frame tid id m in
    elim (atomic-cases (withdraw tid id) m fail now) [
      | inl (e, same) ↦ rw same done
      | inr (l, r, _, same) ↦
          let (x, o, e) = withdraw_lem tid id m r in
          rw (same, e)
            (next (one (Steps.withdraw m id))
              (Steps.move _ id x Status.revoked none o (rw (h x o) Steps.revoke)))
    ]

publishes : (x : Status) → is_published x ≡ true → x ≡ published
publishes published h = refl
publishes _ h = cc

pub revoke-Steps :
    (s : Subjects) (id : String) (manage : Bool) (w : World)
    → Steps s.tenant_id w.store (revoke s id manage w).1.store
unfolding revoke
revoke-Steps s id manage w = asked s.tenant_id (managed s id manage) _ w λ m e.
    ensure-Keeps (Steps s.tenant_id) (Steps-refl s.tenant_id) (Steps-trans s.tenant_id) _ _ _ w λ g.
      following s.tenant_id (st (atomic (withdraw s.tenant_id id))) _ w
        (withdraw-Steps s.tenant_id id w.store
          (λ y o. managed_status s id manage w.store e y o ∙ publishes m.status g))
        (λ l _.
          following s.tenant_id (push_revoked s.tenant_id id (in_batches l)) _ _
            (rw (push_revoked_store s.tenant_id id (in_batches l) _) done) (λ _ _. done))
