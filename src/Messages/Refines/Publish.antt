-- ===== src/Messages/Refines/Publish.antt =====
-- internal/messages: Send and Publish as steps of `Messages.Steps`.
use go_tangra_notification.Prelude.{
  ℕ, ◌≡◌, refl, sym, ◌∙◌, ap, inl, inr, Bool, true, Option, none, some, List, [], ◌∷◌, String,
  arith, lookup, Bool-cases, Option-cases, ok, after, Err, pure, ◌>>◌,
}
use go_tangra_notification.Store.{
  Message, InboxRow, Recipients, Status, draft, scheduled, publishing, published,
}
use go_tangra_notification.World.{World, st}
use go_tangra_notification.World.Relates.{bind-Keeps, ask-Keeps, ensure-Keeps}
use go_tangra_notification.Memstore.{Store, owned, failing}
use go_tangra_notification.Memstore.Messages.{set_message_status, get_message}
use go_tangra_notification.Memstore.Inbox.{insert_inbox_batch}
use go_tangra_notification.Authz.Decide.{Subjects}
use go_tangra_notification.Messages.Publish.{
  Directory, deliver, deliver_each, make_rows, fan_out, fan_out_all, fan_out_users, publish,
  in_batches, all_batches, fail_with,
}
use go_tangra_notification.Messages.Service.{managed, schedule, publish_now, send, is_draft}
use go_tangra_notification.Messages.Steps
use go_tangra_notification.Messages.Steps.{◌⟶◌, Steps, done, next, one, Steps-refl, Steps-trans}
use go_tangra_notification.Messages.Refines.{
  held, following, asked, managed_status, set_message_status-Steps, set_message_status-held,
}

-- Deliveries only: the messages stay as they are.
pub data Fills (tid : String) (m : Store) : Store → Type 0 where
  fills : {n : Store} → Steps tid m n → n.messages ≡ m.messages → Fills tid m n

Fills-refl : (tid : String) (m : Store) → Fills tid m m
Fills-refl tid m = fills done refl

Fills-trans : (tid : String) (m n k : Store) → Fills tid m n → Fills tid n k → Fills tid m k
Fills-trans tid m n k (fills p e) (fills q f) = fills (Steps-trans tid m n k p q) (f ∙ e)

insert_inbox_batch-Fills :
    (tid : String) (rows : List InboxRow) (m : Store) → Fills tid m (insert_inbox_batch rows m).1
unfolding insert_inbox_batch failing
insert_inbox_batch-Fills tid rows m = elim (Option-cases (lookup "InsertInboxBatch" m.fail)) [
  | inr (e, f) ↦ rw (f, insert_inbox_batch, failing) (Fills-refl tid m)
  | inl f ↦ rw (f, insert_inbox_batch, failing) (fills (one (Steps.deliver m rows)) refl)
]

module _ (new_id : ℕ → String) (tid id : String) where
  -- One batch is one call of the store.
  pub deliver_store :
      (ids : List String) (w : World)
      → let out = insert_inbox_batch (make_rows new_id w.drawn tid id ids) w.store in
        ((deliver new_id tid id ids w).1.store ≡ out.1) × ((deliver new_id tid id ids w).0 ≡ out.0)
  unfolding deliver
  deliver_store ids w = (ground arith, ground arith)

  deliver-Fills :
      (ids : List String) (w : World) → Fills tid w.store (deliver new_id tid id ids w).1.store
  deliver-Fills ids w =
      rw (deliver_store ids w).0
        (insert_inbox_batch-Fills tid (make_rows new_id w.drawn tid id ids) w.store)

  pub deliver_each-Fills :
      (bs : List (List String)) (w : World)
      → Fills tid w.store (deliver_each new_id tid id bs w).1.store
  unfolding deliver_each
  deliver_each-Fills [] w = Fills-refl tid w.store
  deliver_each-Fills (b ∷ bs) w =
      bind-Keeps (Fills tid) (Fills-refl tid) (Fills-trans tid) (deliver new_id tid id b) _ w
        (deliver-Fills b w)
        (λ n _.
          bind-Keeps (Fills tid) (Fills-refl tid) (Fills-trans tid) (deliver_each new_id tid id bs)
            _ (deliver new_id tid id b w).1 (deliver_each-Fills bs _) (λ k _. Fills-refl tid _))

  module _ (dir : Directory) where
    fail_with-Fills :
        {A : Type 0} (o : Option Err) (a : A) (v : World)
        → Fills tid v.store ((fail_with o >> pure a) v).1.store
    fail_with-Fills none a v = Fills-refl tid v.store
    fail_with-Fills (some e) a v = Fills-refl tid v.store

    fan_out_all-Fills : (w : World) → Fills tid w.store (fan_out_all new_id dir tid id w).1.store
    unfolding fan_out_all
    fan_out_all-Fills w =
        bind-Keeps (Fills tid) (Fills-refl tid) (Fills-trans tid)
          (deliver_each new_id tid id (all_batches (dir.members tid).0)) _ w
          (deliver_each-Fills _ w) (λ n _. fail_with-Fills (dir.members tid).1 (n, []) _)

    fan_out_users-Fills :
        (users : List String) (w : World)
        → Fills tid w.store (fan_out_users new_id dir tid id users w).1.store
    unfolding fan_out_users
    fan_out_users-Fills users w =
        ask-Keeps (Fills tid) (Fills-refl tid) (Fills-trans tid) (λ _. dir.lookup tid users) _ w
          (λ active _.
            bind-Keeps (Fills tid) (Fills-refl tid) (Fills-trans tid)
              (deliver_each new_id tid id (in_batches active)) _ w (deliver_each-Fills _ w)
              (λ n _. Fills-refl tid _))

    fan_out-Fills :
        (rc : Recipients) (w : World) → Fills tid w.store (fan_out new_id dir tid id rc w).1.store
    unfolding fan_out
    fan_out-Fills rc w = elim (Bool-cases rc.all) [
      | inl a ↦ rw (a, fan_out) (fan_out_all-Fills w)
      | inr a ↦ rw (a, fan_out) (fan_out_users-Fills rc.users w)
    ]

    finish-Steps :
        (m n : Store) (now : ℕ)
        → Fills tid m n
        → ((x : Message) → held tid id m ≡ some x → x.status ⟶ published)
        → Steps tid n (set_message_status tid id published (some now) n).1
    finish-Steps m n now (fills p e) edge =
        set_message_status-Steps tid id published (some now) n
          (λ x o. edge x (ap (λ t. owned (λ (y : Message). y.tenant_id) tid id t) (sym e) ∙ o))

    filled : {m n : Store} → Fills tid m n → Steps tid m n
    filled (fills p e) = p

    pub publish-Steps :
        (actor : Subjects) (now : ℕ) (w : World)
        → ((x : Message) → held tid id w.store ≡ some x → x.status ⟶ published)
        → Steps tid w.store (publish new_id dir tid id actor now w).1.store
    unfolding publish
    publish-Steps actor now w edge = asked tid (get_message tid id) _ w λ m _.
        following tid (fan_out new_id dir tid id m.recipients) _ w
          (filled (fan_out-Fills m.recipients w))
          (λ r _.
            following tid (st (set_message_status tid id published (some now))) _ _
              (finish-Steps w.store _ now (fan_out-Fills m.recipients w) edge) (λ _ _. done))

module _ (new_id : ℕ → String) (dir : Directory) (s : Subjects) (id : String) where
  drafts : (x : Status) → is_draft x ≡ true → (x ⟶ scheduled) × (x ⟶ publishing)
  drafts draft h = (Steps.schedule, Steps.start)
  drafts _ h = cc

  schedule-Steps :
      (w : World)
      → ((x : Message) → held s.tenant_id id w.store ≡ some x → x.status ⟶ scheduled)
      → Steps s.tenant_id w.store (schedule s id w).1.store
  unfolding schedule
  schedule-Steps w edge =
      following s.tenant_id (st (set_message_status s.tenant_id id scheduled none)) _ w
        (set_message_status-Steps s.tenant_id id scheduled none w.store edge) (λ _ _. done)

  publish_now-Steps :
      (now : ℕ) (w : World)
      → ((x : Message) → held s.tenant_id id w.store ≡ some x → x.status ⟶ publishing)
      → Steps s.tenant_id w.store (publish_now new_id dir s id now w).1.store
  unfolding publish_now
  publish_now-Steps now w edge =
      following s.tenant_id (st (set_message_status s.tenant_id id publishing none)) _ w
        (set_message_status-Steps s.tenant_id id publishing none w.store edge)
        (λ _ e.
          following s.tenant_id (publish new_id dir s.tenant_id id s now) _ _
            (publish-Steps new_id s.tenant_id id dir s now _ (started _ e)) (λ _ _. done))
    where
      started :
          (u : Unit {0})
          → (set_message_status s.tenant_id id publishing none w.store).0 ≡ ok u
          → (x : Message)
          → held s.tenant_id id (set_message_status s.tenant_id id publishing none w.store).1
            ≡ some x
          → x.status ⟶ published
      started u e x o =
          let (y, p, q) = set_message_status-held s.tenant_id id publishing none w.store e in
          let same : x.status ≡ publishing = ground (arith, o, p, q) in rw same Steps.finish

  pub send-Steps :
      (manage : Bool) (now : ℕ) (w : World)
      → Steps s.tenant_id w.store (send new_id dir s id manage now w).1.store
  unfolding send
  send-Steps manage now w = asked s.tenant_id (managed s id manage) _ w λ m e.
      ensure-Keeps (Steps s.tenant_id) (Steps-refl s.tenant_id) (Steps-trans s.tenant_id)
        (is_draft m.status) _ _ w
        λ g. elim (Bool-cases (after m.scheduled_at now)) [
          | inl a ↦ rw a (
              schedule-Steps w
                (λ y o. (drafts y.status (rw (managed_status s id manage w.store e y o) g)).0))
          | inr a ↦ rw a (
              publish_now-Steps now w
                (λ y o. (drafts y.status (rw (managed_status s id manage w.store e y o) g)).1))
        ]
