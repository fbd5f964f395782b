-- ===== src/Messages/Refines.antt =====
-- internal/messages: operations on a stored message as steps of `Messages.Steps`.
pub mod Publish
pub mod Update
use go_tangra_notification.Prelude.{
  ℕ, ◌≡◌, refl, sym, ap, subst, ◌∙◌, ◌⊎◌, inl, inr, Bool, true, false, Option, none, some, List, [],
  ◌∷◌, String, arith, Table, lookup, insert, ◌==◌, ==_iff, Bool-cases, Option-cases, Result-cases,
  ok, err, Err, Result, ◌&&◌, ◌||◌, not, if◌then◌else◌, after, renaming, ◌>>=◌, ◌>>◌, pure, Exec,
}
use go_tangra_notification.Store.{
  Message, InboxRow, Status, draft, scheduled, publishing, published, archived,
}
use go_tangra_notification.World.{World, Act, st, ask, emit}
use go_tangra_notification.World.Relates.{bind-Keeps, ask-Keeps, ensure-Keeps}
use go_tangra_notification.Memstore.{
  Store, owned, owned_inv, owned-insert_self, failing, failing_read, failing_read-ok, atomic,
}
use go_tangra_notification.Memstore.Messages.{
  with_status, get_message, set_message_status, update_message, decorate_message, category_missing,
}
use go_tangra_notification.Memstore.Inbox.{insert_inbox_batch, revoke_unread}
use go_tangra_notification.Authz.Decide.{Subjects}
use go_tangra_notification.Messages.Input.{MessageInput, can_manage}
use go_tangra_notification.Messages.Publish.{
  Directory, deliver, deliver_each, fan_out, fan_out_all, fan_out_users, publish, make_rows,
}
use go_tangra_notification.Messages.Service.{
  managed, rewritten, update, transition, cancel, archive, withdraw, revoke, push_revoked, schedule,
  publish_now, send, is_draft, is_scheduled, is_published, is_revoked,
}
use go_tangra_notification.Messages.Steps
use go_tangra_notification.Messages.Steps.{
  ◌⟶◌, Step, Steps, done, next, one, Steps-refl, Steps-trans, SameMessage,
}

abbrev pub held : String → String → Store → Option Message
held tid id m = owned (λ (x : Message). x.tenant_id) tid id m.messages

pub set_message_status-Steps :
    (tid id : String) (s : Status) (at : Option ℕ) (m : Store)
    → ((x : Message) → held tid id m ≡ some x → x.status ⟶ s)
    → Steps tid m (set_message_status tid id s at m).1
unfolding set_message_status failing
set_message_status-Steps tid id s at m h = elim (Option-cases (lookup "SetMessageStatus" m.fail)) [
  | inr (e, f) ↦ rw (f, set_message_status, failing) done
  | inl f ↦ elim (Option-cases (held tid id m)) [
    | inl o ↦ rw (f, o, set_message_status, failing) done
    | inr (x, o) ↦ rw (f, o, set_message_status, failing) (one (Steps.move m id x s at o (h x o)))
  ]
]

pub set_message_status-ok :
    (tid id : String) (s : Status) (at : Option ℕ) (m : Store) {u : Unit {0}}
    → (set_message_status tid id s at m).0 ≡ ok u
    → (x : Message) × (held tid id m ≡ some x)
      × ((set_message_status tid id s at m).1
          ≡ record m { messages = insert id (with_status s at m.now x) m.messages })
unfolding set_message_status failing
set_message_status-ok tid id s at m h = elim (Option-cases (held tid id m)) [
  | inl o ↦ absurd (ground (arith, o))
  | inr (x, o) ↦ (x, o, ground (arith, o))
]

-- After a change of status the row has the new one.
pub set_message_status-held :
    (tid id : String) (s : Status) (at : Option ℕ) (m : Store) {u : Unit {0}}
    → (set_message_status tid id s at m).0 ≡ ok u
    → (y : Message) × (held tid id (set_message_status tid id s at m).1 ≡ some y) × (y.status ≡ s)
unfolding with_status
set_message_status-held tid id s at m h =
    let (x, o, e) = set_message_status-ok tid id s at m h in
    let y : Message = with_status s at m.now x in
    (
      y,
      rw e (
          owned-insert_self (λ (z : Message). z.tenant_id) tid id y m.messages
            (owned_inv (λ (z : Message). z.tenant_id) tid id m.messages o).1),
      refl,
    )

-- What the guard of every operation hands on: the row in the store, joined with its counts.
pub managed_inv :
    (s : Subjects) (id : String) (manage : Bool) (m : Store) {x : Message}
    → managed s id manage m ≡ ok x
    → (y : Message) × (held s.tenant_id id m ≡ some y)
      × (x ≡ decorate_message m y)
      × (can_manage x s manage ≡ true)
unfolding managed get_message failing_read
managed_inv s id manage m {x} h = elim (Option-cases (held s.tenant_id id m)) [
  | inl o ↦ absurd (ground (arith, o))
  | inr (y, o) ↦ (y, o, ground (arith, o), ground (arith, o))
]

pub managed_status :
    (s : Subjects) (id : String) (manage : Bool) (m : Store) {x : Message}
    → managed s id manage m ≡ ok x
    → (y : Message) → held s.tenant_id id m ≡ some y
    → y.status ≡ x.status
unfolding decorate_message
managed_status s id manage m h y o =
    let (z, p, e, c) = managed_inv s id manage m h in ground (arith, o, p, e)

-- The row under a key carries that key, as every insertion sees to.
abbrev pub Keyed : Store → Type 0
Keyed m = (id : String) (x : Message) → lookup id m.messages ≡ some x → x.id ≡ id

update_message-Steps :
    (tid : String) (x y : Message) (m : Store)
    → x.tenant_id ≡ tid
    → held tid x.id m ≡ some y
    → (y.status ≡ draft) ⊎ (y.status ≡ scheduled)
    → (x.status ≡ y.status) ⊎ (x.status ≡ draft)
    → Steps tid m (update_message x m).1
unfolding update_message failing
update_message-Steps tid x y m t o b a = elim (Option-cases (lookup "UpdateMessage" m.fail)) [
  | inr (e, f) ↦ rw (f, update_message, failing) done
  | inl f ↦ elim (Bool-cases (category_missing m x)) [
    | inl c ↦ rw (f, t, o, c, update_message, failing) done
    | inr c ↦
        rw (f, t, o, c, update_message, failing)
          (one (
            Steps.edit m x.id y _ o b a
              (record { id = refl; tenant = refl; sender = refl; service = refl })))
  ]
]

module _ (tid : String) where
  pub following :
      {A B : Type 0} (f : Act A) (g : A → Act B) (w : World)
      → Steps tid w.store (f w).1.store
      → ((a : A) → (f w).0 ≡ ok a → Steps tid (f w).1.store (g a (f w).1).1.store)
      → Steps tid w.store ((f >>= g) w).1.store
  following = bind-Keeps (Steps tid) (Steps-refl tid) (Steps-trans tid)

  pub asked :
      {A B : Type 0} (f : Store → Result A) (g : A → Act B) (w : World)
      → ((a : A) → f w.store ≡ ok a → Steps tid w.store (g a w).1.store)
      → Steps tid w.store ((ask f >>= g) w).1.store
  asked = ask-Keeps (Steps tid) (Steps-refl tid) (Steps-trans tid)

pub transition-Steps :
    (s : Subjects) (id : String) (manage : Bool) (from : Status → Bool) (to : Status)
    (event : String) (w : World)
    → ((x : Status) → from x ≡ true → x ⟶ to)
    → Steps s.tenant_id w.store (transition s id manage from to event w).1.store
unfolding transition
transition-Steps s id manage from to event w edge =
    asked s.tenant_id (managed s id manage) _ w λ m e.
      ensure-Keeps (Steps s.tenant_id) (Steps-refl s.tenant_id) (Steps-trans s.tenant_id)
        (from m.status) _ _ w
        λ g.
          following s.tenant_id (st (set_message_status s.tenant_id id to none)) _ w
            (set_message_status-Steps s.tenant_id id to none w.store
              (λ y o. rw (managed_status s id manage w.store e y o) (edge m.status g)))
            (λ _ _. done)

cancels : (x : Status) → is_scheduled x ≡ true → x ⟶ draft
cancels scheduled h = Steps.cancel
cancels _ h = cc

pub cancel-Steps :
    (s : Subjects) (id : String) (manage : Bool) (w : World)
    → Steps s.tenant_id w.store (cancel s id manage w).1.store
unfolding cancel
cancel-Steps s id manage w = transition-Steps s id manage is_scheduled draft _ w cancels

archives : (x : Status) → (is_published x || is_revoked x) ≡ true → x ⟶ archived
archives published h = Steps.archive
archives Status.revoked h = Steps.shelve
archives _ h = cc

pub archive-Steps :
    (s : Subjects) (id : String) (manage : Bool) (w : World)
    → Steps s.tenant_id w.store (archive s id manage w).1.store
unfolding archive
archive-Steps s id manage w = transition-Steps s id manage _ archived _ w archives
