-- ===== src/Messages/Revocation.antt =====
-- internal/messages/messages.go: Revoke, on the message and its deliveries.
use go_tangra_notification.Prelude.{
  ◌≡◌, refl, ◌⊎◌, inl, inr, Bool, false, none, some, List, [], ◌∷◌, String, arith, Bool-cases,
  Result-cases, ok, err, Err, state, any, Table, values, update_all,
}
use go_tangra_notification.Store.{Message, InboxRow, Status}
use go_tangra_notification.World.{World}
use go_tangra_notification.Memstore.{Store, owned_inv, owned-insert_self, atomic, atomic-cases}
use go_tangra_notification.Memstore.Messages.{with_status}
use go_tangra_notification.Memstore.Inbox.{to_revoke, revoke_row}
use go_tangra_notification.Authz.Decide.{Subjects}
use go_tangra_notification.Messages.Publish.{in_batches}
use go_tangra_notification.Messages.Service.{managed, withdraw, revoke, push_revoked, is_published}
use go_tangra_notification.Messages.Refines.{held}
use go_tangra_notification.Messages.Refines.Update.{
  withdraw_lem, withdraw_frame, push_revoked_store,
}

revoked_row : (tid id : String) (x : InboxRow) → to_revoke tid id (revoke_row tid id x) ≡ false
unfolding revoke_row to_revoke
revoked_row tid id x = ground arith

none_left :
    (tid id : String) (t : Table InboxRow)
    → any (to_revoke tid id) (values (update_all (revoke_row tid id) t)) ≡ false
unfolding update_all values
none_left tid id [] = refl
none_left tid id ((k, x) ∷ t) = rw (revoked_row tid id x, none_left tid id t) refl

-- The message is revoked, and no delivery of it is sent, received or read any more.
abbrev pub Withdrawn : String → String → Store → Type 0
Withdrawn tid id m =
    ((y : Message) × (held tid id m ≡ some y) × (y.status ≡ Status.revoked))
    × (any (to_revoke tid id) (values m.inbox) ≡ false)

withdraw-Withdrawn :
    (tid id : String) (m : Store) {l : List String}
    → (withdraw tid id m).0 ≡ ok l
    → Withdrawn tid id (withdraw tid id m).1
unfolding with_status
withdraw-Withdrawn tid id m h =
    let (x, o, e) = withdraw_lem tid id m h in
    let y = with_status Status.revoked none m.now x in
    rw e (
      (
        y,
        owned-insert_self (λ (z : Message). z.tenant_id) tid id y m.messages
            (owned_inv (λ (z : Message). z.tenant_id) tid id m.messages o).1,
        refl,
      ),
      none_left tid id m.inbox,
    )

withdraw-cases :
    (tid id : String) (m : Store)
    → (((e : Err) × ((atomic (withdraw tid id) m).0 ≡ err e))
        × ((atomic (withdraw tid id) m).1 ≡ m))
      ⊎ ((l : List String) × ((atomic (withdraw tid id) m).0 ≡ ok l)
          × Withdrawn tid id (atomic (withdraw tid id) m).1)
withdraw-cases tid id m =
    let (fail, now) = withdraw_frame tid id m in
    elim (atomic-cases (withdraw tid id) m fail now) [
      | inl e ↦ inl e
      | inr (l, r, q, same) ↦ inr (l, q, rw same (withdraw-Withdrawn tid id m r))
    ]

push_revoked_ok :
    (tid id : String) (bs : List (List String)) (w : World) → (push_revoked tid id bs w).0 ≡ ok tt
unfolding push_revoked
push_revoked_ok tid id [] w = refl
push_revoked_ok tid id (b ∷ bs) w = push_revoked_ok tid id bs _

-- A revocation is all or nothing. It fails and leaves the store as it was, or the message is revoked
-- and no delivery of it is sent, received or read any more.
pub revoke_atomic :
    (s : Subjects) (id : String) (manage : Bool) (w : World)
    → (((e : Err) × ((revoke s id manage w).0 ≡ err e))
        × ((revoke s id manage w).1.store ≡ w.store))
      ⊎ Withdrawn s.tenant_id id (revoke s id manage w).1.store
unfolding revoke
revoke_atomic s id manage w = elim (Result-cases (managed s id manage w.store)) [
  | inr (e, x) ↦ inl ((e, rw (x, revoke) refl), rw (x, revoke) refl)
  | inl (m, x) ↦ elim (Bool-cases (is_published m.status)) [
    | inr p ↦ inl ((state, rw (x, p, revoke) refl), rw (x, p, revoke) refl)
    | inl p ↦ elim (withdraw-cases s.tenant_id id w.store) [
      | inl ((e, r), same) ↦ inl ((e, rw (x, p, r, revoke) refl), rw (x, p, r, revoke) same)
      | inr (l, r, d) ↦ inr (
          rw
            (
              x,
              p,
              r,
              revoke,
              push_revoked_ok s.tenant_id id (in_batches l) _,
              push_revoked_store s.tenant_id id (in_batches l) _,
            )
            d)
    ]
  ]
]
