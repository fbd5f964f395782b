-- ===== src/Inbox/Own.antt =====
-- internal/inbox/inbox.go: Read, SetStatus and Remove, on the caller's entries and on others.
use go_tangra_notification.Prelude.{
  ℕ, ◌≡◌, refl, ◌∙◌, ap, ◌⊎◌, inl, inr, true, false, some, List, [], ◌∷◌, String, arith, lookup,
  lookup-insert, Bool-cases, Option-cases, Result-cases, ok, ==_self,
}
use mathlib.Core.List.{Memᴰ}
use go_tangra_notification.Store.{InboxRow, Delivery}
use go_tangra_notification.World.{World, st}
use go_tangra_notification.World.Relates.{bind-Keeps, ask-Keeps}
use go_tangra_notification.Memstore.{Store, failing, failing_read}
use go_tangra_notification.Memstore.Inbox.{
  set_inbox_status, get_inbox_entry, is_unread, is_active, is_deleted, mine, entry, with_message,
  mark_rows, own_row, marked,
}
use go_tangra_notification.Authz.Decide.{Subjects}
use go_tangra_notification.Inbox.{read, first_read, set_status, remove, EntryView, entry_view}
use go_tangra_notification.Inbox.Scope.{Kept-refl, Keeps, Keeps-trans, set_inbox_status-Keeps}

-- The entries as the caller's marks leave them, and no message touched.
pub record Own (tid rid : String) (m n : Store) : Type 0 where
  pub entries : (id : String) → Keeps tid rid id m.inbox n.inbox
  pub messages : n.messages ≡ m.messages

set_inbox_status_messages :
    (tid rid : String) (ids : List String) (status : String) (m : Store)
    → (set_inbox_status tid rid ids status m).1.messages ≡ m.messages
unfolding set_inbox_status failing
set_inbox_status_messages tid rid ids status m = ground arith

module _ (s : Subjects) where
  abbrev R : Store → Store → Type 0
  R = Own s.tenant_id s.user_id

  R-refl : (m : Store) → R m m
  R-refl m = record {
    entries = λ id x e. (x, e, Kept-refl s.tenant_id s.user_id x);
    messages = refl;
  }

  R-trans : (m n k : Store) → R m n → R n k → R m k
  R-trans m n k p q = record {
    entries = λ id.
        Keeps-trans s.tenant_id s.user_id id m.inbox n.inbox k.inbox (p.entries id) (q.entries id);
    messages = q.messages ∙ p.messages;
  }

  marks-Own :
      (ids : List String) (status : String) (m : Store)
      → R m (set_inbox_status s.tenant_id s.user_id ids status m).1
  marks-Own ids status m = record {
    entries = λ id. set_inbox_status-Keeps s.tenant_id s.user_id ids status id m;
    messages = set_inbox_status_messages s.tenant_id s.user_id ids status m;
  }

  first_read-Own : (id : String) (w : World) → R w.store (first_read s id w).1.store
  unfolding first_read
  first_read-Own id w =
      bind-Keeps R R-refl R-trans (st (set_inbox_status s.tenant_id s.user_id (id ∷ []) "read")) _ w
        (marks-Own (id ∷ []) "read" w.store)
        (λ n _.
          ask-Keeps R R-refl R-trans (get_inbox_entry s.tenant_id s.user_id id) _ _
            (λ row _. R-refl _))

  read-Own : (id : String) (w : World) → R w.store (read s id w).1.store
  unfolding read
  read-Own id w =
      ask-Keeps R R-refl R-trans (get_inbox_entry s.tenant_id s.user_id id) _ w (λ row _.
        elim (Bool-cases (is_unread row.status)) [
          | inl u ↦ rw u (first_read-Own id w)
          | inr u ↦ rw u (R-refl w.store)
        ])

  -- Both bulk operations are one call of the store, or none.
  set_status_store :
      (ids : List String) (status : String) (w : World)
      → ((set_status s ids status w).1.store ≡ w.store)
        ⊎ ((set_status s ids status w).1.store
            ≡ (set_inbox_status s.tenant_id s.user_id ids status w.store).1)
  unfolding set_status
  set_status_store ids status w = ground arith

  remove_store :
      (ids : List String) (w : World)
      → ((remove s ids w).1.store ≡ w.store)
        ⊎ ((remove s ids w).1.store
            ≡ (set_inbox_status s.tenant_id s.user_id ids "deleted" w.store).1)
  unfolding remove
  remove_store ids w = ground arith

  marked-Own :
      (ids : List String) (status : String) (m n : Store)
      → (n ≡ m) ⊎ (n ≡ (set_inbox_status s.tenant_id s.user_id ids status m).1)
      → R m n
  marked-Own ids status m n (inl e) = rw e (R-refl m)
  marked-Own ids status m n (inr e) = rw e (marks-Own ids status m)

  -- The stores that Read, SetStatus and Remove leave.
  unfoldable pub outcomes : String → List String → String → World → List Store
  outcomes id ids status w =
      (read s id w).1.store ∷ (set_status s ids status w).1.store ∷ (remove s ids w).1.store ∷ []

  outcomes-Own :
      (id : String) (ids : List String) (status : String) (w : World) (n : Store)
      → Memᴰ n (outcomes id ids status w)
      → R w.store n
  unfolding outcomes
  outcomes-Own id ids status w n (Memᴰ.head e) = rw e (read-Own id w)
  outcomes-Own id ids status w n (Memᴰ.tail (Memᴰ.head e)) =
      rw e (marked-Own ids status w.store _ (set_status_store ids status w))
  outcomes-Own id ids status w n (Memᴰ.tail (Memᴰ.tail (Memᴰ.head e))) =
      rw e (marked-Own ids "deleted" w.store _ (remove_store ids w))
  outcomes-Own id ids status w n (Memᴰ.tail (Memᴰ.tail (Memᴰ.tail m))) = elim m [ ]

  -- Read, SetStatus and Remove leave the messages, and every delivery that is not to the caller, as
  -- they are.
  pub inbox_others :
      (id : String) (ids : List String) (status : String) (w : World) (n : Store) (j : String)
      (x : InboxRow)
      → Memᴰ n (outcomes id ids status w)
      → lookup j w.store.inbox ≡ some x
      → mine s.tenant_id s.user_id x ≡ false
      → (lookup j n.inbox ≡ some x) × (n.messages ≡ w.store.messages)
  inbox_others id ids status w n j x m at h =
      let own = outcomes-Own id ids status w n m in
      let (y, there, kept) = own.entries j x at in (there ∙ ap some (kept.others h), own.messages)

  -- Under Read, SetStatus and Remove a delivery that is revoked or deleted is not lost and does not
  -- become sent, received or read again, and a deleted one stays deleted.
  pub inbox_closed :
      (id : String) (ids : List String) (status : String) (w : World) (n : Store) (j : String)
      (x : InboxRow)
      → Memᴰ n (outcomes id ids status w)
      → lookup j w.store.inbox ≡ some x
      → is_active x.status ≡ false
      → (y : InboxRow) × (lookup j n.inbox ≡ some y)
        × (is_active y.status ≡ false)
        × ((is_deleted x.status ≡ false) ⊎ (y.status ≡ x.status))
  inbox_closed id ids status w n j x m at h =
      let (y, there, kept) = (outcomes-Own id ids status w n m).entries j x at in
      (
        y,
        there,
        kept.closed h,
        elim (Bool-cases (is_deleted x.status)) [ inl d ↦ inr (kept.gone d) | inr d ↦ inl d ],
      )

  with_message_status : (m : Store) (x : InboxRow) → (with_message m x).status ≡ x.status
  unfolding with_message
  with_message_status m x = ground arith

  entry_inv :
      (id : String) (m : Store) {x : InboxRow}
      → get_inbox_entry s.tenant_id s.user_id id m ≡ ok x
      → (y : InboxRow) × (lookup id m.inbox ≡ some y)
        × (own_row s.tenant_id s.user_id id m.inbox ≡ some y)
        × (x.status ≡ y.status)
  unfolding get_inbox_entry failing_read entry own_row
  entry_inv id m {x} h = elim (Option-cases (lookup id m.inbox)) [
    | inl n ↦ absurd (ground (arith, h, n))
    | inr (y, n) ↦ (y, n, ground (arith, h, n), ground (arith, h, n, with_message_status m y))
  ]

  marked_as_read :
      (now : ℕ) (y : InboxRow)
      → is_unread y.status ≡ true
      → (z : InboxRow) × (marked now "read" y ≡ some z) × (z.status ≡ Delivery.read)
  unfolding marked
  marked_as_read now y u = elim (Option-cases (marked now "read" y)) [
    | inl n ↦ absurd (ground (arith, n, u))
    | inr (z, n) ↦ (z, n, ground (arith, n, u))
  ]

  set_read :
      (id : String) (m : Store) (y : InboxRow) {n : ℕ}
      → own_row s.tenant_id s.user_id id m.inbox ≡ some y
      → is_unread y.status ≡ true
      → (set_inbox_status s.tenant_id s.user_id (id ∷ []) "read" m).0 ≡ ok n
      → (z : InboxRow) × (lookup id
            (set_inbox_status s.tenant_id s.user_id (id ∷ []) "read" m).1.inbox
          ≡ some z)
        × (z.status ≡ Delivery.read)
  unfolding set_inbox_status failing mark_rows
  set_read id m y o u h = elim (Option-cases (lookup "SetInboxStatus" m.fail)) [
    | inr (e, f) ↦ absurd (ground (arith, f, h))
    | inl f ↦
        let (z, k, e) = marked_as_read m.now y u in
        (
          z,
          rw
              (
                f,
                set_inbox_status,
                failing,
                mark_rows,
                o,
                k,
                lookup-insert id id z m.inbox,
                ==_self id,
              )
              refl,
          e,
        )
  ]

  -- An entry that Read returns is not unread, and neither is the row in the store.
  pub read_lem :
      (id : String) (w : World) {v : EntryView}
      → (read s id w).0 ≡ ok v
      → (is_unread v.status ≡ false)
        × ((z : InboxRow) × (lookup id (read s id w).1.store.inbox ≡ some z)
            × (is_unread z.status ≡ false))
  unfolding read first_read entry_view
  read_lem id w {v} h = elim (Result-cases (get_inbox_entry s.tenant_id s.user_id id w.store)) [
    | inr (e, x) ↦ absurd (ground (arith, h, x))
    | inl (row, x) ↦
        let (y, at, own, same) = entry_inv id w.store x in
        elim (Bool-cases (is_unread row.status)) [
          | inr seen ↦ (ground (arith, h, x, seen), (y, rw (x, seen, read) at, rw same at seen))
          | inl new ↦
              elim (Result-cases
                (set_inbox_status s.tenant_id s.user_id (id ∷ []) "read" w.store).0) [
                  | inr (e, k) ↦ absurd (ground (arith, h, x, new, k))
                  | inl (n, k) ↦
                      let (z, there, is) = set_read id w.store y own (rw same at new) k in
                      let m' =
                        (set_inbox_status s.tenant_id s.user_id (id ∷ []) "read" w.store).1 in
                      elim (Result-cases (get_inbox_entry s.tenant_id s.user_id id m')) [
                        | inr (e, q) ↦ absurd (ground (arith, h, x, new, k, q))
                        | inl (row', q) ↦
                            let (y', at', _, same') = entry_inv id m' q in
                            (
                              ground (arith, h, x, new, k, q, at', there, same', is),
                              (z, rw (x, new, k, q, read, first_read) there, rw is refl),
                            )
                      ]
                ]
        ]
  ]
