-- ===== src/Messages/Delivery.antt =====
-- internal/messages/messages.go, internal/memstore/memstore.go: the deliveries of a message to a
-- recipient.
pub mod Reach
pub mod Fanout
pub mod Audience
use go_tangra_notification.Prelude.{
  ℕ, suc, ◌+◌, ◌≤◌, ◌≡◌, refl, ◌∙◌, sym, ap, subst, Bool, true, false, Option, none, some, List, [],
  ◌∷◌, String, arith, inl, inr, ◌==◌, ==_iff, ◌&&◌, ◌||◌, if◌then◌else◌, any, count, Table, lookup,
  insert, update_all, values, Bool-cases,
}
use go_tangra_notification.Store.{InboxRow}
use go_tangra_notification.Memstore.{Store}
use go_tangra_notification.Memstore.Inbox.{insert_rows, revoke_row, same_delivery}
use go_tangra_notification.Messages.Steps.{Step, Steps, move, edit, deliver, withdraw, done, next}

module _ {A : Type 0} (p : A → Bool) where
  abbrev one_if : Bool → ℕ
  one_if true = 1
  one_if false = 0

  count-insert :
      (k : String) (y : A) (t : Table A)
      → count p (values (insert k y t)) ≤ count p (values t) + one_if (p y)
  unfolding insert values
  count-insert k y [] = ground arith
  count-insert k y ((j, x) ∷ t) = ground (arith, count-insert k y t)

  count_none : (xs : List A) → any p xs ≡ false → count p xs ≡ 0
  count_none [] h = refl
  count_none (x ∷ xs) h = ground (arith, count_none xs)

  count-update_all :
      (f : A → A) (t : Table A)
      → ((x : A) → p (f x) ≡ p x)
      → count p (values (update_all f t)) ≡ count p (values t)
  unfolding update_all values
  count-update_all f [] h = refl
  count-update_all f ((j, x) ∷ t) h = rw (h x, count-update_all f t h)

-- A delivery of the message to the recipient.
abbrev pub is_for : String → String → InboxRow → Bool
is_for mid rid x = x.message_id == mid && x.recipient_id == rid

abbrev pub Unique : Table InboxRow → Type 0
Unique t = (mid rid : String) → count (is_for mid rid) (values t) ≤ 1

insert-Unique :
    (k : String) (r y : InboxRow) (t : Table InboxRow)
    → any (same_delivery r) (values t) ≡ false
    → y.message_id ≡ r.message_id
    → y.recipient_id ≡ r.recipient_id
    → Unique t
    → Unique (insert k y t)
insert-Unique k r y t new m e u mid rid = elim (Bool-cases (is_for mid rid y)) [
  | inr other ↦
      let b = count-insert (is_for mid rid) k y t in omega (arith, rw other at b, u mid rid)
  | inl same ↦
      let a : y.message_id ≡ mid = (==_iff y.message_id mid).0 (ground arith) in
      let c : y.recipient_id ≡ rid = (==_iff y.recipient_id rid).0 (ground arith) in
      let z : count (is_for mid rid) (values t) ≡ 0 =
        rw (← a, ← c, m, e) (count_none (same_delivery r) (values t) new) in
      let b = count-insert (is_for mid rid) k y t in omega (arith, rw same at b, z)
]

pub insert_rows-Unique :
    (now : ℕ) (rs : List InboxRow) (t : Table InboxRow) → Unique t → Unique (insert_rows now rs t).1
unfolding insert_rows
insert_rows-Unique now [] t u = u
insert_rows-Unique now (r ∷ rs) t u = elim (Bool-cases (any (same_delivery r) (values t))) [
  | inl dup ↦ rw dup (insert_rows-Unique now rs t u)
  | inr new ↦
      let y = record r { created_at = now; updated_at = now } in
      rw new
        (insert_rows-Unique now rs (insert r.id y t) (insert-Unique r.id r y t new refl refl u))
]

revoke_row_for :
    (tid id mid rid : String) (x : InboxRow)
    → is_for mid rid (revoke_row tid id x) ≡ is_for mid rid x
unfolding revoke_row
revoke_row_for tid id mid rid x = ground arith

Step-Unique : {tid : String} {m n : Store} → Step tid m n → Unique m.inbox → Unique n.inbox
Step-Unique (move m id x s at o e) u = u
Step-Unique (edit m id x y o b a same) u = u
Step-Unique (deliver m rows) u = insert_rows-Unique m.now rows m.inbox u
Step-Unique {tid} (withdraw m id) u = λ mid rid.
    rw
      (count-update_all (is_for mid rid) (revoke_row tid id) m.inbox
        (revoke_row_for tid id mid rid))
      (u mid rid)

-- No steps deliver a message to a recipient twice.
pub Steps-Unique : {tid : String} {m n : Store} → Steps tid m n → Unique m.inbox → Unique n.inbox
Steps-Unique done u = u
Steps-Unique (next p s) u = Step-Unique s (Steps-Unique p u)
