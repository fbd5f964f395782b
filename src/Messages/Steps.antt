-- ===== src/Messages/Steps.antt =====
-- The diagram of the message statuses (internal/messages/messages.go), and the steps by which the
-- operations on messages change the store.
use go_tangra_notification.Prelude.{ℕ, ◌≡◌, ◌⊎◌, Option, some, List, String, insert, update_all}
use go_tangra_notification.Store.{
  Message, InboxRow, Status, draft, scheduled, publishing, published, archived,
}
use go_tangra_notification.Memstore.{Store, owned}
use go_tangra_notification.Memstore.Messages.{with_status}
use go_tangra_notification.Memstore.Inbox.{insert_rows, revoke_row}

infix 40 ◌⟶◌ ◌⟶*◌
pub data ◌⟶◌ : Status → Status → Type 0 where
  schedule : draft ⟶ scheduled
  start : draft ⟶ publishing
  claim : scheduled ⟶ publishing
  again : publishing ⟶ publishing
  finish : publishing ⟶ published
  refinish : published ⟶ published
  cancel : scheduled ⟶ draft
  revoke : published ⟶ Status.revoked
  archive : published ⟶ archived
  shelve : Status.revoked ⟶ archived

pub data ◌⟶*◌ : Status → Status → Type 0 where
  here : {s : Status} → s ⟶* s
  via : {s t u : Status} → s ⟶ t → t ⟶* u → s ⟶* u

pub ⟶*-trans : {s t u : Status} → s ⟶* t → t ⟶* u → s ⟶* u
⟶*-trans here q = q
⟶*-trans (via e p) q = via e (⟶*-trans p q)

-- The fields that an edit may not touch.
pub record SameMessage (x y : Message) : Type 0 where
  pub id : x.id ≡ y.id
  pub tenant : x.tenant_id ≡ y.tenant_id
  pub sender : x.sender_id ≡ y.sender_id
  pub service : x.sender_service ≡ y.sender_service

-- One change of the store made for a tenant.
pub data Step (tid : String) : Store → Store → Type 0 where
  move :
      (m : Store) (id : String) (x : Message) (s : Status) (at : Option ℕ)
      → owned (λ (y : Message). y.tenant_id) tid id m.messages ≡ some x
      → x.status ⟶ s
      → Step tid m (record m { messages = insert id (with_status s at m.now x) m.messages })
  edit :
      (m : Store) (id : String) (x y : Message)
      → owned (λ (z : Message). z.tenant_id) tid id m.messages ≡ some x
      → (x.status ≡ draft) ⊎ (x.status ≡ scheduled)
      → (y.status ≡ x.status) ⊎ (y.status ≡ draft)
      → SameMessage x y
      → Step tid m (record m { messages = insert id y m.messages })
  deliver :
      (m : Store) (rows : List InboxRow)
      → Step tid m (record m { inbox = (insert_rows m.now rows m.inbox).1 })
  withdraw :
      (m : Store) (id : String)
      → Step tid m (record m { inbox = update_all (revoke_row tid id) m.inbox })

pub data Steps (tid : String) (m : Store) : Store → Type 0 where
  done : Steps tid m m
  next : {n k : Store} → Steps tid m n → Step tid n k → Steps tid m k

pub Steps-refl : (tid : String) (m : Store) → Steps tid m m
Steps-refl tid m = done

pub Steps-trans : (tid : String) (m n k : Store) → Steps tid m n → Steps tid n k → Steps tid m k
Steps-trans tid m n k p done = p
Steps-trans tid m n k p (next q s) = next (Steps-trans tid m n _ p q) s

pub one : {tid : String} {m n : Store} → Step tid m n → Steps tid m n
one s = next done s
