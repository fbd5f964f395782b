-- ===== src/Messages/Lifecycle.antt =====
-- internal/messages: messages along the steps of `Messages.Steps`.
use go_tangra_notification.Prelude.{
  ◌≡◌, ◌≢◌, refl, ◌⊎◌, inl, inr, Bool, true, false, Option, none, some, String, arith, Table,
  lookup, insert, lookup-insert, ◌==◌, ==_iff, Bool-cases,
}
use go_tangra_notification.Store.{Message, Status, draft, scheduled, archived}
use go_tangra_notification.Memstore.{Store, owned, owned_inv}
use go_tangra_notification.Memstore.Messages.{with_status}
use go_tangra_notification.Messages.Steps.{
  ◌⟶◌, ◌⟶*◌, here, via, schedule, start, claim, again, finish, refinish, cancel, revoke, archive,
  shelve, ⟶*-trans, Step, move, edit, deliver, withdraw, Steps, done, next,
}

-- What may become of a message: its status goes along the diagram, and it is not lost.
abbrev pub Evolves : Option Message → Option Message → Type 0
Evolves none none = Unit {0}
Evolves none (some y) = ⊥
Evolves (some x) none = ⊥
Evolves (some x) (some y) = x.status ⟶* y.status

pub Evolves-refl : (o : Option Message) → Evolves o o
Evolves-refl none = tt
Evolves-refl (some x) = here

pub Evolves-trans : (a b c : Option Message) → Evolves a b → Evolves b c → Evolves a c
Evolves-trans none none none p q = tt
Evolves-trans none none (some c) p q = q
Evolves-trans none (some b) c p q = absurd p
Evolves-trans (some a) none c p q = absurd p
Evolves-trans (some a) (some b) none p q = q
Evolves-trans (some a) (some b) (some c) p q = ⟶*-trans p q

Evolves-insert :
    (id j : String) (x y : Message) (t : Table Message)
    → lookup id t ≡ some x
    → x.status ⟶* y.status
    → Evolves (lookup j t) (lookup j (insert id y t))
Evolves-insert id j x y t e p = rw (lookup-insert id j y t) (elim (Bool-cases (id == j)) [
  | inl same ↦ rw (same, ← (==_iff id j).0 same, e) p
  | inr other ↦ rw other (Evolves-refl (lookup j t))
])

Step-Evolves :
    {tid : String} {m n : Store} (j : String)
    → Step tid m n
    → Evolves (lookup j m.messages) (lookup j n.messages)
unfolding with_status
Step-Evolves {tid} j (move m id x s at o e) =
    Evolves-insert id j x (with_status s at m.now x) m.messages (owned_inv _ tid id m.messages o).0
      (via e here)
Step-Evolves {tid} j (edit m id x y o before after same) =
    Evolves-insert id j x y m.messages (owned_inv _ tid id m.messages o).0
      (edited x.status y.status before after)
  where
    edited : (s t : Status) → (s ≡ draft) ⊎ (s ≡ scheduled) → (t ≡ s) ⊎ (t ≡ draft) → s ⟶* t
    edited s t b (inl e) = rw e here
    edited s t (inl d) (inr e) = rw (d, e) here
    edited s t (inr d) (inr e) = rw (d, e) (via cancel here)
Step-Evolves j (deliver m rows) = Evolves-refl (lookup j m.messages)
Step-Evolves j (withdraw m id) = Evolves-refl (lookup j m.messages)

-- Through any steps made for a tenant a message's status only goes along the diagram, and no message
-- is lost or made up.
pub Steps-Evolves :
    {tid : String} {m n : Store} (j : String)
    → Steps tid m n
    → Evolves (lookup j m.messages) (lookup j n.messages)
Steps-Evolves {m = m} j done = Evolves-refl (lookup j m.messages)
Steps-Evolves {m = m} {n = n} j (next {n = k} p s) =
    Evolves-trans (lookup j m.messages) (lookup j k.messages) (lookup j n.messages)
      (Steps-Evolves j p) (Step-Evolves j s)

-- Nothing leads out of archived, and a message that is being published, or was, is never a draft
-- or scheduled again.
abbrev pub is_fixed : Status → Bool
is_fixed draft = false
is_fixed scheduled = false
is_fixed _ = true

pub ⟶*-archived : {s : Status} → archived ⟶* s → s ≡ archived
⟶*-archived here = refl
⟶*-archived (via e p) = elim e [ ]

-- What the recipients are shown of a message.
pub record SameContent (x y : Message) : Type 0 where
  pub title : x.title ≡ y.title
  pub content : x.content ≡ y.content
  pub kind : x.kind ≡ y.kind
  pub category : x.category_id ≡ y.category_id
  pub recipients : x.recipients ≡ y.recipients

-- A fixed message stays fixed, with its content.
abbrev pub Frozen : Option Message → Option Message → Type 0
Frozen none none = Unit {0}
Frozen none (some y) = ⊥
Frozen (some x) none = ⊥
Frozen (some x) (some y) = is_fixed x.status ≡ true → (is_fixed y.status ≡ true) × SameContent x y

SameContent-refl : (x : Message) → SameContent x x
SameContent-refl x = record {
  title = refl;
  content = refl;
  kind = refl;
  category = refl;
  recipients = refl;
}

pub Frozen-refl : (o : Option Message) → Frozen o o
Frozen-refl none = tt
Frozen-refl (some x) = λ h. (h, SameContent-refl x)

pub Frozen-trans : (a b c : Option Message) → Frozen a b → Frozen b c → Frozen a c
Frozen-trans none none none p q = tt
Frozen-trans none none (some c) p q = q
Frozen-trans none (some b) c p q = absurd p
Frozen-trans (some a) none c p q = absurd p
Frozen-trans (some a) (some b) none p q = q
Frozen-trans (some a) (some b) (some c) p q = λ h. ground (arith, p h, q (p h).0)

Frozen-insert :
    (id j : String) (x y : Message) (t : Table Message)
    → lookup id t ≡ some x
    → (is_fixed x.status ≡ true → (is_fixed y.status ≡ true) × SameContent x y)
    → Frozen (lookup j t) (lookup j (insert id y t))
Frozen-insert id j x y t e p = rw (lookup-insert id j y t) (elim (Bool-cases (id == j)) [
  | inl same ↦ rw (same, ← (==_iff id j).0 same, e) p
  | inr other ↦ rw other (Frozen-refl (lookup j t))
])

moved_fixed : {s t : Status} → s ⟶ t → is_fixed s ≡ true → is_fixed t ≡ true
moved_fixed schedule h = cc
moved_fixed start h = cc
moved_fixed claim h = cc
moved_fixed cancel h = cc
moved_fixed again h = refl
moved_fixed finish h = refl
moved_fixed refinish h = refl
moved_fixed revoke h = refl
moved_fixed archive h = refl
moved_fixed shelve h = refl

Step-Frozen :
    {tid : String} {m n : Store} (j : String)
    → Step tid m n
    → Frozen (lookup j m.messages) (lookup j n.messages)
unfolding with_status
Step-Frozen {tid} j (move m id x s at o e) =
    Frozen-insert id j x (with_status s at m.now x) m.messages (owned_inv _ tid id m.messages o).0
      (λ h. (
        moved_fixed e h,
        record { title = refl; content = refl; kind = refl; category = refl; recipients = refl },
      ))
Step-Frozen {tid} j (edit m id x y o before after same) =
    Frozen-insert id j x y m.messages (owned_inv _ tid id m.messages o).0
      (λ h. absurd (ground (arith, h, before)))
Step-Frozen j (deliver m rows) = Frozen-refl (lookup j m.messages)
Step-Frozen j (withdraw m id) = Frozen-refl (lookup j m.messages)

-- Through any steps a message whose publication has begun keeps its title, content, type, category
-- and recipients, and never becomes a draft or scheduled again.
pub Steps-Frozen :
    {tid : String} {m n : Store} (j : String)
    → Steps tid m n
    → Frozen (lookup j m.messages) (lookup j n.messages)
Steps-Frozen {m = m} j done = Frozen-refl (lookup j m.messages)
Steps-Frozen {m = m} {n = n} j (next {n = k} p s) =
    Frozen-trans (lookup j m.messages) (lookup j k.messages) (lookup j n.messages)
      (Steps-Frozen j p) (Step-Frozen j s)

-- A message of another tenant.
abbrev pub Foreign : String → Option Message → Option Message → Type 0
Foreign tid a b = (x : Message) → a ≡ some x → x.tenant_id ≢ tid → b ≡ some x

Foreign-insert :
    (tid id j : String) (x y : Message) (t : Table Message)
    → owned (λ (z : Message). z.tenant_id) tid id t ≡ some x
    → Foreign tid (lookup j t) (lookup j (insert id y t))
Foreign-insert tid id j x y t o z e d = rw (lookup-insert id j y t) (elim (Bool-cases (id == j)) [
  | inl same ↦
      let (at, ten) = owned_inv (λ (z : Message). z.tenant_id) tid id t o in
      absurd (d (ground (arith, at, ten, e, (==_iff id j).0 same)))
  | inr other ↦ rw other e
])

Step-Foreign :
    {tid : String} {m n : Store} (j : String)
    → Step tid m n
    → Foreign tid (lookup j m.messages) (lookup j n.messages)
Step-Foreign {tid} j (move m id x s at o e) =
    Foreign-insert tid id j x (with_status s at m.now x) m.messages o
Step-Foreign {tid} j (edit m id x y o before after same) = Foreign-insert tid id j x y m.messages o
Step-Foreign j (deliver m rows) = λ x e d. e
Step-Foreign j (withdraw m id) = λ x e d. e

-- No step made for a tenant touches a message of another.
pub Steps-Foreign :
    {tid : String} {m n : Store} (j : String)
    → Steps tid m n
    → Foreign tid (lookup j m.messages) (lookup j n.messages)
Steps-Foreign j done = λ x e d. e
Steps-Foreign j (next p s) = λ x e d. Step-Foreign j s x (Steps-Foreign j p x e d) d
