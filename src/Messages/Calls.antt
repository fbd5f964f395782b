-- ===== src/Messages/Calls.antt =====
-- internal/messages/messages.go: any sequence of calls of Update, Send, Cancel, Archive and Revoke, made
-- by any callers, with the results that they return left aside.
use go_tangra_notification.Prelude.{
  ℕ, ◌≡◌, refl, Bool, Option, none, some, some, List, [], ◌∷◌, String, inl, inr, ◌==◌, ==_iff, true,
  Bool-cases, lookup, insert, lookup-insert, Table, all, not, arith,
}
use go_tangra_notification.Store.{Message}
use go_tangra_notification.World.{World}
use go_tangra_notification.Memstore.{Store, owned_inv}
use go_tangra_notification.Memstore.Messages.{with_status}
use go_tangra_notification.Authz.Decide.{Subjects}
use go_tangra_notification.Messages.Input.{MessageInput}
use go_tangra_notification.Messages.Publish.{Directory}
use go_tangra_notification.Messages.Service.{update, send, cancel, archive, revoke}
use go_tangra_notification.Messages.Steps.{Step, Steps, move, edit, deliver, withdraw, done, next}
use go_tangra_notification.Messages.Refines.{Keyed, cancel-Steps, archive-Steps}
use go_tangra_notification.Messages.Refines.Update.{update-Steps, revoke-Steps}
use go_tangra_notification.Messages.Refines.Publish.{send-Steps}
use go_tangra_notification.Messages.Delivery.{Unique, Steps-Unique}
use go_tangra_notification.Messages.Lifecycle.{
  Evolves, Evolves-refl, Evolves-trans, Steps-Evolves, Frozen, is_fixed, SameContent, Frozen-refl,
  Frozen-trans, Steps-Frozen, Steps-Foreign,
}

-- The operation, with the message's id and whether the caller may manage the messages of others.
pub data Op : Type 0 where
  update_op : MessageInput → Op
  send_op : Op
  cancel_op : Op
  archive_op : Op
  revoke_op : Op

pub record Call : Type 0 where
  pub caller : Subjects
  pub op : Op
  pub id : String
  pub manage : Bool
  pub at : ℕ

Keyed-insert :
    (id : String) (x y : Message) (t : Table Message)
    → ((j : String) (z : Message) → lookup j t ≡ some z → z.id ≡ j)
    → lookup id t ≡ some x
    → x.id ≡ y.id
    → (j : String) (z : Message) → lookup j (insert id y t) ≡ some z
    → z.id ≡ j
Keyed-insert id x y t keyed at same j z h = elim (Bool-cases (id == j)) [
  | inl e ↦
      let k : id ≡ j = (==_iff id j).0 e in
      ground (arith, lookup-insert id j y t, h, e, k, keyed id x at, same)
  | inr e ↦ keyed j z (ground (arith, lookup-insert id j y t, h, e))
]

Step-Keyed : {tid : String} {m n : Store} → Step tid m n → Keyed m → Keyed n
unfolding with_status
Step-Keyed {tid} (move m id x s at o e) keyed =
    Keyed-insert id x (with_status s at m.now x) m.messages keyed
      (owned_inv _ tid id m.messages o).0 refl
Step-Keyed {tid} (edit m id x y o b a same) keyed =
    Keyed-insert id x y m.messages keyed (owned_inv _ tid id m.messages o).0 same.id
Step-Keyed (deliver m rows) keyed = keyed
Step-Keyed (withdraw m id) keyed = keyed

Steps-Keyed : {tid : String} {m n : Store} → Steps tid m n → Keyed m → Keyed n
Steps-Keyed done keyed = keyed
Steps-Keyed (next p s) keyed = Step-Keyed s (Steps-Keyed p keyed)

module _ (new_id : ℕ → String) (dir : Directory) where
  -- The world after the operation.
  unfoldable pub after_op : Op → Subjects → String → Bool → ℕ → World → World
  after_op (update_op i) s id manage now w = (update s id i manage now w).1
  after_op send_op s id manage now w = (send new_id dir s id manage now w).1
  after_op cancel_op s id manage now w = (cancel s id manage w).1
  after_op archive_op s id manage now w = (archive s id manage w).1
  after_op revoke_op s id manage now w = (revoke s id manage w).1

  abbrev pub after_call : Call → World → World
  after_call c w = after_op c.op c.caller c.id c.manage c.at w

  unfoldable pub after_calls : List Call → World → World
  after_calls [] w = w
  after_calls (c ∷ cs) w = after_calls cs (after_call c w)

  after_op-Steps :
      (o : Op) (s : Subjects) (id : String) (manage : Bool) (now : ℕ) (w : World)
      → Keyed w.store
      → Steps s.tenant_id w.store (after_op o s id manage now w).store
  unfolding after_op
  after_op-Steps (update_op i) s id manage now w k = update-Steps s id i manage now w k
  after_op-Steps send_op s id manage now w k = send-Steps new_id dir s id manage now w
  after_op-Steps cancel_op s id manage now w k = cancel-Steps s id manage w
  after_op-Steps archive_op s id manage now w k = archive-Steps s id manage w
  after_op-Steps revoke_op s id manage now w k = revoke-Steps s id manage w

  call-Steps :
      (c : Call) (w : World)
      → Keyed w.store
      → Steps c.caller.tenant_id w.store (after_call c w).store
  call-Steps c w k = after_op-Steps c.op c.caller c.id c.manage c.at w k

  -- Where every row stands under its own id, no sequence of calls loses a message or makes one up,
  -- and each message's status only moves along the diagram: draft to scheduled or publishing,
  -- scheduled back to draft or on to publishing, publishing to published, published to revoked or
  -- archived, and revoked to archived.
  pub after_calls-Evolves :
      (cs : List Call) (w : World) (id : String)
      → Keyed w.store
      → Evolves (lookup id w.store.messages) (lookup id (after_calls cs w).store.messages)
  unfolding after_calls
  after_calls-Evolves [] w id k = Evolves-refl _
  after_calls-Evolves (c ∷ cs) w id k =
      let s = call-Steps c w k in
      Evolves-trans _ _ _ (Steps-Evolves id s)
        (after_calls-Evolves cs (after_call c w) id (Steps-Keyed s k))

  calls-Frozen :
      (cs : List Call) (w : World) (id : String)
      → Keyed w.store
      → Frozen (lookup id w.store.messages) (lookup id (after_calls cs w).store.messages)
  unfolding after_calls
  calls-Frozen [] w id k = Frozen-refl _
  calls-Frozen (c ∷ cs) w id k =
      let s = call-Steps c w k in
      Frozen-trans _ _ _ (Steps-Frozen id s) (calls-Frozen cs (after_call c w) id (Steps-Keyed s k))

  -- Where every row stands under its own id, a message that is being published, or was, is still
  -- there after any sequence of calls, is no draft and not scheduled, and has the title, content,
  -- type, category and recipients that it had.
  pub after_calls_fixed :
      (cs : List Call) (w : World) (id : String) (x : Message)
      → Keyed w.store
      → lookup id w.store.messages ≡ some x
      → is_fixed x.status ≡ true
      → (y : Message) × (lookup id (after_calls cs w).store.messages ≡ some y)
        × (is_fixed y.status ≡ true)
        × SameContent x y
  after_calls_fixed cs w id x k at h =
      still (lookup id (after_calls cs w).store.messages) (rw at at (calls-Frozen cs w id k))
    where
      still :
          (o : Option Message)
          → Frozen (some x) o
          → (y : Message) × (o ≡ some y) × (is_fixed y.status ≡ true) × SameContent x y
      still none f = absurd f
      still (some y) f = (y, refl, (f h).0, (f h).1)

  -- Where every row stands under its own id, a message is unchanged by any sequence of calls that
  -- are all made for other tenants.
  pub after_calls-foreign :
      (cs : List Call) (w : World) (id : String) (x : Message)
      → Keyed w.store
      → lookup id w.store.messages ≡ some x
      → all (λ (c : Call). not (x.tenant_id == c.caller.tenant_id)) cs ≡ true
      → lookup id (after_calls cs w).store.messages ≡ some x
  unfolding after_calls
  after_calls-foreign [] w id x k at others = at
  after_calls-foreign (c ∷ cs) w id x k at others =
      let s = call-Steps c w k in
      after_calls-foreign cs (after_call c w) id x (Steps-Keyed s k)
        (Steps-Foreign id s x at
          (λ e. absurd (ground (arith, others, (==_iff x.tenant_id c.caller.tenant_id).1 e))))
        (ground (arith, others))

  -- Where every row stands under its own id and no message has two deliveries to one recipient, none
  -- has after any sequence of calls.
  pub after_calls-Unique :
      (cs : List Call) (w : World)
      → Keyed w.store
      → Unique w.store.inbox
      → Unique (after_calls cs w).store.inbox
  unfolding after_calls
  after_calls-Unique [] w k u = u
  after_calls-Unique (c ∷ cs) w k u =
      let s = call-Steps c w k in
      after_calls-Unique cs (after_call c w) (Steps-Keyed s k) (Steps-Unique s u)
