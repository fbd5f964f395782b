-- ===== src/World.antt =====
-- What the services share: the store, the ids drawn so far, and the calls that leave the model, in
-- the order in which they are made: audit events (internal/audit) and live events (the Publisher of
-- internal/messages).
pub mod Relates
pub mod Holds
use go_tangra_notification.Prelude.{
  lookup, ℕ, suc, Bool, Option, none, some, List, [], ◌∷◌, ◌++◌, String, Exec, Result, ok, err,
}
use go_tangra_notification.Memstore.{Store, roll_back}

-- An audit event, without its correlation id and details.
pub record Event : Type 0 where
  pub kind : String
  pub tenant_id : String
  pub actor_kind : String
  pub actor_id : String
  pub subject_kind : String
  pub subject_id : String
  pub outcome : String
  pub reason : String

-- A live event: the tenant, the recipients, the type and the message.
pub record Push : Type 0 where
  pub tenant_id : String
  pub to : List String
  pub kind : String
  pub message_id : String

-- What a channel provider is handed: the channel's type, whether it is the platform's own relay, and
-- the message (internal/channel/email: the body is HTML or text).
pub record Mail : Type 0 where
  pub provider : String
  pub platform : Bool
  pub to : String
  pub subject : String
  pub html_body : String
  pub text_body : String

pub record World : Type 0 where
  pub store : Store
  pub drawn : ℕ
  pub events : List Event
  pub pushed : List Push
  pub mails : List Mail

abbrev pub Act : Type 0 → Type 0
Act = Exec World

-- A call of the store.
abbrev pub st : {A : Type 0} → Exec Store A → Act A
st f w = ((f w.store).0, record w { store = (f w.store).1 })

-- A read of the store.
abbrev pub ask : {A : Type 0} → (Store → Result A) → Act A
ask f w = (f w.store, w)

abbrev pub emit : Event → Act (Unit {0})
emit e w = (ok tt, record w { events = w.events ++ e ∷ [] })

-- `_ = s.pub.Publish(…)`: whether it fails is not looked at.
abbrev pub publish_event : Push → Act (Unit {0})
publish_event p w = (ok tt, record w { pushed = w.pushed ++ p ∷ [] })

-- `store.NewID()`: `new_id` is the sequence of the ids that it gives.
abbrev pub draw_id : (ℕ → String) → Act String
draw_id new_id w = (ok (new_id w.drawn), record w { drawn = suc w.drawn })

-- `Atomic` around a function that also draws ids and emits events: only the store is rolled back.
unfoldable pub transaction : {A : Type 0} → Act A → Act A
unfolding roll_back
transaction fn w = elim (lookup "Atomic" w.store.fail) [
  | some e ↦ (err e, w)
  | none ↦ ((fn w).0, record (fn w).1 { store = roll_back w.store (fn w).0 (fn w).1.store })
]

-- Randomness for a seal.
abbrev pub draw_seed : Act ℕ
draw_seed w = (ok w.drawn, record w { drawn = suc w.drawn })
