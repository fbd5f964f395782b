-- ===== src/Messages/Refusals.antt =====
-- internal/messages/messages.go: who may work on a message, and in which status.
use go_tangra_notification.Prelude.{
  ℕ, ◌≡◌, refl, Bool, false, Option, none, some, String, ok, err, Err, not_found, state, Result,
}
use go_tangra_notification.Store.{Message, publishing}
use go_tangra_notification.World.{World}
use go_tangra_notification.Memstore.{Store}
use go_tangra_notification.Memstore.Messages.{get_message, claimable}
use go_tangra_notification.Authz.Decide.{Subjects}
use go_tangra_notification.Messages.Input.{MessageInput, can_manage, validate}
use go_tangra_notification.Messages.Publish.{Directory}
use go_tangra_notification.Messages.Service.{
  managed, update, send, cancel, archive, revoke, delete, transition,
}

-- The operations on a message, with what each returns left aside but for the error.
pub data Guarded : Type 0 where
  update_of : MessageInput → ℕ → Guarded
  send_of : ℕ → Guarded
  cancel_of : Guarded
  archive_of : Guarded
  revoke_of : Guarded
  delete_of : Guarded

abbrev failed : {A : Type 0} → Result A → Option Err
failed (ok a) = none
failed (err e) = some e

module _ (new_id : ℕ → String) (dir : Directory) where
  -- The error, if any, and the world after.
  unfoldable pub attempt_on : Guarded → Subjects → String → Bool → World → Option Err × World
  attempt_on (update_of i now) s id manage w =
      (failed (update s id i manage now w).0, (update s id i manage now w).1)
  attempt_on (send_of now) s id manage w =
      (failed (send new_id dir s id manage now w).0, (send new_id dir s id manage now w).1)
  attempt_on cancel_of s id manage w = (failed (cancel s id manage w).0, (cancel s id manage w).1)
  attempt_on archive_of s id manage w =
      (failed (archive s id manage w).0, (archive s id manage w).1)
  attempt_on revoke_of s id manage w = (failed (revoke s id manage w).0, (revoke s id manage w).1)
  attempt_on delete_of s id manage w = (failed (delete s id manage w).0, (delete s id manage w).1)

  -- The input of an update is looked at before the message.
  abbrev pub Acceptable : Guarded → Type 0
  Acceptable (update_of i now) = (v : MessageInput) × (validate i ≡ ok v)
  Acceptable _ = Unit {0}

  stopped :
      (o : Guarded) (s : Subjects) (id : String) (manage : Bool) (w : World) {e : Err}
      → Acceptable o
      → managed s id manage w.store ≡ err e
      → attempt_on o s id manage w ≡ (some e, w)
  unfolding attempt_on update send cancel archive revoke delete transition
  stopped (update_of i now) s id manage w (v, a) h = rw (a, h) refl
  stopped (send_of now) s id manage w a h = rw h refl
  stopped cancel_of s id manage w a h = rw h refl
  stopped archive_of s id manage w a h = rw h refl
  stopped revoke_of s id manage w a h = rw h refl
  stopped delete_of s id manage w a h = rw h refl

  managed_foreign :
      (s : Subjects) (id : String) (manage : Bool) (m : Store) {x : Message}
      → get_message s.tenant_id id m ≡ ok x
      → can_manage x s manage ≡ false
      → managed s id manage m ≡ err not_found
  unfolding managed
  managed_foreign s id manage m g c = rw (g, c) refl

  -- A caller who may not manage a message, being neither its sender nor a manager, gets the answer
  -- that there is none from every operation on it (an update with valid input), and changes nothing.
  pub refused_of_stranger :
      (o : Guarded) (s : Subjects) (id : String) (manage : Bool) (w : World) {x : Message}
      → Acceptable o
      → get_message s.tenant_id id w.store ≡ ok x
      → can_manage x s manage ≡ false
      → attempt_on o s id manage w ≡ (some not_found, w)
  refused_of_stranger o s id manage w a g c =
      stopped o s id manage w a (managed_foreign s id manage w.store g c)

  wrong_status :
      (o : Guarded) (s : Subjects) (id : String) (manage : Bool) (w : World) {x : Message}
      → Acceptable o
      → managed s id manage w.store ≡ ok x
      → x.status ≡ publishing
      → attempt_on o s id manage w ≡ (some state, w)
  unfolding attempt_on update send cancel archive revoke delete transition
  wrong_status (update_of i now) s id manage w (v, a) h p = rw (a, h, p) refl
  wrong_status (send_of now) s id manage w a h p = rw (h, p) refl
  wrong_status cancel_of s id manage w a h p = rw (h, p) refl
  wrong_status archive_of s id manage w a h p = rw (h, p) refl
  wrong_status revoke_of s id manage w a h p = rw (h, p) refl
  wrong_status delete_of s id manage w a h p = rw (h, p) refl

  -- A message that is being published and has no scheduled time is out of reach: every operation of
  -- one who may manage it (an update with valid input) is refused for its status and changes
  -- nothing, and the scheduler claims it at no time.
  pub publishing_stuck :
      (o : Guarded) (s : Subjects) (id : String) (manage : Bool) (w : World) (t : ℕ) {x : Message}
      → Acceptable o
      → managed s id manage w.store ≡ ok x
      → x.status ≡ publishing
      → x.scheduled_at ≡ none
      → (attempt_on o s id manage w ≡ (some state, w)) × (claimable t x ≡ false)
  unfolding claimable
  publishing_stuck o s id manage w t a h p n = (wrong_status o s id manage w a h p, rw (p, n) refl)
