-- ===== src/Messages/Publish.antt =====
-- internal/messages/messages.go: Publish, the fan-out of a message to its recipients' inboxes.
use go_tangra_notification.Prelude.{
  ℕ, zero, suc, ◌+◌, Option, none, some, List, [], ◌∷◌, ◌++◌, String, not, if◌then◌else◌, ltb,
  length, take, drop, contains, select, sort_by, str_lt, Result, ok, Err, pure, throw, ◌>>=◌, ◌>>◌,
}
use go_tangra_notification.Store.{InboxRow, Recipients, sent, published}
use go_tangra_notification.Memstore.Messages.{get_message, set_message_status}
use go_tangra_notification.Memstore.Inbox.{insert_inbox_batch}
use go_tangra_notification.World.{Act, Event, st, ask, emit, publish_event}
use go_tangra_notification.Authz.Decide.{Subjects, actor_kind, actor_id}
use go_tangra_notification.Messages.Input.{fanout_batch}

-- The auth service's directory: the active members among some ids, and the pages of all active
-- members with the error, if any, after the last page.
pub record Directory : Type 0 where
  pub lookup : String → List String → Result (List String)
  pub members : String → List (List String) × Option Err

-- `for i := 0; i < len(ids); i += FanoutBatch`; `fuel` rounds suffice where it is the length.
unfoldable pub batches : ℕ → List String → List (List String)
batches zero ids = []
batches (suc fuel) [] = []
batches (suc fuel) (u ∷ us) = take fanout_batch (u ∷ us) ∷ batches fuel (drop fanout_batch (u ∷ us))

abbrev pub in_batches : List String → List (List String)
in_batches ids = batches (length ids) ids

abbrev pub flatten {ℓ} : {A : Type ℓ} → List (List A) → List A
flatten [] = []
flatten (x ∷ xs) = x ++ flatten xs

abbrev pub all_batches : List (List String) → List (List String)
all_batches [] = []
all_batches (p ∷ ps) = in_batches p ++ all_batches ps

unfoldable pub message_event : String → String → Subjects → String → Event
message_event kind tid actor id = record {
  kind = kind;
  tenant_id = tid;
  actor_kind = actor_kind actor;
  actor_id = actor_id actor;
  subject_kind = "message";
  subject_id = id;
  outcome = "ok";
  reason = "";
}

abbrev pub fail_with : Option Err → Act (Unit {0})
fail_with none = pure tt
fail_with (some e) = throw e

module _ (new_id : ℕ → String) where
  -- A row with a new id for each recipient.
  unfoldable pub make_rows : ℕ → String → String → List String → List InboxRow
  make_rows k tid id [] = []
  make_rows k tid id (u ∷ us) =
      record {
        id = new_id k;
        tenant_id = tid;
        message_id = id;
        recipient_id = u;
        status = sent;
        read_at = none;
        created_at = 0;
        updated_at = 0;
        message = none;
      }
      ∷ make_rows (suc k) tid id us

  abbrev pub draw_rows : String → String → List String → Act (List InboxRow)
  draw_rows tid id ids w =
      (ok (make_rows w.drawn tid id ids), record w { drawn = w.drawn + length ids })

  -- The closure `deliver`: how many rows were new.
  unfoldable pub deliver : String → String → List String → Act ℕ
  deliver tid id ids = do
    rows ← draw_rows tid id ids
    n ← st (insert_inbox_batch rows)
    if ltb 0 n
        then publish_event (record { tenant_id = tid; to = ids; kind = "inbox"; message_id = id })
        else pure tt
    pure n

  unfoldable pub deliver_each : String → String → List (List String) → Act ℕ
  deliver_each tid id [] = pure 0
  deliver_each tid id (b ∷ bs) = do n ← deliver tid id b; k ← deliver_each tid id bs; pure (n + k)

  module _ (dir : Directory) where
    -- The number of rows added and the recipients dropped: to every member, or to those users who
    -- are active members.
    unfoldable pub fan_out_all : String → String → Act (ℕ × List String)
    fan_out_all tid id = do
      n ← deliver_each tid id (all_batches (dir.members tid).0)
      fail_with (dir.members tid).1
      pure (n, [])

    unfoldable pub fan_out_users : String → String → List String → Act (ℕ × List String)
    fan_out_users tid id users = do
      active ← ask (λ _. dir.lookup tid users)
      n ← deliver_each tid id (in_batches active)
      pure (n, sort_by str_lt (select (λ u. not (contains active u)) users))

    unfoldable pub fan_out : String → String → Recipients → Act (ℕ × List String)
    fan_out tid id rc = if rc.all then fan_out_all tid id else fan_out_users tid id rc.users

    unfoldable pub publish : String → String → Subjects → ℕ → Act (ℕ × List String)
    publish tid id actor now = do
      m ← ask (get_message tid id)
      r ← fan_out tid id m.recipients
      st (set_message_status tid id published (some now))
      emit (message_event "message_published" tid actor id)
      pure r
