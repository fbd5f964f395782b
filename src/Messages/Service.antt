-- ===== src/Messages/Service.antt =====
-- internal/messages/messages.go: the operations on messages. `now` is the reading of the service's
-- clock; an operation that reads it twice reads the same time.
use go_tangra_notification.Prelude.{
  ℕ, Bool, true, false, Option, none, some, List, [], ◌∷◌, String, ◌&&◌, ◌||◌, not, if◌then◌else◌,
  ◌==◌, ltb, nat_eq, after, length, map, Exec, Result, ok, err, Err, not_found, state, invalid,
  is_conflict, pure, ensure, renaming, map_result, bind_result, ◌>>=◌, ◌>>◌,
}
use go_tangra_notification.Store.{
  Message, InboxRow, Delivery, Status, draft, scheduled, publishing, published, archived,
}
use go_tangra_notification.Memstore.{Store, atomic}
use go_tangra_notification.Memstore.Messages.{
  get_message, insert_message, update_message, set_message_status, delete_message,
}
use go_tangra_notification.Memstore.Inbox.{revoke_unread, message_recipients}
use go_tangra_notification.World.{Act, st, ask, emit, draw_id, publish_event}
use go_tangra_notification.Authz.Decide.{Subjects}
use go_tangra_notification.Messages.Input.{
  MessageInput, MessageView, validate, user_ptr, can_manage, message_view,
}
use go_tangra_notification.Messages.Publish.{Directory, in_batches, message_event, publish}

-- `m, err := s.row(…)`, then `if !canManage(…) { return store.ErrNotFound }`.
unfoldable pub managed : Subjects → String → Bool → Store → Result Message
managed s id manage m =
    bind_result (get_message s.tenant_id id m)
      (λ x. if can_manage x s manage then ok x else err not_found)

unfoldable pub get : Subjects → String → Bool → Store → Result MessageView
get s id manage m = map_result message_view (managed s id manage m)

abbrev pub unknown_category : Err → Err
unknown_category e = if is_conflict e then invalid "unknown category" "category_id" else e

abbrev pub category_ptr : String → Option String
category_ptr c = if c == "" then none else some c

-- The row that Create inserts.
unfoldable pub new_message : Subjects → MessageInput → String → Message
new_message s i id = record {
  id = id;
  tenant_id = s.tenant_id;
  title = i.title;
  content = i.content;
  kind = i.kind;
  status = draft;
  category_id = category_ptr i.category_id;
  sender_id = user_ptr s;
  sender_service = s.service;
  recipients = i.recipients;
  scheduled_at = i.scheduled_at;
  lease_until = none;
  published_at = none;
  created_by = user_ptr s;
  updated_by = user_ptr s;
  created_at = 0;
  updated_at = 0;
  category_name = "";
  recipient_count = 0;
  read_count = 0;
}

unfoldable pub create : (ℕ → String) → Subjects → MessageInput → Act MessageView
create new_id s raw = do
  i ← ask (λ _. validate raw)
  id ← draw_id new_id
  renaming unknown_category (st (insert_message (new_message s i id)))
  emit (message_event "message_created" s.tenant_id s id)
  ask (get s id true)

abbrev pub is_draft : Status → Bool
is_draft draft = true
is_draft _ = false

abbrev pub is_scheduled : Status → Bool
is_scheduled scheduled = true
is_scheduled _ = false

abbrev pub is_published : Status → Bool
is_published published = true
is_published _ = false

abbrev pub is_revoked : Status → Bool
is_revoked Status.revoked = true
is_revoked _ = false

abbrev pub is_archived : Status → Bool
is_archived archived = true
is_archived _ = false

-- The row that Update writes.
unfoldable pub rewritten : Subjects → MessageInput → ℕ → Message → Message
rewritten s i now m = record m {
  title = i.title;
  content = i.content;
  kind = i.kind;
  recipients = i.recipients;
  scheduled_at = i.scheduled_at;
  updated_by = user_ptr s;
  category_id = category_ptr i.category_id;
  status = if is_scheduled m.status && not (after i.scheduled_at now) then draft else m.status;
}

unfoldable pub update : Subjects → String → MessageInput → Bool → ℕ → Act MessageView
update s id raw manage now = do
  i ← ask (λ _. validate raw)
  m ← ask (managed s id manage)
  ensure (is_draft m.status || is_scheduled m.status) state
  renaming unknown_category (st (update_message (rewritten s i now m)))
  emit (message_event "message_updated" s.tenant_id s id)
  ask (get s id manage)

pub record SendResult : Type 0 where
  pub status : Status
  pub recipient_count : ℕ
  pub dropped : List String

-- The future half of Send.
unfoldable pub schedule : Subjects → String → Act SendResult
schedule s id = do
  st (set_message_status s.tenant_id id scheduled none)
  emit (message_event "message_updated" s.tenant_id s id)
  pure (record { status = scheduled; recipient_count = 0; dropped = [] })

-- `transition`, with the statuses that it starts from as a test.
unfoldable pub transition :
    Subjects → String → Bool → (Status → Bool) → Status → String → Act MessageView
transition s id manage from to event = do
  m ← ask (managed s id manage)
  ensure (from m.status) state
  st (set_message_status s.tenant_id id to none)
  emit (message_event event s.tenant_id s id)
  ask (get s id manage)

unfoldable pub cancel : Subjects → String → Bool → Act MessageView
cancel s id manage = transition s id manage is_scheduled draft "message_updated"

unfoldable pub archive : Subjects → String → Bool → Act MessageView
archive s id manage =
    transition s id manage (λ x. is_published x || is_revoked x) archived "message_archived"

-- The live events of a revocation, a batch at a time.
unfoldable pub push_revoked : String → String → List (List String) → Act (Unit {0})
push_revoked tid id [] = pure tt
push_revoked tid id (b ∷ bs) = do
  publish_event (record { tenant_id = tid; to = b; kind = "inbox.revoked"; message_id = id })
  push_revoked tid id bs

-- What Revoke runs inside one transaction.
unfoldable pub withdraw : String → String → Exec Store (List String)
withdraw tid id = do
  affected ← revoke_unread tid id
  set_message_status tid id Status.revoked none
  pure affected

unfoldable pub revoke : Subjects → String → Bool → Act MessageView
revoke s id manage = do
  m ← ask (managed s id manage)
  ensure (is_published m.status) state
  affected ← st (atomic (withdraw s.tenant_id id))
  push_revoked s.tenant_id id (in_batches affected)
  emit (message_event "message_revoked" s.tenant_id s id)
  ask (get s id manage)

unfoldable pub delete : Subjects → String → Bool → Act (Unit {0})
delete s id manage = do
  m ← ask (managed s id manage)
  ensure (is_draft m.status || is_archived m.status || is_revoked m.status) state
  st (delete_message s.tenant_id id)
  emit (message_event "message_deleted" s.tenant_id s id)

abbrev pub page_limit : ℕ → ℕ
page_limit n = if nat_eq n 0 || ltb 100 n then 50 else n

pub record RecipientView : Type 0 where
  pub id : String
  pub recipient_id : String
  pub status : Delivery
  pub read_at : Option ℕ
  pub created_at : ℕ

abbrev recipient_view : InboxRow → RecipientView
recipient_view r = record {
  id = r.id;
  recipient_id = r.recipient_id;
  status = r.status;
  read_at = r.read_at;
  created_at = r.created_at;
}

abbrev last_id : List InboxRow → String
last_id [] = ""
last_id (r ∷ []) = r.id
last_id (r ∷ s ∷ rs) = last_id (s ∷ rs)

unfoldable pub recipients :
    Subjects
    → String
    → Option Delivery
    → String
    → ℕ
    → Bool
    → Store
    → Result (List RecipientView × String)
recipients s id status cursor limit manage m =
    let n = page_limit limit in
    bind_result (managed s id manage m) (λ _.
      map_result
        (λ (rows : List InboxRow).
          (map recipient_view rows, if nat_eq (length rows) n then last_id rows else ""))
        (message_recipients s.tenant_id id status cursor n m))

module _ (new_id : ℕ → String) (dir : Directory) where
  -- The immediate half of Send.
  unfoldable pub publish_now : Subjects → String → ℕ → Act SendResult
  publish_now s id now = do
    st (set_message_status s.tenant_id id publishing none)
    r ← publish new_id dir s.tenant_id id s now
    pure (record { status = published; recipient_count = r.0; dropped = r.1 })

  unfoldable pub send : Subjects → String → Bool → ℕ → Act SendResult
  send s id manage now = do
    m ← ask (managed s id manage)
    ensure (is_draft m.status) state
    if after m.scheduled_at now then schedule s id else publish_now s id now
