-- ===== src/Inbox.antt =====
-- internal/inbox/inbox.go: a person's own view of the messages delivered to them.
pub mod Scope
pub mod Own
use go_tangra_notification.Prelude.{
  ℕ, Bool, true, false, Option, none, some, List, [], ◌∷◌, String, ◌&&◌, ◌||◌, not, if◌then◌else◌,
  ◌==◌, nat_eq, ltb, length, map, Exec, Result, ok, err, Err, inbox_input, pure, ensure,
  bind_result, map_result, ◌>>=◌, ◌>>◌,
}
use go_tangra_notification.Store.{Message, InboxRow, Delivery}
use go_tangra_notification.Memstore.{Store}
use go_tangra_notification.Memstore.Inbox.{
  is_unread, inbox_page, get_inbox_entry, inbox_unread, set_inbox_status,
}
use go_tangra_notification.World.{World, Act, Event, st, ask, emit}
use go_tangra_notification.Authz.Decide.{Subjects}
use go_tangra_notification.Messages.Cursor.{encode_cursor, decode_cursor}
use go_tangra_notification.Messages.Service.{page_limit}

-- The message part of an entry; the zero value where the row carries no message.
pub record Letter : Type 0 where
  pub id : String
  pub title : String
  pub content : String
  pub kind : String
  pub category_name : String
  pub sender_id : String
  pub published_at : Option ℕ

abbrev no_letter : Letter
no_letter = record {
  id = "";
  title = "";
  content = "";
  kind = "";
  category_name = "";
  sender_id = "";
  published_at = none;
}

abbrev sender : Option String → String → String
sender none service = service
sender (some id) service = id

abbrev letter : Option Message → Letter
letter none = no_letter
letter (some m) = record {
  id = m.id;
  title = m.title;
  content = m.content;
  kind = m.kind;
  category_name = m.category_name;
  sender_id = sender m.sender_id m.sender_service;
  published_at = m.published_at;
}

pub record EntryView : Type 0 where
  pub id : String
  pub message : Letter
  pub status : Delivery
  pub read_at : Option ℕ
  pub created_at : ℕ

unfoldable pub entry_view : InboxRow → EntryView
entry_view r = record {
  id = r.id;
  message = letter r.message;
  status = r.status;
  read_at = r.read_at;
  created_at = r.created_at;
}

pub record Page : Type 0 where
  pub items : List EntryView
  pub unread : ℕ
  pub next_cursor : String

unfoldable pub inbox_event : String → Subjects → String → Event
inbox_event kind s id = record {
  kind = kind;
  tenant_id = s.tenant_id;
  actor_kind = "user";
  actor_id = s.user_id;
  subject_kind = "inbox";
  subject_id = id;
  outcome = "ok";
  reason = "";
}

abbrev listing_status : String → Option String
listing_status t =
    if t == "" || t == "all" then some "" else if t == "unread" || t == "read" then some t else none

abbrev input_error : {A : Type 0} → Result A → Result A
input_error (ok a) = ok a
input_error (err e) = err inbox_input

module _ (format : ℕ → String) (parse : String → Option ℕ) where
  abbrev next : List InboxRow → String
  next [] = ""
  next (r ∷ []) = encode_cursor format parse r.created_at r.id
  next (r ∷ q ∷ rs) = next (q ∷ rs)

  abbrev page : ℕ → List InboxRow → ℕ → Page
  page n rows unread = record {
    items = map entry_view rows;
    unread = unread;
    next_cursor = if nat_eq (length rows) n then next rows else "";
  }

  unfoldable pub list : Subjects → String → String → ℕ → Store → Result Page
  list s status cursor limit m = elim (listing_status status) [
    | none ↦ err inbox_input
    | some v ↦ bind_result (input_error (decode_cursor format parse cursor)) (λ c.
        bind_result (inbox_page s.tenant_id s.user_id v c.0 c.1 (page_limit limit) m) (λ rows.
          map_result (page (page_limit limit) rows) (inbox_unread s.tenant_id s.user_id m)))
  ]

unfoldable pub unread : Subjects → Store → Result ℕ
unread s m = inbox_unread s.tenant_id s.user_id m

-- The half of Read that marks an unread entry.
unfoldable pub first_read : Subjects → String → Act EntryView
first_read s id = do
  n ← st (set_inbox_status s.tenant_id s.user_id (id ∷ []) "read")
  row ← ask (get_inbox_entry s.tenant_id s.user_id id)
  emit (inbox_event "inbox_read" s id)
  pure (entry_view row)

unfoldable pub read : Subjects → String → Act EntryView
read s id = do
  row ← ask (get_inbox_entry s.tenant_id s.user_id id)
  if is_unread row.status then first_read s id else pure (entry_view row)

abbrev first_id : List String → String
first_id [] = ""
first_id (id ∷ ids) = id

abbrev marks : String → Bool
marks t = t == "read" || t == "unread" || t == "received"

abbrev bulk : List String → Bool
bulk ids = ltb 0 (length ids) && not (ltb 500 (length ids))

-- The number changed and the unread count.
unfoldable pub set_status : Subjects → List String → String → Act (ℕ × ℕ)
set_status s ids status = do
  ensure (bulk ids && marks status) inbox_input
  n ← st (set_inbox_status s.tenant_id s.user_id ids status)
  if status == "read" && ltb 0 n then emit (inbox_event "inbox_read" s (first_id ids)) else pure tt
  u ← ask (inbox_unread s.tenant_id s.user_id)
  pure (n, u)

unfoldable pub remove : Subjects → List String → Act (ℕ × ℕ)
remove s ids = do
  ensure (bulk ids) inbox_input
  n ← st (set_inbox_status s.tenant_id s.user_id ids "deleted")
  if ltb 0 n then emit (inbox_event "inbox_deleted" s (first_id ids)) else pure tt
  u ← ask (inbox_unread s.tenant_id s.user_id)
  pure (n, u)
