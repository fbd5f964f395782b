-- ===== src/Messages/Input.antt =====
-- internal/messages/messages.go: requests and their validation, views, and who may manage a message.
use go_tangra_notification.Prelude.{
  ℕ, ℤ, pos, Bool, true, false, Option, none, some, List, [], ◌∷◌, String, len, ◌&&◌, ◌||◌, not,
  if◌then◌else◌, ◌==◌, ltb, nat_eq, length, contains, strp, Result, ok, err, invalid, ℤ_lt,
  map_result,
}
use go_tangra_notification.Store.{Message, Recipients, Status}
use go_tangra_notification.Authz.Decide.{Subjects}

abbrev pub max_recipients : ℕ
max_recipients = 10000

abbrev pub fanout_batch : ℕ
fanout_batch = 1000

pub record CategoryInput : Type 0 where
  pub name : String
  pub description : String
  pub sort : ℤ

unfoldable pub validate_category : CategoryInput → Result CategoryInput
validate_category i =
    if nat_eq (len i.name) 0 || ltb 100 (len i.name)
    then err (invalid "name must be 1-100 characters" "name")
    else if ltb 500 (len i.description)
    then err (invalid "description too long" "description")
    else if ℤ_lt i.sort (pos 0) || ℤ_lt (pos 100000) i.sort
    then err (invalid "sort out of range" "sort")
    else ok i

pub record MessageInput : Type 0 where
  pub title : String
  pub content : String
  pub kind : String
  pub category_id : String
  pub recipients : Recipients
  pub scheduled_at : Option ℕ

-- The loop over the recipients: each once, in order; none where an id is empty.
unfoldable pub dedup : List String → List String → Option (List String)
dedup seen [] = some []
dedup seen (u ∷ us) =
    let old = contains seen u in
    let rest = dedup (if old then seen else u ∷ seen) us in
    if u == ""
    then none
    else if old
    then rest
    else elim rest [ none ↦ none | some l ↦ some (u ∷ l) ]

unfoldable pub validate_recipients : Recipients → Result Recipients
validate_recipients r = elim (dedup [] r.users) [
  | none ↦ err (invalid "empty recipient id" "recipients")
  | some l ↦ ok (record r { users = l })
]

abbrev bool_eq : Bool → Bool → Bool
bool_eq true b = b
bool_eq false b = not b

abbrev pub default_kind : String → String
default_kind k = if k == "" then "notification" else k

unfoldable pub validate : MessageInput → Result MessageInput
validate i =
    let kind = default_kind i.kind in
    if nat_eq (len i.title) 0 || ltb 200 (len i.title)
    then err (invalid "title must be 1-200 characters" "title")
    else if ltb 65536 (len i.content)
    then err (invalid "content exceeds 64 KiB" "content")
    else if not (kind == "notification") && not (kind == "private") && not (kind == "group")
    then err (invalid "unknown type" "type")
    else if bool_eq i.recipients.all (ltb 0 (length i.recipients.users))
    then err (invalid "recipients must be all=true or a list of users" "recipients")
    else if ltb max_recipients (length i.recipients.users)
    then err (invalid "too many recipients" "recipients")
    else map_result (λ r. record i { kind = kind; recipients = r })
        (validate_recipients i.recipients)

unfoldable pub user_ptr : Subjects → Option String
user_ptr s = if s.user_id == "" then none else some s.user_id

unfoldable pub can_manage : Message → Subjects → Bool → Bool
can_manage m s manage =
    manage
    || (not (s.user_id == "") && strp m.sender_id == s.user_id)
    || (not (s.service == "") && m.sender_service == s.service)

pub record MessageView : Type 0 where
  pub id : String
  pub title : String
  pub content : String
  pub kind : String
  pub status : Status
  pub category_id : Option String
  pub category_name : String
  pub sender_id : String
  pub recipients : Recipients
  pub recipient_count : ℕ
  pub read_count : ℕ
  pub scheduled_at : Option ℕ
  pub published_at : Option ℕ
  pub created_by : String
  pub updated_by : String
  pub created_at : ℕ
  pub updated_at : ℕ

unfoldable pub message_view : Message → MessageView
message_view m = record {
  id = m.id;
  title = m.title;
  content = m.content;
  kind = m.kind;
  status = m.status;
  category_id = m.category_id;
  category_name = m.category_name;
  sender_id = if strp m.sender_id == "" then m.sender_service else strp m.sender_id;
  recipients = m.recipients;
  recipient_count = m.recipient_count;
  read_count = m.read_count;
  scheduled_at = m.scheduled_at;
  published_at = m.published_at;
  created_by = strp m.created_by;
  updated_by = strp m.updated_by;
  created_at = m.created_at;
  updated_at = m.updated_at;
}
