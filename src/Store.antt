-- ===== src/Store.antt =====
-- internal/store/models.go: the rows of the tables. A time is a number of nanoseconds since Go's
-- zero time, so that 0 is the time for which `IsZero` holds; a pointer is an Option; the JSON of a
-- message's recipients is kept as the value that it encodes.
use go_tangra_notification.Prelude.{ℕ, ℤ, Bool, Option, List, String}

pub record Channel : Type 0 where
  pub id : String
  pub tenant_id : String
  pub name : String
  pub kind : String
  pub settings_sealed : List ℕ
  pub settings_public : List ℕ
  pub enabled : Bool
  pub is_default : Bool
  pub managed : Bool
  pub created_by : Option String
  pub updated_by : Option String
  pub created_at : ℕ
  pub updated_at : ℕ
  pub template_count : ℕ

pub record Template : Type 0 where
  pub id : String
  pub tenant_id : String
  pub name : String
  pub channel_id : Option String
  pub channel_type : String
  pub subject : String
  pub body : String
  pub variables : List String
  pub is_default : Bool
  pub created_by : Option String
  pub updated_by : Option String
  pub created_at : ℕ
  pub updated_at : ℕ
  pub channel_name : String
  pub system_key : Option String
  pub builtin_subject : String
  pub builtin_body : String
  pub required_variables : List String
  pub secret_variables : List String

pub record LogRow : Type 0 where
  pub id : String
  pub tenant_id : String
  pub created_at : ℕ
  pub channel_id : String
  pub channel_type : String
  pub template_id : Option String
  pub template_key : Option String
  pub recipient : String
  pub rendered_subject : String
  pub rendered_body : String
  pub status : String
  pub error : String
  pub sender_kind : String
  pub sender_id : String
  pub test : Bool
  pub sent_at : Option ℕ

-- `start` and `end` are From and To; 0 is no limit.
pub record LogFilter : Type 0 where
  pub channel_id : String
  pub template_id : String
  pub recipient : String
  pub status : String
  pub sender_id : String
  pub start : ℕ
  pub end : ℕ
  pub cursor_ts : ℕ
  pub cursor_id : String
  pub limit : ℕ

pub record Grant : Type 0 where
  pub id : String
  pub tenant_id : String
  pub resource_type : String
  pub resource_id : String
  pub subject_type : String
  pub subject_id : String
  pub relation : String
  pub granted_by : Option String
  pub granted_at : ℕ
  pub expires_at : Option ℕ

pub record Category : Type 0 where
  pub id : String
  pub tenant_id : String
  pub name : String
  pub description : String
  pub sort : ℤ
  pub created_by : Option String
  pub updated_by : Option String
  pub created_at : ℕ
  pub updated_at : ℕ
  pub message_count : ℕ

-- The message statuses of internal/messages/messages.go; the rows hold no other.
pub data Status : Type 0 where
  draft scheduled publishing published revoked archived : Status

pub record Recipients : Type 0 where
  pub all : Bool
  pub users : List String

pub record Message : Type 0 where
  pub id : String
  pub tenant_id : String
  pub title : String
  pub content : String
  pub kind : String
  pub status : Status
  pub category_id : Option String
  pub sender_id : Option String
  pub sender_service : String
  pub recipients : Recipients
  pub scheduled_at : Option ℕ
  pub lease_until : Option ℕ
  pub published_at : Option ℕ
  pub created_by : Option String
  pub updated_by : Option String
  pub created_at : ℕ
  pub updated_at : ℕ
  pub category_name : String
  pub recipient_count : ℕ
  pub read_count : ℕ

-- The statuses of one delivery.
pub data Delivery : Type 0 where
  sent received read revoked deleted : Delivery

pub record InboxRow : Type 0 where
  pub id : String
  pub tenant_id : String
  pub message_id : String
  pub recipient_id : String
  pub status : Delivery
  pub read_at : Option ℕ
  pub created_at : ℕ
  pub updated_at : ℕ
  pub message : Option Message
