-- ===== src/Audit.antt =====
-- internal/audit/audit.go: the vocabulary of the events and their validation. An event is World's, with
-- its correlation id and its details.
pub mod Guard
pub mod Writer
pub mod Rows
use go_tangra_notification.Prelude.{
  Bool, true, false, List, [], ◌∷◌, String, not, if◌then◌else◌, ◌==◌, contains, Result, ok, err,
  Err, injected,
}
use go_tangra_notification.World.{Event}

abbrev pub known_types : List String
known_types =
    "channel_created" ∷ "channel_updated" ∷ "channel_deleted" ∷ "channel_tested"
    ∷ "template_created" ∷ "template_updated" ∷ "template_deleted" ∷ "template_previewed"
    ∷ "notification_sent" ∷ "notification_failed" ∷ "grant_created" ∷ "grant_revoked"
    ∷ "access_refused" ∷ "category_created" ∷ "category_updated" ∷ "category_deleted"
    ∷ "message_created" ∷ "message_updated" ∷ "message_deleted" ∷ "message_published"
    ∷ "message_revoked" ∷ "message_archived" ∷ "inbox_read" ∷ "inbox_deleted" ∷ "event_published"
    ∷ "backup_exported" ∷ "backup_exported_with_credentials" ∷ "backup_imported" ∷ "stream_opened"
    ∷ "stream_refused" ∷ []

unfoldable pub known : String → Bool
known t = contains known_types t

abbrev pub known_outcomes : List String
known_outcomes = "ok" ∷ "refused" ∷ "failed" ∷ []

abbrev pub actor_kinds : List String
actor_kinds = "user" ∷ "service" ∷ "system" ∷ []

abbrev pub subject_kinds : List String
subject_kinds =
    "channel" ∷ "template" ∷ "notification" ∷ "grant" ∷ "category" ∷ "message" ∷ "inbox" ∷ "backup"
    ∷ "system" ∷ []

unfoldable pub validate_event : Event → Result (Unit {0})
unfolding known
validate_event e =
    if not (known e.kind)
    then err (injected "audit: unknown event type")
    else if e.tenant_id == ""
    then err (injected "audit: tenant_id is required")
    else if not (contains known_outcomes e.outcome)
    then err (injected "audit: outcome")
    else if not (contains actor_kinds e.actor_kind)
    then err (injected "audit: actor_kind")
    else if not (contains subject_kinds e.subject_kind)
    then err (injected "audit: subject_kind")
    else ok tt
