-- ===== src/Audit/Rows.antt =====
-- internal/audit/audit.go: the details of the rows.
use go_tangra_notification.Prelude.{ℕ, ◌≡◌, String, Result, ok, Result-cases, inl, inr, arith}
use go_tangra_notification.Audit.{validate_event}
use go_tangra_notification.Audit.Guard.{DetailFields, guard_fields}
use go_tangra_notification.Audit.Guard.Clean.{CleanFields, guard_fields-CleanFields}
use go_tangra_notification.Audit.Writer.{AuditEvent, AuditRow, audit_row}

-- The details of a row are guarded: where an event gives a row, its details are the JSON of the event's
-- guarded details, and in these, at any depth, every text is the mark of a redaction, or it has 256
-- bytes at most, and nowhere in it is a marker, the first line of a private key, or a token of three
-- base64url parts that begins with eyJ; and what stands under a key whose lower case contains
-- password, secret, token, api_key, body, content or settings is the mark. It is about the details
-- alone: the row takes the reason, the subject and the correlation id from the event as they are, and
-- values that are neither texts, objects nor arrays of these are not looked at.
pub audit_row-CleanFields :
    (lower : String → String) (marshal : DetailFields → Result String) (e : AuditEvent) (now : ℕ)
    (r : AuditRow)
    → audit_row lower marshal e now ≡ ok r
    → (marshal (guard_fields lower e.details) ≡ ok r.details)
      × CleanFields lower (guard_fields lower e.details)
      × (r.event ≡ e.event)
      × (r.correlation_id ≡ e.correlation_id)
unfolding audit_row
audit_row-CleanFields lower marshal e now r h = elim (Result-cases (validate_event e.event)) [
  | inr (f, x) ↦ ground (arith, x, h)
  | inl (u, x) ↦ elim (Result-cases (marshal (guard_fields lower e.details))) [
    | inr (f, y) ↦ ground (arith, x, y, h)
    | inl (js, y) ↦ (
      ground (arith, x, y, h),
      guard_fields-CleanFields lower e.details,
      ground (arith, x, y, h),
      ground (arith, x, y, h),
    )
  ]
]
