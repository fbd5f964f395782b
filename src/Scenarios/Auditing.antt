-- ===== src/Scenarios/Auditing.antt =====
-- internal/audit: runs of the guard and of the writer.
use go_tangra_notification.Prelude.{
  ℕ, false, Option, none, some, List, [], ◌∷◌, ◌≡◌, refl, String, Result, ok, Err, injected,
  if◌then◌else◌, nat_eq,
}
use go_tangra_notification.Audit.Guard.{
  text, array, field, no_field, detail, no_detail, DetailFields, guard_fields, bytes_of,
}
use go_tangra_notification.Audit.{validate_event, known}
use go_tangra_notification.Audit.Guard.Clean.{CleanFields}
use go_tangra_notification.Audit.Rows.{audit_row-CleanFields}
use go_tangra_notification.Audit.Writer.{
  AuditEvent, AuditRow, audit_row, WriterStep, emit_step, receive_step, tick_step, new_writer,
  run_writer, close_writer,
}
use go_tangra_notification.Audit.Writer.Once.{concat, accepted}
use go_tangra_notification.Audit.Writer.Drained.{close_writer-concat}

abbrev audited : AuditRow
audited = record {
  ts = 5;
  event = record {
    kind = "inbox_read";
    tenant_id = "acme";
    actor_kind = "user";
    actor_id = "u";
    subject_kind = "inbox";
    subject_id = "i";
    outcome = "ok";
    reason = "";
  };
  correlation_id = "";
  details = "{}";
}

abbrev leaky : DetailFields
leaky = field "password" (text (bytes_of "hunter2")) (
    field "note" (array (detail (text (bytes_of "a notif-marker-pw-1")) no_detail))
      (field "name" (text (bytes_of "Mail")) no_field))

abbrev leaking : AuditEvent
leaking = record { event = audited.event; correlation_id = "x"; details = leaky }

-- A marshaller that gives the number of the fields.
abbrev tally : DetailFields → Result String
tally no_field = ok "0"
tally (field k v no_field) = ok "1"
tally _ = ok "more"

leaking_row :
    audit_row (λ s. s) tally leaking 5
    ≡ ok (record audited { correlation_id = "x"; details = "more" })
unfolding audit_row validate_event known guard_fields
leaking_row = refl

audit_row-CleanFields_example :
    (tally (guard_fields (λ s. s) leaky) ≡ ok "more")
    × CleanFields (λ s. s) (guard_fields (λ s. s) leaky)
    × (audited.event ≡ leaking.event)
    × ("x" ≡ leaking.correlation_id)
audit_row-CleanFields_example =
    audit_row-CleanFields (λ s. s) tally leaking 5
      (record audited { correlation_id = "x"; details = "more" }) leaking_row

-- The inserter fails on its first call.
abbrev flaky : ℕ → List AuditRow → Option Err
flaky n rows = if nat_eq n 0 then some (injected "down") else none

abbrev writer_steps : List WriterStep
writer_steps =
    emit_step (ok audited)
    ∷ receive_step
    ∷ tick_step
    ∷ emit_step (ok audited)
    ∷ emit_step (ok audited)
    ∷ []

close_writer-concat_example :
    let w = close_writer flaky (run_writer flaky writer_steps (new_writer 1)) in
    (w.running ≡ false)
    × (w.queue ≡ [])
    × (w.buf ≡ [])
    × (concat w.batches ≡ accepted flaky writer_steps (new_writer 1))
close_writer-concat_example = close_writer-concat flaky 1 writer_steps
