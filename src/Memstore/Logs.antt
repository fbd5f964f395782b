-- ===== src/Memstore/Logs.antt =====
-- internal/memstore/memstore.go: the notification log.
use go_tangra_notification.Prelude.{
  ℕ, ◌+◌, Bool, Option, none, some, List, String, ◌&&◌, ◌||◌, not, if◌then◌else◌, ◌==◌, nat_eq, ltb,
  select, sort_by, count, strp, contains_text, insert, update_all, values, Exec, Result, ok, err,
  not_found, map,
}
use go_tangra_notification.Store.{LogRow, LogFilter}
use go_tangra_notification.Memstore.Owned.{Store, failing, failing_read, owned, found}
use go_tangra_notification.Memstore.Messages.{newer, behind, capped}

unfoldable pub insert_log : LogRow → Exec Store (Unit {0})
insert_log l = failing "InsertLog" λ m. (
  ok tt,
  record m {
    logs =
        insert l.id
          (record l { created_at = if nat_eq l.created_at 0 then m.now else l.created_at }) m.logs;
  },
)

-- The row with its outcome.
unfoldable pub with_outcome : String → String → String → String → Option ℕ → LogRow → LogRow
with_outcome status error subject body sent_at l = record l {
  status = status;
  error = error;
  rendered_subject = subject;
  rendered_body = body;
  sent_at = sent_at;
}

-- Only a pending row takes an outcome.
unfoldable pub set_log_outcome :
    String → String → String → String → String → String → Option ℕ → Exec Store (Unit {0})
unfolding with_outcome
set_log_outcome tid id status error subject body sent_at = failing "SetLogOutcome" λ m.
    elim (owned (λ (l : LogRow). l.tenant_id) tid id m.logs) [
      | none ↦ (err not_found, m)
      | some l ↦
          if l.status == "pending"
          then (
            ok tt,
            record m { logs = insert id (with_outcome status error subject body sent_at l) m.logs },
          )
          else (err not_found, m)
    ]

unfoldable pub get_log : String → String → Store → Result LogRow
get_log tid id =
    failing_read "GetLog" (λ m. found (owned (λ (l : LogRow). l.tenant_id) tid id m.logs))

unfoldable pub stale : ℕ → LogRow → Bool
stale older l = l.status == "pending" && ltb l.created_at older

unfoldable pub expire_row : ℕ → LogRow → LogRow
unfolding stale
expire_row older l =
    if stale older l then record l { status = "failed"; error = "interrupted" } else l

-- How many rows were stuck; each is failed.
unfoldable pub expire_pending_logs : ℕ → Exec Store ℕ
unfolding expire_row stale
expire_pending_logs older = failing "ExpirePendingLogs" λ m. (
  ok (count (stale older) (values m.logs)),
  record m { logs = update_all (expire_row older) m.logs },
)

module _ (lower : String → String) where
  unfoldable pub log_selected : String → ℕ → LogFilter → LogRow → Bool
  log_selected tid until f l =
      l.tenant_id == tid
      && (f.channel_id == "" || l.channel_id == f.channel_id)
      && (f.template_id == "" || strp l.template_id == f.template_id)
      && (f.recipient == "" || contains_text (lower l.recipient) (lower f.recipient))
      && (f.status == "" || l.status == f.status)
      && (f.sender_id == "" || l.sender_id == f.sender_id)
      && not (ltb l.created_at f.start)
      && not (ltb until l.created_at)
      && behind f.cursor_ts f.cursor_id l.created_at l.id

  -- Without an end the window ends a minute from now. The bodies are left out.
  unfoldable pub log_page : String → LogFilter → Store → Result (List LogRow)
  unfolding log_selected
  log_page tid f = failing_read "LogPage" (λ m.
      let until = if nat_eq f.end 0 then m.now + 60000000000 else f.end in
      ok (
        capped f.limit (
          sort_by (λ (a b : LogRow). newer a.created_at a.id b.created_at b.id)
            (map (λ (l : LogRow). record l { rendered_body = "" })
              (select (log_selected tid until f) (values m.logs))))))
