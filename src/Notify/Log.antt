-- ===== src/Notify/Log.antt =====
-- internal/notify/send.go and internal/store/lists.go: reading the log, its window, and the expiry of
-- entries that stay pending.
use go_tangra_notification.Prelude.{
  ℕ, ◌+◌, ◌-◌, Bool, Option, none, some, List, [], ◌∷◌, String, ◌&&◌, ◌||◌, not, if◌then◌else◌,
  ◌==◌, nat_eq, ltb, length, map, Result, ok, err, invalid, not_found, span, bind_result,
  map_result,
}
use go_tangra_notification.Store.{LogRow, LogFilter}
use go_tangra_notification.Memstore.{Store}
use go_tangra_notification.Memstore.Logs.{get_log, log_page, expire_pending_logs}
use go_tangra_notification.World.{Act, st}
use go_tangra_notification.Authz.Decide.{Subjects, actor_id}
use go_tangra_notification.Messages.Cursor.{encode_cursor}
use go_tangra_notification.Notify.Deliver.{LogView, log_view}

-- Nanoseconds.
abbrev pub minute : ℕ
minute = 60000000000

-- A week.
abbrev pub log_window : ℕ
log_window = 604800000000000

-- 90 days.
abbrev pub max_span : ℕ
max_span = 7776000000000000

unfoldable pub window : ℕ → ℕ → ℕ → Result (ℕ × ℕ)
window start until now =
    let last = if nat_eq until 0 then now else until in
    let until' = if nat_eq until 0 then now + minute else until in
    if not (nat_eq start 0) && ltb max_span (last - start)
    then err span
    else ok (if nat_eq start 0 then until' - log_window else start, until')

abbrev pub known_status : String → Bool
known_status s = s == "" || s == "pending" || s == "sent" || s == "failed"

abbrev pub with_window : LogFilter → ℕ × ℕ → LogFilter
with_window f (a, b) = record f { start = a; end = b }

unfoldable pub log_filter : Subjects → LogFilter → Bool → ℕ → Result LogFilter
unfolding window
log_filter s f all_senders now =
    let f' = if all_senders then f else record f { sender_id = actor_id s } in
    if not (known_status f.status)
    then err (invalid "unknown status" "status")
    else if not (nat_eq f.start 0) && not (nat_eq f.end 0) && ltb f.end f.start
    then err (invalid "to is before from" "to")
    else map_result (with_window f') (window f.start f.end now)

abbrev pub page_size : ℕ → ℕ
page_size n = if nat_eq n 0 || ltb 100 n then 50 else n

abbrev last_row : List LogRow → Option LogRow
last_row [] = none
last_row (x ∷ []) = some x
last_row (x ∷ y ∷ xs) = last_row (y ∷ xs)

-- `format` and `parse` are the time's format in a cursor.
module _ (lower : String → String) (format : ℕ → String) (parse : String → Option ℕ) where
  abbrev pub next_cursor : ℕ → List LogRow → String
  next_cursor size rows =
      if nat_eq (length rows) size
      then elim (last_row rows) [
        | none ↦ ""
        | some l ↦ encode_cursor format parse l.created_at l.id
      ]
      else ""

  abbrev pub pages : Subjects → LogFilter → Bool → Store → Result (List LogView × String)
  pages s f all_senders m =
      if not all_senders && f.sender_id == ""
      then ok ([], "")
      else map_result (λ rows. (map log_view rows, next_cursor (page_size f.limit) rows))
          (log_page lower s.tenant_id (record f { limit = page_size f.limit }) m)

  unfoldable pub list_log : Subjects → LogFilter → Bool → ℕ → Store → Result (List LogView × String)
  list_log s f all_senders now m =
      bind_result (log_filter s f all_senders now) (λ f'. pages s f' all_senders m)

abbrev own_only : Subjects → Bool → LogRow → Result LogView
own_only s all_senders l =
    if not all_senders && not (l.sender_id == actor_id s) then err not_found else ok (log_view l)

unfoldable pub get_log_view : Subjects → String → Bool → Store → Result LogView
get_log_view s id all_senders m = bind_result (get_log s.tenant_id id m) (own_only s all_senders)

unfoldable pub expire_pending : ℕ → ℕ → Act ℕ
expire_pending age now = st (expire_pending_logs (now - age))
