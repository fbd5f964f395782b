-- ===== src/Memstore/Inbox.antt =====
-- internal/memstore/memstore.go: the deliveries of messages to recipients.
use go_tangra_notification.Prelude.{
  ℕ, suc, Bool, true, false, Option, none, some, List, [], ◌∷◌, String, ◌&&◌, ◌||◌, not,
  if◌then◌else◌, ◌==◌, nat_eq, str_lt, select, sort_by, any, count, Table, lookup, insert, values,
  update_all, and_then, Exec, Result, ok, err, not_found, conflict, map,
}
use go_tangra_notification.Store.{InboxRow, Delivery, sent, received, read, deleted}
use go_tangra_notification.Memstore.Owned.{Store, failing, failing_read}
use go_tangra_notification.Memstore.Messages.{is_some, decorate_message, newer, behind, capped}

abbrev pub is_revoked : Delivery → Bool
is_revoked Delivery.revoked = true
is_revoked _ = false

abbrev pub is_deleted : Delivery → Bool
is_deleted deleted = true
is_deleted _ = false

abbrev pub is_sent : Delivery → Bool
is_sent sent = true
is_sent _ = false

abbrev pub is_read : Delivery → Bool
is_read read = true
is_read _ = false

abbrev pub is_unread : Delivery → Bool
is_unread sent = true
is_unread received = true
is_unread _ = false

abbrev pub is_active : Delivery → Bool
is_active s = is_unread s || is_read s

-- The unique index of the table: one delivery for a message and a recipient.
abbrev pub same_delivery : InboxRow → InboxRow → Bool
same_delivery r x = x.message_id == r.message_id && x.recipient_id == r.recipient_id

-- The loop of InsertInboxBatch: the number of rows added, and the table.
unfoldable pub insert_rows : ℕ → List InboxRow → Table InboxRow → ℕ × Table InboxRow
insert_rows now [] t = (0, t)
insert_rows now (r ∷ rs) t =
    let dup = any (same_delivery r) (values t) in
    let t' = if dup then t else insert r.id (record r { created_at = now; updated_at = now }) t in
    let rest = insert_rows now rs t' in (if dup then rest.0 else suc rest.0, rest.1)

unfoldable pub insert_inbox_batch : List InboxRow → Exec Store ℕ
unfolding insert_rows
insert_inbox_batch rows =
    failing "InsertInboxBatch"
      λ m. let out = insert_rows m.now rows m.inbox in (ok out.0, record m { inbox = out.1 })

unfoldable pub visible : InboxRow → Bool
visible i = not (is_deleted i.status) && (not (is_revoked i.status) || is_some i.read_at)

unfoldable pub with_message : Store → InboxRow → InboxRow
unfolding decorate_message
with_message m i = elim (lookup i.message_id m.messages) [
  | none ↦ i
  | some x ↦ record i { message = some (decorate_message m x) }
]

abbrev pub mine : String → String → InboxRow → Bool
mine tid rid i = i.tenant_id == tid && i.recipient_id == rid

-- The filter of a listing: "unread", "read", or any.
abbrev pub in_view : String → Delivery → Bool
in_view status s =
    not (status == "unread" && not (is_unread s)) && not (status == "read" && not (is_read s))

unfoldable pub inbox_page :
    String → String → String → ℕ → String → ℕ → Store → Result (List InboxRow)
unfolding visible with_message
inbox_page tid rid status cts cid limit = failing_read "InboxPage" (λ m. ok (
    capped limit (
      sort_by (λ (a b : InboxRow). newer a.created_at a.id b.created_at b.id)
        (map (with_message m) (
          select
            (λ (i : InboxRow).
              mine tid rid i
              && visible i
              && in_view status i.status
              && behind cts cid i.created_at i.id)
            (values m.inbox))))))

-- The recipient's own entry, if it is visible.
unfoldable pub entry : String → String → String → Table InboxRow → Option InboxRow
unfolding visible
entry tid rid id t = elim (lookup id t) [
  | none ↦ none
  | some i ↦ if mine tid rid i && visible i then some i else none
]

unfoldable pub get_inbox_entry : String → String → String → Store → Result InboxRow
unfolding entry with_message
get_inbox_entry tid rid id =
    failing_read "GetInboxEntry" (λ m. elim (entry tid rid id m.inbox) [
      | none ↦ err not_found
      | some i ↦ ok (with_message m i)
    ])

abbrev pub unread_of : String → String → InboxRow → Bool
unread_of tid rid i = mine tid rid i && is_unread i.status

unfoldable pub inbox_unread : String → String → Store → Result ℕ
inbox_unread tid rid =
    failing_read "InboxUnread" (λ m. ok (count (unread_of tid rid) (values m.inbox)))

-- What the `switch` of SetInboxStatus makes of an entry: none where it leaves the entry alone.
unfoldable pub marked : ℕ → String → InboxRow → Option InboxRow
marked now status i =
    if status == "read"
    then (if is_active i.status
        then some (record i {
          status = read;
          read_at = elim i.read_at [ none ↦ some now | some t ↦ some t ];
          updated_at = now;
        })
        else none)
    else if status == "unread"
    then (if is_active i.status
        then some (record i { status = sent; read_at = none; updated_at = now })
        else none)
    else if status == "received"
    then (if is_sent i.status
        then some (record i { status = received; updated_at = now })
        else none)
    else (if is_deleted i.status
        then none
        else some (record i { status = deleted; updated_at = now }))

abbrev pub known_mark : String → Bool
known_mark s = s == "read" || s == "unread" || s == "received" || s == "deleted"

-- The caller's own row, visible or not.
unfoldable pub own_row : String → String → String → Table InboxRow → Option InboxRow
own_row tid rid id t = elim (lookup id t) [
  | none ↦ none
  | some i ↦ if mine tid rid i then some i else none
]

abbrev pub put : String → Option InboxRow → Table InboxRow → Table InboxRow
put id none t = t
put id (some i) t = insert id i t

-- The loop: the number of entries changed, false if it met a status that it does not know, and the
-- table.
unfoldable pub mark_rows :
    String → String → ℕ → String → List String → Table InboxRow → ℕ × Bool × Table InboxRow
unfolding own_row marked
mark_rows tid rid now status [] t = (0, true, t)
mark_rows tid rid now status (id ∷ ids) t =
    let own = own_row tid rid id t in
    let new = and_then own (marked now status) in
    let rest = mark_rows tid rid now status ids (put id new t) in
    if is_some own && not (known_mark status)
    then (0, false, t)
    else (if is_some new then suc rest.0 else rest.0, rest.1, rest.2)

unfoldable pub set_inbox_status : String → String → List String → String → Exec Store ℕ
unfolding mark_rows
set_inbox_status tid rid ids status = failing "SetInboxStatus" λ m.
    let out = mark_rows tid rid m.now status ids m.inbox in
    (if out.1 then ok out.0 else err conflict, record m { inbox = out.2 })

unfoldable pub to_revoke : String → String → InboxRow → Bool
to_revoke tid mid i = i.tenant_id == tid && i.message_id == mid && is_active i.status

unfoldable pub revoke_row : String → String → InboxRow → InboxRow
unfolding to_revoke
revoke_row tid mid i = if to_revoke tid mid i then record i { status = Delivery.revoked } else i

unfoldable pub revoke_unread : String → String → Exec Store (List String)
unfolding revoke_row to_revoke
revoke_unread tid mid = failing "RevokeUnread" λ m. (
  ok (
      sort_by str_lt
        (map (λ (i : InboxRow). i.recipient_id) (select (to_revoke tid mid) (values m.inbox)))),
  record m { inbox = update_all (revoke_row tid mid) m.inbox },
)

abbrev ordinal : Delivery → ℕ
ordinal sent = 0
ordinal received = 1
ordinal read = 2
ordinal Delivery.revoked = 3
ordinal deleted = 4

abbrev fits : Option Delivery → Delivery → Bool
fits none s = true
fits (some d) s = nat_eq (ordinal s) (ordinal d)

unfoldable pub message_recipients :
    String → String → Option Delivery → String → ℕ → Store → Result (List InboxRow)
message_recipients tid mid status after limit = failing_read "MessageRecipients" (λ m. ok (
    capped limit (
      sort_by (λ (a b : InboxRow). str_lt a.id b.id)
        (select
          (λ (i : InboxRow).
            i.tenant_id == tid && i.message_id == mid && fits status i.status && str_lt after i.id)
          (values m.inbox)))))
