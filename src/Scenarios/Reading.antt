-- ===== src/Scenarios/Reading.antt =====
-- internal/inbox: a recipient reads a message while another's delivery waits.
use mathlib.Core.List.{Memᴰ}
use go_tangra_notification.Prelude.{
  ◌≡◌, refl, ◌⊎◌, false, some, [], ◌∷◌, ok, lookup, insert, values,
}
use go_tangra_notification.Store.{InboxRow, Delivery}
use go_tangra_notification.Memstore.{Store, empty, failing, failing_read}
use go_tangra_notification.Memstore.Messages.{decorate_message}
use go_tangra_notification.Memstore.Inbox.{
  is_active, is_deleted, get_inbox_entry, entry, with_message, visible, set_inbox_status, mark_rows,
  own_row, marked,
}
use go_tangra_notification.Authz.Decide.{Subjects}
use go_tangra_notification.Inbox.{EntryView, entry_view, read, first_read}
use go_tangra_notification.Inbox.Own.{outcomes, inbox_others, inbox_closed}
use go_tangra_notification.Scenarios.Messaging.{world, delivery, sent_notice, sent_store}

abbrev bob : Subjects
bob = record { tenant_id = "acme"; user_id = "bob"; roles = []; service = "" }

abbrev for_cy : InboxRow
for_cy = record (delivery "cy") { id = "j"; status = Delivery.revoked }

abbrev two : Store
two = record sent_store { inbox = ("i", delivery "bob") ∷ ("j", for_cy) ∷ [] }

abbrev after_read : Store
after_read = (read bob "i" (world two)).1.store

listed : Memᴰ after_read (outcomes bob "i" ("i" ∷ "j" ∷ []) "unread" (world two))
unfolding outcomes
listed = Memᴰ.head refl

cy_there : lookup "j" two.inbox ≡ some for_cy
unfolding lookup empty
cy_there = refl

inbox_others_example :
    (lookup "j" after_read.inbox ≡ some for_cy) × (after_read.messages ≡ two.messages)
inbox_others_example =
    inbox_others bob "i" ("i" ∷ "j" ∷ []) "unread" (world two) after_read "j" for_cy listed cy_there
      refl

inbox_closed_example :
    (y : InboxRow) × (lookup "j" after_read.inbox ≡ some y)
    × (is_active y.status ≡ false)
    × ((is_deleted for_cy.status ≡ false) ⊎ (y.status ≡ for_cy.status))
inbox_closed_example =
    inbox_closed bob "i" ("i" ∷ "j" ∷ []) "unread" (world two) after_read "j" for_cy listed cy_there
      refl

abbrev now_read : EntryView
now_read = entry_view (record (delivery "bob") {
  status = Delivery.read;
  read_at = some 5;
  message = some (decorate_message after_read sent_notice);
})

read_run : (read bob "i" (world two)).0 ≡ ok now_read
unfolding read first_read entry_view get_inbox_entry entry with_message decorate_message visible
    set_inbox_status mark_rows own_row marked failing failing_read lookup insert values empty
read_run = refl
