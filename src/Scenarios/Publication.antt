-- ===== src/Scenarios/Publication.antt =====
-- internal/messages: publishing, revoking and refusing at concrete stores.
use Prim.Native.String.{String}
use go_tangra_notification.Prelude.{
  ℕ, ◌≤◌, ◌+◌, arith, zero, suc, ◌≡◌, refl, ap, true, false, none, some, List, [], ◌∷◌, ok, err,
  Err, state, not_found, lookup, insert, values, ◌⊎◌,
}
use go_tangra_notification.Store.{Message, scheduled, publishing}
use go_tangra_notification.Memstore.{Store, empty, failing, failing_read, owned}
use go_tangra_notification.Memstore.Messages.{
  claimed, claim_due_messages, get_message, decorate_message, set_message_status, with_status,
  claimable,
}
use go_tangra_notification.Memstore.Inbox.{insert_inbox_batch, insert_rows}
use go_tangra_notification.Authz.Decide.{Subjects}
use go_tangra_notification.Messages.Input.{
  MessageInput, can_manage, validate, validate_recipients, dedup,
}
use go_tangra_notification.Messages.Publish.{
  publish, fan_out, fan_out_all, deliver_each, deliver, make_rows, batches,
}
use go_tangra_notification.Messages.Service.{managed, revoke}
use go_tangra_notification.Messages.Delivery.Reach.{Fresh}
use go_tangra_notification.Messages.Delivery.Audience.{Served, publish-Served}
use go_tangra_notification.Messages.Revocation.{Withdrawn, revoke_atomic}
use go_tangra_notification.Messages.Refusals.{
  revoke_of, send_of, attempt_on, refused_of_stranger, publishing_stuck,
}
use go_tangra_notification.Messages.Leases.{claim_due_messages_lem}
use go_tangra_notification.Scenarios.Messaging.{ids, ann, directory, notice, world, sent_store}

distinct_ids : (a b : ℕ) → ids a ≡ ids b → a ≡ b
distinct_ids zero zero h = refl
distinct_ids zero (suc b) h = cc
distinct_ids (suc a) zero h = cc
distinct_ids (suc a) (suc b) h = ap suc (distinct_ids a b (cc h))

abbrev due : Message
due = record notice { status = publishing }

abbrev due_store : Store
due_store = record (empty 5) { messages = ("m", due) ∷ [] }

due_read : get_message "acme" "m" due_store ≡ ok due
unfolding get_message failing_read owned decorate_message lookup values empty
due_read = refl

none_drawn : Fresh ids distinct_ids 0 due_store.inbox
unfolding lookup empty
none_drawn n h = refl

published_run : (publish ids directory "acme" "m" ann 6 (world due_store)).0 ≡ ok (2, [])
unfolding publish fan_out fan_out_all deliver_each deliver make_rows batches insert_inbox_batch
    insert_rows get_message decorate_message set_message_status with_status failing failing_read
    owned lookup insert values empty
published_run = refl

publish-Served_example :
    Served ids distinct_ids directory "acme" "m" due.recipients
      (publish ids directory "acme" "m" ann 6 (world due_store)).1
      []
publish-Served_example =
    publish-Served ids distinct_ids directory "acme" "m" ann 6 (world due_store) none_drawn due_read
      published_run

revoke_atomic_example :
    (((e : Err) × ((revoke ann "m" false (world sent_store)).0 ≡ err e))
      × ((revoke ann "m" false (world sent_store)).1.store ≡ sent_store))
    ⊎ Withdrawn "acme" "m" (revoke ann "m" false (world sent_store)).1.store
revoke_atomic_example = revoke_atomic ann "m" false (world sent_store)

abbrev bob : Subjects
bob = record { tenant_id = "acme"; user_id = "bob"; roles = []; service = "" }

bob_may_not : can_manage due bob false ≡ false
unfolding can_manage
bob_may_not = refl

refused_of_stranger_example :
    attempt_on ids directory revoke_of bob "m" false (world due_store)
    ≡ (some not_found, world due_store)
refused_of_stranger_example =
    refused_of_stranger ids directory revoke_of bob "m" false (world due_store) tt due_read
      bob_may_not

ann_may : managed ann "m" false due_store ≡ ok due
unfolding managed get_message can_manage failing_read owned decorate_message lookup values empty
ann_may = refl

publishing_stuck_example :
    (attempt_on ids directory (send_of 9) ann "m" false (world due_store)
      ≡ (some state, world due_store))
    × (claimable 9 due ≡ false)
publishing_stuck_example =
    publishing_stuck ids directory (send_of 9) ann "m" false (world due_store) 9 tt ann_may refl
      refl

abbrev input : List String → MessageInput
input users = record {
  title = "Notice";
  content = "Text";
  kind = "private";
  category_id = "";
  recipients = record { all = false; users = users };
  scheduled_at = none;
}

valid_run : validate (input ("bob" ∷ "cy" ∷ "bob" ∷ [])) ≡ ok (input ("bob" ∷ "cy" ∷ []))
unfolding validate validate_recipients dedup
valid_run = refl

abbrev waiting : Message
waiting = record notice { status = scheduled; scheduled_at = some 4 }

abbrev waiting_store : Store
waiting_store = record (empty 5) { messages = ("m", waiting) ∷ [] }

waiting_there : lookup "m" waiting_store.messages ≡ some waiting
unfolding lookup empty
waiting_there = refl

nine_in_lease : 9 ≤ 5 + 60
nine_in_lease = omega arith

claim_due_messages_lem_example :
    let m' = (claim_due_messages 5 60 50 waiting_store).1 in
    (lookup "m" m'.messages ≡ some waiting)
    ⊎ ((claimable 5 waiting ≡ true)
        × (lookup "m" m'.messages ≡ some (claimed 5 60 waiting))
        × (claimable 9 (claimed 5 60 waiting) ≡ false))
claim_due_messages_lem_example =
    claim_due_messages_lem 5 60 50 9 waiting_store "m" waiting waiting_there nine_in_lease
