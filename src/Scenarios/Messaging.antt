-- ===== src/Scenarios/Messaging.antt =====
-- internal/messages: a tenant's message to two of its members, from draft to archive.
use Prim.Native.String.{String}
use go_tangra_notification.Prelude.{
  ℕ, zero, suc, ◌≡◌, refl, true, none, some, List, [], ◌∷◌, ok, lookup, arith, ==_iff, values,
}
use go_tangra_notification.Store.{Message, InboxRow, draft, published, sent}
use go_tangra_notification.World.{World}
use go_tangra_notification.Memstore.{Store, empty}
use go_tangra_notification.Authz.Decide.{Subjects}
use go_tangra_notification.Messages.Publish.{Directory}
use go_tangra_notification.Messages.Delivery.{Unique}
use go_tangra_notification.Messages.Refines.{Keyed}
use go_tangra_notification.Messages.Lifecycle.{Evolves, is_fixed, SameContent}
use go_tangra_notification.Messages.Calls.{
  Call, Op, send_op, archive_op, revoke_op, after_calls, after_calls-Evolves, after_calls_fixed,
  after_calls-Unique, after_calls-foreign,
}

abbrev pub ids : ℕ → String
ids zero = ""
ids (suc n) = String.◌∷◌ "i" (ids n)

abbrev pub ann : Subjects
ann = record { tenant_id = "acme"; user_id = "ann"; roles = []; service = "" }

abbrev pub eve : Subjects
eve = record { tenant_id = "other"; user_id = "ann"; roles = "owner" ∷ []; service = "" }

abbrev pub directory : Directory
directory = record { lookup = λ tid us. ok us; members = λ tid. (("bob" ∷ "cy" ∷ []) ∷ [], none) }

abbrev pub notice : Message
notice = record {
  id = "m";
  tenant_id = "acme";
  title = "Notice";
  content = "Text";
  kind = "notification";
  status = draft;
  category_id = none;
  sender_id = some "ann";
  sender_service = "";
  recipients = record { all = true; users = [] };
  scheduled_at = none;
  lease_until = none;
  published_at = none;
  created_by = some "ann";
  updated_by = some "ann";
  created_at = 1;
  updated_at = 1;
  category_name = "";
  recipient_count = 0;
  read_count = 0;
}

abbrev pub delivery : String → InboxRow
delivery rid = record {
  id = "i";
  tenant_id = "acme";
  message_id = "m";
  recipient_id = rid;
  status = sent;
  read_at = none;
  created_at = 4;
  updated_at = 4;
  message = none;
}

abbrev pub drafted : Store
drafted = record (empty 5) { messages = ("m", notice) ∷ [] }

abbrev pub world : Store → World
world m = record { store = m; drawn = 0; events = []; pushed = []; mails = [] }

abbrev call : Subjects → (op : Op) → Call
call s op = record { caller = s; op = op; id = "m"; manage = true; at = 6 }

abbrev life : List Call
life = call ann send_op ∷ call eve revoke_op ∷ call ann revoke_op ∷ call ann archive_op ∷ []

drafted-Keyed : Keyed drafted
unfolding lookup empty
drafted-Keyed id x h = ground (arith, h, ==_iff "m" id)

after_calls-Evolves_example :
    Evolves
      (lookup "m" drafted.messages)
      (lookup "m" (after_calls ids directory life (world drafted)).store.messages)
after_calls-Evolves_example =
    after_calls-Evolves ids directory life (world drafted) "m" drafted-Keyed

abbrev pub sent_notice : Message
sent_notice = record notice { status = published; published_at = some 4 }

abbrev pub sent_store : Store
sent_store = record (empty 5) {
  messages = ("m", sent_notice) ∷ [];
  inbox = ("i", delivery "bob") ∷ [];
}

sent_there : lookup "m" sent_store.messages ≡ some sent_notice
unfolding lookup empty
sent_there = refl

sent-Keyed : Keyed sent_store
unfolding lookup empty
sent-Keyed id x h = ground (arith, h, ==_iff "m" id)

after_calls_fixed_example :
    (y : Message) × (lookup "m" (after_calls ids directory life (world sent_store)).store.messages
      ≡ some y)
    × (is_fixed y.status ≡ true)
    × SameContent sent_notice y
after_calls_fixed_example =
    after_calls_fixed ids directory life (world sent_store) "m" sent_notice sent-Keyed sent_there
      refl

drafted-Unique : Unique sent_store.inbox
unfolding values empty
drafted-Unique mid rid = ground arith

after_calls-Unique_example : Unique (after_calls ids directory life (world sent_store)).store.inbox
after_calls-Unique_example =
    after_calls-Unique ids directory life (world sent_store) sent-Keyed drafted-Unique

abbrev attacks : List Call
attacks = call eve send_op ∷ call eve revoke_op ∷ call eve archive_op ∷ []

stored : lookup "m" drafted.messages ≡ some notice
unfolding lookup empty
stored = refl

after_calls-foreign_example :
    lookup "m" (after_calls ids directory attacks (world drafted)).store.messages ≡ some notice
after_calls-foreign_example =
    after_calls-foreign ids directory attacks (world drafted) "m" notice drafted-Keyed stored refl
