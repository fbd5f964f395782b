-- ===== src/Memstore/Messages.antt =====
-- internal/memstore/memstore.go: the messages.
use go_tangra_notification.Prelude.{
  ℕ, ◌+◌, ◌-◌, Bool, true, false, Option, none, some, List, [], ◌∷◌, String, ◌&&◌, ◌||◌, not,
  if◌then◌else◌, ◌==◌, nat_eq, ltb, leb, str_lt, select, sort_by, take, length, count, strp,
  contains_text, Table, lookup, insert, erase, erase_if, values, Exec, Result, ok, err, not_found,
  conflict, map,
}
use go_tangra_notification.Store.{
  Category, Message, InboxRow, Status, draft, scheduled, publishing, published, archived,
}
use go_tangra_notification.Memstore.Owned.{Store, failing, failing_read, owned}

abbrev pub is_some {ℓ} : {A : Type ℓ} → Option A → Bool
is_some none = false
is_some (some a) = true

joined_category : Store → String → Option String → String
joined_category m old none = old
joined_category m old (some c) = elim (lookup c m.categories) [ none ↦ old | some x ↦ x.name ]

abbrev pub of_message : String → InboxRow → Bool
of_message id i = i.message_id == id

-- The category's name and the counts of the deliveries are joined on every read.
unfoldable pub decorate_message : Store → Message → Message
unfolding joined_category
decorate_message m x = record x {
  category_name = joined_category m x.category_name x.category_id;
  recipient_count = count (of_message x.id) (values m.inbox);
  read_count = count (λ i. of_message x.id i && is_some i.read_at) (values m.inbox);
}

-- `if msg.CategoryID != nil { if c, ok := …; !ok || c.TenantID != msg.TenantID { … } }`
unfoldable pub category_missing : Store → Message → Bool
category_missing m x = elim x.category_id [
  | none ↦ false
  | some c ↦ not (is_some (owned (λ (y : Category). y.tenant_id) x.tenant_id c m.categories))
]

unfoldable pub insert_message : Message → Exec Store (Unit {0})
unfolding category_missing
insert_message x = failing "InsertMessage" λ m.
    if category_missing m x then (err conflict, m) else (
      ok tt,
      record m {
        messages = insert x.id (record x { created_at = m.now; updated_at = m.now }) m.messages;
      },
    )

unfoldable pub get_message : String → String → Store → Result Message
unfolding decorate_message
get_message tid id = failing_read "GetMessage" (λ m.
    elim (owned (λ (x : Message). x.tenant_id) tid id m.messages) [
      | none ↦ err not_found
      | some x ↦ ok (decorate_message m x)
    ])

unfoldable pub update_message : Message → Exec Store (Unit {0})
unfolding category_missing
update_message x = failing "UpdateMessage" λ m.
    elim (owned (λ (y : Message). y.tenant_id) x.tenant_id x.id m.messages) [
      | none ↦ (err not_found, m)
      | some old ↦ if category_missing m x then (err conflict, m) else (
        ok tt,
        record m {
          messages =
              insert x.id
                (record old {
                  title = x.title;
                  content = x.content;
                  kind = x.kind;
                  category_id = x.category_id;
                  recipients = x.recipients;
                  scheduled_at = x.scheduled_at;
                  status = x.status;
                  updated_by = x.updated_by;
                  updated_at = m.now;
                })
                m.messages;
        },
      )
    ]

abbrev or_else {ℓ} : {A : Type ℓ} → Option A → Option A → Option A
or_else none b = b
or_else (some a) b = some a

-- The row that a change of status leaves: the lease goes, and the time of publication is set if
-- one is given.
unfoldable pub with_status : Status → Option ℕ → ℕ → Message → Message
with_status s at now x = record x {
  status = s;
  lease_until = none;
  updated_at = now;
  published_at = or_else at x.published_at;
}

unfoldable pub set_message_status : String → String → Status → Option ℕ → Exec Store (Unit {0})
unfolding with_status
set_message_status tid id s at = failing "SetMessageStatus" λ m.
    elim (owned (λ (x : Message). x.tenant_id) tid id m.messages) [
      | none ↦ (err not_found, m)
      | some x ↦ (ok tt, record m { messages = insert id (with_status s at m.now x) m.messages })
    ]

unfoldable pub delete_message : String → String → Exec Store (Unit {0})
delete_message tid id = failing "DeleteMessage" λ m.
    elim (owned (λ (x : Message). x.tenant_id) tid id m.messages) [
      | none ↦ (err not_found, m)
      | some x ↦ (
        ok tt,
        record m { messages = erase id m.messages; inbox = erase_if (of_message id) m.inbox },
      )
    ]

-- Newest first, then by id downwards: the order of every page.
abbrev pub newer : ℕ → String → ℕ → String → Bool
newer at_a a at_b b = if nat_eq at_a at_b then str_lt b a else ltb at_b at_a

-- Behind the cursor; the zero time is no cursor.
abbrev pub behind : ℕ → String → ℕ → String → Bool
behind cts cid at id = nat_eq cts 0 || ltb at cts || (nat_eq at cts && str_lt id cid)

-- `if limit > 0 && len(out) > limit { out = out[:limit] }`
abbrev pub capped {ℓ} : {A : Type ℓ} → ℕ → List A → List A
capped n xs = if nat_eq n 0 then xs else take n xs

pub record MessageFilter : Type 0 where
  pub status : Option Status
  pub category_id : String
  pub q : String
  pub sender_id : String
  pub cursor_ts : ℕ
  pub cursor_id : String
  pub limit : ℕ

abbrev ordinal : Status → ℕ
ordinal draft = 0
ordinal scheduled = 1
ordinal publishing = 2
ordinal published = 3
ordinal Status.revoked = 4
ordinal archived = 5

abbrev pub status_eq : Status → Status → Bool
status_eq a b = nat_eq (ordinal a) (ordinal b)

abbrev status_fits : Option Status → Status → Bool
status_fits none s = true
status_fits (some t) s = status_eq s t

module _ (lower : String → String) where
  unfoldable pub selected : String → MessageFilter → Message → Bool
  selected tid f x =
      x.tenant_id == tid
      && status_fits f.status x.status
      && (f.category_id == "" || strp x.category_id == f.category_id)
      && (f.q == "" || contains_text (lower x.title) (lower f.q))
      && (f.sender_id == "" || strp x.sender_id == f.sender_id)
      && behind f.cursor_ts f.cursor_id x.created_at x.id

  unfoldable pub list_messages : String → MessageFilter → Store → Result (List Message)
  unfolding selected decorate_message
  list_messages tid f = failing_read "ListMessages" (λ m. ok (
      capped f.limit (
        sort_by (λ (a b : Message). newer a.created_at a.id b.created_at b.id)
          (map (decorate_message m) (select (selected tid f) (values m.messages))))))

abbrev pending : Status → Bool
pending scheduled = true
pending publishing = true
pending _ = false

-- Due, and under no lease that is still good.
unfoldable pub claimable : ℕ → Message → Bool
claimable now x =
    pending x.status
    && elim x.scheduled_at [ none ↦ false | some t ↦ leb t now ]
    && elim x.lease_until [ none ↦ true | some t ↦ ltb t now ]

unfoldable pub claimed : ℕ → ℕ → Message → Message
claimed now lease x = record x { status = publishing; lease_until = some (now + lease) }

-- The `range` of ClaimDueMessages; nothing more is claimed once `left` rows are.
unfoldable pub claim : ℕ → ℕ → ℕ → Table Message → List (String × String) × Table Message
unfolding claimable claimed
claim now lease left [] = ([], [])
claim now lease left ((k, x) ∷ t) =
    let hit = not (nat_eq left 0) && claimable now x in
    let rest = claim now lease (if hit then left - 1 else left) t in
    if hit
    then ((x.id, x.tenant_id) ∷ rest.0, (k, claimed now lease x) ∷ rest.1)
    else (rest.0, (k, x) ∷ rest.1)

abbrev pub id_less : String × String → String × String → Bool
id_less (a, _) (b, _) = str_lt a b

-- The claimed messages are returned by id and tenant. A limit of 0 is no limit.
unfoldable pub claim_due_messages : ℕ → ℕ → ℕ → Exec Store (List (String × String))
unfolding claim
claim_due_messages now lease limit = failing "ClaimDueMessages" λ m.
    let left = if nat_eq limit 0 then length m.messages else limit in
    let out = claim now lease left m.messages in
    (ok (sort_by id_less out.0), record m { messages = out.1 })
