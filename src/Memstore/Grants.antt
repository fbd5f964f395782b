-- ===== src/Memstore/Grants.antt =====
-- internal/memstore/memstore.go: the grants, and the existence of channels and templates.
pub mod Upsert
pub mod Reads
use go_tangra_notification.Prelude.{
  ℕ, ◌≡◌, Bool, true, false, Option, none, some, List, [], ◌∷◌, String, ◌&&◌, ◌||◌, not,
  if◌then◌else◌, ◌==◌, nat_eq, ltb, str_lt, after, select, sort_by, contains, count, strp, Table,
  lookup, insert, erase, erase_if, values, Exec, Result, ok, err, not_found, reads, modify,
}
use go_tangra_notification.Store.{Channel, Template, Grant}
use go_tangra_notification.Memstore.Owned.{Store, failing, failing_read, owned, found}

unfoldable pub template_count : String → Table Template → ℕ
template_count id ts = count (λ (t : Template). strp t.channel_id == id) (values ts)

-- The template count is joined on every read.
unfoldable pub with_count : Store → Option Channel → Option Channel
unfolding template_count
with_count m none = none
with_count m (some c) = some (record c { template_count = template_count c.id m.templates })

unfoldable pub get_channel : String → String → Store → Result Channel
unfolding with_count
get_channel tid id =
    failing_read "GetChannel"
      (λ m. found (with_count m (owned (λ c. c.tenant_id) tid id m.channels)))

unfoldable pub joined_name : Store → String → Option String → String
joined_name m old none = old
joined_name m old (some c) = elim (lookup c m.channels) [ none ↦ old | some x ↦ x.name ]

unfoldable pub decorate : Store → Template → Template
unfolding joined_name
decorate m t = record t { channel_name = joined_name m t.channel_name t.channel_id }

unfoldable pub get_template : String → String → Store → Result Template
unfolding decorate
get_template tid id = failing_read "GetTemplate" (λ m.
    elim (owned (λ t. t.tenant_id) tid id m.templates) [
      | none ↦ err not_found
      | some t ↦ ok (decorate m t)
    ])

-- The same resource, subject and tenant: what the unique index of the table compares.
unfoldable pub same_tuple : Grant → Grant → Bool
same_tuple x g =
    x.tenant_id == g.tenant_id
    && x.resource_type == g.resource_type
    && x.resource_id == g.resource_id
    && x.subject_type == g.subject_type
    && x.subject_id == g.subject_id

-- The first grant, in the order of the visit, of the same tuple.
unfoldable pub find_tuple : Grant → Table Grant → Option (String × Grant)
unfolding same_tuple
find_tuple g [] = none
find_tuple g ((k, x) ∷ t) =
    let rest = find_tuple g t in if same_tuple x g then some (k, x) else rest

unfoldable pub upsert_grant : Grant → Exec Store Grant
unfolding find_tuple
upsert_grant g = failing "UpsertGrant" λ m. elim (find_tuple g m.grants) [
  | some (k, x) ↦
      let x' = record x {
        relation = g.relation;
        granted_by = g.granted_by;
        granted_at = m.now;
        expires_at = g.expires_at;
      } in
      (ok x', record m { grants = insert k x' m.grants })
  | none ↦
      let g' = record g { granted_at = m.now } in
      (ok g', record m { grants = insert g.id g' m.grants })
]

unfoldable pub get_grant : String → String → Store → Result Grant
get_grant tid id = failing_read "GetGrant" (λ m. found (owned (λ g. g.tenant_id) tid id m.grants))

unfoldable pub delete_grant : String → String → Exec Store (Unit {0})
delete_grant tid id = failing "DeleteGrant" λ m. elim (owned (λ g. g.tenant_id) tid id m.grants) [
  | none ↦ (err not_found, m)
  | some g ↦ (ok tt, record m { grants = erase id m.grants })
]

unfoldable pub on_resource : String → String → String → Grant → Bool
on_resource tid rt rid g = g.tenant_id == tid && g.resource_type == rt && g.resource_id == rid

-- `sortGrants`: oldest first, then by id.
unfoldable pub grant_less : Grant → Grant → Bool
grant_less a b =
    if nat_eq a.granted_at b.granted_at then str_lt a.id b.id else ltb a.granted_at b.granted_at

unfoldable pub grants_on_resource : String → String → String → Store → Result (List Grant)
unfolding on_resource grant_less
grants_on_resource tid rt rid =
    failing_read "GrantsOnResource"
      (λ m. ok (sort_by grant_less (select (on_resource tid rt rid) (values m.grants))))

-- The `switch` of GrantsForSubjects: a subject type that is neither user nor role passes.
unfoldable pub for_subject : String → List String → Grant → Bool
for_subject uid roles g =
    if g.subject_type == "user"
    then not (uid == "") && g.subject_id == uid
    else if g.subject_type == "role"
    then contains roles g.subject_id
    else true

unfoldable pub live : ℕ → Grant → Bool
live now g = elim g.expires_at [ none ↦ true | some e ↦ ltb now e ]

unfoldable pub grants_for_subjects : String → String → List String → ℕ → Store → Result (List Grant)
unfolding for_subject live grant_less
grants_for_subjects tid uid roles now = failing_read "GrantsForSubjects" (λ m. ok (
    sort_by grant_less (
      select (λ g. g.tenant_id == tid && live now g && for_subject uid roles g) (values m.grants))))

unfoldable pub delete_grants_of_resource : String → String → String → Exec Store (Unit {0})
unfolding on_resource
delete_grants_of_resource tid rt rid =
    failing "DeleteGrantsOfResource"
      (modify λ m. record m { grants = erase_if (on_resource tid rt rid) m.grants })

unfoldable pub delete_grants_of_subject :
    String → String → String → String → String → Exec Store (Unit {0})
unfolding on_resource
delete_grants_of_subject tid rt rid st sid = failing "DeleteGrantsOfSubject" (
    modify λ m. record m {
      grants =
          erase_if (λ g. on_resource tid rt rid g && g.subject_type == st && g.subject_id == sid)
            m.grants;
    })
