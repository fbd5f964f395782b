-- ===== src/Memstore/Grants/Upsert.antt =====
-- internal/memstore/memstore.go: what UpsertGrant leaves in the table.
use go_tangra_notification.Prelude.{
  ◌≡◌, inl, inr, true, some, [], ◌∷◌, String, arith, Option-cases, ok, err, Err, ==_self, Table,
  lookup, lookup-insert,
}
use go_tangra_notification.Store.{Grant}
use go_tangra_notification.Memstore.Owned.{Store, failing}
use go_tangra_notification.Memstore.Grants.{upsert_grant, find_tuple, same_tuple}

pub upsert_grant-err :
    (g : Grant) (m : Store) {e : Err} → (upsert_grant g m).0 ≡ err e → (upsert_grant g m).1 ≡ m
unfolding upsert_grant failing
upsert_grant-err g m h = ground arith

find_tuple_same :
    (g : Grant) (t : Table Grant) {k : String} {x : Grant}
    → find_tuple g t ≡ some (k, x)
    → same_tuple x g ≡ true
unfolding find_tuple
find_tuple_same g [] h = cc
find_tuple_same g ((j, y) ∷ t) {k} {x} h = ground (arith, find_tuple_same g t {k = k} {x = x})

same_tuple_refl : (g : Grant) → same_tuple g g ≡ true
unfolding same_tuple
same_tuple_refl g = rw (
  ==_self g.tenant_id,
  ==_self g.resource_type,
  ==_self g.resource_id,
  ==_self g.subject_type,
  ==_self g.subject_id,
)

-- The row that an upsert returns stands in the table, under the tuple, with the relation and the
-- expiry asked for.
pub upsert_grant-ok :
    (g : Grant) (m : Store) {g' : Grant}
    → (upsert_grant g m).0 ≡ ok g'
    → (k : String) × (lookup k (upsert_grant g m).1.grants ≡ some g')
      × (same_tuple g' g ≡ true)
      × (g'.relation ≡ g.relation)
      × (g'.expires_at ≡ g.expires_at)
unfolding upsert_grant failing
upsert_grant-ok g m {g'} h = elim (Option-cases (find_tuple g m.grants)) [
  | inl e ↦ (
    g.id,
    ground (arith, e, lookup-insert g.id g.id g' m.grants, ==_self g.id),
    ground (arith, e, same_tuple_refl g),
    ground (arith, e),
    ground (arith, e),
  )
  | inr ((k, x), e) ↦ (
    k,
    ground (arith, e, lookup-insert k k g' m.grants, ==_self k),
    ground (arith, e, find_tuple_same g m.grants {k = k} {x = x}),
    ground (arith, e),
    ground (arith, e),
  )
]
