-- ===== src/Memstore/Categories.antt =====
-- internal/memstore/memstore.go: the message categories. `lower` is strings.ToLower, by which
-- names are compared.
use go_tangra_notification.Prelude.{
  ℕ, Bool, none, some, List, String, ◌&&◌, not, if◌then◌else◌, ◌==◌, ltb, str_lt, sort_by, select,
  any, count, strp, Table, insert, erase, values, Exec, Result, ok, err, not_found, conflict, ℤ_lt,
  ℤ_eq, map,
}
use go_tangra_notification.Store.{Category, Message}
use go_tangra_notification.Memstore.Owned.{Store, failing, failing_read, owned}

unfoldable pub message_count : String → Table Message → ℕ
message_count cid ms = count (λ (x : Message). strp x.category_id == cid) (values ms)

unfoldable pub counted : Store → Category → Category
unfolding message_count
counted m c = record c { message_count = message_count c.id m.messages }

unfoldable pub get_category : String → String → Store → Result Category
unfolding counted
get_category tid id = failing_read "GetCategory" (λ m.
    elim (owned (λ c. c.tenant_id) tid id m.categories) [
      | none ↦ err not_found
      | some c ↦ ok (counted m c)
    ])

unfoldable pub delete_category : String → String → Exec Store (Unit {0})
unfolding message_count
delete_category tid id = failing "DeleteCategory" λ m.
    elim (owned (λ c. c.tenant_id) tid id m.categories) [
      | none ↦ (err not_found, m)
      | some c ↦
          if ltb 0 (message_count id m.messages)
          then (err conflict, m)
          else (ok tt, record m { categories = erase id m.categories })
    ]

module _ (lower : String → String) where
  unfoldable pub insert_category : Category → Exec Store (Unit {0})
  insert_category c = failing "InsertCategory" λ m.
      if any (λ x. x.tenant_id == c.tenant_id && lower x.name == lower c.name) (values m.categories)
      then (err conflict, m)
      else (
        ok tt,
        record m {
          categories =
              insert c.id (record c { created_at = m.now; updated_at = m.now }) m.categories;
        },
      )

  unfoldable pub category_less : Category → Category → Bool
  category_less a b =
      if not (ℤ_eq a.sort b.sort)
      then ℤ_lt a.sort b.sort
      else (if not (lower a.name == lower b.name)
          then str_lt (lower a.name) (lower b.name)
          else str_lt a.id b.id)

  unfoldable pub list_categories : String → Store → Result (List Category)
  unfolding counted category_less
  list_categories tid = failing_read "ListCategories" (λ m. ok (
      sort_by category_less
        (map (counted m) (select (λ c. c.tenant_id == tid) (values m.categories)))))

  unfoldable pub update_category : Category → Exec Store (Unit {0})
  update_category c = failing "UpdateCategory" λ m.
      elim (owned (λ c. c.tenant_id) c.tenant_id c.id m.categories) [
        | none ↦ (err not_found, m)
        | some old ↦
            if any
              (λ x.
                not (x.id == c.id) && x.tenant_id == c.tenant_id && lower x.name == lower c.name)
              (values m.categories)
            then (err conflict, m)
            else (
              ok tt,
              record m {
                categories =
                    insert c.id
                      (record old {
                        name = c.name;
                        description = c.description;
                        sort = c.sort;
                        updated_by = c.updated_by;
                        updated_at = m.now;
                      })
                      m.categories;
              },
            )
      ]
