-- ===== src/Messages/Categories.antt =====
-- internal/messages/messages.go: the operations on categories.
use go_tangra_notification.Prelude.{
  ℕ, true, false, List, String, if◌then◌else◌, ltb, Result, Err, in_use, is_conflict, pure, ensure,
  renaming, ◌>>=◌, ◌>>◌,
}
use go_tangra_notification.Store.{Category}
use go_tangra_notification.Memstore.{Store}
use go_tangra_notification.Memstore.Categories.{
  get_category, list_categories, insert_category, update_category, delete_category,
}
use go_tangra_notification.World.{Act, Event, st, ask, emit, draw_id}
use go_tangra_notification.Authz.Decide.{Subjects, actor_kind, actor_id}
use go_tangra_notification.Messages.Input.{CategoryInput, validate_category, user_ptr}

unfoldable pub category_event : String → Subjects → String → Event
category_event kind s id = record {
  kind = kind;
  tenant_id = s.tenant_id;
  actor_kind = actor_kind s;
  actor_id = actor_id s;
  subject_kind = "category";
  subject_id = id;
  outcome = "ok";
  reason = "";
}

abbrev in_use_of : Err → Err
in_use_of e = if is_conflict e then in_use else e

unfoldable pub remove_category : Subjects → String → Act (Unit {0})
remove_category s id = do
  row ← ask (get_category s.tenant_id id)
  ensure (if ltb 0 row.message_count then false else true) in_use
  renaming in_use_of (st (delete_category s.tenant_id id))
  emit (category_event "category_deleted" s id)

module _ (lower : String → String) where
  unfoldable pub categories : Subjects → Store → Result (List Category)
  categories s m = list_categories lower s.tenant_id m

  unfoldable pub rewrite_category : Subjects → String → CategoryInput → Act Category
  rewrite_category s id i = do
    ask (λ _. validate_category i) >>= λ _. pure tt
    row ← ask (get_category s.tenant_id id)
    st (
        update_category lower (record row {
          name = i.name;
          description = i.description;
          sort = i.sort;
          updated_by = user_ptr s;
        }))
    emit (category_event "category_updated" s id)
    ask (get_category s.tenant_id id)

  unfoldable pub create_category : (ℕ → String) → Subjects → CategoryInput → Act Category
  create_category new_id s i = do
    ask (λ _. validate_category i) >>= λ _. pure tt
    id ← draw_id new_id
    st (
        insert_category lower (record {
          id = id;
          tenant_id = s.tenant_id;
          name = i.name;
          description = i.description;
          sort = i.sort;
          created_by = user_ptr s;
          updated_by = user_ptr s;
          created_at = 0;
          updated_at = 0;
          message_count = 0;
        }))
    emit (category_event "category_created" s id)
    ask (get_category s.tenant_id id)
