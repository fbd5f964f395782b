-- ===== src/Authz/Check.antt =====
-- internal/authz/authz.go: checks against the store, listings, and the grants that the module
-- itself writes. `now` is the reading of the evaluator's clock.
use go_tangra_notification.Prelude.{
  ℕ, Bool, Option, none, some, List, [], ◌∷◌, String, ◌&&◌, not, if◌then◌else◌, ◌==◌, str_lt,
  contains, select, sort_by, map, Exec, Result, ok, Err, forbidden, resource_not_found, grant_input,
  is_not_found, pure, ensure, map_err, map_result, map_option, ◌>>=◌, ◌>>◌,
}
use Prim.Native.String.{◌++◌ as append}
use go_tangra_notification.Store.{Grant}
use go_tangra_notification.Memstore.{Store}
use go_tangra_notification.Memstore.Grants.{
  get_channel, get_template, upsert_grant, grants_on_resource, grants_for_subjects,
  delete_grants_of_resource, delete_grants_of_subject,
}
use go_tangra_notification.World.{Act, Event, st, ask, emit, draw_id}
use go_tangra_notification.Authz.Decide.{
  Subjects, Permissions, Decision, actor_kind, actor_id, is_admin, has, of_relation,
  valid_permission, valid_resource_type, decide,
}

-- `notFound`.
abbrev pub hide_missing : Err → Err
hide_missing e = if is_not_found e then resource_not_found else e

abbrev void : {S A : Type 0} → Exec S A → Exec S (Unit {0})
void m = m >>= λ _. pure tt

unfoldable pub locate : String → String → String → Store → Result (Unit {0})
locate tid rt rid m = map_err hide_missing (
    if rt == "channel"
    then map_result (λ _. tt) (get_channel tid rid m)
    else map_result (λ _. tt) (get_template tid rid m))

unfoldable pub evaluate : Subjects → String → String → ℕ → Store → Result Decision
evaluate s rt rid now m = map_result (decide s rt rid now) (grants_on_resource s.tenant_id rt rid m)

-- The event of a refusal.
unfoldable pub refused : Subjects → String → String → String → Event
unfolding actor_kind actor_id
refused s rt rid reason = record {
  kind = "access_refused";
  tenant_id = s.tenant_id;
  actor_kind = actor_kind s;
  actor_id = actor_id s;
  subject_kind = rt;
  subject_id = rid;
  outcome = "refused";
  reason = reason;
}

unfoldable pub check : Subjects → String → String → String → ℕ → Act Decision
check s rt rid perm now = do
  ensure (valid_permission perm && valid_resource_type rt) grant_input
  ask (locate s.tenant_id rt rid)
  d ← ask (evaluate s rt rid now)
  let allowed = has d.permissions perm
  if allowed then pure tt else emit (refused s rt rid (append "no_" perm))
  pure (record d { allowed = allowed })

unfoldable pub require : Subjects → String → String → String → ℕ → Act Decision
require s rt rid perm now = do d ← check s rt rid perm now; ensure d.allowed forbidden; pure d

unfoldable pub permissions_on : Subjects → String → String → ℕ → Store → Result Permissions
permissions_on s rt rid now m =
    map_result (λ (d : Decision). d.permissions) (evaluate s rt rid now m)

-- The keys of a Go map of flags: each once.
unfoldable pub distinct : List String → List String
distinct [] = []
distinct (x ∷ xs) = let rest = distinct xs in if contains rest x then rest else x ∷ rest

-- A grant on the resource type that lets its holder read.
abbrev pub readable : String → Grant → Bool
readable rt g = g.resource_type == rt && (of_relation g.relation).read

-- None stands for `all=true`.
unfoldable pub readable_ids : Subjects → String → ℕ → Store → Result (Option (List String))
readable_ids s rt now m =
    if is_admin s
    then ok none
    else map_result
        (λ grants.
          some (distinct (map (λ (g : Grant). g.resource_id) (select (readable rt) grants))))
        (grants_for_subjects s.tenant_id s.user_id s.roles now m)

unfoldable pub visible : Subjects → String → ℕ → Store → Result (Option (List String))
visible s rt now m = map_result (map_option (sort_by str_lt)) (readable_ids s rt now m)

-- The rows that GrantOwner and SetTenantUse write.
abbrev pub owner_grant : String → String → String → String → String → Grant
owner_grant tid rt rid uid id = record {
  id = id;
  tenant_id = tid;
  resource_type = rt;
  resource_id = rid;
  subject_type = "user";
  subject_id = uid;
  relation = "owner";
  granted_by = some uid;
  granted_at = 0;
  expires_at = none;
}

abbrev pub tenant_grant : String → String → String → Grant
tenant_grant tid cid id = record {
  id = id;
  tenant_id = tid;
  resource_type = "channel";
  resource_id = cid;
  subject_type = "tenant";
  subject_id = "";
  relation = "sharer";
  granted_by = none;
  granted_at = 0;
  expires_at = none;
}

module _ (new_id : ℕ → String) where
  abbrev pub put_grant : (String → Grant) → Act (Unit {0})
  put_grant row = do id ← draw_id new_id; void (st (upsert_grant (row id)))

  unfoldable pub grant_owner : String → String → String → String → Act (Unit {0})
  grant_owner tid rt rid uid = if uid == "" then pure tt else put_grant (owner_grant tid rt rid uid)

  unfoldable pub set_tenant_use : String → String → Bool → Act (Unit {0})
  set_tenant_use tid cid on =
      if not on
      then st (delete_grants_of_subject tid "channel" cid "tenant" "")
      else put_grant (tenant_grant tid cid)

unfoldable pub drop_resource : String → String → String → Exec Store (Unit {0})
drop_resource tid rt rid = delete_grants_of_resource tid rt rid
