-- ===== src/Authz/Grants.antt =====
-- internal/authz/grants.go: granting, revoking, listing and explaining.
use go_tangra_notification.Prelude.{
  ℕ, Bool, true, false, Option, none, some, List, [], ◌∷◌, String, len, ◌&&◌, ◌||◌, not,
  if◌then◌else◌, ◌==◌, ltb, map, Result, err, forbidden, above_granter, grant_input, pure, ensure,
  renaming, bind_result, map_result, ◌>>=◌, ◌>>◌, strp,
}
use go_tangra_notification.Store.{Grant}
use go_tangra_notification.Memstore.{Store}
use go_tangra_notification.Memstore.Grants.{
  upsert_grant, get_grant, delete_grant, grants_on_resource,
}
use go_tangra_notification.World.{Act, Event, st, ask, emit, draw_id}
use go_tangra_notification.Authz.Decide.{
  Subjects, Decision, actor_kind, actor_id, rank, valid_relation, valid_resource_type,
  valid_subject_type, decide,
}
use go_tangra_notification.Authz.Check.{hide_missing, locate, evaluate, refused, check}

pub record GrantInput : Type 0 where
  pub resource_type : String
  pub resource_id : String
  pub subject_type : String
  pub subject_id : String
  pub relation : String
  pub expires_at : Option ℕ

pub record GrantView : Type 0 where
  pub id : String
  pub resource_type : String
  pub resource_id : String
  pub subject_type : String
  pub subject_id : String
  pub relation : String
  pub granted_by : String
  pub granted_at : ℕ
  pub expires_at : Option ℕ
  pub expired : Bool

unfoldable pub view : ℕ → Grant → GrantView
view now g = record {
  id = g.id;
  resource_type = g.resource_type;
  resource_id = g.resource_id;
  subject_type = g.subject_type;
  subject_id = g.subject_id;
  relation = g.relation;
  granted_by = strp g.granted_by;
  granted_at = g.granted_at;
  expires_at = g.expires_at;
  expired = elim g.expires_at [ none ↦ false | some e ↦ not (ltb now e) ];
}

unfoldable pub valid_input : GrantInput → ℕ → Bool
valid_input i now =
    (valid_resource_type i.resource_type
      && valid_subject_type i.subject_type
      && valid_relation i.relation
      && not (i.resource_id == ""))
    && (if i.subject_type == "tenant"
        then i.subject_id == ""
        else not (i.subject_id == "") && not (ltb 128 (len i.subject_id)))
    && elim i.expires_at [ none ↦ true | some e ↦ ltb now e ]

unfoldable pub grant_event : String → Subjects → Grant → Event
unfolding actor_kind actor_id
grant_event kind s g = record {
  kind = kind;
  tenant_id = s.tenant_id;
  actor_kind = actor_kind s;
  actor_id = actor_id s;
  subject_kind = "grant";
  subject_id = g.id;
  outcome = "ok";
  reason = "";
}

-- The row that a grant request asks for.
unfoldable pub grant_row : Subjects → GrantInput → String → Grant
grant_row s i id = record {
  id = id;
  tenant_id = s.tenant_id;
  resource_type = i.resource_type;
  resource_id = i.resource_id;
  subject_type = i.subject_type;
  subject_id = i.subject_id;
  relation = i.relation;
  granted_by = if not (s.user_id == "") then some s.user_id else none;
  granted_at = 0;
  expires_at = i.expires_at;
}

module _ (new_id : ℕ → String) where
  unfoldable pub grant : Subjects → GrantInput → ℕ → Act GrantView
  grant s i now = do
    ensure (valid_input i now) grant_input
    d ← check s i.resource_type i.resource_id "share" now
    ensure d.allowed forbidden
    let above = ltb (rank d.relation) (rank i.relation)
    if above
        then emit (refused s i.resource_type i.resource_id "relation_above_granter")
        else pure tt
    ensure (not above) above_granter
    id ← draw_id new_id
    g ← st (upsert_grant (grant_row s i id))
    emit (grant_event "grant_created" s g)
    pure (view now g)

unfoldable pub revoke : Subjects → String → ℕ → Act (Unit {0})
revoke s id now = do
  g ← renaming hide_missing (ask (get_grant s.tenant_id id))
  d ← check s g.resource_type g.resource_id "share" now
  ensure d.allowed forbidden
  renaming hide_missing (st (delete_grant s.tenant_id id))
  emit (grant_event "grant_revoked" s g)

unfoldable pub list_grants : Subjects → String → String → ℕ → Act (List GrantView)
list_grants s rt rid now = do
  ensure (valid_resource_type rt) grant_input
  ask (locate s.tenant_id rt rid)
  grants ← ask (grants_on_resource s.tenant_id rt rid)
  let readable = (decide s rt rid now grants).permissions.read
  if readable then pure tt else emit (refused s rt rid "no_read")
  ensure readable forbidden
  pure (map (view now) grants)

unfoldable pub effective : Subjects → String → String → ℕ → Store → Result Decision
effective s rt rid now m =
    if not (valid_resource_type rt)
    then err grant_input
    else bind_result (locate s.tenant_id rt rid m) (λ _.
      map_result (λ (d : Decision). record d { allowed = d.permissions.read })
        (evaluate s rt rid now m))

-- The other subject of EffectiveFor: a user with no roles, or a role.
unfoldable pub other_subject : String → String → String → Subjects
other_subject tid st sid =
    if st == "user"
    then record { tenant_id = tid; user_id = sid; roles = []; service = "" }
    else record { tenant_id = tid; user_id = ""; roles = sid ∷ []; service = "" }

unfoldable pub effective_for : Subjects → String → String → String → String → ℕ → Act Decision
effective_for s rt rid subject_type sid now = do
  ensure
      (valid_resource_type rt
        && (subject_type == "user" || subject_type == "role")
        && not (sid == ""))
      grant_input
  ask (locate s.tenant_id rt rid)
  grants ← ask (grants_on_resource s.tenant_id rt rid)
  let share = (decide s rt rid now grants).permissions.share
  if share then pure tt else emit (refused s rt rid "no_share")
  ensure share forbidden
  let d = decide (other_subject s.tenant_id subject_type sid) rt rid now grants
  pure (record d { allowed = d.permissions.read })
