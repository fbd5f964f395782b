-- ===== src/Authz/Decide.antt =====
-- internal/authz/authz.go: relations, permissions, and the decision from the grants on a resource.
use go_tangra_notification.Prelude.{
  ℕ, Bool, true, false, Option, none, some, List, [], ◌∷◌, ◌++◌, String, ◌&&◌, ◌||◌, not,
  if◌then◌else◌, ◌==◌, ltb, contains, any, sort_by,
}
use go_tangra_notification.Store.{Grant}

pub record Subjects : Type 0 where
  pub tenant_id : String
  pub user_id : String
  pub roles : List String
  pub service : String

unfoldable pub service_subjects : String → String → Subjects
service_subjects tid spiffe = record { tenant_id = tid; user_id = ""; roles = []; service = spiffe }

unfoldable pub actor_kind : Subjects → String
actor_kind s = if not (s.service == "") then "service" else "user"

unfoldable pub actor_id : Subjects → String
actor_id s = if not (s.service == "") then s.service else s.user_id

abbrev pub admin_roles : List String
admin_roles = "owner" ∷ "admin" ∷ []

unfoldable pub is_admin : Subjects → Bool
is_admin s = any (contains admin_roles) s.roles

pub record Permissions : Type 0 where
  pub read : Bool
  pub write : Bool
  pub delete : Bool
  pub share : Bool
  pub use_ : Bool

abbrev pub no_permissions : Permissions
no_permissions = record { read = false; write = false; delete = false; share = false; use_ = false }

-- `Has`: a permission by its name.
unfoldable pub has : Permissions → String → Bool
has p perm =
    if perm == "read"
    then p.read
    else if perm == "write"
    then p.write
    else if perm == "delete"
    then p.delete
    else if perm == "share"
    then p.share
    else if perm == "use"
    then p.use_
    else false

-- `Of`: what a relation carries.
unfoldable pub of_relation : String → Permissions
of_relation r =
    if r == "owner"
    then record { read = true; write = true; delete = true; share = true; use_ = true }
    else if r == "editor"
    then record { read = true; write = true; delete = false; share = false; use_ = true }
    else if r == "viewer"
    then record { read = true; write = false; delete = false; share = false; use_ = false }
    else if r == "sharer"
    then record { read = true; write = false; delete = false; share = true; use_ = true }
    else no_permissions

unfoldable pub rank : String → ℕ
rank r =
    if r == "owner"
    then 4
    else if r == "editor"
    then 3
    else if r == "sharer"
    then 2
    else if r == "viewer"
    then 1
    else 0

unfoldable pub valid_relation : String → Bool
unfolding rank
valid_relation r = ltb 0 (rank r)

unfoldable pub valid_permission : String → Bool
valid_permission p = p == "read" || p == "write" || p == "delete" || p == "share" || p == "use"

unfoldable pub valid_resource_type : String → Bool
valid_resource_type t = t == "channel" || t == "template"

unfoldable pub valid_subject_type : String → Bool
valid_subject_type t = t == "user" || t == "role" || t == "tenant"

pub record Source : Type 0 where
  pub grant_id : String
  pub resource_type : String
  pub resource_id : String
  pub subject_type : String
  pub subject_id : String
  pub relation : String
  pub expires_at : Option ℕ
  pub inherited : Bool

pub record Decision : Type 0 where
  pub allowed : Bool
  pub relation : String
  pub permissions : Permissions
  pub sources : List Source

unfoldable pub matches : Grant → Subjects → ℕ → Bool
matches g s now =
    not (elim g.expires_at [ none ↦ false | some e ↦ not (ltb now e) ])
    && (if g.subject_type == "user"
        then not (s.user_id == "") && g.subject_id == s.user_id
        else if g.subject_type == "role"
        then contains s.roles g.subject_id
        else g.subject_type == "tenant")

unfoldable pub union : Permissions → Permissions → Permissions
union a b = record {
  read = a.read || b.read;
  write = a.write || b.write;
  delete = a.delete || b.delete;
  share = a.share || b.share;
  use_ = a.use_ || b.use_;
}

unfoldable pub source_of : Grant → Source
source_of g = record {
  grant_id = g.id;
  resource_type = g.resource_type;
  resource_id = g.resource_id;
  subject_type = g.subject_type;
  subject_id = g.subject_id;
  relation = g.relation;
  expires_at = g.expires_at;
  inherited = false;
}

unfoldable pub implicit_owner : String → String → Source
implicit_owner rt rid = record {
  grant_id = "";
  resource_type = rt;
  resource_id = rid;
  subject_type = "role";
  subject_id = "admin";
  relation = "owner";
  expires_at = none;
  inherited = true;
}

-- The decision that the loop starts from.
unfoldable pub start : Subjects → String → String → Decision
start s rt rid =
    if is_admin s
    then record {
      allowed = false;
      relation = "owner";
      permissions = of_relation "owner";
      sources = implicit_owner rt rid ∷ [];
    }
    else record { allowed = false; relation = ""; permissions = no_permissions; sources = [] }

-- One round of the loop over the grants.
unfoldable pub add_grant : Subjects → ℕ → Decision → Grant → Decision
add_grant s now d g =
    if matches g s now
    then record d {
      permissions = union d.permissions (of_relation g.relation);
      relation = if ltb (rank d.relation) (rank g.relation) then g.relation else d.relation;
      sources = d.sources ++ source_of g ∷ [];
    }
    else d

unfoldable pub fold_grants : Subjects → ℕ → Decision → List Grant → Decision
fold_grants s now d [] = d
fold_grants s now d (g ∷ gs) = fold_grants s now (add_grant s now d g) gs

abbrev pub stronger : Source → Source → Bool
stronger a b = ltb (rank b.relation) (rank a.relation)

unfoldable pub decide : Subjects → String → String → ℕ → List Grant → Decision
decide s rt rid now grants =
    let d = fold_grants s now (start s rt rid) grants in
    record d { sources = sort_by stronger d.sources }
