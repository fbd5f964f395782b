-- ===== src/Scenarios/Access.antt =====
-- internal/authz: a tenant with one channel, its administrator, and a user to whom it is shared.
use go_tangra_notification.Prelude.{
  ℕ, zero, suc, ◌≡◌, refl, true, false, none, some, [], ◌∷◌, String, ok, err, Err, above_granter,
  contains, lookup, insert, values, ◌⊎◌, any, ◌&&◌, ◌||◌,
}
use Prim.Native.String.{◌++◌ as append}
use go_tangra_notification.Store.{Channel, Grant}
use go_tangra_notification.World.{World}
use go_tangra_notification.Memstore.{Store, empty, failing, failing_read, owned}
use go_tangra_notification.Memstore.Grants.{
  grants_on_resource, get_channel, upsert_grant, find_tuple, on_resource, template_count,
  grants_for_subjects, for_subject, live,
}
use go_tangra_notification.Authz.Decide.{
  Subjects, has, decide, matches, of_relation, is_admin, start, fold_grants, add_grant, rank, union,
  valid_permission, valid_relation, valid_resource_type, valid_subject_type,
}
use go_tangra_notification.Authz.Check.{check, locate, evaluate, readable_ids, distinct}
use go_tangra_notification.Authz.Grants.{
  GrantInput, GrantView, grant, revoke, grant_row, valid_input, view,
}
use go_tangra_notification.Authz.Soundness.{gives, has-decide}
use go_tangra_notification.Authz.Granting.{Revokes, grant-bounded, grant-effective, revoke_lem}
use go_tangra_notification.Authz.Listing.{TypedSubjects, readable_ids-decide}

abbrev ids : ℕ → String
ids zero = "g"
ids (suc n) = append "g" (ids n)

abbrev mail : Channel
mail = record {
  id = "mail";
  tenant_id = "acme";
  name = "Mail";
  kind = "email";
  settings_sealed = [];
  settings_public = [];
  enabled = true;
  is_default = true;
  managed = false;
  created_by = none;
  updated_by = none;
  created_at = 1;
  updated_at = 1;
  template_count = 0;
}

abbrev admin : Subjects
admin = record { tenant_id = "acme"; user_id = "ada"; roles = "admin" ∷ []; service = "" }

abbrev bob : Subjects
bob = record { tenant_id = "acme"; user_id = "bob"; roles = []; service = "" }

abbrev start_store : Store
start_store = record (empty 5) { channels = ("mail", mail) ∷ [] }

abbrev world : Store → World
world m = record { store = m; drawn = 0; events = []; pushed = []; mails = [] }

abbrev to_bob : String → GrantInput
to_bob r = record {
  resource_type = "channel";
  resource_id = "mail";
  subject_type = "user";
  subject_id = "bob";
  relation = r;
  expires_at = none;
}

abbrev shared : Grant
shared = record (grant_row admin (to_bob "sharer") "g") { granted_at = 5 }

abbrev shared_store : Store
shared_store = record start_store { grants = ("g", shared) ∷ [] }

abbrev the_view : GrantView
the_view = view 5 shared

grant_run : (grant ids admin (to_bob "sharer") 5 (world start_store)).0 ≡ ok the_view
unfolding grant grant_row valid_input check locate evaluate has decide start fold_grants add_grant
    is_admin rank of_relation valid_permission valid_relation valid_resource_type valid_subject_type
    get_channel template_count grants_on_resource on_resource upsert_grant find_tuple failing
    failing_read owned lookup insert values empty view
grant_run = refl

nothing_stored : grants_on_resource "acme" "channel" "mail" start_store ≡ ok []
unfolding grants_on_resource on_resource failing_read lookup values empty
nothing_stored = refl

sharers_share : has (of_relation "sharer") "share" ≡ true
unfolding has of_relation
sharers_share = refl

grant-bounded_example :
    let d = decide admin "channel" "mail" 5 [] in
    (has d.permissions "share" ≡ true) × (has d.permissions "share" ≡ true)
grant-bounded_example =
    grant-bounded ids admin (to_bob "sharer") 5 (world start_store) "share" grant_run nothing_stored
      sharers_share

-- A sharer may not make another an owner.
refused_run : (grant ids bob (to_bob "owner") 5 (world shared_store)).0 ≡ err above_granter
unfolding grant grant_row valid_input check locate evaluate has decide start fold_grants add_grant
    is_admin rank of_relation matches union valid_permission valid_relation valid_resource_type
    valid_subject_type get_channel template_count grants_on_resource on_resource failing
    failing_read owned lookup values empty
refused_run = refl

shared_to_bob : matches shared bob 5 ≡ true
unfolding matches grant_row
shared_to_bob = refl

shared_to_bob' : matches (grant_row admin (to_bob "sharer") the_view.id) bob 5 ≡ true
unfolding matches grant_row view
shared_to_bob' = refl

grants_after :
    grants_on_resource "acme" "channel" "mail"
      (grant ids admin (to_bob "sharer") 5 (world start_store)).1.store
    ≡ ok (shared ∷ [])
unfolding grant grant_row valid_input check locate evaluate has decide start fold_grants add_grant
    is_admin rank of_relation valid_permission valid_relation valid_resource_type valid_subject_type
    get_channel template_count grants_on_resource on_resource upsert_grant find_tuple failing
    failing_read owned lookup insert values empty view
grants_after = refl

grant-effective_example :
    has (decide bob "channel" "mail" 5 (shared ∷ [])).permissions "share" ≡ true
grant-effective_example =
    grant-effective ids admin (to_bob "sharer") 5 (world start_store) grant_run bob refl
      shared_to_bob' "share" sharers_share grants_after

has-decide_example :
    has (decide bob "channel" "mail" 6 (shared ∷ [])).permissions "share"
    ≡ ((is_admin bob && valid_permission "share") || any (gives bob 6 "share") (shared ∷ []))
has-decide_example = has-decide bob "channel" "mail" "share" 6 (shared ∷ [])

revoke_lem_example :
    Revokes bob "g" 6 (world shared_store)
    ⊎ ((e : Err) × ((revoke bob "g" 6 (world shared_store)).0 ≡ err e)
        × ((revoke bob "g" 6 (world shared_store)).1.store ≡ shared_store))
revoke_lem_example = revoke_lem bob "g" 6 (world shared_store)

listed : readable_ids bob "channel" 5 shared_store ≡ ok (some ("mail" ∷ []))
unfolding readable_ids is_admin grants_for_subjects distinct failing_read for_subject live
    of_relation grant_row values lookup empty
listed = refl

stored : grants_on_resource "acme" "channel" "mail" shared_store ≡ ok (shared ∷ [])
unfolding grants_on_resource on_resource failing_read grant_row values lookup empty
stored = refl

typed : TypedSubjects shared_store
unfolding valid_subject_type grant_row values
typed = refl

readable_ids-decide_example :
    contains ("mail" ∷ []) "mail"
    ≡ has (decide bob "channel" "mail" 5 (shared ∷ [])).permissions "read"
readable_ids-decide_example =
    readable_ids-decide bob "channel" "mail" 5 shared_store typed listed stored
