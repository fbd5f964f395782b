-- ===== src/Authz/Listing.antt =====
-- internal/authz/authz.go: the listings of readable resources, beside the checks.
use go_tangra_notification.Prelude.{
  ℕ, ◌≡◌, refl, sym, ◌∙◌, true, false, some, List, [], ◌∷◌, String, ◌&&◌, ◌==◌, arith, ok, all,
  any-select, any-cong_of_all, contains, contains-map, values, map, select, Result-cases, inl, inr,
  ==_iff,
}
use go_tangra_notification.Store.{Grant}
use go_tangra_notification.Memstore.{Store}
use go_tangra_notification.Memstore.Grants.{
  grants_on_resource, on_resource, grants_for_subjects, live, for_subject,
}
use go_tangra_notification.Memstore.Grants.Reads.{any-grants_on_resource, any-grants_for_subjects}
use go_tangra_notification.Authz.Decide.{
  Subjects, has, is_admin, matches, decide, valid_subject_type,
}
use go_tangra_notification.Authz.Check.{distinct, readable, readable_ids}
use go_tangra_notification.Authz.Soundness.{gives, has-decide}

contains-distinct : (xs : List String) (a : String) → contains (distinct xs) a ≡ contains xs a
unfolding distinct
contains-distinct [] a = refl
contains-distinct (x ∷ xs) a =
    ground (arith, contains-distinct xs a, contains-distinct xs x, ==_iff x a)

-- Every stored grant is to a user, a role or the tenant, as Grant, GrantOwner and SetTenantUse
-- write them.
abbrev pub TypedSubjects : Store → Type 0
TypedSubjects m = all (λ (g : Grant). valid_subject_type g.subject_type) (values m.grants) ≡ true

listed-gives :
    (s : Subjects) (rt rid : String) (now : ℕ) (g : Grant)
    → valid_subject_type g.subject_type ≡ true
    → ((g.tenant_id == s.tenant_id && live now g && for_subject s.user_id s.roles g)
        && (readable rt g && g.resource_id == rid))
      ≡ (on_resource s.tenant_id rt rid g && gives s now "read" g)
unfolding on_resource live for_subject matches has valid_subject_type
listed-gives s rt rid now g v = ground arith

readable_ids_inv :
    (s : Subjects) (rt : String) (now : ℕ) (m : Store) {ids : List String}
    → readable_ids s rt now m ≡ ok (some ids)
    → (is_admin s ≡ false)
      × ((gs : List Grant) × (grants_for_subjects s.tenant_id s.user_id s.roles now m ≡ ok gs)
          × (distinct (map (λ (g : Grant). g.resource_id) (select (readable rt) gs)) ≡ ids))
unfolding readable_ids
readable_ids_inv s rt now m {ids} h = (
  ground arith,
  elim (Result-cases (grants_for_subjects s.tenant_id s.user_id s.roles now m)) [
    | inl (gs, e) ↦ (gs, e, ground (arith, e))
    | inr (x, e) ↦ absurd (ground (arith, e))
  ],
)

-- Where every stored grant has one of the three subject types and the listing is not of everything
-- (the caller is no administrator), a resource is in the listing exactly when the decision on it
-- carries read.
pub readable_ids-decide :
    (s : Subjects) (rt rid : String) (now : ℕ) (m : Store) {ids : List String} {gs : List Grant}
    → TypedSubjects m
    → readable_ids s rt now m ≡ ok (some ids)
    → grants_on_resource s.tenant_id rt rid m ≡ ok gs
    → contains ids rid ≡ has (decide s rt rid now gs).permissions "read"
readable_ids-decide s rt rid now m {ids} {gs} typed h k =
    let (plain, (xs, e, d)) = readable_ids_inv s rt now m h in
    rw (← d, contains-distinct (map (λ (g : Grant). g.resource_id) (select (readable rt) xs)) rid)
      (rw (contains-map (λ (g : Grant). g.resource_id) (select (readable rt) xs) rid) (
        any-select (λ (g : Grant). g.resource_id == rid) (readable rt) xs
        ∙ any-grants_for_subjects s.tenant_id s.user_id s.roles now m
            (λ (g : Grant). readable rt g && g.resource_id == rid) e
        ∙ any-cong_of_all _ _ (λ (g : Grant). valid_subject_type g.subject_type) (values m.grants)
            typed (listed-gives s rt rid now)
        ∙ sym (any-grants_on_resource s.tenant_id rt rid m (gives s now "read") k)
        ∙ sym (has-decide s rt rid "read" now gs ∙ rw plain)))
