-- ===== src/Authz/Granting.antt =====
-- internal/authz/grants.go: what Grant and Revoke do, on success and on every refusal.
use go_tangra_notification.Prelude.{
  ℕ, ◌≤◌, ◌≡◌, refl, sym, ap, ◌∙◌, subst, ◌⊎◌, inl, inr, true, some, List, String, ◌&&◌, any, arith,
  Bool-cases, Option-cases, ok, err, Err, Result-cases, ==_iff, values, any-lookup, lookup, erase,
  forbidden,
}
use go_tangra_notification.Store.{Grant}
use go_tangra_notification.World.{World}
use go_tangra_notification.Memstore.{owned, failing, failing_read}
use go_tangra_notification.Memstore.Grants.{
  grants_on_resource, upsert_grant, on_resource, same_tuple, get_grant, delete_grant,
}
use go_tangra_notification.Memstore.Grants.Upsert.{upsert_grant-err, upsert_grant-ok}
use go_tangra_notification.Authz.Decide.{
  Subjects, Decision, has, of_relation, rank, matches, decide,
}
use go_tangra_notification.Authz.Check.{check, evaluate, hide_missing}
use go_tangra_notification.Authz.Grants.{GrantInput, GrantView, grant, grant_row, revoke}
use go_tangra_notification.Memstore.Grants.Reads.{any-grants_on_resource}
use go_tangra_notification.Authz.Soundness.{gives, has-decide}
use go_tangra_notification.Authz.Escalation.{check-ok, has_of_bounded}

-- A check changes no table.
pub check_store :
    (s : Subjects) (rt rid perm : String) (now : ℕ) (w : World)
    → (check s rt rid perm now w).1.store ≡ w.store
unfolding check evaluate
check_store s rt rid perm now w = ground arith

grant_inv :
    (new_id : ℕ → String) (s : Subjects) (i : GrantInput) (now : ℕ) (w : World) {v : GrantView}
    → (grant new_id s i now w).0 ≡ ok v
    → (d : Decision) × ((check s i.resource_type i.resource_id "share" now w).0 ≡ ok d)
      × (d.allowed ≡ true)
      × (rank i.relation ≤ rank d.relation)
unfolding grant
grant_inv new_id s i now w h =
    elim (Result-cases (check s i.resource_type i.resource_id "share" now w).0) [
      | inl (d, e) ↦ (d, e, ground (arith, e), ground (arith, e))
      | inr (x, e) ↦ absurd (ground (arith, e))
    ]

-- A grant that is made stays within what its maker holds: by the grants stored on the resource before
-- the call, the maker may share it and holds there every permission of the relation given.
pub grant-bounded :
    (new_id : ℕ → String) (s : Subjects) (i : GrantInput) (now : ℕ) (w : World) {v : GrantView}
    {gs : List Grant} (perm : String)
    → (grant new_id s i now w).0 ≡ ok v
    → grants_on_resource s.tenant_id i.resource_type i.resource_id w.store ≡ ok gs
    → has (of_relation i.relation) perm ≡ true
    → let d = decide s i.resource_type i.resource_id now gs in
      (has d.permissions "share" ≡ true) × (has d.permissions perm ≡ true)
grant-bounded new_id s i now w {gs = gs} perm h k carries =
    let (d, c, allowed, bound) = grant_inv new_id s i now w h in
    let (xs, e, q) = check-ok s i.resource_type i.resource_id "share" now w c in
    let same : xs ≡ gs = ground (arith, e, k) in
    let share : has (decide s i.resource_type i.resource_id now xs).permissions "share" ≡ true =
      sym (ap (λ (x : Decision). x.allowed) q) ∙ allowed in
    rw (← same) (
      share,
      has_of_bounded s i.resource_type i.resource_id i.relation perm now xs share
          (subst (λ (r : String). rank i.relation ≤ rank r) (ap (λ (x : Decision). x.relation) q)
            bound)
          carries,
    )

-- A refused or failed call of Grant leaves the store as it was.
pub grant-err :
    (new_id : ℕ → String) (s : Subjects) (i : GrantInput) (now : ℕ) (w : World) {e : Err}
    → (grant new_id s i now w).0 ≡ err e
    → (grant new_id s i now w).1.store ≡ w.store
unfolding grant
grant-err new_id s i now w {e} h =
    let w' = (check s i.resource_type i.resource_id "share" now w).1 in
    ground (
      arith,
      check_store s i.resource_type i.resource_id "share" now w,
      upsert_grant-err (grant_row s i (new_id w'.drawn)) w'.store {e = e},
    )

grant_written :
    (new_id : ℕ → String) (s : Subjects) (i : GrantInput) (now : ℕ) (w : World) {v : GrantView}
    → (grant new_id s i now w).0 ≡ ok v
    → (id : String) × (g : Grant) × ((upsert_grant (grant_row s i id) w.store).0 ≡ ok g)
      × ((grant new_id s i now w).1.store ≡ (upsert_grant (grant_row s i id) w.store).1)
unfolding grant
grant_written new_id s i now w h =
    let w' = (check s i.resource_type i.resource_id "share" now w).1 in
    let same = check_store s i.resource_type i.resource_id "share" now w in
    elim (Result-cases (upsert_grant (grant_row s i (new_id w'.drawn)) w.store).0) [
      | inl (g, e) ↦ (new_id w'.drawn, g, e, ground (arith, same, e))
      | inr (x, e) ↦ absurd (ground (arith, same, e))
    ]

-- A row of the same tuple and expiry applies to the same callers.
matches_same :
    (g g' : Grant) (o : Subjects) (now : ℕ)
    → same_tuple g' g ≡ true
    → g'.expires_at ≡ g.expires_at
    → matches g' o now ≡ matches g o now
unfolding matches same_tuple
matches_same g g' o now h e =
    let t : g'.subject_type ≡ g.subject_type =
      (==_iff g'.subject_type g.subject_type).0 (ground arith) in
    let i : g'.subject_id ≡ g.subject_id = (==_iff g'.subject_id g.subject_id).0 (ground arith) in
    rw (t, i, e)

matches_any_id :
    (s : Subjects) (i : GrantInput) (a b : String) (o : Subjects) (now : ℕ)
    → matches (grant_row s i a) o now ≡ matches (grant_row s i b) o now
unfolding matches grant_row
matches_any_id s i a b o now = refl

on_resource_same :
    (g g' : Grant)
    → same_tuple g' g ≡ true
    → on_resource g.tenant_id g.resource_type g.resource_id g' ≡ true
unfolding on_resource same_tuple
on_resource_same g g' h = ground arith

-- After a grant is made, every caller of the tenant to whom it applies holds, on the resource, each
-- permission of the relation given.
pub grant-effective :
    (new_id : ℕ → String) (s : Subjects) (i : GrantInput) (now : ℕ) (w : World) {v : GrantView}
    → (grant new_id s i now w).0 ≡ ok v
    → (o : Subjects) → o.tenant_id ≡ s.tenant_id
    → matches (grant_row s i v.id) o now ≡ true
    → (perm : String) → has (of_relation i.relation) perm ≡ true
    → {gs : List Grant}
    → grants_on_resource o.tenant_id i.resource_type i.resource_id (grant new_id s i now w).1.store
      ≡ ok gs
    → has (decide o i.resource_type i.resource_id now gs).permissions perm ≡ true
unfolding grant_row
grant-effective new_id s i now w {v} h o t hit perm k {gs} e =
    let (id, g, u, q) = grant_written new_id s i now w h in
    let (key, at, same, rel, exp) = upsert_grant-ok (grant_row s i id) w.store u in
    let m = (upsert_grant (grant_row s i id) w.store).1 in
    let here : any
          (λ x. on_resource o.tenant_id i.resource_type i.resource_id x && gives o now perm x)
          (values m.grants)
        ≡ true =
      any-lookup _ key m.grants at (
        rw
          (
            matches_same (grant_row s i id) g o now same exp,
            matches_any_id s i id v.id o now,
            hit,
            rel,
            t,
            on_resource_same (grant_row s i id) g same,
          )
          k) in
    rw (has-decide o i.resource_type i.resource_id perm now gs) (
      ground (
        arith,
        any-grants_on_resource o.tenant_id i.resource_type i.resource_id m (gives o now perm)
            {gs = gs} (rw (← q) e),
        here,
      ))

-- The grant of that id in the caller's tenant is the one that is deleted, and nothing else changes.
abbrev pub Revokes : Subjects → String → ℕ → World → Type 0
Revokes s id now w =
    (g : Grant) × (d : Decision) × (owned (λ (x : Grant). x.tenant_id) s.tenant_id id w.store.grants
      ≡ some g)
    × ((check s g.resource_type g.resource_id "share" now w).0 ≡ ok d)
    × (d.allowed ≡ true)
    × ((revoke s id now w).0 ≡ ok tt)
    × ((revoke s id now w).1.store ≡ record w.store { grants = erase id w.store.grants })

-- A revocation that succeeds was asked for by one who may share the resource of the grant, and takes
-- that grant out of the table and changes nothing else in the store; any other call returns an error
-- and leaves the store as it was.
pub revoke_lem :
    (s : Subjects) (id : String) (now : ℕ) (w : World)
    → Revokes s id now w
      ⊎ ((e : Err) × ((revoke s id now w).0 ≡ err e) × ((revoke s id now w).1.store ≡ w.store))
unfolding revoke get_grant failing_read delete_grant failing
revoke_lem s id now w = elim (Result-cases (get_grant s.tenant_id id w.store)) [
  | inr (x, e) ↦ inr (hide_missing x, ground (arith, e), ground (arith, e))
  | inl (g, e) ↦
      let same = check_store s g.resource_type g.resource_id "share" now w in
      elim (Result-cases (check s g.resource_type g.resource_id "share" now w).0) [
        | inr (x, c) ↦ inr (x, ground (arith, c, e), ground (arith, e, c, same))
        | inl (d, c) ↦ elim (Bool-cases d.allowed) [
          | inr n ↦ inr (forbidden, ground (arith, c, e, n), ground (arith, e, c, same, n))
          | inl y ↦ elim (Option-cases (lookup "DeleteGrant" w.store.fail)) [
            | inl n ↦ inl (
              g,
              d,
              ground (arith, e),
              c,
              y,
              ground (arith, e, c, y, same, n),
              ground (arith, e, c, y, same, n),
            )
            | inr (x, f) ↦
                inr (
                  hide_missing x,
                  ground (arith, e, c, y, same, f),
                  ground (arith, e, c, y, same, f),
                )
          ]
        ]
      ]
]
