-- ===== src/Authz/Soundness.antt =====
-- internal/authz/authz.go: what the decision says, in terms of the grants.
use go_tangra_notification.Prelude.{
  ℕ, ◌≤◌, ◌≡◌, refl, sym, ◌∙◌, ◌⊎◌, inl, inr, Bool, true, false, List, [], ◌∷◌, String, ◌&&◌, ◌||◌,
  any, arith, Bool-cases,
}
use mathlib.Core.List.{Memᴰ}
use go_tangra_notification.Store.{Grant}
use go_tangra_notification.Authz.Decide.{
  Subjects, Permissions, Decision, is_admin, has, of_relation, rank, valid_permission, matches,
  union, add_grant, fold_grants, start, decide,
}

pub has-union :
    (a b : Permissions) (perm : String) → has (union a b) perm ≡ (has a perm || has b perm)
unfolding has union
has-union a b perm = ground arith

-- What one grant contributes to the permission.
abbrev pub gives : Subjects → ℕ → String → Grant → Bool
gives s now perm g = matches g s now && has (of_relation g.relation) perm

has-add_grant :
    (s : Subjects) (now : ℕ) (perm : String) (d : Decision) (g : Grant)
    → has (add_grant s now d g).permissions perm ≡ (has d.permissions perm || gives s now perm g)
unfolding add_grant
has-add_grant s now perm d g = ground (arith, has-union d.permissions (of_relation g.relation) perm)

has-fold_grants :
    (s : Subjects) (now : ℕ) (perm : String) (d : Decision) (gs : List Grant)
    → has (fold_grants s now d gs).permissions perm
      ≡ (has d.permissions perm || any (gives s now perm) gs)
unfolding fold_grants
has-fold_grants s now perm d [] = ground arith
has-fold_grants s now perm d (g ∷ gs) =
    ground
      (arith, has-fold_grants s now perm (add_grant s now d g) gs, has-add_grant s now perm d g)

has-start :
    (s : Subjects) (rt rid perm : String)
    → has (start s rt rid).permissions perm ≡ (is_admin s && valid_permission perm)
unfolding start has of_relation valid_permission
has-start s rt rid perm = ground arith

-- The decision carries a permission exactly when the caller is a tenant administrator and the
-- permission is one of the five, or some grant of the list applies to the caller now and its
-- relation carries the permission.
pub has-decide :
    (s : Subjects) (rt rid perm : String) (now : ℕ) (gs : List Grant)
    → has (decide s rt rid now gs).permissions perm
      ≡ ((is_admin s && valid_permission perm) || any (gives s now perm) gs)
unfolding decide
has-decide s rt rid perm now gs =
    ground (arith, has-fold_grants s now perm (start s rt rid) gs, has-start s rt rid perm)

rank-add_grant :
    (s : Subjects) (now : ℕ) (d : Decision) (g : Grant)
    → (rank d.relation ≤ rank (add_grant s now d g).relation)
      × (matches g s now ≡ true → rank g.relation ≤ rank (add_grant s now d g).relation)
unfolding add_grant
rank-add_grant s now d g = ground arith

rank-fold_grants :
    (s : Subjects) (now : ℕ) (d : Decision) (gs : List Grant)
    → rank d.relation ≤ rank (fold_grants s now d gs).relation
unfolding fold_grants
rank-fold_grants s now d [] = omega arith
rank-fold_grants s now d (g ∷ gs) =
    omega (arith, rank-fold_grants s now (add_grant s now d g) gs, (rank-add_grant s now d g).0)

rank-fold_grants_of_Mem :
    (s : Subjects) (now : ℕ) (d : Decision) (gs : List Grant) (g : Grant)
    → Memᴰ g gs
    → matches g s now ≡ true
    → rank g.relation ≤ rank (fold_grants s now d gs).relation
unfolding fold_grants
rank-fold_grants_of_Mem s now d [] g m h = elim m [ ]
rank-fold_grants_of_Mem s now d (x ∷ gs) g (Memᴰ.head e) h = rw e (
    omega (
      arith,
      rank-fold_grants s now (add_grant s now d x) gs,
      (rank-add_grant s now d x).1 (rw e at h),
    ))
rank-fold_grants_of_Mem s now d (x ∷ gs) g (Memᴰ.tail m) h =
    rank-fold_grants_of_Mem s now (add_grant s now d x) gs g m h

-- Where a decision's relation comes from.
abbrev pub Held : Subjects → ℕ → List Grant → String → Type 0
Held s now gs r = (g : Grant) × Memᴰ g gs × (matches g s now ≡ true) × (g.relation ≡ r)

relation-add_grant :
    (s : Subjects) (now : ℕ) (d : Decision) (g : Grant)
    → ((add_grant s now d g).relation ≡ d.relation)
      ⊎ ((matches g s now ≡ true) × ((add_grant s now d g).relation ≡ g.relation))
unfolding add_grant
relation-add_grant s now d g = ground arith

Held-fold_grants :
    (s : Subjects) (now : ℕ) (d : Decision) (gs : List Grant)
    → ((fold_grants s now d gs).relation ≡ d.relation)
      ⊎ Held s now gs (fold_grants s now d gs).relation
unfolding fold_grants
Held-fold_grants s now d [] = inl refl
Held-fold_grants s now d (g ∷ gs) = elim (Held-fold_grants s now (add_grant s now d g) gs) [
  | inl same ↦ elim (relation-add_grant s now d g) [
    | inl kept ↦ inl (same ∙ kept)
    | inr (hit, new) ↦ inr (g, Memᴰ.head refl, hit, sym (same ∙ new))
  ]
  | inr (x, m, hit, e) ↦ inr (x, Memᴰ.tail m, hit, e)
]

-- No grant of the list that applies to the caller ranks above the relation that the decision reports.
pub rank-decide :
    (s : Subjects) (rt rid : String) (now : ℕ) (gs : List Grant) (g : Grant)
    → Memᴰ g gs
    → matches g s now ≡ true
    → rank g.relation ≤ rank (decide s rt rid now gs).relation
unfolding decide
rank-decide s rt rid now gs g m h = rank-fold_grants_of_Mem s now (start s rt rid) gs g m h

-- The relation that the decision reports is owner for a tenant administrator, or empty for a caller
-- who is none, or that of a grant of the list that applies to the caller.
pub relation-decide :
    (s : Subjects) (rt rid : String) (now : ℕ) (gs : List Grant)
    → ((is_admin s ≡ true) × ((decide s rt rid now gs).relation ≡ "owner"))
      ⊎ ((is_admin s ≡ false) × ((decide s rt rid now gs).relation ≡ ""))
      ⊎ Held s now gs (decide s rt rid now gs).relation
unfolding decide start
relation-decide s rt rid now gs = elim (Held-fold_grants s now (start s rt rid) gs) [
  | inl e ↦ elim (Bool-cases (is_admin s)) [
    | inl a ↦ inl (a, e ∙ rw a)
    | inr a ↦ inr (inl (a, e ∙ rw a))
  ]
  | inr h ↦ inr (inr h)
]
