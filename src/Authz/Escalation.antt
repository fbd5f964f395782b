-- ===== src/Authz/Escalation.antt =====
-- internal/authz/grants.go: relations, ranks and the permissions that they carry, for Grant.
use go_tangra_notification.Prelude.{
  ℕ, ◌≤◌, ◌≡◌, refl, ◌⊎◌, inl, inr, Bool, true, false, List, [], ◌∷◌, String, ◌||◌, any, arith,
  Bool-cases, ◌==◌, ok, Result-cases, leb, nat_eq, ==_iff,
}
use mathlib.Core.List.{Memᴰ}
use go_tangra_notification.Store.{Grant}
use go_tangra_notification.World.{World}
use go_tangra_notification.Memstore.Grants.{grants_on_resource}
use go_tangra_notification.Authz.Decide.{
  Subjects, Permissions, Decision, has, of_relation, rank, valid_permission, decide,
}
use go_tangra_notification.Authz.Check.{check, evaluate}
use go_tangra_notification.Authz.Soundness.{gives, has-decide, relation-decide}

any-Memᴰ {ℓ} :
    {A : Type ℓ} (p : A → Bool) (xs : List A) {x : A} → Memᴰ x xs → p x ≡ true → any p xs ≡ true
any-Memᴰ p [] m h = elim m [ ]
any-Memᴰ p (y ∷ xs) (Memᴰ.head e) h = rw (← e, h) refl
any-Memᴰ p (y ∷ xs) (Memᴰ.tail m) h = ground (arith, any-Memᴰ p xs m h)

has_valid : (r perm : String) → has (of_relation r) perm ≡ true → valid_permission perm ≡ true
unfolding has of_relation valid_permission
has_valid r perm h = ground arith

-- The permissions of a relation, from its rank.
abbrev of_rank : ℕ → Permissions
of_rank n = record {
  read = leb 1 n;
  write = leb 3 n;
  delete = leb 4 n;
  share = nat_eq n 2 || leb 4 n;
  use_ = leb 2 n;
}

of_relation-of_rank : (r : String) → of_relation r ≡ of_rank (rank r)
unfolding of_relation rank
of_relation-of_rank r = elim (Bool-cases (r == "owner")) [
  | inl e ↦ rw ((==_iff r "owner").0 e)
  | inr o ↦ elim (Bool-cases (r == "editor")) [
    | inl e ↦ rw ((==_iff r "editor").0 e)
    | inr d ↦ elim (Bool-cases (r == "viewer")) [
      | inl e ↦ rw ((==_iff r "viewer").0 e)
      | inr v ↦ elim (Bool-cases (r == "sharer")) [
        | inl e ↦ rw ((==_iff r "sharer").0 e)
        | inr h ↦ rw (o, d, v, h)
      ]
    ]
  ]
]

has-of_rank_mono :
    (m n : ℕ) (perm : String)
    → m ≤ n
    → has (of_rank m) perm ≡ true
    → (has (of_rank n) perm ≡ true) ⊎ (perm == "share" ≡ true)
unfolding has
has-of_rank_mono m n perm h k = ground arith

-- A weaker or equal relation carries nothing more, but that a sharer may share and an editor may not.
has_of_rank :
    (r r' perm : String)
    → rank r ≤ rank r'
    → has (of_relation r) perm ≡ true
    → (has (of_relation r') perm ≡ true) ⊎ (perm == "share" ≡ true)
has_of_rank r r' perm h k =
    rw (of_relation-of_rank r')
      (has-of_rank_mono (rank r) (rank r') perm h (rw (of_relation-of_rank r) at k))

has_of_empty : (perm : String) → has (of_relation "") perm ≡ false
unfolding has of_relation
has_of_empty perm = ground arith

-- The caller holds all that the relation reported by the decision carries.
has_of_held :
    (s : Subjects) (rt rid perm : String) (now : ℕ) (gs : List Grant)
    → has (of_relation (decide s rt rid now gs).relation) perm ≡ true
    → has (decide s rt rid now gs).permissions perm ≡ true
has_of_held s rt rid perm now gs h =
    rw (has-decide s rt rid perm now gs) (elim (relation-decide s rt rid now gs) [
      | inl (a, e) ↦ rw (a, has_valid _ perm h) refl
      | inr (inl (a, e)) ↦ cc (has_of_empty perm, (rw e at h))
      | inr (inr (g, m, hit, e)) ↦ ground (arith, any-Memᴰ (gives s now perm) gs m (rw (hit, e) h))
    ])

-- Whoever may share a resource holds each permission of a relation that does not rank above the
-- strongest that they hold.
pub has_of_bounded :
    (s : Subjects) (rt rid r perm : String) (now : ℕ) (gs : List Grant)
    → has (decide s rt rid now gs).permissions "share" ≡ true
    → rank r ≤ rank (decide s rt rid now gs).relation
    → has (of_relation r) perm ≡ true
    → has (decide s rt rid now gs).permissions perm ≡ true
has_of_bounded s rt rid r perm now gs sh h k = elim (has_of_rank r _ perm h k) [
  | inl e ↦ has_of_held s rt rid perm now gs e
  | inr e ↦ rw ((==_iff perm "share").0 e) sh
]

pub check-ok :
    (s : Subjects) (rt rid perm : String) (now : ℕ) (w : World) {d : Decision}
    → (check s rt rid perm now w).0 ≡ ok d
    → (gs : List Grant) × (grants_on_resource s.tenant_id rt rid w.store ≡ ok gs)
      × (d ≡ record (decide s rt rid now gs) {
        allowed = has (decide s rt rid now gs).permissions perm;
      })
unfolding check evaluate
check-ok s rt rid perm now w {d} h =
    elim (Result-cases (grants_on_resource s.tenant_id rt rid w.store)) [
      | inl (gs, e) ↦ (gs, e, ground (arith, e))
      | inr (x, e) ↦ absurd (ground (arith, e))
    ]
