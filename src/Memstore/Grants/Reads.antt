-- ===== src/Memstore/Grants/Reads.antt =====
-- internal/memstore/memstore.go: the rows that the reads of the grants return.
use go_tangra_notification.Prelude.{
  ℕ, ◌≡◌, subst, ◌∙◌, Bool, List, String, ◌&&◌, ◌==◌, ok, any, values, any-sort_by, any-select,
  sort_by, select,
}
use go_tangra_notification.Store.{Grant}
use go_tangra_notification.Memstore.Owned.{Store, failing_read-ok}
use go_tangra_notification.Memstore.Grants.{
  grants_on_resource, on_resource, grant_less, grants_for_subjects, live, for_subject,
}

ok-injective : {A : Type 0} {a b : A} → ok a ≡ ok b → a ≡ b
ok-injective h = cc

any-selected :
    (q p : Grant → Bool) (xs : List Grant)
    → any p (sort_by grant_less (select q xs)) ≡ any (λ g. q g && p g) xs
any-selected q p xs = any-sort_by p grant_less (select q xs) ∙ any-select p q xs

-- Some returned grant passes a test exactly when some stored grant on the resource does.
pub any-grants_on_resource :
    (tid rt rid : String) (m : Store) (p : Grant → Bool) {gs : List Grant}
    → grants_on_resource tid rt rid m ≡ ok gs
    → any p gs ≡ any (λ g. on_resource tid rt rid g && p g) (values m.grants)
unfolding grants_on_resource
any-grants_on_resource tid rt rid m p {gs} h =
    subst (λ xs. any p xs ≡ any (λ g. on_resource tid rt rid g && p g) (values m.grants))
      (ok-injective (failing_read-ok _ _ m h))
      (any-selected (on_resource tid rt rid) p (values m.grants))

-- The same for the grants of a caller.
pub any-grants_for_subjects :
    (tid uid : String) (roles : List String) (now : ℕ) (m : Store) (p : Grant → Bool)
    {gs : List Grant}
    → grants_for_subjects tid uid roles now m ≡ ok gs
    → any p gs
      ≡ any
          (λ g. (g.tenant_id == tid && live now g && for_subject uid roles g) && p g)
          (values m.grants)
unfolding grants_for_subjects
any-grants_for_subjects tid uid roles now m p {gs} h =
    subst
      (λ xs.
        any p xs
        ≡ any (λ g. (g.tenant_id == tid && live now g && for_subject uid roles g) && p g)
            (values m.grants))
      (ok-injective (failing_read-ok _ _ m h))
      (any-selected (λ g. g.tenant_id == tid && live now g && for_subject uid roles g) p
        (values m.grants))
