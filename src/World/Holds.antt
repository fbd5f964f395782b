-- ===== src/World/Holds.antt =====
-- Rules for a property of the store that a block keeps, whether the block returns or fails.
use go_tangra_notification.Prelude.{
  ℕ, ◌≡◌, refl, sym, subst, Bool, true, false, Option, none, some, String, lookup, Option-cases,
  inl, inr, arith, Exec, Result, ok, err, Err, if◌then◌else◌, ◌==◌, not, forbidden, ensure, pure,
  ◌>>=◌, ◌>>◌,
}
use go_tangra_notification.Store.{Grant}
use go_tangra_notification.Memstore.{Store, failing, roll_back}
use go_tangra_notification.Memstore.Grants.{
  upsert_grant, delete_grants_of_subject, delete_grants_of_resource, find_tuple,
}
use go_tangra_notification.World.{World, Act, st, ask, draw_id, transaction}
use go_tangra_notification.World.Relates.{bind-Keeps, ask-Keeps}
use go_tangra_notification.Authz.Decide.{Subjects}
use go_tangra_notification.Authz.Check.{
  check, require, owner_grant, tenant_grant, put_grant, grant_owner, set_tenant_use, drop_resource,
}
use go_tangra_notification.Authz.Granting.{check_store}

pub record Keeps (P : Store → Type 0) {A : Type 0} (f : Act A) : Type 0 where
  pub keeps : (w : World) → P w.store → P (f w).1.store

-- The property looks at the channels and the templates only.
abbrev pub Stable : (Store → Type 0) → Type 0
Stable P = (m n : Store) → n.channels ≡ m.channels → n.templates ≡ m.templates → P m → P n

module _ {P : Store → Type 0} where
  pub silent : {A : Type 0} (f : Act A) → ((w : World) → (f w).1.store ≡ w.store) → Keeps P f
  silent f h = record { keeps = λ w x. subst P (sym (h w)) x }

  pub bound :
      {A B : Type 0} (f : Act A) (g : A → Act B)
      → Keeps P f
      → ((a : A) → Keeps P (g a))
      → Keeps P (f >>= g)
  bound f g k h = record {
    keeps = λ w.
        bind-Keeps (λ m n. P m → P n) (λ m x. x) (λ m n o x y z. y (x z)) f g w (k.keeps w)
          (λ a e. (h a).keeps (f w).1);
  }

  pub asked :
      {A B : Type 0} (f : Store → Result A) (g : A → Act B)
      → ((a : A) → Keeps P (g a))
      → Keeps P (ask f >>= g)
  asked f g h = bound (ask f) g (silent (ask f) (λ w. refl)) h

  -- With what the read found at hand.
  pub asked_of :
      {A B : Type 0} (f : Store → Result A) (g : A → Act B)
      → ((w : World) → P w.store → (a : A) → f w.store ≡ ok a → P (g a w).1.store)
      → Keeps P (ask f >>= g)
  asked_of f g h = record {
    keeps = λ w x.
        ask-Keeps (λ m n. P m → P n) (λ m y. y) (λ m n o y z u. z (y u)) f g w (λ a e y. h w y a e)
          x;
  }

  -- With the id that was drawn.
  pub drawn :
      {B : Type 0} (new_id : ℕ → String) (g : String → Act B)
      → ((n : ℕ) → Keeps P (g (new_id n)))
      → Keeps P (draw_id new_id >>= g)
  drawn new_id g h = record { keeps = λ w. (h w.drawn).keeps (draw_id new_id w).1 }

  pub quiet : (b : Bool) (e : Err) → Keeps P (ensure b e)
  quiet true e = silent _ (λ w. refl)
  quiet false e = silent _ (λ w. refl)

  pub followed :
      {B : Type 0} (f : Act (Unit {0})) (n : Act B) → Keeps P f → Keeps P n → Keeps P (f >> n)
  followed f n k h = bound f (λ _. n) k (λ _. h)

  pub ensured :
      {B : Type 0} (b : Bool) (e : Err) (n : Act B) → Keeps P n → Keeps P (ensure b e >> n)
  ensured b e n k = bound (ensure b e) (λ _. n) (quiet b e) (λ _. k)

  pub branch :
      {A : Type 0} (b : Bool) (f g : Act A) → Keeps P f → Keeps P g → Keeps P (if b then f else g)
  branch true f g k h = k
  branch false f g k h = h

  pub stored : {A : Type 0} (f : Exec Store A) → ((m : Store) → P m → P (f m).1) → Keeps P (st f)
  stored f h = record { keeps = λ w. h w.store }

  pub required :
      (s : Subjects) (rt rid perm : String) (now : ℕ) → Keeps P (require s rt rid perm now)
  unfolding require
  required s rt rid perm now =
      bound (check s rt rid perm now) _ (silent _ (check_store s rt rid perm now)) (λ d.
        bound (ensure d.allowed forbidden) _ (quiet d.allowed forbidden)
          (λ _. silent _ (λ w. refl)))

-- A guard that fails ends the block.
pub stopped :
    (P : Store → Type 0) {B : Type 0} (b : Bool) (e : Err) (n : Act B) (w : World)
    → b ≡ false
    → P w.store
    → P ((ensure b e >> n) w).1.store
stopped P true e n w h x = cc
stopped P false e n w h x = x

upsert_tables :
    (g : Grant) (m : Store)
    → ((upsert_grant g m).1.channels ≡ m.channels) × ((upsert_grant g m).1.templates ≡ m.templates)
unfolding upsert_grant failing
upsert_tables g m = elim (Option-cases (find_tuple g m.grants)) [
  | inl n ↦ ground (arith, n)
  | inr (x, n) ↦ ground (arith, n)
]

module _ {P : Store → Type 0} (stable : Stable P) where
  pub unmoved :
      {A : Type 0} (f : Exec Store A)
      → ((m : Store) → ((f m).1.channels ≡ m.channels) × ((f m).1.templates ≡ m.templates))
      → Keeps P (st f)
  unmoved f h = stored f (λ m x. stable m (f m).1 (h m).0 (h m).1 x)

  rolled : {A : Type 0} (m : Store) (r : Result A) (n : Store) → P m → P n → P (roll_back m r n)
  unfolding roll_back
  rolled m (ok a) n before after = after
  rolled m (err e) n before after = stable m _ refl refl before

  committed :
      {A : Type 0} (f : Act A) (w : World)
      → P w.store
      → P (f w).1.store
      → (o : Option Err) → lookup "Atomic" w.store.fail ≡ o
      → P (transaction f w).1.store
  unfolding transaction
  committed f w before after none n =
      subst P {x = roll_back w.store (f w).0 (f w).1.store} {y = (transaction f w).1.store}
        (sym (ground (arith, n))) (rolled w.store (f w).0 (f w).1.store before after)
  committed f w before after (some e) n =
      subst P {x = w.store} {y = (transaction f w).1.store} (sym (ground (arith, n))) before

  pub transacted : {A : Type 0} (f : Act A) → Keeps P f → Keeps P (transaction f)
  transacted f k = record { keeps = λ w x. committed f w x (k.keeps w x) _ refl }

  pub dropped : (tid rt rid : String) → Keeps P (st (drop_resource tid rt rid))
  unfolding drop_resource delete_grants_of_resource failing
  dropped tid rt rid = unmoved (drop_resource tid rt rid) (λ m. ground arith)

  ungranted :
      (tid rid : String) → Keeps P (st (delete_grants_of_subject tid "channel" rid "tenant" ""))
  unfolding delete_grants_of_subject failing
  ungranted tid rid =
      unmoved (delete_grants_of_subject tid "channel" rid "tenant" "") (λ m. ground arith)

  module _ (new_id : ℕ → String) where
    granted : (row : String → Grant) → Keeps P (put_grant new_id row)
    granted row = bound (draw_id new_id) _ (silent _ (λ w. refl)) (λ id.
        bound (st (upsert_grant (row id))) (λ _. pure tt)
          (unmoved (upsert_grant (row id)) (upsert_tables (row id))) (λ _. silent _ (λ w. refl)))

    pub owner_granted : (tid rt rid uid : String) → Keeps P (grant_owner new_id tid rt rid uid)
    unfolding grant_owner
    owner_granted tid rt rid uid =
        branch (uid == "") (pure tt) (put_grant new_id (owner_grant tid rt rid uid))
          (silent _ (λ w. refl)) (granted (owner_grant tid rt rid uid))

    pub use_set : (tid cid : String) (on : Bool) → Keeps P (set_tenant_use new_id tid cid on)
    unfolding set_tenant_use
    use_set tid cid on =
        branch (not on) (st (delete_grants_of_subject tid "channel" cid "tenant" ""))
          (put_grant new_id (tenant_grant tid cid)) (ungranted tid cid)
          (granted (tenant_grant tid cid))
