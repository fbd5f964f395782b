-- ===== src/World/Relates.antt =====
-- How a block changes the store, step by step: rules for a reflexive and transitive relation between
-- the store before and after.
use go_tangra_notification.Prelude.{
  ◌≡◌, refl, Bool, true, false, Result, ok, err, Err, ensure, continue, ◌>>=◌, ◌>>◌,
}
use go_tangra_notification.Memstore.{Store}
use go_tangra_notification.World.{World, Act, ask}

module _ (R : Store → Store → Type 0) (R_refl : (m : Store) → R m m)
    (R_trans : (m n k : Store) → R m n → R n k → R m k) where
  abbrev pub Keeps : {A : Type 0} → Act A → World → Type 0
  Keeps f w = R w.store (f w).1.store

  continue-Keeps :
      {A B : Type 0} (w : World) (r : Result A) (f : A → Act B) (w' : World)
      → R w.store w'.store
      → ((a : A) → r ≡ ok a → Keeps (f a) w')
      → R w.store (continue r f w').1.store
  continue-Keeps w (ok a) f w' h k = R_trans w.store w'.store _ h (k a refl)
  continue-Keeps w (err e) f w' h k = h

  pub bind-Keeps :
      {A B : Type 0} (f : Act A) (g : A → Act B) (w : World)
      → Keeps f w
      → ((a : A) → (f w).0 ≡ ok a → Keeps (g a) (f w).1)
      → Keeps (f >>= g) w
  bind-Keeps f g w h k = continue-Keeps w (f w).0 g (f w).1 h k

  pub ask-Keeps :
      {A B : Type 0} (f : Store → Result A) (g : A → Act B) (w : World)
      → ((a : A) → f w.store ≡ ok a → Keeps (g a) w)
      → Keeps (ask f >>= g) w
  ask-Keeps f g w k = continue-Keeps w (f w.store) g w (R_refl w.store) k

  pub ensure-Keeps :
      {B : Type 0} (b : Bool) (e : Err) (n : Act B) (w : World)
      → (b ≡ true → Keeps n w)
      → Keeps (ensure b e >> n) w
  ensure-Keeps true e n w k = k refl
  ensure-Keeps false e n w k = R_refl w.store
