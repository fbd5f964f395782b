-- ===== src/Prelude/Effects.antt =====
-- Go functions that change a store and return `(A, error)`. What was written before an error
-- stays written, so the state comes back beside the error too.
use mathlib.Core.Bool.{Bool, true, false}
use mathlib.Core.Path.{◌≡◌, refl}
use mathlib.Core.Logic.{◌⊎◌, inl, inr}
use Prim.Native.String.{String}

-- The errors of the packages, by name. `injected` is any other error, such as an outage.
pub data Err : Type 0 where
  not_found conflict : Err
  forbidden above_granter resource_not_found grant_input : Err
  state in_use inbox_input : Err
  invalid : String → String → Err
  too_many event_type payload targets reserved : Err
  channel_disabled rate_limited type_mismatch key_namespace unknown_key email_not_configured : Err
  managed_channel system_template not_system_template system_template_field : Err
  missing_required undeclared failed_render syntax : String → Err
  settings_size template_size no_provider bad_recipient channel_type span : Err
  injected : String → Err

-- `errors.Is(err, store.ErrNotFound)` and `errors.Is(err, store.ErrConflict)`.
abbrev pub is_not_found : Err → Bool
is_not_found not_found = true
is_not_found _ = false

abbrev pub is_conflict : Err → Bool
is_conflict conflict = true
is_conflict _ = false

pub data Result (A : Type 0) : Type 0 where
  ok : A → Result A
  err : Err → Result A

abbrev pub Exec : Type 0 → Type 0 → Type 0
Exec S A = S → Result A × S

module _ {S A : Type 0} where
  abbrev pub pure : A → Exec S A
  pure a s = (ok a, s)

  abbrev pub throw : Err → Exec S A
  throw e s = (err e, s)

  abbrev pub reads : (S → Result A) → Exec S A
  reads f s = (f s, s)

abbrev pub modify : {S : Type 0} → (S → S) → Exec S (Unit {0})
modify f s = (ok tt, f s)

abbrev pub ensure : {S : Type 0} → Bool → Err → Exec S (Unit {0})
ensure true e s = (ok tt, s)
ensure false e s = (err e, s)

module _ {S A B : Type 0} where
  abbrev pub continue : Result A → (A → Exec S B) → Exec S B
  continue (ok a) f s = f a s
  continue (err e) f s = (err e, s)

  infixl 5 ◌>>=◌
  abbrev pub ◌>>=◌ : Exec S A → (A → Exec S B) → Exec S B
  ◌>>=◌ m f s = continue (m s).0 f (m s).1

module _ {S B : Type 0} where
  infixl 5 ◌>>◌
  abbrev pub ◌>>◌ : Exec S (Unit {0}) → Exec S B → Exec S B
  m >> n = m >>= λ _. n

-- An error seen by the caller under another name.
abbrev pub map_err : {A : Type 0} → (Err → Err) → Result A → Result A
map_err f (ok a) = ok a
map_err f (err e) = err (f e)

abbrev pub renaming : {S A : Type 0} → (Err → Err) → Exec S A → Exec S A
renaming f m s = (map_err f (m s).0, (m s).1)

-- A chain of reads.
abbrev pub bind_result : {A B : Type 0} → Result A → (A → Result B) → Result B
bind_result (ok a) f = f a
bind_result (err e) f = err e

abbrev pub map_result : {A B : Type 0} → (A → B) → Result A → Result B
map_result f (ok a) = ok (f a)
map_result f (err e) = err e

-- A block that returns a value ran each of its steps to a value.
module _ {S A B : Type 0} where
  continue-ok :
      (r : Result A) (f : A → Exec S B) (s : S) {b : B}
      → (continue r f s).0 ≡ ok b
      → (a : A) × (r ≡ ok a) × ((f a s).0 ≡ ok b)
  continue-ok (ok a) f s h = (a, refl, h)
  continue-ok (err e) f s h = cc

  pub >>=-ok :
      (m : Exec S A) (f : A → Exec S B) (s : S) {b : B}
      → ((m >>= f) s).0 ≡ ok b
      → (a : A) × ((m s).0 ≡ ok a) × ((f a (m s).1).0 ≡ ok b)
  >>=-ok m f s h = continue-ok (m s).0 f (m s).1 h

pub ensure-ok :
    {S : Type 0} (b : Bool) (e : Err) (s : S) {u : Unit {0}} → (ensure b e s).0 ≡ ok u → b ≡ true
ensure-ok true e s h = refl
ensure-ok false e s h = cc

pub Result-cases : {A : Type 0} (r : Result A) → ((a : A) × (r ≡ ok a)) ⊎ ((e : Err) × (r ≡ err e))
Result-cases (ok a) = inl (a, refl)
Result-cases (err e) = inr (e, refl)
