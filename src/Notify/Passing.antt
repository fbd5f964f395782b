-- ===== src/Notify/Passing.antt =====
-- internal/notify/send.go: what a block of calls leaves alone, and what its return says of it.
use go_tangra_notification.Prelude.{
  ℕ, ◌≡◌, refl, subst, ap, Bool, true, false, Option, none, some, List, String, sym, Option-cases,
  if◌then◌else◌, ◌==◌, strp, Result-cases, inl, inr, arith, Result, ok, err, Err, forbidden, ensure,
  >>=-ok, continue, ◌>>=◌, ◌>>◌,
}
use go_tangra_notification.Store.{Template, Grant}
use go_tangra_notification.Memstore.{Store}
use go_tangra_notification.Memstore.Grants.{grants_on_resource}
use go_tangra_notification.World.{World, Act, ask}
use go_tangra_notification.Authz.Decide.{Subjects, actor_id, Decision, has, decide}
use go_tangra_notification.Authz.Check.{check, require, evaluate}
use go_tangra_notification.Authz.Granting.{check_store}
use go_tangra_notification.Authz.Escalation.{check-ok}
use go_tangra_notification.Notify.Deliver.{Setup, count_send, limit, allowed}
use go_tangra_notification.Notify.Send.{SendInput}

-- The grants stored on the resource let the caller do it.
abbrev pub May : Subjects → String → String → String → ℕ → Store → Type 0
May s perm rt rid now m =
    (gs : List Grant) × (grants_on_resource s.tenant_id rt rid m ≡ ok gs)
    × (has (decide s rt rid now gs).permissions perm ≡ true)

-- The same store and the same mails.
abbrev pub Untouched : World → World → Type 0
Untouched w w' = (w'.store ≡ w.store) × (w'.mails ≡ w.mails)

pub check_mails :
    (s : Subjects) (rt rid perm : String) (now : ℕ) (w : World)
    → (check s rt rid perm now w).1.mails ≡ w.mails
unfolding check evaluate
check_mails s rt rid perm now w = ground arith

pub ensured-ok :
    {B : Type 0} (b : Bool) (e : Err) (n : Act B) (w : World) {a : B}
    → ((ensure b e >> n) w).0 ≡ ok a
    → (b ≡ true) × ((n w).0 ≡ ok a)
ensured-ok true e n w h = (refl, h)
ensured-ok false e n w h = cc

pub asked-ok :
    {A B : Type 0} (f : Store → Result A) (g : A → Act B) (w : World) {b : B}
    → ((ask f >>= g) w).0 ≡ ok b
    → (a : A) × (f w.store ≡ ok a) × ((g a w).0 ≡ ok b)
asked-ok f g w h = >>=-ok (ask f) g w h

pub required_passes :
    (s : Subjects) (rt rid perm : String) (now : ℕ) (w : World) {d : Decision}
    → (require s rt rid perm now w).0 ≡ ok d
    → May s perm rt rid now w.store × Untouched w (require s rt rid perm now w).1
unfolding require
required_passes s rt rid perm now w h = elim (Result-cases (check s rt rid perm now w).0) [
  | inr (e, n) ↦ ground (arith, n, h)
  | inl (d, n) ↦
      let (gs, g, r) = check-ok s rt rid perm now w n in
      let a : d.allowed ≡ true = ground (arith, n, h) in
      (
        (gs, g, ground (arith, a, ap (λ (z : Decision). z.allowed) r)),
        (
          ground (arith, n, a, check_store s rt rid perm now w),
          ground (arith, n, a, check_mails s rt rid perm now w),
        ),
      )
]

-- The channel that the send goes to.
abbrev pub channel_of : SendInput → Template → String
channel_of i t = if i.channel_id == "" then strp t.channel_id else i.channel_id

-- The block changes neither the store nor the mails.
pub record Quiet {A : Type 0} (f : Act A) : Type 0 where
  pub leaves : (w : World) → Untouched w (f w).1

pub continue-Quiet :
    {A B : Type 0} (v : World) (r : Result A) (g : A → Act B) (w : World)
    → Untouched v w
    → ((a : A) → Quiet (g a))
    → Untouched v (continue r g w).1
continue-Quiet v (ok a) g w h k =
    (ground (arith, h.0, ((k a).leaves w).0), ground (arith, h.1, ((k a).leaves w).1))
continue-Quiet v (err e) g w h k = h

pub bound-Quiet :
    {A B : Type 0} (f : Act A) (g : A → Act B) → Quiet f → ((a : A) → Quiet (g a)) → Quiet (f >>= g)
bound-Quiet f g k h = record { leaves = λ w. continue-Quiet w (f w).0 g (f w).1 (k.leaves w) h }

pub asked-Quiet :
    {A B : Type 0} (f : Store → Result A) (g : A → Act B)
    → ((a : A) → Quiet (g a))
    → Quiet (ask f >>= g)
asked-Quiet f g h = bound-Quiet (ask f) g (record { leaves = λ w. (refl, refl) }) h

pub ensure-Quiet : (b : Bool) (e : Err) → Quiet (ensure b e)
ensure-Quiet true e = record { leaves = λ w. (refl, refl) }
ensure-Quiet false e = record { leaves = λ w. (refl, refl) }

pub ensured-Quiet :
    {B : Type 0} (b : Bool) (e : Err) (n : Act B) → Quiet n → Quiet (ensure b e >> n)
ensured-Quiet b e n h = bound-Quiet (ensure b e) (λ _. n) (ensure-Quiet b e) (λ _. h)

pub required-Quiet :
    (s : Subjects) (rt rid perm : String) (now : ℕ) → Quiet (require s rt rid perm now)
unfolding require
required-Quiet s rt rid perm now =
    bound-Quiet (check s rt rid perm now) _
      (record { leaves = λ w. (check_store s rt rid perm now w, check_mails s rt rid perm now w) })
      (λ d.
        bound-Quiet (ensure d.allowed forbidden) _ (ensure-Quiet d.allowed forbidden)
          (λ _. record { leaves = λ w. (refl, refl) }))

-- Where there is a limiter, it answered that the limit is not reached.
abbrev pub Within :
    Option (ℕ → String → String → ℕ → ℕ → Result Bool) → String → String → ℕ → ℕ → Type 0
Within none kind subject most now = Unit {0}
Within (some limited) kind subject most now = (n : ℕ) × (limited n kind subject most now ≡ ok false)

module _ (x : Setup) where
  count_send-Quiet :
      (kind subject : String) (most now : ℕ) → Quiet (count_send x kind subject most now)
  unfolding count_send
  count_send-Quiet kind subject most now = elim (Option-cases x.limiter) [
    | inl e ↦ record { leaves = λ w. (ground (arith, e), ground (arith, e)) }
    | inr (l, e) ↦ record { leaves = λ w. (ground (arith, e), ground (arith, e)) }
  ]

  pub limit-Quiet : (s : Subjects) (now : ℕ) → Quiet (limit x s now)
  unfolding limit
  limit-Quiet s now =
      bound-Quiet (count_send x "tenant" s.tenant_id x.per_tenant now) _
        (count_send-Quiet "tenant" s.tenant_id x.per_tenant now)
        (λ _. count_send-Quiet "sender" (actor_id s) x.per_sender now)

  allowed-ok : (r : Result Bool) → allowed x r ≡ ok tt → r ≡ ok false
  allowed-ok (ok false) h = refl
  allowed-ok (ok true) h = cc
  allowed-ok (err e) h = cc

  count_send-ok :
      (kind subject : String) (most now : ℕ) (w : World)
      → (count_send x kind subject most now w).0 ≡ ok tt
      → Within x.limiter kind subject most now
  unfolding count_send
  count_send-ok kind subject most now w h = elim (Option-cases x.limiter) [
    | inl e ↦ subst (λ l. Within l kind subject most now) (sym e) tt
    | inr (l, e) ↦
        subst (λ l. Within l kind subject most now) (sym e)
          (w.drawn, allowed-ok (l w.drawn kind subject most now) (ground (arith, h, e)))
  ]

  pub limit-ok :
      (s : Subjects) (now : ℕ) (w : World) {u : Unit {0}}
      → (limit x s now w).0 ≡ ok u
      → Within x.limiter "tenant" s.tenant_id x.per_tenant now
        × Within x.limiter "sender" (actor_id s) x.per_sender now
  unfolding limit
  limit-ok s now w h =
      let (u, a, k) = >>=-ok (count_send x "tenant" s.tenant_id x.per_tenant now) _ w h in
      let v = (count_send x "tenant" s.tenant_id x.per_tenant now w).1 in
      (
        count_send-ok "tenant" s.tenant_id x.per_tenant now w a,
        count_send-ok "sender" (actor_id s) x.per_sender now v k,
      )
