-- ===== src/Stream/Memory/Log/Order.antt =====
-- internal/stream/client.go: streams whose ids rise.
use go_tangra_notification.Prelude.{
  ℕ, zero, suc, ◌≤◌, Bool, true, false, List, [], ◌∷◌, ◌++◌, ◌==◌, length, drop, all, select, ◌≡◌,
  refl, arith,
}
use go_tangra_notification.Stream.Ids.{less, less_trans, less_self}
use go_tangra_notification.Stream.Memory.{Entry, is_newer}
use go_tangra_notification.Stream.Memory.Log.{rises}

module _ (e : Entry) (ys : List Entry) (named : e.id == "" ≡ false) where
  pub newer_all :
      (zs : List Entry) → all (λ y. less e.id y.id) zs ≡ true → select (is_newer e.id) zs ≡ zs
  newer_all [] h = refl
  newer_all (z ∷ zs) h = ground (arith, h, newer_all zs)

  before_last : (p : Entry → Bool) (zs : List Entry) → all p (zs ++ (e ∷ ys)) ≡ true → p e ≡ true
  before_last p [] h = ground (arith, h)
  before_last p (z ∷ zs) h = before_last p zs (ground (arith, h))

  -- What is entries_newer than an entry of a rising stream is what comes after it.
  pub newer_than :
      (zs : List Entry)
      → rises (zs ++ (e ∷ ys)) ≡ true
      → select (is_newer e.id) (zs ++ (e ∷ ys)) ≡ ys
  unfolding rises
  newer_than [] h =
      let r = newer_all ys (ground (arith, h)) in ground (arith, named, less_self e.id, r)
  newer_than (z ∷ zs) h =
      let l : less z.id e.id ≡ true = before_last (λ x. less z.id x.id) zs (ground (arith, h)) in
      let n : less e.id z.id ≡ false =
        ground (arith, l, less_trans e.id z.id e.id, less_self e.id) in
      let r = newer_than zs (ground (arith, h)) in ground (arith, named, n, r)

pub all_drop :
    (p : Entry → Bool) (k : ℕ) (es : List Entry) → all p es ≡ true → all p (drop k es) ≡ true
all_drop p zero es h = h
all_drop p (suc k) [] h = refl
all_drop p (suc k) (x ∷ es) h = all_drop p k es (ground (arith, h))

pub drop_within :
    (k : ℕ) (xs rest : List Entry) → k ≤ length xs → drop k (xs ++ rest) ≡ drop k xs ++ rest
drop_within zero xs rest h = refl
drop_within (suc k) [] rest h = ground (arith, h)
drop_within (suc k) (x ∷ xs) rest h = drop_within k xs rest (omega (arith, h))

pub all_snoc :
    (p : Entry → Bool) (es : List Entry) (x : Entry)
    → all p es ≡ true
    → p x ≡ true
    → all p (es ++ x ∷ []) ≡ true
all_snoc p [] x h l = ground (arith, l)
all_snoc p (e ∷ es) x h l = ground (arith, h, all_snoc p es x, l)
