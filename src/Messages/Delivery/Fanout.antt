-- ===== src/Messages/Delivery/Fanout.antt =====
-- internal/messages/messages.go: the batches of a fan-out.
use go_tangra_notification.Prelude.{
  ℕ, zero, suc, ◌≤◌, ◌≡◌, refl, ◌∙◌, sym, ap, Bool, true, List, [], ◌∷◌, ◌++◌, String, arith, inl,
  inr, ◌&&◌, ltb, leb, all, length, take, drop, ok, Result-cases,
}
use go_tangra_notification.World.{World}
use go_tangra_notification.Messages.Input.{fanout_batch}
use go_tangra_notification.Messages.Publish.{
  deliver, deliver_each, flatten, batches, in_batches, all_batches,
}
use go_tangra_notification.Messages.Delivery.{is_for}
use go_tangra_notification.Messages.Delivery.Reach.{Fresh, Reached, reached, deliver-reach}

take-drop : (n : ℕ) (us : List String) → take n us ++ drop n us ≡ us
take-drop zero us = refl
take-drop (suc n) [] = refl
take-drop (suc n) (u ∷ us) = ap (λ l. u ∷ l) (take-drop n us)

length-drop : (n : ℕ) (us : List String) → length (drop n us) ≤ length us
length-drop zero us = omega arith
length-drop (suc n) [] = omega arith
length-drop (suc n) (u ∷ us) = omega (arith, length-drop n us)

flatten-batches : (fuel : ℕ) (us : List String) → length us ≤ fuel → flatten (batches fuel us) ≡ us
unfolding batches
flatten-batches zero [] h = refl
flatten-batches zero (u ∷ us) h = absurd (omega (arith, h))
flatten-batches (suc fuel) [] h = refl
flatten-batches (suc fuel) (u ∷ us) h =
    rw (flatten-batches fuel (drop 999 us) (omega (arith, h, length-drop 999 us)))
      (ap (λ l. u ∷ l) (take-drop 999 us))

length-take : (n : ℕ) (us : List String) → length (take n us) ≤ n
length-take zero us = omega arith
length-take (suc n) [] = omega arith
length-take (suc n) (u ∷ us) = omega (arith, length-take n us)

abbrev pub batch_fits : List String → Bool
batch_fits b = ltb 0 (length b) && leb (length b) fanout_batch

batches-fit : (fuel : ℕ) (us : List String) → all batch_fits (batches fuel us) ≡ true
unfolding batches
batches-fit zero us = refl
batches-fit (suc fuel) [] = refl
batches-fit (suc fuel) (u ∷ us) = ground (arith, batches-fit fuel (drop 999 us), length-take 999 us)

-- The batches of a list, joined, are the list, and each has from 1 to 1000 recipients.
pub in_batches_lem :
    (us : List String) → (flatten (in_batches us) ≡ us) × (all batch_fits (in_batches us) ≡ true)
in_batches_lem us = (flatten-batches (length us) us (omega arith), batches-fit (length us) us)

flatten_append : (a b : List (List String)) → flatten (a ++ b) ≡ flatten a ++ flatten b
flatten_append [] b = refl
flatten_append (x ∷ a) b =
    ap (λ l. x ++ l) (flatten_append a b) ∙ sym (append_assoc x (flatten a) (flatten b))
  where
    append_assoc : (x y z : List String) → (x ++ y) ++ z ≡ x ++ (y ++ z)
    append_assoc [] y z = refl
    append_assoc (u ∷ x) y z = ap (λ l. u ∷ l) (append_assoc x y z)

pub flatten-all_batches : (ps : List (List String)) → flatten (all_batches ps) ≡ flatten ps
flatten-all_batches [] = refl
flatten-all_batches (p ∷ ps) =
    flatten_append (in_batches p) (all_batches ps)
    ∙ rw ((in_batches_lem p).0, flatten-all_batches ps) refl

all_append :
    {A : Type 0} (p : A → Bool) (xs ys : List A) → all p (xs ++ ys) ≡ (all p xs && all p ys)
all_append p [] ys = refl
all_append p (x ∷ xs) ys = ground (arith, all_append p xs ys)

all_mono :
    {A : Type 0} (p q : A → Bool) (xs : List A)
    → ((x : A) → p x ≡ true → q x ≡ true)
    → all p xs ≡ true
    → all q xs ≡ true
all_mono p q [] h a = refl
all_mono p q (x ∷ xs) h a = ground (arith, a, h x, all_mono p q xs h)

module _ (new_id : ℕ → String) (distinct_ids : (a b : ℕ) → new_id a ≡ new_id b → a ≡ b) where
  abbrev Reaches : String → List String → World → World → Type 0
  Reaches id us w w' = Reached new_id distinct_ids id us w'.drawn w.store.inbox w'.store.inbox

  abbrev FreshIn : World → Type 0
  FreshIn w = Fresh new_id distinct_ids w.drawn w.store.inbox

  Reaches-append :
      (id : String) (us vs : List String) (w x y : World)
      → Reaches id us w x
      → Reaches id vs x y
      → Reaches id (us ++ vs) w y
  Reaches-append id us vs w x y p q = record {
    all_reached =
        rw
          (
            all_append (reached new_id distinct_ids id y.store.inbox) us vs,
            q.all_reached,
            all_mono (reached new_id distinct_ids id x.store.inbox)
                (reached new_id distinct_ids id y.store.inbox) us (λ u h. q.kept (is_for id u) h)
                p.all_reached,
          )
          refl;
    kept = λ t h. q.kept t (p.kept t h);
    fresh = q.fresh;
  }

  module _ (tid id : String) where
    pub deliver_each-reach :
        (bs : List (List String)) (w : World) {n : ℕ}
        → FreshIn w
        → (deliver_each new_id tid id bs w).0 ≡ ok n
        → Reaches id (flatten bs) w (deliver_each new_id tid id bs w).1
    unfolding deliver_each
    deliver_each-reach [] w f h = record { all_reached = refl; kept = λ p k. k; fresh = f }
    deliver_each-reach (b ∷ bs) w f h = elim (Result-cases (deliver new_id tid id b w).0) [
      | inr (e, x) ↦ absurd (ground (arith, h, x))
      | inl (k, x) ↦
          let p = deliver-reach new_id distinct_ids tid id b w f x in
          let w' = (deliver new_id tid id b w).1 in
          elim (Result-cases (deliver_each new_id tid id bs w').0) [
            | inr (e, y) ↦ absurd (ground (arith, h, x, y))
            | inl (l, y) ↦
                rw (x, y, deliver_each)
                  (Reaches-append id b (flatten bs) w w' (deliver_each new_id tid id bs w').1 p
                    (deliver_each-reach bs w' p.fresh y))
          ]
    ]
