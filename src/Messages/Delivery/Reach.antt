-- ===== src/Messages/Delivery/Reach.antt =====
-- internal/messages/messages.go: one batch of deliveries.
use go_tangra_notification.Prelude.{
  ℕ, suc, ◌+◌, ◌≤◌, ◌≡◌, refl, ◌∙◌, sym, Bool, true, none, List, [], ◌∷◌, String, arith, inl, inr,
  ◌==◌, ==_iff, ==_self, ◌||◌, any, all, length, Table, lookup, insert, values, Bool-cases, ok,
  lookup-insert,
}
use go_tangra_notification.Store.{InboxRow, sent}
use go_tangra_notification.World.{World}
use go_tangra_notification.Memstore.{Store, failing}
use go_tangra_notification.Memstore.Inbox.{insert_rows, insert_inbox_batch}
use go_tangra_notification.Messages.Publish.{make_rows, deliver}
use go_tangra_notification.Messages.Refines.Publish.{deliver_store}
use go_tangra_notification.Messages.Delivery.{is_for}

any-insert_new :
    {A : Type 0} (p : A → Bool) (k : String) (y : A) (t : Table A)
    → lookup k t ≡ none
    → any p (values (insert k y t)) ≡ (any p (values t) || p y)
unfolding insert values lookup
any-insert_new p k y [] h = ground arith
any-insert_new p k y ((j, x) ∷ t) h = ground (arith, any-insert_new p k y t)

module _ (new_id : ℕ → String) (distinct_ids : (a b : ℕ) → new_id a ≡ new_id b → a ≡ b) where
  -- No id that is still to be drawn is taken.
  abbrev pub Fresh : ℕ → Table InboxRow → Type 0
  Fresh k t = (n : ℕ) → k ≤ n → lookup (new_id n) t ≡ none

  Fresh-insert :
      (k : ℕ) (y : InboxRow) (t : Table InboxRow)
      → Fresh k t
      → Fresh (suc k) (insert (new_id k) y t)
  Fresh-insert k y t fresh n h = elim (Bool-cases (new_id k == new_id n)) [
    | inl e ↦
        let same = distinct_ids k n ((==_iff (new_id k) (new_id n)).0 e) in
        absurd (omega (arith, same, h))
    | inr e ↦ rw (lookup-insert (new_id k) (new_id n) y t, e) (fresh n (omega (arith, h)))
  ]

  abbrev pub reached : String → Table InboxRow → String → Bool
  reached id t u = any (is_for id u) (values t)

  -- What a delivery to the recipients does to the table of deliveries.
  pub record Reached (id : String) (us : List String) (k : ℕ) (t t' : Table InboxRow) : Type 0 where
    pub all_reached : all (reached id t') us ≡ true
    pub kept : (p : InboxRow → Bool) → any p (values t) ≡ true → any p (values t') ≡ true
    pub fresh : Fresh k t'

  -- Where the table before already has, or is given, the first delivery, the rest follow.
  Reached-cons :
      (id u : String) (us : List String) (k : ℕ) (t t1 t' : Table InboxRow)
      → Reached id us (suc k + length us) t1 t'
      → ((p : InboxRow → Bool) → any p (values t) ≡ true → any p (values t1) ≡ true)
      → reached id t1 u ≡ true
      → Reached id (u ∷ us) (k + length (u ∷ us)) t t'
  Reached-cons id u us k t t1 t' r keep here = record {
    all_reached = rw (r.kept (is_for id u) here, r.all_reached) refl;
    kept = λ p h. r.kept p (keep p h);
    fresh = λ n h. r.fresh n (omega (arith, h));
  }

  pub make_rows-reach :
      (now k : ℕ) (tid id : String) (us : List String) (t : Table InboxRow)
      → Fresh k t
      → Reached id us (k + length us) t (insert_rows now (make_rows new_id k tid id us) t).1
  unfolding insert_rows make_rows
  make_rows-reach now k tid id [] t f = record {
    all_reached = refl;
    kept = λ p h. h;
    fresh = λ n h. f n (omega (arith, h));
  }
  make_rows-reach now k tid id (u ∷ us) t f = elim (Bool-cases (reached id t u)) [
    | inl dup ↦
        rw (dup, insert_rows, make_rows)
          (Reached-cons id u us k t t _
            (make_rows-reach now (suc k) tid id us t (λ n h. f n (omega (arith, h)))) (λ p h. h)
            dup)
    | inr new ↦
        let y : InboxRow = record {
          id = new_id k;
          tenant_id = tid;
          message_id = id;
          recipient_id = u;
          status = sent;
          read_at = none;
          created_at = now;
          updated_at = now;
          message = none;
        } in
        let free : lookup (new_id k) t ≡ none = f k (omega arith) in
        let t1 = insert (new_id k) y t in
        rw (new, insert_rows, make_rows)
          (Reached-cons id u us k t t1 _
            (make_rows-reach now (suc k) tid id us t1 (Fresh-insert k y t f))
            (λ p h. rw (any-insert_new p (new_id k) y t free, h) refl)
            (rw (any-insert_new (is_for id u) (new_id k) y t free, ==_self id, ==_self u)
              (ground arith)))
  ]

  insert_inbox_batch-ok :
      (rows : List InboxRow) (m : Store) {n : ℕ}
      → (insert_inbox_batch rows m).0 ≡ ok n
      → (insert_inbox_batch rows m).1.inbox ≡ (insert_rows m.now rows m.inbox).1
  unfolding insert_inbox_batch failing
  insert_inbox_batch-ok rows m h = ground arith

  module _ (tid id : String) where
    deliver_drawn :
        (ids : List String) (w : World) {n : ℕ}
        → (deliver new_id tid id ids w).0 ≡ ok n
        → (deliver new_id tid id ids w).1.drawn ≡ w.drawn + length ids
    unfolding deliver
    deliver_drawn ids w h = ground arith

    pub deliver-reach :
        (ids : List String) (w : World) {n : ℕ}
        → Fresh w.drawn w.store.inbox
        → (deliver new_id tid id ids w).0 ≡ ok n
        → let w' = (deliver new_id tid id ids w).1 in
          Reached id ids w'.drawn w.store.inbox w'.store.inbox
    deliver-reach ids w f h =
        let rows = make_rows new_id w.drawn tid id ids in
        let (same, out) = deliver_store new_id tid id ids w in
        rw (deliver_drawn ids w h, same, insert_inbox_batch-ok rows w.store (sym out ∙ h))
          (make_rows-reach w.store.now w.drawn tid id ids w.store.inbox f)
