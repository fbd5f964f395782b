-- ===== src/Inbox/Scope.antt =====
-- internal/inbox/inbox.go: the marks that a caller puts on entries.
use go_tangra_notification.Prelude.{
  ℕ, ◌≡◌, refl, ◌∙◌, ap, inl, inr, true, false, some, List, [], ◌∷◌, String, arith, lookup,
  lookup-insert, Bool-cases, Option-cases, Table, ◌==◌, ==_iff, and_then, ◌&&◌, not,
}
use go_tangra_notification.Store.{InboxRow}
use go_tangra_notification.Memstore.{Store, failing}
use go_tangra_notification.Memstore.Messages.{is_some}
use go_tangra_notification.Memstore.Inbox.{
  is_active, is_deleted, mine, marked, own_row, put, mark_rows, known_mark, set_inbox_status,
}

-- What may become of a row under the caller's marks.
pub record Kept (tid rid : String) (x y : InboxRow) : Type 0 where
  pub others : mine tid rid x ≡ false → y ≡ x
  pub still : mine tid rid y ≡ mine tid rid x
  pub message : y.message_id ≡ x.message_id
  pub closed : is_active x.status ≡ false → is_active y.status ≡ false
  pub gone : is_deleted x.status ≡ true → y.status ≡ x.status

pub Kept-refl : (tid rid : String) (x : InboxRow) → Kept tid rid x x
Kept-refl tid rid x = record {
  others = λ h. refl;
  still = refl;
  message = refl;
  closed = λ h. h;
  gone = λ h. refl;
}

Kept-trans :
    (tid rid : String) (x y z : InboxRow) → Kept tid rid x y → Kept tid rid y z → Kept tid rid x z
Kept-trans tid rid x y z p q = record {
  others = λ h. q.others (p.still ∙ h) ∙ p.others h;
  still = q.still ∙ p.still;
  message = q.message ∙ p.message;
  closed = λ h. q.closed (p.closed h);
  gone = λ h. q.gone (ap is_deleted (p.gone h) ∙ h) ∙ p.gone h;
}

marked-Kept :
    (tid rid : String) (now : ℕ) (status : String) (x y : InboxRow)
    → mine tid rid x ≡ true
    → marked now status x ≡ some y
    → Kept tid rid x y
unfolding marked
marked-Kept tid rid now status x y own h = record {
  others = λ n. absurd (ground (arith, n, own));
  still = ground (arith, h);
  message = ground (arith, h);
  closed = λ c. ground (arith, h, c);
  gone = λ g. ground (arith, h, g);
}

-- A row and what it has become in the table.
abbrev pub Keeps : String → String → String → Table InboxRow → Table InboxRow → Type 0
Keeps tid rid j t t' =
    (x : InboxRow)
    → lookup j t ≡ some x
    → (y : InboxRow) × (lookup j t' ≡ some y) × Kept tid rid x y

pub Keeps-trans :
    (tid rid j : String) (t u v : Table InboxRow)
    → Keeps tid rid j t u
    → Keeps tid rid j u v
    → Keeps tid rid j t v
Keeps-trans tid rid j t u v p q x e =
    let (y, f, a) = p x e in let (z, g, b) = q y f in (z, g, Kept-trans tid rid x y z a b)

mark_one :
    (tid rid j id status : String) (now : ℕ) (t : Table InboxRow)
    → Keeps tid rid j t (put id (and_then (own_row tid rid id t) (marked now status)) t)
unfolding own_row
mark_one tid rid j id status now t x e =
    elim (Option-cases (and_then (own_row tid rid id t) (marked now status))) [
      | inl n ↦ rw n (x, e, Kept-refl tid rid x)
      | inr (y, n) ↦
          rw (n, lookup-insert id j y t)
            (elim (Bool-cases (id == j)) [
              | inr other ↦ rw other (x, e, Kept-refl tid rid x)
              | inl same ↦
                  let k : id ≡ j = (==_iff id j).0 same in
                  rw same (
                    y,
                    refl,
                    marked-Kept tid rid now status x y (ground (arith, n, k, e))
                        (ground (arith, n, k, e)),
                  )
            ])
    ]

mark_rows-Keeps :
    (tid rid j status : String) (now : ℕ) (ids : List String) (t : Table InboxRow)
    → Keeps tid rid j t (mark_rows tid rid now status ids t).2
unfolding mark_rows
mark_rows-Keeps tid rid j status now [] t = λ x e. (x, e, Kept-refl tid rid x)
mark_rows-Keeps tid rid j status now (id ∷ ids) t =
    elim (Bool-cases (is_some (own_row tid rid id t) && not (known_mark status))) [
      | inl stop ↦ rw (stop, mark_rows) (λ x e. (x, e, Kept-refl tid rid x))
      | inr go ↦
          let t1 = put id (and_then (own_row tid rid id t) (marked now status)) t in
          rw (go, mark_rows)
            (Keeps-trans tid rid j t t1 _ (mark_one tid rid j id status now t)
              (mark_rows-Keeps tid rid j status now ids t1))
    ]

-- A marking of entries by their recipient never loses an entry and never gives one to another message; it
-- leaves the entries of everyone else as they are; and an entry that is revoked or deleted does not
-- become sent, received or read again, nor a deleted one revoked.
pub set_inbox_status-Keeps :
    (tid rid : String) (ids : List String) (status j : String) (m : Store)
    → Keeps tid rid j m.inbox (set_inbox_status tid rid ids status m).1.inbox
unfolding set_inbox_status failing
set_inbox_status-Keeps tid rid ids status j m =
    elim (Option-cases (lookup "SetInboxStatus" m.fail)) [
      | inr (e, f) ↦ rw (f, set_inbox_status, failing) (λ x h. (x, h, Kept-refl tid rid x))
      | inl f ↦
          rw (f, set_inbox_status, failing) (mark_rows-Keeps tid rid j status m.now ids m.inbox)
    ]
