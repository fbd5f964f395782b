-- ===== src/Memstore/Defaults.antt =====
-- internal/memstore/memstore.go: a tenant has at most one default channel of a type.
use go_tangra_notification.Prelude.{
  ℕ, ◌≡◌, refl, sym, inl, inr, Bool, true, false, Option, none, some, [], ◌∷◌, String, ◌&&◌,
  if◌then◌else◌, ◌==◌, ==_iff, Table, lookup, insert, erase, values, any, any_entry, update_entries,
  subst, lookup-insert, lookup-erase, ltb, map_option, Option-cases, Bool-cases, arith, Exec,
  Result,
}
use go_tangra_notification.Store.{Channel}
use go_tangra_notification.Memstore.Owned.{Store, failing, owned, owned_inv}
use go_tangra_notification.Memstore.Grants.{template_count}
use go_tangra_notification.Memstore.Channels.{
  clear_row, clear_default_channel, clashes, or_object, insert_channel, clashes_with,
  updated_channel, update_channel, update_found, delete_channel, delete_found,
}

pub any-values :
    {A : Type 0} (p : A → Bool) (t : Table A) (k : String) (x : A)
    → any p (values t) ≡ false
    → lookup k t ≡ some x
    → p x ≡ false
unfolding lookup values
any-values p [] k x h l = ground arith
any-values p ((j, y) ∷ t) k x h l = ground (arith, any-values p t k x)

pub any_entry-lookup :
    {A : Type 0} (p : String → A → Bool) (t : Table A) (k : String) (x : A)
    → any_entry p t ≡ false
    → lookup k t ≡ some x
    → p k x ≡ false
unfolding lookup any_entry
any_entry-lookup p [] k x h l = ground arith
any_entry-lookup p ((j, y) ∷ t) k x h l = ground (arith, any_entry-lookup p t k x, ==_iff j k)

pub lookup-update_entries :
    {A : Type 0} (f : String → A → A) (t : Table A) (k : String)
    → lookup k (update_entries f t) ≡ map_option (f k) (lookup k t)
unfolding lookup update_entries
lookup-update_entries f [] k = refl
lookup-update_entries f ((j, y) ∷ t) k = ground (arith, lookup-update_entries f t k, ==_iff j k)

-- Two rows that are both the default of one tenant and type.
abbrev pub rivals : Channel → Channel → Bool
rivals a b = a.tenant_id == b.tenant_id && a.kind == b.kind && a.is_default && b.is_default

-- Two different rows are never both the default of one tenant and type.
abbrev pub OneDefault : Table Channel → Type 0
OneDefault t =
    (i j : String) (a b : Channel)
    → lookup i t ≡ some a
    → lookup j t ≡ some b
    → rivals a b ≡ true
    → i ≡ j

rivals_sym : (a b : Channel) → rivals a b ≡ true → rivals b a ≡ true
rivals_sym a b h = ground (
  arith,
  ==_iff a.tenant_id b.tenant_id,
  ==_iff b.tenant_id a.tenant_id,
  ==_iff a.kind b.kind,
  ==_iff b.kind a.kind,
)

insert_self :
    (t : Table Channel) (k i : String) (c a : Channel)
    → k == i ≡ true
    → lookup i (insert k c t) ≡ some a
    → c ≡ a
insert_self t k i c a e h = ground (arith, lookup-insert k i c t)

insert_other :
    (t : Table Channel) (k i : String) (c a : Channel)
    → k == i ≡ false
    → lookup i (insert k c t) ≡ some a
    → lookup i t ≡ some a
insert_other t k i c a e h = ground (arith, lookup-insert k i c t)

-- A row that has no rival under another key may be written.
insert-OneDefault :
    (t : Table Channel) (k : String) (c : Channel)
    → OneDefault t
    → ((j : String) (b : Channel) → lookup j t ≡ some b → rivals c b ≡ true → j ≡ k)
    → OneDefault (insert k c t)
insert-OneDefault t k c one alone i j a b x y r = elim (Bool-cases (k == i)) [
  | inl p ↦ elim (Bool-cases (k == j)) [
    | inl q ↦ ground (arith, ==_iff k i, ==_iff k j)
    | inr q ↦
        let r' = subst (λ z. rivals z b ≡ true) (sym (insert_self t k i c a p x)) r in
        ground (arith, ==_iff k i, alone j b (insert_other t k j c b q y) r')
  ]
  | inr p ↦ elim (Bool-cases (k == j)) [
    | inl q ↦
        let r' = subst (λ z. rivals a z ≡ true) (sym (insert_self t k j c b q y)) r in
        ground (arith, ==_iff k j, alone i a (insert_other t k i c a p x) (rivals_sym a c r'))
    | inr q ↦ one i j a b (insert_other t k i c a p x) (insert_other t k j c b q y) r
  ]
]

-- Each row of the second table is a row of the first, which is the default of a tenant and type if
-- the row is.
abbrev Lowers : Table Channel → Table Channel → Type 0
Lowers t u =
    (k : String) (b : Channel)
    → lookup k u ≡ some b
    → (a : Channel) × (lookup k t ≡ some a)
      × ((c : Channel) → rivals b c ≡ true → rivals a c ≡ true)

Lowers-OneDefault : (t u : Table Channel) → Lowers t u → OneDefault t → OneDefault u
Lowers-OneDefault t u low one i j a b x y r =
    let (a', x', ra) = low i a x in
    let (b', y', rb) = low j b y in
    one i j a' b' x' y' (ra b' (rivals_sym b' a (rb a (rivals_sym a b r))))

clear_row-rivals :
    (tid typ except k : String) (a c : Channel)
    → rivals (clear_row tid typ except k a) c ≡ true
    → rivals a c ≡ true
unfolding clear_row
clear_row-rivals tid typ except k a c h = ground arith

clear-Lowers :
    (tid typ except : String) (t : Table Channel)
    → Lowers t (update_entries (clear_row tid typ except) t)
clear-Lowers tid typ except t k b h = elim (Option-cases (lookup k t)) [
  | inl n ↦ ground (arith, lookup-update_entries (clear_row tid typ except) t k, n)
  | inr (a, n) ↦
      let e = cleared tid typ except t k a b n h in
      (
        a,
        n,
        λ c r. clear_row-rivals tid typ except k a c (subst (λ z. rivals z c ≡ true) (sym e) r),
      )
]
  where
    cleared :
        (tid typ except : String) (t : Table Channel) (k : String) (a b : Channel)
        → lookup k t ≡ some a
        → lookup k (update_entries (clear_row tid typ except) t) ≡ some b
        → clear_row tid typ except k a ≡ b
    cleared tid typ except t k a b n h =
        ground (arith, lookup-update_entries (clear_row tid typ except) t k, n)

erase-Lowers : (id : String) (t : Table Channel) → Lowers t (erase id t)
erase-Lowers id t k b h = (b, ground (arith, lookup-erase id k t), λ c r. r)

-- What holds before and after the body of an operation holds after the operation.
pub failing_keeps :
    {A : Type 0} (P : Store → Type 0) (op : String) (body : Exec Store A) (m : Store)
    → P m
    → P (body m).1
    → P (failing op body m).1
unfolding failing
failing_keeps P op body m before after = elim (Option-cases (lookup op m.fail)) [
  | inl n ↦ subst P (sym (ground (arith, n))) after
  | inr (e, n) ↦ subst P (sym (ground (arith, n))) before
]

abbrev Good : Store → Type 0
Good m = OneDefault m.channels

-- The same for a body that writes what passes a test.
pub guarded_keeps :
    {A : Type 0} (P : Store → Type 0) (b : Bool) (x y : Result A × Store)
    → (b ≡ true → P x.1)
    → (b ≡ false → P y.1)
    → P (if b then x else y).1
guarded_keeps P true x y h k = h refl
guarded_keeps P false x y h k = k refl

module _ (lower : String → String) where
  clashes_alone :
      (c b : Channel) (t : Table Channel) (j : String)
      → any (clashes lower c) (values t) ≡ false
      → lookup j t ≡ some b
      → rivals c b ≡ true
      → j ≡ c.id
  unfolding clashes
  clashes_alone c b t j n l r = ground (
    arith,
    any-values (clashes lower c) t j b n l,
    ==_iff c.tenant_id b.tenant_id,
    ==_iff b.tenant_id c.tenant_id,
    ==_iff c.kind b.kind,
    ==_iff b.kind c.kind,
  )

  clashes_with_alone :
      (c old b : Channel) (now : ℕ) (t : Table Channel) (j : String)
      → old.tenant_id ≡ c.tenant_id
      → any_entry (clashes_with lower c old.kind) t ≡ false
      → lookup j t ≡ some b
      → rivals (updated_channel lower now c old) b ≡ true
      → j ≡ c.id
  unfolding clashes_with updated_channel
  clashes_with_alone c old b now t j o n l r = ground (
    arith,
    o,
    any_entry-lookup (clashes_with lower c old.kind) t j b n l,
    ==_iff j c.id,
    ==_iff old.tenant_id b.tenant_id,
    ==_iff b.tenant_id c.tenant_id,
    ==_iff old.kind b.kind,
    ==_iff b.kind old.kind,
  )

  pub insert_channel-OneDefault :
      (c : Channel) (m : Store)
      → OneDefault m.channels
      → OneDefault (insert_channel lower c m).1.channels
  unfolding insert_channel
  insert_channel-OneDefault c m one = failing_keeps Good "InsertChannel" _ m one (
      guarded_keeps Good (any (clashes lower c) (values m.channels)) _ _ (λ x. one)
        (λ x.
          insert-OneDefault m.channels c.id
            (record c {
              settings_public = or_object c.settings_public;
              created_at = m.now;
              updated_at = m.now;
            })
            one (λ j b l r. clashes_alone c b m.channels j x l r)))

  updated :
      (c : Channel) (m : Store) (o : Option Channel)
      → owned (λ (x : Channel). x.tenant_id) c.tenant_id c.id m.channels ≡ o
      → OneDefault m.channels
      → Good (update_found lower c m o).1
  updated c m none h one = one
  updated c m (some old) h one =
      guarded_keeps Good (any_entry (clashes_with lower c old.kind) m.channels) _ _ (λ x. one)
        (λ x. insert-OneDefault m.channels c.id (updated_channel lower m.now c old) one (λ j b l r.
          clashes_with_alone c old b m.now m.channels j
            (owned_inv (λ (x : Channel). x.tenant_id) c.tenant_id c.id m.channels h).1 x l r))

  pub update_channel-OneDefault :
      (c : Channel) (m : Store)
      → OneDefault m.channels
      → OneDefault (update_channel lower c m).1.channels
  unfolding update_channel
  update_channel-OneDefault c m one =
      failing_keeps Good "UpdateChannel" _ m one (updated c m _ refl one)

pub clear_default_channel-OneDefault :
    (tid typ except : String) (m : Store)
    → OneDefault m.channels
    → OneDefault (clear_default_channel tid typ except m).1.channels
unfolding clear_default_channel
clear_default_channel-OneDefault tid typ except m one =
    failing_keeps Good "ClearDefaultChannel" _ m one
      (Lowers-OneDefault m.channels _ (clear-Lowers tid typ except m.channels) one)

deleted :
    (id : String) (m : Store) (o : Option Channel)
    → OneDefault m.channels
    → Good (delete_found id m o).1
deleted id m none one = one
deleted id m (some c) one =
    guarded_keeps Good (ltb 0 (template_count id m.templates)) _ _ (λ x. one)
      (λ x. Lowers-OneDefault m.channels _ (erase-Lowers id m.channels) one)

pub delete_channel-OneDefault :
    (tid id : String) (m : Store)
    → OneDefault m.channels
    → OneDefault (delete_channel tid id m).1.channels
unfolding delete_channel
delete_channel-OneDefault tid id m one =
    failing_keeps Good "DeleteChannel" _ m one (deleted id m _ one)
