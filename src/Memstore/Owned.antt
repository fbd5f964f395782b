-- ===== src/Memstore/Owned.antt =====
-- internal/memstore/memstore.go: the state, failure injection, roll-back, and the look-up of a row
-- of the caller's tenant.
use go_tangra_notification.Prelude.{
  ℕ, ◌≡◌, ◌⊎◌, inl, inr, false, Option, none, some, [], String, arith, if◌then◌else◌, ◌==◌, ==_self,
  lookup-insert, insert, ==_iff, Table, lookup, insert, Exec, Err, Result, ok, err, not_found,
  Result-cases, Option-cases, inl, inr, ◌⊎◌, Option-cases, ==_self, lookup-insert,
}
use go_tangra_notification.Store.{Channel, Template, LogRow, Grant, Category, Message, InboxRow}

pub record Store : Type 0 where
  pub channels : Table Channel
  pub templates : Table Template
  pub logs : Table LogRow
  pub grants : Table Grant
  pub categories : Table Category
  pub messages : Table Message
  pub inbox : Table InboxRow
  pub fail : Table Err
  pub now : ℕ

unfoldable pub empty : ℕ → Store
empty t = record {
  channels = [];
  templates = [];
  logs = [];
  grants = [];
  categories = [];
  messages = [];
  inbox = [];
  fail = [];
  now = t;
}

-- `if err := m.fail(op); err != nil { return err }`
unfoldable pub failing : {A : Type 0} → String → Exec Store A → Exec Store A
failing op body m = elim (lookup op m.fail) [ some e ↦ (err e, m) | none ↦ body m ]

-- The same for a method that only reads.
unfoldable pub failing_read : {A : Type 0} → String → (Store → Result A) → Store → Result A
failing_read op f m = elim (lookup op m.fail) [ some e ↦ err e | none ↦ f m ]

pub failing_read-ok :
    {A : Type 0} (op : String) (f : Store → Result A) (m : Store) {a : A}
    → failing_read op f m ≡ ok a
    → f m ≡ ok a
unfolding failing_read
failing_read-ok op f m h = ground arith

-- What `Atomic` leaves behind: the tables of the snapshot if the function failed.
unfoldable pub roll_back : {A : Type 0} → Store → Result A → Store → Store
roll_back before (ok a) m = m
roll_back before (err e) m = record before { fail = m.fail; now = m.now }

unfoldable pub atomic : {A : Type 0} → Exec Store A → Exec Store A
unfolding roll_back
atomic fn = failing "Atomic" λ m. ((fn m).0, roll_back m (fn m).0 (fn m).1)

-- A transaction leaves the store as it was, or as the function leaves it on success.
pub atomic-cases :
    {A : Type 0} (fn : Exec Store A) (m : Store)
    → (fn m).1.fail ≡ m.fail
    → (fn m).1.now ≡ m.now
    → (((e : Err) × ((atomic fn m).0 ≡ err e)) × ((atomic fn m).1 ≡ m))
      ⊎ ((a : A) × ((fn m).0 ≡ ok a) × ((atomic fn m).0 ≡ ok a) × ((atomic fn m).1 ≡ (fn m).1))
unfolding atomic failing
atomic-cases fn m f n = elim (Option-cases (lookup "Atomic" m.fail)) [
  | inr (e, x) ↦ inl ((e, ground (arith, x)), ground (arith, x))
  | inl x ↦ elim (Result-cases (fn m).0) [
    | inl (a, r) ↦ inr (a, r, ground (arith, x, r), ground (arith, x, r))
    | inr (e, r) ↦ inl ((e, ground (arith, x, r)), ground (arith, x, r))
  ]
]

-- `x, ok := table[id]; if !ok || x.TenantID != tid { return ErrNotFound }`
unfoldable pub owned : {A : Type 0} → (A → String) → String → String → Table A → Option A
owned tenant tid id t = elim (lookup id t) [
  | none ↦ none
  | some x ↦ if tenant x == tid then some x else none
]

abbrev pub found : {A : Type 0} → Option A → Result A
found none = err not_found
found (some a) = ok a

pub owned_inv :
    {A : Type 0} (tenant : A → String) (tid id : String) (t : Table A) {x : A}
    → owned tenant tid id t ≡ some x
    → (lookup id t ≡ some x) × (tenant x ≡ tid)
unfolding owned
owned_inv tenant tid id t {x} h = ground (arith, ==_iff (tenant x) tid)

-- A row of another tenant is as good as absent.
pub owned_foreign :
    {A : Type 0} (tenant : A → String) (tid id : String) (t : Table A) (x : A)
    → lookup id t ≡ some x
    → tenant x == tid ≡ false
    → owned tenant tid id t ≡ none
unfolding owned
owned_foreign tenant tid id t x h d = ground arith

pub owned-insert_self :
    {A : Type 0} (tenant : A → String) (tid id : String) (y : A) (t : Table A)
    → tenant y ≡ tid
    → owned tenant tid id (insert id y t) ≡ some y
unfolding owned
owned-insert_self tenant tid id y t e =
    rw (lookup-insert id id y t, ==_self id, e, ==_self tid, owned)
