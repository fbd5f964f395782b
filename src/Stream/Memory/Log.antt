-- ===== src/Stream/Memory/Log.antt =====
-- internal/stream/client.go: a stream of the in-process server against the plain log of all entries
-- that were ever added to it.
pub mod Order
pub mod Kept
pub mod Requests
pub mod Follow
use go_tangra_notification.Prelude.{
  ℕ, zero, suc, ◌+◌, ◌-◌, ◌/◌, ◌≤◌, Bool, true, false, List, [], ◌∷◌, ◌++◌, String, ◌&&◌, not,
  if◌then◌else◌, ltb, nat_eq, ◌==◌, length, drop, all, select, Option, none, some, Table, Err, ◌≡◌,
  refl, arith, Bool-cases, inl, inr, ap, sym, ◌∙◌,
}
use go_tangra_notification.Stream.Ids.{less, less_trans}
use go_tangra_notification.Stream.Memory.{Memory, Entry, xadd, xtrim_min_id, added_id, trimmed}

-- What is asked of the server: an entry for a stream of at most so many, or to drop the entries
-- before an id.
pub data LogRequest : Type 0 where
  append_entry : Table String → ℕ → LogRequest
  drop_before : String → LogRequest

-- A request with the clock and the outage that the server has then.
pub record LogCall : Type 0 where
  pub key : String
  pub at : ℕ
  pub down : Option Err
  pub request : LogRequest

abbrev pub clocked : LogCall → Memory → Memory
clocked c m = record m { now = c.at; down = c.down }

abbrev pub request_step : String → LogRequest → Memory → Memory
request_step key (append_entry fields max_len) m = (xadd key fields max_len m).1
request_step key (drop_before min_id) m = (xtrim_min_id key min_id m).1

abbrev pub call_step : LogCall → Memory → Memory
call_step c m = request_step c.key c.request (clocked c m)

unfoldable pub run_log : List LogCall → Memory → Memory
run_log [] m = m
run_log (c ∷ cs) m = run_log cs (call_step c m)

-- The log: the entries added to the stream while the server was up, none of them ever dropped.
abbrev pub logged : String → String → LogRequest → Option Err → String → List Entry → List Entry
logged key k (append_entry fields max_len) none i log =
    if k == key then log ++ record { id = i; fields = fields } ∷ [] else log
logged key k (append_entry fields max_len) (some e) i log = log
logged key k (drop_before min_id) down i log = log

unfoldable pub log_after : String → List LogCall → Memory → List Entry → List Entry
log_after key [] m log = log
log_after key (c ∷ cs) m log =
    log_after key cs (call_step c m)
      (logged key c.key c.request c.down (added_id (clocked c m)) log)

-- The ids of the entries rise strictly.
unfoldable pub rises : List Entry → Bool
rises [] = true
rises (e ∷ es) = all (λ x. less e.id x.id) es && rises es

-- Trimming to a length or by an id drops a beginning.
drop-nil : (n : ℕ) → ◌≡◌ {A = List Entry} (drop n []) []
drop-nil zero = refl
drop-nil (suc n) = refl

pub drop-drop : (j k : ℕ) (es : List Entry) → drop j (drop k es) ≡ drop (k + j) es
drop-drop j zero es = let e : j ≡ 0 + j = omega arith in ap (λ n. drop n es) e
drop-drop zero (suc k) [] = ground arith
drop-drop (suc j) (suc k) [] = sym (drop-nil (suc k + suc j))
drop-drop j (suc k) (x ∷ es) =
    let e : suc (k + j) ≡ suc k + j = omega arith in drop-drop j k es ∙ ap (λ n. drop n (x ∷ es)) e

pub trimmed-drop :
    (max_len : ℕ) (es : List Entry) → (j : ℕ) × (j ≤ length es) × (trimmed max_len es ≡ drop j es)
unfolding trimmed
trimmed-drop max_len es = elim (Bool-cases (ltb 0 max_len && ltb max_len (length es))) [
  | inl y ↦ (length es - max_len, omega arith, rw y refl)
  | inr y ↦ (0, omega arith, rw y refl)
]

abbrev pub is_from : String → Entry → Bool
is_from min_id e = not (less e.id min_id)

keep_all :
    (min_id : String) (x : Entry) (es : List Entry)
    → less x.id min_id ≡ false
    → all (λ y. less x.id y.id) es ≡ true
    → select (is_from min_id) es ≡ es
keep_all min_id x [] n h = refl
keep_all min_id x (y ∷ es) n h =
    ground (arith, n, h, less_trans x.id y.id min_id, keep_all min_id x es)

pub select-drop :
    (min_id : String) (es : List Entry)
    → rises es ≡ true
    → (j : ℕ) × (j ≤ length es) × (select (is_from min_id) es ≡ drop j es)
unfolding rises
select-drop min_id [] h = (0, omega arith, refl)
select-drop min_id (x ∷ es) h = elim (Bool-cases (less x.id min_id)) [
  | inl l ↦
      let r = select-drop min_id es (ground (arith, h)) in
      (suc r.0, let b = r.1 in omega (arith, b), rw l r.2)
  | inr l ↦ (0, omega arith, rw l (ap (λ t. x ∷ t) (keep_all min_id x es l (ground (arith, h)))))
]

pub rises-drop : (k : ℕ) (es : List Entry) → rises es ≡ true → rises (drop k es) ≡ true
unfolding rises
rises-drop zero es h = h
rises-drop (suc k) [] h = refl
rises-drop (suc k) (x ∷ es) h = rises-drop k es (ground (arith, h))
