-- ===== src/Stream/Memory.antt =====
-- internal/stream/client.go: the client of the stream server, and the in-process one. Fields are a
-- table. A count or a length is an int64 in the source, and 0 stands for the numbers up to 0. The
-- lock makes each call one step; a read that waits is two, with what the others do between them.
pub mod Log
use go_tangra_notification.Prelude.{
  ℕ, zero, suc, ◌+◌, ◌-◌, Bool, true, false, Option, none, some, List, [], ◌∷◌, ◌++◌, String, ◌&&◌,
  ◌||◌, not, if◌then◌else◌, ltb, nat_eq, ◌==◌, length, take, drop, select, Table, lookup, insert,
  Exec, Result, ok, err, Err, injected, ◌≡◌, ap,
}
use go_tangra_notification.Stream.Ids.{id, less}

pub record Entry : Type 0 where
  pub id : String
  pub fields : Table String

pub record Counter : Type 0 where
  pub n : ℕ
  pub exp : Option ℕ

-- `Err` is the outage that the tests inject; `now` is the clock.
pub record Memory : Type 0 where
  pub streams : Table (List Entry)
  pub counters : Table Counter
  pub seq : ℕ
  pub now : ℕ
  pub down : Option Err

abbrev pub new_memory : ℕ → Memory
new_memory now = record { streams = []; counters = []; seq = 0; now = now; down = none }

-- A missing key reads as the empty stream.
abbrev pub rows : Option (List Entry) → List Entry
rows none = []
rows (some es) = es

unfoldable pub stream_of : String → Memory → List Entry
stream_of key m = rows (lookup key m.streams)

-- A call that fails while the server is down.
abbrev pub if_up : {A : Type 0} → Option Err → Exec Memory A → Exec Memory A
if_up none f m = f m
if_up (some e) f m = (err e, m)

-- The newest `max_len` entries, where a length is given.
unfoldable pub trimmed : ℕ → List Entry → List Entry
trimmed max_len es =
    if ltb 0 max_len && ltb max_len (length es) then drop (length es - max_len) es else es

abbrev pub added_id : Memory → String
added_id m = id m.now (suc m.seq)

abbrev pub add_entry : String → Table String → ℕ → Exec Memory String
add_entry key fields max_len m = (
  ok (added_id m),
  record m {
    seq = suc m.seq;
    streams =
        insert key
          (trimmed max_len (stream_of key m ++ record { id = added_id m; fields = fields } ∷ []))
          m.streams;
  },
)

unfoldable pub xadd : String → Table String → ℕ → Exec Memory String
xadd key fields max_len m = if_up m.down (add_entry key fields max_len) m

pub xadd-add_entry :
    (key : String) (fields : Table String) (max_len : ℕ) (m : Memory)
    → m.down ≡ none
    → xadd key fields max_len m ≡ add_entry key fields max_len m
unfolding xadd
xadd-add_entry key fields max_len m d = ap (λ x. if_up x (add_entry key fields max_len) m) d

pub xadd_down :
    (key : String) (fields : Table String) (max_len : ℕ) (m : Memory) (e : Err)
    → m.down ≡ some e
    → xadd key fields max_len m ≡ (err e, m)
unfolding xadd
xadd_down key fields max_len m e d = ap (λ x. if_up x (add_entry key fields max_len) m) d

abbrev pub is_newer : String → Entry → Bool
is_newer after_id e = after_id == "" || less after_id e.id

unfoldable pub entries_newer : String → List Entry → List Entry
entries_newer after_id es = select (is_newer after_id) es

-- The loop of `after` stops once `count` entries are found, where `count` is not 0.
unfoldable pub entries_after : String → ℕ → List Entry → List Entry
entries_after after_id count es =
    if ltb 0 count then take count (entries_newer after_id es) else entries_newer after_id es

-- What ends the wait of a read, and what the others have done by then.
pub data Wake : Type 0 where
  cancelled timed_out : Wake
  notified : (Memory → Memory) → Wake

abbrev pub newest_id : List Entry → String
newest_id [] = ""
newest_id (e ∷ []) = e.id
newest_id (e ∷ x ∷ es) = newest_id (x ∷ es)

abbrev pub tail_or_start : String → String
tail_or_start last = if last == "" then "0-0" else last

-- `""` and `$` stand for the newest entry.
unfoldable pub read_from : String → List Entry → String
read_from after_id es =
    if after_id == "" || after_id == "$" then tail_or_start (newest_id es) else after_id

abbrev pub woken : String → String → ℕ → Wake → Exec Memory (List Entry)
woken key from count cancelled m = (err (injected "context canceled"), m)
woken key from count timed_out m = (ok [], m)
woken key from count (notified f) m =
    if_up (f m).down (λ m. (ok (entries_after from count (stream_of key m)), m)) (f m)

-- A read that finds nothing waits, where it may.
abbrev pub found_or_wait : Bool → String → String → ℕ → Wake → List Entry → Exec Memory (List Entry)
found_or_wait block key from count wake (e ∷ es) m = (ok (e ∷ es), m)
found_or_wait false key from count wake [] m = (ok [], m)
found_or_wait true key from count wake [] m = woken key from count wake m

unfoldable pub xread : Wake → Bool → String → String → ℕ → Exec Memory (List Entry)
unfolding entries_after entries_newer read_from
xread wake block key after_id count m =
    if_up m.down
      (λ m.
        let from = read_from after_id (stream_of key m) in
        found_or_wait block key from count wake (entries_after from count (stream_of key m)) m)
      m

unfoldable pub xrange : String → String → ℕ → Exec Memory (List Entry)
xrange key after_id count m =
    if_up m.down (λ m. (ok (entries_after after_id count (stream_of key m)), m)) m

unfoldable pub xlast : String → Exec Memory String
xlast key m = if_up m.down (λ m. (ok (newest_id (stream_of key m)), m)) m

unfoldable pub xtrim_min_id : String → String → Exec Memory (Unit {0})
xtrim_min_id key min_id m =
    if_up m.down
      (λ m. (
        ok tt,
        record m {
          streams = insert key (select (λ e. not (less e.id min_id)) (stream_of key m)) m.streams;
        },
      ))
      m

abbrev pub count_of : Option Counter → Counter
count_of none = record { n = 0; exp = none }
count_of (some c) = c

abbrev pub is_past : Option ℕ → ℕ → Bool
is_past none now = false
is_past (some t) now = not (ltb now t)

-- A counter that has not begun, or whose time has passed, begins again.
unfoldable pub restarted : ℕ → ℕ → Counter → Counter
restarted ttl now c =
    if nat_eq c.n 0 || is_past c.exp now
    then record { n = 0; exp = if ltb 0 ttl then some (now + ttl) else none }
    else c

unfoldable pub bumped : ℕ → ℕ → Counter → Counter
bumped ttl now c = let r = restarted ttl now c in record r { n = suc r.n }

unfoldable pub incr : String → ℕ → Exec Memory ℕ
incr key ttl m =
    if_up m.down
      (λ m.
        let c = bumped ttl m.now (count_of (lookup key m.counters)) in
        (ok c.n, record m { counters = insert key c m.counters }))
      m

unfoldable pub ping : Exec Memory (Unit {0})
ping m = if_up m.down (λ m. (ok tt, m)) m

unfoldable pub close_memory : Memory → Memory
close_memory m = record m { streams = []; counters = [] }

-- The calls that the hub and the limiter make, of any client.
pub record Client (S : Type 0) : Type 0 where
  pub add : String → Table String → ℕ → Exec S String
  pub read : Bool → String → String → ℕ → Exec S (List Entry)
  pub range : String → String → ℕ → Exec S (List Entry)
  pub trim : String → String → Exec S (Unit {0})
  pub last : String → Exec S String
  pub bump : String → ℕ → Exec S ℕ

-- The in-process client, with what happens while a read waits.
abbrev pub memory_client : Wake → Client Memory
memory_client wake = record {
  add = xadd;
  read = xread wake;
  range = xrange;
  trim = xtrim_min_id;
  last = xlast;
  bump = incr;
}
