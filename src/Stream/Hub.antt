-- ===== src/Stream/Hub.antt =====
-- internal/stream/hub.go: the hub, its configuration, what it publishes, and its subscriptions. A
-- subscription is kept where the hub holds its pointer: with the open ones of its tenant, and among
-- `ended` once it is closed. The channel of a subscription is its queue. `h.mu` and `s.mu` make each
-- operation below one step; Subscribe's replay is a step of its own, and so is a round of the loop. A log line changes nothing.
pub mod Publish
pub mod Streams
pub mod Serve
pub mod Queue
pub mod Counts
pub mod Replay
pub mod Isolation
pub mod Invariant
use Prim.Native.String.{◌++◌ as append}
use go_tangra_notification.Prelude.{
  ℕ, zero, suc, ◌+◌, ◌-◌, ◌*◌, Bool, true, false, Option, none, some, List, [], ◌∷◌, ◌++◌, String,
  ◌&&◌, ◌||◌, not, if◌then◌else◌, ltb, leb, nat_eq, ◌==◌, length, Table, lookup, insert, erase,
  Exec, Result, ok, err, Err, injected, too_many, strp, map, any, split, ℤ, pos, negsuc,
}
use go_tangra_notification.Stream.Ids.{parse_id, less, id}
use go_tangra_notification.Stream.Memory.{Client, Entry}

-- Durations are nanoseconds, and 0 stands for those up to 0.
pub record HubConfig : Type 0 where
  pub replay_window : ℕ
  pub streams_per_user : ℕ
  pub streams_per_tenant : ℕ
  pub max_len : ℕ
  pub trim_interval : ℕ
  pub read_block : ℕ
  pub retry_delay : ℕ

abbrev pub hub_default : ℕ → ℕ → ℕ
hub_default zero d = d
hub_default (suc n) d = suc n

unfoldable pub with_defaults : HubConfig → HubConfig
with_defaults c = record {
  replay_window = hub_default c.replay_window 300000000000;
  streams_per_user = hub_default c.streams_per_user 5;
  streams_per_tenant = hub_default c.streams_per_tenant 2000;
  max_len = hub_default c.max_len 10000;
  trim_interval = hub_default c.trim_interval 60000000000;
  read_block = hub_default c.read_block 5000000000;
  retry_delay = hub_default c.retry_delay 1000000000;
}

pub record LiveEvent : Type 0 where
  pub id : String
  pub kind : String
  pub body : String

-- `taken` is what the subscription's reader has received so far.
pub record Subscription : Type 0 where
  pub user : String
  pub queue : List LiveEvent
  pub taken : List LiveEvent
  pub last : String
  pub closed : Bool

-- `cursor` is the `last` of the tenant's loop. A subscription is named by a number.
pub record TenantSub : Type 0 where
  pub conns : List (ℕ × Subscription)
  pub by_user : Table ℕ
  pub cursor : String

pub record Hub : Type 0 where
  pub cfg : HubConfig
  pub now : ℕ
  pub tenants : Table TenantSub
  pub ended : List (ℕ × Subscription)
  pub opened : ℕ
  pub stopped : Bool

unfoldable pub new_hub : HubConfig → ℕ → Hub
new_hub c now = record {
  cfg = with_defaults c;
  now = now;
  tenants = [];
  ended = [];
  opened = 0;
  stopped = false;
}

abbrev pub stream_key : String → String
stream_key tenant_id = append "notif:events:" tenant_id

abbrev pub conn_buffer : ℕ
conn_buffer = 32

-- The event goes to the buffered channel; the answer is false where the buffer is full.
abbrev pub send_buffered : LiveEvent → Subscription → Bool × Subscription
send_buffered ev s =
    if ltb (length s.queue) conn_buffer
    then (true, record s { queue = s.queue ++ ev ∷ [] })
    else (false, s)

unfoldable pub push : LiveEvent → Subscription → Bool × Subscription
push ev s =
    if s.closed || (not (ev.id == "") && not (s.last == "") && not (less s.last ev.id))
    then (true, s)
    else send_buffered ev (if ev.id == "" then s else record s { last = ev.id })

-- The recipients of an entry include the user.
unfoldable pub targets : String → String → Bool
targets to user = to == "*" || any (λ u. u == user) (split b',' to)

abbrev pub entry_field : String → Entry → String
entry_field name e = strp (lookup name e.fields)

abbrev pub event_of : Entry → LiveEvent
event_of e = record { id = e.id; kind = entry_field "type" e; body = entry_field "data" e }

abbrev pub reset_event : String → LiveEvent
reset_event body = record { id = ""; kind = "reset"; body = body }

-- The loop of replay. What push answers is not looked at.
unfoldable pub replay_entries : List Entry → Subscription → Subscription
replay_entries [] s = s
replay_entries (e ∷ es) s =
    replay_entries es (if targets (entry_field "to" e) s.user then (push (event_of e) s).1 else s)

-- `time.UnixMilli(ms).Before(now − window)`, for an id that was read.
unfoldable pub is_stale : ℕ → ℕ → String → Bool
is_stale now window last_id =
    let p = parse_id last_id in
    not p.good || elim p.ms [
      | pos ms ↦ ltb (ms * 1000000 + window) now
      | negsuc n ↦ ltb window (now + suc n * 1000000)
    ]
