-- ===== src/Stream/Hub/Streams.antt =====
-- internal/stream/hub.go: opening, feeding and closing the streams of a tenant.
use go_tangra_notification.Prelude.{
  ℕ, suc, ◌+◌, ◌-◌, Bool, true, false, Option, none, some, List, [], ◌∷◌, ◌++◌, String, ◌||◌,
  if◌then◌else◌, leb, nat_eq, length, Table, lookup, insert, erase, Exec, ok, err, too_many,
}
use go_tangra_notification.Stream.Ids.{id}
use go_tangra_notification.Stream.Memory.{Entry, tail_or_start}
use go_tangra_notification.Stream.Hub.{
  Hub, HubConfig, TenantSub, Subscription, LiveEvent, push, targets, entry_field, event_of,
}

abbrev pub Conns : Type 0
Conns = List (ℕ × Subscription)

unfoldable pub find_conn : ℕ → Conns → Option Subscription
find_conn n [] = none
find_conn n ((k, s) ∷ cs) = if nat_eq k n then some s else find_conn n cs

unfoldable pub set_conn : ℕ → Subscription → Conns → Conns
set_conn n x [] = []
set_conn n x ((k, s) ∷ cs) = if nat_eq k n then (k, x) ∷ cs else (k, s) ∷ set_conn n x cs

unfoldable pub drop_conn : ℕ → Conns → Conns
drop_conn n [] = []
drop_conn n ((k, s) ∷ cs) = if nat_eq k n then cs else (k, s) ∷ drop_conn n cs

-- A missing user counts 0.
abbrev pub number : Option ℕ → ℕ
number none = 0
number (some n) = n

abbrev pub streams_of : String → TenantSub → ℕ
streams_of user t = number (lookup user t.by_user)

abbrev pub fresh_stream : String → Subscription
fresh_stream user = record { user = user; queue = []; taken = []; last = ""; closed = false }

abbrev pub is_full : HubConfig → String → TenantSub → Bool
is_full cfg user t =
    leb cfg.streams_per_user (streams_of user t) || leb cfg.streams_per_tenant (length t.conns)

abbrev pub with_conn : ℕ → String → TenantSub → TenantSub
with_conn n user t = record t {
  conns = (n, fresh_stream user) ∷ t.conns;
  by_user = insert user (suc (streams_of user t)) t.by_user;
}

-- The tenant is registered even where the stream is then refused.
unfoldable pub admit : String → String → TenantSub → Exec Hub ℕ
admit tid user t h =
    if is_full h.cfg user t
    then (err too_many, record h { tenants = insert tid t h.tenants })
    else (
      ok h.opened,
      record h {
        tenants = insert tid (with_conn h.opened user t) h.tenants;
        opened = suc h.opened;
      },
    )

abbrev pub fresh_tenant : String → TenantSub
fresh_tenant start = record { conns = []; by_user = []; cursor = tail_or_start start }

-- One user's count, less one; a count that reaches 0 is deleted.
unfoldable pub less_one : String → Table ℕ → Table ℕ
less_one user t =
    if leb (number (lookup user t) - 1) 0
    then erase user t
    else insert user (number (lookup user t) - 1) t

abbrev pub without_conn : ℕ → String → TenantSub → TenantSub
without_conn n user t = record t { conns = drop_conn n t.conns; by_user = less_one user t.by_user }

-- A tenant that has no stream left is dropped.
abbrev pub keep_or_drop : Conns → String → TenantSub → Table TenantSub → Table TenantSub
keep_or_drop [] tid t tenants = erase tid tenants
keep_or_drop (c ∷ cs) tid t tenants = insert tid t tenants

abbrev pub close_found : String → ℕ → TenantSub → Hub → Option Subscription → Hub
close_found tid n t h none = h
close_found tid n t h (some s) = record h {
  tenants = keep_or_drop (drop_conn n t.conns) tid (without_conn n s.user t) h.tenants;
  ended = (n, record s { closed = true }) ∷ h.ended;
}

abbrev pub close_in : String → ℕ → Hub → Option TenantSub → Hub
close_in tid n h none = h
close_in tid n h (some t) = close_found tid n t h (find_conn n t.conns)

-- `s.Close()`. A stream that is closed already stays so.
unfoldable pub close_stream : String → ℕ → Hub → Hub
close_stream tid n h = close_in tid n h (lookup tid h.tenants)

-- The state of one open stream is replaced.
abbrev pub store_found : String → ℕ → Subscription → Hub → Option TenantSub → Hub
store_found tid n s h none = h
store_found tid n s h (some t) = record h {
  tenants = insert tid (record t { conns = set_conn n s t.conns }) h.tenants;
}

unfoldable pub store_stream : String → ℕ → Subscription → Hub → Hub
store_stream tid n s h = store_found tid n s h (lookup tid h.tenants)

abbrev pub find_in : ℕ → Option TenantSub → Option Subscription
find_in n none = none
find_in n (some t) = find_conn n t.conns

unfoldable pub find_stream : String → ℕ → Hub → Option Subscription
find_stream tid n h = find_in n (lookup tid h.tenants)

-- A stalled reader is closed. Its buffer holds what was sent before, and its `last` has moved on.
abbrev pub pushed_found : String → ℕ → LiveEvent → Hub → Option Subscription → Hub
pushed_found tid n ev h none = h
pushed_found tid n ev h (some s) =
    let r = push ev s in
    let stored = store_stream tid n r.1 h in if r.0 then stored else close_stream tid n stored

unfoldable pub push_to : String → LiveEvent → ℕ → Hub → Hub
push_to tid ev n h = pushed_found tid n ev h (find_stream tid n h)

unfoldable pub push_all : String → LiveEvent → List ℕ → Hub → Hub
push_all tid ev [] h = h
push_all tid ev (n ∷ ns) h = push_all tid ev ns (push_to tid ev n h)

unfoldable pub addressed : String → Conns → List ℕ
addressed to [] = []
addressed to ((n, s) ∷ cs) =
    let rest = addressed to cs in if targets to s.user then n ∷ rest else rest

abbrev pub conns_of : Option TenantSub → Conns
conns_of none = []
conns_of (some t) = t.conns

unfoldable pub dispatch : String → Entry → Hub → Hub
dispatch tid e h =
    push_all tid (event_of e) (addressed (entry_field "to" e) (conns_of (lookup tid h.tenants))) h

-- `last = e.ID` in the tenant's loop.
abbrev pub moved_found : String → String → Hub → Option TenantSub → Hub
moved_found tid id h none = h
moved_found tid id h (some t) = record h {
  tenants = insert tid (record t { cursor = id }) h.tenants;
}

unfoldable pub move_cursor : String → String → Hub → Hub
move_cursor tid id h = moved_found tid id h (lookup tid h.tenants)

unfoldable pub dispatch_all : String → List Entry → Hub → Hub
dispatch_all tid [] h = h
dispatch_all tid (e ∷ es) h = dispatch_all tid es (dispatch tid e (move_cursor tid e.id h))

-- The reader of the channel receives its first event.
abbrev pub take_first : Subscription → List LiveEvent → Subscription
take_first s [] = s
take_first s (ev ∷ q) = record s { queue = q; taken = s.taken ++ ev ∷ [] }

abbrev pub taken_found : String → ℕ → Hub → Option Subscription → Hub
taken_found tid n h none = h
taken_found tid n h (some s) = store_stream tid n (take_first s s.queue) h

unfoldable pub take_event : String → ℕ → Hub → Hub
take_event tid n h = taken_found tid n h (find_stream tid n h)

-- `OpenStreams`.
unfoldable pub open_streams : Table TenantSub → ℕ
open_streams [] = 0
open_streams ((tid, t) ∷ ts) = length t.conns + open_streams ts

unfoldable pub close_conns : String → Conns → Hub → Hub
close_conns tid [] h = h
close_conns tid ((n, s) ∷ cs) h = close_conns tid cs (close_stream tid n h)

unfoldable pub close_tenants : Table TenantSub → Hub → Hub
close_tenants [] h = h
close_tenants ((tid, t) ∷ ts) h = close_tenants ts (close_conns tid t.conns h)

-- `h.Close()`.
unfoldable pub close_hub : Hub → Hub
close_hub h = close_tenants h.tenants (record h { stopped = true })
