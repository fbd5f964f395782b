-- ===== src/Stream/Hub/Invariant.antt =====
-- internal/stream/hub.go: what every step of the hub keeps.
pub mod Steps
use go_tangra_notification.Prelude.{
  ℕ, suc, ◌-◌, ◌<◌, Bool, true, false, List, [], ◌∷◌, String, if◌then◌else◌, ltb, leb, ◌==◌, ==_iff,
  length, all, Option, none, some, ◌≡◌, refl, arith, Bool-cases, Option-cases, inl, inr, subst, sym,
  Table, lookup, insert, erase, lookup-insert, lookup-erase,
}
use go_tangra_notification.Stream.Memory.{Entry}
use go_tangra_notification.Stream.Hub.{Hub, HubConfig, TenantSub, Subscription, LiveEvent, push}
use go_tangra_notification.Stream.Hub.Queue.{
  is_sound, push-is_sound, user-push, take_first-is_sound, closed-is_sound, user-take_first,
}
use go_tangra_notification.Stream.Hub.Counts.{
  IsCounted, sound_conn, set_conn-IsCounted, without_conn-IsCounted, cursor-IsCounted,
  length-set_conn, found-is_sound,
}
use go_tangra_notification.Stream.Hub.Streams.{
  Conns, find_conn, set_conn, find_in, find_stream, store_found, store_stream, close_found,
  close_in, close_stream, without_conn, keep_or_drop, pushed_found, push_to, push_all, dispatch,
  moved_found, move_cursor, dispatch_all, take_first, taken_found, take_event, close_conns,
  close_tenants,
}

-- A tenant that is registered has a stream, and its numbers, limits and queues are right.
pub record IsServed (cfg : HubConfig) (t : TenantSub) : Type 0 where
  pub counted : IsCounted cfg t
  pub occupied : 0 < length t.conns

abbrev pub AllServed : HubConfig → Table TenantSub → Type 0
AllServed cfg ts = (tid : String) (t : TenantSub) → lookup tid ts ≡ some t → IsServed cfg t

-- The hub has the configuration `cfg`, serves its tenants within it, and what it closed keeps sound
-- queues.
pub record IsKept (cfg : HubConfig) (h : Hub) : Type 0 where
  pub same : h.cfg ≡ cfg
  pub served : AllServed cfg h.tenants
  pub drained : all sound_conn h.ended ≡ true

pub insert-AllServed :
    (cfg : HubConfig) (ts : Table TenantSub) (tid : String) (x : TenantSub)
    → AllServed cfg ts
    → IsServed cfg x
    → AllServed cfg (insert tid x ts)
insert-AllServed cfg ts tid x a v other t h =
    let i = lookup-insert tid other x ts in
    elim (Bool-cases (tid == other)) [
      | inl e ↦ let same : x ≡ t = ground (arith, rw (i, e) at h) in subst (IsServed cfg) same v
      | inr e ↦ a other t (ground (arith, rw (i, e) at h))
    ]

erase-AllServed :
    (cfg : HubConfig) (ts : Table TenantSub) (tid : String)
    → AllServed cfg ts
    → AllServed cfg (erase tid ts)
erase-AllServed cfg ts tid a other t h =
    let i = lookup-erase tid other ts in
    elim (Bool-cases (tid == other)) [
      | inl e ↦ absurd (ground (arith, rw (i, e) at h))
      | inr e ↦ a other t (ground (arith, rw (i, e) at h))
    ]

pub found_sound :
    {cfg : HubConfig} (tid : String) (n : ℕ) (s : Subscription) (h : Hub)
    → IsKept cfg h
    → find_stream tid n h ≡ some s
    → is_sound s ≡ true
unfolding find_stream
found_sound tid n s h k f = elim (Option-cases (lookup tid h.tenants)) [
  | inl e ↦ absurd (ground (arith, f, e))
  | inr (t, e) ↦ found-is_sound n s t.conns (ground (arith, f, e)) (k.served tid t e).counted.queues
]

-- A stream's state is replaced.
pub store_stream-IsKept :
    {cfg : HubConfig} (tid : String) (n : ℕ) (x s : Subscription) (h : Hub)
    → IsKept cfg h
    → find_stream tid n h ≡ some s
    → is_sound x ≡ true
    → x.user ≡ s.user
    → IsKept cfg (store_stream tid n x h)
unfolding store_stream find_stream
store_stream-IsKept {cfg} tid n x s h k f g u = elim (Option-cases (lookup tid h.tenants)) [
  | inl e ↦ absurd (ground (arith, f, e))
  | inr (t, e) ↦
      let v = k.served tid t e in
      let f2 : find_conn n t.conns ≡ some s = ground (arith, f, e) in
      rw e (record {
        served =
            insert-AllServed cfg h.tenants tid (record t { conns = set_conn n x t.conns }) k.served
              (record {
                counted = set_conn-IsCounted cfg n x s t v.counted f2 g u;
                occupied = rw (length-set_conn n x s t.conns) v.occupied;
              });
        same = k.same;
        drained = k.drained;
      })
]

keep_or_drop-AllServed :
    (cfg : HubConfig) (ts : Table TenantSub) (tid : String) (x : TenantSub) (cs : Conns)
    → x.conns ≡ cs
    → AllServed cfg ts
    → IsCounted cfg x
    → AllServed cfg (keep_or_drop cs tid x ts)
keep_or_drop-AllServed cfg ts tid x [] e a v = erase-AllServed cfg ts tid a
keep_or_drop-AllServed cfg ts tid x (c ∷ cs) e a v =
    insert-AllServed cfg ts tid x a (record { counted = v; occupied = rw e (omega arith) })

-- Closing a stream. A tenant without streams is forgotten.
pub close_stream-IsKept :
    {cfg : HubConfig} (tid : String) (n : ℕ) (h : Hub)
    → IsKept cfg h
    → IsKept cfg (close_stream tid n h)
unfolding close_stream
close_stream-IsKept {cfg} tid n h k = elim (Option-cases (lookup tid h.tenants)) [
  | inl e ↦ rw e k
  | inr (t, e) ↦ elim (Option-cases (find_conn n t.conns)) [
    | inl f ↦ rw (e, f) k
    | inr (s, f) ↦
        let v = (k.served tid t e).counted in
        let w = without_conn n s.user t in
        rw (e, f)
          (record {
            served =
                keep_or_drop-AllServed cfg h.tenants tid w w.conns refl k.served
                  (without_conn-IsCounted cfg n s t v f);
            same = k.same;
            drained =
                ground (arith, k.drained, closed-is_sound s, found-is_sound n s t.conns f v.queues);
          })
  ]
]

-- Pushing an event to a stream, and closing it if it has stalled.
push_to-IsKept :
    {cfg : HubConfig} (tid : String) (ev : LiveEvent) (n : ℕ) (h : Hub)
    → IsKept cfg h
    → IsKept cfg (push_to tid ev n h)
unfolding push_to
push_to-IsKept tid ev n h k = elim (Option-cases (find_stream tid n h)) [
  | inl e ↦ rw e k
  | inr (s, e) ↦
      let v = found_sound tid n s h k e in
      let g = push-is_sound ev s v in
      let stored = store_stream-IsKept tid n (push ev s).1 s h k e g (user-push ev s) in
      elim (Bool-cases (push ev s).0) [
        | inl b ↦ rw (e, b) stored
        | inr b ↦ rw (e, b) (close_stream-IsKept tid n (store_stream tid n (push ev s).1 h) stored)
      ]
]

push_all-IsKept :
    {cfg : HubConfig} (tid : String) (ev : LiveEvent) (ns : List ℕ) (h : Hub)
    → IsKept cfg h
    → IsKept cfg (push_all tid ev ns h)
unfolding push_all
push_all-IsKept tid ev [] h k = k
push_all-IsKept tid ev (n ∷ ns) h k =
    push_all-IsKept tid ev ns (push_to tid ev n h) (push_to-IsKept tid ev n h k)

move_cursor-IsKept :
    {cfg : HubConfig} (tid id : String) (h : Hub) → IsKept cfg h → IsKept cfg (move_cursor tid id h)
unfolding move_cursor
move_cursor-IsKept {cfg} tid id h k = elim (Option-cases (lookup tid h.tenants)) [
  | inl e ↦ rw e k
  | inr (t, e) ↦
      let v = k.served tid t e in
      rw e (record {
        served =
            insert-AllServed cfg h.tenants tid (record t { cursor = id }) k.served
              (record { counted = cursor-IsCounted cfg id t v.counted; occupied = v.occupied });
        same = k.same;
        drained = k.drained;
      })
]

pub dispatch_all-IsKept :
    {cfg : HubConfig} (tid : String) (es : List Entry) (h : Hub)
    → IsKept cfg h
    → IsKept cfg (dispatch_all tid es h)
unfolding dispatch_all dispatch
dispatch_all-IsKept tid [] h k = k
dispatch_all-IsKept tid (e ∷ es) h k =
    dispatch_all-IsKept tid es (dispatch tid e (move_cursor tid e.id h))
      (push_all-IsKept tid _ _ (move_cursor tid e.id h) (move_cursor-IsKept tid e.id h k))

pub take_event-IsKept :
    {cfg : HubConfig} (tid : String) (n : ℕ) (h : Hub)
    → IsKept cfg h
    → IsKept cfg (take_event tid n h)
unfolding take_event
take_event-IsKept tid n h k = elim (Option-cases (find_stream tid n h)) [
  | inl e ↦ rw e k
  | inr (s, e) ↦
      let v = found_sound tid n s h k e in
      rw e (
        store_stream-IsKept tid n (take_first s s.queue) s h k e
          (take_first-is_sound s s.queue refl v) (user-take_first s s.queue))
]

close_conns-IsKept :
    {cfg : HubConfig} (tid : String) (cs : Conns) (h : Hub)
    → IsKept cfg h
    → IsKept cfg (close_conns tid cs h)
unfolding close_conns
close_conns-IsKept tid [] h k = k
close_conns-IsKept tid ((n, s) ∷ cs) h k =
    close_conns-IsKept tid cs (close_stream tid n h) (close_stream-IsKept tid n h k)

pub close_tenants-IsKept :
    {cfg : HubConfig} (ts : Table TenantSub) (h : Hub)
    → IsKept cfg h
    → IsKept cfg (close_tenants ts h)
unfolding close_tenants
close_tenants-IsKept [] h k = k
close_tenants-IsKept ((tid, t) ∷ ts) h k =
    close_tenants-IsKept ts (close_conns tid t.conns h) (close_conns-IsKept tid t.conns h k)
