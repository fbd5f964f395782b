-- ===== src/Stream/Hub/Invariant/Steps.antt =====
-- internal/stream/hub.go: the limits and the queues after any sequence of steps.
use go_tangra_notification.Prelude.{
  ℕ, zero, suc, ◌<◌, ◌≤◌, Bool, true, false, List, [], ◌∷◌, String, length, count, Option, none,
  some, ◌≡◌, refl, arith, Bool-cases, Option-cases, inl, inr, lookup, Result, ok, err, subst, sym,
  ◌⊎◌, continue,
}
use go_tangra_notification.Stream.Memory.{Client, Entry}
use go_tangra_notification.Stream.Hub.{
  Hub, HubConfig, TenantSub, Subscription, is_stale, stream_key, new_hub, with_defaults,
  hub_default,
}
use go_tangra_notification.Stream.Hub.Queue.{
  is_sound, received, ids_of, rising, push-is_sound, user-push, replay_entries-is_sound,
  is_sound-parts,
}
use go_tangra_notification.Stream.Hub.Counts.{
  IsCounted, of_user, with_conn-IsCounted, fresh-IsCounted,
}
use go_tangra_notification.Stream.Hub.Streams.{
  admit, fresh_tenant, is_full, with_conn, streams_of, find_stream, close_hub,
}
use go_tangra_notification.Stream.Hub.Serve.{
  Live, StreamStep, open_stream, open_in, open_if, on_hub, replay, open_step, replay_step,
  loop_step, take_step, close_step, clock_step, close_hub_step, elsewhere, replayed, loop_round,
  loop_found, loop_read, trimmed_to, stream_step, run_stream,
}
use go_tangra_notification.Stream.Hub.Invariant.{
  IsKept, insert-AllServed, store_stream-IsKept, found_sound, dispatch_all-IsKept,
  take_event-IsKept, close_stream-IsKept, close_tenants-IsKept,
}

-- A new tenant has room for its first stream.
admit-IsKept :
    {cfg : HubConfig} (tid user : String) (t : TenantSub) (h : Hub)
    → IsKept cfg h
    → IsCounted cfg t
    → (0 < length t.conns) ⊎ (is_full cfg user t ≡ false)
    → IsKept cfg (admit tid user t h).1
unfolding admit
admit-IsKept {cfg} tid user t h k v room = elim (Bool-cases (is_full h.cfg user t)) [
  | inl f ↦
      let g : is_full cfg user t ≡ true = rw (sym k.same) f in
      let o : 0 < length t.conns = ground (arith, room, g) in
      rw f (record {
        same = k.same;
        served =
            insert-AllServed cfg h.tenants tid t k.served (record { counted = v; occupied = o });
        drained = k.drained;
      })
  | inr f ↦
      let g : is_full cfg user t ≡ false = rw (sym k.same) f in
      rw f (record {
        same = k.same;
        served = insert-AllServed cfg h.tenants tid (with_conn h.opened user t) k.served (record {
          counted = with_conn-IsCounted cfg h.opened user t v g;
          occupied = omega arith;
        });
        drained = k.drained;
      })
]

first_has_room :
    (cfg : HubConfig) (start user : String)
    → 0 < cfg.streams_per_user
    → 0 < cfg.streams_per_tenant
    → is_full cfg user (fresh_tenant start) ≡ false
unfolding lookup
first_has_room cfg start user u v = ground (arith, u, v)

module _ {S : Type 0} (c : Client S) where
  replayed_lem :
      (r : Result (List Entry)) (s : Subscription)
      → is_sound s ≡ true
      → (is_sound (replayed c r s) ≡ true) × ((replayed c r s).user ≡ s.user)
  replayed_lem (err e) s h = (push-is_sound _ s h, user-push _ s)
  replayed_lem (ok es) s h = replay_entries-is_sound es s h

  hub-trimmed_to : (b : Bool) (tid : String) (l : Live S) → (trimmed_to c b tid l).hub ≡ l.hub
  hub-trimmed_to false tid l = refl
  hub-trimmed_to true tid l = refl

module _ {S : Type 0} (c : Client S) {cfg : HubConfig} where
  -- A tenant's first stream always has room.
  first-IsKept :
      (tid user : String) (r : Result String) (l : Live S)
      → 0 < cfg.streams_per_user
      → 0 < cfg.streams_per_tenant
      → IsKept cfg l.hub
      → IsKept cfg (continue r (λ start. on_hub (admit tid user (fresh_tenant start))) l).1.hub
  first-IsKept tid user (err e) l u v k = k
  first-IsKept tid user (ok start) l u v k =
      admit-IsKept tid user (fresh_tenant start) l.hub k
        (fresh-IsCounted cfg (fresh_tenant start).cursor) (inr (first_has_room cfg start user u v))

  open_in-IsKept :
      (tid user : String) (o : Option TenantSub) (l : Live S)
      → lookup tid l.hub.tenants ≡ o
      → 0 < cfg.streams_per_user
      → 0 < cfg.streams_per_tenant
      → IsKept cfg l.hub
      → IsKept cfg (open_in c tid user o l).1.hub
  open_in-IsKept tid user none l e u v k = first-IsKept tid user _ _ u v k
  open_in-IsKept tid user (some t) l e u v k =
      admit-IsKept tid user t l.hub k (k.served tid t e).counted (inl (k.served tid t e).occupied)

  open_if-IsKept :
      (tid user : String) (b : Bool) (l : Live S)
      → 0 < cfg.streams_per_user
      → 0 < cfg.streams_per_tenant
      → IsKept cfg l.hub
      → IsKept cfg (open_if c b tid user l).1.hub
  open_if-IsKept tid user true l u v k = k
  open_if-IsKept tid user false l u v k = open_in-IsKept tid user _ l refl u v k

  replay-IsKept :
      (tid : String) (n : ℕ) (last_id : String) (l : Live S)
      → IsKept cfg l.hub
      → IsKept cfg (replay c tid n last_id l).hub
  unfolding replay
  replay-IsKept tid n last_id l k = elim (Option-cases (find_stream tid n l.hub)) [
    | inl e ↦ rw e k
    | inr (s, e) ↦
        let g = found_sound tid n s l.hub k e in
        let r =
          replayed_lem c (c.range (stream_key tid) last_id l.hub.cfg.max_len l.server).0 s g in
        elim (Bool-cases (is_stale l.hub.now l.hub.cfg.replay_window last_id)) [
          | inl b ↦
              rw (e, b)
                (store_stream-IsKept tid n _ s l.hub k e (push-is_sound _ s g) (user-push _ s))
          | inr b ↦ rw (e, b) (store_stream-IsKept tid n _ s l.hub k e r.0 r.1)
        ]
  ]

  loop_read-IsKept :
      (tid : String) (r : Result (List Entry)) (h : Hub)
      → IsKept cfg h
      → IsKept cfg (loop_read c tid r h)
  loop_read-IsKept tid (err e) h k = k
  loop_read-IsKept tid (ok es) h k = dispatch_all-IsKept tid es h k

  loop_found-IsKept :
      (tid : String) (l : Live S) (o : Option TenantSub)
      → IsKept cfg l.hub
      → IsKept cfg (loop_found c tid l o).hub
  loop_found-IsKept tid l none k = k
  loop_found-IsKept tid l (some t) k = loop_read-IsKept tid _ l.hub k

  stream_step-IsKept :
      (x : StreamStep S) (l : Live S)
      → 0 < cfg.streams_per_user
      → 0 < cfg.streams_per_tenant
      → IsKept cfg l.hub
      → IsKept cfg (stream_step c x l).hub
  unfolding stream_step open_stream loop_round close_hub
  stream_step-IsKept (open_step tid user) l u v k = open_if-IsKept tid user l.hub.stopped l u v k
  stream_step-IsKept (replay_step tid n last_id) l u v k = replay-IsKept tid n last_id l k
  stream_step-IsKept (loop_step b tid) l u v k =
      loop_found-IsKept tid (trimmed_to c b tid l) _
        (subst (IsKept cfg) (sym (hub-trimmed_to c b tid l)) k)
  stream_step-IsKept (take_step tid n) l u v k = take_event-IsKept tid n l.hub k
  stream_step-IsKept (close_step tid n) l u v k = close_stream-IsKept tid n l.hub k
  stream_step-IsKept (clock_step now) l u v k = record {
    same = k.same;
    served = k.served;
    drained = k.drained;
  }
  stream_step-IsKept close_hub_step l u v k =
      close_tenants-IsKept l.hub.tenants (record l.hub { stopped = true })
        (record { same = k.same; served = k.served; drained = k.drained })
  stream_step-IsKept (elsewhere f) l u v k = k

  run_stream-IsKept :
      (xs : List (StreamStep S)) (l : Live S)
      → 0 < cfg.streams_per_user
      → 0 < cfg.streams_per_tenant
      → IsKept cfg l.hub
      → IsKept cfg (run_stream c xs l).hub
  unfolding run_stream
  run_stream-IsKept [] l u v k = k
  run_stream-IsKept (x ∷ xs) l u v k =
      run_stream-IsKept xs (stream_step c x l) u v (stream_step-IsKept x l u v k)

hub_default_positive : (n d : ℕ) → 0 < d → 0 < hub_default n d
hub_default_positive zero d h = h
hub_default_positive (suc n) d h = omega arith

new_hub-IsKept : (cfg : HubConfig) (now : ℕ) → IsKept (with_defaults cfg) (new_hub cfg now)
unfolding new_hub lookup
new_hub-IsKept cfg now = record { same = refl; served = λ tid t h. absurd cc; drained = refl }

module _ {S : Type 0} (c : Client S) (cfg : HubConfig) (now : ℕ) (server : S)
    (xs : List (StreamStep S)) where
  abbrev pub after_steps : Hub
  after_steps = (run_stream c xs (record { hub = new_hub cfg now; server = server })).hub

  reached : IsKept (with_defaults cfg) after_steps
  unfolding with_defaults
  reached =
      run_stream-IsKept c xs (record { hub = new_hub cfg now; server = server })
        (hub_default_positive cfg.streams_per_user 5 (omega arith))
        (hub_default_positive cfg.streams_per_tenant 2000 (omega arith)) (new_hub-IsKept cfg now)

  -- After any sequence of steps of callers, loops and readers, whatever the server answers: a tenant
  -- that is registered has at least one open stream and no more than the tenant's limit, and the
  -- number kept for each user is that of the user's open streams and within the user's limit.
  pub after_steps-IsServed :
      (tid : String) (t : TenantSub)
      → lookup tid after_steps.tenants ≡ some t
      → (0 < length t.conns)
        × (length t.conns ≤ (with_defaults cfg).streams_per_tenant)
        × ((user : String)
            → (streams_of user t ≡ count (of_user user) t.conns)
              × (streams_of user t ≤ (with_defaults cfg).streams_per_user))
  after_steps-IsServed tid t e =
      let v = reached.served tid t e in
      (
        v.occupied,
        v.counted.tenant_bound,
        λ user. (v.counted.counts user, v.counted.user_bound user),
      )

  -- After any sequence of steps, whatever the server answers: no open stream has more than 32 events
  -- queued, and the ids of the events that its reader has received or is yet to receive rise
  -- strictly, so that none comes twice.
  pub after_steps_rising :
      (tid : String) (n : ℕ) (s : Subscription)
      → find_stream tid n after_steps ≡ some s
      → (length s.queue ≤ 32) × (rising (ids_of (received s)) ≡ true)
  after_steps_rising tid n s e = is_sound-parts s (found_sound tid n s after_steps reached e)
