-- ===== src/Stream/Hub/Serve.antt =====
-- internal/stream/hub.go: the hub with the server its client talks to, and the sequences of steps of
-- the callers, the loops and the readers.
use go_tangra_notification.Prelude.{
  ℕ, ◌-◌, Bool, true, false, Option, none, some, List, [], ◌∷◌, String, if◌then◌else◌, ltb, ◌==◌,
  lookup, Exec, Result, ok, err, injected, ◌>>=◌,
}
use go_tangra_notification.Stream.Ids.{id}
use go_tangra_notification.Stream.Memory.{Client, Entry}
use go_tangra_notification.Stream.Hub.{
  Hub, TenantSub, Subscription, stream_key, push, reset_event, replay_entries, is_stale,
}
use go_tangra_notification.Stream.Hub.Streams.{
  admit, fresh_tenant, find_stream, store_stream, close_stream, dispatch_all, take_event, close_hub,
}

pub record Live (S : Type 0) : Type 0 where
  pub hub : Hub
  pub server : S

module _ {S A : Type 0} where
  abbrev pub on_hub : Exec Hub A → Exec (Live S) A
  on_hub f l = ((f l.hub).0, record l { hub = (f l.hub).1 })

  abbrev pub on_server : Exec S A → Exec (Live S) A
  on_server f l = ((f l.server).0, record l { server = (f l.server).1 })

abbrev pub change : {S : Type 0} → (Hub → Hub) → Live S → Live S
change f l = record l { hub = f l.hub }

module _ {S : Type 0} (c : Client S) where
  abbrev pub open_in : String → String → Option TenantSub → Exec (Live S) ℕ
  open_in tid user none = do
    start ← on_server (c.last (stream_key tid))
    on_hub (admit tid user (fresh_tenant start))
  open_in tid user (some t) = on_hub (admit tid user t)

  abbrev pub open_if : Bool → String → String → Exec (Live S) ℕ
  open_if true tid user l = (err (injected "stream: hub closed"), l)
  open_if false tid user l = open_in tid user (lookup tid l.hub.tenants) l

  -- Subscribe up to its unlock. A new tenant's loop begins after the newest entry.
  unfoldable pub open_stream : String → String → Exec (Live S) ℕ
  open_stream tid user l = open_if l.hub.stopped tid user l

  abbrev pub replayed : Result (List Entry) → Subscription → Subscription
  replayed (err e) s = (push (reset_event "{\"reason\":\"replay_unavailable\"}") s).1
  replayed (ok es) s = replay_entries es s

  abbrev pub replay_found : String → ℕ → String → Live S → Option Subscription → Live S
  replay_found tid n last_id l none = l
  replay_found tid n last_id l (some s) =
      let r = c.range (stream_key tid) last_id l.hub.cfg.max_len l.server in
      if is_stale l.hub.now l.hub.cfg.replay_window last_id
      then change (store_stream tid n (push (reset_event "{\"reason\":\"replay_window\"}") s).1) l
      else record { hub = store_stream tid n (replayed r.0 s) l.hub; server = r.1 }

  unfoldable pub replay : String → ℕ → String → Live S → Live S
  replay tid n last_id l = replay_found tid n last_id l (find_stream tid n l.hub)

  -- Subscribe where nothing comes between its two parts.
  unfoldable pub subscribe : String → String → String → Exec (Live S) ℕ
  unfolding open_stream replay
  subscribe tid user last_id = do
    n ← open_stream tid user
    λ l. (ok n, if last_id == "" then l else replay tid n last_id l)

  abbrev pub trimmed_to : Bool → String → Live S → Live S
  trimmed_to false tid l = l
  trimmed_to true tid l = record l {
    server = (c.trim (stream_key tid) (id (l.hub.now - l.hub.cfg.replay_window) 0) l.server).1;
  }

  abbrev pub loop_read : String → Result (List Entry) → Hub → Hub
  loop_read tid (err e) h = h
  loop_read tid (ok es) h = dispatch_all tid es h

  abbrev pub loop_found : String → Live S → Option TenantSub → Live S
  loop_found tid l none = l
  loop_found tid l (some t) =
      let r = c.read (ltb 0 l.hub.cfg.read_block) (stream_key tid) t.cursor 100 l.server in
      record { hub = loop_read tid r.0 l.hub; server = r.1 }

  -- A round of the tenant's loop; `ticked` when the trim ticker has fired. It is one step, where the
  -- source takes and releases the locks for each of the entries that it has read.
  unfoldable pub loop_round : Bool → String → Live S → Live S
  loop_round ticked tid l =
      let m = trimmed_to ticked tid l in loop_found tid m (lookup tid m.hub.tenants)

-- What may happen next. `elsewhere` is anything done to the server by others.
pub data StreamStep (S : Type 0) : Type 0 where
  open_step : String → String → StreamStep S
  replay_step : String → ℕ → String → StreamStep S
  loop_step : Bool → String → StreamStep S
  take_step : String → ℕ → StreamStep S
  close_step : String → ℕ → StreamStep S
  clock_step : ℕ → StreamStep S
  close_hub_step : StreamStep S
  elsewhere : (S → S) → StreamStep S

module _ {S : Type 0} (c : Client S) where
  unfoldable pub stream_step : StreamStep S → Live S → Live S
  stream_step (open_step tid user) l = (open_stream c tid user l).1
  stream_step (replay_step tid n last_id) l = replay c tid n last_id l
  stream_step (loop_step ticked tid) l = loop_round c ticked tid l
  stream_step (take_step tid n) l = change (take_event tid n) l
  stream_step (close_step tid n) l = change (close_stream tid n) l
  stream_step (clock_step now) l = change (λ h. record h { now = now }) l
  stream_step close_hub_step l = change close_hub l
  stream_step (elsewhere f) l = record l { server = f l.server }

  unfoldable pub run_stream : List (StreamStep S) → Live S → Live S
  run_stream [] l = l
  run_stream (x ∷ xs) l = run_stream xs (stream_step x l)
