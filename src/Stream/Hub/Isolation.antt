-- ===== src/Stream/Hub/Isolation.antt =====
-- internal/stream/hub.go: the streams of one tenant are out of the reach of the others.
use go_tangra_notification.Prelude.{
  ℕ, Bool, true, false, List, [], ◌∷◌, String, not, ◌==◌, all, Option, none, some, ◌≡◌, refl, arith,
  Bool-cases, Option-cases, inl, inr, lookup, insert, lookup-insert, lookup-erase, Table, ◌∙◌,
  Result, ok, err, continue,
}
use go_tangra_notification.Stream.Memory.{Client, Entry}
use go_tangra_notification.Stream.Hub.{Hub, TenantSub, Subscription, LiveEvent, push, is_stale}
use go_tangra_notification.Stream.Hub.Streams.{
  Conns, admit, is_full, fresh_tenant, find_stream, store_found, store_stream, close_found,
  close_in, close_stream, keep_or_drop, push_to, push_all, dispatch, move_cursor, moved_found,
  dispatch_all, take_first, take_event,
}
use go_tangra_notification.Stream.Hub.Serve.{
  Live, StreamStep, open_step, replay_step, loop_step, take_step, close_step, clock_step,
  close_hub_step, elsewhere, open_stream, open_in, open_if, on_hub, replay, replay_found,
  loop_round, loop_found, loop_read, stream_step, run_stream,
}

-- A step that names another tenant, or none.
abbrev pub is_foreign : {S : Type 0} → String → StreamStep S → Bool
is_foreign b (open_step tid user) = not (tid == b)
is_foreign b (replay_step tid n last_id) = not (tid == b)
is_foreign b (loop_step ticked tid) = not (tid == b)
is_foreign b (take_step tid n) = not (tid == b)
is_foreign b (close_step tid n) = not (tid == b)
is_foreign b (clock_step now) = true
is_foreign b close_hub_step = false
is_foreign b (elsewhere f) = true

module _ (b tid : String) (foreign : tid == b ≡ false) where
  kept_insert : (t : TenantSub) (ts : Table TenantSub) → lookup b (insert tid t ts) ≡ lookup b ts
  kept_insert t ts = lookup-insert tid b t ts ∙ rw foreign refl

  kept_drop :
      (cs : Conns) (t : TenantSub) (ts : Table TenantSub)
      → lookup b (keep_or_drop cs tid t ts) ≡ lookup b ts
  kept_drop [] t ts = lookup-erase tid b ts ∙ rw foreign refl
  kept_drop (c ∷ cs) t ts = kept_insert t ts

  kept_admit :
      (user : String) (t : TenantSub) (h : Hub)
      → lookup b (admit tid user t h).1.tenants ≡ lookup b h.tenants
  unfolding admit
  kept_admit user t h = elim (Bool-cases (is_full h.cfg user t)) [
    | inl f ↦ rw f (kept_insert t h.tenants)
    | inr f ↦ rw f (kept_insert _ h.tenants)
  ]

  kept_found :
      (n : ℕ) (t : TenantSub) (h : Hub) (o : Option Subscription)
      → lookup b (close_found tid n t h o).tenants ≡ lookup b h.tenants
  kept_found n t h none = refl
  kept_found n t h (some s) = kept_drop _ _ h.tenants

  kept_in :
      (n : ℕ) (h : Hub) (o : Option TenantSub)
      → lookup b (close_in tid n h o).tenants ≡ lookup b h.tenants
  kept_in n h none = refl
  kept_in n h (some t) = kept_found n t h _

  kept_close : (n : ℕ) (h : Hub) → lookup b (close_stream tid n h).tenants ≡ lookup b h.tenants
  unfolding close_stream
  kept_close n h = kept_in n h _

  kept_stored :
      (n : ℕ) (s : Subscription) (h : Hub) (o : Option TenantSub)
      → lookup b (store_found tid n s h o).tenants ≡ lookup b h.tenants
  kept_stored n s h none = refl
  kept_stored n s h (some t) = kept_insert _ h.tenants

  kept_store :
      (n : ℕ) (s : Subscription) (h : Hub)
      → lookup b (store_stream tid n s h).tenants ≡ lookup b h.tenants
  unfolding store_stream
  kept_store n s h = kept_stored n s h _

  kept_push :
      (ev : LiveEvent) (n : ℕ) (h : Hub)
      → lookup b (push_to tid ev n h).tenants ≡ lookup b h.tenants
  unfolding push_to
  kept_push ev n h = elim (Option-cases (find_stream tid n h)) [
    | inl e ↦ rw e refl
    | inr (s, e) ↦
        let g = kept_store n (push ev s).1 h in
        elim (Bool-cases (push ev s).0) [
          | inl p ↦ rw (e, p) g
          | inr p ↦ rw (e, p) (kept_close n (store_stream tid n (push ev s).1 h) ∙ g)
        ]
  ]

  kept_push_all :
      (ev : LiveEvent) (ns : List ℕ) (h : Hub)
      → lookup b (push_all tid ev ns h).tenants ≡ lookup b h.tenants
  unfolding push_all
  kept_push_all ev [] h = refl
  kept_push_all ev (n ∷ ns) h = kept_push_all ev ns (push_to tid ev n h) ∙ kept_push ev n h

  kept_moved :
      (i : String) (h : Hub) (o : Option TenantSub)
      → lookup b (moved_found tid i h o).tenants ≡ lookup b h.tenants
  kept_moved i h none = refl
  kept_moved i h (some t) = kept_insert _ h.tenants

  kept_dispatch :
      (es : List Entry) (h : Hub) → lookup b (dispatch_all tid es h).tenants ≡ lookup b h.tenants
  unfolding dispatch_all dispatch move_cursor
  kept_dispatch [] h = refl
  kept_dispatch (e ∷ es) h =
      kept_dispatch es (dispatch tid e (move_cursor tid e.id h))
      ∙ kept_push_all _ _ (move_cursor tid e.id h)
      ∙ kept_moved e.id h _

  kept_take : (n : ℕ) (h : Hub) → lookup b (take_event tid n h).tenants ≡ lookup b h.tenants
  unfolding take_event
  kept_take n h = elim (Option-cases (find_stream tid n h)) [
    | inl e ↦ rw e refl
    | inr (s, e) ↦ rw e (kept_store n (take_first s s.queue) h)
  ]

  module _ {S : Type 0} (c : Client S) where
    kept_first :
        (user : String) (r : Result String) (l : Live S)
        → lookup b
            (continue r (λ start. on_hub (admit tid user (fresh_tenant start))) l).1.hub.tenants
          ≡ lookup b l.hub.tenants
    kept_first user (err e) l = refl
    kept_first user (ok start) l = kept_admit user (fresh_tenant start) l.hub

    kept_open :
        (user : String) (o : Option TenantSub) (l : Live S)
        → lookup b (open_in c tid user o l).1.hub.tenants ≡ lookup b l.hub.tenants
    kept_open user none l = kept_first user _ _
    kept_open user (some t) l = kept_admit user t l.hub

    kept_open_if :
        (user : String) (stopped : Bool) (l : Live S)
        → lookup b (open_if c stopped tid user l).1.hub.tenants ≡ lookup b l.hub.tenants
    kept_open_if user true l = refl
    kept_open_if user false l = kept_open user _ l

    kept_replay :
        (n : ℕ) (i : String) (l : Live S) (o : Option Subscription)
        → lookup b (replay_found c tid n i l o).hub.tenants ≡ lookup b l.hub.tenants
    kept_replay n i l none = refl
    kept_replay n i l (some s) = elim (Bool-cases (is_stale l.hub.now l.hub.cfg.replay_window i)) [
      | inl z ↦ rw z (kept_store n _ l.hub)
      | inr z ↦ rw z (kept_store n _ l.hub)
    ]

    kept_read :
        (r : Result (List Entry)) (h : Hub)
        → lookup b (loop_read c tid r h).tenants ≡ lookup b h.tenants
    kept_read (err e) h = refl
    kept_read (ok es) h = kept_dispatch es h

    kept_loop :
        (l : Live S) (o : Option TenantSub)
        → lookup b (loop_found c tid l o).hub.tenants ≡ lookup b l.hub.tenants
    kept_loop l none = refl
    kept_loop l (some t) = kept_read _ l.hub

    kept_round :
        (ticked : Bool) (l : Live S)
        → lookup b (loop_round c ticked tid l).hub.tenants ≡ lookup b l.hub.tenants
    unfolding loop_round
    kept_round true l = kept_loop _ _
    kept_round false l = kept_loop _ _

step_foreign :
    {S : Type 0} (c : Client S) (b : String) (x : StreamStep S) (l : Live S)
    → is_foreign b x ≡ true
    → lookup b (stream_step c x l).hub.tenants ≡ lookup b l.hub.tenants
unfolding stream_step open_stream replay
step_foreign c b (open_step tid user) l f =
    kept_open_if b tid (ground (arith, f)) c user l.hub.stopped l
step_foreign c b (replay_step tid n i) l f = kept_replay b tid (ground (arith, f)) c n i l _
step_foreign c b (loop_step ticked tid) l f = kept_round b tid (ground (arith, f)) c ticked l
step_foreign c b (take_step tid n) l f = kept_take b tid (ground (arith, f)) n l.hub
step_foreign c b (close_step tid n) l f = kept_close b tid (ground (arith, f)) n l.hub
step_foreign c b (clock_step now) l f = refl
step_foreign c b close_hub_step l f = cc
step_foreign c b (elsewhere g) l f = refl

-- Tenants are apart: whatever the streams, the loops and the readers of other tenants do, and
-- whatever the server answers, the open streams of a tenant, their queues, their numbers and its
-- loop's place stay as they were. Only a step that names the tenant, or the end of the hub, reaches
-- them.
pub run_stream_foreign :
    {S : Type 0} (c : Client S) (b : String) (xs : List (StreamStep S)) (l : Live S)
    → all (is_foreign b) xs ≡ true
    → lookup b (run_stream c xs l).hub.tenants ≡ lookup b l.hub.tenants
unfolding run_stream
run_stream_foreign c b [] l f = refl
run_stream_foreign c b (x ∷ xs) l f =
    run_stream_foreign c b xs (stream_step c x l) (ground (arith, f))
    ∙ step_foreign c b x l (ground (arith, f))
