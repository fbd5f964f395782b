-- ===== src/Stream/Memory/Log/Requests.antt =====
-- internal/stream/client.go: any sequence of requests keeps the stream an end of the log.
use go_tangra_notification.Prelude.{
  ℕ, suc, ◌+◌, ◌/◌, ◌≤◌, ◌<◌, Bool, true, false, List, [], ◌∷◌, ◌++◌, String, ◌&&◌, not,
  if◌then◌else◌, ltb, leb, Table, ◌==◌, ==_iff, length, select, Option, none, some, Err, ◌≡◌, refl,
  arith, Option-cases, ==_self, Bool-cases, inl, inr, sym, subst, insert, lookup-insert,
}
use go_tangra_notification.Stream.Ids.{less}
use go_tangra_notification.Stream.Memory.{
  Memory, Entry, xadd, xadd-add_entry, xadd_down, add_entry, xtrim_min_id, added_id, trimmed,
  stream_of,
}
use go_tangra_notification.Stream.Memory.Log.{
  LogRequest, append_entry, drop_before, LogCall, clocked, request_step, call_step, run_log, logged,
  log_after,
}
use go_tangra_notification.Stream.Memory.Log.Kept.{IsLog, bound, kept-IsLog, add-IsLog, trim-IsLog}

-- Another stream's requests leave this one.
other_add :
    (key k : String) (fields : Table String) (max_len : ℕ) (m : Memory)
    → k == key ≡ false
    → stream_of key (add_entry k fields max_len m).1 ≡ stream_of key m
unfolding stream_of
other_add key k fields max_len m n =
    rw
      (
        lookup-insert k key
            (trimmed max_len (stream_of k m ++ record { id = added_id m; fields = fields } ∷ []))
            m.streams,
        n,
      )
      refl

other_drop :
    (key k : String) (min_id : String) (m : Memory)
    → k == key ≡ false
    → stream_of key (record m {
      streams = insert k (select (λ e. not (less e.id min_id)) (stream_of k m)) m.streams;
    })
      ≡ stream_of key m
unfolding stream_of
other_drop key k min_id m n =
    rw (lookup-insert k key (select (λ e. not (less e.id min_id)) (stream_of k m)) m.streams, n)
      refl

module _ (key k : String) (at : ℕ) (m : Memory) (log : List Entry) (v : IsLog key m log)
    (t : m.now ≤ at) where
  step_up :
      (request : LogRequest)
      → at / 1000000 < bound
      → suc m.seq < bound
      → IsLog key
          (request_step k request (record m { now = at; down = none }))
          (logged key k request none (added_id (record m { now = at; down = none })) log)
  unfolding xtrim_min_id stream_of
  step_up (append_entry fields n) a s =
      let now : Memory = record m { now = at; down = none } in
      elim (Bool-cases (k == key)) [
        | inl e ↦
            subst
              (λ z. IsLog key (xadd z fields n now).1 (
                if z == key
                then log ++ record { id = added_id now; fields = fields } ∷ []
                else log))
              (sym ((==_iff k key).0 e))
              (rw (==_self key) (add-IsLog key at none m log fields n v t a s refl))
        | inr e ↦
            rw (e, xadd-add_entry k fields n now refl, request_step)
              (kept-IsLog key m (add_entry k fields n now).1 log v (other_add key k fields n now e)
                t (omega arith))
      ]
  step_up (drop_before min_id) a s =
      let now : Memory = record m { now = at; down = none } in
      elim (Bool-cases (k == key)) [
        | inl e ↦
            subst (λ z. IsLog key (xtrim_min_id z min_id now).1 log) (sym ((==_iff k key).0 e))
              (trim-IsLog key at none m log min_id v t refl)
        | inr e ↦
            kept-IsLog key m (xtrim_min_id k min_id now).1 log v (other_drop key k min_id now e) t
              (omega arith)
      ]

  -- While the server is down nothing changes.
  step_down :
      (request : LogRequest) (e : Err) (i : String)
      → IsLog key
          (request_step k request (record m { now = at; down = some e }))
          (logged key k request (some e) i log)
  unfolding xtrim_min_id stream_of
  step_down (append_entry fields n) e i =
      let now : Memory = record m { now = at; down = some e } in
      rw (xadd_down k fields n now e refl, request_step)
        (kept-IsLog key m now log v refl t (omega arith))
  step_down (drop_before min_id) e i =
      kept-IsLog key m (record m { now = at; down = some e }) log v refl t (omega arith)

-- The clock never goes back, and stays below 2^63 milliseconds.
unfoldable pub in_time : ℕ → List LogCall → Bool
in_time now [] = true
in_time now (c ∷ cs) = leb now c.at && ltb (c.at / 1000000) 9223372036854775808 && in_time c.at cs

step-IsLog :
    (key : String) (c : LogCall) (down : Option Err) (m : Memory) (log : List Entry)
    → IsLog key m log
    → m.now ≤ c.at
    → c.at / 1000000 < bound
    → suc m.seq < bound
    → IsLog key
        (request_step c.key c.request (record m { now = c.at; down = down }))
        (logged key c.key c.request down (added_id (record m { now = c.at; down = down })) log)
step-IsLog key c none m log v t a s = step_up key c.key c.at m log v t c.request a s
step-IsLog key c (some e) m log v t a s = step_down key c.key c.at m log v t c.request e _

clock_of :
    (k : String) (request : LogRequest) (m : Memory)
    → ((request_step k request m).now ≡ m.now) × ((request_step k request m).seq ≤ suc m.seq)
unfolding xadd xtrim_min_id
clock_of k (append_entry fields n) m = elim (Option-cases m.down) [
  | inl d ↦ (rw d refl, rw d (omega arith))
  | inr (e, d) ↦ (rw d refl, rw d (omega arith))
]
clock_of k (drop_before i) m = elim (Option-cases m.down) [
  | inl d ↦ (rw d refl, rw d (omega arith))
  | inr (e, d) ↦ (rw d refl, rw d (omega arith))
]

pub run_log-IsLog :
    (key : String) (cs : List LogCall) (m : Memory) (log : List Entry)
    → IsLog key m log
    → in_time m.now cs ≡ true
    → m.seq + length cs < bound
    → IsLog key (run_log cs m) (log_after key cs m log)
unfolding run_log log_after in_time
run_log-IsLog key [] m log v h b = v
run_log-IsLog key (c ∷ cs) m log v h b =
    let k = clock_of c.key c.request (clocked c m) in
    let s = k.1 in
    let w =
      step-IsLog key c c.down m log v (ground (arith, h)) (ground (arith, h)) (omega (arith, b)) in
    run_log-IsLog key cs (call_step c m) _ w (rw k.0 (ground (arith, h))) (omega (arith, b, s))
