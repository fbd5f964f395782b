-- ===== src/Audit/Writer.antt =====
-- internal/audit/audit.go: Row and the Writer, a queue that one loop drains in batches. The lock makes
-- an Emit one step, and each case of the loop's select is one. `onError` is the list of what it is told.
-- `marshal` is json.Marshal of the details and `insert_rows` the Inserter, which may answer each call
-- differently.
pub mod Once
pub mod Drained
use go_tangra_notification.Prelude.{
  ℕ, zero, suc, ◌+◌, Bool, true, false, Option, none, some, List, [], ◌∷◌, ◌++◌, String, ◌&&◌, ◌||◌,
  not, if◌then◌else◌, ltb, leb, length, Result, ok, err, Err, injected, bind_result,
}
use go_tangra_notification.World.{Event}
use go_tangra_notification.Audit.{validate_event}
use go_tangra_notification.Audit.Guard.{DetailFields, guard_fields}

pub record AuditEvent : Type 0 where
  pub event : Event
  pub correlation_id : String
  pub details : DetailFields

pub record AuditRow : Type 0 where
  pub ts : ℕ
  pub event : Event
  pub correlation_id : String
  pub details : String

module _ (lower : String → String) (marshal : DetailFields → Result String) where
  unfoldable pub audit_row : AuditEvent → ℕ → Result AuditRow
  unfolding validate_event
  audit_row e now = bind_result (validate_event e.event) λ _.
      bind_result (marshal (guard_fields lower e.details)) λ js.
        ok (record { ts = now; event = e.event; correlation_id = e.correlation_id; details = js })

-- `queue` is the channel, `buf` the loop's buffer, `batches` what has been handed to the inserter, and
-- `running` whether the loop still runs.
pub record Writer : Type 0 where
  pub capacity : ℕ
  pub queue : List AuditRow
  pub buf : List AuditRow
  pub batches : List (List AuditRow)
  pub closed : Bool
  pub running : Bool
  pub dropped : ℕ
  pub errors : List Err

unfoldable pub new_writer : ℕ → Writer
new_writer capacity = record {
  capacity = capacity;
  queue = [];
  buf = [];
  batches = [];
  closed = false;
  running = true;
  dropped = 0;
  errors = [];
}

abbrev pub queue_full : Err
queue_full = injected "audit: queue full, event dropped"

-- A row is queued, or dropped with a word to `onError`.
unfoldable pub queue_row : AuditRow → Writer → Writer
queue_row r w =
    if ltb (length w.queue) w.capacity
    then record w { queue = w.queue ++ r ∷ [] }
    else record w { dropped = suc w.dropped; errors = w.errors ++ queue_full ∷ [] }

abbrev pub emit_row : Result AuditRow → Writer → Result (Unit {0}) × Writer
emit_row (err e) w = (err e, w)
emit_row (ok r) w =
    if w.closed
    then (err (injected "audit: writer closed"), record w { dropped = suc w.dropped })
    else (ok tt, queue_row r w)

module _ (insert_rows : ℕ → List AuditRow → Option Err) where
  abbrev pub told : Option Err → List Err → List Err
  told none es = es
  told (some e) es = es ++ e ∷ []

  abbrev pub flush_buf : List AuditRow → Writer → Writer
  flush_buf [] w = w
  flush_buf (r ∷ rs) w = record w {
    batches = w.batches ++ (r ∷ rs) ∷ [];
    buf = [];
    errors = told (insert_rows (length w.batches) (r ∷ rs)) w.errors;
  }

  -- The loop's `flush`: the buffer is emptied also when the insert fails.
  unfoldable pub flush : Writer → Writer
  flush w = flush_buf w.buf w

  abbrev pub receive_row : List AuditRow → Writer → Writer
  receive_row [] w = if w.closed then record (flush w) { running = false } else w
  receive_row (r ∷ q) w =
      let got = record w { queue = q; buf = w.buf ++ r ∷ [] } in
      if leb 200 (length got.buf) then flush got else got

  -- The loop receives from the channel: nothing happens while it is empty and open.
  unfoldable pub receive : Writer → Writer
  unfolding flush
  receive w = receive_row w.queue w

  unfoldable pub drain_and_flush : Writer → Writer
  unfolding flush
  drain_and_flush w = flush (record w { buf = w.buf ++ w.queue; queue = [] })

-- What happens next: an Emit, or the loop's turn at one of its cases, or Close.
pub data WriterStep : Type 0 where
  emit_step : Result AuditRow → WriterStep
  receive_step tick_step flush_step close_step : WriterStep

module _ (insert_rows : ℕ → List AuditRow → Option Err) where
  abbrev pub while_running : (Writer → Writer) → Writer → Writer
  while_running f w = if w.running then f w else w

  unfoldable pub writer_step : WriterStep → Writer → Writer
  writer_step (emit_step r) w = (emit_row r w).1
  writer_step receive_step w = while_running (receive insert_rows) w
  writer_step tick_step w = while_running (flush insert_rows) w
  writer_step flush_step w = if w.closed then w else while_running (drain_and_flush insert_rows) w
  writer_step close_step w = record w { closed = true }

  unfoldable pub run_writer : List WriterStep → Writer → Writer
  run_writer [] w = w
  run_writer (x ∷ xs) w = run_writer xs (writer_step x w)

  -- Close waits for the loop, which receives what is left.
  unfoldable pub drain_loop : ℕ → Writer → Writer
  drain_loop zero w = w
  drain_loop (suc fuel) w = drain_loop fuel (while_running (receive insert_rows) w)

  unfoldable pub close_writer : Writer → Writer
  close_writer w = drain_loop (suc (length w.queue)) (record w { closed = true })
