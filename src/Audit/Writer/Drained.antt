-- ===== src/Audit/Writer/Drained.antt =====
-- internal/audit/audit.go: what Close leaves.
use go_tangra_notification.Prelude.{
  append-nil, ◌⊎◌, ℕ, zero, suc, ◌<◌, Bool, true, false, Option, List, [], ◌∷◌, ◌++◌, if◌then◌else◌,
  ltb, leb, length, Result, ok, err, Err, ◌≡◌, refl, arith, Bool-cases, inl, inr, ap, ◌∙◌, sym,
  subst,
}
use go_tangra_notification.Audit.Writer.{
  AuditRow, Writer, WriterStep, emit_step, receive_step, tick_step, flush_step, close_step,
  new_writer, queue_row, emit_row, flush, flush_buf, receive, receive_row, drain_and_flush,
  while_running, writer_step, run_writer, drain_loop, close_writer,
}
use go_tangra_notification.Audit.Writer.Once.{
  concat, seen, accepted, seen-run_writer, seen-receive_row, seen-running, seen-new_writer,
}

-- A loop that has ended has left nothing, and the writer is closed.
record IsIdle (w : Writer) : Type 0 where
  pub stopped : w.running ≡ false
  pub shut : w.closed ≡ true
  pub no_queue : w.queue ≡ []
  pub no_buf : w.buf ≡ []

abbrev Fine : Writer → Type 0
Fine w = (w.running ≡ true) ⊎ IsIdle w

either-Fine :
    (b : Bool) (x y : Writer)
    → (b ≡ true → Fine x)
    → (b ≡ false → Fine y)
    → Fine (if b then x else y)
either-Fine true x y f g = f refl
either-Fine false x y f g = g refl

-- Idle, or with one row less than `n`.
abbrev Turned : ℕ → Writer → Type 0
Turned n z = IsIdle z ⊎ ((z.closed ≡ true) × (z.running ≡ true) × (suc (length z.queue) ≡ n))

when_true :
    (b : Bool) (x y : Writer) (n : ℕ) → b ≡ true → Turned n x → Turned n (if b then x else y)
when_true true x y n e t = t
when_true false x y n e t = absurd cc

both_ways :
    (b : Bool) (x y : Writer) (n : ℕ) → Turned n x → Turned n y → Turned n (if b then x else y)
both_ways true x y n t u = t
both_ways false x y n t u = u

module _ (insert_rows : ℕ → List AuditRow → Option Err) where
  -- A flush leaves all but the buffer.
  flush_buf_kept :
      (b : List AuditRow) (w : Writer)
      → w.buf ≡ b
      → ((flush_buf insert_rows b w).running ≡ w.running)
        × ((flush_buf insert_rows b w).closed ≡ w.closed)
        × ((flush_buf insert_rows b w).queue ≡ w.queue)
        × ((flush_buf insert_rows b w).buf ≡ [])
  flush_buf_kept [] w e = (refl, refl, refl, e)
  flush_buf_kept (r ∷ rs) w e = (refl, refl, refl, refl)

  flush-Fine : (w : Writer) → w.running ≡ true → Fine (flush insert_rows w)
  unfolding flush
  flush-Fine w r = inl ((flush_buf_kept w.buf w refl).0 ∙ r)

  receive-Fine :
      (q : List AuditRow) (w : Writer)
      → w.queue ≡ q
      → w.running ≡ true
      → Fine (receive_row insert_rows q w)
  unfolding flush
  receive-Fine [] w e r =
      let k = flush_buf_kept w.buf w refl in
      either-Fine w.closed _ w
        (λ c. inr (record { stopped = refl; shut = k.1 ∙ c; no_queue = k.2 ∙ e; no_buf = k.3 }))
        (λ c. inl r)
  receive-Fine (x ∷ q) w e r =
      let got = record w { queue = q; buf = w.buf ++ x ∷ [] } in
      either-Fine (leb 200 (length got.buf)) (flush insert_rows got) got (λ c. flush-Fine got r)
        (λ c. inl r)

  running-Fine :
      (f : Writer → Writer) (w : Writer)
      → (w.running ≡ true → Fine (f w))
      → Fine w
      → Fine (while_running insert_rows f w)
  running-Fine f w g h = either-Fine w.running (f w) w g (λ c. h)

  emit-Fine : (r : Result AuditRow) (w : Writer) → Fine w → Fine (emit_row r w).1
  unfolding queue_row
  emit-Fine (err e) w h = h
  emit-Fine (ok r) w (inl o) = elim (Bool-cases w.closed) [
    | inl c ↦ inl (rw c o)
    | inr c ↦ elim (Bool-cases (ltb (length w.queue) w.capacity)) [
      | inl f ↦ inl (rw (c, f) o)
      | inr f ↦ inl (rw (c, f) o)
    ]
  ]
  emit-Fine (ok r) w (inr i) =
      rw i.shut (
        inr (record { stopped = i.stopped; shut = refl; no_queue = i.no_queue; no_buf = i.no_buf }))

  step-Fine : (x : WriterStep) (w : Writer) → Fine w → Fine (writer_step insert_rows x w)
  unfolding writer_step receive drain_and_flush
  step-Fine (emit_step r) w h = emit-Fine r w h
  step-Fine receive_step w h = running-Fine (receive insert_rows) w (receive-Fine w.queue w refl) h
  step-Fine tick_step w h = running-Fine (flush insert_rows) w (flush-Fine w) h
  step-Fine flush_step w h =
      either-Fine w.closed w (while_running insert_rows (drain_and_flush insert_rows) w) (λ c. h)
        (λ c.
          running-Fine (drain_and_flush insert_rows) w
            (flush-Fine (record w { buf = w.buf ++ w.queue; queue = [] })) h)
  step-Fine close_step w (inl r) = inl r
  step-Fine close_step w (inr i) =
      inr (record { stopped = i.stopped; shut = refl; no_queue = i.no_queue; no_buf = i.no_buf })

  run-Fine : (xs : List WriterStep) (w : Writer) → Fine w → Fine (run_writer insert_rows xs w)
  unfolding run_writer
  run-Fine [] w h = h
  run-Fine (x ∷ xs) w h = run-Fine xs (writer_step insert_rows x w) (step-Fine x w h)

  idle_stays : (n : ℕ) (w : Writer) → IsIdle w → drain_loop insert_rows n w ≡ w
  unfolding drain_loop
  idle_stays zero w i = refl
  idle_stays (suc n) w i =
      let e : while_running insert_rows (receive insert_rows) w ≡ w =
        ap (λ b. if b then receive insert_rows w else w) i.stopped in
      ap (drain_loop insert_rows n) e ∙ idle_stays n w i

  -- One turn on a closed writer: the end, or one row less.
  turn :
      (q : List AuditRow) (w : Writer)
      → w.queue ≡ q
      → w.closed ≡ true
      → w.running ≡ true
      → Turned (length w.queue) (receive_row insert_rows q w)
  unfolding flush
  turn [] w e c r =
      let k = flush_buf_kept w.buf w refl in
      when_true w.closed _ w (length w.queue) c
        (inl (record { stopped = refl; shut = k.1 ∙ c; no_queue = k.2 ∙ e; no_buf = k.3 }))
  turn (x ∷ q) w e c r =
      let got = record w { queue = q; buf = w.buf ++ x ∷ [] } in
      let k = flush_buf_kept got.buf got refl in
      let l : suc (length q) ≡ length w.queue = ap length (sym e) in
      both_ways (leb 200 (length got.buf)) (flush insert_rows got) got (length w.queue)
        (inr (k.1 ∙ c, k.0 ∙ r, ap (λ z. suc (length z)) k.2 ∙ l)) (inr (c, r, l))

  -- With a turn for each row that is queued and one more, the loop comes to its end.
  drain_ends :
      (n : ℕ) (w : Writer)
      → w.closed ≡ true
      → w.running ≡ true
      → length w.queue < n
      → IsIdle (drain_loop insert_rows n w)
  unfolding drain_loop receive
  drain_ends zero w c r l = absurd (omega (arith, l))
  drain_ends (suc n) w c r l =
      let e : while_running insert_rows (receive insert_rows) w ≡ receive insert_rows w =
        ap (λ b. if b then receive insert_rows w else w) r in
      elim (turn w.queue w refl c r) [
        | inl i ↦
            subst IsIdle
              (sym (ap (drain_loop insert_rows n) e ∙ idle_stays n (receive insert_rows w) i)) i
        | inr (c2, r2, k) ↦
            subst IsIdle (sym (ap (drain_loop insert_rows n) e))
              (drain_ends n (receive insert_rows w) c2 r2 (omega (arith, l, k)))
      ]

  drain_seen : (n : ℕ) (w : Writer) → seen (drain_loop insert_rows n w) ≡ seen w
  unfolding drain_loop receive
  drain_seen zero w = refl
  drain_seen (suc n) w =
      drain_seen n (while_running insert_rows (receive insert_rows) w)
      ∙ seen-running insert_rows (receive insert_rows) w
          (seen-receive_row insert_rows w.queue w refl)

  close-Fine : (w : Writer) → Fine w → IsIdle (close_writer insert_rows w)
  unfolding close_writer
  close-Fine w (inl r) =
      drain_ends (suc (length w.queue)) (record w { closed = true }) refl r (omega arith)
  close-Fine w (inr i) =
      let shut : IsIdle (record w { closed = true }) = record {
        stopped = i.stopped;
        shut = refl;
        no_queue = i.no_queue;
        no_buf = i.no_buf;
      } in
      subst IsIdle (sym (idle_stays (suc (length w.queue)) (record w { closed = true }) shut)) shut

  -- The audit writer refines the list of the rows it accepted: after any sequence of emits and turns
  -- of the loop, ended by Close, the loop has come to its end with nothing queued or buffered, and the
  -- batches that the inserter was handed are, put together, the rows that were accepted (emitted
  -- while the writer was open and its queue not full), each once and in the order of the emits.
  pub close_writer-concat :
      (capacity : ℕ) (xs : List WriterStep)
      → let w = close_writer insert_rows (run_writer insert_rows xs (new_writer capacity)) in
        (w.running ≡ false)
        × (w.queue ≡ [])
        × (w.buf ≡ [])
        × (concat w.batches ≡ accepted insert_rows xs (new_writer capacity))
  unfolding close_writer new_writer
  close_writer-concat capacity xs =
      let w = run_writer insert_rows xs (new_writer capacity) in
      let i = close-Fine w (run-Fine xs (new_writer capacity) (inl refl)) in
      let s =
        drain_seen (suc (length w.queue)) (record w { closed = true })
        ∙ seen-run_writer insert_rows xs (new_writer capacity)
        ∙ ap (λ l. l ++ accepted insert_rows xs (new_writer capacity)) (seen-new_writer capacity) in
      let z = close_writer insert_rows w in
      (
        i.stopped,
        i.no_queue,
        i.no_buf,
        sym (append-nil (concat z.batches))
            ∙ ap (λ l. concat z.batches ++ l) (sym (ap (λ l. l ++ z.queue) i.no_buf ∙ i.no_queue))
            ∙ s,
      )
