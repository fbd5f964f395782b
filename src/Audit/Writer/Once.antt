-- ===== src/Audit/Writer/Once.antt =====
-- internal/audit/audit.go: each row that is queued is handed to the inserter once, in order.
use go_tangra_notification.Prelude.{
  append_assoc, append-nil, ℕ, Bool, true, false, Option, List, [], ◌∷◌, ◌++◌, if◌then◌else◌, ltb,
  leb, length, Result, ok, err, Err, ◌≡◌, refl, Bool-cases, inl, inr, ap, ◌∙◌, sym,
}
use go_tangra_notification.Audit.Writer.{
  AuditRow, Writer, WriterStep, emit_step, receive_step, tick_step, flush_step, close_step,
  new_writer, queue_row, flush, flush_buf, receive, receive_row, drain_and_flush, while_running,
  writer_step, run_writer,
}

unfoldable pub concat : List (List AuditRow) → List AuditRow
concat [] = []
concat (b ∷ bs) = b ++ concat bs

-- What the writer holds or has handed on, in order.
abbrev pub seen : Writer → List AuditRow
seen w = concat w.batches ++ (w.buf ++ w.queue)

concat-snoc :
    (bs : List (List AuditRow)) (b : List AuditRow) → concat (bs ++ b ∷ []) ≡ concat bs ++ b
unfolding concat
concat-snoc [] b = append-nil b
concat-snoc (x ∷ bs) b = ap (λ l. x ++ l) (concat-snoc bs b) ∙ sym (append_assoc x (concat bs) b)

seen_either :
    (b : Bool) (x y : Writer) (l : List AuditRow)
    → seen x ≡ l
    → seen y ≡ l
    → seen (if b then x else y) ≡ l
seen_either true x y l e f = e
seen_either false x y l e f = f

-- The rows that are queued: those emitted while the writer is open and the queue has room.
abbrev pub queued_row : Result AuditRow → Writer → List AuditRow
queued_row (err e) w = []
queued_row (ok r) w =
    if w.closed then [] else if ltb (length w.queue) w.capacity then r ∷ [] else []

abbrev pub queued_by : WriterStep → Writer → List AuditRow
queued_by (emit_step r) w = queued_row r w
queued_by receive_step w = []
queued_by tick_step w = []
queued_by flush_step w = []
queued_by close_step w = []

module _ (insert_rows : ℕ → List AuditRow → Option Err) where
  unfoldable pub accepted : List WriterStep → Writer → List AuditRow
  accepted [] w = []
  accepted (x ∷ xs) w = queued_by x w ++ accepted xs (writer_step insert_rows x w)

  seen-flush_buf :
      (b : List AuditRow) (w : Writer) → w.buf ≡ b → seen (flush_buf insert_rows b w) ≡ seen w
  seen-flush_buf [] w e = refl
  seen-flush_buf (r ∷ rs) w e =
      ap (λ l. l ++ w.queue) (concat-snoc w.batches (r ∷ rs))
      ∙ append_assoc (concat w.batches) (r ∷ rs) w.queue
      ∙ ap (λ l. concat w.batches ++ (l ++ w.queue)) (sym e)

  seen-flush : (w : Writer) → seen (flush insert_rows w) ≡ seen w
  unfolding flush
  seen-flush w = seen-flush_buf w.buf w refl

  pub seen-receive_row :
      (q : List AuditRow) (w : Writer) → w.queue ≡ q → seen (receive_row insert_rows q w) ≡ seen w
  unfolding flush
  seen-receive_row [] w e = seen_either w.closed _ w (seen w) (seen-flush_buf w.buf w refl) refl
  seen-receive_row (r ∷ q) w e =
      let got = record w { queue = q; buf = w.buf ++ r ∷ [] } in
      let same : seen got ≡ seen w =
        ap (λ l. concat w.batches ++ l)
          (append_assoc w.buf (r ∷ []) q ∙ ap (λ l. w.buf ++ l) (sym e)) in
      seen_either (leb 200 (length got.buf)) (flush insert_rows got) got (seen w)
        (seen-flush got ∙ same) same

  seen-drain : (w : Writer) → seen (drain_and_flush insert_rows w) ≡ seen w
  unfolding drain_and_flush
  seen-drain w =
      seen-flush (record w { buf = w.buf ++ w.queue; queue = [] })
      ∙ ap (λ l. concat w.batches ++ l) (append-nil (w.buf ++ w.queue))

  pub seen-running :
      (f : Writer → Writer) (w : Writer)
      → seen (f w) ≡ seen w
      → seen (while_running insert_rows f w) ≡ seen w
  seen-running f w e = seen_either w.running (f w) w (seen w) e refl

  seen-writer_step :
      (x : WriterStep) (w : Writer) → seen (writer_step insert_rows x w) ≡ seen w ++ queued_by x w
  unfolding writer_step receive queue_row
  seen-writer_step (emit_step (err e)) w = sym (append-nil (seen w))
  seen-writer_step (emit_step (ok r)) w = elim (Bool-cases w.closed) [
    | inl c ↦ rw c (sym (append-nil (seen w)))
    | inr c ↦ elim (Bool-cases (ltb (length w.queue) w.capacity)) [
      | inr f ↦ rw (c, f) (sym (append-nil (seen w)))
      | inl f ↦
          rw (c, f)
            (ap (λ l. concat w.batches ++ l) (sym (append_assoc w.buf w.queue (r ∷ [])))
              ∙ sym (append_assoc (concat w.batches) (w.buf ++ w.queue) (r ∷ [])))
    ]
  ]
  seen-writer_step receive_step w =
      seen-running (receive insert_rows) w (seen-receive_row w.queue w refl)
      ∙ sym (append-nil (seen w))
  seen-writer_step tick_step w =
      seen-running (flush insert_rows) w (seen-flush w) ∙ sym (append-nil (seen w))
  seen-writer_step flush_step w =
      seen_either w.closed w (while_running insert_rows (drain_and_flush insert_rows) w) (seen w)
        refl (seen-running (drain_and_flush insert_rows) w (seen-drain w))
      ∙ sym (append-nil (seen w))
  seen-writer_step close_step w = sym (append-nil (seen w))

  pub seen-run_writer :
      (xs : List WriterStep) (w : Writer)
      → seen (run_writer insert_rows xs w) ≡ seen w ++ accepted xs w
  unfolding run_writer accepted
  seen-run_writer [] w = sym (append-nil (seen w))
  seen-run_writer (x ∷ xs) w =
      seen-run_writer xs (writer_step insert_rows x w)
      ∙ ap (λ l. l ++ accepted xs (writer_step insert_rows x w)) (seen-writer_step x w)
      ∙ append_assoc (seen w) (queued_by x w) (accepted xs (writer_step insert_rows x w))

pub seen-new_writer : (capacity : ℕ) → seen (new_writer capacity) ≡ []
unfolding new_writer concat
seen-new_writer capacity = refl
