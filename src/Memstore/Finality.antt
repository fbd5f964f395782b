-- ===== src/Memstore/Finality.antt =====
-- internal/memstore/memstore.go: an entry of the log takes its outcome once.
use go_tangra_notification.Prelude.{
  ℕ, ◌≡◌, false, Option, some, List, [], ◌∷◌, String, ◌==◌, ==_iff, lookup, lookup-insert,
  lookup-update_all, Option-cases, inl, inr, arith,
}
use go_tangra_notification.Store.{LogRow}
use go_tangra_notification.Memstore.Owned.{Store, failing, owned}
use go_tangra_notification.Memstore.Logs.{
  with_outcome, set_log_outcome, stale, expire_row, expire_pending_logs,
}

-- A call that changes entries of the log.
pub data LogCall : Type 0 where
  outcome_call : String → String → String → String → String → String → Option ℕ → LogCall
  expire_call : ℕ → LogCall

unfoldable pub run_log_call : LogCall → Store → Store
run_log_call (outcome_call tid id status error subject body at) m =
    (set_log_outcome tid id status error subject body at m).1
run_log_call (expire_call older) m = (expire_pending_logs older m).1

unfoldable pub run_log_calls : List LogCall → Store → Store
run_log_calls [] m = m
run_log_calls (x ∷ xs) m = run_log_calls xs (run_log_call x m)

run_log_call-lookup :
    (x : LogCall) (m : Store) (k : String) (l : LogRow)
    → lookup k m.logs ≡ some l
    → l.status == "pending" ≡ false
    → lookup k (run_log_call x m).logs ≡ some l
unfolding run_log_call set_log_outcome expire_pending_logs failing owned expire_row stale
run_log_call-lookup (outcome_call tid id status error subject body at) m k l h d =
    elim (Option-cases (lookup id m.logs)) [
      | inl n ↦ ground (arith, n, h)
      | inr (y, n) ↦ ground (
        arith,
        n,
        h,
        d,
        ==_iff id k,
        lookup-insert id k (with_outcome status error subject body at y) m.logs,
      )
    ]
run_log_call-lookup (expire_call older) m k l h d =
    ground (arith, h, d, lookup-update_all (expire_row older) k m.logs)

-- An entry of the log that is no longer pending stays exactly as it is under every sequence of calls
-- that set an outcome or expire pending entries.
pub run_log_calls-lookup :
    (xs : List LogCall) (m : Store) (k : String) (l : LogRow)
    → lookup k m.logs ≡ some l
    → l.status == "pending" ≡ false
    → lookup k (run_log_calls xs m).logs ≡ some l
unfolding run_log_calls
run_log_calls-lookup [] m k l h d = h
run_log_calls-lookup (x ∷ xs) m k l h d =
    run_log_calls-lookup xs (run_log_call x m) k l (run_log_call-lookup x m k l h d) d
