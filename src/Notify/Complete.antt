-- ===== src/Notify/Complete.antt =====
-- internal/notify/send.go: a send that passes its checks is delivered.
use go_tangra_notification.Prelude.{ℕ, ◌≡◌, sym, subst, none, some, ok, arith, lookup}
use go_tangra_notification.World.{World}
use go_tangra_notification.Authz.Decide.{Subjects}
use go_tangra_notification.Notify.Deliver.{Setup, Dispatch, limit, count_send}
use go_tangra_notification.Notify.Outcome.{
  Working, stamped, verdict, mails_after, outcome_view, deliver_logs,
}
use go_tangra_notification.Notify.Send.{SendInput, prepare, send}
use go_tangra_notification.Notify.Gates.{prepare-Quiet}

-- Where there is no rate limiter and the log's table fails on no write, a send whose checks pass
-- returns the entry of its delivery, holds it in the log under a newly drawn id, and hands out one
-- mail more if the text rendered, and none otherwise.
pub send_completes :
    (x : Setup) (s : Subjects) (i : SendInput) (now at : ℕ) (w v : World) (d : Dispatch)
    → prepare x s i now w ≡ (ok d, v)
    → x.limiter ≡ none
    → Working w.store
    → ((send x s i now at w).0 ≡ ok (outcome_view x s d (x.new_id v.drawn) now at (verdict x d v)))
      × (lookup (x.new_id v.drawn) (send x s i now at w).1.store.logs
          ≡ some (
              stamped w.store.now
                (outcome_view x s d (x.new_id v.drawn) now at (verdict x d v)).row))
      × ((send x s i now at w).1.mails ≡ mails_after x d v)
      × (v.mails ≡ w.mails)
unfolding send limit count_send
send_completes x s i now at w v d p l h =
    let q = (prepare-Quiet x s i now).leaves w in
    let e : v.store ≡ w.store = ground (arith, p, q.0) in
    let (a, b, c, m) = deliver_logs x s d now at v (subst Working (sym e) h) in
    (
      ground (arith, p, l, a),
      ground (arith, p, l, b, e),
      ground (arith, p, l, m),
      ground (arith, p, q.1),
    )
