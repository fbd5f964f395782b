-- ===== src/Messages/Scheduler.antt =====
-- internal/messages/scheduler.go: claiming due messages and publishing them.
use go_tangra_notification.Prelude.{
  ℕ, suc, Bool, true, false, List, [], ◌∷◌, String, if◌then◌else◌, nat_eq, ok, err, pure, ◌>>=◌,
}
use go_tangra_notification.Memstore.Messages.{claim_due_messages}
use go_tangra_notification.World.{Act, st}
use go_tangra_notification.Authz.Decide.{service_subjects}
use go_tangra_notification.Messages.Publish.{Directory, publish}

-- Times in nanoseconds.
pub record SchedulerConfig : Type 0 where
  pub interval : ℕ
  pub lease : ℕ
  pub batch : ℕ

abbrev default : ℕ → ℕ → ℕ
default d n = if nat_eq n 0 then d else n

unfoldable pub new_scheduler : SchedulerConfig → SchedulerConfig
new_scheduler c = record {
  interval = default 15000000000 c.interval;
  lease = default 60000000000 c.lease;
  batch = default 50 c.batch;
}

-- A failed publication is logged, and the loop goes on.
abbrev attempt : {A : Type 0} → Act A → Act Bool
attempt m w = elim (m w).0 [ ok a ↦ (ok true, (m w).1) | err e ↦ (ok false, (m w).1) ]

module _ (new_id : ℕ → String) (dir : Directory) where
  -- The loop over the claimed messages: how many were published.
  unfoldable pub publish_each : ℕ → List (String × String) → Act ℕ
  publish_each now [] = pure 0
  publish_each now ((id, tid) ∷ due) = do
    done ← attempt (publish new_id dir tid id (service_subjects tid "system") now)
    n ← publish_each now due
    pure (if done then suc n else n)

  unfoldable pub once : SchedulerConfig → ℕ → Act ℕ
  once c now = do due ← st (claim_due_messages now c.lease c.batch); publish_each now due
