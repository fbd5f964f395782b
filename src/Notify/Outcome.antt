-- ===== src/Notify/Outcome.antt =====
-- internal/notify/send.go: what deliver leaves behind.
use go_tangra_notification.Prelude.{
  ℕ, suc, ◌≡◌, refl, false, Option, none, some, List, [], ◌∷◌, ◌++◌, String, ◌&&◌, not,
  if◌then◌else◌, ◌==◌, nat_eq, ==_iff, ==_self, length, lookup, insert, lookup-insert, Result-cases,
  inl, inr, arith, ok, err,
}
use go_tangra_notification.Store.{LogRow}
use go_tangra_notification.Memstore.{Store, failing, owned}
use go_tangra_notification.Memstore.Logs.{insert_log, set_log_outcome, with_outcome}
use go_tangra_notification.World.{World, Mail}
use go_tangra_notification.Authz.Decide.{Subjects, actor_kind, actor_id}
use go_tangra_notification.Notify.Channels.{Failure}
use go_tangra_notification.Notify.Deliver.{
  Setup, Dispatch, LogView, log_view, pending_row, mail_of, stored_output, attempt, failure_reason,
  finish, deliver, scrub_secrets,
}
use go_tangra_notification.Notify.Settings.{scrub}
use go_tangra_notification.Notify.Render.{Output}

-- The log table without injected failures.
abbrev pub Working : Store → Type 0
Working m = (lookup "InsertLog" m.fail ≡ none) × (lookup "SetLogOutcome" m.fail ≡ none)

-- The row as the store keeps it: stamped by the store where it has no time.
abbrev pub stamped : ℕ → LogRow → LogRow
stamped now l = record l { created_at = if nat_eq l.created_at 0 then now else l.created_at }

insert_log_eq :
    (l : LogRow) (m : Store)
    → Working m
    → insert_log l m ≡ (ok tt, record m { logs = insert l.id (stamped m.now l) m.logs })
unfolding insert_log failing
insert_log_eq l m h = ground (arith, h.0)

set_log_outcome_eq :
    (tid id status error subject body : String) (at : Option ℕ) (m : Store) (l : LogRow)
    → Working m
    → lookup id m.logs ≡ some l
    → l.tenant_id ≡ tid
    → l.status ≡ "pending"
    → set_log_outcome tid id status error subject body at m
      ≡ (ok tt, record m { logs = insert id (with_outcome status error subject body at l) m.logs })
unfolding set_log_outcome failing owned
set_log_outcome_eq tid id status error subject body at m l h f t p =
    ground (arith, h.1, f, ==_iff l.tenant_id tid, ==_iff l.status "pending")

-- What may be kept of a render: of the pair that it gives, the second, and nothing if it failed.
abbrev kept : Dispatch → Output
kept d = elim d.rendered [ ok (sent, stored) ↦ stored | err e ↦ record { subject = ""; body = "" } ]

-- The mail with a text: HTML by email, and plain otherwise.
abbrev handed : Dispatch → Output → Mail
handed d o = record {
  provider = d.channel.kind;
  platform = d.own;
  to = d.recipient;
  subject = o.subject;
  html_body = if d.channel.kind == "email" then o.body else "";
  text_body = if d.channel.kind == "email" then "" else o.body;
}

-- The entry of a delivery with its outcome, field by field.
abbrev logged_row : Subjects → Dispatch → String → ℕ → String → String → Option ℕ → LogRow
logged_row s d id now status error at = record {
  id = id;
  tenant_id = s.tenant_id;
  created_at = now;
  channel_id = d.channel.id;
  channel_type = d.channel.kind;
  template_id = d.template_id;
  template_key = d.template_key;
  recipient = d.recipient;
  rendered_subject = (kept d).subject;
  rendered_body = (kept d).body;
  status = status;
  error = error;
  sender_kind = actor_kind s;
  sender_id = actor_id s;
  test = d.test;
  sent_at = at;
}

module _ (x : Setup) where
  -- How the attempt ends: what the provider answers to the mail, or the failure to render.
  abbrev pub verdict : Dispatch → World → Option Failure
  verdict d w = elim d.rendered [
    | err e ↦
        some (record { reason = x.describe e; no_provider = false; retryable = x.transient e })
    | ok (sent, stored) ↦ x.providers.send (length w.mails) d.settings (handed d sent)
  ]

  -- The mails after the attempt: one more, with the text that is sent, if it rendered.
  abbrev pub mails_after : Dispatch → World → List Mail
  mails_after d w = elim d.rendered [
    | err e ↦ w.mails
    | ok (sent, stored) ↦ w.mails ++ handed d sent ∷ []
  ]

  -- The reason that the log gives for a failure.
  abbrev reason_kept : Dispatch → Failure → String
  reason_kept d f =
      if f.no_provider
      then "no_provider"
      else scrub_secrets x.engine
          (scrub x.engine.replace_all x.base64 f.reason d.settings
            (x.providers.secrets d.channel.kind))
          d.secrets

  -- The view that a delivery is to return.
  abbrev pub outcome_view : Subjects → Dispatch → String → ℕ → ℕ → Option Failure → LogView
  outcome_view s d id now at none = record {
    row = logged_row s d id now "sent" "" (some at);
    retryable = false;
  }
  outcome_view s d id now at (some f) = record {
    row = logged_row s d id now "failed" (reason_kept d f) none;
    retryable = not f.no_provider && f.retryable;
  }

  attempt_eq :
      (d : Dispatch) (w : World)
      → attempt x d w ≡ (ok (verdict d w), record w { mails = mails_after d w })
  unfolding attempt mail_of
  attempt_eq d w = elim (Result-cases d.rendered) [
    | inl (o, r) ↦ ground (arith, r)
    | inr (e, r) ↦ ground (arith, r)
  ]

  -- The world once the pending row is in the log.
  abbrev pending_world : Subjects → Dispatch → ℕ → World → World
  pending_world s d now w = record w {
    drawn = suc w.drawn;
    store = record w.store {
      logs =
          insert (x.new_id w.drawn) (stamped w.store.now (pending_row s d (x.new_id w.drawn) now))
            w.store.logs;
    };
  }

  -- The world once the row has an outcome.
  abbrev final_world : Subjects → String → LogRow → World → World
  final_world s id l w = record w { store = record w.store { logs = insert id l w.store.logs } }

  started :
      (s : Subjects) (d : Dispatch) (now at : ℕ) (w : World)
      → Working w.store
      → deliver x s d now at w
        ≡ finish x s d
            (pending_row s d (x.new_id w.drawn) now)
            at
            (verdict d w)
            (record (pending_world s d now w) { mails = mails_after d w })
  unfolding deliver pending_row
  started s d now at w h = ground (
    arith,
    insert_log_eq (pending_row s d (x.new_id w.drawn) now) w.store h,
    attempt_eq d (pending_world s d now w),
  )

  finish_eq :
      (s : Subjects) (d : Dispatch) (id : String) (now at : ℕ) (f : Option Failure) (w : World)
      → Working w.store
      → lookup id w.store.logs ≡ some (stamped w.store.now (pending_row s d id now))
      → ((finish x s d (pending_row s d id now) at f w).0 ≡ ok (outcome_view s d id now at f))
        × ((finish x s d (pending_row s d id now) at f w).1.store ≡ record w.store {
          logs = insert id (stamped w.store.now (outcome_view s d id now at f).row) w.store.logs;
        })
        × ((finish x s d (pending_row s d id now) at f w).1.mails ≡ w.mails)
  unfolding finish pending_row log_view with_outcome stored_output failure_reason
  finish_eq s d id now at none w h k =
      let o = kept d in
      let e =
        set_log_outcome_eq s.tenant_id id "sent" "" o.subject o.body (some at) w.store _ h k refl
          refl in
      (ground (arith, e), ground (arith, e), ground (arith, e))
  finish_eq s d id now at (some f) w h k =
      let o = kept d in
      let e =
        set_log_outcome_eq s.tenant_id id "failed" (reason_kept d f) o.subject o.body none w.store _
          h k refl refl in
      (ground (arith, e), ground (arith, e), ground (arith, e))

  -- While the log's table fails on no write, a delivery always returns, and leaves exactly one entry
  -- for it in the log. The call returns the entry, with the delivery's own fields: sent if the text
  -- rendered and the provider took the mail, and failed otherwise, with no reason but no_provider or
  -- what scrub and scrub_secrets leave of it. The subject and the body of the entry are the second
  -- text of the render, where the mail has the first, and empty if it did not render. Under the
  -- entry's id the log holds the same entry (with the store's time where the clock gave none), under
  -- every other id what it held, and the mails handed out are one more if the text rendered, and the
  -- same otherwise.
  pub deliver_logs :
      (s : Subjects) (d : Dispatch) (now at : ℕ) (w : World)
      → Working w.store
      → ((deliver x s d now at w).0 ≡ ok (outcome_view s d (x.new_id w.drawn) now at (verdict d w)))
        × (lookup (x.new_id w.drawn) (deliver x s d now at w).1.store.logs
            ≡ some (
                stamped w.store.now (outcome_view s d (x.new_id w.drawn) now at (verdict d w)).row))
        × ((k : String)
            → x.new_id w.drawn == k ≡ false
            → lookup k (deliver x s d now at w).1.store.logs ≡ lookup k w.store.logs)
        × ((deliver x s d now at w).1.mails ≡ mails_after d w)
  deliver_logs s d now at w h =
      let id = x.new_id w.drawn in
      let p = stamped w.store.now (pending_row s d id now) in
      let v = stamped w.store.now (outcome_view s d id now at (verdict d w)).row in
      let w' = record (pending_world s d now w) { mails = mails_after d w } in
      let b = started s d now at w h in
      let there : lookup id w'.store.logs ≡ some p =
        ground (arith, lookup-insert id id p w.store.logs, ==_self id) in
      let (r, m, k) = finish_eq s d id now at (verdict d w) w' h there in
      (
        ground (arith, b, r),
        ground (arith, b, m, lookup-insert id id v w'.store.logs, ==_self id),
        λ j n.
            ground (
              arith,
              b,
              m,
              n,
              lookup-insert id j v w'.store.logs,
              lookup-insert id j p w.store.logs,
            ),
        ground (arith, b, k),
      )
