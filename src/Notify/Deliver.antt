-- ===== src/Notify/Deliver.antt =====
-- internal/notify/send.go: the delivery of one notification, and its entry in the log. `now` is the
-- reading of the clock before the provider is called, and `at` the one after it.
use go_tangra_notification.Prelude.{
  ℕ, Bool, false, Option, none, some, List, [], ◌∷◌, ◌++◌, String, ◌&&◌, not, if◌then◌else◌, ◌==◌,
  length, Table, Result, ok, err, Err, rate_limited, pure, ◌>>=◌, ◌>>◌,
}
use go_tangra_notification.Store.{Channel, LogRow}
use go_tangra_notification.Memstore.Logs.{insert_log, set_log_outcome, with_outcome}
use go_tangra_notification.World.{Act, Event, Mail, st, ask, emit, draw_id, draw_seed}
use go_tangra_notification.Authz.Decide.{Subjects, actor_kind, actor_id}
use go_tangra_notification.Notify.Settings.{Settings, Codec, scrub, cut}
use go_tangra_notification.Notify.Channels.{Providers, Failure}
use go_tangra_notification.Notify.Render.{Engine, Output, value_of, redacted_mark}

-- What the sender is given: the other components, the sends allowed a minute, and the packages that
-- it calls. `limiter` counts (stream.Limiter); its first argument numbers the call. `address` is
-- whether mail.ParseAddress takes the text; `describe` is an error's text, and `transient` how
-- email.Retryable classifies it; `trim` is strings.TrimSpace, `runes`
-- utf8.RuneCountInString, and `stamp` a time as RFC3339 writes it.
pub record Setup : Type 0 where
  pub codec : Codec
  pub providers : Providers
  pub engine : Engine
  pub limiter : Option (ℕ → String → String → ℕ → ℕ → Result Bool)
  pub per_tenant : ℕ
  pub per_sender : ℕ
  pub system : ℕ
  pub platform_tenant : String
  pub new_id : ℕ → String
  pub lower : String → String
  pub base64 : String → String
  pub trim : String → String
  pub runes : String → ℕ
  pub stamp : ℕ → String
  pub address : String → Bool
  pub describe : Err → String
  pub transient : Err → Bool

-- One send in flight (`delivery`): the channel with its clear settings, whether the platform's own
-- provider sends for it, and what the render gives: what is sent and what is stored.
pub record Dispatch : Type 0 where
  pub channel : Channel
  pub settings : Settings
  pub own : Bool
  pub template_id : Option String
  pub template_key : Option String
  pub recipient : String
  pub test : Bool
  pub secrets : List String
  pub rendered : Result (Output × Output)

pub record LogView : Type 0 where
  pub row : LogRow
  pub retryable : Bool

unfoldable pub log_view : LogRow → LogView
log_view l = record { row = l; retryable = false }

-- The non-empty values of the secret variables.
unfoldable pub secret_values : List String → Table String → List String
secret_values [] values = []
secret_values (n ∷ ns) values =
    let rest = secret_values ns values in
    if value_of values n == "" then rest else value_of values n ∷ rest

unfoldable pub scrub_secrets : Engine → String → List String → String
scrub_secrets e t [] = t
scrub_secrets e t (v ∷ vs) =
    let t1 = e.replace_all t v redacted_mark in
    let t2 = e.replace_all t1 (e.escape_html v) redacted_mark in
    scrub_secrets e (e.replace_all t2 (e.escape_query v) redacted_mark) vs

-- The row that deliver inserts.
unfoldable pub pending_row : Subjects → Dispatch → String → ℕ → LogRow
pending_row s d id now = record {
  id = id;
  tenant_id = s.tenant_id;
  created_at = now;
  channel_id = d.channel.id;
  channel_type = d.channel.kind;
  template_id = d.template_id;
  template_key = d.template_key;
  recipient = d.recipient;
  rendered_subject = "";
  rendered_body = "";
  status = "pending";
  error = "";
  sender_kind = actor_kind s;
  sender_id = actor_id s;
  test = d.test;
  sent_at = none;
}

unfoldable pub mail_of : Dispatch → Output → Mail
mail_of d o = record {
  provider = d.channel.kind;
  platform = d.own;
  to = d.recipient;
  subject = o.subject;
  html_body = if d.channel.kind == "email" then o.body else "";
  text_body = if d.channel.kind == "email" then "" else o.body;
}

-- What the log keeps of the render.
unfoldable pub stored_output : Dispatch → Output
stored_output d = elim d.rendered [
  | err e ↦ record { subject = ""; body = "" }
  | ok (sent, stored) ↦ stored
]

unfoldable pub outcome_event : Subjects → String → String → String → String → Event
outcome_event s kind id outcome reason = record {
  kind = kind;
  tenant_id = s.tenant_id;
  actor_kind = actor_kind s;
  actor_id = actor_id s;
  subject_kind = "notification";
  subject_id = id;
  outcome = outcome;
  reason = reason;
}

module _ (x : Setup) where
  -- The provider's Send.
  abbrev pub hand : Settings → Mail → Act (Option Failure)
  hand settings mail w = (
    ok (x.providers.send (length w.mails) settings mail),
    record w { mails = w.mails ++ mail ∷ [] },
  )

  abbrev pub render_failure : Err → Failure
  render_failure e = record {
    reason = x.describe e;
    no_provider = false;
    retryable = x.transient e;
  }

  unfoldable pub attempt : Dispatch → Act (Option Failure)
  attempt d = elim d.rendered [
    | err e ↦ pure (some (render_failure e))
    | ok (sent, stored) ↦ hand d.settings (mail_of d sent)
  ]

  unfoldable pub failure_reason : Dispatch → Failure → String
  failure_reason d f =
      if f.no_provider
      then "no_provider"
      else scrub_secrets x.engine
          (scrub x.engine.replace_all x.base64 f.reason d.settings
            (x.providers.secrets d.channel.kind))
          d.secrets

  unfoldable pub finish : Subjects → Dispatch → LogRow → ℕ → Option Failure → Act LogView
  finish s d row at none = do
    let o = stored_output d
    st (set_log_outcome s.tenant_id row.id "sent" "" o.subject o.body (some at))
    emit (outcome_event s "notification_sent" row.id "ok" "")
    pure (log_view (with_outcome "sent" "" o.subject o.body (some at) row))
  finish s d row at (some f) = do
    let o = stored_output d
    let reason = failure_reason d f
    st (set_log_outcome s.tenant_id row.id "failed" reason o.subject o.body none)
    emit (outcome_event s "notification_failed" row.id "failed" (cut 120 (x.trim reason)))
    pure (record {
      row = with_outcome "failed" reason o.subject o.body none row;
      retryable = not f.no_provider && f.retryable;
    })

  unfoldable pub deliver : Subjects → Dispatch → ℕ → ℕ → Act LogView
  deliver s d now at = do
    id ← draw_id x.new_id
    st (insert_log (pending_row s d id now))
    f ← attempt d
    finish s d (pending_row s d id now) at f

  -- `limited, err := …; err != nil || limited`.
  abbrev pub allowed : Result Bool → Result (Unit {0})
  allowed (ok false) = ok tt
  allowed _ = err rate_limited

  unfoldable pub count_send : String → String → ℕ → ℕ → Act (Unit {0})
  count_send kind subject most now = elim x.limiter [
    | none ↦ pure tt
    | some limited ↦ (draw_seed >>= λ n. ask (λ _. allowed (limited n kind subject most now)))
  ]

  unfoldable pub limit : Subjects → ℕ → Act (Unit {0})
  limit s now = do
    count_send "tenant" s.tenant_id x.per_tenant now
    count_send "sender" (actor_id s) x.per_sender now
