-- ===== src/Lib.antt =====
-- A model of the core of the notification service, with theorems about it.
--
-- Parts. The store (internal/memstore/memstore.go, over the rows of internal/store/models.go) keeps
-- channels, templates, the delivery log, grants, categories, messages and inbox deliveries. The
-- evaluator (internal/authz) decides from the grants what a caller may do with a channel or a
-- template, and lets callers grant and revoke. The notification services (internal/notify) keep
-- channels with sealed settings (internal/sealed) and templates (rendered by internal/render), and
-- send: a send passes its checks, writes a pending entry to the log, renders, hands the mail to the
-- channel's provider and finishes the entry. The message service (internal/messages/messages.go)
-- takes messages from draft to archive and fans them out to the recipients' inboxes; the scheduler
-- (internal/messages/scheduler.go) claims the messages that are due and publishes them; the inbox
-- (internal/inbox/inbox.go) is a recipient's view of the deliveries. The services call the store;
-- they emit audit events and live events, and hand mails to providers, all of which the model of
-- the services keeps as lists in the order of emission. What becomes of the events is modelled
-- apart: the audit writer (internal/audit/audit.go) checks, redacts and queues the audit events,
-- and the hub (internal/stream/hub.go) puts live events on a stream for each tenant and feeds the
-- open streams of the users from it; the in-process server under it (internal/stream/client.go)
-- also counts for the rate limiter.
--
-- Files.
--   Prelude (Tests, Lists, Maps, Effects, Quantify, Texts, Appends): numbers, tests, tables,
--     texts, lists, and the monad of fallible state-passing calls.
--   Store: the row types. Message and delivery statuses, texts in the source, are enumerations.
--   Memstore (Owned, Grants, Channels, Templates, Logs, Categories, Messages, Inbox): one function
--     for each method of the in-memory store. Injected failures are the table `fail`; the clock is
--     the field `now`. Memstore/Defaults is about default channels and Memstore/Finality about the
--     entries of the log.
--   World: the store with the ids drawn, the audit events, the live events and the mails.
--     World/Relates and World/Holds give the rules by which a block of calls relates the stores
--     before and after, or keeps a property of the store.
--   Authz/Decide, Authz/Check, Authz/Grants: the functions of internal/authz/authz.go and
--     internal/authz/grants.go; Authz/Soundness, Escalation, Granting, Listing: proofs about them.
--   Notify/Settings, Envelope: internal/sealed/sealed.go. Notify/Channels, Manage,
--     Platform: internal/notify/channels.go and platform.go. Notify/Render: internal/render.
--     Notify/Templates, Preview, Seed, SystemKey: internal/notify/templates.go, systemtemplates.go
--     and systemkey.go. Notify/Deliver, Send, SystemSend, Log: internal/notify/send.go. The proofs:
--     Credentials and Sealing about settings, Blind about secrets in the log, Defaults about
--     default channels, Survival and Wording about system templates, Outcome about deliveries,
--     Checks, Passing, Gates and Namespace about what a send has passed, Complete about a send that
--     passes, Scope about who sees the log.
--   Messages/Input, Cursor, Publish, Categories, Service, Scheduler: the functions of
--     internal/messages. Messages/Steps is the abstract machine of a tenant's messages,
--     Messages/Refines relates the operations to its steps, Messages/Lifecycle is about the steps,
--     and Messages/Calls joins the two for sequences of calls. Messages/Delivery is
--     about the deliveries of a publication, Revocation about Revoke, Refusals about callers and
--     statuses that are turned away, Leases about the claims of the scheduler, Validation about the
--     input.
--   Inbox: the functions of internal/inbox/inbox.go; Inbox/Scope and Inbox/Own: whom they reach.
--   Stream/Ids, Memory, Limiter: internal/stream/client.go; Stream/Hub with Hub/Streams, Serve and
--     Publish: internal/stream/hub.go. Stream/Memory/Log compares a stream with the log of all its
--     entries, Limiter/Quota counts what a window lets through, Hub/Queue, Counts and Invariant are
--     about the steps of the hub, Hub/Replay about reconnecting readers, Hub/Isolation about other
--     tenants, and Publish/Reach about whom a publication is for.
--   Audit, Audit/Guard, Audit/Writer: internal/audit/audit.go; Guard/Shapes, Guard/Clean and Rows:
--     what the guard lets through; Writer/Once and Drained: what becomes of the rows.
--   Scenarios: concrete runs.
--
-- Correspondence. A method returns its result with the changed store, and an error leaves what was
-- written before it. A Go map is an association list, whose order stands for the order of a
-- `range`. Times are numbers of nanoseconds, 0 for the zero time. `new_id` is the sequence of the
-- ids that store.NewID gives, and a Directory is the auth service's answers; both are parameters.
-- The loop over the batches of a fan-out runs on fuel, the length of the list, and each round takes
-- at least one recipient.
-- The goroutines of the hub, its readers and the audit writer are sequences of steps: one for each
-- stretch of code under a lock, except that a round of a tenant's loop, which takes the locks anew
-- for each of the entries that it read, is one step. A subscription is kept where the hub keeps its
-- pointer. The loop that Close waits for runs on fuel, one turn for each queued row and one more.
-- A text's characters stand for its bytes; in the details of audit events it is its bytes. The
-- lower-casing of names (`lower`) is a parameter, and so are the providers (Providers), the
-- template packages and text functions of the library (Engine), JSON, the ciphers and the random
-- source (Codec), the rate limiter and what else the sender calls (Setup). A parameter that may
-- answer differently each time takes the number of the call.
--
-- Not modelled: the SQL store (text run by PostgreSQL; the in-memory store keeps its contract), the
-- parsing and execution of templates, the ciphers, the e-mail transport, the network side of the
-- live streams (SSE, Valkey), queries of the audit rows, the HTTP and gRPC adapters, configuration
-- and start-up, transfer, statistics, and the listings that stand on the external listquery
-- package. Mutual exclusion is assumed: each call of the store is one step.
pub mod Prelude
pub mod Store
pub mod Memstore
pub mod World
pub mod Authz
pub mod Messages
pub mod Inbox
pub mod Notify
pub mod Stream
pub mod Audit
pub mod Scenarios
