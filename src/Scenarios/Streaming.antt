-- ===== src/Scenarios/Streaming.antt =====
-- internal/stream: runs of the hub, the in-process server and the rate limiter.
use go_tangra_notification.Prelude.{
  ℕ, ◌-◌, ◌≤◌, ◌<◌, true, false, none, some, List, [], ◌∷◌, String, ◌≡◌, refl, arith, map, select,
  take, drop, length, count, lookup, insert, split, cut_at, lacks, join, ok, pos,
}
use go_tangra_notification.Stream.Ids.{
  id_of_ms, parse_id, digit, format_digits, format_int, read_digits, read_uint, parse_int, id, less,
}
use go_tangra_notification.Stream.Ids.RoundTrip.{parse_id-id_of_ms}
use go_tangra_notification.Stream.Memory.{
  timed_out, Memory, stream_of, xadd, xrange, Entry, new_memory, memory_client, trimmed,
  entries_newer, entries_after, read_from, xread, xlast, xtrim_min_id,
}
use go_tangra_notification.Stream.Memory.Log.{LogCall, append_entry, rises, run_log, log_after}
use go_tangra_notification.Stream.Memory.Log.Requests.{in_time}
use go_tangra_notification.Stream.Memory.Log.Follow.{stream_of-drop, xrange_follows}
use go_tangra_notification.Stream.Limiter.{rate_key}
use go_tangra_notification.Stream.Limiter.Quota.{LimiterCall, let_through, let_through_lem}
use go_tangra_notification.Stream.Hub.{
  HubConfig, stream_key, new_hub, Subscription, with_defaults, replay_entries, TenantSub, event_of,
  push, targets,
}
use go_tangra_notification.Stream.Hub.Queue.{received, ids_of, rising}
use go_tangra_notification.Stream.Hub.Counts.{of_user}
use go_tangra_notification.Stream.Hub.Replay.{replay_entries_lem, is_for, ascending}
use go_tangra_notification.Stream.Hub.Isolation.{run_stream_foreign}
use go_tangra_notification.Stream.Hub.Streams.{
  find_stream, streams_of, fresh_stream, find_conn, set_conn, admit, store_stream, push_to,
  push_all, addressed, dispatch, move_cursor, dispatch_all, take_event,
}
use go_tangra_notification.Stream.Hub.Serve.{
  Live, StreamStep, run_stream, elsewhere, open_step, take_step, loop_step, open_stream, loop_round,
  stream_step,
}
use go_tangra_notification.Stream.Hub.Invariant.Steps.{
  after_steps, after_steps-IsServed, after_steps_rising,
}
use go_tangra_notification.Stream.Hub.Publish.{
  raw, publish_id, is_event_type, validate_type, prepare_event,
}
use go_tangra_notification.Stream.Hub.Publish.Reach.{IsPublished, publish_id-IsPublished}

parse_id-id_of_ms_example :
    parse_id (id_of_ms 1700000000123 7)
    ≡ record { ms = pos 1700000000123; seq = pos 7; good = true }
parse_id-id_of_ms_example = parse_id-id_of_ms 1700000000123 7 (omega arith) (omega arith)

abbrev limits : HubConfig
limits = record {
  replay_window = 0;
  streams_per_user = 2;
  streams_per_tenant = 3;
  max_len = 0;
  trim_interval = 0;
  read_block = 0;
  retry_delay = 0;
}

abbrev event_fields : List (String × String)
event_fields = ("to", "u,v") ∷ ("type", "note") ∷ ("data", "{}") ∷ []

-- Another instance of the service publishes.
abbrev publish_elsewhere : Memory → Memory
publish_elsewhere m = (xadd (stream_key "acme") event_fields 10000 m).1

abbrev stream_steps : List (StreamStep Memory)
stream_steps =
    open_step "acme" "u"
    ∷ elsewhere publish_elsewhere
    ∷ loop_step false "acme"
    ∷ take_step "acme" 0
    ∷ []

abbrev reader : Subscription
reader = record {
  user = "u";
  queue = [];
  taken = record { id = "1000-1"; kind = "note"; body = "{}" } ∷ [];
  last = "1000-1";
  closed = false;
}

abbrev acme : TenantSub
acme = record { conns = (0, reader) ∷ []; by_user = ("u", 1) ∷ []; cursor = "1000-1" }

acme_served :
    lookup "acme"
      (after_steps
        (memory_client timed_out)
        limits
        1000000000
        (new_memory 1000000000)
        stream_steps).tenants
    ≡ some acme
unfolding lookup insert split cut_at digit format_digits format_int read_digits read_uint parse_int
    parse_id id_of_ms id less stream_of trimmed xadd entries_newer entries_after read_from xread
    xrange xlast xtrim_min_id with_defaults new_hub push targets find_conn set_conn admit
    store_stream find_stream push_to push_all addressed dispatch move_cursor dispatch_all take_event
    open_stream loop_round stream_step run_stream
acme_served = refl

reader_served :
    find_stream "acme" 0
      (after_steps (memory_client timed_out) limits 1000000000 (new_memory 1000000000) stream_steps)
    ≡ some reader
unfolding lookup insert split cut_at digit format_digits format_int read_digits read_uint parse_int
    parse_id id_of_ms id less stream_of trimmed xadd entries_newer entries_after read_from xread
    xrange xlast xtrim_min_id with_defaults new_hub push targets find_conn set_conn admit
    store_stream find_stream push_to push_all addressed dispatch move_cursor dispatch_all take_event
    open_stream loop_round stream_step run_stream
reader_served = refl

after_steps-IsServed_example :
    (0 < length acme.conns)
    × (length acme.conns ≤ (with_defaults limits).streams_per_tenant)
    × ((user : String)
        → (streams_of user acme ≡ count (of_user user) acme.conns)
          × (streams_of user acme ≤ (with_defaults limits).streams_per_user))
after_steps-IsServed_example =
    after_steps-IsServed (memory_client timed_out) limits 1000000000 (new_memory 1000000000)
      stream_steps "acme" acme acme_served

after_steps_rising_example : (length reader.queue ≤ 32) × (rising (ids_of (received reader)) ≡ true)
after_steps_rising_example =
    after_steps_rising (memory_client timed_out) limits 1000000000 (new_memory 1000000000)
      stream_steps "acme" 0 reader reader_served

abbrev served : Live Memory
served = record {
  hub = record (new_hub limits 1000000000) { tenants = ("acme", acme) ∷ []; opened = 1 };
  server = new_memory 1000000000;
}

run_stream_foreign_example :
    lookup "acme"
      (run_stream
        (memory_client timed_out)
        (open_step "other" "u" ∷ loop_step true "other" ∷ [])
        served).hub.tenants
    ≡ lookup "acme" served.hub.tenants
run_stream_foreign_example =
    run_stream_foreign (memory_client timed_out) "acme"
      (open_step "other" "u" ∷ loop_step true "other" ∷ []) served refl

abbrev missed : List Entry
missed =
    record { id = "1000-1"; fields = event_fields }
    ∷ record { id = "1000-2"; fields = event_fields }
    ∷ []

replay_entries_lem_example :
    (replay_entries missed (fresh_stream "u")).queue
    ≡ take 32 (map event_of (select (is_for "u") missed))
unfolding ascending less parse_id cut_at parse_int read_uint read_digits
replay_entries_lem_example = replay_entries_lem missed (fresh_stream "u") refl refl refl refl refl

abbrev one_call : LimiterCall
one_call = record { kind = "send"; subject = "u"; limit = 2; at = 90000000000; down = none }

let_through_lem_example :
    let_through
      (rate_key "send" "u" 90000000000)
      timed_out
      (one_call ∷ one_call ∷ one_call ∷ [])
      (new_memory 0)
    ≡ 2
unfolding lookup rate_key format_int format_digits digit
let_through_lem_example =
    let_through_lem (rate_key "send" "u" 90000000000) timed_out 1 1
      (one_call ∷ one_call ∷ one_call ∷ []) (new_memory 0) refl refl

abbrev log_calls : List LogCall
log_calls =
    record { key = "k"; at = 1000000; down = none; request = append_entry event_fields 2 }
    ∷ record { key = "k"; at = 2000000; down = none; request = append_entry event_fields 2 }
    ∷ record { key = "k"; at = 3000000; down = none; request = append_entry event_fields 2 }
    ∷ []

abbrev log_server : Memory
log_server = run_log log_calls (new_memory 0)

abbrev log_entries : List Entry
log_entries = log_after "k" log_calls (new_memory 0) []

stream_of-drop_example :
    ((k : ℕ) × (k ≤ length log_entries) × (stream_of "k" log_server ≡ drop k log_entries))
    × (rises log_entries ≡ true)
unfolding in_time
stream_of-drop_example = stream_of-drop "k" 0 log_calls refl (omega arith)

abbrev log_entry : String → Entry
log_entry i = record { id = i; fields = event_fields }

xrange_follows_example :
    (k : ℕ) × (stream_of "k" log_server ≡ drop k log_entries)
    × ((xrange "k" "1-1" 10 log_server).0
        ≡ ok (take 10 (drop (k - 1) (log_entry "2-2" ∷ log_entry "3-3" ∷ []))))
unfolding in_time log_after run_log xadd stream_of trimmed insert lookup digit format_digits
    format_int read_digits read_uint parse_int parse_id id_of_ms id less
xrange_follows_example =
    xrange_follows "k" 0 log_calls refl (omega arith) [] (log_entry "1-1")
      (log_entry "2-2" ∷ log_entry "3-3" ∷ []) 9 refl refl

publish_id-IsPublished_example :
    IsPublished
      (λ s. true)
      ("u" ∷ "v" ∷ [])
      false
      "note"
      (raw "{}")
      "1000-1"
      (stream_of
        (stream_key "acme")
        (publish_id
          (memory_client timed_out)
          (λ s. true)
          (new_hub limits 1000000000)
          "acme"
          ("u" ∷ "v" ∷ [])
          false
          "note"
          (raw "{}")
          true
          (new_memory 1000000000)).1)
unfolding publish_id prepare_event validate_type is_event_type lacks join xadd new_hub with_defaults
    digit format_digits format_int read_digits read_uint parse_int parse_id id_of_ms id less
publish_id-IsPublished_example =
    publish_id-IsPublished timed_out (λ s. true) (new_hub limits 1000000000) "acme" ("u" ∷ "v" ∷ [])
      false "note" (raw "{}") true (new_memory 1000000000) "1000-1" refl (omega arith) refl
