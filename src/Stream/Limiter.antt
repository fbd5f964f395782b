-- ===== src/Stream/Limiter.antt =====
-- internal/stream/client.go: the rate limiter, one counter for each kind, subject and minute.
pub mod Quota
use Prim.Native.String.{◌++◌ as append}
use go_tangra_notification.Prelude.{
  ℕ, zero, suc, ◌/◌, Bool, true, false, Option, none, some, String, ltb, Result, ok, err, Err,
}
use go_tangra_notification.Stream.Ids.{format_int}
use go_tangra_notification.Stream.Memory.{Client}

-- A window is a minute of the clock; `at` is in nanoseconds.
abbrev pub minute_of : ℕ → ℕ
minute_of at = at / 60000000000

unfoldable pub rate_key : String → String → ℕ → String
rate_key kind subject at =
    append "notif:rl:"
      (append kind (append ":" (append subject (append ":" (format_int (minute_of at))))))

-- The source's `(bool, error)`: an answer stands beside the error too.
pub record Answer : Type 0 where
  pub refused : Bool
  pub failed : Option Err

abbrev pub answer_of : ℕ → Result ℕ → Answer
answer_of limit (ok n) = record { refused = ltb limit n; failed = none }
answer_of limit (err e) = record { refused = true; failed = some e }

abbrev pub window_ttl : ℕ
window_ttl = 120000000000

-- A limit of 0 (or below, in the source) is none.
abbrev pub limited : {S : Type 0} → Client S → String → String → ℕ → ℕ → S → Answer × S
limited c kind subject zero at s = (record { refused = false; failed = none }, s)
limited c kind subject (suc n) at s =
    let r = c.bump (rate_key kind subject at) window_ttl s in (answer_of (suc n) r.0, r.1)
