-- ===== src/Stream/Hub/Publish.antt =====
-- internal/stream/hub.go: ValidateType and PublishID. `valid` is json.Valid. A text's characters stand
-- for its bytes, of which a payload has 16 KiB at most.
pub mod Reach
use Prim.Native.Char.{code}
use go_tangra_notification.Prelude.{
  ℕ, ◌+◌, ◌/◌, Bool, true, false, Option, none, some, List, [], ◌∷◌, String, ◌&&◌, ◌||◌, not,
  if◌then◌else◌, ltb, leb, nat_eq, ◌==◌, length, all, contains, Exec, Result, ok, err, Err,
  event_type, reserved, payload, join, lacks, is_digit, len, bind_result,
}
use go_tangra_notification.Stream.Ids.{format_int}
use go_tangra_notification.Stream.Memory.{Client}
use go_tangra_notification.Stream.Hub.{Hub, stream_key}

abbrev is_type_letter : ℕ → Bool
is_type_letter c = leb b'a' c && leb c b'z'

abbrev type_rest : String → Bool
type_rest String.[] = true
type_rest (String.◌∷◌ c s) =
    (is_type_letter (code c)
      || is_digit (code c)
      || nat_eq (code c) b'.'
      || nat_eq (code c) b'_'
      || nat_eq (code c) b'-')
    && type_rest s

-- `^[a-z][a-z0-9._-]{0,63}$`.
unfoldable pub is_event_type : String → Bool
is_event_type String.[] = false
is_event_type (String.◌∷◌ c s) = is_type_letter (code c) && type_rest s && leb (len s) 63

abbrev pub reserved_types : List String
reserved_types = "inbox" ∷ "inbox.revoked" ∷ "reset" ∷ "bye" ∷ []

-- `from_module` for the events of other modules, which may not use the reserved types.
unfoldable pub validate_type : String → Bool → Result (Unit {0})
validate_type kind from_module =
    if not (is_event_type kind)
    then err event_type
    else if from_module && contains reserved_types kind
    then err reserved
    else ok tt

-- The `any` that is published: nothing, bytes or a text, or a value with what json.Marshal makes of it.
pub data Payload : Type 0 where
  absent : Payload
  raw : String → Payload
  marshalled : Option String → Payload

abbrev pub raw_of : Payload → Result String
raw_of absent = ok "{}"
raw_of (raw s) = ok s
raw_of (marshalled none) = err payload
raw_of (marshalled (some s)) = ok s

abbrev pub max_payload : ℕ
max_payload = 16384

abbrev is_break : ℕ → Bool
is_break c = nat_eq c b'\n' || nat_eq c b'\r'

abbrev pub in_target : ℕ → Bool
in_target c = nat_eq c b',' || nat_eq c b' ' || nat_eq c b'\n'

abbrev pub checked_targets : List String → Bool → Result (Unit {0})
checked_targets to everyone =
    if (everyone && ltb 0 (length to))
      || (not everyone && not (ltb 0 (length to)))
      || ltb 1000 (length to)
    then err Err.targets
    else ok tt

abbrev pub checked_payload : (String → Bool) → String → Result String
checked_payload valid s =
    if ltb max_payload (len s) || not (valid s) || not (lacks is_break s) then err payload else ok s

-- The `to` field: `*`, or the ids between commas.
abbrev pub target_of : List String → Bool → Result String
target_of to everyone =
    if everyone
    then ok "*"
    else if all (λ u. not (u == "") && lacks in_target u) to
    then ok (join to)
    else err Err.targets

pub record Outgoing : Type 0 where
  pub target : String
  pub body : String

-- What PublishID checks before it adds the entry, in its order.
unfoldable pub prepare_event :
    (String → Bool) → List String → Bool → String → Payload → Bool → Result Outgoing
unfolding validate_type
prepare_event valid to everyone kind p from_module =
    bind_result (validate_type kind from_module) λ _. bind_result (checked_targets to everyone) λ _.
      bind_result (raw_of p) λ s. bind_result (checked_payload valid s) λ body.
        bind_result (target_of to everyone) λ target. ok (record { target = target; body = body })

abbrev pub added : {S : Type 0} → Client S → Hub → String → String → Result Outgoing → Exec S String
added c h tid kind (err e) s = (err e, s)
added c h tid kind (ok o) s =
    c.add (stream_key tid)
      (("to", o.target)
        ∷ ("type", kind)
        ∷ ("data", o.body)
        ∷ ("at", format_int (h.now / 1000000))
        ∷ [])
      h.cfg.max_len s

-- `PublishID`; Publish is this with `from_module` false, and drops the id.
unfoldable pub publish_id :
    {S : Type 0}
    → Client S
    → (String → Bool)
    → Hub
    → String
    → List String
    → Bool
    → String
    → Payload
    → Bool
    → Exec S String
publish_id c valid h tid to everyone kind p from_module s =
    added c h tid kind (prepare_event valid to everyone kind p from_module) s
