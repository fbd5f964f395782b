-- ===== src/Scenarios/Settings.antt =====
-- internal/sealed, internal/render, internal/notify: settings, secrets and texts at concrete values.
use Prim.Native.String.{String}
use go_tangra_notification.Prelude.{
  ℕ, zero, suc, ◌≡◌, refl, subst, len, leb, insert, true, false, Option, none, some, List, [], ◌∷◌,
  ◌==◌, ==_iff, ◌&&◌, ◌++◌, ltb, length, drop, nat_eq, contains, lookup, Table, ok, arith,
  if◌then◌else◌,
}
use go_tangra_notification.Store.{Channel}
use go_tangra_notification.Messages.Cursor.{no_bar}
use go_tangra_notification.Notify.Settings.{
  Settings, Value, text, number, other, Codec, Aead, text_of, merge, redact,
}
use go_tangra_notification.Notify.Credentials.{merge-redact, redact_blind}
use go_tangra_notification.Notify.Channels.{Providers, valid_type}
use go_tangra_notification.Notify.Render.{
  Output, Compiled, Engine, value_of, render, render_redacted, masked, any_secret, scrub_list,
  scrub_text, first_missing, redacted_mark,
}
use go_tangra_notification.Notify.Blind.{ByName, SameButSecrets, Short, render_redacted_blind}
use go_tangra_notification.Notify.SystemKey.{is_service, service_rest}
use go_tangra_notification.Notify.Namespace.{no_slash}

abbrev relay : Settings
relay = ("host", text "mx") ∷ ("password", text "pw") ∷ []

abbrev other_relay : Settings
other_relay = ("host", text "mx") ∷ ("password", text "secret") ∷ []

merge-redact_example :
    lookup "password" (merge relay (redact relay ("password" ∷ [])) ("password" ∷ []))
    ≡ lookup "password" relay
merge-redact_example = merge-redact relay ("password" ∷ []) "password"

same_others :
    (k : String) → contains ("password" ∷ []) k ≡ false → lookup k relay ≡ lookup k other_relay
unfolding lookup
same_others k c = ground (arith, c, ==_iff "password" k)

-- What holds of the only name of a list holds of every name in it.
only : (P : String → Type 0) (a k : String) → contains (a ∷ []) k ≡ true → P a → P k
only P a k c x = subst P (ground (arith, c, ==_iff a k)) x

same_held :
    (k : String)
    → contains ("password" ∷ []) k ≡ true
    → (text_of (lookup k relay) == "") ≡ (text_of (lookup k other_relay) == "")
unfolding lookup
same_held k c =
    only (λ k. (text_of (lookup k relay) == "") ≡ (text_of (lookup k other_relay) == "")) "password"
      k c refl

redact_blind_example :
    lookup "password" (redact relay ("password" ∷ []))
    ≡ lookup "password" (redact other_relay ("password" ∷ []))
redact_blind_example =
    redact_blind relay other_relay ("password" ∷ []) same_others same_held "password"

-- A codec for three fields, two bytes for each; it reads them in the opposite order.
abbrev pub field_bytes : String → Value → Option (List ℕ)
field_bytes k (number n) = if k == "port" then some (0 ∷ n ∷ []) else none
field_bytes k (text t) =
    if k == "host" && t == "mx"
    then some (1 ∷ 0 ∷ [])
    else if k == "password" && t == "pw"
    then some (2 ∷ 0 ∷ [])
    else if k == "password" && t == "__set__"
    then some (2 ∷ 1 ∷ [])
    else none
field_bytes k (other t) = none

abbrev joined : Option (List ℕ) → Option (List ℕ) → Option (List ℕ)
joined (some a) (some b) = some (a ++ b)
joined _ _ = none

abbrev pub marshal_fields : Settings → Option (List ℕ)
marshal_fields [] = some []
marshal_fields ((k, v) ∷ s) = joined (field_bytes k v) (marshal_fields s)

abbrev read_field : ℕ → ℕ → String × Value
read_field k n =
    if nat_eq k 0
    then ("port", number n)
    else if nat_eq k 1
    then ("host", text "mx")
    else ("password", text (if nat_eq n 0 then "pw" else "__set__"))

abbrev pub read_fields : List ℕ → Settings → Option Settings
read_fields [] s = some s
read_fields (k ∷ []) s = none
read_fields (k ∷ n ∷ b) s = read_fields b (read_field k n ∷ s)

abbrev pub zeros : ℕ → List ℕ
zeros zero = []
zeros (suc n) = 0 ∷ zeros n

-- A stand-in for GCM, with a tag of zeros in front of the text.
abbrev pub tagged : Aead
tagged = record {
  nonce_size = 12;
  overhead = 16;
  seal = λ n t ad. zeros 16 ++ t;
  unseal = λ n b ad. if ltb (length b) 16 then none else some (drop 16 b);
}

abbrev pub codec : Codec
codec = record {
  marshal = marshal_fields;
  unmarshal = λ b. read_fields b [];
  kek = tagged;
  gcm = λ dek. tagged;
  random = λ seed i n. ok (zeros n);
}

abbrev pub providers : Providers
providers = record {
  known = valid_type;
  platform = false;
  validate = λ own kind s. none;
  secrets = λ kind. if kind == "email" then "password" ∷ [] else [];
  send = λ n s mail. none;
}

abbrev pub mailer : Channel
mailer = record {
  id = "c";
  tenant_id = "acme";
  name = "Mail";
  kind = "email";
  settings_sealed = zeros 12 ++ (zeros 48 ++ (zeros 12 ++ (zeros 16 ++ (0 ∷ 25 ∷ []))));
  settings_public = 0 ∷ 25 ∷ [];
  enabled = true;
  is_default = true;
  managed = false;
  created_by = some "ann";
  updated_by = some "ann";
  created_at = 1;
  updated_at = 1;
  template_count = 0;
}

-- A template that shows the link.
abbrev pub link_template : Compiled
link_template = record {
  refs = "link" ∷ [];
  execute = λ t. ok (record { subject = "Hello"; body = value_of t "link" });
}

abbrev pub engine : Engine
engine = record {
  compile = λ subject body html. ok link_template;
  escape_html = λ t. t;
  escape_query = λ t. t;
  replace_all = λ t old new. t;
}

by_name : ByName link_template
unfolding value_of
by_name t u h = ground (arith, h "link")

abbrev one_link : Table String
one_link = ("link", "abc") ∷ []

abbrev other_link : Table String
other_link = ("link", "xyz") ∷ []

links : SameButSecrets one_link other_link ("link" ∷ [])
unfolding lookup value_of
links k = (
  λ c. ground (arith, c),
  λ c. (
    only (λ k. (value_of one_link k == "") ≡ (value_of other_link k == "")) "link" k c refl,
    λ e.
        only (λ k. value_of one_link k == "" ≡ true → lookup k one_link ≡ lookup k other_link)
          "link" k c (λ e. cc) e,
  ),
)

one_link-Short : Short one_link ("link" ∷ [])
unfolding lookup value_of
one_link-Short k c = only (λ k. leb 8 (len (value_of one_link k)) ≡ false) "link" k c refl

other_link-Short : Short other_link ("link" ∷ [])
unfolding lookup value_of
other_link-Short k c = only (λ k. leb 8 (len (value_of other_link k)) ≡ false) "link" k c refl

abbrev hidden : Output
hidden = record { subject = "Hello"; body = redacted_mark }

abbrev shown : String → Output
shown link = record { subject = "Hello"; body = link }

abbrev from_one : Output × Output
from_one = (shown "abc", hidden)

abbrev from_other : Output × Output
from_other = (shown "xyz", hidden)

one_any : any_secret one_link ("link" ∷ []) ≡ true
unfolding any_secret value_of lookup
one_any = refl

other_any : any_secret other_link ("link" ∷ []) ≡ true
unfolding any_secret value_of lookup
other_any = refl

one_rendered : render_redacted engine link_template one_link ("link" ∷ []) ≡ ok from_one
unfolding render_redacted render masked any_secret scrub_list scrub_text first_missing value_of
    lookup insert
one_rendered = refl

other_rendered : render_redacted engine link_template other_link ("link" ∷ []) ≡ ok from_other
unfolding render_redacted render masked any_secret scrub_list scrub_text first_missing value_of
    lookup insert
other_rendered = refl

render_redacted_blind_example : from_one.1 ≡ from_other.1
render_redacted_blind_example =
    render_redacted_blind engine link_template one_link other_link ("link" ∷ []) by_name links
      one_link-Short other_link-Short one_any other_any from_one from_other one_rendered
      other_rendered

abbrev unary : ℕ → String
unary zero = "0"
unary (suc n) = String.◌∷◌ "1" (unary n)

abbrev read_unary : String → Option ℕ
read_unary t = if t == "110" then some 2 else none

no_bar-unary : no_bar (unary 2) ≡ true
unfolding no_bar
no_bar-unary = refl

no_slash_here : no_slash "mesh" ≡ true
unfolding no_slash
no_slash_here = refl

auth_service : is_service "auth" ≡ true
unfolding is_service service_rest
auth_service = refl
