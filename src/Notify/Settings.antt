-- ===== src/Notify/Settings.antt =====
-- internal/sealed/sealed.go: a channel's settings, and what is shown, kept and scrubbed of them.
use Prim.Native.String.{◌++◌ as append}
use Prim.Native.Char.{code}
use go_tangra_notification.Prelude.{
  ℕ, zero, suc, Bool, true, false, Option, none, some, List, [], ◌∷◌, String, ◌||◌, not,
  if◌then◌else◌, ◌==◌, ltb, nat_eq, length, Table, lookup, insert, erase, Result, ok, err, injected,
  settings_size,
}

-- A JSON value: a text, a number, or the text of any other value.
pub data Value : Type 0 where
  text : String → Value
  number : ℕ → Value
  other : String → Value

abbrev pub Settings : Type 0
Settings = Table Value

abbrev pub marker : String
marker = "__set__"

abbrev pub max_settings_bytes : ℕ
max_settings_bytes = 8192

-- `str, _ := v.(string)`.
abbrev pub text_of : Option Value → String
text_of (some (text s)) = s
text_of _ = ""

abbrev pub present : Option Value → Bool
present none = false
present (some v) = true

abbrev pub redact_field : String → Settings → Settings
redact_field f s =
    if present (lookup f s)
    then (if text_of (lookup f s) == "" then erase f s else insert f (text marker) s)
    else s

unfoldable pub redact : Settings → List String → Settings
redact s [] = s
redact s (f ∷ fs) = redact (redact_field f s) fs

unfoldable pub public : Settings → List String → Settings
public s [] = s
public s (f ∷ fs) = public (erase f s) fs

-- One round of Merge on the credential field.
abbrev pub merge_field : Settings → Settings → String → Settings → Settings
merge_field stored incoming f out =
    let given = text_of (lookup f incoming) in
    if not (present (lookup f incoming)) || given == marker
    then elim (lookup f stored) [ none ↦ erase f out | some old ↦ insert f old out ]
    else if given == ""
    then erase f out
    else out

unfoldable pub merge_into : Settings → Settings → List String → Settings → Settings
merge_into stored incoming [] out = out
merge_into stored incoming (f ∷ fs) out =
    merge_into stored incoming fs (merge_field stored incoming f out)

unfoldable pub merge : Settings → Settings → List String → Settings
merge stored incoming fs = merge_into stored incoming fs incoming

-- The text before the first line break.
unfoldable pub first_line : String → String
first_line String.[] = ""
first_line (String.◌∷◌ c s) =
    let rest = String.◌∷◌ c (first_line s) in
    if nat_eq (code c) 10 || nat_eq (code c) 13 then "" else rest

-- `s[:n]`.
unfoldable pub cut : ℕ → String → String
cut zero s = ""
cut (suc n) String.[] = ""
cut (suc n) (String.◌∷◌ c s) = String.◌∷◌ c (cut n s)

-- `replace_all` is strings.ReplaceAll, with the text first, and `base64` the standard encoding.
module _ (replace_all : String → String → String → String) (base64 : String → String) where
  abbrev scrub_value : String → String → String
  scrub_value t v =
      let t' = replace_all t v "[REDACTED]" in
      if base64 v == "" then t' else replace_all t' (base64 v) "[REDACTED]"

  unfoldable pub scrub_fields : String → Settings → List String → String
  scrub_fields t stored [] = t
  scrub_fields t stored (f ∷ fs) =
      let v = text_of (lookup f stored) in
      scrub_fields (if v == "" then t else scrub_value t v) stored fs

  unfoldable pub scrub : String → Settings → List String → String
  scrub t stored fs = cut 1024 (scrub_fields (first_line t) stored fs)

-- cipher.AEAD under some key: the sizes, and Seal and Open of a nonce, a text and associated data.
pub record Aead : Type 0 where
  pub nonce_size : ℕ
  pub overhead : ℕ
  pub seal : List ℕ → List ℕ → String → List ℕ
  pub unseal : List ℕ → List ℕ → String → Option (List ℕ)

-- `marshal` and `unmarshal` are encoding/json's, `kek` the AEAD of the master key, and `gcm` what
-- crypto/aes and crypto/cipher make of a key. `random` is io.ReadFull on the random source: of a
-- seal, by its number, the reads by theirs, and how many bytes are asked for.
pub record Codec : Type 0 where
  pub marshal : Settings → Option (List ℕ)
  pub unmarshal : List ℕ → Option Settings
  pub kek : Aead
  pub gcm : List ℕ → Aead
  pub random : ℕ → ℕ → ℕ → Result (List ℕ)

unfoldable pub associated : String → String
associated id = append "channel:" id

module _ (c : Codec) where
  unfoldable pub encode : Settings → Result (List ℕ)
  encode s = elim (c.marshal s) [
    | none ↦ err (injected "json")
    | some b ↦ if ltb max_settings_bytes (length b) then err settings_size else ok b
  ]

  unfoldable pub decode : List ℕ → Result Settings
  decode b =
      if ltb max_settings_bytes (length b)
      then err settings_size
      else elim (c.unmarshal b) [ none ↦ err (injected "json") | some s ↦ ok s ]
