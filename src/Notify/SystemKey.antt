-- ===== src/Notify/SystemKey.antt =====
-- internal/notify/systemkey.go: the keys of system templates, `<service>.<name>`, and the service
-- that a mesh identity names. A text's characters stand for its bytes.
use Prim.Native.Char.{Char, code}
use go_tangra_notification.Prelude.{
  is_digit, cut_at, Bool, true, false, Option, none, some, String, len, ◌&&◌, ◌||◌, if◌then◌else◌,
  ◌==◌, nat_eq, leb,
}

abbrev pub is_lower : Char → Bool
is_lower c = leb 97 (code c) && leb (code c) 122

-- `[a-z0-9]*`.
unfoldable pub service_rest : String → Bool
service_rest String.[] = true
service_rest (String.◌∷◌ c s) = (is_lower c || is_digit (code c)) && service_rest s

-- `^[a-z][a-z0-9]*$`.
unfoldable pub is_service : String → Bool
is_service String.[] = false
is_service (String.◌∷◌ c s) = is_lower c && service_rest s

abbrev name_rest : String → Bool
name_rest String.[] = true
name_rest (String.◌∷◌ c s) = (is_lower c || is_digit (code c) || nat_eq (code c) 95) && name_rest s

-- `^[a-z][a-z0-9_]{0,62}$`.
unfoldable pub is_key_name : String → Bool
is_key_name String.[] = false
is_key_name (String.◌∷◌ c s) = is_lower c && name_rest s && leb (len s) 62

-- `strings.CutPrefix`.
unfoldable pub cut_prefix : String → String → Option String
cut_prefix String.[] s = some s
cut_prefix (String.◌∷◌ p ps) String.[] = none
cut_prefix (String.◌∷◌ p ps) (String.◌∷◌ c s) =
    let rest = cut_prefix ps s in if nat_eq (code p) (code c) then rest else none

-- A service has no dot in it, so the pattern's dot is the key's first.
unfoldable pub valid_key : String → Bool
unfolding cut_at is_service is_key_name
valid_key key = elim (cut_at b'.' key) [
  | none ↦ false
  | some (service, name) ↦ is_service service && is_key_name name
]

unfoldable pub key_service : String → String
unfolding valid_key cut_at
key_service key =
    if valid_key key
    then elim (cut_at b'.' key) [ none ↦ key | some (service, name) ↦ service ]
    else ""

abbrev named_service : Option String → Option String
named_service none = none
named_service (some name) = if is_service name then some name else none

-- `spiffe://<trust domain>/svc/<name>`.
unfoldable pub service_from_spiffe : String → Option String
service_from_spiffe id = elim (cut_prefix "spiffe://" id) [
  | none ↦ none
  | some rest ↦ elim (cut_at b'/' rest) [
    | none ↦ none
    | some (domain, path) ↦ if domain == "" then none else named_service (cut_prefix "svc/" path)
  ]
]
