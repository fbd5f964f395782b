-- ===== src/Audit/Guard.antt =====
-- internal/audit/audit.go: the guard of the details. `lower` is strings.ToLower. A detail is a text, by
-- its bytes, a map[string]any, a []any, or another value, of which the guard sees nothing. A pattern of
-- the markers takes the test of what follows it, so that a pattern in front of another is applied to
-- it; it works on the bytes, of which all that it names but one sign are ASCII.
pub mod Shapes
pub mod Clean
use Prim.Native.Char.{code}
use go_tangra_notification.Prelude.{
  ℕ, zero, suc, ◌+◌, ◌-◌, ◌≤◌, Bool, true, false, List, [], ◌∷◌, String, ◌&&◌, ◌||◌, not,
  if◌then◌else◌, ltb, leb, nat_eq, ◌==◌, ==_self, ==_iff, any, contains_text, length, take,
  is_digit, ◌≡◌, refl, arith, Bool-cases, inl, inr,
}

mutual
  pub data Detail : Type 0 where
    text : List ℕ → Detail
    object : DetailFields → Detail
    array : Details → Detail
    other : String → Detail

  pub data DetailFields : Type 0 where
    no_field : DetailFields
    field : String → Detail → DetailFields → DetailFields

  pub data Details : Type 0 where
    no_detail : Details
    detail : Detail → Details → Details

abbrev pub forbidden_keys : List String
forbidden_keys = "password" ∷ "secret" ∷ "token" ∷ "api_key" ∷ "body" ∷ "content" ∷ "settings" ∷ []

-- A test of the rest of a text, after what a pattern has taken of it.
abbrev pub Rest : Type 0
Rest = List ℕ → Bool

-- A pattern without anchors may begin at any byte.
unfoldable pub any_suffix : Rest → Rest
any_suffix p [] = p []
any_suffix p (c ∷ s) = p (c ∷ s) || any_suffix p s

abbrev pub is_upper : ℕ → Bool
is_upper c = leb b'A' c && leb c b'Z'

-- `(?i)` of an ASCII letter, given as a capital: its two cases.
abbrev pub fold_eq : ℕ → ℕ → Bool
fold_eq p c = nat_eq p c || (is_upper p && nat_eq (p + 32) c)

-- The last two of the three bytes of the Kelvin sign, which `(?i)` of K takes too.
abbrev pub kelvin_tail : Rest → Rest
kelvin_tail p (a ∷ b ∷ s) = nat_eq a 132 && nat_eq b 170 && p s
kelvin_tail p _ = false

-- `(?i)` of a text without the letter S.
unfoldable pub folded : String → Rest → Rest
folded String.[] p s = p s
folded (String.◌∷◌ a q) p [] = false
folded (String.◌∷◌ a q) p (c ∷ s) =
    let rest = folded q p s in
    (fold_eq (code a) c && rest)
    || (nat_eq (code a) b'K' && nat_eq c 226 && kelvin_tail (folded q p) s)

unfoldable pub plain : String → Rest → Rest
plain String.[] p s = p s
plain (String.◌∷◌ a q) p [] = false
plain (String.◌∷◌ a q) p (c ∷ s) = let rest = plain q p s in nat_eq (code a) c && rest

-- `f*`
unfoldable pub many : (ℕ → Bool) → Rest → Rest
many f p [] = p []
many f p (c ∷ s) = let rest = many f p s in p (c ∷ s) || (f c && rest)

-- `f{n,}`
unfoldable pub at_least : ℕ → (ℕ → Bool) → Rest → Rest
at_least zero f p s = many f p s
at_least (suc n) f p [] = false
at_least (suc n) f p (c ∷ s) = let rest = at_least n f p s in f c && rest

abbrev pub anything : Rest
anything s = true

-- `(?i)NOTIF-MARKER-(PW|BODY)-`
unfoldable pub secret_marker : Rest
secret_marker s =
    folded "NOTIF-MARKER-" (λ r. folded "PW-" anything r || folded "BODY-" anything r) s

-- `[A-Z ]`
abbrev pub is_upper_or_space : ℕ → Bool
is_upper_or_space c = is_upper c || nat_eq c b' '

-- `-----BEGIN [A-Z ]*PRIVATE KEY-----`
unfoldable pub key_marker : Rest
key_marker s = plain "-----BEGIN " (many is_upper_or_space (plain "PRIVATE KEY-----" anything)) s

-- `[A-Za-z0-9_-]`
abbrev pub is_base64url : ℕ → Bool
is_base64url c =
    is_upper c || (leb b'a' c && leb c b'z') || is_digit c || nat_eq c b'_' || nat_eq c b'-'

-- `eyJ[A-Za-z0-9_-]{4,}\.[A-Za-z0-9_-]{4,}\.[A-Za-z0-9_-]{3,}`
unfoldable pub token_marker : Rest
token_marker s =
    plain "eyJ"
      (at_least 4 is_base64url
        (plain "." (at_least 4 is_base64url (plain "." (at_least 3 is_base64url anything)))))
      s

unfoldable pub safe_string : List ℕ → Bool
safe_string s =
    not (any_suffix secret_marker s || any_suffix key_marker s || any_suffix token_marker s)

-- The bytes of an ASCII text.
unfoldable pub bytes_of : String → List ℕ
bytes_of String.[] = []
bytes_of (String.◌∷◌ c s) = code c ∷ bytes_of s

unfoldable pub redacted_text : List ℕ
unfolding bytes_of
redacted_text = bytes_of "[REDACTED]"

unfoldable pub guard_text : List ℕ → List ℕ
guard_text s =
    if not (safe_string s) then redacted_text else if ltb 256 (length s) then take 256 s else s

module _ (lower : String → String) where
  unfoldable pub is_forbidden : String → Bool
  is_forbidden k = any (λ f. contains_text (lower k) f) forbidden_keys

  unfoldable mutual
    unfolding is_forbidden

    pub guard : Detail → Detail
    guard (text s) = text (guard_text s)
    guard (object fs) = object (guard_fields fs)
    guard (array vs) = array (guard_all vs)
    guard (other js) = other js

    -- `guardKey` of each field.
    pub guard_fields : DetailFields → DetailFields
    guard_fields no_field = no_field
    guard_fields (field k v fs) =
        let kept = guard v in
        field k (if is_forbidden k then text redacted_text else kept) (guard_fields fs)

    pub guard_all : Details → Details
    guard_all no_detail = no_detail
    guard_all (detail v vs) = detail (guard v) (guard_all vs)
