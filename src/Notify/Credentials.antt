-- ===== src/Notify/Credentials.antt =====
-- internal/sealed/sealed.go: credential fields between what is stored, what is shown, and what a
-- client sends back.
use go_tangra_notification.Prelude.{
  ◌≡◌, refl, true, false, Option, none, some, List, [], ◌∷◌, String, ◌||◌, not, if◌then◌else◌, ◌==◌,
  ==_iff, Bool-cases, sym, Option-cases, inl, inr, contains, lookup, lookup-insert, lookup-erase,
  arith,
}
use go_tangra_notification.Notify.Settings.{
  Value, Settings, text, marker, text_of, present, redact, redact_field, merge, merge_into,
  merge_field,
}

-- What is shown of a credential.
abbrev pub shown : Option Value → Option Value
shown none = none
shown (some v) = if text_of (some v) == "" then none else some (text marker)

shown-shown : (v : Option Value) → shown (shown v) ≡ shown v
shown-shown none = refl
shown-shown (some v) = ground arith

lookup-redact_field :
    (k f : String) (s : Settings)
    → lookup k (redact_field f s) ≡ (if f == k then shown (lookup k s) else lookup k s)
lookup-redact_field k f s =
    ground (arith, lookup-insert f k (text marker) s, lookup-erase f k s, ==_iff f k)

pub lookup-redact :
    (k : String) (s : Settings) (fs : List String)
    → lookup k (redact s fs) ≡ (if contains fs k then shown (lookup k s) else lookup k s)
unfolding redact
lookup-redact k s [] = refl
lookup-redact k s (f ∷ fs) = ground (
  arith,
  lookup-redact k (redact_field f s) fs,
  lookup-redact_field k f s,
  shown-shown (lookup k s),
)

-- What a round of Merge makes of a credential: from the stored, the incoming and the present value.
abbrev merged : Option Value → Option Value → Option Value → Option Value
merged old given now =
    if not (present given) || text_of given == marker
    then old
    else if text_of given == ""
    then none
    else now

lookup-merge_field :
    (k f : String) (stored incoming out : Settings)
    → lookup k (merge_field stored incoming f out) ≡ (
        if f == k
        then merged (lookup k stored) (lookup k incoming) (lookup k out)
        else lookup k out)
lookup-merge_field k f stored incoming out = elim (Option-cases (lookup f stored)) [
  | inl n ↦ ground (arith, n, lookup-erase f k out, ==_iff f k)
  | inr (v, n) ↦ ground (arith, n, lookup-erase f k out, lookup-insert f k v out, ==_iff f k)
]

merged-merged :
    (old given now : Option Value) → merged old given (merged old given now) ≡ merged old given now
merged-merged old given now = ground arith

pub lookup-merge_into :
    (k : String) (stored incoming : Settings) (fs : List String) (out : Settings)
    → lookup k (merge_into stored incoming fs out) ≡ (
        if contains fs k
        then merged (lookup k stored) (lookup k incoming) (lookup k out)
        else lookup k out)
unfolding merge_into
lookup-merge_into k stored incoming [] out = refl
lookup-merge_into k stored incoming (f ∷ fs) out = ground (
  arith,
  lookup-merge_into k stored incoming fs (merge_field stored incoming f out),
  lookup-merge_field k f stored incoming out,
  merged-merged (lookup k stored) (lookup k incoming) (lookup k out),
)

merged-shown : (v : Option Value) → merged v (shown v) (shown v) ≡ v
merged-shown none = refl
merged-shown (some v) = elim (Bool-cases (text_of (some v) == "")) [
  | inl e ↦ rw (e) refl
  | inr e ↦ rw (e) refl
]

shown_alike : (u v : Option Value) → (text_of u == "") ≡ (text_of v == "") → shown u ≡ shown v
shown_alike none none h = refl
shown_alike none (some v) h = rw (sym h) refl
shown_alike (some u) none h = rw (h) refl
shown_alike (some u) (some v) h = rw (h) refl

-- A client that sends back the settings that it was shown changes nothing: under every key the merge
-- of the stored settings with their redaction holds what was stored.
pub merge-redact :
    (stored : Settings) (fs : List String) (k : String)
    → lookup k (merge stored (redact stored fs) fs) ≡ lookup k stored
unfolding merge
merge-redact stored fs k = ground (
  arith,
  lookup-merge_into k stored (redact stored fs) fs (redact stored fs),
  lookup-redact k stored fs,
  merged-shown (lookup k stored),
)

-- What is shown of the settings depends on a credential field only through whether it holds a text
-- that is not empty: two settings that agree on every other field, and in whether each credential
-- field holds such a text, are shown alike under every key.
pub redact_blind :
    (a b : Settings) (fs : List String)
    → ((k : String) → contains fs k ≡ false → lookup k a ≡ lookup k b)
    → ((k : String)
        → contains fs k ≡ true
        → (text_of (lookup k a) == "") ≡ (text_of (lookup k b) == ""))
    → (k : String) → lookup k (redact a fs) ≡ lookup k (redact b fs)
redact_blind a b fs others secrets k = elim (Bool-cases (contains fs k)) [
  | inl c ↦ ground (
    arith,
    c,
    lookup-redact k a fs,
    lookup-redact k b fs,
    shown_alike (lookup k a) (lookup k b) (secrets k c),
  )
  | inr c ↦ ground (arith, c, lookup-redact k a fs, lookup-redact k b fs, others k c)
]
