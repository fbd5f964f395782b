-- ===== src/Stream/Ids.antt =====
-- internal/stream/client.go: the ids of stream entries, `<milliseconds>-<sequence>`, and their order;
-- strconv's decimal numbers as the source uses them. Times are nanoseconds since 1970.
pub mod RoundTrip
use Prim.Native.Char.{Char, code}
use Prim.Native.String.{◌++◌ as append}
use text.Mathlib.TextLemmas.{nil-append, cons-append}
use go_tangra_notification.Prelude.{
  ℕ, zero, suc, ◌+◌, ◌-◌, ◌*◌, ◌/◌, ◌%◌, ◌<◌, Bool, true, false, Option, none, some, String, ◌&&◌,
  ◌||◌, not, if◌then◌else◌, ltb, nat_eq, ◌≡◌, refl, arith, ℤ, pos, negsuc, ℤ_lt, ℤ_eq, is_digit,
  cut_at, lacks, cons_ne, ◌==◌, ap,
}

unfoldable pub digit : ℕ → Char
digit zero = "0"
digit (suc zero) = "1"
digit (suc (suc zero)) = "2"
digit (suc (suc (suc zero))) = "3"
digit (suc (suc (suc (suc zero)))) = "4"
digit (suc (suc (suc (suc (suc zero))))) = "5"
digit (suc (suc (suc (suc (suc (suc zero)))))) = "6"
digit (suc (suc (suc (suc (suc (suc (suc zero))))))) = "7"
digit (suc (suc (suc (suc (suc (suc (suc (suc zero)))))))) = "8"
digit _ = "9"

code-digit : (n : ℕ) → n < 10 → code (digit n) ≡ 48 + n
unfolding digit
code-digit zero h = refl
code-digit (suc zero) h = refl
code-digit (suc (suc zero)) h = refl
code-digit (suc (suc (suc zero))) h = refl
code-digit (suc (suc (suc (suc zero)))) h = refl
code-digit (suc (suc (suc (suc (suc zero))))) h = refl
code-digit (suc (suc (suc (suc (suc (suc zero)))))) h = refl
code-digit (suc (suc (suc (suc (suc (suc (suc zero))))))) h = refl
code-digit (suc (suc (suc (suc (suc (suc (suc (suc zero)))))))) h = refl
code-digit (suc (suc (suc (suc (suc (suc (suc (suc (suc zero))))))))) h = refl
code-digit (suc (suc (suc (suc (suc (suc (suc (suc (suc (suc n)))))))))) h = omega (arith, h)

-- The digits before `rest`. A number has fewer digits than the fuel where it is below it.
unfoldable pub format_digits : ℕ → ℕ → String → String
format_digits zero n rest = rest
format_digits (suc f) n rest =
    let more = format_digits f (n / 10) (String.◌∷◌ (digit (n % 10)) rest) in
    if ltb n 10 then String.◌∷◌ (digit n) rest else more

-- `strconv.FormatInt(n, 10)` of a number that is not negative.
unfoldable pub format_int : ℕ → String
format_int n = format_digits (suc n) n ""

-- The loop of strconv.ParseUint: `none` for a character that is no digit; a number that passes 64
-- bits ends the loop at the largest value, whatever follows.
unfoldable pub read_digits : ℕ → String → Option ℕ
read_digits n String.[] = some n
read_digits n (String.◌∷◌ c s) =
    let next = n * 10 + (code c - 48) in
    let rest = read_digits next s in
    if not (is_digit (code c))
    then none
    else if ltb 18446744073709551615 next
    then some 18446744073709551615
    else rest

unfoldable pub read_uint : String → Option ℕ
read_uint s = if s == "" then none else read_digits 0 s

-- What a parser gives: a value, and whether there was no error.
pub record Parsed : Type 0 where
  pub value : ℤ
  pub good : Bool

-- -n
abbrev pub minus : ℕ → ℤ
minus zero = pos 0
minus (suc n) = negsuc n

abbrev clamp : Bool → Option ℕ → Parsed
clamp negative none = record { value = pos 0; good = false }
clamp false (some n) =
    if ltb n 9223372036854775808
    then record { value = pos n; good = true }
    else record { value = pos 9223372036854775807; good = false }
clamp true (some n) =
    if ltb 9223372036854775808 n
    then record { value = minus 9223372036854775808; good = false }
    else record { value = minus n; good = true }

-- `strconv.ParseInt(s, 10, 64)`: a number out of range is read as the nearest in range.
unfoldable pub parse_int : String → Parsed
parse_int String.[] = record { value = pos 0; good = false }
parse_int (String.◌∷◌ c s) =
    if nat_eq (code c) b'+'
    then clamp false (read_uint s)
    else if nat_eq (code c) b'-'
    then clamp true (read_uint s)
    else clamp false (read_uint (String.◌∷◌ c s))

pub record Parts : Type 0 where
  pub ms : ℤ
  pub seq : ℤ
  pub good : Bool

unfoldable pub parse_id : String → Parts
parse_id text = elim (cut_at b'-' text) [
  | none ↦ record { ms = pos 0; seq = pos 0; good = false }
  | some (a, b) ↦ record {
    ms = (parse_int a).value;
    seq = (parse_int b).value;
    good = (parse_int a).good && (parse_int b).good;
  }
]

-- An id of a time in milliseconds.
unfoldable pub id_of_ms : ℕ → ℕ → String
id_of_ms ms seq = append (format_int ms) (append "-" (format_int seq))

unfoldable pub id : ℕ → ℕ → String
id at seq = id_of_ms (at / 1000000) seq

abbrev pub less_parts : Parts → Parts → Bool
less_parts a b = if ℤ_eq a.ms b.ms then ℤ_lt a.seq b.seq else ℤ_lt a.ms b.ms

unfoldable pub less : String → String → Bool
less a b = less_parts (parse_id a) (parse_id b)

ℤ_lt_trans : (a b c : ℤ) → ℤ_lt a b ≡ true → ℤ_lt b c ≡ true → ℤ_lt a c ≡ true
ℤ_lt_trans (pos a) (pos b) (pos c) h k = ground arith
ℤ_lt_trans (pos a) (pos b) (negsuc c) h k = ground arith
ℤ_lt_trans (pos a) (negsuc b) c h k = cc
ℤ_lt_trans (negsuc a) (pos b) (pos c) h k = ground arith
ℤ_lt_trans (negsuc a) (pos b) (negsuc c) h k = cc
ℤ_lt_trans (negsuc a) (negsuc b) (pos c) h k = ground arith
ℤ_lt_trans (negsuc a) (negsuc b) (negsuc c) h k = ground arith

ℤ_eq_to : (a b : ℤ) → ℤ_eq a b ≡ true → a ≡ b
ℤ_eq_to (pos a) (pos b) h = ap pos (ground arith)
ℤ_eq_to (pos a) (negsuc b) h = cc
ℤ_eq_to (negsuc a) (pos b) h = cc
ℤ_eq_to (negsuc a) (negsuc b) h = ap negsuc (ground arith)

ℤ_eq_self : (a : ℤ) → ℤ_eq a a ≡ true
ℤ_eq_self (pos a) = ground arith
ℤ_eq_self (negsuc a) = ground arith

ℤ_lt_self : (a : ℤ) → ℤ_lt a a ≡ false
ℤ_lt_self (pos a) = ground arith
ℤ_lt_self (negsuc a) = ground arith

pub less_trans : (a b c : String) → less a b ≡ true → less b c ≡ true → less a c ≡ true
unfolding less
less_trans a b c h k = ground (
  arith,
  h,
  k,
  ℤ_lt_trans (parse_id a).ms (parse_id b).ms (parse_id c).ms,
  ℤ_lt_trans (parse_id a).seq (parse_id b).seq (parse_id c).seq,
  ℤ_eq_to (parse_id a).ms (parse_id b).ms,
  ℤ_eq_to (parse_id b).ms (parse_id c).ms,
  ℤ_eq_to (parse_id a).ms (parse_id c).ms,
  ℤ_eq_self (parse_id a).ms,
  ℤ_lt_self (parse_id a).ms,
  ℤ_lt_self (parse_id b).ms,
)

pub less_self : (a : String) → less a a ≡ false
unfolding less
less_self a = ground (arith, ℤ_lt_self (parse_id a).seq, ℤ_lt_self (parse_id a).ms)
