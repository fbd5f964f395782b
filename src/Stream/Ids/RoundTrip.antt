-- ===== src/Stream/Ids/RoundTrip.antt =====
-- internal/stream/client.go: an id is read back as the time and the sequence it was written from.
use Prim.Native.Char.{code}
use Prim.Native.String.{◌++◌ as append}
use text.Mathlib.TextLemmas.{nil-append, cons-append}
use go_tangra_notification.Prelude.{
  ℕ, zero, suc, ◌+◌, ◌-◌, ◌*◌, ◌/◌, ◌%◌, ◌<◌, Bool, true, false, some, String, ◌&&◌, if◌then◌else◌,
  nat_eq, ◌≡◌, refl, arith, pos, is_digit, cut_at, cons_ne, ◌∙◌, Bool-cases, inl, inr, ltb, ap, ◌≤◌,
}
use go_tangra_notification.Stream.Ids.{
  less, digit, code-digit, format_digits, format_int, read_digits, read_uint, parse_int, parse_id,
  id_of_ms,
}

-- One more digit of a number below 2^63.
read_digits-cons :
    (m n : ℕ) (rest : String)
    → m < 10
    → n * 10 + m < 9223372036854775808
    → read_digits n (String.◌∷◌ (digit m) rest) ≡ read_digits (n * 10 + m) rest
unfolding read_digits
read_digits-cons m n rest h k =
    let c = code-digit m h in
    let e : n * 10 + (code (digit m) - 48) ≡ n * 10 + m = omega (arith, c) in
    rw e (ground (arith, c, h, k))

read_digits-format_digits :
    (f n : ℕ) (rest : String)
    → n < f
    → n < 9223372036854775808
    → read_digits 0 (format_digits f n rest) ≡ read_digits n rest
unfolding format_digits
read_digits-format_digits zero n rest h k = ground (arith, h)
read_digits-format_digits (suc f) n rest h k = elim (Bool-cases (ltb n 10)) [
  | inl small ↦ rw small (
      read_digits-cons n 0 rest (ground (arith, small)) (omega (arith, k))
      ∙ ap (λ m. read_digits m rest) (omega arith))
  | inr large ↦ rw large (
      read_digits-format_digits f (n / 10) (String.◌∷◌ (digit (n % 10)) rest)
        (let l : 10 ≤ n = ground (arith, large) in omega (arith, l, h)) (omega (arith, k))
      ∙ read_digits-cons (n % 10) (n / 10) rest (omega arith) (omega (arith, k))
      ∙ ap (λ m. read_digits m rest) (omega arith))
]

-- What is written is digits, of which there is one at least.
digits_only : String → Bool
digits_only String.[] = true
digits_only (String.◌∷◌ c s) = is_digit (code c) && digits_only s

digits_only-format_digits :
    (f n : ℕ) (rest : String)
    → digits_only rest ≡ true
    → digits_only (format_digits f n rest) ≡ true
unfolding digits_only format_digits
digits_only-format_digits zero n rest h = h
digits_only-format_digits (suc f) n rest h = elim (Bool-cases (ltb n 10)) [
  | inl small ↦
      rw small (let c = code-digit n (ground (arith, small)) in ground (arith, c, h, small))
  | inr large ↦ rw large (
      digits_only-format_digits f (n / 10) (String.◌∷◌ (digit (n % 10)) rest) (
        let c = code-digit (n % 10) (omega arith) in
        let l : n % 10 < 10 = omega arith in ground (arith, c, h, l)))
]

not_empty : String → Bool
not_empty String.[] = false
not_empty (String.◌∷◌ c s) = true

not_empty-format_digits :
    (f n : ℕ) (rest : String) → n < f → not_empty (format_digits f n rest) ≡ true
unfolding not_empty format_digits
not_empty-format_digits zero n rest h = ground (arith, h)
not_empty-format_digits (suc f) n rest h = elim (Bool-cases (ltb n 10)) [
  | inl small ↦ rw small refl
  | inr large ↦ rw large (
      not_empty-format_digits f (n / 10) (String.◌∷◌ (digit (n % 10)) rest)
        (let l : 10 ≤ n = ground (arith, large) in omega (arith, l, h)))
]

-- A text of digits has no sign, so it is read as a number at once.
parse_int-digits :
    (s : String) (n : ℕ)
    → not_empty s ≡ true
    → digits_only s ≡ true
    → read_digits 0 s ≡ some n
    → n < 9223372036854775808
    → (parse_int s).value ≡ pos n × ((parse_int s).good ≡ true)
unfolding not_empty digits_only parse_int read_uint
parse_int-digits String.[] n e d r h = cc
parse_int-digits (String.◌∷◌ c s) n e d r h =
    (ground (arith, cons_ne c s, d, r, h), ground (arith, cons_ne c s, d, r, h))

pub parse_int-format_int :
    (n : ℕ)
    → n < 9223372036854775808
    → ((parse_int (format_int n)).value ≡ pos n) × ((parse_int (format_int n)).good ≡ true)
unfolding format_int read_digits digits_only
parse_int-format_int n h =
    parse_int-digits (format_int n) n (not_empty-format_digits (suc n) n "" (omega arith))
      (digits_only-format_digits (suc n) n "" refl)
      (read_digits-format_digits (suc n) n "" (omega arith) h) h

cut_at-digits :
    (t rest : String)
    → digits_only t ≡ true
    → cut_at b'-' (append t (append "-" rest)) ≡ some (t, rest)
unfolding cut_at digits_only
cut_at-digits String.[] rest h =
    rw (nil-append (append "-" rest), cons-append "-" "" rest, nil-append rest, cut_at) refl
cut_at-digits (String.◌∷◌ c t) rest h =
    rw (cons-append c t (append "-" rest), cut_at) (ground (arith, h, cut_at-digits t rest))

parse_id_of_cut :
    (ms seq : ℕ) (text : String)
    → ms < 9223372036854775808
    → seq < 9223372036854775808
    → cut_at b'-' text ≡ some (format_int ms, format_int seq)
    → parse_id text ≡ record { ms = pos ms; seq = pos seq; good = true }
unfolding parse_id
parse_id_of_cut ms seq text h k c =
    let a = parse_int-format_int ms h in
    let b = parse_int-format_int seq k in ground (arith, c, a.0, a.1, b.0, b.1)

-- An id is read back as the time in milliseconds and the sequence it was written from, both below
-- 2^63, and the reader reports no error.
pub parse_id-id_of_ms :
    (ms seq : ℕ)
    → ms < 9223372036854775808
    → seq < 9223372036854775808
    → parse_id (id_of_ms ms seq) ≡ record { ms = pos ms; seq = pos seq; good = true }
unfolding parse_id id_of_ms format_int digits_only
parse_id-id_of_ms ms seq h k =
    let c =
      cut_at-digits (format_int ms) (format_int seq)
        (digits_only-format_digits (suc ms) ms "" refl) in
    parse_id_of_cut ms seq (id_of_ms ms seq) h k c

-- Ids come in the order of their times, and at one time in the order of their sequence.
pub less-id_of_ms :
    (m s n t : ℕ)
    → m < 9223372036854775808
    → s < 9223372036854775808
    → n < 9223372036854775808
    → t < 9223372036854775808
    → less (id_of_ms m s) (id_of_ms n t) ≡ (if nat_eq m n then ltb s t else ltb m n)
unfolding less
less-id_of_ms m s n t a b c d = rw (parse_id-id_of_ms m s a b, parse_id-id_of_ms n t c d) refl
