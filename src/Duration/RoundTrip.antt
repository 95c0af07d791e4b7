-- ===== src/Duration/RoundTrip.antt =====
-- duration.rs: the intervals that are written with decimal numbers are read back.
use Prim.Native.Char.{Char, code}
use Prim.Native.String.{◌++◌, char_at}
use text.Mathlib.TextLemmas.{nil-append, cons-append}
use vivi_mail.Common.{
  ℕ, zero, suc, ◌+◌, ◌-◌, ◌*◌, ◌/◌, ◌%◌, ◌≤◌, ◌<◌, min, String, Bool, true, false, not, ◌&&◌, ◌==◌,
  ◌≡◌, refl, sym, ap, ◌∙◌, arith, inl, inr, ltb, nat_eq, decimal, decimal_in, digit, is_empty, trim,
  trim_start_matches, trim_end_matches, trim_matches, is_whitespace, Bool-cases, ok, eq_iff, ◌||◌,
  if◌then◌else◌,
}
use vivi_mail.Common.Words.{is_solid}
use vivi_mail.Duration.{
  u64_max, saturating_mul, is_ascii_digit, span_digits, split_duration, parse_from, parse_u64,
  seconds_in, parse_duration, before_rest,
}

-- The factor of a unit.
abbrev pub factor : String → ℕ
factor unit = if unit == "" || unit == "s" then 1 else if unit == "m" then 60 else 3600

abbrev pub is_unit : String → Bool
is_unit unit = unit == "" || unit == "s" || unit == "m" || unit == "h"

-- A test that holds below a bound.
below : (ℕ → Bool) → ℕ → Bool
below test zero = true
below test (suc n) = test n && below test n

below-lem : (test : ℕ → Bool) (n : ℕ) → below test n ≡ true → (d : ℕ) → d < n → test d ≡ true
unfolding below
below-lem test zero h d l = absurd (omega (arith, l))
below-lem test (suc n) h d l = elim (Bool-cases (nat_eq d n)) [
  | inl e ↦ let d_n : d ≡ n = ground arith in rw d_n (ground arith)
  | inr e ↦ below-lem test n (ground arith) d (ground arith)
]

is_code : ℕ → Bool
is_code d = nat_eq (code (char_at "0123456789" d)) (48 + d)

digit_code : (d : ℕ) → d < 10 → code (char_at "0123456789" d) ≡ 48 + d
unfolding is_code below
digit_code d h = let e : is_code d ≡ true = below-lem is_code 10 refl d h in ground arith

parse_from-append : (n : ℕ) (s t : String) → parse_from n (s ++ t) ≡ parse_from (parse_from n s) t
unfolding parse_from
parse_from-append n String.[] t = ap (parse_from n) (nil-append t)
parse_from-append n (String.◌∷◌ c s) t =
    ap (parse_from n) (cons-append c s t) ∙ parse_from-append (10 * n + (code c - 48)) s t

parse_from-digit : (n d : ℕ) → d < 10 → parse_from n (digit d) ≡ 10 * n + d
unfolding parse_from
parse_from-digit n d h = omega (arith, digit_code d h)

parse_from-decimal_in : (f n : ℕ) → n ≤ f → parse_from 0 (decimal_in f n) ≡ n
unfolding decimal_in
parse_from-decimal_in zero n h = parse_from-digit 0 (n % 10) (omega arith) ∙ omega (arith, h)
parse_from-decimal_in (suc f) n h = elim (Bool-cases (ltb n 10)) [
  | inl e ↦ rw e (parse_from-digit 0 n (ground arith) ∙ omega arith)
  | inr e ↦ rw e (
      parse_from-append 0 (decimal_in f (n / 10)) (digit (n % 10))
      ∙ (parse_from-digit _ (n % 10) (omega arith)
          ∙ (ap (λ q. 10 * q + n % 10) (parse_from-decimal_in f (n / 10) (ground arith))
              ∙ omega arith)))
]

-- The digits of a number are read back as the number.
pub parse_from-decimal : (n : ℕ) → parse_from 0 (decimal n) ≡ n
unfolding decimal
parse_from-decimal n = parse_from-decimal_in n n (omega arith)

pub decimal-injective : (m n : ℕ) → decimal m ≡ decimal n → m ≡ n
decimal-injective m n e = sym (parse_from-decimal m) ∙ (ap (parse_from 0) e ∙ parse_from-decimal n)

-- A text of decimal digits.
unfoldable pub all_digits : String → Bool
all_digits String.[] = true
all_digits (String.◌∷◌ c s) = is_ascii_digit c && all_digits s

all_digits-append :
    (s t : String) → all_digits s ≡ true → all_digits t ≡ true → all_digits (s ++ t) ≡ true
unfolding all_digits
all_digits-append String.[] t h k = rw (nil-append t) k
all_digits-append (String.◌∷◌ c s) t h k =
    rw (cons-append c s t) (ground (arith, all_digits-append s t (ground arith) k))

digit-all_digits : (d : ℕ) → d < 10 → all_digits (digit d) ≡ true
unfolding all_digits is_ascii_digit
digit-all_digits d h = ground (arith, digit_code d h)

decimal_in-all_digits :
    (f n : ℕ) → (all_digits (decimal_in f n) ≡ true) × (is_empty (decimal_in f n) ≡ false)
unfolding decimal_in
decimal_in-all_digits zero n = (digit-all_digits (n % 10) (omega arith), refl)
decimal_in-all_digits (suc f) n = elim (Bool-cases (ltb n 10)) [
  | inl e ↦ rw e (digit-all_digits n (ground arith), refl)
  | inr e ↦
      let (all, present) = decimal_in-all_digits f (n / 10) in
      rw e (
        all_digits-append (decimal_in f (n / 10)) (digit (n % 10)) all
            (digit-all_digits (n % 10) (omega arith)),
        not_empty_append (decimal_in f (n / 10)) (digit (n % 10)) present,
      )
]
  where
    not_empty_append : (s t : String) → is_empty s ≡ false → is_empty (s ++ t) ≡ false
    not_empty_append String.[] t h = cc
    not_empty_append (String.◌∷◌ c s) t h = rw (cons-append c s t) refl

-- A unit begins with no digit.
no_digit : String → Bool
no_digit String.[] = true
no_digit (String.◌∷◌ c s) = not (is_ascii_digit c)

span_digits-append :
    (digits unit : String)
    → all_digits digits ≡ true
    → no_digit unit ≡ true
    → span_digits (digits ++ unit) ≡ (digits, unit)
unfolding span_digits all_digits no_digit
span_digits-append String.[] String.[] h k = rw (nil-append "") refl
span_digits-append String.[] (String.◌∷◌ c s) h k = rw (nil-append (String.◌∷◌ c s)) (ground arith)
span_digits-append (String.◌∷◌ c digits) unit h k =
    let rest = span_digits-append digits unit (ground arith) k in
    let d : is_ascii_digit c ≡ true = ground arith in
    rw (cons-append c digits unit) (rw d (ap (before_rest c) rest))

trim_end-solid : (s : String) → is_solid s ≡ true → trim_end_matches is_whitespace s ≡ s
unfolding trim_end_matches
trim_end-solid String.[] h = refl
trim_end-solid (String.◌∷◌ c s) h = elim (Bool-cases (is_whitespace c)) [
  | inl e ↦ absurd (ground arith)
  | inr e ↦ rw e (ap (String.◌∷◌ c) (trim_end-solid s (ground arith)))
]

trim-solid : (s : String) → is_solid s ≡ true → trim s ≡ s
unfolding trim trim_matches trim_start_matches
trim-solid String.[] h = trim_end-solid "" refl
trim-solid (String.◌∷◌ c s) h = elim (Bool-cases (is_whitespace c)) [
  | inl e ↦ absurd (ground arith)
  | inr e ↦ rw e (trim_end-solid (String.◌∷◌ c s) h)
]

digit_is_solid : (c : Char) → is_ascii_digit c ≡ true → is_whitespace c ≡ false
unfolding is_ascii_digit is_whitespace
digit_is_solid c h = ground arith

solid-append :
    (digits unit : String)
    → all_digits digits ≡ true
    → is_solid unit ≡ true
    → is_solid (digits ++ unit) ≡ true
unfolding all_digits
solid-append String.[] unit h k = rw (nil-append unit) k
solid-append (String.◌∷◌ c s) unit h k =
    let d : is_ascii_digit c ≡ true = ground arith in
    rw (cons-append c s unit) (rw (digit_is_solid c d) (solid-append s unit (ground arith) k))

-- A test that holds of the four units.
each_unit :
    (test : String → Bool)
    → test "" && test "s" && test "m" && test "h" ≡ true
    → (unit : String) → is_unit unit ≡ true
    → test unit ≡ true
each_unit test t unit h = elim (Bool-cases (unit == "")) [
  | inl e ↦ rw ((eq_iff unit "").0 e) (ground arith)
  | inr a ↦ elim (Bool-cases (unit == "s")) [
    | inl e ↦ rw ((eq_iff unit "s").0 e) (ground arith)
    | inr b ↦ elim (Bool-cases (unit == "m")) [
      | inl e ↦ rw ((eq_iff unit "m").0 e) (ground arith)
      | inr c ↦
          let e : (unit == "h") ≡ true = ground arith in rw ((eq_iff unit "h").0 e) (ground arith)
    ]
  ]
]

seconds_in-known :
    (amount : ℕ) (unit : String)
    → amount ≤ u64_max
    → is_unit unit ≡ true
    → seconds_in amount unit ≡ ok (min (amount * factor unit) u64_max)
unfolding seconds_in saturating_mul
seconds_in-known amount unit b h = ground arith

-- A number from 1 to the greatest 64-bit one, written in decimal, with no unit or one of "s", "m"
-- and "h" after it, is read as that number of seconds, minutes or hours, in seconds and at most the
-- greatest 64-bit number.
pub parse_duration-decimal :
    (n : ℕ) (unit : String)
    → 1 ≤ n
    → n ≤ u64_max
    → is_unit unit ≡ true
    → parse_duration (decimal n ++ unit) ≡ ok (min (n * factor unit) u64_max)
unfolding parse_duration split_duration parse_u64 decimal no_digit
parse_duration-decimal n unit l h u =
    let (digits, present) = decimal_in-all_digits n n in
    let plain = each_unit no_digit refl unit u in
    let solid = each_unit is_solid refl unit u in
    let trimmed = trim-solid (decimal n ++ unit) (solid-append (decimal n) unit digits solid) in
    let split = span_digits-append (decimal n) unit digits plain in
    let read : parse_from 0 (decimal n) ≡ n = parse_from-decimal n in
    rw trimmed (rw split (rw present (rw read (ground (arith, seconds_in-known n unit h u)))))
