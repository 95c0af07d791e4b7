-- ===== src/Duration/Bounds.antt =====
-- duration.rs: what an accepted interval is.
use Prim.Native.Char.{code}
use Prim.Native.String.{◌++◌}
use text.Mathlib.TextLemmas.{nil-append, cons-append}
use vivi_mail.Common.{
  ℕ, ◌+◌, ◌-◌, ◌≤◌, ◌*◌, min, String, Option, none, some, Bool, true, false, ◌≡◌, refl, inl, inr,
  Result, ok, arith, nat_eq, trim, if◌then◌else◌, Bool-cases, ap, ◌∙◌, is_empty,
}
use vivi_mail.Duration.{
  u64_max, saturating_mul, split_duration, parse_u64, parse_from, seconds_in, parse_duration,
  of_amount, of_split, span_digits, is_ascii_digit, some_digits,
}
use vivi_mail.Duration.RoundTrip.{factor, is_unit, all_digits}

-- The weight of the place before a text of digits, and the number that such a text writes: the sum of
-- its digits, each times the weight of its place.
unfoldable pub weight : String → ℕ
weight String.[] = 1
weight (String.◌∷◌ c s) = 10 * weight s

unfoldable pub value_of : String → ℕ
unfolding weight
value_of String.[] = 0
value_of (String.◌∷◌ c s) = (code c - 48) * weight s + value_of s

parse_from-value : (n : ℕ) (s : String) → parse_from n s ≡ n * weight s + value_of s
unfolding parse_from weight value_of
parse_from-value n String.[] = omega arith
parse_from-value n (String.◌∷◌ c s) = parse_from-value (10 * n + (code c - 48)) s ∙ omega arith

parse_u64-value : (digits : String) (n : ℕ) → parse_u64 digits ≡ some n → n ≡ value_of digits
unfolding parse_u64
parse_u64-value digits n h =
    let e = parse_from-value 0 digits in
    let same : parse_from 0 digits ≡ value_of digits = omega (arith, e) in ground (arith, same)

-- The digits at the head of a text and the rest spell it.
span_digits-lem :
    (s : String)
    → ((span_digits s).0 ++ (span_digits s).1 ≡ s) × (all_digits (span_digits s).0 ≡ true)
unfolding span_digits all_digits
span_digits-lem String.[] = (nil-append "", refl)
span_digits-lem (String.◌∷◌ c s) =
    let (spelled, digits) = span_digits-lem s in
    elim (Bool-cases (is_ascii_digit c)) [
      | inl e ↦ rw e (
          rw e
            (cons-append c (span_digits s).0 (span_digits s).1 ∙ ap (String.◌∷◌ c) spelled, digits))
      | inr e ↦ rw e (nil-append (String.◌∷◌ c s), refl)
    ]

split_duration-spelled :
    (s number unit : String)
    → split_duration s ≡ some (number, unit)
    → (number ++ unit ≡ s) × (all_digits number ≡ true)
unfolding split_duration
split_duration-spelled s number unit h = taken (span_digits s) (span_digits-lem s) h
  where
    taken :
        (p : String × String)
        → (p.0 ++ p.1 ≡ s) × (all_digits p.0 ≡ true)
        → some_digits p ≡ some (number, unit)
        → (number ++ unit ≡ s) × (all_digits number ≡ true)
    taken (a, b) k e = elim (Bool-cases (is_empty a)) [
      | inl none_read ↦ absurd (ground arith)
      | inr read ↦ let (x, y) = both read e in rw (← x) (rw (← y) k)
    ]
      where
        both :
            is_empty a ≡ false
            → some_digits (a, b) ≡ some (number, unit)
            → (a ≡ number) × (b ≡ unit)
        both r e = ground arith

-- What a text means as an interval: digits for a number from 1 on, and a unit.
record IsInterval (value : String) (seconds : ℕ) : Type 0 where
  number : String
  unit : String
  amount : ℕ
  spelled : number ++ unit ≡ trim value
  digits : all_digits number ≡ true
  read : amount ≡ value_of number
  known : is_unit unit ≡ true
  positive : 1 ≤ amount
  scaled : seconds ≡ min (amount * factor unit) u64_max

parse_u64-le_max : (digits : String) (n : ℕ) → parse_u64 digits ≡ some n → n ≤ u64_max
unfolding parse_u64
parse_u64-le_max digits n h = ground arith

seconds_in-scaled :
    (amount seconds : ℕ) (unit : String)
    → amount ≤ u64_max
    → seconds_in amount unit ≡ ok seconds
    → (is_unit unit ≡ true) × (seconds ≡ min (amount * factor unit) u64_max)
unfolding seconds_in saturating_mul
seconds_in-scaled amount seconds unit b h = ground arith

of_amount-IsInterval :
    (value number unit : String) (o : Option ℕ) (seconds : ℕ)
    → (number ++ unit ≡ trim value) × (all_digits number ≡ true)
    → parse_u64 number ≡ o
    → of_amount (trim value) unit o ≡ ok seconds
    → IsInterval value seconds
of_amount-IsInterval value number unit none seconds s p h = cc
of_amount-IsInterval value number unit (some amount) seconds s p h =
    elim (Bool-cases (nat_eq amount 0)) [
      | inl zero ↦ absurd (ground arith)
      | inr positive ↦
          let scaled =
            seconds_in-scaled amount seconds unit (parse_u64-le_max number amount p)
              (taken _ _ _ _ positive h) in
          record {
            number = number;
            unit = unit;
            amount = amount;
            spelled = s.0;
            digits = s.1;
            read = parse_u64-value number amount p;
            known = scaled.0;
            positive = ground arith;
            scaled = scaled.1;
          }
    ]
  where
    taken : (b : Bool) (x y z : Result ℕ) → b ≡ false → (if b then x else y) ≡ z → y ≡ z
    taken true x y z e k = cc
    taken false x y z e k = k

of_split-IsInterval :
    (value : String) (o : Option (String × String)) (seconds : ℕ)
    → split_duration (trim value) ≡ o
    → of_split (trim value) o ≡ ok seconds
    → IsInterval value seconds
of_split-IsInterval value none seconds s h = cc
of_split-IsInterval value (some (number, unit)) seconds s h =
    of_amount-IsInterval value number unit (parse_u64 number) seconds
      (split_duration-spelled (trim value) number unit s) refl h

-- An interval that is accepted is, without the blanks around it, decimal digits and then nothing, "s",
-- "m" or "h"; the number that the digits write is at least 1, and the seconds are the number times 1,
-- 60 or 3600, or the greatest 64-bit number where that is less.
pub parse_duration-lem :
    (value : String) (seconds : ℕ)
    → parse_duration value ≡ ok seconds
    → (number unit : String) × (number ++ unit ≡ trim value)
      × (all_digits number ≡ true)
      × (is_unit unit ≡ true)
      × (1 ≤ value_of number)
      × (seconds ≡ min (value_of number * factor unit) u64_max)
unfolding parse_duration
parse_duration-lem value seconds h =
    let i = of_split-IsInterval value (split_duration (trim value)) seconds refl h in
    (
      i.number,
      i.unit,
      i.spelled,
      i.digits,
      i.known,
      omega (arith, i.positive, i.read),
      i.scaled ∙ ap (λ n. min (n * factor i.unit) u64_max) i.read,
    )
