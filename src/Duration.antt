-- ===== src/Duration.antt =====
-- duration.rs: the intervals that a user writes, as a number of seconds.
pub mod RoundTrip
pub mod Bounds
mod Tests
use Prim.Native.Char.{Char, code}
use vivi_mail.Common.{
  ℕ, ◌+◌, ◌-◌, ◌*◌, ◌^◌, min, String, List, [], ◌∷◌, Option, none, some, Bool, true, false, not,
  ◌&&◌, ◌||◌, ◌==◌, leb, ltb, nat_eq, format, VivariumError, config, Result, ok, err, trim,
  is_empty, if◌then◌else◌,
}

abbrev pub u64_max : ℕ
u64_max = 2 ^ 64 - 1

-- `u64::saturating_mul`
unfoldable pub saturating_mul : ℕ → ℕ → ℕ
saturating_mul a b = min (a * b) u64_max

-- `char::is_ascii_digit`
unfoldable pub is_ascii_digit : Char → Bool
is_ascii_digit c = leb 48 (code c) && leb (code c) 57

-- The digits at the head of a text, and the rest.
abbrev before_rest : Char → String × String → String × String
before_rest c (digits, rest) = (String.◌∷◌ c digits, rest)

unfoldable pub span_digits : String → String × String
unfolding is_ascii_digit
span_digits String.[] = ("", "")
span_digits (String.◌∷◌ c s) =
    let split = span_digits s in
    if is_ascii_digit c then before_rest c split else ("", String.◌∷◌ c s)

abbrev pub some_digits : String × String → Option (String × String)
some_digits split = if is_empty split.0 then none else some split

unfoldable pub split_duration : String → Option (String × String)
unfolding span_digits
split_duration value = some_digits (span_digits value)

-- The value of a text of digits after those read so far.
unfoldable pub parse_from : ℕ → String → ℕ
parse_from n String.[] = n
parse_from n (String.◌∷◌ c s) = parse_from (10 * n + (code c - 48)) s

-- `parse::<u64>` of a text that has digits only.
unfoldable pub parse_u64 : String → Option ℕ
unfolding parse_from
parse_u64 digits =
    let n = parse_from 0 digits in if is_empty digits || not (leb n u64_max) then none else some n

unfoldable pub invalid_duration : String → VivariumError
invalid_duration value =
    config (format ("invalid duration '" ∷ value ∷ "'; use values like 30s, 5m, or 1h" ∷ []))

unfoldable pub seconds_in : ℕ → String → Result ℕ
unfolding saturating_mul
seconds_in amount unit =
    if unit == "" || unit == "s"
    then ok amount
    else if unit == "m"
    then ok (saturating_mul amount 60)
    else if unit == "h"
    then ok (saturating_mul amount (60 * 60))
    else err (config (format ("invalid duration unit '" ∷ unit ∷ "'; use s, m, or h" ∷ [])))

abbrev of_amount : String → String → Option ℕ → Result ℕ
of_amount value unit none = err (invalid_duration value)
of_amount value unit (some amount) =
    if nat_eq amount 0
    then err (config "duration must be greater than zero")
    else seconds_in amount unit

abbrev of_split : String → Option (String × String) → Result ℕ
of_split value none = err (invalid_duration value)
of_split value (some (number, unit)) = of_amount value unit (parse_u64 number)

unfoldable pub parse_duration : String → Result ℕ
unfolding trim split_duration parse_u64 seconds_in invalid_duration
parse_duration value = of_split (trim value) (split_duration (trim value))
