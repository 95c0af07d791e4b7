-- ===== src/Duration/Tests.antt =====
-- Intervals that parse or do not, and the instance of the theorem.
use vivi_mail.Common.{String, true, trim, ◌≤◌, ◌*◌, min, ok, ◌≡◌, refl, decimal, arith}
use vivi_mail.Duration.{u64_max, parse_duration, is_ascii_digit}
use vivi_mail.Duration.RoundTrip.{factor, is_unit, all_digits, parse_duration-decimal}
use vivi_mail.Duration.Bounds.{weight, value_of, parse_duration-lem}
use Prim.Native.String.{◌++◌}

minutes_run : parse_duration " 5m " ≡ ok 300
unfolding parse_duration is_ascii_digit
minutes_run = refl

saturated_run : parse_duration "18446744073709551615h" ≡ ok u64_max
unfolding parse_duration is_ascii_digit
saturated_run = refl

parse_duration-decimal_example :
    parse_duration (decimal 90 ++ "m") ≡ ok (min (90 * factor "m") u64_max)
parse_duration-decimal_example = parse_duration-decimal 90 "m" (omega arith) (omega arith) refl

parse_duration-lem_example :
    (number unit : String) × (number ++ unit ≡ trim " 5m ")
    × (all_digits number ≡ true)
    × (is_unit unit ≡ true)
    × (1 ≤ value_of number)
    × (300 ≡ min (value_of number * factor unit) u64_max)
parse_duration-lem_example = parse_duration-lem " 5m " 300 minutes_run

value_run : value_of "0907" ≡ 907
unfolding value_of weight
value_run = refl
