-- ===== src/Common/Text.antt =====
-- The string methods of Rust's standard library that the program calls.
use Prim.Native.Nat.{ℕ, zero, suc, ◌-◌, ◌/◌, ◌%◌}
use Prim.Native.Char.{Char, code}
use Prim.Native.String.{String, char_at, ◌++◌}
use mathlib.Core.Path.{◌≡◌, refl}
use mathlib.Core.Bool.{Bool, true, false, ◌&&◌, ◌||◌}
use mathlib.Core.List.{List, [], ◌∷◌}
use vivi_mail.Common.Tests.{leb, ltb, nat_eq, if◌then◌else◌}

-- `format!` on its pieces: the literal parts and the arguments, in order.
abbrev pub format : List String → String
format [] = ""
format (s ∷ rest) = s ++ format rest

-- `char::to_ascii_lowercase`
unfoldable pub lower_char : Char → Char
lower_char c =
    if leb 65 (code c) && leb (code c) 90
    then char_at "abcdefghijklmnopqrstuvwxyz" (code c - 65)
    else c

-- `str::to_ascii_lowercase`
unfoldable pub to_ascii_lowercase : String → String
unfolding lower_char
to_ascii_lowercase String.[] = ""
to_ascii_lowercase (String.◌∷◌ c s) = String.◌∷◌ (lower_char c) (to_ascii_lowercase s)

-- `char::is_whitespace`: the Unicode property White_Space.
unfoldable pub is_whitespace : Char → Bool
is_whitespace c =
    leb 9 (code c) && leb (code c) 13
    || nat_eq (code c) 32
    || nat_eq (code c) 0x85
    || nat_eq (code c) 0xa0
    || nat_eq (code c) 0x1680
    || leb 0x2000 (code c) && leb (code c) 0x200a
    || nat_eq (code c) 0x2028
    || nat_eq (code c) 0x2029
    || nat_eq (code c) 0x202f
    || nat_eq (code c) 0x205f
    || nat_eq (code c) 0x3000

abbrev pub is_empty : String → Bool
is_empty String.[] = true
is_empty (String.◌∷◌ c s) = false

-- `str::trim_start_matches` and `str::trim_end_matches` with a test of a character.
unfoldable pub trim_start_matches : (Char → Bool) → String → String
trim_start_matches p String.[] = ""
trim_start_matches p (String.◌∷◌ c s) =
    let rest = trim_start_matches p s in if p c then rest else String.◌∷◌ c s

unfoldable pub trim_end_matches : (Char → Bool) → String → String
trim_end_matches p String.[] = ""
trim_end_matches p (String.◌∷◌ c s) =
    let rest = trim_end_matches p s in if p c && is_empty rest then "" else String.◌∷◌ c rest

unfoldable pub trim_matches : (Char → Bool) → String → String
unfolding trim_start_matches trim_end_matches
trim_matches p s = trim_end_matches p (trim_start_matches p s)

unfoldable pub trim : String → String
unfolding trim_matches is_whitespace
trim s = trim_matches is_whitespace s

trim_runs : trim "  In Box " ≡ "In Box"
unfolding trim
trim_runs = refl

lowercase_runs : to_ascii_lowercase "[Gmail]/All Mail" ≡ "[gmail]/all mail"
unfolding to_ascii_lowercase
lowercase_runs = refl

-- The decimal text of a machine integer; the fuel is the number itself, more than its digits.
abbrev pub digit : ℕ → String
digit n = String.◌∷◌ (char_at "0123456789" n) ""

unfoldable pub decimal_in : ℕ → ℕ → String
decimal_in zero n = digit (n % 10)
decimal_in (suc f) n =
    let rest = decimal_in f (n / 10) in if ltb n 10 then digit n else rest ++ digit (n % 10)

-- `to_string` of an unsigned integer
unfoldable pub decimal : ℕ → String
unfolding decimal_in
decimal n = decimal_in n n

decimal_runs : decimal 4294967295 ≡ "4294967295"
unfolding decimal
decimal_runs = refl
