-- ===== src/Smtp.antt =====
-- smtp.rs: the removal of Bcc headers before a message is handed to the transport.
pub mod Headers
mod Tests
use Prim.Native.Char.{Char, code}
use Prim.Native.String.{◌++◌, len, slice}
use text.Mathlib.Text.{starts_with}
use vivi_mail.Common.{
  ℕ, String, List, [], ◌∷◌, Option, none, some, Bool, true, false, not, ◌&&◌, ◌||◌, ◌==◌, nat_eq,
  to_ascii_lowercase, if◌then◌else◌,
}
use vivi_mail.Common.Words.{concat}

abbrev pub is_cr : Char → Bool
is_cr c = nat_eq (code c) 13

abbrev pub is_lf : Char → Bool
is_lf c = nat_eq (code c) 10

-- `split_once("\r\n\r\n")`
abbrev with_char : Char → Option (String × String) → Option (String × String)
with_char c none = none
with_char c (some (head, body)) = some (String.◌∷◌ c head, body)

unfoldable pub split_once : String → Option (String × String)
split_once String.[] = none
split_once (String.◌∷◌ c s) =
    let text = String.◌∷◌ c s in
    let rest = split_once s in
    if starts_with text "\r\n\r\n" then some ("", slice text 4 (len text)) else with_char c rest

-- `split_inclusive("\r\n")`: whether the character before is a carriage return.
abbrev pub cons_head : Char → List String → List String
cons_head c [] = String.◌∷◌ c "" ∷ []
cons_head c (line ∷ lines) = String.◌∷◌ c line ∷ lines

unfoldable pub lines_after : Bool → String → List String
lines_after after_cr String.[] = []
lines_after after_cr (String.◌∷◌ c s) =
    let next_line = lines_after false s in
    let same_line = lines_after (is_cr c) s in
    if after_cr && is_lf c then String.◌∷◌ c "" ∷ next_line else cons_head c same_line

unfoldable pub split_inclusive : String → List String
unfolding lines_after
split_inclusive s = lines_after false s

-- `trim_end_matches("\r\n")`
unfoldable pub trim_crlf : String → String
trim_crlf String.[] = ""
trim_crlf (String.◌∷◌ c s) =
    let rest = trim_crlf s in if is_cr c && rest == "\n" then "" else String.◌∷◌ c rest

unfoldable pub is_bcc_header : String → Bool
unfolding to_ascii_lowercase
is_bcc_header line = starts_with (to_ascii_lowercase line) "bcc:"

unfoldable pub is_folded_continuation : String → Bool
is_folded_continuation line = starts_with line " " || starts_with line "\t"

-- The loop over the lines of the header block, with `in_bcc`.
unfoldable pub kept_lines : Bool → List String → List String
unfolding is_bcc_header is_folded_continuation trim_crlf
kept_lines in_bcc [] = []
kept_lines in_bcc (line ∷ lines) =
    let dropped = kept_lines true lines in
    let kept = line ∷ kept_lines false lines in
    if is_bcc_header (trim_crlf line)
    then dropped
    else if in_bcc && is_folded_continuation (trim_crlf line)
    then dropped
    else kept

-- The bytes of a message, which are UTF-8 or not.
pub data Bytes : Type 0 where
  utf8 : String → Bytes
  other_bytes : List ℕ → Bytes

abbrev stripped : String → Option (String × String) → String
stripped text none = text
stripped text (some (header_block, body)) =
    concat (kept_lines false (split_inclusive header_block)) ++ ("\r\n\r\n" ++ body)

unfoldable pub strip_bcc_headers : Bytes → Bytes
unfolding split_once split_inclusive kept_lines
strip_bcc_headers (other_bytes data_bytes) = other_bytes data_bytes
strip_bcc_headers (utf8 text) = utf8 (stripped text (split_once text))
