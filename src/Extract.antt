-- ===== src/Extract.antt =====
-- extract.rs: the text of a message's body.
mod Tests
use Prim.Native.Char.{Char, code}
use Prim.Native.String.{String, char_at}
use vivi_mail.Common.{
  ℕ, suc, List, [], ◌∷◌, Option, none, some, Bool, true, false, not, ◌&&◌, ◌||◌, ◌≡◌, ◌≢◌, refl,
  inl, inr, nat_eq, is_empty, trim, VivariumError, parse, Result, ok, err, is_ok, arith, Bool-cases,
  if◌then◌else◌,
}

pub data ExtractionFormat : Type 0 where
  plain html_stripped no_format : ExtractionFormat

pub data ExtractionQuality : Type 0 where
  full partial no_quality : ExtractionQuality

pub record ExtractedText : Type 0 where
  pub body_text : String
  pub format : ExtractionFormat
  pub quality : ExtractionQuality

-- What the parser finds of a message: its first text body and its first HTML body.
pub record Parsed : Type 0 where
  pub body_text : Option String
  pub body_html : Option String

abbrev is_code : ℕ → Char → Bool
is_code n c = nat_eq (code c) n

abbrev is_newline : Char → Bool
is_newline c = is_code 10 c || is_code 13 c

abbrev line_feed : Char
line_feed = char_at "\n" 0

-- The loop of `html_to_text`, with `in_tag` and `prev_was_newline`.
unfoldable pub strip_tags : Bool → Bool → String → String
strip_tags in_tag newline String.[] = ""
strip_tags in_tag newline (String.◌∷◌ c s) =
    let opened = strip_tags true newline s in
    let closed = strip_tags false newline s in
    let skipped = strip_tags in_tag newline s in
    let broken = String.◌∷◌ line_feed (strip_tags in_tag true s) in
    let pushed = String.◌∷◌ c (strip_tags in_tag false s) in
    if is_code 60 c
    then opened
    else if is_code 62 c
    then closed
    else if in_tag
    then skipped
    else if is_newline c
    then if newline then skipped else broken
    else pushed

unfoldable pub html_to_text : String → String
unfolding strip_tags
html_to_text html = strip_tags false false html

abbrev extracted : String → ExtractionFormat → ExtractionQuality → ExtractedText
extracted text format quality = record { body_text = text; format = format; quality = quality }

-- The last two ways: any text body, and none.
abbrev any_text : Option String → ExtractedText
any_text none = extracted "" no_format no_quality
any_text (some body) = extracted body plain partial

abbrev from_html : Option String → Option String → ExtractedText
from_html body none = any_text body
from_html body (some html) =
    if is_empty (trim (html_to_text html))
    then any_text body
    else extracted (trim (html_to_text html)) html_stripped full

abbrev from_text : Option String → Option String → ExtractedText
from_text none html = from_html none html
from_text (some body) html =
    if is_empty (trim body) then from_html (some body) html else extracted (trim body) plain full

abbrev of_parsed : Option Parsed → Result ExtractedText
of_parsed none = err (parse "failed to parse email for extraction")
of_parsed (some parsed) = ok (from_text parsed.body_text parsed.body_html)

module _ {ℓ} {Data : Type ℓ} (parser : Data → Option Parsed) where
  unfoldable pub extract_text : Data → Result ExtractedText
  unfolding html_to_text trim
  extract_text eml = of_parsed (parser eml)

  -- The messages of catalog entries whose text is extracted, and the others, a file that cannot be
  -- read among them.
  abbrev read_text : Result Data → Bool
  read_text (err e) = false
  read_text (ok eml) = is_ok (extract_text eml)

  unfoldable pub extract_catalog_entries : List (Result Data) → ℕ × ℕ
  unfolding extract_text
  extract_catalog_entries [] = (0, 0)
  extract_catalog_entries (file ∷ files) =
      let (good, bad) = extract_catalog_entries files in
      if read_text file then (suc good, bad) else (good, suc bad)

-- A text without angle brackets.
abbrev has_no_tags : String → Bool
has_no_tags String.[] = true
has_no_tags (String.◌∷◌ c s) = not (is_code 60 c) && not (is_code 62 c) && has_no_tags s

strip_tags-lem :
    (in_tag newline : Bool) (s : String) → has_no_tags (strip_tags in_tag newline s) ≡ true
unfolding strip_tags
strip_tags-lem in_tag newline String.[] = refl
strip_tags-lem in_tag newline (String.◌∷◌ c s) = ground (
  arith,
  strip_tags-lem true newline s,
  strip_tags-lem false newline s,
  strip_tags-lem in_tag newline s,
  strip_tags-lem in_tag true s,
  strip_tags-lem in_tag false s,
)

-- What is left of an HTML body has no angle bracket, and so no tag.
pub html_to_text-lem : (html : String) → has_no_tags (html_to_text html) ≡ true
unfolding html_to_text
html_to_text-lem html = strip_tags-lem false false html
