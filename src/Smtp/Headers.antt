-- ===== src/Smtp/Headers.antt =====
-- smtp.rs: which header lines are left.
use Prim.Native.Char.{Char}
use Prim.Native.String.{◌++◌}
use vivi_mail.Common.{
  String, List, [], ◌∷◌, ◌++◌ as ◌⧺◌, Bool, true, false, not, ◌&&◌, ◌≡◌, All, if◌then◌else◌,
}
use vivi_mail.Common.Words.{concat}
use vivi_mail.Smtp.{split_inclusive, trim_crlf, is_bcc_header, is_folded_continuation}

abbrev pub names_bcc : String → Bool
names_bcc line = is_bcc_header (trim_crlf line)

abbrev pub folded : String → Bool
folded line = is_folded_continuation (trim_crlf line)

-- A header: its first line, and the continuations of it.
pub record Header : Type 0 where
  pub first : String
  pub continuations : List String

-- The lines that continue a header, and the headers after it: a line that names Bcc begins a header
-- of its own in any case.
pub headers_after : List String → List String × List Header
headers_after [] = ([], [])
headers_after (line ∷ lines) =
    let (own, others) = headers_after lines in
    if folded line && not (names_bcc line)
    then (line ∷ own, others)
    else ([], record { first = line; continuations = own } ∷ others)

pub without_bcc : List Header → List Header
without_bcc [] = []
without_bcc (h ∷ hs) = let rest = without_bcc hs in if names_bcc h.first then rest else h ∷ rest

pub lines_of : List Header → List String
lines_of [] = []
lines_of (h ∷ hs) = (h.first ∷ h.continuations) ⧺ lines_of hs

-- Whether a line continues the header before it.
abbrev pub continues : String → Bool
continues line = folded line && not (names_bcc line)

-- A header's first line begins one, and the others continue it.
abbrev pub IsHeader : Header → Type 0
IsHeader h = (continues h.first ≡ false) × All (λ line. continues line ≡ true) h.continuations

-- What the header block of a message is: the lines of it, each with its line break, are those that
-- continue no header and those of the headers, and they spell the block.
pub record IsBlock (head : String) (own : List String) (hs : List Header) : Type 0 where
  pub lines : own ⧺ lines_of hs ≡ split_inclusive head
  pub spells : concat (own ⧺ lines_of hs) ≡ head
  pub own_continue : All (λ line. continues line ≡ true) own
  pub headers : All IsHeader hs
