-- ===== src/Imap/Plan/Selection.antt =====
-- imap/sync/plan.rs: what the flags and the configuration select.

use vivi_mail.Common.{
  String, List, [], ◌∷◌, ◌++◌, Option, none, some, Bool, true, false, not, any, ◌≡◌, ◌≢◌, inl, inr,
  arith, ok, All, All-append, Bool-cases, >>=-eq-ok, ok-injective, is_empty, trim, subst,
  if◌then◌else◌, is_whitespace, trim_matches, trim_start_matches, trim_end_matches,
}
use vivi_mail.Imap.Folders.{mailbox_names_eq}
use vivi_mail.Imap.Plan.{
  SyncSelection, all, named, collect_names, normalize_selector_names, named_from_account_defaults,
  from_inputs, is_nil,
}

abbrev pub Differs : String → String → Type 0
Differs m n = mailbox_names_eq m n ≡ false

-- Whether a text has a character that is no whitespace.
unfoldable pub has_text : String → Bool
has_text String.[] = false
has_text (String.◌∷◌ c s) = let rest = has_text s in if is_whitespace c then rest else true

trim_end_matches-has_text :
    (s : String)
    → is_empty (trim_end_matches is_whitespace s) ≡ false
    → has_text (trim_end_matches is_whitespace s) ≡ true
unfolding trim_end_matches has_text
trim_end_matches-has_text String.[] h = cc
trim_end_matches-has_text (String.◌∷◌ c s) h = ground (arith, trim_end_matches-has_text s)

trim-has_text : (s : String) → is_empty (trim s) ≡ false → has_text (trim s) ≡ true
unfolding trim trim_matches
trim-has_text s h = trim_end_matches-has_text (trim_start_matches is_whitespace s) h

-- Names with text, each once as a mailbox.
abbrev pub IsSelector : List String → Type 0
IsSelector [] = Unit
IsSelector (n ∷ ns) = (has_text n ≡ true) × All (Differs n) ns × IsSelector ns

IsSelector-append_one :
    (ns : List String) (m : String)
    → IsSelector ns
    → has_text m ≡ true
    → any (λ existing. mailbox_names_eq existing m) ns ≡ false
    → IsSelector (ns ++ m ∷ [])
IsSelector-append_one [] m d h f = (h, tt, tt)
IsSelector-append_one (n ∷ ns) m d h f = (
  d.0,
  All-append (Differs n) ns (m ∷ []) d.1 (ground arith),
  IsSelector-append_one ns m d.2 h (ground arith),
)

with_name : List String → String → List String
with_name out name =
    if any (λ existing. mailbox_names_eq existing name) out then out else out ++ name ∷ []

with_name-IsSelector :
    (out : List String) (name : String)
    → has_text name ≡ true
    → IsSelector out
    → IsSelector (with_name out name)
unfolding with_name
with_name-IsSelector out name e h =
    elim (Bool-cases (any (λ existing. mailbox_names_eq existing name) out)) [
      | inl old ↦ rw old h
      | inr new ↦ rw new (IsSelector-append_one out name h e new)
    ]

collect_names-IsSelector :
    (out names r : List String) → IsSelector out → collect_names out names ≡ ok r → IsSelector r
unfolding collect_names with_name
collect_names-IsSelector out [] r h e = subst IsSelector (ok_inj e) h
  where
    ok_inj : ok out ≡ ok r → out ≡ r
    ok_inj x = cc
collect_names-IsSelector out (name ∷ names) r h e = elim (Bool-cases (is_empty (trim name))) [
  | inl blank ↦ absurd (ground arith)
  | inr filled ↦
      collect_names-IsSelector (with_name out (trim name)) names r
        (with_name-IsSelector out (trim name) (trim-has_text name filled) h) (rw filled at e)
]

-- What a selection of names must be.
abbrev pub Selects : SyncSelection → Type 0
Selects (named ns) = (ns ≢ []) × IsSelector ns
Selects _ = Unit

filled : (ns : List String) → not (is_nil ns) ≡ true → ns ≢ []
filled [] h = absurd (cc)
filled (n ∷ ns) h = λ e. cc

from_names :
    (ns : List String) (s : SyncSelection)
    → IsSelector ns
    → not (is_nil ns) ≡ true
    → named ns ≡ s
    → Selects s
from_names ns s h f e = subst Selects e (filled ns f, h)

from_defaults :
    (d : Option (List String)) (t : SyncSelection)
    → named_from_account_defaults d ≡ ok t
    → Selects t
unfolding named_from_account_defaults normalize_selector_names
from_defaults none t p = subst Selects (ok-injective p) tt
from_defaults (some ds) t p =
    let (chosen, c, p') = >>=-eq-ok (collect_names [] ds) _ p in
    elim (Bool-cases (is_nil chosen)) [
      | inl none_given ↦ absurd (ground arith)
      | inr given ↦
          from_names chosen t (collect_names-IsSelector [] ds chosen tt c) (ground arith)
            (ground arith)
    ]

by_default :
    (b : Bool) (d : Option (List String)) (t : SyncSelection)
    → (if b then ok all else named_from_account_defaults d) ≡ ok t
    → Selects t
by_default true d t p = subst Selects (ok-injective p) tt
by_default false d t p = from_defaults d t p

-- A selection of names, from the command line or from the account, is not empty, has a character
-- that is no whitespace in each name, and names no mailbox twice.
pub from_inputs-Selects :
    (every : Bool) (names : List String) (defaults : Option (List String)) (s : SyncSelection)
    → from_inputs every names defaults ≡ ok s
    → Selects s
unfolding from_inputs normalize_selector_names
from_inputs-Selects every names defaults s e =
    let (chosen, c, e') = >>=-eq-ok (collect_names [] names) _ e in
    elim (Bool-cases (not (is_nil chosen))) [
      | inl given ↦
          from_names chosen s (collect_names-IsSelector [] names chosen tt c) given (ground arith)
      | inr empty ↦ by_default every defaults s (ground arith)
    ]
