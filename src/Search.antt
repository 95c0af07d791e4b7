-- ===== src/Search.antt =====
-- search/filters.rs and list.rs: the filters on the results of a search and on a listing.
mod Tests
use Prim.Native.Char.{Char, code}
use Prim.Native.String.{◌++◌}
use vivi_mail.Common.Words.{contains}
use vivi_mail.Common.{
  ℕ, String, List, [], ◌∷◌, Option, none, some, Bool, true, false, not, ◌&&◌, ◌||◌, ◌==◌, nat_eq,
  leb, ltb, any, ◌≡◌, refl, ap, ◌∙◌, arith, retain, take, is_empty, is_whitespace, trim,
  trim_start_matches, trim_matches, to_ascii_lowercase, if◌then◌else◌,
}

-- The fields of a search result that the filters read.
pub record SearchResult : Type 0 where
  pub handle : String
  pub local_role : String
  pub from : String

pub record SearchFilters : Type 0 where
  pub folder : Option String
  pub from_addr : Option String
  pub from_domain : Option String

abbrev not_blank : String → Option String
not_blank s = if is_empty s then none else some s

unfoldable pub clean_filter : Option String → Option String
unfolding trim
clean_filter none = none
clean_filter (some value) = not_blank (trim value)

abbrev is_none : Option String → Bool
is_none none = true
is_none (some s) = false

-- `SearchFilters::new`
unfoldable pub new : Option String → Option String → Option String → Option SearchFilters
unfolding clean_filter
new folder from_addr from_domain =
    let filters : SearchFilters = record {
      folder = folder;
      from_addr = clean_filter from_addr;
      from_domain = clean_filter from_domain;
    } in
    if is_none filters.folder && is_none filters.from_addr && is_none filters.from_domain
    then none
    else some filters

unfoldable pub contains_case_insensitive : String → String → Bool
unfolding to_ascii_lowercase contains
contains_case_insensitive haystack needle =
    contains (to_ascii_lowercase haystack) (to_ascii_lowercase needle)

-- `split` at the characters that a test selects.
abbrev cons_part : Char → List String → List String
cons_part c [] = String.◌∷◌ c "" ∷ []
cons_part c (part ∷ parts) = String.◌∷◌ c part ∷ parts

unfoldable pub split : (Char → Bool) → String → List String
split p String.[] = "" ∷ []
split p (String.◌∷◌ c s) = let parts = split p s in if p c then "" ∷ parts else cons_part c parts

-- The part after the last '@': the second half of `rsplit_once('@')`.
abbrev is_at : Char → Bool
is_at c = nat_eq (code c) 64

abbrev or_after : Bool → String → Option String → Option String
or_after at rest (some domain) = some domain
or_after true rest none = some rest
or_after false rest none = none

unfoldable pub after_last_at : String → Option String
after_last_at String.[] = none
after_last_at (String.◌∷◌ c s) = or_after (is_at c) s (after_last_at s)

abbrev is_quote : Char → Bool
is_quote c = nat_eq (code c) 34

abbrev is_boundary : Char → Bool
is_boundary c =
    is_whitespace c
    || nat_eq (code c) 60
    || nat_eq (code c) 62
    || nat_eq (code c) 44
    || nat_eq (code c) 59

abbrev has_domain : String → Option String → Bool
has_domain domain none = false
has_domain domain (some sender_domain) = trim_matches is_quote sender_domain == domain

unfoldable pub matches_sender_domain : String → String → Bool
unfolding to_ascii_lowercase trim trim_start_matches trim_matches split after_last_at is_whitespace
matches_sender_domain from domain =
    let wanted = to_ascii_lowercase (trim_start_matches is_at (trim domain)) in
    if is_empty wanted
    then true
    else any (λ part. has_domain wanted (after_last_at part))
        (split is_boundary (to_ascii_lowercase from))

abbrev passes : Option String → (String → Bool) → Bool
passes none test = true
passes (some value) test = test value

-- Each `return false` is a filter that the result does not pass.
unfoldable pub matches_filters : SearchResult → SearchFilters → Bool
unfolding to_ascii_lowercase contains_case_insensitive matches_sender_domain
matches_filters result filters =
    passes filters.folder
      (λ folder. to_ascii_lowercase result.local_role == to_ascii_lowercase folder)
    && passes filters.from_addr (contains_case_insensitive result.from)
    && passes filters.from_domain (matches_sender_domain result.from)

unfoldable pub filter_results : List SearchResult → Option SearchFilters → List SearchResult
unfolding matches_filters
filter_results results none = results
filter_results results (some filters) = retain (λ result. matches_filters result filters) results

-- message.rs: an entry of a listing, with its date as the number of its day, by which chrono orders
-- dates.
pub record MessageEntry : Type 0 where
  pub message_id : String
  pub from : String
  pub subject : String
  pub date : ℕ
  pub read_state : Bool
  pub starred : Bool

-- sync.rs: the days from `since` on and before `before`.
pub record SyncWindow : Type 0 where
  pub since : Option ℕ
  pub before : Option ℕ

abbrev from_day : Option ℕ → ℕ → Bool
from_day none date = true
from_day (some since) date = leb since date

abbrev until_day : Option ℕ → ℕ → Bool
until_day none date = true
until_day (some before) date = ltb date before

unfoldable pub contains_datetime : SyncWindow → ℕ → Bool
contains_datetime window date = from_day window.since date && until_day window.before date

unfoldable pub matches_text_filter : MessageEntry → Option String → Bool
unfolding to_ascii_lowercase contains
matches_text_filter entry none = true
matches_text_filter entry (some text_filter) =
    let filter = to_ascii_lowercase text_filter in
    contains (to_ascii_lowercase entry.message_id) filter
    || contains (to_ascii_lowercase entry.from) filter
    || contains (to_ascii_lowercase entry.subject) filter

-- `is_none_or(|state| entry_state == state)`
abbrev pub agrees : Option Bool → Bool → Bool
agrees none b = true
agrees (some true) b = b
agrees (some false) b = not b

abbrev pub truncated : Option ℕ → List MessageEntry → List MessageEntry
truncated none entries = entries
truncated (some limit) entries = take limit entries

unfoldable pub filter_entries :
    List MessageEntry
    → SyncWindow
    → Option ℕ
    → Option String
    → Option Bool
    → Option Bool
    → List MessageEntry
unfolding contains_datetime matches_text_filter
filter_entries entries window limit text_filter read_state starred = truncated limit (
    retain (λ e. agrees starred e.starred)
      (retain (λ e. agrees read_state e.read_state)
        (retain (λ e. matches_text_filter e text_filter)
          (retain (λ e. contains_datetime window e.date) entries))))

retain-retain :
    {A : Type 0} (p q : A → Bool) (xs : List A)
    → retain p (retain q xs) ≡ retain (λ x. q x && p x) xs
retain-retain p q [] = refl
retain-retain p q (x ∷ xs) = ground (arith, retain-retain p q xs)

-- An entry is listed by all of its filters together.
abbrev pub is_listed : SyncWindow → Option String → Option Bool → Option Bool → MessageEntry → Bool
is_listed window text_filter read_state starred e =
    ((contains_datetime window e.date && matches_text_filter e text_filter)
      && agrees read_state e.read_state)
    && agrees starred e.starred

-- A listing has, in order and up to the limit, exactly the entries that pass all filters.
pub filter_entries-lem :
    (entries : List MessageEntry) (window : SyncWindow) (limit : Option ℕ)
    (text_filter : Option String) (read_state starred : Option Bool)
    → filter_entries entries window limit text_filter read_state starred
      ≡ truncated limit (retain (is_listed window text_filter read_state starred) entries)
unfolding filter_entries
filter_entries-lem entries window limit text_filter read_state starred = ap (truncated limit) (
    ap
      (λ es.
        retain (λ e. agrees starred e.starred) (retain (λ e. agrees read_state e.read_state) es))
      (retain-retain (λ e. matches_text_filter e text_filter) (λ e. contains_datetime window e.date)
        entries)
    ∙ (ap (retain (λ e. agrees starred e.starred))
          (retain-retain (λ e. agrees read_state e.read_state) _ entries)
        ∙ retain-retain (λ e. agrees starred e.starred) _ entries))
