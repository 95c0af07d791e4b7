-- ===== src/Catalog/Handles.antt =====
-- storage.rs and storage/handles.rs: the short handles, and the messages that a token stands for.
pub mod Laws
use text.Mathlib.Text.{starts_with}
use Prim.Native.String.{len, slice}
use vivi_mail.Common.{
  ℕ, ◌-◌, min, String, List, [], ◌∷◌, Option, none, some, Bool, true, false, ◌&&◌, ◌==◌, any,
  retain, map, length, format, decimal, VivariumError, message, Result, ok, err, if◌then◌else◌,
}
use vivi_mail.Catalog.{CatalogEntry, Row, active, entry}

-- `strip_prefix("msg_")` and the first eight bytes of the rest.
unfoldable pub short_handle : String → String
short_handle id =
    if starts_with id "msg_" then slice (slice id 4 (len id)) 0 (min 8 (len id - 4)) else id

abbrev pub id_of : Row → String
id_of r = r.message_id

-- `active_message_ids`, in the order of the table.
unfoldable pub active_message_ids : List Row → List String
active_message_ids rows = map id_of (retain active rows)

abbrev pub resolve_content : String → List String → Result String
resolve_content token [] = err (message (format ("message not found: " ∷ token ∷ [])))
resolve_content token (id ∷ []) = ok id
resolve_content token ids = err (
    message (
      format (
        "ambiguous content_id prefix '"
        ∷ token
        ∷ "'; matches "
        ∷ decimal (length ids)
        ∷ " messages"
        ∷ [])))

-- A single match answers, several are an error, and none leaves the next way.
abbrev pub one_of : String → String → List String → Result String → Result String
one_of what token [] next = next
one_of what token (id ∷ []) next = ok id
one_of what token ids next = err (
    message (
      format (
        "ambiguous "
        ∷ what
        ∷ " '"
        ∷ token
        ∷ "'; matches "
        ∷ decimal (length ids)
        ∷ " messages"
        ∷ [])))

module _ (like : String → String → Bool) where
  unfoldable pub content_prefix_matches : List Row → String → List String
  content_prefix_matches rows token =
      map id_of (retain (λ r. active r && like r.content_id (format (token ∷ "%" ∷ []))) rows)

  unfoldable pub resolve_message_token : List Row → String → Result String
  unfolding short_handle active_message_ids content_prefix_matches
  resolve_message_token rows token =
      let ids = active_message_ids rows in
      if any (λ id. id == token) ids
      then ok token
      else one_of "handle" token (retain (λ id. short_handle id == token) ids) (
          one_of "message_id prefix" token (retain (λ id. starts_with id token) ids)
            (resolve_content token (content_prefix_matches rows token)))

abbrev entry_at : List Row → String → Result String → Option CatalogEntry
entry_at rows account (ok id) = entry rows account id
entry_at rows account (err e) = none

abbrev or_else {ℓ} : {A : Type ℓ} → Option A → Option A → Option A
or_else none o = o
or_else (some a) o = some a

-- Both direct lookups of `resolve_entry` are one query.
unfoldable pub resolve_entry :
    (String → String → Bool) → List Row → String → String → Option CatalogEntry
unfolding entry resolve_message_token
resolve_entry like rows account token =
    or_else (entry rows account token)
      (entry_at rows account (resolve_message_token like rows token))
