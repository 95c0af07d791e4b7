-- ===== src/Storage/Query.antt =====
-- storage/schema.rs and storage/query.rs: the joined rows, and the queries for them.
use Prim.Native.Nat.{Ordering}
use Prim.Native.String.{compare}
use text.Mathlib.Text.{is_le}
use vivi_mail.Common.{
  ℕ, String, List, [], ◌∷◌, Option, none, some, Bool, true, false, not, ◌&&◌, ◌==◌, retain, map,
  if◌then◌else◌,
}
use vivi_mail.Common.Table.{Table, get, upsert, count_rows}
use vivi_mail.Catalog.{RemoteBinding, Row, CatalogEntry, catalog_entry_from_row}
use vivi_mail.Imap.Sync.{remote_size_key}
use vivi_mail.Storage.{Message, Binding, Blob, ParsedMetadata, Tables}
use vivi_mail.Storage.Mutate.{is_null}

-- LEFT JOIN: the binding of a message, where it has one.
abbrev pub bound : Option Binding → Option RemoteBinding
bound none = none
bound (some b) = some b.remote

-- The two inner joins: a message without its blob or its metadata has no row.
abbrev pub joined :
    String → Message → Option Binding → Option Blob → Option ParsedMetadata → Option Row
joined id m b none md = none
joined id m b (some blob) none = none
joined id m b (some blob) (some md) = some (record {
  message_id = id;
  account = m.account;
  content_id = m.content_id;
  blob_path = blob.blob_relpath;
  byte_size = blob.byte_size;
  local_role = m.local_role;
  read_state = m.read_state;
  starred = m.starred;
  date = md.date;
  from = md.from_addr;
  to = md.to_addr;
  cc = md.cc_addr;
  bcc = md.bcc_addr;
  subject = md.subject;
  normalized_message_id = md.normalized_message_id;
  binding = bound b;
  deleted = not (is_null m.deleted_at);
})

abbrev pub row_of : Tables → String → Message → Option Row
row_of tables id m =
    joined id m (get id tables.bindings) (get m.content_id tables.blobs)
      (get m.content_id tables.metadata)

abbrev pub row_at : Tables → String → Option Message → Option Row
row_at tables id none = none
row_at tables id (some m) = row_of tables id m

-- `message_by_id` but for the short handle.
unfoldable pub message_by_id : Tables → String → Option Row
message_by_id tables id = row_at tables id (get id tables.messages)

abbrev selected : String → Option Row → Option CatalogEntry
selected account none = none
selected account (some r) =
    if r.account == account && not r.deleted then some (catalog_entry_from_row r) else none

unfoldable pub catalog_entry : Tables → String → String → Option CatalogEntry
unfolding message_by_id
catalog_entry tables account id = selected account (message_by_id tables id)

-- The joined rows of all messages.
abbrev cons_row : Option Row → List Row → List Row
cons_row none rows = rows
cons_row (some r) rows = r ∷ rows

unfoldable pub rows_from : Tables → Table Message → List Row
rows_from tables [] = []
rows_from tables ((id, m) ∷ rest) = cons_row (row_of tables id m) (rows_from tables rest)

-- ORDER BY md.date DESC, m.message_id
abbrev by_id : Ordering → Row → Row → Bool
by_id Ordering.lt a b = true
by_id Ordering.eq a b = is_le (compare a.message_id b.message_id)
by_id Ordering.gt a b = false

abbrev precedes : Row → Row → Bool
precedes a b = by_id (compare b.date a.date) a b

unfoldable pub insert_row : Row → List Row → List Row
insert_row r [] = r ∷ []
insert_row r (s ∷ rest) =
    let later = insert_row r rest in if precedes r s then r ∷ s ∷ rest else s ∷ later

unfoldable pub sort_rows : List Row → List Row
unfolding insert_row
sort_rows [] = []
sort_rows (r ∷ rest) = insert_row r (sort_rows rest)

unfoldable pub list_messages_by_query : (Row → Bool) → Tables → List Row
unfolding rows_from sort_rows
list_messages_by_query test tables =
    sort_rows (retain (λ r. test r && not r.deleted) (rows_from tables tables.messages))

unfoldable pub list_messages_by_role : Tables → String → List Row
unfolding list_messages_by_query
list_messages_by_role tables role = list_messages_by_query (λ r. r.local_role == role) tables

unfoldable pub list_messages : Tables → List Row
unfolding list_messages_by_query
list_messages tables = list_messages_by_query (λ r. true) tables

unfoldable pub list_catalog_entries : Tables → String → List CatalogEntry
unfolding list_messages_by_query
list_catalog_entries tables account =
    map catalog_entry_from_row (list_messages_by_query (λ r. r.account == account) tables)

unfoldable pub count_messages_for_account : Tables → String → ℕ
count_messages_for_account tables account =
    count_rows (λ id m. m.account == account && is_null m.deleted_at) tables.messages

-- The size of a blob file, 0 where there is none, by the key of its remote reference or its id; of
-- two messages with one key the later row counts.
module _ (file_size : String → ℕ) where
  abbrev size_key : String → Row → Option RemoteBinding → String
  size_key role r none = r.message_id
  size_key role r (some remote) = remote_size_key role remote.remote_uidvalidity remote.remote_uid

  abbrev put_size : String → Row → Table ℕ → Table ℕ
  put_size role r sizes =
      upsert (size_key role r r.binding) (file_size r.blob_path) (λ old. file_size r.blob_path)
        sizes

  unfoldable pub collect_sizes : String → List Row → Table ℕ → Table ℕ
  unfolding remote_size_key
  collect_sizes role [] sizes = sizes
  collect_sizes role (r ∷ rest) sizes = collect_sizes role rest (put_size role r sizes)

  unfoldable pub local_sizes_by_role : Tables → String → Table ℕ
  unfolding collect_sizes list_messages_by_role
  local_sizes_by_role tables role = collect_sizes role (list_messages_by_role tables role) []
