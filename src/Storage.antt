-- ===== src/Storage.antt =====
-- storage.rs and storage/ingest.rs: the tables of the message store and the ingest of a message.
pub mod Mutate
pub mod Query
pub mod Refresh
pub mod WellFormed
pub mod Reach
pub mod Transaction
pub mod Rows
pub mod Ingest
pub mod Rewrite
pub mod Again
pub mod Tests
use Prim.Native.String.{slice}
use vivi_mail.Common.{
  ℕ, ◌-◌, ◌^◌, min, String, List, [], ◌∷◌, Option, none, some, Bool, true, false, not, ◌&&◌, ◌==◌,
  nat_eq, format, decimal, VivariumError, other, Result, ok, err, ◌>>=◌, ◌>>◌, if◌then◌else◌,
}
use vivi_mail.Common.Table.{Table, get, upsert}
use vivi_mail.Catalog.{RemoteBinding, RemoteIdentity, CatalogEntry, binding_of}

-- A row of `blobs`.
pub record Blob : Type 0 where
  pub blob_relpath : String
  pub byte_size : ℕ
  pub rfc_message_id : Option String
  pub parsed_at : String

-- A row of `message_metadata`.
pub record ParsedMetadata : Type 0 where
  pub date : String
  pub from_addr : String
  pub to_addr : String
  pub cc_addr : String
  pub bcc_addr : String
  pub subject : String
  pub normalized_message_id : Option String

-- A row of `messages`; `draft_state` is always NULL.
pub record Message : Type 0 where
  pub account : String
  pub content_id : String
  pub local_role : String
  pub read_state : Bool
  pub starred : Bool
  pub discovered_at : String
  pub updated_at : String
  pub deleted_at : Option String

-- A row of `remote_bindings`.
pub record Binding : Type 0 where
  pub remote : RemoteBinding
  pub last_verified_at : String
  pub stale : Bool

-- The tables, each by its primary key.
pub record Tables : Type 0 where
  pub blobs : Table Blob
  pub metadata : Table ParsedMetadata
  pub messages : Table Message
  pub bindings : Table Binding

pub record MessageIngestRequest : Type 0 where
  pub account : String
  pub local_role : String
  pub read_state : Bool
  pub starred : Bool
  pub message_id_hint : Option String
  pub seed_hint : String
  pub remote : Option RemoteBinding

pub record StoredMessage : Type 0 where
  pub message_id : String
  pub content_id : String
  pub blob_relpath : String
  pub created_blob : Bool

-- What the store asks of the bytes of a message, and of the hash of a text.
pub record Content {ℓ} (Data : Type ℓ) : Type ℓ where
  pub sha256_hex : Data → String
  pub sha256_text : String → String
  pub byte_length : Data → ℕ
  pub same : Data → Data → Bool
  pub parse_metadata : Data → ParsedMetadata

-- How each access to the disk and each statement ends; `unique_failed` is SQLite's text for a row
-- that repeats a unique remote reference.
pub record Outcomes : Type 0 where
  pub read_blob : Result (Unit {0})
  pub write_blob : Result (Unit {0})
  pub begin : Result (Unit {0})
  pub blob_row : Result (Unit {0})
  pub metadata_row : Result (Unit {0})
  pub message_row : Result (Unit {0})
  pub binding_row : Result (Unit {0})
  pub commit : Result (Unit {0})
  pub unique_failed : String

unfoldable pub blob_relpath : String → String
blob_relpath content_id =
    format (
      "blobs/" ∷ slice content_id 0 2 ∷ "/" ∷ slice content_id 2 4 ∷ "/" ∷ content_id ∷ ".eml" ∷ [])

abbrev pub i64_max : ℕ
i64_max = 2 ^ 63 - 1

-- The two unique keys of a remote message agree.
abbrev pub same_remote : RemoteBinding → RemoteBinding → Bool
same_remote a b =
    a.account == b.account
    && a.remote_mailbox == b.remote_mailbox
    && nat_eq a.remote_uidvalidity b.remote_uidvalidity
    && nat_eq a.remote_uid b.remote_uid

-- Another message has the remote reference.
unfoldable pub taken : String → RemoteBinding → Table Binding → Bool
taken id remote [] = false
taken id remote ((j, b) ∷ t) =
    let rest = taken id remote t in
    if not (j == id) && same_remote remote b.remote then true else rest

abbrev pub coalesce : Option String → Option String → Option String
coalesce none old = old
coalesce (some id) old = some id

module _ {ℓ} {Data : Type ℓ} (content : Content Data) where
  unfoldable pub opaque_message_id : String → String
  opaque_message_id seed = format ("msg_" ∷ slice (content.sha256_text seed) 0 24 ∷ [])

  unfoldable pub remote_bound_message_id : String → String → String → RemoteBinding → String
  unfolding opaque_message_id decimal
  remote_bound_message_id account local_role content_id remote = opaque_message_id (
      format (
        "remote\0"
        ∷ account
        ∷ "\0"
        ∷ local_role
        ∷ "\0"
        ∷ content_id
        ∷ "\0"
        ∷ remote.remote_mailbox
        ∷ "\0"
        ∷ decimal remote.remote_uidvalidity
        ∷ "\0"
        ∷ decimal remote.remote_uid
        ∷ []))

  unfoldable pub fallback_message_id : MessageIngestRequest → String → String
  unfolding opaque_message_id
  fallback_message_id request content_id = opaque_message_id (
      format (
        "local\0" ∷ request.account ∷ "\0" ∷ request.local_role ∷ "\0" ∷ request.seed_hint ∷ "\0"
        ∷ content_id ∷ []))

  abbrev bound_or_fallback : MessageIngestRequest → String → Option RemoteBinding → String
  bound_or_fallback request content_id none = fallback_message_id request content_id
  bound_or_fallback request content_id (some remote) =
      remote_bound_message_id request.account request.local_role content_id remote

  abbrev hinted : MessageIngestRequest → String → Option String → String
  hinted request content_id none = bound_or_fallback request content_id request.remote
  hinted request content_id (some id) = id

  unfoldable pub ingest_message_id : MessageIngestRequest → String → String
  ingest_message_id request content_id = hinted request content_id request.message_id_hint

  -- The row that an upsert writes, and what it makes of the row that is there.
  unfoldable pub blob_row_of : String → Data → ParsedMetadata → String → Blob
  blob_row_of relpath bytes metadata now = record {
    blob_relpath = relpath;
    byte_size = min (content.byte_length bytes) i64_max;
    rfc_message_id = metadata.normalized_message_id;
    parsed_at = now;
  }

abbrev pub update_blob : Blob → Blob → Blob
update_blob excluded old = record old {
  blob_relpath = excluded.blob_relpath;
  byte_size = excluded.byte_size;
  rfc_message_id = coalesce excluded.rfc_message_id old.rfc_message_id;
}

unfoldable pub upsert_blob_row : String → Blob → Tables → Tables
upsert_blob_row content_id row tables = record tables {
  blobs = upsert content_id row (update_blob row) tables.blobs;
}

unfoldable pub upsert_metadata_row : String → ParsedMetadata → Tables → Tables
upsert_metadata_row content_id metadata tables = record tables {
  metadata = upsert content_id metadata (λ old. metadata) tables.metadata;
}

abbrev pub message_row_of : MessageIngestRequest → String → String → Message
message_row_of request content_id now = record {
  account = request.account;
  content_id = content_id;
  local_role = request.local_role;
  read_state = request.read_state;
  starred = request.starred;
  discovered_at = now;
  updated_at = now;
  deleted_at = none;
}

abbrev pub update_message : Message → Message → Message
update_message excluded old = record old {
  content_id = excluded.content_id;
  local_role = excluded.local_role;
  read_state = excluded.read_state;
  starred = excluded.starred;
  updated_at = excluded.updated_at;
  deleted_at = none;
}

unfoldable pub upsert_message_row :
    MessageIngestRequest → String → String → String → Tables → Tables
upsert_message_row request message_id content_id now tables =
    let row = message_row_of request content_id now in
    record tables { messages = upsert message_id row (update_message row) tables.messages }

abbrev pub binding_row_of : RemoteBinding → String → Binding
binding_row_of remote now = record { remote = remote; last_verified_at = now; stale = false }

abbrev pub put_binding : String → Binding → Tables → Tables
put_binding id row tables = record tables { bindings = upsert id row (λ old. row) tables.bindings }

unfoldable pub upsert_remote_binding :
    Outcomes → String → Option RemoteBinding → String → Tables → Result Tables
unfolding taken
upsert_remote_binding outcomes id none now tables = ok tables
upsert_remote_binding outcomes id (some remote) now tables = do
  outcomes.binding_row
  if taken id remote tables.bindings
      then err (other (format ("failed to upsert remote binding: " ∷ outcomes.unique_failed ∷ [])))
      else ok (put_binding id (binding_row_of remote now) tables)

-- A connection to SQLite: the tables as its statements see them, and while a transaction is open,
-- those before it, to which SQLite returns where the transaction is dropped without a commit.
pub record Connection : Type 0 where
  pub tables : Tables
  pub before : Option Tables

abbrev pub connected : Tables → Connection
connected t = record { tables = t; before = none }

abbrev pub and_then :
    Result (Unit {0}) × Connection
    → (Connection → Result (Unit {0}) × Connection)
    → Result (Unit {0}) × Connection
and_then (ok done, c) f = f c
and_then (err e, c) f = (err e, c)

abbrev pub begin : Result (Unit {0}) → Connection → Result (Unit {0}) × Connection
begin (ok done) c = (ok tt, record c { before = some c.tables })
begin (err e) c = (err e, c)

abbrev pub commit : Result (Unit {0}) → Connection → Result (Unit {0}) × Connection
commit (ok done) c = (ok tt, record c { before = none })
commit (err e) c = (err e, c)

abbrev pub executed : Result Tables → Connection → Result (Unit {0}) × Connection
executed (ok t) c = (ok tt, record c { tables = t })
executed (err e) c = (err e, c)

-- A statement, which takes effect at once.
abbrev pub execute :
    Result (Unit {0}) → (Tables → Result Tables) → Connection → Result (Unit {0}) × Connection
execute (ok done) f c = executed (f c.tables) c
execute (err e) f c = (err e, c)

-- The end of the call, where a transaction that was not committed is dropped, and rolled back.
abbrev pub restored : Tables → Option Tables → Tables
restored t none = t
restored t (some old) = old

abbrev pub dropped : Result (Unit {0}) × Connection → Result (Unit {0}) × Tables
dropped (r, c) = (r, restored c.tables c.before)

-- The mail root: the blob files by their paths, and the tables.
pub record Store {ℓ} (Data : Type ℓ) : Type ℓ where
  pub files : Table Data
  pub tables : Tables

module _ {ℓ} {Data : Type ℓ} (content : Content Data) where
  -- Whether the file at a path has the bytes already.
  abbrev pub matches : Data → Option Data → Bool
  matches bytes none = false
  matches bytes (some existing) = content.same existing bytes

  unfoldable pub write_blob_if_absent :
      Outcomes → String → Data → Table Data → Result (Bool × Table Data)
  write_blob_if_absent outcomes path bytes files = do
    outcomes.read_blob
    if matches bytes (get path files)
        then ok (false, files)
        else do outcomes.write_blob; ok (true, upsert path bytes (λ old. bytes) files)

  -- The calls on the database, from the begin of the transaction to its commit.
  unfoldable pub ingest_rows :
      Outcomes
      → MessageIngestRequest
      → String
      → String
      → Data
      → String
      → Connection
      → Result (Unit {0}) × Connection
  unfolding blob_row_of upsert_blob_row upsert_metadata_row upsert_message_row upsert_remote_binding
  ingest_rows outcomes request message_id content_id bytes now connection =
      let metadata = content.parse_metadata bytes in
      let row = blob_row_of content (blob_relpath content_id) bytes metadata now in
      and_then
        (and_then
          (and_then
            (and_then
              (and_then (begin outcomes.begin connection)
                (execute outcomes.blob_row (λ t. ok (upsert_blob_row content_id row t))))
              (execute outcomes.metadata_row (λ t. ok (upsert_metadata_row content_id metadata t))))
            (execute outcomes.message_row
              (λ t. ok (upsert_message_row request message_id content_id now t))))
          (execute (ok tt) (upsert_remote_binding outcomes message_id request.remote now)))
        (commit outcomes.commit)

  abbrev pub stored_message : MessageIngestRequest → Data → Bool → StoredMessage
  stored_message request bytes created =
      let content_id = content.sha256_hex bytes in
      record {
        message_id = ingest_message_id content request content_id;
        content_id = content_id;
        blob_relpath = blob_relpath content_id;
        created_blob = created;
      }

  abbrev pub closed :
      StoredMessage → Table Data → Result (Unit {0}) × Tables → Result StoredMessage × Store Data
  closed stored files (err e, tables) = (err e, record { files = files; tables = tables })
  closed stored files (ok done, tables) = (ok stored, record { files = files; tables = tables })

  abbrev pub with_file :
      Outcomes
      → MessageIngestRequest
      → Data
      → String
      → Store Data
      → Result (Bool × Table Data)
      → Result StoredMessage × Store Data
  with_file outcomes request bytes now store (err e) = (err e, store)
  with_file outcomes request bytes now store (ok (created, files)) =
      let stored = stored_message request bytes created in
      closed stored files (
        dropped (
          ingest_rows outcomes request stored.message_id stored.content_id bytes now
            (connected store.tables)))

  -- `now` is the time of the call.
  unfoldable pub ingest_message :
      Outcomes
      → MessageIngestRequest
      → Data
      → String
      → Store Data
      → Result StoredMessage × Store Data
  unfolding write_blob_if_absent ingest_rows
  ingest_message outcomes request bytes now store =
      with_file outcomes request bytes now store
        (write_blob_if_absent outcomes (blob_relpath (content.sha256_hex bytes)) bytes store.files)
