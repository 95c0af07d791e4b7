-- ===== src/Imap/Download.antt =====
-- imap/sync/download.rs and `store_message` of imap/sync.rs: the workers that download a folder.
pub mod Chunks
pub mod Workers
pub mod Once
mod Tests
use vivi_mail.Common.{
  ℕ, zero, suc, ◌+◌, min, String, List, [], ◌∷◌, ◌++◌, Option, none, some, Bool, true, false, ◌==◌,
  ◌≡◌, map, find, nat_eq, leb, format, decimal, take, drop, length, VivariumError, other, imap,
  Result, ok, err, ok_or, to_string, if◌then◌else◌,
}
use vivi_mail.Common.Words.{join}
use vivi_mail.Config.{Account, provider_text}
use vivi_mail.Config.Resolve.{stores_full_bodies}
use vivi_mail.Catalog.{CatalogEntry, RemoteBinding}
use vivi_mail.Imap.Sync.{RemoteMessage}
use vivi_mail.Storage.{
  MessageIngestRequest, StoredMessage, Store, Content, Outcomes, ingest_message,
}
use vivi_mail.Storage.Query.{catalog_entry}

abbrev pub chunk_size : ℕ
chunk_size = 100

abbrev pub worker_limit : ℕ
worker_limit = 4

pub data FetchMode : Type 0 where
  headers full : FetchMode

unfoldable pub fetch_mode : Account → FetchMode
fetch_mode account = if stores_full_bodies account then full else headers

abbrev pub peek_fetch_items : FetchMode → String
peek_fetch_items headers = "BODY.PEEK[HEADER]"
peek_fetch_items full = "BODY.PEEK[]"

abbrev pub Chunk : Type 0
Chunk = List RemoteMessage

abbrev not_empty_then : Chunk → List Chunk → List Chunk
not_empty_then [] rest = []
not_empty_then (m ∷ ms) rest = (m ∷ ms) ∷ rest

-- `chunks(n)`, on fuel.
unfoldable pub chunks_in : ℕ → ℕ → List RemoteMessage → List Chunk
chunks_in zero n ms = []
chunks_in (suc fuel) n ms = not_empty_then (take n ms) (chunks_in fuel n (drop n ms))

unfoldable pub message_chunks : List RemoteMessage → List Chunk
unfolding chunks_in
message_chunks missing = chunks_in (length missing) chunk_size missing

abbrev uid_of : RemoteMessage → ℕ
uid_of m = m.uid

unfoldable pub uid_set_string : List ℕ → String
unfolding decimal join
uid_set_string uids = join "," (map decimal uids)

-- The chunk at the cursor, and the cursor after the call.
abbrev nth : ℕ → List Chunk → Option Chunk
nth n [] = none
nth zero (c ∷ cs) = some c
nth (suc n) (c ∷ cs) = nth n cs

unfoldable pub next_chunk : List Chunk → ℕ → Option Chunk × ℕ
next_chunk chunks pos = if leb (length chunks) pos then (none, pos) else (nth pos chunks, pos + 1)

-- What the server returns for one message.
pub record Fetch {ℓ} (Data : Type ℓ) : Type ℓ where
  pub uid : Option ℕ
  pub header : Option Data
  pub body : Option Data

module _ {ℓ} {Data : Type ℓ} where
  abbrev or_else : Option Data → Option Data → Option Data
  or_else none o = o
  or_else (some b) o = some b

  abbrev pub fetched_bytes : Fetch Data → FetchMode → Option Data
  fetched_bytes fetch headers = or_else fetch.header fetch.body
  fetched_bytes fetch full = fetch.body

abbrev uid_or_zero : Option ℕ → ℕ
uid_or_zero none = 0
uid_or_zero (some uid) = uid

-- The context of the workers: the account and its folders, the content of messages, and how the
-- accesses for one message end.
pub record WorkerContext {ℓ} (Data : Type ℓ) : Type ℓ where
  pub account : Account
  pub remote_folder : String
  pub local_folder : String
  pub content : Content Data
  pub outcomes : RemoteMessage → Outcomes
  pub now : RemoteMessage → String

module _ {ℓ} {Data : Type ℓ} (context : WorkerContext Data) where
  abbrev remote_binding : RemoteMessage → Option ℕ → Option RemoteBinding
  remote_binding remote none = none
  remote_binding remote (some uidvalidity) = some (record {
    account = context.account.name;
    provider = provider_text context.account.provider;
    remote_mailbox = context.remote_folder;
    remote_uid = remote.uid;
    remote_uidvalidity = uidvalidity;
  })

  unfoldable pub ingest_request : RemoteMessage → MessageIngestRequest
  ingest_request remote = record {
    account = context.account.name;
    local_role = context.local_folder;
    read_state = remote.read_state;
    starred = remote.starred;
    message_id_hint = none;
    seed_hint = format ("remote_uid:" ∷ decimal remote.uid ∷ []);
    remote = remote_binding remote remote.uidvalidity;
  }

  abbrev cataloged : Result StoredMessage × Store Data → Result CatalogEntry × Store Data
  cataloged (err e, store) = (err e, store)
  cataloged (ok stored, store) = (
    ok_or (catalog_entry store.tables context.account.name stored.message_id)
        (other (format ("stored message missing from catalog view: " ∷ stored.message_id ∷ []))),
    store,
  )

  unfoldable pub store_message :
      Data → RemoteMessage → Store Data → Result CatalogEntry × Store Data
  unfolding ingest_request
  store_message body remote store = cataloged (
      ingest_message context.content (context.outcomes remote) (ingest_request remote) body
        (context.now remote) store)

  -- The message of a chunk that a reply is for, with its bytes: none is a `continue`.
  abbrev with_remote : Data → Option RemoteMessage → Option (Data × RemoteMessage)
  with_remote body none = none
  with_remote body (some remote) = some (body, remote)

  abbrev with_body : Chunk → ℕ → Option Data → Option (Data × RemoteMessage)
  with_body chunk uid none = none
  with_body chunk uid (some body) = with_remote body (find (λ m. nat_eq m.uid uid) chunk)

  unfoldable pub to_store : Chunk → Fetch Data → Option (Data × RemoteMessage)
  to_store chunk fetch =
      with_body chunk (uid_or_zero fetch.uid) (fetched_bytes fetch (fetch_mode context.account))
