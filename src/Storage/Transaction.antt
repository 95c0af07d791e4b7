-- ===== src/Storage/Transaction.antt =====
-- storage/ingest.rs: the transaction of an ingest, against the rows that it writes as a whole.
use vivi_mail.Common.{
  String, some, Bool, ◌≡◌, refl, ap, Result, ok, err, ◌>>=◌, ◌>>◌, is_ok, false, ◌∙◌,
}
use vivi_mail.Common.Table.{Table}
use vivi_mail.Storage.{
  Tables, MessageIngestRequest, StoredMessage, Store, Content, Outcomes, blob_row_of,
  upsert_blob_row, upsert_metadata_row, upsert_message_row, upsert_remote_binding, connected,
  dropped, ingest_rows, blob_relpath, stored_message, closed, with_file, write_blob_if_absent,
  ingest_message, begin, commit, execute, executed, and_then,
}

-- All of the rows, or none.
abbrev pub all_or_none : Tables → Result Tables → Result (Unit {0}) × Tables
all_or_none t (ok u) = (ok tt, u)
all_or_none t (err e) = (err e, t)

-- Four statements in a transaction take effect together.
atomic :
    (b b₁ b₂ b₃ c : Result (Unit {0})) (f g h : Tables → Tables) (k : Tables → Result Tables)
    (t : Tables)
    → dropped (
        and_then
          (and_then
            (and_then
              (and_then
                (and_then (begin b (connected t)) (execute b₁ (λ u. ok (f u))))
                (execute b₂ (λ u. ok (g u))))
              (execute b₃ (λ u. ok (h u))))
            (execute (ok tt) k))
          (commit c))
      ≡ all_or_none t (b >> (b₁ >> (b₂ >> (b₃ >> (k (h (g (f t))) >>= λ u. c >> ok u)))))
atomic (err e) b₁ b₂ b₃ c f g h k t = refl
atomic (ok a) (err e) b₂ b₃ c f g h k t = refl
atomic (ok a) (ok a₁) (err e) b₃ c f g h k t = refl
atomic (ok a) (ok a₁) (ok a₂) (err e) c f g h k t = refl
atomic (ok a) (ok a₁) (ok a₂) (ok a₃) c f g h k t = last (k (h (g (f t)))) c
  where
    last :
        (r : Result Tables) (c : Result (Unit {0}))
        → dropped
            (and_then (executed r (record { tables = h (g (f t)); before = some t })) (commit c))
          ≡ all_or_none t (r >>= λ u. c >> ok u)
    last (err e) c = refl
    last (ok u) (err e) = refl
    last (ok u) (ok done) = refl

module _ {ℓ} {Data : Type ℓ} (content : Content Data) where
  -- The rows after all statements, where each of them and the begin and the commit succeed.
  unfoldable pub rows_written :
      Outcomes → MessageIngestRequest → String → String → Data → String → Tables → Result Tables
  rows_written outcomes request message_id content_id bytes now tables = do
    let metadata = content.parse_metadata bytes
    outcomes.begin
    outcomes.blob_row
    let with_blob =
        upsert_blob_row content_id
          (blob_row_of content (blob_relpath content_id) bytes metadata now) tables
    outcomes.metadata_row
    let with_metadata = upsert_metadata_row content_id metadata with_blob
    outcomes.message_row
    let with_message = upsert_message_row request message_id content_id now with_metadata
    with_binding ← upsert_remote_binding outcomes message_id request.remote now with_message
    outcomes.commit
    ok with_binding

  abbrev pub committed :
      StoredMessage → Table Data → Tables → Result Tables → Result StoredMessage × Store Data
  committed stored files tables (err e) = (err e, record { files = files; tables = tables })
  committed stored files tables (ok new) = (ok stored, record { files = files; tables = new })

  abbrev pub with_rows :
      Outcomes
      → MessageIngestRequest
      → Data
      → String
      → Store Data
      → Result (Bool × Table Data)
      → Result StoredMessage × Store Data
  with_rows outcomes request bytes now store (err e) = (err e, store)
  with_rows outcomes request bytes now store (ok (created, files)) =
      let stored = stored_message content request bytes created in
      committed stored files store.tables
        (rows_written outcomes request stored.message_id stored.content_id bytes now store.tables)

  ingest_rows-atomic :
      (o : Outcomes) (request : MessageIngestRequest) (id content_id : String) (bytes : Data)
      (now : String) (t : Tables)
      → dropped (ingest_rows content o request id content_id bytes now (connected t))
        ≡ all_or_none t (rows_written o request id content_id bytes now t)
  unfolding ingest_rows rows_written
  ingest_rows-atomic o request id content_id bytes now t =
      atomic o.begin o.blob_row o.metadata_row o.message_row o.commit
        (upsert_blob_row content_id
          (blob_row_of content (blob_relpath content_id) bytes (content.parse_metadata bytes) now))
        (upsert_metadata_row content_id (content.parse_metadata bytes))
        (upsert_message_row request id content_id now)
        (upsert_remote_binding o id request.remote now) t

  -- An ingest leaves the rows of all its statements, or those before it.
  pub ingest_message-atomic :
      (o : Outcomes) (request : MessageIngestRequest) (bytes : Data) (now : String) (s : Store Data)
      → ingest_message content o request bytes now s
        ≡ with_rows o request bytes now s
            (write_blob_if_absent content o (blob_relpath (content.sha256_hex bytes)) bytes s.files)
  unfolding ingest_message
  ingest_message-atomic o request bytes now s =
      cases (write_blob_if_absent content o (blob_relpath (content.sha256_hex bytes)) bytes s.files)
    where
      same :
          (stored : StoredMessage) (files : Table Data) (t : Tables) (r : Result Tables)
          → closed content stored files (all_or_none t r) ≡ committed stored files t r
      same stored files t (err e) = refl
      same stored files t (ok u) = refl

      cases :
          (r : Result (Bool × Table Data))
          → with_file content o request bytes now s r ≡ with_rows o request bytes now s r
      cases (err e) = refl
      cases (ok (created, files)) =
          let m = stored_message content request bytes created in
          ap (closed content m files)
            (ingest_rows-atomic o request m.message_id m.content_id bytes now s.tables)
          ∙ same m files s.tables
              (rows_written o request m.message_id m.content_id bytes now s.tables)

  -- An ingest that fails, by an access to the disk or by any call on the database from the begin of
  -- its transaction to the commit, leaves every row as it was.
  pub ingest_message-failed :
      (o : Outcomes) (request : MessageIngestRequest) (bytes : Data) (now : String) (s : Store Data)
      → is_ok (ingest_message content o request bytes now s).0 ≡ false
      → (ingest_message content o request bytes now s).1.tables ≡ s.tables
  ingest_message-failed o request bytes now s = rw (ingest_message-atomic o request bytes now s) (
      cases
        (write_blob_if_absent content o (blob_relpath (content.sha256_hex bytes)) bytes s.files))
    where
      kept :
          (stored : StoredMessage) (files : Table Data) (t : Tables) (r : Result Tables)
          → is_ok (committed stored files t r).0 ≡ false
          → (committed stored files t r).1.tables ≡ t
      kept stored files t (err x) e = refl
      kept stored files t (ok u) e = cc

      cases :
          (r : Result (Bool × Table Data))
          → is_ok (with_rows o request bytes now s r).0 ≡ false
          → (with_rows o request bytes now s r).1.tables ≡ s.tables
      cases (err x) e = refl
      cases (ok (created, files)) e =
          let m = stored_message content request bytes created in
          kept m files s.tables
            (rows_written o request m.message_id m.content_id bytes now s.tables) e
