-- ===== src/Storage/Ingest.antt =====
-- storage/ingest.rs: what an ingest does to the stored messages.
use vivi_mail.Common.{
  String, some, Bool, false, ◌==◌, ◌≡◌, refl, sym, ap, ◌∙◌, arith, Result, ok, err, ok-injective,
  subst,
}
use vivi_mail.Common.Table.{Table, get}
use vivi_mail.Catalog.{Row}
use vivi_mail.Storage.{
  ParsedMetadata, Message, Tables, MessageIngestRequest, StoredMessage, Store, Content, Outcomes,
  blob_relpath, ingest_message, write_blob_if_absent, stored_message,
}
use vivi_mail.Storage.Transaction.{rows_written, with_rows, committed, ingest_message-atomic}
use vivi_mail.Storage.Query.{message_by_id}
use vivi_mail.Storage.Rows.{rows_written-ok, Shows, ingested, others_kept}

-- What an ingest promises of the views before and after it.
pub record Ingests (request : MessageIngestRequest) (metadata : ParsedMetadata)
    (stored : StoredMessage) (s t : Tables) : Type 0 where
  pub found :
      (r : Row) × (message_by_id t stored.message_id ≡ some r)
      × Shows request metadata stored.content_id stored.blob_relpath
          (get stored.message_id s.bindings)
          r
  pub others :
      (j : String)
      → (stored.message_id == j) ≡ false
      → ((m : Message) → get j s.messages ≡ some m → (stored.content_id == m.content_id) ≡ false)
      → message_by_id t j ≡ message_by_id s j

module _ {ℓ} {Data : Type ℓ} (content : Content Data) (o : Outcomes)
    (request : MessageIngestRequest) (bytes : Data) (now : String) (s : Store Data) where
  -- How an ingest that returns went.
  pub record Went (stored : StoredMessage) (u : Store Data) : Type ℓ where
    pub created : Bool
    pub written :
        write_blob_if_absent content o (blob_relpath (content.sha256_hex bytes)) bytes s.files
        ≡ ok (created, u.files)
    pub result : stored ≡ stored_message content request bytes created
    pub rows :
        rows_written content o request stored.message_id stored.content_id bytes now s.tables
        ≡ ok u.tables

  committed-Went :
      (created : Bool) (files : Table Data) (r : Result Tables) (stored : StoredMessage)
      (u : Store Data)
      → write_blob_if_absent content o (blob_relpath (content.sha256_hex bytes)) bytes s.files
        ≡ ok (created, files)
      → (let m = stored_message content request bytes created in
          rows_written content o request m.message_id m.content_id bytes now s.tables ≡ r)
      → committed content (stored_message content request bytes created) files s.tables r
        ≡ (ok stored, u)
      → Went stored u
  committed-Went created files (err x) stored u w k e = absurd (ground arith)
  committed-Went created files (ok v) stored u w k e =
      let same : stored ≡ stored_message content request bytes created =
        sym (ok-injective (ap (λ p. p.0) e)) in
      let store : u ≡ record { files = files; tables = v } = sym (ap (λ p. p.1) e) in
      subst (Went stored) (sym store) (
        subst (λ m. Went m (record { files = files; tables = v })) (sym same)
          (record { created = created; written = w; result = refl; rows = k }))

  with_rows-Went :
      (r : Result (Bool × Table Data)) (stored : StoredMessage) (u : Store Data)
      → write_blob_if_absent content o (blob_relpath (content.sha256_hex bytes)) bytes s.files ≡ r
      → with_rows content o request bytes now s r ≡ (ok stored, u)
      → Went stored u
  with_rows-Went (err x) stored u w e = absurd (ground arith)
  with_rows-Went (ok (created, files)) stored u w e =
      committed-Went created files _ stored u w refl e

  pub ingest_message-Went :
      (stored : StoredMessage) (u : Store Data)
      → ingest_message content o request bytes now s ≡ (ok stored, u)
      → Went stored u
  ingest_message-Went stored u e =
      with_rows-Went
        (write_blob_if_absent content o (blob_relpath (content.sha256_hex bytes)) bytes s.files)
        stored u refl (sym (ingest_message-atomic content o request bytes now s) ∙ e)

  -- An ingest that returns refines the abstract one: under the id that it returns, the message is
  -- found with the role and the flags of the request, not deleted, with the content and the blob
  -- that it returns, the subject and the Message-ID that the bytes have, and the request's remote
  -- reference, or the one that it had; a message with another id and another content is found
  -- exactly as before.
  pub ingest_message-Ingests :
      (stored : StoredMessage) (u : Store Data)
      → ingest_message content o request bytes now s ≡ (ok stored, u)
      → Ingests request (content.parse_metadata bytes) stored s.tables u.tables
  ingest_message-Ingests stored u e =
      let w = ingest_message-Went stored u e in
      let (same, f) =
        rows_written-ok content o request stored.message_id stored.content_id bytes now s.tables
          u.tables w.rows in
      let relpath : stored.blob_relpath ≡ blob_relpath stored.content_id =
        ap (λ m. m.blob_relpath) w.result ∙ ap (λ m. blob_relpath m.content_id) (sym w.result) in
      rw same (
        rw relpath (record {
          found = ingested content request stored.message_id stored.content_id bytes now s.tables;
          others =
              others_kept content request stored.message_id stored.content_id bytes now s.tables;
        }))
