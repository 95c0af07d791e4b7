-- ===== src/Storage/Again.antt =====
-- storage/ingest.rs: the same ingest a second time.
use vivi_mail.Common.{
  String, Option, none, some, Bool, true, false, ◌≡◌, refl, sym, ap, ◌∙◌, inl, inr, Bool-cases, ok,
  >>=-eq-ok, ok-injective, subst,
}
use vivi_mail.Common.Table.{Table, get, upsert, get-upsert, upserted}
use vivi_mail.Storage.{
  MessageIngestRequest, StoredMessage, Store, Content, Outcomes, blob_relpath, ingest_message,
  write_blob_if_absent, matches,
}
use vivi_mail.Storage.Transaction.{rows_written, ingest_message-atomic}
use vivi_mail.Storage.Ingest.{ingest_message-Went}
use vivi_mail.Storage.Rewrite.{ingest_rows_again, restamped}

module _ {ℓ} {Data : Type ℓ} (content : Content Data) (o : Outcomes)
    (request : MessageIngestRequest) (bytes : Data) (now : String) where
  write_again :
      (path : String) (files files' : Table Data) (created : Bool)
      → content.same bytes bytes ≡ true
      → write_blob_if_absent content o path bytes files ≡ ok (created, files')
      → write_blob_if_absent content o path bytes files' ≡ ok (false, files')
  unfolding write_blob_if_absent
  write_again path files files' created same e =
      let (d, r, e₁) = >>=-eq-ok o.read_blob _ e in
      elim (Bool-cases (matches content bytes (get path files))) [
        | inl present ↦
            let kept : files ≡ files' = ap (λ p. p.1) (ok-injective (rw present at e₁)) in
            rw (← kept) (rw r (rw present refl))
        | inr absent ↦
            let (d', w, e₂) = >>=-eq-ok o.write_blob _ (rw absent at e₁) in
            let new : upsert path bytes (λ old. bytes) files ≡ files' =
              ap (λ p. p.1) (ok-injective e₂) in
            let found : get path files' ≡ some bytes =
              ap (get path) (sym new)
              ∙ (get-upsert path bytes (λ old. bytes) files ∙ ap some (either (get path files))) in
            rw r (rw found (rw same refl))
      ]
    where
      either : (old : Option Data) → upserted bytes (λ b. bytes) old ≡ bytes
      either none = refl
      either (some b) = refl

  -- An ingest that returned, done again at any time with the accesses ending as they did, returns
  -- the same message, writes no blob, and leaves the files and the tables as they are but for the
  -- time of the message's row, and of its binding where the request has a remote reference: the times
  -- of its discovery and of the parse are kept. The comparison of bytes must be reflexive.
  pub ingest_message-again :
      (later : String) (s u : Store Data) (stored : StoredMessage)
      → ((b : Data) → content.same b b ≡ true)
      → ingest_message content o request bytes now s ≡ (ok stored, u)
      → ingest_message content o request bytes later u ≡ (
        ok (record stored { created_blob = false }),
        record u { tables = restamped request.remote stored.message_id later u.tables },
      )
  ingest_message-again later s u stored same e =
      let w = ingest_message-Went content o request bytes now s stored u e in
      let rel = blob_relpath (content.sha256_hex bytes) in
      let file = write_again rel s.files u.files w.created (same bytes) w.written in
      let again =
        subst
          (λ m.
            rows_written content o request m.message_id m.content_id bytes later u.tables
            ≡ ok (restamped request.remote m.message_id later u.tables))
          w.result
          (ingest_rows_again content o request stored.message_id stored.content_id bytes now later
            s.tables u.tables w.rows) in
      rw (ingest_message-atomic content o request bytes later u) (
        rw file (
          rw again (
            ap
              (λ m. (
                ok (record m { created_blob = false }),
                record u { tables = restamped request.remote m.message_id later u.tables },
              ))
              (sym w.result))))
