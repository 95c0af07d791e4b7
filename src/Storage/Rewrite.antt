-- ===== src/Storage/Rewrite.antt =====
-- storage/ingest.rs: the rows of an ingest, written over themselves at a later time.
use vivi_mail.Common.{
  String, [], ◌∷◌, Option, none, some, true, ◌==◌, ◌≡◌, refl, ap, inl, inr, arith, Bool-cases, ok,
  >>=-eq-ok, eq_iff, if◌then◌else◌,
}
use vivi_mail.Common.Table.{Table, upsert}
use vivi_mail.Catalog.{RemoteBinding}
use vivi_mail.Storage.{
  Blob, Binding, Message, Tables, MessageIngestRequest, Content, Outcomes, taken, blob_row_of,
  update_blob, upsert_blob_row, upsert_metadata_row, message_row_of, update_message,
  upsert_message_row, binding_row_of, upsert_remote_binding, blob_relpath, coalesce,
}
use vivi_mail.Storage.Transaction.{rows_written}
use vivi_mail.Storage.Rows.{with_message, with_binding, free, rows_written-ok}

-- The row of a key, changed.
abbrev pub adjust {ℓ} : {V : Type ℓ} → String → (V → V) → Table V → Table V
adjust k f [] = []
adjust k f ((j, v) ∷ t) = let rest = adjust k f t in if j == k then (j, f v) ∷ t else (j, v) ∷ rest

module _ {V : Type 0} (k : String) (new later : V) (update update_later : V → V) where
  -- A second upsert of a key changes what the first one left as `f` does.
  upsert-adjust :
      (f : V → V) (t : Table V)
      → update_later new ≡ f new
      → ((v : V) → update_later (update v) ≡ f (update v))
      → upsert k later update_later (upsert k new update t) ≡ adjust k f (upsert k new update t)
  upsert-adjust f [] n u =
      let e : (k == k) ≡ true = (eq_iff k k).1 refl in rw e (ap (λ v. (k, v) ∷ []) n)
  upsert-adjust f ((j, v) ∷ t) n u = elim (Bool-cases (j == k)) [
    | inl e ↦ rw e (rw e (ap (λ w. (j, w) ∷ t) (u v)))
    | inr e ↦ rw e (rw e (ap (λ r. (j, v) ∷ r) (upsert-adjust f t n u)))
  ]

  -- A second upsert that changes nothing.
  upsert-upsert :
      (t : Table V)
      → update_later new ≡ new
      → ((v : V) → update_later (update v) ≡ update v)
      → upsert k later update_later (upsert k new update t) ≡ upsert k new update t
  upsert-upsert [] n u =
      let e : (k == k) ≡ true = (eq_iff k k).1 refl in rw e (ap (λ v. (k, v) ∷ []) n)
  upsert-upsert ((j, v) ∷ t) n u = elim (Bool-cases (j == k)) [
    | inl e ↦ rw e (rw e (ap (λ w. (j, w) ∷ t) (u v)))
    | inr e ↦ rw e (rw e (ap (λ r. (j, v) ∷ r) (upsert-upsert t n u)))
  ]

coalesce_same : (x : Option String) → coalesce x x ≡ x
coalesce_same none = refl
coalesce_same (some id) = refl

coalesce_twice : (x y : Option String) → coalesce x (coalesce x y) ≡ coalesce x y
coalesce_twice none y = refl
coalesce_twice (some id) y = refl

taken_put :
    (id : String) (remote : RemoteBinding) (row : Binding) (t : Table Binding)
    → taken id remote (upsert id row (λ old. row) t) ≡ taken id remote t
unfolding taken
taken_put id remote row [] = let e : (id == id) ≡ true = (eq_iff id id).1 refl in rw e refl
taken_put id remote row ((j, b) ∷ t) = elim (Bool-cases (j == id)) [
  | inl e ↦ rw e (rw e refl)
  | inr e ↦ rw e (rw e (ground (arith, taken_put id remote row t)))
]

-- A message and a binding that were written at another time.
abbrev pub updated : String → Message → Message
updated later m = record m { updated_at = later }

abbrev pub verified : String → Binding → Binding
verified later b = record b { last_verified_at = later }

abbrev pub rebound : Option RemoteBinding → String → String → Table Binding → Table Binding
rebound none id later t = t
rebound (some remote) id later t = adjust id (verified later) t

-- The tables with the time of the message's row, and of its binding where one is asked for.
abbrev pub restamped : Option RemoteBinding → String → String → Tables → Tables
restamped remote id later t = record t {
  messages = adjust id (updated later) t.messages;
  bindings = rebound remote id later t.bindings;
}

module _ {ℓ} {Data : Type ℓ} (content : Content Data) (o : Outcomes)
    (request : MessageIngestRequest) (id content_id : String) (bytes : Data)
    (now later : String) where
  abbrev blob : String → Blob
  blob time =
      blob_row_of content (blob_relpath content_id) bytes (content.parse_metadata bytes) time

  abbrev written : String → Tables → Tables
  written time t =
      with_binding request.remote id time (with_message content request id content_id bytes time t)

  -- The rows of an ingest, written over themselves at a later time.
  written-written :
      (t : Tables)
      → written later (written now t) ≡ restamped request.remote id later (written now t)
  unfolding upsert_blob_row upsert_metadata_row upsert_message_row blob_row_of
  written-written t = cases request.remote
    where
      messages :
          (let row = message_row_of request content_id now in
            let row_later = message_row_of request content_id later in
            upsert id row_later
              (update_message row_later)
              (upsert id row (update_message row) t.messages)
            ≡ adjust id (updated later) (upsert id row (update_message row) t.messages))
      messages =
          upsert-adjust id (message_row_of request content_id now)
            (message_row_of request content_id later)
            (update_message (message_row_of request content_id now))
            (update_message (message_row_of request content_id later)) (updated later) t.messages
            refl (λ m. refl)

      blobs :
          upsert content_id
            (blob later)
            (update_blob (blob later))
            (upsert content_id (blob now) (update_blob (blob now)) t.blobs)
          ≡ upsert content_id (blob now) (update_blob (blob now)) t.blobs
      blobs =
          upsert-upsert content_id (blob now) (blob later) (update_blob (blob now))
            (update_blob (blob later)) t.blobs
            (ap (λ r. record (blob now) { rfc_message_id = r })
              (coalesce_same (blob now).rfc_message_id))
            (λ b.
              ap (λ r. record (update_blob (blob now) b) { rfc_message_id = r })
                (coalesce_twice (blob now).rfc_message_id b.rfc_message_id))

      metadata :
          (let md = content.parse_metadata bytes in
            upsert content_id md (λ old. md) (upsert content_id md (λ old. md) t.metadata)
            ≡ upsert content_id md (λ old. md) t.metadata)
      metadata =
          let md = content.parse_metadata bytes in
          upsert-upsert content_id md md (λ old. md) (λ old. md) t.metadata refl (λ m. refl)

      cases :
          (remote : Option RemoteBinding)
          → let w : String → Tables → Tables = λ time t.
            with_binding remote id time (with_message content request id content_id bytes time t) in
            w later (w now t) ≡ restamped remote id later (w now t)
      cases none = λ i. record {
        blobs = blobs i;
        metadata = metadata i;
        messages = messages i;
        bindings = t.bindings;
      }
      cases (some remote) = λ i. record {
        blobs = blobs i;
        metadata = metadata i;
        messages = messages i;
        bindings =
            upsert-adjust id (binding_row_of remote now) (binding_row_of remote later)
              (λ old. binding_row_of remote now) (λ old. binding_row_of remote later)
              (verified later) t.bindings refl (λ b. refl) i;
      }

  bound_again :
      (remote : Option RemoteBinding) (t : Tables)
      → free remote id t ≡ true
      → (v : Tables)
      → upsert_remote_binding o id remote now
          (with_message content request id content_id bytes now t)
        ≡ ok v
      → upsert_remote_binding o id remote later (
          with_message content request id content_id bytes later
            (with_binding remote id now (with_message content request id content_id bytes now t)))
        ≡ ok (
            with_binding remote id later (
              with_message content request id content_id bytes later (
                with_binding remote id now
                  (with_message content request id content_id bytes now t))))
  unfolding upsert_remote_binding upsert_blob_row upsert_metadata_row upsert_message_row
  bound_again none t f v e = refl
  bound_again (some remote) t f v e =
      let (done, run, rest) = >>=-eq-ok o.binding_row _ e in
      let again = taken_put id remote (binding_row_of remote now) t.bindings in
      rw again (rw run (ground arith))

  pub ingest_rows_again :
      (t u : Tables)
      → rows_written content o request id content_id bytes now t ≡ ok u
      → rows_written content o request id content_id bytes later u
        ≡ ok (restamped request.remote id later u)
  unfolding rows_written upsert_remote_binding upsert_message_row
  ingest_rows_again t u e =
      let (d₀, b₀, e₁) = >>=-eq-ok o.begin _ e in
      let (d₁, b₁, e₂) = >>=-eq-ok o.blob_row _ e₁ in
      let (d₂, b₂, e₃) = >>=-eq-ok o.metadata_row _ e₂ in
      let (d₃, b₃, e₄) = >>=-eq-ok o.message_row _ e₃ in
      let (v, bv, e₅) = >>=-eq-ok (upsert_remote_binding o id request.remote now _) _ e₄ in
      let (d₄, b₄, e₆) = >>=-eq-ok o.commit _ e₅ in
      let (same, f) = rows_written-ok content o request id content_id bytes now t u e in
      rw same (
        rw b₀ (
          rw b₁ (
            rw b₂ (
              rw b₃
                (rw (bound_again request.remote t f v bv) (rw b₄ (ap ok (written-written t))))))))
