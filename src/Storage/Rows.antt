-- ===== src/Storage/Rows.antt =====
-- storage/ingest.rs: the rows that the statements of an ingest write.
use vivi_mail.Common.{
  String, Option, none, some, Bool, true, false, not, ◌==◌, ◌≡◌, refl, sym, ap, ◌∙◌, inl, inr,
  arith, Bool-cases, ok, >>=-eq-ok, ok-injective, Option-cases,
}
use vivi_mail.Common.Table.{get, upsert, upserted, get-upsert, get-upsert_other}
use vivi_mail.Catalog.{RemoteBinding, Row}
use vivi_mail.Storage.{
  Blob, ParsedMetadata, Message, Binding, Tables, MessageIngestRequest, Content, Outcomes, taken,
  blob_row_of, update_blob, upsert_blob_row, upsert_metadata_row, message_row_of, update_message,
  upsert_message_row, binding_row_of, put_binding, upsert_remote_binding, blob_relpath,
}
use vivi_mail.Storage.Transaction.{rows_written}
use vivi_mail.Storage.Mutate.{is_null}
use vivi_mail.Storage.Query.{message_by_id, bound}

-- The tables after the message's row, and after its binding.
abbrev pub with_message {ℓ} :
    {Data : Type ℓ}
    → Content Data
    → MessageIngestRequest
    → String
    → String
    → Data
    → String
    → Tables
    → Tables
with_message content request id content_id bytes now t =
    let metadata = content.parse_metadata bytes in
    upsert_message_row request id content_id now (
      upsert_metadata_row content_id metadata (
        upsert_blob_row content_id
          (blob_row_of content (blob_relpath content_id) bytes metadata now) t))

abbrev pub with_binding : Option RemoteBinding → String → String → Tables → Tables
with_binding none id now t = t
with_binding (some remote) id now t = put_binding id (binding_row_of remote now) t

abbrev pub free : Option RemoteBinding → String → Tables → Bool
free none id t = true
free (some remote) id t = not (taken id remote t.bindings)

pub upsert_remote_binding-ok :
    (o : Outcomes) (remote : Option RemoteBinding) (id now : String) (t u : Tables)
    → upsert_remote_binding o id remote now t ≡ ok u
    → (u ≡ with_binding remote id now t) × (free remote id t ≡ true)
unfolding upsert_remote_binding
upsert_remote_binding-ok o none id now t u e = (sym (ok-injective e), refl)
upsert_remote_binding-ok o (some remote) id now t u e =
    let (done, s, rest) = >>=-eq-ok o.binding_row _ e in
    elim (Bool-cases (taken id remote t.bindings)) [
      | inl used ↦ absurd (ground arith)
      | inr left ↦ (sym (ok-injective (rw left at rest)), ap not left)
    ]

-- The statements that succeeded before the binding's, and the rows that they leave.
pub rows_written-ok {ℓ} :
    {Data : Type ℓ} (content : Content Data) (o : Outcomes) (request : MessageIngestRequest)
    (id content_id : String) (bytes : Data) (now : String) (t u : Tables)
    → rows_written content o request id content_id bytes now t ≡ ok u
    → (u
        ≡ with_binding request.remote id now
            (with_message content request id content_id bytes now t))
      × (free request.remote id t ≡ true)
unfolding rows_written upsert_blob_row upsert_metadata_row upsert_message_row
rows_written-ok content o request id content_id bytes now t u e =
    let (d₀, _, e₁) = >>=-eq-ok o.begin _ e in
    let (d₁, _, e₂) = >>=-eq-ok o.blob_row _ e₁ in
    let (d₂, _, e₃) = >>=-eq-ok o.metadata_row _ e₂ in
    let (d₃, _, e₄) = >>=-eq-ok o.message_row _ e₃ in
    let (v, b, e₅) = >>=-eq-ok (upsert_remote_binding o id request.remote now _) _ e₄ in
    let (d₄, _, e₆) = >>=-eq-ok o.commit _ e₅ in
    let (same, f) = upsert_remote_binding-ok o request.remote id now _ v b in
    (sym (ok-injective e₆) ∙ same, free_same request.remote f)
  where
    free_same :
        (remote : Option RemoteBinding)
        → free remote id (with_message content request id content_id bytes now t) ≡ true
        → free remote id t ≡ true
    free_same none f = refl
    free_same (some remote) f = f

-- The binding of a message after its ingest: the request's, or the one that it had.
abbrev pub bound_after : Option RemoteBinding → Option Binding → Option RemoteBinding
bound_after none before = bound before
bound_after (some remote) before = some remote

-- What the row of an ingested message shows.
pub record Shows (request : MessageIngestRequest) (metadata : ParsedMetadata)
    (content_id relpath : String) (before : Option Binding) (row : Row) : Type 0 where
  pub content : row.content_id ≡ content_id
  pub blob : row.blob_path ≡ relpath
  pub role : row.local_role ≡ request.local_role
  pub read : row.read_state ≡ request.read_state
  pub starred : row.starred ≡ request.starred
  pub live : row.deleted ≡ false
  pub subject : row.subject ≡ metadata.subject
  pub message_id : row.normalized_message_id ≡ metadata.normalized_message_id
  pub remote : row.binding ≡ bound_after request.remote before

module _ {ℓ} {Data : Type ℓ} (content : Content Data) (request : MessageIngestRequest)
    (id content_id : String) (bytes : Data) (now : String) (t : Tables) where
  abbrev pub after : Tables
  after =
      with_binding request.remote id now (with_message content request id content_id bytes now t)

  abbrev pub row : Message
  row = message_row_of request content_id now

  abbrev pub blob : Blob
  blob = blob_row_of content (blob_relpath content_id) bytes (content.parse_metadata bytes) now

  tables_after :
      (after.messages ≡ upsert id row (update_message row) t.messages)
      × (after.blobs ≡ upsert content_id blob (update_blob blob) t.blobs)
      × (after.metadata
          ≡ upsert content_id
              (content.parse_metadata bytes)
              (λ old. content.parse_metadata bytes)
              t.metadata)
  unfolding upsert_blob_row upsert_metadata_row upsert_message_row
  tables_after = cases request.remote
    where
      cases :
          (remote : Option RemoteBinding)
          → let u =
              with_binding remote id now (with_message content request id content_id bytes now t) in
            (u.messages ≡ upsert id row (update_message row) t.messages)
            × (u.blobs ≡ upsert content_id blob (update_blob blob) t.blobs)
            × (u.metadata
                ≡ upsert content_id
                    (content.parse_metadata bytes)
                    (λ old. content.parse_metadata bytes)
                    t.metadata)
      cases none = (refl, refl, refl)
      cases (some remote) = (refl, refl, refl)

  binding_after : bound (get id after.bindings) ≡ bound_after request.remote (get id t.bindings)
  unfolding upsert_blob_row upsert_metadata_row upsert_message_row
  binding_after = cases request.remote
    where
      cases :
          (remote : Option RemoteBinding)
          → bound (
              get id
                (with_binding remote id now
                  (with_message content request id content_id bytes now t)).bindings)
            ≡ bound_after remote (get id t.bindings)
      cases none = refl
      cases (some remote) =
          ap bound (
            get-upsert id (binding_row_of remote now) (λ old. binding_row_of remote now) t.bindings)
          ∙ bound_new (get id t.bindings)
        where
          bound_new :
              (old : Option Binding)
              → bound
                  (some (upserted (binding_row_of remote now) (λ b. binding_row_of remote now) old))
                ≡ some remote
          bound_new none = refl
          bound_new (some b) = refl

  -- The message's row after an upsert, whatever was there.
  kept_message :
      (old : Option Message)
      → let m = upserted row (update_message row) old in
        (m.content_id ≡ content_id)
        × (m.local_role ≡ request.local_role)
        × (m.read_state ≡ request.read_state)
        × (m.starred ≡ request.starred)
        × (m.deleted_at ≡ none)
  kept_message none = (refl, refl, refl, refl, refl)
  kept_message (some m) = (refl, refl, refl, refl, refl)

  kept_blob :
      (old : Option Blob)
      → (upserted blob (update_blob blob) old).blob_relpath ≡ blob_relpath content_id
  unfolding blob_row_of
  kept_blob none = refl
  kept_blob (some b) = refl

  kept_metadata :
      (old : Option ParsedMetadata)
      → upserted (content.parse_metadata bytes) (λ md. content.parse_metadata bytes) old
        ≡ content.parse_metadata bytes
  kept_metadata none = refl
  kept_metadata (some md) = refl

  -- The ingested message is found, with what was asked for.
  pub ingested :
      (r : Row) × (message_by_id after id ≡ some r)
      × Shows request
          (content.parse_metadata bytes)
          content_id
          (blob_relpath content_id)
          (get id t.bindings)
          r
  unfolding message_by_id
  ingested =
      let (ms, bs, mds) = tables_after in
      let old = get id t.messages in
      let m = upserted row (update_message row) old in
      let (c, role, read, star, live) = kept_message old in
      let found_m : get id after.messages ≡ some m =
        ap (get id) ms ∙ get-upsert id row (update_message row) t.messages in
      let b = upserted blob (update_blob blob) (get content_id t.blobs) in
      let found_b : get m.content_id after.blobs ≡ some b =
        ap (λ k. get k after.blobs) c
        ∙ (ap (get content_id) bs ∙ get-upsert content_id blob (update_blob blob) t.blobs) in
      let found_md : get m.content_id after.metadata ≡ some (content.parse_metadata bytes) =
        ap (λ k. get k after.metadata) c
        ∙ (ap (get content_id) mds
            ∙ (get-upsert content_id (content.parse_metadata bytes) _ t.metadata
                ∙ ap some (kept_metadata (get content_id t.metadata)))) in
      let md = content.parse_metadata bytes in
      (
        record {
          message_id = id;
          account = m.account;
          content_id = m.content_id;
          blob_path = b.blob_relpath;
          byte_size = b.byte_size;
          local_role = m.local_role;
          read_state = m.read_state;
          starred = m.starred;
          date = md.date;
          from = md.from_addr;
          to = md.to_addr;
          cc = md.cc_addr;
          bcc = md.bcc_addr;
          subject = md.subject;
          normalized_message_id = md.normalized_message_id;
          binding = bound (get id after.bindings);
          deleted = not (is_null m.deleted_at);
        },
        rw found_m (rw found_b (rw found_md refl)),
        record {
          content = c;
          blob = kept_blob (get content_id t.blobs);
          role = role;
          read = read;
          starred = star;
          live = ap (λ d. not (is_null d)) live;
          subject = refl;
          message_id = refl;
          remote = binding_after;
        },
      )

  bindings_other : (j : String) → (id == j) ≡ false → get j after.bindings ≡ get j t.bindings
  unfolding upsert_blob_row upsert_metadata_row upsert_message_row
  bindings_other j other = cases request.remote
    where
      cases :
          (remote : Option RemoteBinding)
          → get j
              (with_binding remote id now
                (with_message content request id content_id bytes now t)).bindings
            ≡ get j t.bindings
      cases none = refl
      cases (some remote) =
          get-upsert_other j id (binding_row_of remote now) (λ old. binding_row_of remote now)
            t.bindings other

  -- A message with another id and another content is found as before.
  pub others_kept :
      (j : String)
      → (id == j) ≡ false
      → ((m : Message) → get j t.messages ≡ some m → (content_id == m.content_id) ≡ false)
      → message_by_id after j ≡ message_by_id t j
  unfolding message_by_id
  others_kept j other differs =
      let (ms, bs, mds) = tables_after in
      let found : get j after.messages ≡ get j t.messages =
        ap (get j) ms ∙ get-upsert_other j id row (update_message row) t.messages other in
      elim (Option-cases (get j t.messages)) [
        | inl e ↦ rw (found ∙ e) (rw e refl)
        | inr (m, e) ↦
            let d = differs m e in
            let same_b : get m.content_id after.blobs ≡ get m.content_id t.blobs =
              ap (get m.content_id) bs
              ∙ get-upsert_other m.content_id content_id blob (update_blob blob) t.blobs d in
            let same_md : get m.content_id after.metadata ≡ get m.content_id t.metadata =
              ap (get m.content_id) mds
              ∙ get-upsert_other m.content_id content_id (content.parse_metadata bytes) _ t.metadata
                  d in
            rw (found ∙ e) (rw e (rw (bindings_other j other) (rw same_b (rw same_md refl))))
      ]
