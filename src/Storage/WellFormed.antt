-- ===== src/Storage/WellFormed.antt =====
-- storage.rs, storage/ingest.rs and storage/mutate.rs: what the tables are in every state.
use vivi_mail.Common.{
  ℕ, String, [], ◌∷◌, Option, none, some, true, false, ◌==◌, nat_eq, ◌≡◌, refl, ap, ◌∙◌, inl, inr,
  arith, Bool-cases, ok, >>=-eq-ok, ok-injective, subst,
}
use vivi_mail.Common.Table.{
  Table, get, upsert, is_some, get-upsert, upsert-is_some, Rows, Pairs, Rows-upsert, Rows-map,
  IsOther, Keys-upsert, Pairs-put, ==-symmetric,
}
use vivi_mail.Catalog.{RemoteBinding}
use vivi_mail.Storage.{
  Blob, ParsedMetadata, Message, Binding, Tables, MessageIngestRequest, Content, Outcomes,
  same_remote, taken, blob_row_of, update_blob, upsert_blob_row, upsert_metadata_row,
  message_row_of, update_message, upsert_message_row, binding_row_of, put_binding,
  upsert_remote_binding, blob_relpath,
}
use vivi_mail.Storage.Transaction.{rows_written}

-- The blob and the metadata of a message are there.
abbrev pub HasContent : Table Blob → Table ParsedMetadata → String → Message → Type 0
HasContent blobs metadata id m =
    (is_some (get m.content_id blobs) ≡ true) × (is_some (get m.content_id metadata) ≡ true)

abbrev pub HasMessage : Table Message → String → Binding → Type 0
HasMessage messages id b = is_some (get id messages) ≡ true

abbrev pub IsOtherRemote : String → Binding → String → Binding → Type 0
IsOtherRemote i b j c = same_remote b.remote c.remote ≡ false

-- Primary keys are unique, so is a remote reference, a message has its blob and its metadata, and
-- a binding has its message.
pub record IsWellFormed (t : Tables) : Type 0 where
  pub blob_keys : Pairs IsOther t.blobs
  pub metadata_keys : Pairs IsOther t.metadata
  pub message_keys : Pairs IsOther t.messages
  pub binding_keys : Pairs IsOther t.bindings
  pub stored : Rows (HasContent t.blobs t.metadata) t.messages
  pub bound : Rows (HasMessage t.messages) t.bindings
  pub remotes : Pairs IsOtherRemote t.bindings

nat_eq-symmetric : (m n : ℕ) → nat_eq m n ≡ nat_eq n m
nat_eq-symmetric m n = ground arith

same_remote-symmetric : (a b : RemoteBinding) → same_remote a b ≡ same_remote b a
same_remote-symmetric a b = rw (==-symmetric a.account b.account) (
    rw (==-symmetric a.remote_mailbox b.remote_mailbox) (
      rw (nat_eq-symmetric a.remote_uidvalidity b.remote_uidvalidity)
        (rw (nat_eq-symmetric a.remote_uid b.remote_uid) refl)))

not_taken :
    (id : String) (remote : RemoteBinding) (t : Table Binding)
    → taken id remote t ≡ false
    → Rows (λ i b. (i == id) ≡ false → same_remote remote b.remote ≡ false) t
unfolding taken
not_taken id remote [] h = tt
not_taken id remote ((j, b) ∷ t) h = (λ other. ground arith, not_taken id remote t (ground arith))

upsert_blob_row-IsWellFormed :
    (content_id : String) (row : Blob) (t : Tables)
    → IsWellFormed t
    → IsWellFormed (upsert_blob_row content_id row t)
unfolding upsert_blob_row
upsert_blob_row-IsWellFormed content_id row t h = record {
  blob_keys = Keys-upsert content_id row (update_blob row) t.blobs h.blob_keys;
  metadata_keys = h.metadata_keys;
  message_keys = h.message_keys;
  binding_keys = h.binding_keys;
  stored =
      Rows-map
        (λ id m k. (upsert-is_some m.content_id content_id row (update_blob row) t.blobs k.0, k.1))
        t.messages h.stored;
  bound = h.bound;
  remotes = h.remotes;
}

upsert_metadata_row-IsWellFormed :
    (content_id : String) (row : ParsedMetadata) (t : Tables)
    → IsWellFormed t
    → IsWellFormed (upsert_metadata_row content_id row t)
unfolding upsert_metadata_row
upsert_metadata_row-IsWellFormed content_id row t h = record {
  blob_keys = h.blob_keys;
  metadata_keys = Keys-upsert content_id row (λ old. row) t.metadata h.metadata_keys;
  message_keys = h.message_keys;
  binding_keys = h.binding_keys;
  stored =
      Rows-map
        (λ id m k. (k.0, upsert-is_some m.content_id content_id row (λ old. row) t.metadata k.1))
        t.messages h.stored;
  bound = h.bound;
  remotes = h.remotes;
}

upsert_message_row-IsWellFormed :
    (request : MessageIngestRequest) (id content_id now : String) (t : Tables)
    → is_some (get content_id t.blobs) ≡ true
    → is_some (get content_id t.metadata) ≡ true
    → IsWellFormed t
    → IsWellFormed (upsert_message_row request id content_id now t)
unfolding upsert_message_row
upsert_message_row-IsWellFormed request id content_id now t b md h =
    let row = message_row_of request content_id now in
    record {
      blob_keys = h.blob_keys;
      metadata_keys = h.metadata_keys;
      message_keys = Keys-upsert id row (update_message row) t.messages h.message_keys;
      binding_keys = h.binding_keys;
      stored =
          Rows-upsert (HasContent t.blobs t.metadata) id row (update_message row) t.messages (b, md)
            (λ m k. (b, md)) h.stored;
      bound =
          Rows-map (λ j c. upsert-is_some j id row (update_message row) t.messages) t.bindings
            h.bound;
      remotes = h.remotes;
    }

put_binding-IsWellFormed :
    (id : String) (remote : RemoteBinding) (now : String) (t : Tables)
    → is_some (get id t.messages) ≡ true
    → taken id remote t.bindings ≡ false
    → IsWellFormed t
    → IsWellFormed (put_binding id (binding_row_of remote now) t)
put_binding-IsWellFormed id remote now t m free h =
    let row = binding_row_of remote now in
    record {
      blob_keys = h.blob_keys;
      metadata_keys = h.metadata_keys;
      message_keys = h.message_keys;
      binding_keys = Keys-upsert id row (λ old. row) t.bindings h.binding_keys;
      stored = h.stored;
      bound =
          Rows-upsert (HasMessage t.messages) id row (λ old. row) t.bindings m (λ b k. m) h.bound;
      remotes =
          Pairs-put IsOtherRemote id row t.bindings
            (λ i b j c k. same_remote-symmetric c.remote b.remote ∙ k)
            (not_taken id remote t.bindings free) h.binding_keys h.remotes;
    }

upsert_remote_binding-IsWellFormed :
    (outcomes : Outcomes) (id : String) (remote : Option RemoteBinding) (now : String)
    (t u : Tables)
    → is_some (get id t.messages) ≡ true
    → upsert_remote_binding outcomes id remote now t ≡ ok u
    → IsWellFormed t
    → IsWellFormed u
unfolding upsert_remote_binding
upsert_remote_binding-IsWellFormed outcomes id none now t u m e h =
    subst IsWellFormed (ok-injective e) h
upsert_remote_binding-IsWellFormed outcomes id (some remote) now t u m e h =
    let (done, s, rest) = >>=-eq-ok outcomes.binding_row _ e in
    elim (Bool-cases (taken id remote t.bindings)) [
      | inl used ↦ absurd (ground arith)
      | inr free ↦
          subst IsWellFormed (ok-injective (rw free at rest))
            (put_binding-IsWellFormed id remote now t m free h)
    ]

is_some-upsert :
    {V : Type 0} (k : String) (new : V) (update : V → V) (t : Table V)
    → is_some (get k (upsert k new update t)) ≡ true
is_some-upsert k new update t = ap is_some (get-upsert k new update t)

pub rows_written-IsWellFormed {ℓ} :
    {Data : Type ℓ} (content : Content Data) (outcomes : Outcomes) (request : MessageIngestRequest)
    (id content_id : String) (bytes : Data) (now : String) (t u : Tables)
    → rows_written content outcomes request id content_id bytes now t ≡ ok u
    → IsWellFormed t
    → IsWellFormed u
unfolding rows_written upsert_blob_row upsert_metadata_row upsert_message_row
rows_written-IsWellFormed content outcomes request id content_id bytes now t u e h =
    let metadata = content.parse_metadata bytes in
    let blob = blob_row_of content (blob_relpath content_id) bytes metadata now in
    let t₁ = upsert_blob_row content_id blob t in
    let t₂ = upsert_metadata_row content_id metadata t₁ in
    let (d₀, _, e₁) = >>=-eq-ok outcomes.begin _ e in
    let (d₁, _, e₂) = >>=-eq-ok outcomes.blob_row _ e₁ in
    let (d₂, _, e₃) = >>=-eq-ok outcomes.metadata_row _ e₂ in
    let (d₃, _, e₄) = >>=-eq-ok outcomes.message_row _ e₃ in
    let (v, b, e₅) = >>=-eq-ok (upsert_remote_binding outcomes id request.remote now _) _ e₄ in
    let (d₄, _, e₆) = >>=-eq-ok outcomes.commit _ e₅ in
    subst IsWellFormed (ok-injective e₆) (
      upsert_remote_binding-IsWellFormed outcomes id request.remote now _ v
        (is_some-upsert id _ _ t.messages) b
        (upsert_message_row-IsWellFormed request id content_id now t₂
          (is_some-upsert content_id blob (update_blob blob) t.blobs)
          (is_some-upsert content_id metadata _ t.metadata)
          (upsert_metadata_row-IsWellFormed content_id metadata t₁
            (upsert_blob_row-IsWellFormed content_id blob t h))))
