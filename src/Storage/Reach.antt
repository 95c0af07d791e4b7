-- ===== src/Storage/Reach.antt =====
-- storage.rs, storage/ingest.rs and storage/mutate.rs: the states that the operations reach.
use vivi_mail.Common.{ℕ, String, [], Bool, true, ◌≡◌, refl, ap, ◌∙◌, inl, inr, Result, ok, err}
use vivi_mail.Common.Table.{
  Table, get, is_some, Rows-map, Rows-update, IsOther, Pairs-update, get-update, update_rows,
}
use vivi_mail.Storage.{
  write_blob_if_absent, blob_relpath, Message, Binding, Tables, MessageIngestRequest, StoredMessage,
  Store, Content, Outcomes, ingest_message, stored_message,
}
use vivi_mail.Storage.Transaction.{rows_written, with_rows, committed, ingest_message-atomic}
use vivi_mail.Storage.Mutate.{
  update_remote_flags, mark_stale_uidvalidity, mark_message_deleted, set_flags, set_stale,
  set_deleted,
}
use vivi_mail.Storage.WellFormed.{
  IsWellFormed, HasContent, HasMessage, IsOtherRemote, rows_written-IsWellFormed,
}

update-is_some :
    {V : Type 0} (k : String) (p : String → V → Bool) (f : V → V) (t : Table V)
    → is_some (get k t) ≡ true
    → is_some (get k (update_rows p f t)) ≡ true
update-is_some k p f t h = elim (get-update k p f t) [
  | inl e ↦ ap is_some e ∙ h
  | inr (v, e, e') ↦ ap is_some e'
]

-- An update of messages that leaves them their content.
messages-IsWellFormed :
    (p : String → Message → Bool) (f : Message → Message) (t : Tables)
    → ((m : Message) → (f m).content_id ≡ m.content_id)
    → IsWellFormed t
    → IsWellFormed (record t { messages = update_rows p f t.messages })
messages-IsWellFormed p f t same h = record {
  blob_keys = h.blob_keys;
  metadata_keys = h.metadata_keys;
  message_keys =
      Pairs-update IsOther p f (λ i v j w d. d) (λ i v j w d. d) t.messages h.message_keys;
  binding_keys = h.binding_keys;
  stored =
      Rows-update (HasContent t.blobs t.metadata) p f (λ id m k. rw (same m) k) t.messages h.stored;
  bound = Rows-map (λ id b. update-is_some id p f t.messages) t.bindings h.bound;
  remotes = h.remotes;
}

stale-IsWellFormed :
    (p : String → Binding → Bool) (t : Tables)
    → IsWellFormed t
    → IsWellFormed (record t { bindings = update_rows p set_stale t.bindings })
stale-IsWellFormed p t h = record {
  blob_keys = h.blob_keys;
  metadata_keys = h.metadata_keys;
  message_keys = h.message_keys;
  binding_keys =
      Pairs-update IsOther p set_stale (λ i v j w d. d) (λ i v j w d. d) t.bindings h.binding_keys;
  stored = h.stored;
  bound = Rows-update (HasMessage t.messages) p set_stale (λ id b k. k) t.bindings h.bound;
  remotes =
      Pairs-update IsOtherRemote p set_stale (λ i v j w d. d) (λ i v j w d. d) t.bindings h.remotes;
}

abbrev pub no_tables : Tables
no_tables = record { blobs = []; metadata = []; messages = []; bindings = [] }

no_tables-IsWellFormed : IsWellFormed no_tables
no_tables-IsWellFormed = record {
  blob_keys = tt;
  metadata_keys = tt;
  message_keys = tt;
  binding_keys = tt;
  stored = tt;
  bound = tt;
  remotes = tt;
}

module _ {ℓ} {Data : Type ℓ} (content : Content Data) where
  -- One operation of the store, whatever it returns and however its statements end.
  pub data Step : Store Data → Store Data → Type ℓ where
    ingests :
        {s : Store Data} (outcomes : Outcomes) (request : MessageIngestRequest) (bytes : Data)
        (now : String)
        → Step s (ingest_message content outcomes request bytes now s).1
    flags :
        {s : Store Data} (account mailbox : String) (uidvalidity uid : ℕ) (read star : Bool)
        (now : String)
        → Step s (record s {
          tables = (update_remote_flags account mailbox uidvalidity uid read star now s.tables).1;
        })
    stales :
        {s : Store Data} (account mailbox : String) (current : ℕ)
        → Step s (record s { tables = (mark_stale_uidvalidity account mailbox current s.tables).1 })
    deletes :
        {s : Store Data} (account id now : String)
        → Step s (record s { tables = (mark_message_deleted account id now s.tables).1 })

  -- The states of a store that began empty.
  pub data Reaches : Store Data → Type ℓ where
    begins : Reaches (record { files = []; tables = no_tables })
    steps : {s u : Store Data} → Reaches s → Step s u → Reaches u

  committed-IsWellFormed :
      (stored : StoredMessage) (files : Table Data) (t : Tables) (r : Result Tables)
      → ((u : Tables) → r ≡ ok u → IsWellFormed u)
      → IsWellFormed t
      → IsWellFormed (committed content stored files t r).1.tables
  committed-IsWellFormed stored files t (err e) k h = h
  committed-IsWellFormed stored files t (ok u) k h = k u refl

  with_rows-IsWellFormed :
      (outcomes : Outcomes) (request : MessageIngestRequest) (bytes : Data) (now : String)
      (s : Store Data) (written : Result (Bool × Table Data))
      → IsWellFormed s.tables
      → IsWellFormed (with_rows content outcomes request bytes now s written).1.tables
  with_rows-IsWellFormed outcomes request bytes now s (err e) h = h
  with_rows-IsWellFormed outcomes request bytes now s (ok (created, files)) h =
      let stored = stored_message content request bytes created in
      let rows =
        rows_written content outcomes request stored.message_id stored.content_id bytes now
          s.tables in
      committed-IsWellFormed stored files s.tables rows
        (λ u k.
          rows_written-IsWellFormed content outcomes request stored.message_id stored.content_id
            bytes now s.tables u k h)
        h

  Step-IsWellFormed : {s u : Store Data} → Step s u → IsWellFormed s.tables → IsWellFormed u.tables
  unfolding update_remote_flags mark_stale_uidvalidity mark_message_deleted
  Step-IsWellFormed {s} (ingests outcomes request bytes now) h =
      rw (ingest_message-atomic content outcomes request bytes now s) (
        with_rows-IsWellFormed outcomes request bytes now s
          (write_blob_if_absent content outcomes (blob_relpath (content.sha256_hex bytes)) bytes
            s.files)
          h)
  Step-IsWellFormed {s} (flags account mailbox uidvalidity uid read star now) h =
      messages-IsWellFormed _ (set_flags read star now) s.tables (λ m. refl) h
  Step-IsWellFormed {s} (stales account mailbox current) h = stale-IsWellFormed _ s.tables h
  Step-IsWellFormed {s} (deletes account id now) h =
      messages-IsWellFormed _ (set_deleted now) s.tables (λ m. refl) h

  -- In every state that the ingest of messages, flag updates, stale markings and deletions reach
  -- from an empty store, failures of the disk and of any statement included: keys are unique, no
  -- two messages have one remote reference, every message has its blob and its metadata, and every
  -- binding has its message.
  pub Reaches-IsWellFormed : {s : Store Data} → Reaches s → IsWellFormed s.tables
  Reaches-IsWellFormed begins = no_tables-IsWellFormed
  Reaches-IsWellFormed (steps before step) = Step-IsWellFormed step (Reaches-IsWellFormed before)
