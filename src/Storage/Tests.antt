-- ===== src/Storage/Tests.antt =====
-- Ingests into a concrete store, and the instances of the theorems.
use vivi_mail.Common.{
  String, [], ◌∷◌, none, some, true, false, ◌==◌, ◌≡◌, refl, ok, err, is_ok, map, VivariumError,
}
use Prim.Native.String.{◌++◌, len}
use text.Mathlib.TextEquality.{eq_iff}
use vivi_mail.Common.Table.{is_some}
use vivi_mail.Catalog.{RemoteBinding}
use vivi_mail.Storage.{
  MessageIngestRequest, StoredMessage, Store, Content, Outcomes, ingest_message, ingest_message_id,
  stored_message, taken, blob_relpath, write_blob_if_absent, ingest_rows, upsert_blob_row,
  upsert_metadata_row, upsert_message_row, upsert_remote_binding, remote_bound_message_id,
  opaque_message_id,
}
use vivi_mail.Storage.Mutate.{update_remote_flags, mark_message_deleted, bound_message}
use vivi_mail.Imap.Sync.{RemoteMessage}
use vivi_mail.Storage.Refresh.{refresh_remote_flags}
use vivi_mail.Storage.Query.{
  message_by_id, catalog_entry, local_sizes_by_role, list_messages_by_query, rows_from,
  count_messages_for_account,
}
use vivi_mail.Storage.WellFormed.{IsWellFormed}
use vivi_mail.Storage.Reach.{begins, steps, ingests, no_tables, Reaches-IsWellFormed}
use vivi_mail.Storage.Ingest.{Ingests, ingest_message-Ingests}
use vivi_mail.Storage.Again.{ingest_message-again}
use vivi_mail.Storage.Rewrite.{restamped}
use vivi_mail.Storage.Transaction.{ingest_message-failed}

-- Texts as bytes, which are their own hash after a mark.
abbrev pub plain_content : Content String
plain_content = record {
  sha256_hex = λ s. "abcd" ++ s;
  sha256_text = λ s. "0123456789abcdef01234567" ++ s;
  byte_length = len;
  same = λ s t. s == t;
  parse_metadata = λ s. record {
    date = "";
    from_addr = "a@x";
    to_addr = "";
    cc_addr = "";
    bcc_addr = "";
    subject = s;
    normalized_message_id = none;
  };
}

abbrev pub all_fine : Outcomes
all_fine = record {
  read_blob = ok tt;
  write_blob = ok tt;
  begin = ok tt;
  blob_row = ok tt;
  metadata_row = ok tt;
  message_row = ok tt;
  binding_row = ok tt;
  commit = ok tt;
  unique_failed = "UNIQUE constraint failed";
}

abbrev a_reference : RemoteBinding
a_reference = record {
  account = "work";
  provider = "standard";
  remote_mailbox = "INBOX";
  remote_uid = 4;
  remote_uidvalidity = 7;
}

abbrev a_request : MessageIngestRequest
a_request = record {
  account = "work";
  local_role = "inbox";
  read_state = true;
  starred = false;
  message_id_hint = some "m1";
  seed_hint = "remote_uid:4";
  remote = some a_reference;
}

abbrev empty_store : Store String
empty_store = record { files = []; tables = no_tables }

abbrev one_message : Store String
one_message = (ingest_message plain_content all_fine a_request "hello" "t1" empty_store).1

abbrev a_stored : StoredMessage
a_stored = stored_message plain_content a_request "hello" true

ingest_run :
    ingest_message plain_content all_fine a_request "hello" "t1" empty_store
    ≡ (ok a_stored, one_message)
unfolding ingest_message write_blob_if_absent ingest_rows upsert_remote_binding taken
ingest_run = refl

ingest_message-Ingests_example :
    Ingests a_request (plain_content.parse_metadata "hello") a_stored no_tables one_message.tables
ingest_message-Ingests_example =
    ingest_message-Ingests plain_content all_fine a_request "hello" "t1" empty_store a_stored
      one_message ingest_run

ingest_message-again_example :
    ingest_message plain_content all_fine a_request "hello" "t2" one_message ≡ (
      ok (record a_stored { created_blob = false }),
      record one_message {
        tables = restamped a_request.remote a_stored.message_id "t2" one_message.tables;
      },
    )
ingest_message-again_example =
    ingest_message-again plain_content all_fine a_request "hello" "t1" "t2" empty_store one_message
      a_stored (λ b. (eq_iff b b).1 refl) ingest_run

abbrev no_commit : Outcomes
no_commit = record all_fine { commit = err (VivariumError.other "disk full") }

commit_fails :
    is_ok (ingest_message plain_content no_commit a_request "hello" "t1" empty_store).0 ≡ false
unfolding ingest_message write_blob_if_absent ingest_rows upsert_remote_binding taken
commit_fails = refl

ingest_message-failed_example :
    (ingest_message plain_content no_commit a_request "hello" "t1" empty_store).1.tables ≡ no_tables
ingest_message-failed_example =
    ingest_message-failed plain_content no_commit a_request "hello" "t1" empty_store commit_fails

-- The same remote message with other bytes, by its own id.
abbrev unhinted : MessageIngestRequest
unhinted = record a_request { message_id_hint = none }

reference_taken :
    is_ok (ingest_message plain_content all_fine unhinted "hello, again" "t2" one_message).0 ≡ false
unfolding taken ingest_message_id remote_bound_message_id opaque_message_id ingest_message
    write_blob_if_absent ingest_rows upsert_remote_binding upsert_blob_row upsert_metadata_row
    upsert_message_row blob_relpath
reference_taken = refl

Reaches-IsWellFormed_example :
    IsWellFormed (ingest_message plain_content all_fine a_request "hello" "t1" empty_store).1.tables
Reaches-IsWellFormed_example =
    Reaches-IsWellFormed plain_content (steps begins (ingests all_fine a_request "hello" "t1"))

-- The message is found, until it is deleted.
found_run : is_some (catalog_entry one_message.tables "work" "m1") ≡ true
unfolding catalog_entry message_by_id ingest_message write_blob_if_absent ingest_rows
    upsert_remote_binding taken upsert_blob_row upsert_metadata_row upsert_message_row
    ingest_message_id
found_run = refl

deleted_run :
    is_some (catalog_entry (mark_message_deleted "work" "m1" "t2" one_message.tables).1 "work" "m1")
    ≡ false
unfolding catalog_entry message_by_id ingest_message write_blob_if_absent ingest_rows
    upsert_remote_binding taken upsert_blob_row upsert_metadata_row upsert_message_row
    mark_message_deleted ingest_message_id
deleted_run = refl

flags_run : (update_remote_flags "work" "INBOX" 7 4 false true "t2" one_message.tables).0 ≡ true
unfolding ingest_message write_blob_if_absent ingest_rows upsert_remote_binding taken
    upsert_blob_row upsert_metadata_row upsert_message_row update_remote_flags bound_message
    ingest_message_id
flags_run = refl

sizes_run : local_sizes_by_role (λ path. 5) one_message.tables "inbox" ≡ ("inbox-7-4", 5) ∷ []
unfolding local_sizes_by_role list_messages_by_query rows_from ingest_message write_blob_if_absent
    ingest_rows upsert_remote_binding taken upsert_blob_row upsert_metadata_row upsert_message_row
    ingest_message_id
sizes_run = refl

count_run : count_messages_for_account one_message.tables "work" ≡ 1
unfolding count_messages_for_account ingest_message write_blob_if_absent ingest_rows
    upsert_remote_binding taken upsert_blob_row upsert_metadata_row upsert_message_row
count_run = refl

abbrev listed : RemoteMessage
listed = record {
  uid = 4;
  uidvalidity = some 7;
  size = 5;
  rfc_message_id = none;
  read_state = false;
  starred = true;
}

-- The listing changes the flags of the message that its reference is bound to.
refresh_run :
    map
      (λ e. e.1.starred)
      (refresh_remote_flags "work" "INBOX" "t2" (listed ∷ []) one_message.tables).messages
    ≡ true ∷ []
unfolding refresh_remote_flags bound_message ingest_message write_blob_if_absent ingest_rows
    upsert_remote_binding taken upsert_blob_row upsert_metadata_row upsert_message_row
    ingest_message_id
refresh_run = refl
