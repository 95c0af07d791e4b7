-- ===== src/Catalog.antt =====
-- catalog.rs and catalog/local.rs: the rows of the message store, and what the catalog reads and
-- writes of them. A failure of SQLite is an outcome of the caller's world, in Mutation.World.
pub mod Handles
pub mod Remote
pub mod Tests
use vivi_mail.Common.{
  ℕ, String, List, [], ◌∷◌, Option, none, some, Bool, true, false, not, ◌&&◌, ◌||◌, ◌==◌, any, find,
  retain, format, VivariumError, message, Result, ok, err, if◌then◌else◌,
}
use vivi_mail.Config.Resolve.{unwrap_or}

pub record RemoteIdentity : Type 0 where
  pub account : String
  pub provider : String
  pub remote_mailbox : String
  pub local_folder : String
  pub uid : ℕ
  pub uidvalidity : ℕ
  pub rfc_message_id : String
  pub size : ℕ
  pub content_fingerprint : String

pub record CatalogEntry : Type 0 where
  pub handle : String
  pub account : String
  pub content_id : String
  pub blob_path : String
  pub local_role : String
  pub read_state : Bool
  pub starred : Bool
  pub date : String
  pub from : String
  pub to : String
  pub cc : String
  pub bcc : String
  pub subject : String
  pub rfc_message_id : String
  pub remote : Option RemoteIdentity

-- A row of `remote_bindings`.
pub record RemoteBinding : Type 0 where
  pub account : String
  pub provider : String
  pub remote_mailbox : String
  pub remote_uid : ℕ
  pub remote_uidvalidity : ℕ

-- A row of `messages`, joined with its blob, its metadata and its binding. `blob_path` is the path
-- below the mail root, and `deleted` says that `deleted_at` is set.
pub record Row : Type 0 where
  pub message_id : String
  pub account : String
  pub content_id : String
  pub blob_path : String
  pub byte_size : ℕ
  pub local_role : String
  pub read_state : Bool
  pub starred : Bool
  pub date : String
  pub from : String
  pub to : String
  pub cc : String
  pub bcc : String
  pub subject : String
  pub normalized_message_id : Option String
  pub binding : Option RemoteBinding
  pub deleted : Bool

abbrev pub remote_of : Row → Option RemoteBinding → Option RemoteIdentity
remote_of r none = none
remote_of r (some b) = some (record {
  account = b.account;
  provider = b.provider;
  remote_mailbox = b.remote_mailbox;
  local_folder = r.local_role;
  uid = b.remote_uid;
  uidvalidity = b.remote_uidvalidity;
  rfc_message_id = unwrap_or r.normalized_message_id "";
  size = r.byte_size;
  content_fingerprint = r.content_id;
})

unfoldable pub catalog_entry_from_row : Row → CatalogEntry
catalog_entry_from_row r = record {
  handle = r.message_id;
  account = r.account;
  content_id = r.content_id;
  blob_path = r.blob_path;
  local_role = r.local_role;
  read_state = r.read_state;
  starred = r.starred;
  date = r.date;
  from = r.from;
  to = r.to;
  cc = r.cc;
  bcc = r.bcc;
  subject = r.subject;
  rfc_message_id = unwrap_or r.normalized_message_id "";
  remote = remote_of r r.binding;
}

-- The rows that the catalog's queries see, and the one that it looks up.
abbrev pub active : Row → Bool
active r = not r.deleted

abbrev pub selects : String → String → Row → Bool
selects account handle r = active r && r.account == account && r.message_id == handle

abbrev pub entry_of : Option Row → Option CatalogEntry
entry_of none = none
entry_of (some r) = some (catalog_entry_from_row r)

unfoldable pub entry : List Row → String → String → Option CatalogEntry
unfolding catalog_entry_from_row
entry rows account handle = entry_of (find (selects account handle) rows)

-- An UPDATE of the rows that a test selects.
unfoldable pub update_where : (Row → Bool) → (Row → Row) → List Row → List Row
update_where p f [] = []
update_where p f (r ∷ rs) = let rest = update_where p f rs in (if p r then f r else r) ∷ rest

abbrev pub not_found : String → String → VivariumError
not_found account handle =
    message (format ("message not found in catalog for account '" ∷ account ∷ "': " ∷ handle ∷ []))

abbrev pub set_local : String → Bool → Bool → Row → Row
set_local role read star r = record r { local_role = role; read_state = read; starred = star }

unfoldable pub update_local_state :
    String → String → String → Bool → Bool → List Row → Result (List Row)
unfolding update_where
update_local_state account handle role read star rows =
    if any (selects account handle) rows
    then ok (update_where (selects account handle) (set_local role read star) rows)
    else err (not_found account handle)

abbrev pub binding_of : Option RemoteIdentity → Option RemoteBinding
binding_of none = none
binding_of (some remote) = some (record {
  account = remote.account;
  provider = remote.provider;
  remote_mailbox = remote.remote_mailbox;
  remote_uid = remote.uid;
  remote_uidvalidity = remote.uidvalidity;
})

abbrev pub set_binding : Option RemoteIdentity → Row → Row
set_binding remote r = record r { binding = binding_of remote }

-- The binding belongs to the message, whatever the account and the deletion.
unfoldable pub update_remote_binding : String → Option RemoteIdentity → List Row → List Row
unfolding update_where
update_remote_binding handle remote rows =
    update_where (λ r. r.message_id == handle) (set_binding remote) rows

unfoldable pub remove_entry : String → String → List Row → Result (List Row)
remove_entry account handle rows =
    let gone : Row → Bool = λ r. r.account == account && r.message_id == handle in
    if any gone rows then ok (retain (λ r. not (gone r)) rows) else err (not_found account handle)
