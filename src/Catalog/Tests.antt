-- ===== src/Catalog/Tests.antt =====
-- Lookups in a catalog of two messages, and the instance of the theorem on tokens.
use vivi_mail.Common.{String, List, [], ◌∷◌, none, some, Bool, true, false, any, ok, ◌≡◌, refl}
use vivi_mail.Catalog.{Row}
use vivi_mail.Catalog.Handles.{
  short_handle, resolve_message_token, active_message_ids, content_prefix_matches,
}
use vivi_mail.Catalog.Handles.Laws.{stands_for, resolve_message_token-stands_for}

abbrev pub row : String → Row
row id = record {
  message_id = id;
  account = "me";
  content_id = "00";
  blob_path = "blobs/00/00/00.eml";
  byte_size = 1;
  local_role = "inbox";
  read_state = false;
  starred = false;
  date = "";
  from = "";
  to = "";
  cc = "";
  bcc = "";
  subject = "";
  normalized_message_id = none;
  binding = some (record {
    account = "me";
    provider = "standard";
    remote_mailbox = "INBOX";
    remote_uid = 7;
    remote_uidvalidity = 3;
  });
  deleted = false;
}

abbrev pub two_rows : List Row
two_rows = row "msg_0123456789abcdef01234567" ∷ row "msg_89abcdef0123456701234567" ∷ []

-- An operator that finds nothing.
abbrev pub no_like : String → String → Bool
no_like text pattern = false

short_basis_runs : short_handle "msg_abcdef" ≡ "abcdef"
unfolding short_handle
short_basis_runs = refl

handle_runs : short_handle "msg_0123456789abcdef01234567" ≡ "01234567"
unfolding short_handle
handle_runs = refl

resolve_runs : resolve_message_token no_like two_rows "89abcdef" ≡ ok "msg_89abcdef0123456701234567"
unfolding resolve_message_token active_message_ids content_prefix_matches short_handle
resolve_runs = refl

resolve_message_token-stands_for_example :
    any (stands_for no_like "89abcdef" "msg_89abcdef0123456701234567") two_rows ≡ true
unfolding resolve_message_token active_message_ids content_prefix_matches short_handle
resolve_message_token-stands_for_example =
    resolve_message_token-stands_for no_like two_rows "89abcdef" "msg_89abcdef0123456701234567" refl
