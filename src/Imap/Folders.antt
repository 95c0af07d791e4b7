-- ===== src/Imap/Folders.antt =====
-- imap/folders.rs: mailbox names, and the names of the virtual views.
use Prim.Native.Char.{code}
use vivi_mail.Common.{
  String, List, Bool, ◌||◌, ◌==◌, nat_eq, to_ascii_lowercase, trim, trim_matches,
}
use vivi_mail.Config.{Account}
use vivi_mail.Config.Resolve.{
  inbox_folder, archive_folder, trash_folder, sent_folder, drafts_folder, label_roots,
}

pub record ResolvedFolders : Type 0 where
  pub inbox : String
  pub archive : String
  pub trash : String
  pub sent : String
  pub drafts : String
  pub label_roots : List String

unfoldable pub resolved_folders : Account → ResolvedFolders
resolved_folders a = record {
  inbox = inbox_folder a;
  archive = archive_folder a;
  trash = trash_folder a;
  sent = sent_folder a;
  drafts = drafts_folder a;
  label_roots = label_roots a;
}

unfoldable pub normalize_mailbox_name : String → String
unfolding trim trim_matches to_ascii_lowercase
normalize_mailbox_name name =
    to_ascii_lowercase (trim_matches (λ c. nat_eq (code c) b'"') (trim name))

abbrev virtual_names : String → Bool
virtual_names name =
    name == "all mail"
    || name == "[gmail]/all mail"
    || name == "[gmail]/important"
    || name == "[gmail]/starred"
    || name == "spam"
    || name == "junk"
    || name == "[gmail]/spam"

unfoldable pub is_virtual_mailbox : String → Bool
unfolding normalize_mailbox_name
is_virtual_mailbox name = virtual_names (normalize_mailbox_name name)

abbrev trash_names : String → Bool
trash_names name =
    name == "trash" || name == "deleted" || name == "deleted messages" || name == "[gmail]/trash"

unfoldable pub is_unsafe_sync_mailbox : String → Bool
unfolding is_virtual_mailbox normalize_mailbox_name
is_unsafe_sync_mailbox name = is_virtual_mailbox name || trash_names (normalize_mailbox_name name)

unfoldable pub mailbox_names_eq : String → String → Bool
unfolding normalize_mailbox_name
mailbox_names_eq left right = normalize_mailbox_name left == normalize_mailbox_name right
