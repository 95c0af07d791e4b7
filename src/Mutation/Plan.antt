-- ===== src/Mutation/Plan.antt =====
-- imap/mutate.rs and mutation_command.rs: which commands a change needs, and which folders it names.
pub mod Laws
use vivi_mail.Common.{
  ℕ, String, List, [], ◌∷◌, Option, none, some, Bool, true, false, ◌||◌, ◌==◌, format,
  VivariumError, imap, message, Result, ok, err, ◌>>=◌, to_ascii_lowercase, if◌then◌else◌,
}
use vivi_mail.Config.{Account}
use vivi_mail.Config.Resolve.{
  inbox_folder, archive_folder, trash_folder, sent_folder, drafts_folder,
}

pub record MutationCapabilities : Type 0 where
  pub move_supported : Bool
  pub uidplus : Bool

pub data MutationTarget : Type 0 where
  archive trash folder : String → MutationTarget

pub data FlagMutation : Type 0 where
  read unread starred unstarred : FlagMutation

pub data CommandPath : Type 0 where
  uid_move copy_store_deleted_uid_expunge : CommandPath

pub data MutationPlan : Type 0 where
  move : String → CommandPath → MutationPlan
  flag : FlagMutation → String → MutationPlan
  hard_expunge : MutationPlan

pub data MutationAction : Type 0 where
  archive trash expunge : MutationAction
  move : String → MutationAction
  flag : FlagMutation → MutationAction

unfoldable pub destination : MutationTarget → String
destination (archive f) = f
destination (trash f) = f
destination (folder f) = f

unfoldable pub plan_move : MutationTarget → MutationCapabilities → Result MutationPlan
unfolding destination
plan_move target capabilities =
    if capabilities.move_supported
    then ok (MutationPlan.move (destination target) uid_move)
    else if capabilities.uidplus
    then ok (MutationPlan.move (destination target) copy_store_deleted_uid_expunge)
    else err (imap "server lacks MOVE and UIDPLUS; refusing unsafe expunge fallback")

unfoldable pub store_query : FlagMutation → String
store_query read = "+FLAGS.SILENT (\\Seen)"
store_query unread = "-FLAGS.SILENT (\\Seen)"
store_query starred = "+FLAGS.SILENT (\\Flagged)"
store_query unstarred = "-FLAGS.SILENT (\\Flagged)"

unfoldable pub plan_flag : FlagMutation → MutationPlan
unfolding store_query
plan_flag mutation = MutationPlan.flag mutation (store_query mutation)

unfoldable pub unsupported_folder : String → VivariumError
unsupported_folder name = message (
    format (
      "unsupported local mirror folder '" ∷ name
      ∷ "'; expected inbox, archive, trash, sent, or drafts" ∷ []))

unfoldable pub remote_folder : Account → String → Result String
unfolding to_ascii_lowercase unsupported_folder
remote_folder a name =
    let lower = to_ascii_lowercase name in
    if lower == "inbox"
    then ok (inbox_folder a)
    else if lower == "archive" || lower == "all"
    then ok (archive_folder a)
    else if lower == "trash" || lower == "deleted"
    then ok (trash_folder a)
    else if lower == "sent"
    then ok (sent_folder a)
    else if lower == "draft" || lower == "drafts"
    then ok (drafts_folder a)
    else if name == inbox_folder a
    then ok (inbox_folder a)
    else if name == archive_folder a
    then ok (archive_folder a)
    else if name == trash_folder a
    then ok (trash_folder a)
    else if name == sent_folder a
    then ok (sent_folder a)
    else if name == drafts_folder a
    then ok (drafts_folder a)
    else err (unsupported_folder name)

unfoldable pub local_folder_for_move : Account → String → Result String
unfolding to_ascii_lowercase unsupported_folder
local_folder_for_move a name =
    let lower = to_ascii_lowercase name in
    if lower == "inbox"
    then ok "inbox"
    else if lower == "archive" || lower == "all"
    then ok "archive"
    else if lower == "trash" || lower == "deleted"
    then ok "trash"
    else if lower == "sent"
    then ok "sent"
    else if lower == "draft" || lower == "drafts"
    then ok "drafts"
    else if name == inbox_folder a
    then ok "inbox"
    else if name == archive_folder a
    then ok "archive"
    else if name == trash_folder a
    then ok "trash"
    else if name == sent_folder a
    then ok "sent"
    else if name == drafts_folder a
    then ok "drafts"
    else err (unsupported_folder name)

pub record TargetFolders : Type 0 where
  pub remote : Option String
  pub local : Option String

abbrev folders_at : String → String → TargetFolders
folders_at remote local = record { remote = some remote; local = some local }

abbrev no_folders : TargetFolders
no_folders = record { remote = none; local = none }

unfoldable pub target_folders : Account → MutationAction → Result TargetFolders
unfolding remote_folder local_folder_for_move
target_folders a archive = ok (folders_at (archive_folder a) "archive")
target_folders a trash = ok (folders_at (trash_folder a) "trash")
target_folders a (move name) = do
  remote ← remote_folder a name
  local ← local_folder_for_move a name
  ok (folders_at remote local)
target_folders a expunge = ok no_folders
target_folders a (flag mutation) = ok no_folders

unfoldable pub mutation_plan : Account → MutationAction → MutationCapabilities → Result MutationPlan
unfolding plan_move plan_flag remote_folder
mutation_plan a archive capabilities =
    plan_move (MutationTarget.archive (archive_folder a)) capabilities
mutation_plan a trash capabilities = plan_move (MutationTarget.trash (trash_folder a)) capabilities
mutation_plan a (move f) capabilities = do
  remote ← remote_folder a f
  plan_move (folder remote) capabilities
mutation_plan a expunge capabilities =
    if capabilities.uidplus
    then ok hard_expunge
    else err (imap "hard expunge requires UIDPLUS for scoped UID EXPUNGE")
mutation_plan a (flag mutation) capabilities = ok (plan_flag mutation)

unfoldable pub path_name : CommandPath → String
path_name uid_move = "UID MOVE"
path_name copy_store_deleted_uid_expunge = "UID COPY + UID STORE + UID EXPUNGE"

unfoldable pub command_path : MutationPlan → String
unfolding path_name
command_path (move destination path) = path_name path
command_path (flag mutation query) = "UID STORE"
command_path hard_expunge = "UID EXPUNGE"

unfoldable pub action_name : MutationAction → String
action_name archive = "archive"
action_name trash = "trash"
action_name expunge = "expunge"
action_name (move name) = "move"
action_name (flag read) = "flag_read"
action_name (flag unread) = "flag_unread"
action_name (flag starred) = "flag_star"
action_name (flag unstarred) = "flag_unstar"
