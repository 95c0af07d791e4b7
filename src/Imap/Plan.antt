-- ===== src/Imap/Plan.antt =====
-- imap/sync/plan.rs: which folders a sync run covers.
pub mod Laws
pub mod Selection
use vivi_mail.Common.{
  String, List, [], ◌∷◌, ◌++◌, Option, none, some, Bool, true, false, not, ◌&&◌, ◌||◌, ◌==◌, any,
  find, format, VivariumError, config, Result, ok, err, ◌>>=◌, ◌>>◌, ok_or, trim, is_empty,
  to_ascii_lowercase, if◌then◌else◌,
}
use vivi_mail.Config.{Account}
use vivi_mail.Config.Resolve.{
  inbox_folder, archive_folder, trash_folder, sent_folder, drafts_folder,
}
use vivi_mail.Imap.Folders.{is_virtual_mailbox, is_unsafe_sync_mailbox, mailbox_names_eq}

pub data SyncSelection : Type 0 where
  default : SyncSelection
  all : SyncSelection
  named : List String → SyncSelection

pub data DedupeScope : Type 0 where
  local_folder all_folders : DedupeScope

pub record FolderPlan : Type 0 where
  pub remote_folder : String
  pub local_folder : String
  pub dedupe_scope : DedupeScope

-- The loop of `normalize_selector_names`, with the names collected so far.
unfoldable pub collect_names : List String → List String → Result (List String)
unfolding trim
collect_names out [] = ok out
collect_names out (name ∷ names) =
    if is_empty (trim name)
    then err (config "folder selector contains an empty name")
    else collect_names
        (if any (λ existing. mailbox_names_eq existing (trim name)) out
          then out
          else out ++ trim name ∷ [])
        names

unfoldable pub normalize_selector_names : List String → Result (List String)
unfolding collect_names
normalize_selector_names names = collect_names [] names

abbrev pub is_nil : List String → Bool
is_nil [] = true
is_nil (x ∷ xs) = false

unfoldable pub named_from_account_defaults : Option (List String) → Result SyncSelection
unfolding normalize_selector_names
named_from_account_defaults none = ok default
named_from_account_defaults (some defaults) = do
  names ← normalize_selector_names defaults
  if is_nil names
      then err (config "sync_folders is empty; omit the key to use the default (inbox and sent)")
      else ok (named names)

unfoldable pub from_inputs : Bool → List String → Option (List String) → Result SyncSelection
unfolding normalize_selector_names named_from_account_defaults
from_inputs every names account_defaults = do
  chosen ← normalize_selector_names names
  if every && not (is_nil chosen)
      then err (config "--folder/--folders cannot be combined with --all")
      else if not (is_nil chosen)
      then ok (named chosen)
      else if every
      then ok all
      else named_from_account_defaults account_defaults

unfoldable pub is_named : SyncSelection → Bool
is_named (named names) = true
is_named _ = false

unfoldable pub inbox_plan : Account → FolderPlan
inbox_plan a = record {
  remote_folder = inbox_folder a;
  local_folder = "inbox";
  dedupe_scope = local_folder;
}

unfoldable pub sent_plan : Account → FolderPlan
sent_plan a = record {
  remote_folder = sent_folder a;
  local_folder = "sent";
  dedupe_scope = local_folder;
}

unfoldable pub archive_plan : Account → FolderPlan
archive_plan a = record {
  remote_folder = archive_folder a;
  local_folder = "archive";
  dedupe_scope = all_folders;
}

unfoldable pub drafts_plan : Account → FolderPlan
drafts_plan a = record {
  remote_folder = drafts_folder a;
  local_folder = "drafts";
  dedupe_scope = local_folder;
}

unfoldable pub trash_plan : Account → FolderPlan
trash_plan a = record {
  remote_folder = trash_folder a;
  local_folder = "trash";
  dedupe_scope = local_folder;
}

unfoldable pub default_plans : Account → List FolderPlan
unfolding inbox_plan sent_plan
default_plans a = inbox_plan a ∷ sent_plan a ∷ []

unfoldable pub all_plans : Account → List FolderPlan
unfolding default_plans archive_plan
all_plans a =
    if not (is_unsafe_sync_mailbox (archive_plan a).remote_folder)
    then default_plans a ++ archive_plan a ∷ []
    else default_plans a

unfoldable pub already_selected : List FolderPlan → FolderPlan → Bool
already_selected plans plan =
    any
      (λ existing.
        existing.local_folder == plan.local_folder
        || mailbox_names_eq existing.remote_folder plan.remote_folder)
      plans

unfoldable pub virtual_sync_folder : String → VivariumError
virtual_sync_folder name = config (
    format (
      "refusing to sync virtual mailbox '" ∷ name
      ∷ "'; All Mail, Spam, Important, and Starred are never a sync source. Use inbox, sent, archive, drafts, or trash"
      ∷ []))

unfoldable pub unknown_sync_folder : String → VivariumError
unknown_sync_folder name = config (
    format (
      "unsupported sync folder '" ∷ name
      ∷ "'; expected inbox, sent, archive, drafts, trash, or the account's real IMAP names for those roles"
      ∷ []))

abbrev by_logical_name : Account → String → Option FolderPlan
by_logical_name a name =
    if name == "inbox"
    then some (inbox_plan a)
    else if name == "sent"
    then some (sent_plan a)
    else if name == "archive"
    then some (archive_plan a)
    else if name == "draft" || name == "drafts"
    then some (drafts_plan a)
    else if name == "trash" || name == "deleted"
    then some (trash_plan a)
    else none

unfoldable pub logical_plan : Account → String → Option FolderPlan
unfolding inbox_plan sent_plan archive_plan drafts_plan trash_plan trim to_ascii_lowercase
logical_plan a name = by_logical_name a (to_ascii_lowercase (trim name))

unfoldable pub resolved_plan : Account → String → Option FolderPlan
unfolding inbox_plan sent_plan archive_plan drafts_plan trash_plan
resolved_plan a name =
    find (λ plan. mailbox_names_eq name plan.remote_folder)
      (inbox_plan a ∷ sent_plan a ∷ archive_plan a ∷ drafts_plan a ∷ trash_plan a ∷ [])

abbrev or_resolved : Account → String → Option FolderPlan → Result FolderPlan
or_resolved a name (some plan) = ok plan
or_resolved a name none = ok_or (resolved_plan a name) (unknown_sync_folder name)

unfoldable pub plan_for_name : Account → String → Result FolderPlan
unfolding logical_plan resolved_plan
plan_for_name a name =
    if is_virtual_mailbox name
    then err (virtual_sync_folder name)
    else or_resolved a name (logical_plan a name)

unfoldable pub refuse_virtual : FolderPlan → String → Result (Unit {0})
refuse_virtual plan name =
    if is_virtual_mailbox plan.remote_folder then err (virtual_sync_folder name) else ok tt

-- The loop of `named_plans`, with the plans collected so far.
unfoldable pub collect_plans : Account → List FolderPlan → List String → Result (List FolderPlan)
unfolding plan_for_name refuse_virtual already_selected
collect_plans a plans [] = ok plans
collect_plans a plans (name ∷ names) = do
  plan ← plan_for_name a name
  refuse_virtual plan name
  collect_plans a (if not (already_selected plans plan) then plans ++ plan ∷ [] else plans) names

unfoldable pub named_plans : Account → List String → Result (List FolderPlan)
unfolding collect_plans
named_plans a names = collect_plans a [] names

unfoldable pub plans_for : Account → SyncSelection → Result (List FolderPlan)
unfolding default_plans all_plans named_plans
plans_for a default = ok (default_plans a)
plans_for a all = ok (all_plans a)
plans_for a (named names) = named_plans a names
