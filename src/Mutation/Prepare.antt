-- ===== src/Mutation/Prepare.antt =====
-- mutation_command.rs: what is resolved and checked before a mutation runs.
use vivi_mail.Common.{
  ℕ, String, List, [], ◌∷◌, Option, Bool, true, false, format, message, Result, ok, err, ok_or,
  ◌>>=◌, ◌>>◌, if◌then◌else◌,
}
use vivi_mail.Config.{Account}
use vivi_mail.Imap.Folders.{is_virtual_mailbox}
use vivi_mail.Catalog.{CatalogEntry, RemoteIdentity, Row}
use vivi_mail.Catalog.Handles.{resolve_entry}
use vivi_mail.Mutation.Plan.{
  MutationCapabilities, MutationAction, MutationPlan, mutation_plan, target_folders, command_path,
  action_name,
}

pub record MutationPreview : Type 0 where
  pub account : String
  pub handle : String
  pub input : String
  pub local_message_id : String
  pub operation : String
  pub source_mailbox : String
  pub source_local_folder : String
  pub target_mailbox : Option String
  pub target_local_folder : Option String
  pub uid : ℕ
  pub uidvalidity : ℕ
  pub command_path : String
  pub dry_run : Bool
  pub requires_confirm : Bool

pub record PreparedMutation : Type 0 where
  pub action : MutationAction
  pub entry : CatalogEntry
  pub remote : RemoteIdentity
  pub preview : MutationPreview
  pub plan : MutationPlan

-- `matches!(action, MutationAction::Expunge)`
abbrev pub is_expunge : MutationAction → Bool
is_expunge MutationAction.expunge = true
is_expunge _ = false

abbrev refuse_virtual : RemoteIdentity → Result (Unit {0})
refuse_virtual remote =
    if is_virtual_mailbox remote.remote_mailbox
    then err (
        message (
          format (
            "refusing to mutate virtual mailbox '" ∷ remote.remote_mailbox
            ∷ "'; re-sync from a real folder first" ∷ [])))
    else ok tt

-- `prepare_mutation` from the lookup in the open catalog on.
unfoldable pub prepare_from :
    (String → String → Bool)
    → List Row
    → Account
    → String
    → MutationAction
    → MutationCapabilities
    → Bool
    → Result PreparedMutation
unfolding resolve_entry is_virtual_mailbox mutation_plan target_folders action_name command_path
prepare_from like rows account input action capabilities dry_run = do
  entry ← ok_or (resolve_entry like rows account.name input) (
      message
        (format ("message not found in catalog for account '" ∷ account.name ∷ "': " ∷ input ∷ [])))
  remote ←
      ok_or entry.remote
        (message (format ("message has no remote identity yet: " ∷ entry.handle ∷ [])))
  refuse_virtual remote
  plan ← mutation_plan account action capabilities
  target ← target_folders account action
  ok (record {
    action = action;
    entry = entry;
    remote = remote;
    preview = record {
      account = account.name;
      handle = entry.handle;
      input = input;
      local_message_id = entry.handle;
      operation = action_name action;
      source_mailbox = remote.remote_mailbox;
      source_local_folder = entry.local_role;
      target_mailbox = target.remote;
      target_local_folder = target.local;
      uid = remote.uid;
      uidvalidity = remote.uidvalidity;
      command_path = command_path plan;
      dry_run = dry_run;
      requires_confirm = is_expunge action;
    };
    plan = plan;
  })
