-- ===== src/Mutation/Tests.antt =====
-- Sessions and runs of concrete mutations, and the instances of their theorems.
use vivi_mail.Common.{
  ◌≤◌, [], ◌∷◌, ◌++◌, none, some, true, false, ◌==◌, All, ok, err, length, message, ◌≡◌, refl,
  arith, to_ascii_lowercase,
}
use vivi_mail.Config.{Account, MutationPolicy, bare_account}
use vivi_mail.Config.Resolve.{archive_folder, trash_folder}
use vivi_mail.Policy.{authorize}
use vivi_mail.Queue.Item.{QueuedCommand}
use vivi_mail.Catalog.{RemoteIdentity, CatalogEntry, catalog_entry_from_row, entry, update_where}
use vivi_mail.Catalog.Tests.{row, two_rows, no_like}
use vivi_mail.Mutation.Plan.{
  MutationCapabilities, MutationAction, MutationPlan, copy_store_deleted_uid_expunge, TargetFolders,
  mutation_plan, target_folders, local_folder_for_move,
}
use vivi_mail.Mutation.Plan.Laws.{
  Supported, plan_destination, mutation_plan-Supported, Role, role_folder, role_text,
  target_folders-agree, authorize-not_trash,
}
use vivi_mail.Mutation.Remote.{
  Server, Log, Request, Reply, completed, refused, select, uid_copy, uid_store, uid_expunge, logout,
  MutationResult, refresh_remote_identity, execute_plan,
}
use vivi_mail.Mutation.Remote.Safety.{Scoped, Current, execute_plan-Scoped}
use vivi_mail.Mutation.Remote.Moves.{
  ExpungesCopied, execute_plan-ExpungesCopied, trace, execute_plan-ok,
}
use vivi_mail.Mutation.World.{Env, State}
use vivi_mail.Mutation.Discovery.{DiscoveryServer, DiscoveryLog, Inquiry, discover_folders}
use vivi_mail.Mutation.Runner.{run_queued_mutation}
use vivi_mail.Mutation.Runner.Effects.{
  Discovers, run_queued_mutation-dry_run, run_queued_mutation-unconfirmed,
}
use vivi_mail.Mutation.Prepare.{PreparedMutation}
use vivi_mail.Mutation.Runner.{run_prepared_mutation, MutationRunOptions}
use vivi_mail.Mutation.Runner.Mirror.{run_prepared_mutation-mirrors}
use vivi_mail.Mutation.Runner.Approvals.{approvals}
use vivi_mail.Mutation.Runner.Audited.{run_queued_mutation-audited}

abbrev letter : RemoteIdentity
letter = record {
  account = "me";
  provider = "standard";
  remote_mailbox = "INBOX";
  local_folder = "inbox";
  uid = 7;
  uidvalidity = 3;
  rfc_message_id = "";
  size = 1;
  content_fingerprint = "00";
}

-- A server that completes every request.
abbrev willing : Server
willing = record { connect = ok tt; uid_validity = λ m. some 3; reply = λ log r. completed }

abbrev refuses_expunge : Request → Reply
refuses_expunge (uid_expunge u) = refused "NO"
refuses_expunge _ = completed

-- A server that refuses to expunge.
abbrev unwilling : Server
unwilling = record {
  connect = ok tt;
  uid_validity = λ m. some 3;
  reply = λ log r. refuses_expunge r;
}

abbrev copying : MutationPlan
copying = MutationPlan.move "Archive" copy_store_deleted_uid_expunge

abbrev finished : Log
finished =
    (logout, completed)
    ∷ (uid_expunge 7, completed)
    ∷ (uid_store 7 "+FLAGS.SILENT (\\Deleted)", completed)
    ∷ (uid_copy 7 "Archive", completed)
    ∷ (select "INBOX", completed)
    ∷ []

abbrev moved : MutationResult
moved = record {
  source_mailbox = "INBOX";
  destination_mailbox = some "Archive";
  uid = 7;
  uidvalidity = 3;
  command_path = "UID COPY + UID STORE + UID EXPUNGE";
  reconciliation = refresh_remote_identity;
}

execute_plan_run : execute_plan willing letter copying [] ≡ (ok moved, finished)
unfolding execute_plan
execute_plan_run = refl

execute_plan-Scoped_example : All (Scoped willing letter) (execute_plan willing letter copying []).1
execute_plan-Scoped_example = execute_plan-Scoped willing letter copying

execute_plan-ExpungesCopied_example :
    ExpungesCopied 7 "Archive" (execute_plan unwilling letter copying []).1
execute_plan-ExpungesCopied_example =
    execute_plan-ExpungesCopied unwilling letter "Archive" copy_store_deleted_uid_expunge

execute_plan-ok_example :
    Current willing letter
    × ((a : Reply) × (finished
          ≡ (logout, a) ∷ trace willing letter copying ++ (select "INBOX", completed) ∷ []))
execute_plan-ok_example = execute_plan-ok willing letter copying moved finished execute_plan_run

abbrev uidplus_only : MutationCapabilities
uidplus_only = record { move_supported = false; uidplus = true }

abbrev to_archive : TargetFolders
to_archive = record { remote = some "Archive"; local = some "archive" }

mutation_plan_run : mutation_plan bare_account (MutationAction.move "all") uidplus_only ≡ ok copying
unfolding mutation_plan archive_folder
mutation_plan_run = refl

target_folders_run : target_folders bare_account (MutationAction.move "all") ≡ ok to_archive
unfolding target_folders archive_folder
target_folders_run = refl

mutation_plan-Supported_example :
    Supported uidplus_only copying × (plan_destination copying ≡ some "Archive")
mutation_plan-Supported_example =
    mutation_plan-Supported bare_account (MutationAction.move "all") uidplus_only copying to_archive
      mutation_plan_run target_folders_run

target_folders-agree_example :
    (r : Role) × (some "Archive" ≡ some (role_folder bare_account r))
    × (some "archive" ≡ some (role_text r))
target_folders-agree_example = target_folders-agree bare_account "all" to_archive target_folders_run

abbrev archiving : Account
archiving = record bare_account { policy = MutationPolicy.archive }

authorize-not_trash_example : ¬ local_folder_for_move archiving "Archive" ≡ ok "trash"
unfolding authorize to_ascii_lowercase trash_folder
authorize-not_trash_example = authorize-not_trash archiving "m1" "Archive" refl refl

abbrev knows_uidplus : DiscoveryServer
knows_uidplus = record {
  connect = ok tt;
  capability_reply = completed;
  list_reply = completed;
  logout_reply = completed;
  has_str = λ name. name == "UIDPLUS";
}

abbrev inquired : DiscoveryLog
inquired =
    (Inquiry.logout, completed) ∷ (Inquiry.list, completed) ∷ (Inquiry.capability, completed) ∷ []

discover_folders_run : discover_folders knows_uidplus ≡ (ok uidplus_only, inquired)
unfolding discover_folders
discover_folders_run = refl

abbrev pub world : Env
world = record {
  now = λ n. "t";
  fails = λ n. none;
  server = λ n. willing;
  discovery = λ n. knows_uidplus;
  like = no_like;
}

abbrev pub start : State
start = record { rows = two_rows; audit = []; sessions = []; discoveries = []; calls = 0 }

abbrev archive_first : QueuedCommand
archive_first = QueuedCommand.archive ("01234567" ∷ [])

abbrev archived : State
archived = (run_queued_mutation world bare_account archive_first false start).1

archive_opens_one_session :
    (archived.sessions ≡ finished ∷ []) × (archived.discoveries ≡ inquired ∷ [])
unfolding run_queued_mutation archive_folder
archive_opens_one_session = (refl, refl)

run_queued_mutation-audited_example :
    (length archived.sessions ≤ approvals archived.audit) × Discovers [] archived.discoveries
run_queued_mutation-audited_example =
    run_queued_mutation-audited world bare_account archive_first false start (omega arith)

run_queued_mutation-dry_run_example :
    let t = (run_queued_mutation world bare_account archive_first true start).1 in
    (t.rows ≡ two_rows) × (t.sessions ≡ []) × Discovers [] t.discoveries
run_queued_mutation-dry_run_example =
    run_queued_mutation-dry_run world bare_account archive_first start

run_queued_mutation-unconfirmed_example :
    run_queued_mutation world bare_account
      (QueuedCommand.delete ("01234567" ∷ []) true false)
      false
      start
    ≡ (err (message "hard expunge requires --confirm; use --dry-run to preview"), start)
run_queued_mutation-unconfirmed_example =
    run_queued_mutation-unconfirmed world bare_account "01234567" [] start

abbrev prepared : PreparedMutation
prepared = record {
  action = MutationAction.archive;
  entry = catalog_entry_from_row (row "msg_0123456789abcdef01234567");
  remote = letter;
  preview = record {
    account = "me";
    handle = "msg_0123456789abcdef01234567";
    input = "01234567";
    local_message_id = "msg_0123456789abcdef01234567";
    operation = "archive";
    source_mailbox = "INBOX";
    source_local_folder = "inbox";
    target_mailbox = some "Archive";
    target_local_folder = some "archive";
    uid = 7;
    uidvalidity = 3;
    command_path = "UID COPY + UID STORE + UID EXPUNGE";
    dry_run = false;
    requires_confirm = false;
  };
  plan = copying;
}

abbrev in_earnest : MutationRunOptions
in_earnest = record { dry_run = false; confirm = false }

abbrev mirrored : State
mirrored = (run_prepared_mutation world bare_account prepared uidplus_only in_earnest start).1

prepared_run :
    run_prepared_mutation world bare_account prepared uidplus_only in_earnest start
    ≡ (ok tt, mirrored)
unfolding run_prepared_mutation catalog_entry_from_row archive_folder update_where
prepared_run = refl

run_prepared_mutation-mirrors_example :
    (e : CatalogEntry) × (entry mirrored.rows "me" "msg_0123456789abcdef01234567" ≡ some e)
    × (e.local_role ≡ "archive")
    × (e.remote ≡ none)
run_prepared_mutation-mirrors_example =
    run_prepared_mutation-mirrors world bare_account prepared uidplus_only in_earnest "archive"
      start mirrored refl refl refl prepared_run
