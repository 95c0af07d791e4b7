-- ===== src/Mutation/Runner.antt =====
-- mutation_runner.rs: the queued mutations. The account is the one that `resolve_account` yields, and
-- the printing of the outcomes is left out.
pub mod Effects
pub mod Approvals
pub mod Audited
pub mod Mirror
use vivi_mail.Common.{
  String, List, [], ◌∷◌, Option, none, some, Bool, true, false, ◌||◌, VivariumError, message,
  to_string, Result, ok, err, if◌then◌else◌,
}
use vivi_mail.Config.{Account}
use vivi_mail.Config.Resolve.{archive_folder, trash_folder, unwrap_or}
use vivi_mail.Queue.Item.{QueuedCommand}
use vivi_mail.Mutation.Plan.{
  MutationCapabilities, MutationAction, MutationTarget, FlagMutation, read, unread, starred,
  unstarred,
}
use vivi_mail.Mutation.Remote.{MutationResult, move_message, mutate_flag, hard_expunge_message}
use vivi_mail.Mutation.World.{Env, State, Exec, ◌>>=◌, ◌>>◌, pure, lift, in_session, discover}
use vivi_mail.Mutation.Prepare.{PreparedMutation, is_expunge}
use vivi_mail.Mutation.Command.{prepare_mutation, append_audit, reconcile_success}

pub record MutationRunOptions : Type 0 where
  pub dry_run : Bool
  pub confirm : Bool

unfoldable pub flag_mutation : Bool → Bool → Bool → Bool → Result FlagMutation
flag_mutation true false false false = ok read
flag_mutation false true false false = ok unread
flag_mutation false false true false = ok starred
flag_mutation false false false true = ok unstarred
flag_mutation _ _ _ _ = err (message "choose exactly one of --read, --unread, --star, or --unstar")

abbrev pub ActionFor : Type 0
ActionFor = String → Result MutationAction

abbrev refuse_expunge : MutationAction → Result (Unit {0})
refuse_expunge action =
    if is_expunge action
    then err (message "hard expunge requires --confirm; use --dry-run to preview")
    else ok tt

abbrev and_then : Result (Unit {0}) → Result (Unit {0}) → Result (Unit {0})
and_then (ok a) r = r
and_then (err e) r = err e

abbrev with_action :
    Result MutationAction → (MutationAction → Result (Unit {0})) → Result (Unit {0})
with_action (ok action) f = f action
with_action (err e) f = err e

-- The loop of `validate_mutation_confirmation`.
unfoldable pub confirm_each : ActionFor → List String → Result (Unit {0})
confirm_each action_for [] = ok tt
confirm_each action_for (input ∷ inputs) =
    and_then (with_action (action_for input) refuse_expunge) (confirm_each action_for inputs)

unfoldable pub validate_mutation_confirmation :
    List String → ActionFor → MutationRunOptions → Result (Unit {0})
unfolding confirm_each
validate_mutation_confirmation inputs action_for options =
    if options.dry_run || options.confirm then ok tt else confirm_each action_for inputs

module _ (env : Env) (acct : Account) where
  abbrev pub remote_action :
      PreparedMutation → MutationCapabilities → MutationAction → Exec MutationResult
  remote_action p capabilities MutationAction.archive = in_session env (λ server.
      move_message server p.remote (MutationTarget.archive (archive_folder acct)) capabilities)
  remote_action p capabilities MutationAction.trash = in_session env (λ server.
      move_message server p.remote (MutationTarget.trash (trash_folder acct)) capabilities)
  remote_action p capabilities (MutationAction.move name) = in_session env (λ server.
      move_message server p.remote (MutationTarget.folder (unwrap_or p.preview.target_mailbox name))
        capabilities)
  remote_action p capabilities MutationAction.expunge =
      in_session env (λ server. hard_expunge_message server p.remote capabilities)
  remote_action p capabilities (MutationAction.flag mutation) =
      in_session env (λ server. mutate_flag server p.remote mutation)

  unfoldable pub execute_remote : PreparedMutation → MutationCapabilities → Exec MutationResult
  unfolding in_session move_message hard_expunge_message mutate_flag
  execute_remote p capabilities = remote_action p capabilities p.action

  -- A failure of the reconciliation is entered too; a failure of that entry is ignored.
  abbrev pub reconciled : PreparedMutation → Result (Unit {0}) × State → Result (Unit {0}) × State
  reconciled p (ok a, s) = append_audit env p "reconciled" false none s
  reconciled p (err e, s) = (err e, (append_audit env p "failed" false (some (to_string e)) s).1)

  abbrev pub conclude : PreparedMutation → Result MutationResult × State → Result (Unit {0}) × State
  conclude p (ok r, s) =
      (append_audit env p "executed" false none >> λ t. reconciled p (reconcile_success env p t)) s
  conclude p (err e, s) = (append_audit env p "failed" false (some (to_string e)) >> lift (err e)) s

  unfoldable pub run_prepared_mutation :
      PreparedMutation → MutationCapabilities → MutationRunOptions → Exec (Unit {0})
  unfolding append_audit execute_remote reconcile_success
  run_prepared_mutation p capabilities options =
      if options.dry_run then append_audit env p "planned" true none else do
        append_audit env p "approved" false none
        λ s. conclude p (execute_remote p capabilities s)

  unfoldable pub run_each_mutation :
      List String → ActionFor → MutationCapabilities → MutationRunOptions → Exec (Unit {0})
  unfolding prepare_mutation run_prepared_mutation
  run_each_mutation [] action_for capabilities options = pure tt
  run_each_mutation (input ∷ inputs) action_for capabilities options = do
    action ← lift (action_for input)
    prepared ← prepare_mutation env acct input action capabilities options.dry_run
    run_prepared_mutation prepared capabilities options
    run_each_mutation inputs action_for capabilities options

  unfoldable pub run_mutations : List String → ActionFor → MutationRunOptions → Exec (Unit {0})
  unfolding validate_mutation_confirmation run_each_mutation discover
  run_mutations inputs action_for options = do
    lift (validate_mutation_confirmation inputs action_for options)
    capabilities ← discover env
    run_each_mutation inputs action_for capabilities options

  abbrev options_for : Bool → Bool → MutationRunOptions
  options_for dry_run confirm = record { dry_run = dry_run; confirm = confirm }

  -- `Send` and `Reply` are unreachable: their runners are others.
  unfoldable pub run_queued_mutation : QueuedCommand → Bool → Exec (Unit {0})
  unfolding run_mutations flag_mutation
  run_queued_mutation (QueuedCommand.archive handles) dry_run =
      run_mutations handles (λ input. ok MutationAction.archive) (options_for dry_run false)
  run_queued_mutation (QueuedCommand.delete handles expunge confirm) dry_run =
      run_mutations handles
        (λ input. ok (if expunge then MutationAction.expunge else MutationAction.trash))
        (options_for dry_run confirm)
  run_queued_mutation (QueuedCommand.move handle folder) dry_run =
      run_mutations (handle ∷ []) (λ input. ok (MutationAction.move folder))
        (options_for dry_run false)
  run_queued_mutation (QueuedCommand.flag handle r u star unstar) dry_run = do
    mutation ← lift (flag_mutation r u star unstar)
    run_mutations (handle ∷ []) (λ input. ok (MutationAction.flag mutation))
        (options_for dry_run false)
  run_queued_mutation _ dry_run = lift (err (message "unreachable"))
