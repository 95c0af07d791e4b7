-- ===== src/Policy.antt =====
-- policy.rs: which remote side effects the policy of an account authorises.
pub mod Laws
mod Tests
use vivi_mail.Common.{
  String, List, [], ◌∷◌, Option, none, some, Bool, true, false, ◌||◌, ◌==◌, format, Result, ok, err,
  VivariumError, to_ascii_lowercase, if◌then◌else◌,
}
use vivi_mail.Config.{Account, MutationPolicy, full_write, read_only, policy_text}
use vivi_mail.Config.Resolve.{trash_folder}
use vivi_mail.Queue.Item.{QueuedCommand}

pub data RemoteMutation : Type 0 where
  archive move_to_trash move_other expunge flag send append_draft : RemoteMutation

unfoldable pub mutation_text : RemoteMutation → String
mutation_text archive = "archive"
mutation_text move_to_trash = "move-to-trash"
mutation_text move_other = "move"
mutation_text expunge = "expunge"
mutation_text flag = "flag"
mutation_text send = "send"
mutation_text append_draft = "append-draft"

unfoldable pub classifies_as_trash : Account → String → Bool
classifies_as_trash account folder =
    let lower = to_ascii_lowercase folder in
    lower == "trash" || lower == "deleted" || lower == to_ascii_lowercase (trash_folder account)

unfoldable pub classify : Account → QueuedCommand → Option RemoteMutation
unfolding classifies_as_trash
classify account (QueuedCommand.archive handles) = some archive
classify account (QueuedCommand.delete handles expunged confirm) =
    some (if expunged then expunge else move_to_trash)
classify account (QueuedCommand.move handle folder) =
    some (if classifies_as_trash account folder then move_to_trash else move_other)
classify account (QueuedCommand.flag handle read unread star unstar) = some flag
classify account (QueuedCommand.send path from) = some send
classify account (QueuedCommand.reply handle body) = none

unfoldable pub policy_allows : MutationPolicy → RemoteMutation → Bool
policy_allows full_write mutation = true
policy_allows read_only mutation = false
policy_allows MutationPolicy.archive archive = true
policy_allows MutationPolicy.archive move_other = true
policy_allows MutationPolicy.archive flag = true
policy_allows MutationPolicy.archive _ = false

unfoldable pub authorize_mutation : Account → RemoteMutation → Result (Unit {0})
unfolding policy_allows mutation_text policy_text
authorize_mutation account mutation =
    if policy_allows account.policy mutation
    then ok tt
    else err (
        VivariumError.policy (
          format (
            "account '"
            ∷ account.name
            ∷ "' has policy '"
            ∷ policy_text account.policy
            ∷ "' which denies "
            ∷ mutation_text mutation
            ∷ [])))

abbrev authorize_class : Account → Option RemoteMutation → Result (Unit {0})
authorize_class account none = ok tt
authorize_class account (some mutation) = authorize_mutation account mutation

unfoldable pub authorize : Account → QueuedCommand → Result (Unit {0})
unfolding classify authorize_mutation
authorize account command = authorize_class account (classify account command)
