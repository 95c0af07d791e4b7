-- ===== src/Commands.antt =====
-- queue_runner.rs with cli/agent_command.rs and cli/write_command.rs: the commands that make, queue
-- or plan a write. The account is the one that `resolve_account` yields, and printing is left out.
pub mod Ways
mod Tests
use vivi_mail.Common.{
  String, List, [], ◌∷◌, ◌==◌, Option, none, some, Bool, true, false, VivariumError, message,
  Result, ok, err, format, if◌then◌else◌,
}
use vivi_mail.Config.{Account}
use vivi_mail.Policy.{authorize}
use vivi_mail.Queue.Item.{QueuedCommand, QueueItem, new_item}
use vivi_mail.Mutation.World.{Env, State, Exec, ◌>>=◌, ◌>>◌, lift}
use vivi_mail.Mutation.Runner.{run_queued_mutation}

-- The last two of `archive`, `delete`, `move` and `flag` are `--execute` and `--json`; `delete` has
-- `--trash`, `--expunge` and `--confirm` before them.
pub data AgentCommand : Type 0 where
  poll : String → String → Bool → Bool → String → List String → AgentCommand
  archive : List String → Bool → Bool → AgentCommand
  delete : List String → Bool → Bool → Bool → Bool → Bool → AgentCommand
  move : String → String → Bool → Bool → AgentCommand
  flag : String → Bool → Bool → Bool → Bool → Bool → Bool → AgentCommand

-- The last of the first four is `--json`.
pub data ExecCommand : Type 0 where
  archive : List String → Bool → ExecCommand
  delete : List String → Bool → Bool → Bool → Bool → ExecCommand
  move : String → String → Bool → ExecCommand
  flag : String → Bool → Bool → Bool → Bool → Bool → ExecCommand
  send : String → Option String → ExecCommand

pub data EnqueueCommand : Type 0 where
  archive : List String → EnqueueCommand
  delete : List String → Bool → Bool → Bool → EnqueueCommand
  move : String → String → EnqueueCommand
  flag : String → Bool → Bool → Bool → Bool → EnqueueCommand
  send : String → Option String → EnqueueCommand
  reply : String → String → EnqueueCommand

unfoldable pub is_agent_mutation : AgentCommand → Bool
is_agent_mutation (AgentCommand.poll from folder dry json program args) = false
is_agent_mutation _ = true

unfoldable pub queued_from_agent : AgentCommand → Result (QueuedCommand × Bool × Bool)
queued_from_agent (AgentCommand.archive handles execute json) =
    ok (QueuedCommand.archive handles, json, execute)
queued_from_agent (AgentCommand.delete handles trash expunge confirm execute json) =
    ok (QueuedCommand.delete handles expunge confirm, json, execute)
queued_from_agent (AgentCommand.move handle folder execute json) =
    ok (QueuedCommand.move handle folder, json, execute)
queued_from_agent (AgentCommand.flag handle read unread star unstar execute json) =
    ok (QueuedCommand.flag handle read unread star unstar, json, execute)
queued_from_agent (AgentCommand.poll from folder dry json program args) =
    err (message "agent poll is not a mutation command")

abbrev eml_or : Bool → String → Result QueuedCommand → Result QueuedCommand
eml_or true path queued = queued
eml_or false path queued =
    err (message (format ("send requires an explicit .eml file: " ∷ path ∷ [])))

abbrev with_json : Bool → Result QueuedCommand → Result (QueuedCommand × Bool)
with_json json (err e) = err e
with_json json (ok queued) = ok (queued, json)

-- Whether the extension of a path is "eml", as `require_eml_path` asks of std::path.
module _ (is_eml : String → Bool) where
  unfoldable pub queued_from_exec : ExecCommand → Result (QueuedCommand × Bool)
  queued_from_exec (ExecCommand.archive handles json) = ok (QueuedCommand.archive handles, json)
  queued_from_exec (ExecCommand.delete handles trash expunge confirm json) =
      ok (QueuedCommand.delete handles expunge confirm, json)
  queued_from_exec (ExecCommand.move handle folder json) =
      ok (QueuedCommand.move handle folder, json)
  queued_from_exec (ExecCommand.flag handle read unread star unstar json) =
      ok (QueuedCommand.flag handle read unread star unstar, json)
  queued_from_exec (ExecCommand.send path from) =
      with_json false (eml_or (is_eml path) path (ok (QueuedCommand.send path from)))

  unfoldable pub queued_from_enqueue : EnqueueCommand → Result QueuedCommand
  queued_from_enqueue (EnqueueCommand.archive handles) = ok (QueuedCommand.archive handles)
  queued_from_enqueue (EnqueueCommand.delete handles trash expunge confirm) =
      ok (QueuedCommand.delete handles expunge confirm)
  queued_from_enqueue (EnqueueCommand.move handle folder) = ok (QueuedCommand.move handle folder)
  queued_from_enqueue (EnqueueCommand.flag handle read unread star unstar) =
      ok (QueuedCommand.flag handle read unread star unstar)
  queued_from_enqueue (EnqueueCommand.send path from) =
      eml_or (is_eml path) path (ok (QueuedCommand.send path from))
  queued_from_enqueue (EnqueueCommand.reply handle body) = ok (QueuedCommand.reply handle body)

-- `send_path` and `reply_body` on the mutations' state are a parameter.
module _ (env : Env) (send_or_reply : QueuedCommand → Exec (Unit {0})) (acct : Account) where
  unfoldable pub execute_queued : QueuedCommand → Exec (Unit {0})
  execute_queued (QueuedCommand.send path from) = do
    lift (authorize acct (QueuedCommand.send path from))
    send_or_reply (QueuedCommand.send path from)
  execute_queued (QueuedCommand.reply handle body) = do
    lift (authorize acct (QueuedCommand.reply handle body))
    send_or_reply (QueuedCommand.reply handle body)
  execute_queued command = do
    lift (authorize acct command)
    run_queued_mutation env acct command false

  unfoldable pub plan_queued : QueuedCommand → Exec (Unit {0})
  plan_queued (QueuedCommand.send path from) = do
    lift (authorize acct (QueuedCommand.send path from))
    lift (err (message "agent plan not supported"))
  plan_queued (QueuedCommand.reply handle body) = do
    lift (authorize acct (QueuedCommand.reply handle body))
    lift (err (message "agent plan not supported"))
  plan_queued command = do lift (authorize acct command); run_queued_mutation env acct command true

  abbrev pub execute_or_plan : QueuedCommand → Bool → Exec (Unit {0})
  execute_or_plan queued execute = if execute then execute_queued queued else plan_queued queued

  unfoldable pub run_agent_mutation_command : AgentCommand → Exec (Unit {0})
  unfolding queued_from_agent execute_queued plan_queued
  run_agent_mutation_command command = do
    (queued, json, execute) ← lift (queued_from_agent command)
    execute_or_plan queued execute

  unfoldable pub exec : (String → Bool) → ExecCommand → Exec (Unit {0})
  unfolding queued_from_exec execute_queued
  exec is_eml command = do
    (queued, json) ← lift (queued_from_exec is_eml command)
    execute_queued queued
