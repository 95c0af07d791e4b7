-- ===== src/Commands/Tests.antt =====
-- queue_runner.rs: the conversions on concrete commands, and the instance of the theorem.
use vivi_mail.Common.{[], ◌∷◌, ◌==◌, none, true, false, ◌≡◌, refl, ok, err, message}
use vivi_mail.Queue.Item.{QueuedCommand}
use vivi_mail.Mutation.World.{Exec, lift}
use vivi_mail.Commands.{AgentCommand, EnqueueCommand, queued_from_enqueue}

abbrev no_sends : QueuedCommand → Exec (Unit {0})
no_sends command = lift (ok tt)

enqueue_run :
    queued_from_enqueue (λ path. path == "a.eml") (EnqueueCommand.send "b.txt" none)
    ≡ err (message "send requires an explicit .eml file: b.txt")
unfolding queued_from_enqueue
enqueue_run = refl

abbrev agent_archive : AgentCommand
agent_archive = AgentCommand.archive ("01234567" ∷ []) false true

abbrev queued_archive : QueuedCommand
queued_archive = QueuedCommand.archive ("01234567" ∷ [])
