-- ===== src/Commands/Ways.antt =====
-- queue_runner.rs: what an agent's command does, by the policy and by `--execute`.
use vivi_mail.Common.{Bool, ◌≡◌, Result, ok, err}
use vivi_mail.Queue.Item.{QueuedCommand}
use vivi_mail.Mutation.World.{State}
use vivi_mail.Mutation.Runner.Effects.{Discovers}

-- The rows and the sessions of mutations are those of another state, and there is at most one more
-- session of discovery.
abbrev pub IsSame : State → State → Type 0
IsSame s t = (t.rows ≡ s.rows) × (t.sessions ≡ s.sessions) × Discovers s.discoveries t.discoveries

-- A command that is neither a send nor a reply.
abbrev pub IsMutation : QueuedCommand → Type 0
IsMutation (QueuedCommand.send path from) = ⊥
IsMutation (QueuedCommand.reply handle body) = ⊥
IsMutation _ = Unit

abbrev FromAgent : Result (QueuedCommand × Bool × Bool) → Type 0
FromAgent (err e) = Unit
FromAgent (ok (queued, json, execute)) = IsMutation queued
