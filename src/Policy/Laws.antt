-- ===== src/Policy/Laws.antt =====
-- policy.rs: what each policy lets through.
use mathlib.Core.Logic.{◌↔◌}
use vivi_mail.Common.{String, ◌≡◌, refl, true, arith, to_ascii_lowercase, eq_iff, ◌≢◌, is_ok}
use vivi_mail.Config.{Account, MutationPolicy, full_write, read_only, archive}
use vivi_mail.Config.Resolve.{trash_folder}
use vivi_mail.Queue.Item.{QueuedCommand}
use vivi_mail.Policy.{authorize}

-- What the documentation of the policies promises, by policy and command.
abbrev pub Permitted : MutationPolicy → Account → QueuedCommand → Type 0
Permitted full_write a c = Unit
Permitted read_only a (QueuedCommand.reply handle body) = Unit
Permitted read_only a _ = ⊥
Permitted archive a (QueuedCommand.archive handles) = Unit
Permitted archive a (QueuedCommand.flag handle read unread star unstar) = Unit
Permitted archive a (QueuedCommand.reply handle body) = Unit
Permitted archive a (QueuedCommand.move handle folder) =
    (to_ascii_lowercase folder ≢ "trash")
    × (to_ascii_lowercase folder ≢ "deleted")
    × (to_ascii_lowercase folder ≢ to_ascii_lowercase (trash_folder a))
Permitted archive a _ = ⊥

pub move-archive_iff :
    (a : Account) (handle folder : String)
    → a.policy ≡ archive
    → (is_ok (authorize a (QueuedCommand.move handle folder)) ≡ true)
      ↔ Permitted archive a (QueuedCommand.move handle folder)
unfolding authorize
move-archive_iff a handle folder e = ground (
  arith,
  eq_iff (to_ascii_lowercase folder) "trash",
  eq_iff (to_ascii_lowercase folder) "deleted",
  eq_iff (to_ascii_lowercase folder) (to_ascii_lowercase (trash_folder a)),
)

Permitted-policy_at :
    (p : MutationPolicy) (a : Account) (c : QueuedCommand)
    → a.policy ≡ p
    → (is_ok (authorize a c) ≡ true) ↔ Permitted p a c
unfolding authorize
Permitted-policy_at full_write a c e = ground arith
Permitted-policy_at read_only a (QueuedCommand.reply handle body) e = ground arith
Permitted-policy_at read_only a _ e = ground arith
Permitted-policy_at archive a (QueuedCommand.move handle folder) e =
    move-archive_iff a handle folder e
Permitted-policy_at archive a _ e = ground arith

-- A command is authorised exactly where the account's policy permits it: full-write permits all;
-- read-only permits only the local reply draft; archive permits archiving, flags, the reply draft
-- and the moves whose folder, in lower case, is neither "trash" nor "deleted" nor the account's
-- trash folder in lower case.
pub authorize_iff :
    (a : Account) (c : QueuedCommand) → (is_ok (authorize a c) ≡ true) ↔ Permitted a.policy a c
authorize_iff a c = Permitted-policy_at a.policy a c refl
