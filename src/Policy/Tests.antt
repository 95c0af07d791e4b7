-- ===== src/Policy/Tests.antt =====
-- Instances of the theorem on the policies.
use mathlib.Core.Logic.{◌↔◌}
use vivi_mail.Common.{◌≡◌, true, is_ok}
use vivi_mail.Config.{Account, MutationPolicy, bare_account}
use vivi_mail.Queue.Item.{QueuedCommand}
use vivi_mail.Policy.{authorize}
use vivi_mail.Policy.Laws.{Permitted, authorize_iff}

abbrev archiving : Account
archiving = record bare_account { policy = MutationPolicy.archive }

authorize_iff_example :
    (is_ok (authorize archiving (QueuedCommand.move "m1" "Receipts")) ≡ true)
    ↔ Permitted MutationPolicy.archive archiving (QueuedCommand.move "m1" "Receipts")
authorize_iff_example = authorize_iff archiving (QueuedCommand.move "m1" "Receipts")
