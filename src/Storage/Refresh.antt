-- ===== src/Storage/Refresh.antt =====
-- imap/sync.rs: the update of the stored flags of a folder by a listing of it.
use vivi_mail.Common.{ℕ, String, List, [], ◌∷◌, Option, none, some}
use vivi_mail.Imap.Sync.{RemoteMessage, current_uidvalidity}
use vivi_mail.Storage.{Tables}
use vivi_mail.Storage.Mutate.{mark_stale_uidvalidity, update_remote_flags}

abbrev mark_stale : String → String → Option ℕ → Tables → Tables
mark_stale account folder none tables = tables
mark_stale account folder (some uidvalidity) tables =
    (mark_stale_uidvalidity account folder uidvalidity tables).1

abbrev update_flags : String → String → String → RemoteMessage → Option ℕ → Tables → Tables
update_flags account folder now remote none tables = tables
update_flags account folder now remote (some uidvalidity) tables =
    (update_remote_flags account folder uidvalidity remote.uid remote.read_state remote.starred now
      tables).1

unfoldable pub update_each : String → String → String → List RemoteMessage → Tables → Tables
unfolding update_remote_flags
update_each account folder now [] tables = tables
update_each account folder now (remote ∷ rest) tables =
    update_each account folder now rest
      (update_flags account folder now remote remote.uidvalidity tables)

-- Where no statement fails.
unfoldable pub refresh_remote_flags :
    String → String → String → List RemoteMessage → Tables → Tables
unfolding update_each mark_stale_uidvalidity current_uidvalidity
refresh_remote_flags account folder now messages tables =
    update_each account folder now messages
      (mark_stale account folder (current_uidvalidity messages) tables)
