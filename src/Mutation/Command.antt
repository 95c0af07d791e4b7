-- ===== src/Mutation/Command.antt =====
-- mutation_command.rs and mutation_command/audit.rs: a mutation prepared from the catalog, its audit
-- records, and what a success does to the local row. The path that `append_audit` returns and the
-- report that the reconciliation returns are printed only, and are left out.
use vivi_mail.Common.{
  String, List, ◌∷◌, Option, none, Bool, true, false, message, Result, ok, err, ok_or,
}
use vivi_mail.Config.{Account}
use vivi_mail.Catalog.{
  CatalogEntry, RemoteIdentity, Row, update_local_state, update_remote_binding, remove_entry,
}
use vivi_mail.Mutation.Prepare.{PreparedMutation, prepare_from}
use vivi_mail.Mutation.Plan.{
  MutationCapabilities, MutationAction, FlagMutation, read, unread, starred, unstarred,
}
use vivi_mail.Mutation.World.{Env, Exec, ◌>>=◌, ◌>>◌, lift, outside, MutationAuditRecord}

unfoldable pub prepare_mutation :
    Env → Account → String → MutationAction → MutationCapabilities → Bool → Exec PreparedMutation
unfolding prepare_from outside
prepare_mutation env account input action capabilities dry_run =
    outside env >> λ s. (prepare_from env.like s.rows account input action capabilities dry_run, s)

unfoldable pub audit_record :
    PreparedMutation → String → Bool → Option String → String → MutationAuditRecord
audit_record prepared status dry_run error now = record {
  timestamp = now;
  account = prepared.preview.account;
  handle = prepared.preview.handle;
  operation = prepared.preview.operation;
  status = status;
  dry_run = dry_run;
  source_mailbox = prepared.preview.source_mailbox;
  target_mailbox = prepared.preview.target_mailbox;
  uid = prepared.preview.uid;
  uidvalidity = prepared.preview.uidvalidity;
  command_path = prepared.preview.command_path;
  error = error;
}

abbrev pub append_record : Env → MutationAuditRecord → Exec (Unit {0})
append_record env r s = (ok tt, record s { audit = r ∷ s.audit })

unfoldable pub append_audit :
    Env → PreparedMutation → String → Bool → Option String → Exec (Unit {0})
unfolding outside audit_record
append_audit env prepared status dry_run error = do
  outside env
  λ s. append_record env (audit_record prepared status dry_run error (env.now s.calls)) s

unfoldable pub updated_read_state : CatalogEntry → FlagMutation → Bool
updated_read_state entry read = true
updated_read_state entry unread = false
updated_read_state entry _ = entry.read_state

unfoldable pub updated_starred_state : CatalogEntry → FlagMutation → Bool
updated_starred_state entry starred = true
updated_starred_state entry unstarred = false
updated_starred_state entry _ = entry.starred

-- `rows` of the state after a step of the catalog that may refuse.
abbrev pub with_rows : Result (List Row) → Exec (Unit {0})
with_rows (ok rows) s = (ok tt, record s { rows = rows })
with_rows (err e) s = (err e, s)

-- Two statements of SQL: the binding is not changed when the update of the row fails.
unfoldable pub update_message_state :
    Env → String → String → String → Bool → Bool → Option RemoteIdentity → Exec (Unit {0})
unfolding outside update_local_state update_remote_binding
update_message_state env account handle role read_state star remote = do
  outside env
  λ s. with_rows (update_local_state account handle role read_state star s.rows) s
  outside env
  λ s. with_rows (ok (update_remote_binding handle remote s.rows)) s

unfoldable pub reconcile_move : Env → PreparedMutation → Exec (Unit {0})
unfolding update_message_state
reconcile_move env p = do
  target ← lift (
      ok_or p.preview.target_local_folder (message "mutation has no supported local mirror target"))
  update_message_state env p.preview.account p.preview.handle target p.entry.read_state
      p.entry.starred none

unfoldable pub reconcile_expunge : Env → PreparedMutation → Exec (Unit {0})
unfolding outside remove_entry
reconcile_expunge env p = do
  outside env
  λ s. with_rows (remove_entry p.preview.account p.preview.handle s.rows) s

unfoldable pub reconcile_flag : Env → PreparedMutation → FlagMutation → Exec (Unit {0})
unfolding update_message_state updated_read_state updated_starred_state
reconcile_flag env p mutation =
    update_message_state env p.preview.account p.preview.handle p.entry.local_role
      (updated_read_state p.entry mutation) (updated_starred_state p.entry mutation) p.entry.remote

abbrev pub reconcile_action : Env → PreparedMutation → MutationAction → Exec (Unit {0})
reconcile_action env p MutationAction.expunge = reconcile_expunge env p
reconcile_action env p (MutationAction.flag mutation) = reconcile_flag env p mutation
reconcile_action env p _ = reconcile_move env p

unfoldable pub reconcile_success : Env → PreparedMutation → Exec (Unit {0})
unfolding reconcile_move reconcile_expunge reconcile_flag outside
reconcile_success env p = do outside env; reconcile_action env p p.action
