-- ===== src/Queue/Runner.antt =====
-- queue_runner.rs, with `send_path` of draft_runner.rs: the commands on the queue. The account is
-- the one that `resolve_account` yields; printing is left out.
use vivi_mail.Common.{
  String, List, [], ◌∷◌, Option, none, some, Bool, true, false, not, ◌&&◌, ◌==◌, format, to_string,
  VivariumError, Result, ok, err, message, map, if◌then◌else◌,
}
use vivi_mail.Config.{Account}
use vivi_mail.Policy.{authorize}
use vivi_mail.Queue.Item.{
  QueueItem, QueueStatus, pending, sending, executed, failed, dropped, QueuedCommand, new_item,
  is_pending, is_sending, send_already_attempted,
}
use vivi_mail.Queue.World.{
  Bytes, Outcome, done, fail, died, Env, Exec, ◌>>=◌, ◌>>◌, pure, raise, lift, load, list, save,
  mark_and_save, transmit, outside, run_mutation,
}

abbrev status_text : QueueStatus → String
status_text pending = "Pending"
status_text sending = "Sending"
status_text executed = "Executed"
status_text failed = "Failed"
status_text dropped = "Dropped"

-- `item.send_message_id = Some(key)`
abbrev pub with_key : QueueItem → String → QueueItem
with_key item key = record item { send_message_id = some key }

abbrev key_of : Option String → String → String
key_of none digest = format ("sha256:" ∷ digest ∷ [])
key_of (some id) digest = format ("msgid:" ∷ id ∷ [])

-- `matches!(item.command, QueuedCommand::Send { .. })`
abbrev pub is_send : QueuedCommand → Bool
is_send (QueuedCommand.send path from) = true
is_send _ = false

module _ (env : Env) (acct : Account) where
  unfoldable pub send_dedupe_key : Bytes → String
  send_dedupe_key bytes = key_of (env.message_id_from_bytes bytes) (env.sha256_hex bytes)

  abbrev has_eml : Option String → Bool
  has_eml none = false
  has_eml (some ext) = ext == "eml"

  unfoldable pub require_eml_path : String → Result (Unit {0})
  require_eml_path path =
      if has_eml (env.extension path)
      then ok tt
      else err (message (format ("send requires an explicit .eml file: " ∷ path ∷ [])))

  abbrev replaced : Bytes → Option String → Result Bytes
  replaced bytes none = ok bytes
  replaced bytes (some from) = env.replace_from_header bytes from

  unfoldable pub send_path : String → Option String → Exec (Unit {0})
  unfolding require_eml_path transmit outside
  send_path path from = do
    lift (require_eml_path path)
    bytes ← lift (env.read_file path)
    lift (replaced bytes from)
    transmit env path
    outside env.reconcile_sent

  unfoldable pub execute_queued : QueuedCommand → Exec (Unit {0})
  unfolding send_path run_mutation outside
  execute_queued (QueuedCommand.send path from) = do
    lift (authorize acct (QueuedCommand.send path from))
    send_path path from
  execute_queued (QueuedCommand.reply handle body) = do
    lift (authorize acct (QueuedCommand.reply handle body))
    outside env.reply
  execute_queued command = do lift (authorize acct command); run_mutation env command

  -- The end of a run: `Executed`, or `Failed` with the error; a death leaves the file as it is.
  abbrev pub settle_as : QueueItem → Outcome (Unit {0}) → Exec (Unit {0})
  settle_as item (done a) = mark_and_save env item executed none
  settle_as item (fail e) = do mark_and_save env item failed (some (to_string e)); raise e
  settle_as item died = λ s. (died, s)

  abbrev pub settle : QueueItem → Exec (Unit {0}) → Exec (Unit {0})
  settle item run s = let (r, s') = run s in settle_as item r s'

  -- `run_queued_send` from the reading of the history on.
  unfoldable pub send_once : QueueItem → String → Option String → String → Exec (Unit {0})
  unfolding list mark_and_save send_path
  send_once item path from key = do
    history ← list env true
    if send_already_attempted history key item.id
        then mark_and_save env (with_key item key) executed none
        else do
          mark_and_save env (with_key item key) sending none
          settle (with_key item key) (send_path path from)

  abbrev pub admit : QueueItem → Result (Unit {0}) → Exec (Unit {0})
  admit item (ok a) = pure tt
  admit item (err e) = do mark_and_save env item failed (some (to_string e)); raise e

  unfoldable pub run_queued_send : QueueItem → String → Option String → Exec (Unit {0})
  unfolding send_once send_dedupe_key mark_and_save
  run_queued_send item path from = do
    admit item (authorize acct item.command)
    bytes ← lift (env.read_file path)
    send_once item path from (send_dedupe_key bytes)

  abbrev pub dispatch : QueueItem → QueuedCommand → Exec (Unit {0})
  dispatch item (QueuedCommand.send path from) = run_queued_send item path from
  dispatch item command = settle item (execute_queued command)

  abbrev not_pending : QueueItem → VivariumError
  not_pending item =
      message (
        format ("queued item " ∷ item.id ∷ " is " ∷ status_text item.status ∷ ", not pending" ∷ []))

  unfoldable pub run_item : QueueItem → Exec (Unit {0})
  unfolding run_queued_send execute_queued mark_and_save
  run_item item =
      if is_sending item.status
      then pure tt
      else if not (is_pending item.status)
      then raise (not_pending item)
      else dispatch item item.command

  unfoldable pub run_one_queued_item : String → Exec (Unit {0})
  unfolding load run_item
  run_one_queued_item id = do item ← load env id; run_item item

  -- The loop over the identifiers stops at the first error.
  unfoldable pub run_each : List String → Exec (Unit {0})
  unfolding run_one_queued_item
  run_each [] = pure tt
  run_each (id ∷ ids) = do run_one_queued_item id; run_each ids

  unfoldable pub pending_ids : Exec (List String)
  unfolding list
  pending_ids = do items ← list env false; pure (map (λ item. item.id) items)

  abbrev pub is_nil : List String → Bool
  is_nil [] = true
  is_nil (id ∷ ids) = false

  unfoldable pub queue_run : List String → Bool → Exec (Unit {0})
  unfolding pending_ids run_each
  queue_run ids all =
      if all && not (is_nil ids)
      then raise (message "use queue run --all or queue run <id>..., not both")
      else if all
      then (do found ← pending_ids; run_each found)
      else if is_nil ids
      then raise (message "queue run needs at least one id, or --all")
      else run_each ids

  unfoldable pub queue_drop : String → Exec (Unit {0})
  unfolding load mark_and_save
  queue_drop id = do item ← load env id; mark_and_save env item dropped none

  -- `enqueue`: authorised first, then written to a file of its own.
  unfoldable pub enqueue : String → QueuedCommand → Exec (Unit {0})
  unfolding save new_item
  enqueue id command s =
      (do lift (authorize acct command); save env (new_item id (env.now s.calls) acct.name command))
        s
