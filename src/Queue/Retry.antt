-- ===== src/Queue/Retry.antt =====
-- queue_runner.rs: what a run does to one send, and when a second one follows.
use vivi_mail.Common.{
  ℕ, suc, String, List, [], ◌∷◌, none, some, true, false, eq_iff, ◌≡◌, ◌≢◌, arith, ok,
  VivariumError,
}
use text.Mathlib.TextPositions.{eq_refl}
use vivi_mail.Config.{Account}
use vivi_mail.Policy.{authorize}
use vivi_mail.Queue.Item.{
  QueueItem, pending, executed, QueuedCommand, is_pending, is_sending, send_already_attempted, mark,
  new_item,
}
use vivi_mail.Queue.World.{
  Env, State, Bytes, done, fail, written, accepted, valid, Outcome, lookup, put, list, read_items,
  sort_items,
}
use vivi_mail.Queue.Runner.{enqueue, run_one_queued_item, send_dedupe_key, with_key}
use vivi_mail.Queue.Reach.{empty_queue}

-- Every write and every send succeeds, and the bookkeeping after a send ends as given.
abbrev pub smooth : Env → Outcome (Unit {0}) → Env
smooth env copy = record env {
  save = λ n. written;
  transport = λ n. accepted;
  reconcile_sent = λ n. copy;
}

lookup-put_self : (i : String) (f : _) (fs : _) → lookup i (put i f fs) ≡ some f
unfolding lookup put
lookup-put_self i f fs = ground (arith, eq_refl i)

abbrev sends : String → QueuedCommand
sends path = QueuedCommand.send path none

-- One command and its run, from a given state.
abbrev pub enqueue_and_run : Env → Account → String → String → State → State
enqueue_and_run env acct id path s =
    (run_one_queued_item env acct id (enqueue env acct id (sends path) s).1).1

-- When the bookkeeping after an accepted send fails, the item is marked as failed, so the same
-- message in a second item is handed to the transport again: for every account that may send,
-- every readable message and every two identifiers, on an empty queue.
pub sent-enqueue_and_run_twice :
    (env : Env) (acct : Account) (e : VivariumError) (id id' path : String) (bytes : Bytes)
    → id ≢ id'
    → authorize acct (sends path) ≡ ok tt
    → env.extension path ≡ some "eml"
    → env.read_file path ≡ ok bytes
    → (enqueue_and_run
        (smooth env (fail e))
        acct
        id'
        path
        (enqueue_and_run (smooth env (fail e)) acct id path empty_queue)).sent
      ≡ path ∷ path ∷ []
unfolding run_one_queued_item enqueue new_item lookup put is_pending is_sending
    send_already_attempted
sent-enqueue_and_run_twice env acct e id id' path bytes n a x r =
    ground (arith, eq_refl id, eq_refl id', eq_iff id id', eq_iff id' id)

-- What the file of an item holds after its send.
abbrev pub executed_item : Env → Account → QueueItem → Bytes → ℕ → QueueItem
executed_item env acct item bytes n =
    mark (with_key item (send_dedupe_key env acct bytes)) executed none (env.now n)

-- A run of a pending and authorised send of an .eml file without `--from`, where the file can be
-- read, every item of the queue can be read, and no other item has the message in flight or done,
-- hands it to the transport once and records the item as executed under the message's key, where the
-- saves, the send and its bookkeeping succeed.
pub run_one_queued_item-sends :
    (env : Env) (acct : Account) (id path : String) (item : QueueItem) (bytes : Bytes)
    (items : List QueueItem) (s : State)
    → lookup id s.files ≡ some (valid item)
    → item.id ≡ id
    → item.status ≡ pending
    → item.command ≡ sends path
    → authorize acct (sends path) ≡ ok tt
    → env.extension path ≡ some "eml"
    → env.read_file path ≡ ok bytes
    → read_items (smooth env (done tt)) true s.files ≡ ok items
    → send_already_attempted (sort_items items) (send_dedupe_key env acct bytes) id ≡ false
    → ((run_one_queued_item (smooth env (done tt)) acct id s).1.sent ≡ path ∷ s.sent)
      × ((run_one_queued_item (smooth env (done tt)) acct id s).0 ≡ done tt)
      × (lookup id (run_one_queued_item (smooth env (done tt)) acct id s).1.files
          ≡ some (valid (executed_item env acct item bytes (suc (suc (suc (suc s.calls)))))))
unfolding run_one_queued_item lookup is_pending is_sending send_dedupe_key list put
run_one_queued_item-sends env acct id path item bytes items s l i p c a x r h f =
    ground (arith, eq_refl id, eq_refl item.id)
