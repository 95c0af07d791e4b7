-- ===== src/Queue/Tests.antt =====
-- Runs of the queue on concrete histories, and the instances of its theorems.

use vivi_mail.Common.{
  VivariumError, ◌≤◌, [], ◌∷◌, none, some, true, false, ok, ◌≡◌, refl, message, eq_iff, arith,
}
use vivi_mail.Config.{Account, read_only, bare_account}
use vivi_mail.Policy.{authorize}
use vivi_mail.Queue.Item.{
  QueueItem, QueuedCommand, new_item, mark, is_pending, is_sending, send_already_attempted, pending,
}
use vivi_mail.Queue.World.{
  Env, State, done, fail, accepted, written, lookup, put, read_items, sort_items, valid, list, load,
}
use vivi_mail.Queue.Runner.{
  run_item, queue_run, run_one_queued_item, enqueue, send_dedupe_key, pending_ids, queue_drop,
}
use vivi_mail.Queue.Delivery.{IsReliable, deliveries}
use vivi_mail.Queue.Reach.{here, next, enqueues, drops, runs, empty_queue, deliveries-le_suc}
use vivi_mail.Queue.Denied.{run_item-denied}
use vivi_mail.Queue.Retry.{
  enqueue_and_run, smooth, sent-enqueue_and_run_twice, run_one_queued_item-sends, executed_item,
}

abbrev steady : Env
steady = record {
  now = λ n. "t";
  save = λ n. written;
  transport = λ n. accepted;
  reconcile_sent = λ n. done tt;
  run_mutation = λ n. done tt;
  reply = λ n. done tt;
  read_file = λ path. ok (1 ∷ []);
  message_id_from_bytes = λ bytes. some "m1@example.org";
  sha256_hex = λ bytes. "00";
  replace_from_header = λ bytes from. ok bytes;
  extension = λ path. some "eml";
  not_found = "No such file";
  invalid = "EOF";
}

abbrev letter : QueuedCommand
letter = QueuedCommand.send "a.eml" none

abbrev after_enqueue : State
after_enqueue = (enqueue steady bare_account "q1" letter empty_queue).1

abbrev after_run : State
after_run = (queue_run steady bare_account [] true after_enqueue).1

run_sends_once : after_run.sent ≡ "a.eml" ∷ []
unfolding queue_run enqueue pending_ids run_one_queued_item list load is_pending is_sending
    send_already_attempted read_items sort_items lookup put new_item mark send_dedupe_key authorize
run_sends_once = refl

second_run_sends_nothing :
    (queue_run steady bare_account
      ("q2" ∷ [])
      false
      (enqueue steady bare_account "q2" letter after_run).1).1.sent
    ≡ "a.eml" ∷ []
unfolding queue_run enqueue pending_ids run_one_queued_item list load is_pending is_sending
    send_already_attempted read_items sort_items lookup put new_item mark send_dedupe_key authorize
second_run_sends_nothing = refl

steady-IsReliable : IsReliable steady
steady-IsReliable = record { no_lost_reply = λ n. refl; sent_copy_kept = λ n. refl }

-- An executed item that is dropped lets the same message be sent again.
abbrev after_drop : State
after_drop = (queue_drop steady bare_account "q1" after_run).1

abbrev after_second : State
after_second =
    (queue_run steady bare_account [] true (enqueue steady bare_account "q2" letter after_drop).1).1

drop_sends_again : after_second.sent ≡ "a.eml" ∷ "a.eml" ∷ []
unfolding queue_run queue_drop enqueue pending_ids run_one_queued_item list load is_pending
    is_sending send_already_attempted read_items sort_items lookup put new_item mark send_dedupe_key
    authorize
drop_sends_again = refl

deliveries-le_suc_example :
    deliveries steady bare_account "msgid:m1@example.org" after_second.sent ≤ 2
unfolding queue_run queue_drop enqueue pending_ids run_one_queued_item list load is_pending
    is_sending send_already_attempted read_items sort_items lookup put new_item mark send_dedupe_key
    authorize
deliveries-le_suc_example =
    deliveries-le_suc steady bare_account "msgid:m1@example.org" steady-IsReliable (
      next
        (next (next (next (next here (enqueues "q1" letter refl)) (runs [] true)) (drops "q1"))
          (enqueues "q2" letter refl))
        (runs [] true))

sent-enqueue_and_run_twice_example :
    (enqueue_and_run (smooth steady (fail (message "no copy"))) bare_account "q2" "a.eml" (
      enqueue_and_run
        (smooth steady (fail (message "no copy")))
        bare_account
        "q1"
        "a.eml"
        empty_queue)).sent
    ≡ "a.eml" ∷ "a.eml" ∷ []
unfolding authorize
sent-enqueue_and_run_twice_example =
    sent-enqueue_and_run_twice steady bare_account (message "no copy") "q1" "q2" "a.eml" (1 ∷ [])
      (λ e. ground (arith, eq_iff "q1" "q2")) refl refl refl

abbrev queued : QueueItem
queued = record {
  id = "q1";
  created_at = "t";
  updated_at = "t";
  account = "me";
  command = letter;
  status = pending;
  error = none;
  send_message_id = none;
}

abbrev one_queued : State
one_queued = record { files = ("q1", valid queued) ∷ []; sent = []; performed = []; calls = 1 }

run_one_queued_item-sends_example :
    ((run_one_queued_item (smooth steady (done tt)) bare_account "q1" one_queued).1.sent
      ≡ "a.eml" ∷ [])
    × ((run_one_queued_item (smooth steady (done tt)) bare_account "q1" one_queued).0 ≡ done tt)
    × (lookup "q1"
          (run_one_queued_item (smooth steady (done tt)) bare_account "q1" one_queued).1.files
        ≡ some (valid (executed_item steady bare_account queued (1 ∷ []) 5)))
unfolding lookup authorize read_items sort_items send_already_attempted
run_one_queued_item-sends_example =
    run_one_queued_item-sends steady bare_account "q1" "a.eml" queued (1 ∷ []) (queued ∷ [])
      one_queued refl refl refl refl refl refl refl refl refl

abbrev read_only_account : Account
read_only_account = record bare_account { policy = read_only }

abbrev denied : VivariumError
denied = VivariumError.policy "account 'me' has policy 'read-only' which denies send"

run_item-denied_example :
    ((run_item steady read_only_account queued one_queued).1.sent ≡ [])
    × ((run_item steady read_only_account queued one_queued).1.performed ≡ [])
unfolding authorize
run_item-denied_example = run_item-denied steady read_only_account queued denied one_queued refl
