-- ===== src/Queue/Denied.antt =====
-- queue_runner.rs: a run of an item that the policy denies.
use vivi_mail.Common.{
  String, Option, some, Bool, true, false, ◌≡◌, refl, arith, Result, ok, err, VivariumError, ap,
  ◌∙◌, to_string, if◌then◌else◌, not,
}
use vivi_mail.Config.{Account}
use vivi_mail.Policy.{authorize}
use vivi_mail.Queue.Item.{QueueItem, QueuedCommand, is_sending, is_pending, failed}
use vivi_mail.Queue.World.{
  Env, State, Exec, Outcome, done, fail, died, ◌>>=◌, ◌>>◌, lift, raise, save, mark_and_save,
}
use vivi_mail.Queue.Runner.{
  run_item, run_queued_send, execute_queued, dispatch, admit, settle, settle_as,
}

-- Nothing was handed to the transport, and no mutation performed.
record IsQuiet (before after : State) : Type 0 where
  same_sent : after.sent ≡ before.sent
  same_performed : after.performed ≡ before.performed

module _ (env : Env) (acct : Account) (before : State) where
  mark_and_save-IsQuiet :
      (item : QueueItem) (status : _) (error : Option String) (s : State)
      → IsQuiet before s
      → IsQuiet before (mark_and_save env item status error s).1
  unfolding mark_and_save save
  mark_and_save-IsQuiet item status error s h = ground arith

  bind-IsQuiet :
      {A B : Type 0} (x : Outcome A × State) (f : A → Exec B)
      → IsQuiet before x.1
      → ((a : A) (s : State) → IsQuiet before s → IsQuiet before (f a s).1)
      → IsQuiet before (((λ _. x) >>= f) before).1
  bind-IsQuiet (done a, s) f h k = k a s h
  bind-IsQuiet (fail e, s) f h k = h
  bind-IsQuiet (died, s) f h k = h

  settled-IsQuiet :
      (item : QueueItem) (e : VivariumError) (s : State)
      → IsQuiet before s
      → IsQuiet before (settle_as env acct item (fail e) s).1
  settled-IsQuiet item e s h =
      bind-IsQuiet (mark_and_save env item _ _ s) (λ a. raise e)
        (mark_and_save-IsQuiet item _ _ s h) (λ a t k. k)

  settle-IsQuiet :
      (item : QueueItem) (r : Result (Unit {0})) (rest : Exec (Unit {0})) (e : VivariumError)
      (s : State)
      → r ≡ err e
      → IsQuiet before s
      → IsQuiet before (settle env acct item (lift r >> rest) s).1
  settle-IsQuiet item (ok a) rest e s d h = cc
  settle-IsQuiet item (err x) rest e s d h = settled-IsQuiet item x s h

  raised-IsQuiet :
      (x : Outcome (Unit {0}) × State) (e : VivariumError) (rest : Exec (Unit {0}))
      → IsQuiet before x.1
      → IsQuiet before ((((λ _. x) >> raise {A = Unit {0}} e) >> rest) before).1
  raised-IsQuiet (done a, s) e rest h = h
  raised-IsQuiet (fail x, s) e rest h = h
  raised-IsQuiet (died, s) e rest h = h

  admit-IsQuiet :
      (item : QueueItem) (r : Result (Unit {0})) (rest : Exec (Unit {0})) (e : VivariumError)
      (s : State)
      → r ≡ err e
      → IsQuiet before s
      → IsQuiet before ((admit env acct item r >> rest) s).1
  admit-IsQuiet item (ok a) rest e s d h = cc
  admit-IsQuiet item (err x) rest e s d h =
      raised-IsQuiet (mark_and_save env item failed (some (to_string x)) s) x rest
        (mark_and_save-IsQuiet item failed _ s h)

  -- The three ways of a pending item end alike where `authorize` refuses its command.
  dispatch-IsQuiet :
      (item : QueueItem) (command : QueuedCommand) (e : VivariumError) (s : State)
      → item.command ≡ command
      → authorize acct command ≡ err e
      → IsQuiet before s
      → IsQuiet before (dispatch env acct item command s).1
  unfolding run_queued_send execute_queued
  dispatch-IsQuiet item (QueuedCommand.send path from) e s c d h =
      admit-IsQuiet item (authorize acct item.command) _ e s (ap (authorize acct) c ∙ d) h
  dispatch-IsQuiet item (QueuedCommand.archive handles) e s c d h = settle-IsQuiet item _ _ e s d h
  dispatch-IsQuiet item (QueuedCommand.delete handles expunge confirm) e s c d h =
      settle-IsQuiet item _ _ e s d h
  dispatch-IsQuiet item (QueuedCommand.move handle folder) e s c d h =
      settle-IsQuiet item _ _ e s d h
  dispatch-IsQuiet item (QueuedCommand.flag handle r u star unstar) e s c d h =
      settle-IsQuiet item _ _ e s d h
  dispatch-IsQuiet item (QueuedCommand.reply handle body) e s c d h =
      settle-IsQuiet item _ _ e s d h

  either-IsQuiet :
      (b : Bool) (m n : Exec (Unit {0})) (s : State)
      → IsQuiet before (m s).1
      → IsQuiet before (n s).1
      → IsQuiet before ((if b then m else n) s).1
  either-IsQuiet true m n s h k = h
  either-IsQuiet false m n s h k = k

  run_item-IsQuiet :
      (item : QueueItem) (e : VivariumError) (s : State)
      → authorize acct item.command ≡ err e
      → IsQuiet before s
      → IsQuiet before (run_item env acct item s).1
  unfolding run_item
  run_item-IsQuiet item e s d h = either-IsQuiet (is_sending item.status) _ _ s h (
      either-IsQuiet (not (is_pending item.status)) _ _ s h
        (dispatch-IsQuiet item item.command e s refl d h))

-- An item whose command the policy of the account denies is run to no effect outside: nothing is
-- handed to the transport and no mutation is performed, however the bookkeeping of it ends.
pub run_item-denied :
    (env : Env) (acct : Account) (item : QueueItem) (e : VivariumError) (s : State)
    → authorize acct item.command ≡ err e
    → ((run_item env acct item s).1.sent ≡ s.sent)
      × ((run_item env acct item s).1.performed ≡ s.performed)
run_item-denied env acct item e s d =
    let h =
      run_item-IsQuiet env acct s item e s d (record { same_sent = refl; same_performed = refl }) in
    (h.same_sent, h.same_performed)
