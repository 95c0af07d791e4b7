-- ===== src/Queue/AtMostOnce.antt =====
-- queue_runner.rs: the invariant of the sends through a run of the queue.
use vivi_mail.Common.{
  ℕ, String, List, [], ◌∷◌, Option, none, some, Bool, true, false, not, ◌==◌, eq_iff, ◌≡◌, refl,
  inl, inr, arith, ok, err, Result, Bool-cases, ap, ◌∙◌, sym, to_string, if◌then◌else◌, ◌&&◌, map,
}
use vivi_mail.Config.{Account}
use vivi_mail.Policy.{authorize}
use vivi_mail.Queue.Item.{
  QueueItem, sending, executed, failed, QueuedCommand, blocks_key, blocks_resend, is_pending,
  is_sending, send_already_attempted,
}
use vivi_mail.Queue.World.{
  Bytes, Outcome, Env, State, Exec, File, valid, ◌>>=◌, lift, lookup, read_items, list, load,
  mark_and_save, sorted, parsed, torn, pure, remove,
}
use vivi_mail.Queue.Runner.{
  send_dedupe_key, send_path, send_once, run_queued_send, run_item, run_one_queued_item, run_each,
  queue_run, pending_ids, is_nil, execute_queued, with_key, admit, dispatch,
}
use text.Mathlib.TextPositions.{eq_refl}
use vivi_mail.Queue.Directory.{blocked, IsDirectory, lookup-Named}
use vivi_mail.Queue.History.{attempted-blocked}
use vivi_mail.Queue.Ends.{Ends, Leaves, Ends-bind, Ends-mono}
use vivi_mail.Queue.Delivery.{
  IsReliable, matches, IsUnsent, IsSafe, IsApart, IsSafe-of_IsApart, IsApart-of_IsSafe,
  mark_and_save-IsApart, mark_and_save-IsSafe, mark_and_save-IsReady, send_path-IsApart,
  send_path-IsArmed, execute_queued-IsApart, settle-IsApart, settle-IsSafe,
}

pending_blocks_none :
    (key : String) (item : QueueItem)
    → not (is_pending item.status) ≡ false
    → blocks_key key item ≡ false
unfolding blocks_key is_pending blocks_resend
pending_blocks_none key item p = ground arith

module _ (env : Env) (acct : Account) (key : String) (base : ℕ) (reliable : IsReliable env) where
  Apart-IsSafe :
      {A : Type 0} (id : String) {r : Outcome A × State}
      → Leaves (IsApart env acct key base id) r
      → Leaves (IsSafe env acct key base) r
  Apart-IsSafe id h =
      Ends-mono h (λ a. IsSafe-of_IsApart env acct key base id)
        (IsSafe-of_IsApart env acct key base id) (IsSafe-of_IsApart env acct key base id)

  if_at :
      (P : State → Type 0) (b : Bool) (m n : Exec (Unit {0})) (s : State)
      → (b ≡ true → Leaves P (m s))
      → (b ≡ false → Leaves P (n s))
      → Leaves P ((if b then m else n) s)
  if_at P true m n s hm hn = hm refl
  if_at P false m n s hm hn = hn refl

  -- The state in which `list` hands over the history, and what the duplicate test says there.
  abbrev Listed : String → String → List QueueItem → State → Type 0
  Listed k id history t =
      IsSafe env acct key base t
      × IsApart env acct key base id t
      × (send_already_attempted history k id ≡ blocked k (remove id t.files))

  list-Listed :
      (k id : String) (s : State)
      → IsSafe env acct key base s
      → IsApart env acct key base id s
      → Ends (Listed k id) (IsSafe env acct key base) (IsSafe env acct key base) (list env true s)
  unfolding list
  list-Listed k id s h a = from (read_items env true s.files) refl
    where
      from :
          (r : Result (List QueueItem))
          → read_items env true s.files ≡ r
          → Ends
              (Listed k id)
              (IsSafe env acct key base)
              (IsSafe env acct key base)
              (lift (sorted r) s)
      from (ok items) e = record {
        at = (h, a, attempted-blocked env k id s.files items a.directory e);
      }
      from (err x) e = record { at = h }

  IsUnsent-of_apart :
      (id : String) (t : State)
      → IsApart env acct key base id t
      → blocked key (remove id t.files) ≡ false
      → IsUnsent env acct key base t
  IsUnsent-of_apart id t a b = ground arith

  send_once-IsSafe :
      (item : QueueItem) (path : String) (from : Option String) (s : State)
      → IsApart env acct key base item.id s
      → IsSafe env acct key base s
      → Leaves (IsSafe env acct key base) (send_once env acct item path from key s)
  unfolding send_once
  send_once-IsSafe item path from s a h =
      Ends-bind (list env true) _ s (list-Listed key item.id s h a) λ history t (safe, apart, same).
        if_at (IsSafe env acct key base) (send_already_attempted history key item.id) _ _ t
          (λ seen. mark_and_save-IsSafe env acct key base (with_key item key) t (eq_refl key) safe)
          λ fresh.
            Ends-bind (mark_and_save env (with_key item key) sending none) _ t
              (mark_and_save-IsReady env acct key base (with_key item key) t (eq_refl key)
                (IsUnsent-of_apart item.id t apart (sym same ∙ fresh)))
              λ _ u ready.
                settle-IsSafe env acct key base (with_key item key) (send_path env acct path from) u
                  (eq_refl key) (send_path-IsArmed env acct key base reliable path from u ready)

  -- A send under another key leaves the neighbours, and so the key, as they are.
  send_once-IsApart :
      (item : QueueItem) (path other : String) (from : Option String) (s : State)
      → matches env acct key (env.read_file path) ≡ false
      → IsApart env acct key base item.id s
      → Leaves (IsApart env acct key base item.id) (send_once env acct item path from other s)
  unfolding send_once list
  send_once-IsApart item path other from s e a =
      Ends-bind (list env true) _ s (list-IsApart (read_items env true s.files)) λ history t apart.
        if_at (IsApart env acct key base item.id) (send_already_attempted history other item.id) _ _
          t
          (λ seen.
            mark_and_save-IsApart env acct key base (with_key item other) executed none t apart)
          λ fresh.
            Ends-bind (mark_and_save env (with_key item other) sending none) _ t
              (mark_and_save-IsApart env acct key base (with_key item other) sending none t apart)
              λ _ u ready.
                settle-IsApart env acct key base (with_key item other)
                  (send_path env acct path from) u
                  (send_path-IsApart env acct key base item.id path from u e ready)
    where
      list-IsApart :
          (r : Result (List QueueItem))
          → Leaves (IsApart env acct key base item.id) (lift (sorted r) s)
      list-IsApart (ok items) = record { at = a }
      list-IsApart (err x) = record { at = a }

  send_once_at :
      (item : QueueItem) (path : String) (from : Option String) (s : State) (r : Result Bytes)
      → env.read_file path ≡ r
      → IsApart env acct key base item.id s
      → IsSafe env acct key base s
      → Leaves (IsSafe env acct key base) (
          (lift r >>= λ bytes. send_once env acct item path from (send_dedupe_key env acct bytes))
            s)
  send_once_at item path from s (err x) e a h = record { at = h }
  send_once_at item path from s (ok bytes) e a h =
      elim (Bool-cases (send_dedupe_key env acct bytes == key)) [
        | inl same ↦
            rw ((eq_iff (send_dedupe_key env acct bytes) key).0 same)
              (send_once-IsSafe item path from s a h)
        | inr different ↦
            Apart-IsSafe item.id (
              send_once-IsApart item path (send_dedupe_key env acct bytes) from s (rw e different)
                a)
      ]

  run_queued_send-IsSafe :
      (item : QueueItem) (path : String) (from : Option String) (s : State)
      → IsApart env acct key base item.id s
      → IsSafe env acct key base s
      → Leaves (IsSafe env acct key base) (run_queued_send env acct item path from s)
  unfolding run_queued_send
  run_queued_send-IsSafe item path from s a h =
      Ends-bind (admit env acct item (authorize acct item.command)) _ s
        (admitted (authorize acct item.command))
        λ _ t (apart, safe). send_once_at item path from t (env.read_file path) refl apart safe
    where
      admitted :
          (r : Result (Unit {0}))
          → Ends
              (λ _ t. IsApart env acct key base item.id t × IsSafe env acct key base t)
              (IsSafe env acct key base)
              (IsSafe env acct key base)
              (admit env acct item r s)
      admitted (ok x) = record { at = (a, h) }
      admitted (err x) =
          Ends-bind (mark_and_save env item failed (some (to_string x))) _ s
            (Apart-IsSafe item.id
              (mark_and_save-IsApart env acct key base item failed (some (to_string x)) s a))
            λ _ t p. record { at = p }

  run_item-IsSafe :
      (item : QueueItem) (s : State)
      → lookup item.id s.files ≡ some (valid item)
      → IsSafe env acct key base s
      → Leaves (IsSafe env acct key base) (run_item env acct item s)
  unfolding run_item
  run_item-IsSafe item s e h =
      if_at (IsSafe env acct key base) (is_sending item.status) _ _ s (λ _. record { at = h })
        λ _.
          if_at (IsSafe env acct key base) (not (is_pending item.status)) _ _ s
            (λ _. record { at = h }) λ is_open. dispatched item.command (apart is_open)
    where
      apart : not (is_pending item.status) ≡ false → IsApart env acct key base item.id s
      apart p =
          IsApart-of_IsSafe env acct key base item item.id s e (pending_blocks_none key item p) h

      dispatched :
          (c : QueuedCommand)
          → IsApart env acct key base item.id s
          → Leaves (IsSafe env acct key base) (dispatch env acct item c s)
      dispatched (QueuedCommand.send path from) a = run_queued_send-IsSafe item path from s a h
      dispatched c a = Apart-IsSafe item.id (
          settle-IsApart env acct key base item (execute_queued env acct c) s
            (execute_queued-IsApart env acct key base item.id c s refl a))

  -- Whatever the outcome, the run of one item leaves the directory safe for the key.
  pub run_one_queued_item-IsSafe :
      (id : String) (s : State)
      → IsSafe env acct key base s
      → Leaves (IsSafe env acct key base) (run_one_queued_item env acct id s)
  unfolding run_one_queued_item load
  run_one_queued_item-IsSafe id s h = loaded (lookup id s.files) refl
    where
      directory : IsDirectory s.files
      directory = ground arith

      loaded :
          (o : Option File)
          → lookup id s.files ≡ o
          → Leaves (IsSafe env acct key base) ((lift (parsed env id o) >>= run_item env acct) s)
      loaded none e = record { at = h }
      loaded (some torn) e = record { at = h }
      loaded (some (valid item)) e =
          run_item-IsSafe item s
            (ap (λ j. lookup j s.files) (lookup-Named id (valid item) s.files directory e) ∙ e) h

  pub run_each-IsSafe :
      (ids : List String) (s : State)
      → IsSafe env acct key base s
      → Leaves (IsSafe env acct key base) (run_each env acct ids s)
  unfolding run_each
  run_each-IsSafe [] s h = record { at = h }
  run_each-IsSafe (id ∷ ids) s h =
      Ends-bind (run_one_queued_item env acct id) _ s (run_one_queued_item-IsSafe id s h)
        λ _ t p. run_each-IsSafe ids t p

  pub queue_run-IsSafe :
      (ids : List String) (every : Bool) (s : State)
      → IsSafe env acct key base s
      → Leaves (IsSafe env acct key base) (queue_run env acct ids every s)
  unfolding queue_run pending_ids list
  queue_run-IsSafe ids every s h =
      if_at (IsSafe env acct key base) (every && not (is_nil env acct ids)) _ _ s
        (λ _. record { at = h })
        λ _.
          if_at (IsSafe env acct key base) every _ _ s
            (λ _.
              Ends-bind (pending_ids env acct) _ s (listed (read_items env false s.files))
                λ found t p. run_each-IsSafe found t p)
            λ _.
              if_at (IsSafe env acct key base) (is_nil env acct ids) _ _ s (λ _. record { at = h })
                λ _. run_each-IsSafe ids s h
    where
      listed :
          (r : Result (List QueueItem))
          → Leaves
              (IsSafe env acct key base)
              ((lift (sorted r) >>= λ items. pure (map (λ item. item.id) items)) s)
      listed (ok items) = record { at = h }
      listed (err x) = record { at = h }
