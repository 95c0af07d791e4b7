-- ===== src/Queue/Reach.antt =====
-- queue_runner.rs: the histories of a queue, and what holds after any of them.
use vivi_mail.Common.{
  ℕ, suc, ◌≤◌, String, List, [], Option, none, some, Bool, true, false, ◌≡◌, refl, inl, inr, arith,
  ok, err, Result, ap, ◌∙◌, if◌then◌else◌,
}
use vivi_mail.Config.{Account}
use vivi_mail.Policy.{authorize}
use vivi_mail.Queue.Item.{QueueItem, QueuedCommand, dropped, blocks_resend, blocks_key, new_item}
use vivi_mail.Queue.World.{
  Env, State, Outcome, File, valid, torn, lookup, load, save, mark_and_save, parsed, lift, ◌>>=◌,
}
use vivi_mail.Queue.Runner.{enqueue, queue_drop, queue_run}
use vivi_mail.Queue.Directory.{IsDirectory, lookup-Named, blocked, remove_absent}
use vivi_mail.Queue.Ends.{Leaves, Leaves-state}
use vivi_mail.Queue.Delivery.{
  IsReliable, IsSafe, IsApart, deliveries, IsApart-of_IsSafe, IsSafe-of_IsApart,
  mark_and_save-IsApart, save-IsApart, IsUnsent, mark_and_save-IsUnsent,
}
use vivi_mail.Queue.AtMostOnce.{queue_run-IsSafe}

-- The count of lifted blocks after a drop of a file: dropping an item that is being sent or was
-- executed lifts the block on another send of its message, and dropping any other lifts none.
abbrev pub lifted : Option File → ℕ → ℕ
lifted (some (valid item)) n = if blocks_resend item.status then suc n else n
lifted _ n = n

module _ (env : Env) (acct : Account) where
  -- One command on the queue, however it ends, with the blocks lifted before and after it: enqueueing
  -- under an unused identifier, dropping any item, and running items.
  pub data Step (s : State) (n : ℕ) : State → ℕ → Type 0 where
    enqueues :
        (id : String) (c : QueuedCommand)
        → lookup id s.files ≡ none
        → Step s n (enqueue env acct id c s).1 n
    drops : (id : String) → Step s n (queue_drop env acct id s).1 (lifted (lookup id s.files) n)
    runs : (ids : List String) (every : Bool) → Step s n (queue_run env acct ids every s).1 n

  -- A history of commands, with the number of the blocks that its drops lift.
  pub data Reach (s : State) : State → ℕ → Type 0 where
    here : Reach s s 0
    next : {t u : State} {n m : ℕ} → Reach s t n → Step t n u m → Reach s u m

  module _ (key : String) (base : ℕ) (reliable : IsReliable env) where
    IsApart-of_absent :
        (id : String) (s : State)
        → lookup id s.files ≡ none
        → IsSafe env acct key base s
        → IsApart env acct key base id s
    IsApart-of_absent id s e (inl h) = record { directory = h.directory; apart = inl h.none_sent }
    IsApart-of_absent id s e (inr h) = record {
      directory = h.directory;
      apart = inr (h.one_sent, ap (blocked key) (remove_absent id s.files e) ∙ h.blocks_next);
    }

    Leaves-IsSafe :
        {A : Type 0} (id : String) (r : Outcome A × State)
        → Leaves (IsApart env acct key base id) r
        → IsSafe env acct key base r.1
    Leaves-IsSafe id r h = IsSafe-of_IsApart env acct key base id r.1 (Leaves-state r h)

    enqueue-IsSafe :
        (id : String) (c : QueuedCommand) (s : State)
        → lookup id s.files ≡ none
        → IsSafe env acct key base s
        → IsSafe env acct key base (enqueue env acct id c s).1
    unfolding enqueue
    enqueue-IsSafe id c s e h = admitted (authorize acct c)
      where
        item : QueueItem
        item = new_item id (env.now s.calls) acct.name c

        admitted :
            (r : Result (Unit {0})) → IsSafe env acct key base ((lift r >>= λ _. save env item) s).1
        admitted (ok a) =
            Leaves-IsSafe id (save env item s) (
              unfold new_item in save-IsApart env acct key base item s (IsApart-of_absent id s e h))
        admitted (err x) = h

    -- A drop leaves its own file out of account, or lifts a block and allows one delivery more.
    drop_keeps :
        (item : QueueItem) (id : String) (s : State)
        → lookup id s.files ≡ some (valid item)
        → blocks_resend item.status ≡ false
        → IsSafe env acct key base s
        → IsSafe env acct key base (mark_and_save env item dropped none s).1
    drop_keeps item id s e d h = Leaves-IsSafe item.id (mark_and_save env item dropped none s) (
        mark_and_save-IsApart env acct key base item dropped none s (
          IsApart-of_IsSafe env acct key base item item.id s
            (ap (λ j. lookup j s.files) (lookup-Named id (valid item) s.files directory e) ∙ e)
            (unfold blocks_key in ground arith) h))
      where
        directory : IsDirectory s.files
        directory = ground arith

    drop_releases :
        (item : QueueItem) (s : State)
        → IsSafe env acct key base s
        → IsSafe env acct key (suc base) (mark_and_save env item dropped none s).1
    drop_releases item s h = inl (
        Leaves-state (mark_and_save env item dropped none s)
          (mark_and_save-IsUnsent env acct key (suc base) item dropped none s (allowed h)))
      where
        allowed : IsSafe env acct key base s → IsUnsent env acct key (suc base) s
        allowed (inl u) = record { directory = u.directory; none_sent = omega (arith, u.none_sent) }
        allowed (inr a) = record { directory = a.directory; none_sent = a.one_sent }

    drop_at :
        (item : QueueItem) (id : String) (s : State) (b : Bool)
        → blocks_resend item.status ≡ b
        → lookup id s.files ≡ some (valid item)
        → IsSafe env acct key base s
        → IsSafe env acct key
            (if b then suc base else base)
            (mark_and_save env item dropped none s).1
    drop_at item id s true b e h = drop_releases item s h
    drop_at item id s false b e h = drop_keeps item id s e b h

    drop-IsSafe :
        (id : String) (s : State) (o : Option File)
        → lookup id s.files ≡ o
        → IsSafe env acct key base s
        → IsSafe env acct key
            (lifted o base)
            ((lift (parsed env id o) >>= λ item. mark_and_save env item dropped none) s).1
    drop-IsSafe id s none e h = h
    drop-IsSafe id s (some torn) e h = h
    drop-IsSafe id s (some (valid item)) e h =
        drop_at item id s (blocks_resend item.status) refl e h

    pub Step-IsSafe :
        {s t : State} {m : ℕ}
        → Step s base t m
        → IsSafe env acct key base s
        → IsSafe env acct key m t
    unfolding queue_drop load
    Step-IsSafe {s} (enqueues id c fresh) h = enqueue-IsSafe id c s fresh h
    Step-IsSafe {s} (drops id) h = drop-IsSafe id s (lookup id s.files) refl h
    Step-IsSafe {s} (runs ids every) h =
        Leaves-state (queue_run env acct ids every s)
          (queue_run-IsSafe env acct key base reliable ids every s h)

  pub Reach-IsSafe :
      (key : String)
      → IsReliable env
      → {s t : State} {n : ℕ} → IsSafe env acct key 0 s
      → Reach s t n
      → IsSafe env acct key n t
  Reach-IsSafe key reliable h here = h
  Reach-IsSafe key reliable h (next {n = n} r st) =
      Step-IsSafe key n reliable st (Reach-IsSafe key reliable h r)

-- An empty queue, before anything was sent.
abbrev pub empty_queue : State
empty_queue = record { files = []; sent = []; performed = []; calls = 0 }

-- From an empty queue, a history of enqueueing under unused identifiers, of drops of any items and of
-- runs hands a message of one deduplication key to the transport at most once more than the history
-- dropped items that were being sent or had been executed; so a history without such a drop hands it
-- over at most once. It holds whatever saves fail or tear a file, whatever sends are rejected, and
-- wherever the process dies. The transport must report an error only for what it did not accept, the
-- bookkeeping after a send must not fail, and the message files must not change.
pub deliveries-le_suc :
    (env : Env) (acct : Account) (key : String)
    → IsReliable env
    → {s : State} {n : ℕ} → Reach env acct empty_queue s n
    → deliveries env acct key s.sent ≤ suc n
deliveries-le_suc env acct key reliable {s} {n} r =
    safe_bound (Reach-IsSafe env acct key reliable start r)
  where
    start : IsSafe env acct key 0 empty_queue
    start = inl (record { directory = tt; none_sent = omega arith })

    safe_bound : IsSafe env acct key n s → deliveries env acct key s.sent ≤ suc n
    safe_bound (inl h) = omega (arith, h.none_sent)
    safe_bound (inr h) = h.one_sent
