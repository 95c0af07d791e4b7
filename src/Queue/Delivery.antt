-- ===== src/Queue/Delivery.antt =====
-- queue_runner.rs: how each action of a run counts deliveries and keeps the file that blocks more.
use vivi_mail.Common.{
  ℕ, suc, ◌+◌, ◌≤◌, String, List, [], ◌∷◌, Option, none, some, Bool, true, false, ◌==◌, ◌≡◌, refl,
  ◌⊎◌, inl, inr, arith, ok, err, Result, if◌then◌else◌, to_string, ◌∙◌,
}
use vivi_mail.Config.{Account}
use vivi_mail.Queue.Item.{
  QueueItem, QueueStatus, sending, executed, failed, blocks_key, mark, QueuedCommand, has_key,
}
use vivi_mail.Queue.World.{
  Bytes, Outcome, done, fail, died, Env, State, valid, torn, lookup, remove, SendOutcome, save,
  mark_and_save, transmit, lost_reply, outside, run_mutation, Exec, raise,
}
use vivi_mail.Queue.Runner.{send_dedupe_key, send_path, execute_queued, settle, settle_as, is_send}
use vivi_mail.Queue.Directory.{
  IsDirectory, put-IsDirectory, blocked, remove-put, blocked-remove, blocked-put, blocked_of_remove,
}
use vivi_mail.Queue.Ends.{ByEnd, Ends, Leaves, Ends-bind, Ends-mono}

abbrev pub is_lost_reply : SendOutcome → Bool
is_lost_reply (lost_reply e) = true
is_lost_reply _ = false

abbrev pub is_fail : {A : Type 0} → Outcome A → Bool
is_fail (fail e) = true
is_fail _ = false

-- The transport reports an error only if it did not accept the message, and the bookkeeping of an
-- accepted message does not fail.
pub record IsReliable (env : Env) : Type 0 where
  pub no_lost_reply : (n : ℕ) → is_lost_reply (env.transport n) ≡ false
  pub sent_copy_kept : (n : ℕ) → is_fail (env.reconcile_sent n) ≡ false

module _ (env : Env) (acct : Account) (key : String) where
  abbrev pub matches : Result Bytes → Bool
  matches (ok bytes) = send_dedupe_key env acct bytes == key
  matches (err e) = false

  -- How many of the accepted messages have the key.
  abbrev pub deliveries : List String → ℕ
  deliveries [] = 0
  deliveries (path ∷ paths) = (if matches (env.read_file path) then 1 else 0) + deliveries paths

-- The invariant for one key; `base` is how many deliveries are allowed before a file must block more.
module _ (env : Env) (acct : Account) (key : String) (base : ℕ) where
  -- At most `base` deliveries.
  pub record IsUnsent (s : State) : Type 0 where
    pub directory : IsDirectory s.files
    pub none_sent : deliveries env acct key s.sent ≤ base

  -- At most one delivery more, and a file that blocks the next.
  pub record IsArmed (s : State) : Type 0 where
    pub directory : IsDirectory s.files
    pub one_sent : deliveries env acct key s.sent ≤ suc base
    pub blocks_next : blocked key s.files ≡ true

  abbrev pub IsSafe : State → Type 0
  IsSafe s = IsUnsent s ⊎ IsArmed s

  -- Safe even without the file of `id`.
  pub record IsApart (id : String) (s : State) : Type 0 where
    pub directory : IsDirectory s.files
    pub apart :
        (deliveries env acct key s.sent ≤ base)
        ⊎ ((deliveries env acct key s.sent ≤ suc base) × (blocked key (remove id s.files) ≡ true))

  -- Each save goes to the item's own file, or leaves the directory alone.
  pub save-IsUnsent :
      (item : QueueItem) (s : State) → IsUnsent s → Leaves IsUnsent (save env item s)
  unfolding save
  save-IsUnsent item s h = ground (
    arith,
    put-IsDirectory item.id (valid item) s.files refl h.directory,
    put-IsDirectory item.id torn s.files tt h.directory,
  )

  -- At most `base` deliveries, and a file that blocks the next.
  pub record IsReady (s : State) : Type 0 where
    pub directory : IsDirectory s.files
    pub none_sent : deliveries env acct key s.sent ≤ base
    pub blocks_next : blocked key s.files ≡ true

  pub save-IsReady :
      (item : QueueItem) (s : State)
      → blocks_key key item ≡ true
      → IsUnsent s
      → Ends (λ _. IsReady) IsUnsent IsUnsent (save env item s)
  unfolding save
  save-IsReady item s b h = ground (
    arith,
    put-IsDirectory item.id (valid item) s.files refl h.directory,
    put-IsDirectory item.id torn s.files tt h.directory,
    blocked-put key item.id (valid item) s.files,
  )

  pub save-IsArmed :
      (item : QueueItem) (s : State)
      → blocks_key key item ≡ true
      → IsArmed s
      → Leaves IsArmed (save env item s)
  unfolding save
  save-IsArmed item s b h = ground (
    arith,
    put-IsDirectory item.id (valid item) s.files refl h.directory,
    put-IsDirectory item.id torn s.files tt h.directory,
    blocked-put key item.id (valid item) s.files,
    blocked-put key item.id torn s.files,
  )

  pub save-IsApart :
      (item : QueueItem) (s : State)
      → IsApart item.id s
      → Leaves (IsApart item.id) (save env item s)
  unfolding save
  save-IsApart item s h = ground (
    arith,
    put-IsDirectory item.id (valid item) s.files refl h.directory,
    put-IsDirectory item.id torn s.files tt h.directory,
    remove-put item.id (valid item) s.files,
    remove-put item.id torn s.files,
  )

  pub IsSafe-of_IsApart : (id : String) (s : State) → IsApart id s → IsSafe s
  IsSafe-of_IsApart id s h = ground (arith, blocked_of_remove key id s.files)

  pub IsApart-of_IsSafe :
      (item : QueueItem) (id : String) (s : State)
      → lookup id s.files ≡ some (valid item)
      → blocks_key key item ≡ false
      → IsSafe s
      → IsApart id s
  IsApart-of_IsSafe item id s e b (inl h) = record {
    directory = h.directory;
    apart = inl h.none_sent;
  }
  IsApart-of_IsSafe item id s e b (inr h) = record {
    directory = h.directory;
    apart =
        inr
          (h.one_sent, blocked-remove key id (valid item) s.files h.directory e b ∙ h.blocks_next);
  }

  -- Actions on a file whose neighbours alone keep the key safe.
  pub mark_and_save-IsApart :
      (item : QueueItem) (status : QueueStatus) (error : Option String) (s : State)
      → IsApart item.id s
      → Leaves (IsApart item.id) (mark_and_save env item status error s)
  unfolding mark_and_save mark
  mark_and_save-IsApart item status error s h =
      save-IsApart (mark item status error (env.now s.calls)) (record s { calls = suc s.calls })
        (record { directory = h.directory; apart = h.apart })

  pub send_path-IsApart :
      (id path : String) (from : Option String) (s : State)
      → matches env acct key (env.read_file path) ≡ false
      → IsApart id s
      → Leaves (IsApart id) (send_path env acct path from s)
  unfolding send_path transmit outside
  send_path-IsApart id path from s e h = ground arith

  pub execute_queued-IsApart :
      (id : String) (c : QueuedCommand) (s : State)
      → is_send c ≡ false
      → IsApart id s
      → Leaves (IsApart id) (execute_queued env acct c s)
  unfolding execute_queued outside run_mutation
  execute_queued-IsApart id (QueuedCommand.send path from) s e h = absurd (cc)
  execute_queued-IsApart id _ s e h = ground arith

  pub settle-IsApart :
      (item : QueueItem) (run : Exec (Unit {0})) (s : State)
      → Leaves (IsApart item.id) (run s)
      → Leaves (IsApart item.id) (settle env acct item run s)
  settle-IsApart item run s h = from (run s) h.at
    where
      from :
          (r : Outcome (Unit {0}) × State)
          → ByEnd (λ _. IsApart item.id) (IsApart item.id) (IsApart item.id) r.0 r.1
          → Leaves (IsApart item.id) (settle_as env acct item r.0 r.1)
      from (done a, s') q = mark_and_save-IsApart item executed none s' q
      from (fail e, s') q =
          Ends-bind (mark_and_save env item failed (some (to_string e))) (λ _. raise e) s'
            (mark_and_save-IsApart item failed (some (to_string e)) s' q)
            (λ a t p. record { at = p })
      from (died, s') q = record { at = q }

  -- The same for the file of an item that carries the key.
  pub mark_and_save-IsSafe :
      (item : QueueItem) (s : State)
      → has_key item.send_message_id key ≡ true
      → IsSafe s
      → Leaves IsSafe (mark_and_save env item executed none s)
  unfolding mark_and_save mark blocks_key
  mark_and_save-IsSafe item s k (inl h) =
      Ends-mono (save-IsUnsent _ _ (record { directory = h.directory; none_sent = h.none_sent }))
        (λ a t p. inl p) (λ t p. inl p) (λ t p. inl p)
  mark_and_save-IsSafe item s k (inr h) =
      Ends-mono
        (save-IsArmed _ _ (rw k)
          (record { directory = h.directory; one_sent = h.one_sent; blocks_next = h.blocks_next }))
        (λ a t p. inr p) (λ t p. inr p) (λ t p. inr p)

  pub mark_and_save-IsUnsent :
      (item : QueueItem) (status : QueueStatus) (error : Option String) (s : State)
      → IsUnsent s
      → Leaves IsUnsent (mark_and_save env item status error s)
  unfolding mark_and_save
  mark_and_save-IsUnsent item status error s h =
      save-IsUnsent _ _ (record { directory = h.directory; none_sent = h.none_sent })

  pub settle-IsSafe :
      (item : QueueItem) (run : Exec (Unit {0})) (s : State)
      → has_key item.send_message_id key ≡ true
      → Ends (λ _. IsArmed) IsUnsent IsSafe (run s)
      → Leaves IsSafe (settle env acct item run s)
  settle-IsSafe item run s k h = from (run s) h.at
    where
      from :
          (r : Outcome (Unit {0}) × State)
          → ByEnd (λ _. IsArmed) IsUnsent IsSafe r.0 r.1
          → Leaves IsSafe (settle_as env acct item r.0 r.1)
      from (done a, s') q = mark_and_save-IsSafe item s' k (inr q)
      from (fail e, s') q =
          Ends-bind (mark_and_save env item failed (some (to_string e))) (λ _. raise e) s'
            (Ends-mono (mark_and_save-IsUnsent item failed (some (to_string e)) s' q)
              (λ a t p. inl p) (λ t p. inl p) (λ t p. inl p))
            (λ a t p. record { at = p })
      from (died, s') q = record { at = q }

  pub IsReady-IsUnsent : (s : State) → IsReady s → IsUnsent s
  IsReady-IsUnsent s h = record { directory = h.directory; none_sent = h.none_sent }

  module _ (reliable : IsReliable env) where
    pub transmit-IsArmed :
        (path : String) (s : State)
        → IsReady s
        → Ends (λ _. IsArmed) IsUnsent IsArmed (transmit env path s)
    unfolding transmit
    transmit-IsArmed path s h = ground (arith, reliable.no_lost_reply s.calls)

    pub outside-IsArmed :
        (s : State)
        → IsArmed s
        → Ends (λ _. IsArmed) IsUnsent IsArmed (outside env.reconcile_sent s)
    unfolding outside
    outside-IsArmed s h = ground (arith, reliable.sent_copy_kept s.calls)

    -- A send that fails has handed nothing over; one that dies may have.
    pub send_path-IsArmed :
        (path : String) (from : Option String) (s : State)
        → IsReady s
        → Ends (λ _. IsArmed) IsUnsent IsSafe (send_path env acct path from s)
    unfolding send_path transmit outside
    send_path-IsArmed path from s h = ground (
      arith,
      IsReady-IsUnsent s h,
      reliable.no_lost_reply s.calls,
      reliable.sent_copy_kept (suc s.calls),
    )

  -- The intent to send is on disk before the send, or nothing has been sent.
  pub mark_and_save-IsReady :
      (item : QueueItem) (s : State)
      → has_key item.send_message_id key ≡ true
      → IsUnsent s
      → Ends (λ _. IsReady) IsSafe IsSafe (mark_and_save env item sending none s)
  unfolding mark_and_save mark blocks_key
  mark_and_save-IsReady item s k h =
      Ends-mono
        (save-IsReady _ _ (rw k) (record { directory = h.directory; none_sent = h.none_sent }))
        (λ a t p. p) (λ t p. inl p) (λ t p. inl p)
