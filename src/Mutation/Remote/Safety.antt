-- ===== src/Mutation/Remote/Safety.antt =====
-- imap/mutate.rs: what a session may have asked of the server when it ends, however it ends.
use vivi_mail.Common.{
  ℕ, String, [], ◌∷◌, Option, none, some, ◌≡◌, refl, ap, sym, ◌∙◌, All, Result, ok, err, arith,
}
use vivi_mail.Mutation.Plan.{MutationPlan, hard_expunge, uid_move, copy_store_deleted_uid_expunge}
use vivi_mail.Catalog.{RemoteIdentity}
use vivi_mail.Mutation.Remote.{
  Request, select, uid_mv, uid_copy, uid_store, uid_expunge, logout, Reply, Session, continue,
  ◌>>=◌, completed, refused, broken, Log, Server, reply_result, verify_uidvalidity, execute_plan,
  execute_selected, execute_move, move_requests, lift, request,
}

-- A property of the log that holds at the end of a step, and of what follows if the step returns.
continue-Keeps {ℓ} :
    (Q : Log → Type 0) {A B : Type ℓ} (x : Result A × Log) (f : A → Session B)
    → Q x.1
    → ((a : A) → x.0 ≡ ok a → Q x.1 → Q (f a x.1).1)
    → Q (continue x f).1
continue-Keeps Q (ok a, log) f h k = k a refl h
continue-Keeps Q (err e, log) f h k = h

pub bind-Keeps {ℓ} :
    (Q : Log → Type 0) {A B : Type ℓ} (m : Session A) (f : A → Session B) (log : Log)
    → Q (m log).1
    → ((a : A) (later : Log) → m log ≡ (ok a, later) → Q later → Q (f a later).1)
    → Q ((m >>= f) log).1
bind-Keeps Q m f log h k =
    continue-Keeps Q (m log) f h (λ a e. k a (m log).1 (ap (λ r. (r, (m log).1)) e))

continue-ok {ℓ} :
    {A B : Type ℓ} (x : Result A × Log) (f : A → Session B) (b : B) (last : Log)
    → continue x f ≡ (ok b, last)
    → (a : A) × (later : Log) × (x ≡ (ok a, later)) × (f a later ≡ (ok b, last))
continue-ok (ok a, log) f b last h = (a, log, refl, h)
continue-ok (err e, log) f b last h = cc

-- Inversion of a session that returns.
pub bind-ok {ℓ} :
    {A B : Type ℓ} (m : Session A) (f : A → Session B) (log : Log) (b : B) (last : Log)
    → (m >>= f) log ≡ (ok b, last)
    → (a : A) × (later : Log) × (m log ≡ (ok a, later)) × (f a later ≡ (ok b, last))
bind-ok m f log b last h = continue-ok (m log) f b last h

reply_result-ok : (name : String) (a : Reply) → reply_result name a ≡ ok tt → a ≡ completed
reply_result-ok name completed h = refl
reply_result-ok name (refused e) h = cc
reply_result-ok name (broken e) h = cc

pub request-ok :
    (server : Server) (name : String) (r : Request) (log later : Log)
    → request server name r log ≡ (ok tt, later)
    → later ≡ (r, completed) ∷ log
request-ok server name r log later h =
    let done = reply_result-ok name (server.reply log r) (ap (λ x. x.0) h) in
    sym (ap (λ x. x.1) h) ∙ ap (λ a. (r, a) ∷ log) done

module _ (server : Server) (remote : RemoteIdentity) where
  -- A request reads, or changes the one message of the reference while the reference is current.
  abbrev pub Current : Type 0
  Current = server.uid_validity remote.remote_mailbox ≡ some remote.uidvalidity

  abbrev pub Scoped : Request × Reply → Type 0
  Scoped (select m, a) = m ≡ remote.remote_mailbox
  Scoped (uid_mv u d, a) = (u ≡ remote.uid) × Current
  Scoped (uid_copy u d, a) = (u ≡ remote.uid) × Current
  Scoped (uid_store u q, a) = (u ≡ remote.uid) × Current
  Scoped (uid_expunge u, a) = (u ≡ remote.uid) × Current
  Scoped (logout, a) = Unit

  verified : (o : Option ℕ) → verify_uidvalidity remote o ≡ ok tt → o ≡ some remote.uidvalidity
  unfolding verify_uidvalidity
  verified none h = cc
  verified (some v) h = ground arith

  pub verify_uidvalidity-Current :
      verify_uidvalidity remote (server.uid_validity remote.remote_mailbox) ≡ ok tt → Current
  verify_uidvalidity-Current h = verified (server.uid_validity remote.remote_mailbox) h

  execute_selected-Scoped :
      (p : MutationPlan) (log : Log)
      → Current
      → All Scoped log
      → All Scoped (execute_selected server remote p log).1
  unfolding execute_selected execute_move move_requests
  execute_selected-Scoped (MutationPlan.move d uid_move) log c h =
      bind-Keeps (All Scoped) (move_requests server remote d uid_move) _ log ((refl, c), h)
        (λ a later e k. k)
  execute_selected-Scoped (MutationPlan.move d copy_store_deleted_uid_expunge) log c h =
      bind-Keeps (All Scoped) (move_requests server remote d copy_store_deleted_uid_expunge) _ log
        (bind-Keeps (All Scoped) (request server "UID COPY" (uid_copy remote.uid d)) _ log
          ((refl, c), h)
          (λ a later e k.
            bind-Keeps (All Scoped)
              (request server "UID STORE deleted"
                (uid_store remote.uid "+FLAGS.SILENT (\\Deleted)"))
              _ later ((refl, c), k) (λ b later2 e2 k2. ((refl, c), k2))))
        (λ a later e k. k)
  execute_selected-Scoped (MutationPlan.flag m q) log c h =
      bind-Keeps (All Scoped) (request server "UID STORE" (uid_store remote.uid q)) _ log
        ((refl, c), h) (λ a later e k. k)
  execute_selected-Scoped hard_expunge log c h =
      bind-Keeps (All Scoped) (request server "UID EXPUNGE" (uid_expunge remote.uid)) _ log
        ((refl, c), h) (λ a later e k. k)

  -- Every request of a session is the selection of the mailbox of the reference or the logout, or
  -- else it names the UID of the reference and the mailbox still has its UIDVALIDITY.
  pub execute_plan-Scoped : (p : MutationPlan) → All Scoped (execute_plan server remote p []).1
  unfolding execute_plan
  execute_plan-Scoped p = bind-Keeps (All Scoped) (lift server.connect) _ [] tt (λ a l0 e0 k0.
      bind-Keeps (All Scoped) (request server "select" (select remote.remote_mailbox)) _ l0
        (refl, k0)
        (λ b l1 e1 k1.
          bind-Keeps (All Scoped)
            (lift (verify_uidvalidity remote (server.uid_validity remote.remote_mailbox))) _ l1 k1
            (λ d l2 e2 k2. (
              tt,
              execute_selected-Scoped p l2 (verify_uidvalidity-Current (ap (λ x. x.0) e2)) k2,
            ))))
