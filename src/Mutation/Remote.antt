-- ===== src/Mutation/Remote.antt =====
-- imap/mutate.rs: the session that carries a planned change out. A `Server` says how each request
-- ends, by the requests answered before it, so a theorem for every `Server` is one for every server.
pub mod Safety
pub mod Moves
use vivi_mail.Common.{
  ℕ, String, List, [], ◌∷◌, Option, none, some, Bool, true, false, nat_eq, format, decimal,
  VivariumError, imap, Result, ok, err, if◌then◌else◌,
}
use vivi_mail.Catalog.{RemoteIdentity}
use vivi_mail.Mutation.Plan.{
  MutationCapabilities, MutationTarget, MutationPlan, hard_expunge, CommandPath, uid_move,
  copy_store_deleted_uid_expunge, FlagMutation, plan_move, plan_flag, path_name,
}

pub data ReconciliationAction : Type 0 where
  refresh_remote_identity refresh_flags remove_local_copy : ReconciliationAction

pub record MutationResult : Type 0 where
  pub source_mailbox : String
  pub destination_mailbox : Option String
  pub uid : ℕ
  pub uidvalidity : ℕ
  pub command_path : String
  pub reconciliation : ReconciliationAction

pub data Request : Type 0 where
  select : String → Request
  uid_mv uid_copy uid_store : ℕ → String → Request
  uid_expunge : ℕ → Request
  logout : Request

-- The server refuses a request, or the stream of its answer breaks, or it completes. Only the answers
-- to a store and to an expunge are streams.
pub data Reply : Type 0 where
  completed : Reply
  refused broken : String → Reply

-- The requests of a session with their replies, the latest first.
abbrev pub Log : Type 0
Log = List (Request × Reply)

pub record Server : Type 0 where
  pub connect : Result (Unit {0})
  pub uid_validity : String → Option ℕ
  pub reply : Log → Request → Reply

abbrev pub Session {ℓ} : Type ℓ → Type ℓ
Session A = Log → Result A × Log

abbrev pub continue {ℓ κ} :
    {A : Type ℓ} {B : Type κ} → Result A × Log → (A → Session B) → Result B × Log
continue (ok a, s) f = f a s
continue (err e, s) f = (err e, s)

infixl 5 ◌>>=◌ ◌>>◌
abbrev pub ◌>>=◌ {ℓ κ} : {A : Type ℓ} {B : Type κ} → Session A → (A → Session B) → Session B
◌>>=◌ m f s = continue (m s) f

abbrev pub ◌>>◌ {ℓ} : {B : Type ℓ} → Session (Unit {0}) → Session B → Session B
m >> n = m >>= λ _. n

abbrev pub pure {ℓ} : {A : Type ℓ} → A → Session A
pure a s = (ok a, s)

abbrev pub lift {ℓ} : {A : Type ℓ} → Result A → Session A
lift r s = (r, s)

-- The error of a reply, after the name of the command.
abbrev pub reply_result : String → Reply → Result (Unit {0})
reply_result name completed = ok tt
reply_result name (refused e) = err (imap (format (name ∷ " failed: " ∷ e ∷ [])))
reply_result name (broken e) = err (imap (format (name ∷ " stream failed: " ∷ e ∷ [])))

abbrev pub request : Server → String → Request → Session (Unit {0})
request server name r log = (reply_result name (server.reply log r), (r, server.reply log r) ∷ log)

unfoldable pub verify_uidvalidity : RemoteIdentity → Option ℕ → Result (Unit {0})
unfolding decimal
verify_uidvalidity remote (some value) =
    if nat_eq value remote.uidvalidity
    then ok tt
    else err (
        imap (
          format (
            "stale remote reference for "
            ∷ remote.remote_mailbox
            ∷ ": stored UIDVALIDITY "
            ∷ decimal remote.uidvalidity
            ∷ ", current "
            ∷ decimal value
            ∷ [])))
verify_uidvalidity remote none =
    err (imap (format ("server did not return UIDVALIDITY for " ∷ remote.remote_mailbox ∷ [])))

unfoldable pub result :
    RemoteIdentity → Option String → String → ReconciliationAction → MutationResult
result remote destination command_path reconciliation = record {
  source_mailbox = remote.remote_mailbox;
  destination_mailbox = destination;
  uid = remote.uid;
  uidvalidity = remote.uidvalidity;
  command_path = command_path;
  reconciliation = reconciliation;
}

module _ (server : Server) (remote : RemoteIdentity) where
  unfoldable pub move_requests : String → CommandPath → Session (Unit {0})
  move_requests destination uid_move = request server "UID MOVE" (uid_mv remote.uid destination)
  move_requests destination copy_store_deleted_uid_expunge = do
    request server "UID COPY" (uid_copy remote.uid destination)
    request server "UID STORE deleted" (uid_store remote.uid "+FLAGS.SILENT (\\Deleted)")
    request server "UID EXPUNGE" (uid_expunge remote.uid)

  unfoldable pub execute_move : String → CommandPath → Session MutationResult
  unfolding move_requests result path_name
  execute_move destination path = do
    move_requests destination path
    pure (result remote (some destination) (path_name path) refresh_remote_identity)

  unfoldable pub execute_selected : MutationPlan → Session MutationResult
  unfolding execute_move result
  execute_selected (MutationPlan.move destination path) = execute_move destination path
  execute_selected (MutationPlan.flag mutation query) = do
    request server "UID STORE" (uid_store remote.uid query)
    pure (result remote none "UID STORE" refresh_flags)
  execute_selected hard_expunge = do
    request server "UID EXPUNGE" (uid_expunge remote.uid)
    pure (result remote none "UID EXPUNGE" remove_local_copy)

  -- The result stands whatever becomes of the logout.
  abbrev pub log_out {ℓ} : {A : Type ℓ} → Result A × Log → Result A × Log
  log_out (r, log) = (r, (logout, server.reply log logout) ∷ log)

  unfoldable pub execute_plan : MutationPlan → Session MutationResult
  unfolding verify_uidvalidity execute_selected
  execute_plan plan = do
    lift server.connect
    request server "select" (select remote.remote_mailbox)
    lift (verify_uidvalidity remote (server.uid_validity remote.remote_mailbox))
    λ log. log_out (execute_selected plan log)

  unfoldable pub move_message : MutationTarget → MutationCapabilities → Session MutationResult
  unfolding plan_move execute_plan
  move_message target capabilities = do
    plan ← lift (plan_move target capabilities)
    execute_plan plan

  unfoldable pub mutate_flag : FlagMutation → Session MutationResult
  unfolding plan_flag execute_plan
  mutate_flag mutation = execute_plan (plan_flag mutation)

  unfoldable pub hard_expunge_message : MutationCapabilities → Session MutationResult
  unfolding execute_plan
  hard_expunge_message capabilities =
      if capabilities.uidplus
      then execute_plan hard_expunge
      else lift (err (imap "hard expunge requires UIDPLUS for scoped UID EXPUNGE"))
