-- ===== src/Imap/Sync.antt =====
-- imap/sync.rs: which remote messages are missing locally, and the sync of a list of folders.
pub mod Missing
pub mod Totals
use vivi_mail.Common.{
  ℕ, ◌+◌, String, List, [], ◌∷◌, ◌++◌, Option, none, some, Bool, true, false, ◌&&◌, ◌||◌, ◌==◌, any,
  format, decimal, take, nat_eq, VivariumError, config, Result, ok, err, ◌>>=◌, ◌>>◌, if◌then◌else◌,
}
use vivi_mail.Config.{Account, Provider, proton_api, StorageMode, proxy}
use vivi_mail.Config.Resolve.{resolved_storage_mode}
use vivi_mail.Imap.Plan.{
  FolderPlan, DedupeScope, SyncSelection, plans_for, inbox_plan, local_folder, all_folders,
}

-- imap/transport.rs
pub record RemoteMessage : Type 0 where
  pub uid : ℕ
  pub uidvalidity : Option ℕ
  pub size : ℕ
  pub rfc_message_id : Option String
  pub read_state : Bool
  pub starred : Bool

-- The catalog entries of a run, by handle.
pub record SyncResult : Type 0 where
  pub new : ℕ
  pub archived : ℕ
  pub cataloged : ℕ
  pub extracted : ℕ
  pub extraction_errors : ℕ
  pub decryption_errors : ℕ
  pub cataloged_entries : List String

abbrev pub default_result : SyncResult
default_result = record {
  new = 0;
  archived = 0;
  cataloged = 0;
  extracted = 0;
  extraction_errors = 0;
  decryption_errors = 0;
  cataloged_entries = [];
}

abbrev pub Sizes : Type 0
Sizes = List (String × ℕ)

abbrev pub RfcIndex : Type 0
RfcIndex = List (String × (ℕ × ℕ))

-- What the mail store tells of a local folder: the sizes of its messages by remote key, and its
-- Message-IDs.
pub record LocalIndex : Type 0 where
  pub local_sizes : String → Result Sizes
  pub build_rfc_index : String → Result RfcIndex

unfoldable pub remote_size_key : String → ℕ → ℕ → String
unfolding decimal
remote_size_key role uidvalidity uid =
    format (role ∷ "-" ∷ decimal uidvalidity ∷ "-" ∷ decimal uid ∷ [])

unfoldable pub rfc_index_contains : RfcIndex → String → Bool
rfc_index_contains index id = any (λ entry. entry.0 == id) index

unfoldable pub size_of : String → Sizes → Option ℕ
size_of k [] = none
size_of k ((j, n) ∷ rest) = if j == k then some n else size_of k rest

abbrev extend_each : LocalIndex → RfcIndex → List String → Result RfcIndex
extend_each store index [] = ok index
extend_each store index (folder ∷ folders) = do
  more ← store.build_rfc_index folder
  extend_each store (index ++ more) folders

unfoldable pub scoped_index : LocalIndex → String → DedupeScope → Result RfcIndex
scoped_index store folder local_folder = store.build_rfc_index folder
scoped_index store folder all_folders = do
  index ← store.build_rfc_index folder
  extend_each store index ("inbox" ∷ "sent" ∷ "drafts" ∷ [])

abbrev by_rfc : RfcIndex → Option String → Bool
by_rfc index none = false
by_rfc index (some id) = rfc_index_contains index id

abbrev same_size : Option ℕ → ℕ → Bool
same_size none n = false
same_size (some m) n = nat_eq m n

abbrev by_size : String → Sizes → RemoteMessage → Option ℕ → Bool
by_size folder sizes remote none = false
by_size folder sizes remote (some uidvalidity) =
    same_size (size_of (remote_size_key folder uidvalidity remote.uid) sizes) remote.size

-- The loop of `find_missing`: both `continue`s, and the two pushes.
unfoldable pub missing_in : String → Sizes → RfcIndex → List RemoteMessage → List RemoteMessage
missing_in folder sizes index [] = []
missing_in folder sizes index (remote ∷ rest) =
    let missing = missing_in folder sizes index rest in
    if by_rfc index remote.rfc_message_id
    then missing
    else if by_size folder sizes remote remote.uidvalidity
    then missing
    else remote ∷ missing

unfoldable pub find_missing :
    List RemoteMessage → LocalIndex → String → DedupeScope → Result (List RemoteMessage)
unfolding missing_in scoped_index
find_missing remote_messages store folder scope = do
  sizes ← store.local_sizes folder
  index ← scoped_index store folder scope
  ok (missing_in folder sizes index remote_messages)

unfoldable pub truncate_missing : List RemoteMessage → Option ℕ → List RemoteMessage
truncate_missing missing none = missing
truncate_missing missing (some limit) = take limit missing

-- The first UIDVALIDITY among the messages, for which older bindings become stale.
unfoldable pub current_uidvalidity : List RemoteMessage → Option ℕ
current_uidvalidity [] = none
current_uidvalidity (m ∷ ms) = elim m.uidvalidity [
  | some v ↦ some v
  | none ↦ current_uidvalidity ms
]

-- What a sync run calls: the listing of a folder, the update of the local flags, the local index,
-- and the download of the missing messages of a folder.
pub record Remote : Type 0 where
  pub fetch_remote_messages : String → Result (List RemoteMessage)
  pub refresh_remote_flags : String → List RemoteMessage → Result (Unit {0})
  pub store : LocalIndex
  pub download_missing : String → String → List RemoteMessage → Result SyncResult

abbrev is_nil : {A : Type 0} → List A → Bool
is_nil [] = true
is_nil (x ∷ xs) = false

module _ (remote : Remote) where
  unfoldable pub sync_folder : FolderPlan → Option ℕ → Result SyncResult
  unfolding find_missing truncate_missing
  sync_folder plan limit = do
    messages ← remote.fetch_remote_messages plan.remote_folder
    if is_nil messages then ok default_result else do
      remote.refresh_remote_flags plan.remote_folder messages
      missing ← find_missing messages remote.store plan.local_folder plan.dedupe_scope
      if is_nil missing
          then ok default_result
          else if is_nil (truncate_missing missing limit)
          then ok default_result
          else remote.download_missing plan.remote_folder plan.local_folder
              (truncate_missing missing limit)

  abbrev merged : SyncResult → SyncResult → SyncResult
  merged result r = record result {
    new = result.new + r.new;
    cataloged_entries = result.cataloged_entries ++ r.cataloged_entries;
  }

  -- The loop over the plans, with the result so far.
  unfoldable pub sync_each : SyncResult → List FolderPlan → Option ℕ → Result SyncResult
  unfolding sync_folder
  sync_each result [] limit = ok result
  sync_each result (plan ∷ plans) limit = do
    r ← sync_folder plan limit
    sync_each (merged result r) plans limit

  abbrev is_proton_api : Provider → Bool
  is_proton_api proton_api = true
  is_proton_api _ = false

  abbrev is_proxy : StorageMode → Bool
  is_proxy proxy = true
  is_proxy _ = false

  unfoldable pub sync_plans : Account → Option ℕ → List FolderPlan → Result SyncResult
  unfolding sync_each
  sync_plans account limit plans =
      if is_proton_api account.provider
      then err (
          config (
            format (
              "account '" ∷ account.name
              ∷ "' uses provider = \"proton-api\"; IMAP sync is not available for direct Proton API accounts yet"
              ∷ [])))
      else if is_proxy (resolved_storage_mode account)
      then err (
          config (
            format (
              "account '" ∷ account.name
              ∷ "' uses storage_mode = \"proxy\"; sync requires headers, bodies, or semantic storage"
              ∷ [])))
      else sync_each default_result plans limit

  unfoldable pub sync_messages : Account → Option ℕ → SyncSelection → Result SyncResult
  unfolding sync_plans
  sync_messages account limit selection = do
    plans ← plans_for account selection
    sync_plans account limit plans

  unfoldable pub sync_inbox_messages : Account → Option ℕ → Result SyncResult
  unfolding sync_plans
  sync_inbox_messages account limit = sync_plans account limit (inbox_plan account ∷ [])
