-- ===== src/Catalog/Remote.antt =====
-- catalog/remote.rs and catalog.rs: remote references for messages that are stored already, found by
-- their Message-ID. The statements that fail are an outcome of each candidate.
use vivi_mail.Common.{
  ℕ, suc, String, List, [], ◌∷◌, Option, none, some, Bool, false, ◌&&◌, ◌||◌, ◌==◌, ◌≡◌, refl,
  retain, map, to_ascii_lowercase, Result, ok, err, if◌then◌else◌,
}
use vivi_mail.Catalog.{RemoteIdentity, Row, CatalogEntry, active, entry, set_binding, update_where}
use vivi_mail.Config.Resolve.{unwrap_or}

pub record RemoteIdentityCandidate : Type 0 where
  pub account : String
  pub provider : String
  pub remote_mailbox : String
  pub local_folder : String
  pub uid : ℕ
  pub uidvalidity : Option ℕ
  pub rfc_message_id : Option String
  pub size : ℕ

pub record RemoteIdentityAttachResult : Type 0 where
  pub matched : ℕ
  pub missing_uidvalidity : ℕ
  pub missing_local : ℕ
  pub ambiguous : ℕ

unfoldable pub canonical_folder : String → String
unfolding to_ascii_lowercase
canonical_folder folder =
    let name = to_ascii_lowercase folder in
    if name == "archive" || name == "archives" || name == "all"
    then "Archive"
    else if name == "trash" || name == "deleted"
    then "Trash"
    else if name == "sent"
    then "Sent"
    else if name == "draft" || name == "drafts"
    then "Drafts"
    else if name == "outbox"
    then "outbox"
    else "INBOX"

unfoldable pub local_role_from_folder : String → String
unfolding canonical_folder to_ascii_lowercase
local_role_from_folder folder =
    let name = canonical_folder folder in
    if name == "INBOX"
    then "inbox"
    else if name == "Archive"
    then "archive"
    else if name == "Trash"
    then "trash"
    else if name == "Sent"
    then "sent"
    else if name == "Drafts"
    then "drafts"
    else to_ascii_lowercase name

abbrev has_rfc : Option String → String → Bool
has_rfc none id = false
has_rfc (some other) id = other == id

abbrev is_match : String → String → String → Row → Bool
is_match account role rfc_message_id r =
    r.account == account
    && r.local_role == role
    && active r
    && has_rfc r.normalized_message_id rfc_message_id

abbrev rfc_matches : List Row → RemoteIdentityCandidate → String → Option String → List String
rfc_matches rows candidate folder none = []
rfc_matches rows candidate folder (some id) =
    map (λ r. r.message_id)
      (retain (is_match candidate.account (local_role_from_folder folder) id) rows)

-- The order of the handles, which the query sorts, is not looked at.
unfoldable pub matching_handles : List Row → RemoteIdentityCandidate → List String
unfolding local_role_from_folder canonical_folder
matching_handles rows candidate =
    rfc_matches rows candidate (canonical_folder candidate.local_folder) candidate.rfc_message_id

abbrev remote_identity_for_entry : CatalogEntry → RemoteIdentityCandidate → ℕ → RemoteIdentity
remote_identity_for_entry entry candidate uidvalidity = record {
  account = candidate.account;
  provider = candidate.provider;
  remote_mailbox = candidate.remote_mailbox;
  local_folder = candidate.local_folder;
  uid = candidate.uid;
  uidvalidity = uidvalidity;
  rfc_message_id = unwrap_or candidate.rfc_message_id "";
  size = candidate.size;
  content_fingerprint = entry.content_id;
}

abbrev pub no_result : RemoteIdentityAttachResult
no_result = record { matched = 0; missing_uidvalidity = 0; missing_local = 0; ambiguous = 0 }

-- How the statement for a candidate ends, and the result so far with the rows, or the error that
-- ended the loop with the rows of the candidates before.
abbrev pub Attached : Type 0
Attached = Result RemoteIdentityAttachResult × List Row

abbrev attach_to :
    Result (Unit {0})
    → String
    → Option CatalogEntry
    → RemoteIdentityCandidate
    → ℕ
    → RemoteIdentityAttachResult
    → List Row
    → Attached
attach_to statement handle none candidate uidvalidity result rows = (ok result, rows)
attach_to (err e) handle (some found) candidate uidvalidity result rows = (err e, rows)
attach_to (ok done) handle (some found) candidate uidvalidity result rows = (
  ok (record result { matched = suc result.matched }),
  update_where (λ r. r.message_id == handle)
      (set_binding (some (remote_identity_for_entry found candidate uidvalidity))) rows,
)

abbrev attach_match :
    Result (Unit {0})
    → List String
    → RemoteIdentityCandidate
    → ℕ
    → RemoteIdentityAttachResult
    → List Row
    → Attached
attach_match statement [] candidate uidvalidity result rows =
    (ok (record result { missing_local = suc result.missing_local }), rows)
attach_match statement (handle ∷ []) candidate uidvalidity result rows =
    attach_to statement handle (entry rows candidate.account handle) candidate uidvalidity result
      rows
attach_match statement handles candidate uidvalidity result rows =
    (ok (record result { ambiguous = suc result.ambiguous }), rows)

abbrev attach_with :
    Result (Unit {0})
    → RemoteIdentityCandidate
    → Option ℕ
    → RemoteIdentityAttachResult
    → List Row
    → Attached
attach_with statement candidate none result rows =
    (ok (record result { missing_uidvalidity = suc result.missing_uidvalidity }), rows)
attach_with statement candidate (some uidvalidity) result rows =
    attach_match statement (matching_handles rows candidate) candidate uidvalidity result rows

module _ (statement : RemoteIdentityCandidate → Result (Unit {0})) where
  abbrev and_then : Attached → (RemoteIdentityAttachResult → List Row → Attached) → Attached
  and_then (err e, rows) next = (err e, rows)
  and_then (ok result, rows) next = next result rows

  unfoldable pub attach_each :
      List RemoteIdentityCandidate → RemoteIdentityAttachResult → List Row → Attached
  unfolding matching_handles entry update_where
  attach_each [] result rows = (ok result, rows)
  attach_each (candidate ∷ rest) result rows =
      and_then (attach_with (statement candidate) candidate candidate.uidvalidity result rows)
        (attach_each rest)

  unfoldable pub attach_remote_identities : List RemoteIdentityCandidate → List Row → Attached
  unfolding attach_each
  attach_remote_identities candidates rows = attach_each candidates no_result rows

folder_run : local_role_from_folder "Deleted" ≡ "trash"
unfolding local_role_from_folder
folder_run = refl

-- `matching_handles` passes a canonical name, which has the role of the folder itself.
sent_again_run : local_role_from_folder (canonical_folder "SENT") ≡ "sent"
unfolding local_role_from_folder
sent_again_run = refl
