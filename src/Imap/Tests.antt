-- ===== src/Imap/Tests.antt =====
-- Plans and syncs of concrete accounts, and the instances of their theorems.
use vivi_mail.Common.{
  ℕ, String, List, [], ◌∷◌, none, some, Option, true, false, not, is_ok, all as every, All, retain,
  ok, ◌≡◌, refl,
}
use vivi_mail.Config.{Account, bare_account}
use vivi_mail.Config.Resolve.{inbox_folder, sent_folder}
use vivi_mail.Imap.Folders.{is_virtual_mailbox, mailbox_names_eq}
use vivi_mail.Imap.Plan.{
  FolderPlan, local_folder, named, default, named_plans, plans_for, default_plans, from_inputs,
  inbox_plan, sent_plan,
}
use vivi_mail.Imap.Plan.Laws.{
  IsReal, IsDistinct, Covers, acceptable, named_plans-lem, named_plans-is_ok,
  default_plans-unchecked,
}
use vivi_mail.Imap.Plan.Selection.{Selects, from_inputs-Selects}
use vivi_mail.Imap.Sync.{
  RemoteMessage, LocalIndex, Sizes, find_missing, remote_size_key, size_of, rfc_index_contains,
}
use vivi_mail.Imap.Sync.Missing.{is_local, find_missing-lem}

abbrev two_names : List String
two_names = "sent" ∷ "inbox" ∷ "INBOX" ∷ []

abbrev two_plans : List FolderPlan
two_plans = sent_plan bare_account ∷ inbox_plan bare_account ∷ []

named_plans_run : named_plans bare_account two_names ≡ ok two_plans
unfolding named_plans is_virtual_mailbox sent_folder inbox_folder mailbox_names_eq
named_plans_run = refl

named_plans-lem_example :
    All IsReal two_plans × IsDistinct two_plans × All (Covers bare_account two_plans) two_names
named_plans-lem_example = named_plans-lem bare_account two_names two_plans named_plans_run

named_plans-is_ok_example :
    is_ok (named_plans bare_account ("inbox" ∷ "Spam" ∷ []))
    ≡ every (acceptable bare_account) ("inbox" ∷ "Spam" ∷ [])
named_plans-is_ok_example = named_plans-is_ok bare_account ("inbox" ∷ "Spam" ∷ [])

abbrev all_mail_inbox : Account
all_mail_inbox = record bare_account { inbox_folder = some "All Mail" }

all_mail_is_virtual : is_virtual_mailbox "All Mail" ≡ true
unfolding is_virtual_mailbox
all_mail_is_virtual = refl

default_plans-unchecked_example :
    (is_ok (plans_for all_mail_inbox (named ("inbox" ∷ []))) ≡ false)
    × (plans_for all_mail_inbox default ≡ ok (default_plans all_mail_inbox))
    × ¬ All IsReal (default_plans all_mail_inbox)
default_plans-unchecked_example =
    default_plans-unchecked all_mail_inbox "All Mail" refl all_mail_is_virtual

from_inputs_run :
    from_inputs false ("inbox" ∷ " INBOX " ∷ "sent" ∷ []) none ≡ ok (named ("inbox" ∷ "sent" ∷ []))
unfolding from_inputs mailbox_names_eq
from_inputs_run = refl

from_inputs-Selects_example : Selects (named ("inbox" ∷ "sent" ∷ []))
from_inputs-Selects_example =
    from_inputs-Selects false ("inbox" ∷ " INBOX " ∷ "sent" ∷ []) none
      (named ("inbox" ∷ "sent" ∷ [])) from_inputs_run

abbrev remote_message : ℕ → Option String → RemoteMessage
remote_message uid id = record {
  uid = uid;
  uidvalidity = some 3;
  size = 10;
  rfc_message_id = id;
  read_state = false;
  starred = false;
}

-- The store has the first message by its Message-ID and the second by its remote key.
abbrev local_index : LocalIndex
local_index = record {
  local_sizes = λ folder. ok (("inbox-3-2", 10) ∷ ("inbox-3-3", 11) ∷ []);
  build_rfc_index = λ folder. ok (("a@x", (1, 1)) ∷ []);
}

abbrev listed : List RemoteMessage
listed = remote_message 1 (some "a@x") ∷ remote_message 2 none ∷ remote_message 3 none ∷ []

find_missing_run :
    find_missing listed local_index "inbox" local_folder ≡ ok (remote_message 3 none ∷ [])
unfolding find_missing rfc_index_contains size_of remote_size_key
find_missing_run = refl

find_missing-lem_example :
    (sizes : Sizes) × (local_index.local_sizes "inbox" ≡ ok sizes)
    × (remote_message 3 none ∷ []
        ≡ retain (λ m. not (is_local local_index "inbox" local_folder sizes m)) listed)
find_missing-lem_example =
    find_missing-lem listed local_index "inbox" local_folder (remote_message 3 none ∷ [])
      find_missing_run
