-- ===== src/Config/Resolve.antt =====
-- config/account.rs: the settings of an account with the defaults of its provider filled in.
pub mod Tls
use Prim.Native.Char.{code}
use mathlib.Core.Option
use vivi_mail.Common.{
  ℕ, String, Option, none, some, List, [], Bool, true, false, not, ◌&&◌, ◌||◌, ◌==◌, is_empty, trim,
  trim_matches, nat_eq, if◌then◌else◌,
}
use vivi_mail.Config.{
  Account, Defaults, Provider, gmail, proton_api, protonmail, standard, Security, ssl, starttls,
  StorageMode, proxy, headers, bodies, semantic,
}

-- `Option::unwrap_or`
abbrev pub unwrap_or {ℓ} : {A : Type ℓ} → Option A → A → A
unwrap_or none d = d
unwrap_or (some a) d = a

unfoldable pub inbox_folder : Account → String
inbox_folder a = unwrap_or a.inbox_folder "INBOX"

unfoldable pub archive_folder : Account → String
archive_folder a = unwrap_or a.archive_folder "Archive"

abbrev trash_default : Provider → String
trash_default gmail = "[Gmail]/Trash"
trash_default _ = "Trash"

unfoldable pub trash_folder : Account → String
trash_folder a = unwrap_or a.trash_folder (trash_default a.provider)

abbrev sent_default : Provider → String
sent_default gmail = "[Gmail]/Sent Mail"
sent_default _ = "Sent"

unfoldable pub sent_folder : Account → String
sent_folder a = unwrap_or a.sent_folder (sent_default a.provider)

abbrev drafts_default : Provider → String
drafts_default gmail = "[Gmail]/Drafts"
drafts_default _ = "Drafts"

unfoldable pub drafts_folder : Account → String
drafts_folder a = unwrap_or a.drafts_folder (drafts_default a.provider)

unfoldable pub label_roots : Account → List String
label_roots a = unwrap_or a.label_roots []

unfoldable pub resolved_storage_mode : Account → StorageMode
resolved_storage_mode a = unwrap_or a.storage_mode headers

abbrev keeps_bodies : StorageMode → Bool
keeps_bodies bodies = true
keeps_bodies semantic = true
keeps_bodies _ = false

unfoldable pub stores_full_bodies : Account → Bool
unfolding resolved_storage_mode
stores_full_bodies a = keeps_bodies (resolved_storage_mode a)

abbrev indexes_semantics : StorageMode → Bool
indexes_semantics semantic = true
indexes_semantics _ = false

unfoldable pub allows_semantic_indexing : Account → Bool
unfolding resolved_storage_mode
allows_semantic_indexing a = indexes_semantics (resolved_storage_mode a)

abbrev bridge_host : Provider → String → String
bridge_host protonmail host = "127.0.0.1"
bridge_host _ host = host

unfoldable pub resolved_imap_host : Account → String
resolved_imap_host a =
    if not (is_empty a.imap_host) then a.imap_host else bridge_host a.provider a.imap_host

unfoldable pub resolved_smtp_host : Account → String
resolved_smtp_host a =
    if not (is_empty a.smtp_host) then a.smtp_host else bridge_host a.provider a.smtp_host

unfoldable pub resolved_imap_security : Account → Security
resolved_imap_security a = unwrap_or a.imap_security ssl

abbrev imap_port_default : Provider → Security → ℕ
imap_port_default protonmail s = 1143
imap_port_default _ ssl = 993
imap_port_default _ starttls = 143

unfoldable pub resolved_imap_port : Account → ℕ
unfolding resolved_imap_security
resolved_imap_port a =
    unwrap_or a.imap_port (imap_port_default a.provider (resolved_imap_security a))

abbrev smtp_security_default : Provider → Security
smtp_security_default protonmail = starttls
smtp_security_default _ = ssl

unfoldable pub resolved_smtp_security : Account → Security
resolved_smtp_security a = unwrap_or a.smtp_security (smtp_security_default a.provider)

abbrev smtp_port_default : Provider → Security → ℕ
smtp_port_default protonmail s = 1025
smtp_port_default _ ssl = 465
smtp_port_default _ starttls = 587

unfoldable pub resolved_smtp_port : Account → ℕ
unfolding resolved_smtp_security
resolved_smtp_port a =
    unwrap_or a.smtp_port (smtp_port_default a.provider (resolved_smtp_security a))

-- `host.trim().trim_matches(['[', ']'])` against the four spellings of the loopback host.
abbrev loopback_names : String → Bool
loopback_names host =
    host == "localhost" || host == "127.0.0.1" || host == "::1" || host == "0:0:0:0:0:0:0:1"

unfoldable pub is_loopback_host : String → Bool
unfolding trim trim_matches
is_loopback_host host =
    loopback_names (trim_matches (λ c. nat_eq (code c) b'[' || nat_eq (code c) b']') (trim host))

unfoldable pub mail_hosts_are_loopback : Account → Bool
mail_hosts_are_loopback a =
    is_loopback_host (resolved_imap_host a) && is_loopback_host (resolved_smtp_host a)

unfoldable pub reject_invalid_certs : Account → Defaults → Bool
reject_invalid_certs a defaults =
    if unwrap_or a.reject_invalid_certs defaults.reject_invalid_certs
    then true
    else if mail_hosts_are_loopback a
    then false
    else true

unfoldable pub reject_invalid_certs_for_run : Account → Defaults → Bool → Bool
unfolding reject_invalid_certs
reject_invalid_certs_for_run a defaults insecure =
    if insecure && mail_hosts_are_loopback a then false else reject_invalid_certs a defaults
