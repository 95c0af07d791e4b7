-- ===== src/Config/Resolve/Tls.antt =====
-- config/account.rs: when the certificates of a mail host are not validated.
use mathlib.Core.Logic.{◌↔◌, ◌⊎◌}
use vivi_mail.Common.{◌≡◌, Bool, true, false, arith}
use vivi_mail.Config.{Account, Defaults}
use vivi_mail.Config.Resolve.{
  unwrap_or, is_loopback_host, mail_hosts_are_loopback, resolved_imap_host, resolved_smtp_host,
  reject_invalid_certs_for_run,
}

-- Validation is off for a run exactly when both mail hosts are loopback hosts and either the run
-- asks for it or the settings do: the account's, or the defaults' where the account has none.
pub reject_invalid_certs_for_run-false_iff :
    (a : Account) (d : Defaults) (insecure : Bool)
    → (reject_invalid_certs_for_run a d insecure ≡ false) ↔ (
        (is_loopback_host (resolved_imap_host a) ≡ true)
        × (is_loopback_host (resolved_smtp_host a) ≡ true)
        × ((insecure ≡ true) ⊎ (unwrap_or a.reject_invalid_certs d.reject_invalid_certs ≡ false)))
unfolding reject_invalid_certs_for_run mail_hosts_are_loopback
reject_invalid_certs_for_run-false_iff a d insecure = ground arith
