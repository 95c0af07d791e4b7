-- ===== src/Config/Tests.antt =====
-- Instances of the theorem on the validation of certificates.
use mathlib.Core.Logic.{◌↔◌, ◌⊎◌}
use vivi_mail.Common.{◌≡◌, true, false}
use vivi_mail.Config.{Account, bare_account, defaults_default, protonmail}
use vivi_mail.Config.Resolve.{
  unwrap_or, is_loopback_host, resolved_imap_host, resolved_smtp_host, reject_invalid_certs_for_run,
}
use vivi_mail.Config.Resolve.Tls.{reject_invalid_certs_for_run-false_iff}

abbrev bridge : Account
bridge = record bare_account { provider = protonmail }

reject_invalid_certs_for_run-false_iff_example :
    (reject_invalid_certs_for_run bridge defaults_default true ≡ false) ↔ (
      (is_loopback_host (resolved_imap_host bridge) ≡ true)
      × (is_loopback_host (resolved_smtp_host bridge) ≡ true)
      × ((true ≡ true)
          ⊎ (unwrap_or bridge.reject_invalid_certs defaults_default.reject_invalid_certs ≡ false)))
reject_invalid_certs_for_run-false_iff_example =
    reject_invalid_certs_for_run-false_iff bridge defaults_default true
