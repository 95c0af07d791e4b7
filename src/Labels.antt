-- ===== src/Labels.antt =====
-- labels.rs: what the program says of labels, which it does not change.
use vivi_mail.Common.{String, List, [], ◌∷◌, Bool, false, VivariumError, message, format, ◌≡◌, refl}
use vivi_mail.Config.{
  Account, Provider, gmail, proton_api, protonmail, standard, provider_text, bare_account,
}
use vivi_mail.Config.Resolve.{label_roots}

pub record LabelSupport : Type 0 where
  pub account : String
  pub provider : String
  pub label_roots : List String
  pub mutation_supported : Bool
  pub mode : String
  pub reason : String
  pub safe_alternative : String

pub data LabelOperation : Type 0 where
  add remove : LabelOperation

abbrev mode_of : Provider → String
mode_of proton_api = "direct_proton_api_unsupported"
mode_of protonmail = "folder_moves_only"
mode_of gmail = "gmail_labels_scoped"
mode_of standard = "standard_imap_folders_only"

abbrev reason_of : Provider → String
reason_of proton_api = "Direct Proton API label mutation is not implemented."
reason_of protonmail =
    "Proton Bridge exposes the safe Vivi surface as IMAP folders; independent label mutation is not implemented."
reason_of gmail =
    "Gmail labels require provider-specific X-GM-LABELS support; Vivi does not mutate them yet."
reason_of standard = "Standard IMAP has folders and flags, not portable labels."

unfoldable pub support : Account → LabelSupport
unfolding provider_text label_roots
support account = record {
  account = account.name;
  provider = provider_text account.provider;
  label_roots = label_roots account;
  mutation_supported = false;
  mode = mode_of account.provider;
  reason = reason_of account.provider;
  safe_alternative = "Use `vivi exec move <handle> <folder>` for supported folder roles.";
}

unfoldable pub unsupported_error : Account → String → VivariumError
unfolding support
unsupported_error account label =
    let given = support account in
    message (
      format (
        "label mutation unsupported for provider " ∷ given.provider ∷ " on account '"
        ∷ given.account ∷ "': " ∷ given.reason ∷ "; label '" ∷ label ∷ "'" ∷ []))

abbrev pub operation_name : LabelOperation → String
operation_name add = "label_add"
operation_name remove = "label_remove"

mode_run : (support (record bare_account { provider = gmail })).mode ≡ "gmail_labels_scoped"
unfolding support
mode_run = refl
