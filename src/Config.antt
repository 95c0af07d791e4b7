-- ===== src/Config.antt =====
-- config/types.rs: the account settings that the program's decisions read.
pub mod Resolve
mod Tests
use vivi_mail.Common.{ℕ, String, Option, none, List, [], Bool, true}

pub data Provider : Type 0 where
  gmail proton_api protonmail standard : Provider

pub data Security : Type 0 where
  ssl starttls : Security

pub data Auth : Type 0 where
  password xoauth2 : Auth

pub data StorageMode : Type 0 where
  proxy headers bodies semantic : StorageMode

pub data MutationPolicy : Type 0 where
  full_write read_only archive : MutationPolicy

pub record Account : Type 0 where
  pub name : String
  pub email : String
  pub imap_host : String
  pub imap_port : Option ℕ
  pub imap_security : Option Security
  pub smtp_host : String
  pub smtp_port : Option ℕ
  pub smtp_security : Option Security
  pub username : String
  pub auth : Auth
  pub password : Option String
  pub password_cmd : Option String
  pub token_cmd : Option String
  pub oauth_client_id : Option String
  pub oauth_client_secret : Option String
  pub mail_dir : Option String
  pub inbox_folder : Option String
  pub archive_folder : Option String
  pub trash_folder : Option String
  pub sent_folder : Option String
  pub drafts_folder : Option String
  pub sync_folders : Option (List String)
  pub label_roots : Option (List String)
  pub storage_mode : Option StorageMode
  pub provider : Provider
  pub oauth_authorization_url : Option String
  pub oauth_token_url : Option String
  pub oauth_scope : Option String
  pub reject_invalid_certs : Option Bool
  pub policy : MutationPolicy

pub record RenderDefaults : Type 0 where
  pub engine : Option String
  pub deny_engines : List String
  pub allow_fallback : Bool

pub record Defaults : Type 0 where
  pub mail_root : Option String
  pub check_interval_secs : Option ℕ
  pub reject_invalid_certs : Bool
  pub embedding_provider : Option String
  pub embedding_model : Option String
  pub embedding_endpoint : Option String
  pub render : RenderDefaults

abbrev pub render_default : RenderDefaults
render_default = record { engine = none; deny_engines = []; allow_fallback = true }

-- `Defaults::default`
abbrev pub defaults_default : Defaults
defaults_default = record {
  mail_root = none;
  check_interval_secs = none;
  reject_invalid_certs = true;
  embedding_provider = none;
  embedding_model = none;
  embedding_endpoint = none;
  render = render_default;
}

-- The `Display` texts.
unfoldable pub provider_text : Provider → String
provider_text gmail = "gmail"
provider_text proton_api = "proton-api"
provider_text protonmail = "protonmail"
provider_text standard = "standard"

unfoldable pub policy_text : MutationPolicy → String
policy_text full_write = "full-write"
policy_text read_only = "read-only"
policy_text archive = "archive"

-- An account with only the required settings, for the tests and the witnesses.
abbrev pub bare_account : Account
bare_account = record {
  name = "me";
  email = "me@example.org";
  imap_host = "";
  imap_port = none;
  imap_security = none;
  smtp_host = "";
  smtp_port = none;
  smtp_security = none;
  username = "me";
  auth = password;
  password = none;
  password_cmd = none;
  token_cmd = none;
  oauth_client_id = none;
  oauth_client_secret = none;
  mail_dir = none;
  inbox_folder = none;
  archive_folder = none;
  trash_folder = none;
  sent_folder = none;
  drafts_folder = none;
  sync_folders = none;
  label_roots = none;
  storage_mode = none;
  provider = standard;
  oauth_authorization_url = none;
  oauth_token_url = none;
  oauth_scope = none;
  reject_invalid_certs = none;
  policy = full_write;
}
