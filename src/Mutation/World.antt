-- ===== src/Mutation/World.antt =====
-- mutation_runner.rs and mutation_command.rs: the state that a run of mutations changes. An `Env`
-- fixes how the database, the audit file and the servers answer, by the count of outside calls made
-- before, so a theorem for every `Env` is one for all of their failures.
use vivi_mail.Common.{
  ℕ, suc, String, List, [], ◌∷◌, Option, none, some, Bool, VivariumError, Result, ok, err,
}
use vivi_mail.Catalog.{Row}
use vivi_mail.Mutation.Plan.{MutationCapabilities}
use vivi_mail.Mutation.Remote.{MutationResult, Log, Server, Session}
use vivi_mail.Mutation.Discovery.{DiscoveryServer, DiscoveryLog, discover_folders}

pub record MutationAuditRecord : Type 0 where
  pub timestamp : String
  pub account : String
  pub handle : String
  pub operation : String
  pub status : String
  pub dry_run : Bool
  pub source_mailbox : String
  pub target_mailbox : Option String
  pub uid : ℕ
  pub uidvalidity : ℕ
  pub command_path : String
  pub error : Option String

-- `fails` is the error of an outside call, if it has one; `like` is SQLite's operator.
pub record Env : Type 0 where
  pub now : ℕ → String
  pub fails : ℕ → Option VivariumError
  pub server : ℕ → Server
  pub discovery : ℕ → DiscoveryServer
  pub like : String → String → Bool

-- The latest audit record and the latest session come first: `sessions` are those of the mutations,
-- and `discoveries` those that ask for the capabilities and the folders.
pub record State : Type 0 where
  pub rows : List Row
  pub audit : List MutationAuditRecord
  pub sessions : List Log
  pub discoveries : List DiscoveryLog
  pub calls : ℕ

abbrev pub Exec {ℓ} : Type ℓ → Type ℓ
Exec A = State → Result A × State

abbrev pub continue {ℓ κ} :
    {A : Type ℓ} {B : Type κ} → Result A × State → (A → Exec B) → Result B × State
continue (ok a, s) f = f a s
continue (err e, s) f = (err e, s)

infixl 5 ◌>>=◌ ◌>>◌
abbrev pub ◌>>=◌ {ℓ κ} : {A : Type ℓ} {B : Type κ} → Exec A → (A → Exec B) → Exec B
◌>>=◌ m f s = continue (m s) f

abbrev pub ◌>>◌ {ℓ} : {B : Type ℓ} → Exec (Unit {0}) → Exec B → Exec B
m >> n = m >>= λ _. n

abbrev pub pure {ℓ} : {A : Type ℓ} → A → Exec A
pure a s = (ok a, s)

abbrev pub lift {ℓ} : {A : Type ℓ} → Result A → Exec A
lift r s = (r, s)

abbrev failed_with : Option VivariumError → Result (Unit {0})
failed_with none = ok tt
failed_with (some e) = err e

-- A call of the disk or the database that may fail.
unfoldable pub outside : Env → Exec (Unit {0})
outside env s = (failed_with (env.fails s.calls), record s { calls = suc s.calls })

-- A session on the server of the moment, which is kept.
abbrev keep_session {ℓ} : {A : Type ℓ} → Result A × Log → Exec A
keep_session (r, log) s = (r, record s { sessions = log ∷ s.sessions; calls = suc s.calls })

unfoldable pub in_session : Env → (Server → Session MutationResult) → Exec MutationResult
in_session env run s = keep_session (run (env.server s.calls) []) s

abbrev pub keep_discovery : Result MutationCapabilities × DiscoveryLog → Exec MutationCapabilities
keep_discovery (r, log) s = (r, record s { discoveries = log ∷ s.discoveries; calls = suc s.calls })

-- The session of a discovery, which is kept too.
unfoldable pub discover : Env → Exec MutationCapabilities
unfolding discover_folders
discover env s = keep_discovery (discover_folders (env.discovery s.calls)) s
