-- ===== src/Mutation/Discovery.antt =====
-- imap/folders.rs: the session that asks for the capabilities and the folders before the mutations.
-- The folders are printed by another command only, and are left out of the answer.
use vivi_mail.Common.{String, List, [], ◌∷◌, Bool, Result, ok, err}
use vivi_mail.Mutation.Plan.{MutationCapabilities}
use vivi_mail.Mutation.Remote.{Reply, reply_result}

-- The requests of a discovery, which change nothing on the server.
pub data Inquiry : Type 0 where
  capability list logout : Inquiry

-- The requests of a discovery with their replies, the latest first.
abbrev pub DiscoveryLog : Type 0
DiscoveryLog = List (Inquiry × Reply)

-- How a server answers a discovery. Only the answer to `LIST` is a stream.
pub record DiscoveryServer : Type 0 where
  pub connect : Result (Unit {0})
  pub capability_reply : Reply
  pub list_reply : Reply
  pub logout_reply : Reply
  pub has_str : String → Bool

-- The two fields of `CapabilityReport` that the mutations read.
unfoldable pub capability_report : DiscoveryServer → MutationCapabilities
capability_report server = record {
  move_supported = server.has_str "MOVE";
  uidplus = server.has_str "UIDPLUS";
}

module _ (server : DiscoveryServer) where
  abbrev asked : DiscoveryLog
  asked = (capability, server.capability_reply) ∷ []

  abbrev asked_both : DiscoveryLog
  asked_both = (list, server.list_reply) ∷ asked

  -- The answer stands whatever becomes of the logout, which an error before it skips.
  abbrev pub after_list : Result (Unit {0}) → Result MutationCapabilities × DiscoveryLog
  after_list (err e) = (err e, asked_both)
  after_list (ok a) = (ok (capability_report server), (logout, server.logout_reply) ∷ asked_both)

  abbrev pub after_capability : Result (Unit {0}) → Result MutationCapabilities × DiscoveryLog
  after_capability (err e) = (err e, asked)
  after_capability (ok a) = after_list (reply_result "LIST" server.list_reply)

  abbrev pub after_connect : Result (Unit {0}) → Result MutationCapabilities × DiscoveryLog
  after_connect (err e) = (err e, [])
  after_connect (ok a) = after_capability (reply_result "CAPABILITY" server.capability_reply)

  unfoldable pub discover_folders : Result MutationCapabilities × DiscoveryLog
  unfolding capability_report
  discover_folders = after_connect server.connect
