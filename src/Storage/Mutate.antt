-- ===== src/Storage/Mutate.antt =====
-- storage/mutate.rs: the updates of stored messages. A statement that fails is left to the caller.
use vivi_mail.Common.{
  ℕ, String, [], ◌∷◌, Option, none, some, Bool, true, false, not, ◌&&◌, ◌==◌, nat_eq, ltb,
  if◌then◌else◌,
}
use vivi_mail.Common.Table.{Table, update_rows, count_rows}
use vivi_mail.Storage.{Message, Binding, Tables}

abbrev pub is_null : Option String → Bool
is_null none = true
is_null (some t) = false

-- The subquery: the message that a remote reference is bound to.
abbrev pub refers : String → String → ℕ → ℕ → Binding → Bool
refers account mailbox uidvalidity uid b =
    b.remote.account == account
    && b.remote.remote_mailbox == mailbox
    && nat_eq b.remote.remote_uidvalidity uidvalidity
    && nat_eq b.remote.remote_uid uid

unfoldable pub bound_message : String → String → ℕ → ℕ → Table Binding → Option String
bound_message account mailbox uidvalidity uid [] = none
bound_message account mailbox uidvalidity uid ((id, b) ∷ t) =
    let rest = bound_message account mailbox uidvalidity uid t in
    if refers account mailbox uidvalidity uid b then some id else rest

abbrev pub names : Option String → String → Bool
names none id = false
names (some bound) id = id == bound

abbrev pub has_flags : Option String → String → Message → Bool
has_flags bound id m = is_null m.deleted_at && names bound id

abbrev pub set_flags : Bool → Bool → String → Message → Message
set_flags read star now m = record m { read_state = read; starred = star; updated_at = now }

unfoldable pub update_remote_flags :
    String → String → ℕ → ℕ → Bool → Bool → String → Tables → Bool × Tables
unfolding bound_message
update_remote_flags account mailbox uidvalidity uid read star now tables =
    let bound = bound_message account mailbox uidvalidity uid tables.bindings in
    (
      ltb 0 (count_rows (has_flags bound) tables.messages),
      record tables {
        messages = update_rows (has_flags bound) (set_flags read star now) tables.messages;
      },
    )

abbrev pub outdated : String → String → ℕ → String → Binding → Bool
outdated account mailbox current id b =
    b.remote.account == account
    && b.remote.remote_mailbox == mailbox
    && not (nat_eq b.remote.remote_uidvalidity current)
    && not b.stale

abbrev pub set_stale : Binding → Binding
set_stale b = record b { stale = true }

unfoldable pub mark_stale_uidvalidity : String → String → ℕ → Tables → ℕ × Tables
mark_stale_uidvalidity account mailbox current tables = (
  count_rows (outdated account mailbox current) tables.bindings,
  record tables {
    bindings = update_rows (outdated account mailbox current) set_stale tables.bindings;
  },
)

abbrev pub is_live : String → String → String → Message → Bool
is_live account message_id id m = m.account == account && id == message_id && is_null m.deleted_at

abbrev pub set_deleted : String → Message → Message
set_deleted now m = record m { deleted_at = some now; updated_at = now }

unfoldable pub mark_message_deleted : String → String → String → Tables → Bool × Tables
mark_message_deleted account message_id now tables = (
  ltb 0 (count_rows (is_live account message_id) tables.messages),
  record tables {
    messages = update_rows (is_live account message_id) (set_deleted now) tables.messages;
  },
)
