-- ===== src/Queue/Item.antt =====
-- queue.rs: the queued commands, the states of a queue item, and the duplicate test of a send.
use vivi_mail.Common.{String, List, Option, none, some, Bool, true, false, ◌&&◌, ◌==◌, not, any}

pub data QueueStatus : Type 0 where
  pending sending executed failed dropped : QueueStatus

pub data QueuedCommand : Type 0 where
  archive : List String → QueuedCommand
  delete : List String → Bool → Bool → QueuedCommand
  move : String → String → QueuedCommand
  flag : String → Bool → Bool → Bool → Bool → QueuedCommand
  send : String → Option String → QueuedCommand
  reply : String → String → QueuedCommand

pub record QueueItem : Type 0 where
  pub id : String
  pub created_at : String
  pub updated_at : String
  pub account : String
  pub status : QueueStatus
  pub command : QueuedCommand
  pub error : Option String
  pub send_message_id : Option String

-- `QueueItem::new`: one reading of the clock gives both time stamps and the identifier.
unfoldable pub new_item : String → String → String → QueuedCommand → QueueItem
new_item id now account command = record {
  id = id;
  created_at = now;
  updated_at = now;
  account = account;
  status = pending;
  command = command;
  error = none;
  send_message_id = none;
}

-- `QueueItem::mark`
unfoldable pub mark : QueueItem → QueueStatus → Option String → String → QueueItem
mark item status error now = record item { status = status; error = error; updated_at = now }

unfoldable pub blocks_resend : QueueStatus → Bool
blocks_resend sending = true
blocks_resend executed = true
blocks_resend _ = false

unfoldable pub is_pending : QueueStatus → Bool
is_pending pending = true
is_pending _ = false

unfoldable pub is_sending : QueueStatus → Bool
is_sending sending = true
is_sending _ = false

-- `item.send_message_id.as_deref() == Some(key)`
abbrev pub has_key : Option String → String → Bool
has_key none key = false
has_key (some k) key = k == key

unfoldable pub blocks_key : String → QueueItem → Bool
unfolding blocks_resend
blocks_key key item = has_key item.send_message_id key && blocks_resend item.status

unfoldable pub send_already_attempted : List QueueItem → String → String → Bool
unfolding blocks_key
send_already_attempted items key except_id =
    any (λ item. not (item.id == except_id) && blocks_key key item) items
