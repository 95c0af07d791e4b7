-- ===== src/Watch.antt =====
-- watch_inbox.rs: the rounds of the watcher, its delays, and the event that it emits.
mod Tests
use vivi_mail.Common.{
  ℕ, zero, suc, ◌+◌, ◌*◌, ◌≤◌, min, String, List, [], ◌∷◌, ◌++◌, Option, none, some, Bool, true,
  false, ◌==◌, ◌≡◌, refl, ltb, any, map, length, format, decimal, VivariumError, Result, ok, err,
  arith, if◌then◌else◌, All, inl, inr, Bool-cases,
}
use vivi_mail.Common.Words.{join}
use vivi_mail.Catalog.{CatalogEntry, RemoteIdentity}

-- In seconds.
abbrev pub first_backoff : ℕ
first_backoff = 1

abbrev pub max_backoff : ℕ
max_backoff = 300

pub data InboxWatchSource : Type 0 where
  imap_idle poll : InboxWatchSource

pub record InboxMessageIdentity : Type 0 where
  pub message_id : String
  pub event_id : String
  pub sender_address : Option String

-- Without the schema number, the kind, and the time, which are fixed or read from the clock.
pub record InboxWatchEvent : Type 0 where
  pub account : String
  pub source : InboxWatchSource
  pub batch_id : String
  pub new_count : ℕ
  pub messages : List InboxMessageIdentity
  pub cursor : Option String

abbrev remote_event_id : CatalogEntry → Option RemoteIdentity → String
remote_event_id entry none = format ("message:" ∷ entry.account ∷ ":" ∷ entry.handle ∷ [])
remote_event_id entry (some remote) = format (
    "imap:"
    ∷ remote.remote_mailbox
    ∷ ":"
    ∷ decimal remote.uidvalidity
    ∷ ":"
    ∷ decimal remote.uid
    ∷ [])

unfoldable pub entry_event_id : CatalogEntry → String
unfolding decimal
entry_event_id entry = remote_event_id entry entry.remote

abbrev last_id : List InboxMessageIdentity → Option String
last_id [] = none
last_id (m ∷ []) = some m.event_id
last_id (m ∷ n ∷ ms) = last_id (n ∷ ms)

abbrev event_id_of : InboxMessageIdentity → String
event_id_of m = m.event_id

abbrev is_seen : String → List String → Bool
is_seen id seen = any (λ other. other == id) seen

-- What a sync returns, as far as the watcher reads it.
pub record Synced : Type 0 where
  pub new : ℕ
  pub cataloged_entries : List CatalogEntry

-- The address in a From header, which a library parses.
module _ (sender_address : String → Option String) where
  abbrev pub identity : CatalogEntry → InboxMessageIdentity
  identity entry = record {
    message_id = entry.handle;
    event_id = entry_event_id entry;
    sender_address = sender_address entry.from;
  }

  -- `filter_map` with the set of the identifiers seen.
  unfoldable pub identities : List String → List CatalogEntry → List InboxMessageIdentity
  identities seen [] = []
  identities seen (entry ∷ entries) =
      let repeated = identities seen entries in
      let fresh = identity entry ∷ identities (entry_event_id entry ∷ seen) entries in
      if is_seen (entry_event_id entry) seen then repeated else fresh

  unfoldable pub event_from_result : String → Synced → InboxWatchSource → InboxWatchEvent
  unfolding identities join
  event_from_result account result source =
      let messages = identities [] result.cataloged_entries in
      record {
        account = account;
        source = source;
        batch_id = format (account ∷ ":" ∷ join "," (map event_id_of messages) ∷ []);
        new_count = length messages;
        messages = messages;
        cursor = last_id messages;
      }

  -- The delay before the next failure's sleep, and what was slept and emitted.
  pub record State : Type 0 where
    pub backoff : ℕ
    pub slept : List ℕ
    pub emitted : List InboxWatchEvent

  -- `sleep(backoff)`, and the next delay.
  abbrev back_off : State → State
  back_off s = record s { backoff = min (s.backoff * 2) max_backoff; slept = s.backoff ∷ s.slept }

  abbrev emit : String → InboxWatchSource → Synced → State → State
  emit account source result s = record s {
    emitted = event_from_result account result source ∷ s.emitted;
  }

  abbrev after_sync : String → InboxWatchSource → Result Synced → State → State
  after_sync account source (err e) s = back_off s
  after_sync account source (ok result) s =
      if ltb 0 result.new then emit account source result s else s

  -- A round of the loop where no event fails to be written: a wait, and a sync after it.
  unfoldable pub round : String → Result InboxWatchSource → Result Synced → State → State
  unfolding event_from_result
  round account (err e) sync s = back_off s
  round account (ok source) sync s =
      after_sync account source sync (record s { backoff = first_backoff })

  -- A delay is never longer than five minutes.
  abbrev IsBounded : State → Type 0
  IsBounded s = (1 ≤ s.backoff) × (s.backoff ≤ max_backoff) × All (λ n. n ≤ max_backoff) s.slept

  after_sync-IsBounded :
      (account : String) (source : InboxWatchSource) (sync : Result Synced) (s : State)
      → IsBounded s
      → IsBounded (after_sync account source sync s)
  after_sync-IsBounded account source (err e) s (l, u, all) =
      (omega (arith, l), omega arith, (u, all))
  after_sync-IsBounded account source (ok result) s h = elim (Bool-cases (ltb 0 result.new)) [
    | inl some_new ↦ rw some_new h
    | inr no_new ↦ rw no_new h
  ]

  -- Whatever the waits and the syncs return, the delays stay between a second and five minutes.
  pub round-IsBounded :
      (account : String) (wait : Result InboxWatchSource) (sync : Result Synced) (s : State)
      → IsBounded s
      → IsBounded (round account wait sync s)
  unfolding round
  round-IsBounded account (err e) sync s (l, u, all) = (omega (arith, l), omega arith, (u, all))
  round-IsBounded account (ok source) sync s (l, u, all) =
      after_sync-IsBounded account source sync (record s { backoff = first_backoff })
        (omega arith, omega arith, all)
