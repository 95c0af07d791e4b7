-- ===== src/ProtonEvents.antt =====
-- proton_events.rs and proton_api/events.rs: the events of a mailbox, and the cursor over them.
pub mod Resume
pub mod Ends
mod Tests
use Prim.Native.Nat.{Ordering}
use Prim.Native.String.{compare}
use vivi_mail.Common.{
  ℕ, zero, suc, ◌+◌, ◌%◌, String, List, [], ◌∷◌, ◌++◌, Option, none, some, Bool, true, false, not,
  ◌&&◌, ◌||◌, ◌==◌, nat_eq, is_empty, format, VivariumError, config, Result, ok, err, ◌>>=◌,
  if◌then◌else◌,
}
use vivi_mail.Config.{Account, Provider, proton_api, provider_text}
use vivi_mail.Imap.Sync.{SyncResult}

pub data ProtonEventAction : Type 0 where
  delete create update update_flags : ProtonEventAction

-- Without the message that an event may carry, which the sync does not read.
pub record ProtonMessageEvent : Type 0 where
  pub id : String
  pub action : ProtonEventAction

pub record ProtonEvent : Type 0 where
  pub event_id : String
  pub refresh : ℕ
  pub messages : List ProtonMessageEvent

-- Bit 0 of the byte, or all of its bits.
unfoldable pub requires_mail_refresh : ProtonEvent → Bool
requires_mail_refresh event = nat_eq (event.refresh % 2) 1 || nat_eq event.refresh 255

pub record ProtonEventSyncReport : Type 0 where
  pub account : String
  pub previous_event_id : Option String
  pub event_id : Option String
  pub bootstrapped : Bool
  pub events : ℕ
  pub created : ℕ
  pub updated : ℕ
  pub deleted : ℕ
  pub full_refreshes : ℕ
  pub synced : ℕ
  pub decryption_errors : ℕ

-- `sort` and `dedup` of texts.
abbrev insert_by : Ordering → String → String → List String → List String → List String
insert_by Ordering.gt s t rest inserted = t ∷ inserted
insert_by _ s t rest inserted = s ∷ t ∷ rest

unfoldable pub insert_text : String → List String → List String
insert_text s [] = s ∷ []
insert_text s (t ∷ rest) = insert_by (compare s t) s t rest (insert_text s rest)

unfoldable pub sort_texts : List String → List String
unfolding insert_text
sort_texts [] = []
sort_texts (s ∷ rest) = insert_text s (sort_texts rest)

unfoldable pub dedup : List String → List String
dedup [] = []
dedup (s ∷ []) = s ∷ []
dedup (s ∷ t ∷ rest) = let more = dedup (t ∷ rest) in if s == t then more else s ∷ more

-- How a save ends: with the cursor written, or with an error that leaves the file of the cursor as it
-- was, written in part, or written in full before the sync or the permissions failed.
pub data Save : Type 0 where
  written : Save
  untouched torn unsynced : VivariumError → Save

-- What one round of the loop calls, by the number of the rounds before it.
pub record Env : Type 0 where
  pub event : ℕ → String → Result (ProtonEvent × Bool)
  pub save_session : ℕ → Result (Unit {0})
  pub delete_message_id : ℕ → String → Result Bool
  pub sync_message_ids : ℕ → List String → Result SyncResult
  pub sync_messages : ℕ → Result SyncResult
  pub save_cursor : ℕ → Save

-- The file of the cursor.
pub data CursorFile : Type 0 where
  unreadable : CursorFile
  holds : String → CursorFile

-- The cursor's file and the events that were applied, in order.
pub record State : Type 0 where
  pub file : CursorFile
  pub applied : List String

module _ (env : Env) where
  abbrev counted : SyncResult → ProtonEventSyncReport → ProtonEventSyncReport
  counted sync report = record report {
    synced = report.synced + sync.new;
    decryption_errors = report.decryption_errors + sync.decryption_errors;
  }

  unfoldable pub apply_full_refresh : ℕ → ProtonEventSyncReport → Result ProtonEventSyncReport
  apply_full_refresh n report = do
    sync ← env.sync_messages n
    ok (record (counted sync report) { full_refreshes = report.full_refreshes + 1 })

  abbrev after_delete : Bool → ProtonEventSyncReport → ProtonEventSyncReport
  after_delete deleted report =
      if deleted then record report { deleted = report.deleted + 1 } else report

  -- One round of the loop over the messages of an event, with the ids to sync so far.
  abbrev apply_message :
      ℕ
      → ProtonMessageEvent
      → ProtonEventAction
      → List String
      → ProtonEventSyncReport
      → Result (List String × ProtonEventSyncReport)
  apply_message n message delete ids report = do
    deleted ← env.delete_message_id n message.id
    ok (ids, after_delete deleted report)
  apply_message n message create ids report =
      ok (ids ++ (message.id ∷ []), record report { created = report.created + 1 })
  apply_message n message update ids report =
      ok (ids ++ (message.id ∷ []), record report { updated = report.updated + 1 })
  apply_message n message update_flags ids report =
      ok (ids ++ (message.id ∷ []), record report { updated = report.updated + 1 })

  unfoldable pub apply_each :
      ℕ
      → List ProtonMessageEvent
      → List String
      → ProtonEventSyncReport
      → Result (List String × ProtonEventSyncReport)
  apply_each n [] ids report = ok (ids, report)
  apply_each n (message ∷ rest) ids report = do
    (ids', report') ← apply_message n message message.action ids report
    apply_each n rest ids' report'

  unfoldable pub apply_message_events :
      ℕ → List ProtonMessageEvent → ProtonEventSyncReport → Result ProtonEventSyncReport
  unfolding apply_each dedup sort_texts
  apply_message_events n messages report = do
    (ids, report') ← apply_each n messages [] report
    sync ← env.sync_message_ids n (dedup (sort_texts ids))
    ok (counted sync report')

  unfoldable pub apply_event :
      ℕ → ProtonEvent → ProtonEventSyncReport → Result ProtonEventSyncReport
  unfolding requires_mail_refresh apply_full_refresh apply_message_events
  apply_event n event report =
      if requires_mail_refresh event
      then apply_full_refresh n report
      else apply_message_events n event.messages report

  abbrev pub Outcome : Type 0
  Outcome = Option (Result ProtonEventSyncReport × State)

  -- The end of a round, where the next ones go on after a save and while there are more.
  abbrev after_save :
      Save
      → Bool
      → String
      → ProtonEventSyncReport
      → State
      → (ProtonEventSyncReport → State → Outcome)
      → Outcome
  after_save (untouched e) more cursor report s next = some (err e, s)
  after_save (torn e) more cursor report s next = some (err e, record s { file = unreadable })
  after_save (unsynced e) more cursor report s next = some (err e, record s { file = holds cursor })
  after_save written more cursor report s next =
      let saved = record s { file = holds cursor } in
      let shown = record report { event_id = some cursor } in
      let rest = next shown saved in if more then rest else some (ok shown, saved)

  abbrev after_apply :
      ℕ
      → Result ProtonEventSyncReport
      → Bool
      → String
      → State
      → (ProtonEventSyncReport → State → Outcome)
      → Outcome
  after_apply n (err e) more cursor s next = some (err e, s)
  after_apply n (ok report) more cursor s next =
      after_save (env.save_cursor n) more cursor report
        (record s { applied = s.applied ++ (cursor ∷ []) }) next

  abbrev counted_event : ProtonEventSyncReport → ProtonEventSyncReport
  counted_event report = record report { events = report.events + 1 }

  abbrev after_session :
      ℕ
      → Result (Unit {0})
      → ProtonEvent
      → Bool
      → String
      → ProtonEventSyncReport
      → State
      → (ProtonEventSyncReport → State → Outcome)
      → Outcome
  after_session n (err e) event more cursor report s next = some (err e, s)
  after_session n (ok saved) event more cursor report s next =
      let round =
        after_apply n (apply_event n event (counted_event report)) more event.event_id s next in
      if is_empty event.event_id || event.event_id == cursor
      then some (ok (record report { event_id = some cursor }), s)
      else round

  abbrev after_event :
      ℕ
      → Result (ProtonEvent × Bool)
      → String
      → ProtonEventSyncReport
      → State
      → (String → ProtonEventSyncReport → State → Outcome)
      → Outcome
  after_event n (err e) cursor report s next = some (err e, s)
  after_event n (ok (event, more)) cursor report s next =
      after_session n (env.save_session n) event more cursor report s (next event.event_id)

  -- The loop of `sync_events`, on fuel: none where this runs out.
  unfoldable pub event_loop : ℕ → ℕ → String → ProtonEventSyncReport → State → Outcome
  unfolding apply_event
  event_loop zero n cursor report s = none
  event_loop (suc fuel) n cursor report s =
      after_event n (env.event n cursor) cursor report s (event_loop fuel (suc n))

abbrev is_proton_api : Provider → Bool
is_proton_api proton_api = true
is_proton_api _ = false

unfoldable pub require_proton_api : Account → Result (Unit {0})
unfolding provider_text
require_proton_api account =
    if is_proton_api account.provider
    then ok tt
    else err (
        config (
          format (
            "account '"
            ∷ account.name
            ∷ "' uses provider = \""
            ∷ provider_text account.provider
            ∷ "\"; sync-events requires provider = \"proton-api\""
            ∷ [])))
