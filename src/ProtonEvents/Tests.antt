-- ===== src/ProtonEvents/Tests.antt =====
-- A sync of two events, and the instances of the theorems.
use vivi_mail.Common.{
  ℕ, zero, suc, String, [], ◌∷◌, none, some, Bool, true, false, ◌≡◌, refl, Result, ok, err,
  VivariumError, arith,
}
use vivi_mail.Common.Table.{is_some}
use vivi_mail.Imap.Sync.{default_result}
use vivi_mail.ProtonEvents.{
  ProtonEvent, ProtonEventSyncReport, Env, State, Save, holds, written, untouched, event_loop,
  apply_event, apply_message_events, apply_each, requires_mail_refresh, sort_texts, dedup,
  insert_text, update,
}
use vivi_mail.ProtonEvents.Resume.{Went, event_loop-Went}
use vivi_mail.ProtonEvents.Ends.{event_loop-ends}

sorted_run : dedup (sort_texts ("b" ∷ "a" ∷ "b" ∷ [])) ≡ "a" ∷ "b" ∷ []
unfolding dedup sort_texts insert_text
sorted_run = refl

abbrev an_event : String → ProtonEvent
an_event id = record {
  event_id = id;
  refresh = 0;
  messages = record { id = "m"; action = update } ∷ [];
}

abbrev replies : ℕ → Result (ProtonEvent × Bool)
replies zero = ok (an_event "e2", true)
replies (suc n) = ok (an_event "e3", false)

abbrev saves : ℕ → Save
saves zero = written
saves (suc n) = untouched (VivariumError.io "disk full")

-- The second save of the cursor fails.
abbrev an_env : Env
an_env = record {
  event = λ n cursor. replies n;
  save_session = λ n. ok tt;
  delete_message_id = λ n id. ok true;
  sync_message_ids = λ n ids. ok default_result;
  sync_messages = λ n. ok default_result;
  save_cursor = saves;
}

abbrev no_report : ProtonEventSyncReport
no_report = record {
  account = "work";
  previous_event_id = some "e1";
  event_id = none;
  bootstrapped = false;
  events = 0;
  created = 0;
  updated = 0;
  deleted = 0;
  full_refreshes = 0;
  synced = 0;
  decryption_errors = 0;
}

abbrev before : State
before = record { file = holds "e1"; applied = [] }

abbrev after : State
after = record { file = holds "e2"; applied = "e2" ∷ "e3" ∷ [] }

events_run :
    event_loop an_env 2 0 "e1" no_report before ≡ some (err (VivariumError.io "disk full"), after)
unfolding event_loop apply_event apply_message_events requires_mail_refresh apply_each
events_run = refl

event_loop-Went_example : Went an_env 0 "e1" before after
event_loop-Went_example =
    event_loop-Went an_env 2 0 "e1" no_report before after (err (VivariumError.io "disk full")) refl
      events_run

event_loop-ends_example : is_some (event_loop an_env 2 0 "e1" no_report before) ≡ true
event_loop-ends_example =
    event_loop-ends an_env 1 (λ cursor. refl) 2 0 "e1" no_report before (omega arith) (omega arith)
