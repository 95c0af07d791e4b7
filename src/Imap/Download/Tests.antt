-- ===== src/Imap/Download/Tests.antt =====
-- A download by one worker, and the instance of the theorem.
use vivi_mail.Common.{String, List, [], ◌∷◌, none, some, true, false, ◌≡◌, refl, ok}
use vivi_mail.Common.Words.{join}
use vivi_mail.Config.{bare_account}
use vivi_mail.Imap.Sync.{RemoteMessage}
use vivi_mail.Storage.{Store}
use vivi_mail.Storage.Reach.{no_tables}
use vivi_mail.Storage.Tests.{plain_content, all_fine}
use vivi_mail.Imap.Download.{WorkerContext, message_chunks, next_chunk, chunks_in, uid_set_string}
use vivi_mail.Imap.Download.Workers.{
  Run, Reaches, begins, steps, opens, takes, fetches, adds, stops, started, done,
}
use vivi_mail.Imap.Download.Chunks.{hits, messages_of}
use vivi_mail.Imap.Download.Once.{Reaches-asked}

uid_set_runs : uid_set_string (3 ∷ 14 ∷ 15 ∷ []) ≡ "3,14,15"
unfolding uid_set_string join
uid_set_runs = refl

abbrev a_context : WorkerContext String
a_context = record {
  account = bare_account;
  remote_folder = "INBOX";
  local_folder = "inbox";
  content = plain_content;
  outcomes = λ m. all_fine;
  now = λ m. "t1";
}

abbrev one_missing : List RemoteMessage
one_missing =
    record {
      uid = 4;
      uidvalidity = some 7;
      size = 5;
      rfc_message_id = none;
      read_state = true;
      starred = false;
    }
    ∷ []

abbrev no_store : Store String
no_store = record { files = []; tables = no_tables }

-- The server returns nothing for the chunk.
abbrev last_run : Run a_context
last_run = record {
  cursor = 1;
  workers = done ∷ [];
  asked = one_missing ∷ [];
  new = 0;
  cataloged_entries = [];
  store = no_store;
}

last_run-Reaches : Reaches a_context one_missing no_store last_run
unfolding started message_chunks next_chunk chunks_in
last_run-Reaches =
    steps
      (steps
        (steps (steps (steps begins (opens [] [] (ok tt) refl)) (takes [] [] one_missing refl refl))
          (fetches [] [] one_missing (ok []) refl))
        (adds [] [] one_missing [] refl))
      (stops [] [] refl refl)

Reaches-asked_example :
    hits (λ m. m.starred) (messages_of last_run.asked) ≡ hits (λ m. m.starred) one_missing
Reaches-asked_example =
    Reaches-asked a_context one_missing no_store last_run-Reaches (tt, tt) (λ m. m.starred)
