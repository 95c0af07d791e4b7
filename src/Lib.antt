-- ===== src/Lib.antt =====
-- vivi-mail: a verification library for the mail client of this repository.
--
-- The program keeps a local store of messages beside an IMAP account. A command that changes the
-- account goes into a queue on disk (src/queue.rs) and a later run performs it (src/queue_runner.rs):
-- a policy of the account decides first (src/policy.rs), a send goes through the mail transport
-- (src/draft_runner.rs), and any other change is planned from the catalog (src/mutation_command.rs),
-- audited, carried out in one IMAP session (src/imap/mutate.rs) and mirrored in the local rows
-- (src/mutation_runner.rs, src/catalog/local.rs). A sync plans which folders it covers
-- (src/imap/sync/plan.rs) and downloads what the store lacks (src/imap/sync.rs).
--
-- Files:
--   Common      tests on numbers and lists, the string methods of Rust that the program calls, and
--               the error type with `Result` (src/error.rs)
--   Config      the account settings (src/config/types.rs); Config/Resolve: their defaults
--               (src/config/account.rs), with Tls on certificate validation
--   Policy      `classify`, `policy_allows` and `authorize` (src/policy.rs)
--   Queue       Item and World: the items and the queue directory (src/queue.rs); Runner: the
--               commands on the queue (src/queue_runner.rs, `send_path` of src/draft_runner.rs);
--               Directory, History, Ends, Delivery, AtMostOnce and Reach: the invariant of the sends
--               and the histories; Retry: one run of one send, and a second one; Denied: an item
--               that the policy denies
--   Imap        Folders (src/imap/folders.rs), Plan (src/imap/sync/plan.rs), Sync (src/imap/sync.rs),
--               Download: the chunks of a folder and its Workers (src/imap/sync/download.rs)
--   Catalog     the message rows (src/catalog.rs, src/catalog/local.rs); Handles: tokens
--               (src/storage.rs, src/storage/handles.rs); Remote: references by Message-ID
--               (src/catalog/remote.rs)
--   Storage     the tables of the message store and the ingest (src/storage.rs, src/storage/ingest.rs,
--               schema.rs and metadata.rs beside it); Mutate and Query (src/storage/mutate.rs,
--               src/storage/query.rs); Refresh: the flags of a folder (src/imap/sync.rs);
--               WellFormed and Reach: the states; Transaction, Rows, Ingest, Rewrite and Again: one
--               ingest, and a failed or a repeated one
--   Embedding   the texts of a message that are embedded (src/embeddings/chunk.rs): Split, Fill,
--               Windows, Chunks and Ids
--   ProtonEvents  the events of a mailbox and their cursor (src/proton_events.rs,
--               src/proton_api/events.rs)
--   Smtp        the removal of Bcc headers (src/smtp.rs)
--   Mutation    Plan, Prepare and Command (src/imap/mutate.rs, src/mutation_command.rs and its
--               audit.rs), Remote: the session of a mutation (src/imap/mutate.rs), Discovery: the
--               session before it that asks for the capabilities (src/imap/folders.rs), World and
--               Runner (src/mutation_runner.rs)
--   Commands    the agent, exec and enqueue commands (src/queue_runner.rs, src/cli/agent_command.rs,
--               src/cli/write_command.rs)
--   Search      the filters on search results and listings (src/search/filters.rs, src/list.rs)
--   Watch       the rounds of the inbox watcher (src/watch_inbox.rs)
--   Extract     the text of a body (src/extract.rs)
--   Labels      what is said of labels (src/labels.rs)
--   Reset       the checks before a local cache is deleted (src/sync.rs)
--   Duration    the intervals that a user writes (src/duration.rs)
-- Each Tests module runs the definitions on concrete inputs.
--
-- Rust's functions are functions here under the same names; methods take their object first. A
-- method of the runtime that returns Err is a step on an explicit state with an outcome. What is
-- outside (disk, clock, SQLite, the mail transport, the servers) is a record that fixes how each call
-- ends by the count of the calls before it, so a theorem for every such record is one for all
-- failures and, in the queue, for the death of the process within any call. A session keeps the list
-- of its requests with their replies, and the server's replies are a function of that list. The
-- replacement of a From header, the Message-ID of a message, its digest, the filing of a sent copy
-- and the performance of a queued mutation are fields of the queue's record, and the local index and
-- the download of a folder are fields of the sync's. The bytes of a stored message are any type with
-- its hash, its size and its parsed headers, and each statement of an ingest ends as a record says.
--
-- Every loop is structural recursion, but for four on fuel: `decimal` has the number itself, which is
-- more than its digits, the chunks of a download have the number of the messages, the windows of a
-- body one more than its words, since each begins after the one before it, and the loop over the
-- events has any number, since the server decides how many there are. Identifiers, sizes and UIDs are
-- natural numbers, which the modelled code compares and prints but adds only in counts of messages;
-- an interval keeps its bound of 64 bits.
--
-- Not modelled: printing and JSON output, the command line, configuration files, secrets and OAuth,
-- the Proton API but for its events, OpenPGP, the SMTP transport, message parsing and composition,
-- rendering, full-text search and the store of the embeddings. They are input and output, calls of
-- libraries, or parts without a model.
pub mod Common
pub mod Config
pub mod Policy
pub mod Queue
pub mod Imap
pub mod Catalog
pub mod Storage
pub mod Embedding
pub mod ProtonEvents
pub mod Smtp
pub mod Mutation
pub mod Commands
pub mod Search
pub mod Watch
pub mod Extract
pub mod Labels
pub mod Reset
pub mod Duration
