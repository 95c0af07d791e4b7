-- ===== src/Imap/Download/Workers.antt =====
-- imap/sync/download.rs: the workers of a download, and the steps by which they interleave.
use vivi_mail.Common.{
  ℕ, zero, suc, ◌+◌, min, List, [], ◌∷◌, ◌++◌, Option, none, some, ◌≡◌, length, VivariumError,
  Result, ok, err,
}
use vivi_mail.Catalog.{CatalogEntry}
use vivi_mail.Imap.Sync.{RemoteMessage}
use vivi_mail.Storage.{Store}
use vivi_mail.Imap.Download.{
  Chunk, WorkerContext, Fetch, message_chunks, next_chunk, to_store, store_message, worker_limit,
}

module _ {ℓ} {Data : Type ℓ} (context : WorkerContext Data) where
  -- A worker between two of its awaits or transactions: before its session, before the next chunk, with a chunk that it
  -- has yet to fetch, within `process_messages` (with the replies left and the entries so far), and
  -- at its end.
  pub data Phase : Type ℓ where
    starting : Phase
    ready : Phase
    holding : Chunk → Phase
    storing : Chunk → List (Fetch Data) → List CatalogEntry → Phase
    done : Phase
    failed : VivariumError → Phase

  -- What the workers share, themselves, and the chunks that they have asked the server for.
  pub record Run : Type ℓ where
    pub cursor : ℕ
    pub workers : List Phase
    pub asked : List Chunk
    pub new : ℕ
    pub cataloged_entries : List CatalogEntry
    pub store : Store Data

  -- The end of `fetch_messages`.
  abbrev pub fetched : Chunk → Result (List (Fetch Data)) → Phase
  fetched chunk (err e) = failed e
  fetched chunk (ok fetches) = storing chunk fetches []

  -- One round of the loop of `process_messages`.
  abbrev pub stored_as :
      Chunk
      → List (Fetch Data)
      → List CatalogEntry
      → Result CatalogEntry × Store Data
      → Phase × Store Data
  stored_as chunk fetches entries (err e, store) = (failed e, store)
  stored_as chunk fetches entries (ok entry, store) =
      (storing chunk fetches (entries ++ (entry ∷ [])), store)

  abbrev pub store_round :
      Chunk
      → List (Fetch Data)
      → List CatalogEntry
      → Option (Data × RemoteMessage)
      → Store Data
      → Phase × Store Data
  store_round chunk fetches entries none store = (storing chunk fetches entries, store)
  store_round chunk fetches entries (some (body, remote)) store =
      stored_as chunk fetches entries (store_message context body remote store)

  abbrev pub opened : Result (Unit {0}) → Phase
  opened (err e) = failed e
  opened (ok started) = ready

  -- The workers at first.
  abbrev pub spawned : ℕ → List Phase
  spawned zero = []
  spawned (suc n) = starting ∷ spawned n

  unfoldable pub started : List RemoteMessage → Store Data → Run
  unfolding message_chunks
  started missing store = record {
    cursor = 0;
    workers = spawned (min worker_limit (length (message_chunks missing)));
    asked = [];
    new = 0;
    cataloged_entries = [];
    store = store;
  }

  -- One worker goes on, whichever it is: it opens its session, takes a chunk under the lock of the
  -- cursor or finds none, fetches its chunk, stores one message, or adds its entries under the lock
  -- of the result.
  pub data Step (chunks : List Chunk) : Run → Run → Type ℓ where
    opens :
        {r : Run} (before after : List Phase) (session : Result (Unit {0}))
        → r.workers ≡ before ++ (starting ∷ after)
        → Step chunks r (record r { workers = before ++ (opened session ∷ after) })
    takes :
        {r : Run} (before after : List Phase) (chunk : Chunk)
        → r.workers ≡ before ++ (ready ∷ after)
        → (next_chunk chunks r.cursor).0 ≡ some chunk
        → Step chunks r (record r {
          cursor = (next_chunk chunks r.cursor).1;
          workers = before ++ (holding chunk ∷ after);
        })
    stops :
        {r : Run} (before after : List Phase)
        → r.workers ≡ before ++ (ready ∷ after)
        → (next_chunk chunks r.cursor).0 ≡ none
        → Step chunks r (record r { workers = before ++ (done ∷ after) })
    fetches :
        {r : Run} (before after : List Phase) (chunk : Chunk) (reply : Result (List (Fetch Data)))
        → r.workers ≡ before ++ (holding chunk ∷ after)
        → Step chunks r (record r {
          workers = before ++ (fetched chunk reply ∷ after);
          asked = chunk ∷ r.asked;
        })
    stores :
        {r : Run} (before after : List Phase) (chunk : Chunk) (fetch : Fetch Data)
        (left : List (Fetch Data)) (entries : List CatalogEntry)
        → r.workers ≡ before ++ (storing chunk (fetch ∷ left) entries ∷ after)
        → Step chunks r (record r {
          workers =
              before
              ++ ((store_round chunk left entries (to_store context chunk fetch) r.store).0
                  ∷ after);
          store = (store_round chunk left entries (to_store context chunk fetch) r.store).1;
        })
    adds :
        {r : Run} (before after : List Phase) (chunk : Chunk) (entries : List CatalogEntry)
        → r.workers ≡ before ++ (storing chunk [] entries ∷ after)
        → Step chunks r (record r {
          workers = before ++ (ready ∷ after);
          new = r.new + length entries;
          cataloged_entries = r.cataloged_entries ++ entries;
        })

  -- The runs of a download, by any interleaving of its workers.
  pub data Reaches (missing : List RemoteMessage) (store : Store Data) : Run → Type ℓ where
    begins : Reaches missing store (started missing store)
    steps :
        {r u : Run}
        → Reaches missing store r
        → Step (message_chunks missing) r u
        → Reaches missing store u
