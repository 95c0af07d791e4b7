-- ===== src/Imap/Download/Once.antt =====
-- imap/sync/download.rs: what the workers ask of the server, in whatever order they run.
use vivi_mail.Common.{
  ℕ, zero, suc, ◌+◌, ◌≤◌, min, List, [], ◌∷◌, ◌++◌, Option, none, some, Bool, ◌≡◌, refl, ap, ◌∙◌,
  subst, arith, All, All-append, All-parts, take, take-all, length, length-append, Result, ok, err,
}
use vivi_mail.Catalog.{CatalogEntry}
use vivi_mail.Storage.{Store}
use vivi_mail.Imap.Sync.{RemoteMessage}
use vivi_mail.Imap.Download.{
  Chunk, WorkerContext, message_chunks, next_chunk, Fetch, to_store, worker_limit, store_message,
}
use vivi_mail.Imap.Download.Workers.{
  Phase, starting, ready, holding, storing, done, failed, Run, Step, opens, takes, stops, fetches,
  stores, adds, Reaches, begins, steps, started, spawned, opened, fetched, store_round, stored_as,
}
use vivi_mail.Imap.Download.Chunks.{
  hits, total, hits-messages_of, next_chunk-lem, next_chunk-none, messages_of, message_chunks-lem,
}

module _ {ℓ} {Data : Type ℓ} (context : WorkerContext Data) where
  -- The messages that a worker has taken and not yet asked for.
  abbrev own : (RemoteMessage → Bool) → Phase context → ℕ
  own p (holding chunk) = hits p chunk
  own p _ = 0

  abbrev held : (RemoteMessage → Bool) → List (Phase context) → ℕ
  held p [] = 0
  held p (w ∷ ws) = own p w + held p ws

  held-append :
      (p : RemoteMessage → Bool) (xs ys : List (Phase context))
      → held p (xs ++ ys) ≡ held p xs + held p ys
  held-append p [] ys = omega arith
  held-append p (x ∷ xs) ys = omega (arith, held-append p xs ys)

  -- A worker ends only when no chunk is left.
  abbrev IsDue : List Chunk → ℕ → Phase context → Type 0
  IsDue chunks cursor done = length chunks ≤ cursor
  IsDue chunks cursor _ = Unit

  -- Every message of the chunks before the cursor has been asked for or is held, once for each time
  -- that it stands there.
  record Shared (chunks : List Chunk) (r : Run context) : Type 0 where
    counted :
        (p : RemoteMessage → Bool)
        → total p r.asked + held p r.workers ≡ total p (take r.cursor chunks)
    due : All (IsDue chunks r.cursor) r.workers

  -- One worker of many gives way to another phase of it.
  replaced :
      (chunks : List Chunk) (r : Run context) (before after : List (Phase context))
      (old new : Phase context)
      → r.workers ≡ before ++ (old ∷ after)
      → IsDue chunks r.cursor new
      → Shared chunks r
      → All (IsDue chunks r.cursor) (before ++ (new ∷ after))
        × ((p : RemoteMessage → Bool)
            → total p r.asked + (held p before + own p old + held p after)
              ≡ total p (take r.cursor chunks))
  replaced chunks r before after old new e d h =
      let all = subst (All (IsDue chunks r.cursor)) e h.due in
      let (first, last) = All-parts (IsDue chunks r.cursor) before (old ∷ after) all in
      (
        All-append (IsDue chunks r.cursor) before (new ∷ after) first (d, last.1),
        λ p. omega (arith, h.counted p, ap (held p) e, held-append p before (old ∷ after)),
      )

  due_later :
      (chunks : List Chunk) (n m : ℕ) (ws : List (Phase context))
      → n ≤ m
      → All (IsDue chunks n) ws
      → All (IsDue chunks m) ws
  due_later chunks n m [] l h = tt
  due_later chunks n m (starting ∷ ws) l h = (tt, due_later chunks n m ws l h.1)
  due_later chunks n m (ready ∷ ws) l h = (tt, due_later chunks n m ws l h.1)
  due_later chunks n m (holding c ∷ ws) l h = (tt, due_later chunks n m ws l h.1)
  due_later chunks n m (storing c fs es ∷ ws) l h = (tt, due_later chunks n m ws l h.1)
  due_later chunks n m (failed x ∷ ws) l h = (tt, due_later chunks n m ws l h.1)
  due_later chunks n m (done ∷ ws) l h = (omega (arith, l, h.0), due_later chunks n m ws l h.1)

  -- A phase that holds nothing and is not the end.
  record IsPlain (w : Phase context) : Type 0 where
    holds : (p : RemoteMessage → Bool) → own p w ≡ 0
    runs : (chunks : List Chunk) (cursor : ℕ) → IsDue chunks cursor w

  opened-IsPlain : (session : Result (Unit {0})) → IsPlain (opened context session)
  opened-IsPlain (err e) = record { holds = λ p. refl; runs = λ c n. tt }
  opened-IsPlain (ok s) = record { holds = λ p. refl; runs = λ c n. tt }

  fetched-IsPlain :
      (chunk : Chunk) (reply : Result (List (Fetch Data))) → IsPlain (fetched context chunk reply)
  fetched-IsPlain chunk (err e) = record { holds = λ p. refl; runs = λ c n. tt }
  fetched-IsPlain chunk (ok fs) = record { holds = λ p. refl; runs = λ c n. tt }

  stored_as-IsPlain :
      (chunk : Chunk) (left : List (Fetch Data)) (entries : List CatalogEntry)
      (result : Result CatalogEntry × Store Data)
      → IsPlain (stored_as context chunk left entries result).0
  stored_as-IsPlain chunk left entries (err e, s) = record { holds = λ p. refl; runs = λ c n. tt }
  stored_as-IsPlain chunk left entries (ok x, s) = record { holds = λ p. refl; runs = λ c n. tt }

  store_round-IsPlain :
      (chunk : Chunk) (left : List (Fetch Data)) (entries : List CatalogEntry)
      (found : Option (Data × RemoteMessage)) (s : Store Data)
      → IsPlain (store_round context chunk left entries found s).0
  store_round-IsPlain chunk left entries none s = record { holds = λ p. refl; runs = λ c n. tt }
  store_round-IsPlain chunk left entries (some (body, remote)) s =
      stored_as-IsPlain chunk left entries (store_message context body remote s)

  -- A step that takes no chunk and asks for none.
  plain_step :
      (chunks : List Chunk) (r : Run context) (before after : List (Phase context))
      (old new : Phase context)
      → r.workers ≡ before ++ (old ∷ after)
      → IsPlain new
      → ((p : RemoteMessage → Bool) → own p old ≡ 0)
      → Shared chunks r
      → Shared chunks (record r { workers = before ++ (new ∷ after) })
  plain_step chunks r before after old new e plain empty h =
      let (due, counted) =
        replaced chunks r before after old new e (plain.runs chunks r.cursor) h in
      record {
        counted = λ p.
            omega (arith, counted p, empty p, plain.holds p, held-append p before (new ∷ after));
        due = due;
      }

  next_chunk-cursor : (chunks : List Chunk) (pos : ℕ) → pos ≤ (next_chunk chunks pos).1
  unfolding next_chunk
  next_chunk-cursor chunks pos = ground arith

  same_length :
      (before after : List (Phase context)) {ws : List (Phase context)} (old new : Phase context)
      → ws ≡ before ++ (old ∷ after)
      → length (before ++ (new ∷ after)) ≡ length ws
  same_length before after old new e =
      omega
        (arith, ap length e, length-append before (old ∷ after), length-append before (new ∷ after))

  length-spawned : (n : ℕ) → length (spawned context n) ≡ n
  length-spawned zero = refl
  length-spawned (suc n) = omega (arith, length-spawned n)

  Step-Shared :
      (chunks : List Chunk) {r u : Run context}
      → Step context chunks r u
      → Shared chunks r
      → Shared chunks u
  Step-Shared chunks {r} (opens before after session e) h =
      plain_step chunks r before after starting _ e (opened-IsPlain session) (λ p. refl) h
  Step-Shared chunks {r} (takes before after chunk e found) h =
      let (due, counted) = replaced chunks r before after ready (holding chunk) e tt h in
      record {
        counted = λ p. omega (
          arith,
          counted p,
          next_chunk-lem p chunks r.cursor chunk found,
          held-append p before (holding chunk ∷ after),
        );
        due = due_later chunks r.cursor _ _ (next_chunk-cursor chunks r.cursor) due;
      }
  Step-Shared chunks {r} (stops before after e none_left) h =
      let past = next_chunk-none chunks r.cursor none_left in
      let (due, counted) = replaced chunks r before after ready done e past h in
      record {
        counted = λ p. omega (arith, counted p, held-append p before (done ∷ after));
        due = due;
      }
  Step-Shared chunks {r} (fetches before after chunk reply e) h =
      let plain = fetched-IsPlain chunk reply in
      let (due, counted) =
        replaced chunks r before after (holding chunk) (fetched context chunk reply) e
          (plain.runs chunks r.cursor) h in
      record {
        counted = λ p. omega (
          arith,
          counted p,
          plain.holds p,
          held-append p before (fetched context chunk reply ∷ after),
        );
        due = due;
      }
  Step-Shared chunks {r} (stores before after chunk fetch left entries e) h =
      let shared =
        plain_step chunks r before after (storing chunk (fetch ∷ left) entries) _ e
          (store_round-IsPlain chunk left entries (to_store context chunk fetch) r.store)
          (λ p. refl) h in
      record { counted = shared.counted; due = shared.due }
  Step-Shared chunks {r} (adds before after chunk entries e) h =
      let shared =
        plain_step chunks r before after (storing chunk [] entries) ready e
          (record { holds = λ p. refl; runs = λ c n. tt }) (λ p. refl) h in
      record { counted = shared.counted; due = shared.due }

  held-spawned : (p : RemoteMessage → Bool) (n : ℕ) → held p (spawned context n) ≡ 0
  held-spawned p zero = refl
  held-spawned p (suc n) = omega (arith, held-spawned p n)

  due_spawned : (chunks : List Chunk) (cursor n : ℕ) → All (IsDue chunks cursor) (spawned context n)
  due_spawned chunks cursor zero = tt
  due_spawned chunks cursor (suc n) = (tt, due_spawned chunks cursor n)

  module _ (missing : List RemoteMessage) (store : Store Data) where
    Reaches-Shared :
        {r : Run context} → Reaches context missing store r → Shared (message_chunks missing) r
    unfolding started
    Reaches-Shared begins =
        let n = min worker_limit (length (message_chunks missing)) in
        record {
          counted = λ p. omega (arith, held-spawned p n);
          due = due_spawned (message_chunks missing) 0 n;
        }
    Reaches-Shared (steps before step) =
        Step-Shared (message_chunks missing) step (Reaches-Shared before)

    -- The workers are as many as they were.
    Step-length :
        {r u : Run context}
        → Step context (message_chunks missing) r u
        → length u.workers ≡ length r.workers
    Step-length (opens before after session e) = same_length before after _ _ e
    Step-length (takes before after chunk e found) = same_length before after _ _ e
    Step-length (stops before after e none_left) = same_length before after _ _ e
    Step-length (fetches before after chunk reply e) = same_length before after _ _ e
    Step-length (stores before after chunk fetch left entries e) = same_length before after _ _ e
    Step-length (adds before after chunk entries e) = same_length before after _ _ e

    Reaches-length :
        {r : Run context}
        → Reaches context missing store r
        → length r.workers ≡ min worker_limit (length (message_chunks missing))
    unfolding started
    Reaches-length begins = length-spawned (min worker_limit (length (message_chunks missing)))
    Reaches-length (steps before step) = Step-length step ∙ Reaches-length before

    abbrev pub IsDone : Phase context → Type 0
    IsDone done = Unit
    IsDone _ = ⊥

    -- Whatever the order in which the workers of a download run, and whatever the server and the
    -- disk answer: once every worker has ended without an error, the messages that they asked the
    -- server for are exactly the missing ones, each as often as it stands among them, as the count
    -- of those with any property shows.
    pub Reaches-asked :
        {r : Run context}
        → Reaches context missing store r
        → All IsDone r.workers
        → (p : RemoteMessage → Bool) → hits p (messages_of r.asked) ≡ hits p missing
    Reaches-asked {r} h all p =
        let shared = Reaches-Shared h in
        let (due, none_held) =
          all_done (message_chunks missing) r.cursor p r.workers all shared.due in
        let every : total p (take r.cursor (message_chunks missing))
            ≡ total p (message_chunks missing) =
          ap (total p)
            (ended (message_chunks missing) r.cursor (length r.workers) (Reaches-length h) due) in
        omega (
          arith,
          hits-messages_of p r.asked,
          shared.counted p,
          none_held,
          every,
          hits-messages_of p (message_chunks missing),
          ap (hits p) (message_chunks-lem missing).0,
        )
      where
        all_done :
            (chunks : List Chunk) (cursor : ℕ) (p : RemoteMessage → Bool)
            (ws : List (Phase context))
            → All IsDone ws
            → All (IsDue chunks cursor) ws
            → (1 ≤ length ws → length chunks ≤ cursor) × (held p ws ≡ 0)
        all_done chunks cursor p [] a d = (λ l. absurd (omega (arith, l)), refl)
        all_done chunks cursor p (done ∷ ws) a d =
            (λ l. d.0, omega (arith, (all_done chunks cursor p ws a.1 d.1).1))
        all_done chunks cursor p (starting ∷ ws) a d = absurd a.0
        all_done chunks cursor p (ready ∷ ws) a d = absurd a.0
        all_done chunks cursor p (holding c ∷ ws) a d = absurd a.0
        all_done chunks cursor p (storing c fs es ∷ ws) a d = absurd a.0
        all_done chunks cursor p (failed x ∷ ws) a d = absurd a.0

        ended :
            (chunks : List Chunk) (cursor workers : ℕ)
            → workers ≡ min worker_limit (length chunks)
            → (1 ≤ workers → length chunks ≤ cursor)
            → take cursor chunks ≡ chunks
        ended [] cursor workers e d = take-all cursor [] (omega arith)
        ended (c ∷ cs) cursor workers e d = take-all cursor (c ∷ cs) (d (omega (arith, e)))
