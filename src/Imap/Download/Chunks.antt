-- ===== src/Imap/Download/Chunks.antt =====
-- imap/sync/download.rs: the chunks of the missing messages, and the cursor over them.
use vivi_mail.Common.{
  ℕ, zero, suc, ◌+◌, ◌≤◌, List, [], ◌∷◌, ◌++◌, none, some, Bool, ◌≡◌, refl, ap, ◌∙◌, inl, inr,
  arith, All, Bool-cases, take, drop, length, leb, length-take, length-drop, take-append-drop,
  if◌then◌else◌,
}
use vivi_mail.Imap.Sync.{RemoteMessage}
use vivi_mail.Imap.Download.{Chunk, chunk_size, chunks_in, message_chunks, next_chunk, nth}

-- The messages of some chunks.
abbrev pub messages_of : List Chunk → List RemoteMessage
messages_of [] = []
messages_of (c ∷ cs) = c ++ messages_of cs

abbrev pub IsChunk : Chunk → Type 0
IsChunk c = (1 ≤ length c) × (length c ≤ chunk_size)

chunks_in-lem :
    (fuel : ℕ) (ms : List RemoteMessage)
    → length ms ≤ fuel
    → (messages_of (chunks_in fuel chunk_size ms) ≡ ms) × All IsChunk (chunks_in fuel chunk_size ms)
unfolding chunks_in
chunks_in-lem zero [] h = (refl, tt)
chunks_in-lem zero (m ∷ ms) h = absurd (omega (arith, h))
chunks_in-lem (suc fuel) [] h = (refl, tt)
chunks_in-lem (suc fuel) (m ∷ ms) h =
    let size = length-take chunk_size (m ∷ ms) in
    let left = length-drop chunk_size (m ∷ ms) in
    let (same, sized) = chunks_in-lem fuel (drop chunk_size (m ∷ ms)) (omega (arith, left, h)) in
    (
      ap (λ u. take chunk_size (m ∷ ms) ++ u) same ∙ take-append-drop chunk_size (m ∷ ms),
      ((omega (arith, size), omega (arith, size)), sized),
    )

-- The missing messages are cut, in order, into chunks of 1 to 100 messages.
pub message_chunks-lem :
    (missing : List RemoteMessage)
    → (messages_of (message_chunks missing) ≡ missing) × All IsChunk (message_chunks missing)
unfolding message_chunks
message_chunks-lem missing = chunks_in-lem (length missing) missing (omega arith)

-- How many messages of a chunk, or of chunks, have a property.
abbrev pub hits : (RemoteMessage → Bool) → Chunk → ℕ
hits p [] = 0
hits p (m ∷ ms) = let rest = hits p ms in if p m then suc rest else rest

abbrev pub total : (RemoteMessage → Bool) → List Chunk → ℕ
total p [] = 0
total p (c ∷ cs) = hits p c + total p cs

pub hits-append :
    (p : RemoteMessage → Bool) (xs ys : Chunk) → hits p (xs ++ ys) ≡ hits p xs + hits p ys
hits-append p [] ys = omega arith
hits-append p (x ∷ xs) ys = ground (arith, hits-append p xs ys)

pub hits-messages_of :
    (p : RemoteMessage → Bool) (cs : List Chunk) → hits p (messages_of cs) ≡ total p cs
hits-messages_of p [] = refl
hits-messages_of p (c ∷ cs) = omega (arith, hits-append p c (messages_of cs), hits-messages_of p cs)

nth-lem :
    (p : RemoteMessage → Bool) (n : ℕ) (cs : List Chunk) (c : Chunk)
    → nth n cs ≡ some c
    → total p (take (suc n) cs) ≡ hits p c + total p (take n cs)
nth-lem p n [] c e = cc
nth-lem p zero (d ∷ cs) c e = ground arith
nth-lem p (suc n) (d ∷ cs) c e = omega (arith, nth-lem p n cs c e)

-- The chunk that a worker takes is the next one, and there was one.
pub next_chunk-lem :
    (p : RemoteMessage → Bool) (cs : List Chunk) (pos : ℕ) (c : Chunk)
    → (next_chunk cs pos).0 ≡ some c
    → total p (take (next_chunk cs pos).1 cs) ≡ hits p c + total p (take pos cs)
unfolding next_chunk
next_chunk-lem p cs pos c e = elim (Bool-cases (leb (length cs) pos)) [
  | inl past ↦ absurd (ground arith)
  | inr more ↦
      let found : nth pos cs ≡ some c = rw more at e in
      let step : pos + 1 ≡ suc pos = omega arith in
      rw more (ap (λ n. total p (take n cs)) step ∙ nth-lem p pos cs c found)
]

pub next_chunk-none : (cs : List Chunk) (pos : ℕ) → (next_chunk cs pos).0 ≡ none → length cs ≤ pos
unfolding next_chunk
next_chunk-none cs pos e = elim (Bool-cases (leb (length cs) pos)) [
  | inl past ↦ ground arith
  | inr more ↦ nth_none pos cs (rw more at e)
]
  where
    nth_none : (n : ℕ) (ds : List Chunk) → nth n ds ≡ none → length ds ≤ n
    nth_none n [] k = omega arith
    nth_none zero (d ∷ ds) k = cc
    nth_none (suc n) (d ∷ ds) k = omega (arith, nth_none n ds k)
