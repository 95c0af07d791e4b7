-- ===== src/Embedding/Ids.antt =====
-- embeddings/chunk.rs: the chunks of a message, their sizes and their identifiers.
use Prim.Native.String.{◌++◌, count, char_at}
use Prim.Native.String.count
use Prim.Native.Char.{code}
use text.Mathlib.TextLemmas.{append_cancel_left, append-nil, cons-append}
use vivi_mail.Common.{
  ℕ, zero, suc, ◌≤◌, String, List, [], ◌∷◌, some, ◌≡◌, ◌≢◌, refl, sym, ap, ◌∙◌, inl, inr, arith,
  All, Bool-cases, ok, leb, is_empty, trim, decimal,
}
use vivi_mail.Duration.RoundTrip.{decimal-injective}
use vivi_mail.Embedding.{
  max_embed_input_chars, take_chars, truncate_to_chars, message_level_text, IndexedMessage,
  EmailChunk, Texts, chunk_key, chunk, number_chunks, message_chunks, chunks_for_message,
  split_oversized_words,
}
use vivi_mail.Embedding.Fill.{IsShort}
use vivi_mail.Embedding.Chunks.{IsChunked, body_chunks-IsChunked}

count-take_chars : (n : ℕ) (s : String) → count (take_chars n s) ≤ n
count-take_chars zero s = omega (arith, count.nil)
count-take_chars (suc n) String.[] = omega (arith, count.nil)
count-take_chars (suc n) (String.◌∷◌ c s) =
    omega (arith, count.cons c (take_chars n s), count-take_chars n s)

count-truncate_to_chars : (s : String) (n : ℕ) → count (truncate_to_chars s n) ≤ n
unfolding truncate_to_chars
count-truncate_to_chars s n = elim (Bool-cases (leb (count s) n)) [
  | inl e ↦ rw e (ground arith)
  | inr e ↦ rw e (count-take_chars n s)
]

-- The part of a key before the kind, and the keys that agree.
key_head : IndexedMessage → String → String
key_head m rest =
    m.account
    ++ (":"
        ++ (m.message_id
            ++ (":"
                ++ (m.content_id
                    ++ (":" ++ ("extract-v1" ++ (":" ++ ("email-chunker-v1" ++ (":" ++ rest)))))))))

key_head-injective : (m : IndexedMessage) (s t : String) → key_head m s ≡ key_head m t → s ≡ t
unfolding key_head
key_head-injective m s t e = append_cancel_left ":" s t (
    append_cancel_left "email-chunker-v1" _ _ (
      append_cancel_left ":" _ _ (
        append_cancel_left "extract-v1" _ _ (
          append_cancel_left ":" _ _ (
            append_cancel_left m.content_id _ _ (
              append_cancel_left ":" _ _ (
                append_cancel_left m.message_id _ _
                  (append_cancel_left ":" _ _ (append_cancel_left m.account _ _ e)))))))))

body_key-injective :
    (m : IndexedMessage) (j k : ℕ) → chunk_key m "body" j ≡ chunk_key m "body" k → j ≡ k
unfolding chunk_key key_head
body_key-injective m j k e =
    let ordinals =
      append_cancel_left ":" _ _ (append_cancel_left "body" _ _ (key_head-injective m _ _ e)) in
    decimal-injective j k (sym (append-nil (decimal j)) ∙ (ordinals ∙ append-nil (decimal k)))

initial : String → ℕ
initial String.[] = 0
initial (String.◌∷◌ c s) = code c

message_key-ne-body_key :
    (m : IndexedMessage) (k : ℕ) → chunk_key m "message" 0 ≢ chunk_key m "body" k
unfolding chunk_key key_head initial
message_key-ne-body_key m k e =
    let rest =
      key_head-injective m ("message" ++ (":" ++ (decimal 0 ++ "")))
        ("body" ++ (":" ++ (decimal k ++ ""))) e in
    let same = ap initial rest in
    let m_first = ap initial (cons-append (char_at "m" 0) "essage" (":" ++ (decimal 0 ++ ""))) in
    let b_first = ap initial (cons-append (char_at "b" 0) "ody" (":" ++ (decimal k ++ ""))) in
    absurd (omega (arith, same, m_first, b_first))

-- The key of a chunk, which its identifier is the hash of.
abbrev pub key_of : IndexedMessage → EmailChunk → String
key_of m c = chunk_key m c.chunk_kind c.chunk_ordinal

abbrev pub Differs : IndexedMessage → EmailChunk → EmailChunk → Type 0
Differs m c d = key_of m c ≢ key_of m d

-- No two chunks have the same key.
abbrev pub DistinctKeys : IndexedMessage → List EmailChunk → Type 0
DistinctKeys m [] = Unit
DistinctKeys m (c ∷ cs) = All (Differs m c) cs × DistinctKeys m cs

-- A chunk of the body whose ordinal is at least `n`.
IsFrom : IndexedMessage → ℕ → EmailChunk → Type 0
IsFrom m n c = (k : ℕ) × (n ≤ k) × (key_of m c ≡ chunk_key m "body" k)

unlike_later :
    (m : IndexedMessage) (n : ℕ) (c : EmailChunk)
    → ((k : ℕ) → n ≤ k → key_of m c ≢ chunk_key m "body" k)
    → (cs : List EmailChunk) → All (IsFrom m n) cs
    → All (Differs m c) cs
unfolding IsFrom
unlike_later m n c new [] h = tt
unlike_later m n c new (d ∷ cs) h =
    (λ same. new h.0.0 h.0.1 (same ∙ h.0.2), unlike_later m n c new cs h.1)

module _ {ℓ} {Data : Type ℓ} (texts : Texts Data) (m : IndexedMessage) where
  abbrev pub IsNamed : EmailChunk → Type 0
  IsNamed c = c.chunk_id ≡ texts.hash_hex (key_of m c)

  weaken : (n : ℕ) (cs : List EmailChunk) → All (IsFrom m (suc n)) cs → All (IsFrom m n) cs
  unfolding IsFrom
  weaken n [] h = tt
  weaken n (c ∷ cs) h = ((h.0.0, omega (arith, h.0.1), h.0.2), weaken n cs h.1)

  number_chunks-IsFrom : (n : ℕ) (ts : List String) → All (IsFrom m n) (number_chunks texts m n ts)
  unfolding number_chunks chunk IsFrom
  number_chunks-IsFrom n [] = tt
  number_chunks-IsFrom n (t ∷ ts) =
      let later = weaken n (number_chunks texts m (suc n) ts) (number_chunks-IsFrom (suc n) ts) in
      elim (Bool-cases (is_empty (trim t))) [
        | inl e ↦ rw e later
        | inr e ↦ rw e ((n, omega arith, refl), later)
      ]

  -- Short texts, and identifiers that are the hashes of the keys.
  number_chunks-All :
      (n : ℕ) (ts : List String)
      → All IsShort ts
      → All (λ (c : EmailChunk). IsShort c.text × IsNamed c) (number_chunks texts m n ts)
  unfolding number_chunks chunk
  number_chunks-All n [] h = tt
  number_chunks-All n (t ∷ ts) h = elim (Bool-cases (is_empty (trim t))) [
    | inl e ↦ rw e (number_chunks-All (suc n) ts h.1)
    | inr e ↦ rw e ((h.0, refl), number_chunks-All (suc n) ts h.1)
  ]

  number_chunks-DistinctKeys :
      (n : ℕ) (ts : List String) → DistinctKeys m (number_chunks texts m n ts)
  unfolding number_chunks chunk
  number_chunks-DistinctKeys n [] = tt
  number_chunks-DistinctKeys n (t ∷ ts) =
      let later = number_chunks-DistinctKeys (suc n) ts in
      elim (Bool-cases (is_empty (trim t))) [
        | inl e ↦ rw e later
        | inr e ↦ rw e (
          unlike_later m (suc n) (chunk texts m "body" n t)
              (λ k l same. omega (arith, l, body_key-injective m n k same))
              (number_chunks texts m (suc n) ts) (number_chunks-IsFrom (suc n) ts),
          later,
        )
      ]

  -- The chunks of a message whose text can be extracted are made within the loop's fuel: the first
  -- has its headers, the others are about the texts of its body, none has more than 1,000 characters,
  -- each has as its identifier the hash of a key of the message, its kind and its ordinal, and no two
  -- have the same key.
  pub chunks_for_message-lem :
      (eml : Data) (body : String)
      → texts.extract_text eml ≡ ok body
      → (parts : List String) × (chunks : List EmailChunk) × (chunks_for_message texts m eml
          ≡ ok (some chunks))
        × IsChunked body parts
        × (chunks ≡ message_chunks texts m (split_oversized_words body) parts)
        × All (λ (c : EmailChunk). IsShort c.text × IsNamed c) chunks
        × DistinctKeys m chunks
  unfolding chunks_for_message message_chunks chunk
  chunks_for_message-lem eml body e =
      let (parts, r, c) = body_chunks-IsChunked body in
      let text = message_level_text m (split_oversized_words body) in
      let first = chunk texts m "message" 0 (truncate_to_chars text max_embed_input_chars) in
      (
        parts,
        message_chunks texts m (split_oversized_words body) parts,
        rw e (rw r refl),
        c,
        refl,
        (
          (count-truncate_to_chars text max_embed_input_chars, refl),
          number_chunks-All 0 parts c.short,
        ),
        (
          unlike_later m 0 first (λ k l. message_key-ne-body_key m k)
              (number_chunks texts m 0 parts) (number_chunks-IsFrom 0 parts),
          number_chunks-DistinctKeys 0 parts,
        ),
      )
