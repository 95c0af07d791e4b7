-- ===== src/Embedding/Tests.antt =====
-- The chunks of concrete messages, and the instances of the theorems.
use vivi_mail.Common.{String, List, [], ◌∷◌, some, ok, ◌≡◌, refl, All, is_whitespace}
use vivi_mail.Common.Words.{concat, split_whitespace, join}
use vivi_mail.Embedding.{
  split_word, split_oversized_words, window_loop, body_chunks, IndexedMessage, EmailChunk, Texts,
  message_chunks, chunks_for_message, split_long_text, truncate_to_chars,
}
use vivi_mail.Embedding.Split.{IsPiece, split_word-lem}
use vivi_mail.Embedding.Fill.{IsShort}
use vivi_mail.Embedding.Chunks.{IsChunked, body_chunks-IsChunked}
use vivi_mail.Embedding.Ids.{IsNamed, DistinctKeys, chunks_for_message-lem}

abbrev a_message : IndexedMessage
a_message = record {
  account = "work";
  message_id = "m1";
  content_id = "c1";
  date = "2026-01-01";
  from_addr = "a@x";
  to_addr = "b@x";
  cc_addr = "";
  subject = "Plans";
}

-- Texts that are their own hashes and bodies.
abbrev plain_texts : Texts String
plain_texts = record { hash_hex = λ s. s; extract_text = λ s. ok s }

body_chunks_run : body_chunks "two  words" ≡ some ("two words" ∷ [])
unfolding body_chunks split_whitespace split_long_text window_loop is_whitespace join
body_chunks_run = refl

truncated_run : truncate_to_chars "abcdef" 4 ≡ "abcd"
unfolding truncate_to_chars
truncated_run = refl

split_word-lem_example : (concat (split_word "word") ≡ "word") × All IsPiece (split_word "word")
unfolding is_whitespace
split_word-lem_example = split_word-lem "word" (refl, refl)

body_chunks-IsChunked_example :
    (texts : List String) × (body_chunks (split_oversized_words " two words") ≡ some texts)
    × IsChunked " two words" texts
body_chunks-IsChunked_example = body_chunks-IsChunked " two words"

chunks_for_message-lem_example :
    (parts : List String) × (chunks : List EmailChunk) × (chunks_for_message plain_texts a_message
        " two words"
      ≡ ok (some chunks))
    × IsChunked " two words" parts
    × (chunks ≡ message_chunks plain_texts a_message (split_oversized_words " two words") parts)
    × All (λ (c : EmailChunk). IsShort c.text × IsNamed plain_texts a_message c) chunks
    × DistinctKeys a_message chunks
chunks_for_message-lem_example =
    chunks_for_message-lem plain_texts a_message " two words" " two words" refl
