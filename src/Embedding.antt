-- ===== src/Embedding.antt =====
-- embeddings/chunk.rs: the texts of a message that are embedded.
pub mod Split
pub mod Fill
pub mod Windows
pub mod Chunks
pub mod Ids
mod Tests
use Prim.Native.String.{◌++◌, count}
use mathlib.Core.Option.{map}
use vivi_mail.Common.{
  ℕ, zero, suc, ◌+◌, ◌-◌, min, String, List, [], ◌∷◌, ◌++◌ as ◌⧺◌, Option, none, some, Bool, true,
  false, not, ◌&&◌, leb, ltb, nat_eq, if◌then◌else◌, length, take, drop, is_empty, trim, format,
  decimal, Result, ok, err, ◌>>=◌,
}
use vivi_mail.Common.Words.{push, join, split_whitespace}
use Prim.Native.Char.{Char}

abbrev pub message_prefix_chars : ℕ
message_prefix_chars = 2048

abbrev pub body_chunk_words : ℕ
body_chunk_words = 600

abbrev pub body_chunk_overlap : ℕ
body_chunk_overlap = 75

abbrev pub max_embed_input_chars : ℕ
max_embed_input_chars = 1000

-- The two variables of the loops that split: the parts so far, and the text of the next one.
pub record Pieces : Type 0 where
  pub parts : List String
  pub current : String

abbrev pub no_pieces : Pieces
no_pieces = record { parts = []; current = "" }

-- `parts.push(std::mem::take(&mut current))`
abbrev pub take_current : Pieces → Pieces
take_current p = record { parts = p.parts ⧺ (p.current ∷ []); current = "" }

-- `if !current.is_empty() { parts.push(current) }`
abbrev pub flush : Pieces → Pieces
flush p = if is_empty p.current then p else take_current p

-- The body of the loop of `split_word`.
abbrev cut_when_full : Pieces → Pieces
cut_when_full p = if leb max_embed_input_chars (count p.current) then take_current p else p

abbrev push_char : Pieces → Char → Pieces
push_char p c = cut_when_full (record p { current = push p.current c })

unfoldable pub push_chars : Pieces → String → Pieces
push_chars p String.[] = p
push_chars p (String.◌∷◌ c s) = push_chars (push_char p c) s

unfoldable pub split_word : String → List String
unfolding push_chars
split_word word =
    if leb (count word) max_embed_input_chars
    then word ∷ []
    else (flush (push_chars no_pieces word)).parts

-- `flat_map(split_word)` over the words.
unfoldable pub split_each : List String → List String
unfolding split_word
split_each [] = []
split_each (word ∷ words) = split_word word ⧺ split_each words

unfoldable pub split_oversized_words : String → String
unfolding split_each
split_oversized_words text = join " " (split_each (split_whitespace text))

-- The body of the loop of `split_long_text`.
abbrev separator : String → ℕ
separator current = if is_empty current then 0 else 1

abbrev make_room : Pieces → String → Pieces
make_room p word =
    if not (is_empty p.current)
      && ltb max_embed_input_chars (count p.current + separator p.current + count word)
    then take_current p
    else p

abbrev append_word : Pieces → String → Pieces
append_word p word = record p {
  current = if is_empty p.current then word else p.current ++ (" " ++ word);
}

abbrev with_parts : Pieces → List String → Pieces
with_parts p parts = record p { parts = p.parts ⧺ parts }

unfoldable pub add_word : Pieces → String → Pieces
unfolding split_word
add_word p word =
    if ltb max_embed_input_chars (count word)
    then with_parts (flush p) (split_word word)
    else append_word (make_room p word) word

unfoldable pub add_words : Pieces → List String → Pieces
unfolding add_word
add_words p [] = p
add_words p (word ∷ words) = add_words (add_word p word) words

unfoldable pub split_long_text : String → List String
unfolding add_words
split_long_text text =
    if leb (count text) max_embed_input_chars
    then text ∷ []
    else (flush (add_words no_pieces (split_whitespace text))).parts

-- `words[start..end]`
abbrev pub slice : ℕ → ℕ → List String → List String
slice start end words = take (end - start) (drop start words)

abbrev pub window_end : ℕ → List String → ℕ
window_end start words = min (start + body_chunk_words) (length words)

-- The windows of the loop of `body_chunks` from `start`, on fuel.
unfoldable pub window_loop : ℕ → ℕ → List String → Option (List (List String))
window_loop zero start words = none
window_loop (suc fuel) start words =
    let end = window_end start words in
    let rest = window_loop fuel (end - body_chunk_overlap) words in
    if ltb start (length words)
    then if nat_eq end (length words)
      then some (slice start end words ∷ [])
      else map (◌∷◌ (slice start end words)) rest
    else some []

-- `chunks.extend(split_long_text(&words[start..end].join(" ")))` for each window.
unfoldable pub extend_chunks : List (List String) → List String
unfolding split_long_text
extend_chunks [] = []
extend_chunks (window ∷ windows) = split_long_text (join " " window) ⧺ extend_chunks windows

unfoldable pub body_chunks : String → Option (List String)
unfolding window_loop extend_chunks
body_chunks body =
    let words = split_whitespace body in
    map extend_chunks (window_loop (suc (length words)) 0 words)

-- email_index.rs: a message of the index, without the fields that embeddings do not read.
pub record IndexedMessage : Type 0 where
  pub account : String
  pub message_id : String
  pub content_id : String
  pub date : String
  pub from_addr : String
  pub to_addr : String
  pub cc_addr : String
  pub subject : String

pub record EmailChunk : Type 0 where
  pub chunk_id : String
  pub account : String
  pub message_id : String
  pub content_id : String
  pub extractor_version : String
  pub chunker_version : String
  pub chunk_kind : String
  pub chunk_ordinal : ℕ
  pub text_hash : String
  pub token_count : ℕ
  pub text : String

-- `chars().take(n).collect()`
abbrev pub take_chars : ℕ → String → String
take_chars zero s = ""
take_chars (suc n) String.[] = ""
take_chars (suc n) (String.◌∷◌ c s) = String.◌∷◌ c (take_chars n s)

unfoldable pub truncate_to_chars : String → ℕ → String
truncate_to_chars text max_chars =
    if leb (count text) max_chars then text else take_chars max_chars text

unfoldable pub message_level_text : IndexedMessage → String → String
message_level_text message body = format (
    "Subject: "
    ∷ message.subject
    ∷ "\nFrom: "
    ∷ message.from_addr
    ∷ "\nTo: "
    ∷ message.to_addr
    ∷ "\nCc: "
    ∷ message.cc_addr
    ∷ "\nDate: "
    ∷ message.date
    ∷ "\n\n"
    ∷ take_chars message_prefix_chars body
    ∷ [])

-- What the chunk's hash is taken of.
unfoldable pub chunk_key : IndexedMessage → String → ℕ → String
unfolding decimal
chunk_key message kind ordinal = format (
    message.account
    ∷ ":"
    ∷ message.message_id
    ∷ ":"
    ∷ message.content_id
    ∷ ":"
    ∷ "extract-v1"
    ∷ ":"
    ∷ "email-chunker-v1"
    ∷ ":"
    ∷ kind
    ∷ ":"
    ∷ decimal ordinal
    ∷ [])

-- The hash of a text as hexadecimal digits, and the text of a message's body.
pub record Texts {ℓ} (Data : Type ℓ) : Type ℓ where
  pub hash_hex : String → String
  pub extract_text : Data → Result String

module _ {ℓ} {Data : Type ℓ} (texts : Texts Data) where
  unfoldable pub chunk : IndexedMessage → String → ℕ → String → EmailChunk
  unfolding chunk_key
  chunk message kind ordinal text = record {
    chunk_id = texts.hash_hex (chunk_key message kind ordinal);
    account = message.account;
    message_id = message.message_id;
    content_id = message.content_id;
    extractor_version = "extract-v1";
    chunker_version = "email-chunker-v1";
    chunk_kind = kind;
    chunk_ordinal = ordinal;
    text_hash = texts.hash_hex text;
    token_count = length (split_whitespace text);
    text = text;
  }

  -- The loop over the body's texts, from an ordinal on: the blank ones are passed over.
  unfoldable pub number_chunks : IndexedMessage → ℕ → List String → List EmailChunk
  unfolding chunk
  number_chunks message ordinal [] = []
  number_chunks message ordinal (text ∷ rest) =
      let chunks = number_chunks message (suc ordinal) rest in
      if not (is_empty (trim text)) then chunk message "body" ordinal text ∷ chunks else chunks

  unfoldable pub message_chunks : IndexedMessage → String → List String → List EmailChunk
  unfolding number_chunks message_level_text truncate_to_chars
  message_chunks message body texts =
      chunk message "message" 0
        (truncate_to_chars (message_level_text message body) max_embed_input_chars)
      ∷ number_chunks message 0 texts

  -- None where the fuel of the loop over the windows runs out.
  unfoldable pub chunks_for_message : IndexedMessage → Data → Result (Option (List EmailChunk))
  unfolding message_chunks body_chunks split_oversized_words
  chunks_for_message message eml = do
    extracted ← texts.extract_text eml
    ok (
        map (message_chunks message (split_oversized_words extracted))
          (body_chunks (split_oversized_words extracted)))
