-- ===== src/Embedding/Fill.antt =====
-- embeddings/chunk.rs: the texts that `split_long_text` fills with words.
use Prim.Native.String.{◌++◌, count}
use Prim.Native.String.count
use text.Mathlib.TextLemmas.{length-append}
use mathlib.Core.List.{append-nil, append_assoc}
use vivi_mail.Common.{
  ◌+◌, ◌≤◌, String, List, [], ◌∷◌, ◌++◌ as ◌⧺◌, Bool, true, not, ◌&&◌, ◌||◌, ◌≡◌, refl, sym, ap,
  ◌∙◌, inl, inr, arith, All, All-append, is_empty, leb, ltb, Bool-cases,
}
use vivi_mail.Common.Words.{
  split_whitespace, IsWord, split_whitespace-append, split_whitespace-word, no_words, join,
  split_whitespace-join,
}
use vivi_mail.Embedding.{
  Pieces, no_pieces, take_current, flush, make_room, append_word, add_word, add_words, separator,
  split_long_text, max_embed_input_chars,
}
use vivi_mail.Embedding.Split.{IsPiece, nil_of_empty}

abbrev pub IsShort : String → Type 0
IsShort t = count t ≤ max_embed_input_chars

-- The words of some texts, in order.
abbrev pub words_of : List String → List String
words_of [] = []
words_of (t ∷ ts) = split_whitespace t ⧺ words_of ts

pub words_of-append : (ss ts : List String) → words_of (ss ⧺ ts) ≡ words_of ss ⧺ words_of ts
words_of-append [] ts = refl
words_of-append (s ∷ ss) ts =
    ap (λ u. split_whitespace s ⧺ u) (words_of-append ss ts)
    ∙ sym (append_assoc (split_whitespace s) (words_of ss) (words_of ts))

abbrev words_in : Pieces → List String
words_in p = words_of p.parts ⧺ split_whitespace p.current

-- The state of the loop after some words.
record Holds (read : List String) (p : Pieces) : Type 0 where
  parts : All IsShort p.parts
  current : IsShort p.current
  words : words_in p ≡ read

take_current-Holds : (read : List String) (p : Pieces) → Holds read p → Holds read (take_current p)
take_current-Holds read p h = record {
  parts = All-append IsShort p.parts (p.current ∷ []) h.parts (h.current, tt);
  current = omega (arith, count.nil);
  words =
      ap (λ u. words_of (p.parts ⧺ (p.current ∷ [])) ⧺ u) no_words
      ∙ (append-nil _
          ∙ (words_of-append p.parts (p.current ∷ [])
              ∙ (ap (λ u. words_of p.parts ⧺ u) (append-nil _) ∙ h.words)));
}

flush-Holds :
    (read : List String) (p : Pieces)
    → Holds read p
    → All IsShort (flush p).parts × (words_of (flush p).parts ≡ read)
flush-Holds read p h = elim (Bool-cases (is_empty p.current)) [
  | inl e ↦ rw e (
    h.parts,
    sym (append-nil _)
        ∙ (ap (λ u. words_of p.parts ⧺ u)
              (sym no_words ∙ ap split_whitespace (sym (nil_of_empty p.current e)))
            ∙ h.words),
  )
  | inr e ↦
      let t = take_current-Holds read p h in
      rw e (
        t.parts,
        sym (append-nil _)
            ∙ (ap (λ u. words_of (p.parts ⧺ (p.current ∷ [])) ⧺ u) (sym no_words) ∙ t.words),
      )
]

-- Either the word begins a text or it fits behind the one that there is.
abbrev fits : Pieces → String → Bool
fits p word = is_empty p.current || leb (count p.current + 1 + count word) max_embed_input_chars

append_word-Holds :
    (read : List String) (p : Pieces) (word : String)
    → IsPiece word
    → fits p word ≡ true
    → Holds read p
    → Holds (read ⧺ (word ∷ [])) (append_word p word)
append_word-Holds read p word w f h = elim (Bool-cases (is_empty p.current)) [
  | inl e ↦ rw e (record {
    parts = h.parts;
    current = w.1;
    words =
        ap (λ u. words_of p.parts ⧺ u) (split_whitespace-word word w.0)
        ∙ ap (λ u. u ⧺ (word ∷ []))
            (sym (append-nil _)
              ∙ (ap (λ u. words_of p.parts ⧺ u)
                    (sym no_words ∙ ap split_whitespace (sym (nil_of_empty p.current e)))
                  ∙ h.words));
  })
  | inr e ↦ rw e (record {
    parts = h.parts;
    current = ground (arith, length-append p.current (" " ++ word), length-append " " word, f);
    words =
        ap (λ u. words_of p.parts ⧺ u)
          (split_whitespace-append p.current word
            ∙ ap (λ u. split_whitespace p.current ⧺ u) (split_whitespace-word word w.0))
        ∙ (sym (append_assoc (words_of p.parts) (split_whitespace p.current) (word ∷ []))
            ∙ ap (λ u. u ⧺ (word ∷ [])) h.words);
  })
]

make_room-Holds :
    (read : List String) (p : Pieces) (word : String)
    → Holds read p
    → (fits (make_room p word) word ≡ true) × Holds read (make_room p word)
make_room-Holds read p word h =
    elim (Bool-cases (
      not (is_empty p.current)
      && ltb max_embed_input_chars (count p.current + separator p.current + count word))) [
        | inl e ↦ rw e (refl, take_current-Holds read p h)
        | inr e ↦ rw e (ground arith, h)
      ]

add_word-Holds :
    (read : List String) (p : Pieces) (word : String)
    → IsPiece word
    → Holds read p
    → Holds (read ⧺ (word ∷ [])) (add_word p word)
unfolding add_word
add_word-Holds read p word w h = elim (Bool-cases (ltb max_embed_input_chars (count word))) [
  | inl e ↦ absurd (ground (arith, w.1))
  | inr e ↦
      let room = make_room-Holds read p word h in
      rw e (append_word-Holds read (make_room p word) word w room.0 room.1)
]

add_words-Holds :
    (read : List String) (p : Pieces) (words : List String)
    → All IsPiece words
    → Holds read p
    → Holds (read ⧺ words) (add_words p words)
unfolding add_words
add_words-Holds read p [] ws h = rw (append-nil read) h
add_words-Holds read p (word ∷ words) ws h = rw (sym (append_assoc read (word ∷ []) words)) (
    add_words-Holds (read ⧺ (word ∷ [])) (add_word p word) words ws.1
      (add_word-Holds read p word ws.0 h))

-- A text of words that are short enough is split into texts of at most 1,000 characters that have
-- its words, in order.
pub split_long_text-lem :
    (words : List String)
    → All IsPiece words
    → All IsShort (split_long_text (join " " words))
      × (words_of (split_long_text (join " " words)) ≡ words)
unfolding split_long_text
split_long_text-lem words h =
    elim (Bool-cases (leb (count (join " " words)) max_embed_input_chars)) [
      | inl e ↦
          rw e
            ((ground arith, tt), append-nil _ ∙ split_whitespace-join words (words_IsWord words h))
      | inr e ↦ rw e (
          rw (split_whitespace-join words (words_IsWord words h)) (
            flush-Holds words _ (
              add_words-Holds [] no_pieces words h
                (record { parts = tt; current = omega (arith, count.nil); words = no_words }))))
    ]
  where
    words_IsWord : (ws : List String) → All IsPiece ws → All IsWord ws
    words_IsWord [] k = tt
    words_IsWord (w ∷ ws) k = (k.0.0, words_IsWord ws k.1)
