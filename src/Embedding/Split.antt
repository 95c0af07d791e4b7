-- ===== src/Embedding/Split.antt =====
-- embeddings/chunk.rs: the pieces that `split_word` and `split_long_text` cut a text into.
use Prim.Native.Char.{Char}
use Prim.Native.String.{◌++◌, count}
use Prim.Native.String.count
use text.Mathlib.TextLemmas.{append_assoc, append-nil, nil-append, cons-append, length-append}
use vivi_mail.Common.{
  ◌+◌, ◌≤◌, ◌<◌, String, List, [], ◌∷◌, ◌++◌ as ◌⧺◌, true, false, ◌≡◌, refl, sym, ap, ◌∙◌, inl, inr,
  arith, All, All-append, is_empty, is_whitespace, leb, Bool-cases,
}
use vivi_mail.Common.Words.{push, concat, is_solid, IsWord}
use vivi_mail.Embedding.{
  Pieces, no_pieces, take_current, flush, cut_when_full, push_char, push_chars, split_word,
  max_embed_input_chars,
}

-- A word that is short enough to embed.
abbrev pub IsPiece : String → Type 0
IsPiece t = IsWord t × (count t ≤ max_embed_input_chars)

pub concat-append : (ss ts : List String) → concat (ss ⧺ ts) ≡ concat ss ++ concat ts
concat-append [] ts = sym (nil-append (concat ts))
concat-append (s ∷ ss) ts =
    ap (λ u. s ++ u) (concat-append ss ts) ∙ sym (append_assoc s (concat ss) (concat ts))

-- The text that a loop has read so far.
abbrev content : Pieces → String
content p = concat p.parts ++ p.current

take_current-content : (p : Pieces) → content (take_current p) ≡ content p
take_current-content p =
    append-nil (concat (p.parts ⧺ (p.current ∷ [])))
    ∙ (concat-append p.parts (p.current ∷ [])
        ∙ ap (λ u. concat p.parts ++ u) (append-nil p.current))

cut_when_full-content : (p : Pieces) → content (cut_when_full p) ≡ content p
cut_when_full-content p = elim (Bool-cases (leb max_embed_input_chars (count p.current))) [
  | inl e ↦ rw e (take_current-content p)
  | inr e ↦ rw e refl
]

push_chars-content : (p : Pieces) (s : String) → content (push_chars p s) ≡ content p ++ s
unfolding push_chars
push_chars-content p String.[] = sym (append-nil (content p))
push_chars-content p (String.◌∷◌ c s) =
    push_chars-content (push_char p c) s
    ∙ (ap (λ u. u ++ s) (cut_when_full-content (record p { current = push p.current c }))
        ∙ (ap (λ u. u ++ s) (sym (append_assoc (concat p.parts) p.current (String.◌∷◌ c "")))
            ∙ (append_assoc (content p) (String.◌∷◌ c "") s
                ∙ ap (λ u. content p ++ u)
                    (cons-append c "" s ∙ ap (String.◌∷◌ c) (nil-append s)))))

pub nil_of_empty : (s : String) → is_empty s ≡ true → s ≡ ""
nil_of_empty String.[] h = refl
nil_of_empty (String.◌∷◌ c s) h = cc

flush-content : (p : Pieces) → concat (flush p).parts ≡ content p
flush-content p = elim (Bool-cases (is_empty p.current)) [
  | inl e ↦ rw e (
      sym (append-nil (concat p.parts))
      ∙ ap (λ u. concat p.parts ++ u) (sym (nil_of_empty p.current e)))
  | inr e ↦ rw e (sym (append-nil (concat (p.parts ⧺ (p.current ∷ [])))) ∙ take_current-content p)
]

split_word-concat : (word : String) → concat (split_word word) ≡ word
unfolding split_word
split_word-concat word = elim (Bool-cases (leb (count word) max_embed_input_chars)) [
  | inl e ↦ rw e (append-nil word)
  | inr e ↦ rw e (
      flush-content (push_chars no_pieces word)
      ∙ (push_chars-content no_pieces word
          ∙ (ap (λ u. u ++ word) (nil-append "") ∙ nil-append word)))
]

-- The state of the loop of `split_word`: pieces, and a shorter text without blanks.
record IsCut (p : Pieces) : Type 0 where
  parts : All IsPiece p.parts
  solid : is_solid p.current ≡ true
  short : count p.current < max_embed_input_chars

push-solid :
    (s : String) (c : Char)
    → is_solid s ≡ true
    → is_whitespace c ≡ false
    → is_solid (push s c) ≡ true
push-solid String.[] c h k = rw (nil-append (String.◌∷◌ c "")) (rw k refl)
push-solid (String.◌∷◌ d s) c h k = elim (Bool-cases (is_whitespace d)) [
  | inl e ↦ absurd (ground arith)
  | inr e ↦ rw (cons-append d s (String.◌∷◌ c "")) (rw e (push-solid s c (ground arith) k))
]

push-not_empty : (s : String) (c : Char) → is_empty (push s c) ≡ false
push-not_empty String.[] c = rw (nil-append (String.◌∷◌ c "")) refl
push-not_empty (String.◌∷◌ d s) c = rw (cons-append d s (String.◌∷◌ c "")) refl

count-push : (s : String) (c : Char) → count (push s c) ≡ count s + 1
count-push s c = omega (arith, length-append s (String.◌∷◌ c ""), count.cons c "", count.nil)

push_char-IsCut :
    (p : Pieces) (c : Char) → is_whitespace c ≡ false → IsCut p → IsCut (push_char p c)
push_char-IsCut p c k h =
    let solid : is_solid (push p.current c) ≡ true = push-solid p.current c h.solid k in
    elim (Bool-cases (leb max_embed_input_chars (count (push p.current c)))) [
      | inl e ↦ rw e (record {
        parts = All-append IsPiece p.parts (push p.current c ∷ []) h.parts (
          ((push-not_empty p.current c, solid), omega (arith, count-push p.current c, h.short)),
          tt,
        );
        solid = refl;
        short = omega (arith, count.nil);
      })
      | inr e ↦ rw e (record { parts = h.parts; solid = solid; short = ground arith })
    ]

push_chars-IsCut : (p : Pieces) (s : String) → is_solid s ≡ true → IsCut p → IsCut (push_chars p s)
unfolding push_chars
push_chars-IsCut p String.[] k h = h
push_chars-IsCut p (String.◌∷◌ c s) k h = elim (Bool-cases (is_whitespace c)) [
  | inl e ↦ absurd (ground arith)
  | inr e ↦ push_chars-IsCut (push_char p c) s (ground arith) (push_char-IsCut p c e h)
]

flush-IsCut : (p : Pieces) → IsCut p → All IsPiece (flush p).parts
flush-IsCut p h = elim (Bool-cases (is_empty p.current)) [
  | inl e ↦ rw e h.parts
  | inr e ↦ rw e (
      All-append IsPiece p.parts (p.current ∷ []) h.parts
        (((e, h.solid), omega (arith, h.short)), tt))
]

-- A word is cut into words of at most 1,000 characters that spell it again, one after the other.
pub split_word-lem :
    (word : String)
    → IsWord word
    → (concat (split_word word) ≡ word) × All IsPiece (split_word word)
unfolding split_word
split_word-lem word h = (
  split_word-concat word,
  elim (Bool-cases (leb (count word) max_embed_input_chars)) [
    | inl e ↦ rw e ((h, ground arith), tt)
    | inr e ↦ rw e (
        flush-IsCut (push_chars no_pieces word) (
          push_chars-IsCut no_pieces word h.1
            (record { parts = tt; solid = refl; short = omega (arith, count.nil) })))
  ],
)
