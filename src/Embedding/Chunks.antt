-- ===== src/Embedding/Chunks.antt =====
-- embeddings/chunk.rs: the texts and the chunks that a message has.
use Prim.Native.String.{◌++◌ as ◌⧺◌}
use mathlib.Core.Option.{map}
use vivi_mail.Common.{
  ◌-◌, subst, take, drop, take-append-drop, All-drop, All-parts, String, List, [], ◌∷◌, ◌++◌, some,
  ◌≡◌, refl, sym, ap, ◌∙◌, All, All-append,
}
use vivi_mail.Common.Words.{
  concat, split_whitespace, IsWord, split_whitespace-All, split_whitespace-join,
}
use vivi_mail.Embedding.{
  split_word, split_each, split_oversized_words, extend_chunks, body_chunks, body_chunk_words,
  body_chunk_overlap,
}
use vivi_mail.Embedding.Split.{IsPiece, concat-append, split_word-lem}
use vivi_mail.Embedding.Fill.{IsShort, words_of, words_of-append, split_long_text-lem}
use vivi_mail.Embedding.Windows.{Windows, Overlapping, stitched, new_words, window_loop-Windows}

split_each-lem :
    (words : List String)
    → All IsWord words
    → (concat (split_each words) ≡ concat words) × All IsPiece (split_each words)
unfolding split_each
split_each-lem [] h = (refl, tt)
split_each-lem (word ∷ words) h =
    let (text, pieces) = split_word-lem word h.0 in
    let (texts, more) = split_each-lem words h.1 in
    (
      concat-append (split_word word) (split_each words)
          ∙ (ap (λ u. u ⧺ concat (split_each words)) text ∙ ap (λ u. word ⧺ u) texts),
      All-append IsPiece (split_word word) (split_each words) pieces more,
    )

AllWord : (ws : List String) → All IsPiece ws → All IsWord ws
AllWord [] k = tt
AllWord (w ∷ ws) k = (k.0.0, AllWord ws k.1)

-- The text of a body after `split_oversized_words`: words that are short enough, with the
-- characters of the words of the text.
oversized_words :
    (text : String)
    → (concat (split_whitespace (split_oversized_words text)) ≡ concat (split_whitespace text))
      × All IsPiece (split_whitespace (split_oversized_words text))
unfolding split_oversized_words
oversized_words text =
    let (same, pieces) = split_each-lem (split_whitespace text) (split_whitespace-All text) in
    rw (split_whitespace-join (split_each (split_whitespace text)) (AllWord _ pieces))
      (same, pieces)

pub all_words : List (List String) → List String
all_words [] = []
all_words (w ∷ ws) = w ++ all_words ws

extend_chunks-lem :
    (ws : List (List String))
    → All (All IsPiece) ws
    → All IsShort (extend_chunks ws) × (words_of (extend_chunks ws) ≡ all_words ws)
unfolding extend_chunks all_words
extend_chunks-lem [] h = (tt, refl)
extend_chunks-lem (w ∷ ws) h =
    let (short, words) = split_long_text-lem w h.0 in
    let (more, others) = extend_chunks-lem ws h.1 in
    (
      All-append IsShort _ (extend_chunks ws) short more,
      words_of-append _ (extend_chunks ws)
          ∙ (ap (λ u. u ++ words_of (extend_chunks ws)) words ∙ ap (λ u. w ++ u) others),
    )

-- Every window has words of the body only.
windows_All :
    (P : String → Type 0) (ws : List (List String))
    → Overlapping ws
    → All P (stitched ws)
    → All (All P) ws
windows_All P [] o h = tt
windows_All P (w ∷ []) o h = ((All-parts P w [] h).0, tt)
windows_All P (w ∷ v ∷ ws) o h =
    let (hw, hr) = All-parts P w (new_words (v ∷ ws)) h in
    let (added, later) = All-parts P (drop body_chunk_overlap v) (new_words ws) hr in
    let hv = subst (All P) (take-append-drop body_chunk_overlap v) (
      All-append P (take body_chunk_overlap v) (drop body_chunk_overlap v)
        (subst (All P) o.0 (All-drop P (body_chunk_words - body_chunk_overlap) w hw)) added) in
    (hw, windows_All P (v ∷ ws) o.1 (All-append P v (new_words ws) hv later))

-- What the texts of a body are.
pub record IsChunked (text : String) (texts : List String) : Type 0 where
  pub windows : List (List String)
  pub windowed : Windows (split_whitespace (split_oversized_words text)) windows
  pub spelled : concat (stitched windows) ≡ concat (split_whitespace text)
  pub same_words : words_of texts ≡ all_words windows
  pub short : All IsShort texts

-- The loop over the windows of a body ends within its fuel. Its texts have at most 1,000 characters
-- each, and their words are, in order, those of windows of 1 to 600 words; each window begins with
-- the last 75 words of the one before it, and without these the words of the windows spell, in
-- order, the words of the text.
pub body_chunks-IsChunked :
    (text : String)
    → (texts : List String) × (body_chunks (split_oversized_words text) ≡ some texts)
      × IsChunked text texts
unfolding body_chunks
body_chunks-IsChunked text =
    let words = split_whitespace (split_oversized_words text) in
    let (spelled, pieces) = oversized_words text in
    let (ws, r, w) = window_loop-Windows words in
    let (short, same) =
      extend_chunks-lem ws (
        windows_All IsPiece ws w.overlapping (subst (All IsPiece) (sym w.stitched_words) pieces)) in
    (
      extend_chunks ws,
      ap (map extend_chunks) r,
      record {
        windows = ws;
        windowed = w;
        spelled = ap concat w.stitched_words ∙ spelled;
        same_words = same;
        short = short;
      },
    )
