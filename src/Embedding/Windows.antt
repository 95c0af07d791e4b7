-- ===== src/Embedding/Windows.antt =====
-- embeddings/chunk.rs: the windows over the words of a body.
use mathlib.Core.List.{append-nil}
use native.Mathlib.Numerals.{unary_clauses}
use vivi_mail.Common.{
  ℕ, zero, suc, ◌+◌, ◌-◌, ◌≤◌, ◌<◌, String, List, [], ◌∷◌, ◌++◌, some, ◌≡◌, refl, sym, ap, ◌∙◌,
  subst, inl, inr, arith, All, length, take, drop, length-take, take-all, length-drop,
  take-append-drop, nat_eq, Bool-cases,
}
use vivi_mail.Embedding.{slice, window_end, window_loop, body_chunk_words, body_chunk_overlap}

module _ {A : Type 0} where
  drop-drop : (m n : ℕ) (xs : List A) → drop m (drop n xs) ≡ drop (n + m) xs
  drop-drop m zero xs = let e : m ≡ 0 + m = omega arith in ap (λ k. drop k xs) e
  drop-drop zero (suc n) [] = simp unary_clauses refl
  drop-drop (suc m) (suc n) [] = simp unary_clauses refl
  drop-drop m (suc n) (x ∷ xs) =
      let e : suc (n + m) ≡ suc n + m = omega arith in
      drop-drop m n xs ∙ ap (λ k. drop k (x ∷ xs)) e

  drop-take : (m n : ℕ) (xs : List A) → drop m (take (m + n) xs) ≡ take n (drop m xs)
  drop-take zero n xs = let e : 0 + n ≡ n = omega arith in ap (λ k. take k xs) e
  drop-take (suc m) zero [] = simp unary_clauses refl
  drop-take (suc m) (suc n) [] = simp unary_clauses refl
  drop-take (suc m) n (x ∷ xs) =
      let e : suc m + n ≡ suc (m + n) = omega arith in
      ap (λ k. drop (suc m) (take k (x ∷ xs))) e ∙ drop-take m n xs

  take-take : (m n : ℕ) (xs : List A) → m ≤ n → take m (take n xs) ≡ take m xs
  take-take zero n xs h = refl
  take-take (suc m) zero xs h = absurd (omega (arith, h))
  take-take (suc m) (suc n) [] h = refl
  take-take (suc m) (suc n) (x ∷ xs) h = ap (◌∷◌ x) (take-take m n xs (omega (arith, h)))

  drop-append : (n : ℕ) (xs ys : List A) → n ≤ length xs → drop n (xs ++ ys) ≡ drop n xs ++ ys
  drop-append zero xs ys h = refl
  drop-append (suc n) [] ys h = absurd (omega (arith, h))
  drop-append (suc n) (x ∷ xs) ys h = drop-append n xs ys (omega (arith, h))

-- The words of windows without the first words of each, which the window before it has.
abbrev pub new_words : List (List String) → List String
new_words [] = []
new_words (w ∷ ws) = drop body_chunk_overlap w ++ new_words ws

-- The words of the first window, and then what each other one adds.
abbrev pub stitched : List (List String) → List String
stitched [] = []
stitched (w ∷ ws) = w ++ new_words ws

abbrev IsOverlap : List String → List (List String) → Type 0
IsOverlap w [] = Unit
IsOverlap w (v ∷ ws) = drop (body_chunk_words - body_chunk_overlap) w ≡ take body_chunk_overlap v

-- Each window ends with the words that the next one begins with.
abbrev pub Overlapping : List (List String) → Type 0
Overlapping [] = Unit
Overlapping (w ∷ ws) = IsOverlap w ws × Overlapping ws

abbrev pub IsWindow : List String → Type 0
IsWindow w = (1 ≤ length w) × (length w ≤ body_chunk_words)

-- What the loop makes of the words that are left.
pub record Windows (words : List String) (ws : List (List String)) : Type 0 where
  pub stitched_words : stitched ws ≡ words
  pub windows : All IsWindow ws
  pub overlapping : Overlapping ws

-- With more words than the overlap, the second window can be attached.
record Attachable (words : List String) (ws : List (List String)) : Type 0 where
  made : Windows words ws
  added : body_chunk_overlap ≤ length words → new_words ws ≡ drop body_chunk_overlap words
  before :
      (w : List String)
      → body_chunk_overlap ≤ length words
      → drop (body_chunk_words - body_chunk_overlap) w ≡ take body_chunk_overlap words
      → IsOverlap w ws

-- The last window: all words that are left.
last_window :
    (words : List String)
    → 1 ≤ length words
    → length words ≤ body_chunk_words
    → Attachable words (words ∷ [])
last_window words l h = record {
  made = record {
    stitched_words = append-nil words;
    windows = ((l, h), tt);
    overlapping = (tt, tt);
  };
  added = λ k. append-nil (drop body_chunk_overlap words);
  before = λ w k e. e;
}

-- A full window before the others.
full_window :
    (words : List String) (ws : List (List String))
    → body_chunk_words < length words
    → Attachable (drop (body_chunk_words - body_chunk_overlap) words) ws
    → Attachable words (take body_chunk_words words ∷ ws)
full_window words ws l h =
    let size = length-take body_chunk_words words in
    let left = length-drop (body_chunk_words - body_chunk_overlap) words in
    let rest : new_words ws ≡ drop body_chunk_words words =
      h.added (omega (arith, left, l))
      ∙ drop-drop body_chunk_overlap (body_chunk_words - body_chunk_overlap) words in
    let whole : stitched (take body_chunk_words words ∷ ws) ≡ words =
      ap (λ u. take body_chunk_words words ++ u) rest ∙ take-append-drop body_chunk_words words in
    record {
      made = record {
        stitched_words = whole;
        windows = ((omega (arith, size, l), omega (arith, size)), h.made.windows);
        overlapping = (
          h.before (take body_chunk_words words) (omega (arith, left, l))
              (drop-take (body_chunk_words - body_chunk_overlap) body_chunk_overlap words),
          h.made.overlapping,
        );
      };
      added = λ k.
          sym (
            drop-append body_chunk_overlap (take body_chunk_words words) (new_words ws)
              (omega (arith, size, l)))
          ∙ ap (drop body_chunk_overlap) whole;
      before = λ w k e. e ∙ sym (take-take body_chunk_overlap body_chunk_words words (omega arith));
    }

Made : ℕ → ℕ → List String → Type 0
Made fuel start words =
    (ws : List (List String)) × (window_loop fuel start words ≡ some ws)
    × Attachable (drop start words) ws

window_loop-Made :
    (fuel start : ℕ) (words : List String)
    → start < length words
    → length words - start < fuel
    → Made fuel start words
unfolding window_loop Made
window_loop-Made zero start words s f = absurd (omega (arith, f))
window_loop-Made (suc fuel) start words s f =
    let left = length-drop start words in
    elim (Bool-cases (nat_eq (window_end start words) (length words))) [
      | inl e ↦
          let short : length (drop start words) ≤ body_chunk_words = ground arith in
          (
            slice start (window_end start words) words ∷ [],
            ground arith,
            subst (λ w. Attachable (drop start words) (w ∷ []))
                (sym (take-all (window_end start words - start) (drop start words) (ground arith)))
                (last_window (drop start words) (ground arith) short),
          )
      | inr e ↦
          let full : window_end start words ≡ start + body_chunk_words = ground arith in
          let width : body_chunk_words ≡ window_end start words - start = ground arith in
          let (ws, r, a) =
            window_loop-Made fuel (window_end start words - body_chunk_overlap) words (ground arith)
              (ground arith) in
          (
            slice start (window_end start words) words ∷ ws,
            ground (arith, r),
            subst (λ n. Attachable (drop start words) (take n (drop start words) ∷ ws)) width
                (full_window (drop start words) ws (ground arith) (
                  subst (λ u. Attachable u ws)
                    (ap (λ n. drop n words) (ground arith)
                      ∙ sym (drop-drop (body_chunk_words - body_chunk_overlap) start words))
                    a)),
          )
    ]

-- The loop over the words of a body ends within the fuel that it is given, one more than there are
-- words. Its windows have 1 to 600 words each; each begins with the last 75 words of the one before
-- it, and without these they are the words of the body in order.
pub window_loop-Windows :
    (words : List String)
    → (ws : List (List String)) × (window_loop (suc (length words)) 0 words ≡ some ws)
      × Windows words ws
unfolding Made window_loop
window_loop-Windows [] =
    ([], refl, record { stitched_words = refl; windows = tt; overlapping = tt })
window_loop-Windows (word ∷ words) =
    let (ws, r, a) =
      window_loop-Made (suc (length (word ∷ words))) 0 (word ∷ words) (omega arith) (omega arith) in
    (ws, r, a.made)
