-- ===== src/Common/Words.antt =====
-- Texts by characters and by words: `split_whitespace`, `join`, and the laws of appending.

use Prim.Native.Char.{Char}
use Prim.Native.String.{String, ◌++◌, char_at}
use text.Mathlib.Text.{starts_with}
use text.Mathlib.TextLemmas.{nil-append, cons-append}
use mathlib.Core.Path.{◌≡◌, refl, ap, ◌∙◌}
use mathlib.Core.Bool.{Bool, true, false, ◌||◌}
use mathlib.Core.List.{List, [], ◌∷◌, ◌++◌ as ◌⧺◌}
use native.Mathlib.Omega.{arith}
use mathlib.Core.Logic.{inl, inr}
use vivi_mail.Common.Tests.{if◌then◌else◌, Bool-cases}
use vivi_mail.Common.Lists.{All}
use vivi_mail.Common.Text.{is_whitespace, is_empty}

-- `String::push`
abbrev pub push : String → Char → String
push s c = s ++ String.◌∷◌ c ""

-- `concat` of a sequence of texts
abbrev pub concat : List String → String
concat [] = ""
concat (s ∷ rest) = s ++ concat rest

-- `join` with a separator
unfoldable pub join : String → List String → String
join sep [] = ""
join sep (s ∷ []) = s
join sep (s ∷ t ∷ rest) = s ++ (sep ++ join sep (t ∷ rest))

abbrev pub cons_word : String → List String → List String
cons_word w ws = if is_empty w then ws else w ∷ ws

-- The word that a text begins with, perhaps empty, and the words after it.
abbrev with_char : Char → String × List String → String × List String
with_char c (w, ws) = if is_whitespace c then ("", cons_word w ws) else (String.◌∷◌ c w, ws)

unfoldable pub first_word : String → String × List String
first_word String.[] = ("", [])
first_word (String.◌∷◌ c s) = with_char c (first_word s)

-- `str::split_whitespace`
unfoldable pub split_whitespace : String → List String
unfolding first_word
split_whitespace s = cons_word (first_word s).0 (first_word s).1

split_whitespace_runs : split_whitespace "  two\twords " ≡ "two" ∷ "words" ∷ []
unfolding split_whitespace is_whitespace
split_whitespace_runs = refl

abbrev pub blank : Char
blank = char_at " " 0

-- `str::contains`
unfoldable pub contains : String → String → Bool
contains String.[] needle = starts_with "" needle
contains (String.◌∷◌ c s) needle =
    let later = contains s needle in starts_with (String.◌∷◌ c s) needle || later

-- A text without blanks.
abbrev pub is_solid : String → Bool
is_solid String.[] = true
is_solid (String.◌∷◌ c s) = if is_whitespace c then false else is_solid s

abbrev pub IsWord : String → Type 0
IsWord w = (is_empty w ≡ false) × (is_solid w ≡ true)

with_char_append :
    (c : Char) (w : String) (ws us : List String)
    → with_char c (w, ws ⧺ us) ≡ ((with_char c (w, ws)).0, (with_char c (w, ws)).1 ⧺ us)
with_char_append c String.[] ws us = ground arith
with_char_append c (String.◌∷◌ d w) ws us = ground arith

first_word-blank :
    (s t : String)
    → first_word (s ++ String.◌∷◌ blank t)
      ≡ ((first_word s).0, (first_word s).1 ⧺ split_whitespace t)
unfolding first_word split_whitespace is_whitespace
first_word-blank String.[] t = rw (nil-append (String.◌∷◌ blank t)) refl
first_word-blank (String.◌∷◌ c s) t = rw (cons-append c s (String.◌∷◌ blank t)) (
    ap (with_char c) (first_word-blank s t)
    ∙ with_char_append c (first_word s).0 (first_word s).1 (split_whitespace t))

cons_word_append : (w : String) (ws us : List String) → cons_word w (ws ⧺ us) ≡ cons_word w ws ⧺ us
cons_word_append String.[] ws us = refl
cons_word_append (String.◌∷◌ c w) ws us = refl

-- A blank between two texts splits their words.
pub split_whitespace-append :
    (s t : String) → split_whitespace (s ++ (" " ++ t)) ≡ split_whitespace s ⧺ split_whitespace t
unfolding split_whitespace
split_whitespace-append s t =
    ap (λ u. split_whitespace (s ++ u))
      (cons-append blank "" t ∙ ap (String.◌∷◌ blank) (nil-append t))
    ∙ (ap (λ f. cons_word f.0 f.1) (first_word-blank s t)
        ∙ cons_word_append (first_word s).0 (first_word s).1 (split_whitespace t))

first_word_solid : (w : String) → is_solid w ≡ true → first_word w ≡ (w, [])
unfolding first_word
first_word_solid String.[] h = refl
first_word_solid (String.◌∷◌ c w) h = elim (Bool-cases (is_whitespace c)) [
  | inl e ↦ absurd (ground arith)
  | inr e ↦ ap (with_char c) (first_word_solid w (ground arith)) ∙ rw e refl
]

-- A word is its own only word.
pub split_whitespace-word : (w : String) → IsWord w → split_whitespace w ≡ w ∷ []
unfolding split_whitespace
split_whitespace-word w h = ap (λ f. cons_word f.0 f.1) (first_word_solid w h.1) ∙ rw (h.0) refl

cons_word-All :
    (w : String) (ws : List String)
    → (is_solid w ≡ true) × All IsWord ws
    → All IsWord (cons_word w ws)
cons_word-All String.[] ws h = h.1
cons_word-All (String.◌∷◌ c w) ws h = ((refl, h.0), h.1)

with_char-All :
    (c : Char) (f : String × List String)
    → (is_solid f.0 ≡ true) × All IsWord f.1
    → (is_solid (with_char c f).0 ≡ true) × All IsWord (with_char c f).1
with_char-All c (w, ws) h = elim (Bool-cases (is_whitespace c)) [
  | inl e ↦ rw e (refl, cons_word-All w ws h)
  | inr e ↦ rw e (rw e h.0, h.1)
]

first_word-All : (s : String) → (is_solid (first_word s).0 ≡ true) × All IsWord (first_word s).1
unfolding first_word
first_word-All String.[] = (refl, tt)
first_word-All (String.◌∷◌ c s) = with_char-All c (first_word s) (first_word-All s)

pub split_whitespace-All : (s : String) → All IsWord (split_whitespace s)
unfolding split_whitespace
split_whitespace-All s = cons_word-All (first_word s).0 (first_word s).1 (first_word-All s)

pub no_words : split_whitespace "" ≡ []
unfolding split_whitespace first_word
no_words = refl

-- Words joined by blanks split into the same words.
pub split_whitespace-join : (ws : List String) → All IsWord ws → split_whitespace (join " " ws) ≡ ws
unfolding join
split_whitespace-join [] h = no_words
split_whitespace-join (w ∷ []) h = split_whitespace-word w h.0
split_whitespace-join (w ∷ v ∷ ws) h =
    split_whitespace-append w (join " " (v ∷ ws))
    ∙ rw (split_whitespace-word w h.0) (rw (split_whitespace-join (v ∷ ws) h.1) refl)
