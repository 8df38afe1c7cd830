-- ===== src/Prelude/Words.antt =====
-- Words joined by a space and split again: Python's `" ".join` and `str.split`.
use Prim.Native.Char.{Char, code}
use Prim.Native.String.{String}
use mathlib.Core.Path.{◌≡◌, refl, sym, ap, ◌∙◌}
use mathlib.Core.Bool.{Bool, false}
use mathlib.Core.Logic.{inl, inr}
use mathlib.Core.List.{List, [], ◌∷◌, ◌++◌, map, append-nil}
use hallpass.Prelude.Tests.{if◌then◌else◌, Bool-cases}
use hallpass.Prelude.Equality.{◌==◌, string_eq}
use hallpass.Prelude.Order.{insert, sort}
use hallpass.Prelude.Text.{
  is_space, chars, text, text-chars, chars-text, close_word, split_from, split_chars, split,
}

-- `" ".join`, on characters
unfoldable pub join_chars : List (List Char) → List Char
join_chars [] = []
join_chars (w ∷ []) = w
join_chars (w ∷ v ∷ ws) = w ++ " " ∷ join_chars (v ∷ ws)

-- `" ".join`
unfoldable pub join : List String → String
unfolding join_chars
join ws = text (join_chars (map chars ws))

-- No white space.
abbrev pub NoSpace : List Char → Type 0
NoSpace [] = Unit
NoSpace (c ∷ cs) = (is_space (code c) ≡ false) × NoSpace cs

-- A word: not empty, and with no white space.
abbrev pub IsWord : List Char → Type 0
IsWord [] = ⊥
IsWord (c ∷ cs) = NoSpace (c ∷ cs)

abbrev pub Words : List String → Type 0
Words [] = Unit
Words (w ∷ ws) = IsWord (chars w) × Words ws

abbrev WordLists : List (List Char) → Type 0
WordLists [] = Unit
WordLists (w ∷ ws) = IsWord w × WordLists ws

split_from-append :
    (w rest : List Char)
    → NoSpace w
    → split_from (w ++ rest) ≡ (w ++ (split_from rest).0, (split_from rest).1)
unfolding split_from
split_from-append [] rest h = refl
split_from-append (c ∷ w) rest h = rw (h.0, split_from-append w rest h.1)

split_from_all : (w : List Char) → NoSpace w → split_from w ≡ (w, [])
unfolding split_from
split_from_all [] h = refl
split_from_all (c ∷ w) h = rw (h.0, split_from_all w h.1) refl

split_word : (w : List Char) → IsWord w → split_chars w ≡ w ∷ []
unfolding split_chars
split_word (c ∷ cs) h =
    ap (λ (r : List Char × List (List Char)). close_word r.0 r.1) (split_from_all (c ∷ cs) h)
split_word [] h = absurd h

split_next : (w rest : List Char) → IsWord w → split_chars (w ++ " " ∷ rest) ≡ w ∷ split_chars rest
unfolding split_chars split_from is_space
split_next (c ∷ cs) rest h =
    ap (λ (r : List Char × List (List Char)). close_word r.0 r.1)
      (split_from-append (c ∷ cs) (" " ∷ rest) h)
    ∙ ap (λ r. (c ∷ r) ∷ split_chars rest) (append-nil cs)
split_next [] rest h = absurd h

split_chars-join : (ws : List (List Char)) → WordLists ws → split_chars (join_chars ws) ≡ ws
unfolding join_chars
split_chars-join [] h = unfold split_chars split_from in refl
split_chars-join (w ∷ []) h = split_word w h.0
split_chars-join (w ∷ v ∷ ws) h =
    split_next w (join_chars (v ∷ ws)) h.0 ∙ ap (λ r. w ∷ r) (split_chars-join (v ∷ ws) h.1)

word_lists : (ws : List String) → Words ws → WordLists (map chars ws)
word_lists [] h = tt
word_lists (w ∷ ws) h = (h.0, word_lists ws h.1)

map-text-chars : (ws : List String) → map text (map chars ws) ≡ ws
map-text-chars [] = refl
map-text-chars (w ∷ ws) = rw (text-chars w, map-text-chars ws) refl

-- Words come back as they were joined.
pub split-join : (ws : List String) → Words ws → split (join ws) ≡ ws
unfolding split join
split-join ws h =
    ap (λ cs. map text (split_chars cs)) (chars-text (join_chars (map chars ws)))
    ∙ ap (map text) (split_chars-join (map chars ws) (word_lists ws h))
    ∙ map-text-chars ws

-- `text.split() if text else []`
unfoldable pub words : String → List String
words s = if s == "" then [] else split s

split_nil : split "" ≡ []
unfolding split split_chars split_from
split_nil = refl

pub words-join : (ws : List String) → Words ws → words (join ws) ≡ ws
unfolding words
words-join ws h = elim (Bool-cases (join ws == "")) [
  | inr full ↦ rw full (split-join ws h)
  | inl empty ↦ rw empty (
      sym (sym (split-join ws h) ∙ ap split ((string_eq.beq_iff (join ws) "").0 empty) ∙ split_nil))
]

Words-insert :
    (le : String → String → Bool) (w : String) (ws : List String)
    → IsWord (chars w)
    → Words ws
    → Words (insert le w ws)
unfolding insert
Words-insert le w [] h k = (h, tt)
Words-insert le w (v ∷ ws) h k = elim (Bool-cases (le w v)) [
  | inl first ↦ rw first (h, k)
  | inr later ↦ rw later (k.0, Words-insert le w ws h k.1)
]

pub Words-sort : (le : String → String → Bool) (ws : List String) → Words ws → Words (sort le ws)
unfolding sort
Words-sort le [] h = tt
Words-sort le (w ∷ ws) h = Words-insert le w (sort le ws) h.0 (Words-sort le ws h.1)
