-- ===== src/Prelude/Text.antt =====
-- Python's `str` as the source uses it: white space, `split`, prefixes.
use Prim.Native.Char.{Char, code}
use Prim.Native.Nat.{ℕ}
use Prim.Native.String.{String}
use mathlib.Core.Path.{◌≡◌, refl}
use mathlib.Core.Bool.{Bool, ◌&&◌, ◌||◌}
use mathlib.Core.List.{List, [], ◌∷◌, ◌++◌, map}
use hallpass.Prelude.Tests.{if◌then◌else◌, leb}
use hallpass.Prelude.Equality.{◌==◌, nat_eq}

abbrev pub between : ℕ → ℕ → ℕ → Bool
between lo hi c = leb lo c && leb c hi

-- `str.isspace` of one character
unfoldable pub is_space : ℕ → Bool
is_space c =
    between 9 13 c
    || between 28 32 c
    || c == 0x85
    || c == 0xA0
    || c == 0x1680
    || between 0x2000 0x200A c
    || between 0x2028 0x2029 c
    || c == 0x202F
    || c == 0x205F
    || c == 0x3000

-- The characters of a text, and a text of characters.
abbrev pub chars : String → List Char
chars String.[] = []
chars (String.◌∷◌ c s) = c ∷ chars s

abbrev pub text : List Char → String
text [] = String.[]
text (c ∷ cs) = String.◌∷◌ c (text cs)

-- `s + t`
abbrev pub concat : String → String → String
concat s t = text (chars s ++ chars t)

pub chars-text : (cs : List Char) → chars (text cs) ≡ cs
chars-text [] = refl
chars-text (c ∷ cs) = rw (chars-text cs)

pub text-chars : (s : String) → text (chars s) ≡ s
text-chars String.[] = refl
text-chars (String.◌∷◌ c s) = rw (text-chars s)

-- The word that is being read, put before the words that follow it.
abbrev pub close_word : List Char → List (List Char) → List (List Char)
close_word [] ws = ws
close_word (c ∷ cs) ws = (c ∷ cs) ∷ ws

-- `str.split()`: the first part of the result is the word that a leading run of characters forms.
unfoldable pub split_from : List Char → List Char × List (List Char)
split_from [] = ([], [])
split_from (c ∷ cs) =
    let (word, rest) = split_from cs in
    if is_space (code c) then ([], close_word word rest) else (c ∷ word, rest)

unfoldable pub split_chars : List Char → List (List Char)
unfolding split_from
split_chars cs = let (word, rest) = split_from cs in close_word word rest

unfoldable pub split : String → List String
unfolding split_chars is_space
split s = map text (split_chars (chars s))

split_example : split " notes:read  a b" ≡ "notes:read" ∷ "a" ∷ "b" ∷ []
unfolding split
split_example = refl
