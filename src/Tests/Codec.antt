-- ===== src/Tests/Codec.antt =====
-- A codec of dictionaries that satisfies what is assumed of `json`: each character is marked, a text
-- ends with a full stop, and a dictionary with a semicolon.
use Prim.Native.Char.{Char, code}
use mathlib.Core.Path.{ap₂}
use hallpass.Prelude.{
  String, ◌≡◌, refl, sym, ◌∙◌, length, arith, eq_iff, Bool-cases, inl, inr, ap, false,
  if◌then◌else◌, List, [], ◌∷◌, nat_eq, string_eq, ◌==◌,
}
use hallpass.Prelude.Dict.{Dict}
use hallpass.Prelude.Text.{chars, text, chars-text, text-chars}
use hallpass.TaskQueue.Sqlite.{Json, JsonLaws}

abbrev write : List Char → List Char → List Char
write [] rest = "." ∷ rest
write (c ∷ cs) rest = "+" ∷ c ∷ write cs rest

abbrev write_all : Dict String String → List Char
write_all [] = ";" ∷ []
write_all ((k, v) ∷ d) = write (chars k) (write (chars v) (write_all d))

abbrev longer : Char → List (List Char) → List (List Char)
longer c [] = []
longer c (w ∷ ws) = (c ∷ w) ∷ ws

abbrev read : List Char → List (List Char)
read [] = []
read (m ∷ []) = []
read (m ∷ c ∷ rest) =
    let marked = read rest in
    let next = read (c ∷ rest) in if code m == code "+" then longer c marked else [] ∷ next

abbrev pairs : List (List Char) → Dict String String
pairs [] = []
pairs (k ∷ []) = []
pairs (k ∷ v ∷ ws) = (text k, text v) ∷ pairs ws

-- More follows.
abbrev HasMore : List Char → Type 0
HasMore [] = ⊥
HasMore (c ∷ cs) = Unit

write-HasMore : (cs rest : List Char) → HasMore (write cs rest)
write-HasMore [] rest = tt
write-HasMore (c ∷ cs) rest = tt

write_all-HasMore : (d : Dict String String) → HasMore (write_all d)
write_all-HasMore [] = tt
write_all-HasMore ((k, v) ∷ d) = write-HasMore (chars k) (write (chars v) (write_all d))

read-write : (cs rest : List Char) → HasMore rest → read (write cs rest) ≡ cs ∷ read rest
read-write [] [] h = absurd h
read-write [] (c ∷ rest) h = refl
read-write (c ∷ cs) rest h = ap (longer c) (read-write cs rest h)

pairs-read : (d : Dict String String) → pairs (read (write_all d)) ≡ d
pairs-read [] = refl
pairs-read ((k, v) ∷ d) =
    ap pairs
      (read-write (chars k) (write (chars v) (write_all d)) (write-HasMore (chars v) (write_all d)))
    ∙ ap (λ ws. pairs (chars k ∷ ws)) (read-write (chars v) (write_all d) (write_all-HasMore d))
    ∙ ap₂ ◌∷◌ (ap₂ (λ a b. (a, b)) (text-chars k) (text-chars v)) (pairs-read d)

abbrev pub codec : Json
codec = record { dumps = λ d. text (write_all d); loads = λ t. pairs (read (chars t)) }

nonempty_text : (cs : List Char) → HasMore cs → (text cs == "") ≡ false
nonempty_text [] h = absurd h
nonempty_text (c ∷ cs) h = elim (Bool-cases (text (c ∷ cs) == "")) [
  | inr e ↦ e
  | inl e ↦
      let same : length (c ∷ cs) ≡ 0 =
        ap length (sym (chars-text (c ∷ cs)) ∙ ap chars ((eq_iff (text (c ∷ cs)) "").0 e)) in
      absurd (omega (arith, same))
]

pub codec-JsonLaws : JsonLaws codec
codec-JsonLaws = record {
  loads_dumps = λ d. ap (λ cs. pairs (read cs)) (chars-text (write_all d)) ∙ pairs-read d;
  dumps_nonempty = λ d. nonempty_text (write_all d) (write_all-HasMore d);
}
