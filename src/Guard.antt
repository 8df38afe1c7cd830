-- ===== src/Guard.antt =====
-- src/hallpass/guard.py: a result that is too large for the caller's context is replaced by an
-- envelope with a preview. A body and its text are related by parameters: `_serialize`, and the
-- object that carries an envelope.
pub mod Preview
use Prim.Native.Char.{Char, code}
use hallpass.Prelude.{
  String, ℕ, zero, ◌+◌, ◌-◌, Bool, true, false, if◌then◌else◌, ltb, leb, List, [], ◌∷◌,
}
use hallpass.Prelude.Text.{chars, text}

-- The bytes of a character in UTF-8.
abbrev pub width : Char → ℕ
width c =
    if ltb (code c) 0x80
    then 1
    else if ltb (code c) 0x800
    then 2
    else if ltb (code c) 0x10000
    then 3
    else 4

-- `len(s.encode("utf-8"))`
unfoldable pub utf8_length : List Char → ℕ
utf8_length [] = 0
utf8_length (c ∷ cs) = width c + utf8_length cs

-- `s.encode("utf-8")[:budget].decode("utf-8", "ignore")`: the characters whose bytes all fit; of a
-- character that is cut the decoder ignores the rest.
unfoldable pub cut : ℕ → List Char → List Char
cut budget [] = []
cut budget (c ∷ cs) =
    let rest = cut (budget - width c) cs in if leb (width c) budget then c ∷ rest else []

-- `_ENVELOPE_OVERHEAD`
abbrev pub envelope_overhead : ℕ
envelope_overhead = 512

-- The envelope, without its fixed texts.
pub record Envelope : Type 0 where
  pub bytes : ℕ
  pub max_bytes : ℕ
  pub preview : String

-- `guard_response`. Its budget keeps `_ENVELOPE_OVERHEAD` for the envelope's own keys, and stops at
-- 0; the size of the envelope itself is not looked at.
unfoldable pub guard_response :
    {Body : Type 0} → (Body → String) → (Envelope → Body) → ℕ → Body → Body
unfolding utf8_length cut
guard_response serialize wrap max_bytes value =
    let serialized = chars (serialize value) in
    let size = utf8_length serialized in
    let envelope : Envelope = record {
      bytes = size;
      max_bytes = max_bytes;
      preview = text (cut (max_bytes - envelope_overhead) serialized);
    } in
    if leb size max_bytes then value else wrap envelope
