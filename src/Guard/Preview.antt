-- ===== src/Guard/Preview.antt =====
-- What the envelope of src/hallpass/guard.py shows.
use Prim.Native.Char.{Char}
use hallpass.Prelude.{
  String, ℕ, ◌-◌, ◌≤◌, ◌≡◌, refl, ap, leb, List, [], ◌∷◌, ◌++◌, arith, Bool-cases, inl, inr, ◌⊎◌,
  ◌<◌,
}
use hallpass.Prelude.Text.{chars, text, chars-text}
use hallpass.Guard.{width, utf8_length, cut, Envelope, envelope_overhead, guard_response}

-- The preview fits, and is how the text starts.
pub cut-fits :
    (budget : ℕ) (cs : List Char)
    → (utf8_length (cut budget cs) ≤ budget) × ((rest : List Char) × (cs ≡ cut budget cs ++ rest))
unfolding utf8_length cut
cut-fits budget [] = (omega arith, ([], refl))
cut-fits budget (c ∷ cs) =
    let (size, (rest, e)) = cut-fits (budget - width c) cs in
    elim (Bool-cases (leb (width c) budget)) [
      | inl fits ↦ rw (fits) (ground arith, (rest, ap (λ r. c ∷ r) e))
      | inr over ↦ rw (over) (omega arith, (c ∷ cs, refl))
    ]

-- Nothing is cut in silence: a value within the limit comes back as it is, and any other as an
-- envelope that says its size and the limit, with a preview that is how the value's text starts
-- and has at most 512 bytes less than the limit, none where the limit is smaller.
pub guard_response_lem :
    {Body : Type 0} (serialize : Body → String) (wrap : Envelope → Body) (max_bytes : ℕ)
    (value : Body)
    → ((utf8_length (chars (serialize value)) ≤ max_bytes)
        × (guard_response serialize wrap max_bytes value ≡ value))
      ⊎ ((max_bytes < utf8_length (chars (serialize value)))
          × ((e : Envelope) × (guard_response serialize wrap max_bytes value ≡ wrap e)
              × (e.bytes ≡ utf8_length (chars (serialize value)))
              × (e.max_bytes ≡ max_bytes)
              × (utf8_length (chars e.preview) ≤ max_bytes - envelope_overhead)
              × ((rest : List Char) × (chars (serialize value) ≡ chars e.preview ++ rest))))
unfolding guard_response
guard_response_lem serialize wrap max_bytes value =
    let cs = chars (serialize value) in
    let (size, (rest, e)) = cut-fits (max_bytes - envelope_overhead) cs in
    let back = chars-text (cut (max_bytes - envelope_overhead) cs) in
    elim (Bool-cases (leb (utf8_length cs) max_bytes)) [
      | inl small ↦ inl (ground arith, rw (small, guard_response) refl)
      | inr large ↦ inr (
        ground arith,
        (
          record {
            bytes = utf8_length cs;
            max_bytes = max_bytes;
            preview = text (cut (max_bytes - envelope_overhead) cs);
          },
          rw (large, guard_response) refl,
          refl,
          refl,
          rw (back) size,
          (rest, rw (back) e),
        ),
      )
    ]
