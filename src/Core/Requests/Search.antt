-- ===== src/Core/Requests/Search.antt =====
-- `list_tools` and `search_tools` of src/hallpass/core.py show nothing that a call would refuse.
use mathlib.Core.Path.{subst}
use hallpass.Prelude.{
  String, ℕ, suc, ◌≤◌, ◌≡◌, refl, ◌↔◌, List, [], ◌∷◌, arith, In, inl, inr, string_eq, map, filter,
  In-filter, elem, elem→In, take, length, length-take-le,
}
use hallpass.Identity.{Principal}
use hallpass.Identity.Verifier as Verifier
use hallpass.Gating.{ToolSpec, catalog, authorize}
use hallpass.Gating as Gating
use hallpass.Gating.Laws.{catalog-authorize}
use hallpass.Core.Types.{Types, Handler, Wiring, App, Times, answer}
use hallpass.Core.Registry.Valid.{IsValid}
use hallpass.Core.Requests.{list_tools, search_tools}

module _ {A : Type 0} where
  In-take : (a : A) (n : ℕ) (xs : List A) → In a (take n xs) → In a xs
  In-take a (suc n) (x ∷ xs) (inl q) = inl q
  In-take a (suc n) (x ∷ xs) (inr m) = inr (In-take a n xs m)
  In-take a (suc n) [] m = absurd m
  In-take a _ xs m = absurd m

  In-map :
      {B : Type 0} (f : A → B) (b : B) (xs : List A)
      → In b (map f xs)
      → (a : A) × In a xs × (f a ≡ b)
  In-map f b [] m = absurd m
  In-map f b (x ∷ xs) (inl q) = (x, inl refl, q)
  In-map f b (x ∷ xs) (inr m) = let (a, i, e) = In-map f b xs m in (a, inr i, e)

module _ {T : Types} (w : Wiring T) (token : String) (t : Times) (app : App T) where
  abbrev verified : Verifier.Result Principal
  verified = (w.verifier.verify token t.verify_now t.verify_later app.verifier_state).0

  list_tools_lem :
      (tools : List (ToolSpec (Handler T)))
      → (list_tools w token t app).0 ≡ answer tools
      → (p : Principal) × (verified ≡ Verifier.ok p) × (tools ≡ catalog p app.gate)
  unfolding list_tools
  list_tools_lem tools h = elim (Verifier.Result-cases verified) [
    | inl (f, e) ↦ absurd (ground arith)
    | inr (p, e) ↦ (p, e, ground arith)
  ]

  -- What `list_tools` answers is exactly the tools that the gate lets this token's principal call.
  pub list_tools-authorize :
      (tools : List (ToolSpec (Handler T))) (spec : ToolSpec (Handler T))
      → IsValid app
      → (list_tools w token t app).0 ≡ answer tools
      → (p : Principal) × (verified ≡ Verifier.ok p)
        × (In spec tools ↔ (authorize p spec.name app.gate ≡ Gating.ok spec))
  list_tools-authorize tools spec v h =
      let (p, e, same) = list_tools_lem tools h in
      (p, e, rw same (catalog-authorize p app.gate spec v.gate))

  search_tools_lem :
      (query : String) (limit : ℕ) (tools : List (ToolSpec (Handler T)))
      → (search_tools w token query limit t app).0 ≡ answer tools
      → (p : Principal) × (verified ≡ Verifier.ok p)
        × (tools
            ≡ take limit (
                filter
                  (λ spec. elem spec.name (map (λ s. s.name) (catalog p app.gate)))
                  (w.ranker query (catalog p app.gate))))
  unfolding search_tools
  search_tools_lem query limit tools h = elim (Verifier.Result-cases verified) [
    | inl (f, e) ↦ absurd (ground arith)
    | inr (p, e) ↦ (p, e, ground arith)
  ]

  -- Whatever the ranker answers, a search shows at most `limit` tools.
  length-search_tools-le :
      (query : String) (limit : ℕ) (tools : List (ToolSpec (Handler T)))
      → (search_tools w token query limit t app).0 ≡ answer tools
      → length tools ≤ limit
  length-search_tools-le query limit tools h =
      let (p, e, same) = search_tools_lem query limit tools h in
      rw same (
        length-take-le limit (
          filter (λ spec. elem spec.name (map (λ s. s.name) (catalog p app.gate)))
            (w.ranker query (catalog p app.gate))))

  -- On a well-formed registry, whatever the ranker answers, a search shows at most `limit` tools,
  -- and each that it shows has the name of a tool that the gate lets this token's principal call.
  pub search_tools-authorize :
      (query : String) (limit : ℕ) (tools : List (ToolSpec (Handler T)))
      (spec : ToolSpec (Handler T))
      → IsValid app
      → (search_tools w token query limit t app).0 ≡ answer tools
      → In spec tools
      → (length tools ≤ limit)
        × ((p : Principal) × (verified ≡ Verifier.ok p)
            × ((s : ToolSpec (Handler T)) × (authorize p spec.name app.gate ≡ Gating.ok s)))
  search_tools-authorize query limit tools spec v h m =
      let (p, e, same) = search_tools_lem query limit tools h in
      let names = map (λ (s : ToolSpec (Handler T)). s.name) (catalog p app.gate) in
      let shown = λ (x : ToolSpec (Handler T)). elem x.name names in
      let ranked = w.ranker query (catalog p app.gate) in
      let (_, listed) =
        In-filter shown spec ranked
          (In-take spec limit (filter shown ranked) (subst (In spec) same m)) in
      let (s, held, named) =
        In-map (λ (x : ToolSpec (Handler T)). x.name) spec.name (catalog p app.gate)
          (elem→In spec.name names listed) in
      let let_through = (catalog-authorize p app.gate s v.gate).0 held in
      (
        length-search_tools-le query limit tools h,
        (p, e, (s, subst (λ n. authorize p n app.gate ≡ Gating.ok s) named let_through)),
      )
