-- ===== src/Routing/Capable.antt =====
-- Who `Router` of src/hallpass/orchestrator.py can pick.
use mathlib.Core.Path.{subst}
use native.Mathlib.Omega.{mod_fact}
use hallpass.Prelude.{
  String, ℕ, zero, suc, ◌%◌, ◌<◌, ◌≡◌, refl, sym, ap, true, false, Bool-cases, List, [], ◌∷◌,
  filter, length, In, In-filter, In-filter_of, none, some, string_eq, arith, inl, inr, ◌⊎◌,
}
use hallpass.Prelude.Dict
use hallpass.Prelude.Dict.{Dict, keys, IsDict, get_of_In, In-of_get}
use hallpass.Prelude.Sets.{subset}
use hallpass.Prelude.Order.{str_leb, In-sort}
use hallpass.Routing.{Router, candidates, at, route}

at-In : (i : ℕ) (xs : List String) → i < length xs → (x : String) × (at i xs ≡ some x) × In x xs
unfolding at
at-In i [] h = absurd (omega arith)
at-In zero (x ∷ xs) h = (x, refl, inl refl)
at-In (suc i) (x ∷ xs) h = let (y, e, m) = at-In i xs (omega arith) in (y, e, inr m)

In-keys :
    (d : Dict String (List String)) (k : String) → In k (keys d) → (v : List String) × In (k, v) d
In-keys [] k h = absurd h
In-keys ((i, v) ∷ d) k (inl q) = (v, inl (ap (λ j. (j, v)) q))
In-keys ((i, v) ∷ d) k (inr m) = let (w, h) = In-keys d k m in (w, inr h)

below : (i n : ℕ) → i % suc n < suc n
below i n = mod_fact i n

-- A candidate is a worker whose scopes cover the task, and every such worker is one.
In-candidates :
    (required : List String) (r : Router) (w : String)
    → In w (candidates required r)
    → (scopes : List String) × In (w, scopes) r.workers × (subset required scopes ≡ true)
unfolding candidates
In-candidates required r w m =
    let capable = λ (e : String × List String). subset required e.1 in
    let mine = filter capable r.workers in
    let (scopes, i) = In-keys mine w ((In-sort str_leb w (keys mine)).0 m) in
    let (there, covers) = In-filter capable (w, scopes) r.workers i in (scopes, there, covers)

In-keys_of :
    (d : Dict String (List String)) (k : String) (v : List String) → In (k, v) d → In k (keys d)
In-keys_of [] k v h = absurd h
In-keys_of ((i, w) ∷ d) k v (inl q) = inl (ap (λ (e : String × List String). e.0) q)
In-keys_of ((i, w) ∷ d) k v (inr m) = inr (In-keys_of d k v m)

candidates_of :
    (required : List String) (r : Router) (w : String) (scopes : List String)
    → Dict.get r.workers w ≡ some scopes
    → subset required scopes ≡ true
    → In w (candidates required r)
unfolding candidates
candidates_of required r w scopes h covers =
    let capable = λ (e : String × List String). subset required e.1 in
    let mine = filter capable r.workers in
    (In-sort str_leb w (keys mine)).1 (
      In-keys_of mine w scopes
        (In-filter_of capable (w, scopes) r.workers (In-of_get r.workers w scopes h) covers))

-- On a router whose workers stand once each, a task is routed to a registered worker whose scopes
-- cover what it requires, whenever there is one; and it is refused, with the router unchanged,
-- exactly when there is none.
pub route_capable :
    (required : List String) (r : Router)
    → IsDict r.workers
    → ((worker : String) × (scopes : List String) × ((route required r).0 ≡ some worker)
        × (Dict.get r.workers worker ≡ some scopes)
        × (subset required scopes ≡ true))
      ⊎ ((route required r ≡ (none, r))
          × ((worker : String) (scopes : List String)
              → Dict.get r.workers worker ≡ some scopes
              → subset required scopes ≡ false))
unfolding route
route_capable required r d = of_list (candidates required r) refl
  where
    of_list :
        (ws : List String)
        → candidates required r ≡ ws
        → ((worker : String) × (scopes : List String) × ((route required r).0 ≡ some worker)
            × (Dict.get r.workers worker ≡ some scopes)
            × (subset required scopes ≡ true))
          ⊎ ((route required r ≡ (none, r))
              × ((worker : String) (scopes : List String)
                  → Dict.get r.workers worker ≡ some scopes
                  → subset required scopes ≡ false))
    of_list [] e = inr (
      rw (e, route) refl,
      λ w scopes h. elim (Bool-cases (subset required scopes)) [
        | inl covers ↦ absurd (subst (In w) e (candidates_of required r w scopes h covers))
        | inr lacks ↦ lacks
      ],
    )
    of_list (w ∷ ws) e =
        let (x, found, m) = at-In (r.turn % suc (length ws)) (w ∷ ws) (below r.turn (length ws)) in
        let (scopes, there, covers) = In-candidates required r x (subst (In x) (sym e) m) in
        inl (x, scopes, rw (e, route) found, get_of_In r.workers x scopes d there, covers)
