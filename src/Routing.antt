-- ===== src/Routing.antt =====
-- `Router` of src/hallpass/orchestrator.py: a task goes to a worker whose scopes cover it.
pub mod Capable
use hallpass.Prelude.{
  String, ℕ, zero, suc, ◌%◌, Bool, List, [], ◌∷◌, filter, length, Option, none, some, string_eq,
}
use hallpass.Prelude.Dict
use hallpass.Prelude.Dict.{Dict, keys}
use hallpass.Prelude.Sets.{subset}
use hallpass.Prelude.Order.{sort, str_leb}

-- `Router`; `turn` is `_rr`.
pub record Router : Type 0 where
  pub workers : Dict String (List String)
  pub turn : ℕ

-- `__init__`
abbrev pub new_router : Router
new_router = record { workers = []; turn = 0 }

-- `register`
unfoldable pub register : String → List String → Router → Router
register worker scopes r = record r { workers = Dict.put r.workers worker scopes }

-- `candidates`
unfoldable pub candidates : List String → Router → List String
candidates required r =
    sort str_leb (keys (filter (λ (e : String × List String). subset required e.1) r.workers))

-- `xs[i]`, where it is in range
unfoldable pub at : ℕ → List String → Option String
at i [] = none
at zero (x ∷ xs) = some x
at (suc i) (x ∷ xs) = at i xs

-- `route`
unfoldable pub route : List String → Router → Option String × Router
unfolding candidates at
route required r = elim (candidates required r) [
  | [] ↦ (none, r)
  | w ∷ ws ↦ (at (r.turn % suc (length ws)) (w ∷ ws), record r { turn = suc r.turn })
]
