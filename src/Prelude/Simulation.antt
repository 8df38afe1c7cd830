-- ===== src/Prelude/Simulation.antt =====
-- Two implementations of the same calls, one seen through a view as the other.
use mathlib.Core.Path.{◌≡◌, refl, ap, ap₂, ◌∙◌}
use mathlib.Core.List.{List, [], ◌∷◌}

-- The answers to a sequence of calls, and the state after it.
abbrev pub run_all :
    {Call Reply S : Type 0} → (Call → S → Reply × S) → List Call → S → List Reply × S
run_all step [] s = ([], s)
run_all step (c ∷ calls) s =
    let rest = run_all step calls (step c s).1 in ((step c s).0 ∷ rest.0, rest.1)

-- The calls all satisfy a condition.
abbrev pub AllCalls : {Call : Type 0} → (Call → Type 0) → List Call → Type 0
AllCalls P [] = Unit
AllCalls P (c ∷ calls) = P c × AllCalls P calls

-- What one call has to do, for calls that satisfy `P` and states that satisfy `I`.
abbrev pub Simulates :
    {Call Reply S T : Type 0}
    → (Call → Type 0)
    → (T → Type 0)
    → (T → S)
    → (Call → S → Reply × S)
    → (Call → T → Reply × T)
    → Type 0
Simulates {Call = Call} {T = T} P I view spec step =
    (c : Call) (t : T)
    → P c
    → I t
    → ((step c t).0 ≡ (spec c (view t)).0)
      × (view (step c t).1 ≡ (spec c (view t)).1)
      × I (step c t).1

-- Then every sequence of calls has the same answers, and ends in states that the view relates.
pub run_all-Simulates :
    {Call Reply S T : Type 0} (P : Call → Type 0) (I : T → Type 0) (view : T → S)
    (spec : Call → S → Reply × S) (step : Call → T → Reply × T)
    → Simulates P I view spec step
    → (calls : List Call) (t : T) → AllCalls P calls
    → I t
    → ((run_all step calls t).0 ≡ (run_all spec calls (view t)).0)
      × (view (run_all step calls t).1 ≡ (run_all spec calls (view t)).1)
run_all-Simulates P I view spec step sim [] t p i = (refl, refl)
run_all-Simulates P I view spec step sim (c ∷ calls) t p i =
    let (a, b, i') = sim c t p.0 i in
    let (r, e) = run_all-Simulates P I view spec step sim calls (step c t).1 p.1 i' in
    (ap₂ ◌∷◌ a (r ∙ ap (λ s. (run_all spec calls s).0) b), e ∙ ap (λ s. (run_all spec calls s).1) b)

-- The same with a relation between the states in place of a view.
abbrev pub Related :
    {Call Reply S T : Type 0}
    → (Call → Type 0)
    → (S → T → Type 0)
    → (Call → S → Reply × S)
    → (Call → T → Reply × T)
    → Type 0
Related {Call = Call} {S = S} {T = T} P R spec step =
    (c : Call) (s : S) (t : T)
    → P c
    → R s t
    → ((step c t).0 ≡ (spec c s).0) × R (spec c s).1 (step c t).1

pub run_all-Related :
    {Call Reply S T : Type 0} (P : Call → Type 0) (R : S → T → Type 0) (spec : Call → S → Reply × S)
    (step : Call → T → Reply × T)
    → Related P R spec step
    → (calls : List Call) (s : S) (t : T) → AllCalls P calls
    → R s t
    → (run_all step calls t).0 ≡ (run_all spec calls s).0
run_all-Related P R spec step sim [] s t p r = refl
run_all-Related P R spec step sim (c ∷ calls) s t p r =
    let (a, r') = sim c s t p.0 r in
    ap₂ ◌∷◌ a (run_all-Related P R spec step sim calls (spec c s).1 (step c t).1 p.1 r')

-- A condition that every call satisfies.
abbrev pub Any : {Call : Type 0} → Call → Type 0
Any c = Unit

pub every_call : {Call : Type 0} (calls : List Call) → AllCalls Any calls
every_call [] = tt
every_call (c ∷ calls) = (tt, every_call calls)
