-- ===== src/Routing/Chain.antt =====
-- The order in which a request tries its routes (internal/router/router.go): the entry points of a
-- name, and the walk over their fallbacks. What advances a cursor returns the new table.
use zealish_router.Base.{
  contains, ℕ, ◌+◌, ◌%◌, String, Bool, true, false, Option, none, some, List, [], ◌∷◌, ◌++◌, ltb,
  if◌then◌else◌, Dict, lookup, insert, length,
}
use zealish_router.Routing.Table.{
  ModelAlias, Combo, ComboStrategy, combo_fallback, combo_round_robin, combo_weighted,
  combo_intelligent, RequestRequirements, Routes, Result, ok, err, max_chain_attempts,
  candidate_compatible,
}
use zealish_router.Routing.Pool.{rotate, weighted_pick}
use zealish_router.Routing.Intelligent.{intelligent_order}

-- `cursors[name].Add(1) - 1`: the value before, and the table with the counter moved on.
unfoldable pub advance : String → Routes → ℕ × Routes
advance name rt =
    let n : ℕ = elim (lookup name rt.cursors) [ none ↦ 0 | some n ↦ n ] in
    (n, record rt { cursors = insert name ((n + 1) % 18446744073709551616) rt.cursors })

abbrev pub entrypoints_of :
    ComboStrategy
    → (String → ℕ)
    → Combo
    → String
    → RequestRequirements
    → Routes
    → Result (List String) × Routes
entrypoints_of combo_round_robin score combo name req rt =
    let (n, rt') = advance name rt in (ok (rotate combo.members (n % length combo.members)), rt')
entrypoints_of combo_weighted score combo name req rt =
    let (n, rt') = advance name rt in
    (ok (rotate combo.members (weighted_pick combo.members combo.weights n)), rt')
entrypoints_of combo_intelligent score combo name req rt =
    (intelligent_order score combo req rt, rt)
entrypoints_of combo_fallback score combo name req rt = (ok combo.members, rt)

unfoldable pub entrypoints :
    (String → ℕ) → String → RequestRequirements → Routes → Result (List String) × Routes
entrypoints score name req rt = elim (lookup name rt.combos) [
  | none ↦ (ok (name ∷ []), rt)
  | some combo ↦ entrypoints_of combo.strategy score combo name req rt
]

-- `appendCandidate`: false once the chain is full. The set `seen` holds what the chain holds.
unfoldable pub append_candidate : String → List String → Bool × List String
append_candidate candidate chain =
    if contains chain candidate
    then (true, chain)
    else (ltb (length chain + 1) max_chain_attempts, chain ++ candidate ∷ [])

-- Appends in order until the chain is full.
unfoldable pub append_all : List String → List String → Bool × List String
append_all [] chain = (true, chain)
append_all (c ∷ cs) chain =
    let (more, chain') = append_candidate c chain in
    let rest = append_all cs chain' in if more then rest else (false, chain')

-- The fallbacks of a member that the inner loop does not pass over.
unfoldable pub keep_compatible : RequestRequirements → Dict ModelAlias → List String → List String
keep_compatible req models [] = []
keep_compatible req models (f ∷ fs) =
    let rest = keep_compatible req models fs in
    elim (lookup f models) [
      | none ↦ rest
      | some m ↦ if candidate_compatible m req then f ∷ rest else rest
    ]

abbrev pub is_intelligent : Option Combo → Bool
is_intelligent none = false
is_intelligent (some combo) = elim combo.strategy [ combo_intelligent ↦ true | _ ↦ false ]

abbrev pub fallbacks_of : Option ModelAlias → List String
fallbacks_of none = []
fallbacks_of (some m) = m.fallback

unfoldable pub eligible_fallbacks : String → RequestRequirements → Routes → String → List String
eligible_fallbacks name req rt member =
    let fallbacks = fallbacks_of (lookup member rt.models) in
    if is_intelligent (lookup name rt.combos)
    then keep_compatible req rt.models fallbacks
    else fallbacks

-- The outer loop over the entry points.
unfoldable pub chain_from :
    String → RequestRequirements → Routes → List String → List String → List String
chain_from name req rt [] chain = chain
chain_from name req rt (member ∷ members) chain =
    let (more, chain') = append_all (member ∷ eligible_fallbacks name req rt member) chain in
    let rest = chain_from name req rt members chain' in if more then rest else chain'

-- A name with no entry points has no chain.
unfoldable pub walk : String → RequestRequirements → Routes → Result (List String) → List String
walk name req rt (err e) = []
walk name req rt (ok members) = chain_from name req rt members []

unfoldable pub chain : (String → ℕ) → String → RequestRequirements → Routes → List String × Routes
chain score name req rt =
    let (entry, rt') = entrypoints score name req rt in (walk name req rt' entry, rt')
