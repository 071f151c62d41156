-- ===== src/Routing/Intelligent.antt =====
-- internal/router/intelligent.go: how an intelligent combo filters and orders its members. The scores
-- are an argument, `score`: what `scoreCandidates` computes for an alias, as the position of its
-- float64 in the order of the numbers.
use zealish_router.Base.{
  Option, ℕ, ◌+◌, String, Bool, true, false, not, ◌&&◌, ◌||◌, none, some, List, [], ◌∷◌, ltb, leb,
  ◌==◌, if◌then◌else◌, lookup,
}
use zealish_router.Routing.Table.{
  ModelAlias, Combo, RequestRequirements, Routes, Result, ok, err, no_compatible_model,
  context_exceeded, capability_compatible,
}

pub record Candidate : Type 0 where
  pub alias : String
  pub pool_order : ℕ

-- One round of the filtering loop, where `rest` is what the later rounds gather: the candidates,
-- and how many members were capable.
unfoldable pub gather_one :
    RequestRequirements → ℕ → String → Option ModelAlias → List Candidate × ℕ → List Candidate × ℕ
gather_one req i alias none rest = rest
gather_one req i alias (some m) (found, capable) =
    if not (capability_compatible m req)
    then (found, capable)
    else if not (req.required_context == 0)
        && (not (m.max_context == 0) && ltb m.max_context req.required_context)
    then (found, capable + 1)
    else (record { alias = alias; pool_order = i } ∷ found, capable + 1)

unfoldable pub gather : Routes → RequestRequirements → ℕ → List String → List Candidate × ℕ
gather rt req i [] = ([], 0)
gather rt req i (alias ∷ rest) =
    gather_one req i alias (lookup alias rt.models) (gather rt req (i + 1) rest)

-- The comparison of the stable sort: the higher score first, then the order in the pool.
abbrev pub ranks_before : (String → ℕ) → Candidate → Candidate → Bool
ranks_before score a b =
    ltb (score b.alias) (score a.alias)
    || ((score a.alias == score b.alias) && leb a.pool_order b.pool_order)

unfoldable pub rank_insert : (String → ℕ) → Candidate → List Candidate → List Candidate
rank_insert score c [] = c ∷ []
rank_insert score c (d ∷ ds) = elim (ranks_before score c d) [
  | true ↦ c ∷ d ∷ ds
  | false ↦ d ∷ rank_insert score c ds
]

unfoldable pub rank_sort : (String → ℕ) → List Candidate → List Candidate
rank_sort score [] = []
rank_sort score (c ∷ cs) = rank_insert score c (rank_sort score cs)

abbrev pub aliases_of : List Candidate → List String
aliases_of [] = []
aliases_of (c ∷ cs) = c.alias ∷ aliases_of cs

unfoldable pub intelligent_order :
    (String → ℕ) → Combo → RequestRequirements → Routes → Result (List String)
intelligent_order score combo req rt =
    let (found, capable) = gather rt req 0 combo.members in
    elim found [
      | [] ↦ err (if ltb 0 capable then context_exceeded else no_compatible_model)
      | c ∷ cs ↦ ok (aliases_of (rank_sort score (c ∷ cs)))
    ]
