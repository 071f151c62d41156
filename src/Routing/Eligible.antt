-- ===== src/Routing/Eligible.antt =====
-- An intelligent combo sends a request only where it can be served.
use zealish_router.Base.{
  contains, ℕ, ◌+◌, ◌≡◌, refl, Bool, true, false, not, ◌&&◌, Option, none, some, List, [], ◌∷◌,
  ◌++◌, arith, ltb, ◌==◌, if◌then◌else◌, String, Bool-cases, inl, inr, All, All-append, lookup,
}
use zealish_router.Routing.Table.{
  ModelAlias, Combo, RequestRequirements, Routes, Result, ok, err, max_chain_attempts,
  candidate_compatible, capability_compatible, no_compatible_model, context_exceeded,
  combo_intelligent,
}
use zealish_router.Routing.Intelligent.{
  Candidate, gather, gather_one, rank_insert, rank_sort, aliases_of, intelligent_order,
}
use zealish_router.Routing.Chain.{
  walk, chain, entrypoints, keep_compatible, eligible_fallbacks, is_intelligent, fallbacks_of,
}
use zealish_router.Routing.Distinct.{All-take}
use zealish_router.Routing.Order.{candidates, distinct_after, chain_from-distinct}

-- The alias exists and can serve the request.
abbrev serves : RequestRequirements → Option ModelAlias → Bool
serves req none = false
serves req (some m) = candidate_compatible m req

abbrev pub can_serve : Routes → RequestRequirements → String → Bool
can_serve rt req alias = serves req (lookup alias rt.models)

-- A model that has the capabilities and the context window is compatible.
compatible_split :
    (m : ModelAlias) (req : RequestRequirements)
    → candidate_compatible m req ≡ (
        capability_compatible m req
        && not (
            not (req.required_context == 0)
            && (not (m.max_context == 0) && ltb m.max_context req.required_context)))
unfolding candidate_compatible capability_compatible
compatible_split m req = ground arith

module _ (rt : Routes) (req : RequestRequirements) where
  abbrev Serving : Candidate → Type 0
  Serving c = can_serve rt req c.alias ≡ true

  gather_one-Serving :
      (i : ℕ) (a : String) (o : Option ModelAlias) (rest : List Candidate × ℕ)
      → lookup a rt.models ≡ o
      → All Serving rest.0
      → All Serving (gather_one req i a o rest).0
  unfolding gather_one
  gather_one-Serving i a none rest e h = h
  gather_one-Serving i a (some m) rest e h = ground (arith, compatible_split m req)

  gather-Serving : (i : ℕ) (members : List String) → All Serving (gather rt req i members).0
  unfolding gather
  gather-Serving i [] = tt
  gather-Serving i (a ∷ rest) =
      gather_one-Serving i a (lookup a rt.models) (gather rt req (i + 1) rest) refl
        (gather-Serving (i + 1) rest)

  rank_insert-Serving :
      (score : String → ℕ) (c : Candidate) (ds : List Candidate)
      → Serving c
      → All Serving ds
      → All Serving (rank_insert score c ds)
  unfolding rank_insert
  rank_insert-Serving score c [] h k = (h, tt)
  rank_insert-Serving score c (d ∷ ds) h k = ground (arith, rank_insert-Serving score c ds h k.1)

  rank_sort-Serving :
      (score : String → ℕ) (cs : List Candidate) → All Serving cs → All Serving (rank_sort score cs)
  unfolding rank_sort
  rank_sort-Serving score [] h = tt
  rank_sort-Serving score (c ∷ cs) h =
      rank_insert-Serving score c (rank_sort score cs) h.0 (rank_sort-Serving score cs h.1)

  aliases_of-Serving :
      (cs : List Candidate) → All Serving cs → All (λ a. can_serve rt req a ≡ true) (aliases_of cs)
  aliases_of-Serving [] h = tt
  aliases_of-Serving (c ∷ cs) h = (h.0, aliases_of-Serving cs h.1)

  -- What an order is, if there is one.
  abbrev Served : Result (List String) → Type 0
  Served (ok names) = All (λ a. can_serve rt req a ≡ true) names
  Served (err e) = Unit

  ordered-Served :
      (score : String → ℕ) (combo : Combo) → Served (intelligent_order score combo req rt)
  unfolding intelligent_order
  ordered-Served score combo =
      go (gather rt req 0 combo.members).0 (gather rt req 0 combo.members).1
        (gather-Serving 0 combo.members)
    where
      go :
          (found : List Candidate) (capable : ℕ)
          → All Serving found
          → Served (elim found [
            | [] ↦ err (if ltb 0 capable then context_exceeded else no_compatible_model)
            | c ∷ cs ↦ ok (aliases_of (rank_sort score (c ∷ cs)))
          ])
      go [] capable h = tt
      go (c ∷ cs) capable h =
          aliases_of-Serving (rank_sort score (c ∷ cs)) (rank_sort-Serving score (c ∷ cs) h)

  keep_compatible-Served :
      (fs : List String) → All (λ a. can_serve rt req a ≡ true) (keep_compatible req rt.models fs)
  unfolding keep_compatible
  keep_compatible-Served [] = tt
  keep_compatible-Served (f ∷ fs) = ground (arith, keep_compatible-Served fs)

  distinct-Served :
      (seen cs : List String)
      → All (λ a. can_serve rt req a ≡ true) cs
      → All (λ a. can_serve rt req a ≡ true) (distinct_after seen cs)
  distinct-Served seen [] h = tt
  distinct-Served seen (c ∷ cs) h = elim (Bool-cases (contains seen c)) [
    | inl old ↦ rw old (distinct-Served seen cs h.1)
    | inr new ↦ rw new (h.0, distinct-Served (seen ++ c ∷ []) cs h.1)
  ]

  candidates-Served :
      (name : String) (members : List String)
      → is_intelligent (lookup name rt.combos) ≡ true
      → All (λ a. can_serve rt req a ≡ true) members
      → All (λ a. can_serve rt req a ≡ true) (candidates name req rt members)
  candidates-Served name [] i h = tt
  candidates-Served name (m ∷ ms) i h = (
    h.0,
    All-append (λ a. can_serve rt req a ≡ true) (eligible_fallbacks name req rt m)
        (candidates name req rt ms)
        (unfold eligible_fallbacks in
          rw i (keep_compatible-Served (fallbacks_of (lookup m rt.models))))
        (candidates-Served name ms i h.1),
  )

walk-Served :
    (name : String) (req : RequestRequirements) (rt : Routes) (entry : Result (List String))
    → is_intelligent (lookup name rt.combos) ≡ true
    → Served rt req entry
    → All (λ a. can_serve rt req a ≡ true) (walk name req rt entry)
unfolding walk
walk-Served name req rt (err e) i h = tt
walk-Served name req rt (ok members) i h = rw (chain_from-distinct name req rt members) (
    All-take (λ a. can_serve rt req a ≡ true) max_chain_attempts
      (distinct_after [] (candidates name req rt members))
      (distinct-Served rt req [] (candidates name req rt members)
        (candidates-Served rt req name members i h)))

entrypoints-intelligent :
    (score : String → ℕ) (name : String) (req : RequestRequirements) (rt : Routes) (combo : Combo)
    → lookup name rt.combos ≡ some combo
    → combo.strategy ≡ combo_intelligent
    → entrypoints score name req rt ≡ (intelligent_order score combo req rt, rt)
unfolding entrypoints
entrypoints-intelligent score name req rt combo e s = ground arith

-- Every route that an intelligent combo tries, members and fallbacks alike, is an alias that exists,
-- has the capabilities that the request needs, and has a context window that is unknown or large
-- enough.
pub chain-can_serve :
    (score : String → ℕ) (name : String) (req : RequestRequirements) (rt : Routes) (combo : Combo)
    → lookup name rt.combos ≡ some combo
    → combo.strategy ≡ combo_intelligent
    → All (λ a. can_serve rt req a ≡ true) (chain score name req rt).0
unfolding chain
chain-can_serve score name req rt combo e s =
    let q = entrypoints-intelligent score name req rt combo e s in
    let i : is_intelligent (lookup name rt.combos) ≡ true = ground arith in
    rw (q, chain)
      (walk-Served name req rt (intelligent_order score combo req rt) i
        (ordered-Served rt req score combo))
