-- ===== src/Routing/Pool.antt =====
-- How a round-robin and a weighted combo choose their first member (internal/router/router.go).
use zealish_router.Base.{
  ℕ, zero, suc, ◌+◌, ◌-◌, ◌%◌, String, none, some, List, [], ◌∷◌, ltb, if◌then◌else◌, length,
  get_or, get_elem?,
}

-- `members[(start+i)%n]` for the n values of i from `i` on.
unfoldable pub rotate_from : List String → ℕ → ℕ → ℕ → List String
rotate_from members start i zero = []
rotate_from members start i (suc left) =
    get_or members ((start + i) % length members) "" ∷ rotate_from members start (i + 1) left

unfoldable pub rotate : List String → ℕ → List String
rotate members start = rotate_from members start 0 (length members)

-- A weight below 1, or missing, counts as 1.
unfoldable pub weight_at : List ℕ → ℕ → ℕ
weight_at weights i = elim (get_elem? weights i) [ none ↦ 1 | some w ↦ if ltb w 1 then 1 else w ]

unfoldable pub weight_sum : List ℕ → ℕ → List String → ℕ
weight_sum weights i [] = 0
weight_sum weights i (m ∷ ms) = weight_at weights i + weight_sum weights (i + 1) ms

-- The second loop of `weightedPick`: it returns when the offset falls below zero.
unfoldable pub pick_at : List ℕ → ℕ → ℕ → List String → ℕ
pick_at weights offset i [] = 0
pick_at weights offset i (m ∷ ms) =
    let rest = pick_at weights (offset - weight_at weights i) (i + 1) ms in
    if ltb offset (weight_at weights i) then i else rest

unfoldable pub weighted_pick : List String → List ℕ → ℕ → ℕ
weighted_pick members weights tick = pick_at weights (tick % weight_sum weights 0 members) 0 members
