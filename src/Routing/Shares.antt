-- ===== src/Routing/Shares.antt =====
-- How often each member of a weighted combo starts the chain of a request.
use native.Mathlib.Nat.{mod-eq_of_lt}
use zealish_router.Base.{
  ℕ, zero, suc, ◌+◌, ◌-◌, ◌*◌, ◌%◌, ◌≤◌, ◌<◌, ◌≡◌, refl, sym, ap, ◌∙◌, String, Bool, false, Option,
  none, some, List, [], ◌∷◌, ◌==◌, if◌then◌else◌, lookup, lookup-insert_self, arith, length, take,
  get_or, count, str_eq, eq_iff, str_eq_refl, IsDistinct, All,
}
use zealish_router.Routing.Table.{Combo, combo_weighted, RequestRequirements, Routes, ok}
use zealish_router.Routing.Pool.{rotate, rotate_from, weight_at, weight_sum, pick_at, weighted_pick}
use zealish_router.Routing.Chain.{advance, entrypoints, walk, chain_from, chain}
use zealish_router.Routing.Distinct.{chain_from_bounds}
use zealish_router.Routing.Weights.{starts, weighted_share}

abbrev pub first : List String → String
first [] = ""
first (m ∷ ms) = m

-- The names that start the chains of requests for one name, one after the other.
unfoldable pub firsts : (String → ℕ) → String → List RequestRequirements → Routes → List String
firsts score name [] rt = []
firsts score name (req ∷ reqs) rt =
    let (tried, rt') = chain score name req rt in first tried ∷ firsts score name reqs rt'

-- How many requests the counter of a name has seen.
abbrev pub cursor : String → Routes → ℕ
cursor name rt = elim (lookup name rt.cursors) [ none ↦ 0 | some n ↦ n ]

first-rotate :
    (members : List String) (start : ℕ)
    → start < length members
    → first (rotate members start) ≡ get_or members start ""
unfolding rotate rotate_from
first-rotate [] start h = absurd (omega (arith, h))
first-rotate (m ∷ ms) start h =
    let e : start + 0 ≡ start = omega arith in
    ap (λ i. get_or (m ∷ ms) i "")
      (ap (λ s. s % length (m ∷ ms)) e ∙ mod-eq_of_lt {n = start} {m = length (m ∷ ms)} h)

first-take : (ms : List String) → first (take 1 ms) ≡ first ms
first-take [] = refl
first-take (m ∷ ms) = refl

-- A chain starts with the first entry point.
first-walk :
    (name : String) (req : RequestRequirements) (rt : Routes) (entry : List String)
    → first (walk name req rt (ok entry)) ≡ first entry
unfolding walk
first-walk name req rt [] = unfold chain_from in refl
first-walk name req rt (m ∷ ms) =
    sym (first-take (chain_from name req rt (m ∷ ms) []))
    ∙ ap first (chain_from_bounds name req rt m ms).2

pick_at_bound :
    (weights : List ℕ) (offset i : ℕ) (members : List String)
    → 1 ≤ i + length members
    → pick_at weights offset i members < i + length members
unfolding pick_at
pick_at_bound weights offset i [] h = omega (arith, h)
pick_at_bound weights offset i (m ∷ ms) h =
    ground (arith, pick_at_bound weights (offset - weight_at weights i) (i + 1) ms (omega arith))

get_or-All :
    (m : String) (ms : List String) (i : ℕ)
    → All (λ y. str_eq m y ≡ false) ms
    → i < length ms
    → str_eq m (get_or ms i "") ≡ false
get_or-All m [] i h k = absurd (omega (arith, k))
get_or-All m (x ∷ ms) zero h k = h.0
get_or-All m (x ∷ ms) (suc i) h k = get_or-All m ms i h.1 (omega (arith, k))

-- Distinct members are equal only at one position.
get_or-IsDistinct :
    (members : List String) (i j : ℕ)
    → IsDistinct members
    → i < length members
    → j < length members
    → str_eq (get_or members i "") (get_or members j "") ≡ (i == j)
get_or-IsDistinct [] i j h k l = absurd (omega (arith, k))
get_or-IsDistinct (m ∷ ms) zero zero h k l = str_eq_refl m
get_or-IsDistinct (m ∷ ms) zero (suc j) h k l =
    ground (arith, get_or-All m ms j h.0 (omega (arith, l)))
get_or-IsDistinct (m ∷ ms) (suc i) zero h k l =
    let x = get_or ms i "" in
    ground (arith, get_or-All m ms i h.0 (omega (arith, k)), eq_iff m x, eq_iff x m)
get_or-IsDistinct (m ∷ ms) (suc i) (suc j) h k l =
    ground (arith, get_or-IsDistinct ms i j h.1 (omega (arith, k)) (omega (arith, l)))

-- What a configured weight means: the weight of position `i`, and 1 if it is missing or 0.
unfoldable pub share : List ℕ → ℕ → ℕ
share [] i = 1
share (zero ∷ ws) zero = 1
share (suc w ∷ ws) zero = suc w
share (w ∷ ws) (suc i) = share ws i

-- What the members' weights add up to, from position `i` on.
unfoldable pub cycle : List ℕ → ℕ → List String → ℕ
cycle weights i [] = 0
cycle weights i (m ∷ ms) = share weights i + cycle weights (i + 1) ms

weight_at-share : (weights : List ℕ) (i : ℕ) → weight_at weights i ≡ share weights i
unfolding weight_at share
weight_at-share [] i = refl
weight_at-share (zero ∷ ws) zero = ground arith
weight_at-share (suc w ∷ ws) zero = ground arith
weight_at-share (w ∷ ws) (suc i) = weight_at-share ws i

weight_sum-cycle :
    (weights : List ℕ) (i : ℕ) (members : List String)
    → weight_sum weights i members ≡ cycle weights i members
unfolding weight_sum cycle
weight_sum-cycle weights i [] = refl
weight_sum-cycle weights i (m ∷ ms) =
    omega (arith, weight_at-share weights i, weight_sum-cycle weights (i + 1) ms)

count-cons :
    (p : String → Bool) (x : String) (xs : List String)
    → count p (x ∷ xs) ≡ (if p x then 1 else 0) + count p xs
count-cons p x xs = ground arith

module _ (score : String → ℕ) (name : String) (combo : Combo)
    (weighted : combo.strategy ≡ combo_weighted) where
  chain-weighted :
      (req : RequestRequirements) (rt : Routes)
      → lookup name rt.combos ≡ some combo
      → let start = weighted_pick combo.members combo.weights (cursor name rt) in
        let rt' = (advance name rt).1 in
        chain score name req rt ≡ (walk name req rt' (ok (rotate combo.members start)), rt')
  unfolding chain entrypoints advance
  chain-weighted req rt h = ground (arith, h, weighted)

  cursor-advance :
      (rt : Routes)
      → cursor name rt + 1 < 18446744073709551616
      → (cursor name (advance name rt).1 ≡ cursor name rt + 1)
        × ((advance name rt).1.combos ≡ rt.combos)
  unfolding advance
  cursor-advance rt h =
      let next = (cursor name rt + 1) % 18446744073709551616 in
      (
        ap (λ (o : Option ℕ). elim o [ none ↦ 0 | some n ↦ n ])
              (lookup-insert_self name next rt.cursors)
            ∙ mod-eq_of_lt {n = cursor name rt + 1} {m = 18446744073709551616} h,
        refl,
      )

  module _ (j : ℕ) (distinct : IsDistinct combo.members) (within : j < length combo.members) where
    first_is :
        (tick : ℕ)
        → str_eq
            (first (rotate combo.members (weighted_pick combo.members combo.weights tick)))
            (get_or combo.members j "")
          ≡ (weighted_pick combo.members combo.weights tick == j)
    unfolding weighted_pick
    first_is tick =
        let i = weighted_pick combo.members combo.weights tick in
        let bound : i < length combo.members = omega (
          arith,
          pick_at_bound combo.weights (tick % weight_sum combo.weights 0 combo.members) 0
              combo.members (omega (arith, within)),
        ) in
        ap (λ m. str_eq m (get_or combo.members j "")) (first-rotate combo.members i bound)
        ∙ get_or-IsDistinct combo.members i j distinct bound within

    count-firsts :
        (reqs : List RequestRequirements) (rt : Routes)
        → lookup name rt.combos ≡ some combo
        → cursor name rt + length reqs < 18446744073709551616
        → count (λ m. str_eq m (get_or combo.members j "")) (firsts score name reqs rt)
          ≡ starts combo.members combo.weights j (cursor name rt) (length reqs)
    unfolding firsts starts
    count-firsts [] rt h k = refl
    count-firsts (req ∷ reqs) rt h k =
        let is_member = λ (m : String). str_eq m (get_or combo.members j "") in
        let start =
          rotate combo.members (weighted_pick combo.members combo.weights (cursor name rt)) in
        let rt' = (advance name rt).1 in
        let (moved, kept) = cursor-advance rt (omega (arith, k)) in
        let rest = count-firsts reqs rt' (ap (lookup name) kept ∙ h) (omega (arith, k, moved)) in
        ap (λ p. count is_member (first p.0 ∷ firsts score name reqs p.1)) (chain-weighted req rt h)
        ∙ count-cons is_member (first (walk name req rt' (ok start))) (firsts score name reqs rt')
        ∙ ap (λ (b : Bool). (if b then 1 else 0) + count is_member (firsts score name reqs rt'))
            (ap is_member (first-walk name req rt' start) ∙ first_is (cursor name rt))
        ∙ ap
            (λ (n : ℕ).
              (if weighted_pick combo.members combo.weights (cursor name rt) == j then 1 else 0)
              + n)
            (rest ∙ ap (λ (c : ℕ). starts combo.members combo.weights j c (length reqs)) moved)

-- Requests for a weighted combo of distinct members, one after the other, as many as the weights add
-- up to, from a counter that is a multiple of that number and does not wrap around: each member is
-- what the chain starts with for exactly as many of them as its weight says, whatever the requests
-- need. A weight that is missing or 0 counts as 1.
pub firsts-share :
    (score : String → ℕ) (name : String) (combo : Combo) (reqs : List RequestRequirements)
    (rt : Routes) (j q : ℕ)
    → let total = cycle combo.weights 0 combo.members in
      (combo.strategy ≡ combo_weighted)
      → lookup name rt.combos ≡ some combo
      → IsDistinct combo.members
      → j < length combo.members
      → length reqs ≡ total
      → cursor name rt ≡ q * total
      → q * total + total < 18446744073709551616
      → count (λ m. str_eq m (get_or combo.members j "")) (firsts score name reqs rt)
        ≡ share combo.weights j
firsts-share score name combo reqs rt j q weighted found distinct within many start small =
    let sum = weight_sum-cycle combo.weights 0 combo.members in
    count-firsts score name combo weighted j distinct within reqs rt found
      (omega (arith, many, start, small))
    ∙ ap (λ (c : ℕ). starts combo.members combo.weights j c (length reqs)) start
    ∙ ap
        (λ (total : ℕ).
          starts combo.members combo.weights j (q * cycle combo.weights 0 combo.members) total)
        many
    ∙ ap (λ (total : ℕ). starts combo.members combo.weights j (q * total) total) (sym sum)
    ∙ weighted_share combo.members combo.weights j q within
    ∙ weight_at-share combo.weights j
