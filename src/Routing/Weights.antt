-- ===== src/Routing/Weights.antt =====
-- What `weightedPick` chooses over a full cycle of the counter.
use zealish_router.Base.{
  ℕ, zero, suc, ◌+◌, ◌-◌, ◌%◌, ◌≤◌, ◌<◌, ◌≡◌, refl, ◌∙◌, ap, List, [], ◌∷◌, arith, length, String,
  ◌==◌, ltb, if◌then◌else◌, leb, ◌*◌, ◌&&◌,
}
use native.Mathlib.Nat.{mul-add-mod_self_right, mod-eq_of_lt}
use zealish_router.Routing.Pool.{weight_at, weight_sum, pick_at, weighted_pick}

weight_at_pos : (weights : List ℕ) (i : ℕ) → 1 ≤ weight_at weights i
unfolding weight_at
weight_at_pos weights i = ground arith

-- Of the offsets from `from` on, how many pick the member `j`.
unfoldable pub picked : List ℕ → ℕ → List String → ℕ → ℕ → ℕ → ℕ
picked weights i members j from zero = 0
picked weights i members j from (suc n) =
    (if pick_at weights from i members == j then 1 else 0) + picked weights i members j (from + 1) n

-- The weight of position `j`, if it is one of the members from `i` on.
abbrev share_of : List ℕ → ℕ → List String → ℕ → ℕ
share_of weights i members j =
    if leb i j && ltb j (i + length members) then weight_at weights j else 0

picked-add :
    (weights : List ℕ) (i : ℕ) (members : List String) (j from a b : ℕ)
    → picked weights i members j from (a + b)
      ≡ picked weights i members j from a + picked weights i members j (from + a) b
unfolding picked
picked-add weights i members j from zero b =
    let e : zero + b ≡ b = omega arith in
    let f : from + zero ≡ from = omega arith in rw (e, f) (omega arith)
picked-add weights i members j from (suc a) b =
    let e : suc a + b ≡ suc (a + b) = omega arith in
    let f : from + 1 + a ≡ from + suc a = omega arith in
    rw e (
      omega (
        arith,
        picked-add weights i members j (from + 1) a b,
        ap (λ (k : ℕ). picked weights i members j k b) f,
      ))

-- Offsets below the first weight pick the first member.
picked_low :
    (weights : List ℕ) (i : ℕ) (m : String) (ms : List String) (j from n : ℕ)
    → from + n ≤ weight_at weights i
    → picked weights i (m ∷ ms) j from n ≡ (if i == j then n else 0)
unfolding picked pick_at
picked_low weights i m ms j from zero h = ground arith
picked_low weights i m ms j from (suc n) h =
    ground (arith, picked_low weights i m ms j (from + 1) n (omega arith))

-- Offsets past it pick among the others.
picked_high :
    (weights : List ℕ) (i : ℕ) (m : String) (ms : List String) (j from n : ℕ)
    → weight_at weights i ≤ from
    → picked weights i (m ∷ ms) j from n
      ≡ picked weights (i + 1) ms j (from - weight_at weights i) n
unfolding picked pick_at
picked_high weights i m ms j from zero h = refl
picked_high weights i m ms j from (suc n) h =
    let e : from + 1 - weight_at weights i ≡ from - weight_at weights i + 1 = omega arith in
    ground (
      arith,
      picked_high weights i m ms j (from + 1) n (omega arith),
      ap (λ (k : ℕ). picked weights (i + 1) ms j k n) e,
    )

picked-share_of :
    (weights : List ℕ) (i : ℕ) (members : List String) (j : ℕ)
    → picked weights i members j 0 (weight_sum weights i members) ≡ share_of weights i members j
unfolding weight_sum
picked-share_of weights i [] j = unfold picked in ground arith
picked-share_of weights i (m ∷ ms) j =
    let w = weight_at weights i in
    let s = weight_sum weights (i + 1) ms in
    let z : 0 + w - w ≡ 0 = omega arith in
    ground (
      arith,
      picked-add weights i (m ∷ ms) j 0 w s,
      picked_low weights i m ms j 0 w (omega arith),
      picked_high weights i m ms j (0 + w) s (omega arith),
      ap (λ (k : ℕ). picked weights (i + 1) ms j k s) z,
      picked-share_of weights (i + 1) ms j,
    )

-- How often position `j` starts the chain in `n` requests from the counter value `from` on.
unfoldable pub starts : List String → List ℕ → ℕ → ℕ → ℕ → ℕ
starts members weights j from zero = 0
starts members weights j from (suc n) =
    (if weighted_pick members weights from == j then 1 else 0)
    + starts members weights j (from + 1) n

starts-picked :
    (members : List String) (weights : List ℕ) (j q k n : ℕ)
    → k + n ≤ weight_sum weights 0 members
    → starts members weights j (q * weight_sum weights 0 members + k) n
      ≡ picked weights 0 members j k n
unfolding starts picked weighted_pick
starts-picked members weights j q k zero h = refl
starts-picked members weights j q k (suc n) h =
    let total = weight_sum weights 0 members in
    let e : (q * total + k) % total ≡ k =
      mul-add-mod_self_right q total k ∙ mod-eq_of_lt {n = k} {m = total} (omega arith) in
    let f : q * total + k + 1 ≡ q * total + (k + 1) = omega arith in
    rw (e, f)
      (ap (λ (x : ℕ). (if pick_at weights k 0 members == j then 1 else 0) + x)
        (starts-picked members weights j q (k + 1) n (omega arith)))

-- Over each full cycle of the counter, of as many requests as the weights add up to, each member
-- starts the chain exactly as often as its weight says.
pub weighted_share :
    (members : List String) (weights : List ℕ) (j q : ℕ)
    → j < length members
    → let total = weight_sum weights 0 members in
      starts members weights j (q * total) total ≡ weight_at weights j
weighted_share members weights j q h =
    let total = weight_sum weights 0 members in
    let e : q * total ≡ q * total + 0 = omega arith in
    rw e (
      ground
        (arith, starts-picked members weights j q 0 total, picked-share_of weights 0 members j))
