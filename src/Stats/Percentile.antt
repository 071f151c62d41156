-- ===== src/Stats/Percentile.antt =====
-- internal/router/percentile.go: what the percentile and the median say of the samples.
use zealish_router.Base.{
  ℕ, zero, suc, ◌+◌, ◌-◌, ◌*◌, ◌/◌, ◌%◌, ◌≤◌, ◌<◌, ◌≡◌, List, [], ◌∷◌, arith, leb, ltb, length,
  get_or, count, ◌≢◌,
}
use native.Mathlib.Decide.{ℕ_discrete}
use native.Mathlib.Numerals.{add-one}
use zealish_router.Stats.{percentile, median}
use zealish_router.Stats.Sort.{IsSorted, rank_le, rank_lt, All-get_or, rank_ge}

abbrev pub count_le : ℕ → List ℕ → ℕ
count_le x = count (λ y. leb y x)

abbrev pub count_lt : ℕ → List ℕ → ℕ
count_lt x = count (λ y. ltb y x)

-- The position that the nearest-rank rule picks.
percentile-position :
    (xs : List ℕ) (p : ℕ)
    → 0 < length xs
    → 0 < p
    → p < 100
    → (i : ℕ) × (i < length xs)
      × (p * length xs ≤ 100 * (i + 1))
      × (100 * i < p * length xs)
      × (percentile xs p ≡ get_or xs i 0)
unfolding percentile
percentile-position xs p h k l = (
  (p * length xs + 99) / 100 - 1,
  omega (arith, some_samples, below_all),
  omega (arith, some_samples),
  omega (arith, some_samples),
  ground (arith, rank_pos),
)
  where
    some_samples : 1 ≤ p * length xs
    some_samples = grind arith

    below_all : p * length xs ≤ 99 * length xs
    below_all = grind arith

    rank_pos : 1 ≤ (p * length xs + 99) / 100
    rank_pos = omega (arith, some_samples)

-- The percentile of a sorted window is a nearest rank: at least p percent of the samples are at
-- most that value, and fewer than p percent are less than it.
pub percentile_rank :
    (xs : List ℕ) (p : ℕ)
    → IsSorted xs
    → 0 < length xs
    → 0 < p
    → p < 100
    → (p * length xs ≤ 100 * count_le (percentile xs p) xs)
      × (100 * count_lt (percentile xs p) xs < p * length xs)
percentile_rank xs p s h k l =
    let (i, inside, enough, few, e) = percentile-position xs p h k l in
    rw e (omega (arith, enough, rank_le xs i s inside), omega (arith, few, rank_lt xs i s inside))

abbrev pub count_ge : ℕ → List ℕ → ℕ
count_ge x = count (λ y. leb x y)

count_le_mono : (a b : ℕ) (xs : List ℕ) → a ≤ b → count_le a xs ≤ count_le b xs
count_le_mono a b [] h = omega arith
count_le_mono a b (x ∷ xs) h = ground (arith, count_le_mono a b xs h)

count_ge_mono : (a b : ℕ) (xs : List ℕ) → a ≤ b → count_ge b xs ≤ count_ge a xs
count_ge_mono a b [] h = omega arith
count_ge_mono a b (x ∷ xs) h = ground (arith, count_ge_mono a b xs h)

get_or_mono :
    (xs : List ℕ) (i : ℕ) → IsSorted xs → i + 1 < length xs → get_or xs i 0 ≤ get_or xs (i + 1) 0
get_or_mono [] i s h = absurd (omega arith)
get_or_mono (x ∷ xs) zero s h = All-get_or x xs 0 (omega arith) s.0
get_or_mono (x ∷ xs) (suc i) s h =
    rw (add-one (suc i)) (rw (← add-one i) (get_or_mono xs i s.1 (omega arith)))

median_odd : (xs : List ℕ) → length xs % 2 ≡ 1 → median xs ≡ get_or xs (length xs / 2) 0
unfolding median
median_odd xs h = ground arith

median_even :
    (xs : List ℕ)
    → 0 < length xs
    → length xs % 2 ≢ 1
    → median xs ≡ (get_or xs (length xs / 2 - 1) 0 + get_or xs (length xs / 2 - 1 + 1) 0) / 2
unfolding median
median_even xs h k =
    let e : length xs / 2 - 1 + 1 ≡ length xs / 2 = omega arith in rw e (ground arith)

half_low : (a b : ℕ) → a ≤ b → a ≤ (a + b) / 2
half_low a b h = omega arith

half_high : (a b : ℕ) → a ≤ b → (a + b) / 2 ≤ b
half_high a b h = omega arith

-- The median of a sorted window: half of the samples are at most that value, and half at least.
pub median_halves :
    (xs : List ℕ)
    → IsSorted xs
    → 0 < length xs
    → (length xs ≤ 2 * count_le (median xs) xs) × (length xs ≤ 2 * count_ge (median xs) xs)
median_halves xs s h = elim (ℕ_discrete (length xs % 2) 1) [
  | yes odd ↦
      let i = length xs / 2 in
      let inside : i < length xs = omega arith in
      rw (median_odd xs odd)
        (omega (arith, rank_le xs i s inside), omega (arith, rank_ge xs i s inside))
  | no even ↦
      let i = length xs / 2 - 1 in
      let inside : i + 1 < length xs = omega arith in
      let a = get_or xs i 0 in
      let b = get_or xs (i + 1) 0 in
      let le : a ≤ b = get_or_mono xs i s inside in
      rw (median_even xs h even) (
        omega (
          arith,
          rank_le xs i s (omega arith),
          count_le_mono a ((a + b) / 2) xs (half_low a b le),
        ),
        omega (
          arith,
          rank_ge xs (i + 1) s inside,
          count_ge_mono ((a + b) / 2) b xs (half_high a b le),
        ),
      )
]
