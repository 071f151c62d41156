-- ===== src/Stats/Aggregate.antt =====
-- What the reported statistics of an alias say of the samples in its window.
use zealish_router.Base.{
  ℕ, ◌+◌, ◌*◌, ◌≤◌, ◌<◌, ◌≡◌, refl, ◌∙◌, Bool, List, [], ◌∷◌, arith, leb, ltb, length, count,
  if◌then◌else◌, map, String, Option, some, none, ◌++◌, append_assoc, append-nil, ap,
  count-le-length, lookup,
}
use zealish_router.Stats.{
  RequestMetric, Series, split, split_from, split_one, aggregate, sort, tail, percentile, median,
  success_rate, alias_stats, aggregate_some, AliasStats, stats_window, Ring, snapshot,
}
use zealish_router.Stats.Buffer.{last_n}
use zealish_router.Stats.Window.{record_all, measured, live_samples-record_all}
use zealish_router.Stats.Sort.{sort-IsSorted, count-sort, length-sort}
use zealish_router.Stats.Percentile.{count_le, count_lt, count_ge, percentile_rank, median_halves}

abbrev pub latencies_of : List RequestMetric → List ℕ
latencies_of = map (λ m. m.latency_ms)

-- The times to first byte of the requests that produced one.
abbrev pub ttfbs_of : List RequestMetric → List ℕ
ttfbs_of [] = []
ttfbs_of (m ∷ ms) = let rest = ttfbs_of ms in if ltb 0 m.ttfb_ms then m.ttfb_ms ∷ rest else rest

abbrev pub succeeded_in : List RequestMetric → ℕ
succeeded_in = count (λ m. m.success)

split_from_lem :
    (s : Series) (ms : List RequestMetric)
    → ((split_from s ms).latencies ≡ s.latencies ++ latencies_of ms)
      × ((split_from s ms).ttfbs ≡ s.ttfbs ++ ttfbs_of ms)
      × ((split_from s ms).succeeded ≡ s.succeeded + succeeded_in ms)
unfolding split_from
split_from_lem s [] = ground (arith, append-nil s.latencies, append-nil s.ttfbs)
split_from_lem s (m ∷ ms) = ground (
  arith,
  split_from_lem (split_one m s) ms,
  append_assoc s.latencies (m.latency_ms ∷ []) (latencies_of ms),
  append_assoc s.ttfbs (m.ttfb_ms ∷ []) (ttfbs_of ms),
)

split_lem :
    (ms : List RequestMetric)
    → ((split ms).latencies ≡ latencies_of ms)
      × ((split ms).ttfbs ≡ ttfbs_of ms)
      × ((split ms).succeeded ≡ succeeded_in ms)
unfolding split
split_lem ms =
    ground
      (arith, split_from_lem (record { latencies = []; ttfbs = []; succeeded = 0; updated = 0 }) ms)

length-latencies_of : (ms : List RequestMetric) → length (latencies_of ms) ≡ length ms
length-latencies_of [] = refl
length-latencies_of (m ∷ ms) = omega (arith, length-latencies_of ms)

-- The latencies as `aggregate` sorts them.
abbrev sorted_latencies : List RequestMetric → List ℕ
sorted_latencies ms = sort (split ms).latencies

length-sorted_latencies : (ms : List RequestMetric) → length (sorted_latencies ms) ≡ length ms
length-sorted_latencies ms =
    length-sort (split ms).latencies ∙ ap length (split_lem ms).0 ∙ length-latencies_of ms

count-sorted_latencies :
    (p : ℕ → Bool) (ms : List RequestMetric)
    → count p (sorted_latencies ms) ≡ count p (latencies_of ms)
count-sorted_latencies p ms = count-sort p (split ms).latencies ∙ ap (count p) (split_lem ms).0

-- The tail latency is reported only for ten samples or more; then at least 95 percent of the
-- requests in the window took at most that long, and fewer than 95 percent took less.
pub aggregate_tail :
    (alias : String) (ms : List RequestMetric)
    → (length ms < 10 → (aggregate alias ms).p95_ms ≡ none)
      × (10 ≤ length ms
          → (x : ℕ) × ((aggregate alias ms).p95_ms ≡ some x)
            × (95 * length ms ≤ 100 * count_le x (latencies_of ms))
            × (100 * count_lt x (latencies_of ms) < 95 * length ms))
unfolding aggregate tail
aggregate_tail alias ms = (λ few. ground (arith, length-sorted_latencies ms), many)
  where
    many :
        10 ≤ length ms
        → (x : ℕ) × ((aggregate alias ms).p95_ms ≡ some x)
          × (95 * length ms ≤ 100 * count_le x (latencies_of ms))
          × (100 * count_lt x (latencies_of ms) < 95 * length ms)
    many h =
        let xs = sorted_latencies ms in
        let x = percentile xs 95 in
        let rank =
          percentile_rank xs 95 (sort-IsSorted (split ms).latencies)
            (omega (arith, length-sorted_latencies ms)) (omega arith) (omega arith) in
        (
          x,
          ground (arith, length-sorted_latencies ms),
          omega
              (arith, rank.0, length-sorted_latencies ms, count-sorted_latencies (λ y. leb y x) ms),
          omega
              (arith, rank.1, length-sorted_latencies ms, count-sorted_latencies (λ y. ltb y x) ms),
        )

-- The median latency is over the whole window, failures included; the success rate is the share of
-- the requests that succeeded, between 0 and 100 percent.
pub aggregate_centre :
    (alias : String) (ms : List RequestMetric)
    → 0 < length ms
    → let a = aggregate alias ms in
      (length ms ≤ 2 * count_le a.p50_ms (latencies_of ms))
      × (length ms ≤ 2 * count_ge a.p50_ms (latencies_of ms))
      × (a.success_rate.num ≡ 100 * succeeded_in ms)
      × (a.success_rate.den ≡ length ms)
      × (a.success_rate.num ≤ 100 * a.success_rate.den)
unfolding aggregate success_rate
aggregate_centre alias ms h =
    let xs = sorted_latencies ms in
    let x = median xs in
    let halves =
      median_halves xs (sort-IsSorted (split ms).latencies)
        (omega (arith, length-sorted_latencies ms)) in
    (
      omega (arith, halves.0, length-sorted_latencies ms, count-sorted_latencies (λ y. leb y x) ms),
      omega (arith, halves.1, length-sorted_latencies ms, count-sorted_latencies (λ y. leb x y) ms),
      ground (arith, split_lem ms),
      ground arith,
      ground (arith, split_lem ms, count-le-length (λ (m : RequestMetric). m.success) ms),
    )

-- What is reported for an alias after any measurements is the aggregate of the last 200 of that
-- alias, and nothing if there is none.
pub alias_stats-record_all :
    (a : String) (ms : List (ℕ × RequestMetric))
    → alias_stats a (record_all [] ms) ≡ aggregate_some a (last_n stats_window (measured a ms))
unfolding alias_stats
alias_stats-record_all a ms =
    shown (lookup a (record_all [] ms)) ∙ ap (aggregate_some a) (live_samples-record_all a ms)
  where
    shown :
        (o : Option Ring)
        → ◌≡◌ {A = Option AliasStats}
            (elim o [ none ↦ none | some r ↦ aggregate_some a (snapshot r) ])
            (aggregate_some a (elim o [ none ↦ [] | some r ↦ snapshot r ]))
    shown none = refl
    shown (some r) = refl
