-- ===== src/Tests/Stats.antt =====
-- internal/router/stats.go at fixed inputs.
use zealish_router.Base.{
  ℕ, ◌*◌, ◌≤◌, ◌<◌, ◌≡◌, refl, true, List, [], ◌∷◌, arith, some, none, length,
}
use zealish_router.Stats.{
  RequestMetric, live_samples, stats_window, aggregate, alias_stats, aggregate_some, new_ring, add,
  snapshot,
}
use zealish_router.Stats.Buffer.{last_n}
use zealish_router.Stats.Window.{record_all, measured, live_samples-record_all}
use zealish_router.Stats.Percentile.{count_le, count_lt, count_ge}
use zealish_router.Stats.Aggregate.{
  latencies_of, succeeded_in, aggregate_tail, aggregate_centre, alias_stats-record_all,
}

abbrev took : ℕ → RequestMetric
took ms = record { alias = "fast"; success = true; ttfb_ms = 1; latency_ms = ms; timestamp = 7 }

-- A ring of three overwrites its oldest sample.
ring_wraps :
    snapshot (add (took 4) (add (took 3) (add (took 2) (add (took 1) (new_ring 3)))))
    ≡ took 2 ∷ took 3 ∷ took 4 ∷ []
unfolding snapshot add new_ring
ring_wraps = refl

abbrev events : List (ℕ × RequestMetric)
events = (1, took 30) ∷ (2, record (took 5) { alias = "slow" }) ∷ (3, took 10) ∷ []

live_samples-record_all_example :
    live_samples "fast" (record_all [] events) ≡ took 30 ∷ took 10 ∷ []
live_samples-record_all_example = live_samples-record_all "fast" events

abbrev eleven : List RequestMetric
eleven =
    took 3
    ∷ took 1
    ∷ took 2
    ∷ took 9
    ∷ took 8
    ∷ took 7
    ∷ took 4
    ∷ took 5
    ∷ took 6
    ∷ took 90
    ∷ took 10
    ∷ []

aggregate_tail_example :
    (length eleven < 10 → (aggregate "fast" eleven).p95_ms ≡ none)
    × (10 ≤ length eleven
        → (x : ℕ) × ((aggregate "fast" eleven).p95_ms ≡ some x)
          × (95 * length eleven ≤ 100 * count_le x (latencies_of eleven))
          × (100 * count_lt x (latencies_of eleven) < 95 * length eleven))
aggregate_tail_example = aggregate_tail "fast" eleven

aggregate_centre_example :
    let a = aggregate "fast" eleven in
    (length eleven ≤ 2 * count_le a.p50_ms (latencies_of eleven))
    × (length eleven ≤ 2 * count_ge a.p50_ms (latencies_of eleven))
    × (a.success_rate.num ≡ 100 * succeeded_in eleven)
    × (a.success_rate.den ≡ length eleven)
    × (a.success_rate.num ≤ 100 * a.success_rate.den)
aggregate_centre_example = aggregate_centre "fast" eleven (omega arith)

alias_stats-record_all_example :
    alias_stats "fast" (record_all [] events)
    ≡ aggregate_some "fast" (last_n stats_window (measured "fast" events))
alias_stats-record_all_example = alias_stats-record_all "fast" events
