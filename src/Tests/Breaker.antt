-- ===== src/Tests/Breaker.antt =====
-- internal/router/breaker.go at fixed inputs, along breaker_test.go.
use zealish_router.Base.{
  ◌+◌, ◌<◌, ◌≡◌, refl, true, false, List, [], ◌∷◌, String, arith, lookup, insert, pos, not, ◌&&◌,
}
use zealish_router.Breaker.{
  BreakerPolicy, Breakers, closed, open_circuit, half_open, new_breakers, set_overrides,
  rebuild_breakers, policy_for, get, store, report, transition, allow, success, failure, trip,
  phase, state_eq,
}
use zealish_router.Breaker.Single.{Event, succeeds, fails, single_run, IsSound}
use zealish_router.Breaker.Isolation.{step, run, own, get-run, run-IsSound}
use zealish_router.Breaker.Recovery.{
  admissions, failing, admissions_open, failures_trip, probe_outcome, phase-allow,
}
use zealish_router.Breaker.Reports.{last_reported, last_reported-run}

abbrev strict : BreakerPolicy
strict = record { failure_threshold = pos 3; cooldown = 30 }

-- Two providers fail by turns; the first trips at its third failure.
abbrev mixed : List (String × Event)
mixed =
    ("openai", fails 1)
    ∷ ("groq", fails 2)
    ∷ ("openai", fails 3)
    ∷ ("groq", succeeds)
    ∷ ("openai", fails 5)
    ∷ []

mixed_trips :
    ((get "openai" (run (new_breakers strict) mixed)).state ≡ open_circuit)
    × ((get "groq" (run (new_breakers strict) mixed)).state ≡ closed)
unfolding run step new_breakers failure success trip transition get store report policy_for lookup
    insert
mixed_trips = (refl, refl)

get-run_example :
    get "groq" (run (new_breakers strict) mixed)
    ≡ single_run
        (policy_for "groq" (new_breakers strict))
        (get "groq" (new_breakers strict))
        (own "groq" mixed)
get-run_example = get-run "groq" (new_breakers strict) mixed

run-IsSound_example : IsSound strict (get "openai" (run (new_breakers strict) mixed))
run-IsSound_example = run-IsSound "openai" strict mixed (omega arith)

abbrev tripped : Breakers
tripped = record {
  hooked = true;
  reported = ("openai", open_circuit) ∷ [];
  policy = strict;
  overrides = [];
  state =
      ("openai", record { failures = 3; state = open_circuit; opened_at = 5; probing = false })
      ∷ [];
}

admissions_open_example : admissions "openai" tripped (20 ∷ 36 ∷ 40 ∷ 99 ∷ []) ≡ 36 ∷ []
unfolding get policy_for lookup
admissions_open_example =
    admissions_open "openai" tripped (20 ∷ 36 ∷ 40 ∷ 99 ∷ []) (omega arith) refl

failures_trip_example :
    let b = new_breakers strict in
    let b' = run b (failing "openai" (1 ∷ 3 ∷ 5 ∷ [])) in
    ((get "openai" (run b (failing "openai" (1 ∷ 3 ∷ [])))).state ≡ closed)
    × ((get "openai" b').state ≡ open_circuit)
    × ((get "openai" b').opened_at ≡ 5)
    × ((allow 34 "openai" b').0 ≡ false)
unfolding new_breakers get policy_for lookup
failures_trip_example =
    failures_trip "openai" (new_breakers strict) (1 ∷ 3 ∷ []) 5 34 refl (omega arith) (omega arith)

abbrev probed : Breakers
probed = record tripped {
  state =
      ("openai", record { failures = 3; state = half_open; opened_at = 5; probing = true }) ∷ [];
}

probe_outcome_example :
    ((get "openai" (success "openai" probed)).state ≡ closed)
    × ((get "openai" (success "openai" probed)).failures ≡ 0)
    × ((allow 60 "openai" (success "openai" probed)).0 ≡ true)
    × ((get "openai" probed).state ≡ half_open
        → 60 < 40 + (policy_for "openai" probed).cooldown
        → (allow 60 "openai" (failure 40 "openai" probed)).0 ≡ false)
unfolding policy_for lookup
probe_outcome_example = probe_outcome "openai" probed 40 60 (omega arith)

phase-allow_example :
    (phase 40 "openai" tripped ≡ closed → (allow 40 "openai" tripped).0 ≡ true)
    × (phase 40 "openai" tripped ≡ open_circuit → (allow 40 "openai" tripped).0 ≡ false)
    × (phase 40 "openai" tripped ≡ half_open
        → (allow 40 "openai" tripped).0
          ≡ not (state_eq (get "openai" tripped).state half_open && (get "openai" tripped).probing))
phase-allow_example = phase-allow "openai" tripped 40

last_reported-run_example :
    let b = run (set_overrides [] (rebuild_breakers strict (new_breakers strict))) mixed in
    last_reported "openai" b ≡ (get "openai" b).state
last_reported-run_example = last_reported-run "openai" strict strict [] mixed
