-- ===== src/Tests/Probes.antt =====
-- internal/router/health.go at fixed inputs.
use zealish_router.Base.{
  ◌+◌, ◌≡◌, refl, true, false, none, some, List, [], ◌∷◌, pos, lookup, is_bound, count, str_eq,
}
use zealish_router.Breaker.{Breakers, open_circuit, new_breakers, policy_for}
use zealish_router.Probes.{Probes, Check, health}
use zealish_router.Probes.Results.{
  checks, last_result, falls, picture, checks-last, checks-alarms, health-lookup,
}

abbrev none_down : Probes
none_down = record { down = []; alarms = [] }

abbrev history : List Check
history =
    record { name = "a"; error = some "refused"; stopped = false }
    ∷ record { name = "b"; error = none; stopped = false }
    ∷ record { name = "a"; error = some "timeout"; stopped = false }
    ∷ record { name = "a"; error = none; stopped = true }
    ∷ []

last_result-history : last_result "a" none history ≡ some "timeout"
unfolding last_result
last_result-history = refl

checks-last_example :
    lookup "a" (checks none_down history).down ≡ last_result "a" (lookup "a" none_down.down) history
checks-last_example = checks-last none_down history "a"

checks-alarms_example :
    count (λ a. str_eq a "a") (checks none_down history).alarms
    ≡ count (λ a. str_eq a "a") none_down.alarms
      + falls "a" (is_bound (lookup "a" none_down.down)) history
checks-alarms_example = checks-alarms none_down history "a"

-- The circuit of the provider has opened, and its last probe timed out.
abbrev tripped : Breakers
tripped = record (new_breakers (record { failure_threshold = pos 2; cooldown = 30 })) {
  state = ("a", record { failures = 2; state = open_circuit; opened_at = 5; probing = false }) ∷ [];
}

abbrev a_down : Probes
a_down = record { down = ("a", "timeout") ∷ []; alarms = [] }

health-lookup_example :
    lookup "a" (health tripped a_down)
    ≡ picture "a"
        (policy_for "a" tripped).cooldown
        (lookup "a" tripped.state)
        (lookup "a" a_down.down)
health-lookup_example = health-lookup tripped a_down "a"
