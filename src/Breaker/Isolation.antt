-- ===== src/Breaker/Isolation.antt =====
-- The map of breakers behaves as one independent machine for each provider.
use zealish_router.Base.{
  ℕ, ◌+◌, ◌<◌, ◌≡◌, refl, true, false, List, [], ◌∷◌, String, str_eq, eq_iff, arith, lookup,
  lookup-insert, if◌then◌else◌, pos_part,
}
use zealish_router.Breaker.{
  BreakerPolicy, Breaker, Breakers, CircuitState, closed, open_circuit, half_open, closed_breaker,
  is_disabled, new_breakers, policy_for, get, store, report, transition, allow, success, failure,
  admit, trip,
}
use zealish_router.Breaker.Single.{
  Event, allows, succeeds, fails, single_allow, single_step, single_run, IsSound,
  closed_breaker-IsSound, single_run-IsSound,
}

-- One call on the map of breakers.
unfoldable pub step : Breakers → String × Event → Breakers
step b (name, allows now) = (allow now name b).1
step b (name, succeeds) = success name b
step b (name, fails now) = failure now name b

unfoldable pub run : Breakers → List (String × Event) → Breakers
run b [] = b
run b (e ∷ es) = run (step b e) es

-- The events that concern a provider.
abbrev pub own : String → List (String × Event) → List Event
own name [] = []
own name ((n, e) ∷ es) = let rest = own name es in if str_eq n name then e ∷ rest else rest

pub get-store :
    (k j : String) (br : Breaker) (b : Breakers)
    → get j (store k br b) ≡ (if str_eq k j then br else get j b)
unfolding get store
get-store k j br b = ground (arith, lookup-insert k j br b.state)

pub get-report : (k j : String) (s : CircuitState) (b : Breakers) → get j (report k s b) ≡ get j b
unfolding get report
get-report k j s b = ground arith

policy_for-store :
    (k j : String) (br : Breaker) (b : Breakers) → policy_for j (store k br b) ≡ policy_for j b
unfolding policy_for store
policy_for-store k j br b = refl

policy_for-report :
    (k j : String) (s : CircuitState) (b : Breakers) → policy_for j (report k s b) ≡ policy_for j b
unfolding policy_for report
policy_for-report k j s b = ground arith

get-transition :
    (k j : String) (br : Breaker) (s : CircuitState) (b : Breakers)
    → get j (transition k br s b) ≡ (if str_eq k j then record br { state = s } else get j b)
unfolding transition
get-transition k j br s b = ground (
  arith,
  get-store k j br b,
  get-store k j (record br { state = s }) b,
  get-report k j s (store k (record br { state = s }) b),
)

pub policy_for-step :
    (j : String) (b : Breakers) (e : String × Event) → policy_for j (step b e) ≡ policy_for j b
unfolding step allow admit success failure trip transition store report policy_for
policy_for-step j b (name, allows now) = ground arith
policy_for-step j b (name, succeeds) = ground arith
policy_for-step j b (name, fails now) = ground arith

get-allow :
    (k j : String) (now : ℕ) (b : Breakers)
    → get j (allow now k b).1
      ≡ (if str_eq k j then single_step (policy_for k b) (get k b) (allows now) else get j b)
unfolding allow admit single_step
get-allow k j now b = ground (
  arith,
  eq_iff k j,
  get-store k j (get k b) b,
  get-store k j (record (get k b) { probing = true }) b,
  get-transition k j (record (get k b) { probing = true }) half_open b,
)

pub allow_verdict :
    (k : String) (now : ℕ) (b : Breakers)
    → (allow now k b).0 ≡ (
        if is_disabled (policy_for k b)
        then true
        else (single_allow (policy_for k b) now (get k b)).0)
unfolding allow admit
allow_verdict k now b = ground arith

get-success :
    (k j : String) (b : Breakers)
    → get j (success k b)
      ≡ (if str_eq k j then single_step (policy_for k b) (get k b) succeeds else get j b)
unfolding success single_step
get-success k j b = ground (
  arith,
  eq_iff k j,
  get-transition k j (record (get k b) { failures = 0; probing = false }) closed b,
)

get-failure :
    (k j : String) (now : ℕ) (b : Breakers)
    → get j (failure now k b)
      ≡ (if str_eq k j then single_step (policy_for k b) (get k b) (fails now) else get j b)
unfolding failure trip single_step
get-failure k j now b =
    let counted = record (get k b) { failures = (get k b).failures + 1 } in
    let tripped = record counted { opened_at = now; probing = false; state = open_circuit } in
    ground (
      arith,
      eq_iff k j,
      get-store k j counted b,
      get-store k j tripped b,
      get-report k j open_circuit (store k tripped b),
    )

-- A call for one provider is a step of that provider's machine, and no other provider's.
pub get-step :
    (k j : String) (b : Breakers) (e : Event)
    → get j (step b (k, e))
      ≡ (if str_eq k j then single_step (policy_for k b) (get k b) e else get j b)
unfolding step
get-step k j b (allows now) = get-allow k j now b
get-step k j b succeeds = get-success k j b
get-step k j b (fails now) = get-failure k j now b

-- A run over the calls of all providers, seen at one provider, is the run of that provider's
-- machine over its own calls under its own policy.
pub get-run :
    (j : String) (b : Breakers) (es : List (String × Event))
    → get j (run b es) ≡ single_run (policy_for j b) (get j b) (own j es)
unfolding run single_run
get-run j b [] = refl
get-run j b ((k, e) ∷ es) =
    ground (
      arith,
      eq_iff k j,
      get-run j (step b (k, e)) es,
      get-step k j b e,
      policy_for-step j b (k, e),
    )

-- From fresh breakers, whatever is called for any provider, the breaker of a provider whose policy
-- is enabled stays sound: while closed it has counted fewer failures than the threshold, otherwise
-- at least as many; a probe is in flight exactly while it is half-open.
pub run-IsSound :
    (j : String) (p : BreakerPolicy) (es : List (String × Event))
    → 0 < pos_part p.failure_threshold
    → IsSound p (get j (run (new_breakers p) es))
unfolding new_breakers policy_for get lookup
run-IsSound j p es h =
    rw (get-run j (new_breakers p) es)
      (single_run-IsSound p closed_breaker (own j es) (closed_breaker-IsSound p h))
