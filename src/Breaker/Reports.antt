-- ===== src/Breaker/Reports.antt =====
-- What the transition hook has been told, against the state of the breakers.
use zealish_router.Base.{
  ℕ, ◌+◌, ◌≡◌, refl, Bool, true, false, List, [], ◌∷◌, ◌++◌, String, str_eq, eq_iff, arith,
  if◌then◌else◌, if_either, Bool-cases, inl, inr, Dict, lookup,
}
use zealish_router.Breaker.{
  Breaker, Breakers, CircuitState, closed, open_circuit, half_open, get, store, report, transition,
  allow, success, failure, admit, trip, is_disabled, policy_for, state_eq, BreakerPolicy,
  new_breakers, set_overrides, rebuild_breakers,
}
use zealish_router.Breaker.Single.{Event, allows, succeeds, fails}
use zealish_router.Breaker.Isolation.{step, run, get-store, get-report}

-- The state that the last report about a provider named, starting from `s`.
abbrev pub last_from : String → CircuitState → List (String × CircuitState) → CircuitState
last_from name s [] = s
last_from name s ((n, x) ∷ log) = last_from name (if str_eq n name then x else s) log

last_from-append :
    (name k : String) (s x : CircuitState) (log : List (String × CircuitState))
    → last_from name s (log ++ (k, x) ∷ []) ≡ (if str_eq k name then x else last_from name s log)
last_from-append name k s x [] = refl
last_from-append name k s x ((n, y) ∷ log) =
    last_from-append name k (if str_eq n name then y else s) x log

abbrev pub last_reported : String → Breakers → CircuitState
last_reported name b = last_from name closed b.reported

-- The hook is installed, and it was last told the provider's present state.
pub record IsCurrent (j : String) (b : Breakers) : Type 0 where
  pub hook : b.hooked ≡ true
  pub told : last_reported j b ≡ (get j b).state

module _ (j k : String) (br : Breaker) (b : Breakers) (h : IsCurrent j b) where
  store-IsCurrent : (str_eq k j ≡ true → br.state ≡ (get j b).state) → IsCurrent j (store k br b)
  store-IsCurrent same = record {
    hook = unfold store in h.hook;
    told = ground (arith, stays, get-store k j br b);
  }
    where
      stays : last_reported j (store k br b) ≡ last_reported j b
      stays = unfold store in refl

  report-IsCurrent :
      (s : CircuitState) → IsCurrent j (report k s (store k (record br { state = s }) b))
  report-IsCurrent s = record {
    hook = unfold store report in ground arith;
    told = ground (
      arith,
      said,
      get-report k j s (store k (record br { state = s }) b),
      get-store k j (record br { state = s }) b,
    );
  }
    where
      said :
          last_reported j (report k s (store k (record br { state = s }) b))
          ≡ (if str_eq k j then s else last_reported j b)
      said = unfold store report in ground (arith, last_from-append j k closed s b.reported)

module _ (j k : String) (b : Breakers) (h : IsCurrent j b) where
  transition-IsCurrent :
      (br : Breaker) (s : CircuitState)
      → br.state ≡ (get k b).state
      → IsCurrent j (transition k br s b)
  unfolding transition
  transition-IsCurrent br s e = elim (Bool-cases (state_eq br.state s)) [
    | inl same ↦ rw same (store-IsCurrent j k br b h (λ q. ground (arith, eq_iff k j)))
    | inr differs ↦ rw differs (report-IsCurrent j k br b h s)
  ]

  unchanged-IsCurrent : (br : Breaker) → br.state ≡ (get k b).state → IsCurrent j (store k br b)
  unchanged-IsCurrent br e = store-IsCurrent j k br b h (λ q. ground (arith, eq_iff k j))

  admit-IsCurrent : (s : CircuitState) (now : ℕ) → IsCurrent j (admit s now k (get k b) b).1
  unfolding admit
  admit-IsCurrent closed now = unchanged-IsCurrent (get k b) refl
  admit-IsCurrent open_circuit now =
      if_either (λ (r : Bool × Breakers). IsCurrent j r.1) _ (unchanged-IsCurrent (get k b) refl)
        (transition-IsCurrent (record (get k b) { probing = true }) half_open refl)
  admit-IsCurrent half_open now =
      if_either (λ (r : Bool × Breakers). IsCurrent j r.1) _ (unchanged-IsCurrent (get k b) refl)
        (unchanged-IsCurrent (record (get k b) { probing = true }) refl)

  trip-IsCurrent :
      (now : ℕ) (br : Breaker) → br.state ≡ (get k b).state → IsCurrent j (trip now k br b)
  unfolding trip
  trip-IsCurrent now br e =
      if_either (IsCurrent j) _
        (report-IsCurrent j k (record br { opened_at = now; probing = false }) b h open_circuit)
        (unchanged-IsCurrent br e)

  step-IsCurrent : (e : Event) → IsCurrent j (step b (k, e))
  unfolding step allow success failure
  step-IsCurrent (allows now) =
      if_either (λ (r : Bool × Breakers). IsCurrent j r.1) (is_disabled (policy_for k b)) h
        (admit-IsCurrent (get k b).state now)
  step-IsCurrent succeeds =
      if_either (IsCurrent j) (is_disabled (policy_for k b)) h
        (transition-IsCurrent (record (get k b) { failures = 0; probing = false }) closed refl)
  step-IsCurrent (fails now) =
      if_either (IsCurrent j) (is_disabled (policy_for k b)) h
        (trip-IsCurrent now (record (get k b) { failures = (get k b).failures + 1 }) refl)

run-IsCurrent :
    (j : String) (b : Breakers) (es : List (String × Event))
    → IsCurrent j b
    → IsCurrent j (run b es)
unfolding run
run-IsCurrent j b [] h = h
run-IsCurrent j b ((k, e) ∷ es) h = run-IsCurrent j (step b (k, e)) es (step-IsCurrent j k b h e)

-- From rebuilt breakers, whose hook is installed and has been told nothing, with any policies, after
-- any calls for any providers: the state that the hook was last told for a provider, or closed if it
-- was told none, is that provider's state.
pub last_reported-run :
    (j : String) (old policy : BreakerPolicy) (overrides : Dict BreakerPolicy)
    (es : List (String × Event))
    → let b = run (set_overrides overrides (rebuild_breakers policy (new_breakers old))) es in
      last_reported j b ≡ (get j b).state
unfolding set_overrides rebuild_breakers new_breakers get lookup
last_reported-run j old policy overrides es =
    (run-IsCurrent j (set_overrides overrides (rebuild_breakers policy (new_breakers old))) es
      (record { hook = refl; told = refl })).told
