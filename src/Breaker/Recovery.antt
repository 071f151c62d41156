-- ===== src/Breaker/Recovery.antt =====
-- How a circuit trips, and how it recovers: sequences of calls for one provider.
use zealish_router.Base.{
  ℕ, ◌∙◌, ◌&&◌, not, ◌+◌, ◌<◌, ◌≤◌, ◌≡◌, refl, true, false, List, [], ◌∷◌, ◌++◌, String, arith, leb,
  if◌then◌else◌, pos_part, length, str_eq_refl, map,
}
use zealish_router.Breaker.{
  state_eq, Breakers, closed, open_circuit, half_open, policy_for, get, allow, success, failure,
  phase,
}
use zealish_router.Breaker.Single.{Event, allows, succeeds, fails, single_step}
use zealish_router.Breaker.Isolation.{step, run, get-step, policy_for-step, allow_verdict}

-- The times at which requests for a provider are let through, if nothing is reported in between.
unfoldable pub admissions : String → Breakers → List ℕ → List ℕ
admissions name b [] = []
admissions name b (t ∷ ts) =
    let rest = admissions name (allow t name b).1 ts in
    if (allow t name b).0 then t ∷ rest else rest

-- The first time that has reached the deadline.
abbrev pub first_due : ℕ → List ℕ → List ℕ
first_due d [] = []
first_due d (t ∷ ts) = if leb d t then t ∷ [] else first_due d ts

module _ (name : String) where
  after_allow :
      (b : Breakers) (t : ℕ)
      → get name (allow t name b).1 ≡ single_step (policy_for name b) (get name b) (allows t)
  unfolding step
  after_allow b t = ground (arith, get-step name name b (allows t), str_eq_refl name)

  policy_after_allow :
      (b : Breakers) (t : ℕ) → policy_for name (allow t name b).1 ≡ policy_for name b
  unfolding step
  policy_after_allow b t = policy_for-step name b (name, allows t)

  -- While a probe is in flight no request is let through, however long it takes.
  pub admissions_probing :
      (b : Breakers) (ts : List ℕ)
      → 0 < pos_part (policy_for name b).failure_threshold
      → (get name b).state ≡ half_open
      → (get name b).probing ≡ true
      → admissions name b ts ≡ []
  unfolding admissions single_step
  admissions_probing b [] h s q = refl
  admissions_probing b (t ∷ ts) h s q = ground (
    arith,
    allow_verdict name t b,
    after_allow b t,
    policy_after_allow b t,
    admissions_probing (allow t name b).1 ts,
  )

  -- While its breaker is enabled, an open circuit rejects each request until the cooldown has passed;
  -- then it lets exactly one through, the first that comes, and none after that until its outcome is
  -- reported.
  pub admissions_open :
      (b : Breakers) (ts : List ℕ)
      → 0 < pos_part (policy_for name b).failure_threshold
      → (get name b).state ≡ open_circuit
      → admissions name b ts ≡ first_due ((get name b).opened_at + (policy_for name b).cooldown) ts
  unfolding admissions single_step
  admissions_open b [] h s = refl
  admissions_open b (t ∷ ts) h s = ground (
    arith,
    allow_verdict name t b,
    after_allow b t,
    policy_after_allow b t,
    admissions_open (allow t name b).1 ts,
    admissions_probing (allow t name b).1 ts,
  )

  -- Once the cooldown has passed the next request is the probe, and keeps all others out.
  pub probe_in_flight :
      (b : Breakers) (t : ℕ) (ts : List ℕ)
      → 0 < pos_part (policy_for name b).failure_threshold
      → (get name b).state ≡ open_circuit
      → (get name b).opened_at + (policy_for name b).cooldown ≤ t
      → ((allow t name b).0 ≡ true) × (admissions name (allow t name b).1 ts ≡ [])
  unfolding single_step
  probe_in_flight b t ts h s d = ground (
    arith,
    allow_verdict name t b,
    after_allow b t,
    policy_after_allow b t,
    admissions_probing (allow t name b).1 ts,
  )

  -- Failure reports for the provider, at these times.
  abbrev pub failing : List ℕ → List (String × Event)
  failing = map (λ t. (name, fails t))

  after_failure :
      (b : Breakers) (t : ℕ)
      → get name (step b (name, fails t)) ≡ single_step (policy_for name b) (get name b) (fails t)
  after_failure b t = ground (arith, get-step name name b (fails t), str_eq_refl name)

  -- Failures below the threshold only count up: the circuit stays closed.
  pub failures_below :
      (b : Breakers) (ts : List ℕ)
      → (get name b).state ≡ closed
      → (get name b).failures + length ts < pos_part (policy_for name b).failure_threshold
      → ((get name (run b (failing ts))).state ≡ closed)
        × ((get name (run b (failing ts))).failures ≡ (get name b).failures + length ts)
  unfolding run single_step
  failures_below b [] s h = (s, omega arith)
  failures_below b (t ∷ ts) s h = ground (
    arith,
    after_failure b t,
    policy_for-step name b (name, fails t),
    failures_below (step b (name, fails t)) ts,
  )

  policy_for-run :
      (b : Breakers) (ts : List ℕ) → policy_for name (run b (failing ts)) ≡ policy_for name b
  unfolding run
  policy_for-run b [] = refl
  policy_for-run b (t ∷ ts) =
      policy_for-run (step b (name, fails t)) ts ∙ policy_for-step name b (name, fails t)

  run_last :
      (b : Breakers) (ts : List ℕ) (t : ℕ)
      → run b (failing (ts ++ t ∷ [])) ≡ step (run b (failing ts)) (name, fails t)
  unfolding run
  run_last b [] t = refl
  run_last b (x ∷ ts) t = run_last (step b (name, fails x)) ts t

  -- The circuit of a provider trips at the failure that makes the count reach the threshold and not
  -- before: the cooldown then runs from the time of that failure, and until it has passed every
  -- request is rejected.
  pub failures_trip :
      (b : Breakers) (ts : List ℕ) (t now : ℕ)
      → (get name b).state ≡ closed
      → (get name b).failures + length ts + 1 ≡ pos_part (policy_for name b).failure_threshold
      → now < t + (policy_for name b).cooldown
      → ((get name (run b (failing ts))).state ≡ closed)
        × ((get name (run b (failing (ts ++ t ∷ [])))).state ≡ open_circuit)
        × ((get name (run b (failing (ts ++ t ∷ [])))).opened_at ≡ t)
        × ((allow now name (run b (failing (ts ++ t ∷ [])))).0 ≡ false)
  unfolding single_step
  failures_trip b ts t now s h k = ground (
    arith,
    failures_below b ts s,
    run_last b ts t,
    after_failure (run b (failing ts)) t,
    policy_for-run b ts,
    policy_for-step name (run b (failing ts)) (name, fails t),
    allow_verdict name now (run b (failing (ts ++ t ∷ []))),
  )

  -- Of an enabled breaker, a reported success closes the circuit from any state and forgets the
  -- failures, so the next request is let through at any time; a failed probe restarts the cooldown at
  -- once.
  pub probe_outcome :
      (b : Breakers) (t now : ℕ)
      → 0 < pos_part (policy_for name b).failure_threshold
      → ((get name (success name b)).state ≡ closed)
        × ((get name (success name b)).failures ≡ 0)
        × ((allow now name (success name b)).0 ≡ true)
        × ((get name b).state ≡ half_open
            → now < t + (policy_for name b).cooldown
            → (allow now name (failure t name b)).0 ≡ false)
  unfolding single_step step
  probe_outcome b t now h = ground (
    arith,
    str_eq_refl name,
    get-step name name b succeeds,
    get-step name name b (fails t),
    policy_for-step name b (name, succeeds),
    policy_for-step name b (name, fails t),
    allow_verdict name now (success name b),
    allow_verdict name now (failure t name b),
  )

  -- The phase that is shown agrees with what a request would meet: `closed` lets it through, `open`
  -- rejects it, and `half_open` lets it through unless a probe is in flight.
  pub phase-allow :
      (b : Breakers) (now : ℕ)
      → (phase now name b ≡ closed → (allow now name b).0 ≡ true)
        × (phase now name b ≡ open_circuit → (allow now name b).0 ≡ false)
        × (phase now name b ≡ half_open
            → (allow now name b).0
              ≡ not (state_eq (get name b).state half_open && (get name b).probing))
  unfolding phase get single_step
  phase-allow b now = ground (arith, allow_verdict name now b)
