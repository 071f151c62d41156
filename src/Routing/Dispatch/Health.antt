-- ===== src/Routing/Dispatch/Health.antt =====
-- What becomes of the probe of a half-open circuit when `dispatch` reports no outcome for it.
use zealish_router.Base.{
  ℕ, ◌+◌, ◌-◌, ◌≤◌, ◌<◌, ◌≡◌, zero, suc, Bool, true, false, List, [], length, arith, pos_part,
}
use zealish_router.Breaker.{allow, get, policy_for, open_circuit}
use zealish_router.Breaker.Recovery.{admissions, probe_in_flight}
use zealish_router.Routing.Table.{Route}
use zealish_router.Routing.Engine.{
  World, Engine, Answer, answered, failed, CallError, is_healthy, retryable, trace_attempt,
  record_error, record_success, record_failure, finish_trace,
}
use zealish_router.Routing.Dispatch.{
  Last, visit, attempt, attempt_from, try_once, note_failure, conclude,
}
use zealish_router.Routing.Dispatch.Same.{after}

module _ {A : Type 0} (w : World A) where
  -- The circuit has been open for its cooldown when the route is tried.
  pub record IsDue (route : Route) (e : Engine) : Type 0 where
    pub enabled : 0 < pos_part (policy_for route.provider e.breakers).failure_threshold
    pub is_open : (get route.provider e.breakers).state ≡ open_circuit
    pub cooled :
        (get route.provider e.breakers).opened_at + (policy_for route.provider e.breakers).cooldown
        ≤ w.clock e.ticks

  -- A probe that the health check turns away is never reported, so from then on the circuit lets
  -- no request through, however long one waits.
  pub probe_lost_unhealthy :
      (streamed : Bool) (route : Route) (fallback : Bool) (last : Last w) (e : Engine) (ts : List ℕ)
      → IsDue route e
      → is_healthy route.provider e ≡ false
      → let e' = after w (visit w streamed route fallback last e) in
        (e'.made ≡ e.made) × (admissions route.provider e'.breakers ts ≡ [])
  unfolding visit trace_attempt record_error is_healthy
  probe_lost_unhealthy streamed route fallback last e ts due h =
      let lost =
        probe_in_flight route.provider e.breakers (w.clock e.ticks) ts due.enabled due.is_open
          due.cooled in
      let passed = lost.0 in let rest = lost.1 in rw passed (rw h (ground (arith, rest)))

  quiet :
      (left : ℕ) (retry : Bool) (route : Route) (fallback : Bool) (e : Engine) (c : CallError)
      → w.reply (length e.made) route ≡ failed c
      → retryable c ≡ false
      → ((attempt_from w left retry route fallback e).0 ≡ failed c)
        × ((attempt_from w left retry route fallback e).1.breakers ≡ e.breakers)
  unfolding attempt_from try_once note_failure trace_attempt record_error
  quiet zero retry route fallback e c r n = ground (arith, n)
  quiet (suc left) retry route fallback e c r n = ground (arith, n)

  given_up :
      (streamed : Bool) (route : Route) (r : Answer A × Engine) (c : CallError)
      → r.0 ≡ failed c
      → retryable c ≡ false
      → (after w (conclude w streamed route r)).breakers ≡ r.1.breakers
  unfolding record_success record_failure finish_trace
  given_up streamed route (answered a, e) c h n = ground arith
  given_up streamed route (failed d, e) c h n = ground (arith, n)

  -- The same for a probe that is answered with an error that is not retryable (a 4xx, or the end
  -- of the request's context).
  pub probe_lost_client_error :
      (streamed : Bool) (route : Route) (fallback : Bool) (last : Last w) (e : Engine)
      (c : CallError) (ts : List ℕ)
      → IsDue route e
      → is_healthy route.provider e ≡ true
      → w.reply (length e.made) route ≡ failed c
      → retryable c ≡ false
      → admissions route.provider (after w (visit w streamed route fallback last e)).breakers ts
        ≡ []
  unfolding visit attempt is_healthy record_success record_failure finish_trace
  probe_lost_client_error streamed route fallback last e c ts due h r n =
      let lost =
        probe_in_flight route.provider e.breakers (w.clock e.ticks) ts due.enabled due.is_open
          due.cooled in
      let passed = lost.0 in
      let rest = lost.1 in
      let e' : Engine = record e {
        breakers = (allow (w.clock e.ticks) route.provider e.breakers).1;
        ticks = e.ticks + 1;
      } in
      let q = quiet (e.attempts - 1) false route fallback e' c r n in
      rw passed
        (rw h (rw (given_up streamed route (attempt w route fallback e') c q.0 n) (rw q.1 rest)))
