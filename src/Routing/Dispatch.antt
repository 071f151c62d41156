-- ===== src/Routing/Dispatch.antt =====
-- internal/router/router.go: `dispatch` walks the chain of a request and `attempt` retries one
-- route.
pub mod Same
pub mod Calls
pub mod Bounds
pub mod Health
use zealish_router.Base.{
  ℕ, zero, suc, ◌+◌, ◌-◌, String, Bool, true, false, not, ◌&&◌, ◌||◌, Option, none, some, List, [],
  ◌∷◌, ◌++◌, ltb, if◌then◌else◌, Dict, lookup, length, str_eq,
}
use zealish_router.Breaker.{Breakers, allow, success, failure}
use zealish_router.Routing.Table.{
  Route, Routes, RouteError, Result, Combo, RequestRequirements, unknown_model, pick,
}
use zealish_router.Routing.Intelligent.{intelligent_order}
use zealish_router.Routing.Chain.{chain, is_intelligent}
use zealish_router.Routing.Table
use zealish_router.Routing.Engine.{
  CallError, DispatchError, retryable, classify_call, classify, Answer, Outcome, World,
  TraceAttempt, Engine, record_error, record_success, record_failure, max_trace_attempts,
  trace_attempt, finish_trace, is_healthy, timeout, rate_limited, upstream_5xx, connection,
  context_limit, canceled, deadline, client_error, unroutable, upstream, circuit_open, unhealthy,
  chain_exhausted, no_healthy_model, answered, failed, ok, err,
}

abbrev pub error_of : Result (List String) → Option RouteError
error_of (Table.ok names) = none
error_of (Table.err x) = some x

-- Why an intelligent combo has no candidate, if the name is one's.
unfoldable pub order_error :
    (String → ℕ) → RequestRequirements → Routes → Option Combo → Option RouteError
order_error score req rt none = none
order_error score req rt (some combo) =
    if is_intelligent (some combo) then error_of (intelligent_order score combo req rt) else none

module _ {A : Type 0} (w : World A) where
  -- What follows a failed call: the breaker hears of it only if the failure is retryable.
  unfoldable pub note_failure : Route → CallError → Bool → Bool → Engine → Engine
  note_failure route c retry fallback e =
      let e' =
        if retryable c
        then record e {
          breakers = failure (w.clock e.ticks) route.provider e.breakers;
          ticks = e.ticks + 1;
        }
        else e in
      trace_attempt route (classify_call c) retry fallback
        (record_error route.provider (classify_call c) e')

  unfoldable pub note_success : Route → Bool → Bool → Engine → Engine
  note_success route retry fallback e =
      trace_attempt route "ok" retry fallback
        (record e { breakers = success route.provider e.breakers })

  abbrev pub called : Route → Engine → Engine
  called route e = record e { made = e.made ++ route ∷ [] }

  abbrev pub settle : Answer A → Route → Bool → Bool → Engine → Answer A × Engine
  settle (answered a) route retry fallback e = (answered a, note_success route retry fallback e)
  settle (failed c) route retry fallback e = (failed c, note_failure route c retry fallback e)

  -- One round of the loop in `attempt`: the call and what is noted of it.
  unfoldable pub try_once : Route → Bool → Bool → Engine → Answer A × Engine
  try_once route retry fallback e =
      settle (w.reply (length e.made) route) route retry fallback (called route e)

  -- Whether the loop goes on after a failed call: `none` to go on.
  abbrev pub stops : CallError → Option CallError → Option CallError
  stops c done = if retryable c then done else some c

  -- The loop of `attempt`, with the number of tries left after this one.
  unfoldable pub attempt_from : ℕ → Bool → Route → Bool → Engine → Answer A × Engine
  attempt_from zero retry route fallback e = try_once route retry fallback e
  attempt_from (suc left) retry route fallback e =
      let (answer, e') = try_once route retry fallback e in
      let again = attempt_from left true route fallback e' in
      elim answer [
        | answered a ↦ (answered a, e')
        | failed c ↦ elim (stops c (w.context_error (length e'.made))) [
          | some stop ↦ (failed stop, e')
          | none ↦ again
        ]
      ]

  unfoldable pub attempt : Route → Bool → Engine → Answer A × Engine
  attempt route fallback e = attempt_from (e.attempts - 1) false route fallback e

  -- What the walk carries: the last error, and the last route that was tried.
  pub record Last : Type 0 where
    pub error : Option DispatchError
    pub route : Option Route

  -- A route is either the end of the walk, or leaves the engine for the next one.
  pub data Step : Type 0 where
    done : Outcome A → Engine → Step
    next : Last → Engine → Step

  abbrev pub after_success : Bool → Route → Engine → Engine
  after_success streamed route e =
      if streamed then e else finish_trace "ok" (record_success route true e)

  abbrev pub give_up : Route → CallError → CallError → Engine → Step
  give_up route status c e =
      done (err (upstream c))
        (finish_trace (classify_call status) (record_failure route (classify_call status) e))

  abbrev pub after_failure : Route → CallError → Engine → Step
  after_failure route c e =
      let e' = record_success route false e in
      if not (retryable c) then give_up route c c e' else elim (w.context_error (length e'.made)) [
        | some stop ↦ give_up route stop stop e'
        | none ↦ next (record { error = some (upstream c); route = some route }) e'
      ]

  abbrev pub conclude : Bool → Route → Answer A × Engine → Step
  conclude streamed route (answered a, e) = done (ok a) (after_success streamed route e)
  conclude streamed route (failed c, e) = after_failure route c e

  abbrev pub skip : Route → String → DispatchError → Bool → Last → Engine → Step
  skip route reason e' fallback last e =
      next (record last { error = some e' })
        (trace_attempt route reason false fallback (record_error route.provider reason e))

  -- One routable alias of the chain: the breaker, the health probe, and the attempts.
  unfoldable pub visit : Bool → Route → Bool → Last → Engine → Step
  visit streamed route fallback last e =
      let (allowed, breakers) = allow (w.clock e.ticks) route.provider e.breakers in
      let e' = record e { breakers = breakers; ticks = e.ticks + 1 } in
      if not allowed
      then skip route "circuit_open" (circuit_open route.provider) fallback last e'
      else if not (is_healthy route.provider e')
      then skip route "unhealthy" (unhealthy route.provider) fallback last e'
      else conclude streamed route (attempt route fallback e')

  abbrev pub visit_alias : String → String → Bool → Bool → Last → Engine → Result Route → Step
  visit_alias model alias streamed fallback last e (Table.err x) =
      if str_eq alias model
      then done (err (unroutable x)) (finish_trace (classify (unroutable x)) e)
      else next (record last { error = some (unroutable x) }) e
  visit_alias model alias streamed fallback last e (Table.ok route) =
      visit streamed route fallback last e

  abbrev pub note_last : Option Route → String → Engine → Engine
  note_last none status e = e
  note_last (some route) status e = record_failure route status e

  -- The end of `dispatch`, when no route of the chain answered.
  unfoldable pub exhausted : String → Bool → Last → Engine → Outcome A × Engine
  exhausted model intelligent last e = elim last.error [
    | none ↦ (
      err (unroutable (unknown_model model)),
      finish_trace (classify (unroutable (unknown_model model))) e,
    )
    | some x ↦ (
      err (if intelligent then no_healthy_model x else chain_exhausted x),
      finish_trace (classify x) (note_last last.route (classify x) e),
    )
  ]

  -- The walk of `dispatch` over its chain; `fallback` is false at the first alias only.
  unfoldable pub dispatch_from :
      Routes → String → Bool → Bool → Bool → Last → List String → Engine → Outcome A × Engine
  dispatch_from rt model streamed intelligent fallback last [] e =
      exhausted model intelligent last e
  dispatch_from rt model streamed intelligent fallback last (alias ∷ rest) e =
      elim (visit_alias model alias streamed fallback last e (pick alias rt)) [
        | done outcome e' ↦ (outcome, e')
        | next last' e' ↦ dispatch_from rt model streamed intelligent true last' rest e'
      ]

  abbrev pub no_last : Last
  no_last = record { error = none; route = none }

  -- An empty chain: an intelligent combo says why no member qualifies.
  unfoldable pub no_chain :
      (String → ℕ) → RequestRequirements → String → Routes → Engine → Outcome A × Engine
  no_chain score req model rt e = elim (order_error score req rt (lookup model rt.combos)) [
    | some x ↦ (err (unroutable x), finish_trace (classify (unroutable x)) e)
    | none ↦ (err (unroutable (unknown_model model)), e)
  ]

  unfoldable pub dispatch_chain :
      (String → ℕ)
      → RequestRequirements
      → String
      → Bool
      → Routes
      → List String
      → Engine
      → Outcome A × Engine
  dispatch_chain score req model streamed rt [] e = no_chain score req model rt e
  dispatch_chain score req model streamed rt (alias ∷ rest) e =
      dispatch_from rt model streamed (is_intelligent (lookup model rt.combos)) false no_last
        (alias ∷ rest) e

  unfoldable pub dispatch :
      (String → ℕ)
      → RequestRequirements
      → String
      → Bool
      → Routes
      → Engine
      → (Outcome A × Engine) × Routes
  dispatch score req model streamed rt e =
      let (aliases, rt') = chain score model req rt in
      (dispatch_chain score req model streamed rt' aliases e, rt')
