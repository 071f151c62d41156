-- ===== src/Routing/Engine.antt =====
-- What a request reads and writes on its way: the error classes of internal/provider/errors.go, the
-- outside world, and the records of the engine (internal/router/router.go, trace.go, metrics.go).
-- The world says what the upstream answers to the call of a number, the clock's value at a reading
-- of a number, and what the request's context says after so many calls. The engine's metrics, usage
-- log, telemetry (with a recorder installed) and trace are lists to which entries are added.
use zealish_router.Base.{
  ℕ, String, Bool, true, false, Option, none, some, List, [], ◌∷◌, ◌++◌, ltb, if◌then◌else◌, Dict,
  lookup, length,
}
use zealish_router.Breaker.{Breakers, success}
use zealish_router.Routing.Table.{Route, RouteError}

-- The upstream error classes of internal/provider/errors.go, and the ends of a context.
pub data CallError : Type 0 where
  timeout rate_limited upstream_5xx connection context_limit canceled deadline client_error :
      CallError

pub data DispatchError : Type 0 where
  unroutable : RouteError → DispatchError
  upstream : CallError → DispatchError
  circuit_open unhealthy : String → DispatchError
  chain_exhausted no_healthy_model : DispatchError → DispatchError

abbrev pub retryable : CallError → Bool
retryable timeout = true
retryable rate_limited = true
retryable upstream_5xx = true
retryable connection = true
retryable context_limit = true
retryable canceled = false
retryable deadline = false
retryable client_error = false

abbrev pub classify_call : CallError → String
classify_call timeout = "timeout"
classify_call rate_limited = "rate_limited"
classify_call upstream_5xx = "upstream_5xx"
classify_call connection = "connection"
classify_call canceled = "canceled"
classify_call context_limit = "client_error"
classify_call deadline = "client_error"
classify_call client_error = "client_error"

abbrev pub classify : DispatchError → String
classify (unroutable e) = "client_error"
classify (upstream e) = classify_call e
classify (circuit_open p) = "client_error"
classify (unhealthy p) = "client_error"
classify (chain_exhausted e) = classify e
classify (no_healthy_model e) = classify e

pub data Answer (A : Type 0) : Type 0 where
  answered : A → Answer A
  failed : CallError → Answer A

pub data Outcome (A : Type 0) : Type 0 where
  ok : A → Outcome A
  err : DispatchError → Outcome A

pub record World (A : Type 0) : Type 0 where
  pub reply : ℕ → Route → Answer A
  pub clock : ℕ → ℕ
  pub context_error : ℕ → Option CallError

pub record TraceAttempt : Type 0 where
  pub route : Route
  pub status : String
  pub retry : Bool
  pub fallback : Bool

-- `down` is the map of the health probes; `finished` the status with which the trace was closed.
pub record Engine : Type 0 where
  pub breakers : Breakers
  pub down : Dict String
  pub attempts : ℕ
  pub ticks : ℕ
  pub made : List Route
  pub telemetry : List (String × String)
  pub metrics : List (Route × Bool)
  pub failures : List (Route × String)
  pub trace : List TraceAttempt
  pub finished : Option String

unfoldable pub record_error : String → String → Engine → Engine
record_error provider reason e = record e { telemetry = e.telemetry ++ (provider, reason) ∷ [] }

unfoldable pub record_success : Route → Bool → Engine → Engine
record_success route success e = record e { metrics = e.metrics ++ (route, success) ∷ [] }

unfoldable pub record_failure : Route → String → Engine → Engine
record_failure route status e = record e { failures = e.failures ++ (route, status) ∷ [] }

abbrev pub max_trace_attempts : ℕ
max_trace_attempts = 64

unfoldable pub trace_attempt : Route → String → Bool → Bool → Engine → Engine
trace_attempt route status retry fallback e =
    if ltb (length e.trace) max_trace_attempts
    then record e {
      trace =
          e.trace
          ++ record { route = route; status = status; retry = retry; fallback = fallback } ∷ [];
    }
    else e

-- Only the first status is kept.
unfoldable pub finish_trace : String → Engine → Engine
finish_trace status e = record e {
  finished = elim e.finished [ none ↦ some status | some s ↦ some s ];
}

unfoldable pub is_healthy : String → Engine → Bool
is_healthy provider e = elim (lookup provider e.down) [ none ↦ true | some reason ↦ false ]
