-- ===== src/Routing/Dispatch/Same.antt =====
-- What a request writes down of its way changes neither the settings nor the calls it made.
use zealish_router.Base.{
  ℕ, ◌≡◌, refl, Bool, false, arith, length, String, Bool-cases, inl, inr, Option-cases, lookup,
}
use zealish_router.Routing.Table.{Route, Routes, RequestRequirements}
use zealish_router.Routing.Engine.{
  classify, unroutable, World, Engine, CallError, record_error, record_success, record_failure,
  trace_attempt, finish_trace, retryable, classify_call,
}
use zealish_router.Routing.Dispatch.{
  Last, Step, done, next, note_failure, note_success, no_chain, exhausted, order_error,
  after_success, after_failure,
}

-- Nothing but the records of a request changes.
pub record Same (e e' : Engine) : Type 0 where
  pub same_attempts : e'.attempts ≡ e.attempts
  pub same_down : e'.down ≡ e.down
  pub same_made : e'.made ≡ e.made

module _ {A : Type 0} (w : World A) where
  pub noted-Same :
      (route : Route) (retry fallback : Bool) (e : Engine)
      → ((c : CallError) → Same e (note_failure w route c retry fallback e))
        × Same e (note_success w route retry fallback e)
  unfolding note_failure note_success trace_attempt record_error
  noted-Same route retry fallback e = ((λ c. ground arith), ground arith)

  abbrev pub after : Step w → Engine
  after (done o e) = e
  after (next l e) = e

  pub skipped-Same :
      (route : Route) (reason : String) (fallback : Bool) (e : Engine)
      → Same e (trace_attempt route reason false fallback (record_error route.provider reason e))
  unfolding trace_attempt record_error
  skipped-Same route reason fallback e = ground arith

  pub finish_trace-Same : (status : String) (e : Engine) → Same e (finish_trace status e)
  unfolding finish_trace
  finish_trace-Same status e = ground arith

  pub failed-Same :
      (route : Route) (s : String) (b : Bool) (e : Engine)
      → Same e (finish_trace s (record_failure route s (record_success route b e)))
  unfolding record_failure record_success finish_trace
  failed-Same route s b e = ground arith

  pub success-Same : (route : Route) (b : Bool) (e : Engine) → Same e (record_success route b e)
  unfolding record_success
  success-Same route b e = ground arith

  pub after_success-Same :
      (streamed : Bool) (route : Route) (e : Engine) → Same e (after_success w streamed route e)
  unfolding finish_trace record_success
  after_success-Same streamed route e = ground arith

  pub after_failure-Same :
      (route : Route) (c : CallError) (e : Engine) → Same e (after (after_failure w route c e))
  after_failure-Same route c e = elim (Bool-cases (retryable c)) [
    | inl t ↦
        rw t (elim (Option-cases (w.context_error (length (record_success route false e).made))) [
          | inl n ↦ rw n (success-Same route false e)
          | inr (stop, n) ↦ rw n (failed-Same route (classify_call stop) false e)
        ])
    | inr f ↦ rw f (failed-Same route (classify_call c) false e)
  ]

  pub exhausted-Same :
      (model : String) (intelligent : Bool) (last : Last w) (e : Engine)
      → Same e (exhausted w model intelligent last e).1
  unfolding exhausted finish_trace record_failure
  exhausted-Same model intelligent last e = ground arith

  pub no_chain-Same :
      (score : String → ℕ) (req : RequestRequirements) (model : String) (rt : Routes) (e : Engine)
      → Same e (no_chain w score req model rt e).1
  unfolding no_chain
  no_chain-Same score req model rt e =
      elim (Option-cases (order_error score req rt (lookup model rt.combos))) [
        | inl n ↦
            rw (n, no_chain) (record { same_attempts = refl; same_down = refl; same_made = refl })
        | inr (x, n) ↦ rw (n, no_chain) (finish_trace-Same (classify (unroutable x)) e)
      ]
