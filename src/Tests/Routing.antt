-- ===== src/Tests/Routing.antt =====
-- The routing of internal/router/router.go at fixed inputs.
use zealish_router.Base.{
  count, str_eq, contains, IsDistinct, zero, ℕ, ◌+◌, ◌*◌, ◌-◌, ◌≤◌, ◌≡◌, refl, true, false, none,
  List, [], ◌∷◌, String, arith, length, take, pos, lookup, All, suc,
}
use zealish_router.Breaker.{Breakers, BreakerPolicy, new_breakers, open_circuit, get, policy_for}
use zealish_router.Breaker.Recovery.{admissions}
use zealish_router.Routing.Table.{
  ModelAlias, Combo, Route, Routes, RequestRequirements, combo_intelligent, combo_weighted,
  max_chain_attempts,
}
use zealish_router.Routing.Chain.{chain, chain_from}
use zealish_router.Routing.Distinct.{chain_from_bounds}
use zealish_router.Routing.Order.{candidates, distinct_after, chain_from-distinct}
use zealish_router.Routing.Shares.{firsts, share, cycle, firsts-share}
use zealish_router.Routing.Eligible.{can_serve, chain-can_serve}
use zealish_router.Routing.Engine.{
  World, Engine, Answer, answered, failed, client_error, timeout, is_healthy,
}
use zealish_router.Routing.Dispatch.{no_last, dispatch, visit}
use zealish_router.Routing.Dispatch.Same.{after}
use zealish_router.Routing.Dispatch.Bounds.{dispatch_calls, dispatch_targets}
use zealish_router.Routing.Dispatch.Health.{IsDue, probe_lost_unhealthy, probe_lost_client_error}

abbrev alias_of : String → List String → List String → ModelAlias
alias_of name fallback capabilities = record {
  alias = name;
  provider = name;
  model = name;
  fallback = fallback;
  capabilities = capabilities;
  max_context = 0;
}

abbrev smart : Combo
smart = record {
  name = "smart";
  strategy = combo_intelligent;
  members = "a" ∷ "b" ∷ [];
  weights = [];
  enabled = true;
}

abbrev table : Routes
table = record {
  models =
      ("a", alias_of "a" ("c" ∷ "b" ∷ []) ("tools" ∷ []))
      ∷ ("b", alias_of "b" [] [])
      ∷ ("c", alias_of "c" [] ("tools" ∷ []))
      ∷ [];
  combos = ("smart", smart) ∷ [];
  cursors = [];
  registry = "a" ∷ "c" ∷ [];
}

abbrev with_tools : RequestRequirements
with_tools = record {
  vision = false;
  tools = true;
  json_mode = false;
  embeddings = false;
  audio = false;
  streaming = false;
  required_context = 0;
}

abbrev level : String → ℕ
level alias = 50

chain_from-distinct_example :
    chain_from "a" with_tools table ("a" ∷ "b" ∷ []) []
    ≡ take max_chain_attempts (distinct_after [] (candidates "a" with_tools table ("a" ∷ "b" ∷ [])))
chain_from-distinct_example = chain_from-distinct "a" with_tools table ("a" ∷ "b" ∷ [])

chain_from_bounds_example :
    (length (chain_from "a" with_tools table ("a" ∷ "b" ∷ []) []) ≤ max_chain_attempts)
    × IsDistinct (chain_from "a" with_tools table ("a" ∷ "b" ∷ []) [])
    × (take 1 (chain_from "a" with_tools table ("a" ∷ "b" ∷ []) []) ≡ "a" ∷ [])
chain_from_bounds_example = chain_from_bounds "a" with_tools table "a" ("b" ∷ [])

abbrev spread : Combo
spread = record {
  name = "spread";
  strategy = combo_weighted;
  members = "a" ∷ "c" ∷ [];
  weights = 3 ∷ 1 ∷ [];
  enabled = true;
}

-- The counter is at the start of its third cycle.
abbrev spreading : Routes
spreading = record table { combos = ("spread", spread) ∷ []; cursors = ("spread", 8) ∷ [] }

abbrev four_requests : List RequestRequirements
four_requests = with_tools ∷ with_tools ∷ with_tools ∷ with_tools ∷ []

firsts-share_example :
    count (λ m. str_eq m "a") (firsts level "spread" four_requests spreading) ≡ share (3 ∷ 1 ∷ []) 0
unfolding lookup cycle share
firsts-share_example =
    firsts-share level "spread" spread four_requests spreading 0 2 refl refl ((refl, tt), (tt, tt))
      (omega arith) refl refl (omega arith)

chain-can_serve_example :
    All (λ a. can_serve table with_tools a ≡ true) (chain level "smart" with_tools table).0
unfolding lookup
chain-can_serve_example = chain-can_serve level "smart" with_tools table smart refl refl

-- The upstream answers 7, except to the first call, which times out.
abbrev reply_after : ℕ → Route → Answer ℕ
reply_after zero route = failed timeout
reply_after (suc n) route = answered 7

abbrev flaky : World ℕ
flaky = record { reply = reply_after; clock = λ n. 100 + n; context_error = λ n. none }

abbrev refusing : World ℕ
refusing = record {
  reply = λ n route. failed client_error;
  clock = λ n. 100 + n;
  context_error = λ n. none;
}

abbrev two_failures : BreakerPolicy
two_failures = record { failure_threshold = pos 2; cooldown = 30 }

abbrev engine_of : Breakers → List (String × String) → Engine
engine_of b down = record {
  breakers = b;
  down = down;
  attempts = 2;
  ticks = 0;
  made = [];
  telemetry = [];
  metrics = [];
  failures = [];
  trace = [];
  finished = none;
}

abbrev tripped : Breakers
tripped = record (new_breakers two_failures) {
  state =
      ("a", record { state = open_circuit; failures = 2; opened_at = 60; probing = false }) ∷ [];
}

abbrev c_down : List (String × String)
c_down = ("c", "timeout") ∷ []

dispatch_calls_example :
    length
      (dispatch flaky level with_tools "a" false table
        (engine_of (new_breakers two_failures) [])).0.1.made
    ≤ 0 + max_chain_attempts * suc (2 - 1)
dispatch_calls_example =
    dispatch_calls flaky level with_tools "a" false table (engine_of (new_breakers two_failures) [])

dispatch_targets_example :
    All
      (λ r. (contains table.registry r.provider ≡ true) × (lookup r.provider c_down ≡ none))
      (dispatch flaky level with_tools "a" false table
        (engine_of (new_breakers two_failures) c_down)).0.1.made
dispatch_targets_example =
    dispatch_targets flaky level with_tools "a" false table
      (engine_of (new_breakers two_failures) c_down) refl

abbrev to_a : Route
to_a = record { alias = "a"; provider = "a"; model = "a" }

tripped-IsDue :
    (w : World ℕ) (down : List (String × String))
    → w.clock 0 ≡ 100
    → IsDue w to_a (engine_of tripped down)
unfolding get policy_for new_breakers lookup
tripped-IsDue w down h = record { enabled = omega arith; is_open = refl; cooled = omega (arith, h) }

probe_lost_unhealthy_example :
    let e = engine_of tripped (("a", "refused") ∷ []) in
    let e' = after flaky (visit flaky false to_a false (no_last flaky) e) in
    (e'.made ≡ e.made) × (admissions "a" e'.breakers (1000 ∷ 2000 ∷ []) ≡ [])
unfolding is_healthy lookup
probe_lost_unhealthy_example =
    probe_lost_unhealthy flaky false to_a false (no_last flaky)
      (engine_of tripped (("a", "refused") ∷ [])) (1000 ∷ 2000 ∷ [])
      (tripped-IsDue flaky (("a", "refused") ∷ []) refl) refl

probe_lost_client_error_example :
    admissions "a"
      (after refusing
        (visit refusing false to_a false (no_last refusing) (engine_of tripped []))).breakers
      (1000 ∷ 2000 ∷ [])
    ≡ []
unfolding is_healthy lookup
probe_lost_client_error_example =
    probe_lost_client_error refusing false to_a false (no_last refusing) (engine_of tripped [])
      client_error (1000 ∷ 2000 ∷ []) (tripped-IsDue refusing [] refl) refl refl refl
