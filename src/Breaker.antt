-- ===== src/Breaker.antt =====
-- internal/router/breaker.go: the circuit breaker of each provider.
-- `breakers` is the record `Breakers`, with the map of breakers and the map of per-provider
-- policies as dictionaries. A method takes the clock's value first and returns the new record.
-- `onTransition` is the field `reported`, to which each call of the hook adds an entry; `hooked`
-- says whether a hook is installed. Times and cooldowns are nanoseconds; cooldowns are not negative.
pub mod Single
pub mod Isolation
pub mod Recovery
pub mod Reports
use zealish_router.Base.{
  ℕ, ◌+◌, String, Bool, true, false, ◌&&◌, ◌||◌, Option, none, some, List, [], ◌∷◌, ◌++◌, ltb, leb,
  ◌==◌, if◌then◌else◌, Dict, lookup, insert, ℤ, pos, pos_part,
}

pub data CircuitState : Type 0 where
  closed open_circuit half_open : CircuitState

abbrev pub state_eq : CircuitState → CircuitState → Bool
state_eq closed closed = true
state_eq open_circuit open_circuit = true
state_eq half_open half_open = true
state_eq _ _ = false

pub record BreakerPolicy : Type 0 where
  pub failure_threshold : ℤ
  pub cooldown : ℕ

abbrev pub default_breaker : BreakerPolicy
default_breaker = record { failure_threshold = pos 5; cooldown = 30_000_000_000 }

-- Zero or less disables the breaker.
abbrev pub is_disabled : BreakerPolicy → Bool
is_disabled p = pos_part p.failure_threshold == 0

pub record Breaker : Type 0 where
  pub failures : ℕ
  pub state : CircuitState
  pub opened_at : ℕ
  pub probing : Bool

abbrev pub closed_breaker : Breaker
closed_breaker = record { failures = 0; state = closed; opened_at = 0; probing = false }

pub record Breakers : Type 0 where
  pub hooked : Bool
  pub reported : List (String × CircuitState)
  pub policy : BreakerPolicy
  pub overrides : Dict BreakerPolicy
  pub state : Dict Breaker

unfoldable pub new_breakers : BreakerPolicy → Breakers
new_breakers policy = record {
  hooked = false;
  reported = [];
  policy = policy;
  overrides = [];
  state = [];
}

unfoldable pub set_overrides : Dict BreakerPolicy → Breakers → Breakers
set_overrides overrides b = record b { overrides = overrides }

-- `Engine.setBreakerPolicy` rebuilds the breakers; `Engine.SetBreakerPolicy` keeps their health.
unfoldable pub rebuild_breakers : BreakerPolicy → Breakers → Breakers
rebuild_breakers policy b = record (new_breakers policy) { hooked = true; reported = b.reported }

unfoldable pub set_policy : BreakerPolicy → Breakers → Breakers
set_policy policy b = record b { policy = policy }

unfoldable pub policy_for : String → Breakers → BreakerPolicy
policy_for name b = elim (lookup name b.overrides) [ some p ↦ p | none ↦ b.policy ]

-- A call of the hook, if one is set.
unfoldable pub report : String → CircuitState → Breakers → Breakers
report name s b = if b.hooked then record b { reported = b.reported ++ (name, s) ∷ [] } else b

-- The breaker is a shared object in the map: `store` writes it back.
unfoldable pub store : String → Breaker → Breakers → Breakers
store name br b = record b { state = insert name br b.state }

unfoldable pub get : String → Breakers → Breaker
get name b = elim (lookup name b.state) [ some br ↦ br | none ↦ closed_breaker ]

unfoldable pub transition : String → Breaker → CircuitState → Breakers → Breakers
transition name br s b =
    if state_eq br.state s
    then store name br b
    else report name s (store name (record br { state = s }) b)

unfoldable pub phase : ℕ → String → Breakers → CircuitState
phase now name b = elim (lookup name b.state) [
  | none ↦ closed
  | some br ↦
      if is_disabled (policy_for name b)
      then closed
      else if state_eq br.state open_circuit
          && leb (br.opened_at + (policy_for name b).cooldown) now
      then half_open
      else br.state
]

-- The `switch` of `allow`.
unfoldable pub admit : CircuitState → ℕ → String → Breaker → Breakers → Bool × Breakers
admit open_circuit now name br b =
    if ltb now (br.opened_at + (policy_for name b).cooldown)
    then (false, store name br b)
    else (true, transition name (record br { probing = true }) half_open b)
admit half_open now name br b =
    if br.probing
    then (false, store name br b)
    else (true, store name (record br { probing = true }) b)
admit closed now name br b = (true, store name br b)

unfoldable pub allow : ℕ → String → Breakers → Bool × Breakers
allow now name b =
    if is_disabled (policy_for name b)
    then (true, b)
    else admit (get name b).state now name (get name b) b

unfoldable pub success : String → Breakers → Breakers
success name b =
    if is_disabled (policy_for name b)
    then b
    else transition name (record (get name b) { failures = 0; probing = false }) closed b

-- The part of `failure` after `br.failures++`.
unfoldable pub trip : ℕ → String → Breaker → Breakers → Breakers
trip now name br b =
    if state_eq br.state half_open
      || leb (pos_part (policy_for name b).failure_threshold) br.failures
    then report name open_circuit
        (store name (record br { opened_at = now; probing = false; state = open_circuit }) b)
    else store name br b

unfoldable pub failure : ℕ → String → Breakers → Breakers
failure now name b =
    if is_disabled (policy_for name b)
    then b
    else let br = get name b in trip now name (record br { failures = br.failures + 1 }) b

pub record ProviderHealth : Type 0 where
  pub provider : String
  pub state : CircuitState
  pub failures : ℕ
  pub opened_at : Option ℕ
  pub retry_at : Option ℕ
  pub last_probe_error : String

unfoldable pub health_of : String → Breaker → Breakers → ProviderHealth
health_of name br b =
    let is_open = state_eq br.state open_circuit in
    record {
      provider = name;
      state = br.state;
      failures = br.failures;
      opened_at = if is_open then some br.opened_at else none;
      retry_at = if is_open then some (br.opened_at + (policy_for name b).cooldown) else none;
      last_probe_error = "";
    }

unfoldable pub snapshot_from : Dict Breaker → Breakers → Dict ProviderHealth
snapshot_from [] b = []
snapshot_from ((name, br) ∷ m) b = (name, health_of name br b) ∷ snapshot_from m b

unfoldable pub snapshot : Breakers → Dict ProviderHealth
snapshot b = snapshot_from b.state b
