-- ===== src/Probes.antt =====
-- internal/router/health.go: the map of providers that failed their last probe, and what the health
-- checker does with a result; and `Engine.Health` of internal/router/router.go. CheckAll probes all
-- providers at once: whatever the interleaving, each `check` sets its result in one step under the
-- lock, so a run of the checker is a sequence of checks. An error is its text.
pub mod Results
use zealish_router.Base.{
  ℕ, String, Bool, true, false, not, ◌&&◌, Option, none, some, List, [], ◌∷◌, ◌++◌, is_bound,
  if◌then◌else◌, Dict, lookup, insert, delete,
}
use zealish_router.Breaker.{Breakers, ProviderHealth, open_circuit, snapshot}

-- `down` is the map, `alarms` the providers for which `health_check` was recorded.
pub record Probes : Type 0 where
  pub down : Dict String
  pub alarms : List String

-- `set`: whether the provider's health changed, and the map after it.
unfoldable pub set_probe : String → Option String → Dict String → Bool × Dict String
set_probe name none down = (is_bound (lookup name down), delete name down)
set_probe name (some error) down = (not (is_bound (lookup name down)), insert name error down)

-- One result: of whom, and the error of the ping; `stopped` if the context ended meanwhile.
pub record Check : Type 0 where
  pub name : String
  pub error : Option String
  pub stopped : Bool

unfoldable pub check : Check → Probes → Probes
check c p =
    if c.stopped
    then p
    else let (changed, down) = set_probe c.name c.error p.down in
      record {
        down = down;
        alarms = if changed && is_bound c.error then p.alarms ++ c.name ∷ [] else p.alarms;
      }

-- What a probe adds to the health of a provider that the breakers may not know.
abbrev pub health_or_zero : String → Option ProviderHealth → ProviderHealth
health_or_zero name (some h) = h
health_or_zero name none = record {
  provider = name;
  state = open_circuit;
  failures = 0;
  opened_at = none;
  retry_at = none;
  last_probe_error = "";
}

abbrev pub probed : String → String → ProviderHealth → ProviderHealth
probed name error h = record h { provider = name; state = open_circuit; last_probe_error = error }

unfoldable pub merge_probes : Dict String → Dict ProviderHealth → Dict ProviderHealth
merge_probes [] out = out
merge_probes ((name, error) ∷ rest) out =
    let out' = merge_probes rest out in
    insert name (probed name error (health_or_zero name (lookup name out'))) out'

unfoldable pub health : Breakers → Probes → Dict ProviderHealth
health b p = merge_probes p.down (snapshot b)
