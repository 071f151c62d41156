-- ===== src/Probes/Results.antt =====
-- What the health checker knows after any sequence of results.
use zealish_router.Base.{
  ℕ, ◌+◌, ◌≡◌, refl, ◌∙◌, String, Bool, not, ◌&&◌, Option, none, some, List, [], ◌∷◌, is_bound,
  arith, count, count-append, Bool-cases, sym, ap, if◌then◌else◌, Dict, lookup, lookup-insert,
  lookup-delete, str_eq, eq_iff, inl, inr,
}
use zealish_router.Breaker.{
  Breaker, Breakers, CircuitState, closed, open_circuit, half_open, ProviderHealth, policy_for,
  health_of, snapshot_from, snapshot,
}
use zealish_router.Probes.{
  Probes, Check, set_probe, check, health_or_zero, probed, merge_probes, health,
}

unfoldable pub checks : Probes → List Check → Probes
checks p [] = p
checks p (c ∷ cs) = checks (check c p) cs

-- The last result that counts: a check that was stopped leaves the provider as it was.
unfoldable pub last_result : String → Option String → List Check → Option String
last_result name before [] = before
last_result name before (c ∷ cs) =
    last_result name (if str_eq c.name name && not c.stopped then c.error else before) cs

-- How often the provider goes from healthy to failing in its own results.
unfoldable pub falls : String → Bool → List Check → ℕ
falls name failing [] = 0
falls name failing (c ∷ cs) =
    if str_eq c.name name && not c.stopped
    then (if is_bound c.error && not failing then 1 else 0) + falls name (is_bound c.error) cs
    else falls name failing cs

set_probe-lookup :
    (name other : String) (error : Option String) (down : Dict String)
    → lookup other (set_probe name error down).1
      ≡ (if str_eq name other then error else lookup other down)
unfolding set_probe
set_probe-lookup name other none down = lookup-delete name other down
set_probe-lookup name other (some e) down = lookup-insert name other e down

check-lookup :
    (c : Check) (p : Probes) (name : String)
    → lookup name (check c p).down
      ≡ (if str_eq c.name name && not c.stopped then c.error else lookup name p.down)
unfolding check
check-lookup c p name = ground (arith, set_probe-lookup c.name name c.error p.down)

check-alarms :
    (c : Check) (p : Probes) (name : String)
    → count (λ a. str_eq a name) (check c p).alarms
      ≡ count (λ a. str_eq a name) p.alarms
        + (if str_eq c.name name && not c.stopped
            then (if is_bound c.error && not (is_bound (lookup name p.down)) then 1 else 0)
            else 0)
unfolding check set_probe
check-alarms c p name =
    ground (arith, count-append (λ a. str_eq a name) p.alarms (c.name ∷ []), eq_iff c.name name)

-- After any sequence of checks of any providers, a provider is marked down exactly if its last
-- result that counts was an error, and with that error.
pub checks-last :
    (p : Probes) (cs : List Check) (name : String)
    → lookup name (checks p cs).down ≡ last_result name (lookup name p.down) cs
unfolding checks last_result
checks-last p [] name = refl
checks-last p (c ∷ cs) name = rw (checks-last (check c p) cs name, check-lookup c p name) refl

-- A provider raises an alarm exactly each time it goes from healthy to failing, whatever the other
-- providers do.
pub checks-alarms :
    (p : Probes) (cs : List Check) (name : String)
    → count (λ a. str_eq a name) (checks p cs).alarms
      ≡ count (λ a. str_eq a name) p.alarms + falls name (is_bound (lookup name p.down)) cs
unfolding checks falls
checks-alarms p [] name = omega arith
checks-alarms p (c ∷ cs) name =
    ground (arith, checks-alarms (check c p) cs name, check-alarms c p name, check-lookup c p name)

-- What is shown of a provider, from what the breakers show and what the probes found.
abbrev pub shown : String → Option ProviderHealth → Option String → Option ProviderHealth
shown name seen none = seen
shown name none (some error) = some (record {
  provider = name;
  state = open_circuit;
  failures = 0;
  opened_at = none;
  retry_at = none;
  last_probe_error = error;
})
shown name (some h) (some error) = some (record {
  provider = name;
  state = open_circuit;
  failures = h.failures;
  opened_at = h.opened_at;
  retry_at = h.retry_at;
  last_probe_error = error;
})

probed-health_or_zero :
    (name error : String) (seen : Option ProviderHealth)
    → some (probed name error (health_or_zero name seen)) ≡ shown name seen (some error)
probed-health_or_zero name error none = refl
probed-health_or_zero name error (some h) = refl

shown_again :
    (name error : String) (seen : Option ProviderHealth) (o : Option String)
    → shown name (shown name seen o) (some error) ≡ shown name seen (some error)
shown_again name error seen none = refl
shown_again name error none (some e) = refl
shown_again name error (some h) (some e) = refl

merge_probes-lookup :
    (down : Dict String) (out : Dict ProviderHealth) (name : String)
    → lookup name (merge_probes down out) ≡ shown name (lookup name out) (lookup name down)
unfolding merge_probes lookup
merge_probes-lookup [] out name = refl
merge_probes-lookup ((k, error) ∷ rest) out name =
    let merged = merge_probes rest out in
    let new = probed k error (health_or_zero k (lookup k merged)) in
    elim (Bool-cases (str_eq k name)) [
      | inr e ↦ rw (lookup-insert k name new merged) (rw e (merge_probes-lookup rest out name))
      | inl e ↦ rw (lookup-insert k name new merged) (
          rw e (
            rw (sym ((eq_iff k name).0 e)) (
              probed-health_or_zero k error (lookup k merged)
              ∙ ap (λ o. shown k o (some error)) (merge_probes-lookup rest out k)
              ∙ shown_again k error (lookup k out) (lookup k rest))))
    ]

-- A figure that is shown of an open circuit only.
abbrev pub if_open : CircuitState → ℕ → Option ℕ
if_open open_circuit n = some n
if_open _ n = none

-- What the operator is to see of a provider, from its breaker, the cooldown of its policy, and the
-- error of its last probe.
abbrev pub picture : String → ℕ → Option Breaker → Option String → Option ProviderHealth
picture name cooldown none none = none
picture name cooldown (some br) none = some (record {
  provider = name;
  state = br.state;
  failures = br.failures;
  opened_at = if_open br.state br.opened_at;
  retry_at = if_open br.state (br.opened_at + cooldown);
  last_probe_error = "";
})
picture name cooldown none (some error) = some (record {
  provider = name;
  state = open_circuit;
  failures = 0;
  opened_at = none;
  retry_at = none;
  last_probe_error = error;
})
picture name cooldown (some br) (some error) = some (record {
  provider = name;
  state = open_circuit;
  failures = br.failures;
  opened_at = if_open br.state br.opened_at;
  retry_at = if_open br.state (br.opened_at + cooldown);
  last_probe_error = error;
})

health_of-picture :
    (name : String) (failures opened : ℕ) (s : CircuitState) (probing : Bool) (b : Breakers)
    → let br : Breaker = record {
      failures = failures;
      state = s;
      opened_at = opened;
      probing = probing;
    } in
      some (health_of name br b) ≡ picture name (policy_for name b).cooldown (some br) none
unfolding health_of
health_of-picture name failures opened closed probing b = refl
health_of-picture name failures opened open_circuit probing b = refl
health_of-picture name failures opened half_open probing b = refl

snapshot_from-lookup :
    (m : Dict Breaker) (b : Breakers) (name : String)
    → lookup name (snapshot_from m b)
      ≡ picture name (policy_for name b).cooldown (lookup name m) none
unfolding snapshot_from lookup
snapshot_from-lookup [] b name = refl
snapshot_from-lookup ((k, br) ∷ m) b name = elim (Bool-cases (str_eq k name)) [
  | inr e ↦ rw e (snapshot_from-lookup m b name)
  | inl e ↦ rw e (
      rw ((eq_iff k name).0 e)
        (health_of-picture name br.failures br.opened_at br.state br.probing b))
]

shown-picture :
    (name : String) (cooldown : ℕ) (br : Option Breaker) (error : Option String)
    → shown name (picture name cooldown br none) error ≡ picture name cooldown br error
shown-picture name cooldown br none = refl
shown-picture name cooldown none (some error) = refl
shown-picture name cooldown (some br) (some error) = refl

-- `Health` reports a provider that is marked down under its name as open, with the error of its last
-- probe; a provider with a breaker with the failures that it counts, and, while the circuit is open,
-- when it opened and when it may be tried again; and, unless marked down, with the breaker's state.
-- A provider that is neither marked down nor known to the breakers is not reported.
pub health-lookup :
    (b : Breakers) (p : Probes) (name : String)
    → lookup name (health b p)
      ≡ picture name (policy_for name b).cooldown (lookup name b.state) (lookup name p.down)
unfolding health snapshot
health-lookup b p name =
    merge_probes-lookup p.down (snapshot b) name
    ∙ ap (λ seen. shown name seen (lookup name p.down)) (snapshot_from-lookup b.state b name)
    ∙ shown-picture name (policy_for name b).cooldown (lookup name b.state) (lookup name p.down)
