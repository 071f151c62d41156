-- ===== src/Breaker/Single.antt =====
-- The breaker of one provider as a machine of its own, over the fields of one `Breaker`: an
-- independent description that Breaker/Isolation relates to the operations on the whole map.
use zealish_router.Base.{
  ℕ, ◌+◌, ◌≤◌, ◌<◌, ◌≡◌, Bool, true, false, ◌||◌, List, [], ◌∷◌, ltb, leb, arith, if◌then◌else◌,
  pos_part,
}
use zealish_router.Breaker.{
  BreakerPolicy, Breaker, closed, open_circuit, half_open, is_disabled, state_eq, closed_breaker,
}

-- What the routing engine tells the breaker of a provider, at a time.
pub data Event : Type 0 where
  allows : ℕ → Event
  succeeds : Event
  fails : ℕ → Event

abbrev pub single_allow : BreakerPolicy → ℕ → Breaker → Bool × Breaker
single_allow p now br = elim br.state [
  | closed ↦ (true, br)
  | open_circuit ↦
      if ltb now (br.opened_at + p.cooldown)
      then (false, br)
      else (true, record br { state = half_open; probing = true })
  | half_open ↦ if br.probing then (false, br) else (true, record br { probing = true })
]

abbrev pub single_success : Breaker → Breaker
single_success br = record br { state = closed; failures = 0; probing = false }

abbrev pub single_failure : BreakerPolicy → ℕ → Breaker → Breaker
single_failure p now br =
    if state_eq br.state half_open || leb (pos_part p.failure_threshold) (br.failures + 1)
    then record {
      failures = br.failures + 1;
      state = open_circuit;
      opened_at = now;
      probing = false;
    }
    else record br { failures = br.failures + 1 }

unfoldable pub single_step : BreakerPolicy → Breaker → Event → Breaker
single_step p br (allows now) = if is_disabled p then br else (single_allow p now br).1
single_step p br succeeds = if is_disabled p then br else single_success br
single_step p br (fails now) = if is_disabled p then br else single_failure p now br

unfoldable pub single_run : BreakerPolicy → Breaker → List Event → Breaker
single_run p br [] = br
single_run p br (e ∷ es) = single_run p (single_step p br e) es

-- What holds of a breaker at any moment under a policy that is enabled: a closed circuit has
-- counted fewer failures than the threshold, and a probe is in flight exactly when half-open.
pub record IsSound (p : BreakerPolicy) (br : Breaker) : Type 0 where
  pub under : br.state ≡ closed → br.failures < pos_part p.failure_threshold
  pub over : br.state ≡ open_circuit → pos_part p.failure_threshold ≤ br.failures
  pub half : br.state ≡ half_open → pos_part p.failure_threshold ≤ br.failures
  pub probe : br.state ≡ half_open → br.probing ≡ true
  pub quiet : br.probing ≡ true → br.state ≡ half_open

pub closed_breaker-IsSound :
    (p : BreakerPolicy) → 0 < pos_part p.failure_threshold → IsSound p closed_breaker
closed_breaker-IsSound p h = ground arith

single_step-IsSound :
    (p : BreakerPolicy) (br : Breaker) (e : Event) → IsSound p br → IsSound p (single_step p br e)
unfolding single_step
single_step-IsSound p br (allows now) h = ground arith
single_step-IsSound p br succeeds h = ground arith
single_step-IsSound p br (fails now) h = ground arith

pub single_run-IsSound :
    (p : BreakerPolicy) (br : Breaker) (es : List Event)
    → IsSound p br
    → IsSound p (single_run p br es)
unfolding single_run
single_run-IsSound p br [] h = h
single_run-IsSound p br (e ∷ es) h =
    single_run-IsSound p (single_step p br e) es (single_step-IsSound p br e h)
