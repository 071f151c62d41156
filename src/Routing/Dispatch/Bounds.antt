-- ===== src/Routing/Dispatch/Bounds.antt =====
-- Which upstream calls a request makes, and how many.
use zealish_router.Base.{
  contains, ℕ, suc, ◌+◌, ◌-◌, ◌*◌, ◌≤◌, ◌≡◌, refl, sym, String, Bool, true, none, List, [], ◌∷◌,
  arith, length, lookup, All,
}
use zealish_router.Routing.Table.{
  Route, Routes, Result, RequestRequirements, pick, resolve, max_chain_attempts,
}
use zealish_router.Routing.Table
use zealish_router.Routing.Chain.{chain, walk, chain_from, entrypoints, advance}
use zealish_router.Routing.Distinct.{chain_from_bounds}
use zealish_router.Routing.Engine.{World, Engine, is_healthy}
use zealish_router.Routing.Dispatch.{dispatch}
use zealish_router.Routing.Dispatch.Calls.{dispatch_chain-Costs}

walk_bound :
    (name : String) (req : RequestRequirements) (rt : Routes) (r : Result (List String))
    → length (walk name req rt r) ≤ max_chain_attempts
unfolding walk chain_from
walk_bound name req rt (Table.err x) = omega arith
walk_bound name req rt (Table.ok []) = omega arith
walk_bound name req rt (Table.ok (m ∷ ms)) = (chain_from_bounds name req rt m ms).0

-- What `pick` lets through is registered.
pick-contains :
    (alias : String) (rt : Routes) (route : Route)
    → pick alias rt ≡ Table.ok route
    → contains rt.registry route.provider ≡ true
unfolding pick
pick-contains alias rt route h = ground arith

healthy_lookup :
    (provider : String) (e x : Engine)
    → x.down ≡ e.down
    → is_healthy provider x ≡ true
    → lookup provider e.down ≡ none
unfolding is_healthy
healthy_lookup provider e x d h = ground (arith, d)

-- Choosing the entry points moves counters only.
entrypoints_registry :
    (score : String → ℕ) (name : String) (req : RequestRequirements) (rt : Routes)
    → (entrypoints score name req rt).1.registry ≡ rt.registry
unfolding entrypoints advance
entrypoints_registry score name req rt = ground arith

module _ {A : Type 0} (w : World A) (score : String → ℕ) where
  -- A request costs at most eight times the configured number of attempts (at least one) in upstream
  -- calls, whatever the table, the breakers and the answers are.
  pub dispatch_calls :
      (req : RequestRequirements) (model : String) (streamed : Bool) (rt : Routes) (e : Engine)
      → length (dispatch w score req model streamed rt e).0.1.made
        ≤ length e.made + max_chain_attempts * suc (e.attempts - 1)
  unfolding dispatch chain
  dispatch_calls req model streamed rt e =
      let (entry, rt') = entrypoints score model req rt in
      let cost =
        dispatch_chain-Costs w (λ r. ◌≡◌ {A = Route} r r) score req model streamed rt'
          (walk model req rt' entry) e (λ a r x p d h. refl) in
      let bound = walk_bound model req rt' entry in let few = cost.few in grind arith

  -- Every upstream call of a request goes to a provider that is registered and that the health
  -- probes have not marked down.
  pub dispatch_targets :
      (req : RequestRequirements) (model : String) (streamed : Bool) (rt : Routes) (e : Engine)
      → e.made ≡ []
      → All
          (λ r. (contains rt.registry r.provider ≡ true) × (lookup r.provider e.down ≡ none))
          (dispatch w score req model streamed rt e).0.1.made
  unfolding dispatch chain
  dispatch_targets req model streamed rt e h =
      let (entry, rt') = entrypoints score model req rt in
      let same : rt'.registry ≡ rt.registry = entrypoints_registry score model req rt in
      let cost =
        dispatch_chain-Costs w
          (λ r. (contains rt.registry r.provider ≡ true) × (lookup r.provider e.down ≡ none)) score
          req model streamed rt' (walk model req rt' entry) e
          (λ a r x p d k.
            (rw (sym same) (pick-contains a rt' r p), healthy_lookup r.provider e x d k)) in
      cost.only (rw h tt)
