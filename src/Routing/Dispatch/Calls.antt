-- ===== src/Routing/Dispatch/Calls.antt =====
-- What the walk of `dispatch` leaves alone, and what is true of the calls that it adds.
use zealish_router.Base.{
  All, All-append, str_eq, ℕ, zero, suc, ◌+◌, ◌-◌, ◌*◌, ◌≤◌, ◌≡◌, refl, ◌∙◌, Bool, true, false,
  none, some, List, [], ◌∷◌, arith, length, length-append, String, Dict, Bool-cases, inl, inr,
  Option-cases, lookup,
}
use zealish_router.Breaker.{allow}
use zealish_router.Routing.Table.{
  Route, Routes, Result, RequestRequirements, pick, max_chain_attempts,
}
use zealish_router.Routing.Table
use zealish_router.Routing.Chain.{is_intelligent}
use zealish_router.Routing.Engine.{
  classify, unroutable, World, Engine, Answer, answered, failed, Outcome, is_healthy,
}
use zealish_router.Routing.Dispatch.{
  Last, Step, done, next, settle, try_once, attempt_from, attempt, visit, visit_alias,
  dispatch_from, dispatch_chain, no_last, called, stops, conclude,
}
use zealish_router.Routing.Dispatch.Same.{
  Same, noted-Same, after, skipped-Same, finish_trace-Same, after_success-Same, after_failure-Same,
  exhausted-Same, no_chain-Same,
}

-- The settings stay, at most `n` calls are added, and each is to a route of which `P` holds.
pub record Costs (P : Route → Type 0) (n : ℕ) (e e' : Engine) : Type 0 where
  pub same_attempts : e'.attempts ≡ e.attempts
  pub same_down : e'.down ≡ e.down
  pub few : length e'.made ≤ length e.made + n
  pub only : All P e.made → All P e'.made

module _ {P : Route → Type 0} where
  Same-Costs : {e e' : Engine} → Same e e' → Costs P 0 e e'
  Same-Costs {e = e} {e' = e'} h = record {
    same_attempts = h.same_attempts;
    same_down = h.same_down;
    few = ground (arith, h.same_made);
    only = λ k. rw h.same_made k;
  }

  Costs-trans : {m n : ℕ} {a b c : Engine} → Costs P m a b → Costs P n b c → Costs P (m + n) a c
  Costs-trans h k = record {
    same_attempts = k.same_attempts ∙ h.same_attempts;
    same_down = k.same_down ∙ h.same_down;
    few = omega (arith, h.few, k.few);
    only = λ p. k.only (h.only p);
  }

  Costs-mono : {m n : ℕ} {a b : Engine} → m ≤ n → Costs P m a b → Costs P n a b
  Costs-mono l h = record {
    same_attempts = h.same_attempts;
    same_down = h.same_down;
    few = omega (arith, h.few);
    only = h.only;
  }

module _ {A : Type 0} (w : World A) (P : Route → Type 0) where
  settle-Costs :
      (route : Route) (retry fallback : Bool) (e : Engine) (a : Answer A)
      → P route
      → Costs P 1 e (settle w a route retry fallback (called w route e)).1
  settle-Costs route retry fallback e a p =
      let more : Costs P 1 e (called w route e) = record {
        same_attempts = refl;
        same_down = refl;
        few = ground (arith, length-append e.made (route ∷ []));
        only = λ h. All-append P e.made (route ∷ []) h (p, tt);
      } in
      let noted = noted-Same w route retry fallback (called w route e) in
      elim a as (λ a. Costs P 1 e (settle w a route retry fallback (called w route e)).1) [
        | answered x ↦ Costs-mono (omega arith) (Costs-trans more (Same-Costs noted.1))
        | failed c ↦ Costs-mono (omega arith) (Costs-trans more (Same-Costs (noted.0 c)))
      ]

  again_Costs :
      {e : Engine} (left : ℕ) (once again : Answer A × Engine)
      → Costs P 1 e once.1
      → Costs P (suc left) once.1 again.1
      → Costs P
          (suc (suc left))
          e
          (elim once.0 as (λ a. Answer A × Engine) [
            | answered a ↦ (answered a, once.1)
            | failed c ↦
                elim (stops w c (w.context_error (length once.1.made)))
                  as (λ o. Answer A × Engine) [ some stop ↦ (failed stop, once.1) | none ↦ again ]
          ]).1
  again_Costs left (answered a, e') again h k = Costs-mono (omega arith) h
  again_Costs left (failed c, e') again h k =
      elim (Option-cases (stops w c (w.context_error (length e'.made)))) [
        | inl n ↦ rw n (Costs-mono (omega arith) (Costs-trans h k))
        | inr (stop, n) ↦ rw n (Costs-mono (omega arith) h)
      ]

  attempt_from-Costs :
      (left : ℕ) (retry : Bool) (route : Route) (fallback : Bool) (e : Engine)
      → P route
      → Costs P (suc left) e (attempt_from w left retry route fallback e).1
  unfolding attempt_from try_once
  attempt_from-Costs zero retry route fallback e p =
      settle-Costs route retry fallback e (w.reply (length e.made) route) p
  attempt_from-Costs (suc left) retry route fallback e p =
      again_Costs left (try_once w route retry fallback e)
        (attempt_from w left true route fallback (try_once w route retry fallback e).1)
        (settle-Costs route retry fallback e (w.reply (length e.made) route) p)
        (attempt_from-Costs left true route fallback (try_once w route retry fallback e).1 p)

  conclude-Costs :
      (n : ℕ) (streamed : Bool) (route : Route) (e : Engine) (r : Answer A × Engine)
      → Costs P n e r.1
      → Costs P n e (after w (conclude w streamed route r))
  conclude-Costs n streamed route e (answered a, e') h =
      Costs-mono (omega arith) (Costs-trans h (Same-Costs (after_success-Same w streamed route e')))
  conclude-Costs n streamed route e (failed c, e') h =
      Costs-mono (omega arith) (Costs-trans h (Same-Costs (after_failure-Same w route c e')))

  -- A route costs at most the configured number of attempts.
  visit-Costs :
      (streamed : Bool) (route : Route) (fallback : Bool) (last : Last w) (e : Engine)
      → ((x : Engine) → x.down ≡ e.down → is_healthy route.provider x ≡ true → P route)
      → Costs P (suc (e.attempts - 1)) e (after w (visit w streamed route fallback last e))
  unfolding visit attempt
  visit-Costs streamed route fallback last e p =
      let r = allow (w.clock e.ticks) route.provider e.breakers in
      let e' : Engine = record e { breakers = r.1; ticks = e.ticks + 1 } in
      let asked : Same e e' = record { same_attempts = refl; same_down = refl; same_made = refl } in
      elim (Bool-cases r.0) [
        | inr f ↦ rw f (
            Costs-mono (omega arith) (
              Costs-trans (Same-Costs asked)
                (Same-Costs (skipped-Same w route "circuit_open" fallback e'))))
        | inl t ↦ elim (Bool-cases (is_healthy route.provider e')) [
          | inr f ↦ rw t (
              rw f (
                Costs-mono (omega arith) (
                  Costs-trans (Same-Costs asked)
                    (Same-Costs (skipped-Same w route "unhealthy" fallback e')))))
          | inl h ↦ rw t (
              rw h (
                conclude-Costs (suc (e.attempts - 1)) streamed route e (attempt w route fallback e')
                  (Costs-mono (omega arith) (
                    Costs-trans (Same-Costs asked) (
                      attempt_from-Costs (e.attempts - 1) false route fallback e' (p e' refl h))))))
        ]
      ]

  visit_alias-Costs :
      (model alias : String) (streamed fallback : Bool) (last : Last w) (e : Engine)
      (r : Result Route)
      → ((route : Route) (x : Engine)
          → r ≡ Table.ok route
          → x.down ≡ e.down
          → is_healthy route.provider x ≡ true
          → P route)
      → Costs P
          (suc (e.attempts - 1))
          e
          (after w (visit_alias w model alias streamed fallback last e r))
  visit_alias-Costs model alias streamed fallback last e (Table.err x) p =
      elim (Bool-cases (str_eq alias model)) [
        | inl t ↦ rw t (
            Costs-mono (omega arith) (Same-Costs (finish_trace-Same w (classify (unroutable x)) e)))
        | inr f ↦ rw f (
            Costs-mono (omega arith)
              (Same-Costs (record { same_attempts = refl; same_down = refl; same_made = refl })))
      ]
  visit_alias-Costs model alias streamed fallback last e (Table.ok route) p =
      visit-Costs streamed route fallback last e (λ x d h. p route x refl d h)

  follow-Costs :
      {m n : ℕ} {e : Engine} (s : Step w) (k : Last w → Engine → Outcome A × Engine)
      → Costs P m e (after w s)
      → ((l : Last w) (e' : Engine)
          → e'.attempts ≡ e.attempts
          → e'.down ≡ e.down
          → Costs P n e' (k l e').1)
      → Costs P
          (m + n)
          e
          (elim s as (λ t. Outcome A × Engine) [ done o e' ↦ (o, e') | next l e' ↦ k l e' ]).1
  follow-Costs (done o e') k h c = Costs-mono (omega arith) h
  follow-Costs (next l e') k h c = Costs-trans h (c l e' h.same_attempts h.same_down)

  dispatch_from-Costs :
      (n : ℕ) (down : Dict String) (rt : Routes) (model : String)
      (streamed intelligent fallback : Bool) (last : Last w) (aliases : List String) (e : Engine)
      → suc (e.attempts - 1) ≡ n
      → e.down ≡ down
      → ((alias : String) (route : Route) (x : Engine)
          → pick alias rt ≡ Table.ok route
          → x.down ≡ down
          → is_healthy route.provider x ≡ true
          → P route)
      → Costs P
          (length aliases * n)
          e
          (dispatch_from w rt model streamed intelligent fallback last aliases e).1
  unfolding dispatch_from
  dispatch_from-Costs n down rt model streamed intelligent fallback last [] e h d p =
      Costs-mono (omega arith) (Same-Costs (exhausted-Same w model intelligent last e))
  dispatch_from-Costs n down rt model streamed intelligent fallback last (alias ∷ rest) e h d p =
      let one =
        visit_alias-Costs model alias streamed fallback last e (pick alias rt)
          (λ route x q y. p alias route x q (y ∙ d)) in
      Costs-mono (grind arith) (
        follow-Costs {m = n} {n = length rest * n}
          (visit_alias w model alias streamed fallback last e (pick alias rt))
          (λ l e'. dispatch_from w rt model streamed intelligent true l rest e')
          (Costs-mono (omega (arith, h)) one)
          (λ l e' k y.
            dispatch_from-Costs n down rt model streamed intelligent true l rest e'
              (omega (arith, h, k)) (y ∙ d) p))

  pub dispatch_chain-Costs :
      (score : String → ℕ) (req : RequestRequirements) (model : String) (streamed : Bool)
      (rt : Routes) (aliases : List String) (e : Engine)
      → ((alias : String) (route : Route) (x : Engine)
          → pick alias rt ≡ Table.ok route
          → x.down ≡ e.down
          → is_healthy route.provider x ≡ true
          → P route)
      → Costs P
          (length aliases * suc (e.attempts - 1))
          e
          (dispatch_chain w score req model streamed rt aliases e).1
  unfolding dispatch_chain
  dispatch_chain-Costs score req model streamed rt [] e p =
      Costs-mono (omega arith) (Same-Costs (no_chain-Same w score req model rt e))
  dispatch_chain-Costs score req model streamed rt (alias ∷ rest) e p =
      dispatch_from-Costs (suc (e.attempts - 1)) e.down rt model streamed
        (is_intelligent (lookup model rt.combos)) false (no_last w) (alias ∷ rest) e refl refl p
