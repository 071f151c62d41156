-- ===== src/Budget/Fits.antt =====
-- What is kept fits the budget, keeps the protected end, and is in order.
use zealish_router.Base.{
  ℕ, zero, suc, ◌+◌, ◌-◌, ◌≤◌, ◌≡◌, refl, subst, sym, ap, String, Bool, true, false, some, List, [],
  ◌∷◌, ◌++◌, length, get_elem?, set, take, drop, if_either, if_cases, arith, ltb, if◌then◌else◌,
}
use mathlib.Core.List.{Sublistᴰ}
use zealish_router.Dedup.{Message}
use zealish_router.Budget.{
  Decoded, ScoredMessage, rank_messages, protect, unprotected, sort_scored, select, message_tokens,
  estimate_tokens, add_candidates, filter_by_budget,
}
use zealish_router.Budget.Ranks.{
  AllPlaced, rank_messages-AllPlaced, unprotected-AllPlaced, sort_scored-AllPlaced,
}

-- All but the first `older` messages are marked.
abbrev Guards : ℕ → List Bool → List Message → Type 0
Guards older [] [] = Unit
Guards zero (k ∷ keep) (m ∷ ms) = (k ≡ true) × Guards zero keep ms
Guards (suc older) (k ∷ keep) (m ∷ ms) = Guards older keep ms
Guards older _ _ = ⊥

protect-Guards : (older : ℕ) (ms : List Message) → Guards older (protect older ms) ms
unfolding protect
protect-Guards zero [] = tt
protect-Guards (suc older) [] = tt
protect-Guards zero (m ∷ ms) = (refl, protect-Guards zero ms)
protect-Guards (suc older) (m ∷ ms) = protect-Guards older ms

set-Guards :
    (older : ℕ) (keep : List Bool) (ms : List Message) (i : ℕ)
    → Guards older keep ms
    → Guards older (set keep i true) ms
set-Guards zero [] [] i h = tt
set-Guards (suc older) [] [] i h = tt
set-Guards zero [] (m ∷ ms) i h = absurd h
set-Guards (suc older) [] (m ∷ ms) i h = absurd h
set-Guards zero (k ∷ keep) [] i h = absurd h
set-Guards (suc older) (k ∷ keep) [] i h = absurd h
set-Guards zero (k ∷ keep) (m ∷ ms) zero h = (refl, h.1)
set-Guards zero (k ∷ keep) (m ∷ ms) (suc i) h = (h.0, set-Guards zero keep ms i h.1)
set-Guards (suc older) (k ∷ keep) (m ∷ ms) zero h = h
set-Guards (suc older) (k ∷ keep) (m ∷ ms) (suc i) h = set-Guards older keep ms i h

-- The protected messages are there, after some of the older ones in their order.
pub record Ends (older : ℕ) (ms result : List Message) : Type 0 where
  pub kept : List Message
  pub whole : result ≡ kept ++ drop older ms
  pub ordered : Sublistᴰ kept (take older ms)

select_all : (keep : List Bool) (ms : List Message) → Guards zero keep ms → select keep ms ≡ ms
unfolding select
select_all [] [] h = refl
select_all [] (m ∷ ms) h = absurd h
select_all (k ∷ keep) [] h = absurd h
select_all (k ∷ keep) (m ∷ ms) h = rw h.0 (ap (λ rest. m ∷ rest) (select_all keep ms h.1))

select-Ends :
    (older : ℕ) (keep : List Bool) (ms : List Message)
    → Guards older keep ms
    → Ends older ms (select keep ms)
unfolding select
select-Ends zero keep ms h = record {
  kept = [];
  whole = select_all keep ms h;
  ordered = Sublistᴰ.slnil;
}
select-Ends (suc older) [] [] h = record { kept = []; whole = refl; ordered = Sublistᴰ.slnil }
select-Ends (suc older) [] (m ∷ ms) h = absurd h
select-Ends (suc older) (k ∷ keep) [] h = absurd h
select-Ends (suc older) (true ∷ keep) (m ∷ ms) h =
    let e = select-Ends older keep ms h in
    record {
      kept = m ∷ e.kept;
      whole = ap (λ rest. m ∷ rest) e.whole;
      ordered = Sublistᴰ.cons-cons refl e.ordered;
    }
select-Ends (suc older) (false ∷ keep) (m ∷ ms) h =
    let e = select-Ends older keep ms h in
    record { kept = e.kept; whole = e.whole; ordered = Sublistᴰ.cons e.ordered }

-- Before the loop exactly the protected messages are kept.
select-protect : (older : ℕ) (ms : List Message) → select (protect older ms) ms ≡ drop older ms
unfolding select protect
select-protect zero [] = refl
select-protect (suc older) [] = refl
select-protect zero (m ∷ ms) = ap (λ rest. m ∷ rest) (select-protect zero ms)
select-protect (suc older) (m ∷ ms) = select-protect older ms

module _ (decode : String → Decoded) where
  select-set :
      (keep : List Bool) (ms : List Message) (i : ℕ) (m : Message)
      → get_elem? ms i ≡ some m
      → estimate_tokens decode (select (set keep i true) ms)
        ≤ estimate_tokens decode (select keep ms) + message_tokens decode m
  unfolding select estimate_tokens
  select-set [] ms i m h = omega arith
  select-set (k ∷ keep) [] zero m h = absurd (ground (arith, h))
  select-set (k ∷ keep) [] (suc i) m h = absurd (ground (arith, h))
  select-set (true ∷ keep) (x ∷ ms) zero m h = omega arith
  select-set (false ∷ keep) (x ∷ ms) zero m h = ground (arith, h)
  select-set (true ∷ keep) (x ∷ ms) (suc i) m h = omega (arith, select-set keep ms i m h)
  select-set (false ∷ keep) (x ∷ ms) (suc i) m h = omega (arith, select-set keep ms i m h)

  add_candidates-Guards :
      (older budget : ℕ) (cs : List ScoredMessage) (keep : List Bool) (used : ℕ) (ms : List Message)
      → Guards older keep ms
      → Guards older (add_candidates decode budget cs keep used) ms
  unfolding add_candidates
  add_candidates-Guards older budget [] keep used ms h = h
  add_candidates-Guards older budget (c ∷ cs) keep used ms h =
      if_either (λ k. Guards older k ms) (ltb budget (used + message_tokens decode c.message))
        (add_candidates-Guards older budget cs keep used ms h)
        (add_candidates-Guards older budget cs (set keep c.index true)
          (used + message_tokens decode c.message) ms (set-Guards older keep ms c.index h))

  add_candidates-tokens :
      (budget limit : ℕ) (cs : List ScoredMessage) (keep : List Bool) (used : ℕ) (ms : List Message)
      → AllPlaced ms cs
      → estimate_tokens decode (select keep ms) ≤ used
      → used ≤ limit
      → budget ≤ limit
      → estimate_tokens decode (select (add_candidates decode budget cs keep used) ms) ≤ limit
  unfolding add_candidates
  add_candidates-tokens budget limit [] keep used ms p h u b = omega (arith, h, u)
  add_candidates-tokens budget limit (c ∷ cs) keep used ms p h u b =
      let cost = message_tokens decode c.message in
      if_cases (λ k. estimate_tokens decode (select k ms) ≤ limit) (ltb budget (used + cost))
        (λ over. add_candidates-tokens budget limit cs keep used ms p.1 h u b)
        (λ fits.
          add_candidates-tokens budget limit cs (set keep c.index true) (used + cost) ms p.1
            (omega (arith, select-set keep ms c.index c.message p.0, h)) (ground (arith, fits, b))
            b)

  abbrev pub max_tokens : ℕ → List Message → ℕ
  max_tokens budget tail =
      let least = estimate_tokens decode tail in if ltb budget least then least else budget

  -- Of the conversation the last `protected` messages are all kept, and of the older ones some, in
  -- their order; together they take no more tokens than the budget, or than the protected messages
  -- alone if these take more.
  pub record FitsBudget (ms : List Message) (budget protected : ℕ) (result : List Message)
      : Type 0 where
    pub ends : Ends (length ms - protected) ms result
    pub tokens : estimate_tokens decode result ≤ max_tokens budget (drop (length ms - protected) ms)

  pub filter_by_budget-FitsBudget :
      (ms : List Message) (budget protected : ℕ)
      → FitsBudget ms budget protected
          (filter_by_budget decode ms (rank_messages ms) budget protected)
  unfolding filter_by_budget
  filter_by_budget-FitsBudget ms budget protected =
      let older = length ms - protected in
      let keep = protect older ms in
      let guards = protect-Guards older ms in
      let used = estimate_tokens decode (select keep ms) in
      let candidates = sort_scored [] (unprotected keep (rank_messages ms)) in
      record {
        ends =
            select-Ends older _ ms
              (add_candidates-Guards older budget candidates keep used ms guards);
        tokens =
            add_candidates-tokens budget (max_tokens budget (drop older ms)) candidates keep used ms
              (sort_scored-AllPlaced ms [] (unprotected keep (rank_messages ms)) tt
                (unprotected-AllPlaced ms keep (rank_messages ms) (rank_messages-AllPlaced ms)))
              (omega arith)
              (subst (λ start. estimate_tokens decode start ≤ max_tokens budget (drop older ms))
                (sym (select-protect older ms)) (ground arith))
              (ground arith);
      }
