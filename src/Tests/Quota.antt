-- ===== src/Tests/Quota.antt =====
-- internal/auth/quota.go at fixed inputs.
use zealish_router.Base.{
  ℕ, ◌+◌, ◌≤◌, ◌<◌, ◌≡◌, refl, true, List, [], ◌∷◌, ◌++◌, String, arith, Option, All, ◌-◌, some,
  none, length, pos, lookup, insert,
}
use zealish_router.Quota.{
  Quota, Identity, Readings, spend_ttl, minute, new_quota, hits_of, take_slot, drop_expired,
  spent_this_month, read_spend, allow, rate_limited, forget,
}
use zealish_router.Quota.Sliding.{recent}
use zealish_router.Quota.Rate.{accepted, sliding, arrivals, rate_within, accepted-new_quota}
use zealish_router.Quota.Budget.{
  Question, figures, budget_error, hits_after, spend_read_through, allow_decision, forget_resets,
}

-- Two requests a minute for each key.
abbrev two_each : String → ℕ
two_each key = 2

abbrev burst : List (String × ℕ)
burst = ("a", 0) ∷ ("b", 1) ∷ ("a", 2) ∷ ("a", 3) ∷ ("a", minute) ∷ ("a", minute + 1) ∷ []

accepted-burst : accepted two_each "a" (new_quota true) burst ≡ 0 ∷ 2 ∷ minute ∷ []
unfolding accepted take_slot drop_expired hits_of new_quota lookup insert
accepted-burst = refl

rate_within_example : recent 3 (accepted two_each "a" (new_quota true) burst) ≤ 2
rate_within_example = rate_within two_each "a" true burst 3 (omega arith)

accepted-new_quota_example :
    accepted two_each "a" (new_quota true) burst ≡ sliding 2 [] (arrivals "a" burst)
accepted-new_quota_example = accepted-new_quota two_each "a" true burst (omega arith)

abbrev fresh : Quota
fresh = record { has_usage = true; windows = []; spending = [] }

-- A figure that is thirty seconds old at the first question.
abbrev stale : Quota
stale = record {
  has_usage = true;
  windows = [];
  spending = ("a", record { usd = 3; refreshed = 10 }) ∷ [];
}

abbrev ask : ℕ → String → Option ℕ → Question
ask now key answer = record { now = now; key = key; answer = answer }

abbrev questions : ℕ → List Question
questions t =
    ask (t + 1) "a" (some 99) ∷ ask (t + 2) "b" (some 5) ∷ ask (t + spend_ttl - 1) "a" none ∷ []

abbrev first_due : ℕ
first_due = 10 + spend_ttl

spend_read_through_example :
    let (given, q') = spent_this_month first_due "a" (some 7) stale in
    (given ≡ 7)
    × (All (λ f. f ≡ 7) (figures "a" q' (questions first_due)))
    × (spent_this_month first_due "a" none stale ≡ (0, stale))
unfolding lookup
spend_read_through_example =
    spend_read_through first_due 7 "a" stale (questions first_due) refl
      (omega arith, (omega arith, (omega arith, tt)))

abbrev team : Identity
team = record { key_id = "a"; rate_limit_per_min = pos 1; monthly_budget = 5 }

abbrev used : Quota
used = record { has_usage = true; windows = ("a", 10 ∷ []) ∷ []; spending = [] }

abbrev at_twenty : Readings
at_twenty = record { slot_at = 20; spend_at = 21 }

allow_decision_example :
    let live = drop_expired 20 (hits_of "a" used) in
    let (r, q') = allow at_twenty team (some 9) (some used) in
    (0 < 1 → 1 ≤ length live → (r.1 ≡ some rate_limited) × (hits_after "a" q' ≡ live))
    × (length live < 1
        → (r.1 ≡ budget_error 21 team (some 9) used) × (hits_after "a" q' ≡ live ++ 20 ∷ []))
    × (◌≡◌ {A = ℕ} 1 0
        → (r.1 ≡ budget_error 21 team (some 9) used) × (hits_after "a" q' ≡ hits_of "a" used))
allow_decision_example = allow_decision at_twenty team (some 9) used refl

forget_resets_example :
    ((take_slot 20 "a" 1 (forget "a" used)).0 ≡ (true, 0))
    × (spent_this_month 20 "a" (some 9) (forget "a" used)
        ≡ read_spend 20 "a" (some 9) (forget "a" used))
    × (hits_of "b" (forget "a" used) ≡ hits_of "b" used)
    × (lookup "b" (forget "a" used).spending ≡ lookup "b" used.spending)
forget_resets_example = forget_resets 20 1 "a" "b" (some 9) used (omega arith) refl
