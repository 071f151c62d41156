-- ===== src/Quota/Budget.antt =====
-- The monthly budget, its cached figure, and what `Forget` resets.
use zealish_router.Base.{
  ℕ, ◌+◌, ◌-◌, ◌≤◌, ◌<◌, ◌≡◌, refl, true, false, List, [], ◌∷◌, ◌++◌, arith, leb, ltb,
  if◌then◌else◌, length, String, str_eq, lookup, lookup-insert_self, lookup-delete, str_eq_refl,
  Option, some, none, pos_part, ◌&&◌, Bool, All, if_cases, Bool-cases, inl, inr, eq_iff,
  lookup-insert, ◌∙◌,
}
use zealish_router.Quota.{
  Quota, Identity, Readings, QuotaError, rate_limited, budget_exceeded, spend_ttl, hits_of,
  drop_expired, take_slot, read_spend, spent_this_month, check_budget, allow_metered, allow,
  is_unmetered, forget,
}
use zealish_router.Quota.Rate.{take_slot-verdict, take_slot-hits}

-- Whether the figure of a key is to be read again: there is none, or it is thirty seconds old.
abbrev pub is_due : ℕ → String → Quota → Bool
is_due now key q = elim (lookup key q.spending) [
  | none ↦ true
  | some cached ↦ leb (cached.refreshed + spend_ttl) now
]

-- A question for a key's spend: when, for which key, and what the usage log would answer.
pub record Question : Type 0 where
  pub now : ℕ
  pub key : String
  pub answer : Option ℕ

-- The figures that are given for one key, in a sequence of questions for any keys.
unfoldable pub figures : String → Quota → List Question → List ℕ
figures key q [] = []
figures key q (c ∷ cs) =
    let (usd, q') = spent_this_month c.now c.key c.answer q in
    let rest = figures key q' cs in if str_eq c.key key then usd ∷ rest else rest

-- A cached figure that is not due answers its key, and stays whoever asks.
not_due :
    (now usd t0 : ℕ) (key : String) (answer : Option ℕ) (q : Quota)
    → lookup key q.spending ≡ some (record { usd = usd; refreshed = t0 })
    → now < t0 + spend_ttl
    → spent_this_month now key answer q ≡ (usd, q)
unfolding spent_this_month
not_due now usd t0 key answer q h k = ground (arith, h, k)

other_cached :
    (now : ℕ) (k key : String) (answer : Option ℕ) (q : Quota)
    → str_eq k key ≡ false
    → lookup key (spent_this_month now k answer q).1.spending ≡ lookup key q.spending
unfolding spent_this_month read_spend
other_cached now k key none q other = ground arith
other_cached now k key (some u) q other =
    ground (arith, other, lookup-insert k key (record { usd = u; refreshed = now }) q.spending)

cached_kept :
    (now usd t0 : ℕ) (k key : String) (answer : Option ℕ) (q : Quota)
    → lookup key q.spending ≡ some (record { usd = usd; refreshed = t0 })
    → now < t0 + spend_ttl
    → lookup key (spent_this_month now k answer q).1.spending
      ≡ some (record { usd = usd; refreshed = t0 })
cached_kept now usd t0 k key answer q h early = elim (Bool-cases (str_eq k key)) [
  | inr other ↦ other_cached now k key answer q other ∙ h
  | inl same ↦ rw ((eq_iff k key).0 same) (rw (not_due now usd t0 key answer q h early) h)
]

figures_kept :
    (key : String) (usd t0 : ℕ) (q : Quota) (cs : List Question)
    → lookup key q.spending ≡ some (record { usd = usd; refreshed = t0 })
    → All (λ c. c.now < t0 + spend_ttl) cs
    → All (λ f. f ≡ usd) (figures key q cs)
unfolding figures
figures_kept key usd t0 q [] h early = tt
figures_kept key usd t0 q (c ∷ cs) h (soon, early) =
    let rest =
      figures_kept key usd t0 (spent_this_month c.now c.key c.answer q).1 cs
        (cached_kept c.now usd t0 c.key key c.answer q h soon) early in
    let own : str_eq c.key key ≡ true → (spent_this_month c.now c.key c.answer q).0 ≡ usd = λ same.
      rw ((eq_iff c.key key).0 same) (rw (not_due c.now usd t0 key c.answer q h soon) refl) in
    if_cases (λ fs. All (λ f. f ≡ usd) fs) (str_eq c.key key) (λ same. (own same, rest))
      (λ other. rest)

is_due-spent_this_month :
    (now : ℕ) (key : String) (answer : Option ℕ) (q : Quota)
    → is_due now key q ≡ true
    → spent_this_month now key answer q ≡ read_spend now key answer q
unfolding spent_this_month
is_due-spent_this_month now key answer q due = ground (arith, due)

-- When a key's figure is due, because there is none or it is thirty seconds old, the usage log is
-- read. A figure that it gives stands for thirty seconds: every question for the key before then, with
-- any questions for other keys between them, is answered with it, whatever the log would answer. A
-- read that fails counts as nothing spent, and nothing is kept of it.
pub spend_read_through :
    (t0 usd : ℕ) (key : String) (q : Quota) (later : List Question)
    → is_due t0 key q ≡ true
    → All (λ c. c.now < t0 + spend_ttl) later
    → let (given, q') = spent_this_month t0 key (some usd) q in
      (given ≡ usd)
      × (All (λ f. f ≡ usd) (figures key q' later))
      × (spent_this_month t0 key none q ≡ (0, q))
unfolding read_spend
spend_read_through t0 usd key q later due early =
    rw (is_due-spent_this_month t0 key (some usd) q due, is_due-spent_this_month t0 key none q due)
      (
        refl,
        figures_kept key usd t0 (read_spend t0 key (some usd) q).1 later
            (lookup-insert_self key (record { usd = usd; refreshed = t0 }) q.spending) early,
        refl,
      )

-- The error of the budget test: the key has a budget, there is a usage log, and the spend has
-- reached the budget.
abbrev pub budget_error : ℕ → Identity → Option ℕ → Quota → Option QuotaError
budget_error now id answer q =
    if ltb 0 id.monthly_budget
      && (q.has_usage && leb id.monthly_budget (spent_this_month now id.key_id answer q).0)
    then some budget_exceeded
    else none

-- The windows after `Allow`, if there is a quota.
abbrev pub hits_after : String → Option Quota → List ℕ
hits_after key none = []
hits_after key (some q) = hits_of key q

hits-spent_this_month :
    (now : ℕ) (key : String) (answer : Option ℕ) (q : Quota)
    → hits_of key (spent_this_month now key answer q).1 ≡ hits_of key q
unfolding spent_this_month read_spend hits_of
hits-spent_this_month now key answer q = ground arith

spent-take_slot :
    (now later limit : ℕ) (key : String) (answer : Option ℕ) (q : Quota)
    → (spent_this_month later key answer (take_slot now key limit q).1).0
      ≡ (spent_this_month later key answer q).0
unfolding spent_this_month read_spend take_slot
spent-take_slot now later limit key answer q = ground arith

usage-take_slot :
    (now limit : ℕ) (key : String) (q : Quota)
    → (take_slot now key limit q).1.has_usage ≡ q.has_usage
unfolding take_slot
usage-take_slot now limit key q = ground arith

check_budget_lem :
    (now remaining : ℕ) (id : Identity) (answer : Option ℕ) (q : Quota)
    → ((check_budget now id answer remaining q).0.1 ≡ budget_error now id answer q)
      × (hits_of id.key_id (check_budget now id answer remaining q).1 ≡ hits_of id.key_id q)
unfolding check_budget
check_budget_lem now remaining id answer q =
    ground (arith, hits-spent_this_month now id.key_id answer q)

-- The decision about a metered key, with its window of live hits. Over its rate it is refused
-- whatever the budget says, and its window stays full. Within its rate it takes a slot, and is then
-- refused exactly by the budget test: a request that the budget refuses has used up a slot too. With
-- no rate limit the budget alone decides, and no hit is recorded.
pub allow_decision :
    (clock : Readings) (id : Identity) (answer : Option ℕ) (q : Quota)
    → is_unmetered id ≡ false
    → let limit = pos_part id.rate_limit_per_min in
      let live = drop_expired clock.slot_at (hits_of id.key_id q) in
      let (r, q') = allow clock id answer (some q) in
      (0 < limit
        → limit ≤ length live
        → (r.1 ≡ some rate_limited) × (hits_after id.key_id q' ≡ live))
      × (length live < limit
          → (r.1 ≡ budget_error clock.spend_at id answer q)
            × (hits_after id.key_id q' ≡ live ++ clock.slot_at ∷ []))
      × (limit ≡ 0
          → (r.1 ≡ budget_error clock.spend_at id answer q)
            × (hits_after id.key_id q' ≡ hits_of id.key_id q))
unfolding allow allow_metered
allow_decision clock id answer q metered =
    let key = id.key_id in
    let limit = pos_part id.rate_limit_per_min in
    let live = drop_expired clock.slot_at (hits_of key q) in
    let q' = (take_slot clock.slot_at key limit q).1 in
    let left = (take_slot clock.slot_at key limit q).0.1 in
    let verdict = take_slot-verdict key clock.slot_at limit q in
    let hits : hits_of key q'
        ≡ (if leb limit (length live) then live else live ++ clock.slot_at ∷ []) =
      ground (arith, take_slot-hits key key clock.slot_at limit q, str_eq_refl key) in
    (
      λ h k. ground (arith, verdict, hits),
      λ h. ground (
        arith,
        verdict,
        hits,
        check_budget_lem clock.spend_at left id answer q',
        spent-take_slot clock.slot_at clock.spend_at limit key answer q,
        usage-take_slot clock.slot_at limit key q,
      ),
      λ h. ground (arith, check_budget_lem clock.spend_at 0 id answer q),
    )

-- After `Forget` the key starts over: its next request within any positive limit is accepted with
-- all other slots left, and its spend is read again; other keys keep their windows and figures.
pub forget_resets :
    (now limit : ℕ) (key other : String) (answer : Option ℕ) (q : Quota)
    → 0 < limit
    → str_eq key other ≡ false
    → ((take_slot now key limit (forget key q)).0 ≡ (true, limit - 1))
      × (spent_this_month now key answer (forget key q) ≡ read_spend now key answer (forget key q))
      × (hits_of other (forget key q) ≡ hits_of other q)
      × (lookup other (forget key q).spending ≡ lookup other q.spending)
unfolding take_slot forget spent_this_month hits_of drop_expired
forget_resets now limit key other answer q h differ = ground (
  arith,
  str_eq_refl key,
  lookup-delete key key q.windows,
  lookup-delete key key q.spending,
  lookup-delete key other q.windows,
  lookup-delete key other q.spending,
)
