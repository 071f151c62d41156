-- ===== src/Quota.antt =====
-- internal/auth/quota.go: the requests-per-minute limit and the monthly budget of each key.
-- Times are nanoseconds. Amounts of money are whole numbers of one small unit. What the usage log
-- answers to `KeySpend` is an argument, `none` for an error. `none` in place of a quota is the nil
-- pointer.
pub mod Sliding
pub mod Rate
pub mod Budget
use zealish_router.Base.{
  ℕ, ◌+◌, ◌-◌, String, Bool, true, false, ◌&&◌, ◌||◌, Option, none, some, List, [], ◌∷◌, ◌++◌, ltb,
  leb, if◌then◌else◌, Dict, lookup, insert, delete, ℤ, pos_part, length, str_eq,
}

pub data QuotaError : Type 0 where
  rate_limited budget_exceeded : QuotaError

-- 30 seconds.
abbrev pub spend_ttl : ℕ
spend_ttl = 30_000_000_000

abbrev pub minute : ℕ
minute = 60_000_000_000

pub record Spend : Type 0 where
  pub usd : ℕ
  pub refreshed : ℕ

-- A window is its list of hits, oldest first.
pub record Quota : Type 0 where
  pub has_usage : Bool
  pub windows : Dict (List ℕ)
  pub spending : Dict Spend

pub record Identity : Type 0 where
  pub key_id : String
  pub rate_limit_per_min : ℤ
  pub monthly_budget : ℕ

-- What the clock shows when a request takes its slot, and when its key's spend is asked for.
pub record Readings : Type 0 where
  pub slot_at : ℕ
  pub spend_at : ℕ

unfoldable pub new_quota : Bool → Quota
new_quota has_usage = record { has_usage = has_usage; windows = []; spending = [] }

unfoldable pub hits_of : String → Quota → List ℕ
hits_of key q = elim (lookup key q.windows) [ none ↦ [] | some hits ↦ hits ]

-- The loop over the expired prefix: a hit has expired if it is not after `now - minute`.
unfoldable pub drop_expired : ℕ → List ℕ → List ℕ
drop_expired now [] = []
drop_expired now (h ∷ hs) = if leb (h + minute) now then drop_expired now hs else h ∷ hs

unfoldable pub take_slot : ℕ → String → ℕ → Quota → (Bool × ℕ) × Quota
take_slot now key limit q =
    let live = drop_expired now (hits_of key q) in
    if leb limit (length live)
    then ((false, 0), record q { windows = insert key live q.windows })
    else let hits = live ++ now ∷ [] in
      ((true, limit - length hits), record q { windows = insert key hits q.windows })

-- The read-through of the spend; `answer` is what the usage log says if it is asked.
unfoldable pub read_spend : ℕ → String → Option ℕ → Quota → ℕ × Quota
read_spend now key none q = (0, q)
read_spend now key (some usd) q =
    (usd, record q { spending = insert key (record { usd = usd; refreshed = now }) q.spending })

unfoldable pub spent_this_month : ℕ → String → Option ℕ → Quota → ℕ × Quota
spent_this_month now key answer q = elim (lookup key q.spending) [
  | none ↦ read_spend now key answer q
  | some cached ↦
      if ltb now (cached.refreshed + spend_ttl)
      then (cached.usd, q)
      else read_spend now key answer q
]

abbrev pub is_unmetered : Identity → Bool
is_unmetered id = str_eq id.key_id "" || (str_eq id.key_id "static" || str_eq id.key_id "anonymous")

-- The budget test that ends `Allow`.
unfoldable pub check_budget : ℕ → Identity → Option ℕ → ℕ → Quota → (ℕ × Option QuotaError) × Quota
check_budget now id answer remaining q =
    if ltb 0 id.monthly_budget && q.has_usage
    then (let (spent, q') = spent_this_month now id.key_id answer q in
        ((remaining, if leb id.monthly_budget spent then some budget_exceeded else none), q'))
    else ((remaining, none), q)

unfoldable pub allow_metered :
    Readings → Identity → Option ℕ → Quota → (ℕ × Option QuotaError) × Quota
allow_metered clock id answer q =
    if ltb 0 (pos_part id.rate_limit_per_min)
    then (let ((allowed, left), q') =
          take_slot clock.slot_at id.key_id (pos_part id.rate_limit_per_min) q in
        if allowed
        then check_budget clock.spend_at id answer left q'
        else ((0, some rate_limited), q'))
    else check_budget clock.spend_at id answer 0 q

unfoldable pub allow :
    Readings → Identity → Option ℕ → Option Quota → (ℕ × Option QuotaError) × Option Quota
allow clock id answer none = ((0, none), none)
allow clock id answer (some q) =
    if is_unmetered id
    then ((0, none), some q)
    else (let (r, q') = allow_metered clock id answer q in (r, some q'))

unfoldable pub forget : String → Quota → Quota
forget key q = record q { windows = delete key q.windows; spending = delete key q.spending }
