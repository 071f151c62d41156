-- ===== src/Gate.antt =====
-- internal/auth/auth.go and admin.go, with the middleware of internal/api/middleware.go and
-- `allowModel` of internal/api/handler.go: who a request comes from, and whether it is served. `digest`
-- stands for the hexadecimal SHA-256; the key store answers as an argument, `none` for an error.
pub mod Decides
use zealish_router.Base.{
  ℕ, String, Bool, true, false, not, ◌&&◌, ◌||◌, Option, none, some, List, [], ◌∷◌, if◌then◌else◌,
  str_eq, pos, map, contains, ℤ,
}
use zealish_router.Quota.{Identity, Readings, Quota, QuotaError, rate_limited, budget_exceeded}
use zealish_router.Quota

-- The identity of the quota, with the two fields that the quota does not read.
pub record Caller : Type 0 where
  pub identity : Identity
  pub name : String
  pub allowed_models : List String

pub record ApiKey : Type 0 where
  pub id : String
  pub name : String
  pub enabled : Bool
  pub rate_limit_per_min : ℤ
  pub monthly_budget : ℕ
  pub allowed_models : List String

-- `none` is ErrUnauthorized.
abbrev pub KnownCaller : Type 0
KnownCaller = Option Caller

-- `stored` is none where the service has no key store; `touched` lists the keys whose last use was
-- recorded.
pub record Service : Type 0 where
  pub enabled : Bool
  pub static_keys : List String
  pub stored : Option (String → Option ApiKey)
  pub touched : List String

abbrev pub fixed_caller : String → Caller
fixed_caller id = record {
  identity = record { key_id = id; rate_limit_per_min = pos 0; monthly_budget = 0 };
  name = id;
  allowed_models = [];
}

abbrev pub key_caller : ApiKey → Caller
key_caller k = record {
  identity = record {
    key_id = k.id;
    rate_limit_per_min = k.rate_limit_per_min;
    monthly_budget = k.monthly_budget;
  };
  name = k.name;
  allowed_models = k.allowed_models;
}

abbrev pub is_nil {ℓ} : {A : Type ℓ} → List A → Bool
is_nil [] = true
is_nil (x ∷ xs) = false

-- `Identity.Allows`
abbrev pub permits : Caller → String → Bool
permits c model = is_nil c.allowed_models || contains c.allowed_models model

-- The loop runs over all keys, whichever match.
unfoldable pub match_from : Bool → List String → String → Bool
match_from matched [] hash = matched
match_from matched (known ∷ keys) hash = match_from (matched || str_eq known hash) keys hash

abbrev pub match_static : Service → String → Bool
match_static s hash = match_from false s.static_keys hash

abbrev pub touch : String → Service → Service
touch id s = record s { touched = id ∷ s.touched }

abbrev pub accept : Service → Option ApiKey → KnownCaller × Service
accept s none = (none, s)
accept s (some k) = if k.enabled then (some (key_caller k), touch k.id s) else (none, s)

abbrev pub ask_store : Service → Option (String → Option ApiKey) → String → KnownCaller × Service
ask_store s none hash = (none, s)
ask_store s (some get) hash = accept s (get hash)

module _ (digest : String → String) where
  unfoldable pub hash_all : List String → List String
  hash_all [] = []
  hash_all (k ∷ keys) = digest k ∷ hash_all keys

  unfoldable pub set_static_keys : List String → Service → Service
  set_static_keys keys s = record s { static_keys = hash_all keys }

  unfoldable pub authenticate : String → Service → KnownCaller × Service
  authenticate raw s =
      if not s.enabled
      then (some (fixed_caller "anonymous"), s)
      else if str_eq raw ""
      then (none, s)
      else if match_static s (digest raw)
      then (some (fixed_caller "static"), s)
      else ask_store s s.stored (digest raw)

-- What a request gets: 401, 429 for the rate or the budget, 403, or the handler.
pub data Verdict : Type 0 where
  unauthorized limited exhausted forbidden : Verdict
  served : Caller → Verdict

abbrev pub enforce : Caller → String → Option QuotaError → Verdict
enforce c model none = if permits c model then served c else forbidden
enforce c model (some rate_limited) = limited
enforce c model (some budget_exceeded) = exhausted

-- authenticate, then enforceQuota, then allowModel of the handler.
abbrev pub enforce_quota :
    Readings → Option ℕ → String → Option Quota → KnownCaller → Verdict × Option Quota
enforce_quota clock spent model q none = (unauthorized, q)
enforce_quota clock spent model q (some c) =
    let ((left, problem), q') = Quota.allow clock c.identity spent q in
    (enforce c model problem, q')

unfoldable pub admit_request :
    (String → String)
    → Readings
    → Option ℕ
    → String
    → String
    → Service
    → Option Quota
    → Verdict × Option Quota
admit_request digest clock spent raw model s q =
    enforce_quota clock spent model q (authenticate digest raw s).0

-- `AdminService.Authenticate`: an empty token admits nobody.
unfoldable pub admin_authenticate : Bool → String → String → KnownCaller
admin_authenticate enabled token raw =
    if not enabled
    then none
    else if str_eq token "" || str_eq raw ""
    then none
    else if not (str_eq token raw)
    then none
    else some (fixed_caller "admin")
