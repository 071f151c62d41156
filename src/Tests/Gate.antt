-- ===== src/Tests/Gate.antt =====
-- internal/auth/auth.go at fixed inputs, along auth_test.go.
use zealish_router.Base.{
  ◌≡◌, refl, String, true, Option, some, none, [], ◌∷◌, append, str_eq, pos, if◌then◌else◌,
}
use zealish_router.Gate.{
  Service, ApiKey, forbidden, served, key_caller, admit_request, authenticate, set_static_keys,
  hash_all, match_from, admin_authenticate,
}
use zealish_router.Quota
use zealish_router.Quota.{Readings}
use zealish_router.Gate.Decides.{Admits, owner, admit_request-Admits}

abbrev digest : String → String
digest raw = append "#" raw

abbrev stored_key : ApiKey
stored_key = record {
  id = "k1";
  name = "team";
  enabled = true;
  rate_limit_per_min = pos 0;
  monthly_budget = 0;
  allowed_models = "small" ∷ [];
}

abbrev noon : Readings
noon = record { slot_at = 0; spend_at = 1 }

abbrev store : String → Option ApiKey
store hash = if str_eq hash "#secret" then some stored_key else none

abbrev service : Service
service = record { enabled = true; static_keys = "#old" ∷ []; stored = some store; touched = [] }

abbrev reloaded : Service
reloaded = set_static_keys digest ("new" ∷ []) service

-- A model that the key may not use is refused after the key has been accepted.
model_not_allowed : (admit_request digest noon none "secret" "large" reloaded none).0 ≡ forbidden
unfolding admit_request authenticate set_static_keys hash_all match_from Quota.allow
model_not_allowed = refl

model_allowed :
    (admit_request digest noon none "secret" "small" reloaded none).0
    ≡ served (key_caller stored_key)
unfolding admit_request authenticate set_static_keys hash_all match_from Quota.allow
model_allowed = refl

-- A key that was configured before the reload.
old_key_refused : (authenticate digest "old" reloaded).0 ≡ none
unfolding authenticate set_static_keys hash_all match_from
old_key_refused = refl

-- An administrator's token that is empty admits nobody.
empty_token : admin_authenticate true "" "" ≡ none
unfolding admin_authenticate
empty_token = refl

admit_request-Admits_example :
    Admits noon none "small" none
      (owner digest true ("new" ∷ []) (some store) "secret")
      (admit_request digest noon none "secret" "small" reloaded none).0
admit_request-Admits_example =
    admit_request-Admits digest ("new" ∷ []) service "secret" (refl, tt) noon none "small" none
