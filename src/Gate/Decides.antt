-- ===== src/Gate/Decides.antt =====
-- A request is admitted by its key alone.
use zealish_router.Base.{
  ℕ, ◌≡◌, refl, subst, sym, ◌↔◌, ap, ◌∙◌, String, Bool, true, false, not, ◌||◌, Option, none, some,
  List, [], ◌∷◌, if◌then◌else◌, str_eq, contains, arith, if_either, Bool-cases, inl, inr,
}
use zealish_router.Quota.{Quota, Readings, QuotaError, rate_limited, budget_exceeded}
use zealish_router.Quota
use zealish_router.Gate.{
  Service, ApiKey, Caller, KnownCaller, fixed_caller, key_caller, match_from, hash_all,
  set_static_keys, authenticate, ask_store, accept, permits, Verdict, unauthorized, forbidden,
  served, enforce, enforce_quota, admit_request,
}

-- The record of an enabled key that the store has for this hash.
abbrev pub usable : Option ApiKey → KnownCaller
usable none = none
usable (some k) = if k.enabled then some (key_caller k) else none

abbrev pub stored_caller : Option (String → Option ApiKey) → String → KnownCaller
stored_caller none hash = none
stored_caller (some get) hash = usable (get hash)

-- Who a key belongs to, by the configured keys themselves.
unfoldable pub owner :
    (String → String) → Bool → List String → Option (String → Option ApiKey) → String → KnownCaller
owner digest enabled keys stored raw =
    if not enabled
    then some (fixed_caller "anonymous")
    else if str_eq raw ""
    then none
    else if contains keys raw
    then some (fixed_caller "static")
    else stored_caller stored (digest raw)

-- No configured key has the digest of another text.
abbrev pub Apart : (String → String) → List String → String → Type 0
Apart digest [] raw = Unit
Apart digest (k ∷ keys) raw =
    (str_eq (digest k) (digest raw) ≡ str_eq k raw) × Apart digest keys raw

match_from-hash_all :
    (digest : String → String) (matched : Bool) (keys : List String) (raw : String)
    → Apart digest keys raw
    → match_from matched (hash_all digest keys) (digest raw) ≡ (matched || contains keys raw)
unfolding match_from hash_all
match_from-hash_all digest matched [] raw h = ground arith
match_from-hash_all digest matched (k ∷ keys) raw h =
    match_from-hash_all digest (matched || str_eq (digest k) (digest raw)) keys raw h.1
    ∙ ground (arith, h.0)

accept-usable : (s : Service) (k : Option ApiKey) → (accept s k).0 ≡ usable k
accept-usable s none = refl
accept-usable s (some k) = ground arith

ask_store-stored_caller :
    (s : Service) (stored : Option (String → Option ApiKey)) (hash : String)
    → (ask_store s stored hash).0 ≡ stored_caller stored hash
ask_store-stored_caller s none hash = refl
ask_store-stored_caller s (some get) hash = accept-usable s (get hash)

-- Authentication after the static keys have been set: what was configured before does not count.
authenticate-owner :
    (digest : String → String) (keys : List String) (s : Service) (raw : String)
    → Apart digest keys raw
    → (authenticate digest raw (set_static_keys digest keys s)).0
      ≡ owner digest s.enabled keys s.stored raw
unfolding authenticate set_static_keys owner
authenticate-owner digest keys s raw h = ground (
  arith,
  match_from-hash_all digest false keys raw h,
  ask_store-stored_caller (set_static_keys digest keys s) s.stored (digest raw),
)

-- What the gate says of a request, and what decides it.
abbrev pub Admits : Readings → Option ℕ → String → Option Quota → KnownCaller → Verdict → Type 0
Admits clock spent model q who verdict =
    ((verdict ≡ unauthorized) ↔ (who ≡ none))
    × ((c : Caller)
        → (verdict ≡ served c) ↔ (
            (who ≡ some c)
            × (((Quota.allow clock c.identity spent q).0.1 ≡ none) × (permits c model ≡ true))))

some_same : {c c' : Caller} → some c ≡ some c' → c ≡ c'
some_same {c} h = ap (λ (o : Option Caller). elim o [ none ↦ c | some d ↦ d ]) h

-- The caller that a verdict serves.
abbrev server_of : Verdict → Option Caller
server_of (served c) = some c
server_of _ = none

abbrev is_unauthorized : Verdict → Bool
is_unauthorized unauthorized = true
is_unauthorized _ = false

enforce_known :
    (c : Caller) (model : String) (problem : Option QuotaError)
    → is_unauthorized (enforce c model problem) ≡ false
enforce_known c model none = if_either (λ v. is_unauthorized v ≡ false) (permits c model) refl refl
enforce_known c model (some rate_limited) = refl
enforce_known c model (some budget_exceeded) = refl

enforce_served :
    (c c' : Caller) (model : String) (problem : Option QuotaError)
    → server_of (enforce c model problem) ≡ some c'
    → (some c ≡ some c') × ((problem ≡ none) × (permits c model ≡ true))
enforce_served c c' model none h = elim (Bool-cases (permits c model)) [
  | inl may ↦ (ap (λ b. server_of (if b then served c else forbidden)) (sym may) ∙ h, (refl, may))
  | inr denied ↦
      absurd
        (ground (arith, ap (λ b. server_of (if b then served c else forbidden)) (sym denied) ∙ h))
]
enforce_served c c' model (some rate_limited) h = absurd (ground (arith, h))
enforce_served c c' model (some budget_exceeded) h = absurd (ground (arith, h))

-- The quota of the caller has room, and the caller may use the model.
abbrev pub IsOpen : Readings → Option ℕ → String → Option Quota → Caller → Type 0
IsOpen clock spent model q c =
    ((Quota.allow clock c.identity spent q).0.1 ≡ none) × (permits c model ≡ true)

enforce_quota-Admits :
    (clock : Readings) (spent : Option ℕ) (model : String) (q : Option Quota) (who : KnownCaller)
    → Admits clock spent model q who (enforce_quota clock spent model q who).0
enforce_quota-Admits clock spent model q none = (
  (λ h. refl, λ h. refl),
  λ c. (λ h. absurd (ground (arith, ap server_of h)), λ h. absurd (ground (arith, h.0))),
)
enforce_quota-Admits clock spent model q (some c) =
    let problem = (Quota.allow clock c.identity spent q).0.1 in
    (
      (
        λ h. absurd (ground (arith, enforce_known c model problem, ap is_unauthorized h)),
        λ h. absurd (ground (arith, h)),
      ),
      λ c'. (
        λ h.
            let (same, open_) = enforce_served c c' model problem (ap server_of h) in
            (same, subst (IsOpen clock spent model q) (some_same same) open_),
        λ h.
            subst (λ v. enforce v model (Quota.allow clock v.identity spent q).0.1 ≡ served c')
              (sym (some_same h.0)) (rw h.1.0 (rw h.1.1 refl)),
      ),
    )

-- After the static keys have been set, whatever was set before, and if no configured key collides
-- with the presented one: a request is unauthorized exactly if it is asked for a key and its key is
-- empty, or neither configured nor the key of an enabled record; it is served, for a caller, exactly
-- if its key belongs to that caller, the quota of the caller has room, and the caller may use the
-- model.
pub admit_request-Admits :
    (digest : String → String) (keys : List String) (s : Service) (raw : String)
    → Apart digest keys raw
    → (clock : Readings) (spent : Option ℕ) (model : String) (q : Option Quota)
    → Admits clock spent model q
        (owner digest s.enabled keys s.stored raw)
        (admit_request digest clock spent raw model (set_static_keys digest keys s) q).0
unfolding admit_request
admit_request-Admits digest keys s raw h clock spent model q =
    subst
      (λ who.
        Admits clock spent model q who
          (admit_request digest clock spent raw model (set_static_keys digest keys s) q).0)
      (authenticate-owner digest keys s raw h)
      (enforce_quota-Admits clock spent model q
        (authenticate digest raw (set_static_keys digest keys s)).0)
