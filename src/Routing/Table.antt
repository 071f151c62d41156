-- ===== src/Routing/Table.antt =====
-- The routing table of internal/router/router.go. It is a value: `Reload` replaces it whole. Cursors
-- are the counters of the combos; the registry is the list of the registered provider names.
use zealish_router.Base.{
  ℕ, String, Bool, true, false, not, ◌&&◌, ◌||◌, Option, none, some, List, [], ◌∷◌, leb, ◌==◌,
  if◌then◌else◌, contains, is_bound, Dict, lookup, insert, get_or,
}

-- internal/storage/storage.go
pub record ModelAlias : Type 0 where
  pub alias : String
  pub provider : String
  pub model : String
  pub fallback : List String
  pub capabilities : List String
  pub max_context : ℕ

pub data ComboStrategy : Type 0 where
  combo_fallback combo_round_robin combo_weighted combo_intelligent : ComboStrategy

pub record Combo : Type 0 where
  pub name : String
  pub strategy : ComboStrategy
  pub members : List String
  pub weights : List ℕ
  pub enabled : Bool

pub record Route : Type 0 where
  pub alias : String
  pub provider : String
  pub model : String

pub record RequestRequirements : Type 0 where
  pub vision : Bool
  pub tools : Bool
  pub json_mode : Bool
  pub embeddings : Bool
  pub audio : Bool
  pub streaming : Bool
  pub required_context : ℕ

pub record Routes : Type 0 where
  pub models : Dict ModelAlias
  pub combos : Dict Combo
  pub cursors : Dict ℕ
  pub registry : List String

pub data RouteError : Type 0 where
  unknown_model : String → RouteError
  not_found : String → RouteError
  no_compatible_model context_exceeded : RouteError

pub data Result {ℓ} (A : Type ℓ) : Type ℓ where
  ok : A → Result A
  err : RouteError → Result A

abbrev pub max_chain_attempts : ℕ
max_chain_attempts = 8

unfoldable pub load_models : Dict ModelAlias → List ModelAlias → Dict ModelAlias
load_models models [] = models
load_models models (m ∷ ms) = load_models (insert m.alias m models) ms

abbrev pub is_empty : List String → Bool
is_empty [] = true
is_empty (x ∷ xs) = false

-- The loop over the combos: disabled and empty ones are skipped, and those named like an alias.
unfoldable pub load_combos :
    Dict ModelAlias → Dict Combo × Dict ℕ → List Combo → Dict Combo × Dict ℕ
load_combos models acc [] = acc
load_combos models (pools, cursors) (c ∷ cs) =
    load_combos models
      (if not c.enabled || is_empty c.members
        then (pools, cursors)
        else if is_bound (lookup c.name models)
        then (pools, cursors)
        else (insert c.name c pools, insert c.name 0 cursors))
      cs

unfoldable pub reload : List ModelAlias → List Combo → List String → Routes
reload aliases combos registry =
    let models = load_models [] aliases in
    let (pools, cursors) = load_combos models ([], []) combos in
    record { models = models; combos = pools; cursors = cursors; registry = registry }

unfoldable pub route_of : String → ModelAlias → Route
route_of name m = record { alias = name; provider = m.provider; model = m.model }

abbrev pub or_unknown : String → Option ModelAlias → Result Route
or_unknown name none = err (unknown_model name)
or_unknown name (some m) = ok (route_of name m)

-- A combo resolves to its first member. (`Members[0]` exists: `reload` keeps no empty combo.)
unfoldable pub resolve : String → Routes → Result Route
resolve name rt = elim (lookup name rt.models) [
  | some m ↦ ok (route_of name m)
  | none ↦ elim (lookup name rt.combos) [
    | none ↦ err (unknown_model name)
    | some combo ↦
        let first = get_or combo.members 0 "" in or_unknown first (lookup first rt.models)
  ]
]

unfoldable pub pick : String → Routes → Result Route
pick alias rt = elim (resolve alias rt) [
  | err e ↦ err e
  | ok route ↦
      if contains rt.registry route.provider then ok route else err (not_found route.provider)
]

unfoldable pub candidate_compatible : ModelAlias → RequestRequirements → Bool
candidate_compatible m req =
    (not req.vision || contains m.capabilities "vision")
    && ((not req.tools || contains m.capabilities "tools")
        && ((not req.json_mode || contains m.capabilities "json_mode")
            && ((not req.embeddings || contains m.capabilities "embeddings")
                && ((not req.audio || contains m.capabilities "audio")
                    && ((not req.streaming || contains m.capabilities "streaming")
                        && (req.required_context == 0
                            || (m.max_context == 0 || leb req.required_context m.max_context)))))))

unfoldable pub capability_compatible : ModelAlias → RequestRequirements → Bool
capability_compatible m req = candidate_compatible m (record req { required_context = 0 })
