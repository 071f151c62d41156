-- ===== src/Tests/Capability.antt =====
-- internal/provider/capability.go at fixed inputs, along capability_test.go.
use zealish_router.Base.{◌≡◌, refl, String, List, [], ◌∷◌, ◌&&◌, contains, map}
use zealish_router.Capability.{
  capability_order, infer_capabilities, normalize_capabilities, seen_of, pick_seen, contains_any,
}
use zealish_router.Capability.Canonical.{IsCanonical, normalize_capabilities-IsCanonical}

abbrev clean : String → String
clean name = name

gpt_4o :
    infer_capabilities clean "gpt-4o" ≡ "chat" ∷ "vision" ∷ "tools" ∷ "streaming" ∷ "json_mode" ∷ []
unfolding infer_capabilities normalize_capabilities seen_of pick_seen contains_any
gpt_4o = refl

-- The names that are given are out of order, unknown or repeated.
abbrev given : List String
given = "tools" ∷ "magic" ∷ "chat" ∷ "tools" ∷ []

given_normal : normalize_capabilities clean given ≡ "chat" ∷ "tools" ∷ []
unfolding normalize_capabilities seen_of pick_seen
given_normal = refl

normalize_capabilities-IsCanonical_example :
    IsCanonical (normalize_capabilities clean given)
    × (contains (normalize_capabilities clean given) "tools"
        ≡ (contains capability_order "tools" && contains (map clean given) "tools"))
    × IsCanonical (infer_capabilities clean "gpt-4o")
normalize_capabilities-IsCanonical_example =
    normalize_capabilities-IsCanonical clean given "tools" "gpt-4o"
