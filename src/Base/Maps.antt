-- ===== src/Base/Maps.antt =====
-- A map with text keys as an association list: what Go's map[string]V does on one key.
use Prim.Native.String.{String}
use mathlib.Core.Path.{◌≡◌, refl}
use mathlib.Core.Bool.{true}
use mathlib.Core.Option.{Option, none, some}
use mathlib.Core.List.{List, [], ◌∷◌}
use native.Mathlib.Omega.{arith}
use text.Mathlib.Text.{◌==◌ as str_eq}
use text.Mathlib.TextEquality.{eq_iff}
use zealish_router.Base.Tests.{if◌then◌else◌}

pub str_eq_refl : (k : String) → str_eq k k ≡ true
str_eq_refl k = (eq_iff k k).1 refl

abbrev pub Dict {ℓ} : Type ℓ → Type ℓ
Dict V = List (String × V)

-- `delete` removes every binding of the key.
module _ {ℓ} {V : Type ℓ} where
  unfoldable pub lookup : String → Dict V → Option V
  lookup key [] = none
  lookup key ((name, item) ∷ rest) =
      let later = lookup key rest in if str_eq name key then some item else later

  unfoldable pub insert : String → V → Dict V → Dict V
  insert key new [] = (key, new) ∷ []
  insert key new ((name, item) ∷ rest) =
      let later = insert key new rest in
      if str_eq name key then (key, new) ∷ rest else (name, item) ∷ later

  unfoldable pub delete : String → Dict V → Dict V
  delete key [] = []
  delete key ((name, item) ∷ rest) =
      let later = delete key rest in if str_eq name key then later else (name, item) ∷ later

  pub lookup-insert :
      (key other : String) (new : V) (entries : Dict V)
      → lookup other (insert key new entries)
        ≡ (if str_eq key other then some new else lookup other entries)
  unfolding lookup insert
  lookup-insert key other new [] = refl
  lookup-insert key other new ((name, item) ∷ rest) = ground (
    arith,
    lookup-insert key other new rest,
    eq_iff name other,
    eq_iff name key,
    eq_iff key other,
  )

  pub lookup-delete :
      (key other : String) (entries : Dict V)
      → lookup other (delete key entries)
        ≡ (if str_eq key other then none else lookup other entries)
  unfolding lookup delete
  lookup-delete key other [] = ground arith
  lookup-delete key other ((name, item) ∷ rest) =
      ground
        (arith, lookup-delete key other rest, eq_iff name other, eq_iff name key, eq_iff key other)

  pub lookup-insert_self :
      (key : String) (new : V) (entries : Dict V) → lookup key (insert key new entries) ≡ some new
  lookup-insert_self key new entries = simp (lookup-insert, str_eq_refl)
