-- ===== src/Base/IntMaps.antt =====
-- A map with integer keys, the entry stored last in front.
use mathlib.Core.Path.{◌≡◌}
use mathlib.Core.Logic.{◌↔◌}
use mathlib.Core.Bool.{Bool, true, false}
use mathlib.Core.Option.{Option, none, some}
use mathlib.Core.List.{List, [], ◌∷◌}
use native.Mathlib.Omega.{arith}
use zealish_router.Base.Tests.{◌==◌, if◌then◌else◌}
use zealish_router.Base.Int.{ℤ, pos, negsuc}

abbrev pub int_eq : ℤ → ℤ → Bool
int_eq (pos a) (pos b) = a == b
int_eq (pos a) (negsuc b) = false
int_eq (negsuc a) (pos b) = false
int_eq (negsuc a) (negsuc b) = a == b

pub int_eq_iff : (a b : ℤ) → (int_eq a b ≡ true) ↔ (a ≡ b)
int_eq_iff (pos a) (pos b) = (λ h. ground (arith, h), λ h. ground (arith, h))
int_eq_iff (pos a) (negsuc b) = (λ h. ground (arith, h), λ h. ground (arith, h))
int_eq_iff (negsuc a) (pos b) = (λ h. ground (arith, h), λ h. ground (arith, h))
int_eq_iff (negsuc a) (negsuc b) = (λ h. ground (arith, h), λ h. ground (arith, h))

abbrev pub IntMap {ℓ} : Type ℓ → Type ℓ
IntMap V = List (ℤ × V)

abbrev pub find_int {ℓ} : {V : Type ℓ} → ℤ → IntMap V → Option V
find_int key [] = none
find_int key ((k, v) ∷ rest) =
    let later = find_int key rest in if int_eq k key then some v else later

abbrev pub put_int {ℓ} : {V : Type ℓ} → ℤ → V → IntMap V → IntMap V
put_int key v entries = (key, v) ∷ entries
