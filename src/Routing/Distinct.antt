-- ===== src/Routing/Distinct.antt =====
-- A chain is short and repeats nothing.
use zealish_router.Base.{
  ℕ, zero, suc, ◌≤◌, ◌≡◌, refl, false, List, [], ◌∷◌, ◌++◌, arith, length, length-take, take,
  String, str_eq, Bool-cases, inl, inr, All, All-mono, contains, IsDistinct,
}
use zealish_router.Routing.Table.{RequestRequirements, Routes, max_chain_attempts}
use zealish_router.Routing.Chain.{chain_from}
use zealish_router.Routing.Order.{candidates, distinct_after, chain_from-distinct}

contains-append :
    (xs : List String) (x y : String)
    → contains (xs ++ x ∷ []) y ≡ false
    → (contains xs y ≡ false) × (str_eq x y ≡ false)
contains-append [] x y h = (refl, ground arith)
contains-append (z ∷ xs) x y h = ground (arith, contains-append xs x y)

distinct_after-new :
    (seen cs : List String) → All (λ y. contains seen y ≡ false) (distinct_after seen cs)
distinct_after-new seen [] = tt
distinct_after-new seen (c ∷ cs) = elim (Bool-cases (contains seen c)) [
  | inl old ↦ rw old (distinct_after-new seen cs)
  | inr new ↦ rw new (
    new,
    All-mono (λ y. contains (seen ++ c ∷ []) y ≡ false) (λ y. contains seen y ≡ false)
        (distinct_after (seen ++ c ∷ []) cs) (λ y k. (contains-append seen c y k).0)
        (distinct_after-new (seen ++ c ∷ []) cs),
  )
]

distinct_after-IsDistinct : (seen cs : List String) → IsDistinct (distinct_after seen cs)
distinct_after-IsDistinct seen [] = tt
distinct_after-IsDistinct seen (c ∷ cs) = elim (Bool-cases (contains seen c)) [
  | inl old ↦ rw old (distinct_after-IsDistinct seen cs)
  | inr new ↦ rw new (
    All-mono (λ y. contains (seen ++ c ∷ []) y ≡ false) (λ y. str_eq c y ≡ false)
        (distinct_after (seen ++ c ∷ []) cs) (λ y k. (contains-append seen c y k).1)
        (distinct_after-new (seen ++ c ∷ []) cs),
    distinct_after-IsDistinct (seen ++ c ∷ []) cs,
  )
]

pub All-take {κ} : (P : String → Type κ) (n : ℕ) (xs : List String) → All P xs → All P (take n xs)
All-take P zero xs h = tt
All-take P (suc n) [] h = tt
All-take P (suc n) (x ∷ xs) h = (h.0, All-take P n xs h.1)

take-IsDistinct : (n : ℕ) (xs : List String) → IsDistinct xs → IsDistinct (take n xs)
take-IsDistinct zero xs h = tt
take-IsDistinct (suc n) [] h = tt
take-IsDistinct (suc n) (x ∷ xs) h =
    (All-take (λ y. str_eq x y ≡ false) n xs h.0, take-IsDistinct n xs h.1)

-- A request tries at most eight routes and none twice, and the first one is the first entry point.
pub chain_from_bounds :
    (name : String) (req : RequestRequirements) (rt : Routes) (m : String) (ms : List String)
    → (length (chain_from name req rt (m ∷ ms) []) ≤ max_chain_attempts)
      × IsDistinct (chain_from name req rt (m ∷ ms) [])
      × (take 1 (chain_from name req rt (m ∷ ms) []) ≡ m ∷ [])
chain_from_bounds name req rt m ms =
    let cs = candidates name req rt (m ∷ ms) in
    rw (chain_from-distinct name req rt (m ∷ ms)) (
      omega (arith, length-take max_chain_attempts (distinct_after [] cs)),
      take-IsDistinct max_chain_attempts (distinct_after [] cs) (distinct_after-IsDistinct [] cs),
      refl,
    )
