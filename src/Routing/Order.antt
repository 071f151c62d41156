-- ===== src/Routing/Order.antt =====
-- The chain of a request is the first eight distinct candidates, in order.
use zealish_router.Base.{
  contains, ℕ, zero, suc, ◌+◌, ◌-◌, ◌≤◌, ◌<◌, ◌≡◌, refl, ◌∙◌, ap, sym, true, false, List, [], ◌∷◌,
  ◌++◌, arith, ltb, if◌then◌else◌, length, length-append, take, String, append_assoc, append-nil,
  Bool-cases, inl, inr, lt→ltb, le→ltb, ltb→lt,
}
use zealish_router.Routing.Table.{RequestRequirements, Routes, max_chain_attempts}
use zealish_router.Routing.Chain.{append_candidate, append_all, chain_from, eligible_fallbacks}

-- The elements that are not among `seen`, each once, in order.
abbrev pub distinct_after : List String → List String → List String
distinct_after seen [] = []
distinct_after seen (c ∷ cs) =
    let later = distinct_after seen cs in
    let first = c ∷ distinct_after (seen ++ c ∷ []) cs in if contains seen c then later else first

-- All candidates of a walk: each entry point, followed by its eligible fallbacks.
abbrev pub candidates : String → RequestRequirements → Routes → List String → List String
candidates name req rt [] = []
candidates name req rt (m ∷ ms) =
    (m ∷ eligible_fallbacks name req rt m) ++ candidates name req rt ms

-- What the chain becomes after these candidates.
abbrev fill : List String → List String → List String
fill chain cs = chain ++ take (max_chain_attempts - length chain) (distinct_after chain cs)

take_nil : (n : ℕ) → take {A = String} n [] ≡ []
take_nil zero = refl
take_nil (suc n) = refl

take_suc : (n : ℕ) (x : String) (xs : List String) → 0 < n → take n (x ∷ xs) ≡ x ∷ take (n - 1) xs
take_suc zero x xs h = elim h [ ]
take_suc (suc n) x xs h = let e : suc n - 1 ≡ n = omega arith in rw e

length-snoc : (xs : List String) (x : String) → length (xs ++ x ∷ []) ≡ length xs + 1
length-snoc xs x = length-append xs (x ∷ [])

fill_full : (chain cs : List String) → max_chain_attempts ≤ length chain → fill chain cs ≡ chain
fill_full chain cs h =
    let e : max_chain_attempts - length chain ≡ 0 = omega arith in rw e (append-nil chain)

fill_seen :
    (chain : List String) (c : String) (cs : List String)
    → contains chain c ≡ true
    → fill chain (c ∷ cs) ≡ fill chain cs
fill_seen chain c cs seen = rw seen

fill_new :
    (chain : List String) (c : String) (cs : List String)
    → contains chain c ≡ false
    → length chain < max_chain_attempts
    → fill chain (c ∷ cs) ≡ fill (chain ++ c ∷ []) cs
fill_new chain c cs new h =
    let rest = distinct_after (chain ++ c ∷ []) cs in
    let e : max_chain_attempts - length chain - 1 ≡ max_chain_attempts - length (chain ++ c ∷ []) =
      omega (arith, length-snoc chain c) in
    rw (new, take_suc (max_chain_attempts - length chain) c rest (omega arith), e)
      (sym
        (append_assoc chain (c ∷ []) (take (max_chain_attempts - length (chain ++ c ∷ [])) rest)))

-- A chain that still has room is filled in order; the walk goes on exactly while there is room.
append_all-fill :
    (cs chain : List String)
    → length chain < max_chain_attempts
    → ((append_all cs chain).1 ≡ fill chain cs)
      × ((append_all cs chain).0 ≡ ltb (length (fill chain cs)) max_chain_attempts)
unfolding append_all append_candidate
append_all-fill [] chain h =
    rw (take_nil (max_chain_attempts - length chain), append-nil chain) (refl, sym (lt→ltb _ _ h))
append_all-fill (c ∷ cs) chain h = elim (Bool-cases (contains chain c)) [
  | inl seen ↦ rw seen (append_all-fill cs chain h)
  | inr new ↦
      let chain' = chain ++ c ∷ [] in
      elim (Bool-cases (ltb (length chain + 1) max_chain_attempts)) [
        | inl room ↦
            rw (fill_new chain c cs new h)
              (rw (new, room) (append_all-fill cs chain' (ground (arith, length-snoc chain c))))
        | inr full ↦
            let long : max_chain_attempts ≤ length chain' = ground (arith, length-snoc chain c) in
            rw (fill_new chain c cs new h) (
              rw (fill_full chain' cs long)
                (rw (new, full) (refl, sym (le→ltb (length chain') max_chain_attempts long))))
      ]
]

distinct_after-append :
    (seen xs ys : List String)
    → distinct_after seen (xs ++ ys)
      ≡ distinct_after seen xs ++ distinct_after (seen ++ distinct_after seen xs) ys
distinct_after-append seen [] ys = rw (append-nil seen)
distinct_after-append seen (x ∷ xs) ys = elim (Bool-cases (contains seen x)) [
  | inl old ↦ rw old (distinct_after-append seen xs ys)
  | inr new ↦
      rw (new, distinct_after-append (seen ++ x ∷ []) xs ys)
        (rw (append_assoc seen (x ∷ []) (distinct_after (seen ++ x ∷ []) xs)))
]

take-append_short :
    (n : ℕ) (xs ys : List String)
    → length (take n xs) < n
    → take n (xs ++ ys) ≡ take n xs ++ take (n - length (take n xs)) ys
take-append_short zero xs ys h = absurd (omega arith)
take-append_short (suc n) [] ys h = let e : suc n - 0 ≡ suc n = omega arith in rw e
take-append_short (suc n) (x ∷ xs) ys h =
    let k = length (take n xs) in
    let e : suc n - suc k ≡ n - k = omega arith in
    rw e (ap (◌∷◌ x) (take-append_short n xs ys (omega arith)))

take-append_long :
    (n : ℕ) (xs ys : List String) → n ≤ length (take n xs) → take n (xs ++ ys) ≡ take n xs
take-append_long zero xs ys h = refl
take-append_long (suc n) [] ys h = absurd (omega arith)
take-append_long (suc n) (x ∷ xs) ys h = ap (◌∷◌ x) (take-append_long n xs ys (omega arith))

take_short : (n : ℕ) (xs : List String) → length (take n xs) < n → take n xs ≡ xs
take_short zero xs h = absurd (omega arith)
take_short (suc n) [] h = refl
take_short (suc n) (x ∷ xs) h = ap (◌∷◌ x) (take_short n xs (omega arith))

module _ (chain xs ys : List String) where
  room : ℕ
  room = max_chain_attempts - length chain

  found : List String
  found = distinct_after chain xs

  length-fill : length (fill chain xs) ≡ length chain + length (take room found)
  unfolding room found
  length-fill =
      length-append chain (take (max_chain_attempts - length chain) (distinct_after chain xs))

  -- Filling by a list and then by another is filling by both, as long as there is room.
  fill-append :
      length (fill chain xs) < max_chain_attempts → fill chain (xs ++ ys) ≡ fill (fill chain xs) ys
  unfolding room found
  fill-append h =
      let short : length (take room found) < room = omega (arith, length-fill) in
      let rest = distinct_after (chain ++ found) ys in
      let e : room - length found ≡ max_chain_attempts - length (chain ++ found) =
        omega (arith, length-append chain found) in
      rw
        (
          distinct_after-append chain xs ys,
          take-append_short room found rest short,
          take_short room found short,
          e,
        )
        (sym (append_assoc chain found (take (max_chain_attempts - length (chain ++ found)) rest)))

  fill-append_full :
      max_chain_attempts ≤ length (fill chain xs) → fill chain (xs ++ ys) ≡ fill chain xs
  unfolding room found
  fill-append_full h =
      let long : room ≤ length (take room found) = omega (arith, length-fill) in
      rw (distinct_after-append chain xs ys)
        (ap (◌++◌ chain) (take-append_long room found (distinct_after (chain ++ found) ys) long))

chain_from-fill :
    (name : String) (req : RequestRequirements) (rt : Routes) (members chain : List String)
    → length chain < max_chain_attempts
    → chain_from name req rt members chain ≡ fill chain (candidates name req rt members)
unfolding chain_from
chain_from-fill name req rt [] chain h =
    rw (take_nil (max_chain_attempts - length chain)) (sym (append-nil chain))
chain_from-fill name req rt (m ∷ ms) chain h =
    let own = m ∷ eligible_fallbacks name req rt m in
    let rest = candidates name req rt ms in
    let step = append_all-fill own chain h in
    elim (Bool-cases (ltb (length (fill chain own)) max_chain_attempts)) [
      | inl more ↦
          let roomy = ltb→lt _ _ more in
          let on : (append_all own chain).0 ≡ true = step.1 ∙ more in
          rw (on, step.0)
            (chain_from-fill name req rt ms (fill chain own) roomy
              ∙ sym (fill-append chain own rest roomy))
      | inr full ↦
          let off : (append_all own chain).0 ≡ false = step.1 ∙ full in
          rw (off, step.0) (sym (fill-append_full chain own rest (ground arith)))
    ]

-- The chain that is walked from the entry points is the first eight distinct candidates: each entry
-- point, followed by its eligible fallbacks, in order.
pub chain_from-distinct :
    (name : String) (req : RequestRequirements) (rt : Routes) (members : List String)
    → chain_from name req rt members []
      ≡ take max_chain_attempts (distinct_after [] (candidates name req rt members))
chain_from-distinct name req rt members = chain_from-fill name req rt members [] (omega arith)
