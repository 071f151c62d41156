-- ===== src/Stats/Buffer.antt =====
-- The ring buffer holds the latest samples: a window over the history.
use zealish_router.Base.{
  ℕ, zero, suc, ◌+◌, ◌-◌, ◌≤◌, ◌<◌, ◌≡◌, refl, ◌∙◌, ap, sym, List, [], ◌∷◌, ◌++◌, arith, ltb,
  if◌then◌else◌, length, set, take, drop, length-append, length-set, length-replicate, append-nil,
  lt→ltb, le→ltb, ◌⊎◌, append_assoc, Bool-cases, inl, inr, length-take, length-drop, ◌%◌,
}
use native.Mathlib.Nat.{mod-eq_of_lt, mod_self}
use zealish_router.Stats.{RequestMetric, Ring, new_ring, add, snapshot, zero_metric}

-- The window of capacity `c` after one more sample: the oldest is dropped once it is full.
unfoldable pub slide {ℓ} : {A : Type ℓ} → ℕ → A → List A → List A
slide c x xs = if ltb (length xs) c then xs ++ x ∷ [] else drop 1 xs ++ x ∷ []

unfoldable pub slide_all {ℓ} : {A : Type ℓ} → ℕ → List A → List A → List A
slide_all c acc [] = acc
slide_all c acc (x ∷ xs) = slide_all c (slide c x acc) xs

-- The last `c` elements.
abbrev pub last_n {ℓ} : {A : Type ℓ} → ℕ → List A → List A
last_n c xs = drop (length xs - c) xs

module _ {ℓ} {A : Type ℓ} where
  take-set_next :
      (xs : List A) (i : ℕ) (v : A)
      → i < length xs
      → take (suc i) (set xs i v) ≡ take i xs ++ v ∷ []
  take-set_next [] i v h = absurd (omega arith)
  take-set_next (x ∷ xs) zero v h = refl
  take-set_next (x ∷ xs) (suc i) v h = ap (◌∷◌ x) (take-set_next xs i v (omega arith))

  take-set_before : (xs : List A) (i : ℕ) (v : A) → take i (set xs i v) ≡ take i xs
  take-set_before [] i v = refl
  take-set_before (x ∷ xs) zero v = refl
  take-set_before (x ∷ xs) (suc i) v = ap (◌∷◌ x) (take-set_before xs i v)

  drop-set_after : (xs : List A) (i : ℕ) (v : A) → drop (suc i) (set xs i v) ≡ drop (suc i) xs
  drop-set_after [] i v = refl
  drop-set_after (x ∷ xs) zero v = refl
  drop-set_after (x ∷ xs) (suc i) v = drop-set_after xs i v

  drop-drop_one : (xs : List A) (i : ℕ) → drop 1 (drop i xs) ≡ drop (suc i) xs
  drop-drop_one xs zero = refl
  drop-drop_one [] (suc i) = refl
  drop-drop_one (x ∷ xs) (suc i) = drop-drop_one xs i

  drop_all : (xs : List A) (i : ℕ) → length xs ≤ i → drop i xs ≡ []
  drop_all [] zero h = refl
  drop_all [] (suc i) h = refl
  drop_all (x ∷ xs) zero h = absurd (omega arith)
  drop_all (x ∷ xs) (suc i) h = drop_all xs i (omega arith)

  take_all : (xs : List A) (i : ℕ) → length xs ≤ i → take i xs ≡ xs
  take_all [] zero h = refl
  take_all [] (suc i) h = refl
  take_all (x ∷ xs) zero h = absurd (omega arith)
  take_all (x ∷ xs) (suc i) h = ap (◌∷◌ x) (take_all xs i (omega arith))

  drop_one-append : (xs ys : List A) → 0 < length xs → drop 1 (xs ++ ys) ≡ drop 1 xs ++ ys
  drop_one-append [] ys h = absurd (omega arith)
  drop_one-append (x ∷ xs) ys h = refl

-- The position lies in the buffer.
pub record IsRing (c : ℕ) (r : Ring) : Type 0 where
  pub sized : length r.samples ≡ c
  pub inside : r.next < c

pub new_ring-IsRing : (c : ℕ) → 0 < c → IsRing c (new_ring c)
unfolding new_ring
new_ring-IsRing c h = record { sized = length-replicate c zero_metric; inside = h }

next_cases :
    (c n : ℕ) → n < c → ((suc n ≡ c) × ((n + 1) % c ≡ 0)) ⊎ ((suc n < c) × ((n + 1) % c ≡ suc n))
next_cases c n h = elim (Bool-cases (ltb (n + 1) c)) [
  | inl more ↦ inr (ground arith, mod-eq_of_lt (ground arith) ∙ omega arith)
  | inr last ↦ inl (ground arith, ground (arith, wrap))
]
  where
    wrap : c ≡ n + 1 → (n + 1) % c ≡ 0
    wrap e = rw e (mod_self (n + 1))

pub add-IsRing : (c : ℕ) (m : RequestMetric) (r : Ring) → IsRing c r → IsRing c (add m r)
unfolding add
add-IsRing c m r h = record {
  sized = length-set r.samples r.next m ∙ h.sized;
  inside = rw h.sized (ground (arith, next_cases c r.next h.inside));
}

-- Where the buffer wraps, it is shown whole.
whole :
    {A : Type 0} (c n : ℕ) (v : A) (xs : List A)
    → length xs ≡ c
    → suc n ≡ c
    → set xs n v ≡ take n xs ++ v ∷ []
whole c n v xs h e =
    sym (take_all (set xs n v) (suc n) (omega (arith, length-set xs n v)))
    ∙ take-set_next xs n v (omega arith)

slide_short :
    {A : Type 0} (c n : ℕ) (v : A) (xs : List A)
    → length xs ≡ c
    → n < c
    → slide c v (take n xs) ≡ take n xs ++ v ∷ []
unfolding slide
slide_short c n v xs h k = rw (lt→ltb (length (take n xs)) c (omega (arith, length-take n xs)))

slide_full :
    {A : Type 0} (c n : ℕ) (v : A) (xs : List A)
    → length xs ≡ c
    → n < c
    → slide c v (drop n xs ++ take n xs) ≡ drop (suc n) xs ++ (take n xs ++ v ∷ [])
unfolding slide
slide_full c n v xs h k = rw (le→ltb (length (drop n xs ++ take n xs)) c long) (
    ground (
      arith,
      drop_one-append (drop n xs) (take n xs),
      drop-drop_one xs n,
      length-drop n xs,
      append_assoc (drop (suc n) xs) (take n xs) (v ∷ []),
    ))
  where
    long : c ≤ length (drop n xs ++ take n xs)
    long = omega (arith, length-append (drop n xs) (take n xs), length-drop n xs, length-take n xs)

-- The samples that a ring shows slide by one with each sample added.
pub snapshot-add :
    (c : ℕ) (m : RequestMetric) (r : Ring)
    → IsRing c r
    → snapshot (add m r) ≡ slide c m (snapshot r)
unfolding snapshot add
snapshot-add c m r h = elim (next_cases c r.next h.inside) [
  | inl (e, z) ↦
      rw (h.sized, z)
        (ground (
          arith,
          whole c r.next m r.samples h.sized e,
          slide_short c r.next m r.samples h.sized h.inside,
          slide_full c r.next m r.samples h.sized h.inside,
          drop_all r.samples (suc r.next),
          append-nil (set r.samples r.next m),
        ))
  | inr (e, z) ↦
      rw (h.sized, z)
        (ground (
          arith,
          take-set_next r.samples r.next m,
          drop-set_after r.samples r.next m,
          slide_short c r.next m r.samples h.sized h.inside,
          slide_full c r.next m r.samples h.sized h.inside,
        ))
]

module _ {A : Type 0} where
  drop-append : (n : ℕ) (xs ys : List A) → n ≤ length xs → drop n (xs ++ ys) ≡ drop n xs ++ ys
  drop-append zero xs ys h = refl
  drop-append (suc n) [] ys h = absurd (omega arith)
  drop-append (suc n) (x ∷ xs) ys h = drop-append n xs ys (omega arith)

  pub slide-last_n :
      (c : ℕ) (x : A) (xs : List A) → 0 < c → slide c x (last_n c xs) ≡ last_n c (xs ++ x ∷ [])
  unfolding slide
  slide-last_n c x xs h = ground (
    arith,
    length-append xs (x ∷ []),
    length-drop (length xs - c) xs,
    drop-drop_one xs (length xs - c),
    drop-append (suc (length xs - c)) xs (x ∷ []),
    gap,
    nothing,
  )
    where
      gap : c ≤ length xs → length (xs ++ x ∷ []) - c ≡ suc (length xs - c)
      gap k = omega (arith, length-append xs (x ∷ []))

      nothing : length xs < c → (length xs - c ≡ 0) × (length (xs ++ x ∷ []) - c ≡ 0)
      nothing k = omega (arith, length-append xs (x ∷ []))
