-- ===== src/Stats/Sort.antt =====
-- The insertion sort that stands for `slices.Sort`: it sorts, and keeps every count.
use zealish_router.Base.{
  ℕ, zero, suc, ◌+◌, ◌≤◌, ◌<◌, ◌≡◌, refl, Bool, true, false, List, [], ◌∷◌, arith, leb, ltb, length,
  get_or, count, All, All-mono,
}
use zealish_router.Stats.{insert_sorted, sort}

abbrev pub IsSorted : List ℕ → Type 0
IsSorted [] = Unit
IsSorted (x ∷ xs) = All (λ y. x ≤ y) xs × IsSorted xs

All-insert_sorted :
    (n x : ℕ) (xs : List ℕ) → n ≤ x → All (λ y. n ≤ y) xs → All (λ y. n ≤ y) (insert_sorted x xs)
All-insert_sorted n x [] h a = (h, tt)
All-insert_sorted n x (y ∷ ys) h a = ground (arith, All-insert_sorted n x ys h a.1)

All-le : (m n : ℕ) (xs : List ℕ) → m ≤ n → All (λ y. n ≤ y) xs → All (λ y. m ≤ y) xs
All-le m n xs h = All-mono (λ y. n ≤ y) (λ y. m ≤ y) xs (λ y k. omega arith)

insert_sorted-IsSorted : (x : ℕ) (xs : List ℕ) → IsSorted xs → IsSorted (insert_sorted x xs)
insert_sorted-IsSorted x [] s = (tt, tt)
insert_sorted-IsSorted x (y ∷ ys) s =
    ground (arith, All-le x y ys, All-insert_sorted y x ys, insert_sorted-IsSorted x ys s.1)

pub sort-IsSorted : (xs : List ℕ) → IsSorted (sort xs)
sort-IsSorted [] = tt
sort-IsSorted (x ∷ xs) = insert_sorted-IsSorted x (sort xs) (sort-IsSorted xs)

count-insert_sorted :
    (p : ℕ → Bool) (x : ℕ) (xs : List ℕ) → count p (insert_sorted x xs) ≡ count p (x ∷ xs)
count-insert_sorted p x [] = refl
count-insert_sorted p x (y ∷ ys) = ground (arith, count-insert_sorted p x ys)

-- Sorting keeps how many elements pass any test.
pub count-sort : (p : ℕ → Bool) (xs : List ℕ) → count p (sort xs) ≡ count p xs
count-sort p [] = refl
count-sort p (x ∷ xs) = ground (arith, count-insert_sorted p x (sort xs), count-sort p xs)

length-insert_sorted : (x : ℕ) (xs : List ℕ) → length (insert_sorted x xs) ≡ suc (length xs)
length-insert_sorted x [] = refl
length-insert_sorted x (y ∷ ys) = ground (arith, length-insert_sorted x ys)

pub length-sort : (xs : List ℕ) → length (sort xs) ≡ length xs
length-sort [] = refl
length-sort (x ∷ xs) = omega (arith, length-insert_sorted x (sort xs), length-sort xs)

count-All :
    (p : ℕ → Bool) (n : ℕ) (xs : List ℕ)
    → ((y : ℕ) → n ≤ y → p y ≡ false)
    → All (λ y. n ≤ y) xs
    → count p xs ≡ 0
count-All p n [] f a = refl
count-All p n (y ∷ ys) f a = ground (arith, f y, count-All p n ys f a.1)

count_every :
    (p : ℕ → Bool) (n : ℕ) (xs : List ℕ)
    → ((y : ℕ) → n ≤ y → p y ≡ true)
    → All (λ y. n ≤ y) xs
    → count p xs ≡ length xs
count_every p n [] f a = refl
count_every p n (y ∷ ys) f a = ground (arith, f y, count_every p n ys f a.1)

pub All-get_or :
    (x : ℕ) (xs : List ℕ) (i : ℕ) → i < length xs → All (λ y. x ≤ y) xs → x ≤ get_or xs i 0
All-get_or x [] i h a = absurd (omega arith)
All-get_or x (y ∷ ys) zero h a = a.0
All-get_or x (y ∷ ys) (suc i) h a = All-get_or x ys i (omega arith) a.1

-- In a sorted list the first i + 1 elements are at most the one at position i.
pub rank_le :
    (xs : List ℕ) (i : ℕ)
    → IsSorted xs
    → i < length xs
    → i + 1 ≤ count (λ y. leb y (get_or xs i 0)) xs
rank_le [] i s h = absurd (omega arith)
rank_le (x ∷ xs) zero s h = ground arith
rank_le (x ∷ xs) (suc i) s h =
    ground (arith, All-get_or x xs i (omega arith) s.0, rank_le xs i s.1 (omega arith))

-- At most i elements are less than it.
pub rank_lt :
    (xs : List ℕ) (i : ℕ) → IsSorted xs → i < length xs → count (λ y. ltb y (get_or xs i 0)) xs ≤ i
rank_lt [] i s h = absurd (omega arith)
rank_lt (x ∷ xs) zero s h = ground (arith, count-All (λ y. ltb y x) x xs (λ y k. ground arith) s.0)
rank_lt (x ∷ xs) (suc i) s h = ground (arith, rank_lt xs i s.1 (omega arith))

-- All but i elements are at least it.
pub rank_ge :
    (xs : List ℕ) (i : ℕ)
    → IsSorted xs
    → i < length xs
    → length xs ≤ i + count (λ y. leb (get_or xs i 0) y) xs
rank_ge [] i s h = absurd (omega arith)
rank_ge (x ∷ xs) zero s h =
    ground (arith, count_every (λ y. leb x y) x xs (λ y k. ground arith) s.0)
rank_ge (x ∷ xs) (suc i) s h = ground (arith, rank_ge xs i s.1 (omega arith))
