-- ===== src/Cache/View.antt =====
-- The map and the list of the cache as one list, and what the operations do to it.
use zealish_router.Base.{
  ℕ, zero, suc, ◌-◌, ◌≡◌, refl, String, true, false, none, some, List, [], ◌∷◌, arith,
  if◌then◌else◌, Dict, lookup, insert, delete, lookup-insert, lookup-delete, str_eq, str_eq_refl,
  eq_iff, length, take, contains, is_bound, Bool-cases, inl, inr,
}
use zealish_router.Cache.{Node, unlink, back}
use zealish_router.Cache.Lru.{Lru, find, without}

-- The nodes of the keys, in order.
unfoldable pub items : Dict Node → List String → Lru
items d [] = []
items d (k ∷ ks) =
    let rest = items d ks in elim (lookup k d) [ none ↦ rest | some n ↦ (k, n) ∷ rest ]

pub items_cons :
    (d : Dict Node) (k : String) (n : Node) (ks : List String)
    → lookup k d ≡ some n
    → items d (k ∷ ks) ≡ (k, n) ∷ items d ks
unfolding items
items_cons d k n ks h = ground (arith, h)

abbrev pub NoRepeat : List String → Type 0
NoRepeat [] = Unit
NoRepeat (k ∷ ks) = (contains ks k ≡ false) × NoRepeat ks

abbrev pub Held : Dict Node → List String → Type 0
Held d [] = Unit
Held d (k ∷ ks) = (is_bound (lookup k d) ≡ true) × Held d ks

pub find-items :
    (d : Dict Node) (ks : List String) (key : String)
    → find key (items d ks) ≡ (if contains ks key then lookup key d else none)
unfolding find items
find-items d [] key = refl
find-items d (k ∷ ks) key = ground (arith, find-items d ks key, eq_iff k key)

pub contains-unlink :
    (key k : String) (ks : List String)
    → NoRepeat ks
    → contains (unlink key ks) k ≡ (if str_eq key k then false else contains ks k)
unfolding unlink
contains-unlink key k [] h = ground arith
contains-unlink key k (x ∷ ks) h =
    ground (arith, contains-unlink key k ks h.1, eq_iff x key, eq_iff x k, eq_iff key k, h.0)

pub unlink-NoRepeat : (key : String) (ks : List String) → NoRepeat ks → NoRepeat (unlink key ks)
unfolding unlink
unlink-NoRepeat key [] h = tt
unlink-NoRepeat key (k ∷ ks) h = elim (Bool-cases (str_eq k key)) [
  | inl e ↦ rw e h.1
  | inr e ↦ rw e (ground (arith, contains-unlink key k ks h.1, h.0), unlink-NoRepeat key ks h.1)
]

pub without_absent :
    (d : Dict Node) (key : String) (ks : List String)
    → contains ks key ≡ false
    → without key (items d ks) ≡ items d ks
unfolding without items
without_absent d key [] h = refl
without_absent d key (k ∷ ks) h = ground (arith, without_absent d key ks, h)

pub items-unlink :
    (d : Dict Node) (key : String) (ks : List String)
    → NoRepeat ks
    → items d (unlink key ks) ≡ without key (items d ks)
unfolding without items unlink
items-unlink d key [] h = refl
items-unlink d key (k ∷ ks) h =
    ground (arith, items-unlink d key ks h.1, without_absent d key ks, h.0, eq_iff k key)

pub items-delete :
    (d : Dict Node) (key : String) (ks : List String)
    → contains ks key ≡ false
    → items (delete key d) ks ≡ items d ks
unfolding items
items-delete d key [] h = refl
items-delete d key (k ∷ ks) h =
    ground (arith, items-delete d key ks, lookup-delete key k d, eq_iff k key, eq_iff key k, h)

pub items-insert :
    (d : Dict Node) (key : String) (n : Node) (ks : List String)
    → contains ks key ≡ false
    → items (insert key n d) ks ≡ items d ks
unfolding items
items-insert d key n [] h = refl
items-insert d key n (k ∷ ks) h =
    ground (arith, items-insert d key n ks, lookup-insert key k n d, eq_iff k key, eq_iff key k, h)

pub back-contains :
    (ks : List String) (last : String) → back ks ≡ some last → contains ks last ≡ true
unfolding back
back-contains [] last h = ground arith
back-contains (k ∷ ks) last h = ground (arith, back-contains ks last, eq_iff k last, h)

pub unlink-back :
    (ks : List String) (last : String)
    → NoRepeat ks
    → back ks ≡ some last
    → unlink last ks ≡ take (length ks - 1) ks
unfolding back unlink
unlink-back [] last n h = refl
unlink-back (k ∷ []) last n h = ground (arith, eq_iff k last, h)
unlink-back (k ∷ l ∷ ks) last n h =
    let e : suc (suc (length ks)) - 1 ≡ suc (suc (length ks) - 1) = omega arith in
    rw e (
      ground
        (arith, unlink-back (l ∷ ks) last n.1, back-contains (l ∷ ks) last, eq_iff k last, n.0, h))

pub length-items : (d : Dict Node) (ks : List String) → Held d ks → length (items d ks) ≡ length ks
unfolding items
length-items d [] h = refl
length-items d (k ∷ ks) h = ground (arith, length-items d ks h.1, h.0)

pub items-take :
    (d : Dict Node) (n : ℕ) (ks : List String)
    → Held d ks
    → items d (take n ks) ≡ take n (items d ks)
unfolding items
items-take d zero ks h = refl
items-take d (suc n) [] h = refl
items-take d (suc n) (k ∷ ks) h = ground (arith, items-take d n ks h.1, h.0)

pub held :
    (d : Dict Node) (ks : List String)
    → ((k : String) → contains ks k ≡ true → is_bound (lookup k d) ≡ true)
    → Held d ks
held d [] h = tt
held d (k ∷ ks) h =
    (h k (ground (arith, str_eq_refl k)), held d ks (λ l i. h l (ground (arith, i))))
