-- ===== src/Quota/Rate.antt =====
-- The rate limit over a history of requests of all keys.
use zealish_router.Base.{
  ℕ, ◌+◌, ◌≤◌, ◌<◌, ◌≡◌, refl, ap, Bool, false, ◌&&◌, List, [], ◌∷◌, ◌++◌, arith, leb, ltb,
  if◌then◌else◌, length, count-append, All, All-append, append_assoc, Bool-cases, inl, inr, String,
  str_eq, eq_iff, lookup, lookup-insert, append-nil, All-mono, str_eq_refl, ltb→lt,
}
use zealish_router.Quota.{Quota, minute, new_quota, hits_of, drop_expired, take_slot}
use zealish_router.Quota.Sliding.{recent, Follows, Follows-drop, Follows-hit, Follows-later}

-- The times at which requests of a key are accepted, when requests of keys arrive at these times;
-- each key has its limit.
unfoldable pub accepted : (String → ℕ) → String → Quota → List (String × ℕ) → List ℕ
accepted limits k q [] = []
accepted limits k q ((j, t) ∷ rs) =
    let rest = accepted limits k (take_slot t j (limits j) q).1 rs in
    if str_eq j k && (take_slot t j (limits j) q).0.0 then t ∷ rest else rest

-- The rule as a specification: a request is accepted if fewer than the limit were accepted in the
-- minute that ends with it.
unfoldable pub sliding : ℕ → List ℕ → List ℕ → List ℕ
sliding limit history [] = []
sliding limit history (t ∷ ts) =
    let more = t ∷ sliding limit (history ++ t ∷ []) ts in
    let fewer = sliding limit history ts in if ltb (recent t history) limit then more else fewer

-- The arrival times of the requests of a key.
abbrev pub arrivals : String → List (String × ℕ) → List ℕ
arrivals k [] = []
arrivals k ((j, t) ∷ rs) = let rest = arrivals k rs in if str_eq j k then t ∷ rest else rest

-- The clock does not go back.
abbrev pub InOrder : ℕ → List (String × ℕ) → Type 0
InOrder t0 [] = Unit
InOrder t0 ((j, t) ∷ rs) = (t0 ≤ t) × InOrder t rs

-- A decision touches the window of its own key only, and it is the specification's.
pub take_slot-hits :
    (k j : String) (t limit : ℕ) (q : Quota)
    → hits_of k (take_slot t j limit q).1 ≡ (
        if str_eq j k
        then (let live = drop_expired t (hits_of k q) in
            if leb limit (length live) then live else live ++ t ∷ [])
        else hits_of k q)
unfolding take_slot hits_of
take_slot-hits k j t limit q = ground (
  arith,
  eq_iff j k,
  lookup-insert j k (drop_expired t (hits_of j q)) q.windows,
  lookup-insert j k (drop_expired t (hits_of j q) ++ t ∷ []) q.windows,
)

pub take_slot-verdict :
    (j : String) (t limit : ℕ) (q : Quota)
    → (take_slot t j limit q).0.0 ≡ ltb (length (drop_expired t (hits_of j q))) limit
unfolding take_slot
take_slot-verdict j t limit q = ground arith

-- What one request does to the window and the history of its key.
own_request :
    (k : String) (t0 t limit : ℕ) (q : Quota) (history : List ℕ)
    → t0 ≤ t
    → Follows t0 history (hits_of k q)
    → ((take_slot t k limit q).0.0 ≡ ltb (recent t history) limit)
      × Follows t
          (if ltb (recent t history) limit then history ++ t ∷ [] else history)
          (hits_of k (take_slot t k limit q).1)
own_request k t0 t limit q history le h =
    let (f, n) = Follows-drop t0 t history (hits_of k q) le h in
    let live = drop_expired t (hits_of k q) in
    elim (Bool-cases (ltb (recent t history) limit)) [
      | inl fits ↦
          let e : hits_of k (take_slot t k limit q).1 ≡ live ++ t ∷ [] =
            ground (arith, take_slot-hits k k t limit q, str_eq_refl k) in
          (
            ground (arith, take_slot-verdict k t limit q),
            rw (fits, e) (Follows-hit t history live f),
          )
      | inr full ↦
          let e : hits_of k (take_slot t k limit q).1 ≡ live =
            ground (arith, take_slot-hits k k t limit q, str_eq_refl k) in
          (ground (arith, take_slot-verdict k t limit q), rw (full, e) f)
    ]

-- Another key's request leaves the window alone.
other_request :
    (k j : String) (t0 t limit : ℕ) (q : Quota) (history : List ℕ)
    → t0 ≤ t
    → str_eq j k ≡ false
    → Follows t0 history (hits_of k q)
    → Follows t history (hits_of k (take_slot t j limit q).1)
other_request k j t0 t limit q history le other h =
    let e : hits_of k (take_slot t j limit q).1 ≡ hits_of k q =
      ground (arith, take_slot-hits k j t limit q) in
    rw e (Follows-later t0 t history (hits_of k q) le h)

-- For requests that arrive in order of time, whatever other keys do, the requests of a key that are
-- accepted are those that the specification accepts.
pub accepted-sliding :
    (limits : String → ℕ) (k : String) (t0 : ℕ) (q : Quota) (history : List ℕ)
    (rs : List (String × ℕ))
    → InOrder t0 rs
    → Follows t0 history (hits_of k q)
    → accepted limits k q rs ≡ sliding (limits k) history (arrivals k rs)
unfolding accepted sliding
accepted-sliding limits k t0 q history [] o h = refl
accepted-sliding limits k t0 q history ((j, t) ∷ rs) o h = elim (Bool-cases (str_eq j k)) [
  | inr other ↦ rw other (
      accepted-sliding limits k t (take_slot t j (limits j) q).1 history rs o.1
        (other_request k j t0 t (limits j) q history o.0 other h))
  | inl same ↦
      let e : j ≡ k = (eq_iff j k).0 same in
      rw (same, e)
        (let (v, f) = own_request k t0 t (limits k) q history o.0 h in
          let q' = (take_slot t k (limits k) q).1 in
          elim (Bool-cases (ltb (recent t history) (limits k))) [
            | inl fits ↦
                rw (v, fits)
                  (ap (◌∷◌ t)
                    (accepted-sliding limits k t q' (history ++ t ∷ []) rs o.1 (rw fits at f)))
            | inr full ↦ rw (v, full) (accepted-sliding limits k t q' history rs o.1 (rw full at f))
          ])
]

recent-before :
    (now t : ℕ) (xs : List ℕ) → now ≤ t → All (λ a. a ≤ now) xs → recent t xs ≤ recent now xs
recent-before now t [] h p = omega arith
recent-before now t (x ∷ xs) h p = ground (arith, recent-before now t xs h p.1)

-- Accepting one more request in accordance with the rule keeps every minute within the limit.
minute_within :
    (limit now t : ℕ) (history : List ℕ)
    → All (λ a. a ≤ now) history
    → recent now history < limit
    → recent t history ≤ limit
    → recent t (history ++ now ∷ []) ≤ limit
minute_within limit now t history p f h = ground (
  arith,
  count-append (λ a. leb a t && ltb t (a + minute)) history (now ∷ []),
  recent-before now t history,
)

abbrev AscendingFrom : ℕ → List ℕ → Type 0
AscendingFrom t0 [] = Unit
AscendingFrom t0 (t ∷ ts) = (t0 ≤ t) × AscendingFrom t ts

sliding_within :
    (limit t0 t : ℕ) (history ts : List ℕ)
    → AscendingFrom t0 ts
    → All (λ a. a ≤ t0) history
    → recent t history ≤ limit
    → recent t (history ++ sliding limit history ts) ≤ limit
unfolding sliding
sliding_within limit t0 t history [] o p h = rw (append-nil history) h
sliding_within limit t0 t history (now ∷ ts) o p h =
    let past : All (λ a. a ≤ now) history =
      All-mono (λ a. a ≤ t0) (λ a. a ≤ now) history (λ a k. omega arith) p in
    elim (Bool-cases (ltb (recent now history) limit)) [
      | inl fits ↦
          let history' = history ++ now ∷ [] in
          rw (fits, ← append_assoc history (now ∷ []) (sliding limit history' ts))
            (sliding_within limit now t history' ts o.1
              (All-append (λ a. a ≤ now) history (now ∷ []) past (omega arith))
              (minute_within limit now t history past (ltb→lt _ _ fits) h))
      | inr full ↦ rw full (sliding_within limit now t history ts o.1 past h)
    ]

ascending_sooner : (t0 t : ℕ) (ts : List ℕ) → t0 ≤ t → AscendingFrom t ts → AscendingFrom t0 ts
ascending_sooner t0 t [] h o = tt
ascending_sooner t0 t (x ∷ xs) h o = (omega arith, o.1)

ascending-arrivals :
    (k : String) (t0 : ℕ) (rs : List (String × ℕ))
    → InOrder t0 rs
    → AscendingFrom t0 (arrivals k rs)
ascending-arrivals k t0 [] o = tt
ascending-arrivals k t0 ((j, t) ∷ rs) o =
    ground (arith, ascending-arrivals k t rs o.1, ascending_sooner t0 t (arrivals k rs) o.0)

fresh-Follows : (k : String) (u : Bool) → Follows 0 [] (hits_of k (new_quota u))
unfolding new_quota hits_of lookup
fresh-Follows k u = record { dropped = []; parts = refl; expired = tt; ascending = tt; past = tt }

-- Starting from a new quota, for requests in order of time and whatever other keys do, no minute
-- holds more accepted requests of a key than its limit, wherever that minute ends.
pub rate_within :
    (limits : String → ℕ) (k : String) (u : Bool) (rs : List (String × ℕ)) (t : ℕ)
    → InOrder 0 rs
    → recent t (accepted limits k (new_quota u) rs) ≤ limits k
rate_within limits k u rs t o =
    rw (accepted-sliding limits k 0 (new_quota u) [] rs o (fresh-Follows k u)) (
      sliding_within (limits k) 0 t [] (arrivals k rs) (ascending-arrivals k 0 rs o) tt
        (omega arith))

-- Starting from a new quota, for requests in order of time, a request is refused only where the
-- key has used up its limit in the minute that ends with it: the accepted requests are exactly
-- those of the sliding-window specification.
pub accepted-new_quota :
    (limits : String → ℕ) (k : String) (u : Bool) (rs : List (String × ℕ))
    → InOrder 0 rs
    → accepted limits k (new_quota u) rs ≡ sliding (limits k) [] (arrivals k rs)
accepted-new_quota limits k u rs o =
    accepted-sliding limits k 0 (new_quota u) [] rs o (fresh-Follows k u)
