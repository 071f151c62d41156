-- ===== src/Quota/Sliding.antt =====
-- The sliding window as a list: what dropping the expired prefix leaves.
use zealish_router.Base.{
  ℕ, ◌+◌, ◌≤◌, ◌<◌, ◌≡◌, refl, ◌∙◌, ap, sym, ◌&&◌, List, [], ◌∷◌, ◌++◌, arith, leb, ltb, length,
  count, count-append, All, All-append, All-mono, append_assoc, Bool-cases, inl, inr, leb→le,
}
use zealish_router.Quota.{minute, drop_expired}

-- How many of these times lie in the minute that ends at `now`.
abbrev pub recent : ℕ → List ℕ → ℕ
recent now = count (λ a. leb a now && ltb now (a + minute))

abbrev pub IsExpired : ℕ → ℕ → Type 0
IsExpired now a = a + minute ≤ now

abbrev pub IsAscending : List ℕ → Type 0
IsAscending [] = Unit
IsAscending (x ∷ xs) = All (λ y. x ≤ y) xs × IsAscending xs

-- A window holds what is left of a history of hits once expired ones were dropped.
pub record Follows (now : ℕ) (history hits : List ℕ) : Type 0 where
  pub dropped : List ℕ
  pub parts : history ≡ dropped ++ hits
  pub expired : All (IsExpired now) dropped
  pub ascending : IsAscending hits
  pub past : All (λ a. a ≤ now) hits

recent-expired : (now : ℕ) (xs : List ℕ) → All (IsExpired now) xs → recent now xs ≡ 0
recent-expired now [] h = refl
recent-expired now (x ∷ xs) h = ground (arith, recent-expired now xs h.1)

recent-live :
    (now : ℕ) (x : ℕ) (xs : List ℕ)
    → now < x + minute
    → All (λ y. x ≤ y) xs
    → All (λ y. y ≤ now) xs
    → recent now xs ≡ length xs
recent-live now x [] h a b = refl
recent-live now x (y ∷ ys) h a b = ground (arith, recent-live now x ys h a.1 b.1)

-- The expired prefix goes, and what stays is what lies within the last minute.
pub drop_expired_lem :
    (now : ℕ) (hits : List ℕ)
    → IsAscending hits
    → All (λ y. y ≤ now) hits
    → (gone : List ℕ) × (hits ≡ gone ++ drop_expired now hits)
      × All (IsExpired now) gone
      × IsAscending (drop_expired now hits)
      × All (λ y. y ≤ now) (drop_expired now hits)
      × (length (drop_expired now hits) ≡ recent now hits)
unfolding drop_expired
drop_expired_lem now [] s p = ([], refl, tt, tt, tt, refl)
drop_expired_lem now (h ∷ hs) s p = elim (Bool-cases (leb (h + minute) now)) [
  | inl old ↦
      let (gone, e, x, a, b, n) = drop_expired_lem now hs s.1 p.1 in
      rw old (h ∷ gone, ap (◌∷◌ h) e, (leb→le _ _ old, x), a, b, ground arith)
  | inr new ↦
      rw new ([], refl, tt, s, p, sym (ground (arith, recent-live now h hs (ground arith) s.0 p.1)))
]

-- As time goes on, the window still follows the history.
pub Follows-drop :
    (t now : ℕ) (history hits : List ℕ)
    → t ≤ now
    → Follows t history hits
    → Follows now history (drop_expired now hits)
      × (length (drop_expired now hits) ≡ recent now history)
Follows-drop t now history hits le h =
    let past : All (λ a. a ≤ now) hits =
      All-mono (λ a. a ≤ t) (λ a. a ≤ now) hits (λ a k. omega arith) h.past in
    let expired : All (IsExpired now) h.dropped =
      All-mono (IsExpired t) (IsExpired now) h.dropped (λ a k. omega arith) h.expired in
    let (gone, e, x, a, b, n) = drop_expired_lem now hits h.ascending past in
    (
      record {
        dropped = h.dropped ++ gone;
        parts =
            h.parts
            ∙ ap (◌++◌ h.dropped) e
            ∙ sym (append_assoc h.dropped gone (drop_expired now hits));
        expired = All-append (IsExpired now) h.dropped gone expired x;
        ascending = a;
        past = b;
      },
      omega (
        arith,
        n,
        ap (recent now) h.parts,
        count-append (λ a. leb a now && ltb now (a + minute)) h.dropped hits,
        recent-expired now h.dropped expired,
      ),
    )

IsAscending-append :
    (now : ℕ) (xs : List ℕ) → IsAscending xs → All (λ a. a ≤ now) xs → IsAscending (xs ++ now ∷ [])
IsAscending-append now [] s p = (tt, tt)
IsAscending-append now (x ∷ xs) s p =
    (All-append (λ y. x ≤ y) xs (now ∷ []) s.0 (p.0, tt), IsAscending-append now xs s.1 p.1)

-- A hit that is accepted goes to the end of both.
pub Follows-hit :
    (now : ℕ) (history hits : List ℕ)
    → Follows now history hits
    → Follows now (history ++ now ∷ []) (hits ++ now ∷ [])
Follows-hit now history hits h = record {
  dropped = h.dropped;
  parts = ap (λ xs. xs ++ now ∷ []) h.parts ∙ append_assoc h.dropped hits (now ∷ []);
  expired = h.expired;
  ascending = IsAscending-append now hits h.ascending h.past;
  past = All-append (λ a. a ≤ now) hits (now ∷ []) h.past (omega arith);
}

-- Time passing alone changes nothing.
pub Follows-later :
    (t now : ℕ) (history hits : List ℕ)
    → t ≤ now
    → Follows t history hits
    → Follows now history hits
Follows-later t now history hits le h = record {
  dropped = h.dropped;
  parts = h.parts;
  expired = All-mono (IsExpired t) (IsExpired now) h.dropped (λ a k. omega arith) h.expired;
  ascending = h.ascending;
  past = All-mono (λ a. a ≤ t) (λ a. a ≤ now) hits (λ a k. omega arith) h.past;
}
