-- ===== src/Cache/Replies.antt =====
-- What a client of the response cache sees over any sequence of operations.
use zealish_router.Base.{
  ℕ, ◌≤◌, ◌<◌, ◌≡◌, refl, ◌∙◌, ap, String, Option, some, List, [], ◌∷◌, arith, ℤ, pos_part, length,
  lookup,
}
use zealish_router.Cache.{
  Cache, Entry, new_cache, get, put, purge, get_entry, put_entry, purge_cache, cache_stats,
}
use zealish_router.Cache.Lru.{Lru, use_entry, store_entry}
use zealish_router.Cache.View.{items}
use zealish_router.Cache.Linked.{view, Sync}
use zealish_router.Cache.Refines.{get_entry-view, put_entry-view}

pub data CacheCall : Type 0 where
  asks : String → CacheCall
  stores : String → Entry → CacheCall
  purges : CacheCall

-- The replies of the lookups, and the cache that is left.
unfoldable pub replies : Option Cache → List (ℕ × CacheCall) → List (Option Entry) × Option Cache
replies c [] = ([], c)
replies c ((t, asks key) ∷ calls) =
    let rest = replies (get t key c).1 calls in ((get t key c).0 ∷ rest.0, rest.1)
replies c ((t, stores key e) ∷ calls) = replies (put t key e c) calls
replies c ((t, purges) ∷ calls) = replies (purge c).1 calls

unfoldable pub lru_replies : ℕ → ℕ → Lru → List (ℕ × CacheCall) → List (Option Entry)
lru_replies capacity ttl s [] = []
lru_replies capacity ttl s ((t, asks key) ∷ calls) =
    let (found, s') = use_entry t key s in found ∷ lru_replies capacity ttl s' calls
lru_replies capacity ttl s ((t, stores key e) ∷ calls) =
    lru_replies capacity ttl (store_entry capacity ttl t key e s) calls
lru_replies capacity ttl s ((t, purges) ∷ calls) = lru_replies capacity ttl [] calls

empty-Sync : (c : Cache) → Sync (purge_cache c).1
unfolding lookup
empty-Sync c = record { distinct = tt; covers = λ k. refl }

empty_view : (c : Cache) → view (purge_cache c).1 ≡ []
unfolding items
empty_view c = refl

replies-view :
    (capacity ttl : ℕ) (c : Cache) (s : Lru) (calls : List (ℕ × CacheCall))
    → Sync c
    → length c.order ≤ c.capacity
    → c.capacity ≡ capacity
    → c.ttl ≡ ttl
    → view c ≡ s
    → ((replies (some c) calls).0 ≡ lru_replies capacity ttl s calls)
      × ((cache_stats (replies (some c) calls).1).occupied ≤ capacity)
unfolding replies lru_replies get put purge cache_stats
replies-view capacity ttl c s [] h f p q v = (refl, omega (arith, f, p))
replies-view capacity ttl c s ((t, asks key) ∷ calls) h f p q v =
    let (found, seen, kept) = get_entry-view t key c h f in
    let rest =
      replies-view capacity ttl (get_entry t key c).1 (use_entry t key s).1 calls kept.synced
        kept.few (kept.same_capacity ∙ p) (kept.same_ttl ∙ q)
        (seen ∙ ap (λ r. (use_entry t key r).1) v) in
    let first : (get_entry t key c).0 ≡ (use_entry t key s).0 =
      found ∙ ap (λ r. (use_entry t key r).0) v in
    (
      ap (λ x. x ∷ (replies (some (get_entry t key c).1) calls).0) first
          ∙ ap (λ xs. (use_entry t key s).0 ∷ xs) rest.0,
      rest.1,
    )
replies-view capacity ttl c s ((t, stores key e) ∷ calls) h f p q v =
    let (seen, kept) = put_entry-view t key e c h f in
    replies-view capacity ttl (put_entry t key e c) (store_entry capacity ttl t key e s) calls
      kept.synced kept.few (kept.same_capacity ∙ p) (kept.same_ttl ∙ q)
      (seen
        ∙ ap (λ m. store_entry m c.ttl t key e (view c)) p
        ∙ ap (λ m. store_entry capacity m t key e (view c)) q
        ∙ ap (store_entry capacity ttl t key e) v)
replies-view capacity ttl c s ((t, purges) ∷ calls) h f p q v =
    replies-view capacity ttl (purge_cache c).1 [] calls (empty-Sync c) (omega arith) p q
      (empty_view c)

new_cache_enabled :
    (ttl capacity : ℤ)
    → 0 < pos_part ttl
    → 0 < pos_part capacity
    → new_cache ttl capacity
      ≡ some (record {
        ttl = pos_part ttl;
        capacity = pos_part capacity;
        entries = [];
        order = [];
        hits = 0;
        misses = 0;
        stores = 0;
        evictions = 0;
      })
unfolding new_cache
new_cache_enabled ttl capacity h k = ground (arith, h, k)

new_cache-replies :
    (ttl capacity : ℤ) (calls : List (ℕ × CacheCall))
    → 0 < pos_part ttl
    → 0 < pos_part capacity
    → ((replies (new_cache ttl capacity) calls).0
        ≡ lru_replies (pos_part capacity) (pos_part ttl) [] calls)
      × ((cache_stats (replies (new_cache ttl capacity) calls).1).occupied ≤ pos_part capacity)
new_cache-replies ttl capacity calls h k =
    let fresh : Cache = record {
      ttl = pos_part ttl;
      capacity = pos_part capacity;
      entries = [];
      order = [];
      hits = 0;
      misses = 0;
      stores = 0;
      evictions = 0;
    } in
    let made : new_cache ttl capacity ≡ some fresh = new_cache_enabled ttl capacity h k in
    rw made (
      replies-view (pos_part capacity) (pos_part ttl) fresh [] calls (empty-Sync fresh)
        (omega arith) refl refl (empty_view fresh))

-- Over any sequence of lookups, stores and purges, a new cache answers every lookup as the list of
-- the last used entries does: an unexpired entry is found and moves to the front, an expired one is
-- dropped, and a store keeps the most recently used ones for which there is room. The time to live
-- and the capacity are positive.
pub replies-new :
    (ttl capacity : ℤ) (calls : List (ℕ × CacheCall))
    → 0 < pos_part ttl
    → 0 < pos_part capacity
    → (replies (new_cache ttl capacity) calls).0
      ≡ lru_replies (pos_part capacity) (pos_part ttl) [] calls
replies-new ttl capacity calls h k = (new_cache-replies ttl capacity calls h k).0

-- After any sequence of lookups, stores and purges, a new cache with a positive time to live and a
-- positive capacity holds no more entries than its capacity.
pub occupied_bound :
    (ttl capacity : ℤ) (calls : List (ℕ × CacheCall))
    → 0 < pos_part ttl
    → 0 < pos_part capacity
    → (cache_stats (replies (new_cache ttl capacity) calls).1).occupied ≤ pos_part capacity
occupied_bound ttl capacity calls h k = (new_cache-replies ttl capacity calls h k).1
