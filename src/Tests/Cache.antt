-- ===== src/Tests/Cache.antt =====
-- internal/cache/cache.go at fixed inputs.
use zealish_router.Base.{
  ℕ, ◌≤◌, ◌≡◌, refl, none, some, List, [], ◌∷◌, arith, pos, String, insert, delete, lookup,
}
use zealish_router.Cache.{
  Entry, new_cache, cache_stats, get, put, purge, evict, remove, unlink, move_to_front, back,
}
use zealish_router.Cache.Replies.{
  CacheCall, asks, stores, purges, replies, lru_replies, replies-new, occupied_bound,
}

abbrev page : String → Entry
page text = record { body = text; model = "gpt"; stored_at = 0 }

-- Two entries fit; the lookup of the first keeps it, and the second goes.
abbrev session : List (ℕ × CacheCall)
session =
    (0, stores "a" (page "1"))
    ∷ (1, stores "b" (page "2"))
    ∷ (2, asks "a")
    ∷ (3, stores "c" (page "3"))
    ∷ (4, asks "b")
    ∷ (5, asks "c")
    ∷ (60, asks "a")
    ∷ (61, purges)
    ∷ (62, asks "c")
    ∷ []

replies-session :
    (replies (new_cache (pos 60) (pos 2)) session).0
    ≡ some (page "1") ∷ none ∷ some (record (page "3") { stored_at = 3 }) ∷ none ∷ none ∷ []
unfolding replies new_cache get put purge evict remove unlink move_to_front back insert delete
    lookup
replies-session = refl

replies-new_example : (replies (new_cache (pos 60) (pos 2)) session).0 ≡ lru_replies 2 60 [] session
replies-new_example = replies-new (pos 60) (pos 2) session (omega arith) (omega arith)

occupied_bound_example : (cache_stats (replies (new_cache (pos 60) (pos 2)) session).1).occupied ≤ 2
occupied_bound_example = occupied_bound (pos 60) (pos 2) session (omega arith) (omega arith)
