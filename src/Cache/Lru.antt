-- ===== src/Cache/Lru.antt =====
-- What the response cache promises, as one list of keys with their nodes, last used first.
use zealish_router.Base.{
  ℕ, ◌+◌, String, Option, none, some, List, [], ◌∷◌, leb, if◌then◌else◌, str_eq, take,
}
use zealish_router.Cache.{Entry, Node}

abbrev pub Lru : Type 0
Lru = List (String × Node)

unfoldable pub find : String → Lru → Option Node
find key [] = none
find key ((k, n) ∷ rest) = let later = find key rest in if str_eq k key then some n else later

unfoldable pub without : String → Lru → Lru
without key [] = []
without key ((k, n) ∷ rest) =
    let later = without key rest in if str_eq k key then later else (k, n) ∷ later

-- A use moves the entry to the front; one that has expired is dropped.
abbrev pub use_node : ℕ → String → Lru → Option Node → Option Entry × Lru
use_node now key s none = (none, s)
use_node now key s (some n) =
    if leb n.expires now then (none, without key s) else (some n.entry, (key, n) ∷ without key s)

unfoldable pub use_entry : ℕ → String → Lru → Option Entry × Lru
use_entry now key s = use_node now key s (find key s)

-- A store puts the entry first and keeps as many as there is room for.
unfoldable pub store_entry : ℕ → ℕ → ℕ → String → Entry → Lru → Lru
store_entry capacity ttl now key e s =
    take capacity
      ((key, record { entry = record e { stored_at = now }; expires = now + ttl }) ∷ without key s)
