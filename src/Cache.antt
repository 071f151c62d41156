-- ===== src/Cache.antt =====
-- internal/cache/cache.go: the response cache, least recently used first out, with a time to live.
-- `entries` is the map, which holds the node that an element of the list carries; `order` holds the
-- keys of the list's elements, front first. Each operation runs under the lock, so it is one step;
-- `now` is what the clock says in it. A disabled cache is `none`, the nil pointer of the source.
pub mod Lru
pub mod View
pub mod Linked
pub mod Refines
pub mod Replies
use zealish_router.Base.{
  ℕ, zero, suc, ◌+◌, String, Bool, true, false, ◌||◌, Option, none, some, List, [], ◌∷◌, leb, ltb,
  if◌then◌else◌, Dict, lookup, insert, delete, str_eq, length, ℤ, pos, negsuc, pos_part, ◌==◌,
}

pub record Entry : Type 0 where
  pub body : String
  pub model : String
  pub stored_at : ℕ

pub record Node : Type 0 where
  pub entry : Entry
  pub expires : ℕ

pub record Cache : Type 0 where
  pub ttl : ℕ
  pub capacity : ℕ
  pub entries : Dict Node
  pub order : List String
  pub hits : ℕ
  pub misses : ℕ
  pub stores : ℕ
  pub evictions : ℕ

pub record CacheStats : Type 0 where
  pub occupied : ℕ
  pub capacity : ℕ
  pub hits : ℕ
  pub misses : ℕ
  pub stores : ℕ
  pub evictions : ℕ

-- `New`: a limit that is not positive disables the cache.
unfoldable pub new_cache : ℤ → ℤ → Option Cache
new_cache ttl capacity =
    if (pos_part ttl == 0) || (pos_part capacity == 0)
    then none
    else some (record {
      ttl = pos_part ttl;
      capacity = pos_part capacity;
      entries = [];
      order = [];
      hits = 0;
      misses = 0;
      stores = 0;
      evictions = 0;
    })

-- `order.Remove(elem)`: the element of this key leaves the list.
unfoldable pub unlink : String → List String → List String
unlink key [] = []
unlink key (k ∷ ks) = let later = unlink key ks in if str_eq k key then ks else k ∷ later

unfoldable pub remove : String → Cache → Cache
remove key c = record c { entries = delete key c.entries; order = unlink key c.order }

unfoldable pub move_to_front : String → Cache → Cache
move_to_front key c = record c { order = key ∷ unlink key c.order }

-- The key of `order.Back()`.
unfoldable pub back : List String → Option String
back [] = none
back (k ∷ ks) = elim (back ks) [ none ↦ some k | some last ↦ some last ]

abbrev pub get_node : ℕ → String → Cache → Option Node → Option Entry × Cache
get_node now key c none = (none, record c { misses = c.misses + 1 })
get_node now key c (some n) =
    if leb n.expires now
    then (none, record (remove key c) { misses = c.misses + 1 })
    else (some n.entry, record (move_to_front key c) { hits = c.hits + 1 })

abbrev pub get_entry : ℕ → String → Cache → Option Entry × Cache
get_entry now key c = get_node now key c (lookup key c.entries)

-- The loop of `Put` that makes room. Each round drops an element, so the length is fuel enough.
unfoldable pub evict : ℕ → Cache → Cache
evict zero c = c
evict (suc n) c = elim (back c.order) [
  | none ↦ c
  | some last ↦
      let smaller = remove last c in
      let rest = evict n (record smaller { evictions = smaller.evictions + 1 }) in
      if ltb c.capacity (length c.order) then rest else c
]

abbrev pub put_node : ℕ → String → Node → Cache → Option Node → Cache
put_node now key n c (some old) = move_to_front key (record c { entries = insert key n c.entries })
put_node now key n c none =
    evict (suc (length c.order))
      (record c { entries = insert key n c.entries; order = key ∷ c.order })

abbrev pub put_entry : ℕ → String → Entry → Cache → Cache
put_entry now key e c =
    let e' = record e { stored_at = now } in
    put_node now key (record { entry = e'; expires = now + c.ttl })
      (record c { stores = c.stores + 1 }) (lookup key c.entries)

abbrev pub purge_cache : Cache → ℕ × Cache
purge_cache c = (length c.order, record c { entries = []; order = [] })

abbrev pub stats_of : Cache → CacheStats
stats_of c = record {
  occupied = length c.order;
  capacity = c.capacity;
  hits = c.hits;
  misses = c.misses;
  stores = c.stores;
  evictions = c.evictions;
}

unfoldable pub get : ℕ → String → Option Cache → Option Entry × Option Cache
get now key none = (none, none)
get now key (some c) = let (found, c') = get_entry now key c in (found, some c')

unfoldable pub put : ℕ → String → Entry → Option Cache → Option Cache
put now key e none = none
put now key e (some c) = some (put_entry now key e c)

unfoldable pub purge : Option Cache → ℕ × Option Cache
purge none = (0, none)
purge (some c) = let (dropped, c') = purge_cache c in (dropped, some c')

unfoldable pub cache_stats : Option Cache → CacheStats
cache_stats none = record {
  occupied = 0;
  capacity = 0;
  hits = 0;
  misses = 0;
  stores = 0;
  evictions = 0;
}
cache_stats (some c) = stats_of c

unfoldable pub is_enabled : Option Cache → Bool
is_enabled none = false
is_enabled (some c) = true
