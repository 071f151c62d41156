-- ===== src/Cache/Refines.antt =====
-- The cache's operations do what the list of its entries says.
use zealish_router.Base.{
  ℕ, ◌+◌, ◌≤◌, ◌≡◌, refl, sym, ◌∙◌, ap, String, true, Option, none, some, ◌∷◌, arith, lookup,
  insert, leb, length, take, contains, Bool-cases, inl, inr,
}
use zealish_router.Cache.{
  Cache, Entry, Node, remove, move_to_front, get_entry, get_node, put_entry, put_node,
}
use zealish_router.Cache.Lru.{without, use_entry, use_node, store_entry}
use zealish_router.Cache.View.{items, length-items}
use zealish_router.Cache.Linked.{
  view, Sync, find-view, length-unlink, remove-Sync, remove-view, front-Sync, front-view,
  touch-Sync, touch-view, push-Sync, push-view, order-Held, take_all, evicted,
}

-- What an operation leaves: the map and the list agree, there is room, and the settings stay.
pub record Keeps (c c' : Cache) : Type 0 where
  pub synced : Sync c'
  pub few : length c'.order ≤ c'.capacity
  pub same_capacity : c'.capacity ≡ c.capacity
  pub same_ttl : c'.ttl ≡ c.ttl

remove-Keeps :
    (key : String) (c : Cache) → Sync c → length c.order ≤ c.capacity → Keeps c (remove key c)
unfolding remove
remove-Keeps key c s f =
    let synced = remove-Sync key c s in
    record {
      synced = record { distinct = synced.distinct; covers = synced.covers };
      few = omega (arith, (length-unlink key c.order).0, f);
      same_capacity = refl;
      same_ttl = refl;
    }

touch-Keeps :
    (key : String) (c : Cache)
    → Sync c
    → length c.order ≤ c.capacity
    → contains c.order key ≡ true
    → Keeps c (move_to_front key c)
unfolding move_to_front
touch-Keeps key c s f h =
    let synced = touch-Sync key c s h in
    record {
      synced = record { distinct = synced.distinct; covers = synced.covers };
      few = omega (arith, (length-unlink key c.order).1 h, f);
      same_capacity = refl;
      same_ttl = refl;
    }

-- The counters are no part of it.
counted :
    (c c' : Cache) (hits misses : ℕ)
    → Keeps c c'
    → Keeps c (record c' { hits = hits; misses = misses })
counted c c' hits misses k = record {
  synced = record { distinct = k.synced.distinct; covers = k.synced.covers };
  few = k.few;
  same_capacity = k.same_capacity;
  same_ttl = k.same_ttl;
}

got :
    (now : ℕ) (key : String) (c : Cache) (o : Option Node)
    → Sync c
    → length c.order ≤ c.capacity
    → lookup key c.entries ≡ o
    → ((get_node now key c o).0 ≡ (use_node now key (view c) o).0)
      × (view (get_node now key c o).1 ≡ (use_node now key (view c) o).1)
      × Keeps c (get_node now key c o).1
got now key c none s f h = (
  refl,
  refl,
  counted c c c.hits (c.misses + 1)
      (record { synced = s; few = f; same_capacity = refl; same_ttl = refl }),
)
got now key c (some n) s f h = elim (Bool-cases (leb n.expires now)) [
  | inl old ↦ rw old (
    refl,
    remove-view key c s,
    counted c (remove key c) (remove key c).hits (c.misses + 1) (remove-Keeps key c s f),
  )
  | inr new ↦
      let there : contains c.order key ≡ true = ground (arith, s.covers key, h) in
      rw new (
        refl,
        touch-view key n c s h,
        counted c (move_to_front key c) (c.hits + 1) (move_to_front key c).misses
            (touch-Keeps key c s f there),
      )
]

pub get_entry-view :
    (now : ℕ) (key : String) (c : Cache)
    → Sync c
    → length c.order ≤ c.capacity
    → ((get_entry now key c).0 ≡ (use_entry now key (view c)).0)
      × (view (get_entry now key c).1 ≡ (use_entry now key (view c)).1)
      × Keeps c (get_entry now key c).1
unfolding use_entry lookup items
get_entry-view now key c s f =
    rw (find-view c key s) (got now key c (lookup key c.entries) s f refl)

moved_room :
    (key : String) (n : Node) (c : Cache)
    → contains c.order key ≡ true
    → length c.order ≤ c.capacity
    → length (move_to_front key (record c { entries = insert key n c.entries })).order ≤ c.capacity
unfolding move_to_front
moved_room key n c h f = omega (arith, (length-unlink key c.order).1 h, f)

moved-Keeps :
    (key : String) (n : Node) (c : Cache)
    → Sync (move_to_front key (record c { entries = insert key n c.entries }))
    → length (move_to_front key (record c { entries = insert key n c.entries })).order ≤ c.capacity
    → Keeps c (move_to_front key (record c { entries = insert key n c.entries }))
unfolding move_to_front
moved-Keeps key n c s f = record { synced = s; few = f; same_capacity = refl; same_ttl = refl }

stored :
    (now : ℕ) (key : String) (n : Node) (c : Cache) (o : Option Node)
    → Sync c
    → length c.order ≤ c.capacity
    → lookup key c.entries ≡ o
    → (view (put_node now key n c o) ≡ take c.capacity ((key, n) ∷ without key (view c)))
      × Keeps c (put_node now key n c o)
stored now key n c none s f h =
    let pushed : Cache = record c { entries = insert key n c.entries; order = key ∷ c.order } in
    let (seen, synced, few, same_capacity, same_ttl) =
      evicted (length c.order) pushed (push-Sync key n c s h) (omega (arith, f)) in
    (
      seen ∙ ap (λ r. take c.capacity r) (push-view key n c s h),
      record { synced = synced; few = few; same_capacity = same_capacity; same_ttl = same_ttl },
    )
stored now key n c (some old) s f h =
    let there : contains c.order key ≡ true = ground (arith, s.covers key, h) in
    let moved : Cache = move_to_front key (record c { entries = insert key n c.entries }) in
    let synced : Sync moved = front-Sync key n c s in
    let seen : view moved ≡ (key, n) ∷ without key (view c) = front-view key n c s in
    let few : length moved.order ≤ c.capacity = moved_room key n c there f in
    let long : length (view moved) ≡ length moved.order =
      length-items moved.entries moved.order (order-Held moved synced) in
    (
      sym (take_all c.capacity (view moved) (omega (arith, long, few)))
          ∙ ap (λ r. take c.capacity r) seen,
      moved-Keeps key n c synced few,
    )

pub put_entry-view :
    (now : ℕ) (key : String) (e : Entry) (c : Cache)
    → Sync c
    → length c.order ≤ c.capacity
    → (view (put_entry now key e c) ≡ store_entry c.capacity c.ttl now key e (view c))
      × Keeps c (put_entry now key e c)
unfolding store_entry
put_entry-view now key e c s f =
    let (seen, kept) =
      stored now key (record { entry = record e { stored_at = now }; expires = now + c.ttl })
        (record c { stores = c.stores + 1 }) (lookup key c.entries)
        (record { distinct = s.distinct; covers = s.covers }) f refl in
    (
      seen,
      record {
        synced = kept.synced;
        few = kept.few;
        same_capacity = kept.same_capacity;
        same_ttl = kept.same_ttl;
      },
    )
