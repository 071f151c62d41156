-- ===== src/Cache/Linked.antt =====
-- The map and the list of the cache stay in step, and what each change does to the one list.
use zealish_router.Base.{
  ℕ, zero, suc, ◌+◌, ◌-◌, ◌≤◌, ◌<◌, ◌≡◌, refl, sym, ◌∙◌, ap, String, true, false, none, some, List,
  [], ◌∷◌, arith, lookup, insert, lookup-insert, lookup-delete, lookup-insert_self, str_eq_refl,
  eq_iff, ltb, length, take, contains, is_bound, Bool-cases, Option-cases, inl, inr,
}
use zealish_router.Cache.{Cache, Node, unlink, back, evict, remove, move_to_front}
use zealish_router.Cache.Lru.{Lru, find, without}
use zealish_router.Cache.View.{
  items, NoRepeat, Held, items_cons, find-items, contains-unlink, unlink-NoRepeat, items-unlink,
  items-delete, items-insert, without_absent, back-contains, unlink-back, length-items, items-take,
  held,
}

abbrev pub view : Cache → Lru
view c = items c.entries c.order

-- The map and the list have the same keys, each once.
pub record Sync (c : Cache) : Type 0 where
  pub distinct : NoRepeat c.order
  pub covers : (k : String) → contains c.order k ≡ is_bound (lookup k c.entries)

pub find-view : (c : Cache) (key : String) → Sync c → find key (view c) ≡ lookup key c.entries
find-view c key s = ground (arith, find-items c.entries c.order key, s.covers key)

pub length-unlink :
    (key : String) (ks : List String)
    → (length (unlink key ks) ≤ length ks)
      × (contains ks key ≡ true → suc (length (unlink key ks)) ≡ length ks)
unfolding unlink
length-unlink key [] = (omega arith, λ h. ground (arith, h))
length-unlink key (k ∷ ks) = ground (arith, length-unlink key ks)

pub remove-Sync : (key : String) (c : Cache) → Sync c → Sync (remove key c)
unfolding remove
remove-Sync key c s = record {
  distinct = unlink-NoRepeat key c.order s.distinct;
  covers = λ k.
      ground (
        arith,
        contains-unlink key k c.order s.distinct,
        lookup-delete key k c.entries,
        s.covers k,
      );
}

pub remove-view : (key : String) (c : Cache) → Sync c → view (remove key c) ≡ without key (view c)
unfolding remove
remove-view key c s =
    items-delete c.entries key (unlink key c.order)
      (ground (arith, contains-unlink key key c.order s.distinct, str_eq_refl key))
    ∙ items-unlink c.entries key c.order s.distinct

pub front-Sync :
    (key : String) (n : Node) (c : Cache)
    → Sync c
    → Sync (move_to_front key (record c { entries = insert key n c.entries }))
unfolding move_to_front
front-Sync key n c s = record {
  distinct = (
    ground (arith, contains-unlink key key c.order s.distinct, str_eq_refl key),
    unlink-NoRepeat key c.order s.distinct,
  );
  covers = λ k. ground (
    arith,
    contains-unlink key k c.order s.distinct,
    lookup-insert key k n c.entries,
    s.covers k,
  );
}

pub front-view :
    (key : String) (n : Node) (c : Cache)
    → Sync c
    → view (move_to_front key (record c { entries = insert key n c.entries }))
      ≡ (key, n) ∷ without key (view c)
unfolding move_to_front
front-view key n c s =
    let gone : contains (unlink key c.order) key ≡ false =
      ground (arith, contains-unlink key key c.order s.distinct, str_eq_refl key) in
    items_cons (insert key n c.entries) key n (unlink key c.order)
      (lookup-insert_self key n c.entries)
    ∙ (ap (λ r. (key, n) ∷ r)
        (items-insert c.entries key n (unlink key c.order) gone
          ∙ items-unlink c.entries key c.order s.distinct))

-- The same for a use, which stores nothing.
pub touch-Sync :
    (key : String) (c : Cache) → Sync c → contains c.order key ≡ true → Sync (move_to_front key c)
unfolding move_to_front
touch-Sync key c s h = record {
  distinct = (
    ground (arith, contains-unlink key key c.order s.distinct, str_eq_refl key),
    unlink-NoRepeat key c.order s.distinct,
  );
  covers =
      λ k. ground (arith, contains-unlink key k c.order s.distinct, s.covers k, eq_iff key k, h);
}

pub touch-view :
    (key : String) (n : Node) (c : Cache)
    → Sync c
    → lookup key c.entries ≡ some n
    → view (move_to_front key c) ≡ (key, n) ∷ without key (view c)
unfolding move_to_front
touch-view key n c s h =
    items_cons c.entries key n (unlink key c.order) h
    ∙ (ap (λ r. (key, n) ∷ r) (items-unlink c.entries key c.order s.distinct))

pub push-Sync :
    (key : String) (n : Node) (c : Cache)
    → Sync c
    → lookup key c.entries ≡ none
    → Sync (record c { entries = insert key n c.entries; order = key ∷ c.order })
push-Sync key n c s h = record {
  distinct = (ground (arith, s.covers key, h), s.distinct);
  covers = λ k. ground (arith, lookup-insert key k n c.entries, s.covers k);
}

pub push-view :
    (key : String) (n : Node) (c : Cache)
    → Sync c
    → lookup key c.entries ≡ none
    → items (insert key n c.entries) (key ∷ c.order) ≡ (key, n) ∷ without key (view c)
push-view key n c s h =
    let gone : contains c.order key ≡ false = ground (arith, s.covers key, h) in
    items_cons (insert key n c.entries) key n c.order (lookup-insert_self key n c.entries)
    ∙ (ap (λ r. (key, n) ∷ r)
        (items-insert c.entries key n c.order gone
          ∙ sym (without_absent c.entries key c.order gone)))

back-none : (ks : List String) → back ks ≡ none → length ks ≡ 0
unfolding back
back-none [] h = refl
back-none (k ∷ ks) h = ground (arith, h)

evict_idle : (n : ℕ) (c : Cache) → length c.order ≤ c.capacity → evict n c ≡ c
unfolding evict
evict_idle zero c h = refl
evict_idle (suc n) c h = ground arith

pub order-Held : (c : Cache) → Sync c → Held c.entries c.order
order-Held c s = held c.entries c.order (λ k h. sym (s.covers k) ∙ h)

last_out :
    (last : String) (c : Cache)
    → Sync c
    → back c.order ≡ some last
    → view (remove last c) ≡ take (length c.order - 1) (view c)
unfolding remove
last_out last c s h =
    items-delete c.entries last (unlink last c.order)
      (ground (arith, contains-unlink last last c.order s.distinct, str_eq_refl last))
    ∙ ap (items c.entries) (unlink-back c.order last s.distinct h)
    ∙ items-take c.entries (length c.order - 1) c.order (order-Held c s)

pub take_all : {A : Type 0} (n : ℕ) (xs : List A) → length xs ≤ n → take n xs ≡ xs
take_all zero [] h = refl
take_all (suc n) [] h = refl
take_all zero (x ∷ xs) h = ground (arith, h)
take_all (suc n) (x ∷ xs) h = ap (λ r. x ∷ r) (take_all n xs (omega (arith, h)))

abbrev dropped : String → Cache → Cache
dropped last c = record (remove last c) { evictions = c.evictions + 1 }

evict_full :
    (n : ℕ) (c : Cache) (last : String)
    → ltb c.capacity (length c.order) ≡ true
    → back c.order ≡ some last
    → evict (suc n) c ≡ evict n (dropped last c)
unfolding evict remove
evict_full n c last h b = ground (arith, h, b)

dropped_view : (last : String) (c : Cache) → view (dropped last c) ≡ view (remove last c)
dropped_view last c = refl

dropped_lem :
    (last : String) (c : Cache)
    → Sync c
    → back c.order ≡ some last
    → length c.order ≤ c.capacity + 1
    → Sync (dropped last c)
      × (length (dropped last c).order ≤ (dropped last c).capacity)
      × ((dropped last c).capacity ≡ c.capacity)
      × ((dropped last c).ttl ≡ c.ttl)
unfolding remove
dropped_lem last c s b f =
    let synced = remove-Sync last c s in
    let shorter = (length-unlink last c.order).1 (back-contains c.order last b) in
    (
      record { distinct = synced.distinct; covers = synced.covers },
      omega (arith, shorter, f),
      refl,
      refl,
    )

-- One element too many: the last one goes.
pub evicted :
    (n : ℕ) (c : Cache)
    → Sync c
    → length c.order ≤ c.capacity + 1
    → let c' = evict (suc n) c in
      (view c' ≡ take c.capacity (view c))
      × Sync c'
      × (length c'.order ≤ c'.capacity)
      × (c'.capacity ≡ c.capacity)
      × (c'.ttl ≡ c.ttl)
evicted n c s f = elim (Bool-cases (ltb c.capacity (length c.order))) [
  | inr fits ↦
      let few : length c.order ≤ c.capacity = ground (arith, fits) in
      rw (evict_idle (suc n) c few) (
        sym (
            take_all c.capacity (view c)
              (omega (arith, few, length-items c.entries c.order (order-Held c s)))),
        s,
        few,
        refl,
        refl,
      )
  | inl full ↦ elim (Option-cases (back c.order)) [
    | inl b ↦ ground (arith, full, back-none c.order b)
    | inr (last, b) ↦
        let over : c.capacity < length c.order = ground (arith, full) in
        let room : length c.order - 1 ≡ c.capacity = omega (arith, over, f) in
        let (synced, few, same_capacity, same_ttl) = dropped_lem last c s b f in
        rw (evict_full n c last full b ∙ evict_idle n (dropped last c) few) (
          dropped_view last c ∙ last_out last c s b ∙ ap (λ m. take m (view c)) room,
          synced,
          few,
          same_capacity,
          same_ttl,
        )
  ]
]
