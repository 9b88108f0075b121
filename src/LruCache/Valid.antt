-- ===== src/LruCache/Valid.antt =====
-- The hash map and the node list of the cache agree, and every operation keeps them so.
use proto_relay.Base.{
  ℕ, ◌≤◌, ◌<◌, Bool, true, false, none, some, ◌≡◌, refl, inl, inr, arith, length, if◌then◌else◌,
  leb, Bool-cases, Option-cases,
}
use proto_relay.Base.Eq.{KeyEq}
use proto_relay.Base.Assoc.{
  lookup, has_key, erase, NodupKeys, has_key-lookup, has_key-erase, lookup-insert, lookup-erase,
  length-insert, length-erase, insert-NodupKeys, erase-NodupKeys,
}
use proto_relay.LruCache.{
  InternalEntry, LruCache, create, get, get_at, splice, put, put_new, assign, back_key, evict,
  emplace_front, invalidate, invalidate_if, clear, get_or_refresh,
}
use proto_relay.LruCache.Sweep.{
  has_key-sweep, sweep-NodupKeys, lookup-sweep, length-sweep, sweep_le,
}
use proto_relay.LruCache.Nodes.{
  has_key-splice, splice-NodupKeys, length-splice, has_key-assign, assign-NodupKeys, length-assign,
  has_key-back, pop_back-erase, back_key-none,
}

-- The map has exactly the keys of the list, each with the iterator of its own node; no key
-- occurs twice; there are at most `m_capacity` nodes.
pub record IsValid {K V : Type 0} ⦃e : KeyEq K⦄ (c : LruCache K V) : Type 0 where
  pub positive : 0 < c.m_capacity
  pub nodup_list : NodupKeys c.m_list
  pub nodup_map : NodupKeys c.m_map
  pub tied : (k : K) → lookup k c.m_map ≡ (if has_key k c.m_list then some k else none)
  pub sizes : length c.m_map ≡ length c.m_list
  pub bounded : length c.m_list ≤ c.m_capacity

module _ {K V : Type 0} ⦃e : KeyEq K⦄ where
  splice-IsValid :
      (c : LruCache K V) (it : K) → IsValid c → IsValid (record c { m_list = splice it c.m_list })
  splice-IsValid c it v = record {
    positive = v.positive;
    nodup_list = splice-NodupKeys it c.m_list v.nodup_list;
    nodup_map = v.nodup_map;
    tied = λ k. rw (has_key-splice it k c.m_list v.nodup_list) (v.tied k);
    sizes = omega (arith, v.sizes, length-splice it c.m_list);
    bounded = omega (arith, v.bounded, length-splice it c.m_list);
  }

  assign-IsValid :
      (c : LruCache K V) (it : K) (w : InternalEntry V)
      → IsValid c
      → IsValid (record c { m_list = assign it w c.m_list })
  assign-IsValid c it w v = record {
    positive = v.positive;
    nodup_list = assign-NodupKeys it w c.m_list v.nodup_list;
    nodup_map = v.nodup_map;
    tied = λ k. rw (has_key-assign it k w c.m_list) (v.tied k);
    sizes = omega (arith, v.sizes, length-assign it w c.m_list);
    bounded = omega (arith, v.bounded, length-assign it w c.m_list);
  }

  pub get-IsValid : (k : K) (now : ℕ) (c : LruCache K V) → IsValid c → IsValid (get k now c).0
  unfolding get get_at
  get-IsValid k now c v = elim (Option-cases (lookup k c.m_map)) [
    | inl e ↦ rw (e, get) v
    | inr (it, e) ↦ elim (Option-cases (lookup it c.m_list)) [
      | inl f ↦ rw (e, get, f, get_at) v
      | inr (w, f) ↦ rw (e, get, f, get_at) (splice-IsValid c it v)
    ]
  ]

  -- Removing one key from both the map and the list.
  erase-IsValid :
      (c : LruCache K V) (k : K)
      → IsValid c
      → IsValid (record c { m_list = erase k c.m_list; m_map = erase k c.m_map })
  erase-IsValid c k v = record {
    positive = v.positive;
    nodup_list = erase-NodupKeys k c.m_list v.nodup_list;
    nodup_map = erase-NodupKeys k c.m_map v.nodup_map;
    tied = λ j. ground (
      arith,
      lookup-erase k j c.m_map v.nodup_map,
      has_key-erase k j c.m_list v.nodup_list,
      v.tied j,
    );
    sizes = ground (
      arith,
      length-erase k c.m_map,
      length-erase k c.m_list,
      has_key-lookup k c.m_map,
      v.tied k,
      v.sizes,
    );
    bounded = ground (arith, length-erase k c.m_list, v.bounded);
  }

  pub evict-erase :
      (c : LruCache K V) (k : K)
      → IsValid c
      → back_key c.m_list ≡ some k
      → evict c ≡ record c { m_list = erase k c.m_list; m_map = erase k c.m_map }
  unfolding evict
  evict-erase c k v h = rw (h, evict) (rw (pop_back-erase c.m_list k v.nodup_list h))

  emplace_front-IsValid :
      (c : LruCache K V) (k : K) (w : InternalEntry V)
      → IsValid c
      → has_key k c.m_list ≡ false
      → length c.m_list < c.m_capacity
      → IsValid (emplace_front k w c)
  unfolding emplace_front has_key
  emplace_front-IsValid c k w v fresh room = record {
    positive = v.positive;
    nodup_list = (fresh, v.nodup_list);
    nodup_map = insert-NodupKeys k k c.m_map v.nodup_map;
    tied = λ j. ground (arith, lookup-insert k j k c.m_map, v.tied j, e.beq_iff k j);
    sizes = ground (arith, length-insert k k c.m_map, has_key-lookup k c.m_map, v.tied k, v.sizes);
    bounded = omega arith;
  }

  pub evict-IsValid : (c : LruCache K V) → IsValid c → IsValid (evict c)
  unfolding evict
  evict-IsValid c v = elim (Option-cases (back_key c.m_list)) [
    | inl none_left ↦ rw (none_left, evict) v
    | inr (k, last) ↦ rw (evict-erase c k v last) (erase-IsValid c k v)
  ]

  -- A full cache has room for one node after `evict`, and nothing that was absent appears.
  evict_room :
      (c : LruCache K V)
      → IsValid c
      → (length (evict c).m_list < (evict c).m_capacity) × ((evict c).m_capacity ≡ c.m_capacity)
  unfolding evict
  evict_room c v = elim (Option-cases (back_key c.m_list)) [
    | inl none_left ↦
        rw (none_left, evict) (omega (arith, back_key-none c.m_list none_left, v.positive), refl)
    | inr (k, last) ↦
        rw (evict-erase c k v last)
          (ground (arith, length-erase k c.m_list, has_key-back c.m_list k last, v.bounded), refl)
  ]

  evict_absent :
      (c : LruCache K V) (k : K)
      → IsValid c
      → has_key k c.m_list ≡ false
      → has_key k (evict c).m_list ≡ false
  evict_absent c k v h = elim (Option-cases (back_key c.m_list)) [
    | inl none_left ↦ (unfold evict in ground arith)
    | inr (j, last) ↦
        rw (evict-erase c j v last) (ground (arith, has_key-erase j k c.m_list v.nodup_list))
  ]

  pub put_new-IsValid :
      (c : LruCache K V) (k : K) (w : InternalEntry V)
      → IsValid c
      → has_key k c.m_list ≡ false
      → IsValid (put_new k w c)
  unfolding put_new
  put_new-IsValid c k w v fresh = elim (Bool-cases (leb c.m_capacity (length c.m_map))) [
    | inl full ↦ rw full (
        emplace_front-IsValid (evict c) k w (evict-IsValid c v) (evict_absent c k v fresh)
          (evict_room c v).0)
    | inr room ↦ rw room (emplace_front-IsValid c k w v fresh (ground (arith, v.sizes)))
  ]

  pub lookup_map-absent :
      (c : LruCache K V) (k : K) → IsValid c → lookup k c.m_map ≡ none → has_key k c.m_list ≡ false
  lookup_map-absent c k v h = ground (arith, v.tied k)

  -- An iterator in the map is that of its key's node.
  pub lookup_map-some :
      (c : LruCache K V) (k it : K)
      → IsValid c
      → lookup k c.m_map ≡ some it
      → (it ≡ k) × (has_key k c.m_list ≡ true)
  lookup_map-some c k it v h = ground (arith, v.tied k)

  pub put-IsValid :
      (k : K) (x : V) (now : ℕ) (c : LruCache K V) → IsValid c → IsValid (put k x now c)
  unfolding put
  put-IsValid k x now c v = elim (Option-cases (lookup k c.m_map)) [
    | inl absent ↦ rw (absent, put) (put_new-IsValid c k _ v (lookup_map-absent c k v absent))
    | inr (it, there) ↦
        rw (there, put)
          (splice-IsValid (record c { m_list = assign it _ c.m_list }) it (assign-IsValid c it _ v))
  ]

  pub invalidate-IsValid : (k : K) (c : LruCache K V) → IsValid c → IsValid (invalidate k c)
  unfolding invalidate
  invalidate-IsValid k c v = elim (Option-cases (lookup k c.m_map)) [
    | inl absent ↦ rw (absent, invalidate) v
    | inr (it, there) ↦
        rw (there, invalidate) (rw (lookup_map-some c k it v there).0 (erase-IsValid c k v))
  ]

  pub clear-IsValid : (c : LruCache K V) → IsValid c → IsValid (clear c)
  unfolding clear lookup has_key
  clear-IsValid c v = record {
    positive = v.positive;
    nodup_list = tt;
    nodup_map = tt;
    tied = λ k. refl;
    sizes = refl;
    bounded = omega arith;
  }

  pub create-IsValid : (capacity ttl : ℕ) → IsValid (create K V capacity ttl)
  unfolding create lookup has_key
  create-IsValid capacity ttl = record {
    positive = ground arith;
    nodup_list = tt;
    nodup_map = tt;
    tied = λ k. refl;
    sizes = refl;
    bounded = omega arith;
  }

  pub get_or_refresh-IsValid :
      (k : K) (x : V) (now later : ℕ) (c : LruCache K V)
      → IsValid c
      → IsValid (get_or_refresh k x now later c).0
  unfolding get_or_refresh
  get_or_refresh-IsValid k x now later c v = elim (Option-cases (get k now c).1) [
    | inl missed ↦ rw (missed, get_or_refresh) (put-IsValid k x later _ (get-IsValid k now c v))
    | inr (hit, found) ↦ rw (found, get_or_refresh) (get-IsValid k now c v)
  ]

  pub invalidate_if-IsValid :
      (pred : K → Bool) (c : LruCache K V) → IsValid c → IsValid (invalidate_if pred c)
  unfolding invalidate_if
  invalidate_if-IsValid pred c v = record {
    positive = v.positive;
    nodup_list = (sweep-NodupKeys pred c.m_list c.m_map v.nodup_list v.nodup_map).0;
    nodup_map = (sweep-NodupKeys pred c.m_list c.m_map v.nodup_list v.nodup_map).1;
    tied = λ j. ground (
      arith,
      lookup-sweep pred j c.m_list c.m_map v.nodup_map,
      has_key-sweep pred j c.m_list c.m_map,
      v.tied j,
    );
    sizes = omega (
      arith,
      v.sizes,
      length-sweep pred c.m_list c.m_map v.nodup_list v.nodup_map
          (λ j there. ground (arith, v.tied j, there, has_key-lookup j c.m_map)),
    );
    bounded = omega (arith, sweep_le pred c.m_list c.m_map, v.bounded);
  }
