-- ===== src/LruCache/Recency.antt =====
-- The cache against its abstract view: the list of its entries, most recently used first.
use proto_relay.Base.{
  ℕ, zero, suc, ◌-◌, ◌≤◌, ◌<◌, true, none, some, List, [], ◌∷◌, ◌≡◌, refl, sym, ◌∙◌, inl, inr,
  arith, length, take, leb, Bool-cases, Option-cases, ap,
}
use proto_relay.Base.Eq.{KeyEq}
use proto_relay.Base.Assoc.{lookup, has_key, erase, has_key-lookup, length-erase, erase_absent}
use proto_relay.LruCache.{
  InternalEntry, LruCache, get, get_at, splice, put, put_new, assign, back_key, pop_back, evict,
  emplace_front,
}
use proto_relay.LruCache.Nodes.{back_key-none}
use proto_relay.LruCache.Valid.{IsValid, lookup_map-absent, lookup_map-some}

module _ {K V : Type 0} ⦃e : KeyEq K⦄ where
  lookup-assign :
      (it : K) (w : InternalEntry V) (l : List (K × InternalEntry V))
      → has_key it l ≡ true
      → lookup it (assign it w l) ≡ some w
  unfolding assign has_key lookup
  lookup-assign it w [] h = cc
  lookup-assign it w ((i, x) ∷ l) h = ground (arith, lookup-assign it w l)

  erase-assign :
      (it : K) (w : InternalEntry V) (l : List (K × InternalEntry V))
      → erase it (assign it w l) ≡ erase it l
  unfolding assign erase
  erase-assign it w [] = refl
  erase-assign it w ((i, x) ∷ l) = ground (arith, erase-assign it w l)

  take_all : (n : ℕ) (l : List (K × InternalEntry V)) → length l ≤ n → take n l ≡ l
  take_all zero [] h = refl
  take_all zero (x ∷ l) h = absurd (omega arith)
  take_all (suc n) [] h = refl
  take_all (suc n) (x ∷ l) h = ap (◌∷◌ x) (take_all n l (omega arith))

  pop_back-take :
      (n : ℕ) (l : List (K × InternalEntry V)) → length l ≡ suc n → pop_back l ≡ take n l
  unfolding pop_back
  pop_back-take n [] h = absurd (omega arith)
  pop_back-take zero (x ∷ []) h = refl
  pop_back-take (suc n) (x ∷ []) h = absurd (omega arith)
  pop_back-take zero (x ∷ y ∷ l) h = absurd (omega arith)
  pop_back-take (suc n) (x ∷ y ∷ l) h = ap (◌∷◌ x) (pop_back-take n (y ∷ l) (omega arith))

  pub take_front :
      (n : ℕ) (x : K × InternalEntry V) (l : List (K × InternalEntry V))
      → 0 < n
      → take n (x ∷ l) ≡ x ∷ take (n - 1) l
  take_front zero x l h = absurd (omega arith)
  take_front (suc n) x l h = ap (λ m. x ∷ take m l) (omega arith)

  evict_list : (c : LruCache K V) → 0 < length c.m_list → (evict c).m_list ≡ pop_back c.m_list
  unfolding evict
  evict_list c h = elim (Option-cases (back_key c.m_list)) [
    | inl none_left ↦ absurd (omega (arith, back_key-none c.m_list none_left))
    | inr (k, last) ↦ rw (last, evict)
  ]

  put_new-list :
      (c : LruCache K V) (k : K) (w : InternalEntry V)
      → IsValid c
      → (put_new k w c).m_list ≡ take c.m_capacity ((k, w) ∷ c.m_list)
  unfolding put_new emplace_front
  put_new-list c k w v =
      rw (take_front c.m_capacity (k, w) c.m_list v.positive)
        (elim (Bool-cases (leb c.m_capacity (length c.m_map))) [
          | inl full ↦ rw full (
              ap (◌∷◌ (k, w)) (
                let fits : length c.m_list ≡ suc (c.m_capacity - 1) =
                  ground (arith, v.sizes, v.bounded, v.positive) in
                evict_list c (omega arith) ∙ pop_back-take (c.m_capacity - 1) c.m_list fits))
          | inr room ↦ rw room (
              ap (◌∷◌ (k, w))
                (sym (take_all (c.m_capacity - 1) c.m_list (ground (arith, v.sizes)))))
        ])

  put_over-list :
      (c : LruCache K V) (it k : K) (w : InternalEntry V)
      → IsValid c
      → it ≡ k
      → has_key k c.m_list ≡ true
      → splice it (assign it w c.m_list) ≡ take c.m_capacity ((k, w) ∷ erase k c.m_list)
  unfolding splice
  put_over-list c it k w v same has = rw same (
      rw (lookup-assign k w c.m_list has, splice)
        (rw (erase-assign k w c.m_list)
          (sym (take_all c.m_capacity _ (ground (arith, length-erase k c.m_list, v.bounded))))))

  -- A hit moves its node to the front and reports its value, stale from the age `m_ttl` on; a
  -- miss changes nothing.
  pub get-recency :
      (k : K) (now : ℕ) (c : LruCache K V)
      → IsValid c
      → get k now c ≡ (elim (lookup k c.m_list) [
        | none ↦ (c, none)
        | some w ↦ (
          record c { m_list = (k, w) ∷ erase k c.m_list },
          some (record { out_value = w.value; out_stale = leb c.m_ttl (now - w.created) }),
        )
      ])
  unfolding get get_at splice
  get-recency k now c v = elim (Option-cases (lookup k c.m_list)) [
    | inl absent ↦ ground (arith, v.tied k, has_key-lookup k c.m_list)
    | inr (w, there) ↦ ground (arith, v.tied k, has_key-lookup k c.m_list)
  ]

  -- After `put` the list is the new entry in front of the others, cut to the capacity: the least
  -- recently used entry is the one that goes, and only where the key is new and the cache full.
  pub put-recency :
      (k : K) (x : V) (now : ℕ) (c : LruCache K V)
      → IsValid c
      → (put k x now c).m_list
        ≡ take c.m_capacity ((k, record { value = x; created = now }) ∷ erase k c.m_list)
  unfolding put
  put-recency k x now c v = elim (Option-cases (lookup k c.m_map)) [
    | inl absent ↦
        rw (absent, put)
          (rw (erase_absent k c.m_list (lookup_map-absent c k v absent)) (put_new-list c k _ v))
    | inr (it, there) ↦
        let (same, has) = lookup_map-some c k it v there in
        rw (there, put) (put_over-list c it k _ v same has)
  ]
