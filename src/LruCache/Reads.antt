-- ===== src/LruCache/Reads.antt =====
-- What a later `get` returns after a write to the cache or an invalidation.
use proto_relay.Base.{true}
use proto_relay.Base.{◌∙◌}
use proto_relay.LruCache.{put_new, evict, emplace_front, get_at}
use proto_relay.LruCache.Recency.{put-recency, take_front}
use proto_relay.Base.Assoc.{beq_refl}
use proto_relay.Base.{
  ℕ, ◌-◌, Bool, Option, none, some, List, [], ◌∷◌, ◌≡◌, arith, if◌then◌else◌, leb, inl, inr,
  Option-cases,
}
use proto_relay.Base.Eq.{KeyEq}
use proto_relay.Base.Assoc.{lookup, erase, NodupKeys, lookup-erase, erase_absent}
use proto_relay.LruCache.{
  InternalEntry, Hit, LruCache, get, put, invalidate, invalidate_if, sweep, clear, get_or_refresh,
}
use proto_relay.LruCache.Valid.{
  IsValid, lookup_map-absent, lookup_map-some, get-IsValid, put-IsValid, invalidate-IsValid,
  invalidate_if-IsValid, clear-IsValid, get_or_refresh-IsValid,
}
use proto_relay.LruCache.Recency.{get-recency}

-- What `get` reports of an entry, or of none.
abbrev pub report : {V : Type 0} → ℕ → ℕ → Option (InternalEntry V) → Option (Hit V)
report ttl now none = none
report ttl now (some w) =
    some (record { out_value = w.value; out_stale = leb ttl (now - w.created) })

module _ {K V : Type 0} ⦃e : KeyEq K⦄ where
  -- Every operation keeps the map and the list of the cache in agreement and within capacity.
  pub operations-IsValid :
      (k : K) (x : V) (pred : K → Bool) (now later : ℕ) (c : LruCache K V)
      → IsValid c
      → IsValid (get k now c).0
        × IsValid (put k x now c)
        × IsValid (invalidate k c)
        × IsValid (invalidate_if pred c)
        × IsValid (clear c)
        × IsValid (get_or_refresh k x now later c).0
  operations-IsValid k x pred now later c v = (
    get-IsValid k now c v,
    put-IsValid k x now c v,
    invalidate-IsValid k c v,
    invalidate_if-IsValid pred c v,
    clear-IsValid c v,
    get_or_refresh-IsValid k x now later c v,
  )

  pub get-report :
      (k : K) (now : ℕ) (c : LruCache K V)
      → IsValid c
      → (get k now c).1 ≡ report c.m_ttl now (lookup k c.m_list)
  get-report k now c v = rw (get-recency k now c v) (elim (Option-cases (lookup k c.m_list)) [
    | inl absent ↦ ground arith
    | inr (w, there) ↦ ground arith
  ])

  invalidate-list :
      (k : K) (c : LruCache K V) → IsValid c → (invalidate k c).m_list ≡ erase k c.m_list
  unfolding invalidate
  invalidate-list k c v = elim (Option-cases (lookup k c.m_map)) [
    | inl absent ↦
        rw (absent, invalidate)
          (ground (arith, erase_absent k c.m_list (lookup_map-absent c k v absent)))
    | inr (it, there) ↦ rw (there, invalidate) (ground (arith, lookup_map-some c k it v there))
  ]

  invalidate-ttl : (k : K) (c : LruCache K V) → (invalidate k c).m_ttl ≡ c.m_ttl
  unfolding invalidate
  invalidate-ttl k c = ground arith

  -- After `invalidate(k)` a `get` of `k` misses, and a `get` of any other key answers as before.
  pub get-invalidate :
      (k j : K) (now : ℕ) (c : LruCache K V)
      → IsValid c
      → (get j now (invalidate k c)).1 ≡ (if e.beq k j then none else (get j now c).1)
  get-invalidate k j now c v = rw (get-report j now (invalidate k c) (invalidate-IsValid k c v)) (
      rw (get-report j now c v, invalidate-list k c v, invalidate-ttl k c)
        (rw (lookup-erase k j c.m_list v.nodup_list) (ground arith)))

  sweep-lookup_list :
      (pred : K → Bool) (j : K) (l : List (K × InternalEntry V)) (m : List (K × K))
      → NodupKeys l
      → lookup j (sweep pred l m).0 ≡ (if pred j then none else lookup j l)
  unfolding sweep lookup
  sweep-lookup_list pred j [] m n = ground arith
  sweep-lookup_list pred j ((k, w) ∷ l) m n =
      ground
        (arith, sweep-lookup_list pred j l (if pred k then erase k m else m) n.1, e.beq_iff k j)

  -- After `invalidate_if(pred)` a `get` misses exactly the keys that satisfy `pred`, among those
  -- that it found before, and answers the others as before.
  pub get-invalidate_if :
      (pred : K → Bool) (j : K) (now : ℕ) (c : LruCache K V)
      → IsValid c
      → (get j now (invalidate_if pred c)).1 ≡ (if pred j then none else (get j now c).1)
  unfolding invalidate_if
  get-invalidate_if pred j now c v =
      rw (get-report j now (invalidate_if pred c) (invalidate_if-IsValid pred c v)) (
        rw (get-report j now c v, sweep-lookup_list pred j c.m_list c.m_map v.nodup_list)
          (ground arith))

  put-ttl : (k : K) (x : V) (now : ℕ) (c : LruCache K V) → (put k x now c).m_ttl ≡ c.m_ttl
  unfolding put put_new evict emplace_front
  put-ttl k x now c = ground arith

  get-ttl : (k : K) (now : ℕ) (c : LruCache K V) → (get k now c).0.m_ttl ≡ c.m_ttl
  unfolding get get_at
  get-ttl k now c = ground arith

  lookup-put_self :
      (k : K) (x : V) (now : ℕ) (c : LruCache K V)
      → IsValid c
      → lookup k (put k x now c).m_list ≡ some (record { value = x; created = now })
  unfolding lookup
  lookup-put_self k x now c v = rw (put-recency k x now c v) (
      rw (take_front c.m_capacity (k, _) (erase k c.m_list) v.positive)
        (ground (arith, beq_refl k)))

  -- A `get` of the key that was just put returns the value, whatever the cache held and however
  -- full it was, and calls it stale exactly from the age `m_ttl` on.
  pub get-put_self :
      (k : K) (x : V) (now later : ℕ) (c : LruCache K V)
      → IsValid c
      → (get k later (put k x now c)).1
        ≡ some (record { out_value = x; out_stale = leb c.m_ttl (later - now) })
  get-put_self k x now later c v =
      rw (get-report k later (put k x now c) (put-IsValid k x now c v))
        (rw (lookup-put_self k x now c v, put-ttl k x now c))

  lookup-get_self :
      (k : K) (now : ℕ) (c : LruCache K V) (w : InternalEntry V)
      → IsValid c
      → lookup k c.m_list ≡ some w
      → lookup k (get k now c).0.m_list ≡ some w
  unfolding lookup
  lookup-get_self k now c w v there = ground (arith, get-recency k now c v, there, beq_refl k)

  -- What one `get` found the next one finds.
  pub get-get :
      (k : K) (now later : ℕ) (c : LruCache K V) {hit : Hit V}
      → IsValid c
      → (get k now c).1 ≡ some hit
      → (get k later (get k now c).0).1
        ≡ some (record hit {
          out_stale = elim (lookup k c.m_list) [
            | none ↦ true
            | some w ↦ leb c.m_ttl (later - w.created)
          ];
        })
  get-get k now later c {hit} v found = elim (Option-cases (lookup k c.m_list)) [
    | inl absent ↦ absurd (cc (found, get-report k now c v, absent))
    | inr (w, there) ↦
        get-report k later (get k now c).0 (get-IsValid k now c v)
        ∙ rw (lookup-get_self k now c w v there, get-ttl k now c)
            (ground (arith, found, get-report k now c v, there))
  ]
