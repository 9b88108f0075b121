-- ===== src/Tests/Cache.antt =====
-- include/framework/cache/lru_cache.h at concrete inputs.
use proto_relay.Base.{ℕ, false, none, some, ◌∷◌, ◌≡◌, refl, take, leb, ◌==◌, ◌-◌}
use proto_relay.Base.Eq.{nat_key}
use proto_relay.Base.Assoc.{lookup, insert, erase}
use proto_relay.LruCache.{
  LruCache, create, get, put, invalidate, invalidate_if, clear, get_or_refresh,
}
use proto_relay.LruCache.Valid.{IsValid, create-IsValid, put-IsValid}
use proto_relay.LruCache.Recency.{get-recency, put-recency}
use proto_relay.LruCache.Reads.{operations-IsValid}

abbrev one_entry : LruCache ℕ ℕ
one_entry = put 1 10 100 (create ℕ ℕ 2 5)

-- A full cache: key 2 in front of key 1.
abbrev two_entries : LruCache ℕ ℕ
two_entries = put 2 20 101 one_entry

two_entries-IsValid : IsValid two_entries
two_entries-IsValid = put-IsValid 2 20 101 one_entry (put-IsValid 1 10 100 _ (create-IsValid 2 5))

-- The oldest entry goes when a third key comes.
evicts_oldest : (get 1 102 (put 3 30 102 two_entries)).1 ≡ none
unfolding get put create erase lookup insert
evicts_oldest = refl

-- A read keeps its key from being the oldest.
read_refreshes :
    (get 1 103 (put 3 30 102 (get 1 102 two_entries).0)).1
    ≡ some (record { out_value = 10; out_stale = false })
unfolding get put create erase lookup insert
read_refreshes = refl

operations-IsValid_example :
    IsValid (get 1 102 two_entries).0
    × IsValid (put 1 11 102 two_entries)
    × IsValid (invalidate 1 two_entries)
    × IsValid (invalidate_if (λ k. k == 1) two_entries)
    × IsValid (clear two_entries)
    × IsValid (get_or_refresh 1 11 102 103 two_entries).0
operations-IsValid_example =
    operations-IsValid 1 11 (λ k. k == 1) 102 103 two_entries two_entries-IsValid

put-recency_example :
    (put 3 30 102 two_entries).m_list
    ≡ take two_entries.m_capacity
        ((3, record { value = 30; created = 102 }) ∷ erase 3 two_entries.m_list)
put-recency_example = put-recency 3 30 102 two_entries two_entries-IsValid

get-recency_example : get 1 102 two_entries ≡ (elim (lookup 1 two_entries.m_list) [
  | none ↦ (two_entries, none)
  | some w ↦ (
    record two_entries { m_list = (1, w) ∷ erase 1 two_entries.m_list },
    some (record { out_value = w.value; out_stale = leb two_entries.m_ttl (102 - w.created) }),
  )
])
get-recency_example = get-recency 1 102 two_entries two_entries-IsValid
