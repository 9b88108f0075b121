-- ===== src/LruCache.antt =====
-- include/framework/cache/lru_cache.h: `LruCache<Key, Value>`. The node list is a list, most recent
-- first. An iterator into it is named by the key of its node, since `splice` moves nodes and no
-- statement rewrites a node's key; the hash map takes each key to such an iterator. Both locks are
-- held for each whole operation that writes, so an operation is one step. `Clock::now()` is an
-- argument.
mod Nodes
pub mod Sweep
pub mod Valid
pub mod Recency
pub mod Reads
use proto_relay.Base.{
  ℕ, ◌-◌, Bool, true, false, Option, none, some, List, [], ◌∷◌, length, leb, if◌then◌else◌,
}
use proto_relay.Base.Eq.{KeyEq}
use proto_relay.Base.Assoc.{lookup, has_key, insert, erase}

pub record InternalEntry (V : Type 0) : Type 0 where
  pub value : V
  pub created : ℕ

pub record LruCache (K V : Type 0) : Type 0 where
  pub m_capacity : ℕ
  pub m_ttl : ℕ
  pub m_list : List (K × InternalEntry V)
  pub m_map : List (K × K)

-- What `get` leaves in its two output parameters.
pub record Hit (V : Type 0) : Type 0 where
  pub out_value : V
  pub out_stale : Bool

unfoldable pub create : (K V : Type 0) → ℕ → ℕ → LruCache K V
create K V capacity ttl = record {
  m_capacity = if leb 1 capacity then capacity else 1;
  m_ttl = ttl;
  m_list = [];
  m_map = [];
}

module _ {K V : Type 0} ⦃e : KeyEq K⦄ where
  -- `m_list.splice(m_list.begin(), m_list, it)`
  pub splice : K → List (K × InternalEntry V) → List (K × InternalEntry V)
  splice it l = elim (lookup it l) [ none ↦ l | some entry ↦ (it, entry) ∷ erase it l ]

  get_at : K → ℕ → LruCache K V → Option (InternalEntry V) → LruCache K V × Option (Hit V)
  unfolding splice
  get_at it now c none = (c, none)
  get_at it now c (some entry) = (
    record c { m_list = splice it c.m_list },
    some (record { out_value = entry.value; out_stale = leb c.m_ttl (now - entry.created) }),
  )

  -- The result is `none` where the source returns false.
  unfoldable pub get : K → ℕ → LruCache K V → LruCache K V × Option (Hit V)
  unfolding get_at
  get key now c = elim (lookup key c.m_map) [
    | none ↦ (c, none)
    | some it ↦ get_at it now c (lookup it c.m_list)
  ]

  -- `it->second->second = {value, now}` at the node of `it`
  pub assign : K → InternalEntry V → List (K × InternalEntry V) → List (K × InternalEntry V)
  assign it entry [] = []
  assign it entry ((j, w) ∷ l) = if e.beq j it then (j, entry) ∷ l else (j, w) ∷ assign it entry l

  -- `m_list.back().first` and `m_list.pop_back()`
  pub back_key : List (K × InternalEntry V) → Option K
  back_key [] = none
  back_key ((k, w) ∷ []) = some k
  back_key ((k, w) ∷ x ∷ l) = back_key (x ∷ l)

  pub pop_back : List (K × InternalEntry V) → List (K × InternalEntry V)
  pop_back [] = []
  pop_back (x ∷ []) = []
  pop_back (x ∷ y ∷ l) = x ∷ pop_back (y ∷ l)

  pub evict : LruCache K V → LruCache K V
  unfolding back_key pop_back
  evict c = elim (back_key c.m_list) [
    | none ↦ c
    | some k ↦ record c { m_list = pop_back c.m_list; m_map = erase k c.m_map }
  ]

  pub emplace_front : K → InternalEntry V → LruCache K V → LruCache K V
  emplace_front key entry c = record c {
    m_list = (key, entry) ∷ c.m_list;
    m_map = insert key key c.m_map;
  }

  pub put_new : K → InternalEntry V → LruCache K V → LruCache K V
  unfolding evict emplace_front
  put_new key entry c =
      if leb c.m_capacity (length c.m_map)
      then emplace_front key entry (evict c)
      else emplace_front key entry c

  unfoldable pub put : K → V → ℕ → LruCache K V → LruCache K V
  unfolding put_new splice assign
  put key value now c =
      let entry : InternalEntry V = record { value = value; created = now } in
      elim (lookup key c.m_map) [
        | none ↦ put_new key entry c
        | some it ↦ record c { m_list = splice it (assign it entry c.m_list) }
      ]

  unfoldable pub invalidate : K → LruCache K V → LruCache K V
  invalidate key c = elim (lookup key c.m_map) [
    | none ↦ c
    | some it ↦ record c { m_list = erase it c.m_list; m_map = erase key c.m_map }
  ]

  -- The loop of `invalidate_if` over the list, with the map that it erases from.
  pub sweep :
      (K → Bool)
      → List (K × InternalEntry V)
      → List (K × K)
      → List (K × InternalEntry V) × List (K × K)
  sweep pred [] m = ([], m)
  sweep pred ((k, w) ∷ l) m =
      let (kept, m') = sweep pred l (if pred k then erase k m else m) in
      (if pred k then kept else (k, w) ∷ kept, m')

  unfoldable pub invalidate_if : (K → Bool) → LruCache K V → LruCache K V
  unfolding sweep
  invalidate_if pred c =
      let (l, m) = sweep pred c.m_list c.m_map in record c { m_list = l; m_map = m }

  unfoldable pub clear : LruCache K V → LruCache K V
  clear c = record c { m_list = []; m_map = [] }

  unfoldable pub size : LruCache K V → ℕ
  size c = length c.m_map

  -- The loader runs between `get` and `put`, at the time `later` of the second.
  unfoldable pub get_or_refresh : K → V → ℕ → ℕ → LruCache K V → LruCache K V × Hit V
  unfolding get put
  get_or_refresh key loaded now later c =
      let (c', found) = get key now c in
      elim found [
        | none ↦ (put key loaded later c', record { out_value = loaded; out_stale = false })
        | some hit ↦ (c', hit)
      ]
