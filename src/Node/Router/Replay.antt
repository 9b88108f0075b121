-- ===== src/Node/Router/Replay.antt =====
-- src/framework/node/node_proto.cpp: the nonce windows, the seen message ids and the tolerance.
use proto_relay.Base.{
  ℕ, ◌+◌, ◌-◌, ◌%◌, ◌^◌, Bool, true, false, none, some, ltb, if◌then◌else◌, Bytes,
}
use proto_relay.Base.Assoc
use proto_relay.Base.Eq.{nat_key, bytes_key}
use proto_relay.LruCache.{LruCache, create, get, put}
use proto_relay.Node.Router.{Router}

abbrev pub Window : Type 0
Window = LruCache ℕ (Unit {0})

abbrev pub not_seen : Window → Bool → Window × Bool
not_seen w seen = (w, seen)

-- `if (window->get(id)) return true; window->put(id, 0); return false;`
unfoldable pub seen_and_insert : ℕ → ℕ → Window → Window × Bool
seen_and_insert now id w =
    let (w', hit) = get id now w in
    elim hit [ none ↦ (put id tt now w', false) | some _ ↦ (w', true) ]

unfoldable pub message_id_seen_and_insert : ℕ → ℕ → Router → Router × Bool
unfolding seen_and_insert
message_id_seen_and_insert now id r =
    let (w, seen) = seen_and_insert now id r.seen_ids in (record r { seen_ids = w }, seen)

-- The window at an address; a pointer to nowhere cannot arise, and reads as an empty one.
unfoldable pub window_at : Router → ℕ → Window
window_at r address = elim (Assoc.lookup address r.windows) [
  | none ↦ create ℕ (Unit {0}) r.options.nonce_capacity r.window
  | some w ↦ w
]

unfoldable pub at_window : ℕ → ℕ → ℕ → Router → Router × Bool
at_window now nonce address r =
    let (w, seen) = seen_and_insert now nonce (window_at r address) in
    (record r { windows = Assoc.insert address w r.windows }, seen)

-- `make_shared` of a fresh window, put under its source.
unfoldable pub new_window : ℕ → Bytes → Router → Router
new_window now source r = record r {
  nonces = put source r.next_window now r.nonces;
  windows =
      Assoc.insert r.next_window (create ℕ (Unit {0}) r.options.nonce_capacity r.window) r.windows;
  next_window = r.next_window + 1;
}

unfoldable pub nonce_seen_and_insert : ℕ → Bytes → ℕ → Router → Router × Bool
nonce_seen_and_insert now source nonce r =
    let (nonces, hit) = get source now r.nonces in
    let r' = record r { nonces = nonces } in
    elim hit [
      | none ↦ at_window now nonce r.next_window (new_window now source r')
      | some found ↦ at_window now nonce found.out_value r'
    ]

-- `delta = int64_t(now) - int64_t(timestamp)` in 64 bits, and `delta > tolerance || delta <
-- -tolerance`.
unfoldable pub outside_tolerance : ℕ → ℕ → ℕ → Bool
outside_tolerance now timestamp tolerance =
    let delta = (now + 2 ^ 64 - timestamp) % 2 ^ 64 in
    if ltb delta (2 ^ 63) then ltb tolerance delta else ltb tolerance (2 ^ 64 - delta)
