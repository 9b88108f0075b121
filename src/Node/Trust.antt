-- ===== src/Node/Trust.antt =====
-- src/framework/node/node_trust.cpp, include/framework/node/node_trust.h: the trust store. The mutex
-- makes each operation one step; the listeners belong to the links, which are told of a snapshot.
use proto_relay.Base.{
  ℕ, Bool, true, false, ◌||◌, not, Option, none, some, List, [], ◌∷◌, length, leb, ◌==◌,
  if◌then◌else◌, Bytes, bytes_eq,
}

pub record Neighbor : Type 0 where
  pub node_id : Bytes
  pub public_key : Bytes

pub record Snapshot : Type 0 where
  pub epoch : ℕ
  pub neighbors : List Neighbor
  pub revoked : List Bytes

pub record TrustStore : Type 0 where
  pub controller_public_key : Bytes
  pub snapshot : Snapshot

unfoldable pub valid_key : Bytes → Bool
valid_key key = length key == 32

-- The loop that throws at a malformed neighbor.
unfoldable pub malformed_neighbor : List Neighbor → Bool
unfolding valid_key
malformed_neighbor [] = false
malformed_neighbor (n ∷ ns) =
    (length n.node_id == 0 || not (valid_key n.public_key)) || malformed_neighbor ns

-- The constructor, `none` where it throws.
unfoldable pub create_store : Bytes → Snapshot → Option TrustStore
unfolding malformed_neighbor
create_store key initial =
    if not (valid_key key) || malformed_neighbor initial.neighbors
    then none
    else some (record { controller_public_key = key; snapshot = initial })

unfoldable pub neighbor_key : Bytes → List Neighbor → Bytes
neighbor_key id [] = []
neighbor_key id (n ∷ ns) = if bytes_eq n.node_id id then n.public_key else neighbor_key id ns

unfoldable pub trusts : Bytes → List Neighbor → Bool
trusts id [] = false
trusts id (n ∷ ns) = if bytes_eq n.node_id id then true else trusts id ns

-- What `apply` comes to: a stale update, an exception, or the new store.
pub data Applied : Type 0 where
  stale : Applied
  malformed_entry : Applied
  applied : TrustStore → Applied

unfoldable pub apply : Snapshot → TrustStore → Applied
unfolding malformed_neighbor
apply next s =
    if leb next.epoch s.snapshot.epoch
    then stale
    else if malformed_neighbor next.neighbors
    then malformed_entry
    else applied (record s { snapshot = next })
