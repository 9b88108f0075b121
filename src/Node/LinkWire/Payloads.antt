-- ===== src/Node/LinkWire/Payloads.antt =====
-- The payloads of the handshake and of an epoch update are read back as they were written, and both
-- ends of a link sign the same bytes.
use mathlib.Core.List.{append_assoc}
use proto_relay.Base.{
  ℕ, ◌^◌, ◌≤◌, ◌<◌, true, false, some, List, [], ◌∷◌, ◌++◌, ◌≡◌, ◌≢◌, ◌⊎◌, inl, inr, refl, arith,
  length, ltb, Bytes, length-append, take-append, drop-append, All,
}
use proto_relay.Base.Wire
use proto_relay.Base.Wire.{put, get-put_one, get-put_four, get-put_eight, length-put}
use proto_relay.Node.Trust.{Neighbor}
use proto_relay.Node.LinkWire.{
  read_word, read_fixed, read_sized, Challenge, encode_sized, encode_challenge, decode_challenge,
  decode_tail, decode_epoch, decode_identity, decode_versioned, bytes_lt, auth_message,
  encode_neighbors, encode_revoked, encode_epoch_update, push_front, read_neighbor, read_neighbors,
  read_ids, EpochUpdate, decode_revoked, decode_neighbors, decode_epoch_number, decode_epoch_update,
}

pub read_word-four :
    (n : ℕ) (rest : Bytes) → n < 2 ^ 32 → read_word 4 (put 4 n ++ rest) ≡ some (n, rest)
unfolding read_word put
read_word-four n rest h = rw (get-put_four n (omega arith)) (ground arith)

pub read_word-eight :
    (n : ℕ) (rest : Bytes) → n < 2 ^ 64 → read_word 8 (put 8 n ++ rest) ≡ some (n, rest)
unfolding read_word put
read_word-eight n rest h = rw (get-put_eight n (omega arith)) (ground arith)

read_word-version : (rest : Bytes) → read_word 1 (put 1 1 ++ rest) ≡ some (1, rest)
unfolding read_word put Wire.get
read_word-version rest = ground arith

read_fixed-append : (s rest : Bytes) → read_fixed (length s) (s ++ rest) ≡ some (s, rest)
unfolding read_fixed
read_fixed-append s rest =
    ground (arith, length-append s rest, take-append s rest, drop-append s rest)

pub read_sized-encode_sized :
    (s rest : Bytes) → length s < 2 ^ 32 → read_sized (encode_sized s ++ rest) ≡ some (s, rest)
unfolding read_sized encode_sized
read_sized-encode_sized s rest h =
    rw (append_assoc (put 4 (length s)) s rest, read_sized)
      (rw (read_word-four (length s) (s ++ rest) h, read_sized) (read_fixed-append s rest))

-- A challenge whose parts have the widths of its encoding.
pub record IsChallenge (c : Challenge) : Type 0 where
  pub node_id : length c.node_id < 2 ^ 32
  pub epoch : c.epoch < 2 ^ 64
  pub nonce : length c.nonce ≡ 32

-- A challenge is read back as it was written.
pub decode_challenge-encode_challenge :
    (c : Challenge) → IsChallenge c → decode_challenge (encode_challenge c) ≡ some c
unfolding decode_challenge decode_versioned decode_identity decode_epoch decode_tail
    encode_challenge
decode_challenge-encode_challenge c v = ground (
  arith,
  read_word-version (encode_sized c.node_id ++ (put 8 c.epoch ++ c.nonce)),
  read_sized-encode_sized c.node_id (put 8 c.epoch ++ c.nonce) v.node_id,
  read_word-eight c.epoch c.nonce v.epoch,
  v.nonce,
)

bytes_lt_total : (a b : Bytes) → (bytes_lt a b ≡ true) ⊎ ((bytes_lt b a ≡ true) ⊎ (a ≡ b))
unfolding bytes_lt
bytes_lt_total [] [] = inr (inr refl)
bytes_lt_total [] (y ∷ ys) = inl refl
bytes_lt_total (x ∷ xs) [] = inr (inl refl)
bytes_lt_total (x ∷ xs) (y ∷ ys) = ground (arith, bytes_lt_total xs ys)

bytes_lt_asym : (a b : Bytes) → bytes_lt a b ≡ true → bytes_lt b a ≡ false
unfolding bytes_lt
bytes_lt_asym [] [] h = cc
bytes_lt_asym [] (y ∷ ys) h = refl
bytes_lt_asym (x ∷ xs) [] h = cc
bytes_lt_asym (x ∷ xs) (y ∷ ys) h = ground (arith, bytes_lt_asym xs ys)

-- Both ends of a link, each with its own id first, sign and verify the same bytes.
pub auth_message_comm :
    (a_id a_nonce b_id b_nonce : Bytes)
    → a_id ≢ b_id
    → auth_message a_id a_nonce b_id b_nonce ≡ auth_message b_id b_nonce a_id a_nonce
unfolding auth_message
auth_message_comm a_id a_nonce b_id b_nonce apart = elim (bytes_lt_total a_id b_id) [
  | inl less ↦ rw (less, bytes_lt_asym a_id b_id less) refl
  | inr (inl more) ↦ rw (more, bytes_lt_asym b_id a_id more) refl
  | inr (inr same) ↦ absurd (apart same)
]

-- A neighbor whose parts have the widths of the encoding.
pub record IsNeighbor (n : Neighbor) : Type 0 where
  pub node_id : length n.node_id < 2 ^ 32
  pub public_key : length n.public_key ≡ 32

abbrev pub IsShortId : Bytes → Type 0
IsShortId id = length id < 2 ^ 32

read_neighbor-encode :
    (n : Neighbor) (rest : Bytes)
    → IsNeighbor n
    → read_neighbor (encode_sized n.node_id ++ (n.public_key ++ rest)) ≡ some (n, rest)
unfolding read_neighbor
read_neighbor-encode n rest v =
    rw (read_sized-encode_sized n.node_id (n.public_key ++ rest) v.node_id, read_neighbor)
      (rw ((rw v.public_key at (read_fixed-append n.public_key rest)), read_neighbor) refl)

read_neighbors-encode_neighbors :
    (ns : List Neighbor) (rest : Bytes)
    → All IsNeighbor ns
    → read_neighbors (length ns) (encode_neighbors ns ++ rest) ≡ some (ns, rest)
unfolding read_neighbors encode_neighbors push_front
read_neighbors-encode_neighbors [] rest v = refl
read_neighbors-encode_neighbors (n ∷ ns) rest v = simp append_assoc (
    rw (read_neighbor-encode n (encode_neighbors ns ++ rest) v.0, read_neighbors)
      (rw (read_neighbors-encode_neighbors ns rest v.1, push_front) refl))

read_ids-encode_revoked :
    (ids : List Bytes) (rest : Bytes)
    → All IsShortId ids
    → read_ids (length ids) (encode_revoked ids ++ rest) ≡ some (ids, rest)
unfolding read_ids encode_revoked push_front
read_ids-encode_revoked [] rest v = refl
read_ids-encode_revoked (id ∷ ids) rest v = simp append_assoc (
    rw (read_sized-encode_sized id (encode_revoked ids ++ rest) v.0, read_ids)
      (rw (read_ids-encode_revoked ids rest v.1, push_front) refl))

-- An update whose parts have the widths of the encoding.
pub record IsUpdate (u : EpochUpdate) : Type 0 where
  pub epoch : u.epoch < 2 ^ 64
  pub neighbors : All IsNeighbor u.neighbors
  pub neighbor_count : length u.neighbors < 2 ^ 32
  pub revoked : All IsShortId u.revoked
  pub revoked_count : length u.revoked < 2 ^ 32
  pub signature : length u.signature ≡ 64

decode_revoked-encode :
    (u : EpochUpdate)
    → IsUpdate u
    → decode_revoked u.epoch u.neighbors
        (put 4 (length u.revoked) ++ (encode_revoked u.revoked ++ u.signature))
      ≡ some u
unfolding decode_revoked
decode_revoked-encode u v =
    rw
      (
        read_word-four (length u.revoked) (encode_revoked u.revoked ++ u.signature) v.revoked_count,
        decode_revoked,
      )
      (rw (read_ids-encode_revoked u.revoked u.signature v.revoked, decode_revoked)
        (rw v.signature refl))

decode_neighbors-encode :
    (u : EpochUpdate)
    → IsUpdate u
    → decode_neighbors u.epoch (
        put 4 (length u.neighbors)
        ++ (encode_neighbors u.neighbors
            ++ (put 4 (length u.revoked) ++ (encode_revoked u.revoked ++ u.signature))))
      ≡ some u
unfolding decode_neighbors
decode_neighbors-encode u v =
    rw (read_word-four (length u.neighbors) _ v.neighbor_count, decode_neighbors)
      (rw (read_neighbors-encode_neighbors u.neighbors _ v.neighbors, decode_neighbors)
        (decode_revoked-encode u v))

-- The update and its signature, grouped as the decoder reads them.
after_version : EpochUpdate → Bytes
after_version u =
    put 8 u.epoch
    ++ (put 4 (length u.neighbors)
        ++ (encode_neighbors u.neighbors
            ++ (put 4 (length u.revoked) ++ (encode_revoked u.revoked ++ u.signature))))

update_split :
    (u : EpochUpdate)
    → encode_epoch_update u.epoch u.neighbors u.revoked ++ u.signature ≡ put 1 1 ++ after_version u
unfolding encode_epoch_update after_version
update_split u = simp append_assoc

after_version_long : (u : EpochUpdate) → IsUpdate u → 64 ≤ length (after_version u)
unfolding after_version
after_version_long u v = omega (
  arith,
  length-append (put 8 u.epoch),
  length-append (put 4 (length u.neighbors)),
  length-append (encode_neighbors u.neighbors),
  length-append (put 4 (length u.revoked)),
  length-append (encode_revoked u.revoked) u.signature,
  v.signature,
)

after_version-read : (u : EpochUpdate) → IsUpdate u → decode_epoch_number (after_version u) ≡ some u
unfolding decode_epoch_number after_version
after_version-read u v =
    rw (read_word-eight u.epoch _ v.epoch, decode_epoch_number) (decode_neighbors-encode u v)

-- An epoch update, with the signature behind it, is read back as it was written.
pub decode_epoch_update-encode_epoch_update :
    (u : EpochUpdate)
    → IsUpdate u
    → decode_epoch_update (encode_epoch_update u.epoch u.neighbors u.revoked ++ u.signature)
      ≡ some u
unfolding decode_epoch_update
decode_epoch_update-encode_epoch_update u v =
    let long : ltb (length (put 1 1 ++ after_version u)) 65 ≡ false =
      ground (
        arith,
        length-append (put 1 1) (after_version u),
        length-put 1 1,
        after_version_long u v,
      ) in
    rw (update_split u) (
      rw long
        (rw (read_word-version (after_version u), decode_epoch_update) (after_version-read u v)))
