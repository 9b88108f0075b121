-- ===== src/Node/LinkWire.antt =====
-- src/framework/node/node_link.cpp, include/framework/node/node_link.h: the frames of a link and the
-- payloads of its handshake. A `Reader` is the rest of its string.
pub mod Frames
pub mod Payloads
use proto_relay.Base.{
  ℕ, zero, suc, ◌+◌, ◌-◌, ◌^◌, Bool, true, false, ◌&&◌, ◌||◌, not, Option, none, some, List, [],
  ◌∷◌, ◌++◌, length, take, drop, ltb, ◌==◌, if◌then◌else◌, Bytes, codes,
}
use proto_relay.Base.Wire
use proto_relay.Base.Wire.{put}
use proto_relay.Node.Trust.{Neighbor}

pub data FrameType : Type 0 where
  hello ping pong request response notify epoch_config hello_auth : FrameType

unfoldable pub frame_code : FrameType → ℕ
frame_code hello = 1
frame_code ping = 2
frame_code pong = 3
frame_code request = 4
frame_code response = 5
frame_code notify = 6
frame_code epoch_config = 7
frame_code hello_auth = 8

unfoldable pub frame_type_of : ℕ → Option FrameType
frame_type_of c =
    if c == 1
    then some hello
    else if c == 2
    then some ping
    else if c == 3
    then some pong
    else if c == 4
    then some request
    else if c == 5
    then some response
    else if c == 6
    then some notify
    else if c == 7
    then some epoch_config
    else if c == 8
    then some hello_auth
    else none

pub record Frame : Type 0 where
  pub type : FrameType
  pub id : ℕ
  pub payload : Bytes

abbrev pub nonce_bytes : ℕ
nonce_bytes = 32

abbrev pub signature_bytes : ℕ
signature_bytes = 64

abbrev pub auth_separator : Bytes
auth_separator = codes "protorelay/node-auth/v1"

-- The version, the type, the id and the payload.
unfoldable pub frame_body : Frame → Bytes
unfolding frame_code
frame_body f = put 1 1 ++ (put 1 (frame_code f.type) ++ (put 8 f.id ++ f.payload))

-- `none` where it throws `length_error`.
unfoldable pub encode_frame : Frame → Option Bytes
unfolding frame_body
encode_frame f =
    if ltb (2 ^ 32 - 1 - 10) (length f.payload)
    then none
    else some (put 4 (10 + length f.payload) ++ frame_body f)

-- Requests and responses have an id, the others have none.
unfoldable pub bad_frame_id : FrameType → ℕ → Bool
bad_frame_id request id = id == 0
bad_frame_id response id = id == 0
bad_frame_id _ id = not (id == 0)

unfoldable pub decode_typed : Bytes → FrameType → Option Frame
unfolding bad_frame_id
decode_typed body t =
    let id = Wire.get 0 (take 8 (drop 2 body)) in
    if bad_frame_id t id then none else some (record { type = t; id = id; payload = drop 10 body })

unfoldable pub decode_frame : ℕ → Bytes → Option Frame
unfolding decode_typed
decode_frame max_frame_bytes body =
    if ltb (length body) 10 || ltb max_frame_bytes (length body)
    then none
    else if not (Wire.get 0 (take 1 body) == 1)
    then none
    else elim (frame_type_of (Wire.get 0 (take 1 (drop 1 body)))) [
      | none ↦ none
      | some t ↦ decode_typed body t
    ]

-- `Reader::u8`, `u32` and `u64` by their width.
unfoldable pub read_word : ℕ → Bytes → Option (ℕ × Bytes)
read_word w s = if ltb (length s) w then none else some (Wire.get 0 (take w s), drop w s)

-- `Reader::fixed`
unfoldable pub read_fixed : ℕ → Bytes → Option (Bytes × Bytes)
read_fixed n s = if ltb (length s) n then none else some (take n s, drop n s)

-- `Reader::sized`
unfoldable pub read_sized : Bytes → Option (Bytes × Bytes)
unfolding read_word read_fixed
read_sized s = elim (read_word 4 s) [ none ↦ none | some (n, rest) ↦ read_fixed n rest ]

pub record Challenge : Type 0 where
  pub node_id : Bytes
  pub epoch : ℕ
  pub nonce : Bytes

unfoldable pub encode_sized : Bytes → Bytes
encode_sized id = put 4 (length id) ++ id

-- A challenge with its nonce; a response has the signature in its place.
unfoldable pub encode_challenge : Challenge → Bytes
unfolding encode_sized
encode_challenge c = put 1 1 ++ (encode_sized c.node_id ++ (put 8 c.epoch ++ c.nonce))

unfoldable pub encode_auth_response : Challenge → Bytes
unfolding encode_sized
encode_auth_response c = put 1 1 ++ (encode_sized c.node_id ++ (put 8 c.epoch ++ c.nonce))

-- The last `n` bytes, with nothing behind them.
unfoldable pub decode_tail : ℕ → Bytes → ℕ → Bytes → Option Challenge
decode_tail n id epoch rest =
    if length rest == n then some (record { node_id = id; epoch = epoch; nonce = rest }) else none

unfoldable pub decode_epoch : ℕ → Bytes → Bytes → Option Challenge
unfolding decode_tail
decode_epoch n id rest = elim (read_word 8 rest) [
  | none ↦ none
  | some (epoch, rest') ↦ decode_tail n id epoch rest'
]

unfoldable pub decode_identity : ℕ → Bytes → Option Challenge
unfolding decode_epoch
decode_identity n rest = elim (read_sized rest) [
  | none ↦ none
  | some (id, rest') ↦ decode_epoch n id rest'
]

unfoldable pub decode_versioned : ℕ → Bytes → Option Challenge
unfolding decode_identity
decode_versioned n payload = elim (read_word 1 payload) [
  | none ↦ none
  | some (version, rest) ↦ if version == 1 then decode_identity n rest else none
]

unfoldable pub decode_challenge : Bytes → Option Challenge
unfolding decode_versioned
decode_challenge payload = decode_versioned nonce_bytes payload

unfoldable pub decode_auth_response : Bytes → Option Challenge
unfolding decode_versioned
decode_auth_response payload = decode_versioned signature_bytes payload

-- `std::string::operator<`, on bytes.
unfoldable pub bytes_lt : Bytes → Bytes → Bool
bytes_lt [] [] = false
bytes_lt [] (y ∷ ys) = true
bytes_lt (x ∷ xs) [] = false
bytes_lt (x ∷ xs) (y ∷ ys) = ltb x y || x == y && bytes_lt xs ys

unfoldable pub ordered_message : Bytes → Bytes → Bytes → Bytes → Bytes
unfolding encode_sized
ordered_message a_id a_nonce b_id b_nonce =
    auth_separator ++ (encode_sized a_id ++ (a_nonce ++ (encode_sized b_id ++ b_nonce)))

-- The pair is ordered by node id.
unfoldable pub auth_message : Bytes → Bytes → Bytes → Bytes → Bytes
auth_message a_id a_nonce b_id b_nonce =
    if bytes_lt b_id a_id
    then ordered_message b_id b_nonce a_id a_nonce
    else ordered_message a_id a_nonce b_id b_nonce

unfoldable pub encode_neighbors : List Neighbor → Bytes
encode_neighbors [] = []
encode_neighbors (n ∷ ns) = encode_sized n.node_id ++ (n.public_key ++ encode_neighbors ns)

unfoldable pub encode_revoked : List Bytes → Bytes
encode_revoked [] = []
encode_revoked (id ∷ ids) = encode_sized id ++ encode_revoked ids

unfoldable pub encode_epoch_update : ℕ → List Neighbor → List Bytes → Bytes
encode_epoch_update epoch neighbors revoked =
    put 1 1
    ++ (put 8 epoch
        ++ (put 4 (length neighbors)
            ++ (encode_neighbors neighbors ++ (put 4 (length revoked) ++ encode_revoked revoked))))

unfoldable pub push_front : {A : Type 0} → A → Option (List A × Bytes) → Option (List A × Bytes)
push_front a none = none
push_front a (some (as', rest)) = some (a ∷ as', rest)

-- One neighbor: the sized id and the 32 bytes of the key.
unfoldable pub read_neighbor : Bytes → Option (Neighbor × Bytes)
read_neighbor s = elim (read_sized s) [
  | none ↦ none
  | some (id, rest) ↦ elim (read_fixed 32 rest) [
    | none ↦ none
    | some (key, rest') ↦ some (record { node_id = id; public_key = key }, rest')
  ]
]

unfoldable pub read_neighbors : ℕ → Bytes → Option (List Neighbor × Bytes)
unfolding push_front
read_neighbors zero s = some ([], s)
read_neighbors (suc n) s = elim (read_neighbor s) [
  | none ↦ none
  | some (neighbor, rest) ↦ push_front neighbor (read_neighbors n rest)
]

unfoldable pub read_ids : ℕ → Bytes → Option (List Bytes × Bytes)
unfolding push_front
read_ids zero s = some ([], s)
read_ids (suc n) s = elim (read_sized s) [
  | none ↦ none
  | some (id, rest) ↦ push_front id (read_ids n rest)
]

pub record EpochUpdate : Type 0 where
  pub epoch : ℕ
  pub neighbors : List Neighbor
  pub revoked : List Bytes
  pub signature : Bytes

unfoldable pub decode_revoked : ℕ → List Neighbor → Bytes → Option EpochUpdate
decode_revoked epoch neighbors s = elim (read_word 4 s) [
  | none ↦ none
  | some (count, rest) ↦ elim (read_ids count rest) [
    | none ↦ none
    | some (revoked, rest') ↦
        if length rest' == signature_bytes
        then some
            (record { epoch = epoch; neighbors = neighbors; revoked = revoked; signature = rest' })
        else none
  ]
]

unfoldable pub decode_neighbors : ℕ → Bytes → Option EpochUpdate
decode_neighbors epoch s = elim (read_word 4 s) [
  | none ↦ none
  | some (count, rest) ↦ elim (read_neighbors count rest) [
    | none ↦ none
    | some (neighbors, rest') ↦ decode_revoked epoch neighbors rest'
  ]
]

unfoldable pub decode_epoch_number : Bytes → Option EpochUpdate
decode_epoch_number s = elim (read_word 8 s) [
  | none ↦ none
  | some (epoch, rest) ↦ decode_neighbors epoch rest
]

unfoldable pub decode_epoch_update : Bytes → Option EpochUpdate
unfolding decode_epoch_number decode_neighbors decode_revoked
decode_epoch_update payload =
    if ltb (length payload) (signature_bytes + 1) then none else elim (read_word 1 payload) [
      | none ↦ none
      | some (version, rest) ↦ if version == 1 then decode_epoch_number rest else none
    ]
