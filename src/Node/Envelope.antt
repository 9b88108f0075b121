-- ===== src/Node/Envelope.antt =====
-- src/framework/node/node_proto.cpp, include/framework/node/node_proto.h: the envelope and its
-- wire form. A position in the wire string is the suffix that starts there, so `pos + n >
-- wire.size()` is a suffix shorter than n. Where decoding fails the source leaves the output
-- envelope half filled and its callers drop it; the model returns no envelope there.
pub mod Fields
pub mod RoundTrip
use proto_relay.Base.{
  ℕ, zero, suc, ◌+◌, ◌^◌, Bool, true, false, not, ◌&&◌, ◌||◌, Option, none, some, List, [], ◌∷◌,
  ◌++◌, length, take, drop, ltb, leb, ◌==◌, if◌then◌else◌, Bytes,
}
use proto_relay.Base.Wire
use proto_relay.Base.Wire.{put}

-- The code of `data` is `data_message` here, since the word is reserved.
pub data MessageType : Type 0 where
  data_message ack error probe : MessageType

unfoldable pub type_code : MessageType → ℕ
type_code data_message = 1
type_code ack = 2
type_code error = 3
type_code probe = 4

-- `type < 1 || type > 4` has no enumerator, else `MessageType(type)`.
unfoldable pub type_of : ℕ → Option MessageType
type_of c =
    if c == 1
    then some data_message
    else if c == 2
    then some ack
    else if c == 3
    then some error
    else if c == 4
    then some probe
    else none

pub record Envelope : Type 0 where
  pub version : ℕ
  pub type : MessageType
  pub encrypted : Bool
  pub key_id : ℕ
  pub ttl : ℕ
  pub nonce : ℕ
  pub timestamp_ms : ℕ
  pub message_id : ℕ
  pub source : Bytes
  pub destination : Bytes
  pub route : List Bytes
  pub route_pos : ℕ
  pub payload : Bytes

pub record NodeRouterOptions : Type 0 where
  pub max_envelope_bytes : ℕ
  pub max_node_id_bytes : ℕ
  pub max_route_hops : ℕ
  pub max_hops : ℕ
  pub timestamp_tolerance : ℕ
  pub max_in_flight : ℕ
  pub seen_message_capacity : ℕ
  pub nonce_capacity : ℕ
  pub max_tracked_sources : ℕ
  pub dedup_by_message_id : Bool
  pub forward_enabled : Bool

abbrev pub fixed_header : ℕ
fixed_header = 28

abbrev pub tail_header : ℕ
tail_header = 4

pub encode_id : Bytes → Bytes
encode_id id = put 2 (length id) ++ id

pub encode_route : List Bytes → Bytes
unfolding encode_id
encode_route [] = []
encode_route (hop ∷ hops) = encode_id hop ++ encode_route hops

-- The first 28 bytes.
pub encode_fixed : Envelope → Bytes
unfolding type_code
encode_fixed e =
    put 1 e.version
    ++ (put 1 (type_code e.type)
        ++ (put 1 (if e.encrypted then 1 else 0)
            ++ (put 1 e.key_id
                ++ (put 4 e.ttl
                    ++ (put 4 e.nonce ++ (put 8 e.timestamp_ms ++ put 8 e.message_id))))))

unfoldable pub encode_header : Envelope → ℕ → Bytes
unfolding encode_fixed encode_id encode_route
encode_header e payload_len =
    encode_fixed e
    ++ (encode_id e.source
        ++ (encode_id e.destination
            ++ (put 1 (length e.route)
                ++ (put 1 e.route_pos ++ (encode_route e.route ++ put 4 payload_len)))))

-- What `encode_envelope` throws.
pub data Exception : Type 0 where
  invalid_argument length_error : Exception

pub data Encoded : Type 0 where
  encoded : Bytes → Encoded
  thrown : Exception → Encoded

unfoldable pub bad_id : Bytes → Bool
bad_id id = length id == 0 || ltb 255 (length id)

unfoldable pub bad_hop : List Bytes → Bool
unfolding bad_id
bad_hop [] = false
bad_hop (hop ∷ hops) = bad_id hop || bad_hop hops

unfoldable pub encode_envelope : Envelope → Encoded
unfolding bad_hop bad_id
encode_envelope e =
    if not (e.version == 1)
    then thrown invalid_argument
    else if bad_id e.source || bad_id e.destination
    then thrown invalid_argument
    else if ltb 255 (length e.route) || ltb (length e.route) e.route_pos
    then thrown invalid_argument
    else if bad_hop e.route
    then thrown invalid_argument
    else if leb (2 ^ 32) (length e.payload)
    then thrown length_error
    else encoded (encode_header e (length e.payload) ++ e.payload)

-- `take_id`: the identifier at the position, and the suffix behind it.
unfoldable pub take_id : ℕ → Bytes → Option (Bytes × Bytes)
take_id max_node_id_bytes rest =
    if ltb (length rest) 2
    then none
    else let n = Wire.get 0 (take 2 rest) in
      let body = drop 2 rest in
      if n == 0 || ltb max_node_id_bytes n || ltb (length body) n
      then none
      else some (take n body, drop n body)

pub decode_hop : Bytes → Option (List Bytes × Bytes) → Option (List Bytes × Bytes)
decode_hop hop none = none
decode_hop hop (some (hops, rest)) = some (hop ∷ hops, rest)

-- The loop over the route.
unfoldable pub decode_route : ℕ → ℕ → Bytes → Option (List Bytes × Bytes)
unfolding decode_hop
decode_route max_node_id_bytes zero rest = some ([], rest)
decode_route max_node_id_bytes (suc n) rest = elim (take_id max_node_id_bytes rest) [
  | none ↦ none
  | some (hop, rest') ↦ decode_hop hop (decode_route max_node_id_bytes n rest')
]

-- `DecodeResult` with the envelope that it leaves.
pub data Decoded : Type 0 where
  malformed : Decoded
  unknown_version : Decoded
  ok_unknown_type : Envelope → Decoded
  ok : Envelope → Decoded

-- The envelope with no type yet; an unregistered type leaves `data` standing.
pub finish : ℕ → Envelope → Decoded
finish code e = elim (type_of code) [
  | none ↦ ok_unknown_type e
  | some t ↦ ok (record e { type = t })
]

pub decode_payload : ℕ → Envelope → Bytes → Decoded
decode_payload code e rest =
    if ltb (length rest) tail_header
    then malformed
    else let payload = drop 4 rest in
      if not (Wire.get 0 (take 4 rest) == length payload)
      then malformed
      else finish code (record e { payload = payload })

-- From the route length and the route position on.
pub decode_hops_at : NodeRouterOptions → ℕ → Envelope → ℕ → ℕ → Bytes → Decoded
decode_hops_at limits code e route_len route_pos rest =
    if ltb limits.max_route_hops route_len || ltb route_len route_pos
    then malformed
    else elim (decode_route limits.max_node_id_bytes route_len rest) [
      | none ↦ malformed
      | some (route, rest') ↦
          decode_payload code (record e { route = route; route_pos = route_pos }) rest'
    ]

pub decode_hops : NodeRouterOptions → ℕ → Envelope → Bytes → Decoded
decode_hops limits code e rest =
    if ltb (length rest) 2
    then malformed
    else decode_hops_at limits code e (Wire.get 0 (take 1 rest)) (Wire.get 0 (take 1 (drop 1 rest)))
        (drop 2 rest)

pub decode_endpoints : NodeRouterOptions → ℕ → Envelope → Bytes → Decoded
decode_endpoints limits code e rest = elim (take_id limits.max_node_id_bytes rest) [
  | none ↦ malformed
  | some (source, rest') ↦ elim (take_id limits.max_node_id_bytes rest') [
    | none ↦ malformed
    | some (destination, rest'') ↦
        decode_hops limits code (record e { source = source; destination = destination }) rest''
  ]
]

abbrev pub byte_at : ℕ → Bytes → ℕ
byte_at i wire = Wire.get 0 (take 1 (drop i wire))

-- The fields at fixed offsets.
pub decode_fixed : Bytes → Envelope
decode_fixed wire = record {
  version = 1;
  type = data_message;
  encrypted = byte_at 2 wire == 1;
  key_id = byte_at 3 wire;
  ttl = Wire.get 0 (take 4 (drop 4 wire));
  nonce = Wire.get 0 (take 4 (drop 8 wire));
  timestamp_ms = Wire.get 0 (take 8 (drop 12 wire));
  message_id = Wire.get 0 (take 8 (drop 20 wire));
  source = [];
  destination = [];
  route = [];
  route_pos = 0;
  payload = [];
}

-- The flags byte is `flags & ~1` free of reserved bits exactly when it is 0 or 1.
unfoldable pub decode_envelope : NodeRouterOptions → Bytes → Decoded
decode_envelope limits wire =
    if ltb (length wire) (fixed_header + tail_header) || ltb limits.max_envelope_bytes (length wire)
    then malformed
    else if not (byte_at 0 wire == 1)
    then unknown_version
    else if ltb 1 (byte_at 2 wire)
    then malformed
    else decode_endpoints limits (byte_at 1 wire) (decode_fixed wire) (drop fixed_header wire)
