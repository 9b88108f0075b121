-- ===== src/Node/Envelope/Fields.antt =====
-- Reading back one field of the wire form, with any bytes behind it.
use proto_relay.Base.{
  ℕ, ◌^◌, ◌≤◌, ◌<◌, Bool, true, false, some, List, [], ◌∷◌, ◌++◌, ◌≡◌, refl, arith, length,
  take-append, drop-append, length-append, All, Bytes, if◌then◌else◌,
}
use mathlib.Core.List.{append_assoc}
use proto_relay.Base.{◌==◌}
use proto_relay.Base.Wire
use proto_relay.Base.Wire.{put, get-put_one, get-put_two, get-put_four, get-put_eight, length-put}
use proto_relay.Node.Envelope.{
  Envelope, MessageType, data_message, ack, error, probe, type_code, type_of, encode_id,
  encode_route, encode_fixed, take_id, decode_route, decode_fixed,
}

-- A node id that the wire form and a decoder with this bound can carry.
pub record IsId (max : ℕ) (id : Bytes) : Type 0 where
  pub nonempty : 0 < length id
  pub short : length id ≤ 255
  pub allowed : length id ≤ max

pub type_of-type_code : (t : MessageType) → type_of (type_code t) ≡ some t
unfolding type_of type_code
type_of-type_code data_message = refl
type_of-type_code ack = refl
type_of-type_code error = refl
type_of-type_code probe = refl

pub take_id-encode_id :
    (max : ℕ) (id rest : Bytes) → IsId max id → take_id max (encode_id id ++ rest) ≡ some (id, rest)
unfolding take_id encode_id put
take_id-encode_id max id rest h = rw (get-put_two (length id) (omega arith)) (
    ground (
      arith,
      take-append id rest,
      drop-append id rest,
      length-append id rest,
      h.nonempty,
      h.allowed,
    ))

pub decode_route-encode_route :
    (max : ℕ) (hops : List Bytes) (rest : Bytes)
    → All (IsId max) hops
    → decode_route max (length hops) (encode_route hops ++ rest) ≡ some (hops, rest)
unfolding decode_route encode_route
decode_route-encode_route max [] rest h = refl
decode_route-encode_route max (hop ∷ hops) rest h =
    rw (append_assoc (encode_id hop) (encode_route hops) rest, decode_route)
      (rw (take_id-encode_id max hop (encode_route hops ++ rest) h.0, decode_route)
        (rw (decode_route-encode_route max hops rest h.1)))

-- The fixed fields of an encoded envelope, with the others still empty.
abbrev pub fixed_part : Envelope → Envelope
fixed_part e = record e {
  version = 1;
  type = data_message;
  source = [];
  destination = [];
  route = [];
  route_pos = 0;
  payload = [];
}

pub record HasWidths (e : Envelope) : Type 0 where
  pub key_id : e.key_id < 256
  pub ttl : e.ttl < 2 ^ 32
  pub nonce : e.nonce < 2 ^ 32
  pub timestamp_ms : e.timestamp_ms < 2 ^ 64
  pub message_id : e.message_id < 2 ^ 64

flag_bit : (b : Bool) → (Wire.get 0 (put 1 (if b then 1 else 0)) == 1) ≡ b
unfolding put Wire.get
flag_bit true = refl
flag_bit false = refl

pub decode_fixed-encode_fixed :
    (e : Envelope) (rest : Bytes)
    → HasWidths e
    → decode_fixed (encode_fixed e ++ rest) ≡ fixed_part e
unfolding decode_fixed encode_fixed put
decode_fixed-encode_fixed e rest h i = record {
  version = 1;
  type = data_message;
  encrypted = flag_bit e.encrypted i;
  key_id = get-put_one e.key_id h.key_id i;
  ttl = get-put_four e.ttl (omega (arith, h.ttl)) i;
  nonce = get-put_four e.nonce (omega (arith, h.nonce)) i;
  timestamp_ms = get-put_eight e.timestamp_ms (omega (arith, h.timestamp_ms)) i;
  message_id = get-put_eight e.message_id (omega (arith, h.message_id)) i;
  source = [];
  destination = [];
  route = [];
  route_pos = 0;
  payload = [];
}
