-- ===== src/Tests/Envelopes.antt =====
-- src/framework/node/node_proto.cpp, the codec, at concrete inputs.
use proto_relay.Base.{true, false, [], ◌∷◌, ◌≡◌, refl, Bytes, codes, arith}
use proto_relay.Base.Wire.{put}
use proto_relay.Node.Envelope.{
  Envelope, NodeRouterOptions, MessageType, encoded, ok, encode_envelope, decode_envelope,
  encode_header,
}
use proto_relay.Node.Envelope.RoundTrip.{Fits, decode-encode_envelope}

-- The defaults of `NodeRouterOptions`.
abbrev pub default_options : NodeRouterOptions
default_options = record {
  max_envelope_bytes = 262144;
  max_node_id_bytes = 255;
  max_route_hops = 8;
  max_hops = 8;
  timestamp_tolerance = 30000;
  max_in_flight = 128;
  seen_message_capacity = 4096;
  nonce_capacity = 4096;
  max_tracked_sources = 256;
  dedup_by_message_id = true;
  forward_enabled = true;
}

-- From `a` to `d` by the relays `b` and `c`.
abbrev pub letter : Envelope
letter = record {
  version = 1;
  type = MessageType.error;
  encrypted = false;
  key_id = 7;
  ttl = 3;
  nonce = 77;
  timestamp_ms = 1700000000000;
  message_id = 4242;
  source = codes "a";
  destination = codes "d";
  route = codes "b" ∷ codes "c" ∷ [];
  route_pos = 1;
  payload = codes "hi";
}

pub letter-Fits : Fits default_options letter
unfolding encode_header put
letter-Fits = record {
  version = refl;
  widths = record {
    key_id = omega arith;
    ttl = omega arith;
    nonce = omega arith;
    timestamp_ms = omega arith;
    message_id = omega arith;
  };
  source = omega arith;
  destination = omega arith;
  hops = (omega arith, (omega arith, tt));
  route_short = omega arith;
  route_allowed = omega arith;
  position = omega arith;
  payload = omega arith;
  size = omega arith;
}

wire_test :
    encode_envelope (record letter { type = MessageType.ack; payload = [] })
    ≡ encoded (
        1 ∷ 2 ∷ 0 ∷ 7 ∷ 0 ∷ 0 ∷ 0 ∷ 3 ∷ 0 ∷ 0 ∷ 0 ∷ 77 ∷ 0 ∷ 0 ∷ 1 ∷ 139 ∷ 207 ∷ 229 ∷ 104 ∷ 0 ∷ 0
        ∷ 0 ∷ 0 ∷ 0 ∷ 0 ∷ 0 ∷ 16 ∷ 146 ∷ 0 ∷ 1 ∷ 97 ∷ 0 ∷ 1 ∷ 100 ∷ 2 ∷ 1 ∷ 0 ∷ 1 ∷ 98 ∷ 0 ∷ 1 ∷ 99
        ∷ 0 ∷ 0 ∷ 0 ∷ 0 ∷ [])
unfolding encode_envelope encode_header put
wire_test = refl

decode-encode_envelope_example :
    (w : Bytes) × (encode_envelope letter ≡ encoded w)
    × (decode_envelope default_options w ≡ ok letter)
decode-encode_envelope_example = decode-encode_envelope default_options letter letter-Fits
