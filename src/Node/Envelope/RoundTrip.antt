-- ===== src/Node/Envelope/RoundTrip.antt =====
-- Decoding what `encode_envelope` wrote gives the envelope back.
use proto_relay.Node.Envelope.{byte_at}
use mathlib.Core.List.{append_assoc}
use proto_relay.Base.{
  ℕ, ◌+◌, ◌^◌, ◌≤◌, ◌<◌, Bool, true, false, List, [], ◌∷◌, ◌++◌, ◌≡◌, refl, ap, ◌∙◌, sym, arith,
  length, drop, length-append, All, Bytes, ltb, if◌then◌else◌,
}
use proto_relay.Base.Wire
use proto_relay.Base.Wire.{put, get-put_one, get-put_four, length-put}
use proto_relay.Node.Envelope.{
  Envelope, NodeRouterOptions, MessageType, type_code, encode_id, encode_route, encode_fixed,
  encode_header, encoded, bad_id, bad_hop, encode_envelope, ok, finish, decode_payload, decode_hops,
  decode_hops_at, decode_endpoints, decode_envelope,
}
use proto_relay.Node.Envelope.Fields.{
  IsId, HasWidths, fixed_part, type_of-type_code, take_id-encode_id, decode_route-encode_route,
  decode_fixed-encode_fixed,
}

-- An envelope that the encoder accepts and a decoder with these limits admits.
pub record Fits (limits : NodeRouterOptions) (e : Envelope) : Type 0 where
  pub version : e.version ≡ 1
  pub widths : HasWidths e
  pub source : IsId limits.max_node_id_bytes e.source
  pub destination : IsId limits.max_node_id_bytes e.destination
  pub hops : All (IsId limits.max_node_id_bytes) e.route
  pub route_short : length e.route ≤ 255
  pub route_allowed : length e.route ≤ limits.max_route_hops
  pub position : e.route_pos ≤ length e.route
  pub payload : length e.payload < 2 ^ 32
  pub size : length (encode_header e (length e.payload) ++ e.payload) ≤ limits.max_envelope_bytes

bad_id-IsId : (max : ℕ) (id : Bytes) → IsId max id → bad_id id ≡ false
unfolding bad_id
bad_id-IsId max id h = ground (arith, h.nonempty, h.short)

bad_hop-IsId : (max : ℕ) (hops : List Bytes) → All (IsId max) hops → bad_hop hops ≡ false
unfolding bad_hop
bad_hop-IsId max [] h = refl
bad_hop-IsId max (hop ∷ hops) h = ground (arith, bad_id-IsId max hop h.0, bad_hop-IsId max hops h.1)

-- An envelope that fits is encoded, as its header and its payload.
pub encode_envelope-Fits :
    {limits : NodeRouterOptions} (e : Envelope)
    → Fits limits e
    → encode_envelope e ≡ encoded (encode_header e (length e.payload) ++ e.payload)
unfolding encode_envelope
encode_envelope-Fits {limits} e f = ground (
  arith,
  f.version,
  bad_id-IsId _ e.source f.source,
  bad_id-IsId _ e.destination f.destination,
  bad_hop-IsId _ e.route f.hops,
  f.route_short,
  f.position,
  f.payload,
)

finish-type_code :
    (e e' : Envelope) → record e' { type = e.type } ≡ e → finish (type_code e.type) e' ≡ ok e
unfolding finish
finish-type_code e e' h = rw (type_of-type_code e.type, finish) (ap ok h)

decode_payload-encode :
    (limits : NodeRouterOptions) (e e' : Envelope)
    → length e.payload < 2 ^ 32
    → record e' { type = e.type; payload = e.payload } ≡ e
    → decode_payload (type_code e.type) e' (put 4 (length e.payload) ++ e.payload) ≡ ok e
unfolding decode_payload put
decode_payload-encode limits e e' h same =
    rw (get-put_four (length e.payload) (omega arith))
      (ground (arith, finish-type_code e (record e' { payload = e.payload }) same))

decode_hops_at-encode :
    (limits : NodeRouterOptions) (e e' : Envelope)
    → Fits limits e
    → record e' { type = e.type; route = e.route; route_pos = e.route_pos; payload = e.payload } ≡ e
    → decode_hops_at limits
        (type_code e.type)
        e'
        (length e.route)
        e.route_pos
        (encode_route e.route ++ (put 4 (length e.payload) ++ e.payload))
      ≡ ok e
unfolding decode_hops_at
decode_hops_at-encode limits e e' f same = ground (
  arith,
  f.route_allowed,
  f.position,
  decode_route-encode_route limits.max_node_id_bytes e.route (put 4 (length e.payload) ++ e.payload)
      f.hops,
  decode_payload-encode limits e (record e' { route = e.route; route_pos = e.route_pos }) f.payload
      same,
)

two_bytes :
    (limits : NodeRouterOptions) (code : ℕ) (e : Envelope) (route_len route_pos : ℕ) (rest : Bytes)
    → route_len < 256
    → route_pos < 256
    → decode_hops limits code e (put 1 route_len ++ (put 1 route_pos ++ rest))
      ≡ decode_hops_at limits code e route_len route_pos rest
unfolding decode_hops put
two_bytes limits code e route_len route_pos rest a b =
    rw (get-put_one route_len a) (rw (get-put_one route_pos b) (ground arith))

decode_hops-encode :
    (limits : NodeRouterOptions) (e e' : Envelope)
    → Fits limits e
    → record e' { type = e.type; route = e.route; route_pos = e.route_pos; payload = e.payload } ≡ e
    → decode_hops limits (type_code e.type) e' (
        put 1 (length e.route)
        ++ (put 1 e.route_pos ++ (encode_route e.route ++ (put 4 (length e.payload) ++ e.payload))))
      ≡ ok e
decode_hops-encode limits e e' f same =
    two_bytes limits (type_code e.type) e' (length e.route) e.route_pos _
      (omega (arith, f.route_short)) (omega (arith, f.route_short, f.position))
    ∙ decode_hops_at-encode limits e e' f same

decode_endpoints-encode :
    (limits : NodeRouterOptions) (e e' : Envelope) (rest : Bytes)
    → Fits limits e
    → decode_endpoints limits
        (type_code e.type)
        e'
        (encode_id e.source ++ (encode_id e.destination ++ rest))
      ≡ decode_hops limits
          (type_code e.type)
          (record e' { source = e.source; destination = e.destination })
          rest
unfolding decode_endpoints
decode_endpoints-encode limits e e' rest f = ground (
  arith,
  take_id-encode_id limits.max_node_id_bytes e.source (encode_id e.destination ++ rest) f.source,
  take_id-encode_id limits.max_node_id_bytes e.destination rest f.destination,
)

-- What follows the fixed header, grouped as the decoder reads it.
after : Envelope → Bytes
after e =
    encode_id e.source
    ++ (encode_id e.destination
        ++ (put 1 (length e.route)
            ++ (put 1 e.route_pos
                ++ (encode_route e.route ++ (put 4 (length e.payload) ++ e.payload)))))

header_split :
    (e : Envelope) → encode_header e (length e.payload) ++ e.payload ≡ encode_fixed e ++ after e
unfolding encode_header after
header_split e = simp append_assoc

after_fixed : (e : Envelope) (rest : Bytes) → drop 28 (encode_fixed e ++ rest) ≡ rest
unfolding encode_fixed put
after_fixed e rest = refl

type_byte : (t : MessageType) → Wire.get 0 (put 1 (type_code t)) ≡ type_code t
unfolding type_code put Wire.get
type_byte MessageType.data_message = refl
type_byte MessageType.ack = refl
type_byte MessageType.error = refl
type_byte MessageType.probe = refl

flag_small : (b : Bool) → ltb 1 (Wire.get 0 (put 1 (if b then 1 else 0))) ≡ false
unfolding put Wire.get
flag_small true = refl
flag_small false = refl

fixed_bytes :
    (e : Envelope) (rest : Bytes)
    → e.version ≡ 1
    → (byte_at 0 (encode_fixed e ++ rest) ≡ 1)
      × (byte_at 1 (encode_fixed e ++ rest) ≡ type_code e.type)
      × (ltb 1 (byte_at 2 (encode_fixed e ++ rest)) ≡ false)
unfolding encode_fixed put
fixed_bytes e rest v =
    (get-put_one e.version (omega (arith, v)) ∙ v, type_byte e.type, flag_small e.encrypted)

length-encode_fixed :
    (e : Envelope) (rest : Bytes) → length (encode_fixed e ++ rest) ≡ 28 + length rest
unfolding encode_fixed put
length-encode_fixed e rest = omega arith

after_long : (e : Envelope) → 4 ≤ length (after e)
unfolding after encode_id put
after_long e = omega (arith, length-append e.source)

endpoints-after :
    (limits : NodeRouterOptions) (e : Envelope)
    → Fits limits e
    → decode_endpoints limits (type_code e.type) (fixed_part e) (after e) ≡ ok e
unfolding after
endpoints-after limits e f =
    decode_endpoints-encode limits e (fixed_part e) _ f
    ∙ decode_hops-encode limits e _ f (ap (λ v. record e { version = v }) (sym f.version))

-- Decoding what the encoder wrote.
decode-encode_wire :
    (limits : NodeRouterOptions) (e : Envelope)
    → Fits limits e
    → decode_envelope limits (encode_header e (length e.payload) ++ e.payload) ≡ ok e
unfolding decode_envelope
decode-encode_wire limits e f =
    let fits : length (encode_fixed e ++ after e) ≤ limits.max_envelope_bytes =
      rw (header_split e) at f.size in
    rw (header_split e) (
      ground (
        arith,
        fits,
        after_long e,
        length-encode_fixed e (after e),
        fixed_bytes e (after e) f.version,
        after_fixed e (after e),
        decode_fixed-encode_fixed e (after e) f.widths,
        endpoints-after limits e f,
      ))

-- An envelope that fits the limits is encoded without an exception, and decoding the wire string
-- gives back the envelope, every field of it.
pub decode-encode_envelope :
    (limits : NodeRouterOptions) (e : Envelope)
    → Fits limits e
    → (w : Bytes) × (encode_envelope e ≡ encoded w) × (decode_envelope limits w ≡ ok e)
decode-encode_envelope limits e f = (
  encode_header e (length e.payload) ++ e.payload,
  encode_envelope-Fits e f,
  decode-encode_wire limits e f,
)
