-- ===== src/Node/Router/Handlers.antt =====
-- src/framework/node/node_proto.cpp: `run_send`, `receive`, `deliver`, `forward`, the two halves of
-- `handoff`, `stop`, and the tasks. `aead_crypt` calls OpenSSL, whose AES-256-GCM is a parameter.
use proto_relay.Base.{
  ℕ, ◌+◌, Bool, true, false, ◌&&◌, ◌||◌, Option, none, some, List, [], ◌∷◌, ◌++◌, length, take,
  drop, ltb, leb, ◌==◌, if◌then◌else◌, Bytes, bytes_eq, min,
}
use proto_relay.Base.Assoc
use proto_relay.Base.Eq.{nat_key, bytes_key}
use proto_relay.Base.Wire
use proto_relay.Base.Wire.{put}
use proto_relay.Node.Envelope.{
  MessageType, Envelope, Encoded, encoded, encode_header, encode_envelope,
}
use proto_relay.Node.Router.{
  ReturnPath, MessageErrorCode, Errc, Effect, Router, Fresh, emit, complete, return_route,
  send_fresh, handoff, first_hop, blank, send_generated, report,
}
use proto_relay.Node.Router.Replay.{
  message_id_seen_and_insert, nonce_seen_and_insert, outside_tolerance,
}

-- AES-256-GCM: `seal key nonce aad plain` is the ciphertext with its tag appended.
pub record Gcm : Type 0 where
  pub seal : Bytes → Bytes → Bytes → Bytes → Option Bytes
  pub unseal : Bytes → Bytes → Bytes → Bytes → Option Bytes

abbrev pub tag_bytes : ℕ
tag_bytes = 16

-- The checks in front of both directions of `aead_crypt`.
unfoldable pub aead_encrypt : Gcm → Bytes → Bytes → Bytes → Bytes → Option Bytes
aead_encrypt gcm key nonce aad plain =
    if length key == 32 && length nonce == 12 then gcm.seal key nonce aad plain else none

unfoldable pub aead_decrypt : Gcm → Bytes → Bytes → Bytes → Bytes → Option Bytes
aead_decrypt gcm key nonce aad cipher =
    if length key == 32 && length nonce == 12 && leb tag_bytes (length cipher)
    then gcm.unseal key nonce aad cipher
    else none

unfoldable pub aead_nonce : ℕ → ℕ → Bytes
aead_nonce message_id nonce = put 8 message_id ++ put 4 nonce

-- The header with `ttl` and `route_pos` zeroed, which every hop rewrites.
unfoldable pub aead_aad : Envelope → ℕ → Bytes
aead_aad e payload_len = encode_header (record e { ttl = 0; route_pos = 0 }) payload_len

-- `unique.count(hop)`
unfoldable pub member : Bytes → List Bytes → Bool
member x [] = false
member x (y ∷ ys) = bytes_eq x y || member x ys

-- The loop of `run_send` over the route; `unique` is the set of the hops so far.
unfoldable pub bad_relay : Router → Bytes → List Bytes → List Bytes → Bool
unfolding member
bad_relay r destination unique [] = false
bad_relay r destination unique (hop ∷ hops) =
    length hop == 0
    || ltb r.options.max_node_id_bytes (length hop)
    || bytes_eq hop r.node_id
    || bytes_eq hop destination
    || member hop unique
    || bad_relay r destination (hop ∷ unique) hops

-- What `run_send` has when it comes to `handoff`: a wire string, or a failure.
pub data Outgoing : Type 0 where
  to_send : Encoded → Outgoing
  failed : Errc → Outgoing

pub seal_with : Gcm → Envelope → Bytes → Outgoing
seal_with gcm m key =
    elim (aead_encrypt gcm key (aead_nonce m.message_id m.nonce)
      (aead_aad m (length m.payload + tag_bytes)) m.payload) [
        | none ↦ failed Errc.protocol_error
        | some cipher ↦ to_send (encoded (encode_header m (length cipher) ++ cipher))
      ]

-- `if (m.encrypted) { … } else { wire = encode_envelope(m); }`
unfoldable pub outgoing : Gcm → Router → Envelope → Outgoing
unfolding seal_with
outgoing gcm r m =
    if m.encrypted
    then elim (Assoc.lookup m.key_id r.keys) [
      | none ↦ failed Errc.not_supported
      | some key ↦ seal_with gcm m key
    ]
    else to_send (encode_envelope m)

-- The size check and the hand-off; an exception leaves the function.
unfoldable pub send_out : Envelope → Option ℕ → Outgoing → Router → Router
send_out m completion (failed ec) r = complete completion ec r
send_out m completion (to_send (Encoded.thrown x)) r = emit (Effect.raised x) r
send_out m completion (to_send (encoded w)) r =
    if ltb r.options.max_envelope_bytes (length w)
    then complete completion Errc.message_size r
    else handoff (first_hop m) (encoded w)
        (record { source = m.source; route = []; message_id = m.message_id; silent = true }) false
        completion r

unfoldable pub run_send : Gcm → Fresh → Envelope → Option ℕ → Router → Router
run_send gcm f m completion r =
    if r.stopped
    then complete completion Errc.operation_canceled r
    else if length m.destination == 0 || ltb r.options.max_node_id_bytes (length m.destination)
    then complete completion Errc.invalid_argument r
    else if ltb r.options.max_envelope_bytes (length m.payload)
    then complete completion Errc.message_size r
    else if ltb r.options.max_route_hops (length m.route)
    then complete completion Errc.invalid_argument r
    else if bad_relay r m.destination [] m.route
    then complete completion Errc.invalid_argument r
    else let m' = send_fresh r f m in send_out m' completion (outgoing gcm r m') r

-- The end of `deliver`, on the plaintext.
unfoldable pub hand_up : Fresh → ReturnPath → Envelope → Router → Router
hand_up f back e r = elim e.type [
  | MessageType.error ↦
      if leb 9 (length e.payload) && r.error_handler
      then emit
          (Effect.error_reported e (Wire.get 0 (take 1 e.payload))
            (Wire.get 0 (take 8 (drop 1 e.payload))))
          r
      else r
  | MessageType.probe ↦
      send_generated f (blank MessageType.ack e.source back.route (put 8 e.message_id ++ e.payload))
        r
  | _ ↦ if r.message_handler then emit (Effect.delivered e) r else r
]

-- The plaintext of an encrypted message, where the key is known and the tag fits.
unfoldable pub unseal_payload : Gcm → Envelope → Router → Option Bytes
unseal_payload gcm e r = elim (Assoc.lookup e.key_id r.keys) [
  | none ↦ none
  | some key ↦
      aead_decrypt gcm key (aead_nonce e.message_id e.nonce) (aead_aad e (length e.payload))
        e.payload
]

unfoldable pub open_payload : Gcm → Fresh → ReturnPath → Envelope → Router → Router
open_payload gcm f back e r =
    if e.encrypted
    then elim (unseal_payload gcm e r) [
      | none ↦ report f back MessageErrorCode.decrypt_failed r
      | some plain ↦ hand_up f back (record e { payload = plain }) r
    ]
    else hand_up f back e r

-- After the nonce window.
unfoldable pub dedup : Gcm → Fresh → ReturnPath → Envelope → Router → Router
dedup gcm f back e r =
    if r.options.dedup_by_message_id
    then (let (r', seen) = message_id_seen_and_insert f.now_ms e.message_id r in
        if seen then r' else open_payload gcm f back e r')
    else open_payload gcm f back e r

unfoldable pub is_error : MessageType → Bool
is_error MessageType.error = true
is_error _ = false

-- The way back to the source of a message, with the hops that it has come by.
unfoldable pub way_back : Envelope → ReturnPath
unfolding is_error return_route
way_back e = record {
  source = e.source;
  route = return_route e.route (min e.route_pos (length e.route));
  message_id = e.message_id;
  silent = is_error e.type;
}

unfoldable pub deliver : Gcm → Fresh → Envelope → Router → Router
deliver gcm f e r =
    let back = way_back e in
    if outside_tolerance f.now_ms e.timestamp_ms r.options.timestamp_tolerance
    then report f back MessageErrorCode.replay_rejected r
    else let (r', seen) = nonce_seen_and_insert f.now_ms e.source e.nonce r in
      if seen then report f back MessageErrorCode.replay_rejected r' else dedup gcm f back e r'
