-- ===== src/Node/Link/Handlers.antt =====
-- src/framework/node/node_link.cpp: what a link does with the bytes that it receives. The calls of
-- libsodium behind the credentials are a parameter; `verify` does not throw.
use proto_relay.Base.{
  ℕ, zero, suc, ◌+◌, ◌-◌, Bool, true, false, ◌&&◌, ◌||◌, not, Option, none, some, List, [], ◌∷◌,
  ◌++◌, length, take, drop, ltb, ◌==◌, if◌then◌else◌, Bytes, bytes_eq,
}
use proto_relay.Base.Wire
use proto_relay.Node.Trust.{Applied, stale, malformed_entry, applied, apply, trusts, neighbor_key}
use proto_relay.Node.LinkWire.{
  Frame, FrameType, Challenge, EpochUpdate, decode_frame, decode_challenge, encode_auth_response,
  decode_auth_response, decode_epoch_update, auth_message, signature_bytes,
}
use proto_relay.Node.Link.{
  Link, LinkOptions, LinkError, AuthState, Task, Effect, Outside, emit, raise, post, disconnect,
  enqueue_or, complete, become_ready, has_connection, nonce_cache,
}

-- `none` where `sign` throws.
pub record Credentials : Type 0 where
  pub sign : Bytes → Option Bytes
  pub verify : Bytes → Bytes → Bytes → Bool

unfoldable pub is_done : AuthState → Bool
is_done AuthState.done = true
is_done _ = false

unfoldable pub is_responding : AuthState → Bool
is_responding AuthState.responding = true
is_responding _ = false

unfoldable pub is_challenging : AuthState → Bool
is_challenging AuthState.challenging = true
is_challenging _ = false

unfoldable pub is_handshake : FrameType → Bool
is_handshake FrameType.hello = true
is_handshake FrameType.hello_auth = true
is_handshake FrameType.epoch_config = true
is_handshake _ = false

unfoldable pub is_hello : FrameType → Bool
is_hello FrameType.hello = true
is_hello _ = false

unfoldable pub expects : LinkOptions → Bytes → Bool
expects o id = length o.expected_peer_id == 0 || bytes_eq o.expected_peer_id id

unfoldable pub peer_acceptable : Bytes → Link → Bool
unfolding expects
peer_acceptable id l =
    if length id == 0 || bytes_eq id l.options.node_id
    then false
    else trusts id l.trust.snapshot.neighbors && expects l.options id

unfoldable pub seen_nonce : Bytes → List Bytes → Bool
seen_nonce nonce [] = false
seen_nonce nonce (n ∷ ns) = bytes_eq n nonce || seen_nonce nonce ns

-- `push_back`, and `pop_front` while there are more than `kNonceCache`.
unfoldable pub remember_nonce : Bytes → List Bytes → List Bytes
remember_nonce nonce seen = let all = seen ++ nonce ∷ [] in drop (length all - nonce_cache) all

-- The end of `handle_hello_challenge`, by what the signer gave.
unfoldable pub send_signature : Outside → Option Bytes → Link → Link
send_signature x none l = disconnect x LinkError.operation_not_permitted l
send_signature x (some signature) l =
    if not (length signature == signature_bytes)
    then disconnect x LinkError.no_buffer_space l
    else enqueue_or x LinkError.no_buffer_space
        (record {
          type = FrameType.hello_auth;
          id = 0;
          payload = encode_auth_response (record {
            node_id = l.options.node_id;
            epoch = l.trust.snapshot.epoch;
            nonce = signature;
          });
        })
        l

unfoldable pub remember_challenge : Challenge → Link → Link
unfolding remember_nonce
remember_challenge c l = record l {
  seen_nonces = remember_nonce c.nonce l.seen_nonces;
  peer_challenge = c;
  auth_state = AuthState.responding;
}

-- `apply`, which tells the listeners: this link's one posts a recheck.
unfoldable pub after_apply : Applied → Link → Link
after_apply stale l = l
after_apply malformed_entry l = raise l
after_apply (applied store) l = post (Task.task_recheck store.snapshot) (record l { trust = store })

module _ (k : Credentials) where
  unfoldable pub accept_challenge : Outside → Option Challenge → Link → Link
  unfolding send_signature remember_challenge
  accept_challenge x none l = disconnect x LinkError.protocol_error l
  accept_challenge x (some c) l =
      if not (peer_acceptable c.node_id l) || seen_nonce c.nonce l.seen_nonces
      then disconnect x LinkError.permission_denied l
      else send_signature x
          (k.sign (auth_message l.options.node_id l.own_challenge.nonce c.node_id c.nonce))
          (remember_challenge c l)

  unfoldable pub handle_hello_challenge : Outside → Bytes → Link → Link
  unfolding accept_challenge
  handle_hello_challenge x payload l =
      if is_challenging l.auth_state
      then accept_challenge x (decode_challenge payload) l
      else disconnect x LinkError.protocol_error l

  -- The signature of a response, over both nonces, under the key of the neighbor.
  unfoldable pub verified : Challenge → Link → Bool
  verified r l =
      k.verify (neighbor_key r.node_id l.trust.snapshot.neighbors)
        (auth_message r.node_id l.peer_challenge.nonce l.options.node_id l.own_challenge.nonce)
        r.nonce

  unfoldable pub accept_auth : Outside → Option Challenge → Link → Link
  accept_auth x none l = disconnect x LinkError.protocol_error l
  accept_auth x (some r) l =
      if not (bytes_eq r.node_id l.peer_challenge.node_id)
      then disconnect x LinkError.permission_denied l
      else if not (verified r l)
      then disconnect x LinkError.permission_denied l
      else become_ready r.node_id r.epoch l

  unfoldable pub handle_hello_auth : Outside → Bytes → Link → Link
  unfolding accept_auth
  handle_hello_auth x payload l =
      if is_responding l.auth_state
      then accept_auth x (decode_auth_response payload) l
      else disconnect x LinkError.protocol_error l

  unfoldable pub accept_epoch : Outside → Bytes → Option EpochUpdate → Link → Link
  unfolding after_apply
  accept_epoch x payload none l = disconnect x LinkError.protocol_error l
  accept_epoch x payload (some u) l =
      if k.verify l.trust.controller_public_key (take (length payload - signature_bytes) payload)
        u.signature
      then after_apply
          (apply (record { epoch = u.epoch; neighbors = u.neighbors; revoked = u.revoked }) l.trust)
          l
      else l

  unfoldable pub apply_epoch_config : Outside → Bytes → Link → Link
  unfolding accept_epoch
  apply_epoch_config x payload l = accept_epoch x payload (decode_epoch_update payload) l

-- The last switch of `handle_frame`, by the type of the frame.
unfoldable pub handle_typed : Outside → FrameType → Frame → Link → Link
handle_typed x FrameType.ping f l =
    enqueue_or x LinkError.no_buffer_space (record { type = FrameType.pong; id = 0; payload = [] })
      l
handle_typed x FrameType.pong f l = record l { awaiting_pong = false }
handle_typed x FrameType.request f l =
    if l.request_handler then emit (Effect.request_received f.id f.payload) l else l
handle_typed x FrameType.response f l = complete f.id LinkError.success f.payload l
handle_typed x FrameType.notify f l =
    if l.notify_handler then emit (Effect.notify_received f.payload) l else l
handle_typed x FrameType.hello f l = l
handle_typed x FrameType.epoch_config f l = l
handle_typed x FrameType.hello_auth f l = l

unfoldable pub handle_ordinary : Outside → Frame → Link → Link
unfolding handle_typed
handle_ordinary x f l = handle_typed x f.type f l

-- A link without credentials: the peer's first frame is a hello with its id.
unfoldable pub first_hello : Outside → Frame → Link → Link
first_hello x f l =
    if not (is_hello f.type) || (length f.payload == 0 || not (expects l.options f.payload))
    then disconnect x LinkError.permission_denied l
    else become_ready f.payload 0 l

unfoldable pub handle_unauthenticated : Outside → Frame → Link → Link
unfolding first_hello handle_ordinary
handle_unauthenticated x f l =
    if is_handshake f.type && not (is_hello f.type)
    then disconnect x LinkError.protocol_error l
    else if not (is_done l.auth_state)
    then first_hello x f l
    else if is_hello f.type
    then disconnect x LinkError.protocol_error l
    else handle_ordinary x f l

module _ (k : Credentials) where
  -- The first switch of `handle_frame`.
  unfoldable pub handle_control : Outside → FrameType → Frame → Link → Link
  unfolding handle_ordinary handle_hello_challenge handle_hello_auth apply_epoch_config
  handle_control x FrameType.hello f l = handle_hello_challenge k x f.payload l
  handle_control x FrameType.hello_auth f l = handle_hello_auth k x f.payload l
  handle_control x FrameType.epoch_config f l =
      if is_done l.auth_state
      then apply_epoch_config k x f.payload l
      else disconnect x LinkError.protocol_error l
  handle_control x _ f l =
      if is_done l.auth_state
      then handle_ordinary x f l
      else disconnect x LinkError.permission_denied l

  unfoldable pub handle_authenticated : Outside → Frame → Link → Link
  unfolding handle_control
  handle_authenticated x f l = handle_control x f.type f l

  unfoldable pub handle_frame : Outside → Frame → Link → Link
  unfolding handle_authenticated handle_unauthenticated
  handle_frame x f l =
      if l.authenticated then handle_authenticated x f l else handle_unauthenticated x f l

-- What `consume` finds at the front of its buffer.
pub data Front : Type 0 where
  incomplete : Front
  broken : Front
  framed : ℕ → Frame → Front

unfoldable pub framed_or_broken : ℕ → Option Frame → Front
framed_or_broken size none = broken
framed_or_broken size (some f) = framed size f

unfoldable pub front : ℕ → Bytes → Front
unfolding framed_or_broken
front max_frame_bytes incoming =
    let size = Wire.get 0 (take 4 incoming) in
    if ltb (length incoming) 4
    then incomplete
    else if ltb size 10 || ltb max_frame_bytes size
    then broken
    else if ltb (length incoming) (size + 4)
    then incomplete
    else framed_or_broken size (decode_frame max_frame_bytes (take size (drop 4 incoming)))

-- `incoming_.erase(0, length + 4)`
unfoldable pub erase_front : ℕ → Link → Link
erase_front size l = record l { incoming = drop (size + 4) l.incoming }

module _ (k : Credentials) (x : Outside) where
  -- One turn of the loop, `rest` is the loop itself: `if (!connection_) return`; an exception
  -- leaves it too.
  unfoldable pub consume_front : (Link → Link) → Front → Link → Link
  consume_front rest incomplete l = l
  consume_front rest broken l = disconnect x LinkError.protocol_error l
  consume_front rest (framed size f) l =
      let l' = handle_frame k x f (erase_front size l) in
      if has_connection l' && not l'.raised then rest l' else l'

  -- The loop of `consume`. A turn removes at least 14 bytes, so their number is enough fuel.
  unfoldable pub consume_on : ℕ → Link → Link
  unfolding consume_front
  consume_on zero l = l
  consume_on (suc n) l = consume_front (consume_on n) (front l.options.max_frame_bytes l.incoming) l

  unfoldable pub consume : Bytes → Link → Link
  unfolding consume_on
  consume bytes l =
      let l' = record l { incoming = l.incoming ++ bytes } in consume_on (length l'.incoming) l'
