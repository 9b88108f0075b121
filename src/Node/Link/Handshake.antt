-- ===== src/Node/Link/Handshake.antt =====
-- src/framework/node/node_link.cpp: what a frame may do to a link, and when it makes it ready.
use proto_relay.Base.{
  ℕ, ◌-◌, ◌≤◌, ◌≡◌, refl, arith, Bool, true, false, ◌&&◌, ◌||◌, not, Option, none, some, length,
  ◌==◌, if◌then◌else◌, Bytes, bytes_eq, bytes_eq_iff, take,
}
use proto_relay.Node.LinkWire.{
  Frame, FrameType, Challenge, EpochUpdate, decode_challenge, decode_auth_response,
  decode_epoch_update, auth_message, signature_bytes,
}
use proto_relay.Node.Link.{
  Link, LinkError, Outside, emit, disconnect, become_ready, emit_state, set_peer,
}
use proto_relay.Node.Link.Handlers.{
  Credentials, is_done, is_hello, is_handshake, is_challenging, is_responding, expects,
  peer_acceptable, seen_nonce, remember_challenge, accept_challenge, handle_hello_challenge,
  verified, accept_auth, handle_hello_auth, accept_epoch, apply_epoch_config, handle_ordinary,
  first_hello, handle_unauthenticated, handle_authenticated, handle_frame, handle_control,
}
use proto_relay.Node.Link.Calm.{
  Calm, calm, Calm-refl, then_Calm, if_Calm, disconnect-Calm, send_signature-Calm, after_apply-Calm,
  handle_typed-Calm,
}

-- A step that adds nothing to the buffer, and makes the link ready only where `V` holds.
record Guarded (V : Type 0) (l l' : Link) : Type 0 where
  shorter : length l'.incoming ≤ length l.incoming
  same_options : l'.options ≡ l.options
  only_if : l.ready ≡ false → l'.ready ≡ true → V

Calm-Guarded : {V : Type 0} {l l' : Link} → Calm l l' → Guarded V l l'
Calm-Guarded h = record {
  shorter = h.shorter;
  same_options = h.same_options;
  only_if = λ r r'. ground (arith, h.unready r, r');
}

if_Guarded :
    {V : Type 0} {l l1 l2 : Link} (b : Bool)
    → (b ≡ true → Guarded V l l1)
    → (b ≡ false → Guarded V l l2)
    → Guarded V l (if b then l1 else l2)
if_Guarded true h k = h refl
if_Guarded false h k = k refl

become_ready-Guarded :
    {V : Type 0} (id : Bytes) (epoch : ℕ) (l : Link) → V → Guarded V l (become_ready id epoch l)
unfolding become_ready set_peer emit_state emit
become_ready-Guarded id epoch l v = record {
  shorter = ground arith;
  same_options = ground arith;
  only_if = λ r r'. v;
}

module _ (k : Credentials) (x : Outside) where
  accept_challenge-Calm : (o : Option Challenge) (l : Link) → Calm l (accept_challenge k x o l)
  unfolding accept_challenge remember_challenge
  accept_challenge-Calm none l = disconnect-Calm x _ l
  accept_challenge-Calm (some c) l =
      if_Calm (not (peer_acceptable c.node_id l) || seen_nonce c.nonce l.seen_nonces)
        (disconnect-Calm x _ l)
        (then_Calm {l2 = remember_challenge c l} (calm (omega arith) refl (λ r. r)) (
          send_signature-Calm x
            (k.sign (auth_message l.options.node_id l.own_challenge.nonce c.node_id c.nonce)) _))

  accept_epoch-Calm :
      (payload : Bytes) (o : Option EpochUpdate) (l : Link) → Calm l (accept_epoch k x payload o l)
  unfolding accept_epoch
  accept_epoch-Calm payload none l = disconnect-Calm x _ l
  accept_epoch-Calm payload (some u) l =
      if_Calm
        (k.verify l.trust.controller_public_key (take (length payload - signature_bytes) payload)
          u.signature)
        (after_apply-Calm _ l) (Calm-refl l)

  -- The response `r` of the payload is for the challenge of the peer, and signed with its key.
  abbrev pub Verifies : Bytes → Link → Type 0
  Verifies payload l =
      (r : Challenge) × (decode_auth_response payload ≡ some r)
      × (is_responding l.auth_state ≡ true)
      × (r.node_id ≡ l.peer_challenge.node_id)
      × (verified k r l ≡ true)

  accept_auth-Guarded :
      (payload : Bytes) (o : Option Challenge) (l : Link)
      → decode_auth_response payload ≡ o
      → is_responding l.auth_state ≡ true
      → Guarded (Verifies payload l) l (accept_auth k x o l)
  unfolding accept_auth
  accept_auth-Guarded payload none l h a = Calm-Guarded (disconnect-Calm x _ l)
  accept_auth-Guarded payload (some r) l h a =
      if_Guarded (not (bytes_eq r.node_id l.peer_challenge.node_id))
        (λ e. Calm-Guarded (disconnect-Calm x _ l))
        (λ e.
          if_Guarded (not (verified k r l)) (λ e'. Calm-Guarded (disconnect-Calm x _ l))
            (λ e'. become_ready-Guarded r.node_id r.epoch l (
              r,
              h,
              a,
              (bytes_eq_iff r.node_id l.peer_challenge.node_id).0 (ground (arith, e)),
              ground (arith, e'),
            )))

  handle_hello_auth-Guarded :
      (payload : Bytes) (l : Link)
      → Guarded (Verifies payload l) l (handle_hello_auth k x payload l)
  unfolding handle_hello_auth
  handle_hello_auth-Guarded payload l =
      if_Guarded (is_responding l.auth_state) (accept_auth-Guarded payload _ l refl)
        (λ e. Calm-Guarded (disconnect-Calm x _ l))

  ordinary-Calm :
      (f : Frame) (l : Link)
      → Calm l (
          if is_done l.auth_state
          then handle_ordinary x f l
          else disconnect x LinkError.permission_denied l)
  unfolding handle_ordinary
  ordinary-Calm f l =
      if_Calm (is_done l.auth_state) (handle_typed-Calm x f.type f l) (disconnect-Calm x _ l)

  handle_control-Guarded :
      (t : FrameType) (f : Frame) (l : Link)
      → Guarded ((t ≡ FrameType.hello_auth) × Verifies f.payload l) l (handle_control k x t f l)
  unfolding handle_control handle_hello_challenge apply_epoch_config
  handle_control-Guarded FrameType.hello f l = Calm-Guarded (
      if_Calm (is_challenging l.auth_state) (accept_challenge-Calm (decode_challenge f.payload) l)
        (disconnect-Calm x _ l))
  handle_control-Guarded FrameType.hello_auth f l =
      let g = handle_hello_auth-Guarded f.payload l in
      record {
        shorter = g.shorter;
        same_options = g.same_options;
        only_if = λ r r'. (refl, g.only_if r r');
      }
  handle_control-Guarded FrameType.epoch_config f l = Calm-Guarded (
      if_Calm (is_done l.auth_state) (accept_epoch-Calm f.payload (decode_epoch_update f.payload) l)
        (disconnect-Calm x _ l))
  handle_control-Guarded FrameType.ping f l = Calm-Guarded (ordinary-Calm f l)
  handle_control-Guarded FrameType.pong f l = Calm-Guarded (ordinary-Calm f l)
  handle_control-Guarded FrameType.request f l = Calm-Guarded (ordinary-Calm f l)
  handle_control-Guarded FrameType.response f l = Calm-Guarded (ordinary-Calm f l)
  handle_control-Guarded FrameType.notify f l = Calm-Guarded (ordinary-Calm f l)

  -- A frame makes a link with credentials ready only if it is a `hello_auth`, while the link waits
  -- for the response to its challenge; its payload decodes to a response of the node that sent the
  -- peer's challenge, and its signature over the ids and both nonces of this session verifies under
  -- the key that the trust store has for that node.
  pub handle_frame-ready :
      (f : Frame) (l : Link)
      → l.authenticated ≡ true
      → l.ready ≡ false
      → (handle_frame k x f l).ready ≡ true
      → (f.type ≡ FrameType.hello_auth) × Verifies f.payload l
  unfolding handle_frame handle_authenticated
  handle_frame-ready f l a r h =
      (handle_control-Guarded f.type f l).only_if r (ground (arith, a, h))

  handle_unauthenticated-Guarded :
      (f : Frame) (l : Link) → Guarded Unit l (handle_unauthenticated x f l)
  unfolding handle_unauthenticated first_hello handle_ordinary
  handle_unauthenticated-Guarded f l =
      if_Guarded (is_handshake f.type && not (is_hello f.type))
        (λ e. Calm-Guarded (disconnect-Calm x _ l))
        (λ e.
          if_Guarded (not (is_done l.auth_state))
            (λ e.
              if_Guarded
                (not (is_hello f.type)
                  || (length f.payload == 0 || not (expects l.options f.payload)))
                (λ e. Calm-Guarded (disconnect-Calm x _ l)) (λ e. become_ready-Guarded _ _ l tt))
            (λ e.
              if_Guarded (is_hello f.type) (λ e. Calm-Guarded (disconnect-Calm x _ l))
                (λ e. Calm-Guarded (handle_typed-Calm x f.type f l))))

  pub length-handle_frame :
      (f : Frame) (l : Link)
      → (length (handle_frame k x f l).incoming ≤ length l.incoming)
        × ((handle_frame k x f l).options ≡ l.options)
  unfolding handle_frame handle_authenticated
  length-handle_frame f l = ground (
    arith,
    (handle_control-Guarded f.type f l).shorter,
    (handle_control-Guarded f.type f l).same_options,
    (handle_unauthenticated-Guarded f l).shorter,
    (handle_unauthenticated-Guarded f l).same_options,
  )
