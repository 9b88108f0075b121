-- ===== src/Node/Link/KeptSteps.antt =====
-- src/framework/node/node_link.cpp: every event of a link keeps the account of the completions and
-- the bounds on its queues.
use proto_relay.Base.{
  ℕ, zero, suc, ◌-◌, ◌≤◌, refl, arith, ◌&&◌, ◌||◌, not, Option, none, some, List, [], ◌∷◌, ◌++◌,
  length, length-drop, ◌==◌, if◌then◌else◌, Bytes, bytes_eq, take,
}
use proto_relay.Node.Trust.{Applied}
use proto_relay.Node.LinkWire.{
  Frame, FrameType, Challenge, EpochUpdate, decode_epoch_update, auth_message, signature_bytes,
}
use proto_relay.Node.Link.{Link, LinkError, Outside, disconnect, has_connection, nonce_cache}
use proto_relay.Node.Link.Handlers.{
  Credentials, is_done, is_hello, is_handshake, is_challenging, is_responding, expects,
  peer_acceptable, seen_nonce, remember_nonce, send_signature, remember_challenge, accept_challenge,
  handle_hello_challenge, verified, accept_auth, handle_hello_auth, after_apply, accept_epoch,
  apply_epoch_config, handle_ordinary, first_hello, handle_unauthenticated, handle_authenticated,
  handle_frame, consume_on, consume, handle_typed, handle_control, Front, erase_front,
  consume_front,
}
use proto_relay.Node.Link.Kept.{
  Kept, kept, Kept-refl, then_Kept, if_Kept, emit-Kept, post-Kept, complete-Kept, disconnect-Kept,
  enqueue_or-Kept, become_ready-Kept, raise-Kept,
}

send_signature-Kept : (x : Outside) (o : Option Bytes) (l : Link) → Kept l (send_signature x o l)
unfolding send_signature
send_signature-Kept x none l = disconnect-Kept x _ l
send_signature-Kept x (some s) l =
    if_Kept (not (length s == signature_bytes)) (disconnect-Kept x _ l) (enqueue_or-Kept x _ _ l)

length-remember_nonce :
    (nonce : Bytes) (seen : List Bytes) → length (remember_nonce nonce seen) ≤ nonce_cache
unfolding remember_nonce
length-remember_nonce nonce seen =
    omega (arith, length-drop (length (seen ++ nonce ∷ []) - nonce_cache) (seen ++ nonce ∷ []))

remember_challenge-Kept : (c : Challenge) (l : Link) → Kept l (remember_challenge c l)
unfolding remember_challenge
remember_challenge-Kept c l =
    kept (λ d. refl) refl (λ s. (s.0, s.1, s.2, length-remember_nonce c.nonce l.seen_nonces, s.4))

after_apply-Kept : (a : Applied) (l : Link) → Kept l (after_apply a l)
unfolding after_apply
after_apply-Kept Applied.stale l = Kept-refl l
after_apply-Kept Applied.malformed_entry l = raise-Kept l
after_apply-Kept (Applied.applied store) l =
    then_Kept (kept (λ c. refl) refl (λ s. s)) (post-Kept _ _ (λ c. refl) refl (λ i. refl))

module _ (k : Credentials) (x : Outside) where
  accept_challenge-Kept : (o : Option Challenge) (l : Link) → Kept l (accept_challenge k x o l)
  unfolding accept_challenge
  accept_challenge-Kept none l = disconnect-Kept x _ l
  accept_challenge-Kept (some c) l =
      if_Kept (not (peer_acceptable c.node_id l) || seen_nonce c.nonce l.seen_nonces)
        (disconnect-Kept x _ l)
        (then_Kept (remember_challenge-Kept c l) (
          send_signature-Kept x
            (k.sign (auth_message l.options.node_id l.own_challenge.nonce c.node_id c.nonce)) _))

  handle_hello_challenge-Kept :
      (payload : Bytes) (l : Link) → Kept l (handle_hello_challenge k x payload l)
  unfolding handle_hello_challenge
  handle_hello_challenge-Kept payload l =
      if_Kept (is_challenging l.auth_state) (accept_challenge-Kept _ l) (disconnect-Kept x _ l)

  accept_auth-Kept : (o : Option Challenge) (l : Link) → Kept l (accept_auth k x o l)
  unfolding accept_auth
  accept_auth-Kept none l = disconnect-Kept x _ l
  accept_auth-Kept (some r) l =
      if_Kept (not (bytes_eq r.node_id l.peer_challenge.node_id)) (disconnect-Kept x _ l)
        (if_Kept (not (verified k r l)) (disconnect-Kept x _ l) (become_ready-Kept _ _ l))

  handle_hello_auth-Kept : (payload : Bytes) (l : Link) → Kept l (handle_hello_auth k x payload l)
  unfolding handle_hello_auth
  handle_hello_auth-Kept payload l =
      if_Kept (is_responding l.auth_state) (accept_auth-Kept _ l) (disconnect-Kept x _ l)

  accept_epoch-Kept :
      (payload : Bytes) (o : Option EpochUpdate) (l : Link) → Kept l (accept_epoch k x payload o l)
  unfolding accept_epoch
  accept_epoch-Kept payload none l = disconnect-Kept x _ l
  accept_epoch-Kept payload (some u) l =
      if_Kept
        (k.verify l.trust.controller_public_key (take (length payload - signature_bytes) payload)
          u.signature)
        (after_apply-Kept _ l) (Kept-refl l)

  apply_epoch_config-Kept : (payload : Bytes) (l : Link) → Kept l (apply_epoch_config k x payload l)
  unfolding apply_epoch_config
  apply_epoch_config-Kept payload l = accept_epoch-Kept payload (decode_epoch_update payload) l

handle_typed-Kept :
    (x : Outside) (t : FrameType) (f : Frame) (l : Link) → Kept l (handle_typed x t f l)
unfolding handle_typed
handle_typed-Kept x FrameType.ping f l = enqueue_or-Kept x _ _ l
handle_typed-Kept x FrameType.pong f l = kept (λ c. refl) refl (λ s. s)
handle_typed-Kept x FrameType.request f l =
    if_Kept l.request_handler (emit-Kept _ l (λ c. refl)) (Kept-refl l)
handle_typed-Kept x FrameType.response f l = complete-Kept f.id _ f.payload l
handle_typed-Kept x FrameType.notify f l =
    if_Kept l.notify_handler (emit-Kept _ l (λ c. refl)) (Kept-refl l)
handle_typed-Kept x FrameType.hello f l = Kept-refl l
handle_typed-Kept x FrameType.epoch_config f l = Kept-refl l
handle_typed-Kept x FrameType.hello_auth f l = Kept-refl l

handle_ordinary-Kept : (x : Outside) (f : Frame) (l : Link) → Kept l (handle_ordinary x f l)
unfolding handle_ordinary
handle_ordinary-Kept x f l = handle_typed-Kept x f.type f l

first_hello-Kept : (x : Outside) (f : Frame) (l : Link) → Kept l (first_hello x f l)
unfolding first_hello
first_hello-Kept x f l =
    if_Kept (not (is_hello f.type) || (length f.payload == 0 || not (expects l.options f.payload)))
      (disconnect-Kept x _ l) (become_ready-Kept _ _ l)

handle_unauthenticated-Kept :
    (x : Outside) (f : Frame) (l : Link) → Kept l (handle_unauthenticated x f l)
unfolding handle_unauthenticated
handle_unauthenticated-Kept x f l =
    if_Kept (is_handshake f.type && not (is_hello f.type)) (disconnect-Kept x _ l) (
      if_Kept (not (is_done l.auth_state)) (first_hello-Kept x f l)
        (if_Kept (is_hello f.type) (disconnect-Kept x _ l) (handle_ordinary-Kept x f l)))

module _ (k : Credentials) (x : Outside) where
  ordinary_or_not-Kept :
      (f : Frame) (l : Link)
      → Kept l (
          if is_done l.auth_state
          then handle_ordinary x f l
          else disconnect x LinkError.permission_denied l)
  ordinary_or_not-Kept f l =
      if_Kept (is_done l.auth_state) (handle_ordinary-Kept x f l) (disconnect-Kept x _ l)

  handle_control-Kept : (t : FrameType) (f : Frame) (l : Link) → Kept l (handle_control k x t f l)
  unfolding handle_control
  handle_control-Kept FrameType.hello f l = handle_hello_challenge-Kept k x f.payload l
  handle_control-Kept FrameType.hello_auth f l = handle_hello_auth-Kept k x f.payload l
  handle_control-Kept FrameType.epoch_config f l =
      if_Kept (is_done l.auth_state) (apply_epoch_config-Kept k x f.payload l)
        (disconnect-Kept x _ l)
  handle_control-Kept FrameType.ping f l = ordinary_or_not-Kept f l
  handle_control-Kept FrameType.pong f l = ordinary_or_not-Kept f l
  handle_control-Kept FrameType.request f l = ordinary_or_not-Kept f l
  handle_control-Kept FrameType.response f l = ordinary_or_not-Kept f l
  handle_control-Kept FrameType.notify f l = ordinary_or_not-Kept f l

  pub handle_frame-Kept : (f : Frame) (l : Link) → Kept l (handle_frame k x f l)
  unfolding handle_frame handle_authenticated
  handle_frame-Kept f l =
      if_Kept l.authenticated (handle_control-Kept f.type f l) (handle_unauthenticated-Kept x f l)

  erase_front-Kept : (size : ℕ) (l : Link) → Kept l (erase_front size l)
  unfolding erase_front
  erase_front-Kept size l = kept (λ c. refl) refl (λ s. s)

  consume_front-Kept :
      (rest : Link → Link) (o : Front) (l : Link)
      → ((l' : Link) → Kept l' (rest l'))
      → Kept l (consume_front k x rest o l)
  unfolding consume_front
  consume_front-Kept rest Front.incomplete l h = Kept-refl l
  consume_front-Kept rest Front.broken l h = disconnect-Kept x _ l
  consume_front-Kept rest (Front.framed size f) l h =
      let l' = handle_frame k x f (erase_front size l) in
      then_Kept (then_Kept (erase_front-Kept size l) (handle_frame-Kept f _))
        (if_Kept (has_connection l' && not l'.raised) (h l') (Kept-refl l'))

  consume_on-Kept : (n : ℕ) (l : Link) → Kept l (consume_on k x n l)
  unfolding consume_on
  consume_on-Kept zero l = Kept-refl l
  consume_on-Kept (suc n) l = consume_front-Kept (consume_on k x n) _ l (consume_on-Kept n)

  pub consume-Kept : (bytes : Bytes) (l : Link) → Kept l (consume k x bytes l)
  unfolding consume
  consume-Kept bytes l = then_Kept (kept (λ c. refl) refl (λ s. s)) (consume_on-Kept _ _)
