-- ===== src/Node/Link/Calm.antt =====
-- src/framework/node/node_link.cpp: the helpers of a link leave its buffer and its readiness alone.
use proto_relay.Base.{
  ℕ, ◌≤◌, ◌≡◌, refl, ◌∙◌, arith, Bool, true, false, ◌&&◌, ◌||◌, not, Option, none, some, List, [],
  ◌∷◌, ◌++◌, length, ◌==◌, if◌then◌else◌, Bytes,
}
use proto_relay.Node.Trust.{Applied}
use proto_relay.Node.LinkWire.{Frame, FrameType, signature_bytes, encode_frame}
use proto_relay.Node.Link.{
  Link, LinkError, Effect, Outside, emit, post, disconnect, enqueue, enqueue_or, complete, raise,
  complete_found, complete_all, emit_state, schedule_reconnect, reset_connection, maybe_reconnect,
  disconnect_from, disconnect_at, write_front, write_next, push_write, is_failure,
}
use proto_relay.Node.Link.Handlers.{send_signature, after_apply, handle_typed}

-- A step that adds nothing to the buffer, keeps the options and does not make the link ready.
pub record Calm (l l' : Link) : Type 0 where
  pub shorter : length l'.incoming ≤ length l.incoming
  pub same_options : l'.options ≡ l.options
  pub unready : l.ready ≡ false → l'.ready ≡ false

pub calm :
    {l l' : Link}
    → length l'.incoming ≤ length l.incoming
    → l'.options ≡ l.options
    → (l.ready ≡ false → l'.ready ≡ false)
    → Calm l l'
calm h o r = record { shorter = h; same_options = o; unready = r }

pub Calm-refl : (l : Link) → Calm l l
Calm-refl l = calm (omega arith) refl (λ h. h)

pub then_Calm : {l1 l2 l3 : Link} → Calm l1 l2 → Calm l2 l3 → Calm l1 l3
then_Calm h k =
    calm (omega (arith, h.shorter, k.shorter)) (k.same_options ∙ h.same_options)
      (λ r. k.unready (h.unready r))

pub if_Calm : {l l1 l2 : Link} (b : Bool) → Calm l l1 → Calm l l2 → Calm l (if b then l1 else l2)
if_Calm true h k = h
if_Calm false h k = k

pub complete_found-Calm :
    (id : ℕ) (error : LinkError) (payload : Bytes) (o : Option ℕ) (l : Link)
    → Calm l (complete_found id error payload o l)
unfolding complete_found emit
complete_found-Calm id error payload none l = Calm-refl l
complete_found-Calm id error payload (some d) l = calm (omega arith) refl (λ r. r)

pub complete-Calm :
    (id : ℕ) (error : LinkError) (payload : Bytes) (l : Link) → Calm l (complete id error payload l)
unfolding complete
complete-Calm id error payload l = complete_found-Calm id error payload _ l

pub complete_all-Calm :
    (error : LinkError) (m : List (ℕ × ℕ)) (l : Link) → Calm l (complete_all error m l)
unfolding complete_all
complete_all-Calm error [] l = Calm-refl l
complete_all-Calm error ((id, c) ∷ m) l =
    then_Calm (complete-Calm id error [] l) (complete_all-Calm error m _)

pub emit-Calm : (x : Effect) (l : Link) → Calm l (emit x l)
unfolding emit
emit-Calm x l = calm (omega arith) refl (λ r. r)

pub emit_state-Calm : (b : Bool) (error : LinkError) (l : Link) → Calm l (emit_state b error l)
unfolding emit_state
emit_state-Calm b error l = if_Calm l.state_handler (emit-Calm _ l) (Calm-refl l)

pub maybe_reconnect-Calm : (x : Outside) (l : Link) → Calm l (maybe_reconnect x l)
unfolding maybe_reconnect schedule_reconnect emit
maybe_reconnect-Calm x l =
    if_Calm (l.client && (not l.stopped && not l.peer_revoked))
      (if_Calm l.stopped (Calm-refl l) (calm (omega arith) refl (λ r. r))) (Calm-refl l)

pub disconnect_at-Calm :
    (x : Outside) (error : LinkError) (o : Option ℕ) (l : Link) → Calm l (disconnect_at x error o l)
unfolding disconnect_at disconnect_from reset_connection emit
disconnect_at-Calm x error none l = Calm-refl l
disconnect_at-Calm x error (some connection) l =
    let l1 = reset_connection connection l in
    let l2 = complete_all error l1.pending l1 in
    then_Calm
      (then_Calm (calm (omega arith) refl (λ r. refl)) (complete_all-Calm error l1.pending l1))
      (then_Calm
        (if_Calm (l.ready || is_failure error) (emit_state-Calm false error l2) (Calm-refl l2))
        (maybe_reconnect-Calm x _))

pub disconnect-Calm : (x : Outside) (error : LinkError) (l : Link) → Calm l (disconnect x error l)
unfolding disconnect
disconnect-Calm x error l = disconnect_at-Calm x error l.connection l

pub write_front-Calm :
    (o : Option ℕ) (writes : List Bytes) (l : Link) → Calm l (write_front o writes l)
unfolding write_front emit
write_front-Calm none writes l = calm (omega arith) refl (λ r. r)
write_front-Calm (some connection) [] l = calm (omega arith) refl (λ r. r)
write_front-Calm (some connection) (bytes ∷ rest) l = calm (omega arith) refl (λ r. r)

pub push_write-Calm : (o : Option Bytes) (l : Link) → Calm l (push_write o l).0
unfolding push_write raise emit write_next
push_write-Calm none l = calm (omega arith) refl (λ r. r)
push_write-Calm (some bytes) l =
    let l' = record l { writes = l.writes ++ bytes ∷ [] } in
    if_Calm l.writing (calm (omega arith) refl (λ r. r)) (
      if_Calm (l.generation == l.generation)
        (then_Calm {l2 = l'} (calm (omega arith) refl (λ r. r))
          (write_front-Calm l'.connection l'.writes l'))
        (calm (omega arith) refl (λ r. r)))

pub enqueue-Calm : (f : Frame) (l : Link) → Calm l (enqueue f l).0
unfolding enqueue
enqueue-Calm f l = ground (arith, Calm-refl l, push_write-Calm (encode_frame f) l)

pub enqueue_or-Calm :
    (x : Outside) (error : LinkError) (f : Frame) (l : Link) → Calm l (enqueue_or x error f l)
unfolding enqueue_or
enqueue_or-Calm x error f l =
    then_Calm (enqueue-Calm f l) (if_Calm (enqueue f l).1 (Calm-refl _) (disconnect-Calm x error _))

pub send_signature-Calm :
    (x : Outside) (o : Option Bytes) (l : Link) → Calm l (send_signature x o l)
unfolding send_signature
send_signature-Calm x none l = disconnect-Calm x _ l
send_signature-Calm x (some s) l =
    if_Calm (not (length s == signature_bytes)) (disconnect-Calm x _ l) (enqueue_or-Calm x _ _ l)

pub after_apply-Calm : (a : Applied) (l : Link) → Calm l (after_apply a l)
unfolding after_apply raise emit post
after_apply-Calm Applied.stale l = Calm-refl l
after_apply-Calm Applied.malformed_entry l = calm (omega arith) refl (λ r. r)
after_apply-Calm (Applied.applied store) l = calm (omega arith) refl (λ r. r)

pub handle_typed-Calm :
    (x : Outside) (t : FrameType) (f : Frame) (l : Link) → Calm l (handle_typed x t f l)
unfolding handle_typed
handle_typed-Calm x FrameType.ping f l = enqueue_or-Calm x _ _ l
handle_typed-Calm x FrameType.pong f l = calm (omega arith) refl (λ r. r)
handle_typed-Calm x FrameType.request f l = if_Calm l.request_handler (emit-Calm _ l) (Calm-refl l)
handle_typed-Calm x FrameType.response f l = complete-Calm f.id _ f.payload l
handle_typed-Calm x FrameType.notify f l = if_Calm l.notify_handler (emit-Calm _ l) (Calm-refl l)
handle_typed-Calm x FrameType.hello f l = Calm-refl l
handle_typed-Calm x FrameType.epoch_config f l = Calm-refl l
handle_typed-Calm x FrameType.hello_auth f l = Calm-refl l
