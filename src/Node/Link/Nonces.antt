-- ===== src/Node/Link/Nonces.antt =====
-- src/framework/node/node_link.cpp: the steps that leave the remembered nonces alone.
use proto_relay.Base.{
  ℕ, ◌-◌, ◌||◌, ltb, leb, ◌≡◌, refl, ◌∙◌, arith, Bool, true, false, not, Option, none, some, List,
  [], ◌∷◌, ◌++◌, length, ◌==◌, if◌then◌else◌, Bytes,
}
use proto_relay.Node.LinkWire.{
  Frame, FrameType, signature_bytes, encode_frame, encode_auth_response,
}
use proto_relay.Node.Link.{
  Link, LinkError, Outside, emit, raise, disconnect, enqueue, enqueue_or, complete, complete_found,
  complete_all, emit_state, schedule_reconnect, reset_connection, maybe_reconnect, disconnect_from,
  disconnect_at, has_connection, write_front, write_next, push_write,
}
use proto_relay.Node.Link.Handlers.{send_signature}

pub record SameNonces (l l' : Link) : Type 0 where
  pub nonces : l'.seen_nonces ≡ l.seen_nonces

then_Same : {l1 l2 l3 : Link} → SameNonces l1 l2 → SameNonces l2 l3 → SameNonces l1 l3
then_Same h k = record { nonces = k.nonces ∙ h.nonces }

if_Same :
    {l l1 l2 : Link} (b : Bool)
    → SameNonces l l1
    → SameNonces l l2
    → SameNonces l (if b then l1 else l2)
if_Same true h k = h
if_Same false h k = k

complete_all-SameNonces :
    (error : LinkError) (m : List (ℕ × ℕ)) (l : Link) → SameNonces l (complete_all error m l)
unfolding complete_all complete complete_found emit
complete_all-SameNonces error [] l = record { nonces = refl }
complete_all-SameNonces error ((id, c) ∷ m) l =
    then_Same (record { nonces = ground arith }) (complete_all-SameNonces error m _)

maybe_reconnect-SameNonces : (x : Outside) (l : Link) → SameNonces l (maybe_reconnect x l)
unfolding maybe_reconnect schedule_reconnect emit
maybe_reconnect-SameNonces x l = record { nonces = ground arith }

emit_state-SameNonces :
    (state : Bool) (error : LinkError) (l : Link) → SameNonces l (emit_state state error l)
unfolding emit_state emit
emit_state-SameNonces state error l = record { nonces = ground arith }

disconnect-SameNonces :
    (x : Outside) (error : LinkError) (o : Option ℕ) (l : Link)
    → SameNonces l (disconnect_at x error o l)
unfolding disconnect_at disconnect_from reset_connection emit
disconnect-SameNonces x error none l = record { nonces = refl }
disconnect-SameNonces x error (some connection) l =
    let l1 = reset_connection connection l in
    let h : SameNonces l l1 = record { nonces = refl } in
    let k = then_Same h (complete_all-SameNonces error l1.pending l1) in
    then_Same (if_Same _ (then_Same k (emit_state-SameNonces false error _)) k)
      (maybe_reconnect-SameNonces x _)

write_front-SameNonces :
    (o : Option ℕ) (w : List Bytes) (l : Link) → SameNonces l (write_front o w l)
unfolding write_front emit
write_front-SameNonces none w l = record { nonces = refl }
write_front-SameNonces (some c) [] l = record { nonces = refl }
write_front-SameNonces (some c) (b ∷ w) l = record { nonces = refl }

write_next-SameNonces : (g : ℕ) (l : Link) → SameNonces l (write_next g l)
unfolding write_next
write_next-SameNonces g l =
    if_Same (g == l.generation) (write_front-SameNonces l.connection l.writes l)
      (record { nonces = refl })

push_write-SameNonces : (o : Option Bytes) (l : Link) → SameNonces l (push_write o l).0
unfolding push_write raise
push_write-SameNonces none l = record { nonces = refl }
push_write-SameNonces (some bytes) l =
    let l' = record l { writes = l.writes ++ bytes ∷ [] } in
    let h : SameNonces l l' = record { nonces = refl } in
    if_Same l'.writing h (then_Same h (write_next-SameNonces l'.generation l'))

-- A full queue refuses the frame.
if_first :
    (l : Link) (b : Bool) (p q : Link × Bool)
    → SameNonces l p.0
    → SameNonces l q.0
    → SameNonces l (if b then p else q).0
if_first l true p q h k = h
if_first l false p q h k = k

enqueue-SameNonces : (f : Frame) (l : Link) → SameNonces l (enqueue f l).0
unfolding enqueue
enqueue-SameNonces f l =
    if_first l
      (ltb (l.options.max_frame_bytes - 10) (length f.payload)
        || (leb l.options.max_queued_frames (length l.writes) || not (has_connection l)))
      (l, false) (push_write (encode_frame f) l) (record { nonces = refl })
      (push_write-SameNonces (encode_frame f) l)

enqueue_or-SameNonces :
    (x : Outside) (error : LinkError) (f : Frame) (l : Link) → SameNonces l (enqueue_or x error f l)
unfolding enqueue_or disconnect
enqueue_or-SameNonces x error f l =
    let queued = enqueue-SameNonces f l in
    if_Same (enqueue f l).1 queued
      (then_Same queued (disconnect-SameNonces x error (enqueue f l).0.connection (enqueue f l).0))

pub send_signature-SameNonces :
    (x : Outside) (o : Option Bytes) (l : Link) → SameNonces l (send_signature x o l)
unfolding send_signature disconnect
send_signature-SameNonces x none l =
    disconnect-SameNonces x LinkError.operation_not_permitted l.connection l
send_signature-SameNonces x (some signature) l =
    if_Same (not (length signature == signature_bytes))
      (disconnect-SameNonces x LinkError.no_buffer_space l.connection l)
      (enqueue_or-SameNonces x LinkError.no_buffer_space
        (record {
          type = FrameType.hello_auth;
          id = 0;
          payload = encode_auth_response (record {
            node_id = l.options.node_id;
            epoch = l.trust.snapshot.epoch;
            nonce = signature;
          });
        })
        l)
