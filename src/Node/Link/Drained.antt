-- ===== src/Node/Link/Drained.antt =====
-- src/framework/node/node_link.cpp: the loop of `consume` ends, and what it leaves.
use proto_relay.Base.{
  ℕ, zero, suc, ◌+◌, ◌≤◌, ◌≡◌, refl, ◌∙◌, arith, Bool, true, false, ◌&&◌, not, Option, none, some,
  List, [], ◌∷◌, ◌++◌, length, length-drop, if◌then◌else◌, Bytes, inl, inr, ◌⊎◌,
}
use proto_relay.Node.LinkWire.{Frame}
use proto_relay.Node.Link.{
  Link, LinkError, Outside, emit, disconnect, complete, has_connection, complete_found,
  complete_all, emit_state, schedule_reconnect, reset_connection, maybe_reconnect, disconnect_from,
  disconnect_at,
}
use proto_relay.Node.Link.Handlers.{
  Credentials, handle_frame, consume_on, consume, Front, front, erase_front, consume_front,
}
use proto_relay.Node.Link.Handshake.{length-handle_frame}

complete-connection :
    (id : ℕ) (error : LinkError) (payload : Bytes) (l : Link)
    → (complete id error payload l).connection ≡ l.connection
unfolding complete complete_found emit
complete-connection id error payload l = ground arith

complete_all-connection :
    (error : LinkError) (m : List (ℕ × ℕ)) (l : Link)
    → (complete_all error m l).connection ≡ l.connection
unfolding complete_all
complete_all-connection error [] l = refl
complete_all-connection error ((id, c) ∷ m) l =
    complete_all-connection error m _ ∙ complete-connection id error [] l

disconnect_at-connection :
    (x : Outside) (error : LinkError) (o : Option ℕ) (l : Link)
    → l.connection ≡ o
    → has_connection (disconnect_at x error o l) ≡ false
unfolding disconnect_at disconnect_from has_connection emit_state maybe_reconnect schedule_reconnect
    emit
disconnect_at-connection x error none l h = ground (arith, h)
disconnect_at-connection x error (some c) l h =
    let l1 = reset_connection c l in ground (arith, complete_all-connection error l1.pending l1, h)

pub disconnect-connection :
    (x : Outside) (error : LinkError) (l : Link) → has_connection (disconnect x error l) ≡ false
unfolding disconnect
disconnect-connection x error l = disconnect_at-connection x error l.connection l refl

framed-length :
    (max_frame_bytes size : ℕ) (f : Frame) (incoming : Bytes)
    → front max_frame_bytes incoming ≡ Front.framed size f
    → 4 ≤ length incoming
unfolding front
framed-length max_frame_bytes size f incoming h = ground (arith, h)

short-front :
    (max_frame_bytes : ℕ) (incoming : Bytes)
    → length incoming ≤ 3
    → front max_frame_bytes incoming ≡ Front.incomplete
unfolding front
short-front max_frame_bytes incoming h = ground (arith, h)

-- What the loop leaves: it has left because the connection is gone or an exception was thrown, or
-- there is no whole frame in the buffer.
abbrev pub IsDrained : Link → Type 0
IsDrained l =
    (has_connection l ≡ false)
    ⊎ ((l.raised ≡ true) ⊎ (front l.options.max_frame_bytes l.incoming ≡ Front.incomplete))

if_IsDrained :
    (rest : Link → Link) (l : Link)
    → IsDrained (rest l)
    → IsDrained (if has_connection l && not l.raised then rest l else l)
if_IsDrained rest l h =
    pick (has_connection l) l.raised (rest l) l h (λ c. inl c) (λ r. inr (inl r))
  where
    pick :
        (c r : Bool) (l1 l2 : Link)
        → IsDrained l1
        → (c ≡ false → IsDrained l2)
        → (r ≡ true → IsDrained l2)
        → IsDrained (if c && not r then l1 else l2)
    pick false r l1 l2 h i j = i refl
    pick true true l1 l2 h i j = j refl
    pick true false l1 l2 h i j = h

module _ (k : Credentials) (x : Outside) where
  consume_front-IsDrained :
      (rest : Link → Link) (o : Front) (l : Link)
      → front l.options.max_frame_bytes l.incoming ≡ o
      → ((l' : Link) → length l'.incoming + 1 ≤ length l.incoming → IsDrained (rest l'))
      → IsDrained (consume_front k x rest o l)
  unfolding consume_front erase_front
  consume_front-IsDrained rest Front.incomplete l h r = inr (inr h)
  consume_front-IsDrained rest Front.broken l h r =
      inl (disconnect-connection x LinkError.protocol_error l)
  consume_front-IsDrained rest (Front.framed size f) l h r =
      let l' = handle_frame k x f (erase_front size l) in
      if_IsDrained rest l' (
        r l' (
          omega (
            arith,
            (length-handle_frame k x f (erase_front size l)).0,
            length-drop (size + 4) l.incoming,
            framed-length l.options.max_frame_bytes size f l.incoming h,
          )))

  consume_on-IsDrained : (n : ℕ) (l : Link) → length l.incoming ≤ n → IsDrained (consume_on k x n l)
  unfolding consume_on
  consume_on-IsDrained zero l h =
      inr (inr (short-front l.options.max_frame_bytes l.incoming (omega arith)))
  consume_on-IsDrained (suc n) l h =
      consume_front-IsDrained (consume_on k x n) _ l refl
        (λ l' h'. consume_on-IsDrained n l' (omega arith))

  -- The fuel is enough: `consume` stops where the source's loop does, at a buffer with no whole
  -- frame in it, a closed connection, or an exception.
  pub consume-IsDrained : (bytes : Bytes) (l : Link) → IsDrained (consume k x bytes l)
  unfolding consume
  consume-IsDrained bytes l =
      let l' = record l { incoming = l.incoming ++ bytes } in
      consume_on-IsDrained (length l'.incoming) l' (omega arith)
