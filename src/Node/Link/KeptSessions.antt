-- ===== src/Node/Link/KeptSessions.antt =====
-- src/framework/node/node_link.cpp: the sessions keep the account of the completions and the bounds.
use proto_relay.Base.{
  ℕ, ◌-◌, refl, arith, Bool, true, false, ◌&&◌, ◌||◌, not, Option, none, some, [], length,
  length-drop, leb, ◌==◌, if◌then◌else◌, Bytes,
}
use proto_relay.Base.Eq.{nat_key}
use proto_relay.Node.LinkWire.{FrameType}
use proto_relay.Node.Link.{
  Link, LinkError, Outside, disconnect, enqueue, has_connection, is_failure,
}
use proto_relay.Node.Link.Handlers.{Credentials, is_done, consume}
use proto_relay.Node.Link.Sessions.{
  heartbeat, send_ping, tick_on, tick, read_next, fresh_connection, send_hello, begin_session,
  attach, connect_to, begin_connect, connected, tls_done, received, written,
}
use proto_relay.Node.Link.Kept.{
  Kept, kept, Kept-refl, then_Kept, if_Kept, emit-Kept, disconnect-Kept, enqueue-Kept,
  schedule_reconnect-Kept, write_next-Kept,
}
use proto_relay.Node.Link.KeptSteps.{consume-Kept}

-- For an operation with a flag.
if_pair_Kept :
    {l : Link} (b : Bool) (p q : Link × Bool)
    → Kept l p.0
    → Kept l q.0
    → Kept l (if b then p else q).0
if_pair_Kept true p q h k = h
if_pair_Kept false p q h k = k

heartbeat-Kept : (delay : ℕ) (l : Link) → Kept l (heartbeat delay l)
unfolding heartbeat
heartbeat-Kept delay l = emit-Kept _ l (λ c. refl)

read_next-Kept : (generation : ℕ) (l : Link) → Kept l (read_next generation l)
unfolding read_next
read_next-Kept generation l =
    if_Kept (has_connection l && generation == l.generation) (emit-Kept _ l (λ c. refl))
      (Kept-refl l)

module _ (x : Outside) where
  send_ping-Kept : (l : Link) → Kept l (send_ping x l)
  unfolding send_ping
  send_ping-Kept l = then_Kept (enqueue-Kept _ l) (
      if_Kept (enqueue (record { type = FrameType.ping; id = 0; payload = [] }) l).1
        (then_Kept (kept (λ c. refl) refl (λ s. s)) (heartbeat-Kept _ _)) (disconnect-Kept x _ _))

  waits-Kept :
      (b : Bool) (delay : ℕ) (l : Link)
      → Kept l (if b then disconnect x LinkError.timed_out l else heartbeat delay l)
  waits-Kept b delay l = if_Kept b (disconnect-Kept x _ l) (heartbeat-Kept delay l)

  pub tick-Kept : (generation : ℕ) (l : Link) → Kept l (tick x generation l)
  unfolding tick tick_on
  tick-Kept generation l =
      if_Kept (not (generation == l.generation) || (not (has_connection l) || l.stopped))
        (Kept-refl l)
        (if_Kept (not (is_done l.auth_state)) (waits-Kept _ _ l) (
          if_Kept l.awaiting_pong (waits-Kept _ _ l) (
            if_Kept (leb l.options.heartbeat_interval (x.now - l.last_activity)) (send_ping-Kept l)
              (heartbeat-Kept _ l))))

  fresh_connection-Kept : (connection : ℕ) (l : Link) → Kept l (fresh_connection x connection l)
  unfolding fresh_connection
  fresh_connection-Kept connection l =
      kept (λ c. refl) refl (λ s. (s.0, s.1, omega arith, s.3, s.4))

  send_hello-Kept : (l : Link) → Kept l (send_hello x l).0
  unfolding send_hello
  send_hello-Kept l =
      if_pair_Kept l.authenticated _ _
        (then_Kept (kept (λ c. refl) refl (λ s. s)) (enqueue-Kept _ _)) (enqueue-Kept _ l)

  begin_session-Kept : (p : Link × Bool) → Kept p.0 (begin_session x p)
  unfolding begin_session
  begin_session-Kept (l, queued) =
      if_Kept queued (then_Kept (read_next-Kept l.generation l) (tick-Kept l.generation _))
        (disconnect-Kept x _ l)

  pub attach-Kept : (connection : ℕ) (l : Link) → Kept l (attach x connection l)
  unfolding attach
  attach-Kept connection l = if_Kept l.stopped (emit-Kept _ l (λ c. refl)) (
      then_Kept (then_Kept (fresh_connection-Kept connection l) (send_hello-Kept _))
        (begin_session-Kept (send_hello x (fresh_connection x connection l))))

  connect_to-Kept : (o : Option ℕ) (l : Link) → Kept l (connect_to x o l)
  unfolding connect_to
  connect_to-Kept none l = schedule_reconnect-Kept x l
  connect_to-Kept (some transport) l =
      then_Kept (kept (λ c. refl) refl (λ s. s)) (emit-Kept _ _ (λ c. refl))

  pub begin_connect-Kept : (l : Link) → Kept l (begin_connect x l)
  unfolding begin_connect
  begin_connect-Kept l =
      if_Kept l.stopped (Kept-refl l)
        (then_Kept (kept (λ c. refl) refl (λ s. s)) (connect_to-Kept x.transport _))

  -- What the callbacks of a connection share: the check of the generation, and of the error.
  guarded_Kept :
      (generation : ℕ) (error : LinkError) {l l' : Link}
      → Kept l l'
      → Kept l (
          if not (generation == l.generation) || l.stopped
          then l
          else if is_failure error
          then disconnect x error l
          else l')
  guarded_Kept generation error {l} h =
      if_Kept (not (generation == l.generation) || l.stopped) (Kept-refl l)
        (if_Kept (is_failure error) (disconnect-Kept x error l) h)

  pub connected-Kept :
      (generation transport : ℕ) (error : LinkError) (l : Link)
      → Kept l (connected x generation transport error l)
  unfolding connected
  connected-Kept generation transport error l =
      guarded_Kept generation error
        (if_Kept l.options.use_tls (emit-Kept _ l (λ c. refl)) (attach-Kept transport l))

  pub tls_done-Kept :
      (generation transport : ℕ) (error : LinkError) (l : Link)
      → Kept l (tls_done x generation transport error l)
  unfolding tls_done
  tls_done-Kept generation transport error l =
      guarded_Kept generation error (attach-Kept transport l)

  pub received-Kept :
      (k : Credentials) (generation : ℕ) (error : LinkError) (bytes : Bytes) (l : Link)
      → Kept l (received k x generation error bytes l)
  unfolding received
  received-Kept k generation error bytes l =
      let l' = consume k x bytes (record l { last_activity = x.now; raised = false }) in
      guarded_Kept generation error (
        if_Kept (length bytes == 0) (disconnect-Kept x _ l) (
          then_Kept (then_Kept (kept (λ c. refl) refl (λ s. s)) (consume-Kept k x bytes _)) (
            if_Kept (not l'.raised && generation == l'.generation) (read_next-Kept generation l')
              (Kept-refl l'))))

  pub written-Kept :
      (generation : ℕ) (error : LinkError) (l : Link) → Kept l (written x generation error l)
  unfolding written
  written-Kept generation error l = guarded_Kept generation error (
      then_Kept
        (kept (λ c. refl) refl
          (λ s. (s.0, s.1, omega (arith, length-drop 1 l.writes, s), s.3, s.4)))
        (write_next-Kept generation _))
