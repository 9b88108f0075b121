-- ===== src/Node/Link/Sessions.antt =====
-- src/framework/node/node_link.cpp: a session of a link, from the connection to its callbacks.
use proto_relay.Base.{
  ℕ, ◌+◌, ◌-◌, Bool, true, false, ◌&&◌, ◌||◌, not, Option, none, some, [], length, drop, leb, ◌==◌,
  if◌then◌else◌, Bytes,
}
use proto_relay.Node.LinkWire.{FrameType, Challenge, encode_challenge}
use proto_relay.Node.Link.{
  Link, LinkError, AuthState, Effect, Outside, emit, disconnect, enqueue, write_next,
  schedule_reconnect, has_connection, is_failure,
}
use proto_relay.Node.Link.Handlers.{Credentials, is_done, consume}

-- The timer of the next tick.
unfoldable pub heartbeat : ℕ → Link → Link
heartbeat delay l = emit (Effect.heartbeat_after delay) l

unfoldable pub send_ping : Outside → Link → Link
unfolding heartbeat
send_ping x l =
    let (l', queued) = enqueue (record { type = FrameType.ping; id = 0; payload = [] }) l in
    if queued
    then heartbeat l'.options.heartbeat_timeout
        (record l' { awaiting_pong = true; ping_sent = x.now })
    else disconnect x LinkError.no_buffer_space l'

unfoldable pub tick_on : Outside → Link → Link
unfolding send_ping
tick_on x l =
    if not (is_done l.auth_state)
    then (if leb l.options.heartbeat_timeout (x.now - l.last_activity)
        then disconnect x LinkError.timed_out l
        else heartbeat l.options.heartbeat_timeout l)
    else if l.awaiting_pong
    then (if leb l.options.heartbeat_timeout (x.now - l.ping_sent)
        then disconnect x LinkError.timed_out l
        else heartbeat l.options.heartbeat_timeout l)
    else if leb l.options.heartbeat_interval (x.now - l.last_activity)
    then send_ping x l
    else heartbeat l.options.heartbeat_interval l

unfoldable pub tick : Outside → ℕ → Link → Link
unfolding tick_on
tick x generation l =
    if not (generation == l.generation) || (not (has_connection l) || l.stopped)
    then l
    else tick_on x l

unfoldable pub read_next : ℕ → Link → Link
read_next generation l =
    if has_connection l && generation == l.generation then emit (Effect.reading generation) l else l

unfoldable pub fresh_connection : Outside → ℕ → Link → Link
fresh_connection x connection l = record l {
  connection = some connection;
  generation = l.generation + 1;
  incoming = [];
  peer_id = [];
  peer_epoch = 0;
  auth_state = AuthState.challenging;
  awaiting_pong = false;
  writing = false;
  writes = [];
  last_activity = x.now;
}

unfoldable pub fresh_challenge : Outside → Link → Challenge
fresh_challenge x l = record {
  node_id = l.options.node_id;
  epoch = l.trust.snapshot.epoch;
  nonce = x.nonce;
}

-- The hello frame: a challenge with a new nonce, or the bare id.
unfoldable pub send_hello : Outside → Link → Link × Bool
unfolding fresh_challenge
send_hello x l =
    if l.authenticated
    then (let c = fresh_challenge x l in
        enqueue (record { type = FrameType.hello; id = 0; payload = encode_challenge c })
          (record l { own_challenge = c }))
    else enqueue (record { type = FrameType.hello; id = 0; payload = l.options.node_id }) l

unfoldable pub begin_session : Outside → Link × Bool → Link
unfolding tick read_next
begin_session x (l, queued) =
    if queued
    then tick x l.generation (read_next l.generation l)
    else disconnect x LinkError.no_buffer_space l

unfoldable pub attach : Outside → ℕ → Link → Link
unfolding fresh_connection send_hello begin_session
attach x connection l =
    if l.stopped
    then emit (Effect.closed connection) l
    else begin_session x (send_hello x (fresh_connection x connection l))

unfoldable pub connect_to : Outside → Option ℕ → Link → Link
connect_to x none l = schedule_reconnect x l
connect_to x (some transport) l =
    emit (Effect.connecting (l.generation + 1) transport)
      (record l { generation = l.generation + 1; connection = some transport })

unfoldable pub begin_connect : Outside → Link → Link
unfolding connect_to
begin_connect x l =
    if l.stopped then l else connect_to x x.transport (record l { attempts = l.attempts + 1 })

-- The callback of `async_connect`.
unfoldable pub connected : Outside → ℕ → ℕ → LinkError → Link → Link
unfolding attach
connected x generation transport error l =
    if not (generation == l.generation) || l.stopped
    then l
    else if is_failure error
    then disconnect x error l
    else if l.options.use_tls
    then emit (Effect.starting_tls generation transport) l
    else attach x transport l

-- The callback of `async_start_tls`.
unfoldable pub tls_done : Outside → ℕ → ℕ → LinkError → Link → Link
unfolding attach
tls_done x generation transport error l =
    if not (generation == l.generation) || l.stopped
    then l
    else if is_failure error
    then disconnect x error l
    else attach x transport l

-- The callback of `async_read`. After an exception there is no next read.
unfoldable pub received : Credentials → Outside → ℕ → LinkError → Bytes → Link → Link
unfolding read_next
received k x generation error bytes l =
    if not (generation == l.generation) || l.stopped
    then l
    else if is_failure error
    then disconnect x error l
    else if length bytes == 0
    then disconnect x LinkError.end_of_stream l
    else (let l' = consume k x bytes (record l { last_activity = x.now; raised = false }) in
        if not l'.raised && generation == l'.generation then read_next generation l' else l')

-- The callback of `async_write`.
unfoldable pub written : Outside → ℕ → LinkError → Link → Link
written x generation error l =
    if not (generation == l.generation) || l.stopped
    then l
    else if is_failure error
    then disconnect x error l
    else write_next generation (record l { writes = drop 1 l.writes })
