-- ===== src/Node/Router/Forward.antt =====
-- src/framework/node/node_proto.cpp: `forward`, `receive`, the task of `handoff`, the callback of
-- `link->notify`, `stop`, and the step that runs one posted task.
use proto_relay.Base.{
  ℕ, ◌+◌, ◌-◌, true, false, not, Option, none, some, [], ◌∷◌, ◌++◌, length, get_elem?, ltb, leb,
  ◌==◌, if◌then◌else◌, Bytes, bytes_eq, min,
}
use proto_relay.Base.Assoc
use proto_relay.Base.Eq.{nat_key, bytes_key}
use proto_relay.Node.Envelope.{Envelope, Decoded, decode_envelope, encode_envelope}
use proto_relay.Node.Router.{
  ReturnPath, MessageErrorCode, Errc, Handoff, Task, Effect, Router, Fresh, post, emit, complete,
  return_route, handoff, report,
}
use proto_relay.Node.Router.Replay.{message_id_seen_and_insert}
use proto_relay.Node.Router.Handlers.{Gcm, run_send, deliver, way_back}

-- The hop to forward to, or `none` for an off-path arrival.
unfoldable pub next_hop : Router → Envelope → Option Bytes
next_hop r e = elim (get_elem? e.route e.route_pos) [
  | none ↦ some e.destination
  | some hop ↦
      if bytes_eq hop r.node_id
      then some
          (elim (get_elem? e.route (e.route_pos + 1)) [ none ↦ e.destination | some after ↦ after ])
      else none
]

-- One hop less to go, and one route entry more consumed.
unfoldable pub hop_on : Envelope → Envelope
hop_on e =
    let consumed = min e.route_pos (length e.route) in
    record e {
      ttl = e.ttl - 1;
      route_pos = if ltb consumed (length e.route) then consumed + 1 else e.route_pos;
    }

unfoldable pub forward_on : Fresh → Envelope → Router → Router
forward_on f e r =
    if not r.options.forward_enabled
    then report f (way_back e) MessageErrorCode.unroutable r
    else elim (next_hop r e) [
      | none ↦ report f (way_back e) MessageErrorCode.unroutable r
      | some next ↦
          if e.ttl == 0
          then report f (way_back e) MessageErrorCode.ttl_exhausted r
          else handoff next (encode_envelope (hop_on e)) (way_back e) false none r
    ]

unfoldable pub forward : Fresh → Envelope → Router → Router
forward f e r =
    let (r', seen) = message_id_seen_and_insert f.now_ms e.message_id r in
    if seen then r' else forward_on f e r'

-- A message of an unregistered type goes back along `route_pos` hops.
abbrev pub untyped_back : Envelope → ReturnPath
untyped_back e = record {
  source = e.source;
  route = return_route e.route e.route_pos;
  message_id = e.message_id;
  silent = false;
}

unfoldable pub receive_decoded : Gcm → Fresh → Decoded → Router → Router
receive_decoded gcm f Decoded.malformed r = r
receive_decoded gcm f Decoded.unknown_version r = r
receive_decoded gcm f (Decoded.ok_unknown_type e) r =
    report f (untyped_back e) MessageErrorCode.unknown_type r
receive_decoded gcm f (Decoded.ok e) r =
    if bytes_eq e.destination r.node_id then deliver gcm f e r else forward f e r

unfoldable pub receive : Gcm → Fresh → Bytes → Router → Router
receive gcm f w r = if r.stopped then r else receive_decoded gcm f (decode_envelope r.options w) r

-- The link takes the string: the write stands in `outstanding` until its callback runs.
unfoldable pub start_write : Handoff → ℕ → Router → Router
start_write h link r =
    emit (Effect.notified link h.wire) (record r { outstanding = r.outstanding ++ h ∷ [] })

-- `if (!is_report) in_flight_.fetch_sub(1)`; `-` stops at 0, where the source would wrap round.
unfoldable pub uncount : Handoff → Router → Router
uncount h r = if h.is_report then r else record r { in_flight = r.in_flight - 1 }

-- The second half of the posted lambda of `handoff`, behind the in-flight bound.
unfoldable pub find_link : Fresh → Handoff → Router → Router
unfolding start_write
find_link f h r = elim (Assoc.lookup h.next r.links) [
  | none ↦
      complete h.completion Errc.host_unreachable
        (report f h.back MessageErrorCode.unroutable (uncount h r))
  | some link ↦ start_write h link r
]

-- `in_flight_.fetch_add(1) >= max_in_flight`, with the `fetch_sub` of its branch.
unfoldable pub run_handoff : Fresh → Handoff → Router → Router
run_handoff f h r =
    if r.stopped
    then complete h.completion Errc.operation_canceled r
    else if h.is_report
    then find_link f h r
    else if leb r.options.max_in_flight r.in_flight
    then complete h.completion Errc.no_buffer_space
        (report f h.back MessageErrorCode.queue_overflow r)
    else find_link f h (record r { in_flight = r.in_flight + 1 })

unfoldable pub write_error : Errc → MessageErrorCode
write_error Errc.no_buffer_space = MessageErrorCode.queue_overflow
write_error _ = MessageErrorCode.unroutable

-- The callback of `link->notify`, with `success` for no error.
unfoldable pub notify_done : Fresh → Handoff → Errc → Router → Router
unfolding write_error
notify_done f h ec r =
    let r' = uncount h r in
    complete h.completion ec
      (elim ec [ Errc.success ↦ r' | failure ↦ report f h.back (write_error failure) r' ])

unfoldable pub stop : Router → Router
unfolding post
stop r = if r.stopped then r else post Task.task_clear_links (record r { stopped = true })

unfoldable pub run_task : Gcm → Fresh → Task → Router → Router
run_task gcm f (Task.task_add_key id key) r = record r { keys = Assoc.insert id key r.keys }
run_task gcm f (Task.task_attach neighbor link) r =
    if r.stopped then r else record r { links = Assoc.insert neighbor link r.links }
run_task gcm f (Task.task_detach neighbor) r = record r { links = Assoc.erase neighbor r.links }
run_task gcm f Task.task_on_message r = record r { message_handler = true }
run_task gcm f Task.task_on_error_report r = record r { error_handler = true }
run_task gcm f (Task.task_send m completion) r = run_send gcm f m completion r
run_task gcm f (Task.task_handoff h) r = run_handoff f h r
run_task gcm f Task.task_clear_links r = record r { links = [] }
