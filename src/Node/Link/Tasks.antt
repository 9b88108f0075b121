-- ===== src/Node/Link/Tasks.antt =====
-- src/framework/node/node_link.cpp: the posted tasks of a link, and the calls that post them.
use proto_relay.Base.{
  ℕ, ◌+◌, ◌-◌, Bool, true, ◌||◌, not, Option, none, some, List, [], ◌∷◌, length, ltb, leb, ◌==◌,
  if◌then◌else◌, Bytes, bytes_eq,
}
use proto_relay.Node.Trust.{Snapshot, trusts}
use proto_relay.Node.LinkWire.{FrameType}
use proto_relay.Node.Link.{
  Link, LinkError, Task, Effect, Outside, emit, post, disconnect, enqueue, enqueue_or, complete,
  complete_all, has_connection,
}
use proto_relay.Node.Link.Sessions.{attach, begin_connect}

-- `std::map::emplace`, which keeps the order of the ids and an entry that is there.
unfoldable pub emplace : ℕ → ℕ → List (ℕ × ℕ) → List (ℕ × ℕ)
emplace id completion [] = (id, completion) ∷ []
emplace id completion ((i, c) ∷ rest) =
    if ltb id i
    then (id, completion) ∷ (i, c) ∷ rest
    else if id == i
    then (i, c) ∷ rest
    else (i, c) ∷ emplace id completion rest

-- `fail` of the lambda of `request`.
unfoldable pub fail_request : LinkError → ℕ → Link → Link
fail_request error completion l =
    emit (Effect.completed completion error []) (record l { outstanding = l.outstanding - 1 })

unfoldable pub sent_request : ℕ → Link × Bool → Link
sent_request id (l, queued) = if queued then l else complete id LinkError.no_buffer_space [] l

unfoldable pub send_request : ℕ → Bytes → ℕ → ℕ → Link → Link
unfolding emplace sent_request
send_request id payload timeout completion l = sent_request id (
    enqueue (record { type = FrameType.request; id = id; payload = payload })
      (emit (Effect.request_timeout id timeout)
        (record l { pending = emplace id completion l.pending })))

-- The lambda of `request`.
unfoldable pub run_request : ℕ → Bytes → ℕ → ℕ → Link → Link
unfolding fail_request send_request
run_request id payload timeout completion l =
    if l.stopped
    then fail_request LinkError.operation_canceled completion l
    else if not l.ready
    then fail_request LinkError.not_connected completion l
    else if leb l.options.max_pending_requests (length l.pending)
        || leb l.options.max_queued_frames (length l.writes)
    then fail_request LinkError.no_buffer_space completion l
    else if ltb (l.options.max_frame_bytes - 10) (length payload)
    then fail_request LinkError.message_size completion l
    else send_request id payload timeout completion l

unfoldable pub run_respond : Outside → ℕ → Bytes → Link → Link
run_respond x id payload l =
    if l.ready
    then enqueue_or x LinkError.no_buffer_space
        (record { type = FrameType.response; id = id; payload = payload }) l
    else l

unfoldable pub tell : Option ℕ → LinkError → Link → Link
tell none error l = l
tell (some completion) error l = emit (Effect.notified completion error) l

-- The lambdas of `notify` and `send_epoch_config`, by the type of their frame.
unfoldable pub run_notify : FrameType → Bytes → Option ℕ → Link → Link
unfolding tell
run_notify type payload completion l =
    if l.stopped
    then tell completion LinkError.operation_canceled l
    else if not l.ready
    then tell completion LinkError.not_connected l
    else (let (l', queued) = enqueue (record { type = type; id = 0; payload = payload }) l in
        tell completion (if queued then LinkError.success else LinkError.no_buffer_space) l')

-- The peer that the link has, or else the one that it expects.
unfoldable pub recheck_target : Link → Bytes
recheck_target l = if length l.peer_id == 0 then l.options.expected_peer_id else l.peer_id

-- The lambda of `recheck_trust`.
unfoldable pub run_recheck : Outside → Snapshot → Link → Link
unfolding recheck_target
run_recheck x snapshot l =
    if l.stopped
      || (length (recheck_target l) == 0
          || (bytes_eq (recheck_target l) l.options.node_id
              || trusts (recheck_target l) snapshot.neighbors))
    then l
    else disconnect x LinkError.permission_denied (record l { peer_revoked = true })

unfoldable pub run_start : Outside → ℕ → Link → Link
unfolding begin_connect
run_start x port l =
    if l.stopped || (has_connection l || l.started)
    then l
    else begin_connect x (record l { started = not (port == 0) })

unfoldable pub stop_on_executor : Outside → Link → Link
stop_on_executor x l =
    let l' = disconnect x LinkError.operation_canceled l in
    complete_all LinkError.operation_canceled l'.pending l'

unfoldable pub run_task : Outside → Task → Link → Link
unfolding run_start attach run_request run_respond run_notify run_recheck stop_on_executor
run_task x (Task.task_start port) l = run_start x port l
run_task x (Task.task_attach connection) l = attach x connection l
run_task x (Task.task_request id payload timeout completion) l =
    run_request id payload timeout completion l
run_task x (Task.task_cancel id) l = complete id LinkError.operation_canceled [] l
run_task x (Task.task_respond id payload) l = run_respond x id payload l
run_task x (Task.task_notify payload completion) l =
    run_notify FrameType.notify payload completion l
run_task x (Task.task_epoch_config payload completion) l =
    run_notify FrameType.epoch_config payload completion l
run_task x Task.task_on_request l = record l { request_handler = true }
run_task x Task.task_on_notify l = record l { notify_handler = true }
run_task x Task.task_on_state l = record l { state_handler = true }
run_task x (Task.task_recheck snapshot) l = run_recheck x snapshot l
run_task x Task.task_stop l = stop_on_executor x l

unfoldable pub run_posted : Outside → List Task → Link → Link
unfolding run_task
run_posted x [] l = l
run_posted x (t ∷ rest) l = run_task x t (record l { posted = rest })

-- `request`, whose completion is a number. `outstanding` counts the call from here on.
unfoldable pub request : Bytes → ℕ → ℕ → Link → Link
request payload timeout completion l =
    let l' = record l { next_id = l.next_id + 1 } in
    if leb l.options.max_pending_requests l.outstanding
    then emit (Effect.completed completion LinkError.no_buffer_space []) l'
    else post (Task.task_request l.next_id payload timeout completion)
        (record l' { outstanding = l.outstanding + 1 })

-- `stop`
unfoldable pub stop : Link → Link
stop l = post Task.task_stop (record l { stopped = true })
