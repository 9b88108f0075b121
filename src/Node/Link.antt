-- ===== src/Node/Link.antt =====
-- src/framework/node/node_link.cpp, include/framework/node/node_link.h: the state of `NodeLink` and
-- its helpers. The executor runs posted tasks and callbacks one at a time. A connection, a transport
-- and a completion are numbers; timers and reads stand in the log of what the link asked for.
pub mod Handlers
pub mod Sessions
pub mod Tasks
pub mod Events
pub mod Kept
pub mod KeptSteps
pub mod KeptSessions
pub mod KeptTasks
pub mod Completions
pub mod Calm
pub mod Handshake
pub mod Drained
pub mod Nonces
pub mod Replay
pub mod Revoked
use proto_relay.Base.{
  ℕ, zero, suc, ◌+◌, ◌-◌, ◌*◌, ◌/◌, ◌%◌, ◌^◌, Bool, true, false, ◌&&◌, ◌||◌, not, Option, none,
  some, List, [], ◌∷◌, ◌++◌, length, ltb, leb, ◌==◌, if◌then◌else◌, min, Bytes, bytes_eq,
}
use proto_relay.Base.Assoc
use proto_relay.Base.Eq.{nat_key}
use proto_relay.Node.Trust.{Snapshot, TrustStore}
use proto_relay.Node.LinkWire.{Frame, Challenge, encode_frame}

pub record LinkOptions : Type 0 where
  pub node_id : Bytes
  pub expected_peer_id : Bytes
  pub max_frame_bytes : ℕ
  pub max_pending_requests : ℕ
  pub max_queued_frames : ℕ
  pub heartbeat_interval : ℕ
  pub heartbeat_timeout : ℕ
  pub reconnect_min : ℕ
  pub reconnect_max : ℕ
  pub use_tls : Bool

pub data AuthState : Type 0 where
  challenging responding done : AuthState

-- The error codes that a link gives out.
pub data LinkError : Type 0 where
  success protocol_error permission_denied timed_out no_buffer_space not_connected : LinkError
  operation_canceled operation_not_permitted message_size end_of_stream io_error : LinkError

-- A posted lambda. `task_start` has the port.
pub data Task : Type 0 where
  task_start : ℕ → Task
  task_attach : ℕ → Task
  task_request : ℕ → Bytes → ℕ → ℕ → Task
  task_cancel : ℕ → Task
  task_respond : ℕ → Bytes → Task
  task_notify : Bytes → Option ℕ → Task
  task_epoch_config : Bytes → Option ℕ → Task
  task_on_request : Task
  task_on_notify : Task
  task_on_state : Task
  task_recheck : Snapshot → Task
  task_stop : Task

-- What a link asks of its connection and its timers, and the callbacks that it posts.
pub data Effect : Type 0 where
  connecting : ℕ → ℕ → Effect
  starting_tls : ℕ → ℕ → Effect
  reading : ℕ → Effect
  writing_bytes : ℕ → Bytes → Effect
  closed : ℕ → Effect
  heartbeat_after : ℕ → Effect
  reconnect_after : ℕ → Effect
  request_timeout : ℕ → ℕ → Effect
  completed : ℕ → LinkError → Bytes → Effect
  notified : ℕ → LinkError → Effect
  request_received : ℕ → Bytes → Effect
  notify_received : Bytes → Effect
  state_changed : Bool → LinkError → Effect
  exception : Effect

-- `started` is `port_ != 0`; `raised` says that an exception has left the callback that runs.
pub record Link : Type 0 where
  pub options : LinkOptions
  pub client : Bool
  pub authenticated : Bool
  pub trust : TrustStore
  pub started : Bool
  pub connection : Option ℕ
  pub pending : List (ℕ × ℕ)
  pub writes : List Bytes
  pub incoming : Bytes
  pub peer_id : Bytes
  pub peer_epoch : ℕ
  pub request_handler : Bool
  pub notify_handler : Bool
  pub state_handler : Bool
  pub ready : Bool
  pub stopped : Bool
  pub next_id : ℕ
  pub attempts : ℕ
  pub outstanding : ℕ
  pub generation : ℕ
  pub reconnect_count : ℕ
  pub auth_state : AuthState
  pub own_challenge : Challenge
  pub peer_challenge : Challenge
  pub writing : Bool
  pub awaiting_pong : Bool
  pub peer_revoked : Bool
  pub seen_nonces : List Bytes
  pub last_activity : ℕ
  pub ping_sent : ℕ
  pub raised : Bool
  pub posted : List Task
  pub effects : List Effect

-- What a step reads from the outside: the clock, fresh random bytes, the jitter drawn for a
-- reconnect, and the transport that the factory makes, `none` where it is refused.
pub record Outside : Type 0 where
  pub now : ℕ
  pub nonce : Bytes
  pub jitter : ℕ
  pub transport : Option ℕ

abbrev pub no_challenge : Challenge
no_challenge = record { node_id = []; epoch = 0; nonce = [] }

abbrev pub nonce_cache : ℕ
nonce_cache = 256

-- The checks of the constructor on the numbers and the ids.
unfoldable pub bad_options : LinkOptions → Bool
bad_options o =
    length o.node_id == 0
    || (ltb o.max_frame_bytes 10
        || (ltb (2 ^ 32 - 1) o.max_frame_bytes
            || (o.max_pending_requests == 0
                || (o.max_queued_frames == 0
                    || (o.heartbeat_interval == 0
                        || (o.heartbeat_timeout == 0
                            || (o.reconnect_min == 0
                                || (ltb o.reconnect_max o.reconnect_min
                                    || ltb (o.max_frame_bytes - 10) (length o.node_id)))))))))

unfoldable pub new_link : LinkOptions → Bool → Bool → TrustStore → Link
new_link options client authenticated trust = record {
  options = options;
  client = client;
  authenticated = authenticated;
  trust = trust;
  started = false;
  connection = none;
  pending = [];
  writes = [];
  incoming = [];
  peer_id = [];
  peer_epoch = 0;
  request_handler = false;
  notify_handler = false;
  state_handler = false;
  ready = false;
  stopped = false;
  next_id = 1;
  attempts = 0;
  outstanding = 0;
  generation = 0;
  reconnect_count = 0;
  auth_state = AuthState.challenging;
  own_challenge = no_challenge;
  peer_challenge = no_challenge;
  writing = false;
  awaiting_pong = false;
  peer_revoked = false;
  seen_nonces = [];
  last_activity = 0;
  ping_sent = 0;
  raised = false;
  posted = [];
  effects = [];
}

-- The constructor, `none` where it throws.
unfoldable pub create_link : LinkOptions → Bool → Bool → TrustStore → Option Link
create_link options client authenticated trust =
    if bad_options options then none else some (new_link options client authenticated trust)

unfoldable pub emit : Effect → Link → Link
emit x l = record l { effects = l.effects ++ x ∷ [] }

-- An exception leaves the callback.
unfoldable pub raise : Link → Link
unfolding emit
raise l = record (emit exception l) { raised = true }

unfoldable pub post : Task → Link → Link
post t l = record l { posted = l.posted ++ t ∷ [] }

-- The completion of the request with this id, if it is still pending.
unfoldable pub complete_found : ℕ → LinkError → Bytes → Option ℕ → Link → Link
unfolding emit
complete_found id error payload none l = l
complete_found id error payload (some completion) l =
    emit (completed completion error payload)
      (record l { pending = Assoc.erase id l.pending; outstanding = l.outstanding - 1 })

unfoldable pub complete : ℕ → LinkError → Bytes → Link → Link
unfolding complete_found
complete id error payload l = complete_found id error payload (Assoc.lookup id l.pending) l

-- `while (!pending_.empty()) complete(pending_.begin()->first, error, {})`, over the entries that
-- stand there when it starts; each turn removes one.
unfoldable pub complete_all : LinkError → List (ℕ × ℕ) → Link → Link
complete_all error [] l = l
complete_all error ((id, completion) ∷ rest) l = complete_all error rest (complete id error [] l)

unfoldable pub emit_state : Bool → LinkError → Link → Link
unfolding emit
emit_state state error l = if l.state_handler then emit (state_changed state error) l else l

-- `int64_t(1) << exponent`
unfoldable pub backoff : LinkOptions → ℕ → ℕ
backoff o count = min o.reconnect_max (o.reconnect_min * 2 ^ min count 20)

-- `std::max<int64_t>(1, base / 4)` bounds the jitter.
unfoldable pub reconnect_delay : LinkOptions → ℕ → ℕ → ℕ
unfolding backoff
reconnect_delay o count drawn =
    let base = backoff o count in
    let most = if leb 1 (base / 4) then base / 4 else 1 in
    min o.reconnect_max (base + min drawn most)

unfoldable pub schedule_reconnect : Outside → Link → Link
unfolding emit
schedule_reconnect x l =
    if l.stopped
    then l
    else emit (reconnect_after (reconnect_delay l.options l.reconnect_count x.jitter))
        (record l { reconnect_count = l.reconnect_count + 1 })

-- The connection is gone: the members that `disconnect` resets.
unfoldable pub reset_connection : ℕ → Link → Link
unfolding emit
reset_connection connection l = emit (closed connection) (record l {
  ready = false;
  peer_id = [];
  peer_epoch = 0;
  generation = l.generation + 1;
  auth_state = AuthState.challenging;
  connection = none;
  writes = [];
  writing = false;
  incoming = [];
  awaiting_pong = false;
})

unfoldable pub is_failure : LinkError → Bool
is_failure success = false
is_failure _ = true

-- `if (client_ && !stopped_ && !peer_revoked_) schedule_reconnect()`
unfoldable pub maybe_reconnect : Outside → Link → Link
unfolding schedule_reconnect
maybe_reconnect x l =
    if l.client && (not l.stopped && not l.peer_revoked) then schedule_reconnect x l else l

unfoldable pub disconnect_from : Outside → LinkError → ℕ → Link → Link
unfolding reset_connection complete_all emit_state maybe_reconnect is_failure
disconnect_from x error connection l =
    let l1 = reset_connection connection l in
    let l2 = complete_all error l1.pending l1 in
    maybe_reconnect x (if l.ready || is_failure error then emit_state false error l2 else l2)

unfoldable pub disconnect_at : Outside → LinkError → Option ℕ → Link → Link
unfolding disconnect_from
disconnect_at x error none l = l
disconnect_at x error (some connection) l = disconnect_from x error connection l

-- `if (!connection_) return`, and the rest.
unfoldable pub disconnect : Outside → LinkError → Link → Link
unfolding disconnect_at
disconnect x error l = disconnect_at x error l.connection l

-- The front of the queue goes to the connection.
unfoldable pub write_front : Option ℕ → List Bytes → Link → Link
unfolding emit
write_front none writes l = record l { writing = false }
write_front (some connection) [] l = record l { writing = false }
write_front (some connection) (bytes ∷ rest) l =
    emit (writing_bytes l.generation bytes) (record l { writing = true })

unfoldable pub write_next : ℕ → Link → Link
unfolding write_front
write_next generation l =
    if generation == l.generation
    then write_front l.connection l.writes l
    else record l { writing = false }

unfoldable pub has_connection : Link → Bool
has_connection l = elim l.connection [ none ↦ false | some _ ↦ true ]

unfoldable pub push_write : Option Bytes → Link → Link × Bool
unfolding write_next raise
push_write none l = (raise l, false)
push_write (some bytes) l =
    let l' = record l { writes = l.writes ++ bytes ∷ [] } in
    (if l'.writing then l' else write_next l'.generation l', true)

unfoldable pub enqueue : Frame → Link → Link × Bool
unfolding push_write has_connection
enqueue f l =
    if ltb (l.options.max_frame_bytes - 10) (length f.payload)
      || (leb l.options.max_queued_frames (length l.writes) || not (has_connection l))
    then (l, false)
    else push_write (encode_frame f) l

-- `if (!enqueue(...)) disconnect(error)`
unfoldable pub enqueue_or : Outside → LinkError → Frame → Link → Link
unfolding enqueue disconnect
enqueue_or x error f l =
    let (l', queued) = enqueue f l in if queued then l' else disconnect x error l'

unfoldable pub set_peer : Bytes → ℕ → Link → Link
set_peer id epoch l = record l { peer_id = id; peer_epoch = epoch }

-- The handshake is over.
unfoldable pub become_ready : Bytes → ℕ → Link → Link
unfolding set_peer emit_state
become_ready id epoch l = emit_state true success (record (set_peer id epoch l) {
  auth_state = AuthState.done;
  reconnect_count = 0;
  ready = true;
})
