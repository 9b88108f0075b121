-- ===== src/Node/Router.antt =====
-- src/framework/node/node_proto.cpp: the state of `NodeRouter` and its helpers. The executor runs
-- posted tasks one at a time, so the state holds their queue, the writes that a link has taken and
-- has not called back for, and a log of what the router did to the outside. A link is a number. The nonce
-- windows are shared by pointer in the source: `nonces` takes a source to an address in `windows`.
pub mod Replay
pub mod Handlers
pub mod Forward
mod Quiet
pub mod Flight
pub mod Guarantees
pub mod Loops
pub mod Hops
pub mod Requests
use mathlib.Core.List.{reverse}
use proto_relay.Base.{
  ℕ, ◌+◌, ◌-◌, ◌*◌, ◌/◌, ◌%◌, ◌^◌, Bool, true, false, not, ◌&&◌, ◌||◌, Option, none, some, List, [],
  ◌∷◌, ◌++◌, length, drop, ltb, leb, ◌==◌, if◌then◌else◌, Bytes, bytes_eq,
}
use proto_relay.Base.Wire.{put}
use proto_relay.LruCache.{LruCache, create}
use proto_relay.Node.Envelope.{
  MessageType, Envelope, NodeRouterOptions, Encoded, encoded, thrown, Exception, encode_envelope,
}

pub record ReturnPath : Type 0 where
  pub source : Bytes
  pub route : List Bytes
  pub message_id : ℕ
  pub silent : Bool

pub data MessageErrorCode : Type 0 where
  unroutable ttl_exhausted replay_rejected decrypt_failed unknown_type queue_overflow :
      MessageErrorCode

unfoldable pub error_code : MessageErrorCode → ℕ
error_code unroutable = 1
error_code ttl_exhausted = 2
error_code replay_rejected = 3
error_code decrypt_failed = 4
error_code unknown_type = 5
error_code queue_overflow = 6

-- The `std::errc` values that a completion gets.
pub data Errc : Type 0 where
  success operation_canceled invalid_argument message_size not_supported : Errc
  protocol_error no_buffer_space host_unreachable other : Errc

-- What `handoff` captures. A completion is a number that its caller knows.
pub record Handoff : Type 0 where
  pub next : Bytes
  pub wire : Bytes
  pub back : ReturnPath
  pub is_report : Bool
  pub completion : Option ℕ

-- A posted lambda.
pub data Task : Type 0 where
  task_add_key : ℕ → Bytes → Task
  task_attach : Bytes → ℕ → Task
  task_detach : Bytes → Task
  task_on_message : Task
  task_on_error_report : Task
  task_send : Envelope → Option ℕ → Task
  task_handoff : Handoff → Task
  task_clear_links : Task

pub data Effect : Type 0 where
  notified : ℕ → Bytes → Effect
  delivered : Envelope → Effect
  error_reported : Envelope → ℕ → ℕ → Effect
  completed : ℕ → Errc → Effect
  raised : Exception → Effect

pub record Router : Type 0 where
  pub node_id : Bytes
  pub options : NodeRouterOptions
  pub links : List (Bytes × ℕ)
  pub keys : List (ℕ × Bytes)
  pub message_handler : Bool
  pub error_handler : Bool
  pub nonces : LruCache Bytes ℕ
  pub windows : List (ℕ × LruCache ℕ (Unit {0}))
  pub next_window : ℕ
  pub seen_ids : LruCache ℕ (Unit {0})
  pub window : ℕ
  pub in_flight : ℕ
  pub stopped : Bool
  pub posted : List Task
  pub outstanding : List Handoff
  pub effects : List Effect

-- What a step reads from the clocks and the two random generators. The caches run on the steady
-- clock; the router reads no staleness, so `now_ms` stands for that clock too.
pub record Fresh : Type 0 where
  pub now_ms : ℕ
  pub rand32 : ℕ
  pub rand64 : ℕ

unfoldable pub post : Task → Router → Router
post t r = record r { posted = r.posted ++ t ∷ [] }

unfoldable pub emit : Effect → Router → Router
emit x r = record r { effects = r.effects ++ x ∷ [] }

-- `if (completion) completion(ec)`
unfoldable pub complete : Option ℕ → Errc → Router → Router
unfolding emit
complete none ec r = r
complete (some c) ec r = emit (completed c ec) r

-- The constructor: the caches and the retention of the replay window, in seconds.
unfoldable pub new_router : Bytes → NodeRouterOptions → Router
unfolding create
new_router node_id options =
    let seconds = (2 * options.timestamp_tolerance + 999) / 1000 in
    let window = if leb 1 seconds then seconds else 1 in
    record {
      node_id = node_id;
      options = options;
      links = [];
      keys = [];
      message_handler = false;
      error_handler = false;
      nonces = create Bytes ℕ options.max_tracked_sources window;
      windows = [];
      next_window = 0;
      seen_ids = create ℕ (Unit {0}) options.seen_message_capacity window;
      window = window;
      in_flight = 0;
      stopped = false;
      posted = [];
      outstanding = [];
      effects = [];
    }

-- `NodeRouter::create`, `none` where it throws.
unfoldable pub create_router : Bytes → NodeRouterOptions → Option Router
unfolding new_router
create_router node_id o =
    if length node_id == 0
      || ltb 255 (length node_id)
      || o.max_node_id_bytes == 0
      || ltb 255 o.max_node_id_bytes
      || o.max_route_hops == 0
      || ltb 255 o.max_route_hops
      || o.max_hops == 0
      || o.max_in_flight == 0
      || o.seen_message_capacity == 0
      || o.nonce_capacity == 0
      || o.max_tracked_sources == 0
      || ltb o.max_envelope_bytes 32
    then none
    else some (new_router node_id o)

-- `vector(route.rbegin() + (route.size() - consumed), route.rend())`
unfoldable pub return_route : List Bytes → ℕ → List Bytes
return_route route consumed = drop (length route - consumed) (reverse route)

unfoldable pub send_fresh : Router → Fresh → Envelope → Envelope
send_fresh r f m = record m {
  source = r.node_id;
  ttl = if m.ttl == 0 then r.options.max_hops else m.ttl;
  nonce = if m.nonce == 0 then f.rand32 else m.nonce;
  timestamp_ms = if m.timestamp_ms == 0 then f.now_ms else m.timestamp_ms;
  message_id = if m.message_id == 0 then f.rand64 else m.message_id;
  route_pos = 0;
}

-- `handoff` posts; its argument is evaluated first and may throw.
unfoldable pub handoff : Bytes → Encoded → ReturnPath → Bool → Option ℕ → Router → Router
unfolding post emit
handoff next (encoded w) back is_report completion r =
    post
      (task_handoff (record {
        next = next;
        wire = w;
        back = back;
        is_report = is_report;
        completion = completion;
      }))
      r
handoff next (thrown x) back is_report completion r = emit (raised x) r

-- `r.route.empty() ? r.destination : r.route.front()`
unfoldable pub first_hop : Envelope → Bytes
first_hop e = elim e.route [ [] ↦ e.destination | hop ∷ _ ↦ hop ]

-- A message that the router itself makes, before `send_fresh`.
abbrev pub blank : MessageType → Bytes → List Bytes → Bytes → Envelope
blank type destination route payload = record {
  version = 1;
  type = type;
  encrypted = false;
  key_id = 0;
  ttl = 0;
  nonce = 0;
  timestamp_ms = 0;
  message_id = 0;
  source = [];
  destination = destination;
  route = route;
  route_pos = 0;
  payload = payload;
}

-- Reports and acknowledgements: sent fresh, past the in-flight bound, with a silent return path.
unfoldable pub send_generated : Fresh → Envelope → Router → Router
unfolding send_fresh handoff first_hop
send_generated f m r =
    let e = send_fresh r f m in
    handoff (first_hop e) (encode_envelope e)
      (record { source = e.source; route = []; message_id = e.message_id; silent = true }) true none
      r

unfoldable pub report : Fresh → ReturnPath → MessageErrorCode → Router → Router
unfolding error_code
report f back code r =
    if back.silent || length back.source == 0 || bytes_eq back.source r.node_id || r.stopped
    then r
    else send_generated f
        (blank MessageType.error back.source back.route (error_code code ∷ put 8 back.message_id)) r
